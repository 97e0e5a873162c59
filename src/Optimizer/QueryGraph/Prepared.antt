-- ===== src/Optimizer/QueryGraph/Prepared.antt =====
-- `hasJoinEdge` on a graph that `prepareForOptimization` has made.
use fact_db.Prelude.{
  ℕ, ◌≡◌, ◌⊎◌, ◌↔◌, sym, ◌∙◌, ap, Bool, true, some, List, inl, inr, get_elem?, some_injective,
}
use mathlib.Core.Path.{subst}
use fact_db.BitSet.Word.{BitSet64}
use fact_db.BitSet.Word
use fact_db.BitSet.Var.{BitSetVar}
use fact_db.UnionFind.Closure.{Closure}
use fact_db.UnionFind.Values.{ValueUnionFind, contains, lookup}
use fact_db.Optimizer.QueryGraph.{QueryGraph, has_join_edge}
use fact_db.Optimizer.QueryGraph.Gather.{Has, Shares}
use fact_db.Optimizer.QueryGraph.Spans.{AnySpans}
use fact_db.Optimizer.QueryGraph.Edges.{IsPart, has_join_edge_lem}
use fact_db.Optimizer.QueryGraph.Compared.{Compared, InnerCompared}
use fact_db.Optimizer.QueryGraph.Generate.{Classifies}
use fact_db.Optimizer.QueryGraph.Contract.{Belongs, IsPrepared, find_const-contains}

-- A column of a join condition in a table of the side, that the structure knows.
abbrev pub ColumnOf :
    (ℕ → ℕ) → List (ℕ × ℕ) → ValueUnionFind → List (List ℕ) → BitSet64 → ℕ → Type 0
ColumnOf table ids u infos side iu =
    (i : ℕ) × (n : ℕ) × (ius : List ℕ) × (get_elem? infos i ≡ some ius)
    × (get_elem? ius n ≡ some iu)
    × (contains u iu ≡ true)
    × (rel : ℕ) × (lookup ids (table iu) ≡ some rel)
    × (fact_db.BitSet.Word.contains side rel ≡ true)

-- Columns of the two sides that the relation connects.
abbrev pub Meets :
    (ℕ → ℕ)
    → (ℕ → ℕ → Type 0)
    → List (ℕ × ℕ)
    → ValueUnionFind
    → List (List ℕ)
    → BitSet64
    → BitSet64
    → Type 0
Meets table E ids u infos left right =
    (a : ℕ) × (b : ℕ) × ColumnOf table ids u infos left a
    × ColumnOf table ids u infos right b
    × Closure E a b

Shares-Meets :
    (table : ℕ → ℕ) (E : ℕ → ℕ → Type 0) (ids : List (ℕ × ℕ)) (u : ValueUnionFind)
    (infos : List (List ℕ)) (classes : List BitSetVar) (left right : BitSet64)
    → ((rel c : ℕ) → Has classes rel c ↔ Belongs table ids u infos rel c)
    → Classifies E u
    → Shares classes left right ↔ Meets table E ids u infos left right
Shares-Meets table E ids u infos classes left right sets (known, classified) = (
  λ (c, (rel, side, has), (rel', side', has')).
      let (i, n, ius, a, g, at, named, found) = (sets rel c).0 has in
      let (i', n', ius', b, g', at', named', found') = (sets rel' c).0 has' in
      let ca = find_const-contains u a c found in
      let cb = find_const-contains u b c found' in
      let (x, y, fx, fy, (to, from)) = classified a b ca cb in
      (
        a,
        b,
        (i, n, ius, g, at, ca, rel, named, side),
        (i', n', ius', g', at', cb, rel', named', side'),
        to (some_injective (sym fx ∙ found ∙ sym found' ∙ fy)),
      ),
  λ (
    a,
    b,
    (i, n, ius, g, at, ca, rel, named, side),
    (i', n', ius', g', at', cb, rel', named', side'),
    path,
  ).
      let (x, y, fx, fy, (to, from)) = classified a b ca cb in
      (
        x,
        (rel, side, (sets rel x).1 (i, n, ius, a, g, at, named, fx)),
        (
          rel',
          side',
          (sets rel' x).1 (i', n', ius', b, g', at', named', fy ∙ ap some (sym (from path))),
        ),
      ),
)

-- On a graph that prepareForOptimization has made of another as IsPrepared says, and for two
-- sides of relations of the graph that are 64 bit words and not empty, hasJoinEdge returns. It
-- answers true exactly if columns of the join conditions in tables of the two sides, known to
-- the structure of the inner joins, are related by the least equivalence that relates the
-- columns of each condition of an inner join, or such columns are related by the one for the
-- conditions of all joins and a join names only relations of the left side on its left and of
-- the right side on its right, or is an inner join and does so the other way round.
pub has_join_edge-IsPrepared :
    (table : ℕ → ℕ) (graph graph' : QueryGraph) (left right : BitSet64)
    → IsPrepared table graph graph'
    → IsPart graph' left
    → IsPart graph' right
    → (ans : Bool) × (has_join_edge graph' left right ≡ some ans)
      × ((ans ≡ true) ↔ (
          Meets table
            (InnerCompared graph.join_infos graph.joins)
            graph'.relation2id
            graph'.inner_join_equivalent_ius
            graph.join_infos
            left
            right
          ⊎ Meets table
              (Compared graph.join_infos graph.joins)
              graph'.relation2id
              graph'.equivalent_ius
              graph.join_infos
              left
              right
            × AnySpans graph.joins left right))
has_join_edge-IsPrepared table graph graph' left right p part part' =
    let (ans, run, (to, from)) = has_join_edge_lem graph' left right p.ready part part' in
    let inner =
      Shares-Meets table (InnerCompared graph.join_infos graph.joins) graph'.relation2id
        graph'.inner_join_equivalent_ius graph.join_infos graph'.relations2strong_equiv_classes left
        right p.inner_sets p.inner_classes in
    let any =
      Shares-Meets table (Compared graph.join_infos graph.joins) graph'.relation2id
        graph'.equivalent_ius graph.join_infos graph'.relations2equiv_classes left right p.sets
        p.classes in
    (
      ans,
      run,
      (
        λ h. elim (to h) [
          | inl x ↦ inl (inner.0 x)
          | inr (x, y) ↦ inr (any.0 x, subst (λ js. AnySpans js left right) p.same_joins y)
        ],
        λ h. elim h [
          | inl x ↦ from (inl (inner.1 x))
          | inr (x, y) ↦
              from (inr (any.1 x, subst (λ js. AnySpans js left right) (sym p.same_joins) y))
        ],
      ),
    )
