-- ===== src/Optimizer/QueryGraph/Edges.antt =====
-- `hasJoinEdge`: when it returns, and what it answers.
use fact_db.Prelude.{
  ℕ, ◌<◌, ◌≡◌, ◌↔◌, ◌⊎◌, refl, Bool, true, false, some, [], ◌∷◌, arith, ◌>>=◌, length, All,
  Bool-cases, inl, inr,
}
use fact_db.BitSet.Word.{BitSet64, IsWord, is_empty, contains, to_list, empty_set}
use fact_db.BitSet.Var.{BitSetVar}
use fact_db.BitSet.Var.OneWord.{new_word}
use fact_db.Optimizer.QueryGraph.{QueryGraph, gather, any_edge, has_join_edge}
use fact_db.Optimizer.QueryGraph.Gather.{
  OneWord, IsSide, Shares, gather-unite_sets, unite_sets-IsSide, intersects-Shares,
}
use fact_db.Optimizer.QueryGraph.Spans.{WordJoin, AnySpans, any_edge_iff}

-- What `hasJoinEdge` needs of a graph: the sets of classes of all relations, fewer than 64 columns,
-- and joins over words.
pub record IsReady (graph : QueryGraph) : Type 0 where
  pub classes : All OneWord graph.relations2equiv_classes
  pub strong_classes : All OneWord graph.relations2strong_equiv_classes
  pub all_relations : length graph.relations2equiv_classes ≡ length graph.relations
  pub all_strong : length graph.relations2strong_equiv_classes ≡ length graph.relations
  pub few : length graph.equivalent_ius.id2type < 64
  pub few_strong : length graph.inner_join_equivalent_ius.id2type < 64
  pub words : All WordJoin graph.joins

-- A side of a call: a word, not empty, of relations of the graph.
pub record IsPart (graph : QueryGraph) (side : BitSet64) : Type 0 where
  pub word : IsWord side
  pub inhabited : is_empty side ≡ false
  pub below : (i : ℕ) → contains side i ≡ true → i < length graph.relations

none_of : BitSetVar
none_of = record { sets = empty_set ∷ [] }

-- What the loop over a side gives.
gather-IsSide :
    (graph : QueryGraph) (side : BitSet64)
    → IsReady graph
    → IsPart graph side
    → (all : BitSetVar) × (strong : BitSetVar) × (gather graph none_of none_of (to_list side)
        ≡ some (all, strong))
      × IsSide graph.relations2equiv_classes side all
      × IsSide graph.relations2strong_equiv_classes side strong
unfolding none_of
gather-IsSide graph side ready part =
    let (all, run, a) =
      unite_sets-IsSide graph.relations2equiv_classes none_of side ready.classes refl part.word
        (λ i h. omega (arith, part.below i h, ready.all_relations)) in
    let (strong, run', b) =
      unite_sets-IsSide graph.relations2strong_equiv_classes none_of side ready.strong_classes refl
        part.word (λ i h. omega (arith, part.below i h, ready.all_strong)) in
    (all, strong, gather-unite_sets graph none_of none_of all strong (to_list side) run run', a, b)

-- On a graph with a set of classes for each relation, fewer than 64 columns and joins over 64
-- bit words, and for two sides of relations of the graph that are not empty, hasJoinEdge
-- returns; it answers true exactly if the sides have a class of the inner joins in common, or
-- they have a class of all joins in common and a join names only relations of the left side on
-- its left and of the right side on its right, or is an inner join and does so the other way
-- round.
pub has_join_edge_lem :
    (graph : QueryGraph) (left right : BitSet64)
    → IsReady graph
    → IsPart graph left
    → IsPart graph right
    → (ans : Bool) × (has_join_edge graph left right ≡ some ans)
      × ((ans ≡ true) ↔ (
          Shares graph.relations2strong_equiv_classes left right
          ⊎ Shares graph.relations2equiv_classes left right × AnySpans graph.joins left right))
unfolding has_join_edge none_of
has_join_edge_lem graph left right ready part part' =
    let (l, ls, run, sl, sls) = gather-IsSide graph left ready part in
    let (r, rs, run', sr, srs) = gather-IsSide graph right ready part' in
    let (strong, runs, strong_iff) =
      intersects-Shares graph.relations2strong_equiv_classes left right ls rs sls srs in
    let (weak, runw, weak_iff) =
      intersects-Shares graph.relations2equiv_classes left right l r sl sr in
    let start = new_word (length graph.equivalent_ius.id2type) ready.few in
    let start' = new_word (length graph.inner_join_equivalent_ius.id2type) ready.few_strong in
    let edge = any_edge_iff graph.joins left right ready.words in
    elim (Bool-cases strong) [
      | inl e ↦ (
        true,
        rw (part.inhabited, part'.inhabited, start, start', ◌>>=◌, run, run', runs, e) refl,
        (λ _. inl (strong_iff.0 e), λ _. refl),
      )
      | inr e ↦ elim (Bool-cases weak) [
        | inl f ↦ (
          any_edge graph.joins left right,
          rw (part.inhabited, part'.inhabited, start, start', ◌>>=◌, run, run', runs, e, runw, f)
              refl,
          (
            λ h. inr (weak_iff.0 f, edge.0 h),
            λ h. elim h [ inl x ↦ absurd (ground (arith, strong_iff.1 x)) | inr (x, y) ↦ edge.1 y ],
          ),
        )
        | inr f ↦ (
          false,
          rw (part.inhabited, part'.inhabited, start, start', ◌>>=◌, run, run', runs, e, runw, f)
              refl,
          (
            λ h. absurd (cc),
            λ h. elim h [
              | inl x ↦ absurd (ground (arith, strong_iff.1 x))
              | inr (x, y) ↦ absurd (ground (arith, weak_iff.1 x))
            ],
          ),
        )
      ]
    ]
