-- ===== src/Optimizer/QueryGraph/Connected.antt =====
-- `isGraphConnected`: what its union-find structure holds, and what it answers.
use fact_db.Prelude.{
  ℕ, zero, suc, ◌<◌, ◌≡◌, ◌↔◌, refl, sym, ◌∙◌, Bool, true, false, some, List, [], ◌∷◌, arith, ◌>>=◌,
  length, get_elem?, All, some_injective,
}
use mathlib.Core.Path.{subst}
use fact_db.BitSet.Word.{BitSet64, IsWord, is_empty, union, contains, to_list, front}
use fact_db.BitSet.Word.Members.{contains-union, operators-IsWord}
use fact_db.BitSet.Word.Each.{All-to_list, All-to_list_at, contains-front}
use fact_db.UnionFind.{Elements, new}
use fact_db.UnionFind.Paths.{Reaches}
use fact_db.UnionFind.Queries.{Verdict, Reaches-lt, is_single_set_lem}
use fact_db.UnionFind.Merge.{Closure-Same}
use fact_db.UnionFind.Closure.{
  Closure, stay, forth, Same, RootIs, RootIs-functional, RootIs-total, Same-sym, Same-trans, Joins,
  union_sets-Joins, new-Joins, Closure-IsEquivalence,
}
use fact_db.Optimizer.QueryGraph.{
  OptimizerJoin, QueryGraph, unite_all, unite_joins, is_graph_connected,
}

-- The set of relations that a join names.
abbrev pub ends : OptimizerJoin → BitSet64
ends j = union j.left_relation j.right_relation

-- One of the joins names both relations.
abbrev pub Hyperedge : List OptimizerJoin → ℕ → ℕ → Type 0
Hyperedge joins a b =
    (k : ℕ) × (j : OptimizerJoin) × (get_elem? joins k ≡ some j)
    × (contains (ends j) a ≡ true)
    × (contains (ends j) b ≡ true)

-- The sets of a join are words, name relations below `size`, and the left one is not empty.
pub record FitsIn (size : ℕ) (j : OptimizerJoin) : Type 0 where
  pub left_word : IsWord j.left_relation
  pub right_word : IsWord j.right_relation
  pub left_some : is_empty j.left_relation ≡ false
  pub in_range : (i : ℕ) → contains (ends j) i ≡ true → i < size

ends-IsWord : (size : ℕ) (j : OptimizerJoin) → FitsIn size j → IsWord (ends j)
ends-IsWord size j fits =
    (operators-IsWord j.left_relation j.right_relation fits.left_word fits.right_word).0

contains-ends :
    (size : ℕ) (j : OptimizerJoin)
    → FitsIn size j
    → contains (ends j) (front j.left_relation) ≡ true
contains-ends size j fits =
    contains-union j.left_relation j.right_relation (front j.left_relation)
    ∙ rw (contains-front j.left_relation fits.left_word fits.left_some)

module _ (E : ℕ → ℕ → Type 0) (size : ℕ) where
  -- What the loops have done so far stays done.
  Grows : Elements → Elements → Type 0
  Grows es es' = (i j : ℕ) → Same es i j → Same es' i j

  unite_all-Joins :
      (es : Elements) (rels : List ℕ) (first : ℕ)
      → Joins (Closure E) size es
      → first < size
      → All (λ rel. (rel < size) × Closure E rel first) rels
      → (es' : Elements) × (unite_all es rels first ≡ some es')
        × Joins (Closure E) size es'
        × Grows es es'
        × All (λ rel. Same es' rel first) rels
  unfolding unite_all Grows
  unite_all-Joins es [] first known lt all = (es, refl, known, λ i j s. s, tt)
  unite_all-Joins es (rel ∷ rels) first known lt ((below, linked), all) =
      let (ret, es1, run, known1, same, grows) =
        union_sets-Joins (Closure E) size es rel first (Closure-IsEquivalence E) known below lt
          linked in
      let (es2, run2, known2, grows2, sames) = unite_all-Joins es1 rels first known1 lt all in
      (
        es2,
        rw (run, ◌>>=◌) run2,
        known2,
        λ i j s. grows2 i j (grows i j s),
        (grows2 rel first same, sames),
      )

  united :
      (es es' : Elements) (j : OptimizerJoin) (js : List OptimizerJoin)
      → Grows es es'
      → FitsIn size j
      → All (λ rel. Same es rel (front j.left_relation)) (to_list (ends j))
      → ((a b : ℕ) → Hyperedge js a b → Same es' a b)
      → (a b : ℕ) → Hyperedge (j ∷ js) a b
      → Same es' a b
  unfolding Grows
  united es es' j js grows fits sames linked a b (suc k, j', g, ca, cb) =
      linked a b (k, j', g, ca, cb)
  united es es' j js grows fits sames linked a b (zero, j', g, ca, cb) =
      let first = front j.left_relation in
      let at : (i : ℕ) → contains (ends j') i ≡ true → Same es i first = λ i c.
        All-to_list_at (λ rel. Same es rel first) (ends j) i (ends-IsWord size j fits) sames
          (subst (λ q. contains (ends q) i ≡ true) (sym (some_injective g)) c) in
      grows a b (Same-trans es a first b (at a ca) (Same-sym es b first (at b cb)))

  -- The forest joins all the relations of each join.
  unite_joins-Joins :
      (es : Elements) (joins : List OptimizerJoin)
      → Joins (Closure E) size es
      → All (FitsIn size) joins
      → ((a b : ℕ) → Hyperedge joins a b → E a b)
      → (es' : Elements) × (unite_joins es joins ≡ some es')
        × Joins (Closure E) size es'
        × Grows es es'
        × ((a b : ℕ) → Hyperedge joins a b → Same es' a b)
  unfolding unite_joins Grows
  unite_joins-Joins es [] known fits edges =
      (es, refl, known, λ i j s. s, λ a b (k, j, g, ca, cb). absurd (cc))
  unite_joins-Joins es (j ∷ js) known (here, fits) edges =
      let word = ends-IsWord size j here in
      let first = front j.left_relation in
      let member = contains-ends size j here in
      let (es1, run1, known1, grows1, sames) =
        unite_all-Joins es (to_list (ends j)) first known (here.in_range first member) (
          All-to_list (λ rel. (rel < size) × Closure E rel first) (ends j) word
            (λ i c. (here.in_range i c, forth stay (edges i first (0, j, refl, c, member))))) in
      let (es2, run2, known2, grows2, linked) =
        unite_joins-Joins es1 js known1 fits
          (λ a b (k, j', g, ca, cb). edges a b (suc k, j', g, ca, cb)) in
      (
        es2,
        rw (run1, ◌>>=◌) run2,
        known2,
        λ i k s. grows2 i k (grows1 i k s),
        λ a b edge. united es1 es2 j js grows2 here sames linked a b edge,
      )

-- The answer of `isSingleSet` on a forest that stands for the closure.
answer :
    (E : ℕ → ℕ → Type 0) (size : ℕ) (es : Elements) (root : ℕ) (ans : Bool)
    → Joins (Closure E) size es
    → ((a b : ℕ) → E a b → Same es a b)
    → ((k : ℕ) × Reaches es k 0 root)
    → 0 < size
    → Verdict es 0 root ans
    → (ans ≡ true) ↔ ((a b : ℕ) → a < size → b < size → Closure E a b)
answer E size es root true known edges top pos all = (
  λ _ a b la lb.
      let (r, (k, p)) = RootIs-total es a known.valid (omega (arith, known.sized)) in
      let (q, (m, p')) = RootIs-total es b known.valid (omega (arith, known.sized)) in
      let same = all a k r (omega arith) p ∙ sym (all b m q (omega arith) p') in
      known.sound a b (q, subst (RootIs es a) same (k, p), (m, p')),
  λ _. refl,
)
answer E size es root false known edges top pos (j, k, r, path, ne) = (
  λ e. absurd (cc),
  λ all.
      let lt : j < size = omega (arith, known.sized, Reaches-lt es k j r path) in
      let (q, p, p') = Closure-Same E size es known edges j 0 lt (all j 0 lt pos) in
      absurd (ne (RootIs-functional es j r q (k, path) p ∙ RootIs-functional es 0 q root p' top)),
)

-- On a graph with at least one relation, whose joins name relations of the graph by 64 bit words
-- and have a left side, isGraphConnected returns; it answers true exactly if the least
-- equivalence that relates the relations named by one join relates all relations of the graph.
pub is_graph_connected_lem :
    (graph : QueryGraph)
    → 0 < length graph.relations
    → All (FitsIn (length graph.relations)) graph.joins
    → (ans : Bool) × (is_graph_connected graph ≡ some ans)
      × ((ans ≡ true) ↔ (
          (a b : ℕ)
          → a < length graph.relations
          → b < length graph.relations
          → Closure (Hyperedge graph.joins) a b))
unfolding is_graph_connected
is_graph_connected_lem graph pos fits =
    let n = length graph.relations in
    let E = Hyperedge graph.joins in
    let (es, run, known, grows, edges) =
      unite_joins-Joins E n (new n) graph.joins (new-Joins (Closure E) n (Closure-IsEquivalence E))
        fits (λ a b e. e) in
    let (ans, es', root, single, keep, top, verdict) =
      is_single_set_lem es known.valid (omega (arith, known.sized)) in
    (ans, rw (run, ◌>>=◌, single) refl, answer E n es root ans known edges top pos verdict)
