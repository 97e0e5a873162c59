-- ===== src/Optimizer/QueryGraph/Spans.antt =====
-- The test of the joins in `hasJoinEdge`.
use fact_db.Prelude.{
  ℕ, suc, ◌≡◌, ◌↔◌, ◌⊎◌, refl, sym, true, ◌&&◌, some, List, [], ◌∷◌, arith, get_elem?, All,
  Bool-cases, inl, inr, some_injective, ℕ-cases,
}
use mathlib.Core.Path.{subst}
use fact_db.BitSet.Word.{BitSet64, IsWord, is_subset_of, contains}
use fact_db.BitSet.Word.Members.{is_subset_of_iff}
use fact_db.JoinMode.{JoinType, inner, right_semi}
use fact_db.Optimizer.QueryGraph.{OptimizerJoin, is_inner, is_edge, any_edge}

-- Every element of the first set is one of the second.
abbrev pub Within : BitSet64 → BitSet64 → Type 0
Within a b = (v : ℕ) → contains a v ≡ true → contains b v ≡ true

-- The join leads from the left to the right, or, if it is an inner join, from the right to the left.
abbrev pub Spans : OptimizerJoin → BitSet64 → BitSet64 → Type 0
Spans join left right =
    (Within join.left_relation left × Within join.right_relation right)
    ⊎ (join.join_type ≡ inner) × Within join.right_relation left × Within join.left_relation right

abbrev pub AnySpans : List OptimizerJoin → BitSet64 → BitSet64 → Type 0
AnySpans joins left right =
    (k : ℕ) × (join : OptimizerJoin) × (get_elem? joins k ≡ some join) × Spans join left right

abbrev pub WordJoin : OptimizerJoin → Type 0
WordJoin join = IsWord join.left_relation × IsWord join.right_relation

is_inner_iff : (t : JoinType) → (is_inner t ≡ true) ↔ (t ≡ inner)
unfolding is_inner
is_inner_iff inner = (λ _. refl, λ _. refl)
is_inner_iff right_semi = (λ h. absurd (cc), λ h. absurd (cc))

is_edge_iff :
    (join : OptimizerJoin) (left right : BitSet64)
    → WordJoin join
    → (is_edge join left right ≡ true) ↔ Spans join left right
unfolding is_edge
is_edge_iff join left right (wl, wr) =
    let ll = is_subset_of_iff join.left_relation left wl in
    let rr = is_subset_of_iff join.right_relation right wr in
    let rl = is_subset_of_iff join.right_relation left wr in
    let lr = is_subset_of_iff join.left_relation right wl in
    let ty = is_inner_iff join.join_type in
    (
      λ h.
          elim (Bool-cases
            (is_subset_of join.left_relation left && is_subset_of join.right_relation right)) [
              | inl e ↦ inl (ll.0 (ground arith), rr.0 (ground arith))
              | inr e ↦ inr (ty.0 (ground arith), rl.0 (ground arith), lr.0 (ground arith))
            ],
      λ h. elim h [
        | inl (x, y) ↦ rw (ll.1 x, rr.1 y) refl
        | inr (t, x, y) ↦ ground (arith, ty.1 t, rl.1 x, lr.1 y)
      ],
    )

pub any_edge_iff :
    (joins : List OptimizerJoin) (left right : BitSet64)
    → All WordJoin joins
    → (any_edge joins left right ≡ true) ↔ AnySpans joins left right
unfolding any_edge
any_edge_iff [] left right words = (λ h. absurd (cc), λ (k, join, g, sp). absurd (cc))
any_edge_iff (j ∷ js) left right (word, words) =
    let edge = is_edge_iff j left right word in
    let rest = any_edge_iff js left right words in
    elim (Bool-cases (is_edge j left right)) [
      | inl e ↦ (λ _. (0, j, refl, edge.0 e), λ _. rw e refl)
      | inr e ↦ (
        λ h. let (k, join, g, sp) = rest.0 (ground arith) in (suc k, join, g, sp),
        λ (k, join, g, sp). elim (ℕ-cases k) [
          | inl z ↦
              let same : j ≡ join =
                some_injective (subst (λ i. get_elem? (j ∷ js) i ≡ some join) z g) in
              absurd (ground (arith, edge.1 (subst (λ q. Spans q left right) (sym same) sp)))
          | inr (i, z) ↦
              rw e (rest.1 (i, join, subst (λ n. get_elem? (j ∷ js) n ≡ some join) z g, sp))
        ],
      )
    ]
