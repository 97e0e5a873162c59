-- ===== src/Optimizer/DpSize/Sizes.antt =====
-- The loop over the sizes of the left side, the bodies of the two searches, and the loop over the
-- sizes.
use fact_db.Prelude.{
  ℕ, zero, suc, ◌+◌, ◌-◌, ◌≤◌, ◌<◌, ◌≡◌, refl, sym, inl, inr, Bool, false, Option, List, Bool-cases,
  ◌==◌, ==_iff, arith,
}
use mathlib.Core.Path.{subst}
use fact_db.BitSet.Word.{BitSet64, size}
use fact_db.Optimizer.DpSize.{FlatPlan}
use fact_db.Optimizer.DpSize.Table.{Known}
use fact_db.Optimizer.DpSize.Search.{Search, left_size_loop, bushy, linear, size_loop}
use fact_db.Optimizer.DpSize.Pairs.{
  IsSearch, After-same, After-Known, Succeeds, Succeeds-bind, Joined, Joined-later, Joined-earlier,
}
use fact_db.Optimizer.DpSize.Loops.{combine_sizes-Succeeds}

later : (n k : ℕ) → k ≤ n → (n == k) ≡ false → k + 1 ≤ n
later n k le ne = ground arith

module _ (has_join_edge : BitSet64 → BitSet64 → Bool) (relations : ℕ) where
  module _ (oracle : List FlatPlan → FlatPlan → ℕ) where
    left_size_loop-Succeeds :
        (rounds cur_size left_size : ℕ) (s : Search)
        → cur_size ≤ relations
        → rounds + left_size ≤ cur_size
        → IsSearch has_join_edge relations s
        → Succeeds has_join_edge relations oracle
            (λ s'.
              (a b : BitSet64)
              → Known s.dp.plan_map a
              → Known s.dp.plan_map b
              → left_size ≤ size a
              → size a < rounds + left_size
              → size a + size b ≡ cur_size
              → Joined has_join_edge relations oracle a b s s')
            s
            (left_size_loop oracle has_join_edge rounds cur_size left_size s)
    unfolding left_size_loop
    left_size_loop-Succeeds zero cur_size left_size s le small v = (
      s,
      refl,
      After-same has_join_edge relations oracle s v,
      λ a b known_a known_b low high sum. absurd (omega arith),
    )
    left_size_loop-Succeeds (suc rounds) cur_size left_size s le small v =
        Succeeds-bind has_join_edge relations oracle
          (λ s'.
            (a b : BitSet64)
            → Known s.dp.plan_map a
            → Known s.dp.plan_map b
            → size a ≡ left_size
            → size a + size b ≡ cur_size
            → Joined has_join_edge relations oracle a b s s')
          (λ s' s''.
            (a b : BitSet64)
            → Known s'.dp.plan_map a
            → Known s'.dp.plan_map b
            → left_size + 1 ≤ size a
            → size a < rounds + (left_size + 1)
            → size a + size b ≡ cur_size
            → Joined has_join_edge relations oracle a b s' s'')
          (λ s''.
            (a b : BitSet64)
            → Known s.dp.plan_map a
            → Known s.dp.plan_map b
            → left_size ≤ size a
            → size a < suc rounds + left_size
            → size a + size b ≡ cur_size
            → Joined has_join_edge relations oracle a b s s'')
          s _ _
          (combine_sizes-Succeeds has_join_edge relations oracle cur_size left_size s le
            (omega arith) v)
          (λ s' after q.
            left_size_loop-Succeeds rounds cur_size (left_size + 1) s' le (omega arith)
              after.search)
          (λ s' s'' first after q r a b known_a known_b low high sum.
            elim (Bool-cases (size a == left_size)) [
              | inl e ↦
                  Joined-later has_join_edge relations oracle a b s s' s'' after
                    (q a b known_a known_b ((==_iff (size a) left_size).0 e) sum)
              | inr ne ↦ Joined-earlier has_join_edge relations oracle a b s s' s'' first (
                  r a b (After-Known has_join_edge relations oracle s s' first a known_a)
                    (After-Known has_join_edge relations oracle s s' first b known_b)
                    (later (size a) left_size low ne) (omega arith) sum)
            ])

    -- All the pairs whose sizes add up to the current one.
    pub bushy-Succeeds :
        (cur_size : ℕ) (s : Search)
        → 1 ≤ cur_size
        → cur_size ≤ relations
        → IsSearch has_join_edge relations s
        → Succeeds has_join_edge relations oracle
            (λ s'.
              (a b : BitSet64)
              → Known s.dp.plan_map a
              → Known s.dp.plan_map b
              → 0 < size a
              → 0 < size b
              → size a + size b ≡ cur_size
              → Joined has_join_edge relations oracle a b s s')
            s
            (bushy oracle has_join_edge cur_size s)
    unfolding bushy
    bushy-Succeeds cur_size s pos le v =
        let (s', ran, after, q) =
          left_size_loop-Succeeds (cur_size - 1) cur_size 1 s le (omega arith) v in
        (
          s',
          ran,
          after,
          λ a b known_a known_b some_a some_b sum. q a b known_a known_b some_a (omega arith) sum,
        )

    -- All the pairs whose right side is one relation.
    pub linear-Succeeds :
        (cur_size : ℕ) (s : Search)
        → 1 ≤ cur_size
        → cur_size ≤ relations
        → IsSearch has_join_edge relations s
        → Succeeds has_join_edge relations oracle
            (λ s'.
              (a b : BitSet64)
              → Known s.dp.plan_map a
              → Known s.dp.plan_map b
              → size b ≡ 1
              → size a + size b ≡ cur_size
              → Joined has_join_edge relations oracle a b s s')
            s
            (linear oracle has_join_edge cur_size s)
    unfolding linear
    linear-Succeeds cur_size s pos le v =
        let (s', ran, after, q) =
          combine_sizes-Succeeds has_join_edge relations oracle cur_size (cur_size - 1) s le
            (omega arith) v in
        (s', ran, after, λ a b known_a known_b one sum. q a b known_a known_b (omega arith) sum)

    -- The sizes in their order: what a body makes of one size holds at the end for all of them.
    pub size_loop-Succeeds :
        (C : ℕ → Search → Type 0) (body : ℕ → Search → Option Search)
        → ((cur_size : ℕ) (s : Search)
            → 1 ≤ cur_size
            → cur_size ≤ relations
            → IsSearch has_join_edge relations s
            → C cur_size s
            → Succeeds has_join_edge relations oracle (C (suc cur_size)) s (body cur_size s))
        → (rounds cur_size : ℕ) (s : Search) → 1 ≤ cur_size
        → rounds + cur_size ≤ relations + 1
        → IsSearch has_join_edge relations s
        → C cur_size s
        → Succeeds has_join_edge relations oracle
            (C (rounds + cur_size))
            s
            (size_loop body rounds cur_size s)
    unfolding size_loop
    size_loop-Succeeds C body ok zero cur_size s pos le v c =
        (s, refl, After-same has_join_edge relations oracle s v, subst (λ n. C n s) (omega arith) c)
    size_loop-Succeeds C body ok (suc rounds) cur_size s pos le v c =
        let more : suc rounds + cur_size ≡ rounds + suc cur_size = omega arith in
        let next : cur_size + 1 ≡ suc cur_size = omega arith in
        Succeeds-bind has_join_edge relations oracle (C (suc cur_size))
          (λ s' s''. C (rounds + suc cur_size) s'') (C (suc rounds + cur_size)) s _ _
          (ok cur_size s pos (omega arith) v c)
          (λ s' after q. rw next (
            size_loop-Succeeds C body ok rounds (suc cur_size) s' (omega arith) (omega arith)
              after.search q))
          (λ s' s'' first after q r. subst (λ n. C n s'') (sym more) r)
