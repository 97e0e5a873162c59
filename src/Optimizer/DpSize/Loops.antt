-- ===== src/Optimizer/DpSize/Loops.antt =====
-- The loops over two rows of problems join every pair of them.
use fact_db.Prelude.{
  ℕ, ◌+◌, ◌-◌, ◌≤◌, ◌≡◌, refl, sym, ap, ◌∙◌, inl, inr, Bool, some, List, [], ◌∷◌, get_elem?,
  get_elem?-of_lt, All, All-mono, some_injective, arith,
}
use mathlib.Core.Path.{subst}
use fact_db.BitSet.Word.{BitSet64, size}
use fact_db.Optimizer.DpSize.{FlatPlan}
use fact_db.Optimizer.DpSize.Table.{Known}
use fact_db.Optimizer.DpSize.Rows.{Among, Listed, InRow}
use fact_db.Optimizer.DpSize.Search.{Search, Sizes, right_loop, left_loop, combine_sizes}
use fact_db.Optimizer.DpSize.Pairs.{
  IsSearch, After-same, After-Known, Succeeds, Succeeds-bind, Joined, Joined-later, Joined-earlier,
  join_pair-Succeeds,
}

InRow-Among :
    (sizes : Sizes) (x : BitSet64) (i : ℕ) (row : List BitSet64)
    → InRow sizes x
    → size x ≡ i
    → get_elem? sizes i ≡ some row
    → Among x row
InRow-Among sizes x i row (r, at, among) e at' =
    subst (Among x) (some_injective (sym at ∙ ap (get_elem? sizes) e ∙ at')) among

module _ (has_join_edge : BitSet64 → BitSet64 → Bool) (relations : ℕ) where
  module _ (oracle : List FlatPlan → FlatPlan → ℕ) where
    right_loop-Succeeds :
        (cur_size right_size : ℕ) (left : BitSet64) (rights : List BitSet64) (s : Search)
        → cur_size ≤ relations
        → size left + right_size ≡ cur_size
        → IsSearch has_join_edge relations s
        → Known s.dp.plan_map left
        → All (Listed s.dp.plan_map right_size) rights
        → Succeeds has_join_edge relations oracle
            (λ s'.
              (b : BitSet64) → Among b rights → Joined has_join_edge relations oracle left b s s')
            s
            (right_loop oracle has_join_edge cur_size left rights s)
    unfolding right_loop
    right_loop-Succeeds cur_size right_size left [] s le sum v known_left known_rights =
        (s, refl, After-same has_join_edge relations oracle s v, λ b among. absurd among)
    right_loop-Succeeds cur_size right_size left (right ∷ rights) s le sum v known_left
          (here, rest) =
        Succeeds-bind has_join_edge relations oracle
          (Joined has_join_edge relations oracle left right s)
          (λ s' s''.
            (b : BitSet64) → Among b rights → Joined has_join_edge relations oracle left b s' s'')
          (λ s'.
            (b : BitSet64)
            → Among b (right ∷ rights)
            → Joined has_join_edge relations oracle left b s s')
          s _ _
          (join_pair-Succeeds has_join_edge relations oracle cur_size left right s le
            (omega (arith, here.1)) v known_left (here.0))
          (λ s' after q.
            right_loop-Succeeds cur_size right_size left rights s' le sum after.search
              (After-Known has_join_edge relations oracle s s' after left known_left)
              (All-mono (Listed s.dp.plan_map right_size) (Listed s'.dp.plan_map right_size) rights
                (λ x (k, e). (After-Known has_join_edge relations oracle s s' after x k, e)) rest))
          (λ s' s'' first after q r b among. elim among [
            | inl e ↦
                subst (λ x. Joined has_join_edge relations oracle left x s s'') e
                  (Joined-later has_join_edge relations oracle left right s s' s'' after q)
            | inr more ↦
                Joined-earlier has_join_edge relations oracle left b s s' s'' first (r b more)
          ])

    left_loop-Succeeds :
        (cur_size left_size right_size : ℕ) (lefts rights : List BitSet64) (s : Search)
        → cur_size ≤ relations
        → left_size + right_size ≡ cur_size
        → IsSearch has_join_edge relations s
        → All (Listed s.dp.plan_map left_size) lefts
        → All (Listed s.dp.plan_map right_size) rights
        → Succeeds has_join_edge relations oracle
            (λ s'.
              (a b : BitSet64)
              → Among a lefts
              → Among b rights
              → Joined has_join_edge relations oracle a b s s')
            s
            (left_loop oracle has_join_edge cur_size lefts rights s)
    unfolding left_loop
    left_loop-Succeeds cur_size left_size right_size [] rights s le sum v known_lefts known_rights =
        (s, refl, After-same has_join_edge relations oracle s v, λ a b among. absurd among)
    left_loop-Succeeds cur_size left_size right_size (left ∷ lefts) rights s le sum v (here, rest)
          known_rights =
        Succeeds-bind has_join_edge relations oracle
          (λ s'.
            (b : BitSet64) → Among b rights → Joined has_join_edge relations oracle left b s s')
          (λ s' s''.
            (a b : BitSet64)
            → Among a lefts
            → Among b rights
            → Joined has_join_edge relations oracle a b s' s'')
          (λ s'.
            (a b : BitSet64)
            → Among a (left ∷ lefts)
            → Among b rights
            → Joined has_join_edge relations oracle a b s s')
          s _ _
          (right_loop-Succeeds cur_size right_size left rights s le (omega (arith, here.1)) v
            (here.0) known_rights)
          (λ s' after q.
            left_loop-Succeeds cur_size left_size right_size lefts rights s' le sum after.search
              (All-mono (Listed s.dp.plan_map left_size) (Listed s'.dp.plan_map left_size) lefts
                (λ x (k, e). (After-Known has_join_edge relations oracle s s' after x k, e)) rest)
              (All-mono (Listed s.dp.plan_map right_size) (Listed s'.dp.plan_map right_size) rights
                (λ x (k, e). (After-Known has_join_edge relations oracle s s' after x k, e))
                known_rights))
          (λ s' s'' first after q r a b among_left among_right. elim among_left [
            | inl e ↦
                subst (λ x. Joined has_join_edge relations oracle x b s s'') e
                  (Joined-later has_join_edge relations oracle left b s s' s'' after
                    (q b among_right))
            | inr more ↦
                Joined-earlier has_join_edge relations oracle a b s s' s'' first
                  (r a b more among_right)
          ])

    pub combine_sizes-Succeeds :
        (cur_size left_size : ℕ) (s : Search)
        → cur_size ≤ relations
        → left_size ≤ cur_size
        → IsSearch has_join_edge relations s
        → Succeeds has_join_edge relations oracle
            (λ s'.
              (a b : BitSet64)
              → Known s.dp.plan_map a
              → Known s.dp.plan_map b
              → size a ≡ left_size
              → size a + size b ≡ cur_size
              → Joined has_join_edge relations oracle a b s s')
            s
            (combine_sizes oracle has_join_edge cur_size left_size s)
    unfolding combine_sizes
    combine_sizes-Succeeds cur_size left_size s le small v =
        let right_size = cur_size - left_size in
        let (lefts, at_left) = get_elem?-of_lt s.sizes left_size (omega (arith, v.rows)) in
        let (rights, at_right) = get_elem?-of_lt s.sizes right_size (omega (arith, v.rows)) in
        let (s', ran, after, q) =
          left_loop-Succeeds cur_size left_size right_size lefts rights s le (omega arith) v
            (v.problems left_size lefts at_left) (v.problems right_size rights at_right) in
        (
          s',
          rw at_left (rw at_right ran),
          after,
          λ a b known_a known_b e sum.
              q a b (InRow-Among s.sizes a left_size lefts (v.listed a known_a) e at_left) (
                InRow-Among s.sizes b right_size rights (v.listed b known_b) (omega arith)
                  at_right),
        )
