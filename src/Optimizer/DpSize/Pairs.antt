-- ===== src/Optimizer/DpSize/Pairs.antt =====
-- The state of the search, and the pair of problems that the loops of `DPSize` join.
use fact_db.Prelude.{
  ℕ, ◌+◌, ◌≤◌, ◌≡◌, refl, sym, ap, ◌∙◌, inl, inr, Bool, true, false, Option, some, List, length,
  ◌>>=◌, Bool-cases, ◌==◌, arith,
}
use mathlib.Core.Path.{subst}
use fact_db.BitSet.Word.{BitSet64, union, size, does_intersect_with}
use fact_db.BitSet.Word.Size.{size-union}
use fact_db.Optimizer.DpSize.{DpSize, FlatPlan}
use fact_db.Optimizer.DpSize.Table.{Known}
use fact_db.Optimizer.DpSize.Valid.{IsTable}
use fact_db.Optimizer.DpSize.Step.{Extends, Grown, create_join-Extends}
use fact_db.Optimizer.DpSize.Steps.{
  Call, Steps, stay, Steps-trans, Steps-Known, Visited, Visited-later, Visited-earlier,
}
use fact_db.Optimizer.DpSize.Rows.{Rows, InRow, push_lem, Rows-mono}
use fact_db.Optimizer.DpSize.Search.{Search, Sizes, push, join_pair}

module _ (has_join_edge : BitSet64 → BitSet64 → Bool) (relations : ℕ) where
  -- A row for every size up to the number of relations; the problems with a plan are those in the
  -- rows, each in the row of its size.
  pub record IsSearch (s : Search) : Type 0 where
    pub table : IsTable has_join_edge s.dp
    pub rows : length s.sizes ≡ relations + 1
    pub problems : Rows s.dp.plan_map s.sizes
    pub listed : (x : BitSet64) → Known s.dp.plan_map x → InRow s.sizes x

  module _ (oracle : List FlatPlan → FlatPlan → ℕ) where
    -- A valid state that calls of `createJoin` lead to.
    pub record After (s s' : Search) : Type 0 where
      pub search : IsSearch s'
      pub steps : Steps oracle has_join_edge s.dp s'.dp

    pub After-same : (s : Search) → IsSearch s → After s s
    After-same s v = record { search = v; steps = stay }

    pub After-Known :
        (s s' : Search)
        → After s s'
        → (x : BitSet64) → Known s.dp.plan_map x
        → Known s'.dp.plan_map x
    After-Known s s' after x k = Steps-Known oracle has_join_edge after.steps x k

    -- The run from `s` ends in such a state, and `Q` holds there.
    abbrev pub Succeeds : (Search → Type 0) → Search → Option Search → Type 0
    Succeeds Q s r = (s' : Search) × (r ≡ some s') × After s s' × Q s'

    pub Succeeds-bind :
        (Q : Search → Type 0) (R : Search → Search → Type 0) (S : Search → Type 0) (s : Search)
        (m : Option Search) (f : Search → Option Search)
        → Succeeds Q s m
        → ((s' : Search) → After s s' → Q s' → Succeeds (R s') s' (f s'))
        → ((s' s'' : Search) → After s s' → After s' s'' → Q s' → R s' s'' → S s'')
        → Succeeds S s (m >>= f)
    Succeeds-bind Q R S s m f (s', ran, after, q) next both =
        let (s'', ran', after', r) = next s' after q in
        (
          s'',
          rw ran ran',
          record {
            search = after'.search;
            steps = Steps-trans oracle has_join_edge after.steps after'.steps;
          },
          both s' s'' after after' q r,
        )

    -- If the two problems may be joined, a call between the two states joins them.
    abbrev pub Joined : BitSet64 → BitSet64 → Search → Search → Type 0
    Joined a b s s' = does_intersect_with a b ≡ false → Visited oracle has_join_edge a b s.dp s'.dp

    pub Joined-later :
        (a b : BitSet64) (s s' s'' : Search) → After s' s'' → Joined a b s s' → Joined a b s s''
    Joined-later a b s s' s'' after j disjoint =
        Visited-later oracle has_join_edge a b (j disjoint) after.steps

    pub Joined-earlier :
        (a b : BitSet64) (s s' s'' : Search) → After s s' → Joined a b s' s'' → Joined a b s s''
    Joined-earlier a b s s' s'' after j disjoint =
        Visited-earlier oracle has_join_edge a b after.steps (j disjoint)

  -- A call of `createJoin` that leaves the map at its length adds no problem.
  same-IsSearch :
      (dp : DpSize) (problem : BitSet64) (edge : Bool) (s : Search)
      → Extends has_join_edge s.dp problem edge dp
      → (length s.dp.plan_map == length dp.plan_map) ≡ true
      → IsSearch s
      → IsSearch (record s { dp = dp })
  same-IsSearch dp problem edge s extends same v =
      let unchanged : dp.plan_map ≡ s.dp.plan_map = elim extends.grown [
        | inl e ↦ e
        | inr g ↦ absurd (ground (arith, same, g.longer))
      ] in
      record {
        table = extends.table;
        rows = v.rows;
        problems = Rows-mono s.dp.plan_map dp.plan_map s.sizes extends.known v.problems;
        listed = λ x k. v.listed x (subst (λ m. Known m x) unchanged k);
      }

  -- The problem that a call adds to the map is pushed to the row of its size.
  pushed-IsSearch :
      (dp : DpSize) (problem : BitSet64) (edge : Bool) (s : Search) (cur_size : ℕ)
      → Extends has_join_edge s.dp problem edge dp
      → (length s.dp.plan_map == length dp.plan_map) ≡ false
      → cur_size ≤ relations
      → size problem ≡ cur_size
      → IsSearch s
      → (after : Sizes) × (push s.sizes cur_size problem ≡ some after)
        × IsSearch (record { dp = dp; sizes = after })
  pushed-IsSearch dp problem edge s cur_size extends longer le total v =
      let g : Grown s.dp.plan_map problem dp.plan_map = elim extends.grown [
        | inl e ↦ absurd (ground (arith, longer, ap length e))
        | inr g ↦ g
      ] in
      let pushed =
        push_lem dp.plan_map s.sizes cur_size problem (omega (arith, v.rows))
          (Rows-mono s.dp.plan_map dp.plan_map s.sizes extends.known v.problems) (g.new, total) in
      (
        pushed.after,
        pushed.ran,
        record {
          table = extends.table;
          rows = pushed.same_length ∙ v.rows;
          problems = pushed.problems;
          listed = λ x k. elim (g.fresh x k) [
            | inl old ↦ pushed.kept x (v.listed x old)
            | inr e ↦ subst (InRow pushed.after) (sym e) pushed.new
          ];
        },
      )

  pub join_pair-Succeeds :
      (oracle : List FlatPlan → FlatPlan → ℕ) (cur_size : ℕ) (left right : BitSet64) (s : Search)
      → cur_size ≤ relations
      → size left + size right ≡ cur_size
      → IsSearch s
      → Known s.dp.plan_map left
      → Known s.dp.plan_map right
      → Succeeds oracle
          (Joined oracle left right s)
          s
          (join_pair oracle has_join_edge cur_size left right s)
  unfolding join_pair
  join_pair-Succeeds oracle cur_size left right s le sum v known_left known_right =
      elim (Bool-cases (does_intersect_with left right)) [
        | inl meet ↦ rw meet (s, refl, After-same oracle s v, λ disjoint. absurd (cc))
        | inr disjoint ↦
            let (dp, made, extends) =
              create_join-Extends oracle has_join_edge s.dp left right v.table known_left
                known_right disjoint in
            let one : Call oracle has_join_edge s.dp left right dp = record {
              table = v.table;
              left = known_left;
              right = known_right;
              disjoint = disjoint;
              made = made;
            } in
            let steps = Steps.call left right stay one in
            let visited : Visited oracle has_join_edge left right s.dp dp = record {
              before = s.dp;
              after = dp;
              leads = stay;
              visits = one;
              goes_on = stay;
            } in
            elim (Bool-cases (length s.dp.plan_map == length dp.plan_map)) [
              | inl same ↦ (
                record s { dp = dp },
                rw disjoint (rw made (rw same refl)),
                record {
                  search = same-IsSearch dp (union left right) _ s extends same v;
                  steps = steps;
                },
                λ d. visited,
              )
              | inr longer ↦
                  let (after, ran, search) =
                    pushed-IsSearch dp (union left right) _ s cur_size extends longer le
                      (size-union left right disjoint ∙ sum) v in
                  (
                    record { dp = dp; sizes = after },
                    rw disjoint (rw made (rw longer (rw ran refl))),
                    record { search = search; steps = steps },
                    λ d. visited,
                  )
            ]
      ]
