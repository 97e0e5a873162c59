-- ===== src/Optimizer/DpSize/Step.antt =====
-- A call of `createJoin` keeps the table of `DPSize` valid.
use fact_db.Prelude.{
  ℕ, ◌+◌, ◌%◌, ◌^◌, ◌≡◌, refl, sym, ap, ◌∙◌, suc, length, true, ◌⊎◌, inl, inr, Bool, false, Option,
  none, some, List, [], ◌∷◌, All, Bool-cases, Option-cases, ltb,
}
use mathlib.Core.Path.{subst}
use fact_db.BitSet.Word.{BitSet64, union, does_intersect_with}
use fact_db.Optimizer.Plans.{top_insert, make_join_estimated, store_plan, has_join_edge_with}
use fact_db.Optimizer.Plans.Valid.{Covers, Keeps, AllPlans}
use fact_db.Optimizer.DpSize.{
  FlatPlan, PlanMap, DpSize, find, assign, get_plan, gives_up, choose_better_plan, create_join,
  flat_estimator, join_problems,
}
use fact_db.Optimizer.DpSize.Valid.{
  Entry, IsTable, cost_of-Covers, CoversAny, Chosen, Chosen-same, join_problems-Chosen,
}
use fact_db.Optimizer.DpSize.Table.{
  Known, All-find, All-assign, Known-assign, Known-assign_self, Known-of_assign,
  length-assign_absent,
}

pub All-Keeps :
    (plans plans' : List FlatPlan) (m : PlanMap)
    → Keeps plans plans'
    → All (Entry plans) m
    → All (Entry plans') m
All-Keeps plans plans' [] keeps all = tt
All-Keeps plans plans' ((k, p) ∷ m) keeps (here, rest) =
    (keeps p k here, All-Keeps plans plans' m keeps rest)

pub record Grown (m : PlanMap) (problem : BitSet64) (m' : PlanMap) : Type 0 where
  pub new : Known m' problem
  pub longer : length m' ≡ suc (length m)
  pub fresh : (x : BitSet64) → Known m' x → Known m x ⊎ (x ≡ problem)

module _ (has_join_edge : BitSet64 → BitSet64 → Bool) where
  gives_up-Covers :
      (dp : DpSize) (l r : ℕ) (alternative : Option ℕ) (a b c : BitSet64)
      → AllPlans has_join_edge dp.store.plans
      → Covers dp.store.plans l a
      → Covers dp.store.plans r b
      → CoversAny dp.store.plans c alternative
      → (give_up : Bool) × (gives_up dp l r alternative ≡ some give_up)
  unfolding gives_up
  gives_up-Covers dp l r none a b c all left right covers = (false, refl)
  gives_up-Covers dp l r (some p) a b c all left right covers =
      let (x, left_cost) = cost_of-Covers has_join_edge dp.store.plans l a all left in
      let (y, right_cost) = cost_of-Covers has_join_edge dp.store.plans r b all right in
      let (z, cost) = cost_of-Covers has_join_edge dp.store.plans p c all covers in
      (ltb z ((x + y) % 2 ^ 64), rw cost (rw left_cost (rw right_cost refl)))

  old_entries :
      (dp dp' : DpSize)
      → IsTable has_join_edge dp
      → Keeps dp.store.plans dp'.store.plans
      → dp'.plan_map ≡ dp.plan_map
      → All (Entry dp'.store.plans) dp'.plan_map
  old_entries dp dp' table keeps same =
      rw same (All-Keeps dp.store.plans dp'.store.plans dp.plan_map keeps table.map_covers)

  -- What a step keeps: the problems that have a plan. The map stays, or grows by the new problem; it
  -- has a plan afterwards if there is an edge.
  pub record Extends (dp : DpSize) (problem : BitSet64) (edge : Bool) (dp' : DpSize) : Type 0 where
    pub table : IsTable has_join_edge dp'
    pub known : (x : BitSet64) → Known dp.plan_map x → Known dp'.plan_map x
    pub grown : (dp'.plan_map ≡ dp.plan_map) ⊎ Grown dp.plan_map problem dp'.plan_map
    pub edge_joined : edge ≡ true → Known dp'.plan_map problem

no_plan_is_some :
    {dp dp' : DpSize} {p : ℕ}
    → ◌≡◌ {A = Option (DpSize × Option ℕ)} (some (dp, some p)) (some (dp', none))
    → ⊥
no_plan_is_some h = cc

module _ (oracle : List FlatPlan → FlatPlan → ℕ) (has_join_edge : BitSet64 → BitSet64 → Bool) where
  choose_better_plan-Chosen :
      (dp : DpSize) (left_problem right_problem : BitSet64) (alternative : Option ℕ)
      → IsTable has_join_edge dp
      → Known dp.plan_map left_problem
      → Known dp.plan_map right_problem
      → does_intersect_with left_problem right_problem ≡ false
      → CoversAny dp.store.plans (union left_problem right_problem) alternative
      → (dp' : DpSize) × (better : Option ℕ) × (choose_better_plan oracle has_join_edge dp
            left_problem right_problem alternative
          ≡ some (dp', better))
        × Chosen has_join_edge dp (union left_problem right_problem) dp' better
  unfolding choose_better_plan get_plan
  choose_better_plan-Chosen dp left_problem right_problem alternative table (l, found_left)
        (r, found_right) disjoint covers =
      let all = table.plans_valid in
      let plans = dp.store.plans in
      let left = All-find (Entry plans) dp.plan_map left_problem l table.map_covers found_left in
      let right = All-find (Entry plans) dp.plan_map right_problem r table.map_covers found_right in
      let (give_up, given) =
        gives_up-Covers has_join_edge dp l r alternative left_problem right_problem
          (union left_problem right_problem) all left right covers in
      elim (Bool-cases give_up) [
        | inl e ↦ (
          dp,
          alternative,
          rw found_left (rw found_right (rw given (rw e refl))),
          Chosen-same has_join_edge dp (union left_problem right_problem) alternative all covers,
        )
        | inr e ↦
            let (a, at_left, is_left) = left in
            let (b, at_right, is_right) = right in
            let (dp', better, made, chosen) =
              join_problems-Chosen oracle has_join_edge dp l r a b all at_left at_right
                (rw is_left (rw is_right disjoint)) alternative (rw is_left (rw is_right covers)) in
            (
              dp',
              better,
              rw found_left (rw found_right (rw given (rw e made))),
              rw (sym is_left) (rw (sym is_right) chosen),
            )
      ]

  -- With an edge, a problem without a plan gets one.
  choose_better_plan-edge :
      (dp dp' : DpSize) (left_problem right_problem : BitSet64)
      → IsTable has_join_edge dp
      → Known dp.plan_map left_problem
      → Known dp.plan_map right_problem
      → has_join_edge left_problem right_problem ≡ true
      → choose_better_plan oracle has_join_edge dp left_problem right_problem none
        ≡ some (dp', none)
      → ⊥
  unfolding choose_better_plan get_plan gives_up join_problems has_join_edge_with
  choose_better_plan-edge dp dp' left_problem right_problem table (l, found_left) (r, found_right)
        edge chose =
      let plans = dp.store.plans in
      let (a, at_left, is_left) =
        All-find (Entry plans) dp.plan_map left_problem l table.map_covers found_left in
      let (b, at_right, is_right) =
        All-find (Entry plans) dp.plan_map right_problem r table.map_covers found_right in
      let joins : has_join_edge a.covered_relations b.covered_relations ≡ true =
        rw is_left (rw is_right edge) in
      let made = make_join_estimated (flat_estimator oracle) dp.store l r top_insert in
      elim (Option-cases made) [
        | inl e ↦
            let nothing : choose_better_plan oracle has_join_edge dp left_problem right_problem none
                ≡ none =
              rw (choose_better_plan, found_left, found_right, at_left, at_right, joins, e) in
            absurd (cc)
        | inr ((store, combined), e) ↦
            let stored : choose_better_plan oracle has_join_edge dp left_problem right_problem none
                ≡ some (
                  record dp { store = (store_plan store combined).0 },
                  some (store_plan store combined).1,
                ) =
              rw (choose_better_plan, found_left, found_right, at_left, at_right, joins, e) in
            no_plan_is_some (sym stored ∙ chose)
      ]

  -- A problem that was not in the map is put there with the plan, if there is one.
  absent_problem-Extends :
      (dp dp' : DpSize) (left_problem right_problem : BitSet64)
      → IsTable has_join_edge dp
      → Known dp.plan_map left_problem
      → Known dp.plan_map right_problem
      → (better : Option ℕ) → find dp.plan_map (union left_problem right_problem) ≡ none
      → choose_better_plan oracle has_join_edge dp left_problem right_problem none
        ≡ some (dp', better)
      → Chosen has_join_edge dp (union left_problem right_problem) dp' better
      → (after : DpSize) × (create_join oracle has_join_edge dp left_problem right_problem
          ≡ some after)
        × Extends has_join_edge dp
            (union left_problem right_problem)
            (has_join_edge left_problem right_problem)
            after
  unfolding create_join
  absent_problem-Extends dp dp' left_problem right_problem table left right none absent chose
        chosen =
      (
        dp',
        rw absent (rw chose refl),
        record {
          table = record {
            plans_valid = chosen.plans_valid;
            map_covers = old_entries has_join_edge dp dp' table chosen.keeps chosen.same_map;
          };
          known = λ x k. rw chosen.same_map k;
          grown = inl chosen.same_map;
          edge_joined = λ edge. absurd (
              choose_better_plan-edge dp dp' left_problem right_problem table left right edge
                chose);
        },
      )
  absent_problem-Extends dp dp' left_problem right_problem table left right (some p) absent chose
        chosen =
      let problem = union left_problem right_problem in
      (
        record dp' { plan_map = assign dp'.plan_map problem p },
        rw absent (rw chose refl),
        record {
          table = record {
            plans_valid = chosen.plans_valid;
            map_covers =
                All-assign (Entry dp'.store.plans) dp'.plan_map problem p
                  (old_entries has_join_edge dp dp' table chosen.keeps chosen.same_map)
                  chosen.better_covers;
          };
          known = λ x k. Known-assign dp'.plan_map problem x p (rw chosen.same_map k);
          grown = inr (record {
            new = Known-assign_self dp'.plan_map problem p;
            longer =
                length-assign_absent dp'.plan_map problem p (rw chosen.same_map absent)
                ∙ ap (λ m. suc (length m)) chosen.same_map;
            fresh = λ x k.
                subst (λ m. Known m x ⊎ (x ≡ problem)) chosen.same_map
                  (Known-of_assign dp'.plan_map problem x p k);
          });
          edge_joined = λ edge. Known-assign_self dp'.plan_map problem p;
        },
      )

  pub create_join-Extends :
      (dp : DpSize) (left_problem right_problem : BitSet64)
      → IsTable has_join_edge dp
      → Known dp.plan_map left_problem
      → Known dp.plan_map right_problem
      → does_intersect_with left_problem right_problem ≡ false
      → (dp' : DpSize) × (create_join oracle has_join_edge dp left_problem right_problem ≡ some dp')
        × Extends has_join_edge dp
            (union left_problem right_problem)
            (has_join_edge left_problem right_problem)
            dp'
  unfolding create_join
  create_join-Extends dp left_problem right_problem table left right disjoint =
      elim (Option-cases (find dp.plan_map (union left_problem right_problem))) [
        | inl absent ↦
            let (dp', better, chose, chosen) =
              choose_better_plan-Chosen dp left_problem right_problem none table left right disjoint
                tt in
            absent_problem-Extends dp dp' left_problem right_problem table left right better absent
              chose chosen
        | inr (p, found) ↦
            let covers =
              All-find (Entry dp.store.plans) dp.plan_map (union left_problem right_problem) p
                table.map_covers found in
            let (dp', better, chose, chosen) =
              choose_better_plan-Chosen dp left_problem right_problem (some p) table left right
                disjoint covers in
            (
              dp',
              rw found (rw chose refl),
              record {
                table = record {
                  plans_valid = chosen.plans_valid;
                  map_covers = old_entries has_join_edge dp dp' table chosen.keeps chosen.same_map;
                };
                known = λ x k. rw chosen.same_map k;
                grown = inl chosen.same_map;
                edge_joined = λ edge. rw chosen.same_map (p, found);
              },
            )
      ]
