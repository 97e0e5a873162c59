-- ===== src/Optimizer/DpSize/Outcome.antt =====
-- What a call of `createJoin` does: it skips the pair, overwrites the plan of the problem by a
-- cheaper one, or adds a plan for it.
use fact_db.Prelude.{
  ℕ, ◌+◌, ◌%◌, ◌^◌, ◌≤◌, ◌<◌, ◌≡◌, refl, ap, ◌∙◌, inl, inr, Bool, true, false, none, some, List, [],
  ◌∷◌, ◌++◌, length, set, get_elem?, Bool-cases, Option-cases, ltb, ltb→lt, arith,
}
use fact_db.BitSet.Word.{BitSet64, union}
use fact_db.Optimizer.Plans.{
  join, top_insert, make_join_estimated, store_plan, overwrite_plan, has_join_edge_with,
}
use fact_db.Optimizer.DpSize.{
  FlatEstimate, FlatPlan, DpSize, cost_of, find, assign, get_plan, flat_estimator,
  replace_if_cheaper, gives_up, join_problems, choose_better_plan, create_join,
}
use fact_db.Optimizer.DpSize.Table.{Known, All-find}
use fact_db.Optimizer.DpSize.Valid.{Entry, IsTable, cost_of-Covers}

-- The plans of the two problems, and their costs.
pub record Sides (dp : DpSize) (a b : BitSet64) : Type 0 where
  pub l : ℕ
  pub r : ℕ
  pub left : FlatPlan
  pub right : FlatPlan
  pub left_cost : ℕ
  pub right_cost : ℕ
  pub found_left : find dp.plan_map a ≡ some l
  pub found_right : find dp.plan_map b ≡ some r
  pub at_left : get_elem? dp.store.plans l ≡ some left
  pub at_right : get_elem? dp.store.plans r ≡ some right
  pub covers_left : left.covered_relations ≡ a
  pub covers_right : right.covered_relations ≡ b
  pub costs_left : cost_of dp.store.plans l ≡ some left_cost
  pub costs_right : cost_of dp.store.plans r ≡ some right_cost

pub Known-Sides :
    (has_join_edge : BitSet64 → BitSet64 → Bool) (dp : DpSize) (a b : BitSet64)
    → IsTable has_join_edge dp
    → Known dp.plan_map a
    → Known dp.plan_map b
    → Sides dp a b
Known-Sides has_join_edge dp a b table (l, found_left) (r, found_right) =
    let plans = dp.store.plans in
    let left = All-find (Entry plans) dp.plan_map a l table.map_covers found_left in
    let right = All-find (Entry plans) dp.plan_map b r table.map_covers found_right in
    let (x, costs_left) = cost_of-Covers has_join_edge plans l a table.plans_valid left in
    let (y, costs_right) = cost_of-Covers has_join_edge plans r b table.plans_valid right in
    record {
      l = l;
      r = r;
      left = left.0;
      right = right.0;
      left_cost = x;
      right_cost = y;
      found_left = found_left;
      found_right = found_right;
      at_left = left.1;
      at_right = right.1;
      covers_left = left.2;
      covers_right = right.2;
      costs_left = costs_left;
      costs_right = costs_right;
    }

dearer_le : (n c : ℕ) → ltb n c ≡ false → c ≤ n
dearer_le n c h = ground arith

module _ (card : BitSet64 → ℕ) where
  -- The plan that joins the two: its cost is the cardinality and the costs of the two sides.
  pub record IsCombined (problem : BitSet64) (l r left_cost right_cost : ℕ) (plan : FlatPlan)
      : Type 0 where
    pub is_join : plan.type ≡ join l r top_insert
    pub covers : plan.covered_relations ≡ problem
    pub estimate : FlatEstimate
    pub estimated : plan.estimate ≡ some estimate
    pub cost : estimate.cost ≡ (card problem + left_cost + right_cost) % 2 ^ 64

  pub data Outcome (dp : DpSize) (problem : BitSet64) (l r left_cost right_cost : ℕ) (edge : Bool)
      (dp' : DpSize) : Type 0 where
    skipped :
        dp'.store.plans ≡ dp.store.plans
        → dp'.plan_map ≡ dp.plan_map
        → (edge ≡ true
            → (p : ℕ) × (c : ℕ) × (find dp.plan_map problem ≡ some p)
              × (cost_of dp.store.plans p ≡ some c)
              × (c ≤ card problem + left_cost + right_cost))
        → Outcome dp problem l r left_cost right_cost edge dp'
    overwritten :
        (p c : ℕ) (plan : FlatPlan)
        → edge ≡ true
        → find dp.plan_map problem ≡ some p
        → cost_of dp.store.plans p ≡ some c
        → (v : IsCombined problem l r left_cost right_cost plan) → v.estimate.cost < c
        → dp'.store.plans ≡ set dp.store.plans p plan
        → dp'.plan_map ≡ dp.plan_map
        → Outcome dp problem l r left_cost right_cost edge dp'
    added :
        (plan : FlatPlan)
        → edge ≡ true
        → find dp.plan_map problem ≡ none
        → IsCombined problem l r left_cost right_cost plan
        → dp'.store.plans ≡ dp.store.plans ++ plan ∷ []
        → dp'.plan_map ≡ assign dp.plan_map problem (length dp.store.plans)
        → Outcome dp problem l r left_cost right_cost edge dp'

module _ (oracle : List FlatPlan → FlatPlan → ℕ) (has_join_edge : BitSet64 → BitSet64 → Bool)
    (card : BitSet64 → ℕ)
    (by_set : (plans : List FlatPlan) (plan : FlatPlan)
      → oracle plans plan ≡ card plan.covered_relations) where
  module _ (dp : DpSize) (a b : BitSet64) (v : Sides dp a b) where
    abbrev goal : BitSet64
    goal = union a b

    abbrev Ends : DpSize → Type 0
    Ends dp' =
        (create_join oracle has_join_edge dp a b ≡ some dp')
        × Outcome card dp goal v.l v.r v.left_cost v.right_cost (has_join_edge a b) dp'

    -- The combined plan and the counter after it.
    record Made : Type 0 where
      plan : FlatPlan
      counter : ℕ
      made :
          make_join_estimated (flat_estimator oracle) dp.store v.l v.r top_insert
          ≡ some (record (dp.store) { plan_id_ctr = counter }, plan)
      combined : IsCombined card goal v.l v.r v.left_cost v.right_cost plan

    make_join-Made : Made
    unfolding make_join_estimated flat_estimator
    make_join-Made =
        let bare : FlatPlan = record {
          plan_id = (dp.store.plan_id_ctr + 1) % 2 ^ 64;
          type = join v.l v.r top_insert;
          covered_relations = union v.left.covered_relations v.right.covered_relations;
          estimate = none;
        } in
        let k = oracle dp.store.plans bare in
        let e : FlatEstimate = record {
          cardinality = k;
          cost = (k + v.left_cost + v.right_cost) % 2 ^ 64;
        } in
        let same : union v.left.covered_relations v.right.covered_relations ≡ goal =
          rw v.covers_left (rw v.covers_right refl) in
        record {
          plan = record bare { plan_id = dp.store.plan_id_ctr; estimate = some e };
          counter = ((dp.store.plan_id_ctr + 1) % 2 ^ 64 + 1) % 2 ^ 64;
          made = rw v.at_left (rw v.at_right (rw v.costs_left (rw v.costs_right refl)));
          combined = record {
            is_join = refl;
            covers = same;
            estimate = e;
            estimated = refl;
            cost =
                ap (λ n. (n + v.left_cost + v.right_cost) % 2 ^ 64)
                  (by_set dp.store.plans bare ∙ ap card same);
          };
        }

    sides_edge :
        has_join_edge v.left.covered_relations v.right.covered_relations ≡ has_join_edge a b
    sides_edge = rw v.covers_left (rw v.covers_right refl)

    sum_bound : (v.left_cost + v.right_cost) % 2 ^ 64 ≤ card goal + v.left_cost + v.right_cost
    sum_bound = omega arith

    cheaper_bound : (m : Made) → m.combined.estimate.cost ≤ card goal + v.left_cost + v.right_cost
    cheaper_bound m = omega (arith, m.combined.cost)

    absent_Outcome : find dp.plan_map goal ≡ none → Made → (dp' : DpSize) × Ends dp'
    unfolding create_join choose_better_plan get_plan gives_up join_problems has_join_edge_with
        store_plan
    absent_Outcome absent m = elim (Bool-cases (has_join_edge a b)) [
      | inr apart ↦
          let e : has_join_edge v.left.covered_relations v.right.covered_relations ≡ false =
            sides_edge ∙ apart in
          (
            dp,
            (
              rw absent
                  (rw v.found_left (rw v.found_right (rw v.at_left (rw v.at_right (rw e refl))))),
              skipped refl refl (λ edge. absurd (cc)),
            ),
          )
      | inl edge ↦
          let e : has_join_edge v.left.covered_relations v.right.covered_relations ≡ true =
            sides_edge ∙ edge in
          (
            record {
              store = record {
                plans = dp.store.plans ++ m.plan ∷ [];
                plan_id_ctr = (m.counter + 1) % 2 ^ 64;
              };
              base_tables = dp.base_tables;
              plan_map = assign dp.plan_map goal (length dp.store.plans);
            },
            (
              rw absent (
                  rw v.found_left
                    (rw v.found_right (rw v.at_left (rw v.at_right (rw e (rw m.made refl)))))),
              added m.plan edge absent m.combined refl refl,
            ),
          )
    ]

    weighed_Outcome :
        (p c : ℕ)
        → find dp.plan_map goal ≡ some p
        → cost_of dp.store.plans p ≡ some c
        → ltb c ((v.left_cost + v.right_cost) % 2 ^ 64) ≡ false
        → has_join_edge a b ≡ true
        → Made
        → (dp' : DpSize) × Ends dp'
    unfolding create_join choose_better_plan get_plan gives_up join_problems has_join_edge_with
        replace_if_cheaper overwrite_plan
    weighed_Outcome p c found costs stay edge m =
        let e : has_join_edge v.left.covered_relations v.right.covered_relations ≡ true =
          sides_edge ∙ edge in
        let counted : DpSize = record dp {
          store = record (dp.store) { plan_id_ctr = m.counter };
        } in
        elim (Bool-cases (ltb m.combined.estimate.cost c)) [
          | inl cheaper ↦ (
            record dp {
              store = record { plans = set dp.store.plans p m.plan; plan_id_ctr = m.counter };
            },
            (
              rw found (
                  rw v.found_left (
                    rw v.found_right (
                      rw costs (
                        rw v.costs_left (
                          rw v.costs_right (
                            rw stay (
                              rw v.at_left (
                                rw v.at_right (
                                  rw e (
                                    rw m.made (
                                      rw m.combined.estimated
                                        (rw costs (rw cheaper refl))))))))))))),
              overwritten p c m.plan edge found costs m.combined (ltb→lt _ c cheaper) refl refl,
            ),
          )
          | inr dearer ↦ (
            counted,
            (
              rw found (
                  rw v.found_left (
                    rw v.found_right (
                      rw costs (
                        rw v.costs_left (
                          rw v.costs_right (
                            rw stay (
                              rw v.at_left (
                                rw v.at_right (
                                  rw e (
                                    rw m.made (
                                      rw m.combined.estimated
                                        (rw costs (rw dearer refl))))))))))))),
              skipped refl refl (λ edge.
                  (p, c, found, costs, omega (arith, cheaper_bound m, dearer_le _ c dearer))),
            ),
          )
        ]

    pub create_join-Outcome : IsTable has_join_edge dp → (dp' : DpSize) × Ends dp'
    unfolding create_join choose_better_plan get_plan gives_up join_problems has_join_edge_with
    create_join-Outcome table = elim (Option-cases (find dp.plan_map goal)) [
      | inl absent ↦ absent_Outcome absent make_join-Made
      | inr (p, found) ↦
          let (c, costs) =
            cost_of-Covers has_join_edge dp.store.plans p goal table.plans_valid
              (All-find (Entry dp.store.plans) dp.plan_map goal p table.map_covers found) in
          elim (Bool-cases (ltb c ((v.left_cost + v.right_cost) % 2 ^ 64))) [
            | inl dear ↦ (
              dp,
              (
                rw found (
                    rw v.found_left (
                      rw v.found_right
                        (rw costs (rw v.costs_left (rw v.costs_right (rw dear refl)))))),
                skipped refl refl
                    (λ edge. (p, c, found, costs, omega (arith, sum_bound, ltb→lt c _ dear))),
              ),
            )
            | inr stay ↦ elim (Bool-cases (has_join_edge a b)) [
              | inl edge ↦ weighed_Outcome p c found costs stay edge make_join-Made
              | inr apart ↦
                  let e : has_join_edge v.left.covered_relations v.right.covered_relations ≡ false =
                    sides_edge ∙ apart in
                  (
                    dp,
                    (
                      rw found (
                          rw v.found_left (
                            rw v.found_right (
                              rw costs (
                                rw v.costs_left (
                                  rw v.costs_right
                                    (rw stay (rw v.at_left (rw v.at_right (rw e refl))))))))),
                      skipped refl refl (λ edge. absurd (cc)),
                    ),
                  )
            ]
          ]
    ]
