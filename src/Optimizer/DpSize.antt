-- ===== src/Optimizer/DpSize.antt =====
-- factDB/opt/algs/DPSize.hpp and DPSize.cpp: the dynamic programming over the sets of relations, by
-- their size, and factDB/opt/estimators/FlatEstimator.cpp, whose costs it compares. The cardinality
-- oracle and the query graph's test for a join edge are parameters. `none` is a failed assertion, an
-- access out of bounds, or a read through a null pointer.
pub mod Search
pub mod Table
pub mod Valid
pub mod Step
pub mod Rows
pub mod Outcome
pub mod Steps
pub mod Costs
pub mod JoinCost
pub mod Cheapest
pub mod Priced
pub mod Minimal
pub mod Trees
pub mod Complete
pub mod Pairs
pub mod Loops
pub mod Sizes
pub mod Prepare
pub mod Run
pub mod Optimal
pub mod Relations
use fact_db.Prelude.{
  ℕ, zero, suc, ◌+◌, ◌-◌, ◌%◌, ◌^◌, Bool, true, false, ◌&&◌, not, Option, none, some, List, [], ◌∷◌,
  ◌++◌, ltb, ◌==◌, if◌then◌else◌, ◌>>=◌, length, get_elem?, set, replicate,
}
use fact_db.BitSet.Word.{BitSet64, from_list, from_range, union, equal, does_intersect_with}
use fact_db.Optimizer.Plans.{
  Plan, PlanType, base_table, join, JoinMode, top_insert, Store, Estimator, make_join_estimated,
  store_plan, overwrite_plan, new_base_table, has_join_edge_with,
}

pub record FlatEstimate : Type 0 where
  pub cardinality : ℕ
  pub cost : ℕ

abbrev pub FlatPlan : Type 0
FlatPlan = Plan FlatEstimate

-- The cost behind a pointer to a plan.
unfoldable pub cost_of : List FlatPlan → ℕ → Option ℕ
cost_of plans p = do plan ← get_elem? plans p; e ← plan.estimate; some e.cost

-- `std::unordered_map<BitSet64, Plan*>`: no key stands in it twice.
abbrev pub PlanMap : Type 0
PlanMap = List (BitSet64 × ℕ)

unfoldable pub find : PlanMap → BitSet64 → Option ℕ
find [] key = none
find ((k, p) ∷ entries) key = if equal k key then some p else find entries key

-- `planMap[key] = p`
unfoldable pub assign : PlanMap → BitSet64 → ℕ → PlanMap
assign [] key p = (key, p) ∷ []
assign ((k, q) ∷ entries) key p =
    if equal k key then (k, p) ∷ entries else (k, q) ∷ assign entries key p

pub record DpSize : Type 0 where
  pub store : Store FlatEstimate
  pub base_tables : List ℕ
  pub plan_map : PlanMap

-- The object after the constructor; `planIDCtr` counts on over all the algorithms of the process.
unfoldable pub new : ℕ → DpSize
new plan_id_ctr = record {
  store = record { plans = []; plan_id_ctr = plan_id_ctr };
  base_tables = [];
  plan_map = [];
}

module _ (oracle : List FlatPlan → FlatPlan → ℕ) where
  -- `estimatePlan` of the base class, with `estimateBaseTablePlan` and `estimateJoinPlan`.
  unfoldable pub flat_estimator : Estimator FlatEstimate
  unfolding cost_of
  flat_estimator plans plan = elim plan.type [
    | base_table relation ↦ some (record { cardinality = oracle plans plan; cost = 0 })
    | join left right mode ↦ do
      left_cost ← cost_of plans left
      right_cost ← cost_of plans right
      some (record {
        cardinality = oracle plans plan;
        cost = (oracle plans plan + left_cost + right_cost) % 2 ^ 64;
      })
  ]

  -- The base tables from `idx` on.
  unfoldable pub prepare_base_tables : ℕ → ℕ → DpSize → Option DpSize
  prepare_base_tables zero idx dp = some dp
  prepare_base_tables (suc rounds) idx dp = do
    (store, p) ← new_base_table flat_estimator dp.store idx
    key ← from_list (idx ∷ [])
    prepare_base_tables rounds (idx + 1) (record {
      store = store;
      base_tables = dp.base_tables ++ p ∷ [];
      plan_map = assign dp.plan_map key p;
    })

unfoldable pub get_plan : DpSize → BitSet64 → Option ℕ
unfolding find
get_plan dp problem = find dp.plan_map problem

-- The plan of the pair of problems replaces the alternative plan in its place, if it is cheaper.
unfoldable pub replace_if_cheaper : DpSize → FlatPlan → ℕ → Option (DpSize × Option ℕ)
replace_if_cheaper dp combined alternative = do
  e ← combined.estimate
  alternative_cost ← cost_of dp.store.plans alternative
  some (
      if ltb e.cost alternative_cost
      then (record dp { store = overwrite_plan dp.store alternative combined }, some alternative)
      else (dp, some alternative))

-- The early return: the plans of the two problems cost more than the alternative already.
unfoldable pub gives_up : DpSize → ℕ → ℕ → Option ℕ → Option Bool
unfolding cost_of
gives_up dp left right none = some false
gives_up dp left right (some p) = do
  alternative_cost ← cost_of dp.store.plans p
  left_cost ← cost_of dp.store.plans left
  right_cost ← cost_of dp.store.plans right
  some (ltb alternative_cost ((left_cost + right_cost) % 2 ^ 64))

module _ (oracle : List FlatPlan → FlatPlan → ℕ) (has_join_edge : BitSet64 → BitSet64 → Bool) where
  -- The plan of the two problems, unless no join edge connects them.
  unfoldable pub join_problems : DpSize → ℕ → ℕ → Option ℕ → Option (DpSize × Option ℕ)
  join_problems dp left right alternative = do
    left_plan ← get_elem? dp.store.plans left
    right_plan ← get_elem? dp.store.plans right
    if has_join_edge_with has_join_edge left_plan right_plan
        then (do
          (store, combined) ←
              make_join_estimated (flat_estimator oracle) dp.store left right top_insert
          let dp' : DpSize = record dp { store = store }
          elim alternative [
            | none ↦
                let stored = store_plan store combined in
                some (record dp { store = stored.0 }, some stored.1)
            | some p ↦ replace_if_cheaper dp' combined p
          ])
        else some (dp, alternative)

  unfoldable pub choose_better_plan :
      DpSize → BitSet64 → BitSet64 → Option ℕ → Option (DpSize × Option ℕ)
  choose_better_plan dp left_problem right_problem alternative = do
    left ← get_plan dp left_problem
    right ← get_plan dp right_problem
    give_up ← gives_up dp left right alternative
    if give_up then some (dp, alternative) else join_problems dp left right alternative

  unfoldable pub create_join : DpSize → BitSet64 → BitSet64 → Option DpSize
  create_join dp left_problem right_problem = do
    let combined = union left_problem right_problem
    let known = find dp.plan_map combined
    (dp', better) ← choose_better_plan dp left_problem right_problem known
    some (elim known [
      | some p ↦ dp'
      | none ↦ elim better [
        | none ↦ dp'
        | some p ↦ record dp' { plan_map = assign dp'.plan_map combined p }
      ]
    ])

unfoldable pub get_optimal_plan : ℕ → DpSize → Option ℕ
unfolding get_plan
get_optimal_plan relations dp = do problem ← from_range 0 relations; get_plan dp problem
