-- ===== src/Tests/Plans.antt =====
-- Join orders for three relations in a chain.
use fact_db.Prelude.{
  ℕ, ◌<◌, ◌^◌, ◌*◌, ◌≡◌, refl, Bool, true, not, ◌||◌, some, List, [], ◌∷◌, bit_and, ◌==◌, arith,
}
use fact_db.BitSet.Word.{BitSet64, from_range}
use fact_db.Optimizer.Plans.{Plan, PlanType, base_table, join, JoinMode, top_insert, Store}
use fact_db.Optimizer.DpSize.{FlatPlan, FlatEstimate, DpSize, new, get_optimal_plan}
use fact_db.Optimizer.DpSize.Search.{generate_optimal_plan, generate_optimal_plan_linear}
use fact_db.Optimizer.DpSize.Optimal.{
  JoinsAll, generate_optimal_plan_total, get_optimal_plan-generate_optimal_plan,
  get_optimal_plan-generate_optimal_plan_linear,
}
use fact_db.Optimizer.DpSize.Relations.{JoinTree, leaf, node, Joins}
use fact_db.Optimizer.DpSize.Trees.{IsLeftDeep}
use fact_db.Optimizer.DpSize.Minimal.{
  IsCheapest, IsLeast, get_optimal_plan-IsCheapest, get_optimal_plan-IsLeast,
}
use fact_db.Optimizer.DpSize.Complete.{get_optimal_plan_complete, get_optimal_plan_complete_linear}

-- The oracle's cardinalities by the word of the set: joining the relations 1 and 2 first is cheaper.
abbrev cardinality : List FlatPlan → FlatPlan → ℕ
cardinality plans plan = elim (plan.covered_relations.set == 6) [ true ↦ 5 | _ ↦ 10 ]

abbrev chain : BitSet64 → BitSet64 → Bool
chain a b = not (bit_and (a.set * 2) b.set == 0) || not (bit_and a.set (b.set * 2) == 0)

abbrev base : ℕ → ℕ → FlatPlan
base v set = record {
  plan_id = v;
  type = base_table v;
  covered_relations = record { set = set };
  estimate = some (record { cardinality = 10; cost = 0 });
}

abbrev joining : ℕ → ℕ → ℕ → ℕ → ℕ → ℕ → FlatPlan
joining id l r set cardinality cost = record {
  plan_id = id;
  type = join l r top_insert;
  covered_relations = record { set = set };
  estimate = some (record { cardinality = cardinality; cost = cost });
}

-- The table at the end: the plan of all the relations is the last one.
abbrev table : DpSize
table = record {
  store = record {
    plans =
        base 0 1
        ∷ base 1 2
        ∷ base 2 4
        ∷ joining 3 0 1 3 10 10
        ∷ joining 8 1 2 6 5 5
        ∷ joining 13 0 4 7 10 15
        ∷ [];
    plan_id_ctr = 22;
  };
  base_tables = 0 ∷ 1 ∷ 2 ∷ [];
  plan_map =
      (record { set = 1 }, 0)
      ∷ (record { set = 2 }, 1)
      ∷ (record { set = 4 }, 2)
      ∷ (record { set = 3 }, 3)
      ∷ (record { set = 6 }, 4)
      ∷ (record { set = 7 }, 5)
      ∷ [];
}

generate_runs : generate_optimal_plan cardinality chain 3 (new 0) ≡ some table
unfolding generate_optimal_plan fact_db.Optimizer.DpSize.Search.generate
    fact_db.Optimizer.DpSize.Search.bushy fact_db.Optimizer.DpSize.Search.push
    fact_db.Optimizer.DpSize.Search.relation_of fact_db.Optimizer.DpSize.Search.push_base_tables
    fact_db.Optimizer.DpSize.Search.join_pair fact_db.Optimizer.DpSize.Search.right_loop
    fact_db.Optimizer.DpSize.Search.left_loop fact_db.Optimizer.DpSize.Search.combine_sizes
    fact_db.Optimizer.DpSize.Search.left_size_loop fact_db.Optimizer.DpSize.Search.size_loop
    fact_db.Optimizer.DpSize.cost_of fact_db.Optimizer.DpSize.find fact_db.Optimizer.DpSize.assign
    new fact_db.Optimizer.DpSize.flat_estimator fact_db.Optimizer.DpSize.prepare_base_tables
    fact_db.Optimizer.DpSize.get_plan fact_db.Optimizer.DpSize.replace_if_cheaper
    fact_db.Optimizer.DpSize.join_problems fact_db.Optimizer.DpSize.gives_up
    fact_db.Optimizer.DpSize.choose_better_plan fact_db.Optimizer.DpSize.create_join
    fact_db.Optimizer.Plans.make_join_estimated fact_db.Optimizer.Plans.store_plan
    fact_db.Optimizer.Plans.overwrite_plan fact_db.Optimizer.Plans.new_base_table
    fact_db.Optimizer.Plans.has_join_edge_with fact_db.BitSet.Word.from_list
    fact_db.BitSet.Word.union fact_db.BitSet.Word.equal fact_db.BitSet.Word.does_intersect_with
generate_runs = refl

-- The left-deep search finds the plan the other way round.
abbrev linear_table : DpSize
linear_table = record table {
  store = record {
    plans =
        base 0 1
        ∷ base 1 2
        ∷ base 2 4
        ∷ joining 3 0 1 3 10 10
        ∷ joining 8 1 2 6 5 5
        ∷ joining 16 4 0 7 10 15
        ∷ [];
    plan_id_ctr = 18;
  };
}

generate_linear_runs : generate_optimal_plan_linear cardinality chain 3 (new 0) ≡ some linear_table
unfolding generate_optimal_plan_linear fact_db.Optimizer.DpSize.Search.generate
    fact_db.Optimizer.DpSize.Search.linear fact_db.Optimizer.DpSize.Search.push
    fact_db.Optimizer.DpSize.Search.relation_of fact_db.Optimizer.DpSize.Search.push_base_tables
    fact_db.Optimizer.DpSize.Search.join_pair fact_db.Optimizer.DpSize.Search.right_loop
    fact_db.Optimizer.DpSize.Search.left_loop fact_db.Optimizer.DpSize.Search.combine_sizes
    fact_db.Optimizer.DpSize.Search.left_size_loop fact_db.Optimizer.DpSize.Search.size_loop
    fact_db.Optimizer.DpSize.cost_of fact_db.Optimizer.DpSize.find fact_db.Optimizer.DpSize.assign
    new fact_db.Optimizer.DpSize.flat_estimator fact_db.Optimizer.DpSize.prepare_base_tables
    fact_db.Optimizer.DpSize.get_plan fact_db.Optimizer.DpSize.replace_if_cheaper
    fact_db.Optimizer.DpSize.join_problems fact_db.Optimizer.DpSize.gives_up
    fact_db.Optimizer.DpSize.choose_better_plan fact_db.Optimizer.DpSize.create_join
    fact_db.Optimizer.Plans.make_join_estimated fact_db.Optimizer.Plans.store_plan
    fact_db.Optimizer.Plans.overwrite_plan fact_db.Optimizer.Plans.new_base_table
    fact_db.Optimizer.Plans.has_join_edge_with fact_db.BitSet.Word.from_list
    fact_db.BitSet.Word.union fact_db.BitSet.Word.equal fact_db.BitSet.Word.does_intersect_with
generate_linear_runs = refl

optimal_runs : get_optimal_plan 3 table ≡ some 5
unfolding get_optimal_plan fact_db.Optimizer.DpSize.get_plan fact_db.Optimizer.DpSize.find
    fact_db.BitSet.Word.equal fact_db.BitSet.Word.from_range
optimal_runs = refl

generate_optimal_plan_total_example :
    ((dp : DpSize) × (generate_optimal_plan cardinality chain 3 (new 0) ≡ some dp))
    × ((dp : DpSize) × (generate_optimal_plan_linear cardinality chain 3 (new 0) ≡ some dp))
generate_optimal_plan_total_example =
    generate_optimal_plan_total cardinality chain 3 0 (omega arith) (omega arith)

get_optimal_plan-generate_optimal_plan_example : JoinsAll chain 3 table.store.plans 5
get_optimal_plan-generate_optimal_plan_example =
    get_optimal_plan-generate_optimal_plan cardinality chain 3 0 table 5 (omega arith) (omega arith)
      generate_runs optimal_runs

linear_optimal_runs : get_optimal_plan 3 linear_table ≡ some 5
unfolding get_optimal_plan fact_db.Optimizer.DpSize.get_plan fact_db.Optimizer.DpSize.find
    fact_db.BitSet.Word.equal fact_db.BitSet.Word.from_range
linear_optimal_runs = refl

get_optimal_plan-generate_optimal_plan_linear_example : JoinsAll chain 3 linear_table.store.plans 5
get_optimal_plan-generate_optimal_plan_linear_example =
    get_optimal_plan-generate_optimal_plan_linear cardinality chain 3 0 linear_table 5 (omega arith)
      (omega arith) generate_linear_runs linear_optimal_runs

abbrev problem : ℕ → BitSet64
problem n = record { set = n }

all_three : from_range 0 3 ≡ some (problem 7)
unfolding from_range
all_three = refl

abbrev bushy_tree : JoinTree
bushy_tree = node (leaf 0) (node (leaf 1) (leaf 2))

bushy_tree-Joins : Joins chain bushy_tree (problem 7)
unfolding Joins fact_db.BitSet.Word.from_list fact_db.BitSet.Word.union
    fact_db.BitSet.Word.does_intersect_with
bushy_tree-Joins = (
  problem 1,
  problem 6,
  refl,
  (problem 2, problem 4, refl, refl, refl, refl, refl),
  refl,
  refl,
  refl,
)

get_optimal_plan_complete_example :
    (dp : DpSize) × (p : ℕ) × (generate_optimal_plan cardinality chain 3 (new 0) ≡ some dp)
    × (get_optimal_plan 3 dp ≡ some p)
get_optimal_plan_complete_example =
    get_optimal_plan_complete chain 3 cardinality 0 bushy_tree (problem 7) (omega arith) all_three
      bushy_tree-Joins

abbrev left_deep_tree : JoinTree
left_deep_tree = node (node (leaf 0) (leaf 1)) (leaf 2)

left_deep_tree-Joins : Joins chain left_deep_tree (problem 7)
unfolding Joins fact_db.BitSet.Word.from_list fact_db.BitSet.Word.union
    fact_db.BitSet.Word.does_intersect_with
left_deep_tree-Joins = (
  problem 3,
  problem 4,
  (problem 1, problem 2, refl, refl, refl, refl, refl),
  refl,
  refl,
  refl,
  refl,
)

left_deep_tree-IsLeftDeep : IsLeftDeep left_deep_tree
unfolding IsLeftDeep
left_deep_tree-IsLeftDeep = tt

get_optimal_plan_complete_linear_example :
    (dp : DpSize) × (p : ℕ) × (generate_optimal_plan_linear cardinality chain 3 (new 0) ≡ some dp)
    × (get_optimal_plan 3 dp ≡ some p)
get_optimal_plan_complete_linear_example =
    get_optimal_plan_complete_linear chain 3 cardinality 0 left_deep_tree (problem 7) (omega arith)
      all_three left_deep_tree-Joins left_deep_tree-IsLeftDeep

abbrev cardinality_of : BitSet64 → ℕ
cardinality_of x = elim (x.set == 6) [ true ↦ 5 | _ ↦ 10 ]

cardinality-lt : (x : BitSet64) → cardinality_of x < 2 ^ 57
cardinality-lt x = ground arith

get_optimal_plan-IsCheapest_example : IsCheapest chain cardinality_of 3 table.store.plans 5
get_optimal_plan-IsCheapest_example =
    get_optimal_plan-IsCheapest cardinality chain cardinality_of 3 0 (λ plans plan. refl)
      cardinality-lt table 5 (omega arith) generate_runs optimal_runs

get_optimal_plan-IsLeast_example :
    IsLeast chain cardinality_of IsLeftDeep 3 linear_table.store.plans 5
get_optimal_plan-IsLeast_example =
    get_optimal_plan-IsLeast cardinality chain cardinality_of 3 0 (λ plans plan. refl)
      cardinality-lt linear_table 5 (omega arith) generate_linear_runs linear_optimal_runs
