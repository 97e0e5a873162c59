-- ===== src/Optimizer/DpSize/Search.antt =====
-- The loops of factDB/opt/algs/DPSize.cpp, `DPSize::generateOptimalPlan` and
-- `DPSizeLinear::generateOptimalPlan`. A loop over a vector is a recursion on it: the rows that the
-- loops read are those of smaller sizes, and a push goes to the row of the current size.
use fact_db.Prelude.{
  ℕ, zero, suc, ◌+◌, ◌-◌, Bool, Option, none, some, List, [], ◌∷◌, ◌++◌, ◌==◌, if◌then◌else◌, ◌>>=◌,
  length, get_elem?, set, replicate,
}
use fact_db.BitSet.Word.{BitSet64, from_list, union, does_intersect_with}
use fact_db.Optimizer.Plans.{base_table, join}
use fact_db.Optimizer.DpSize.{FlatPlan, DpSize, prepare_base_tables, create_join}

-- `sizes`: for each number of relations, the problems of that size that have a plan.
abbrev pub Sizes : Type 0
Sizes = List (List BitSet64)

pub record Search : Type 0 where
  pub dp : DpSize
  pub sizes : Sizes

-- `sizes[size].push_back(problem)`
unfoldable pub push : Sizes → ℕ → BitSet64 → Option Sizes
push sizes size problem = do row ← get_elem? sizes size; some (set sizes size (row ++ problem ∷ []))

-- `r.getRelation()` for a base table.
unfoldable pub relation_of : List FlatPlan → ℕ → Option ℕ
relation_of plans p = do
  plan ← get_elem? plans p
  elim plan.type [ base_table relation ↦ some relation | join l r mode ↦ none ]

-- The first row holds the base tables.
unfoldable pub push_base_tables : List FlatPlan → List ℕ → Sizes → Option Sizes
push_base_tables plans [] sizes = some sizes
push_base_tables plans (p ∷ base_tables) sizes = do
  relation ← relation_of plans p
  problem ← from_list (relation ∷ [])
  sizes' ← push sizes 1 problem
  push_base_tables plans base_tables sizes'

-- The sizes from `cur_size` on.
unfoldable pub size_loop : (ℕ → Search → Option Search) → ℕ → ℕ → Search → Option Search
size_loop body zero cur_size s = some s
size_loop body (suc rounds) cur_size s =
    body cur_size s >>= λ s'. size_loop body rounds (cur_size + 1) s'

module _ (oracle : List FlatPlan → FlatPlan → ℕ) (has_join_edge : BitSet64 → BitSet64 → Bool) where
  -- The body of the innermost loop.
  unfoldable pub join_pair : ℕ → BitSet64 → BitSet64 → Search → Option Search
  join_pair cur_size left_problem right_problem s =
      if does_intersect_with left_problem right_problem then some s else do
        dp ← create_join oracle has_join_edge s.dp left_problem right_problem
        if length s.dp.plan_map == length dp.plan_map then some (record s { dp = dp }) else do
          sizes ← push s.sizes cur_size (union left_problem right_problem)
          some (record { dp = dp; sizes = sizes })

  unfoldable pub right_loop : ℕ → BitSet64 → List BitSet64 → Search → Option Search
  right_loop cur_size left_problem [] s = some s
  right_loop cur_size left_problem (right_problem ∷ rights) s =
      join_pair cur_size left_problem right_problem s >>= λ s'.
      right_loop cur_size left_problem rights s'

  unfoldable pub left_loop : ℕ → List BitSet64 → List BitSet64 → Search → Option Search
  left_loop cur_size [] rights s = some s
  left_loop cur_size (left_problem ∷ lefts) rights s =
      right_loop cur_size left_problem rights s >>= λ s'. left_loop cur_size lefts rights s'

  unfoldable pub combine_sizes : ℕ → ℕ → Search → Option Search
  combine_sizes cur_size left_size s = do
    lefts ← get_elem? s.sizes left_size
    rights ← get_elem? s.sizes (cur_size - left_size)
    left_loop cur_size lefts rights s

  -- The left sizes from `left_size` on.
  unfoldable pub left_size_loop : ℕ → ℕ → ℕ → Search → Option Search
  left_size_loop zero cur_size left_size s = some s
  left_size_loop (suc rounds) cur_size left_size s =
      combine_sizes cur_size left_size s >>= λ s'. left_size_loop rounds cur_size (left_size + 1) s'

  -- What the two algorithms do for one size: all the left sizes, or the largest one.
  unfoldable pub bushy : ℕ → Search → Option Search
  bushy cur_size s = left_size_loop (cur_size - 1) cur_size 1 s

  unfoldable pub linear : ℕ → Search → Option Search
  linear cur_size s = combine_sizes cur_size (cur_size - 1) s

  unfoldable pub generate : (ℕ → Search → Option Search) → ℕ → DpSize → Option DpSize
  generate body relations start = do
    dp ← prepare_base_tables oracle relations 0 start
    sizes ← push_base_tables dp.store.plans dp.base_tables (replicate (relations + 1) [])
    s ← size_loop body (relations - 1) 2 (record { dp = dp; sizes = sizes })
    some s.dp

  unfoldable pub generate_optimal_plan : ℕ → DpSize → Option DpSize
  generate_optimal_plan relations start = generate bushy relations start

  unfoldable pub generate_optimal_plan_linear : ℕ → DpSize → Option DpSize
  generate_optimal_plan_linear relations start = generate linear relations start
