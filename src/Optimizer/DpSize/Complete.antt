-- ===== src/Optimizer/DpSize/Complete.antt =====
-- `DPSize` finds a plan for every query that has a join tree.
use fact_db.Prelude.{ℕ, ◌≤◌, ◌≡◌, Bool, some, List}
use fact_db.BitSet.Word.{BitSet64, from_range}
use fact_db.Optimizer.DpSize.{FlatPlan, DpSize, new, get_plan, get_optimal_plan}
use fact_db.Optimizer.DpSize.Table.{Known}
use fact_db.Optimizer.DpSize.Search.{generate_optimal_plan, generate_optimal_plan_linear}
use fact_db.Optimizer.DpSize.Steps.{Call-Extends, Steps-Known}
use fact_db.Optimizer.DpSize.Relations.{JoinTree, Joins}
use fact_db.Optimizer.DpSize.Trees.{Claim, IsLeftDeep, bushy-Searched, linear-Searched}

module _ (has_join_edge : BitSet64 → BitSet64 → Bool) (relations : ℕ)
    (oracle : List FlatPlan → FlatPlan → ℕ) (ctr : ℕ) (tree : JoinTree) (all : BitSet64) where
  -- The problem of the tree has a plan.
  abbrev has_plan : Claim oracle has_join_edge relations
  has_plan = record {
    Has = λ dp t x. Known dp.plan_map x;
    known = λ dp t x k. k;
    single = λ dp r x v lt is. v.singles r x lt is;
    keeps = λ dp dp' t x steps k. Steps-Known oracle has_join_edge steps x k;
    joins = λ dp dp' l r a b c edge left right.
        (Call-Extends oracle has_join_edge a b c).edge_joined edge;
  }

  -- For 1 to 63 relations, any cardinality oracle and any test for join edges: if some tree
  -- joins the set of all the relations without a cross product, that is with an edge between the
  -- two disjoint sides of each of its joins, generateOptimalPlan of DPSize ends and
  -- getOptimalPlan then returns a plan.
  pub get_optimal_plan_complete :
      1 ≤ relations
      → from_range 0 relations ≡ some all
      → Joins has_join_edge tree all
      → (dp : DpSize) × (p : ℕ) × (generate_optimal_plan oracle has_join_edge relations (new ctr)
          ≡ some dp)
        × (get_optimal_plan relations dp ≡ some p)
  unfolding generate_optimal_plan get_optimal_plan get_plan
  get_optimal_plan_complete pos range joins =
      let end = bushy-Searched oracle has_join_edge relations has_plan ctr all pos range in
      let (p, found) = end.trees tree tt joins in (end.dp, p, end.ran, rw range found)

  -- For 1 to 63 relations, any cardinality oracle and any test for join edges: if some left-deep
  -- tree, whose joins have a single relation on the right, joins the set of all the relations
  -- without a cross product, generateOptimalPlan of DPSizeLinear ends and getOptimalPlan then
  -- returns a plan.
  pub get_optimal_plan_complete_linear :
      1 ≤ relations
      → from_range 0 relations ≡ some all
      → Joins has_join_edge tree all
      → IsLeftDeep tree
      → (dp : DpSize) × (p : ℕ) × (generate_optimal_plan_linear oracle has_join_edge relations
            (new ctr)
          ≡ some dp)
        × (get_optimal_plan relations dp ≡ some p)
  unfolding generate_optimal_plan_linear get_optimal_plan get_plan
  get_optimal_plan_complete_linear pos range joins deep =
      let end = linear-Searched oracle has_join_edge relations has_plan ctr all pos range in
      let (p, found) = end.trees tree deep joins in (end.dp, p, end.ran, rw range found)
