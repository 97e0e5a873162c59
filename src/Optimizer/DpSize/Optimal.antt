-- ===== src/Optimizer/DpSize/Optimal.antt =====
-- What `DPSize` and `DPSizeLinear` promise: they end, and the plan that they return joins every
-- relation of the query once, with no cross product.
use fact_db.Prelude.{
  ℕ, ◌≤◌, ◌≡◌, sym, ap, ◌∙◌, Bool, some, List, arith, if◌then◌else◌, ltb, >>=-eq-some,
  some_injective,
}
use mathlib.Core.Path.{subst}
use fact_db.BitSet.Word.{BitSet64, from_range}
use fact_db.BitSet.Word.Members.{contains-from_range}
use fact_db.BitSet.Word.Size.{size-le}
use fact_db.Optimizer.DpSize.{FlatPlan, DpSize, new, get_plan, find, get_optimal_plan}
use fact_db.Optimizer.DpSize.Table.{All-find}
use fact_db.Optimizer.DpSize.Valid.{Entry, IsTable}
use fact_db.Optimizer.DpSize.Search.{generate_optimal_plan, generate_optimal_plan_linear}
use fact_db.Optimizer.DpSize.Run.{generate-IsTable}
use fact_db.Optimizer.DpSize.Sizes.{bushy-Succeeds, linear-Succeeds}
use fact_db.Optimizer.DpSize.Relations.{JoinTree, tree_of, Joins, occurrences, Covers-IsTreeOf}

-- The tree behind the pointer joins the relations below `relations`, each of them once.
pub record JoinsAll (has_join_edge : BitSet64 → BitSet64 → Bool) (relations : ℕ)
    (plans : List FlatPlan) (p : ℕ) : Type 0 where
  pub all : BitSet64
  pub range : from_range 0 relations ≡ some all
  pub tree : JoinTree
  pub reads : tree_of 64 plans p ≡ some tree
  pub joins : Joins has_join_edge tree all
  pub once : (v : ℕ) → occurrences v tree ≡ (if ltb v relations then 1 else 0)

pub get_optimal_plan-JoinsAll :
    (has_join_edge : BitSet64 → BitSet64 → Bool) (relations : ℕ) (dp : DpSize) (p : ℕ)
    → IsTable has_join_edge dp
    → get_optimal_plan relations dp ≡ some p
    → JoinsAll has_join_edge relations dp.store.plans p
unfolding get_optimal_plan get_plan
get_optimal_plan-JoinsAll has_join_edge relations dp p table got =
    let (all, range, found) =
      >>=-eq-some (from_range 0 relations) (λ problem. find dp.plan_map problem) got in
    let covers = All-find (Entry dp.store.plans) dp.plan_map all p table.map_covers found in
    let t =
      Covers-IsTreeOf has_join_edge 64 dp.store.plans p all table.plans_valid covers
        (size-le all) in
    record {
      all = all;
      range = range;
      tree = t.tree;
      reads = t.reads;
      joins = t.joins;
      once = λ v.
          t.once v
          ∙ ap (λ b. if b then 1 else 0)
              (contains-from_range 0 relations all v range ∙ ground arith);
    }

module _ (oracle : List FlatPlan → FlatPlan → ℕ) (has_join_edge : BitSet64 → BitSet64 → Bool)
    (relations ctr : ℕ) where
  generate_optimal_plan-IsTable :
      1 ≤ relations
      → relations ≤ 64
      → (dp : DpSize) × (generate_optimal_plan oracle has_join_edge relations (new ctr) ≡ some dp)
        × IsTable has_join_edge dp
  unfolding generate_optimal_plan
  generate_optimal_plan-IsTable pos small =
      let (s, ran, table, c) =
        generate-IsTable oracle has_join_edge (λ n s. Unit {0}) _ relations ctr pos small
          (λ s v prepared. tt)
          (λ cur_size s low high v c.
            let (s', ran, after, q) =
              bushy-Succeeds has_join_edge relations oracle cur_size s low high v in
            (s', ran, after, tt)) in
      (s.dp, ran, table)

  generate_optimal_plan_linear-IsTable :
      1 ≤ relations
      → relations ≤ 64
      → (dp : DpSize) × (generate_optimal_plan_linear oracle has_join_edge relations (new ctr)
          ≡ some dp)
        × IsTable has_join_edge dp
  unfolding generate_optimal_plan_linear
  generate_optimal_plan_linear-IsTable pos small =
      let (s, ran, table, c) =
        generate-IsTable oracle has_join_edge (λ n s. Unit {0}) _ relations ctr pos small
          (λ s v prepared. tt)
          (λ cur_size s low high v c.
            let (s', ran, after, q) =
              linear-Succeeds has_join_edge relations oracle cur_size s low high v in
            (s', ran, after, tt)) in
      (s.dp, ran, table)

  -- For 1 to 64 relations and any cardinality oracle and test for join edges,
  -- generateOptimalPlan of DPSize and of DPSizeLinear end, with no failed assertion, no access
  -- out of bounds and no null pointer.
  pub generate_optimal_plan_total :
      1 ≤ relations
      → relations ≤ 64
      → ((dp : DpSize) × (generate_optimal_plan oracle has_join_edge relations (new ctr) ≡ some dp))
        × ((dp : DpSize) × (generate_optimal_plan_linear oracle has_join_edge relations (new ctr)
              ≡ some dp))
  generate_optimal_plan_total pos small =
      let (dp, ran, table) = generate_optimal_plan-IsTable pos small in
      let (dp', ran', table') = generate_optimal_plan_linear-IsTable pos small in
      ((dp, ran), (dp', ran'))

  -- For 1 to 64 relations and any cardinality oracle and test for join edges: if getOptimalPlan
  -- returns a plan after generateOptimalPlan of DPSize, the pointers of this plan spell out a
  -- tree that joins the set of all the relations, holds every relation of the query exactly once
  -- and no other, and has a join edge between the two sides of each of its joins.
  pub get_optimal_plan-generate_optimal_plan :
      (dp : DpSize) (p : ℕ)
      → 1 ≤ relations
      → relations ≤ 64
      → generate_optimal_plan oracle has_join_edge relations (new ctr) ≡ some dp
      → get_optimal_plan relations dp ≡ some p
      → JoinsAll has_join_edge relations dp.store.plans p
  get_optimal_plan-generate_optimal_plan dp p pos small ran got =
      let (dp', ran', table) = generate_optimal_plan-IsTable pos small in
      get_optimal_plan-JoinsAll has_join_edge relations dp p
        (subst (IsTable has_join_edge) (some_injective (sym ran' ∙ ran)) table) got

  -- For 1 to 64 relations and any cardinality oracle and test for join edges: if getOptimalPlan
  -- returns a plan after generateOptimalPlan of DPSizeLinear, the pointers of this plan spell
  -- out a tree that joins the set of all the relations, holds every relation of the query
  -- exactly once and no other, and has a join edge between the two sides of each of its joins.
  pub get_optimal_plan-generate_optimal_plan_linear :
      (dp : DpSize) (p : ℕ)
      → 1 ≤ relations
      → relations ≤ 64
      → generate_optimal_plan_linear oracle has_join_edge relations (new ctr) ≡ some dp
      → get_optimal_plan relations dp ≡ some p
      → JoinsAll has_join_edge relations dp.store.plans p
  get_optimal_plan-generate_optimal_plan_linear dp p pos small ran got =
      let (dp', ran', table) = generate_optimal_plan_linear-IsTable pos small in
      get_optimal_plan-JoinsAll has_join_edge relations dp p
        (subst (IsTable has_join_edge) (some_injective (sym ran' ∙ ran)) table) got
