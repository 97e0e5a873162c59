-- ===== src/Optimizer/DpSize/Minimal.antt =====
-- `DPSize` returns a plan of least cost.
use fact_db.Prelude.{
  Option, ℕ, zero, suc, ◌≤◌, ◌<◌, ◌^◌, ◌≡◌, refl, sym, ap, ◌∙◌, Bool, some, List, get_elem?, ◌>>=◌,
  >>=-eq-some, some_injective, arith,
}
use mathlib.Core.Path.{subst}
use fact_db.BitSet.Word.{BitSet64, union, from_range}
use fact_db.Optimizer.Plans.{PlanType, base_table, join}
use fact_db.Optimizer.Plans.Valid.{AllPlans, CoversType}
use fact_db.Optimizer.DpSize.{FlatPlan, DpSize, new, find, cost_of, get_plan, get_optimal_plan}
use fact_db.Optimizer.DpSize.Table.{All-find}
use fact_db.Optimizer.DpSize.Valid.{Entry, cost_of-Covers}
use fact_db.Optimizer.DpSize.Search.{Search, generate_optimal_plan, generate_optimal_plan_linear}
use fact_db.Optimizer.DpSize.Relations.{JoinTree, leaf, node, Joins, tree_of}
use fact_db.Optimizer.DpSize.JoinCost.{set_of, join_cost, from_list-set_of}
use fact_db.Optimizer.DpSize.Cheapest.{cheap_as}
use fact_db.Optimizer.DpSize.Costs.{cost_of-plan}
use fact_db.Optimizer.DpSize.Priced.{PricedType, IsPriced, AllPriced, Steps-AllPriced}
use fact_db.Optimizer.DpSize.Optimal.{get_optimal_plan-JoinsAll}
use fact_db.Optimizer.DpSize.Trees.{
  Claim, Searched, IsLeftDeep, IsLeftDeep-parts, bushy-Searched, linear-Searched,
}

module _ (has_join_edge : BitSet64 → BitSet64 → Bool) (card : BitSet64 → ℕ) where
  -- The tree behind a pointer is over the set of the plan, and costs at most the plan's estimate.
  record Affordable (plans : List FlatPlan) (p : ℕ) (plan : FlatPlan) (tree : JoinTree)
      : Type 0 where
    same_set : set_of tree ≡ plan.covered_relations
    within : (c : ℕ) → cost_of plans p ≡ some c → join_cost card tree ≤ c

  tree_of-type :
      (fuel : ℕ) (plans : List FlatPlan) (p : ℕ) (plan : FlatPlan) (tree : JoinTree)
      → get_elem? plans p ≡ some plan
      → (v : IsPriced card plans plan) → (t : PlanType) → plan.type ≡ t
      → CoversType has_join_edge plans plan.covered_relations t
      → PricedType card plans plan.covered_relations v.estimate.cost t
      → tree_of (suc fuel) plans p ≡ some tree
      → ((q : ℕ) (other : FlatPlan) (sub : JoinTree)
          → get_elem? plans q ≡ some other
          → tree_of fuel plans q ≡ some sub
          → Affordable plans q other sub)
      → Affordable plans p plan tree
  unfolding tree_of join_cost set_of cost_of
  tree_of-type fuel plans p plan tree at v (base_table r) is single priced reads ih =
      let same : leaf r ≡ tree = some_injective (sym (rw (tree_of, at, is)) ∙ reads) in
      subst (Affordable plans p plan) same (record {
        same_set = from_list-set_of r plan.covered_relations single;
        within = λ c costs. omega arith;
      })
  tree_of-type fuel plans p plan tree at v (join l r mode) is j (x, y, left, right, le) reads ih =
      let both : (tree_of fuel plans l >>= λ a. tree_of fuel plans r >>= λ b. some (node a b))
          ≡ some tree =
        sym (rw (tree_of, at, is)) ∙ reads in
      let (a, reads_a, more) = >>=-eq-some (tree_of fuel plans l) _ both in
      let (b, reads_b, same) = >>=-eq-some (tree_of fuel plans r) (λ b. some (node a b)) more in
      let (left_plan, at_left, covers_left) = j.left_covers in
      let (right_plan, at_right, covers_right) = j.right_covers in
      let u = ih l left_plan a at_left reads_a in
      let w = ih r right_plan b at_right reads_b in
      let set : union (set_of a) (set_of b) ≡ plan.covered_relations =
        rw (u.same_set ∙ covers_left) (rw (w.same_set ∙ covers_right) (sym j.union_of)) in
      subst (Affordable plans p plan) (some_injective same) (record {
        same_set = set;
        within = λ c costs.
            let known : cost_of plans p ≡ some v.estimate.cost = rw at (rw v.estimated refl) in
            let total : v.estimate.cost ≡ c = some_injective (sym known ∙ costs) in
            omega (arith, u.within x left, w.within y right, le, total, ap card set);
      })

  tree_of-Affordable :
      (fuel : ℕ) (plans : List FlatPlan) (p : ℕ) (plan : FlatPlan) (tree : JoinTree)
      → AllPlans has_join_edge plans
      → AllPriced card plans
      → get_elem? plans p ≡ some plan
      → tree_of fuel plans p ≡ some tree
      → Affordable plans p plan tree
  unfolding tree_of
  tree_of-Affordable zero plans p plan tree all priced at reads = absurd (cc)
  tree_of-Affordable (suc fuel) plans p plan tree all priced at reads =
      let v = priced p plan at in
      tree_of-type fuel plans p plan tree at v plan.type refl (all p plan at).built v.priced reads
        (λ q other sub at' reads'. tree_of-Affordable fuel plans q other sub all priced at' reads')

-- The pointer's tree joins all the relations, and no tree of the shape that does so costs less.
pub record IsLeast (has_join_edge : BitSet64 → BitSet64 → Bool) (card : BitSet64 → ℕ)
    (Shape : JoinTree → Type 0) (relations : ℕ) (plans : List FlatPlan) (p : ℕ) : Type 0 where
  pub all : BitSet64
  pub range : from_range 0 relations ≡ some all
  pub tree : JoinTree
  pub reads : tree_of 64 plans p ≡ some tree
  pub joins : Joins has_join_edge tree all
  pub estimate : ℕ
  pub costs : cost_of plans p ≡ some estimate
  pub within : join_cost card tree ≤ estimate
  pub least : (t : JoinTree) → Shape t → Joins has_join_edge t all → estimate ≤ join_cost card t

-- The estimate of the pointer's plan is the cost of its tree, and no tree that joins all the
-- relations costs less.
pub record IsCheapest (has_join_edge : BitSet64 → BitSet64 → Bool) (card : BitSet64 → ℕ)
    (relations : ℕ) (plans : List FlatPlan) (p : ℕ) : Type 0 where
  pub all : BitSet64
  pub range : from_range 0 relations ≡ some all
  pub tree : JoinTree
  pub reads : tree_of 64 plans p ≡ some tree
  pub joins : Joins has_join_edge tree all
  pub costs : cost_of plans p ≡ some (join_cost card tree)
  pub least : (t : JoinTree) → Joins has_join_edge t all → join_cost card tree ≤ join_cost card t

module _ (oracle : List FlatPlan → FlatPlan → ℕ) (has_join_edge : BitSet64 → BitSet64 → Bool)
    (card : BitSet64 → ℕ) (relations ctr : ℕ)
    (by_set : (plans : List FlatPlan) (plan : FlatPlan)
      → oracle plans plan ≡ card plan.covered_relations)
    (small : (x : BitSet64) → card x < 2 ^ 57) where
  abbrev cheap : Claim oracle has_join_edge relations
  cheap = cheap_as oracle has_join_edge card by_set relations

  Searched-IsLeast :
      (Shape : JoinTree → Type 0) (parts : (l r : JoinTree) → Shape (node l r) → Shape l × Shape r)
      (body : ℕ → Search → Option Search) (all : BitSet64) (p : ℕ)
      → from_range 0 relations ≡ some all
      → (end : Searched oracle has_join_edge relations cheap Shape parts body ctr all)
      → get_optimal_plan relations end.dp ≡ some p
      → IsLeast has_join_edge card Shape relations end.dp.store.plans p
  unfolding get_optimal_plan get_plan
  Searched-IsLeast Shape parts body all p range end got =
      let plans = end.dp.store.plans in
      let j = get_optimal_plan-JoinsAll has_join_edge relations end.dp p end.table got in
      let found : find end.dp.plan_map all ≡ some p = sym (rw range refl) ∙ got in
      let same : j.all ≡ all = some_injective (sym j.range ∙ range) in
      let (c, costs) =
        cost_of-Covers has_join_edge plans p all end.table.plans_valid
          (All-find (Entry plans) end.dp.plan_map all p end.table.map_covers found) in
      let (plan, at) = cost_of-plan plans p c costs in
      let priced =
        Steps-AllPriced card small oracle has_join_edge by_set relations end.prepared end.steps in
      let v =
        tree_of-Affordable has_join_edge card 64 plans p plan j.tree end.table.plans_valid priced at
          j.reads in
      record {
        all = all;
        range = range;
        tree = j.tree;
        reads = j.reads;
        joins = subst (Joins has_join_edge j.tree) same j.joins;
        estimate = c;
        costs = costs;
        within = v.within c costs;
        least = λ t shape joins.
            let (set, h) = end.trees t shape joins in
            let one : h.plan ≡ p = some_injective (sym h.found ∙ found) in
            let equal : h.cost ≡ c =
              some_injective (sym h.costs ∙ ap (cost_of plans) one ∙ costs) in
            omega (arith, h.within, equal);
      }

  -- For a cardinality oracle that depends on the set of relations alone and stays below 2^57,
  -- and any test for join edges: if getOptimalPlan returns a plan after generateOptimalPlan of
  -- DPSize on at least one relation, the pointers of the plan spell out a tree that joins all
  -- the relations without a cross product, the cost in its estimate is the sum of the
  -- cardinalities of all the joins of this tree, and no such tree, bushy ones included, has a
  -- smaller sum.
  pub get_optimal_plan-IsCheapest :
      (dp : DpSize) (p : ℕ)
      → 1 ≤ relations
      → generate_optimal_plan oracle has_join_edge relations (new ctr) ≡ some dp
      → get_optimal_plan relations dp ≡ some p
      → IsCheapest has_join_edge card relations dp.store.plans p
  unfolding generate_optimal_plan get_optimal_plan
  get_optimal_plan-IsCheapest dp p pos ran got =
      let (all, range, found) = >>=-eq-some (from_range 0 relations) (λ x. get_plan dp x) got in
      let end = bushy-Searched oracle has_join_edge relations cheap ctr all pos range in
      let same : end.dp ≡ dp = some_injective (sym end.ran ∙ ran) in
      let v =
        subst (λ (d : DpSize). IsLeast has_join_edge card (λ t. Unit {0}) relations d.store.plans p)
          same
          (Searched-IsLeast (λ t. Unit {0}) (λ l r u. (tt, tt)) _ all p range end
            (ap (get_optimal_plan relations) same ∙ got)) in
      let exact : v.estimate ≡ join_cost card v.tree =
        omega (arith, v.within, v.least v.tree tt v.joins) in
      record {
        all = v.all;
        range = v.range;
        tree = v.tree;
        reads = v.reads;
        joins = v.joins;
        costs = v.costs ∙ ap some exact;
        least = λ t joins. omega (arith, exact, v.least t tt joins);
      }

  -- Under the same conditions on the oracle: if getOptimalPlan returns a plan after
  -- generateOptimalPlan of DPSizeLinear on at least one relation, the pointers of the plan spell
  -- out a tree that joins all the relations without a cross product, the sum of the
  -- cardinalities of its joins is at most the cost in its estimate, and this cost is at most the
  -- sum for each left-deep tree without a cross product.
  pub get_optimal_plan-IsLeast :
      (dp : DpSize) (p : ℕ)
      → 1 ≤ relations
      → generate_optimal_plan_linear oracle has_join_edge relations (new ctr) ≡ some dp
      → get_optimal_plan relations dp ≡ some p
      → IsLeast has_join_edge card IsLeftDeep relations dp.store.plans p
  unfolding generate_optimal_plan_linear get_optimal_plan
  get_optimal_plan-IsLeast dp p pos ran got =
      let (all, range, found) = >>=-eq-some (from_range 0 relations) (λ x. get_plan dp x) got in
      let end = linear-Searched oracle has_join_edge relations cheap ctr all pos range in
      let same : end.dp ≡ dp = some_injective (sym end.ran ∙ ran) in
      subst (λ (d : DpSize). IsLeast has_join_edge card IsLeftDeep relations d.store.plans p) same
        (Searched-IsLeast IsLeftDeep IsLeftDeep-parts _ all p range end
          (ap (get_optimal_plan relations) same ∙ got))
