-- ===== src/Optimizer/DpSize/Priced.antt =====
-- The estimate of a plan is at least what the tree behind it costs. Overwriting a plan by a cheaper
-- one lowers what the trees above it cost, and not their estimates.
use fact_db.Prelude.{
  ℕ, ◌+◌, ◌*◌, ◌^◌, ◌≤◌, ◌<◌, ◌≡◌, refl, sym, ap, ◌∙◌, inl, inr, Bool, false, some, List, [], ◌∷◌,
  ◌++◌, set, get_elem?, get_elem?-append_cases, get_elem?-set_self, get_elem?-set_ne, get_elem?-lt,
  some_injective, Bool-cases, ◌==◌, ==_iff, ne_of_test, arith,
}
use mathlib.Core.Path.{subst}
use fact_db.BitSet.Word.{BitSet64, union, size, does_intersect_with}
use fact_db.BitSet.Word.Size.{size-union, size-le, size-pos}
use fact_db.Optimizer.Plans.{PlanType, base_table, join}
use fact_db.Optimizer.DpSize.{FlatEstimate, FlatPlan, DpSize, cost_of}
use fact_db.Optimizer.DpSize.Outcome.{IsCombined, Outcome, skipped, overwritten, added, Sides}
use fact_db.Optimizer.DpSize.Steps.{Steps, stay, call}
use fact_db.Optimizer.DpSize.Costs.{cost_of-at, cost_of-plan, cost_of-same, cost_of-append}
use fact_db.Optimizer.DpSize.Prepare.{Prepared}
use fact_db.Optimizer.DpSize.Cheapest.{Call-Effect}

-- Every cost stays or falls.
abbrev pub CostsFall : List FlatPlan → List FlatPlan → Type 0
CostsFall plans plans' =
    (p c : ℕ) → cost_of plans p ≡ some c → (c' : ℕ) × (cost_of plans' p ≡ some c') × (c' ≤ c)

CostsFall-append : (plans : List FlatPlan) (plan : FlatPlan) → CostsFall plans (plans ++ plan ∷ [])
CostsFall-append plans plan p c costs = (c, cost_of-append plans plan p c costs, omega arith)

CostsFall-set :
    (plans : List FlatPlan) (q old new : ℕ) (plan : FlatPlan)
    → cost_of plans q ≡ some old
    → cost_of (set plans q plan) q ≡ some new
    → new < old
    → CostsFall plans (set plans q plan)
CostsFall-set plans q old new plan before after lt p c costs = elim (Bool-cases (q == p)) [
  | inl e ↦
      let here : q ≡ p = (==_iff q p).0 e in
      let same : old ≡ c = some_injective (sym before ∙ ap (cost_of plans) here ∙ costs) in
      (new, sym (ap (cost_of (set plans q plan)) here) ∙ after, omega arith)
  | inr ne ↦
      let same =
        cost_of-same plans (set plans q plan) p
          (get_elem?-set_ne plans q p plan (ne_of_test q p ne)) in
      (c, same ∙ costs, omega arith)
]

module _ (card : BitSet64 → ℕ) where
  -- A join costs at least its cardinality and what its sides cost.
  abbrev pub PricedType : List FlatPlan → BitSet64 → ℕ → PlanType → Type 0
  PricedType plans s cost (base_table v) = Unit {0}
  PricedType plans s cost (join l r mode) =
      (x y : ℕ) × (cost_of plans l ≡ some x) × (cost_of plans r ≡ some y) × (card s + x + y ≤ cost)

  -- The bound keeps the sums of costs from wrapping.
  pub record IsPriced (plans : List FlatPlan) (plan : FlatPlan) : Type 0 where
    pub estimate : FlatEstimate
    pub estimated : plan.estimate ≡ some estimate
    pub priced : PricedType plans plan.covered_relations estimate.cost plan.type
    pub bounded : estimate.cost + 2 ^ 57 ≤ size plan.covered_relations * 2 ^ 57

  abbrev pub AllPriced : List FlatPlan → Type 0
  AllPriced plans = (p : ℕ) (plan : FlatPlan) → get_elem? plans p ≡ some plan → IsPriced plans plan

  PricedType-fall :
      (plans plans' : List FlatPlan)
      → CostsFall plans plans'
      → (s : BitSet64) (cost : ℕ) (t : PlanType) → PricedType plans s cost t
      → PricedType plans' s cost t
  PricedType-fall plans plans' fall s cost (base_table v) h = tt
  PricedType-fall plans plans' fall s cost (join l r mode) (x, y, left, right, le) =
      let (x', left', le_x) = fall l x left in
      let (y', right', le_y) = fall r y right in (x', y', left', right', omega arith)

  IsPriced-fall :
      (plans plans' : List FlatPlan) (plan : FlatPlan)
      → CostsFall plans plans'
      → IsPriced plans plan
      → IsPriced plans' plan
  IsPriced-fall plans plans' plan fall v = record {
    estimate = v.estimate;
    estimated = v.estimated;
    priced =
        PricedType-fall plans plans' fall plan.covered_relations v.estimate.cost plan.type v.priced;
    bounded = v.bounded;
  }

  cost_of-bounded :
      (plans : List FlatPlan) (p c : ℕ) (plan : FlatPlan) (s : BitSet64)
      → AllPriced plans
      → get_elem? plans p ≡ some plan
      → plan.covered_relations ≡ s
      → cost_of plans p ≡ some c
      → c + 2 ^ 57 ≤ size s * 2 ^ 57
  unfolding cost_of
  cost_of-bounded plans p c plan s all at covers costs =
      let v = all p plan at in
      let known : cost_of plans p ≡ some v.estimate.cost = rw at (rw v.estimated refl) in
      let same : v.estimate.cost ≡ c = some_injective (sym known ∙ costs) in
      omega (arith, same, v.bounded, ap size covers)

  module _ (small : (x : BitSet64) → card x < 2 ^ 57) where
    -- A combined plan is priced.
    IsCombined-IsPriced :
        (dp : DpSize) (a b : BitSet64) (v : Sides dp a b) (plan : FlatPlan)
        → AllPriced dp.store.plans
        → does_intersect_with a b ≡ false
        → IsCombined card (union a b) v.l v.r v.left_cost v.right_cost plan
        → IsPriced dp.store.plans plan
    IsCombined-IsPriced dp a b v plan all disjoint m =
        let x =
          cost_of-bounded dp.store.plans v.l v.left_cost v.left a all v.at_left v.covers_left
            v.costs_left in
        let y =
          cost_of-bounded dp.store.plans v.r v.right_cost v.right b all v.at_right v.covers_right
            v.costs_right in
        let total = size-union a b disjoint in
        let fits = size-le (union a b) in
        let exact : m.estimate.cost ≡ card (union a b) + v.left_cost + v.right_cost =
          omega (arith, m.cost, x, y, total, fits, small (union a b)) in
        record {
          estimate = m.estimate;
          estimated = m.estimated;
          priced =
              subst (PricedType dp.store.plans plan.covered_relations m.estimate.cost)
                (sym m.is_join)
                (
                  v.left_cost,
                  v.right_cost,
                  v.costs_left,
                  v.costs_right,
                  omega (arith, exact, ap card m.covers),
                );
          bounded = omega (arith, exact, x, y, total, small (union a b), ap size m.covers);
        }

    Outcome-AllPriced :
        (dp dp' : DpSize) (a b : BitSet64) (v : Sides dp a b) (edge : Bool)
        → does_intersect_with a b ≡ false
        → Outcome card dp (union a b) v.l v.r v.left_cost v.right_cost edge dp'
        → AllPriced dp.store.plans
        → AllPriced dp'.store.plans
    Outcome-AllPriced dp dp' a b v edge disjoint (skipped same_plans same_map more) all =
        rw same_plans all
    Outcome-AllPriced dp dp' a b v edge disjoint
          (overwritten p c plan is found costs m cheaper plans map) all =
        let olds = dp.store.plans in
        let news = set olds p plan in
        let (q, at) = cost_of-plan olds p c costs in
        let self = get_elem?-set_self olds p plan (get_elem?-lt olds p at) in
        let fall =
          CostsFall-set olds p c m.estimate.cost plan costs
            (cost_of-at news p plan card (union a b) v.l v.r v.left_cost v.right_cost self m)
            cheaper in
        let fresh =
          IsPriced-fall olds news plan fall (IsCombined-IsPriced dp a b v plan all disjoint m) in
        rw plans (λ i other at'. elim (Bool-cases (p == i)) [
          | inl e ↦
              let here : p ≡ i = (==_iff p i).0 e in
              let one : plan ≡ other = some_injective (sym self ∙ ap (get_elem? news) here ∙ at') in
              subst (IsPriced news) one fresh
          | inr ne ↦
              IsPriced-fall olds news other fall
                (all i other (sym (get_elem?-set_ne olds p i plan (ne_of_test p i ne)) ∙ at'))
        ])
    Outcome-AllPriced dp dp' a b v edge disjoint (added plan is absent m plans map) all =
        let olds = dp.store.plans in
        let fall = CostsFall-append olds plan in
        rw plans (λ i other at. elim (get_elem?-append_cases olds plan i at) [
          | inl old ↦ IsPriced-fall olds (olds ++ plan ∷ []) other fall (all i other old)
          | inr e ↦ subst (IsPriced (olds ++ plan ∷ [])) (sym e) (
              IsPriced-fall olds (olds ++ plan ∷ []) plan fall
                (IsCombined-IsPriced dp a b v plan all disjoint m))
        ])

    module _ (oracle : List FlatPlan → FlatPlan → ℕ) (has_join_edge : BitSet64 → BitSet64 → Bool)
        (by_set : (plans : List FlatPlan) (plan : FlatPlan)
          → oracle plans plan ≡ card plan.covered_relations) where
      Prepared-AllPriced :
          (relations : ℕ) (dp : DpSize)
          → Prepared has_join_edge relations dp
          → AllPriced dp.store.plans
      Prepared-AllPriced relations dp v p plan at =
          let f = v.all_free p plan at in
          let w = v.table.plans_valid p plan at in
          record {
            estimate = f.estimate;
            estimated = f.estimated;
            priced =
                subst (PricedType dp.store.plans plan.covered_relations f.estimate.cost)
                  (sym f.is_base) tt;
            bounded = omega (arith, f.free, size-pos plan.covered_relations w.is_word w.covers);
          }

      pub Steps-AllPriced :
          (relations : ℕ) {start dp : DpSize}
          → Prepared has_join_edge relations start
          → Steps oracle has_join_edge start dp
          → AllPriced dp.store.plans
      Steps-AllPriced relations {start} v stay = Prepared-AllPriced relations start v
      Steps-AllPriced relations v (call {dp' = dp1} {dp'' = dp2} a b rest c) =
          let e = Call-Effect oracle has_join_edge card by_set dp1 dp2 a b c in
          Outcome-AllPriced dp1 dp2 a b e.sides (has_join_edge a b) c.disjoint e.outcome
            (Steps-AllPriced relations v rest)
