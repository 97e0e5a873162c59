-- ===== src/Optimizer/DpSize/Costs.antt =====
-- The costs of the plans in the map only fall, and a call of `createJoin` brings them down to the
-- costs of the join.
use fact_db.Prelude.{
  ne_of_test, ℕ, ◌+◌, ◌≤◌, ◌≡◌, refl, sym, ap, ◌∙◌, inl, inr, Bool, true, none, some, List, [], ◌∷◌,
  ◌++◌, length, set, get_elem?, get_elem?-append, get_elem?-append_last, get_elem?-set_self,
  get_elem?-set_ne, get_elem?-lt, some_injective, Bool-cases, ◌==◌, ==_iff, arith, Option-cases,
}
use fact_db.BitSet.Word.{BitSet64, equal}
use fact_db.Optimizer.DpSize.{FlatPlan, PlanMap, DpSize, cost_of, find, assign}
use fact_db.Optimizer.DpSize.Table.{equal_self}
use fact_db.Optimizer.DpSize.Outcome.{IsCombined, Outcome, skipped, overwritten, added}

-- The plan of the problem costs at most that much.
pub record AtMost (plans : List FlatPlan) (m : PlanMap) (problem : BitSet64) (bound : ℕ)
    : Type 0 where
  pub plan : ℕ
  pub cost : ℕ
  pub found : find m problem ≡ some plan
  pub costs : cost_of plans plan ≡ some cost
  pub within : cost ≤ bound

find-assign_other :
    (m : PlanMap) (key problem : BitSet64) (p q : ℕ)
    → find m key ≡ none
    → find m problem ≡ some p
    → find (assign m key q) problem ≡ some p
unfolding find assign
find-assign_other [] key problem p q absent h = absurd (cc)
find-assign_other ((k, r) ∷ m) key problem p q absent h = elim (Bool-cases (equal k key)) [
  | inl e ↦ let here : find ((k, r) ∷ m) key ≡ some r = rw (find, e) in absurd (cc)
  | inr ne ↦ elim (Bool-cases (equal k problem)) [
    | inl e' ↦ rw (ne, e') (sym (rw e' refl) ∙ h)
    | inr ne' ↦
        rw (ne, ne')
          (find-assign_other m key problem p q (sym (rw ne refl) ∙ absent) (sym (rw ne' refl) ∙ h))
  ]
]

find-assign_self : (m : PlanMap) (key : BitSet64) (q : ℕ) → find (assign m key q) key ≡ some q
unfolding find assign
find-assign_self [] key q = rw (equal_self key)
find-assign_self ((k, r) ∷ m) key q = elim (Bool-cases (equal k key)) [
  | inl e ↦ rw e (rw e refl)
  | inr ne ↦ rw ne (rw ne (find-assign_self m key q))
]

pub cost_of-at :
    (plans : List FlatPlan) (p : ℕ) (plan : FlatPlan) (card : BitSet64 → ℕ) (u : BitSet64)
    (l r x y : ℕ)
    → get_elem? plans p ≡ some plan
    → (v : IsCombined card u l r x y plan) → cost_of plans p ≡ some v.estimate.cost
unfolding cost_of
cost_of-at plans p plan card u l r x y at v = rw at (rw v.estimated refl)

-- A plan with a cost is a plan of the store.
pub cost_of-plan :
    (plans : List FlatPlan) (p c : ℕ)
    → cost_of plans p ≡ some c
    → (plan : FlatPlan) × (get_elem? plans p ≡ some plan)
unfolding cost_of
cost_of-plan plans p c h = elim (Option-cases (get_elem? plans p)) [
  | inl absent ↦ let nothing : cost_of plans p ≡ none = rw (cost_of, absent) in absurd (cc)
  | inr (plan, at) ↦ (plan, at)
]

-- The cost depends on what stands in the place alone.
pub cost_of-same :
    (plans plans' : List FlatPlan) (p : ℕ)
    → get_elem? plans' p ≡ get_elem? plans p
    → cost_of plans' p ≡ cost_of plans p
unfolding cost_of
cost_of-same plans plans' p e = rw e refl

pub cost_of-append :
    (plans : List FlatPlan) (plan : FlatPlan) (p c : ℕ)
    → cost_of plans p ≡ some c
    → cost_of (plans ++ plan ∷ []) p ≡ some c
cost_of-append plans plan p c h =
    let (old, at) = cost_of-plan plans p c h in
    cost_of-same plans (plans ++ plan ∷ []) p (get_elem?-append plans (plan ∷ []) p at ∙ sym at) ∙ h

module _ (card : BitSet64 → ℕ) (dp dp' : DpSize) (u : BitSet64) (l r x y : ℕ) (edge : Bool) where
  pub Outcome-AtMost :
      (problem : BitSet64) (bound : ℕ)
      → Outcome card dp u l r x y edge dp'
      → AtMost dp.store.plans dp.plan_map problem bound
      → AtMost dp'.store.plans dp'.plan_map problem bound
  Outcome-AtMost problem bound (skipped same_plans same_map more) h = rw same_plans (rw same_map h)
  Outcome-AtMost problem bound (overwritten p c plan is found costs v cheaper plans map) h =
      rw plans (
        rw map (elim (Bool-cases (p == h.plan)) [
          | inl e ↦
              let here : p ≡ h.plan = (==_iff p h.plan).0 e in
              let old : c ≡ h.cost =
                some_injective (sym costs ∙ ap (cost_of dp.store.plans) here ∙ h.costs) in
              let (q, at) = cost_of-plan dp.store.plans p c costs in
              record {
                plan = p;
                cost = v.estimate.cost;
                found = h.found ∙ ap some (sym here);
                costs =
                    cost_of-at (set dp.store.plans p plan) p plan card u l r x y
                      (get_elem?-set_self dp.store.plans p plan (get_elem?-lt dp.store.plans p at))
                      v;
                within = omega (arith, old, h.within);
              }
          | inr ne ↦ record {
            plan = h.plan;
            cost = h.cost;
            found = h.found;
            within = h.within;
            costs =
                cost_of-same dp.store.plans (set dp.store.plans p plan) h.plan
                  (get_elem?-set_ne dp.store.plans p h.plan plan (ne_of_test p h.plan ne))
                ∙ h.costs;
          }
        ]))
  Outcome-AtMost problem bound (added plan is absent v plans map) h = rw plans (
      rw map (record {
        plan = h.plan;
        cost = h.cost;
        within = h.within;
        found =
            find-assign_other dp.plan_map u problem h.plan (length dp.store.plans) absent h.found;
        costs = cost_of-append dp.store.plans plan h.plan h.cost h.costs;
      }))

  pub Outcome-joined :
      edge ≡ true
      → Outcome card dp u l r x y edge dp'
      → AtMost dp'.store.plans dp'.plan_map u (card u + x + y)
  Outcome-joined is (skipped same_plans same_map more) =
      let (p, c, found, costs, le) = more is in
      rw same_plans
        (rw same_map (record { plan = p; cost = c; found = found; costs = costs; within = le }))
  Outcome-joined is (overwritten p c plan is' found costs v cheaper plans map) =
      let (q, at) = cost_of-plan dp.store.plans p c costs in
      rw plans (
        rw map (record {
          plan = p;
          cost = v.estimate.cost;
          found = found;
          costs =
              cost_of-at (set dp.store.plans p plan) p plan card u l r x y
                (get_elem?-set_self dp.store.plans p plan (get_elem?-lt dp.store.plans p at)) v;
          within = omega (arith, v.cost);
        }))
  Outcome-joined is (added plan is' absent v plans map) = rw plans (
      rw map (record {
        plan = length dp.store.plans;
        cost = v.estimate.cost;
        found = find-assign_self dp.plan_map u (length dp.store.plans);
        costs =
            cost_of-at (dp.store.plans ++ plan ∷ []) (length dp.store.plans) plan card u l r x y
              (get_elem?-append_last dp.store.plans plan) v;
        within = omega (arith, v.cost);
      }))
