-- ===== src/Optimizer/DpSize/Valid.antt =====
-- The table of `DPSize` is valid after every step: a problem's plan covers the problem.
use fact_db.Prelude.{
  ℕ, ◌+◌, ◌%◌, ◌^◌, ◌≡◌, refl, inl, inr, Bool, true, false, Option, none, some, List, [], ◌∷◌, ◌++◌,
  length, get_elem?, All, Bool-cases, get_elem?-append_last, ltb,
}
use fact_db.BitSet.Word.{BitSet64, union, does_intersect_with}
use fact_db.Optimizer.Plans.{
  join, JoinMode, top_insert, make_join_estimated, store_plan, overwrite_plan, has_join_edge_with,
}
use fact_db.Optimizer.Plans.Valid.{
  Covers, Keeps, IsPlan, AllPlans, Keeps-append, Keeps-set, AllPlans-append, AllPlans-set,
  make_join_estimated-IsPlan, joined,
}
use fact_db.Optimizer.DpSize.{
  FlatEstimate, FlatPlan, DpSize, cost_of, replace_if_cheaper, join_problems, flat_estimator,
}

abbrev pub Entry : List FlatPlan → BitSet64 × ℕ → Type 0
Entry plans (problem, p) = Covers plans p problem

abbrev pub CoversAny : List FlatPlan → BitSet64 → Option ℕ → Type 0
CoversAny plans problem none = Unit {0}
CoversAny plans problem (some p) = Covers plans p problem

module _ (has_join_edge : BitSet64 → BitSet64 → Bool) where
  -- Every plan is built as it should be, and the map points at plans over their problems.
  pub record IsTable (dp : DpSize) : Type 0 where
    pub plans_valid : AllPlans has_join_edge dp.store.plans
    pub map_covers : All (Entry dp.store.plans) dp.plan_map

  pub cost_of-Covers :
      (plans : List FlatPlan) (p : ℕ) (s : BitSet64)
      → AllPlans has_join_edge plans
      → Covers plans p s
      → (c : ℕ) × (cost_of plans p ≡ some c)
  unfolding cost_of
  cost_of-Covers plans p s all (plan, at, covers) =
      let (e, estimated) = (all p plan at).estimated in (e.cost, rw at (rw estimated refl))

  -- What choosing a plan for a problem leaves: a valid store in which every pointer keeps what it
  -- covers, the old map, and a plan over the problem, if any.
  pub record Chosen (dp : DpSize) (problem : BitSet64) (dp' : DpSize) (better : Option ℕ)
      : Type 0 where
    pub plans_valid : AllPlans has_join_edge dp'.store.plans
    pub keeps : Keeps dp.store.plans dp'.store.plans
    pub same_map : dp'.plan_map ≡ dp.plan_map
    pub better_covers : CoversAny dp'.store.plans problem better

  pub Chosen-same :
      (dp : DpSize) (problem : BitSet64) (alternative : Option ℕ)
      → AllPlans has_join_edge dp.store.plans
      → CoversAny dp.store.plans problem alternative
      → Chosen dp problem dp alternative
  Chosen-same dp problem alternative all covers = record {
    plans_valid = all;
    keeps = λ p s c. c;
    same_map = refl;
    better_covers = covers;
  }

  replace_if_cheaper-Chosen :
      (dp : DpSize) (combined : FlatPlan) (p : ℕ)
      → IsPlan has_join_edge dp.store.plans combined
      → AllPlans has_join_edge dp.store.plans
      → Covers dp.store.plans p combined.covered_relations
      → (dp' : DpSize) × (better : Option ℕ) × (replace_if_cheaper dp combined p
          ≡ some (dp', better))
        × Chosen dp combined.covered_relations dp' better
  unfolding replace_if_cheaper overwrite_plan
  replace_if_cheaper-Chosen dp combined p v all covers =
      let (e, estimated) = v.estimated in
      let (c, cost) = cost_of-Covers dp.store.plans p combined.covered_relations all covers in
      elim (Bool-cases (ltb e.cost c)) [
        | inl cheaper ↦ (
          record dp { store = overwrite_plan dp.store p combined },
          some p,
          rw estimated (rw cost (rw cheaper refl)),
          record {
            plans_valid = AllPlans-set has_join_edge dp.store.plans p combined all covers v;
            keeps = Keeps-set dp.store.plans p combined covers;
            same_map = refl;
            better_covers =
                Keeps-set dp.store.plans p combined covers p combined.covered_relations covers;
          },
        )
        | inr dearer ↦ (
          dp,
          some p,
          rw estimated (rw cost (rw dearer refl)),
          Chosen-same dp combined.covered_relations (some p) all covers,
        )
      ]

module _ (oracle : List FlatPlan → FlatPlan → ℕ) (has_join_edge : BitSet64 → BitSet64 → Bool) where
  flat_estimator-join :
      (plans : List FlatPlan) (plan : FlatPlan) (l r : ℕ) (mode : JoinMode) (a b : BitSet64)
      → AllPlans has_join_edge plans
      → Covers plans l a
      → Covers plans r b
      → plan.type ≡ join l r mode
      → (e : FlatEstimate) × (flat_estimator oracle plans plan ≡ some e)
  unfolding flat_estimator
  flat_estimator-join plans plan l r mode a b all left right is_join =
      let (c, left_cost) = cost_of-Covers has_join_edge plans l a all left in
      let (d, right_cost) = cost_of-Covers has_join_edge plans r b all right in
      (
        record { cardinality = oracle plans plan; cost = (oracle plans plan + c + d) % 2 ^ 64 },
        rw is_join (rw left_cost (rw right_cost refl)),
      )

  module _ (dp : DpSize) (l r : ℕ) (a b : FlatPlan) (all : AllPlans has_join_edge dp.store.plans)
      (left : get_elem? dp.store.plans l ≡ some a) (right : get_elem? dp.store.plans r ≡ some b)
      (disjoint : does_intersect_with a.covered_relations b.covered_relations ≡ false) where
    abbrev goal_set : BitSet64
    goal_set = union a.covered_relations b.covered_relations

    -- With an edge, the combined plan is stored, or weighed against the alternative.
    stored-Chosen :
        (c : ℕ) (e : FlatEstimate) (alternative : Option ℕ)
        → CoversAny dp.store.plans goal_set alternative
        → has_join_edge a.covered_relations b.covered_relations ≡ true
        → make_join_estimated (flat_estimator oracle) dp.store l r top_insert
          ≡ some (
            record (dp.store) { plan_id_ctr = c },
            joined dp.store.plan_id_ctr l r top_insert goal_set e,
          )
        → IsPlan has_join_edge dp.store.plans
            (joined dp.store.plan_id_ctr l r top_insert goal_set e)
        → (dp' : DpSize) × (better : Option ℕ) × (join_problems oracle has_join_edge dp l r
              alternative
            ≡ some (dp', better))
          × Chosen has_join_edge dp goal_set dp' better
    unfolding join_problems has_join_edge_with store_plan
    stored-Chosen c e none covers edge made v =
        let combined : FlatPlan = joined dp.store.plan_id_ctr l r top_insert goal_set e in
        (
          record dp {
            store = record {
              plans = dp.store.plans ++ combined ∷ [];
              plan_id_ctr = (c + 1) % 2 ^ 64;
            };
          },
          some (length dp.store.plans),
          rw left (rw right (rw edge (rw made refl))),
          record {
            plans_valid = AllPlans-append has_join_edge dp.store.plans combined all v;
            keeps = Keeps-append dp.store.plans combined;
            same_map = refl;
            better_covers = (combined, get_elem?-append_last dp.store.plans combined, refl);
          },
        )
    stored-Chosen c e (some p) covers edge made v =
        let combined : FlatPlan = joined dp.store.plan_id_ctr l r top_insert goal_set e in
        let counted : DpSize = record dp { store = record (dp.store) { plan_id_ctr = c } } in
        let (dp', better, replaced, chosen) =
          replace_if_cheaper-Chosen has_join_edge counted combined p v all covers in
        (
          dp',
          better,
          rw left (rw right (rw edge (rw made replaced))),
          record {
            plans_valid = chosen.plans_valid;
            keeps = chosen.keeps;
            same_map = chosen.same_map;
            better_covers = chosen.better_covers;
          },
        )

    pub join_problems-Chosen :
        (alternative : Option ℕ)
        → CoversAny dp.store.plans goal_set alternative
        → (dp' : DpSize) × (better : Option ℕ) × (join_problems oracle has_join_edge dp l r
              alternative
            ≡ some (dp', better))
          × Chosen has_join_edge dp goal_set dp' better
    unfolding join_problems has_join_edge_with
    join_problems-Chosen alternative covers =
        elim (Bool-cases (has_join_edge a.covered_relations b.covered_relations)) [
          | inr apart ↦ (
            dp,
            alternative,
            rw left (rw right (rw apart refl)),
            Chosen-same has_join_edge dp goal_set alternative all covers,
          )
          | inl edge ↦
              let (c, e, made, v) =
                make_join_estimated-IsPlan has_join_edge (flat_estimator oracle) dp.store l r
                  top_insert a b all left right disjoint edge
                  (λ p t.
                    flat_estimator-join dp.store.plans p l r top_insert a.covered_relations
                      b.covered_relations all (a, left, refl) (b, right, refl) t) in
              stored-Chosen c e alternative covers edge made v
        ]
