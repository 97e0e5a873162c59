-- ===== src/Optimizer/Plans/Valid.antt =====
-- What makes a store of plans valid, and that allocating and overwriting keep it.
use fact_db.Prelude.{
  ne_of_test, ℕ, ◌+◌, ◌%◌, ◌^◌, ◌≡◌, refl, sym, ap, ◌∙◌, inl, inr, Bool, true, false, none, some,
  List, [], ◌∷◌, ◌++◌, get_elem?, set, get_elem?-lt, get_elem?-set_self, get_elem?-set_ne,
  get_elem?-append, get_elem?-append_cases, some_injective, Bool-cases, ◌==◌, ==_iff,
}
use mathlib.Core.Path.{subst}
use fact_db.BitSet.Word.Members.{operators-IsWord}
use fact_db.BitSet.Word.Size.{is_empty-union}
use fact_db.BitSet.Word.{BitSet64, IsWord, from_list, union, is_empty, does_intersect_with}
use fact_db.Optimizer.Plans.{
  Plan, PlanType, base_table, join, JoinMode, Store, Estimator, make_join_estimated,
}

module _ {E : Type 0} where
  -- The pointer points at a plan that covers the set.
  abbrev pub Covers : List (Plan E) → ℕ → BitSet64 → Type 0
  Covers plans p s =
      (plan : Plan E) × (get_elem? plans p ≡ some plan) × (plan.covered_relations ≡ s)

  -- Every pointer keeps the set that it covers.
  abbrev pub Keeps : List (Plan E) → List (Plan E) → Type 0
  Keeps plans plans' = (p : ℕ) (s : BitSet64) → Covers plans p s → Covers plans' p s

  module _ (has_join_edge : BitSet64 → BitSet64 → Bool) where
    -- A join covers the union of two disjoint sets, which its children cover, with a join edge
    -- between them.
    pub record CoversJoin (plans : List (Plan E)) (s : BitSet64) (l r : ℕ) : Type 0 where
      pub left_set : BitSet64
      pub right_set : BitSet64
      pub left_covers : Covers plans l left_set
      pub right_covers : Covers plans r right_set
      pub left_some : is_empty left_set ≡ false
      pub right_some : is_empty right_set ≡ false
      pub disjoint : does_intersect_with left_set right_set ≡ false
      pub has_edge : has_join_edge left_set right_set ≡ true
      pub union_of : s ≡ union left_set right_set

    -- A base table covers its relation alone.
    abbrev pub CoversType : List (Plan E) → BitSet64 → PlanType → Type 0
    CoversType plans s (base_table v) = from_list (v ∷ []) ≡ some s
    CoversType plans s (join l r mode) = CoversJoin plans s l r

    pub record IsPlan (plans : List (Plan E)) (plan : Plan E) : Type 0 where
      pub is_word : IsWord plan.covered_relations
      pub covers : is_empty plan.covered_relations ≡ false
      pub built : CoversType plans plan.covered_relations plan.type
      pub estimated : (e : E) × (plan.estimate ≡ some e)

    abbrev pub AllPlans : List (Plan E) → Type 0
    AllPlans plans = (p : ℕ) (plan : Plan E) → get_elem? plans p ≡ some plan → IsPlan plans plan

module _ {E : Type 0} where
  pub Keeps-append : (plans : List (Plan E)) (plan : Plan E) → Keeps plans (plans ++ plan ∷ [])
  Keeps-append plans plan p s (old, at, covers) =
      (old, get_elem?-append plans (plan ∷ []) p at, covers)

  pub Keeps-set :
      (plans : List (Plan E)) (q : ℕ) (plan : Plan E)
      → Covers plans q plan.covered_relations
      → Keeps plans (set plans q plan)
  Keeps-set plans q plan (before, stands, same) p s (old, at, covers) = elim (Bool-cases (q == p)) [
    | inl e ↦
        let here : q ≡ p = (==_iff q p).0 e in
        let one : before ≡ old = some_injective (sym stands ∙ ap (get_elem? plans) here ∙ at) in
        (
          plan,
          subst (λ i. get_elem? (set plans q plan) i ≡ some plan) here
              (get_elem?-set_self plans q plan (get_elem?-lt plans q stands)),
          sym same ∙ ap (λ (x : Plan E). x.covered_relations) one ∙ covers,
        )
    | inr ne ↦ (old, get_elem?-set_ne plans q p plan (ne_of_test q p ne) ∙ at, covers)
  ]

  abbrev pub joined : ℕ → ℕ → ℕ → JoinMode → BitSet64 → E → Plan E
  joined id l r mode covered e = record {
    plan_id = id;
    type = join l r mode;
    covered_relations = covered;
    estimate = some e;
  }

  module _ (has_join_edge : BitSet64 → BitSet64 → Bool) where
    CoversType-Keeps :
        (plans plans' : List (Plan E))
        → Keeps plans plans'
        → (s : BitSet64) (t : PlanType) → CoversType has_join_edge plans s t
        → CoversType has_join_edge plans' s t
    CoversType-Keeps plans plans' keeps s (base_table r) b = b
    CoversType-Keeps plans plans' keeps s (join l r mode) b = record {
      left_set = b.left_set;
      right_set = b.right_set;
      left_covers = keeps l b.left_set b.left_covers;
      right_covers = keeps r b.right_set b.right_covers;
      left_some = b.left_some;
      right_some = b.right_some;
      disjoint = b.disjoint;
      has_edge = b.has_edge;
      union_of = b.union_of;
    }

    pub IsPlan-Keeps :
        {plans plans' : List (Plan E)} (plan : Plan E)
        → Keeps plans plans'
        → IsPlan has_join_edge plans plan
        → IsPlan has_join_edge plans' plan
    IsPlan-Keeps {plans} {plans'} plan keeps v = record {
      is_word = v.is_word;
      covers = v.covers;
      built = CoversType-Keeps plans plans' keeps plan.covered_relations plan.type v.built;
      estimated = v.estimated;
    }

    -- Appending a plan that is built over the store, and overwriting one by such a plan over the
    -- same set, keep the store valid.
    pub AllPlans-append :
        (plans : List (Plan E)) (plan : Plan E)
        → AllPlans has_join_edge plans
        → IsPlan has_join_edge plans plan
        → AllPlans has_join_edge (plans ++ plan ∷ [])
    AllPlans-append plans plan all v p other at = elim (get_elem?-append_cases plans plan p at) [
      | inl old ↦ IsPlan-Keeps other (Keeps-append plans plan) (all p other old)
      | inr e ↦
          IsPlan-Keeps other (Keeps-append plans plan)
            (subst (λ x. IsPlan has_join_edge plans x) (sym e) v)
    ]

    pub AllPlans-set :
        (plans : List (Plan E)) (q : ℕ) (plan : Plan E)
        → AllPlans has_join_edge plans
        → Covers plans q plan.covered_relations
        → IsPlan has_join_edge plans plan
        → AllPlans has_join_edge (set plans q plan)
    AllPlans-set plans q plan all (before, stands, same) v p other at =
        let keeps = Keeps-set plans q plan (before, stands, same) in
        elim (Bool-cases (q == p)) [
          | inl e ↦
              let here : q ≡ p = (==_iff q p).0 e in
              let one : plan ≡ other = some_injective (
                sym (get_elem?-set_self plans q plan (get_elem?-lt plans q stands))
                ∙ ap (get_elem? (set plans q plan)) here
                ∙ at) in
              IsPlan-Keeps other keeps (subst (λ x. IsPlan has_join_edge plans x) one v)
          | inr ne ↦
              IsPlan-Keeps other keeps
                (all p other (sym (get_elem?-set_ne plans q p plan (ne_of_test q p ne)) ∙ at))
        ]

    -- A join of two valid plans over disjoint sets with an edge between them is valid.
    pub IsPlan-make_join :
        (plans : List (Plan E)) (l r id : ℕ) (mode : JoinMode) (a b : Plan E) (e : E)
        → AllPlans has_join_edge plans
        → get_elem? plans l ≡ some a
        → get_elem? plans r ≡ some b
        → does_intersect_with a.covered_relations b.covered_relations ≡ false
        → has_join_edge a.covered_relations b.covered_relations ≡ true
        → IsPlan has_join_edge plans
            (joined id l r mode (union a.covered_relations b.covered_relations) e)
    IsPlan-make_join plans l r id mode a b e all left right disjoint edge =
        let va = all l a left in
        let vb = all r b right in
        record {
          is_word =
              (operators-IsWord a.covered_relations b.covered_relations va.is_word vb.is_word).0;
          covers = is_empty-union a.covered_relations b.covered_relations va.is_word va.covers;
          built = record {
            left_set = a.covered_relations;
            right_set = b.covered_relations;
            left_covers = (a, left, refl);
            right_covers = (b, right, refl);
            left_some = va.covers;
            right_some = vb.covers;
            disjoint = disjoint;
            has_edge = edge;
            union_of = refl;
          };
          estimated = (e, refl);
        }

    -- Making a join of two such plans succeeds, if the estimator has an estimate for it.
    pub make_join_estimated-IsPlan :
        (estimator : Estimator E) (s : Store E) (l r : ℕ) (mode : JoinMode) (a b : Plan E)
        → AllPlans has_join_edge s.plans
        → get_elem? s.plans l ≡ some a
        → get_elem? s.plans r ≡ some b
        → does_intersect_with a.covered_relations b.covered_relations ≡ false
        → has_join_edge a.covered_relations b.covered_relations ≡ true
        → ((plan : Plan E)
            → plan.type ≡ join l r mode
            → (e : E) × (estimator s.plans plan ≡ some e))
        → (c : ℕ) × (e : E) × (make_join_estimated estimator s l r mode
            ≡ some (
              record s { plan_id_ctr = c },
              joined s.plan_id_ctr l r mode (union a.covered_relations b.covered_relations) e,
            ))
          × IsPlan has_join_edge s.plans
              (joined s.plan_id_ctr l r mode (union a.covered_relations b.covered_relations) e)
    unfolding make_join_estimated
    make_join_estimated-IsPlan estimator s l r mode a b all left right disjoint edge estimates =
        let bare : Plan E = record {
          plan_id = (s.plan_id_ctr + 1) % 2 ^ 64;
          type = join l r mode;
          covered_relations = union a.covered_relations b.covered_relations;
          estimate = none;
        } in
        let (e, estimated) = estimates bare refl in
        (
          ((s.plan_id_ctr + 1) % 2 ^ 64 + 1) % 2 ^ 64,
          e,
          rw left (rw right (rw estimated refl)),
          IsPlan-make_join s.plans l r s.plan_id_ctr mode a b e all left right disjoint edge,
        )
