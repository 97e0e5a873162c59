-- ===== src/Optimizer/FixedPlan/Shapes.antt =====
-- The shape of a plan, which its text tells, and the text of a shape.
use fact_db.Prelude.{
  ℕ, zero, suc, ◌≤◌, ◌<◌, ◌≡◌, refl, sym, ap, ◌∙◌, Option, none, some, List, [], ◌∷◌, ◌++◌, length,
  get_elem?, get_or, inl, inr, arith, max, length-append, some_injective, ◌⊎◌, Option-cases,
}
use mathlib.Core.Path.{subst}
use fact_db.Timestamp.Text.{decimal}
use fact_db.Optimizer.Plans.{Plan, PlanType, base_table, join, JoinMode}
use fact_db.Optimizer.FixedPlan.{OptimizerRelation, join_mode_string, print}

-- What the text of a plan tells of it: the tables, the joins and their modes.
pub data PlanShape : Type 0 where
  scan : ℕ → PlanShape
  joined : PlanShape → JoinMode → PlanShape → PlanShape

module _ {E : Type 0} where
  unfoldable pub shape_of : ℕ → List (Plan E) → ℕ → Option PlanShape
  shape_of zero plans p = none
  shape_of (suc fuel) plans p = elim (get_elem? plans p) [
    | none ↦ none
    | some plan ↦ elim plan.type [
      | base_table idx ↦ some (scan idx)
      | join left right mode ↦ elim (shape_of fuel plans left) [
        | none ↦ none
        | some l ↦ elim (shape_of fuel plans right) [
          | none ↦ none
          | some r ↦ some (joined l mode r)
        ]
      ]
    ]
  ]

abbrev pub relation_at : List OptimizerRelation → ℕ → OptimizerRelation
relation_at relations idx = get_or relations idx (record { relation = 0; alias = [] })

-- The text of a shape.
unfoldable pub text_of : List OptimizerRelation → PlanShape → List ℕ
text_of relations (scan idx) =
    decimal 10 (relation_at relations idx).relation ++ 32 ∷ (relation_at relations idx).alias
text_of relations (joined l mode r) =
    b'('
    ∷ (text_of relations l
        ++ (b')' ∷ (join_mode_string mode ++ (b'(' ∷ (text_of relations r ++ b')' ∷ [])))))

unfoldable pub depth : PlanShape → ℕ
depth (scan idx) = 0
depth (joined l mode r) = suc (max (depth l) (depth r))

-- Every table of the shape is a relation of the query.
abbrev pub Known : List OptimizerRelation → PlanShape → Type 0
Known relations (scan idx) = idx < length relations
Known relations (joined l mode r) = Known relations l × Known relations r

pub depth-le-text_of :
    (relations : List OptimizerRelation) (t : PlanShape) → depth t ≤ length (text_of relations t)
unfolding depth text_of
depth-le-text_of relations (scan idx) = omega arith
depth-le-text_of relations (joined l mode r) =
    let tail = b'(' ∷ (text_of relations r ++ b')' ∷ []) in
    omega (
      arith,
      depth-le-text_of relations l,
      depth-le-text_of relations r,
      length-append (text_of relations l) (b')' ∷ (join_mode_string mode ++ tail)),
      length-append (join_mode_string mode) tail,
      length-append (text_of relations r) (b')' ∷ []),
    )

pub relation_at-get :
    (relations : List OptimizerRelation) (idx : ℕ)
    → idx < length relations
    → get_elem? relations idx ≡ some (relation_at relations idx)
relation_at-get [] idx h = elim h [ ]
relation_at-get (x ∷ xs) zero h = refl
relation_at-get (x ∷ xs) (suc idx) h = relation_at-get xs idx (omega arith)

module _ {E : Type 0} where
  -- What a shape tells of the plan behind the pointer.
  record IsScan (plans : List (Plan E)) (p : ℕ) (t : PlanShape) : Type 0 where
    plan : Plan E
    at : get_elem? plans p ≡ some plan
    idx : ℕ
    is_base : plan.type ≡ base_table idx
    shape : t ≡ scan idx

  record IsJoined (fuel : ℕ) (plans : List (Plan E)) (p : ℕ) (t : PlanShape) : Type 0 where
    plan : Plan E
    at : get_elem? plans p ≡ some plan
    left : ℕ
    right : ℕ
    mode : JoinMode
    is_join : plan.type ≡ join left right mode
    l : PlanShape
    r : PlanShape
    left_shape : shape_of fuel plans left ≡ some l
    right_shape : shape_of fuel plans right ≡ some r
    shape : t ≡ joined l mode r

  pub shape_base :
      (fuel : ℕ) (plans : List (Plan E)) (p : ℕ) (plan : Plan E) (idx : ℕ)
      → get_elem? plans p ≡ some plan
      → plan.type ≡ base_table idx
      → shape_of (suc fuel) plans p ≡ some (scan idx)
  unfolding shape_of
  shape_base fuel plans p plan idx at is = rw (shape_of, at, is)

  pub shape_join :
      (fuel : ℕ) (plans : List (Plan E)) (p : ℕ) (plan : Plan E) (left right : ℕ) (mode : JoinMode)
      (l r : PlanShape)
      → get_elem? plans p ≡ some plan
      → plan.type ≡ join left right mode
      → shape_of fuel plans left ≡ some l
      → shape_of fuel plans right ≡ some r
      → shape_of (suc fuel) plans p ≡ some (joined l mode r)
  unfolding shape_of
  shape_join fuel plans p plan left right mode l r at is e e' = rw (shape_of, at, is, e, e')

  shape_of_type :
      (fuel : ℕ) (plans : List (Plan E)) (p : ℕ) (t : PlanShape) (plan : Plan E) (type : PlanType)
      → get_elem? plans p ≡ some plan
      → plan.type ≡ type
      → shape_of (suc fuel) plans p ≡ some t
      → IsScan plans p t ⊎ IsJoined fuel plans p t
  unfolding shape_of
  shape_of_type fuel plans p t plan (base_table idx) at is h = inl (record {
    plan = plan;
    at = at;
    idx = idx;
    is_base = is;
    shape = some_injective (sym h ∙ shape_base fuel plans p plan idx at is);
  })
  shape_of_type fuel plans p t plan (join left right mode) at is h =
      elim (Option-cases (shape_of fuel plans left)) [
        | inl e ↦
            let nothing : shape_of (suc fuel) plans p ≡ none = rw (shape_of, at, is, e) in
            absurd (cc)
        | inr (l, e) ↦ elim (Option-cases (shape_of fuel plans right)) [
          | inl e' ↦
              let nothing : shape_of (suc fuel) plans p ≡ none = rw (shape_of, at, is, e, e') in
              absurd (cc)
          | inr (r, e') ↦ inr (record {
            plan = plan;
            at = at;
            left = left;
            right = right;
            mode = mode;
            is_join = is;
            l = l;
            r = r;
            left_shape = e;
            right_shape = e';
            shape =
                some_injective
                  (sym h ∙ shape_join fuel plans p plan left right mode l r at is e e');
          })
        ]
      ]

  shape_of_cases :
      (fuel : ℕ) (plans : List (Plan E)) (p : ℕ) (t : PlanShape)
      → shape_of (suc fuel) plans p ≡ some t
      → IsScan plans p t ⊎ IsJoined fuel plans p t
  unfolding shape_of
  shape_of_cases fuel plans p t h = elim (Option-cases (get_elem? plans p)) [
    | inl e ↦ let nothing : shape_of (suc fuel) plans p ≡ none = rw (shape_of, e) in absurd (cc)
    | inr (plan, e) ↦ shape_of_type fuel plans p t plan plan.type e refl h
  ]

  pub print-text_of :
      (relations : List OptimizerRelation) (fuel : ℕ) (plans : List (Plan E)) (p : ℕ)
      (t : PlanShape)
      → shape_of fuel plans p ≡ some t
      → Known relations t
      → print fuel relations plans p ≡ some (text_of relations t)
  unfolding print shape_of text_of
  print-text_of relations zero plans p t h known = absurd (cc)
  print-text_of relations (suc fuel) plans p t h known = elim (shape_of_cases fuel plans p t h) [
    | inl c ↦
        subst
          (λ x. Known relations x → print (suc fuel) relations plans p ≡ some (text_of relations x))
          (sym c.shape) (λ k. rw (print, c.at, c.is_base, relation_at-get relations c.idx k)) known
    | inr c ↦
        subst
          (λ x. Known relations x → print (suc fuel) relations plans p ≡ some (text_of relations x))
          (sym c.shape)
          (λ k. rw (
            print,
            c.at,
            c.is_join,
            print-text_of relations fuel plans c.left c.l c.left_shape k.0,
            print-text_of relations fuel plans c.right c.r c.right_shape k.1,
          ))
          known
  ]

  pub depth-lt-fuel :
      (fuel : ℕ) (plans : List (Plan E)) (p : ℕ) (t : PlanShape)
      → shape_of fuel plans p ≡ some t
      → depth t < fuel
  unfolding shape_of depth
  depth-lt-fuel zero plans p t h = absurd (cc)
  depth-lt-fuel (suc fuel) plans p t h = elim (shape_of_cases fuel plans p t h) [
    | inl c ↦ rw c.shape (omega arith)
    | inr c ↦
        let l = depth-lt-fuel fuel plans c.left c.l c.left_shape in
        let r = depth-lt-fuel fuel plans c.right c.r c.right_shape in rw c.shape (omega arith)
  ]

  -- Every plan stays where it is.
  abbrev pub Preserves : List (Plan E) → List (Plan E) → Type 0
  Preserves plans plans' =
      (p : ℕ) (plan : Plan E) → get_elem? plans p ≡ some plan → get_elem? plans' p ≡ some plan

  pub shape_of-Preserves :
      (fuel : ℕ) (plans plans' : List (Plan E)) (p : ℕ) (t : PlanShape)
      → Preserves plans plans'
      → shape_of fuel plans p ≡ some t
      → shape_of fuel plans' p ≡ some t
  unfolding shape_of
  shape_of-Preserves zero plans plans' p t keeps h = absurd (cc)
  shape_of-Preserves (suc fuel) plans plans' p t keeps h = elim (shape_of_cases fuel plans p t h) [
    | inl c ↦
        shape_base fuel plans' p c.plan c.idx (keeps p c.plan c.at) c.is_base
        ∙ ap some (sym c.shape)
    | inr c ↦
        shape_join fuel plans' p c.plan c.left c.right c.mode c.l c.r (keeps p c.plan c.at)
          c.is_join (shape_of-Preserves fuel plans plans' c.left c.l keeps c.left_shape)
          (shape_of-Preserves fuel plans plans' c.right c.r keeps c.right_shape)
        ∙ ap some (sym c.shape)
  ]

  pub shape_of-get_elem? :
      (fuel : ℕ) (plans : List (Plan E)) (p : ℕ) (t : PlanShape)
      → shape_of fuel plans p ≡ some t
      → (plan : Plan E) × (get_elem? plans p ≡ some plan)
  unfolding shape_of
  shape_of-get_elem? zero plans p t h = absurd (cc)
  shape_of-get_elem? (suc fuel) plans p t h = elim (shape_of_cases fuel plans p t h) [
    | inl c ↦ (c.plan, c.at)
    | inr c ↦ (c.plan, c.at)
  ]
