-- ===== src/PushDown/Meaning.antt =====
-- Pushing predicates down keeps what the selection means.
use fact_db.Prelude.{
  ℕ, zero, suc, ◌+◌, ◌<◌, ◌≡◌, refl, ◌∙◌, Bool, true, ◌&&◌, Option, none, some, List, [], ◌∷◌, ◌++◌,
  arith, ◌>>=◌, Bool-cases, inl, inr,
}
use fact_db.PushDown.{
  Expr, term, both, Parts, expr_size, split_loop, conjoin, no_common, place, distribute, push_down,
}

module _ {T : Type 0} where
  -- What an expression says of a tuple, given what its terms say; no predicate is true.
  unfoldable pub eval : (T → Bool) → Expr T → Bool
  eval v (term t) = v t
  eval v (both e f) = eval v e && eval v f

  unfoldable pub eval_opt : (T → Bool) → Option (Expr T) → Bool
  eval_opt v none = true
  eval_opt v (some e) = eval v e

  unfoldable eval_all : (T → Bool) → List (Expr T) → Bool
  eval_all v [] = true
  eval_all v (e ∷ es) = eval v e && eval_all v es

  unfoldable all_hold : (T → Bool) → List T → Bool
  all_hold v [] = true
  all_hold v (t ∷ ts) = v t && all_hold v ts

  unfoldable sizes : List (Expr T) → ℕ
  sizes [] = 0
  sizes (e ∷ es) = expr_size e + sizes es

  all_hold-append :
      (v : T → Bool) (xs ys : List T) → all_hold v (xs ++ ys) ≡ (all_hold v xs && all_hold v ys)
  unfolding all_hold
  all_hold-append v [] ys = refl
  all_hold-append v (x ∷ xs) ys = ground (arith, all_hold-append v xs ys)

  split_loop_lem :
      (fuel : ℕ) (todos : List (Expr T)) (terms : List T)
      → sizes todos < fuel
      → (ts : List T) × (split_loop fuel todos terms ≡ some ts)
        × ((v : T → Bool) → all_hold v ts ≡ (all_hold v terms && eval_all v todos))
  unfolding split_loop sizes eval_all eval all_hold expr_size
  split_loop_lem zero todos terms h = elim h [ ]
  split_loop_lem (suc fuel) [] terms h = (terms, refl, λ v. ground arith)
  split_loop_lem (suc fuel) (term t ∷ todos) terms h =
      let (ts, run, e) = split_loop_lem fuel todos (terms ++ t ∷ []) (omega arith) in
      (ts, run, λ v. ground (arith, e v, all_hold-append v terms (t ∷ [])))
  split_loop_lem (suc fuel) (both e f ∷ todos) terms h =
      let (ts, run, eq) = split_loop_lem fuel (f ∷ e ∷ todos) terms (omega arith) in
      (ts, run, λ v. ground (arith, eq v))

  eval_opt-conjoin :
      (v : T → Bool) (o : Option (Expr T)) (t : T)
      → eval_opt v (conjoin o t) ≡ (eval_opt v o && v t)
  unfolding eval_opt conjoin eval
  eval_opt-conjoin v none t = refl
  eval_opt-conjoin v (some e) t = refl

  abbrev pub eval_parts : (T → Bool) → Parts T → Bool
  eval_parts v parts = eval_opt v parts.left && (eval_opt v parts.right && eval_opt v parts.parent)

  -- The children's predicates use no column of the other child.
  abbrev pub Separate : (T → List ℕ) → List ℕ → List ℕ → Parts T → Type 0
  Separate collect_ius left_ius right_ius parts =
      (eval_opt (λ t. no_common right_ius (collect_ius t)) parts.left ≡ true)
      × (eval_opt (λ t. no_common left_ius (collect_ius t)) parts.right ≡ true)

  place_lem :
      (collect_ius : T → List ℕ) (left_ius right_ius : List ℕ) (parts : Parts T) (t : T)
      → Separate collect_ius left_ius right_ius parts
      → Separate collect_ius left_ius right_ius (place collect_ius left_ius right_ius parts t)
        × ((v : T → Bool)
            → eval_parts v (place collect_ius left_ius right_ius parts t)
              ≡ (eval_parts v parts && v t))
  unfolding place
  place_lem collect_ius left_ius right_ius parts t (l, r) =
      elim (Bool-cases (no_common right_ius (collect_ius t))) [
        | inl e ↦ rw e (
          (
            eval_opt-conjoin (λ x. no_common right_ius (collect_ius x)) parts.left t
                ∙ ground (arith, l, e),
            r,
          ),
          λ v. ground (arith, eval_opt-conjoin v parts.left t),
        )
        | inr e ↦ elim (Bool-cases (no_common left_ius (collect_ius t))) [
          | inl e' ↦
              rw (e, e')
                (
                  (
                    l,
                    eval_opt-conjoin (λ x. no_common left_ius (collect_ius x)) parts.right t
                        ∙ ground (arith, r, e'),
                  ),
                  λ v. ground (arith, eval_opt-conjoin v parts.right t),
                )
          | inr e' ↦ rw (e, e') ((l, r), λ v. ground (arith, eval_opt-conjoin v parts.parent t))
        ]
      ]

  distribute_lem :
      (collect_ius : T → List ℕ) (left_ius right_ius : List ℕ) (parts : Parts T) (terms : List T)
      → Separate collect_ius left_ius right_ius parts
      → Separate collect_ius left_ius right_ius
          (distribute collect_ius left_ius right_ius parts terms)
        × ((v : T → Bool)
            → eval_parts v (distribute collect_ius left_ius right_ius parts terms)
              ≡ (eval_parts v parts && all_hold v terms))
  unfolding distribute all_hold
  distribute_lem collect_ius left_ius right_ius parts [] s = (s, λ v. ground arith)
  distribute_lem collect_ius left_ius right_ius parts (t ∷ terms) s =
      let (s1, e1) = place_lem collect_ius left_ius right_ius parts t s in
      let (s2, e2) =
        distribute_lem collect_ius left_ius right_ius (place collect_ius left_ius right_ius parts t)
          terms s1 in
      (s2, λ v. e2 v ∙ rw (e1 v) (ground arith))

  -- If the two children have no column in common, pushing a predicate down returns; the
  -- predicates for the left child, for the right child and of what stays hold together for a
  -- tuple exactly if the predicate does, the left one uses no column of the right child and the
  -- right one no column of the left child.
  pub push_down_lem :
      (collect_ius : T → List ℕ) (left_ius right_ius : List ℕ) (predicate : Expr T)
      → no_common left_ius right_ius ≡ true
      → (parts : Parts T) × (push_down collect_ius left_ius right_ius predicate ≡ some parts)
        × Separate collect_ius left_ius right_ius parts
        × ((v : T → Bool) → eval_parts v parts ≡ eval v predicate)
  unfolding push_down sizes eval_opt eval_all all_hold
  push_down_lem collect_ius left_ius right_ius predicate apart =
      let (ts, run, split) =
        split_loop_lem (suc (expr_size predicate)) (predicate ∷ []) [] (omega arith) in
      let nothing : Parts T = record { left = none; right = none; parent = none } in
      let (s, e) = distribute_lem collect_ius left_ius right_ius nothing ts (refl, refl) in
      (
        distribute collect_ius left_ius right_ius nothing ts,
        rw (run, ◌>>=◌, apart) refl,
        s,
        λ v. ground (arith, e v, split v),
      )
