-- ===== src/PushDown.antt =====
-- `pushDownBinaryOperator` of factDB/opt/PredicatePushDown.cpp, as far as the predicates go: the
-- selection above a join is split at the conjunctions and its terms are distributed to the left
-- child, the right child and what stays. Terms are a parameter, with the columns they use. `none` is
-- the failed assertion that the two children share no column.
pub mod Meaning
use fact_db.Prelude.{
  ℕ, zero, suc, ◌+◌, Bool, true, false, not, ◌&&◌, Option, none, some, List, [], ◌∷◌, ◌++◌, ◌==◌,
  if◌then◌else◌, ◌>>=◌, length,
}
use fact_db.IuSet.{intersect}

pub data Expr (T : Type 0) : Type 0 where
  term : T → Expr T
  both : Expr T → Expr T → Expr T

-- The predicates that are built; `none` is the null pointer.
pub record Parts (T : Type 0) : Type 0 where
  pub left : Option (Expr T)
  pub right : Option (Expr T)
  pub parent : Option (Expr T)

-- `ius.intersect(requiredIUs).empty()`
unfoldable pub no_common : List ℕ → List ℕ → Bool
no_common ius required = length (intersect ius required) == 0

module _ {T : Type 0} where
  unfoldable pub expr_size : Expr T → ℕ
  expr_size (term t) = 1
  expr_size (both e f) = suc (expr_size e + expr_size f)

  -- The loop over the expressions still to do, the back of the list first.
  unfoldable pub split_loop : ℕ → List (Expr T) → List T → Option (List T)
  split_loop zero todos terms = none
  split_loop (suc fuel) [] terms = some terms
  split_loop (suc fuel) (term t ∷ todos) terms = split_loop fuel todos (terms ++ t ∷ [])
  split_loop (suc fuel) (both e f ∷ todos) terms = split_loop fuel (f ∷ e ∷ todos) terms

  unfoldable pub conjoin : Option (Expr T) → T → Option (Expr T)
  conjoin none t = some (term t)
  conjoin (some e) t = some (both e (term t))

  unfoldable pub place : (T → List ℕ) → List ℕ → List ℕ → Parts T → T → Parts T
  unfolding conjoin no_common
  place collect_ius left_ius right_ius parts t =
      if no_common right_ius (collect_ius t)
      then record parts { left = conjoin parts.left t }
      else if no_common left_ius (collect_ius t)
      then record parts { right = conjoin parts.right t }
      else record parts { parent = conjoin parts.parent t }

  unfoldable pub distribute : (T → List ℕ) → List ℕ → List ℕ → Parts T → List T → Parts T
  unfolding place
  distribute collect_ius left_ius right_ius parts [] = parts
  distribute collect_ius left_ius right_ius parts (t ∷ terms) =
      distribute collect_ius left_ius right_ius (place collect_ius left_ius right_ius parts t) terms

  -- The new predicates for a selection's predicate.
  unfoldable pub push_down : (T → List ℕ) → List ℕ → List ℕ → Expr T → Option (Parts T)
  push_down collect_ius left_ius right_ius predicate =
      split_loop (suc (expr_size predicate)) (predicate ∷ []) [] >>= λ terms.
      if no_common left_ius right_ius
      then some (
          distribute collect_ius left_ius right_ius
            (record { left = none; right = none; parent = none }) terms)
      else none
