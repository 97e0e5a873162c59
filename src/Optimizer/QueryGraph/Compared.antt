-- ===== src/Optimizer/QueryGraph/Compared.antt =====
-- The columns that the join conditions compare.
use fact_db.Prelude.{
  ℕ, zero, suc, ◌≡◌, ◌⊎◌, sym, true, some, List, ◌∷◌, get_elem?, some_injective, inl, inr,
}
use mathlib.Core.Path.{subst}
use fact_db.Optimizer.QueryGraph.{is_inner, OptimizerJoin}

-- Both columns stand in the condition of the join.
abbrev pub InCondition : List (List ℕ) → OptimizerJoin → ℕ → ℕ → Type 0
InCondition infos j a b =
    (ius : List ℕ) × (n : ℕ) × (m : ℕ) × (get_elem? infos j.join_id ≡ some ius)
    × (get_elem? ius n ≡ some a)
    × (get_elem? ius m ≡ some b)

-- Both columns stand in the condition of one join, or of one inner join.
abbrev pub Compared : List (List ℕ) → List OptimizerJoin → ℕ → ℕ → Type 0
Compared infos joins a b =
    (k : ℕ) × (j : OptimizerJoin) × (get_elem? joins k ≡ some j) × InCondition infos j a b

abbrev pub InnerCompared : List (List ℕ) → List OptimizerJoin → ℕ → ℕ → Type 0
InnerCompared infos joins a b =
    (k : ℕ) × (j : OptimizerJoin) × (get_elem? joins k ≡ some j)
    × (is_inner j.join_type ≡ true)
    × InCondition infos j a b

pub Compared-cases :
    (infos : List (List ℕ)) (j : OptimizerJoin) (js : List OptimizerJoin) (a b : ℕ)
    → Compared infos (j ∷ js) a b
    → InCondition infos j a b ⊎ Compared infos js a b
Compared-cases infos j js a b (zero, j', g, both) =
    inl (subst (λ q. InCondition infos q a b) (sym (some_injective g)) both)
Compared-cases infos j js a b (suc k, j', g, both) = inr (k, j', g, both)

pub InnerCompared-cases :
    (infos : List (List ℕ)) (j : OptimizerJoin) (js : List OptimizerJoin) (a b : ℕ)
    → InnerCompared infos (j ∷ js) a b
    → (is_inner j.join_type ≡ true) × InCondition infos j a b ⊎ InnerCompared infos js a b
InnerCompared-cases infos j js a b (zero, j', g, t, both) = inl (
    subst (λ (q : OptimizerJoin). (is_inner q.join_type ≡ true) × InCondition infos q a b)
      (sym (some_injective g)) (t, both))
InnerCompared-cases infos j js a b (suc k, j', g, t, both) = inr (k, j', g, t, both)
