-- ===== src/Optimizer/QueryGraph/Aliases.antt =====
-- The numbers that `prepareForOptimization` gives to the aliases of the relations.
use fact_db.Prelude.{
  ℕ, zero, suc, ◌+◌, ◌<◌, ◌≡◌, ◌≢◌, ◌↔◌, ◌⊎◌, refl, sym, ◌∙◌, ap, true, false, ℕ_discrete, some,
  List, [], ◌∷◌, arith, ◌==◌, length, get_elem?, some_injective, Bool-cases, inl, inr,
}
use mathlib.Core.Path.{subst}
use fact_db.UnionFind.Values.{lookup}
use fact_db.Optimizer.QueryGraph.{OptimizerRelation}
use fact_db.Optimizer.QueryGraph.Classes.{number_aliases}

-- The map gives numbers below `bound`.
abbrev pub Bounded : List (ℕ × ℕ) → ℕ → Type 0
Bounded ids bound = (v id : ℕ) → lookup ids v ≡ some id → id < bound

pub number_aliases-Bounded :
    (ids : List (ℕ × ℕ)) (idx : ℕ) (rs : List OptimizerRelation)
    → Bounded ids idx
    → Bounded (number_aliases ids idx rs) (idx + length rs)
unfolding number_aliases lookup
number_aliases-Bounded ids idx [] b v id h = omega (arith, b v id h)
number_aliases-Bounded ids idx (r ∷ rs) b v id h = omega (
  arith,
  number_aliases-Bounded ((r.alias, idx) ∷ ids) (idx + 1) rs
      (λ w i g. elim (Bool-cases (r.alias == w)) [
        | inl e ↦ ground arith
        | inr e ↦ ground (arith, b w i (ground arith))
      ])
      v id h,
)

-- The map knows the alias of every relation.
number_aliases-known :
    (ids : List (ℕ × ℕ)) (idx : ℕ) (rs : List OptimizerRelation) (v id : ℕ)
    → lookup ids v ≡ some id
    → (id' : ℕ) × (lookup (number_aliases ids idx rs) v ≡ some id')
unfolding number_aliases lookup
number_aliases-known ids idx [] v id h = (id, h)
number_aliases-known ids idx (r ∷ rs) v id h = elim (Bool-cases (r.alias == v)) [
  | inl e ↦ number_aliases-known ((r.alias, idx) ∷ ids) (idx + 1) rs v idx (rw e refl)
  | inr e ↦ number_aliases-known ((r.alias, idx) ∷ ids) (idx + 1) rs v id (rw e h)
]

pub number_aliases-alias :
    (ids : List (ℕ × ℕ)) (idx k : ℕ) (rs : List OptimizerRelation) (r : OptimizerRelation)
    → get_elem? rs k ≡ some r
    → (id : ℕ) × (lookup (number_aliases ids idx rs) r.alias ≡ some id)
unfolding number_aliases lookup
number_aliases-alias ids idx k [] r h = absurd (cc)
number_aliases-alias ids idx zero (q ∷ rs) r h =
    let same : q.alias ≡ r.alias = ap (λ (x : OptimizerRelation). x.alias) (some_injective h) in
    number_aliases-known ((q.alias, idx) ∷ ids) (idx + 1) rs r.alias idx (ground arith)
number_aliases-alias ids idx (suc k) (q ∷ rs) r h =
    number_aliases-alias ((q.alias, idx) ∷ ids) (idx + 1) k rs r h

-- `k` is the last index of a relation with the alias `v`.
abbrev pub IsLast : List OptimizerRelation → ℕ → ℕ → Type 0
IsLast rs v k =
    (r : OptimizerRelation) × (get_elem? rs k ≡ some r)
    × (r.alias ≡ v)
    × ((k' : ℕ) (r' : OptimizerRelation) → k < k' → get_elem? rs k' ≡ some r' → r'.alias ≢ v)

abbrev Unused : List OptimizerRelation → ℕ → Type 0
Unused rs v = (k : ℕ) (r : OptimizerRelation) → get_elem? rs k ≡ some r → r.alias ≢ v

IsLast-later :
    (q : OptimizerRelation) (rs : List OptimizerRelation) (v k : ℕ)
    → IsLast rs v k
    → IsLast (q ∷ rs) v (suc k)
IsLast-later q rs v k (r, g, same, later) = (r, g, same, beyond)
  where
    beyond :
        (k' : ℕ) (r' : OptimizerRelation)
        → suc k < k'
        → get_elem? (q ∷ rs) k' ≡ some r'
        → r'.alias ≢ v
    beyond zero r' lt h = absurd (omega arith)
    beyond (suc l) r' lt h = later l r' (omega arith) h

IsLast-first :
    (q : OptimizerRelation) (rs : List OptimizerRelation) (v : ℕ)
    → Unused rs v
    → q.alias ≡ v
    → IsLast (q ∷ rs) v 0
IsLast-first q rs v unused same = (q, refl, same, beyond)
  where
    beyond :
        (k' : ℕ) (r' : OptimizerRelation) → 0 < k' → get_elem? (q ∷ rs) k' ≡ some r' → r'.alias ≢ v
    beyond zero r' lt h = absurd (omega arith)
    beyond (suc l) r' lt h = unused l r' h

Unused-cons :
    (q : OptimizerRelation) (rs : List OptimizerRelation) (v : ℕ)
    → Unused rs v
    → q.alias ≢ v
    → Unused (q ∷ rs) v
Unused-cons q rs v unused ne zero r h =
    λ same. ne (ap (λ (x : OptimizerRelation). x.alias) (some_injective h) ∙ same)
Unused-cons q rs v unused ne (suc k) r h = unused k r h

IsLast-cases : (rs : List OptimizerRelation) (v : ℕ) → Unused rs v ⊎ ((k : ℕ) × IsLast rs v k)
IsLast-cases [] v = inl (λ k r h. absurd (cc))
IsLast-cases (q ∷ rs) v = elim (IsLast-cases rs v) [
  | inr (k, last) ↦ inr (suc k, IsLast-later q rs v k last)
  | inl unused ↦ elim (ℕ_discrete q.alias v) [
    | yes same ↦ inr (0, IsLast-first q rs v unused same)
    | no ne ↦ inl (Unused-cons q rs v unused ne)
  ]
]

lookup-Unused :
    (ids : List (ℕ × ℕ)) (idx : ℕ) (rs : List OptimizerRelation) (v : ℕ)
    → Unused rs v
    → lookup (number_aliases ids idx rs) v ≡ lookup ids v
unfolding number_aliases lookup
lookup-Unused ids idx [] v unused = refl
lookup-Unused ids idx (r ∷ rs) v unused =
    let other : (r.alias == v) ≡ false = ground (arith, unused 0 r refl) in
    lookup-Unused ((r.alias, idx) ∷ ids) (idx + 1) rs v (λ k. unused (suc k)) ∙ rw other refl

lookup-IsLast :
    (ids : List (ℕ × ℕ)) (idx : ℕ) (rs : List OptimizerRelation) (v k : ℕ)
    → IsLast rs v k
    → lookup (number_aliases ids idx rs) v ≡ some (idx + k)
unfolding number_aliases lookup
lookup-IsLast ids idx [] v k (r, g, same, later) = absurd (cc)
lookup-IsLast ids idx (q ∷ rs) v zero (r, g, same, later) =
    let here : (q.alias == v) ≡ true =
      ground (arith, ap (λ (x : OptimizerRelation). x.alias) (some_injective g), same) in
    lookup-Unused ((q.alias, idx) ∷ ids) (idx + 1) rs v (λ k r'. later (suc k) r' (omega arith))
    ∙ rw here (ap some (omega arith))
lookup-IsLast ids idx (q ∷ rs) v (suc k) (r, g, same, later) =
    lookup-IsLast ((q.alias, idx) ∷ ids) (idx + 1) rs v k
      (r, g, same, λ k' r' lt. later (suc k') r' (omega arith))
    ∙ ap some (omega arith)

-- From an empty map, the number of an alias is the last index of a relation with this alias.
pub number_aliases-IsLast :
    (rs : List OptimizerRelation) (v k : ℕ)
    → lookup (number_aliases [] 0 rs) v ≡ some k ↔ IsLast rs v k
unfolding lookup
number_aliases-IsLast rs v k = (
  λ h. elim (IsLast-cases rs v) [
    | inl unused ↦ absurd (ground (arith, lookup-Unused [] 0 rs v unused))
    | inr (l, last) ↦
        let number : 0 + l ≡ k = some_injective (sym (lookup-IsLast [] 0 rs v l last) ∙ h) in
        let same : l ≡ k = omega arith in subst (IsLast rs v) same last
  ],
  λ last. lookup-IsLast [] 0 rs v k last ∙ ap some (omega arith),
)
