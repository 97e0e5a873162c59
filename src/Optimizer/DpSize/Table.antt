-- ===== src/Optimizer/DpSize/Table.antt =====
-- The map of `DPSize` from the problems to their plans.
use fact_db.Prelude.{
  ℕ, ◌≡◌, refl, sym, ap, ◌∙◌, ◌⊎◌, inl, inr, true, none, some, suc, length, [], ◌∷◌, All,
  some_injective, Bool-cases, ==_iff, arith,
}
use mathlib.Core.Path.{subst}
use fact_db.BitSet.Word.{BitSet64, equal}
use fact_db.Optimizer.DpSize.{PlanMap, find, assign}

equal_to : (a b : BitSet64) → equal a b ≡ true → a ≡ b
unfolding equal
equal_to a b h = let e : a.set ≡ b.set = (==_iff a.set b.set).0 h in ap (λ n. record { set = n }) e

pub equal_self : (a : BitSet64) → equal a a ≡ true
unfolding equal
equal_self a = ground arith

-- The problem has a plan.
abbrev pub Known : PlanMap → BitSet64 → Type 0
Known m problem = (p : ℕ) × (find m problem ≡ some p)

pub All-find :
    (P : BitSet64 × ℕ → Type 0) (m : PlanMap) (key : BitSet64) (p : ℕ)
    → All P m
    → find m key ≡ some p
    → P (key, p)
unfolding find
All-find P [] key p all h = absurd (cc)
All-find P ((k, q) ∷ m) key p (here, rest) h = elim (Bool-cases (equal k key)) [
  | inl e ↦
      let one : q ≡ p = some_injective (sym (rw e refl) ∙ h) in
      subst (λ x. P (key, x)) one (subst (λ x. P (x, q)) (equal_to k key e) here)
  | inr ne ↦ All-find P m key p rest (sym (rw ne refl) ∙ h)
]

pub All-assign :
    (P : BitSet64 × ℕ → Type 0) (m : PlanMap) (key : BitSet64) (p : ℕ)
    → All P m
    → P (key, p)
    → All P (assign m key p)
unfolding assign
All-assign P [] key p all h = (h, tt)
All-assign P ((k, q) ∷ m) key p (here, rest) h = elim (Bool-cases (equal k key)) [
  | inl e ↦ rw e (subst (λ x. P (x, p)) (sym (equal_to k key e)) h, rest)
  | inr ne ↦ rw ne (here, All-assign P m key p rest h)
]

pub Known-assign :
    (m : PlanMap) (key problem : BitSet64) (p : ℕ)
    → Known m problem
    → Known (assign m key p) problem
unfolding assign find
Known-assign [] key problem p (q, h) = absurd (cc)
Known-assign ((k, r) ∷ m) key problem p (q, h) = elim (Bool-cases (equal k problem)) [
  | inl e ↦ elim (Bool-cases (equal k key)) [
    | inl e' ↦ rw e' (rw e (p, refl))
    | inr ne' ↦ rw ne' (rw e (r, refl))
  ]
  | inr ne ↦
      let rest = Known-assign m key problem p (q, sym (rw ne refl) ∙ h) in
      elim (Bool-cases (equal k key)) [
        | inl e' ↦ rw e' (rw ne (q, sym (rw ne refl) ∙ h))
        | inr ne' ↦ rw ne' (rw ne rest)
      ]
]

pub Known-assign_self : (m : PlanMap) (key : BitSet64) (p : ℕ) → Known (assign m key p) key
unfolding assign find
Known-assign_self [] key p = rw (equal_self key) (p, refl)
Known-assign_self ((k, q) ∷ m) key p = elim (Bool-cases (equal k key)) [
  | inl e ↦ rw e (rw e (p, refl))
  | inr ne ↦ rw ne (rw ne (Known-assign_self m key p))
]

-- A problem with a plan had one before, or is the one that has been given one.
pub Known-of_assign :
    (m : PlanMap) (key problem : BitSet64) (p : ℕ)
    → Known (assign m key p) problem
    → Known m problem ⊎ (problem ≡ key)
unfolding assign find
Known-of_assign [] key problem p (q, h) = elim (Bool-cases (equal key problem)) [
  | inl e ↦ inr (sym (equal_to key problem e))
  | inr ne ↦ let nothing : find ((key, p) ∷ []) problem ≡ none = rw (find, ne) in absurd (cc)
]
Known-of_assign ((k, r) ∷ m) key problem p (q, h) = elim (Bool-cases (equal k problem)) [
  | inl e ↦ inl (rw e (r, refl))
  | inr ne ↦ elim (Bool-cases (equal k key)) [
    | inl e' ↦ inl (rw ne (q, sym (rw (e', find, ne)) ∙ h))
    | inr ne' ↦ rw ne (Known-of_assign m key problem p (q, sym (rw (ne', find, ne)) ∙ h))
  ]
]

pub length-assign_absent :
    (m : PlanMap) (key : BitSet64) (p : ℕ)
    → find m key ≡ none
    → length (assign m key p) ≡ suc (length m)
unfolding assign find
length-assign_absent [] key p h = refl
length-assign_absent ((k, r) ∷ m) key p h = elim (Bool-cases (equal k key)) [
  | inl e ↦ let found : find ((k, r) ∷ m) key ≡ some r = rw (find, e) in absurd (cc)
  | inr ne ↦ rw ne (ap suc (length-assign_absent m key p (sym (rw ne refl) ∙ h)))
]
