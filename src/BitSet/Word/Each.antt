-- ===== src/BitSet/Word/Each.antt =====
-- A property of all the elements that the loop over a `BitSet64` visits, and its first element.
use fact_db.Prelude.{
  ℕ, zero, suc, ◌+◌, ◌≤◌, ◌<◌, ◌≡◌, ◌↔◌, sym, Bool, true, false, arith, All, Bool-cases, inl, inr,
  ℕ_discrete, if◌then◌else◌, [], ◌∷◌,
}
use mathlib.Core.Path.{subst}
use fact_db.BitSet.Word.{
  BitSet64, IsWord, is_empty, contains, to_list, iterate, front, current, advance, intersection,
  does_intersect_with,
}
use fact_db.Prelude.Bits.{bit_and-lt}
use fact_db.BitSet.Word.Members.{
  contains-test_bit, contains-intersection, does_intersect_with-false_iff,
}
use fact_db.BitSet.Word.Iteration.{members, to_list_lem}

All-members :
    (P : ℕ → Type 0) (p : ℕ → Bool) (n k : ℕ) → ((i : ℕ) → p i ≡ true → P i) → All P (members p n k)
All-members P p zero k h = tt
All-members P p (suc n) k h = elim (Bool-cases (p k)) [
  | inl e ↦ rw e (h k e, All-members P p n (suc k) h)
  | inr e ↦ rw e (All-members P p n (suc k) h)
]

All-members_at :
    (P : ℕ → Type 0) (p : ℕ → Bool) (n k i : ℕ)
    → All P (members p n k)
    → p i ≡ true
    → k ≤ i
    → i < k + n
    → P i
All-members_at P p zero k i all e le lt = absurd (omega arith)
All-members_at P p (suc n) k i all e le lt = elim (Bool-cases (p k)) [
  | inl here ↦
      let (first, rest) =
        subst (λ b. All P (if b then k ∷ members p n (suc k) else members p n (suc k))) here all in
      elim (ℕ_discrete k i) [
        | yes s ↦ subst P s first
        | no ne ↦ All-members_at P p n (suc k) i rest e (omega arith) (omega arith)
      ]
  | inr gone ↦
      let rest =
        subst (λ b. All P (if b then k ∷ members p n (suc k) else members p n (suc k))) gone all in
      elim (ℕ_discrete k i) [
        | yes s ↦ absurd (ground (arith, subst (λ q. p q ≡ false) s gone))
        | no ne ↦ All-members_at P p n (suc k) i rest e (omega arith) (omega arith)
      ]
]

pub below_capacity : (s : BitSet64) (i : ℕ) → contains s i ≡ true → i < 64
below_capacity s i h = ground (arith, contains-test_bit s i)

-- What holds of all members holds of all that the loop visits.
pub All-to_list :
    (P : ℕ → Type 0) (s : BitSet64)
    → IsWord s
    → ((i : ℕ) → contains s i ≡ true → P i)
    → All P (to_list s)
All-to_list P s w h =
    let (e, size) = to_list_lem s w in subst (All P) (sym e) (All-members P (contains s) 64 0 h)

pub All-to_list_at :
    (P : ℕ → Type 0) (s : BitSet64) (i : ℕ)
    → IsWord s
    → All P (to_list s)
    → contains s i ≡ true
    → P i
All-to_list_at P s i w all h =
    let (e, size) = to_list_lem s w in
    All-members_at P (contains s) 64 0 i (subst (All P) e all) h (omega arith)
      (below_capacity s i h)

-- `front` of a set that is not empty is a member.
pub contains-front : (s : BitSet64) → IsWord s → is_empty s ≡ false → contains s (front s) ≡ true
unfolding is_empty front to_list iterate
contains-front s w h =
    let all = All-to_list (λ i. contains s i ≡ true) s w (λ i e. e) in
    let (first, rest) =
      subst
        (λ (b : Bool).
          All (λ i. contains s i ≡ true)
            (if b then [] else current s.set ∷ iterate 63 (advance s.set)))
        h all in
    first

-- doesIntersectWith of BitSet64 answers true exactly if the sets share an element, for a first set
-- that is a 64 bit word.
pub does_intersect_with-contains :
    (a b : BitSet64)
    → IsWord a
    → (does_intersect_with a b ≡ true) ↔ ((c : ℕ) × (contains a c ≡ true) × (contains b c ≡ true))
does_intersect_with-contains a b w = (
  λ h.
      let word = bit_and-lt 64 a.set b.set w in
      let both = intersection a b in
      let some_one : is_empty both ≡ false =
        unfold does_intersect_with is_empty intersection in ground (arith, h) in
      let member = contains-front both (unfold intersection in word) some_one in
      let c = front both in
      (c, ground (arith, contains-intersection a b c), ground (arith, contains-intersection a b c)),
  λ (c, x, y). elim (Bool-cases (does_intersect_with a b)) [
    | inl e ↦ e
    | inr e ↦ absurd (ground (arith, (does_intersect_with-false_iff a b w).0 e c x))
  ],
)
