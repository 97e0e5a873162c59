-- ===== src/BitSet/Word/Iteration.antt =====
-- The range-based loop over a `BitSet64`: it visits the members, in ascending order, and ends.
use fact_db.Prelude.{
  ℕ, zero, suc, ◌+◌, ◌-◌, ◌*◌, ◌/◌, ◌%◌, ◌^◌, ◌≤◌, ◌<◌, ◌≡◌, refl, ◌∙◌, ap, bit_and, Bool, true,
  false, List, [], ◌∷◌, map, arith, ◌==◌, if◌then◌else◌, Bool-cases, inl, inr, length, length-map,
}
use native.Mathlib.Nat.{pow-suc}
use fact_db.Prelude.Bits.{
  test_bit, bit_and_step, popcount, count_trailing_zeros, bits_of, bit_and-lt, lt_two_pow,
}
use fact_db.BitSet.Word.{BitSet64, IsWord, iterate, to_list, size, contains}
use fact_db.BitSet.Word.Members.{contains-test_bit}

bit_and_self : (w a : ℕ) → a < 2 ^ w → bit_and a a ≡ a
bit_and_self zero a h = let e : a ≡ 0 = omega arith in rw e
bit_and_self (suc w) a h =
    bit_and_step a a ∙ omega (arith, bit_and_self w (a / 2) (omega (arith, pow-suc 2 w)))

-- The loop on words of `w` bits, with the subtraction where it does not wrap.
walk : ℕ → ℕ → ℕ → List ℕ
walk w zero set = []
walk w (suc fuel) set =
    let rest = walk w fuel (bit_and set (set - 1)) in
    if set == 0 then [] else count_trailing_zeros w set ∷ rest

clear_lowest_even : (s : ℕ) → 0 < s → bit_and (2 * s) (2 * s - 1) ≡ 2 * bit_and s (s - 1)
clear_lowest_even s h =
    let p : 2 * s / 2 ≡ s = omega arith in
    let q : (2 * s - 1) / 2 ≡ s - 1 = omega arith in
    bit_and_step (2 * s) (2 * s - 1) ∙ rw (p, q) (omega arith)

clear_lowest_odd : (s : ℕ) → s % 2 ≡ 1 → bit_and s (s - 1) ≡ 2 * (s / 2)
clear_lowest_odd s h =
    let q : (s - 1) / 2 ≡ s / 2 = omega arith in
    bit_and_step s (s - 1) ∙ rw q (omega (arith, bit_and_self (s / 2) (s / 2) (lt_two_pow (s / 2))))

walk_even : (w f s : ℕ) → walk (suc w) f (2 * s) ≡ map suc (walk w f s)
unfolding walk count_trailing_zeros
walk_even w zero s = refl
walk_even w (suc f) zero = refl
walk_even w (suc f) (suc s) =
    let p : 2 * suc s / 2 ≡ suc s = omega arith in
    let nz : (2 * suc s == 0) ≡ false = ground arith in
    let ev : (2 * suc s % 2 == 1) ≡ false = ground arith in
    let nz' : (suc s == 0) ≡ false = ground arith in
    rw (
      nz,
      nz',
      ev,
      p,
      clear_lowest_even (suc s) (omega arith),
      walk_even w f (bit_and (suc s) (suc s - 1)),
    )

walk_even_half : (w f s : ℕ) → s % 2 ≡ 0 → walk (suc w) f s ≡ map suc (walk w f (s / 2))
walk_even_half w f s h =
    let e : s ≡ 2 * (s / 2) = omega arith in ap (walk (suc w) f) e ∙ walk_even w f (s / 2)

walk_odd : (w f s : ℕ) → s % 2 ≡ 1 → walk (suc w) (suc f) s ≡ 0 ∷ map suc (walk w f (s / 2))
unfolding walk count_trailing_zeros
walk_odd w f s h =
    let nz : (s == 0) ≡ false = ground arith in
    let odd : (s % 2 == 1) ≡ true = ground arith in
    rw (nz, odd, clear_lowest_odd s h, walk_even w f (s / 2))

-- With as many rounds as there are members the loop lists the members in ascending order.
walk-bits_of : (w f s : ℕ) → s < 2 ^ w → popcount w s ≤ f → walk w f s ≡ bits_of w s
unfolding popcount bits_of
walk-bits_of zero zero s h k = unfold walk in refl
walk-bits_of zero (suc f) s h k = unfold walk in ground arith
walk-bits_of (suc w) f s h k =
    let small : s / 2 < 2 ^ w = omega (arith, pow-suc 2 w) in
    elim (Bool-cases (s % 2 == 1)) [
      | inl odd ↦
          let o : s % 2 ≡ 1 = ground arith in
          let e : f ≡ suc (f - 1) = omega arith in
          rw odd (
            ap (λ g. walk (suc w) g s) e
            ∙ walk_odd w (f - 1) s o
            ∙ ap (λ l. 0 ∷ map suc l) (walk-bits_of w (f - 1) (s / 2) small (omega arith)))
      | inr even ↦ rw even (
          walk_even_half w f s (ground arith)
          ∙ ap (map suc) (walk-bits_of w f (s / 2) small (ground arith)))
    ]

popcount-le : (w s : ℕ) → popcount w s ≤ w
unfolding popcount
popcount-le zero s = omega arith
popcount-le (suc w) s = omega (arith, popcount-le w (s / 2))

length-bits_of : (w s : ℕ) → length (bits_of w s) ≡ popcount w s
unfolding bits_of popcount
length-bits_of zero s = refl
length-bits_of (suc w) s =
    ground (arith, length-bits_of w (s / 2), length-map (bits_of w (s / 2)) suc)

iterate-walk : (f s : ℕ) → s < 2 ^ 64 → iterate f s ≡ walk 64 f s
unfolding iterate walk
iterate-walk zero s h = refl
iterate-walk (suc f) s h = elim (Bool-cases (s == 0)) [
  | inl z ↦ rw z
  | inr nz ↦
      let pos : 0 < s = ground arith in
      let e : (s + 2 ^ 64 - 1) % 2 ^ 64 ≡ s - 1 = omega arith in
      rw (nz, e)
        (ap (λ l. count_trailing_zeros 64 s ∷ l)
          (iterate-walk f (bit_and s (s - 1)) (bit_and-lt 64 s (s - 1) h)))
]

-- The numbers from `k` on, `n` of them, that pass the test.
abbrev pub members : (ℕ → Bool) → ℕ → ℕ → List ℕ
members p zero k = []
members p (suc n) k = let rest = members p n (suc k) in if p k then k ∷ rest else rest

members_shift :
    (p : ℕ → Bool) (n k : ℕ) → members p n (suc k) ≡ map suc (members (λ i. p (suc i)) n k)
members_shift p zero k = refl
members_shift p (suc n) k = elim (Bool-cases (p (suc k))) [
  | inl e ↦ rw (e, members_shift p n (suc k))
  | inr e ↦ rw (e, members_shift p n (suc k))
]

bits_of-members : (w x : ℕ) → bits_of w x ≡ members (test_bit x) w 0
unfolding bits_of test_bit
bits_of-members zero x = refl
bits_of-members (suc w) x =
    rw (members_shift (test_bit x) w 0, bits_of-members w (x / 2)) (ground arith)

members_congr :
    (p q : ℕ → Bool) (n k : ℕ) → ((i : ℕ) → i < k + n → p i ≡ q i) → members p n k ≡ members q n k
members_congr p q zero k h = refl
members_congr p q (suc n) k h =
    rw (h k (omega arith), members_congr p q n (suc k) (λ i lt. h i (omega arith)))

-- The loop over a BitSet64 of 64 bits with its iterator visits exactly the members, in ascending
-- order, and their number is size.
pub to_list_lem :
    (s : BitSet64)
    → IsWord s
    → (to_list s ≡ members (contains s) 64 0) × (length (to_list s) ≡ size s)
unfolding to_list size
to_list_lem s h =
    let e : iterate 64 s.set ≡ bits_of 64 s.set =
      iterate-walk 64 s.set h ∙ walk-bits_of 64 64 s.set h (popcount-le 64 s.set) in
    (
      e
          ∙ bits_of-members 64 s.set
          ∙ members_congr (test_bit s.set) (contains s) 64 0
              (λ i lt. ground (arith, contains-test_bit s i)),
      ap length e ∙ length-bits_of 64 s.set,
    )
