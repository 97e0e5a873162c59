-- ===== src/BitSet/Word/Size.antt =====
-- `size` and `empty` of `BitSet64` on a union of disjoint sets.
use fact_db.Prelude.{
  ℕ, zero, suc, some, ◌+◌, ◌-◌, ◌/◌, ◌^◌, ◌≤◌, ◌<◌, ◌≡◌, refl, ap, bit_and, bit_or, false, arith,
  ◌==◌, ==_iff, Bool-cases, inl, inr,
}
use native.Mathlib.Nat.{pow-suc, one-le-pow}
use fact_db.Prelude.Bits.{
  popcount, bit_and_step, bit_or_step, test_bit, test_bit-or, test_bit-zero, eq_of_test_bit,
}
use fact_db.BitSet.Word.{BitSet64, IsWord, from_range, is_empty, size, union, does_intersect_with}

popcount-or-and :
    (w a b : ℕ) → popcount w (bit_or a b) + popcount w (bit_and a b) ≡ popcount w a + popcount w b
unfolding popcount
popcount-or-and zero a b = refl
popcount-or-and (suc w) a b =
    let halves_or : bit_or a b / 2 ≡ bit_or (a / 2) (b / 2) = omega (arith, bit_or_step a b) in
    let halves_and : bit_and a b / 2 ≡ bit_and (a / 2) (b / 2) = omega (arith, bit_and_step a b) in
    rw halves_or (
      rw halves_and
        (omega (arith, popcount-or-and w (a / 2) (b / 2), bit_or_step a b, bit_and_step a b)))

pub popcount-zero : (w : ℕ) → popcount w 0 ≡ 0
unfolding popcount
popcount-zero zero = refl
popcount-zero (suc w) = omega (arith, popcount-zero w)

-- The sizes of disjoint sets add up.
pub size-union :
    (a b : BitSet64) → does_intersect_with a b ≡ false → size (union a b) ≡ size a + size b
unfolding size union does_intersect_with
size-union a b h =
    let none_shared : bit_and a.set b.set ≡ 0 = ground arith in
    omega (arith, popcount-or-and 64 a.set b.set, ap (popcount 64) none_shared, popcount-zero 64)

popcount-pos : (w x : ℕ) → x < 2 ^ w → popcount w x ≡ 0 → x ≡ 0
unfolding popcount
popcount-pos zero x h e = omega arith
popcount-pos (suc w) x h e =
    omega (arith, popcount-pos w (x / 2) (omega (arith, pow-suc 2 w)) (omega arith))

-- A set that is not empty has an element.
pub size-pos : (a : BitSet64) → IsWord a → is_empty a ≡ false → 0 < size a
unfolding size is_empty
size-pos a h e = ground (arith, popcount-pos 64 a.set h)

pub is_empty-union : (a b : BitSet64) → IsWord a → is_empty a ≡ false → is_empty (union a b) ≡ false
unfolding union is_empty
is_empty-union a b h e = elim (Bool-cases (bit_or a.set b.set == 0)) [
  | inr ne ↦ ne
  | inl zeros ↦
      let all : bit_or a.set b.set ≡ 0 = (==_iff (bit_or a.set b.set) 0).0 zeros in
      let none : a.set ≡ 0 = eq_of_test_bit 64 a.set 0 h (omega arith) λ i lt.
        ground (arith, test_bit-or a.set b.set i, test_bit-zero i, ap (λ x. test_bit x i) all) in
      absurd (ground (arith, none))
]

popcount-le : (w x : ℕ) → popcount w x ≤ w
unfolding popcount
popcount-le zero x = omega arith
popcount-le (suc w) x = omega (arith, popcount-le w (x / 2))

pub size-le : (a : BitSet64) → size a ≤ 64
unfolding size
size-le a = popcount-le 64 a.set

popcount-le_of_lt : (w e a : ℕ) → a < 2 ^ e → popcount w a ≤ e
unfolding popcount
popcount-le_of_lt zero e a h = omega arith
popcount-le_of_lt (suc w) zero a h =
    let none : a ≡ 0 = omega arith in
    omega (arith, ap (popcount (suc w)) none, popcount-zero (suc w))
popcount-le_of_lt (suc w) (suc e) a h =
    omega (arith, popcount-le_of_lt w e (a / 2) (omega (arith, pow-suc 2 e)))

-- A range from 0 has at most as many elements as its end.
pub size-from_range : (end : ℕ) (s : BitSet64) → from_range 0 end ≡ some s → size s ≤ end
unfolding size from_range
size-from_range end s h =
    let filled : 2 ^ end - 1 ≡ s.set = ground arith in
    popcount-le_of_lt 64 end s.set (omega (arith, filled, one-le-pow end 2 (omega arith)))
