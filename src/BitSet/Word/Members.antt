-- ===== src/BitSet/Word/Members.antt =====
-- What the operations of `BitSet64` do to membership.
use fact_db.Prelude.{
  ℕ, ◌^◌, ◌<◌, ◌≡◌, ap, ◌↔◌, bit_and, true, false, not, ◌&&◌, ◌||◌, some, arith, ltb, leb, ◌==◌,
}
use fact_db.Prelude.Bits.{
  test_bit, test_bit-and, test_bit-or, test_bit-complement, test_bit-zero, test_bit-pow,
  test_bit-range, bit_and-pow, bit_and-lt, bit_or-lt, eq_of_test_bit,
}
use fact_db.BitSet.Word.{
  BitSet64, IsWord, insert, from_range, contains, is_subset_of, does_intersect_with, union,
  intersection, difference, complement,
}

-- `contains` reads a bit of the word.
pub contains-test_bit : (s : BitSet64) (v : ℕ) → contains s v ≡ (ltb v 64 && test_bit s.set v)
unfolding contains
contains-test_bit s v = ground (arith, bit_and-pow v s.set)

pub contains-union :
    (a b : BitSet64) (v : ℕ) → contains (union a b) v ≡ (contains a v || contains b v)
unfolding union
contains-union a b v = ground (
  arith,
  contains-test_bit (union a b) v,
  contains-test_bit a v,
  contains-test_bit b v,
  test_bit-or a.set b.set v,
)

pub contains-intersection :
    (a b : BitSet64) (v : ℕ) → contains (intersection a b) v ≡ (contains a v && contains b v)
unfolding intersection
contains-intersection a b v = ground (
  arith,
  contains-test_bit (intersection a b) v,
  contains-test_bit a v,
  contains-test_bit b v,
  test_bit-and a.set b.set v,
)

pub contains-difference :
    (a b : BitSet64) (v : ℕ)
    → IsWord b
    → contains (difference a b) v ≡ (contains a v && not (contains b v))
unfolding difference
contains-difference a b v h =
    rw
      (
        contains-test_bit (record { set = bit_and a.set (complement b.set) }) v,
        contains-test_bit a v,
        contains-test_bit b v,
      )
      (ground (
        arith,
        test_bit-and a.set (complement b.set) v,
        λ (lt : v < 64). test_bit-complement 64 b.set v h lt,
      ))

pub operators-IsWord :
    (a b : BitSet64)
    → IsWord a
    → IsWord b
    → IsWord (union a b) × IsWord (intersection a b) × IsWord (difference a b)
unfolding union intersection difference
operators-IsWord a b h k =
    (bit_or-lt 64 a.set b.set h k, bit_and-lt 64 a.set b.set h, bit_and-lt 64 a.set _ h)

-- Sets with the same members are the same word.
pub eq_of_contains :
    (a b : BitSet64) → IsWord a → IsWord b → ((v : ℕ) → contains a v ≡ contains b v) → a.set ≡ b.set
eq_of_contains a b h k same =
    eq_of_test_bit 64 a.set b.set h k
      (λ i lt. ground (arith, same i, contains-test_bit a i, contains-test_bit b i))

-- An insert into a BitSet64 that is defined adds the one element and changes no other answer of
-- contains.
pub contains-insert :
    (s t : BitSet64) (v i : ℕ) → insert s v ≡ some t → contains t i ≡ ((i == v) || contains s i)
unfolding insert
contains-insert s t v i h = ground (
  arith,
  contains-test_bit t i,
  contains-test_bit s i,
  test_bit-or s.set (2 ^ v) i,
  test_bit-pow v i,
)

-- A BitSet64 built from a range contains the numbers from its begin up to its end, excluded.
pub contains-from_range :
    (begin end : ℕ) (s : BitSet64) (v : ℕ)
    → from_range begin end ≡ some s
    → contains s v ≡ (leb begin v && ltb v end)
unfolding from_range
contains-from_range begin end s v h =
    ground (arith, contains-test_bit s v, test_bit-range begin end v)

pub is_subset_of_to :
    (a b : BitSet64) → is_subset_of a b ≡ true → (v : ℕ) → contains a v ≡ true → contains b v ≡ true
unfolding is_subset_of
is_subset_of_to a b e v h =
    let p : bit_and a.set b.set ≡ a.set = ground arith in
    ground (
      arith,
      contains-test_bit a v,
      contains-test_bit b v,
      test_bit-and a.set b.set v,
      ap (λ x. test_bit x v) p,
    )

pub is_subset_of_from :
    (a b : BitSet64)
    → IsWord a
    → ((v : ℕ) → contains a v ≡ true → contains b v ≡ true)
    → is_subset_of a b ≡ true
unfolding is_subset_of
is_subset_of_from a b h all =
    let e : bit_and a.set b.set ≡ a.set =
      eq_of_test_bit 64 (bit_and a.set b.set) a.set (bit_and-lt 64 a.set b.set h) h λ i lt.
        ground (
          arith,
          all i,
          contains-test_bit a i,
          contains-test_bit b i,
          test_bit-and a.set b.set i,
        ) in
    ground arith

-- isSubsetOf of BitSet64 decides inclusion, for a first set that is a 64 bit word.
pub is_subset_of_iff :
    (a b : BitSet64)
    → IsWord a
    → (is_subset_of a b ≡ true) ↔ ((v : ℕ) → contains a v ≡ true → contains b v ≡ true)
is_subset_of_iff a b h = (is_subset_of_to a b, is_subset_of_from a b h)

does_intersect_with_to :
    (a b : BitSet64)
    → does_intersect_with a b ≡ false
    → (v : ℕ) → contains a v ≡ true
    → contains b v ≡ false
unfolding does_intersect_with
does_intersect_with_to a b e v h =
    let p : bit_and a.set b.set ≡ 0 = ground arith in
    ground (
      arith,
      contains-test_bit a v,
      contains-test_bit b v,
      test_bit-and a.set b.set v,
      ap (λ x. test_bit x v) p,
      test_bit-zero v,
    )

does_intersect_with_from :
    (a b : BitSet64)
    → IsWord a
    → ((v : ℕ) → contains a v ≡ true → contains b v ≡ false)
    → does_intersect_with a b ≡ false
unfolding does_intersect_with
does_intersect_with_from a b h all =
    let e : bit_and a.set b.set ≡ 0 =
      eq_of_test_bit 64 (bit_and a.set b.set) 0 (bit_and-lt 64 a.set b.set h) (omega arith) λ i lt.
        ground (
          arith,
          all i,
          contains-test_bit a i,
          contains-test_bit b i,
          test_bit-and a.set b.set i,
          test_bit-zero i,
        ) in
    ground arith

-- doesIntersectWith of BitSet64 denies exactly the disjoint sets, for a first set that is a 64
-- bit word.
pub does_intersect_with-false_iff :
    (a b : BitSet64)
    → IsWord a
    → (does_intersect_with a b ≡ false) ↔ ((v : ℕ) → contains a v ≡ true → contains b v ≡ false)
does_intersect_with-false_iff a b h = (does_intersect_with_to a b, does_intersect_with_from a b h)
