-- ===== src/BitSet/Word/Single.antt =====
-- The constructor of `BitSet64` from one element.
use fact_db.Prelude.{
  zero, ◌/◌, none, some_injective, Bool-cases, inl, inr, ℕ, suc, ◌^◌, ◌<◌, ◌≡◌, refl, ◌∙◌, bit_or,
  false, some, [], ◌∷◌, arith, ◌==◌, ltb, ltb→lt, lt→ltb, sym, ap,
}
use Prim.Native.Nat.{bit_or-bitwise}
use native.Mathlib.Nat.{pow-suc, one-le-pow, pow-le-pow_right}
use fact_db.Prelude.Bits.{popcount, bit_or-lt, test_bit-zero}
use fact_db.BitSet.Word.{
  BitSet64, IsWord, is_empty, contains, size, from_list, insert, insert_all, empty_set,
}
use fact_db.BitSet.Word.Size.{popcount-zero}
use fact_db.BitSet.Word.Members.{contains-insert, contains-test_bit}

pub two_pow-lt : (v w : ℕ) → v < w → 2 ^ v < 2 ^ w
two_pow-lt v w h = omega (
  arith,
  pow-le-pow_right {n = 2} (omega arith) {i = suc v} {j = w} (omega arith),
  pow-suc 2 v,
  one-le-pow v 2 (omega arith),
)

pub from_list-single :
    (v : ℕ)
    → v < 64
    → (s : BitSet64) × (from_list (v ∷ []) ≡ some s) × IsWord s × (is_empty s ≡ false)
unfolding from_list insert_all insert empty_set is_empty
from_list-single v h =
    let word : bit_or 0 (2 ^ v) ≡ 2 ^ v = bit_or-bitwise 0 (2 ^ v) in
    (
      record { set = bit_or 0 (2 ^ v) },
      rw (insert_all, insert, lt→ltb v 64 h) refl,
      bit_or-lt 64 0 (2 ^ v) (omega arith) (two_pow-lt v 64 h),
      rw word (ground (arith, one-le-pow v 2 (omega arith))),
    )

-- It contains that element alone.
pub contains-single :
    (v i : ℕ) (s : BitSet64) → from_list (v ∷ []) ≡ some s → contains s i ≡ (i == v)
unfolding from_list insert_all insert empty_set
contains-single v i s h =
    let inserted : insert empty_set v ≡ some s = ground arith in
    let nothing : contains empty_set i ≡ false =
      ground (arith, contains-test_bit empty_set i, test_bit-zero i) in
    contains-insert empty_set s v i inserted ∙ rw nothing (ground arith)

popcount-two_pow : (w v : ℕ) → v < w → popcount w (2 ^ v) ≡ 1
unfolding popcount
popcount-two_pow zero v h = elim h [ ]
popcount-two_pow (suc w) zero h = omega (arith, popcount-zero w)
popcount-two_pow (suc w) (suc v) h =
    let half : 2 ^ suc v / 2 ≡ 2 ^ v = omega (arith, pow-suc 2 v) in
    rw half (omega (arith, pow-suc 2 v, popcount-two_pow w v (omega arith)))

pub size-single : (v : ℕ) (s : BitSet64) → from_list (v ∷ []) ≡ some s → size s ≡ 1
unfolding from_list insert_all insert empty_set size
size-single v s h = elim (Bool-cases (ltb v 64)) [
  | inl small ↦
      let made : from_list (v ∷ []) ≡ some (record { set = bit_or 0 (2 ^ v) }) =
        rw (insert_all, insert, small) refl in
      let same : record { set = bit_or 0 (2 ^ v) } ≡ s = some_injective (sym made ∙ h) in
      ap size (sym same)
      ∙ ap (popcount 64) (bit_or-bitwise 0 (2 ^ v))
      ∙ popcount-two_pow 64 v (ltb→lt v 64 small)
  | inr large ↦
      let nothing : from_list (v ∷ []) ≡ none = rw (insert_all, insert, large) refl in absurd (cc)
]

-- It is the word with that bit.
pub single_word :
    (r : ℕ) (x : BitSet64)
    → from_list (r ∷ []) ≡ some x
    → ◌≡◌ {A = BitSet64} (record { set = 2 ^ r }) x
unfolding from_list insert_all insert empty_set
single_word r x h =
    let word : bit_or 0 (2 ^ r) ≡ 2 ^ r = bit_or-bitwise 0 (2 ^ r) in ground (arith, word)
