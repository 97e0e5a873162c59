-- ===== src/Prelude/Bits.antt =====
-- The bits of a native number, and what the word operations do to each of them.
use fact_db.Prelude.Tests.{ltb, leb, ◌==◌, if◌then◌else◌}
use Prim.Native.Nat.{
  ℕ, zero, suc, ◌+◌, ◌-◌, ◌*◌, ◌/◌, ◌%◌, ◌^◌, ◌≤◌, ◌<◌, min, max, bit_and, bit_or, digits, bitwise,
  bit_and-bitwise, bit_or-bitwise,
}
use mathlib.Core.Path.{◌≡◌, refl, sym, ◌∙◌, ap, subst}
use mathlib.Core.Bool.{Bool, false, not, ◌&&◌, ◌||◌}
use mathlib.Core.List.{List, [], ◌∷◌, map}
use native.Mathlib.Omega.{arith}
use native.Mathlib.Nat.{pow-suc, one-le-pow}

-- Bit `i` of `n`, counted from the lowest.
unfoldable pub test_bit : ℕ → ℕ → Bool
test_bit n zero = n % 2 == 1
test_bit n (suc i) = test_bit (n / 2) i

-- What the native operations compute on the digits: spare fuel changes nothing, so that they
-- work on the lowest digits and on the halves.
module _ (z : ℕ → ℕ) (f : ℕ → ℕ → ℕ) where
  one_spare : (a n b : ℕ) → a ≤ n → digits z f (suc n) a b ≡ digits z f n a b
  one_spare zero zero b h = refl
  one_spare zero (suc n) b h = refl
  one_spare (suc a) zero b h = elim h [ ]
  one_spare (suc a) (suc n) b h = omega (arith, one_spare (suc a / 2) n (b / 2) (omega arith))

  spare : (k a b : ℕ) → digits z f (a + k) a b ≡ digits z f a a b
  spare zero a b = let e : a + 0 ≡ a = omega arith in ap (λ n. digits z f n a b) e
  spare (suc k) a b =
      let e : a + suc k ≡ suc (a + k) = omega arith in
      ap (λ n. digits z f n a b) e ∙ one_spare a (a + k) b (omega arith) ∙ spare k a b

  on_halves :
      ((b : ℕ) → z b ≡ z (b / 2) * 2 + f 0 (b % 2))
      → (a b : ℕ) → bitwise z f a b ≡ bitwise z f (a / 2) (b / 2) * 2 + f (a % 2) (b % 2)
  on_halves base zero b = base b
  on_halves base (suc a) b =
      let e : suc a / 2 + (a - suc a / 2) ≡ a = omega arith in
      let fuel = spare (a - suc a / 2) (suc a / 2) (b / 2) in
      ap (λ n. n * 2 + f (suc a % 2) (b % 2))
        (subst (λ n. digits z f n (suc a / 2) (b / 2) ≡ bitwise z f (suc a / 2) (b / 2)) e fuel)

pub bit_and_step : (a b : ℕ) → bit_and a b ≡ bit_and (a / 2) (b / 2) * 2 + min (a % 2) (b % 2)
bit_and_step a b =
    bit_and-bitwise a b
    ∙ on_halves (λ b. 0) min (λ b. omega arith) a b
    ∙ ap (λ n. n * 2 + min (a % 2) (b % 2)) (sym (bit_and-bitwise (a / 2) (b / 2)))

pub bit_or_step : (a b : ℕ) → bit_or a b ≡ bit_or (a / 2) (b / 2) * 2 + max (a % 2) (b % 2)
bit_or_step a b =
    bit_or-bitwise a b
    ∙ on_halves (λ b. b) max (λ b. omega arith) a b
    ∙ ap (λ n. n * 2 + max (a % 2) (b % 2)) (sym (bit_or-bitwise (a / 2) (b / 2)))

pub zero-bit_and : (b : ℕ) → bit_and 0 b ≡ 0
zero-bit_and = bit_and-bitwise 0

zero-bit_or : (b : ℕ) → bit_or 0 b ≡ b
zero-bit_or = bit_or-bitwise 0

bit_and_half : (a b : ℕ) → bit_and a b / 2 ≡ bit_and (a / 2) (b / 2)
bit_and_half a b = omega (arith, bit_and_step a b)

bit_or_half : (a b : ℕ) → bit_or a b / 2 ≡ bit_or (a / 2) (b / 2)
bit_or_half a b = omega (arith, bit_or_step a b)

pub test_bit-and : (a b i : ℕ) → test_bit (bit_and a b) i ≡ (test_bit a i && test_bit b i)
unfolding test_bit
test_bit-and a b zero = ground (arith, bit_and_step a b)
test_bit-and a b (suc i) = rw (bit_and_half a b) (test_bit-and (a / 2) (b / 2) i)

pub test_bit-or : (a b i : ℕ) → test_bit (bit_or a b) i ≡ (test_bit a i || test_bit b i)
unfolding test_bit
test_bit-or a b zero = ground (arith, bit_or_step a b)
test_bit-or a b (suc i) = rw (bit_or_half a b) (test_bit-or (a / 2) (b / 2) i)

-- The operations stay within a word.
pub bit_and-lt : (w a b : ℕ) → a < 2 ^ w → bit_and a b < 2 ^ w
bit_and-lt zero a b h = let e : a ≡ 0 = omega arith in rw e (omega (arith, zero-bit_and b))
bit_and-lt (suc w) a b h = omega (
  arith,
  pow-suc 2 w,
  bit_and_step a b,
  bit_and-lt w (a / 2) (b / 2) (omega (arith, pow-suc 2 w)),
)

pub bit_or-lt : (w a b : ℕ) → a < 2 ^ w → b < 2 ^ w → bit_or a b < 2 ^ w
bit_or-lt zero a b h k = let e : a ≡ 0 = omega arith in rw e (omega (arith, zero-bit_or b))
bit_or-lt (suc w) a b h k = omega (
  arith,
  pow-suc 2 w,
  bit_or_step a b,
  bit_or-lt w (a / 2) (b / 2) (omega (arith, pow-suc 2 w)) (omega (arith, pow-suc 2 w)),
)

-- Words with the same bits are equal.
pub eq_of_test_bit :
    (w a b : ℕ) → a < 2 ^ w → b < 2 ^ w → ((i : ℕ) → i < w → test_bit a i ≡ test_bit b i) → a ≡ b
unfolding test_bit
eq_of_test_bit zero a b h k same = omega arith
eq_of_test_bit (suc w) a b h k same = ground (
  arith,
  same 0 (omega arith),
  eq_of_test_bit w (a / 2) (b / 2) (omega (arith, pow-suc 2 w)) (omega (arith, pow-suc 2 w))
      (λ i lt. same (suc i) (omega arith)),
)

-- `~x` on `w` bits.
pub test_bit-complement :
    (w x i : ℕ) → x < 2 ^ w → i < w → test_bit (2 ^ w - 1 - x) i ≡ not (test_bit x i)
unfolding test_bit
test_bit-complement zero x i h lt = elim lt [ ]
test_bit-complement (suc w) x zero h lt = ground (arith, pow-suc 2 w)
test_bit-complement (suc w) x (suc i) h lt =
    let e : (2 ^ suc w - 1 - x) / 2 ≡ 2 ^ w - 1 - x / 2 = omega (arith, pow-suc 2 w) in
    rw e (test_bit-complement w (x / 2) i (omega (arith, pow-suc 2 w)) (omega arith))

pub test_bit-zero : (i : ℕ) → test_bit 0 i ≡ false
unfolding test_bit
test_bit-zero zero = refl
test_bit-zero (suc i) = test_bit-zero i

two_pow-suc_half : (v : ℕ) → 2 ^ suc v / 2 ≡ 2 ^ v
two_pow-suc_half v = omega (arith, pow-suc 2 v)

-- `1 << v` has the bit `v` and no other.
pub test_bit-pow : (v i : ℕ) → test_bit (2 ^ v) i ≡ (i == v)
unfolding test_bit
test_bit-pow zero zero = refl
test_bit-pow zero (suc i) = test_bit-zero i ∙ ground arith
test_bit-pow (suc v) zero = ground (arith, pow-suc 2 v)
test_bit-pow (suc v) (suc i) = rw two_pow-suc_half (test_bit-pow v i ∙ ground arith)

pub lt_two_pow : (a : ℕ) → a < 2 ^ a
lt_two_pow zero = omega arith
lt_two_pow (suc a) = omega (arith, pow-suc 2 a, lt_two_pow a)

-- Without a bit in the second argument no bit is left.
pub bit_and-zero : (w a : ℕ) → a < 2 ^ w → bit_and a 0 ≡ 0
bit_and-zero zero a h = let e : a ≡ 0 = omega arith in rw e
bit_and-zero (suc w) a h =
    bit_and_step a 0 ∙ omega (arith, bit_and-zero w (a / 2) (omega (arith, pow-suc 2 w)))

-- `x & (1 << v)` is not zero exactly when `x` has the bit `v`.
pub bit_and-pow : (v x : ℕ) → (bit_and x (2 ^ v) == 0) ≡ not (test_bit x v)
unfolding test_bit
bit_and-pow zero x =
    ground (arith, bit_and_step x 1, bit_and-zero (x / 2) (x / 2) (lt_two_pow (x / 2)))
bit_and-pow (suc v) x =
    ground
      (arith, bit_and_step x (2 ^ suc v), two_pow-suc_half v, pow-suc 2 v, bit_and-pow v (x / 2))

-- `(1 << e) - (1 << b)` holds the bits from `b` up to `e`.
pub test_bit-range : (b e i : ℕ) → b ≤ e → test_bit (2 ^ e - 2 ^ b) i ≡ (leb b i && ltb i e)
unfolding test_bit
test_bit-range zero zero i h = test_bit-zero i ∙ ground arith
test_bit-range zero (suc e) zero h = ground (arith, pow-suc 2 e, one-le-pow e 2)
test_bit-range zero (suc e) (suc i) h =
    let p : (2 ^ suc e - 2 ^ 0) / 2 ≡ 2 ^ e - 2 ^ 0 = omega (arith, pow-suc 2 e) in
    rw p (test_bit-range zero e i (omega arith) ∙ ground arith)
test_bit-range (suc b) zero i h = elim h [ ]
test_bit-range (suc b) (suc e) zero h = ground (arith, pow-suc 2 e, pow-suc 2 b)
test_bit-range (suc b) (suc e) (suc i) h =
    let p : (2 ^ suc e - 2 ^ suc b) / 2 ≡ 2 ^ e - 2 ^ b = omega (arith, pow-suc 2 e, pow-suc 2 b) in
    rw p (test_bit-range b e i (omega arith) ∙ ground arith)

-- A word below `2 ^ w` has no bit from `w` on.
pub test_bit-of_lt : (w x i : ℕ) → x < 2 ^ w → w ≤ i → test_bit x i ≡ false
unfolding test_bit
test_bit-of_lt zero x i h k = let e : x ≡ 0 = omega arith in rw e (test_bit-zero i)
test_bit-of_lt (suc w) x zero h k = elim k [ ]
test_bit-of_lt (suc w) x (suc i) h k =
    test_bit-of_lt w (x / 2) i (omega (arith, pow-suc 2 w)) (omega arith)

-- Number of set bits, and the positions of the lowest and of the highest one, on `w` bits.
unfoldable pub popcount : ℕ → ℕ → ℕ
popcount zero x = 0
popcount (suc w) x = x % 2 + popcount w (x / 2)

unfoldable pub count_trailing_zeros : ℕ → ℕ → ℕ
count_trailing_zeros zero x = 0
count_trailing_zeros (suc w) x =
    let rest = count_trailing_zeros w (x / 2) in if x % 2 == 1 then 0 else suc rest

unfoldable pub bit_width : ℕ → ℕ → ℕ
bit_width zero x = 0
bit_width (suc w) x = let rest = bit_width w (x / 2) in if x == 0 then 0 else suc rest

-- The positions of the set bits below `w`, in ascending order.
unfoldable pub bits_of : ℕ → ℕ → List ℕ
bits_of zero x = []
bits_of (suc w) x = let rest = map suc (bits_of w (x / 2)) in if x % 2 == 1 then 0 ∷ rest else rest
