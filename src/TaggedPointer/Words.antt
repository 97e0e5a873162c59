-- ===== src/TaggedPointer/Words.antt =====
-- What a tagged pointer gives back: the address and the tag that it was made of.
use fact_db.Prelude.{
  ℕ, zero, suc, ◌+◌, ◌-◌, ◌*◌, ◌/◌, ◌%◌, ◌^◌, ◌<◌, ◌≡◌, refl, ap, ◌∙◌, true, false, bit_and, arith,
}
use native.Mathlib.Nat.{pow-suc, one-le-pow, div-div-eq-div-mul, mod-eq-sub-mul-div}
use fact_db.Prelude.Bits.{bit_and_step, bit_and-zero, zero-bit_and, lt_two_pow}
use fact_db.TaggedPointer.{
  TaggedPointer, IsWord, new, update_tag, get_pointer, get_tag, get_raw, from_raw_ptr,
}

-- `x & ((1 << w) - 1)` is the remainder.
bit_and-mask : (w x : ℕ) → bit_and x (2 ^ w - 1) ≡ x % 2 ^ w
bit_and-mask zero x = omega (arith, bit_and-zero x x (lt_two_pow x))
bit_and-mask (suc w) x =
    let half : (2 ^ suc w - 1) / 2 ≡ 2 ^ w - 1 =
      omega (arith, pow-suc 2 w, one-le-pow w 2 (omega arith)) in
    let quotient : x / 2 / 2 ^ w ≡ x / 2 ^ suc w =
      div-div-eq-div-mul x 2 (2 ^ w) ∙ ap (λ n. x / n) (omega (arith, pow-suc 2 w)) in
    let whole : 2 ^ suc w * (x / 2 ^ suc w) ≡ 2 * (2 ^ w * (x / 2 / 2 ^ w)) =
      rw quotient (rw (pow-suc 2 w) (omega arith)) in
    bit_and_step x (2 ^ suc w - 1)
    ∙ rw half (
        rw (bit_and-mask w (x / 2)) (
          omega (
            arith,
            pow-suc 2 w,
            one-le-pow w 2 (omega arith),
            whole,
            mod-eq-sub-mul-div (x / 2) (2 ^ w),
            mod-eq-sub-mul-div x (2 ^ suc w),
          )))

-- The bits under a mask and under its complement add up to the word.
bit_and-complement :
    (w a b : ℕ) → a < 2 ^ w → b < 2 ^ w → bit_and a b + bit_and a (2 ^ w - 1 - b) ≡ a
bit_and-complement zero a b h k =
    let none : a ≡ 0 = omega arith in
    rw none (omega (arith, zero-bit_and b, zero-bit_and (2 ^ 0 - 1 - b)))
bit_and-complement (suc w) a b h k =
    let half : (2 ^ suc w - 1 - b) / 2 ≡ 2 ^ w - 1 - b / 2 = omega (arith, pow-suc 2 w) in
    omega (
      arith,
      pow-suc 2 w,
      ap (bit_and (a / 2)) half,
      bit_and_step a b,
      bit_and_step a (2 ^ suc w - 1 - b),
      bit_and-complement w (a / 2) (b / 2) (omega (arith, pow-suc 2 w))
          (omega (arith, pow-suc 2 w)),
    )

-- `x & ~((1 << 16) - 1)` is the word without its remainder.
bit_and-high : (x : ℕ) → x < 2 ^ 64 → bit_and x (2 ^ 64 - 1 - (2 ^ 16 - 1)) + x % 2 ^ 16 ≡ x
bit_and-high x h =
    omega (arith, bit_and-complement 64 x (2 ^ 16 - 1) h (omega arith), bit_and-mask 16 x)

-- A tagged pointer made of an address and a tag of 16 bits fits one word of 64 bits; with
-- tagging, getPointer returns the low 48 bits of the address, getTag the tag, and fromRawPtr
-- makes the same pointer of its word; without tagging, getPointer returns the whole address and
-- getTag is 0.
pub new_lem :
    (address tag : ℕ)
    → tag < 2 ^ 16
    → IsWord (new true address tag)
      × (get_pointer true (new true address tag) ≡ address % 2 ^ 48)
      × (get_tag true (new true address tag) ≡ tag)
      × (from_raw_ptr true (get_raw (new true address tag)) ≡ new true address tag)
      × (get_pointer false (new false address tag) ≡ address)
      × (get_tag false (new false address tag) ≡ 0)
unfolding new get_pointer get_tag get_raw from_raw_ptr fact_db.TaggedPointer.set_raw_pointer
new_lem address tag h = (
  omega arith,
  omega arith,
  omega (arith, bit_and-mask 16 ((address * 2 ^ 16 % 2 ^ 64 + tag) % 2 ^ 64)),
  refl,
  refl,
  refl,
)

-- With tagging, updateTag of a word of 64 bits with a tag of 16 bits gives a word of 64 bits
-- with the same pointer and the new tag.
pub update_tag_lem :
    (p : TaggedPointer) (tag : ℕ)
    → IsWord p
    → tag < 2 ^ 16
    → IsWord (update_tag true p tag)
      × (get_pointer true (update_tag true p tag) ≡ get_pointer true p)
      × (get_tag true (update_tag true p tag) ≡ tag)
unfolding update_tag get_pointer get_tag
update_tag_lem p tag word h =
    let high = bit_and-high p.ptr word in
    (
      omega arith,
      omega (arith, high),
      omega (
        arith,
        high,
        bit_and-mask 16 ((bit_and p.ptr (2 ^ 64 - 1 - (2 ^ 16 - 1)) + tag) % 2 ^ 64),
      ),
    )
