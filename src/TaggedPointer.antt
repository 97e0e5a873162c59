-- ===== src/TaggedPointer.antt =====
-- factDB/util/TaggedPointer.hpp: a pointer and a tag of 16 bits in one word of 64 bits. `use_tagging`
-- is the constant that the build sets: whether the machine is an x86 of 64 bits. A pointer is its
-- address.
pub mod Words
use fact_db.Prelude.{ℕ, ◌+◌, ◌-◌, ◌*◌, ◌/◌, ◌%◌, ◌^◌, ◌<◌, Bool, bit_and, if◌then◌else◌}

pub record TaggedPointer : Type 0 where
  pub ptr : ℕ

-- The word fits its 64 bits.
abbrev pub IsWord : TaggedPointer → Type 0
IsWord p = p.ptr < 2 ^ 64

unfoldable pub tagging_bits : Bool → ℕ
tagging_bits use_tagging = if use_tagging then 16 else 0

-- The mask to retrieve the tag.
unfoldable pub tagging_mask : Bool → ℕ
unfolding tagging_bits
tagging_mask use_tagging = if use_tagging then 2 ^ tagging_bits use_tagging - 1 else 0

unfoldable pub new : Bool → ℕ → ℕ → TaggedPointer
unfolding tagging_bits
new use_tagging address tag = record {
  ptr =
      if use_tagging
      then (address * 2 ^ tagging_bits use_tagging % 2 ^ 64 + tag) % 2 ^ 64
      else address;
}

unfoldable pub update_tag : Bool → TaggedPointer → ℕ → TaggedPointer
unfolding tagging_mask
update_tag use_tagging p tag =
    if use_tagging
    then (record { ptr = (bit_and p.ptr (2 ^ 64 - 1 - tagging_mask use_tagging) + tag) % 2 ^ 64 })
    else p

unfoldable pub get_pointer : Bool → TaggedPointer → ℕ
unfolding tagging_bits
get_pointer use_tagging p = if use_tagging then p.ptr / 2 ^ tagging_bits use_tagging else p.ptr

unfoldable pub get_tag : Bool → TaggedPointer → ℕ
unfolding tagging_mask
get_tag use_tagging p = if use_tagging then bit_and p.ptr (tagging_mask use_tagging) % 2 ^ 16 else 0

unfoldable pub get_raw : TaggedPointer → ℕ
get_raw p = p.ptr

unfoldable pub set_raw_pointer : TaggedPointer → ℕ → TaggedPointer
set_raw_pointer p raw = record p { ptr = raw }

-- `TypedTaggedPointer::fromRawPtr`: the null pointer, whose word is then replaced.
unfoldable pub from_raw_ptr : Bool → ℕ → TaggedPointer
unfolding new set_raw_pointer
from_raw_ptr use_tagging raw = set_raw_pointer (new use_tagging 0 0) raw
