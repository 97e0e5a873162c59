-- ===== src/BitSet/Word.antt =====
-- `BitSet64` of factDB/infra/BitSet.hpp and BitSet.cpp: a set of numbers below 64 in one word.
-- `none` stands for a failed assertion or an undefined shift.
pub mod Members
pub mod Iteration
pub mod Size
pub mod Single
pub mod Each
use fact_db.Prelude.{
  ℕ, zero, suc, ◌+◌, ◌-◌, ◌^◌, ◌%◌, ◌<◌, bit_and, bit_or, bit_xor, Bool, true, false, not, ◌&&◌,
  Option, none, some, List, [], ◌∷◌, ltb, leb, ◌==◌, if◌then◌else◌,
}
use fact_db.Prelude.Bits.{popcount, count_trailing_zeros, bit_width}

pub record BitSet64 : Type 0 where
  pub set : ℕ

abbrev pub capacity : ℕ
capacity = 64

-- What a `uint64_t` holds.
abbrev pub IsWord : BitSet64 → Type 0
IsWord s = s.set < 2 ^ 64

unfoldable pub empty_set : BitSet64
empty_set = record { set = 0 }

unfoldable pub insert : BitSet64 → ℕ → Option BitSet64
insert s val = if ltb val capacity then some (record s { set = bit_or s.set (2 ^ val) }) else none

-- The constructor from a list of elements.
insert_all : BitSet64 → List ℕ → Option BitSet64
unfolding insert
insert_all s [] = some s
insert_all s (i ∷ elements) = elim (insert s i) [ none ↦ none | some t ↦ insert_all t elements ]

unfoldable pub from_list : List ℕ → Option BitSet64
unfolding insert_all empty_set
from_list elements = insert_all empty_set elements

-- The constructor from a range: the assertions, and a shift by 64 is undefined.
unfoldable pub from_range : ℕ → ℕ → Option BitSet64
from_range begin end =
    if ltb begin capacity && leb end capacity && leb begin end && ltb end capacity
    then some (record { set = 2 ^ end - 2 ^ begin })
    else none

unfoldable pub clear : BitSet64 → BitSet64
clear s = record s { set = 0 }

unfoldable pub count : BitSet64 → ℕ → Bool
count s v = if ltb v 64 then not (bit_and s.set (2 ^ v) == 0) else false

unfoldable pub contains : BitSet64 → ℕ → Bool
unfolding count
contains s v = count s v

unfoldable pub is_empty : BitSet64 → Bool
is_empty s = s.set == 0

unfoldable pub size : BitSet64 → ℕ
size s = popcount 64 s.set

unfoldable pub is_subset_of : BitSet64 → BitSet64 → Bool
is_subset_of s super = bit_and s.set super.set == s.set

unfoldable pub is_subset_not_equal_of : BitSet64 → BitSet64 → Bool
is_subset_not_equal_of s super = (bit_and s.set super.set == s.set) && not (super.set == s.set)

unfoldable pub does_intersect_with : BitSet64 → BitSet64 → Bool
does_intersect_with s other = not (bit_and s.set other.set == 0)

-- The three exclusive ors, each on the values that the one before it leaves.
unfoldable pub swap : BitSet64 → BitSet64 → BitSet64 × BitSet64
swap s other =
    let first = bit_xor s.set other.set in
    let second = bit_xor other.set first in
    let third = bit_xor first second in (record { set = third }, record { set = second })

-- `~x`
abbrev pub complement : ℕ → ℕ
complement x = 2 ^ 64 - 1 - x

-- `+`, `&` and `-`, and the assigning operators, which compute the same.
unfoldable pub union : BitSet64 → BitSet64 → BitSet64
union s other = record { set = bit_or s.set other.set }

unfoldable pub intersection : BitSet64 → BitSet64 → BitSet64
intersection s other = record { set = bit_and s.set other.set }

unfoldable pub difference : BitSet64 → BitSet64 → BitSet64
difference s other = record { set = bit_and s.set (complement other.set) }

unfoldable pub equal : BitSet64 → BitSet64 → Bool
equal s other = s.set == other.set

unfoldable pub next_permutation : BitSet64 → ℕ → Option BitSet64
unfolding from_range
next_permutation s relations = elim (from_range 0 relations) [
  | none ↦ none
  | some range ↦
      if ltb s.set range.set
      then some (record { set = (s.set + 1) % 2 ^ 64 })
      else some (record { set = 0 })
]

-- The iterator: its element, and `set &= set - 1` with the wrap of the subtraction.
unfoldable pub current : ℕ → ℕ
current set = count_trailing_zeros 64 set

unfoldable pub advance : ℕ → ℕ
advance set = bit_and set ((set + 2 ^ 64 - 1) % 2 ^ 64)

-- A range-based loop over the set: from `begin()` until the iterator equals `end()`.
iterate : ℕ → ℕ → List ℕ
unfolding current advance
iterate zero set = []
iterate (suc fuel) set =
    let rest = iterate fuel (advance set) in if set == 0 then [] else current set ∷ rest

unfoldable pub to_list : BitSet64 → List ℕ
unfolding iterate
to_list s = iterate 64 s.set

unfoldable pub front : BitSet64 → ℕ
unfolding current
front s = current s.set

unfoldable pub back : BitSet64 → Option ℕ
unfolding is_empty
back s = if is_empty s then none else some (capacity - 1 - (64 - bit_width 64 s.set))
