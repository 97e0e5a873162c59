-- ===== src/BitSet/Var.antt =====
-- `BitSetVar` of factDB/infra/BitSet.hpp and BitSet.cpp: a set of any fixed capacity, in words.
-- `none` stands for a failed assertion or for reading a word that the other set does not have.
pub mod Members
pub mod Intersect
pub mod OneWord
use fact_db.Prelude.{
  ℕ, zero, suc, ◌+◌, ◌-◌, ◌*◌, ◌/◌, ◌%◌, ◌^◌, ◌≤◌, Bool, true, false, not, ◌&&◌, Option, none, some,
  List, [], ◌∷◌, map, ltb, leb, ◌==◌, if◌then◌else◌, ◌>>=◌, length, get_elem?, set, replicate,
  bit_and,
}
use fact_db.Prelude.Bits.{count_trailing_zeros}
use fact_db.BitSet.Word.{BitSet64}
use fact_db.BitSet.Word

pub record BitSetVar : Type 0 where
  pub sets : List BitSet64

unfoldable pub calc_slot : BitSetVar → ℕ → Option (ℕ × ℕ)
calc_slot s val =
    let slot = val / 64 in
    if ltb val (length s.sets * Word.capacity) then some (slot, val - slot * 64) else none

unfoldable pub insert : BitSetVar → ℕ → Option BitSetVar
unfolding calc_slot
insert s val = do
  (slot, val_in_slot) ← calc_slot s val
  word ← get_elem? s.sets slot
  word' ← Word.insert word val_in_slot
  some (record s { sets = set s.sets slot word' })

insert_all : BitSetVar → List ℕ → Option BitSetVar
insert_all s [] = some s
insert_all s (i ∷ elements) = elim (insert s i) [ none ↦ none | some t ↦ insert_all t elements ]

unfoldable pub new : ℕ → List ℕ → Option BitSetVar
unfolding insert_all
new size elements = insert_all (record { sets = replicate (size / 64 + 1) Word.empty_set }) elements

unfoldable pub clear : BitSetVar → BitSetVar
clear s = record s { sets = map Word.clear s.sets }

unfoldable pub count : BitSetVar → ℕ → Option Bool
unfolding calc_slot
count s val = do
  (slot, val_in_slot) ← calc_slot s val
  word ← get_elem? s.sets slot
  some (Word.count word val_in_slot)

unfoldable pub contains : BitSetVar → ℕ → Option Bool
unfolding count
contains s v = count s v

-- The loops over one set's words.
all_empty : List BitSet64 → Bool
all_empty [] = true
all_empty (w ∷ ws) = if not (Word.is_empty w) then false else all_empty ws

unfoldable pub is_empty : BitSetVar → Bool
unfolding all_empty
is_empty s = all_empty s.sets

sum_size : ℕ → List BitSet64 → ℕ
sum_size res [] = res
sum_size res (w ∷ ws) = sum_size (res + Word.size w) ws

unfoldable pub size : BitSetVar → ℕ
unfolding sum_size
size s = sum_size 0 s.sets

-- The loops over the words of two sets, up to the number of words of the first.
unfoldable pub all_words :
    (BitSet64 → BitSet64 → Bool) → List BitSet64 → List BitSet64 → Option Bool
all_words p [] other = some true
all_words p (w ∷ ws) [] = none
all_words p (w ∷ ws) (o ∷ other) =
    let rest = all_words p ws other in if not (p w o) then some false else rest

unfoldable pub is_subset_of : BitSetVar → BitSetVar → Option Bool
unfolding all_words
is_subset_of s super = all_words Word.is_subset_of s.sets super.sets

unfoldable pub does_intersect_with : BitSetVar → BitSetVar → Option Bool
unfolding all_words
does_intersect_with s other = all_words Word.does_intersect_with s.sets other.sets

unfoldable pub zip_words :
    (BitSet64 → BitSet64 → BitSet64) → List BitSet64 → List BitSet64 → Option (List BitSet64)
zip_words f [] other = some []
zip_words f (w ∷ ws) [] = none
zip_words f (w ∷ ws) (o ∷ other) = zip_words f ws other >>= λ rest. some (f w o ∷ rest)

unfoldable pub union : BitSetVar → BitSetVar → Option BitSetVar
union s other = zip_words Word.union s.sets other.sets >>= λ ws. some (record { sets = ws })

unfoldable pub intersection : BitSetVar → BitSetVar → Option BitSetVar
intersection s other =
    zip_words Word.intersection s.sets other.sets >>= λ ws. some (record { sets = ws })

unfoldable pub difference : BitSetVar → BitSetVar → Option BitSetVar
difference s other =
    zip_words Word.difference s.sets other.sets >>= λ ws. some (record { sets = ws })

-- The iterator's position; `~0u` is the end.
abbrev pub past_end : ℕ
past_end = 2 ^ 32 - 1

-- The `while (true)` of `operator++`, on fuel: each round but the last goes on to the next word.
unfoldable pub seek : ℕ → List BitSet64 → ℕ → ℕ
seek zero words pos = past_end
seek (suc fuel) words pos =
    let offset = pos % 64 in
    elim (get_elem? words (pos / 64)) [
      | none ↦ past_end
      | some word ↦
          let remaining = word.set / 2 ^ offset in
          elim (remaining == 0) [
            | true ↦ seek fuel words (pos + (64 - offset))
            | false ↦ pos + count_trailing_zeros 64 remaining
          ]
    ]

unfoldable pub advance : BitSetVar → ℕ → ℕ
advance s pos = if pos == past_end then pos else seek (length s.sets + 1) s.sets (pos + 1)

first_bit : List BitSet64 → Bool
first_bit [] = false
first_bit (w ∷ ws) = bit_and w.set 1 == 1

unfoldable pub begin : BitSetVar → ℕ
unfolding first_bit
begin s = if is_empty s then past_end else if not (first_bit s.sets) then advance s 0 else 0
