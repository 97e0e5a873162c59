-- ===== src/Tests/Sets.antt =====
-- BitSet.hpp and BitSet.cpp at concrete sets.
use fact_db.Prelude.{
  ℕ, ◌↔◌, ◌<◌, Bool, ◌≡◌, refl, true, false, not, ◌&&◌, ◌||◌, none, some, [], ◌∷◌, arith, length,
}
use fact_db.Prelude.Bits.{count_trailing_zeros, bit_width}
use fact_db.BitSet.Word.{
  empty_set, is_empty, BitSet64, from_list, from_range, contains, count, insert, union,
  intersection, difference, to_list, size, is_subset_of, does_intersect_with, back, front,
  next_permutation, swap, is_subset_not_equal_of, clear, equal,
}
use fact_db.BitSet.Word.Iteration.{members, to_list_lem}
use fact_db.BitSet.Var
use fact_db.BitSet.Var.{BitSetVar}
use fact_db.BitSet.Var.Members.{slotwise_members}
use fact_db.BitSet.Var.Intersect.{
  is_subset_of-members, is_subset_of_complete, SharesIn, does_intersect_with_lem,
}

-- {1, 3, 5} and {3, 4}.
abbrev odd : BitSet64
odd = record { set = 42 }

abbrev middle : BitSet64
middle = record { set = 24 }

from_list_runs : from_list (5 ∷ 1 ∷ 3 ∷ []) ≡ some odd
unfolding from_list
from_list_runs = refl

to_list_runs : to_list odd ≡ 1 ∷ 3 ∷ 5 ∷ []
unfolding to_list count_trailing_zeros
to_list_runs = refl

back_runs : back odd ≡ some 5
unfolding back bit_width
back_runs = refl

front_runs : front middle ≡ 3
unfolding front count_trailing_zeros
front_runs = refl

swap_runs : swap odd middle ≡ (middle, odd)
unfolding swap
swap_runs = refl

next_permutation_runs : next_permutation odd 6 ≡ some (record { set = 43 })
unfolding next_permutation
next_permutation_runs = refl

proper_subset_runs : is_subset_not_equal_of middle (clear middle) ≡ false
unfolding is_subset_not_equal_of clear
proper_subset_runs = refl

equal_runs : equal odd middle ≡ false
unfolding equal
equal_runs = refl

range_needs_capacity : from_range 0 64 ≡ none
unfolding from_range
range_needs_capacity = refl

to_list_lem_example :
    (to_list odd ≡ members (contains odd) 64 0) × (length (to_list odd) ≡ size odd)
to_list_lem_example = to_list_lem odd (omega arith)

-- Two sets of two words that share the element 3.
abbrev low : BitSetVar
low = record { sets = odd ∷ record { set = 0 } ∷ [] }

abbrev high : BitSetVar
high = record { sets = middle ∷ record { set = 2 } ∷ [] }

new_runs : Var.new 100 (3 ∷ 4 ∷ 65 ∷ []) ≡ some high
unfolding Var.new Var.insert insert empty_set
new_runs = refl

advance_runs :
    (Var.begin high ≡ 3) × (Var.advance high 4 ≡ 65) × (Var.advance high 65 ≡ Var.past_end)
unfolding Var.begin Var.advance Var.is_empty Var.seek is_empty count_trailing_zeros
advance_runs = (refl, refl, refl)

slotwise_members_example :
    (Var.count (record { sets = record { set = 58 } ∷ record { set = 2 } ∷ [] }) 65
      ≡ some (false || true))
    × (Var.count (record { sets = record { set = 8 } ∷ record { set = 0 } ∷ [] }) 65
        ≡ some (false && true))
    × (Var.count (record { sets = record { set = 34 } ∷ record { set = 0 } ∷ [] }) 65
        ≡ some (false && not true))
slotwise_members_example =
    slotwise_members low high (record { sets = record { set = 8 } ∷ record { set = 0 } ∷ [] })
      (record { sets = record { set = 58 } ∷ record { set = 2 } ∷ [] })
      (record { sets = record { set = 34 } ∷ record { set = 0 } ∷ [] }) 65 false true (omega arith)
      (unfold Var.count count in refl) (unfold Var.count count in refl)
      (unfold Var.union Var.zip_words union in refl)
      (unfold Var.intersection Var.zip_words intersection in refl)
      (unfold Var.difference Var.zip_words difference in refl)

is_subset_of-members_example : true ≡ true
is_subset_of-members_example =
    is_subset_of-members low low 3 true (unfold Var.is_subset_of is_subset_of in refl)
      (unfold Var.count count in refl) (unfold Var.count count in refl)

is_subset_of_complete_example : Var.is_subset_of low low ≡ some true
is_subset_of_complete_example = is_subset_of_complete low low refl (omega arith) (λ v h. h)

-- The sets share the element 3, but none in their second slot.
does_intersect_with_misses : Var.does_intersect_with low high ≡ some false
unfolding Var.does_intersect_with does_intersect_with
does_intersect_with_misses = refl

does_intersect_with_lem_example :
    (ans : Bool) × (Var.does_intersect_with low high ≡ some ans)
    × ((ans ≡ true) ↔ ((i : ℕ) → i < 2 → SharesIn low high i))
does_intersect_with_lem_example = does_intersect_with_lem low high (omega arith) (omega arith)
