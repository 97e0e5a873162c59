-- ===== src/IuSet.antt =====
-- factDB/infra/IUSet.hpp and IUSet.cpp: sets of columns. A column stands for its table and name,
-- by which the source compares; a set is the list of its elements in the order of insertion.
pub mod Laws
use fact_db.Prelude.{
  ℕ, Bool, true, false, not, ◌&&◌, ◌||◌, Option, none, some, List, [], ◌∷◌, ◌++◌, ◌==◌,
  if◌then◌else◌,
}

-- `contains` of both kinds of sets.
unfoldable pub has : List ℕ → ℕ → Bool
has [] iu = false
has (x ∷ xs) iu = (iu == x) || has xs iu

unfoldable pub find_iu : List ℕ → ℕ → Option ℕ
find_iu [] iu = none
find_iu (x ∷ xs) iu = let rest = find_iu xs iu in if iu == x then some x else rest

-- `insert` of the unordered set.
unfoldable pub insert_iu : List ℕ → ℕ → List ℕ
insert_iu s iu = if has s iu then s else s ++ iu ∷ []

-- `+=` of the unordered set, and the constructor from an ordered one.
unfoldable pub insert_range : List ℕ → List ℕ → List ℕ
insert_range s [] = s
insert_range s (x ∷ xs) = insert_range (insert_iu s x) xs

-- `IUSet::merge`: the test is on the set, not on what has been merged so far.
unfoldable pub merge_missing : List ℕ → List ℕ → List ℕ → List ℕ
merge_missing s merged [] = merged
merge_missing s merged (x ∷ xs) =
    merge_missing s (if not (has s x) then insert_iu merged x else merged) xs

unfoldable pub merge_sets : List ℕ → List ℕ → List ℕ
merge_sets s other = merge_missing s s other

-- `intersect` and `difference` with the set that is being built.
unfoldable pub intersect_into : List ℕ → List ℕ → List ℕ → List ℕ
intersect_into result [] other = result
intersect_into result (x ∷ xs) other =
    intersect_into (if has other x then insert_iu result x else result) xs other

unfoldable pub intersect : List ℕ → List ℕ → List ℕ
intersect s other = intersect_into [] s other

unfoldable pub difference_into : List ℕ → List ℕ → List ℕ → List ℕ
difference_into result [] other = result
difference_into result (x ∷ xs) other =
    difference_into (if not (has other x) then insert_iu result x else result) xs other

unfoldable pub difference : List ℕ → List ℕ → List ℕ
difference s other = difference_into [] s other

-- `OrderedIUSet::merge` keeps duplicates.
unfoldable pub merge_ordered : List ℕ → List ℕ → List ℕ
merge_ordered s other = s ++ other
