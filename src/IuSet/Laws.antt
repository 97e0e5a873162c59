-- ===== src/IuSet/Laws.antt =====
-- Membership in the sets that the operations of IUSet.cpp build.
use fact_db.Prelude.{
  ℕ, ◌≡◌, refl, ap, true, not, ◌&&◌, ◌||◌, List, [], ◌∷◌, ◌++◌, arith, ◌==◌, if◌then◌else◌,
  Bool-cases, inl, inr,
}
use fact_db.IuSet.{
  has, insert_iu, insert_range, merge_missing, merge_sets, intersect_into, intersect,
  difference_into, difference, merge_ordered,
}

pub has-append : (xs ys : List ℕ) (iu : ℕ) → has (xs ++ ys) iu ≡ (has xs iu || has ys iu)
unfolding has
has-append [] ys iu = refl
has-append (x ∷ xs) ys iu = ground (arith, has-append xs ys iu)

has-same : (xs : List ℕ) (i j : ℕ) → (i == j) ≡ true → has xs i ≡ has xs j
has-same xs i j h = let e : i ≡ j = ground arith in ap (has xs) e

pub has-insert_iu : (s : List ℕ) (x iu : ℕ) → has (insert_iu s x) iu ≡ (has s iu || (iu == x))
unfolding insert_iu has
has-insert_iu s x iu = ground (arith, has-append s (x ∷ []) iu, has-same s iu x)

pub has-insert_range :
    (s xs : List ℕ) (iu : ℕ) → has (insert_range s xs) iu ≡ (has s iu || has xs iu)
unfolding insert_range has
has-insert_range s [] iu = ground arith
has-insert_range s (x ∷ xs) iu =
    ground (arith, has-insert_range (insert_iu s x) xs iu, has-insert_iu s x iu)

has-merge_missing :
    (s merged xs : List ℕ) (iu : ℕ)
    → (has s iu || has (merge_missing s merged xs) iu) ≡ (has s iu || (has merged iu || has xs iu))
unfolding merge_missing has
has-merge_missing s merged [] iu = ground arith
has-merge_missing s merged (x ∷ xs) iu = ground (
  arith,
  has-merge_missing s (insert_iu merged x) xs iu,
  has-merge_missing s merged xs iu,
  has-insert_iu merged x iu,
  has-same s iu x,
)

has-merge_missing_keeps :
    (s merged xs : List ℕ) (iu : ℕ)
    → has merged iu ≡ true
    → has (merge_missing s merged xs) iu ≡ true
unfolding merge_missing
has-merge_missing_keeps s merged [] iu h = h
has-merge_missing_keeps s merged (x ∷ xs) iu h =
    has-merge_missing_keeps s (if not (has s x) then insert_iu merged x else merged) xs iu
      (ground (arith, has-insert_iu merged x iu))

has-intersect_into :
    (result xs other : List ℕ) (iu : ℕ)
    → has (intersect_into result xs other) iu ≡ (has result iu || (has xs iu && has other iu))
unfolding intersect_into has
has-intersect_into result [] other iu = ground arith
has-intersect_into result (x ∷ xs) other iu = ground (
  arith,
  has-intersect_into (insert_iu result x) xs other iu,
  has-intersect_into result xs other iu,
  has-insert_iu result x iu,
  has-same other iu x,
)

has-difference_into :
    (result xs other : List ℕ) (iu : ℕ)
    → has (difference_into result xs other) iu
      ≡ (has result iu || (has xs iu && not (has other iu)))
unfolding difference_into has
has-difference_into result [] other iu = ground arith
has-difference_into result (x ∷ xs) other iu = ground (
  arith,
  has-difference_into (insert_iu result x) xs other iu,
  has-difference_into result xs other iu,
  has-insert_iu result x iu,
  has-same other iu x,
)

pub has-merge_sets :
    (s other : List ℕ) (iu : ℕ) → has (merge_sets s other) iu ≡ (has s iu || has other iu)
unfolding merge_sets
has-merge_sets s other iu = elim (Bool-cases (has s iu)) [
  | inl e ↦ ground (arith, has-merge_missing_keeps s s other iu e)
  | inr e ↦ ground (arith, has-merge_missing s s other iu)
]

-- Merging, intersection and difference of two sets of columns answer contains as or, and, and
-- and-not of the answers of the two sets, and so do += and the merge of ordered sets for or.
pub sets_members :
    (s other : List ℕ) (iu : ℕ)
    → (has (merge_sets s other) iu ≡ (has s iu || has other iu))
      × (has (insert_range s other) iu ≡ (has s iu || has other iu))
      × (has (merge_ordered s other) iu ≡ (has s iu || has other iu))
      × (has (intersect s other) iu ≡ (has s iu && has other iu))
      × (has (difference s other) iu ≡ (has s iu && not (has other iu)))
unfolding intersect difference has merge_ordered
sets_members s other iu = (
  has-merge_sets s other iu,
  has-insert_range s other iu,
  has-append s other iu,
  has-intersect_into [] s other iu,
  has-difference_into [] s other iu,
)
