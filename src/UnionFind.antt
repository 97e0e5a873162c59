-- ===== src/UnionFind.antt =====
-- factDB/infra/UnionFind.hpp and UnionFind.cpp: `UnionFindBase`, a forest with union by rank and
-- path compression. `none` stands for an access out of bounds, a failed assertion, or a loop that
-- has used up its fuel.
pub mod Paths
pub mod Find
pub mod Hang
pub mod Union
pub mod Queries
pub mod Closure
pub mod Append
pub mod Merge
pub mod Values
use fact_db.Prelude.{
  ℕ, zero, suc, ◌+◌, ◌-◌, ◌<◌, Bool, true, false, not, ◌&&◌, Option, none, some, List, [], ◌∷◌, ltb,
  ◌==◌, if◌then◌else◌, ◌>>=◌, length, get_elem?, set, replicate,
}

-- `representative` is the index plus one, zero for none.
pub record Element : Type 0 where
  pub representative : ℕ
  pub rank : ℕ

-- The class's one field is the vector of elements.
abbrev pub Elements : Type 0
Elements = List Element

unfoldable pub new : ℕ → Elements
new size = replicate size (record { representative = 0; rank = 0 })

-- The source adds in 32 bits; the forest is meant to have fewer than 2^32 - 1 elements.
unfoldable pub set_representative : Element → ℕ → Element
set_representative e rep = record e { representative = rep + 1 }

-- `while (elements[r].hasRepresentative()) r = elements[r].getRepresentative();`
unfoldable pub climb : ℕ → Elements → ℕ → Option ℕ
climb zero es r = none
climb (suc fuel) es r = elim (get_elem? es r) [
  | none ↦ none
  | some e ↦ elim e.representative [ zero ↦ some r | suc p ↦ climb fuel es p ]
]

-- The loop that points every element on the path at the representative.
unfoldable pub compress : ℕ → Elements → ℕ → ℕ → Option Elements
unfolding set_representative
compress zero es iter rep = none
compress (suc fuel) es iter rep = elim (iter == rep) [
  | true ↦ some es
  | false ↦ elim (get_elem? es iter) [
    | none ↦ none
    | some e ↦ elim e.representative [
      | zero ↦ none
      | suc next ↦ compress fuel (set es iter (set_representative e rep)) next rep
    ]
  ]
]

-- The rounds that suffice.
unfoldable pub rounds : Elements → ℕ
rounds es = length es + 1

unfoldable pub find : Elements → ℕ → Option (ℕ × Elements)
find es entry = elim (get_elem? es entry) [
  | none ↦ none
  | some e ↦ elim e.representative [
    | zero ↦ some (entry, es)
    | suc rep ↦ elim (get_elem? es rep) [
      | none ↦ none
      | some parent ↦ elim parent.representative [
        | zero ↦ some (rep, es)
        | suc _ ↦ climb (rounds es) es rep >>= λ root.
            compress (rounds es) es entry root >>= λ es'. some (root, es')
      ]
    ]
  ]
]

unfoldable pub find_const : Elements → ℕ → Option ℕ
find_const es entry = elim (get_elem? es entry) [
  | none ↦ none
  | some e ↦ elim e.representative [ zero ↦ some entry | suc rep ↦ climb (rounds es) es rep ]
]

-- The four ways to link two roots of elements `e1` and `e2`.
unfoldable pub link : Elements → ℕ → ℕ → Element → Element → ℕ × Elements
unfolding set_representative
link es rep1 rep2 e1 e2 =
    if ltb e1.rank e2.rank
    then (rep2, set es rep1 (set_representative e1 rep2))
    else if ltb e2.rank e1.rank
    then (rep1, set es rep2 (set_representative e2 rep1))
    else if ltb rep1 rep2
    then (
      rep1,
      set (set es rep2 (set_representative e2 rep1)) rep1 (record e1 { rank = e1.rank + 1 }),
    )
    else (
      rep2,
      set (set es rep1 (set_representative e1 rep2)) rep2 (record e2 { rank = e2.rank + 1 }),
    )

unfoldable pub union_sets : Elements → ℕ → ℕ → Option (ℕ × Elements)
union_sets es s1 s2 = do
  (rep1, es1) ← find es s1
  (rep2, es2) ← find es1 s2
  if rep1 == rep2
      then some (rep1, es2)
      else get_elem? es2 rep1 >>= λ e1. get_elem? es2 rep2 >>= λ e2. some (link es2 rep1 rep2 e1 e2)

-- The loops of `merge`, `optimizeAccessPaths` and `isSingleSet`: `n` rounds from index `i`.
unfoldable pub merge_from :
    ℕ → ℕ → Elements → Elements → Elements → Option (Elements × Elements × Elements)
merge_from zero i a b result = some (a, b, result)
merge_from (suc n) i a b result = do
  (x, a') ← find a i
  (y, b') ← find b i
  (_, result') ← union_sets result x y
  merge_from n (i + 1) a' b' result'

-- `merge` changes both arguments, by compression; the result is the third.
unfoldable pub merge : Elements → Elements → Option (Elements × Elements × Elements)
unfolding merge_from
merge a b = if length a == length b then merge_from (length a) 0 a b a else none

unfoldable pub compress_from : ℕ → ℕ → Elements → Option Elements
compress_from zero i es = some es
compress_from (suc n) i es = find es i >>= λ r. compress_from n (i + 1) r.1

unfoldable pub optimize_access_paths : Elements → Option Elements
unfolding compress_from
optimize_access_paths es = compress_from (length es) 0 es

unfoldable pub all_find : ℕ → ℕ → ℕ → Elements → Option (Bool × Elements)
all_find zero iter id es = some (true, es)
all_find (suc n) iter id es = find es iter >>= λ r.
    if not (id == r.0) then some (false, r.1) else all_find n (iter + 1) id r.1

unfoldable pub is_single_set : Elements → Option (Bool × Elements)
unfolding all_find
is_single_set es = find es 0 >>= λ r. all_find (length es - 1) 1 r.0 r.1
