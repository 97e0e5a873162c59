-- ===== src/UnionFind/Values.antt =====
-- The template `UnionFind<T>` of factDB/infra/UnionFind.hpp: the forest over values, each of which
-- has the index at which it was first met. A value is a column of a table, which stands for its
-- table and name; `none` is a failed assertion or what the forest answers with `none`.
pub mod Related
pub mod Extended
pub mod Classes
use fact_db.Prelude.{
  ℕ, Bool, true, false, Option, none, some, List, [], ◌∷◌, ◌++◌, ◌==◌, if◌then◌else◌, ◌>>=◌, length,
}
use fact_db.UnionFind.{Elements}
use fact_db.UnionFind

pub record ValueUnionFind : Type 0 where
  pub union_find : Elements
  pub type2id : List (ℕ × ℕ)
  pub id2type : List ℕ

-- A hash map from columns to numbers.
unfoldable pub lookup : List (ℕ × ℕ) → ℕ → Option ℕ
lookup [] key = none
lookup ((k, v) ∷ entries) key = let rest = lookup entries key in if k == key then some v else rest

unfoldable pub new : ValueUnionFind
new = record { union_find = []; type2id = []; id2type = [] }

unfoldable pub contains : ValueUnionFind → ℕ → Bool
unfolding lookup
contains u entry = elim (lookup u.type2id entry) [ none ↦ false | some id ↦ true ]

-- `getId` of the class as it is, which adds an unknown value at the end, and of the constant class.
unfoldable pub get_id : ValueUnionFind → ℕ → ValueUnionFind × ℕ
unfolding lookup
get_id u val = elim (lookup u.type2id val) [
  | some id ↦ (u, id)
  | none ↦
      let id = length u.union_find in
      (
        record {
          union_find = u.union_find ++ record { representative = 0; rank = 0 } ∷ [];
          type2id = (val, id) ∷ u.type2id;
          id2type = u.id2type ++ val ∷ [];
        },
        id,
      )
]

unfoldable pub get_id_const : ValueUnionFind → ℕ → Option ℕ
unfolding lookup
get_id_const u val = lookup u.type2id val

unfoldable pub add_element : ValueUnionFind → ℕ → Option (ValueUnionFind × ℕ)
unfolding get_id
add_element u val = do
  let known = get_id u val
  (rep, es) ← UnionFind.find known.0.union_find known.1
  some (record known.0 { union_find = es }, rep)

-- The two indices are taken one after the other; their order matters only if both are unknown.
unfoldable pub union_sets : ValueUnionFind → ℕ → ℕ → Option (ValueUnionFind × ℕ)
unfolding get_id
union_sets u s1 s2 = do
  let known1 = get_id u s1
  let known2 = get_id known1.0 s2
  (rep, es) ← UnionFind.union_sets known2.0.union_find known1.1 known2.1
  some (record known2.0 { union_find = es }, rep)

unfoldable pub find_const : ValueUnionFind → ℕ → Option ℕ
unfolding get_id_const
find_const u entry = do id ← get_id_const u entry; UnionFind.find_const u.union_find id

unfoldable pub upper_bound : ValueUnionFind → ℕ
upper_bound u = length u.union_find
