-- ===== src/Optimizer/DpSize/JoinCost.antt =====
-- What a join tree costs: the cardinalities of all its joins.
use fact_db.Prelude.{ℕ, ◌+◌, ◌^◌, ◌≡◌, sym, Bool, some, [], ◌∷◌}
use fact_db.BitSet.Word.{BitSet64, from_list, union}
use fact_db.BitSet.Word.Single.{single_word}
use fact_db.Optimizer.DpSize.Relations.{JoinTree, leaf, node, Joins}

-- The set of the relations of a tree.
unfoldable pub set_of : JoinTree → BitSet64
set_of (leaf r) = record { set = 2 ^ r }
set_of (node l r) = union (set_of l) (set_of r)

unfoldable pub join_cost : (BitSet64 → ℕ) → JoinTree → ℕ
join_cost card (leaf r) = 0
join_cost card (node l r) = card (union (set_of l) (set_of r)) + join_cost card l + join_cost card r

pub from_list-set_of : (r : ℕ) (x : BitSet64) → from_list (r ∷ []) ≡ some x → set_of (leaf r) ≡ x
unfolding set_of
from_list-set_of r x h = single_word r x h

module _ (has_join_edge : BitSet64 → BitSet64 → Bool) where
  pub Joins-set_of : (t : JoinTree) (x : BitSet64) → Joins has_join_edge t x → set_of t ≡ x
  unfolding Joins set_of
  Joins-set_of (leaf r) x single = from_list-set_of r x single
  Joins-set_of (node l r) x (a, b, left, right, disjoint, edge, union_of) =
      rw (Joins-set_of l a left) (rw (Joins-set_of r b right) (sym union_of))
