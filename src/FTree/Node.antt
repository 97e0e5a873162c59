-- ===== src/FTree/Node.antt =====
-- factDB/newftree/FNode.hpp and FNode.cpp. A reference to a node of another tree is kept as the
-- node it refers to, which trees that are in place no longer change. The counter of the node ids
-- is passed along.
use fact_db.Prelude.{
  ℕ, zero, suc, ◌+◌, Bool, true, false, ◌&&◌, ◌||◌, Option, none, some, List, [], ◌∷◌, ◌==◌,
  if◌then◌else◌, length, get_elem?,
}
use fact_db.IuSet.{has, merge_ordered}

-- `nodeID`, `ius`, `children`, the position of `mergedChild` among the children, `isNeedLock`.
mutual
  pub data FNode : Type 0 where
    owning : ℕ → List ℕ → Children → Option ℕ → Bool → FNode
    reference : FNode → FNode

  pub data Children : Type 0 where
    no_children : Children
    child : FNode → Children → Children

-- `FNodeOwning()` with the counter.
unfoldable pub new_node : ℕ → FNode × ℕ
new_node counter = (owning counter [] no_children none false, counter + 1)

unfoldable pub get_owning_node : FNode → FNode
get_owning_node (owning i u cs m l) = owning i u cs m l
get_owning_node (reference n) = get_owning_node n

unfoldable pub get_node_id : FNode → ℕ
get_node_id (owning i u cs m l) = i
get_node_id (reference n) = get_node_id n

unfoldable pub get_ius : FNode → List ℕ
get_ius (owning i u cs m l) = u
get_ius (reference n) = get_ius n

unfoldable pub children_list : Children → List FNode
children_list no_children = []
children_list (child c cs) = c ∷ children_list cs

unfoldable pub get_children : FNode → List FNode
unfolding children_list
get_children (owning i u cs m l) = children_list cs
get_children (reference n) = get_children n

unfoldable pub get_merged_node : FNode → Option FNode
get_merged_node (owning i u cs none l) = none
get_merged_node (owning i u cs (some k) l) = get_elem? (children_list cs) k
get_merged_node (reference n) = get_merged_node n

unfoldable pub needs_lock : FNode → Bool
needs_lock (owning i u cs m l) = l
needs_lock (reference n) = needs_lock n

unfoldable pub set_requires_lock : FNode → FNode
set_requires_lock (owning i u cs m l) = owning i u cs m true
set_requires_lock (reference n) = reference (set_requires_lock n)

unfoldable pub is_reference : FNode → Bool
is_reference (owning i u cs m l) = false
is_reference (reference n) = true

unfoldable pub is_leaf : FNode → Bool
is_leaf (owning i u no_children m l) = true
is_leaf (owning i u (child c cs) m l) = false
is_leaf (reference n) = is_leaf n

unfoldable pub contains_iu : FNode → ℕ → Bool
unfolding get_ius
contains_iu n iu = has (get_ius n) iu

unfoldable pub add_ius : FNode → List ℕ → FNode
add_ius (owning i u cs m l) inserted = owning i (merge_ordered u inserted) cs m l
add_ius (reference n) inserted = reference (add_ius n inserted)

-- `children.emplace_back`
unfoldable pub emplace_back : Children → FNode → Children
emplace_back no_children n = child n no_children
emplace_back (child c cs) n = child c (emplace_back cs n)

-- `addChild(child, false)` on a new node, and for all children of a node.
unfoldable mutual
  pub copy_node : FNode → ℕ → FNode × ℕ
  copy_node (owning i u cs m l) counter =
      let r = copy_children cs (counter + 1) in
      (owning counter (merge_ordered [] u) r.0 none false, r.1)
  copy_node (reference n) counter = (reference (get_owning_node n), counter)

  pub copy_children : Children → ℕ → Children × ℕ
  copy_children no_children counter = (no_children, counter)
  copy_children (child c cs) counter =
      let r = copy_node c counter in let rs = copy_children cs r.1 in (child r.0 rs.0, rs.1)

-- The child that `addChild(child, referencing)` puts into the list.
unfoldable pub added_child : FNode → Bool → ℕ → FNode × ℕ
unfolding copy_node is_reference
added_child c referencing counter =
    if referencing || is_reference c
    then (reference (get_owning_node c), counter)
    else copy_node c counter

-- The two `addChild` and `addToMergedNode`; on a reference they are unreachable.
unfoldable pub add_child : FNode → FNode → Bool → ℕ → Option (FNode × ℕ)
unfolding added_child emplace_back
add_child (owning i u cs m l) c referencing counter =
    let r = added_child c referencing counter in some (owning i u (emplace_back cs r.0) m l, r.1)
add_child (reference n) c referencing counter = none

unfoldable pub add_new_child : FNode → FNode → Option FNode
unfolding emplace_back
add_new_child (owning i u cs m l) fresh = some (owning i u (emplace_back cs fresh) m l)
add_new_child (reference n) fresh = none

-- Changes the child at a position.
unfoldable pub update_child : ℕ → (FNode → FNode) → Children → Children
update_child k f no_children = no_children
update_child zero f (child c cs) = child (f c) cs
update_child (suc k) f (child c cs) = child c (update_child k f cs)

unfoldable pub add_to_merged_node : FNode → FNode → ℕ → Option (FNode × ℕ)
unfolding emplace_back add_ius update_child
add_to_merged_node (owning i u cs none l) c counter =
    let made = new_node counter in
    some (
      owning i u (emplace_back cs (add_ius made.0 (get_ius c))) (some (length (children_list cs)))
          l,
      made.1,
    )
add_to_merged_node (owning i u cs (some k) l) c counter =
    some (owning i u (update_child k (λ n. add_ius n (get_ius c)) cs) (some k) l, counter)
add_to_merged_node (reference n) c counter = none

-- `operator==`: the same columns in the same order, as many children, and for each child an equal
-- child of the other node.
unfoldable pub same_ius : List ℕ → List ℕ → Bool
same_ius [] [] = true
same_ius [] (y ∷ ys) = false
same_ius (x ∷ xs) [] = false
same_ius (x ∷ xs) (y ∷ ys) = (x == y) && same_ius xs ys

unfoldable pub any_node : (FNode → Bool) → List FNode → Bool
any_node p [] = false
any_node p (n ∷ ns) = p n || any_node p ns

unfoldable mutual
  pub equal : FNode → FNode → Bool
  equal (owning i u cs m l) other =
      same_ius u (get_ius other)
      && (length (children_list cs) == length (get_children other))
      && all_have_partner cs (get_children other)
  equal (reference n) other = equal n other

  pub all_have_partner : Children → List FNode → Bool
  all_have_partner no_children others = true
  all_have_partner (child c cs) others = any_node (equal c) others && all_have_partner cs others
