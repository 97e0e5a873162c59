-- ===== src/FTree/Columns.antt =====
-- The columns below a node, and what the operations on nodes do to them.
use fact_db.Prelude.{ℕ, suc, ◌+◌, ◌≡◌, refl, sym, ap, Bool, false, ◌||◌, List, [], ◌∷◌, ◌++◌, arith}
use fact_db.IuSet.{has, merge_ordered}
use fact_db.IuSet.Laws.{has-append}
use fact_db.FTree.Node.{
  FNode, Children, owning, reference, no_children, child, get_ius, get_children, children_list,
  contains_iu, get_owning_node, add_ius, emplace_back, copy_node, copy_children, added_child,
}
use fact_db.FTree.Trees.{node_count, children_count}

-- Whether a node or one below it holds the column.
unfoldable mutual
  pub tree_has : ℕ → FNode → Bool
  tree_has iu (owning i u cs m l) = has u iu || children_have iu cs
  tree_has iu (reference n) = tree_has iu n

  pub children_have : ℕ → Children → Bool
  children_have iu no_children = false
  children_have iu (child c cs) = tree_has iu c || children_have iu cs

unfoldable pub any_has : ℕ → List FNode → Bool
any_has iu [] = false
any_has iu (n ∷ ns) = tree_has iu n || any_has iu ns

unfoldable pub total : List FNode → ℕ
total [] = 0
total (n ∷ ns) = node_count n + total ns

any_has-children_list :
    (iu : ℕ) (cs : Children) → any_has iu (children_list cs) ≡ children_have iu cs
unfolding children_list any_has tree_has
any_has-children_list iu no_children = refl
any_has-children_list iu (child c cs) = ap (λ b. tree_has iu c || b) (any_has-children_list iu cs)

total-children_list : (cs : Children) → total (children_list cs) ≡ children_count cs
unfolding children_list total node_count
total-children_list no_children = refl
total-children_list (child c cs) = ap (λ b. node_count c + b) (total-children_list cs)

pub tree_has_split :
    (iu : ℕ) (n : FNode) → tree_has iu n ≡ (contains_iu n iu || any_has iu (get_children n))
unfolding tree_has contains_iu get_ius get_children
tree_has_split iu (owning i u cs m l) = ap (λ b. has u iu || b) (sym (any_has-children_list iu cs))
tree_has_split iu (reference n) = tree_has_split iu n

pub node_count_split : (n : FNode) → node_count n ≡ suc (total (get_children n))
unfolding node_count get_children
node_count_split (owning i u cs m l) = ap suc (sym (total-children_list cs))
node_count_split (reference n) = node_count_split n

pub any_has-append :
    (iu : ℕ) (xs ys : List FNode) → any_has iu (xs ++ ys) ≡ (any_has iu xs || any_has iu ys)
unfolding any_has
any_has-append iu [] ys = refl
any_has-append iu (x ∷ xs) ys = ground (arith, any_has-append iu xs ys)

pub total-append : (xs ys : List FNode) → total (xs ++ ys) ≡ total xs + total ys
unfolding total
total-append [] ys = omega arith
total-append (x ∷ xs) ys = omega (arith, total-append xs ys)

pub children_have-emplace_back :
    (iu : ℕ) (cs : Children) (n : FNode)
    → children_have iu (emplace_back cs n) ≡ (children_have iu cs || tree_has iu n)
unfolding tree_has emplace_back
children_have-emplace_back iu no_children n = ground arith
children_have-emplace_back iu (child c cs) n = ground (arith, children_have-emplace_back iu cs n)

pub tree_has-add_ius :
    (iu : ℕ) (n : FNode) (u : List ℕ) → tree_has iu (add_ius n u) ≡ (tree_has iu n || has u iu)
unfolding tree_has add_ius merge_ordered
tree_has-add_ius iu (owning i v cs m l) u = ground (arith, has-append v u iu)
tree_has-add_ius iu (reference n) u = tree_has-add_ius iu n u

pub tree_has-get_owning_node :
    (iu : ℕ) (n : FNode) → tree_has iu (get_owning_node n) ≡ tree_has iu n
unfolding tree_has get_owning_node
tree_has-get_owning_node iu (owning i u cs m l) = refl
tree_has-get_owning_node iu (reference n) = tree_has-get_owning_node iu n

mutual
  unfolding tree_has copy_node merge_ordered

  copy_node_columns : (iu : ℕ) (n : FNode) (k : ℕ) → tree_has iu (copy_node n k).0 ≡ tree_has iu n
  copy_node_columns iu (owning i u cs m l) k =
      ap (λ b. has u iu || b) (copy_children_columns iu cs (k + 1))
  copy_node_columns iu (reference n) k = tree_has-get_owning_node iu n

  copy_children_columns :
      (iu : ℕ) (cs : Children) (k : ℕ)
      → children_have iu (copy_children cs k).0 ≡ children_have iu cs
  copy_children_columns iu no_children k = refl
  copy_children_columns iu (child c cs) k =
      rw (copy_node_columns iu c k, copy_children_columns iu cs (copy_node c k).1)

-- What `addChild` appends, reference or copy, holds the columns of the node it is given.
pub added_child_columns :
    (iu : ℕ) (n : FNode) (referencing : Bool) (k : ℕ)
    → tree_has iu (added_child n referencing k).0 ≡ tree_has iu n
unfolding added_child tree_has
added_child_columns iu n referencing k =
    ground (arith, tree_has-get_owning_node iu n, copy_node_columns iu n k)
