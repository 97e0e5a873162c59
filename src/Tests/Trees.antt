-- ===== src/Tests/Trees.antt =====
-- Factorized trees and sets of columns at concrete nodes.
use fact_db.Prelude.{ℕ, ◌≡◌, refl, true, false, not, ◌&&◌, ◌||◌, none, some, List, [], ◌∷◌}
use fact_db.IuSet.{has, merge_sets, insert_range, merge_ordered, intersect, difference}
use fact_db.IuSet.Laws.{sets_members}
use fact_db.FTree.Node.{FNode, owning, reference, no_children, child, get_node_id, equal}
use fact_db.FTree.Trees.{
  FTree, Store, tree_contains_iu, collect_ius, required_nodes, create_iterator, collect_nodes,
}
use fact_db.FTree.Columns.{tree_has}
use fact_db.FTree.Walk.{contains_and_collect}
use fact_db.FTree.Merge.{create_path, merge_nodes, merge_trees}
use fact_db.FTree.Required.{covers, required_nodes-covers}
use fact_db.FTree.Merge.Keeps.{merge_nodes_columns}

sets_members_example :
    (has (merge_sets (1 ∷ 2 ∷ []) (2 ∷ 3 ∷ [])) 2 ≡ (has (1 ∷ 2 ∷ []) 2 || has (2 ∷ 3 ∷ []) 2))
    × (has (insert_range (1 ∷ 2 ∷ []) (2 ∷ 3 ∷ [])) 2 ≡ (has (1 ∷ 2 ∷ []) 2 || has (2 ∷ 3 ∷ []) 2))
    × (has (merge_ordered (1 ∷ 2 ∷ []) (2 ∷ 3 ∷ [])) 2 ≡ (has (1 ∷ 2 ∷ []) 2 || has (2 ∷ 3 ∷ []) 2))
    × (has (intersect (1 ∷ 2 ∷ []) (2 ∷ 3 ∷ [])) 2 ≡ (has (1 ∷ 2 ∷ []) 2 && has (2 ∷ 3 ∷ []) 2))
    × (has (difference (1 ∷ 2 ∷ []) (2 ∷ 3 ∷ [])) 2
        ≡ (has (1 ∷ 2 ∷ []) 2 && not (has (2 ∷ 3 ∷ []) 2)))
sets_members_example = sets_members (1 ∷ 2 ∷ []) (2 ∷ 3 ∷ []) 2

-- A root with column 1 and two children with the columns 2 and 3, and a tree of one node.
abbrev orders : FNode
orders =
    owning 0 (1 ∷ [])
      (child (owning 1 (2 ∷ []) no_children none false)
        (child (owning 2 (3 ∷ []) no_children none false) no_children))
      none false

abbrev parts : FNode
parts = owning 3 (4 ∷ []) no_children none false

abbrev blank : FNode
blank = owning 4 [] no_children none false

-- The node with column 2 is required, and with it the root.
required_nodes_runs : required_nodes (2 ∷ []) orders ≡ some (1 ∷ 0 ∷ [])
unfolding required_nodes fact_db.FTree.Node.get_children fact_db.FTree.Trees.check_if_required
    fact_db.FTree.Trees.any_child_required has fact_db.FTree.Trees.contains_any
    fact_db.FTree.Node.contains_iu fact_db.IuSet.insert_iu get_node_id
required_nodes_runs = refl

-- The columns 1 and 2 form the path; column 3 is referred to; the inserted node carries a lock.
merge_nodes_runs :
    merge_nodes false true
      (λ n. has (0 ∷ 1 ∷ []) (get_node_id n))
      (0 ∷ 1 ∷ [])
      orders
      (λ n. has (3 ∷ []) (get_node_id n))
      (3 ∷ [])
      parts
      blank
      5
    ≡ some (
      owning 4
          (1 ∷ [])
          (child
            (owning 5
              (2 ∷ [])
              (child (owning 6 (4 ∷ []) no_children none true) no_children)
              none
              false)
            (child (reference (owning 2 (3 ∷ []) no_children none false)) no_children))
          (some 0)
          false,
      7,
    )
unfolding merge_nodes create_path fact_db.FTree.Merge.paper_loop fact_db.FTree.Trees.node_count
    fact_db.FTree.Node.get_children has get_node_id fact_db.FTree.Merge.at_merged
    fact_db.FTree.Node.add_to_merged_node fact_db.FTree.Node.add_child
    fact_db.FTree.Node.get_merged_node fact_db.FTree.Node.new_node fact_db.FTree.Node.add_new_child
    merge_ordered fact_db.FTree.Node.set_requires_lock fact_db.FTree.Node.get_owning_node
    fact_db.FTree.Node.get_ius
merge_nodes_runs = refl

-- The comparison of nodes is not symmetric: two equal children find one partner.
equal_is_one_sided :
    (equal
        (owning 0 [] (child parts (child parts no_children)) none false)
        (owning 1 [] (child parts (child blank no_children)) none false)
      ≡ true)
    × (equal
          (owning 1 [] (child parts (child blank no_children)) none false)
          (owning 0 [] (child parts (child parts no_children)) none false)
        ≡ false)
unfolding equal fact_db.FTree.Node.same_ius fact_db.FTree.Node.get_ius
    fact_db.FTree.Node.children_list fact_db.FTree.Node.get_children fact_db.FTree.Node.any_node
equal_is_one_sided = (refl, refl)

contains_and_collect_example :
    (tree_contains_iu orders 3 ≡ some (tree_has 3 orders))
    × ((ius : List ℕ) × (collect_ius orders ≡ some ius) × (has ius 3 ≡ tree_has 3 orders))
contains_and_collect_example = contains_and_collect orders 3

merge_nodes_columns_example :
    (merged : FNode) × (k' : ℕ) × (merge_nodes false true
        (λ n. has (0 ∷ 1 ∷ []) (get_node_id n))
        (0 ∷ 1 ∷ [])
        orders
        (λ n. has (3 ∷ []) (get_node_id n))
        (3 ∷ [])
        parts
        blank
        5
      ≡ some (merged, k'))
    × ((iu : ℕ)
        → tree_has iu merged ≡ (tree_has iu blank || (tree_has iu orders || tree_has iu parts)))
merge_nodes_columns_example =
    merge_nodes_columns false true (λ n. has (0 ∷ 1 ∷ []) (get_node_id n)) (0 ∷ 1 ∷ []) orders
      (λ n. has (3 ∷ []) (get_node_id n)) (3 ∷ []) parts blank 5 0 (λ _ n h. h) (λ _ n h. h) tt

-- A required node that is not composed fails the assertion of the paper's variant.
create_path_refuses :
    create_path false (λ n. has (0 ∷ 1 ∷ []) (get_node_id n)) [] orders blank 5 ≡ none
unfolding create_path fact_db.FTree.Merge.paper_loop fact_db.FTree.Trees.node_count
    fact_db.FTree.Node.get_children has get_node_id
create_path_refuses = refl

required_nodes-covers_example :
    (required : List ℕ) × (required_nodes (2 ∷ []) orders ≡ some required)
    × (covers (2 ∷ []) required orders ≡ true)
required_nodes-covers_example = required_nodes-covers (2 ∷ []) orders
