-- ===== src/FTree/Merge.antt =====
-- The part of factDB/newftree/FTree.cpp that merges trees: `createRootToLeafPath`, naive and as in
-- the paper, and `mergeTrees`. A pointer into the path of merged nodes that is being built is the
-- depth of its node on that path.
pub mod Paths
pub mod Keeps
pub mod Composed
use fact_db.Prelude.{
  ℕ, zero, suc, ◌+◌, Bool, true, false, not, ◌&&◌, Option, none, some, List, [], ◌∷◌, ◌++◌, ◌==◌,
  if◌then◌else◌, ◌>>=◌, length, get_elem?, set,
}
use fact_db.IuSet.{has, insert_range}
use fact_db.FTree.Node.{
  FNode, Children, owning, reference, no_children, child, new_node, get_node_id, get_ius,
  get_children, children_list, add_ius, add_child, add_new_child, add_to_merged_node, update_child,
  set_requires_lock, get_merged_node,
}
use fact_db.FTree.Trees.{
  FIterator, FTree, Store, IteratorRef, node_count, get_iterator, is_required, transitive_required,
  composed_available_nodes,
}

-- The loop of the naive variant: the children of a required node go on top of the stack, in order.
unfoldable pub naive_loop :
    (FNode → Bool) → List ℕ → ℕ → List FNode → FNode → ℕ → Option (FNode × ℕ)
naive_loop required composed zero todos root counter = none
naive_loop required composed (suc fuel) [] root counter = some (root, counter)
naive_loop required composed (suc fuel) (cur ∷ todos) root counter = elim (required cur) [
  | true ↦
      naive_loop required composed fuel (get_children cur ++ todos) (add_ius root (get_ius cur))
        counter
  | false ↦ elim (add_child root cur (not (has composed (get_node_id cur))) counter) [
    | none ↦ none
    | some (root', counter') ↦ naive_loop required composed fuel todos root' counter'
  ]
]

-- Changes the node at a depth on the path of merged nodes.
unfoldable pub at_merged : ℕ → (FNode → Option (FNode × ℕ)) → FNode → Option (FNode × ℕ)
unfolding update_child
at_merged zero f n = f n
at_merged (suc d) f (owning i u cs none l) = none
at_merged (suc d) f (owning i u cs (some k) l) = get_elem? (children_list cs) k >>= λ c.
    at_merged d f c >>= λ r. some (owning i u (update_child k (λ _. r.0) cs) (some k) l, r.1)
at_merged (suc d) f (reference n) = none

unfoldable pub with_parent : ℕ → List FNode → List (ℕ × FNode)
with_parent d [] = []
with_parent d (c ∷ cs) = (d, c) ∷ with_parent d cs

-- The loop of the variant of the paper; what is pushed carries its new parent. A required node that
-- is not composed fails an assertion.
unfoldable pub paper_loop :
    (FNode → Bool) → List ℕ → ℕ → List (ℕ × FNode) → FNode → ℕ → Option (FNode × ℕ)
unfolding with_parent
paper_loop required composed zero todos root counter = none
paper_loop required composed (suc fuel) [] root counter = some (root, counter)
paper_loop required composed (suc fuel) ((d, cur) ∷ todos) root counter = elim (required cur) [
  | true ↦ elim (has composed (get_node_id cur)) [
    | false ↦ none
    | true ↦ elim (at_merged d (λ n. add_to_merged_node n cur counter) root) [
      | none ↦ none
      | some (root', counter') ↦
          paper_loop required composed fuel (with_parent (suc d) (get_children cur) ++ todos) root'
            counter'
    ]
  ]
  | false ↦
      elim (at_merged d (λ n. add_child n cur (not (has composed (get_node_id cur))) counter)
        root) [
          | none ↦ none
          | some (root', counter') ↦ paper_loop required composed fuel todos root' counter'
        ]
]

-- `createRootToLeafPath` with the setting `naiveMerge`, the test for required nodes and the set of
-- composed nodes.
unfoldable pub create_path : Bool → (FNode → Bool) → List ℕ → FNode → FNode → ℕ → Option (FNode × ℕ)
create_path naive required composed source new_root counter =
    let root = add_ius new_root (get_ius source) in
    elim naive [
      | true ↦ naive_loop required composed (node_count source) (get_children source) root counter
      | false ↦
          paper_loop required composed (node_count source) (with_parent 0 (get_children source))
            root counter
    ]

-- The end of the path of merged nodes, on fuel.
unfoldable pub path_end : ℕ → FNode → Option ℕ
path_end zero n = none
path_end (suc fuel) n = elim (get_merged_node n) [
  | none ↦ some 0
  | some m ↦ path_end fuel m >>= λ d. some (suc d)
]

-- `mergeTrees` on the nodes: the path of the upper tree, and below its end a new node with the path
-- of the lower tree. Locks are needed for an insertion at the bottom only.
unfoldable pub merge_nodes :
    Bool
    → Bool
    → (FNode → Bool)
    → List ℕ
    → FNode
    → (FNode → Bool)
    → List ℕ
    → FNode
    → FNode
    → ℕ
    → Option (FNode × ℕ)
unfolding path_end
merge_nodes naive bottom upper_required upper_composed upper lower_required lower_composed lower
      root counter =
    create_path naive upper_required upper_composed upper root counter >>= λ a.
    path_end (suc (node_count a.0)) a.0 >>= λ d.
    create_path naive lower_required lower_composed lower (new_node a.1).0 (new_node a.1).1 >>= λ b.
    let inserted = if bottom then set_requires_lock b.0 else b.0 in
    at_merged d (λ n. add_new_child n inserted >>= λ n'. some (n', b.1)) a.0

-- The iterators' test for required nodes as a Boolean; a chain that does not end has no answer.
unfoldable pub required_test : ℕ → Store → FIterator → FNode → Bool
unfolding is_required
required_test fuel store iter n = elim (is_required fuel store iter n) [ none ↦ false | some b ↦ b ]

-- The composed nodes of an iterator's tree, with the required nodes of the iterator.
unfoldable pub composed_nodes : ℕ → Store → FIterator → FTree → Option (List ℕ)
unfolding composed_available_nodes transitive_required
composed_nodes fuel store iter tree = composed_available_nodes fuel store tree >>= λ available.
    transitive_required fuel store iter >>= λ required. some (insert_range available required)

-- The assertion on the merged tree's root.
unfoldable pub is_blank : FNode → Bool
is_blank n = (length (get_ius n) == 0) && (length (get_children n) == 0)

-- The merged tree with its nodes, linked to the two iterators.
unfoldable pub set_merged : Store → ℕ → FTree → FNode → IteratorRef → IteratorRef → Option Store
unfolding is_blank
set_merged store merged tree root upper lower =
    let linked : FTree = record tree {
      root_node = root;
      top_iterator = some upper;
      lower_iterator = some lower;
    } in
    if is_blank tree.root_node then some (set store merged linked) else none

unfoldable pub set_inserted_tree : Store → ℕ → ℕ → Option Store
set_inserted_tree store t merged =
    get_elem? store t >>= λ tree. some (set store t (record tree { inserted_tree = some merged }))

-- `mergeTrees` into the tree at a position of the store, with the counter of node ids. The fuel is
-- for chains of iterators and of merged trees.
unfoldable pub merge_trees :
    ℕ → Bool → Bool → Store → ℕ → IteratorRef → IteratorRef → ℕ → Option (Store × ℕ)
unfolding merge_nodes composed_nodes required_test set_merged set_inserted_tree
merge_trees fuel naive bottom store merged left right counter = do
  let upper_ref = if bottom then left else right
  let lower_ref = if bottom then right else left
  tree ← get_elem? store merged
  upper ← get_iterator store upper_ref
  lower ← get_iterator store lower_ref
  upper_tree ← get_elem? store upper.owner
  lower_tree ← get_elem? store lower.owner
  upper_composed ← composed_nodes fuel store upper upper_tree
  lower_composed ← composed_nodes fuel store lower lower_tree
  nodes ←
      merge_nodes naive bottom (required_test fuel store upper) upper_composed upper_tree.root_node
        (required_test fuel store lower) lower_composed lower_tree.root_node tree.root_node counter
  linked ← set_merged store merged tree nodes.0 upper_ref lower_ref
  up ← set_inserted_tree linked upper.owner merged
  both ← set_inserted_tree up lower.owner merged
  some (both, nodes.1)

-- `getMergingIterator`: of the two iterators of the tree that this one was merged into, the one on
-- this tree, and the lower one if the upper one is on another tree.
unfoldable pub get_merging_iterator : Store → ℕ → Option (Option IteratorRef)
get_merging_iterator store t = get_elem? store t >>= λ tree. elim tree.inserted_tree [
  | none ↦ some none
  | some m ↦ get_elem? store m >>= λ merged. elim merged.top_iterator [
    | none ↦ none
    | some top ↦ elim merged.lower_iterator [
      | none ↦ none
      | some lower ↦ some (some (if top.0 == t then top else lower))
    ]
  ]
]
