-- ===== src/FTree/Trees.antt =====
-- factDB/newftree/FTree.hpp, FTree.cpp, FIterator.hpp and FIterator.cpp: the trees and their
-- iterators, and the loops over a tree. Trees refer to one another through iterators, so they stand
-- in a store: a tree is its position there, an iterator the position of its tree and its own.
-- `none` stands for a failed assertion, undefined behaviour, or a loop that has used up its fuel.
use fact_db.Prelude.{
  ℕ, zero, suc, ◌+◌, ◌*◌, Bool, true, false, ◌||◌, Option, none, some, List, [], ◌∷◌, ◌++◌,
  if◌then◌else◌, ◌>>=◌, length, get_elem?, set,
}
use fact_db.IuSet.{has, insert_iu, insert_range, merge_sets}
use fact_db.FTree.Node.{
  FNode, Children, owning, reference, no_children, child, get_node_id, get_ius, get_children,
  contains_iu,
}

abbrev pub IteratorRef : Type 0
IteratorRef = ℕ × ℕ

pub record FIterator : Type 0 where
  pub iterator_id : ℕ
  pub iterated_ius : List ℕ
  pub owner : ℕ
  pub referenced_iterator : Option IteratorRef
  pub required_node_ids : List ℕ

pub record FTree : Type 0 where
  pub root_node : FNode
  pub iterators : List FIterator
  pub inserted_tree : Option ℕ
  pub top_iterator : Option IteratorRef
  pub lower_iterator : Option IteratorRef
  pub composed_tree : Bool

abbrev pub Store : Type 0
Store = List FTree

-- The number of nodes, references followed: the fuel of the loops over a tree.
unfoldable mutual
  pub node_count : FNode → ℕ
  node_count (owning i u cs m l) = suc (children_count cs)
  node_count (reference n) = node_count n

  pub children_count : Children → ℕ
  children_count no_children = 0
  children_count (child c cs) = node_count c + children_count cs

-- Puts the children on the stack, the last one on top.
unfoldable pub push_children : List FNode → List FNode → List FNode
push_children [] todos = todos
push_children (c ∷ cs) todos = push_children cs (c ∷ todos)

unfoldable pub contains_iu_loop : ℕ → ℕ → List FNode → Option Bool
unfolding push_children
contains_iu_loop zero iu todos = none
contains_iu_loop (suc fuel) iu [] = some false
contains_iu_loop (suc fuel) iu (top ∷ todos) =
    let rest = contains_iu_loop fuel iu (push_children (get_children top) todos) in
    if contains_iu top iu then some true else rest

-- `FTree::containsIU`
unfoldable pub tree_contains_iu : FNode → ℕ → Option Bool
unfolding node_count contains_iu_loop
tree_contains_iu root iu = contains_iu_loop (suc (node_count root)) iu (root ∷ [])

-- The loop that the collecting functions share: it pops a node, acts on it and pushes its children.
unfoldable pub visit_loop {ℓ} :
    {A : Type ℓ} → (A → FNode → Option A) → ℕ → A → List FNode → Option A
unfolding push_children
visit_loop act zero acc todos = none
visit_loop act (suc fuel) acc [] = some acc
visit_loop act (suc fuel) acc (top ∷ todos) =
    act acc top >>= λ acc'. visit_loop act fuel acc' (push_children (get_children top) todos)

unfoldable pub visit {ℓ} : {A : Type ℓ} → (A → FNode → Option A) → A → FNode → Option A
unfolding node_count visit_loop
visit act acc root = visit_loop act (suc (node_count root)) acc (root ∷ [])

unfoldable pub collect_ius : FNode → Option (List ℕ)
unfolding visit merge_sets
collect_ius root = visit (λ ius top. some (merge_sets ius (get_ius top))) [] root

-- `collectRequiredIUs` of `collectComposedAvailableIUs`, with the required node ids.
unfoldable pub collect_required_ius : List ℕ → FNode → Option (List ℕ)
unfolding visit
collect_required_ius required root =
    visit
      (λ ius n. some (if has required (get_node_id n) then insert_range ius (get_ius n) else ius))
      [] root

-- `getIUs().front()`, undefined on a node without columns.
unfoldable pub front_iu : FNode → Option ℕ
front_iu n = get_elem? (get_ius n) 0

-- The nodes of `collectComposedAvailableNodes`, and of `collectLowerTreeNodes`.
unfoldable pub collect_available_nodes : List ℕ → FNode → Option (List ℕ)
unfolding visit
collect_available_nodes available root =
    visit
      (λ ids n.
        front_iu n >>= λ iu. some (if has available iu then insert_iu ids (get_node_id n) else ids))
      [] root

unfoldable pub collect_nodes : FNode → Option (List ℕ)
unfolding visit insert_iu
collect_nodes inserted = visit (λ ids n. some (insert_iu ids (get_node_id n))) [] inserted

-- `checkIfRequired` of the constructor of an iterator.
unfoldable pub any_child_required : List ℕ → List FNode → Bool
any_child_required required [] = false
any_child_required required (c ∷ cs) =
    has required (get_node_id c) || any_child_required required cs

unfoldable pub contains_any : FNode → List ℕ → Bool
contains_any n [] = false
contains_any n (iu ∷ ius) = contains_iu n iu || contains_any n ius

unfoldable pub check_if_required : List ℕ → List ℕ → FNode → List ℕ
check_if_required ius required n =
    if any_child_required required (get_children n) || contains_any n ius
    then insert_iu required (get_node_id n)
    else required

unfoldable pub push_unvisited : List FNode → List (FNode × Bool) → List (FNode × Bool)
push_unvisited [] todos = todos
push_unvisited (c ∷ cs) todos = push_unvisited cs ((c, false) ∷ todos)

-- The postorder traversal: a node is visited once its children are done.
unfoldable pub required_loop : ℕ → List ℕ → List ℕ → List (FNode × Bool) → Option (List ℕ)
unfolding push_unvisited
required_loop zero ius required todos = none
required_loop (suc fuel) ius required [] = some required
required_loop (suc fuel) ius required ((n, false) ∷ todos) =
    required_loop fuel ius required (push_unvisited (get_children n) ((n, true) ∷ todos))
required_loop (suc fuel) ius required ((n, true) ∷ todos) =
    required_loop fuel ius (check_if_required ius required n) todos

unfoldable pub required_nodes : List ℕ → FNode → Option (List ℕ)
unfolding required_loop node_count
required_nodes ius root = required_loop (suc (2 * node_count root)) ius [] ((root, false) ∷ [])

-- The assertions of the constructor.
unfoldable pub all_contained : FNode → List ℕ → Option Bool
all_contained root [] = some true
all_contained root (iu ∷ ius) =
    tree_contains_iu root iu >>= λ found. if found then all_contained root ius else none

-- `createIterator` and `createSubiterator` of the tree at a position of the store.
unfoldable pub create_iterator :
    Store → ℕ → List ℕ → Option IteratorRef → Option (IteratorRef × Store)
unfolding all_contained required_nodes
create_iterator store t ius referenced = get_elem? store t >>= λ tree.
    all_contained tree.root_node ius >>= λ checked.
    required_nodes ius tree.root_node >>= λ required.
    let id = length tree.iterators in
    let made : FIterator = record {
      iterator_id = id;
      iterated_ius = ius;
      owner = t;
      referenced_iterator = referenced;
      required_node_ids = required;
    } in
    some ((t, id), set store t (record tree { iterators = tree.iterators ++ made ∷ [] }))

unfoldable pub get_iterator : Store → IteratorRef → Option FIterator
get_iterator store (t, k) = get_elem? store t >>= λ tree. get_elem? tree.iterators k

-- `getTransitiveRequiredNodeIDs`, on fuel for the chain of referenced iterators.
unfoldable pub transitive_required : ℕ → Store → FIterator → Option (List ℕ)
transitive_required zero store iter = none
transitive_required (suc fuel) store iter = elim iter.referenced_iterator [
  | none ↦ some iter.required_node_ids
  | some r ↦ get_iterator store r >>= λ next. transitive_required fuel store next >>= λ result.
      some (insert_range result iter.required_node_ids)
]

-- `isRequired || isRequiredByReferenceIterator` for an iterator: the required nodes of the chain.
unfoldable pub is_required : ℕ → Store → FIterator → FNode → Option Bool
is_required zero store iter n = none
is_required (suc fuel) store iter n = elim (has iter.required_node_ids (get_node_id n)) [
  | true ↦ some true
  | false ↦ elim iter.referenced_iterator [
    | none ↦ some false
    | some r ↦ get_iterator store r >>= λ next. is_required fuel store next n
  ]
]

-- `collectComposedAvailableIUs`, on fuel for the trees that were merged.
unfoldable pub composed_available_ius : ℕ → Store → FTree → Option (List ℕ)
unfolding collect_required_ius transitive_required
composed_available_ius zero store tree = none
composed_available_ius (suc fuel) store tree = elim tree.composed_tree [
  | false ↦ some []
  | true ↦ elim tree.top_iterator [
    | none ↦ elim tree.lower_iterator [ none ↦ some [] | some lower ↦ none ]
    | some top ↦ elim tree.lower_iterator [
      | none ↦ none
      | some lower ↦ get_iterator store top >>= λ ti. get_iterator store lower >>= λ li.
          get_elem? store ti.owner >>= λ top_tree. get_elem? store li.owner >>= λ lower_tree.
          transitive_required fuel store ti >>= λ tr. transitive_required fuel store li >>= λ lr.
          collect_required_ius tr top_tree.root_node >>= λ a.
          collect_required_ius lr lower_tree.root_node >>= λ b.
          composed_available_ius fuel store top_tree >>= λ c.
          composed_available_ius fuel store lower_tree >>= λ d.
          some (insert_range (insert_range (insert_range a b) c) d)
    ]
  ]
]

unfoldable pub composed_available_nodes : ℕ → Store → FTree → Option (List ℕ)
unfolding composed_available_ius collect_available_nodes
composed_available_nodes fuel store tree =
    composed_available_ius fuel store tree >>= λ ius. collect_available_nodes ius tree.root_node

unfoldable pub set_composed_tree : FTree → FTree
set_composed_tree tree = record tree { composed_tree = true }
