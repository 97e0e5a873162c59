-- ===== src/FTree/Merge/Keeps.antt =====
-- Merging returns, and the merged tree holds the columns of both trees and no others.
use fact_db.Prelude.{
  ℕ, zero, suc, ◌+◌, ◌≤◌, ◌<◌, ◌≡◌, refl, ap, Bool, true, false, not, ◌||◌, Option, some, List, [],
  ◌∷◌, ◌++◌, arith, ◌>>=◌, if◌then◌else◌, Bool-cases, inl, inr,
}
use fact_db.IuSet.{has}
use fact_db.FTree.Node.{
  FNode, owning, reference, get_node_id, get_ius, get_children, contains_iu, add_ius, add_child,
  add_to_merged_node, add_new_child, new_node, set_requires_lock,
}
use fact_db.FTree.Trees.{node_count}
use fact_db.FTree.Columns.{
  tree_has, any_has, total, any_has-append, total-append, tree_has_split, node_count_split,
  tree_has-add_ius,
}
use fact_db.FTree.Merge.{naive_loop, paper_loop, with_parent, create_path, merge_nodes}
use fact_db.FTree.Merge.Paths.{
  HasPath, HasPath-add_ius, add_child-Grows, add_to_merged_node-Grows, add_new_child-Grows,
  at_merged-Grows, path_end_lem,
}

-- A run returns a node with a path that holds the columns of `before` and of `gained`.
abbrev pub Returns : Option (FNode × ℕ) → FNode → (ℕ → Bool) → Type 0
Returns run before gained =
    (n : FNode) × (k : ℕ) × (m : ℕ) × (run ≡ some (n, k))
    × HasPath m n
    × ((iu : ℕ) → tree_has iu n ≡ (tree_has iu before || gained iu))

naive_loop-Returns :
    (required : FNode → Bool) (composed : List ℕ) (fuel : ℕ) (todos : List FNode) (root : FNode)
    (k m : ℕ)
    → total todos < fuel
    → HasPath m root
    → Returns (naive_loop required composed fuel todos root k) root (λ iu. any_has iu todos)
unfolding naive_loop any_has total contains_iu
naive_loop-Returns required composed zero todos root k m h p = elim h [ ]
naive_loop-Returns required composed (suc fuel) [] root k m h p =
    (root, k, m, refl, p, λ iu. ground arith)
naive_loop-Returns required composed (suc fuel) (cur ∷ todos) root k m h p =
    elim (Bool-cases (required cur)) [
      | inl e ↦
          let (n, k', m', run, p', columns) =
            naive_loop-Returns required composed fuel (get_children cur ++ todos)
              (add_ius root (get_ius cur)) k m
              (omega (arith, total-append (get_children cur) todos, node_count_split cur))
              (HasPath-add_ius m root (get_ius cur) p) in
          (
            n,
            k',
            m',
            rw (naive_loop, e, run),
            p',
            λ iu. ground (
              arith,
              columns iu,
              tree_has-add_ius iu root (get_ius cur),
              any_has-append iu (get_children cur) todos,
              tree_has_split iu cur,
            ),
          )
      | inr e ↦
          let (root', k', run, (m', p', longer, far, grown)) =
            add_child-Grows m root cur (not (has composed (get_node_id cur))) k p in
          let (n, k'', m'', run', p'', columns) =
            naive_loop-Returns required composed fuel todos root' k' m'
              (omega (arith, node_count_split cur)) p' in
          (
            n,
            k'',
            m'',
            rw (naive_loop, e, run, run'),
            p'',
            λ iu. ground (arith, columns iu, grown iu),
          )
    ]

-- The required nodes are composed, as the variant of the paper asserts.
abbrev pub AllComposed : (FNode → Bool) → List ℕ → Type 0
AllComposed required composed =
    (n : FNode) → required n ≡ true → has composed (get_node_id n) ≡ true

-- What the stack of the paper's variant holds, and that its depths are on the path.
unfoldable any_below : ℕ → List (ℕ × FNode) → Bool
any_below iu [] = false
any_below iu ((d, n) ∷ ns) = tree_has iu n || any_below iu ns

unfoldable total_below : List (ℕ × FNode) → ℕ
total_below [] = 0
total_below ((d, n) ∷ ns) = node_count n + total_below ns

abbrev AllWithin : ℕ → List (ℕ × FNode) → Type 0
AllWithin m [] = Unit
AllWithin m ((d, n) ∷ ns) = (d ≤ m) × AllWithin m ns

AllWithin-later : (m m' : ℕ) (ns : List (ℕ × FNode)) → m ≤ m' → AllWithin m ns → AllWithin m' ns
AllWithin-later m m' [] h w = tt
AllWithin-later m m' ((d, n) ∷ ns) h (le, w) = (omega arith, AllWithin-later m m' ns h w)

AllWithin-pushed :
    (m d : ℕ) (cs : List FNode) (ns : List (ℕ × FNode))
    → d ≤ m
    → AllWithin m ns
    → AllWithin m (with_parent d cs ++ ns)
unfolding with_parent
AllWithin-pushed m d [] ns h w = w
AllWithin-pushed m d (c ∷ cs) ns h w = (h, AllWithin-pushed m d cs ns h w)

any_below_pushed :
    (iu d : ℕ) (cs : List FNode) (ns : List (ℕ × FNode))
    → any_below iu (with_parent d cs ++ ns) ≡ (any_has iu cs || any_below iu ns)
unfolding with_parent any_below any_has
any_below_pushed iu d [] ns = refl
any_below_pushed iu d (c ∷ cs) ns = ground (arith, any_below_pushed iu d cs ns)

total_below_pushed :
    (d : ℕ) (cs : List FNode) (ns : List (ℕ × FNode))
    → total_below (with_parent d cs ++ ns) ≡ total cs + total_below ns
unfolding with_parent total_below total
total_below_pushed d [] ns = omega arith
total_below_pushed d (c ∷ cs) ns = omega (arith, total_below_pushed d cs ns)

paper_loop-Returns :
    (required : FNode → Bool) (composed : List ℕ) (fuel : ℕ) (todos : List (ℕ × FNode))
    (root : FNode) (k m : ℕ)
    → AllComposed required composed
    → total_below todos < fuel
    → AllWithin m todos
    → HasPath m root
    → Returns (paper_loop required composed fuel todos root k) root (λ iu. any_below iu todos)
unfolding paper_loop any_below total_below
paper_loop-Returns required composed zero todos root k m c h w p = elim h [ ]
paper_loop-Returns required composed (suc fuel) [] root k m c h w p =
    (root, k, m, refl, p, λ iu. ground arith)
paper_loop-Returns required composed (suc fuel) ((d, cur) ∷ todos) root k m c h (le, w) p =
    elim (Bool-cases (required cur)) [
      | inl e ↦
          let (root', k', run, (m', p', longer, far, grown)) =
            at_merged-Grows (λ n. add_to_merged_node n cur k) (contains_iu cur) 1
              (λ q n path. add_to_merged_node-Grows q n cur k path) d m root le p in
          let (n, k'', m'', run', p'', columns) =
            paper_loop-Returns required composed fuel
              (with_parent (suc d) (get_children cur) ++ todos) root' k' m' c
              (omega
                (arith, total_below_pushed (suc d) (get_children cur) todos, node_count_split cur))
              (AllWithin-pushed m' (suc d) (get_children cur) todos (omega arith)
                (AllWithin-later m m' todos longer w))
              p' in
          (
            n,
            k'',
            m'',
            rw (paper_loop, e, c cur e, run, run'),
            p'',
            λ iu. ground (
              arith,
              columns iu,
              grown iu,
              any_below_pushed iu (suc d) (get_children cur) todos,
              tree_has_split iu cur,
            ),
          )
      | inr e ↦
          let (root', k', run, (m', p', longer, far, grown)) =
            at_merged-Grows (λ n. add_child n cur (not (has composed (get_node_id cur))) k)
              (λ iu. tree_has iu cur) 0
              (λ q n path. add_child-Grows q n cur (not (has composed (get_node_id cur))) k path) d
              m root le p in
          let (n, k'', m'', run', p'', columns) =
            paper_loop-Returns required composed fuel todos root' k' m' c
              (omega (arith, node_count_split cur)) (AllWithin-later m m' todos longer w) p' in
          (
            n,
            k'',
            m'',
            rw (paper_loop, e, run, run'),
            p'',
            λ iu. ground (arith, columns iu, grown iu),
          )
    ]

total-with_parent : (d : ℕ) (cs : List FNode) → total_below (with_parent d cs) ≡ total cs
unfolding with_parent total_below total
total-with_parent d [] = refl
total-with_parent d (c ∷ cs) = ap (λ n. node_count c + n) (total-with_parent d cs)

any_below_children : (iu d : ℕ) (cs : List FNode) → any_below iu (with_parent d cs) ≡ any_has iu cs
unfolding with_parent any_below any_has
any_below_children iu d [] = refl
any_below_children iu d (c ∷ cs) = ap (λ b. tree_has iu c || b) (any_below_children iu d cs)

AllWithin-children : (m : ℕ) (cs : List FNode) → AllWithin m (with_parent 0 cs)
unfolding with_parent
AllWithin-children m [] = tt
AllWithin-children m (c ∷ cs) = (omega arith, AllWithin-children m cs)

-- `createRootToLeafPath`, in both variants, returns for a node that is no reference, and adds
-- exactly the columns of the tree.
pub create_path-Returns :
    (naive : Bool) (required : FNode → Bool) (composed : List ℕ) (source root : FNode) (k m : ℕ)
    → (naive ≡ false → AllComposed required composed)
    → HasPath m root
    → Returns (create_path naive required composed source root k) root (λ iu. tree_has iu source)
unfolding create_path contains_iu
create_path-Returns true required composed source root k m c p =
    let (n, k', m', run, p', columns) =
      naive_loop-Returns required composed (node_count source) (get_children source)
        (add_ius root (get_ius source)) k m (omega (arith, node_count_split source))
        (HasPath-add_ius m root (get_ius source) p) in
    (
      n,
      k',
      m',
      run,
      p',
      λ iu.
          ground (
            arith,
            columns iu,
            tree_has-add_ius iu root (get_ius source),
            tree_has_split iu source,
          ),
    )
create_path-Returns false required composed source root k m c p =
    let (n, k', m', run, p', columns) =
      paper_loop-Returns required composed (node_count source) (with_parent 0 (get_children source))
        (add_ius root (get_ius source)) k m (c refl)
        (omega (arith, total-with_parent 0 (get_children source), node_count_split source))
        (AllWithin-children m (get_children source)) (HasPath-add_ius m root (get_ius source) p) in
    (
      n,
      k',
      m',
      run,
      p',
      λ iu. ground (
        arith,
        columns iu,
        any_below_children iu 0 (get_children source),
        tree_has-add_ius iu root (get_ius source),
        tree_has_split iu source,
      ),
    )

tree_has-set_requires_lock :
    (iu : ℕ) (n : FNode) → tree_has iu (set_requires_lock n) ≡ tree_has iu n
unfolding tree_has set_requires_lock
tree_has-set_requires_lock iu (owning i u cs m l) = refl
tree_has-set_requires_lock iu (reference n) = tree_has-set_requires_lock iu n

new_node-HasPath : (k : ℕ) → HasPath 0 (new_node k).0
unfolding new_node
new_node-HasPath k = tt

tree_has-new_node : (iu k : ℕ) → tree_has iu (new_node k).0 ≡ false
unfolding tree_has new_node has
tree_has-new_node iu k = refl

-- Merging two trees below a node that is no reference returns, in both variants and for both
-- positions of the insertion, if in the variant of the paper every required node of each of the
-- two trees is among its composed nodes; the merged tree holds a column exactly if the node it
-- starts from or one of the two trees does.
pub merge_nodes_columns :
    (naive bottom : Bool) (upper_required : FNode → Bool) (upper_composed : List ℕ) (upper : FNode)
    (lower_required : FNode → Bool) (lower_composed : List ℕ) (lower root : FNode) (k m : ℕ)
    → (naive ≡ false → AllComposed upper_required upper_composed)
    → (naive ≡ false → AllComposed lower_required lower_composed)
    → HasPath m root
    → (merged : FNode) × (k' : ℕ) × (merge_nodes naive bottom upper_required upper_composed upper
          lower_required lower_composed lower root k
        ≡ some (merged, k'))
      × ((iu : ℕ)
          → tree_has iu merged ≡ (tree_has iu root || (tree_has iu upper || tree_has iu lower)))
unfolding merge_nodes
merge_nodes_columns naive bottom ur uc upper lr lc lower root k m cu cl p =
    let (a, k1, m1, run1, p1, columns1) = create_path-Returns naive ur uc upper root k m cu p in
    let fresh = new_node k1 in
    let (b, k2, m2, run2, p2, columns2) =
      create_path-Returns naive lr lc lower fresh.0 fresh.1 0 cl (new_node-HasPath k1) in
    let inserted = if bottom then set_requires_lock b else b in
    let (merged, k3, run3, (m3, p3, longer, far, grown)) =
      at_merged-Grows (λ n. add_new_child n inserted >>= λ n'. some (n', k2))
        (λ iu. tree_has iu inserted) 0
        (λ q n path.
          let (n', run, grows) = add_new_child-Grows q n inserted path in (n', k2, rw run, grows))
        m1 m1 a (omega arith) p1 in
    (
      merged,
      k3,
      rw (run1, path_end_lem m1 a p1, run2, run3),
      λ iu. ground (
        arith,
        grown iu,
        columns1 iu,
        columns2 iu,
        tree_has-new_node iu k1,
        tree_has-set_requires_lock iu b,
      ),
    )
