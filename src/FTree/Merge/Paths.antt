-- ===== src/FTree/Merge/Paths.antt =====
-- The path of merged nodes below a node, and what changes at a node of the path do to it and to the
-- columns.
use fact_db.Prelude.{
  ℕ, zero, suc, ◌+◌, ◌≤◌, ◌<◌, ◌≡◌, refl, sym, ap, Bool, ◌||◌, Option, none, some, List, arith,
  ◌>>=◌, length, get_elem?, some_injective,
}
use mathlib.Core.Path.{subst}
use fact_db.IuSet.{has}
use fact_db.FTree.Node.{
  FNode, Children, owning, reference, no_children, child, new_node, get_ius, children_list,
  contains_iu, add_ius, add_child, added_child, add_new_child, add_to_merged_node, update_child,
  emplace_back, get_merged_node,
}
use fact_db.FTree.Trees.{node_count, children_count}
use fact_db.FTree.Columns.{
  tree_has, children_have, children_have-emplace_back, tree_has-add_ius, added_child_columns,
}
use fact_db.FTree.Merge.{at_merged, path_end}

-- The path of merged nodes below a node has `m` steps; the node is no reference.
abbrev pub HasPath : ℕ → FNode → Type 0
HasPath zero (owning i u cs none l) = Unit
HasPath zero (owning i u cs (some k) l) = ⊥
HasPath (suc m) (owning i u cs none l) = ⊥
HasPath (suc m) (owning i u cs (some k) l) =
    (c : FNode) × (get_elem? (children_list cs) k ≡ some c) × HasPath m c
HasPath m (reference n) = ⊥

-- The node `n` has become `n'`: it has gained the columns of `gained`, its path has not become
-- shorter and has `steps` steps at least.
abbrev pub Grows : (ℕ → Bool) → ℕ → ℕ → FNode → FNode → Type 0
Grows gained steps m n n' =
    (m' : ℕ) × HasPath m' n'
    × (m ≤ m')
    × (steps ≤ m')
    × ((iu : ℕ) → tree_has iu n' ≡ (tree_has iu n || gained iu))

get_elem?-emplace_back :
    (cs : Children) (n c : FNode) (k : ℕ)
    → get_elem? (children_list cs) k ≡ some c
    → get_elem? (children_list (emplace_back cs n)) k ≡ some c
unfolding children_list emplace_back
get_elem?-emplace_back no_children n c k h = cc
get_elem?-emplace_back (child x cs) n c zero h = h
get_elem?-emplace_back (child x cs) n c (suc k) h = get_elem?-emplace_back cs n c k h

get_elem?-emplaced :
    (cs : Children) (n : FNode)
    → get_elem? (children_list (emplace_back cs n)) (length (children_list cs)) ≡ some n
unfolding children_list emplace_back
get_elem?-emplaced no_children n = refl
get_elem?-emplaced (child x cs) n = get_elem?-emplaced cs n

get_elem?-update_child :
    (cs : Children) (f : FNode → FNode) (c : FNode) (k : ℕ)
    → get_elem? (children_list cs) k ≡ some c
    → get_elem? (children_list (update_child k f cs)) k ≡ some (f c)
unfolding children_list update_child
get_elem?-update_child no_children f c k h = cc
get_elem?-update_child (child x cs) f c zero h = ap (λ q. some (f q)) (some_injective h)
get_elem?-update_child (child x cs) f c (suc k) h = get_elem?-update_child cs f c k h

children_have-update_child :
    (iu : ℕ) (cs : Children) (f : FNode → FNode) (c : FNode) (k : ℕ) (b : Bool)
    → get_elem? (children_list cs) k ≡ some c
    → tree_has iu (f c) ≡ (tree_has iu c || b)
    → children_have iu (update_child k f cs) ≡ (children_have iu cs || b)
unfolding children_list update_child tree_has
children_have-update_child iu no_children f c k b h e = cc
children_have-update_child iu (child x cs) f c zero b h e =
    let e' : tree_has iu (f x) ≡ (tree_has iu x || b) =
      subst (λ q. tree_has iu (f q) ≡ (tree_has iu q || b)) (sym (some_injective h)) e in
    ground (arith, e')
children_have-update_child iu (child x cs) f c (suc k) b h e =
    ground (arith, children_have-update_child iu cs f c k b h e)

pub HasPath-add_ius : (m : ℕ) (n : FNode) (u : List ℕ) → HasPath m n → HasPath m (add_ius n u)
unfolding add_ius
HasPath-add_ius zero (owning i v cs none l) u p = p
HasPath-add_ius zero (owning i v cs (some k) l) u p = p
HasPath-add_ius (suc m) (owning i v cs none l) u p = p
HasPath-add_ius (suc m) (owning i v cs (some k) l) u p = p
HasPath-add_ius zero (reference n) u p = p
HasPath-add_ius (suc m) (reference n) u p = p

HasPath-emplace_back :
    (m i : ℕ) (u : List ℕ) (cs : Children) (o : Option ℕ) (l : Bool) (n : FNode)
    → HasPath m (owning i u cs o l)
    → HasPath m (owning i u (emplace_back cs n) o l)
HasPath-emplace_back zero i u cs none l n p = p
HasPath-emplace_back zero i u cs (some k) l n p = p
HasPath-emplace_back (suc m) i u cs none l n p = p
HasPath-emplace_back (suc m) i u cs (some k) l n (c, g, p) =
    (c, get_elem?-emplace_back cs n c k g, p)

HasPath-reference : (m : ℕ) (n : FNode) → HasPath m (reference n) → ⊥
HasPath-reference zero n p = p
HasPath-reference (suc m) n p = p

-- A child that is appended.
emplaced-Grows :
    (m i : ℕ) (u : List ℕ) (cs : Children) (o : Option ℕ) (l : Bool) (n : FNode) (gained : ℕ → Bool)
    → ((iu : ℕ) → tree_has iu n ≡ gained iu)
    → HasPath m (owning i u cs o l)
    → Grows gained 0 m (owning i u cs o l) (owning i u (emplace_back cs n) o l)
unfolding tree_has
emplaced-Grows m i u cs o l n gained e p = (
  m,
  HasPath-emplace_back m i u cs o l n p,
  omega arith,
  omega arith,
  λ iu. ground (arith, children_have-emplace_back iu cs n, e iu),
)

pub add_child-Grows :
    (m : ℕ) (n c : FNode) (referencing : Bool) (k : ℕ)
    → HasPath m n
    → (n' : FNode) × (k' : ℕ) × (add_child n c referencing k ≡ some (n', k'))
      × Grows (λ iu. tree_has iu c) 0 m n n'
unfolding add_child
add_child-Grows m (owning i u cs o l) c referencing k p =
    let r = added_child c referencing k in
    (
      owning i u (emplace_back cs r.0) o l,
      r.1,
      refl,
      emplaced-Grows m i u cs o l r.0 _ (λ iu. added_child_columns iu c referencing k) p,
    )
add_child-Grows m (reference n) c referencing k p = absurd (HasPath-reference m n p)

pub add_new_child-Grows :
    (m : ℕ) (n c : FNode)
    → HasPath m n
    → (n' : FNode) × (add_new_child n c ≡ some n') × Grows (λ iu. tree_has iu c) 0 m n n'
unfolding add_new_child
add_new_child-Grows m (owning i u cs o l) c p =
    (owning i u (emplace_back cs c) o l, refl, emplaced-Grows m i u cs o l c _ (λ iu. refl) p)
add_new_child-Grows m (reference n) c p = absurd (HasPath-reference m n p)

made_columns : (iu k : ℕ) (u : List ℕ) → tree_has iu (add_ius (new_node k).0 u) ≡ has u iu
unfolding tree_has new_node has
made_columns iu k u = tree_has-add_ius iu (new_node k).0 u

pub add_to_merged_node-Grows :
    (m : ℕ) (n c : FNode) (k : ℕ)
    → HasPath m n
    → (n' : FNode) × (k' : ℕ) × (add_to_merged_node n c k ≡ some (n', k'))
      × Grows (contains_iu c) 1 m n n'
unfolding add_to_merged_node tree_has contains_iu
add_to_merged_node-Grows zero (owning i u cs none l) c k p =
    let made = add_ius (new_node k).0 (get_ius c) in
    (
      owning i u (emplace_back cs made) (some (length (children_list cs))) l,
      k + 1,
      unfold new_node in refl,
      (
        1,
        (made, get_elem?-emplaced cs made, unfold add_ius new_node in tt),
        omega arith,
        omega arith,
        λ iu. ground (arith, children_have-emplace_back iu cs made, made_columns iu k (get_ius c)),
      ),
    )
add_to_merged_node-Grows zero (owning i u cs (some o) l) c k p = absurd p
add_to_merged_node-Grows (suc m) (owning i u cs none l) c k p = absurd p
add_to_merged_node-Grows (suc m) (owning i u cs (some o) l) c k (x, g, p) = (
  owning i u (update_child o (λ n. add_ius n (get_ius c)) cs) (some o) l,
  k,
  refl,
  (
    suc m,
    (
      add_ius x (get_ius c),
      get_elem?-update_child cs (λ n. add_ius n (get_ius c)) x o g,
      HasPath-add_ius m x (get_ius c) p,
    ),
    omega arith,
    omega arith,
    λ iu. ground (
      arith,
      children_have-update_child iu cs (λ n. add_ius n (get_ius c)) x o (has (get_ius c) iu) g
          (tree_has-add_ius iu x (get_ius c)),
    ),
  ),
)
add_to_merged_node-Grows zero (reference n) c k p = absurd p
add_to_merged_node-Grows (suc m) (reference n) c k p = absurd p

-- A change at a node of the path is one of the node that the path starts from.
pub at_merged-Grows :
    (f : FNode → Option (FNode × ℕ)) (gained : ℕ → Bool) (steps : ℕ)
    → ((m : ℕ) (n : FNode)
        → HasPath m n
        → (n' : FNode) × (k' : ℕ) × (f n ≡ some (n', k')) × Grows gained steps m n n')
    → (d m : ℕ) (n : FNode) → d ≤ m
    → HasPath m n
    → (n' : FNode) × (k' : ℕ) × (at_merged d f n ≡ some (n', k')) × Grows gained (d + steps) m n n'
unfolding at_merged tree_has
at_merged-Grows f gained steps h zero m n le p =
    let (n', k', run, (m', p', longer, far, has')) = h m n p in
    (n', k', run, (m', p', longer, omega arith, has'))
at_merged-Grows f gained steps h (suc d) zero n le p = elim le [ ]
at_merged-Grows f gained steps h (suc d) (suc m) (owning i u cs none l) le p = absurd p
at_merged-Grows f gained steps h (suc d) (suc m) (owning i u cs (some o) l) le (c, g, p) =
    let (c', k', run, (m', p', longer, far, has')) =
      at_merged-Grows f gained steps h d m c (omega arith) p in
    (
      owning i u (update_child o (λ _. c') cs) (some o) l,
      k',
      rw (g, ◌>>=◌, run),
      (
        suc m',
        (c', get_elem?-update_child cs (λ _. c') c o g, p'),
        omega arith,
        omega arith,
        λ iu.
            ground (arith, children_have-update_child iu cs (λ _. c') c o (gained iu) g (has' iu)),
      ),
    )
at_merged-Grows f gained steps h (suc d) (suc m) (reference n) le p = absurd p

node_count-child :
    (cs : Children) (c : FNode) (k : ℕ)
    → get_elem? (children_list cs) k ≡ some c
    → node_count c ≤ children_count cs
unfolding children_list node_count
node_count-child no_children c k h = cc
node_count-child (child x cs) c zero h =
    subst (λ q. node_count q ≤ node_count x + children_count cs) (some_injective h) (omega arith)
node_count-child (child x cs) c (suc k) h = omega (arith, node_count-child cs c k h)

HasPath-lt : (m : ℕ) (n : FNode) → HasPath m n → m < node_count n
unfolding node_count
HasPath-lt zero (owning i u cs o l) p = omega arith
HasPath-lt (suc m) (owning i u cs none l) p = absurd p
HasPath-lt (suc m) (owning i u cs (some k) l) (c, g, p) =
    omega (arith, HasPath-lt m c p, node_count-child cs c k g)
HasPath-lt zero (reference n) p = absurd p
HasPath-lt (suc m) (reference n) p = absurd p

merged_child :
    (i k : ℕ) (u : List ℕ) (cs : Children) (l : Bool) (c : FNode)
    → get_elem? (children_list cs) k ≡ some c
    → get_merged_node (owning i u cs (some k) l) ≡ some c
unfolding get_merged_node
merged_child i k u cs l c g = g

no_merged_child :
    (i : ℕ) (u : List ℕ) (cs : Children) (l : Bool) → get_merged_node (owning i u cs none l) ≡ none
unfolding get_merged_node
no_merged_child i u cs l = refl

path_end_fuel : (m fuel : ℕ) (n : FNode) → HasPath m n → m < fuel → path_end fuel n ≡ some m
unfolding path_end
path_end_fuel m zero n p h = elim h [ ]
path_end_fuel zero (suc fuel) (owning i u cs none l) p h = rw (path_end, no_merged_child i u cs l)
path_end_fuel zero (suc fuel) (owning i u cs (some k) l) p h = absurd p
path_end_fuel (suc m) (suc fuel) (owning i u cs none l) p h = absurd p
path_end_fuel (suc m) (suc fuel) (owning i u cs (some k) l) (c, g, p) h =
    rw (path_end, merged_child i k u cs l c g, path_end_fuel m fuel c p (omega arith))
path_end_fuel zero (suc fuel) (reference n) p h = absurd p
path_end_fuel (suc m) (suc fuel) (reference n) p h = absurd p

-- The loop to the end of the path ends there.
pub path_end_lem : (m : ℕ) (n : FNode) → HasPath m n → path_end (suc (node_count n)) n ≡ some m
path_end_lem m n p = path_end_fuel m (suc (node_count n)) n p (omega (arith, HasPath-lt m n p))
