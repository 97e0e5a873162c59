-- ===== src/FTree/Required.antt =====
-- The constructor of an iterator requires the nodes that it needs.
use fact_db.Prelude.{
  ℕ, suc, ◌+◌, ◌*◌, ◌≡◌, refl, ◌∙◌, ap, Bool, true, false, not, ◌&&◌, ◌||◌, Option, some, List, [],
  ◌∷◌, arith,
}
use fact_db.IuSet.{has}
use fact_db.IuSet.Laws.{has-insert_iu}
use fact_db.FTree.Node.{
  FNode, Children, owning, reference, no_children, child, get_node_id, get_children, children_list,
  get_ius, contains_iu,
}
use fact_db.FTree.Trees.{
  node_count, children_count, any_child_required, contains_any, check_if_required, push_unvisited,
  required_loop, required_nodes,
}

-- The traversal by recursion: the children from the last to the first, then the node.
unfoldable mutual
  post : List ℕ → FNode → List ℕ → List ℕ
  post ius (owning i u cs m l) required =
      check_if_required ius (post_children ius cs required) (owning i u cs m l)
  post ius (reference n) required = post ius n required

  post_children : List ℕ → Children → List ℕ → List ℕ
  post_children ius no_children required = required
  post_children ius (child c cs) required = post ius c (post_children ius cs required)

contains_any-reference :
    (n : FNode) (ius : List ℕ) → contains_any (reference n) ius ≡ contains_any n ius
unfolding contains_any contains_iu get_ius
contains_any-reference n [] = refl
contains_any-reference n (iu ∷ ius) = ap (λ b. contains_iu n iu || b) (contains_any-reference n ius)

check_if_required-reference :
    (ius r : List ℕ) (n : FNode) → check_if_required ius r (reference n) ≡ check_if_required ius r n
unfolding check_if_required get_children get_node_id
check_if_required-reference ius r n = rw (contains_any-reference n ius)

mutual
  unfolding required_loop push_unvisited post get_children children_list node_count

  loop_node :
      (ius : List ℕ) (n x : FNode) (f : ℕ) (required : List ℕ) (todos : List (FNode × Bool))
      → get_children x ≡ get_children n
      → ((r : List ℕ) → check_if_required ius r x ≡ check_if_required ius r n)
      → required_loop (2 * node_count n + f) ius required ((x, false) ∷ todos)
        ≡ required_loop f ius (post ius n required) todos
  loop_node ius (owning i u cs m l) x f required todos same agree =
      let fuel : 2 * suc (children_count cs) + f ≡ suc (2 * children_count cs + suc f) =
        omega arith in
      ap (λ k. required_loop k ius required ((x, false) ∷ todos)) fuel
      ∙ ap
          (λ ns.
            required_loop (2 * children_count cs + suc f) ius required
              (push_unvisited ns ((x, true) ∷ todos)))
          same
      ∙ loop_children ius cs (suc f) required ((x, true) ∷ todos)
      ∙ ap (λ r. required_loop f ius r todos) (agree (post_children ius cs required))
  loop_node ius (reference n) x f required todos same agree =
      loop_node ius n x f required todos same (λ r. agree r ∙ check_if_required-reference ius r n)

  loop_children :
      (ius : List ℕ) (cs : Children) (f : ℕ) (required : List ℕ) (todos : List (FNode × Bool))
      → required_loop
          (2 * children_count cs + f)
          ius
          required
          (push_unvisited (children_list cs) todos)
        ≡ required_loop f ius (post_children ius cs required) todos
  loop_children ius no_children f required todos =
      let fuel : 2 * 0 + f ≡ f = omega arith in ap (λ k. required_loop k ius required todos) fuel
  loop_children ius (child c cs) f required todos =
      let fuel : 2 * (node_count c + children_count cs) + f
          ≡ 2 * children_count cs + (2 * node_count c + f) =
        omega arith in
      ap
        (λ k. required_loop k ius required (push_unvisited (children_list cs) ((c, false) ∷ todos)))
        fuel
      ∙ loop_children ius cs (2 * node_count c + f) required ((c, false) ∷ todos)
      ∙ loop_node ius c c f (post_children ius cs required) todos refl (λ r. refl)

-- Whether a node or one below it holds an iterated column.
unfoldable mutual
  pub needed : List ℕ → FNode → Bool
  needed ius (owning i u cs m l) = contains_any (owning i u cs m l) ius || any_needed ius cs
  needed ius (reference n) = needed ius n

  pub any_needed : List ℕ → Children → Bool
  any_needed ius no_children = false
  any_needed ius (child c cs) = needed ius c || any_needed ius cs

-- Every needed node of the tree is among the required ones.
unfoldable mutual
  pub covers : List ℕ → List ℕ → FNode → Bool
  covers ius required (owning i u cs m l) =
      (not (needed ius (owning i u cs m l)) || has required i) && all_covered ius required cs
  covers ius required (reference n) = covers ius required n

  pub all_covered : List ℕ → List ℕ → Children → Bool
  all_covered ius required no_children = true
  all_covered ius required (child c cs) = covers ius required c && all_covered ius required cs

abbrev Extends : List ℕ → List ℕ → Type 0
Extends r r' = (i : ℕ) → has r i ≡ true → has r' i ≡ true

mutual
  unfolding covers

  covers_later :
      (ius r r' : List ℕ) (n : FNode)
      → Extends r r'
      → covers ius r n ≡ true
      → covers ius r' n ≡ true
  covers_later ius r r' (owning i u cs m l) h c =
      ground (arith, h i, all_covered_later ius r r' cs h)
  covers_later ius r r' (reference n) h c = covers_later ius r r' n h c

  all_covered_later :
      (ius r r' : List ℕ) (cs : Children)
      → Extends r r'
      → all_covered ius r cs ≡ true
      → all_covered ius r' cs ≡ true
  all_covered_later ius r r' no_children h c = c
  all_covered_later ius r r' (child x cs) h c =
      ground (arith, covers_later ius r r' x h, all_covered_later ius r r' cs h)

check_if_required-Extends : (ius r : List ℕ) (n : FNode) → Extends r (check_if_required ius r n)
unfolding check_if_required
check_if_required-Extends ius r n i h = ground (arith, has-insert_iu r (get_node_id n) i)

mutual
  unfolding post

  post-Extends : (ius : List ℕ) (n : FNode) (r : List ℕ) → Extends r (post ius n r)
  post-Extends ius (owning i u cs m l) r k h =
      check_if_required-Extends ius (post_children ius cs r) (owning i u cs m l) k
        (post_children-Extends ius cs r k h)
  post-Extends ius (reference n) r k h = post-Extends ius n r k h

  post_children-Extends :
      (ius : List ℕ) (cs : Children) (r : List ℕ) → Extends r (post_children ius cs r)
  post_children-Extends ius no_children r k h = h
  post_children-Extends ius (child c cs) r k h =
      post-Extends ius c (post_children ius cs r) k (post_children-Extends ius cs r k h)

-- A covered node that is needed is required.
covers_self :
    (ius r : List ℕ) (n : FNode)
    → covers ius r n ≡ true
    → needed ius n ≡ true
    → has r (get_node_id n) ≡ true
unfolding covers needed get_node_id
covers_self ius r (owning i u cs m l) c h = ground arith
covers_self ius r (reference n) c h = covers_self ius r n c h

any_needed_required :
    (ius r : List ℕ) (cs : Children)
    → all_covered ius r cs ≡ true
    → any_needed ius cs ≡ true
    → any_child_required r (children_list cs) ≡ true
unfolding covers needed any_child_required children_list
any_needed_required ius r no_children c h = h
any_needed_required ius r (child x cs) c h =
    ground (arith, covers_self ius r x, any_needed_required ius r cs)

check_requires :
    (ius before : List ℕ) (i : ℕ) (u : List ℕ) (cs : Children) (m : Option ℕ) (l : Bool)
    → all_covered ius before cs ≡ true
    → (not (needed ius (owning i u cs m l))
        || has (check_if_required ius before (owning i u cs m l)) i)
      ≡ true
unfolding check_if_required get_children get_node_id needed
check_requires ius before i u cs m l c =
    ground (arith, any_needed_required ius before cs c, has-insert_iu before i i)

mutual
  unfolding post covers

  post-covers : (ius : List ℕ) (n : FNode) (r : List ℕ) → covers ius (post ius n r) n ≡ true
  post-covers ius (owning i u cs m l) r =
      let before = post_children ius cs r in
      let kept =
        all_covered_later ius before (check_if_required ius before (owning i u cs m l)) cs
          (check_if_required-Extends ius before (owning i u cs m l))
          (post_children_cover ius cs r) in
      ground (arith, kept, check_requires ius before i u cs m l (post_children_cover ius cs r))
  post-covers ius (reference n) r = post-covers ius n r

  post_children_cover :
      (ius : List ℕ) (cs : Children) (r : List ℕ)
      → all_covered ius (post_children ius cs r) cs ≡ true
  post_children_cover ius no_children r = refl
  post_children_cover ius (child c cs) r =
      let before = post_children ius cs r in
      ground (
        arith,
        post-covers ius c before,
        all_covered_later ius before (post ius c before) cs (post-Extends ius c before)
            (post_children_cover ius cs r),
      )

-- The traversal in the constructor of an iterator ends, and every node that holds an iterated
-- column or has such a node below it is among the required nodes.
pub required_nodes-covers :
    (ius : List ℕ) (root : FNode)
    → (required : List ℕ) × (required_nodes ius root ≡ some required)
      × (covers ius required root ≡ true)
unfolding required_nodes required_loop
required_nodes-covers ius root =
    let fuel : suc (2 * node_count root) ≡ 2 * node_count root + 1 = omega arith in
    (
      post ius root [],
      ap (λ k. required_loop k ius [] ((root, false) ∷ [])) fuel
          ∙ loop_node ius root root 1 [] [] refl (λ r. refl),
      post-covers ius root [],
    )
