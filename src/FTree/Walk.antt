-- ===== src/FTree/Walk.antt =====
-- The loops over a tree end, and find the columns that the tree has.
use fact_db.Prelude.{
  ℕ, zero, suc, ◌+◌, ◌<◌, ◌≡◌, refl, ◌∙◌, ap, Bool, false, ◌||◌, Option, some, List, [], ◌∷◌, arith,
  Bool-cases, inl, inr,
}
use fact_db.IuSet.{has, merge_sets}
use fact_db.IuSet.Laws.{has-merge_sets}
use fact_db.FTree.Node.{FNode, get_ius, get_children, contains_iu}
use fact_db.FTree.Trees.{
  node_count, push_children, contains_iu_loop, tree_contains_iu, visit_loop, visit, collect_ius,
}
use fact_db.FTree.Columns.{tree_has, any_has, total, tree_has_split, node_count_split}

any_has-push_children :
    (iu : ℕ) (cs todos : List FNode)
    → any_has iu (push_children cs todos) ≡ (any_has iu cs || any_has iu todos)
unfolding any_has push_children
any_has-push_children iu [] todos = refl
any_has-push_children iu (c ∷ cs) todos = ground (arith, any_has-push_children iu cs (c ∷ todos))

total-push_children :
    (cs todos : List FNode) → total (push_children cs todos) ≡ total cs + total todos
unfolding total push_children
total-push_children [] todos = omega arith
total-push_children (c ∷ cs) todos = omega (arith, total-push_children cs (c ∷ todos))

contains_iu_loop_lem :
    (fuel iu : ℕ) (todos : List FNode)
    → total todos < fuel
    → contains_iu_loop fuel iu todos ≡ some (any_has iu todos)
unfolding contains_iu_loop any_has total
contains_iu_loop_lem zero iu todos h = elim h [ ]
contains_iu_loop_lem (suc fuel) iu [] h = refl
contains_iu_loop_lem (suc fuel) iu (top ∷ todos) h =
    let enough : total (push_children (get_children top) todos) < fuel =
      omega (arith, total-push_children (get_children top) todos, node_count_split top) in
    let rest = contains_iu_loop_lem fuel iu (push_children (get_children top) todos) enough in
    rw (rest, any_has-push_children iu (get_children top) todos, tree_has_split iu top)
      (elim (Bool-cases (contains_iu top iu)) [ inl e ↦ rw e | inr e ↦ rw e ])

-- The collecting loop, seen through a test that each step extends by the test on the node.
visit_loop_lem {ℓ} :
    {A : Type ℓ} (act : A → FNode → Option A) (test : A → Bool) (iu : ℕ)
    → ((acc : A) (n : FNode)
        → (acc' : A) × (act acc n ≡ some acc') × (test acc' ≡ (test acc || contains_iu n iu)))
    → (fuel : ℕ) (acc : A) (todos : List FNode) → total todos < fuel
    → (result : A) × (visit_loop act fuel acc todos ≡ some result)
      × (test result ≡ (test acc || any_has iu todos))
unfolding visit_loop any_has total
visit_loop_lem act test iu step zero acc todos h = elim h [ ]
visit_loop_lem act test iu step (suc fuel) acc [] h = (acc, refl, ground arith)
visit_loop_lem act test iu step (suc fuel) acc (top ∷ todos) h =
    let (acc', run, e) = step acc top in
    let (result, run', e') =
      visit_loop_lem act test iu step fuel acc' (push_children (get_children top) todos)
        (omega (arith, total-push_children (get_children top) todos, node_count_split top)) in
    (
      result,
      rw run run',
      ground
          (arith, e, e', any_has-push_children iu (get_children top) todos, tree_has_split iu top),
    )

-- containsIU of a tree returns, and tells whether some node of the tree holds the column;
-- collectIUs returns, and the set that it collects contains exactly these columns.
pub contains_and_collect :
    (root : FNode) (iu : ℕ)
    → (tree_contains_iu root iu ≡ some (tree_has iu root))
      × ((ius : List ℕ) × (collect_ius root ≡ some ius) × (has ius iu ≡ tree_has iu root))
unfolding tree_contains_iu collect_ius visit has any_has total
contains_and_collect root iu =
    let alone : (tree_has iu root || false) ≡ tree_has iu root = ground arith in
    let (ius, run, e) =
      visit_loop_lem (λ ius top. some (merge_sets ius (get_ius top))) (λ ius. has ius iu) iu
        (λ acc n. (
          merge_sets acc (get_ius n),
          refl,
          unfold contains_iu in has-merge_sets acc (get_ius n) iu,
        ))
        (suc (node_count root)) [] (root ∷ []) (omega arith) in
    (
      contains_iu_loop_lem (suc (node_count root)) iu (root ∷ []) (omega arith) ∙ ap some alone,
      (ius, run, e ∙ alone),
    )
