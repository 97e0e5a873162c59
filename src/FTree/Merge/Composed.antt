-- ===== src/FTree/Merge/Composed.antt =====
-- The assertion of the paper's variant holds for what `mergeTrees` passes: the composed nodes of an
-- iterator contain all the nodes that it requires.
use fact_db.Prelude.{
  ℕ, zero, suc, ◌≡◌, ◌≢◌, refl, sym, ◌∙◌, ap, true, false, none, some, List, arith, ◌>>=◌,
  >>=-eq-some, Option-cases, Bool-cases, some_injective, inl, inr, ◌||◌,
}
use mathlib.Core.Path.{subst}
use fact_db.IuSet.{has, insert_range}
use fact_db.IuSet.Laws.{has-insert_range}
use fact_db.FTree.Node.{FNode, get_node_id}
use fact_db.FTree.Trees.{
  FIterator, FTree, Store, IteratorRef, get_iterator, is_required, transitive_required,
  composed_available_nodes,
}
use fact_db.FTree.Merge.{required_test, composed_nodes}
use fact_db.FTree.Merge.Keeps.{AllComposed}

true-ne-false : true ≢ false
true-ne-false h = cc

-- One round of either loop over the chain of referenced iterators.
module _ (fuel : ℕ) (store : Store) (iter : FIterator) where
  own_ids :
      iter.referenced_iterator ≡ none
      → transitive_required (suc fuel) store iter ≡ some iter.required_node_ids
  unfolding transitive_required
  own_ids e = rw (transitive_required, e) refl

  chained_ids :
      (r : IteratorRef)
      → iter.referenced_iterator ≡ some r
      → transitive_required (suc fuel) store iter ≡ (
          get_iterator store r >>= λ next. transitive_required fuel store next >>= λ result.
          some (insert_range result iter.required_node_ids))
  unfolding transitive_required
  chained_ids r e = rw (transitive_required, e) refl

  not_required :
      (n : FNode)
      → has iter.required_node_ids (get_node_id n) ≡ false
      → iter.referenced_iterator ≡ none
      → is_required (suc fuel) store iter n ≡ some false
  unfolding is_required
  not_required n f e = rw (is_required, f, e) refl

  required_later :
      (n : FNode) (r : IteratorRef)
      → has iter.required_node_ids (get_node_id n) ≡ false
      → iter.referenced_iterator ≡ some r
      → is_required (suc fuel) store iter n
        ≡ (get_iterator store r >>= λ next. is_required fuel store next n)
  unfolding is_required
  required_later n r f e = rw (is_required, f, e) refl

is_required-transitive :
    (fuel : ℕ) (store : Store) (iter : FIterator) (n : FNode) (ids : List ℕ)
    → is_required fuel store iter n ≡ some true
    → transitive_required fuel store iter ≡ some ids
    → has ids (get_node_id n) ≡ true
unfolding is_required transitive_required
is_required-transitive zero store iter n ids h t = absurd (cc)
is_required-transitive (suc fuel) store iter n ids h t =
    let id = get_node_id n in
    elim (Option-cases iter.referenced_iterator) [
      | inl e ↦
          let same : iter.required_node_ids ≡ ids =
            some_injective (sym (own_ids fuel store iter e) ∙ t) in
          elim (Bool-cases (has iter.required_node_ids id)) [
            | inl y ↦ ap (λ l. has l id) (sym same) ∙ y
            | inr f ↦
                absurd (true-ne-false (some_injective (sym h ∙ not_required fuel store iter n f e)))
          ]
      | inr (r, e) ↦
          let (next, g, t1) =
            >>=-eq-some (get_iterator store r) _ (sym (chained_ids fuel store iter r e) ∙ t) in
          let (rest, t2, t3) = >>=-eq-some (transitive_required fuel store next) _ t1 in
          let split : has ids id ≡ (has rest id || has iter.required_node_ids id) =
            ap (λ l. has l id) (sym (some_injective t3))
            ∙ has-insert_range rest iter.required_node_ids id in
          elim (Bool-cases (has iter.required_node_ids id)) [
            | inl y ↦ split ∙ ground (arith, y)
            | inr f ↦
                let (next', g', h1) =
                  >>=-eq-some (get_iterator store r) _
                    (sym (required_later fuel store iter n r f e) ∙ h) in
                let same : next' ≡ next = some_injective (sym g' ∙ g) in
                let later =
                  is_required-transitive fuel store next n rest
                    (subst (λ q. is_required fuel store q n ≡ some true) same h1) t2 in
                split ∙ ground (arith, later)
          ]
    ]

pub composed_nodes-AllComposed :
    (fuel : ℕ) (store : Store) (iter : FIterator) (tree : FTree) (ids : List ℕ)
    → composed_nodes fuel store iter tree ≡ some ids
    → AllComposed (required_test fuel store iter) ids
unfolding composed_nodes required_test
composed_nodes-AllComposed fuel store iter tree ids h n req =
    let id = get_node_id n in
    let (available, a, h1) = >>=-eq-some (composed_available_nodes fuel store tree) _ h in
    let (required, t, h2) = >>=-eq-some (transitive_required fuel store iter) _ h1 in
    elim (Option-cases (is_required fuel store iter n)) [
      | inl e ↦ absurd (ground (arith, e))
      | inr (b, e) ↦
          let yes_b : b ≡ true = ground (arith, e) in
          let member = is_required-transitive fuel store iter n required (e ∙ ap some yes_b) t in
          ap (λ l. has l id) (sym (some_injective h2))
          ∙ has-insert_range available required id
          ∙ ground (arith, member)
    ]
