-- ===== src/Tests/Predicates.antt =====
-- Pushing down a predicate of three terms.
use fact_db.Prelude.{ℕ, ◌≡◌, refl, Bool, none, some, List, [], ◌∷◌}
use fact_db.PushDown.{Expr, term, both, Parts, push_down}
use fact_db.PushDown.Meaning.{eval, eval_parts, Separate, push_down_lem}

-- A term is the list of its columns; the columns 1 and 2 are the left child's, 3 the right one's.
abbrev predicate : Expr (List ℕ)
predicate = both (both (term (1 ∷ [])) (term (3 ∷ []))) (term (2 ∷ 3 ∷ []))

push_down_runs :
    push_down (λ t. t) (1 ∷ 2 ∷ []) (3 ∷ []) predicate
    ≡ some (record {
      left = some (term (1 ∷ []));
      right = some (term (3 ∷ []));
      parent = some (term (2 ∷ 3 ∷ []));
    })
unfolding push_down fact_db.PushDown.split_loop fact_db.PushDown.expr_size
    fact_db.PushDown.distribute fact_db.IuSet.intersect fact_db.IuSet.intersect_into
    fact_db.IuSet.has fact_db.IuSet.insert_iu
push_down_runs = refl

push_down_lem_example :
    (parts : Parts (List ℕ)) × (push_down (λ t. t) (1 ∷ 2 ∷ []) (3 ∷ []) predicate ≡ some parts)
    × Separate (λ t. t) (1 ∷ 2 ∷ []) (3 ∷ []) parts
    × ((v : List ℕ → Bool) → eval_parts v parts ≡ eval v predicate)
push_down_lem_example =
    push_down_lem (λ t. t) (1 ∷ 2 ∷ []) (3 ∷ []) predicate
      (unfold fact_db.PushDown.no_common fact_db.IuSet.intersect fact_db.IuSet.intersect_into
          fact_db.IuSet.has in
        refl)

-- Children that share a column fail the assertion.
push_down_refuses : push_down (λ t. t) (1 ∷ 3 ∷ []) (3 ∷ []) predicate ≡ none
unfolding push_down fact_db.PushDown.split_loop fact_db.PushDown.expr_size fact_db.IuSet.intersect
    fact_db.IuSet.intersect_into fact_db.IuSet.has fact_db.IuSet.insert_iu
    fact_db.PushDown.no_common
push_down_refuses = refl
