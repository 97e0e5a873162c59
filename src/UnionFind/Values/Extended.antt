-- ===== src/UnionFind/Values/Extended.antt =====
-- A forest over values with one more value.
use fact_db.Prelude.{
  ℕ, ◌<◌, ◌≡◌, ◌≢◌, sym, ◌∙◌, ap, none, some, List, [], ◌∷◌, ◌++◌, inl, inr, arith, length,
  get_elem?, get_or, get_elem?-lt, get_elem?-of_lt, get_elem?-append, get_elem?-append_last,
  length-append, some_injective, dec_lt, ℕ_discrete,
}
use mathlib.Core.Path.{subst}
use fact_db.UnionFind.Closure.{IsEquivalence, Same-lt, Joins}
use fact_db.UnionFind.Append.{
  with_fresh, length-with_fresh, with_fresh-IsValid, Same-with_fresh, Same-with_fresh_back,
}
use fact_db.UnionFind.Values.{ValueUnionFind, lookup}
use fact_db.UnionFind.Values.Related.{AtIndices, JoinsValues, Extends, get_or-of}

-- The structure with one more value.
unfoldable pub with_value : ValueUnionFind → ℕ → ValueUnionFind
with_value u v = record {
  union_find = with_fresh u.union_find;
  type2id = (v, length u.union_find) ∷ u.type2id;
  id2type = u.id2type ++ v ∷ [];
}

pub lookup-same : (m : List (ℕ × ℕ)) (v id : ℕ) → lookup ((v, id) ∷ m) v ≡ some id
unfolding lookup
lookup-same m v id = ground arith

lookup-other : (m : List (ℕ × ℕ)) (v w id : ℕ) → v ≢ w → lookup ((v, id) ∷ m) w ≡ lookup m w
unfolding lookup
lookup-other m v w id ne = ground (arith, ne)

-- A value that is not known is none of the known ones.
module _ (u : ValueUnionFind) (v : ℕ) (unknown : lookup u.type2id v ≡ none) where
  other_value : (w id : ℕ) → lookup u.type2id w ≡ some id → v ≢ w
  other_value w id h e = absurd (ground (arith, ap (lookup u.type2id) e))

  pub with_value-Extends : Extends u (with_value u v)
  unfolding with_value
  with_value-Extends = record {
    known = λ w id h. lookup-other u.type2id v w (length u.union_find) (other_value w id h) ∙ h;
    same = Same-with_fresh u.union_find;
  }

  module _ (R : ℕ → ℕ → Type 0) (eq : IsEquivalence R) (known : JoinsValues R u) where
    size_of : length u.id2type ≡ length u.union_find
    size_of = sym known.joins.sized

    kept : (i : ℕ) → i < length u.id2type → get_or (u.id2type ++ v ∷ []) i 0 ≡ get_or u.id2type i 0
    kept i lt =
        let (w, g) = get_elem?-of_lt u.id2type i lt in
        get_or-of _ i w (get_elem?-append u.id2type _ i g) ∙ sym (get_or-of u.id2type i w g)

    with_value-Joins :
        Joins
          (AtIndices R (with_value u v).id2type)
          (length (with_value u v).id2type)
          (with_value u v).union_find
    unfolding with_value
    with_value-Joins = record {
      valid = with_fresh-IsValid u.union_find known.joins.valid;
      sized =
          omega (arith, length-with_fresh u.union_find, length-append u.id2type (v ∷ []), size_of);
      sound = λ i j s. elim (Same-with_fresh_back u.union_find i j known.joins.valid s) [
        | inl old ↦
            let (li, lj) = Same-lt u.union_find i j old in
            subst (R _) (sym (kept j (omega (arith, size_of)))) (
              subst (λ q. R q (get_or u.id2type j 0)) (sym (kept i (omega (arith, size_of))))
                (known.joins.sound i j old))
        | inr e ↦ subst (AtIndices R (u.id2type ++ v ∷ []) i) e (eq.related _)
      ];
    }

    with_value-value_of :
        (w id : ℕ)
        → lookup (with_value u v).type2id w ≡ some id
        → get_elem? (with_value u v).id2type id ≡ some w
    unfolding with_value
    with_value-value_of w id h = elim (ℕ_discrete v w) [
      | yes e ↦
          let at : length u.id2type ≡ id =
            size_of
            ∙ some_injective (
                sym (lookup-same u.type2id v (length u.union_find))
                ∙ subst (λ q. lookup ((v, length u.union_find) ∷ u.type2id) q ≡ some id) (sym e)
                    h) in
          subst (λ q. get_elem? (u.id2type ++ v ∷ []) q ≡ some w) at
            (get_elem?-append_last u.id2type v ∙ ap some e)
      | no ne ↦
          get_elem?-append u.id2type _ id
            (known.value_of w id (sym (lookup-other u.type2id v w (length u.union_find) ne) ∙ h))
    ]

    with_value-index_of :
        (w id : ℕ)
        → get_elem? (with_value u v).id2type id ≡ some w
        → lookup (with_value u v).type2id w ≡ some id
    unfolding with_value
    with_value-index_of w id h = elim (dec_lt id (length u.id2type)) [
      | yes lt ↦
          let (x, g) = get_elem?-of_lt u.id2type id lt in
          let same : x ≡ w = some_injective (sym (get_elem?-append u.id2type _ id g) ∙ h) in
          let old = known.index_of w id (g ∙ ap some same) in
          lookup-other u.type2id v w (length u.union_find) (other_value w id old) ∙ old
      | no ge ↦
          let below = get_elem?-lt (u.id2type ++ v ∷ []) id h in
          let at : length u.id2type ≡ id = omega (arith, ge, length-append u.id2type (v ∷ [])) in
          let same : v ≡ w = some_injective (
            sym (get_elem?-append_last u.id2type v)
            ∙ ap (get_elem? (u.id2type ++ v ∷ [])) at
            ∙ h) in
          subst (λ q. lookup ((v, length u.union_find) ∷ u.type2id) q ≡ some id) same
            (lookup-same u.type2id v (length u.union_find) ∙ ap some (sym size_of ∙ at))
    ]

    pub with_value-JoinsValues : JoinsValues R (with_value u v)
    with_value-JoinsValues = record {
      joins = with_value-Joins;
      value_of = with_value-value_of;
      index_of = with_value-index_of;
    }
