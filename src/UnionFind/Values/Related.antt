-- ===== src/UnionFind/Values/Related.antt =====
-- The classes of a forest over values, and when it joins only related values.
use fact_db.Prelude.{
  ℕ, zero, suc, ◌≡◌, refl, sym, ◌∙◌, some, List, [], ◌∷◌, arith, length, get_elem?, get_or,
  some_injective,
}
use mathlib.Core.Path.{subst}
use fact_db.UnionFind.Closure.{IsEquivalence, Same, Same-sym, Same-trans, Same-lt, Joins}
use fact_db.UnionFind.Values.{ValueUnionFind, lookup, new}

-- Two values have one root.
abbrev pub SameClass : ValueUnionFind → ℕ → ℕ → Type 0
SameClass u a b =
    (i : ℕ) × (j : ℕ) × (lookup u.type2id a ≡ some i)
    × (lookup u.type2id b ≡ some j)
    × Same u.union_find i j

-- The values at two indices are related.
abbrev pub AtIndices : (ℕ → ℕ → Type 0) → List ℕ → ℕ → ℕ → Type 0
AtIndices R values i j = R (get_or values i 0) (get_or values j 0)

-- A forest over values that joins only related ones; the two maps are inverse.
pub record JoinsValues (R : ℕ → ℕ → Type 0) (u : ValueUnionFind) : Type 0 where
  pub joins : Joins (AtIndices R u.id2type) (length u.id2type) u.union_find
  pub value_of : (v id : ℕ) → lookup u.type2id v ≡ some id → get_elem? u.id2type id ≡ some v
  pub index_of : (v id : ℕ) → get_elem? u.id2type id ≡ some v → lookup u.type2id v ≡ some id

-- What is known and what is joined stays so.
pub record Extends (u u' : ValueUnionFind) : Type 0 where
  pub known : (v id : ℕ) → lookup u.type2id v ≡ some id → lookup u'.type2id v ≡ some id
  pub same : (i j : ℕ) → Same u.union_find i j → Same u'.union_find i j

pub Extends-refl : (u : ValueUnionFind) → Extends u u
Extends-refl u = record { known = λ v id h. h; same = λ i j s. s }

pub Extends-trans : (u v w : ValueUnionFind) → Extends u v → Extends v w → Extends u w
Extends-trans u v w e f = record {
  known = λ x id h. f.known x id (e.known x id h);
  same = λ i j s. f.same i j (e.same i j s);
}

pub SameClass-Extends :
    (u u' : ValueUnionFind) (a b : ℕ) → Extends u u' → SameClass u a b → SameClass u' a b
SameClass-Extends u u' a b e (i, j, la, lb, s) =
    (i, j, e.known a i la, e.known b j lb, e.same i j s)

pub SameClass-sym : (u : ValueUnionFind) (a b : ℕ) → SameClass u a b → SameClass u b a
SameClass-sym u a b (i, j, la, lb, s) = (j, i, lb, la, Same-sym u.union_find i j s)

pub SameClass-trans :
    (u : ValueUnionFind) (a b c : ℕ) → SameClass u a b → SameClass u b c → SameClass u a c
SameClass-trans u a b c (i, j, la, lb, s) (j', k, lb', lc, t) =
    let same : j' ≡ j = some_injective (sym lb' ∙ lb) in
    (i, k, la, lc, Same-trans u.union_find i j k s (subst (λ q. Same u.union_find q k) same t))

pub at_indices :
    (R : ℕ → ℕ → Type 0) → IsEquivalence R → (values : List ℕ) → IsEquivalence (AtIndices R values)
at_indices R eq values = record {
  related = λ i. eq.related _;
  symmetric = λ i j. eq.symmetric _ _;
  transitive = λ i j k. eq.transitive _ _ _;
}

pub get_or-of : (values : List ℕ) (i v : ℕ) → get_elem? values i ≡ some v → get_or values i 0 ≡ v
get_or-of [] i v h = absurd (cc)
get_or-of (x ∷ xs) zero v h = some_injective h
get_or-of (x ∷ xs) (suc i) v h = get_or-of xs i v h

pub new-JoinsValues : (R : ℕ → ℕ → Type 0) → JoinsValues R new
unfolding new lookup
new-JoinsValues R = record {
  joins = record {
    valid = record { linked = λ i e p g s. absurd (cc); ranked = λ i e g. absurd (cc) };
    sized = refl;
    sound = λ i j s. absurd (omega (arith, Same-lt [] i j s));
  };
  value_of = λ v id h. absurd (cc);
  index_of = λ v id h. absurd (cc);
}
