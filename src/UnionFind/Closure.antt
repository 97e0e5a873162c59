-- ===== src/UnionFind/Closure.antt =====
-- What a forest means: the equivalence of elements with one root, and how `unionSets` changes it.
use fact_db.Prelude.{
  ℕ, zero, suc, ◌<◌, ◌≡◌, ◌⊎◌, refl, sym, ◌∙◌, ap, some, inl, inr, arith, ◌==◌, ◌||◌, if◌then◌else◌,
  length, get_elem?-of_lt, ℕ_discrete, length-replicate,
}
use mathlib.Core.Path.{subst}
use fact_db.UnionFind.{Element, Elements, new, union_sets}
use fact_db.UnionFind.Paths.{Reaches, IsValid, Reaches-functional, Reaches-total, Reaches-IsRoot}
use fact_db.UnionFind.Queries.{new-IsValid, get_elem?-replicate, Reaches-lt}
use fact_db.UnionFind.Find.{Keeps}
use fact_db.UnionFind.Union.{Unites, union_sets-Unites}

-- The least equivalence that contains a relation.
pub data Closure (E : ℕ → ℕ → Type 0) (i : ℕ) : ℕ → Type 0 where
  stay : Closure E i i
  forth : {j k : ℕ} → Closure E i j → E j k → Closure E i k
  against : {j k : ℕ} → Closure E i j → E k j → Closure E i k

module _ {E : ℕ → ℕ → Type 0} where
  pub Closure-trans : {i j k : ℕ} → Closure E i j → Closure E j k → Closure E i k
  Closure-trans p stay = p
  Closure-trans p (forth q e) = forth (Closure-trans p q) e
  Closure-trans p (against q e) = against (Closure-trans p q) e

  pub Closure-sym : {i j : ℕ} → Closure E i j → Closure E j i
  Closure-sym stay = stay
  Closure-sym (forth p e) = Closure-trans (against stay e) (Closure-sym p)
  Closure-sym (against p e) = Closure-trans (forth stay e) (Closure-sym p)

pub record IsEquivalence (R : ℕ → ℕ → Type 0) : Type 0 where
  pub related : (i : ℕ) → R i i
  pub symmetric : (i j : ℕ) → R i j → R j i
  pub transitive : (i j k : ℕ) → R i j → R j k → R i k

pub Closure-IsEquivalence : (E : ℕ → ℕ → Type 0) → IsEquivalence (Closure E)
Closure-IsEquivalence E = record {
  related = λ i. stay;
  symmetric = λ i j p. Closure-sym p;
  transitive = λ i j k p q. Closure-trans p q;
}

-- `i` has the root `r`.
abbrev pub RootIs : Elements → ℕ → ℕ → Type 0
RootIs es i r = (k : ℕ) × Reaches es k i r

-- `i` and `j` have one root.
abbrev pub Same : Elements → ℕ → ℕ → Type 0
Same es i j = (r : ℕ) × RootIs es i r × RootIs es j r

pub RootIs-functional : (es : Elements) (i r q : ℕ) → RootIs es i r → RootIs es i q → r ≡ q
RootIs-functional es i r q (k, p) (m, p') = Reaches-functional es k m i r q p p'

pub RootIs-total : (es : Elements) (i : ℕ) → IsValid es → i < length es → (r : ℕ) × RootIs es i r
RootIs-total es i v lt =
    let (e, g) = get_elem?-of_lt es i lt in
    let (k, r, le, path) = Reaches-total es v i e g in (r, (k, path))

pub Same-sym : (es : Elements) (i j : ℕ) → Same es i j → Same es j i
Same-sym es i j (r, p, q) = (r, q, p)

pub Same-trans : (es : Elements) (i j k : ℕ) → Same es i j → Same es j k → Same es i k
Same-trans es i j k (r, p, q) (s, q', t) =
    (s, subst (RootIs es i) (RootIs-functional es j r s q q') p, t)

module _ (es es' : Elements) (a b ret : ℕ) (u : Unites es a b ret es') where
  -- The root that a root has afterwards.
  moved : ℕ → ℕ
  moved r = if (r == u.left) || (r == u.right) then ret else r

  RootIs-moved : (i r : ℕ) → RootIs es i r → RootIs es' i (moved r)
  unfolding moved
  RootIs-moved i r (k, p) = u.roots k i r p

  pub Unites-Same : (i j : ℕ) → Same es i j → Same es' i j
  Unites-Same i j (r, p, q) = (moved r, RootIs-moved i r p, RootIs-moved j r q)

  moved_left : moved u.left ≡ ret
  unfolding moved
  moved_left = ground arith

  moved_right : moved u.right ≡ ret
  unfolding moved
  moved_right = ground arith

  pub Unites-joined : Same es' a b
  Unites-joined = (
    ret,
    subst (RootIs es' a) moved_left (RootIs-moved a u.left u.left_root),
    subst (RootIs es' b) moved_right (RootIs-moved b u.right u.right_root),
  )

  IsOne : ℕ → Type 0
  IsOne r = (r ≡ u.left) ⊎ (r ≡ u.right)

  moved-cases : (r : ℕ) → IsOne r × (moved r ≡ ret) ⊎ (¬ IsOne r) × (moved r ≡ r)
  unfolding moved IsOne
  moved-cases r = elim (ℕ_discrete r u.left) [
    | yes p ↦ inl (inl p, ground arith)
    | no np ↦ elim (ℕ_discrete r u.right) [
      | yes q ↦ inl (inr q, ground arith)
      | no nq ↦ inr (λ one. elim one [ inl p ↦ np p | inr q ↦ nq q ], ground (arith, np, nq))
    ]
  ]

  ret-IsOne : IsOne ret
  unfolding IsOne
  ret-IsOne = u.winner

  -- Two roots that become one were one, or were the two.
  moved_same : (r q : ℕ) → moved r ≡ moved q → (r ≡ q) ⊎ IsOne r × IsOne q
  moved_same r q h = elim (moved-cases r) [
    | inl (one, e) ↦ elim (moved-cases q) [
      | inl (one', e') ↦ inr (one, one')
      | inr (other, e') ↦ absurd (other (subst IsOne (sym e ∙ h ∙ e') ret-IsOne))
    ]
    | inr (other, e) ↦ elim (moved-cases q) [
      | inl (one', e') ↦ absurd (other (subst IsOne (sym e' ∙ sym h ∙ e) ret-IsOne))
      | inr (other', e') ↦ inl (sym e ∙ h ∙ e')
    ]
  ]

  module _ (R : ℕ → ℕ → Type 0) (eq : IsEquivalence R) (sound : (i j : ℕ) → Same es i j → R i j)
      (ab : R a b) where
    to_left : (i r : ℕ) → RootIs es i r → IsOne r → R i a
    unfolding IsOne
    to_left i r p (inl e) = sound i a (u.left, subst (RootIs es i) e p, u.left_root)
    to_left i r p (inr e) =
        eq.transitive i b a (sound i b (u.right, subst (RootIs es i) e p, u.right_root))
          (eq.symmetric a b ab)

    -- The union of two related elements joins only related elements.
    pub Unites-sound : (i j : ℕ) → IsValid es → i < length es → j < length es → Same es' i j → R i j
    Unites-sound i j v li lj (s, p, q) =
        let (r, old) = RootIs-total es i v li in
        let (t, old') = RootIs-total es j v lj in
        let same : moved r ≡ moved t =
          RootIs-functional es' i (moved r) s (RootIs-moved i r old) p
          ∙ RootIs-functional es' j s (moved t) q (RootIs-moved j t old') in
        elim (moved_same r t same) [
          | inl e ↦ sound i j (t, subst (RootIs es i) e old, old')
          | inr (one, one') ↦
              eq.transitive i a j (to_left i r old one) (eq.symmetric j a (to_left j t old' one'))
        ]

pub Same-lt : (es : Elements) (i j : ℕ) → Same es i j → (i < length es) × (j < length es)
Same-lt es i j (r, (k, p), (m, q)) = (Reaches-lt es k i r p, Reaches-lt es m j r q)

pub RootIs-root : (es : Elements) (i r : ℕ) → RootIs es i r → RootIs es r r
RootIs-root es i r (k, p) = let (e, g, z) = Reaches-IsRoot es k i r p in (0, (e, g, z, refl))

-- Path compression changes no root.
pub Keeps-Same : (es es' : Elements) (i j : ℕ) → Keeps es es' → Same es i j → Same es' i j
Keeps-Same es es' i j keep (r, (k, p), (m, q)) =
    let (k', _, p') = keep.roots k i r p in
    let (m', _, q') = keep.roots m j r q in (r, (k', p'), (m', q'))

pub RootIs-back :
    (es es' : Elements) (i r : ℕ) → IsValid es → Keeps es es' → RootIs es' i r → RootIs es i r
RootIs-back es es' i r v keep (k, p) =
    let (q, (m, old)) = RootIs-total es i v (omega (arith, keep.size, Reaches-lt es' k i r p)) in
    let (m', _, new) = keep.roots m i q old in
    subst (RootIs es i) (RootIs-functional es' i q r (m', new) (k, p)) (m, old)

pub Keeps-Same_back :
    (es es' : Elements) (i j : ℕ) → IsValid es → Keeps es es' → Same es' i j → Same es i j
Keeps-Same_back es es' i j v keep (r, p, q) =
    (r, RootIs-back es es' i r v keep p, RootIs-back es es' j r v keep q)

-- A forest of `size` elements that joins only related elements.
pub record Joins (R : ℕ → ℕ → Type 0) (size : ℕ) (es : Elements) : Type 0 where
  pub valid : IsValid es
  pub sized : length es ≡ size
  pub sound : (i j : ℕ) → Same es i j → R i j

-- On such a forest, `unionSets` of two related elements joins them, keeps what is
-- joined, and gives such a forest.
pub union_sets-Joins :
    (R : ℕ → ℕ → Type 0) (size : ℕ) (es : Elements) (a b : ℕ)
    → IsEquivalence R
    → Joins R size es
    → a < size
    → b < size
    → R a b
    → (ret : ℕ) × (es' : Elements) × (union_sets es a b ≡ some (ret, es'))
      × Joins R size es'
      × Same es' a b
      × ((i j : ℕ) → Same es i j → Same es' i j)
union_sets-Joins R size es a b eq known la lb ab =
    let (ret, es', run, u) =
      union_sets-Unites es a b known.valid (omega (arith, known.sized))
        (omega (arith, known.sized)) in
    (
      ret,
      es',
      run,
      record {
        valid = u.valid;
        sized = u.size ∙ known.sized;
        sound = λ i j same.
            let (li, lj) = Same-lt es' i j same in
            Unites-sound es es' a b ret u R eq known.sound ab i j known.valid
              (omega (arith, u.size)) (omega (arith, u.size)) same;
      },
      Unites-joined es es' a b ret u,
      λ i j. Unites-Same es es' a b ret u i j,
    )

alone : (size i k r : ℕ) → Reaches (new size) k i r → i ≡ r
unfolding new
alone size i zero r (e, g, z, s) = s
alone size i (suc k) r (e, g, p, s, rest) =
    absurd
      (ground (arith, ap (λ (x : Element). x.representative) (get_elem?-replicate size i _ e g)))

-- In the fresh forest every element stands alone.
pub new-Joins : (R : ℕ → ℕ → Type 0) (size : ℕ) → IsEquivalence R → Joins R size (new size)
unfolding new
new-Joins R size eq = record {
  valid = new-IsValid size;
  sized = length-replicate size _;
  sound = λ i j (r, (k, p), (m, q)).
      subst (R i) (alone size i k r p ∙ sym (alone size j m r q)) (eq.related i);
}
