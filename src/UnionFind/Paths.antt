-- ===== src/UnionFind/Paths.antt =====
-- Paths to the root of a tree of the forest, the invariant, and what it gives.
use fact_db.Prelude.{
  ℕ, zero, suc, ◌+◌, ◌≤◌, ◌<◌, ◌≡◌, refl, sym, ◌∙◌, ap, some, [], ◌∷◌, arith, ◌==◌, if◌then◌else◌,
  length, get_elem?, set, some_injective, ℕ-cases, inl, inr,
}
use mathlib.Core.Path.{subst}
use fact_db.UnionFind.{Element, Elements, climb}

-- The root `r` is reached from `i` in `k` steps.
abbrev pub Reaches : Elements → ℕ → ℕ → ℕ → Type 0
Reaches es zero i r = (e : Element) × (get_elem? es i ≡ some e) × (e.representative ≡ 0) × (i ≡ r)
Reaches es (suc k) i r =
    (e : Element) × (get_elem? es i ≡ some e)
    × (p : ℕ) × (e.representative ≡ suc p)
    × Reaches es k p r

abbrev pub IsRoot : Elements → ℕ → Type 0
IsRoot es r = (e : Element) × (get_elem? es r ≡ some e) × (e.representative ≡ 0)

abbrev has_parent : Element → ℕ
has_parent e = if e.representative == 0 then 0 else 1

-- The number of elements that are no roots.
unfoldable pub nonroots : Elements → ℕ
nonroots [] = 0
nonroots (e ∷ es) = has_parent e + nonroots es

-- Ranks grow along the paths, and are at most the number of elements that are no roots.
pub record IsValid (es : Elements) : Type 0 where
  pub linked :
      (i : ℕ) (e : Element) (p : ℕ)
      → get_elem? es i ≡ some e
      → e.representative ≡ suc p
      → (f : Element) × (get_elem? es p ≡ some f) × (e.rank < f.rank)
  pub ranked : (i : ℕ) (e : Element) → get_elem? es i ≡ some e → e.rank ≤ nonroots es

pub nonroots-le : (es : Elements) → nonroots es ≤ length es
unfolding nonroots
nonroots-le [] = omega arith
nonroots-le (e ∷ es) = ground (arith, nonroots-le es)

pub nonroots-set :
    (es : Elements) (i : ℕ) (e f : Element)
    → get_elem? es i ≡ some e
    → nonroots (set es i f) + has_parent e ≡ nonroots es + has_parent f
unfolding nonroots
nonroots-set [] i e f h = cc
nonroots-set (x ∷ es) zero e f h =
    let p : x ≡ e = some_injective h in
    subst
      (λ q. has_parent f + nonroots es + has_parent q ≡ has_parent x + nonroots es + has_parent f) p
      (omega arith)
nonroots-set (x ∷ es) (suc i) e f h = omega (arith, nonroots-set es i e f h)

-- A path has one end.
pub Reaches-functional :
    (es : Elements) (k m i r q : ℕ) → Reaches es k i r → Reaches es m i q → r ≡ q
Reaches-functional es zero zero i r q (e, g, z, a) (e', g', z', b) = sym a ∙ b
Reaches-functional es zero (suc m) i r q (e, g, z, a) (e', g', p, s, rest) =
    absurd (ground (arith, some_injective (sym g ∙ g')))
Reaches-functional es (suc k) zero i r q (e, g, p, s, rest) (e', g', z', b) =
    absurd (ground (arith, some_injective (sym g ∙ g')))
Reaches-functional es (suc k) (suc m) i r q (e, g, p, s, rest) (e', g', p', s', rest') =
    let same : p ≡ p' = ground (arith, some_injective (sym g ∙ g')) in
    Reaches-functional es k m p r q rest (subst (λ x. Reaches es m x q) (sym same) rest')

pub Reaches-IsRoot : (es : Elements) (k i r : ℕ) → Reaches es k i r → IsRoot es r
Reaches-IsRoot es zero i r (e, g, z, a) = (e, ap (get_elem? es) (sym a) ∙ g, z)
Reaches-IsRoot es (suc k) i r (e, g, p, s, rest) = Reaches-IsRoot es k p r rest

-- The loop finds the end of the path.
pub climb-Reaches : (es : Elements) (k f i r : ℕ) → Reaches es k i r → k < f → climb f es i ≡ some r
unfolding climb
climb-Reaches es k zero i r h lt = elim lt [ ]
climb-Reaches es zero (suc f) i r (e, g, z, a) lt = rw (g, climb, z) (ap some a)
climb-Reaches es (suc k) (suc f) i r (e, g, p, s, rest) lt =
    rw (g, climb, s) (climb-Reaches es k f p r rest (omega arith))

module _ (es : Elements) (valid : IsValid es) where
  -- From every element a root is reached, in at most as many steps as there are elements.
  Reaches-total_in :
      (m i : ℕ) (e : Element)
      → get_elem? es i ≡ some e
      → nonroots es ≤ e.rank + m
      → (k : ℕ) × (r : ℕ) × (k ≤ m) × Reaches es k i r
  Reaches-total_in zero i e g bound = elim (ℕ-cases e.representative) [
    | inl z ↦ (0, i, omega arith, (e, g, z, refl))
    | inr (p, s) ↦
        let (f, gf, lt) = valid.linked i e p g s in absurd (omega (arith, valid.ranked p f gf))
  ]
  Reaches-total_in (suc m) i e g bound = elim (ℕ-cases e.representative) [
    | inl z ↦ (0, i, omega arith, (e, g, z, refl))
    | inr (p, s) ↦
        let (f, gf, lt) = valid.linked i e p g s in
        let (k, r, le, path) = Reaches-total_in m p f gf (omega arith) in
        (suc k, r, omega arith, (e, g, p, s, path))
  ]

  pub Reaches-total :
      (i : ℕ) (e : Element)
      → get_elem? es i ≡ some e
      → (k : ℕ) × (r : ℕ) × (k ≤ length es) × Reaches es k i r
  Reaches-total i e g =
      let (k, r, le, path) = Reaches-total_in (nonroots es) i e g (omega arith) in
      (k, r, omega (arith, nonroots-le es), path)

  -- Ranks grow along a path.
  pub rank-Reaches :
      (k i r : ℕ) (e f : Element)
      → get_elem? es i ≡ some e
      → get_elem? es r ≡ some f
      → Reaches es k i r
      → e.rank + k ≤ f.rank
  rank-Reaches zero i r e f g h (e', g', z, a) =
      let same : e ≡ f = some_injective (sym g ∙ ap (get_elem? es) a ∙ h) in
      omega (arith, ap (λ (x : Element). x.rank) same)
  rank-Reaches (suc k) i r e f g h (e', g', p, s, rest) =
      let same : e ≡ e' = some_injective (sym g ∙ g') in
      let (q, gq, lt) = valid.linked i e' p g' s in
      omega (arith, ap (λ (x : Element). x.rank) same, rank-Reaches k p r q f gq h rest)
