-- ===== src/UnionFind/Append.antt =====
-- A forest with one more element, which is a root of its own.
use fact_db.Prelude.{
  ℕ, zero, suc, ◌+◌, ◌≤◌, ◌<◌, ◌≡◌, ◌⊎◌, refl, sym, ◌∙◌, ap, some, [], ◌∷◌, ◌++◌, inl, inr, arith,
  length, get_elem?, get_elem?-lt, get_elem?-of_lt, get_elem?-append, get_elem?-append_cases,
  length-append, dec_lt,
}
use fact_db.UnionFind.{Element, Elements}
use fact_db.UnionFind.Paths.{Reaches, IsValid, nonroots, Reaches-IsRoot}
use fact_db.UnionFind.Closure.{Same}

fresh : Element
fresh = record { representative = 0; rank = 0 }

abbrev pub with_fresh : Elements → Elements
with_fresh es = es ++ record { representative = 0; rank = 0 } ∷ []

pub length-with_fresh : (es : Elements) → length (with_fresh es) ≡ length es + 1
length-with_fresh es = length-append es _

nonroots-with_fresh : (es : Elements) → nonroots (with_fresh es) ≡ nonroots es
unfolding nonroots
nonroots-with_fresh [] = refl
nonroots-with_fresh (e ∷ es) = omega (arith, nonroots-with_fresh es)

-- What stands below the old length is what stood there; above it is the new root.
at-with_fresh :
    (es : Elements) (i : ℕ) (e : Element)
    → get_elem? (with_fresh es) i ≡ some e
    → (get_elem? es i ≡ some e) ⊎ (length es ≤ i) × (e.representative ≡ 0) × (e.rank ≡ 0)
at-with_fresh es i e g = elim (dec_lt i (length es)) [
  | yes lt ↦ let (f, h) = get_elem?-of_lt es i lt in inl (h ∙ sym (get_elem?-append es _ i h) ∙ g)
  | no ge ↦ elim (get_elem?-append_cases es _ i g) [
    | inl h ↦ absurd (ge (get_elem?-lt es i h))
    | inr s ↦ inr (
      omega (arith, ge),
      ap (λ (x : Element). x.representative) s,
      ap (λ (x : Element). x.rank) s,
    )
  ]
]

pub with_fresh-IsValid : (es : Elements) → IsValid es → IsValid (with_fresh es)
with_fresh-IsValid es v = record {
  linked = λ i e p g s. elim (at-with_fresh es i e g) [
    | inl h ↦ let (f, gf, lt) = v.linked i e p h s in (f, get_elem?-append es _ p gf, lt)
    | inr (le, z, r) ↦ absurd (omega arith)
  ];
  ranked = λ i e g. elim (at-with_fresh es i e g) [
    | inl h ↦ omega (arith, v.ranked i e h, nonroots-with_fresh es)
    | inr (le, z, r) ↦ omega arith
  ];
}

pub Reaches-with_fresh :
    (es : Elements) (k i r : ℕ) → Reaches es k i r → Reaches (with_fresh es) k i r
Reaches-with_fresh es zero i r (e, g, z, s) = (e, get_elem?-append es _ i g, z, s)
Reaches-with_fresh es (suc k) i r (e, g, p, s, rest) =
    (e, get_elem?-append es _ i g, p, s, Reaches-with_fresh es k p r rest)

-- A path is an old one, or stands at the new root.
path_back :
    (es : Elements) (k i r : ℕ)
    → IsValid es
    → Reaches (with_fresh es) k i r
    → Reaches es k i r ⊎ (i ≡ r) × (length es ≤ i)
path_back es zero i r v (e, g, z, s) = elim (at-with_fresh es i e g) [
  | inl h ↦ inl (e, h, z, s)
  | inr (le, _, _) ↦ inr (s, le)
]
path_back es (suc k) i r v (e, g, p, s, rest) = elim (at-with_fresh es i e g) [
  | inl h ↦
      let (f, gf, lt) = v.linked i e p h s in
      elim (path_back es k p r v rest) [
        | inl path ↦ inl (e, h, p, s, path)
        | inr (_, le) ↦ absurd (omega (arith, get_elem?-lt es p gf))
      ]
  | inr (le, z, _) ↦ absurd (omega arith)
]

pub Same-with_fresh : (es : Elements) (i j : ℕ) → Same es i j → Same (with_fresh es) i j
Same-with_fresh es i j (r, (k, p), (m, q)) =
    (r, (k, Reaches-with_fresh es k i r p), (m, Reaches-with_fresh es m j r q))

root_lt : (es : Elements) (k i r : ℕ) → Reaches es k i r → r < length es
root_lt es k i r path = let (e, g, z) = Reaches-IsRoot es k i r path in get_elem?-lt es r g

pub Same-with_fresh_back :
    (es : Elements) (i j : ℕ) → IsValid es → Same (with_fresh es) i j → Same es i j ⊎ (i ≡ j)
Same-with_fresh_back es i j v (r, (k, p), (m, q)) = elim (path_back es k i r v p) [
  | inl old ↦ elim (path_back es m j r v q) [
    | inl old' ↦ inl (r, (k, old), (m, old'))
    | inr (s, le) ↦ absurd (omega (arith, root_lt es k i r old))
  ]
  | inr (s, le) ↦ elim (path_back es m j r v q) [
    | inl old' ↦ absurd (omega (arith, root_lt es m j r old'))
    | inr (s', _) ↦ inr (s ∙ sym s')
  ]
]
