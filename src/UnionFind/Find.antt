-- ===== src/UnionFind/Find.antt =====
-- `find` and its loops: they end, return the root, and compress the path without changing a tree.
use fact_db.Prelude.{
  ℕ, zero, suc, ◌≤◌, ◌<◌, ◌≡◌, ◌≢◌, refl, sym, ◌∙◌, ap, true, false, some, arith, ◌==◌, length,
  get_elem?, set, some_injective, get_elem?-lt, get_elem?-set_self, get_elem?-set_ne, length-set,
  ℕ_discrete, ◌>>=◌, get_elem?-of_lt,
}
use mathlib.Core.Path.{subst}
use fact_db.UnionFind.{Element, Elements, set_representative, compress, find, find_const, rounds}
use fact_db.UnionFind.Paths.{
  Reaches, IsValid, nonroots, nonroots-set, Reaches-functional, Reaches-IsRoot, climb-Reaches,
  Reaches-total, rank-Reaches,
}

-- `es'` is valid, has as many elements, and every path leads to the same root in no more steps.
pub record Keeps (es es' : Elements) : Type 0 where
  pub valid : IsValid es'
  pub size : length es' ≡ length es
  pub roots : (k j r : ℕ) → Reaches es k j r → (m : ℕ) × (m ≤ k) × Reaches es' m j r

pub Keeps-refl : (es : Elements) → IsValid es → Keeps es es
Keeps-refl es v = record { valid = v; size = refl; roots = λ k j r h. (k, omega arith, h) }

pub Keeps-trans : {a b c : Elements} → Keeps a b → Keeps b c → Keeps a c
Keeps-trans f g = record {
  valid = g.valid;
  size = g.size ∙ f.size;
  roots = λ k j r h.
      let (m, le, h') = f.roots k j r h in
      let (n, le', h'') = g.roots m j r h' in (n, omega arith, h'');
}

-- The path of an element to its root has at most one step.
abbrev pub Near : Elements → ℕ → ℕ → Type 0
Near es j r = (m : ℕ) × (m ≤ 1) × Reaches es m j r

-- An element that has a representative is pointed at the root of higher rank.
module _ (es : Elements) (iter root p : ℕ) (e f : Element) (ge : get_elem? es iter ≡ some e)
    (has : e.representative ≡ suc p) (gf : get_elem? es root ≡ some f) (top : f.representative ≡ 0)
    (below : e.rank < f.rank) where
  after : Elements
  after = set es iter (set_representative e root)

  iter-ne-root : iter ≢ root
  iter-ne-root h =
      let same : e ≡ f = some_injective (sym ge ∙ ap (get_elem? es) h ∙ gf) in
      absurd (omega (arith, ap (λ (x : Element). x.rank) same))

  after_at : get_elem? after iter ≡ some (set_representative e root)
  unfolding after
  after_at = get_elem?-set_self es iter _ (get_elem?-lt es iter ge)

  after_other : (j : ℕ) → iter ≢ j → get_elem? after j ≡ get_elem? es j
  unfolding after
  after_other j n = get_elem?-set_ne es iter j _ n

  nonroots-after : nonroots after ≡ nonroots es
  unfolding after set_representative
  nonroots-after = ground (arith, nonroots-set es iter e (set_representative e root) ge)

  -- The rank of an element is what it was.
  rank_after :
      (j : ℕ) (x : Element)
      → get_elem? after j ≡ some x
      → (y : Element) × (get_elem? es j ≡ some y) × (y.rank ≡ x.rank)
  unfolding set_representative
  rank_after j x g = elim (ℕ_discrete iter j) [
    | yes s ↦
        let same : set_representative e root ≡ x =
          some_injective (sym after_at ∙ ap (get_elem? after) s ∙ g) in
        (e, ap (get_elem? es) (sym s) ∙ ge, ap (λ (q : Element). q.rank) same)
    | no n ↦ (x, sym (after_other j n) ∙ g, refl)
  ]

  rank_kept :
      (j : ℕ) (y : Element)
      → get_elem? es j ≡ some y
      → (x : Element) × (get_elem? after j ≡ some x) × (y.rank ≡ x.rank)
  unfolding set_representative
  rank_kept j y g = elim (ℕ_discrete iter j) [
    | yes s ↦
        let same : e ≡ y = some_injective (sym ge ∙ ap (get_elem? es) s ∙ g) in
        (
          set_representative e root,
          ap (get_elem? after) (sym s) ∙ after_at,
          ap (λ (q : Element). q.rank) (sym same),
        )
    | no n ↦ (y, after_other j n ∙ g, refl)
  ]

  after-IsValid : IsValid es → IsValid after
  unfolding set_representative
  after-IsValid v = record {
    linked = λ j x q g h. elim (ℕ_discrete iter j) [
      | yes s ↦
          let same : set_representative e root ≡ x =
            some_injective (sym after_at ∙ ap (get_elem? after) s ∙ g) in
          let target : root ≡ q = ground (arith, same) in
          (
            f,
            ap (get_elem? after) (sym target) ∙ after_other root iter-ne-root ∙ gf,
            omega (arith, ap (λ (z : Element). z.rank) same),
          )
      | no n ↦
          let (y, gy, lt) = v.linked j x q (sym (after_other j n) ∙ g) h in
          let (z, gz, eq) = rank_kept q y gy in (z, gz, omega arith)
    ];
    ranked = λ j x g.
        let (y, gy, eq) = rank_after j x g in omega (arith, v.ranked j y gy, nonroots-after);
  }

  after-Near : Near after iter root
  unfolding set_representative
  after-Near = (
    1,
    omega arith,
    (
      set_representative e root,
      after_at,
      root,
      omega arith,
      (f, after_other root iter-ne-root ∙ gf, top, refl),
    ),
  )

  pub repoint-Near : Near (set es iter (set_representative e root)) iter root
  unfolding after
  repoint-Near = after-Near

  after-Reaches :
      (m : ℕ)
      → Reaches es m iter root
      → (k j r : ℕ) → Reaches es k j r
      → (n : ℕ) × (n ≤ k) × Reaches after n j r
  unfolding set_representative
  after-Reaches m path zero j r (x, g, z, a) = elim (ℕ_discrete iter j) [
    | yes s ↦
        let same : e ≡ x = some_injective (sym ge ∙ ap (get_elem? es) s ∙ g) in
        absurd (ground (arith, same))
    | no n ↦ (0, omega arith, (x, after_other j n ∙ g, z, a))
  ]
  after-Reaches m path (suc k) j r (x, g, q, h, rest) = elim (ℕ_discrete iter j) [
    | yes s ↦
        let same : root ≡ r =
          Reaches-functional es m (suc k) iter root r path
            (subst (λ i. Reaches es (suc k) i r) (sym s) (x, g, q, h, rest)) in
        (
          1,
          omega arith,
          (
            set_representative e root,
            ap (get_elem? after) (sym s) ∙ after_at,
            root,
            omega arith,
            (f, after_other root iter-ne-root ∙ gf, top, same),
          ),
        )
    | no n ↦
        let (l, le, path') = after-Reaches m path k q r rest in
        (suc l, omega arith, (x, after_other j n ∙ g, q, h, path'))
  ]

  pub repoint-Keeps :
      IsValid es
      → (m : ℕ) → Reaches es m iter root
      → Keeps es (set es iter (set_representative e root))
  unfolding after
  repoint-Keeps v m path = record {
    valid = after-IsValid v;
    size = length-set es iter _;
    roots = after-Reaches m path;
  }

self_test : (i : ℕ) → (i == i) ≡ true
self_test i = ground arith

ne_test : (i j : ℕ) → i ≢ j → (i == j) ≡ false
ne_test i j n = ground (arith, n)

compress-Keeps :
    (f : ℕ) (es : Elements) (k iter root : ℕ)
    → IsValid es
    → Reaches es k iter root
    → k < f
    → (es' : Elements) × (compress f es iter root ≡ some es') × Keeps es es' × Near es' iter root
unfolding compress
compress-Keeps zero es k iter root v path lt = elim lt [ ]
compress-Keeps (suc f) es zero iter root v (e, g, z, a) lt =
    (es, rw (compress, a, self_test root), Keeps-refl es v, (0, omega arith, (e, g, z, a)))
compress-Keeps (suc f) es (suc k) iter root v (e, g, p, s, rest) lt =
    let (t, gt, top) = Reaches-IsRoot es k p root rest in
    let grow = rank-Reaches es v (suc k) iter root e t g gt (e, g, p, s, rest) in
    let ne : iter ≢ root = iter-ne-root es iter root p e t g s gt top (omega arith) in
    let keeps =
      repoint-Keeps es iter root p e t g s gt top (omega arith) v (suc k) (e, g, p, s, rest) in
    let (m, le, path) = keeps.roots k p root rest in
    let (one, near, here) = repoint-Near es iter root p e t g s gt top (omega arith) in
    let (es', run, keeps', far) = compress-Keeps f _ m p root keeps.valid path (omega arith) in
    let (n, less, here') = keeps'.roots one iter root here in
    (
      es',
      rw (compress, ne_test iter root ne, g, s) run,
      Keeps-trans keeps keeps',
      (n, omega arith, here'),
    )

-- The three cases of `find`: a root, a child of a root, and a longer path.
find_path :
    (es : Elements) (entry k root : ℕ)
    → IsValid es
    → Reaches es k entry root
    → k < rounds es
    → (es' : Elements) × (find es entry ≡ some (root, es'))
      × (find_const es entry ≡ some root)
      × Keeps es es'
      × Near es' entry root
unfolding find find_const
find_path es entry zero root v (e, g, z, a) lt = (
  es,
  rw (g, find, z) (ap (λ r. some (r, es)) a),
  rw (g, find_const, z) (ap some a),
  Keeps-refl es v,
  (0, omega arith, (e, g, z, a)),
)
find_path es entry (suc zero) root v (e, g, p, s, (t, gt, z, a)) lt = (
  es,
  rw (g, find, s, gt, z) (ap (λ r. some (r, es)) a),
  rw (g, find_const, s) (climb-Reaches es zero (rounds es) p root (t, gt, z, a) (omega arith)),
  Keeps-refl es v,
  (1, omega arith, (e, g, p, s, (t, gt, z, a))),
)
find_path es entry (suc (suc k)) root v (e, g, p, s, (t, gt, q, s', rest)) lt =
    let up = climb-Reaches es (suc k) (rounds es) p root (t, gt, q, s', rest) (omega arith) in
    let (es', run, keeps, near) =
      compress-Keeps (rounds es) es (suc (suc k)) entry root v (e, g, p, s, (t, gt, q, s', rest))
        lt in
    (es', rw (g, find, s, gt, s', up, ◌>>=◌, run), rw (g, find_const, s) up, keeps, near)

-- Afterwards the element is the root or its representative is the root.
pub find-Near :
    (es : Elements) (entry : ℕ)
    → IsValid es
    → entry < length es
    → (root : ℕ) × (es' : Elements) × (find es entry ≡ some (root, es'))
      × (find_const es entry ≡ some root)
      × Keeps es es'
      × Near es' entry root
      × ((k : ℕ) × Reaches es k entry root)
unfolding rounds
find-Near es entry v lt =
    let (e, g) = get_elem?-of_lt es entry lt in
    let (k, root, le, path) = Reaches-total es v entry e g in
    let (es', run, run', keeps, near) = find_path es entry k root v path (omega arith) in
    (root, es', run, run', keeps, near, (k, path))

-- On a valid forest, the loops of find and findConst end; both return the root to which the path
-- from the element leads, and find keeps the forest valid, its size, and the root of every
-- element.
pub find-Keeps :
    (es : Elements) (entry : ℕ)
    → IsValid es
    → entry < length es
    → (root : ℕ) × (es' : Elements) × (find es entry ≡ some (root, es'))
      × (find_const es entry ≡ some root)
      × Keeps es es'
      × ((k : ℕ) × Reaches es k entry root)
find-Keeps es entry v lt =
    let (root, es', run, run', keeps, near, path) = find-Near es entry v lt in
    (root, es', run, run', keeps, path)
