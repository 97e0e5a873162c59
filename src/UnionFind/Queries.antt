-- ===== src/UnionFind/Queries.antt =====
-- `optimizeAccessPaths`, `isSingleSet` and the fresh structure.
use fact_db.Prelude.{
  ℕ, zero, suc, ◌+◌, ◌-◌, ◌≤◌, ◌<◌, ◌≡◌, ◌≢◌, refl, sym, ◌∙◌, Bool, true, false, some, arith, ◌==◌,
  length, get_elem?, some_injective, get_elem?-lt, ℕ_discrete, ◌>>=◌, get_elem?-of_lt, replicate,
}
use mathlib.Core.Path.{subst}
use fact_db.UnionFind.{
  Element, Elements, new, compress_from, optimize_access_paths, all_find, is_single_set,
}
use fact_db.UnionFind.Paths.{Reaches, IsValid, Reaches-functional, Reaches-total}
use fact_db.UnionFind.Find.{Keeps, Keeps-refl, Keeps-trans, Near, find-Near, find-Keeps}

fresh : Element
fresh = record { representative = 0; rank = 0 }

pub get_elem?-replicate : (n i : ℕ) (a e : Element) → get_elem? (replicate n a) i ≡ some e → e ≡ a
get_elem?-replicate zero i a e h = cc
get_elem?-replicate (suc n) zero a e h = some_injective (sym h)
get_elem?-replicate (suc n) (suc i) a e h = get_elem?-replicate n i a e h

-- The constructor gives a valid forest.
pub new-IsValid : (size : ℕ) → IsValid (new size)
unfolding new
new-IsValid size = record {
  linked = λ i e p g h. absurd (ground (arith, get_elem?-replicate size i _ e g));
  ranked = λ i e g. ground (arith, get_elem?-replicate size i _ e g);
}

pub Reaches-lt : (es : Elements) (k j r : ℕ) → Reaches es k j r → j < length es
Reaches-lt es zero j r (e, g, z, a) = get_elem?-lt es j g
Reaches-lt es (suc k) j r (e, g, p, s, rest) = get_elem?-lt es j g

-- From index `i` on, every element that had a root is next to it.
abbrev NearFrom : ℕ → Elements → Elements → Type 0
NearFrom i es es' = (j k r : ℕ) → i ≤ j → Reaches es k j r → Near es' j r

NearFrom-back :
    (i root : ℕ) (es es1 es' : Elements)
    → ((k : ℕ) × Reaches es k i root)
    → Near es1 i root
    → Keeps es es1
    → Keeps es1 es'
    → NearFrom (i + 1) es1 es'
    → NearFrom i es es'
NearFrom-back i root es es1 es' (n, here) (l, le, path) keep keep' later j k r from old =
    elim (ℕ_discrete i j) [
      | yes s ↦
          let (m, le', path') = keep'.roots l i root path in
          let same : root ≡ r =
            Reaches-functional es n k i root r here (subst (λ q. Reaches es k q r) (sym s) old) in
          subst (λ q. Near es' q r) s (subst (λ q. Near es' i q) same (m, omega arith, path'))
      | no ne ↦ let (m, le', path') = keep.roots k j r old in later j m r (omega arith) path'
    ]

compress_from-Near :
    (n i : ℕ) (es : Elements)
    → IsValid es
    → i + n ≡ length es
    → (es' : Elements) × (compress_from n i es ≡ some es') × Keeps es es' × NearFrom i es es'
unfolding compress_from
compress_from-Near zero i es v h =
    (es, refl, Keeps-refl es v, λ j k r from old. absurd (omega (arith, Reaches-lt es k j r old)))
compress_from-Near (suc n) i es v h =
    let (r, es1, run, const, keep, near, path) = find-Near es i v (omega arith) in
    let (es', run', keep', later) =
      compress_from-Near n (i + 1) es1 keep.valid (omega (arith, keep.size)) in
    (
      es',
      rw run run',
      Keeps-trans keep keep',
      NearFrom-back i r es es1 es' path near keep keep' later,
    )

-- optimizeAccessPaths returns on every valid forest; the forest stays valid, with its size and
-- all roots, and afterwards every element is a root or its representative is its root.
pub optimize_access_paths-Near :
    (es : Elements)
    → IsValid es
    → (es' : Elements) × (optimize_access_paths es ≡ some es')
      × Keeps es es'
      × ((j k r : ℕ) → Reaches es k j r → Near es' j r)
unfolding optimize_access_paths
optimize_access_paths-Near es v =
    let (es', run, keep, near) = compress_from-Near (length es) 0 es v (omega arith) in
    (es', run, keep, λ j k r old. near j k r (omega arith) old)

-- From index `i` on, either every root is `id`, or some root is not.
abbrev pub Verdict : Elements → ℕ → ℕ → Bool → Type 0
Verdict es i id true = (j k r : ℕ) → i ≤ j → Reaches es k j r → r ≡ id
Verdict es i id false = (j : ℕ) × (k : ℕ) × (r : ℕ) × Reaches es k j r × (r ≢ id)

Verdict-back :
    (es es1 : Elements) (i id : ℕ) (ans : Bool)
    → IsValid es
    → Keeps es es1
    → Verdict es1 i id ans
    → Verdict es i id ans
Verdict-back es es1 i id true v keep all =
    λ j k r le path. let (m, le', path') = keep.roots k j r path in all j m r le path'
Verdict-back es es1 i id false v keep (j, k, r, path, ne) =
    let (e, g) = get_elem?-of_lt es j (omega (arith, keep.size, Reaches-lt es1 k j r path)) in
    let (m, q, le, old) = Reaches-total es v j e g in
    let (m', le', new) = keep.roots m j q old in
    (j, m, q, old, λ h. ne (Reaches-functional es1 k m' j r q path new ∙ h))

extend :
    (es : Elements) (i id : ℕ) (ans : Bool)
    → ((k : ℕ) × Reaches es k i id)
    → Verdict es (i + 1) id ans
    → Verdict es i id ans
extend es i id false p w = w
extend es i id true (m, p) w = λ j k r le path. elim (ℕ_discrete i j) [
  | yes s ↦ Reaches-functional es k m i r id (subst (λ q. Reaches es k q r) (sym s) path) p
  | no ne ↦ w j k r (omega arith) path
]

all_find_lem :
    (n i id : ℕ) (es : Elements)
    → IsValid es
    → i + n ≡ length es
    → (ans : Bool) × (es' : Elements) × (all_find n i id es ≡ some (ans, es'))
      × Keeps es es'
      × Verdict es i id ans
unfolding all_find
all_find_lem zero i id es v h = (
  true,
  es,
  refl,
  Keeps-refl es v,
  λ j k r le path. absurd (omega (arith, Reaches-lt es k j r path)),
)
all_find_lem (suc n) i id es v h =
    let (r, es1, run, const, keep, path) = find-Keeps es i v (omega arith) in
    elim (ℕ_discrete id r) [
      | no ne ↦
          let t : (id == r) ≡ false = ground (arith, ne) in
          (false, es1, rw (run, ◌>>=◌, t), keep, (i, path.0, r, path.1, λ e. ne (sym e)))
      | yes s ↦
          let t : (id == r) ≡ true = ground arith in
          let (ans, es', run', keep', verdict) =
            all_find_lem n (i + 1) id es1 keep.valid (omega (arith, keep.size)) in
          (
            ans,
            es',
            rw (run, ◌>>=◌, t) run',
            Keeps-trans keep keep',
            extend es i id ans (path.0, subst (λ q. Reaches es path.0 i q) (sym s) path.1)
                (Verdict-back es es1 (i + 1) id ans v keep verdict),
          )
    ]

widen :
    (es : Elements) (id : ℕ) (ans : Bool)
    → ((k : ℕ) × Reaches es k 0 id)
    → Verdict es 1 id ans
    → Verdict es 0 id ans
widen es id false p w = w
widen es id true (m, p) w = λ j k r le path. elim (ℕ_discrete 0 j) [
  | yes s ↦ Reaches-functional es k m 0 r id (subst (λ q. Reaches es k q r) (sym s) path) p
  | no ne ↦ w j k r (omega arith) path
]

-- On a valid forest that is not empty, isSingleSet returns; its answer is true exactly when all
-- elements have the root of element 0, and it keeps the forest valid and all roots.
pub is_single_set_lem :
    (es : Elements)
    → IsValid es
    → 0 < length es
    → (ans : Bool) × (es' : Elements) × (root : ℕ) × (is_single_set es ≡ some (ans, es'))
      × Keeps es es'
      × ((k : ℕ) × Reaches es k 0 root)
      × Verdict es 0 root ans
unfolding is_single_set
is_single_set_lem es v pos =
    let (r, es1, run, const, keep, path) = find-Keeps es 0 v pos in
    let (ans, es', run', keep', verdict) =
      all_find_lem (length es - 1) 1 r es1 keep.valid (omega (arith, keep.size)) in
    (
      ans,
      es',
      r,
      rw (run, ◌>>=◌) run',
      Keeps-trans keep keep',
      path,
      widen es r ans path (Verdict-back es es1 1 r ans v keep verdict),
    )
