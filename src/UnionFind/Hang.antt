-- ===== src/UnionFind/Hang.antt =====
-- A root hung below another one, as `link` does it: what the forest is then.
use fact_db.Prelude.{
  ℕ, zero, suc, ◌+◌, ◌≤◌, ◌<◌, ◌≡◌, ◌≢◌, sym, ◌∙◌, ap, true, false, some, arith, ◌==◌,
  if◌then◌else◌, length, get_elem?, set, some_injective, get_elem?-lt, get_elem?-set_self,
  get_elem?-set_ne, length-set, ℕ_discrete, inl, inr, ◌⊎◌,
}
use fact_db.UnionFind.{Element, Elements, set_representative}
use fact_db.UnionFind.Paths.{Reaches, IsValid, nonroots, nonroots-set}

-- `es'` is `es` with the root `x` hung below the root `w`.
pub record Hangs (es es' : Elements) (x w : ℕ) : Type 0 where
  pub valid : IsValid es'
  pub size : length es' ≡ length es
  pub roots : (k j r : ℕ) → Reaches es k j r → (m : ℕ) × Reaches es' m j (if r == x then w else r)

-- The root `x` is pointed at the root `w`, whose rank becomes `n`.
module _ (es : Elements) (x w n : ℕ) (e f : Element) (ge : get_elem? es x ≡ some e)
    (gf : get_elem? es w ≡ some f) (re : e.representative ≡ 0) (rf : f.representative ≡ 0)
    (ne : x ≢ w) (up : e.rank < n) (keep : f.rank ≤ n) (bound : n ≤ nonroots es + 1) where
  lifted : Element
  lifted = record f { rank = n }

  after : Elements
  after = set (set es x (set_representative e w)) w lifted

  at_w : get_elem? after w ≡ some lifted
  unfolding after
  at_w =
      get_elem?-set_self (set es x (set_representative e w)) w lifted
        (omega (arith, length-set es x (set_representative e w), get_elem?-lt es w gf))

  at_x : get_elem? after x ≡ some (set_representative e w)
  unfolding after
  at_x =
      get_elem?-set_ne (set es x (set_representative e w)) w x lifted (λ h. ne (sym h))
      ∙ get_elem?-set_self es x _ (get_elem?-lt es x ge)

  at_other : (j : ℕ) → x ≢ j → w ≢ j → get_elem? after j ≡ get_elem? es j
  unfolding after
  at_other j nx nw =
      get_elem?-set_ne (set es x (set_representative e w)) w j lifted nw
      ∙ get_elem?-set_ne es x j _ nx

  nonroots-after : nonroots after ≡ nonroots es + 1
  unfolding after set_representative lifted
  nonroots-after =
      let g : get_elem? (set es x (set_representative e w)) w ≡ some f =
        get_elem?-set_ne es x w _ ne ∙ gf in
      ground (
        arith,
        nonroots-set es x e (set_representative e w) ge,
        nonroots-set (set es x (set_representative e w)) w f lifted g,
      )

  -- Where an element of the new vector comes from.
  origin :
      (j : ℕ) (y : Element)
      → get_elem? after j ≡ some y
      → ((j ≡ x) × (y ≡ set_representative e w))
        ⊎ (((j ≡ w) × (y ≡ lifted)) ⊎ ((x ≢ j) × (w ≢ j) × (get_elem? es j ≡ some y)))
  origin j y g = elim (ℕ_discrete x j) [
    | yes s ↦ inl (sym s, some_injective (sym g ∙ ap (get_elem? after) (sym s) ∙ at_x))
    | no nx ↦ elim (ℕ_discrete w j) [
      | yes s ↦ inr (inl (sym s, some_injective (sym g ∙ ap (get_elem? after) (sym s) ∙ at_w)))
      | no nw ↦ inr (inr (nx, nw, sym (at_other j nx nw) ∙ g))
    ]
  ]

  rank_kept :
      (j : ℕ) (y : Element)
      → get_elem? es j ≡ some y
      → (z : Element) × (get_elem? after j ≡ some z) × (y.rank ≤ z.rank)
  unfolding set_representative lifted
  rank_kept j y g = elim (ℕ_discrete x j) [
    | yes s ↦
        let same : e ≡ y = some_injective (sym ge ∙ ap (get_elem? es) s ∙ g) in
        (
          set_representative e w,
          ap (get_elem? after) (sym s) ∙ at_x,
          omega (arith, ap (λ (q : Element). q.rank) same),
        )
    | no nx ↦ elim (ℕ_discrete w j) [
      | yes s ↦
          let same : f ≡ y = some_injective (sym gf ∙ ap (get_elem? es) s ∙ g) in
          (
            lifted,
            ap (get_elem? after) (sym s) ∙ at_w,
            omega (arith, ap (λ (q : Element). q.rank) same),
          )
      | no nw ↦ (y, at_other j nx nw ∙ g, omega arith)
    ]
  ]

  after-IsValid : IsValid es → IsValid after
  unfolding set_representative lifted
  after-IsValid v = record {
    linked = λ j y q g h. elim (origin j y g) [
      | inl (s, same) ↦
          let target : w ≡ q = ground (arith, same) in
          (
            lifted,
            ap (get_elem? after) (sym target) ∙ at_w,
            omega (arith, ap (λ (z : Element). z.rank) same),
          )
      | inr (inl (s, same)) ↦ absurd (ground (arith, same))
      | inr (inr (nx, nw, old)) ↦
          let (z, gz, lt) = v.linked j y q old h in
          let (z', gz', le) = rank_kept q z gz in (z', gz', omega arith)
    ];
    ranked = λ j y g. elim (origin j y g) [
      | inl (s, same) ↦ omega (arith, nonroots-after, ap (λ (z : Element). z.rank) same)
      | inr (inl (s, same)) ↦ omega (arith, nonroots-after, ap (λ (z : Element). z.rank) same)
      | inr (inr (nx, nw, old)) ↦ omega (arith, nonroots-after, v.ranked j y old)
    ];
  }

  after-Reaches :
      (k j r : ℕ) → Reaches es k j r → (m : ℕ) × Reaches after m j (if r == x then w else r)
  unfolding set_representative lifted
  after-Reaches zero j r (y, g, z, a) = elim (ℕ_discrete x j) [
    | yes s ↦
        let t : (r == x) ≡ true = ground arith in
        (
          1,
          (
            set_representative e w,
            ap (get_elem? after) (sym s) ∙ at_x,
            w,
            omega arith,
            (lifted, at_w, rf, rw t),
          ),
        )
    | no nx ↦
        let t : (r == x) ≡ false = ground (arith, nx) in
        elim (ℕ_discrete w j) [
          | yes s ↦ (0, (lifted, ap (get_elem? after) (sym s) ∙ at_w, rf, rw t a))
          | no nw ↦ (0, (y, at_other j nx nw ∙ g, z, rw t a))
        ]
  ]
  after-Reaches (suc k) j r (y, g, p, h, rest) =
      let (m, path) = after-Reaches k p r rest in
      elim (ℕ_discrete x j) [
        | yes s ↦
            let same : e ≡ y = some_injective (sym ge ∙ ap (get_elem? es) s ∙ g) in
            absurd (ground (arith, same))
        | no nx ↦ elim (ℕ_discrete w j) [
          | yes s ↦
              let same : f ≡ y = some_injective (sym gf ∙ ap (get_elem? es) s ∙ g) in
              absurd (ground (arith, same))
          | no nw ↦ (suc m, (y, at_other j nx nw ∙ g, p, h, path))
        ]
      ]

  pub hang-Hangs :
      IsValid es → Hangs es (set (set es x (set_representative e w)) w (record f { rank = n })) x w
  unfolding after lifted
  hang-Hangs v = record {
    valid = after-IsValid v;
    size = length-set (set es x (set_representative e w)) w _ ∙ length-set es x _;
    roots = after-Reaches;
  }
