-- ===== src/UnionFind/Values/Classes.antt =====
-- What the operations of a forest over values do to the classes.
use fact_db.Prelude.{
  ℕ, ◌<◌, ◌≡◌, ◌↔◌, refl, sym, ◌∙◌, true, some, inl, inr, arith, length, get_or, get_elem?-lt,
  some_injective, ◌>>=◌, Option-cases,
}
use mathlib.Core.Path.{subst}
use fact_db.UnionFind.{Elements}
use fact_db.UnionFind.Find.{find-Keeps}
use fact_db.UnionFind.Closure.{
  IsEquivalence, Same-lt, Joins, union_sets-Joins, RootIs, RootIs-root, RootIs-total,
  RootIs-functional, Keeps-Same, Keeps-Same_back,
}
use fact_db.UnionFind.Values.{
  ValueUnionFind, lookup, contains, get_id, get_id_const, add_element, union_sets, find_const,
}
use fact_db.UnionFind.Values.Related.{
  SameClass, AtIndices, JoinsValues, Extends, Extends-refl, Extends-trans, at_indices, get_or-of,
}
use fact_db.UnionFind.Values.Extended.{
  with_value, lookup-same, with_value-Extends, with_value-JoinsValues,
}

contains-lookup :
    (u : ValueUnionFind) (v : ℕ) → contains u v ≡ true → (id : ℕ) × (lookup u.type2id v ≡ some id)
unfolding contains
contains-lookup u v h = elim (Option-cases (lookup u.type2id v)) [
  | inl e ↦ absurd (ground arith)
  | inr found ↦ found
]

module _ (R : ℕ → ℕ → Type 0) (eq : IsEquivalence R) where
  -- `getId` gives a known value its index and adds an unknown one.
  pub get_id-JoinsValues :
      (u : ValueUnionFind) (v : ℕ)
      → JoinsValues R u
      → (u' : ValueUnionFind) × (id : ℕ) × (get_id u v ≡ (u', id))
        × JoinsValues R u'
        × Extends u u'
        × (lookup u'.type2id v ≡ some id)
  unfolding get_id with_value
  get_id-JoinsValues u v known = elim (Option-cases (lookup u.type2id v)) [
    | inr (id, e) ↦ (u, id, rw (get_id, e) refl, known, Extends-refl u, e)
    | inl e ↦ (
      with_value u v,
      length u.union_find,
      rw (get_id, e) refl,
      with_value-JoinsValues u v e R eq known,
      with_value-Extends u v e,
      lookup-same u.type2id v (length u.union_find),
    )
  ]

  index_lt :
      (u : ValueUnionFind) (v id : ℕ)
      → JoinsValues R u
      → lookup u.type2id v ≡ some id
      → id < length u.id2type
  index_lt u v id known h = get_elem?-lt u.id2type id (known.value_of v id h)

  -- The forest alone has changed, and joins more.
  refined :
      (u : ValueUnionFind) (es : Elements)
      → JoinsValues R u
      → Joins (AtIndices R u.id2type) (length u.id2type) es
      → JoinsValues R (record u { union_find = es })
  refined u es known joins = record {
    joins = joins;
    value_of = known.value_of;
    index_of = known.index_of;
  }

  -- `addElement` returns and changes no class.
  pub add_element-JoinsValues :
      (u : ValueUnionFind) (v : ℕ)
      → JoinsValues R u
      → (u' : ValueUnionFind) × (rep : ℕ) × (add_element u v ≡ some (u', rep))
        × JoinsValues R u'
        × Extends u u'
        × SameClass u' v v
  unfolding add_element
  add_element-JoinsValues u v known =
      let (u1, id, run, known1, ext, at) = get_id-JoinsValues u v known in
      let (rep, es, run', const, keep, path) =
        find-Keeps u1.union_find id known1.joins.valid
          (omega (arith, known1.joins.sized, index_lt u1 v id known1 at)) in
      let (r, root) =
        RootIs-total u1.union_find id known1.joins.valid
          (omega (arith, known1.joins.sized, index_lt u1 v id known1 at)) in
      (
        record u1 { union_find = es },
        rep,
        rw (run, run', ◌>>=◌) refl,
        refined u1 es known1 (record {
          valid = keep.valid;
          sized = keep.size ∙ known1.joins.sized;
          sound = λ i j s.
              known1.joins.sound i j
                (Keeps-Same_back u1.union_find es i j known1.joins.valid keep s);
        }),
        Extends-trans u u1 _ ext
            (record { known = λ w i h. h; same = λ i j. Keeps-Same u1.union_find es i j keep }),
        (id, id, at, at, Keeps-Same u1.union_find es id id keep (r, root, root)),
      )

  -- `unionSets` of two related values returns, joins them, and joins no others but related ones.
  pub union_sets-JoinsValues :
      (u : ValueUnionFind) (a b : ℕ)
      → JoinsValues R u
      → R a b
      → (u' : ValueUnionFind) × (rep : ℕ) × (union_sets u a b ≡ some (u', rep))
        × JoinsValues R u'
        × Extends u u'
        × SameClass u' a b
  unfolding union_sets
  union_sets-JoinsValues u a b known ab =
      let (u1, i, run1, known1, ext1, at1) = get_id-JoinsValues u a known in
      let (u2, j, run2, known2, ext2, at2) = get_id-JoinsValues u1 b known1 in
      let at1' = ext2.known a i at1 in
      let related : AtIndices R u2.id2type i j =
        subst (λ q. R q (get_or u2.id2type j 0))
          (sym (get_or-of u2.id2type i a (known2.value_of a i at1')))
          (subst (R a) (sym (get_or-of u2.id2type j b (known2.value_of b j at2))) ab) in
      let (rep, es, run, joins, same, grows) =
        union_sets-Joins (AtIndices R u2.id2type) (length u2.id2type) u2.union_find i j
          (at_indices R eq u2.id2type) known2.joins (index_lt u2 a i known2 at1')
          (index_lt u2 b j known2 at2) related in
      (
        record u2 { union_find = es },
        rep,
        rw (run1, run2, run, ◌>>=◌) refl,
        refined u2 es known2 joins,
        Extends-trans u u2 _ (Extends-trans u u1 u2 ext1 ext2)
            (record { known = λ v id h. h; same = grows }),
        (i, j, at1', at2, same),
      )

  -- `findConst` answers alike for two known values exactly if they have one root.
  pub find_const-SameClass :
      (u : ValueUnionFind) (a b : ℕ)
      → JoinsValues R u
      → contains u a ≡ true
      → contains u b ≡ true
      → (x : ℕ) × (y : ℕ) × (find_const u a ≡ some x)
        × (find_const u b ≡ some y)
        × ((x ≡ y) ↔ SameClass u a b)
  unfolding find_const get_id_const
  find_const-SameClass u a b known ca cb =
      let (i, la) = contains-lookup u a ca in
      let (j, lb) = contains-lookup u b cb in
      let (x, es, run, const, keep, path) =
        find-Keeps u.union_find i known.joins.valid
          (omega (arith, known.joins.sized, index_lt u a i known la)) in
      let (y, es', run', const', keep', path') =
        find-Keeps u.union_find j known.joins.valid
          (omega (arith, known.joins.sized, index_lt u b j known lb)) in
      (
        x,
        y,
        rw (la, ◌>>=◌) const,
        rw (lb, ◌>>=◌) const',
        (
          λ e. (i, j, la, lb, (y, subst (RootIs u.union_find i) e path, path')),
          λ (i', j', la', lb', (r, p, q)).
              let same : i' ≡ i = some_injective (sym la' ∙ la) in
              let same' : j' ≡ j = some_injective (sym lb' ∙ lb) in
              RootIs-functional u.union_find i x r path
                (subst (λ n. RootIs u.union_find n r) same p)
              ∙ RootIs-functional u.union_find j r y (subst (λ n. RootIs u.union_find n r) same' q)
                  path',
        ),
      )

  -- Values of one class are related.
  pub SameClass-sound : (u : ValueUnionFind) (a b : ℕ) → JoinsValues R u → SameClass u a b → R a b
  SameClass-sound u a b known (i, j, la, lb, s) =
      subst (R a) (get_or-of u.id2type j b (known.value_of b j lb)) (
        subst (λ q. R q (get_or u.id2type j 0)) (get_or-of u.id2type i a (known.value_of a i la))
          (known.joins.sound i j s))

  pub SameClass-refl :
      (u : ValueUnionFind) (a : ℕ) → JoinsValues R u → contains u a ≡ true → SameClass u a a
  SameClass-refl u a known c =
      let (i, la) = contains-lookup u a c in
      let (r, root) =
        RootIs-total u.union_find i known.joins.valid
          (omega (arith, known.joins.sized, index_lt u a i known la)) in
      (i, i, la, la, (r, root, root))

  -- The class of a known value is an index.
  pub find_const-lt :
      (u : ValueUnionFind) (a : ℕ)
      → JoinsValues R u
      → contains u a ≡ true
      → (x : ℕ) × (find_const u a ≡ some x) × (x < length u.union_find)
  unfolding find_const get_id_const
  find_const-lt u a known c =
      let (i, la) = contains-lookup u a c in
      let (x, es, run, const, keep, path) =
        find-Keeps u.union_find i known.joins.valid
          (omega (arith, known.joins.sized, index_lt u a i known la)) in
      let root = RootIs-root u.union_find i x path in
      (x, rw (la, ◌>>=◌) const, (Same-lt u.union_find x x (x, root, root)).0)
