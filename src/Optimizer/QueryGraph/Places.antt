-- ===== src/Optimizer/QueryGraph/Places.antt =====
-- The loops of `prepareForOptimization` over the columns of the join conditions.
use fact_db.Prelude.{
  ℕ, ◌<◌, ◌≡◌, refl, true, some, List, [], ◌∷◌, arith, ◌>>=◌, All, All-mono, Bool-cases, inl, inr,
}
use fact_db.BitSet.Var.{BitSetVar}
use fact_db.UnionFind.Values.{ValueUnionFind, contains, lookup, find_const}
use fact_db.Optimizer.QueryGraph.{QueryGraph}
use fact_db.Optimizer.QueryGraph.Gather.{Has}
use fact_db.Optimizer.QueryGraph.Placing.{Table, Keeps, insert_class-Table}
use fact_db.Optimizer.QueryGraph.Classes.{place_column, place_columns, place_conditions}

abbrev pub placed : QueryGraph → List BitSetVar → List BitSetVar → List (ℕ × ℕ) → QueryGraph
placed graph classes strong relation_of = record graph {
  relations2equiv_classes = classes;
  relations2strong_equiv_classes = strong;
  iu2relation = relation_of;
}

module _ (table : ℕ → ℕ) (P Q : ℕ → ℕ → Type 0) (n : ℕ) where
  -- The relation of the column is known, its classes are known and small, and may stand there.
  pub record Fits (ids : List (ℕ × ℕ)) (all strong : ValueUnionFind) (iu : ℕ) : Type 0 where
    pub relation : ℕ
    pub class : ℕ
    pub named : lookup ids (table iu) ≡ some relation
    pub below : relation < n
    pub found : find_const all iu ≡ some class
    pub small : class < 64
    pub allowed : P relation class
    pub strong_class :
        contains strong iu ≡ true
        → (c : ℕ) × (find_const strong iu ≡ some c) × (c < 64) × Q relation c

  -- The class of the column stands in the set of its relation.
  abbrev pub Stands : List (ℕ × ℕ) → ValueUnionFind → List BitSetVar → ℕ → Type 0
  Stands ids ius classes iu =
      (relation : ℕ) × (c : ℕ) × (lookup ids (table iu) ≡ some relation)
      × (find_const ius iu ≡ some c)
      × Has classes relation c

  Stands-Keeps :
      (ids : List (ℕ × ℕ)) (ius : ValueUnionFind) (classes classes' : List BitSetVar) (iu : ℕ)
      → Keeps classes classes'
      → Stands ids ius classes iu
      → Stands ids ius classes' iu
  Stands-Keeps ids ius classes classes' iu keep (r, c, at, found, has) =
      (r, c, at, found, keep r c has)

  -- The tables after some steps from those of the graph.
  pub record Filled (graph : QueryGraph) (classes strong : List BitSetVar) : Type 0 where
    pub tables : Table P n classes
    pub strong_tables : Table Q n strong
    pub keeps : Keeps graph.relations2equiv_classes classes
    pub strong_keeps : Keeps graph.relations2strong_equiv_classes strong

  abbrev pub BothStand : QueryGraph → List BitSetVar → List BitSetVar → ℕ → Type 0
  BothStand graph classes strong iu =
      Stands graph.relation2id graph.equivalent_ius classes iu
      × (contains graph.inner_join_equivalent_ius iu ≡ true
          → Stands graph.relation2id graph.inner_join_equivalent_ius strong iu)

  place_column-Filled :
      (graph : QueryGraph) (iu : ℕ)
      → Table P n graph.relations2equiv_classes
      → Table Q n graph.relations2strong_equiv_classes
      → Fits graph.relation2id graph.equivalent_ius graph.inner_join_equivalent_ius iu
      → (classes : List BitSetVar) × (strong : List BitSetVar) × (relation_of : List (ℕ × ℕ))
        × (place_column table graph iu ≡ some (placed graph classes strong relation_of))
        × Filled graph classes strong
        × BothStand graph classes strong iu
  unfolding place_column
  place_column-Filled graph iu t t' fits =
      let (classes, run, tables, keep, has) =
        insert_class-Table P n graph.relations2equiv_classes fits.relation graph.equivalent_ius iu
          fits.class t fits.below fits.found fits.small fits.allowed in
      let stands : Stands graph.relation2id graph.equivalent_ius classes iu =
        (fits.relation, fits.class, fits.named, fits.found, has) in
      elim (Bool-cases (contains graph.inner_join_equivalent_ius iu)) [
        | inl e ↦
            let (c, found, small, allowed) = fits.strong_class e in
            let (strong, run', tables', keep', has') =
              insert_class-Table Q n graph.relations2strong_equiv_classes fits.relation
                graph.inner_join_equivalent_ius iu c t' fits.below found small allowed in
            (
              classes,
              strong,
              (iu, fits.relation) ∷ graph.iu2relation,
              rw (fits.named, ◌>>=◌, run, e, run') refl,
              record {
                tables = tables;
                strong_tables = tables';
                keeps = keep;
                strong_keeps = keep';
              },
              (stands, λ _. (fits.relation, c, fits.named, found, has')),
            )
        | inr e ↦ (
          classes,
          graph.relations2strong_equiv_classes,
          (iu, fits.relation) ∷ graph.iu2relation,
          rw (fits.named, ◌>>=◌, run, e) refl,
          record { tables = tables; strong_tables = t'; keeps = keep; strong_keeps = λ rel c h. h },
          (stands, λ h. absurd (ground arith)),
        )
      ]

  Filled-trans :
      (graph : QueryGraph) (c1 s1 c2 s2 : List BitSetVar) (r1 : List (ℕ × ℕ))
      → Filled graph c1 s1
      → Filled (placed graph c1 s1 r1) c2 s2
      → Filled graph c2 s2
  Filled-trans graph c1 s1 c2 s2 r1 f g = record {
    tables = g.tables;
    strong_tables = g.strong_tables;
    keeps = λ rel c h. g.keeps rel c (f.keeps rel c h);
    strong_keeps = λ rel c h. g.strong_keeps rel c (f.strong_keeps rel c h);
  }

  BothStand-Filled :
      (graph : QueryGraph) (c1 s1 c2 s2 : List BitSetVar) (r1 : List (ℕ × ℕ)) (iu : ℕ)
      → Filled (placed graph c1 s1 r1) c2 s2
      → BothStand graph c1 s1 iu
      → BothStand graph c2 s2 iu
  BothStand-Filled graph c1 s1 c2 s2 r1 iu f (x, y) = (
    Stands-Keeps graph.relation2id graph.equivalent_ius c1 c2 iu f.keeps x,
    λ h.
        Stands-Keeps graph.relation2id graph.inner_join_equivalent_ius s1 s2 iu f.strong_keeps
          (y h),
  )

  place_columns-Filled :
      (graph : QueryGraph) (ius : List ℕ)
      → Table P n graph.relations2equiv_classes
      → Table Q n graph.relations2strong_equiv_classes
      → All (Fits graph.relation2id graph.equivalent_ius graph.inner_join_equivalent_ius) ius
      → (classes : List BitSetVar) × (strong : List BitSetVar) × (relation_of : List (ℕ × ℕ))
        × (place_columns table graph ius ≡ some (placed graph classes strong relation_of))
        × Filled graph classes strong
        × All (BothStand graph classes strong) ius
  unfolding place_columns
  place_columns-Filled graph [] t t' fits = (
    graph.relations2equiv_classes,
    graph.relations2strong_equiv_classes,
    graph.iu2relation,
    refl,
    record { tables = t; strong_tables = t'; keeps = λ r c h. h; strong_keeps = λ r c h. h },
    tt,
  )
  place_columns-Filled graph (iu ∷ ius) t t' (fit, fits) =
      let (c1, s1, r1, run1, f1, stand) = place_column-Filled graph iu t t' fit in
      let (c2, s2, r2, run2, f2, stands) =
        place_columns-Filled (placed graph c1 s1 r1) ius f1.tables f1.strong_tables fits in
      (
        c2,
        s2,
        r2,
        rw (run1, ◌>>=◌) run2,
        Filled-trans graph c1 s1 c2 s2 r1 f1 f2,
        (BothStand-Filled graph c1 s1 c2 s2 r1 iu f2 stand, stands),
      )

  pub place_conditions-Filled :
      (graph : QueryGraph) (infos : List (List ℕ))
      → Table P n graph.relations2equiv_classes
      → Table Q n graph.relations2strong_equiv_classes
      → All
          (All (Fits graph.relation2id graph.equivalent_ius graph.inner_join_equivalent_ius))
          infos
      → (classes : List BitSetVar) × (strong : List BitSetVar) × (relation_of : List (ℕ × ℕ))
        × (place_conditions table graph infos ≡ some (placed graph classes strong relation_of))
        × Filled graph classes strong
        × All (All (BothStand graph classes strong)) infos
  unfolding place_conditions
  place_conditions-Filled graph [] t t' fits = (
    graph.relations2equiv_classes,
    graph.relations2strong_equiv_classes,
    graph.iu2relation,
    refl,
    record { tables = t; strong_tables = t'; keeps = λ r c h. h; strong_keeps = λ r c h. h },
    tt,
  )
  place_conditions-Filled graph (ius ∷ infos) t t' (fit, fits) =
      let (c1, s1, r1, run1, f1, stand) = place_columns-Filled graph ius t t' fit in
      let (c2, s2, r2, run2, f2, stands) =
        place_conditions-Filled (placed graph c1 s1 r1) infos f1.tables f1.strong_tables fits in
      (
        c2,
        s2,
        r2,
        rw (run1, ◌>>=◌) run2,
        Filled-trans graph c1 s1 c2 s2 r1 f1 f2,
        (
          All-mono (BothStand graph c1 s1) (BothStand graph c2 s2) ius
              (λ iu. BothStand-Filled graph c1 s1 c2 s2 r1 iu f2) stand,
          stands,
        ),
      )
