-- ===== src/Optimizer/QueryGraph/Unions.antt =====
-- The loops of `generateIuEquivalenceClasses` over the two structures.
use fact_db.Prelude.{
  ℕ, suc, ◌<◌, ◌≡◌, refl, sym, ◌∙◌, true, Option, none, some, List, [], ◌∷◌, arith, ◌>>=◌, length,
  get_elem?, get_elem?-of_lt, All, All-get_elem?, some_injective, Bool-cases, inl, inr,
}
use mathlib.Core.Path.{subst}
use fact_db.UnionFind.Closure.{IsEquivalence}
use fact_db.UnionFind.Values.{ValueUnionFind}
use fact_db.UnionFind.Values.Related.{
  SameClass, JoinsValues, Extends, Extends-refl, Extends-trans, SameClass-Extends, SameClass-sym,
  SameClass-trans,
}
use fact_db.UnionFind.Values.Classes.{add_element-JoinsValues, union_sets-JoinsValues}
use fact_db.JoinMode.{JoinType}
use fact_db.Optimizer.QueryGraph.{is_inner, OptimizerJoin, QueryGraph}
use fact_db.Optimizer.QueryGraph.Classes.{
  add_columns, unite_if_inner, unite_columns, unite_condition, unite_conditions,
}
use fact_db.Optimizer.QueryGraph.Compared.{
  InCondition, Compared, InnerCompared, Compared-cases, InnerCompared-cases,
}

abbrev pub updated : QueryGraph → ValueUnionFind → ValueUnionFind → QueryGraph
updated graph all strong = record graph { equivalent_ius = all; inner_join_equivalent_ius = strong }

pub All-from_get :
    (P : ℕ → Type 0) (xs : List ℕ) → ((n x : ℕ) → get_elem? xs n ≡ some x → P x) → All P xs
All-from_get P [] h = tt
All-from_get P (x ∷ xs) h = (h 0 x refl, All-from_get P xs (λ n. h (suc n)))

module _ (R S : ℕ → ℕ → Type 0) (eq_all : IsEquivalence R) (eq_strong : IsEquivalence S) where
  -- The structures after some steps from those of the graph.
  pub record Steps (graph : QueryGraph) (all strong : ValueUnionFind) : Type 0 where
    pub joins : JoinsValues R all
    pub strong_joins : JoinsValues S strong
    extends : Extends graph.equivalent_ius all
    strong_extends : Extends graph.inner_join_equivalent_ius strong

  unite_if_inner-Extends :
      (ty : JoinType) (u : ValueUnionFind) (a b : ℕ)
      → JoinsValues S u
      → (is_inner ty ≡ true → S a b)
      → (u' : ValueUnionFind) × (unite_if_inner ty u a b ≡ some u')
        × JoinsValues S u'
        × Extends u u'
        × (is_inner ty ≡ true → SameClass u' a b)
  unfolding unite_if_inner
  unite_if_inner-Extends ty u a b known related = elim (Bool-cases (is_inner ty)) [
    | inl e ↦
        let (u', rep, run, known', ext, same) =
          union_sets-JoinsValues S eq_strong u a b known (related e) in
        (u', rw (e, run, ◌>>=◌) refl, known', ext, λ _. same)
    | inr e ↦ (u, rw e refl, known, Extends-refl u, λ t. absurd (ground arith))
  ]

  -- The columns are in the class of the first.
  Grouped : JoinType → ℕ → ValueUnionFind → ValueUnionFind → ℕ → Type 0
  Grouped ty first all strong iu =
      SameClass all first iu × (is_inner ty ≡ true → SameClass strong first iu)

  unite_columns-Steps :
      (graph : QueryGraph) (ty : JoinType) (first : ℕ) (ius : List ℕ)
      → JoinsValues R graph.equivalent_ius
      → JoinsValues S graph.inner_join_equivalent_ius
      → All (λ iu. R first iu × (is_inner ty ≡ true → S first iu)) ius
      → (all : ValueUnionFind) × (strong : ValueUnionFind) × (unite_columns graph ty first ius
          ≡ some (updated graph all strong))
        × Steps graph all strong
        × All (Grouped ty first all strong) ius
  unfolding unite_columns Grouped
  unite_columns-Steps graph ty first [] known strong_known related = (
    graph.equivalent_ius,
    graph.inner_join_equivalent_ius,
    refl,
    record {
      joins = known;
      strong_joins = strong_known;
      extends = Extends-refl graph.equivalent_ius;
      strong_extends = Extends-refl graph.inner_join_equivalent_ius;
    },
    tt,
  )
  unite_columns-Steps graph ty first (iu ∷ ius) known strong_known ((r, s), related) =
      let (all1, rep, run, known1, ext, same) =
        union_sets-JoinsValues R eq_all graph.equivalent_ius first iu known r in
      let (strong1, run', strong_known1, ext', same') =
        unite_if_inner-Extends ty graph.inner_join_equivalent_ius first iu strong_known s in
      let (all, strong, rest, st, grouped) =
        unite_columns-Steps (updated graph all1 strong1) ty first ius known1 strong_known1
          related in
      (
        all,
        strong,
        rw (run, ◌>>=◌, run') rest,
        record {
          joins = st.joins;
          strong_joins = st.strong_joins;
          extends = Extends-trans graph.equivalent_ius all1 all ext st.extends;
          strong_extends =
              Extends-trans graph.inner_join_equivalent_ius strong1 strong ext' st.strong_extends;
        },
        (
          (
            SameClass-Extends all1 all first iu st.extends same,
            λ t. SameClass-Extends strong1 strong first iu st.strong_extends (same' t),
          ),
          grouped,
        ),
      )

  Paired : JoinType → ValueUnionFind → ValueUnionFind → List ℕ → Type 0
  Paired ty all strong ius =
      (n m a b : ℕ)
      → get_elem? ius n ≡ some a
      → get_elem? ius m ≡ some b
      → SameClass all a b × (is_inner ty ≡ true → SameClass strong a b)

  Grouped-Paired :
      (ty : JoinType) (first : ℕ) (all strong : ValueUnionFind) (ius : List ℕ)
      → All (Grouped ty first all strong) ius
      → Paired ty all strong ius
  unfolding Grouped Paired
  Grouped-Paired ty first all strong ius grouped n m a b ga gb =
      let (x, x') = All-get_elem? (Grouped ty first all strong) ius n grouped ga in
      let (y, y') = All-get_elem? (Grouped ty first all strong) ius m grouped gb in
      (
        SameClass-trans all a first b (SameClass-sym all first a x) y,
        λ t. SameClass-trans strong a first b (SameClass-sym strong first a (x' t)) (y' t),
      )

  unite_condition-Steps :
      (graph : QueryGraph) (ty : JoinType) (ius : List ℕ)
      → JoinsValues R graph.equivalent_ius
      → JoinsValues S graph.inner_join_equivalent_ius
      → ((n m a b : ℕ)
          → get_elem? ius n ≡ some a
          → get_elem? ius m ≡ some b
          → R a b × (is_inner ty ≡ true → S a b))
      → (all : ValueUnionFind) × (strong : ValueUnionFind) × (unite_condition graph ty ius
          ≡ some (updated graph all strong))
        × Steps graph all strong
        × Paired ty all strong ius
  unfolding unite_condition Paired
  unite_condition-Steps graph ty [] known strong_known related = (
    graph.equivalent_ius,
    graph.inner_join_equivalent_ius,
    refl,
    record {
      joins = known;
      strong_joins = strong_known;
      extends = Extends-refl graph.equivalent_ius;
      strong_extends = Extends-refl graph.inner_join_equivalent_ius;
    },
    λ n m a b ga gb. absurd (cc),
  )
  unite_condition-Steps graph ty (iu ∷ ius) known strong_known related =
      let (all, strong, run, st, grouped) =
        unite_columns-Steps graph ty iu (iu ∷ ius) known strong_known (
          All-from_get (λ q. R iu q × (is_inner ty ≡ true → S iu q)) (iu ∷ ius)
            (λ m q g. related 0 m iu q refl g)) in
      (all, strong, run, st, Grouped-Paired ty iu all strong (iu ∷ ius) grouped)

  Paired-InCondition :
      (infos : List (List ℕ)) (j : OptimizerJoin) (ius : List ℕ) (all strong : ValueUnionFind)
      → get_elem? infos j.join_id ≡ some ius
      → Paired j.join_type all strong ius
      → (a b : ℕ) → InCondition infos j a b
      → SameClass all a b × (is_inner j.join_type ≡ true → SameClass strong a b)
  unfolding Paired
  Paired-InCondition infos j ius all strong g paired a b (ius', n, m, g', ga, gb) =
      let same : ius' ≡ ius = some_injective (sym g' ∙ g) in
      paired n m a b (subst (λ l. get_elem? l n ≡ some a) same ga)
        (subst (λ l. get_elem? l m ≡ some b) same gb)

  -- The loop over the joins unites what their conditions compare, and relates what it unites.
  pub unite_conditions-Steps :
      (graph : QueryGraph) (joins : List OptimizerJoin)
      → JoinsValues R graph.equivalent_ius
      → JoinsValues S graph.inner_join_equivalent_ius
      → All (λ (j : OptimizerJoin). j.join_id < length graph.join_infos) joins
      → ((a b : ℕ) → Compared graph.join_infos joins a b → R a b)
      → ((a b : ℕ) → InnerCompared graph.join_infos joins a b → S a b)
      → (all : ValueUnionFind) × (strong : ValueUnionFind) × (unite_conditions graph joins
          ≡ some (updated graph all strong))
        × Steps graph all strong
        × ((a b : ℕ) → Compared graph.join_infos joins a b → SameClass all a b)
        × ((a b : ℕ) → InnerCompared graph.join_infos joins a b → SameClass strong a b)
  unfolding unite_conditions Paired
  unite_conditions-Steps graph [] known strong_known ids edges inner_edges = (
    graph.equivalent_ius,
    graph.inner_join_equivalent_ius,
    refl,
    record {
      joins = known;
      strong_joins = strong_known;
      extends = Extends-refl graph.equivalent_ius;
      strong_extends = Extends-refl graph.inner_join_equivalent_ius;
    },
    λ a b (k, j, g, both). absurd (cc),
    λ a b (k, j, g, t, both). absurd (cc),
  )
  unite_conditions-Steps graph (j ∷ js) known strong_known (id, ids) edges inner_edges =
      let (ius, g) = get_elem?-of_lt graph.join_infos j.join_id id in
      let (all1, strong1, run1, st1, paired) =
        unite_condition-Steps graph j.join_type ius known strong_known λ n m a b ga gb. (
          edges a b (0, j, refl, (ius, n, m, g, ga, gb)),
          λ t. inner_edges a b (0, j, refl, t, (ius, n, m, g, ga, gb)),
        ) in
      let (all, strong, run, st, same, inner_same) =
        unite_conditions-Steps (updated graph all1 strong1) js st1.joins st1.strong_joins ids
          (λ a b (k, j', at, rest). edges a b (suc k, j', at, rest))
          (λ a b (k, j', at, t, rest). inner_edges a b (suc k, j', at, t, rest)) in
      (
        all,
        strong,
        rw (g, ◌>>=◌, run1) run,
        record {
          joins = st.joins;
          strong_joins = st.strong_joins;
          extends = Extends-trans graph.equivalent_ius all1 all st1.extends st.extends;
          strong_extends =
              Extends-trans graph.inner_join_equivalent_ius strong1 strong st1.strong_extends
                st.strong_extends;
        },
        λ a b edge. elim (Compared-cases graph.join_infos j js a b edge) [
          | inl here ↦
              SameClass-Extends all1 all a b st.extends
                (Paired-InCondition graph.join_infos j ius all1 strong1 g paired a b here).0
          | inr there ↦ same a b there
        ],
        λ a b edge. elim (InnerCompared-cases graph.join_infos j js a b edge) [
          | inl (t, here) ↦
              SameClass-Extends strong1 strong a b st.strong_extends
                ((Paired-InCondition graph.join_infos j ius all1 strong1 g paired a b here).1 t)
          | inr there ↦ inner_same a b there
        ],
      )

  -- The loop over the columns of the query adds them and joins nothing.
  add_columns-Steps :
      (graph : QueryGraph) (ius : List ℕ)
      → JoinsValues R graph.equivalent_ius
      → JoinsValues S graph.inner_join_equivalent_ius
      → (all : ValueUnionFind) × (strong : ValueUnionFind) × (add_columns graph ius
          ≡ some (updated graph all strong))
        × JoinsValues R all
        × JoinsValues S strong
  unfolding add_columns
  add_columns-Steps graph [] known strong_known =
      (graph.equivalent_ius, graph.inner_join_equivalent_ius, refl, known, strong_known)
  add_columns-Steps graph (iu ∷ ius) known strong_known =
      let (all1, rep, run, known1, ext, same) =
        add_element-JoinsValues R eq_all graph.equivalent_ius iu known in
      let (strong1, rep', run', known1', ext', same') =
        add_element-JoinsValues S eq_strong graph.inner_join_equivalent_ius iu strong_known in
      let (all, strong, rest, end, end') =
        add_columns-Steps (updated graph all1 strong1) ius known1 known1' in
      (all, strong, rw (run, ◌>>=◌, run') rest, end, end')

  -- The first step: the columns of the query, if there is one.
  pub start-Steps :
      (graph : QueryGraph) (query : Option (List ℕ))
      → JoinsValues R graph.equivalent_ius
      → JoinsValues S graph.inner_join_equivalent_ius
      → (all : ValueUnionFind) × (strong : ValueUnionFind) × ((elim query [
        | none ↦ some graph
        | some ius ↦ add_columns graph ius
      ])
          ≡ some (updated graph all strong))
        × JoinsValues R all
        × JoinsValues S strong
  start-Steps graph none known strong_known =
      (graph.equivalent_ius, graph.inner_join_equivalent_ius, refl, known, strong_known)
  start-Steps graph (some ius) known strong_known = add_columns-Steps graph ius known strong_known
