-- ===== src/Optimizer/QueryGraph/Prepare.antt =====
-- `prepareForOptimization` on a fresh graph: it returns a graph that is ready for `hasJoinEdge`.
use fact_db.Prelude.{
  ℕ, ◌<◌, ◌≡◌, ◌↔◌, refl, sym, ◌∙◌, ap, some, List, [], arith, ◌>>=◌, length, get_elem?,
  get_elem?-lt, All, All-get_elem?,
}
use mathlib.Core.Path.{subst}
use fact_db.BitSet.Var.OneWord.{new_word}
use fact_db.UnionFind.Closure.{Closure, Closure-IsEquivalence}
use fact_db.UnionFind.Values.{ValueUnionFind, lookup, upper_bound}
use fact_db.UnionFind.Values.Related.{JoinsValues}
use fact_db.UnionFind.Values.Classes.{find_const-lt}
use fact_db.Optimizer.QueryGraph.{QueryGraph}
use fact_db.Optimizer.QueryGraph.Compared.{Compared, InnerCompared}
use fact_db.Optimizer.QueryGraph.Unions.{updated, All-from_get}
use fact_db.Optimizer.QueryGraph.Generate.{
  Generated, generate_iu_equivalence_classes-Generated, SameClass-contains, classes_of,
}
use fact_db.Optimizer.QueryGraph.Placing.{Table}
use fact_db.Optimizer.QueryGraph.Places.{Fits, placed, place_conditions-Filled}
use fact_db.Optimizer.QueryGraph.Classes.{
  resize, number_aliases, group_columns, generate_iu_equivalence_classes, prepare_for_optimization,
}
use fact_db.Optimizer.QueryGraph.Aliases.{
  IsLast, Bounded, number_aliases-Bounded, number_aliases-alias, number_aliases-IsLast,
}
use fact_db.Optimizer.QueryGraph.Blank.{All-each, no_class, resize-Table}
use fact_db.Optimizer.QueryGraph.Groups.{Collects, group_columns-Collects}
use fact_db.Optimizer.QueryGraph.RelationOf.{place_conditions-MapsColumns}
use fact_db.Optimizer.QueryGraph.Contract.{
  IsFresh, Belongs, Stands-Has, find_const-contains, IsPrepared,
}

module _ (table : ℕ → ℕ) (graph : QueryGraph) (fresh : IsFresh table graph)
    (all strong : ValueUnionFind) (end : Generated graph all strong)
    (few : length all.union_find < 64) (few_strong : length strong.union_find < 64) where
  aliases : List (ℕ × ℕ)
  aliases = number_aliases graph.relation2id 0 graph.relations

  aliases-Bounded : Bounded aliases (length graph.relations)
  unfolding aliases lookup
  aliases-Bounded v id h = omega (
    arith,
    number_aliases-Bounded graph.relation2id 0 graph.relations
        (subst (λ q. Bounded q 0) (sym fresh.no_ids) (λ w i g. absurd (cc))) v id h,
  )

  column-Fits :
      (i n iu : ℕ) (ius : List ℕ)
      → get_elem? graph.join_infos i ≡ some ius
      → get_elem? ius n ≡ some iu
      → Fits table
          (Belongs table aliases all graph.join_infos)
          (Belongs table aliases strong graph.join_infos)
          (length graph.relations)
          aliases
          all
          strong
          iu
  unfolding aliases
  column-Fits i n iu ius g at =
      let (k, j, gj, id) = fresh.used i (get_elem?-lt graph.join_infos i g) in
      let here : get_elem? graph.join_infos j.join_id ≡ some ius =
        ap (get_elem? graph.join_infos) id ∙ g in
      let known =
        SameClass-contains all iu iu (end.same iu iu (k, j, gj, (ius, n, n, here, at, at))) in
      let (c, found, lt) =
        find_const-lt (Closure (Compared graph.join_infos graph.joins))
          (Closure-IsEquivalence (Compared graph.join_infos graph.joins)) all iu end.joins known in
      let (k', r, gr, alias) = fresh.named i n iu ius g at in
      let (rel, named) = number_aliases-alias graph.relation2id 0 k' graph.relations r gr in
      let named' = subst (λ q. lookup aliases q ≡ some rel) alias named in
      record {
        relation = rel;
        class = c;
        named = named';
        below = aliases-Bounded (table iu) rel named';
        found = found;
        small = omega arith;
        allowed = (i, n, ius, iu, g, at, named', found);
        strong_class = λ inside.
            let (d, found', lt') =
              find_const-lt (Closure (InnerCompared graph.join_infos graph.joins))
                (Closure-IsEquivalence (InnerCompared graph.join_infos graph.joins)) strong iu
                end.strong_joins inside in
            (d, found', omega arith, (i, n, ius, iu, g, at, named', found'));
      }

  -- The graph before the last loops.
  numbered : QueryGraph
  numbered = record (updated graph all strong) {
    relations2equiv_classes =
        resize graph.relations2equiv_classes (length graph.relations) no_class;
    relations2strong_equiv_classes =
        resize graph.relations2strong_equiv_classes (length graph.relations) no_class;
    relation2id = aliases;
  }

  all-Fit :
      All
        (All (
          Fits table
            (Belongs table aliases all graph.join_infos)
            (Belongs table aliases strong graph.join_infos)
            (length graph.relations)
            aliases
            all
            strong))
        graph.join_infos
  all-Fit =
      All-each _ graph.join_infos
        (λ i ius g. All-from_get _ ius (λ n iu at. column-Fits i n iu ius g at))

  grouped :
      (E : ℕ → ℕ → Type 0) (u : ValueUnionFind) (groups : List (List ℕ))
      → JoinsValues (Closure E) u
      → groups ≡ []
      → (classes : List (List ℕ)) × (group_columns u (resize groups (upper_bound u) []) u.id2type
          ≡ some classes)
        × Collects u classes
  unfolding upper_bound
  grouped E u groups known none_yet =
      subst
        (λ q.
          (classes : List (List ℕ)) × (group_columns u (resize q (length u.union_find) []) u.id2type
            ≡ some classes)
          × Collects u classes)
        (sym none_yet) (group_columns-Collects E u known)

  aliases-IsLast : (v k : ℕ) → lookup aliases v ≡ some k ↔ IsLast graph.relations v k
  unfolding aliases
  aliases-IsLast v k =
      subst
        (λ q. lookup (number_aliases q 0 graph.relations) v ≡ some k ↔ IsLast graph.relations v k)
        (sym fresh.no_ids) (number_aliases-IsLast graph.relations v k)

  prepared :
      generate_iu_equivalence_classes graph ≡ some (updated graph all strong)
      → (graph' : QueryGraph) × (prepare_for_optimization table graph ≡ some graph')
        × IsPrepared table graph graph'
  unfolding prepare_for_optimization numbered upper_bound aliases
  prepared run =
      let n = length graph.relations in
      let P = Belongs table aliases all graph.join_infos in
      let Q = Belongs table aliases strong graph.join_infos in
      let (classes, strong_classes, relation_of, placing, filled, stand) =
        place_conditions-Filled table P Q n numbered graph.join_infos
          (subst (λ q. Table P n (resize q n no_class)) (sym fresh.no_sets) (resize-Table P n))
          (subst (λ q. Table Q n (resize q n no_class)) (sym fresh.no_inner_sets)
            (resize-Table Q n))
          all-Fit in
      let (groups, grouping, collects) =
        grouped (Compared graph.join_infos graph.joins) all graph.equiv_class2ius end.joins
          fresh.no_groups in
      let (strong_groups, strong_grouping, strong_collects) =
        grouped (InnerCompared graph.join_infos graph.joins) strong graph.strong_equiv_class2ius
          end.strong_joins fresh.no_inner_groups in
      (
        record (placed numbered classes strong_classes relation_of) {
          equiv_class2ius = groups;
          strong_equiv_class2ius = strong_groups;
        },
        rw
            (
              run,
              ◌>>=◌,
              new_word (length all.union_find) few,
              new_word (length strong.union_find) few_strong,
              placing,
              grouping,
              strong_grouping,
            )
            refl,
        record {
          ready = record {
            classes = filled.tables.one;
            strong_classes = filled.strong_tables.one;
            all_relations = filled.tables.sized;
            all_strong = filled.strong_tables.sized;
            few = omega (arith, end.joins.joins.sized);
            few_strong = omega (arith, end.strong_joins.joins.sized);
            words = fresh.words;
          };
          same_relations = refl;
          same_joins = refl;
          same_infos = refl;
          numbers = aliases-IsLast;
          relation_of =
              place_conditions-MapsColumns table numbered
                (placed numbered classes strong_classes relation_of) graph.join_infos
                fresh.no_relation_of placing;
          groups = collects;
          inner_groups = strong_collects;
          sets = λ rel c. (
            filled.tables.only rel c,
            λ (i, k, ius, iu, g, at, named, found).
                let both = All-get_elem? _ ius k (All-get_elem? _ graph.join_infos i stand g) at in
                Stands-Has table P Q n aliases all classes iu rel c both.0 named found,
          );
          inner_sets = λ rel c. (
            filled.strong_tables.only rel c,
            λ (i, k, ius, iu, g, at, named, found).
                let both = All-get_elem? _ ius k (All-get_elem? _ graph.join_infos i stand g) at in
                Stands-Has table P Q n aliases strong strong_classes iu rel c
                  (both.1 (find_const-contains strong iu c found)) named found,
          );
          classes = classes_of (Compared graph.join_infos graph.joins) all end.joins end.same;
          inner_classes =
              classes_of (InnerCompared graph.join_infos graph.joins) strong end.strong_joins
                end.strong_same;
        },
      )

-- On a graph as its constructor leaves it, with at most 63 columns, whose joins each have a
-- stored condition and whose conditions each belong to a join, whose columns stand in tables
-- that are aliases of relations and whose joins are over 64 bit words, prepareForOptimization
-- returns. The relations, joins and conditions stay. The number of an alias is the last index of
-- a relation with this alias. Each relation has a set of classes, in which exactly the classes
-- of the columns of the conditions in its table stand, for all joins and for the inner joins.
-- Exactly the columns of the conditions have a relation, the number of their table. Each class
-- has exactly the columns for which findConst gives this class. And findConst gives known
-- columns the same class exactly if the least equivalence that relates the columns of one
-- condition relates them.
pub prepare_for_optimization-IsPrepared :
    (table : ℕ → ℕ) (graph : QueryGraph)
    → IsFresh table graph
    → ((g : QueryGraph)
        → generate_iu_equivalence_classes graph ≡ some g
        → (upper_bound g.equivalent_ius < 64) × (upper_bound g.inner_join_equivalent_ius < 64))
    → (graph' : QueryGraph) × (prepare_for_optimization table graph ≡ some graph')
      × IsPrepared table graph graph'
unfolding upper_bound
prepare_for_optimization-IsPrepared table graph fresh few =
    let (all, strong, run, end) =
      generate_iu_equivalence_classes-Generated graph fresh.no_values fresh.no_inner_values
        fresh.ids in
    let (small, small') = few (updated graph all strong) run in
    prepared table graph fresh all strong end small small' run
