-- ===== src/Tests/Graphs.antt =====
-- QueryGraph.cpp at a concrete query.
use fact_db.Prelude.{
  zero, suc, get_elem?, some_injective, sym, ◌∙◌, All-get_elem?, ℕ, ◌≡◌, ◌↔◌, ◌⊎◌, ◌<◌, refl, Bool,
  true, false, none, some, [], ◌∷◌, arith, ◌/◌, All,
}
use mathlib.Core.Path.{subst}
use fact_db.Prelude.Bits.{count_trailing_zeros}
use fact_db.BitSet.Word.{
  BitSet64, is_empty, is_subset_of, union, to_list, front, empty_set, does_intersect_with, contains,
  count,
}
use fact_db.BitSet.Var.{BitSetVar}
use fact_db.BitSet.Var
use fact_db.BitSet.Word
use fact_db.UnionFind
use fact_db.UnionFind.{
  new, union_sets, is_single_set, link, climb, compress, rounds, find, find_const,
}
use fact_db.UnionFind.Values
use fact_db.UnionFind.Values.{ValueUnionFind}
use fact_db.IuSet.{insert_iu, has}
use fact_db.BitSet.Word.Each.{All-to_list_at}
use fact_db.UnionFind.Closure.{Closure}
use fact_db.JoinMode.{inner, right_semi}
use fact_db.Optimizer.QueryGraph.{
  OptimizerJoin, OptimizerRelation, QueryGraph, is_graph_connected, has_join_edge,
}
use fact_db.Optimizer.QueryGraph.Classes.{generate_iu_equivalence_classes, prepare_for_optimization}
use fact_db.Optimizer.QueryGraph.Connected.{FitsIn, Hyperedge, is_graph_connected_lem}
use fact_db.Optimizer.QueryGraph.Compared.{Compared, InnerCompared}
use fact_db.Optimizer.QueryGraph.Generate.{Classifies, generate_iu_equivalence_classes_lem}
use fact_db.Optimizer.QueryGraph.Contract.{IsFresh, IsPrepared}
use fact_db.Optimizer.QueryGraph.Prepare.{prepare_for_optimization-IsPrepared}
use fact_db.Optimizer.QueryGraph.Prepared.{Meets, has_join_edge-IsPrepared}
use fact_db.Optimizer.QueryGraph.Gather.{Shares}
use fact_db.Optimizer.QueryGraph.Spans.{AnySpans}
use fact_db.Optimizer.QueryGraph.Edges.{IsReady, has_join_edge_lem}

abbrev set_of : ℕ → BitSet64
set_of s = record { set = s }

-- Three relations in a chain: columns 11 and 21 are compared by an inner join, 22 and 31 by a semi
-- join. The table of a column is its first digit.
abbrev query : QueryGraph
query = record {
  query = none;
  relations =
      record { relation = 7; alias = 1 }
      ∷ record { relation = 8; alias = 2 }
      ∷ record { relation = 9; alias = 3 }
      ∷ [];
  joins =
      record { left_relation = set_of 1; right_relation = set_of 2; join_id = 0; join_type = inner }
      ∷ record {
        left_relation = set_of 2;
        right_relation = set_of 4;
        join_id = 1;
        join_type = right_semi;
      }
      ∷ [];
  join_infos = (11 ∷ 21 ∷ []) ∷ (22 ∷ 31 ∷ []) ∷ [];
  relation2id = [];
  relations2equiv_classes = [];
  relations2strong_equiv_classes = [];
  equiv_class2ius = [];
  strong_equiv_class2ius = [];
  iu2relation = [];
  equivalent_ius = record { union_find = []; type2id = []; id2type = [] };
  inner_join_equivalent_ius = record { union_find = []; type2id = []; id2type = [] };
}

-- The class of 11 and 21 is 0, that of 22 and 31 is 2.
abbrev ready : QueryGraph
ready = record query {
  relation2id = (3, 2) ∷ (2, 1) ∷ (1, 0) ∷ [];
  relations2equiv_classes =
      record { sets = set_of 1 ∷ [] }
      ∷ record { sets = set_of 5 ∷ [] }
      ∷ record { sets = set_of 4 ∷ [] }
      ∷ [];
  relations2strong_equiv_classes =
      record { sets = set_of 1 ∷ [] }
      ∷ record { sets = set_of 1 ∷ [] }
      ∷ record { sets = set_of 0 ∷ [] }
      ∷ [];
  equiv_class2ius = (11 ∷ 21 ∷ []) ∷ [] ∷ (22 ∷ 31 ∷ []) ∷ [] ∷ [];
  strong_equiv_class2ius = (11 ∷ 21 ∷ []) ∷ [] ∷ [];
  iu2relation = (31, 2) ∷ (22, 1) ∷ (21, 1) ∷ (11, 0) ∷ [];
  equivalent_ius = record {
    union_find =
        record { representative = 0; rank = 1 }
        ∷ record { representative = 1; rank = 0 }
        ∷ record { representative = 0; rank = 1 }
        ∷ record { representative = 3; rank = 0 }
        ∷ [];
    type2id = (31, 3) ∷ (22, 2) ∷ (21, 1) ∷ (11, 0) ∷ [];
    id2type = 11 ∷ 21 ∷ 22 ∷ 31 ∷ [];
  };
  inner_join_equivalent_ius = record {
    union_find =
        record { representative = 0; rank = 1 } ∷ record { representative = 1; rank = 0 } ∷ [];
    type2id = (21, 1) ∷ (11, 0) ∷ [];
    id2type = 11 ∷ 21 ∷ [];
  };
}

program : Unit {0}
unfolding prepare_for_optimization is_graph_connected has_join_edge union_sets find find_const
    UnionFind.new link climb compress rounds is_single_set to_list front count_trailing_zeros
    insert_iu has Var.new Var.insert Var.union Var.zip_words Var.does_intersect_with Var.all_words
    Word.insert Values.add_element Values.union_sets Values.find_const Values.contains
    Values.upper_bound empty_set is_empty union does_intersect_with is_subset_of
program = tt

prepare_runs : prepare_for_optimization (λ c. c / 10) query ≡ some ready
unfolding program
prepare_runs = refl

connected_runs : is_graph_connected ready ≡ some true
unfolding program
connected_runs = refl

-- The semi join leads from the second relation to the third, and not back.
has_join_edge_runs :
    (has_join_edge ready (set_of 3) (set_of 4) ≡ some true)
    × (has_join_edge ready (set_of 4) (set_of 3) ≡ some false)
    × (has_join_edge ready (set_of 1) (set_of 4) ≡ some false)
    × (has_join_edge ready (set_of 2) (set_of 1) ≡ some true)
unfolding program
has_join_edge_runs = (refl, refl, refl, refl)

-- The elements of small sets, read off the loop.
members_of_3 : (i : ℕ) → contains (set_of 3) i ≡ true → i < 3
unfolding program
members_of_3 i h =
    All-to_list_at (λ v. v < 3) (set_of 3) i (omega arith) (omega arith, (omega arith, tt)) h

members_of_4 : (i : ℕ) → contains (set_of 4) i ≡ true → i < 3
unfolding program
members_of_4 i h = All-to_list_at (λ v. v < 3) (set_of 4) i (omega arith) (omega arith, tt) h

members_of_6 : (i : ℕ) → contains (set_of 6) i ≡ true → i < 3
unfolding program
members_of_6 i h =
    All-to_list_at (λ v. v < 3) (set_of 6) i (omega arith) (omega arith, (omega arith, tt)) h

ready-FitsIn : All (FitsIn 3) ready.joins
unfolding is_empty union
ready-FitsIn = (
  record {
    left_word = omega arith;
    right_word = omega arith;
    left_some = refl;
    in_range = members_of_3;
  },
  (
    record {
      left_word = omega arith;
      right_word = omega arith;
      left_some = refl;
      in_range = members_of_6;
    },
    tt,
  ),
)

is_graph_connected_lem_example :
    (ans : Bool) × (is_graph_connected ready ≡ some ans)
    × ((ans ≡ true) ↔ ((a b : ℕ) → a < 3 → b < 3 → Closure (Hyperedge ready.joins) a b))
is_graph_connected_lem_example = is_graph_connected_lem ready (omega arith) ready-FitsIn

ready-IsReady : IsReady ready
ready-IsReady = record {
  classes = (
    (set_of 1, refl, omega arith),
    ((set_of 5, refl, omega arith), ((set_of 4, refl, omega arith), tt)),
  );
  strong_classes = (
    (set_of 1, refl, omega arith),
    ((set_of 1, refl, omega arith), ((set_of 0, refl, omega arith), tt)),
  );
  all_relations = refl;
  all_strong = refl;
  few = omega arith;
  few_strong = omega arith;
  words = ((omega arith, omega arith), ((omega arith, omega arith), tt));
}

has_join_edge_lem_example :
    (ans : Bool) × (has_join_edge ready (set_of 3) (set_of 4) ≡ some ans)
    × ((ans ≡ true) ↔ (
        Shares ready.relations2strong_equiv_classes (set_of 3) (set_of 4)
        ⊎ Shares ready.relations2equiv_classes (set_of 3) (set_of 4)
          × AnySpans ready.joins (set_of 3) (set_of 4)))
has_join_edge_lem_example =
    has_join_edge_lem ready (set_of 3) (set_of 4) ready-IsReady
      (record { word = omega arith; inhabited = unfold is_empty in refl; below = members_of_3 })
      (record { word = omega arith; inhabited = unfold is_empty in refl; below = members_of_4 })

generate_iu_equivalence_classes_lem_example :
    (graph' : QueryGraph) × (generate_iu_equivalence_classes query ≡ some graph')
    × Classifies (Compared query.join_infos query.joins) graph'.equivalent_ius
    × Classifies (InnerCompared query.join_infos query.joins) graph'.inner_join_equivalent_ius
generate_iu_equivalence_classes_lem_example =
    generate_iu_equivalence_classes_lem query (unfold Values.new in refl)
      (unfold Values.new in refl) (omega arith, (omega arith, tt))

used_at :
    (i : ℕ)
    → i < 2
    → (k : ℕ) × (j : OptimizerJoin) × (get_elem? query.joins k ≡ some j) × (j.join_id ≡ i)
used_at zero lt = (0, _, refl, refl)
used_at (suc zero) lt = (1, _, refl, refl)
used_at (suc (suc i)) lt = absurd (omega arith)

abbrev Named : ℕ → Type 0
Named iu =
    (k : ℕ) × (r : OptimizerRelation) × (get_elem? query.relations k ≡ some r) × (r.alias ≡ iu / 10)

named : All (All Named) query.join_infos
named = (
  ((0, _, refl, refl), ((1, _, refl, refl), tt)),
  (((1, _, refl, refl), ((2, _, refl, refl), tt)), tt),
)

query-IsFresh : IsFresh (λ c. c / 10) query
unfolding Values.new
query-IsFresh = record {
  no_values = refl;
  no_inner_values = refl;
  no_ids = refl;
  no_sets = refl;
  no_inner_sets = refl;
  no_relation_of = refl;
  no_groups = refl;
  no_inner_groups = refl;
  ids = (omega arith, (omega arith, tt));
  used = used_at;
  named = λ i n iu ius g at.
      All-get_elem? Named ius n (All-get_elem? (All Named) query.join_infos i named g) at;
  words = ((omega arith, omega arith), ((omega arith, omega arith), tt));
}

generate_runs :
    generate_iu_equivalence_classes query
    ≡ some (record query {
      equivalent_ius = ready.equivalent_ius;
      inner_join_equivalent_ius = ready.inner_join_equivalent_ius;
    })
unfolding generate_iu_equivalence_classes program
generate_runs = refl

few_columns :
    (g : QueryGraph)
    → generate_iu_equivalence_classes query ≡ some g
    → (Values.upper_bound g.equivalent_ius < 64)
      × (Values.upper_bound g.inner_join_equivalent_ius < 64)
few_columns g h =
    subst
      (λ (q : QueryGraph).
        (Values.upper_bound q.equivalent_ius < 64)
        × (Values.upper_bound q.inner_join_equivalent_ius < 64))
      (some_injective (sym generate_runs ∙ h))
      (unfold Values.upper_bound in (omega arith, omega arith))

prepare_for_optimization-IsPrepared_example :
    (graph' : QueryGraph) × (prepare_for_optimization (λ c. c / 10) query ≡ some graph')
    × IsPrepared (λ c. c / 10) query graph'
prepare_for_optimization-IsPrepared_example =
    prepare_for_optimization-IsPrepared (λ c. c / 10) query query-IsFresh few_columns

ready-IsPrepared : IsPrepared (λ c. c / 10) query ready
ready-IsPrepared =
    let (graph', run, p) =
      prepare_for_optimization-IsPrepared (λ c. c / 10) query query-IsFresh few_columns in
    subst (IsPrepared (λ c. c / 10) query) (some_injective (sym run ∙ prepare_runs)) p

has_join_edge-IsPrepared_example :
    (ans : Bool) × (has_join_edge ready (set_of 3) (set_of 4) ≡ some ans)
    × ((ans ≡ true) ↔ (
        Meets
          (λ c. c / 10)
          (InnerCompared query.join_infos query.joins)
          ready.relation2id
          ready.inner_join_equivalent_ius
          query.join_infos
          (set_of 3)
          (set_of 4)
        ⊎ Meets
            (λ c. c / 10)
            (Compared query.join_infos query.joins)
            ready.relation2id
            ready.equivalent_ius
            query.join_infos
            (set_of 3)
            (set_of 4)
          × AnySpans query.joins (set_of 3) (set_of 4)))
has_join_edge-IsPrepared_example =
    has_join_edge-IsPrepared (λ c. c / 10) query ready (set_of 3) (set_of 4) ready-IsPrepared
      (record { word = omega arith; inhabited = unfold is_empty in refl; below = members_of_3 })
      (record { word = omega arith; inhabited = unfold is_empty in refl; below = members_of_4 })
