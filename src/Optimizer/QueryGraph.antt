-- ===== src/Optimizer/QueryGraph.antt =====
-- factDB/opt/QueryGraph.hpp and QueryGraph.cpp, and `OptimizerJoin` of OptimizerRepresentation.hpp:
-- the relations of a query, its joins, and the equivalence classes of their columns. A join's
-- condition and the query are kept as the columns that they collect, and a column stands for its
-- table and name. `none` is a failed assertion or an access out of bounds.
pub mod Connected
pub mod Gather
pub mod Spans
pub mod Edges
pub mod Classes
pub mod Compared
pub mod Placing
pub mod Aliases
pub mod Blank
pub mod Groups
pub mod RelationOf
pub mod Contract
pub mod Prepare
pub mod Prepared
pub mod Places
pub mod Unions
pub mod Generate
use fact_db.Prelude.{
  ℕ, zero, suc, Bool, true, false, not, ◌&&◌, ◌||◌, Option, none, some, List, [], ◌∷◌, ◌==◌, ◌+◌,
  if◌then◌else◌, ◌>>=◌, length, get_elem?, set, replicate,
}
use fact_db.BitSet.Word.{BitSet64, is_empty, is_subset_of, union, to_list, front}
use fact_db.BitSet.Var.{BitSetVar}
use fact_db.BitSet.Var
use fact_db.UnionFind.{Elements, new, union_sets, is_single_set}
use fact_db.UnionFind.Values.{ValueUnionFind, lookup, add_element, find_const, upper_bound}
use fact_db.UnionFind.Values
use fact_db.JoinMode.{JoinType, inner, right_semi}
use fact_db.IuSet.{insert_iu}

unfoldable pub is_inner : JoinType → Bool
is_inner inner = true
is_inner right_semi = false

pub record OptimizerJoin : Type 0 where
  pub left_relation : BitSet64
  pub right_relation : BitSet64
  pub join_id : ℕ
  pub join_type : JoinType

pub record OptimizerRelation : Type 0 where
  pub relation : ℕ
  pub alias : ℕ

pub record QueryGraph : Type 0 where
  pub query : Option (List ℕ)
  pub relations : List OptimizerRelation
  pub joins : List OptimizerJoin
  pub join_infos : List (List ℕ)
  pub relation2id : List (ℕ × ℕ)
  pub relations2equiv_classes : List BitSetVar
  pub relations2strong_equiv_classes : List BitSetVar
  pub equiv_class2ius : List (List ℕ)
  pub strong_equiv_class2ius : List (List ℕ)
  pub iu2relation : List (ℕ × ℕ)
  pub equivalent_ius : ValueUnionFind
  pub inner_join_equivalent_ius : ValueUnionFind

-- The loops of `isGraphConnected`: over the relations of a join, and over the joins.
unfoldable pub unite_all : Elements → List ℕ → ℕ → Option Elements
unite_all es [] front_relation = some es
unite_all es (rel ∷ rels) front_relation = do
  (_, es') ← union_sets es rel front_relation
  unite_all es' rels front_relation

unfoldable pub unite_joins : Elements → List OptimizerJoin → Option Elements
unfolding unite_all
unite_joins es [] = some es
unite_joins es (j ∷ js) = do
  es' ← unite_all es (to_list (union j.left_relation j.right_relation)) (front j.left_relation)
  unite_joins es' js

unfoldable pub is_graph_connected : QueryGraph → Option Bool
unfolding unite_joins
is_graph_connected graph = do
  connected_relations ← unite_joins (new (length graph.relations)) graph.joins
  (single, _) ← is_single_set connected_relations
  some single

-- A loop of `hasJoinEdge` that unites the classes of the relations of one side.
unfoldable pub gather : QueryGraph → BitSetVar → BitSetVar → List ℕ → Option (BitSetVar × BitSetVar)
gather graph all strong [] = some (all, strong)
gather graph all strong (rel ∷ rels) = do
  classes ← get_elem? graph.relations2equiv_classes rel
  all' ← Var.union all classes
  strong_classes ← get_elem? graph.relations2strong_equiv_classes rel
  strong' ← Var.union strong strong_classes
  gather graph all' strong' rels

-- The test of a join's two sides against the two sets.
unfoldable pub is_edge : OptimizerJoin → BitSet64 → BitSet64 → Bool
unfolding is_inner
is_edge join left right =
    (is_subset_of join.left_relation left && is_subset_of join.right_relation right)
    || is_inner join.join_type
      && is_subset_of join.right_relation left
      && is_subset_of join.left_relation right

unfoldable pub any_edge : List OptimizerJoin → BitSet64 → BitSet64 → Bool
unfolding is_edge
any_edge [] left right = false
any_edge (join ∷ joins) left right =
    if is_edge join left right then true else any_edge joins left right

unfoldable pub has_join_edge : QueryGraph → BitSet64 → BitSet64 → Option Bool
unfolding gather any_edge
has_join_edge graph left right = if is_empty left || is_empty right then none else (do
  no_class ← Var.new (length graph.equivalent_ius.id2type) []
  no_strong_class ← Var.new (length graph.inner_join_equivalent_ius.id2type) []
  (left_set, left_strong) ← gather graph no_class no_strong_class (to_list left)
  (right_set, right_strong) ← gather graph no_class no_strong_class (to_list right)
  inner_joins ← Var.does_intersect_with left_strong right_strong
  if inner_joins then some true else (do
    any_joins ← Var.does_intersect_with left_set right_set
    some (if any_joins then any_edge graph.joins left right else false)))
