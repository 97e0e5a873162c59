-- ===== src/Optimizer/QueryGraph/Contract.antt =====
-- What `prepareForOptimization` expects of a graph, and what it makes of it.
use fact_db.Prelude.{
  ℕ, ◌<◌, ◌≡◌, ◌↔◌, refl, sym, ◌∙◌, true, some, List, [], arith, length, get_elem?, All,
  Option-cases, some_injective, inl, inr,
}
use mathlib.Core.Path.{subst}
use fact_db.BitSet.Var.{BitSetVar}
use fact_db.UnionFind.Values.{ValueUnionFind, new, contains, lookup, find_const, get_id_const}
use fact_db.Optimizer.QueryGraph.{OptimizerJoin, OptimizerRelation, QueryGraph}
use fact_db.Optimizer.QueryGraph.Gather.{Has}
use fact_db.Optimizer.QueryGraph.Spans.{WordJoin}
use fact_db.Optimizer.QueryGraph.Edges.{IsReady}
use fact_db.Optimizer.QueryGraph.Compared.{Compared, InnerCompared}
use fact_db.Optimizer.QueryGraph.Generate.{Classifies}
use fact_db.Optimizer.QueryGraph.Places.{Stands}
use fact_db.Optimizer.QueryGraph.Aliases.{IsLast}
use fact_db.Optimizer.QueryGraph.Groups.{Collects}
use fact_db.Optimizer.QueryGraph.RelationOf.{MapsColumns}

-- A graph as its constructor leaves it, whose joins each have a stored condition and are over 64
-- bit words, whose conditions each belong to a join, and whose columns stand in tables that are
-- aliases of relations.
pub record IsFresh (table : ℕ → ℕ) (graph : QueryGraph) : Type 0 where
  pub no_values : graph.equivalent_ius ≡ new
  pub no_inner_values : graph.inner_join_equivalent_ius ≡ new
  pub no_ids : graph.relation2id ≡ []
  pub no_sets : graph.relations2equiv_classes ≡ []
  pub no_inner_sets : graph.relations2strong_equiv_classes ≡ []
  pub no_relation_of : graph.iu2relation ≡ []
  pub no_groups : graph.equiv_class2ius ≡ []
  pub no_inner_groups : graph.strong_equiv_class2ius ≡ []
  pub ids : All (λ (j : OptimizerJoin). j.join_id < length graph.join_infos) graph.joins
  pub used :
      (i : ℕ)
      → i < length graph.join_infos
      → (k : ℕ) × (j : OptimizerJoin) × (get_elem? graph.joins k ≡ some j) × (j.join_id ≡ i)
  pub named :
      (i n iu : ℕ) (ius : List ℕ)
      → get_elem? graph.join_infos i ≡ some ius
      → get_elem? ius n ≡ some iu
      → (k : ℕ) × (r : OptimizerRelation) × (get_elem? graph.relations k ≡ some r)
        × (r.alias ≡ table iu)
  pub words : All WordJoin graph.joins

-- The relation of a column that the map gives, and the column's class.
abbrev pub Belongs : (ℕ → ℕ) → List (ℕ × ℕ) → ValueUnionFind → List (List ℕ) → ℕ → ℕ → Type 0
Belongs table ids u infos rel c =
    (i : ℕ) × (n : ℕ) × (ius : List ℕ) × (iu : ℕ) × (get_elem? infos i ≡ some ius)
    × (get_elem? ius n ≡ some iu)
    × (lookup ids (table iu) ≡ some rel)
    × (find_const u iu ≡ some c)

pub Stands-Has :
    (table : ℕ → ℕ) (P Q : ℕ → ℕ → Type 0) (n : ℕ) (ids : List (ℕ × ℕ)) (u : ValueUnionFind)
    (classes : List BitSetVar) (iu rel c : ℕ)
    → Stands table P Q n ids u classes iu
    → lookup ids (table iu) ≡ some rel
    → find_const u iu ≡ some c
    → Has classes rel c
Stands-Has table P Q n ids u classes iu rel c (rel', c', named', found', has) named found =
    subst (Has classes rel) (some_injective (sym found' ∙ found))
      (subst (λ q. Has classes q c') (some_injective (sym named' ∙ named)) has)

pub find_const-contains :
    (u : ValueUnionFind) (v c : ℕ) → find_const u v ≡ some c → contains u v ≡ true
unfolding find_const get_id_const contains
find_const-contains u v c h = elim (Option-cases (lookup u.type2id v)) [
  | inl e ↦ absurd (ground arith)
  | inr (id, e) ↦ rw (contains, e) refl
]

-- What the function makes of a fresh graph: a graph that is ready, with the relations, joins and
-- conditions that it had. An alias has the last index of a relation with this alias; in the set of
-- a relation stand exactly the classes of the columns of the conditions in its table; exactly
-- these columns have a relation, that of their table; each class has exactly its columns.
pub record IsPrepared (table : ℕ → ℕ) (graph graph' : QueryGraph) : Type 0 where
  pub ready : IsReady graph'
  pub same_relations : graph'.relations ≡ graph.relations
  pub same_joins : graph'.joins ≡ graph.joins
  pub same_infos : graph'.join_infos ≡ graph.join_infos
  pub numbers : (v k : ℕ) → lookup graph'.relation2id v ≡ some k ↔ IsLast graph.relations v k
  pub relation_of : MapsColumns table graph'.relation2id graph.join_infos graph'.iu2relation
  pub groups : Collects graph'.equivalent_ius graph'.equiv_class2ius
  pub inner_groups : Collects graph'.inner_join_equivalent_ius graph'.strong_equiv_class2ius
  pub sets :
      (rel c : ℕ)
      → Has graph'.relations2equiv_classes rel c
        ↔ Belongs table graph'.relation2id graph'.equivalent_ius graph.join_infos rel c
  pub inner_sets :
      (rel c : ℕ)
      → Has graph'.relations2strong_equiv_classes rel c
        ↔ Belongs table graph'.relation2id graph'.inner_join_equivalent_ius graph.join_infos rel c
  pub classes : Classifies (Compared graph.join_infos graph.joins) graph'.equivalent_ius
  pub inner_classes :
      Classifies (InnerCompared graph.join_infos graph.joins) graph'.inner_join_equivalent_ius
