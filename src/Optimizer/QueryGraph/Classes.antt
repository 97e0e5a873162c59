-- ===== src/Optimizer/QueryGraph/Classes.antt =====
-- `generateIuEquivalenceClasses` and `prepareForOptimization`: the equivalence classes of the columns
-- and the maps between relations, classes and columns.
use fact_db.Prelude.{
  ℕ, zero, suc, ◌+◌, Option, none, some, List, [], ◌∷◌, if◌then◌else◌, ◌>>=◌, length, get_elem?,
  set,
}
use fact_db.BitSet.Var.{BitSetVar}
use fact_db.BitSet.Var
use fact_db.UnionFind.Values.{ValueUnionFind, lookup, add_element, find_const, upper_bound}
use fact_db.UnionFind.Values
use fact_db.IuSet.{insert_iu}
use fact_db.JoinMode.{JoinType}
use fact_db.Optimizer.QueryGraph.{is_inner, OptimizerJoin, OptimizerRelation, QueryGraph}

-- The first loop of `generateIuEquivalenceClasses`, over the columns of the query.
unfoldable pub add_columns : QueryGraph → List ℕ → Option QueryGraph
add_columns graph [] = some graph
add_columns graph (iu ∷ ius) = do
  (all, _) ← add_element graph.equivalent_ius iu
  (strong, _) ← add_element graph.inner_join_equivalent_ius iu
  add_columns (record graph { equivalent_ius = all; inner_join_equivalent_ius = strong }) ius

-- Only an inner join unites its columns in the second structure.
unfoldable pub unite_if_inner : JoinType → ValueUnionFind → ℕ → ℕ → Option ValueUnionFind
unfolding is_inner
unite_if_inner join_type ius first_iu iu =
    if is_inner join_type
    then (do (united, _) ← Values.union_sets ius first_iu iu; some united)
    else some ius

-- The inner loop over the columns of a join condition.
unfoldable pub unite_columns : QueryGraph → JoinType → ℕ → List ℕ → Option QueryGraph
unfolding unite_if_inner
unite_columns graph join_type first_iu [] = some graph
unite_columns graph join_type first_iu (iu ∷ ius) = do
  (all, _) ← Values.union_sets graph.equivalent_ius first_iu iu
  strong ← unite_if_inner join_type graph.inner_join_equivalent_ius first_iu iu
  unite_columns (record graph { equivalent_ius = all; inner_join_equivalent_ius = strong })
      join_type first_iu ius

unfoldable pub unite_condition : QueryGraph → JoinType → List ℕ → Option QueryGraph
unfolding unite_columns
unite_condition graph join_type [] = some graph
unite_condition graph join_type (iu ∷ ius) = unite_columns graph join_type iu (iu ∷ ius)

unfoldable pub unite_conditions : QueryGraph → List OptimizerJoin → Option QueryGraph
unfolding unite_condition
unite_conditions graph [] = some graph
unite_conditions graph (join ∷ joins) = do
  participating_ius ← get_elem? graph.join_infos join.join_id
  graph' ← unite_condition graph join.join_type participating_ius
  unite_conditions graph' joins

unfoldable pub generate_iu_equivalence_classes : QueryGraph → Option QueryGraph
unfolding add_columns unite_conditions
generate_iu_equivalence_classes graph = do
  graph' ← elim graph.query [ none ↦ some graph | some ius ↦ add_columns graph ius ]
  unite_conditions graph' graph'.joins

-- `std::vector::resize`
unfoldable pub resize {ℓ} : {A : Type ℓ} → List A → ℕ → A → List A
resize xs zero v = []
resize [] (suc n) v = v ∷ resize [] n v
resize (x ∷ xs) (suc n) v = x ∷ resize xs n v

-- `relation2id[relations[idx].alias] = idx`; the newest entry of a name is the one that is found.
unfoldable pub number_aliases : List (ℕ × ℕ) → ℕ → List OptimizerRelation → List (ℕ × ℕ)
number_aliases ids idx [] = ids
number_aliases ids idx (r ∷ rs) = number_aliases ((r.alias, idx) ∷ ids) (idx + 1) rs

-- Inserts the class of a column into the set of its relation.
unfoldable pub insert_class : List BitSetVar → ℕ → ValueUnionFind → ℕ → Option (List BitSetVar)
insert_class classes relation ius iu = do
  equiv_class ← find_const ius iu
  known ← get_elem? classes relation
  known' ← Var.insert known equiv_class
  some (set classes relation known')

-- The loop over the values of a structure that fills the map from its classes to their columns.
unfoldable pub group_columns : ValueUnionFind → List (List ℕ) → List ℕ → Option (List (List ℕ))
group_columns ius classes [] = some classes
group_columns ius classes (iu ∷ rest) = do
  equiv_class ← find_const ius iu
  known ← get_elem? classes equiv_class
  group_columns ius (set classes equiv_class (insert_iu known iu)) rest

-- The table of a column is read through `iu->table`.
module _ (table : ℕ → ℕ) where
  unfoldable pub place_column : QueryGraph → ℕ → Option QueryGraph
  unfolding insert_class
  place_column graph iu = do
    relation ← lookup graph.relation2id (table iu)
    classes ← insert_class graph.relations2equiv_classes relation graph.equivalent_ius iu
    strong ←
        if Values.contains graph.inner_join_equivalent_ius iu
        then insert_class graph.relations2strong_equiv_classes relation
            graph.inner_join_equivalent_ius iu
        else some graph.relations2strong_equiv_classes
    some (record graph {
      relations2equiv_classes = classes;
      relations2strong_equiv_classes = strong;
      iu2relation = (iu, relation) ∷ graph.iu2relation;
    })

  unfoldable pub place_columns : QueryGraph → List ℕ → Option QueryGraph
  unfolding place_column
  place_columns graph [] = some graph
  place_columns graph (iu ∷ ius) = do graph' ← place_column graph iu; place_columns graph' ius

  unfoldable pub place_conditions : QueryGraph → List (List ℕ) → Option QueryGraph
  unfolding place_columns
  place_conditions graph [] = some graph
  place_conditions graph (ius ∷ infos) = do
    graph' ← place_columns graph ius
    place_conditions graph' infos

  unfoldable pub prepare_for_optimization : QueryGraph → Option QueryGraph
  unfolding generate_iu_equivalence_classes resize number_aliases place_conditions group_columns
  prepare_for_optimization graph = do
    generated ← generate_iu_equivalence_classes graph
    let size = length generated.relations
    let all = generated.equivalent_ius
    let strong = generated.inner_join_equivalent_ius
    no_class ← Var.new (upper_bound all) []
    no_strong_class ← Var.new (upper_bound strong) []
    placed ←
        place_conditions
          (record generated {
            relations2equiv_classes = resize generated.relations2equiv_classes size no_class;
            relations2strong_equiv_classes =
                resize generated.relations2strong_equiv_classes size no_strong_class;
            relation2id = number_aliases generated.relation2id 0 generated.relations;
          })
          generated.join_infos
    classes ← group_columns all (resize generated.equiv_class2ius (upper_bound all) []) all.id2type
    strong_classes ←
        group_columns strong (resize generated.strong_equiv_class2ius (upper_bound strong) [])
          strong.id2type
    some (record placed { equiv_class2ius = classes; strong_equiv_class2ius = strong_classes })
