-- ===== src/Optimizer/QueryGraph/Generate.antt =====
-- `generateIuEquivalenceClasses`: which columns its two structures put into one class.
use fact_db.Prelude.{ℕ, ◌<◌, ◌≡◌, ◌↔◌, refl, sym, true, some, ◌>>=◌, length, All}
use mathlib.Core.Path.{subst}
use fact_db.UnionFind.Closure.{Closure, stay, forth, against, Closure-IsEquivalence}
use fact_db.UnionFind.Values.{ValueUnionFind, new, contains, find_const}
use fact_db.UnionFind.Values.Related.{
  SameClass, JoinsValues, SameClass-sym, SameClass-trans, new-JoinsValues,
}
use fact_db.UnionFind.Values.Classes.{find_const-SameClass, SameClass-sound, SameClass-refl}
use fact_db.Optimizer.QueryGraph.{OptimizerJoin, QueryGraph}
use fact_db.Optimizer.QueryGraph.Classes.{generate_iu_equivalence_classes}
use fact_db.Optimizer.QueryGraph.Compared.{Compared, InnerCompared}
use fact_db.Optimizer.QueryGraph.Unions.{updated, start-Steps, unite_conditions-Steps}

-- What the closure relates is in one class, if what it starts from is.
Closure-SameClass :
    (E : ℕ → ℕ → Type 0) (u : ValueUnionFind)
    → JoinsValues (Closure E) u
    → ((a b : ℕ) → E a b → SameClass u a b)
    → (a b : ℕ) → contains u a ≡ true
    → Closure E a b
    → SameClass u a b
Closure-SameClass E u known edges a b c stay =
    SameClass-refl (Closure E) (Closure-IsEquivalence E) u a known c
Closure-SameClass E u known edges a b c (forth {j} p e) =
    SameClass-trans u a j b (Closure-SameClass E u known edges a j c p) (edges j b e)
Closure-SameClass E u known edges a b c (against {j} p e) =
    SameClass-trans u a j b (Closure-SameClass E u known edges a j c p)
      (SameClass-sym u b j (edges b j e))

-- `findConst` gives one class to exactly the known values that the relation connects, and knows all
-- the values that it relates.
abbrev pub Classifies : (ℕ → ℕ → Type 0) → ValueUnionFind → Type 0
Classifies E u =
    ((a b : ℕ) → E a b → contains u a ≡ true)
    × ((a b : ℕ)
        → contains u a ≡ true
        → contains u b ≡ true
        → (x : ℕ) × (y : ℕ) × (find_const u a ≡ some x)
          × (find_const u b ≡ some y)
          × ((x ≡ y) ↔ Closure E a b))

pub SameClass-contains : (u : ValueUnionFind) (a b : ℕ) → SameClass u a b → contains u a ≡ true
unfolding contains
SameClass-contains u a b (i, j, la, lb, rest) = rw (contains, la) refl

pub classes_of :
    (E : ℕ → ℕ → Type 0) (u : ValueUnionFind)
    → JoinsValues (Closure E) u
    → ((a b : ℕ) → E a b → SameClass u a b)
    → Classifies E u
classes_of E u known edges = (
  λ a b e. SameClass-contains u a b (edges a b e),
  λ a b ca cb.
      let eq = Closure-IsEquivalence E in
      let (x, y, fx, fy, (to, from)) = find_const-SameClass (Closure E) eq u a b known ca cb in
      (
        x,
        y,
        fx,
        fy,
        (
          λ s. SameClass-sound (Closure E) eq u a b known (to s),
          λ c. from (Closure-SameClass E u known edges a b ca c),
        ),
      ),
)

-- What the function leaves in the two structures.
pub record Generated (graph : QueryGraph) (all strong : ValueUnionFind) : Type 0 where
  pub joins : JoinsValues (Closure (Compared graph.join_infos graph.joins)) all
  pub strong_joins : JoinsValues (Closure (InnerCompared graph.join_infos graph.joins)) strong
  pub same : (a b : ℕ) → Compared graph.join_infos graph.joins a b → SameClass all a b
  pub strong_same :
      (a b : ℕ) → InnerCompared graph.join_infos graph.joins a b → SameClass strong a b

pub generate_iu_equivalence_classes-Generated :
    (graph : QueryGraph)
    → graph.equivalent_ius ≡ new
    → graph.inner_join_equivalent_ius ≡ new
    → All (λ (j : OptimizerJoin). j.join_id < length graph.join_infos) graph.joins
    → (all : ValueUnionFind) × (strong : ValueUnionFind) × (generate_iu_equivalence_classes graph
        ≡ some (updated graph all strong))
      × Generated graph all strong
unfolding generate_iu_equivalence_classes
generate_iu_equivalence_classes-Generated graph fresh fresh' ids =
    let E = Compared graph.join_infos graph.joins in
    let F = InnerCompared graph.join_infos graph.joins in
    let eq = Closure-IsEquivalence E in
    let eq' = Closure-IsEquivalence F in
    let (all1, strong1, run1, known, known') =
      start-Steps (Closure E) (Closure F) eq eq' graph graph.query
        (subst (JoinsValues (Closure E)) (sym fresh) (new-JoinsValues (Closure E)))
        (subst (JoinsValues (Closure F)) (sym fresh') (new-JoinsValues (Closure F))) in
    let (all, strong, run, st, same, same') =
      unite_conditions-Steps (Closure E) (Closure F) eq eq' (updated graph all1 strong1) graph.joins
        known known' ids (λ a b e. forth stay e) (λ a b e. forth stay e) in
    (
      all,
      strong,
      rw (run1, ◌>>=◌) run,
      record { joins = st.joins; strong_joins = st.strong_joins; same = same; strong_same = same' },
    )

-- From a graph with empty structures, whose joins have ids of stored join conditions,
-- generateIuEquivalenceClasses returns. In the structure of all joins, every column of a
-- condition is known, and findConst gives two known columns the same class exactly if the least
-- equivalence that relates the columns of one join condition relates them; the structure of the
-- inner joins does the same for the conditions of the inner joins.
pub generate_iu_equivalence_classes_lem :
    (graph : QueryGraph)
    → graph.equivalent_ius ≡ new
    → graph.inner_join_equivalent_ius ≡ new
    → All (λ (j : OptimizerJoin). j.join_id < length graph.join_infos) graph.joins
    → (graph' : QueryGraph) × (generate_iu_equivalence_classes graph ≡ some graph')
      × Classifies (Compared graph.join_infos graph.joins) graph'.equivalent_ius
      × Classifies (InnerCompared graph.join_infos graph.joins) graph'.inner_join_equivalent_ius
generate_iu_equivalence_classes_lem graph fresh fresh' ids =
    let (all, strong, run, end) =
      generate_iu_equivalence_classes-Generated graph fresh fresh' ids in
    (
      updated graph all strong,
      run,
      classes_of (Compared graph.join_infos graph.joins) all end.joins end.same,
      classes_of (InnerCompared graph.join_infos graph.joins) strong end.strong_joins
          end.strong_same,
    )
