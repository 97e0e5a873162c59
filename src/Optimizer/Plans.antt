-- ===== src/Optimizer/Plans.antt =====
-- factDB/opt/Plan.hpp and Plan.cpp: the plans of the optimizer, and the pool and the lists that hold
-- them. A pointer to a plan is its position in the store; `none` is a read through a null pointer, a
-- pointer that points at no plan, or a failed assertion.
pub mod Valid
use fact_db.Prelude.{
  ℕ, ◌+◌, ◌%◌, ◌^◌, Bool, Option, none, some, List, [], ◌∷◌, ◌++◌, ◌>>=◌, length, get_elem?, set,
}
use fact_db.BitSet.Word.{BitSet64, from_list, union}

pub data JoinMode : Type 0 where
  top_insert : JoinMode
  bottom_insert : JoinMode

-- The subclasses of `Plan`, with their own fields: `BaseTablePlan` and `JoinPlan`.
pub data PlanType : Type 0 where
  base_table : ℕ → PlanType
  join : ℕ → ℕ → JoinMode → PlanType

-- The estimate's type is the estimator's.
pub record Plan (E : Type 0) : Type 0 where
  pub plan_id : ℕ
  pub type : PlanType
  pub covered_relations : BitSet64
  pub estimate : Option E

-- Every plan that is allocated, in the order of the allocations, and `planIDCtr`.
pub record Store (E : Type 0) : Type 0 where
  pub plans : List (Plan E)
  pub plan_id_ctr : ℕ

-- The virtual `estimatePlan`: it reads the plan and the plans it points at.
abbrev pub Estimator : Type 0 → Type 0
Estimator E = List (Plan E) → Plan E → Option E

module _ {E : Type 0} where
  unfoldable pub inc_plan_id : Store E → Store E × ℕ
  inc_plan_id s = (record s { plan_id_ctr = (s.plan_id_ctr + 1) % 2 ^ 64 }, s.plan_id_ctr)

  -- `makeJoin` with no estimator, over the constructor of `JoinPlan`.
  unfoldable pub make_join : Store E → ℕ → ℕ → JoinMode → Option (Store E × Plan E)
  unfolding inc_plan_id
  make_join s left right mode = do
    left_plan ← get_elem? s.plans left
    right_plan ← get_elem? s.plans right
    let numbered = inc_plan_id s
    some (
      numbered.0,
      record {
        plan_id = numbered.1;
        type = join left right mode;
        covered_relations = union left_plan.covered_relations right_plan.covered_relations;
        estimate = none;
      },
    )

  -- `makeJoin` with an estimator and an id.
  unfoldable pub make_join_as :
      Estimator E → Store E → ℕ → ℕ → JoinMode → ℕ → Option (Store E × Plan E)
  unfolding make_join
  make_join_as estimator s left right mode id = do
    (s', p) ← make_join s left right mode
    e ← estimator s'.plans p
    some (s', record p { plan_id = id; estimate = some e })

  unfoldable pub make_join_estimated :
      Estimator E → Store E → ℕ → ℕ → JoinMode → Option (Store E × Plan E)
  unfolding make_join_as inc_plan_id
  make_join_estimated estimator s left right mode =
      let numbered = inc_plan_id s in make_join_as estimator numbered.0 left right mode numbered.1

  -- `*planAllocator.allocate() = plan`: the default constructor takes an id, which is overwritten.
  unfoldable pub store_plan : Store E → Plan E → Store E × ℕ
  unfolding inc_plan_id
  store_plan s p =
      let numbered = inc_plan_id s in
      (record (numbered.0) { plans = s.plans ++ p ∷ [] }, length s.plans)

  -- `*pointer = plan`
  unfoldable pub overwrite_plan : Store E → ℕ → Plan E → Store E
  overwrite_plan s p plan = record s { plans = set s.plans p plan }

  -- `baseTables.emplace_back(relation, estimator)`
  unfoldable pub new_base_table : Estimator E → Store E → ℕ → Option (Store E × ℕ)
  unfolding inc_plan_id
  new_base_table estimator s relation = do
    let numbered = inc_plan_id s
    covered ← from_list (relation ∷ [])
    let plan : Plan E = record {
      plan_id = numbered.1;
      type = base_table relation;
      covered_relations = covered;
      estimate = none;
    }
    e ← estimator s.plans plan
    some (
      record (numbered.0) { plans = s.plans ++ (record plan { estimate = some e }) ∷ [] },
      length s.plans,
    )

  unfoldable pub has_join_edge_with : (BitSet64 → BitSet64 → Bool) → Plan E → Plan E → Bool
  has_join_edge_with has_join_edge plan other =
      has_join_edge plan.covered_relations other.covered_relations
