-- ===== src/Optimizer/DpSize/Prepare.antt =====
-- `prepareBaseTables` of `DPSize`: a plan for every relation.
use fact_db.Prelude.{
  ℕ, zero, suc, ◌+◌, ◌%◌, ◌^◌, ◌<◌, ◌≤◌, ◌≡◌, Bool, refl, ◌∙◌, none, some, List, [], ◌∷◌, ◌++◌,
  length, sym, ap, ◌⊎◌, inl, inr, false, Bool-cases, ◌==◌, ==_iff, some_injective, get_elem?, All,
  All-append_one, All-mono, get_elem?-append, get_elem?-append_last, get_elem?-append_cases, arith,
}
use mathlib.Core.Path.{subst}
use fact_db.BitSet.Word.{BitSet64, from_list}
use fact_db.BitSet.Word.Single.{from_list-single}
use fact_db.Optimizer.Plans.{base_table, new_base_table}
use fact_db.Optimizer.Plans.Valid.{IsPlan, AllPlans-append, Keeps-append}
use fact_db.Optimizer.DpSize.{
  FlatEstimate, FlatPlan, PlanMap, DpSize, find, assign, flat_estimator, prepare_base_tables,
}
use fact_db.Optimizer.DpSize.Table.{
  Known, All-assign, Known-assign, Known-assign_self, Known-of_assign,
}
use fact_db.Optimizer.DpSize.Valid.{Entry, IsTable}
use fact_db.Optimizer.DpSize.Step.{All-Keeps}

pub no_key : (x : BitSet64) → Known [] x → ⊥
unfolding find
no_key x (p, h) = cc

pub smaller : (r idx : ℕ) → r < suc idx → (r == idx) ≡ false → r < idx
smaller r idx lt ne = ground arith

-- The pointer points at the base table of the problem.
pub record BaseOf (plans : List FlatPlan) (problem : BitSet64) (p : ℕ) : Type 0 where
  pub plan : FlatPlan
  pub at : get_elem? plans p ≡ some plan
  pub relation : ℕ
  pub is_base : plan.type ≡ base_table relation
  pub single : from_list (relation ∷ []) ≡ some problem

abbrev pub AnyBase : List FlatPlan → BitSet64 → List ℕ → Type 0
AnyBase plans problem [] = ⊥
AnyBase plans problem (p ∷ base_tables) = BaseOf plans problem p ⊎ AnyBase plans problem base_tables

-- A base table whose problem has a plan.
abbrev pub IsBase : List FlatPlan → PlanMap → ℕ → Type 0
IsBase plans m p = (problem : BitSet64) × BaseOf plans problem p × Known m problem

BaseOf-append :
    (plans : List FlatPlan) (plan : FlatPlan) (problem : BitSet64) (p : ℕ)
    → BaseOf plans problem p
    → BaseOf (plans ++ plan ∷ []) problem p
BaseOf-append plans plan problem p b = record {
  plan = b.plan;
  at = get_elem?-append plans (plan ∷ []) p b.at;
  relation = b.relation;
  is_base = b.is_base;
  single = b.single;
}

AnyBase-append :
    (plans : List FlatPlan) (plan : FlatPlan) (problem : BitSet64) (base_tables : List ℕ) (q : ℕ)
    → AnyBase plans problem base_tables
    → AnyBase (plans ++ plan ∷ []) problem (base_tables ++ q ∷ [])
AnyBase-append plans plan problem [] q h = absurd h
AnyBase-append plans plan problem (p ∷ base_tables) q (inl b) =
    inl (BaseOf-append plans plan problem p b)
AnyBase-append plans plan problem (p ∷ base_tables) q (inr h) =
    inr (AnyBase-append plans plan problem base_tables q h)

AnyBase-append_last :
    (plans : List FlatPlan) (problem : BitSet64) (base_tables : List ℕ) (q : ℕ)
    → BaseOf plans problem q
    → AnyBase plans problem (base_tables ++ q ∷ [])
AnyBase-append_last plans problem [] q b = inl b
AnyBase-append_last plans problem (p ∷ base_tables) q b =
    inr (AnyBase-append_last plans problem base_tables q b)

-- A base table costs nothing.
pub record IsFree (plan : FlatPlan) : Type 0 where
  pub relation : ℕ
  pub is_base : plan.type ≡ base_table relation
  pub estimate : FlatEstimate
  pub estimated : plan.estimate ≡ some estimate
  pub free : estimate.cost ≡ 0

-- The relations below `relations` have plans, and no other problem has one.
pub record Prepared (has_join_edge : BitSet64 → BitSet64 → Bool) (relations : ℕ) (dp : DpSize)
    : Type 0 where
  pub table : IsTable has_join_edge dp
  pub bases : All (IsBase dp.store.plans dp.plan_map) dp.base_tables
  pub keys : (x : BitSet64) → Known dp.plan_map x → AnyBase dp.store.plans x dp.base_tables
  pub singles :
      (r : ℕ) (x : BitSet64) → r < relations → from_list (r ∷ []) ≡ some x → Known dp.plan_map x
  pub all_free : (p : ℕ) (plan : FlatPlan) → get_elem? dp.store.plans p ≡ some plan → IsFree plan

-- The table after the plan of a new base table.
abbrev with_base : DpSize → FlatPlan → BitSet64 → DpSize
with_base dp plan key = record {
  store = record {
    plans = dp.store.plans ++ plan ∷ [];
    plan_id_ctr = (dp.store.plan_id_ctr + 1) % 2 ^ 64;
  };
  base_tables = dp.base_tables ++ length dp.store.plans ∷ [];
  plan_map = assign dp.plan_map key (length dp.store.plans);
}

with_base-singles :
    (idx : ℕ) (m : PlanMap) (key : BitSet64) (q : ℕ)
    → from_list (idx ∷ []) ≡ some key
    → ((r : ℕ) (x : BitSet64) → r < idx → from_list (r ∷ []) ≡ some x → Known m x)
    → (r : ℕ) (x : BitSet64) → r < suc idx
    → from_list (r ∷ []) ≡ some x
    → Known (assign m key q) x
with_base-singles idx m key q single singles r x lt is = elim (Bool-cases (r == idx)) [
  | inl e ↦
      let same : key ≡ x =
        some_injective
          (sym single ∙ ap (λ n. from_list (n ∷ [])) (sym ((==_iff r idx).0 e)) ∙ is) in
      subst (Known (assign m key q)) same (Known-assign_self m key q)
  | inr ne ↦ Known-assign m key x q (singles r x (smaller r idx lt ne) is)
]

with_base-Prepared :
    (has_join_edge : BitSet64 → BitSet64 → Bool) (idx : ℕ) (dp : DpSize) (plan : FlatPlan)
    → plan.type ≡ base_table idx
    → from_list (idx ∷ []) ≡ some plan.covered_relations
    → IsPlan has_join_edge dp.store.plans plan
    → IsFree plan
    → Prepared has_join_edge idx dp
    → Prepared has_join_edge (suc idx) (with_base dp plan plan.covered_relations)
with_base-Prepared has_join_edge idx dp plan is_base single is_plan is_free v =
    let key = plan.covered_relations in
    let plans = dp.store.plans in
    let q = length plans in
    let next = with_base dp plan key in
    let here = get_elem?-append_last plans plan in
    let base : BaseOf next.store.plans key q = record {
      plan = plan;
      at = here;
      relation = idx;
      is_base = is_base;
      single = single;
    } in
    record {
      table = record {
        plans_valid = AllPlans-append has_join_edge plans plan v.table.plans_valid is_plan;
        map_covers =
            All-assign (Entry next.store.plans) dp.plan_map key q
              (All-Keeps plans next.store.plans dp.plan_map (Keeps-append plans plan)
                v.table.map_covers)
              (plan, here, refl);
      };
      bases =
          All-append_one (IsBase next.store.plans next.plan_map) dp.base_tables q
            (All-mono (IsBase plans dp.plan_map) (IsBase next.store.plans next.plan_map)
              dp.base_tables
              (λ p (x, b, k).
                (x, BaseOf-append plans plan x p b, Known-assign dp.plan_map key x q k))
              v.bases)
            (key, base, Known-assign_self dp.plan_map key q);
      keys = λ x k. elim (Known-of_assign dp.plan_map key x q k) [
        | inl old ↦ AnyBase-append plans plan x dp.base_tables q (v.keys x old)
        | inr e ↦
            AnyBase-append_last next.store.plans x dp.base_tables q
              (subst (λ y. BaseOf next.store.plans y q) (sym e) base)
      ];
      singles = with_base-singles idx dp.plan_map key q single v.singles;
      all_free = λ p other at. elim (get_elem?-append_cases plans plan p at) [
        | inl old ↦ v.all_free p other old
        | inr e ↦ subst IsFree (sym e) is_free
      ];
    }

module _ (oracle : List FlatPlan → FlatPlan → ℕ) (has_join_edge : BitSet64 → BitSet64 → Bool) where
  -- One base table is made, for a relation that a set can hold.
  record Next (idx rounds : ℕ) (dp : DpSize) : Type 0 where
    next : DpSize
    step :
        prepare_base_tables oracle (suc rounds) idx dp
        ≡ prepare_base_tables oracle rounds (idx + 1) next
    prepared : Prepared has_join_edge (suc idx) next

  Prepared-Next :
      (idx rounds : ℕ) (dp : DpSize) → idx < 64 → Prepared has_join_edge idx dp → Next idx rounds dp
  unfolding prepare_base_tables new_base_table flat_estimator
  Prepared-Next idx rounds dp small v =
      let (key, single, word, covers) = from_list-single idx small in
      let plans = dp.store.plans in
      let bare : FlatPlan = record {
        plan_id = dp.store.plan_id_ctr;
        type = base_table idx;
        covered_relations = key;
        estimate = none;
      } in
      let plan : FlatPlan = record bare {
        estimate = some (record { cardinality = oracle plans bare; cost = 0 });
      } in
      record {
        next = with_base dp plan key;
        step = rw single refl;
        prepared =
            with_base-Prepared has_join_edge idx dp plan refl single
              (record {
                is_word = word;
                covers = covers;
                built = single;
                estimated = (record { cardinality = oracle plans bare; cost = 0 }, refl);
              })
              (record {
                relation = idx;
                is_base = refl;
                estimate = record { cardinality = oracle plans bare; cost = 0 };
                estimated = refl;
                free = refl;
              })
              v;
      }

  pub prepare_base_tables-Prepared :
      (rounds idx : ℕ) (dp : DpSize)
      → rounds + idx ≤ 64
      → Prepared has_join_edge idx dp
      → (dp' : DpSize) × (prepare_base_tables oracle rounds idx dp ≡ some dp')
        × Prepared has_join_edge (rounds + idx) dp'
  unfolding prepare_base_tables
  prepare_base_tables-Prepared zero idx dp small v =
      (dp, refl, subst (λ n. Prepared has_join_edge n dp) (omega arith) v)
  prepare_base_tables-Prepared (suc rounds) idx dp small v =
      let n = Prepared-Next idx rounds dp (omega arith) v in
      let bump : suc idx ≡ idx + 1 = omega arith in
      let (dp', ran, v') =
        prepare_base_tables-Prepared rounds (idx + 1) n.next (omega arith)
          (subst (λ k. Prepared has_join_edge k n.next) bump n.prepared) in
      (dp', n.step ∙ ran, subst (λ k. Prepared has_join_edge k dp') (omega arith) v')
