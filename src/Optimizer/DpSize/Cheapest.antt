-- ===== src/Optimizer/DpSize/Cheapest.antt =====
-- The plan of a problem costs at most what any tree over the problem costs.
use fact_db.Prelude.{
  ℕ, ◌+◌, ◌≤◌, ◌<◌, ◌≡◌, refl, sym, ap, ◌∙◌, Bool, true, some, List, [], ◌∷◌, some_injective, arith,
}
use mathlib.Core.Path.{subst}
use fact_db.BitSet.Word.{BitSet64, union, from_list}
use fact_db.Optimizer.DpSize.{FlatPlan, DpSize, cost_of}
use fact_db.Optimizer.DpSize.Table.{Known, All-find}
use fact_db.Optimizer.DpSize.Valid.{Entry}
use fact_db.Optimizer.DpSize.Outcome.{Outcome, Sides, Known-Sides, create_join-Outcome}
use fact_db.Optimizer.DpSize.Steps.{Call, Steps, stay, call}
use fact_db.Optimizer.DpSize.Costs.{AtMost, Outcome-AtMost, Outcome-joined}
use fact_db.Optimizer.DpSize.Prepare.{Prepared}
use fact_db.Optimizer.DpSize.Relations.{JoinTree, leaf, node}
use fact_db.Optimizer.DpSize.JoinCost.{set_of, join_cost, from_list-set_of}
use fact_db.Optimizer.DpSize.Trees.{Claim}

AtMost-mono :
    (dp : DpSize) (x : BitSet64) (n k : ℕ)
    → n ≤ k
    → AtMost dp.store.plans dp.plan_map x n
    → AtMost dp.store.plans dp.plan_map x k
AtMost-mono dp x n k le h = record {
  plan = h.plan;
  cost = h.cost;
  found = h.found;
  costs = h.costs;
  within = omega (arith, h.within);
}

module _ (oracle : List FlatPlan → FlatPlan → ℕ) (has_join_edge : BitSet64 → BitSet64 → Bool)
    (card : BitSet64 → ℕ)
    (by_set : (plans : List FlatPlan) (plan : FlatPlan)
      → oracle plans plan ≡ card plan.covered_relations) where
  -- What a call does, from the plans of the two problems.
  pub record Effect (dp : DpSize) (a b : BitSet64) (dp' : DpSize) : Type 0 where
    pub sides : Sides dp a b
    pub outcome :
        Outcome card dp
          (union a b)
          sides.l
          sides.r
          sides.left_cost
          sides.right_cost
          (has_join_edge a b)
          dp'

  pub Call-Effect :
      (dp dp' : DpSize) (a b : BitSet64) → Call oracle has_join_edge dp a b dp' → Effect dp a b dp'
  Call-Effect dp dp' a b c =
      let v = Known-Sides has_join_edge dp a b c.table c.left c.right in
      let (dp'', (ran, outcome)) =
        create_join-Outcome oracle has_join_edge card by_set dp a b v c.table in
      record {
        sides = v;
        outcome =
            subst (Outcome card dp (union a b) v.l v.r v.left_cost v.right_cost (has_join_edge a b))
              (some_injective (sym ran ∙ c.made)) outcome;
      }

  pub Steps-AtMost :
      {dp dp' : DpSize}
      → Steps oracle has_join_edge dp dp'
      → (x : BitSet64) (bound : ℕ) → AtMost dp.store.plans dp.plan_map x bound
      → AtMost dp'.store.plans dp'.plan_map x bound
  Steps-AtMost stay x bound h = h
  Steps-AtMost (call {dp' = dp1} {dp'' = dp2} a b rest c) x bound h =
      let e = Call-Effect dp1 dp2 a b c in
      Outcome-AtMost card dp1 dp2 (union a b) e.sides.l e.sides.r e.sides.left_cost
        e.sides.right_cost (has_join_edge a b) x bound e.outcome (Steps-AtMost rest x bound h)

  operands_lt :
      (dp : DpSize) (a b : BitSet64) (v : Sides dp a b) (n k : ℕ)
      → AtMost dp.store.plans dp.plan_map a n
      → AtMost dp.store.plans dp.plan_map b k
      → v.left_cost + v.right_cost ≤ n + k
  operands_lt dp a b v n k left right =
      let l : left.plan ≡ v.l = some_injective (sym left.found ∙ v.found_left) in
      let r : right.plan ≡ v.r = some_injective (sym right.found ∙ v.found_right) in
      let x : left.cost ≡ v.left_cost =
        some_injective (sym left.costs ∙ ap (cost_of dp.store.plans) l ∙ v.costs_left) in
      let y : right.cost ≡ v.right_cost =
        some_injective (sym right.costs ∙ ap (cost_of dp.store.plans) r ∙ v.costs_right) in
      omega (arith, x, y, left.within, right.within)

  Prepared-AtMost :
      (relations : ℕ) (dp : DpSize) (x : BitSet64)
      → Prepared has_join_edge relations dp
      → Known dp.plan_map x
      → AtMost dp.store.plans dp.plan_map x 0
  unfolding cost_of
  Prepared-AtMost relations dp x v (p, found) =
      let (plan, at, covers) =
        All-find (Entry dp.store.plans) dp.plan_map x p v.table.map_covers found in
      let f = v.all_free p plan at in
      record {
        plan = p;
        cost = f.estimate.cost;
        found = found;
        costs = rw at (rw f.estimated refl);
        within = omega (arith, f.free);
      }

  -- The plan of the problem costs at most as much as the tree.
  abbrev pub CheapAs : DpSize → JoinTree → BitSet64 → Type 0
  CheapAs dp t x = (set_of t ≡ x) × AtMost dp.store.plans dp.plan_map x (join_cost card t)

  pub leaf-CheapAs :
      (relations : ℕ) (dp : DpSize) (r : ℕ) (x : BitSet64)
      → Prepared has_join_edge relations dp
      → r < relations
      → from_list (r ∷ []) ≡ some x
      → CheapAs dp (leaf r) x
  unfolding join_cost
  leaf-CheapAs relations dp r x v lt is =
      (from_list-set_of r x is, Prepared-AtMost relations dp x v (v.singles r x lt is))

  pub node-CheapAs :
      (dp dp' : DpSize) (l r : JoinTree) (a b : BitSet64)
      → Call oracle has_join_edge dp a b dp'
      → has_join_edge a b ≡ true
      → CheapAs dp l a
      → CheapAs dp r b
      → CheapAs dp' (node l r) (union a b)
  unfolding join_cost set_of
  node-CheapAs dp dp' l r a b c edge (e, left) (e', right) =
      let f = Call-Effect dp dp' a b c in
      let v = f.sides in
      let le = operands_lt dp a b v (join_cost card l) (join_cost card r) left right in
      let same : union (set_of l) (set_of r) ≡ union a b = rw e (rw e' refl) in
      (
        same,
        AtMost-mono dp' (union a b) (card (union a b) + v.left_cost + v.right_cost) _
            (omega (arith, le, ap card same))
            (Outcome-joined card dp dp' (union a b) v.l v.r v.left_cost v.right_cost
              (has_join_edge a b) edge f.outcome),
      )

  abbrev pub cheap_as : (relations : ℕ) → Claim oracle has_join_edge relations
  cheap_as relations = record {
    Has = CheapAs;
    known = λ dp t x (e, h). (h.plan, h.found);
    single = leaf-CheapAs relations;
    keeps = λ dp dp' t x steps (e, h). (e, Steps-AtMost steps x (join_cost card t) h);
    joins = node-CheapAs;
  }
