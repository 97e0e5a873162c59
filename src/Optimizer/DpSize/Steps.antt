-- ===== src/Optimizer/DpSize/Steps.antt =====
-- The search as a sequence of calls of `createJoin`.
use fact_db.Prelude.{◌≡◌, sym, ◌∙◌, Bool, false, some, List, some_injective, ℕ}
use mathlib.Core.Path.{subst}
use fact_db.BitSet.Word.{BitSet64, union, does_intersect_with}
use fact_db.Optimizer.DpSize.{FlatPlan, DpSize, create_join}
use fact_db.Optimizer.DpSize.Table.{Known}
use fact_db.Optimizer.DpSize.Valid.{IsTable}
use fact_db.Optimizer.DpSize.Step.{Extends, create_join-Extends}

module _ (oracle : List FlatPlan → FlatPlan → ℕ) (has_join_edge : BitSet64 → BitSet64 → Bool) where
  -- One call, on a valid table, for two disjoint problems that have plans.
  pub record Call (dp : DpSize) (a b : BitSet64) (dp' : DpSize) : Type 0 where
    pub table : IsTable has_join_edge dp
    pub left : Known dp.plan_map a
    pub right : Known dp.plan_map b
    pub disjoint : does_intersect_with a b ≡ false
    pub made : create_join oracle has_join_edge dp a b ≡ some dp'

  pub data Steps (dp : DpSize) : DpSize → Type 0 where
    stay : Steps dp dp
    call : {dp' dp'' : DpSize} (a b : BitSet64) → Steps dp dp' → Call dp' a b dp'' → Steps dp dp''

  pub Steps-trans : {dp dp' dp'' : DpSize} → Steps dp dp' → Steps dp' dp'' → Steps dp dp''
  Steps-trans first stay = first
  Steps-trans first (call a b rest c) = call a b (Steps-trans first rest) c

  pub Call-Extends :
      {dp dp' : DpSize} (a b : BitSet64)
      → Call dp a b dp'
      → Extends has_join_edge dp (union a b) (has_join_edge a b) dp'
  Call-Extends {dp} {dp'} a b c =
      let (dp'', made, extends) =
        create_join-Extends oracle has_join_edge dp a b c.table c.left c.right c.disjoint in
      subst (Extends has_join_edge dp (union a b) (has_join_edge a b))
        (some_injective (sym made ∙ c.made)) extends

  pub Steps-Known :
      {dp dp' : DpSize} → Steps dp dp' → (x : BitSet64) → Known dp.plan_map x → Known dp'.plan_map x
  Steps-Known stay x k = k
  Steps-Known (call a b rest c) x k = (Call-Extends a b c).known x (Steps-Known rest x k)

  -- Between the two tables lies a call for the two problems.
  pub record Visited (a b : BitSet64) (dp dp' : DpSize) : Type 0 where
    pub before : DpSize
    pub after : DpSize
    pub leads : Steps dp before
    pub visits : Call before a b after
    pub goes_on : Steps after dp'

  pub Visited-later :
      (a b : BitSet64) {dp dp' dp'' : DpSize}
      → Visited a b dp dp'
      → Steps dp' dp''
      → Visited a b dp dp''
  Visited-later a b v more = record {
    before = v.before;
    after = v.after;
    leads = v.leads;
    visits = v.visits;
    goes_on = Steps-trans v.goes_on more;
  }

  pub Visited-earlier :
      (a b : BitSet64) {dp dp' dp'' : DpSize}
      → Steps dp dp'
      → Visited a b dp' dp''
      → Visited a b dp dp''
  Visited-earlier a b first v = record {
    before = v.before;
    after = v.after;
    leads = Steps-trans first v.leads;
    visits = v.visits;
    goes_on = v.goes_on;
  }
