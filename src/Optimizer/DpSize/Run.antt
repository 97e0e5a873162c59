-- ===== src/Optimizer/DpSize/Run.antt =====
-- The first row of the sizes, and the whole run of `DPSize`.
use fact_db.Prelude.{
  ℕ, zero, suc, ◌+◌, ◌-◌, ◌<◌, ◌≤◌, ◌≡◌, Bool, refl, ◌∙◌, Option, some, List, [], ◌∷◌, length, sym,
  ap, inl, inr, some_injective, get_elem?, All, length-replicate, replicate, arith,
}
use mathlib.Core.Path.{subst}
use fact_db.BitSet.Word.{BitSet64, from_list}
use fact_db.Optimizer.Plans.{base_table}
use fact_db.Optimizer.DpSize.{FlatPlan, PlanMap, new}
use fact_db.Optimizer.DpSize.Valid.{IsTable}
use fact_db.Optimizer.DpSize.Search.{Search, Sizes, relation_of, push_base_tables, generate}
use fact_db.BitSet.Word.Single.{size-single}
use fact_db.Optimizer.DpSize.Rows.{Listed, Rows, InRow, push_lem}
use fact_db.Optimizer.DpSize.Pairs.{IsSearch, Succeeds}
use fact_db.Optimizer.DpSize.Sizes.{size_loop-Succeeds}
use fact_db.Optimizer.DpSize.Prepare.{
  BaseOf, AnyBase, IsBase, Prepared, no_key, prepare_base_tables-Prepared,
}

empty_row : (n i : ℕ) (row : List BitSet64) → get_elem? (replicate n []) i ≡ some row → [] ≡ row
empty_row zero i row at = absurd (cc)
empty_row (suc n) zero row at = some_injective at
empty_row (suc n) (suc i) row at = empty_row n i row at

empty-Rows : (m : PlanMap) (n : ℕ) → Rows m (replicate n [])
empty-Rows m n i row at = subst (All (Listed m i)) (empty_row n i row at) tt

same_problem :
    (plans : List FlatPlan) (x y : BitSet64) (p : ℕ) → BaseOf plans x p → BaseOf plans y p → x ≡ y
same_problem plans x y p b c =
    let one : b.plan ≡ c.plan = some_injective (sym b.at ∙ c.at) in
    let both : base_table b.relation ≡ base_table c.relation =
      sym b.is_base ∙ ap (λ (q : FlatPlan). q.type) one ∙ c.is_base in
    let same : b.relation ≡ c.relation = cc in
    some_injective (sym b.single ∙ ap (λ n. from_list (n ∷ [])) same ∙ c.single)

-- The first row is filled with the problems of the base tables.
record FirstRow (plans : List FlatPlan) (m : PlanMap) (base_tables : List ℕ) (sizes : Sizes)
    : Type 0 where
  after : Sizes
  ran : push_base_tables plans base_tables sizes ≡ some after
  same_length : length after ≡ length sizes
  problems : Rows m after
  kept : (y : BitSet64) → InRow sizes y → InRow after y
  new : (x : BitSet64) → AnyBase plans x base_tables → InRow after x

push_base_tables-FirstRow :
    (plans : List FlatPlan) (m : PlanMap) (base_tables : List ℕ) (sizes : Sizes)
    → 1 < length sizes
    → All (IsBase plans m) base_tables
    → Rows m sizes
    → FirstRow plans m base_tables sizes
unfolding push_base_tables relation_of
push_base_tables-FirstRow plans m [] sizes h bases rows = record {
  after = sizes;
  ran = refl;
  same_length = refl;
  problems = rows;
  kept = λ y r. r;
  new = λ x any. absurd any;
}
push_base_tables-FirstRow plans m (p ∷ base_tables) sizes h ((problem, b, known), rest) rows =
    let pushed =
      push_lem m sizes 1 problem h rows (known, size-single b.relation problem b.single) in
    let more =
      push_base_tables-FirstRow plans m base_tables pushed.after (omega (arith, pushed.same_length))
        rest pushed.problems in
    record {
      after = more.after;
      ran = rw b.at (rw b.is_base (rw b.single (rw pushed.ran more.ran)));
      same_length = more.same_length ∙ pushed.same_length;
      problems = more.problems;
      kept = λ y r. more.kept y (pushed.kept y r);
      new = λ x any. elim any [
        | inl c ↦
            more.kept x (subst (InRow pushed.after) (same_problem plans problem x p b c) pushed.new)
        | inr any' ↦ more.new x any'
      ];
    }

module _ (oracle : List FlatPlan → FlatPlan → ℕ) (has_join_edge : BitSet64 → BitSet64 → Bool) where
  -- The whole run, for a body that makes of `C` for a size `C` for the next one.
  pub generate-IsTable :
      (C : ℕ → Search → Type 0) (body : ℕ → Search → Option Search) (relations ctr : ℕ)
      → 1 ≤ relations
      → relations ≤ 64
      → ((s : Search)
          → IsSearch has_join_edge relations s
          → Prepared has_join_edge relations s.dp
          → C 2 s)
      → ((cur_size : ℕ) (s : Search)
          → 1 ≤ cur_size
          → cur_size ≤ relations
          → IsSearch has_join_edge relations s
          → C cur_size s
          → Succeeds has_join_edge relations oracle (C (suc cur_size)) s (body cur_size s))
      → (s : Search) × (generate oracle has_join_edge body relations (new ctr) ≡ some s.dp)
        × IsTable has_join_edge s.dp
        × C (relations + 1) s
  unfolding generate new
  generate-IsTable C body relations ctr pos small init ok =
      let (dp, prepared, v) =
        prepare_base_tables-Prepared oracle has_join_edge relations 0 (new ctr) (omega arith)
          (record {
            table = record { plans_valid = λ p plan at. absurd (cc); map_covers = tt };
            bases = tt;
            keys = λ x k. absurd (no_key x k);
            singles = λ r x lt is. absurd (omega arith);
            all_free = λ p plan at. absurd (cc);
          }) in
      let ready : Prepared has_join_edge relations dp =
        subst (λ n. Prepared has_join_edge n dp) (omega arith) v in
      let empty : Sizes = replicate (relations + 1) [] in
      let wide : length empty ≡ relations + 1 =
        length-replicate {A = List BitSet64} (relations + 1) [] in
      let row =
        push_base_tables-FirstRow dp.store.plans dp.plan_map dp.base_tables empty
          (omega (arith, wide)) v.bases (empty-Rows dp.plan_map (relations + 1)) in
      let start : Search = record { dp = dp; sizes = row.after } in
      let search : IsSearch has_join_edge relations start = record {
        table = v.table;
        rows = row.same_length ∙ wide;
        problems = row.problems;
        listed = λ x k. row.new x (v.keys x k);
      } in
      let (s, ran, after, c) =
        size_loop-Succeeds has_join_edge relations oracle C body ok (relations - 1) 2 start
          (omega arith) (omega arith) search (init start search ready) in
      (
        s,
        rw prepared (rw row.ran (rw ran refl)),
        after.search.table,
        subst (λ n. C n s) (omega arith) c,
      )
