-- ===== src/Tests/PlanTexts.antt =====
-- The text of a join of two tables.
use fact_db.Prelude.{
  ℕ, zero, suc, ◌^◌, ◌<◌, ◌≡◌, ◌≢◌, refl, some, none, true, List, [], ◌∷◌, All, length, get_elem?,
  some_injective, arith,
}
use mathlib.Core.Path.{subst}
use fact_db.BitSet.Word.{BitSet64}
use fact_db.Optimizer.Plans.{PlanType, base_table, join, bottom_insert, Store}
use fact_db.Optimizer.DpSize.{FlatPlan, FlatEstimate}
use fact_db.Optimizer.FixedPlan.{
  OptimizerRelation, Result, ok, throw, expected, out_of_fuel, is_alias_char, print,
  generate_optimal_plan,
}
use fact_db.Optimizer.FixedPlan.Shapes.{scan, joined, shape_of}
use fact_db.Optimizer.FixedPlan.RoundTrip.{IsReadable, generate_optimal_plan-print}
use fact_db.Optimizer.FixedPlan.Ends.{generate_optimal_plan_ends}

abbrev relations : List OptimizerRelation
relations =
    record { relation = 12; alias = b't' ∷ [] }
    ∷ record { relation = 7; alias = b't' ∷ b'_' ∷ b'2' ∷ [] }
    ∷ []

abbrev blank : ℕ → PlanType → FlatPlan
blank set type = record {
  plan_id = 0;
  type = type;
  covered_relations = record { set = set };
  estimate = none;
}

abbrev plans : List FlatPlan
plans = blank 1 (base_table 0) ∷ blank 2 (base_table 1) ∷ blank 3 (join 1 0 bottom_insert) ∷ []

-- `(7 t_2)BI(12 t)`
abbrev text : List ℕ
text =
    b'(' ∷ b'7' ∷ b' ' ∷ b't' ∷ b'_' ∷ b'2' ∷ b')' ∷ b'B' ∷ b'I' ∷ b'(' ∷ b'1' ∷ b'2' ∷ b' ' ∷ b't'
    ∷ b')' ∷ []

print_runs : print 2 relations plans 2 ≡ some text
unfolding print fact_db.Optimizer.FixedPlan.join_mode_string fact_db.Timestamp.Text.decimal
print_runs = refl

abbrev store : Store FlatEstimate
store = record { plans = []; plan_id_ctr = 0 }

-- A bracket that is not closed.
unclosed_runs :
    generate_optimal_plan relations store (b'(' ∷ b'7' ∷ b' ' ∷ b't' ∷ b'_' ∷ b'2' ∷ [])
    ≡ throw (expected b')')
unfolding generate_optimal_plan fact_db.Optimizer.FixedPlan.parse_expr
    fact_db.Optimizer.FixedPlan.peek fact_db.Optimizer.FixedPlan.expect
    fact_db.Optimizer.FixedPlan.parse_table fact_db.Optimizer.FixedPlan.parse_uint32
    fact_db.Optimizer.FixedPlan.digits_loop fact_db.Optimizer.FixedPlan.skip_spaces
    fact_db.Optimizer.FixedPlan.is_space fact_db.Optimizer.FixedPlan.is_digit
    fact_db.Optimizer.FixedPlan.parse_alias fact_db.Optimizer.FixedPlan.alias_loop is_alias_char
    fact_db.Optimizer.FixedPlan.find_relation fact_db.Optimizer.FixedPlan.text_eq
    fact_db.Optimizer.FixedPlan.emplace_base_table fact_db.BitSet.Word.from_list
unclosed_runs = refl

table_fact :
    (P : OptimizerRelation → Type 0)
    → All P relations
    → (idx : ℕ) (rel : OptimizerRelation) → get_elem? relations idx ≡ some rel
    → P rel
table_fact P (p, (q, _)) zero rel at = subst P (some_injective at) p
table_fact P (p, (q, _)) (suc zero) rel at = subst P (some_injective at) q
table_fact P (p, (q, _)) (suc (suc idx)) rel at = absurd (cc)

distinct_tables :
    (i j : ℕ) (a b : OptimizerRelation)
    → get_elem? relations i ≡ some a
    → get_elem? relations j ≡ some b
    → b.relation ≡ a.relation
    → i ≡ j
distinct_tables zero zero a b p q e = refl
distinct_tables zero (suc zero) a b p q e = absurd (ground (arith, p, q, e))
distinct_tables (suc zero) zero a b p q e = absurd (ground (arith, p, q, e))
distinct_tables (suc zero) (suc zero) a b p q e = refl
distinct_tables (suc (suc i)) j a b p q e = absurd (cc)
distinct_tables zero (suc (suc j)) a b p q e = absurd (cc)
distinct_tables (suc zero) (suc (suc j)) a b p q e = absurd (cc)

relations-IsReadable : IsReadable relations
unfolding is_alias_char fact_db.Optimizer.FixedPlan.is_digit
relations-IsReadable = record {
  few = omega arith;
  numbers = table_fact (λ rel. rel.relation < 2 ^ 32) (omega arith, (omega arith, tt));
  named = table_fact (λ rel. 0 < length rel.alias) (omega arith, (omega arith, tt));
  aliases =
      table_fact (λ rel. All (λ c. is_alias_char c ≡ true) rel.alias)
        ((refl, tt), ((refl, (refl, (refl, tt))), tt));
  distinct = λ i j a b p q e _. distinct_tables i j a b p q e;
}

generate_optimal_plan-print_example :
    (written : List ℕ) × (after : Store FlatEstimate) × (pointer : ℕ) × (print 2 relations plans 2
      ≡ some written)
    × (generate_optimal_plan relations store written ≡ ok (after, pointer))
    × (shape_of 2 after.plans pointer ≡ some (joined (scan 1) bottom_insert (scan 0)))
unfolding shape_of
generate_optimal_plan-print_example =
    generate_optimal_plan-print relations relations-IsReadable 2 plans 2
      (joined (scan 1) bottom_insert (scan 0)) store refl (omega arith, omega arith)

generate_optimal_plan_ends_example : generate_optimal_plan relations store text ≢ out_of_fuel
generate_optimal_plan_ends_example = generate_optimal_plan_ends relations store text
