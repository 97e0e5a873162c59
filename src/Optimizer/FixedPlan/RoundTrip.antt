-- ===== src/Optimizer/FixedPlan/RoundTrip.antt =====
-- A plan that is printed and read again has the same shape.
use fact_db.Prelude.{
  ℕ, zero, suc, ◌+◌, ◌%◌, ◌^◌, ◌≤◌, ◌<◌, ◌≡◌, refl, sym, ap, ◌∙◌, true, none, some, List, [], ◌∷◌,
  ◌++◌, length, get_elem?, All, arith, get_elem?-append, get_elem?-append_last,
}
use mathlib.Core.List.{append_assoc, append-nil}
use fact_db.BitSet.Word.{union}
use fact_db.BitSet.Word.Single.{from_list-single}
use fact_db.Timestamp.Text.{decimal}
use fact_db.Optimizer.Plans.{
  Plan, base_table, join, JoinMode, top_insert, bottom_insert, Store, make_join,
}
use fact_db.Optimizer.FixedPlan.{
  ok, ◌>>=◌, OptimizerRelation, is_alias_char, is_digit, peek, expect, parse_join_mode, mode_end,
  char_at, after_char, skip_spaces, is_space, emplace_base_table, allocate_join, parse_table,
  parse_expr, generate_optimal_plan, join_mode_string, print, find_relation,
}
use fact_db.Optimizer.FixedPlan.Tokens.{
  Stops, peek-decimal, skip_spaces-alias, parse_uint32-decimal, parse_alias-append,
  find_relation-at,
}
use fact_db.Optimizer.FixedPlan.Shapes.{
  PlanShape, scan, joined, shape_of, relation_at, text_of, depth, Known, depth-le-text_of,
  relation_at-get, print-text_of, depth-lt-fuel, Preserves, shape_of-Preserves, shape_base,
  shape_join, shape_of-get_elem?,
}

-- The relations of a query: at most 64, with 32 bit numbers and aliases of letters, digits and
-- underscores, and no two with the same number and the same alias.
pub record IsReadable (relations : List OptimizerRelation) : Type 0 where
  pub few : length relations ≤ 64
  pub numbers :
      (idx : ℕ) (rel : OptimizerRelation)
      → get_elem? relations idx ≡ some rel
      → rel.relation < 2 ^ 32
  pub named :
      (idx : ℕ) (rel : OptimizerRelation)
      → get_elem? relations idx ≡ some rel
      → 0 < length rel.alias
  pub aliases :
      (idx : ℕ) (rel : OptimizerRelation)
      → get_elem? relations idx ≡ some rel
      → All (λ c. is_alias_char c ≡ true) rel.alias
  pub distinct :
      (i j : ℕ) (a b : OptimizerRelation)
      → get_elem? relations i ≡ some a
      → get_elem? relations j ≡ some b
      → b.relation ≡ a.relation
      → b.alias ≡ a.alias
      → i ≡ j

-- An expression is read: the store that is left and the pointer.
record Reads {E : Type 0} (fuel : ℕ) (relations : List OptimizerRelation) (s : Store E)
    (text rest : List ℕ) (t : PlanShape) : Type 0 where
  after : Store E
  pointer : ℕ
  ran : parse_expr fuel relations s text ≡ ok ((after, pointer), rest)
  kept : Preserves s.plans after.plans
  shape : (h : ℕ) → depth t < h → shape_of h after.plans pointer ≡ some t

scan_shape :
    {E : Type 0} (h : ℕ) (plans : List (Plan E)) (plan : Plan E) (idx : ℕ)
    → depth (scan idx) < h
    → plan.type ≡ base_table idx
    → shape_of h (plans ++ plan ∷ []) (length plans) ≡ some (scan idx)
unfolding depth
scan_shape zero plans plan idx lt is = elim lt [ ]
scan_shape (suc h) plans plan idx lt is =
    shape_base h (plans ++ plan ∷ []) (length plans) plan idx (get_elem?-append_last plans plan) is

module _ {E : Type 0} (relations : List OptimizerRelation) (v : IsReadable relations) where
  scan-Reads :
      (fuel idx : ℕ) (s : Store E) (rest : List ℕ)
      → idx < length relations
      → Stops rest
      → Reads (suc fuel) relations s (text_of relations (scan idx) ++ rest) rest (scan idx)
  unfolding parse_expr parse_table emplace_base_table text_of depth is_alias_char is_digit
  scan-Reads fuel idx s rest lt stops =
      let rel = relation_at relations idx in
      let at = relation_at-get relations idx lt in
      let named = v.named idx rel at in
      let aliases = v.aliases idx rel at in
      let (covered, single, word, covers) = from_list-single idx (omega (arith, v.few)) in
      let found : find_relation relations 0 rel.relation rel.alias ≡ some idx =
        find_relation-at relations 0 idx rel at
          (λ j other at' e e'. v.distinct idx j rel other at at' e e')
        ∙ ap some (omega arith) in
      let plan : Plan E = record {
        plan_id = s.plan_id_ctr;
        type = base_table idx;
        covered_relations = covered;
        estimate = none;
      } in
      let text : text_of relations (scan idx) ++ rest
          ≡ decimal 10 rel.relation ++ 32 ∷ (rel.alias ++ rest) =
        append_assoc (decimal 10 rel.relation) (32 ∷ rel.alias) rest in
      record {
        after = record { plans = s.plans ++ plan ∷ []; plan_id_ctr = (s.plan_id_ctr + 1) % 2 ^ 64 };
        pointer = length s.plans;
        ran = rw text (
            rw (
              parse_expr,
              peek-decimal rel.relation (32 ∷ (rel.alias ++ rest)),
              parse_uint32-decimal rel.relation (32 ∷ (rel.alias ++ rest)) (v.numbers idx rel at)
                  refl,
              skip_spaces-alias rel.alias rest named aliases,
              parse_alias-append rel.alias rest named aliases stops,
              ◌>>=◌,
              found,
              single,
            ));
        kept = λ p q at'. get_elem?-append s.plans (plan ∷ []) p at';
        shape = λ h lt'. scan_shape h s.plans plan idx lt' refl;
      }

parse_join_mode-join_mode_string :
    (mode : JoinMode) (rest : List ℕ)
    → parse_join_mode (join_mode_string mode ++ rest) ≡ ok (mode, rest)
unfolding parse_join_mode join_mode_string mode_end char_at after_char skip_spaces is_space
parse_join_mode-join_mode_string top_insert rest = refl
parse_join_mode-join_mode_string bottom_insert rest = refl

-- Joining two pointers that have shapes.
record Allocates {E : Type 0} (s : Store E) (left right : ℕ) (l : PlanShape) (mode : JoinMode)
    (r : PlanShape) : Type 0 where
  after : Store E
  pointer : ℕ
  ran : allocate_join s left right mode ≡ ok (after, pointer)
  kept : Preserves s.plans after.plans
  shape :
      (h : ℕ)
      → depth (joined l mode r) < h
      → shape_of h after.plans pointer ≡ some (joined l mode r)

module _ {E : Type 0} where
  joined_shape :
      (h : ℕ) (plans : List (Plan E)) (plan : Plan E) (left right : ℕ) (l : PlanShape)
      (mode : JoinMode) (r : PlanShape)
      → ((k : ℕ) → depth l < k → shape_of k plans left ≡ some l)
      → ((k : ℕ) → depth r < k → shape_of k plans right ≡ some r)
      → depth (joined l mode r) < h
      → plan.type ≡ join left right mode
      → shape_of h (plans ++ plan ∷ []) (length plans) ≡ some (joined l mode r)
  unfolding depth
  joined_shape zero plans plan left right l mode r hl hr lt is = elim lt [ ]
  joined_shape (suc h) plans plan left right l mode r hl hr lt is =
      let keeps : Preserves plans (plans ++ plan ∷ []) =
        λ p q at. get_elem?-append plans (plan ∷ []) p at in
      shape_join h (plans ++ plan ∷ []) (length plans) plan left right mode l r
        (get_elem?-append_last plans plan) is
        (shape_of-Preserves h plans (plans ++ plan ∷ []) left l keeps (hl h (omega arith)))
        (shape_of-Preserves h plans (plans ++ plan ∷ []) right r keeps (hr h (omega arith)))

  allocate_join-Allocates :
      (s : Store E) (left right : ℕ) (l : PlanShape) (mode : JoinMode) (r : PlanShape)
      → ((k : ℕ) → depth l < k → shape_of k s.plans left ≡ some l)
      → ((k : ℕ) → depth r < k → shape_of k s.plans right ≡ some r)
      → Allocates s left right l mode r
  unfolding allocate_join make_join
  allocate_join-Allocates s left right l mode r hl hr =
      let (a, at_left) =
        shape_of-get_elem? (suc (depth l)) s.plans left l (hl (suc (depth l)) (omega arith)) in
      let (b, at_right) =
        shape_of-get_elem? (suc (depth r)) s.plans right r (hr (suc (depth r)) (omega arith)) in
      let plan : Plan E = record {
        plan_id = (s.plan_id_ctr + 1) % 2 ^ 64;
        type = join left right mode;
        covered_relations = union a.covered_relations b.covered_relations;
        estimate = none;
      } in
      record {
        after = record {
          plans = s.plans ++ plan ∷ [];
          plan_id_ctr = ((s.plan_id_ctr + 1) % 2 ^ 64 + 1) % 2 ^ 64;
        };
        pointer = length s.plans;
        ran = rw at_left (rw at_right refl);
        kept = λ p q at. get_elem?-append s.plans (plan ∷ []) p at;
        shape = λ h lt. joined_shape h s.plans plan left right l mode r hl hr lt refl;
      }

joined_text :
    (relations : List OptimizerRelation) (l r : PlanShape) (mode : JoinMode) (rest : List ℕ)
    → text_of relations (joined l mode r) ++ rest
      ≡ b'('
        ∷ (text_of relations l
            ++ (b')' ∷ (join_mode_string mode ++ (b'(' ∷ (text_of relations r ++ (b')' ∷ rest))))))
unfolding text_of
joined_text relations l r mode rest = simp append_assoc

module _ {E : Type 0} (relations : List OptimizerRelation) (v : IsReadable relations) where
  parse_expr-Reads :
      (fuel : ℕ) (t : PlanShape) (s : Store E) (rest : List ℕ)
      → depth t < fuel
      → Known relations t
      → Stops rest
      → Reads fuel relations s (text_of relations t ++ rest) rest t
  unfolding depth is_alias_char is_digit parse_expr peek expect
  parse_expr-Reads zero t s rest lt known stops = elim lt [ ]
  parse_expr-Reads (suc fuel) (scan idx) s rest lt known stops =
      scan-Reads relations v fuel idx s rest known stops
  parse_expr-Reads (suc fuel) (joined l mode r) s rest lt known stops =
      let after_right = b')' ∷ rest in
      let from_right = text_of relations r ++ after_right in
      let after_left = b')' ∷ (join_mode_string mode ++ (b'(' ∷ from_right)) in
      let left = parse_expr-Reads fuel l s after_left (omega arith) (known.0) refl in
      let right = parse_expr-Reads fuel r left.after after_right (omega arith) (known.1) refl in
      let made =
        allocate_join-Allocates right.after left.pointer right.pointer l mode r
          (λ k k_lt.
            shape_of-Preserves k left.after.plans right.after.plans left.pointer l right.kept
              (left.shape k k_lt))
          right.shape in
      record {
        after = made.after;
        pointer = made.pointer;
        ran = rw (joined_text relations l r mode rest) (
            rw (
              parse_expr,
              left.ran,
              ◌>>=◌,
              parse_join_mode-join_mode_string mode (b'(' ∷ from_right),
              ◌>>=◌,
              right.ran,
              ◌>>=◌,
              made.ran,
            ));
        kept = λ p q at. made.kept p q (right.kept p q (left.kept p q at));
        shape = made.shape;
      }

  -- For relations with 32 bit numbers and aliases of letters, digits and underscores, at most 64
  -- and no two alike: a plan of base tables and joins over these relations is printed,
  -- generateOptimalPlan of FixedPlan reads the text into any store of plans, and the plan that
  -- it returns has the same base tables, joins and join modes.
  pub generate_optimal_plan-print :
      (fuel : ℕ) (plans : List (Plan E)) (p : ℕ) (t : PlanShape) (s : Store E)
      → shape_of fuel plans p ≡ some t
      → Known relations t
      → (text : List ℕ) × (after : Store E) × (pointer : ℕ) × (print fuel relations plans p
          ≡ some text)
        × (generate_optimal_plan relations s text ≡ ok (after, pointer))
        × (shape_of fuel after.plans pointer ≡ some t)
  unfolding generate_optimal_plan
  generate_optimal_plan-print fuel plans p t s h known =
      let text = text_of relations t in
      let deep = depth-le-text_of relations t in
      let read = parse_expr-Reads (length text + 1) t s [] (omega arith) known tt in
      let whole : text ++ [] ≡ text = append-nil text in
      let ran : parse_expr (length text + 1) relations s text
          ≡ ok ((read.after, read.pointer), []) =
        ap (parse_expr (length text + 1) relations s) (sym whole) ∙ read.ran in
      (
        text,
        read.after,
        read.pointer,
        print-text_of relations fuel plans p t h known,
        rw ran refl,
        read.shape fuel (depth-lt-fuel fuel plans p t h),
      )
