-- ===== src/Optimizer/FixedPlan.antt =====
-- factDB/opt/algs/FixedPlan.cpp, which reads a cached plan from its text, and the printing of plans in
-- factDB/opt/Plan.cpp, which writes it. Text is the list of its bytes; the parser's state is the text
-- from its position on. The
-- position in an error's message is not modelled.
pub mod Tokens
pub mod Shapes
pub mod RoundTrip
pub mod Ends
use fact_db.Prelude.{
  ℕ, zero, suc, ◌+◌, ◌-◌, ◌*◌, ◌%◌, ◌^◌, Bool, true, false, ◌&&◌, ◌||◌, Option, none, some, List,
  [], ◌∷◌, ◌++◌, ltb, leb, ◌==◌, if◌then◌else◌, length, get_elem?,
}
use fact_db.BitSet.Word.{BitSet64, from_list}
use fact_db.Timestamp.Text.{decimal}
use fact_db.Optimizer.Plans.{
  Plan, PlanType, base_table, join, JoinMode, top_insert, bottom_insert, Store, inc_plan_id,
  make_join,
}

pub data Error : Type 0 where
  expected : ℕ → Error
  expected_integer expected_mode_start expected_mode_end expected_identifier : Error

-- `undefined` is `unreachable()`; `out_of_fuel` is no outcome of the code.
pub data Result {ℓ} (A : Type ℓ) : Type ℓ where
  ok : A → Result A
  throw : Error → Result A
  undefined out_of_fuel : Result A

infixl 5 ◌>>=◌
abbrev pub ◌>>=◌ {ℓ κ} : {A : Type ℓ} {B : Type κ} → Result A → (A → Result B) → Result B
ok a >>= f = f a
throw e >>= f = throw e
undefined >>= f = undefined
out_of_fuel >>= f = out_of_fuel

-- An entry of `queryGraph.getRelations()`.
pub record OptimizerRelation : Type 0 where
  pub relation : ℕ
  pub alias : List ℕ

unfoldable pub is_space : ℕ → Bool
is_space c = (c == 32) || (leb 9 c && leb c 13)

unfoldable pub is_digit : ℕ → Bool
is_digit c = leb 48 c && leb c 57

unfoldable pub is_alias_char : ℕ → Bool
unfolding is_digit
is_alias_char c = is_digit c || (leb 65 c && leb c 90) || (leb 97 c && leb c 122) || (c == 95)

unfoldable pub skip_spaces : List ℕ → List ℕ
skip_spaces [] = []
skip_spaces (c ∷ text) = let rest = skip_spaces text in if is_space c then rest else c ∷ text

unfoldable pub peek : List ℕ → ℕ → Bool
peek [] c = false
peek (d ∷ text) c = d == c

unfoldable pub expect : List ℕ → ℕ → Result (List ℕ)
expect [] c = throw (expected c)
expect (d ∷ text) c = if d == c then ok text else throw (expected c)

-- The loop over the digits; `val` is a `uint32_t`.
unfoldable pub digits_loop : ℕ → Bool → List ℕ → (ℕ × Bool) × List ℕ
digits_loop val has_digit [] = ((val, has_digit), [])
digits_loop val has_digit (c ∷ text) =
    let rest = digits_loop ((val * 10 + (c - 48)) % 2 ^ 32) true text in
    if is_digit c then rest else ((val, has_digit), c ∷ text)

unfoldable pub parse_uint32 : List ℕ → Result (ℕ × List ℕ)
parse_uint32 text =
    let ((val, has_digit), rest) = digits_loop 0 false (skip_spaces text) in
    if has_digit then ok (val, rest) else throw expected_integer

-- `planStr[pos]`, which is zero at the end of the text, and the text after it.
unfoldable pub char_at : List ℕ → ℕ
char_at [] = 0
char_at (c ∷ text) = c

unfoldable pub after_char : List ℕ → List ℕ
after_char [] = []
after_char (c ∷ text) = text

unfoldable pub mode_end : JoinMode → List ℕ → Result (JoinMode × List ℕ)
unfolding char_at after_char
mode_end mode text =
    if char_at text == b'I' then ok (mode, after_char text) else throw expected_mode_end

unfoldable pub parse_join_mode : List ℕ → Result (JoinMode × List ℕ)
unfolding char_at after_char
parse_join_mode text =
    let start = skip_spaces text in
    if char_at start == b'B'
    then mode_end bottom_insert (after_char start)
    else if char_at start == b'T'
    then mode_end top_insert (after_char start)
    else throw expected_mode_start

unfoldable pub alias_loop : List ℕ → List ℕ × List ℕ
alias_loop [] = ([], [])
alias_loop (c ∷ text) =
    let (name, rest) = alias_loop text in
    if is_alias_char c then (c ∷ name, rest) else ([], c ∷ text)

unfoldable pub parse_alias : List ℕ → Result (List ℕ × List ℕ)
parse_alias text =
    let (name, rest) = alias_loop (skip_spaces text) in
    if length name == 0 then throw expected_identifier else ok (name, rest)

unfoldable pub text_eq : List ℕ → List ℕ → Bool
text_eq [] [] = true
text_eq [] (d ∷ t) = false
text_eq (c ∷ s) [] = false
text_eq (c ∷ s) (d ∷ t) = (c == d) && text_eq s t

-- The loop that looks for the table, from `idx` on.
unfoldable pub find_relation : List OptimizerRelation → ℕ → ℕ → List ℕ → Option ℕ
find_relation [] idx relation alias = none
find_relation (tbl ∷ relations) idx relation alias =
    let rest = find_relation relations (idx + 1) relation alias in
    if (tbl.relation == relation) && text_eq tbl.alias alias then some idx else rest

unfoldable pub join_mode_string : JoinMode → List ℕ
join_mode_string top_insert = b'T' ∷ b'I' ∷ []
join_mode_string bottom_insert = b'B' ∷ b'I' ∷ []

module _ {E : Type 0} where
  -- `baseTables.emplace_back(idx)`
  unfoldable pub emplace_base_table : Store E → ℕ → Result (Store E × ℕ)
  unfolding inc_plan_id
  emplace_base_table s idx =
      let numbered = inc_plan_id s in
      elim (from_list (idx ∷ [])) [
        | none ↦ undefined
        | some covered ↦ ok (
          record (numbered.0) {
            plans =
                s.plans
                ++ (record {
                  plan_id = numbered.1;
                  type = base_table idx;
                  covered_relations = covered;
                  estimate = none;
                })
                  ∷ [];
          },
          length s.plans,
        )
      ]

  -- `*planAllocator.allocate() = makeJoin(left, right, mode)`
  unfoldable pub allocate_join : Store E → ℕ → ℕ → JoinMode → Result (Store E × ℕ)
  unfolding inc_plan_id
  allocate_join s left right mode =
      let allocated = inc_plan_id s in
      elim (make_join (allocated.0) left right mode) [
        | none ↦ undefined
        | some (s', p) ↦ ok (record s' { plans = s'.plans ++ p ∷ [] }, length s'.plans)
      ]

  -- A base table: `relation alias`.
  unfoldable pub parse_table :
      List OptimizerRelation → Store E → List ℕ → Result ((Store E × ℕ) × List ℕ)
  parse_table relations s text = do
    (relation, text) ← parse_uint32 text
    (alias, text) ← parse_alias (skip_spaces text)
    elim (find_relation relations 0 relation alias) [
      | none ↦ undefined
      | some idx ↦ do made ← emplace_base_table s idx; ok (made, text)
    ]

  unfoldable pub parse_expr :
      ℕ → List OptimizerRelation → Store E → List ℕ → Result ((Store E × ℕ) × List ℕ)
  parse_expr zero relations s text = out_of_fuel
  parse_expr (suc fuel) relations s text = elim (peek text b'(') [
    | true ↦ do
      text ← expect text b'('
      ((s, left), text) ← parse_expr fuel relations s text
      text ← expect text b')'
      (mode, text) ← parse_join_mode text
      text ← expect text b'('
      ((s, right), text) ← parse_expr fuel relations s text
      text ← expect text b')'
      made ← allocate_join s left right mode
      ok (made, text)
    | false ↦ parse_table relations s text
  ]

  -- What follows the plan is not looked at. An expression consumes a bracket for each level.
  unfoldable pub generate_optimal_plan :
      List OptimizerRelation → Store E → List ℕ → Result (Store E × ℕ)
  generate_optimal_plan relations s text = do
    (made, rest) ← parse_expr (length text + 1) relations s text
    ok made

  -- `Plan::print`, over `BaseTablePlan::print` and `JoinPlan::print`, for at most `fuel` levels.
  unfoldable pub print : ℕ → List OptimizerRelation → List (Plan E) → ℕ → Option (List ℕ)
  print zero relations plans p = none
  print (suc fuel) relations plans p = elim (get_elem? plans p) [
    | none ↦ none
    | some plan ↦ elim plan.type [
      | base_table idx ↦ elim (get_elem? relations idx) [
        | none ↦ none
        | some rel ↦ some (decimal 10 rel.relation ++ 32 ∷ rel.alias)
      ]
      | join left right mode ↦ elim (print fuel relations plans left) [
        | none ↦ none
        | some l ↦ elim (print fuel relations plans right) [
          | none ↦ none
          | some r ↦
              some (b'(' ∷ (l ++ (b')' ∷ (join_mode_string mode ++ (b'(' ∷ (r ++ b')' ∷ []))))))
        ]
      ]
    ]
  ]
