-- ===== src/Optimizer/FixedPlan/Ends.antt =====
-- The parser of plans ends on every text.
use fact_db.Prelude.{
  ℕ, zero, suc, ◌+◌, ◌-◌, ◌*◌, ◌%◌, ◌^◌, ◌≤◌, ◌<◌, ◌≢◌, Bool, true, false, List, [], ◌∷◌, length,
  Bool-cases, Option-cases, inl, inr, arith, ◌==◌,
}
use fact_db.BitSet.Word.{from_list}
use fact_db.Optimizer.Plans.{Store, JoinMode, make_join}
use fact_db.Optimizer.FixedPlan.{
  Result, ok, throw, undefined, out_of_fuel, ◌>>=◌, OptimizerRelation, skip_spaces, is_digit,
  is_alias_char, peek, expect, digits_loop, parse_uint32, char_at, after_char, mode_end,
  parse_join_mode, alias_loop, parse_alias, find_relation, emplace_base_table, allocate_join,
  parse_table, parse_expr, generate_optimal_plan,
}

-- The run has an outcome, and leaves a text of at most `n` bytes if it is no error.
abbrev Within : {A : Type 0} → (A → ℕ) → ℕ → Result A → Type 0
Within size n (ok a) = size a ≤ n
Within size n (throw e) = Unit {0}
Within size n undefined = Unit {0}
Within size n out_of_fuel = ⊥

-- The length of the text that is left.
abbrev left : {A : Type 0} → A × List ℕ → ℕ
left r = length (r.1)

Within-bind :
    {A B : Type 0} (size : A → ℕ) (size' : B → ℕ) (n m : ℕ) (r : Result A) (f : A → Result B)
    → Within size n r
    → ((a : A) → size a ≤ n → Within size' m (f a))
    → Within size' m (r >>= f)
Within-bind size size' n m (ok a) f h next = next a h
Within-bind size size' n m (throw e) f h next = tt
Within-bind size size' n m undefined f h next = tt
Within-bind size size' n m out_of_fuel f h next = absurd h

length-skip_spaces : (text : List ℕ) → length (skip_spaces text) ≤ length text
unfolding skip_spaces
length-skip_spaces [] = omega arith
length-skip_spaces (c ∷ text) = ground (arith, length-skip_spaces text)

length-digits_loop :
    (text : List ℕ) (val : ℕ) (has : Bool) → length (digits_loop val has text).1 ≤ length text
unfolding digits_loop
length-digits_loop [] val has = omega arith
length-digits_loop (c ∷ text) val has = elim (Bool-cases (is_digit c)) [
  | inl e ↦ rw e (omega (arith, length-digits_loop text ((val * 10 + (c - 48)) % 2 ^ 32) true))
  | inr e ↦ rw e (omega arith)
]

length-alias_loop : (text : List ℕ) → length (alias_loop text).1 ≤ length text
unfolding alias_loop
length-alias_loop [] = omega arith
length-alias_loop (c ∷ text) = elim (Bool-cases (is_alias_char c)) [
  | inl e ↦ rw e (omega (arith, length-alias_loop text))
  | inr e ↦ rw e (omega arith)
]

length-after_char : (text : List ℕ) → length (after_char text) ≤ length text
unfolding after_char
length-after_char [] = omega arith
length-after_char (c ∷ text) = omega arith

parse_uint32-Within : (text : List ℕ) → Within left (length text) (parse_uint32 text)
unfolding parse_uint32
parse_uint32-Within text = elim (Bool-cases (digits_loop 0 false (skip_spaces text)).0.1) [
  | inl e ↦
      rw e (omega (arith, length-digits_loop (skip_spaces text) 0 false, length-skip_spaces text))
  | inr e ↦ rw e tt
]

parse_alias-Within : (text : List ℕ) → Within left (length text) (parse_alias text)
unfolding parse_alias
parse_alias-Within text = elim (Bool-cases (length (alias_loop (skip_spaces text)).0 == 0)) [
  | inl e ↦ rw e tt
  | inr e ↦ rw e (omega (arith, length-alias_loop (skip_spaces text), length-skip_spaces text))
]

mode_end-Within : (mode : JoinMode) (text : List ℕ) → Within left (length text) (mode_end mode text)
unfolding mode_end
mode_end-Within mode text = elim (Bool-cases (char_at text == b'I')) [
  | inl e ↦ rw e (length-after_char text)
  | inr e ↦ rw e tt
]

-- A smaller bound.
Within-mono :
    {A : Type 0} (size : A → ℕ) (n m : ℕ) (r : Result A) → n ≤ m → Within size n r → Within size m r
Within-mono size n m (ok a) le h = omega arith
Within-mono size n m (throw e) le h = tt
Within-mono size n m undefined le h = tt
Within-mono size n m out_of_fuel le h = absurd h

parse_join_mode-Within : (text : List ℕ) → Within left (length text) (parse_join_mode text)
unfolding parse_join_mode
parse_join_mode-Within text =
    let start = skip_spaces text in
    let shorter : length (after_char start) ≤ length text =
      omega (arith, length-after_char start, length-skip_spaces text) in
    elim (Bool-cases (char_at start == b'B')) [
      | inl e ↦ rw e (
          Within-mono left (length (after_char start)) (length text) _ shorter
            (mode_end-Within _ (after_char start)))
      | inr e ↦ elim (Bool-cases (char_at start == b'T')) [
        | inl e' ↦ rw e (
            rw e' (
              Within-mono left (length (after_char start)) (length text) _ shorter
                (mode_end-Within _ (after_char start))))
        | inr e' ↦ rw e (rw e' tt)
      ]
    ]

-- `expect` takes a character away.
expect-Within :
    (text : List ℕ) (c : ℕ) → Within (λ rest. suc (length rest)) (length text) (expect text c)
unfolding expect
expect-Within [] c = tt
expect-Within (d ∷ text) c = elim (Bool-cases (d == c)) [
  | inl e ↦ rw e (omega arith)
  | inr e ↦ rw e tt
]

Within-ends : {A : Type 0} (size : A → ℕ) (n : ℕ) (r : Result A) → Within size n r → r ≢ out_of_fuel
Within-ends size n (ok a) h e = cc
Within-ends size n (throw x) h e = cc
Within-ends size n undefined h e = cc
Within-ends size n out_of_fuel h e = h

module _ {E : Type 0} (relations : List OptimizerRelation) where
  emplace_base_table-Within :
      (s : Store E) (idx n : ℕ) → Within (λ r. 0) n (emplace_base_table s idx)
  unfolding emplace_base_table
  emplace_base_table-Within s idx n = elim (Option-cases (from_list (idx ∷ []))) [
    | inl e ↦ rw (Within, e) tt
    | inr (covered, e) ↦ rw (Within, e) (omega arith)
  ]

  allocate_join-Within :
      (s : Store E) (l r n : ℕ) (mode : JoinMode) → Within (λ r. 0) n (allocate_join s l r mode)
  unfolding allocate_join
  allocate_join-Within s l r n mode =
      elim (Option-cases
        (make_join (record s { plan_id_ctr = (s.plan_id_ctr + 1) % 2 ^ 64 }) l r mode)) [
          | inl e ↦ rw (Within, e) tt
          | inr (made, e) ↦ rw (Within, e) (omega arith)
        ]

  parse_table-Within :
      (s : Store E) (text : List ℕ) → Within left (length text) (parse_table relations s text)
  unfolding parse_table
  parse_table-Within s text =
      Within-bind left left (length text) (length text) (parse_uint32 text) _
        (parse_uint32-Within text)
        λ number h.
          Within-bind left left (length (skip_spaces (number.1))) (length text)
            (parse_alias (skip_spaces (number.1))) _ (parse_alias-Within (skip_spaces (number.1)))
            λ alias k.
              let shorter : length (alias.1) ≤ length text =
                omega (arith, length-skip_spaces (number.1)) in
              elim (Option-cases (find_relation relations 0 (number.0) (alias.0))) [
                | inl e ↦ rw e tt
                | inr (idx, e) ↦ rw e (
                    Within-bind (λ r. 0) left 0 (length text) (emplace_base_table s idx) _
                      (emplace_base_table-Within s idx 0) λ made z. shorter)
              ]

  -- From the second bracket on.
  right_part :
      (fuel : ℕ) (text : List ℕ) (l : Store E × ℕ) (mode : JoinMode) (t : List ℕ)
      → suc (length t) < length text
      → length text ≤ fuel
      → ((s' : Store E) (t' : List ℕ)
          → length t' < fuel
          → Within left (length t') (parse_expr fuel relations s' t'))
      → Within left (length text) (
          expect t b'(' >>= λ t3. parse_expr fuel relations (l.0) t3 >>= λ r.
          expect (r.1) b')' >>= λ t4.
          allocate_join (r.0.0) (l.1) (r.0.1) mode >>= λ made. ok (made, t4))
  right_part fuel text l mode t shorter enough ih =
      Within-bind (λ r. suc (length r)) left (length t) (length text) (expect t b'(') _
        (expect-Within t b'(')
        λ t3 h1.
          Within-bind left left (length t3) (length text) (parse_expr fuel relations (l.0) t3) _
            (ih (l.0) t3 (omega arith))
            λ r h2.
              Within-bind (λ x. suc (length x)) left (length (r.1)) (length text)
                (expect (r.1) b')') _ (expect-Within (r.1) b')')
                λ t4 h3.
                  Within-bind (λ x. 0) left 0 (length text)
                    (allocate_join (r.0.0) (l.1) (r.0.1) mode) _
                    (allocate_join-Within (r.0.0) (l.1) (r.0.1) 0 mode) λ made z. omega arith

  parse_expr-Within :
      (fuel : ℕ) (s : Store E) (text : List ℕ)
      → length text < fuel
      → Within left (length text) (parse_expr fuel relations s text)
  unfolding parse_expr
  parse_expr-Within zero s text h = elim h [ ]
  parse_expr-Within (suc fuel) s text h = elim (Bool-cases (peek text b'(')) [
    | inr e ↦ rw (Within, e) (parse_table-Within s text)
    | inl e ↦
        rw (Within, e)
          (Within-bind (λ r. suc (length r)) left (length text) (length text) (expect text b'(') _
            (expect-Within text b'(')
            λ t1 h1.
              Within-bind left left (length t1) (length text) (parse_expr fuel relations s t1) _
                (parse_expr-Within fuel s t1 (omega arith))
                λ l h2.
                  Within-bind (λ r. suc (length r)) left (length (l.1)) (length text)
                    (expect (l.1) b')') _ (expect-Within (l.1) b')')
                    λ t2 h3.
                      Within-bind left left (length t2) (length text) (parse_join_mode t2) _
                        (parse_join_mode-Within t2)
                        λ m h4.
                          right_part fuel text (l.0) (m.0) (m.1) (omega arith) (omega arith)
                            (λ s' t' k. parse_expr-Within fuel s' t' k))
  ]

  -- On every text, the recursion of FixedPlan::parseExpr ends within as many levels as the text
  -- has bytes, and one more.
  pub generate_optimal_plan_ends :
      (s : Store E) (text : List ℕ) → generate_optimal_plan relations s text ≢ out_of_fuel
  unfolding generate_optimal_plan
  generate_optimal_plan_ends s text =
      Within-ends (λ r. 0) 0 _
        (Within-bind left (λ r. 0) (length text) 0 (parse_expr (length text + 1) relations s text) _
          (parse_expr-Within (length text + 1) s text (omega arith)) λ made h. omega arith)
