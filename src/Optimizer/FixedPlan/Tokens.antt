-- ===== src/Optimizer/FixedPlan/Tokens.antt =====
-- The tokens of a plan's text are read as they are printed.
use fact_db.Prelude.{
  ℕ, zero, suc, ◌+◌, ◌-◌, ◌*◌, ◌/◌, ◌%◌, ◌^◌, ◌<◌, ◌≡◌, refl, sym, ap, ◌∙◌, Bool, true, false, ◌&&◌,
  some, List, [], ◌∷◌, ◌++◌, ltb, leb, ◌==◌, some_injective, ==_iff, length, get_elem?, All,
  Bool-cases, inl, inr, arith,
}
use mathlib.Core.List.{append_assoc}
use native.Mathlib.Nat.{pow-suc}
use fact_db.Timestamp.Text.{decimal}
use fact_db.Timestamp.Text.Numbers.{decimal_small, decimal_step}
use fact_db.Optimizer.FixedPlan.{
  ok, OptimizerRelation, is_space, is_digit, is_alias_char, skip_spaces, peek, digits_loop,
  parse_uint32, alias_loop, parse_alias, text_eq, find_relation,
}

-- No character of a number or of an alias follows.
abbrev pub Stops : List ℕ → Type 0
Stops [] = Unit {0}
Stops (c ∷ text) = is_alias_char c ≡ false

digit_here :
    (val d : ℕ) (has : Bool) (tail : List ℕ)
    → d < 10
    → digits_loop val has ((48 + d) ∷ tail) ≡ digits_loop ((val * 10 + d) % 2 ^ 32) true tail
unfolding digits_loop is_digit
digit_here val d has tail h =
    let low : leb 48 (48 + d) ≡ true = ground arith in
    let high : leb (48 + d) 57 ≡ true = ground arith in
    let e : 48 + d - 48 ≡ d = omega arith in rw (low, high, e)

more_fuel : (f u : ℕ) → ltb u 10 ≡ false → u < 10 ^ suc f → 0 < f
more_fuel zero u large h = absurd (ground (arith, large, h))
more_fuel (suc f) u large h = omega arith

-- The digits of a number give its value modulo 2^32.
digits_loop-decimal :
    (f u : ℕ) (tail : List ℕ)
    → 0 < f
    → u < 10 ^ f
    → digits_loop 0 false (decimal f u ++ tail) ≡ digits_loop (u % 2 ^ 32) true tail
digits_loop-decimal zero u tail pos h = elim pos [ ]
digits_loop-decimal (suc f) u tail pos h = elim (Bool-cases (ltb u 10)) [
  | inl small ↦
      rw (decimal_small f u (ground arith))
        (digit_here 0 u false tail (ground arith) ∙ ap (λ n. digits_loop n true tail) (omega arith))
  | inr large ↦
      let tens : u / 10 < 10 ^ f = omega (arith, pow-suc 10 f) in
      let front =
        digits_loop-decimal f (u / 10) ((48 + u % 10) ∷ tail) (more_fuel f u large h) tens in
      rw (decimal_step f u (ground (arith, large))) (
        ap (digits_loop 0 false) (append_assoc (decimal f (u / 10)) ((48 + u % 10) ∷ []) tail)
        ∙ front
        ∙ digit_here (u / 10 % 2 ^ 32) (u % 10) true tail (omega arith)
        ∙ ap (λ n. digits_loop n true tail) (omega arith))
]

skip_spaces-stop : (c : ℕ) (text : List ℕ) → is_space c ≡ false → skip_spaces (c ∷ text) ≡ c ∷ text
unfolding skip_spaces
skip_spaces-stop c text h = rw h refl

alias_loop-append :
    (alias rest : List ℕ)
    → All (λ c. is_alias_char c ≡ true) alias
    → Stops rest
    → alias_loop (alias ++ rest) ≡ (alias, rest)
unfolding alias_loop
alias_loop-append [] [] all stops = refl
alias_loop-append [] (c ∷ rest) all stops = rw stops refl
alias_loop-append (c ∷ alias) rest (here, more) stops =
    rw (alias_loop-append alias rest more stops) (rw here refl)

text_eq_self : (s : List ℕ) → text_eq s s ≡ true
unfolding text_eq
text_eq_self [] = refl
text_eq_self (c ∷ s) = ground (arith, text_eq_self s)

pub text_eq_to : (s t : List ℕ) → text_eq s t ≡ true → s ≡ t
unfolding text_eq
text_eq_to [] [] h = refl
text_eq_to [] (d ∷ t) h = absurd (cc)
text_eq_to (c ∷ s) [] h = absurd (cc)
text_eq_to (c ∷ s) (d ∷ t) h = elim (Bool-cases (text_eq s t)) [
  | inl e ↦ ground (arith, text_eq_to s t e)
  | inr ne ↦ absurd (ground (arith, ne))
]

relation_of_test :
    (a b : OptimizerRelation)
    → ((a.relation == b.relation) && text_eq a.alias b.alias) ≡ true
    → a.relation ≡ b.relation
relation_of_test a b h = ground arith

alias_of_test :
    (a b : OptimizerRelation)
    → ((a.relation == b.relation) && text_eq a.alias b.alias) ≡ true
    → a.alias ≡ b.alias
alias_of_test a b h = text_eq_to a.alias b.alias (ground arith)

suc_injective : {m n : ℕ} → suc m ≡ suc n → m ≡ n
suc_injective h = omega arith

-- The loop finds an entry that no earlier one looks like.
pub find_relation-at :
    (relations : List OptimizerRelation) (from i : ℕ) (rel : OptimizerRelation)
    → get_elem? relations i ≡ some rel
    → ((j : ℕ) (other : OptimizerRelation)
        → get_elem? relations j ≡ some other
        → other.relation ≡ rel.relation
        → other.alias ≡ rel.alias
        → i ≡ j)
    → find_relation relations from rel.relation rel.alias ≡ some (from + i)
unfolding find_relation
find_relation-at [] from i rel at distinct = absurd (cc)
find_relation-at (tbl ∷ relations) from zero rel at distinct =
    let same : tbl ≡ rel = some_injective at in
    let number : (tbl.relation == rel.relation) ≡ true =
      (==_iff tbl.relation rel.relation).1 (ap (λ (t : OptimizerRelation). t.relation) same) in
    let name : text_eq tbl.alias rel.alias ≡ true =
      ap (λ (t : OptimizerRelation). text_eq t.alias rel.alias) same ∙ text_eq_self rel.alias in
    rw number (rw name (ap some (omega arith)))
find_relation-at (tbl ∷ relations) from (suc i) rel at distinct =
    let rest =
      find_relation-at relations (from + 1) i rel at
        (λ j other at' e e'. suc_injective (distinct (suc j) other at' e e')) in
    elim (Bool-cases ((tbl.relation == rel.relation) && text_eq tbl.alias rel.alias)) [
      | inl found ↦ absurd (
          ground (
            arith,
            distinct 0 tbl refl (relation_of_test tbl rel found) (alias_of_test tbl rel found),
          ))
      | inr other ↦ rw other (rest ∙ ap some (omega arith))
    ]

digit_of_alias : (c : ℕ) → is_alias_char c ≡ false → is_digit c ≡ false
unfolding is_alias_char
digit_of_alias c h = ground arith

space_of_alias : (c : ℕ) → is_alias_char c ≡ true → is_space c ≡ false
unfolding is_alias_char is_space is_digit
space_of_alias c h = ground arith

digits_stop :
    (val : ℕ) (has : Bool) (text : List ℕ)
    → Stops text
    → digits_loop val has text ≡ ((val, has), text)
unfolding digits_loop is_alias_char
digits_stop val has [] h = refl
digits_stop val has (c ∷ text) h = rw (digit_of_alias c h) refl

-- A printed number starts with a digit.
decimal_head :
    (f u : ℕ) → 0 < f → (d : ℕ) × (text : List ℕ) × (decimal f u ≡ (48 + d) ∷ text) × (d < 10)
unfolding decimal
decimal_head zero u h = elim h [ ]
decimal_head (suc zero) u h = elim (Bool-cases (ltb u 10)) [
  | inl small ↦ (u, [], decimal_small 0 u (ground arith), ground arith)
  | inr large ↦ (u % 10, [], rw (decimal_step 0 u (ground (arith, large)), decimal), omega arith)
]
decimal_head (suc (suc f)) u h = elim (Bool-cases (ltb u 10)) [
  | inl small ↦ (u, [], decimal_small (suc f) u (ground arith), ground arith)
  | inr large ↦
      let (d, text, starts, lt) = decimal_head (suc f) (u / 10) (omega arith) in
      (
        d,
        text ++ (48 + u % 10) ∷ [],
        rw (decimal_step (suc f) u (ground (arith, large)), starts),
        lt,
      )
]

space_of_digit : (d : ℕ) → d < 10 → is_space (48 + d) ≡ false
unfolding is_space
space_of_digit d h = ground arith

pub parse_uint32-decimal :
    (u : ℕ) (rest : List ℕ)
    → u < 2 ^ 32
    → Stops rest
    → parse_uint32 (decimal 10 u ++ rest) ≡ ok (u, rest)
unfolding parse_uint32
parse_uint32-decimal u rest h stops =
    let (d, text, starts, small) = decimal_head 10 u (omega arith) in
    let numeral : decimal 10 u ++ rest ≡ (48 + d) ∷ (text ++ rest) = ap (λ t. t ++ rest) starts in
    let skipped : skip_spaces (decimal 10 u ++ rest) ≡ decimal 10 u ++ rest =
      ap skip_spaces numeral
      ∙ skip_spaces-stop (48 + d) (text ++ rest) (space_of_digit d small)
      ∙ sym numeral in
    let read : digits_loop 0 false (skip_spaces (decimal 10 u ++ rest)) ≡ ((u, true), rest) =
      ap (digits_loop 0 false) skipped
      ∙ digits_loop-decimal 10 u rest (omega arith) (omega arith)
      ∙ digits_stop (u % 2 ^ 32) true rest stops
      ∙ ap (λ n. ((n, true), rest)) (omega arith) in
    rw read refl

pub parse_alias-append :
    (alias rest : List ℕ)
    → 0 < length alias
    → All (λ c. is_alias_char c ≡ true) alias
    → Stops rest
    → parse_alias (alias ++ rest) ≡ ok (alias, rest)
unfolding parse_alias
parse_alias-append [] rest pos all stops = elim pos [ ]
parse_alias-append (c ∷ alias) rest pos (here, more) stops =
    rw (skip_spaces-stop c (alias ++ rest) (space_of_alias c here))
      (rw (alias_loop-append (c ∷ alias) rest (here, more) stops) (ground arith))

-- The space between the number and the alias.
pub skip_spaces-alias :
    (alias rest : List ℕ)
    → 0 < length alias
    → All (λ c. is_alias_char c ≡ true) alias
    → skip_spaces (32 ∷ (alias ++ rest)) ≡ alias ++ rest
unfolding skip_spaces is_space
skip_spaces-alias [] rest pos all = elim pos [ ]
skip_spaces-alias (c ∷ alias) rest pos (here, more) =
    skip_spaces-stop c (alias ++ rest) (space_of_alias c here)

pub peek-decimal : (u : ℕ) (rest : List ℕ) → peek (decimal 10 u ++ rest) b'(' ≡ false
unfolding peek
peek-decimal u rest =
    let (d, text, starts, small) = decimal_head 10 u (omega arith) in
    rw starts (ground (arith, small))
