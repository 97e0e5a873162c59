-- ===== src/Timestamp/Text/Numbers.antt =====
-- Printed numbers are read back.
use fact_db.Prelude.{
  ℕ, suc, ◌+◌, ◌-◌, ◌*◌, ◌/◌, ◌%◌, ◌^◌, ◌≤◌, ◌<◌, ◌≡◌, refl, ◌∙◌, true, false, List, [], ◌∷◌, ◌++◌,
  ◌≢◌, arith, ltb, leb, ◌==◌, Bool-cases, inl, inr,
}
use fact_db.Timestamp.Text.{ok, process_from, process_number, decimal, padded, trim_end, trim_start}

pub decimal_small : (f u : ℕ) → u < 10 → decimal (suc f) u ≡ (48 + u) ∷ []
unfolding decimal
decimal_small f u h = ground arith

pub decimal_step : (f u : ℕ) → 10 ≤ u → decimal (suc f) u ≡ decimal f (u / 10) ++ (48 + u % 10) ∷ []
unfolding decimal
decimal_step f u h = ground arith

pub two_digits : (u : ℕ) → u < 100 → padded 2 u ≡ (48 + u / 10) ∷ (48 + u % 10) ∷ []
unfolding padded
two_digits u h = elim (Bool-cases (ltb u 10)) [
  | inl small ↦ rw (decimal_small 9 u (ground arith)) (ground arith)
  | inr large ↦
      rw (decimal_step 9 u (ground arith), decimal_small 8 (u / 10) (omega arith)) (ground arith)
]

pub one_digit : (u : ℕ) → u < 10 → padded 1 u ≡ (48 + u) ∷ []
unfolding padded
one_digit u h = rw (decimal_small 9 u h)

pub three_digits :
    (u : ℕ) → u < 1000 → padded 3 u ≡ (48 + u / 100) ∷ (48 + u / 10 % 10) ∷ (48 + u % 10) ∷ []
unfolding padded
three_digits u h = elim (Bool-cases (ltb u 10)) [
  | inl small ↦ rw (decimal_small 9 u (ground arith)) (ground arith)
  | inr large ↦ elim (Bool-cases (ltb u 100)) [
    | inl small ↦
        rw (decimal_step 9 u (ground arith), decimal_small 8 (u / 10) (ground arith)) (ground arith)
    | inr large' ↦
        rw
          (
            decimal_step 9 u (ground arith),
            decimal_step 8 (u / 10) (ground arith),
            decimal_small 7 (u / 10 / 10) (omega arith),
          )
          (ground arith)
  ]
]

pub four_digits :
    (u : ℕ)
    → u < 10000
    → padded 4 u ≡ (48 + u / 1000) ∷ (48 + u / 100 % 10) ∷ (48 + u / 10 % 10) ∷ (48 + u % 10) ∷ []
unfolding padded
four_digits u h = elim (Bool-cases (ltb u 10)) [
  | inl small ↦ rw (decimal_small 9 u (ground arith)) (ground arith)
  | inr large ↦ elim (Bool-cases (ltb u 100)) [
    | inl small ↦
        rw (decimal_step 9 u (ground arith), decimal_small 8 (u / 10) (ground arith)) (ground arith)
    | inr large' ↦ elim (Bool-cases (ltb u 1000)) [
      | inl small ↦
          rw
            (
              decimal_step 9 u (ground arith),
              decimal_step 8 (u / 10) (ground arith),
              decimal_small 7 (u / 10 / 10) (ground arith),
            )
            (ground arith)
      | inr large'' ↦
          rw
            (
              decimal_step 9 u (ground arith),
              decimal_step 8 (u / 10) (ground arith),
              decimal_step 7 (u / 10 / 10) (ground arith),
              decimal_small 6 (u / 10 / 10 / 10) (omega arith),
            )
            (ground arith)
    ]
  ]
]

-- One round on a digit.
pub process_digit :
    (left i m val d : ℕ) (rest : List ℕ)
    → d < 10
    → process_from (suc left) i m val ((48 + d) ∷ rest)
      ≡ process_from left (i + 1) m ((10 * val + d) % 2 ^ 64) rest
unfolding process_from
process_digit left i m val d rest h =
    let n45 : (48 + d == 45) ≡ false = ground arith in
    let low : leb 48 (48 + d) ≡ true = ground arith in
    let high : leb (48 + d) 57 ≡ true = ground arith in
    let e : 48 + d - 48 ≡ d = omega arith in rw (n45, low, high, e)

process_done : (i m val : ℕ) (rest : List ℕ) → process_from 0 i m val rest ≡ ok (val, rest)
unfolding process_from
process_done i m val rest = refl

-- A number below 100 in two digits, read with at most two.
pub process-two :
    (u : ℕ) (rest : List ℕ)
    → u < 100
    → process_number 0 ((48 + u / 10) ∷ (48 + u % 10) ∷ rest) 2 0 ≡ ok (u, rest)
unfolding process_number
process-two u rest h =
    rw
      (
        process_digit 1 0 2 0 (u / 10) ((48 + u % 10) ∷ rest) (omega arith),
        process_digit 0 (0 + 1) 2 ((10 * 0 + u / 10) % 2 ^ 64) (u % 10) rest (omega arith),
        process_done (0 + 1 + 1) 2 ((10 * ((10 * 0 + u / 10) % 2 ^ 64) + u % 10) % 2 ^ 64) rest,
      )
      (ground arith)

pub process-three :
    (u : ℕ) (rest : List ℕ)
    → u < 1000
    → process_number 0 ((48 + u / 100) ∷ (48 + u / 10 % 10) ∷ (48 + u % 10) ∷ rest) 3 0
      ≡ ok (u, rest)
unfolding process_number
process-three u rest h =
    let v1 = (10 * 0 + u / 100) % 2 ^ 64 in
    let v2 = (10 * v1 + u / 10 % 10) % 2 ^ 64 in
    let v3 = (10 * v2 + u % 10) % 2 ^ 64 in
    process_digit 2 0 3 0 (u / 100) ((48 + u / 10 % 10) ∷ (48 + u % 10) ∷ rest) (omega arith)
    ∙ process_digit 1 1 3 v1 (u / 10 % 10) ((48 + u % 10) ∷ rest) (omega arith)
    ∙ process_digit 0 2 3 v2 (u % 10) rest (omega arith)
    ∙ process_done 3 3 v3 rest
    ∙ ground arith

pub process-four :
    (u : ℕ) (rest : List ℕ)
    → u < 10000
    → process_number 0
        ((48 + u / 1000) ∷ (48 + u / 100 % 10) ∷ (48 + u / 10 % 10) ∷ (48 + u % 10) ∷ rest)
        0
        4
      ≡ ok (u, rest)
unfolding process_number
process-four u rest h =
    let v1 = (10 * 0 + u / 1000) % 2 ^ 64 in
    let v2 = (10 * v1 + u / 100 % 10) % 2 ^ 64 in
    let v3 = (10 * v2 + u / 10 % 10) % 2 ^ 64 in
    let v4 = (10 * v3 + u % 10) % 2 ^ 64 in
    process_digit 3 0 0 0 (u / 1000)
      ((48 + u / 100 % 10) ∷ (48 + u / 10 % 10) ∷ (48 + u % 10) ∷ rest) (omega arith)
    ∙ process_digit 2 1 0 v1 (u / 100 % 10) ((48 + u / 10 % 10) ∷ (48 + u % 10) ∷ rest)
        (omega arith)
    ∙ process_digit 1 2 0 v2 (u / 10 % 10) ((48 + u % 10) ∷ rest) (omega arith)
    ∙ process_digit 0 3 0 v3 (u % 10) rest (omega arith)
    ∙ process_done 4 0 v4 rest
    ∙ ground arith

wide : (u : ℕ) → 10 ≤ u → u < 100 → padded 1 u ≡ (48 + u / 10) ∷ (48 + u % 10) ∷ []
unfolding padded
wide u l h = rw (decimal_step 9 u l, decimal_small 8 (u / 10) (omega arith)) (ground arith)

-- An hour in one digit or two, before a colon.
pub process-hour :
    (u : ℕ) (rest : List ℕ)
    → u < 24
    → process_number 0 (padded 1 u ++ (b':' ∷ rest)) 1 2 ≡ ok (u, b':' ∷ rest)
unfolding process_number
process-hour u rest h = elim (Bool-cases (ltb u 10)) [
  | inl small ↦
      let e = one_digit u (ground arith) in
      rw (e, process_digit 1 0 1 0 u (b':' ∷ rest) (ground arith))
        (unfold process_from in ground arith)
  | inr large ↦
      let e : padded 1 u ≡ (48 + u / 10) ∷ (48 + u % 10) ∷ [] =
        wide u (ground arith) (omega arith) in
      let v1 = (10 * 0 + u / 10) % 2 ^ 64 in
      let v2 = (10 * v1 + u % 10) % 2 ^ 64 in
      rw e (
        process_digit 1 0 1 0 (u / 10) ((48 + u % 10) ∷ b':' ∷ rest) (omega arith)
        ∙ process_digit 0 1 1 v1 (u % 10) (b':' ∷ rest) (omega arith)
        ∙ process_done 2 1 v2 (b':' ∷ rest)
        ∙ ground arith)
]

-- Trimming leaves a text that neither begins nor ends with a blank.
trim_end_last : (xs : List ℕ) (c : ℕ) → c ≢ 32 → trim_end (xs ++ c ∷ []) ≡ xs ++ c ∷ []
unfolding trim_end
trim_end_last [] c h = ground (arith, h)
trim_end_last (x ∷ []) c h = rw (trim_end_last [] c h)
trim_end_last (x ∷ y ∷ xs) c h = rw (trim_end_last (y ∷ xs) c h)

pub trim_neither :
    (a : ℕ) (xs : List ℕ) (c : ℕ)
    → a ≢ 32
    → c ≢ 32
    → trim_end (trim_start (a ∷ xs ++ c ∷ [])) ≡ a ∷ xs ++ c ∷ []
unfolding trim_start
trim_neither a xs c ha hc =
    let e : (a == 32) ≡ false = ground (arith, ha) in rw e (trim_end_last (a ∷ xs) c hc)

-- A dash ends the number, and is consumed.
pub process_dash :
    (left i m val : ℕ) (rest : List ℕ)
    → process_from (suc left) i m val (b'-' ∷ rest) ≡ ok (val, rest)
unfolding process_from
process_dash left i m val rest = refl
