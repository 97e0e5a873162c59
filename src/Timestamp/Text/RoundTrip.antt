-- ===== src/Timestamp/Text/RoundTrip.antt =====
-- What the printing operators write is read back.
use fact_db.Prelude.{
  ℕ, ◌+◌, ◌*◌, ◌/◌, ◌%◌, ◌^◌, ◌<◌, ◌≡◌, ◌≢◌, ◌∙◌, false, List, [], ◌∷◌, arith, ◌==◌,
}
use fact_db.Timestamp.Calendar.{merge_julian_day, merge_time, ms_per_day}
use fact_db.Timestamp.Calendar.Laws.{
  IsDate, split_julian_day-merge_julian_day, days_in_month-le, merge_julian_day_bounds,
}
use fact_db.Timestamp.Text.{
  ok, throw, expected, ◌>>=◌, Fields, no_fields, process_number, read_char, directive, read_format,
  checked, cast_timestamp_string, cast_date, date_format, print_civil, print_date,
}
use fact_db.Timestamp.Text.Numbers.{
  two_digits, four_digits, process-two, process-four, trim_neither, process_digit, process_dash,
}

abbrev civil_text : ℕ → ℕ → ℕ → List ℕ → List ℕ
civil_text y m d rest =
    (48 + y / 1000)
    ∷ (48 + y / 100 % 10)
    ∷ (48 + y / 10 % 10)
    ∷ (48 + y % 10)
    ∷ b'-'
    ∷ (48 + m / 10)
    ∷ (48 + m % 10)
    ∷ b'-'
    ∷ (48 + d / 10)
    ∷ (48 + d % 10)
    ∷ rest

print_civil-text :
    (y m d : ℕ)
    → y < 10000
    → m < 100
    → d < 100
    → print_civil (record { year = y; month = m; day = d }) ≡ civil_text y m d []
unfolding print_civil
print_civil-text y m d hy hm hd = rw (four_digits y hy, two_digits m hm, two_digits d hd)

abbrev date_fields : ℕ → ℕ → ℕ → Fields
date_fields y m d = record no_fields { year = y; month = m; day = d }

-- The directives for a date consume its text.
read_date :
    (y m d : ℕ) (rest : List ℕ)
    → y < 10000
    → m < 100
    → d < 100
    → read_format date_format no_fields (civil_text y m d rest) ≡ ok (date_fields y m d, rest)
unfolding read_format directive
read_date y m d rest hy hm hd =
    rw (process-four y _ hy) (rw (process-two m _ hm) (rw (process-two d _ hd)))

checked_date :
    (y m d : ℕ) → IsDate y m d → checked (date_fields y m d) ≡ ok (merge_julian_day y m d, 0)
unfolding checked merge_time
checked_date y m d h = ground (arith, days_in_month-le y m)

-- Reading what is printed of a date.
cast_civil :
    (y m d : ℕ)
    → IsDate y m d
    → cast_timestamp_string date_format (print_civil (record { year = y; month = m; day = d }))
      ≡ ok (merge_julian_day y m d, 0)
unfolding cast_timestamp_string
cast_civil y m d h =
    let short = days_in_month-le y m in
    rw (print_civil-text y m d (omega arith) (omega arith) (omega arith)) (
      rw
        (trim_neither (48 + y / 1000)
          ((48 + y / 100 % 10)
            ∷ (48 + y / 10 % 10)
            ∷ (48 + y % 10)
            ∷ b'-'
            ∷ (48 + m / 10)
            ∷ (48 + m % 10)
            ∷ b'-'
            ∷ (48 + d / 10)
            ∷ [])
          (48 + d % 10) (omega arith) (omega arith))
        (rw (read_date y m d [] (omega arith) (omega arith) (omega arith)) (checked_date y m d h)))

-- A stored date: the day of a date of the Gregorian calendar, at midnight.
abbrev pub stored : ℕ → ℕ → ℕ → ℕ
stored y m d = merge_julian_day y m d * ms_per_day

-- A stored date of the Gregorian calendar from the year 0 to 9999 is printed, and reading the
-- text in the date format gives the same stored value.
pub cast_date-print_date :
    (y m d : ℕ)
    → IsDate y m d
    → cast_date (print_date (stored y m d)) date_format ≡ ok (stored y m d)
unfolding cast_date print_date
cast_date-print_date y m d h =
    let (low, high) = merge_julian_day_bounds y m d h in
    let z : (stored y m d == 0) ≡ false = ground arith in
    let q : stored y m d / ms_per_day ≡ merge_julian_day y m d = omega arith in
    let back : (stored y m d + 0) % 2 ^ 64 ≡ stored y m d = omega arith in
    rw (z, q, split_julian_day-merge_julian_day y m d h, cast_civil y m d h, ◌>>=◌, back)

three_then_dash :
    (a b c : ℕ) (rest : List ℕ)
    → a < 10
    → b < 10
    → c < 10
    → process_number 0 ((48 + a) ∷ (48 + b) ∷ (48 + c) ∷ b'-' ∷ rest) 0 4
      ≡ ok ((10 * ((10 * ((10 * 0 + a) % 2 ^ 64) + b) % 2 ^ 64) + c) % 2 ^ 64, rest)
unfolding process_number
three_then_dash a b c rest ha hb hc =
    let v1 = (10 * 0 + a) % 2 ^ 64 in
    let v2 = (10 * v1 + b) % 2 ^ 64 in
    let v3 = (10 * v2 + c) % 2 ^ 64 in
    process_digit 3 0 0 0 a ((48 + b) ∷ (48 + c) ∷ b'-' ∷ rest) ha
    ∙ process_digit 2 1 0 v1 b ((48 + c) ∷ b'-' ∷ rest) hb
    ∙ process_digit 1 2 0 v2 c (b'-' ∷ rest) hc
    ∙ process_dash 0 3 0 v3 rest

-- A year of three digits before its dash is refused, unless a second dash follows: the dash is
-- taken as part of the number, and the dash of the format then meets what follows.
pub short_year :
    (a b c x : ℕ) (rest : List ℕ)
    → a < 10
    → b < 10
    → c < 10
    → x ≢ b'-'
    → read_format date_format no_fields ((48 + a) ∷ (48 + b) ∷ (48 + c) ∷ b'-' ∷ x ∷ rest)
      ≡ throw (expected b'-' x)
unfolding read_format directive read_char
short_year a b c x rest ha hb hc hx =
    let other : (x == b'-') ≡ false = ground (arith, hx) in
    rw (three_then_dash a b c (x ∷ rest) ha hb hc, other)
