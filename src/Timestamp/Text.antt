-- ===== src/Timestamp/Text.antt =====
-- The text side of Timestamp.cpp: `castTimestampString` and what it calls, `castString` and the
-- printing operators. Text is the list of its bytes; the iterators are the bytes still to read.
pub mod Numbers
pub mod RoundTrip
use fact_db.Prelude.{
  ℕ, zero, suc, ◌+◌, ◌-◌, ◌*◌, ◌/◌, ◌%◌, ◌^◌, ◌≤◌, ◌<◌, max, Bool, true, false, not, ◌&&◌, ◌||◌,
  List, [], ◌∷◌, ◌++◌, ltb, leb, ◌==◌, if◌then◌else◌, length, replicate,
}
use fact_db.Timestamp.Calendar.{
  CivilDate, TimeOfDay, merge_julian_day, merge_time, split_julian_day, split_time, ms_per_day,
}

-- The exceptions, with what their messages show.
pub data Error : Type 0 where
  unexpected_end string_too_short invalid_format not_implemented out_of_range : Error
  invalid_timestamp date_with_time : Error
  expected : ℕ → ℕ → Error
  invalid_character : ℕ → Error

pub data Result {ℓ} (A : Type ℓ) : Type ℓ where
  ok : A → Result A
  throw : Error → Result A

infixl 5 ◌>>=◌
abbrev pub ◌>>=◌ {ℓ κ} : {A : Type ℓ} {B : Type κ} → Result A → (A → Result B) → Result B
ok a >>= f = f a
throw e >>= f = throw e

unfoldable pub read_char : List ℕ → ℕ → Result (List ℕ)
read_char [] should = throw unexpected_end
read_char (c ∷ iter) should = if c == should then ok iter else throw (expected should c)

-- The loop at index `i`, with `left` rounds to go; `val` is a `size_t`.
unfoldable pub process_from : ℕ → ℕ → ℕ → ℕ → List ℕ → Result (ℕ × List ℕ)
process_from zero i digits_min val iter = ok (val, iter)
process_from (suc left) i digits_min val [] = throw string_too_short
process_from (suc left) i digits_min val (c ∷ iter) =
    let rest = process_from left (i + 1) digits_min ((10 * val + (c - 48)) % 2 ^ 64) iter in
    if c == 45
    then ok (val, iter)
    else if leb 48 c && leb c 57
    then rest
    else if leb digits_min i
    then ok (val, c ∷ iter)
    else throw (invalid_character c)

unfoldable pub process_number : ℕ → List ℕ → ℕ → ℕ → Result (ℕ × List ℕ)
unfolding process_from
process_number val iter digits_min digits_max =
    process_from (max digits_min digits_max) 0 digits_min val iter

-- The local variables.
pub record Fields : Type 0 where
  pub year : ℕ
  pub month : ℕ
  pub day : ℕ
  pub hour : ℕ
  pub minute : ℕ
  pub second : ℕ
  pub milliseconds : ℕ
  pub timezone : ℕ

abbrev pub no_fields : Fields
no_fields = record {
  year = 0;
  month = 0;
  day = 0;
  hour = 0;
  minute = 0;
  second = 0;
  milliseconds = 0;
  timezone = 0;
}

-- `%S` reads the milliseconds too if a point follows.
unfoldable pub process_point : Fields → List ℕ → Result (Fields × List ℕ)
unfolding process_number
process_point g [] = ok (g, [])
process_point g (c ∷ rest) =
    if c == 46
    then (process_number g.milliseconds rest 3 0 >>= λ r. ok (record g { milliseconds = r.0 }, r.1))
    else ok (g, c ∷ rest)

-- The `switch` on the character after a percent sign.
unfoldable pub directive : ℕ → Fields → List ℕ → Result (Fields × List ℕ)
unfolding read_char process_number process_point
directive g f iter =
    if g == 0
    then throw invalid_format
    else if g == b'%'
    then (read_char iter b'%' >>= λ r. ok (f, r))
    else if g == b'Y'
    then (process_number f.year iter 0 4 >>= λ r. ok (record f { year = r.0 }, r.1))
    else if g == b'm'
    then (process_number f.month iter 2 0 >>= λ r. ok (record f { month = r.0 }, r.1))
    else if g == b'd'
    then (process_number f.day iter 2 0 >>= λ r. ok (record f { day = r.0 }, r.1))
    else if g == b'H'
    then (process_number f.hour iter 1 2 >>= λ r. ok (record f { hour = r.0 }, r.1))
    else if g == b'M'
    then (process_number f.minute iter 2 0 >>= λ r. ok (record f { minute = r.0 }, r.1))
    else if g == b'S'
    then (process_number f.second iter 2 0 >>= λ r. process_point (record f { second = r.0 }) r.1)
    else if g == b'Z'
    then (process_number f.timezone iter 2 0 >>= λ r. ok (record f { timezone = r.0 }, r.1))
    else throw not_implemented

-- The loop over the format.
unfoldable pub read_format : List ℕ → Fields → List ℕ → Result (Fields × List ℕ)
unfolding directive read_char
read_format [] f iter = ok (f, iter)
read_format (c ∷ []) f iter =
    if c == b'%' then throw invalid_format else (read_char iter c >>= λ rest. ok (f, rest))
read_format (c ∷ g ∷ format) f iter =
    let special = directive g f iter >>= λ r. read_format format r.0 r.1 in
    let plain = read_char iter c >>= λ rest. read_format (g ∷ format) f rest in
    if c == b'%' then special else plain

unfoldable pub trim_start : List ℕ → List ℕ
trim_start [] = []
trim_start (c ∷ cs) = if c == 32 then trim_start cs else c ∷ cs

end_of : ℕ → List ℕ → List ℕ
end_of c [] = if c == 32 then [] else c ∷ []
end_of c (d ∷ cs) = c ∷ d ∷ cs

unfoldable pub trim_end : List ℕ → List ℕ
unfolding end_of
trim_end [] = []
trim_end (c ∷ cs) = end_of c (trim_end cs)

-- The range checks and the two results.
unfoldable pub checked : Fields → Result (ℕ × ℕ)
checked f =
    if ltb 9999 f.year || ltb f.month 1 || ltb 12 f.month || ltb f.day 1 || ltb 31 f.day
    then throw out_of_range
    else if leb 24 f.hour || leb 60 f.minute || leb 60 f.second || leb 1000 f.milliseconds
    then throw invalid_timestamp
    else ok
        (merge_julian_day f.year f.month f.day, merge_time f.hour f.minute f.second f.milliseconds)

unfoldable pub cast_timestamp_string : List ℕ → List ℕ → Result (ℕ × ℕ)
unfolding read_format trim_start trim_end checked
cast_timestamp_string format str =
    read_format format no_fields (trim_end (trim_start str)) >>= λ r. checked r.0

abbrev pub date_format : List ℕ
date_format = b'%' ∷ b'Y' ∷ b'-' ∷ b'%' ∷ b'm' ∷ b'-' ∷ b'%' ∷ b'd' ∷ []

abbrev pub timestamp_format : List ℕ
timestamp_format =
    b'%' ∷ b'Y' ∷ b'-' ∷ b'%' ∷ b'm' ∷ b'-' ∷ b'%' ∷ b'd' ∷ 32 ∷ b'%' ∷ b'H' ∷ b':' ∷ b'%' ∷ b'M'
    ∷ b':' ∷ b'%' ∷ b'S' ∷ []

-- `Timestamp::castString` with a format. The overload without one reads the date format.
unfoldable pub cast_timestamp : List ℕ → List ℕ → Result ℕ
cast_timestamp str format =
    cast_timestamp_string format str >>= λ r. ok ((r.0 * ms_per_day + r.1) % 2 ^ 64)

-- `Date::castString`: a time other than midnight is refused.
unfoldable pub cast_date : List ℕ → List ℕ → Result ℕ
cast_date str format = cast_timestamp_string format str >>= λ r.
    if r.1 == 0 then ok ((r.0 * ms_per_day + r.1) % 2 ^ 64) else throw date_with_time

-- `%u`, and `%02u` and its like, of a 32 bit number, which has ten digits at most.
unfoldable pub decimal : ℕ → ℕ → List ℕ
decimal zero u = []
decimal (suc fuel) u =
    let front = decimal fuel (u / 10) in
    if ltb u 10 then (48 + u) ∷ [] else front ++ (48 + u % 10) ∷ []

unfoldable pub padded : ℕ → ℕ → List ℕ
unfolding decimal
padded width u = let ds = decimal 10 u in replicate (width - length ds) 48 ++ ds

unfoldable pub print_civil : CivilDate → List ℕ
unfolding padded
print_civil d = padded 4 d.year ++ (b'-' ∷ padded 2 d.month) ++ (b'-' ∷ padded 2 d.day)

unfoldable pub print_time : TimeOfDay → List ℕ
unfolding padded
print_time t =
    let seconds = padded 1 t.hour ++ (b':' ∷ padded 2 t.minute) ++ (b':' ∷ padded 2 t.second) in
    if t.ms == 0 then seconds else seconds ++ (b'.' ∷ padded 3 t.ms)

abbrev null_text : List ℕ
null_text = b'N' ∷ b'U' ∷ b'L' ∷ b'L' ∷ []

-- `operator<<`: after the text for null the date is printed as well.
unfoldable pub print_date : ℕ → List ℕ
print_date value =
    (if value == 0 then null_text else []) ++ print_civil (split_julian_day (value / ms_per_day))

unfoldable pub print_timestamp : ℕ → List ℕ
print_timestamp value =
    (if value == 0 then null_text else [])
    ++ print_civil (split_julian_day (value / ms_per_day))
    ++ (32 ∷ print_time (split_time (value % ms_per_day)))
