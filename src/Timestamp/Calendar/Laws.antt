-- ===== src/Timestamp/Calendar/Laws.antt =====
-- The round trips of the calendar arithmetic.
use fact_db.Prelude.{
  ◌≢◌, ◌⊎◌, inl, inr, ℕ, ◌+◌, ◌-◌, ◌*◌, ◌/◌, ◌%◌, ◌^◌, ◌≤◌, ◌<◌, ◌≡◌, ◌∙◌, arith, leb, ℕ_discrete,
  ◌==◌, ◌&&◌, ◌||◌, not, Bool, true, if◌then◌else◌,
}
use native.Mathlib.Decide.{dec_le}
use fact_db.Timestamp.Calendar.{
  sub_u32, u32, merge_sum, merge_julian_day, split_end, split_year, split_julian_day, merge_time,
  split_time,
}

-- splitTime undoes mergeTime on every time of the day.
pub split_time-merge_time :
    (hour minute second ms : ℕ)
    → hour < 24
    → minute < 60
    → second < 60
    → ms < 1000
    → split_time (merge_time hour minute second ms)
      ≡ record { hour = hour; minute = minute; second = second; ms = ms }
unfolding merge_time split_time
split_time-merge_time hour minute second ms h1 h2 h3 h4 = ground arith

-- The Gregorian calendar.
abbrev pub is_leap : ℕ → Bool
is_leap year = (year % 4 == 0) && (not (year % 100 == 0) || (year % 400 == 0))

abbrev pub days_in_month : ℕ → ℕ → ℕ
days_in_month year month =
    if month == 2
    then (if is_leap year then 29 else 28)
    else if (month == 4) || (month == 6) || (month == 9) || (month == 11)
    then 30
    else 31

pub record IsDate (year month day : ℕ) : Type 0 where
  pub year_range : year ≤ 9999
  pub month_low : 1 ≤ month
  pub month_high : month ≤ 12
  pub day_low : 1 ≤ day
  pub day_high : day ≤ days_in_month year month

-- Years that begin in March: the year, the month and the day of the year, all from 0.
abbrev shifted_year : ℕ → ℕ → ℕ
shifted_year year month = if leb month 2 then year + 4799 else year + 4800

abbrev shifted_month : ℕ → ℕ
shifted_month month = if leb month 2 then month + 9 else month - 3

abbrev day_number : ℕ → ℕ → ℕ
day_number y e = e + 365 * y + y / 4 - y / 100 + y / 400

merge_sum_lem :
    (day y m : ℕ)
    → 1 ≤ day
    → day ≤ 31
    → 4799 ≤ y
    → y ≤ 14799
    → m ≤ 11
    → merge_sum day y m + 32045 ≡ day_number y (day + (153 * m + 2) / 5)
unfolding merge_sum
merge_sum_lem day y m h1 h2 h3 h4 h5 = omega arith

pub days_in_month-le : (year month : ℕ) → days_in_month year month ≤ 31
days_in_month-le year month = ground arith

january_february :
    (month : ℕ) → 1 ≤ month → month ≤ 12 → sub_u32 14 month / 12 ≡ (if leb month 2 then 1 else 0)
january_february month h k = ground arith

merge_shifted :
    (year month day : ℕ)
    → IsDate year month day
    → merge_julian_day year month day
      ≡ merge_sum day (shifted_year year month) (shifted_month month)
unfolding merge_julian_day
merge_shifted year month day h =
    let a : sub_u32 14 month / 12 ≡ (if leb month 2 then 1 else 0) =
      january_february month h.month_low h.month_high in
    let ey : sub_u32 (u32 (year + 4800)) (if leb month 2 then 1 else 0) ≡ shifted_year year month =
      ground arith in
    let em : sub_u32 (u32 (month + 12 * (if leb month 2 then 1 else 0))) 3 ≡ shifted_month month =
      ground arith in
    rw (a, ey, em)

-- A day 365 exists only in a year before a leap day.
abbrev IsDayOf : ℕ → ℕ → Type 0
IsDayOf y e = (e ≤ 364) ⊎ ((e ≡ 365) × (y % 4 ≡ 3) × ((y % 100 ≢ 99) ⊎ (y % 400 ≡ 399)))

-- The steps of `splitJulianDay` on a day number.
split_century : (y e : ℕ) → IsDayOf y e → (4 * day_number y e + 3) / 146097 ≡ y / 100
split_century y e (inl h) = omega arith
split_century y e (inr (h, l, inl k)) = omega arith
split_century y e (inr (h, l, inr k)) = omega arith

split_day_of_century :
    (y e : ℕ) → day_number y e - 146097 * (y / 100) / 4 ≡ 365 * (y % 100) + y % 100 / 4 + e
split_day_of_century y e = omega arith

split_year_of_century :
    (r e : ℕ)
    → r < 100
    → (e ≤ 364) ⊎ ((e ≡ 365) × (r % 4 ≡ 3))
    → (4 * (365 * r + r / 4 + e) + 3) / 1461 ≡ r
split_year_of_century r e h (inl k) = omega arith
split_year_of_century r e h (inr (k, l)) = omega arith

IsDayOf-year : (y e : ℕ) → IsDayOf y e → (e ≤ 364) ⊎ ((e ≡ 365) × (y % 100 % 4 ≡ 3))
IsDayOf-year y e (inl h) = inl h
IsDayOf-year y e (inr (h, l, k)) = inr (h, omega arith)

day_number-lt : (y e : ℕ) → y ≤ 14799 → e ≤ 365 → 4 * day_number y e + 3 < 2 ^ 32
day_number-lt y e h k = omega arith

IsDayOf-le : (y e : ℕ) → IsDayOf y e → e ≤ 365
IsDayOf-le y e (inl h) = omega arith
IsDayOf-le y e (inr (h, l, k)) = omega arith

-- On a day number `splitJulianDay` finds the century, the year in it and the day in that.
split_day_number :
    (jd y e : ℕ)
    → y ≤ 14799
    → IsDayOf y e
    → jd + 32044 ≡ day_number y e
    → split_julian_day jd ≡ split_end (y / 100) (y % 100) e
unfolding split_julian_day split_year
split_day_number jd y e hy he h =
    let le = IsDayOf-le y e he in
    let small = day_number-lt y e hy le in
    let ea : u32 (jd + 32044) ≡ day_number y e = omega arith in
    let eb : u32 (4 * day_number y e + 3) / 146097 ≡ y / 100 =
      omega (arith, split_century y e he) in
    let ec : sub_u32 (day_number y e) (u32 (146097 * (y / 100)) / 4)
        ≡ 365 * (y % 100) + y % 100 / 4 + e =
      omega (arith, split_day_of_century y e) in
    let ed : u32 (4 * (365 * (y % 100) + y % 100 / 4 + e) + 3) / 1461 ≡ y % 100 =
      omega (arith, split_year_of_century (y % 100) e (omega arith) (IsDayOf-year y e he)) in
    let ee : sub_u32 (365 * (y % 100) + y % 100 / 4 + e) (u32 (1461 * (y % 100)) / 4) ≡ e =
      omega arith in
    rw (ea, eb, ec, ed, ee)

-- The day within the shifted year, and that it is one.
abbrev day_of_year : ℕ → ℕ → ℕ
day_of_year month day = day + (153 * shifted_month month + 2) / 5 - 1

day_of_year-IsDayOf :
    (year month day : ℕ)
    → IsDate year month day
    → IsDayOf (shifted_year year month) (day_of_year month day)
day_of_year-IsDayOf year month day h = elim (dec_le (day_of_year month day) 364) [
  | yes early ↦ inl early
  | no late ↦
      let february : month ≡ 2 = ground arith in
      let last : day ≡ 29 = ground arith in
      let leap : is_leap year ≡ true = ground arith in
      inr (
        ground arith,
        ground arith,
        elim (ℕ_discrete (year % 400) 0) [
          | yes c ↦ inr (ground arith)
          | no n ↦ inl (λ c. ground arith)
        ],
      )
]

-- A month ends where the next begins.
month_of_day :
    (year month day : ℕ)
    → IsDate year month day
    → u32 (5 * day_of_year month day + 2) / 153 ≡ shifted_month month
month_of_day year month day h = ground arith

split_end_lem :
    (year month day : ℕ)
    → IsDate year month day
    → split_end
        (shifted_year year month / 100)
        (shifted_year year month % 100)
        (day_of_year month day)
      ≡ record { year = year; month = month; day = day }
unfolding split_end
split_end_lem year month day h =
    let short = days_in_month-le year month in
    let em : u32 (5 * day_of_year month day + 2) / 153 ≡ shifted_month month =
      month_of_day year month day h in
    rw em (ground arith)

sum :
    (year month day : ℕ)
    → IsDate year month day
    → merge_julian_day year month day + 32044
      ≡ day_number (shifted_year year month) (day_of_year month day)
sum year month day h =
    let short = days_in_month-le year month in
    ground (
      arith,
      merge_shifted year month day h,
      merge_sum_lem day (shifted_year year month) (shifted_month month),
    )

-- splitJulianDay undoes mergeJulianDay on every date of the Gregorian calendar from the year 0
-- to the year 9999, on 32 bit unsigned numbers.
pub split_julian_day-merge_julian_day :
    (year month day : ℕ)
    → IsDate year month day
    → split_julian_day (merge_julian_day year month day)
      ≡ record { year = year; month = month; day = day }
split_julian_day-merge_julian_day year month day h =
    split_day_number (merge_julian_day year month day) (shifted_year year month)
      (day_of_year month day) (ground arith) (day_of_year-IsDayOf year month day h)
      (sum year month day h)
    ∙ split_end_lem year month day h

pub merge_julian_day_bounds :
    (year month day : ℕ)
    → IsDate year month day
    → (0 < merge_julian_day year month day) × (merge_julian_day year month day < 2 ^ 24)
merge_julian_day_bounds year month day h =
    let e = sum year month day h in
    let le =
      IsDayOf-le (shifted_year year month) (day_of_year month day)
        (day_of_year-IsDayOf year month day h) in
    (ground arith, ground arith)
