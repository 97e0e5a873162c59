-- ===== src/Timestamp/Calendar.antt =====
-- The calendar arithmetic of Timestamp.cpp on `unsigned` numbers of 32 bits.
pub mod Laws
use fact_db.Prelude.{ℕ, ◌+◌, ◌-◌, ◌*◌, ◌/◌, ◌%◌, ◌^◌, ◌≤◌, ◌<◌}

abbrev pub u32 : ℕ → ℕ
u32 x = x % 2 ^ 32

-- `a - b` on `unsigned`.
abbrev pub sub_u32 : ℕ → ℕ → ℕ
sub_u32 a b = (a + 2 ^ 32 - b) % 2 ^ 32

pub record CivilDate : Type 0 where
  pub year : ℕ
  pub month : ℕ
  pub day : ℕ

pub record TimeOfDay : Type 0 where
  pub hour : ℕ
  pub minute : ℕ
  pub second : ℕ
  pub ms : ℕ

-- The final sum of `mergeJulianDay`.
unfoldable pub merge_sum : ℕ → ℕ → ℕ → ℕ
merge_sum day y m =
    sub_u32
      (u32 (sub_u32 (u32 (day + u32 (153 * m + 2) / 5 + 365 * y + y / 4)) (y / 100) + y / 400))
      32045

unfoldable pub merge_julian_day : ℕ → ℕ → ℕ → ℕ
merge_julian_day year month day =
    let a = sub_u32 14 month / 12 in
    let y = sub_u32 (u32 (year + 4800)) a in
    let m = sub_u32 (u32 (month + 12 * a)) 3 in merge_sum day y m

abbrev pub ms_per_day : ℕ
ms_per_day = 24 * 60 * 60 * 1000

unfoldable pub merge_time : ℕ → ℕ → ℕ → ℕ → ℕ
merge_time hour minute second ms =
    u32 (ms + 1000 * second + 60 * 1000 * minute + 60 * 60 * 1000 * hour)

-- The end of `splitJulianDay`, from the century `b`, the year `d` in it and the day `e` in that.
unfoldable pub split_end : ℕ → ℕ → ℕ → CivilDate
split_end b d e =
    let m = u32 (5 * e + 2) / 153 in
    record {
      day = u32 (sub_u32 e (u32 (153 * m + 2) / 5) + 1);
      month = sub_u32 (u32 (m + 3)) (12 * (m / 10));
      year = u32 (sub_u32 (u32 (100 * b + d)) 4800 + m / 10);
    }

-- From the century `b` and the day `c` in it.
unfoldable pub split_year : ℕ → ℕ → CivilDate
split_year b c =
    let d = u32 (4 * c + 3) / 1461 in let e = sub_u32 c (u32 (1461 * d) / 4) in split_end b d e

unfoldable pub split_julian_day : ℕ → CivilDate
split_julian_day jd =
    let a = u32 (jd + 32044) in
    let b = u32 (4 * a + 3) / 146097 in let c = sub_u32 a (u32 (146097 * b) / 4) in split_year b c

unfoldable pub split_time : ℕ → TimeOfDay
split_time value = record {
  ms = value % 1000;
  second = value / 1000 % 60;
  minute = value / 1000 / 60 % 60;
  hour = value / 1000 / 60 / 60 % 24;
}
