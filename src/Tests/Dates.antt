-- ===== src/Tests/Dates.antt =====
-- Timestamp.cpp at concrete dates.
use fact_db.Prelude.{◌≡◌, ◌+◌, refl, [], ◌∷◌, arith}
use fact_db.Timestamp.Calendar.{
  merge_julian_day, merge_sum, split_julian_day, split_year, split_end, merge_time, split_time,
}
use fact_db.Timestamp.Calendar.Laws.{
  IsDate, split_julian_day-merge_julian_day, split_time-merge_time,
}
use fact_db.Timestamp.Text.{
  ok, throw, expected, no_fields, read_format, cast_timestamp_string, cast_timestamp, cast_date,
  date_format, timestamp_format, print_civil, print_time, print_date, print_timestamp,
}
use fact_db.Timestamp.Text.RoundTrip.{stored, cast_date-print_date, short_year}

program : Unit {0}
unfolding merge_julian_day merge_sum split_julian_day split_year split_end merge_time split_time
    cast_timestamp_string cast_timestamp cast_date print_civil print_time print_date print_timestamp
program = tt

-- The 29th of February 2024.
leap_day-IsDate : IsDate 2024 2 29
leap_day-IsDate = omega arith

julian_day_runs : merge_julian_day 2024 2 29 ≡ 2460370
unfolding program
julian_day_runs = refl

cast_runs :
    cast_timestamp
      (b'2' ∷ b'0' ∷ b'2' ∷ b'4' ∷ b'-' ∷ b'0' ∷ b'2' ∷ b'-' ∷ b'2' ∷ b'9' ∷ 32 ∷ b'7' ∷ b':' ∷ b'0'
        ∷ b'5' ∷ b':' ∷ b'5' ∷ b'9' ∷ b'.' ∷ b'0' ∷ b'4' ∷ b'2' ∷ [])
      timestamp_format
    ≡ ok 212575993559042
unfolding program
cast_runs = refl

-- Null is printed as `NULL`, and then as the day 0 with a year that wraps.
null_runs :
    print_date 0
    ≡ b'N' ∷ b'U' ∷ b'L' ∷ b'L' ∷ b'4' ∷ b'2' ∷ b'9' ∷ b'4' ∷ b'9' ∷ b'6' ∷ b'2' ∷ b'5' ∷ b'8'
      ∷ b'3' ∷ b'-' ∷ b'1' ∷ b'1' ∷ b'-' ∷ b'2' ∷ b'4' ∷ []
unfolding program
null_runs = refl

split_julian_day-merge_julian_day_example :
    split_julian_day (merge_julian_day 2024 2 29) ≡ record { year = 2024; month = 2; day = 29 }
split_julian_day-merge_julian_day_example =
    split_julian_day-merge_julian_day 2024 2 29 leap_day-IsDate

split_time-merge_time_example :
    split_time (merge_time 23 59 58 999) ≡ record { hour = 23; minute = 59; second = 58; ms = 999 }
split_time-merge_time_example =
    split_time-merge_time 23 59 58 999 (omega arith) (omega arith) (omega arith) (omega arith)

cast_date-print_date_example :
    cast_date (print_date (stored 2024 2 29)) date_format ≡ ok (stored 2024 2 29)
cast_date-print_date_example = cast_date-print_date 2024 2 29 leap_day-IsDate

short_year_example :
    read_format date_format no_fields ((48 + 7) ∷ (48 + 9) ∷ (48 + 4) ∷ b'-' ∷ b'0' ∷ b'6' ∷ [])
    ≡ throw (expected b'-' b'0')
short_year_example =
    short_year 7 9 4 b'0' (b'6' ∷ []) (omega arith) (omega arith) (omega arith) (omega arith)
