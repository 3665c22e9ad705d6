-- ===== src/Dates/Examples.antt =====
-- Runs of the date functions, and the theorems about them applied.
use blitzy_open_cobol.Base.{◌+◌, ◌-◌, ◌*◌, ◌≡◌, refl, arith, none, some, get_or, length, ◌↔◌}
use blitzy_open_cobol.Base.Int.{pos, negsuc}
use blitzy_open_cobol.Base.Digits.{value}
use blitzy_open_cobol.Field.{ExceptionId}
use blitzy_open_cobol.Dates.{
  leap_year, year_loop, month_loop, date_of_integer, day_of_integer, integer_of_date,
  integer_of_day, add_years, test_date_yyyymmdd, combined_datetime,
}
use blitzy_open_cobol.Dates.Years.{leap_years}
use blitzy_open_cobol.Dates.Months.{before_month}
use blitzy_open_cobol.Dates.RoundTrip.{
  IsDate, yyyymmdd, date_of_integer-integer_of_date, integer_of_date-date_of_integer,
}
use blitzy_open_cobol.Dates.Days.{
  integer_of_date-leap_years, test_date-integer_of_date, integer_of_day-day_of_integer,
}

first_day : value (date_of_integer (pos 1)).0 ≡ 16010101
unfolding date_of_integer year_loop month_loop leap_year
first_day = refl

last_day : value (date_of_integer (pos 3067671)).0 ≡ 99991231
unfolding date_of_integer year_loop month_loop leap_year
last_day = refl

out_of_range_days : (date_of_integer (pos 0)).1 ≡ some ExceptionId.argument_function
unfolding date_of_integer
out_of_range_days = refl

last_number : integer_of_date (pos 99991231) ≡ (3067671, none)
unfolding integer_of_date add_years leap_year
last_number = refl

no_leap_day : test_date_yyyymmdd (pos 19000229) ≡ 3
unfolding test_date_yyyymmdd leap_year
no_leap_day = refl

negative_date : integer_of_date (negsuc 20000100) ≡ (0, some ExceptionId.argument_function)
unfolding integer_of_date add_years leap_year
negative_date = refl

noon : value (combined_datetime (pos 143951) (pos 43200)).0 ≡ 14395143200
unfolding combined_datetime
noon = refl

leap_day : IsDate 2000 2 29
unfolding leap_year
leap_day = record {
  first = omega arith;
  last = omega arith;
  day_in_year = record { a_month = refl; a_day = refl; in_month = refl };
}

date_of_integer-integer_of_date_example :
    let (n, bad) = integer_of_date (pos 20000229) in
    (bad ≡ none)
    × ((date_of_integer (pos n)).1 ≡ none)
    × (value (date_of_integer (pos n)).0 ≡ 20000229)
date_of_integer-integer_of_date_example = date_of_integer-integer_of_date 2000 2 29 leap_day

integer_of_date-date_of_integer_example :
    let (digits, bad) = date_of_integer (pos 146097) in
    (bad ≡ none) × (length digits ≡ 8) × (integer_of_date (pos (value digits)) ≡ (146097, none))
integer_of_date-date_of_integer_example =
    integer_of_date-date_of_integer 146097 (omega arith) (omega arith)

integer_of_date-leap_years_example :
    let (n, bad) = integer_of_date (pos (yyyymmdd 2000 2 29)) in
    (bad ≡ none)
    × (n + 388
        ≡ 365 * (2000 - 1601)
          + leap_years (2000 - 1)
          + get_or (before_month (leap_year 2000)) (2 - 1) 0
          + 29)
integer_of_date-leap_years_example = integer_of_date-leap_years 2000 2 29 leap_day

test_date-integer_of_date_example :
    (test_date_yyyymmdd (pos 19000229) ≡ 0) ↔ ((integer_of_date (pos 19000229)).1 ≡ none)
test_date-integer_of_date_example = test_date-integer_of_date (pos 19000229)

integer_of_day-day_of_integer_example :
    let (digits, bad) = day_of_integer (pos 3067671) in
    (bad ≡ none) × (length digits ≡ 7) × (integer_of_day (pos (value digits)) ≡ (3067671, none))
integer_of_day-day_of_integer_example =
    integer_of_day-day_of_integer 3067671 (omega arith) (omega arith)
