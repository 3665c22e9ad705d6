-- ===== src/Dates.antt =====
-- The date functions of libcob/intrinsic.c: DATE-OF-INTEGER, DAY-OF-INTEGER, INTEGER-OF-DATE,
-- INTEGER-OF-DAY, TEST-DATE-YYYYMMDD, TEST-DAY-YYYYDDD and COMBINED-DATETIME. The argument is the
-- number that `cob_get_int` reads; the result is the bytes of the DISPLAY result or the number that
-- `cob_set_int` stores, with the exception that is set.
pub mod Years
pub mod Months
pub mod RoundTrip
pub mod Days
mod Examples
use blitzy_open_cobol.Base.{
  ℕ, zero, suc, ◌+◌, ◌-◌, ◌/◌, ◌%◌, Bool, true, false, not, ◌&&◌, ◌||◌, Option, none, some, List,
  [], ◌∷◌, ◌++◌, ltb, leb, ◌==◌, if◌then◌else◌, get_or, replicate,
}
use blitzy_open_cobol.Base.Int.{ℤ, pos, ltb_ℤ, tdiv_ℤ, pos_part}
use blitzy_open_cobol.Base.Digits.{digits_of}
use blitzy_open_cobol.Field.{ExceptionId}

abbrev pub normal_days : List ℕ
normal_days = 0 ∷ 31 ∷ 59 ∷ 90 ∷ 120 ∷ 151 ∷ 181 ∷ 212 ∷ 243 ∷ 273 ∷ 304 ∷ 334 ∷ 365 ∷ []

abbrev pub leap_days : List ℕ
leap_days = 0 ∷ 31 ∷ 60 ∷ 91 ∷ 121 ∷ 152 ∷ 182 ∷ 213 ∷ 244 ∷ 274 ∷ 305 ∷ 335 ∷ 366 ∷ []

abbrev pub normal_month_days : List ℕ
normal_month_days = 0 ∷ 31 ∷ 28 ∷ 31 ∷ 30 ∷ 31 ∷ 30 ∷ 31 ∷ 31 ∷ 30 ∷ 31 ∷ 30 ∷ 31 ∷ []

abbrev pub leap_month_days : List ℕ
leap_month_days = 0 ∷ 31 ∷ 29 ∷ 31 ∷ 30 ∷ 31 ∷ 30 ∷ 31 ∷ 31 ∷ 30 ∷ 31 ∷ 30 ∷ 31 ∷ []

unfoldable pub leap_year : ℕ → Bool
leap_year year = (year % 4 == 0 && not (year % 100 == 0)) || year % 400 == 0

-- `leapyear` in the loops
abbrev pub year_size : ℕ → ℕ
year_size year = if leap_year year then 366 else 365

abbrev pub table : List ℕ → List ℕ → ℕ → List ℕ
table normal leap year = if leap_year year then leap else normal

-- `while (days > leapyear)`: the days left and the year. Each turn takes 365 days at least, so that
-- `days / 365 + 1` turns are enough.
unfoldable pub year_loop : ℕ → ℕ → ℕ → ℕ → ℕ × ℕ
year_loop zero days baseyear leapyear = (days, baseyear)
year_loop (suc fuel) days baseyear leapyear = elim (ltb leapyear days) [
  | true ↦ year_loop fuel (days - leapyear) (suc baseyear) (year_size (suc baseyear))
  | false ↦ (days, baseyear)
]

-- `for (i = 0; i < 13; ++i)`: `i` at the end and the day in the month; `before` is the entry before
-- the first of the list, which is not read for `i` = 0 since `days` is positive.
unfoldable pub month_loop : ℕ → ℕ → List ℕ → ℕ → ℕ × ℕ
month_loop before i [] days = (i, days)
month_loop before i (entry ∷ entries) days =
    let later = month_loop entry (suc i) entries days in
    if leb days entry then (i, days - before) else later

abbrev pub out_of_range : ℤ → ℕ → Bool
out_of_range n top = ltb_ℤ n (pos 1) || ltb_ℤ (pos top) n

unfoldable pub date_of_integer : ℤ → List ℕ × Option ExceptionId
unfolding year_loop month_loop
date_of_integer srcdays =
    let n = pos_part srcdays in
    let (days, year) = year_loop (n / 365 + 1) n 1601 365 in
    let (month, day) = month_loop 0 0 (table normal_days leap_days year) days in
    if out_of_range srcdays 3067671
    then (replicate 8 b'0', some ExceptionId.argument_function)
    else (digits_of 4 year ++ (digits_of 2 month ++ digits_of 2 day), none)

unfoldable pub day_of_integer : ℤ → List ℕ × Option ExceptionId
day_of_integer srcdays =
    let n = pos_part srcdays in
    let (days, year) = year_loop (n / 365 + 1) n 1601 365 in
    if out_of_range srcdays 3067671
    then (replicate 7 b'0', some ExceptionId.argument_function)
    else (digits_of 4 year ++ digits_of 3 days, none)

-- `while (baseyear != year)`, for a year that is `count` years later.
unfoldable pub add_years : ℕ → ℕ → ℕ → ℕ
add_years zero baseyear totaldays = totaldays
add_years (suc count) baseyear totaldays =
    add_years count (suc baseyear) (totaldays + year_size baseyear)

-- `year` before the test that it lies in 1601 to 9999; a negative date fails this test.
abbrev pub bad_year : ℤ → Bool
bad_year year = ltb_ℤ year (pos 1601) || ltb_ℤ (pos 9999) year

abbrev pub bad_range : ℕ → ℕ → Bool
bad_range n top = ltb n 1 || ltb top n

abbrev pub too_late : ℕ → ℕ → ℕ → Bool
too_late year month days = ltb (get_or (table normal_month_days leap_month_days year) month 0) days

unfoldable pub integer_of_date : ℤ → ℕ × Option ExceptionId
integer_of_date indate =
    let year = pos_part indate / 10000 in
    let month = pos_part indate % 10000 / 100 in
    let days = pos_part indate % 10000 % 100 in
    let totaldays =
      add_years (year - 1601) 1601 0 + get_or (table normal_days leap_days year) (month - 1) 0 in
    if bad_year (tdiv_ℤ indate 10000)
    then (0, some ExceptionId.argument_function)
    else if bad_range month 12
    then (0, some ExceptionId.argument_function)
    else if bad_range days 31
    then (0, some ExceptionId.argument_function)
    else if too_late year month days
    then (0, some ExceptionId.argument_function)
    else (totaldays + days, none)

unfoldable pub integer_of_day : ℤ → ℕ × Option ExceptionId
integer_of_day indate =
    let year = pos_part indate / 1000 in
    let days = pos_part indate % 1000 in
    if bad_year (tdiv_ℤ indate 1000)
    then (0, some ExceptionId.argument_function)
    else if bad_range days (365 + (if leap_year year then 1 else 0))
    then (0, some ExceptionId.argument_function)
    else (add_years (year - 1601) 1601 0 + days, none)

unfoldable pub test_date_yyyymmdd : ℤ → ℕ
test_date_yyyymmdd indate =
    let year = pos_part indate / 10000 in
    let month = pos_part indate % 10000 / 100 in
    let days = pos_part indate % 10000 % 100 in
    if bad_year (tdiv_ℤ indate 10000)
    then 1
    else if bad_range month 12
    then 2
    else if bad_range days 31
    then 3
    else if too_late year month days
    then 3
    else 0

unfoldable pub test_day_yyyyddd : ℤ → ℕ
test_day_yyyyddd indate =
    let year = pos_part indate / 1000 in
    let days = pos_part indate % 1000 in
    if bad_year (tdiv_ℤ indate 1000)
    then 1
    else if bad_range days (365 + (if leap_year year then 1 else 0))
    then 2
    else 0

unfoldable pub combined_datetime : ℤ → ℤ → List ℕ × Option ExceptionId
combined_datetime srdays srtime =
    if out_of_range srdays 3067671
    then (replicate 12 b'0', some ExceptionId.argument_function)
    else if out_of_range srtime 86400
    then (replicate 12 b'0', some ExceptionId.argument_function)
    else (digits_of 7 (pos_part srdays) ++ digits_of 5 (pos_part srtime), none)
