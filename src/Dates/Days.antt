-- ===== src/Dates/Days.antt =====
-- DAY-OF-INTEGER and INTEGER-OF-DAY, the test functions, and the Gregorian closed form of a day
-- number.
use Prim.Native.Nat.{ℕ}
use native.Mathlib.Decide.{dec_lt}
use native.Mathlib.Nat.{add-zero}
use blitzy_open_cobol.Base.{
  ◌+◌, ◌-◌, ◌*◌, ◌/◌, ◌%◌, ◌^◌, ◌≤◌, ◌<◌, ◌≡◌, refl, ap, ◌∙◌, arith, false, ltb, if◌then◌else◌,
  get_or, ◌++◌, length, none, ◌↔◌,
}
use blitzy_open_cobol.Base.Int.{ℤ, pos}
use blitzy_open_cobol.Base.Digits.{digits_of, value, value-append, value-digits_of}
use blitzy_open_cobol.Dates.{
  leap_year, year_size, day_of_integer, integer_of_date, integer_of_day, test_date_yyyymmdd,
  test_day_yyyyddd,
}
use blitzy_open_cobol.Dates.Years.{
  span, all_days, year_loop-day, find_year, add_years-span, leap_years, span-leap_years,
}
use blitzy_open_cobol.Dates.Months.{before_month}
use blitzy_open_cobol.Dates.RoundTrip.{IsDate, yyyymmdd, integer_of_date-day_number}

-- INTEGER-OF-DATE of a date from 1601 to 9999 counts 365 days for each whole year before it, one
-- more for each leap year among them, the days of the months before it in its year, and the days of
-- its month; up to 1600 there are 388 leap years.
pub integer_of_date-leap_years :
    (year month day : ℕ)
    → IsDate year month day
    → let (n, bad) = integer_of_date (pos (yyyymmdd year month day)) in
      (bad ≡ none)
      × (n + 388
          ≡ 365 * (year - 1601)
            + leap_years (year - 1)
            + get_or (before_month (leap_year year)) (month - 1) 0
            + day)
integer_of_date-leap_years year month day h =
    rw (integer_of_date-day_number year month day h)
      (refl, omega (arith, span-leap_years (year - 1601) 1600, h.first, same))
  where
    same : leap_years (1600 + (year - 1601)) ≡ leap_years (year - 1)
    same = ap (λ (y : ℕ). leap_years y) (omega (arith, h.first))

-- TEST-DATE-YYYYMMDD is 0 exactly if INTEGER-OF-DATE sets no exception, for any integer.
pub test_date-integer_of_date :
    (indate : ℤ) → (test_date_yyyymmdd indate ≡ 0) ↔ ((integer_of_date indate).1 ≡ none)
unfolding test_date_yyyymmdd integer_of_date
test_date-integer_of_date indate = ground arith

-- TEST-DAY-YYYYDDD is 0 exactly if INTEGER-OF-DAY sets no exception, for any integer.
pub test_day-integer_of_day :
    (indate : ℤ) → (test_day_yyyyddd indate ≡ 0) ↔ ((integer_of_day indate).1 ≡ none)
unfolding test_day_yyyyddd integer_of_day
test_day-integer_of_day indate = ground arith

module _ (later day : ℕ) (early : later < 8399) (first : 1 ≤ day)
    (last : day ≤ year_size (1601 + later)) where
  abbrev year : ℕ
  year = 1601 + later

  abbrev number : ℕ
  number = span later 1601 + day

  day-small : day ≤ 366
  day-small = ground (arith, last)

  integer_of_day-number : integer_of_day (pos (year * 1000 + day)) ≡ (number, none)
  unfolding integer_of_day
  integer_of_day-number =
      let d : (year * 1000 + day) % 1000 ≡ day = omega (arith, day-small) in
      let y : (year * 1000 + day) / 1000 ≡ year = omega (arith, day-small) in
      let back : year - 1601 ≡ later = omega arith in
      let size : ltb (365 + (if leap_year year then 1 else 0)) day ≡ false = ground (arith, last) in
      let low : ltb year 1601 ≡ false = ground arith in
      let high : ltb 9999 year ≡ false = ground (arith, early) in
      let one : ltb day 1 ≡ false = ground (arith, first) in
      simp (y, d, back, low, high, one, size, add-zero, add_years-span)
        (ap (λ (z : ℕ). (z, none)) (omega arith))

  day_of_integer-digits :
      number ≤ 3067671 → day_of_integer (pos number) ≡ (digits_of 4 year ++ digits_of 3 day, none)
  unfolding day_of_integer
  day_of_integer-digits fits =
      let low : ltb number 1 ≡ false = ground (arith, first) in
      let high : ltb 3067671 number ≡ false = ground (arith, fits) in
      simp (year_loop-day number later day refl first last, low, high, add-zero) refl

  value-day_digits : value (digits_of 4 year ++ digits_of 3 day) ≡ year * 1000 + day
  value-day_digits =
      let y4 : year < 10 ^ 4 = omega (arith, early) in
      let d3 : day < 10 ^ 3 = omega (arith, day-small) in
      value-append (digits_of 4 year) (digits_of 3 day)
      ∙ simp (value-digits_of 4 year y4, value-digits_of 3 day d3) (omega arith)

-- A day number from 1 to 3067671 is what INTEGER-OF-DAY gives of the seven digits of its
-- DAY-OF-INTEGER.
pub integer_of_day-day_of_integer :
    (n : ℕ)
    → 1 ≤ n
    → n ≤ 3067671
    → let (digits, bad) = day_of_integer (pos n) in
      (bad ≡ none) × (length digits ≡ 7) × (integer_of_day (pos (value digits)) ≡ (n, none))
integer_of_day-day_of_integer n low high =
    let h = find_year n low in
    let early : h.later < 8399 = elim (dec_lt h.later 8399) [
      | yes p ↦ p
      | no late ↦ absurd (omega (arith, all_days h.later (omega arith), h.total, h.low, high))
    ] in
    let fits : span h.later 1601 + h.day ≤ 3067671 = omega (arith, h.total, high) in
    rw (h.total, day_of_integer-digits h.later h.day early h.low h.high fits)
      (
        refl,
        refl,
        rw (value-day_digits h.later h.day early h.low h.high)
            (integer_of_day-number h.later h.day early h.low h.high),
      )
