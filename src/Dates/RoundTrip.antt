-- ===== src/Dates/RoundTrip.antt =====
-- DATE-OF-INTEGER and INTEGER-OF-DATE are inverse to each other, on the days from 1601-01-01 to
-- 9999-12-31.
use Prim.Native.Nat.{ℕ}
use mathlib.Core.Path.{ap₂}
use native.Mathlib.Decide.{dec_lt}
use native.Mathlib.Nat.{add-zero}
use blitzy_open_cobol.Base.{
  suc, ◌+◌, ◌-◌, ◌*◌, ◌/◌, ◌%◌, ◌^◌, ◌≤◌, ◌<◌, ◌≡◌, refl, sym, ap, ◌∙◌, arith, Bool, false, ltb,
  get_or, List, ◌++◌, length, none,
}
use blitzy_open_cobol.Base.Int.{pos}
use blitzy_open_cobol.Base.Digits.{digits_of, value, value-append, value-digits_of}
use blitzy_open_cobol.Dates.{
  leap_year, year_size, year_loop, month_loop, date_of_integer, integer_of_date,
}
use blitzy_open_cobol.Dates.Years.{
  span, span-suc, all_days, year_loop-day, find_year, add_years-span, span-leap_years,
}
use blitzy_open_cobol.Dates.Months.{IsDay, Found, IsDay-Found, month_loop-IsDay, before_month}

-- A date from 1601-01-01 to 9999-12-31, and the form YYYYMMDD of a date.
pub record IsDate (year month day : ℕ) : Type 0 where
  pub first : 1601 ≤ year
  pub last : year ≤ 9999
  pub day_in_year : IsDay (leap_year year) month day

abbrev pub yyyymmdd : ℕ → ℕ → ℕ → ℕ
yyyymmdd year month day = year * 10000 + month * 100 + day

-- The number of a date, with 1601-01-01 as 1.
abbrev pub day_number : ℕ → ℕ → ℕ → ℕ
day_number year month day =
    span (year - 1601) 1601 + (get_or (before_month (leap_year year)) (month - 1) 0 + day)

abbrev pub date_digits : ℕ → ℕ → ℕ → List ℕ
date_digits year month day = digits_of 4 year ++ (digits_of 2 month ++ digits_of 2 day)

month-small : (leap : Bool) (month day : ℕ) → IsDay leap month day → (month ≤ 12) × (day ≤ 31)
month-small leap month day h = (ground (arith, h.a_month), ground (arith, h.a_day))

module _ (year month day : ℕ) (h : IsDate year month day) where
  parts :
      (yyyymmdd year month day / 10000 ≡ year)
      × (yyyymmdd year month day % 10000 / 100 ≡ month)
      × (yyyymmdd year month day % 10000 % 100 ≡ day)
  parts =
      let (m, d) = month-small _ month day h.day_in_year in (omega arith, omega arith, omega arith)

  pub integer_of_date-day_number :
      integer_of_date (pos (yyyymmdd year month day)) ≡ (day_number year month day, none)
  unfolding integer_of_date
  integer_of_date-day_number =
      let (y, m, d) = parts in
      let first : ltb year 1601 ≡ false = ground (arith, h.first) in
      let last : ltb 9999 year ≡ false = ground (arith, h.last) in
      let a = h.day_in_year.a_month in
      let b = h.day_in_year.a_day in
      let c = h.day_in_year.in_month in
      simp (y, m, d, first, last, add-zero, a, b, c, add_years-span)
        (ap (λ (z : ℕ). (z, none)) (omega arith))

  found : Found (leap_year year) month day
  found = IsDay-Found (leap_year year) month day h.day_in_year

  year_back : 1601 + (year - 1601) ≡ year
  year_back = omega (arith, h.first)

  day_number-range : (1 ≤ day_number year month day) × (day_number year month day ≤ 3067671)
  day_number-range =
      let same = ap (λ (z : ℕ). year_size z) year_back in
      (
        omega (arith, found.place_is, found.low),
        omega (
          arith,
          found.place_is,
          found.high,
          same,
          span-suc (year - 1601) 1601,
          span-leap_years (suc (year - 1601)) 1600,
          h.first,
          h.last,
        ),
      )

  date_of_integer-digits :
      date_of_integer (pos (day_number year month day)) ≡ (date_digits year month day, none)
  unfolding date_of_integer
  date_of_integer-digits =
      let (low, high) = day_number-range in
      let n = day_number year month day in
      let first : ltb n 1 ≡ false = ground (arith, low) in
      let last : ltb 3067671 n ≡ false = ground (arith, high) in
      let same = ap (λ (z : ℕ). year_size z) year_back in
      let loop : year_loop (n / 365 + 1) n 1601 365 ≡ (found.place, year) =
        year_loop-day n (year - 1601) found.place (omega (arith, found.place_is)) found.low
          (omega (arith, found.high, same))
        ∙ ap (λ (z : ℕ). (found.place, z)) year_back in
      simp (loop, first, last, add-zero, found.found) refl

  value-date_digits : value (date_digits year month day) ≡ yyyymmdd year month day
  value-date_digits =
      let (m, d) = month-small _ month day h.day_in_year in
      let y4 : year < 10 ^ 4 = omega (arith, h.last) in
      let d2 : day < 10 ^ 2 = omega arith in
      value-append (digits_of 4 year) (digits_of 2 month ++ digits_of 2 day)
      ∙ simp (value-digits_of 4 year y4, value-digits_of 2 day d2) (omega arith)

  -- A date from 1601 to 9999 is what DATE-OF-INTEGER gives of its INTEGER-OF-DATE.
  pub date_of_integer-integer_of_date :
      let (n, bad) = integer_of_date (pos (yyyymmdd year month day)) in
      (bad ≡ none)
      × ((date_of_integer (pos n)).1 ≡ none)
      × (value (date_of_integer (pos n)).0 ≡ yyyymmdd year month day)
  date_of_integer-integer_of_date =
      rw (integer_of_date-day_number, date_of_integer-digits) (refl, refl, value-date_digits)

-- The date of a day number.
record DateOf (n : ℕ) : Type 0 where
  pub year : ℕ
  pub month : ℕ
  pub day : ℕ
  pub is_date : IsDate year month day
  pub number : n ≡ day_number year month day

find_date : (n : ℕ) → 1 ≤ n → n ≤ 3067671 → DateOf n
find_date n low high =
    let h = find_year n low in
    let year = 1601 + h.later in
    let (is_day, sum) = month_loop-IsDay (leap_year year) h.day h.low h.high in
    let back : year - 1601 ≡ h.later = omega arith in
    record {
      year = year;
      month = (month_loop 0 0 (before_month (leap_year year)) h.day).0;
      day = (month_loop 0 0 (before_month (leap_year year)) h.day).1;
      is_date = record {
        first = omega arith;
        last = elim (dec_lt h.later 8399) [
          | yes early ↦ omega arith
          | no late ↦ absurd (omega (arith, all_days h.later (omega arith), h.total, h.low, high))
        ];
        day_in_year = is_day;
      };
      number = h.total ∙ sym (ap₂ (λ (a b : ℕ). span a 1601 + b) back sum);
    }

-- A day number from 1 to 3067671 is what INTEGER-OF-DATE gives of the eight digits of its
-- DATE-OF-INTEGER.
pub integer_of_date-date_of_integer :
    (n : ℕ)
    → 1 ≤ n
    → n ≤ 3067671
    → let (digits, bad) = date_of_integer (pos n) in
      (bad ≡ none) × (length digits ≡ 8) × (integer_of_date (pos (value digits)) ≡ (n, none))
integer_of_date-date_of_integer n low high =
    let h = find_date n low high in
    let d = h.is_date in
    rw (h.number, date_of_integer-digits h.year h.month h.day d)
      (
        refl,
        refl,
        rw (value-date_digits h.year h.month h.day d)
            (integer_of_date-day_number h.year h.month h.day d),
      )
