-- ===== src/Dates/Months.antt =====
-- The month loop and the month tables, checked day by day: a year has 12 months and 366 days.
use Prim.Native.Nat.{ℕ}
use mathlib.Core.Bool.{false≢true}
use mathlib.Core.Path.{ap₂}
use blitzy_open_cobol.Base.{
  zero, suc, ◌+◌, ◌-◌, ◌≤◌, ◌<◌, ◌≡◌, refl, arith, Bool, true, false, not, ◌&&◌, ◌||◌, ltb, leb,
  ◌==◌, ==_iff, if◌then◌else◌, get_or, passes, passes-at, both_true, leb→le, sym, List,
}
use blitzy_open_cobol.Dates.{
  month_loop, bad_range, normal_days, leap_days, normal_month_days, leap_month_days,
}

-- The tables of a normal year and of a leap year.
abbrev pub before_month : Bool → List ℕ
before_month leap = if leap then leap_days else normal_days

abbrev pub month_size : Bool → List ℕ
month_size leap = if leap then leap_month_days else normal_month_days

-- A day of a month of the year.
pub record IsDay (leap : Bool) (month day : ℕ) : Type 0 where
  pub a_month : bad_range month 12 ≡ false
  pub a_day : bad_range day 31 ≡ false
  pub in_month : ltb (get_or (month_size leap) month 0) day ≡ false

day_test : Bool → ℕ → ℕ → Bool
day_test leap month day =
    not (bad_range month 12)
    && (not (bad_range day 31) && not (ltb (get_or (month_size leap) month 0) day))

-- The month and the day that the loop finds are a day of the year, at that place of the year.
split_test : Bool → ℕ → Bool
unfolding day_test
split_test leap days =
    let (month, day) = month_loop 0 0 (before_month leap) days in
    day_test leap month day && get_or (before_month leap) (month - 1) 0 + day == days

splits : (leap : Bool) → passes (λ i. split_test leap (suc i)) (if leap then 366 else 365) ≡ true
unfolding passes split_test month_loop
splits true = refl
splits false = refl

not-true : (b : Bool) → not b ≡ true → b ≡ false
not-true true h = absurd (false≢true h)
not-true false h = refl

day_test-IsDay :
    (leap : Bool) (month day : ℕ) → day_test leap month day ≡ true → IsDay leap month day
unfolding day_test
day_test-IsDay leap month day h =
    let (m, rest) = both_true _ _ h in
    let (d, fits) = both_true _ _ rest in
    record { a_month = not-true _ m; a_day = not-true _ d; in_month = not-true _ fits }

IsDay-day_test :
    (leap : Bool) (month day : ℕ) → IsDay leap month day → day_test leap month day ≡ true
unfolding day_test
IsDay-day_test leap month day h = rw (h.a_month, h.a_day, h.in_month) refl

pub month_loop-IsDay :
    (leap : Bool) (days : ℕ)
    → 1 ≤ days
    → days ≤ (if leap then 366 else 365)
    → let (month, day) = month_loop 0 0 (before_month leap) days in
      IsDay leap month day × (get_or (before_month leap) (month - 1) 0 + day ≡ days)
unfolding split_test
month_loop-IsDay leap zero low high = absurd (omega arith)
month_loop-IsDay leap (suc days) low high =
    let (fine, sum) = both_true _ _ (passes-at _ _ days high (splits leap)) in
    (day_test-IsDay leap _ _ fine, (==_iff _ _).0 sum)

-- The loop finds every day of the year.
find_test : Bool → ℕ → ℕ → Bool
unfolding day_test
find_test leap month day =
    let days = get_or (before_month leap) (month - 1) 0 + day in
    let (m, d) = month_loop 0 0 (before_month leap) days in
    not (day_test leap month day)
    || (m == month && (d == day && (leb days (if leap then 366 else 365) && leb 1 days)))

finds : (leap : Bool) → passes (λ m. passes (λ d. find_test leap (suc m) (suc d)) 31) 12 ≡ true
unfolding passes find_test month_loop
finds true = refl
finds false = refl

implied : (a b : Bool) → (not a || b) ≡ true → a ≡ true → b ≡ true
implied true b h holds = h
implied false b h holds = absurd (false≢true holds)

-- A day of the year, at its place among the days of the year.
pub record Found (leap : Bool) (month day : ℕ) : Type 0 where
  pub place : ℕ
  pub place_is : place ≡ get_or (before_month leap) (month - 1) 0 + day
  pub low : 1 ≤ place
  pub high : place ≤ (if leap then 366 else 365)
  pub found : month_loop 0 0 (before_month leap) place ≡ (month, day)

pub IsDay-Found : (leap : Bool) (month day : ℕ) → IsDay leap month day → Found leap month day
unfolding find_test
IsDay-Found leap zero day h = absurd (false≢true (sym h.a_month))
IsDay-Found leap (suc month) zero h = absurd (false≢true (sym h.a_day))
IsDay-Found leap (suc month) (suc day) h =
    let in_year : month < 12 = ground (arith, h.a_month) in
    let in_month : day < 31 = ground (arith, h.a_day) in
    let test = passes-at _ 31 day in_month (passes-at _ 12 month in_year (finds leap)) in
    let test = implied _ _ test (IsDay-day_test leap (suc month) (suc day) h) in
    let (m, rest) = both_true _ _ test in
    let (d, rest) = both_true _ _ rest in
    let (high, low) = both_true _ _ rest in
    record {
      place = get_or (before_month leap) (suc month - 1) 0 + suc day;
      place_is = refl;
      low = leb→le _ _ low;
      high = leb→le _ _ high;
      found = ap₂ (λ (x y : ℕ). (x, y)) ((==_iff _ _).0 m) ((==_iff _ _).0 d);
    }
