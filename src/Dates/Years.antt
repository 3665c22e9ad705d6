-- ===== src/Dates/Years.antt =====
-- The year loops of the date functions: both count the days of whole years, and the count has the
-- closed form of the Gregorian calendar.
use Prim.Native.Nat.{ℕ}
use mathlib.Core.Path.{ap₂}
use blitzy_open_cobol.Base.{
  zero, suc, ◌+◌, ◌-◌, ◌/◌, ◌*◌, ◌≤◌, ◌<◌, ◌≡◌, refl, ap, ◌∙◌, arith, Bool-cases, inl, inr, ltb,
  lt→ltb, ltb→lt, true, false,
}
use blitzy_open_cobol.Dates.{leap_year, year_size, year_loop, add_years}

-- The days of `count` years from `year` on.
pub span : ℕ → ℕ → ℕ
span zero year = 0
span (suc count) year = year_size year + span count (suc year)

pub add_years-span : (k y t : ℕ) → add_years k y t ≡ t + span k y
unfolding add_years span
add_years-span zero y t = omega arith
add_years-span (suc k) y t = omega (arith, add_years-span k (suc y) (t + year_size y))

pub span-suc : (k y : ℕ) → span (suc k) y ≡ span k y + year_size (y + k)
unfolding span
span-suc zero y = ground arith
span-suc (suc k) y =
    let same : suc y + k ≡ y + suc k = omega arith in
    omega (arith, span-suc k (suc y), ap (λ (z : ℕ). year_size z) same)

-- The leap years up to `year`.
abbrev pub leap_years : ℕ → ℕ
leap_years year = year / 4 - year / 100 + year / 400

year_size-eq : (y : ℕ) → year_size (suc y) + leap_years y ≡ 365 + leap_years (suc y)
unfolding leap_year
year_size-eq y = ground arith

year_size-bounds : (y : ℕ) → (365 ≤ year_size y) × (year_size y ≤ 366)
year_size-bounds y = ground arith

pub span-leap_years : (k y : ℕ) → span k (suc y) + leap_years y ≡ 365 * k + leap_years (y + k)
unfolding span
span-leap_years zero y = omega arith
span-leap_years (suc k) y =
    let same : suc y + k ≡ suc (y + k) = omega arith in
    omega (
      arith,
      span-suc k (suc y),
      span-leap_years k y,
      year_size-eq (y + k),
      ap (λ (z : ℕ). year_size z) same,
    )

pub span-ge : (k y : ℕ) → 365 * k ≤ span k y
unfolding span
span-ge zero y = omega arith
span-ge (suc k) y = omega (arith, span-ge k (suc y), year_size-bounds y)

-- The days from 1601 to the end of 9999.
pub all_days : (k : ℕ) → 8399 ≤ k → 3067671 ≤ span k 1601
all_days k h = omega (arith, span-leap_years k 1600)

pair : {a b c d : ℕ} → a ≡ c → b ≡ d → ◌≡◌ {A = ℕ × ℕ} (a, b) (c, d)
pair p q = ap₂ (λ (x y : ℕ). (x, y)) p q

year_loop-stop : (fuel days y size : ℕ) → days ≤ size → year_loop (suc fuel) days y size ≡ (days, y)
unfolding year_loop
year_loop-stop fuel days y size h =
    let stop : ltb size days ≡ false = ground arith in rw (year_loop, stop) refl

year_loop-turn :
    (fuel days y size : ℕ)
    → size < days
    → year_loop (suc fuel) days y size ≡ year_loop fuel (days - size) (suc y) (year_size (suc y))
unfolding year_loop
year_loop-turn fuel days y size h =
    let turn : ltb size days ≡ true = lt→ltb _ _ h in rw (year_loop, turn) refl

-- The loop stops at the year in which the day lies.
pub year_loop-span :
    (fuel k y d : ℕ)
    → k < fuel
    → 1 ≤ d
    → d ≤ year_size (y + k)
    → year_loop fuel (span k y + d) y (year_size y) ≡ (d, y + k)
unfolding span
year_loop-span zero k y d below low high = absurd (omega arith)
year_loop-span (suc fuel) zero y d below low high =
    let same : y + 0 ≡ y = omega arith in
    year_loop-stop fuel (0 + d) y (year_size y) (omega (arith, ap (λ (z : ℕ). year_size z) same))
    ∙ pair (omega arith) (omega arith)
year_loop-span (suc fuel) (suc k) y d below low high =
    let rest : year_size y + span k (suc y) + d - year_size y ≡ span k (suc y) + d = omega arith in
    let same : suc y + k ≡ y + suc k = omega arith in
    year_loop-turn fuel _ y (year_size y) (omega arith)
    ∙ ap (λ (z : ℕ). year_loop fuel z (suc y) (year_size (suc y))) rest
    ∙ year_loop-span fuel k (suc y) d (omega arith) low (rw same high)
    ∙ pair refl same

-- Each day number lies in some year.
pub record InYear (n : ℕ) : Type 0 where
  pub later : ℕ
  pub day : ℕ
  pub low : 1 ≤ day
  pub high : day ≤ year_size (1601 + later)
  pub total : n ≡ span later 1601 + day

pub find_year : (n : ℕ) → 1 ≤ n → InYear n
unfolding span
find_year zero h = absurd (omega arith)
find_year (suc zero) h = record {
  later = 0;
  day = 1;
  low = omega arith;
  high = omega (arith, year_size-bounds 1601);
  total = omega arith;
}
find_year (suc (suc n)) h =
    let h = find_year (suc n) (omega arith) in
    elim (Bool-cases (ltb h.day (year_size (1601 + h.later)))) [
      | inl more ↦ record {
        later = h.later;
        day = suc h.day;
        low = omega arith;
        high = ltb→lt _ _ more;
        total = omega (arith, h.total);
      }
      | inr last ↦ record {
        later = suc h.later;
        day = 1;
        low = omega arith;
        high = omega (arith, year_size-bounds (1601 + suc h.later));
        total =
            let full : h.day ≡ year_size (1601 + h.later) = ground (arith, h.high) in
            omega (arith, h.total, span-suc h.later 1601, full);
      }
    ]

-- With the fuel of the model, from 1601 on.
pub year_loop-day :
    (n later d : ℕ)
    → n ≡ span later 1601 + d
    → 1 ≤ d
    → d ≤ year_size (1601 + later)
    → year_loop (n / 365 + 1) n 1601 365 ≡ (d, 1601 + later)
unfolding leap_year
year_loop-day n later d total low high =
    let enough : later < n / 365 + 1 = omega (arith, total, span-ge later 1601) in
    ap (λ (z : ℕ). year_loop (n / 365 + 1) z 1601 365) total
    ∙ year_loop-span (n / 365 + 1) later 1601 d enough low high
