-- ===== src/Decimal/Packed/Digits.antt =====
-- The digits of a packed field, and the loop of cob_decimal_set_packed for less than ten of them.
use blitzy_open_cobol.Base.{
  ℕ, zero, suc, ◌+◌, ◌-◌, ◌*◌, ◌/◌, ◌%◌, ◌≤◌, ◌<◌, ◌≡◌, refl, ap, ◌==◌, List, [], ◌∷◌, length, take,
  All, if◌then◌else◌, arith,
}
use blitzy_open_cobol.Base.Nibbles.{low_nibble-eq}
use blitzy_open_cobol.Decimal.Packed.{u32, byte_digits, times_seen, short_value}

-- The half bytes, and the number that some digits spell behind others.
abbrev pub nibbles : List ℕ → List ℕ
nibbles [] = []
nibbles (x ∷ p) = x / 16 ∷ x % 16 ∷ nibbles p

abbrev pub number_from : ℕ → List ℕ → ℕ
number_from acc [] = acc
number_from acc (d ∷ digits) = number_from (acc * 10 + d) digits

abbrev pub IsByte : ℕ → Type 0
IsByte x = x < 256

-- The digits in `turns` whole bytes and a half.
abbrev pub odd_digits : ℕ → List ℕ → List ℕ
odd_digits turns [] = []
odd_digits zero (x ∷ p) = x / 16 ∷ []
odd_digits (suc turns) (x ∷ p) = x / 16 ∷ x % 16 ∷ odd_digits turns p

pub odd_digits-take :
    (turns : ℕ) (p : List ℕ) → odd_digits turns p ≡ take (turns + turns + 1) (nibbles p)
odd_digits-take turns [] =
    let some : turns + turns + 1 ≡ suc (turns + turns) = omega arith in rw some refl
odd_digits-take zero (x ∷ p) = refl
odd_digits-take (suc turns) (x ∷ p) =
    let more : suc turns + suc turns + 1 ≡ suc (suc (turns + turns + 1)) = omega arith in
    rw more (ap (λ (l : List ℕ). x / 16 ∷ x % 16 ∷ l) (odd_digits-take turns p))

-- The largest number in front of the last turns, with all half bytes 15.
abbrev pub limit : ℕ → ℕ
limit zero = 166666665
limit (suc turns) = limit turns / 100 - 1

limit_step : (turns : ℕ) → turns < 4 → limit (suc turns) * 100 + 165 ≤ limit turns
limit_step zero h = omega arith
limit_step (suc zero) h = omega arith
limit_step (suc (suc zero)) h = omega arith
limit_step (suc (suc (suc zero))) h = omega arith
limit_step (suc (suc (suc (suc n)))) h = absurd (omega arith)

limit_most : (turns : ℕ) → limit turns ≤ 166666665
limit_most zero = omega arith
limit_most (suc turns) = omega (arith, limit_most turns)

times_seen-eq : (val n : ℕ) → val * n < 4294967296 → times_seen val n ≡ val * n
times_seen-eq val n small = ground arith

-- There is room for a first digit in front of three turns.
pub limit_first : (turns : ℕ) → turns < 4 → 15 ≤ limit turns
limit_first zero h = omega arith
limit_first (suc zero) h = omega arith
limit_first (suc (suc zero)) h = omega arith
limit_first (suc (suc (suc zero))) h = omega arith
limit_first (suc (suc (suc (suc n)))) h = absurd (omega arith)

-- One turn over a byte.
short_turn :
    (val x : ℕ)
    → val * 100 + 165 ≤ 166666665
    → x < 256
    → (if x == 0 then times_seen val 100 else u32 (times_seen val 100 + byte_digits x))
      ≡ (val * 10 + x / 16) * 10 + x % 16
short_turn val x small byte =
    rw (times_seen-eq val 100 (omega arith), low_nibble-eq x byte) (ground arith)

-- No turn wraps around.
pub short_value-number_from :
    (turns val : ℕ) (p : List ℕ)
    → turns ≤ 4
    → val ≤ limit turns
    → turns < length p
    → All IsByte p
    → short_value turns val p ≡ number_from val (odd_digits turns p)
unfolding short_value
short_value-number_from turns val [] few small enough bytes = absurd (omega arith)
short_value-number_from zero val (x ∷ p) few small enough (byte, bytes) = ground arith
short_value-number_from (suc turns) val (x ∷ p) few small enough (byte, bytes) =
    let below : val * 100 + 165 ≤ 166666665 =
      omega (arith, limit_step turns (omega arith), limit_most turns) in
    let step = short_turn val x below byte in
    rw (short_value, step)
      (short_value-number_from turns ((val * 10 + x / 16) * 10 + x % 16) p (omega arith)
        (omega (arith, limit_step turns (omega arith))) (omega arith) bytes)
