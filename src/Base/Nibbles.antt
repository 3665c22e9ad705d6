-- ===== src/Base/Nibbles.antt =====
-- The two halves of a byte, as the packed-decimal code reads and writes them.
use Prim.Native.Nat.{ℕ, ◌+◌, ◌*◌, ◌/◌, ◌%◌, ◌<◌, bit_and, bit_or}
use mathlib.Core.Path.{◌≡◌, refl}
use mathlib.Core.Bool.{true}
use blitzy_open_cobol.Base.Tests.{passes, passes-at, ◌==◌, ==_iff}

-- `x & 0x0f`
unfoldable pub low_nibble : ℕ → ℕ
low_nibble x = bit_and x 0x0f

-- `(x & 0xf0) >> 4`
unfoldable pub high_nibble : ℕ → ℕ
high_nibble x = bit_and x 0xf0 / 16

-- `(x & 0xf0) | n`
unfoldable pub set_low : ℕ → ℕ → ℕ
set_low x n = bit_or (bit_and x 0xf0) n

-- `(x & 0x0f) | (n << 4)`
unfoldable pub set_high : ℕ → ℕ → ℕ
set_high x n = bit_or (bit_and x 0x0f) (n * 16)

low_table : passes (λ x. low_nibble x == x % 16) 256 ≡ true
unfolding passes low_nibble
low_table = refl

high_table : passes (λ x. high_nibble x == x / 16) 256 ≡ true
unfolding passes high_nibble
high_table = refl

set_low_table : passes (λ x. passes (λ n. set_low x n == x / 16 * 16 + n) 16) 256 ≡ true
unfolding passes set_low
set_low_table = refl

set_high_table : passes (λ x. passes (λ n. set_high x n == n * 16 + x % 16) 16) 256 ≡ true
unfolding passes set_high
set_high_table = refl

pub low_nibble-eq : (x : ℕ) → x < 256 → low_nibble x ≡ x % 16
low_nibble-eq x h = (==_iff _ _).0 (passes-at _ 256 x h low_table)

pub high_nibble-eq : (x : ℕ) → x < 256 → high_nibble x ≡ x / 16
high_nibble-eq x h = (==_iff _ _).0 (passes-at _ 256 x h high_table)

pub set_low-eq : (x n : ℕ) → x < 256 → n < 16 → set_low x n ≡ x / 16 * 16 + n
set_low-eq x n h k = (==_iff _ _).0 (passes-at _ 16 n k (passes-at _ 256 x h set_low_table))

pub set_high-eq : (x n : ℕ) → x < 256 → n < 16 → set_high x n ≡ n * 16 + x % 16
set_high-eq x n h k = (==_iff _ _).0 (passes-at _ 16 n k (passes-at _ 256 x h set_high_table))
