-- ===== src/Base/Digits.antt =====
-- Decimal digit strings: the bytes '0' to '9' and the numbers that they spell.
use native.Mathlib.Nat.{pow-suc, pow-zero, suc-add, zero-add}
use Prim.Native.Nat.{ℕ, zero, suc, ◌+◌, ◌-◌, ◌*◌, ◌/◌, ◌%◌, ◌^◌, ◌≤◌, ◌<◌}
use mathlib.Core.Path.{◌≡◌, ap}
use mathlib.Core.List.{List, [], ◌∷◌, ◌++◌}
use native.Mathlib.Omega.{arith}
use blitzy_open_cobol.Base.Lists.{length, All, length-append}

pub pow_add : (b m n : ℕ) → b ^ (m + n) ≡ b ^ m * b ^ n
pow_add b zero n =
    omega (arith, ap (λ (t : ℕ). b ^ t) (zero-add n), ap (λ (t : ℕ). t * b ^ n) (pow-zero b))
pow_add b (suc m) n = omega (
  arith,
  pow-suc b (m + n),
  ap (λ (t : ℕ). t * b ^ n) (pow-suc b m),
  ap (λ (t : ℕ). t * b) (pow_add b m n),
  ap (λ (t : ℕ). b ^ t) (suc-add m n),
)

-- `cob_d2i` and `cob_i2d` of libcob/common.h.
abbrev pub d2i : ℕ → ℕ
d2i x = x - b'0'

abbrev pub i2d : ℕ → ℕ
i2d x = x + b'0'

abbrev pub IsDigit : ℕ → Type 0
IsDigit c = (b'0' ≤ c) × (c ≤ b'9')

abbrev pub IsDigits : List ℕ → Type 0
IsDigits = All IsDigit

-- The number that the digits spell, the most significant digit first.
abbrev pub value : List ℕ → ℕ
value [] = 0
value (c ∷ s) = d2i c * 10 ^ length s + value s

-- The same number as C's loops compute it, with the digits read so far in `acc`.
abbrev pub value_from : ℕ → List ℕ → ℕ
value_from acc [] = acc
value_from acc (c ∷ s) = value_from (acc * 10 + d2i c) s

pub value_from_eq : (acc : ℕ) (s : List ℕ) → value_from acc s ≡ acc * 10 ^ length s + value s
value_from_eq acc [] = omega arith
value_from_eq acc (c ∷ s) =
    omega
      (arith, value_from_eq (acc * 10 + d2i c) s, ap (λ (t : ℕ). acc * t) (pow-suc 10 (length s)))

pub value_from_zero : (s : List ℕ) → value_from 0 s ≡ value s
value_from_zero s = omega (arith, value_from_eq 0 s)

pub value-append : (s t : List ℕ) → value (s ++ t) ≡ value s * 10 ^ length t + value t
value-append [] t = omega arith
value-append (c ∷ s) t = omega (
  arith,
  value-append s t,
  length-append s t,
  ap (λ (k : ℕ). d2i c * k) (pow_add 10 (length s) (length t)),
  ap (λ (k : ℕ). d2i c * 10 ^ k) (length-append s t),
)

pub value-lt : (s : List ℕ) → IsDigits s → value s < 10 ^ length s
value-lt [] h = omega arith
value-lt (c ∷ s) (hc, hs) = grind (arith, value-lt s hs, pow-suc 10 (length s))

-- `width` digits of `n`, the leading ones '0': `printf ("%w.wd")` of a number that fits.
abbrev pub digits_of : ℕ → ℕ → List ℕ
digits_of zero n = []
digits_of (suc width) n = digits_of width (n / 10) ++ i2d (n % 10) ∷ []

pub length-digits_of : (width n : ℕ) → length (digits_of width n) ≡ width
length-digits_of zero n = omega arith
length-digits_of (suc width) n = omega (
  arith,
  length-append (digits_of width (n / 10)) (i2d (n % 10) ∷ []),
  length-digits_of width (n / 10),
)

pub value-digits_of : (width n : ℕ) → n < 10 ^ width → value (digits_of width n) ≡ n
value-digits_of zero n h = omega arith
value-digits_of (suc width) n h = omega (
  arith,
  value-append (digits_of width (n / 10)) (i2d (n % 10) ∷ []),
  value-digits_of width (n / 10) (omega (arith, pow-suc 10 width)),
)

pub IsDigits-append : (s t : List ℕ) → IsDigits s → IsDigits t → IsDigits (s ++ t)
IsDigits-append [] t hs ht = ht
IsDigits-append (c ∷ s) t (hc, hs) ht = (hc, IsDigits-append s t hs ht)

pub digits_of-IsDigits : (width n : ℕ) → IsDigits (digits_of width n)
digits_of-IsDigits zero n = tt
digits_of-IsDigits (suc width) n =
    IsDigits-append (digits_of width (n / 10)) (i2d (n % 10) ∷ [])
      (digits_of-IsDigits width (n / 10)) (omega arith)
