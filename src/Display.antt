-- ===== src/Display.antt =====
-- Arithmetic on DISPLAY fields without the decimal type: `display_add_int`, `display_sub_int` and
-- `cob_display_add_int` of libcob/numeric.c. The loops go from the last digit to the first, so they
-- are recursions on the reversed digits.
pub mod Sums
pub mod Signed
pub mod Magnitude
pub mod Shown
pub mod WholeField
mod Examples
use mathlib.Core.List.{reverse}
use mathlib.Core.Option
use blitzy_open_cobol.Base.{
  ℕ, zero, suc, ◌+◌, ◌-◌, ◌/◌, ◌%◌, ◌^◌, Bool, true, false, ◌&&◌, ◌||◌, Option, none, some, List,
  [], ◌∷◌, map, ltb, leb, ◌==◌, if◌then◌else◌,
}
use blitzy_open_cobol.Base.Int.{ℤ, pos, negsuc, ◌*ℤ◌, neg_ℤ, abs, tdiv_ℤ, ltb_ℤ, pos_part, neg_part}
use blitzy_open_cobol.Base.Nibbles.{low_nibble}
use blitzy_open_cobol.Field.{Field, Module, ExceptionId, digit_bytes, put_digit_bytes}
use blitzy_open_cobol.Field.Sign.{get_sign, put_sign}

-- The loop that carries a one upwards; `true` when it runs past the first digit.
pub carry_up : List ℕ → List ℕ × Bool
carry_up [] = ([], true)
carry_up (c ∷ s) =
    let (rest, over) = carry_up s in
    if leb ((c + 1) % 256) b'9' then ((c + 1) % 256 ∷ s, false) else (b'0' ∷ rest, over)

-- The loop that adds the digits of `n`, then the loop above.
pub add_digits : List ℕ → ℕ → ℕ → List ℕ × Bool
add_digits [] n carry = ([], ltb 0 n || ltb 0 carry)
add_digits (c ∷ s) n carry =
    let is = low_nibble c + n % 10 + carry in
    let (rest, over) = add_digits s (n / 10) (if ltb 9 is then 1 else 0) in
    if ltb 0 n
    then ((b'0' + (if ltb 9 is then is % 10 else is)) ∷ rest, over)
    else if carry == 0
    then (c ∷ s, false)
    else carry_up (c ∷ s)

-- The digits after the addition, and whether 1 is returned.
pub display_add_int : Module → List ℕ → ℕ → List ℕ × Bool
display_add_int m bytes n =
    let (rest, over) = add_digits (reverse bytes) n 0 in
    (reverse rest, over && m.flag_binary_truncate)

pub carry_down : List ℕ → List ℕ × Bool
carry_down [] = ([], true)
carry_down (c ∷ s) =
    let (rest, under) = carry_down s in
    if leb b'0' ((c + 255) % 256) then ((c + 255) % 256 ∷ s, false) else (b'9' ∷ rest, under)

pub sub_digits : List ℕ → ℕ → ℕ → List ℕ × Bool
sub_digits [] n carry = ([], ltb 0 n || ltb 0 carry)
sub_digits (c ∷ s) n carry =
    let left = (c + 256 - (n % 10 + carry)) % 256 in
    let (rest, under) = sub_digits s (n / 10) (if ltb left b'0' then 1 else 0) in
    if ltb 0 n
    then ((if ltb left b'0' then (left + 10) % 256 else left) ∷ rest, under)
    else if carry == 0
    then (c ∷ s, false)
    else carry_down (c ∷ s)

pub display_sub_int : List ℕ → ℕ → List ℕ × Bool
display_sub_int bytes n =
    let (rest, under) = sub_digits (reverse bytes) n 0 in (reverse rest, under)

-- `while (scale > 0) { --scale; n *= 10; }` and `while (scale) { ++scale; n /= 10; }`. `n` is a long
-- long: a product outside its range is undefined. The least long long is no multiple of ten.
pub times_ten : ℕ → ℤ → Option ℤ
times_ten zero n = some n
times_ten (suc k) n =
    let rest = times_ten k (n *ℤ pos 10) in if ltb (abs (n *ℤ pos 10)) (2 ^ 63) then rest else none

pub over_ten : ℕ → ℤ → ℤ
over_ten zero n = n
over_ten (suc k) n = over_ten k (tdiv_ℤ n 10)

pub scaled : ℤ → ℤ → Option ℤ
scaled (pos k) n = times_ten k n
scaled (negsuc k) n = some (if ltb (suc k) 10 then over_ten (suc k) n else pos 0)

pub record Sum : Type 0 where
  pub digits : List ℕ
  pub sign : ℤ
  pub overflow : Bool

-- `data[i] = cob_i2d (9 - cob_d2i (data[i]))`
abbrev pub nines : List ℕ → List ℕ
nines = map (λ c. (256 + 9 + b'0' + b'0' - c) % 256)

-- What `cob_display_add_int` does between reading and writing the sign; `n` is scaled.
pub add_signed : Module → List ℕ → ℤ → ℤ → Sum
add_signed m bytes sign n =
    let (sum, over) = display_add_int m bytes (pos_part n) in
    let (diff, under) = display_sub_int bytes (neg_part n) in
    let (turned, _) = display_add_int m (nines diff) 1 in
    if ltb_ℤ (pos 0) n
    then (if over
        then record { digits = bytes; sign = sign; overflow = true }
        else record { digits = sum; sign = sign; overflow = false })
    else if ltb_ℤ n (pos 0)
    then (if under
        then record { digits = turned; sign = neg_ℤ sign; overflow = false }
        else record { digits = diff; sign = sign; overflow = false })
    else record { digits = bytes; sign = sign; overflow = false }

-- The rest of `cob_display_add_int`, from the `if (n > 0)` on.
pub add_scaled : Module → Field → ℤ → ℤ → Field × Option ExceptionId
add_scaled m g sign n =
    let sum = add_signed m (digit_bytes g) sign n in
    (
      put_sign m (put_digit_bytes g sum.digits) sum.sign,
      (if sum.overflow then some ExceptionId.size_overflow else none),
    )

-- `cob_display_add_int` of an int `n`. `none` is the overflow of the long long.
pub display_add_int_field : Module → Field → ℤ → Option (Field × Option ExceptionId)
display_add_int_field m f n =
    let (sign, g) = get_sign m f in
    let signed_n = if ltb_ℤ sign (pos 0) then neg_ℤ n else n in
    Option.map (add_scaled m g sign) (scaled f.attr.scale signed_n)
