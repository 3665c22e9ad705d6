-- ===== src/Decimal/Packed.antt =====
-- cob_packed_get_sign and cob_decimal_set_packed of libcob/numeric.c: the decimal of a packed field,
-- and the number that the half bytes of the field spell.
pub mod Digits
pub mod Value
use blitzy_open_cobol.Base.{
  ℕ, zero, suc, ◌+◌, ◌-◌, ◌*◌, ◌/◌, ◌%◌, ◌^◌, ◌≤◌, ◌<◌, ◌≡◌, refl, sym, ◌∙◌, ap, ◌==◌, Bool, true,
  false, not, ◌||◌, List, [], ◌∷◌, length, take, drop, get_or, All, ltb, if◌then◌else◌, arith,
}
use blitzy_open_cobol.Base.Int.{ℤ, pos, negsuc, neg_ℤ, ltb_ℤ}
use blitzy_open_cobol.Base.Nibbles.{low_nibble, low_nibble-eq}
use blitzy_open_cobol.Decimal.{Decimal}
use blitzy_open_cobol.Field.{Field, size}

-- What cob_decimal_set_packed calls of GMP, with the laws for numbers that are not negative.
pub record GmpUi : Type 0 where
  pub mpz_set_ui : ℕ → ℤ
  pub mpz_mul_ui : ℤ → ℕ → ℤ
  pub mpz_add_ui : ℤ → ℕ → ℤ
  pub mpz_neg : ℤ → ℤ
  pub set_law : (n : ℕ) → mpz_set_ui n ≡ pos n
  pub mul_law : (k n : ℕ) → mpz_mul_ui (pos k) n ≡ pos (k * n)
  pub add_law : (k n : ℕ) → mpz_add_ui (pos k) n ≡ pos (k + n)
  pub neg_law : (k : ℕ) → mpz_neg (pos k) ≡ neg_ℤ (pos k)

unfoldable pub packed_get_sign : Field → ℤ
packed_get_sign f =
    if not f.attr.have_sign
    then pos 0
    else if low_nibble (get_or f.data_bytes (size f - 1) 0) == 0x0d
    then negsuc 0
    else pos 1

-- An unsigned int.
abbrev pub u32 : ℕ → ℕ
u32 n = n % 2 ^ 32

-- The two digits of a byte.
abbrev pub byte_digits : ℕ → ℕ
byte_digits x = x / 16 * 10 + low_nibble x

abbrev pub times_seen : ℕ → ℕ → ℕ
times_seen val n = if val == 0 then val else u32 (val * n)

-- The loop over whole bytes and the digit in front of the sign, for less than ten digits.
unfoldable pub short_value : ℕ → ℕ → List ℕ → ℕ
short_value turns val [] = val
short_value zero val (x ∷ p) = u32 (times_seen val 10 + x / 16)
short_value (suc turns) val (x ∷ p) =
    let grown = times_seen val 100 in
    short_value turns (if x == 0 then grown else u32 (grown + byte_digits x)) p

module _ (gmp : GmpUi) where
  open gmp use {mpz_set_ui, mpz_mul_ui, mpz_add_ui, mpz_neg}

  -- The same for ten digits and more, with a flag for a digit that is not zero.
  unfoldable pub long_value : ℕ → Bool → ℤ → List ℕ → ℤ
  long_value turns valseen val [] = val
  long_value zero valseen val (x ∷ p) =
      mpz_add_ui (if valseen then mpz_mul_ui val 10 else val) (x / 16)
  long_value (suc turns) valseen val (x ∷ p) =
      let grown = if valseen then mpz_mul_ui val 100 else val in
      long_value turns (valseen || not (x == 0))
        (if x == 0 then grown else mpz_add_ui grown (byte_digits x)) p

  -- The value without the sign: `val` is the first digit of an even number of digits.
  unfoldable pub packed_value : ℕ → ℕ → ℕ → List ℕ → ℤ
  packed_value digits turns val p =
      if ltb digits 10
      then mpz_set_ui (short_value turns val p)
      else long_value turns (not (val == 0)) (mpz_set_ui val) p

  -- An even number of digits begins in the second half of the first byte.
  unfoldable pub unsigned_value : ℕ → List ℕ → ℤ
  unsigned_value digits p =
      if digits % 2 == 0
      then packed_value digits ((digits - 1) / 2) (low_nibble (get_or p 0 0)) (drop 1 p)
      else packed_value digits (digits / 2) 0 p

  unfoldable pub set_packed : Field → Decimal
  set_packed f =
      let value = unsigned_value f.attr.digits f.data_bytes in
      record {
        value = if ltb_ℤ (packed_get_sign f) (pos 0) then mpz_neg value else value;
        scale = f.attr.scale;
      }
