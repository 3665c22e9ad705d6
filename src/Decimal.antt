-- ===== src/Decimal.antt =====
-- `cob_decimal`, the decimal numbers of libcob/numeric.c: a big integer and the number of digits
-- behind the decimal point. The integers are GMP's `mpz_t`; GMP is not part of the repository, so
-- its functions are a parameter, with what GMP documents of them as laws.
pub mod Meaning
pub mod Arith
pub mod Quotient
pub mod Rounding
pub mod Packed
mod Examples
use blitzy_open_cobol.Base.{
  ℕ, ◌+◌, ◌/◌, ◌*◌, ◌^◌, ◌≡◌, Bool, true, false, ◌&&◌, ◌||◌, Option, none, some, ltb, if◌then◌else◌,
}
use blitzy_open_cobol.Base.Int.{
  ℤ, pos, negsuc, ◌+ℤ◌, ◌-ℤ◌, ◌*ℤ◌, neg_ℤ, ltb_ℤ, ==_ℤ, pos_part, neg_part, tdiv, compare_ℤ,
}
use blitzy_open_cobol.Field.{ExceptionId}

-- 1, 0 or -1.
abbrev pub sign_of : ℤ → ℤ
sign_of a = compare_ℤ a (pos 0)

-- What libcob/numeric.c calls of GMP. Of mpz_cmp the manual promises the sign alone. An `mpz_t` is an integer.
pub record Gmp : Type 0 where
  pub mpz_add : ℤ → ℤ → ℤ
  pub mpz_sub : ℤ → ℤ → ℤ
  pub mpz_mul : ℤ → ℤ → ℤ
  pub mpz_tdiv_q : ℤ → ℤ → ℤ
  pub mpz_ui_pow_ui : ℕ → ℕ → ℤ
  pub mpz_cmp : ℤ → ℤ → ℤ
  pub mpz_sgn : ℤ → ℤ
  pub add_law : (a b : ℤ) → mpz_add a b ≡ a +ℤ b
  pub sub_law : (a b : ℤ) → mpz_sub a b ≡ a -ℤ b
  pub mul_law : (a b : ℤ) → mpz_mul a b ≡ a *ℤ b
  pub tdiv_law : (a b : ℤ) → mpz_tdiv_q a b ≡ tdiv a b
  pub pow_law : (b n : ℕ) → mpz_ui_pow_ui b n ≡ pos (b ^ n)
  pub cmp_law : (a b : ℤ) → sign_of (mpz_cmp a b) ≡ compare_ℤ a b
  pub sgn_law : (a : ℤ) → mpz_sgn a ≡ sign_of a

pub record Decimal : Type 0 where
  pub value : ℤ
  pub scale : ℤ

-- DECIMAL_NAN is -128.
abbrev pub decimal_nan : ℤ
decimal_nan = negsuc 127

abbrev pub is_nan : Decimal → Bool
is_nan d = ==_ℤ d.scale decimal_nan

module _ (gmp : Gmp) where
  open gmp use {mpz_add, mpz_sub, mpz_mul, mpz_tdiv_q, mpz_ui_pow_ui, mpz_cmp, mpz_sgn}

  -- d->value *= 10^n, d->scale += n
  pub shift_decimal : Decimal → ℤ → Decimal
  shift_decimal d n = if ==_ℤ n (pos 0) then d else record {
    value =
        if ltb_ℤ (pos 0) n
        then mpz_mul d.value (mpz_ui_pow_ui 10 (pos_part n))
        else mpz_tdiv_q d.value (mpz_ui_pow_ui 10 (neg_part n));
    scale = d.scale +ℤ n;
  }

  pub align_decimal : Decimal → Decimal → Decimal × Decimal
  align_decimal d1 d2 =
      if ltb_ℤ d1.scale d2.scale
      then (shift_decimal d1 (d2.scale -ℤ d1.scale), d2)
      else if ltb_ℤ d2.scale d1.scale
      then (d1, shift_decimal d2 (d1.scale -ℤ d2.scale))
      else (d1, d2)

  -- DECIMAL_CHECK
  pub decimal_check : Decimal → Decimal → Decimal → Decimal
  decimal_check d1 d2 result =
      if is_nan d1 || is_nan d2 then record d1 { scale = decimal_nan } else result

  pub add : Decimal → Decimal → Decimal
  unfolding decimal_check
  add d1 d2 =
      let (a, b) = align_decimal d1 d2 in
      decimal_check d1 d2 (record a { value = mpz_add a.value b.value })

  pub sub : Decimal → Decimal → Decimal
  unfolding decimal_check
  sub d1 d2 =
      let (a, b) = align_decimal d1 d2 in
      decimal_check d1 d2 (record a { value = mpz_sub a.value b.value })

  pub mul : Decimal → Decimal → Decimal
  unfolding decimal_check
  mul d1 d2 =
      decimal_check d1 d2
        (record { value = mpz_mul d1.value d2.value; scale = d1.scale +ℤ d2.scale })

  -- The quotient, and the exception that is set.
  pub div : Decimal → Decimal → Decimal × Option ExceptionId
  div d1 d2 =
      let scale = d1.scale -ℤ d2.scale in
      let more = pos (37 + neg_part scale) in
      let shifted = shift_decimal (record d1 { scale = scale }) more in
      if is_nan d1 || is_nan d2
      then (record d1 { scale = decimal_nan }, none)
      else if ==_ℤ (mpz_sgn d2.value) (pos 0)
      then (record d1 { scale = decimal_nan }, some ExceptionId.size_zero_divide)
      else if ==_ℤ (mpz_sgn d1.value) (pos 0)
      then (record d1 { scale = pos 0 }, none)
      else (record shifted { value = mpz_tdiv_q shifted.value d2.value }, none)

  pub cmp : Decimal → Decimal → ℤ
  cmp d1 d2 = let (a, b) = align_decimal d1 d2 in mpz_cmp a.value b.value

  -- The middle of `cob_decimal_get_field`, between the work copy and the store: rounding where
  -- COB_STORE_ROUND is set, then appending or truncating digits, to a field with this scale.
  pub fit_scale : Bool → ℤ → Decimal → Decimal
  fit_scale store_round scale d =
      let near = shift_decimal d (scale -ℤ d.scale +ℤ pos 1) in
      let rounded =
        if ltb_ℤ (pos 0) (mpz_sgn d.value)
        then record near { value = mpz_add near.value (pos 5) }
        else record near { value = mpz_sub near.value (pos 5) } in
      let start =
        if store_round && ltb_ℤ scale d.scale
        then (if ==_ℤ (mpz_sgn d.value) (pos 0) then d else rounded)
        else d in
      shift_decimal start (scale -ℤ start.scale)
