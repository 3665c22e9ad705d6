-- ===== src/Decimal/Examples.antt =====
-- A GMP that computes, runs of the decimal functions on it, and their theorems at concrete numbers.
use blitzy_open_cobol.Base.{◌≡◌, ◌*◌, ◌+◌, ◌^◌, refl, none, some, false, true, [], ◌∷◌, arith}
use blitzy_open_cobol.Base.Int.{
  ℤ, pos, negsuc, ◌+ℤ◌, ◌-ℤ◌, ◌*ℤ◌, tdiv, compare_ℤ, -ℤ_parts, neg_ℤ, pos_part,
}
use blitzy_open_cobol.Field.{ExceptionId}
use blitzy_open_cobol.Samples.{signed_packed}
use blitzy_open_cobol.Base.Nibbles.{low_nibble}
use blitzy_open_cobol.Decimal.Packed.{
  GmpUi, set_packed, unsigned_value, packed_value, short_value, packed_get_sign,
}
use blitzy_open_cobol.Decimal.Packed.Digits.{number_from}
use blitzy_open_cobol.Decimal.Packed.Value.{packed_digits, signed_decimal, set_packed-digits}
use blitzy_open_cobol.Decimal.{
  Gmp, Decimal, decimal_nan, is_nan, sign_of, shift_decimal, align_decimal, decimal_check, add, sub,
  mul, div, cmp, fit_scale,
}
use blitzy_open_cobol.Decimal.Meaning.{Denotes}
use blitzy_open_cobol.Decimal.Arith.{add-Denotes, mul-Denotes, cmp-compare_ℤ}
use blitzy_open_cobol.Decimal.Quotient.{IsQuotient, div-IsQuotient}
use blitzy_open_cobol.Decimal.Rounding.{
  IsRounded, IsTruncated, fit_scale-IsRounded, fit_scale-IsTruncated,
}

-- A mpz_cmp that returns the difference.
sign_of-difference : (a b : ℤ) → sign_of (a -ℤ b) ≡ compare_ℤ a b
sign_of-difference a b = ground (arith, -ℤ_parts a b)

abbrev exact : Gmp
exact = record {
  mpz_add = ◌+ℤ◌;
  mpz_sub = ◌-ℤ◌;
  mpz_mul = ◌*ℤ◌;
  mpz_tdiv_q = tdiv;
  mpz_ui_pow_ui = λ b n. pos (b ^ n);
  mpz_cmp = ◌-ℤ◌;
  mpz_sgn = λ a. sign_of a;
  add_law = λ a b. refl;
  sub_law = λ a b. refl;
  mul_law = λ a b. refl;
  tdiv_law = λ a b. refl;
  pow_law = λ b n. refl;
  cmp_law = sign_of-difference;
  sgn_law = λ a. refl;
}

abbrev dec : ℤ → ℤ → Decimal
dec v s = record { value = v; scale = s }

decimals : Unit {0}
unfolding shift_decimal align_decimal decimal_check add sub mul div cmp fit_scale ◌+ℤ◌ ◌-ℤ◌ ◌*ℤ◌
    tdiv
decimals = tt

-- 1.5 + 0.25, 1.5 - 2, 1.5 * -0.25, -1.25 rounded and cut off at one place, 1 / 0.
decimal_runs :
    (add exact (dec (pos 15) (pos 1)) (dec (pos 25) (pos 2)) ≡ dec (pos 175) (pos 2))
    × (sub exact (dec (pos 15) (pos 1)) (dec (pos 2) (pos 0)) ≡ dec (negsuc 4) (pos 1))
    × (mul exact (dec (pos 15) (pos 1)) (dec (negsuc 24) (pos 2)) ≡ dec (negsuc 374) (pos 3))
    × (fit_scale exact true (pos 1) (dec (negsuc 124) (pos 2)) ≡ dec (negsuc 12) (pos 1))
    × (fit_scale exact false (pos 1) (dec (negsuc 124) (pos 2)) ≡ dec (negsuc 11) (pos 1))
    × (div exact (dec (pos 1) (pos 0)) (dec (pos 0) (pos 0))
        ≡ (dec (pos 1) decimal_nan, some ExceptionId.size_zero_divide))
unfolding decimals
decimal_runs = (refl, refl, refl, refl, refl, refl)

one_half : Denotes (dec (pos 15) (pos 1)) (pos 2) (pos 150)
unfolding decimals
one_half = record { finer = 1; scale_is = refl; units_are = refl }

minus_quarter : Denotes (dec (negsuc 24) (pos 2)) (pos 2) (negsuc 24)
unfolding decimals
minus_quarter = record { finer = 0; scale_is = refl; units_are = refl }

add-Denotes_example :
    Denotes
      (add exact (dec (pos 15) (pos 1)) (dec (negsuc 24) (pos 2)))
      (pos 2)
      (pos 150 +ℤ negsuc 24)
add-Denotes_example =
    add-Denotes exact (dec (pos 15) (pos 1)) (dec (negsuc 24) (pos 2)) (pos 2) (pos 150) (negsuc 24)
      one_half minus_quarter refl refl

mul-Denotes_example :
    (is_nan (mul exact (dec (pos 15) (pos 1)) (dec (negsuc 24) (pos 2))) ≡ false)
    × Denotes
        (mul exact (dec (pos 15) (pos 1)) (dec (negsuc 24) (pos 2)))
        (pos 2 +ℤ pos 2)
        (pos 150 *ℤ negsuc 24)
mul-Denotes_example =
    mul-Denotes exact (dec (pos 15) (pos 1)) (dec (negsuc 24) (pos 2)) (pos 2) (pos 2) (pos 150)
      (negsuc 24) refl refl (unfold ◌+ℤ◌ in refl) one_half minus_quarter

cmp-compare_ℤ_example :
    sign_of (cmp exact (dec (pos 15) (pos 1)) (dec (negsuc 24) (pos 2)))
    ≡ compare_ℤ (pos 150) (negsuc 24)
cmp-compare_ℤ_example =
    cmp-compare_ℤ exact (dec (pos 15) (pos 1)) (dec (negsuc 24) (pos 2)) (pos 2) (pos 150)
      (negsuc 24) one_half minus_quarter

div-IsQuotient_example :
    IsQuotient
      (dec (pos 15) (pos 1))
      (dec (negsuc 24) (pos 2))
      (div exact (dec (pos 15) (pos 1)) (dec (negsuc 24) (pos 2))).0
    × ((div exact (dec (pos 15) (pos 1)) (dec (negsuc 24) (pos 2))).1 ≡ none)
div-IsQuotient_example =
    div-IsQuotient exact (dec (pos 15) (pos 1)) (dec (negsuc 24) (pos 2)) refl refl (λ e. cc)
      (λ e. cc)

fit_scale-IsRounded_example :
    let r = fit_scale exact true (pos 1) (dec (negsuc 124) (pos 2)) in
    (r.scale ≡ pos 1) × IsRounded (negsuc 124) 10 r.value
unfolding ◌+ℤ◌
fit_scale-IsRounded_example = fit_scale-IsRounded exact (dec (negsuc 124) (pos 2)) (pos 1) 0 refl

fit_scale-IsTruncated_example :
    let r = fit_scale exact false (pos 1) (dec (negsuc 124) (pos 2)) in
    (r.scale ≡ pos 1) × IsTruncated (negsuc 124) 10 r.value
unfolding ◌+ℤ◌
fit_scale-IsTruncated_example =
    fit_scale-IsTruncated exact (dec (negsuc 124) (pos 2)) (pos 1) 0 refl

-- GMP's functions on unsigned numbers. The fields are PIC S9(2) and PIC S9(3) COMP-3.
abbrev exact_ui : GmpUi
exact_ui = record {
  mpz_set_ui = λ n. pos n;
  mpz_mul_ui = λ a n. pos (pos_part a * n);
  mpz_add_ui = λ a n. pos (pos_part a + n);
  mpz_neg = λ a. neg_ℤ a;
  set_law = λ n. refl;
  mul_law = λ k n. refl;
  add_law = λ k n. refl;
  neg_law = λ k. refl;
}

set_packed_two : set_packed exact_ui (signed_packed (0x04 ∷ 0x5c ∷ []) 2) ≡ dec (pos 45) (pos 0)
unfolding set_packed unsigned_value packed_value short_value packed_get_sign low_nibble
set_packed_two = refl

set_packed-digits_example :
    set_packed exact_ui (signed_packed (0x12 ∷ 0x3d ∷ []) 3)
    ≡ signed_decimal
        (signed_packed (0x12 ∷ 0x3d ∷ []) 3)
        (number_from 0 (packed_digits 3 (0x12 ∷ 0x3d ∷ [])))
set_packed-digits_example =
    set_packed-digits exact_ui (signed_packed (0x12 ∷ 0x3d ∷ []) 3) (omega arith) (omega arith)
      (omega arith, (omega arith, tt))
