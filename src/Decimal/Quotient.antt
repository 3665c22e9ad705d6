-- ===== src/Decimal/Quotient.antt =====
-- `cob_decimal_div`.
use native.Mathlib.Nat.{mod-lt, div-add-mod', suc-mul}
use blitzy_open_cobol.Base.{
  ℕ, zero, suc, ◌+◌, ◌*◌, ◌%◌, ◌^◌, ◌≤◌, ◌<◌, ◌≡◌, ◌∙◌, ◌≢◌, refl, sym, ap, Bool, false, arith,
  none, some, if◌then◌else◌, not, ltb, ◌&&◌,
}
use blitzy_open_cobol.Base.Int.{
  ℤ, pos, negsuc, ◌+ℤ◌, ◌-ℤ◌, ◌*ℤ◌, ◌≤ℤ◌, ==_ℤ, abs, is_negative, tdiv, neg_part, int_laws,
}
use blitzy_open_cobol.Base.Division.{quotient_negative, abs-tdiv, negative_tdiv}
use blitzy_open_cobol.Field.{ExceptionId}
use blitzy_open_cobol.Decimal.{Gmp, Decimal, is_nan, decimal_nan, sign_of, div}
use blitzy_open_cobol.Decimal.Arith.{ten_pow_pos}
use blitzy_open_cobol.Decimal.Meaning.{shift_decimal-up}

-- `r` is the quotient of `a` by `b` cut off towards zero, with `more` digits appended to `a`.
pub record IsQuotient (a b r : Decimal) : Type 0 where
  pub more : ℕ
  pub rest : ℕ
  pub at_least : 37 ≤ more
  pub scale_is : r.scale +ℤ b.scale ≡ a.scale +ℤ pos more
  pub not_negative : pos 0 ≤ℤ r.scale
  pub divides : abs a.value * 10 ^ more ≡ abs r.value * abs b.value + rest
  pub below : rest < abs b.value
  pub sign : is_negative r.value ≡ (ltb 0 (abs r.value) && quotient_negative a.value b.value)

abs_mul : (a : ℤ) (p : ℕ) → abs (a *ℤ pos p) ≡ abs a * p
unfolding ◌*ℤ◌
abs_mul (pos n) p = ground arith
abs_mul (negsuc n) p = ground arith

negative_mul : (a : ℤ) (p : ℕ) → 0 < p → is_negative (a *ℤ pos p) ≡ is_negative a
unfolding ◌*ℤ◌
negative_mul (pos n) p h = ground arith
negative_mul (negsuc n) p h = ground (arith, suc-mul n p)

abs_pos : (b : ℤ) → b ≢ pos 0 → 0 < abs b
abs_pos (pos zero) h = absurd (h refl)
abs_pos (pos (suc n)) h = omega arith
abs_pos (negsuc n) h = omega arith

sgn_nonzero : (z : ℤ) → z ≢ pos 0 → ==_ℤ (sign_of z) (pos 0) ≡ false
sgn_nonzero (pos zero) h = absurd (h refl)
sgn_nonzero (pos (suc n)) h = ground arith
sgn_nonzero (negsuc n) h = ground arith

module _ (gmp : Gmp) (d1 d2 : Decimal) (ok1 : is_nan d1 ≡ false) (ok2 : is_nan d2 ≡ false) where
  -- A division by zero is the exception COB_EC_SIZE_ZERO_DIVIDE, and the result is NaN.
  div_by_zero :
      d2.value ≡ pos 0
      → div gmp d1 d2 ≡ (record d1 { scale = decimal_nan }, some ExceptionId.size_zero_divide)
  unfolding div
  div_by_zero zero2 = simp (ok1, ok2, gmp.sgn_law, zero2)

  module _ (nonzero2 : d2.value ≢ pos 0) where
    zero_div : d1.value ≡ pos 0 → div gmp d1 d2 ≡ (record d1 { scale = pos 0 }, none)
    unfolding div
    zero_div zero1 = simp (ok1, ok2, gmp.sgn_law, sgn_nonzero d2.value nonzero2, zero1)

    -- Neither operand being NaN or zero, the quotient has at least 37 digits more than the operands,
    -- is cut off towards zero, has the sign of the exact quotient unless it is zero, and has a scale
    -- that is not negative; no exception is set.
    pub div-IsQuotient :
        d1.value ≢ pos 0 → IsQuotient d1 d2 (div gmp d1 d2).0 × ((div gmp d1 d2).1 ≡ none)
    unfolding div
    div-IsQuotient nonzero1 =
        simp
          (
            ok1,
            ok2,
            gmp.sgn_law,
            sgn_nonzero d2.value nonzero2,
            sgn_nonzero d1.value nonzero1,
            shift_decimal-up,
            gmp.tdiv_law,
          )
          (
            record {
              more = 37 + neg_part (d1.scale -ℤ d2.scale);
              rest = abs shifted % abs d2.value;
              at_least = omega arith;
              scale_is = omega int_laws;
              not_negative = omega int_laws;
              divides =
                  sym (abs_mul d1.value _)
                  ∙ sym (div-add-mod' (abs shifted) (abs d2.value))
                  ∙ ap (λ (t : ℕ). t * abs d2.value + abs shifted % abs d2.value)
                      (sym (abs-tdiv shifted d2.value));
              below = mod-lt (abs shifted) (abs_pos d2.value nonzero2);
              sign =
                  negative_tdiv shifted d2.value
                  ∙ ap
                      (λ (t : Bool).
                        ltb 0 (abs (tdiv shifted d2.value))
                        && (if is_negative d2.value then not t else t))
                      (negative_mul d1.value _ (ten_pow_pos _));
            },
            refl,
          )
      where
        shifted : ℤ
        shifted = d1.value *ℤ pos (10 ^ (37 + neg_part (d1.scale -ℤ d2.scale)))
