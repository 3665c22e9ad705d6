-- ===== src/Decimal/Arith.antt =====
-- `cob_decimal_add`, `cob_decimal_sub`, `cob_decimal_mul` and `cob_decimal_cmp` are exact.
use native.Mathlib.Nat.{one-le-pow}
use mathlib.Core.Path.{ap₂}
use blitzy_open_cobol.Base.{ℕ, ◌+◌, ◌^◌, ◌<◌, ◌≡◌, ◌∙◌, sym, ap, false, arith}
use blitzy_open_cobol.Base.Int.{
  ℤ, pos, ◌+ℤ◌, ◌-ℤ◌, ◌*ℤ◌, compare_ℤ, int_laws, add_scaled, sub_scaled, compare_scaled, ==_ℤ,
  mul_both_scaled,
}
use blitzy_open_cobol.Base.Digits.{pow_add}
use blitzy_open_cobol.Decimal.{
  Gmp, Decimal, is_nan, decimal_nan, sign_of, align_decimal, add, sub, mul, cmp,
}
use blitzy_open_cobol.Decimal.Meaning.{
  Denotes, BothDenote, align_decimal-BothDenote, scale_twice, scale_parts,
}

pub ten_pow_pos : (n : ℕ) → 0 < 10 ^ n
ten_pow_pos n = one-le-pow n 10 (omega arith)

module _ (gmp : Gmp) (d1 d2 : Decimal) (s u v : ℤ) (h : Denotes d1 s u) (k : Denotes d2 s v) where
  aligned : BothDenote (align_decimal gmp d1 d2) s u v
  aligned = align_decimal-BothDenote gmp d1 d2 s u v h k

  module _ (ok1 : is_nan d1 ≡ false) (ok2 : is_nan d2 ≡ false) where
    -- Neither being NaN, the sum of decimals that stand for `u` and `v` units stands for `u + v`: the
    -- scales are aligned without losing a digit.
    pub add-Denotes : Denotes (add gmp d1 d2) s (u +ℤ v)
    unfolding add
    add-Denotes =
        rw (ok1, ok2)
          (record {
            finer = aligned.finer;
            scale_is = aligned.scale_is;
            units_are =
                ap (λ (z : ℤ). z *ℤ pos (10 ^ aligned.finer)) (gmp.add_law _ _)
                ∙ add_scaled _ _ (10 ^ aligned.finer)
                ∙ ap₂ ◌+ℤ◌ aligned.first aligned.second;
          })

    -- Neither being NaN, the difference of decimals that stand for `u` and `v` units stands for
    -- `u - v`.
    pub sub-Denotes : Denotes (sub gmp d1 d2) s (u -ℤ v)
    unfolding sub
    sub-Denotes =
        rw (ok1, ok2)
          (record {
            finer = aligned.finer;
            scale_is = aligned.scale_is;
            units_are =
                ap (λ (z : ℤ). z *ℤ pos (10 ^ aligned.finer)) (gmp.sub_law _ _)
                ∙ sub_scaled _ _ (10 ^ aligned.finer)
                ∙ ap₂ ◌-ℤ◌ aligned.first aligned.second;
          })

  -- The comparison of two decimals has the sign of the comparison of the numbers that they stand for.
  pub cmp-compare_ℤ : sign_of (cmp gmp d1 d2) ≡ compare_ℤ u v
  unfolding cmp
  cmp-compare_ℤ =
      gmp.cmp_law _ _
      ∙ sym (compare_scaled _ _ (10 ^ aligned.finer) (ten_pow_pos aligned.finer))
      ∙ ap₂ compare_ℤ aligned.first aligned.second

-- Neither being NaN, and the scales not adding up to -128, the scale of NaN: the product of decimals
-- that stand for `u` and `v` units at scales `s` and `t` is not NaN and stands for `u * v` units at
-- scale `s + t`.
pub mul-Denotes :
    (gmp : Gmp) (d1 d2 : Decimal) (s t u v : ℤ)
    → is_nan d1 ≡ false
    → is_nan d2 ≡ false
    → ==_ℤ (d1.scale +ℤ d2.scale) decimal_nan ≡ false
    → Denotes d1 s u
    → Denotes d2 t v
    → (is_nan (mul gmp d1 d2) ≡ false) × Denotes (mul gmp d1 d2) (s +ℤ t) (u *ℤ v)
unfolding mul
mul-Denotes gmp d1 d2 s t u v ok1 ok2 ok h k =
    rw (ok1, ok2)
      (
        ok,
        record {
          finer = h.finer + k.finer;
          scale_is = omega (
            int_laws,
            scale_parts d1.scale s h.finer h.scale_is,
            scale_parts d2.scale t k.finer k.scale_is,
          );
          units_are =
              ap (λ (z : ℤ). z *ℤ pos (10 ^ (h.finer + k.finer))) (gmp.mul_law _ _)
              ∙ ap (λ (p : ℕ). d1.value *ℤ d2.value *ℤ pos p) (pow_add 10 h.finer k.finer)
              ∙ sym (scale_twice _ (10 ^ h.finer) (10 ^ k.finer))
              ∙ mul_both_scaled d1.value d2.value (10 ^ h.finer) (10 ^ k.finer)
              ∙ ap₂ ◌*ℤ◌ h.units_are k.units_are;
        },
      )
