-- ===== src/Decimal/Meaning.antt =====
-- What a decimal stands for.
use blitzy_open_cobol.Base.{
  ℕ, zero, suc, ◌+◌, ◌*◌, ◌^◌, ◌≡◌, ◌∙◌, refl, sym, ap, false, arith, Bool-cases, ◌==◌, lt→ltb,
  tests, inl, inr,
}
use blitzy_open_cobol.Base.Int.{
  ℤ, pos, negsuc, ◌+ℤ◌, ◌-ℤ◌, ◌*ℤ◌, ◌≤ℤ◌, ltb_ℤ, pos_part, neg_part, int_laws, mul_pos_parts,
}
use blitzy_open_cobol.Base.Digits.{pow_add}
use blitzy_open_cobol.Decimal.{Gmp, Decimal, shift_decimal, align_decimal}

-- `d` is `units` times the unit `10 ^ -scale`, at a scale not below its own.
pub record Denotes (d : Decimal) (scale units : ℤ) : Type 0 where
  pub finer : ℕ
  pub scale_is : d.scale +ℤ pos finer ≡ scale
  pub units_are : d.value *ℤ pos (10 ^ finer) ≡ units

pub scale_twice : (a : ℤ) (p q : ℕ) → a *ℤ pos p *ℤ pos q ≡ a *ℤ pos (p * q)
scale_twice a p q = omega (
  int_laws,
  mul_pos_parts (a *ℤ pos p) q,
  mul_pos_parts a (p * q),
  ap (λ (t : ℕ). t * q) (mul_pos_parts a p).0,
  ap (λ (t : ℕ). t * q) (mul_pos_parts a p).1,
)

times_one : (a : ℤ) → a *ℤ pos (10 ^ 0) ≡ a
times_one a = omega (int_laws, mul_pos_parts a 1)

pub plus_zero : (a : ℤ) → a +ℤ pos 0 ≡ a
plus_zero a = omega int_laws

pub nonneg : (z : ℤ) → pos 0 ≤ℤ z → z ≡ pos (pos_part z)
nonneg (pos n) h = refl
nonneg (negsuc n) h = absurd (omega arith)

pub scale_parts :
    (a b : ℤ) (n : ℕ) → a +ℤ pos n ≡ b → pos_part a + n + neg_part b ≡ pos_part b + neg_part a
scale_parts a b n e = omega (int_laws, ap pos_part e, ap neg_part e)

-- Two decimals of one scale, that stand for `u` and `v` units at scale `s`.
pub record BothDenote (p : Decimal × Decimal) (s u v : ℤ) : Type 0 where
  pub finer : ℕ
  pub same_scale : p.0.scale ≡ p.1.scale
  pub scale_is : p.0.scale +ℤ pos finer ≡ s
  pub first : p.0.value *ℤ pos (10 ^ finer) ≡ u
  pub second : p.1.value *ℤ pos (10 ^ finer) ≡ v

module _ (gmp : Gmp) where
  -- Shifting up is exact.
  pub shift_decimal-up :
      (d : Decimal) (n : ℕ)
      → shift_decimal gmp d (pos n)
        ≡ record { value = d.value *ℤ pos (10 ^ n); scale = d.scale +ℤ pos n }
  unfolding shift_decimal
  shift_decimal-up d zero =
      λ i. record { value = sym (times_one d.value) i; scale = sym (plus_zero d.scale) i }
  shift_decimal-up d (suc n) =
      let not_zero : (suc n + 0 == 0) ≡ false = ground arith in
      rw (not_zero, lt→ltb 0 (suc n + 0) (omega arith), gmp.pow_law 10 (suc n), gmp.mul_law)

  -- One decimal is shifted up to the scale `s'` of the other.
  shifted_up :
      (d : Decimal) (s' s u : ℤ) (finer : ℕ)
      → d.scale ≤ℤ s'
      → Denotes d s u
      → s' +ℤ pos finer ≡ s
      → ((shift_decimal gmp d (s' -ℤ d.scale)).scale ≡ s')
        × ((shift_decimal gmp d (s' -ℤ d.scale)).value *ℤ pos (10 ^ finer) ≡ u)
  shifted_up d s' s u finer below h e =
      let up : s' -ℤ d.scale ≡ pos (pos_part (s' -ℤ d.scale)) = nonneg _ (omega int_laws) in
      let width : pos_part (s' -ℤ d.scale) + finer ≡ h.finer = omega (
        int_laws,
        scale_parts d.scale s h.finer h.scale_is,
        scale_parts s' s finer e,
        ap neg_part up,
      ) in
      rw (up, shift_decimal-up d (pos_part (s' -ℤ d.scale)))
        (
          rw (← up) (omega int_laws),
          scale_twice _ _ _
              ∙ ap (λ (t : ℕ). d.value *ℤ pos t)
                  (sym (pow_add 10 _ finer) ∙ ap (λ (t : ℕ). 10 ^ t) width)
              ∙ h.units_are,
        )

  pub align_decimal-BothDenote :
      (d1 d2 : Decimal) (s u v : ℤ)
      → Denotes d1 s u
      → Denotes d2 s v
      → BothDenote (align_decimal gmp d1 d2) s u v
  unfolding align_decimal
  align_decimal-BothDenote d1 d2 s u v h k = elim (Bool-cases (ltb_ℤ d1.scale d2.scale)) [
    | inl less ↦
        let (a, b) = shifted_up d1 d2.scale s u k.finer (omega tests) h k.scale_is in
        rw less (record {
          finer = k.finer;
          same_scale = a;
          scale_is = ap (λ (z : ℤ). z +ℤ pos k.finer) a ∙ k.scale_is;
          first = b;
          second = k.units_are;
        })
    | inr not_less ↦ rw not_less (elim (Bool-cases (ltb_ℤ d2.scale d1.scale)) [
      | inl more ↦
          let (a, b) = shifted_up d2 d1.scale s v h.finer (omega tests) k h.scale_is in
          rw more (record {
            finer = h.finer;
            same_scale = sym a;
            scale_is = h.scale_is;
            first = h.units_are;
            second = b;
          })
      | inr not_more ↦
          let same : d1.scale ≡ d2.scale = ground arith in
          let finer : h.finer ≡ k.finer = omega (
            arith,
            scale_parts d1.scale s h.finer h.scale_is,
            scale_parts d2.scale s k.finer k.scale_is,
            ap pos_part same,
            ap neg_part same,
          ) in
          rw not_more (record {
            finer = h.finer;
            same_scale = same;
            scale_is = h.scale_is;
            first = h.units_are;
            second = rw finer k.units_are;
          })
    ])
  ]
