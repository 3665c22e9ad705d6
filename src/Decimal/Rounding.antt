-- ===== src/Decimal/Rounding.antt =====
-- Fitting a decimal to the scale of a receiving field: the middle of `cob_decimal_get_field`.
use native.Mathlib.Nat.{div-add-mod', mod-lt, div-one, zero-div, pow-suc}
use blitzy_open_cobol.Base.{
  ℕ, zero, suc, ◌+◌, ◌*◌, ◌/◌, ◌%◌, ◌^◌, ◌≤◌, ◌<◌, ◌≡◌, ◌≢◌, refl, sym, ap, true, false, arith,
  if◌then◌else◌, ltb, ◌&&◌, ◌==◌, lt→ltb, Bool-cases, inl, inr,
}
use blitzy_open_cobol.Base.Int.{
  ℤ, pos, negsuc, ◌+ℤ◌, ◌-ℤ◌, ==_ℤ, ltb_ℤ, abs, is_negative, tdiv, sub_ℕ, pos_part, neg_part,
  int_laws, tdiv_parts,
}
use blitzy_open_cobol.Base.Division.{abs-tdiv, negative_tdiv}
use blitzy_open_cobol.Decimal.{Gmp, Decimal, sign_of, shift_decimal, fit_scale}
use blitzy_open_cobol.Decimal.Arith.{ten_pow_pos}
use blitzy_open_cobol.Decimal.Meaning.{scale_parts, plus_zero}

-- `r` is `v / unit` rounded to the nearest number, a half away from zero.
pub record IsRounded (v : ℤ) (unit : ℕ) (r : ℤ) : Type 0 where
  pub half_up : abs r * unit * 2 ≤ abs v * 2 + unit
  pub half_below : abs v * 2 < abs r * unit * 2 + unit
  pub sign : is_negative r ≡ (ltb 0 (abs r) && is_negative v)

-- `r` is `v / unit` cut off towards zero.
pub record IsTruncated (v : ℤ) (unit : ℕ) (r : ℤ) : Type 0 where
  pub not_more : abs r * unit ≤ abs v
  pub close : abs v < abs r * unit + unit
  pub sign : is_negative r ≡ (ltb 0 (abs r) && is_negative v)

-- The two divisions of the rounding: by all but the last digit, and by ten after adding five.
five_more :
    (a p : ℕ)
    → 0 < p
    → ((a / p + 5) / 10 * (p * 10) * 2 ≤ a * 2 + p * 10)
      × (a * 2 < (a / p + 5) / 10 * (p * 10) * 2 + p * 10)
five_more a p h =
    let w : ℕ = a / p in
    let u : ℕ = (w + 5) % 10 in
    let split : (w + 5) * p ≡ ((w + 5) / 10 * 10 + u) * p = ap (λ (t : ℕ). t * p) (omega arith) in
    let small : u * p ≤ 9 * p = grind arith in
    (
      omega (arith, split, small, div-add-mod' a p, mod-lt a h),
      omega (arith, split, small, div-add-mod' a p, mod-lt a h),
    )

digit_after : (a p : ℕ) → 0 < p → (a / p * p ≤ a) × (a < a / p * p + p)
digit_after a p h = omega (arith, div-add-mod' a p, mod-lt a h)

tdiv-IsTruncated : (v : ℤ) (p : ℕ) → 0 < p → IsTruncated v p (tdiv v (pos p))
tdiv-IsTruncated v p h = record {
  not_more = rw (abs-tdiv v (pos p)) (digit_after (abs v) p h).0;
  close = rw (abs-tdiv v (pos p)) (digit_after (abs v) p h).1;
  sign = negative_tdiv v (pos p);
}

-- Five is added away from zero to the number cut off at one digit more, and that digit cut off.
abbrev pub round_last : ℤ → ℕ → ℤ
round_last v p =
    let near = tdiv v (pos p) in
    tdiv (if ltb_ℤ (pos 0) (sign_of v) then near +ℤ pos 5 else near -ℤ pos 5) (pos 10)

round_pos : (a p : ℕ) → round_last (pos (suc a)) p ≡ pos ((suc a / p + 5) / 10)
unfolding tdiv ◌+ℤ◌
round_pos a p = ground arith

round_neg : (a p : ℕ) → round_last (negsuc a) p ≡ sub_ℕ 0 ((suc a / p + 5) / 10)
unfolding tdiv ◌-ℤ◌
round_neg a p = ground arith

abs_sub : (n : ℕ) → abs (sub_ℕ 0 n) ≡ n
abs_sub n = ground arith

round_last-IsRounded : (v : ℤ) (p : ℕ) → 0 < p → v ≢ pos 0 → IsRounded v (p * 10) (round_last v p)
round_last-IsRounded (pos zero) p h nonzero = absurd (nonzero refl)
round_last-IsRounded (pos (suc a)) p h nonzero = rw (round_pos a p) (record {
  half_up = (five_more (suc a) p h).0;
  half_below = (five_more (suc a) p h).1;
  sign = ground arith;
})
round_last-IsRounded (negsuc a) p h nonzero = rw (round_neg a p) (record {
  half_up = rw (abs_sub ((suc a / p + 5) / 10)) (five_more (suc a) p h).0;
  half_below = rw (abs_sub ((suc a / p + 5) / 10)) (five_more (suc a) p h).1;
  sign = ground arith;
})

nonpositive : (z : ℤ) (n : ℕ) → pos_part z + n ≡ neg_part z → (pos_part z ≡ 0) × (neg_part z ≡ n)
nonpositive (pos k) n e = omega arith
nonpositive (negsuc k) n e = omega arith

sgn_zero : (z : ℤ) → ==_ℤ (sign_of z) (pos 0) ≡ true → z ≡ pos 0
sgn_zero (pos zero) h = refl
sgn_zero (pos (suc n)) h = ground arith
sgn_zero (negsuc n) h = ground arith

sgn_nonzero : (z : ℤ) → ==_ℤ (sign_of z) (pos 0) ≡ false → z ≢ pos 0
sgn_nonzero (pos zero) h e = cc
sgn_nonzero (pos (suc n)) h e = cc
sgn_nonzero (negsuc n) h e = cc

zero-IsRounded : (p : ℕ) → 0 < p → IsRounded (pos 0) (p * 10) (tdiv (pos 0) (pos (p * 10)))
unfolding tdiv
zero-IsRounded p h =
    rw (zero-div (p * 10)) (record { half_up = omega arith; half_below = omega arith; sign = refl })

module _ (gmp : Gmp) where
  tdiv_one : (v : ℤ) → v ≡ tdiv v (pos (10 ^ 0))
  tdiv_one v = omega (int_laws, tdiv_parts v 1, div-one (pos_part v), div-one (neg_part v))

  -- Shifting down by `n` digits cuts them off.
  shift_decimal-down :
      (d : Decimal) (z : ℤ) (n : ℕ)
      → pos_part z ≡ 0
      → neg_part z ≡ n
      → shift_decimal gmp d z ≡ record { value = tdiv d.value (pos (10 ^ n)); scale = d.scale +ℤ z }
  unfolding shift_decimal
  shift_decimal-down d (pos zero) n e e' =
      rw (← e') (λ i. record { value = tdiv_one d.value i; scale = sym (plus_zero d.scale) i })
  shift_decimal-down d (pos (suc k)) n e e' = absurd (omega arith)
  shift_decimal-down d (negsuc k) n e e' =
      let not_zero : (0 == 0 + suc k) ≡ false = ground arith in
      let not_up : ltb (0 + suc k) 0 ≡ false = ground arith in
      rw (not_zero, not_up, gmp.pow_law 10 (suc k), gmp.tdiv_law, ← e')

  module _ (d : Decimal) (scale : ℤ) (n : ℕ) (more : scale +ℤ pos (suc n) ≡ d.scale) where
    lower : ltb_ℤ scale d.scale ≡ true
    lower = lt→ltb _ _ (omega (arith, scale_parts scale d.scale (suc n) more))

    near_z : (pos_part (scale -ℤ d.scale +ℤ pos 1) ≡ 0) × (neg_part (scale -ℤ d.scale +ℤ pos 1) ≡ n)
    near_z = nonpositive _ n (omega (int_laws, scale_parts scale d.scale (suc n) more))

    all_z : (pos_part (scale -ℤ d.scale) ≡ 0) × (neg_part (scale -ℤ d.scale) ≡ suc n)
    all_z = nonpositive _ (suc n) (omega (int_laws, scale_parts scale d.scale (suc n) more))

    -- Without COB_STORE_ROUND, a decimal with more digits behind the point than the field is brought
    -- to the scale of the field by cutting off towards zero.
    pub fit_scale-IsTruncated :
        let r = fit_scale gmp false scale d in
        (r.scale ≡ scale) × IsTruncated d.value (10 ^ suc n) r.value
    unfolding fit_scale
    fit_scale-IsTruncated =
        rw (shift_decimal-down d (scale -ℤ d.scale) (suc n) all_z.0 all_z.1)
          (omega int_laws, tdiv-IsTruncated d.value (10 ^ suc n) (ten_pow_pos (suc n)))

    last_z :
        (pos_part (scale -ℤ (d.scale +ℤ (scale -ℤ d.scale +ℤ pos 1))) ≡ 0)
        × (neg_part (scale -ℤ (d.scale +ℤ (scale -ℤ d.scale +ℤ pos 1))) ≡ 1)
    last_z = nonpositive _ 1 (omega int_laws)

    rounded-eq :
        ==_ℤ (sign_of d.value) (pos 0) ≡ false
        → fit_scale gmp true scale d ≡ record {
          value = round_last d.value (10 ^ n);
          scale =
              d.scale
              +ℤ (scale -ℤ d.scale +ℤ pos 1)
              +ℤ (scale -ℤ (d.scale +ℤ (scale -ℤ d.scale +ℤ pos 1)));
        }
    unfolding fit_scale
    rounded-eq nonzero =
        let near = shift_decimal-down d (scale -ℤ d.scale +ℤ pos 1) n near_z.0 near_z.1 in
        elim (Bool-cases (ltb_ℤ (pos 0) (sign_of d.value))) [
          | inl up ↦
              simp (gmp.sgn_law, lower, nonzero, up, near, gmp.add_law)
                (shift_decimal-down _ _ 1 last_z.0 last_z.1)
          | inr down ↦
              simp (gmp.sgn_law, lower, nonzero, down, near, gmp.sub_law)
                (shift_decimal-down _ _ 1 last_z.0 last_z.1)
        ]

    -- With COB_STORE_ROUND, a decimal with more digits behind the point than the field is brought to
    -- the scale of the field by rounding to the nearest number, a half away from zero.
    pub fit_scale-IsRounded :
        let r = fit_scale gmp true scale d in
        (r.scale ≡ scale) × IsRounded d.value (10 ^ suc n) r.value
    unfolding fit_scale
    fit_scale-IsRounded = elim (Bool-cases (==_ℤ (sign_of d.value) (pos 0))) [
      | inl zero_value ↦
          simp (gmp.sgn_law, lower, zero_value, shift_decimal-down d _ (suc n) all_z.0 all_z.1)
            (
              omega int_laws,
              rw (sgn_zero d.value zero_value, pow-suc 10 n)
                  (zero-IsRounded (10 ^ n) (ten_pow_pos n)),
            )
      | inr nonzero ↦ rw (rounded-eq nonzero) (
        omega int_laws,
        rw (pow-suc 10 n)
            (round_last-IsRounded d.value (10 ^ n) (ten_pow_pos n) (sgn_nonzero d.value nonzero)),
      )
    ]
