-- ===== src/Base/Int.antt =====
-- Signed integers over the native numbers: C's `int` and `long long`, and GMP's `mpz_t`.
use native.Mathlib.Nat.{zero-div}
use blitzy_open_cobol.Base.Tests.{ltb, leb, lt→ltb, ◌==◌, if◌then◌else◌}
use native.Mathlib.Decide.{dec_lt}
use Prim.Native.Nat.{ℕ, suc, ◌+◌, ◌-◌, ◌*◌, ◌/◌, ◌≤◌, ◌<◌}
use mathlib.Core.Path.{◌≡◌, refl, ap, ◌∙◌}
use mathlib.Core.Bool.{Bool, true, false}
use native.Mathlib.Omega.{arith}

-- `negsuc n` is -(n + 1).
pub data ℤ : Type 0 where
  pos : ℕ → ℤ
  negsuc : ℕ → ℤ

abbrev pub pos_part : ℤ → ℕ
pos_part (pos n) = n
pos_part (negsuc n) = 0

abbrev pub neg_part : ℤ → ℕ
neg_part (pos n) = 0
neg_part (negsuc n) = suc n

-- a - b, as an integer.
abbrev pub sub_ℕ : ℕ → ℕ → ℤ
sub_ℕ a b = if leb b a then pos (a - b) else negsuc (b - a - 1)

infixl 65 ◌+ℤ◌ ◌-ℤ◌
infixl 70 ◌*ℤ◌
infix 50 ◌≤ℤ◌
unfoldable pub ◌+ℤ◌ : ℤ → ℤ → ℤ
a +ℤ b = sub_ℕ (pos_part a + pos_part b) (neg_part a + neg_part b)

unfoldable pub ◌-ℤ◌ : ℤ → ℤ → ℤ
a -ℤ b = sub_ℕ (pos_part a + neg_part b) (neg_part a + pos_part b)

unfoldable pub neg_ℤ : ℤ → ℤ
neg_ℤ a = sub_ℕ (neg_part a) (pos_part a)

unfoldable pub ◌*ℤ◌ : ℤ → ℤ → ℤ
a *ℤ b =
    sub_ℕ (pos_part a * pos_part b + neg_part a * neg_part b)
      (pos_part a * neg_part b + neg_part a * pos_part b)

-- |a|
abbrev pub abs : ℤ → ℕ
abs (pos n) = n
abs (negsuc n) = suc n

abbrev pub is_negative : ℤ → Bool
is_negative (pos n) = false
is_negative (negsuc n) = true

abbrev pub ◌≤ℤ◌ : ℤ → ℤ → Type 0
a ≤ℤ b = pos_part a + neg_part b ≤ pos_part b + neg_part a

abbrev pub ltb_ℤ : ℤ → ℤ → Bool
ltb_ℤ a b = ltb (pos_part a + neg_part b) (pos_part b + neg_part a)

abbrev pub ==_ℤ : ℤ → ℤ → Bool
==_ℤ a b = pos_part a + neg_part b == pos_part b + neg_part a

-- -1, 0 or 1 as `a` is less than, equal to or greater than `b`.
abbrev pub compare_ℤ : ℤ → ℤ → ℤ
compare_ℤ a b = if ltb_ℤ a b then negsuc 0 else if ltb_ℤ b a then pos 1 else pos 0

-- Division rounding towards zero.
unfoldable pub tdiv : ℤ → ℤ → ℤ
tdiv (pos a) (pos b) = pos (a / b)
tdiv (pos a) (negsuc b) = sub_ℕ 0 (a / suc b)
tdiv (negsuc a) (pos b) = sub_ℕ 0 (suc a / b)
tdiv (negsuc a) (negsuc b) = pos (suc a / suc b)

-- Division rounding towards zero, by a number: C's `/`.
abbrev pub tdiv_ℤ : ℤ → ℕ → ℤ
tdiv_ℤ (pos n) d = pos (n / d)
tdiv_ℤ (negsuc n) d = sub_ℕ 0 (suc n / d)

-- One lemma for each operation lets `omega` work with the operations shut.
pub +ℤ_parts :
    (a b : ℤ)
    → pos_part (a +ℤ b) + neg_part a + neg_part b ≡ neg_part (a +ℤ b) + pos_part a + pos_part b
unfolding ◌+ℤ◌
+ℤ_parts a b = ground arith

pub -ℤ_parts :
    (a b : ℤ)
    → pos_part (a -ℤ b) + neg_part a + pos_part b ≡ neg_part (a -ℤ b) + pos_part a + neg_part b
unfolding ◌-ℤ◌
-ℤ_parts a b = ground arith

pub neg_ℤ_parts : (a : ℤ) → (pos_part (neg_ℤ a) ≡ neg_part a) × (neg_part (neg_ℤ a) ≡ pos_part a)
unfolding neg_ℤ
neg_ℤ_parts a = ground arith

pub eq_of_parts : (a b : ℤ) → pos_part a + neg_part b ≡ pos_part b + neg_part a → a ≡ b
eq_of_parts a b h = ground arith

pub ruleset int_laws = (arith, +ℤ_parts, -ℤ_parts, neg_ℤ_parts, eq_of_parts)

pub mul_pos_parts :
    (a : ℤ) (p : ℕ)
    → (pos_part (a *ℤ pos p) ≡ pos_part a * p) × (neg_part (a *ℤ pos p) ≡ neg_part a * p)
unfolding ◌*ℤ◌
mul_pos_parts (pos n) p = ground arith
mul_pos_parts (negsuc n) p = ground arith

pub tdiv_parts :
    (a : ℤ) (p : ℕ)
    → (pos_part (tdiv a (pos p)) ≡ pos_part a / p) × (neg_part (tdiv a (pos p)) ≡ neg_part a / p)
unfolding tdiv
tdiv_parts (pos n) p = ground (arith, zero-div p)
tdiv_parts (negsuc n) p = ground (arith, zero-div p)

pub mul_parts :
    (a b : ℤ)
    → pos_part (a *ℤ b) + (pos_part a * neg_part b + neg_part a * pos_part b)
      ≡ neg_part (a *ℤ b) + (pos_part a * pos_part b + neg_part a * neg_part b)
unfolding ◌*ℤ◌
mul_parts a b = ground arith

pub *ℤ_comm : (a b : ℤ) → a *ℤ b ≡ b *ℤ a
*ℤ_comm a b = omega (int_laws, mul_parts a b, mul_parts b a)

pub mul_scaled : (a b : ℤ) (p : ℕ) → a *ℤ b *ℤ pos p ≡ a *ℤ (b *ℤ pos p)
mul_scaled a b p = eq_of_parts _ _ (
    omega (
      arith,
      mul_pos_parts (a *ℤ b) p,
      mul_parts a (b *ℤ pos p),
      ap (λ (t : ℕ). t * p) (mul_parts a b),
      ap (λ (t : ℕ). pos_part a * t) (mul_pos_parts b p).0,
      ap (λ (t : ℕ). pos_part a * t) (mul_pos_parts b p).1,
      ap (λ (t : ℕ). neg_part a * t) (mul_pos_parts b p).0,
      ap (λ (t : ℕ). neg_part a * t) (mul_pos_parts b p).1,
    ))

pub mul_both_scaled : (a b : ℤ) (p q : ℕ) → a *ℤ b *ℤ pos p *ℤ pos q ≡ a *ℤ pos p *ℤ (b *ℤ pos q)
mul_both_scaled a b p q =
    ap (λ (t : ℤ). t *ℤ pos q)
      (ap (λ (t : ℤ). t *ℤ pos p) (*ℤ_comm a b) ∙ mul_scaled b a p ∙ *ℤ_comm b (a *ℤ pos p))
    ∙ mul_scaled (a *ℤ pos p) b q

-- A positive factor on both sides.
pub add_scaled : (a b : ℤ) (p : ℕ) → (a +ℤ b) *ℤ pos p ≡ a *ℤ pos p +ℤ b *ℤ pos p
add_scaled a b p = omega (
  int_laws,
  mul_pos_parts (a +ℤ b) p,
  mul_pos_parts a p,
  mul_pos_parts b p,
  ap (λ (t : ℕ). t * p) (+ℤ_parts a b),
)

pub sub_scaled : (a b : ℤ) (p : ℕ) → (a -ℤ b) *ℤ pos p ≡ a *ℤ pos p -ℤ b *ℤ pos p
sub_scaled a b p = omega (
  int_laws,
  mul_pos_parts (a -ℤ b) p,
  mul_pos_parts a p,
  mul_pos_parts b p,
  ap (λ (t : ℕ). t * p) (-ℤ_parts a b),
)

ltb_scaled : (x y p : ℕ) → 0 < p → ltb (x * p) (y * p) ≡ ltb x y
ltb_scaled x y p h = elim (dec_lt x y) [
  | yes less ↦ rw (lt→ltb x y less) (lt→ltb (x * p) (y * p) (grind arith))
  | no not_less ↦
      let above : y * p ≤ x * p = grind arith in
      let left : ltb (x * p) (y * p) ≡ false = ground arith in
      let right : ltb x y ≡ false = ground arith in rw (left, right)
]

pub compare_scaled : (a b : ℤ) (p : ℕ) → 0 < p → compare_ℤ (a *ℤ pos p) (b *ℤ pos p) ≡ compare_ℤ a b
compare_scaled a b p h =
    let up : pos_part (a *ℤ pos p) + neg_part (b *ℤ pos p) ≡ (pos_part a + neg_part b) * p =
      omega (arith, mul_pos_parts a p, mul_pos_parts b p) in
    let down : pos_part (b *ℤ pos p) + neg_part (a *ℤ pos p) ≡ (pos_part b + neg_part a) * p =
      omega (arith, mul_pos_parts a p, mul_pos_parts b p) in
    simp (up, down, ltb_scaled _ _ p h)

mixed_signs : pos 3 -ℤ pos 10 *ℤ negsuc 1 ≡ pos 23
unfolding ◌-ℤ◌ ◌*ℤ◌
mixed_signs = refl
