-- ===== src/Display/WholeField.antt =====
-- `cob_display_add_int` on a whole field: from the number that the field shows to the number that it
-- shows afterwards.
use native.Mathlib.Nat.{pow-suc, one-le-pow}
use blitzy_open_cobol.Base.{
  ℕ, zero, suc, ◌+◌, ◌*◌, ◌^◌, ◌≤◌, ◌<◌, lt→ltb, some, ◌≡◌, ◌∙◌, refl, sym, ap, Bool, true, false,
  arith, if◌then◌else◌, Bool-cases, inl, inr, length, none, drop, length-take, length-drop,
}
use blitzy_open_cobol.Base.Int.{
  ℤ, pos, negsuc, ◌+ℤ◌, ◌*ℤ◌, neg_ℤ, abs, is_negative, ltb_ℤ, pos_part, neg_part, int_laws,
  neg_ℤ_parts, mul_pos_parts,
}
use blitzy_open_cobol.Base.Digits.{value}
use blitzy_open_cobol.Field.{
  Attr, Field, Module, field_size, data_offset, digit_bytes, put_digit_bytes,
}
use blitzy_open_cobol.Field.Sign.{get_sign, put_sign}
use blitzy_open_cobol.Field.Sign.Reads.{Reads, get_sign-Reads}
use blitzy_open_cobol.Field.Sign.RoundTrip.{IsSign}
use blitzy_open_cobol.Display.{
  times_ten, scaled, Sum, add_signed, add_scaled, display_add_int_field,
}
use blitzy_open_cobol.Display.Signed.{Spells}
use blitzy_open_cobol.Display.Magnitude.{add_exact}
use blitzy_open_cobol.Display.Shown.{signed, shown, IsSigned, shown_after}

ten_more : (k a : ℕ) → a * 10 * 10 ^ k ≡ a * 10 ^ suc k
ten_more k a = omega (arith, ap (λ (t : ℕ). a * t) (pow-suc 10 k))

mul_pow_suc : (k : ℕ) (n : ℤ) → n *ℤ pos 10 *ℤ pos (10 ^ k) ≡ n *ℤ pos (10 ^ suc k)
mul_pow_suc k n =
    let (p, q) = mul_pos_parts n 10 in
    omega (
      int_laws,
      mul_pos_parts n (10 ^ suc k),
      mul_pos_parts (n *ℤ pos 10) (10 ^ k),
      ap (λ (t : ℕ). t * 10 ^ k) p ∙ ten_more k (pos_part n),
      ap (λ (t : ℕ). t * 10 ^ k) q ∙ ten_more k (neg_part n),
    )

abs-parts : (n : ℤ) → abs n ≡ pos_part n + neg_part n
abs-parts (pos n) = omega arith
abs-parts (negsuc n) = omega arith

abs-ten : (n : ℤ) → abs (n *ℤ pos 10) ≡ abs n * 10
abs-ten n = omega (int_laws, abs-parts n, abs-parts (n *ℤ pos 10), mul_pos_parts n 10)

le_mul_pos : (a p : ℕ) → 0 < p → a ≤ a * p
le_mul_pos a zero h = absurd (omega arith)
le_mul_pos a (suc q) h = omega arith

-- Within the long long no step of the loop overflows.
times_ten-mul : (k : ℕ) (n : ℤ) → abs n * 10 ^ k < 2 ^ 63 → times_ten k n ≡ some (n *ℤ pos (10 ^ k))
unfolding times_ten
times_ten-mul zero n h = ap (λ (t : ℤ). some t) (omega (int_laws, mul_pos_parts n 1))
times_ten-mul (suc k) n h =
    let least : abs n * 10 ≤ abs n * 10 ^ suc k = omega (
      arith,
      ten_more k (abs n),
      le_mul_pos (abs n * 10) (10 ^ k) (one-le-pow k 10 (omega arith)),
    ) in
    rw (lt→ltb (abs (n *ℤ pos 10)) (2 ^ 63) (omega (arith, abs-ten n, h, least))) (
      times_ten-mul k (n *ℤ pos 10)
        (omega (arith, ap (λ (t : ℕ). t * 10 ^ k) (abs-ten n) ∙ ten_more k (abs n), h))
      ∙ ap (λ (t : ℤ). some t) (mul_pow_suc k n))

signed-abs : (t : ℤ) → signed (if is_negative t then neg_ℤ (pos 1) else pos 1) (abs t) ≡ t
unfolding neg_ℤ
signed-abs (pos n) = refl
signed-abs (negsuc n) = ground arith

signed_neg :
    (t : ℤ) → signed (if is_negative t then neg_ℤ (negsuc 0) else negsuc 0) (abs t) ≡ neg_ℤ t
unfolding neg_ℤ
signed_neg (pos n) = refl
signed_neg (negsuc n) = ground arith

-- Adding on the side of the field's sign, and putting the sign back.
turned_sum :
    (s n : ℤ) (v : ℕ)
    → IsSign s
    → let total = pos v +ℤ (if ltb_ℤ s (pos 0) then neg_ℤ n else n) in
      signed (if is_negative total then neg_ℤ s else s) (abs total) ≡ signed s v +ℤ n
turned_sum s n v (inl e) = rw e (signed-abs (pos v +ℤ n))
turned_sum s n v (inr e) = rw e (signed_neg (pos v +ℤ neg_ℤ n) ∙ omega int_laws)

abs-signed : (s : ℤ) (v : ℕ) → abs (signed s v) ≡ v
unfolding neg_ℤ
abs-signed (pos n) v = refl
abs-signed (negsuc n) v = ground arith

IsSign-turned : (s : ℤ) (b : Bool) → IsSign s → IsSign (if b then neg_ℤ s else s)
unfolding neg_ℤ
IsSign-turned s true h = ground arith
IsSign-turned s false h = h

module _ (m : Module) (f : Field) (n : ℤ) (k : ℕ) (h : IsSigned m f)
    (scale : f.attr.scale ≡ pos k) where
  sign : ℤ
  sign = (get_sign m f).0

  g : Field
  g = (get_sign m f).1

  amount : ℤ
  amount = (if ltb_ℤ sign (pos 0) then neg_ℤ n else n) *ℤ pos (10 ^ k)

  total : ℤ
  total = pos (value (digit_bytes g)) +ℤ amount

  turned : ℤ
  turned = if is_negative total then neg_ℤ sign else sign

  reads : Reads m f
  reads = get_sign-Reads m f h.display h.have

  amount-eq : amount ≡ (if ltb_ℤ sign (pos 0) then neg_ℤ (n *ℤ pos (10 ^ k)) else n *ℤ pos (10 ^ k))
  unfolding amount
  amount-eq = elim (Bool-cases (ltb_ℤ sign (pos 0))) [
    | inl less ↦ rw less (
        omega (
          int_laws,
          mul_pos_parts (neg_ℤ n) (10 ^ k),
          mul_pos_parts n (10 ^ k),
          ap (λ (t : ℕ). t * 10 ^ k) (neg_ℤ_parts n).0,
          ap (λ (t : ℕ). t * 10 ^ k) (neg_ℤ_parts n).1,
        ))
    | inr not_less ↦ rw not_less refl
  ]

  abs_turned : abs (if ltb_ℤ sign (pos 0) then neg_ℤ n else n) ≡ abs n
  abs_turned = elim (Bool-cases (ltb_ℤ sign (pos 0))) [
    | inl less ↦ rw less (omega (int_laws, abs-parts n, abs-parts (neg_ℤ n), neg_ℤ_parts n))
    | inr not_less ↦ rw not_less refl
  ]

  scaled-amount :
      abs n * 10 ^ k < 2 ^ 63
      → scaled f.attr.scale (if ltb_ℤ sign (pos 0) then neg_ℤ n else n) ≡ some amount
  unfolding scaled amount
  scaled-amount small = rw scale (times_ten-mul k _ (rw abs_turned small))

  turned-total : signed turned (abs total) ≡ shown m f +ℤ n *ℤ pos (10 ^ k)
  unfolding turned total sign g shown
  turned-total = rw amount-eq (turned_sum (get_sign m f).0 (n *ℤ pos (10 ^ k)) _ reads.sign)

  length-digits : length (digit_bytes g) ≡ field_size f
  unfolding g
  length-digits = ground (
    arith,
    reads.same_attr,
    reads.same_size,
    length-take (field_size g) (drop (data_offset g) g.data_bytes),
    length-drop (data_offset g) g.data_bytes,
  )

  same_digits : field_size g ≡ field_size f
  unfolding g
  same_digits = ground (arith, reads.same_attr, reads.same_size)

  abs-total : abs total ≡ abs (shown m f +ℤ n *ℤ pos (10 ^ k))
  abs-total = sym (abs-signed turned (abs total)) ∙ ap abs turned-total

  turned-IsSign : IsSign turned
  unfolding turned sign
  turned-IsSign = IsSign-turned (get_sign m f).0 (is_negative total) reads.sign

  sum : Sum
  sum = add_signed m (digit_bytes g) sign amount

  -- What is stored where the result fits.
  sum_fits :
      abs (shown m f +ℤ n *ℤ pos (10 ^ k)) < 10 ^ field_size f
      → (sum.overflow ≡ false) × Spells (digit_bytes g) (abs total) sum.digits × (sum.sign ≡ turned)
  unfolding sum turned total g sign
  sum_fits fits =
      add_exact m (digit_bytes g) h.digits sign amount (rw (abs-total, length-digits) fits)

  stored : Field
  stored = put_sign m (put_digit_bytes g sum.digits) sum.sign

  added :
      abs n * 10 ^ k < 2 ^ 63
      → abs (shown m f +ℤ n *ℤ pos (10 ^ k)) < 10 ^ field_size f
      → display_add_int_field m f n ≡ some (stored, none)
  unfolding display_add_int_field add_scaled stored sum g sign
  added small fits = rw (scaled-amount small, (sum_fits fits).0) refl

  shown-stored :
      abs (shown m f +ℤ n *ℤ pos (10 ^ k)) < 10 ^ field_size f
      → shown m stored ≡ shown m f +ℤ n *ℤ pos (10 ^ k)
  unfolding stored g
  shown-stored fits =
      let (kept, spelt, s) = sum_fits fits in
      shown_after m g sum.digits sum.sign (ap (λ (a : Attr). a.kind) reads.same_attr ∙ h.display)
        (ap (λ (a : Attr). a.have_sign) reads.same_attr ∙ h.have) (rw same_digits h.room_for_digit)
        (spelt.same_length ∙ length-digits ∙ sym same_digits) spelt.digits (rw s turned-IsSign)
      ∙ rw (s, spelt.spells) turned-total

  -- Adding `n` to a signed DISPLAY field with `k` decimal places adds it to the number that the field
  -- shows, and no size error is raised, whenever the digits of the result fit the field and `n`, in
  -- units of the field's last digit, is within the range of a long long.
  pub shown-display_add_int_field :
      abs n * 10 ^ k < 2 ^ 63
      → abs (shown m f +ℤ n *ℤ pos (10 ^ k)) < 10 ^ field_size f
      → (g : Field) × (display_add_int_field m f n ≡ some (g, none))
        × (shown m g ≡ shown m f +ℤ n *ℤ pos (10 ^ k))
  shown-display_add_int_field small fits = (stored, added small fits, shown-stored fits)
