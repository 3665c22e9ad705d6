-- ===== src/Display/Shown.antt =====
-- The number that a DISPLAY field shows, and what it shows once digits and a sign are written.
use blitzy_open_cobol.Base.{
  ℕ, zero, suc, ◌+◌, ◌≤◌, ◌<◌, ◌≡◌, ◌∙◌, refl, ap, true, false, arith, List, [], ◌∷◌, ◌++◌,
  if◌then◌else◌, length, take, drop, get_or, length-append, length-take, length-drop,
}
use blitzy_open_cobol.Base.Int.{ℤ, pos, neg_ℤ, is_negative}
use blitzy_open_cobol.Base.Digits.{IsDigit, IsDigits, value}
use blitzy_open_cobol.Field.{
  Field, FieldType, Module, size, field_size, data_offset, digit_bytes, put_digit_bytes,
}
use blitzy_open_cobol.Field.Sign.{get_sign, put_sign, sign_index}
use blitzy_open_cobol.Field.Sign.RoundTrip.{IsSign, get_sign-put_sign}

-- `n` with a sign put on it.
abbrev pub signed : ℤ → ℕ → ℤ
signed sign v = if is_negative sign then neg_ℤ (pos v) else pos v

-- The number that a DISPLAY field shows, in units of its last digit.
unfoldable pub shown : Module → Field → ℤ
shown m f = signed (get_sign m f).0 (value (digit_bytes (get_sign m f).1))

-- A signed DISPLAY field with at least one digit, whose bytes are digits once the sign is off.
pub record IsSigned (m : Module) (f : Field) : Type 0 where
  pub display : f.attr.kind ≡ FieldType.numeric_display
  pub have : f.attr.have_sign ≡ true
  pub room_for_digit : 0 < field_size f
  pub digits : IsDigits (digit_bytes (get_sign m f).1)

drop-take : (o : ℕ) (d y : List ℕ) → o ≤ length d → drop o (take o d ++ y) ≡ y
drop-take zero d y h = refl
drop-take (suc o) [] y h = absurd (omega arith)
drop-take (suc o) (x ∷ d) y h = drop-take o d y (omega arith)

take-append : (xs ys : List ℕ) → take (length xs) (xs ++ ys) ≡ xs
take-append [] ys = refl
take-append (x ∷ xs) ys = ap (◌∷◌ x) (take-append xs ys)

-- The bytes put between the edges of a field are what is read there.
module _ (f : Field) (bytes : List ℕ) (nonempty : 0 < field_size f)
    (len : length bytes ≡ field_size f) where
  inside : data_offset f + field_size f ≤ size f
  inside = ground arith

  size-put_digit_bytes : size (put_digit_bytes f bytes) ≡ size f
  size-put_digit_bytes = omega (
    arith,
    inside,
    len,
    length-append (take (data_offset f) f.data_bytes)
        (bytes ++ drop (data_offset f + field_size f) f.data_bytes),
    length-append bytes (drop (data_offset f + field_size f) f.data_bytes),
    length-take (data_offset f) f.data_bytes,
    length-drop (data_offset f + field_size f) f.data_bytes,
  )

  digit_bytes-put_digit_bytes : digit_bytes (put_digit_bytes f bytes) ≡ bytes
  digit_bytes-put_digit_bytes =
      rw
        (
          size-put_digit_bytes,
          drop-take (data_offset f) f.data_bytes _ (omega (arith, inside)),
          ← len,
        )
        (take-append bytes _)

get_or-IsDigit : (b z : List ℕ) (i : ℕ) → IsDigits b → i < length b → IsDigit (get_or (b ++ z) i 0)
get_or-IsDigit [] z i h lt = absurd (omega arith)
get_or-IsDigit (c ∷ b) z zero h lt = h.0
get_or-IsDigit (c ∷ b) z (suc i) h lt = get_or-IsDigit b z i h.1 (omega arith)

-- What a field shows whose digits and sign have been written.
pub shown_after :
    (m : Module) (g : Field) (b : List ℕ) (s : ℤ)
    → g.attr.kind ≡ FieldType.numeric_display
    → g.attr.have_sign ≡ true
    → 0 < field_size g
    → length b ≡ field_size g
    → IsDigits b
    → IsSign s
    → shown m (put_sign m (put_digit_bytes g b) s) ≡ signed s (value b)
unfolding shown
shown_after m g b s kind have nonempty len digits sign =
    let g' = put_digit_bytes g b in
    let (reads, bytes) =
      get_sign-put_sign m g' s kind have (omega (arith, size-put_digit_bytes g b nonempty len))
        (digit g' refl) sign in
    rw (reads, bytes, digit_bytes-put_digit_bytes g b nonempty len)
  where
    no_offset : g.attr.sign_separate ≡ false → data_offset g ≡ 0
    no_offset over = simp over

    index :
        (g' : Field) → size g' ≡ size g → g.attr.sign_separate ≡ false → sign_index g' < length b
    index g' same over = ground arith

    digit :
        (g' : Field)
        → g' ≡ put_digit_bytes g b
        → g.attr.sign_separate ≡ false
        → IsDigit (get_or (put_digit_bytes g b).data_bytes (sign_index g') 0)
    digit g' e over = rw (no_offset over) (
        get_or-IsDigit b _ (sign_index g') digits
          (index g' (ap size e ∙ size-put_digit_bytes g b nonempty len) over))
