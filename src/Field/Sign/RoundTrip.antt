-- ===== src/Field/Sign/RoundTrip.antt =====
-- `cob_get_sign` after `cob_put_sign`.
use blitzy_open_cobol.Base.{
  ℕ, zero, suc, ◌-◌, ◌+◌, ◌*◌, ◌/◌, ◌<◌, ◌≡◌, ◌⊎◌, inl, inr, refl, ap, true, false, arith, List, [],
  ◌∷◌, take, drop, Bool-cases, if◌then◌else◌, ◌==◌, length, get_or, set, length-set,
}
use blitzy_open_cobol.Base.Int.{ℤ, pos, negsuc, ltb_ℤ}
use blitzy_open_cobol.Base.Digits.{IsDigit}
use blitzy_open_cobol.Base.Nibbles.{low_nibble, low_nibble-eq, set_low-eq}
use blitzy_open_cobol.Field.{Field, Module, FieldType, size, digit_bytes}
use blitzy_open_cobol.Field.Sign.{
  sign_index, get_sign_byte, put_sign_byte, real_get_sign, real_put_sign, get_sign, put_sign,
  write_byte,
}

abbrev pub IsSign : ℤ → Type 0
IsSign s = (s ≡ pos 1) ⊎ (s ≡ negsuc 0)

get-set_self : (xs : List ℕ) (i v d : ℕ) → i < length xs → get_or (set xs i v) i d ≡ v
get-set_self [] i v d h = absurd (omega arith)
get-set_self (x ∷ xs) zero v d h = refl
get-set_self (x ∷ xs) (suc i) v d h = get-set_self xs i v d (omega arith)

set-set : (xs : List ℕ) (i v w : ℕ) → set (set xs i v) i w ≡ set xs i w
set-set [] i v w = refl
set-set (x ∷ xs) zero v w = refl
set-set (x ∷ xs) (suc i) v w = ap (◌∷◌ x) (set-set xs i v w)

set_same : (xs : List ℕ) (i d : ℕ) → set xs i (get_or xs i d) ≡ xs
set_same [] i d = refl
set_same (x ∷ xs) zero d = refl
set_same (x ∷ xs) (suc i) d = ap (◌∷◌ x) (set_same xs i d)

-- The overpunched byte gives back the sign and the digit, in both representations.
pub get_sign_byte-put_sign_byte :
    (m : Module) (p : ℕ) (s : ℤ)
    → IsDigit p
    → IsSign s
    → get_sign_byte m (put_sign_byte m p s) ≡ (s, p)
unfolding get_sign_byte put_sign_byte
get_sign_byte-put_sign_byte m p s d (inl e) = ground arith
get_sign_byte-put_sign_byte m p s d (inr e) = ground arith

-- A separate sign stands outside the digits.
separate_leading : (xs : List ℕ) (v n : ℕ) → take n (drop 1 (set xs 0 v)) ≡ take n (drop 1 xs)
separate_leading [] v n = refl
separate_leading (x ∷ xs) v n = refl

separate_trailing : (xs : List ℕ) (v : ℕ) (n : ℕ) → take n (set xs n v) ≡ take n xs
separate_trailing [] v zero = refl
separate_trailing [] v (suc n) = refl
separate_trailing (x ∷ xs) v zero = refl
separate_trailing (x ∷ xs) v (suc n) = ap (◌∷◌ x) (separate_trailing xs v n)

module _ (m : Module) (f : Field) (s : ℤ) (signed : IsSign s) (nonempty : 0 < size f) where
  abbrev sign_byte : ℕ
  sign_byte = get_or f.data_bytes (sign_index f) 0

  index-lt : sign_index f < size f
  index-lt = ground arith

  sign_index-write_byte : (v : ℕ) → sign_index (write_byte f (sign_index f) v) ≡ sign_index f
  sign_index-write_byte v = rw length-set

  -- Overpunched: the field comes back as it was.
  overpunched :
      f.attr.sign_separate ≡ false
      → IsDigit sign_byte
      → real_get_sign m FieldType.numeric_display (real_put_sign m FieldType.numeric_display f s)
        ≡ (s, f)
  unfolding real_get_sign real_put_sign
  overpunched sep digit = simp (
    sep,
    sign_index-write_byte,
    get-set_self f.data_bytes (sign_index f) (put_sign_byte m sign_byte s) 0 index-lt,
    get_sign_byte-put_sign_byte m sign_byte s digit signed,
    set-set,
    set_same,
  )

  abbrev separate_char : ℕ
  separate_char = if ltb_ℤ s (pos 0) then b'-' else b'+'

  -- Separate: the sign comes back, and the field stays as it was written.
  separate :
      f.attr.sign_separate ≡ true
      → real_get_sign m FieldType.numeric_display (real_put_sign m FieldType.numeric_display f s)
        ≡ (s, write_byte f (sign_index f) separate_char)
  unfolding real_get_sign real_put_sign
  separate sep =
      simp
        (
          sep,
          sign_index-write_byte,
          get-set_self f.data_bytes (sign_index f) separate_char 0 index-lt,
        )
        (ap (λ (z : ℤ). (z, write_byte f (sign_index f) separate_char)) reads)
    where
      reads : (if separate_char == b'+' then pos 1 else negsuc 0) ≡ s
      reads = elim signed [ inl e ↦ rw e refl | inr e ↦ rw e refl ]

  -- The digits do not include the byte of a separate sign.
  separate_digits :
      f.attr.sign_separate ≡ true
      → (v : ℕ) → digit_bytes (write_byte f (sign_index f) v) ≡ digit_bytes f
  separate_digits sep v = elim (Bool-cases f.attr.sign_leading) [
    | inl lead ↦ simp (sep, lead, length-set) (separate_leading f.data_bytes v (size f - 1))
    | inr trail ↦ simp (sep, trail, length-set) (separate_trailing f.data_bytes v (size f - 1))
  ]

get-put_display :
    (m : Module) (f : Field) (s : ℤ)
    → f.attr.kind ≡ FieldType.numeric_display
    → f.attr.have_sign ≡ true
    → get_sign m (put_sign m f s)
      ≡ real_get_sign m FieldType.numeric_display (real_put_sign m FieldType.numeric_display f s)
unfolding get_sign put_sign real_put_sign
get-put_display m f s kind have = simp (have, kind)

-- A sign that `cob_put_sign` stores in a DISPLAY field, overpunched in the ASCII or the EBCDIC form
-- or as a separate byte, leading or trailing, is what `cob_get_sign` reads back, and the digits that
-- it leaves are those from before. The field is signed and not empty, and where the sign is
-- overpunched its byte holds a digit.
pub get_sign-put_sign :
    (m : Module) (f : Field) (s : ℤ)
    → f.attr.kind ≡ FieldType.numeric_display
    → f.attr.have_sign ≡ true
    → 0 < size f
    → (f.attr.sign_separate ≡ false → IsDigit (get_or f.data_bytes (sign_index f) 0))
    → IsSign s
    → ((get_sign m (put_sign m f s)).0 ≡ s)
      × (digit_bytes (get_sign m (put_sign m f s)).1 ≡ digit_bytes f)
get_sign-put_sign m f s kind have nonempty digit signed =
    rw (get-put_display m f s kind have) (elim (Bool-cases f.attr.sign_separate) [
      | inl sep ↦
          rw (separate m f s signed nonempty sep)
            (refl, separate_digits m f s signed nonempty sep _)
      | inr over ↦ rw (overpunched m f s signed nonempty over (digit over)) (refl, refl)
    ])

put_packed :
    (m : Module) (f : Field) (s : ℤ)
    → f.attr.kind ≡ FieldType.numeric_packed
    → f.attr.have_sign ≡ true
    → get_or f.data_bytes (size f - 1) 0 < 256
    → put_sign m f s
      ≡ write_byte f
          (size f - 1)
          (get_or f.data_bytes (size f - 1) 0 / 16 * 16 + (if ltb_ℤ s (pos 0) then 0x0d else 0x0c))
unfolding put_sign real_put_sign
put_packed m f s kind have byte =
    let p = get_or f.data_bytes (size f - 1) 0 in
    simp (have, kind, set_low-eq p 0x0d byte (omega arith), set_low-eq p 0x0c byte (omega arith))
      (elim (Bool-cases (ltb_ℤ s (pos 0))) [ inl e ↦ rw e | inr e ↦ rw e ])

-- The sign nibble that `cob_put_sign` stores in a PACKED field is what `cob_get_sign` reads back, and
-- storing it keeps the digit in the other half of the last byte and all other bytes. The field is
-- signed and not empty, and its last byte is below 256.
pub get_sign-put_sign_packed :
    (m : Module) (f : Field) (s : ℤ)
    → f.attr.kind ≡ FieldType.numeric_packed
    → f.attr.have_sign ≡ true
    → 0 < size f
    → get_or f.data_bytes (size f - 1) 0 < 256
    → IsSign s
    → (get_sign m (put_sign m f s) ≡ (s, put_sign m f s))
      × (put_sign m f s
          ≡ write_byte f (size f - 1) (
              get_or f.data_bytes (size f - 1) 0 / 16 * 16
              + (if ltb_ℤ s (pos 0) then 0x0d else 0x0c)))
unfolding get_sign real_get_sign
get_sign-put_sign_packed m f s kind have nonempty byte signed = (
  rw (put_packed m f s kind have byte) (
      simp (have, kind, length-set, reads)
        (ap (λ (z : ℤ). (z, write_byte f (size f - 1) stored)) nibble)),
  put_packed m f s kind have byte,
)
  where
    p : ℕ
    p = get_or f.data_bytes (size f - 1) 0

    stored : ℕ
    stored = p / 16 * 16 + (if ltb_ℤ s (pos 0) then 0x0d else 0x0c)

    nibble : (if low_nibble stored == 0x0d then negsuc 0 else pos 1) ≡ s
    nibble = elim signed [
      | inl e ↦ ground (arith, low_nibble-eq (p / 16 * 16 + 0x0c) (omega arith))
      | inr e ↦ ground (arith, low_nibble-eq (p / 16 * 16 + 0x0d) (omega arith))
    ]

    reads :
        get_or
          (set f.data_bytes (size f - 1) (p / 16 * 16 + (if ltb_ℤ s (pos 0) then 0x0d else 0x0c)))
          (size f - 1)
          0
        ≡ p / 16 * 16 + (if ltb_ℤ s (pos 0) then 0x0d else 0x0c)
    reads = get-set_self f.data_bytes (size f - 1) _ 0 (omega arith)
