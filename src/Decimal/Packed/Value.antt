-- ===== src/Decimal/Packed/Value.antt =====
-- cob_decimal_set_packed gives the number that a packed field spells.
use blitzy_open_cobol.Base.{
  ℕ, zero, suc, ◌+◌, ◌*◌, ◌/◌, ◌%◌, ◌≤◌, ◌<◌, ◌≡◌, refl, ap, ◌==◌, ◌-◌, get_or, ◌&&◌, Bool, true,
  false, not, ◌||◌, List, [], ◌∷◌, length, take, drop, All, ltb, if◌then◌else◌, arith,
}
use blitzy_open_cobol.Base.Int.{pos, neg_ℤ, ltb_ℤ}
use blitzy_open_cobol.Base.Nibbles.{low_nibble, low_nibble-eq}
use blitzy_open_cobol.Decimal.{Decimal}
use blitzy_open_cobol.Field.{Field, size}
use blitzy_open_cobol.Decimal.Packed.{
  GmpUi, packed_get_sign, byte_digits, long_value, packed_value, unsigned_value, set_packed,
}
use blitzy_open_cobol.Decimal.Packed.Digits.{
  nibbles, number_from, IsByte, odd_digits, odd_digits-take, limit, limit_first,
  short_value-number_from,
}

-- The digits of a field, without the sign in the last half byte, and without the half byte in front
-- of an even number of digits.
abbrev pub packed_digits : ℕ → List ℕ → List ℕ
packed_digits digits p = take digits (drop (1 - digits % 2) (nibbles p))

-- The last half byte of a field.
abbrev pub last_half : List ℕ → ℕ
last_half [] = 0
last_half (x ∷ []) = x % 16
last_half (x ∷ (y ∷ p)) = last_half (y ∷ p)

-- A number with the sign and the scale of a field: it is negative if the field has a sign and its last
-- half byte is 13.
abbrev pub signed_decimal : Field → ℕ → Decimal
signed_decimal f n = record {
  value = if f.attr.have_sign && last_half f.data_bytes == 13 then neg_ℤ (pos n) else pos n;
  scale = f.attr.scale;
}

last_half-low_nibble :
    (p : List ℕ) → All IsByte p → low_nibble (get_or p (length p - 1) 0) ≡ last_half p
last_half-low_nibble [] bytes = low_nibble-eq 0 (omega arith)
last_half-low_nibble (x ∷ []) (byte, rest) = low_nibble-eq x byte
last_half-low_nibble (x ∷ (y ∷ p)) (byte, rest) =
    let place : suc (length (y ∷ p)) - 1 ≡ suc (length (y ∷ p) - 1) = omega arith in
    rw place (last_half-low_nibble (y ∷ p) rest)

packed_get_sign-last_half :
    (f : Field)
    → All IsByte f.data_bytes
    → ltb_ℤ (packed_get_sign f) (pos 0) ≡ (f.attr.have_sign && last_half f.data_bytes == 13)
packed_get_sign-last_half f bytes = on_sign _ refl
  where
    half : low_nibble (get_or f.data_bytes (size f - 1) 0) ≡ last_half f.data_bytes
    half = last_half-low_nibble f.data_bytes bytes

    on_sign :
        (b : Bool)
        → f.attr.have_sign ≡ b
        → ltb_ℤ (packed_get_sign f) (pos 0) ≡ (f.attr.have_sign && last_half f.data_bytes == 13)
    on_sign false unsigned = unfold packed_get_sign in ground (arith, unsigned)
    on_sign true signed = unfold packed_get_sign in ground (arith, signed, half)

even_digits :
    (digits turns x : ℕ) (p : List ℕ)
    → digits ≡ suc (turns + turns + 1)
    → 1 - digits % 2 ≡ 1
    → packed_digits digits (x ∷ p) ≡ x % 16 ∷ odd_digits turns p
even_digits digits turns x p count skip = rw (skip, count, odd_digits-take turns p) refl

odd_digits-packed :
    (digits turns : ℕ) (p : List ℕ)
    → digits ≡ turns + turns + 1
    → 1 - digits % 2 ≡ 0
    → packed_digits digits p ≡ odd_digits turns p
odd_digits-packed digits turns p count skip = rw (skip, count, odd_digits-take turns p) refl

long_grown :
    (gmp : GmpUi) (valseen : Bool) (val : ℕ)
    → (valseen ≡ false → val ≡ 0)
    → (if valseen then gmp.mpz_mul_ui (pos val) 100 else pos val) ≡ pos (val * 100)
long_grown gmp true val seen = gmp.mul_law val 100
long_grown gmp false val seen = let none_yet : val ≡ 0 = seen refl in rw none_yet refl

long_step :
    (gmp : GmpUi) (val x : ℕ)
    → x < 256
    → (if x == 0 then pos (val * 100) else gmp.mpz_add_ui (pos (val * 100)) (byte_digits x))
      ≡ pos ((val * 10 + x / 16) * 10 + x % 16)
long_step gmp val x byte =
    rw (low_nibble-eq x byte, gmp.add_law (val * 100) (x / 16 * 10 + x % 16)) (on_zero _ refl)
  where
    on_zero :
        (b : Bool)
        → (x == 0) ≡ b
        → (if x == 0 then pos (val * 100) else pos (val * 100 + (x / 16 * 10 + x % 16)))
          ≡ pos ((val * 10 + x / 16) * 10 + x % 16)
    on_zero true none = rw none (ap pos (ground arith))
    on_zero false some = rw some (ap pos (omega arith))

long_seen :
    (valseen : Bool) (val x : ℕ)
    → (valseen ≡ false → val ≡ 0)
    → (valseen || not (x == 0)) ≡ false
    → (val * 10 + x / 16) * 10 + x % 16 ≡ 0
long_seen true val x seen none = absurd (ground (arith, none))
long_seen false val x seen none =
    let none_yet : val ≡ 0 = seen refl in ground (arith, none_yet, none)

module _ (gmp : GmpUi) where
  -- While no digit was seen, the value is zero.
  long_value-number_from :
      (turns : ℕ) (valseen : Bool) (val : ℕ) (p : List ℕ)
      → (valseen ≡ false → val ≡ 0)
      → turns < length p
      → All IsByte p
      → long_value gmp turns valseen (pos val) p ≡ pos (number_from val (odd_digits turns p))
  unfolding long_value
  long_value-number_from turns valseen val [] seen enough bytes = absurd (omega arith)
  long_value-number_from zero true val (x ∷ p) seen enough (byte, bytes) =
      rw (long_value, gmp.mul_law val 10, gmp.add_law (val * 10) (x / 16)) refl
  long_value-number_from zero false val (x ∷ p) seen enough (byte, bytes) =
      let none_yet : val ≡ 0 = seen refl in rw (long_value, none_yet, gmp.add_law 0 (x / 16)) refl
  long_value-number_from (suc turns) valseen val (x ∷ p) seen enough (byte, bytes) =
      rw (long_value, long_grown gmp valseen val seen, long_step gmp val x byte)
        (long_value-number_from turns (valseen || not (x == 0)) ((val * 10 + x / 16) * 10 + x % 16)
          p (long_seen valseen val x seen) (omega arith) bytes)

  packed_value-number_from :
      (digits turns val : ℕ) (p : List ℕ)
      → (digits < 10 → (turns ≤ 4) × (val ≤ limit turns))
      → turns < length p
      → All IsByte p
      → packed_value gmp digits turns val p ≡ pos (number_from val (odd_digits turns p))
  unfolding packed_value
  packed_value-number_from digits turns val p small enough bytes = on_size _ refl
    where
      on_size :
          (b : Bool)
          → ltb digits 10 ≡ b
          → packed_value gmp digits turns val p ≡ pos (number_from val (odd_digits turns p))
      on_size true few =
          let (limited, below) = small (ground arith) in
          rw (packed_value, few, short_value-number_from turns val p limited below enough bytes)
            (gmp.set_law _)
      on_size false many =
          rw (packed_value, many, gmp.set_law val)
            (long_value-number_from turns (not (val == 0)) val p (λ none. ground arith) enough
              bytes)

  unsigned_value-digits :
      (digits : ℕ) (p : List ℕ)
      → 0 < digits
      → length p ≡ digits / 2 + 1
      → All IsByte p
      → unsigned_value gmp digits p ≡ pos (number_from 0 (packed_digits digits p))
  unfolding unsigned_value
  unsigned_value-digits digits [] some width bytes = absurd (omega arith)
  unsigned_value-digits digits (x ∷ p) some width (byte, bytes) = on_parity _ refl
    where
      on_parity :
          (b : Bool)
          → (digits % 2 == 0) ≡ b
          → unsigned_value gmp digits (x ∷ p) ≡ pos (number_from 0 (packed_digits digits (x ∷ p)))
      on_parity true even =
          let half : digits % 2 ≡ 0 = ground arith in
          let count : digits ≡ suc ((digits - 1) / 2 + (digits - 1) / 2 + 1) = omega arith in
          let skip : 1 - digits % 2 ≡ 1 = omega arith in
          let value =
            packed_value-number_from digits ((digits - 1) / 2) (low_nibble x) p
              (λ few. (
                omega arith,
                omega (arith, low_nibble-eq x byte, limit_first ((digits - 1) / 2) (omega arith)),
              ))
              (omega arith) bytes in
          let taken : packed_digits digits (x ∷ p) ≡ x % 16 ∷ odd_digits ((digits - 1) / 2) p =
            even_digits digits ((digits - 1) / 2) x p count skip in
          let start : x % 16 ≡ 0 + x % 16 = omega arith in
          rw (unsigned_value, even, value, low_nibble-eq x byte, taken)
            (ap (λ t. pos (number_from t (odd_digits ((digits - 1) / 2) p))) start)
      on_parity false odd =
          let half : digits % 2 ≡ 1 = ground arith in
          let count : digits ≡ digits / 2 + digits / 2 + 1 = omega arith in
          let skip : 1 - digits % 2 ≡ 0 = omega arith in
          let value =
            packed_value-number_from digits (digits / 2) 0 (x ∷ p)
              (λ few. (omega arith, omega arith)) (omega arith) (byte, bytes) in
          let taken : packed_digits digits (x ∷ p) ≡ odd_digits (digits / 2) (x ∷ p) =
            odd_digits-packed digits (digits / 2) (x ∷ p) count skip in
          rw (unsigned_value, odd, value, taken) refl

-- For a packed field of any number of digits and any bytes, in which the digits and the sign fill
-- the bytes: the decimal is the number that the half bytes spell, of the sign of the last half
-- byte, with the scale of the field. No step wraps around, also where a half byte is no digit.
pub set_packed-digits :
    (gmp : GmpUi) (f : Field)
    → 0 < f.attr.digits
    → size f ≡ f.attr.digits / 2 + 1
    → All IsByte f.data_bytes
    → set_packed gmp f ≡ signed_decimal f (number_from 0 (packed_digits f.attr.digits f.data_bytes))
unfolding set_packed
set_packed-digits gmp f some width bytes =
    rw
      (
        set_packed,
        unsigned_value-digits gmp f.attr.digits f.data_bytes some width bytes,
        gmp.neg_law (number_from 0 (packed_digits f.attr.digits f.data_bytes)),
        packed_get_sign-last_half f bytes,
      )
      refl
