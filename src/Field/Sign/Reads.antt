-- ===== src/Field/Sign/Reads.antt =====
-- What `cob_get_sign` returns and what it leaves of a signed DISPLAY field.
use blitzy_open_cobol.Base.{ℕ, ◌≡◌, inl, inr, true, arith, length-set, Bool-cases, get_or}
use blitzy_open_cobol.Field.{Field, Module, FieldType, size}
use blitzy_open_cobol.Field.Sign.{
  get_sign_ebcdic, get_sign_byte, real_get_sign, get_sign, sign_index,
}
use blitzy_open_cobol.Field.Sign.RoundTrip.{IsSign}

-- Reading the sign may normalise the sign byte, and changes neither the size nor the attributes.
pub record Reads (m : Module) (f : Field) : Type 0 where
  pub sign : IsSign (get_sign m f).0
  pub same_attr : (get_sign m f).1.attr ≡ f.attr
  pub same_size : size (get_sign m f).1 ≡ size f

get_sign_byte-IsSign : (m : Module) (p : ℕ) → IsSign (get_sign_byte m p).0
unfolding get_sign_byte get_sign_ebcdic
get_sign_byte-IsSign m p = ground arith

get_sign_display :
    (m : Module) (f : Field)
    → f.attr.kind ≡ FieldType.numeric_display
    → f.attr.have_sign ≡ true
    → get_sign m f ≡ real_get_sign m FieldType.numeric_display f
unfolding get_sign
get_sign_display m f kind have = simp (have, kind)

module _ (m : Module) (f : Field) where
  real_get_sign-IsSign : IsSign (real_get_sign m FieldType.numeric_display f).0
  unfolding real_get_sign
  real_get_sign-IsSign =
      ground (arith, get_sign_byte-IsSign m (get_or f.data_bytes (sign_index f) 0))

  real_get_sign-attr : (real_get_sign m FieldType.numeric_display f).1.attr ≡ f.attr
  unfolding real_get_sign
  real_get_sign-attr = elim (Bool-cases f.attr.sign_separate) [
    | inl sep ↦ simp sep
    | inr over ↦ simp over
  ]

  real_get_sign-size : size (real_get_sign m FieldType.numeric_display f).1 ≡ size f
  unfolding real_get_sign
  real_get_sign-size = elim (Bool-cases f.attr.sign_separate) [
    | inl sep ↦ simp sep
    | inr over ↦ simp (over, length-set)
  ]

  pub get_sign-Reads : f.attr.kind ≡ FieldType.numeric_display → f.attr.have_sign ≡ true → Reads m f
  get_sign-Reads kind have = record {
    sign = rw (get_sign_display m f kind have) real_get_sign-IsSign;
    same_attr = rw (get_sign_display m f kind have) real_get_sign-attr;
    same_size = rw (get_sign_display m f kind have) real_get_sign-size;
  }
