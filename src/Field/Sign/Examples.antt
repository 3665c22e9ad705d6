-- ===== src/Field/Sign/Examples.antt =====
-- Runs of the sign functions, and the theorems on them at concrete fields.
use blitzy_open_cobol.Base.{◌≡◌, refl, [], ◌∷◌, inr, arith}
use blitzy_open_cobol.Base.Int.{pos, negsuc}
use blitzy_open_cobol.Field.{digit_bytes}
use blitzy_open_cobol.Field.Sign.{
  get_sign_ebcdic, put_sign_ebcdic, get_sign_byte, put_sign_byte, real_get_sign, real_put_sign,
  get_sign, put_sign,
}
use blitzy_open_cobol.Field.Sign.RoundTrip.{get_sign-put_sign, get_sign-put_sign_packed}
use blitzy_open_cobol.Samples.{ascii_module, ebcdic_module, signed_display, signed_packed}

sign_functions : Unit {0}
unfolding get_sign put_sign real_get_sign real_put_sign get_sign_byte put_sign_byte get_sign_ebcdic
    put_sign_ebcdic
sign_functions = tt

-- -013 is "01s" with native signs and "01L" with EBCDIC ones.
negative_thirteen :
    (put_sign ascii_module (signed_display (b'0' ∷ b'1' ∷ b'3' ∷ []) (pos 0)) (negsuc 0)
      ≡ signed_display (b'0' ∷ b'1' ∷ b's' ∷ []) (pos 0))
    × (put_sign ebcdic_module (signed_display (b'0' ∷ b'1' ∷ b'3' ∷ []) (pos 0)) (negsuc 0)
        ≡ signed_display (b'0' ∷ b'1' ∷ b'L' ∷ []) (pos 0))
    × (get_sign ascii_module (signed_display (b'0' ∷ b'1' ∷ b's' ∷ []) (pos 0))
        ≡ (negsuc 0, signed_display (b'0' ∷ b'1' ∷ b'3' ∷ []) (pos 0)))
unfolding sign_functions
negative_thirteen = (refl, refl, refl)

get_sign-put_sign_example :
    let f = signed_display (b'0' ∷ b'1' ∷ b'3' ∷ []) (pos 0) in
    ((get_sign ebcdic_module (put_sign ebcdic_module f (negsuc 0))).0 ≡ negsuc 0)
    × (digit_bytes (get_sign ebcdic_module (put_sign ebcdic_module f (negsuc 0))).1 ≡ digit_bytes f)
get_sign-put_sign_example =
    get_sign-put_sign ebcdic_module (signed_display (b'0' ∷ b'1' ∷ b'3' ∷ []) (pos 0)) (negsuc 0)
      refl refl (omega arith) (λ _. omega arith) (inr refl)

get_sign-put_sign_packed_example :
    let f = signed_packed (0x12 ∷ 0x3c ∷ []) 3 in
    (get_sign ascii_module (put_sign ascii_module f (negsuc 0))
      ≡ (negsuc 0, put_sign ascii_module f (negsuc 0)))
    × (put_sign ascii_module f (negsuc 0) ≡ signed_packed (0x12 ∷ 0x3d ∷ []) 3)
get_sign-put_sign_packed_example =
    get_sign-put_sign_packed ascii_module (signed_packed (0x12 ∷ 0x3c ∷ []) 3) (negsuc 0) refl refl
      (omega arith) (omega arith) (inr refl)
