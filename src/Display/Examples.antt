-- ===== src/Display/Examples.antt =====
-- Runs of the DISPLAY arithmetic, and its theorems at concrete fields.
use blitzy_open_cobol.Base.{◌≡◌, ◌^◌, refl, [], ◌∷◌, arith, replicate, none, some, false, true}
use blitzy_open_cobol.Base.Int.{pos, negsuc, ◌+ℤ◌, ◌*ℤ◌, neg_ℤ}
use blitzy_open_cobol.Base.Nibbles.{low_nibble}
use blitzy_open_cobol.Field.{Field, ExceptionId}
use blitzy_open_cobol.Field.Sign.{
  get_sign_ebcdic, put_sign_ebcdic, get_sign_byte, put_sign_byte, real_get_sign, real_put_sign,
  get_sign, put_sign,
}
use blitzy_open_cobol.Display.{
  carry_up, carry_down, add_digits, sub_digits, display_add_int, display_sub_int, times_ten,
  over_ten, scaled, add_signed, add_scaled, display_add_int_field,
}
use blitzy_open_cobol.Display.Signed.{Spells, display_add_int_lem}
use blitzy_open_cobol.Display.Magnitude.{add_exact, add_past_zero, add_overflow}
use blitzy_open_cobol.Display.Shown.{shown}
use blitzy_open_cobol.Display.WholeField.{shown-display_add_int_field}
use blitzy_open_cobol.Samples.{ascii_module, signed_display}

-- PIC S9(3) VALUE -13, PIC S9V99 VALUE 9.95
display_runs :
    (display_add_int_field ascii_module (signed_display (b'0' ∷ b'1' ∷ b's' ∷ []) (pos 0)) (pos 20)
      ≡ some (signed_display (b'0' ∷ b'0' ∷ b'7' ∷ []) (pos 0), none))
    × (display_add_int_field ascii_module (signed_display (b'9' ∷ b'9' ∷ b'5' ∷ []) (pos 2)) (pos 1)
        ≡ some (signed_display (b'9' ∷ b'9' ∷ b'5' ∷ []) (pos 2), some ExceptionId.size_overflow))
    × (display_add_int_field ascii_module
          (signed_display (b'1' ∷ b'9' ∷ b'5' ∷ []) (pos 2))
          (negsuc 2)
        ≡ some (signed_display (b'1' ∷ b'0' ∷ b'u' ∷ []) (pos 2), none))
unfolding get_sign put_sign real_get_sign real_put_sign get_sign_byte put_sign_byte get_sign_ebcdic
    put_sign_ebcdic display_add_int_field add_scaled add_signed scaled times_ten over_ten
    display_add_int display_sub_int add_digits sub_digits carry_up carry_down low_nibble ◌*ℤ◌ neg_ℤ
display_runs = (refl, refl, refl)

-- ADD 10 to a PIC S9(3)V9(18) field: 10 * 10^18 is no long long, so the loop overflows.
display_add_int_field-overflow :
    display_add_int_field ascii_module
      (signed_display (b'0' ∷ b'0' ∷ b'1' ∷ replicate 18 b'0') (pos 18))
      (pos 10)
    ≡ none
unfolding get_sign real_get_sign get_sign_byte display_add_int_field scaled times_ten ◌*ℤ◌ neg_ℤ
display_add_int_field-overflow = refl

three_digits : Unit {0}
unfolding shown get_sign real_get_sign get_sign_byte ◌+ℤ◌ ◌*ℤ◌ neg_ℤ
three_digits = tt

display_add_int_lem_example :
    let out = display_add_int ascii_module (b'9' ∷ b'9' ∷ b'5' ∷ []) 7 in
    Spells (b'9' ∷ b'9' ∷ b'5' ∷ []) 2 out.0 × (out.1 ≡ true)
display_add_int_lem_example =
    display_add_int_lem (b'9' ∷ b'9' ∷ b'5' ∷ []) (omega arith) ascii_module 7

add_exact_example :
    let r = add_signed ascii_module (b'0' ∷ b'1' ∷ b'3' ∷ []) (pos 1) (negsuc 19) in
    (r.overflow ≡ false) × Spells (b'0' ∷ b'1' ∷ b'3' ∷ []) 7 r.digits × (r.sign ≡ negsuc 0)
unfolding ◌+ℤ◌ neg_ℤ
add_exact_example =
    add_exact ascii_module (b'0' ∷ b'1' ∷ b'3' ∷ []) (omega arith) (pos 1) (negsuc 19) (omega arith)

add_overflow_example :
    add_signed ascii_module (b'9' ∷ b'9' ∷ b'5' ∷ []) (pos 1) (pos 7)
    ≡ record { digits = b'9' ∷ b'9' ∷ b'5' ∷ []; sign = pos 1; overflow = true }
add_overflow_example =
    add_overflow ascii_module (b'9' ∷ b'9' ∷ b'5' ∷ []) (omega arith) (pos 1) 7 (omega arith) refl

-- 5 - 2020 in three digits: the two thousand is lost, and no size error is raised.
add_past_zero_example :
    let r = add_signed ascii_module (b'0' ∷ b'0' ∷ b'5' ∷ []) (pos 1) (negsuc 2019) in
    (r.overflow ≡ false) × Spells (b'0' ∷ b'0' ∷ b'5' ∷ []) 15 r.digits × (r.sign ≡ negsuc 0)
unfolding neg_ℤ
add_past_zero_example =
    add_past_zero ascii_module (b'0' ∷ b'0' ∷ b'5' ∷ []) (omega arith) (pos 1) 2019 (omega arith)

shown-display_add_int_field_example :
    let f = signed_display (b'1' ∷ b'9' ∷ b'5' ∷ []) (pos 2) in
    (g : Field) × (display_add_int_field ascii_module f (negsuc 2) ≡ some (g, none))
    × (shown ascii_module g ≡ shown ascii_module f +ℤ negsuc 2 *ℤ pos (10 ^ 2))
unfolding three_digits
shown-display_add_int_field_example =
    shown-display_add_int_field ascii_module (signed_display (b'1' ∷ b'9' ∷ b'5' ∷ []) (pos 2))
      (negsuc 2) 2
      (record { display = refl; have = refl; room_for_digit = omega arith; digits = omega arith })
      refl (omega arith) (omega arith)
