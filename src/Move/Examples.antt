-- ===== src/Move/Examples.antt =====
-- Runs of the numeric MOVE, and the theorem about it applied.
use blitzy_open_cobol.Base.{◌≡◌, refl, arith, [], ◌∷◌, get_or}
use blitzy_open_cobol.Base.Int.{pos, ◌+ℤ◌, ◌-ℤ◌, neg_ℤ}
use blitzy_open_cobol.Base.Buffers.{copy_at}
use blitzy_open_cobol.Field.Sign.{get_sign, put_sign}
use blitzy_open_cobol.Samples.{ascii_module, signed_display}
use blitzy_open_cobol.Move.{common_region, store_common_region, move_display_to_display}
use blitzy_open_cobol.Move.Layout.{offset}
use blitzy_open_cobol.Move.Alignment.{blank_as_zero, digit_at, common_region-digit_at}

-- 12.34 in a field with three places before the point and one behind it.
shifted :
    common_region 4 (pos 1) (b'1' ∷ b'2' ∷ b'3' ∷ b'4' ∷ []) (pos 2)
    ≡ b'0' ∷ b'1' ∷ b'2' ∷ b'3' ∷ []
unfolding common_region copy_at neg_ℤ ◌+ℤ◌ ◌-ℤ◌
shifted = refl

-- -5 is moved with its sign: the last byte is the digit with the sign in it.
negative :
    (move_display_to_display ascii_module
      (signed_display (b'0' ∷ b'0' ∷ b'u' ∷ []) (pos 0))
      (signed_display (b'9' ∷ b'9' ∷ b'9' ∷ []) (pos 0))).1.data_bytes
    ≡ b'0' ∷ b'0' ∷ b'u' ∷ []
unfolding move_display_to_display store_common_region common_region copy_at get_sign put_sign neg_ℤ
    ◌+ℤ◌ ◌-ℤ◌
negative = refl

common_region-digit_at_example :
    get_or (common_region 4 (pos 1) (b'1' ∷ b'2' ∷ b'3' ∷ b'4' ∷ []) (pos 2)) 1 b'0'
    ≡ blank_as_zero
        (digit_at (b'1' ∷ b'2' ∷ b'3' ∷ b'4' ∷ []) (pos 1 +ℤ offset 4 4 (pos 2) (pos 1)))
common_region-digit_at_example =
    common_region-digit_at 4 (pos 1) (b'1' ∷ b'2' ∷ b'3' ∷ b'4' ∷ []) (pos 2) 1 (omega arith)
