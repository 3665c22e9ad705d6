-- ===== src/Base/Division.antt =====
-- Division of integers that rounds towards zero: sign and magnitude of the quotient.
use Prim.Native.Nat.{◌/◌}
use mathlib.Core.Path.{◌≡◌, refl}
use mathlib.Core.Bool.{Bool, not, ◌&&◌}
use native.Mathlib.Omega.{arith}
use blitzy_open_cobol.Base.Tests.{ltb, if◌then◌else◌}
use blitzy_open_cobol.Base.Int.{ℤ, pos, negsuc, abs, is_negative, tdiv}

-- The sign of a quotient that is not zero.
abbrev pub quotient_negative : ℤ → ℤ → Bool
quotient_negative a b = if is_negative b then not (is_negative a) else is_negative a

pub abs-tdiv : (a b : ℤ) → abs (tdiv a b) ≡ abs a / abs b
unfolding tdiv
abs-tdiv (pos a) (pos b) = refl
abs-tdiv (pos a) (negsuc b) = ground arith
abs-tdiv (negsuc a) (pos b) = ground arith
abs-tdiv (negsuc a) (negsuc b) = refl

pub negative_tdiv :
    (a b : ℤ) → is_negative (tdiv a b) ≡ (ltb 0 (abs (tdiv a b)) && quotient_negative a b)
unfolding tdiv
negative_tdiv (pos a) (pos b) = ground arith
negative_tdiv (pos a) (negsuc b) = ground arith
negative_tdiv (negsuc a) (pos b) = ground arith
negative_tdiv (negsuc a) (negsuc b) = ground arith
