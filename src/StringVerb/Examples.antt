-- ===== src/StringVerb/Examples.antt =====
-- Runs of the STRING statement, and the theorems about it applied.
use Prim.Native.Nat.{ℕ}
use blitzy_open_cobol.Base.{◌≡◌, refl, arith, none, some, List, [], ◌∷◌, inr}
use blitzy_open_cobol.Base.Int.{pos, ◌-ℤ◌, ◌+ℤ◌}
use blitzy_open_cobol.Base.Buffers.{copy_at, find_first}
use blitzy_open_cobol.Field.{ExceptionId}
use blitzy_open_cobol.StringVerb.{
  StringState, StringCall, string_init, string_calls, string_append, string_delimited,
  string_finish, delimited_size,
}
use blitzy_open_cobol.StringVerb.Text.{text, IsWritten}
use blitzy_open_cobol.StringVerb.Pointer.{IsPointer, start_of, string_calls-text, bad_pointer}

abbrev before : StringState
before = record {
  string_dst = [];
  string_ptr = none;
  string_dlm = none;
  string_offset = pos 0;
  exception = none;
}

abbrev blank : List ℕ
blank = b' ' ∷ b' ' ∷ b' ' ∷ b' ' ∷ b' ' ∷ []

-- STRING "AB,C" DELIMITED BY "," "XYZ" DELIMITED BY SIZE
abbrev two_pieces : List StringCall
two_pieces =
    StringCall.delimited (some (b',' ∷ []))
    ∷ StringCall.append (b'A' ∷ b'B' ∷ b',' ∷ b'C' ∷ [])
    ∷ StringCall.delimited none
    ∷ StringCall.append (b'X' ∷ b'Y' ∷ b'Z' ∷ [])
    ∷ []

fits_exactly :
    (string_calls (string_init before blank none) two_pieces).string_dst
    ≡ b'A' ∷ b'B' ∷ b'X' ∷ b'Y' ∷ b'Z' ∷ []
unfolding string_calls string_init string_append string_delimited delimited_size find_first copy_at
fits_exactly = refl

cut_off :
    let r = string_calls (string_init before blank (some (pos 2))) two_pieces in
    (r.string_dst ≡ b' ' ∷ b'A' ∷ b'B' ∷ b'X' ∷ b'Y' ∷ [])
    × (r.exception ≡ some ExceptionId.overflow_string)
    × (string_finish r ≡ some (pos 6))
unfolding string_calls string_init string_append string_delimited delimited_size find_first copy_at
    string_finish ◌-ℤ◌ ◌+ℤ◌
cut_off = (refl, refl, refl)

string_calls-text_example :
    IsWritten blank 1
      (text none two_pieces)
      (string_calls (string_init before blank (some (pos 2))) two_pieces)
unfolding IsPointer start_of
string_calls-text_example =
    string_calls-text before blank (some (pos 2)) two_pieces (omega arith, omega arith)

bad_pointer_example :
    let r = string_calls (string_init before blank (some (pos 6))) two_pieces in
    (r.string_dst ≡ blank)
    × (r.exception ≡ some ExceptionId.overflow_string)
    × (string_finish r ≡ some (pos 6))
bad_pointer_example = bad_pointer before blank (pos 6) two_pieces (inr (omega arith))
