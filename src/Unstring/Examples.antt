-- ===== src/Unstring/Examples.antt =====
-- Runs of the UNSTRING statement, and the theorems about it applied.
use Prim.Native.Nat.{ℕ}
use blitzy_open_cobol.Base.{◌≡◌, refl, arith, true, false, none, some, List, [], ◌∷◌}
use blitzy_open_cobol.Base.Int.{pos}
use blitzy_open_cobol.Field.{ExceptionId}
use blitzy_open_cobol.Unstring.{
  UnstringState, unstring_init, unstring_delimited, unstring_into, unstring_finish, scan_delimiters,
  find_delimiter, take_piece, take_sized, skip_all,
}
use blitzy_open_cobol.Unstring.Pieces.{IsProgress, unstring_into-IsProgress}
use blitzy_open_cobol.Unstring.RoundTrip.{deliver, joined, deliver-joined}

abbrev source : List ℕ
source = b'A' ∷ b',' ∷ b'B' ∷ b'C' ∷ b',' ∷ []

abbrev state : UnstringState
state = record {
  unstring_src = source;
  unstring_ptr = none;
  dlm_list = record { uns_dlm = b',' ∷ []; uns_all = false } ∷ [];
  unstring_offset = pos 0;
  unstring_count = 0;
  exception = none;
}

two_pieces : (deliver state 5 2).0 ≡ (b'A' ∷ []) ∷ (b'B' ∷ b'C' ∷ []) ∷ []
unfolding deliver unstring_into scan_delimiters find_delimiter take_piece take_sized skip_all
two_pieces = refl

-- DELIMITED BY ALL "," skips both commas.
skips_all :
    (deliver
      (unstring_delimited (unstring_init (b'A' ∷ b',' ∷ b',' ∷ b'B' ∷ []) none) (b',' ∷ []) true)
      5
      2).0
    ≡ (b'A' ∷ []) ∷ (b'B' ∷ []) ∷ []
unfolding unstring_init deliver unstring_into scan_delimiters find_delimiter take_piece take_sized
    skip_all
skips_all = refl

left_over : (unstring_finish (deliver state 5 1).1).0 ≡ some ExceptionId.overflow_unstring
unfolding unstring_finish deliver unstring_into scan_delimiters find_delimiter take_piece take_sized
    skip_all
left_over = refl

deliver-joined_example :
    let (given, after) = deliver state 5 2 in
    (given ≡ (b'A' ∷ []) ∷ (b'B' ∷ b'C' ∷ []) ∷ [])
    × (after.unstring_offset ≡ pos 5)
    × ((unstring_finish after).0 ≡ none)
unfolding joined
deliver-joined_example =
    deliver-joined b',' [] ((b'A' ∷ []) ∷ (b'B' ∷ b'C' ∷ []) ∷ []) state 5
      ((refl, tt), ((refl, (refl, tt)), tt))
      (record { source = refl; delimiters = refl; offset = refl; going = refl })

unstring_into-IsProgress_example : IsProgress state (unstring_into state 5)
unstring_into-IsProgress_example =
    unstring_into-IsProgress state 5 refl (omega arith, tt) (omega arith)
