-- ===== src/StringVerb.antt =====
-- The STRING statement: `cob_string_init`, `cob_string_delimited`, `cob_string_append` and
-- `cob_string_finish` of libcob/strings.c. The static variables of the file are the state. Fields
-- are their bytes; the pointer field is the number that `cob_get_int` reads of it and the number
-- that `cob_set_int` stores in it. The source fields lie apart from the destination.
pub mod Text
pub mod Pointer
mod Examples
use blitzy_open_cobol.Base.{
  ℕ, ◌+◌, ◌-◌, not, Option, none, some, List, [], ◌∷◌, length, take, leb, if◌then◌else◌, ◌||◌,
}
use blitzy_open_cobol.Base.Int.{ℤ, pos, ◌-ℤ◌, ◌+ℤ◌, ltb_ℤ, pos_part}
use blitzy_open_cobol.Base.Buffers.{copy_at, find_first}
use blitzy_open_cobol.Field.{ExceptionId}

pub record StringState : Type 0 where
  pub string_dst : List ℕ
  pub string_ptr : Option ℤ
  pub string_dlm : Option (List ℕ)
  pub string_offset : ℤ
  pub exception : Option ExceptionId

-- The delimiter of the statement before is still there.
unfoldable pub string_init : StringState → List ℕ → Option ℤ → StringState
string_init s dst none = record s {
  string_dst = dst;
  string_ptr = none;
  string_offset = pos 0;
  exception = none;
}
string_init s dst (some ptr) =
    let offset = ptr -ℤ pos 1 in
    record s {
      string_dst = dst;
      string_ptr = some ptr;
      string_offset = offset;
      exception =
          if ltb_ℤ offset (pos 0) || not (ltb_ℤ offset (pos (length dst)))
          then some ExceptionId.overflow_string
          else none;
    }

unfoldable pub string_delimited : StringState → Option (List ℕ) → StringState
string_delimited s dlm = record s { string_dlm = dlm }

abbrev pub place_or : Option ℕ → ℕ → ℕ
place_or none whole = whole
place_or (some i) whole = i

-- The size of the part of `src` before the delimiter.
unfoldable pub delimited_size : Option (List ℕ) → List ℕ → ℕ
delimited_size none src = length src
delimited_size (some dlm) src =
    place_or (find_first dlm (length src + 1 - length dlm) src) (length src)

-- `if (cob_exception_code) return;`
abbrev pub unless_raised : Option ExceptionId → StringState → StringState → StringState
unless_raised none s next = next
unless_raised (some e) s next = s

-- `string_offset` is not negative here; `append-IsWritten` of Text shows it.
unfoldable pub string_append : StringState → List ℕ → StringState
string_append s src =
    let offset = pos_part s.string_offset in
    let src_size = delimited_size s.string_dlm src in
    let size = length s.string_dst - offset in
    unless_raised s.exception s (
      if leb src_size size
      then record s {
        string_dst = copy_at s.string_dst offset (take src_size src);
        string_offset = pos (offset + src_size);
      }
      else record s {
        string_dst = copy_at s.string_dst offset (take size src);
        string_offset = pos (offset + size);
        exception = some ExceptionId.overflow_string;
      })

-- The number stored in the pointer field.
unfoldable pub string_finish : StringState → Option ℤ
string_finish s = elim s.string_ptr [ none ↦ none | some ptr ↦ some (s.string_offset +ℤ pos 1) ]

-- The calls that the compiler makes of one statement, between `init` and `finish`.
pub data StringCall : Type 0 where
  delimited : Option (List ℕ) → StringCall
  append : List ℕ → StringCall

unfoldable pub string_calls : StringState → List StringCall → StringState
unfolding string_delimited string_append
string_calls s [] = s
string_calls s (StringCall.delimited dlm ∷ calls) = string_calls (string_delimited s dlm) calls
string_calls s (StringCall.append src ∷ calls) = string_calls (string_append s src) calls
