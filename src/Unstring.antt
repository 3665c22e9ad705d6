-- ===== src/Unstring.antt =====
-- The UNSTRING statement: the `cob_unstring_` functions of libcob/strings.c over the static
-- variables of that file. The bytes that are moved to the receiving fields are returned; the moves
-- themselves are `cob_move`. The pointer field is the number that `cob_get_int` reads of it and the
-- number that `cob_set_int` stores in it.
pub mod Pieces
pub mod RoundTrip
mod Examples
use blitzy_open_cobol.Base.{
  ℕ, zero, suc, ◌+◌, ◌-◌, ◌==◌, min, Bool, true, false, not, ◌&&◌, ◌||◌, Option, none, some, List,
  [], ◌∷◌, ◌++◌, length, take, drop, ltb, leb, if◌then◌else◌, starts_with,
}
use blitzy_open_cobol.Base.Int.{ℤ, pos, ◌-ℤ◌, ◌+ℤ◌, ltb_ℤ, pos_part}
use blitzy_open_cobol.Field.{ExceptionId}

-- `struct dlm_struct`
pub record Delimiter : Type 0 where
  pub uns_dlm : List ℕ
  pub uns_all : Bool

pub record UnstringState : Type 0 where
  pub unstring_src : List ℕ
  pub unstring_ptr : Option ℤ
  pub dlm_list : List Delimiter
  pub unstring_offset : ℤ
  pub unstring_count : ℕ
  pub exception : Option ExceptionId

abbrev pub first_offset : Option ℤ → ℤ
first_offset none = pos 0
first_offset (some ptr) = ptr -ℤ pos 1

unfoldable pub unstring_init : List ℕ → Option ℤ → UnstringState
unstring_init src ptr =
    let offset = first_offset ptr in
    record {
      unstring_src = src;
      unstring_ptr = ptr;
      dlm_list = [];
      unstring_offset = offset;
      unstring_count = 0;
      exception = elim ptr [
        | none ↦ none
        | some p ↦
            if ltb_ℤ offset (pos 0) || not (ltb_ℤ offset (pos (length src)))
            then some ExceptionId.overflow_unstring
            else none
      ];
    }

abbrev pub unstring_delimited : UnstringState → List ℕ → Bool → UnstringState
unstring_delimited s dlm all = record s {
  dlm_list = s.dlm_list ++ record { uns_dlm = dlm; uns_all = all } ∷ [];
}

-- What one receiving field gets: the bytes moved to it, the delimiter that was found, and the count.
pub record Delivered : Type 0 where
  pub into : List ℕ
  pub delimiter : Option (List ℕ)
  pub match_size : ℕ

-- The first delimiter of the list that stands at the beginning of `rest`.
unfoldable pub find_delimiter : List Delimiter → List ℕ → Option Delimiter
find_delimiter [] rest = none
find_delimiter (d ∷ dlms) rest =
    let later = find_delimiter dlms rest in if starts_with d.uns_dlm rest then some d else later

-- How many bytes stand in front of the first delimiter, and which one it is.
abbrev pub or_later : Option Delimiter → Option (ℕ × Delimiter) → Option (ℕ × Delimiter)
or_later (some d) later = some (0, d)
or_later none none = none
or_later none (some (n, d)) = some (suc n, d)

unfoldable pub scan_delimiters : List Delimiter → List ℕ → Option (ℕ × Delimiter)
unfolding find_delimiter
scan_delimiters dlms [] = none
scan_delimiters dlms (b ∷ rest) =
    or_later (find_delimiter dlms (b ∷ rest)) (scan_delimiters dlms rest)

-- DELIMITED BY ALL: the size of the further delimiters at the beginning of `rest`, one of them in
-- each turn.
unfoldable pub skip_all : List ℕ → ℕ → List ℕ → ℕ
skip_all dlm zero rest = 0
skip_all dlm (suc fuel) rest =
    let more = skip_all dlm fuel (drop (length dlm) rest) in
    if ltb 0 (length rest) && starts_with dlm rest then length dlm + more else 0

-- The branches of `cob_unstring_into` over what the search finds: the delivery, and how far the
-- offset moves.
unfoldable pub take_piece : Option (ℕ × Delimiter) → List ℕ → Delivered × ℕ
unfolding skip_all
take_piece none rest =
    (record { into = rest; delimiter = none; match_size = length rest }, length rest)
take_piece (some (n, d)) rest =
    let behind = drop (n + length d.uns_dlm) rest in
    (
      record { into = take n rest; delimiter = some d.uns_dlm; match_size = n },
      n + length d.uns_dlm + (if d.uns_all then skip_all d.uns_dlm (length behind) behind else 0),
    )

unfoldable pub take_sized : ℕ → List ℕ → Delivered × ℕ
take_sized dst_size rest =
    let n = min dst_size (length rest) in
    (record { into = take n rest; delimiter = none; match_size = n }, n)

abbrev pub unless_stopped {ℓ} : {A : Type ℓ} → Option ExceptionId → Bool → Option A → Option A
unless_stopped (some e) done next = none
unless_stopped none true next = none
unless_stopped none false next = next

-- The next delivery for a field of this size, with the state behind it; none where the function
-- returns at once.
unfoldable pub unstring_into : UnstringState → ℕ → Option (Delivered × UnstringState)
unfolding scan_delimiters take_piece take_sized
unstring_into s dst_size =
    let offset = pos_part s.unstring_offset in
    let rest = drop offset s.unstring_src in
    let (given, moved) =
      if length s.dlm_list == 0
      then take_sized dst_size rest
      else take_piece (scan_delimiters s.dlm_list rest) rest in
    unless_stopped s.exception (not (ltb_ℤ s.unstring_offset (pos (length s.unstring_src)))) (
      some (
        given,
        record s { unstring_offset = pos (offset + moved); unstring_count = suc s.unstring_count },
      ))

-- What is added to the tally field.
abbrev pub unstring_tallying : UnstringState → ℕ
unstring_tallying s = s.unstring_count

unfoldable pub unstring_finish : UnstringState → Option ExceptionId × Option ℤ
unstring_finish s = (
  (if ltb_ℤ s.unstring_offset (pos (length s.unstring_src))
      then some ExceptionId.overflow_unstring
      else s.exception),
  elim s.unstring_ptr [ none ↦ none | some ptr ↦ some (s.unstring_offset +ℤ pos 1) ],
)
