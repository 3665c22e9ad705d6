-- ===== src/Inspect.antt =====
-- The INSPECT statement: the `cob_inspect_` functions of libcob/strings.c over the static variables
-- of that file. `inspect_start` and `inspect_end` are offsets into the data, a mark of -1 is `none`,
-- and what a function adds to its tally field is returned.
pub mod Scan
pub mod Convert
pub mod Marks
pub mod Count
pub mod Upward
pub mod Downward
pub mod Tally
mod Examples
use blitzy_open_cobol.Base.{
  ℕ, zero, suc, ◌+◌, ◌-◌, ◌==◌, Bool, true, false, not, ◌&&◌, ◌||◌, Option, none, some, List, [],
  ◌∷◌, map, length, take, drop, replicate, get_or, ltb, leb, if◌then◌else◌, starts_with,
}
use blitzy_open_cobol.Base.Int.{ℤ}
use blitzy_open_cobol.Base.Buffers.{copy_at, find_first}
use blitzy_open_cobol.Inspect.Scan.{
  Mark, is_free, all_free, InspectType, is_leading, is_first, stands_at, matches_at, scan_up,
  scan_down, scan,
}
use blitzy_open_cobol.Field.{Field, Module, ExceptionId, digit_bytes, put_digit_bytes}
use blitzy_open_cobol.Field.Sign.{get_sign, put_sign}

pub record InspectState : Type 0 where
  pub inspect_var : Field
  pub inspect_sign : ℤ
  pub inspect_replacing : Bool
  pub inspect_data : List ℕ
  pub inspect_mark : List Mark
  pub inspect_start : ℕ
  pub inspect_end : ℕ
  pub exception : Option ExceptionId

unfoldable pub inspect_init : Module → Field → Bool → InspectState
inspect_init m var replacing =
    let (sign, f) = get_sign m var in
    record {
      inspect_var = f;
      inspect_sign = sign;
      inspect_replacing = replacing;
      inspect_data = digit_bytes f;
      inspect_mark = replicate (length (digit_bytes f)) none;
      inspect_start = 0;
      inspect_end = 0;
      exception = none;
    }

abbrev pub begin : InspectState → InspectState
begin s = record s { inspect_start = 0; inspect_end = length s.inspect_data }

-- The search of `before` and `after`, from `inspect_start` on.
abbrev pub find_in_region : InspectState → List ℕ → Option ℕ
find_in_region s str =
    find_first str (s.inspect_end - s.inspect_start + 1 - length str)
      (drop s.inspect_start s.inspect_data)

unfoldable pub inspect_before : InspectState → List ℕ → InspectState
unfolding find_first
inspect_before s str = elim (find_in_region s str) [
  | none ↦ s
  | some i ↦ record s { inspect_end = s.inspect_start + i }
]

unfoldable pub inspect_after : InspectState → List ℕ → InspectState
unfolding find_first
inspect_after s str = elim (find_in_region s str) [
  | none ↦ record s { inspect_start = s.inspect_end }
  | some i ↦ record s { inspect_start = s.inspect_start + i + length str }
]

-- The marks of the region, and those with the region's replaced.
abbrev pub region_size : InspectState → ℕ
region_size s = s.inspect_end - s.inspect_start

abbrev pub region {ℓ} : {A : Type ℓ} → InspectState → List A → List A
region s xs = take (region_size s) (drop s.inspect_start xs)

unfoldable pub mark_free : Mark → List Mark → List Mark × ℕ
mark_free new [] = ([], 0)
mark_free new (none ∷ marks) = let (rest, n) = mark_free new marks in (new ∷ rest, suc n)
mark_free new (some v ∷ marks) = let (rest, n) = mark_free new marks in (some v ∷ rest, n)

unfoldable pub inspect_characters : InspectState → List ℕ → InspectState × ℕ
unfolding mark_free copy_at
inspect_characters s f1 =
    let new = if s.inspect_replacing then some (get_or f1 0 0) else some 1 in
    let (marks, n) = mark_free new (region s s.inspect_mark) in
    (
      record s { inspect_mark = copy_at s.inspect_mark s.inspect_start marks },
      (if s.inspect_replacing then 0 else n),
    )

-- `size` bytes of `f1` over and over: `left` is what is left of it.
unfoldable pub alloc_figurative : List ℕ → List ℕ → ℕ → List ℕ
alloc_figurative f1 left zero = []
alloc_figurative f1 [] (suc size) = get_or f1 0 0 ∷ alloc_figurative f1 (drop 1 f1) size
alloc_figurative f1 (b ∷ left) (suc size) = b ∷ alloc_figurative f1 left size

-- `all` says whether `f1` is of type COB_TYPE_ALPHANUMERIC_ALL.
unfoldable pub inspect_common :
    InspectState → Bool → List ℕ → List ℕ → InspectType → InspectState × ℕ
unfolding scan copy_at alloc_figurative
inspect_common s all f1 f2 kind =
    let fits = length f1 == length f2 in
    let filled = if fits then f1 else alloc_figurative f1 f1 (length f2) in
    let new =
      if s.inspect_replacing
      then map (λ (b : ℕ). some b) filled
      else replicate (length f2) (some 1) in
    let (marks, n) = scan kind f2 new (region s s.inspect_data) (region s s.inspect_mark) in
    if s.inspect_replacing && (not fits && not all)
    then (record s { exception = some ExceptionId.range_inspect_size }, 0)
    else (
      record s { inspect_mark = copy_at s.inspect_mark s.inspect_start marks },
      (if s.inspect_replacing then 0 else n),
    )

-- The inner loop of `cob_inspect_converting`, for one byte `c` and its replacement `v`.
unfoldable pub convert_pass : ℕ → ℕ → List ℕ → List Mark → List ℕ × List Mark
convert_pass c v [] marks = ([], marks)
convert_pass c v (b ∷ bytes) [] = (b ∷ bytes, [])
convert_pass c v (b ∷ bytes) (m ∷ marks) =
    let (rest, rest_marks) = convert_pass c v bytes marks in
    let hit = is_free m && b == c in
    ((if hit then v else b) ∷ rest, (if hit then some 1 else m) ∷ rest_marks)

-- The byte at `j` of `f2`, or its last one.
abbrev pub replacement : List ℕ → ℕ → ℕ
replacement f2 j = get_or f2 (if leb (length f2) j then length f2 - 1 else j) 0

unfoldable pub convert_loop : List ℕ → List ℕ → ℕ → List ℕ → List Mark → List ℕ × List Mark
unfolding convert_pass
convert_loop [] f2 j bytes marks = (bytes, marks)
convert_loop (c ∷ f1) f2 j bytes marks =
    let (b, m) = convert_pass c (replacement f2 j) bytes marks in convert_loop f1 f2 (suc j) b m

-- The marks are counted from the beginning of `inspect_mark`, not from `inspect_start`.
unfoldable pub inspect_converting : InspectState → List ℕ → List ℕ → InspectState
unfolding convert_loop copy_at
inspect_converting s f1 f2 =
    let marks = take (region_size s) s.inspect_mark in
    let (b, m) = convert_loop f1 f2 0 (region s s.inspect_data) marks in
    record s {
      inspect_data = copy_at s.inspect_data s.inspect_start b;
      inspect_mark = copy_at s.inspect_mark 0 m;
    }

unfoldable pub put_marks : List ℕ → List Mark → List ℕ
put_marks [] marks = []
put_marks (b ∷ bytes) [] = b ∷ bytes
put_marks (b ∷ bytes) (none ∷ marks) = b ∷ put_marks bytes marks
put_marks (b ∷ bytes) (some v ∷ marks) = v ∷ put_marks bytes marks

unfoldable pub inspect_finish : Module → InspectState → Field
unfolding put_marks
inspect_finish m s =
    let bytes =
      if s.inspect_replacing then put_marks s.inspect_data s.inspect_mark else s.inspect_data in
    put_sign m (put_digit_bytes s.inspect_var bytes) s.inspect_sign
