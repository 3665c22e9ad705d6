-- ===== src/Compare.antt =====
-- Comparison of fields that are not both numeric: `common_cmpc`, `common_cmps`, `cob_cmp_char`,
-- `cob_cmp_all` and `cob_cmp_alnum` of libcob/common.c. A result is C's `int`, of which callers read
-- the sign; a comparison unpacks the sign of a DISPLAY field and puts it back.
pub mod Padding
pub mod Repeat
mod Examples
use blitzy_open_cobol.Base.{
  ℕ, zero, suc, ◌-◌, ◌==◌, min, Bool, true, false, Option, none, some, List, [], ◌∷◌, length, drop,
  ltb, leb, if◌then◌else◌,
}
use blitzy_open_cobol.Base.Int.{ℤ, pos, sub_ℕ, neg_ℤ, ==_ℤ}
use blitzy_open_cobol.Field.{Field, FieldType, Module, size}
use blitzy_open_cobol.Field.Sign.{get_sign, put_sign}

-- `col[c]`, where there is a collating sequence.
abbrev pub weight : Option (ℕ → ℕ) → ℕ → ℕ
weight none c = c
weight (some col) c = col c

abbrev pub or_next : ℤ → ℤ → ℤ
or_next ret next = if ==_ℤ ret (pos 0) then next else ret

-- The first `size` bytes of `s1` against `c`.
unfoldable pub common_cmpc : Option (ℕ → ℕ) → List ℕ → ℕ → ℕ → ℤ
common_cmpc col s1 c zero = pos 0
common_cmpc col [] c (suc n) = pos 0
common_cmpc col (a ∷ s1) c (suc n) =
    or_next (sub_ℕ (weight col a) (weight col c)) (common_cmpc col s1 c n)

-- The first `size` bytes of both.
unfoldable pub common_cmps : Option (ℕ → ℕ) → List ℕ → List ℕ → ℕ → ℤ
common_cmps col s1 s2 zero = pos 0
common_cmps col [] s2 (suc n) = pos 0
common_cmps col (a ∷ s1) [] (suc n) = pos 0
common_cmps col (a ∷ s1) (b ∷ s2) (suc n) =
    or_next (sub_ℕ (weight col a) (weight col b)) (common_cmps col s1 s2 n)

abbrev pub is_packed : FieldType → Bool
is_packed FieldType.numeric_packed = true
is_packed _ = false

-- `if (COB_FIELD_TYPE (f) != COB_TYPE_NUMERIC_PACKED) cob_put_sign (f, sign);`
abbrev pub put_back : Module → Field → ℤ → Field
put_back m f sign = if is_packed f.attr.kind then f else put_sign m f sign

unfoldable pub cmp_char : Module → Field → ℕ → ℤ × Field
unfolding common_cmpc
cmp_char m f c =
    let (sign, g) = get_sign m f in
    (common_cmpc m.collating_sequence g.data_bytes c (size g), put_back m g sign)

-- `while (size >= f2->size)` and the rest; each turn compares one more copy of `f2`.
unfoldable pub all_loop : Option (ℕ → ℕ) → List ℕ → ℕ → List ℕ → ℕ → ℤ
unfolding common_cmps
all_loop col f2 zero bytes left = common_cmps col bytes f2 left
all_loop col f2 (suc fuel) bytes left =
    let rest = all_loop col f2 fuel (drop (length f2) bytes) (left - length f2) in
    if leb (length f2) left
    then or_next (common_cmps col bytes f2 (length f2)) rest
    else common_cmps col bytes f2 left

-- Each turn takes one byte at least, since a field is not empty.
unfoldable pub cmp_all : Module → Field → Field → ℤ × Field
unfolding all_loop
cmp_all m f1 f2 =
    let (sign, g) = get_sign m f1 in
    (all_loop m.collating_sequence f2.data_bytes (size g) g.data_bytes (size g), put_back m g sign)

-- The bytes of `cob_cmp_alnum`: the common part, then the rest against spaces.
unfoldable pub cmp_bytes : Option (ℕ → ℕ) → List ℕ → List ℕ → ℤ
unfolding common_cmpc common_cmps
cmp_bytes col s1 s2 =
    let common = min (length s1) (length s2) in
    or_next (common_cmps col s1 s2 common) (
      if ltb (length s2) (length s1)
      then common_cmpc col (drop common s1) b' ' (length s1 - common)
      else if ltb (length s1) (length s2)
      then neg_ℤ (common_cmpc col (drop common s2) b' ' (length s2 - common))
      else pos 0)

unfoldable pub cmp_alnum : Module → Field → Field → ℤ × (Field × Field)
unfolding cmp_bytes
cmp_alnum m f1 f2 =
    let (sign1, g1) = get_sign m f1 in
    let (sign2, g2) = get_sign m f2 in
    (
      cmp_bytes m.collating_sequence g1.data_bytes g2.data_bytes,
      (put_back m g1 sign1, put_back m g2 sign2),
    )
