-- ===== src/Move.antt =====
-- The core of MOVE between numeric DISPLAY fields: `store_common_region` and
-- `cob_move_display_to_display` of libcob/move.c. The fields do not overlap.
pub mod Places
pub mod Layout
pub mod Alignment
mod Examples
use blitzy_open_cobol.Base.{ℕ, ◌==◌, List, map, length, take, drop, replicate, if◌then◌else◌}
use blitzy_open_cobol.Base.Int.{ℤ, pos, ◌+ℤ◌, ◌-ℤ◌, neg_ℤ, ltb_ℤ, pos_part}
use blitzy_open_cobol.Base.Buffers.{copy_at}
use blitzy_open_cobol.Field.{Field, Module, field_size, digit_bytes, put_digit_bytes}
use blitzy_open_cobol.Field.Sign.{get_sign, put_sign}

abbrev pub cob_min_int : ℤ → ℤ → ℤ
cob_min_int x y = if ltb_ℤ x y then x else y

abbrev pub cob_max_int : ℤ → ℤ → ℤ
cob_max_int x y = if ltb_ℤ y x then x else y

-- `if (*p == ' ') *q = '0'; else *q = *p;`
abbrev pub space_to_zero : ℕ → ℕ
space_to_zero c = if c == b' ' then b'0' else c

-- The digits that `store_common_region` leaves in a field with `size2` digits and `scale2`: of the
-- digits of `bytes`, with `scale1`, those whose power of ten the field has.
unfoldable pub common_region : ℕ → ℤ → List ℕ → ℤ → List ℕ
unfolding copy_at
common_region size2 scale2 bytes scale1 =
    let lf1 = neg_ℤ scale1 in
    let lf2 = neg_ℤ scale2 in
    let hf1 = pos (length bytes) +ℤ lf1 in
    let hf2 = pos size2 +ℤ lf2 in
    let lcf = cob_max_int lf1 lf2 in
    let gcf = cob_min_int hf1 hf2 in
    let zeros = replicate size2 b'0' in
    let csize = pos_part (gcf -ℤ lcf) in
    let stored = map space_to_zero (take csize (drop (pos_part (hf1 -ℤ gcf)) bytes)) in
    if ltb_ℤ lcf gcf then copy_at zeros (pos_part (hf2 -ℤ gcf)) stored else zeros

unfoldable pub store_common_region : Field → List ℕ → ℤ → Field
unfolding common_region
store_common_region f bytes scale =
    put_digit_bytes f (common_region (field_size f) f.attr.scale bytes scale)

-- Both fields: the sign of the first is unpacked and put back.
unfoldable pub move_display_to_display : Module → Field → Field → Field × Field
unfolding store_common_region
move_display_to_display m f1 f2 =
    let (sign, g) = get_sign m f1 in
    let h = store_common_region f2 (digit_bytes g) g.attr.scale in
    (put_sign m g sign, put_sign m h sign)
