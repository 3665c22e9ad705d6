-- ===== src/Field/Sign.antt =====
-- The sign of a numeric field: `cob_real_get_sign`, `cob_real_put_sign` and their helpers in
-- libcob/common.c. The machine is an ASCII one: COB_EBCDIC_MACHINE is not defined.
pub mod RoundTrip
pub mod Reads
mod Examples
use blitzy_open_cobol.Base.{
  ℕ, ◌-◌, ◌+◌, ◌%◌, Bool, ◌&&◌, List, get_or, set, if◌then◌else◌, ◌==◌, leb,
}
use blitzy_open_cobol.Base.Int.{ℤ, pos, negsuc, ltb_ℤ}
use blitzy_open_cobol.Base.Nibbles.{low_nibble, set_low}
use blitzy_open_cobol.Field.{Field, Module, FieldType, size}

-- A sign is 1, 0 or -1; the value read and the byte left in its place.
unfoldable pub get_sign_ebcdic : ℕ → ℤ × ℕ
get_sign_ebcdic p =
    if p == b'{'
    then (pos 1, b'0')
    else if leb b'A' p && leb p b'I'
    then (pos 1, p - b'A' + b'1')
    else if p == b'}'
    then (negsuc 0, b'0')
    else if leb b'J' p && leb p b'R'
    then (negsuc 0, p - b'J' + b'1')
    else (pos 1, b'0')

unfoldable pub put_sign_ebcdic : ℕ → ℤ → ℕ
put_sign_ebcdic p sign =
    if ltb_ℤ sign (pos 0)
    then (if leb b'1' p && leb p b'9' then p - b'1' + b'J' else b'}')
    else if leb b'1' p && leb p b'9'
    then p - b'1' + b'A'
    else b'{'

-- Where the sign stands: the first byte or the last.
abbrev pub sign_index : Field → ℕ
sign_index f = if f.attr.sign_leading then 0 else size f - 1

-- The sign byte of a DISPLAY field without a separate sign: the sign and the digit under it.
unfoldable pub get_sign_byte : Module → ℕ → ℤ × ℕ
unfolding get_sign_ebcdic
get_sign_byte m p =
    if leb b'0' p && leb p b'9'
    then (pos 1, p)
    else if p == b' '
    then (pos 1, b'0')
    else if m.display_sign
    then get_sign_ebcdic p
    else (negsuc 0, (p + 256 - 0x40) % 256)

unfoldable pub put_sign_byte : Module → ℕ → ℤ → ℕ
unfolding put_sign_ebcdic
put_sign_byte m p sign =
    if m.display_sign
    then put_sign_ebcdic p sign
    else if ltb_ℤ sign (pos 0)
    then (p + 0x40) % 256
    else p

-- `*p = v` at `data[i]`
abbrev pub write_byte : Field → ℕ → ℕ → Field
write_byte f i v = record f { data_bytes = set f.data_bytes i v }

-- `kind` is the field's type, passed apart to be matched.
unfoldable pub real_get_sign : Module → FieldType → Field → ℤ × Field
unfolding get_sign_byte
real_get_sign m FieldType.numeric_display f =
    let p = get_or f.data_bytes (sign_index f) 0 in
    let (sign, digit) = get_sign_byte m p in
    if f.attr.sign_separate
    then ((if p == b'+' then pos 1 else negsuc 0), f)
    else (sign, write_byte f (sign_index f) digit)
real_get_sign m FieldType.numeric_packed f =
    ((if low_nibble (get_or f.data_bytes (size f - 1) 0) == 0x0d then negsuc 0 else pos 1), f)
real_get_sign m _ f = (pos 0, f)

unfoldable pub real_put_sign : Module → FieldType → Field → ℤ → Field
unfolding put_sign_byte
real_put_sign m FieldType.numeric_display f sign =
    let p = get_or f.data_bytes (sign_index f) 0 in
    let separate = if ltb_ℤ sign (pos 0) then b'-' else b'+' in
    write_byte f (sign_index f) (if f.attr.sign_separate then separate else put_sign_byte m p sign)
real_put_sign m FieldType.numeric_packed f sign =
    let p = get_or f.data_bytes (size f - 1) 0 in
    write_byte f (size f - 1) (if ltb_ℤ sign (pos 0) then set_low p 0x0d else set_low p 0x0c)
real_put_sign m _ f sign = f

-- The macros `cob_get_sign` and `cob_put_sign`: a field with no sign has sign 0.
unfoldable pub get_sign : Module → Field → ℤ × Field
unfolding real_get_sign
get_sign m f = if f.attr.have_sign then real_get_sign m f.attr.kind f else (pos 0, f)

unfoldable pub put_sign : Module → Field → ℤ → Field
unfolding real_put_sign
put_sign m f sign = if f.attr.have_sign then real_put_sign m f.attr.kind f sign else f
