-- ===== src/Field.antt =====
-- `cob_field`, `cob_field_attr` and the field macros of libcob/common.h, the run-time module record
-- that the library reads, and the exceptions that it sets. A field's `size` is the length of `data`.
pub mod Sign
use blitzy_open_cobol.Base.{
  ℕ, ◌-◌, ◌+◌, Bool, true, false, Option, List, length, drop, take, ◌++◌, ◌&&◌, if◌then◌else◌,
}
use blitzy_open_cobol.Base.Int.{ℤ}

pub data FieldType : Type 0 where
  group boolean : FieldType
  numeric_display numeric_binary numeric_packed numeric_float numeric_double : FieldType
  numeric_edited alphanumeric alphanumeric_all alphanumeric_edited : FieldType
  national national_edited : FieldType

pub record Attr : Type 0 where
  pub kind : FieldType
  pub digits : ℕ
  pub scale : ℤ
  pub have_sign : Bool
  pub sign_separate : Bool
  pub sign_leading : Bool
  pub blank_zero : Bool
  pub justified : Bool
  pub binary_swap : Bool
  pub real_binary : Bool

pub record Field : Type 0 where
  pub data_bytes : List ℕ
  pub attr : Attr

-- The part of `struct cob_module` that the modelled code reads.
pub record Module : Type 0 where
  pub display_sign : Bool
  pub flag_binary_truncate : Bool
  pub decimal_point : ℕ
  pub numeric_separator : ℕ
  pub collating_sequence : Option (ℕ → ℕ)

-- The exceptions that the modelled code sets.
pub data ExceptionId : Type 0 where
  argument_function bound_odo bound_ref_mod bound_subscript : ExceptionId
  overflow_string overflow_unstring range_inspect_size : ExceptionId
  size_overflow size_zero_divide : ExceptionId

-- `f->size`
abbrev pub size : Field → ℕ
size f = length f.data_bytes

-- COB_FIELD_SIZE: a separate sign takes one byte.
abbrev pub field_size : Field → ℕ
field_size f = size f - (if f.attr.sign_separate then 1 else 0)

-- COB_FIELD_DATA, as an offset: the digits begin behind a separate leading sign.
abbrev pub data_offset : Field → ℕ
data_offset f = if f.attr.sign_separate && f.attr.sign_leading then 1 else 0

-- The COB_FIELD_SIZE bytes at COB_FIELD_DATA, and the field with these bytes replaced.
abbrev pub digit_bytes : Field → List ℕ
digit_bytes f = take (field_size f) (drop (data_offset f) f.data_bytes)

abbrev pub put_digit_bytes : Field → List ℕ → Field
put_digit_bytes f bytes = record f {
  data_bytes =
      take (data_offset f) f.data_bytes
      ++ (bytes ++ drop (data_offset f + field_size f) f.data_bytes);
}
