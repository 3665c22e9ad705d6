-- ===== src/Samples.antt =====
-- Sample fields and run-time modules for the tests.
use blitzy_open_cobol.Base.{ℕ, true, false, none, List}
use blitzy_open_cobol.Base.Int.{ℤ, pos}
use blitzy_open_cobol.Field.{Attr, Field, FieldType, Module}

-- Native signs, binary truncation, and no collating sequence.
abbrev pub ascii_module : Module
ascii_module = record {
  display_sign = false;
  flag_binary_truncate = true;
  decimal_point = b'.';
  numeric_separator = b',';
  collating_sequence = none;
}

abbrev pub ebcdic_module : Module
ebcdic_module = record ascii_module { display_sign = true }

abbrev pub plain_attr : FieldType → ℕ → Attr
plain_attr kind digits = record {
  kind = kind;
  digits = digits;
  scale = pos 0;
  have_sign = false;
  sign_separate = false;
  sign_leading = false;
  blank_zero = false;
  justified = false;
  binary_swap = false;
  real_binary = false;
}

-- PIC S9(n) DISPLAY
abbrev pub signed_display : List ℕ → ℤ → Field
signed_display bytes scale = record {
  data_bytes = bytes;
  attr = record (plain_attr FieldType.numeric_display 3) { have_sign = true; scale = scale };
}

abbrev pub alphanumeric_field : List ℕ → Field
alphanumeric_field bytes = record { data_bytes = bytes; attr = plain_attr FieldType.alphanumeric 0 }

-- COMP-3, with two digits and a sign nibble in each two bytes.
abbrev pub signed_packed : List ℕ → ℕ → Field
signed_packed bytes digits = record {
  data_bytes = bytes;
  attr = record (plain_attr FieldType.numeric_packed digits) { have_sign = true };
}
