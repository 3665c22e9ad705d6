-- ===== src/Files/Sequential/Samples.antt =====
-- Test data: an empty file that is open for output, with records of one to three bytes.
use blitzy_open_cobol.Base.{false, true, none, some, [], ◌∷◌}
use blitzy_open_cobol.Files.{CobFile, access_sequential, open_output, org_sequential}
use blitzy_open_cobol.Files.Stdio.{Stream}

abbrev pub fresh : Stream
fresh = record {
  byte = λ i. 0;
  size = 0;
  position = 0;
  readable = false;
  writable = true;
  append = false;
  broken = false;
  ferror = false;
}

abbrev pub journal : CobFile
journal = record {
  organization = org_sequential;
  access_mode = access_sequential;
  open_mode = open_output;
  last_open_mode = open_output;
  special = 0;
  flag_optional = false;
  flag_nonexistent = false;
  flag_end_of_file = false;
  flag_begin_of_file = false;
  flag_first_read = 2;
  flag_read_done = false;
  flag_needs_nl = false;
  record_min = 1;
  record_max = 3;
  size = 3;
  record_data = 0 ∷ 0 ∷ 0 ∷ [];
  record_size = none;
  relative_key = none;
  file_status = (b'0', b'0');
  exception = none;
  stream = some fresh;
  on_disk = none;
}
