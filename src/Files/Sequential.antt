-- ===== src/Files/Sequential.antt =====
-- SEQUENTIAL files of libcob/fileio.c, with the format WITH_VARSEQ 0 of records of varying size: two
-- bytes of the size, the high one first, two zero bytes, and the record. SEEK_INIT is nothing on Linux.
pub mod Append
pub mod Runs
pub mod RoundTrip
pub mod Samples
mod Examples
use blitzy_open_cobol.Base.{
  ℕ, zero, suc, ◌+◌, ◌-◌, ◌*◌, ◌/◌, ◌%◌, ◌^◌, ◌==◌, Bool, true, false, Option, none, some, List, [],
  ◌∷◌, ◌++◌, length, take, drop, ltb, if◌then◌else◌,
}
use blitzy_open_cobol.Files.{CobFile, FileioFuncs, Outcome}
use blitzy_open_cobol.Files.Plain.{Host, cob_file_open, cob_file_close}
use blitzy_open_cobol.Files.Stdio.{Stream, fread, fread_some, fwrite}

-- The options of WRITE: a number of lines, and bits.
abbrev pub write_mask : ℕ
write_mask = 2 ^ 16

abbrev pub write_lines : ℕ
write_lines = 2 ^ 16

abbrev pub write_page : ℕ
write_page = 2 ^ 17

abbrev pub write_after : ℕ
write_after = 2 ^ 20

abbrev pub write_before : ℕ
write_before = 2 ^ 21

abbrev pub has_bit : ℕ → ℕ → Bool
has_bit opt bit = opt / bit % 2 == 1

-- `putc`, where the result is not looked at.
unfoldable pub putc : ℕ → Stream → Stream
putc c s = (fwrite (c ∷ []) s).1

unfoldable pub put_lines : ℕ → Stream → Stream
put_lines zero s = s
put_lines (suc n) s = put_lines n (putc b'\n' s)

-- `cob_file_write_opt`, for a file without LINAGE.
unfoldable pub cob_file_write_opt : ℕ → Stream → Stream
cob_file_write_opt opt s =
    if has_bit opt write_lines
    then put_lines (opt % write_mask) s
    else if has_bit opt write_page
    then putc b'\x0c' s
    else s

-- The header of a record of varying size; a size_t is cut to an unsigned short.
abbrev pub size_header : ℕ → List ℕ
size_header n = n / 256 % 256 ∷ n % 256 ∷ 0 ∷ 0 ∷ []

abbrev pub header_size : List ℕ → ℕ
header_size (high ∷ low ∷ rest) = 256 * high + low
header_size _ = 0

-- The read of the record itself: an item that comes short ends with 10 or 04. A size beyond the
-- record makes fread write behind it, which is undefined.
unfoldable pub read_data : CobFile → Stream → Outcome
read_data f s =
    let (bytes, s') = fread_some f.size s in
    let g = record f {
      record_data = bytes ++ drop (length bytes) f.record_data;
      stream = some s';
    } in
    if ltb f.record_max (length bytes)
    then none
    else if length bytes == f.size
    then some (g, 0)
    else if s'.ferror
    then some (g, 30)
    else if length bytes == 0
    then some (g, 10)
    else some (g, 4)

unfoldable pub read_here : CobFile → Stream → Outcome
read_here f s =
    let (got, s') = fread 4 s in
    if f.record_min == f.record_max then read_data f s else elim got [
      | none ↦ some (record f { stream = some s' }, if s'.ferror then 30 else 10)
      | some header ↦ read_data (record f { size = header_size header }) s'
    ]

unfoldable pub sequential_read : CobFile → Outcome
sequential_read f = elim f.stream [ none ↦ none | some s ↦ read_here f s ]

-- The record, and the lines or the page behind it.
unfoldable pub write_data : CobFile → ℕ → Stream → CobFile × ℕ
write_data f opt s =
    let (done, s') = fwrite (take f.size f.record_data) s in
    if done
    then (if has_bit opt write_before
        then (record f { flag_needs_nl = false; stream = some (cob_file_write_opt opt s') }, 0)
        else (record f { stream = some s' }, 0))
    else (record f { stream = some s' }, 30)

unfoldable pub write_sized : CobFile → ℕ → Stream → CobFile × ℕ
write_sized f opt s =
    let (done, s') = fwrite (size_header f.size) s in
    if f.record_min == f.record_max
    then write_data f opt s
    else if done
    then write_data f opt s'
    else (record f { stream = some s' }, 30)

unfoldable pub sequential_write : CobFile → ℕ → Outcome
sequential_write f opt = elim f.stream [
  | none ↦ none
  | some s ↦
      if has_bit opt write_after
      then some (write_sized (record f { flag_needs_nl = true }) opt (cob_file_write_opt opt s))
      else some (write_sized f opt s)
]

-- `sequential_rewrite`: back over the record that was read, and over the beginning of the file
-- never.
unfoldable pub sequential_rewrite : CobFile → ℕ → Outcome
sequential_rewrite f opt = elim f.stream [
  | none ↦ none
  | some s ↦
      let (done, s') =
        fwrite (take f.size f.record_data) (record s { position = s.position - f.size }) in
      if ltb s.position f.size
      then some (f, 30)
      else some (record f { stream = some s' }, if done then 0 else 30)
]

-- The functions of a statement that the organization does not have, and the table
-- `sequential_funcs`.
abbrev pub dummy_rnxt_del : CobFile → Outcome
dummy_rnxt_del f = some (f, 91)

abbrev pub dummy_read : CobFile → Outcome
dummy_read f = some (f, 91)

abbrev pub dummy_start : CobFile → ℕ → Outcome
dummy_start f cond = some (f, 91)

abbrev pub dummy_rewrite : CobFile → ℕ → Outcome
dummy_rewrite f opt = some (f, 91)

abbrev pub sequential_funcs : Host → FileioFuncs
sequential_funcs host = record {
  open_file = cob_file_open host;
  close = cob_file_close;
  start = dummy_start;
  read = dummy_read;
  read_next = sequential_read;
  write = sequential_write;
  rewrite = sequential_rewrite;
  fdelete = dummy_rnxt_del;
}
