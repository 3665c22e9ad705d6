-- ===== src/Files/Verbs.antt =====
-- The statements on files: cob_open, cob_close, cob_start, cob_read, cob_write, cob_rewrite and
-- cob_delete of libcob/fileio.c, over the functions of the file's organization. Nothing is synced to
-- disk (`cob_do_sync` is 0). `none` stands for undefined behaviour.
use blitzy_open_cobol.Base.{
  ℕ, ◌-◌, ◌^◌, ◌==◌, Bool, true, false, not, ◌&&◌, ◌||◌, Option, none, some, List, ltb,
  if◌then◌else◌,
}
use blitzy_open_cobol.Base.Int.{ℤ, pos, pos_part, neg_part, is_negative}
use blitzy_open_cobol.Files.{
  CobFile, FileioFuncs, KeyField, Outcome, saved, open_closed, open_input, open_output, open_i_o,
  open_extend, open_locked, access_sequential, access_random, close_lock, org_sequential,
}
use blitzy_open_cobol.Files.Plain.{Host}
use blitzy_open_cobol.Files.Names.{map_file_name}

-- The name of a file as ASSIGN gives it, after the file name mapping.
abbrev pub file_open_name : Host → List ℕ → List ℕ
file_open_name host name =
    map_file_name host.getenv host.flag_filename_mapping host.cob_file_path name

-- A check that ends the statement with a status, or else what follows it.
abbrev refuse : CobFile → ℕ → Option CobFile
refuse f status = saved (some (f, status))

-- The values of errno that cob_open tells apart, as on Linux.
abbrev pub enoent : ℕ
enoent = 2

abbrev pub eagain : ℕ
eagain = 11

abbrev pub eacces : ℕ
eacces = 13

abbrev pub eisdir : ℕ
eisdir = 21

abbrev pub erofs : ℕ
erofs = 30

-- The flags of an OPTIONAL file that is not there.
abbrev nonexistent : CobFile → ℕ → CobFile
nonexistent f mode = record f {
  open_mode = mode;
  flag_nonexistent = true;
  flag_end_of_file = true;
  flag_begin_of_file = true;
}

-- The switch over what the open function of the table returns.
unfoldable pub opened : ℕ → Bool → Outcome → Outcome
opened mode was_not_exist none = none
opened mode was_not_exist (some (f, ret)) =
    if ret == 0
    then some (record f { open_mode = mode }, if f.flag_optional && was_not_exist then 5 else 0)
    else if ret == enoent
    then (if mode == open_extend || mode == open_output
        then some (f, 30)
        else if f.flag_optional
        then some (nonexistent f mode, 5)
        else some (f, 35))
    else if ret == eacces || ret == eisdir || ret == erofs
    then some (f, 37)
    else if ret == eagain || ret == 61
    then some (f, 61)
    else if ret == 91
    then some (f, 91)
    else some (f, 30)

-- A special file is the terminal's input or output.
unfoldable pub open_special : Host → CobFile → ℕ → CobFile × ℕ
open_special host f mode =
    if f.special == 1
    then (if mode == open_input
        then (record f { stream = some host.stdin; open_mode = mode }, 0)
        else (f, 30))
    else if mode == open_output
    then (record f { stream = some host.stdout; open_mode = mode }, 0)
    else (f, 30)

-- The flags that OPEN resets.
unfoldable pub open_flags : CobFile → ℕ → CobFile
open_flags f mode = record f {
  flag_read_done = false;
  last_open_mode = mode;
  flag_nonexistent = false;
  flag_end_of_file = false;
  flag_begin_of_file = false;
  flag_first_read = 2;
}

-- The end of `cob_close`: a status of 0 changes the open mode.
unfoldable pub closed : ℕ → Outcome → Option CobFile
closed opt none = none
closed opt (some (f, ret)) =
    if ret == 0
    then refuse (record f { open_mode = if opt == close_lock then open_locked else open_closed }) 0
    else refuse f ret

unfoldable pub started : Outcome → Option CobFile
started none = none
started (some (f, ret)) =
    if ret == 0
    then refuse
        (record f { flag_end_of_file = false; flag_begin_of_file = false; flag_first_read = 1 }) 0
    else refuse f ret

-- cob_set_int of the record's size on the RECORD VARYING field.
abbrev pub sized : KeyField → CobFile → Option ℤ → CobFile
sized sizes f none = f
sized sizes f (some _) =
    if f.organization == 1 then f else record f { record_size = some (sizes.set_int (pos f.size)) }

-- The switch over what the read function returned.
unfoldable pub read_done : KeyField → Bool → Outcome → Option CobFile
read_done sizes previous none = none
read_done sizes previous (some (f, ret)) =
    let good = record f {
      flag_first_read = 0;
      flag_read_done = true;
      flag_end_of_file = false;
      flag_begin_of_file = false;
    } in
    if ret == 0
    then refuse (sized sizes good f.record_size) 0
    else if ret == 10
    then refuse
        (if previous
          then record f { flag_begin_of_file = true }
          else record f { flag_end_of_file = true })
        10
    else refuse f ret

-- The size of the record to write: of the RECORD VARYING field, or of the record itself. A
-- negative int becomes a huge size_t.
abbrev pub as_size : ℤ → ℕ
as_size n = if is_negative n then 2 ^ 64 - neg_part n else pos_part n

abbrev pub write_size : Option ℤ → ℕ → ℕ
write_size none rec_size = rec_size
write_size (some n) rec_size = as_size n

-- Whether a WRITE is allowed in the open mode.
abbrev pub output_denied : CobFile → Bool
output_denied f =
    if f.access_mode == access_sequential
    then f.open_mode == open_closed || (f.open_mode == open_input || f.open_mode == open_i_o)
    else f.open_mode == open_closed || (f.open_mode == open_input || f.open_mode == open_extend)

-- The check of the sizes that REWRITE makes for a SEQUENTIAL file.
abbrev pub same_size : CobFile → ℕ → Bool
same_size f rec_size =
    f.size == rec_size && elim f.record_size [ none ↦ true | some n ↦ f.size == as_size n ]

module _ (funcs : FileioFuncs) where
  -- `cob_open` with the name that the file name mapping found.
  unfoldable pub open_named : Host → CobFile → List ℕ → ℕ → ℕ → Option CobFile
  open_named host f name mode sharing =
      let g = open_flags f mode in
      let h = record f { flag_read_done = false } in
      if f.open_mode == open_locked
      then refuse h 38
      else if not (f.open_mode == open_closed)
      then refuse h 41
      else if not (f.special == 0)
      then saved (some (open_special host g mode))
      else if host.missing name && (not (mode == open_output) && not f.flag_optional)
      then refuse g 35
      else saved (opened mode (host.missing name) (funcs.open_file g name mode sharing))

  unfoldable pub cob_open : Host → CobFile → List ℕ → ℕ → ℕ → Option CobFile
  cob_open host f name mode sharing = open_named host f (file_open_name host name) mode sharing

  unfoldable pub cob_close : CobFile → ℕ → Option CobFile
  cob_close f opt =
      let g = record f { flag_read_done = false } in
      if not (f.special == 0)
      then refuse (record g { open_mode = open_closed }) 0
      else if f.open_mode == open_closed
      then refuse g 42
      else if f.flag_nonexistent
      then closed opt (some (g, 0))
      else closed opt (funcs.close g opt)

  unfoldable pub cob_start : CobFile → ℕ → Option CobFile
  cob_start f cond =
      let g = record f { flag_read_done = false; flag_first_read = 0 } in
      if f.flag_nonexistent
      then refuse g 23
      else if f.open_mode == open_closed
          || (f.open_mode == open_output
              || (f.open_mode == open_extend || f.access_mode == access_random))
      then refuse g 47
      else started (funcs.start g cond)

  -- `keyed` is whether a key is given, `previous` the bit COB_READ_PREVIOUS of the options.
  unfoldable pub cob_read : KeyField → CobFile → Bool → Bool → Option CobFile
  cob_read sizes f keyed previous =
      let g = record f { flag_read_done = false } in
      if f.flag_nonexistent
      then (if f.flag_first_read == 0
          then refuse g 23
          else refuse (record g { flag_first_read = 0 }) 10)
      else if not keyed && (f.flag_end_of_file && not previous || f.flag_begin_of_file && previous)
      then refuse g 46
      else if f.open_mode == open_closed
          || (f.open_mode == open_output || f.open_mode == open_extend)
      then refuse g 47
      else read_done sizes previous (if keyed then funcs.read g else funcs.read_next g)

  unfoldable pub cob_write : CobFile → ℕ → ℕ → Option CobFile
  cob_write f rec_size opt =
      let g = record f { flag_read_done = false } in
      let n = write_size f.record_size rec_size in
      let h = record g { size = n } in
      if output_denied f
      then refuse g 48
      else if ltb n f.record_min || ltb f.record_max n
      then refuse h 44
      else saved (funcs.write h opt)

  unfoldable pub cob_rewrite : CobFile → ℕ → ℕ → Option CobFile
  cob_rewrite f rec_size opt =
      let g = record f { flag_read_done = false } in
      if not (f.open_mode == open_i_o)
      then refuse g 49
      else if f.access_mode == access_sequential && not f.flag_read_done
      then refuse g 43
      else if f.organization == org_sequential && not (same_size f rec_size)
      then refuse g 44
      else saved (funcs.rewrite g opt)

  unfoldable pub cob_delete : CobFile → Option CobFile
  cob_delete f =
      let g = record f { flag_read_done = false } in
      if not (f.open_mode == open_i_o)
      then refuse g 49
      else if f.access_mode == access_sequential && not f.flag_read_done
      then refuse g 43
      else saved (funcs.fdelete g)
