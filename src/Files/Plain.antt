-- ===== src/Files/Plain.antt =====
-- `cob_file_open` and `cob_file_close` of libcob/fileio.c, the open and close functions of all but
-- the INDEXED files, over what the operating system answers. There is no LINAGE clause.
use blitzy_open_cobol.Base.{
  ℕ, ◌==◌, Bool, false, not, ◌&&◌, ◌||◌, Option, none, some, List, [], ◌∷◌, leb, if◌then◌else◌,
  starts_with,
}
use blitzy_open_cobol.Files.{
  CobFile, Outcome, open_closed, open_input, open_output, open_i_o, open_extend, close_no_rewind,
  org_relative, org_line_sequential,
}
use blitzy_open_cobol.Files.Stdio.{Stream, fwrite}

-- The modes of fopen; on Linux "b" has no meaning.
pub data FopenMode : Type 0 where
  mode_r mode_w mode_w_plus mode_r_plus mode_a_plus : FopenMode

-- What fopen returns: a stream, or the errno.
pub data Fopen : Type 0 where
  stream_of : Stream → Fopen
  errno_of : ℕ → Fopen

-- The operating system: whether stat finds no such name, fopen, the errno of a lock that is refused,
-- for writing or for reading, the streams of the terminal, and getenv. With it go the two settings
-- for file names: whether they are mapped, and the directory of the files.
pub record Host : Type 0 where
  pub getenv : List ℕ → Option (List ℕ)
  pub flag_filename_mapping : Bool
  pub cob_file_path : Option (List ℕ)
  pub missing : List ℕ → Bool
  pub fopen : List ℕ → FopenMode → Fopen
  pub lock_refused : List ℕ → Bool → Option ℕ
  pub stdin : Stream
  pub stdout : Stream

unfoldable pub fopen_mode : ℕ → ℕ → FopenMode
fopen_mode organization mode =
    if mode == open_input
    then FopenMode.mode_r
    else if mode == open_output
    then (if organization == org_relative then FopenMode.mode_w_plus else FopenMode.mode_w)
    else if mode == open_i_o
    then FopenMode.mode_r_plus
    else FopenMode.mode_a_plus

-- "/dev/"
abbrev pub dev_prefix : List ℕ
dev_prefix = b'/' ∷ b'd' ∷ b'e' ∷ b'v' ∷ b'/' ∷ []

-- From fopen on: the end of the file for EXTEND, and the lock.
unfoldable pub locked_stream : Host → CobFile → List ℕ → ℕ → ℕ → Fopen → CobFile × ℕ
locked_stream host f name mode sharing (Fopen.errno_of e) = (f, e)
locked_stream host f name mode sharing (Fopen.stream_of s) =
    let s' = if mode == open_extend then record s { position = s.size } else s in
    let write_lock = not (sharing == 0) || mode == open_output in
    let refused = if starts_with dev_prefix name then none else host.lock_refused name write_lock in
    elim refused [ none ↦ (record f { stream = some s' }, 0) | some e ↦ (f, e) ]

unfoldable pub cob_file_open : Host → CobFile → List ℕ → ℕ → ℕ → Outcome
unfolding locked_stream fopen_mode
cob_file_open host f name mode sharing =
    some (locked_stream host f name mode sharing (host.fopen name (fopen_mode f.organization mode)))

-- fclose, with the last line of a LINE SEQUENTIAL file ended; CLOSE UNIT only flushes.
unfoldable pub cob_file_close : CobFile → ℕ → Outcome
unfolding fwrite
cob_file_close f opt = elim f.stream [
  | none ↦ none
  | some s ↦
      let needs_nl = f.organization == org_line_sequential && f.flag_needs_nl in
      let last = if needs_nl then (fwrite (b'\n' ∷ []) s).1 else s in
      let g = record f {
        flag_needs_nl = if needs_nl then false else f.flag_needs_nl;
        stream = none;
        on_disk = some last;
      } in
      some (
        if leb opt close_no_rewind
        then (if opt == close_no_rewind then (record g { open_mode = open_closed }, 7) else (g, 0))
        else (f, 7))
]
