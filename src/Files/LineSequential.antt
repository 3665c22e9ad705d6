-- ===== src/Files/LineSequential.antt =====
-- LINE SEQUENTIAL files of libcob/fileio.c: lineseq_read and lineseq_write, without LINAGE. The
-- settings COB_LS_NULLS and COB_LS_FIXED of the environment are parameters.
pub mod Lines
pub mod Puts
pub mod Bounds
pub mod RoundTrip
mod Examples
use blitzy_open_cobol.Base.{
  ℕ, zero, suc, ◌+◌, ◌-◌, ◌==◌, Bool, true, false, ◌&&◌, Option, none, some, List, [], ◌∷◌, ◌++◌,
  length, take, drop, ltb, if◌then◌else◌,
}
use blitzy_open_cobol.Base.Int.{ℤ, pos}
use blitzy_open_cobol.Files.{CobFile, FileioFuncs, KeyField, Outcome}
use blitzy_open_cobol.Files.Plain.{Host, cob_file_open, cob_file_close}
use blitzy_open_cobol.Files.Sequential.{
  putc, has_bit, write_before, write_after, cob_file_write_opt, dummy_start, dummy_read,
  dummy_rewrite, dummy_rnxt_del,
}
use blitzy_open_cobol.Files.Stdio.{Stream, fwrite}

-- `getc`; none is EOF, at the end or after an error.
unfoldable pub getc : Stream → Option ℕ × Stream
getc s =
    if s.readable && (if s.broken then false else true)
    then (if ltb s.position s.size
        then (some (s.byte s.position), record s { position = s.position + 1 })
        else (none, s))
    else (none, record s { ferror = true })

-- What the loop of `lineseq_read` leaves: the characters that it stored, the status, the stream.
pub record LineRead : Type 0 where
  pub line : List ℕ
  pub status : ℕ
  pub after : Stream

abbrev pub with_char : ℕ → Option LineRead → Option LineRead
with_char c none = none
with_char c (some l) = some (record l { line = c ∷ l.line })

module _ (nulls : Bool) (size : ℕ) where
  -- The loop of `lineseq_read`, with `i` characters stored. A character behind the record's end is
  -- dropped. `none` means that the fuel ran out.
  unfoldable pub line_loop : ℕ → ℕ → Stream → Option LineRead
  line_loop zero i s = none
  line_loop (suc fuel) i s =
      let (c, s') = getc s in
      let (c', s'') = getc s' in
      elim c [
        | none ↦ some (record { line = []; status = if i == 0 then 10 else 0; after = s' })
        | some n ↦ elim (n == 0 && nulls) [
          | true ↦ elim c' [
            | none ↦ some (record { line = []; status = 30; after = s'' })
            | some m ↦ elim (ltb i size) [
              | true ↦ with_char m (line_loop fuel (suc i) s'')
              | false ↦ line_loop fuel i s''
            ]
          ]
          | false ↦ elim (n == b'\r') [
            | true ↦ line_loop fuel i s'
            | false ↦ elim (n == b'\n') [
              | true ↦ some (record { line = []; status = 0; after = s' })
              | false ↦ elim (ltb i size) [
                | true ↦ with_char n (line_loop fuel (suc i) s')
                | false ↦ line_loop fuel i s'
              ]
            ]
          ]
        ]
      ]

abbrev pub spaces : ℕ → List ℕ
spaces zero = []
spaces (suc n) = b' ' ∷ spaces n

-- The record after the loop: filled with spaces if a line was read.
unfoldable pub line_record : CobFile → LineRead → CobFile
line_record f l =
    let padding = if l.status == 0 then spaces (f.size - length l.line) else [] in
    let bytes = l.line ++ padding in
    record f { record_data = bytes ++ drop (length bytes) f.record_data; stream = some l.after }

abbrev pub varying_set : KeyField → ℕ → Option ℤ → Option ℤ
varying_set sizes n none = none
varying_set sizes n (some _) = some (sizes.set_int (pos n))

unfoldable pub line_done : KeyField → CobFile → LineRead → CobFile × ℕ
line_done sizes f l =
    let g = line_record f l in
    if l.status == 0
    then (record g { record_size = varying_set sizes (length l.line) f.record_size }, 0)
    else (g, l.status)

-- `lineseq_read`: each turn takes a byte at least.
unfoldable pub lineseq_read : KeyField → Bool → CobFile → Outcome
lineseq_read sizes nulls f = elim f.stream [
  | none ↦ none
  | some s ↦ elim (line_loop nulls f.size (suc s.size) 0 s) [
    | none ↦ none
    | some l ↦ some (line_done sizes f l)
  ]
]

-- The record without the spaces at its end.
abbrev pub is_empty : List ℕ → Bool
is_empty [] = true
is_empty (c ∷ s) = false

abbrev pub trimmed_from : ℕ → List ℕ → List ℕ
trimmed_from c rest = if is_empty rest && c == b' ' then [] else c ∷ rest

abbrev pub trimmed : List ℕ → List ℕ
trimmed [] = []
trimmed (c ∷ s) = trimmed_from c (trimmed s)

-- COB_LS_NULLS: a zero in front of each control character.
unfoldable pub put_escaped : List ℕ → Stream → Stream
put_escaped [] s = s
put_escaped (c ∷ line) s = put_escaped line (putc c (if ltb c b' ' then putc 0 s else s))

unfoldable pub put_line : Bool → List ℕ → Stream → Bool × Stream
put_line nulls line s =
    let (done, s') = fwrite line s in
    if is_empty line then (true, s) else if nulls then (true, put_escaped line s) else (done, s')

-- The end of `lineseq_write`: the lines or the page of BEFORE, or the newline that is due.
unfoldable pub end_line : CobFile → ℕ → Stream → CobFile
end_line f opt s =
    if has_bit opt write_before
    then record f { flag_needs_nl = false; stream = some (cob_file_write_opt opt s) }
    else if f.flag_needs_nl
    then record f { flag_needs_nl = false; stream = some (putc b'\n' s) }
    else record f { stream = some s }

unfoldable pub write_line : Bool → Bool → CobFile → ℕ → Stream → CobFile × ℕ
write_line nulls fixed f opt s =
    let bytes = take f.size f.record_data in
    let (done, s') = put_line nulls (if fixed then bytes else trimmed bytes) s in
    if done then (end_line f opt s', 0) else (record f { stream = some s' }, 30)

unfoldable pub lineseq_write : Bool → Bool → CobFile → ℕ → Outcome
lineseq_write nulls fixed f opt = elim f.stream [
  | none ↦ none
  | some s ↦
      if has_bit opt write_after
      then some (
          write_line nulls fixed (record f { flag_needs_nl = true }) opt (cob_file_write_opt opt s))
      else some (write_line nulls fixed f opt s)
]

-- The table `lineseq_funcs`.
abbrev pub lineseq_funcs : Host → KeyField → Bool → Bool → FileioFuncs
lineseq_funcs host sizes nulls fixed = record {
  open_file = cob_file_open host;
  close = cob_file_close;
  start = dummy_start;
  read = dummy_read;
  read_next = lineseq_read sizes nulls;
  write = lineseq_write nulls fixed;
  rewrite = dummy_rewrite;
  fdelete = dummy_rnxt_del;
}
