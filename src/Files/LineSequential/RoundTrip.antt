-- ===== src/Files/LineSequential/RoundTrip.antt =====
-- LINE SEQUENTIAL files: a file that was written line by line, opened again and read.
use blitzy_open_cobol.Base.{
  ℕ, suc, ◌+◌, ◌-◌, ◌≤◌, ◌≡◌, refl, sym, ◌∙◌, ap, true, false, Bool, some, List, [], ◌∷◌, ◌++◌,
  length, take, arith, if◌then◌else◌, take-append_full, take-all,
}
use blitzy_open_cobol.Base.Buffers.{append_assoc, append_nil}
use blitzy_open_cobol.Files.{CobFile, KeyField, Outcome}
use blitzy_open_cobol.Files.Stdio.{Stream, bytes_at}
use blitzy_open_cobol.Files.Sequential.{
  putc, put_lines, cob_file_write_opt, write_before, write_lines,
}
use blitzy_open_cobol.Files.Sequential.Append.{
  IsOutput, IsInput, IsAppended, file_bytes, rest_bytes, at_end_of, long_enough,
}
use blitzy_open_cobol.Files.Sequential.Runs.{on_stream, with_record, write_all, read_all}
use blitzy_open_cobol.Files.Sequential.RoundTrip.{reopened, rewound}
use blitzy_open_cobol.Files.LineSequential.{
  getc, line_loop, line_record, line_done, lineseq_read, put_line, end_line, write_line,
  lineseq_write, spaces, trimmed, varying_set,
}
use blitzy_open_cobol.Files.LineSequential.Lines.{escaped, Clean, line_loop-escaped}
use blitzy_open_cobol.Files.LineSequential.Puts.{
  IsAppended-twice, putc-IsAppended, put_line-IsAppended, length-escaped, trimmed-padded,
  trimmed-Clean, length-trimmed,
}

-- The options of a WRITE without ADVANCING: one line, behind the record.
abbrev pub next_line : ℕ
next_line = write_before + (write_lines + 1)

-- The text of a record in the file.
abbrev pub line_of : Bool → List ℕ → List ℕ
line_of fixed r = if fixed then r else trimmed r

abbrev pub lines_of : Bool → Bool → List (List ℕ) → List ℕ
lines_of nulls fixed [] = []
lines_of nulls fixed (r ∷ rs) =
    (escaped nulls (line_of fixed r) ++ b'\n' ∷ []) ++ lines_of nulls fixed rs

-- Records of a size with characters that a line can hold.
abbrev pub AllClean : Bool → ℕ → List (List ℕ) → Type 0
AllClean nulls size [] = Unit
AllClean nulls size (r ∷ rs) = ((length r ≡ size) × Clean nulls r) × AllClean nulls size rs

line_of-padded :
    (fixed : Bool) (r : List ℕ)
    → line_of fixed r ++ spaces (length r - length (line_of fixed r)) ≡ r
line_of-padded true r = let full : length r - length r ≡ 0 = omega arith in rw full (append_nil r)
line_of-padded false r = trimmed-padded r

line_of-Clean : (nulls fixed : Bool) (r : List ℕ) → Clean nulls r → Clean nulls (line_of fixed r)
line_of-Clean nulls true r clean = clean
line_of-Clean nulls false r clean = trimmed-Clean nulls r clean

length-line_of : (fixed : Bool) (r : List ℕ) → length (line_of fixed r) ≤ length r
length-line_of true r = omega arith
length-line_of false r = length-trimmed r

abbrev pub line_writer : Bool → Bool → CobFile → Outcome
line_writer nulls fixed f = lineseq_write nulls fixed f next_line

-- One WRITE.
record IsWrittenLine (nulls fixed : Bool) (f : CobFile) (s : Stream) (r : List ℕ) : Type 0 where
  after : Stream
  done :
      lineseq_write nulls fixed (with_record (on_stream f s) r) next_line
      ≡ some (record (with_record (on_stream f after) r) { flag_needs_nl = false }, 0)
  appended : IsAppended s after (escaped nulls (line_of fixed r) ++ b'\n' ∷ [])

write_one :
    (nulls fixed : Bool) (f : CobFile) (s : Stream) (r : List ℕ)
    → IsOutput s
    → IsWrittenLine nulls fixed f s r
write_one nulls fixed f s r o =
    let whole : take (length r) (with_record f r).record_data ≡ r =
      take-append_full (length r) r _ (omega arith) ∙ take-all (length r) r (omega arith) in
    let (wrote, appended) = put_line-IsAppended nulls (line_of fixed r) s o in
    let ended = putc-IsAppended (put_line nulls (line_of fixed r) s).1 b'\n' appended.output in
    record {
      after = putc b'\n' (put_line nulls (line_of fixed r) s).1;
      done =
          unfold lineseq_write write_line end_line cob_file_write_opt put_lines in
          rw (whole, wrote) refl;
      appended =
          IsAppended-twice s _ _ (escaped nulls (line_of fixed r)) (b'\n' ∷ []) appended ended;
    }

-- One READ.
record IsReadLine (sizes : KeyField) (nulls : Bool) (f : CobFile) (s : Stream) (r rest : List ℕ)
    : Type 0 where
  text : List ℕ
  after : Stream
  done :
      lineseq_read sizes nulls (on_stream f s)
      ≡ some (
        record (with_record (on_stream f after) r) {
          record_size = varying_set sizes (length text) f.record_size;
        },
        0,
      )
  input : IsInput after
  left : rest_bytes after ≡ rest

-- The record of a line that was taken: the spaces are back.
line_done-record :
    (sizes : KeyField) (nulls : Bool) (f : CobFile) (s t : Stream) (text r : List ℕ)
    → line_loop nulls f.size (suc s.size) 0 s ≡ some (record { line = text; status = 0; after = t })
    → length r ≡ f.size
    → text ++ spaces (length r - length text) ≡ r
    → lineseq_read sizes nulls (on_stream f s)
      ≡ some (
        record (with_record (on_stream f t) r) {
          record_size = varying_set sizes (length text) f.record_size;
        },
        0,
      )
unfolding lineseq_read line_done line_record
line_done-record sizes nulls f s t text r got width padded =
    rw (lineseq_read, got, sym width, padded) refl

read_one :
    (sizes : KeyField) (nulls fixed : Bool) (f : CobFile) (s : Stream) (r rest : List ℕ)
    → IsInput s
    → length r ≡ f.size
    → Clean nulls r
    → rest_bytes s ≡ escaped nulls (line_of fixed r) ++ b'\n' ∷ rest
    → IsReadLine sizes nulls f s r rest
read_one sizes nulls fixed f s r rest u width clean same =
    let shorter : length (line_of fixed r) ≤ length r = length-line_of fixed r in
    let inside : length (escaped nulls (line_of fixed r)) ≤ s.size - s.position =
      long_enough s (escaped nulls (line_of fixed r)) (b'\n' ∷ rest) same in
    let shown : length (line_of fixed r) ≤ length (escaped nulls (line_of fixed r)) =
      length-escaped nulls (line_of fixed r) in
    let l =
      line_loop-escaped nulls f.size (suc s.size) 0 s (line_of fixed r) rest u
        (line_of-Clean nulls fixed r clean) (omega arith) (omega arith) same in
    record {
      text = line_of fixed r;
      after = l.end_of;
      done =
          line_done-record sizes nulls f s l.end_of (line_of fixed r) r l.done width
            (line_of-padded fixed r);
      input = l.input;
      left = l.left;
    }

record IsWrittenLines (nulls fixed : Bool) (f : CobFile) (s : Stream) (rs : List (List ℕ))
    : Type 0 where
  last : CobFile
  after : Stream
  done : write_all (line_writer nulls fixed) (on_stream f s) rs ≡ some (on_stream last after, 0)
  size : last.size ≡ f.size
  content : file_bytes after ≡ file_bytes s ++ lines_of nulls fixed rs

write_all-lines_of :
    (nulls fixed : Bool) (f : CobFile) (s : Stream) (rs : List (List ℕ))
    → IsOutput s
    → AllClean nulls f.size rs
    → IsWrittenLines nulls fixed f s rs
unfolding write_all
write_all-lines_of nulls fixed f s [] o clean = record {
  last = f;
  after = s;
  done = refl;
  size = refl;
  content = sym (append_nil (file_bytes s));
}
write_all-lines_of nulls fixed f s (r ∷ rs) o ((width, char), clean) =
    let w = write_one nulls fixed f s r o in
    let later =
      write_all-lines_of nulls fixed (record (with_record f r) { flag_needs_nl = false }) w.after rs
        w.appended.output (rw width clean) in
    record {
      last = later.last;
      after = later.after;
      done = rw (w.done, write_all) later.done;
      size = later.size ∙ width;
      content =
          later.content
          ∙ ap (λ (l : List ℕ). l ++ lines_of nulls fixed rs) w.appended.content
          ∙ append_assoc (file_bytes s) (escaped nulls (line_of fixed r) ++ b'\n' ∷ [])
              (lines_of nulls fixed rs);
    }

lineseq_read-end :
    (sizes : KeyField) (nulls : Bool) (f : CobFile) (s : Stream)
    → IsInput s
    → rest_bytes s ≡ []
    → read_all (lineseq_read sizes nulls) 1 (on_stream f s) ≡ some ([], 10)
unfolding read_all lineseq_read line_loop getc line_done line_record
lineseq_read-end sizes nulls f s u same =
    let at_end : s.position ≡ s.size = at_end_of s u same in ground (arith, u.may_read, u.in_order)

read_all-lines_of :
    (sizes : KeyField) (nulls fixed : Bool) (f : CobFile) (s : Stream) (rs : List (List ℕ))
    → IsInput s
    → AllClean nulls f.size rs
    → rest_bytes s ≡ lines_of nulls fixed rs
    → read_all (lineseq_read sizes nulls) (suc (length rs)) (on_stream f s) ≡ some (rs, 10)
unfolding read_all
read_all-lines_of sizes nulls fixed f s [] u clean same = lineseq_read-end sizes nulls f s u same
read_all-lines_of sizes nulls fixed f s (r ∷ rs) u ((width, char), clean) same =
    let t = read_one sizes nulls fixed f s r (lines_of nulls fixed rs) u width char (
      same
      ∙ append_assoc (escaped nulls (line_of fixed r)) (b'\n' ∷ []) (lines_of nulls fixed rs)) in
    let whole : take (length r) (with_record f r).record_data ≡ r =
      take-append_full (length r) r _ (omega arith) ∙ take-all (length r) r (omega arith) in
    let later =
      read_all-lines_of sizes nulls fixed
        (record (with_record f r) { record_size = varying_set sizes (length t.text) f.record_size })
        t.after rs t.input (rw width clean) t.left in
    rw (t.done, read_all, whole, later) refl

-- Records that fill the record area, of any characters if COB_LS_NULLS is set, and without carriage
-- returns and line feeds if it is not, are written to an empty LINE SEQUENTIAL file, each with a
-- WRITE without ADVANCING. Each WRITE ends with 0, and when the file is opened again and read, each
-- READ gives the next record, its spaces at the end included, and the READ after the last record
-- ends with 10. This holds with COB_LS_FIXED and without.
pub lineseq_read-lineseq_write :
    (sizes : KeyField) (nulls fixed : Bool) (f : CobFile) (s : Stream) (rs : List (List ℕ))
    → IsOutput s
    → s.size ≡ 0
    → AllClean nulls f.size rs
    → (g : CobFile) × ((write_all (line_writer nulls fixed) (on_stream f s) rs ≡ some (g, 0))
        × (read_all (lineseq_read sizes nulls) (suc (length rs)) (rewound g) ≡ some (rs, 10)))
lineseq_read-lineseq_write sizes nulls fixed f s rs o empty clean =
    let w = write_all-lines_of nulls fixed f s rs o clean in
    let nothing : file_bytes s ≡ [] = unfold bytes_at in rw empty refl in
    let content : file_bytes w.after ≡ lines_of nulls fixed rs =
      w.content ∙ ap (λ (l : List ℕ). l ++ lines_of nulls fixed rs) nothing in
    let input : IsInput (reopened w.after) = record {
      may_read = refl;
      in_order = refl;
      no_error = refl;
      inside = omega arith;
    } in
    let all_left : w.after.size - 0 ≡ w.after.size = omega arith in
    (
      on_stream w.last w.after,
      (
        w.done,
        read_all-lines_of sizes nulls fixed w.last (reopened w.after) rs input (rw w.size clean)
            (rw all_left content),
      ),
    )
