-- ===== src/Files/Sequential/RoundTrip.antt =====
-- SEQUENTIAL files: a file that was written record by record, opened again and read.
use blitzy_open_cobol.Base.{
  ℕ, suc, ◌-◌, ◌<◌, ◌≡◌, refl, sym, ◌∙◌, ap, true, false, ◌==◌, Bool, none, some, List, [], ◌∷◌,
  ◌++◌, length, take, arith, take-append_full, take-all,
}
use blitzy_open_cobol.Base.Buffers.{append_assoc, append_nil}
use blitzy_open_cobol.Files.{CobFile}
use blitzy_open_cobol.Files.Stdio.{Stream, fread, fread_some, bytes_at}
use blitzy_open_cobol.Files.Sequential.{read_here, read_data, sequential_read}
use blitzy_open_cobol.Files.Sequential.Append.{IsOutput, IsInput, file_bytes, rest_bytes, at_end_of}
use blitzy_open_cobol.Files.Sequential.Runs.{
  AllFit, frame, frames, on_stream, with_record, write_all, read_all, plain_write, write_record,
  read_record,
}

-- The size of a record that does not vary.
abbrev pub IsSized : CobFile → Type 0
IsSized f = (f.record_min == f.record_max) ≡ true → f.size ≡ f.record_max

-- The file as fopen gives it for OPEN INPUT, over the content that a stream left.
abbrev pub reopened : Stream → Stream
reopened s = record {
  byte = s.byte;
  size = s.size;
  position = 0;
  readable = true;
  writable = false;
  append = false;
  broken = false;
  ferror = false;
}

abbrev pub rewound : CobFile → CobFile
rewound f = elim f.stream [ none ↦ f | some s ↦ on_stream f (reopened s) ]

record IsWrittenFile (f : CobFile) (s : Stream) (rs : List (List ℕ)) : Type 0 where
  last : CobFile
  after : Stream
  done : write_all plain_write (on_stream f s) rs ≡ some (on_stream last after, 0)
  low : last.record_min ≡ f.record_min
  high : last.record_max ≡ f.record_max
  sized : IsSized last
  content : file_bytes after ≡ file_bytes s ++ frames (f.record_min == f.record_max) rs

write_all-frames :
    (f : CobFile) (s : Stream) (rs : List (List ℕ))
    → IsOutput s
    → IsSized f
    → AllFit f.record_min f.record_max rs
    → IsWrittenFile f s rs
unfolding write_all
write_all-frames f s [] o sized fit = record {
  last = f;
  after = s;
  done = refl;
  low = refl;
  high = refl;
  sized = sized;
  content = sym (append_nil (file_bytes s));
}
write_all-frames f s (r ∷ rs) o sized (fit, later_fit) =
    let w = write_record f s r o fit in
    let g : CobFile = with_record f r in
    let later =
      write_all-frames (with_record f r) w.after rs w.appended.output fit.fixed later_fit in
    record {
      last = later.last;
      after = later.after;
      done = rw (w.done, write_all) later.done;
      low = later.low;
      high = later.high;
      sized = later.sized;
      content =
          later.content
          ∙ ap (λ (l : List ℕ). l ++ frames (f.record_min == f.record_max) rs) w.appended.content
          ∙ append_assoc (file_bytes s) (frame (f.record_min == f.record_max) r)
              (frames (f.record_min == f.record_max) rs);
    }

-- At the end of the file READ ends with 10.
sequential_read-end :
    (f : CobFile) (s : Stream)
    → IsInput s
    → IsSized f
    → 0 < f.record_max
    → rest_bytes s ≡ []
    → read_all sequential_read 1 (on_stream f s) ≡ some ([], 10)
sequential_read-end f s u sized long same =
    let at_end : s.position ≡ s.size = at_end_of s u same in on_sizes at_end _ refl
  where
    on_sizes :
        s.position ≡ s.size
        → (fixed : Bool) → (f.record_min == f.record_max) ≡ fixed
        → read_all sequential_read 1 (on_stream f s) ≡ some ([], 10)
    on_sizes at_end true fixed =
        let full : f.size ≡ f.record_max = sized fixed in
        unfold read_all sequential_read read_here read_data fread_some bytes_at in
        ground (arith, u.may_read, u.in_order, u.no_error, fixed)
    on_sizes at_end false varying =
        unfold read_all sequential_read read_here fread in
        ground (arith, u.may_read, u.in_order, u.no_error, varying)

read_all-frames :
    (f : CobFile) (s : Stream) (rs : List (List ℕ))
    → IsInput s
    → IsSized f
    → 0 < f.record_max
    → AllFit f.record_min f.record_max rs
    → rest_bytes s ≡ frames (f.record_min == f.record_max) rs
    → read_all sequential_read (suc (length rs)) (on_stream f s) ≡ some (rs, 10)
unfolding read_all
read_all-frames f s [] u sized long fit same = sequential_read-end f s u sized long same
read_all-frames f s (r ∷ rs) u sized long (fit, later_fit) same =
    let t = read_record f s r (frames (f.record_min == f.record_max) rs) u fit sized same in
    let whole : take (length r) (with_record (on_stream f t.after) r).record_data ≡ r =
      take-append_full (length r) r _ (omega arith) ∙ take-all (length r) r (omega arith) in
    let later =
      read_all-frames (with_record f r) t.after rs t.input fit.fixed long later_fit t.left in
    rw (t.done, read_all, whole, later) refl

-- Records of one byte at least, which the file can hold, of fewer than 65536 bytes, are written one
-- after another to an empty SEQUENTIAL file; all sizes are the same where the file's sizes do not vary. Each WRITE ends with
-- 0, and when the file is opened again and read, each READ gives the next record with its size,
-- and the READ after the last record ends with 10.
pub read_all-write_all :
    (f : CobFile) (s : Stream) (rs : List (List ℕ))
    → IsOutput s
    → s.size ≡ 0
    → 0 < f.record_max
    → IsSized f
    → AllFit f.record_min f.record_max rs
    → (g : CobFile) × ((write_all plain_write (on_stream f s) rs ≡ some (g, 0))
        × (read_all sequential_read (suc (length rs)) (rewound g) ≡ some (rs, 10)))
read_all-write_all f s rs o empty long sized fit =
    let w = write_all-frames f s rs o sized fit in
    let nothing : file_bytes s ≡ [] = unfold bytes_at in rw empty refl in
    let content : file_bytes w.after ≡ frames (f.record_min == f.record_max) rs =
      w.content ∙ ap (λ (l : List ℕ). l ++ frames (f.record_min == f.record_max) rs) nothing in
    let input : IsInput (reopened w.after) = record {
      may_read = refl;
      in_order = refl;
      no_error = refl;
      inside = omega arith;
    } in
    let all_left : w.after.size - 0 ≡ w.after.size = omega arith in
    (
      on_stream w.last w.after,
      (
        w.done,
        read_all-frames w.last (reopened w.after) rs input w.sized (rw w.high long)
            (rw (w.low, w.high) fit) (rw (w.low, w.high, all_left) content),
      ),
    )
