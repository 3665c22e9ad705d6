-- ===== src/Files/Sequential/Runs.antt =====
-- Records written one after another to a SEQUENTIAL file, and read one after another; the bytes of
-- such a file; and one step of each.
use blitzy_open_cobol.Base.{
  ℕ, zero, suc, ◌+◌, ◌≤◌, ◌<◌, ◌≡◌, refl, ◌∙◌, ap, true, false, ◌==◌, Bool, Option, none, some,
  List, [], ◌∷◌, ◌++◌, length, take, drop, take-append_full, take-all, if◌then◌else◌, arith,
}
use blitzy_open_cobol.Base.Buffers.{append_assoc}
use blitzy_open_cobol.Files.{CobFile, Outcome}
use blitzy_open_cobol.Files.Stdio.{Stream, fread, fwrite}
use blitzy_open_cobol.Files.Sequential.{
  size_header, header_size, read_data, read_here, sequential_read, write_data, write_sized,
  sequential_write,
}
use blitzy_open_cobol.Files.Sequential.Append.{
  IsOutput, IsInput, IsAppended, file_bytes, rest_bytes, moved, fwrite-IsAppended, taken,
  fread-taken, fread_some-taken,
}

-- The file with a record to be written, of the size of the record.
abbrev pub with_record : CobFile → List ℕ → CobFile
with_record f r = record f { size = length r; record_data = r ++ drop (length r) f.record_data }

-- WRITE of each record up to the first that fails.
unfoldable pub write_all : (CobFile → Outcome) → CobFile → List (List ℕ) → Outcome
write_all write f [] = some (f, 0)
write_all write f (r ∷ rs) = elim (write (with_record f r)) [
  | none ↦ none
  | some out ↦ elim (out.1 == 0) [ true ↦ write_all write out.0 rs | false ↦ some out ]
]

-- The record that a READ gave, in front of the later ones.
abbrev pub with_first : List ℕ → Option (List (List ℕ) × ℕ) → Option (List (List ℕ) × ℕ)
with_first r none = none
with_first r (some (rs, status)) = some (r ∷ rs, status)

-- READ up to the first status that is not 00: the records, and that status.
unfoldable pub read_all : (CobFile → Outcome) → ℕ → CobFile → Option (List (List ℕ) × ℕ)
read_all read zero f = none
read_all read (suc turns) f = elim (read f) [
  | none ↦ none
  | some out ↦ elim (out.1 == 0) [
    | true ↦ with_first (take out.0.size out.0.record_data) (read_all read turns out.0)
    | false ↦ some ([], out.1)
  ]
]

-- The bytes of the records of a file whose sizes are the same or vary.
abbrev pub frame : Bool → List ℕ → List ℕ
frame same_sizes r = if same_sizes then r else size_header (length r) ++ r

abbrev pub frames : Bool → List (List ℕ) → List ℕ
frames same_sizes [] = []
frames same_sizes (r ∷ rs) = frame same_sizes r ++ frames same_sizes rs

-- A record that a file with records of `min` to `max` bytes can hold.
pub record FitsFile (low high : ℕ) (r : List ℕ) : Type 0 where
  pub present : 0 < length r
  pub short : length r ≤ high
  pub header : length r < 65536
  pub fixed : (low == high) ≡ true → length r ≡ high

abbrev pub AllFit : ℕ → ℕ → List (List ℕ) → Type 0
AllFit low high [] = Unit
AllFit low high (r ∷ rs) = FitsFile low high r × AllFit low high rs

abbrev pub on_stream : CobFile → Stream → CobFile
on_stream f s = record f { stream = some s }

take-record : (r rest : List ℕ) → take (length r) (r ++ rest) ≡ r
take-record r rest =
    take-append_full (length r) r rest (omega arith) ∙ take-all (length r) r (omega arith)

-- WRITE without options.
abbrev pub plain_write : CobFile → Outcome
plain_write f = sequential_write f 0

-- One WRITE puts the frame of the record to the end of the file.
pub record IsWrittenRecord (f : CobFile) (s : Stream) (r : List ℕ) : Type 0 where
  pub after : Stream
  pub done :
      sequential_write (with_record (on_stream f s) r) 0
      ≡ some (with_record (on_stream f after) r, 0)
  pub appended : IsAppended s after (frame (f.record_min == f.record_max) r)

write_fixed :
    (f : CobFile) (s : Stream) (r : List ℕ)
    → IsOutput s
    → 0 < length r
    → (f.record_min == f.record_max) ≡ true
    → IsWrittenRecord f s r
write_fixed f s r o long fixed =
    let (wrote, appended) = fwrite-IsAppended s r o long in
    record {
      after = (fwrite r s).1;
      done =
          unfold sequential_write write_sized write_data in
          rw (take-record r (drop (length r) f.record_data), fixed, wrote) refl;
      appended = rw fixed appended;
    }

write_varying :
    (f : CobFile) (s : Stream) (r : List ℕ)
    → IsOutput s
    → 0 < length r
    → (f.record_min == f.record_max) ≡ false
    → IsWrittenRecord f s r
write_varying f s r o long varying =
    let h : List ℕ = size_header (length r) in
    let (wrote, appended) = fwrite-IsAppended s (size_header (length r)) o (omega arith) in
    let (wrote', appended') =
      fwrite-IsAppended (fwrite (size_header (length r)) s).1 r appended.output long in
    record {
      after = (fwrite r (fwrite (size_header (length r)) s).1).1;
      done =
          unfold sequential_write write_sized write_data in
          rw (take-record r (drop (length r) f.record_data), varying, wrote, wrote') refl;
      appended = rw varying (record {
        output = appended'.output;
        content =
            appended'.content
            ∙ ap (λ (l : List ℕ). l ++ r) appended.content
            ∙ append_assoc (file_bytes s) (size_header (length r)) r;
      });
    }

pub write_record :
    (f : CobFile) (s : Stream) (r : List ℕ)
    → IsOutput s
    → FitsFile f.record_min f.record_max r
    → IsWrittenRecord f s r
write_record f s r o fit = on_sizes _ refl
  where
    on_sizes : (same : Bool) → (f.record_min == f.record_max) ≡ same → IsWrittenRecord f s r
    on_sizes true fixed = write_fixed f s r o fit.present fixed
    on_sizes false varying = write_varying f s r o fit.present varying

-- One READ takes the frame of a record, and at the end of the file it ends with 10.
pub record IsReadRecord (f : CobFile) (s : Stream) (r rest : List ℕ) : Type 0 where
  pub after : Stream
  pub done : sequential_read (on_stream f s) ≡ some (with_record (on_stream f after) r, 0)
  pub input : IsInput after
  pub left : rest_bytes after ≡ rest

read_data-record :
    (f : CobFile) (s : Stream) (r rest : List ℕ)
    → IsInput s
    → 0 < length r
    → length r ≤ f.record_max
    → f.size ≡ length r
    → rest_bytes s ≡ r ++ rest
    → read_data f s ≡ some (with_record (on_stream f (moved s (s.position + length r))) r, 0)
unfolding read_data
read_data-record f s r rest u long short sized same =
    rw (sized, fread_some-taken s r rest u long same) (ground arith)

read_fixed :
    (f : CobFile) (s : Stream) (r rest : List ℕ)
    → IsInput s
    → FitsFile f.record_min f.record_max r
    → f.size ≡ f.record_max
    → (f.record_min == f.record_max) ≡ true
    → rest_bytes s ≡ r ++ rest
    → IsReadRecord f s r rest
read_fixed f s r rest u fit sized fixed same =
    let t = taken s r rest u same in
    let size_of : f.size ≡ length r = omega (arith, sized, fit.fixed fixed) in
    record {
      after = moved s (s.position + length r);
      done =
          unfold sequential_read read_here in
          rw (fixed, read_data-record (on_stream f s) s r rest u fit.present fit.short size_of same)
            refl;
      input = t.input;
      left = t.left;
    }

header_size-size_header : (n : ℕ) → n < 65536 → header_size (size_header n) ≡ n
header_size-size_header n small = omega arith

read_varying :
    (f : CobFile) (s : Stream) (r rest : List ℕ)
    → IsInput s
    → FitsFile f.record_min f.record_max r
    → (f.record_min == f.record_max) ≡ false
    → rest_bytes s ≡ size_header (length r) ++ (r ++ rest)
    → IsReadRecord f s r rest
read_varying f s r rest u fit varying same =
    let t = taken s (size_header (length r)) (r ++ rest) u same in
    let s' : Stream = moved s (s.position + 4) in
    let t' = taken s' r rest t.input t.left in
    let sized : header_size (size_header (length r)) ≡ length r =
      header_size-size_header (length r) fit.header in
    let whole : fread 4 s ≡ (some (size_header (length r)), s') =
      fread-taken s (size_header (length r)) (r ++ rest) u (omega arith) same in
    let got : (fread 4 s).0 ≡ some (size_header (length r)) = ap (λ p. p.0) whole in
    let stepped : (fread 4 s).1 ≡ s' = ap (λ p. p.1) whole in
    let g : CobFile = record f { size = header_size (size_header (length r)); stream = some s } in
    record {
      after = moved s (s.position + 4 + length r);
      done =
          unfold sequential_read read_here in
          rw
            (
              varying,
              got,
              stepped,
              read_data-record g s' r rest t.input fit.present fit.short sized t.left,
            )
            refl;
      input = t'.input;
      left = t'.left;
    }

pub read_record :
    (f : CobFile) (s : Stream) (r rest : List ℕ)
    → IsInput s
    → FitsFile f.record_min f.record_max r
    → ((f.record_min == f.record_max) ≡ true → f.size ≡ f.record_max)
    → rest_bytes s ≡ frame (f.record_min == f.record_max) r ++ rest
    → IsReadRecord f s r rest
read_record f s r rest u fit sized same = on_sizes _ refl
  where
    on_sizes :
        (same_sizes : Bool) → (f.record_min == f.record_max) ≡ same_sizes → IsReadRecord f s r rest
    on_sizes true fixed =
        read_fixed f s r rest u fit (sized fixed) fixed
          (same ∙ ap (λ (b : Bool). frame b r ++ rest) fixed)
    on_sizes false varying = read_varying f s r rest u fit varying (
        same
        ∙ ap (λ (b : Bool). frame b r ++ rest) varying
        ∙ append_assoc (size_header (length r)) r rest)
