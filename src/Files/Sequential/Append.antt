-- ===== src/Files/Sequential/Append.antt =====
-- A stream at the end of its file: what fwrite adds, and what fread takes of it again.
use blitzy_open_cobol.Base.{
  ℕ, zero, suc, ◌+◌, ◌-◌, ◌≤◌, ◌<◌, ◌≡◌, refl, sym, ◌∙◌, ap, inl, true, false, some, List, [], ◌∷◌,
  ◌++◌, length, length-append, get_or, min, drop, arith,
}
use blitzy_open_cobol.Files.Stdio.{Stream, bytes_at, write_at, fread, fread_some, fwrite}
use blitzy_open_cobol.Files.Stdio.Access.{
  length-bytes_at, bytes_at-write_at, bytes_at-write_elsewhere,
}

-- The bytes of the file, and those from the position on.
abbrev pub file_bytes : Stream → List ℕ
file_bytes s = bytes_at s.byte 0 s.size

abbrev pub rest_bytes : Stream → List ℕ
rest_bytes s = bytes_at s.byte s.position (s.size - s.position)

-- A stream that writes to the end of its file.
pub record IsOutput (s : Stream) : Type 0 where
  pub may_write : s.writable ≡ true
  pub in_order : s.broken ≡ false
  pub at_end : s.position ≡ s.size

pub record IsInput (s : Stream) : Type 0 where
  pub may_read : s.readable ≡ true
  pub in_order : s.broken ≡ false
  pub no_error : s.ferror ≡ false
  pub inside : s.position ≤ s.size

bytes_at-plus :
    (b : ℕ → ℕ) (i m n : ℕ) → bytes_at b i (m + n) ≡ bytes_at b i m ++ bytes_at b (i + m) n
unfolding bytes_at
bytes_at-plus b i zero n =
    let here : i + 0 ≡ i = omega arith in
    let none_first : 0 + n ≡ n = omega arith in rw (here, none_first) refl
bytes_at-plus b i (suc m) n =
    let shifted : i + suc m ≡ suc i + m = omega arith in
    let counted : suc m + n ≡ suc (m + n) = omega arith in
    rw (shifted, counted) (ap (◌∷◌ (b i)) (bytes_at-plus b (suc i) m n))

pub record IsAppended (s t : Stream) (bytes : List ℕ) : Type 0 where
  pub output : IsOutput t
  pub content : file_bytes t ≡ file_bytes s ++ bytes

pub fwrite-IsAppended :
    (s : Stream) (bytes : List ℕ)
    → IsOutput s
    → 0 < length bytes
    → ((fwrite bytes s).0 ≡ true) × IsAppended s (fwrite bytes s).1 bytes
fwrite-IsAppended s bytes o long = (
  unfold fwrite in ground (arith, o.may_write, o.in_order),
  record {
    output = record {
      may_write = unfold fwrite in ground (arith, o.may_write, o.in_order);
      in_order = unfold fwrite in ground (arith, o.may_write, o.in_order);
      at_end = unfold fwrite in ground (arith, o.may_write, o.in_order, o.at_end);
    };
    content = rw (grown s bytes o long, bytes_of s bytes o) (whole s bytes);
  },
)
  where
    grown :
        (s : Stream) (bytes : List ℕ)
        → IsOutput s
        → 0 < length bytes
        → (fwrite bytes s).1.size ≡ s.size + length bytes
    grown s bytes o long = unfold fwrite in ground (arith, o.may_write, o.in_order, o.at_end)

    bytes_of :
        (s : Stream) (bytes : List ℕ)
        → IsOutput s
        → (fwrite bytes s).1.byte ≡ write_at s s.size bytes
    bytes_of s bytes o = unfold fwrite in ground (arith, o.may_write, o.in_order, o.at_end)

    whole :
        (s : Stream) (bytes : List ℕ)
        → bytes_at (write_at s s.size bytes) 0 (s.size + length bytes) ≡ file_bytes s ++ bytes
    whole s bytes =
        let from_start : 0 + s.size ≡ s.size = omega arith in
        rw
          (
            bytes_at-plus (write_at s s.size bytes) 0 s.size (length bytes),
            from_start,
            bytes_at-write_at s s.size bytes,
            bytes_at-write_elsewhere s s.size bytes 0 s.size (inl (omega arith)) (omega arith),
          )
          refl

-- The bytes of a range that begins with a list.
pub bytes_at-split :
    (b : ℕ → ℕ) (i n : ℕ) (xs rest : List ℕ)
    → bytes_at b i n ≡ xs ++ rest
    → (bytes_at b i (length xs) ≡ xs) × (bytes_at b (i + length xs) (n - length xs) ≡ rest)
unfolding bytes_at
bytes_at-split b i n [] rest same =
    let here : i + 0 ≡ i = omega arith in
    let all : n - 0 ≡ n = omega arith in (refl, rw (here, all) same)
bytes_at-split b i zero (x ∷ xs) rest same =
    let short : 0 ≡ suc (length (xs ++ rest)) = ap length same in absurd (omega arith)
bytes_at-split b i (suc n) (x ∷ xs) rest same =
    let (first, later) = bytes_at-split b (suc i) n xs rest (ap (drop 1) same) in
    let head : b i ≡ x = ap (λ l. get_or l 0 0) same in
    let shifted : i + suc (length xs) ≡ suc i + length xs = omega arith in
    let left : suc n - suc (length xs) ≡ n - length xs = omega arith in
    (cc, rw (shifted, left) later)

abbrev pub moved : Stream → ℕ → Stream
moved s i = record s { position = i }

-- An input whose rest begins with some bytes.
pub long_enough :
    (s : Stream) (xs rest : List ℕ) → rest_bytes s ≡ xs ++ rest → length xs ≤ s.size - s.position
long_enough s xs rest same =
    let counted : s.size - s.position ≡ length (xs ++ rest) =
      sym (length-bytes_at s.byte s.position (s.size - s.position)) ∙ ap length same in
    omega (arith, length-append xs rest)

pub record IsTaken (s : Stream) (xs rest : List ℕ) : Type 0 where
  pub input : IsInput (moved s (s.position + length xs))
  pub left : rest_bytes (moved s (s.position + length xs)) ≡ rest

pub taken :
    (s : Stream) (xs rest : List ℕ) → IsInput s → rest_bytes s ≡ xs ++ rest → IsTaken s xs rest
taken s xs rest u same =
    let fits : length xs ≤ s.size - s.position = long_enough s xs rest same in
    let remaining : s.size - (s.position + length xs) ≡ s.size - s.position - length xs =
      omega arith in
    record {
      input = record {
        may_read = u.may_read;
        in_order = u.in_order;
        no_error = u.no_error;
        inside = omega (arith, u.inside);
      };
      left = rw remaining (bytes_at-split s.byte s.position _ xs rest same).1;
    }

pub fread-taken :
    (s : Stream) (xs rest : List ℕ)
    → IsInput s
    → 0 < length xs
    → rest_bytes s ≡ xs ++ rest
    → fread (length xs) s ≡ (some xs, moved s (s.position + length xs))
fread-taken s xs rest u long same =
    let fits : length xs ≤ s.size - s.position = long_enough s xs rest same in
    let first : bytes_at s.byte s.position (length xs) ≡ xs =
      (bytes_at-split s.byte s.position _ xs rest same).0 in
    unfold fread in ground (arith, u.may_read, u.in_order, u.inside, first)

pub fread_some-taken :
    (s : Stream) (xs rest : List ℕ)
    → IsInput s
    → 0 < length xs
    → rest_bytes s ≡ xs ++ rest
    → fread_some (length xs) s ≡ (xs, moved s (s.position + length xs))
fread_some-taken s xs rest u long same =
    let fits : length xs ≤ s.size - s.position = long_enough s xs rest same in
    let first : bytes_at s.byte s.position (length xs) ≡ xs =
      (bytes_at-split s.byte s.position _ xs rest same).0 in
    let all : min (length xs) (s.size - s.position) ≡ length xs = omega arith in
    unfold fread_some in ground (arith, u.may_read, u.in_order, all, first)

-- At the end of the file.
pub at_end_of : (s : Stream) → IsInput s → rest_bytes s ≡ [] → s.position ≡ s.size
at_end_of s u same =
    let counted : s.size - s.position ≡ 0 =
      sym (length-bytes_at s.byte s.position (s.size - s.position)) ∙ ap length same in
    omega (arith, u.inside)
