-- ===== src/Files/Relative/Transfers.antt =====
-- What the functions of one slot do to the slots: seeking and reading a size, writing a slot,
-- marking it as free, reading it.
use blitzy_open_cobol.Base.{
  ℕ, suc, ◌+◌, ◌≤◌, ◌<◌, ◌≡◌, refl, true, none, some, List, length, max, arith,
}
use blitzy_open_cobol.Base.Int.{pos, ◌-ℤ◌, mul_pos_parts, eq_of_parts, int_laws}
use blitzy_open_cobol.Files.{CobFile}
use blitzy_open_cobol.Files.Stdio.{Stream, bytes_at, fread, fwrite}
use blitzy_open_cobol.Files.Stdio.Words.{word_size}
use blitzy_open_cobol.Files.Relative.{slot_size, slot_offset, fread_size}
use blitzy_open_cobol.Files.Relative.Slots.{
  IsUpdatable, IsReadable, content, slot_at, slot_header, IsWritten, fwrite-IsWritten,
  bytes_at-content,
}

pub key_offset :
    (f : CobFile) (i : ℕ) → slot_offset f (pos (suc i) -ℤ pos 1) ≡ pos (slot_at f.record_max i)
key_offset f i =
    let first : pos (suc i) -ℤ pos 1 ≡ pos i = omega int_laws in
    rw first (eq_of_parts _ _ (omega (arith, mul_pos_parts (pos i) (slot_size f))))

-- The stream at another place.
abbrev pub moved : Stream → ℕ → Stream
moved s i = record s { position = i }

pub fread-inside :
    (n : ℕ) (s : Stream)
    → IsReadable s
    → 0 < n
    → s.position + n ≤ s.size
    → fread n s ≡ (some (bytes_at (content s) s.position n), moved s (s.position + n))
unfolding fread
fread-inside n s u long inside =
    ground (arith, u.may_read, u.in_order, bytes_at-content s s.position n inside)

fread-beyond :
    (n : ℕ) (s : Stream)
    → IsReadable s
    → s.size < s.position + n
    → fread n s ≡ (none, moved s (max s.position s.size))
unfolding fread
fread-beyond n s u outside = ground (arith, u.may_read, u.in_order)

pub fread_size-inside :
    (m : ℕ) (s : Stream) (i : ℕ)
    → IsReadable s
    → s.position ≡ slot_at m i
    → slot_at m i + word_size ≤ s.size
    → fread_size s ≡ (some (slot_header m s i), moved s (slot_at m i + word_size))
unfolding fread_size slot_header
fread_size-inside m s i u at inside =
    rw (fread-inside word_size s u (omega arith) (omega arith), at) refl

pub fread_size-beyond :
    (m : ℕ) (s : Stream) (i : ℕ)
    → IsReadable s
    → s.position ≡ slot_at m i
    → s.size ≤ slot_at m i
    → fread_size s ≡ (none, moved s (slot_at m i))
unfolding fread_size
fread_size-beyond m s i u at outside =
    let high : max s.position s.size ≡ slot_at m i = omega arith in
    rw (fread-beyond word_size s u (omega arith), high) refl

-- What a successful fwrite leaves.
pub record IsStored (s t : Stream) (bytes : List ℕ) : Type 0 where
  pub updatable : IsUpdatable t
  pub position : t.position ≡ s.position + length bytes
  pub size : t.size ≡ max s.size (s.position + length bytes)
  pub written : IsWritten s t s.position bytes

pub fwrite-IsStored :
    (s : Stream) (bytes : List ℕ)
    → IsUpdatable s
    → 0 < length bytes
    → ((fwrite bytes s).0 ≡ true) × IsStored s (fwrite bytes s).1 bytes
fwrite-IsStored s bytes u long = (
  unfold fwrite in ground (arith, u.may_write, u.in_order),
  record {
    updatable = unfold fwrite in ground (arith, u.may_read, u.may_write, u.in_order, u.in_place);
    position = unfold fwrite in ground (arith, u.may_write, u.in_order, u.in_place);
    size = unfold fwrite in ground (arith, u.may_write, u.in_order, u.in_place);
    written = fwrite-IsWritten s bytes u long;
  },
)
