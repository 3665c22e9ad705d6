-- ===== src/Files/Relative/Seek.antt =====
-- Where the stream stands in a RELATIVE file: going to a slot and back, and reading its size there.
use native.Mathlib.Decide.{dec_lt}
use blitzy_open_cobol.Base.{
  ℕ, suc, ◌+◌, ◌≤◌, ◌<◌, ◌≡◌, refl, ap, ◌∙◌, ◌⊎◌, inl, inr, none, some, List, arith,
}
use blitzy_open_cobol.Base.Int.{pos, negsuc, ◌-ℤ◌, ◌+ℤ◌, int_laws}
use blitzy_open_cobol.Files.{CobFile}
use blitzy_open_cobol.Files.Stdio.{Stream, fread, fseek_set, fseek_cur}
use blitzy_open_cobol.Files.Stdio.Words.{word_size}
use blitzy_open_cobol.Files.Relative.{slot_offset, fread_size, seek_size, back_one_word}
use blitzy_open_cobol.Files.Relative.Slots.{
  IsUpdatable, IsReadable, IsSlotFile, content, slot_at, slot_header, slot_bytes, IsSlotted,
  slot_header-beyond,
}
use blitzy_open_cobol.Files.Relative.Transfers.{
  key_offset, moved, fread-inside, fread_size-inside, fread_size-beyond,
}
use blitzy_open_cobol.Files.Relative.Changes.{IsSlotSet, IsRelative}

-- Going to a slot.
pub fseek-slot :
    (f : CobFile) (i : ℕ) (s : Stream)
    → fseek_set (slot_offset f (pos (suc i) -ℤ pos 1)) s ≡ some (moved s (slot_at f.record_max i))
unfolding fseek_set
fseek-slot f i s = rw (key_offset f i) refl

-- Going back over a size.
pub back-moved : (s : Stream) (p : ℕ) → back_one_word (moved s (p + word_size)) ≡ moved s p
unfolding fseek_cur
back-moved s p = let back : pos (p + word_size) +ℤ negsuc 7 ≡ pos p = omega int_laws in rw back refl

pub fseek_cur-forward : (s : Stream) (n : ℕ) → fseek_cur (pos n) s ≡ moved s (s.position + n)
unfolding fseek_cur
fseek_cur-forward s n =
    let ahead : pos s.position +ℤ pos n ≡ pos (s.position + n) = omega int_laws in rw ahead refl

pub moved-IsUpdatable : {s : Stream} (p : ℕ) → IsUpdatable s → IsUpdatable (moved s p)
moved-IsUpdatable p u = record {
  may_read = u.may_read;
  may_write = u.may_write;
  in_place = u.in_place;
  in_order = u.in_order;
}

pub moved-IsRelative : {m : ℕ} {s : Stream} (p : ℕ) → IsRelative m s → IsRelative m (moved s p)
moved-IsRelative p good = record {
  updatable = moved-IsUpdatable p good.updatable;
  slotted = good.slotted;
}

pub moved-IsReadable : {s : Stream} (p : ℕ) → IsReadable s → IsReadable (moved s p)
moved-IsReadable p u = record { may_read = u.may_read; in_order = u.in_order }

pub moved-IsSlotFile : {m : ℕ} {s : Stream} (p : ℕ) → IsSlotFile m s → IsSlotFile m (moved s p)
moved-IsSlotFile p good = record {
  readable = moved-IsReadable p good.readable;
  slotted = good.slotted;
}

-- A file that is read and written is one that is read.
pub IsRelative-IsSlotFile : {m : ℕ} {s : Stream} → IsRelative m s → IsSlotFile m s
IsRelative-IsSlotFile good = record {
  readable = record { may_read = good.updatable.may_read; in_order = good.updatable.in_order };
  slotted = good.slotted;
}

-- A slot lies in the file or behind it.
pub inside_or_beyond :
    (m : ℕ) (s : Stream) (i : ℕ)
    → IsSlotted m s
    → (slot_at m (suc i) ≤ s.size) ⊎ (s.size ≤ slot_at m i)
inside_or_beyond m s i (count, whole) = elim (dec_lt i count) [
  | yes inside ↦ let below : slot_at m (suc i) ≤ slot_at m count = grind arith in inl (omega arith)
  | no outside ↦ let above : slot_at m count ≤ slot_at m i = grind arith in inr (omega arith)
]

-- A slot with a record lies in the file.
pub record-inside :
    (m : ℕ) (s : Stream) (i : ℕ)
    → IsSlotted m s
    → 0 < slot_header m s i
    → slot_at m (suc i) ≤ s.size
record-inside m s i slotted present = elim (inside_or_beyond m s i slotted) [
  | inl inside ↦ inside
  | inr beyond ↦ absurd (omega (arith, slot_header-beyond m s i beyond))
]

-- The slots do not depend on where the stream stands.
pub header-moved : (m : ℕ) (s : Stream) (p i : ℕ) → slot_header m (moved s p) i ≡ slot_header m s i
unfolding slot_header content
header-moved m s p i = refl

pub bytes-moved : (m : ℕ) (s : Stream) (p i : ℕ) → slot_bytes m (moved s p) i ≡ slot_bytes m s i
unfolding slot_bytes content
bytes-moved m s p i = refl

pub IsSlotSet-moved :
    {m : ℕ} {s t : Stream} {i n : ℕ} {bytes : List ℕ} (p : ℕ)
    → IsSlotSet m (moved s p) t i n bytes
    → IsSlotSet m s t i n bytes
unfolding slot_header slot_bytes content
IsSlotSet-moved p set = record {
  header = set.header;
  data_bytes = set.data_bytes;
  other_headers = set.other_headers;
  other_bytes = set.other_bytes;
}

module _ (f : CobFile) (s : Stream) (i : ℕ) (good : IsSlotFile f.record_max s) where
  abbrev pub m : ℕ
  m = f.record_max

  abbrev pub here : Stream
  here = moved s (slot_at m i)

  good_here : IsSlotFile m here
  good_here = moved-IsSlotFile (slot_at m i) good

  pub size-inside :
      slot_at m (suc i) ≤ s.size
      → fread_size here ≡ (some (slot_header m s i), moved s (slot_at m i + word_size))
  size-inside inside =
      fread_size-inside m here i good_here.readable refl (omega arith)
      ∙ ap (λ (n : ℕ). (some n, moved s (slot_at m i + word_size)))
          (header-moved m s (slot_at m i) i)

  pub seek-inside :
      slot_at m (suc i) ≤ s.size
      → seek_size f (pos (suc i) -ℤ pos 1) s
        ≡ (some (slot_header m s i), moved s (slot_at m i + word_size))
  unfolding seek_size
  seek-inside inside = rw (fseek-slot f i s, seek_size) (size-inside inside)

  pub seek-beyond : s.size ≤ slot_at m i → seek_size f (pos (suc i) -ℤ pos 1) s ≡ (none, here)
  unfolding seek_size
  seek-beyond beyond =
      rw (fseek-slot f i s, seek_size) (fread_size-beyond m here i good_here.readable refl beyond)

  pub record-data :
      slot_at m (suc i) ≤ s.size
      → 0 < m
      → fread m (moved s (slot_at m i + word_size))
        ≡ (some (slot_bytes m s i), moved s (slot_at m (suc i)))
  record-data inside long =
      let next : slot_at m i + word_size + m ≡ slot_at m (suc i) = omega arith in
      unfold slot_bytes content in
      rw (← next) (
        fread-inside m (moved s (slot_at m i + word_size))
          (moved-IsReadable (slot_at m i + word_size) good.readable) long (omega arith))
