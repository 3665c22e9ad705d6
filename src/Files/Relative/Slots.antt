-- ===== src/Files/Relative/Slots.antt =====
-- The slots of a RELATIVE file: what its bytes say of each record number, and how the transfers of
-- one slot change that.
use blitzy_open_cobol.Base.{
  ℕ, zero, suc, ◌+◌, ◌-◌, ◌*◌, ◌≤◌, ◌<◌, ◌≡◌, ◌≢◌, refl, sym, ap, ◌⊎◌, inl, inr, true, false, List,
  length, get_or, ltb, if◌then◌else◌, arith,
}
use blitzy_open_cobol.Files.Stdio.{Stream, bytes_at, write_at, fwrite}
use native.Mathlib.Decide.{dec_lt}
use blitzy_open_cobol.Files.Stdio.Access.{bytes_at-same, bytes_at-list}
use blitzy_open_cobol.Files.Stdio.Words.{le_value, word_size}

-- A stream that reads and writes anywhere.
pub record IsUpdatable (s : Stream) : Type 0 where
  pub may_read : s.readable ≡ true
  pub may_write : s.writable ≡ true
  pub in_place : s.append ≡ false
  pub in_order : s.broken ≡ false

-- A stream that reads, whether or not it writes.
pub record IsReadable (s : Stream) : Type 0 where
  pub may_read : s.readable ≡ true
  pub in_order : s.broken ≡ false

-- The byte at a place, zero behind the end.
unfoldable pub content : Stream → ℕ → ℕ
content s k = if ltb k s.size then s.byte k else 0

-- Where slot `i` stands in a file of slots of `m + 8` bytes.
abbrev pub slot_at : ℕ → ℕ → ℕ
slot_at m i = i * (m + word_size)

-- The size of the record in slot `i`, 0 where there is none, and its bytes.
unfoldable pub slot_header : ℕ → Stream → ℕ → ℕ
slot_header m s i = le_value (bytes_at (content s) (slot_at m i) word_size)

unfoldable pub slot_bytes : ℕ → Stream → ℕ → List ℕ
slot_bytes m s i = bytes_at (content s) (slot_at m i + word_size) m

-- The file consists of whole slots.
abbrev pub IsSlotted : ℕ → Stream → Type 0
IsSlotted m s = (count : ℕ) × (s.size ≡ slot_at m count)

-- A stream that reads, on a file of whole slots.
pub record IsSlotFile (m : ℕ) (s : Stream) : Type 0 where
  pub readable : IsReadable s
  pub slotted : IsSlotted m s

zero_bytes : (b : ℕ → ℕ) (i n : ℕ) → ((j : ℕ) → i ≤ j → b j ≡ 0) → le_value (bytes_at b i n) ≡ 0
unfolding le_value bytes_at
zero_bytes b i zero all_zero = refl
zero_bytes b i (suc n) all_zero =
    let here : b i ≡ 0 = all_zero i (omega arith) in
    omega (arith, zero_bytes b (suc i) n (λ j above. all_zero j (omega arith)))

content-beyond : (s : Stream) (k : ℕ) → s.size ≤ k → content s k ≡ 0
unfolding content
content-beyond s k h = ground arith

content-inside : (s : Stream) (k : ℕ) → k < s.size → content s k ≡ s.byte k
unfolding content
content-inside s k h = ground arith

pub slot_header-beyond : (m : ℕ) (s : Stream) (i : ℕ) → s.size ≤ slot_at m i → slot_header m s i ≡ 0
unfolding slot_header
slot_header-beyond m s i h =
    zero_bytes (content s) (slot_at m i) word_size (λ j above. content-beyond s j (omega arith))

-- A range inside the file reads as its content.
pub bytes_at-content :
    (s : Stream) (i n : ℕ) → i + n ≤ s.size → bytes_at s.byte i n ≡ bytes_at (content s) i n
bytes_at-content s i n inside =
    bytes_at-same _ _ i n (λ j above below. sym (content-inside s j (omega arith)))

-- The content with bytes put at a place.
pub record IsWritten (s t : Stream) (i : ℕ) (bytes : List ℕ) : Type 0 where
  pub put : (k : ℕ) → k < length bytes → content t (i + k) ≡ get_or bytes k 0
  pub kept : (k : ℕ) → ((k < i) ⊎ (i + length bytes ≤ k)) → content t k ≡ content s k

pub fwrite-IsWritten :
    (s : Stream) (bytes : List ℕ)
    → IsUpdatable s
    → 0 < length bytes
    → IsWritten s (fwrite bytes s).1 s.position bytes
unfolding fwrite content write_at
fwrite-IsWritten s bytes u long = record {
  put = λ k below.
      let back : s.position + k - s.position ≡ k = omega arith in
      ground (arith, ap (λ (t : ℕ). get_or bytes t 0) back);
  kept = λ k apart. ground arith;
}

-- Bytes that were put are read, and those elsewhere are as before.
pub read-put :
    (s t : Stream) (i : ℕ) (bytes : List ℕ)
    → IsWritten s t i bytes
    → bytes_at (content t) i (length bytes) ≡ bytes
read-put s t i bytes w = bytes_at-list (content t) i bytes w.put

pub read-kept :
    (s t : Stream) (i : ℕ) (bytes : List ℕ) (j n : ℕ)
    → IsWritten s t i bytes
    → ((j + n ≤ i) ⊎ (i + length bytes ≤ j))
    → bytes_at (content t) j n ≡ bytes_at (content s) j n
read-kept s t i bytes j n w (inl before) =
    bytes_at-same _ _ j n (λ k above below. w.kept k (inl (omega arith)))
read-kept s t i bytes j n w (inr behind) =
    bytes_at-same _ _ j n (λ k above below. w.kept k (inr (omega arith)))

-- Two slots lie apart.
pub slots_apart :
    (m i j : ℕ)
    → i ≢ j
    → (slot_at m j + (m + word_size) ≤ slot_at m i) ⊎ (slot_at m i + (m + word_size) ≤ slot_at m j)
slots_apart m i j differ = elim (dec_lt j i) [
  | yes below ↦ inl (grind arith)
  | no above ↦
      let over : i < j = elim (dec_lt i j) [ yes p ↦ p | no p ↦ absurd (differ (omega arith)) ] in
      inr (grind arith)
]
