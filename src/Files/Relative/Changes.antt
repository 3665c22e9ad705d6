-- ===== src/Files/Relative/Changes.antt =====
-- How the transfers of one slot change the slots of the file.
use blitzy_open_cobol.Base.{
  ℕ, suc, ◌+◌, ◌^◌, ◌≤◌, ◌<◌, ◌≡◌, ◌≢◌, sym, ap, ◌∙◌, ◌⊎◌, inl, inr, List, length, max, arith,
}
use mathlib.Core.Path.{subst}
use native.Mathlib.Decide.{dec_le}
use blitzy_open_cobol.Files.{CobFile}
use blitzy_open_cobol.Files.Stdio.{Stream, bytes_at, fwrite}
use blitzy_open_cobol.Files.Stdio.Words.{
  le_bytes, le_value, word_size, length-le_bytes, le_value-le_bytes,
}
use blitzy_open_cobol.Files.Relative.{put_slot, put_record, on_stream}
use blitzy_open_cobol.Files.Relative.Slots.{
  IsUpdatable, content, slot_at, slot_header, slot_bytes, IsSlotted, IsWritten, read-put, read-kept,
  slots_apart,
}
use blitzy_open_cobol.Files.Relative.Transfers.{fwrite-IsStored}

-- One slot is as given, and all others are as before.
pub record IsSlotSet (m : ℕ) (s t : Stream) (i n : ℕ) (bytes : List ℕ) : Type 0 where
  pub header : slot_header m t i ≡ n
  pub data_bytes : slot_bytes m t i ≡ bytes
  pub other_headers : (j : ℕ) → j ≢ i → slot_header m t j ≡ slot_header m s j
  pub other_bytes : (j : ℕ) → j ≢ i → slot_bytes m t j ≡ slot_bytes m s j

-- A write inside slot `i` leaves the other slots alone.
module _ (m : ℕ) (s t : Stream) (i place : ℕ) (bytes : List ℕ) (w : IsWritten s t place bytes)
    (from : slot_at m i ≤ place) (to : place + length bytes ≤ slot_at m i + (m + word_size)) where
  kept_header : (j : ℕ) → j ≢ i → slot_header m t j ≡ slot_header m s j
  unfolding slot_header
  kept_header j differ = ap le_value (read-kept s t place bytes _ _ w apart)
    where
      apart : (slot_at m j + word_size ≤ place) ⊎ (place + length bytes ≤ slot_at m j)
      apart = elim (slots_apart m i j (λ e. differ (sym e))) [
        | inl before ↦ inl (omega arith)
        | inr behind ↦ inr (omega arith)
      ]

  kept_bytes : (j : ℕ) → j ≢ i → slot_bytes m t j ≡ slot_bytes m s j
  unfolding slot_bytes
  kept_bytes j differ = read-kept s t place bytes _ _ w apart
    where
      apart :
          (slot_at m j + word_size + m ≤ place) ⊎ (place + length bytes ≤ slot_at m j + word_size)
      apart = elim (slots_apart m i j (λ e. differ (sym e))) [
        | inl before ↦ inl (omega arith)
        | inr behind ↦ inr (omega arith)
      ]

-- Writing the size of a slot, and writing its bytes.
pub header-IsSlotSet :
    (m : ℕ) (s t : Stream) (i n : ℕ)
    → IsWritten s t (slot_at m i) (le_bytes word_size n)
    → n < 256 ^ word_size
    → IsSlotSet m s t i n (slot_bytes m s i)
header-IsSlotSet m s t i n w small =
    let word : length (le_bytes word_size n) ≡ word_size = length-le_bytes word_size n in
    record {
      header =
          unfold slot_header in
          ap (λ (k : ℕ). le_value (bytes_at (content t) (slot_at m i) k)) (sym word)
          ∙ ap le_value (read-put s t _ _ w)
          ∙ le_value-le_bytes word_size n small;
      data_bytes = unfold slot_bytes in read-kept s t _ _ _ _ w (inr (omega arith));
      other_headers = kept_header m s t i _ _ w (omega arith) (omega arith);
      other_bytes = kept_bytes m s t i _ _ w (omega arith) (omega arith);
    }

pub bytes-IsSlotSet :
    (m : ℕ) (s t : Stream) (i n : ℕ) (bytes : List ℕ)
    → slot_header m s i ≡ n
    → IsWritten s t (slot_at m i + word_size) bytes
    → length bytes ≡ m
    → IsSlotSet m s t i n bytes
bytes-IsSlotSet m s t i n bytes header w full = record {
  header = unfold slot_header in ap le_value (read-kept s t _ _ _ _ w (inl (omega arith))) ∙ header;
  data_bytes =
      unfold slot_bytes in
      ap (bytes_at (content t) (slot_at m i + word_size)) (sym full) ∙ read-put s t _ _ w;
  other_headers = kept_header m s t i _ _ w (omega arith) (omega arith);
  other_bytes = kept_bytes m s t i _ _ w (omega arith) (omega arith);
}

pub IsSlotSet-trans :
    {m : ℕ} {s t u : Stream} {i n k : ℕ} {a b : List ℕ}
    → IsSlotSet m s t i n a
    → IsSlotSet m t u i k b
    → IsSlotSet m s u i k b
IsSlotSet-trans first second = record {
  header = second.header;
  data_bytes = second.data_bytes;
  other_headers = λ j differ. second.other_headers j differ ∙ first.other_headers j differ;
  other_bytes = λ j differ. second.other_bytes j differ ∙ first.other_bytes j differ;
}

-- A file of whole slots that grows to the end of a slot is one again.
pub IsSlotted-grown :
    (m : ℕ) (s t : Stream) (i : ℕ)
    → IsSlotted m s
    → t.size ≡ max s.size (slot_at m (suc i))
    → IsSlotted m t
IsSlotted-grown m s t i (count, whole) grown = elim (dec_le (suc i) count) [
  | yes inside ↦
      let below : slot_at m (suc i) ≤ slot_at m count = grind arith in (count, omega arith)
  | no outside ↦
      let above : slot_at m count ≤ slot_at m (suc i) = grind arith in (suc i, omega arith)
]

-- The state that a good transfer leaves: whole slots on a stream that can go on.
pub record IsRelative (m : ℕ) (s : Stream) : Type 0 where
  pub updatable : IsUpdatable s
  pub slotted : IsSlotted m s

-- put_slot, from the beginning of a slot.
pub record IsStoredSlot (f : CobFile) (s t : Stream) (i : ℕ) : Type 0 where
  pub result : put_slot f s ≡ (on_stream f t, 0)
  pub good : IsRelative f.record_max t
  pub slots : IsSlotSet f.record_max s t i f.size f.record_data
  pub size : t.size ≡ max s.size (slot_at f.record_max (suc i))

pub put_slot-IsStoredSlot :
    (f : CobFile) (s : Stream) (i : ℕ)
    → IsRelative f.record_max s
    → s.position ≡ slot_at f.record_max i
    → length f.record_data ≡ f.record_max
    → 0 < f.record_max
    → f.size < 256 ^ word_size
    → (t : Stream) × IsStoredSlot f s t i
put_slot-IsStoredSlot f s i good here full long small =
    let word : length (le_bytes word_size f.size) ≡ word_size = length-le_bytes word_size f.size in
    let first : Stream = (fwrite (le_bytes word_size f.size) s).1 in
    let (done, stored) =
      fwrite-IsStored s (le_bytes word_size f.size) good.updatable (omega arith) in
    let last : Stream = (fwrite f.record_data first).1 in
    let (done', stored') = fwrite-IsStored first f.record_data stored.updatable (omega arith) in
    let next : first.position ≡ slot_at f.record_max i + word_size =
      omega (arith, stored.position) in
    let set_header : IsSlotSet f.record_max s first i f.size (slot_bytes f.record_max s i) =
      header-IsSlotSet f.record_max s first i f.size
        (subst (λ p. IsWritten s first p (le_bytes word_size f.size)) here stored.written) small in
    (
      last,
      record {
        result = unfold put_slot put_record in ground (arith, done, done');
        good = record {
          updatable = stored'.updatable;
          slotted =
              IsSlotted-grown f.record_max s last i good.slotted
                (omega (arith, stored.size, stored'.size));
        };
        slots = IsSlotSet-trans set_header (
            bytes-IsSlotSet f.record_max first last i f.size f.record_data set_header.header
              (subst (λ p. IsWritten first last p f.record_data) next stored'.written) full);
        size = omega (arith, stored.size, stored'.size);
      },
    )
