-- ===== src/Files/Relative/Random.antt =====
-- RELATIVE files by key: writing, deleting, rewriting and reading the record of a number refine a
-- table that has at most one record for each number.
use blitzy_open_cobol.Base.{
  ℕ, suc, ◌+◌, ◌^◌, ◌≤◌, ◌<◌, ◌≡◌, refl, ◌∙◌, inl, inr, some, length, max, arith,
}
use blitzy_open_cobol.Base.Int.{pos}
use blitzy_open_cobol.Files.{CobFile}
use blitzy_open_cobol.Files.Stdio.{Stream, fwrite}
use blitzy_open_cobol.Files.Stdio.Words.{le_bytes, word_size, length-le_bytes}
use blitzy_open_cobol.Files.Relative.{
  put_slot, put_record, get_record, on_stream, write_here, write_slot, delete_slot, rewrite_slot,
  read_slot,
}
use blitzy_open_cobol.Files.Relative.Slots.{slot_at, slot_header, slot_bytes}
use blitzy_open_cobol.Files.Relative.Transfers.{moved, fread_size-beyond, fwrite-IsStored}
use blitzy_open_cobol.Files.Relative.Seek.{
  fseek-slot, back-moved, fseek_cur-forward, moved-IsUpdatable, moved-IsRelative, inside_or_beyond,
  record-inside, moved-IsReadable, IsRelative-IsSlotFile, moved-IsRelative, size-inside,
  seek-inside, seek-beyond, record-data, header-moved, bytes-moved, IsSlotSet-moved,
}
use blitzy_open_cobol.Files.Relative.Changes.{
  IsSlotSet, IsRelative, put_slot-IsStoredSlot, header-IsSlotSet, bytes-IsSlotSet,
}

module _ (f : CobFile) (s : Stream) (i : ℕ) (good : IsRelative f.record_max s) where
  abbrev m : ℕ
  m = f.record_max

  abbrev here : Stream
  here = moved s (slot_at m i)

  -- WRITE on a free number.
  pub write_slot-free :
      slot_header m s i ≡ 0
      → length f.record_data ≡ m
      → 0 < m
      → f.size < 256 ^ word_size
      → (t : Stream) × (write_slot f s (pos (suc i)) ≡ (on_stream f t, 0))
        × IsRelative m t
        × IsSlotSet m s t i f.size f.record_data
        × (t.size ≡ max s.size (slot_at m (suc i)))
  unfolding write_slot
  write_slot-free free full long small =
      let (t, put) =
        put_slot-IsStoredSlot f here i (moved-IsRelative (slot_at m i) good) refl full long small in
      (
        t,
        rw (fseek-slot f i s, write_slot) (to_put ∙ put.result),
        put.good,
        IsSlotSet-moved (slot_at m i) put.slots,
        put.size,
      )
    where
      to_put : write_here f here ≡ put_slot f here
      to_put = elim (inside_or_beyond m s i good.slotted) [
        | inl inside ↦
            unfold write_here in
            ground (
              arith,
              size-inside f s i (IsRelative-IsSlotFile good) inside,
              back-moved s (slot_at m i),
            )
        | inr beyond ↦
            unfold write_here in
            ground (
              arith,
              fread_size-beyond m here i
                  (moved-IsReadable (slot_at m i) (IsRelative-IsSlotFile good).readable) refl
                  beyond,
            )
      ]

  -- WRITE on a number that has a record.
  pub write_slot-occupied :
      0 < slot_header m s i → write_slot f s (pos (suc i)) ≡ (on_stream f here, 22)
  unfolding write_slot
  write_slot-occupied present =
      rw (fseek-slot f i s, write_slot)
        (unfold write_here in
          ground (
            arith,
            size-inside f s i (IsRelative-IsSlotFile good)
                (record-inside m s i good.slotted present),
            back-moved s (slot_at m i),
          ))

  -- DELETE of a number inside the file.
  pub delete_slot-inside :
      slot_at m (suc i) ≤ s.size
      → (t : Stream) × (delete_slot f s (pos (suc i)) ≡ (record f { size = 0; stream = some t }, 0))
        × IsRelative m t
        × IsSlotSet m s t i 0 (slot_bytes m s i)
        × (t.size ≡ s.size)
  delete_slot-inside inside =
      let word : length (le_bytes word_size 0) ≡ word_size = length-le_bytes word_size 0 in
      let freed : Stream = (fwrite (le_bytes word_size 0) here).1 in
      let (done, stored) =
        fwrite-IsStored here (le_bytes word_size 0) (moved-IsRelative (slot_at m i) good).updatable
          (omega arith) in
      let set =
        IsSlotSet-moved (slot_at m i)
          (header-IsSlotSet m here freed i 0 stored.written (omega arith)) in
      (
        moved freed (freed.position + m),
        unfold delete_slot in
            ground (
              arith,
              seek-inside f s i (IsRelative-IsSlotFile good) inside,
              back-moved s (slot_at m i),
              done,
              fseek_cur-forward freed m,
            ),
        record {
          updatable = moved-IsUpdatable (freed.position + m) stored.updatable;
          slotted = (good.slotted.0, omega (arith, stored.size, good.slotted.1));
        },
        record {
          header = header-moved m freed _ i ∙ set.header;
          data_bytes = bytes-moved m freed _ i ∙ set.data_bytes ∙ bytes-moved m s (slot_at m i) i;
          other_headers = λ j differ. header-moved m freed _ j ∙ set.other_headers j differ;
          other_bytes = λ j differ. bytes-moved m freed _ j ∙ set.other_bytes j differ;
        },
        omega (arith, stored.size),
      )

  -- REWRITE of a number inside the file keeps the size in the slot.
  pub rewrite_slot-inside :
      slot_at m (suc i) ≤ s.size
      → length f.record_data ≡ m
      → 0 < m
      → (t : Stream) × (rewrite_slot f s (pos (suc i))
          ≡ (record f { size = slot_header m s i; stream = some t }, 0))
        × IsRelative m t
        × IsSlotSet m s t i (slot_header m s i) f.record_data
        × (t.size ≡ s.size)
  rewrite_slot-inside inside full long =
      let from : Stream = moved s (slot_at m i + word_size) in
      let good_from : IsRelative m from = moved-IsRelative (slot_at m i + word_size) good in
      let last : Stream = (fwrite f.record_data from).1 in
      let (done, stored) = fwrite-IsStored from f.record_data good_from.updatable (omega arith) in
      (
        last,
        unfold rewrite_slot put_record in
            ground (arith, seek-inside f s i (IsRelative-IsSlotFile good) inside, done),
        record {
          updatable = stored.updatable;
          slotted = (good.slotted.0, omega (arith, stored.size, good.slotted.1));
        },
        IsSlotSet-moved (slot_at m i + word_size) (
            bytes-IsSlotSet m from last i _ f.record_data (header-moved m s _ i) stored.written
              full),
        omega (arith, stored.size),
      )

  -- READ of a number that has a record.
  pub read_slot-present :
      0 < slot_header m s i
      → 0 < m
      → read_slot f s (pos (suc i)) ≡ (
        record f {
          size = slot_header m s i;
          record_data = slot_bytes m s i;
          stream = some (moved s (slot_at m (suc i)));
        },
        0,
      )
  read_slot-present present long =
      let inside : slot_at m (suc i) ≤ s.size = record-inside m s i good.slotted present in
      unfold read_slot get_record in
      ground (
        arith,
        seek-inside f s i (IsRelative-IsSlotFile good) inside,
        record-data f s i (IsRelative-IsSlotFile good) inside long,
      )

  -- READ of a number that has none, and any access behind the file.
  pub read_slot-absent :
      slot_header m s i ≡ 0
      → (n p : ℕ) × (read_slot f s (pos (suc i))
          ≡ (record f { size = n; stream = some (moved s p) }, 23))
  read_slot-absent absent = elim (inside_or_beyond m s i good.slotted) [
    | inl inside ↦ (
      0,
      slot_at m i,
      unfold read_slot in
          ground (
            arith,
            seek-inside f s i (IsRelative-IsSlotFile good) inside,
            back-moved s (slot_at m i),
            absent,
          ),
    )
    | inr beyond ↦ (
      f.size,
      slot_at m i,
      unfold read_slot in ground (arith, seek-beyond f s i (IsRelative-IsSlotFile good) beyond),
    )
  ]

  pub delete_slot-beyond :
      s.size ≤ slot_at m i → delete_slot f s (pos (suc i)) ≡ (on_stream f here, 23)
  unfolding delete_slot
  delete_slot-beyond beyond = ground (arith, seek-beyond f s i (IsRelative-IsSlotFile good) beyond)

  pub rewrite_slot-beyond :
      s.size ≤ slot_at m i → rewrite_slot f s (pos (suc i)) ≡ (on_stream f here, 23)
  unfolding rewrite_slot
  rewrite_slot-beyond beyond = ground (arith, seek-beyond f s i (IsRelative-IsSlotFile good) beyond)
