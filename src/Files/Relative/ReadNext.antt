-- ===== src/Files/Relative/ReadNext.antt =====
-- READ NEXT on a RELATIVE file.
use mathlib.Core.Path.{subst}
use native.Mathlib.Decide.{dec_lt}
use native.Mathlib.Nat.{div-eq_of_lt-le}
use blitzy_open_cobol.Base.{
  ℕ, zero, suc, ◌+◌, ◌/◌, ◌≤◌, ◌<◌, ◌≡◌, refl, sym, ◌∙◌, ◌⊎◌, inl, inr, true, false, some, arith,
  ap,
}
use blitzy_open_cobol.Base.Int.{ℤ, pos}
use blitzy_open_cobol.Files.{CobFile, KeyField, Outcome}
use blitzy_open_cobol.Files.Stdio.{Stream}
use blitzy_open_cobol.Files.Stdio.Words.{word_size}
use blitzy_open_cobol.Files.Relative.{
  next_scan, next_slot, next_key, with_next_key, get_record, on_stream,
}
use blitzy_open_cobol.Files.Relative.Slots.{IsSlotFile, slot_at, slot_header, slot_bytes}
use blitzy_open_cobol.Files.Relative.Transfers.{moved, fread_size-beyond}
use blitzy_open_cobol.Files.Relative.Seek.{
  fseek_cur-forward, moved-IsReadable, inside_or_beyond, size-inside, record-data, record-inside,
}
use blitzy_open_cobol.Files.Relative.Forward.{
  IsNext, IsEnd, IsNext-skip, IsEnd-skip, IsEnd-beyond, number-below, slots-long,
}

-- The key field holds every number of the file.
abbrev pub IsWide : KeyField → ℕ → Type 0
IsWide keys count = (n : ℕ) → n ≤ count → keys.add_int (keys.set_int (pos 0)) (pos n) ≡ some (pos n)

-- The slot whose size was just read.
slot-number : (m k : ℕ) → 0 < m → (slot_at m k + word_size) / (m + word_size) ≡ k
slot-number m k long = div-eq_of_lt-le {k = k} (m + word_size) (omega arith) (grind arith)

-- The record, its number, the place behind it, and the status.
pub record IsRead (m : ℕ) (s : Stream) (k : ℕ) (result : Outcome) : Type 0 where
  pub file : CobFile
  pub status : ℕ
  pub returns : result ≡ some (file, status)
  pub outcome :
      ((n : ℕ) × IsNext m s k n
        × (status ≡ 0)
        × (file.relative_key ≡ some (pos (suc n)))
        × (file.record_data ≡ slot_bytes m s n)
        × (file.size ≡ slot_header m s n)
        × (file.stream ≡ some (moved s (slot_at m (suc n)))))
      ⊎ (IsEnd m s k × (status ≡ 10))

IsRead-skip :
    {m : ℕ} {s : Stream} {k : ℕ} {here later : Outcome}
    → slot_header m s k ≡ 0
    → here ≡ later
    → IsRead m s (suc k) later
    → IsRead m s k here
IsRead-skip {m} {s} {k} free same rest = record {
  file = rest.file;
  status = rest.status;
  returns = same ∙ rest.returns;
  outcome = elim rest.outcome [
    | inl (n, next, done, number, bytes, size, place) ↦
        inl (n, IsNext-skip free next, done, number, bytes, size, place)
    | inr (end, done) ↦ inr (IsEnd-skip m s k free end, done)
  ];
}

-- The file after the size of slot `k` has been read and the key set.
abbrev keyed : CobFile → Stream → ℕ → CobFile
keyed f s k = record f {
  size = slot_header f.record_max s k;
  relative_key = some (pos (suc k));
  flag_first_read = 0;
}

module _ (keys : KeyField) (f : CobFile) (s : Stream) (k count : ℕ) (key : ℤ)
    (good : IsSlotFile f.record_max s) (wide : IsWide keys count) (below : k < count)
    (has_key : f.relative_key ≡ some key) (later : f.flag_first_read ≡ 0)
    (long : 0 < f.record_max) where
  key-keyed :
      with_next_key keys
        (record f { size = slot_header f.record_max s k })
        (moved s (slot_at f.record_max k + word_size))
      ≡ (keyed f s k, true)
  unfolding with_next_key next_key
  key-keyed =
      let number = slot-number f.record_max k long in
      let one_more : k + 1 ≡ suc k = omega arith in
      ground (
        arith,
        has_key,
        later,
        number,
        wide (k + 1) (omega arith),
        wide (suc k) (omega arith),
        ap pos one_more,
      )

next_scan-free :
    (keys : KeyField) (fuel : ℕ) (f : CobFile) (s : Stream) (k count : ℕ) (key : ℤ)
    → IsSlotFile f.record_max s
    → IsWide keys count
    → k < count
    → f.relative_key ≡ some key
    → f.flag_first_read ≡ 0
    → 0 < f.record_max
    → slot_at f.record_max (suc k) ≤ s.size
    → slot_header f.record_max s k ≡ 0
    → next_scan keys (suc fuel) f (moved s (slot_at f.record_max k))
      ≡ next_scan keys fuel (keyed f s k) (moved s (slot_at f.record_max (suc k)))
unfolding next_scan
next_scan-free keys fuel f s k count key good wide below has_key later long inside free =
    let next : slot_at f.record_max k + word_size + f.record_max ≡ slot_at f.record_max (suc k) =
      omega arith in
    ground (
      arith,
      size-inside f s k good inside,
      key-keyed keys f s k count key good wide below has_key later long,
      free,
      fseek_cur-forward (moved s (slot_at f.record_max k + word_size)) f.record_max,
      next,
    )

next_scan-IsRead :
    (keys : KeyField) (fuel : ℕ) (f : CobFile) (s : Stream) (k count : ℕ) (key : ℤ)
    → IsSlotFile f.record_max s
    → s.ferror ≡ false
    → s.size ≡ slot_at f.record_max count
    → IsWide keys count
    → f.relative_key ≡ some key
    → f.flag_first_read ≡ 0
    → 0 < f.record_max
    → count < fuel + k
    → 0 < fuel
    → IsRead f.record_max s k (next_scan keys fuel f (moved s (slot_at f.record_max k)))
next_scan-IsRead keys zero f s k count key good fine counted wide has_key later long enough
      fuel_left =
    absurd (omega arith)
next_scan-IsRead keys (suc fuel) f s k count key good fine counted wide has_key later long enough
      fuel_left =
    elim (inside_or_beyond f.record_max s k good.slotted) [
      | inr beyond ↦ record {
        file = on_stream f (moved s (slot_at f.record_max k));
        status = 10;
        returns =
            unfold next_scan in
            ground (
              arith,
              fine,
              fread_size-beyond f.record_max (moved s (slot_at f.record_max k)) k
                  (moved-IsReadable (slot_at f.record_max k) good.readable) refl beyond,
            );
        outcome = inr (IsEnd-beyond f.record_max s k beyond, refl);
      }
      | inl inside ↦
          let below : k < count = number-below f.record_max k count (rw counted at inside) in
          elim (dec_lt 0 (slot_header f.record_max s k)) [
            | yes present ↦ record {
              file = record (keyed f s k) {
                record_data = slot_bytes f.record_max s k;
                stream = some (moved s (slot_at f.record_max (suc k)));
              };
              status = 0;
              returns =
                  unfold next_scan get_record in
                  ground (
                    arith,
                    size-inside f s k good inside,
                    key-keyed keys f s k count key good wide below has_key later long,
                    present,
                    record-data f s k good inside long,
                  );
              outcome = inl (
                k,
                record {
                  behind = omega arith;
                  present = present;
                  passed = λ j above under. absurd (omega arith);
                },
                refl,
                refl,
                refl,
                refl,
                refl,
              );
            }
            | no absent ↦
                let free : slot_header f.record_max s k ≡ 0 = omega arith in
                IsRead-skip free
                  (next_scan-free keys fuel f s k count key good wide below has_key later long
                    inside free)
                  (next_scan-IsRead keys fuel (keyed f s k) s (suc k) count (pos (suc k)) good fine
                    counted wide refl refl long (omega arith) (omega arith))
          ]
    ]

-- READ NEXT on a file of whole slots, not the first read after OPEN or START, from the slot `k` at
-- which the stream stands: the next record is delivered with its size, the key field, which holds
-- every number of the file, is its number, and the stream stands behind it; or the status is 10 and
-- no record is left. The loop ends in either case.
pub next_slot-IsRead :
    (keys : KeyField) (f : CobFile) (s : Stream) (k count : ℕ) (key : ℤ)
    → IsSlotFile f.record_max s
    → s.ferror ≡ false
    → s.size ≡ slot_at f.record_max count
    → s.position ≡ slot_at f.record_max k
    → IsWide keys count
    → f.relative_key ≡ some key
    → f.flag_first_read ≡ 0
    → 0 < f.record_max
    → IsRead f.record_max s k (next_slot keys f s)
unfolding next_slot
next_slot-IsRead keys f s k count key good fine counted here wide has_key later long =
    let enough : count ≤ s.size = rw counted (slots-long f.record_max count) in
    subst (λ p. IsRead f.record_max s k (next_scan keys (s.size + 1) f (moved s p))) (sym here)
      (next_scan-IsRead keys (s.size + 1) f s k count key good fine counted wide has_key later long
        (omega arith) (omega arith))

-- A READ NEXT that is the first one after OPEN or START sets the key field to 1, whatever the number of the record that
-- it finds. The stream stands at a record of a file of whole slots.
pub next_slot-first_key :
    (keys : KeyField) (f : CobFile) (s : Stream) (k : ℕ) (key : ℤ)
    → IsSlotFile f.record_max s
    → s.position ≡ slot_at f.record_max k
    → 0 < slot_header f.record_max s k
    → f.relative_key ≡ some key
    → 0 < f.flag_first_read
    → 0 < f.record_max
    → next_slot keys f s
      ≡ some (
        record f {
          size = slot_header f.record_max s k;
          relative_key = some (keys.set_int (pos 1));
          flag_first_read = 0;
          record_data = slot_bytes f.record_max s k;
          stream = some (moved s (slot_at f.record_max (suc k)));
        },
        0,
      )
next_slot-first_key keys f s k key good here present has_key first long =
    ap (λ (p : ℕ). next_slot keys f (moved s p)) here
    ∙ returns (record-inside f.record_max s k good.slotted present)
  where
    returns :
        slot_at f.record_max (suc k) ≤ s.size
        → next_slot keys f (moved s (slot_at f.record_max k))
          ≡ some (
            record f {
              size = slot_header f.record_max s k;
              relative_key = some (keys.set_int (pos 1));
              flag_first_read = 0;
              record_data = slot_bytes f.record_max s k;
              stream = some (moved s (slot_at f.record_max (suc k)));
            },
            0,
          )
    returns inside =
        let turns : s.size + 1 ≡ suc s.size = omega arith in
        unfold next_slot next_scan with_next_key next_key get_record in
        rw turns (
          ground (
            arith,
            size-inside f s k good inside,
            present,
            has_key,
            first,
            record-data f s k good inside long,
          ))
