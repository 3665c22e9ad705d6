-- ===== src/Files/Relative/Forward.antt =====
-- Going through a RELATIVE file in order: START with GREATER and with NOT LESS, and READ NEXT.
use native.Mathlib.Decide.{dec_lt}
use blitzy_open_cobol.Base.{
  ℕ, zero, suc, ◌+◌, ◌≤◌, ◌<◌, ◌≡◌, refl, ◌∙◌, ◌⊎◌, inl, inr, true, false, ◌||◌, Option, none, some,
  ◌==◌, arith, ap, if◌then◌else◌,
}
use blitzy_open_cobol.Base.Int.{ℤ, pos, ◌-ℤ◌, ◌+ℤ◌, int_laws}
use blitzy_open_cobol.Files.{
  CobFile, KeyField, Outcome, cond_eq, cond_lt, cond_le, cond_gt, cond_ge,
}
use blitzy_open_cobol.Files.Stdio.{Stream}
use blitzy_open_cobol.Files.Stdio.Words.{word_size}
use blitzy_open_cobol.Files.Relative.{start_scan, start_slot, seek_size}
use blitzy_open_cobol.Files.Relative.Slots.{IsSlotFile, slot_at, slot_header, slot_header-beyond}
use blitzy_open_cobol.Files.Relative.Transfers.{moved}
use blitzy_open_cobol.Files.Relative.Seek.{
  back-moved, moved-IsSlotFile, inside_or_beyond, header-moved, seek-inside, seek-beyond,
}

-- Slot `n` is the first one from `k` on that has a record.
pub record IsNext (m : ℕ) (s : Stream) (k n : ℕ) : Type 0 where
  pub behind : k ≤ n
  pub present : 0 < slot_header m s n
  pub passed : (j : ℕ) → k ≤ j → j < n → slot_header m s j ≡ 0

-- No slot from `k` on has a record.
abbrev pub IsEnd : ℕ → Stream → ℕ → Type 0
IsEnd m s k = (j : ℕ) → k ≤ j → slot_header m s j ≡ 0

pub IsNext-skip :
    {m : ℕ} {s : Stream} {k n : ℕ} → slot_header m s k ≡ 0 → IsNext m s (suc k) n → IsNext m s k n
IsNext-skip {m} {s} {k} free next = record {
  behind = omega (arith, next.behind);
  present = next.present;
  passed = λ j above below. elim (dec_lt k j) [
    | yes over ↦ next.passed j (omega arith) below
    | no same ↦ let here : j ≡ k = omega arith in rw here free
  ];
}

pub IsEnd-skip :
    (m : ℕ) (s : Stream) (k : ℕ) → slot_header m s k ≡ 0 → IsEnd m s (suc k) → IsEnd m s k
IsEnd-skip m s k free end j above = elim (dec_lt k j) [
  | yes over ↦ end j (omega arith)
  | no same ↦ let here : j ≡ k = omega arith in rw here free
]

-- Behind the last slot there is nothing.
pub IsEnd-beyond : (m : ℕ) (s : Stream) (k : ℕ) → s.size ≤ slot_at m k → IsEnd m s k
IsEnd-beyond m s k beyond j above =
    let later : slot_at m k ≤ slot_at m j = grind arith in slot_header-beyond m s j (omega arith)

pub number-below : (m k count : ℕ) → slot_at m (suc k) ≤ slot_at m count → k < count
number-below m k count h = elim (dec_lt k count) [
  | yes below ↦ below
  | no above ↦ let le : slot_at m count ≤ slot_at m k = grind arith in absurd (omega arith)
]

-- The file that START leaves, and the status.
pub record IsStarted (keys : KeyField) (f : CobFile) (s : Stream) (k : ℕ) (result : Outcome)
    : Type 0 where
  pub size_left : ℕ
  pub key_left : Option ℤ
  pub stream_left : Option Stream
  pub status : ℕ
  pub returns :
      result
      ≡ some (record f { size = size_left; relative_key = key_left; stream = stream_left }, status)
  pub outcome :
      ((n : ℕ) × IsNext f.record_max s k n
        × (status ≡ 0)
        × (key_left ≡ some (keys.set_int (pos (suc n))))
        × (stream_left ≡ some (moved s (slot_at f.record_max n))))
      ⊎ (IsEnd f.record_max s k × (status ≡ 23))

next_number : (k : ℕ) → pos (suc k) -ℤ pos 1 ≡ pos k
next_number k = omega int_laws

one_more : (k : ℕ) → pos k +ℤ pos 1 ≡ pos (suc k)
one_more k = omega int_laws

-- Where the scan looks at slot `k`.
at_end :
    (f : CobFile) (s : Stream) (p k : ℕ)
    → IsSlotFile f.record_max s
    → s.size ≤ slot_at f.record_max k
    → seek_size f (pos k) (moved s p) ≡ (none, moved s (slot_at f.record_max k))
at_end f s p k good beyond =
    rw (← next_number k) (seek-beyond f (moved s p) k (moved-IsSlotFile p good) beyond)

pub at_slot :
    (f : CobFile) (s : Stream) (p k : ℕ)
    → IsSlotFile f.record_max s
    → slot_at f.record_max (suc k) ≤ s.size
    → seek_size f (pos k) (moved s p)
      ≡ (some (slot_header f.record_max s k), moved s (slot_at f.record_max k + word_size))
at_slot f s p k good inside = rw (← next_number k) (
    seek-inside f (moved s p) k (moved-IsSlotFile p good) inside
    ∙ ap (λ (n : ℕ). (some n, moved s (slot_at f.record_max k + word_size)))
        (header-moved f.record_max s p k))

-- A turn that finds no record.
IsStarted-skip :
    {keys : KeyField} {f : CobFile} {s : Stream} {k : ℕ} {here later : Outcome} (size : ℕ)
    → slot_header f.record_max s k ≡ 0
    → here ≡ later
    → IsStarted keys (record f { size = size }) s (suc k) later
    → IsStarted keys f s k here
IsStarted-skip {f = f} {s = s} {k = k} size free same rest = record {
  size_left = rest.size_left;
  key_left = rest.key_left;
  stream_left = rest.stream_left;
  status = rest.status;
  returns = same ∙ rest.returns;
  outcome = elim rest.outcome [
    | inl (n, next, done, number, place) ↦ inl (n, IsNext-skip free next, done, number, place)
    | inr (end, done) ↦ inr (IsEnd-skip f.record_max s k free end, done)
  ];
}

module _ (keys : KeyField) (cond : ℕ) (up : (cond == cond_lt || cond == cond_le) ≡ false)
    (ahead : (cond == cond_gt || cond == cond_ge) ≡ true) (not_eq : (cond == cond_eq) ≡ false) where
  start_scan-free :
      (fuel : ℕ) (f : CobFile) (s : Stream) (p k : ℕ)
      → IsSlotFile f.record_max s
      → slot_at f.record_max (suc k) ≤ s.size
      → slot_header f.record_max s k ≡ 0
      → start_scan keys (suc fuel) cond f (moved s p) (pos k)
        ≡ start_scan keys fuel cond
            (record f { size = slot_header f.record_max s k })
            (moved s (slot_at f.record_max k + word_size))
            (pos (suc k))
  unfolding start_scan
  start_scan-free fuel f s p k good inside free =
      ground (arith, at_slot f s p k good inside, free, up, ahead, not_eq, one_more k)

  start_scan-up :
      (fuel : ℕ) (f : CobFile) (s : Stream) (p k count : ℕ)
      → IsSlotFile f.record_max s
      → s.size ≡ slot_at f.record_max count
      → count < fuel + k
      → 0 < fuel
      → IsStarted keys f s k (start_scan keys fuel cond f (moved s p) (pos k))
  start_scan-up zero f s p k count good counted enough some_fuel = absurd (omega arith)
  start_scan-up (suc fuel) f s p k count good counted enough some_fuel =
      elim (inside_or_beyond f.record_max s k good.slotted) [
        | inr beyond ↦ record {
          size_left = f.size;
          key_left = f.relative_key;
          stream_left = some (moved s (slot_at f.record_max k));
          status = 23;
          returns = unfold start_scan in ground (arith, at_end f s p k good beyond);
          outcome = inr (IsEnd-beyond f.record_max s k beyond, refl);
        }
        | inl inside ↦ elim (dec_lt 0 (slot_header f.record_max s k)) [
          | yes present ↦ record {
            size_left = slot_header f.record_max s k;
            key_left = some (keys.set_int (pos k +ℤ pos 1));
            stream_left = some (moved s (slot_at f.record_max k));
            status = 0;
            returns =
                unfold start_scan in
                ground (
                  arith,
                  at_slot f s p k good inside,
                  back-moved s (slot_at f.record_max k),
                  present,
                );
            outcome = inl (
              k,
              record {
                behind = omega arith;
                present = present;
                passed = λ j above below. absurd (omega arith);
              },
              refl,
              ap (λ (z : ℤ). some (keys.set_int z)) (one_more k),
              refl,
            );
          }
          | no absent ↦
              let free : slot_header f.record_max s k ≡ 0 = omega arith in
              let below : k < count = number-below f.record_max k count (rw counted at inside) in
              IsStarted-skip (slot_header f.record_max s k) free
                (start_scan-free fuel f s p k good inside free)
                (start_scan-up fuel (record f { size = slot_header f.record_max s k }) s
                  (slot_at f.record_max k + word_size) (suc k) count good counted (omega arith)
                  (omega arith))
        ]
      ]

pub slots-long : (m count : ℕ) → count ≤ slot_at m count
slots-long m count = grind arith

-- START with NOT LESS and with GREATER, on a file of whole slots with a key of 1 at least: the
-- stream stands at the first record with such a number and the key is its number, or the status is
-- 23 and there is no such record. The loop ends in either case.
pub start_slot-IsNext :
    (keys : KeyField) (cond : ℕ) (f : CobFile) (s : Stream) (key : ℕ)
    → ((cond ≡ cond_ge) ⊎ (cond ≡ cond_gt))
    → IsSlotFile f.record_max s
    → IsStarted keys f s
        (if cond == cond_gt then suc key else key)
        (start_slot keys cond f s (pos (suc key)))
start_slot-IsNext keys cond f s key (inl ge) good =
    let long : good.slotted.0 ≤ s.size =
      rw good.slotted.1 (slots-long f.record_max good.slotted.0) in
    let scan : IsStarted keys f s key (start_scan keys (s.size + suc key + 2) cond f s (pos key)) =
      start_scan-up keys cond (rw ge refl) (rw ge refl) (rw ge refl) (s.size + suc key + 2) f s
        s.position key good.slotted.0 good good.slotted.1 (omega arith) (omega arith) in
    unfold start_slot in rw ge (rw (next_number key) (rw ge at scan))
start_slot-IsNext keys cond f s key (inr gt) good =
    let long : good.slotted.0 ≤ s.size =
      rw good.slotted.1 (slots-long f.record_max good.slotted.0) in
    let scan : IsStarted keys f s (suc key)
        (start_scan keys (s.size + suc key + 2) cond f s (pos (suc key))) =
      start_scan-up keys cond (rw gt refl) (rw gt refl) (rw gt refl) (s.size + suc key + 2) f s
        s.position (suc key) good.slotted.0 good good.slotted.1 (omega arith) (omega arith) in
    unfold start_slot in rw gt (rw (next_number key) (rw (one_more key) (rw gt at scan)))

-- There is one next record.
IsNext-unique : (m : ℕ) (s : Stream) (k a b : ℕ) → IsNext m s k a → IsNext m s k b → a ≡ b
IsNext-unique m s k a b first second = elim (dec_lt a b) [
  | yes less ↦ absurd (omega (arith, second.passed a first.behind less, first.present))
  | no not_less ↦ elim (dec_lt b a) [
    | yes more ↦ absurd (omega (arith, first.passed b second.behind more, second.present))
    | no same ↦ omega arith
  ]
]

-- Where there is a next record, START finds it.
pub IsStarted-found :
    (keys : KeyField) (f : CobFile) (s : Stream) (k n : ℕ) (result : Outcome)
    → IsStarted keys f s k result
    → IsNext f.record_max s k n
    → (size : ℕ) × (result
        ≡ some (
          record f {
            size = size;
            relative_key = some (keys.set_int (pos (suc n)));
            stream = some (moved s (slot_at f.record_max n));
          },
          0,
        ))
IsStarted-found keys f s k n result st next = elim st.outcome [
  | inl (a, found, done, number, place) ↦
      let same : a ≡ n = IsNext-unique f.record_max s k a n found next in
      (st.size_left, ground (arith, st.returns, done, number, place, same))
  | inr (end, done) ↦ absurd (omega (arith, end n next.behind, next.present))
]
