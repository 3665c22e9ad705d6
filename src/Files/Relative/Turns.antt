-- ===== src/Files/Relative/Turns.antt =====
-- The loops of START and READ NEXT end on any RELATIVE file: each turn is inside the file and goes on.
use native.Mathlib.Decide.{dec_lt}
use blitzy_open_cobol.Base.{
  ℕ, zero, suc, ◌+◌, ◌*◌, ◌≤◌, ◌<◌, ◌≡◌, refl, sym, ◌∙◌, ◌⊎◌, inl, inr, true, false, ◌||◌, none,
  some, ◌==◌, arith, if◌then◌else◌, Bool-cases, Option-cases,
}
use blitzy_open_cobol.Base.Int.{
  ℤ, pos, negsuc, ◌+ℤ◌, ◌-ℤ◌, abs, pos_part, neg_part, mul_pos_parts, int_laws,
}
use blitzy_open_cobol.Files.{
  CobFile, KeyField, Outcome, cond_lt, cond_le, cond_gt, cond_ge, cond_eq,
}
use blitzy_open_cobol.Files.Stdio.{Stream, fread, fseek_set, fseek_cur}
use blitzy_open_cobol.Files.Stdio.Words.{word_size}
use blitzy_open_cobol.Files.Relative.{
  slot_size, slot_offset, fread_size, seek_size, get_record, start_scan, start_slot, next_index,
  next_scan, with_next_key, on_stream, back_one_word,
}
use blitzy_open_cobol.Files.Relative.Keeps.{
  has, modes, IsDefined, IsRelation, Keeps-trans, get_record-Keeps,
}

-- A size is read only inside the file.
pub fread_size-got :
    (s : Stream) (n : ℕ)
    → (fread_size s).0 ≡ some n
    → (s.position + word_size ≤ s.size) × ((fread_size s).1.position ≡ s.position + word_size)
unfolding fread_size fread
fread_size-got s n got = ground arith

pub fread_size-size : (s : Stream) → (fread_size s).1.size ≡ s.size
unfolding fread_size fread
fread_size-size s = ground arith

pub seek_size-size :
    (f : CobFile) (kindex : ℤ) (s : Stream) → (seek_size f kindex s).1.size ≡ s.size
unfolding seek_size fseek_set
seek_size-size f kindex s =
    ground (arith, fread_size-size (record s { position = pos_part (slot_offset f kindex) }))

pub slot_offset_parts :
    (f : CobFile) (kindex : ℤ)
    → (pos_part (slot_offset f kindex) ≡ pos_part kindex * slot_size f)
      × (neg_part (slot_offset f kindex) ≡ neg_part kindex * slot_size f)
slot_offset_parts f kindex = mul_pos_parts kindex (slot_size f)

pub seek_size-got :
    (f : CobFile) (k n : ℕ) (s : Stream) → (seek_size f (pos k) s).0 ≡ some n → k < s.size
unfolding seek_size fseek_set
seek_size-got f k n s got =
    let at = slot_offset_parts f (pos k) in
    let far : k ≤ k * slot_size f = grind arith in
    ground (
      arith,
      fread_size-got (record s { position = pos_part (slot_offset f (pos k)) }) n,
      at.0,
      at.1,
      far,
    )

pub seek_size-before : (f : CobFile) (j : ℕ) (s : Stream) → (seek_size f (negsuc j) s).0 ≡ none
unfolding seek_size fseek_set
seek_size-before f j s =
    let at = slot_offset_parts f (negsuc j) in
    let far : suc j ≤ suc j * slot_size f = grind arith in ground (arith, at.1, far)

-- One turn of START: it ends, or goes on with the neighbour.
pub start_scan-turn :
    (keys : KeyField) (fuel cond : ℕ) (f : CobFile) (s : Stream) (kindex : ℤ)
    → has f.relative_key ≡ true
    → IsDefined f (start_scan keys (suc fuel) cond f s kindex)
      ⊎ ((n : ℕ) × ((seek_size f kindex s).0 ≡ some n)
          × (start_scan keys (suc fuel) cond f s kindex
              ≡ start_scan keys fuel cond
                  (record f { size = n })
                  (seek_size f kindex s).1
                  (next_index cond kindex))
          × ((cond == cond_eq) ≡ false))
unfolding start_scan
start_scan-turn keys fuel cond f s kindex key = elim (Option-cases (seek_size f kindex s).0) [
  | inl beyond ↦
      inl (on_stream f (seek_size f kindex s).1, 23, ground (arith, beyond), (refl, refl, refl))
  | inr (n, got) ↦ elim (dec_lt 0 n) [
    | yes present ↦ inl (
      record f {
        size = n;
        relative_key = some (keys.set_int (kindex +ℤ pos 1));
        stream = some (back_one_word (seek_size f kindex s).1);
      },
      0,
      ground (arith, got, present),
      (refl, sym key, refl),
    )
    | no absent ↦ elim (Bool-cases (cond == cond_eq)) [
      | inl eq ↦ inl (
        record f { size = n; stream = some (seek_size f kindex s).1 },
        23,
        ground (arith, got, absent, eq),
        (refl, refl, refl),
      )
      | inr other ↦ inr (n, got, ground (arith, got, absent, other), other)
    ]
  ]
]

-- What the turn of START left to do, done.
pub IsDefined-later :
    (f : CobFile) {here later : Outcome} (n : ℕ)
    → here ≡ later
    → IsDefined (record f { size = n }) later
    → IsDefined f here
IsDefined-later f n same (g, status, returns, keeps) = (g, status, same ∙ returns, keeps)

pub step_up : (k : ℕ) → pos k +ℤ pos 1 ≡ pos (suc k)
step_up k = omega int_laws

pub step_down : (k : ℕ) → pos (suc k) -ℤ pos 1 ≡ pos k
step_down k = omega int_laws

pub step_out : pos 0 -ℤ pos 1 ≡ negsuc 0
step_out = omega int_laws

-- In front of the file the scan ends at once.
pub start_scan-before :
    (keys : KeyField) (fuel cond : ℕ) (f : CobFile) (s : Stream) (j : ℕ)
    → 0 < fuel
    → has f.relative_key ≡ true
    → IsDefined f (start_scan keys fuel cond f s (negsuc j))
start_scan-before keys zero cond f s j some_fuel key = absurd (omega arith)
start_scan-before keys (suc fuel) cond f s j some_fuel key =
    elim (start_scan-turn keys fuel cond f s (negsuc j) key) [
      | inl done ↦ done
      | inr (n, got, later, other) ↦ absurd (none_some (sym (seek_size-before f j s) ∙ got))
    ]
  where
    none_some : {n : ℕ} → none ≡ some n → ⊥
    none_some e = cc

module _ (keys : KeyField) (cond : ℕ) (relation : IsRelation cond) where
  start_scan-up :
      (cond == cond_lt || cond == cond_le) ≡ false
      → (fuel : ℕ) (f : CobFile) (s : Stream) (k : ℕ) → s.size < fuel + k
      → 0 < fuel
      → has f.relative_key ≡ true
      → IsDefined f (start_scan keys fuel cond f s (pos k))
  start_scan-up up zero f s k enough some_fuel key = absurd (omega arith)
  start_scan-up up (suc fuel) f s k enough some_fuel key =
      elim (start_scan-turn keys fuel cond f s (pos k) key) [
        | inl done ↦ done
        | inr (n, got, later, other) ↦
            let inside : k < s.size = seek_size-got f k n s got in
            let same : (seek_size f (pos k) s).1.size ≡ s.size = seek_size-size f (pos k) s in
            let next =
              start_scan-up up fuel (record f { size = n }) (seek_size f (pos k) s).1 (suc k)
                (omega arith) (omega arith) key in
            let ahead : (cond == cond_gt || cond == cond_ge) ≡ true =
              ground (arith, relation.0, relation.1, up, other) in
            IsDefined-later f n (rw (up, ahead, step_up k) at later) next
      ]

  start_scan-down :
      (cond == cond_lt || cond == cond_le) ≡ true
      → (fuel : ℕ) (f : CobFile) (s : Stream) (k : ℕ) → k + 1 < fuel
      → has f.relative_key ≡ true
      → IsDefined f (start_scan keys fuel cond f s (pos k))
  start_scan-down down zero f s k enough key = absurd (omega arith)
  start_scan-down down (suc fuel) f s zero enough key =
      elim (start_scan-turn keys fuel cond f s (pos zero) key) [
        | inl done ↦ done
        | inr (n, got, later, other) ↦ IsDefined-later f n (rw (down, step_out) at later) (
            start_scan-before keys fuel cond (record f { size = n }) (seek_size f (pos zero) s).1 0
              (omega arith) key)
      ]
  start_scan-down down (suc fuel) f s (suc k) enough key =
      elim (start_scan-turn keys fuel cond f s (pos (suc k)) key) [
        | inl done ↦ done
        | inr (n, got, later, other) ↦ IsDefined-later f n (rw (down, step_down k) at later) (
            start_scan-down down fuel (record f { size = n }) (seek_size f (pos (suc k)) s).1 k
              (omega arith) key)
      ]

pub one_less : (z : ℤ) → pos_part (z -ℤ pos 1) ≤ pos_part z
unfolding ◌-ℤ◌
one_less (pos n) = ground arith
one_less (negsuc n) = ground arith

pub pos_part-abs : (z : ℤ) → pos_part z ≤ abs z
pos_part-abs (pos n) = omega arith
pos_part-abs (negsuc n) = omega arith

pub back_again : (z : ℤ) → z -ℤ pos 1 +ℤ pos 1 ≡ z
back_again z = omega int_laws

-- START from any place, in either direction.
pub start_scan-Defined :
    (keys : KeyField) (cond fuel : ℕ) (f : CobFile) (s : Stream) (kindex : ℤ)
    → IsRelation cond
    → s.size + pos_part kindex + 1 < fuel
    → has f.relative_key ≡ true
    → IsDefined f (start_scan keys fuel cond f s kindex)
start_scan-Defined keys cond fuel f s (negsuc j) relation enough key =
    start_scan-before keys fuel cond f s j (omega arith) key
start_scan-Defined keys cond fuel f s (pos k) relation enough key =
    elim (Bool-cases (cond == cond_lt || cond == cond_le)) [
      | inl down ↦ start_scan-down keys cond relation down fuel f s k (omega arith) key
      | inr up ↦ start_scan-up keys cond relation up fuel f s k (omega arith) (omega arith) key
    ]

pub start_slot-Defined :
    (keys : KeyField) (cond : ℕ) (f : CobFile) (s : Stream) (key : ℤ)
    → IsRelation cond
    → has f.relative_key ≡ true
    → IsDefined f (start_slot keys cond f s key)
unfolding start_slot
start_slot-Defined keys cond f s key relation has_key =
    start_scan-Defined keys cond (s.size + abs key + 2) f s _ relation (first-below) has_key
  where
    first-below :
        s.size
          + pos_part (
              if cond == cond_lt
              then key -ℤ pos 1 -ℤ pos 1
              else if cond == cond_gt
              then key -ℤ pos 1 +ℤ pos 1
              else key -ℤ pos 1)
          + 1
        < s.size + abs key + 2
    first-below =
        ground (arith, one_less key, one_less (key -ℤ pos 1), pos_part-abs key, back_again key)

-- The key of READ NEXT.
pub with_next_key-kept :
    (keys : KeyField) (f : CobFile) (s : Stream)
    → (has (with_next_key keys f s).0.relative_key ≡ has f.relative_key)
      × (modes (with_next_key keys f s).0 ≡ modes f)
unfolding with_next_key
with_next_key-kept keys f s = ground arith

pub fseek_cur-size : (n : ℕ) (s : Stream) → (fseek_cur (pos n) s).size ≡ s.size
unfolding fseek_cur
fseek_cur-size n s = ground arith

pub fseek_cur-ahead : (n : ℕ) (s : Stream) → s.position ≤ (fseek_cur (pos n) s).position
unfolding fseek_cur ◌+ℤ◌
fseek_cur-ahead n s = ground arith

-- One turn of READ NEXT: it ends, or goes on behind the slot.
pub next_scan-turn :
    (keys : KeyField) (fuel : ℕ) (f : CobFile) (s : Stream)
    → IsDefined f (next_scan keys (suc fuel) f s)
      ⊎ ((n : ℕ) × ((fread_size s).0 ≡ some n)
          × (next_scan keys (suc fuel) f s
              ≡ next_scan keys fuel
                  (with_next_key keys (record f { size = n }) (fread_size s).1).0
                  (fseek_cur (pos f.record_max) (fread_size s).1)))
unfolding next_scan
next_scan-turn keys fuel f s = elim (Option-cases (fread_size s).0) [
  | inl beyond ↦ inl (
    on_stream f (fread_size s).1,
    if (fread_size s).1.ferror then 30 else 10,
    ground (arith, beyond),
    (refl, refl, refl),
  )
  | inr (n, got) ↦
      let g : CobFile = (with_next_key keys (record f { size = n }) (fread_size s).1).0 in
      let kept = with_next_key-kept keys (record f { size = n }) (fread_size s).1 in
      elim (Bool-cases (with_next_key keys (record f { size = n }) (fread_size s).1).1) [
        | inr narrow ↦ inl (
          on_stream g (back_one_word (fread_size s).1),
          14,
          ground (arith, got, narrow),
          (refl, kept.0, kept.1),
        )
        | inl wide ↦ elim (dec_lt 0 n) [
          | yes present ↦ inl (
            (get_record g (fread_size s).1).0,
            (get_record g (fread_size s).1).1,
            ground (arith, got, wide, present),
            Keeps-trans f g (get_record g (fread_size s).1).0 kept
                (get_record-Keeps g (fread_size s).1),
          )
          | no absent ↦ inr (n, got, ground (arith, got, wide, absent))
        ]
      ]
]

pub next_scan-Defined :
    (keys : KeyField) (fuel : ℕ) (f : CobFile) (s : Stream)
    → s.size < fuel + s.position
    → 0 < fuel
    → IsDefined f (next_scan keys fuel f s)
next_scan-Defined keys zero f s enough some_fuel = absurd (omega arith)
next_scan-Defined keys (suc fuel) f s enough some_fuel = elim (next_scan-turn keys fuel f s) [
  | inl done ↦ done
  | inr (n, got, later) ↦
      let t : Stream = (fread_size s).1 in
      let g : CobFile = (with_next_key keys (record f { size = n }) t).0 in
      let (inside, ahead) = fread_size-got s n got in
      let (h, status, returns, keeps) =
        next_scan-Defined keys fuel g (fseek_cur (pos f.record_max) t)
          (omega (
            arith,
            fseek_cur-size f.record_max t,
            fread_size-size s,
            fseek_cur-ahead f.record_max t,
          ))
          (omega arith) in
      (
        h,
        status,
        later ∙ returns,
        Keeps-trans f g h (with_next_key-kept keys (record f { size = n }) t) keeps,
      )
]
