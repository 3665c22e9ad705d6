-- ===== src/Inspect/Marks.antt =====
-- The marks of INSPECT: a match marks bytes that were free, and no byte is marked twice, so that the
-- tally counts the marked bytes.
use Prim.Native.Nat.{ℕ}
use mathlib.Core.Bool.{false≢true}
use native.Mathlib.Nat.{suc-mul}
use blitzy_open_cobol.Base.{
  zero, suc, ◌+◌, ◌-◌, ◌*◌, ◌==◌, ◌≤◌, ◌<◌, ◌≡◌, refl, sym, ◌∙◌, arith, Bool, true, not, ◌&&◌, none,
  some, List, [], ◌∷◌, ◌++◌, length, take, drop, ltb, if◌then◌else◌, Bool-cases, inl, inr,
  both_true, length-drop,
}
use blitzy_open_cobol.Base.Buffers.{copy_at, length-copy_at, starts_with-le}
use blitzy_open_cobol.Inspect.Scan.{
  Mark, InspectType, all_free, is_leading, is_first, stands_at, matches_at, scan_up, scan_down,
  scan,
}

-- How many bytes are marked.
unfoldable pub marked_bytes : List Mark → ℕ
marked_bytes [] = 0
marked_bytes (none ∷ marks) = marked_bytes marks
marked_bytes (some v ∷ marks) = suc (marked_bytes marks)

pub marked_bytes-append :
    (a b : List Mark) → marked_bytes (a ++ b) ≡ marked_bytes a + marked_bytes b
unfolding marked_bytes
marked_bytes-append [] b = omega arith
marked_bytes-append (none ∷ a) b = marked_bytes-append a b
marked_bytes-append (some v ∷ a) b = omega (arith, marked_bytes-append a b)

pub split_marks :
    (k : ℕ) (marks : List Mark)
    → marked_bytes (take k marks) + marked_bytes (drop k marks) ≡ marked_bytes marks
unfolding marked_bytes
split_marks zero marks = omega arith
split_marks (suc k) [] = refl
split_marks (suc k) (none ∷ marks) = split_marks k marks
split_marks (suc k) (some v ∷ marks) = omega (arith, split_marks k marks)

free_marks : (marks : List Mark) → all_free marks ≡ true → marked_bytes marks ≡ 0
unfolding marked_bytes
free_marks [] h = refl
free_marks (none ∷ marks) h = free_marks marks h
free_marks (some v ∷ marks) h = absurd (false≢true h)

-- Writing marks over others takes these away and adds the new ones.
pub marked_bytes-copy_at :
    (marks : List Mark) (i : ℕ) (new : List Mark)
    → i + length new ≤ length marks
    → marked_bytes (copy_at marks i new) + marked_bytes (take (length new) (drop i marks))
      ≡ marked_bytes marks + marked_bytes new
unfolding copy_at marked_bytes
marked_bytes-copy_at marks zero new h =
    omega (arith, marked_bytes-append new (drop (length new) marks), split_marks (length new) marks)
marked_bytes-copy_at [] (suc i) new h = absurd (omega arith)
marked_bytes-copy_at (none ∷ marks) (suc i) new h = marked_bytes-copy_at marks i new (omega arith)
marked_bytes-copy_at (some v ∷ marks) (suc i) new h =
    omega (arith, marked_bytes-copy_at marks i new (omega arith))

-- What a loop leaves: as many marks, and `size` bytes more marked for each match that is counted.
pub record IsTally (size : ℕ) (before : List Mark) (n : ℕ) (after : List Mark × ℕ) : Type 0 where
  pub same_length : length after.0 ≡ length before
  pub counted : marked_bytes after.0 + n * size ≡ marked_bytes before + after.1 * size

module _ (pattern : List ℕ) (new : List Mark) (bytes : List ℕ) (nonempty : 0 < length pattern)
    (fits : length new ≡ length pattern) (full : marked_bytes new ≡ length pattern) where
  abbrev size : ℕ
  size = length pattern

  nothing-IsTally : (marks : List Mark) (n : ℕ) → IsTally size marks n (marks, n)
  nothing-IsTally marks n = record { same_length = refl; counted = refl }

  abbrev hit : List Mark → ℕ → Bool
  hit marks i = matches_at pattern bytes marks i

  abbrev marked : List Mark → ℕ → List Mark
  marked marks i = if hit marks i then copy_at marks i new else marks

  abbrev tally : List Mark → ℕ → ℕ → ℕ
  tally marks i n = if hit marks i then suc n else n

  module _ (marks : List Mark) (i n : ℕ) (same : length marks ≡ length bytes) where
    inside : hit marks i ≡ true → i + length new ≤ length marks
    inside h =
        let (stands, free) =
          both_true (stands_at pattern bytes i) (all_free (take size (drop i marks))) h in
        omega (arith, starts_with-le pattern (drop i bytes) stands, length-drop i bytes)

    length-marked : length (marked marks i) ≡ length bytes
    length-marked = elim (Bool-cases (hit marks i)) [
      | inl h ↦ rw h (length-copy_at marks i new (inside h) ∙ same)
      | inr h ↦ rw h same
    ]

    -- One turn of a loop, with what the other turns leave.
    turn-IsTally :
        (r : List Mark × ℕ)
        → IsTally size (marked marks i) (tally marks i n) r
        → IsTally size marks n r
    turn-IsTally r h = elim (Bool-cases (hit marks i)) [
      | inl found ↦
          let rest = rw found at h in
          let (stands, free) =
            both_true (stands_at pattern bytes i) (all_free (take size (drop i marks))) found in
          let none_before = free_marks (take (length new) (drop i marks)) (rw (sym fits) at free) in
          record {
            same_length = rest.same_length ∙ length-copy_at marks i new (inside found);
            counted = omega (
              arith,
              rest.counted,
              suc-mul n size,
              marked_bytes-copy_at marks i new (inside found),
              none_before,
              full,
            );
          }
      | inr missed ↦ rw missed at h
    ]

  scan_up-IsTally :
      (kind : InspectType) (limit fuel i : ℕ) (marks : List Mark) (n : ℕ)
      → length marks ≡ length bytes
      → IsTally size marks n (scan_up kind pattern new bytes limit fuel i marks n)
  unfolding scan_up
  scan_up-IsTally kind limit zero i marks n same = nothing-IsTally marks n
  scan_up-IsTally kind limit (suc fuel) i marks n same = elim (Bool-cases (not (ltb i limit))) [
    | inl stop ↦ rw stop (nothing-IsTally marks n)
    | inr go ↦ elim (Bool-cases (is_leading kind && not (stands_at pattern bytes i))) [
      | inl stop ↦ rw (go, stop) (nothing-IsTally marks n)
      | inr on ↦ elim (Bool-cases (is_first kind && hit marks i)) [
        | inl stop ↦
            rw (go, on, stop)
              (turn-IsTally marks i n same _ (nothing-IsTally (marked marks i) (tally marks i n)))
        | inr onward ↦
            rw (go, on, onward)
              (turn-IsTally marks i n same _ (
                scan_up-IsTally kind limit fuel _ (marked marks i) (tally marks i n)
                  (length-marked marks i n same)))
      ]
    ]
  ]

  scan_down-IsTally :
      (fuel next : ℕ) (marks : List Mark) (n : ℕ)
      → length marks ≡ length bytes
      → IsTally size marks n (scan_down pattern new bytes fuel next marks n)
  unfolding scan_down
  scan_down-IsTally zero next marks n same = nothing-IsTally marks n
  scan_down-IsTally (suc fuel) next marks n same = elim (Bool-cases (next == 0)) [
    | inl stop ↦ rw stop (nothing-IsTally marks n)
    | inr go ↦ elim (Bool-cases (not (stands_at pattern bytes (next - 1)))) [
      | inl stop ↦ rw (go, stop) (nothing-IsTally marks n)
      | inr on ↦
          rw (go, on)
            (turn-IsTally marks (next - 1) n same _ (
              scan_down-IsTally fuel _ (marked marks (next - 1)) (tally marks (next - 1) n)
                (length-marked marks (next - 1) n same)))
    ]
  ]

  abbrev limit : ℕ
  limit = length bytes + 1 - length pattern

  pub scan-IsTally :
      (kind : InspectType) (marks : List Mark)
      → length marks ≡ length bytes
      → IsTally size marks 0 (scan kind pattern new bytes marks)
  unfolding scan
  scan-IsTally InspectType.inspect_all marks same =
      scan_up-IsTally InspectType.inspect_all limit limit 0 marks 0 same
  scan-IsTally InspectType.inspect_leading marks same =
      scan_up-IsTally InspectType.inspect_leading limit limit 0 marks 0 same
  scan-IsTally InspectType.inspect_first marks same =
      scan_up-IsTally InspectType.inspect_first limit limit 0 marks 0 same
  scan-IsTally InspectType.inspect_trailing marks same = scan_down-IsTally limit limit marks 0 same
