-- ===== src/Inspect/Tally.antt =====
-- What INSPECT TALLYING adds: each phrase adds the number of its matches, and every byte that it
-- counts is marked, so that no later phrase counts it again.
use Prim.Native.Nat.{ℕ}
use mathlib.Core.Path.{subst}
use blitzy_open_cobol.Base.{
  zero, suc, ◌+◌, ◌*◌, ◌≤◌, ◌<◌, ◌≡◌, refl, sym, ap, ◌∙◌, arith, take-all, Bool, true, false, ◌-◌,
  none, some, List, [], ◌∷◌, length, drop, replicate, length-drop, length-take, length-replicate,
}
use blitzy_open_cobol.Base.Buffers.{copy_at, length-copy_at}
use blitzy_open_cobol.Inspect.{
  InspectState, region, region_size, mark_free, inspect_common, inspect_characters,
}
use blitzy_open_cobol.Inspect.Scan.{Mark, InspectType, all_free, scan, scan_down}
use blitzy_open_cobol.Inspect.Count.{IsCount, Adds}
use blitzy_open_cobol.Inspect.Upward.{scan_up-IsCount, all_free-take}
use blitzy_open_cobol.Inspect.Downward.{scan_down-IsCount}
use blitzy_open_cobol.Inspect.Marks.{marked_bytes, marked_bytes-copy_at, scan-IsTally}

-- A state between two phrases: one mark for each byte, and the region lies in the data.
pub record IsRegion (s : InspectState) : Type 0 where
  pub a_mark_each : length s.inspect_mark ≡ length s.inspect_data
  pub ordered : s.inspect_start ≤ s.inspect_end
  pub inside : s.inspect_end ≤ length s.inspect_data

-- The scans count what is to be counted, on bytes without marks.
scan-IsCount :
    (pattern : List ℕ) (new : List Mark) (bytes : List ℕ) (kind : InspectType) (marks : List Mark)
    → 0 < length pattern
    → length new ≡ length pattern
    → length marks ≡ length bytes
    → all_free marks ≡ true
    → Adds pattern kind bytes 0 (scan kind pattern new bytes marks)
unfolding scan
scan-IsCount pattern new bytes InspectType.inspect_all marks nonempty fits same free =
    scan_up-IsCount pattern new bytes nonempty fits InspectType.inspect_all refl _ refl _ 0 marks 0
      (omega arith) same free
scan-IsCount pattern new bytes InspectType.inspect_leading marks nonempty fits same free =
    scan_up-IsCount pattern new bytes nonempty fits InspectType.inspect_leading refl _ refl _ 0
      marks 0 (omega arith) same free
scan-IsCount pattern new bytes InspectType.inspect_first marks nonempty fits same free =
    scan_up-IsCount pattern new bytes nonempty fits InspectType.inspect_first refl _ refl _ 0 marks
      0 (omega arith) same free
scan-IsCount pattern new bytes InspectType.inspect_trailing marks nonempty fits same free =
    let limit : ℕ = length bytes + 1 - length pattern in
    subst
      (λ t.
        Adds pattern InspectType.inspect_trailing t 0
          (scan_down pattern new bytes limit limit marks 0))
      (take-all (length bytes) bytes (omega arith))
      (scan_down-IsCount pattern new bytes nonempty fits limit limit (length bytes) marks 0 refl
        (omega arith) (omega arith) same (all_free-take (length bytes) marks free))

module _ (s : InspectState) (h : IsRegion s) where
  abbrev old : List Mark
  old = region s s.inspect_mark

  length-region :
      {A : Type 0} (xs : List A)
      → length xs ≡ length s.inspect_data
      → length (region s xs) ≡ region_size s
  length-region xs same = omega (
    arith,
    length-take (region_size s) (drop s.inspect_start xs),
    length-drop s.inspect_start xs,
    h.inside,
  )

  -- New marks for the region.
  marked_region :
      (new : List Mark)
      → length new ≡ region_size s
      → marked_bytes (copy_at s.inspect_mark s.inspect_start new) + marked_bytes old
        ≡ marked_bytes s.inspect_mark + marked_bytes new
  marked_region new len = rw len at (
      marked_bytes-copy_at s.inspect_mark s.inspect_start new
        (omega (arith, h.ordered, h.inside, h.a_mark_each, len)))

  replicate-marked : (n : ℕ) → marked_bytes (replicate n (some 1)) ≡ n
  unfolding marked_bytes
  replicate-marked zero = refl
  replicate-marked (suc n) = ap suc (replicate-marked n)

  -- INSPECT TALLYING ... FOR ALL, LEADING, FIRST or TRAILING a pattern that is not empty: the bytes
  -- of the matches that are counted are marked, and these bytes were not marked before.
  inspect_common-tally :
      (all : Bool) (f1 f2 : List ℕ) (kind : InspectType)
      → s.inspect_replacing ≡ false
      → 0 < length f2
      → let (after, n) = inspect_common s all f1 f2 kind in
        (marked_bytes after.inspect_mark ≡ marked_bytes s.inspect_mark + n * length f2)
        × (length after.inspect_mark ≡ length s.inspect_mark)
        × (after.exception ≡ s.exception)
  unfolding inspect_common
  inspect_common-tally all f1 f2 kind tallying nonempty =
      let new : List Mark = replicate (length f2) (some 1) in
      let bytes = region s s.inspect_data in
      let len = length-region s.inspect_mark h.a_mark_each in
      let loop =
        scan-IsTally f2 new bytes nonempty (length-replicate (length f2) (some 1))
          (replicate-marked (length f2)) kind old (len ∙ sym (length-region s.inspect_data refl)) in
      let marks = (scan kind f2 new bytes old).0 in
      let total = marked_region marks (loop.same_length ∙ len) in
      rw tallying (
        omega (arith, total, loop.counted),
        length-copy_at s.inspect_mark s.inspect_start marks
            (omega (arith, loop.same_length, len, h.ordered, h.inside, h.a_mark_each)),
        refl,
      )

  counted :
      (all : Bool) (f1 f2 : List ℕ) (kind : InspectType)
      → s.inspect_replacing ≡ false
      → 0 < length f2
      → all_free old ≡ true
      → IsCount f2 kind (region s s.inspect_data) (inspect_common s all f1 f2 kind).1
  unfolding inspect_common
  counted all f1 f2 kind tallying nonempty free =
      let (k, total, count) =
        scan-IsCount f2 (replicate (length f2) (some 1)) (region s s.inspect_data) kind old nonempty
          (length-replicate (length f2) (some 1))
          (length-region s.inspect_mark h.a_mark_each ∙ sym (length-region s.inspect_data refl))
          free in
      rw tallying (
        subst (λ (t : ℕ). IsCount f2 kind (region s s.inspect_data) t) (omega (arith, total)) count)

  -- INSPECT TALLYING of a pattern that is not empty, where no byte of the region is marked: what is
  -- added to the tally field is, for ALL, the number of the matches from the left that do not overlap,
  -- for LEADING of those at the beginning of the region that follow one another, for TRAILING of those
  -- at its end, and for FIRST one, or nothing where there is no match. As many bytes are marked as
  -- these matches have.
  pub inspect_common-IsCount :
      (all : Bool) (f1 f2 : List ℕ) (kind : InspectType)
      → s.inspect_replacing ≡ false
      → 0 < length f2
      → all_free old ≡ true
      → let (after, n) = inspect_common s all f1 f2 kind in
        IsCount f2 kind (region s s.inspect_data) n
        × (marked_bytes after.inspect_mark ≡ marked_bytes s.inspect_mark + n * length f2)
  inspect_common-IsCount all f1 f2 kind tallying nonempty free = (
    counted all f1 f2 kind tallying nonempty free,
    (inspect_common-tally all f1 f2 kind tallying nonempty).0,
  )

  mark_free-counts :
      (new : ℕ) (marks : List Mark)
      → let (after, n) = mark_free (some new) marks in
        (marked_bytes after ≡ length marks)
        × (marked_bytes marks + n ≡ length marks)
        × (length after ≡ length marks)
  unfolding mark_free marked_bytes
  mark_free-counts new [] = (refl, omega arith, refl)
  mark_free-counts new (none ∷ marks) =
      let (a, b, c) = mark_free-counts new marks in
      (omega (arith, a), omega (arith, b), omega (arith, c))
  mark_free-counts new (some v ∷ marks) =
      let (a, b, c) = mark_free-counts new marks in
      (omega (arith, a), omega (arith, b), omega (arith, c))

  -- INSPECT TALLYING ... FOR CHARACTERS counts the bytes of the region that were not marked, and
  -- marks them.
  pub inspect_characters-tally :
      (f1 : List ℕ)
      → s.inspect_replacing ≡ false
      → let (after, n) = inspect_characters s f1 in
        (marked_bytes after.inspect_mark ≡ marked_bytes s.inspect_mark + n)
        × (marked_bytes old + n ≡ region_size s)
  unfolding inspect_characters
  inspect_characters-tally f1 tallying =
      let (a, b, c) = mark_free-counts 1 old in
      let len = length-region s.inspect_mark h.a_mark_each in
      let total = marked_region (mark_free (some 1) old).0 (c ∙ len) in
      rw tallying (omega (arith, total, a, b), b ∙ len)
