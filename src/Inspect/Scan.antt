-- ===== src/Inspect/Scan.antt =====
-- The marks of INSPECT and the two loops of `inspect_common` in libcob/strings.c.
use blitzy_open_cobol.Base.{
  ℕ, zero, suc, ◌+◌, ◌-◌, ◌==◌, Bool, true, false, not, ◌&&◌, Option, none, some, List, [], ◌∷◌,
  length, take, drop, ltb, if◌then◌else◌, starts_with,
}
use blitzy_open_cobol.Base.Buffers.{copy_at}

abbrev pub Mark : Type 0
Mark = Option ℕ

abbrev pub is_free : Mark → Bool
is_free none = true
is_free (some v) = false

abbrev pub all_free : List Mark → Bool
all_free [] = true
all_free (m ∷ marks) = is_free m && all_free marks

pub data InspectType : Type 0 where
  inspect_all inspect_leading inspect_first inspect_trailing : InspectType

abbrev pub is_leading : InspectType → Bool
is_leading InspectType.inspect_leading = true
is_leading _ = false

abbrev pub is_first : InspectType → Bool
is_first InspectType.inspect_first = true
is_first _ = false

-- Whether the pattern stands at `i` and no byte of it is marked.
abbrev pub stands_at : List ℕ → List ℕ → ℕ → Bool
stands_at pattern bytes i = starts_with pattern (drop i bytes)

abbrev pub matches_at : List ℕ → List ℕ → List Mark → ℕ → Bool
matches_at pattern bytes marks i =
    stands_at pattern bytes i && all_free (take (length pattern) (drop i marks))

-- The loop from the left, in front of `limit`; `new` are the marks of one match.
unfoldable pub scan_up :
    InspectType → List ℕ → List Mark → List ℕ → ℕ → ℕ → ℕ → List Mark → ℕ → List Mark × ℕ
unfolding copy_at
scan_up kind pattern new bytes limit zero i marks n = (marks, n)
scan_up kind pattern new bytes limit (suc fuel) i marks n =
    let hit = matches_at pattern bytes marks i in
    let marked = if hit then copy_at marks i new else marks in
    let tally = if hit then suc n else n in
    let rest =
      scan_up kind pattern new bytes limit fuel (if hit then i + length pattern else suc i) marked
        tally in
    if not (ltb i limit)
    then (marks, n)
    else if is_leading kind && not (stands_at pattern bytes i)
    then (marks, n)
    else if is_first kind && hit
    then (marked, tally)
    else rest

-- The loop from the right, at the place in front of `next`.
unfoldable pub scan_down : List ℕ → List Mark → List ℕ → ℕ → ℕ → List Mark → ℕ → List Mark × ℕ
unfolding copy_at
scan_down pattern new bytes zero next marks n = (marks, n)
scan_down pattern new bytes (suc fuel) next marks n =
    let i = next - 1 in
    let hit = matches_at pattern bytes marks i in
    let marked = if hit then copy_at marks i new else marks in
    let tally = if hit then suc n else n in
    let rest =
      scan_down pattern new bytes fuel (if hit then next - length pattern else next - 1) marked
        tally in
    if next == 0 then (marks, n) else if not (stands_at pattern bytes i) then (marks, n) else rest

-- Each turn moves by one byte at least.
unfoldable pub scan : InspectType → List ℕ → List Mark → List ℕ → List Mark → List Mark × ℕ
unfolding scan_up scan_down
scan InspectType.inspect_trailing pattern new bytes marks =
    let limit = length bytes + 1 - length pattern in scan_down pattern new bytes limit limit marks 0
scan kind pattern new bytes marks =
    let limit = length bytes + 1 - length pattern in
    scan_up kind pattern new bytes limit limit 0 marks 0
