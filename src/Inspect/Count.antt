-- ===== src/Inspect/Count.antt =====
-- What a phrase of INSPECT TALLYING counts, by its bytes alone.
use Prim.Native.Nat.{ℕ}
use mathlib.Core.Bool.{false≢true}
use blitzy_open_cobol.Base.{suc, ◌+◌, ◌<◌, ◌≡◌, sym, Bool, true, false, List, ◌∷◌, ◌++◌, length}
use blitzy_open_cobol.Inspect.Scan.{Mark, InspectType, is_leading, is_first}

abbrev pub is_trailing : InspectType → Bool
is_trailing InspectType.inspect_trailing = true
is_trailing _ = false

abbrev pub IsPrefix : List ℕ → List ℕ → Type 0
IsPrefix pattern bytes = (rest : List ℕ) × (bytes ≡ pattern ++ rest)

abbrev pub IsSuffix : List ℕ → List ℕ → Type 0
IsSuffix pattern bytes = (rest : List ℕ) × (bytes ≡ rest ++ pattern)

-- ALL counts the matches from the left that do not overlap, LEADING those at the beginning that
-- follow one another, TRAILING those at the end, FIRST the first one.
pub data IsCount (pattern : List ℕ) : InspectType → List ℕ → ℕ → Type 0 where
  too_short :
      {kind : InspectType} {bytes : List ℕ}
      → length bytes < length pattern
      → IsCount pattern kind bytes 0
  all_match :
      {bytes : List ℕ} {n : ℕ} (rest : List ℕ)
      → bytes ≡ pattern ++ rest
      → IsCount pattern InspectType.inspect_all rest n
      → IsCount pattern InspectType.inspect_all bytes (suc n)
  all_skip :
      {bytes : List ℕ} {n : ℕ} (b : ℕ) (rest : List ℕ)
      → bytes ≡ b ∷ rest
      → ¬ IsPrefix pattern bytes
      → IsCount pattern InspectType.inspect_all rest n
      → IsCount pattern InspectType.inspect_all bytes n
  leading_match :
      {bytes : List ℕ} {n : ℕ} (rest : List ℕ)
      → bytes ≡ pattern ++ rest
      → IsCount pattern InspectType.inspect_leading rest n
      → IsCount pattern InspectType.inspect_leading bytes (suc n)
  leading_stop :
      {bytes : List ℕ}
      → ¬ IsPrefix pattern bytes
      → IsCount pattern InspectType.inspect_leading bytes 0
  trailing_match :
      {bytes : List ℕ} {n : ℕ} (rest : List ℕ)
      → bytes ≡ rest ++ pattern
      → IsCount pattern InspectType.inspect_trailing rest n
      → IsCount pattern InspectType.inspect_trailing bytes (suc n)
  trailing_stop :
      {bytes : List ℕ}
      → ¬ IsSuffix pattern bytes
      → IsCount pattern InspectType.inspect_trailing bytes 0
  first_match :
      {bytes : List ℕ} (rest : List ℕ)
      → bytes ≡ pattern ++ rest
      → IsCount pattern InspectType.inspect_first bytes 1
  first_skip :
      {bytes : List ℕ} {n : ℕ} (b : ℕ) (rest : List ℕ)
      → bytes ≡ b ∷ rest
      → ¬ IsPrefix pattern bytes
      → IsCount pattern InspectType.inspect_first rest n
      → IsCount pattern InspectType.inspect_first bytes n

-- A match, and a byte at which no match begins, in front of what is counted.
pub IsCount-match :
    {p seen : List ℕ} {k : ℕ} (kind : InspectType) (rest : List ℕ)
    → is_trailing kind ≡ false
    → is_first kind ≡ false
    → seen ≡ p ++ rest
    → IsCount p kind rest k
    → IsCount p kind seen (suc k)
IsCount-match InspectType.inspect_all rest up more here count = all_match rest here count
IsCount-match InspectType.inspect_leading rest up more here count = leading_match rest here count
IsCount-match InspectType.inspect_first rest up more here count = absurd (false≢true (sym more))
IsCount-match InspectType.inspect_trailing rest up more here count = absurd (false≢true (sym up))

pub IsCount-last :
    {p seen : List ℕ} (kind : InspectType) (rest : List ℕ)
    → is_first kind ≡ true
    → seen ≡ p ++ rest
    → IsCount p kind seen 1
IsCount-last InspectType.inspect_first rest last here = first_match rest here
IsCount-last InspectType.inspect_all rest last here = absurd (false≢true last)
IsCount-last InspectType.inspect_leading rest last here = absurd (false≢true last)
IsCount-last InspectType.inspect_trailing rest last here = absurd (false≢true last)

pub IsCount-skip :
    {p seen : List ℕ} {k : ℕ} (kind : InspectType) (b : ℕ) (rest : List ℕ)
    → is_trailing kind ≡ false
    → is_leading kind ≡ false
    → seen ≡ b ∷ rest
    → ¬ IsPrefix p seen
    → IsCount p kind rest k
    → IsCount p kind seen k
IsCount-skip InspectType.inspect_all b rest up on here other count =
    all_skip b rest here other count
IsCount-skip InspectType.inspect_first b rest up on here other count =
    first_skip b rest here other count
IsCount-skip InspectType.inspect_leading b rest up on here other count =
    absurd (false≢true (sym on))
IsCount-skip InspectType.inspect_trailing b rest up on here other count =
    absurd (false≢true (sym up))

pub IsCount-stop :
    {p seen : List ℕ} (kind : InspectType)
    → is_leading kind ≡ true
    → ¬ IsPrefix p seen
    → IsCount p kind seen 0
IsCount-stop InspectType.inspect_leading stop other = leading_stop other
IsCount-stop InspectType.inspect_all stop other = absurd (false≢true stop)
IsCount-stop InspectType.inspect_first stop other = absurd (false≢true stop)
IsCount-stop InspectType.inspect_trailing stop other = absurd (false≢true stop)

-- A loop adds to `n` the count of what it has not seen yet.
abbrev pub Adds : List ℕ → InspectType → List ℕ → ℕ → List Mark × ℕ → Type 0
Adds pattern kind seen n result = (k : ℕ) × (result.1 ≡ n + k) × IsCount pattern kind seen k
