-- ===== src/Inspect/Downward.antt =====
-- The loop of `inspect_common` from the right counts what TRAILING means.
use Prim.Native.Nat.{ℕ}
use native.Mathlib.Nat.{zero-add, suc-add}
use mathlib.Core.Bool.{false≢true}
use blitzy_open_cobol.Base.{
  zero, suc, ◌+◌, ◌-◌, ◌==◌, ◌≤◌, ◌<◌, ◌≡◌, refl, sym, ap, ◌∙◌, arith, true, false, none, some,
  List, [], ◌∷◌, ◌++◌, length, take, drop, Bool-cases, inl, inr, length-take, length-append,
  take-append-drop, starts_with, both_true,
}
use blitzy_open_cobol.Base.Buffers.{copy_at, length-copy_at}
use blitzy_open_cobol.Inspect.Scan.{Mark, InspectType, all_free, stands_at, scan_down}
use blitzy_open_cobol.Inspect.Count.{IsSuffix, too_short, trailing_match, trailing_stop, Adds}
use blitzy_open_cobol.Inspect.Upward.{starts_with-append}

-- A pattern that stands at `i` ends what is in front of its end.
prefix-take : (p xs : List ℕ) → starts_with p xs ≡ true → take (length p) xs ≡ p
prefix-take [] xs h = refl
prefix-take (x ∷ p) [] h = absurd (false≢true h)
prefix-take (x ∷ p) (y ∷ xs) h =
    let (same, later) = both_true (x == y) (starts_with p xs) h in
    let xy : y ≡ x = ground (arith, same) in rw xy (ap (◌∷◌ x) (prefix-take p xs later))

take-stands :
    (p : List ℕ) (i : ℕ) (xs : List ℕ)
    → starts_with p (drop i xs) ≡ true
    → take (i + length p) xs ≡ take i xs ++ p
take-stands p zero xs h = rw (zero-add (length p)) (prefix-take p xs h)
take-stands [] (suc i) [] h = rw (suc-add i 0) refl
take-stands (x ∷ p) (suc i) [] h = absurd (false≢true h)
take-stands p (suc i) (x ∷ xs) h = rw (suc-add i (length p)) (ap (◌∷◌ x) (take-stands p i xs h))

drop-front : (a b : List ℕ) → drop (length a) (a ++ b) ≡ b
drop-front [] b = refl
drop-front (x ∷ a) b = drop-front a b

append_three : (a b c : List ℕ) → (a ++ b) ++ c ≡ a ++ (b ++ c)
append_three [] b c = refl
append_three (x ∷ a) b c = ap (◌∷◌ x) (append_three a b c)

-- And the other way round.
not_suffix :
    (p : List ℕ) (i : ℕ) (xs : List ℕ)
    → i + length p ≤ length xs
    → starts_with p (drop i xs) ≡ false
    → ¬ IsSuffix p (take (i + length p) xs)
not_suffix p i xs inside absent (rest, same) =
    let behind = drop (i + length p) xs in
    let whole : xs ≡ rest ++ (p ++ behind) =
      sym (take-append-drop (i + length p) xs)
      ∙ ap (λ (t : List ℕ). t ++ behind) same
      ∙ append_three rest p behind in
    let size : length rest ≡ i = omega (
      arith,
      ap (λ (t : List ℕ). length t) same,
      length-append rest p,
      length-take (i + length p) xs,
    ) in
    let here : drop i xs ≡ p ++ behind =
      rw size at
        (ap (λ (t : List ℕ). drop (length rest) t) whole ∙ drop-front rest (p ++ behind)) in
    false≢true (sym absent ∙ ap (starts_with p) here ∙ starts_with-append p behind)

all_free-front :
    (i k : ℕ) (marks : List Mark)
    → all_free (take (i + k) marks) ≡ true
    → all_free (take i marks) ≡ true
all_free-front zero k marks h = refl
all_free-front (suc i) k [] h = refl
all_free-front (suc i) k (none ∷ marks) h = all_free-front i k marks (rw (suc-add i k) at h)
all_free-front (suc i) k (some v ∷ marks) h = absurd (false≢true (rw (suc-add i k) at h))

all_free-back :
    (i k : ℕ) (marks : List Mark)
    → all_free (take (i + k) marks) ≡ true
    → all_free (take k (drop i marks)) ≡ true
all_free-back zero k marks h = rw (zero-add k) at h
all_free-back (suc i) zero [] h = refl
all_free-back (suc i) (suc k) [] h = refl
all_free-back (suc i) k (none ∷ marks) h = all_free-back i k marks (rw (suc-add i k) at h)
all_free-back (suc i) k (some v ∷ marks) h = absurd (false≢true (rw (suc-add i k) at h))

-- In front of what was written.
take-copy_at :
    (marks : List Mark) (i : ℕ) (new : List Mark) → take i (copy_at marks i new) ≡ take i marks
unfolding copy_at
take-copy_at marks zero new = refl
take-copy_at [] (suc i) new = refl
take-copy_at (m ∷ marks) (suc i) new = ap (◌∷◌ m) (take-copy_at marks i new)

module _ (pattern : List ℕ) (new : List Mark) (bytes : List ℕ) (nonempty : 0 < length pattern)
    (fits : length new ≡ length pattern) where
  -- `v` is where what is not seen yet ends.
  pub scan_down-IsCount :
      (fuel next v : ℕ) (marks : List Mark) (n : ℕ)
      → next ≡ v + 1 - length pattern
      → v ≤ length bytes
      → next ≤ fuel
      → length marks ≡ length bytes
      → all_free (take v marks) ≡ true
      → Adds pattern InspectType.inspect_trailing
          (take v bytes)
          n
          (scan_down pattern new bytes fuel next marks n)
  unfolding scan_down
  scan_down-IsCount zero next v marks n at inside enough same free =
      (0, omega arith, too_short (omega (arith, length-take v bytes)))
  scan_down-IsCount (suc fuel) next v marks n at inside enough same free =
      elim (Bool-cases (next == 0)) [
        | inl stop ↦
            let no_more : next ≡ 0 = ground (arith, stop) in
            rw stop (0, omega arith, too_short (omega (arith, length-take v bytes)))
        | inr go ↦
            let more : 0 < next = ground (arith, go) in
            let ending : next - 1 + length pattern ≡ v = omega arith in
            let free_here : all_free (take (next - 1 + length pattern) marks) ≡ true =
              rw ending free in
            elim (Bool-cases (stands_at pattern bytes (next - 1))) [
              | inl stands ↦
                  let all_new = all_free-back (next - 1) (length pattern) marks free_here in
                  let here : take v bytes ≡ take (next - 1) bytes ++ pattern =
                    rw ending at (take-stands pattern (next - 1) bytes stands) in
                  let (k, total, count) =
                    scan_down-IsCount fuel (next - length pattern) (next - 1)
                      (copy_at marks (next - 1) new) (suc n) (omega arith) (omega arith)
                      (omega arith) (length-copy_at marks (next - 1) new (omega arith) ∙ same)
                      (rw (take-copy_at marks (next - 1) new)
                        (all_free-front (next - 1) (length pattern) marks free_here)) in
                  rw (go, stands, all_new)
                    (suc k, omega (arith, total), trailing_match (take (next - 1) bytes) here count)
              | inr absent ↦
                  let other : ¬ IsSuffix pattern (take v bytes) =
                    rw ending at (not_suffix pattern (next - 1) bytes (omega arith) absent) in
                  rw (go, absent) (0, omega arith, trailing_stop other)
            ]
      ]
