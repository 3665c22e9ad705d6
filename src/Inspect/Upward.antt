-- ===== src/Inspect/Upward.antt =====
-- The loop of `inspect_common` from the left counts what ALL, LEADING and FIRST mean.
use Prim.Native.Nat.{ℕ}
use native.Mathlib.Nat.{zero-add, suc-add}
use mathlib.Core.Bool.{false≢true}
use blitzy_open_cobol.Base.{
  zero, suc, ◌+◌, ◌-◌, ◌==◌, ◌≤◌, ◌<◌, ◌≡◌, refl, sym, ap, ◌∙◌, arith, Bool, true, false, ◌&&◌,
  none, some, List, [], ◌∷◌, ◌++◌, length, take, drop, ltb, Bool-cases, inl, inr, starts_with,
  both_true, length-drop,
}
use blitzy_open_cobol.Base.Buffers.{copy_at, drop-drop, length-copy_at, starts_with-le}
use blitzy_open_cobol.Inspect.Scan.{
  Mark, InspectType, all_free, is_leading, is_first, stands_at, scan_up,
}
use blitzy_open_cobol.Inspect.Count.{
  is_trailing, IsPrefix, too_short, IsCount-match, IsCount-last, IsCount-skip, IsCount-stop, Adds,
}

==_refl : (n : ℕ) → (n == n) ≡ true
==_refl n = ground arith

pub starts_with-append : (p rest : List ℕ) → starts_with p (p ++ rest) ≡ true
starts_with-append [] rest = refl
starts_with-append (x ∷ p) rest = rw (==_refl x) (starts_with-append p rest)

-- What stands in front of the rest.
pub prefix-drop :
    (p bytes : List ℕ) → starts_with p bytes ≡ true → bytes ≡ p ++ drop (length p) bytes
prefix-drop [] bytes h = refl
prefix-drop (x ∷ p) [] h = absurd (false≢true h)
prefix-drop (x ∷ p) (y ∷ bytes) h =
    let (same, later) = both_true (x == y) (starts_with p bytes) h in
    let xy : y ≡ x = ground (arith, same) in rw xy (ap (◌∷◌ x) (prefix-drop p bytes later))

not_prefix : (p bytes : List ℕ) → starts_with p bytes ≡ false → ¬ IsPrefix p bytes
not_prefix p bytes h (rest, same) =
    false≢true (sym h ∙ ap (starts_with p) same ∙ starts_with-append p rest)

drop-next :
    {A : Type 0} (i : ℕ) (xs : List A) → i < length xs → (x : A) × (drop i xs ≡ x ∷ drop (suc i) xs)
drop-next i [] below = absurd (omega arith)
drop-next zero (x ∷ xs) below = (x, refl)
drop-next (suc i) (x ∷ xs) below = drop-next i xs (omega arith)

pub all_free-take :
    (k : ℕ) (marks : List Mark) → all_free marks ≡ true → all_free (take k marks) ≡ true
all_free-take zero marks h = refl
all_free-take (suc k) [] h = refl
all_free-take (suc k) (none ∷ marks) h = all_free-take k marks h
all_free-take (suc k) (some v ∷ marks) h = absurd (false≢true h)

all_free-drop : (k : ℕ) (marks : List Mark) → all_free marks ≡ true → all_free (drop k marks) ≡ true
all_free-drop zero marks h = h
all_free-drop (suc k) [] h = refl
all_free-drop (suc k) (none ∷ marks) h = all_free-drop k marks h
all_free-drop (suc k) (some v ∷ marks) h = absurd (false≢true h)

-- Behind what was written.
drop-copy_at :
    (marks : List Mark) (i : ℕ) (new : List Mark)
    → i + length new ≤ length marks
    → drop (i + length new) (copy_at marks i new) ≡ drop (i + length new) marks
unfolding copy_at
drop-copy_at marks zero new h =
    rw (zero-add (length new)) (drop-front new (drop (length new) marks))
  where
    drop-front : (new rest : List Mark) → drop (length new) (new ++ rest) ≡ rest
    drop-front [] rest = refl
    drop-front (m ∷ new) rest = drop-front new rest
drop-copy_at [] (suc i) new h = absurd (omega arith)
drop-copy_at (m ∷ marks) (suc i) new h =
    rw (suc-add i (length new)) (drop-copy_at marks i new (omega arith))

and_false : (b : Bool) → (b && false) ≡ false
and_false true = refl
and_false false = refl

module _ (pattern : List ℕ) (new : List Mark) (bytes : List ℕ) (nonempty : 0 < length pattern)
    (fits : length new ≡ length pattern) (kind : InspectType) (up : is_trailing kind ≡ false)
    (limit : ℕ) (last : limit ≡ length bytes + 1 - length pattern) where
  one_on : (i : ℕ) → i + 1 ≡ suc i
  one_on i = omega arith

  ends :
      (i : ℕ)
      → limit ≤ i
      → (marks : List Mark) (n : ℕ) → Adds pattern kind (drop i bytes) n (marks, n)
  ends i over marks n = (0, omega arith, too_short (omega (arith, length-drop i bytes)))

  pub scan_up-IsCount :
      (fuel i : ℕ) (marks : List Mark) (n : ℕ)
      → limit ≤ fuel + i
      → length marks ≡ length bytes
      → all_free (drop i marks) ≡ true
      → Adds pattern kind (drop i bytes) n (scan_up kind pattern new bytes limit fuel i marks n)
  unfolding scan_up
  scan_up-IsCount zero i marks n enough same free = ends i (omega arith) marks n
  scan_up-IsCount (suc fuel) i marks n enough same free = elim (Bool-cases (ltb i limit)) [
    | inr stop ↦ rw stop (ends i (ground (arith, stop)) marks n)
    | inl go ↦
        let below : i < limit = ground (arith, go) in
        elim (Bool-cases (stands_at pattern bytes i)) [
          | inl stands ↦
              let all_new = all_free-take (length pattern) (drop i marks) free in
              let inside : i + length new ≤ length marks =
                omega (arith, starts_with-le pattern (drop i bytes) stands, length-drop i bytes) in
              let here : drop i bytes ≡ pattern ++ drop (i + length pattern) bytes =
                prefix-drop pattern (drop i bytes) stands
                ∙ ap (λ (t : List ℕ). pattern ++ t) (drop-drop (length pattern) i bytes) in
              elim (Bool-cases (is_first kind)) [
                | inl only ↦
                    rw (go, stands, all_new, only, and_false (is_leading kind))
                      (
                        1,
                        omega arith,
                        IsCount-last kind (drop (i + length pattern) bytes) only here,
                      )
                | inr more ↦
                    let later_free : all_free (drop (i + length pattern) (copy_at marks i new))
                        ≡ true =
                      rw (← fits) (
                        rw (drop-copy_at marks i new inside) (
                          rw (drop-drop (length new) i marks) at
                            (all_free-drop (length new) (drop i marks) free))) in
                    let (k, total, count) =
                      scan_up-IsCount fuel (i + length pattern) (copy_at marks i new) (suc n)
                        (omega arith) (length-copy_at marks i new inside ∙ same) later_free in
                    rw (go, stands, all_new, more, and_false (is_leading kind))
                      (suc k, omega (arith, total), IsCount-match kind _ up more here count)
              ]
          | inr absent ↦
              let other = not_prefix pattern (drop i bytes) absent in
              elim (Bool-cases (is_leading kind)) [
                | inl stop ↦ rw (go, absent, stop) (0, omega arith, IsCount-stop kind stop other)
                | inr on ↦
                    let inside : i < length bytes = omega arith in
                    let (b, here) = drop-next i bytes inside in
                    let later_free : all_free (drop (suc i) marks) ≡ true =
                      rw (one_on i) at
                        (rw (drop-drop 1 i marks) at (all_free-drop 1 (drop i marks) free)) in
                    let (k, total, count) =
                      scan_up-IsCount fuel (suc i) marks n (omega arith) same later_free in
                    rw (go, absent, on, and_false (is_first kind))
                      (k, total, IsCount-skip kind b (drop (suc i) bytes) up on here other count)
              ]
        ]
  ]
