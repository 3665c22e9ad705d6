-- ===== src/Base/Buffers.antt =====
-- Copies into a buffer and searches in it, as `memcpy` and a loop of `memcmp` do them.
use Prim.Native.Nat.{ℕ, zero, suc, ◌+◌, ◌≤◌, ◌<◌}
use native.Mathlib.Nat.{zero-add, suc-add}
use mathlib.Core.Path.{◌≡◌, refl, ap, ◌∙◌, sym}
use mathlib.Core.List.{List, [], ◌∷◌, ◌++◌}
use mathlib.Core.Logic.{◌⊎◌, inl, inr}
use mathlib.Core.Bool.{false≢true, Bool, true, false, ◌&&◌}
use mathlib.Core.Option.{Option, none, some}
use native.Mathlib.Decide.{dec_le}
use native.Mathlib.Omega.{arith}
use blitzy_open_cobol.Base.Tests.{◌==◌, if◌then◌else◌, Bool-cases}
use blitzy_open_cobol.Base.Lists.{length, drop, starts_with, length-append, length-drop}

-- `memcpy (buf + i, bytes, size of bytes)`
unfoldable pub copy_at {ℓ} : {A : Type ℓ} → List A → ℕ → List A → List A
copy_at buf zero bytes = bytes ++ drop (length bytes) buf
copy_at [] (suc i) bytes = []
copy_at (x ∷ buf) (suc i) bytes = x ∷ copy_at buf i bytes

-- `for (i = 0; i < count; i++) if (memcmp (buf + i, pattern, size of pattern) == 0)`: the first
-- such `i`.
unfoldable pub find_first : List ℕ → ℕ → List ℕ → Option ℕ
find_first pattern zero buf = none
find_first pattern (suc count) buf =
    let later = find_first pattern count (drop 1 buf) in
    if starts_with pattern buf then some 0 else elim later [ none ↦ none | some i ↦ some (suc i) ]

pub drop-nothing {ℓ} : {A : Type ℓ} (n : ℕ) → drop {A = A} n [] ≡ []
drop-nothing zero = refl
drop-nothing (suc n) = refl

pub drop-drop {ℓ} : {A : Type ℓ} (a b : ℕ) (xs : List A) → drop a (drop b xs) ≡ drop (b + a) xs
drop-drop a zero xs = ap (λ (n : ℕ). drop n xs) (sym (zero-add a))
drop-drop a (suc b) [] = drop-nothing a ∙ sym (drop-nothing (suc b + a))
drop-drop a (suc b) (x ∷ xs) =
    drop-drop a b xs ∙ ap (λ (n : ℕ). drop n (x ∷ xs)) (sym (suc-add b a))

pub append_nil {ℓ} : {A : Type ℓ} (xs : List A) → xs ++ [] ≡ xs
append_nil [] = refl
append_nil (x ∷ xs) = ap (◌∷◌ x) (append_nil xs)

pub append_assoc {ℓ} : {A : Type ℓ} (xs ys zs : List A) → (xs ++ ys) ++ zs ≡ xs ++ (ys ++ zs)
append_assoc [] ys zs = refl
append_assoc (x ∷ xs) ys zs = ap (◌∷◌ x) (append_assoc xs ys zs)

copy_behind {ℓ} :
    {A : Type ℓ} (xs buf bytes : List A)
    → copy_at (xs ++ buf) (length xs) bytes ≡ xs ++ (bytes ++ drop (length bytes) buf)
unfolding copy_at
copy_behind [] buf bytes = refl
copy_behind (x ∷ xs) buf bytes = ap (◌∷◌ x) (copy_behind xs buf bytes)

-- Two copies, one behind the other, are the copy of both.
pub copy_at-append {ℓ} :
    {A : Type ℓ} (buf : List A) (i : ℕ) (a b : List A)
    → copy_at (copy_at buf i a) (i + length a) b ≡ copy_at buf i (a ++ b)
unfolding copy_at
copy_at-append buf zero a b =
    rw (zero-add (length a), length-append a b)
      (copy_behind a (drop (length a) buf) b
        ∙ ap (λ t. a ++ (b ++ t)) (drop-drop (length b) (length a) buf)
        ∙ sym (append_assoc a b (drop (length a + length b) buf)))
copy_at-append [] (suc i) a b = rw (suc-add i (length a)) refl
copy_at-append (x ∷ buf) (suc i) a b =
    rw (suc-add i (length a)) (ap (◌∷◌ x) (copy_at-append buf i a b))

pub copy_at-nothing {ℓ} : {A : Type ℓ} (buf : List A) (i : ℕ) → copy_at buf i [] ≡ buf
unfolding copy_at
copy_at-nothing buf zero = refl
copy_at-nothing [] (suc i) = refl
copy_at-nothing (x ∷ buf) (suc i) = ap (◌∷◌ x) (copy_at-nothing buf i)

pub length-copy_at {ℓ} :
    {A : Type ℓ} (buf : List A) (i : ℕ) (bytes : List A)
    → i + length bytes ≤ length buf
    → length (copy_at buf i bytes) ≡ length buf
unfolding copy_at
length-copy_at buf zero bytes h =
    omega (arith, length-append bytes (drop (length bytes) buf), length-drop (length bytes) buf)
length-copy_at [] (suc i) bytes h = refl
length-copy_at (x ∷ buf) (suc i) bytes h = ap suc (length-copy_at buf i bytes (omega arith))

drop-suc : (i : ℕ) (xs : List ℕ) → drop i (drop 1 xs) ≡ drop (suc i) xs
drop-suc i [] = drop-nothing i
drop-suc i (x ∷ xs) = refl

-- `i` is the first place in front of `count` at which the pattern stands, and that there is none.
pub record IsFirstPlace (pattern : List ℕ) (count : ℕ) (buf : List ℕ) (i : ℕ) : Type 0 where
  pub found : find_first pattern count buf ≡ some i
  pub before : i < count
  pub here : starts_with pattern (drop i buf) ≡ true
  pub not_earlier : (j : ℕ) → j < i → starts_with pattern (drop j buf) ≡ false

pub record IsNowhere (pattern : List ℕ) (count : ℕ) (buf : List ℕ) : Type 0 where
  pub not_found : find_first pattern count buf ≡ none
  pub nowhere : (j : ℕ) → j < count → starts_with pattern (drop j buf) ≡ false

pub find_first-cases :
    (pattern : List ℕ) (count : ℕ) (buf : List ℕ)
    → ((i : ℕ) × IsFirstPlace pattern count buf i) ⊎ IsNowhere pattern count buf
unfolding find_first
find_first-cases pattern zero buf =
    inr (record { not_found = refl; nowhere = λ j h. absurd (omega arith) })
find_first-cases pattern (suc count) buf = elim (Bool-cases (starts_with pattern buf)) [
  | inl yes_here ↦ inl (
    0,
    record {
      found = rw yes_here refl;
      before = omega arith;
      here = yes_here;
      not_earlier = λ j h. absurd (omega arith);
    },
  )
  | inr not_here ↦ elim (find_first-cases pattern count (drop 1 buf)) [
    | inl (i, h) ↦ inl (
      suc i,
      record {
        found = rw (not_here, h.found) refl;
        before = omega (arith, h.before);
        here = rw (drop-suc i buf) at h.here;
        not_earlier = λ j below. later_too not_here j (λ k e. h.not_earlier k (omega arith));
      },
    )
    | inr h ↦ inr (record {
      not_found = rw (not_here, h.not_found) refl;
      nowhere = λ j below. later_too not_here j (λ k e. h.nowhere k (omega arith));
    })
  ]
]
  where
    later_too :
        starts_with pattern buf ≡ false
        → (j : ℕ) → ((k : ℕ) → j ≡ suc k → starts_with pattern (drop k (drop 1 buf)) ≡ false)
        → starts_with pattern (drop j buf) ≡ false
    later_too not_here zero h = not_here
    later_too not_here (suc k) h = rw (drop-suc k buf) at (h k refl)

-- A pattern is no longer than what it stands at the start of.
pub starts_with-length :
    (pattern buf : List ℕ) → length buf < length pattern → starts_with pattern buf ≡ false
starts_with-length [] buf h = absurd (omega arith)
starts_with-length (x ∷ pattern) [] h = refl
starts_with-length (x ∷ pattern) (y ∷ buf) h =
    rw (starts_with-length pattern buf (omega arith)) (and-false (x == y))
  where
    and-false : (b : Bool) → (b && false) ≡ false
    and-false true = refl
    and-false false = refl

pub starts_with-le :
    (pattern buf : List ℕ) → starts_with pattern buf ≡ true → length pattern ≤ length buf
starts_with-le pattern buf h = elim (dec_le (length pattern) (length buf)) [
  | yes fits ↦ fits
  | no long ↦ absurd (false≢true (sym (starts_with-length pattern buf (omega arith)) ∙ h))
]
