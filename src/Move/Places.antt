-- ===== src/Move/Places.antt =====
-- Reading one byte of a list that is copied, cut or joined.
use Prim.Native.Nat.{ℕ}
use native.Mathlib.Nat.{suc-add, zero-add}
use blitzy_open_cobol.Base.{
  zero, suc, ◌+◌, ◌≤◌, ◌<◌, ◌≡◌, refl, sym, ap, ◌∙◌, arith, List, [], ◌∷◌, ◌++◌, map, length, take,
  drop, replicate, get_or,
}
use blitzy_open_cobol.Base.Buffers.{copy_at}

pub get_or-front :
    (xs ys : List ℕ) (i d : ℕ) → i < length xs → get_or (xs ++ ys) i d ≡ get_or xs i d
get_or-front [] ys i d h = absurd (omega arith)
get_or-front (x ∷ xs) ys zero d h = refl
get_or-front (x ∷ xs) ys (suc i) d h = get_or-front xs ys i d (omega arith)

pub get_or-back : (xs ys : List ℕ) (i d : ℕ) → get_or (xs ++ ys) (length xs + i) d ≡ get_or ys i d
get_or-back [] ys i d = ap (λ (k : ℕ). get_or ys k d) (omega arith)
get_or-back (x ∷ xs) ys i d = rw (suc-add (length xs) i) (get_or-back xs ys i d)

pub get_or-drop : (n : ℕ) (xs : List ℕ) (i d : ℕ) → get_or (drop n xs) i d ≡ get_or xs (n + i) d
get_or-drop zero xs i d = ap (λ (k : ℕ). get_or xs k d) (sym (zero-add i))
get_or-drop (suc n) [] i d = refl
get_or-drop (suc n) (x ∷ xs) i d = rw (suc-add n i) (get_or-drop n xs i d)

pub get_or-take : (n : ℕ) (xs : List ℕ) (i d : ℕ) → i < n → get_or (take n xs) i d ≡ get_or xs i d
get_or-take zero xs i d h = absurd (omega arith)
get_or-take (suc n) [] i d h = refl
get_or-take (suc n) (x ∷ xs) zero d h = refl
get_or-take (suc n) (x ∷ xs) (suc i) d h = get_or-take n xs i d (omega arith)

pub get_or-map :
    (f : ℕ → ℕ) (xs : List ℕ) (i d : ℕ) → i < length xs → get_or (map f xs) i d ≡ f (get_or xs i d)
get_or-map f [] i d h = absurd (omega arith)
get_or-map f (x ∷ xs) zero d h = refl
get_or-map f (x ∷ xs) (suc i) d h = get_or-map f xs i d (omega arith)

pub get_or-replicate : (n i d : ℕ) → get_or (replicate n d) i d ≡ d
get_or-replicate zero i d = refl
get_or-replicate (suc n) zero d = refl
get_or-replicate (suc n) (suc i) d = get_or-replicate n i d

pub get_or-behind : (xs : List ℕ) (i d : ℕ) → length xs ≤ i → get_or xs i d ≡ d
get_or-behind [] i d h = refl
get_or-behind (x ∷ xs) zero d h = absurd (omega arith)
get_or-behind (x ∷ xs) (suc i) d h = get_or-behind xs i d (omega arith)

-- A byte of a buffer before, in and behind a copy into it.
pub copy-before :
    (buf : List ℕ) (k : ℕ) (bytes : List ℕ) (i d : ℕ)
    → i < k
    → get_or (copy_at buf k bytes) i d ≡ get_or buf i d
unfolding copy_at
copy-before buf zero bytes i d h = absurd (omega arith)
copy-before [] (suc k) bytes i d h = refl
copy-before (x ∷ buf) (suc k) bytes zero d h = refl
copy-before (x ∷ buf) (suc k) bytes (suc i) d h = copy-before buf k bytes i d (omega arith)

pub copy-inside :
    (buf : List ℕ) (k : ℕ) (bytes : List ℕ) (i d : ℕ)
    → i < length bytes
    → k ≤ length buf
    → get_or (copy_at buf k bytes) (k + i) d ≡ get_or bytes i d
unfolding copy_at
copy-inside buf zero bytes i d h room =
    rw (zero-add i) (get_or-front bytes (drop (length bytes) buf) i d h)
copy-inside [] (suc k) bytes i d h room = absurd (omega arith)
copy-inside (x ∷ buf) (suc k) bytes i d h room =
    rw (suc-add k i) (copy-inside buf k bytes i d h (omega arith))

pub copy-behind :
    (buf : List ℕ) (k : ℕ) (bytes : List ℕ) (i d : ℕ)
    → get_or (copy_at buf k bytes) (k + (length bytes + i)) d
      ≡ get_or buf (k + (length bytes + i)) d
unfolding copy_at
copy-behind buf zero bytes i d =
    rw (zero-add (length bytes + i))
      (get_or-back bytes (drop (length bytes) buf) i d ∙ get_or-drop (length bytes) buf i d)
copy-behind [] (suc k) bytes i d = refl
copy-behind (x ∷ buf) (suc k) bytes i d =
    rw (suc-add k (length bytes + i)) (copy-behind buf k bytes i d)
