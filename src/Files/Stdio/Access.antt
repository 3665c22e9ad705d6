-- ===== src/Files/Stdio/Access.antt =====
-- Reading what was written: bytes of a stream under a write at the same place and elsewhere.
use blitzy_open_cobol.Base.{
  ℕ, zero, suc, ◌+◌, ◌-◌, ◌≤◌, ◌<◌, ◌≡◌, refl, ap, ◌⊎◌, List, [], ◌∷◌, length, get_or, arith,
}
use blitzy_open_cobol.Files.Stdio.{Stream, bytes_at, write_at}

pub length-bytes_at : (byte : ℕ → ℕ) (i n : ℕ) → length (bytes_at byte i n) ≡ n
unfolding bytes_at
length-bytes_at byte i zero = refl
length-bytes_at byte i (suc n) = ap suc (length-bytes_at byte (suc i) n)

-- Two contents that agree on a range have the same bytes there.
pub bytes_at-same :
    (b c : ℕ → ℕ) (i n : ℕ)
    → ((j : ℕ) → i ≤ j → j < i + n → b j ≡ c j)
    → bytes_at b i n ≡ bytes_at c i n
unfolding bytes_at
bytes_at-same b c i zero same = refl
bytes_at-same b c i (suc n) same =
    let here : b i ≡ c i = same i (omega arith) (omega arith) in
    let rest : bytes_at b (suc i) n ≡ bytes_at c (suc i) n =
      bytes_at-same b c (suc i) n (λ j above below. same j (omega arith) (omega arith)) in
    cc

-- A content that holds a list from `i` on reads as that list.
pub bytes_at-list :
    (b : ℕ → ℕ) (i : ℕ) (bytes : List ℕ)
    → ((k : ℕ) → k < length bytes → b (i + k) ≡ get_or bytes k 0)
    → bytes_at b i (length bytes) ≡ bytes
unfolding bytes_at
bytes_at-list b i [] holds = refl
bytes_at-list b i (x ∷ bytes) holds =
    let at : i + 0 ≡ i = omega arith in
    let here : b (i + 0) ≡ x = holds 0 (omega arith) in
    let rest : bytes_at b (suc i) (length bytes) ≡ bytes = bytes_at-list b (suc i) bytes (λ k below.
      let shifted : i + suc k ≡ suc i + k = omega arith in
      rw shifted at (holds (suc k) (omega arith))) in
    let first : b i ≡ x = rw at at here in cc

pub bytes_at-write_at :
    (s : Stream) (i : ℕ) (bytes : List ℕ) → bytes_at (write_at s i bytes) i (length bytes) ≡ bytes
bytes_at-write_at s i bytes = bytes_at-list (write_at s i bytes) i bytes (inside s i bytes)
  where
    inside :
        (s : Stream) (i : ℕ) (bytes : List ℕ) (k : ℕ)
        → k < length bytes
        → write_at s i bytes (i + k) ≡ get_or bytes k 0
    inside s i bytes k below =
        let back : i + k - i ≡ k = omega arith in
        unfold write_at in ground (arith, ap (λ (t : ℕ). get_or bytes t 0) back)

-- Elsewhere in the file the bytes stay.
pub bytes_at-write_elsewhere :
    (s : Stream) (i : ℕ) (bytes : List ℕ) (j n : ℕ)
    → ((j + n ≤ i) ⊎ (i + length bytes ≤ j))
    → j + n ≤ s.size
    → bytes_at (write_at s i bytes) j n ≡ bytes_at s.byte j n
bytes_at-write_elsewhere s i bytes j n apart inside =
    bytes_at-same _ _ j n (λ k above below. outside k above below)
  where
    outside : (k : ℕ) → j ≤ k → k < j + n → write_at s i bytes k ≡ s.byte k
    outside k above below = unfold write_at in ground arith
