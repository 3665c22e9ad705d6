-- ===== src/Inspect/Convert.antt =====
-- INSPECT CONVERTING: the two loops with their marks replace each byte once, by the first place at
-- which it stands in the list of bytes to convert.
use Prim.Native.Nat.{ℕ}
use blitzy_open_cobol.Base.{
  zero, suc, ◌==◌, ◌-◌, ◌≤◌, ◌<◌, leb, true, false, ◌≡◌, refl, sym, ap, ◌∙◌, arith, none, some,
  List, [], ◌∷◌, map, length, take, drop, replicate, if◌then◌else◌, Bool-cases, inl, inr,
  length-take,
}
use blitzy_open_cobol.Base.Buffers.{copy_at}
use blitzy_open_cobol.Inspect.{
  InspectState, region, region_size, convert_pass, convert_loop, inspect_converting, replacement,
}
use blitzy_open_cobol.Inspect.Scan.{Mark}

-- The byte at a place of a list, or its last byte behind the end.
abbrev pub nth_or_last : List ℕ → ℕ → ℕ
nth_or_last [] j = 0
nth_or_last (x ∷ []) j = x
nth_or_last (x ∷ (y ∷ rest)) zero = x
nth_or_last (x ∷ (y ∷ rest)) (suc j) = nth_or_last (y ∷ rest) j

replacement-last : (f2 : List ℕ) (j : ℕ) → replacement f2 j ≡ nth_or_last f2 j
replacement-last [] j = ground arith
replacement-last (x ∷ []) j = ground arith
replacement-last (x ∷ (y ∷ rest)) zero = ground arith
replacement-last (x ∷ (y ∷ rest)) (suc j) =
    shift (y ∷ rest) j (omega arith) ∙ replacement-last (y ∷ rest) j
  where
    shift : (f2 : List ℕ) (j : ℕ) → 0 < length f2 → replacement (x ∷ f2) (suc j) ≡ replacement f2 j
    shift f2 j nonempty = elim (Bool-cases (leb (length f2) j)) [
      | inl behind ↦
          let over : leb (suc (length f2)) (suc j) ≡ true = ground arith in
          let last : suc (length f2) - 1 ≡ suc (length f2 - 1) = omega arith in
          rw (behind, over, last) refl
      | inr inside ↦
          let under : leb (suc (length f2)) (suc j) ≡ false = ground arith in
          rw (inside, under) refl
    ]

-- What the byte `b` is converted to, where the bytes of `f1` stand for those of `f2` from `j` on.
unfoldable pub translate : List ℕ → List ℕ → ℕ → ℕ → ℕ
translate [] f2 j b = b
translate (c ∷ f1) f2 j b = if b == c then nth_or_last f2 j else translate f1 f2 (suc j) b

-- Marked bytes are left alone.
converted : List ℕ → List ℕ → ℕ → List ℕ → List Mark → List ℕ
converted f1 f2 j [] marks = []
converted f1 f2 j (b ∷ bytes) [] = b ∷ bytes
converted f1 f2 j (b ∷ bytes) (none ∷ marks) = translate f1 f2 j b ∷ converted f1 f2 j bytes marks
converted f1 f2 j (b ∷ bytes) (some v ∷ marks) = b ∷ converted f1 f2 j bytes marks

converted-none :
    (f2 : List ℕ) (j : ℕ) (bytes : List ℕ) (marks : List Mark)
    → converted [] f2 j bytes marks ≡ bytes
unfolding converted translate
converted-none f2 j [] marks = refl
converted-none f2 j (b ∷ bytes) [] = refl
converted-none f2 j (b ∷ bytes) (none ∷ marks) = ap (◌∷◌ b) (converted-none f2 j bytes marks)
converted-none f2 j (b ∷ bytes) (some v ∷ marks) = ap (◌∷◌ b) (converted-none f2 j bytes marks)

converted-pass :
    (c : ℕ) (f1 f2 : List ℕ) (j : ℕ) (bytes : List ℕ) (marks : List Mark)
    → let (b, m) = convert_pass c (replacement f2 j) bytes marks in
      converted f1 f2 (suc j) b m ≡ converted (c ∷ f1) f2 j bytes marks
unfolding converted translate convert_pass
converted-pass c f1 f2 j [] marks = refl
converted-pass c f1 f2 j (b ∷ bytes) [] = refl
converted-pass c f1 f2 j (b ∷ bytes) (none ∷ marks) = elim (Bool-cases (b == c)) [
  | inl same ↦
      rw (same, replacement-last f2 j)
        (ap (◌∷◌ (nth_or_last f2 j)) (converted-pass c f1 f2 j bytes marks))
  | inr other ↦
      rw other (ap (◌∷◌ (translate f1 f2 (suc j) b)) (converted-pass c f1 f2 j bytes marks))
]
converted-pass c f1 f2 j (b ∷ bytes) (some v ∷ marks) =
    ap (◌∷◌ b) (converted-pass c f1 f2 j bytes marks)

convert_loop-converted :
    (f1 f2 : List ℕ) (j : ℕ) (bytes : List ℕ) (marks : List Mark)
    → (convert_loop f1 f2 j bytes marks).0 ≡ converted f1 f2 j bytes marks
unfolding convert_loop
convert_loop-converted [] f2 j bytes marks = sym (converted-none f2 j bytes marks)
convert_loop-converted (c ∷ f1) f2 j bytes marks =
    convert_loop-converted f1 f2 (suc j) _ _ ∙ converted-pass c f1 f2 j bytes marks

converted-free :
    (f1 f2 : List ℕ) (n : ℕ) (bytes : List ℕ)
    → length bytes ≤ n
    → converted f1 f2 0 bytes (replicate n none) ≡ map (translate f1 f2 0) bytes
unfolding converted
converted-free f1 f2 n [] h = refl
converted-free f1 f2 zero (b ∷ bytes) h = absurd (omega arith)
converted-free f1 f2 (suc n) (b ∷ bytes) h =
    ap (λ t. translate f1 f2 0 b ∷ t) (converted-free f1 f2 n bytes (omega arith))

take-replicate : (k n : ℕ) → k ≤ n → take k (replicate {A = Mark} n none) ≡ replicate k none
take-replicate zero n h = refl
take-replicate (suc k) zero h = absurd (omega arith)
take-replicate (suc k) (suc n) h = ap (λ t. none ∷ t) (take-replicate k n (omega arith))

-- In a field in which nothing is marked, CONVERTING replaces each byte of the region that stands in
-- `f1` by the byte of `f2` at the first such place, or by the last byte of `f2` where `f2` is
-- shorter; all other bytes are kept.
pub inspect_converting-translate :
    (s : InspectState) (f1 f2 : List ℕ)
    → s.inspect_mark ≡ replicate (length s.inspect_data) none
    → s.inspect_end ≤ length s.inspect_data
    → (inspect_converting s f1 f2).inspect_data
      ≡ copy_at s.inspect_data s.inspect_start (map (translate f1 f2 0) (region s s.inspect_data))
unfolding inspect_converting
inspect_converting-translate s f1 f2 unmarked inside =
    let size = region_size s in
    let marks : take size s.inspect_mark ≡ replicate size none =
      rw unmarked (take-replicate size (length s.inspect_data) (omega arith)) in
    let len : length (region s s.inspect_data) ≤ size =
      omega (arith, length-take size (drop s.inspect_start s.inspect_data)) in
    ap (λ (b : List ℕ). copy_at s.inspect_data s.inspect_start b)
      (convert_loop-converted f1 f2 0 (region s s.inspect_data) (take size s.inspect_mark)
        ∙ ap (λ (m : List Mark). converted f1 f2 0 (region s s.inspect_data) m) marks
        ∙ converted-free f1 f2 size (region s s.inspect_data) len)
