-- ===== src/Unstring/Pieces.antt =====
-- Where UNSTRING cuts: at the first place at which any of the delimiters stands; and how it moves on.
use Prim.Native.Nat.{ℕ}
use blitzy_open_cobol.Base.{
  zero, suc, ◌+◌, ◌==◌, ◌≤◌, ◌<◌, ◌≡◌, refl, sym, arith, not, ◌&&◌, Option, none, some, List, [],
  ◌∷◌, length, drop, All, ltb, starts_with, length-drop, both_true, Bool-cases, Option-cases, inl,
  inr, ◌⊎◌, ◌≢◌,
}
use mathlib.Core.Option.{none-ne-some, some-injective}
use blitzy_open_cobol.Base.Int.{pos, pos_part, neg_part, ltb_ℤ}
use blitzy_open_cobol.Base.Buffers.{starts_with-le}
use blitzy_open_cobol.Unstring.{
  Delimiter, UnstringState, Delivered, find_delimiter, scan_delimiters, skip_all, take_piece,
  take_sized, unstring_into, or_later,
}

-- What the search over the source finds.
unfoldable pub IsCut : List Delimiter → List ℕ → Option (ℕ × Delimiter) → Type 0
IsCut dlms rest none = (j : ℕ) → j < length rest → find_delimiter dlms (drop j rest) ≡ none
IsCut dlms rest (some (n, d)) =
    (n < length rest)
    × (find_delimiter dlms (drop n rest) ≡ some d)
    × ((j : ℕ) → j < n → find_delimiter dlms (drop j rest) ≡ none)

not_before :
    (dlms : List Delimiter) (b : ℕ) (rest : List ℕ) (j : ℕ)
    → find_delimiter dlms (b ∷ rest) ≡ none
    → ((k : ℕ) → j ≡ suc k → find_delimiter dlms (drop k rest) ≡ none)
    → find_delimiter dlms (drop j (b ∷ rest)) ≡ none
not_before dlms b rest zero here after = here
not_before dlms b rest (suc k) here after = after k refl

one_later :
    (dlms : List Delimiter) (b : ℕ) (rest : List ℕ)
    → find_delimiter dlms (b ∷ rest) ≡ none
    → (o : Option (ℕ × Delimiter)) → IsCut dlms rest o
    → IsCut dlms (b ∷ rest) (or_later none o)
unfolding IsCut
one_later dlms b rest not_here none h =
    λ j below. not_before dlms b rest j not_here (λ k e. h k (omega arith))
one_later dlms b rest not_here (some (n, d)) (inside, found, before) = (
  omega arith,
  found,
  λ j below. not_before dlms b rest j not_here (λ k e. before k (omega arith)),
)

-- The search stops at the first place at which a delimiter of the list stands, with the first such
-- delimiter of the list, and finds nothing only if none stands anywhere.
pub scan_delimiters-IsCut :
    (dlms : List Delimiter) (rest : List ℕ) → IsCut dlms rest (scan_delimiters dlms rest)
unfolding scan_delimiters IsCut
scan_delimiters-IsCut dlms [] = λ j below. absurd (omega arith)
scan_delimiters-IsCut dlms (b ∷ rest) = elim (Option-cases (find_delimiter dlms (b ∷ rest))) [
  | inl not_here ↦ rw not_here (one_later dlms b rest not_here _ (scan_delimiters-IsCut dlms rest))
  | inr (d, here) ↦ rw here (omega arith, here, λ j below. absurd (omega arith))
]

-- The bytes skipped by DELIMITED BY ALL lie in the source.
skip_all-le : (dlm : List ℕ) (fuel : ℕ) (rest : List ℕ) → skip_all dlm fuel rest ≤ length rest
unfolding skip_all
skip_all-le dlm zero rest = omega arith
skip_all-le dlm (suc fuel) rest = elim (Bool-cases (ltb 0 (length rest) && starts_with dlm rest)) [
  | inl go ↦ rw go (
      let (some_left, stands) = both_true (ltb 0 (length rest)) (starts_with dlm rest) go in
      omega (
        arith,
        starts_with-le dlm rest stands,
        skip_all-le dlm fuel (drop (length dlm) rest),
        length-drop (length dlm) rest,
      ))
  | inr stop ↦ rw stop (omega arith)
]

abbrev pub IsDelimiter : Delimiter → Type 0
IsDelimiter d = 0 < length d.uns_dlm

found-IsDelimiter :
    (dlms : List Delimiter) (rest : List ℕ) (d : Delimiter)
    → All IsDelimiter dlms
    → find_delimiter dlms rest ≡ some d
    → IsDelimiter d × (length d.uns_dlm ≤ length rest)
unfolding find_delimiter
found-IsDelimiter [] rest d all h = absurd (none-ne-some d h)
found-IsDelimiter (e ∷ dlms) rest d (one, all) h = elim (Bool-cases (starts_with e.uns_dlm rest)) [
  | inl here ↦
      let same : e ≡ d = some-injective e d (rw here at h) in
      rw (sym same) (one, starts_with-le e.uns_dlm rest here)
  | inr not_here ↦ found-IsDelimiter dlms rest d all (rw not_here at h)
]

-- How far a search that stops at a delimiter, or at the end of the source, moves the offset on.
take_piece-moves :
    (dlms : List Delimiter) (rest : List ℕ) (o : Option (ℕ × Delimiter))
    → All IsDelimiter dlms
    → 0 < length rest
    → IsCut dlms rest o
    → (0 < (take_piece o rest).1) × ((take_piece o rest).1 ≤ length rest)
unfolding take_piece IsCut
take_piece-moves dlms rest none all some_left cut = (some_left, omega arith)
take_piece-moves dlms rest (some (n, d)) all some_left (inside, found, before) =
    let (nonempty, fits) = found-IsDelimiter dlms (drop n rest) d all found in
    let behind = drop (n + length d.uns_dlm) rest in
    let skipped = skip_all-le d.uns_dlm (length behind) behind in
    let left = length-drop (n + length d.uns_dlm) rest in
    elim (Bool-cases d.uns_all) [
      | inl every ↦ rw every (omega arith, omega (arith, length-drop n rest))
      | inr once ↦ rw once (omega arith, omega (arith, length-drop n rest))
    ]

-- A call that delivers something moves the offset on, and not behind the source; a call that
-- delivers nothing was made with an exception set or at the end of the source.
unfoldable pub IsProgress : UnstringState → Option (Delivered × UnstringState) → Type 0
IsProgress s none = (s.exception ≢ none) ⊎ (length s.unstring_src ≤ pos_part s.unstring_offset)
IsProgress s (some (given, after)) =
    (pos_part s.unstring_offset < pos_part after.unstring_offset)
    × (pos_part after.unstring_offset ≤ length s.unstring_src)

-- A call of `cob_unstring_into` that delivers something moves the offset on by one byte at least
-- and never behind the source, and a call delivers nothing only if an exception is set or the
-- offset is at the end. The offset is not negative, and no delimiter and no receiving field is
-- empty.
pub unstring_into-IsProgress :
    (s : UnstringState) (dst_size : ℕ)
    → neg_part s.unstring_offset ≡ 0
    → All IsDelimiter s.dlm_list
    → 0 < dst_size
    → IsProgress s (unstring_into s dst_size)
unfolding unstring_into IsProgress take_sized
unstring_into-IsProgress s dst_size no_minus delimiters room = elim (Option-cases s.exception) [
  | inr (e, raised) ↦ simp raised (inl λ e. none-ne-some _ (sym e))
  | inl going ↦ elim (Bool-cases (not (ltb_ℤ s.unstring_offset (pos (length s.unstring_src))))) [
    | inl done ↦ simp (going, done) (inr (ground (arith, done, no_minus)))
    | inr more ↦
        let offset = pos_part s.unstring_offset in
        let left = length-drop offset s.unstring_src in
        let inside : offset < length s.unstring_src = ground (arith, more, no_minus) in
        elim (Bool-cases (length s.dlm_list == 0)) [
          | inl no_delimiter ↦ simp (going, more, no_delimiter) (omega arith, omega arith)
          | inr some_delimiter ↦
              let rest = drop offset s.unstring_src in
              let cut = scan_delimiters-IsCut s.dlm_list rest in
              let moves =
                take_piece-moves s.dlm_list rest _ delimiters (omega (arith, inside, left)) cut in
              simp (going, more, some_delimiter)
                (omega (arith, moves.0), omega (arith, moves.1, left, inside))
        ]
  ]
]
