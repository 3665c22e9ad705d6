-- ===== src/Unstring/RoundTrip.antt =====
-- UNSTRING takes a text apart that is made of pieces with one delimiter behind each.
use Prim.Native.Nat.{ℕ}
use blitzy_open_cobol.Base.{
  zero, suc, ◌+◌, ◌==◌, ==_iff, ◌≡◌, refl, sym, ap, ◌∙◌, arith, true, false, Option, none, some,
  List, [], ◌∷◌, ◌++◌, length, take, drop, All, ltb, lt→ltb, length-append,
}
use blitzy_open_cobol.Base.Int.{pos, pos_part, neg_part, ltb_ℤ}
use blitzy_open_cobol.Base.Buffers.{append_assoc, append_nil}
use blitzy_open_cobol.Unstring.{
  Delimiter, UnstringState, Delivered, find_delimiter, scan_delimiters, take_piece, unstring_into,
  unstring_finish,
}

abbrev pub single : ℕ → List Delimiter
single c = record { uns_dlm = c ∷ []; uns_all = false } ∷ []

-- No byte of the piece is the delimiter.
abbrev pub IsFree : ℕ → List ℕ → Type 0
IsFree c = All (λ b. (c == b) ≡ false)

-- The pieces with the delimiter behind each.
unfoldable pub joined : ℕ → List (List ℕ) → List ℕ
joined c [] = []
joined c (piece ∷ pieces) = piece ++ c ∷ joined c pieces

-- One call for each receiving field, all of the same size; what the calls deliver, and the state
-- behind them.
abbrev pub and_then :
    Option (Delivered × UnstringState)
    → UnstringState
    → (UnstringState → List (List ℕ) × UnstringState)
    → List (List ℕ) × UnstringState
and_then none s next = next s
and_then (some (given, after)) s next = (given.into ∷ (next after).0, (next after).1)

unfoldable pub deliver : UnstringState → ℕ → ℕ → List (List ℕ) × UnstringState
deliver s dst_size zero = ([], s)
deliver s dst_size (suc fields) =
    and_then (unstring_into s dst_size) s (λ t. deliver t dst_size fields)

itself : (c : ℕ) → (c == c) ≡ true
itself c = (==_iff c c).1 refl

scan-piece :
    (c : ℕ) (piece rest : List ℕ)
    → IsFree c piece
    → scan_delimiters (single c) (piece ++ c ∷ rest)
      ≡ some (length piece, record { uns_dlm = c ∷ []; uns_all = false })
unfolding scan_delimiters find_delimiter
scan-piece c [] rest free = rw (itself c) refl
scan-piece c (b ∷ piece) rest (other, free) = rw (other, scan-piece c piece rest free) refl

drop-front : (front rest : List ℕ) → drop (length front) (front ++ rest) ≡ rest
drop-front [] rest = refl
drop-front (b ∷ front) rest = drop-front front rest

take-front : (front rest : List ℕ) → take (length front) (front ++ rest) ≡ front
take-front [] rest = refl
take-front (b ∷ front) rest = ap (◌∷◌ b) (take-front front rest)

-- A state whose offset is behind `front`, with `rest` still to be taken apart.
pub record IsBefore (c : ℕ) (front rest : List ℕ) (s : UnstringState) : Type 0 where
  pub source : s.unstring_src ≡ front ++ rest
  pub delimiters : s.dlm_list ≡ single c
  pub offset : s.unstring_offset ≡ pos (length front)
  pub going : s.exception ≡ none

after_piece : UnstringState → List ℕ → List ℕ → UnstringState
after_piece s front piece = record s {
  unstring_offset = pos (length front + (length piece + 1 + 0));
  unstring_count = suc s.unstring_count;
}

into-piece :
    (c : ℕ) (front piece rest : List ℕ) (s : UnstringState) (dst_size : ℕ)
    → IsFree c piece
    → IsBefore c front (piece ++ c ∷ rest) s
    → unstring_into s dst_size
      ≡ some (
        record { into = piece; delimiter = some (c ∷ []); match_size = length piece },
        after_piece s front piece,
      )
unfolding unstring_into take_piece after_piece
into-piece c front piece rest s dst_size free h =
    let off : pos_part s.unstring_offset ≡ length front = ap pos_part h.offset in
    let left : drop (length front) s.unstring_src ≡ piece ++ c ∷ rest =
      ap (λ (t : List ℕ). drop (length front) t) h.source ∙ drop-front front (piece ++ c ∷ rest) in
    let no_minus : neg_part s.unstring_offset ≡ 0 = ap neg_part h.offset in
    let total = ap (λ (t : List ℕ). length t) h.source in
    let more : ltb (length front + 0) (length s.unstring_src + 0) ≡ true = lt→ltb _ _ (
      omega
        (arith, total, length-append front (piece ++ c ∷ rest), length-append piece (c ∷ rest))) in
    simp
      (h.going, no_minus, more, h.delimiters, off, left, scan-piece c piece rest free, take-front)
      refl

after_piece-IsBefore :
    (c : ℕ) (front piece rest : List ℕ) (s : UnstringState)
    → IsBefore c front (piece ++ c ∷ rest) s
    → IsBefore c (front ++ (piece ++ c ∷ [])) rest (after_piece s front piece)
unfolding after_piece
after_piece-IsBefore c front piece rest s h = record {
  source =
      h.source
      ∙ ap (λ t. front ++ t) (sym (append_assoc piece (c ∷ []) rest))
      ∙ sym (append_assoc front (piece ++ c ∷ []) rest);
  delimiters = h.delimiters;
  offset =
      ap pos (omega (arith, length-append front (piece ++ c ∷ []), length-append piece (c ∷ [])));
  going = h.going;
}

-- UNSTRING with one delimiter of one byte, of a text of pieces with the delimiter behind each, from
-- the beginning of these pieces on: as many receiving fields as there are pieces are delivered
-- exactly the pieces, whatever their sizes, the offset is at the end of the source, and the
-- statement ends without an overflow.
pub deliver-joined :
    (c : ℕ) (front : List ℕ) (pieces : List (List ℕ)) (s : UnstringState) (dst_size : ℕ)
    → All (IsFree c) pieces
    → IsBefore c front (joined c pieces) s
    → let (given, after) = deliver s dst_size (length pieces) in
      (given ≡ pieces)
      × (after.unstring_offset ≡ pos (length s.unstring_src))
      × ((unstring_finish after).0 ≡ none)
unfolding joined deliver unstring_finish after_piece
deliver-joined c front [] s dst_size free h =
    let same : length s.unstring_src ≡ length front =
      ap (λ (t : List ℕ). length t) h.source ∙ ap (λ (t : List ℕ). length t) (append_nil front) in
    let at_end : ltb_ℤ (pos (length front)) (pos (length s.unstring_src)) ≡ false =
      ground (arith, same) in
    (refl, h.offset ∙ ap pos (sym same), rw h.offset (rw at_end h.going))
deliver-joined c front (piece ∷ pieces) s dst_size (free, rest_free) h =
    let next = after_piece-IsBefore c front piece (joined c pieces) s h in
    let (given, offset, fine) =
      deliver-joined c (front ++ (piece ++ c ∷ [])) pieces (after_piece s front piece) dst_size
        rest_free next in
    rw (into-piece c front piece (joined c pieces) s dst_size free h)
      (ap (◌∷◌ piece) given, offset, fine)
