-- ===== src/StringVerb/Text.antt =====
-- STRING writes the text that its pieces make, cut off at the end of the destination.
use Prim.Native.Nat.{ℕ}
use native.Mathlib.Decide.{dec_le, dec_lt}
use blitzy_open_cobol.Base.{
  zero, suc, ◌+◌, ◌-◌, ◌≤◌, ◌<◌, ◌≡◌, refl, sym, ap, ◌∙◌, arith, min, true, false, Option, none,
  some, List, [], ◌∷◌, ◌++◌, length, take, drop, leb, le→leb, if◌then◌else◌, starts_with,
  length-append, length-take, length-drop, take-append, take-append_full, take-take, take-all,
  Bool-cases, Option-cases, inl, inr, ◌⊎◌,
}
use blitzy_open_cobol.Base.Int.{pos, pos_part}
use blitzy_open_cobol.Base.Buffers.{
  copy_at, find_first-cases, copy_at-append, append_assoc, append_nil, copy_at-nothing,
  length-copy_at, starts_with-length,
}
use blitzy_open_cobol.Field.{ExceptionId}
use blitzy_open_cobol.StringVerb.{
  StringState, StringCall, string_append, string_delimited, string_calls, delimited_size,
}

-- What stands in a source before the first place at which the delimiter stands.
abbrev pub before_first : List ℕ → List ℕ → List ℕ
before_first dlm [] = []
before_first dlm (c ∷ src) = if starts_with dlm (c ∷ src) then [] else c ∷ before_first dlm src

-- DELIMITED BY SIZE takes all of a source.
abbrev pub sent : Option (List ℕ) → List ℕ → List ℕ
sent none src = src
sent (some dlm) src = before_first dlm src

-- The text that the calls make, cut at no place: each source up to the delimiter that holds for it.
unfoldable pub text : Option (List ℕ) → List StringCall → List ℕ
text dlm [] = []
text dlm (StringCall.delimited d ∷ calls) = text d calls
text dlm (StringCall.append src ∷ calls) = sent dlm src ++ text dlm calls

-- The piece of a source before a delimiter ends at the first place where the delimiter stands, and
-- is all of the source where it stands nowhere.
pub delimited_size-first :
    (dlm src : List ℕ)
    → let n = delimited_size (some dlm) src in
      ((starts_with dlm (drop n src) ≡ true) ⊎ (n ≡ length src))
      × ((j : ℕ) → j < n → starts_with dlm (drop j src) ≡ false)
unfolding delimited_size
delimited_size-first dlm src = elim (find_first-cases dlm (length src + 1 - length dlm) src) [
  | inl (i, h) ↦ rw h.found (inl h.here, h.not_earlier)
  | inr h ↦ rw h.not_found (
    inr refl,
    λ j below. elim (dec_lt j (length src + 1 - length dlm)) [
      | yes in_loop ↦ h.nowhere j in_loop
      | no behind ↦ starts_with-length dlm (drop j src) (omega (arith, length-drop j src))
    ],
  )
]

-- The first place at which a delimiter stands cuts off what is before it.
before_first-take :
    (dlm src : List ℕ) (n : ℕ)
    → ((starts_with dlm (drop n src) ≡ true) ⊎ (n ≡ length src))
    → ((j : ℕ) → j < n → starts_with dlm (drop j src) ≡ false)
    → take n src ≡ before_first dlm src
before_first-take dlm [] zero ends not_earlier = refl
before_first-take dlm [] (suc n) ends not_earlier = refl
before_first-take dlm (c ∷ src) zero (inl stands) not_earlier = rw stands refl
before_first-take dlm (c ∷ src) zero (inr all) not_earlier = absurd (omega arith)
before_first-take dlm (c ∷ src) (suc n) ends not_earlier =
    let later =
      before_first-take dlm src n (behind ends) (λ j below. not_earlier (suc j) (omega arith)) in
    let here = not_earlier 0 (omega arith) in rw here (ap (λ (l : List ℕ). c ∷ l) later)
  where
    behind :
        (starts_with dlm (drop n src) ≡ true) ⊎ (suc n ≡ suc (length src))
        → (starts_with dlm (drop n src) ≡ true) ⊎ (n ≡ length src)
    behind (inl stands) = inl stands
    behind (inr all) = inr (omega arith)

piece-sent :
    (dlm : Option (List ℕ)) (src : List ℕ) → take (delimited_size dlm src) src ≡ sent dlm src
piece-sent none src = unfold delimited_size in take-all (length src) src (omega arith)
piece-sent (some dlm) src =
    let (ends, not_earlier) = delimited_size-first dlm src in
    before_first-take dlm src (delimited_size (some dlm) src) ends not_earlier

delimited_size-le : (dlm : Option (List ℕ)) (src : List ℕ) → delimited_size dlm src ≤ length src
unfolding delimited_size
delimited_size-le none src = omega arith
delimited_size-le (some dlm) src = elim (find_first-cases dlm (length src + 1 - length dlm) src) [
  | inl (i, h) ↦ rw h.found (omega (arith, h.before))
  | inr h ↦ rw h.not_found (omega arith)
]

-- What a state is when `t` has been put into `dst` from `start` on.
pub record IsWritten (dst : List ℕ) (start : ℕ) (t : List ℕ) (s : StringState) : Type 0 where
  pub bytes : s.string_dst ≡ copy_at dst start (take (length dst - start) t)
  pub offset : s.string_offset ≡ pos (start + min (length dst - start) (length t))
  pub flag :
      s.exception
      ≡ (if leb (length t) (length dst - start) then none else some ExceptionId.overflow_string)

module _ (dst : List ℕ) (start : ℕ) (inside : start ≤ length dst) where
  abbrev room : ℕ
  room = length dst - start

  abbrev piece : StringState → List ℕ → List ℕ
  piece s src = take (delimited_size s.string_dlm src) src

  append-IsWritten :
      (t : List ℕ) (s : StringState) (src : List ℕ)
      → IsWritten dst start t s
      → IsWritten dst start (t ++ piece s src) (string_append s src)
  unfolding string_append
  append-IsWritten t s src h = elim (dec_le (length t) room) [
    | yes fits ↦
        let n = delimited_size s.string_dlm src in
        let some_src : n ≤ length src = delimited_size-le s.string_dlm src in
        let len_piece : length (piece s src) ≡ n = omega (arith, length-take n src) in
        let len_sum = length-append t (piece s src) in
        let flag : s.exception ≡ none = h.flag ∙ rw (le→leb _ _ fits) refl in
        let off : pos_part s.string_offset ≡ start + length t =
          ap pos_part h.offset ∙ omega arith in
        let bytes : s.string_dst ≡ copy_at dst start t = rw (take-all room t fits) at h.bytes in
        let len : length s.string_dst ≡ length dst =
          ap (λ (d : List ℕ). length d) bytes ∙ length-copy_at dst start t (omega arith) in
        let left : length s.string_dst - (start + length t) ≡ room - length t =
          omega (arith, len) in
        elim (Bool-cases (leb n (room - length t))) [
          | inl whole ↦
              let all_fit : length t + n ≤ room = ground arith in
              simp (flag, left, whole, off)
                (record {
                  bytes =
                      rw bytes (copy_at-append dst start t (piece s src))
                      ∙ ap (λ (u : List ℕ). copy_at dst start u)
                          (sym (take-all room (t ++ piece s src) (omega arith)));
                  offset = ap pos (omega arith);
                  flag = rw (le→leb (length (t ++ piece s src)) room (omega arith)) refl;
                })
          | inr part ↦
              let too_long : room < length t + n = ground arith in
              let over : leb (length (t ++ piece s src)) room ≡ false = ground arith in
              simp (flag, left, part, off)
                (record {
                  bytes =
                      rw bytes (copy_at-append dst start t (take (room - length t) src))
                      ∙ ap (λ (u : List ℕ). copy_at dst start (t ++ u))
                          (sym (take-take (room - length t) n src (omega arith)))
                      ∙ ap
                          (λ (u : List ℕ).
                            copy_at dst start (u ++ take (room - length t) (piece s src)))
                          (sym (take-all room t fits))
                      ∙ ap (λ (u : List ℕ). copy_at dst start u)
                          (sym (take-append room t (piece s src)));
                  offset = ap pos (omega arith);
                  flag = rw over refl;
                })
        ]
    | no full ↦
        let len_sum = length-append t (piece s src) in
        let over : leb (length t) room ≡ false = ground arith in
        let still_over : leb (length (t ++ piece s src)) room ≡ false = ground arith in
        let raised : s.exception ≡ some ExceptionId.overflow_string = h.flag ∙ rw over refl in
        simp raised (record {
          bytes =
              h.bytes
              ∙ ap (λ (u : List ℕ). copy_at dst start u)
                  (sym (take-append_full room t (piece s src) (omega arith)));
          offset = h.offset ∙ ap pos (omega arith);
          flag = raised ∙ rw still_over refl;
        })
  ]

  string_append-dlm :
      (s : StringState) (src : List ℕ) → (string_append s src).string_dlm ≡ s.string_dlm
  unfolding string_append
  string_append-dlm s src = elim (Option-cases s.exception) [
    | inl going ↦
        let size = length s.string_dst - pos_part s.string_offset in
        elim (Bool-cases (leb (delimited_size s.string_dlm src) size)) [
          | inl whole ↦ simp (going, whole) refl
          | inr part ↦ simp (going, part) refl
        ]
    | inr (e, raised) ↦ rw raised refl
  ]

  pub string_calls-IsWritten :
      (calls : List StringCall) (t : List ℕ) (s : StringState)
      → IsWritten dst start t s
      → IsWritten dst start (t ++ text s.string_dlm calls) (string_calls s calls)
  unfolding string_calls text string_delimited
  string_calls-IsWritten [] t s h = rw (append_nil t) h
  string_calls-IsWritten (StringCall.delimited dlm ∷ calls) t s h =
      string_calls-IsWritten calls t (string_delimited s dlm)
        (record { bytes = h.bytes; offset = h.offset; flag = h.flag })
  string_calls-IsWritten (StringCall.append src ∷ calls) t s h =
      let later =
        string_calls-IsWritten calls (t ++ piece s src) (string_append s src)
          (append-IsWritten t s src h) in
      rw (← piece-sent s.string_dlm src) (
        rw (string_append-dlm s src, append_assoc t (piece s src) (text s.string_dlm calls)) at
          later)

pub nothing-IsWritten :
    (dst : List ℕ) (start : ℕ) (s : StringState)
    → s.string_dst ≡ dst
    → s.string_offset ≡ pos start
    → s.exception ≡ none
    → IsWritten dst start [] s
nothing-IsWritten dst start s bytes offset flag = record {
  bytes =
      bytes
      ∙ sym (
          ap (λ (u : List ℕ). copy_at dst start u) (take-all (length dst - start) [] (omega arith))
          ∙ copy_at-nothing dst start);
  offset = offset ∙ ap pos (omega arith);
  flag = rw (le→leb 0 (length dst - start) (omega arith)) flag;
}
