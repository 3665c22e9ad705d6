-- ===== src/Files/LineSequential/Lines.antt =====
-- The lines of a LINE SEQUENTIAL file: their bytes, and how getc and the loop of lineseq_read take
-- one line.
use blitzy_open_cobol.Base.{
  ℕ, zero, suc, ◌+◌, ◌-◌, ◌≤◌, ◌<◌, ◌≡◌, refl, ◌∙◌, ap, ◌==◌, Bool, true, false, ◌&&◌, some, List,
  [], ◌∷◌, ◌++◌, length, get_or, ltb, if◌then◌else◌, arith,
}
use native.Mathlib.Decide.{dec_lt}
use blitzy_open_cobol.Files.Stdio.{Stream, bytes_at}
use blitzy_open_cobol.Files.Sequential.Append.{
  IsInput, rest_bytes, moved, taken, long_enough, bytes_at-split,
}
use blitzy_open_cobol.Files.LineSequential.{getc, line_loop, with_char}

-- The characters of a line, with COB_LS_NULLS a zero in front of each control character.
abbrev pub escaped : Bool → List ℕ → List ℕ
escaped nulls [] = []
escaped nulls (c ∷ r) = if nulls && ltb c b' ' then 0 ∷ c ∷ escaped nulls r else c ∷ escaped nulls r

-- What a line can hold: with COB_LS_NULLS each character, or else all but the ends of lines.
abbrev pub CleanChar : Bool → ℕ → Type 0
CleanChar true c = Unit
CleanChar false c = ((c == b'\r') ≡ false) × ((c == b'\n') ≡ false)

abbrev pub Clean : Bool → List ℕ → Type 0
Clean nulls [] = Unit
Clean nulls (c ∷ r) = CleanChar nulls c × Clean nulls r

pub getc-taken :
    (s : Stream) (c : ℕ) (rest : List ℕ)
    → IsInput s
    → rest_bytes s ≡ c ∷ rest
    → getc s ≡ (some c, moved s (s.position + 1))
getc-taken s c rest u same =
    let fits : 1 ≤ s.size - s.position = long_enough s (c ∷ []) rest same in
    let first : bytes_at s.byte s.position 1 ≡ c ∷ [] =
      (bytes_at-split s.byte s.position _ (c ∷ []) rest same).0 in
    let head : s.byte s.position ≡ c = unfold bytes_at in ap (λ (l : List ℕ). get_or l 0 0) first in
    unfold getc in ground (arith, u.may_read, u.in_order, head)

-- A turn that stores a character.
line_loop-char :
    (nulls : Bool) (size fuel i : ℕ) (s s' : Stream) (c : ℕ)
    → getc s ≡ (some c, s')
    → (c == 0 && nulls) ≡ false
    → (c == b'\r') ≡ false
    → (c == b'\n') ≡ false
    → ltb i size ≡ true
    → line_loop nulls size (suc fuel) i s ≡ with_char c (line_loop nulls size fuel (suc i) s')
unfolding line_loop
line_loop-char nulls size fuel i s s' c got no_null no_return no_end room =
    let char : (getc s).0 ≡ some c = ap (λ p. p.0) got in
    let next : (getc s).1 ≡ s' = ap (λ p. p.1) got in
    rw (line_loop, char, no_null, no_return, no_end, room, next) refl

-- A turn that stores the character behind a zero.
line_loop-escape :
    (size fuel i : ℕ) (s s' s'' : Stream) (c : ℕ)
    → getc s ≡ (some 0, s')
    → getc s' ≡ (some c, s'')
    → ltb i size ≡ true
    → line_loop true size (suc fuel) i s ≡ with_char c (line_loop true size fuel (suc i) s'')
unfolding line_loop
line_loop-escape size fuel i s s' s'' c got got' room =
    let char : (getc s).0 ≡ some 0 = ap (λ p. p.0) got in
    let next : (getc s).1 ≡ s' = ap (λ p. p.1) got in
    let char' : (getc s').0 ≡ some c = ap (λ p. p.0) got' in
    let next' : (getc s').1 ≡ s'' = ap (λ p. p.1) got' in
    rw (line_loop, char, next, char', room, next, next') refl

-- The loop takes the line and its end, and stands behind it.
pub record IsWholeLine (nulls : Bool) (size fuel i : ℕ) (s : Stream) (r rest : List ℕ)
    : Type 0 where
  pub end_of : Stream
  pub done : line_loop nulls size fuel i s ≡ some (record { line = r; status = 0; after = end_of })
  pub input : IsInput end_of
  pub left : rest_bytes end_of ≡ rest

line_end :
    (nulls : Bool) (size fuel i : ℕ) (s : Stream) (rest : List ℕ)
    → IsInput s
    → rest_bytes s ≡ b'\n' ∷ rest
    → IsWholeLine nulls size (suc fuel) i s [] rest
line_end nulls size fuel i s rest u same =
    let t = taken s (b'\n' ∷ []) rest u same in
    let got = getc-taken s b'\n' rest u same in
    let char : (getc s).0 ≡ some b'\n' = ap (λ p. p.0) got in
    let next : (getc s).1 ≡ moved s (s.position + 1) = ap (λ p. p.1) got in
    record {
      end_of = moved s (s.position + 1);
      done = unfold line_loop in rw (line_loop, char, next) refl;
      input = t.input;
      left = t.left;
    }

-- A line with one more character in front.
line_more :
    (nulls : Bool) (size fuel i : ℕ) (s s' : Stream) (c : ℕ) (r rest : List ℕ)
    → line_loop nulls size (suc fuel) i s ≡ with_char c (line_loop nulls size fuel (suc i) s')
    → IsWholeLine nulls size fuel (suc i) s' r rest
    → IsWholeLine nulls size (suc fuel) i s (c ∷ r) rest
line_more nulls size fuel i s s' c r rest step later = record {
  end_of = later.end_of;
  done = rw (step, later.done) refl;
  input = later.input;
  left = later.left;
}

pub line_loop-escaped :
    (nulls : Bool) (size fuel i : ℕ) (s : Stream) (r rest : List ℕ)
    → IsInput s
    → Clean nulls r
    → i + length r ≤ size
    → length r < fuel
    → rest_bytes s ≡ escaped nulls r ++ b'\n' ∷ rest
    → IsWholeLine nulls size fuel i s r rest
line_loop-escaped nulls size zero i s r rest u clean room enough same = absurd (omega arith)
line_loop-escaped nulls size (suc fuel) i s [] rest u clean room enough same =
    line_end nulls size fuel i s rest u same
line_loop-escaped false size (suc fuel) i s (c ∷ r) rest u ((no_return, no_end), clean) room enough
      same =
    let later : List ℕ = escaped false r ++ b'\n' ∷ rest in
    let t = taken s (c ∷ []) (escaped false r ++ b'\n' ∷ rest) u same in
    line_more false size fuel i s (moved s (s.position + 1)) c r rest
      (line_loop-char false size fuel i s _ c
        (getc-taken s c (escaped false r ++ b'\n' ∷ rest) u same) (ground arith) no_return no_end
        (ground arith))
      (line_loop-escaped false size fuel (suc i) (moved s (s.position + 1)) r rest t.input clean
        (omega arith) (omega arith) t.left)
line_loop-escaped true size (suc fuel) i s (c ∷ r) rest u (any, clean) room enough same =
    elim (dec_lt c b' ') [
      | yes below ↦
          let shape : escaped true (c ∷ r) ≡ 0 ∷ c ∷ escaped true r = ground arith in
          let same' : rest_bytes s ≡ 0 ∷ c ∷ (escaped true r ++ b'\n' ∷ rest) =
            same ∙ ap (λ (l : List ℕ). l ++ b'\n' ∷ rest) shape in
          let t = taken s (0 ∷ []) (c ∷ (escaped true r ++ b'\n' ∷ rest)) u same' in
          let t' =
            taken (moved s (s.position + 1)) (c ∷ []) (escaped true r ++ b'\n' ∷ rest) t.input
              t.left in
          line_more true size fuel i s (moved s (s.position + 1 + 1)) c r rest
            (line_loop-escape size fuel i s (moved s (s.position + 1)) _ c
              (getc-taken s 0 (c ∷ (escaped true r ++ b'\n' ∷ rest)) u same')
              (getc-taken (moved s (s.position + 1)) c (escaped true r ++ b'\n' ∷ rest) t.input
                t.left)
              (ground arith))
            (line_loop-escaped true size fuel (suc i) (moved s (s.position + 1 + 1)) r rest t'.input
              clean (omega arith) (omega arith) t'.left)
      | no above ↦
          let shape : escaped true (c ∷ r) ≡ c ∷ escaped true r = ground arith in
          let same' : rest_bytes s ≡ c ∷ (escaped true r ++ b'\n' ∷ rest) =
            same ∙ ap (λ (l : List ℕ). l ++ b'\n' ∷ rest) shape in
          let t = taken s (c ∷ []) (escaped true r ++ b'\n' ∷ rest) u same' in
          line_more true size fuel i s (moved s (s.position + 1)) c r rest
            (line_loop-char true size fuel i s _ c
              (getc-taken s c (escaped true r ++ b'\n' ∷ rest) u same') (ground arith)
              (ground arith) (ground arith) (ground arith))
            (line_loop-escaped true size fuel (suc i) (moved s (s.position + 1)) r rest t.input
              clean (omega arith) (omega arith) t.left)
    ]
