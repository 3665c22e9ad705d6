-- ===== src/Files/LineSequential/Puts.antt =====
-- What lineseq_write puts to the end of a LINE SEQUENTIAL file, and the spaces that it leaves out.
use blitzy_open_cobol.Base.{
  ℕ, suc, ◌-◌, ◌≤◌, ◌≡◌, refl, sym, ◌∙◌, ap, ◌==◌, Bool, true, false, List, [], ◌∷◌, ◌++◌, length,
  ltb, arith,
}
use blitzy_open_cobol.Base.Buffers.{append_assoc, append_nil}
use blitzy_open_cobol.Files.Stdio.{Stream}
use blitzy_open_cobol.Files.Sequential.{putc}
use blitzy_open_cobol.Files.Sequential.Append.{IsOutput, IsAppended, file_bytes, fwrite-IsAppended}
use blitzy_open_cobol.Files.LineSequential.{put_escaped, put_line, spaces, trimmed, trimmed_from}
use blitzy_open_cobol.Files.LineSequential.Lines.{escaped, Clean, CleanChar}

nothing-IsAppended : (s : Stream) → IsOutput s → IsAppended s s []
nothing-IsAppended s o = record { output = o; content = sym (append_nil (file_bytes s)) }

pub IsAppended-twice :
    (s t u : Stream) (a b : List ℕ) → IsAppended s t a → IsAppended t u b → IsAppended s u (a ++ b)
IsAppended-twice s t u a b first second = record {
  output = second.output;
  content =
      second.content ∙ ap (λ (l : List ℕ). l ++ b) first.content ∙ append_assoc (file_bytes s) a b;
}

pub putc-IsAppended : (s : Stream) (c : ℕ) → IsOutput s → IsAppended s (putc c s) (c ∷ [])
unfolding putc
putc-IsAppended s c o = (fwrite-IsAppended s (c ∷ []) o (omega arith)).1

put_escaped-IsAppended :
    (line : List ℕ) (s : Stream)
    → IsOutput s
    → IsAppended s (put_escaped line s) (escaped true line)
unfolding put_escaped
put_escaped-IsAppended [] s o = nothing-IsAppended s o
put_escaped-IsAppended (c ∷ line) s o = on_char (λ t out. put_escaped-IsAppended line t out) _ refl
  where
    on_char :
        ((t : Stream) → IsOutput t → IsAppended t (put_escaped line t) (escaped true line))
        → (control : Bool) → ltb c b' ' ≡ control
        → IsAppended s (put_escaped (c ∷ line) s) (escaped true (c ∷ line))
    on_char later true control =
        let zero_first = putc-IsAppended s 0 o in
        let char = putc-IsAppended (putc 0 s) c zero_first.output in
        let both =
          IsAppended-twice s (putc 0 s) (putc c (putc 0 s)) (0 ∷ []) (c ∷ []) zero_first char in
        rw (control) (
          IsAppended-twice s (putc c (putc 0 s)) _ (0 ∷ c ∷ []) (escaped true line) both
            (later (putc c (putc 0 s)) char.output))
    on_char later false printing =
        let char = putc-IsAppended s c o in
        rw (printing) (
          IsAppended-twice s (putc c s) _ (c ∷ []) (escaped true line) char
            (later (putc c s) char.output))

escaped-plain : (line : List ℕ) → escaped false line ≡ line
escaped-plain [] = refl
escaped-plain (c ∷ line) = ap (◌∷◌ c) (escaped-plain line)

pub length-escaped : (nulls : Bool) (line : List ℕ) → length line ≤ length (escaped nulls line)
length-escaped nulls [] = omega arith
length-escaped false (c ∷ line) = let later = length-escaped false line in omega arith
length-escaped true (c ∷ line) = let later = length-escaped true line in ground arith

pub put_line-IsAppended :
    (nulls : Bool) (line : List ℕ) (s : Stream)
    → IsOutput s
    → ((put_line nulls line s).0 ≡ true)
      × IsAppended s (put_line nulls line s).1 (escaped nulls line)
unfolding put_line
put_line-IsAppended nulls [] s o = (refl, nothing-IsAppended s o)
put_line-IsAppended true (c ∷ line) s o = (refl, put_escaped-IsAppended (c ∷ line) s o)
put_line-IsAppended false (c ∷ line) s o =
    let (wrote, appended) = fwrite-IsAppended s (c ∷ line) o (omega arith) in
    (wrote, rw (escaped-plain (c ∷ line)) appended)

-- The spaces that are left out are those that reading fills in.
trimmed_from-padded :
    (c : ℕ) (t r : List ℕ)
    → t ++ spaces (length r - length t) ≡ r
    → trimmed_from c t ++ spaces (suc (length r) - length (trimmed_from c t)) ≡ c ∷ r
trimmed_from-padded c (x ∷ t) r padded =
    let left : suc (length r) - suc (suc (length t)) ≡ length r - suc (length t) = omega arith in
    rw left (ap (◌∷◌ c) padded)
trimmed_from-padded c [] r padded = on_char _ refl
  where
    all : length r - 0 ≡ length r
    all = omega arith

    on_char :
        (space : Bool)
        → (c == b' ') ≡ space
        → trimmed_from c [] ++ spaces (suc (length r) - length (trimmed_from c [])) ≡ c ∷ r
    on_char true space =
        let char : c ≡ b' ' = ground arith in
        let full : suc (length r) - 0 ≡ suc (length r) = omega arith in
        rw (space, full, char) (ap (◌∷◌ b' ') (ap spaces (sym all) ∙ padded))
    on_char false other =
        let left : suc (length r) - 1 ≡ length r - 0 = omega arith in
        rw (other, left) (ap (◌∷◌ c) padded)

pub trimmed-padded : (r : List ℕ) → trimmed r ++ spaces (length r - length (trimmed r)) ≡ r
trimmed-padded [] = refl
trimmed-padded (c ∷ r) = trimmed_from-padded c (trimmed r) r (trimmed-padded r)

pub trimmed-Clean : (nulls : Bool) (r : List ℕ) → Clean nulls r → Clean nulls (trimmed r)
trimmed-Clean nulls [] clean = clean
trimmed-Clean nulls (c ∷ r) (first, later) =
    from nulls c (trimmed r) first (trimmed-Clean nulls r later)
  where
    from :
        (nulls : Bool) (c : ℕ) (t : List ℕ)
        → CleanChar nulls c
        → Clean nulls t
        → Clean nulls (trimmed_from c t)
    from nulls c (x ∷ t) first clean = (first, clean)
    from nulls c [] first clean = on_char _ refl
      where
        on_char : (space : Bool) → (c == b' ') ≡ space → Clean nulls (trimmed_from c [])
        on_char true space = rw space clean
        on_char false other = rw other (first, clean)

pub length-trimmed : (r : List ℕ) → length (trimmed r) ≤ length r
length-trimmed [] = omega arith
length-trimmed (c ∷ r) = from c (trimmed r) (length r) (length-trimmed r)
  where
    from : (c : ℕ) (t : List ℕ) (n : ℕ) → length t ≤ n → length (trimmed_from c t) ≤ suc n
    from c [] n h = ground arith
    from c (x ∷ t) n h = omega arith
