-- ===== src/Files/LineSequential/Bounds.antt =====
-- The loop of lineseq_read on a file of any content: it ends, and it stays in the record.
use blitzy_open_cobol.Base.{
  ℕ, zero, suc, ◌+◌, ◌-◌, ◌≤◌, ◌<◌, ◌≡◌, refl, ◌⊎◌, inl, inr, ◌==◌, Bool, true, false, ◌&&◌, Option,
  none, some, [], ◌∷◌, length, ltb, arith,
}
use native.Mathlib.Decide.{dec_lt}
use blitzy_open_cobol.Files.{CobFile, KeyField}
use blitzy_open_cobol.Files.Stdio.{Stream}
use blitzy_open_cobol.Files.Sequential.Runs.{on_stream}
use blitzy_open_cobol.Files.LineSequential.{
  getc, line_loop, LineRead, with_char, line_done, lineseq_read,
}

-- A line of which the characters fit behind the `i` that are stored, and the statuses of a READ.
pub record IsBounded (size i : ℕ) (result : Option LineRead) : Type 0 where
  pub taken : LineRead
  pub done : result ≡ some taken
  pub short : i + length taken.line ≤ size
  pub status : (taken.status ≡ 0) ⊎ (taken.status ≡ 10) ⊎ (taken.status ≡ 30)

-- What getc gives.
record IsChar (s : Stream) (c : ℕ) : Type 0 where
  char : (getc s).0 ≡ some c
  shrinks : (getc s).1.size - (getc s).1.position < s.size - s.position

getc_cases : (s : Stream) → ((getc s).0 ≡ none) ⊎ (c : ℕ) × IsChar s c
getc_cases s = on_flags _ _ refl refl
  where
    on_flags :
        (r b : Bool) → s.readable ≡ r → s.broken ≡ b → ((getc s).0 ≡ none) ⊎ (c : ℕ) × IsChar s c
    on_flags false b unreadable order = inl (unfold getc in ground (arith, unreadable))
    on_flags true true readable broken = inl (unfold getc in ground (arith, readable, broken))
    on_flags true false readable order = elim (dec_lt s.position s.size) [
      | no behind ↦ inl (unfold getc in ground (arith, readable, order))
      | yes inside ↦ inr (
        s.byte s.position,
        record {
          char = unfold getc in ground (arith, readable, order);
          shrinks = unfold getc in ground (arith, readable, order);
        },
      )
    ]

stored :
    (size i c : ℕ) (result : Option LineRead)
    → IsBounded size (suc i) result
    → IsBounded size i (with_char c result)
stored size i c result b = record {
  taken = record b.taken { line = c ∷ b.taken.line };
  done = rw b.done refl;
  short = omega (arith, b.short);
  status = b.status;
}

-- The character is stored if the record has room for it.
abbrev stores : Bool → ℕ → ℕ → ℕ → ℕ → Stream → Option LineRead
stores nulls size fuel i c t = elim (ltb i size) [
  | true ↦ with_char c (line_loop nulls size fuel (suc i) t)
  | false ↦ line_loop nulls size fuel i t
]

-- The turns on the rest of the file are bounded.
abbrev IsLater : Bool → ℕ → ℕ → Type 0
IsLater nulls size fuel =
    (j : ℕ) (t : Stream)
    → j ≤ size
    → t.size - t.position < fuel
    → IsBounded size j (line_loop nulls size fuel j t)

stores-IsBounded :
    (nulls : Bool) (size fuel i c : ℕ) (t : Stream)
    → IsLater nulls size fuel
    → i ≤ size
    → t.size - t.position < fuel
    → IsBounded size i (stores nulls size fuel i c t)
stores-IsBounded nulls size fuel i c t later room enough = on_room _ refl
  where
    on_room : (b : Bool) → ltb i size ≡ b → IsBounded size i (stores nulls size fuel i c t)
    on_room true free =
        rw (stores, free) (stored size i c _ (later (suc i) t (ground arith) enough))
    on_room false full = rw (stores, full) (later i t room enough)

ended :
    (size i status : ℕ) (s : Stream)
    → i ≤ size
    → (status ≡ 0) ⊎ (status ≡ 10) ⊎ (status ≡ 30)
    → IsBounded size i (some (record { line = []; status = status; after = s }))
ended size i status s room known = record {
  taken = record { line = []; status = status; after = s };
  done = refl;
  short = omega arith;
  status = known;
}

-- One turn, where the later turns are bounded.
char_turn :
    (nulls : Bool) (size fuel i : ℕ) (s : Stream) (c : ℕ)
    → IsChar s c
    → IsLater nulls size fuel
    → i ≤ size
    → s.size - s.position < suc fuel
    → (c == 0 && nulls) ≡ false
    → IsBounded size i (line_loop nulls size (suc fuel) i s)
unfolding line_loop
char_turn nulls size fuel i s c e later room enough no_null = on_return _ refl
  where
    on_end :
        (b : Bool)
        → (c == b'\r') ≡ false
        → (c == b'\n') ≡ b
        → IsBounded size i (line_loop nulls size (suc fuel) i s)
    on_end true no_return line_end =
        rw (line_loop, e.char, no_null, no_return, line_end) (ended size i 0 _ room (inl refl))
    on_end false no_return no_end =
        rw (line_loop, e.char, no_null, no_return, no_end)
          (stores-IsBounded nulls size fuel i c _ later room (omega (arith, e.shrinks)))

    on_return :
        (b : Bool) → (c == b'\r') ≡ b → IsBounded size i (line_loop nulls size (suc fuel) i s)
    on_return true skipped =
        rw (line_loop, e.char, no_null, skipped) (later i _ room (omega (arith, e.shrinks)))
    on_return false no_return = on_end _ no_return refl

line_loop-turn :
    (nulls : Bool) (size fuel i : ℕ) (s : Stream)
    → IsLater nulls size fuel
    → i ≤ size
    → s.size - s.position < suc fuel
    → IsBounded size i (line_loop nulls size (suc fuel) i s)
unfolding line_loop
line_loop-turn nulls size fuel i s later room enough = elim (getc_cases s) [
  | inl eof ↦ rw (line_loop, eof) (ended size i _ _ room (ground arith))
  | inr (c, e) ↦ on_null c e _ refl
]
  where
    behind_null :
        (c : ℕ)
        → IsChar s c
        → (c == 0 && nulls) ≡ true
        → ((getc (getc s).1).0 ≡ none) ⊎ (m : ℕ) × IsChar (getc s).1 m
        → IsBounded size i (line_loop nulls size (suc fuel) i s)
    behind_null c e null (inl eof) =
        rw (line_loop, e.char, null, eof) (ended size i 30 _ room (inr (inr refl)))
    behind_null c e null (inr (m, e')) =
        rw (line_loop, e.char, null, e'.char)
          (stores-IsBounded nulls size fuel i m _ later room (omega (arith, e.shrinks, e'.shrinks)))

    on_null :
        (c : ℕ)
        → IsChar s c
        → (b : Bool) → (c == 0 && nulls) ≡ b
        → IsBounded size i (line_loop nulls size (suc fuel) i s)
    on_null c e true null = behind_null c e null (getc_cases (getc s).1)
    on_null c e false no_null = char_turn nulls size fuel i s c e later room enough no_null

pub line_loop-IsBounded :
    (nulls : Bool) (size fuel i : ℕ) (s : Stream)
    → i ≤ size
    → s.size - s.position < fuel
    → IsBounded size i (line_loop nulls size fuel i s)
line_loop-IsBounded nulls size zero i s room enough = absurd (omega arith)
line_loop-IsBounded nulls size (suc fuel) i s room enough =
    line_loop-turn nulls size fuel i s
      (λ j t inside left. line_loop-IsBounded nulls size fuel j t inside left) room enough

-- READ of a LINE SEQUENTIAL file, whatever the file holds and whatever state the stream is in: the
-- loop ends, no more characters are stored than the record has, and the READ gives the result of
-- that line, with the status 00, 10 or 30.
pub lineseq_read-IsBounded :
    (sizes : KeyField) (nulls : Bool) (f : CobFile) (s : Stream)
    → (l : LineRead) × ((lineseq_read sizes nulls (on_stream f s)
          ≡ some (line_done sizes (on_stream f s) l))
        × ((length l.line ≤ f.size) × ((l.status ≡ 0) ⊎ (l.status ≡ 10) ⊎ (l.status ≡ 30))))
unfolding lineseq_read
lineseq_read-IsBounded sizes nulls f s =
    let b = line_loop-IsBounded nulls f.size (suc s.size) 0 s (omega arith) (omega arith) in
    (b.taken, (rw (lineseq_read, b.done) refl, (omega (arith, b.short), b.status)))
