-- ===== src/Files/LineSequential/Examples.antt =====
-- Two records written to a LINE SEQUENTIAL file and read again, the bytes of the file, and the
-- theorems at that input.
use blitzy_open_cobol.Base.{ℕ, ◌≤◌, ◌≡◌, refl, ◌⊎◌, false, true, some, List, [], ◌∷◌, length}
use blitzy_open_cobol.Base.Int.{◌+ℤ◌}
use blitzy_open_cobol.Files.{CobFile, KeyField}
use blitzy_open_cobol.Files.Stdio.{Stream, bytes_at, fwrite, write_at}
use blitzy_open_cobol.Files.Sequential.{putc}
use blitzy_open_cobol.Files.Sequential.Samples.{fresh, journal}
use blitzy_open_cobol.Files.Sequential.Append.{file_bytes}
use blitzy_open_cobol.Files.Sequential.Runs.{write_all, read_all, on_stream}
use blitzy_open_cobol.Files.Sequential.RoundTrip.{rewound}
use blitzy_open_cobol.Files.LineSequential.{
  LineRead, line_done, lineseq_read, put_line, put_escaped,
}
use blitzy_open_cobol.Files.LineSequential.Bounds.{lineseq_read-IsBounded}
use blitzy_open_cobol.Files.LineSequential.RoundTrip.{line_writer, lineseq_read-lineseq_write}

abbrev sizes : KeyField
sizes = record { set_int = λ z. z; add_int = λ a b. some (a +ℤ b) }

-- The second record has a line feed, which COB_LS_NULLS lets through.
abbrev records : List (List ℕ)
records = (b'A' ∷ b' ' ∷ b' ' ∷ []) ∷ (b'B' ∷ b'\n' ∷ b'C' ∷ []) ∷ []

escaped_bytes :
    file_bytes (put_line true (b'B' ∷ b'\n' ∷ b'C' ∷ []) fresh).1 ≡ b'B' ∷ 0 ∷ b'\n' ∷ b'C' ∷ []
unfolding put_line put_escaped putc fwrite write_at bytes_at
escaped_bytes = refl

lineseq_read-lineseq_write_example :
    (g : CobFile) × ((write_all (line_writer true false) (on_stream journal fresh) records
        ≡ some (g, 0))
      × (read_all (lineseq_read sizes true) 3 (rewound g) ≡ some (records, 10)))
lineseq_read-lineseq_write_example =
    lineseq_read-lineseq_write sizes true false journal fresh records
      (record { may_write = refl; in_order = refl; at_end = refl }) refl
      ((refl, (tt, (tt, (tt, tt)))), ((refl, (tt, (tt, (tt, tt)))), tt))

abbrev long_line : Stream
long_line = record fresh { byte = λ i. b'Z'; size = 9; readable = true }

lineseq_read-IsBounded_example :
    (l : LineRead) × ((lineseq_read sizes false (on_stream journal long_line)
        ≡ some (line_done sizes (on_stream journal long_line) l))
      × ((length l.line ≤ 3) × ((l.status ≡ 0) ⊎ (l.status ≡ 10) ⊎ (l.status ≡ 30))))
lineseq_read-IsBounded_example = lineseq_read-IsBounded sizes false journal long_line
