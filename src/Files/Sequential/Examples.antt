-- ===== src/Files/Sequential/Examples.antt =====
-- Two records written to a SEQUENTIAL file and read again, with and without varying sizes, and the
-- theorem at that input.
use blitzy_open_cobol.Base.{ℕ, ◌≡◌, refl, ◌==◌, none, some, List, [], ◌∷◌, arith, if◌then◌else◌}
use blitzy_open_cobol.Files.{CobFile}
use blitzy_open_cobol.Files.Stdio.{bytes_at, fread, fread_some, fwrite}
use blitzy_open_cobol.Files.Sequential.{sequential_read, read_here, read_data, sequential_rewrite}
use blitzy_open_cobol.Files.Sequential.Samples.{fresh, journal}
use blitzy_open_cobol.Files.Sequential.Runs.{write_all, read_all, plain_write, on_stream}
use blitzy_open_cobol.Files.Sequential.RoundTrip.{rewound, reopened, read_all-write_all}

abbrev records : List (List ℕ)
records = (b'A' ∷ []) ∷ (b'B' ∷ b'C' ∷ b'D' ∷ []) ∷ []

-- A size goes into the file with its high byte first, and a size beyond the record's, as another
-- program may have written it, overruns the record.
abbrev wild : ℕ → ℕ
wild i = if i == 1 then 4 else b'Z'

wild_undefined :
    sequential_read (on_stream journal (reopened (record fresh { byte = wild; size = 9 }))) ≡ none
unfolding sequential_read read_here read_data fread fread_some bytes_at
wild_undefined = refl

rewrite_in_place :
    sequential_rewrite
      (record (on_stream journal (record fresh { position = 3; size = 3 })) {
        size = 2;
        record_data = b'X' ∷ b'Y' ∷ [];
      })
      0
    ≡ some (
      record (on_stream journal
          (fwrite (b'X' ∷ b'Y' ∷ []) (record fresh { position = 1; size = 3 })).1) {
            size = 2;
            record_data = b'X' ∷ b'Y' ∷ [];
          },
      0,
    )
unfolding sequential_rewrite
rewrite_in_place = unfold fwrite in refl

read_all-write_all_example :
    (g : CobFile) × ((write_all plain_write (on_stream journal fresh) records ≡ some (g, 0))
      × (read_all sequential_read 3 (rewound g) ≡ some (records, 10)))
read_all-write_all_example =
    read_all-write_all journal fresh records
      (record { may_write = refl; in_order = refl; at_end = refl }) refl (omega arith)
      (λ same. refl)
      (
        record {
          present = omega arith;
          short = omega arith;
          header = omega arith;
          fixed = λ same. absurd (ground (arith, same));
        },
        (
          record {
            present = omega arith;
            short = omega arith;
            header = omega arith;
            fixed = λ same. refl;
          },
          tt,
        ),
      )
