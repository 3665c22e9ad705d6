-- ===== src/Files/Relative/Lost.antt =====
-- DELETE and REWRITE of a RELATIVE record that was deleted.
use blitzy_open_cobol.Base.{ℕ, ◌<◌, ◌≡◌, refl, ◌∙◌, none, some, List, [], ◌∷◌, lt→ltb, arith}
use blitzy_open_cobol.Files.{CobFile, KeyField}
use blitzy_open_cobol.Files.Plain.{Host}
use blitzy_open_cobol.Files.Relative.Table.{
  Record, Table, Statement, Request, Response, status_bytes, with_record, answer, answers,
  serve_all, Represents, AllFit,
}
use blitzy_open_cobol.Files.Relative.Refinement.{serve_all-answers}

-- Statements for the number of slot `i` that are not a WRITE.
abbrev pub IsChange : Statement → Type 0
IsChange Statement.write = ⊥
IsChange _ = Unit

abbrev pub AllChange : ℕ → List Request → Type 0
AllChange i [] = Unit
AllChange i (q ∷ qs) = (q.slot ≡ i) × IsChange q.statement × AllChange i qs

-- Success for DELETE and REWRITE, and no record for READ.
abbrev pub lost_response : Statement → Response
lost_response Statement.read = (status_bytes 23, none)
lost_response _ = (status_bytes 0, none)

abbrev pub lost : List Request → List Response
lost [] = []
lost (q ∷ qs) = lost_response q.statement ∷ lost qs

-- A number without a record that is not above the highest one.
record IsGone (i : ℕ) (t : Table) : Type 0 where
  free : t.records i ≡ none
  low : i < t.count

answer-lost :
    (verb : Statement) (i : ℕ) (r : Record) (t : Table)
    → IsChange verb
    → IsGone i t
    → IsGone i (answer verb i r t).0 × ((answer verb i r t).1 ≡ lost_response verb)
answer-lost Statement.write i r t change gone = absurd change
answer-lost Statement.read i r t change gone = rw gone.free (gone, refl)
answer-lost Statement.delete i r t change gone =
    rw (lt→ltb i t.count gone.low) (record { free = ground arith; low = gone.low }, refl)
answer-lost Statement.rewrite i r t change gone =
    rw (lt→ltb i t.count gone.low, gone.free) (record { free = ground arith; low = gone.low }, refl)

answers-lost :
    (i : ℕ) (qs : List Request) (t : Table) → IsGone i t → AllChange i qs → answers qs t ≡ lost qs
unfolding answers
answers-lost i [] t gone later = refl
answers-lost i (q ∷ qs) t gone (at, change, later) =
    let (still, response) = answer-lost q.statement i q.content t change gone in
    rw (at, response, answers-lost i qs (answer q.statement i q.content t).0 still later) refl

-- A DELETE of a number that is not above the highest one, and after it any sequence of DELETE, REWRITE
-- and READ of this number, on a RELATIVE file that is open for I-O, not with sequential access and not
-- with a RECORD DEPENDING field: each DELETE and REWRITE ends with the status 00, and each READ with 23,
-- so that no REWRITE stores a record.
pub delete-rewrite_lost :
    (host : Host) (keys sizes : KeyField) (f : CobFile) (t : Table) (i : ℕ) (r : Record)
    (qs : List Request)
    → Represents f t
    → AllFit f.record_min f.record_max
        (record { statement = Statement.delete; slot = i; content = r } ∷ qs)
    → i < t.count
    → AllChange i qs
    → serve_all host keys sizes
        (record { statement = Statement.delete; slot = i; content = r } ∷ qs)
        f
      ≡ some ((status_bytes 0, none) ∷ lost qs)
delete-rewrite_lost host keys sizes f t i r qs v fits inside later =
    let gone : IsGone i (with_record t i none) = record { free = ground arith; low = inside } in
    serve_all-answers host keys sizes
      (record { statement = Statement.delete; slot = i; content = r } ∷ qs) f t v fits
    ∙ unfold answers in
      rw (lt→ltb i t.count inside, answers-lost i qs (with_record t i none) gone later) refl
