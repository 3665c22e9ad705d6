-- ===== src/Files/Relative/Table.antt =====
-- The contract of a RELATIVE file that is open for I-O with access by key: a table that holds at
-- most one record for each number. The statements are those of the program: it sets the key and the
-- record, and calls cob_write, cob_rewrite, cob_delete or cob_read.
use blitzy_open_cobol.Base.{
  ℕ, suc, ◌/◌, ◌%◌, ◌^◌, ◌≤◌, ◌<◌, ◌≡◌, ◌≢◌, true, false, Bool, Option, none, some, List, [], ◌∷◌,
  length, max, ltb, ◌==◌, if◌then◌else◌,
}
use blitzy_open_cobol.Base.Digits.{i2d}
use blitzy_open_cobol.Base.Int.{pos}
use blitzy_open_cobol.Files.{CobFile, KeyField, access_sequential, open_i_o, org_sequential}
use blitzy_open_cobol.Files.Plain.{Host}
use blitzy_open_cobol.Files.Relative.{relative_funcs}
use blitzy_open_cobol.Files.Relative.Slots.{slot_at, slot_header, slot_bytes}
use blitzy_open_cobol.Files.Relative.Changes.{IsRelative}
use blitzy_open_cobol.Files.Stdio.{Stream}
use blitzy_open_cobol.Files.Stdio.Words.{word_size}
use blitzy_open_cobol.Files.Verbs.{cob_read, cob_write, cob_rewrite, cob_delete}

-- A record: its size and the bytes of the record area.
abbrev pub Record : Type 0
Record = ℕ × List ℕ

-- The table. Slot `i` is for the number i + 1, and `count` is the highest number written so far.
pub record Table : Type 0 where
  pub records : ℕ → Option Record
  pub count : ℕ

pub data Statement : Type 0 where
  write rewrite delete read : Statement

-- A statement for a number, with what the record area holds before it.
pub record Request : Type 0 where
  pub statement : Statement
  pub slot : ℕ
  pub content : Record

-- The FILE STATUS, and what READ delivers.
abbrev pub Response : Type 0
Response = (ℕ × ℕ) × Option Record

abbrev pub status_bytes : ℕ → ℕ × ℕ
status_bytes status = (i2d (status / 10), i2d (status % 10))

-- A table with one entry changed.
abbrev pub with_record : Table → ℕ → Option Record → Table
with_record t i r = record t { records = λ j. if j == i then r else t.records j }

abbrev pub with_bytes : Option Record → List ℕ → Option Record
with_bytes none bytes = none
with_bytes (some (n, _)) bytes = some (n, bytes)

-- What each statement does to the table. DELETE and REWRITE look only at whether the number is
-- above the highest one.
abbrev pub answer_write : Table → ℕ → Record → Option Record → Table × Response
answer_write t i r none =
    (record (with_record t i (some r)) { count = max t.count (suc i) }, (status_bytes 0, none))
answer_write t i r (some _) = (t, (status_bytes 22, none))

abbrev pub answer_read : Table → Option Record → Table × Response
answer_read t none = (t, (status_bytes 23, none))
answer_read t (some r) = (t, (status_bytes 0, some r))

abbrev pub answer : Statement → ℕ → Record → Table → Table × Response
answer Statement.write i r t = answer_write t i r (t.records i)
answer Statement.read i r t = answer_read t (t.records i)
answer Statement.delete i r t =
    if ltb i t.count
    then (with_record t i none, (status_bytes 0, none))
    else (t, (status_bytes 23, none))
answer Statement.rewrite i r t =
    if ltb i t.count
    then (with_record t i (with_bytes (t.records i) r.1), (status_bytes 0, none))
    else (t, (status_bytes 23, none))

unfoldable pub answers : List Request → Table → List Response
answers [] t = []
answers (q ∷ qs) t =
    let (t', response) = answer q.statement q.slot q.content t in response ∷ answers qs t'

-- The same statements on the file.
abbrev pub prepared : ℕ → Record → CobFile → CobFile
prepared i (n, bytes) f = record f { relative_key = some (pos (suc i)); record_data = bytes }

abbrev pub respond : Bool → Option CobFile → Option (CobFile × Response)
respond reads none = none
respond reads (some f) =
    let good = f.file_status.0 == b'0' in
    some (
      f,
      (
        f.file_status,
        if reads then (if good then some (f.size, f.record_data) else none) else none,
      ),
    )

module _ (host : Host) (keys sizes : KeyField) where
  unfoldable pub serve : Statement → ℕ → Record → CobFile → Option (CobFile × Response)
  serve Statement.write i r f =
      respond false (cob_write (relative_funcs host keys) (prepared i r f) r.0 0)
  serve Statement.rewrite i r f =
      respond false (cob_rewrite (relative_funcs host keys) (prepared i r f) r.0 0)
  serve Statement.delete i r f =
      respond false (cob_delete (relative_funcs host keys) (prepared i r f))
  serve Statement.read i r f =
      respond true (cob_read (relative_funcs host keys) sizes (prepared i r f) true false)

  unfoldable pub serve_all : List Request → CobFile → Option (List Response)
  serve_all [] f = some []
  serve_all (q ∷ qs) f = elim (serve q.statement q.slot q.content f) [
    | none ↦ none
    | some (f', response) ↦ elim (serve_all qs f') [
      | none ↦ none
      | some responses ↦ some (response ∷ responses)
    ]
  ]

-- A slot with size 0 is free.
abbrev pub entry : ℕ → List ℕ → Option Record
entry n bytes = if n == 0 then none else some (n, bytes)

-- What the file holds for a number.
unfoldable pub record_of : ℕ → Stream → ℕ → Option Record
record_of m s i = entry (slot_header m s i) (slot_bytes m s i)

-- The file is open for I-O with access by key and holds what the table says.
pub record Represents (f : CobFile) (t : Table) : Type 0 where
  pub s : Stream
  pub on_s : f.stream ≡ some s
  pub good : IsRelative f.record_max s
  pub counted : s.size ≡ slot_at f.record_max t.count
  pub holds : (i : ℕ) → record_of f.record_max s i ≡ t.records i
  pub by_key : f.access_mode ≢ access_sequential
  pub i_o : f.open_mode ≡ open_i_o
  pub kind : f.organization ≢ org_sequential
  pub there : f.flag_nonexistent ≡ false
  pub fixed : f.record_size ≡ none

-- A record that fits a file with records of `low` to `m` bytes: its size, and the bytes of the record
-- area. A file with one record description has `low` and `m` alike.
pub record IsFit (low m : ℕ) (r : Record) : Type 0 where
  pub some_size : 0 < r.0
  pub enough : low ≤ r.0
  pub fits : r.0 ≤ m
  pub width : length r.1 ≡ m
  pub word : m < 256 ^ word_size

abbrev pub AllFit : ℕ → ℕ → List Request → Type 0
AllFit low m [] = Unit
AllFit low m (q ∷ qs) = IsFit low m q.content × AllFit low m qs
