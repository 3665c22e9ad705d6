-- ===== src/Files/Examples.antt =====
-- Tests of the statements on a small RELATIVE file, and the theorems at inputs that meet their
-- hypotheses.
use blitzy_open_cobol.Base.{
  ℕ, ◌%◌, ◌≤◌, ◌≡◌, refl, true, false, Option, none, some, List, [], ◌∷◌, ◌==◌, ltb, inl, arith,
  if◌then◌else◌,
}
use blitzy_open_cobol.Base.Int.{pos, ◌+ℤ◌, abs, pos_part}
use blitzy_open_cobol.Files.{CobFile, KeyField, open_i_o, open_closed, org_relative, cond_ge}
use blitzy_open_cobol.Files.Names.{map_file_name, expand, variable_name}
use blitzy_open_cobol.Files.Plain.{Host, Fopen}
use blitzy_open_cobol.Files.Stdio.{Stream}
use blitzy_open_cobol.Files.Verbs.{cob_open, cob_close, cob_read, cob_write}
use blitzy_open_cobol.Files.Relative.{relative_funcs, start_slot, next_slot}
use blitzy_open_cobol.Files.Relative.Slots.{IsUpdatable, IsSlotFile, content, slot_header-beyond}
use blitzy_open_cobol.Files.Relative.Forward.{IsStarted, start_slot-IsNext}
use blitzy_open_cobol.Files.Relative.ReadNext.{IsRead, next_slot-IsRead}
use blitzy_open_cobol.Files.Relative.Table.{
  Table, Statement, Request, Represents, IsFit, answers, serve_all, record_of, status_bytes,
}
use blitzy_open_cobol.Files.Relative.Refinement.{serve_all-answers}
use blitzy_open_cobol.Files.Relative.Lost.{lost, delete-rewrite_lost}
use blitzy_open_cobol.Files.Safety.{Action, act_all}
use blitzy_open_cobol.Files.Safety.Invariant.{StaysSafe}
use blitzy_open_cobol.Files.Safety.Lifetime.{IsHost, relative_actions-StaysSafe, optional-undefined}
use blitzy_open_cobol.Files.Safety.Locked.{Organization, reading_next, locked-undefined}

-- A key field PIC 999.
abbrev keys : KeyField
keys = record {
  set_int = λ z. pos (abs z % 1000);
  add_int = λ a b. if ltb (pos_part (a +ℤ b)) 1000 then some (a +ℤ b) else none;
}

-- A file with records of at most two bytes: no slots, and two slots of which the second has "AB".
abbrev stream_of_bytes : (ℕ → ℕ) → ℕ → Stream
stream_of_bytes byte size = record {
  byte = byte;
  size = size;
  position = 0;
  readable = true;
  writable = true;
  append = false;
  broken = false;
  ferror = false;
}

abbrev empty_stream : Stream
empty_stream = stream_of_bytes (λ i. 0) 0

abbrev second_bytes : ℕ → ℕ
second_bytes i = if i == 10 then 2 else if i == 18 then b'A' else if i == 19 then b'B' else 0

abbrev second_stream : Stream
second_stream = stream_of_bytes second_bytes 20

abbrev file_on : Option Stream → ℕ → CobFile
file_on stream mode = record {
  organization = org_relative;
  access_mode = 2;
  open_mode = mode;
  last_open_mode = mode;
  special = 0;
  flag_optional = false;
  flag_nonexistent = false;
  flag_end_of_file = false;
  flag_begin_of_file = false;
  flag_first_read = 0;
  flag_read_done = false;
  flag_needs_nl = false;
  record_min = 2;
  record_max = 2;
  size = 2;
  record_data = b'A' ∷ b'B' ∷ [];
  record_size = none;
  relative_key = some (pos 1);
  file_status = (b'0', b'0');
  exception = none;
  stream = stream;
  on_disk = none;
}

abbrev host : Host
host = record {
  getenv = λ name. none;
  flag_filename_mapping = false;
  cob_file_path = none;
  missing = λ name. true;
  fopen = λ name mode. Fopen.errno_of 2;
  lock_refused = λ name write. none;
  stdin = empty_stream;
  stdout = empty_stream;
}

updatable : (byte : ℕ → ℕ) (n : ℕ) → IsUpdatable (stream_of_bytes byte n)
updatable byte n = record { may_read = refl; may_write = refl; in_place = refl; in_order = refl }

abbrev no_records : Table
no_records = record { records = λ i. none; count = 0 }

empty_file-Represents : Represents (file_on (some empty_stream) open_i_o) no_records
empty_file-Represents = record {
  s = empty_stream;
  on_s = refl;
  good = record { updatable = updatable (λ i. 0) 0; slotted = (0, refl) };
  counted = refl;
  holds = λ i. unfold record_of in rw (slot_header-beyond 2 empty_stream i (omega arith)) refl;
  by_key = λ e. absurd (omega arith);
  i_o = refl;
  kind = λ e. absurd (omega arith);
  there = refl;
  fixed = refl;
}

abbrev letters : ℕ × List ℕ
letters = (2, b'A' ∷ b'B' ∷ [])

letters-IsFit : IsFit 2 2 letters
letters-IsFit = record {
  enough = omega arith;
  some_size = omega arith;
  fits = omega arith;
  width = refl;
  word = omega arith;
}

abbrev some_requests : List Request
some_requests =
    record { statement = Statement.write; slot = 3; content = letters }
    ∷ record { statement = Statement.read; slot = 3; content = letters }
    ∷ record { statement = Statement.read; slot = 2; content = letters }
    ∷ []

serve_all-answers_example :
    serve_all host keys keys some_requests (file_on (some empty_stream) open_i_o)
    ≡ some (answers some_requests no_records)
serve_all-answers_example =
    serve_all-answers host keys keys some_requests (file_on (some empty_stream) open_i_o) no_records
      empty_file-Represents (letters-IsFit, (letters-IsFit, (letters-IsFit, tt)))

three_responses :
    answers some_requests no_records
    ≡ (status_bytes 0, none) ∷ (status_bytes 0, some letters) ∷ (status_bytes 23, none) ∷ []
unfolding answers
three_responses = refl

second_file-Represents :
    Represents
      (file_on (some second_stream) open_i_o)
      (record { records = record_of 2 second_stream; count = 2 })
second_file-Represents = record {
  s = second_stream;
  on_s = refl;
  good = record { updatable = updatable second_bytes 20; slotted = (2, refl) };
  counted = refl;
  holds = λ i. refl;
  by_key = λ e. absurd (omega arith);
  i_o = refl;
  kind = λ e. absurd (omega arith);
  there = refl;
  fixed = refl;
}

-- DELETE again, REWRITE and READ of the second record.
abbrev second : Statement → Request
second verb = record { statement = verb; slot = 1; content = letters }

abbrev changes : List Request
changes = second Statement.delete ∷ second Statement.rewrite ∷ second Statement.read ∷ []

delete-rewrite_lost_example :
    serve_all host keys keys
      (second Statement.delete ∷ changes)
      (file_on (some second_stream) open_i_o)
    ≡ some ((status_bytes 0, none) ∷ lost changes)
delete-rewrite_lost_example =
    delete-rewrite_lost host keys keys (file_on (some second_stream) open_i_o)
      (record { records = record_of 2 second_stream; count = 2 }) 1 letters changes
      second_file-Represents (letters-IsFit, (letters-IsFit, (letters-IsFit, (letters-IsFit, tt))))
      (omega arith) ((refl, tt, (refl, tt, (refl, tt, tt))))

second-IsSlotFile : IsSlotFile 2 second_stream
second-IsSlotFile = record {
  readable = record { may_read = refl; in_order = refl };
  slotted = (2, refl);
}

start_slot-IsNext_example :
    IsStarted keys
      (file_on (some second_stream) open_i_o)
      second_stream
      0
      (start_slot keys cond_ge (file_on (some second_stream) open_i_o) second_stream (pos 1))
start_slot-IsNext_example =
    start_slot-IsNext keys cond_ge (file_on (some second_stream) open_i_o) second_stream 0
      (inl refl) second-IsSlotFile

next_slot-IsRead_example :
    IsRead 2 second_stream 0 (next_slot keys (file_on (some second_stream) open_i_o) second_stream)
next_slot-IsRead_example =
    next_slot-IsRead keys (file_on (some second_stream) open_i_o) second_stream 0 2 (pos 1)
      second-IsSlotFile refl refl refl keys-IsWide refl refl (omega arith)
  where
    keys-IsWide : (n : ℕ) → n ≤ 2 → keys.add_int (keys.set_int (pos 0)) (pos n) ≡ some (pos n)
    keys-IsWide n below = unfold ◌+ℤ◌ in ground arith

abbrev some_actions : List Action
some_actions =
    Action.open_as (b'F' ∷ []) 3 0
    ∷ Action.write_as 2 0
    ∷ Action.read_as true false
    ∷ Action.close_as 0
    ∷ Action.read_as true false
    ∷ []

abbrev good_host : Host
good_host = record host {
  missing = λ name. false;
  fopen = λ name mode. Fopen.stream_of empty_stream;
}

good_host-IsHost : IsHost good_host
good_host-IsHost = record {
  open_errno = λ name mode e h. absurd (never e h);
  lock_errno = λ name write e h. absurd (ground (arith, h));
}
  where
    never : (e : ℕ) → Fopen.stream_of empty_stream ≡ Fopen.errno_of e → ⊥
    never e h = cc

relative_actions-StaysSafe_example :
    StaysSafe (
      act_all
        (relative_funcs good_host keys)
        good_host
        keys
        some_actions
        (file_on none open_closed))
relative_actions-StaysSafe_example =
    relative_actions-StaysSafe good_host keys keys some_actions (file_on none open_closed)
      good_host-IsHost
      (record {
        key = refl;
        ordinary = refl;
        not_optional = refl;
        there = refl;
        not_locked = λ e. absurd (omega arith);
        closed_or_stream = inl refl;
      })
      ((omega arith, omega arith), (tt, (tt, ((λ e. absurd (omega arith)), (tt, tt)))))

locked-undefined_example :
    (g : CobFile) × (cob_close (relative_funcs host keys) (file_on (some second_stream) open_i_o) 1
      ≡ some g)
    × (g.file_status ≡ (b'0', b'0'))
    × (cob_read (relative_funcs host keys) keys g false false ≡ none)
    × (cob_close (relative_funcs host keys) g 0 ≡ none)
locked-undefined_example =
    locked-undefined host keys (Organization.relative keys) (file_on (some second_stream) open_i_o)
      second_stream false 0 refl refl refl (λ e. absurd (omega arith)) (reading_next refl)

abbrev optional_file : CobFile
optional_file = record (file_on none open_closed) { flag_optional = true }

optional-undefined_example :
    (g : CobFile) × (cob_open (relative_funcs host keys) host optional_file (b'F' ∷ []) open_i_o 0
      ≡ some g)
    × (g.file_status ≡ (b'0', b'5'))
    × (cob_write (relative_funcs host keys) g 2 0 ≡ none)
optional-undefined_example =
    optional-undefined host keys optional_file (b'F' ∷ []) 0 2 0 refl refl refl refl refl refl
      (λ e. absurd (omega arith)) refl (omega arith) (omega arith)

-- "$D-x/f" with D set to "/t": the `-` ends the name of the variable.
abbrev dir_env : List ℕ → Option (List ℕ)
dir_env (c ∷ []) = if c == b'D' then some (b'/' ∷ b't' ∷ []) else none
dir_env _ = none

expanded_name :
    map_file_name dir_env true none (b'$' ∷ b'D' ∷ b'-' ∷ b'x' ∷ b'/' ∷ b'f' ∷ [])
    ≡ b'/' ∷ b't' ∷ b'-' ∷ b'x' ∷ b'/' ∷ b'f' ∷ []
unfolding map_file_name expand variable_name
expanded_name = refl
