-- ===== src/Files/Safety/Lifetime.antt =====
-- A RELATIVE file over the whole run of a program, and OPTIONAL files, where a program gets to use a
-- stream that is not there.
use blitzy_open_cobol.Base.{
  ℕ, ◌≤◌, ◌≡◌, ◌≢◌, refl, inl, inr, true, false, Bool, none, some, List, [], ◌∷◌, ◌==◌, arith,
  Bool-cases, Option-cases, if◌then◌else◌, not, ◌&&◌, ◌||◌, starts_with, leb,
}
use blitzy_open_cobol.Files.{
  CobFile, FileioFuncs, KeyField, save_status, saved, status_exception, open_output, open_extend,
  close_no_rewind, org_line_sequential, open_closed, open_i_o, access_sequential,
}
use blitzy_open_cobol.Files.Plain.{
  Host, Fopen, FopenMode, fopen_mode, locked_stream, dev_prefix, cob_file_open, cob_file_close,
}
use blitzy_open_cobol.Files.Stdio.{fwrite}
use blitzy_open_cobol.Files.Relative.{relative_funcs, relative_write}
use blitzy_open_cobol.Files.Relative.Defined.{
  relative_start-Defined, relative_read-Defined, relative_read_next-Defined, relative_write-Defined,
  relative_rewrite-Defined, relative_delete-Defined,
}
use blitzy_open_cobol.Files.Safety.{
  IsSound, IsReady, IsOpened, IsClosed, Action, act, act_all, IsPlain, AllPlain, IsSafe,
}
use blitzy_open_cobol.Files.Safety.Invariant.{StaysSafe}
use blitzy_open_cobol.Files.Safety.Statements.{
  open_named-StaysSafe, cob_close-StaysSafe, cob_start-StaysSafe, cob_read-StaysSafe,
  cob_write-StaysSafe, cob_rewrite-StaysSafe, cob_delete-StaysSafe,
}
use blitzy_open_cobol.Files.Verbs.{
  file_open_name, open_named, cob_open, opened, open_flags, cob_write, enoent,
}

-- The errno of a call that failed is not 0.
pub record IsHost (host : Host) : Type 0 where
  pub open_errno :
      (name : List ℕ) (mode : FopenMode) (e : ℕ) → host.fopen name mode ≡ Fopen.errno_of e → e ≢ 0
  pub lock_errno :
      (name : List ℕ) (write : Bool) (e : ℕ) → host.lock_refused name write ≡ some e → e ≢ 0

locked_stream-IsOpened :
    (host : Host)
    → IsHost host
    → (f : CobFile) (name : List ℕ) (mode sharing : ℕ) (r : Fopen)
    → ((e : ℕ) → r ≡ Fopen.errno_of e → e ≢ 0)
    → IsOpened f (some (locked_stream host f name mode sharing r))
unfolding locked_stream
locked_stream-IsOpened host law f name mode sharing (Fopen.errno_of e) failed =
    (f, e, refl, refl, refl, λ good. absurd (failed e refl good))
locked_stream-IsOpened host law f name mode sharing (Fopen.stream_of s) failed =
    let write : Bool = not (sharing == 0) || mode == open_output in
    elim (Option-cases
      (if starts_with dev_prefix name then none else host.lock_refused name write)) [
        | inl free ↦ (
          record f {
            stream = some (if mode == open_extend then record s { position = s.size } else s);
          },
          0,
          ground (arith, free),
          refl,
          refl,
          λ _. refl,
        )
        | inr (e, refused) ↦ (
          f,
          e,
          ground (arith, refused),
          refl,
          refl,
          λ good. absurd (law.lock_errno name write e (ground (arith, refused)) good),
        )
      ]

cob_file_open-IsOpened :
    (host : Host)
    → IsHost host
    → (f : CobFile) (name : List ℕ) (mode sharing : ℕ)
    → IsOpened f (cob_file_open host f name mode sharing)
unfolding cob_file_open
cob_file_open-IsOpened host law f name mode sharing =
    locked_stream-IsOpened host law f name mode sharing _
      (law.open_errno name (fopen_mode f.organization mode))

cob_file_close-IsClosed : (f : CobFile) (opt : ℕ) → IsReady f → IsClosed f (cob_file_close f opt)
unfolding cob_file_close
cob_file_close-IsClosed f opt ready = elim (Option-cases f.stream) [
  | inl no_stream ↦ absurd (ground (arith, no_stream, ready.stream))
  | inr (s, there) ↦
      let needs_nl : Bool = f.organization == org_line_sequential && f.flag_needs_nl in
      let g : CobFile = record f {
        flag_needs_nl = if needs_nl then false else f.flag_needs_nl;
        stream = none;
        on_disk = some (if needs_nl then (fwrite (b'\n' ∷ []) s).1 else s);
      } in
      elim (Bool-cases (leb opt close_no_rewind)) [
        | inl whole ↦ elim (Bool-cases (opt == close_no_rewind)) [
          | inl kept ↦ (
            record g { open_mode = open_closed },
            7,
            ground (arith, there, kept),
            refl,
            refl,
            inr (inl (omega arith, refl)),
          )
          | inr done ↦ (g, 0, ground (arith, there, whole, done), refl, refl, inl refl)
        ]
        | inr unit ↦ (
          f,
          7,
          ground (arith, there, unit),
          refl,
          refl,
          inr (inr (omega arith, refl, ready.stream)),
        )
      ]
]

-- The functions of a RELATIVE file fill the interface.
relative_funcs-IsSound :
    (host : Host) (keys : KeyField) → IsHost host → IsSound (relative_funcs host keys)
relative_funcs-IsSound host keys law = record {
  opens = cob_file_open-IsOpened host law;
  closes = cob_file_close-IsClosed;
  starts =
      λ f cond ready relation. relative_start-Defined keys f ready.stream ready.key cond relation;
  reads = λ f ready. relative_read-Defined keys f ready.stream ready.key;
  reads_next = λ f ready. relative_read_next-Defined keys f ready.stream ready.key;
  writes = λ f opt ready. relative_write-Defined keys f ready.stream ready.key opt;
  rewrites = λ f opt ready. relative_rewrite-Defined keys f ready.stream ready.key opt;
  deletes = λ f ready. relative_delete-Defined keys f ready.stream ready.key;
}

module _ (funcs : FileioFuncs) (sound : IsSound funcs) (host : Host) (sizes : KeyField) where
  act-StaysSafe :
      (a : Action) (f : CobFile) → IsSafe f → IsPlain a → StaysSafe (act funcs host sizes a f)
  unfolding act cob_open
  act-StaysSafe (Action.open_as name mode sharing) f safe plain =
      open_named-StaysSafe funcs sound host sizes f safe (file_open_name host name) mode sharing
        (omega arith)
  act-StaysSafe (Action.close_as opt) f safe plain =
      cob_close-StaysSafe funcs sound host sizes f safe opt plain
  act-StaysSafe (Action.start_at cond) f safe plain =
      cob_start-StaysSafe funcs sound host sizes f safe cond plain
  act-StaysSafe (Action.read_as keyed previous) f safe plain =
      cob_read-StaysSafe funcs sound host sizes f safe keyed previous
  act-StaysSafe (Action.write_as size opt) f safe plain =
      cob_write-StaysSafe funcs sound host sizes f safe size opt
  act-StaysSafe (Action.rewrite_as size opt) f safe plain =
      cob_rewrite-StaysSafe funcs sound host sizes f safe size opt
  act-StaysSafe Action.delete_record f safe plain =
      cob_delete-StaysSafe funcs sound host sizes f safe
  act-StaysSafe (Action.set_record bytes key) f safe plain = (
    record f { record_data = bytes; relative_key = some key },
    refl,
    record {
      key = refl;
      ordinary = safe.ordinary;
      not_optional = safe.not_optional;
      there = safe.there;
      not_locked = safe.not_locked;
      closed_or_stream = safe.closed_or_stream;
    },
  )

  act_all-StaysSafe :
      (actions : List Action) (f : CobFile)
      → IsSafe f
      → AllPlain actions
      → StaysSafe (act_all funcs host sizes actions f)
  unfolding act_all
  act_all-StaysSafe [] f safe plain = (f, refl, safe)
  act_all-StaysSafe (a ∷ rest) f safe (plain, later) =
      let (g, done, good) = act-StaysSafe a f safe plain in
      let (h, all_done, still) = act_all-StaysSafe rest g good later in
      (h, ground (arith, done, all_done), still)

-- Any sequence of statements on a RELATIVE file that is not OPTIONAL and is not closed WITH LOCK, in
-- any order and with any records and keys in between, is defined: each statement ends, and none uses
-- a stream that is not open. START has one of the relations EQUAL, LESS, NOT GREATER, GREATER and NOT
-- LESS. A key field is there.
pub relative_actions-StaysSafe :
    (host : Host) (keys sizes : KeyField) (actions : List Action) (f : CobFile)
    → IsHost host
    → IsSafe f
    → AllPlain actions
    → StaysSafe (act_all (relative_funcs host keys) host sizes actions f)
relative_actions-StaysSafe host keys sizes actions f law safe plain =
    act_all-StaysSafe (relative_funcs host keys) (relative_funcs-IsSound host keys law) host sizes
      actions f safe plain

-- OPEN I-O of an OPTIONAL file that is not there, with access by key, succeeds with the status 05, and
-- a WRITE after it uses the null stream.
pub optional-undefined :
    (host : Host) (keys : KeyField) (f : CobFile) (name : List ℕ) (sharing rec_size opt : ℕ)
    → host.missing (file_open_name host name) ≡ true
    → host.fopen (file_open_name host name) FopenMode.mode_r_plus ≡ Fopen.errno_of enoent
    → f.flag_optional ≡ true
    → f.open_mode ≡ open_closed
    → f.stream ≡ none
    → f.special ≡ 0
    → f.access_mode ≢ access_sequential
    → f.record_size ≡ none
    → f.record_min ≤ rec_size
    → rec_size ≤ f.record_max
    → (g : CobFile) × (cob_open (relative_funcs host keys) host f name open_i_o sharing ≡ some g)
      × (g.file_status ≡ (b'0', b'5'))
      × (cob_write (relative_funcs host keys) g rec_size opt ≡ none)
optional-undefined host keys f name sharing rec_size opt missing no_file optional shut no_stream
      ordinary by_key fixed low high =
    let g : CobFile = record f {
      flag_read_done = false;
      last_open_mode = open_i_o;
      flag_nonexistent = true;
      flag_end_of_file = true;
      flag_begin_of_file = true;
      flag_first_read = 2;
      open_mode = open_i_o;
      file_status = (b'0', b'5');
      exception = none;
    } in
    (
      g,
      unfold cob_open open_named opened open_flags saved save_status status_exception cob_file_open
            locked_stream fopen_mode in
          ground (arith, missing, no_file, optional, shut, ordinary, no_stream),
      refl,
      unfold cob_write saved relative_write in ground (arith, no_stream, by_key, fixed, low, high),
    )
