-- ===== src/Files/Safety.antt =====
-- The life of a file under any sequence of statements: a stream is used only between OPEN and CLOSE.
-- The functions of the organization are behind the interface `IsSound`, which those of a RELATIVE
-- file fill.
pub mod Invariant
pub mod Statements
pub mod Lifetime
pub mod Locked
use blitzy_open_cobol.Base.{
  ℕ, ◌≤◌, ◌<◌, ◌≡◌, ◌≢◌, ◌⊎◌, true, false, Bool, Option, none, some, List, [], ◌∷◌,
}
use blitzy_open_cobol.Base.Int.{ℤ}
use blitzy_open_cobol.Files.{
  CobFile, FileioFuncs, KeyField, Outcome, open_closed, open_locked, open_input, open_extend,
  close_lock,
}
use blitzy_open_cobol.Files.Plain.{Host, Fopen}
use blitzy_open_cobol.Files.Relative.Keeps.{has, modes, IsDefined, IsRelation}
use blitzy_open_cobol.Files.Verbs.{
  cob_open, cob_close, cob_start, cob_read, cob_write, cob_rewrite, cob_delete,
}

-- A function of the table that opens: it succeeds only with a stream.
abbrev pub IsOpened : CobFile → Outcome → Type 0
IsOpened f result =
    (g : CobFile) × (status : ℕ) × (result ≡ some (g, status))
    × (has g.relative_key ≡ has f.relative_key)
    × (modes g ≡ modes f)
    × (status ≡ 0 → has g.stream ≡ true)

-- The modes that closing leaves alone.
abbrev pub kept_modes : CobFile → ℕ × Bool × Bool
kept_modes f = (f.special, f.flag_optional, f.flag_nonexistent)

-- A function of the table that closes: it succeeds, or has closed the file itself, or leaves it open.
abbrev pub IsClosed : CobFile → Outcome → Type 0
IsClosed f result =
    (g : CobFile) × (status : ℕ) × (result ≡ some (g, status))
    × (has g.relative_key ≡ has f.relative_key)
    × (kept_modes g ≡ kept_modes f)
    × ((status ≡ 0)
        ⊎ ((status ≢ 0) × (g.open_mode ≡ open_closed))
        ⊎ ((status ≢ 0) × (g.open_mode ≡ f.open_mode) × (has g.stream ≡ true)))

-- A file that the functions of the table can work on.
pub record IsReady (f : CobFile) : Type 0 where
  pub stream : has f.stream ≡ true
  pub key : has f.relative_key ≡ true

-- What the statements rely on of the functions of an organization.
pub record IsSound (funcs : FileioFuncs) : Type 0 where
  pub opens :
      (f : CobFile) (name : List ℕ) (mode sharing : ℕ)
      → IsOpened f (funcs.open_file f name mode sharing)
  pub closes : (f : CobFile) (opt : ℕ) → IsReady f → IsClosed f (funcs.close f opt)
  pub starts :
      (f : CobFile) (cond : ℕ) → IsReady f → IsRelation cond → IsDefined f (funcs.start f cond)
  pub reads : (f : CobFile) → IsReady f → IsDefined f (funcs.read f)
  pub reads_next : (f : CobFile) → IsReady f → IsDefined f (funcs.read_next f)
  pub writes : (f : CobFile) (opt : ℕ) → IsReady f → IsDefined f (funcs.write f opt)
  pub rewrites : (f : CobFile) (opt : ℕ) → IsReady f → IsDefined f (funcs.rewrite f opt)
  pub deletes : (f : CobFile) → IsReady f → IsDefined f (funcs.fdelete f)

-- What a program does to a file: its statements, and in between it sets the record and the key.
pub data Action : Type 0 where
  open_as : List ℕ → ℕ → ℕ → Action
  close_as : ℕ → Action
  start_at : ℕ → Action
  read_as : Bool → Bool → Action
  write_as : ℕ → ℕ → Action
  rewrite_as : ℕ → ℕ → Action
  delete_record : Action
  set_record : List ℕ → ℤ → Action

module _ (funcs : FileioFuncs) (host : Host) (sizes : KeyField) where
  unfoldable pub act : Action → CobFile → Option CobFile
  act (Action.open_as name mode sharing) f = cob_open funcs host f name mode sharing
  act (Action.close_as opt) f = cob_close funcs f opt
  act (Action.start_at cond) f = cob_start funcs f cond
  act (Action.read_as keyed previous) f = cob_read funcs sizes f keyed previous
  act (Action.write_as size opt) f = cob_write funcs f size opt
  act (Action.rewrite_as size opt) f = cob_rewrite funcs f size opt
  act Action.delete_record f = cob_delete funcs f
  act (Action.set_record bytes key) f =
      some (record f { record_data = bytes; relative_key = some key })

  unfoldable pub act_all : List Action → CobFile → Option CobFile
  act_all [] f = some f
  act_all (a ∷ rest) f = elim (act a f) [ none ↦ none | some g ↦ act_all rest g ]

-- An action that does not lock the file on closing it, opens it in one of the four modes, and starts it
-- with a relation that is not NOT EQUAL.
abbrev pub IsPlain : Action → Type 0
IsPlain (Action.open_as name mode sharing) = (open_input ≤ mode) × (mode ≤ open_extend)
IsPlain (Action.close_as opt) = opt ≢ close_lock
IsPlain (Action.start_at cond) = IsRelation cond
IsPlain _ = Unit

abbrev pub AllPlain : List Action → Type 0
AllPlain [] = Unit
AllPlain (a ∷ rest) = IsPlain a × AllPlain rest

-- The state between two actions: a file that is not special and not OPTIONAL is closed, or has a
-- stream; it is not locked, and has a key field.
pub record IsSafe (f : CobFile) : Type 0 where
  pub key : has f.relative_key ≡ true
  pub ordinary : f.special ≡ 0
  pub not_optional : f.flag_optional ≡ false
  pub there : f.flag_nonexistent ≡ false
  pub not_locked : f.open_mode ≢ open_locked
  pub closed_or_stream : (f.open_mode ≡ open_closed) ⊎ (has f.stream ≡ true)
