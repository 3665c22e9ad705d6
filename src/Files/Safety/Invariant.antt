-- ===== src/Files/Safety/Invariant.antt =====
-- Each action of a program keeps the file in a safe state and is defined.
use blitzy_open_cobol.Base.Int.{ℤ}
use blitzy_open_cobol.Base.{
  ℕ, ◌≡◌, ◌≢◌, refl, ◌⊎◌, inl, inr, true, false, Bool, Option, none, some, ◌==◌, arith, Bool-cases,
  if◌then◌else◌,
}
use blitzy_open_cobol.Files.{
  CobFile, KeyField, Outcome, save_status, saved, open_closed, open_locked, close_lock,
}
use blitzy_open_cobol.Files.Relative.Keeps.{has, modes, IsDefined}
use blitzy_open_cobol.Files.Safety.{IsReady, IsClosed, kept_modes, IsSafe}
use blitzy_open_cobol.Files.Verbs.{closed, started, read_done, sized}

-- A step is defined and ends in a safe state.
abbrev pub StaysSafe : Option CobFile → Type 0
StaysSafe result = (g : CobFile) × (result ≡ some g) × IsSafe g

-- What a statement may change of a safe file and keep it safe.
pub same-IsSafe :
    (f g : CobFile)
    → IsSafe f
    → has g.relative_key ≡ true
    → modes g ≡ modes f
    → ((f.open_mode ≡ open_closed) ⊎ (has g.stream ≡ true))
    → IsSafe g
same-IsSafe f g safe key same usable = record {
  key = key;
  ordinary = ground (arith, safe.ordinary);
  not_optional = ground (arith, safe.not_optional);
  there = ground (arith, safe.there);
  not_locked = λ e. safe.not_locked (ground arith);
  closed_or_stream = elim usable [ inl e ↦ inl (ground arith) | inr h ↦ inr h ];
}

pub save_status-IsSafe : (f : CobFile) (status : ℕ) → IsSafe f → IsSafe (save_status f status)
unfolding save_status
save_status-IsSafe f status safe = elim (Bool-cases (status == 0)) [
  | inl good ↦ rw good (record {
    key = safe.key;
    ordinary = safe.ordinary;
    not_optional = safe.not_optional;
    there = safe.there;
    not_locked = safe.not_locked;
    closed_or_stream = safe.closed_or_stream;
  })
  | inr bad ↦ rw bad (record {
    key = safe.key;
    ordinary = safe.ordinary;
    not_optional = safe.not_optional;
    there = safe.there;
    not_locked = safe.not_locked;
    closed_or_stream = safe.closed_or_stream;
  })
]

-- A refusal, and what a function of the table returns, saved.
pub refused :
    (f g : CobFile) (status : ℕ)
    → IsSafe f
    → g.relative_key ≡ f.relative_key
    → modes g ≡ modes f
    → g.stream ≡ f.stream
    → StaysSafe (saved (some (g, status)))
unfolding saved
refused f g status safe key same stream = (
  save_status g status,
  refl,
  save_status-IsSafe g status (
      same-IsSafe f g safe (ground (arith, safe.key, key)) same
        (elim safe.closed_or_stream [ inl e ↦ inl e | inr h ↦ inr (rw stream h) ])),
)

pub finished :
    (f : CobFile) (result : Outcome) → IsSafe f → IsDefined f result → StaysSafe (saved result)
unfolding saved
finished f result safe (g, status, returns, (stream, key, same)) = (
  save_status g status,
  rw returns refl,
  save_status-IsSafe g status
      (same-IsSafe f g safe (ground (arith, safe.key, key)) same (inr stream)),
)

pub open-IsReady : (f : CobFile) → IsSafe f → (f.open_mode == open_closed) ≡ false → IsReady f
open-IsReady f safe in_use = elim safe.closed_or_stream [
  | inl shut ↦ absurd (ground (arith, shut, in_use))
  | inr stream ↦ record { stream = stream; key = safe.key }
]

-- A result that keeps the file safe, with other flags.
pub flagged :
    (f g h : CobFile) (status : ℕ)
    → IsSafe f
    → (has g.stream ≡ true) × (has g.relative_key ≡ has f.relative_key) × (modes g ≡ modes f)
    → h.relative_key ≡ g.relative_key
    → modes h ≡ modes g
    → h.stream ≡ g.stream
    → StaysSafe (saved (some (h, status)))
flagged f g h status safe (stream, key, same) key' same' stream' =
    refused g h status (same-IsSafe f g safe (ground (arith, safe.key, key)) same (inr stream)) key'
      same' stream'

pub started-StaysSafe :
    (f : CobFile) (result : Outcome) → IsSafe f → IsDefined f result → StaysSafe (started result)
unfolding started
started-StaysSafe f result safe (g, status, returns, keeps) = elim (Bool-cases (status == 0)) [
  | inl good ↦ rw (returns, good, started) (flagged f g _ 0 safe keeps refl refl refl)
  | inr bad ↦ rw (returns, bad, started) (flagged f g g status safe keeps refl refl refl)
]

sized-StaysSafe :
    (sizes : KeyField) (f g : CobFile) (n : Option ℤ)
    → IsSafe f
    → (has g.stream ≡ true) × (has g.relative_key ≡ has f.relative_key) × (modes g ≡ modes f)
    → StaysSafe (saved (some (sized sizes g n, 0)))
sized-StaysSafe sizes f g none safe keeps = flagged f g g 0 safe keeps refl refl refl
sized-StaysSafe sizes f g (some n) safe keeps = elim (Bool-cases (g.organization == 1)) [
  | inl line ↦ rw line (flagged f g g 0 safe keeps refl refl refl)
  | inr other ↦ rw other (flagged f g _ 0 safe keeps refl refl refl)
]

pub read_done-StaysSafe :
    (sizes : KeyField) (f : CobFile) (previous : Bool) (result : Outcome)
    → IsSafe f
    → IsDefined f result
    → StaysSafe (read_done sizes previous result)
unfolding read_done
read_done-StaysSafe sizes f previous result safe (g, status, returns, keeps) =
    elim (Bool-cases (status == 0)) [
      | inl good ↦
          rw (returns, good, read_done) (sized-StaysSafe sizes f _ g.record_size safe keeps)
      | inr bad ↦ elim (Bool-cases (status == 10)) [
        | inl at_end ↦
            rw (returns, bad, at_end, read_done)
              (flagged f g
                (if previous
                  then record g { flag_begin_of_file = true }
                  else record g { flag_end_of_file = true })
                10 safe keeps (ground arith) (ground arith) (ground arith))
        | inr other ↦
            rw (returns, bad, other, read_done) (flagged f g g status safe keeps refl refl refl)
      ]
    ]

pub shut-IsSafe :
    (f g : CobFile)
    → IsSafe f
    → has g.relative_key ≡ has f.relative_key
    → kept_modes g ≡ kept_modes f
    → g.open_mode ≡ open_closed
    → IsSafe g
shut-IsSafe f g safe key same shut = record {
  key = ground (arith, safe.key, key);
  ordinary = ground (arith, safe.ordinary);
  not_optional = ground (arith, safe.not_optional);
  there = ground (arith, safe.there);
  not_locked = λ e. absurd (ground (arith, e, shut));
  closed_or_stream = inl shut;
}

pub closed-StaysSafe :
    (f : CobFile) (opt : ℕ) (result : Outcome)
    → IsSafe f
    → opt ≢ close_lock
    → IsClosed f result
    → StaysSafe (closed opt result)
unfolding closed
closed-StaysSafe f opt result safe plain (g, status, returns, key, same, how) =
    elim (Bool-cases (status == 0)) [
      | inl good ↦
          let shut : CobFile = record g {
            open_mode = if opt == close_lock then open_locked else open_closed;
          } in
          let is_shut : shut.open_mode ≡ open_closed = ground arith in
          rw (returns, good, closed)
            (refused shut shut 0 (shut-IsSafe f shut safe key same is_shut) refl refl refl)
      | inr failed ↦
          rw (returns, failed, closed) (refused g g status (after failed how) refl refl refl)
    ]
  where
    after :
        (status == 0) ≡ false
        → ((status ≡ 0)
            ⊎ ((status ≢ 0) × (g.open_mode ≡ open_closed))
            ⊎ ((status ≢ 0) × (g.open_mode ≡ f.open_mode) × (has g.stream ≡ true)))
        → IsSafe g
    after failed (inl good) = absurd (ground (arith, failed, good))
    after failed (inr (inl (_, shut))) = shut-IsSafe f g safe key same shut
    after failed (inr (inr (_, mode, stream))) =
        same-IsSafe f g safe (ground (arith, safe.key, key)) (ground arith) (inr stream)
