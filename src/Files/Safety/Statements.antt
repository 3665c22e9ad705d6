-- ===== src/Files/Safety/Statements.antt =====
-- Each statement on a safe file is defined and keeps it safe.
use blitzy_open_cobol.Base.{
  ℕ, ◌≡◌, ◌≢◌, refl, inl, inr, true, false, Bool, some, List, ◌==◌, ◌||◌, arith, Bool-cases,
  if◌then◌else◌, not, ◌&&◌, ltb,
}
use blitzy_open_cobol.Files.{
  CobFile, FileioFuncs, KeyField, Outcome, saved, open_closed, open_locked, open_i_o, close_lock,
  open_output, open_extend, access_random, access_sequential, org_sequential,
}
use blitzy_open_cobol.Files.Plain.{Host}
use blitzy_open_cobol.Files.Relative.Keeps.{IsDefined, IsRelation}
use blitzy_open_cobol.Files.Safety.{IsSound, IsReady, IsOpened, IsSafe}
use blitzy_open_cobol.Files.Verbs.{
  open_named, opened, open_flags, enoent, eagain, eacces, eisdir, erofs, cob_close, closed,
  cob_start, started, cob_read, read_done, cob_write, cob_rewrite, cob_delete, write_size,
  output_denied, same_size,
}
use blitzy_open_cobol.Files.Safety.Invariant.{
  StaysSafe, same-IsSafe, refused, finished, open-IsReady, started-StaysSafe, read_done-StaysSafe,
  closed-StaysSafe, shut-IsSafe,
}

-- The status of an OPEN that fails, of a file that is not OPTIONAL.
abbrev failure : ℕ → ℕ → ℕ
failure mode ret =
    if ret == enoent
    then (if mode == open_extend || mode == open_output then 30 else 35)
    else if ret == eacces || ret == eisdir || ret == erofs
    then 37
    else if ret == eagain || ret == 61
    then 61
    else if ret == 91
    then 91
    else 30

opened-failed :
    (g : CobFile) (mode ret : ℕ) (was_not_exist : Bool)
    → g.flag_optional ≡ false
    → (ret == 0) ≡ false
    → opened mode was_not_exist (some (g, ret)) ≡ some (g, failure mode ret)
unfolding opened
opened-failed g mode ret was_not_exist strict failed = ground (arith, strict, failed)

-- What OPEN makes of what the function of the table returns.
opened-StaysSafe :
    (f : CobFile) (mode : ℕ) (was_not_exist : Bool) (result : Outcome)
    → IsSafe f
    → f.open_mode ≡ open_closed
    → mode ≢ open_locked
    → IsOpened f result
    → StaysSafe (saved (opened mode was_not_exist result))
unfolding opened
opened-StaysSafe f mode was_not_exist result safe shut plain
      (g, status, returns, key, same, stream) =
    elim (Bool-cases (status == 0)) [
      | inl good ↦
          let h : CobFile = record g { open_mode = mode } in
          let h-IsSafe : IsSafe h = record {
            key = ground (arith, safe.key, key);
            ordinary = ground (arith, safe.ordinary);
            not_optional = ground (arith, safe.not_optional);
            there = ground (arith, safe.there);
            not_locked = plain;
            closed_or_stream = inr (stream (ground arith));
          } in
          let which : ℕ = if g.flag_optional && was_not_exist then 5 else 0 in
          rw (returns, good, opened) (refused h h which h-IsSafe refl refl refl)
      | inr failed ↦
          let strict : g.flag_optional ≡ false = ground (arith, safe.not_optional) in
          rw (returns, opened-failed g mode status was_not_exist strict failed)
            (refused g g (failure mode status)
              (shut-IsSafe f g safe key (ground arith) (ground (arith, shut))) refl refl refl)
    ]

module _ (funcs : FileioFuncs) (sound : IsSound funcs) (host : Host) (sizes : KeyField)
    (f : CobFile) (safe : IsSafe f) where
  -- The file at the beginning of a statement.
  abbrev begun : CobFile
  begun = record f { flag_read_done = false }

  begun-IsSafe : IsSafe begun
  begun-IsSafe = same-IsSafe f begun safe safe.key refl safe.closed_or_stream

  pub cob_delete-StaysSafe : StaysSafe (cob_delete funcs f)
  unfolding cob_delete
  cob_delete-StaysSafe = elim (Bool-cases (f.open_mode == open_i_o)) [
    | inr denied ↦ rw (denied, cob_delete) (refused f begun 49 safe refl refl refl)
    | inl i_o ↦ elim (Bool-cases (f.access_mode == access_sequential && not f.flag_read_done)) [
      | inl unread ↦ rw (i_o, unread, cob_delete) (refused f begun 43 safe refl refl refl)
      | inr fine ↦
          rw (i_o, fine, cob_delete)
            (finished begun (funcs.fdelete begun) begun-IsSafe
              (sound.deletes begun (open-IsReady begun begun-IsSafe (ground arith))))
    ]
  ]

  pub cob_rewrite-StaysSafe : (size opt : ℕ) → StaysSafe (cob_rewrite funcs f size opt)
  unfolding cob_rewrite
  cob_rewrite-StaysSafe size opt = elim (Bool-cases (f.open_mode == open_i_o)) [
    | inr denied ↦ rw (denied, cob_rewrite) (refused f begun 49 safe refl refl refl)
    | inl i_o ↦ elim (Bool-cases (f.access_mode == access_sequential && not f.flag_read_done)) [
      | inl unread ↦ rw (i_o, unread, cob_rewrite) (refused f begun 43 safe refl refl refl)
      | inr fine ↦
          elim (Bool-cases (f.organization == org_sequential && not (same_size begun size))) [
            | inl longer ↦
                rw (i_o, fine, longer, cob_rewrite) (refused f begun 44 safe refl refl refl)
            | inr fits ↦
                rw (i_o, fine, fits, cob_rewrite)
                  (finished begun (funcs.rewrite begun opt) begun-IsSafe
                    (sound.rewrites begun opt (open-IsReady begun begun-IsSafe (ground arith))))
          ]
    ]
  ]

  pub cob_write-StaysSafe : (size opt : ℕ) → StaysSafe (cob_write funcs f size opt)
  unfolding cob_write
  cob_write-StaysSafe size opt =
      let n = write_size f.record_size size in
      let sized : CobFile = record begun { size = n } in
      let sized-IsSafe : IsSafe sized =
        same-IsSafe f sized safe safe.key refl safe.closed_or_stream in
      elim (Bool-cases (output_denied f)) [
        | inl denied ↦ rw (denied, cob_write) (refused f begun 48 safe refl refl refl)
        | inr allowed ↦ elim (Bool-cases (ltb n f.record_min || ltb f.record_max n)) [
          | inl longer ↦ rw (allowed, longer, cob_write) (refused f sized 44 safe refl refl refl)
          | inr fits ↦
              rw (allowed, fits, cob_write)
                (finished sized (funcs.write sized opt) sized-IsSafe
                  (sound.writes sized opt (open-IsReady sized sized-IsSafe (ground arith))))
        ]
      ]

  pub cob_start-StaysSafe : (cond : ℕ) → IsRelation cond → StaysSafe (cob_start funcs f cond)
  unfolding cob_start
  cob_start-StaysSafe cond relation =
      let first : CobFile = record f { flag_read_done = false; flag_first_read = 0 } in
      let first-IsSafe : IsSafe first =
        same-IsSafe f first safe safe.key refl safe.closed_or_stream in
      elim (Bool-cases (
        f.open_mode == open_closed
        || (f.open_mode == open_output
            || (f.open_mode == open_extend || f.access_mode == access_random)))) [
              | inl denied ↦
                  let e : cob_start funcs f cond ≡ saved (some (first, 47)) =
                    ground (arith, safe.there, denied) in
                  rw e (refused f first 47 safe refl refl refl)
              | inr allowed ↦
                  let e : cob_start funcs f cond ≡ started (funcs.start first cond) =
                    ground (arith, safe.there, allowed) in
                  rw e (
                    started-StaysSafe first (funcs.start first cond) first-IsSafe (
                      sound.starts first cond (open-IsReady first first-IsSafe (ground arith))
                        relation))
            ]

  pub cob_read-StaysSafe :
      (keyed previous : Bool) → StaysSafe (cob_read funcs sizes f keyed previous)
  unfolding cob_read
  cob_read-StaysSafe keyed previous =
      elim (Bool-cases
        (not keyed && (f.flag_end_of_file && not previous || f.flag_begin_of_file && previous))) [
          | inl at_end ↦
              let e : cob_read funcs sizes f keyed previous ≡ saved (some (begun, 46)) =
                ground (arith, safe.there, at_end) in
              rw e (refused f begun 46 safe refl refl refl)
          | inr more ↦
              elim (Bool-cases (
                f.open_mode == open_closed
                || (f.open_mode == open_output || f.open_mode == open_extend))) [
                  | inl denied ↦
                      let e : cob_read funcs sizes f keyed previous ≡ saved (some (begun, 47)) =
                        ground (arith, safe.there, more, denied) in
                      rw e (refused f begun 47 safe refl refl refl)
                  | inr allowed ↦
                      let ready = open-IsReady begun begun-IsSafe (ground arith) in
                      let e : cob_read funcs sizes f keyed previous
                          ≡ read_done sizes previous
                              (if keyed then funcs.read begun else funcs.read_next begun) =
                        ground (arith, safe.there, more, allowed) in
                      rw e (
                        read_done-StaysSafe sizes begun previous _ begun-IsSafe
                          (either keyed ready))
                ]
        ]
    where
      either :
          (keyed : Bool)
          → IsReady begun
          → IsDefined begun (if keyed then funcs.read begun else funcs.read_next begun)
      either true ready = sound.reads begun ready
      either false ready = sound.reads_next begun ready

  pub cob_close-StaysSafe : (opt : ℕ) → opt ≢ close_lock → StaysSafe (cob_close funcs f opt)
  unfolding cob_close
  cob_close-StaysSafe opt plain = elim (Bool-cases (f.open_mode == open_closed)) [
    | inl shut ↦
        let e : cob_close funcs f opt ≡ saved (some (begun, 42)) =
          ground (arith, safe.ordinary, shut) in
        rw e (refused f begun 42 safe refl refl refl)
    | inr in_use ↦
        let e : cob_close funcs f opt ≡ closed opt (funcs.close begun opt) =
          ground (arith, safe.ordinary, safe.there, in_use) in
        rw e (
          closed-StaysSafe begun opt (funcs.close begun opt) begun-IsSafe plain
            (sound.closes begun opt (open-IsReady begun begun-IsSafe in_use)))
  ]

  pub open_named-StaysSafe :
      (name : List ℕ) (mode sharing : ℕ)
      → mode ≢ open_locked
      → StaysSafe (open_named funcs host f name mode sharing)
  unfolding open_named
  open_named-StaysSafe name mode sharing plain = elim (Bool-cases (f.open_mode == open_closed)) [
    | inr in_use ↦
        let e : open_named funcs host f name mode sharing ≡ saved (some (begun, 41)) =
          ground (arith, safe.not_locked, in_use) in
        rw e (refused f begun 41 safe refl refl refl)
    | inl shut ↦
        let is_shut : f.open_mode ≡ open_closed = ground arith in
        elim (Bool-cases
          (host.missing name && (not (mode == open_output) && not f.flag_optional))) [
            | inl missing ↦
                let e : open_named funcs host f name mode sharing
                    ≡ saved (some (open_flags f mode, 35)) =
                  ground (arith, safe.ordinary, shut, missing) in
                rw e (refused-missing mode is_shut)
            | inr found ↦
                let e : open_named funcs host f name mode sharing
                    ≡ saved (
                        opened mode (host.missing name)
                          (funcs.open_file (open_flags f mode) name mode sharing)) =
                  ground (arith, safe.ordinary, shut, found) in
                rw e (
                  opened-StaysSafe (open_flags f mode) mode (host.missing name) _
                    (flags-IsSafe mode is_shut) (unfold open_flags in is_shut) plain
                    (sound.opens (open_flags f mode) name mode sharing))
          ]
  ]
    where
      flags-IsSafe : (mode : ℕ) → f.open_mode ≡ open_closed → IsSafe (open_flags f mode)
      flags-IsSafe mode is_shut =
          unfold open_flags in
          record {
            key = safe.key;
            ordinary = safe.ordinary;
            not_optional = safe.not_optional;
            there = refl;
            not_locked = safe.not_locked;
            closed_or_stream = inl is_shut;
          }

      refused-missing :
          (mode : ℕ) → f.open_mode ≡ open_closed → StaysSafe (saved (some (open_flags f mode, 35)))
      refused-missing mode is_shut =
          refused (open_flags f mode) (open_flags f mode) 35 (flags-IsSafe mode is_shut) refl refl
            refl
