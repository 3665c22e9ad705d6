-- ===== src/Files/Safety/Locked.antt =====
-- The statements after a CLOSE WITH LOCK, which keeps no trace that the stream is closed: `cob_read` and
-- `cob_close` do not ask for the mode that it leaves.
use blitzy_open_cobol.Base.{
  ℕ, ◌≡◌, ◌≢◌, refl, true, false, Bool, none, some, [], ◌∷◌, ◌==◌, arith, if◌then◌else◌, ◌&&◌,
}
use blitzy_open_cobol.Files.{
  CobFile, FileioFuncs, KeyField, save_status, saved, org_line_sequential, open_closed, open_locked,
  close_lock,
}
use blitzy_open_cobol.Files.Plain.{Host, cob_file_close}
use blitzy_open_cobol.Files.Stdio.{Stream, fwrite}
use blitzy_open_cobol.Files.Relative.{relative_funcs, relative_read, relative_read_next}
use blitzy_open_cobol.Files.Sequential.{sequential_funcs, sequential_read}
use blitzy_open_cobol.Files.LineSequential.{lineseq_funcs, lineseq_read}
use blitzy_open_cobol.Files.Verbs.{cob_close, closed, cob_read, read_done}

-- The organizations other than INDEXED, with what their functions take.
pub data Organization : Type 0 where
  sequential : Organization
  line_sequential : Bool → Bool → Organization
  relative : KeyField → Organization

abbrev pub funcs_of : Host → KeyField → Organization → FileioFuncs
funcs_of host sizes Organization.sequential = sequential_funcs host
funcs_of host sizes (Organization.line_sequential nulls fixed) =
    lineseq_funcs host sizes nulls fixed
funcs_of host sizes (Organization.relative keys) = relative_funcs host keys

-- Only a RELATIVE file is read by key; READ NEXT past the end of the file is refused.
pub data IsReading (f : CobFile) : Organization → Bool → Type 0 where
  reading_next : {o : Organization} → f.flag_end_of_file ≡ false → IsReading f o false
  reading_key : {keys : KeyField} → IsReading f (Organization.relative keys) true

module _ (host : Host) (sizes : KeyField) where
  -- What CLOSE WITH LOCK leaves of a file with a stream.
  left_locked : CobFile → Stream → CobFile
  left_locked f s =
      let needs_nl = f.organization == org_line_sequential && f.flag_needs_nl in
      record f {
        flag_read_done = false;
        flag_needs_nl = if needs_nl then false else f.flag_needs_nl;
        stream = none;
        on_disk = some (if needs_nl then (fwrite (b'\n' ∷ []) s).1 else s);
        open_mode = open_locked;
        file_status = (b'0', b'0');
        exception = none;
      }

  close-left_locked :
      (o : Organization) (f : CobFile) (s : Stream)
      → f.stream ≡ some s
      → f.special ≡ 0
      → f.flag_nonexistent ≡ false
      → f.open_mode ≢ open_closed
      → cob_close (funcs_of host sizes o) f close_lock ≡ some (left_locked f s)
  unfolding left_locked cob_close closed saved save_status cob_file_close
  close-left_locked Organization.sequential f s at ordinary there in_use =
      ground (arith, at, ordinary, there, in_use)
  close-left_locked (Organization.line_sequential nulls fixed) f s at ordinary there in_use =
      ground (arith, at, ordinary, there, in_use)
  close-left_locked (Organization.relative keys) f s at ordinary there in_use =
      ground (arith, at, ordinary, there, in_use)

  close_again :
      (o : Organization) (f : CobFile) (s : Stream) (opt : ℕ)
      → f.special ≡ 0
      → f.flag_nonexistent ≡ false
      → cob_close (funcs_of host sizes o) (left_locked f s) opt ≡ none
  unfolding left_locked cob_close closed cob_file_close
  close_again Organization.sequential f s opt ordinary there = ground (arith, ordinary, there)
  close_again (Organization.line_sequential nulls fixed) f s opt ordinary there =
      ground (arith, ordinary, there)
  close_again (Organization.relative keys) f s opt ordinary there = ground (arith, ordinary, there)

  read_again :
      (o : Organization) (f : CobFile) (s : Stream) (keyed : Bool)
      → f.flag_nonexistent ≡ false
      → IsReading f o keyed
      → cob_read (funcs_of host sizes o) sizes (left_locked f s) keyed false ≡ none
  unfolding left_locked cob_read read_done relative_read relative_read_next sequential_read
      lineseq_read
  read_again Organization.sequential f s keyed there (reading_next more) =
      ground (arith, there, more)
  read_again (Organization.line_sequential nulls fixed) f s keyed there (reading_next more) =
      ground (arith, there, more)
  read_again (Organization.relative keys) f s keyed there (reading_next more) =
      ground (arith, there, more)
  read_again (Organization.relative keys) f s keyed there reading_key = ground (arith, there)

  -- After a CLOSE WITH LOCK of an open SEQUENTIAL, LINE SEQUENTIAL or RELATIVE file, not of the
  -- keyboard or the display, which ends with the status 00, another CLOSE and every READ that is not past the end of the file, READ NEXT in the
  -- three organizations and READ by key in a RELATIVE file, use the stream that was closed.
  pub locked-undefined :
      (o : Organization) (f : CobFile) (s : Stream) (keyed : Bool) (opt : ℕ)
      → f.stream ≡ some s
      → f.special ≡ 0
      → f.flag_nonexistent ≡ false
      → f.open_mode ≢ open_closed
      → IsReading f o keyed
      → (g : CobFile) × (cob_close (funcs_of host sizes o) f close_lock ≡ some g)
        × (g.file_status ≡ (b'0', b'0'))
        × (cob_read (funcs_of host sizes o) sizes g keyed false ≡ none)
        × (cob_close (funcs_of host sizes o) g opt ≡ none)
  unfolding left_locked
  locked-undefined o f s keyed opt at ordinary there in_use reading = (
    left_locked f s,
    close-left_locked o f s at ordinary there in_use,
    refl,
    read_again o f s keyed there reading,
    close_again o f s opt ordinary there,
  )
