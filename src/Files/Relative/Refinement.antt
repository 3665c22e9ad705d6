-- ===== src/Files/Relative/Refinement.antt =====
-- The statements on a RELATIVE file refine the table of its records.
use mathlib.Core.Path.{subst}
use native.Mathlib.Decide.{dec_lt}
use blitzy_open_cobol.Base.{
  ℕ, suc, ◌≡◌, refl, sym, ◌∙◌, inl, inr, true, false, none, some, List, [], ◌∷◌, max, arith,
  Option-cases, lt→ltb,
}
use blitzy_open_cobol.Files.{CobFile, KeyField, save_status, saved, status_exception}
use blitzy_open_cobol.Files.Plain.{Host}
use blitzy_open_cobol.Files.Relative.{
  relative_read, relative_write, relative_rewrite, relative_delete, on_stream,
}
use blitzy_open_cobol.Files.Relative.Slots.{slot_at, slot_header, slot_bytes}
use blitzy_open_cobol.Files.Relative.Transfers.{moved}
use blitzy_open_cobol.Files.Relative.Random.{
  write_slot-free, write_slot-occupied, delete_slot-inside, delete_slot-beyond, rewrite_slot-inside,
  rewrite_slot-beyond, read_slot-present, read_slot-absent,
}
use blitzy_open_cobol.Files.Relative.Table.{
  Record, Table, Statement, with_record, with_bytes, answer, answers, prepared, serve, serve_all,
  entry, record_of, Represents, IsFit, AllFit, Request,
}
use blitzy_open_cobol.Files.Verbs.{cob_read, cob_write, cob_rewrite, cob_delete, read_done}
use blitzy_open_cobol.Files.Relative.Held.{
  absent-header, present-header, record_of-set, Represents-kept, slot_at-max, Represents-moved,
  stored-entry, slot-inside, slot-beyond, not_lt→ltb,
}

-- A statement is served as the table answers it.
pub record IsServed (host : Host) (keys sizes : KeyField) (verb : Statement) (i : ℕ) (r : Record)
    (f : CobFile) (t : Table) : Type 0 where
  pub after : CobFile
  pub served : serve host keys sizes verb i r f ≡ some (after, (answer verb i r t).1)
  pub represents : Represents after (answer verb i r t).0
  pub same_width : after.record_max ≡ f.record_max
  pub same_least : after.record_min ≡ f.record_min

module _ (host : Host) (keys sizes : KeyField) (i : ℕ) (r : Record) (f : CobFile) (t : Table)
    (v : Represents f t) (fit : IsFit f.record_min f.record_max r) where
  abbrev ready : CobFile
  ready = record (prepared i r f) { size = r.0; flag_read_done = false }

  -- The number is set to a record, or to none.
  write-IsServed : IsServed host keys sizes Statement.write i r f t
  write-IsServed = elim (Option-cases (t.records i)) [
    | inl free ↦
        let (u, written, good, set, grown) =
          write_slot-free ready v.s i v.good (absent-header f.record_max v.s i (v.holds i ∙ free))
            fit.width (omega (arith, fit.some_size, fit.fits))
            (omega (arith, fit.fits, fit.word)) in
        let after : CobFile = save_status (on_stream ready u) 0 in
        let t' : Table = record (with_record t i (some r)) { count = max t.count (suc i) } in
        let represents : Represents after t' =
          Represents-kept f after t t' u v (unfold save_status in refl) (unfold save_status in refl)
            good (omega (arith, grown, v.counted, slot_at-max f.record_max t.count (suc i)))
            (λ j.
              record_of-set f.record_max v.s u i r.0 r.1 set j
              ∙ rw (v.holds j, stored-entry r.0 r.1 fit.some_size) refl) in
        record {
          after = after;
          served =
              unfold serve cob_write saved relative_write save_status in
              ground (
                arith, written, v.on_s, v.by_key, v.i_o, v.fixed, fit.enough, fit.some_size,
                fit.fits, free,
              );
          represents = rw free represents;
          same_width = unfold save_status in refl;
          same_least = unfold save_status in refl;
        }
    | inr (old, present) ↦
        let busy =
          write_slot-occupied ready v.s i v.good
            (present-header f.record_max v.s i old (v.holds i ∙ present)).0 in
        let after : CobFile =
          save_status (on_stream ready (moved v.s (slot_at f.record_max i))) 22 in
        let represents : Represents after t =
          Represents-moved f after t v (slot_at f.record_max i) (unfold save_status in refl)
            (unfold save_status in refl) in
        record {
          after = after;
          served =
              unfold serve cob_write saved relative_write save_status status_exception in
              ground (
                arith, busy, v.on_s, v.by_key, v.i_o, v.fixed, fit.enough, fit.some_size, fit.fits,
                present,
              );
          represents = rw present represents;
          same_width = unfold save_status in refl;
          same_least = unfold save_status in refl;
        }
  ]

  delete-IsServed : IsServed host keys sizes Statement.delete i r f t
  delete-IsServed = elim (dec_lt i t.count) [
    | yes inside ↦
        let g : CobFile = record (prepared i r f) { flag_read_done = false } in
        let (u, deleted, good, set, same) =
          delete_slot-inside g v.s i v.good
            (slot-inside f.record_max v.s t.count i v.counted inside) in
        let after : CobFile = save_status (record g { size = 0; stream = some u }) 0 in
        let represents : Represents after (with_record t i none) =
          Represents-kept f after t (with_record t i none) u v (unfold save_status in refl)
            (unfold save_status in refl) good (omega (arith, same, v.counted))
            (λ j. record_of-set f.record_max v.s u i 0 _ set j ∙ rw (v.holds j) refl) in
        record {
          after = after;
          served =
              unfold serve cob_delete saved relative_delete save_status in
              ground (arith, deleted, v.on_s, v.by_key, v.i_o, inside);
          represents = rw (lt→ltb i t.count inside) represents;
          same_width = unfold save_status in refl;
          same_least = unfold save_status in refl;
        }
    | no outside ↦
        let g : CobFile = record (prepared i r f) { flag_read_done = false } in
        let beyond =
          delete_slot-beyond g v.s i v.good
            (slot-beyond f.record_max v.s t.count i v.counted (omega arith)) in
        let after : CobFile = save_status (on_stream g (moved v.s (slot_at f.record_max i))) 23 in
        let represents : Represents after t =
          Represents-moved f after t v (slot_at f.record_max i) (unfold save_status in refl)
            (unfold save_status in refl) in
        record {
          after = after;
          served =
              unfold serve cob_delete saved relative_delete save_status status_exception in
              ground (arith, beyond, v.on_s, v.by_key, v.i_o, outside);
          represents = rw (not_lt→ltb i t.count outside) represents;
          same_width = unfold save_status in refl;
          same_least = unfold save_status in refl;
        }
  ]

  rewrite-IsServed : IsServed host keys sizes Statement.rewrite i r f t
  rewrite-IsServed = elim (dec_lt i t.count) [
    | yes inside ↦
        let g : CobFile = record (prepared i r f) { flag_read_done = false } in
        let (u, rewritten, good, set, same) =
          rewrite_slot-inside g v.s i v.good
            (slot-inside f.record_max v.s t.count i v.counted inside) fit.width
            (omega (arith, fit.some_size, fit.fits)) in
        let after : CobFile =
          save_status (record g { size = slot_header f.record_max v.s i; stream = some u }) 0 in
        let t' : Table = with_record t i (with_bytes (t.records i) r.1) in
        let represents : Represents after t' =
          Represents-kept f after t t' u v (unfold save_status in refl) (unfold save_status in refl)
            good (omega (arith, same, v.counted))
            (λ j.
              record_of-set f.record_max v.s u i _ r.1 set j ∙ rw (v.holds j, new-entry) refl) in
        record {
          after = after;
          served =
              unfold serve cob_rewrite saved relative_rewrite save_status in
              ground (arith, rewritten, v.on_s, v.by_key, v.i_o, v.kind, inside);
          represents = rw (lt→ltb i t.count inside) represents;
          same_width = unfold save_status in refl;
          same_least = unfold save_status in refl;
        }
    | no outside ↦
        let g : CobFile = record (prepared i r f) { flag_read_done = false } in
        let beyond =
          rewrite_slot-beyond g v.s i v.good
            (slot-beyond f.record_max v.s t.count i v.counted (omega arith)) in
        let after : CobFile = save_status (on_stream g (moved v.s (slot_at f.record_max i))) 23 in
        let represents : Represents after t =
          Represents-moved f after t v (slot_at f.record_max i) (unfold save_status in refl)
            (unfold save_status in refl) in
        record {
          after = after;
          served =
              unfold serve cob_rewrite saved relative_rewrite save_status status_exception in
              ground (arith, beyond, v.on_s, v.by_key, v.i_o, v.kind, outside);
          represents = rw (not_lt→ltb i t.count outside) represents;
          same_width = unfold save_status in refl;
          same_least = unfold save_status in refl;
        }
  ]
    where
      new-entry : entry (slot_header f.record_max v.s i) r.1 ≡ with_bytes (t.records i) r.1
      new-entry = rw (← v.holds i) (unfold record_of in ground arith)

  read-IsServed : IsServed host keys sizes Statement.read i r f t
  read-IsServed = elim (Option-cases (t.records i)) [
    | inl free ↦
        let g : CobFile = record (prepared i r f) { flag_read_done = false } in
        let (n, p, absent) =
          read_slot-absent g v.s i v.good (absent-header f.record_max v.s i (v.holds i ∙ free)) in
        let after : CobFile = save_status (record g { size = n; stream = some (moved v.s p) }) 23 in
        let represents : Represents after t =
          Represents-moved f after t v p (unfold save_status in refl)
            (unfold save_status in refl) in
        record {
          after = after;
          served =
              unfold serve cob_read read_done saved relative_read save_status status_exception in
              ground (arith, absent, v.on_s, v.i_o, v.there, free);
          represents = rw free represents;
          same_width = unfold save_status in refl;
          same_least = unfold save_status in refl;
        }
    | inr (old, present) ↦
        let g : CobFile = record (prepared i r f) { flag_read_done = false } in
        let (some_size, size, bytes) =
          present-header f.record_max v.s i old (v.holds i ∙ present) in
        let found =
          read_slot-present g v.s i v.good some_size (omega (arith, fit.some_size, fit.fits)) in
        let h : CobFile = record g {
          size = slot_header f.record_max v.s i;
          record_data = slot_bytes f.record_max v.s i;
          stream = some (moved v.s (slot_at f.record_max (suc i)));
          flag_first_read = 0;
          flag_read_done = true;
          flag_end_of_file = false;
          flag_begin_of_file = false;
        } in
        let after : CobFile = save_status h 0 in
        let represents : Represents after t =
          Represents-moved f after t v (slot_at f.record_max (suc i)) (unfold save_status in refl)
            (unfold save_status in refl) in
        record {
          after = after;
          served =
              unfold serve cob_read read_done saved relative_read save_status in
              ground (arith, found, v.on_s, v.i_o, v.there, v.fixed, present, size, bytes);
          represents = rw present represents;
          same_width = unfold save_status in refl;
          same_least = unfold save_status in refl;
        }
  ]

  pub serve-IsServed : (verb : Statement) → IsServed host keys sizes verb i r f t
  serve-IsServed Statement.write = write-IsServed
  serve-IsServed Statement.rewrite = rewrite-IsServed
  serve-IsServed Statement.delete = delete-IsServed
  serve-IsServed Statement.read = read-IsServed

-- Any sequence of WRITE, REWRITE, DELETE and READ by key on a RELATIVE file that is open for I-O, not
-- with sequential access and not with a RECORD DEPENDING field, each with a record of a size that the
-- file allows, gets the responses of the table: each FILE STATUS, and each record that READ delivers.
pub serve_all-answers :
    (host : Host) (keys sizes : KeyField) (qs : List Request) (f : CobFile) (t : Table)
    → Represents f t
    → AllFit f.record_min f.record_max qs
    → serve_all host keys sizes qs f ≡ some (answers qs t)
unfolding serve_all answers
serve_all-answers host keys sizes [] f t v fits = refl
serve_all-answers host keys sizes (q ∷ qs) f t v (fit, fits) =
    let step = serve-IsServed host keys sizes q.slot q.content f t v fit q.statement in
    let rest = serve_all-answers host keys sizes qs step.after _ step.represents (
      subst (λ m. AllFit step.after.record_min m qs) (sym step.same_width)
        (subst (λ low. AllFit low f.record_max qs) (sym step.same_least) fits)) in
    ground (arith, step.served, rest)
