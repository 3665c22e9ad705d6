-- ===== src/Files/Relative/Keeps.antt =====
-- What the functions of one slot of a RELATIVE file leave in place: the stream, the key field and the
-- modes of the file.
use blitzy_open_cobol.Base.{
  ℕ, ◌≤◌, ◌≡◌, ◌∙◌, inl, inr, true, false, Bool, Option, none, some, arith, Option-cases,
}
use blitzy_open_cobol.Base.Int.{ℤ, pos, ◌-ℤ◌}
use blitzy_open_cobol.Files.{CobFile, KeyField, Outcome, cond_eq, cond_ge}
use blitzy_open_cobol.Files.Stdio.{Stream, fseek_set}
use blitzy_open_cobol.Files.Relative.{
  slot_offset, put_record, get_record, put_slot, write_here, write_slot, write_next, rewrite_slot,
  rewrite_last, delete_slot, read_slot,
}

abbrev pub has {ℓ} : {A : Type ℓ} → Option A → Bool
has none = false
has (some a) = true

-- What the functions of the table leave alone.
abbrev pub modes : CobFile → ℕ × ℕ × Bool × Bool
modes f = (f.open_mode, f.special, f.flag_optional, f.flag_nonexistent)

abbrev pub Keeps : CobFile → CobFile → Type 0
Keeps f g = (has g.stream ≡ true) × (has g.relative_key ≡ has f.relative_key) × (modes g ≡ modes f)

pub delete_slot-Keeps : (f : CobFile) (s : Stream) (key : ℤ) → Keeps f (delete_slot f s key).0
unfolding delete_slot
delete_slot-Keeps f s key = ground arith

pub rewrite_slot-Keeps : (f : CobFile) (s : Stream) (key : ℤ) → Keeps f (rewrite_slot f s key).0
unfolding rewrite_slot put_record
rewrite_slot-Keeps f s key = ground arith

pub get_record-Keeps : (f : CobFile) (s : Stream) → Keeps f (get_record f s).0
unfolding get_record
get_record-Keeps f s = ground arith

pub rewrite_last-Keeps : (f : CobFile) (s : Stream) → Keeps f (rewrite_last f s).0
unfolding rewrite_last put_record
rewrite_last-Keeps f s = ground arith

pub read_slot-Keeps : (f : CobFile) (s : Stream) (key : ℤ) → Keeps f (read_slot f s key).0
unfolding read_slot get_record
read_slot-Keeps f s key = ground arith

pub write_here-Keeps : (f : CobFile) (s : Stream) → Keeps f (write_here f s).0
unfolding write_here put_slot put_record
write_here-Keeps f s = ground arith

pub write_slot-Keeps :
    (f : CobFile) (s : Stream) (key : ℤ) → f.stream ≡ some s → Keeps f (write_slot f s key).0
unfolding write_slot
write_slot-Keeps f s key there = elim (Option-cases (fseek_set (slot_offset f (key -ℤ pos 1)) s)) [
  | inl bad ↦ ground (arith, bad, there)
  | inr (s', good) ↦ ground (arith, good, write_here-Keeps f s')
]

pub write_next-Keeps :
    (keys : KeyField) (f : CobFile) (s : Stream) → Keeps f (write_next keys f s).0
unfolding write_next
write_next-Keeps keys f s = ground (arith, write_here-Keeps f s)

-- The relations EQUAL, LESS, NOT GREATER, GREATER and NOT LESS.
abbrev pub IsRelation : ℕ → Type 0
IsRelation cond = (cond_eq ≤ cond) × (cond ≤ cond_ge)

-- The outcome is a file and a status.
abbrev pub IsDefined : CobFile → Outcome → Type 0
IsDefined f result = (g : CobFile) × (status : ℕ) × (result ≡ some (g, status)) × Keeps f g

pub Keeps-trans :
    (f g h : CobFile)
    → (has g.relative_key ≡ has f.relative_key) × (modes g ≡ modes f)
    → Keeps g h
    → Keeps f h
Keeps-trans f g h (key, same) (stream, key', same') = (stream, key' ∙ key, same' ∙ same)
