-- ===== src/Files/Relative/Held.antt =====
-- What a RELATIVE file holds, and how the changes of one slot change it.
use mathlib.Core.Path.{subst}
use native.Mathlib.Decide.{dec_lt, ℕ_discrete}
use blitzy_open_cobol.Base.{
  ℕ, suc, ◌≤◌, ◌<◌, ◌≡◌, refl, ◌∙◌, false, Bool, Option, none, some, List, max, ltb, ◌==◌,
  if◌then◌else◌, arith,
}
use blitzy_open_cobol.Base.Int.{ℤ}
use blitzy_open_cobol.Files.{CobFile}
use blitzy_open_cobol.Files.Stdio.{Stream}
use blitzy_open_cobol.Files.Relative.Slots.{slot_at, slot_header, slot_bytes}
use blitzy_open_cobol.Files.Relative.Changes.{IsRelative, IsSlotSet}
use blitzy_open_cobol.Files.Relative.Seek.{moved-IsRelative, header-moved, bytes-moved}
use blitzy_open_cobol.Files.Relative.Transfers.{moved}
use blitzy_open_cobol.Files.Relative.Table.{Record, Table, entry, record_of, Represents}

-- A number is free, or has a record.
pub absent-header : (m : ℕ) (s : Stream) (i : ℕ) → record_of m s i ≡ none → slot_header m s i ≡ 0
unfolding record_of
absent-header m s i free = ground arith

pub present-header :
    (m : ℕ) (s : Stream) (i : ℕ) (r : Record)
    → record_of m s i ≡ some r
    → (0 < slot_header m s i) × (slot_header m s i ≡ r.0) × (slot_bytes m s i ≡ r.1)
unfolding record_of
present-header m s i r present = ground arith

-- Setting a slot is setting an entry of the table.
pub record_of-set :
    (m : ℕ) (s t : Stream) (i n : ℕ) (bytes : List ℕ)
    → IsSlotSet m s t i n bytes
    → (j : ℕ) → record_of m t j ≡ (if j == i then entry n bytes else record_of m s j)
unfolding record_of
record_of-set m s t i n bytes set j = elim (ℕ_discrete j i) [
  | yes same ↦ rw same (rw (set.header, set.data_bytes) (ground arith))
  | no other ↦ rw (set.other_headers j other, set.other_bytes j other) (ground arith)
]

pub record_of-moved : (m : ℕ) (s : Stream) (p j : ℕ) → record_of m (moved s p) j ≡ record_of m s j
unfolding record_of
record_of-moved m s p j = rw (header-moved m s p j, bytes-moved m s p j) refl

-- What no statement changes.
abbrev pub settings : CobFile → ℕ × ℕ × ℕ × ℕ × ℕ × Bool × Option ℤ
settings f = (
  f.record_max, f.record_min, f.access_mode, f.open_mode, f.organization, f.flag_nonexistent,
  f.record_size,
)

pub Represents-kept :
    (f f' : CobFile) (t t' : Table) (u : Stream)
    → Represents f t
    → settings f' ≡ settings f
    → f'.stream ≡ some u
    → IsRelative f.record_max u
    → u.size ≡ slot_at f.record_max t'.count
    → ((j : ℕ) → record_of f.record_max u j ≡ t'.records j)
    → Represents f' t'
Represents-kept f f' t t' u v kept on_u good counted holds =
    let width : f.record_max ≡ f'.record_max = cc in
    record {
      s = u;
      on_s = on_u;
      good = subst (λ m. IsRelative m u) width good;
      counted = subst (λ m. u.size ≡ slot_at m t'.count) width counted;
      holds = subst (λ m. (j : ℕ) → record_of m u j ≡ t'.records j) width holds;
      by_key = λ e. v.by_key (cc);
      i_o = cc (v.i_o);
      kind = λ e. v.kind (cc);
      there = cc (v.there);
      fixed = cc (v.fixed);
    }

pub slot_at-max : (m a b : ℕ) → slot_at m (max a b) ≡ max (slot_at m a) (slot_at m b)
slot_at-max m a b = elim (dec_lt a b) [
  | yes below ↦
      let le : slot_at m a ≤ slot_at m b = grind arith in
      let top : max a b ≡ b = omega arith in rw top (omega arith)
  | no above ↦
      let le : slot_at m b ≤ slot_at m a = grind arith in
      let top : max a b ≡ a = omega arith in rw top (omega arith)
]

-- A statement that only moves the stream leaves the table.
pub Represents-moved :
    (f f' : CobFile) (t : Table) (v : Represents f t) (p : ℕ)
    → settings f' ≡ settings f
    → f'.stream ≡ some (moved v.s p)
    → Represents f' t
Represents-moved f f' t v p kept on =
    Represents-kept f f' t t (moved v.s p) v kept on (moved-IsRelative p v.good) v.counted
      (λ j. record_of-moved f.record_max v.s p j ∙ v.holds j)

-- A number with a size in its slot counts as a record.
pub stored-entry : (n : ℕ) (bytes : List ℕ) → 0 < n → entry n bytes ≡ some (n, bytes)
stored-entry n bytes present = ground arith

-- Whether a number is above the highest one.
pub slot-inside :
    (m : ℕ) (s : Stream) (count i : ℕ)
    → s.size ≡ slot_at m count
    → i < count
    → slot_at m (suc i) ≤ s.size
slot-inside m s count i counted below =
    let le : slot_at m (suc i) ≤ slot_at m count = grind arith in omega arith

pub slot-beyond :
    (m : ℕ) (s : Stream) (count i : ℕ) → s.size ≡ slot_at m count → count ≤ i → s.size ≤ slot_at m i
slot-beyond m s count i counted above =
    let le : slot_at m count ≤ slot_at m i = grind arith in omega arith

pub not_lt→ltb : (a b : ℕ) → ¬ a < b → ltb a b ≡ false
not_lt→ltb a b h = ground arith
