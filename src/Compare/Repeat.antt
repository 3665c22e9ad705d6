-- ===== src/Compare/Repeat.antt =====
-- `cob_cmp_all` compares a field with a literal that is repeated to the size of the field.
use Prim.Native.Nat.{ℕ}
use native.Mathlib.Nat.{sub-zero}
use blitzy_open_cobol.Base.{
  zero, suc, ◌-◌, ◌≤◌, ◌<◌, ◌≡◌, refl, sym, ap, ◌∙◌, arith, Option, List, [], ◌∷◌, length, drop,
  leb, leb→le, Bool-cases, inl, inr,
}
use blitzy_open_cobol.Base.Int.{ℤ, pos, sub_ℕ}
use blitzy_open_cobol.Field.{Field, Module, size}
use blitzy_open_cobol.Inspect.{alloc_figurative}
use blitzy_open_cobol.Compare.{weight, or_next, common_cmps, all_loop, cmp_all}
use blitzy_open_cobol.Compare.Padding.{or_next_assoc, shown_bytes}

nothing_left : (col : Option (ℕ → ℕ)) (s : List ℕ) (n : ℕ) → common_cmps col [] s n ≡ pos 0
unfolding common_cmps
nothing_left col s zero = refl
nothing_left col s (suc n) = refl

module _ (col : Option (ℕ → ℕ)) where
  -- `f2` over and over, of which `left` is still to come: the first bytes are those of `left`.
  repeat_step :
      (f2 bytes left : List ℕ) (n : ℕ)
      → length left ≤ n
      → common_cmps col bytes (alloc_figurative f2 left n) n
        ≡ or_next (common_cmps col bytes left (length left)) (
            common_cmps col
              (drop (length left) bytes)
              (alloc_figurative f2 [] (n - length left))
              (n - length left))
  unfolding common_cmps alloc_figurative
  repeat_step f2 bytes [] n h = rw (sub-zero n) refl
  repeat_step f2 [] (b ∷ left) (suc n) h = sym (nothing_left col _ (suc n - suc (length left)))
  repeat_step f2 (a ∷ bytes) (b ∷ left) zero h = absurd (omega arith)
  repeat_step f2 [] (b ∷ left) zero h = absurd (omega arith)
  repeat_step f2 (a ∷ bytes) (b ∷ left) (suc n) h =
      let fewer : suc n - suc (length left) ≡ n - length left = omega arith in
      let first = sub_ℕ (weight col a) (weight col b) in
      rw fewer (
        ap (λ (z : ℤ). or_next first z) (repeat_step f2 bytes left n (omega arith))
        ∙ sym (or_next_assoc first (common_cmps col bytes left (length left)) _))

  -- Fewer bytes than `left` has.
  repeat_part :
      (f2 bytes left : List ℕ) (n : ℕ)
      → n < length left
      → common_cmps col bytes (alloc_figurative f2 left n) n ≡ common_cmps col bytes left n
  unfolding common_cmps alloc_figurative
  repeat_part f2 bytes left zero h = refl
  repeat_part f2 bytes [] (suc n) h = absurd (omega arith)
  repeat_part f2 [] (b ∷ left) (suc n) h = refl
  repeat_part f2 (a ∷ bytes) (b ∷ left) (suc n) h =
      ap (λ (z : ℤ). or_next (sub_ℕ (weight col a) (weight col b)) z)
        (repeat_part f2 bytes left n (omega arith))

  restart :
      (f2 : List ℕ) (n : ℕ) → 0 < length f2 → alloc_figurative f2 [] n ≡ alloc_figurative f2 f2 n
  unfolding alloc_figurative
  restart f2 zero h = refl
  restart [] (suc n) h = absurd (omega arith)
  restart (x ∷ f2) (suc n) h = refl

  all_loop-alloc_figurative :
      (f2 : List ℕ) (fuel : ℕ) (bytes : List ℕ) (n : ℕ)
      → 0 < length f2
      → n ≤ fuel
      → all_loop col f2 fuel bytes n ≡ common_cmps col bytes (alloc_figurative f2 f2 n) n
  unfolding all_loop
  all_loop-alloc_figurative f2 zero bytes n some_byte enough =
      sym (repeat_part f2 bytes f2 n (omega arith))
  all_loop-alloc_figurative f2 (suc fuel) bytes n some_byte enough =
      elim (Bool-cases (leb (length f2) n)) [
        | inl whole ↦
            let fits : length f2 ≤ n = leb→le _ _ whole in
            let next = drop (length f2) bytes in
            let fewer = n - length f2 in
            let rest = all_loop-alloc_figurative f2 fuel next fewer some_byte (omega arith) in
            let again =
              ap (λ (t : List ℕ). common_cmps col next t fewer) (restart f2 fewer some_byte) in
            rw whole (
              ap (λ (z : ℤ). or_next (common_cmps col bytes f2 (length f2)) z) (rest ∙ sym again)
              ∙ sym (repeat_step f2 bytes f2 n fits))
        | inr part ↦ rw part (sym (repeat_part f2 bytes f2 n (ground arith)))
      ]

-- `cob_cmp_all` is the comparison, byte by byte, with the second field repeated to the size of the
-- first, as `alloc_figurative` of libcob/strings.c repeats it. The second field is not empty.
pub cmp_all-alloc_figurative :
    (m : Module) (f1 f2 : Field)
    → 0 < size f2
    → let bytes = shown_bytes m f1 in
      (cmp_all m f1 f2).0
      ≡ common_cmps m.collating_sequence bytes
          (alloc_figurative f2.data_bytes f2.data_bytes (length bytes))
          (length bytes)
unfolding cmp_all
cmp_all-alloc_figurative m f1 f2 some_byte =
    all_loop-alloc_figurative m.collating_sequence f2.data_bytes (length (shown_bytes m f1))
      (shown_bytes m f1) (length (shown_bytes m f1)) some_byte (omega arith)
