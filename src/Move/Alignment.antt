-- ===== src/Move/Alignment.antt =====
-- `store_common_region` aligns at the decimal point: each digit keeps its power of ten.
use Prim.Native.Nat.{ℕ}
use native.Mathlib.Decide.{dec_lt}
use blitzy_open_cobol.Base.{
  ◌+◌, ◌-◌, ◌≤◌, ◌<◌, ◌≡◌, ◌==◌, refl, sym, ap, ◌∙◌, arith, true, false, List, map, length, take,
  drop, replicate, get_or, lt→ltb, if◌then◌else◌, Bool-cases, inl, inr, length-take, length-drop,
  length-map, length-replicate,
}
use blitzy_open_cobol.Base.Int.{ℤ, pos, ◌+ℤ◌, ltb_ℤ, pos_part, neg_part, int_laws}
use blitzy_open_cobol.Base.Buffers.{copy_at}
use blitzy_open_cobol.Move.{space_to_zero, common_region}
use blitzy_open_cobol.Move.Places.{
  get_or-drop, get_or-take, get_or-map, get_or-replicate, get_or-behind, copy-before, copy-inside,
  copy-behind,
}
use blitzy_open_cobol.Move.Layout.{Layout, apart, lcf, gcf, offset, aligned, outside}

-- The digit at a place that may lie before or behind the digits: a zero there.
unfoldable pub digit_at : List ℕ → ℤ → ℕ
digit_at bytes i = if ltb_ℤ i (pos 0) then b'0' else get_or bytes (pos_part i) b'0'

-- What a digit of the source is in the field: a space counts as a zero.
abbrev pub blank_as_zero : ℕ → ℕ
blank_as_zero c = if c == b' ' then b'0' else c

space_to_zero-eq : (c : ℕ) → space_to_zero c ≡ blank_as_zero c
space_to_zero-eq c = refl

digit_at-before : (bytes : List ℕ) (z : ℤ) → 0 < neg_part z → digit_at bytes z ≡ b'0'
unfolding digit_at
digit_at-before bytes z h =
    let negative : ltb_ℤ z (pos 0) ≡ true = lt→ltb _ _ (omega (arith, apart z)) in rw negative refl

digit_at-place :
    (bytes : List ℕ) (z : ℤ) (j : ℕ)
    → neg_part z ≡ 0
    → pos_part z ≡ j
    → digit_at bytes z ≡ get_or bytes j b'0'
unfolding digit_at
digit_at-place bytes z j h k =
    let not_negative : ltb_ℤ z (pos 0) ≡ false = ground (arith, h) in rw (not_negative, k) refl

digit_at-behind : (bytes : List ℕ) (z : ℤ) → length bytes ≤ pos_part z → digit_at bytes z ≡ b'0'
unfolding digit_at
digit_at-behind bytes z h = elim (Bool-cases (ltb_ℤ z (pos 0))) [
  | inl e ↦ rw e refl
  | inr e ↦ rw e (get_or-behind bytes (pos_part z) b'0' h)
]

-- A place of the field after the copy of the common digits.
stored-digit_at :
    (bytes : List ℕ) (n2 i : ℕ)
    → i < n2
    → {p q c : ℕ} {off : ℤ} → Layout (length bytes) n2 p q c off
    → (z : ℤ) → pos_part z + neg_part off ≡ i + pos_part off + neg_part z
    → get_or (copy_at (replicate n2 b'0') q (map space_to_zero (take c (drop p bytes)))) i b'0'
      ≡ space_to_zero (digit_at bytes z)
stored-digit_at bytes n2 i inside {p = p} {q = q} {c = c} h z sum = elim (dec_lt i q) [
  | yes before ↦
      copy-before zeros q digits i b'0' before
      ∙ get_or-replicate n2 i b'0'
      ∙ sym (rw (digit_at-before bytes z (omega (arith, h.front_ends, h.shifted, apart z))) refl)
  | no not_before ↦ elim (dec_lt i (q + c)) [
    | yes in_copy ↦
        let j = i - q in
        let there : q + j ≡ i = omega arith in
        rw there at (
          copy-inside zeros q digits j b'0' (omega (arith, size))
            (omega (arith, h.field_room, length-replicate {A = ℕ} n2 b'0')))
        ∙ get_or-map space_to_zero common j b'0' (omega (arith, common_size))
        ∙ ap space_to_zero (
            get_or-take c (drop p bytes) j b'0' (omega arith)
            ∙ get_or-drop p bytes j b'0'
            ∙ sym (
                digit_at-place bytes z (p + j) (omega (arith, h.shifted, apart z))
                  (omega (arith, h.shifted, apart z))))
    | no behind ↦
        let k = i - (q + c) in
        let there : q + (length digits + k) ≡ i = omega (arith, size) in
        rw there at (copy-behind zeros q digits k b'0')
        ∙ get_or-replicate n2 i b'0'
        ∙ sym (rw (digit_at-behind bytes z (omega (arith, h.shifted, h.back_ends, apart z))) refl)
  ]
]
  where
    zeros : List ℕ
    zeros = replicate n2 b'0'

    common : List ℕ
    common = take c (drop p bytes)

    digits : List ℕ
    digits = map space_to_zero common

    common_size : length common ≡ c
    common_size = omega (arith, length-take c (drop p bytes), length-drop p bytes, h.source_room)

    size : length digits ≡ c
    size = length-map common space_to_zero ∙ common_size

common_region-place :
    (n2 : ℕ) (s2 : ℤ) (bytes : List ℕ) (s1 : ℤ) (i : ℕ)
    → i < n2
    → get_or (common_region n2 s2 bytes s1) i b'0'
      ≡ space_to_zero (digit_at bytes (pos i +ℤ offset (length bytes) n2 s1 s2))
unfolding common_region
common_region-place n2 s2 bytes s1 i inside =
    elim (Bool-cases (ltb_ℤ (lcf n1 n2 s1 s2) (gcf n1 n2 s1 s2))) [
      | inl common ↦
          rw common
            (stored-digit_at bytes n2 i inside (aligned n1 n2 s1 s2 common) place (omega int_laws))
      | inr none_common ↦ rw none_common (
          get_or-replicate n2 i b'0' ∙ elim (outside n1 n2 s1 s2 i none_common inside) [
            | inl before ↦ rw (digit_at-before bytes place before) refl
            | inr behind ↦ rw (digit_at-behind bytes place behind) refl
          ])
    ]
  where
    n1 : ℕ
    n1 = length bytes

    place : ℤ
    place = pos i +ℤ offset n1 n2 s1 s2

-- The digit at each place of the field is the digit that the source has for the same power of ten,
-- where the source has one, and a zero where it has none; spaces in the source count as zeros.
pub common_region-digit_at :
    (n2 : ℕ) (s2 : ℤ) (bytes : List ℕ) (s1 : ℤ) (i : ℕ)
    → i < n2
    → get_or (common_region n2 s2 bytes s1) i b'0'
      ≡ blank_as_zero (digit_at bytes (pos i +ℤ offset (length bytes) n2 s1 s2))
common_region-digit_at n2 s2 bytes s1 i inside =
    common_region-place n2 s2 bytes s1 i inside
    ∙ space_to_zero-eq (digit_at bytes (pos i +ℤ offset (length bytes) n2 s1 s2))
