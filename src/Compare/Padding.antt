-- ===== src/Compare/Padding.antt =====
-- `cob_cmp_alnum` compares two texts as if the shorter one went on with spaces, and that is an
-- order.
use Prim.Native.Nat.{ℕ}
use native.Mathlib.Nat.{sub-zero}
use blitzy_open_cobol.Base.{
  suc, ◌-◌, ◌≡◌, refl, sym, ap, ◌∙◌, arith, min, true, false, Option, List, [], ◌∷◌, length, ltb,
  Bool-cases, inl, inr,
}
use blitzy_open_cobol.Base.Int.{ℤ, pos, sub_ℕ, neg_ℤ, ==_ℤ, ◌≤ℤ◌, int_laws}
use blitzy_open_cobol.Field.{Field, Module}
use blitzy_open_cobol.Field.Sign.{get_sign}
use blitzy_open_cobol.Compare.{weight, or_next, common_cmpc, common_cmps, cmp_bytes, cmp_alnum}

-- The first difference of the weights, where a text that has ended goes on with spaces.
unfoldable pub compare_padded : Option (ℕ → ℕ) → List ℕ → List ℕ → ℤ
compare_padded col [] [] = pos 0
compare_padded col [] (b ∷ s2) =
    or_next (sub_ℕ (weight col b' ') (weight col b)) (compare_padded col [] s2)
compare_padded col (a ∷ s1) [] =
    or_next (sub_ℕ (weight col a) (weight col b' ')) (compare_padded col s1 [])
compare_padded col (a ∷ s1) (b ∷ s2) =
    or_next (sub_ℕ (weight col a) (weight col b)) (compare_padded col s1 s2)

neg-or_next : (x y : ℕ) (p : ℤ) → neg_ℤ (or_next (sub_ℕ x y) p) ≡ or_next (sub_ℕ y x) (neg_ℤ p)
unfolding neg_ℤ
neg-or_next x y p = ground arith

left_over :
    (col : Option (ℕ → ℕ)) (s : List ℕ)
    → common_cmpc col s b' ' (length s) ≡ compare_padded col s []
unfolding common_cmpc compare_padded
left_over col [] = refl
left_over col (a ∷ s) =
    ap (λ (z : ℤ). or_next (sub_ℕ (weight col a) (weight col b' ')) z) (left_over col s)

flip-step :
    (x y : ℕ) (p q : ℤ) → neg_ℤ p ≡ q → neg_ℤ (or_next (sub_ℕ x y) p) ≡ or_next (sub_ℕ y x) q
flip-step x y p q h = neg-or_next x y p ∙ ap (λ (z : ℤ). or_next (sub_ℕ y x) z) h

compare_padded-flip :
    (col : Option (ℕ → ℕ)) (s1 s2 : List ℕ)
    → neg_ℤ (compare_padded col s1 s2) ≡ compare_padded col s2 s1
unfolding compare_padded
compare_padded-flip col [] [] = omega int_laws
compare_padded-flip col [] (b ∷ s2) =
    flip-step (weight col b' ') (weight col b) _ _ (compare_padded-flip col [] s2)
compare_padded-flip col (a ∷ s1) [] =
    flip-step (weight col a) (weight col b' ') _ _ (compare_padded-flip col s1 [])
compare_padded-flip col (a ∷ s1) (b ∷ s2) =
    flip-step (weight col a) (weight col b) _ _ (compare_padded-flip col s1 s2)

pub or_next_assoc : (p q r : ℤ) → or_next (or_next p q) r ≡ or_next p (or_next q r)
or_next_assoc p q r = elim (Bool-cases (==_ℤ p (pos 0))) [
  | inl e ↦ rw e refl
  | inr e ↦ rw (e, e) refl
]

cmp_bytes-compare_padded :
    (col : Option (ℕ → ℕ)) (s1 s2 : List ℕ) → cmp_bytes col s1 s2 ≡ compare_padded col s1 s2
unfolding cmp_bytes compare_padded common_cmps
cmp_bytes-compare_padded col [] [] = refl
cmp_bytes-compare_padded col [] (b ∷ s2) =
    let none_common : min 0 (suc (length s2)) ≡ 0 = omega arith in
    let shorter : ltb 0 (suc (length s2)) ≡ true = ground arith in
    let not_longer : ltb (suc (length s2)) 0 ≡ false = ground arith in
    simp (none_common, shorter, not_longer, sub-zero, left_over)
      (compare_padded-flip col (b ∷ s2) [])
cmp_bytes-compare_padded col (a ∷ s1) [] =
    let none_common : min (suc (length s1)) 0 ≡ 0 = omega arith in
    let longer : ltb 0 (suc (length s1)) ≡ true = ground arith in
    simp (none_common, longer, sub-zero, left_over) refl
cmp_bytes-compare_padded col (a ∷ s1) (b ∷ s2) =
    let m = min (length s1) (length s2) in
    let common : min (suc (length s1)) (suc (length s2)) ≡ suc m = omega arith in
    let less : ltb (suc (length s1)) (suc (length s2)) ≡ ltb (length s1) (length s2) =
      ground arith in
    let more : ltb (suc (length s2)) (suc (length s1)) ≡ ltb (length s2) (length s1) =
      ground arith in
    let left : suc (length s1) - suc m ≡ length s1 - m = omega arith in
    let right : suc (length s2) - suc m ≡ length s2 - m = omega arith in
    simp (common, less, more, left, right)
      (or_next_assoc (sub_ℕ (weight col a) (weight col b)) (common_cmps col s1 s2 m) _
        ∙ ap (λ (z : ℤ). or_next (sub_ℕ (weight col a) (weight col b)) z)
            (cmp_bytes-compare_padded col s1 s2))

-- The bytes that are compared: the field's, with the sign of a DISPLAY field unpacked.
abbrev pub shown_bytes : Module → Field → List ℕ
shown_bytes m f = (get_sign m f).1.data_bytes

-- `cob_cmp_alnum` is the first difference of two texts by the collating sequence, where the shorter
-- text goes on with spaces.
pub cmp_alnum-compare_padded :
    (m : Module) (f1 f2 : Field)
    → (cmp_alnum m f1 f2).0
      ≡ compare_padded m.collating_sequence (shown_bytes m f1) (shown_bytes m f2)
unfolding cmp_alnum
cmp_alnum-compare_padded m f1 f2 =
    cmp_bytes-compare_padded m.collating_sequence (shown_bytes m f1) (shown_bytes m f2)

-- With the fields swapped, `cob_cmp_alnum` gives the negated result.
pub cmp_alnum-flip :
    (m : Module) (f1 f2 : Field) → (cmp_alnum m f2 f1).0 ≡ neg_ℤ (cmp_alnum m f1 f2).0
cmp_alnum-flip m f1 f2 =
    cmp_alnum-compare_padded m f2 f1
    ∙ sym (compare_padded-flip m.collating_sequence (shown_bytes m f1) (shown_bytes m f2))
    ∙ ap neg_ℤ (sym (cmp_alnum-compare_padded m f1 f2))

trans-step :
    (x y z : ℕ) (p q r : ℤ)
    → (p ≤ℤ pos 0 → q ≤ℤ pos 0 → r ≤ℤ pos 0)
    → or_next (sub_ℕ x y) p ≤ℤ pos 0
    → or_next (sub_ℕ y z) q ≤ℤ pos 0
    → or_next (sub_ℕ x z) r ≤ℤ pos 0
trans-step x y z p q r next h k = ground arith

compare_padded-trans :
    (col : Option (ℕ → ℕ)) (s1 s2 s3 : List ℕ)
    → compare_padded col s1 s2 ≤ℤ pos 0
    → compare_padded col s2 s3 ≤ℤ pos 0
    → compare_padded col s1 s3 ≤ℤ pos 0
unfolding compare_padded
compare_padded-trans col [] [] [] h k = omega arith
compare_padded-trans col [] [] (c ∷ s3) h k = k
compare_padded-trans col (a ∷ s1) [] [] h k = h
compare_padded-trans col [] (b ∷ s2) [] h k = omega arith
compare_padded-trans col [] (b ∷ s2) (c ∷ s3) h k =
    trans-step (weight col b' ') (weight col b) (weight col c) _ _ _
      (compare_padded-trans col [] s2 s3) h k
compare_padded-trans col (a ∷ s1) [] (c ∷ s3) h k =
    trans-step (weight col a) (weight col b' ') (weight col c) _ _ _
      (compare_padded-trans col s1 [] s3) h k
compare_padded-trans col (a ∷ s1) (b ∷ s2) [] h k =
    trans-step (weight col a) (weight col b) (weight col b' ') _ _ _
      (compare_padded-trans col s1 s2 []) h k
compare_padded-trans col (a ∷ s1) (b ∷ s2) (c ∷ s3) h k =
    trans-step (weight col a) (weight col b) (weight col c) _ _ _
      (compare_padded-trans col s1 s2 s3) h k

-- `cob_cmp_alnum` is transitive: a field that is not above a second one, which is not above a third,
-- is not above the third.
pub cmp_alnum-trans :
    (m : Module) (f1 f2 f3 : Field)
    → (cmp_alnum m f1 f2).0 ≤ℤ pos 0
    → (cmp_alnum m f2 f3).0 ≤ℤ pos 0
    → (cmp_alnum m f1 f3).0 ≤ℤ pos 0
cmp_alnum-trans m f1 f2 f3 h k = rw (cmp_alnum-compare_padded m f1 f3) (
    compare_padded-trans m.collating_sequence _ (shown_bytes m f2) _
      (rw (cmp_alnum-compare_padded m f1 f2) at h) (rw (cmp_alnum-compare_padded m f2 f3) at k))
