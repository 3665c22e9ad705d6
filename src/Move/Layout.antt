-- ===== src/Move/Layout.antt =====
-- Where the digits that two numbers have in common stand in each: the arithmetic of
-- `store_common_region` of libcob/move.c.
use Prim.Native.Nat.{ℕ}
use blitzy_open_cobol.Base.{
  ◌+◌, ◌≤◌, ◌<◌, ◌≡◌, refl, arith, true, false, ltb, ltb→lt, Bool-cases, inl, inr, ◌⊎◌,
}
use blitzy_open_cobol.Base.Int.{
  ℤ, pos, negsuc, ◌+ℤ◌, ◌-ℤ◌, neg_ℤ, ltb_ℤ, ◌≤ℤ◌, pos_part, neg_part, int_laws,
}
use blitzy_open_cobol.Move.{cob_min_int, cob_max_int}

-- Where the common digits stand in both: `p` in the source, `q` in the field, `c` of them.
pub record Layout (n1 n2 p q c : ℕ) (off : ℤ) : Type 0 where
  pub source_room : p + c ≤ n1
  pub field_room : q + c ≤ n2
  pub shifted : pos_part off + q ≡ p + neg_part off
  pub front_ends : (p ≡ 0) ⊎ (q ≡ 0)
  pub back_ends : (p + c ≡ n1) ⊎ (q + c ≡ n2)

not_below : (a b : ℕ) → ltb a b ≡ false → b ≤ a
not_below a b h = ground arith

pub apart : (z : ℤ) → (pos_part z ≡ 0) ⊎ (neg_part z ≡ 0)
apart (pos n) = inr refl
apart (negsuc n) = inl refl

abbrev Same : ℤ → ℤ → Type 0
Same a b = (pos_part a ≡ pos_part b) × (neg_part a ≡ neg_part b)

min-cases : (a b : ℤ) → let g = cob_min_int a b in ((Same g a × (g ≤ℤ b)) ⊎ (Same g b × (g ≤ℤ a)))
min-cases a b = elim (Bool-cases (ltb_ℤ a b)) [
  | inl e ↦ rw e (inl ((refl, refl), omega (arith, ltb→lt _ _ e)))
  | inr e ↦ rw e (inr ((refl, refl), ground (arith, e)))
]

max-cases : (a b : ℤ) → let l = cob_max_int a b in ((Same l a × (b ≤ℤ l)) ⊎ (Same l b × (a ≤ℤ l)))
max-cases a b = elim (Bool-cases (ltb_ℤ b a)) [
  | inl e ↦ rw e (inl ((refl, refl), omega (arith, ltb→lt _ _ e)))
  | inr e ↦ rw e (inr ((refl, refl), ground (arith, e)))
]

module _ (n1 n2 : ℕ) (s1 s2 : ℤ) where
  abbrev pub lf1 : ℤ
  lf1 = neg_ℤ s1

  abbrev pub lf2 : ℤ
  lf2 = neg_ℤ s2

  abbrev pub hf1 : ℤ
  hf1 = pos n1 +ℤ lf1

  abbrev pub hf2 : ℤ
  hf2 = pos n2 +ℤ lf2

  abbrev pub lcf : ℤ
  lcf = cob_max_int lf1 lf2

  abbrev pub gcf : ℤ
  gcf = cob_min_int hf1 hf2

  -- How far the places in the source lie behind those in the field.
  abbrev pub offset : ℤ
  offset = hf1 -ℤ hf2

  aligned_ends :
      (g l : ℤ)
      → ((Same g hf1 × (g ≤ℤ hf2)) ⊎ (Same g hf2 × (g ≤ℤ hf1)))
      → ((Same l lf1 × (lf2 ≤ℤ l)) ⊎ (Same l lf2 × (lf1 ≤ℤ l)))
      → pos_part l + neg_part g < pos_part g + neg_part l
      → Layout n1 n2 (pos_part (hf1 -ℤ g)) (pos_part (hf2 -ℤ g)) (pos_part (g -ℤ l)) offset
  aligned_ends g l gs ls common = record {
    source_room = omega (int_laws, apart (hf1 -ℤ g), apart (g -ℤ l));
    field_room = omega (int_laws, apart (hf2 -ℤ g), apart (g -ℤ l));
    shifted = omega (int_laws, apart (hf1 -ℤ g), apart (hf2 -ℤ g));
    front_ends = elim gs [
      | inl (same, below) ↦ inl (omega (int_laws, apart (hf1 -ℤ g)))
      | inr (same, below) ↦ inr (omega (int_laws, apart (hf2 -ℤ g)))
    ];
    back_ends = elim ls [
      | inl (same, above) ↦ inl (omega (int_laws, apart (hf1 -ℤ g), apart (g -ℤ l)))
      | inr (same, above) ↦ inr (omega (int_laws, apart (hf2 -ℤ g), apart (g -ℤ l)))
    ];
  }

  pub aligned :
      ltb_ℤ lcf gcf ≡ true
      → Layout n1 n2 (pos_part (hf1 -ℤ gcf)) (pos_part (hf2 -ℤ gcf)) (pos_part (gcf -ℤ lcf)) offset
  aligned common = aligned_ends gcf lcf (min-cases hf1 hf2) (max-cases lf1 lf2) (ltb→lt _ _ common)

  -- Without common digits, a place of the field lies before or behind the source.
  pub outside :
      (i : ℕ)
      → ltb_ℤ lcf gcf ≡ false
      → i < n2
      → (0 < neg_part (pos i +ℤ offset)) ⊎ (n1 ≤ pos_part (pos i +ℤ offset))
  outside i common inside =
      outside_at gcf lcf (min-cases hf1 hf2) (max-cases lf1 lf2) (not_below _ _ common)
    where
      outside_at :
          (g l : ℤ)
          → ((Same g hf1 × (g ≤ℤ hf2)) ⊎ (Same g hf2 × (g ≤ℤ hf1)))
          → ((Same l lf1 × (lf2 ≤ℤ l)) ⊎ (Same l lf2 × (lf1 ≤ℤ l)))
          → pos_part g + neg_part l ≤ pos_part l + neg_part g
          → (0 < neg_part (pos i +ℤ offset)) ⊎ (n1 ≤ pos_part (pos i +ℤ offset))
      outside_at g l gs (inl (same, above)) h = elim gs [
        | inl (there, below) ↦ inr (omega int_laws)
        | inr (there, below) ↦ inr (omega (int_laws, apart (pos i +ℤ offset)))
      ]
      outside_at g l gs (inr (same, above)) h = elim gs [
        | inl (there, below) ↦ inl (omega (int_laws, apart (pos i +ℤ offset)))
        | inr (there, below) ↦ absurd (omega int_laws)
      ]
