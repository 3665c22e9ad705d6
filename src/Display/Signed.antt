-- ===== src/Display/Signed.antt =====
-- `display_add_int`, `display_sub_int` and `cob_display_add_int` as arithmetic on the numbers that
-- the digits spell.
use mathlib.Core.List.{reverse, reverse-append, reverse-reverse}
use native.Mathlib.Nat.{mod-eq_of_lt, add-mul-mod_self_right, suc-mul, pow-suc}
use blitzy_open_cobol.Base.{
  ℕ, zero, suc, ◌+◌, ◌-◌, ◌*◌, ◌%◌, ◌^◌, ◌<◌, ◌≡◌, ◌∙◌, refl, sym, ap, arith, List, [], ◌∷◌, ltb,
  leb, length, length-append, length-map, ◌&&◌,
}
use blitzy_open_cobol.Base.Digits.{IsDigits, value, value-lt, IsDigits-append}
use blitzy_open_cobol.Field.{Module}
use blitzy_open_cobol.Display.{add_digits, display_add_int, sub_digits, display_sub_int, nines}
use blitzy_open_cobol.Display.Sums.{
  low_value, value-reverse, IsSum, add_digits-IsSum, IsDifference, sub_digits-IsDifference,
}

reverse-IsDigits : (s : List ℕ) → IsDigits s → IsDigits (reverse s)
reverse-IsDigits [] h = tt
reverse-IsDigits (c ∷ s) (hc, hs) =
    rw (reverse-append (c ∷ []) s)
      (IsDigits-append (reverse s) (c ∷ []) (reverse-IsDigits s hs) (hc, tt))

length-reverse : (s : List ℕ) → length (reverse s) ≡ length s
length-reverse [] = refl
length-reverse (c ∷ s) =
    rw (reverse-append (c ∷ []) s)
      (omega (arith, length-append (reverse s) (c ∷ []), length-reverse s))

low_value-reverse : (s : List ℕ) → low_value (reverse s) ≡ value s
low_value-reverse s = sym (value-reverse (reverse s)) ∙ ap value (reverse-reverse s)

over_iff : (r q m t : ℕ) → r < m → r + q * m ≡ t → ltb 0 q ≡ leb m t
over_iff r zero m t h e = ground arith
over_iff r (suc q) m t h e = ground (arith, suc-mul q m)

mod_of_sum : (r q m t : ℕ) → r < m → r + q * m ≡ t → t % m ≡ r
mod_of_sum r q m t h e = rw (← e) (add-mul-mod_self_right r q m ∙ mod-eq_of_lt h)

-- A digit string of the length of `bytes` that spells `v`.
pub record Spells (bytes : List ℕ) (v : ℕ) (out : List ℕ) : Type 0 where
  pub spells : value out ≡ v
  pub same_length : length out ≡ length bytes
  pub digits : IsDigits out

module _ (bytes : List ℕ) (h : IsDigits bytes) where
  Spells-reverse :
      (out : List ℕ)
      → length out ≡ length (reverse bytes)
      → IsDigits out
      → Spells bytes (low_value out) (reverse out)
  Spells-reverse out len digits = record {
    spells = value-reverse out;
    same_length = length-reverse out ∙ len ∙ length-reverse bytes;
    digits = reverse-IsDigits out digits;
  }

  low_value-lt :
      (out : List ℕ)
      → length out ≡ length (reverse bytes)
      → IsDigits out
      → low_value out < 10 ^ length bytes
  low_value-lt out len digits =
      rw (← value-reverse out, ← Spells.same_length (Spells-reverse out len digits))
        (value-lt (reverse out) (reverse-IsDigits out digits))

  -- On digits, `display_add_int` leaves as many digits, which spell the sum modulo ten to their
  -- number, and it returns 1 exactly if the sum needs more digits and binary truncation is on.
  pub display_add_int_lem :
      (m : Module) (n : ℕ)
      → Spells bytes ((value bytes + n) % 10 ^ length bytes) (display_add_int m bytes n).0
        × ((display_add_int m bytes n).1
            ≡ (leb (10 ^ length bytes) (value bytes + n) && m.flag_binary_truncate))
  unfolding display_add_int
  display_add_int_lem m n = (
    rw (mod_of_sum _ loop.over _ _ below total) (Spells-reverse _ loop.same_length loop.digits),
    rw (loop.flag, over_iff _ loop.over _ _ below total),
  )
    where
      loop :
          IsSum (reverse bytes) (low_value (reverse bytes) + n + 0) (add_digits (reverse bytes) n 0)
      loop = add_digits-IsSum (reverse bytes) n 0 (reverse-IsDigits bytes h) (omega arith)

      below : low_value (add_digits (reverse bytes) n 0).0 < 10 ^ length bytes
      below = low_value-lt _ loop.same_length loop.digits

      total :
          low_value (add_digits (reverse bytes) n 0).0 + loop.over * 10 ^ length bytes
          ≡ value bytes + n
      total = omega (
        arith,
        loop.sum,
        low_value-reverse bytes,
        ap (λ (k : ℕ). loop.over * 10 ^ k) (length-reverse bytes),
      )

  -- The digits of the difference modulo `10 ^ length`, and whether a one was borrowed.
  pub display_sub_int_lem :
      (n : ℕ)
      → (q : ℕ) × (d : ℕ) × Spells bytes d (display_sub_int bytes n).0
        × (d + n ≡ value bytes + q * 10 ^ length bytes)
        × (d < 10 ^ length bytes)
        × ((display_sub_int bytes n).1 ≡ ltb 0 q)
  unfolding display_sub_int
  display_sub_int_lem n = (
    loop.under,
    low_value (sub_digits (reverse bytes) n 0).0,
    Spells-reverse _ loop.same_length loop.digits,
    omega (
      arith,
      loop.difference,
      low_value-reverse bytes,
      ap (λ (k : ℕ). loop.under * 10 ^ k) (length-reverse bytes),
    ),
    low_value-lt _ loop.same_length loop.digits,
    loop.flag,
  )
    where
      loop : IsDifference (reverse bytes) (n + 0) (sub_digits (reverse bytes) n 0)
      loop = sub_digits-IsDifference (reverse bytes) n 0 (reverse-IsDigits bytes h) (omega arith)

nine_step : (a d p v w : ℕ) → a + d ≡ 9 → v + w + 1 ≡ p → a * p + v + (d * p + w) + 1 ≡ p * 10
nine_step a d p v w e h = omega (arith, ap (λ (t : ℕ). t * p) e)

-- The nines' complement of a digit string.
pub value-nines : (s : List ℕ) → IsDigits s → value (nines s) + value s + 1 ≡ 10 ^ length s
value-nines [] h = omega arith
value-nines (c ∷ s) (hc, hs) =
    simp (length-map, pow-suc)
      (nine_step _ _ _ _ (value s) (omega arith)
        (omega (arith, value-nines s hs, length-map s (λ x. (256 + 9 + b'0' + b'0' - x) % 256))))

pub nines-IsDigits : (s : List ℕ) → IsDigits s → IsDigits (nines s)
nines-IsDigits [] h = tt
nines-IsDigits (c ∷ s) (hc, hs) = (omega arith, nines-IsDigits s hs)

pub length-nines : (s : List ℕ) → length (nines s) ≡ length s
length-nines s = length-map s _
