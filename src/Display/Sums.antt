-- ===== src/Display/Sums.antt =====
-- What the digit loops compute.
use mathlib.Core.List.{reverse, reverse-append}
use native.Mathlib.Nat.{pow-suc}
use blitzy_open_cobol.Base.{
  ℕ, suc, ◌+◌, ◌-◌, ◌*◌, ◌/◌, ◌%◌, ◌^◌, ◌≤◌, ◌≡◌, refl, ap, Bool, false, arith, List, [], ◌∷◌, ltb,
  leb, ◌==◌, if◌then◌else◌, Bool-cases, inl, inr, length,
}
use blitzy_open_cobol.Base.Digits.{IsDigit, IsDigits, d2i, value, value-append}
use blitzy_open_cobol.Base.Nibbles.{low_nibble, low_nibble-eq}
use blitzy_open_cobol.Display.{carry_up, add_digits, carry_down, sub_digits}

-- The number that digits spell, the least significant digit first.
abbrev pub low_value : List ℕ → ℕ
low_value [] = 0
low_value (c ∷ s) = d2i c + 10 * low_value s

pub value-reverse : (s : List ℕ) → value (reverse s) ≡ low_value s
value-reverse [] = refl
value-reverse (c ∷ s) =
    rw (reverse-append (c ∷ []) s)
      (omega (arith, value-append (reverse s) (c ∷ []), value-reverse s))

-- `out` are the digits of `total`, with `over` units above the highest digit.
pub record IsSum (s : List ℕ) (total : ℕ) (out : List ℕ × Bool) : Type 0 where
  pub over : ℕ
  pub sum : low_value out.0 + over * 10 ^ length s ≡ total
  pub flag : out.1 ≡ ltb 0 over
  pub same_length : length out.0 ≡ length s
  pub digits : IsDigits out.0

IsSum-cons :
    (c d : ℕ) (s : List ℕ) (t total : ℕ) (out : List ℕ × Bool)
    → IsDigit d
    → IsSum s t out
    → d2i d + 10 * t ≡ total
    → IsSum (c ∷ s) total (d ∷ out.0, out.1)
IsSum-cons c d s t total out hd r e = record {
  over = r.over;
  sum = omega (arith, r.sum, ap (λ (k : ℕ). r.over * k) (pow-suc 10 (length s)));
  flag = r.flag;
  same_length = ap suc r.same_length;
  digits = (hd, r.digits);
}

-- The loop ends at a digit that takes the carry.
IsSum-stop :
    (c d : ℕ) (s : List ℕ) (total : ℕ)
    → IsDigits (d ∷ s)
    → d2i d + 10 * low_value s ≡ total
    → IsSum (c ∷ s) total (d ∷ s, false)
IsSum-stop c d s total h e = record {
  over = 0;
  sum = omega arith;
  flag = refl;
  same_length = refl;
  digits = h;
}

pub carry_up-IsSum : (s : List ℕ) → IsDigits s → IsSum s (low_value s + 1) (carry_up s)
unfolding carry_up
carry_up-IsSum [] h = record {
  over = 1;
  sum = omega arith;
  flag = refl;
  same_length = refl;
  digits = tt;
}
carry_up-IsSum (c ∷ s) (hc, hs) = elim (Bool-cases (leb ((c + 1) % 256) b'9')) [
  | inl stops ↦ rw stops (IsSum-stop c ((c + 1) % 256) s _ (ground arith, hs) (ground arith))
  | inr goes ↦
      rw goes
        (IsSum-cons c b'0' s _ _ (carry_up s) (omega arith) (carry_up-IsSum s hs) (ground arith))
]

pub add_digits-IsSum :
    (s : List ℕ) (n carry : ℕ)
    → IsDigits s
    → carry ≤ 1
    → IsSum s (low_value s + n + carry) (add_digits s n carry)
unfolding add_digits
add_digits-IsSum [] n carry h k = record {
  over = n + carry;
  sum = omega arith;
  flag = ground arith;
  same_length = refl;
  digits = tt;
}
add_digits-IsSum (c ∷ s) n carry (hc, hs) k = elim (Bool-cases (ltb 0 n)) [
  | inl more ↦ rw more (
      IsSum-cons c _ s _ _
        (add_digits s (n / 10) (if ltb 9 (low_nibble c + n % 10 + carry) then 1 else 0))
        (ground (arith, low_nibble-eq c)) (add_digits-IsSum s (n / 10) _ hs (ground arith))
        (ground (arith, low_nibble-eq c)))
  | inr last ↦ rw last (elim (Bool-cases (carry == 0)) [
    | inl stops ↦ rw stops (IsSum-stop c c s _ (hc, hs) (ground arith))
    | inr goes ↦ rw goes (
        let e : d2i c + 10 * low_value s + n + carry ≡ low_value (c ∷ s) + 1 = ground arith in
        rw e (carry_up-IsSum (c ∷ s) (hc, hs)))
  ])
]

-- `out` are the digits of what is left when `n` is taken away, with `under` units borrowed from
-- above the highest digit.
pub record IsDifference (s : List ℕ) (n : ℕ) (out : List ℕ × Bool) : Type 0 where
  pub under : ℕ
  pub difference : low_value out.0 + n ≡ low_value s + under * 10 ^ length s
  pub flag : out.1 ≡ ltb 0 under
  pub same_length : length out.0 ≡ length s
  pub digits : IsDigits out.0

IsDifference-cons :
    (c d : ℕ) (s : List ℕ) (t n : ℕ) (out : List ℕ × Bool)
    → IsDigit d
    → IsDifference s t out
    → d2i d + n ≡ d2i c + 10 * t
    → IsDifference (c ∷ s) n (d ∷ out.0, out.1)
IsDifference-cons c d s t n out hd r e = record {
  under = r.under;
  difference = omega (arith, r.difference, ap (λ (k : ℕ). r.under * k) (pow-suc 10 (length s)));
  flag = r.flag;
  same_length = ap suc r.same_length;
  digits = (hd, r.digits);
}

IsDifference-stop :
    (c d : ℕ) (s : List ℕ) (n : ℕ)
    → IsDigits (d ∷ s)
    → d2i d + n ≡ d2i c
    → IsDifference (c ∷ s) n (d ∷ s, false)
IsDifference-stop c d s n h e = record {
  under = 0;
  difference = omega arith;
  flag = refl;
  same_length = refl;
  digits = h;
}

pub carry_down-IsDifference : (s : List ℕ) → IsDigits s → IsDifference s 1 (carry_down s)
unfolding carry_down
carry_down-IsDifference [] h = record {
  under = 1;
  difference = omega arith;
  flag = refl;
  same_length = refl;
  digits = tt;
}
carry_down-IsDifference (c ∷ s) (hc, hs) = elim (Bool-cases (leb b'0' ((c + 255) % 256))) [
  | inl stops ↦
      rw stops (IsDifference-stop c ((c + 255) % 256) s 1 (ground arith, hs) (ground arith))
  | inr goes ↦ rw goes (
      IsDifference-cons c b'9' s 1 1 (carry_down s) (omega arith) (carry_down-IsDifference s hs)
        (ground arith))
]

pub sub_digits-IsDifference :
    (s : List ℕ) (n carry : ℕ)
    → IsDigits s
    → carry ≤ 1
    → IsDifference s (n + carry) (sub_digits s n carry)
unfolding sub_digits
sub_digits-IsDifference [] n carry h k = record {
  under = n + carry;
  difference = omega arith;
  flag = ground arith;
  same_length = refl;
  digits = tt;
}
sub_digits-IsDifference (c ∷ s) n carry (hc, hs) k = elim (Bool-cases (ltb 0 n)) [
  | inl more ↦ rw more (
      IsDifference-cons c _ s (n / 10 + (if ltb left b'0' then 1 else 0)) _
        (sub_digits s (n / 10) (if ltb left b'0' then 1 else 0)) (ground arith)
        (sub_digits-IsDifference s (n / 10) _ hs (ground arith)) (ground arith))
  | inr last ↦ rw last (elim (Bool-cases (carry == 0)) [
    | inl stops ↦ rw stops (IsDifference-stop c c s _ (hc, hs) (ground arith))
    | inr goes ↦
        rw goes
          (let e : n + carry ≡ 1 = ground arith in rw e (carry_down-IsDifference (c ∷ s) (hc, hs)))
  ])
]
  where
    left : ℕ
    left = (c + 256 - (n % 10 + carry)) % 256
