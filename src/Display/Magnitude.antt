-- ===== src/Display/Magnitude.antt =====
-- `cob_display_add_int` between reading and writing the sign, on the number that the digits spell.
use native.Mathlib.Nat.{mod-eq_of_lt, suc-mul, add-mul-mod_self_right}
use native.Mathlib.Decide.{dec_lt}
use blitzy_open_cobol.Base.{
  ℕ, zero, suc, ◌+◌, ◌-◌, ◌*◌, ◌%◌, ◌^◌, ◌≤◌, ◌<◌, ◌≡◌, ◌∙◌, refl, sym, ap, Bool, true, false,
  arith, List, ltb, lt→ltb, le→leb, if◌then◌else◌, length,
}
use blitzy_open_cobol.Base.Int.{ℤ, pos, negsuc, ◌+ℤ◌, neg_ℤ, abs, is_negative, int_laws}
use blitzy_open_cobol.Base.Digits.{IsDigits, value, value-lt}
use blitzy_open_cobol.Field.{Module}
use blitzy_open_cobol.Display.{display_add_int, display_sub_int, nines, Sum, add_signed}
use blitzy_open_cobol.Display.Signed.{
  Spells, display_add_int_lem, display_sub_int_lem, value-nines, nines-IsDigits, length-nines,
}

sum_pos : (v k : ℕ) → pos v +ℤ pos k ≡ pos (v + k)
sum_pos v k = omega int_laws

sum_neg : (v k : ℕ) → suc k ≤ v → pos v +ℤ negsuc k ≡ pos (v - suc k)
sum_neg v k h = omega int_laws

sum_past : (v k : ℕ) → v < suc k → pos v +ℤ negsuc k ≡ negsuc (k - v)
sum_past v k h = omega int_laws

no_borrow : (q d n v r : ℕ) → d < r → d + n ≡ v + q * r → n ≤ v → (ltb 0 q ≡ false) × (d ≡ v - n)
no_borrow zero d n v r below e h = (refl, omega arith)
no_borrow (suc q) d n v r below e h = absurd (omega (arith, suc-mul q r))

borrow :
    (q d n v r : ℕ)
    → d < r
    → d + n ≡ v + q * r
    → v < n
    → (ltb 0 q ≡ true) × ((r - d) % r ≡ (n - v) % r)
borrow zero d n v r below e h = absurd (omega arith)
borrow (suc q) d n v r below e h = (
  lt→ltb 0 (suc q) (omega arith),
  sym (add-mul-mod_self_right (r - d) q r) ∙ ap (λ (t : ℕ). t % r) (omega (arith, suc-mul q r)),
)

module _ (m : Module) (bytes : List ℕ) (h : IsDigits bytes) where
  abbrev room : ℕ
  room = 10 ^ length bytes

  -- Complement and add one: the digits of `room - d`, or zero.
  turned-Spells :
      (d : ℕ) (out : List ℕ)
      → Spells bytes d out
      → Spells bytes ((room - d) % room) (display_add_int m (nines out) 1).0
  turned-Spells d out s =
      let turned = (display_add_int_lem (nines out) (nines-IsDigits out s.digits) m 1).0 in
      let width : 10 ^ length (nines out) ≡ room =
        ap (λ (t : ℕ). 10 ^ t) (length-nines out ∙ s.same_length) in
      record {
        spells =
            turned.spells
            ∙ ap (λ (t : ℕ). (value (nines out) + 1) % t) width
            ∙ ap (λ (t : ℕ). t % room)
                (omega (
                  arith,
                  value-nines out s.digits,
                  s.spells,
                  ap (λ (t : ℕ). 10 ^ t) s.same_length,
                ));
        same_length = turned.same_length ∙ length-nines out ∙ s.same_length;
        digits = turned.digits;
      }

  module _ (sign : ℤ) where
    abbrev answer : List ℕ → ℤ → Bool → Sum
    answer digits s overflow = record { digits = digits; sign = s; overflow = overflow }

    add_signed-pos :
        (k : ℕ)
        → add_signed m bytes sign (pos (suc k)) ≡ (
            if (display_add_int m bytes (suc k)).1
            then answer bytes sign true
            else answer (display_add_int m bytes (suc k)).0 sign false)
    unfolding add_signed
    add_signed-pos k = rw (lt→ltb 0 (suc k + 0) (omega arith))

    add_signed-neg :
        (k : ℕ)
        → add_signed m bytes sign (negsuc k) ≡ (
            if (display_sub_int bytes (suc k)).1
            then answer
                (display_add_int m (nines (display_sub_int bytes (suc k)).0) 1).0
                (neg_ℤ sign)
                false
            else answer (display_sub_int bytes (suc k)).0 sign false)
    unfolding add_signed
    add_signed-neg k =
        let not_less : ltb (0 + suc k) 0 ≡ false = ground arith in
        rw (not_less, lt→ltb 0 (0 + suc k) (omega arith))

    add_pos :
        (k : ℕ)
        → value bytes + k < room
        → let r = add_signed m bytes sign (pos k) in
          (r.overflow ≡ false) × Spells bytes (value bytes + k) r.digits × (r.sign ≡ sign)
    add_pos zero fits =
        unfold add_signed in
        (refl, record { spells = omega arith; same_length = refl; digits = h }, refl)
    add_pos (suc k) fits =
        let (spelt, flag) = display_add_int_lem bytes h m (suc k) in
        let stays : (display_add_int m bytes (suc k)).1 ≡ false = ground arith in
        rw (add_signed-pos k, stays) (refl, rw (mod-eq_of_lt fits) at spelt, refl)

    add_neg :
        (k : ℕ)
        → suc k ≤ value bytes
        → let r = add_signed m bytes sign (negsuc k) in
          (r.overflow ≡ false) × Spells bytes (value bytes - suc k) r.digits × (r.sign ≡ sign)
    add_neg k fits =
        let (q, d, spelt, sum, below, flag) = display_sub_int_lem bytes h (suc k) in
        let (zero_borrow, left) = no_borrow q d (suc k) (value bytes) room below sum fits in
        rw (add_signed-neg k, flag, zero_borrow) (refl, rw left at spelt, refl)

    -- On a field whose digits are digits, a subtraction that goes past zero turns the sign, stores the
    -- distance from zero modulo ten to the number of digits, and raises no size error, also where
    -- the distance has more digits than the field.
    pub add_past_zero :
        (k : ℕ)
        → value bytes < suc k
        → let r = add_signed m bytes sign (negsuc k) in
          (r.overflow ≡ false)
          × Spells bytes ((suc k - value bytes) % room) r.digits
          × (r.sign ≡ neg_ℤ sign)
    add_past_zero k past =
        let (q, d, spelt, sum, below, flag) = display_sub_int_lem bytes h (suc k) in
        let (borrowed, left) = borrow q d (suc k) (value bytes) room below sum past in
        rw (add_signed-neg k, flag, borrowed) (refl, rw left at (turned-Spells d _ spelt), refl)

    -- An addition whose sum needs more digits than the field has, in a program with binary
    -- truncation, leaves the digits and the sign alone and raises a size error.
    pub add_overflow :
        (k : ℕ)
        → room ≤ value bytes + k
        → m.flag_binary_truncate ≡ true
        → add_signed m bytes sign (pos k) ≡ answer bytes sign true
    add_overflow zero big trunc = absurd (omega (arith, value-lt bytes h))
    add_overflow (suc k) big trunc =
        let (spelt, flag) = display_add_int_lem bytes h m (suc k) in
        rw (add_signed-pos k, flag, trunc, le→leb _ _ big)

    -- Adding `n`, of either sign, to a field whose digits are digits: where the sum fits the field
    -- there is no size error, the digits spell the magnitude of the sum, and the sign turns exactly
    -- if the sum is negative.
    pub add_exact :
        (n : ℤ)
        → let total = pos (value bytes) +ℤ n in
          let r = add_signed m bytes sign n in
          abs total < room
          → (r.overflow ≡ false)
            × Spells bytes (abs total) r.digits
            × (r.sign ≡ (if is_negative total then neg_ℤ sign else sign))
    add_exact (pos k) fits =
        rw (sum_pos (value bytes) k) (add_pos k (rw (sum_pos (value bytes) k) at fits))
    add_exact (negsuc k) fits = elim (dec_lt (value bytes) (suc k)) [
      | yes past ↦
          let (kept, spelt, turned) = add_past_zero k past in
          let far : suc k - value bytes ≡ suc (k - value bytes) = omega arith in
          let below : suc (k - value bytes) < room = rw (sum_past (value bytes) k past) at fits in
          rw (sum_past (value bytes) k past) (kept, rw (far, mod-eq_of_lt below) at spelt, turned)
      | no enough ↦ rw (sum_neg (value bytes) k (omega arith)) (add_neg k (omega arith))
    ]
