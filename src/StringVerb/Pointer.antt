-- ===== src/StringVerb/Pointer.antt =====
-- A whole STRING statement, from its pointer field to its pointer field.
use Prim.Native.Nat.{ℕ}
use blitzy_open_cobol.Base.{
  ◌-◌, ◌≤◌, ◌<◌, ◌≡◌, refl, ap, ◌∙◌, arith, true, false, Option, none, some, lt→ltb, List, [], ◌∷◌,
  length, inl, inr, ◌⊎◌,
}
use blitzy_open_cobol.Base.Int.{ℤ, pos, negsuc, pos_part, ◌-ℤ◌, ◌+ℤ◌, ltb_ℤ, -ℤ_parts, int_laws}
use blitzy_open_cobol.Field.{ExceptionId}
use blitzy_open_cobol.StringVerb.{
  StringState, StringCall, string_init, string_append, string_delimited, string_calls,
  string_finish,
}
use blitzy_open_cobol.StringVerb.Text.{text, IsWritten, nothing-IsWritten, string_calls-IsWritten}

-- The pointer field, where there is one, points into the destination.
unfoldable pub IsPointer : List ℕ → Option ℤ → Type 0
IsPointer dst none = Unit
IsPointer dst (some ptr) = (1 ≤ pos_part ptr) × (pos_part ptr ≤ length dst)

unfoldable pub start_of : Option ℤ → ℕ
start_of none = 0
start_of (some ptr) = pos_part ptr - 1

-- STRING with any delimiters and sources, and with a pointer that points into the destination or
-- with none: the destination gets the text of the pieces from the pointer on, cut off at its end,
-- all its other bytes are kept, the offset is behind the text, and the overflow condition is raised
-- exactly if the text is cut off.
pub string_calls-text :
    (s : StringState) (dst : List ℕ) (ptr : Option ℤ) (calls : List StringCall)
    → IsPointer dst ptr
    → IsWritten dst
        (start_of ptr)
        (text s.string_dlm calls)
        (string_calls (string_init s dst ptr) calls)
unfolding string_init IsPointer start_of
string_calls-text s dst none calls h =
    string_calls-IsWritten dst 0 (omega arith) calls [] _ (nothing-IsWritten dst 0 _ refl refl refl)
string_calls-text s dst (some (negsuc p)) calls h = absurd (omega (arith, h.0))
string_calls-text s dst (some (pos p)) calls h =
    let (low, high) = h in
    let same : pos p -ℤ pos 1 ≡ pos (p - 1) = omega int_laws in
    let not_low : ltb_ℤ (pos p -ℤ pos 1) (pos 0) ≡ false = rw same (ground arith) in
    let not_high : ltb_ℤ (pos p -ℤ pos 1) (pos (length dst)) ≡ true = rw same (ground arith) in
    string_calls-IsWritten dst (p - 1) (omega arith) calls [] _
      (nothing-IsWritten dst (p - 1) _ refl same (simp (not_low, not_high) refl))

raised_append :
    (e : ExceptionId) (src : List ℕ) (s : StringState)
    → s.exception ≡ some e
    → string_append s src ≡ s
unfolding string_append
raised_append e src s raised = simp raised refl

raised_calls :
    (e : ExceptionId) (calls : List StringCall) (s : StringState)
    → s.exception ≡ some e
    → ((string_calls s calls).string_dst ≡ s.string_dst)
      × ((string_calls s calls).exception ≡ some e)
      × (string_finish (string_calls s calls) ≡ string_finish s)
unfolding string_calls string_delimited string_finish
raised_calls e [] s raised = (refl, raised, refl)
raised_calls e (StringCall.delimited dlm ∷ calls) s raised =
    raised_calls e calls (string_delimited s dlm) raised
raised_calls e (StringCall.append src ∷ calls) s raised =
    let same : string_calls s (StringCall.append src ∷ calls) ≡ string_calls s calls =
      ap (λ (z : StringState). string_calls z calls) (raised_append e src s raised) in
    rw same (raised_calls e calls s raised)

bad_start :
    (s : StringState) (dst : List ℕ) (ptr : ℤ)
    → (pos_part ptr ≡ 0) ⊎ (length dst < pos_part ptr)
    → (string_init s dst (some ptr)).exception ≡ some ExceptionId.overflow_string
unfolding string_init
bad_start s dst ptr (inl low) =
    let below : ltb_ℤ (ptr -ℤ pos 1) (pos 0) ≡ true =
      lt→ltb _ _ (omega (arith, -ℤ_parts ptr (pos 1))) in
    rw below refl
bad_start s dst (negsuc p) (inr high) = absurd (omega arith)
bad_start s dst (pos p) (inr high) =
    let same : pos p -ℤ pos 1 ≡ pos (p - 1) = omega int_laws in
    let low : ltb_ℤ (pos p -ℤ pos 1) (pos 0) ≡ false = rw same (ground arith) in
    let behind : ltb_ℤ (pos p -ℤ pos 1) (pos (length dst)) ≡ false = rw same (ground arith) in
    simp (low, behind) refl

back : (ptr : ℤ) → ptr -ℤ pos 1 +ℤ pos 1 ≡ ptr
back ptr = omega int_laws

-- STRING with a pointer that is below 1 or behind the destination stores nothing, whatever the
-- delimiters and sources, raises the overflow condition and stores the pointer's own value in it.
pub bad_pointer :
    (s : StringState) (dst : List ℕ) (ptr : ℤ) (calls : List StringCall)
    → (pos_part ptr ≡ 0) ⊎ (length dst < pos_part ptr)
    → let r = string_calls (string_init s dst (some ptr)) calls in
      (r.string_dst ≡ dst)
      × (r.exception ≡ some ExceptionId.overflow_string)
      × (string_finish r ≡ some ptr)
unfolding string_init string_finish
bad_pointer s dst ptr calls outside =
    let start = string_init s dst (some ptr) in
    let raised =
      raised_calls ExceptionId.overflow_string calls start (bad_start s dst ptr outside) in
    (raised.0, raised.1, raised.2 ∙ ap (λ (z : ℤ). some z) (back ptr))
