-- ===== src/Files/Names/Laws.antt =====
-- How a file name is expanded.
use blitzy_open_cobol.Base.{ℕ, ◌≤◌, ◌≡◌, ◌≢◌, ◌⊎◌, List, [], ◌∷◌, All}

-- Text without a variable, the name of a variable, and what can stand behind a variable.
abbrev pub IsPlainText : List ℕ → Type 0
IsPlainText = All (λ c. c ≢ b'$')

-- A letter, a digit or an underscore.
abbrev pub IsWordChar : ℕ → Type 0
IsWordChar c =
    ((b'0' ≤ c) × (c ≤ b'9'))
    ⊎ (((b'A' ≤ c) × (c ≤ b'Z')) ⊎ (((b'a' ≤ c) × (c ≤ b'z')) ⊎ (c ≡ b'_')))

abbrev pub IsVariable : List ℕ → Type 0
IsVariable = All IsWordChar

abbrev pub IsBehind : List ℕ → Type 0
IsBehind [] = Unit
IsBehind (c ∷ s) = ¬ IsWordChar c
