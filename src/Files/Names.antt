-- ===== src/Files/Names.antt =====
-- The file name mapping in `cob_open` of libcob/fileio.c: the `$` variables of a name, and the
-- environment variables that stand for a simple name. All names fit the buffers of the library.
pub mod Laws
use blitzy_open_cobol.Base.{
  ℕ, zero, suc, ◌+◌, ◌==◌, Bool, true, false, not, ◌&&◌, ◌||◌, Option, none, some, List, [], ◌∷◌,
  ◌++◌, length, leb, if◌then◌else◌,
}

-- isalnum in the C locale.
abbrev pub isalnum : ℕ → Bool
isalnum c = leb b'0' c && leb c b'9' || (leb b'A' c && leb c b'Z' || leb b'a' c && leb c b'z')

-- A character of the name of a variable behind `$`.
abbrev pub in_variable : ℕ → Bool
in_variable c = isalnum c || c == b'_'

-- A character of a simple name.
abbrev pub in_simple : ℕ → Bool
in_simple c = isalnum c || (c == b'_' || c == b'-')

-- The name of the variable, and what stands behind it.
abbrev pub more_of : ℕ → List ℕ × List ℕ → List ℕ × List ℕ
more_of c (name, rest) = (c ∷ name, rest)

unfoldable pub variable_name : List ℕ → List ℕ × List ℕ
variable_name [] = ([], [])
variable_name (c ∷ s) =
    let later = variable_name s in if in_variable c then more_of c later else ([], c ∷ s)

-- What getenv knows of a variable; a variable that is not set becomes nothing.
abbrev pub or_nothing : Option (List ℕ) → List ℕ
or_nothing none = []
or_nothing (some value) = value

-- The prefixes "DD_" and "dd_", and none.
abbrev pub dd_upper : List ℕ
dd_upper = b'D' ∷ b'D' ∷ b'_' ∷ []

abbrev pub dd_lower : List ℕ
dd_lower = b'd' ∷ b'd' ∷ b'_' ∷ []

-- The first of some variables that is set.
abbrev pub first_set : Option (List ℕ) → Option (List ℕ) → Option (List ℕ)
first_set (some value) later = some value
first_set none later = later

abbrev pub in_path : Option (List ℕ) → List ℕ → List ℕ
in_path none name = name
in_path (some path) name = path ++ b'/' ∷ name

abbrev pub set_or : Option (List ℕ) → List ℕ → List ℕ
set_or none name = name
set_or (some value) name = value

abbrev pub is_simple : List ℕ → Bool
is_simple [] = true
is_simple (c ∷ src) = in_simple c && is_simple src

module _ (getenv : List ℕ → Option (List ℕ)) where
  -- The loop that expands the variables. Each turn takes one character at least.
  unfoldable pub expand : ℕ → List ℕ → List ℕ
  expand zero src = []
  expand (suc turns) [] = []
  expand (suc turns) (c ∷ src) =
      let behind = expand turns (variable_name src).1 in
      let next = expand turns src in
      if c == b'$' then or_nothing (getenv (variable_name src).0) ++ behind else c ∷ next

  -- A name without a slash or a variable: the variables DD_name, dd_name and name, and then the
  -- directory of the files, `cob_file_path`.
  unfoldable pub resolve_simple : Option (List ℕ) → List ℕ → List ℕ
  resolve_simple cob_file_path name =
      set_or
        (first_set (getenv (dd_upper ++ name))
          (first_set (getenv (dd_lower ++ name)) (getenv name)))
        (in_path cob_file_path name)

  unfoldable pub map_file_name : Bool → Option (List ℕ) → List ℕ → List ℕ
  map_file_name flag_filename_mapping cob_file_path name =
      let expanded = expand (length name) name in
      if flag_filename_mapping
      then (if is_simple name then resolve_simple cob_file_path expanded else expanded)
      else name
