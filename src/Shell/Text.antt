-- ===== src/Shell/Text.antt =====
-- C strings without their terminator, as lists of characters, and `strtok` with " \t".
use comp304_assignments.Prelude.{
  ℕ, Bool, true, false, ◌&&◌, ◌||◌, Option, none, some, [], ◌∷◌, ◌==◌, if◌then◌else◌,
}
pub use comp304_assignments.Prelude.Text.{Text}
unfoldable pub use comp304_assignments.Prelude.Text.{equal}

abbrev pub is_empty : Text → Bool
is_empty [] = true
is_empty (c ∷ cs) = false

-- `strchr(splitters, c) != NULL`, for a character of a string
abbrev pub is_splitter : ℕ → Bool
is_splitter c = (c == 32) || (c == 9)

unfoldable pub trim_left : Text → Text
trim_left [] = []
trim_left (c ∷ cs) = let rest = trim_left cs in if is_splitter c then rest else c ∷ cs

unfoldable pub trim_right : Text → Text
trim_right [] = []
trim_right (c ∷ cs) =
    let rest = trim_right cs in if is_splitter c && is_empty rest then [] else c ∷ rest

-- The characters up to the first splitter.
unfoldable pub word : Text → Text
word [] = []
word (c ∷ cs) = let rest = word cs in if is_splitter c then [] else c ∷ rest

-- What follows the first splitter; none where the string ends before one.
unfoldable pub after_word : Text → Option Text
after_word [] = none
after_word (c ∷ cs) = let rest = after_word cs in if is_splitter c then some cs else rest

abbrev pub token_of : Text → Option (Text × Option Text)
token_of [] = none
token_of (c ∷ cs) = some (word (c ∷ cs), after_word (c ∷ cs))

-- The next token, and the pointer that `strtok` keeps: none once it stands at the end.
unfoldable pub strtok : Option Text → Option (Text × Option Text)
strtok none = none
strtok (some t) = token_of (trim_left t)

-- `buf[len - 1] == c`
unfoldable pub ends_with : ℕ → Text → Bool
ends_with c [] = false
ends_with c (d ∷ []) = d == c
ends_with c (d ∷ e ∷ ds) = ends_with c (e ∷ ds)
