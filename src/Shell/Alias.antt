-- ===== src/Shell/Alias.antt =====
-- `read_from_file` and `check_for_aliases` of shell-skeleton.c.
use comp304_assignments.Prelude.{
  ℕ, zero, suc, ◌+◌, Bool, true, false, ◌&&◌, Option, none, some, List, [], ◌∷◌, ◌++◌, ltb, leb,
  ◌==◌, if◌then◌else◌, length,
}
use comp304_assignments.Shell.Text.{Text}
use comp304_assignments.Shell.Replace.{Location, strstr, skip, replace}

-- `fgets` of at most `n` characters: the line, and what is left of the file.
unfoldable pub fgets : ℕ → Text → Text × Text
fgets zero cs = ([], cs)
fgets (suc n) [] = ([], [])
fgets (suc n) (c ∷ cs) =
    let (line, left) = fgets n cs in if c == 10 then (c ∷ [], cs) else (c ∷ line, left)

pub data FileText : Type 0 where
  no_file : FileText
  text_is : Text → FileText
  too_long : FileText
  endless : FileText

-- The loop, with at most `k` lines, behind the string that the array holds.
unfoldable pub read_lines : ℕ → (str file : Text) → FileText
unfolding fgets
read_lines k str [] = text_is str
read_lines zero str (c ∷ cs) = endless
read_lines (suc k) str (c ∷ cs) =
    let (line, left) = fgets 1999 (c ∷ cs) in
    elim (ltb (length (str ++ line)) 40000) [
      | true ↦ read_lines k (str ++ line) left
      | false ↦ too_long
    ]

-- `junk` is what the memory of `malloc` holds up to its first NUL: the code does not clear it, and
-- appends to it. Where there is no NUL in the 40000 bytes, it is too long.
unfoldable pub read_from_file : ℕ → (junk : Text) → Option Text → FileText
unfolding read_lines
read_from_file k junk none = no_file
read_from_file k junk (some file) = elim (ltb (length junk) 40000) [
  | true ↦ read_lines k junk file
  | false ↦ too_long
]

-- The tokens of `strtok(…, "\n")`: the lines that are not empty. The pair has the line that is not
-- over yet in front.
abbrev pub close_line : Text × List Text → List Text
close_line ([], lines) = lines
close_line (c ∷ cs, lines) = (c ∷ cs) ∷ lines

unfoldable pub open_lines : Text → Text × List Text
open_lines [] = ([], [])
open_lines (c ∷ cs) =
    let rest = open_lines cs in if c == 10 then ([], close_line rest) else (c ∷ rest.0, rest.1)

unfoldable pub lines_of : Text → List Text
unfolding open_lines
lines_of cs = close_line (open_lines cs)

-- `strchr(token, ';')`: the alias in front of it, and its command.
unfoldable pub split_alias : Text → Option (Text × Text)
split_alias [] = none
split_alias (c ∷ cs) =
    let rest = split_alias cs in
    if c == b';'
    then some ([], cs)
    else elim rest [ none ↦ none | some (before, command) ↦ some (c ∷ before, command) ]

-- The string in an array.
unfoldable pub c_string : List ℕ → Text
c_string [] = []
c_string (c ∷ cs) = let rest = c_string cs in if c == 0 then [] else c ∷ rest

-- `strncpy` of the alias into its array of 100 characters, which puts no NUL behind it, and `strcat`
-- of a blank to the string that the array holds then; none where this overruns the array.
unfoldable pub put_alias : Text → List ℕ → Option (List ℕ)
unfolding c_string skip
put_alias name array =
    let copied = name ++ skip (length name) array in
    let held = c_string copied in
    if leb (length name) 100 && ltb (length held + 1) 100
    then some (held ++ 32 ∷ 0 ∷ skip (length held + 2) copied)
    else none

-- `(loc - 1)[0] == 32`, or the start of the line
unfoldable pub at_word : Text → Bool
at_word [] = true
at_word (c ∷ []) = c == 32
at_word (c ∷ d ∷ ds) = at_word (d ∷ ds)

-- `fault` is a token without `;`, `overrun` a string that is too long for its array.
pub data Expanded : Type 0 where
  line_is : Text → Expanded
  fault : Expanded
  overrun : Expanded

abbrev pub or_overrun : Option Text → Expanded
or_overrun none = overrun
or_overrun (some text) = line_is text

-- The test of one alias, with its blank, and the command for it.
unfoldable pub expand_at : (alias comm temp : Text) → Option Location → Expanded
unfolding replace at_word
expand_at alias comm temp none = line_is temp
expand_at alias comm temp (some (before, from)) =
    if at_word before then or_overrun (replace alias comm (before, from)) else line_is temp

-- The loop over the aliases.
unfoldable pub expand : List Text → List ℕ → Text → Expanded
unfolding split_alias put_alias strstr expand_at
expand [] array temp = line_is temp
expand (token ∷ tokens) array temp = elim (split_alias token) [
  | none ↦ fault
  | some (name, command) ↦ elim (put_alias name array) [
    | none ↦ overrun
    | some filled ↦
        if ltb (length command + 1) 400
        then elim (expand_at (c_string filled) (command ++ 32 ∷ []) temp
            (strstr temp (c_string filled))) [
              | line_is next ↦ expand tokens filled next
              | fault ↦ fault
              | overrun ↦ overrun
            ]
        else overrun
  ]
]

-- `array` is what the stack holds where the array of the alias lies.
unfoldable pub check_for_aliases : ℕ → (junk : Text) → Option Text → List ℕ → Text → Expanded
unfolding read_from_file lines_of expand
check_for_aliases k junk file array buf = elim (read_from_file k junk file) [
  | no_file ↦ line_is buf
  | text_is text ↦
      if ltb (length buf + 1) 4096 then expand (lines_of text) array (buf ++ 32 ∷ []) else overrun
  | too_long ↦ overrun
  | endless ↦ overrun
]
