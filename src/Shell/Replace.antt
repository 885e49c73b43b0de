-- ===== src/Shell/Replace.antt =====
-- `replace` of shell-skeleton.c, `strstr` as it is used there, and the loop of the command `repl`.
use comp304_assignments.Prelude.{
  ℕ, zero, suc, Bool, true, false, ◌&&◌, Option, none, some, [], ◌∷◌, ◌++◌, ltb, ◌==◌,
  if◌then◌else◌, length,
}
use comp304_assignments.Shell.Text.{Text}

unfoldable pub starts_with : Text → Text → Bool
starts_with [] cs = true
starts_with (p ∷ ps) [] = false
starts_with (p ∷ ps) (c ∷ cs) = (p == c) && starts_with ps cs

-- A pointer into a string: what stands in front of it, and the string from there on.
abbrev pub Location : Type 0
Location = Text × Text

abbrev pub behind : ℕ → Option Location → Option Location
behind c none = none
behind c (some (before, from)) = some (c ∷ before, from)

-- The first occurrence of `part`.
unfoldable pub strstr : Text → Text → Option Location
unfolding starts_with
strstr [] part = if starts_with part [] then some ([], []) else none
strstr (c ∷ cs) part =
    let later = behind c (strstr cs part) in
    if starts_with part (c ∷ cs) then some ([], c ∷ cs) else later

unfoldable pub skip : ℕ → Text → Text
skip zero cs = cs
skip (suc n) [] = []
skip (suc n) (c ∷ cs) = skip n cs

-- `replace(str, orig, rep, loc)`; none where the buffer of 4096 characters overflows.
unfoldable pub replace : (orig rep : Text) → Location → Option Text
unfolding skip
replace orig rep (before, from) =
    let text = before ++ (rep ++ skip (length orig) from) in
    if ltb (length text) 4096 then some text else none

-- The command `repl` writes a file, or ends the shell: by a read through NULL where there is no
-- file, or by the overflow.
pub data Repl : Type 0 where
  written : Text → Repl
  fault : Repl
  overrun : Repl
  out_of_fuel : Repl

-- The loop, with at most `k` rounds.
unfoldable pub repl_loop : ℕ → (orig rep text : Text) → Repl
unfolding strstr replace
repl_loop zero orig rep text = elim (strstr text orig) [
  | none ↦ written text
  | some loc ↦ out_of_fuel
]
repl_loop (suc k) orig rep text = elim (strstr text orig) [
  | none ↦ written text
  | some loc ↦ elim (replace orig rep loc) [
    | none ↦ overrun
    | some next ↦ repl_loop k orig rep next
  ]
]

-- `repl orig rep file to`, with the text of the file.
unfoldable pub repl : ℕ → (orig rep : Text) → Option Text → Repl
unfolding repl_loop
repl k orig rep none = fault
repl k orig rep (some text) = repl_loop k orig rep text
