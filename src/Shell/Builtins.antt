-- ===== src/Shell/Builtins.antt =====
-- `alias` and the prompt together.
use comp304_assignments.Prelude.{
  ℕ, ◌≤◌, ◌<◌, ◌≡◌, refl, sym, ap, ◌∙◌, true, Option, none, some, List, [], ◌∷◌, ◌++◌, arith,
  length, lt→ltb,
}
use mathlib.Core.List.{append_assoc}
use comp304_assignments.Prelude.Text.{Text, codes}
use comp304_assignments.Shell.Parse.{Command}
use comp304_assignments.Shell.Host.{Tm, Host, appended}
use comp304_assignments.Shell.Alias.{line_is, check_for_aliases}
use comp304_assignments.Shell.Expand.{Avoids, Avoids-append, zeros}
use comp304_assignments.Shell.Aliases.{check_for_aliases-start}
use comp304_assignments.Shell.Commands.{success, returned, later_words, process_command}

-- The command line of `alias`.
abbrev pub alias_line : Command → List Text → Command
alias_line command words = record command { name = codes "alias"; args = codes "alias" ∷ words }

-- What the words of an alias become.
abbrev pub joined : Text → List Text → Text
joined w ws = w ++ 32 ∷ later_words ws

module _ (k : ℕ) (host : Host) (tms : Option Text → ℕ → Tm) (keys : ℕ → Option ℕ) where
  run_alias_lem :
      (command : Command) (name w : Text) (ws : List Text)
      → host.writable (codes "alias.txt") ≡ true
      → length (joined w ws) < 100
      → process_command k host tms keys (alias_line command (name ∷ w ∷ ws))
        ≡ returned success
            (appended (codes "alias.txt") (name ++ b';' ∷ (joined w ws ++ 10 ∷ [])) ∷ [])
            none
  unfolding process_command
  run_alias_lem command name w ws h l = rw (lt→ltb (length (joined w ws)) 100 l, h)

  -- The command `alias` with a name and words appends an entry to alias.txt where that file opens
  -- and the words with their blanks have fewer than 100 characters; and where this entry is the
  -- whole file, the prompt replaces the name in a line that is the name, a blank and a rest of
  -- fewer than 3900 characters by the words. The name has 1 to 98 characters, none of them `;`, and
  -- neither it nor the words have a newline, nor the name a NUL; the array for the alias is zero
  -- before; the memory that `malloc` returns for the file starts with a NUL; `read_from_file` may
  -- make 500 rounds.
  pub process_command-check_for_aliases :
      (command : Command) (j c : ℕ) (cs w : Text) (ws : List Text) (rest : Text)
      → host.writable (codes "alias.txt") ≡ true
      → length (joined w ws) < 100
      → length (c ∷ cs) ≤ 98
      → Avoids b';' (c ∷ cs)
      → Avoids 0 (c ∷ cs)
      → Avoids 10 (c ∷ cs)
      → Avoids 10 (joined w ws)
      → length rest < 3900
      → 500 ≤ j
      → (entry : Text) × (process_command k host tms keys (alias_line command ((c ∷ cs) ∷ w ∷ ws))
          ≡ returned success (appended (codes "alias.txt") entry ∷ []) none)
        × (check_for_aliases j [] (some entry) (zeros 100) (c ∷ (cs ++ 32 ∷ rest))
            ≡ line_is ((joined w ws ++ 32 ∷ []) ++ (rest ++ 32 ∷ [])))
  process_command-check_for_aliases command j c cs w ws rest h l n s z e f r b = (
    (c ∷ cs) ++ b';' ∷ (joined w ws ++ 10 ∷ []),
    run_alias_lem command (c ∷ cs) w ws h l,
    ap (λ t. check_for_aliases j [] (some t) (zeros 100) (c ∷ (cs ++ 32 ∷ rest)))
          (sym (append_assoc (c ∷ cs) (b';' ∷ joined w ws) (10 ∷ [])))
        ∙ check_for_aliases-start j c cs (joined w ws) rest s z
            (Avoids-append 10 (c ∷ cs) (b';' ∷ joined w ws) e (refl, f)) n (omega arith)
            (omega arith) r b,
  )
