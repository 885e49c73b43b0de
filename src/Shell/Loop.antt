-- ===== src/Shell/Loop.antt =====
-- `main` of shell-skeleton.c: prompt, command, until one of them says EXIT.
use comp304_assignments.Prelude.{
  ℕ, ◌+◌, Bool, true, false, ◌||◌, Option, none, some, List, [], ◌∷◌, ◌++◌, if◌then◌else◌,
}
use comp304_assignments.Prelude.Text.{Text, codes}
use comp304_assignments.Shell.Parse.{Command, Outcome, fault, overrun, out_of_fuel}
use comp304_assignments.Shell.Prompt.{Editor, Prompted, parsed, left, asking, stuck, prompt}
use comp304_assignments.Shell.Host.{Tm, Host, Effect, ran, printed, module_loaded}
use comp304_assignments.Shell.Commands.{
  success, exit, unknown, Ran, returned, crashed, running, process_command,
}

-- `memset(command, 0, …)`
abbrev pub zeroed : Command
zeroed = record {
  name = [];
  background = false;
  auto_complete = false;
  args = [];
  redirects = λ i. none;
  redirect_files = λ i. none;
  redirect_idxs = λ i. some 0;
}

-- How the shell ends: at `return 0`, with the effects of it and of its children in order; at a read
-- through NULL or an overrun; or not yet.
pub data Session : Type 0 where
  ended : List Effect → Session
  dead : Session
  open_still : Session

-- What follows the loop; `loaded` is `kernel_module_loaded == 1`.
unfoldable pub leave_shell : Bool → List Effect → Session
leave_shell loaded done = ended (
    done
    ++ (if loaded
        then ran (codes "sudo rmmod mymodule.ko") ∷ printed (codes "\n") ∷ []
        else printed (codes "\n") ∷ []))

abbrev pub effects_of : Option (List Effect) → List Effect
effects_of none = []
effects_of (some es) = es

-- An assignment to kernel_module_loaded among the shell's own steps.
unfoldable pub sets_loaded : List Effect → Bool
sets_loaded [] = false
sets_loaded (module_loaded ∷ es) = true
sets_loaded (_ ∷ es) = sets_loaded es

-- The round behind a command, with what follows it as a function of the flag.
abbrev pub after_command :
    Bool → (Bool → List Effect → Session) → List Effect → Command → Ran → Session
after_command loaded next done command crashed = dead
after_command loaded next done command running = open_still
after_command loaded next done command (returned exit es child) =
    leave_shell (loaded || sets_loaded es) (done ++ es)
after_command loaded next done command (returned success es child) =
    next (loaded || sets_loaded es) (done ++ (es ++ effects_of child))
after_command loaded next done command (returned unknown es child) =
    next (loaded || sets_loaded es) (done ++ (es ++ effects_of child))

-- The round behind the prompt.
abbrev pub after_prompt :
    Bool
    → (run : Command → Ran) (next : Editor → Bool → List Effect → Session) → List Effect
    → Prompted
    → Session
after_prompt loaded run next done left = leave_shell loaded done
after_prompt loaded run next done asking = open_still
after_prompt loaded run next done stuck = dead
after_prompt loaded run next done (parsed (Outcome.parsed []) e) = dead
after_prompt loaded run next done (parsed (Outcome.parsed (command ∷ piped)) e) =
    after_command loaded (next e) done command (run command)
after_prompt loaded run next done (parsed fault e) = dead
after_prompt loaded run next done (parsed overrun e) = dead
after_prompt loaded run next done (parsed out_of_fuel e) = open_still

-- What the parser of this command leaves in memory, and the array of an alias.
module _ (blank : Command) (blank_next : List Command) (array : List ℕ) where
  -- One round per list of keys; `hosts` is the system as each round finds it.
  unfoldable pub shell_loop :
      (k : ℕ) (hosts : ℕ → Host) (tms : Option Text → ℕ → Tm) (clock_keys : ℕ → Option ℕ)
      → List (List ℕ)
      → ℕ
      → Editor
      → Bool
      → List Effect
      → Session
  shell_loop k hosts tms clock_keys [] i e loaded done = open_still
  shell_loop k hosts tms clock_keys (keys ∷ lines) i e loaded done =
      after_prompt loaded (process_command k (hosts i) tms clock_keys)
        (λ next flag es. shell_loop k hosts tms clock_keys lines (i + 1) next flag es) done
        (prompt blank blank_next k (hosts i).malloc_text ((hosts i).files (codes "alias.txt")) array
          keys e zeroed)
