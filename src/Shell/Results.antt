-- ===== src/Shell/Results.antt =====
-- What `process_command` returns, and where its child ends.
use comp304_assignments.Prelude.{
  ℕ, ◌≡◌, refl, ◌⊎◌, inl, inr, true, Bool-cases, Option, none, some, List, [], ◌∷◌,
}
use comp304_assignments.Prelude.Text.{Text}
use comp304_assignments.Shell.Parse.{Command}
use comp304_assignments.Shell.Host.{Tm, Host, Effect}
use comp304_assignments.Shell.Child.{try_dirs, try_path, search_path, dirs_of, child}
use comp304_assignments.Shell.Redirect.{redirect-cases}
use comp304_assignments.Shell.Morning.{good_morning}
use comp304_assignments.Shell.Commands.{
  success, exit, unknown, Ran, returned, crashed, running, or_crashed, stops, falls_to, not_found,
  fork, process_command,
}
use comp304_assignments.Shell.Cases.{AreQuiet, process_command-cases}

-- One of the steps of the process is an exit, a read through NULL or an overrun.
abbrev pub Ends : List Effect → Type 0
Ends [] = ⊥
Ends (e ∷ es) = (stops e ≡ true) ⊎ Ends es

-- The result is not UNKNOWN, and the child, where there is one, ends behind the fork.
unfoldable pub IsKnown : Ran → Type 0
IsKnown (returned unknown es child) = ⊥
IsKnown (returned success es none) = Unit
IsKnown (returned success es (some child)) = Ends child
IsKnown (returned exit es child) = Unit
IsKnown crashed = Unit
IsKnown running = Unit

falls_to-Ends : (es after : List Effect) → Ends es → Ends (falls_to es after)
unfolding falls_to
falls_to-Ends [] after h = absurd h
falls_to-Ends (e ∷ es) after h = elim (Bool-cases (stops e)) [
  | inl y ↦ rw y (inl y)
  | inr n ↦ rw n (elim h [ inl s ↦ inl s | inr later ↦ inr (falls_to-Ends es after later) ])
]

try_dirs-Ends : (dirs : List Text) (command : Command) → Ends (try_dirs dirs command)
unfolding try_dirs
try_dirs-Ends [] command = inl refl
try_dirs-Ends (dir ∷ dirs) command = inr (try_dirs-Ends dirs command)

try_path-Ends : (path : Option Text) (command : Command) → Ends (try_path path command)
try_path-Ends none command = inl refl
try_path-Ends (some path) command = try_dirs-Ends (dirs_of path) command

child-Ends : (host : Host) (command : Command) → Ends (child host command)
unfolding child
child-Ends host command =
    redirect-cases Ends host command (try_path (search_path host) command) (inr (inl refl))
      (λ m file i rest h. inr h) (try_path-Ends (search_path host) command) 3 0

fork-IsKnown : (host : Host) (command : Command) (es : List Effect) → IsKnown (fork host command es)
unfolding IsKnown fork
fork-IsKnown host command es =
    falls_to-Ends (child host command) (not_found command) (child-Ends host command)

success-IsKnown : (es : List Effect) → AreQuiet es → IsKnown (returned success es none)
unfolding IsKnown
success-IsKnown es q = tt

exit-IsKnown : IsKnown (returned exit [] none)
unfolding IsKnown
exit-IsKnown = tt

crashed-IsKnown : IsKnown crashed
unfolding IsKnown
crashed-IsKnown = tt

running-IsKnown : IsKnown running
unfolding IsKnown
running-IsKnown = tt

or_crashed-IsKnown : (o : Option (List Effect)) → IsKnown (or_crashed o)
unfolding IsKnown
or_crashed-IsKnown none = tt
or_crashed-IsKnown (some es) = tt

module _ (k : ℕ) (host : Host) (tms : Option Text → ℕ → Tm) (keys : ℕ → Option ℕ) where
  -- `process_command` never returns UNKNOWN, and a child that it forks ends behind the fork (by an
  -- exit, a read through NULL or an overrun) and does not go on to the message, whatever the
  -- command, the files and the results of the system's calls are.
  pub process_command-IsKnown :
      (command : Command) → IsKnown (process_command k host tms keys command)
  process_command-IsKnown command =
      process_command-cases IsKnown k host tms keys command crashed-IsKnown running-IsKnown
        success-IsKnown exit-IsKnown
        (λ minute music. or_crashed-IsKnown (good_morning host minute music))
        (λ pid file. fork-IsKnown host command _) (fork-IsKnown host command [])
