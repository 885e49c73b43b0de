-- ===== src/Shell/Flag.antt =====
-- `kernel_module_loaded`, and the commands that insert or remove the module.
use comp304_assignments.Prelude.{
  ℕ, ◌≡◌, refl, sym, ◌∙◌, Bool, true, false, Bool-cases, inl, inr, Option, none, some, List, [],
  ◌∷◌, ◌++◌, ◌&&◌, if◌then◌else◌,
}
use comp304_assignments.Prelude.Text.{Text, codes}
use comp304_assignments.Shell.Parse.{Command}
use comp304_assignments.Shell.Replace.{starts_with}
use comp304_assignments.Shell.Host.{
  Tm, Host, Effect, printed, reported, wrote, made_executable, ran,
}
use comp304_assignments.Shell.Child.{child}
use comp304_assignments.Shell.Morning.{
  only_if, morning_steps, morning_effects, morning_at, good_morning,
}
use comp304_assignments.Shell.Commands.{
  success, exit, Ran, returned, crashed, running, or_crashed, psvis_effects, fork, process_command,
}
use comp304_assignments.Shell.Loop.{effects_of, sets_loaded}
use comp304_assignments.Shell.Cases.{AreQuiet, process_command-cases}
use comp304_assignments.Shell.Runs.{
  has_run, insmod, rmmod, has_run-append, quiet_run, quiet_flag, sets_loaded-append, fork_child,
}

-- The shell's own steps set the flag if and only if they insert the module, and do not remove it;
-- those of the child do neither.
unfoldable pub IsFlagged : Ran → Type 0
IsFlagged (returned code es child) =
    (has_run insmod es ≡ sets_loaded es)
    × (has_run rmmod es ≡ false)
    × (has_run insmod (effects_of child) ≡ false)
    × (has_run rmmod (effects_of child) ≡ false)
IsFlagged crashed = Unit
IsFlagged running = Unit

-- A working directory, as `getcwd` gives it, starts at the root.
abbrev pub IsAbsolute : Option Text → Type 0
IsAbsolute none = Unit
IsAbsolute (some []) = ⊥
IsAbsolute (some (c ∷ cs)) = c ≡ b'/'

quiet-IsFlagged : (es : List Effect) → AreQuiet es → IsFlagged (returned success es none)
unfolding IsFlagged has_run
quiet-IsFlagged es q =
    (quiet_run insmod es q ∙ sym (quiet_flag es q), quiet_run rmmod es q, refl, refl)

fork-IsFlagged : (host : Host) (command : Command) → IsFlagged (fork host command [])
unfolding IsFlagged fork has_run sets_loaded
fork-IsFlagged host command = elim (Bool-cases command.background) [
  | inl e ↦ (rw e refl, rw e refl, fork_child insmod host command, fork_child rmmod host command)
  | inr e ↦ (rw e refl, rw e refl, fork_child insmod host command, fork_child rmmod host command)
]

psvis-IsFlagged :
    (host : Host) (command : Command) (pid file : Text)
    → IsFlagged (fork host command (psvis_effects pid file))
unfolding IsFlagged fork has_run sets_loaded starts_with
psvis-IsFlagged host command pid file = elim (Bool-cases command.background) [
  | inl e ↦ (refl, rw e refl, fork_child insmod host command, fork_child rmmod host command)
  | inr e ↦ (refl, rw e refl, fork_child insmod host command, fork_child rmmod host command)
]

-- Neither an insertion nor a removal nor the flag.
record IsNeither (es : List Effect) : Type 0 where
  inserts : has_run insmod es ≡ false
  removes : has_run rmmod es ≡ false
  flag : sets_loaded es ≡ false

only_if-IsNeither :
    (b : Bool) (e : Effect) (es : List Effect)
    → AreQuiet (e ∷ [])
    → IsNeither es
    → IsNeither (only_if b e es)
only_if-IsNeither false e es q n = n
only_if-IsNeither true e es q n = record {
  inserts = has_run-append insmod (e ∷ []) es ∙ rw (quiet_run insmod (e ∷ []) q, n.inserts) refl;
  removes = has_run-append rmmod (e ∷ []) es ∙ rw (quiet_run rmmod (e ∷ []) q, n.removes) refl;
  flag = sets_loaded-append (e ∷ []) es ∙ rw (quiet_flag (e ∷ []) q, n.flag) refl;
}

none_left : IsNeither []
unfolding has_run sets_loaded
none_left = record { inserts = refl; removes = refl; flag = refl }

ran-IsNeither :
    (cwd text : Text) (es : List Effect)
    → IsAbsolute (some cwd)
    → IsNeither es
    → IsNeither (ran (cwd ++ text) ∷ es)
unfolding has_run sets_loaded starts_with
ran-IsNeither [] text es a n = absurd a
ran-IsNeither (c ∷ cs) text es a n = record {
  inserts = rw a n.inserts;
  removes = rw a n.removes;
  flag = n.flag;
}

neither-IsFlagged : (es : List Effect) → IsNeither es → IsFlagged (returned success es none)
unfolding IsFlagged has_run
neither-IsFlagged es n = (n.inserts ∙ sym n.flag, n.removes, refl, refl)

exit-IsFlagged : IsFlagged (returned exit [] none)
unfolding IsFlagged has_run sets_loaded
exit-IsFlagged = (refl, refl, refl, refl)

crashed-IsFlagged : IsFlagged crashed
unfolding IsFlagged
crashed-IsFlagged = tt

morning_steps-IsNeither :
    (positive changed succeeded : Bool) (alarm cron cwd failure : Text)
    → IsAbsolute (some cwd)
    → IsNeither (morning_steps positive changed succeeded alarm cron cwd failure)
morning_steps-IsNeither positive changed succeeded alarm cron cwd failure a =
    let after =
      only_if-IsNeither (if succeeded then false else true) (printed failure) [] (tt, tt)
        none_left in
    let run =
      only_if-IsNeither (if changed then false else true) (reported _) _ (tt, tt)
        (ran-IsNeither cwd (codes "/cron_creator.sh") _ a after) in
    let writes =
      only_if-IsNeither true (wrote _ alarm) _ (tt, tt)
        (only_if-IsNeither true (wrote _ cron) _ (tt, tt)
          (only_if-IsNeither true (made_executable _) _ (tt, tt) run)) in
    only_if-IsNeither (if positive then false else true) (printed _) _ (tt, tt) writes

morning_at-IsFlagged :
    (host : Host) (minute music : Text) (o : Option Text)
    → IsAbsolute o
    → IsFlagged (or_crashed (morning_at host minute music o))
morning_at-IsFlagged host minute music none a = crashed-IsFlagged
morning_at-IsFlagged host minute music (some cwd) a =
    by_cases (host.writable (codes "alarm.sh") && host.writable (codes "cron_creator.sh"))
  where
    by_cases :
        (b : Bool)
        → IsFlagged (or_crashed (if b then some (morning_effects host cwd minute music) else none))
    by_cases true = neither-IsFlagged _ (morning_steps-IsNeither _ _ _ _ _ cwd _ a)
    by_cases false = crashed-IsFlagged

morning-IsFlagged :
    (host : Host) (minute music : Text)
    → IsAbsolute host.cwd
    → IsFlagged (or_crashed (good_morning host minute music))
unfolding good_morning
morning-IsFlagged host minute music = morning_at-IsFlagged host minute music host.cwd

running-IsFlagged : IsFlagged running
unfolding IsFlagged
running-IsFlagged = tt

pub process_command-IsFlagged :
    (k : ℕ) (host : Host) (tms : Option Text → ℕ → Tm) (keys : ℕ → Option ℕ)
    → IsAbsolute host.cwd
    → (command : Command) → IsFlagged (process_command k host tms keys command)
process_command-IsFlagged k host tms keys a command =
    process_command-cases IsFlagged k host tms keys command crashed-IsFlagged running-IsFlagged
      quiet-IsFlagged exit-IsFlagged (λ minute music. morning-IsFlagged host minute music a)
      (λ pid file. psvis-IsFlagged host command pid file) (fork-IsFlagged host command)
