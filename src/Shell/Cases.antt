-- ===== src/Shell/Cases.antt =====
-- A case for each kind of result of `process_command`.
use comp304_assignments.Prelude.{
  ℕ, zero, suc, ◌+◌, Bool, true, false, ◌&&◌, ◌||◌, ltb, length, Option, none, some, List, [], ◌∷◌,
  ◌++◌, ◌==◌, if◌then◌else◌,
}
use comp304_assignments.Prelude.Text.{Text, codes, ℤ, pos, atoi, equal}
use comp304_assignments.Shell.Parse.{Command}
use comp304_assignments.Shell.Replace.{Repl, written, fault, overrun, out_of_fuel, repl}
use comp304_assignments.Shell.Alias.{FileText, no_file, text_is, too_long, endless, read_from_file}
use comp304_assignments.Shell.Dump.{print_xdd}
use comp304_assignments.Shell.Host.{
  Tm, Host, Effect, printed, changed_dir, wrote, appended, ran, module_loaded,
}
use comp304_assignments.Shell.Clock.{display_time}
use comp304_assignments.Shell.Morning.{good_morning}
use comp304_assignments.Shell.Commands.{
  success, exit, Ran, returned, crashed, running, repl_result, repl_file, run_repl, clock_loop,
  run_clock, run_cd, xdd_result, xdd_file, xdd_typed, alias_result, or_crashed, run_xdd,
  alias_command, run_alias, run_morning, psvis_effects, run_psvis, fork, process_command,
}

-- Nothing is run by a shell, and the flag of the module is not set.
abbrev IsQuietEffect : Effect → Type 0
IsQuietEffect (ran text) = ⊥
IsQuietEffect module_loaded = ⊥
IsQuietEffect _ = Unit

abbrev pub AreQuiet : List Effect → Type 0
AreQuiet [] = Unit
AreQuiet (e ∷ es) = IsQuietEffect e × AreQuiet es

AreQuiet-append : (xs ys : List Effect) → AreQuiet xs → AreQuiet ys → AreQuiet (xs ++ ys)
AreQuiet-append [] ys h k = k
AreQuiet-append (x ∷ xs) ys (q, h) k = (q, AreQuiet-append xs ys h k)

either_result : (P : Ran → Type 0) (b : Bool) {r q : Ran} → P r → P q → P (if b then r else q)
either_result P true h k = h
either_result P false h k = k

module _ (P : Ran → Type 0) (k : ℕ) (host : Host) (tms : Option Text → ℕ → Tm) (keys : ℕ → Option ℕ)
    (command : Command) (on_crash : P crashed) (on_running : P running)
    (on_quiet : (es : List Effect) → AreQuiet es → P (returned success es none)) where
  repl_result-cases : (to : Text) (r : Repl) → P (repl_result host to r)
  repl_result-cases to (written t) =
      either_result P (host.writable to) (on_quiet (wrote to t ∷ []) (tt, tt)) on_crash
  repl_result-cases to fault = on_crash
  repl_result-cases to overrun = on_crash
  repl_result-cases to out_of_fuel = on_running

  repl_file-cases : (orig rep to : Text) (f : FileText) → P (repl_file k host orig rep to f)
  repl_file-cases orig rep to no_file = repl_result-cases to (repl k orig rep none)
  repl_file-cases orig rep to (text_is t) = repl_result-cases to (repl k orig rep (some t))
  repl_file-cases orig rep to too_long = on_crash
  repl_file-cases orig rep to endless = on_running

  wrong : (text : Text) → P (returned success (printed text ∷ []) none)
  wrong text = on_quiet (printed text ∷ []) (tt, tt)

  run_repl-cases : (name : Text) (args : List Text) → P (run_repl k host name args)
  unfolding run_repl
  run_repl-cases name (zeroth ∷ orig ∷ rep ∷ file ∷ to ∷ []) =
      repl_file-cases orig rep to (read_from_file k host.malloc_text (host.files file))
  run_repl-cases name [] = wrong _
  run_repl-cases name (a ∷ []) = wrong _
  run_repl-cases name (a ∷ b ∷ []) = wrong _
  run_repl-cases name (a ∷ b ∷ c ∷ []) = wrong _
  run_repl-cases name (a ∷ b ∷ c ∷ d ∷ []) = wrong _
  run_repl-cases name (a ∷ b ∷ c ∷ d ∷ e ∷ f ∷ rest) = wrong _

  key_round-cases :
      (o : Option ℕ) (rest : Ran) (es : List Effect)
      → AreQuiet es
      → P rest
      → P (elim o [
        | none ↦ rest
        | some c ↦ if (c == b'e') || (c == b'E') then returned success es none else rest
      ])
  key_round-cases none rest es q h = h
  key_round-cases (some c) rest es q h =
      either_result P ((c == b'e') || (c == b'E')) (on_quiet es q) h

  clock_loop-cases :
      (n i : ℕ) (timezone : Option Text) (times : ℕ → Tm) (shown : List Effect)
      → AreQuiet shown
      → P (clock_loop n i timezone times keys shown)
  unfolding clock_loop
  clock_loop-cases zero i timezone times shown q = on_running
  clock_loop-cases (suc n) i timezone times shown q =
      let more =
        AreQuiet-append shown (printed (display_time timezone (times i)) ∷ []) q (tt, tt) in
      key_round-cases (keys i) _ _ more (clock_loop-cases n (i + 1) timezone times _ more)

  run_clock-cases : (name : Text) (args : List Text) → P (run_clock k tms keys name args)
  unfolding run_clock
  run_clock-cases name [] = wrong _
  run_clock-cases name (a ∷ []) = clock_loop-cases k 0 none (tms none) [] tt
  run_clock-cases name (a ∷ b ∷ []) = clock_loop-cases k 0 (some b) (tms (some b)) [] tt
  run_clock-cases name (a ∷ b ∷ c ∷ rest) = wrong _

  home_cases :
      (b : Bool) (dir : Text) → P (returned success (if b then changed_dir dir ∷ [] else []) none)
  home_cases true dir = on_quiet (changed_dir dir ∷ []) (tt, tt)
  home_cases false dir = on_quiet [] tt

  run_cd-cases : (name : Text) (args : List Text) → P (run_cd host name args)
  unfolding run_cd
  run_cd-cases name [] = home_cases (host.changes_dir host.home) host.home
  run_cd-cases name (a ∷ []) = home_cases (host.changes_dir host.home) host.home
  run_cd-cases name (a ∷ b ∷ rest) =
      either_result P (host.changes_dir b) (on_quiet (changed_dir b ∷ []) (tt, tt)) (wrong _)

  xdd_result-cases : (o : Option Text) → P (xdd_result o)
  xdd_result-cases none = on_crash
  xdd_result-cases (some t) = wrong t

  xdd_file-cases : (f : FileText) (g : ℤ) → P (xdd_file f g)
  xdd_file-cases no_file g = on_crash
  xdd_file-cases (text_is t) g = xdd_result-cases (print_xdd t g)
  xdd_file-cases too_long g = on_crash
  xdd_file-cases endless g = on_running

  xdd_typed-cases : (o : Option Text) → P (xdd_typed o)
  xdd_typed-cases none = on_crash
  xdd_typed-cases (some t) = on_quiet (_ ∷ printed t ∷ []) (tt, (tt, tt))

  run_xdd-cases : (name : Text) (args : List Text) → P (run_xdd k host name args)
  unfolding run_xdd
  run_xdd-cases name [] = wrong _
  run_xdd-cases name (a ∷ []) =
      xdd_typed-cases (if ltb (length host.typed) 1024 then print_xdd host.typed (pos 2) else none)
  run_xdd-cases name (a ∷ b ∷ []) =
      xdd_file-cases (read_from_file k host.malloc_text (host.files b)) (pos 2)
  run_xdd-cases name (a ∷ b ∷ c ∷ []) = wrong _
  run_xdd-cases name (a ∷ b ∷ c ∷ d ∷ []) =
      xdd_file-cases (read_from_file k host.malloc_text (host.files d)) (atoi c)
  run_xdd-cases name (a ∷ b ∷ c ∷ d ∷ e ∷ rest) = wrong _

  alias_result-cases : (name : Text) (o : Option Text) → P (alias_result host name o)
  alias_result-cases name none = on_crash
  alias_result-cases name (some comm) =
      either_result P (ltb (length comm) 100 && host.writable (codes "alias.txt"))
        (on_quiet (appended _ _ ∷ []) (tt, tt)) on_crash

  run_alias-cases : (args : List Text) → P (run_alias host args)
  unfolding run_alias
  run_alias-cases [] = on_crash
  run_alias-cases (a ∷ []) = on_crash
  run_alias-cases (a ∷ b ∷ words) = alias_result-cases b (alias_command words)

  run_morning-cases :
      ((minute music : Text) → P (or_crashed (good_morning host minute music)))
      → (name : Text) (args : List Text) → P (run_morning host name args)
  unfolding run_morning
  run_morning-cases on_morning name [] = wrong _
  run_morning-cases on_morning name (a ∷ []) = wrong _
  run_morning-cases on_morning name (a ∷ b ∷ []) = wrong _
  run_morning-cases on_morning name (a ∷ b ∷ c ∷ []) = on_morning b c
  run_morning-cases on_morning name (a ∷ b ∷ c ∷ d ∷ rest) = wrong _

  run_psvis-cases :
      ((pid file : Text) → P (fork host command (psvis_effects pid file)))
      → (args : List Text) → P (run_psvis host command args)
  unfolding run_psvis
  run_psvis-cases on_psvis [] = on_crash
  run_psvis-cases on_psvis (a ∷ []) = on_crash
  run_psvis-cases on_psvis (a ∷ b ∷ []) = on_psvis b _
  run_psvis-cases on_psvis (a ∷ b ∷ c ∷ rest) = on_psvis b c

  pub process_command-cases :
      P (returned exit [] none)
      → ((minute music : Text) → P (or_crashed (good_morning host minute music)))
      → ((pid file : Text) → P (fork host command (psvis_effects pid file)))
      → P (fork host command [])
      → P (process_command k host tms keys command)
  unfolding process_command
  process_command-cases on_exit on_morning on_psvis on_fork =
      either_result P (equal command.name []) (on_quiet [] tt) (
        either_result P (equal command.name (codes "exit")) on_exit (
          either_result P (equal command.name (codes "repl"))
            (run_repl-cases command.name command.args)
            (either_result P (equal command.name (codes "digital_clock"))
              (run_clock-cases command.name command.args)
              (either_result P (equal command.name (codes "cd") && ltb 0 (length command.args))
                (run_cd-cases command.name command.args)
                (either_result P (equal command.name (codes "xdd"))
                  (run_xdd-cases command.name command.args)
                  (either_result P (equal command.name (codes "alias"))
                    (run_alias-cases command.args)
                    (either_result P (equal command.name (codes "good_morning"))
                      (run_morning-cases on_morning command.name command.args)
                      (either_result P (equal command.name (codes "psvis"))
                        (run_psvis-cases on_psvis command.args) on_fork))))))))
