-- ===== src/Shell/Commands.antt =====
-- `process_command` of shell-skeleton.c.
use comp304_assignments.Prelude.{
  ℕ, zero, suc, ◌+◌, Bool, true, false, ◌&&◌, ◌||◌, Option, none, some, List, [], ◌∷◌, ◌++◌, ltb,
  ◌==◌, if◌then◌else◌, length,
}
use comp304_assignments.Prelude.Text.{Text, codes, ℤ, pos, show_int, atoi, equal}
use comp304_assignments.Shell.Parse.{Command}
use comp304_assignments.Shell.Replace.{Repl, written, fault, overrun, out_of_fuel, repl}
use comp304_assignments.Shell.Alias.{FileText, no_file, text_is, too_long, endless, read_from_file}
use comp304_assignments.Shell.Dump.{print_xdd}
use comp304_assignments.Shell.Host.{
  Tm, Host, Effect, printed, changed_dir, wrote, appended, ran, waited, gone, undefined,
  module_loaded,
}
use comp304_assignments.Shell.Child.{child}
use comp304_assignments.Shell.Clock.{display_time}
use comp304_assignments.Shell.Morning.{good_morning}

-- `enum return_codes`
pub data Code : Type 0 where
  success exit unknown : Code

-- The result with the effects of the shell and of its child, if it forked; a read through NULL or an
-- overrun; or a loop that is not over.
pub data Ran : Type 0 where
  returned : Code → List Effect → Option (List Effect) → Ran
  crashed : Ran
  running : Ran

-- `args[i]`; none is the NULL behind the arguments.
abbrev pub arg : ℕ → List Text → Option Text
arg i [] = none
arg zero (a ∷ rest) = some a
arg (suc i) (a ∷ rest) = arg i rest

abbrev pub message : Text → Text → Text
message name text = codes "-Shellect: " ++ (name ++ (codes ": " ++ text))

abbrev pub wrong_number : Text → Ran
wrong_number name =
    returned success (printed (message name (codes "Wrong number of parameters!\n")) ∷ []) none

abbrev done : List Effect → Ran
done es = returned success es none

-- The text that `repl` writes; a file that does not open is a null stream.
abbrev pub repl_result : Host → Text → Repl → Ran
repl_result host to (written text) = if host.writable to then done (wrote to text ∷ []) else crashed
repl_result host to fault = crashed
repl_result host to overrun = crashed
repl_result host to out_of_fuel = running

-- `repl` of what `read_from_file` returns, at most `k` rounds.
abbrev pub repl_file : ℕ → Host → (orig rep to : Text) → FileText → Ran
repl_file k host orig rep to no_file = repl_result host to (repl k orig rep none)
repl_file k host orig rep to (text_is text) = repl_result host to (repl k orig rep (some text))
repl_file k host orig rep to too_long = crashed
repl_file k host orig rep to endless = running

unfoldable pub run_repl : ℕ → Host → Text → List Text → Ran
unfolding repl
run_repl k host name (zeroth ∷ orig ∷ rep ∷ file ∷ to ∷ []) =
    repl_file k host orig rep to (read_from_file k host.malloc_text (host.files file))
run_repl k host name _ = wrong_number name

-- The clock from round `i` on, at most `k` rounds; `tms` is the time of a round in the time timezone, and
-- `keys` the key that waits in it.
unfoldable pub clock_loop : ℕ → ℕ → Option Text → (ℕ → Tm) → (ℕ → Option ℕ) → List Effect → Ran
unfolding display_time
clock_loop zero i timezone tms keys shown = running
clock_loop (suc k) i timezone tms keys shown =
    let rest =
      clock_loop k (i + 1) timezone tms keys
        (shown ++ printed (display_time timezone (tms i)) ∷ []) in
    elim (keys i) [
      | none ↦ rest
      | some c ↦
          if (c == b'e') || (c == b'E')
          then done (shown ++ printed (display_time timezone (tms i)) ∷ [])
          else rest
    ]

unfoldable pub run_clock : ℕ → (Option Text → ℕ → Tm) → (ℕ → Option ℕ) → Text → List Text → Ran
unfolding clock_loop
run_clock k tms keys name (zeroth ∷ []) = clock_loop k 0 none (tms none) keys []
run_clock k tms keys name (zeroth ∷ timezone ∷ []) =
    clock_loop k 0 (some timezone) (tms (some timezone)) keys []
run_clock k tms keys name _ = wrong_number name

unfoldable pub run_cd : Host → Text → List Text → Ran
run_cd host name (zeroth ∷ dir ∷ rest) =
    if host.changes_dir dir
    then done (changed_dir dir ∷ [])
    else done (printed (message name (host.errno_text ++ codes "\n")) ∷ [])
run_cd host name _ = done (if host.changes_dir host.home then changed_dir host.home ∷ [] else [])

-- `print_xdd` of the text that `read_from_file` returns.
abbrev pub xdd_result : Option Text → Ran
xdd_result none = crashed
xdd_result (some text) = done (printed text ∷ [])

abbrev pub xdd_file : FileText → ℤ → Ran
xdd_file no_file group_size = crashed
xdd_file (text_is text) group_size = xdd_result (print_xdd text group_size)
xdd_file too_long group_size = crashed
xdd_file endless group_size = running

abbrev pub xdd_typed : Option Text → Ran
xdd_typed none = crashed
xdd_typed (some text) = done (printed (codes "Enter a string to group:\n") ∷ printed text ∷ [])

unfoldable pub run_xdd : ℕ → Host → Text → List Text → Ran
unfolding print_xdd atoi
run_xdd k host name (zeroth ∷ []) =
    xdd_typed (if ltb (length host.typed) 1024 then print_xdd host.typed (pos 2) else none)
run_xdd k host name (zeroth ∷ file ∷ []) =
    xdd_file (read_from_file k host.malloc_text (host.files file)) (pos 2)
run_xdd k host name (zeroth ∷ flag ∷ group_size ∷ file ∷ []) =
    xdd_file (read_from_file k host.malloc_text (host.files file)) (atoi group_size)
run_xdd k host name _ = wrong_number name

-- The words of an alias: a blank behind the first, and behind each but the last.
abbrev pub later_words : List Text → Text
later_words [] = []
later_words (w ∷ []) = w
later_words (w ∷ v ∷ ws) = w ++ 32 ∷ later_words (v ∷ ws)

-- None where there is no word: the array of the command holds what the stack held.
abbrev pub alias_command : List Text → Option Text
alias_command [] = none
alias_command (w ∷ ws) = some (w ++ 32 ∷ later_words ws)

abbrev pub alias_result : Host → Text → Option Text → Ran
alias_result host name none = crashed
alias_result host name (some comm) =
    if ltb (length comm) 100 && host.writable (codes "alias.txt")
    then done (appended (codes "alias.txt") (name ++ b';' ∷ (comm ++ 10 ∷ [])) ∷ [])
    else crashed

unfoldable pub run_alias : Host → List Text → Ran
run_alias host (zeroth ∷ name ∷ words) = alias_result host name (alias_command words)
run_alias host _ = crashed

abbrev pub or_crashed : Option (List Effect) → Ran
or_crashed none = crashed
or_crashed (some es) = done es

unfoldable pub run_morning : Host → Text → List Text → Ran
unfolding good_morning
run_morning host name (zeroth ∷ minute ∷ music ∷ []) = or_crashed (good_morning host minute music)
run_morning host name _ =
    returned success (printed (message name (codes "Wrong number of parameters! \n")) ∷ []) none

-- The branch of the parent, and what it returns; none would fall through to the end of
-- `process_command`.
unfoldable pub parent_branch : Command → List Effect × Option Code
parent_branch command = (
  (if command.background
        then printed (message command.name (codes "background process started\n"))
        else waited)
      ∷ [],
  some success,
)

-- The end of `process_command`.
abbrev pub not_found : Command → List Effect
not_found command = printed (message command.name (codes "command not found\n")) ∷ []

abbrev pub or_unknown : Command → List Effect × Option Code → Code × List Effect
or_unknown command (es, some code) = (code, es)
or_unknown command (es, none) = (unknown, es ++ not_found command)

abbrev pub stops : Effect → Bool
stops (gone code) = true
stops undefined = true
stops _ = false

-- What the child does, and what follows unless it stops.
unfoldable pub falls_to : List Effect → List Effect → List Effect
falls_to [] after = after
falls_to (e ∷ es) after = let rest = falls_to es after in if stops e then e ∷ [] else e ∷ rest

-- The fork, behind what was done before it, and what follows its branches.
unfoldable pub fork : Host → Command → List Effect → Ran
unfolding child parent_branch falls_to
fork host command before =
    let (code, es) = or_unknown command (parent_branch command) in
    returned code (before ++ es) (some (falls_to (child host command) (not_found command)))

abbrev pub psvis_effects : (pid filename : Text) → List Effect
psvis_effects pid filename =
    changed_dir (codes "module")
    ∷ ran (
        codes "sudo dmesg -C ; sudo insmod mymodule.ko my_pid="
        ++ (show_int (atoi pid) ++ codes " ; sudo dmesg > tree.txt"))
    ∷ module_loaded
    ∷ ran (codes "python3 plot.py " ++ filename)
    ∷ changed_dir (codes "..")
    ∷ []

-- `psvis` lists the processes, and then goes on to the fork. The commands are shorter than their
-- buffers.
unfoldable pub run_psvis : Host → Command → List Text → Ran
unfolding fork atoi show_int
run_psvis host command (zeroth ∷ pid ∷ filename ∷ rest) =
    fork host command (psvis_effects pid filename)
run_psvis host command (zeroth ∷ pid ∷ []) = fork host command (psvis_effects pid (codes "(null)"))
run_psvis host command _ = crashed

-- `k` bounds the rounds of `repl` and of the clock, and the lines of a file.
unfoldable pub process_command : ℕ → Host → (Option Text → ℕ → Tm) → (ℕ → Option ℕ) → Command → Ran
unfolding equal run_repl run_clock run_cd run_xdd run_alias run_morning run_psvis fork
process_command k host tms keys command =
    if equal command.name []
    then returned success [] none
    else if equal command.name (codes "exit")
    then returned exit [] none
    else if equal command.name (codes "repl")
    then run_repl k host command.name command.args
    else if equal command.name (codes "digital_clock")
    then run_clock k tms keys command.name command.args
    else if equal command.name (codes "cd") && ltb 0 (length command.args)
    then run_cd host command.name command.args
    else if equal command.name (codes "xdd")
    then run_xdd k host command.name command.args
    else if equal command.name (codes "alias")
    then run_alias host command.args
    else if equal command.name (codes "good_morning")
    then run_morning host command.name command.args
    else if equal command.name (codes "psvis")
    then run_psvis host command command.args
    else fork host command []
