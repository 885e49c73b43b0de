-- ===== src/Tests/Commands.antt =====
-- The theorems about the prompt and the commands of the shell at concrete lines.
use comp304_assignments.Prelude.{
  ℕ, List, ◌+◌, ◌/◌, ◌*◌, ◌≡◌, refl, true, false, none, some, [], ◌∷◌, ◌++◌, arith, length,
}
use comp304_assignments.Prelude.Text.{Text, codes, pos}
use comp304_assignments.Shell.Parse.{Command}
use comp304_assignments.Shell.Replace.{starts_with, strstr, skip, repl_loop}
use comp304_assignments.Shell.Repl.{count, IsReplaced, repl_loop-IsReplaced}
use comp304_assignments.Shell.Endless.{IsUnwritten, repl_loop-IsUnwritten}
use comp304_assignments.Shell.Alias.{line_is, expand, check_for_aliases}
use comp304_assignments.Shell.Expand.{zeros}
use comp304_assignments.Shell.Aliases.{expand-stale}
use comp304_assignments.Shell.Prompt.{string_in, Editor, parse_expanded, prompt}
use comp304_assignments.Shell.Chars.{turn, edited_all}
use comp304_assignments.Shell.Editor.{prompt-edited}
use comp304_assignments.Shell.Child.{dirs_of, child}
use comp304_assignments.Shell.Search.{attempts, child-attempts}
use comp304_assignments.Shell.Loop.{shell_loop}
use comp304_assignments.Shell.Runs.{has_run}
use comp304_assignments.Shell.Unload.{Follows, IsUnloaded, shell_loop-IsUnloaded}
use comp304_assignments.Shell.Host.{tried, gone, Tm, Host, appended}
use comp304_assignments.Shell.Commands.{success, returned, process_command}
use comp304_assignments.Shell.Results.{IsKnown, process_command-IsKnown}
use comp304_assignments.Shell.Builtins.{alias_line, joined, process_command-check_for_aliases}
use comp304_assignments.Shell.Dump.{print_xdd}
use comp304_assignments.Shell.Rows.{dump, print_xdd-dump}

repl_loop-IsReplaced_example :
    IsReplaced (codes "ab") (repl_loop 3 (codes "ab") (codes "xy") (codes "cab ab"))
unfolding count
repl_loop-IsReplaced_example =
    repl_loop-IsReplaced b'a' (codes "b") (codes "xy") refl 3 (codes "cab ab") (omega arith)
      (omega arith)

repl_loop-IsUnwritten_example : IsUnwritten (repl_loop 5 (codes "a") (codes "aa") (codes "ba"))
unfolding strstr starts_with
repl_loop-IsUnwritten_example =
    repl_loop-IsUnwritten (codes "a") (codes "aa") refl 5 (codes "ba") refl

-- The alias `l` behind the alias `go`.
expand-stale_example :
    expand
      ((codes "go" ++ b';' ∷ codes "cd") ∷ (codes "l" ++ b';' ∷ codes "ls") ∷ [])
      (zeros 100)
      (codes "l ")
    ≡ line_is (codes "l ")
unfolding strstr starts_with skip
expand-stale_example =
    expand-stale (codes "go") (codes "l") (codes "cd") (codes "ls") (codes "l ") (refl, (refl, tt))
      (refl, tt) (refl, (refl, tt)) (refl, tt) (omega arith) (omega arith) (omega arith)
      (omega arith) refl refl

abbrev blank : Command
blank = record {
  name = [];
  background = false;
  auto_complete = false;
  args = [];
  redirects = λ i. none;
  redirect_files = λ i. none;
  redirect_idxs = λ i. none;
}

abbrev editor : Editor
editor = record { buf = λ i. 7; index = 0; oldbuf = λ i. 0 }

-- `lx`, a step back, `s`, the letter `B`, which is ignored, and Enter.
prompt-edited_example :
    (next : Editor) × (string_in next.oldbuf
      ≡ some (turn (edited_all (108 ∷ 120 ∷ 127 ∷ 115 ∷ 66 ∷ []) []) []))
    × (prompt blank [] 600 [] none [] ((108 ∷ 120 ∷ 127 ∷ 115 ∷ 66 ∷ []) ++ 10 ∷ []) editor blank
        ≡ parse_expanded blank [] 600 blank next (
            check_for_aliases 600 [] none []
              (turn (edited_all (108 ∷ 120 ∷ 127 ∷ 115 ∷ 66 ∷ []) []) [])))
prompt-edited_example =
    prompt-edited blank [] 600 [] none [] (108 ∷ 120 ∷ 127 ∷ 115 ∷ 66 ∷ []) editor blank
      (
        (refl, refl, refl, refl, refl),
        (
          (refl, refl, refl, refl, refl),
          (
            (refl, refl, refl, refl, refl),
            ((refl, refl, refl, refl, refl), ((refl, refl, refl, refl, refl), tt)),
          ),
        ),
      )
      (omega arith)

abbrev host : Host
host = record {
  files = λ name. none;
  writable = λ name. true;
  changes_dir = λ name. true;
  errno_text = codes "error";
  home = codes "/";
  path = some (codes "/bin");
  path_room = 100;
  malloc_text = [];
  cwd = some (codes "/tmp");
  typed = codes "x";
  time = 100;
  localtime =
      λ t. record { tm_sec = 1; tm_min = 2; tm_hour = 3; tm_mday = 4; tm_mon = 5; tm_wday = 6 };
  system_result = pos 0;
  chmod_result = pos 0;
}

abbrev noon : Tm
noon = record { tm_sec = 0; tm_min = 0; tm_hour = 12; tm_mday = 4; tm_mon = 5; tm_wday = 6 }

-- The program `ll`.
abbrev program : Command
program = record blank { name = codes "ll"; args = codes "ll" ∷ [] }

process_command-IsKnown_example : IsKnown (process_command 3 host (λ z i. noon) (λ i. none) program)
process_command-IsKnown_example = process_command-IsKnown 3 host (λ z i. noon) (λ i. none) program

process_command-check_for_aliases_example :
    (entry : Text) × (process_command 3 host
        (λ z i. noon)
        (λ i. none)
        (alias_line blank (codes "ll" ∷ codes "ls" ∷ codes "-l" ∷ []))
      ≡ returned success (appended (codes "alias.txt") entry ∷ []) none)
    × (check_for_aliases 500 [] (some entry) (zeros 100) (codes "ll x")
        ≡ line_is ((joined (codes "ls") (codes "-l" ∷ []) ++ 32 ∷ []) ++ (codes "x" ++ 32 ∷ [])))
process_command-check_for_aliases_example =
    process_command-check_for_aliases 3 host (λ z i. noon) (λ i. none) blank 500 108 (108 ∷ [])
      (codes "ls") (codes "-l" ∷ []) (codes "x") refl (omega arith) (omega arith) (refl, (refl, tt))
      (refl, (refl, tt)) (refl, (refl, tt)) (refl, (refl, (refl, (refl, (refl, tt))))) (omega arith)
      (omega arith)

print_xdd-dump_example :
    (print_xdd (codes "seventeen letters") (pos 2)
      ≡ some (dump (length (codes "seventeen letters") / 16 + 1) 0 2 (codes "seventeen letters")))
    × (skip ((length (codes "seventeen letters") / 16 + 1) * 16) (codes "seventeen letters") ≡ [])
print_xdd-dump_example = print_xdd-dump (codes "seventeen letters") 2 (omega arith)

child-attempts_example :
    child host blank
    ≡ attempts blank (dirs_of (codes "/bin"))
      ++ tried (codes "/tmp" ++ b'/' ∷ blank.name) blank.args ∷ gone 0 ∷ []
child-attempts_example =
    child-attempts host blank (codes "/bin") b'/' (codes "tmp") (λ j. refl) refl refl (omega arith)
      (refl, (refl, (refl, (refl, tt))))

-- `psvis 1 t`, then Ctrl+D.
abbrev psvis_keys : List (List ℕ)
psvis_keys = (codes "psvis 1 t" ++ 10 ∷ []) ∷ (4 ∷ []) ∷ []

nothing_done : Follows false []
unfolding has_run
nothing_done = record { inserted = refl; kept = refl }

shell_loop-IsUnloaded_example :
    IsUnloaded (
      shell_loop blank [] [] 600 (λ i. host) (λ z i. noon) (λ i. none) psvis_keys 0 editor false [])
shell_loop-IsUnloaded_example =
    shell_loop-IsUnloaded blank [] [] 600 (λ i. host) (λ z i. noon) (λ i. none) (λ i. refl)
      psvis_keys 0 editor false [] nothing_done
