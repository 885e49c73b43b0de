-- ===== src/Shell/Child.antt =====
-- The child process of `process_command`: redirections, and the search for the program.
use comp304_assignments.Prelude.{
  ℕ, zero, suc, ◌+◌, Bool, true, false, Option, none, some, List, [], ◌∷◌, ◌++◌, ◌==◌, leb,
  if◌then◌else◌, length,
}
use comp304_assignments.Prelude.Text.{Text, codes}
use comp304_assignments.Shell.Parse.{Command}
use comp304_assignments.Shell.Host.{
  Host, Mode, read_only, truncate, append, Effect, printed, redirected, tried, gone, undefined,
}

abbrev pub mode_of : ℕ → Mode
mode_of zero = read_only
mode_of (suc zero) = truncate
mode_of (suc (suc n)) = append

-- A redirection of stdin (0) or stdout (1).
abbrev pub target_of : ℕ → ℕ
target_of zero = 0
target_of (suc n) = 1

abbrev pub opens : Host → ℕ → Text → Bool
opens host zero file = elim (host.files file) [ none ↦ false | some t ↦ true ]
opens host (suc n) file = host.writable file

-- A redirection that fails names `redirects[0]` in its message, whichever it is, and exits.
abbrev or_null : Option Text → Text
or_null none = codes "(null)"
or_null (some t) = t

abbrev pub open_failed : Host → Command → List Effect
open_failed host command =
    printed (
      codes "-Shellect: "
      ++ (or_null (command.redirects 0) ++ (codes ": " ++ (host.errno_text ++ codes " \n"))))
    ∷ gone 1
    ∷ []

-- `open` reads through NULL where a redirection has no file; it fails then, as on a missing file.
abbrev pub file_opens : Host → ℕ → Option Text → Bool
file_opens host rdrct none = false
file_opens host rdrct (some file) = opens host rdrct file

-- The loop over `redirect_idxs` from `i` on, `k` of them, and what follows.
unfoldable pub redirect : ℕ → ℕ → Host → Command → List Effect → List Effect
redirect zero i host command after = after
redirect (suc k) i host command after = elim (command.redirect_idxs i) [
  | none ↦ redirect k (i + 1) host command after
  | some rdrct ↦ elim (file_opens host rdrct (command.redirect_files rdrct)) [
    | false ↦ open_failed host command
    | true ↦
        redirected (mode_of rdrct) (or_null (command.redirect_files rdrct)) (target_of rdrct)
        ∷ redirect k (i + 1) host command after
  ]
]

-- The directories of `PATH`: the tokens of `strtok(path, ":")`. The pair has the token that is not
-- over yet in front.
abbrev pub close_dir : Text × List Text → List Text
close_dir ([], dirs) = dirs
close_dir (c ∷ cs, dirs) = (c ∷ cs) ∷ dirs

unfoldable pub open_dirs : Text → Text × List Text
open_dirs [] = ([], [])
open_dirs (c ∷ cs) =
    let rest = open_dirs cs in if c == b':' then ([], close_dir rest) else (c ∷ rest.0, rest.1)

unfoldable pub dirs_of : Text → List Text
unfolding open_dirs
dirs_of path = close_dir (open_dirs path)

-- `execv` of the name in each directory: where one succeeds the process is another program, and the
-- rest does not happen.
unfoldable pub try_dirs : List Text → Command → List Effect
try_dirs [] command = gone 0 ∷ []
try_dirs (dir ∷ dirs) command =
    tried (dir ++ b'/' ∷ command.name) command.args ∷ try_dirs dirs command

-- The working directory is searched last. The code appends it to the string of getenv itself, which
-- has no room of its own; none is a PATH that is not set, or an append that overruns.
unfoldable pub append_cwd : Host → Option Text → Text → Option Text
append_cwd host none path = some path
append_cwd host (some cwd) path =
    if leb (length cwd + 1) host.path_room then some (path ++ b':' ∷ cwd) else none

unfoldable pub search_path : Host → Option Text
unfolding append_cwd
search_path host = elim host.path [ none ↦ none | some path ↦ append_cwd host host.cwd path ]

abbrev pub try_path : Option Text → Command → List Effect
try_path none command = undefined ∷ []
try_path (some path) command = try_dirs (dirs_of path) command

unfoldable pub child : Host → Command → List Effect
unfolding redirect search_path dirs_of try_dirs
child host command = redirect 3 0 host command (try_path (search_path host) command)
