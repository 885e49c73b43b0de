-- ===== src/Shell/Search.antt =====
-- Where the child looks for the program.
use comp304_assignments.Prelude.{
  ℕ, zero, suc, ◌+◌, ◌≡◌, refl, ap, ◌∙◌, Bool, true, false, none, some, List, [], ◌∷◌, ◌++◌, ◌==◌,
  if◌then◌else◌, ◌≤◌, length, le→leb,
}
use comp304_assignments.Shell.Text.{Text}
use comp304_assignments.Shell.Parse.{Command}
use comp304_assignments.Shell.Expand.{Avoids}
use comp304_assignments.Shell.Host.{Host, Effect, tried, gone}
use comp304_assignments.Shell.Child.{
  redirect, close_dir, open_dirs, dirs_of, try_dirs, try_path, append_cwd, search_path, child,
}

open_dirs_word : (cs : Text) → Avoids b':' cs → open_dirs cs ≡ (cs, [])
unfolding open_dirs
open_dirs_word [] h = refl
open_dirs_word (c ∷ cs) (h, t) = rw (h, open_dirs_word cs t)

abbrev with_last : Text → Text × List Text → Text × List Text
with_last dir (cur, dirs) = (cur, dirs ++ dir ∷ [])

close_dir-with_last :
    (dir : Text) (o : Text × List Text) → close_dir (with_last dir o) ≡ close_dir o ++ dir ∷ []
close_dir-with_last dir ([], dirs) = refl
close_dir-with_last dir (c ∷ cs, dirs) = refl

open_dirs-append :
    (path : Text) (c : ℕ) (cs : Text)
    → Avoids b':' (c ∷ cs)
    → open_dirs (path ++ b':' ∷ c ∷ cs) ≡ with_last (c ∷ cs) (open_dirs path)
unfolding open_dirs
open_dirs-append [] c cs h = ap (λ o. ([], close_dir o)) (open_dirs_word (c ∷ cs) h)
open_dirs-append (d ∷ ds) c cs h =
    ap (λ o. if d == b':' then ([], close_dir o) else (d ∷ o.0, o.1)) (open_dirs-append ds c cs h)
    ∙ by_cases (d == b':')
  where
    by_cases :
        (b : Bool)
        → (if◌then◌else◌ {A = Text × List Text} b
            ([], close_dir (with_last (c ∷ cs) (open_dirs ds)))
            (d ∷ (open_dirs ds).0, (open_dirs ds).1 ++ (c ∷ cs) ∷ []))
          ≡ with_last (c ∷ cs) (
              if◌then◌else◌ {A = Text × List Text} b
                ([], close_dir (open_dirs ds))
                (d ∷ (open_dirs ds).0, (open_dirs ds).1))
    by_cases true = ap (λ l. ([], l)) (close_dir-with_last (c ∷ cs) (open_dirs ds))
    by_cases false = refl

dirs_of-append :
    (path : Text) (c : ℕ) (cs : Text)
    → Avoids b':' (c ∷ cs)
    → dirs_of (path ++ b':' ∷ c ∷ cs) ≡ dirs_of path ++ (c ∷ cs) ∷ []
unfolding dirs_of
dirs_of-append path c cs h =
    ap close_dir (open_dirs-append path c cs h) ∙ close_dir-with_last (c ∷ cs) (open_dirs path)

redirect_idle :
    (k i : ℕ) (host : Host) (command : Command) (after : List Effect)
    → ((j : ℕ) → command.redirect_idxs j ≡ none)
    → redirect k i host command after ≡ after
unfolding redirect
redirect_idle zero i host command after h = refl
redirect_idle (suc k) i host command after h =
    rw (h i, redirect) (redirect_idle k (i + 1) host command after h)

-- A program in each directory.
abbrev pub attempts : Command → List Text → List Effect
attempts command [] = []
attempts command (dir ∷ dirs) =
    tried (dir ++ b'/' ∷ command.name) command.args ∷ attempts command dirs

try_dirs-append :
    (command : Command) (dirs : List Text) (dir : Text)
    → try_dirs (dirs ++ dir ∷ []) command
      ≡ attempts command dirs ++ tried (dir ++ b'/' ∷ command.name) command.args ∷ gone 0 ∷ []
unfolding try_dirs
try_dirs-append command [] dir = refl
try_dirs-append command (d ∷ dirs) dir =
    ap (λ es. tried (d ++ b'/' ∷ command.name) command.args ∷ es) (try_dirs-append command dirs dir)

search_path-append :
    (host : Host) (path cwd : Text)
    → host.path ≡ some path
    → host.cwd ≡ some cwd
    → length cwd + 1 ≤ host.path_room
    → search_path host ≡ some (path ++ b':' ∷ cwd)
unfolding search_path append_cwd
search_path-append host path cwd p w room =
    rw (p, w, le→leb (length cwd + 1) host.path_room room) refl

-- Without redirections, where PATH is set, the working directory's name has no colon, and behind
-- the string of PATH there is room for a colon and that name, the child tries the command's name in
-- each directory of PATH in turn, then in the working directory, and exits with 0 if none of these
-- is a program.
pub child-attempts :
    (host : Host) (command : Command) (path : Text) (c : ℕ) (cs : Text)
    → ((j : ℕ) → command.redirect_idxs j ≡ none)
    → host.path ≡ some path
    → host.cwd ≡ some (c ∷ cs)
    → length (c ∷ cs) + 1 ≤ host.path_room
    → Avoids b':' (c ∷ cs)
    → child host command
      ≡ attempts command (dirs_of path)
        ++ tried ((c ∷ cs) ++ b'/' ∷ command.name) command.args ∷ gone 0 ∷ []
unfolding child
child-attempts host command path c cs h p w room a =
    redirect_idle 3 0 host command (try_path (search_path host) command) h
    ∙ ap (λ o. try_path o command) (search_path-append host path (c ∷ cs) p w room)
    ∙ ap (λ dirs. try_dirs dirs command) (dirs_of-append path c cs a)
    ∙ try_dirs-append command (dirs_of path) (c ∷ cs)
