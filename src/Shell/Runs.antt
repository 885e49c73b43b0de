-- ===== src/Shell/Runs.antt =====
-- What the commands of the shell run: texts for the system's shell, and the flag of the module.
use comp304_assignments.Prelude.{
  ◌≡◌, refl, ap, ◌∙◌, Bool, true, false, Bool-cases, inl, inr, ◌||◌, Option, none, some, List, [],
  ◌∷◌, ◌++◌,
}
use comp304_assignments.Prelude.Text.{Text, codes}
use comp304_assignments.Shell.Parse.{Command}
use comp304_assignments.Shell.Replace.{starts_with}
use comp304_assignments.Shell.Redirect.{redirect-cases}
use comp304_assignments.Shell.Host.{
  Host, Effect, printed, reported, changed_dir, wrote, appended, made_executable, ran, redirected,
  tried, waited, gone, undefined, module_loaded,
}
use comp304_assignments.Shell.Child.{try_dirs, try_path, search_path, dirs_of, child}
use comp304_assignments.Shell.Commands.{stops, falls_to, not_found}
use comp304_assignments.Shell.Loop.{sets_loaded}
use comp304_assignments.Shell.Cases.{AreQuiet}

-- A command for the system's shell that starts with this text.
abbrev runs : Text → Effect → Bool
runs start (ran text) = starts_with start text
runs start _ = false

unfoldable pub has_run : Text → List Effect → Bool
has_run start [] = false
has_run start (e ∷ es) = runs start e || has_run start es

-- The insertion of the module, and its removal.
abbrev pub insmod : Text
insmod = codes "sudo dmesg -C ; sudo insmod mymodule.ko"

abbrev pub rmmod : Text
rmmod = codes "sudo rmmod mymodule.ko"

pub has_run-append :
    (start : Text) (xs ys : List Effect)
    → has_run start (xs ++ ys) ≡ (has_run start xs || has_run start ys)
unfolding has_run
has_run-append start [] ys = refl
has_run-append start (x ∷ xs) ys =
    ap (λ b. runs start x || b) (has_run-append start xs ys)
    ∙ or_assoc (runs start x) (has_run start xs) (has_run start ys)
  where
    or_assoc : (a b c : Bool) → (a || (b || c)) ≡ ((a || b) || c)
    or_assoc true b c = refl
    or_assoc false b c = refl

pub quiet_run : (start : Text) (es : List Effect) → AreQuiet es → has_run start es ≡ false
unfolding has_run
quiet_run start [] q = refl
quiet_run start (ran t ∷ es) (q, h) = absurd q
quiet_run start (module_loaded ∷ es) (q, h) = absurd q
quiet_run start (printed a ∷ es) (q, h) = quiet_run start es h
quiet_run start (reported a ∷ es) (q, h) = quiet_run start es h
quiet_run start (changed_dir a ∷ es) (q, h) = quiet_run start es h
quiet_run start (wrote a b ∷ es) (q, h) = quiet_run start es h
quiet_run start (appended a b ∷ es) (q, h) = quiet_run start es h
quiet_run start (made_executable a ∷ es) (q, h) = quiet_run start es h
quiet_run start (redirected m a i ∷ es) (q, h) = quiet_run start es h
quiet_run start (tried a b ∷ es) (q, h) = quiet_run start es h
quiet_run start (waited ∷ es) (q, h) = quiet_run start es h
quiet_run start (gone i ∷ es) (q, h) = quiet_run start es h
quiet_run start (undefined ∷ es) (q, h) = quiet_run start es h

pub quiet_flag : (es : List Effect) → AreQuiet es → sets_loaded es ≡ false
unfolding sets_loaded
quiet_flag [] q = refl
quiet_flag (ran t ∷ es) (q, h) = absurd q
quiet_flag (module_loaded ∷ es) (q, h) = absurd q
quiet_flag (printed a ∷ es) (q, h) = quiet_flag es h
quiet_flag (reported a ∷ es) (q, h) = quiet_flag es h
quiet_flag (changed_dir a ∷ es) (q, h) = quiet_flag es h
quiet_flag (wrote a b ∷ es) (q, h) = quiet_flag es h
quiet_flag (appended a b ∷ es) (q, h) = quiet_flag es h
quiet_flag (made_executable a ∷ es) (q, h) = quiet_flag es h
quiet_flag (redirected m a i ∷ es) (q, h) = quiet_flag es h
quiet_flag (tried a b ∷ es) (q, h) = quiet_flag es h
quiet_flag (waited ∷ es) (q, h) = quiet_flag es h
quiet_flag (gone i ∷ es) (q, h) = quiet_flag es h
quiet_flag (undefined ∷ es) (q, h) = quiet_flag es h

pub sets_loaded-append :
    (xs ys : List Effect) → sets_loaded (xs ++ ys) ≡ (sets_loaded xs || sets_loaded ys)
unfolding sets_loaded
sets_loaded-append [] ys = refl
sets_loaded-append (module_loaded ∷ xs) ys = refl
sets_loaded-append (ran a ∷ xs) ys = sets_loaded-append xs ys
sets_loaded-append (printed a ∷ xs) ys = sets_loaded-append xs ys
sets_loaded-append (reported a ∷ xs) ys = sets_loaded-append xs ys
sets_loaded-append (changed_dir a ∷ xs) ys = sets_loaded-append xs ys
sets_loaded-append (wrote a b ∷ xs) ys = sets_loaded-append xs ys
sets_loaded-append (appended a b ∷ xs) ys = sets_loaded-append xs ys
sets_loaded-append (made_executable a ∷ xs) ys = sets_loaded-append xs ys
sets_loaded-append (redirected m a i ∷ xs) ys = sets_loaded-append xs ys
sets_loaded-append (tried a b ∷ xs) ys = sets_loaded-append xs ys
sets_loaded-append (waited ∷ xs) ys = sets_loaded-append xs ys
sets_loaded-append (gone i ∷ xs) ys = sets_loaded-append xs ys
sets_loaded-append (undefined ∷ xs) ys = sets_loaded-append xs ys

try_dirs-AreQuiet : (dirs : List Text) (command : Command) → AreQuiet (try_dirs dirs command)
unfolding try_dirs
try_dirs-AreQuiet [] command = (tt, tt)
try_dirs-AreQuiet (dir ∷ dirs) command = (tt, try_dirs-AreQuiet dirs command)

try_path-AreQuiet : (path : Option Text) (command : Command) → AreQuiet (try_path path command)
try_path-AreQuiet none command = (tt, tt)
try_path-AreQuiet (some path) command = try_dirs-AreQuiet (dirs_of path) command

falls_to-AreQuiet :
    (es after : List Effect) → AreQuiet es → AreQuiet after → AreQuiet (falls_to es after)
unfolding falls_to
falls_to-AreQuiet [] after q h = h
falls_to-AreQuiet (e ∷ es) after (q, p) h = elim (Bool-cases (stops e)) [
  | inl y ↦ rw y (q, tt)
  | inr n ↦ rw n (q, falls_to-AreQuiet es after p h)
]

child-AreQuiet : (host : Host) (command : Command) → AreQuiet (child host command)
unfolding child
child-AreQuiet host command =
    redirect-cases AreQuiet host command (try_path (search_path host) command) (tt, (tt, tt))
      (λ m file i rest h. (tt, h)) (try_path-AreQuiet (search_path host) command) 3 0

pub fork_child :
    (start : Text) (host : Host) (command : Command)
    → has_run start (falls_to (child host command) (not_found command)) ≡ false
fork_child start host command = quiet_run start _ (
    falls_to-AreQuiet (child host command) (not_found command) (child-AreQuiet host command)
      (tt, tt))
