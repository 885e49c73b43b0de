-- ===== src/Shell/Unload.antt =====
-- The end of a session of the shell, and the kernel module.
use comp304_assignments.Prelude.{
  ℕ, ◌+◌, ◌≡◌, refl, ap, sym, ◌∙◌, Bool, true, false, ◌||◌, Option, List, [], ◌∷◌, ◌++◌,
}
use comp304_assignments.Prelude.Text.{Text, codes}
use comp304_assignments.Shell.Parse.{Command, Outcome, fault, overrun, out_of_fuel}
use comp304_assignments.Shell.Prompt.{Editor, Prompted, parsed, left, asking, stuck, prompt}
use comp304_assignments.Shell.Host.{Tm, Host, Effect, ran, printed}
use comp304_assignments.Shell.Commands.{
  success, exit, unknown, Ran, returned, crashed, running, process_command,
}
use comp304_assignments.Shell.Runs.{insmod, rmmod, has_run, has_run-append}
use comp304_assignments.Shell.Flag.{IsFlagged, IsAbsolute, process_command-IsFlagged}
use comp304_assignments.Shell.Loop.{
  zeroed, Session, ended, dead, open_still, leave_shell, effects_of, sets_loaded, after_command,
  after_prompt, shell_loop,
}

-- The last effects of a session that is over: the removal of the module where it was loaded, and a
-- newline.
abbrev last_effects : Bool → List Effect
last_effects true = ran (codes "sudo rmmod mymodule.ko") ∷ printed (codes "\n") ∷ []
last_effects false = printed (codes "\n") ∷ []

-- Where the session is over, it removes the module at its end if and only if it inserted it before,
-- and did not remove it before that.
unfoldable pub IsUnloaded : Session → Type 0
IsUnloaded (ended es) =
    (before : List Effect) × (es ≡ before ++ last_effects (has_run insmod before))
    × (has_run rmmod before ≡ false)
IsUnloaded dead = Unit
IsUnloaded open_still = Unit

-- The flag says whether the module was inserted, and it was not removed yet.
pub record Follows (loaded : Bool) (done : List Effect) : Type 0 where
  pub inserted : has_run insmod done ≡ loaded
  pub kept : has_run rmmod done ≡ false

dead-IsUnloaded : IsUnloaded dead
unfolding IsUnloaded
dead-IsUnloaded = tt

open_still-IsUnloaded : IsUnloaded open_still
unfolding IsUnloaded
open_still-IsUnloaded = tt

leave_shell-IsUnloaded :
    (loaded : Bool) (done : List Effect)
    → Follows loaded done
    → IsUnloaded (leave_shell loaded done)
unfolding IsUnloaded leave_shell
leave_shell-IsUnloaded true done f =
    (done, ap (λ b. done ++ last_effects b) (sym f.inserted), f.kept)
leave_shell-IsUnloaded false done f =
    (done, ap (λ b. done ++ last_effects b) (sym f.inserted), f.kept)

or_false : (b : Bool) → (b || false) ≡ b
or_false true = refl
or_false false = refl

-- The flag follows what was done.
Follows-append :
    (loaded flag : Bool) (done es : List Effect)
    → Follows loaded done
    → has_run insmod es ≡ flag
    → has_run rmmod es ≡ false
    → Follows (loaded || flag) (done ++ es)
Follows-append loaded flag done es f e k = record {
  inserted = has_run-append insmod done es ∙ rw (f.inserted, e) refl;
  kept = has_run-append rmmod done es ∙ rw (f.kept, k) refl;
}

Follows-child :
    (loaded : Bool) (done es more : List Effect)
    → Follows loaded done
    → has_run insmod es ≡ sets_loaded es
    → has_run rmmod es ≡ false
    → has_run insmod more ≡ false
    → has_run rmmod more ≡ false
    → Follows (loaded || sets_loaded es) (done ++ (es ++ more))
Follows-child loaded done es more f e k i r =
    Follows-append loaded (sets_loaded es) done (es ++ more) f
      (has_run-append insmod es more ∙ rw (e, i) (or_false (sets_loaded es)))
      (has_run-append rmmod es more ∙ rw (k, r) refl)

after_command-IsUnloaded :
    (loaded : Bool) (next : Bool → List Effect → Session) (done : List Effect) (command : Command)
    (r : Ran)
    → Follows loaded done
    → IsFlagged r
    → ((flag : Bool) (es : List Effect) → Follows flag es → IsUnloaded (next flag es))
    → IsUnloaded (after_command loaded next done command r)
unfolding IsFlagged
after_command-IsUnloaded loaded next done command crashed d f h = dead-IsUnloaded
after_command-IsUnloaded loaded next done command running d f h = open_still-IsUnloaded
after_command-IsUnloaded loaded next done command (returned exit es child) d (f, r, g, q) h =
    leave_shell-IsUnloaded (loaded || sets_loaded es) (done ++ es)
      (Follows-append loaded (sets_loaded es) done es d f r)
after_command-IsUnloaded loaded next done command (returned success es child) d (f, r, g, q) h =
    h _ _ (Follows-child loaded done es (effects_of child) d f r g q)
after_command-IsUnloaded loaded next done command (returned unknown es child) d (f, r, g, q) h =
    h _ _ (Follows-child loaded done es (effects_of child) d f r g q)

after_prompt-IsUnloaded :
    (loaded : Bool) (run : Command → Ran) (next : Editor → Bool → List Effect → Session)
    (done : List Effect) (o : Prompted)
    → Follows loaded done
    → ((command : Command) → IsFlagged (run command))
    → ((e : Editor) (flag : Bool) (es : List Effect)
        → Follows flag es
        → IsUnloaded (next e flag es))
    → IsUnloaded (after_prompt loaded run next done o)
after_prompt-IsUnloaded loaded run next done left d f h = leave_shell-IsUnloaded loaded done d
after_prompt-IsUnloaded loaded run next done asking d f h = open_still-IsUnloaded
after_prompt-IsUnloaded loaded run next done stuck d f h = dead-IsUnloaded
after_prompt-IsUnloaded loaded run next done (parsed (Outcome.parsed []) e) d f h = dead-IsUnloaded
after_prompt-IsUnloaded loaded run next done (parsed (Outcome.parsed (command ∷ piped)) e) d f h =
    after_command-IsUnloaded loaded (next e) done command (run command) d (f command) (h e)
after_prompt-IsUnloaded loaded run next done (parsed fault e) d f h = dead-IsUnloaded
after_prompt-IsUnloaded loaded run next done (parsed overrun e) d f h = dead-IsUnloaded
after_prompt-IsUnloaded loaded run next done (parsed out_of_fuel e) d f h = open_still-IsUnloaded

module _ (blank : Command) (blank_next : List Command) (array : List ℕ) (k : ℕ) (hosts : ℕ → Host)
    (tms : Option Text → ℕ → Tm) (clock_keys : ℕ → Option ℕ)
    (absolute : (i : ℕ) → IsAbsolute (hosts i).cwd) where
  -- Where working directories start with a slash, and the flag says whether the shell has inserted
  -- the module, which it has not removed, a session that is over, by `exit` or by Ctrl+D after any
  -- lines, ends with a newline; right in front of it the shell removes the module if it inserted
  -- it, and nowhere else does it remove it.
  pub shell_loop-IsUnloaded :
      (lines : List (List ℕ)) (i : ℕ) (e : Editor) (loaded : Bool) (done : List Effect)
      → Follows loaded done
      → IsUnloaded (shell_loop blank blank_next array k hosts tms clock_keys lines i e loaded done)
  unfolding shell_loop
  shell_loop-IsUnloaded [] i e loaded done d = open_still-IsUnloaded
  shell_loop-IsUnloaded (keys ∷ lines) i e loaded done d =
      after_prompt-IsUnloaded loaded (process_command k (hosts i) tms clock_keys)
        (λ next flag es.
          shell_loop blank blank_next array k hosts tms clock_keys lines (i + 1) next flag es)
        done
        (prompt blank blank_next k (hosts i).malloc_text ((hosts i).files (codes "alias.txt")) array
          keys e zeroed)
        d (process_command-IsFlagged k (hosts i) tms clock_keys (absolute i))
        (λ next flag es h. shell_loop-IsUnloaded lines (i + 1) next flag es h)
