-- ===== src/Shell/Redirect.antt =====
-- The redirections of the child, step by step.
use comp304_assignments.Prelude.{
  ℕ, zero, suc, ◌+◌, Bool, true, false, Option, none, some, List, ◌∷◌,
}
use comp304_assignments.Prelude.Text.{Text}
use comp304_assignments.Shell.Parse.{Command}
use comp304_assignments.Shell.Host.{Host, Mode, Effect, redirected}
use comp304_assignments.Shell.Child.{open_failed, file_opens, redirect}

module _ (Q : List Effect → Type 0) where
  either_file :
      (o : Option ℕ) (opens : ℕ → Bool) (failed rest : List Effect) (head : ℕ → Effect)
      → Q failed
      → Q rest
      → ((i : ℕ) → Q (head i ∷ rest))
      → Q (elim o [
        | none ↦ rest
        | some i ↦ elim (opens i) [ false ↦ failed | true ↦ head i ∷ rest ]
      ])
  either_file none opens failed rest head f r h = r
  either_file (some i) opens failed rest head f r h = by_cases (opens i)
    where
      by_cases : (b : Bool) → Q (elim b [ false ↦ failed | true ↦ head i ∷ rest ])
      by_cases false = f
      by_cases true = h i

  pub redirect-cases :
      (host : Host) (command : Command) (after : List Effect)
      → Q (open_failed host command)
      → ((m : Mode) (file : Text) (i : ℕ) (rest : List Effect)
          → Q rest
          → Q (redirected m file i ∷ rest))
      → Q after
      → (k i : ℕ) → Q (redirect k i host command after)
  unfolding redirect
  redirect-cases host command after f r h zero i = h
  redirect-cases host command after f r h (suc k) i =
      let later = redirect-cases host command after f r h k (i + 1) in
      either_file (command.redirect_idxs i) (λ j. file_opens host j (command.redirect_files j))
        (open_failed host command) _ _ f later (λ j. r _ _ _ _ later)
