-- ===== src/Metro/Options.antt =====
-- The options in any order and number.
use comp304_assignments.Prelude.{
  ◌+◌, ◌≤◌, ◌≡◌, refl, ap, ◌∙◌, Bool, true, false, ◌||◌, none, some, List, [], ◌∷◌, arith,
  if◌then◌else◌, length, le→not_ltb,
}
use comp304_assignments.Prelude.Text.{Text, codes, equal, atoi}
use comp304_assignments.Metro.Data.{Floats}
use comp304_assignments.Metro.Args.{
  Options, usage, check_options, unset_options, set_option, is_option, read_options, or_fault,
  start_of,
}

-- An option with its value.
pub data Setting : Type 0 where
  time_is : Text → Setting
  p_is : Text → Setting
  debug_is : Text → Setting

abbrev flag_of : Setting → Text
flag_of (time_is v) = codes "-s"
flag_of (p_is v) = codes "-p"
flag_of (debug_is v) = codes "-d"

abbrev value_of : Setting → Text
value_of (time_is v) = v
value_of (p_is v) = v
value_of (debug_is v) = v

-- The arguments that a user gives.
abbrev pub written : List Setting → List Text
written [] = []
written (x ∷ xs) = flag_of x ∷ value_of x ∷ written xs

module _ (fl : Floats) where
  -- No value looks like an option.
  abbrev pub ArePlain : List Setting → Type 0
  ArePlain [] = Unit
  ArePlain (x ∷ xs) = (is_option fl (value_of x) ≡ false) × ArePlain xs

  abbrev pub apply : Setting → Options fl → Options fl
  apply (time_is v) o = record o { simulation_time = some (atoi v) }
  apply (p_is v) o = record o { p = some (fl.atof v) }
  apply (debug_is v) o = record o { debug = equal v (codes "T") }

  abbrev pub apply_all : List Setting → Options fl → Options fl
  apply_all [] o = o
  apply_all (x ∷ xs) o = apply_all xs (apply x o)

  set_option-apply :
      (x : Setting) (o : Options fl) → set_option fl (flag_of x) (value_of x) o ≡ apply x o
  unfolding equal
  set_option-apply (time_is v) o = refl
  set_option-apply (p_is v) o = refl
  set_option-apply (debug_is v) o = refl

  -- What is no option sets nothing.
  set_option_plain :
      (a b : Text) (o : Options fl) → is_option fl a ≡ false → set_option fl a b o ≡ o
  set_option_plain a b o h =
      plain (equal a (codes "-s")) (equal a (codes "-p")) (equal a (codes "-d")) _ _ _ h
    where
      plain :
          (x y z : Bool) (u v w : Options fl)
          → (x || y || z) ≡ false
          → (if x then u else if y then v else if z then w else o) ≡ o
      plain true y z u v w h = ground arith
      plain false true z u v w h = ground arith
      plain false false true u v w h = ground arith
      plain false false false u v w h = refl

  -- A value is looked at as an option too.
  behind_value :
      (x : Setting) (xs : List Setting) (o : Options fl)
      → is_option fl (value_of x) ≡ false
      → read_options fl (value_of x ∷ written xs) o ≡ read_options fl (written xs) o
  unfolding read_options
  behind_value x [] o h = ap (λ b. if b then none else some o) h
  behind_value x (y ∷ ys) o h =
      ap (read_options fl (written (y ∷ ys))) (set_option_plain (value_of x) (flag_of y) o h)

  read_options-apply :
      (xs : List Setting) (o : Options fl)
      → ArePlain xs
      → read_options fl (written xs) o ≡ some (apply_all xs o)
  unfolding read_options
  read_options-apply [] o h = refl
  read_options-apply (x ∷ xs) o (h, t) =
      behind_value x xs (set_option fl (flag_of x) (value_of x) o) h
      ∙ ap (read_options fl (written xs)) (set_option-apply x o)
      ∙ read_options-apply xs (apply x o) t

  length-written : (xs : List Setting) → length (written xs) ≡ length xs + length xs
  length-written [] = omega arith
  length-written (x ∷ xs) = omega (arith, length-written xs)

  -- At least three options, in any order and repeated or not, each with a value that is not itself
  -- an option, set what they name, a later one over an earlier one, and `main` goes on as the check
  -- of the probability says.
  pub start_of-written :
      (name : Text) (xs : List Setting)
      → 3 ≤ length xs
      → ArePlain xs
      → start_of fl (name ∷ written xs) ≡ check_options fl (apply_all xs (unset_options fl))
  unfolding start_of
  start_of-written name xs n h =
      ap (λ b. if b then usage else or_fault fl (read_options fl (written xs) (unset_options fl)))
        (le→not_ltb (length (name ∷ written xs)) 7 (omega (arith, length-written xs)))
      ∙ ap (or_fault fl) (read_options-apply xs (unset_options fl) h)
