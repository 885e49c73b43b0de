-- ===== src/Metro/Args.antt =====
-- `main` of main.cpp: the options, and the simulation that they start.
use comp304_assignments.Prelude.{
  ℕ, Bool, false, ◌||◌, Option, none, some, List, [], ◌∷◌, ltb, if◌then◌else◌, length,
}
use comp304_assignments.Prelude.Text.{Text, codes, equal, ℤ, atoi}
use comp304_assignments.Metro.Data.{Floats}
use comp304_assignments.Metro.System.{Move, init, run}
use comp304_assignments.Metro.Log.{Tm, write_control_log, write_train_log}

abbrev tail : List Text → List Text
tail [] = []
tail (a ∷ rest) = rest

module _ (fl : Floats) where
  -- The variables that the options set; none is a variable that nothing wrote.
  pub record Options : Type 0 where
    pub simulation_time : Option ℤ
    pub p : Option fl.Real
    pub debug : Bool

  -- How `main` goes on: the usage and nothing more, a read through the NULL behind the arguments, a
  -- read of a variable that nothing wrote, a refused probability, or the simulation.
  pub data Start : Type 0 where
    usage : Start
    fault : Start
    unset : Start
    refused : Start
    started : ℤ → fl.Real → Bool → Start

  abbrev pub unset_options : Options
  unset_options = record { simulation_time = none; p = none; debug = false }

  abbrev pub set_option : (flag value : Text) → Options → Options
  set_option flag value o =
      if equal flag (codes "-s")
      then record o { simulation_time = some (atoi value) }
      else if equal flag (codes "-p")
      then record o { p = some (fl.atof value) }
      else if equal flag (codes "-d")
      then record o { debug = equal value (codes "T") }
      else o

  abbrev pub is_option : Text → Bool
  is_option t = equal t (codes "-s") || equal t (codes "-p") || equal t (codes "-d")

  -- The loop over the arguments: an option that is the last argument has none to read.
  unfoldable pub read_options : List Text → Options → Option Options
  unfolding equal atoi
  read_options [] o = some o
  read_options (a ∷ []) o = if is_option a then none else some o
  read_options (a ∷ b ∷ rest) o = read_options (b ∷ rest) (set_option a b o)

  abbrev pub check_options : Options → Start
  check_options o = elim o.p [
    | none ↦ unset
    | some p ↦
        if fl.below p fl.zero || fl.below fl.one p
        then refused
        else elim o.simulation_time [ none ↦ unset | some t ↦ started t p o.debug ]
  ]

  abbrev pub or_fault : Option Options → Start
  or_fault none = fault
  or_fault (some o) = check_options o

  -- `argv` with the program's name in front.
  unfoldable pub start_of : List Text → Start
  unfolding read_options
  start_of argv =
      if ltb (length argv) 7 then usage else or_fault (read_options (tail argv) unset_options)

  -- The logs behind the moves `ms` of the threads, which are cancelled then.
  unfoldable pub simulate :
      (localtime : ℕ → Tm) (control_open train_open : Bool) (time : ℤ) (p : fl.Real) (debug : Bool)
      (now : ℕ)
      → List (Move fl)
      → Option Text × Option Text
  unfolding run write_control_log write_train_log
  simulate localtime control_open train_open time p debug now ms =
      let s = run fl p ms (init now) in
      let (control_file, t) = write_control_log localtime control_open s in
      let (train_file, u) = write_train_log localtime fl train_open debug time p t in
      (control_file, train_file)
