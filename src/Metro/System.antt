-- ===== src/Metro/System.antt =====
-- The interleavings of the threads: a schedule is a list of moves.
use comp304_assignments.Prelude.{ℕ, ◌+◌, false, List, [], ◌∷◌}
use comp304_assignments.Metro.Data.{idle, looking, Line, State, Floats}
use comp304_assignments.Metro.Control.{control_at}
use comp304_assignments.Metro.Section.{Draws, section_pc, section_at}

-- A step of the control center or of a section's thread, with its draws, or of the clock.
pub data Move (fl : Floats) : Type 0 where
  control : fl.Real → Move fl
  section : Line → Draws fl → Move fl
  tick : Move fl

-- As the globals are when `main` starts the threads at time `now`.
abbrev pub init : ℕ → State
init now = record {
  section1 = [];
  section2 = [];
  section3 = [];
  section4 = [];
  control_log = [];
  trains = [];
  clearance = false;
  time_to_clear = 0;
  train_id = 0;
  clock = now;
  control = idle;
  thread_a = looking;
  thread_b = looking;
  thread_e = looking;
  thread_f = looking;
}

module _ (fl : Floats) (p : fl.Real) where
  unfoldable pub step : Move fl → State → State
  unfolding control_at section_at
  step (control draw) s = control_at fl draw s.control s
  step (section x d) s = section_at fl p x d (section_pc x s) s
  step tick s = record s { clock = s.clock + 1 }

  unfoldable pub run : List (Move fl) → State → State
  run [] s = s
  run (m ∷ ms) s = run ms (step m s)
