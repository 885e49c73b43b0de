-- ===== src/Tests/Metro.antt =====
-- The theorems about the simulation at concrete schedules.
use comp304_assignments.Prelude.{
  ◌+◌, ℕ, zero, suc, ◌+◌, ◌-◌, ◌*◌, ◌≤◌, ◌≡◌, refl, Bool, true, false, Option, none, some, List, [],
  ◌∷◌, ◌++◌, arith, ltb, leb, length,
}
use comp304_assignments.Prelude.Text.{Text, codes, to_text}
use comp304_assignments.Metro.Data.{
  join_ids, trains_waiting, Train, State, Floats, line_a, line_b, line_e,
}
use comp304_assignments.Metro.Section.{Draws, waiting}
use comp304_assignments.Metro.System.{Move, control, section, tick, init, step, run}
use comp304_assignments.Metro.Waiting.{AreSorted, trains_waiting-AreSorted}
use comp304_assignments.Metro.Bound.{waiting-run}
use comp304_assignments.Metro.Located.{ids, IsLocated, run-init-IsLocated}
use comp304_assignments.Metro.Tunnel.{SpecStep, tunnel_of}
use comp304_assignments.Metro.Spec.{step-SpecStep}
use comp304_assignments.Metro.Clear.{IsCleared, passages, passages-IsCleared}
use comp304_assignments.Metro.Log.{read_trains}
use comp304_assignments.Metro.Records.{ids_from, ids_of, read_trains-run}
use comp304_assignments.Metro.Args.{unset_options, check_options, start_of}
use comp304_assignments.Metro.Options.{
  time_is, p_is, debug_is, written, apply_all, start_of-written,
}

-- Tenths, with one digit read and written.
abbrev tenths : Floats
tenths = record {
  Real = ℕ;
  at_most = leb;
  below = ltb;
  zero = 0;
  one = 10;
  one_minus = λ r. 10 - r;
  tenth = 1;
  half = 5;
  seven_tenths = 7;
  atof = λ t. length t;
  shown = to_text;
}

abbrev draws : ℕ → Draws tenths
draws r = record { threshold = 9; rand_length = r; rand_line = r }

-- Trains from A, B and E, and the control center takes the first.
abbrev moves : List (Move tenths)
moves =
    section line_a (draws 8)
    ∷ section line_a (draws 8)
    ∷ section line_a (draws 8)
    ∷ section line_a (draws 8)
    ∷ section line_b (draws 3)
    ∷ section line_b (draws 3)
    ∷ section line_b (draws 3)
    ∷ section line_b (draws 3)
    ∷ control 5
    ∷ section line_e (draws 3)
    ∷ control 5
    ∷ section line_e (draws 3)
    ∷ section line_e (draws 3)
    ∷ section line_e (draws 3)
    ∷ control 5
    ∷ tick
    ∷ control 0
    ∷ []

moves_leave_two : waiting (run tenths 3 moves (init 100)) ≡ 2
unfolding run step
moves_leave_two = refl

step-SpecStep_example :
    SpecStep
      (tunnel_of (run tenths 3 moves (init 100)))
      (tunnel_of (step tenths 3 tick (run tenths 3 moves (init 100))))
step-SpecStep_example = step-SpecStep tenths 3 100 moves tick

waiting-run_example : waiting (run tenths 3 moves (init 100)) ≤ 18
waiting-run_example = waiting-run tenths 3 100 moves

run-init-IsLocated_example : IsLocated 1 (run tenths 3 moves (init 100))
run-init-IsLocated_example = run-init-IsLocated 1 tenths 3 100 moves

read_trains-run_example :
    (ids_of
        (read_trains
          (run tenths 3 moves (init 100)).train_id
          0
          (run tenths 3 moves (init 100)).trains).0
      ≡ ids_from 0 (run tenths 3 moves (init 100)).train_id)
    × ((read_trains
          (run tenths 3 moves (init 100)).train_id
          0
          (run tenths 3 moves (init 100)).trains).1
        ≡ (run tenths 3 moves (init 100)).trains)
    × (length (run tenths 3 moves (init 100)).trains ≡ (run tenths 3 moves (init 100)).train_id)
read_trains-run_example = read_trains-run tenths 3 100 moves

abbrev train : ℕ → Train
train i = record {
  id = i;
  source = b'A';
  destination = b'E';
  length = 200;
  departure_time = 100;
  arrival_time = none;
}

-- Two trains wait, and the system clears.
abbrev overloaded : State
overloaded = record (init 100) {
  section1 = train 0 ∷ [];
  section3 = train 1 ∷ [];
  clearance = true;
}

passages-IsCleared_example :
    IsCleared tenths 3
      (run tenths 3 (passages tenths 3 6 (0 ∷ 5 ∷ []) ++ control 0 ∷ control 0 ∷ []) overloaded)
passages-IsCleared_example = passages-IsCleared tenths 3 6 true (0 ∷ 5 ∷ []) 0 overloaded (
  refl,
  (
    refl,
    record {
      count = refl;
      short_a = (omega arith, tt);
      short_b = tt;
      short_e = (omega arith, tt);
      short_f = tt;
    },
  ),
)

start_of-written_example :
    start_of tenths (
      codes "metro" ∷ written (debug_is (codes "T") ∷ p_is (codes "1") ∷ time_is (codes "60") ∷ []))
    ≡ check_options tenths (
        apply_all tenths
          (debug_is (codes "T") ∷ p_is (codes "1") ∷ time_is (codes "60") ∷ [])
          (unset_options tenths))
unfolding comp304_assignments.Prelude.Text.equal
start_of-written_example =
    start_of-written tenths (codes "metro")
      (debug_is (codes "T") ∷ p_is (codes "1") ∷ time_is (codes "60") ∷ []) (omega arith)
      (refl, (refl, (refl, tt)))

trains_waiting-AreSorted_example :
    (ts : List Train) × (trains_waiting overloaded ≡ join_ids ts)
    × AreSorted ts
    × ((n : ℕ)
        → ids n ts
          ≡ ids n overloaded.section1
            + ids n overloaded.section2
            + ids n overloaded.section3
            + ids n overloaded.section4)
trains_waiting-AreSorted_example = trains_waiting-AreSorted overloaded
