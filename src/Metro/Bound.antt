-- ===== src/Metro/Bound.antt =====
-- How many trains wait at most.
use comp304_assignments.Prelude.{
  ℕ, ◌≤◌, ◌≡◌, refl, ap, Bool, true, false, List, [], ◌∷◌, arith, leb, ◌==◌, if◌then◌else◌, length,
}
use comp304_assignments.Metro.Data.{
  Train, ControlPc, idle, resetting, choosing, chosen, entering, leaving, undefined, State, Floats,
  either,
}
use comp304_assignments.Metro.Control.{
  check_empty, reset, choose, enter, break_down, arrive, control_at, all_empty, at_control,
  take_front, max_queue_size,
}
use comp304_assignments.Metro.Section.{section_pc, waiting}
use comp304_assignments.Metro.System.{Move, control, section, tick, init, step, run}
use comp304_assignments.Metro.Weight.{
  section_at-Bounded, limit, Bounded, weigh-le, weigh-le_four, limit-ge,
}

-- The control center.
all_empty-waiting : (s : State) → all_empty s ≡ true → waiting s ≡ 0
all_empty-waiting s h = ground arith

moved-Bounded :
    (s : State) (pc : ControlPc)
    → Bounded s
    → limit s.control ≤ limit pc
    → Bounded (at_control pc s)
moved-Bounded s pc v h = omega arith

check_empty-Bounded : (s : State) → Bounded s → Bounded (check_empty s)
unfolding check_empty
check_empty-Bounded s v = by_cases (all_empty s) refl
  where
    by_cases :
        (b : Bool)
        → all_empty s ≡ b
        → Bounded (if b then at_control resetting s else at_control choosing s)
    by_cases true e = omega (arith, all_empty-waiting s e, weigh-le_four s.clearance s)
    by_cases false e = omega (arith, limit-ge s.control)

-- Whatever the flag was, each thread may now create once.
reset-Bounded : (s : State) → s.control ≡ resetting → Bounded s → Bounded (reset s)
unfolding reset
reset-Bounded s e v =
    let few : Bounded (record s { clearance = false; control = idle }) =
      omega (arith, ap limit e, weigh-le s) in
    either Bounded s.clearance few few

take_front-Bounded :
    (q : List Train) (put : List Train → State) (s : State)
    → ((t : Train) (ts : List Train) → q ≡ t ∷ ts → Bounded (at_control (chosen t) (put ts)))
    → Bounded s
    → Bounded (take_front q put s)
take_front-Bounded [] put s h v = omega (arith, limit-ge s.control)
take_front-Bounded (t ∷ ts) put s h v = h t ts refl

choose-Bounded : (s : State) → Bounded s → Bounded (choose s)
unfolding choose
choose-Bounded s v =
    either Bounded (max_queue_size s == length s.section1)
      (take_front-Bounded s.section1 _ s (λ t ts e. omega (arith, ap length e, limit-ge s.control))
        v)
      (either Bounded (max_queue_size s == length s.section2)
        (take_front-Bounded s.section2 _ s
          (λ t ts e. omega (arith, ap length e, limit-ge s.control)) v)
        (either Bounded (max_queue_size s == length s.section3)
          (take_front-Bounded s.section3 _ s
            (λ t ts e. omega (arith, ap length e, limit-ge s.control)) v)
          (take_front-Bounded s.section4 _ s
            (λ t ts e. omega (arith, ap length e, limit-ge s.control)) v)))

break_down-Bounded : (t : Train) (b : Bool) (s : State) → Bounded s → Bounded (break_down t b s)
unfolding break_down
break_down-Bounded t b s v =
    either Bounded b (omega (arith, limit-ge s.control)) (omega (arith, limit-ge s.control))

module _ (fl : Floats) (p : fl.Real) where
  control_at-Bounded :
      (draw : fl.Real) (pc : ControlPc) (s : State)
      → s.control ≡ pc
      → Bounded s
      → Bounded (control_at fl draw pc s)
  unfolding control_at enter arrive
  control_at-Bounded draw idle s e v = check_empty-Bounded s v
  control_at-Bounded draw resetting s e v = reset-Bounded s e v
  control_at-Bounded draw choosing s e v = choose-Bounded s v
  control_at-Bounded draw (chosen t) s e v = omega (arith, limit-ge s.control)
  control_at-Bounded draw (entering t until) s e v =
      either Bounded (leb until s.clock) (break_down-Bounded t _ s v) v
  control_at-Bounded draw (leaving t until) s e v =
      either Bounded (leb until s.clock) (omega (arith, limit-ge s.control)) v
  control_at-Bounded draw undefined s e v = v

  step-Bounded : (m : Move fl) (s : State) → Bounded s → Bounded (step fl p m s)
  unfolding step
  step-Bounded (control draw) s v = control_at-Bounded draw s.control s refl v
  step-Bounded (section x d) s v = section_at-Bounded fl p x d (section_pc x s) s refl v
  step-Bounded tick s v = v

  run-Bounded : (ms : List (Move fl)) (s : State) → Bounded s → Bounded (run fl p ms s)
  unfolding run
  run-Bounded [] s v = v
  run-Bounded (m ∷ ms) s v = run-Bounded ms (step fl p m s) (step-Bounded m s v)

  -- After any moves of the threads, at most 18 trains wait in the four queues.
  pub waiting-run : (now : ℕ) (ms : List (Move fl)) → waiting (run fl p ms (init now)) ≤ 18
  waiting-run now ms =
      let s = run fl p ms (init now) in
      omega (arith, run-Bounded ms (init now) (omega arith), limit-ge s.control)
