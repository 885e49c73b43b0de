-- ===== src/Metro/Spec.antt =====
-- The steps of the control center, and every step, keep the contract of the tunnel.
use comp304_assignments.Prelude.{
  ℕ, ◌+◌, ◌/◌, ◌≤◌, ◌<◌, ◌≡◌, refl, sym, ap, subst, Bool, true, false, List, [], ◌∷◌, arith, leb,
  ◌==◌, if◌then◌else◌, length, ==→eq,
}
use comp304_assignments.Metro.Data.{
  Train, ControlPc, idle, resetting, choosing, chosen, entering, leaving, undefined, Line, line_a,
  line_b, line_e, line_f, State, Floats, either,
}
use comp304_assignments.Metro.Control.{
  check_empty, reset, choose, enter, break_down, arrive, control_at, all_empty, at_control,
  take_front, max_queue_size,
}
use comp304_assignments.Metro.Section.{section_pc, waiting}
use comp304_assignments.Metro.System.{Move, control, section, tick, init, step, run}
use comp304_assignments.Metro.Tunnel.{
  section_at-Keeps, size_of, resize, SpecStep, is_busy, tunnel_of, Ready, IsReady, Keeps, max-last,
  stay, admit, leave,
}

-- The control center moves on without a change of what the contract sees.
at_control-Keeps :
    (pc : ControlPc) (s : State)
    → is_busy pc ≡ is_busy s.control
    → Ready pc (waiting s)
    → Keeps s (at_control pc s)
at_control-Keeps pc s e r = (stay (ap (λ b. record (tunnel_of s) { busy = b }) e), r)

check_empty-Keeps : (s : State) → is_busy s.control ≡ false → Keeps s (check_empty s)
unfolding check_empty
check_empty-Keeps s e = by_cases (all_empty s) refl
  where
    by_cases :
        (b : Bool)
        → all_empty s ≡ b
        → Keeps s (if b then at_control resetting s else at_control choosing s)
    by_cases true h = at_control-Keeps resetting s (sym e) tt
    by_cases false h = at_control-Keeps choosing s (sym e) (ground arith)

reset-Keeps : (s : State) → is_busy s.control ≡ false → Keeps s (reset s)
unfolding reset
reset-Keeps s e =
    let k : Keeps s (record s { clearance = false; control = idle }) =
      at_control-Keeps idle s (sym e) tt in
    either (Keeps s) s.clearance k k

-- A train of a longest queue enters.
take_front-Keeps :
    (x : Line) (q : List Train) (put : List Train → State) (s : State)
    → is_busy s.control ≡ false
    → 0 < waiting s
    → size_of x (tunnel_of s) ≡ length q
    → ((y : Line) → size_of y (tunnel_of s) ≤ size_of x (tunnel_of s))
    → ((t : Train) (ts : List Train)
        → tunnel_of (at_control (chosen t) (put ts))
          ≡ record (resize x (length ts) (tunnel_of s)) { busy = true })
    → Keeps s (take_front q put s)
take_front-Keeps x [] put s e w z h k =
    absurd (omega (arith, h line_a, h line_b, h line_e, h line_f))
take_front-Keeps x (t ∷ ts) put s e w z h k = (admit x (length ts) e z h (k t ts), tt)

pub longest : (s : State) (n : ℕ) → max_queue_size s ≡ n → (y : Line) → size_of y (tunnel_of s) ≤ n
longest s n e line_a = ground arith
longest s n e line_b = ground arith
longest s n e line_e = ground arith
longest s n e line_f = ground arith

choose-Keeps : (s : State) → is_busy s.control ≡ false → 0 < waiting s → Keeps s (choose s)
unfolding choose
choose-Keeps s e w =
    by_cases (max_queue_size s == length s.section1) (max_queue_size s == length s.section2)
      (max_queue_size s == length s.section3) refl refl refl
  where
    by_cases :
        (one two three : Bool)
        → (max_queue_size s == length s.section1) ≡ one
        → (max_queue_size s == length s.section2) ≡ two
        → (max_queue_size s == length s.section3) ≡ three
        → Keeps s (
            if one
            then take_front s.section1 (λ ts. record s { section1 = ts }) s
            else if two
            then take_front s.section2 (λ ts. record s { section2 = ts }) s
            else if three
            then take_front s.section3 (λ ts. record s { section3 = ts }) s
            else take_front s.section4 (λ ts. record s { section4 = ts }) s)
    by_cases true two three a b c =
        take_front-Keeps line_a s.section1 _ s e w refl (longest s _ (==→eq _ _ a)) (λ t ts. refl)
    by_cases false true three a b c =
        take_front-Keeps line_b s.section2 _ s e w refl (longest s _ (==→eq _ _ b)) (λ t ts. refl)
    by_cases false false true a b c =
        take_front-Keeps line_e s.section3 _ s e w refl (longest s _ (==→eq _ _ c)) (λ t ts. refl)
    by_cases false false false a b c =
        take_front-Keeps line_f s.section4 _ s e w refl
          (longest s _ (
            max-last (length s.section1) (length s.section2) (length s.section3) (length s.section4)
              a b c))
          (λ t ts. refl)

break_down-Keeps :
    (t : Train) (b : Bool) (s : State) → is_busy s.control ≡ true → Keeps s (break_down t b s)
unfolding break_down
break_down-Keeps t b s e =
    either (Keeps s) b (at_control-Keeps (leaving t (s.clock + (t.length / 100 + 4))) s (sym e) tt)
      (at_control-Keeps (leaving t (s.clock + (t.length / 100 + 0))) s (sym e) tt)

module _ (fl : Floats) (p : fl.Real) where
  control_at-Keeps :
      (draw : fl.Real) (pc : ControlPc) (s : State)
      → s.control ≡ pc
      → IsReady s
      → Keeps s (control_at fl draw pc s)
  unfolding control_at enter arrive
  control_at-Keeps draw idle s e r = check_empty-Keeps s (ap is_busy e)
  control_at-Keeps draw resetting s e r = reset-Keeps s (ap is_busy e)
  control_at-Keeps draw choosing s e r =
      choose-Keeps s (ap is_busy e) (subst (λ pc. Ready pc (waiting s)) e r)
  control_at-Keeps draw (chosen t) s e r =
      at_control-Keeps (entering t (s.clock + 1)) s (sym (ap is_busy e)) tt
  control_at-Keeps draw (entering t until) s e r =
      either (Keeps s) (leb until s.clock) (break_down-Keeps t _ s (ap is_busy e)) (stay refl, r)
  control_at-Keeps draw (leaving t until) s e r =
      either (Keeps s) (leb until s.clock) (leave (ap is_busy e) refl, tt) (stay refl, r)
  control_at-Keeps draw undefined s e r = absurd (subst (λ pc. Ready pc (waiting s)) e r)

  step-Keeps : (m : Move fl) (s : State) → IsReady s → Keeps s (step fl p m s)
  unfolding step
  step-Keeps (control draw) s r = control_at-Keeps draw s.control s refl r
  step-Keeps (section x d) s r = section_at-Keeps fl p x d (section_pc x s) s r
  step-Keeps tick s r = (stay refl, r)

  run-IsReady : (ms : List (Move fl)) (s : State) → IsReady s → IsReady (run fl p ms s)
  unfolding run
  run-IsReady [] s r = r
  run-IsReady (m ∷ ms) s r = run-IsReady ms (step fl p m s) ((step-Keeps m s r).1)

  -- In every state that the threads reach, in any interleaving and with any draws, each step of a
  -- thread or of the clock is a step of the tunnel's contract: nothing changes in it, a train joins
  -- the queue of one source, a train of a queue that no other exceeds enters the free tunnel, or
  -- the train in the tunnel leaves it.
  pub step-SpecStep :
      (now : ℕ) (ms : List (Move fl)) (m : Move fl)
      → SpecStep
          (tunnel_of (run fl p ms (init now)))
          (tunnel_of (step fl p m (run fl p ms (init now))))
  step-SpecStep now ms m =
      let s = run fl p ms (init now) in (step-Keeps m s (run-IsReady ms (init now) tt)).0
