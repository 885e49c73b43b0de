-- ===== src/Metro/Clear.antt =====
-- How the control center ends a clearance.
use comp304_assignments.Prelude.{
  ℕ, zero, suc, ◌+◌, ◌/◌, ◌≤◌, ◌<◌, ◌≡◌, refl, sym, ap, subst, ◌∙◌, Bool, true, false, List, [],
  ◌∷◌, ◌++◌, arith, leb, if◌then◌else◌, length,
}
use comp304_assignments.Metro.Data.{
  Train, ControlPc, idle, resetting, choosing, chosen, entering, leaving, State, Floats, either,
}
use comp304_assignments.Metro.Control.{
  check_empty, reset, enter, break_down, arrive, control_at, all_empty, at_control,
}
use comp304_assignments.Metro.Section.{waiting}
use comp304_assignments.Metro.System.{Move, control, tick, step, run}
use comp304_assignments.Metro.Front.{HasQueued, At, Took, choose-Took}

-- The train in the tunnel is short, and its sleep ends in `w` seconds at most.
abbrev Inside : (pc : Train → ℕ → ControlPc) (k n : ℕ) (on : Bool) (w : ℕ) → State → Type 0
Inside pc k n on w s =
    (t : Train) × (until : ℕ) × (s.control ≡ pc t until)
    × (t.length / 100 + 4 ≤ k)
    × (until ≤ s.clock + w)
    × HasQueued k n on s

check_empty-choosing : (s : State) → 0 < waiting s → check_empty s ≡ at_control choosing s
unfolding check_empty
check_empty-choosing s h =
    let busy : all_empty s ≡ false = grind arith in
    ap (λ b. if b then at_control resetting s else at_control choosing s) busy

enter-Inside :
    (k n : ℕ) (on : Bool) (s : State) (t : Train)
    → t.length / 100 + 4 ≤ k
    → HasQueued k n on s
    → Inside entering k n on 1 (enter t s)
unfolding enter
enter-Inside k n on s t h v = (t, s.clock + 1, refl, h, omega arith, v)

break_down-Inside :
    (k n : ℕ) (on b : Bool) (s : State) (t : Train)
    → t.length / 100 + 4 ≤ k
    → HasQueued k n on s
    → Inside leaving k n on k (break_down t b s)
unfolding break_down
break_down-Inside k n on true s t h v = (t, s.clock + (t.length / 100 + 4), refl, h, omega arith, v)
break_down-Inside k n on false s t h v =
    (t, s.clock + (t.length / 100 + 0), refl, h, omega arith, v)

module _ (fl : Floats) (p : fl.Real) where
  step-control :
      (draw : fl.Real) (pc : ControlPc) (s : State)
      → s.control ≡ pc
      → step fl p (control draw) s ≡ control_at fl draw pc s
  unfolding step
  step-control draw pc s e = ap (λ pc. control_at fl draw pc s) e

  ticks : ℕ → List (Move fl)
  ticks zero = []
  ticks (suc k) = tick ∷ ticks k

  -- The moves of a passage.
  passage : ℕ → fl.Real → List (Move fl)
  passage k draw =
      control draw
      ∷ control draw
      ∷ control draw
      ∷ tick
      ∷ control draw
      ∷ (ticks k ++ control draw ∷ [])

  run-append :
      (ms ns : List (Move fl)) (s : State) → run fl p (ms ++ ns) s ≡ run fl p ns (run fl p ms s)
  unfolding run
  run-append [] ns s = refl
  run-append (m ∷ ms) ns s = run-append ms ns (step fl p m s)

  ticks-Inside :
      (pc : Train → ℕ → ControlPc) (k n : ℕ) (on : Bool) (j : ℕ) (s : State)
      → Inside pc k n on j s
      → Inside pc k n on 0 (run fl p (ticks j) s)
  unfolding run step ticks
  ticks-Inside pc k n on zero s v = v
  ticks-Inside pc k n on (suc j) s (t, until, e, h, b, v) =
      ticks-Inside pc k n on j (step fl p tick s) (t, until, e, h, omega arith, v)

  from_idle :
      (k n : ℕ) (on : Bool) (draw : fl.Real) (s : State)
      → At idle k (suc n) on s
      → At choosing k (suc n) on (step fl p (control draw) s)
  unfolding control_at
  from_idle k n on draw s (e, v) =
      subst (At choosing k (suc n) on)
        (sym (step-control draw idle s e ∙ check_empty-choosing s (omega (arith, v.1.count))))
        (refl, v)

  from_choosing :
      (k n : ℕ) (on : Bool) (draw : fl.Real) (s : State)
      → At choosing k (suc n) on s
      → Took k n on (step fl p (control draw) s)
  unfolding control_at
  from_choosing k n on draw s (e, v) =
      subst (Took k n on) (sym (step-control draw choosing s e)) (choose-Took k n on s v)

  from_chosen :
      (k n : ℕ) (on : Bool) (draw : fl.Real) (s : State)
      → Took k n on s
      → Inside entering k n on 1 (step fl p (control draw) s)
  unfolding control_at
  from_chosen k n on draw s (t, e, h, v) =
      subst (Inside entering k n on 1) (sym (step-control draw (chosen t) s e))
        (enter-Inside k n on s t h v)

  -- The test of a sleep that is over.
  over : (until now : ℕ) → until ≤ now + 0 → leb until now ≡ true
  over until now h = ground arith

  from_entering :
      (k n : ℕ) (on : Bool) (draw : fl.Real) (s : State)
      → Inside entering k n on 0 s
      → Inside leaving k n on k (step fl p (control draw) s)
  unfolding control_at
  from_entering k n on draw s (t, until, e, h, b, v) =
      subst (Inside leaving k n on k)
        (sym (
          step-control draw (entering t until) s e
          ∙ ap (λ c. if c then break_down t (fl.at_most draw fl.tenth) s else s)
              (over until s.clock b)))
        (break_down-Inside k n on (fl.at_most draw fl.tenth) s t h v)

  from_leaving :
      (k n : ℕ) (on : Bool) (draw : fl.Real) (s : State)
      → Inside leaving k n on 0 s
      → At idle k n on (step fl p (control draw) s)
  unfolding control_at arrive
  from_leaving k n on draw s (t, until, e, h, b, v) =
      subst (At idle k n on)
        (sym (
          step-control draw (leaving t until) s e
          ∙ ap (λ c. if c then arrive t s else s) (over until s.clock b)))
        (refl, v)

  passage-At :
      (k n : ℕ) (on : Bool) (draw : fl.Real) (s : State)
      → At idle k (suc n) on s
      → At idle k n on (run fl p (passage k draw) s)
  unfolding run passage ticks
  passage-At k n on draw s v =
      let a = step fl p (control draw) s in
      let b = step fl p (control draw) a in
      let c = step fl p (control draw) b in
      let d = step fl p tick c in
      let e = step fl p (control draw) d in
      let taken = from_choosing k n on draw a (from_idle k n on draw s v) in
      let entered = ticks-Inside entering k n on 1 c (from_chosen k n on draw b taken) in
      let leaves = ticks-Inside leaving k n on k e (from_entering k n on draw d entered) in
      subst (At idle k n on) (sym (run-append (ticks k) (control draw ∷ []) e))
        (from_leaving k n on draw (run fl p (ticks k) e) leaves)

  -- The passages of a list of draws.
  pub passages : ℕ → List fl.Real → List (Move fl)
  passages k [] = []
  passages k (d ∷ ds) = passage k d ++ passages k ds

  passages-At :
      (k : ℕ) (on : Bool) (ds : List fl.Real) (s : State)
      → At idle k (length ds) on s
      → At idle k 0 on (run fl p (passages k ds) s)
  unfolding run passages
  passages-At k on [] s v = v
  passages-At k on (d ∷ ds) s v =
      subst (At idle k 0 on) (sym (run-append (passage k d) (passages k ds) s))
        (passages-At k on ds _ (passage-At k (length ds) on d s v))

  check_empty-resetting : (s : State) → waiting s ≡ 0 → check_empty s ≡ at_control resetting s
  unfolding check_empty
  check_empty-resetting s h =
      let none : all_empty s ≡ true = ground arith in
      ap (λ b. if b then at_control resetting s else at_control choosing s) none

  -- The clearance has ended.
  abbrev pub IsCleared : State → Type 0
  IsCleared s = (s.control ≡ idle) × (s.clearance ≡ false) × (waiting s ≡ 0)

  reset-IsCleared : (s : State) → waiting s ≡ 0 → IsCleared (reset s)
  unfolding reset
  reset-IsCleared s h = either IsCleared s.clearance (refl, refl, h) (refl, refl, h)

  idle-IsCleared :
      (k : ℕ) (on : Bool) (draw : fl.Real) (s : State)
      → At idle k 0 on s
      → IsCleared (run fl p (control draw ∷ control draw ∷ []) s)
  unfolding run control_at
  idle-IsCleared k on draw s (e, v) =
      let first = step-control draw idle s e ∙ check_empty-resetting s v.1.count in
      let second = step-control draw resetting (at_control resetting s) refl in
      subst (λ u. IsCleared (step fl p (control draw) u)) (sym first)
        (subst IsCleared (sym second) (reset-IsCleared (at_control resetting s) v.1.count))

  -- Let the control center stand at the top of its loop, and let every waiting train take at most
  -- `k` seconds behind its front, a breakdown included. A passage is three moves of the control
  -- center, a second, another move, `k` seconds and a last move. After as many passages as trains
  -- wait and two more moves, whatever the draws are, no train waits, the clearance flag is not set,
  -- and the control center is at the top of its loop again.
  pub passages-IsCleared :
      (k : ℕ) (on : Bool) (ds : List fl.Real) (draw : fl.Real) (s : State)
      → At idle k (length ds) on s
      → IsCleared (run fl p (passages k ds ++ control draw ∷ control draw ∷ []) s)
  passages-IsCleared k on ds draw s v =
      subst IsCleared (sym (run-append (passages k ds) (control draw ∷ control draw ∷ []) s))
        (idle-IsCleared k on draw _ (passages-At k on ds s v))
