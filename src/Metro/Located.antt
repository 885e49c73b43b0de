-- ===== src/Metro/Located.antt =====
-- No train is lost, and none is in two places.
use comp304_assignments.Prelude.{
  ℕ, ◌+◌, ◌≡◌, refl, sym, ap, ◌∙◌, Bool, false, Option, none, some, inl, inr, List, [], ◌∷◌, ◌++◌,
  arith, ltb, leb, ◌==◌, if◌then◌else◌, length, Bool-cases,
}
use comp304_assignments.Metro.Data.{
  Train, ControlPc, idle, resetting, choosing, chosen, entering, leaving, undefined, SectionPc,
  looking, checking, deciding, creating, sleeping, Line, line_a, line_b, line_e, line_f, State,
  Floats, either, find_train, put_train, or_zero,
}
use comp304_assignments.Metro.Control.{
  check_empty, reset, choose, enter, break_down, arrive, control_at, all_empty, at_control,
  take_front, max_queue_size,
}
use comp304_assignments.Metro.Section.{
  at_section, section_pc, source_of, waiting, check_overload, create, decide, section_at, Draws,
  new_train,
}
use comp304_assignments.Metro.System.{Move, control, section, tick, init, step, run}

pub find-put :
    (n i : ℕ) (t : Train) (m : List (ℕ × Train))
    → find_train n (put_train i t m) ≡ (if i == n then some t else find_train n m)
unfolding find_train put_train
find-put n i t [] = refl
find-put n i t ((j, u) ∷ m) = ground (arith, find-put n i t m)

abbrev pub has_id : ℕ → Train → ℕ
has_id n t = if t.id == n then 1 else 0

-- How often a train with the id `n` is in a queue, with the control center, or has arrived.
abbrev pub ids : ℕ → List Train → ℕ
ids n [] = 0
ids n (t ∷ ts) = has_id n t + ids n ts

abbrev pub held : ℕ → ControlPc → ℕ
held n (chosen t) = has_id n t
held n (entering t until) = has_id n t
held n (leaving t until) = has_id n t
held n _ = 0

abbrev pub has_arrived : Option Train → ℕ
has_arrived none = 0
has_arrived (some t) = elim t.arrival_time [ none ↦ 0 | some a ↦ 1 ]

abbrev pub places : ℕ → State → ℕ
places n s =
    ids n s.section1
    + ids n s.section2
    + ids n s.section3
    + ids n s.section4
    + held n s.control
    + has_arrived (find_train n s.trains)

-- Each train so far is in one place, and there is no other.
abbrev pub IsLocated : ℕ → State → Type 0
IsLocated n s = places n s ≡ (if ltb n s.train_id then 1 else 0)

ids-append : (n : ℕ) (ts us : List Train) → ids n (ts ++ us) ≡ ids n ts + ids n us
ids-append n [] us = omega arith
ids-append n (t ∷ ts) us = omega (arith, ids-append n ts us)

module _ (n : ℕ) where
  at_section-IsLocated :
      (x : Line) (pc : SectionPc) (s : State) → IsLocated n s → IsLocated n (at_section x pc s)
  at_section-IsLocated line_a pc s v = v
  at_section-IsLocated line_b pc s v = v
  at_section-IsLocated line_e pc s v = v
  at_section-IsLocated line_f pc s v = v

  check_overload-IsLocated : (s : State) → IsLocated n s → IsLocated n (check_overload s)
  unfolding check_overload
  check_overload-IsLocated s v =
      either (IsLocated n) (ltb 10 (waiting s)) (either (IsLocated n) s.clearance v v) v

  -- The arrival of an id after its entry changed.
  arrived-put :
      (i : ℕ) (t : Train) (m : List (ℕ × Train))
      → has_arrived (find_train n (put_train i t m))
        ≡ (if i == n then has_arrived (some t) else has_arrived (find_train n m))
  arrived-put i t m = elim (Bool-cases (i == n)) [
    | inl e ↦ ap has_arrived (find-put n i t m) ∙ rw e
    | inr e ↦ ap has_arrived (find-put n i t m) ∙ rw e
  ]

  create-IsLocated :
      (x : Line) (destination len : ℕ) (s : State)
      → IsLocated n s
      → IsLocated n (create (source_of x) destination len s)
  unfolding create
  create-IsLocated line_a destination len s v =
      let t = new_train b'A' destination len s in
      ground (arith, ids-append n s.section1 (t ∷ []), arrived-put s.train_id t s.trains)
  create-IsLocated line_b destination len s v =
      let t = new_train b'B' destination len s in
      ground (arith, ids-append n s.section2 (t ∷ []), arrived-put s.train_id t s.trains)
  create-IsLocated line_e destination len s v =
      let t = new_train b'E' destination len s in
      ground (arith, ids-append n s.section3 (t ∷ []), arrived-put s.train_id t s.trains)
  create-IsLocated line_f destination len s v =
      let t = new_train b'F' destination len s in
      ground (arith, ids-append n s.section4 (t ∷ []), arrived-put s.train_id t s.trains)

  module _ (fl : Floats) (p : fl.Real) where
    section_at-IsLocated :
        (x : Line) (d : Draws fl) (pc : SectionPc) (s : State)
        → IsLocated n s
        → IsLocated n (section_at fl p x d pc s)
    unfolding section_at decide
    section_at-IsLocated x d looking s v =
        either (IsLocated n) s.clearance v (at_section-IsLocated x checking s v)
    section_at-IsLocated x d checking s v =
        at_section-IsLocated x deciding (check_overload s) (check_overload-IsLocated s v)
    section_at-IsLocated x d deciding s v =
        either (IsLocated n) s.clearance (at_section-IsLocated x looking s v)
          (either (IsLocated n) _ (at_section-IsLocated x _ s v) (at_section-IsLocated x _ s v))
    section_at-IsLocated x d (creating destination len) s v =
        at_section-IsLocated x _ _ (create-IsLocated x destination len s v)
    section_at-IsLocated x d (sleeping until) s v =
        either (IsLocated n) (leb until s.clock) (at_section-IsLocated x looking s v) v

  -- The control center moves on with the train that it had.
  at_control-IsLocated :
      (pc : ControlPc) (s : State)
      → held n pc ≡ held n s.control
      → IsLocated n s
      → IsLocated n (at_control pc s)
  at_control-IsLocated pc s e v = omega (arith, v, e)

  check_empty-IsLocated :
      (s : State) → held n s.control ≡ 0 → IsLocated n s → IsLocated n (check_empty s)
  unfolding check_empty
  check_empty-IsLocated s e v =
      either (IsLocated n) (all_empty s) (at_control-IsLocated resetting s (sym e) v)
        (at_control-IsLocated choosing s (sym e) v)

  reset-IsLocated : (s : State) → held n s.control ≡ 0 → IsLocated n s → IsLocated n (reset s)
  unfolding reset
  reset-IsLocated s e v =
      let w : IsLocated n (record s { clearance = false; control = idle }) = omega (arith, v, e) in
      either (IsLocated n) s.clearance w w

  -- A train that is taken leaves its queue.
  take_front-IsLocated :
      (q : List Train) (put : List Train → State) (s : State)
      → ((t : Train) (ts : List Train) → q ≡ t ∷ ts → IsLocated n (at_control (chosen t) (put ts)))
      → held n s.control ≡ 0
      → IsLocated n s
      → IsLocated n (take_front q put s)
  take_front-IsLocated [] put s h e v = at_control-IsLocated undefined s (sym e) v
  take_front-IsLocated (t ∷ ts) put s h e v = h t ts refl

  choose-IsLocated : (s : State) → held n s.control ≡ 0 → IsLocated n s → IsLocated n (choose s)
  unfolding choose
  choose-IsLocated s e v =
      either (IsLocated n) (max_queue_size s == length s.section1)
        (take_front-IsLocated s.section1 _ s (λ t ts q. omega (arith, ap (ids n) q, v, e)) e v)
        (either (IsLocated n) (max_queue_size s == length s.section2)
          (take_front-IsLocated s.section2 _ s (λ t ts q. omega (arith, ap (ids n) q, v, e)) e v)
          (either (IsLocated n) (max_queue_size s == length s.section3)
            (take_front-IsLocated s.section3 _ s (λ t ts q. omega (arith, ap (ids n) q, v, e)) e v)
            (take_front-IsLocated s.section4 _ s (λ t ts q. omega (arith, ap (ids n) q, v, e)) e
              v)))

  break_down-IsLocated :
      (t : Train) (b : Bool) (s : State)
      → held n s.control ≡ has_id n t
      → IsLocated n s
      → IsLocated n (break_down t b s)
  unfolding break_down
  break_down-IsLocated t b s e v =
      either (IsLocated n) b (omega (arith, e, v)) (omega (arith, e, v))

  -- The train with the control center arrives.
  arrive-IsLocated :
      (t : Train) (s : State)
      → held n s.control ≡ has_id n t
      → IsLocated n s
      → IsLocated n (arrive t s)
  unfolding arrive
  arrive-IsLocated t s e v = ground (
    arith,
    arrived-put t.id
        (record (or_zero (find_train t.id s.trains)) { arrival_time = some (s.clock + 1) })
        s.trains,
  )

  module _ (fl : Floats) (p : fl.Real) where
    control_at-IsLocated :
        (draw : fl.Real) (pc : ControlPc) (s : State)
        → s.control ≡ pc
        → IsLocated n s
        → IsLocated n (control_at fl draw pc s)
    unfolding control_at enter
    control_at-IsLocated draw idle s e v = check_empty-IsLocated s (ap (held n) e) v
    control_at-IsLocated draw resetting s e v = reset-IsLocated s (ap (held n) e) v
    control_at-IsLocated draw choosing s e v = choose-IsLocated s (ap (held n) e) v
    control_at-IsLocated draw (chosen t) s e v = omega (arith, ap (held n) e, v)
    control_at-IsLocated draw (entering t until) s e v =
        either (IsLocated n) (leb until s.clock) (break_down-IsLocated t _ s (ap (held n) e) v) v
    control_at-IsLocated draw (leaving t until) s e v =
        either (IsLocated n) (leb until s.clock) (arrive-IsLocated t s (ap (held n) e) v) v
    control_at-IsLocated draw undefined s e v = v

    pub step-IsLocated : (m : Move fl) (s : State) → IsLocated n s → IsLocated n (step fl p m s)
    unfolding step
    step-IsLocated (control draw) s v = control_at-IsLocated draw s.control s refl v
    step-IsLocated (section x d) s v = section_at-IsLocated fl p x d (section_pc x s) s v
    step-IsLocated tick s v = v

    run-IsLocated : (ms : List (Move fl)) (s : State) → IsLocated n s → IsLocated n (run fl p ms s)
    unfolding run
    run-IsLocated [] s v = v
    run-IsLocated (m ∷ ms) s v = run-IsLocated ms (step fl p m s) (step-IsLocated m s v)

    -- After any moves of the threads, each id below the number of trains so far stands once,
    -- counting the trains that wait, the one with the control center, and the entries of the map
    -- with an arrival time together; an id from that number on stands in none of them.
    pub run-init-IsLocated : (now : ℕ) (ms : List (Move fl)) → IsLocated n (run fl p ms (init now))
    unfolding find_train
    run-init-IsLocated now ms = run-IsLocated ms (init now) (ground arith)
