-- ===== src/Metro/Weight.antt =====
-- How many trains the sections may yet create.
use comp304_assignments.Prelude.{
  ℕ, ◌+◌, ◌≤◌, ◌≡◌, refl, ap, Bool, true, false, [], ◌∷◌, arith, ltb, leb, if◌then◌else◌,
  length-append,
}
use comp304_assignments.Prelude.Text.{codes}
use comp304_assignments.Metro.Data.{
  Train, ControlPc, idle, resetting, choosing, chosen, entering, leaving, undefined, SectionPc,
  looking, checking, deciding, creating, sleeping, Line, line_a, line_b, line_e, line_f, State,
  Floats, log_event, trains_waiting, either,
}
use comp304_assignments.Metro.Section.{
  at_section, section_pc, source_of, waiting, check_overload, push_source, create, decide,
  section_at, Draws, draw_length, draw_destination,
}

-- 1 where a thread may yet create a train before it looks at the flag again, with the flag as `c`.
abbrev weight : Bool → SectionPc → ℕ
weight c looking = 0
weight c checking = 0
weight true deciding = 0
weight false deciding = 1
weight c (creating destination len) = 1
weight c (sleeping until) = 0

abbrev weigh : Bool → State → ℕ
weigh c s = weight c s.thread_a + weight c s.thread_b + weight c s.thread_e + weight c s.thread_f

-- Before the flag is reset fewer may wait, since the reset may let every thread through.
abbrev pub limit : ControlPc → ℕ
limit resetting = 14
limit _ = 18

abbrev pub Bounded : State → Type 0
Bounded s = waiting s + weigh s.clearance s ≤ limit s.control

weight-le : (pc : SectionPc) → (weight true pc ≤ weight false pc) × (weight false pc ≤ 1)
weight-le looking = omega arith
weight-le checking = omega arith
weight-le deciding = omega arith
weight-le (creating destination len) = omega arith
weight-le (sleeping until) = omega arith

pub weigh-le : (s : State) → (weigh true s ≤ weigh false s) × (weigh false s ≤ 4)
weigh-le s =
    omega (
      arith,
      weight-le s.thread_a,
      weight-le s.thread_b,
      weight-le s.thread_e,
      weight-le s.thread_f,
    )

weigh-at_section :
    (c : Bool) (x : Line) (pc : SectionPc) (s : State)
    → weigh c (at_section x pc s) + weight c (section_pc x s) ≡ weigh c s + weight c pc
weigh-at_section c line_a pc s = omega arith
weigh-at_section c line_b pc s = omega arith
weigh-at_section c line_e pc s = omega arith
weigh-at_section c line_f pc s = omega arith

pub weigh-le_four : (c : Bool) (s : State) → weigh c s ≤ 4
weigh-le_four true s = omega (arith, weigh-le s)
weigh-le_four false s = omega (arith, weigh-le s)

weigh_set-le : (c : Bool) (s : State) → weigh true s ≤ weigh c s
weigh_set-le true s = omega arith
weigh_set-le false s = omega (arith, weigh-le s)

pub limit-ge : (pc : ControlPc) → (14 ≤ limit pc) × (limit pc ≤ 18)
limit-ge idle = omega arith
limit-ge resetting = omega arith
limit-ge choosing = omega arith
limit-ge (chosen t) = omega arith
limit-ge (entering t until) = omega arith
limit-ge (leaving t until) = omega arith
limit-ge undefined = omega arith

-- A thread moves on without a new chance to create.
at_section-Bounded :
    (x : Line) (pc : SectionPc) (s : State)
    → weight s.clearance pc ≤ weight s.clearance (section_pc x s)
    → Bounded s
    → Bounded (at_section x pc s)
at_section-Bounded line_a pc s h v = omega arith
at_section-Bounded line_b pc s h v = omega arith
at_section-Bounded line_e pc s h v = omega arith
at_section-Bounded line_f pc s h v = omega arith

few-Bounded : (s : State) → waiting s ≤ 10 → Bounded s
few-Bounded s h = omega (arith, weigh-le_four s.clearance s, limit-ge s.control)

at_section_few :
    (x : Line) (pc : SectionPc) (s : State) → waiting s ≤ 10 → Bounded (at_section x pc s)
at_section_few line_a pc s h = few-Bounded (at_section line_a pc s) h
at_section_few line_b pc s h = few-Bounded (at_section line_b pc s) h
at_section_few line_e pc s h = few-Bounded (at_section line_e pc s) h
at_section_few line_f pc s h = few-Bounded (at_section line_f pc s) h

-- With the flag set, a thread behind the test creates nothing.
at_section_clear :
    (x : Line) (s : State) → s.clearance ≡ true → Bounded s → Bounded (at_section x deciding s)
at_section_clear x s e v = at_section-Bounded x deciding s (rw e (omega arith)) v

set_clearance-Bounded : (s : State) → Bounded s → Bounded (record s { clearance = true })
set_clearance-Bounded s v = omega (arith, weigh_set-le s.clearance s)

check_overload-Bounded :
    (x : Line) (s : State) → Bounded s → Bounded (at_section x deciding (check_overload s))
unfolding check_overload
check_overload-Bounded x s v = by_cases (ltb 10 (waiting s)) s.clearance refl refl
  where
    by_cases :
        (more on : Bool)
        → ltb 10 (waiting s) ≡ more
        → s.clearance ≡ on
        → Bounded (
            at_section x deciding (
              if more
              then (if on
                  then s
                  else log_event
                      (codes "System Overload")
                      (codes "#")
                      (trains_waiting s)
                      (record s { time_to_clear = s.clock; clearance = true }))
              else s))
    by_cases true true e on = at_section_clear x s on v
    by_cases true false e on = at_section_clear x _ refl (set_clearance-Bounded s v)
    by_cases false on e h = at_section_few x deciding s (ground arith)

push_source-Bounded :
    (source n : ℕ) (t : Train) (s : State)
    → waiting s + weigh s.clearance s + 1 ≤ n
    → waiting (push_source source t s) + weigh s.clearance s ≤ n
push_source-Bounded source n t s h = ground (
  arith,
  length-append s.section1 (t ∷ []),
  length-append s.section2 (t ∷ []),
  length-append s.section3 (t ∷ []),
  length-append s.section4 (t ∷ []),
)

-- A thread that creates has had its chance.
create-Bounded :
    (x : Line) (destination len until : ℕ) (s : State)
    → section_pc x s ≡ creating destination len
    → Bounded s
    → Bounded (at_section x (sleeping until) (create (source_of x) destination len s))
unfolding create
create-Bounded line_a destination len until s e v =
    omega (arith, length-append s.section1 (_ ∷ []), ap (weight s.clearance) e)
create-Bounded line_b destination len until s e v =
    omega (arith, length-append s.section2 (_ ∷ []), ap (weight s.clearance) e)
create-Bounded line_e destination len until s e v =
    omega (arith, length-append s.section3 (_ ∷ []), ap (weight s.clearance) e)
create-Bounded line_f destination len until s e v =
    omega (arith, length-append s.section4 (_ ∷ []), ap (weight s.clearance) e)

module _ (fl : Floats) (p : fl.Real) where
  decide-Bounded :
      (x : Line) (d : Draws fl) (s : State)
      → section_pc x s ≡ deciding
      → Bounded s
      → Bounded (decide fl p x d s)
  unfolding decide
  decide-Bounded x d s e v = by_cases s.clearance _ refl
    where
      by_cases :
          (on create : Bool)
          → s.clearance ≡ on
          → Bounded (
              if on
              then at_section x looking s
              else if create
              then at_section x
                  (creating
                    (draw_destination fl p (source_of x) d.rand_line)
                    (draw_length fl p d.rand_length))
                  s
              else at_section x (sleeping (s.clock + 1)) s)
      by_cases true create on = at_section-Bounded x looking s (omega arith) v
      by_cases false true off = at_section-Bounded x _ s (rw (e, off) (omega arith)) v
      by_cases false false off = at_section-Bounded x _ s (omega arith) v

  pub section_at-Bounded :
      (x : Line) (d : Draws fl) (pc : SectionPc) (s : State)
      → section_pc x s ≡ pc
      → Bounded s
      → Bounded (section_at fl p x d pc s)
  unfolding section_at
  section_at-Bounded x d looking s e v =
      either Bounded s.clearance v (at_section-Bounded x checking s (omega arith) v)
  section_at-Bounded x d checking s e v = check_overload-Bounded x s v
  section_at-Bounded x d deciding s e v = decide-Bounded x d s e v
  section_at-Bounded x d (creating destination len) s e v =
      create-Bounded x destination len (s.clock + 1) s e v
  section_at-Bounded x d (sleeping until) s e v =
      either Bounded (leb until s.clock) (at_section-Bounded x looking s (omega arith) v) v
