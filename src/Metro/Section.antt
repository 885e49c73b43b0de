-- ===== src/Metro/Section.antt =====
-- `sectionFunction` of main.cpp, one atomic step at a time. `A` is 65, `B` 66, `E` 69, `F` 70.
use comp304_assignments.Prelude.{
  ℕ, ◌+◌, true, ◌||◌, none, [], ◌∷◌, ◌++◌, ltb, leb, ◌==◌, if◌then◌else◌, length,
}
use comp304_assignments.Prelude.Text.{codes}
use comp304_assignments.Metro.Data.{
  Train, SectionPc, looking, checking, deciding, creating, sleeping, Line, line_a, line_b, line_e,
  line_f, State, Floats, log_event, trains_waiting, put_train,
}

-- The argument `source` of the thread, as `main` passes it.
abbrev pub source_of : Line → ℕ
source_of line_a = b'A'
source_of line_b = b'B'
source_of line_e = b'E'
source_of line_f = b'F'

abbrev pub at_section : Line → SectionPc → State → State
at_section line_a pc s = record s { thread_a = pc }
at_section line_b pc s = record s { thread_b = pc }
at_section line_e pc s = record s { thread_e = pc }
at_section line_f pc s = record s { thread_f = pc }

abbrev pub section_pc : Line → State → SectionPc
section_pc line_a s = s.thread_a
section_pc line_b s = s.thread_b
section_pc line_e s = s.thread_e
section_pc line_f s = s.thread_f

-- The trains that wait, in all queues.
abbrev pub waiting : State → ℕ
waiting s = length s.section1 + length s.section2 + length s.section3 + length s.section4

-- The test for overload.
unfoldable pub check_overload : State → State
unfolding trains_waiting
check_overload s =
    if ltb 10 (waiting s)
    then (if s.clearance
        then s
        else log_event (codes "System Overload") (codes "#") (trains_waiting s)
            (record s { time_to_clear = s.clock; clearance = true }))
    else s

-- The end of the queue of a source.
abbrev pub push_source : ℕ → Train → State → State
push_source source t s =
    if source == b'A'
    then record s { section1 = s.section1 ++ t ∷ [] }
    else if source == b'B'
    then record s { section2 = s.section2 ++ t ∷ [] }
    else if source == b'E'
    then record s { section3 = s.section3 ++ t ∷ [] }
    else record s { section4 = s.section4 ++ t ∷ [] }

abbrev pub new_train : (source destination len : ℕ) → State → Train
new_train source destination len s = record {
  id = s.train_id;
  source = source;
  destination = destination;
  length = len;
  departure_time = s.clock;
  arrival_time = none;
}

-- A train gets the next id, and goes into its queue and the map.
unfoldable pub create : (source destination len : ℕ) → State → State
create source destination len s =
    let t = new_train source destination len s in
    push_source source t
      (record s { trains = put_train s.train_id t s.trains; train_id = s.train_id + 1 })

-- The values that a thread draws in one round.
pub record Draws (fl : Floats) : Type 0 where
  pub threshold : fl.Real
  pub rand_length : fl.Real
  pub rand_line : fl.Real

module _ (fl : Floats) (p : fl.Real) where
  abbrev pub prob_create : ℕ → fl.Real
  prob_create source = if source == b'B' then fl.one_minus p else p

  unfoldable pub draw_length : fl.Real → ℕ
  draw_length r = if fl.at_most r fl.seven_tenths then 100 else 200

  unfoldable pub draw_destination : ℕ → fl.Real → ℕ
  draw_destination source r =
      if source == b'A' || source == b'B'
      then (if fl.at_most r fl.half then b'E' else b'F')
      else (if fl.at_most r fl.half then b'A' else b'B')

  -- Behind the test for overload: a train, or the sleep of a round without one.
  unfoldable pub decide : Line → Draws fl → State → State
  unfolding draw_length draw_destination
  decide x d s =
      if s.clearance
      then at_section x looking s
      else if fl.at_most (prob_create (source_of x)) d.threshold
      then at_section x
          (creating (draw_destination (source_of x) d.rand_line) (draw_length d.rand_length)) s
      else at_section x (sleeping (s.clock + 1)) s

  unfoldable pub section_at : Line → Draws fl → SectionPc → State → State
  unfolding check_overload create decide
  section_at x d looking s = if s.clearance then s else at_section x checking s
  section_at x d checking s = at_section x deciding (check_overload s)
  section_at x d deciding s = decide x d s
  section_at x d (creating destination len) s =
      at_section x (sleeping (s.clock + 1)) (create (source_of x) destination len s)
  section_at x d (sleeping until) s = if leb until s.clock then at_section x looking s else s
