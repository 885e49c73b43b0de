-- ===== src/Metro/Control.antt =====
-- `controlCenter` of main.cpp, one atomic step at a time: a part under `trainMutex`, or one between
-- two. Only this thread takes `tunnelMutex`. The prints of the debug mode are left out.
use comp304_assignments.Prelude.{
  ℕ, ◌+◌, ◌-◌, ◌/◌, Bool, true, false, ◌&&◌, some, List, [], ◌∷◌, ◌++◌, leb, ◌==◌, if◌then◌else◌,
  length,
}
use comp304_assignments.Prelude.Text.{codes, to_text}
use comp304_assignments.Metro.Data.{
  Train, ControlPc, idle, resetting, choosing, chosen, entering, leaving, undefined, State, Floats,
  log_event, trains_waiting, find_train, put_train, or_zero,
}

abbrev pub is_empty : List Train → Bool
is_empty [] = true
is_empty (t ∷ ts) = false

-- `allEmpty`
abbrev pub all_empty : State → Bool
all_empty s =
    is_empty s.section1 && is_empty s.section2 && is_empty s.section3 && is_empty s.section4

abbrev pub at_control : ControlPc → State → State
at_control pc s = record s { control = pc }

unfoldable pub check_empty : State → State
check_empty s = if all_empty s then at_control resetting s else at_control choosing s

-- The end of the clearance.
unfoldable pub reset : State → State
unfolding to_text
reset s =
    let t = record s { clearance = false; control = idle } in
    if s.clearance
    then log_event (codes "Tunnel Cleared") (codes "#")
        (codes "# Time to clear: " ++ (to_text (s.clock - s.time_to_clear) ++ codes " sec")) t
    else t

abbrev pub max : ℕ → ℕ → ℕ
max a b = if leb b a then a else b

abbrev pub max_queue_size : State → ℕ
max_queue_size s =
    max (length s.section1) (max (length s.section2) (max (length s.section3) (length s.section4)))

-- `front` and `pop` of a queue, by the function that puts the rest back.
abbrev pub take_front : List Train → (List Train → State) → State → State
take_front [] put s = at_control undefined s
take_front (t ∷ ts) put s = at_control (chosen t) (put ts)

-- The first train of the longest queue; of equal ones, of the first.
unfoldable pub choose : State → State
choose s =
    if max_queue_size s == length s.section1
    then take_front s.section1 (λ ts. record s { section1 = ts }) s
    else if max_queue_size s == length s.section2
    then take_front s.section2 (λ ts. record s { section2 = ts }) s
    else if max_queue_size s == length s.section3
    then take_front s.section3 (λ ts. record s { section3 = ts }) s
    else take_front s.section4 (λ ts. record s { section4 = ts }) s

-- The event, and the sleep while the train's front passes.
unfoldable pub enter : Train → State → State
unfolding trains_waiting
enter t s =
    at_control (entering t (s.clock + 1))
      (log_event (codes "Tunnel Passing") (to_text t.id) (trains_waiting s) s)

-- The draw for a breakdown, and the sleep until the train's rear has left.
unfoldable pub break_down : Train → Bool → State → State
unfolding trains_waiting
break_down t broken s =
    if broken
    then at_control (leaving t (s.clock + (t.length / 100 + 4)))
        (log_event (codes "Breakdown") (to_text t.id) (trains_waiting s) s)
    else at_control (leaving t (s.clock + (t.length / 100 + 0))) s

-- `trainsHashMap[train.id].arrival_time = time(0) + 1`
unfoldable pub arrive : Train → State → State
arrive t s = record s {
  trains =
      put_train t.id
        (record (or_zero (find_train t.id s.trains)) { arrival_time = some (s.clock + 1) })
        s.trains;
  control = idle;
}

-- One step; `draw` is `p_breakdown`. A thread that sleeps stays where it is until its time.
module _ (fl : Floats) (draw : fl.Real) where
  unfoldable pub control_at : ControlPc → State → State
  unfolding check_empty reset choose enter break_down arrive
  control_at idle s = check_empty s
  control_at resetting s = reset s
  control_at choosing s = choose s
  control_at (chosen t) s = enter t s
  control_at (entering t until) s =
      if leb until s.clock then break_down t (fl.at_most draw fl.tenth) s else s
  control_at (leaving t until) s = if leb until s.clock then arrive t s else s
  control_at undefined s = s
