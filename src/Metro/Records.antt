-- ===== src/Metro/Records.antt =====
-- The map of trains, and what `trainLog` reads from it.
use comp304_assignments.Prelude.{
  ℕ, zero, suc, ◌+◌, ◌≤◌, ◌<◌, ◌≡◌, refl, sym, ap, subst, ◌∙◌, Bool, true, false, Option, none,
  some, inl, inr, List, [], ◌∷◌, arith, ltb, leb, ◌==◌, if◌then◌else◌, length, Bool-cases, ltb→lt,
}
use comp304_assignments.Metro.Data.{
  Train, ControlPc, idle, resetting, choosing, chosen, entering, leaving, undefined, SectionPc,
  looking, checking, deciding, creating, sleeping, Line, line_a, line_b, line_e, line_f, State,
  Floats, either, find_train, put_train, or_zero,
}
use comp304_assignments.Metro.Control.{
  check_empty, reset, choose, enter, break_down, arrive, control_at, all_empty, take_front,
  max_queue_size,
}
use comp304_assignments.Metro.Section.{
  at_section, section_pc, source_of, waiting, check_overload, create, decide, section_at, Draws,
  new_train,
}
use comp304_assignments.Metro.System.{Move, control, section, tick, init, step, run}
use comp304_assignments.Metro.Located.{
  find-put, IsLocated, step-IsLocated, run-init-IsLocated, held, has_id,
}
use comp304_assignments.Metro.Log.{entry_or_zero, read_trains}

-- The id in an entry.
abbrev id_in : Option Train → Option ℕ
id_in none = none
id_in (some t) = some t.id

-- The map has an entry with its own id for each id so far.
abbrev IsNamed : ℕ → State → Type 0
IsNamed n s = id_in (find_train n s.trains) ≡ (if ltb n s.train_id then some n else none)

abbrev pub IsKept : State → Type 0
IsKept s = ((n : ℕ) → IsNamed n s) × (length s.trains ≡ s.train_id)

abbrev is_some : Option Train → Bool
is_some none = false
is_some (some t) = true

length-put_train :
    (i : ℕ) (t : Train) (m : List (ℕ × Train))
    → length (put_train i t m) ≡ (if is_some (find_train i m) then length m else suc (length m))
unfolding find_train put_train
length-put_train i t [] = refl
length-put_train i t ((j, u) ∷ m) = ground (arith, length-put_train i t m)

id_in-put :
    (n i : ℕ) (t : Train) (m : List (ℕ × Train))
    → id_in (find_train n (put_train i t m))
      ≡ (if i == n then some t.id else id_in (find_train n m))
id_in-put n i t m = elim (Bool-cases (i == n)) [
  | inl e ↦ ap id_in (find-put n i t m) ∙ rw e
  | inr e ↦ ap id_in (find-put n i t m) ∙ rw e
]

is_some-id_in :
    (o : Option Train) (i : ℕ) → id_in o ≡ some i → (is_some o ≡ true) × ((or_zero o).id ≡ i)
is_some-id_in none i h = ground arith
is_some-id_in (some t) i h = (refl, ground arith)

is_none-id_in : (o : Option Train) → id_in o ≡ none → is_some o ≡ false
is_none-id_in none h = refl
is_none-id_in (some t) h = ground arith

-- A new train gets a new entry.
added-IsKept :
    (t : Train) (s : State)
    → t.id ≡ s.train_id
    → IsKept s
    → IsKept (record s { trains = put_train s.train_id t s.trains; train_id = s.train_id + 1 })
added-IsKept t s e (v, l) = (
  λ n. ground (arith, id_in-put n s.train_id t s.trains, v n),
  ground (
    arith,
    length-put_train s.train_id t s.trains,
    is_none-id_in (find_train s.train_id s.trains) (v s.train_id ∙ same s.train_id),
  ),
)
  where
    same : (i : ℕ) → (if ltb i i then some i else none) ≡ none
    same i = ground arith

found : (i n : ℕ) → i < n → (if ltb i n then some i else none) ≡ some i
found i n h = ground arith

-- Another time in an entry.
timed-IsKept :
    (t : Train) (time : ℕ) (s : State)
    → t.id < s.train_id
    → IsKept s
    → IsKept (record s {
      trains =
          put_train t.id
            (record (or_zero (find_train t.id s.trains)) { arrival_time = some time })
            s.trains;
    })
timed-IsKept t time s h (v, l) =
    let f = is_some-id_in (find_train t.id s.trains) t.id (v t.id ∙ found t.id s.train_id h) in
    (
      λ n. ground (
        arith,
        id_in-put n t.id (record (or_zero (find_train t.id s.trains)) { arrival_time = some time })
            s.trains,
        v n,
        f.1,
      ),
      ground (
        arith,
        length-put_train t.id
            (record (or_zero (find_train t.id s.trains)) { arrival_time = some time }) s.trains,
        f.0,
      ),
    )

at_section-IsKept : (x : Line) (pc : SectionPc) (s : State) → IsKept s → IsKept (at_section x pc s)
at_section-IsKept line_a pc s v = v
at_section-IsKept line_b pc s v = v
at_section-IsKept line_e pc s v = v
at_section-IsKept line_f pc s v = v

check_overload-IsKept : (s : State) → IsKept s → IsKept (check_overload s)
unfolding check_overload
check_overload-IsKept s v = either IsKept (ltb 10 (waiting s)) (either IsKept s.clearance v v) v

create-IsKept :
    (x : Line) (destination len : ℕ) (s : State)
    → IsKept s
    → IsKept (create (source_of x) destination len s)
unfolding create
create-IsKept line_a destination len s v = added-IsKept (new_train b'A' destination len s) s refl v
create-IsKept line_b destination len s v = added-IsKept (new_train b'B' destination len s) s refl v
create-IsKept line_e destination len s v = added-IsKept (new_train b'E' destination len s) s refl v
create-IsKept line_f destination len s v = added-IsKept (new_train b'F' destination len s) s refl v

reset-IsKept : (s : State) → IsKept s → IsKept (reset s)
unfolding reset
reset-IsKept s v = either IsKept s.clearance v v

take_front-IsKept :
    (q : List Train) (put : List Train → State) (s : State)
    → ((ts : List Train) → IsKept (put ts))
    → IsKept s
    → IsKept (take_front q put s)
take_front-IsKept [] put s h v = v
take_front-IsKept (t ∷ ts) put s h v = h ts

choose-IsKept : (s : State) → IsKept s → IsKept (choose s)
unfolding choose
choose-IsKept s v =
    either IsKept (max_queue_size s == length s.section1)
      (take_front-IsKept s.section1 _ s (λ ts. v) v)
      (either IsKept (max_queue_size s == length s.section2)
        (take_front-IsKept s.section2 _ s (λ ts. v) v)
        (either IsKept (max_queue_size s == length s.section3)
          (take_front-IsKept s.section3 _ s (λ ts. v) v)
          (take_front-IsKept s.section4 _ s (λ ts. v) v)))

-- The train with the control center has an id so far.
held-lt : (t : Train) (s : State) → held t.id s.control ≡ 1 → IsLocated t.id s → t.id < s.train_id
held-lt t s h v = ltb→lt t.id s.train_id (ground arith)

has_id_own : (t : Train) → has_id t.id t ≡ 1
has_id_own t = ground arith

module _ (fl : Floats) (p : fl.Real) where
  section_at-IsKept :
      (x : Line) (d : Draws fl) (pc : SectionPc) (s : State)
      → IsKept s
      → IsKept (section_at fl p x d pc s)
  unfolding section_at decide
  section_at-IsKept x d looking s v = either IsKept s.clearance v (at_section-IsKept x checking s v)
  section_at-IsKept x d checking s v =
      at_section-IsKept x deciding (check_overload s) (check_overload-IsKept s v)
  section_at-IsKept x d deciding s v =
      either IsKept s.clearance (at_section-IsKept x looking s v)
        (either IsKept _ (at_section-IsKept x _ s v) (at_section-IsKept x _ s v))
  section_at-IsKept x d (creating destination len) s v =
      at_section-IsKept x _ _ (create-IsKept x destination len s v)
  section_at-IsKept x d (sleeping until) s v =
      either IsKept (leb until s.clock) (at_section-IsKept x looking s v) v

  control_at-IsKept :
      (draw : fl.Real) (pc : ControlPc) (s : State)
      → s.control ≡ pc
      → ((n : ℕ) → IsLocated n s)
      → IsKept s
      → IsKept (control_at fl draw pc s)
  unfolding control_at enter check_empty break_down arrive
  control_at-IsKept draw idle s e w v = either IsKept (all_empty s) v v
  control_at-IsKept draw resetting s e w v = reset-IsKept s v
  control_at-IsKept draw choosing s e w v = choose-IsKept s v
  control_at-IsKept draw (chosen t) s e w v = v
  control_at-IsKept draw (entering t until) s e w v =
      either IsKept (leb until s.clock) (either IsKept (fl.at_most draw fl.tenth) v v) v
  control_at-IsKept draw (leaving t until) s e w v =
      either IsKept (leb until s.clock)
        (timed-IsKept t (s.clock + 1) s (held-lt t s (ap (held t.id) e ∙ has_id_own t) (w t.id)) v)
        v
  control_at-IsKept draw undefined s e w v = v

  step-IsKept :
      (m : Move fl) (s : State) → ((n : ℕ) → IsLocated n s) → IsKept s → IsKept (step fl p m s)
  unfolding step
  step-IsKept (control draw) s w v = control_at-IsKept draw s.control s refl w v
  step-IsKept (section x d) s w v = section_at-IsKept x d (section_pc x s) s v
  step-IsKept tick s w v = v

  run-IsKept :
      (ms : List (Move fl)) (s : State)
      → ((n : ℕ) → IsLocated n s)
      → IsKept s
      → IsKept (run fl p ms s)
  unfolding run
  run-IsKept [] s w v = v
  run-IsKept (m ∷ ms) s w v =
      run-IsKept ms (step fl p m s) (λ n. step-IsLocated n fl p m s (w n)) (step-IsKept m s w v)

  run-init-IsKept : (now : ℕ) (ms : List (Move fl)) → IsKept (run fl p ms (init now))
  unfolding find_train run
  run-init-IsKept now ms =
      run-IsKept ms (init now) (λ n. run-init-IsLocated n fl p now []) (λ n. ground arith, refl)

-- The ids from `i` on.
abbrev pub ids_from : ℕ → ℕ → List ℕ
ids_from i zero = []
ids_from i (suc k) = i ∷ ids_from (i + 1) k

abbrev pub ids_of : List Train → List ℕ
ids_of [] = []
ids_of (t ∷ ts) = t.id ∷ ids_of ts

entry_or_zero_lem :
    (i : ℕ) (m : List (ℕ × Train)) (o : Option Train)
    → id_in o ≡ some i
    → ((entry_or_zero i m o).0.id ≡ i) × ((entry_or_zero i m o).1 ≡ m)
entry_or_zero_lem i m none h = ground arith
entry_or_zero_lem i m (some t) h = (ground arith, refl)

-- The loop reads the train of each id, and changes nothing.
read_trains_lem :
    (k i : ℕ) (s : State)
    → ((n : ℕ) → IsNamed n s)
    → i + k ≤ s.train_id
    → (ids_of (read_trains k i s.trains).0 ≡ ids_from i k)
      × ((read_trains k i s.trains).1 ≡ s.trains)
unfolding read_trains
read_trains_lem zero i s v h = (refl, refl)
read_trains_lem (suc k) i s v h =
    let f =
      entry_or_zero_lem i s.trains (find_train i s.trains)
        (v i ∙ found i s.train_id (omega arith)) in
    let g =
      subst
        (λ m.
          (ids_of (read_trains k (i + 1) m).0 ≡ ids_from (i + 1) k)
          × ((read_trains k (i + 1) m).1 ≡ s.trains))
        (sym f.1) (read_trains_lem k (i + 1) s v (omega arith)) in
    (
      ap
            (λ j.
              j
              ∷ ids_of
                  (read_trains k (i + 1) (entry_or_zero i s.trains (find_train i s.trains)).1).0)
            f.0
          ∙ ap (λ l. i ∷ l) g.0,
      g.1,
    )

module _ (fl : Floats) (p : fl.Real) where
  -- After any moves of the threads, the loop of `trainLog` reads the trains with the ids from 0 to
  -- one less than their number, in this order, it makes no entry in the map, and the map has as
  -- many entries as there are ids.
  pub read_trains-run :
      (now : ℕ) (ms : List (Move fl))
      → let s = run fl p ms (init now) in
        (ids_of (read_trains s.train_id 0 s.trains).0 ≡ ids_from 0 s.train_id)
        × ((read_trains s.train_id 0 s.trains).1 ≡ s.trains)
        × (length s.trains ≡ s.train_id)
  read_trains-run now ms =
      let s = run fl p ms (init now) in
      let (v, l) = run-init-IsKept fl p now ms in
      let r = read_trains_lem s.train_id 0 s v (omega arith) in (r.0, r.1, l)
