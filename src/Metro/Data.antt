-- ===== src/Metro/Data.antt =====
-- The trains, the events and the variables that the threads share.
use comp304_assignments.Prelude.{
  ℕ, Bool, true, false, Option, none, some, List, [], ◌∷◌, ◌++◌, ltb, ◌==◌, if◌then◌else◌,
}
use comp304_assignments.Prelude.Text.{Text, to_text}

-- `struct Train`; an `arrival_time` of -1 is none.
pub record Train : Type 0 where
  pub id : ℕ
  pub source : ℕ
  pub destination : ℕ
  pub length : ℕ
  pub departure_time : ℕ
  pub arrival_time : Option ℕ

-- `struct Event`
pub record Event : Type 0 where
  pub event : Text
  pub event_time : ℕ
  pub train_id : Text
  pub trains_waiting_passage : Text

-- Where the control center stands: before its test of the queues; after it found them empty, or
-- not; with a train that it took; while that train's front, then its rear, is in the tunnel. The
-- times are the ends of its sleeps. `undefined` is the front of an empty queue.
pub data ControlPc : Type 0 where
  idle : ControlPc
  resetting : ControlPc
  choosing : ControlPc
  chosen : Train → ControlPc
  entering : Train → ℕ → ControlPc
  leaving : Train → ℕ → ControlPc
  undefined : ControlPc

-- Where a section's thread stands: at the top of its loop, before and after its test for overload,
-- before it enters a train of that length and destination, and in its sleep.
pub data SectionPc : Type 0 where
  looking : SectionPc
  checking : SectionPc
  deciding : SectionPc
  creating : ℕ → ℕ → SectionPc
  sleeping : ℕ → SectionPc

-- The threads for the sources A, B, E and F.
pub data Line : Type 0 where
  line_a line_b line_e line_f : Line

-- The global variables, the clock, and where each thread stands. `train_id` is one more than the
-- source's, the number of trains so far.
pub record State : Type 0 where
  pub section1 : List Train
  pub section2 : List Train
  pub section3 : List Train
  pub section4 : List Train
  pub control_log : List Event
  pub trains : List (ℕ × Train)
  pub clearance : Bool
  pub time_to_clear : ℕ
  pub train_id : ℕ
  pub clock : ℕ
  pub control : ControlPc
  pub thread_a : SectionPc
  pub thread_b : SectionPc
  pub thread_e : SectionPc
  pub thread_f : SectionPc

-- `float` and its operations, `atof` and `<<` of one, and `rand()/RAND_MAX`: a draw is a value of `Real`.
pub record Floats : Type 1 where
  pub Real : Type 0
  pub at_most : Real → Real → Bool
  pub below : Real → Real → Bool
  pub zero : Real
  pub one : Real
  pub one_minus : Real → Real
  pub tenth : Real
  pub half : Real
  pub seven_tenths : Real
  pub atof : Text → Real
  pub shown : Real → Text

abbrev pub log_event : Text → Text → Text → State → State
log_event event train waiting s = record s {
  control_log =
      s.control_log
      ++ record {
        event = event;
        event_time = s.clock;
        train_id = train;
        trains_waiting_passage = waiting;
      }
        ∷ [];
}

-- A priority queue with the least id on top.
unfoldable pub push_train : Train → List Train → List Train
push_train t [] = t ∷ []
push_train t (u ∷ us) = if ltb u.id t.id then u ∷ push_train t us else t ∷ u ∷ us

-- `addSectionQueuesToPriorityQueue`
unfoldable pub add_queue : List Train → List Train → List Train
unfolding push_train
add_queue pq [] = pq
add_queue pq (t ∷ ts) = add_queue (push_train t pq) ts

-- The ids with commas between them.
unfoldable pub join_ids : List Train → Text
join_ids [] = []
join_ids (t ∷ []) = to_text t.id
join_ids (t ∷ u ∷ us) = to_text t.id ++ b',' ∷ join_ids (u ∷ us)

-- `trainsWaiting`
unfoldable pub trains_waiting : State → Text
unfolding add_queue join_ids
trains_waiting s =
    join_ids
      (add_queue (add_queue (add_queue (add_queue [] s.section1) s.section2) s.section3) s.section4)

-- `trainsHashMap`: the entry of an id, and an update of it. `[]` of the map makes an entry of zeros
-- where there is none.
unfoldable pub find_train : ℕ → List (ℕ × Train) → Option Train
find_train i [] = none
find_train i ((j, t) ∷ m) = let rest = find_train i m in if j == i then some t else rest

unfoldable pub put_train : ℕ → Train → List (ℕ × Train) → List (ℕ × Train)
put_train i t [] = (i, t) ∷ []
put_train i t ((j, u) ∷ m) =
    let rest = put_train i t m in if j == i then (j, t) ∷ m else (j, u) ∷ rest

abbrev pub zero_train : Train
zero_train = record {
  id = 0;
  source = 0;
  destination = 0;
  length = 0;
  departure_time = 0;
  arrival_time = some 0;
}

abbrev pub or_zero : Option Train → Train
or_zero none = zero_train
or_zero (some t) = t

-- What holds of both branches of a test holds of the test.
pub either : (P : State → Type 0) (b : Bool) {s t : State} → P s → P t → P (if b then s else t)
either P true h k = h
either P false h k = k
