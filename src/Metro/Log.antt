-- ===== src/Metro/Log.antt =====
-- `controlLog` and `trainLog` of main.cpp: the texts of the two files.
use comp304_assignments.Prelude.{
  ℕ, zero, suc, ◌+◌, ◌-◌, Bool, Option, none, some, List, [], ◌∷◌, ◌++◌, if◌then◌else◌, length,
}
use comp304_assignments.Prelude.Text.{Text, codes, to_text, ℤ, show_int}
use comp304_assignments.Metro.Data.{Train, Event, State, Floats, find_train, put_train, zero_train}

-- What `localtime` returns.
pub record Tm : Type 0 where
  pub tm_hour : ℕ
  pub tm_min : ℕ
  pub tm_sec : ℕ

abbrev pub fill_chars : ℕ → ℕ → Text
fill_chars c zero = []
fill_chars c (suc n) = c ∷ fill_chars c n

-- `setw(width) << setfill(c)`, to the right, and to the left with `left`.
unfoldable pub set_right : ℕ → ℕ → Text → Text
set_right c width t = fill_chars c (width - length t) ++ t

unfoldable pub set_left : ℕ → Text → Text
set_left width t = t ++ fill_chars 32 (width - length t)

unfoldable pub event_clock : Tm → Text
unfolding set_right to_text
event_clock tm =
    set_right b'0' 2 (to_text tm.tm_hour)
    ++ b':' ∷ (set_right b'0' 2 (to_text tm.tm_min) ++ b':' ∷ set_right b'0' 2 (to_text tm.tm_sec))

abbrev pub line : Text → Text → Text
line t rest = t ++ 10 ∷ rest

-- `trainsHashMap[i]` by the entry found, which makes one where there is none.
abbrev pub entry_or_zero : ℕ → List (ℕ × Train) → Option Train → Train × List (ℕ × Train)
entry_or_zero i m none = (zero_train, put_train i zero_train m)
entry_or_zero i m (some t) = (t, m)

unfoldable pub index_train : ℕ → List (ℕ × Train) → Train × List (ℕ × Train)
unfolding find_train put_train
index_train i m = entry_or_zero i m (find_train i m)

-- The trains that the loop reads from `i` on, `k` of them, and the map behind it.
unfoldable pub read_trains : ℕ → ℕ → List (ℕ × Train) → List Train × List (ℕ × Train)
unfolding index_train
read_trains zero i m = ([], m)
read_trains (suc k) i m =
    let (t, after) = index_train i m in
    let (ts, last) = read_trains k (i + 1) after in (t ∷ ts, last)

module _ (localtime : ℕ → Tm) where
  unfoldable pub event_row : Event → Text
  unfolding set_left event_clock
  event_row e =
      set_left 18 e.event
      ++ (set_left 12 (event_clock (localtime e.event_time))
          ++ (set_left 9 e.train_id ++ set_left 50 e.trains_waiting_passage))

  unfoldable pub event_rows : List Event → Text
  unfolding event_row
  event_rows [] = []
  event_rows (e ∷ es) = line (event_row e) (event_rows es)

  -- The file, none where it does not open, and the queue behind it.
  unfoldable pub write_control_log : (is_open : Bool) → State → Option Text × State
  unfolding event_rows
  write_control_log is_open s =
      if is_open
      then (
        some (
            line (codes "Event           Event Time Train ID  Trains Waiting Passage")
              (event_rows s.control_log)),
        record s { control_log = [] },
      )
      else (none, s)

  -- A time with a blank behind it.
  unfoldable pub train_clock : ℕ → Text
  unfolding event_clock
  train_clock time = event_clock (localtime time) ++ 32 ∷ []

  abbrev pub arrival_text : Option ℕ → Text
  arrival_text none = set_right 32 12 (codes "#") ++ 32 ∷ []
  arrival_text (some time) = set_right 32 13 (train_clock time)

  unfoldable pub train_row : Train → Text
  unfolding train_clock set_right to_text
  train_row t =
      set_right 32 8 (to_text t.id)
      ++ 32
        ∷ (set_right 32 14 (t.source ∷ [])
            ++ 32
              ∷ (set_right 32 11 (t.destination ∷ [])
                  ++ 32
                    ∷ (set_right 32 15 (to_text t.length)
                        ++ 32
                          ∷ (set_right 32 15 (train_clock t.departure_time)
                              ++ arrival_text t.arrival_time))))

  unfoldable pub train_rows : List Train → Text
  unfolding train_row
  train_rows [] = []
  train_rows (t ∷ ts) = line (train_row t) (train_rows ts)

  module _ (fl : Floats) where
    unfoldable pub write_train_log :
        (is_open debug : Bool) (simulation_time : ℤ) (p : fl.Real) → State → Option Text × State
    unfolding read_trains train_rows to_text show_int
    write_train_log is_open debug simulation_time p s =
        let (ts, m) = read_trains s.train_id 0 s.trains in
        if is_open
        then (
          some (
              line
                (codes "Simulation Arguments: p="
                  ++ (fl.shown p
                      ++ (codes ", simulation time="
                          ++ (show_int simulation_time
                              ++ (codes ", debug mode=" ++ (if debug then b'1' else b'0') ∷ [])))))
                (line [] (
                  line
                    (codes
                      "Train ID Starting Point Destination Point Length(m) Departure Time Arrival Time")
                    (train_rows ts
                      ++ line [] (
                          line [] (
                            line (codes "# Stands for trains that did not enter the tunnel") (
                              line [] (
                                line
                                  (codes "Number of trains: "
                                    ++ (to_text (length m)
                                        ++ (codes " and number of different ids: "
                                            ++ to_text s.train_id)))
                                  [])))))))),
          record s { trains = m },
        )
        else (none, s)
