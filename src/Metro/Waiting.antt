-- ===== src/Metro/Waiting.antt =====
-- `trainsWaiting` lists the trains of all queues by their ids.
use comp304_assignments.Prelude.{
  ℕ, ◌+◌, ◌≤◌, ◌≡◌, refl, Bool, true, false, List, [], ◌∷◌, arith, ltb, if◌then◌else◌,
}
use comp304_assignments.Metro.Data.{Train, State, push_train, add_queue, join_ids, trains_waiting}
use comp304_assignments.Metro.Located.{ids}

-- No train of the list has an id below `i`.
abbrev AreFrom : ℕ → List Train → Type 0
AreFrom i [] = Unit
AreFrom i (t ∷ ts) = (i ≤ t.id) × AreFrom i ts

abbrev pub AreSorted : List Train → Type 0
AreSorted [] = Unit
AreSorted (t ∷ ts) = AreFrom t.id ts × AreSorted ts

AreFrom-le : (i j : ℕ) (ts : List Train) → i ≤ j → AreFrom j ts → AreFrom i ts
AreFrom-le i j [] h f = tt
AreFrom-le i j (t ∷ ts) h (l, f) = (omega arith, AreFrom-le i j ts h f)

AreFrom-push_train :
    (i : ℕ) (t : Train) (ts : List Train) → i ≤ t.id → AreFrom i ts → AreFrom i (push_train t ts)
unfolding push_train
AreFrom-push_train i t [] h f = (h, tt)
AreFrom-push_train i t (u ∷ us) h (l, f) = by_cases (ltb u.id t.id) (AreFrom-push_train i t us h f)
  where
    by_cases :
        (b : Bool)
        → AreFrom i (push_train t us)
        → AreFrom i (if b then u ∷ push_train t us else t ∷ u ∷ us)
    by_cases true g = (l, g)
    by_cases false g = (h, (l, f))

push_train-AreSorted : (t : Train) (ts : List Train) → AreSorted ts → AreSorted (push_train t ts)
unfolding push_train
push_train-AreSorted t [] s = (tt, tt)
push_train-AreSorted t (u ∷ us) (f, s) =
    by_cases (ltb u.id t.id) refl (push_train-AreSorted t us s)
      (λ h. AreFrom-push_train u.id t us h f)
  where
    by_cases :
        (b : Bool)
        → ltb u.id t.id ≡ b
        → AreSorted (push_train t us)
        → (u.id ≤ t.id → AreFrom u.id (push_train t us))
        → AreSorted (if b then u ∷ push_train t us else t ∷ u ∷ us)
    by_cases true e g h = (h (ground arith), g)
    by_cases false e g h =
        let l : t.id ≤ u.id = ground arith in ((l, AreFrom-le t.id u.id us l f), (f, s))

ids-push_train : (n : ℕ) (t : Train) (ts : List Train) → ids n (push_train t ts) ≡ ids n (t ∷ ts)
unfolding push_train
ids-push_train n t [] = refl
ids-push_train n t (u ∷ us) = ground (arith, ids-push_train n t us)

add_queue-AreSorted : (pq ts : List Train) → AreSorted pq → AreSorted (add_queue pq ts)
unfolding add_queue
add_queue-AreSorted pq [] s = s
add_queue-AreSorted pq (t ∷ ts) s =
    add_queue-AreSorted (push_train t pq) ts (push_train-AreSorted t pq s)

ids-add_queue : (n : ℕ) (pq ts : List Train) → ids n (add_queue pq ts) ≡ ids n pq + ids n ts
unfolding add_queue
ids-add_queue n pq [] = omega arith
ids-add_queue n pq (t ∷ ts) =
    omega (arith, ids-add_queue n (push_train t pq) ts, ids-push_train n t pq)

-- `trainsWaiting` joins the ids of a list of trains whose ids ascend, and in which each id is as
-- often as in the four queues together.
pub trains_waiting-AreSorted :
    (s : State)
    → (ts : List Train) × (trains_waiting s ≡ join_ids ts)
      × AreSorted ts
      × ((n : ℕ)
          → ids n ts ≡ ids n s.section1 + ids n s.section2 + ids n s.section3 + ids n s.section4)
unfolding trains_waiting
trains_waiting-AreSorted s =
    let one = add_queue [] s.section1 in
    let two = add_queue one s.section2 in
    let three = add_queue two s.section3 in
    (
      add_queue three s.section4,
      refl,
      add_queue-AreSorted three s.section4 (
          add_queue-AreSorted two s.section3
            (add_queue-AreSorted one s.section2 (add_queue-AreSorted [] s.section1 tt))),
      λ n. omega (
        arith,
        ids-add_queue n three s.section4,
        ids-add_queue n two s.section3,
        ids-add_queue n one s.section2,
        ids-add_queue n [] s.section1,
      ),
    )
