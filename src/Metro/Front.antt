-- ===== src/Metro/Front.antt =====
-- The train that the control center takes, from queues of short trains.
use comp304_assignments.Prelude.{
  ℕ, suc, ◌+◌, ◌/◌, ◌≤◌, ◌<◌, ◌≡◌, refl, sym, ap, subst, Bool, true, false, List, [], ◌∷◌, arith,
  ◌==◌, if◌then◌else◌, length, ==→eq,
}
use comp304_assignments.Metro.Data.{
  Train, ControlPc, chosen, State, Line, line_a, line_b, line_e, line_f,
}
use comp304_assignments.Metro.Control.{choose, at_control, take_front, max_queue_size}
use comp304_assignments.Metro.Section.{waiting}
use comp304_assignments.Metro.Tunnel.{max-last}
use comp304_assignments.Metro.Spec.{longest}

-- Every train of a queue needs at most `k` seconds behind the first, a breakdown included.
abbrev pub AreShort : ℕ → List Train → Type 0
AreShort k [] = Unit
AreShort k (t ∷ ts) = (t.length / 100 + 4 ≤ k) × AreShort k ts

-- `n` trains wait, all of them short.
pub record AreQueued (k n : ℕ) (a b e f : List Train) : Type 0 where
  pub count : length a + length b + length e + length f ≡ n
  pub short_a : AreShort k a
  pub short_b : AreShort k b
  pub short_e : AreShort k e
  pub short_f : AreShort k f

-- The same of the queues of a state, with the flag.
abbrev pub HasQueued : (k n : ℕ) (on : Bool) → State → Type 0
HasQueued k n on s = (s.clearance ≡ on) × AreQueued k n s.section1 s.section2 s.section3 s.section4

abbrev pub At : ControlPc → (k n : ℕ) (on : Bool) → State → Type 0
At pc k n on s = (s.control ≡ pc) × HasQueued k n on s

-- The train that the control center took is short.
abbrev pub Took : (k n : ℕ) (on : Bool) → State → Type 0
Took k n on s = (t : Train) × (s.control ≡ chosen t) × (t.length / 100 + 4 ≤ k) × HasQueued k n on s

-- The queue of a source.
abbrev queue : Line → State → List Train
queue line_a s = s.section1
queue line_b s = s.section2
queue line_e s = s.section3
queue line_f s = s.section4

abbrev set_queue : Line → List Train → State → State
set_queue line_a q s = record s { section1 = q }
set_queue line_b q s = record s { section2 = q }
set_queue line_e q s = record s { section3 = q }
set_queue line_f q s = record s { section4 = q }

-- The control center takes the first train of some queue.
abbrev TakesFront : State → State → Type 0
TakesFront s u =
    (x : Line) × (t : Train) × (ts : List Train) × (queue x s ≡ t ∷ ts)
    × (u ≡ at_control (chosen t) (set_queue x ts s))

take_front-TakesFront :
    (x : Line) (q : List Train) (s : State)
    → queue x s ≡ q
    → length q ≡ max_queue_size s
    → 0 < waiting s
    → TakesFront s (take_front q (λ ts. set_queue x ts s) s)
take_front-TakesFront x [] s e z w = absurd (
    omega (
      arith,
      longest s 0 (sym z) line_a,
      longest s 0 (sym z) line_b,
      longest s 0 (sym z) line_e,
      longest s 0 (sym z) line_f,
    ))
take_front-TakesFront x (t ∷ ts) s e z w = (x, t, ts, e, refl)

choose-TakesFront : (s : State) → 0 < waiting s → TakesFront s (choose s)
unfolding choose
choose-TakesFront s w =
    by_cases (max_queue_size s == length s.section1) (max_queue_size s == length s.section2)
      (max_queue_size s == length s.section3) refl refl refl
  where
    by_cases :
        (one two three : Bool)
        → (max_queue_size s == length s.section1) ≡ one
        → (max_queue_size s == length s.section2) ≡ two
        → (max_queue_size s == length s.section3) ≡ three
        → TakesFront s (
            if one
            then take_front s.section1 (λ ts. record s { section1 = ts }) s
            else if two
            then take_front s.section2 (λ ts. record s { section2 = ts }) s
            else if three
            then take_front s.section3 (λ ts. record s { section3 = ts }) s
            else take_front s.section4 (λ ts. record s { section4 = ts }) s)
    by_cases true two three a b c =
        take_front-TakesFront line_a s.section1 s refl (sym (==→eq _ _ a)) w
    by_cases false true three a b c =
        take_front-TakesFront line_b s.section2 s refl (sym (==→eq _ _ b)) w
    by_cases false false true a b c =
        take_front-TakesFront line_e s.section3 s refl (sym (==→eq _ _ c)) w
    by_cases false false false a b c =
        take_front-TakesFront line_f s.section4 s refl
          (sym (
            max-last (length s.section1) (length s.section2) (length s.section3) (length s.section4)
              a b c))
          w

-- The train that it took is short.
set_queue-Took :
    (k n : ℕ) (on : Bool) (x : Line) (t : Train) (ts : List Train) (s : State)
    → queue x s ≡ t ∷ ts
    → HasQueued k (suc n) on s
    → Took k n on (at_control (chosen t) (set_queue x ts s))
set_queue-Took k n on line_a t ts s e v = (
  t,
  refl,
  (subst (AreShort k) e v.1.short_a).0,
  (
    v.0,
    record {
      count = omega (arith, ap length e, v.1.count);
      short_a = (subst (AreShort k) e v.1.short_a).1;
      short_b = v.1.short_b;
      short_e = v.1.short_e;
      short_f = v.1.short_f;
    },
  ),
)
set_queue-Took k n on line_b t ts s e v = (
  t,
  refl,
  (subst (AreShort k) e v.1.short_b).0,
  (
    v.0,
    record {
      count = omega (arith, ap length e, v.1.count);
      short_a = v.1.short_a;
      short_b = (subst (AreShort k) e v.1.short_b).1;
      short_e = v.1.short_e;
      short_f = v.1.short_f;
    },
  ),
)
set_queue-Took k n on line_e t ts s e v = (
  t,
  refl,
  (subst (AreShort k) e v.1.short_e).0,
  (
    v.0,
    record {
      count = omega (arith, ap length e, v.1.count);
      short_a = v.1.short_a;
      short_b = v.1.short_b;
      short_e = (subst (AreShort k) e v.1.short_e).1;
      short_f = v.1.short_f;
    },
  ),
)
set_queue-Took k n on line_f t ts s e v = (
  t,
  refl,
  (subst (AreShort k) e v.1.short_f).0,
  (
    v.0,
    record {
      count = omega (arith, ap length e, v.1.count);
      short_a = v.1.short_a;
      short_b = v.1.short_b;
      short_e = v.1.short_e;
      short_f = (subst (AreShort k) e v.1.short_f).1;
    },
  ),
)

pub choose-Took :
    (k n : ℕ) (on : Bool) (s : State) → HasQueued k (suc n) on s → Took k n on (choose s)
choose-Took k n on s v =
    let f = choose-TakesFront s (omega (arith, v.1.count)) in
    subst (Took k n on) (sym f.4) (set_queue-Took k n on f.0 f.1 f.2 s f.3 v)
