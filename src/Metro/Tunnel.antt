-- ===== src/Metro/Tunnel.antt =====
-- The contract of the tunnel, one train at a time and always from a longest queue, and the steps of
-- the sections.
use comp304_assignments.Prelude.{
  ℕ, suc, ◌+◌, ◌≤◌, ◌<◌, ◌≡◌, refl, sym, ap, subst, Bool, true, false, List, [], ◌∷◌, ◌++◌, arith,
  ltb, leb, ◌==◌, length, length-append,
}
use comp304_assignments.Prelude.Text.{codes}
use comp304_assignments.Metro.Data.{
  Train, ControlPc, idle, resetting, choosing, chosen, entering, leaving, undefined, SectionPc,
  looking, checking, deciding, creating, sleeping, Line, line_a, line_b, line_e, line_f, State,
  Floats, log_event, trains_waiting, either,
}
use comp304_assignments.Metro.Control.{max}
use comp304_assignments.Metro.Section.{
  at_section, source_of, waiting, new_train, check_overload, create, decide, section_at, Draws,
}

-- How many trains wait for each source, and whether the tunnel has one.
pub record Tunnel : Type 0 where
  pub from_a : ℕ
  pub from_b : ℕ
  pub from_e : ℕ
  pub from_f : ℕ
  pub busy : Bool

abbrev pub size_of : Line → Tunnel → ℕ
size_of line_a u = u.from_a
size_of line_b u = u.from_b
size_of line_e u = u.from_e
size_of line_f u = u.from_f

abbrev pub resize : Line → ℕ → Tunnel → Tunnel
resize line_a n u = record u { from_a = n }
resize line_b n u = record u { from_b = n }
resize line_e n u = record u { from_e = n }
resize line_f n u = record u { from_f = n }

-- What may happen: nothing, a train comes, one of a longest queue enters the free tunnel, or the
-- train in it leaves.
pub data SpecStep (u v : Tunnel) : Type 0 where
  stay : v ≡ u → SpecStep u v
  come : (x : Line) → v ≡ resize x (size_of x u + 1) u → SpecStep u v
  admit :
      (x : Line) (n : ℕ)
      → u.busy ≡ false
      → size_of x u ≡ suc n
      → ((y : Line) → size_of y u ≤ size_of x u)
      → v ≡ record (resize x n u) { busy = true }
      → SpecStep u v
  leave : u.busy ≡ true → v ≡ record u { busy = false } → SpecStep u v

abbrev pub is_busy : ControlPc → Bool
is_busy (chosen t) = true
is_busy (entering t until) = true
is_busy (leaving t until) = true
is_busy _ = false

abbrev pub tunnel_of : State → Tunnel
tunnel_of s = record {
  from_a = length s.section1;
  from_b = length s.section2;
  from_e = length s.section3;
  from_f = length s.section4;
  busy = is_busy s.control;
}

-- The control center takes a train only where one waits, and never the front of an empty queue.
abbrev pub Ready : ControlPc → ℕ → Type 0
Ready choosing n = 0 < n
Ready undefined n = ⊥
Ready _ n = Unit

abbrev pub IsReady : State → Type 0
IsReady s = Ready s.control (waiting s)

Ready-mono : (pc : ControlPc) (n m : ℕ) → n ≤ m → Ready pc n → Ready pc m
Ready-mono idle n m h r = tt
Ready-mono resetting n m h r = tt
Ready-mono choosing n m h r = omega arith
Ready-mono (chosen t) n m h r = tt
Ready-mono (entering t until) n m h r = tt
Ready-mono (leaving t until) n m h r = tt
Ready-mono undefined n m h r = r

-- A step from `s` to `t` keeps the contract and the control center ready.
abbrev pub Keeps : State → State → Type 0
Keeps s t = SpecStep (tunnel_of s) (tunnel_of t) × IsReady t

at_section-Keeps : (x : Line) (pc : SectionPc) (s : State) → IsReady s → Keeps s (at_section x pc s)
at_section-Keeps line_a pc s r = (stay refl, r)
at_section-Keeps line_b pc s r = (stay refl, r)
at_section-Keeps line_e pc s r = (stay refl, r)
at_section-Keeps line_f pc s r = (stay refl, r)

pub max-last :
    (a b c d : ℕ)
    → (max a (max b (max c d)) == a) ≡ false
    → (max a (max b (max c d)) == b) ≡ false
    → (max a (max b (max c d)) == c) ≡ false
    → max a (max b (max c d)) ≡ d
max-last a b c d h i j = ground arith

check_overload-Keeps :
    (x : Line) (s : State) → IsReady s → Keeps s (at_section x deciding (check_overload s))
unfolding check_overload
check_overload-Keeps x s r =
    either (λ t. Keeps s (at_section x deciding t)) (ltb 10 (waiting s))
      (either (λ t. Keeps s (at_section x deciding t)) s.clearance (at_section-Keeps x deciding s r)
        (at_section-Keeps x deciding
          (log_event (codes "System Overload") (codes "#") (trains_waiting s)
            (record s { time_to_clear = s.clock; clearance = true }))
          r))
      (at_section-Keeps x deciding s r)

-- A queue that got one train more.
more-IsReady :
    (q : List Train) (t : Train) (s u : State)
    → u.control ≡ s.control
    → waiting u + length q ≡ waiting s + length (q ++ t ∷ [])
    → IsReady s
    → IsReady u
more-IsReady q t s u e w r =
    subst (λ pc. Ready pc (waiting u)) (sym e)
      (Ready-mono s.control (waiting s) (waiting u) (omega (arith, length-append q (t ∷ []))) r)

create-Keeps :
    (x : Line) (destination len until : ℕ) (s : State)
    → IsReady s
    → Keeps s (at_section x (sleeping until) (create (source_of x) destination len s))
unfolding create
create-Keeps line_a destination len until s r = (
  come line_a (ap (λ n. resize line_a n (tunnel_of s)) (length-append s.section1 (_ ∷ []))),
  more-IsReady s.section1 (new_train b'A' destination len s) s
      (at_section line_a (sleeping until) (create b'A' destination len s)) refl (omega arith) r,
)
create-Keeps line_b destination len until s r = (
  come line_b (ap (λ n. resize line_b n (tunnel_of s)) (length-append s.section2 (_ ∷ []))),
  more-IsReady s.section2 (new_train b'B' destination len s) s
      (at_section line_b (sleeping until) (create b'B' destination len s)) refl (omega arith) r,
)
create-Keeps line_e destination len until s r = (
  come line_e (ap (λ n. resize line_e n (tunnel_of s)) (length-append s.section3 (_ ∷ []))),
  more-IsReady s.section3 (new_train b'E' destination len s) s
      (at_section line_e (sleeping until) (create b'E' destination len s)) refl (omega arith) r,
)
create-Keeps line_f destination len until s r = (
  come line_f (ap (λ n. resize line_f n (tunnel_of s)) (length-append s.section4 (_ ∷ []))),
  more-IsReady s.section4 (new_train b'F' destination len s) s
      (at_section line_f (sleeping until) (create b'F' destination len s)) refl (omega arith) r,
)

module _ (fl : Floats) (p : fl.Real) where
  pub section_at-Keeps :
      (x : Line) (d : Draws fl) (pc : SectionPc) (s : State)
      → IsReady s
      → Keeps s (section_at fl p x d pc s)
  unfolding section_at decide
  section_at-Keeps x d looking s r =
      either (Keeps s) s.clearance (stay refl, r) (at_section-Keeps x checking s r)
  section_at-Keeps x d checking s r = check_overload-Keeps x s r
  section_at-Keeps x d deciding s r =
      either (Keeps s) s.clearance (at_section-Keeps x looking s r)
        (either (Keeps s) _ (at_section-Keeps x _ s r) (at_section-Keeps x _ s r))
  section_at-Keeps x d (creating destination len) s r =
      create-Keeps x destination len (s.clock + 1) s r
  section_at-Keeps x d (sleeping until) s r =
      either (Keeps s) (leb until s.clock) (at_section-Keeps x looking s r) (stay refl, r)
