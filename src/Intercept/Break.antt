-- ===== src/Intercept/Break.antt =====
-- What `sbrk` of intercept.c does where its assertions hold.
use comp304_assignments.Prelude.{
  ℕ, ◌+◌, ◌-◌, ◌^◌, ◌≤◌, ◌<◌, ◌≡◌, ◌≢◌, none, arith, le→leb, lt→ltb, ne→not_==, le→not_ltb,
}
use comp304_assignments.Prelude.Words.{sub64, add64_exact, add64-sub64_zero}
use comp304_assignments.Machine.{ok}
use comp304_assignments.Memlist.{Os, find_overlap}
use comp304_assignments.System.{System, Brk}
use comp304_assignments.Intercept.Defs.{sbrk, remove_region}

-- The heap exists, and the break lies in it.
pub record IsOpen (b : Brk) : Type 0 where
  pub opened : b.heap ≢ 0
  pub above : b.heap ≤ b.cur_brk
  pub below : b.cur_brk ≤ b.heap + b.max_brk_size
  pub small : b.heap + b.max_brk_size < 2 ^ 63

abbrev pub raised : System → ℕ → System
raised s n = record s {
  brk = record s.brk {
    cur_brk = s.brk.cur_brk + n;
    num_brk_increase_calls = s.brk.num_brk_increase_calls + 1;
  };
}

abbrev pub lowered : System → ℕ → System
lowered s n = record s {
  brk = record s.brk {
    cur_brk = s.brk.cur_brk - n;
    num_brk_decrease_calls = s.brk.num_brk_decrease_calls + 1;
  };
}

module _ (os : Os) (k : ℕ) (s : System) (n : ℕ) (v : IsOpen s.brk) (pos : 0 < n) where
  -- While the heap has room, `sbrk` of a positive number returns the old break and raises it by
  -- that number.
  pub sbrk-raised :
      s.brk.cur_brk + n ≤ s.brk.heap + s.brk.max_brk_size
      → sbrk os k n s ≡ ok s.brk.cur_brk (raised s n)
  unfolding sbrk
  sbrk-raised room = rw (
    ne→not_== s.brk.heap 0 v.opened,
    add64_exact s.brk.cur_brk n (omega arith),
    le→leb s.brk.heap (s.brk.cur_brk + n) (omega arith),
    le→leb (s.brk.cur_brk + n) (s.brk.heap + s.brk.max_brk_size) room,
    ne→not_== (s.brk.cur_brk + n) s.brk.cur_brk (omega arith),
    lt→ltb s.brk.cur_brk (s.brk.cur_brk + n) (omega arith),
  )

  -- `sbrk` of a negated positive number, not more than the break's distance from the heap's start,
  -- returns the old break and lowers it by that number, if the search for a live allocation in the
  -- area finds none.
  pub sbrk-lowered :
      n ≤ s.brk.cur_brk - s.brk.heap
      → find_overlap k s.framework.allocs (remove_region (s.brk.cur_brk - n) s.brk.cur_brk) s.store
        ≡ ok none s.store
      → sbrk os k (sub64 0 n) s ≡ ok s.brk.cur_brk (lowered s n)
  unfolding sbrk
  sbrk-lowered room free = rw (
    ne→not_== s.brk.heap 0 v.opened,
    add64-sub64_zero s.brk.cur_brk n (omega arith) (omega arith),
    le→leb s.brk.heap (s.brk.cur_brk - n) (omega arith),
    le→leb (s.brk.cur_brk - n) (s.brk.heap + s.brk.max_brk_size) (omega arith),
    ne→not_== (s.brk.cur_brk - n) s.brk.cur_brk (omega arith),
    le→not_ltb s.brk.cur_brk (s.brk.cur_brk - n) (omega arith),
    free,
  )

pub raised-IsOpen :
    (s : System) (n : ℕ)
    → IsOpen s.brk
    → s.brk.cur_brk + n ≤ s.brk.heap + s.brk.max_brk_size
    → IsOpen (raised s n).brk
raised-IsOpen s n v room = record {
  opened = v.opened;
  above = omega (arith, v.above);
  below = room;
  small = v.small;
}

pub lowered-IsOpen :
    (s : System) (n : ℕ) → IsOpen s.brk → n ≤ s.brk.cur_brk - s.brk.heap → IsOpen (lowered s n).brk
lowered-IsOpen s n v room = record {
  opened = v.opened;
  above = omega (arith, v.above);
  below = omega (arith, v.below);
  small = v.small;
}
