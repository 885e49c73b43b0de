-- ===== src/Alloc/Release.antt =====
-- `kufree` of the last block, where the free list is empty: the memory goes back to the system.
use comp304_assignments.Prelude.{
  ℕ, zero, suc, ◌+◌, ◌-◌, ◌^◌, ◌≤◌, ◌<◌, ◌≡◌, refl, ◌∙◌, none, true, arith, eq→==, ne→not_==,
}
use comp304_assignments.Prelude.Words.{sub64, add64_exact, sub64_exact}
use comp304_assignments.Machine.{Returns, returns, ok}
use comp304_assignments.Machine.Memory.{load64}
use comp304_assignments.Memlist.{Os, find_overlap}
use comp304_assignments.System.{System}
use comp304_assignments.System.Heap.{is_mapped_below, load-ok}
use comp304_assignments.Intercept.Defs.{remove_region}
use comp304_assignments.Intercept.Break.{lowered, lowered-IsOpen, sbrk-lowered}
use comp304_assignments.Alloc.Free.{give_back, free_last, trim, kufree}
use comp304_assignments.Alloc.Inv.{IsFrame}

-- The test framework finds no live allocation in the `n` bytes below the break.
abbrev pub NoneLive : ℕ → System → ℕ → Type 0
NoneLive k s n =
    find_overlap k s.framework.allocs (remove_region (s.brk.cur_brk - n) s.brk.cur_brk) s.store
    ≡ ok none s.store

-- The block at `b` of `n` bytes went back: the frame ends before it, and the break is lower by its
-- size.
pub record Released (s : System) (b n : ℕ) (t : System) : Type 0 where
  pub frame : IsFrame t
  pub end : t.alloc.block_end ≡ b
  pub break : t.brk.cur_brk + n ≡ s.brk.cur_brk
  pub available : t.alloc.available_memory ≡ s.alloc.available_memory
  pub head : t.alloc.head ≡ s.alloc.head
  pub mem : t.mem ≡ s.mem
  pub heap : t.brk.heap ≡ s.brk.heap
  pub framework : t.framework ≡ s.framework

pub trim-nil :
    (os : Os) (fuel k : ℕ) (s : System) (p : ℕ) → 0 < k → p ≡ 0 → trim os fuel k p s ≡ ok tt s
unfolding trim
trim-nil os fuel zero s p h e = absurd (omega arith)
trim-nil os fuel (suc k) s p h e = rw (eq→== p 0 e)

module _ (os : Os) (k : ℕ) (s : System) (v : IsFrame s) (b n : ℕ) (pos : 0 < n)
    (size : load64 s.mem b ≡ n) (at : s.alloc.block_end ≡ b + n) (lo : s.brk.heap ≤ b)
    (large : 8 ≤ n) (free : NoneLive k s n) where
  abbrev ended : System
  ended = record s { alloc = record s.alloc { block_end = b } }

  abbrev released : System
  released = lowered ended n

  give_back_run : give_back os k b s ≡ ok tt released
  unfolding give_back
  give_back_run = rw (
    load-ok ended b (is_mapped_below s.brk b 8 lo (omega (arith, v.counted))),
    size,
    sbrk-lowered os k ended n v.break pos (omega (arith, v.counted)) free,
  )

  free_last_run : free_last os k b s ≡ ok true released
  unfolding free_last
  free_last_run = rw (
    load-ok s b (is_mapped_below s.brk b 8 lo (omega (arith, v.counted))),
    size,
    add64_exact b n (omega (arith, v.counted, v.break.below, v.break.small)),
    eq→== s.alloc.block_end (b + n) at,
    give_back_run,
  )

  Released_lem : Released s b n released
  Released_lem = record {
    frame = record {
      break = lowered-IsOpen s n v.break (omega (arith, v.counted));
      started = omega (arith, v.break.opened);
      inside = lo;
      counted = omega (arith, v.counted);
    };
    end = refl;
    break = omega (arith, v.counted);
    available = refl;
    head = refl;
    mem = refl;
    heap = refl;
    framework = refl;
  }

  -- Where the frame's invariant holds, the free list is empty, the framework finds no live
  -- allocation in the `size` bytes below the break, and loops may make a round, `kufree` of the
  -- last block (of 8 bytes or more) lowers the break by the block's size and ends the frame before
  -- it. Memory and the count of available bytes stay, and the frame's invariant holds.
  pub kufree-Released :
      s.alloc.head ≡ 0 → 0 < k → Returns (λ _ t. Released s b n t) (kufree os k (b + 8) s)
  unfolding kufree
  kufree-Released none_free rounds =
      let bound : b + 8 < 2 ^ 64 = omega (arith, v.counted, v.break.below, v.break.small) in
      let back : sub64 (b + 8) 8 ≡ b = sub64_exact (b + 8) 8 (omega arith) bound ∙ omega arith in
      rw
        (
          ne→not_== (b + 8) 0 (omega arith),
          back,
          free_last_run,
          trim-nil os k k released s.alloc.head rounds none_free,
        )
        (returns Released_lem)
