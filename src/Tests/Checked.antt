-- ===== src/Tests/Checked.antt =====
-- The theorems on test_framework/checked_alloc.c at a heap with one block.
use comp304_assignments.Prelude.{◌%◌, ◌≡◌, refl, inr, [], arith}
use comp304_assignments.Machine.{Returns, ◌>>=◌, ◌>>◌, pure}
use comp304_assignments.System.{System}
use comp304_assignments.Alloc.Malloc.{kumalloc}
use comp304_assignments.Alloc.Inv.{IsFrame}
use comp304_assignments.Checked.Alloc.{alloc_kumalloc, check_buffer, register_alloc}
use comp304_assignments.Checked.Results.{kumalloc-check_buffer}
use comp304_assignments.Checked.Register.{Registered, register_alloc-Registered}
use comp304_assignments.Tests.Memlist.{
  both, l, idle, pooled, pooled-IsList, pool-IsList, pool-AreDisjoint,
}
use comp304_assignments.Tests.Alloc.{os, used, heap-IsFrame, nothing_fits, enough_room}

-- `used` with 200 in every byte
abbrev marked : System
marked = record used { mem = λ _. 200 }

kumalloc-check_buffer_example :
    Returns
      (λ p t. (p ≡ 8400) × (t.alloc.block_end % 8 ≡ 0) × IsFrame t)
      ((do p ← kumalloc os 2 100; check_buffer alloc_kumalloc p 100; pure p) used)
kumalloc-check_buffer_example =
    kumalloc-check_buffer os 2 used 100 (omega arith) (omega arith) [] tt refl (omega arith)
      (heap-IsFrame used.mem 0 8392 (omega arith) (omega arith)) (omega arith) nothing_fits
      enough_room

-- `used` with two allocations, and an object in the pool.
abbrev watched : System
watched = record used { store = pooled; framework = record used.framework { allocs = l } }

register_alloc-Registered_example :
    Returns
      (λ _ t.
        Registered os watched both idle [] pooled-IsList pool-IsList pool-AreDisjoint 8200 100 t)
      (register_alloc os 3 8200 100 watched)
register_alloc-Registered_example =
    register_alloc-Registered os watched both idle [] pooled-IsList pool-IsList pool-AreDisjoint
      8200 100 3 0 (omega arith) (omega arith) (omega arith) (omega arith) (omega arith) refl
      (omega arith, omega arith, (omega arith, omega arith, tt))
      (inr (omega arith), (inr (omega arith), tt)) (omega arith)
