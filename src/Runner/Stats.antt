-- ===== src/Runner/Stats.antt =====
-- The statistics of a list of allocations.
use comp304_assignments.Prelude.{ℕ, ◌-◌, ◌≤◌, ◌<◌, ◌≡◌, ◌^◌, List, arith, length}
use comp304_assignments.Prelude.Words.{sub64_exact}
use comp304_assignments.Machine.{ok}
use comp304_assignments.Memlist.Chain.{Cell, IsList}
use comp304_assignments.Memlist.Sizes.{Below, total_size, sizes_lem}
use comp304_assignments.System.{System}
use comp304_assignments.Runner.Main.{print_stats}

-- On a list of allocations inside the heap, with more rounds than elements, the numbers are the count,
-- the sum of the sizes, the size of the heap, and the difference; nothing changes.
pub print_stats_lem :
    (k : ℕ) (cs : List Cell) (s : System)
    → IsList s.store.objects s.framework.allocs cs
    → Below (2 ^ 64) cs
    → length cs < k
    → length cs < 2 ^ 64
    → s.brk.heap ≤ s.brk.cur_brk
    → s.brk.cur_brk < 2 ^ 64
    → total_size cs ≤ s.brk.cur_brk - s.brk.heap
    → print_stats k s
      ≡ ok
          (record {
            objs = length cs;
            obj_bytes = total_size cs;
            heap_bytes = s.brk.cur_brk - s.brk.heap;
            empty_bytes = s.brk.cur_brk - s.brk.heap - total_size cs;
          })
          s
unfolding print_stats
print_stats_lem k cs s l w h b m n t =
    let z = sizes_lem s.store k s.framework.allocs cs l w h b (omega arith) in
    rw (
      z.0,
      z.1,
      sub64_exact s.brk.cur_brk s.brk.heap m n,
      sub64_exact (s.brk.cur_brk - s.brk.heap) (total_size cs) t (omega arith),
    )
