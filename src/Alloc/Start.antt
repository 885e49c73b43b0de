-- ===== src/Alloc/Start.antt =====
-- The first request: the heap is mapped, and the allocator's frame starts.
use comp304_assignments.Prelude.{
  ℕ, ◌+◌, ◌-◌, ◌^◌, ◌≤◌, ◌<◌, ◌≡◌, refl, ◌≢◌, ◌∙◌, ◌⊎◌, [], arith, le→leb, lt→ltb, eq→==, ne→not_==,
}
use comp304_assignments.Prelude.Words.{add64, add64_exact, sub64_exact}
use comp304_assignments.Machine.{Returns, returns, ok}
use comp304_assignments.Machine.Memory.{load64, store64, load64-store64, store64_outside}
use comp304_assignments.Memlist.{Os, map_failed}
use comp304_assignments.Memlist.Steps.{call_mmap-ok}
use comp304_assignments.System.{System}
use comp304_assignments.System.Heap.{is_mapped_below, store-ok}
use comp304_assignments.Intercept.Defs.{init_heap, do_brk, sbrk}
use comp304_assignments.Alloc.Align.{frame_capacity_bounds}
use comp304_assignments.Alloc.Malloc.{frame_capacity, extend, kumalloc}
use comp304_assignments.Alloc.Inv.{IsFrame, first_fit-nil}
use comp304_assignments.Alloc.Kumalloc.{total_of, total_of_bounds, kumalloc_run}

-- No heap yet, as the globals are at the program's start.
pub record IsFresh (s : System) : Type 0 where
  pub heap : s.brk.heap ≡ 0
  pub cur_brk : s.brk.cur_brk ≡ 0
  pub available : s.alloc.available_memory ≡ 0
  pub head : s.alloc.head ≡ 0
  pub block_end : s.alloc.block_end ≡ 0

-- The first block is at the heap's start `a`, and the frame ends behind it.
pub record Started (s : System) (a total : ℕ) (t : System) : Type 0 where
  pub frame : IsFrame t
  pub heap : t.brk.heap ≡ a
  pub end : t.alloc.block_end ≡ a + total
  pub size : load64 t.mem a ≡ total
  pub others : (x : ℕ) → (x < a) ⊎ (a + 8 ≤ x) → t.mem x ≡ s.mem x
  pub head : t.alloc.head ≡ 0
  pub framework : t.framework ≡ s.framework

module _ (os : Os) (k : ℕ) (s : System) (z : IsFresh s) where
  -- What mmap answers next.
  abbrev area : ℕ
  area = os.mmap s.store.maps s.brk.max_brk_size

  module _ (mapped : area ≢ 0) (success : area ≢ map_failed)
      (below : area + s.brk.max_brk_size < 2 ^ 63) where
    abbrev opened : ℕ → System
    opened n = record s {
      brk = record s.brk {
        heap = area;
        cur_brk = area + n;
        num_brk_increase_calls = s.brk.num_brk_increase_calls + 1;
      };
      store = record s.store { maps = s.store.maps + 1 };
    }

    init_heap-opened :
        init_heap os s
        ≡ ok tt (record s {
          brk = record s.brk { heap = area; cur_brk = area };
          store = record s.store { maps = s.store.maps + 1 };
        })
    unfolding init_heap
    init_heap-opened = rw (
      eq→== s.brk.heap 0 z.heap,
      call_mmap-ok os s.store s.brk.max_brk_size success,
      ne→not_== area map_failed success,
    )

    sbrk-opened : (n : ℕ) → 0 < n → n ≤ s.brk.max_brk_size → sbrk os k n s ≡ ok area (opened n)
    unfolding sbrk do_brk
    sbrk-opened n pos room = rw (
      eq→== s.brk.heap 0 z.heap,
      init_heap-opened,
      add64_exact area n (omega arith),
      le→leb area (area + n) (omega arith),
      le→leb (area + n) (area + s.brk.max_brk_size) (omega arith),
      ne→not_== (area + n) area (omega arith),
      lt→ltb area (area + n) (omega arith),
    )

    module _ (total : ℕ) (large : 16 ≤ total) (room : total + 8192 ≤ s.brk.max_brk_size) where
      abbrev first_frame : System
      first_frame = record (opened (frame_capacity total)) {
        alloc = record s.alloc {
          available_memory = frame_capacity total - total;
          block_end = area + total;
        };
      }

      extend-Started :
          extend os k total s ≡ ok area (record first_frame { mem = store64 s.mem area total })
      unfolding extend
      extend-Started =
          let (fits, pos, most, _) = frame_capacity_bounds total (omega arith) in
          let left : add64 0 (frame_capacity total - total) ≡ frame_capacity total - total =
            add64_exact 0 (frame_capacity total - total) (omega (arith, most)) ∙ omega arith in
          rw (
            eq→== s.alloc.available_memory 0 z.available,
            sbrk-opened (frame_capacity total) pos (omega (arith, most)),
            eq→== s.alloc.block_end 0 z.block_end,
            add64_exact area total (omega arith),
            sub64_exact (frame_capacity total) total fits (omega (arith, most)),
            z.available,
            left,
            store-ok first_frame area total
                (is_mapped_below first_frame.brk area 8 (omega arith) (omega (arith, fits))),
          )

    -- The first request of a program maps the heap where mmap answers an address that is neither
    -- NULL nor MAP_FAILED, and returns the address behind a header at the heap's start; the frame's
    -- invariant holds from then on, and only the header was written. The request and 8192 bytes fit
    -- the heap, which ends below 2^63.
    pub kumalloc-Started :
        (size : ℕ)
        → 0 < size
        → size < 2 ^ 63
        → 0 < k
        → total_of size + 8192 ≤ s.brk.max_brk_size
        → Returns (λ p t. (p ≡ area + 8) × Started s area (total_of size) t) (kumalloc os k size s)
    kumalloc-Started size pos small rounds room =
        let (_, large, most, _) = total_of_bounds size pos small in
        let (fits, _, bound, _) = frame_capacity_bounds (total_of size) (omega arith) in
        rw
          (
            kumalloc_run os k s size pos small [] tt z.head rounds 0
                (first_fit-nil (total_of size)),
            extend-Started (total_of size) large room,
          )
          (returns (
            add64_exact area 8 (omega arith),
            record {
              frame = record {
                break = record {
                  opened = mapped;
                  above = omega arith;
                  below = omega (arith, bound);
                  small = below;
                };
                started = omega arith;
                inside = omega arith;
                counted = omega (arith, fits);
              };
              heap = refl;
              end = refl;
              size = load64-store64 s.mem area (total_of size) (omega (arith, most));
              others = λ x h. store64_outside s.mem area (total_of size) x h;
              head = z.head;
              framework = refl;
            },
          ))
