-- ===== src/Intercept/Defs.antt =====
-- `init_heap`, `do_brk`, `brk`, `sbrk` of test_framework/intercept.c. A pointer that goes below 0
-- or above 2 ^ 64 wraps; the increment of `sbrk` is a bit pattern of 64 bits.
use comp304_assignments.Prelude.{
  ℕ, ◌+◌, Bool, not, Option, none, some, ltb, leb, ◌==◌, if◌then◌else◌,
}
use comp304_assignments.Prelude.Words.{add64}
use comp304_assignments.Machine.{Cmd, ok, pure, ◌>>=◌, ◌>>◌, assert, when}
use comp304_assignments.Memlist.{Os, Region, map_failed, call_mmap, find_overlap}
use comp304_assignments.System.{System, Brk, gets, memlist}

abbrev pub modify_brk : (Brk → Brk) → Cmd System (Unit {0})
modify_brk f s = ok tt (record s { brk = f s.brk })

unfoldable pub init_heap : Os → Cmd System (Unit {0})
init_heap os = do
  b ← gets (λ s. s.brk)
  assert (b.heap == 0)
  heap ← memlist (call_mmap os b.max_brk_size)
  assert (not (heap == map_failed))
  modify_brk (λ b. record b { heap = heap; cur_brk = heap })

-- the stack object `remove_region`; its other fields are zeroed by the initialiser
abbrev pub remove_region : (start end : ℕ) → Region
remove_region start end = record { start = start; end = end; tag = 0; next = 0; prev = 0 }

abbrev pub is_none : {A : Type 0} → Option A → Bool
is_none none = Bool.true
is_none (some a) = Bool.false

-- The branch of `do_brk` that lowers the break, up to the update of `cur_brk`.
unfoldable pub lower_brk : ℕ → ℕ → Cmd System (Unit {0})
lower_brk k addr = do
  b ← gets (λ s. s.brk)
  modify_brk (λ b. record b { num_brk_decrease_calls = b.num_brk_decrease_calls + 1 })
  allocs ← gets (λ s. s.framework.allocs)
  alloc ← memlist (find_overlap k allocs (remove_region addr b.cur_brk))
  assert (is_none alloc)

unfoldable pub do_brk : ℕ → ℕ → Cmd System (Unit {0})
unfolding lower_brk
do_brk k addr = do
  b ← gets (λ s. s.brk)
  assert (leb b.heap addr)
  assert (leb addr (b.heap + b.max_brk_size))
  if addr == b.cur_brk then pure tt else do
    if ltb b.cur_brk addr
        then modify_brk (λ b. record b { num_brk_increase_calls = b.num_brk_increase_calls + 1 })
        else lower_brk k addr
    modify_brk (λ b. record b { cur_brk = addr })

unfoldable pub brk : Os → ℕ → ℕ → Cmd System ℕ
unfolding do_brk init_heap
brk os k addr = do b ← gets (λ s. s.brk); when (b.heap == 0) (init_heap os); do_brk k addr; pure 0

unfoldable pub sbrk : Os → ℕ → ℕ → Cmd System ℕ
unfolding do_brk init_heap
sbrk os k increment = do
  b ← gets (λ s. s.brk)
  when (b.heap == 0) (init_heap os)
  b ← gets (λ s. s.brk)
  do_brk k (add64 b.cur_brk increment)
  pure b.cur_brk
