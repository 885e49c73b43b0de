-- ===== src/System.antt =====
-- The whole program state: the globals of alloc.c and of the test framework, and the heap memory.
pub mod Access
pub mod Heap
use comp304_assignments.Prelude.{ℕ, Bool}
use comp304_assignments.Machine.{Cmd, ok, zoom}
use comp304_assignments.Machine.Memory.{Memory}
use comp304_assignments.Memlist.{RegionList, Store}

-- alloc.c: `available_memory`, `head`, `block_end`
pub record Allocator : Type 0 where
  pub available_memory : ℕ
  pub head : ℕ
  pub block_end : ℕ

-- test_framework/intercept.c, and `max_brk_size` of main.c
pub record Brk : Type 0 where
  pub heap : ℕ
  pub cur_brk : ℕ
  pub num_brk_increase_calls : ℕ
  pub num_brk_decrease_calls : ℕ
  pub max_brk_size : ℕ

-- The lists of test_framework/memlist.c, and the globals of checked_alloc.c and main.c.
pub record Framework : Type 0 where
  pub allocs : RegionList
  pub freed_allocs : RegionList
  pub zero_sized_allocs : RegionList
  pub data_cnt : ℕ
  pub checked_alloc_disable_integrity_check : Bool
  pub use_calloc : Bool
  pub use_system_alloc : Bool

pub record System : Type 0 where
  pub mem : Memory
  pub alloc : Allocator
  pub brk : Brk
  pub store : Store
  pub framework : Framework

abbrev pub gets : {A : Type 0} → (System → A) → Cmd System A
gets f s = ok (f s) s

abbrev pub modify_alloc : (Allocator → Allocator) → Cmd System (Unit {0})
modify_alloc f s = ok tt (record s { alloc = f s.alloc })

abbrev pub modify_framework : (Framework → Framework) → Cmd System (Unit {0})
modify_framework f s = ok tt (record s { framework = f s.framework })

-- A function of memlist.c, run on the region objects.
abbrev pub memlist : {A : Type 0} → Cmd Store A → Cmd System A
memlist = zoom (λ (s : System). s.store) (λ t s. record s { store = t })
