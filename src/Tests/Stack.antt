-- ===== src/Tests/Stack.antt =====
-- The theorems on the allocator's first request and on a stack of blocks, from the program's start.
use comp304_assignments.Prelude.{◌≡◌, refl, none, false, [], ◌∷◌, arith}
use comp304_assignments.Prelude.Words.{add64, sub64}
use comp304_assignments.Machine.{Returns, ok}
use comp304_assignments.Machine.Memory.{store64}
use comp304_assignments.Memlist.Steps.{call_mmap-ok}
use comp304_assignments.System.{System}
use comp304_assignments.System.Access.{is_mapped, align_page, store}
use comp304_assignments.Intercept.Defs.{sbrk, init_heap, do_brk}
use comp304_assignments.Alloc.Fields.{size_align}
use comp304_assignments.Alloc.Malloc.{find_block, frame_capacity, new_frame, extend, kumalloc}
use comp304_assignments.Alloc.Free.{kufree}
use comp304_assignments.Alloc.Start.{IsFresh}
use comp304_assignments.Alloc.Stack.{Uses, first, IsStack, Uses-IsStack, kumalloc-Uses, kufree-Uses}
use comp304_assignments.Tests.Alloc.{os}

abbrev fresh : System
fresh = record {
  mem = λ _. 0;
  alloc = record { available_memory = 0; head = 0; block_end = 0 };
  brk = record {
    heap = 0;
    cur_brk = 0;
    num_brk_increase_calls = 0;
    num_brk_decrease_calls = 0;
    max_brk_size = 134217728;
  };
  store = record { objects = λ _. none; freelist = record { head = 0; tail = 0 }; maps = 0 };
  framework = record {
    allocs = record { head = 0; tail = 0 };
    freed_allocs = record { head = 0; tail = 0 };
    zero_sized_allocs = record { head = 0; tail = 0 };
    data_cnt = 0;
    checked_alloc_disable_integrity_check = false;
    use_calloc = false;
    use_system_alloc = false;
  };
}

fresh-IsFresh : IsFresh fresh
fresh-IsFresh = record {
  heap = refl;
  cur_brk = refl;
  available = refl;
  head = refl;
  block_end = refl;
}

-- After a first request of 100 bytes.
abbrev after : System
after = record fresh {
  mem = store64 fresh.mem 409600000 112;
  alloc = record { available_memory = 8080; head = 0; block_end = 409600112 };
  brk = record fresh.brk { heap = 409600000; cur_brk = 409608192; num_brk_increase_calls = 1 };
  store = record fresh.store { maps = 1 };
}

after-run : kumalloc os 2 100 fresh ≡ ok 409600008 after
unfolding kumalloc size_align add64 sub64 find_block frame_capacity new_frame extend sbrk init_heap
    do_brk is_mapped align_page store
after-run = rw (call_mmap-ok os fresh.store 134217728 (omega arith))

after-Uses : Uses os 2 after (112 ∷ [])
unfolding size_align
after-Uses =
    first 100 fresh-IsFresh refl (omega arith) (omega arith) (omega arith) (omega arith)
      (omega arith) (omega arith) after-run

Uses-IsStack_example : IsStack after (112 ∷ [])
Uses-IsStack_example = Uses-IsStack os 2 (omega arith) after (112 ∷ []) after-Uses

kumalloc-Uses_example :
    Returns (λ p t. (p ≡ 409600120) × Uses os 2 t (208 ∷ 112 ∷ [])) (kumalloc os 2 200 after)
unfolding size_align
kumalloc-Uses_example =
    kumalloc-Uses os 2 (omega arith) after (112 ∷ []) 200 after-Uses (omega arith) (omega arith)
      (omega arith)

kufree-Uses_example : Returns (λ _ t. Uses os 2 t []) (kufree os 2 409600008 after)
kufree-Uses_example = kufree-Uses os 2 (omega arith) after 112 [] after-Uses
