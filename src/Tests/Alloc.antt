-- ===== src/Tests/Alloc.antt =====
-- The theorems on alloc.c and on `sbrk` of test_framework/intercept.c, at heaps of two pages.
use comp304_assignments.Prelude.{
  ℕ, ◌+◌, ◌-◌, ◌*◌, ◌≤◌, ◌<◌, ◌≡◌, refl, inl, inr, false, none, [], ◌∷◌, arith,
}
use comp304_assignments.Prelude.Words.{add64}
use comp304_assignments.Machine.{Returns, ok, fault, ◌>>=◌}
use comp304_assignments.Machine.Memory.{Memory, load64, store64, load_bytes, store_bytes}
use comp304_assignments.Memlist.{Os}
use comp304_assignments.System.{System}
use comp304_assignments.System.Access.{is_mapped}
use comp304_assignments.Intercept.Break.{IsOpen}
use comp304_assignments.Alloc.Fields.{size_align}
use comp304_assignments.Alloc.Malloc.{find_block, kumalloc, kucalloc}
use comp304_assignments.Alloc.Free.{kufree}
use comp304_assignments.Alloc.Inv.{IsFrame, Block, FreeList, first_fit, find_block-first_fit}
use comp304_assignments.Alloc.Take.{Split, PrevIs}
use comp304_assignments.Alloc.Extend.{Extended}
use comp304_assignments.Alloc.Kumalloc.{
  total_of, kumalloc-Extended, kumalloc-Split, kumalloc_exact_fit_overwrites,
  kumalloc_last_fit_faults,
}
use comp304_assignments.Alloc.RoundTrip.{Undone, kufree-kumalloc}
use comp304_assignments.Alloc.Push.{Pushed, kufree-Pushed}
use comp304_assignments.Alloc.Merge.{Merged, kufree-Merged}
use comp304_assignments.Alloc.Calloc.{kucalloc-zeroed}
use comp304_assignments.Alloc.Realloc.{kurealloc}
use comp304_assignments.Alloc.Moved.{Live, IsMoved, kurealloc_overruns, kurealloc-IsMoved}

abbrev pub os : Os
os = record { mmap = λ n len. 4096 * (n + 1) * 100000 }

-- Two pages from 8192 on, of which the blocks fill the part below `end`.
abbrev heap : Memory → (head end : ℕ) → System
heap m head end = record {
  mem = m;
  alloc = record { available_memory = 16384 - end; head = head; block_end = end };
  brk = record {
    heap = 8192;
    cur_brk = 16384;
    num_brk_increase_calls = 0;
    num_brk_decrease_calls = 0;
    max_brk_size = 134217728;
  };
  store = record { objects = λ _. none; freelist = record { head = 0; tail = 0 }; maps = 0 };
  framework = record {
    allocs = record { head = 0; tail = 0 };
    freed_allocs = record { head = 0; tail = 0 };
    zero_sized_allocs = record { head = 0; tail = 0 };
    data_cnt = 0;
    checked_alloc_disable_integrity_check = false;
    use_calloc = false;
    use_system_alloc = false;
  };
}

-- A free block of 200 bytes, then one of 304, with a block in use between them and behind.
abbrev first : Block
first = record { addr = 8192; size = 200 }

abbrev second : Block
second = record { addr = 8592; size = 304 }

abbrev two : System
two = heap (store64 (store64 (store64 (λ _. 0) 8592 304) 8200 8592) 8192 200) 8192 9096

-- The second block's `prev` is the first.
abbrev linked_two : System
linked_two = heap (store64 two.mem 8608 8192) 8192 9096

abbrev exact : Block
exact = record { addr = 8192; size = 112 }

abbrev tight : System
tight = heap (store64 (λ _. 0) 8192 112) 8192 9096

-- One block, in use.
abbrev pub used : System
used = heap (store64 (λ _. 0) 8192 200) 0 8392

heap-IsOpen : (m : Memory) (head end : ℕ) → IsOpen (heap m head end).brk
heap-IsOpen m head end = record {
  opened = omega arith;
  above = omega arith;
  below = omega arith;
  small = omega arith;
}

pub heap-IsFrame :
    (m : Memory) (head end : ℕ) → 8192 ≤ end → end ≤ 16384 → IsFrame (heap m head end)
heap-IsFrame m head end lo hi = record {
  break = heap-IsOpen m head end;
  started = omega arith;
  inside = lo;
  counted = omega arith;
}

two-FreeList : FreeList two (first ∷ second ∷ [])
unfolding load64 store64 load_bytes store_bytes is_mapped
two-FreeList = (omega arith, refl, refl, refl, refl, (omega arith, refl, refl, refl, refl, tt))

linked_two-FreeList : FreeList linked_two (first ∷ second ∷ [])
unfolding load64 store64 load_bytes store_bytes is_mapped
linked_two-FreeList =
    (omega arith, refl, refl, refl, refl, (omega arith, refl, refl, refl, refl, tt))

tight-FreeList : FreeList tight (exact ∷ [])
unfolding load64 store64 load_bytes store_bytes is_mapped
tight-FreeList = (omega arith, refl, refl, refl, refl, tt)

find_block_example : find_block 3 264 8192 two ≡ ok (first_fit 264 (first ∷ second ∷ [])) two
find_block_example = find_block-first_fit two 264 3 (first ∷ second ∷ []) two-FreeList (omega arith)

pub nothing_fits : first_fit (total_of 100) [] ≡ 0
unfolding first_fit
nothing_fits = refl

pub enough_room : 16384 + total_of 100 + 8192 ≤ 8192 + 134217728
unfolding size_align
enough_room = omega arith

kumalloc-Extended_example :
    Returns (λ p t. (p ≡ 8400) × Extended used (total_of 100) 8392 t) (kumalloc os 2 100 used)
kumalloc-Extended_example =
    kumalloc-Extended os 2 used 100 (omega arith) (omega arith) [] tt refl (omega arith)
      (heap-IsFrame used.mem 0 8392 (omega arith) (omega arith)) nothing_fits enough_room

kumalloc-Split_example :
    Returns
      (λ p t.
        (p ≡ 8200)
        × Split linked_two first (second ∷ []) (total_of 100) t
        × PrevIs t.mem 8192 (second ∷ []))
      (kumalloc os 3 100 linked_two)
unfolding size_align load64 store64 load_bytes store_bytes
kumalloc-Split_example =
    kumalloc-Split os 3 linked_two 100 (omega arith) (omega arith)
      (heap-IsOpen linked_two.mem 8192 9096) first (second ∷ []) linked_two-FreeList refl
      (omega arith) (omega arith) (omega arith) (omega arith) (omega arith) (inr (omega arith), tt)
      (inr (omega arith)) 8192 refl (omega arith)

kumalloc_exact_fit_example :
    Returns
      (λ p t. (p ≡ 8200) × (load64 t.mem 8304 ≡ 0) × (load64 t.mem 8312 ≡ 0))
      (kumalloc os 2 100 tight)
unfolding size_align
kumalloc_exact_fit_example =
    kumalloc_exact_fit_overwrites os 2 tight 100 (omega arith) (omega arith)
      (heap-IsOpen tight.mem 8192 9096) exact tight-FreeList refl (omega arith) (omega arith)
      (omega arith) refl (omega arith)

kumalloc_last_fit_example : kumalloc os 3 250 two ≡ fault
unfolding size_align first_fit
kumalloc_last_fit_example =
    kumalloc_last_fit_faults os 3 two 250 (omega arith) (omega arith)
      (heap-IsOpen two.mem 8192 9096) first [] second two-FreeList refl (omega arith) refl
      (omega arith) (omega arith) (omega arith) (omega arith) (inl (omega arith), tt)

kufree-kumalloc_example : Returns (λ _ t. Undone used t) ((kumalloc os 2 100 >>= kufree os 2) used)
unfolding size_align
kufree-kumalloc_example =
    kufree-kumalloc os 2 used 100 (omega arith) (omega arith)
      (heap-IsFrame used.mem 0 8392 (omega arith) (omega arith)) refl (omega arith) refl
      (omega arith)

-- A free block of 200 bytes, and a block of 304 in use that does not end the frame.
abbrev freeable : System
freeable = heap (store64 (store64 (λ _. 0) 8592 304) 8192 200) 8192 9200

freeable-FreeList : FreeList freeable (first ∷ [])
unfolding load64 store64 load_bytes store_bytes is_mapped
freeable-FreeList = (omega arith, refl, refl, refl, refl, tt)

kufree-Pushed_example :
    Returns (λ _ t. Pushed freeable second (first ∷ []) t) (kufree os 2 8600 freeable)
unfolding load64 store64 load_bytes store_bytes is_mapped add64
kufree-Pushed_example =
    kufree-Pushed freeable second (heap-IsOpen freeable.mem 8192 9200) (omega arith) (omega arith)
      refl 2 (first ∷ []) freeable-FreeList refl (omega arith) (inl (omega arith), tt)
      (refl, (inr (omega arith), tt)) (omega arith, tt) (omega arith, tt) os (omega arith)
      (omega arith, tt)

calloc_room : 16384 + total_of (size_align (10 * 10)) + 8192 ≤ 8192 + 134217728
unfolding size_align
calloc_room = omega arith

calloc_none_fits : first_fit (total_of (size_align (10 * 10))) [] ≡ 0
unfolding first_fit
calloc_none_fits = refl

kucalloc-zeroed_example :
    Returns
      (λ p u.
        (p ≡ 8400)
        × ((y : ℕ) → p ≤ y → y < p + 100 → u.mem y ≡ 0)
        × ((y : ℕ) → y < 8392 → u.mem y ≡ used.mem y))
      (kucalloc os 2 10 10 used)
kucalloc-zeroed_example =
    kucalloc-zeroed os 2 used 10 10 (omega arith) (omega arith) (omega arith)
      (heap-IsFrame used.mem 0 8392 (omega arith) (omega arith)) [] tt refl (omega arith)
      calloc_none_fits calloc_room

used-Live : Live used 8192 200
unfolding load64 store64 load_bytes store_bytes
used-Live = record { above = omega arith; header = refl; large = omega arith; below = omega arith }

kurealloc_overruns_example :
    Returns (λ p t. (p ≡ 8200) × (t ≡ used) × (8392 ≤ p + (200 - 1))) (kurealloc os 2 8200 200 used)
kurealloc_overruns_example =
    kurealloc_overruns os 2 used (heap-IsFrame used.mem 0 8392 (omega arith) (omega arith)) 8192 200
      used-Live 200 (omega arith) (omega arith) (omega arith)

kurealloc-IsMoved_example :
    Returns
      (IsMoved os 2 used
        (heap-IsFrame used.mem 0 8392 (omega arith) (omega arith))
        8192
        200
        used-Live
        300
        (omega arith)
        (omega arith)
        (omega arith))
      (kurealloc os 2 8200 300 used)
unfolding size_align first_fit
kurealloc-IsMoved_example =
    kurealloc-IsMoved os 2 used (heap-IsFrame used.mem 0 8392 (omega arith) (omega arith)) 8192 200
      used-Live 300 (omega arith) (omega arith) (omega arith) [] tt refl (omega arith) refl
      (omega arith)

-- A free block of 200 bytes with a block in use right behind it.
abbrev middle : Block
middle = record { addr = 8392; size = 304 }

abbrev touching : System
touching = heap (store64 (store64 (λ _. 0) 8392 304) 8192 200) 8192 9200

touching-FreeList : FreeList touching (first ∷ [])
unfolding load64 store64 load_bytes store_bytes is_mapped
touching-FreeList = (omega arith, refl, refl, refl, refl, tt)

kufree-Merged_example :
    Returns (λ _ t. Merged touching [] first 304 [] t) (kufree os 2 8400 touching)
unfolding load64 store64 load_bytes store_bytes is_mapped add64
kufree-Merged_example =
    kufree-Merged touching middle (heap-IsOpen touching.mem 8192 9200) (omega arith) (omega arith)
      refl [] first [] touching-FreeList (omega arith) (omega arith) tt tt (omega arith, tt) os 2
      refl (omega arith) tt (omega arith) (omega arith, tt)
