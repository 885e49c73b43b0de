-- ===== src/Alloc/Malloc.antt =====
-- `kumalloc` and `kucalloc` of alloc.c. `k` bounds the rounds of each loop.
use comp304_assignments.Prelude.{
  ℕ, zero, suc, ◌+◌, ◌*◌, ◌/◌, ◌%◌, ◌^◌, not, ltb, leb, ◌==◌, if◌then◌else◌,
}
use comp304_assignments.Prelude.Words.{add64, sub64, mul64, sub_int, is_positive_int, size_of_int}
use comp304_assignments.Machine.{Cmd, out_of_fuel, pure, ◌>>=◌, ◌>>◌, when}
use comp304_assignments.Memlist.{Os}
use comp304_assignments.System.{System, gets}
use comp304_assignments.System.Access.{fill}
use comp304_assignments.Intercept.Defs.{sbrk}
use comp304_assignments.Alloc.Fields.{
  block_size, get_size, get_next, get_prev, set_size, set_next, set_prev, get_head, set_head,
  get_block_end, set_block_end, set_available, size_align,
}

-- The first block of the free list with `size >= total_size`, or NULL.
unfoldable pub find_block : ℕ → (total_size temp : ℕ) → Cmd System ℕ
find_block zero total_size temp = λ _. out_of_fuel
find_block (suc k) total_size temp = if temp == 0 then pure 0 else do
  size ← get_size temp
  if leb total_size size then pure temp else do next ← get_next temp; find_block k total_size next

-- The bytes asked from `sbrk`.
unfoldable pub frame_capacity : ℕ → ℕ
frame_capacity total_size =
    if ltb 8192 total_size then (total_size / 8192 + 1) * 8192 % 2 ^ 64 else 8192

-- `available_memory <= 0`
unfoldable pub new_frame : Os → ℕ → ℕ → Cmd System ℕ
unfolding add64 sub64
new_frame os k total_size = do
  let capacity = frame_capacity total_size
  block ← sbrk os k capacity
  end ← get_block_end
  set_block_end (if end == 0 then add64 block total_size else add64 end total_size)
  available ← gets (λ s. s.alloc.available_memory)
  set_available (add64 available (sub64 capacity total_size))
  pure block

-- `total_size <= available_memory`
unfoldable pub rest_of_frame : ℕ → Cmd System ℕ
unfolding add64 sub64
rest_of_frame total_size = do
  block ← get_block_end
  set_block_end (add64 block total_size)
  available ← gets (λ s. s.alloc.available_memory)
  set_available (sub64 available total_size)
  pure block

-- Some memory is available, and too little.
unfoldable pub longer_frame : Os → ℕ → ℕ → Cmd System ℕ
unfolding add64 sub64
longer_frame os k total_size = do
  let capacity = frame_capacity total_size
  _ ← sbrk os k capacity
  block ← get_block_end
  set_block_end (add64 block total_size)
  available ← gets (λ s. s.alloc.available_memory)
  set_available (add64 available (sub64 capacity total_size))
  pure block

-- `if(!block) { … }`: a block behind the last one.
unfoldable pub extend : Os → ℕ → ℕ → Cmd System ℕ
unfolding new_frame rest_of_frame longer_frame
extend os k total_size = do
  available ← gets (λ s. s.alloc.available_memory)
  block ←
      (if available == 0
        then new_frame os k total_size
        else if leb total_size available
        then rest_of_frame total_size
        else longer_frame os k total_size)
  set_size block total_size
  pure block

-- The found block is the head of the free list.
unfoldable pub take_head : (subseq size_diff : ℕ) → Cmd System (Unit {0})
unfolding is_positive_int
take_head subseq size_diff =
    if is_positive_int size_diff
    then (do
      head ← get_head
      next ← get_next head
      set_next subseq next
      prev ← get_prev head
      set_prev subseq prev
      set_head subseq)
    else (do
      head ← get_head
      next ← get_next head
      set_head next
      when (not (next == 0)) (set_prev next 0))

-- `temp->next` is the found block: the branch with `size_diff > 0`, and the other.
unfoldable pub split_after : (temp subseq : ℕ) → Cmd System (Unit {0})
split_after temp subseq = do
  found ← get_next temp
  after ← get_next found
  set_next subseq after
  found ← get_next temp
  after ← get_next found
  set_prev after subseq
  set_next temp subseq
  set_prev subseq temp

unfoldable pub unlink_after : ℕ → Cmd System (Unit {0})
unlink_after temp = do
  found ← get_next temp
  after ← get_next found
  set_prev after temp
  found ← get_next temp
  after ← get_next found
  set_next temp after

-- `while(temp->next)`; the test `temp->next == NULL` in the loop never holds.
unfoldable pub take_inner : ℕ → (free_block subseq size_diff temp : ℕ) → Cmd System (Unit {0})
unfolding is_positive_int split_after unlink_after
take_inner zero free_block subseq size_diff temp = λ _. out_of_fuel
take_inner (suc k) free_block subseq size_diff temp = do
  next ← get_next temp
  if next == 0
      then pure tt
      else if next == free_block
      then (if is_positive_int size_diff then split_after temp subseq else unlink_after temp)
      else take_inner k free_block subseq size_diff next

-- The `else` of `if(!block)`: a block of the free list is cut to size and taken out of the list.
unfoldable pub take_block : ℕ → (block total_size : ℕ) → Cmd System (Unit {0})
unfolding add64 sub_int size_of_int take_head take_inner
take_block k block total_size = do
  temp ← get_head
  let subseq = add64 block total_size
  set_next subseq 0
  size ← get_size block
  let size_diff = sub_int size total_size
  set_size subseq (size_of_int size_diff)
  set_size block total_size
  head ← get_head
  if head == block then take_head subseq size_diff else take_inner k block subseq size_diff temp

unfoldable pub kumalloc : Os → ℕ → ℕ → Cmd System ℕ
kumalloc os k size = if size == 0 then pure 0 else do
  let total_size = size_align (add64 size block_size)
  head ← get_head
  block ← find_block k total_size head
  if block == 0
      then (do block ← extend os k total_size; pure (add64 block block_size))
      else (do take_block k block total_size; pure (add64 block block_size))

unfoldable pub kucalloc : Os → ℕ → (nmemb size : ℕ) → Cmd System ℕ
kucalloc os k nmemb size = if size == 0 then pure 0 else if nmemb == 0 then pure 0 else do
  let total_size = size_align (mul64 nmemb size)
  block ← kumalloc os k total_size
  fill block 0 total_size
  pure block
