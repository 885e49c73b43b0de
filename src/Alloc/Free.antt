-- ===== src/Alloc/Free.antt =====
-- `kufree` of alloc.c. Its debugging prints are off (`print` is 0). `k` bounds the rounds of each
-- loop.
use comp304_assignments.Prelude.{ℕ, zero, suc, Bool, true, false, not, ◌==◌, if◌then◌else◌}
use comp304_assignments.Prelude.Words.{add64, sub64, add_int, size_of_int}
use comp304_assignments.Machine.{Cmd, out_of_fuel, pure, ◌>>=◌, ◌>>◌, when}
use comp304_assignments.Memlist.{Os}
use comp304_assignments.System.{System}
use comp304_assignments.Intercept.Defs.{sbrk}
use comp304_assignments.Alloc.Fields.{
  block_size, get_size, get_next, get_prev, set_size, set_next, set_prev, get_head, set_head,
  get_block_end, set_block_end,
}

-- A block at the end of the heap goes back: `block_end = p; sbrk(-(p->size))`.
unfoldable pub give_back : Os → ℕ → ℕ → Cmd System (Unit {0})
unfolding sub64
give_back os k p = do set_block_end p; size ← get_size p; _ ← sbrk os k (sub64 0 size); pure tt

-- The first test of `kufree`, with `return_flag`.
unfoldable pub free_last : Os → ℕ → ℕ → Cmd System Bool
free_last os k block = do
  end ← get_block_end
  size ← get_size block
  if end == add64 block size then (do give_back os k block; pure true) else pure false

-- `temp` leaves the free list.
unfoldable pub unlink_trimmed : ℕ → Cmd System (Unit {0})
unlink_trimmed temp = do
  head ← get_head
  if temp == head
      then (do next ← get_next head; set_head next)
      else (do prev ← get_prev temp; next ← get_next temp; set_next prev next)

unfoldable pub trim_step : Os → ℕ → ℕ → Cmd System (Unit {0})
trim_step os k temp = do
  size ← get_size temp
  end ← get_block_end
  when (add64 temp size == end) (do give_back os k temp; unlink_trimmed temp)

-- The loop that gives free blocks at the end of the heap back.
unfoldable pub trim : Os → ℕ → ℕ → ℕ → Cmd System (Unit {0})
trim os fuel zero temp = λ _. out_of_fuel
trim os fuel (suc k) temp =
    if temp == 0
    then pure tt
    else do trim_step os fuel temp; next ← get_next temp; trim os fuel k next

-- What follows in the list is linked past `gone`, whose bytes now belong to `keep`.
unfoldable pub splice : (keep gone : ℕ) → Cmd System (Unit {0})
splice keep gone = do
  next ← get_next gone
  when (not (next == keep)) (set_next keep next)
  next ← get_next gone
  when (not (next == 0)) (set_prev next keep)
  head ← get_head
  if not (gone == head) then (do prev ← get_prev gone; set_next prev keep) else set_head keep
  head ← get_head
  next ← get_next head
  when (head == next) (set_next head 0)

-- `a->size = (size_t) ((int) a->size + (int) b->size + (int) c->size)`, kept in `keep`
unfoldable pub add_sizes : (a b c : ℕ) → Cmd System (Unit {0})
unfolding add_int size_of_int
add_sizes a b c = do
  x ← get_size a
  y ← get_size b
  z ← get_size c
  set_size a (size_of_int (add_int (add_int x y) z))

-- The inner loop where `free_block` follows `temp`: true where three blocks became one.
unfoldable pub three_after : ℕ → (temp free_block end2 temp2 : ℕ) → Cmd System Bool
unfolding splice add_sizes
three_after zero temp free_block end2 temp2 = λ _. out_of_fuel
three_after (suc k) temp free_block end2 temp2 =
    if temp2 == 0
    then pure false
    else if temp2 == end2
    then (do add_sizes temp free_block temp2; splice temp temp2; pure true)
    else (do
      next ← get_next temp2
      if next == 0 then pure false else three_after k temp free_block end2 next)

-- The inner loop where `free_block` stands before `temp`.
unfoldable pub three_before : ℕ → (temp free_block temp2 : ℕ) → Cmd System Bool
unfolding add64 splice add_sizes
three_before zero temp free_block temp2 = λ _. out_of_fuel
three_before (suc k) temp free_block temp2 = if temp2 == 0 then pure false else do
  size ← get_size temp2
  if free_block == add64 temp2 size
      then (do add_sizes temp2 free_block temp; splice temp2 temp; pure true)
      else (do next ← get_next temp2; three_before k temp free_block next)

-- `end1 == free_block`
unfoldable pub merge_after : ℕ → (temp free_block end2 : ℕ) → Cmd System (Unit {0})
unfolding add_int size_of_int
merge_after k temp free_block end2 = do
  head ← get_head
  three ← three_after k temp free_block end2 head
  when (not three)
      (do x ← get_size free_block; y ← get_size temp; set_size temp (size_of_int (add_int x y)))

-- `end2 == temp`
unfoldable pub merge_before : ℕ → (temp free_block : ℕ) → Cmd System (Unit {0})
unfolding add_int size_of_int
merge_before k temp free_block = do
  head ← get_head
  three ← three_before k temp free_block head
  when (not three) (do
    x ← get_size free_block
    y ← get_size temp
    set_size free_block (size_of_int (add_int x y))
    next ← get_next temp
    set_next free_block next
    prev ← get_prev temp
    set_prev free_block prev
    head ← get_head
    if not (temp == head)
        then (do prev ← get_prev temp; set_next prev free_block)
        else set_head free_block)

-- A block without a free neighbour goes to the front of the list.
unfoldable pub push_front : ℕ → Cmd System (Unit {0})
push_front free_block = do
  head ← get_head
  set_next free_block head
  set_prev head free_block
  set_head free_block

-- The loop over the free list that looks for a neighbour.
unfoldable pub coalesce : ℕ → ℕ → (free_block temp : ℕ) → Cmd System (Unit {0})
unfolding add64
coalesce fuel zero free_block temp = λ _. out_of_fuel
coalesce fuel (suc k) free_block temp = if temp == 0 then push_front free_block else do
  size1 ← get_size temp
  size2 ← get_size free_block
  let end1 = add64 temp size1
  let end2 = add64 free_block size2
  if end1 == free_block
      then merge_after fuel temp free_block end2
      else if end2 == temp
      then merge_before fuel temp free_block
      else (do next ← get_next temp; coalesce fuel k free_block next)

unfoldable pub insert_free : ℕ → ℕ → Cmd System (Unit {0})
insert_free k free_block = do
  head ← get_head
  if head == 0
      then (do set_next free_block 0; set_head free_block)
      else coalesce k k free_block head

unfoldable pub kufree : Os → ℕ → ℕ → Cmd System (Unit {0})
kufree os k ptr = if ptr == 0 then pure tt else do
  let block = sub64 ptr block_size
  return_flag ← free_last os k block
  head ← get_head
  trim os k k head
  if return_flag then pure tt else insert_free k block
