-- ===== src/Memlist.antt =====
-- The doubly linked lists of memory regions of test_framework/memlist.c. A `struct mem_region_list`
-- is passed by value, and a function that updates one returns the new value. The objects live in
-- `Store`, with the static `freelist` and the count of the calls of `mmap`. A loop takes the number
-- of rounds that it may make.
mod Objects
pub mod Chain
pub mod Add
pub mod Insert
pub mod Ordered
pub mod Sizes
pub mod Place
pub mod Links
pub mod Remove
pub mod Steps
pub mod Pool
pub mod Tag
pub use Objects.*
use comp304_assignments.Prelude.{
  ℕ, zero, suc, ◌+◌, ◌*◌, ◌/◌, Bool, true, false, not, ◌&&◌, ◌||◌, Option, none, some, ltb, leb,
  ◌==◌, if◌then◌else◌,
}
use comp304_assignments.Prelude.Words.{add64, sub64}
use comp304_assignments.Machine.{Cmd, exit, out_of_fuel, pure, ◌>>=◌, ◌>>◌, assert, when}

-- `memlist_insert_front`
unfoldable pub insert_front : RegionList → ℕ → Cmd Store RegionList
insert_front l new = do
  set_next new l.head
  when (not (l.head == 0)) (set_prev l.head new)
  pure (record { head = new; tail = if l.tail == 0 then new else l.tail })

-- `memlist_insert_after`
unfoldable pub insert_after : RegionList → (after new : ℕ) → Cmd Store RegionList
insert_after l after new = do
  a ← read after
  set_next new a.next
  set_prev new after
  set_next after new
  n ← read new
  if not (n.next == 0) then (do set_prev n.next new; pure l) else pure (record l { tail = new })

-- The updates of `list->head` and `list->tail` in `memlist_remove`, once `obj` is bypassed.
abbrev pub drop_end : RegionList → ℕ → Region → RegionList
drop_end l obj o = record {
  head = if l.head == obj then o.next else l.head;
  tail = if l.tail == obj then o.prev else l.tail;
}

-- The end of `memlist_remove`; `o` is what `*obj` holds.
unfoldable pub remove_links : RegionList → ℕ → Region → Cmd Store RegionList
remove_links l obj o = do set_next obj 0; set_prev obj 0; pure (drop_end l obj o)

-- `memlist_remove`
unfoldable pub remove : RegionList → ℕ → Cmd Store RegionList
unfolding remove_links
remove l obj = do
  o ← read obj
  when (not (o.next == 0)) (set_prev o.next o.prev)
  o ← read obj
  when (not (o.prev == 0)) (set_next o.prev o.next)
  o ← read obj
  remove_links l obj o

-- `memlist_free_region_object`
unfoldable pub free_region_object : ℕ → Cmd Store (Unit {0})
unfolding insert_front
free_region_object obj = do l ← get_freelist; l ← insert_front l obj; set_freelist l

-- The loop of `populate_freelist` over the zeroed objects from `p` on.
unfoldable pub populate : ℕ → ℕ → Cmd Store (Unit {0})
unfolding free_region_object
populate zero p = pure tt
populate (suc k) p = do new_object p; free_region_object p; populate k (p + region_size)

abbrev pub page_size : ℕ
page_size = 4096

-- `populate_freelist`
unfoldable pub populate_freelist : Os → Cmd Store (Unit {0})
unfolding populate
populate_freelist os = do
  l ← get_freelist
  assert (l.head == 0)
  regions ← call_mmap os (page_size * 16)
  populate (page_size * 16 / region_size) regions

-- `alloc_region_object`
unfoldable pub alloc_region_object : Os → (start end : ℕ) → Cmd Store ℕ
alloc_region_object os start end = do
  l ← get_freelist
  when (l.head == 0) (populate_freelist os)
  l ← get_freelist
  assert (not (l.head == 0))
  rest ← remove l l.head
  set_freelist rest
  set_range l.head start end
  pure l.head

-- `regions_overlap`
unfoldable pub regions_overlap : Region → Region → Bool
regions_overlap a b = not (leb a.end b.start || leb b.end a.start)

unfoldable pub find_overlap_loop : ℕ → ℕ → Region → Cmd Store (Option Region)
unfolding regions_overlap
find_overlap_loop zero tmp region = λ _. out_of_fuel
find_overlap_loop (suc k) tmp region = if tmp == 0 then pure none else do
  t ← read tmp
  if regions_overlap t region
      then pure (some region)
      else if leb t.end region.start
      then pure none
      else find_overlap_loop k t.next region

-- `memlist_find_overlap`: what it returns is its argument, and not the element that overlaps.
unfoldable pub find_overlap : ℕ → RegionList → Region → Cmd Store (Option Region)
unfolding find_overlap_loop
find_overlap k l region = if l.head == 0 then pure none else do
  h ← read l.head
  if leb region.end h.start then pure none else do
    t ← read l.tail
    if leb t.end region.start then pure none else find_overlap_loop k l.head region

find_unsorted_loop : ℕ → ℕ → Region → Cmd Store (Option Region)
unfolding regions_overlap
find_unsorted_loop zero tmp region = λ _. out_of_fuel
find_unsorted_loop (suc k) tmp region = if tmp == 0 then pure none else do
  t ← read tmp
  if regions_overlap t region then pure (some region) else find_unsorted_loop k t.next region

-- `memlist_find_overlap_unsorted`
unfoldable pub find_overlap_unsorted : ℕ → RegionList → Region → Cmd Store (Option Region)
unfolding find_unsorted_loop
find_overlap_unsorted k l region = find_unsorted_loop k l.head region

-- `start >= region->end && (!region->next || region->next->start >= end)`
fits_after : Region → (start end : ℕ) → Cmd Store Bool
fits_after r start end =
    if not (leb r.end start)
    then pure false
    else if r.next == 0
    then pure true
    else (do n ← read r.next; pure (leb end n.start))

unfoldable pub add_region_loop : ℕ → RegionList → (region new start end : ℕ) → Cmd Store RegionList
unfolding regions_overlap fits_after
add_region_loop zero l region new start end = λ _. out_of_fuel
add_region_loop (suc k) l region new start end = if region == 0 then (λ _. exit) else do
  n ← read new
  r ← read region
  assert (not (regions_overlap n r))
  here ← fits_after r start end
  if here then insert_after l region new else add_region_loop k l r.next new start end

-- Where `memlist_add_region` puts the new object.
unfoldable pub place_region : ℕ → RegionList → (new start end : ℕ) → Cmd Store RegionList
place_region k l new start end = if l.head == 0 then insert_front l new else do
  h ← read l.head
  if leb end h.start then insert_front l new else do
    t ← read l.tail
    if leb t.end start then insert_after l l.tail new else add_region_loop k l l.head new start end

-- `memlist_add_region`
unfoldable pub add_region : Os → ℕ → RegionList → (start len : ℕ) → Cmd Store (RegionList × ℕ)
add_region os k l start len = do
  let end = add64 start len
  assert (ltb start end)
  new ← alloc_region_object os start end
  l ← place_region k l new start end
  pure (l, new)

length_loop : ℕ → (region cnt : ℕ) → Cmd Store ℕ
length_loop zero region cnt = λ _. out_of_fuel
length_loop (suc k) region cnt =
    if region == 0 then pure cnt else do r ← read region; length_loop k r.next (add64 cnt 1)

-- `memlist_length`
unfoldable pub memlist_length : ℕ → RegionList → Cmd Store ℕ
unfolding length_loop
memlist_length k l = length_loop k l.head 0

byte_size_loop : ℕ → (region cnt : ℕ) → Cmd Store ℕ
byte_size_loop zero region cnt = λ _. out_of_fuel
byte_size_loop (suc k) region cnt =
    if region == 0
    then pure cnt
    else do r ← read region; byte_size_loop k r.next (add64 cnt (sub64 r.end r.start))

-- `memlist_byte_size`
unfoldable pub memlist_byte_size : ℕ → RegionList → Cmd Store ℕ
unfolding byte_size_loop
memlist_byte_size k l = byte_size_loop k l.head 0

find_loop : ℕ → (region ptr : ℕ) → Cmd Store ℕ
find_loop zero region ptr = λ _. out_of_fuel
find_loop (suc k) region ptr = if region == 0 then pure 0 else do
  r ← read region
  if not (leb r.start ptr)
      then pure 0
      else if leb r.start ptr && ltb ptr r.end
      then pure region
      else find_loop k r.next ptr

-- `memlist_find`
unfoldable pub find : ℕ → RegionList → ℕ → Cmd Store ℕ
unfolding find_loop
find k l ptr = find_loop k l.head ptr
