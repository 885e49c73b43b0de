-- ===== src/System/Heap.antt =====
-- When a field of the heap can be read and written.
use comp304_assignments.Prelude.{
  ℕ, ◌+◌, ◌^◌, ◌≤◌, ◌<◌, ◌≡◌, true, false, arith, le→leb, lt→not_leb, ne→not_==,
}
use comp304_assignments.Machine.{ok, fault}
use comp304_assignments.Machine.Memory
use comp304_assignments.System.{System, Brk}
use comp304_assignments.System.Access.{align_page, is_mapped, load, store, fill, copy}

pub le-align_page : (x : ℕ) → x ≤ align_page x
unfolding align_page
le-align_page x = omega arith

pub is_mapped_below : (b : Brk) (a n : ℕ) → b.heap ≤ a → a + n ≤ b.cur_brk → is_mapped b a n ≡ true
unfolding is_mapped
is_mapped_below b a n h h' = rw (
  le→leb b.heap a h,
  le→leb (a + n) (align_page b.cur_brk) (omega (arith, le-align_page b.cur_brk)),
)

pub not_mapped_below : (b : Brk) (a n : ℕ) → a < b.heap → is_mapped b a n ≡ false
unfolding is_mapped
not_mapped_below b a n h = rw (lt→not_leb b.heap a h)

module _ (s : System) (a : ℕ) where
  pub load-ok : is_mapped s.brk a 8 ≡ true → load a s ≡ ok (Memory.load64 s.mem a) s
  unfolding load
  load-ok m = rw m

  pub store-ok :
      (v : ℕ)
      → is_mapped s.brk a 8 ≡ true
      → store a v s ≡ ok tt (record s { mem = Memory.store64 s.mem a v })
  unfolding store
  store-ok v m = rw m

  -- NULL and its fields cannot be touched.
  pub store-fault : (v : ℕ) → is_mapped s.brk a 8 ≡ false → store a v s ≡ fault
  unfolding store
  store-fault v m = rw m

pub mapped_small : (b : Brk) (a n : ℕ) → b.cur_brk < 2 ^ 63 → is_mapped b a n ≡ true → a < 2 ^ 64
unfolding is_mapped align_page
mapped_small b a n h m = ground arith

-- `memset` and `memcpy` inside the heap.
module _ (s : System) (n : ℕ) (pos : 0 < n) where
  pub fill-ok :
      (a c : ℕ)
      → is_mapped s.brk a n ≡ true
      → fill a c n s ≡ ok tt (record s { mem = Memory.memset s.mem a c n })
  unfolding fill
  fill-ok a c m = rw (ne→not_== n 0 (omega arith), m)

  pub copy-ok :
      (dst src : ℕ)
      → is_mapped s.brk dst n ≡ true
      → is_mapped s.brk src n ≡ true
      → copy dst src n s ≡ ok tt (record s { mem = Memory.memcpy s.mem dst src n })
  unfolding copy
  copy-ok dst src m m' = rw (ne→not_== n 0 (omega arith), m, m')
