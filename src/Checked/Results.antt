-- ===== src/Checked/Results.antt =====
-- What `kumalloc` returns, before the checks of `_checked_alloc`.
use comp304_assignments.Prelude.{
  ℕ, ◌+◌, ◌%◌, ◌^◌, ◌≤◌, ◌<◌, ◌≡◌, ◌≢◌, List, arith, eq→==, ne→not_==, le→leb, length,
}
use comp304_assignments.Prelude.Words.{add64_exact}
use comp304_assignments.Machine.{Returns, returns, Returns-bind, ok, ◌>>=◌, ◌>>◌, pure}
use comp304_assignments.Memlist.{Os}
use comp304_assignments.System.{System}
use comp304_assignments.Alloc.Malloc.{kumalloc}
use comp304_assignments.Alloc.Inv.{IsFrame, Block, FreeList, first_addr, first_fit}
use comp304_assignments.Alloc.Kumalloc.{total_of, total_of_bounds, kumalloc-Extended}
use comp304_assignments.Checked.Alloc.{alloc_kumalloc, check_buffer}

-- A buffer inside the heap and aligned to 8 passes the checks of its address.
check_buffer-ok :
    (s : System) (buf size : ℕ)
    → buf ≢ 0
    → buf % 8 ≡ 0
    → s.brk.heap ≤ buf
    → buf + size ≤ s.brk.cur_brk
    → s.brk.cur_brk < 2 ^ 64
    → check_buffer alloc_kumalloc buf size s ≡ ok tt s
unfolding check_buffer
check_buffer-ok s buf size ne aligned lo hi small = rw (
  ne→not_== buf 0 ne,
  eq→== (buf % 8) 0 aligned,
  le→leb s.brk.heap buf lo,
  add64_exact buf size (omega arith),
  le→leb (buf + size) s.brk.cur_brk hi,
)

module _ (os : Os) (k : ℕ) (s : System) (size : ℕ) (pos : 0 < size) (small : size < 2 ^ 63)
    (bs : List Block) (f : FreeList s bs) (first : s.alloc.head ≡ first_addr bs)
    (rounds : length bs < k) where
  -- Where `kumalloc` extends a frame with its invariant true that ends at a multiple of 8 (no free
  -- block fits, the heap has room, and the search has more rounds than there are free blocks), its
  -- buffer passes the checks of `_checked_alloc` on the address (not NULL, aligned, inside the
  -- heap), and the frame again ends at a multiple of 8 with its invariant true.
  pub kumalloc-check_buffer :
      IsFrame s
      → s.alloc.block_end % 8 ≡ 0
      → first_fit (total_of size) bs ≡ 0
      → s.brk.cur_brk + total_of size + 8192 ≤ s.brk.heap + s.brk.max_brk_size
      → Returns
          (λ p t. (p ≡ s.alloc.block_end + 8) × (t.alloc.block_end % 8 ≡ 0) × IsFrame t)
          ((do p ← kumalloc os k size; check_buffer alloc_kumalloc p size; pure p) s)
  kumalloc-check_buffer v aligned none_fits room =
      let (least, large, most, multiple) = total_of_bounds size pos small in
      Returns-bind (kumalloc-Extended os k s size pos small bs f first rounds v none_fits room)
        λ p t (here, x).
          rw
            (check_buffer-ok t p size (omega (arith, here)) (omega (arith, here, aligned))
              (omega (arith, here, x.heap, v.inside))
              (omega (arith, here, least, x.end, x.frame.counted))
              (omega (arith, x.frame.break.below, x.frame.break.small)))
            (returns (here, omega (arith, multiple, aligned, x.end), x.frame))
