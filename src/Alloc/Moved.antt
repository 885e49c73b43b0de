-- ===== src/Alloc/Moved.antt =====
-- `kurealloc` of a live block: kept in place, or copied to a block behind the last one.
use comp304_assignments.Prelude.{
  ℕ, ◌+◌, ◌-◌, ◌^◌, ◌≤◌, ◌<◌, ◌≡◌, refl, inl, sym, ap, subst, ◌∙◌, List, arith, ne→not_==, le→leb,
  lt→not_leb, length,
}
use comp304_assignments.Prelude.Words.{sub64, sub64_exact, add64_exact}
use comp304_assignments.Machine.{Returns, returns, Returns-bind, ok, ◌>>◌, pure}
use comp304_assignments.Machine.Memory.{load64, memcpy_inside, memcpy_outside}
use comp304_assignments.Memlist.{Os}
use comp304_assignments.System.{System}
use comp304_assignments.System.Access.{load, copy}
use comp304_assignments.System.Heap.{is_mapped_below, load-ok, copy-ok}
use comp304_assignments.Alloc.Realloc.{kurealloc}
use comp304_assignments.Alloc.Inv.{IsFrame, Block, FreeList, first_addr, first_fit}
use comp304_assignments.Alloc.Extend.{Extended}
use comp304_assignments.Alloc.Kumalloc.{total_of, total_of_bounds, kumalloc-Extended}

-- A live block at `b` of `total` bytes, its header included.
pub record Live (s : System) (b total : ℕ) : Type 0 where
  pub above : s.brk.heap ≤ b
  pub header : load64 s.mem b ≡ total
  pub large : 16 ≤ total
  pub below : b + total ≤ s.alloc.block_end

module _ (os : Os) (k : ℕ) (s : System) (v : IsFrame s) (b total : ℕ) (a : Live s b total)
    (size : ℕ) (pos : 0 < size) where
  back : sub64 (b + 8) 8 ≡ b
  back =
      sub64_exact (b + 8) 8 (omega arith)
        (omega (arith, a.large, a.below, v.counted, v.break.below, v.break.small))
      ∙ omega arith

  header_read : load b s ≡ ok total s
  header_read =
      load-ok s b (is_mapped_below s.brk b 8 a.above (omega (arith, a.large, a.below, v.counted)))
      ∙ ap (λ n. ok n s) a.header

  -- Where the frame's invariant holds, a positive request up to a live block's stored size, which
  -- counts the header, leaves the whole state as it is and returns the same pointer.
  pub kurealloc-in_place : size ≤ total → kurealloc os k (b + 8) size s ≡ ok (b + 8) s
  unfolding kurealloc
  kurealloc-in_place fits = rw (
    ne→not_== size 0 (omega arith),
    ne→not_== (b + 8) 0 (omega arith),
    back,
    header_read,
    le→leb size total fits,
  )

  -- Where the frame's invariant holds, a request of one to eight bytes more than a live block's
  -- payload returns the same pointer and leaves the whole state as it is: the last byte of the
  -- memory granted lies behind the block.
  pub kurealloc_overruns :
      size ≤ total
      → total - 8 < size
      → Returns
          (λ p t. (p ≡ b + 8) × (t ≡ s) × (b + total ≤ p + (size - 1)))
          (kurealloc os k (b + 8) size s)
  kurealloc_overruns fits over =
      rw (kurealloc-in_place fits) (returns (refl, refl, omega (arith, a.large)))

  module _ (small : size < 2 ^ 62) (more : total < size) where
    -- What `kumalloc` is asked for: the header is counted twice.
    abbrev wanted : ℕ
    wanted = total_of size

    abbrev at : ℕ
    at = s.alloc.block_end + 8

    -- The outcome: the payload is at the new place, and the block at the old one is still in use.
    abbrev pub IsMoved : ℕ → System → Type 0
    IsMoved p t =
        (p ≡ s.alloc.block_end + 8)
        × ((i : ℕ) → i + 8 < total → t.mem (p + i) ≡ s.mem (b + 8 + i))
        × ((x : ℕ) → x < s.alloc.block_end → t.mem x ≡ s.mem x)
        × (t.alloc.head ≡ s.alloc.head)
        × (s.alloc.block_end < t.alloc.block_end)

    moved :
        (t : System)
        → Extended s (total_of wanted) s.alloc.block_end t
        → Returns IsMoved ((copy at (b + 8) total >> pure at) t)
    moved t x =
        let (least, _, most, _) = total_of_bounds size pos (omega arith) in
        let (room, _, _, _) = total_of_bounds wanted (omega (arith, least)) (omega (arith, most)) in
        rw
          (copy-ok t total (omega (arith, a.large)) at (b + 8)
            (is_mapped_below t.brk at total (omega (arith, x.heap, v.inside))
              (omega (arith, room, least, x.end, x.frame.counted)))
            (is_mapped_below t.brk (b + 8) total (omega (arith, x.heap, a.above))
              (omega (arith, room, least, a.below, x.end, x.frame.counted))))
          (returns (
            refl,
            λ i h.
                memcpy_inside t.mem at (b + 8) total i (omega arith)
                ∙ x.others (b + 8 + i) (inl (omega (arith, a.below))),
            λ y lo.
                memcpy_outside t.mem at (b + 8) total y (inl (omega arith)) ∙ x.others y (inl lo),
            x.head,
            omega (arith, room, x.end),
          ))

    -- Where the frame's invariant holds, a request for more than a live block's stored size (and
    -- below 2^62), for which no free block fits, the heap has room and the search has more rounds
    -- than there are free blocks, returns a block behind the last one that holds the old payload.
    -- The old block's bytes and the free list's head stay: it is not freed.
    pub kurealloc-IsMoved :
        (bs : List Block)
        → FreeList s bs
        → s.alloc.head ≡ first_addr bs
        → length bs < k
        → first_fit (total_of wanted) bs ≡ 0
        → s.brk.cur_brk + total_of wanted + 8192 ≤ s.brk.heap + s.brk.max_brk_size
        → Returns IsMoved (kurealloc os k (b + 8) size s)
    unfolding kurealloc
    kurealloc-IsMoved bs f first rounds none_fits room =
        let (least, _, most, _) = total_of_bounds size pos (omega arith) in
        rw
          (
            ne→not_== size 0 (omega arith),
            ne→not_== (b + 8) 0 (omega arith),
            back,
            header_read,
            lt→not_leb size total more,
            add64_exact size 8 (omega arith),
          )
          (Returns-bind
            (kumalloc-Extended os k s wanted (omega (arith, least)) (omega (arith, most)) bs f first
              rounds v none_fits room)
            λ p t (here, x).
              subst (λ q. Returns IsMoved ((copy q (b + 8) total >> pure q) t)) (sym here)
                (moved t x))
