-- ===== src/Alloc/Calloc.antt =====
-- `kucalloc`: zeroed memory, and the product that wraps.
use comp304_assignments.Prelude.{
  ℕ, ◌+◌, ◌*◌, ◌%◌, ◌^◌, ◌≤◌, ◌<◌, ◌≡◌, ◌≢◌, refl, inl, sym, ap, subst, ◌∙◌, List, arith, ne→not_==,
  length,
}
use native.Mathlib.Nat.{mul-pos}
use comp304_assignments.Prelude.Words.{mul64}
use comp304_assignments.Machine.{Returns, returns, Returns-bind, ◌>>=◌, ◌>>◌, pure}
use comp304_assignments.Machine.Memory.{memset_inside, memset_outside}
use comp304_assignments.Memlist.{Os}
use comp304_assignments.System.{System}
use comp304_assignments.System.Heap.{is_mapped_below, fill-ok}
use comp304_assignments.System.Access.{fill}
use comp304_assignments.Alloc.Fields.{size_align}
use comp304_assignments.Alloc.Malloc.{kumalloc, kucalloc}
use comp304_assignments.Alloc.Align.{size_align_bounds}
use comp304_assignments.Alloc.Inv.{IsFrame, Block, FreeList, first_addr, first_fit}
use comp304_assignments.Alloc.Extend.{Extended}
use comp304_assignments.Alloc.Kumalloc.{total_of, total_of_bounds, kumalloc-Extended}

mul64_exact : (a b : ℕ) → a * b < 2 ^ 64 → mul64 a b ≡ a * b
unfolding mul64
mul64_exact a b h = omega arith

mul64-one : (a b : ℕ) → mul64 1 (a * b % 2 ^ 64) ≡ mul64 a b
unfolding mul64
mul64-one a b = omega arith

-- `kucalloc` multiplies modulo 2^64, and nothing notices: where the wrapped product is not 0, the
-- call is the one for a single element of that size.
pub kucalloc_wraps :
    (os : Os) (k nmemb size : ℕ) (s : System)
    → nmemb ≢ 0
    → size ≢ 0
    → nmemb * size % 2 ^ 64 ≢ 0
    → kucalloc os k nmemb size s ≡ kucalloc os k 1 (nmemb * size % 2 ^ 64) s
unfolding kucalloc
kucalloc_wraps os k nmemb size s n z p =
    rw (ne→not_== size 0 z, ne→not_== nmemb 0 n, ne→not_== (nmemb * size % 2 ^ 64) 0 p)
      (ap
        (λ n. (do block ← kumalloc os k (size_align n); fill block 0 (size_align n); pure block) s)
        (sym (mul64-one nmemb size)))

module _ (os : Os) (k : ℕ) (s : System) (nmemb size : ℕ) (some : 0 < nmemb) (pos : 0 < size)
    (small : nmemb * size < 2 ^ 62) (v : IsFrame s) where
  large : 0 < nmemb * size
  large = mul-pos some pos

  -- What `kumalloc` is asked for.
  abbrev wanted : ℕ
  wanted = size_align (nmemb * size)

  abbrev at : ℕ
  at = s.alloc.block_end + 8

  module _ (t : System) (x : Extended s (total_of wanted) s.alloc.block_end t) where
    zeroed :
        Returns
          (λ p u.
            (p ≡ at)
            × ((y : ℕ) → p ≤ y → y < p + nmemb * size → u.mem y ≡ 0)
            × ((y : ℕ) → y < s.alloc.block_end → u.mem y ≡ s.mem y))
          ((fill at 0 wanted >> pure at) t)
    zeroed =
        let (least, most, _) = size_align_bounds (nmemb * size) (omega arith) in
        let (room, _, _, _) = total_of_bounds wanted (omega (arith, large)) (omega (arith, most)) in
        rw
          (fill-ok t wanted (omega (arith, large, least)) at 0 (
            is_mapped_below t.brk at wanted (omega (arith, x.heap, v.inside))
              (omega (arith, room, x.end, x.frame.counted))))
          (returns (
            refl,
            λ y lo hi. memset_inside t.mem at 0 wanted y lo (omega (arith, hi, least)),
            λ y lo. memset_outside t.mem at 0 wanted y (inl (omega arith)) ∙ x.others y (inl lo),
          ))

  -- Where the frame's invariant holds, the product of two positive arguments is below 2^62, no free
  -- block fits, the heap has room and the search has more rounds than there are free blocks,
  -- `kucalloc` returns `nmemb * size` bytes behind the last block that are all 0, and the bytes of
  -- the blocks before stay.
  pub kucalloc-zeroed :
      (bs : List Block)
      → FreeList s bs
      → s.alloc.head ≡ first_addr bs
      → length bs < k
      → first_fit (total_of wanted) bs ≡ 0
      → s.brk.cur_brk + total_of wanted + 8192 ≤ s.brk.heap + s.brk.max_brk_size
      → Returns
          (λ p u.
            (p ≡ s.alloc.block_end + 8)
            × ((y : ℕ) → p ≤ y → y < p + nmemb * size → u.mem y ≡ 0)
            × ((y : ℕ) → y < s.alloc.block_end → u.mem y ≡ s.mem y))
          (kucalloc os k nmemb size s)
  unfolding kucalloc
  kucalloc-zeroed bs f first rounds none_fits room =
      let (least, most, _) = size_align_bounds (nmemb * size) (omega arith) in
      rw
        (
          ne→not_== size 0 (omega arith),
          ne→not_== nmemb 0 (omega arith),
          mul64_exact nmemb size (omega arith),
        )
        (Returns-bind
          (kumalloc-Extended os k s wanted (omega (arith, large, least)) (omega (arith, most)) bs f
            first rounds v none_fits room)
          λ p t (here, x).
            subst
              (λ q.
                Returns
                  (λ r u.
                    (r ≡ at)
                    × ((y : ℕ) → r ≤ y → y < r + nmemb * size → u.mem y ≡ 0)
                    × ((y : ℕ) → y < s.alloc.block_end → u.mem y ≡ s.mem y))
                  ((fill q 0 wanted >> pure q) t))
              (sym here) (zeroed t x))
