-- ===== src/Alloc/Kumalloc.antt =====
-- `kumalloc` as a whole: where the free list has no block that fits, and where its first one does.
use comp304_assignments.Prelude.{
  ℕ, ◌+◌, ◌%◌, ◌^◌, ◌≤◌, ◌<◌, ◌≡◌, ◌≢◌, ap, subst, ◌∙◌, List, [], ◌∷◌, ◌++◌, arith, ◌==◌, ne→not_==,
  length, length-append, if◌then◌else◌, le→leb,
}
use comp304_assignments.Prelude.Words.{add64, add64_exact}
use comp304_assignments.Machine.{Returns, returns, Returns-bind, ok, fault, pure, ◌>>=◌, ◌>>◌}
use comp304_assignments.Machine.Memory.{load64}
use comp304_assignments.Memlist.{Os}
use comp304_assignments.System.{System}
use comp304_assignments.Intercept.Break.{IsOpen}
use comp304_assignments.Alloc.Align.{size_align_bounds}
use comp304_assignments.Alloc.Fields.{size_align, block_size}
use comp304_assignments.Alloc.Malloc.{find_block, extend, take_block, kumalloc}
use comp304_assignments.Alloc.Inv.{
  IsFrame, Block, FreeList, first_addr, first_fit, find_block-first_fit,
}
use comp304_assignments.Alloc.Extend.{Extended, extend-Extended}
use comp304_assignments.Alloc.Take.{Clear, ClearPrev, PrevIs, Split, take_block-Split}
use comp304_assignments.Alloc.Corrupt.{exact_fit_overwrites, last_fit_faults}

-- The bytes that `kumalloc` sets aside for a request: the header and the payload, aligned.
abbrev pub total_of : ℕ → ℕ
total_of size = size_align (size + 8)

pub total_of_bounds :
    (size : ℕ)
    → 0 < size
    → size < 2 ^ 63
    → (size + 8 ≤ total_of size)
      × (16 ≤ total_of size)
      × (total_of size < size + 16)
      × (total_of size % 8 ≡ 0)
total_of_bounds size pos small =
    let (a, b, c) = size_align_bounds (size + 8) (omega arith) in
    (a, omega (arith, a, c), omega (arith, b), c)

module _ (os : Os) (k : ℕ) (s : System) (size : ℕ) (pos : 0 < size) (small : size < 2 ^ 63)
    (bs : List Block) (f : FreeList s bs) (at : s.alloc.head ≡ first_addr bs)
    (rounds : length bs < k) where
  -- The run up to the test of the found block.
  pub kumalloc_run :
      (found : ℕ)
      → first_fit (total_of size) bs ≡ found
      → kumalloc os k size s
        ≡ (if found == 0
              then (do block ← extend os k (total_of size); pure (add64 block block_size))
              else (do take_block k found (total_of size); pure (add64 found block_size)))
            s
  unfolding kumalloc
  kumalloc_run found e = rw (
    ne→not_== size 0 (omega arith),
    add64_exact size 8 (omega arith),
    ap (λ p. find_block k (total_of size) p s) at
        ∙ find_block-first_fit s (total_of size) k bs f rounds
        ∙ ap (λ q. ok q s) e,
  )

  -- Let the frame's invariant hold, let the search have more rounds than there are free blocks, let
  -- a request of 1 up to 2^63 - 1 bytes find no block in the free list that fits, and let the heap
  -- have room for the block and another 8192 bytes. Then `kumalloc` returns, without a fault, the
  -- address behind a header that it puts where the last block ends; the frame's invariant holds
  -- again, the header holds the size, and no other byte, and neither the free list's head nor the
  -- test framework's lists, changed.
  pub kumalloc-Extended :
      IsFrame s
      → first_fit (total_of size) bs ≡ 0
      → s.brk.cur_brk + total_of size + 8192 ≤ s.brk.heap + s.brk.max_brk_size
      → Returns
          (λ p t. (p ≡ s.alloc.block_end + 8) × Extended s (total_of size) s.alloc.block_end t)
          (kumalloc os k size s)
  kumalloc-Extended v none_fits room =
      let (_, large, _, _) = total_of_bounds size pos small in
      rw (kumalloc_run 0 none_fits) (
        Returns-bind (extend-Extended s v (total_of size) large os k room) λ b t x. returns (
          add64_exact b 8 (omega (arith, x.at, v.counted, v.break.below, v.break.small))
              ∙ ap (λ q. q + 8) x.at,
          subst (λ q. Extended s (total_of size) q t) x.at x,
        ))

first_fit-head :
    (total : ℕ) (b : Block) (bs : List Block) → total ≤ b.size → first_fit total (b ∷ bs) ≡ b.addr
unfolding first_fit
first_fit-head total b bs h = rw (le→leb total b.size h)

module _ (os : Os) (k : ℕ) (s : System) (size : ℕ) (pos : 0 < size) (small : size < 2 ^ 63)
    (v : IsOpen s.brk) where
  -- Once the found block is cut out, its payload is what `kumalloc` returns.
  kumalloc_found :
      (bs : List Block) (b : ℕ)
      → FreeList s bs
      → s.alloc.head ≡ first_addr bs
      → length bs < k
      → first_fit (total_of size) bs ≡ b
      → b ≢ 0
      → kumalloc os k size s ≡ (do take_block k b (total_of size); pure (add64 b block_size)) s
  kumalloc_found bs b f at rounds fit ne =
      kumalloc_run os k s size pos small bs f at rounds b fit ∙ rw (ne→not_== b 0 ne)

  module _ (b : Block) (bs : List Block) (f : FreeList s (b ∷ bs)) (at : s.alloc.head ≡ b.addr)
      (rounds : length (b ∷ bs) < k) (lo : s.brk.heap ≤ b.addr) where
    -- Where the first free block is larger than the request needs by 24 bytes or more (and below 2
    -- GB, inside the heap, and apart from the other blocks' links and the next one's `prev`), its
    -- `prev` is a word, and the search has more rounds than there are free blocks, `kumalloc`
    -- returns its payload, and the free list goes on with what is left of that block in its place,
    -- the others unchanged. The rest gets the old `prev`, or its own size where 16 bytes were cut
    -- off; the `prev` of the block behind it stays what it was; bytes outside the block stay.
    pub kumalloc-Split :
        b.addr + b.size ≤ s.brk.cur_brk
        → total_of size + 24 ≤ b.size
        → b.size < 2 ^ 31
        → Clear b.addr (b.addr + b.size) bs
        → ClearPrev b.addr (b.addr + b.size) bs
        → (prev : ℕ) → PrevIs s.mem prev bs
        → load64 s.mem (b.addr + 16) < 2 ^ 64
        → Returns
            (λ p t. (p ≡ b.addr + 8) × Split s b bs (total_of size) t × PrevIs t.mem prev bs)
            (kumalloc os k size s)
    kumalloc-Split hi room little apart apart_prev prev linked word =
        let (_, large, _, aligned) = total_of_bounds size pos small in
        rw
          (kumalloc_found (b ∷ bs) b.addr f at rounds
            (first_fit-head (total_of size) b bs (omega arith)) f.0)
          (Returns-bind
            (take_block-Split s k b bs (total_of size) v f at lo hi large room little apart
              apart_prev prev linked word aligned)
            λ _ t (split, link).
              returns (add64_exact b.addr 8 (omega (arith, v.below, v.small)), split, link))

  -- An exact fit in the only free block (below 2 GB, and 16 bytes or more before the break), with
  -- two rounds or more, makes `kumalloc` zero the header of the block behind it and the first word
  -- of that block's contents.
  pub kumalloc_exact_fit_overwrites :
      (b : Block)
      → FreeList s (b ∷ [])
      → s.alloc.head ≡ b.addr
      → 1 < k
      → s.brk.heap ≤ b.addr
      → b.addr + b.size + 16 ≤ s.brk.cur_brk
      → total_of size ≡ b.size
      → b.size < 2 ^ 31
      → Returns
          (λ p t.
            (p ≡ b.addr + 8)
            × (load64 t.mem (b.addr + b.size) ≡ 0)
            × (load64 t.mem (b.addr + b.size + 8) ≡ 0))
          (kumalloc os k size s)
  kumalloc_exact_fit_overwrites b f at rounds lo hi exact little =
      let (_, large, _, _) = total_of_bounds size pos small in
      rw
        (
          kumalloc_found (b ∷ []) b.addr f at rounds
              (first_fit-head (total_of size) b [] (omega arith)) f.0,
          exact,
        )
        (Returns-bind (exact_fit_overwrites s k b f at v lo hi (omega arith) little)
          λ _ t (header, word, _, _).
            returns (add64_exact b.addr 8 (omega (arith, v.below, v.small)), header, word))

  -- Where the first block that fits is the last of two or more free blocks, the 16 bytes behind the
  -- part that is needed are below the break and, like that part, apart from the other links, and
  -- the loops have more rounds than there are free blocks, `kumalloc` writes through NULL and
  -- faults.
  pub kumalloc_last_fit_faults :
      (x : Block) (xs : List Block) (b : Block)
      → FreeList s (x ∷ xs ++ b ∷ [])
      → s.alloc.head ≡ x.addr
      → length (x ∷ xs ++ b ∷ []) < k
      → first_fit (total_of size) (x ∷ xs ++ b ∷ []) ≡ b.addr
      → b.addr ≢ 0
      → 24 ≤ s.brk.heap
      → s.brk.heap ≤ b.addr
      → b.addr + total_of size + 16 ≤ s.brk.cur_brk
      → Clear b.addr (b.addr + total_of size + 16) (x ∷ xs)
      → kumalloc os k size s ≡ fault
  kumalloc_last_fit_faults x xs b f at rounds fit ne low lo hi apart =
      let (_, large, _, _) = total_of_bounds size pos small in
      rw (
        kumalloc_found (x ∷ xs ++ b ∷ []) b.addr f at rounds fit ne,
        last_fit_faults s k (total_of size) x xs b f at v low lo hi large
            (omega (arith, length-append xs (b ∷ []))) apart,
      )
