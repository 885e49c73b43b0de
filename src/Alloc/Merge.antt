-- ===== src/Alloc/Merge.antt =====
-- `kufree` of a block right behind a free one: the two become one.
use comp304_assignments.Prelude.{
  ℕ, zero, suc, ◌+◌, ◌^◌, ◌≤◌, ◌<◌, ◌≡◌, refl, ◌≢◌, sym, ap, ◌∙◌, ◌⊎◌, false, true, List, [], ◌∷◌,
  ◌++◌, arith, eq→==, ne→not_==, length, length-append,
}
use comp304_assignments.Prelude.Words.{add64, size_of_int-add_int}
use comp304_assignments.Machine.{Returns, returns, ok}
use comp304_assignments.Machine.Memory.{
  load64, store64, load64-store64, load64-store64_apart, store64_outside,
}
use comp304_assignments.Memlist.{Os}
use comp304_assignments.System.{System}
use comp304_assignments.System.Access.{is_mapped}
use comp304_assignments.System.Heap.{is_mapped_below, load-ok, store-ok}
use comp304_assignments.Intercept.Break.{IsOpen}
use comp304_assignments.Alloc.Free.{three_after, merge_after, coalesce, insert_free, kufree}
use comp304_assignments.Alloc.Inv.{Block, FreeList, first_addr}
use comp304_assignments.Alloc.Take.{Clear, FreeList-store64}
use comp304_assignments.Alloc.Push.{NoneEnds, NoneStarts, kufree-insert_free}

-- No free block starts where the freed one ends.
three_after-false :
    (s : System) (k temp b e : ℕ) (bs : List Block)
    → FreeList s bs
    → NoneStarts e bs
    → length bs < k
    → three_after k temp b e (first_addr bs) s ≡ ok false s
unfolding three_after
three_after-false s zero temp b e bs f starts h = absurd (omega arith)
three_after-false s (suc k) temp b e [] f starts h = refl
three_after-false s (suc k) temp b e (c ∷ []) f starts h =
    rw (ne→not_== c.addr 0 f.0, ne→not_== c.addr e starts.0, load-ok s (c.addr + 8) f.2, f.4)
three_after-false s (suc k) temp b e (c ∷ d ∷ ds) f starts h =
    rw
      (
        ne→not_== c.addr 0 f.0,
        ne→not_== c.addr e starts.0,
        load-ok s (c.addr + 8) f.2,
        f.4,
        ne→not_== d.addr 0 f.5.0,
      )
      (three_after-false s k temp b e (d ∷ ds) f.5 starts.1 (omega arith))

first_addr-append :
    (xs ys zs : List Block)
    → first_addr ys ≡ first_addr zs
    → first_addr (xs ++ ys) ≡ first_addr (xs ++ zs)
first_addr-append [] ys zs e = e
first_addr-append (x ∷ xs) ys zs e = refl

module _ (s : System) (c : Block) (n : ℕ) (small : n < 2 ^ 64) where
  abbrev resized : System
  resized = record s { mem = store64 s.mem c.addr n }

  abbrev wider : Block
  wider = record { addr = c.addr; size = n }

  -- The list after one block's size changed.
  FreeList-resized :
      (xs ys : List Block)
      → FreeList s (xs ++ c ∷ ys)
      → Clear c.addr (c.addr + 8) xs
      → Clear c.addr (c.addr + 8) ys
      → FreeList resized (xs ++ wider ∷ ys)
  FreeList-resized [] ys f a b = (
    f.0,
    f.1,
    f.2,
    load64-store64 s.mem c.addr n small,
    load64-store64_apart s.mem c.addr n (c.addr + 8) (omega arith) ∙ f.4,
    FreeList-store64 s c.addr n c.addr (c.addr + 8) ys f.5 b (omega arith) (omega arith),
  )
  FreeList-resized (x ∷ xs) ys f a b = (
    f.0,
    f.1,
    f.2,
    load64-store64_apart s.mem c.addr n x.addr (omega arith) ∙ f.3,
    load64-store64_apart s.mem c.addr n (x.addr + 8) (omega arith)
        ∙ f.4
        ∙ first_addr-append xs (c ∷ ys) (wider ∷ ys) refl,
    FreeList-resized xs ys f.5 a.1 b,
  )

-- The free block `c` grew by the freed one behind it; nothing else changed.
pub record Merged (s : System) (xs : List Block) (c : Block) (n : ℕ) (ys : List Block) (t : System)
    : Type 0 where
  pub list : FreeList t (xs ++ record { addr = c.addr; size = c.size + n } ∷ ys)
  pub alloc : t.alloc ≡ s.alloc
  pub brk : t.brk ≡ s.brk
  pub others : (x : ℕ) → (x < c.addr) ⊎ (c.addr + 8 ≤ x) → t.mem x ≡ s.mem x

module _ (s : System) (b : Block) (v : IsOpen s.brk) (lo : s.brk.heap ≤ b.addr)
    (hi : b.addr + 8 ≤ s.brk.cur_brk) (size : load64 s.mem b.addr ≡ b.size) (xs : List Block)
    (c : Block) (ys : List Block) (f : FreeList s (xs ++ c ∷ ys))
    (touch : add64 c.addr c.size ≡ b.addr) (little : c.size + b.size < 2 ^ 31)
    (before : Clear c.addr (c.addr + 8) xs) (behind : Clear c.addr (c.addr + 8) ys)
    (starts : NoneStarts (add64 b.addr b.size) (xs ++ c ∷ ys)) where
  mapped : is_mapped s.brk b.addr 8 ≡ true
  mapped = is_mapped_below s.brk b.addr 8 lo hi

  -- The loop passes the blocks that are no neighbours and merges at `c`.
  coalesce_run :
      (fuel k : ℕ) (zs : List Block)
      → FreeList s (zs ++ c ∷ ys)
      → NoneEnds b.addr zs
      → NoneStarts (add64 b.addr b.size) (zs ++ c ∷ ys)
      → length zs < k
      → coalesce fuel k b.addr (first_addr (zs ++ c ∷ ys)) s
        ≡ merge_after fuel c.addr b.addr (add64 b.addr b.size) s
  unfolding coalesce
  coalesce_run fuel zero zs f ends starts h = absurd (omega arith)
  coalesce_run fuel (suc k) [] f ends starts h = rw (
    ne→not_== c.addr 0 f.0,
    load-ok s c.addr f.1,
    f.3,
    load-ok s b.addr mapped,
    eq→== (add64 c.addr c.size) b.addr touch,
    size,
  )
  coalesce_run fuel (suc k) (z ∷ zs) f ends starts h =
      rw
        (
          ne→not_== z.addr 0 f.0,
          load-ok s z.addr f.1,
          f.3,
          load-ok s b.addr mapped,
          size,
          ne→not_== (add64 z.addr z.size) b.addr ends.0,
          ne→not_== (add64 b.addr b.size) z.addr (λ e. starts.0 (sym e)),
          load-ok s (z.addr + 8) f.2,
          f.4,
        )
        (coalesce_run fuel k zs f.5 ends.1 starts.1 (omega arith))

  -- The block `c` in the list.
  at_c : (zs : List Block) → FreeList s (zs ++ c ∷ ys) → FreeList s (c ∷ ys)
  at_c [] f = f
  at_c (z ∷ zs) f = at_c zs f.5

  first_addr_ne_zero : (zs : List Block) → FreeList s (zs ++ c ∷ ys) → first_addr (zs ++ c ∷ ys) ≢ 0
  first_addr_ne_zero [] f = f.0
  first_addr_ne_zero (z ∷ zs) f = f.0

  merge_after_run :
      (k : ℕ)
      → s.alloc.head ≡ first_addr (xs ++ c ∷ ys)
      → length (xs ++ c ∷ ys) < k
      → merge_after k c.addr b.addr (add64 b.addr b.size) s
        ≡ ok tt (resized s c (c.size + b.size) (omega arith))
  unfolding merge_after
  merge_after_run k at rounds =
      let fc = at_c xs f in
      rw
        (
          ap (λ p. three_after k c.addr b.addr (add64 b.addr b.size) p s) at
              ∙ three_after-false s k c.addr b.addr (add64 b.addr b.size) (xs ++ c ∷ ys) f starts
                  rounds,
          load-ok s b.addr mapped,
          size,
          load-ok s c.addr fc.1,
          fc.3,
          size_of_int-add_int b.size c.size (omega arith),
          store-ok s c.addr (b.size + c.size) fc.1,
        )
        (ap (λ n. ok tt (record s { mem = store64 s.mem c.addr n })) (omega arith))

  module _ (os : Os) (k : ℕ) (at : s.alloc.head ≡ first_addr (xs ++ c ∷ ys))
      (rounds : length (xs ++ c ∷ ys) < k) (ends : NoneEnds b.addr xs)
      (not_last : s.alloc.block_end ≢ add64 b.addr b.size)
      (none_last : NoneEnds s.alloc.block_end (xs ++ c ∷ ys)) where
    -- Where a block of the heap does not end it and begins where a free block `c` ends (and no
    -- block before `c` in the list), no free block starts at its end, no free block ends the heap,
    -- the sizes are below 2 GB together, the size of `c` lies apart from the other links, and the
    -- loops have more rounds than there are free blocks, `kufree` adds the block's size to that of
    -- `c`, in its place in the list. Nothing else is written, and the allocator's variables stay.
    pub kufree-Merged : Returns (λ _ t. Merged s xs c b.size ys t) (kufree os k (b.addr + 8) s)
    unfolding insert_free
    kufree-Merged =
        rw
          (
            kufree-insert_free s b v lo hi size not_last os k (xs ++ c ∷ ys) f at rounds none_last,
            ne→not_== s.alloc.head 0 (λ e. first_addr_ne_zero xs f (sym at ∙ e)),
            ap (λ p. coalesce k k b.addr p s) at
                ∙ coalesce_run k k xs f ends starts (omega (arith, length-append xs (c ∷ ys)))
                ∙ merge_after_run k at rounds,
          )
          (returns record {
            list = FreeList-resized s c (c.size + b.size) (omega arith) xs ys f before behind;
            alloc = refl;
            brk = refl;
            others = λ x h. store64_outside s.mem c.addr (c.size + b.size) x h;
          })
