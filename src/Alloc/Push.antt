-- ===== src/Alloc/Push.antt =====
-- `kufree` of a block that neither ends the heap nor touches a free block: it goes to the front of
-- the free list.
use comp304_assignments.Prelude.{
  ℕ, zero, suc, ◌+◌, ◌^◌, ◌≤◌, ◌<◌, ◌≡◌, refl, ◌≢◌, sym, ap, subst, ◌∙◌, ◌⊎◌, inl, true, false,
  List, [], ◌∷◌, arith, eq→==, ne→not_==, length,
}
use comp304_assignments.Prelude.Words.{add64, sub64, sub64_exact}
use comp304_assignments.Machine.{Returns, returns, ok}
use comp304_assignments.Machine.Memory.{
  load64, store64, load64-store64, load64-store64_apart, store64_outside,
}
use comp304_assignments.Memlist.{Os}
use comp304_assignments.System.{System}
use comp304_assignments.System.Access.{is_mapped}
use comp304_assignments.System.Heap.{is_mapped_below, load-ok, store-ok}
use comp304_assignments.Intercept.Break.{IsOpen}
use comp304_assignments.Alloc.Free.{
  free_last, trim, trim_step, push_front, coalesce, insert_free, kufree,
}
use comp304_assignments.Alloc.Inv.{Block, FreeList, first_addr}
use comp304_assignments.Alloc.Take.{
  Clear, PrevIs, FreeList-store64, FreeList-alloc, first_addr_small,
}

-- No free block ends at `e`.
abbrev pub NoneEnds : ℕ → List Block → Type 0
NoneEnds e [] = Unit
NoneEnds e (c ∷ cs) = (add64 c.addr c.size ≢ e) × NoneEnds e cs

abbrev pub NoneStarts : ℕ → List Block → Type 0
NoneStarts e [] = Unit
NoneStarts e (c ∷ cs) = (c.addr ≢ e) × NoneStarts e cs

module _ (os : Os) (fuel : ℕ) (s : System) where
  trim_step-none :
      (c : Block)
      → is_mapped s.brk c.addr 8 ≡ true
      → load64 s.mem c.addr ≡ c.size
      → add64 c.addr c.size ≢ s.alloc.block_end
      → trim_step os fuel c.addr s ≡ ok tt s
  unfolding trim_step
  trim_step-none c m e ne =
      rw (load-ok s c.addr m, e, ne→not_== (add64 c.addr c.size) s.alloc.block_end ne)

  -- The loop of `kufree` over the free list gives nothing back where no free block ends the heap.
  pub trim-none :
      (k : ℕ) (bs : List Block)
      → FreeList s bs
      → NoneEnds s.alloc.block_end bs
      → length bs < k
      → trim os fuel k (first_addr bs) s ≡ ok tt s
  unfolding trim
  trim-none zero bs f ends h = absurd (omega arith)
  trim-none (suc k) [] f ends h = refl
  trim-none (suc k) (c ∷ cs) f ends h =
      rw (ne→not_== c.addr 0 f.0, trim_step-none c f.1 f.3 ends.0, load-ok s (c.addr + 8) f.2, f.4)
        (trim-none k cs f.5 ends.1 (omega arith))

module _ (s : System) (b : Block) (m : is_mapped s.brk b.addr 8 ≡ true)
    (size : load64 s.mem b.addr ≡ b.size) where
  -- No free block is a neighbour of `b`.
  pub coalesce-none :
      (fuel k : ℕ) (bs : List Block)
      → FreeList s bs
      → NoneEnds b.addr bs
      → NoneStarts (add64 b.addr b.size) bs
      → length bs < k
      → coalesce fuel k b.addr (first_addr bs) s ≡ push_front b.addr s
  unfolding coalesce
  coalesce-none fuel zero bs f ends starts h = absurd (omega arith)
  coalesce-none fuel (suc k) [] f ends starts h = refl
  coalesce-none fuel (suc k) (c ∷ cs) f ends starts h =
      rw
        (
          ne→not_== c.addr 0 f.0,
          load-ok s c.addr f.1,
          f.3,
          load-ok s b.addr m,
          size,
          ne→not_== (add64 c.addr c.size) b.addr ends.0,
          ne→not_== (add64 b.addr b.size) c.addr (λ e. starts.0 (sym e)),
          load-ok s (c.addr + 8) f.2,
          f.4,
        )
        (coalesce-none fuel k cs f.5 ends.1 starts.1 (omega arith))

-- A block that does not end the heap, with no free block that does: `kufree` goes on to the list.
module _ (s : System) (b : Block) (v : IsOpen s.brk) (lo : s.brk.heap ≤ b.addr)
    (hi : b.addr + 8 ≤ s.brk.cur_brk) (size : load64 s.mem b.addr ≡ b.size)
    (not_last : s.alloc.block_end ≢ add64 b.addr b.size) where
  free_last-false : (os : Os) (k : ℕ) → free_last os k b.addr s ≡ ok false s
  unfolding free_last
  free_last-false os k = rw (
    load-ok s b.addr (is_mapped_below s.brk b.addr 8 lo hi),
    size,
    ne→not_== s.alloc.block_end (add64 b.addr b.size) not_last,
  )

  pub kufree-insert_free :
      (os : Os) (k : ℕ) (bs : List Block)
      → FreeList s bs
      → s.alloc.head ≡ first_addr bs
      → length bs < k
      → NoneEnds s.alloc.block_end bs
      → kufree os k (b.addr + 8) s ≡ insert_free k b.addr s
  unfolding kufree
  kufree-insert_free os k bs f at rounds none_last =
      let small : b.addr + 8 < 2 ^ 64 = omega (arith, v.below, v.small) in
      let back : sub64 (b.addr + 8) 8 ≡ b.addr =
        sub64_exact (b.addr + 8) 8 (omega arith) small ∙ omega arith in
      rw (
        ne→not_== (b.addr + 8) 0 (omega arith),
        back,
        free_last-false os k,
        ap (λ p. trim os k k p s) at ∙ trim-none os k s k bs f none_last rounds,
      )

-- The first free block's `prev` can be written, and is part neither of `b` nor of another link.
abbrev pub HasPrev : System → Block → List Block → Type 0
HasPrev s b [] = Unit
HasPrev s b (c ∷ cs) =
    (is_mapped s.brk (c.addr + 16) 8 ≡ true) × Clear (c.addr + 16) (c.addr + 24) (b ∷ cs)

-- The block `b` stands in front of the blocks `bs`; only its `next` and the old head's `prev` were
-- written.
pub record Pushed (s : System) (b : Block) (bs : List Block) (t : System) : Type 0 where
  pub list : FreeList t (b ∷ bs)
  pub behind : PrevIs t.mem b.addr bs
  pub head : t.alloc.head ≡ b.addr
  pub end : t.alloc.block_end ≡ s.alloc.block_end
  pub available : t.alloc.available_memory ≡ s.alloc.available_memory
  pub brk : t.brk ≡ s.brk
  pub others :
      (x : ℕ)
      → (x < b.addr + 8) ⊎ (b.addr + 16 ≤ x)
      → (x < first_addr bs + 16) ⊎ (first_addr bs + 24 ≤ x)
      → t.mem x ≡ s.mem x

module _ (s : System) (b : Block) (v : IsOpen s.brk) (lo : s.brk.heap ≤ b.addr)
    (hi : b.addr + 16 ≤ s.brk.cur_brk) (size : load64 s.mem b.addr ≡ b.size) where
  abbrev headed : System → System
  headed t = record t { alloc = record t.alloc { head = b.addr } }

  -- `b` with its `next` written
  abbrev linked : ℕ → System
  linked p = record s { mem = store64 s.mem (b.addr + 8) p }

  mapped_size : is_mapped s.brk b.addr 8 ≡ true
  mapped_size = is_mapped_below s.brk b.addr 8 lo (omega arith)

  mapped_next : is_mapped s.brk (b.addr + 8) 8 ≡ true
  mapped_next = is_mapped_below s.brk (b.addr + 8) 8 (omega arith) (omega arith)

  -- The run of `push_front`, whatever the list's head is.
  push_front_ok :
      is_mapped s.brk (s.alloc.head + 16) 8 ≡ true
      → push_front b.addr s
        ≡ ok tt (
            headed
              (record s { mem = store64 (linked s.alloc.head).mem (s.alloc.head + 16) b.addr }))
  unfolding push_front
  push_front_ok m = rw (
    store-ok s (b.addr + 8) s.alloc.head mapped_next,
    store-ok (linked s.alloc.head) (s.alloc.head + 16) b.addr m,
  )

  linked-FreeList :
      (bs : List Block)
      → FreeList s bs
      → Clear (b.addr + 8) (b.addr + 16) bs
      → FreeList (linked (first_addr bs)) (b ∷ bs)
  linked-FreeList bs f apart = (
    omega (arith, v.opened),
    mapped_size,
    mapped_next,
    load64-store64_apart s.mem (b.addr + 8) (first_addr bs) b.addr (omega arith) ∙ size,
    load64-store64 s.mem (b.addr + 8) (first_addr bs) (first_addr_small s bs v f),
    FreeList-store64 s (b.addr + 8) (first_addr bs) (b.addr + 8) (b.addr + 16) bs f apart
        (omega arith) (omega arith),
  )

  -- The list was empty.
  Pushed-nil : Pushed s b [] (headed (linked 0))
  Pushed-nil = record {
    list = FreeList-alloc (linked 0) (headed s).alloc (b ∷ []) (linked-FreeList [] tt tt);
    behind = tt;
    head = refl;
    end = refl;
    available = refl;
    brk = refl;
    others = λ x h _. store64_outside s.mem (b.addr + 8) 0 x (omega arith);
  }

  module _ (c : Block) (cs : List Block) (f : FreeList s (c ∷ cs))
      (apart : Clear (b.addr + 8) (b.addr + 16) (c ∷ cs)) (prev : HasPrev s b (c ∷ cs)) where
    abbrev pushed : System
    pushed = record s { mem = store64 (linked c.addr).mem (c.addr + 16) b.addr }

    push_front_run : s.alloc.head ≡ c.addr → push_front b.addr s ≡ ok tt (headed pushed)
    push_front_run at =
        push_front_ok (subst (λ p. is_mapped s.brk (p + 16) 8 ≡ true) (sym at) prev.0)
        ∙ ap
            (λ p.
              ok tt (
                headed (record s { mem = store64 (store64 s.mem (b.addr + 8) p) (p + 16) b.addr })))
            at

    pushed-FreeList : FreeList pushed (b ∷ c ∷ cs)
    pushed-FreeList =
        FreeList-store64 (linked c.addr) (c.addr + 16) b.addr (c.addr + 16) (c.addr + 24)
          (b ∷ c ∷ cs) (linked-FreeList (c ∷ cs) f apart) (prev.1.0, (inl (omega arith), prev.1.1))
          (omega arith) (omega arith)

    Pushed-cons : Pushed s b (c ∷ cs) (headed pushed)
    Pushed-cons = record {
      list = FreeList-alloc pushed (headed s).alloc (b ∷ c ∷ cs) pushed-FreeList;
      behind =
          load64-store64 (linked c.addr).mem (c.addr + 16) b.addr (omega (arith, v.below, v.small));
      head = refl;
      end = refl;
      available = refl;
      brk = refl;
      others = λ x h h'.
          store64_outside (linked c.addr).mem (c.addr + 16) b.addr x (omega arith)
          ∙ store64_outside s.mem (b.addr + 8) c.addr x (omega arith);
    }

  insert_free-Pushed :
      (k : ℕ) (bs : List Block)
      → FreeList s bs
      → s.alloc.head ≡ first_addr bs
      → length bs < k
      → Clear (b.addr + 8) (b.addr + 16) bs
      → HasPrev s b bs
      → NoneEnds b.addr bs
      → NoneStarts (add64 b.addr b.size) bs
      → Returns (λ _ t. Pushed s b bs t) (insert_free k b.addr s)
  unfolding insert_free
  insert_free-Pushed k [] f at rounds apart prev ends starts =
      rw (eq→== s.alloc.head 0 at, store-ok s (b.addr + 8) 0 mapped_next) (returns Pushed-nil)
  insert_free-Pushed k (c ∷ cs) f at rounds apart prev ends starts =
      rw
        (
          ne→not_== s.alloc.head 0 (λ e. f.0 (sym at ∙ e)),
          ap (λ p. coalesce k k b.addr p s) at
              ∙ coalesce-none s b mapped_size size k k (c ∷ cs) f ends starts rounds
              ∙ push_front_run c cs f apart prev at,
        )
        (returns (Pushed-cons c cs f apart prev))

  module _ (k : ℕ) (bs : List Block) (f : FreeList s bs) (at : s.alloc.head ≡ first_addr bs)
      (rounds : length bs < k) (apart : Clear (b.addr + 8) (b.addr + 16) bs) (prev : HasPrev s b bs)
      (ends : NoneEnds b.addr bs) (starts : NoneStarts (add64 b.addr b.size) bs) where
    -- Where a block neither ends the heap nor touches a free block, and no free block ends the
    -- heap, `kufree` makes it the first of the free list, before the others in their order, and the
    -- `prev` of the old head is the block. Only its `next` and that `prev` are written. The block
    -- is inside the heap, what is written lies apart from the other links, and the loops have more
    -- rounds than there are free blocks.
    pub kufree-Pushed :
        (os : Os)
        → s.alloc.block_end ≢ add64 b.addr b.size
        → NoneEnds s.alloc.block_end bs
        → Returns (λ _ t. Pushed s b bs t) (kufree os k (b.addr + 8) s)
    kufree-Pushed os not_last none_last =
        rw (kufree-insert_free s b v lo (omega arith) size not_last os k bs f at rounds none_last)
          (insert_free-Pushed k bs f at rounds apart prev ends starts)
