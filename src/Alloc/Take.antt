-- ===== src/Alloc/Take.antt =====
-- The branch of `kumalloc` that takes the first block of the free list, larger than asked for.
use comp304_assignments.Prelude.{
  ℕ, ◌+◌, ◌-◌, ◌%◌, ◌^◌, ◌≤◌, ◌<◌, ◌≡◌, refl, subst, sym, ap, ◌∙◌, ◌⊎◌, ◌≢◌, true, List, [], ◌∷◌,
  arith, eq→==, Bool-cases, inl, inr, ◌==◌, if◌then◌else◌, lt→ltb,
}
use comp304_assignments.Prelude.Words.{add64_exact, size_of_int-sub_int, is_positive_int-sub_int}
use comp304_assignments.Machine.{Returns, returns, ok}
use comp304_assignments.Machine.Memory.{
  Memory, load64, store64, load64-store64, load64-store64_apart, store64_outside,
}
use comp304_assignments.System.{System, Allocator}
use comp304_assignments.System.Access.{is_mapped}
use comp304_assignments.System.Heap.{is_mapped_below, mapped_small, load-ok, store-ok}
use comp304_assignments.Intercept.Break.{IsOpen}
use comp304_assignments.Alloc.Malloc.{take_block}
use comp304_assignments.Alloc.Inv.{Block, FreeList, first_addr}

-- The links of the blocks lie outside the bytes from `lo` up to `hi`.
abbrev pub Clear : (lo hi : ℕ) → List Block → Type 0
Clear lo hi [] = Unit
Clear lo hi (b ∷ bs) = ((b.addr + 16 ≤ lo) ⊎ (hi ≤ b.addr)) × Clear lo hi bs

-- The `prev` of the first of the blocks, if there is one.
abbrev pub PrevIs : Memory → ℕ → List Block → Type 0
PrevIs m p [] = Unit
PrevIs m p (c ∷ cs) = load64 m (c.addr + 16) ≡ p

-- That field lies outside the bytes from `lo` up to `hi`.
abbrev pub ClearPrev : (lo hi : ℕ) → List Block → Type 0
ClearPrev lo hi [] = Unit
ClearPrev lo hi (c ∷ cs) = (c.addr + 24 ≤ lo) ⊎ (hi ≤ c.addr)

pub PrevIs-store64 :
    (m : Memory) (a v lo hi p : ℕ) (bs : List Block)
    → PrevIs m p bs
    → ClearPrev lo hi bs
    → lo ≤ a
    → a + 8 ≤ hi
    → PrevIs (store64 m a v) p bs
PrevIs-store64 m a v lo hi p [] e c h h' = tt
PrevIs-store64 m a v lo hi p (b ∷ bs) e c h h' =
    load64-store64_apart m a v (b.addr + 16) (omega arith) ∙ e

-- What is copied to the `prev` of the rest of a cut block. A cut of 16 bytes writes the rest's size
-- over the old `prev` first.
abbrev pub cut_prev : System → Block → ℕ → ℕ
cut_prev s b total = if total == 16 then b.size - 16 else load64 s.mem (b.addr + 16)

-- A free list survives a write that spares its links.
pub FreeList-store64 :
    (s : System) (a v lo hi : ℕ) (bs : List Block)
    → FreeList s bs
    → Clear lo hi bs
    → lo ≤ a
    → a + 8 ≤ hi
    → FreeList (record s { mem = store64 s.mem a v }) bs
FreeList-store64 s a v lo hi [] f c h h' = tt
FreeList-store64 s a v lo hi (b ∷ bs) f c h h' = (
  f.0,
  f.1,
  f.2,
  load64-store64_apart s.mem a v b.addr (omega arith) ∙ f.3,
  load64-store64_apart s.mem a v (b.addr + 8) (omega arith) ∙ f.4,
  FreeList-store64 s a v lo hi bs f.5 c.1 h h',
)

-- The list does not depend on the allocator's own variables.
pub FreeList-alloc :
    (s : System) (a : Allocator) (bs : List Block)
    → FreeList s bs
    → FreeList (record s { alloc = a }) bs
FreeList-alloc s a [] f = tt
FreeList-alloc s a (b ∷ bs) f = (f.0, f.1, f.2, f.3, f.4, FreeList-alloc s a bs f.5)

pub first_addr_small :
    (s : System) (bs : List Block) → IsOpen s.brk → FreeList s bs → first_addr bs < 2 ^ 64
first_addr_small s [] v f = omega arith
first_addr_small s (b ∷ bs) v f = mapped_small s.brk b.addr 8 (omega (arith, v.below, v.small)) f.1

-- The outcome of cutting `total` bytes off the first block.
pub record Split (s : System) (b : Block) (bs : List Block) (total : ℕ) (t : System) : Type 0 where
  pub head : t.alloc.head ≡ b.addr + total
  pub list : FreeList t (record { addr = b.addr + total; size = b.size - total } ∷ bs)
  pub prev : load64 t.mem (b.addr + total + 16) ≡ cut_prev s b total
  pub header : load64 t.mem b.addr ≡ total
  pub others : (x : ℕ) → (x < b.addr) ⊎ (b.addr + b.size ≤ x) → t.mem x ≡ s.mem x
  pub rest : t.brk ≡ s.brk

module _ (s : System) (k : ℕ) (b : Block) (bs : List Block) (total : ℕ) (v : IsOpen s.brk)
    (f : FreeList s (b ∷ bs)) (at : s.alloc.head ≡ b.addr) (lo : s.brk.heap ≤ b.addr)
    (hi : b.addr + b.size ≤ s.brk.cur_brk) (large : 16 ≤ total) (room : total + 24 ≤ b.size)
    (small : b.size < 2 ^ 31) (apart : Clear b.addr (b.addr + b.size) bs)
    (apart_prev : ClearPrev b.addr (b.addr + b.size) bs) (p : ℕ) (prev : PrevIs s.mem p bs)
    (word : load64 s.mem (b.addr + 16) < 2 ^ 64) (aligned : total % 8 ≡ 0) where
  abbrev q : ℕ
  q = b.addr + total

  abbrev next : ℕ
  next = first_addr bs

  mapped : (a : ℕ) → b.addr ≤ a → a + 8 ≤ b.addr + b.size → is_mapped s.brk a 8 ≡ true
  mapped a h h' = is_mapped_below s.brk a 8 (omega arith) (omega arith)

  -- The memory after each of the five stores.
  abbrev m1 : Memory
  m1 = store64 s.mem (q + 8) 0

  abbrev m2 : Memory
  m2 = store64 m1 q (b.size - total)

  abbrev m3 : Memory
  m3 = store64 m2 b.addr total

  abbrev m4 : Memory
  m4 = store64 m3 (q + 8) next

  abbrev m5 : Memory
  m5 = store64 m4 (q + 16) (load64 m4 (b.addr + 16))

  abbrev with_mem : Memory → System
  with_mem m = record s { mem = m }

  abbrev after : System
  after = record s { mem = m5; alloc = record s.alloc { head = q } }

  size_kept : load64 m1 b.addr ≡ b.size
  size_kept = load64-store64_apart s.mem (q + 8) 0 b.addr (omega arith) ∙ f.3

  next_kept : load64 m3 (b.addr + 8) ≡ next
  next_kept =
      load64-store64_apart m2 b.addr total (b.addr + 8) (omega arith)
      ∙ load64-store64_apart m1 q _ (b.addr + 8) (omega arith)
      ∙ load64-store64_apart s.mem (q + 8) 0 (b.addr + 8) (omega arith)
      ∙ f.4

  at_head : (d : ℕ) → d + 8 ≤ b.size → is_mapped s.brk (s.alloc.head + d) 8 ≡ true
  at_head d h =
      subst (λ a. is_mapped s.brk (a + d) 8 ≡ true) (sym at)
        (mapped (b.addr + d) (omega arith) (omega arith))

  take_block_run : take_block k b.addr total s ≡ ok tt after
  unfolding take_block
  take_block_run = rw (
    add64_exact b.addr total (omega (arith, v.below, v.small)),
    store-ok s (q + 8) 0 (mapped (q + 8) (omega arith) (omega arith)),
    load-ok (with_mem m1) b.addr f.1,
    size_kept,
    size_of_int-sub_int b.size total (omega arith) small,
    store-ok (with_mem m1) q (b.size - total) (mapped q (omega arith) (omega arith)),
    store-ok (with_mem m2) b.addr total f.1,
    eq→== s.alloc.head b.addr at,
    is_positive_int-sub_int b.size total (omega arith) small,
    lt→ltb total b.size (omega arith),
    load-ok (with_mem m3) (s.alloc.head + 8) (at_head 8 (omega arith)),
    ap (λ a. load64 m3 (a + 8)) at,
    next_kept,
    store-ok (with_mem m3) (q + 8) next (mapped (q + 8) (omega arith) (omega arith)),
    load-ok (with_mem m4) (s.alloc.head + 16) (at_head 16 (omega arith)),
    ap (λ a. load64 m4 (a + 16)) at,
    store-ok (with_mem m4) (q + 16) _ (mapped (q + 16) (omega arith) (omega arith)),
  )

  tail_kept : FreeList (with_mem m5) bs
  tail_kept =
      let keep =
        λ (m : Memory) (a w : ℕ) (g : FreeList (with_mem m) bs) (h : b.addr ≤ a)
            (h' : a + 8 ≤ b.addr + b.size).
          FreeList-store64 (with_mem m) a w b.addr (b.addr + b.size) bs g apart h h' in
      keep m4 (q + 16) _
        (keep m3 (q + 8) next
          (keep m2 b.addr total
            (keep m1 q (b.size - total) (keep s.mem (q + 8) 0 f.5 (omega arith) (omega arith))
              (omega arith) (omega arith))
            (omega arith) (omega arith))
          (omega arith) (omega arith))
        (omega arith) (omega arith)

  prev_kept : PrevIs m5 p bs
  prev_kept =
      let keep =
        λ (m : Memory) (a w : ℕ) (g : PrevIs m p bs) (h : b.addr ≤ a)
            (h' : a + 8 ≤ b.addr + b.size).
          PrevIs-store64 m a w b.addr (b.addr + b.size) p bs g apart_prev h h' in
      keep m4 (q + 16) _
        (keep m3 (q + 8) next
          (keep m2 b.addr total
            (keep m1 q (b.size - total) (keep s.mem (q + 8) 0 prev (omega arith) (omega arith))
              (omega arith) (omega arith))
            (omega arith) (omega arith))
          (omega arith) (omega arith))
        (omega arith) (omega arith)

  -- The two stores between that spare the old `prev`, whatever the cut is.
  prev_read : load64 m4 (b.addr + 16) ≡ load64 m2 (b.addr + 16)
  prev_read =
      load64-store64_apart m3 (q + 8) next (b.addr + 16) (omega arith)
      ∙ load64-store64_apart m2 b.addr total (b.addr + 16) (omega arith)

  prev_cut : load64 m2 (b.addr + 16) ≡ cut_prev s b total
  prev_cut = elim (Bool-cases (total == 16)) [
    | inl t ↦
        let e : total ≡ 16 = ground arith in
        let there : b.addr + 16 ≡ q = omega arith in
        ap (load64 m2) there
        ∙ load64-store64 m1 q (b.size - total) (omega arith)
        ∙ ap (λ n. b.size - n) e
        ∙ sym (rw t)
    | inr f ↦
        let ne : total ≢ 16 = ground arith in
        load64-store64_apart m1 q _ (b.addr + 16) (omega arith)
        ∙ load64-store64_apart s.mem (q + 8) 0 (b.addr + 16) (omega arith)
        ∙ sym (rw f)
  ]

  cut_prev_small : cut_prev s b total < 2 ^ 64
  cut_prev_small = elim (Bool-cases (total == 16)) [
    | inl t ↦ rw t (omega arith)
    | inr f ↦ rw f word
  ]

  -- Cutting a block off the front of the free list leaves the list with the rest of that block in
  -- front, and touches only that block's bytes.
  pub take_block-Split :
      Returns (λ _ t. Split s b bs total t × PrevIs t.mem p bs) (take_block k b.addr total s)
  take_block-Split = rw take_block_run (
      returns (
        record {
          head = refl;
          prev =
              ap (λ w. load64 (store64 m4 (q + 16) w) (q + 16)) (prev_read ∙ prev_cut)
              ∙ load64-store64 m4 (q + 16) (cut_prev s b total) cut_prev_small;
          list = (
            omega arith,
            mapped q (omega arith) (omega arith),
            mapped (q + 8) (omega arith) (omega arith),
            load64-store64_apart m4 (q + 16) _ q (omega arith)
                ∙ load64-store64_apart m3 (q + 8) next q (omega arith)
                ∙ load64-store64_apart m2 b.addr total q (omega arith)
                ∙ load64-store64 m1 q (b.size - total) (omega arith),
            load64-store64_apart m4 (q + 16) _ (q + 8) (omega arith)
                ∙ load64-store64 m3 (q + 8) next (first_addr_small s bs v f.5),
            FreeList-alloc (with_mem m5) (record s.alloc { head = q }) bs tail_kept,
          );
          header =
              load64-store64_apart m4 (q + 16) _ b.addr (omega arith)
              ∙ load64-store64_apart m3 (q + 8) next b.addr (omega arith)
              ∙ load64-store64 m2 b.addr total (omega arith);
          others = λ x h.
              store64_outside m4 (q + 16) _ x (omega arith)
              ∙ store64_outside m3 (q + 8) next x (omega arith)
              ∙ store64_outside m2 b.addr total x (omega arith)
              ∙ store64_outside m1 q _ x (omega arith)
              ∙ store64_outside s.mem (q + 8) 0 x (omega arith);
          rest = refl;
        },
        prev_kept,
      ))
