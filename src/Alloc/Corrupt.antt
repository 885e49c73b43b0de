-- ===== src/Alloc/Corrupt.antt =====
-- Two faults of `kumalloc` when it reuses a free block: an exact fit overwrites what follows the
-- block, and a fit in the last element of a longer list writes through NULL.
use comp304_assignments.Prelude.{
  ℕ, zero, suc, ◌+◌, ◌-◌, ◌^◌, ◌≤◌, ◌<◌, ◌≡◌, refl, sym, ap, subst, ◌∙◌, ◌⊎◌, inl, inr, true, List,
  [], ◌∷◌, ◌++◌, arith, eq→==, ne→not_==, length, Bool-cases, le→not_ltb,
}
use comp304_assignments.Prelude.Words.{
  sub_int, size_of_int, is_positive_int, add64_exact, size_of_int-sub_int, is_positive_int-sub_int,
}
use comp304_assignments.Machine.{Returns, returns, ok, fault}
use comp304_assignments.Machine.Memory.{
  Memory, load64, store64, load64-store64, load64-store64_apart,
}
use comp304_assignments.System.{System}
use comp304_assignments.System.Access.{is_mapped}
use comp304_assignments.System.Heap.{
  is_mapped_below, not_mapped_below, load-ok, store-ok, store-fault,
}
use comp304_assignments.Intercept.Break.{IsOpen}
use comp304_assignments.Alloc.Malloc.{take_block, take_inner, split_after, unlink_after}
use comp304_assignments.Alloc.Inv.{Block, FreeList}
use comp304_assignments.Alloc.Take.{Clear}

module _ (s : System) (k : ℕ) (b : Block) (f : FreeList s (b ∷ [])) (at : s.alloc.head ≡ b.addr)
    (v : IsOpen s.brk) (lo : s.brk.heap ≤ b.addr) (hi : b.addr + b.size + 16 ≤ s.brk.cur_brk)
    (large : 16 ≤ b.size) (small : b.size < 2 ^ 31) where
  abbrev q : ℕ
  q = b.addr + b.size

  abbrev m1 : Memory
  m1 = store64 s.mem (q + 8) 0

  abbrev m2 : Memory
  m2 = store64 m1 q 0

  abbrev m3 : Memory
  m3 = store64 m2 b.addr b.size

  exact_run :
      take_block k b.addr b.size s
      ≡ ok tt (record s { mem = m3; alloc = record s.alloc { head = 0 } })
  unfolding take_block
  exact_run = rw (
    add64_exact b.addr b.size (omega (arith, v.below, v.small)),
    store-ok s (q + 8) 0 (is_mapped_below s.brk (q + 8) 8 (omega arith) (omega arith)),
    load-ok (record s { mem = m1 }) b.addr f.1,
    load64-store64_apart s.mem (q + 8) 0 b.addr (omega arith) ∙ f.3,
    size_of_int-sub_int b.size b.size (omega arith) small ∙ none_left,
    store-ok (record s { mem = m1 }) q 0 (is_mapped_below s.brk q 8 (omega arith) (omega arith)),
    store-ok (record s { mem = m2 }) b.addr b.size f.1,
    eq→== s.alloc.head b.addr at,
    is_positive_int-sub_int b.size b.size (omega arith) small,
    le→not_ltb b.size b.size (omega arith),
    load-ok (record s { mem = m3 }) (s.alloc.head + 8)
        (subst (λ a. is_mapped s.brk (a + 8) 8 ≡ true) (sym at) f.2),
    ap (λ a. load64 m3 (a + 8)) at,
    next_kept,
  )
    where
      none_left : b.size - b.size ≡ 0
      none_left = omega arith

      next_kept : load64 m3 (b.addr + 8) ≡ 0
      next_kept =
          load64-store64_apart m2 b.addr b.size (b.addr + 8) (omega arith)
          ∙ load64-store64_apart m1 q 0 (b.addr + 8) (omega arith)
          ∙ load64-store64_apart s.mem (q + 8) 0 (b.addr + 8) (omega arith)
          ∙ f.4

  -- Where the only free block has exactly the size asked for, `kumalloc` zeroes the sixteen bytes
  -- behind it: the header of the block that follows and the first word of its contents.
  pub exact_fit_overwrites :
      Returns
        (λ _ t.
          (load64 t.mem (b.addr + b.size) ≡ 0)
          × (load64 t.mem (b.addr + b.size + 8) ≡ 0)
          × (load64 t.mem b.addr ≡ b.size)
          × (t.alloc.head ≡ 0))
        (take_block k b.addr b.size s)
  exact_fit_overwrites = rw exact_run (
      returns (
        load64-store64_apart m2 b.addr b.size q (omega arith) ∙ load64-store64 m1 q 0 (omega arith),
        load64-store64_apart m2 b.addr b.size (q + 8) (omega arith)
            ∙ load64-store64_apart m1 q 0 (q + 8) (omega arith)
            ∙ load64-store64 s.mem (q + 8) 0 (omega arith),
        load64-store64 m2 b.addr b.size (omega arith),
        refl,
      ))

-- The walk of `kumalloc` to a block that is the last of the list.
module _ (k q : ℕ) (b : Block) (positive : ℕ) (qlarge : b.addr + 16 ≤ q) where
  module _ (s : System) (x : Block) (f : FreeList s (x ∷ b ∷ [])) (low : 24 ≤ s.brk.heap) where
    unlink_faults : unlink_after x.addr s ≡ fault
    unfolding unlink_after
    unlink_faults = rw (
      load-ok s (x.addr + 8) f.2,
      f.4,
      load-ok s (b.addr + 8) f.5.2,
      f.5.4,
      store-fault s 16 x.addr (not_mapped_below s.brk 16 8 (omega arith)),
    )

    split_faults :
        (x.addr + 16 ≤ b.addr) ⊎ (q + 16 ≤ x.addr)
        → is_mapped s.brk (q + 8) 8 ≡ true
        → split_after x.addr q s ≡ fault
    unfolding split_after
    split_faults c mq =
        let s1 : System = record s { mem = store64 s.mem (q + 8) 0 } in
        rw (
          load-ok s (x.addr + 8) f.2,
          f.4,
          load-ok s (b.addr + 8) f.5.2,
          f.5.4,
          store-ok s (q + 8) 0 mq,
          load-ok s1 (x.addr + 8) f.2,
          load64-store64_apart s.mem (q + 8) 0 (x.addr + 8) (omega arith) ∙ f.4,
          load-ok s1 (b.addr + 8) f.5.2,
          load64-store64_apart s.mem (q + 8) 0 (b.addr + 8) (omega arith) ∙ f.5.4,
          store-fault s1 16 q (not_mapped_below s.brk 16 8 (omega arith)),
        )

  walk_faults :
      (s : System) (rounds : ℕ) (x : Block) (xs : List Block)
      → FreeList s (x ∷ xs ++ b ∷ [])
      → Clear b.addr (q + 16) (x ∷ xs)
      → 24 ≤ s.brk.heap
      → is_mapped s.brk (q + 8) 8 ≡ true
      → length xs < rounds
      → take_inner rounds b.addr q positive x.addr s ≡ fault
  unfolding take_inner
  walk_faults s zero x xs f c low mq h = absurd (omega arith)
  walk_faults s (suc n) x [] f c low mq h =
      rw (load-ok s (x.addr + 8) f.2, f.4, ne→not_== b.addr 0 f.5.0, eq→== b.addr b.addr refl)
        (elim (Bool-cases (is_positive_int positive)) [
          | inl yes_split ↦ rw yes_split (split_faults s x f low c.0 mq)
          | inr no_split ↦ rw no_split (unlink_faults s x f low)
        ])
  walk_faults s (suc n) x (y ∷ ys) f c low mq h =
      rw
        (
          load-ok s (x.addr + 8) f.2,
          f.4,
          ne→not_== y.addr 0 f.5.0,
          ne→not_== y.addr b.addr (omega (arith, c.1.0)),
        )
        (walk_faults s n y ys f.5 c.1 low mq (omega arith))

-- A new size for the last block, and writes that spare the links of the others.
FreeList-last_size :
    (s : System) (m : Memory) (lo hi n : ℕ) (xs : List Block) (b : Block)
    → FreeList s (xs ++ b ∷ [])
    → Clear lo hi xs
    → ((a : ℕ) → (a + 8 ≤ lo) ⊎ (hi ≤ a) → load64 m a ≡ load64 s.mem a)
    → load64 m b.addr ≡ n
    → load64 m (b.addr + 8) ≡ 0
    → FreeList (record s { mem = m }) (xs ++ record { addr = b.addr; size = n } ∷ [])
FreeList-last_size s m lo hi n [] b f c same e e' = (f.0, f.1, f.2, e, e', tt)
FreeList-last_size s m lo hi n (x ∷ []) b f c same e e' = (
  f.0,
  f.1,
  f.2,
  same x.addr (omega arith) ∙ f.3,
  same (x.addr + 8) (omega arith) ∙ f.4,
  FreeList-last_size s m lo hi n [] b f.5 c.1 same e e',
)
FreeList-last_size s m lo hi n (x ∷ y ∷ xs) b f c same e e' = (
  f.0,
  f.1,
  f.2,
  same x.addr (omega arith) ∙ f.3,
  same (x.addr + 8) (omega arith) ∙ f.4,
  FreeList-last_size s m lo hi n (y ∷ xs) b f.5 c.1 same e e',
)

FreeList-last :
    (s : System) (xs : List Block) (b : Block) → FreeList s (xs ++ b ∷ []) → FreeList s (b ∷ [])
FreeList-last s [] b f = f
FreeList-last s (x ∷ xs) b f = FreeList-last s xs b f.5

module _ (s : System) (k total : ℕ) (x : Block) (xs : List Block) (b : Block)
    (f : FreeList s (x ∷ xs ++ b ∷ [])) (at : s.alloc.head ≡ x.addr) (v : IsOpen s.brk)
    (low : 24 ≤ s.brk.heap) (lo : s.brk.heap ≤ b.addr) (hi : b.addr + total + 16 ≤ s.brk.cur_brk)
    (large : 16 ≤ total) (rounds : length xs < k)
    (apart : Clear b.addr (b.addr + total + 16) (x ∷ xs)) where
  abbrev behind : ℕ
  behind = b.addr + total

  abbrev n1 : Memory
  n1 = store64 s.mem (behind + 8) 0

  abbrev left : ℕ
  left = sub_int (load64 n1 b.addr) total

  abbrev n2 : Memory
  n2 = store64 n1 behind (size_of_int left)

  abbrev n3 : Memory
  n3 = store64 n2 b.addr total

  kept : FreeList (record s { mem = n3 }) (x ∷ xs ++ record { addr = b.addr; size = total } ∷ [])
  kept =
      FreeList-last_size s n3 b.addr (behind + 16) total (x ∷ xs) b f apart
        (λ a h.
          load64-store64_apart n2 b.addr total a (omega arith)
          ∙ load64-store64_apart n1 behind _ a (omega arith)
          ∙ load64-store64_apart s.mem (behind + 8) 0 a (omega arith))
        (load64-store64 n2 b.addr total (omega (arith, v.below, v.small)))
        (load64-store64_apart n2 b.addr total (b.addr + 8) (omega arith)
          ∙ load64-store64_apart n1 behind _ (b.addr + 8) (omega arith)
          ∙ load64-store64_apart s.mem (behind + 8) 0 (b.addr + 8) (omega arith)
          ∙ (FreeList-last s (x ∷ xs) b f).4)

  -- A free block that is the last of the list, and not the first, cannot be reused: the walk that
  -- takes it out writes `temp->next->next->prev` through NULL, and the program faults.
  pub last_fit_faults : take_block k b.addr total s ≡ fault
  unfolding take_block
  last_fit_faults =
      rw
        (
          add64_exact b.addr total (omega (arith, v.below, v.small)),
          store-ok s (behind + 8) 0
              (is_mapped_below s.brk (behind + 8) 8 (omega arith) (omega arith)),
          load-ok (record s { mem = n1 }) b.addr (FreeList-last s (x ∷ xs) b f).1,
          store-ok (record s { mem = n1 }) behind (size_of_int left)
              (is_mapped_below s.brk behind 8 (omega arith) (omega arith)),
          store-ok (record s { mem = n2 }) b.addr total (FreeList-last s (x ∷ xs) b f).1,
          ne→not_== s.alloc.head b.addr (omega (arith, apart.0)),
        )
        (subst (λ p. take_inner k b.addr behind left p (record s { mem = n3 }) ≡ fault) (sym at)
          (walk_faults k behind (record { addr = b.addr; size = total }) left (omega arith)
            (record s { mem = n3 }) k x xs kept apart low
            (is_mapped_below s.brk (behind + 8) 8 (omega arith) (omega arith)) rounds))
