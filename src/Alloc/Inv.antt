-- ===== src/Alloc/Inv.antt =====
-- The invariant of the allocator's frame, and its free list in heap memory.
use comp304_assignments.Prelude.{
  ℕ, zero, suc, ◌+◌, ◌≤◌, ◌<◌, ◌≡◌, refl, ◌≢◌, inl, inr, true, List, [], ◌∷◌, arith, leb,
  if◌then◌else◌, length, ne→not_==, Bool-cases,
}
use comp304_assignments.Machine.{ok}
use comp304_assignments.Machine.Memory.{load64}
use comp304_assignments.System.{System}
use comp304_assignments.System.Access.{is_mapped}
use comp304_assignments.System.Heap.{load-ok}
use comp304_assignments.Intercept.Break.{IsOpen}
use comp304_assignments.Alloc.Malloc.{find_block}

-- The bytes between `block_end` and the break are those that `available_memory` counts.
pub record IsFrame (s : System) : Type 0 where
  pub break : IsOpen s.brk
  pub started : s.alloc.block_end ≢ 0
  pub inside : s.brk.heap ≤ s.alloc.block_end
  pub counted : s.alloc.block_end + s.alloc.available_memory ≡ s.brk.cur_brk

-- A free block: its address and size.
pub record Block : Type 0 where
  pub addr : ℕ
  pub size : ℕ

abbrev pub first_addr : List Block → ℕ
first_addr [] = 0
first_addr (b ∷ bs) = b.addr

-- The `next` pointers lead from `first_addr bs` through the blocks `bs` to NULL.
abbrev pub FreeList : System → List Block → Type 0
FreeList s [] = Unit
FreeList s (b ∷ bs) =
    (b.addr ≢ 0)
    × (is_mapped s.brk b.addr 8 ≡ true)
    × (is_mapped s.brk (b.addr + 8) 8 ≡ true)
    × (load64 s.mem b.addr ≡ b.size)
    × (load64 s.mem (b.addr + 8) ≡ first_addr bs)
    × FreeList s bs

-- First fit.
unfoldable pub first_fit : ℕ → List Block → ℕ
first_fit total [] = 0
first_fit total (b ∷ bs) = if leb total b.size then b.addr else first_fit total bs

-- The search of `kumalloc` over a free list of fewer blocks than rounds returns the address of the
-- first block that is large enough, or NULL, and leaves the state as it is.
pub find_block-first_fit :
    (s : System) (total k : ℕ) (bs : List Block)
    → FreeList s bs
    → length bs < k
    → find_block k total (first_addr bs) s ≡ ok (first_fit total bs) s
unfolding find_block first_fit
find_block-first_fit s total zero bs f h = absurd (omega arith)
find_block-first_fit s total (suc k) [] f h = refl
find_block-first_fit s total (suc k) (b ∷ bs) f h =
    rw (ne→not_== b.addr 0 f.0, load-ok s b.addr f.1, f.3)
      (elim (Bool-cases (leb total b.size)) [
        | inl e ↦ rw e
        | inr e ↦
            rw (e, load-ok s (b.addr + 8) f.2, f.4)
              (find_block-first_fit s total k bs f.5 (omega arith))
      ])

pub first_fit-nil : (total : ℕ) → first_fit total [] ≡ 0
unfolding first_fit
first_fit-nil total = refl
