-- ===== src/Alloc/RoundTrip.antt =====
-- `kufree` after `kumalloc`.
use comp304_assignments.Prelude.{
  ℕ, ◌+◌, ◌^◌, ◌≤◌, ◌<◌, ◌≡◌, sym, ap, subst, ◌∙◌, ◌⊎◌, none, [], arith, eq→==,
}
use comp304_assignments.Machine.{Returns, Returns-bind, Returns-mono, ok, ◌>>=◌}
use comp304_assignments.Memlist.{Os, RegionList, Region, Store, find_overlap}
use comp304_assignments.System.{System}
use comp304_assignments.Alloc.Malloc.{kumalloc}
use comp304_assignments.Alloc.Free.{kufree}
use comp304_assignments.Alloc.Inv.{IsFrame, first_fit-nil}
use comp304_assignments.Alloc.Extend.{Extended}
use comp304_assignments.Alloc.Kumalloc.{total_of, total_of_bounds, kumalloc-Extended}
use comp304_assignments.Alloc.Release.{NoneLive, kufree-Released}

pub find_overlap-nil :
    (k : ℕ) (l : RegionList) (r : Region) (s : Store)
    → l.head ≡ 0
    → find_overlap k l r s ≡ ok none s
unfolding find_overlap
find_overlap-nil k l r s e = rw (eq→== l.head 0 e)

-- What a request and its release leave: the frame ends where it did, the free list is empty, and
-- only the eight bytes of the header were written.
pub record Undone (s t : System) : Type 0 where
  pub frame : IsFrame t
  pub end : t.alloc.block_end ≡ s.alloc.block_end
  pub head : t.alloc.head ≡ 0
  pub others : (x : ℕ) → (x < s.alloc.block_end) ⊎ (s.alloc.block_end + 8 ≤ x) → t.mem x ≡ s.mem x

module _ (os : Os) (k : ℕ) (s : System) (size : ℕ) (pos : 0 < size) (small : size < 2 ^ 63)
    (v : IsFrame s) (none_free : s.alloc.head ≡ 0) (rounds : 0 < k)
    (no_allocs : s.framework.allocs.head ≡ 0) where
  module _ (t : System) (x : Extended s (total_of size) s.alloc.block_end t) where
    none_live : NoneLive k t (total_of size)
    none_live = find_overlap-nil k _ _ t.store (ap (λ f. f.allocs.head) x.framework ∙ no_allocs)

    release : Returns (λ _ u. Undone s u) (kufree os k (s.alloc.block_end + 8) t)
    release =
        let (_, large, _, _) = total_of_bounds size pos small in
        Returns-mono
          (kufree-Released os k t x.frame s.alloc.block_end (total_of size) (omega arith) x.size
            x.end (omega (arith, x.heap, v.inside)) (omega arith) none_live (x.head ∙ none_free)
            rounds)
          λ _ u r. record {
            frame = r.frame;
            end = r.end;
            head = r.head ∙ x.head ∙ none_free;
            others = λ a h. ap (λ m. m a) r.mem ∙ x.others a h;
          }

  -- Where the frame's invariant holds, the free list and the test framework's list of allocations
  -- are empty, a request of 1 up to 2^63 - 1 bytes has room in the heap, and loops may make a
  -- round, `kufree` of what `kumalloc` just returned leaves the frame's end where it was, the free
  -- list empty and the frame's invariant true; only the eight bytes of the header were written.
  pub kufree-kumalloc :
      s.brk.cur_brk + total_of size + 8192 ≤ s.brk.heap + s.brk.max_brk_size
      → Returns (λ _ t. Undone s t) ((kumalloc os k size >>= kufree os k) s)
  kufree-kumalloc room =
      Returns-bind
        (kumalloc-Extended os k s size pos small [] tt none_free rounds v
          (first_fit-nil (total_of size)) room)
        λ p t (at, x).
          subst (λ q. Returns (λ _ u. Undone s u) (kufree os k q t)) (sym at) (release t x)
