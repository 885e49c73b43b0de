-- ===== src/Alloc/Stack.antt =====
-- Any run of requests that releases the last block first, from the program's start.
use comp304_assignments.Prelude.{
  ℕ, ◌+◌, ◌-◌, ◌^◌, ◌≤◌, ◌<◌, ◌≡◌, refl, ◌≢◌, inl, sym, ap, subst, ◌∙◌, List, [], ◌∷◌, arith,
}
use comp304_assignments.Machine.{Returns, Returns-mono, Returns-at, Returns-run, ok}
use comp304_assignments.Machine.Memory.{Memory, load64, load64_same}
use comp304_assignments.Memlist.{Os, map_failed}
use comp304_assignments.System.{System}
use comp304_assignments.Alloc.Malloc.{kumalloc}
use comp304_assignments.Alloc.Free.{kufree}
use comp304_assignments.Alloc.Inv.{IsFrame, first_fit-nil}
use comp304_assignments.Alloc.Kumalloc.{total_of, total_of_bounds, kumalloc-Extended}
use comp304_assignments.Alloc.Release.{NoneLive, kufree-Released}
use comp304_assignments.Alloc.RoundTrip.{find_overlap-nil}
use comp304_assignments.Alloc.Start.{IsFresh, Started, kumalloc-Started}

-- Blocks of the sizes `ns`, the last one first, fill the memory from `base` up to `e`, and each has
-- its size in its header.
abbrev pub Laid : Memory → ℕ → List ℕ → ℕ → Type 0
Laid m base [] e = e ≡ base
Laid m base (n ∷ ns) e = (16 ≤ n) × (n ≤ e) × (load64 m (e - n) ≡ n) × Laid m base ns (e - n)

Laid-same :
    (m m' : Memory) (base : ℕ) (ns : List ℕ) (e : ℕ)
    → ((x : ℕ) → x < e → m' x ≡ m x)
    → Laid m base ns e
    → Laid m' base ns e
Laid-same m m' base [] e h l = l
Laid-same m m' base (n ∷ ns) e h l = (
  l.0,
  l.1,
  load64_same m' m (e - n) (λ x from to. h x (omega (arith, l.0, l.1))) ∙ l.2,
  Laid-same m m' base ns (e - n) (λ x lo. h x (omega (arith, l.0, l.1))) l.3,
)

Laid-above : (m : Memory) (base : ℕ) (ns : List ℕ) (e : ℕ) → Laid m base ns e → base ≤ e
Laid-above m base [] e l = omega (arith, l)
Laid-above m base (n ∷ ns) e l = omega (arith, l.1, Laid-above m base ns (e - n) l.3)

Laid-at :
    {m m' : Memory} {base base' e e' : ℕ} (ns : List ℕ)
    → m' ≡ m
    → base' ≡ base
    → e' ≡ e
    → Laid m base ns e
    → Laid m' base' ns e'
Laid-at {m} {m'} {base} {base'} {e} {e'} ns p q r l =
    subst (λ n. Laid n base' ns e') (sym p)
      (subst (λ b. Laid m b ns e') (sym q) (subst (Laid m base ns) (sym r) l))

-- The heap has room for a request, whatever the frame has left.
abbrev pub HasRoom : System → ℕ → Type 0
HasRoom s size = s.brk.cur_brk + total_of size + 8192 ≤ s.brk.heap + s.brk.max_brk_size

-- The states that a program reaches which takes blocks and gives the last one back, with the sizes
-- of its blocks, the last one first.
pub data Uses (os : Os) (k : ℕ) : System → List ℕ → Type 0 where
  first :
      {s t : System} {p : ℕ} (size : ℕ)
      → IsFresh s
      → s.framework.allocs.head ≡ 0
      → os.mmap s.store.maps s.brk.max_brk_size ≢ 0
      → os.mmap s.store.maps s.brk.max_brk_size ≢ map_failed
      → os.mmap s.store.maps s.brk.max_brk_size + s.brk.max_brk_size < 2 ^ 63
      → 0 < size
      → size < 2 ^ 63
      → total_of size + 8192 ≤ s.brk.max_brk_size
      → kumalloc os k size s ≡ ok p t
      → Uses os k t (total_of size ∷ [])
  request :
      {s t : System} {ns : List ℕ} {p : ℕ} (size : ℕ)
      → Uses os k s ns
      → 0 < size
      → size < 2 ^ 63
      → HasRoom s size
      → kumalloc os k size s ≡ ok p t
      → Uses os k t (total_of size ∷ ns)
  release :
      {s t : System} {n : ℕ} {ns : List ℕ}
      → Uses os k s (n ∷ ns)
      → kufree os k (s.alloc.block_end - n + 8) s ≡ ok tt t
      → Uses os k t ns

pub record IsStack (s : System) (ns : List ℕ) : Type 0 where
  pub frame : IsFrame s
  pub head : s.alloc.head ≡ 0
  pub allocs : s.framework.allocs.head ≡ 0
  pub laid : Laid s.mem s.brk.heap ns s.alloc.block_end

Started-IsStack :
    (s : System) (a total : ℕ) (t : System)
    → 16 ≤ total
    → s.framework.allocs.head ≡ 0
    → Started s a total t
    → IsStack t (total ∷ [])
Started-IsStack s a total t large allocs x =
    let back : t.alloc.block_end - total ≡ a = omega (arith, x.end) in
    record {
      frame = x.frame;
      head = x.head;
      allocs = ap (λ f. f.allocs.head) x.framework ∙ allocs;
      laid = (large, omega (arith, x.end), ap (load64 t.mem) back ∙ x.size, back ∙ sym x.heap);
    }

module _ (os : Os) (k : ℕ) (rounds : 0 < k) where
  module _ (s : System) (ns : List ℕ) (v : IsStack s ns) where
    request-Extended :
        (size : ℕ)
        → 0 < size
        → size < 2 ^ 63
        → HasRoom s size
        → Returns
            (λ p t. (p ≡ s.alloc.block_end + 8) × IsStack t (total_of size ∷ ns))
            (kumalloc os k size s)
    request-Extended size pos small room =
        let (_, large, _, _) = total_of_bounds size pos small in
        Returns-mono
          (kumalloc-Extended os k s size pos small [] tt v.head rounds v.frame
            (first_fit-nil (total_of size)) room)
          λ p t (at, x).
            let back : t.alloc.block_end - total_of size ≡ s.alloc.block_end =
              omega (arith, x.end) in
            let below : Laid t.mem s.brk.heap ns s.alloc.block_end =
              Laid-same s.mem t.mem s.brk.heap ns s.alloc.block_end (λ y lo. x.others y (inl lo))
                v.laid in
            (
              at,
              record {
                frame = x.frame;
                head = x.head ∙ v.head;
                allocs = ap (λ f. f.allocs.head) x.framework ∙ v.allocs;
                laid = (
                  large,
                  omega (arith, x.end),
                  ap (load64 t.mem) back ∙ x.size,
                  Laid-at ns refl x.heap back below,
                );
              },
            )

  release-Released :
      (s : System) (n : ℕ) (ns : List ℕ)
      → IsStack s (n ∷ ns)
      → Returns (λ _ t. IsStack t ns) (kufree os k (s.alloc.block_end - n + 8) s)
  release-Released s n ns v =
      let b = s.alloc.block_end - n in
      let none_live : NoneLive k s n = find_overlap-nil k _ _ s.store v.allocs in
      Returns-mono
        (kufree-Released os k s v.frame b n (omega (arith, v.laid.0)) v.laid.2
          (omega (arith, v.laid.1)) (Laid-above s.mem s.brk.heap ns b v.laid.3)
          (omega (arith, v.laid.0)) none_live v.head rounds)
        λ _ t r. record {
          frame = r.frame;
          head = r.head ∙ v.head;
          allocs = ap (λ f. f.allocs.head) r.framework ∙ v.allocs;
          laid = Laid-at ns r.mem r.heap r.end v.laid.3;
        }

  -- In every state reached from the program's start by requests for which the heap has room and
  -- releases of the last block, with no allocation in the framework's list, the blocks in use fill
  -- the heap without a gap up to the frame's end, each with its size in its header; the frame's
  -- invariant holds, and the free list is empty. Loops may make at least one round.
  pub Uses-IsStack : (s : System) (ns : List ℕ) → Uses os k s ns → IsStack s ns
  Uses-IsStack t ns (first size z allocs mapped success below pos small room e) =
      let (_, large, _, _) = total_of_bounds size pos small in
      Started-IsStack _ _ _ t large allocs
        (Returns-at (kumalloc-Started os k _ z mapped success below size pos small rounds room) e).1
  Uses-IsStack t ns (request size u pos small room e) =
      (Returns-at (request-Extended _ _ (Uses-IsStack _ _ u) size pos small room) e).1
  Uses-IsStack t ns (release u e) = Returns-at (release-Released _ _ ns (Uses-IsStack _ _ u)) e

  module _ (s : System) where
    -- In a state so reached, a request of 1 up to 2^63 - 1 bytes for which the heap has room
    -- returns the payload of a new last block, and the state it leaves is again one so reached.
    pub kumalloc-Uses :
        (ns : List ℕ) (size : ℕ)
        → Uses os k s ns
        → 0 < size
        → size < 2 ^ 63
        → HasRoom s size
        → Returns
            (λ p t. (p ≡ s.alloc.block_end + 8) × Uses os k t (total_of size ∷ ns))
            (kumalloc os k size s)
    kumalloc-Uses ns size u pos small room =
        Returns-mono (Returns-run (request-Extended s ns (Uses-IsStack s ns u) size pos small room))
          λ p t ((at, _), e). (at, request size u pos small room e)

    -- In a state so reached, `kufree` of the last block returns, without a fault, an exit or a loop
    -- that runs on, and the state it leaves is again one so reached, without that block.
    pub kufree-Uses :
        (n : ℕ) (ns : List ℕ)
        → Uses os k s (n ∷ ns)
        → Returns (λ _ t. Uses os k t ns) (kufree os k (s.alloc.block_end - n + 8) s)
    kufree-Uses n ns u =
        Returns-mono (Returns-run (release-Released s n ns (Uses-IsStack s (n ∷ ns) u)))
          λ _ t (_, e). release u e
