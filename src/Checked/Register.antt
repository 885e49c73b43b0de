-- ===== src/Checked/Register.antt =====
-- `_checked_alloc` enters a buffer in its list of allocations and marks it.
use comp304_assignments.Prelude.{
  ℕ, ◌+◌, ◌^◌, ◌≤◌, ◌<◌, ◌≡◌, refl, sym, subst, ◌∙◌, List, ◌∷◌, ◌++◌, arith, length, ◌⊎◌,
}
use comp304_assignments.Machine.{Returns, returns, Returns-zoom, Cmd, ◌>>=◌, ◌>>◌, assert}
use comp304_assignments.Machine.Memory.{memset_inside, memset_outside}
use comp304_assignments.Memlist.{Os, Region, RegionList, Store, update, read, set_tag, find_overlap}
use comp304_assignments.Memlist.Steps.{read-ok, set_tag-ok}
use comp304_assignments.Memlist.Chain.{Cell, region, first, last, IsList}
use comp304_assignments.Memlist.Ordered.{Ordered}
use comp304_assignments.Memlist.Place.{insert, Apart}
use comp304_assignments.Memlist.Pool.{AreDisjoint, entry, add_region-IsAdded}
use comp304_assignments.Memlist.Tag.{insert-Between, object, IsList-tagged}
use comp304_assignments.System.{System, memlist}
use comp304_assignments.System.Access.{fill}
use comp304_assignments.System.Heap.{is_mapped_below, fill-ok}
use comp304_assignments.Alloc.RoundTrip.{find_overlap-nil}
use comp304_assignments.Checked.Data.{next_data, get_data, get_zero_sized}
use comp304_assignments.Intercept.Defs.{is_none}
use comp304_assignments.Checked.Marks.{next_data_range}
use comp304_assignments.Checked.Alloc.{register_alloc}

module _ (os : Os) (s : System) (cs : List Cell) (spare : Cell) (fs : List Cell)
    (is : IsList s.store.objects s.framework.allocs cs)
    (free : IsList s.store.objects s.store.freelist (spare ∷ fs))
    (apart : AreDisjoint (spare ∷ fs) cs) (buf size : ℕ) where
  abbrev mark : ℕ
  mark = next_data s.framework.data_cnt

  abbrev pub marked : Cell
  marked = record (entry os s.store s.framework.allocs cs spare fs is free apart buf size) {
    tag = mark;
  }

  -- The buffer is in the list with its mark, and holds the mark in every byte.
  pub record Registered (t : System) : Type 0 where
    pub listed : IsList t.store.objects t.framework.allocs (insert marked cs)
    pub filled : (x : ℕ) → buf ≤ x → x < buf + size → t.mem x ≡ mark
    pub others : (x : ℕ) → (x < buf) ⊎ (buf + size ≤ x) → t.mem x ≡ s.mem x
    pub alloc : t.alloc ≡ s.alloc
    pub brk : t.brk ≡ s.brk

  abbrev e : Cell
  e = entry os s.store s.framework.allocs cs spare fs is free apart buf size

  -- The state once the object is in the list, and the rest of the function.
  abbrev entered : RegionList → Store → System
  entered l' t = record s { store = t; framework = record s.framework { allocs = l' } }

  -- The state once its mark is written too, as `r`.
  abbrev marked_as : RegionList → Store → Region → System
  marked_as l' t r = record s {
    store = record t { objects = update t.objects e.ptr r };
    framework = record s.framework { allocs = l'; data_cnt = mark };
  }

  abbrev mark_object : ℕ → ℕ → Cmd System (Unit {0})
  mark_object k alloc = do
    region ← memlist (read alloc)
    zero_sized ← get_zero_sized
    overlap ← memlist (find_overlap k zero_sized region)
    assert (is_none overlap)
    byte ← get_data
    memlist (set_tag alloc byte)
    fill buf byte size

  mark_object-Registered :
      (k : ℕ) (l' : RegionList) (t : Store)
      → 0 < size
      → s.brk.heap ≤ buf
      → buf + size ≤ s.brk.cur_brk
      → s.brk.cur_brk < 2 ^ 64
      → s.framework.data_cnt < 256
      → s.framework.zero_sized_allocs.head ≡ 0
      → IsList t.objects l' (insert e cs)
      → Returns (λ _ u. Registered u) (mark_object k e.ptr (entered l' t))
  unfolding get_data
  mark_object-Registered k l' t pos above below small cnt no_zero added =
      let b = insert-Between e cs in
      let list : IsList t.objects l' (b.xs ++ e ∷ b.ys) =
        subst (IsList t.objects l') (b.inserted e.tag) added in
      let r = region marked (last 0 b.xs) (first 0 b.ys) in
      let (_, byte, _) = next_data_range s.framework.data_cnt cnt in
      let here = object e mark b.ys t.objects l' b.xs list in
      rw
        (
          read-ok t e.ptr _ here,
          find_overlap-nil k s.framework.zero_sized_allocs _ t no_zero,
          set_tag-ok t e.ptr _ here mark,
          fill-ok (marked_as l' t r) size pos buf mark (is_mapped_below s.brk buf size above below),
        )
        (returns record {
          listed =
              subst (IsList (update t.objects e.ptr r) l') (sym (b.inserted mark))
                (IsList-tagged e mark b.ys t.objects l' b.xs list);
          filled = λ x from to. memset_inside s.mem buf mark size x from to ∙ omega (arith, byte);
          others = λ x h. memset_outside s.mem buf mark size x h;
          alloc = refl;
          brk = refl;
        })

  -- Let the list of allocations be sorted and the pool of objects not empty, with no object in
  -- both, let the loops have more rounds than allocations, and let no pointer of a zero-sized
  -- allocation be live. Then `_checked_alloc` enters a non-empty buffer of the heap that overlaps
  -- no allocation at its place in the list, with the next mark, and fills it with that mark; no
  -- other byte changes.
  pub register_alloc-Registered :
      (k lo : ℕ)
      → 0 < size
      → s.brk.heap ≤ buf
      → buf + size ≤ s.brk.cur_brk
      → s.brk.cur_brk < 2 ^ 64
      → s.framework.data_cnt < 256
      → s.framework.zero_sized_allocs.head ≡ 0
      → Ordered lo cs
      → Apart (entry os s.store s.framework.allocs cs spare fs is free apart buf size) cs
      → length cs < k
      → Returns (λ _ t. Registered t) (register_alloc os k buf size s)
  unfolding register_alloc
  register_alloc-Registered k lo pos above below small cnt no_zero o place rounds =
      Returns-zoom s (λ t u. record u { store = t }) _
        (add_region-IsAdded os s.store s.framework.allocs cs spare fs is free apart buf size k lo
          pos (omega arith) o place rounds)
        λ (l', new) t (at, added, _, _).
          subst (λ q. Returns (λ _ u. Registered u) (mark_object k q (entered l' t))) (sym at)
            (mark_object-Registered k l' t pos above below small cnt no_zero added)
