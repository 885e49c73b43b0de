-- ===== src/Memlist/Pool.antt =====
-- `memlist_add_region` as a whole, with an object from the pool of free ones.
use comp304_assignments.Prelude.{
  ℕ, ◌+◌, ◌^◌, ◌<◌, ◌≡◌, refl, sym, ap, subst, ◌∙◌, true, false, some, inl, inr, List, [], ◌∷◌,
  arith, ◌==◌, lt→ltb, ne→not_==, length, Bool-cases, ==→eq,
}
use comp304_assignments.Prelude.Words.{add64_exact}
use comp304_assignments.Machine.{Returns, returns, Returns-bind, pure, ◌>>=◌, ◌>>◌}
use comp304_assignments.Memlist.{
  Os, RegionList, Store, update, remove, set_freelist, set_range, alloc_region_object, place_region,
  add_region,
}
use comp304_assignments.Memlist.Steps.{set_range-ok, update_self, update_ne}
use comp304_assignments.Memlist.Chain.{
  Cell, region, has, IsList, SameOutside, Seg-frame, Seg-update,
}
use comp304_assignments.Memlist.Remove.{remove-append}
use comp304_assignments.Memlist.Ordered.{Ordered}
use comp304_assignments.Memlist.Place.{insert, Apart}
use comp304_assignments.Memlist.Add.{place_region-insert}

-- No object is in both lists.
abbrev pub AreDisjoint : List Cell → List Cell → Type 0
AreDisjoint cs ds = (a : ℕ) → has a cs ≡ true → has a ds ≡ false

module _ (os : Os) (s : Store) (l : RegionList) (cs : List Cell) (spare : Cell) (fs : List Cell)
    (is : IsList s.objects l cs) (free : IsList s.objects s.freelist (spare ∷ fs))
    (apart : AreDisjoint (spare ∷ fs) cs) (start end : ℕ) where
  -- The object that the pool gives, with its new range.
  abbrev pub taken : Cell
  taken = record spare { start = start; end = end }

  -- The list as before, the pool without its first object.
  abbrev IsTaken : ℕ → Store → Type 0
  IsTaken p t =
      (p ≡ spare.ptr)
      × (t.objects spare.ptr ≡ some (region taken 0 0))
      × IsList t.objects l cs
      × IsList t.objects t.freelist fs
      × ((a : ℕ) → has a (spare ∷ fs) ≡ false → t.objects a ≡ s.objects a)

  -- An object of the sorted list is none of the pool's.
  not_free : (a : ℕ) → has a cs ≡ true → has a (spare ∷ fs) ≡ false
  not_free a h = elim (Bool-cases (has a (spare ∷ fs))) [
    | inl b ↦ ground (arith, apart a b)
    | inr b ↦ b
  ]

  removed :
      Returns
        (λ l' t.
          IsList t.objects l' fs
          × (t.objects spare.ptr ≡ some (region spare 0 0))
          × SameOutside (spare ∷ fs) s t)
        (remove s.freelist s.freelist.head s)
  removed =
      subst
        (λ p.
          Returns
            (λ l' t.
              IsList t.objects l' fs
              × (t.objects spare.ptr ≡ some (region spare 0 0))
              × SameOutside (spare ∷ fs) s t)
            (remove s.freelist p s))
        (sym free.head) (remove-append s s.freelist [] spare fs free)

  -- The object's range is written.
  IsTaken_lem :
      (l' : RegionList) (t : Store)
      → IsList t.objects l' fs
      → SameOutside (spare ∷ fs) s t
      → IsTaken spare.ptr
          (record t { objects = update t.objects spare.ptr (region taken 0 0); freelist = l' })
  IsTaken_lem l' t rest same = (
    refl,
    update_self t.objects spare.ptr (region taken 0 0),
    record {
      chain =
          Seg-update cs t.objects 0 0 spare.ptr (region taken 0 0)
            (Seg-frame cs s.objects t.objects 0 0 is.chain λ a h. same.others a (not_free a h))
            (apart spare.ptr (ground arith));
      distinct = is.distinct;
      head = is.head;
      tail = is.tail;
    },
    record {
      chain = Seg-update fs t.objects 0 0 spare.ptr (region taken 0 0) rest.chain free.distinct.1;
      distinct = rest.distinct;
      head = rest.head;
      tail = rest.tail;
    },
    λ a h. update_ne t.objects spare.ptr a (region taken 0 0) (ground arith) ∙ same.others a h,
  )

  alloc_region_object-IsTaken : Returns IsTaken (alloc_region_object os start end s)
  unfolding alloc_region_object
  alloc_region_object-IsTaken =
      let some_free = ne→not_== s.freelist.head 0 (λ e. free.distinct.0 (sym free.head ∙ e)) in
      rw (some_free, some_free)
        (Returns-bind removed λ l' t (rest, here, same).
          subst (λ p. Returns IsTaken ((set_freelist l' >> (set_range p start end >> pure p)) t))
            (sym free.head)
            (rw (set_range-ok (record t { freelist = l' }) spare.ptr _ here start end)
              (returns (IsTaken_lem l' t rest same))))

module _ (os : Os) (s : Store) (l : RegionList) (cs : List Cell) (spare : Cell) (fs : List Cell)
    (is : IsList s.objects l cs) (free : IsList s.objects s.freelist (spare ∷ fs))
    (apart : AreDisjoint (spare ∷ fs) cs) (start len : ℕ) where
  -- The new object with its range.
  abbrev pub entry : Cell
  entry = record spare { start = start; end = start + len }

  -- An object that stays in the pool is neither the new one nor in the list.
  not_entry : (a : ℕ) → has a fs ≡ true → has a (entry ∷ cs) ≡ false
  not_entry a h = elim (Bool-cases (a == spare.ptr)) [
    | inl e ↦ absurd (ground (arith, ap (λ p. has p fs) (==→eq a spare.ptr e), free.distinct.1))
    | inr e ↦ rw e (apart a (ground arith))
  ]

  -- The outcome: the entry in its place, the rest of the pool, and all other objects as before.
  abbrev pub IsAdded : RegionList × ℕ → Store → Type 0
  IsAdded (l', new) t =
      (new ≡ spare.ptr)
      × IsList t.objects l' (insert entry cs)
      × IsList t.objects t.freelist fs
      × ((a : ℕ) → has a (spare ∷ fs) ≡ false → has a cs ≡ false → t.objects a ≡ s.objects a)

  -- `memlist_add_region` of a range that is not empty, does not wrap, and overlaps none of a list
  -- sorted by address takes, with more rounds than elements, the first object of a pool that is not
  -- empty and shares none with the list, and links it into the list at its place. The rest of the
  -- pool stays a list, and no object off the two lists changes.
  pub add_region-IsAdded :
      (k lo : ℕ)
      → 0 < len
      → start + len < 2 ^ 64
      → Ordered lo cs
      → Apart entry cs
      → length cs < k
      → Returns IsAdded (add_region os k l start len s)
  unfolding add_region
  add_region-IsAdded k lo pos small o place rounds =
      rw (add64_exact start len small, lt→ltb start (start + len) (omega arith))
        (Returns-bind
          (alloc_region_object-IsTaken os s l cs spare fs is free apart start (start + len))
          λ p t (at, here, list, pool, others).
            subst
              (λ q.
                Returns IsAdded ((do l' ← place_region k l q start (start + len); pure (l', q)) t))
              (sym at)
              (Returns-bind
                (place_region-insert t l spare.ptr (region entry 0 0) free.distinct.0 here k lo cs
                  refl (omega arith) list o (apart spare.ptr (ground arith)) place rounds)
                λ l' u (added, same). returns (
                  refl,
                  added,
                  record {
                    chain =
                        Seg-frame fs t.objects u.objects 0 0 pool.chain
                          λ a h. same.others a (not_entry a h);
                    distinct = pool.distinct;
                    head = ap (λ f. f.head) same.freelist ∙ pool.head;
                    tail = ap (λ f. f.tail) same.freelist ∙ pool.tail;
                  },
                  λ a h h'. same.others a (ground arith) ∙ others a h,
                )))
