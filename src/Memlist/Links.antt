-- ===== src/Memlist/Links.antt =====
-- `memlist_insert_front`, `memlist_insert_after` and `memlist_remove` on the list that the objects
-- stand for.
use comp304_assignments.Prelude.{
  ℕ, ◌≡◌, refl, ◌≢◌, ◌∙◌, false, some, List, [], ◌∷◌, arith, ne→not_==, eq→==,
}
use comp304_assignments.Machine.{Returns, returns}
use comp304_assignments.Memlist.Objects.{Region, RegionList, Store, update}
use comp304_assignments.Memlist.Steps.{update_ne, set_next-ok, set_prev-ok}
use comp304_assignments.Memlist.Chain.{
  Cell, cell, region, has, first, last, Seg, IsList, SameOutside, Seg-update, Seg-set_first,
  last_ne_zero,
}
use comp304_assignments.Memlist.{insert_front}

module _ (s : Store) (l : RegionList) (new : ℕ) (r : Region) (ne : new ≢ 0)
    (e : s.objects new ≡ some r) (unlinked : r.prev ≡ 0) where
  -- `memlist_insert_front` puts an object (not NULL) that is not in the list, and whose `prev` is
  -- NULL, in front of the list, empty or not, and touches no object off the list.
  pub insert_front-cons :
      (cs : List Cell)
      → IsList s.objects l cs
      → has new cs ≡ false
      → Returns
          (λ l' t. IsList t.objects l' (cell new r ∷ cs) × SameOutside (cell new r ∷ cs) s t)
          (insert_front l new s)
  unfolding insert_front update
  insert_front-cons [] is out =
      rw (set_next-ok s new r e l.head, eq→== l.head 0 is.head, eq→== l.tail 0 is.tail)
        (returns (
          record {
            chain = (ground (arith, is.head), tt);
            distinct = (ne, refl, tt);
            head = refl;
            tail = refl;
          },
          record { others = λ a h. ground arith; freelist = refl; maps = refl },
        ))
  insert_front-cons (c ∷ cs) is out =
      let s1 : Store = record s { objects = update s.objects new (record r { next = c.ptr }) } in
      let apart : c.ptr ≢ new = ground arith in
      let old : s1.objects c.ptr ≡ some (region c 0 (first 0 cs)) =
        update_ne s.objects new c.ptr _ apart ∙ is.chain.0 in
      let rest : Seg s1.objects c.ptr 0 cs =
        Seg-update cs s.objects c.ptr 0 new _ is.chain.1 (ground arith) in
      rw
        (
          set_next-ok s new r e l.head,
          ne→not_== l.head 0 (ground arith),
          is.head,
          set_prev-ok s1 c.ptr _ old new,
          is.tail,
          ne→not_== (last c.ptr cs) 0 (last_ne_zero c cs is.distinct),
        )
        (returns (
          record {
            chain = (ground arith, Seg-set_first c cs s1.objects 0 0 new (old, rest) is.distinct);
            distinct = (ne, out, is.distinct);
            head = refl;
            tail = refl;
          },
          record { others = λ a h. ground arith; freelist = refl; maps = refl },
        ))
