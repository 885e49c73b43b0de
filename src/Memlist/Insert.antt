-- ===== src/Memlist/Insert.antt =====
-- `memlist_insert_after` puts an object behind another one.
use comp304_assignments.Prelude.{
  ℕ, ◌≡◌, refl, ◌≢◌, subst, sym, ◌∙◌, false, some, List, [], ◌∷◌, ◌++◌, arith, ◌==◌, ne→not_==, not,
  if◌then◌else◌,
}
use mathlib.Core.List.{append_assoc}
use comp304_assignments.Machine.{Returns, returns, pure, ◌>>◌}
use comp304_assignments.Memlist.Objects.{Region, RegionList, Objects, Store, update, set_prev}
use comp304_assignments.Memlist.Steps.{update_self, update_ne, read-ok, set_next-ok, set_prev-ok}
use comp304_assignments.Memlist.Chain.{
  Cell, cell, region, has, first, last, Seg, Distinct, IsList, SameOutside, Seg-update,
  Seg-set_first, Seg-append, Seg-split, last-append, first-append, has-front, has-apart, has-append,
  Distinct-append, Distinct-insert,
}
use comp304_assignments.Memlist.{insert_after}

module _ (s : Store) (l : RegionList) (xs : List Cell) (z : Cell) (new : ℕ) (r : Region)
    (ne : new ≢ 0) (e : s.objects new ≡ some r) where
  -- The objects once `new` is linked in, but for the `prev` of what follows.
  linked : ℕ → Objects
  linked n =
      update
        (update (update s.objects new (record r { next = n })) new (region (cell new r) z.ptr n))
        z.ptr (region z (last 0 xs) new)

  module _ (ys : List Cell) (is : IsList s.objects l (xs ++ z ∷ ys))
      (out : has new (xs ++ z ∷ ys) ≡ false) where
    apart : z.ptr ≢ new
    apart = ground (arith, has-append new xs (z ∷ ys))

    linked_front : Seg (linked (first 0 ys)) 0 z.ptr xs
    unfolding linked
    linked_front =
        let front = (Seg-split xs (z ∷ ys) s.objects 0 0 is.chain).0 in
        let out' : has new xs ≡ false = ground (arith, has-append new xs (z ∷ ys)) in
        Seg-update xs _ 0 _ z.ptr _
          (Seg-update xs _ 0 _ new _ (Seg-update xs _ 0 _ new _ front out') out')
          (has-front xs z ys is.distinct)

    linked_back : Seg (linked (first 0 ys)) z.ptr 0 ys
    unfolding linked
    linked_back =
        let back = (Seg-split xs (z ∷ ys) s.objects 0 0 is.chain).1.1 in
        let out' : has new ys ≡ false = ground (arith, has-append new xs (z ∷ ys)) in
        let d : Distinct (z ∷ ys) = (Distinct-append xs (z ∷ ys) is.distinct).1 in
        Seg-update ys _ _ 0 z.ptr _
          (Seg-update ys _ _ 0 new _ (Seg-update ys _ _ 0 new _ back out') out') d.1

    linked_new : linked (first 0 ys) new ≡ some (region (cell new r) z.ptr (first 0 ys))
    unfolding linked
    linked_new = update_ne _ z.ptr new _ (λ h. apart (sym h)) ∙ update_self _ new _

    linked_others :
        (a : ℕ) → has a (xs ++ z ∷ cell new r ∷ ys) ≡ false → linked (first 0 ys) a ≡ s.objects a
    unfolding linked update
    linked_others a h = ground (arith, has-append a xs (z ∷ cell new r ∷ ys))

    here : s.objects z.ptr ≡ some (region z (last 0 xs) (first 0 ys))
    here = (Seg-split xs (z ∷ ys) s.objects 0 0 is.chain).1.0

    linked_at : linked (first 0 ys) z.ptr ≡ some (region z (last 0 xs) new)
    unfolding linked
    linked_at = update_self _ z.ptr _

    distinct : Distinct (xs ++ z ∷ cell new r ∷ ys)
    distinct = subst Distinct (append_assoc xs (z ∷ []) (cell new r ∷ ys)) (
        Distinct-insert (xs ++ z ∷ []) (cell new r) ys
          (subst Distinct (sym (append_assoc xs (z ∷ []) ys)) is.distinct) ne
          (subst (λ cs. has new cs ≡ false) (sym (append_assoc xs (z ∷ []) ys)) out))

    -- The run up to the test of `new->next`.
    insert_after_run :
        insert_after l z.ptr new s
        ≡ (if not (first 0 ys == 0)
              then set_prev (first 0 ys) new >> pure l
              else pure (record l { tail = new }))
            (record s { objects = linked (first 0 ys) })
    unfolding insert_after linked
    insert_after_run =
        let n = first 0 ys in
        let o1 : Objects = update s.objects new (record r { next = n }) in
        let o2 : Objects = update o1 new (region (cell new r) z.ptr n) in
        let here2 : o2 z.ptr ≡ some (region z (last 0 xs) n) =
          update_ne o1 new z.ptr _ apart ∙ update_ne s.objects new z.ptr _ apart ∙ here in
        rw (
          read-ok s z.ptr _ here,
          set_next-ok s new r e n,
          set_prev-ok (record s { objects = o1 }) new _ (update_self s.objects new _) z.ptr,
          set_next-ok (record s { objects = o2 }) z.ptr _ here2 new,
          read-ok (record s { objects = linked n }) new _ linked_new,
        )

  -- `memlist_insert_after` puts an object (not NULL) that is not in the list directly behind `z`,
  -- wherever `z` stands, and touches no object off the list.
  pub insert_after-append :
      (ys : List Cell)
      → IsList s.objects l (xs ++ z ∷ ys)
      → has new (xs ++ z ∷ ys) ≡ false
      → Returns
          (λ l' t.
            IsList t.objects l' (xs ++ z ∷ cell new r ∷ ys)
            × SameOutside (xs ++ z ∷ cell new r ∷ ys) s t)
          (insert_after l z.ptr new s)
  insert_after-append [] is out = rw (insert_after_run [] is out) (
      returns (
        record {
          chain =
              Seg-append xs (z ∷ cell new r ∷ []) _ 0 0 (linked_front [] is out)
                (linked_at [] is out, (linked_new [] is out, tt));
          distinct = distinct [] is out;
          head =
              is.head ∙ first-append 0 xs (z ∷ []) ∙ sym (first-append 0 xs (z ∷ cell new r ∷ []));
          tail = sym (last-append 0 xs (z ∷ cell new r ∷ []));
        },
        record { others = linked_others [] is out; freelist = refl; maps = refl },
      ))
  insert_after-append (y ∷ ys) is out =
      let o : Objects = linked y.ptr in
      let d : Distinct (y ∷ ys) = (Distinct-append xs (z ∷ y ∷ ys) is.distinct).1.2 in
      let back : Seg o z.ptr 0 (y ∷ ys) = linked_back (y ∷ ys) is out in
      let dz : has z.ptr (y ∷ ys) ≡ false = (Distinct-append xs (z ∷ y ∷ ys) is.distinct).1.1 in
      let front : Seg (update o y.ptr (region y new (first 0 ys))) 0 z.ptr xs =
        Seg-update xs o 0 z.ptr y.ptr _ (linked_front (y ∷ ys) is out)
          (has-apart xs (z ∷ y ∷ ys) y.ptr is.distinct (ground arith)) in
      let ne' : y.ptr ≢ new = ground (arith, has-append new xs (z ∷ y ∷ ys)) in
      rw
        (
          insert_after_run (y ∷ ys) is out,
          ne→not_== y.ptr 0 d.0,
          set_prev-ok (record s { objects = o }) y.ptr _ back.0 new,
        )
        (returns (
          record {
            chain = Seg-append xs (z ∷ cell new r ∷ y ∷ ys) _ 0 0 front (
              update_ne o y.ptr z.ptr _ (ground arith) ∙ linked_at (y ∷ ys) is out,
              (
                update_ne o y.ptr new _ (λ h. ne' (sym h)) ∙ linked_new (y ∷ ys) is out,
                Seg-set_first y ys o z.ptr 0 new back d,
              ),
            );
            distinct = distinct (y ∷ ys) is out;
            head =
                is.head
                ∙ first-append 0 xs (z ∷ y ∷ ys)
                ∙ sym (first-append 0 xs (z ∷ cell new r ∷ y ∷ ys));
            tail =
                is.tail
                ∙ last-append 0 xs (z ∷ y ∷ ys)
                ∙ sym (last-append 0 xs (z ∷ cell new r ∷ y ∷ ys));
          },
          record {
            others = λ a h.
                update_ne o y.ptr a _ (ground (arith, has-append a xs (z ∷ cell new r ∷ y ∷ ys)))
                ∙ linked_others (y ∷ ys) is out a h;
            freelist = refl;
            maps = refl;
          },
        ))
