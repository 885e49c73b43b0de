-- ===== src/Memlist/Add.antt =====
-- The part of `memlist_add_region` that finds the place of a new object in a sorted list.
use comp304_assignments.Prelude.{
  ℕ, zero, suc, ◌≤◌, ◌<◌, ◌≡◌, refl, ◌≢◌, subst, sym, ap, ◌∙◌, ◌⊎◌, inl, inr, true, false, some,
  List, [], ◌∷◌, ◌++◌, arith, leb, length, Bool-cases, ne→not_==, eq→==, le→leb, leb→le,
}
use mathlib.Core.List.{append_assoc, append-nil}
use comp304_assignments.Machine.{Returns, Returns-mono}
use comp304_assignments.Memlist.Objects.{Region, RegionList, Store}
use comp304_assignments.Memlist.Steps.{read-ok}
use comp304_assignments.Memlist.Chain.{
  Cell, cell, region, has, last, IsList, SameOutside, SameOutside-mono, has-append, Seg-split,
  last-append, Distinct, Distinct-append,
}
use comp304_assignments.Memlist.Links.{insert_front-cons}
use comp304_assignments.Memlist.Insert.{insert_after-append}
use comp304_assignments.Memlist.Ordered.{Ordered}
use comp304_assignments.Memlist.Place.{insert, Apart, insert-append, Ordered-Before, snoc_view}
use comp304_assignments.Memlist.{
  regions_overlap, fits_after, add_region_loop, place_region, insert_after,
}

not_overlap : (a b : Region) → (a.end ≤ b.start) ⊎ (b.end ≤ a.start) → regions_overlap a b ≡ false
unfolding regions_overlap
not_overlap a b h = ground arith

module _ (s : Store) (l : RegionList) (new : ℕ) (r : Region) (ne : new ≢ 0)
    (e : s.objects new ≡ some r) where
  abbrev Placed : List Cell → List Cell → RegionList → Store → Type 0
  Placed cs ds l' t = IsList t.objects l' ds × SameOutside (cell new r ∷ cs) s t

  module _ (xs : List Cell) (z : Cell) where
    after :
        (ys : List Cell)
        → IsList s.objects l (xs ++ z ∷ ys)
        → has new (xs ++ z ∷ ys) ≡ false
        → Returns
            (λ l' t. Placed (xs ++ z ∷ ys) (xs ++ z ∷ cell new r ∷ ys) l' t)
            (insert_after l z.ptr new s)
    after ys is out =
        Returns-mono (insert_after-append s l xs z new r ne e ys is out) λ l' t (a, b). (
          a,
          SameOutside-mono (xs ++ z ∷ cell new r ∷ ys) (cell new r ∷ xs ++ z ∷ ys)
              (λ x h.
                ground (arith, has-append x xs (z ∷ ys), has-append x xs (z ∷ cell new r ∷ ys)))
              b,
        )

  place_loop :
      (k : ℕ) (xs : List Cell) (z : Cell) (ys : List Cell)
      → IsList s.objects l (xs ++ z ∷ ys)
      → has new (xs ++ z ∷ ys) ≡ false
      → z.end ≤ r.start
      → Apart (cell new r) ys
      → length ys < k
      → Returns
          (λ l' t. Placed (xs ++ z ∷ ys) (xs ++ z ∷ insert (cell new r) ys) l' t)
          (add_region_loop k l z.ptr new r.start r.end s)
  unfolding add_region_loop fits_after insert
  place_loop zero xs z ys is out h a f = absurd (omega arith)
  place_loop (suc k) xs z [] is out h a f =
      let (here, _) = (Seg-split xs (z ∷ []) s.objects 0 0 is.chain).1 in
      rw
        (
          ne→not_== z.ptr 0 (Distinct-append xs (z ∷ []) is.distinct).1.0,
          read-ok s new r e,
          read-ok s z.ptr _ here,
          not_overlap r (region z (last 0 xs) 0) (inr h),
          le→leb z.end r.start h,
        )
        (after xs z [] is out)
  place_loop (suc k) xs z (y ∷ ys) is out h a f =
      let (here, (next, _)) = (Seg-split xs (z ∷ y ∷ ys) s.objects 0 0 is.chain).1 in
      let d : Distinct (z ∷ y ∷ ys) = (Distinct-append xs (z ∷ y ∷ ys) is.distinct).1 in
      let assoc : (ds : List Cell) → (xs ++ z ∷ []) ++ ds ≡ xs ++ z ∷ ds =
        append_assoc xs (z ∷ []) in
      rw
        (
          ne→not_== z.ptr 0 d.0,
          read-ok s new r e,
          read-ok s z.ptr _ here,
          not_overlap r (region z (last 0 xs) y.ptr) (inr h),
          le→leb z.end r.start h,
          ne→not_== y.ptr 0 d.2.0,
          read-ok s y.ptr _ next,
        )
        (elim (Bool-cases (leb r.end y.start)) [
          | inl fits ↦ rw fits (after xs z (y ∷ ys) is out)
          | inr more ↦ rw more (
              subst
                (λ cs.
                  Returns (Placed cs (xs ++ z ∷ y ∷ insert (cell new r) ys))
                    (add_region_loop k l y.ptr new r.start r.end s))
                (assoc (y ∷ ys))
                (subst
                  (λ ds.
                    Returns (Placed ((xs ++ z ∷ []) ++ y ∷ ys) ds)
                      (add_region_loop k l y.ptr new r.start r.end s))
                  (assoc (y ∷ insert (cell new r) ys))
                  (place_loop k (xs ++ z ∷ []) y ys
                    (subst (IsList s.objects l) (sym (assoc (y ∷ ys))) is)
                    (subst (λ cs. has new cs ≡ false) (sym (assoc (y ∷ ys))) out) (ground arith) a.1
                    (omega arith))))
        ])

  insert_none : cell new r ∷ [] ≡ insert (cell new r) []
  unfolding insert
  insert_none = refl

  insert_first :
      (c : Cell) (cs : List Cell)
      → leb r.end c.start ≡ true
      → cell new r ∷ c ∷ cs ≡ insert (cell new r) (c ∷ cs)
  unfolding insert
  insert_first c cs h = rw h

  insert_later :
      (c : Cell) (cs : List Cell)
      → leb r.end c.start ≡ false
      → c ∷ insert (cell new r) cs ≡ insert (cell new r) (c ∷ cs)
  unfolding insert
  insert_later c cs h = rw h

  -- The place behind the last element.
  place_last :
      (xs : List Cell) (z : Cell) (lo p : ℕ) (cs : List Cell)
      → p ≡ z.ptr
      → cs ≡ xs ++ z ∷ []
      → r.start < r.end
      → IsList s.objects l cs
      → Ordered lo cs
      → has new cs ≡ false
      → z.end ≤ r.start
      → Returns (λ l' t. Placed cs (insert (cell new r) cs) l' t) (insert_after l p new s)
  unfolding insert
  place_last xs z lo p cs at e' w is o out h =
      let c = cell new r in
      let o' : Ordered lo (xs ++ z ∷ []) = subst (Ordered lo) e' o in
      let end : insert c (xs ++ z ∷ []) ≡ xs ++ z ∷ c ∷ [] =
        ap (insert c) (sym (append-nil (xs ++ z ∷ [])))
        ∙ insert-append lo c (xs ++ z ∷ []) []
            (subst (Ordered lo) (sym (append-nil (xs ++ z ∷ []))) o') w
            (Ordered-Before lo xs z c o' h)
        ∙ append_assoc xs (z ∷ []) (c ∷ []) in
      rw (at, e', end)
        (after xs z [] (subst (IsList s.objects l) e' is) (subst (λ ds. has new ds ≡ false) e' out))

  -- `memlist_add_region` links a new object with a non-empty range, which overlaps none of a list
  -- sorted by address, and whose `prev` is NULL, into that list, with more rounds than elements, at
  -- its place: the outcome is the sorted insertion, and no object off the list changes.
  pub place_region-insert :
      (k lo : ℕ) (cs : List Cell)
      → r.prev ≡ 0
      → r.start < r.end
      → IsList s.objects l cs
      → Ordered lo cs
      → has new cs ≡ false
      → Apart (cell new r) cs
      → length cs < k
      → Returns
          (λ l' t. Placed cs (insert (cell new r) cs) l' t)
          (place_region k l new r.start r.end s)
  unfolding place_region
  place_region-insert k lo [] p w is o out a f =
      rw (eq→== l.head 0 is.head, ← insert_none) (insert_front-cons s l new r ne e p [] is out)
  place_region-insert k lo (c ∷ cs) p w is o out a f =
      rw
        (
          ne→not_== l.head 0 (λ h. is.distinct.0 (sym is.head ∙ h)),
          read-ok s l.head _ (ap s.objects is.head ∙ is.chain.0),
        )
        (elim (Bool-cases (leb r.end c.start)) [
          | inl fits ↦
              rw (fits, ← insert_first c cs fits)
                (insert_front-cons s l new r ne e p (c ∷ cs) is out)
          | inr more ↦
              let (xs, z, e') = snoc_view c cs in
              let is' : IsList s.objects l (xs ++ z ∷ []) = subst (IsList s.objects l) e' is in
              let at : l.tail ≡ z.ptr = is'.tail ∙ last-append 0 xs (z ∷ []) in
              let last_one = (Seg-split xs (z ∷ []) s.objects 0 0 is'.chain).1.0 in
              rw (more, read-ok s l.tail _ (ap s.objects at ∙ last_one))
                (elim (Bool-cases (leb z.end r.start)) [
                  | inl h ↦
                      rw h (
                        place_last xs z lo l.tail (c ∷ cs) at e' w is o out
                          (leb→le z.end r.start h))
                  | inr h ↦
                      rw (h, ← insert_later c cs more)
                        (subst
                          (λ q.
                            Returns (Placed (c ∷ cs) (c ∷ insert (cell new r) cs))
                              (add_region_loop k l q new r.start r.end s))
                          (sym is.head)
                          (place_loop k [] c cs is out (ground arith) a.1 (omega arith)))
                ])
        ])
