-- ===== src/Memlist/Remove.antt =====
-- `memlist_remove` takes one element out of the list that the objects stand for.
use comp304_assignments.Prelude.{
  ℕ, ◌≡◌, refl, ◌≢◌, ◌∙◌, sym, false, not, some, List, [], ◌∷◌, ◌++◌, arith, ◌==◌, if◌then◌else◌,
  ne→not_==, eq→==,
}
use comp304_assignments.Machine.{Returns, returns, Returns-bind, when}
use comp304_assignments.Memlist.Objects.{
  Region, RegionList, Objects, Store, update, set_next, set_prev,
}
use comp304_assignments.Memlist.Steps.{update_self, update_ne, read-ok, set_next-ok, set_prev-ok}
use comp304_assignments.Memlist.Chain.{
  Cell, region, has, first, last, Seg, Distinct, IsList, SameOutside, Seg-frame, Seg-update,
  Seg-set_first, Seg-set_last, Seg-append, Seg-split, last_ne_zero, last_ne, last-region, has-last,
  last-append, has-front, has-apart, has-append, SameOutside-refl, Distinct-append, Distinct-drop,
  Distinct-apart,
}
use comp304_assignments.Memlist.{remove_links, remove}

-- `if (obj->next) obj->next->prev = …`
bypass_next :
    (s : Store) (p q : ℕ) (ys : List Cell)
    → Seg s.objects q 0 ys
    → Distinct ys
    → Returns
        (λ _ t. Seg t.objects p 0 ys × SameOutside ys s t)
        (when (not (first 0 ys == 0)) (set_prev (first 0 ys) p) s)
bypass_next s p q [] g d = returns (tt, SameOutside-refl [] s)
bypass_next s p q (y ∷ ys) g d =
    rw (ne→not_== y.ptr 0 d.0, set_prev-ok s y.ptr _ g.0 p)
      (returns (
        Seg-set_first y ys s.objects q 0 p g d,
        record {
          others = λ a h. update_ne s.objects y.ptr a _ (ground arith);
          freelist = refl;
          maps = refl;
        },
      ))

-- `if (obj->prev) obj->prev->next = …`
bypass_prev :
    (s : Store) (n m : ℕ) (xs : List Cell)
    → Seg s.objects 0 n xs
    → Distinct xs
    → Returns
        (λ _ t. Seg t.objects 0 m xs × SameOutside xs s t)
        (when (not (last 0 xs == 0)) (set_next (last 0 xs) m) s)
bypass_prev s n m [] g d = returns (tt, SameOutside-refl [] s)
bypass_prev s n m (x ∷ xs) g d =
    let (c, q, e) = last-region x xs s.objects 0 n g in
    rw (ne→not_== (last x.ptr xs) 0 (last_ne_zero x xs d), set_next-ok s (last x.ptr xs) _ e m)
      (returns (
        Seg-set_last x xs s.objects 0 n m (region c q n) g d e,
        record {
          others = λ a h.
              update_ne s.objects (last x.ptr xs) a _ (λ same. cc (has-last 0 x xs, same, h));
          freelist = refl;
          maps = refl;
        },
      ))

module _ (c : Cell) (l : RegionList) where
  drop_end-head :
      (xs ys : List Cell)
      → Distinct (xs ++ c ∷ ys)
      → l.head ≡ first 0 (xs ++ c ∷ ys)
      → (if l.head == c.ptr then first 0 ys else l.head) ≡ first 0 (xs ++ ys)
  drop_end-head [] ys d e = rw (eq→== l.head c.ptr e)
  drop_end-head (x ∷ xs) ys d e =
      rw (ne→not_== l.head c.ptr (ground (arith, has-append x.ptr xs (c ∷ ys)))) e

  drop_end-tail :
      (xs ys : List Cell)
      → Distinct (xs ++ c ∷ ys)
      → l.tail ≡ last 0 (xs ++ c ∷ ys)
      → (if l.tail == c.ptr then last 0 xs else l.tail) ≡ last 0 (xs ++ ys)
  drop_end-tail xs [] d e =
      rw (eq→== l.tail c.ptr (e ∙ last-append 0 xs (c ∷ [])), last-append 0 xs [])
  drop_end-tail xs (y ∷ ys) d e =
      let d' : Distinct (c ∷ y ∷ ys) = (Distinct-append xs (c ∷ y ∷ ys) d).1 in
      let at : l.tail ≡ last y.ptr ys = e ∙ last-append 0 xs (c ∷ y ∷ ys) in
      rw (ne→not_== l.tail c.ptr (λ same. last_ne c y ys d'.1 (sym same ∙ at)))
        (at ∙ sym (last-append 0 xs (y ∷ ys)))

module _ (s : Store) (l : RegionList) (xs : List Cell) (c : Cell) (ys : List Cell)
    (is : IsList s.objects l (xs ++ c ∷ ys)) where
  parts :
      Seg s.objects 0 c.ptr xs
      × (s.objects c.ptr ≡ some (region c (last 0 xs) (first 0 ys)))
      × Seg s.objects c.ptr 0 ys
      × (has c.ptr xs ≡ false)
      × (has c.ptr ys ≡ false)
      × Distinct xs
      × Distinct ys
  parts =
      let (front, back) = Seg-split xs (c ∷ ys) s.objects 0 0 is.chain in
      let (dx, dy) = Distinct-append xs (c ∷ ys) is.distinct in
      (front, back.0, back.1, has-front xs c ys is.distinct, dy.1, dx, dy.2)

  -- What is left once the neighbours are linked past the object.
  record Bypassed (u : Store) : Type 0 where
    front : Seg u.objects 0 (first 0 ys) xs
    back : Seg u.objects (last 0 xs) 0 ys
    here : u.objects c.ptr ≡ some (region c (last 0 xs) (first 0 ys))
    same : SameOutside (xs ++ c ∷ ys) s u

  Removed : RegionList → Store → Type 0
  Removed l' t =
      IsList t.objects l' (xs ++ ys)
      × (t.objects c.ptr ≡ some (region c 0 0))
      × SameOutside (xs ++ c ∷ ys) s t

  clear_links :
      (u : Store)
      → Bypassed u
      → Returns (λ l' t. Removed l' t) (remove_links l c.ptr (region c (last 0 xs) (first 0 ys)) u)
  unfolding remove_links Removed
  clear_links u b =
      let (_, _, _, out, out', _, _) = parts in
      let r : Region = region c (last 0 xs) 0 in
      let o1 : Objects = update u.objects c.ptr r in
      let u1 : Store = record u { objects = o1 } in
      let front : Seg o1 0 (first 0 ys) xs = Seg-update xs _ 0 _ c.ptr r b.front out in
      let back : Seg o1 (last 0 xs) 0 ys = Seg-update ys _ _ 0 c.ptr r b.back out' in
      rw (set_next-ok u c.ptr _ b.here 0, set_prev-ok u1 c.ptr r (update_self u.objects c.ptr r) 0)
        (returns (
          record {
            chain =
                Seg-append xs ys _ 0 0 (Seg-update xs o1 0 _ c.ptr _ front out)
                  (Seg-update ys o1 _ 0 c.ptr _ back out');
            distinct = Distinct-drop xs c ys is.distinct;
            head = drop_end-head c l xs ys is.distinct is.head;
            tail = drop_end-tail c l xs ys is.distinct is.tail;
          },
          update_self o1 c.ptr (region c 0 0),
          record {
            others = λ a h.
                let ne : a ≢ c.ptr = ground (arith, has-append a xs (c ∷ ys)) in
                update_ne o1 c.ptr a _ ne ∙ update_ne u.objects c.ptr a r ne ∙ b.same.others a h;
            freelist = b.same.freelist;
            maps = b.same.maps;
          },
        ))

  -- `memlist_remove` takes one object out of a list wherever it stands, clears that object's links,
  -- and touches no object off the list.
  pub remove-append :
      Returns
        (λ l' t.
          IsList t.objects l' (xs ++ ys)
          × (t.objects c.ptr ≡ some (region c 0 0))
          × SameOutside (xs ++ c ∷ ys) s t)
        (remove l c.ptr s)
  unfolding remove Removed
  remove-append =
      let (front, here, back, out, out', dx, dy) = parts in
      rw (read-ok s c.ptr _ here) (
        Returns-bind (bypass_next s (last 0 xs) c.ptr ys back dy) λ _ t (back', same).
          let here' : t.objects c.ptr ≡ some (region c (last 0 xs) (first 0 ys)) =
            same.others c.ptr out' ∙ here in
          let front' : Seg t.objects 0 c.ptr xs =
            Seg-frame xs s.objects t.objects 0 c.ptr front
              (λ a h. same.others a (ground (arith, Distinct-apart xs (c ∷ ys) a is.distinct))) in
          rw (read-ok t c.ptr _ here') (
            Returns-bind (bypass_prev t c.ptr (first 0 ys) xs front' dx) λ _ u (front'', same').
              let here'' : u.objects c.ptr ≡ some (region c (last 0 xs) (first 0 ys)) =
                same'.others c.ptr out ∙ here' in
              rw (read-ok u c.ptr _ here'') (
                clear_links u (record {
                  front = front'';
                  back =
                      Seg-frame ys t.objects u.objects _ 0 back' (λ a h.
                        same'.others a (has-apart xs (c ∷ ys) a is.distinct (ground arith)));
                  here = here'';
                  same = record {
                    others = λ a h.
                        same'.others a (ground (arith, has-append a xs (c ∷ ys)))
                        ∙ same.others a (ground (arith, has-append a xs (c ∷ ys)));
                    freelist = same'.freelist ∙ same.freelist;
                    maps = same'.maps ∙ same.maps;
                  };
                }))))
