-- ===== src/Memlist/Ordered.antt =====
-- Lists sorted by address, and what the searches of memlist.c find in them.
use comp304_assignments.Prelude.{
  ℕ, zero, suc, ◌≤◌, ◌<◌, ◌≡◌, refl, ap, sym, inl, inr, ◌↔◌, Bool, true, false, ◌&&◌, ◌||◌, none,
  some, List, [], ◌∷◌, arith, ltb, leb, if◌then◌else◌, length, ne→not_==, Bool-cases, le→leb,
  leb→le,
}
use native.Mathlib.Nat.{le_trans}
use comp304_assignments.Machine.{ok}
use comp304_assignments.Memlist.Objects.{Region, RegionList, Store}
use comp304_assignments.Memlist.Steps.{read-ok}
use comp304_assignments.Memlist.Chain.{Cell, region, first, last, Seg, Distinct, IsList}
use comp304_assignments.Memlist.{
  regions_overlap, find_overlap, find_unsorted_loop, find_overlap_unsorted, find_loop, find,
}

-- Non-empty ranges in ascending order from `lo` on, none overlapping the next.
abbrev pub Ordered : ℕ → List Cell → Type 0
Ordered lo [] = Unit
Ordered lo (c ∷ cs) = (lo ≤ c.start) × (c.start < c.end) × Ordered c.end cs

-- Two non-empty ranges overlap by `regions_overlap` exactly when an address is in both.
pub regions_overlap_iff :
    (a b : Region)
    → a.start < a.end
    → b.start < b.end
    → (regions_overlap a b ≡ true)
      ↔ ((x : ℕ) × (a.start ≤ x) × (x < a.end) × (b.start ≤ x) × (x < b.end))
unfolding regions_overlap
regions_overlap_iff a b ha hb = (
  λ h. (
    if leb a.start b.start then b.start else a.start,
    ground arith,
    ground arith,
    ground arith,
    ground arith,
  ),
  λ (x, p, q, r, t). ground arith,
)

-- The cell that holds an address, by looking at every cell.
pub owner : ℕ → List Cell → ℕ
owner p [] = 0
owner p (c ∷ cs) = if leb c.start p && ltb p c.end then c.ptr else owner p cs

owner_below : (p lo : ℕ) (cs : List Cell) → Ordered lo cs → p < lo → owner p cs ≡ 0
unfolding owner
owner_below p lo [] o h = refl
owner_below p lo (c ∷ cs) o h = ground (arith, owner_below p c.end cs o.2)

module _ (s : Store) where
  find_loop-owner :
      (k p q lo : ℕ) (cs : List Cell)
      → Seg s.objects q 0 cs
      → Distinct cs
      → Ordered lo cs
      → length cs < k
      → find_loop k (first 0 cs) p s ≡ ok (owner p cs) s
  unfolding find_loop owner
  find_loop-owner zero p q lo cs g d o h = absurd (omega arith)
  find_loop-owner (suc k) p q lo [] g d o h = refl
  find_loop-owner (suc k) p q lo (c ∷ cs) g d o h =
      rw (ne→not_== c.ptr 0 d.0, read-ok s c.ptr _ g.0)
        (elim (Bool-cases (leb c.start p)) [
          | inl a ↦ elim (Bool-cases (ltb p c.end)) [
            | inl b ↦ rw (a, b)
            | inr b ↦ rw (a, b) (find_loop-owner k p c.ptr c.end cs g.1 d.2 o.2 (omega arith))
          ]
          | inr a ↦ rw a (ap (λ q. ok q s) (sym (owner_below p c.end cs o.2 (ground arith))))
        ])

  -- On a list sorted by address, with more rounds than elements, `memlist_find` returns the object
  -- whose range holds the address, or NULL: what a look at every element would find.
  pub find-owner :
      (k p lo : ℕ) (l : RegionList) (cs : List Cell)
      → IsList s.objects l cs
      → Ordered lo cs
      → length cs < k
      → find k l p s ≡ ok (owner p cs) s
  unfolding find
  find-owner k p lo l cs is o h = rw is.head (find_loop-owner k p 0 lo cs is.chain is.distinct o h)

-- Whether some element overlaps the region.
unfoldable pub any_overlap : List Cell → Region → Bool
unfolding regions_overlap
any_overlap [] r = false
any_overlap (c ∷ cs) r = regions_overlap (region c 0 0) r || any_overlap cs r

module _ (s : Store) (r : Region) where
  find_unsorted_loop-any :
      (k q : ℕ) (cs : List Cell)
      → Seg s.objects q 0 cs
      → Distinct cs
      → length cs < k
      → find_unsorted_loop k (first 0 cs) r s ≡ ok (if any_overlap cs r then some r else none) s
  unfolding find_unsorted_loop any_overlap
  find_unsorted_loop-any zero q cs g d h = absurd (omega arith)
  find_unsorted_loop-any (suc k) q [] g d h = refl
  find_unsorted_loop-any (suc k) q (c ∷ cs) g d h =
      rw (ne→not_== c.ptr 0 d.0, read-ok s c.ptr _ g.0)
        (elim (Bool-cases (leb c.end r.start || leb r.end c.start)) [
          | inl a ↦ rw a (find_unsorted_loop-any k c.ptr cs g.1 d.2 (omega arith))
          | inr a ↦ rw a
        ])

  -- `memlist_find_overlap_unsorted`, with more rounds than elements, answers the region exactly if
  -- some element of the list overlaps it.
  pub find_overlap_unsorted-any :
      (k : ℕ) (l : RegionList) (cs : List Cell)
      → IsList s.objects l cs
      → length cs < k
      → find_overlap_unsorted k l r s ≡ ok (if any_overlap cs r then some r else none) s
  unfolding find_overlap_unsorted
  find_overlap_unsorted-any k l cs is h =
      rw is.head (find_unsorted_loop-any k 0 cs is.chain is.distinct h)

  -- The last range of a sorted list does not end before the first.
  last_range :
      (q lo : ℕ) (c : Cell) (cs : List Cell)
      → Seg s.objects q 0 (c ∷ cs)
      → Ordered lo (c ∷ cs)
      → (t : Region) × (s.objects (last c.ptr cs) ≡ some t) × (c.end ≤ t.end)
  last_range q lo c [] g o = (region c q 0, g.0, omega arith)
  last_range q lo c (d ∷ ds) g o =
      let (t, e, h) = last_range c.ptr c.end d ds g.1 o.2 in (t, e, omega arith)

  -- On a non-empty sorted list, with at least one round, `memlist_find_overlap` decides by the
  -- first element alone: it answers the region if that element overlaps it and NULL otherwise,
  -- whatever the later elements are.
  pub find_overlap-head :
      (k lo : ℕ) (l : RegionList) (c : Cell) (cs : List Cell)
      → IsList s.objects l (c ∷ cs)
      → Ordered lo (c ∷ cs)
      → find_overlap (suc k) l r s
        ≡ ok (if regions_overlap (region c 0 0) r then some r else none) s
  unfolding find_overlap
  find_overlap-head k lo l c cs is o =
      let (t, e, h) = last_range 0 lo c cs is.chain o in
      rw (is.head, is.tail, ne→not_== c.ptr 0 is.distinct.0, read-ok s c.ptr _ is.chain.0)
        (elim (Bool-cases (leb r.end c.start)) [
          | inl a ↦ rw a (elim (Bool-cases (leb c.end r.start)) [ inl b ↦ rw b | inr b ↦ rw b ])
          | inr a ↦
              rw (a, read-ok s _ t e)
                (elim (Bool-cases (leb t.end r.start)) [
                  | inl b ↦ rw (b, le→leb c.end r.start (le_trans h (leb→le t.end r.start b)))
                  | inr b ↦
                      rw (b, read-ok s c.ptr _ is.chain.0, a)
                        (elim (Bool-cases (leb c.end r.start)) [ inl x ↦ rw x | inr x ↦ rw x ])
                ])
        ])
