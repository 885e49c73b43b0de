-- ===== src/Memlist/Tag.antt =====
-- Writing the mark of one object of a list.
use comp304_assignments.Prelude.{
  ℕ, ◌≡◌, refl, ap, sym, ◌∙◌, some, inl, inr, List, [], ◌∷◌, ◌++◌, leb, ◌==◌, ◌||◌, Bool-cases,
}
use comp304_assignments.Memlist.{RegionList, update}
use comp304_assignments.Memlist.Objects
use comp304_assignments.Memlist.Steps.{update_self}
use comp304_assignments.Memlist.Chain.{
  Cell, region, has, first, last, Distinct, IsList, Seg-split, Seg-append, Seg-update, has-front,
  Distinct-append, last-append,
}
use comp304_assignments.Memlist.Place.{insert}

-- The range `c`, with whichever mark, stands between `xs` and `ys`.
pub record Between (c : Cell) (cs : List Cell) : Type 0 where
  pub xs : List Cell
  pub ys : List Cell
  pub inserted : (tag : ℕ) → insert (record c { tag = tag }) cs ≡ xs ++ record c { tag = tag } ∷ ys

pub insert-Between : (c : Cell) (cs : List Cell) → Between c cs
unfolding insert
insert-Between c [] = record { xs = []; ys = []; inserted = λ tag. refl }
insert-Between c (d ∷ ds) = elim (Bool-cases (leb c.end d.start)) [
  | inl e ↦ record { xs = []; ys = d ∷ ds; inserted = λ tag. rw e }
  | inr e ↦
      let b = insert-Between c ds in
      record {
        xs = d ∷ b.xs;
        ys = b.ys;
        inserted = λ tag. rw e (ap (λ zs. d ∷ zs) (b.inserted tag));
      }
]

module _ (c : Cell) (tag : ℕ) (ys : List Cell) where
  abbrev pub tagged : Cell
  tagged = record c { tag = tag }

  has-tagged : (a : ℕ) (xs : List Cell) → has a (xs ++ tagged ∷ ys) ≡ has a (xs ++ c ∷ ys)
  has-tagged a [] = refl
  has-tagged a (x ∷ xs) = ap (λ b. (a == x.ptr) || b) (has-tagged a xs)

  Distinct-tagged : (xs : List Cell) → Distinct (xs ++ c ∷ ys) → Distinct (xs ++ tagged ∷ ys)
  Distinct-tagged [] d = d
  Distinct-tagged (x ∷ xs) d = (d.0, has-tagged x.ptr xs ∙ d.1, Distinct-tagged xs d.2)

  module _ (o : Objects.Objects) (l : RegionList) (xs : List Cell)
      (is : IsList o l (xs ++ c ∷ ys)) where
    -- What the object holds.
    pub object : o c.ptr ≡ some (region c (last 0 xs) (first 0 ys))
    object = (Seg-split xs (c ∷ ys) o 0 0 is.chain).1.0

    pub IsList-tagged :
        IsList (update o c.ptr (region tagged (last 0 xs) (first 0 ys))) l (xs ++ tagged ∷ ys)
    IsList-tagged =
        let r = region tagged (last 0 xs) (first 0 ys) in
        let (front, back) = Seg-split xs (c ∷ ys) o 0 0 is.chain in
        let (dx, dy) = Distinct-append xs (c ∷ ys) is.distinct in
        record {
          chain =
              Seg-append xs (tagged ∷ ys) (update o c.ptr r) 0 0
                (Seg-update xs o 0 c.ptr c.ptr r front (has-front xs c ys is.distinct))
                (update_self o c.ptr r, Seg-update ys o c.ptr 0 c.ptr r back.1 dy.1);
          distinct = Distinct-tagged xs is.distinct;
          head = is.head ∙ first-tagged xs;
          tail = is.tail ∙ last-append 0 xs (c ∷ ys) ∙ sym (last-append 0 xs (tagged ∷ ys));
        }
      where
        first-tagged : (xs : List Cell) → first 0 (xs ++ c ∷ ys) ≡ first 0 (xs ++ tagged ∷ ys)
        first-tagged [] = refl
        first-tagged (x ∷ xs) = refl
