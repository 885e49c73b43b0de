-- ===== src/Memlist/Place.antt =====
-- Where `memlist_add_region` puts a new range in a sorted list.
use comp304_assignments.Prelude.{
  ℕ, ◌≤◌, ◌<◌, ◌≡◌, refl, ap, ◌⊎◌, inl, inr, false, List, [], ◌∷◌, ◌++◌, arith, leb, if◌then◌else◌,
  Bool-cases,
}
use native.Mathlib.Nat.{le_trans}
use comp304_assignments.Memlist.Chain.{Cell}
use comp304_assignments.Memlist.Ordered.{Ordered}

-- The sorted list with one more range, by a look at every element.
unfoldable pub insert : Cell → List Cell → List Cell
insert c [] = c ∷ []
insert c (d ∷ ds) = if leb c.end d.start then c ∷ d ∷ ds else d ∷ insert c ds

-- The range `c` overlaps none of the others.
abbrev pub Apart : Cell → List Cell → Type 0
Apart c [] = Unit
Apart c (d ∷ ds) = ((c.end ≤ d.start) ⊎ (d.end ≤ c.start)) × Apart c ds

pub insert-Ordered :
    (lo : ℕ) (c : Cell) (cs : List Cell)
    → Ordered lo cs
    → c.start < c.end
    → lo ≤ c.start
    → Apart c cs
    → Ordered lo (insert c cs)
unfolding insert
insert-Ordered lo c [] o h k a = omega arith
insert-Ordered lo c (d ∷ ds) o h k a = elim (Bool-cases (leb c.end d.start)) [
  | inl e ↦ rw e (ground arith)
  | inr e ↦ rw e (o.0, o.1, insert-Ordered d.end c ds o.2 h (ground arith) a.1)
]

-- All of `xs` ends before `c` starts.
abbrev pub Before : List Cell → Cell → Type 0
Before [] c = Unit
Before (x ∷ xs) c = (x.end ≤ c.start) × Before xs c

pub insert-append :
    (lo : ℕ) (c : Cell) (xs ys : List Cell)
    → Ordered lo (xs ++ ys)
    → c.start < c.end
    → Before xs c
    → insert c (xs ++ ys) ≡ xs ++ insert c ys
unfolding insert
insert-append lo c [] ys o h b = refl
insert-append lo c (x ∷ xs) ys o h b =
    let not_first : leb c.end x.start ≡ false = ground arith in
    rw (not_first, insert-append x.end c xs ys o.2 h b.1)

-- A range that starts before `z` ends behind all that stands before `z`, stands before `z`.
pub Before-snoc :
    (xs : List Cell) (z c : Cell) → Before xs c → z.end ≤ c.start → Before (xs ++ z ∷ []) c
Before-snoc [] z c b h = (h, tt)
Before-snoc (x ∷ xs) z c b h = (b.0, Before-snoc xs z c b.1 h)

pub Apart-append : (c : Cell) (xs ys : List Cell) → Apart c (xs ++ ys) → Apart c ys
Apart-append c [] ys a = a
Apart-append c (x ∷ xs) ys a = Apart-append c xs ys a.1

pub Ordered-Before :
    (lo : ℕ) (xs : List Cell) (z c : Cell)
    → Ordered lo (xs ++ z ∷ [])
    → z.end ≤ c.start
    → Before (xs ++ z ∷ []) c
Ordered-Before lo [] z c o h = (h, tt)
Ordered-Before lo (x ∷ xs) z c o h =
    (le_trans (ends x.end xs z o.2) h, Ordered-Before x.end xs z c o.2 h)
  where
    ends : (lo : ℕ) (xs : List Cell) (z : Cell) → Ordered lo (xs ++ z ∷ []) → lo ≤ z.end
    ends lo [] z o = omega arith
    ends lo (x ∷ xs) z o = omega (arith, ends x.end xs z o.2)

-- The last element of a list that is not empty.
pub snoc_view :
    (c : Cell) (cs : List Cell) → (xs : List Cell) × (z : Cell) × (c ∷ cs ≡ xs ++ z ∷ [])
snoc_view c [] = ([], c, refl)
snoc_view c (d ∷ ds) = let (xs, z, e) = snoc_view d ds in (c ∷ xs, z, ap (λ l. c ∷ l) e)
