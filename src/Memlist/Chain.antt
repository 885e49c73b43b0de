-- ===== src/Memlist/Chain.antt =====
-- What a list of region objects stands for: its cells in order, linked both ways.
use comp304_assignments.Prelude.{
  ℕ, ◌≡◌, refl, ◌≢◌, Bool, true, false, ◌||◌, some, List, [], ◌∷◌, ◌++◌, arith, ◌==◌, ne→not_==,
}
use comp304_assignments.Memlist.Objects.{Region, RegionList, Objects, Store, update}

-- An object without its links.
pub record Cell : Type 0 where
  pub ptr : ℕ
  pub start : ℕ
  pub end : ℕ
  pub tag : ℕ

abbrev pub cell : ℕ → Region → Cell
cell p r = record { ptr = p; start = r.start; end = r.end; tag = r.tag }

abbrev pub region : Cell → (prev next : ℕ) → Region
region c p n = record { start = c.start; end = c.end; tag = c.tag; next = n; prev = p }

abbrev pub has : ℕ → List Cell → Bool
has a [] = false
has a (c ∷ cs) = (a == c.ptr) || has a cs

abbrev pub first : ℕ → List Cell → ℕ
first n [] = n
first n (c ∷ cs) = c.ptr

abbrev pub last : ℕ → List Cell → ℕ
last p [] = p
last p (c ∷ cs) = last c.ptr cs

-- The objects of `cs` are linked both ways, between `p` before them and `n` behind them.
abbrev pub Seg : Objects → (p n : ℕ) → List Cell → Type 0
Seg o p n [] = Unit
Seg o p n (c ∷ cs) = (o c.ptr ≡ some (region c p (first n cs))) × Seg o c.ptr n cs

-- No object stands twice in the list, and none at NULL.
abbrev pub Distinct : List Cell → Type 0
Distinct [] = Unit
Distinct (c ∷ cs) = (c.ptr ≢ 0) × (has c.ptr cs ≡ false) × Distinct cs

pub record IsList (o : Objects) (l : RegionList) (cs : List Cell) : Type 0 where
  pub chain : Seg o 0 0 cs
  pub distinct : Distinct cs
  pub head : l.head ≡ first 0 cs
  pub tail : l.tail ≡ last 0 cs

-- The other objects, the free list and the count of mappings are as before.
pub record SameOutside (cs : List Cell) (s t : Store) : Type 0 where
  pub others : (a : ℕ) → has a cs ≡ false → t.objects a ≡ s.objects a
  pub freelist : t.freelist ≡ s.freelist
  pub maps : t.maps ≡ s.maps

pub has-append : (a : ℕ) (xs ys : List Cell) → has a (xs ++ ys) ≡ (has a xs || has a ys)
has-append a [] ys = refl
has-append a (x ∷ xs) ys = ground (arith, has-append a xs ys)

pub Seg-frame :
    (cs : List Cell) (o o' : Objects) (p n : ℕ)
    → Seg o p n cs
    → ((a : ℕ) → has a cs ≡ true → o' a ≡ o a)
    → Seg o' p n cs
Seg-frame [] o o' p n g same = tt
Seg-frame (c ∷ cs) o o' p n g same =
    (ground (arith, same c.ptr), Seg-frame cs o o' c.ptr n g.1 (λ a h. same a (ground arith)))

pub Seg-update :
    (cs : List Cell) (o : Objects) (p n a : ℕ) (r : Region)
    → Seg o p n cs
    → has a cs ≡ false
    → Seg (update o a r) p n cs
unfolding update
Seg-update cs o p n a r g out = Seg-frame cs o _ p n g (λ b h. ground arith)

pub Seg-append :
    (xs ys : List Cell) (o : Objects) (p n : ℕ)
    → Seg o p (first n ys) xs
    → Seg o (last p xs) n ys
    → Seg o p n (xs ++ ys)
Seg-append [] ys o p n g h = h
Seg-append (x ∷ []) ys o p n g h = (g.0, h)
Seg-append (x ∷ y ∷ xs) ys o p n g h = (g.0, Seg-append (y ∷ xs) ys o x.ptr n g.1 h)

pub Seg-split :
    (xs ys : List Cell) (o : Objects) (p n : ℕ)
    → Seg o p n (xs ++ ys)
    → Seg o p (first n ys) xs × Seg o (last p xs) n ys
Seg-split [] ys o p n g = (tt, g)
Seg-split (x ∷ []) ys o p n g = ((g.0, tt), g.1)
Seg-split (x ∷ y ∷ xs) ys o p n g =
    let (a, b) = Seg-split (y ∷ xs) ys o x.ptr n g.1 in ((g.0, a), b)

pub has-last : (p : ℕ) (c : Cell) (cs : List Cell) → has (last p (c ∷ cs)) (c ∷ cs) ≡ true
has-last p c [] = ground arith
has-last p c (d ∷ ds) = ground (arith, has-last c.ptr d ds)

pub last_ne : (c d : Cell) (ds : List Cell) → has c.ptr (d ∷ ds) ≡ false → c.ptr ≢ last d.ptr ds
last_ne c d ds h e = cc (has-last c.ptr d ds, h, e)

-- The last object of a segment.
pub last-region :
    (c : Cell) (cs : List Cell) (o : Objects) (p n : ℕ)
    → Seg o p n (c ∷ cs)
    → (d : Cell) × (q : ℕ) × (o (last p (c ∷ cs)) ≡ some (region d q n))
last-region c [] o p n g = (c, p, g.0)
last-region c (d ∷ ds) o p n g = last-region d ds o c.ptr n g.1

-- Writing the `next` of the last object moves the end of a segment.
pub Seg-set_last :
    (c : Cell) (cs : List Cell) (o : Objects) (p n m : ℕ) (r : Region)
    → Seg o p n (c ∷ cs)
    → Distinct (c ∷ cs)
    → o (last c.ptr cs) ≡ some r
    → Seg (update o (last c.ptr cs) (record r { next = m })) p m (c ∷ cs)
unfolding update
Seg-set_last c [] o p n m r g d e = (ground arith, tt)
Seg-set_last c (d ∷ ds) o p n m r g ne e = (kept, Seg-set_last d ds o c.ptr n m r g.1 ne.2 e)
  where
    kept : update o (last d.ptr ds) (record r { next = m }) c.ptr ≡ some (region c p d.ptr)
    kept = rw (ne→not_== _ _ (last_ne c d ds ne.1)) g.0

-- Writing the `prev` of the first object moves the start.
pub Seg-set_first :
    (c : Cell) (cs : List Cell) (o : Objects) (p n q : ℕ)
    → Seg o p n (c ∷ cs)
    → Distinct (c ∷ cs)
    → Seg (update o c.ptr (region c q (first n cs))) q n (c ∷ cs)
unfolding update
Seg-set_first c cs o p n q g d =
    (ground arith, Seg-update cs o c.ptr n c.ptr (region c q (first n cs)) g.1 d.1)

pub Distinct-append : (xs ys : List Cell) → Distinct (xs ++ ys) → Distinct xs × Distinct ys
Distinct-append [] ys d = (tt, d)
Distinct-append (x ∷ xs) ys d =
    let (a, b) = Distinct-append xs ys d.2 in ((d.0, ground (arith, has-append x.ptr xs ys), a), b)

pub Distinct-drop :
    (xs : List Cell) (c : Cell) (ys : List Cell) → Distinct (xs ++ c ∷ ys) → Distinct (xs ++ ys)
Distinct-drop [] c ys d = d.2
Distinct-drop (x ∷ xs) c ys d = (
  d.0,
  ground (arith, has-append x.ptr xs (c ∷ ys), has-append x.ptr xs ys),
  Distinct-drop xs c ys d.2,
)

-- The two halves of a list have no object in common.
pub Distinct-apart :
    (xs ys : List Cell) (a : ℕ) → Distinct (xs ++ ys) → has a xs ≡ true → has a ys ≡ false
Distinct-apart (x ∷ xs) ys a d h =
    ground (arith, Distinct-apart xs ys a d.2, has-append x.ptr xs ys)
Distinct-apart [] ys a d h = cc

pub has_zero : (cs : List Cell) → Distinct cs → has 0 cs ≡ false
has_zero [] d = refl
has_zero (c ∷ cs) d = ground (arith, has_zero cs d.2)

pub last_ne_zero : (c : Cell) (cs : List Cell) → Distinct (c ∷ cs) → last c.ptr cs ≢ 0
last_ne_zero c [] d = d.0
last_ne_zero c (e ∷ es) d = last_ne_zero e es d.2

pub last-append : (p : ℕ) (xs ys : List Cell) → last p (xs ++ ys) ≡ last (last p xs) ys
last-append p [] ys = refl
last-append p (x ∷ xs) ys = last-append x.ptr xs ys

pub first-append : (n : ℕ) (xs ys : List Cell) → first n (xs ++ ys) ≡ first (first n ys) xs
first-append n [] ys = refl
first-append n (x ∷ xs) ys = refl

pub SameOutside-refl : (cs : List Cell) (s : Store) → SameOutside cs s s
SameOutside-refl cs s = record { others = λ a h. refl; freelist = refl; maps = refl }

pub has-front :
    (xs : List Cell) (c : Cell) (ys : List Cell) → Distinct (xs ++ c ∷ ys) → has c.ptr xs ≡ false
has-front [] c ys d = refl
has-front (x ∷ xs) c ys d = ground (arith, has-front xs c ys d.2, has-append x.ptr xs (c ∷ ys))

-- An object of the second part is not in the first.
pub has-apart :
    (xs ys : List Cell) (a : ℕ) → Distinct (xs ++ ys) → has a ys ≡ true → has a xs ≡ false
has-apart [] ys a d h = refl
has-apart (x ∷ xs) ys a d h = ground (arith, has-apart xs ys a d.2 h, has-append x.ptr xs ys)

pub Distinct-insert :
    (xs : List Cell) (c : Cell) (ys : List Cell)
    → Distinct (xs ++ ys)
    → c.ptr ≢ 0
    → has c.ptr (xs ++ ys) ≡ false
    → Distinct (xs ++ c ∷ ys)
Distinct-insert [] c ys d ne out = (ne, out, d)
Distinct-insert (x ∷ xs) c ys d ne out = (
  d.0,
  ground (arith, has-append x.ptr xs ys, has-append x.ptr xs (c ∷ ys)),
  Distinct-insert xs c ys d.2 ne (ground arith),
)

pub SameOutside-mono :
    (cs ds : List Cell) {s t : Store}
    → ((a : ℕ) → has a ds ≡ false → has a cs ≡ false)
    → SameOutside cs s t
    → SameOutside ds s t
SameOutside-mono cs ds sub same = record {
  others = λ a h. same.others a (sub a h);
  freelist = same.freelist;
  maps = same.maps;
}
