-- ===== src/Tests/Memlist.antt =====
-- The theorems on the lists of test_framework/memlist.c, at a list of two regions.
use comp304_assignments.Prelude.{
  ◌≡◌, refl, inl, inr, none, some, List, [], ◌∷◌, arith, ◌==◌, if◌then◌else◌,
}
use comp304_assignments.Machine.{Returns, ok}
use comp304_assignments.Memlist.{
  Region, RegionList, Store, regions_overlap, remove, find, find_overlap, add_region,
}
use comp304_assignments.Memlist.Chain.{Cell, region, IsList, SameOutside}
use comp304_assignments.Memlist.Remove.{remove-append}
use comp304_assignments.Memlist.Ordered.{owner, find-owner, find_overlap-head}
use comp304_assignments.Memlist.Pool.{AreDisjoint, IsAdded, add_region-IsAdded}

-- [100, 110) at 40, [200, 230) at 80, and a spare object [120, 130) at 120.
abbrev low : Cell
low = record { ptr = 40; start = 100; end = 110; tag = 1 }

abbrev high : Cell
high = record { ptr = 80; start = 200; end = 230; tag = 2 }

abbrev spare : Region
spare = record { start = 120; end = 130; tag = 0; next = 0; prev = 0 }

abbrev pub both : List Cell
both = low ∷ high ∷ []

abbrev s : Store
s = record {
  objects = λ p.
      if p == 40
      then some (region low 0 80)
      else if p == 80
      then some (region high 40 0)
      else if p == 120
      then some spare
      else none;
  freelist = record { head = 0; tail = 0 };
  maps = 0;
}

abbrev pub l : RegionList
l = record { head = 40; tail = 80 }

both-IsList : IsList s.objects l both
both-IsList = record {
  chain = (refl, (refl, tt));
  distinct = (omega arith, refl, (omega arith, refl, tt));
  head = refl;
  tail = refl;
}

remove-append_example :
    Returns
      (λ l' t.
        IsList t.objects l' (low ∷ [])
        × (t.objects 80 ≡ some (region high 0 0))
        × SameOutside both s t)
      (remove l 80 s)
remove-append_example = remove-append s l (low ∷ []) high [] both-IsList

find-owner_example : find 3 l 215 s ≡ ok (owner 215 both) s
find-owner_example = find-owner s 3 215 0 l both both-IsList (omega arith) (omega arith)

find_overlap-head_example :
    find_overlap 3 l (region high 0 0) s
    ≡ ok
        (if regions_overlap (region low 0 0) (region high 0 0)
          then some (region high 0 0)
          else none)
        s
find_overlap-head_example =
    find_overlap-head s (region high 0 0) 2 0 l low (high ∷ []) both-IsList (omega arith)

-- The second element overlaps the region, and the search answers NULL.
find_overlap_misses : find_overlap 3 l (region high 0 0) s ≡ ok none s
unfolding find_overlap regions_overlap
find_overlap_misses = find_overlap-head_example

-- The same list, with an object at 160 in the pool.
abbrev pub idle : Cell
idle = record { ptr = 160; start = 0; end = 0; tag = 0 }

abbrev pub pooled : Store
pooled = record {
  objects = λ p. if p == 160 then some (region idle 0 0) else s.objects p;
  freelist = record { head = 160; tail = 160 };
  maps = 1;
}

pub pooled-IsList : IsList pooled.objects l both
pooled-IsList = record {
  chain = (refl, (refl, tt));
  distinct = (omega arith, refl, (omega arith, refl, tt));
  head = refl;
  tail = refl;
}

pub pool-IsList : IsList pooled.objects pooled.freelist (idle ∷ [])
pool-IsList = record {
  chain = (refl, tt);
  distinct = (omega arith, refl, tt);
  head = refl;
  tail = refl;
}

pub pool-AreDisjoint : AreDisjoint (idle ∷ []) both
pool-AreDisjoint a h = ground arith

add_region-IsAdded_example :
    Returns
      (IsAdded
        (record { mmap = λ n len. 0 })
        pooled
        l
        both
        idle
        []
        pooled-IsList
        pool-IsList
        pool-AreDisjoint
        120
        10)
      (add_region (record { mmap = λ n len. 0 }) 3 l 120 10 pooled)
add_region-IsAdded_example =
    add_region-IsAdded (record { mmap = λ n len. 0 }) pooled l both idle [] pooled-IsList
      pool-IsList pool-AreDisjoint 120 10 3 0 (omega arith) (omega arith)
      (omega arith, omega arith, (omega arith, omega arith, tt))
      (inr (omega arith), (inl (omega arith), tt)) (omega arith)
