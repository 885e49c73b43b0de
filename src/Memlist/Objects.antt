-- ===== src/Memlist/Objects.antt =====
-- `struct mem_region`, `struct mem_region_list`, and the memory that holds the region objects.
use comp304_assignments.Prelude.{ℕ, ◌+◌, ◌-◌, ◌^◌, not, Option, none, some, ◌==◌, if◌then◌else◌}
use comp304_assignments.Machine.{ok, fault, exit, Cmd, ◌>>=◌}

-- `struct mem_region`; its `data` is `tag` here.
pub record Region : Type 0 where
  pub start : ℕ
  pub end : ℕ
  pub tag : ℕ
  pub next : ℕ
  pub prev : ℕ

-- `sizeof(struct mem_region)`: five words
abbrev pub region_size : ℕ
region_size = 40

-- `struct mem_region_list`
pub record RegionList : Type 0 where
  pub head : ℕ
  pub tail : ℕ

-- The objects by their addresses; none stands at NULL.
abbrev pub Objects : Type 0
Objects = ℕ → Option Region

pub record Store : Type 0 where
  pub objects : Objects
  pub freelist : RegionList
  pub maps : ℕ

-- The kernel: the address that the n-th `mmap` returns for a length.
pub record Os : Type 0 where
  pub mmap : ℕ → ℕ → ℕ

-- `MAP_FAILED`
abbrev pub map_failed : ℕ
map_failed = 2 ^ 64 - 1

unfoldable pub update : Objects → ℕ → Region → Objects
update o p r q = if q == p then some r else o q

-- `*p`: a fault where no object stands
unfoldable pub read : ℕ → Cmd Store Region
read p s = elim (s.objects p) [ none ↦ fault | some r ↦ ok r s ]

abbrev pub write : ℕ → Region → Cmd Store (Unit {0})
write p r s = ok tt (record s { objects = update s.objects p r })

-- `p->next = q` and `p->prev = q`
unfoldable pub set_next : (p q : ℕ) → Cmd Store (Unit {0})
set_next p q = do r ← read p; write p (record r { next = q })

unfoldable pub set_prev : (p q : ℕ) → Cmd Store (Unit {0})
set_prev p q = do r ← read p; write p (record r { prev = q })

unfoldable pub set_range : (p start end : ℕ) → Cmd Store (Unit {0})
set_range p start end = do r ← read p; write p (record r { start = start; end = end })

unfoldable pub set_tag : (p tag : ℕ) → Cmd Store (Unit {0})
set_tag p tag = do r ← read p; write p (record r { tag = tag })

-- fresh memory from the kernel, which is zeroed
unfoldable pub new_object : ℕ → Cmd Store (Unit {0})
new_object p = write p (record { start = 0; end = 0; tag = 0; next = 0; prev = 0 })

abbrev pub get_freelist : Cmd Store RegionList
get_freelist s = ok s.freelist s

abbrev pub set_freelist : RegionList → Cmd Store (Unit {0})
set_freelist l s = ok tt (record s { freelist = l })

-- `orig_mmap`, with its assertion that the kernel did not refuse
unfoldable pub call_mmap : Os → ℕ → Cmd Store ℕ
call_mmap os len s =
    let p = os.mmap s.maps len in
    if not (p == map_failed) then ok p (record s { maps = s.maps + 1 }) else exit
