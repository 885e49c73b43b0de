-- ===== src/Alloc/Realloc.antt =====
-- `kurealloc` of alloc.c, and the libc names that it defines.
use comp304_assignments.Prelude.{ℕ, not, ◌&&◌, leb, ◌==◌, if◌then◌else◌}
use comp304_assignments.Prelude.Words.{add64, sub64}
use comp304_assignments.Machine.{Cmd, pure, ◌>>=◌, ◌>>◌}
use comp304_assignments.Memlist.{Os}
use comp304_assignments.System.{System}
use comp304_assignments.System.Access.{copy}
use comp304_assignments.Alloc.Fields.{block_size, get_size, size_align}
use comp304_assignments.Alloc.Malloc.{kumalloc, kucalloc}
use comp304_assignments.Alloc.Free.{kufree}

unfoldable pub kurealloc : Os → ℕ → (ptr size : ℕ) → Cmd System ℕ
kurealloc os k ptr size =
    if size == 0 && not (ptr == 0)
    then (do kufree os k ptr; pure 0)
    else if ptr == 0
    then kumalloc os k size
    else do
      let h = sub64 ptr block_size
      prev_size ← get_size h
      if leb size prev_size then pure ptr else do
        let total_size = size_align (add64 size block_size)
        block ← kumalloc os k total_size
        copy block ptr prev_size
        pure block

unfoldable pub malloc : Os → ℕ → ℕ → Cmd System ℕ
malloc = kumalloc

unfoldable pub calloc : Os → ℕ → (nmemb size : ℕ) → Cmd System ℕ
calloc = kucalloc

unfoldable pub realloc : Os → ℕ → (ptr size : ℕ) → Cmd System ℕ
realloc = kurealloc

unfoldable pub free : Os → ℕ → ℕ → Cmd System (Unit {0})
free = kufree
