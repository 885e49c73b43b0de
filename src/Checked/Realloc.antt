-- ===== src/Checked/Realloc.antt =====
-- `checked_realloc` of checked_alloc.c.
use comp304_assignments.Prelude.{ℕ, zero, suc, ◌+◌, ◌-◌, ◌^◌, Bool, not, ltb, ◌==◌, if◌then◌else◌}
use comp304_assignments.Machine.{Cmd, pure, ◌>>=◌, ◌>>◌, assert}
use comp304_assignments.Memlist.{Os, read, set_tag, find, remove, add_region}
use comp304_assignments.System.{System, gets, memlist}
use comp304_assignments.System.Access.{fill, load_byte}
use comp304_assignments.Alloc.Realloc.{kurealloc, realloc}
use comp304_assignments.Checked.Data.{
  get_data, region_check_data, memlist_check_data, get_allocs, set_allocs,
}
use comp304_assignments.Checked.Alloc.{alloc_kurealloc, alloc_sysrealloc, checked_alloc_with}
use comp304_assignments.Checked.Free.{checked_free_with}
use comp304_assignments.Checked.Alloc

-- A plain `char` is signed on the x86-64 target, so `(unsigned long) newptr[i]` extends the sign.
unfoldable pub long_of_char : ℕ → ℕ
long_of_char b = if ltb b 128 then b else b + (2 ^ 64 - 256)

-- `for (i = 0; i < check_size; i++) assert((unsigned long) newptr[i] == alloc->data, …)`
unfoldable pub check_retained : (n ptr tag : ℕ) → Cmd System (Unit {0})
unfolding long_of_char
check_retained zero ptr tag = pure tt
check_retained (suc n) ptr tag = do
  b ← load_byte ptr
  assert (long_of_char b == tag)
  check_retained n (ptr + 1) tag

-- Both pointer and size are given: the old buffer's record is replaced.
unfoldable pub checked_resize : Os → ℕ → Bool → (ptr size : ℕ) → Cmd System ℕ
checked_resize os k sys ptr size = do
  l ← get_allocs
  alloc ← memlist (find k l ptr)
  assert (not (alloc == 0))
  r ← memlist (read alloc)
  assert (ptr == r.start)
  let old_size = r.end - r.start
  region_check_data r
  newptr ← (if sys then realloc os k ptr size else kurealloc os k ptr size)
  check_retained (if ltb old_size size then old_size else size) newptr r.tag
  l ← get_allocs
  l' ← memlist (remove l alloc)
  (l'', new) ← memlist (add_region os k l' newptr size)
  set_allocs l''
  byte ← get_data
  memlist (set_tag new byte)
  fill newptr byte size
  memlist_check_data k l''
  pure newptr

unfoldable pub checked_realloc : Os → ℕ → (ptr size : ℕ) → Cmd System ℕ
unfolding checked_resize
checked_realloc os k ptr size = do
  f ← gets (λ s. s.framework)
  if ptr == 0
      then checked_alloc_with os k 1 size
          (if f.use_system_alloc then alloc_sysrealloc else alloc_kurealloc)
      else if size == 0
      then (do
        checked_free_with os k ptr
            (if f.use_system_alloc then Alloc.alloc_sysfree else Alloc.alloc_kufree)
        pure 0)
      else checked_resize os k f.use_system_alloc ptr size
