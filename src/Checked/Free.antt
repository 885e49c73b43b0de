-- ===== src/Checked/Free.antt =====
-- `_checked_free` and `checked_free` of checked_alloc.c.
use comp304_assignments.Prelude.{ℕ, ◌-◌, ◌^◌, Bool, not, ◌==◌, if◌then◌else◌}
use comp304_assignments.Prelude.Words.{sub64}
use comp304_assignments.Machine.{Cmd, exit, pure, ◌>>=◌, ◌>>◌, assert}
use comp304_assignments.Memlist.{Os, read, set_tag, find, remove, insert_front, free_region_object}
use comp304_assignments.System.{System, gets, modify_framework, memlist}
use comp304_assignments.System.Access.{fill}
use comp304_assignments.Alloc.Free.{kufree}
use comp304_assignments.Alloc.Realloc.{kurealloc, realloc, free}
use comp304_assignments.Checked.Data.{
  region_check_data, memlist_check_data, get_allocs, set_allocs, get_zero_sized, set_zero_sized,
}
use comp304_assignments.Checked.Alloc.{
  Allocator, alloc_default, alloc_kufree, alloc_kurealloc, alloc_sysfree, alloc_sysrealloc,
}

unfoldable pub choose_free : Bool → Allocator → Allocator
choose_free sys alloc_default = if sys then alloc_sysfree else alloc_kufree
choose_free sys a = a

-- The `switch` of `_checked_free`, which stands there twice.
unfoldable pub call_free : Os → ℕ → Allocator → ℕ → Cmd System (Unit {0})
call_free os k alloc_sysfree ptr = free os k ptr
call_free os k alloc_kufree ptr = kufree os k ptr
call_free os k alloc_sysrealloc ptr = do r ← realloc os k ptr 0; assert (r == 0)
call_free os k alloc_kurealloc ptr = do _ ← kurealloc os k ptr 0; pure tt
call_free os k _ ptr = λ _. exit

-- One release of a pointer from a zero-sized allocation.
unfoldable pub release_zero_sized : ℕ → Cmd System (Unit {0})
release_zero_sized alloc = do
  r ← memlist (read alloc)
  memlist (set_tag alloc (sub64 r.tag 1))
  if not (sub64 r.tag 1 == 0) then pure tt else do
    l ← get_zero_sized
    l' ← memlist (remove l alloc)
    set_zero_sized l'
    memlist (free_region_object alloc)

-- The record of a live buffer moves to `freed_allocs`, and its bytes are overwritten.
unfoldable pub retire_alloc : ℕ → ℕ → Cmd System (Unit {0})
retire_alloc k ptr = do
  l ← get_allocs
  alloc ← memlist (find k l ptr)
  assert (not (alloc == 0))
  r ← memlist (read alloc)
  assert (ptr == r.start)
  region_check_data r
  l' ← memlist (remove l alloc)
  set_allocs l'
  fill ptr 0xff (r.end - r.start)
  freed ← gets (λ s. s.framework.freed_allocs)
  freed' ← memlist (insert_front freed alloc)
  modify_framework (λ f. record f { freed_allocs = freed' })

-- `_checked_free`
unfoldable pub checked_free_with : Os → ℕ → ℕ → Allocator → Cmd System (Unit {0})
unfolding choose_free call_free release_zero_sized retire_alloc
checked_free_with os k ptr allocator = do
  f ← gets (λ s. s.framework)
  let chosen = choose_free f.use_system_alloc allocator
  if ptr == 0 then call_free os k chosen ptr else do
    let ptr' = if ptr == 2 ^ 64 - 1 then ptr - 1 else ptr
    zero_sized ← get_zero_sized
    alloc ← memlist (find k zero_sized ptr')
    if not (alloc == 0) then release_zero_sized alloc else retire_alloc k ptr'
    call_free os k chosen ptr'
    allocs ← get_allocs
    memlist_check_data k allocs

unfoldable pub checked_free : Os → ℕ → ℕ → Cmd System (Unit {0})
unfolding checked_free_with
checked_free os k ptr = checked_free_with os k ptr alloc_default
