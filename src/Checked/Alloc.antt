-- ===== src/Checked/Alloc.antt =====
-- `_checked_alloc`, `checked_alloc` and `checked_alloc_array` of checked_alloc.c.
use comp304_assignments.Prelude.{
  ℕ, ◌-◌, ◌/◌, ◌%◌, ◌^◌, Bool, true, false, not, ◌&&◌, ◌||◌, leb, ◌==◌, if◌then◌else◌,
}
use comp304_assignments.Prelude.Words.{add64, mul64}
use comp304_assignments.Machine.{Cmd, exit, pure, ◌>>=◌, ◌>>◌, assert, when}
use comp304_assignments.Memlist.{Os, read, set_tag, find, find_overlap, add_region}
use comp304_assignments.System.{System, gets, memlist}
use comp304_assignments.System.Access.{fill}
use comp304_assignments.Intercept.Defs.{is_none}
use comp304_assignments.Alloc.Malloc.{kumalloc, kucalloc}
use comp304_assignments.Alloc.Realloc.{kurealloc, malloc, calloc, realloc}
use comp304_assignments.Checked.Data.{
  get_data, check_bytes, memlist_check_data, get_allocs, set_allocs, get_zero_sized, set_zero_sized,
}

-- `enum allocator`
pub data Allocator : Type 0 where
  alloc_default alloc_kumalloc alloc_kucalloc alloc_kurealloc alloc_kufree : Allocator
  alloc_sysmalloc alloc_syscalloc alloc_sysrealloc alloc_sysfree : Allocator

-- What ALLOC_DEFAULT stands for.
unfoldable pub choose_alloc : (use_system_alloc use_calloc : Bool) → Allocator → Allocator
choose_alloc sys calloc alloc_default =
    if sys
    then (if calloc then alloc_syscalloc else alloc_sysmalloc)
    else (if calloc then alloc_kucalloc else alloc_kumalloc)
choose_alloc sys calloc a = a

-- The `switch` of `_checked_alloc`.
unfoldable pub call_alloc : Os → ℕ → Allocator → (nmemb size : ℕ) → Cmd System ℕ
call_alloc os k alloc_kumalloc nmemb size = kumalloc os k (mul64 nmemb size)
call_alloc os k alloc_kucalloc nmemb size = kucalloc os k nmemb size
call_alloc os k alloc_kurealloc nmemb size = kurealloc os k 0 (mul64 nmemb size)
call_alloc os k alloc_sysmalloc nmemb size = malloc os k (mul64 nmemb size)
call_alloc os k alloc_syscalloc nmemb size = calloc os k nmemb size
call_alloc os k alloc_sysrealloc nmemb size = realloc os k 0 (mul64 nmemb size)
call_alloc os k _ nmemb size = λ _. exit

abbrev is_calloc : Allocator → Bool
is_calloc alloc_kucalloc = true
is_calloc alloc_syscalloc = true
is_calloc _ = false

-- The count of a pointer that a zero-sized allocation returned.
unfoldable pub count_zero_sized : Os → ℕ → ℕ → Cmd System (Unit {0})
count_zero_sized os k ptr = do
  l ← get_zero_sized
  alloc ← memlist (find k l ptr)
  if not (alloc == 0)
      then (do r ← memlist (read alloc); memlist (set_tag alloc (add64 r.tag 1)))
      else (do
        (l', alloc) ← memlist (add_region os k l ptr 1)
        set_zero_sized l'
        memlist (set_tag alloc 1))

-- The branch with `nmemb == 0 || size == 0`.
unfoldable pub after_zero_sized : Os → ℕ → ℕ → Cmd System ℕ
unfolding count_zero_sized
after_zero_sized os k buf = do
  allocs ← get_allocs
  alloc ← memlist (find k allocs buf)
  assert (alloc == 0)
  memlist_check_data k allocs
  when (not (buf == 0)) (count_zero_sized os k (if buf == 2 ^ 64 - 1 then buf - 1 else buf))
  pure buf

-- A new buffer is entered in `allocs` and filled with its mark.
unfoldable pub register_alloc : Os → ℕ → (buf alloc_size : ℕ) → Cmd System (Unit {0})
register_alloc os k buf alloc_size = do
  l ← get_allocs
  (l', alloc) ← memlist (add_region os k l buf alloc_size)
  set_allocs l'
  region ← memlist (read alloc)
  zero_sized ← get_zero_sized
  overlap ← memlist (find_overlap k zero_sized region)
  assert (is_none overlap)
  byte ← get_data
  memlist (set_tag alloc byte)
  fill buf byte alloc_size

-- The checks of a buffer that is not NULL.
unfoldable pub check_buffer : Allocator → (buf alloc_size : ℕ) → Cmd System (Unit {0})
check_buffer allocator buf alloc_size = do
  assert (not (buf == 0))
  when (is_calloc allocator) (check_bytes alloc_size buf 0)
  assert (buf % 8 == 0)
  b ← gets (λ s. s.brk)
  assert (leb b.heap buf)
  assert (leb (add64 buf alloc_size) b.cur_brk)

-- `_checked_alloc`
unfoldable pub checked_alloc_with : Os → ℕ → (nmemb size : ℕ) → Allocator → Cmd System ℕ
unfolding choose_alloc call_alloc after_zero_sized check_buffer register_alloc
checked_alloc_with os k nmemb size allocator = do
  f ← gets (λ s. s.framework)
  let chosen = choose_alloc f.use_system_alloc f.use_calloc allocator
  let alloc_size = mul64 nmemb size
  buf ← call_alloc os k chosen nmemb size
  if (nmemb == 0) || (size == 0) then after_zero_sized os k buf else do
    check_buffer chosen buf alloc_size
    register_alloc os k buf alloc_size
    f ← gets (λ s. s.framework)
    when (not f.checked_alloc_disable_integrity_check) (memlist_check_data k f.allocs)
    pure buf

unfoldable pub checked_alloc_array : Os → ℕ → (nmemb size : ℕ) → Cmd System ℕ
unfolding checked_alloc_with
checked_alloc_array os k nmemb size = checked_alloc_with os k nmemb size alloc_default

unfoldable pub checked_alloc : Os → ℕ → ℕ → Cmd System ℕ
unfolding checked_alloc_with
checked_alloc os k size =
    if not (size == 0) && size % 2 == 0
    then checked_alloc_with os k 2 (size / 2) alloc_default
    else checked_alloc_with os k 1 size alloc_default
