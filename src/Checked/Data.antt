-- ===== src/Checked/Data.antt =====
-- The bytes that mark an allocation: `get_data` of checked_alloc.c, and the checks of memlist.c.
use comp304_assignments.Prelude.{ℕ, zero, suc, ◌+◌, ◌-◌, ◌%◌, ◌||◌, ◌==◌, if◌then◌else◌}
use comp304_assignments.Machine.{Cmd, out_of_fuel, pure, ◌>>=◌, ◌>>◌, assert}
use comp304_assignments.Memlist.{Region, RegionList, read}
use comp304_assignments.System.{System, gets, modify_framework, memlist}
use comp304_assignments.System.Access.{load_byte}

-- `data_cnt++` on an `unsigned char`, and the two values that are skipped
unfoldable pub next_data : ℕ → ℕ
next_data n = let c = (n + 1) % 256 in if (c == 0) || (c == 0xff) then 1 else c

unfoldable pub get_data : Cmd System ℕ
unfolding next_data
get_data = do
  n ← gets (λ s. s.framework.data_cnt)
  let c = next_data n
  modify_framework (λ f. record f { data_cnt = c })
  pure c

-- `for (ptr = …; ptr < endptr; ptr++) assert(*ptr == byte, …)` over `n` bytes
unfoldable pub check_bytes : (n ptr byte : ℕ) → Cmd System (Unit {0})
check_bytes zero ptr byte = pure tt
check_bytes (suc n) ptr byte = do
  b ← load_byte ptr
  assert (b == byte)
  check_bytes n (ptr + 1) byte

-- `region_check_data`
unfoldable pub region_check_data : Region → Cmd System (Unit {0})
unfolding check_bytes
region_check_data r = check_bytes (r.end - r.start) r.start r.tag

unfoldable pub check_data_loop : ℕ → ℕ → Cmd System (Unit {0})
unfolding region_check_data
check_data_loop zero region = λ _. out_of_fuel
check_data_loop (suc k) region =
    if region == 0
    then pure tt
    else do r ← memlist (read region); region_check_data r; check_data_loop k r.next

-- `memlist_check_data`
unfoldable pub memlist_check_data : ℕ → RegionList → Cmd System (Unit {0})
unfolding check_data_loop
memlist_check_data k l = check_data_loop k l.head

-- The three lists of the framework.
abbrev pub get_allocs : Cmd System RegionList
get_allocs = gets (λ s. s.framework.allocs)

abbrev pub set_allocs : RegionList → Cmd System (Unit {0})
set_allocs l = modify_framework (λ f. record f { allocs = l })

abbrev pub get_zero_sized : Cmd System RegionList
get_zero_sized = gets (λ s. s.framework.zero_sized_allocs)

abbrev pub set_zero_sized : RegionList → Cmd System (Unit {0})
set_zero_sized l = modify_framework (λ f. record f { zero_sized_allocs = l })
