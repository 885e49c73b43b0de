-- ===== src/System/Access.antt =====
-- Loads and stores of heap memory. `orig_mprotect` opens and closes whole pages, so a byte can be
-- touched from the start of the heap up to the end of the page that the break lies in.
use comp304_assignments.Prelude.{ℕ, ◌+◌, ◌-◌, ◌*◌, ◌/◌, Bool, ◌&&◌, leb, ◌==◌, if◌then◌else◌}
use comp304_assignments.Machine.{Cmd, ok, fault}
use comp304_assignments.Machine.Memory
use comp304_assignments.Memlist.{page_size}
use comp304_assignments.System.{System, Brk}

-- `ALIGN_UP(x, PGSIZE)`
unfoldable pub align_page : ℕ → ℕ
align_page x = (x + (page_size - 1)) / page_size * page_size

unfoldable pub is_mapped : Brk → ℕ → ℕ → Bool
unfolding align_page
is_mapped b a n = leb b.heap a && leb (a + n) (align_page b.cur_brk)

-- an eight-byte field
unfoldable pub load : ℕ → Cmd System ℕ
load a s = if is_mapped s.brk a 8 then ok (Memory.load64 s.mem a) s else fault

unfoldable pub store : (a v : ℕ) → Cmd System (Unit {0})
store a v s =
    if is_mapped s.brk a 8 then ok tt (record s { mem = Memory.store64 s.mem a v }) else fault

-- `memset` and `memcpy`; with a count of 0 they touch nothing.
unfoldable pub fill : (a c n : ℕ) → Cmd System (Unit {0})
fill a c n s =
    if n == 0
    then ok tt s
    else if is_mapped s.brk a n
    then ok tt (record s { mem = Memory.memset s.mem a c n })
    else fault

unfoldable pub copy : (dst src n : ℕ) → Cmd System (Unit {0})
copy dst src n s =
    if n == 0
    then ok tt s
    else if is_mapped s.brk dst n && is_mapped s.brk src n
    then ok tt (record s { mem = Memory.memcpy s.mem dst src n })
    else fault

-- one byte
unfoldable pub load_byte : ℕ → Cmd System ℕ
load_byte a s = if is_mapped s.brk a 1 then ok (s.mem a) s else fault
