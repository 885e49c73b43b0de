-- ===== src/Intercept/Refused.antt =====
-- The calls of memory functions that test_framework/intercept.c refuses: `error` ends the program.
use comp304_assignments.Prelude.{ℕ}
use comp304_assignments.Machine.{Cmd, exit}
use comp304_assignments.System.{System}

unfoldable pub mmap : (addr length prot flags fd offset : ℕ) → Cmd System ℕ
mmap addr length prot flags fd offset s = exit

unfoldable pub munmap : (addr length : ℕ) → Cmd System ℕ
munmap addr length s = exit

unfoldable pub mprotect : (addr len prot : ℕ) → Cmd System ℕ
mprotect addr len prot s = exit
