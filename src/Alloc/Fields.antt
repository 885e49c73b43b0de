-- ===== src/Alloc/Fields.antt =====
-- `struct block` and `struct free_list` of alloc.c, both at a block's address: `size` at offset 0,
-- `next` at 8, `prev` at 16.
use comp304_assignments.Prelude.{ℕ, ◌+◌, ◌*◌, ◌/◌}
use comp304_assignments.Prelude.Words.{add64}
use comp304_assignments.Machine.{Cmd}
use comp304_assignments.System.{System, gets, modify_alloc}
use comp304_assignments.System.Access.{load, store}

-- `BLOCK_SIZE`
abbrev pub block_size : ℕ
block_size = 8

abbrev pub get_size : ℕ → Cmd System ℕ
get_size p = load p

abbrev pub get_next : ℕ → Cmd System ℕ
get_next p = load (p + 8)

abbrev pub get_prev : ℕ → Cmd System ℕ
get_prev p = load (p + 16)

abbrev pub set_size : (p v : ℕ) → Cmd System (Unit {0})
set_size p v = store p v

abbrev pub set_next : (p v : ℕ) → Cmd System (Unit {0})
set_next p v = store (p + 8) v

abbrev pub set_prev : (p v : ℕ) → Cmd System (Unit {0})
set_prev p v = store (p + 16) v

abbrev pub get_head : Cmd System ℕ
get_head = gets (λ s. s.alloc.head)

abbrev pub set_head : ℕ → Cmd System (Unit {0})
set_head p = modify_alloc (λ a. record a { head = p })

abbrev pub get_block_end : Cmd System ℕ
get_block_end = gets (λ s. s.alloc.block_end)

abbrev pub set_block_end : ℕ → Cmd System (Unit {0})
set_block_end p = modify_alloc (λ a. record a { block_end = p })

abbrev pub set_available : ℕ → Cmd System (Unit {0})
set_available n = modify_alloc (λ a. record a { available_memory = n })

-- `size_align`, with `sizeof(long)` = 8
unfoldable pub size_align : ℕ → ℕ
unfolding add64
size_align n = add64 n 7 / 8 * 8
