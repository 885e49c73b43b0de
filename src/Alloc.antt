-- ===== src/Alloc.antt =====
-- alloc.c: the allocator. `Fields` has the two structs laid over heap memory, `Malloc` the functions
-- kumalloc and kucalloc, `Free` kufree, and `Realloc` kurealloc and the libc names.
pub mod Align
pub mod Extend
pub mod Take
pub mod Corrupt
pub mod Fields
pub mod Inv
pub mod Kumalloc
pub mod Malloc
pub mod Release
pub mod RoundTrip
pub mod Push
pub mod Calloc
pub mod Moved
pub mod Merge
pub mod Stack
pub mod Start
pub mod Free
pub mod Realloc
