-- ===== src/Checked.antt =====
-- test_framework/checked_alloc.c: calls of the allocator, with the checks of their results. `Data`
-- has the integrity checks, `Alloc` and `Free` the wrappers, `Realloc` the checked reallocation.
pub mod Data
pub mod Marks
pub mod Results
pub mod Register
pub mod Alloc
pub mod Free
pub mod Realloc
