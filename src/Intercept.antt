-- ===== src/Intercept.antt =====
-- The `brk` and `sbrk` of test_framework/intercept.c, which serve the allocator's heap.
pub mod Defs
pub mod Break
pub mod Refused
