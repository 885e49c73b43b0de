-- ===== src/Runner.antt =====
-- project-3-memory-allocator/test_framework/main.c: options, tests by name, and the statistics.
-- `Main` has the program, `Stats` what the statistics say.
pub mod Main
pub mod Stats
