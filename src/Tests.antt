-- ===== src/Tests.antt =====
-- The theorems at concrete inputs, and runs of the model.
pub mod Memlist
pub mod Alloc
mod Checked
mod Stack
mod Shell
mod Metro
mod Psvis
mod Commands
