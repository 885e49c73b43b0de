-- ===== src/Metro.antt =====
-- project-2-metro-simulation/main.cpp: the threads of the metro simulation. `Data` has the shared
-- variables, `Control` the control center, `Section` the threads that create trains, `System` their
-- interleavings.
pub mod Data
pub mod Control
pub mod Section
pub mod System
pub mod Weight
pub mod Bound
pub mod Located
pub mod Tunnel
pub mod Spec
pub mod Log
pub mod Args
pub mod Options
pub mod Front
pub mod Clear
pub mod Records
pub mod Waiting
