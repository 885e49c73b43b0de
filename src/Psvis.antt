-- ===== src/Psvis.antt =====
-- project-1-shell/module/mymodule.c: the kernel module that lists the processes below one. `Walk`
-- has the walk and the start of the module, `Order` the place of a row
-- behind its parent's, and `Listing` what rows there are.
pub mod Walk
pub mod Order
pub mod Listing
