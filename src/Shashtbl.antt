-- ===== src/Shashtbl.antt =====
-- target_spw/shashtbl.c: the hash table of the translation layer ftl_faster, a table for each bank.
pub mod Table
pub mod Chain
pub mod Put
pub mod Insert
pub mod Update
pub mod Cut
pub mod Remove
pub mod Removed
mod Tests
