-- ===== src/Cache.antt =====
-- rosetta_core/src/X87Cache.cpp: what the translator remembers and foresees of a run.
pub mod Runs
pub mod Regions
pub mod Counts
mod Tests
pub mod Effects
pub mod TopMoves
mod Reads
mod ReadForms
pub mod ReadTable
