-- ===== src/Build/Simulation.antt =====
-- X87IRBuild.cpp: the relation between a context and the reference machine, and each case of the
-- builder against it.
mod Relation
mod Steps
mod Instructions
mod Stores
mod Compares
mod Controls
mod Cases
mod Bridges
pub mod Runs
pub use Relation.*
