-- ===== src/Optimize.antt =====
-- rosetta_core/src/X87IROptimize.cpp: the passes over the nodes of a run.
mod Uses
mod Dse
mod DseSound
mod Same
pub mod DseRefines
pub mod Fusion
pub mod FusionPairs
pub mod FusionSound
pub mod FusionComplete
pub mod Fma
mod FmaSound
mod FmaLoop
pub mod Contraction
mod FmaValues
pub mod FmaRefines
mod Tests
mod FmaTests
mod FusionTests
