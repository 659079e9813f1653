-- ===== src/Build.antt =====
-- rosetta_core/src/X87IRBuild.cpp: from a sequence of x87 instructions to a context of nodes.
pub mod Monad
pub mod Parts
mod BridgeOps
pub mod Dispatch
pub mod Loop
pub mod Simulation
pub mod Refinement
pub mod Exchange
pub mod Consumed
pub mod BridgeShapes
pub mod Tests
