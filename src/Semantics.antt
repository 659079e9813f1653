-- ===== src/Semantics.antt =====
-- What the nodes and the instructions mean, over an abstract floating-point unit: the yardstick by
-- which the builder and the optimiser are judged. Nothing here is code of the repository.
pub mod Fpu
pub mod Machine
pub mod Eval
