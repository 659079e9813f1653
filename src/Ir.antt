-- ===== src/Ir.antt =====
-- rosetta_core/include/rosetta_core/X87IR.h: the nodes of one run and the context that holds them.
-- Node ids are int16_t with negative sentinels: `negsuc 0` is -1, "unused" or "none". A symbolic
-- stack slot holds a node id, or `negsuc d` for the value that was at depth d when the run began.
mod Defs
pub mod Context
pub mod Ordered
pub use Defs.*
unfoldable pub use Defs.{
  no_flags, is_dead, bridge_encode_reg, bridge_decode_reg, node_ref_input_count,
}
