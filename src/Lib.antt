-- ===== src/Lib.antt =====
-- x87sidecar: the x87 run compiler of rosetta_core, from decoded instructions to optimised IR
-- nodes, and the guest program counter map of rosetta_loader.
--
-- The translator receives a block of decoded x86 instructions. The run cache looks ahead for a run
-- of consecutive x87 instructions, which short gaps of integer instructions (bridges) may join.
-- The builder turns the run into a table of IR nodes with a symbolic register stack. The optimiser
-- marks nodes dead or rewrites them, and the lowering emits AArch64 code for what is left.
--
-- When the runtime's own table of mnemonics is known, its opcode numbers are mapped to the
-- translator's by name.
--
-- The sampler of the loader asks which guest x86 instruction a host ARM program counter belongs
-- to. It walks the fragment tree of the inspected process, reads the fragment's delta-coded map,
-- and remembers recent answers in a cache whose entries it checks against the process before it
-- uses them.
--
-- Files:
--
--   Common: the shared lists, Boolean tests and integers over native numbers, and the library
--       names.
--   Instr: rosetta_core/include/rosetta_core/IROperand.h, IRInstr.h, Register.h and Opcode.h.
--       Instr/Bridge is X87Bridge.h, a function for each of its functions.
--   Ir: X87IR.h. Ir/Defs has Op, NodeFlags and Node, Ir/Context has the Context with init,
--       add_node (append_node), resolve, push and pop, and Ir/Ordered the shape of the table that
--       the builder keeps.
--   Build: rosetta_core/src/X87IRBuild.cpp. Build/Parts has the helpers up to build_fcmov,
--       Build/BridgeOps has build_bridge, Build/Dispatch the cases of the switch, and Build/Loop
--       the function build.
--   Semantics: what the nodes and the instructions mean. Semantics/Fpu lists the values, the state
--       and the operations that both use, Semantics/Machine carries out instructions on a register
--       stack, and Semantics/Eval carries out nodes.
--   Build/Simulation and its children relate the two after each instruction; Build/Refinement is
--       about whole runs, Build/Consumed about which instructions a run takes, Build/BridgeShapes
--       about the shapes of bridges, and Build/Exchange about fxch in a full table.
--   Optimize: rosetta_core/src/X87IROptimize.cpp. Optimize/Uses has the use counts, Optimize/Dse
--       the pass pass_dse; Optimize/DseSound has the invariant of its walks and
--       Optimize/DseRefines what the nodes mean after it. Optimize/Fma has pass_fma,
--       Optimize/FmaSound and Optimize/FmaLoop are about what it rewrites; Optimize/Contraction
--       says what contraction may do to a run, and Optimize/FmaValues and Optimize/FmaRefines are
--       about what the nodes mean after the pass; Optimize/Same has what a pass keeps of the
--       environment. Optimize/Fusion has pass_fcom_fstsw_fusion, Optimize/FusionPairs the pairs it
--       is meant for, and Optimize/FusionSound and Optimize/FusionComplete are about what it
--       marks.
--   Cache: rosetta_core/src/X87Cache.cpp. Cache/Runs has is_handled_x87, lookahead,
--       is_native_transport_run and lookahead_bridged, and Cache/Effects has slot_effect.
--       Cache/Regions and Cache/Counts are about the lookaheads, Cache/TopMoves and
--       Cache/ReadTable (with Cache/Reads and Cache/ReadForms) are about the table of slot_effect
--       against the x87 machine.
--   GuestPc: rosetta_loader/src/guest_pc_map.cpp and guest_pc_map.hpp. GuestPc/Reader has the
--       reader of the process and Status, GuestPc/Bits BitReader (with rice and raw32),
--       GuestPc/Step the function step, GuestPc/Map checkHeader, parseMap, findChunk, walkToTarget
--       and decodeMap, GuestPc/Chunk endsAt and decodeMapChunk, GuestPc/Tree parseNode, contains
--       and lookupFragment, GuestPc/Resolve resolveInFragment and resolve, GuestPc/Cache the class
--       Cache with select, and GuestPc/Cached nodeUnchanged and resolve with a cache.
--   GuestPc/Coding and GuestPc/Codes state the format of the stream apart from the decoder;
--       GuestPc/RiceLaws and GuestPc/RoundTrip are about decoding it. GuestPc/FindChunk,
--       GuestPc/Walk and GuestPc/MapSearch are about the search in a map, GuestPc/TreeLaws and
--       GuestPc/LookupFacts about the tree, GuestPc/Windows, GuestPc/WindowSteps and
--       GuestPc/RemoteMap about reading a map in windows, GuestPc/Select, GuestPc/Coherent,
--       GuestPc/Preserve, GuestPc/Invariant, GuestPc/Sequence, GuestPc/TreeCache and GuestPc/Gap
--       about the cache.
--   Opcodes: rosetta_core/src/OpcodeCompatibility.cpp with a host table. Opcodes/Table has
--       opcode_set_host_table, opcode_host_to_internal, opcode_internal_to_host,
--       opcode_clear_host_table and opcode_first_unmapped_required; kOpcodeNames, a table of
--       Opcode.cpp, is an argument.
--
-- Node references and depths are int16_t in the source and integers here: a node index is `pos i`,
-- and a negative value k is `negsuc (-k - 1)`. Node indices stay far within 16 bits, as the table
-- has at most kMaxNodes = 128 nodes. The instruction counts of build (consumed, and the ordinals
-- in node_src) are cast to int16_t in the source, and top_delta is an int16_t; instructions that
-- add no node are not bounded by the table, and here the three are unbounded. The cast is exact
-- for run lengths below 0x8000, which is all that the translator asks for, since its run lengths
-- come from int16_t fields (run_remaining and bridge_pending_total of X87Cache.h). The counts of
-- lookahead_bridged can exceed that, as a block has up to 0x10000 instructions, and there the
-- casts to int16_t are written out; its own int counters do not come near 2 ^ 31, and its limits
-- max_gap and max_total_bridges are taken not to be negative. The nodes of a context are a list
-- whose length is num_nodes. A builder function takes the context and gives the new context with
-- an optional result, where no result is the source's `return false` or `ok = false`; the context
-- keeps the nodes that a failed instruction had appended. Register bytes and sizes are fields of
-- one operand record, since the source's union shares them. Stack-register operands have an index
-- below 8, as the decoder gives them; a slot written past the seventh is a harmless entry of the
-- slot function here.
--
-- The floating-point unit is a parameter: a type of values, a type of states (memory, integer
-- registers, flags, status and control words), and an operation for each node or instruction.
-- Nothing is assumed of these operations. The rounding mode is part of the state, so arithmetic
-- takes the state. The fields of the record follow what the nodes are lowered to, so that nodes
-- and instructions can be compared by the operations they ask for, on which values and in which
-- state. That an operation is computed correctly is a matter of the lowering.
--
-- The reader of the inspected process is a parameter, a function from an address and a length to
-- the bytes or to nothing when the read fails; as guest_pc_map.hpp asks of it, what it gives has
-- the length asked for. Nothing else is assumed of it but where a theorem says what the process
-- holds. Numbers of 32 and 64 bits keep their wrap-around; a map in memory is the list of its
-- bytes, so mapSize is its length, and the out parameter and the outMax of decodeMapChunk are a
-- list of results and a bound. The out parameter of resolve is passed along with the status, since
-- the cache stores what stands in it. A set of the cache is the list of its ways.
--
-- The loops over instructions, nodes, steps and tree levels are structural recursions, over a list
-- or a count down to zero; the 4096 levels of lookupFragment are the source's own bound. Three
-- loops of guest_pc_map.cpp take fuel: the prefix of rice one round more than 0xFFFFFFFF >> k, the
-- count at which the source gives up; findChunk one round more than the number of chunks, whose
-- distance hi - lo falls in every round; endsAt 32 rounds, the bits of the four bytes that it
-- checks for first.
--
-- Not modelled: the passes pass_fma_reduce and pass_exact_i64_copy, the opcode numbering for
-- runtimes without a table of mnemonics, the lowering with its register allocation and its
-- epilogue, the per-instruction translators, the assembler, the configuration, the rest of the
-- loader and the offline tools. They emit machine code or talk to the operating system, or wait
-- for a later stage.
pub mod Common
pub mod Instr
pub mod Ir
pub mod Build
pub mod Semantics
pub mod Optimize
pub mod Cache
pub mod GuestPc
pub mod Opcodes
