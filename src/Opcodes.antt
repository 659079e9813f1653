-- ===== src/Opcodes.antt =====
-- rosetta_core/src/OpcodeCompatibility.cpp: the maps between the host runtime's opcode numbers and
-- the translator's, built from the runtime's own list of mnemonics.
mod Table
mod Laws
mod Tests
