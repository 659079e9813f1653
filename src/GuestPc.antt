-- ===== src/GuestPc.antt =====
-- rosetta_loader/src/guest_pc_map.cpp and guest_pc_map.hpp: from a host ARM program counter to the
-- guest x86 program counter, through the fragment tree and the delta-coded maps of the runtime.
mod Reader
mod Bits
mod Step
mod Map
mod Chunk
mod FindChunk
mod Walk
mod Coding
mod RiceLaws
mod Codes
mod RoundTrip
mod MapSearch
mod Tree
mod TreeLaws
mod Resolve
mod Cache
mod Cached
mod Select
mod Coherent
mod LookupFacts
mod Preserve
mod Invariant
mod Sequence
mod TreeCache
mod Gap
mod Windows
mod WindowSteps
mod RemoteMap
mod Samples
mod Tests
mod CacheTests
