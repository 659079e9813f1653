-- ===== src/GuestPc/Chunk.antt =====
-- guest_pc_map.cpp: endsAt and decodeMapChunk, which decodes every boundary of a chunk.
use x87sidecar.Common.{
  ℕ, zero, suc, ◌-◌, Bool, true, false, ◌&&◌, not, if◌then◌else◌, ◌==◌, ltb, leb, List, [], ◌∷◌,
  Option, none, some,
}
use x87sidecar.GuestPc.Bits.{Stream, BitReader, read_bit}
use x87sidecar.GuestPc.Step.{RiceK, Cursor, next}
use x87sidecar.GuestPc.Map.{Header, parse_map, MapPoint, start_of, chunk_at, stream_size, stream_of}

-- The loop of endsAt: zero bits up to the byte `limit`.
unfoldable pub zero_bits : ℕ → Stream → ℕ → BitReader → Bool
unfolding read_bit
zero_bits zero stream limit br = not (ltb br.pos limit)
zero_bits (suc fuel) stream limit br = elim (ltb br.pos limit) [
  | false ↦ true
  | true ↦ elim (read_bit stream br) [
    | none ↦ false
    | some (b, br') ↦ elim (b == 0) [ false ↦ false | true ↦ zero_bits fuel stream limit br' ]
  ]
]

-- endsAt: four bytes have 32 bits.
unfoldable pub ends_at : Stream → ℕ → BitReader → Bool
ends_at stream limit br = leb br.pos limit && leb (limit - br.pos) 4 && zero_bits 32 stream limit br

abbrev pub boundary : Cursor → MapPoint
boundary c = record { x86_offset = c.x86; arm_offset = c.arm; flags = c.flags; exact = true }

-- The points of a chunk and the reader behind its last step.
abbrev pub Boundaries : Type 0
Boundaries = List MapPoint × BitReader

abbrev pub with_point : MapPoint → Option Boundaries → Option Boundaries
with_point p none = none
with_point p (some (ps, br)) = some (p ∷ ps, br)

-- The loop of decodeMapChunk, with the point of the cursor in front.
unfoldable pub boundaries : ℕ → Stream → RiceK → Cursor → Option Boundaries
boundaries zero stream k c = some (boundary c ∷ [], c.reader)
boundaries (suc n) stream k c = elim (next stream k c) [
  | none ↦ none
  | some c' ↦ with_point (boundary c) (boundaries n stream k c')
]

abbrev pub ending_at : Stream → ℕ → Option Boundaries → Option (List MapPoint)
ending_at stream limit none = none
ending_at stream limit (some (ps, br)) = if ends_at stream limit br then some ps else none

-- The byte where a chunk's steps end.
abbrev pub limit_of : List ℕ → Header → ℕ → ℕ
limit_of bytes h i =
    if ltb (suc i) h.chunk_count then (chunk_at bytes h (suc i)).stream_byte else stream_size h

abbrev pub decode_chunk : List ℕ → Header → ℕ → ℕ → Option (List MapPoint)
decode_chunk bytes h i out_max =
    let chunk = chunk_at bytes h i in
    if leb (suc chunk.insn_count) out_max && leb chunk.stream_byte (stream_size h)
    then ending_at (stream_of bytes h) (limit_of bytes h i)
        (boundaries chunk.insn_count (stream_of bytes h) h.rice_k (start_of chunk))
    else none

abbrev pub decode_chunk_with : List ℕ → ℕ → ℕ → Option Header → Option (List MapPoint)
decode_chunk_with bytes i out_max none = none
decode_chunk_with bytes i out_max (some h) =
    if ltb i h.chunk_count then decode_chunk bytes h i out_max else none

-- decodeMapChunk; `none` for -1, and the length of the list for the count.
unfoldable pub decode_map_chunk : List ℕ → ℕ → ℕ → Option (List MapPoint)
decode_map_chunk bytes i out_max = decode_chunk_with bytes i out_max (parse_map bytes)
