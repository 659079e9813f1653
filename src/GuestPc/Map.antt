-- ===== src/GuestPc/Map.antt =====
-- guest_pc_map.cpp: the map's header, findChunk, walkToTarget, decodeMap and decodeMapChunk.
use x87sidecar.Common.{
  ℕ, zero, suc, ◌+◌, ◌-◌, ◌*◌, ◌/◌, ◌^◌, Bool, true, false, ◌&&◌, not, if◌then◌else◌, ◌==◌, ltb,
  leb, List, length, drop, take, Option, none, some,
}
use x87sidecar.GuestPc.Reader.{field_at, Status, resolved, not_translated, unavailable}
use x87sidecar.GuestPc.Bits.{Stream, memory, bit_reader}
use x87sidecar.GuestPc.Step.{RiceK, Cursor, next}

-- DeltaMapHeader; `variant` is rice_k[3].
pub record Header : Type 0 where
  pub rice_k : RiceK
  pub variant : ℕ
  pub field_08 : ℕ
  pub field_0c : ℕ
  pub total_size : ℕ
  pub chunk_count : ℕ
  pub chunks_offset : ℕ
  pub stream_offset : ℕ

-- sizeof(DeltaMapHeader), and sizeof(DeltaMapChunk).
abbrev pub header_size : ℕ
header_size = 0x20

abbrev pub chunk_size : ℕ
chunk_size = 16

unfoldable pub parse_header : List ℕ → Header
parse_header bytes = record {
  rice_k = record { k1 = field_at 1 1 bytes; k2 = field_at 2 1 bytes };
  variant = field_at 3 1 bytes;
  field_08 = field_at 8 4 bytes;
  field_0c = field_at 0xc 4 bytes;
  total_size = field_at 0x10 4 bytes;
  chunk_count = field_at 0x14 4 bytes;
  chunks_offset = field_at 0x18 4 bytes;
  stream_offset = field_at 0x1c 4 bytes;
}

-- checkHeader; kMaxChunkCount is 2^20.
unfoldable pub check_header : Header → Bool
check_header h =
    h.variant == 0
    && h.field_08 == 0
    && h.field_0c == 0
    && leb h.rice_k.k1 31
    && leb h.rice_k.k2 31
    && leb header_size h.total_size
    && not (h.chunk_count == 0)
    && leb h.chunk_count (2 ^ 20)
    && leb header_size h.chunks_offset
    && leb h.stream_offset h.total_size
    && leb h.chunks_offset h.stream_offset
    && leb (h.chunks_offset + h.chunk_count * chunk_size) h.stream_offset

-- parseMap: the header of a map that fills `bytes`.
unfoldable pub parse_map : List ℕ → Option Header
parse_map bytes =
    let h = parse_header bytes in
    if leb header_size (length bytes) && check_header h && leb h.total_size (length bytes)
    then some h
    else none

-- DeltaMapChunk.
pub record Chunk : Type 0 where
  pub x86_offset : ℕ
  pub arm_offset : ℕ
  pub stream_byte : ℕ
  pub insn_count : ℕ

unfoldable pub parse_chunk : List ℕ → Chunk
parse_chunk bytes = record {
  x86_offset = field_at 0 4 bytes;
  arm_offset = field_at 4 4 bytes;
  stream_byte = field_at 8 4 bytes;
  insn_count = field_at 0xc 4 bytes;
}

-- The loop of findChunk.
unfoldable pub bisect : ℕ → (ℕ → Option Chunk) → ℕ → ℕ → ℕ → Option ℕ
bisect zero fetch target lo hi = none
bisect (suc fuel) fetch target lo hi = elim (ltb 1 (hi - lo)) [
  | false ↦ some lo
  | true ↦
      let mid = lo + (hi - lo) / 2 in
      elim (fetch mid) [
        | none ↦ none
        | some c ↦ elim (leb c.arm_offset target) [
          | true ↦ bisect fuel fetch target mid hi
          | false ↦ bisect fuel fetch target lo mid
        ]
      ]
]

-- findChunk; the distance hi - lo falls, so the number of chunks bounds the rounds.
unfoldable pub find_chunk : ℕ → (ℕ → Option Chunk) → ℕ → Option ℕ
find_chunk chunk_count fetch target = bisect (suc chunk_count) fetch target 0 chunk_count

-- MapPoint.
pub record MapPoint : Type 0 where
  pub x86_offset : ℕ
  pub arm_offset : ℕ
  pub flags : ℕ
  pub exact : Bool

abbrev pub Decoded : Type 0
Decoded = Status MapPoint

abbrev pub point_at : ℕ → Cursor → MapPoint
point_at target c = record {
  x86_offset = c.x86;
  arm_offset = c.arm;
  flags = c.flags;
  exact = c.arm == target;
}

-- A chunk's starting pair.
abbrev pub start_of : Chunk → Cursor
start_of chunk = record {
  x86 = chunk.x86_offset;
  arm = chunk.arm_offset;
  flags = 0;
  reader = bit_reader chunk.stream_byte;
}

-- The loop of walkToTarget: `n` steps are left, and the best point is that of the cursor.
unfoldable pub walk : ℕ → Stream → RiceK → ℕ → Cursor → Decoded
walk zero stream k target c = resolved (point_at target c)
walk (suc n) stream k target c = elim (next stream k c) [
  | none ↦ unavailable
  | some c' ↦ elim (ltb target c'.arm) [
    | true ↦ resolved (point_at target c)
    | false ↦ walk n stream k target c'
  ]
]

-- walkToTarget, from a chunk's start.
unfoldable pub walk_to_target : Stream → RiceK → Chunk → ℕ → Decoded
walk_to_target stream k chunk target =
    if ltb target chunk.arm_offset
    then not_translated
    else walk chunk.insn_count stream k target (start_of chunk)

abbrev pub chunk_at : List ℕ → Header → ℕ → Chunk
chunk_at bytes h i = parse_chunk (drop (h.chunks_offset + i * chunk_size) bytes)

abbrev pub stream_size : Header → ℕ
stream_size h = h.total_size - h.stream_offset

abbrev pub stream_of : List ℕ → Header → Stream
stream_of bytes h = memory (take (stream_size h) (drop h.stream_offset bytes))

abbrev pub decode_from : List ℕ → Header → ℕ → Chunk → Decoded
decode_from bytes h target chunk =
    if ltb (stream_size h) chunk.stream_byte
    then unavailable
    else walk_to_target (stream_of bytes h) h.rice_k chunk target

abbrev pub decode_at : List ℕ → Header → ℕ → Option ℕ → Decoded
decode_at bytes h target none = unavailable
decode_at bytes h target (some i) = decode_from bytes h target (chunk_at bytes h i)

abbrev pub decode_with : List ℕ → ℕ → Option Header → Decoded
decode_with bytes target none = unavailable
decode_with bytes target (some h) =
    decode_at bytes h target (find_chunk h.chunk_count (λ i. some (chunk_at bytes h i)) target)

-- decodeMap.
unfoldable pub decode_map : List ℕ → ℕ → Decoded
decode_map bytes target = decode_with bytes target (parse_map bytes)
