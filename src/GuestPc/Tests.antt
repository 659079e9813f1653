-- ===== src/GuestPc/Tests.antt =====
-- What the decoder and the lookups give on the small map and process.
use x87sidecar.Common.{
  ◌*◌, ℕ, ◌≤◌, ◌≡◌, refl, ap, ◌∙◌, subst, true, List, [], ◌∷◌, Option, none, some, inl, inr,
  if◌then◌else◌, ◌==◌, Bool-cases, Option-cases, arith, ◌⊎◌, ◌<◌,
}
use x87sidecar.GuestPc.Reader.{resolved}
use x87sidecar.GuestPc.Bits.{Stream, BitReader, read_bit, byte_at, byte_at}
use x87sidecar.GuestPc.Map.{
  MapPoint, parse_map, parse_header, check_header, parse_chunk, decode_map, find_chunk, chunk_at,
  Chunk,
}
use x87sidecar.GuestPc.Coding.{Reads, done, bit, low_bits, rice_bits}
use x87sidecar.GuestPc.Codes.{code_bits, coded_bits, pair_bits, extra_bits}
use x87sidecar.GuestPc.Chunk.{decode_map_chunk}
use x87sidecar.GuestPc.RoundTrip.{
  steps_bits, points, HoldsChunk, stream_bytes, decode_map_chunk-points,
}
use x87sidecar.GuestPc.FindChunk.{find_chunk_last}
use x87sidecar.GuestPc.Walk.{last_at, asked}
use x87sidecar.GuestPc.MapSearch.{decode_map-last_at}
use x87sidecar.GuestPc.Samples.{small_map, small_header, small_codes, small_rice}

-- The reader behind the bits, if the stream holds them.
abbrev reads_all : Stream → BitReader → List ℕ → Option BitReader
reads_all stream br [] = some br
reads_all stream br (b ∷ bs) = elim (read_bit stream br) [
  | none ↦ none
  | some (c, br') ↦ let rest = reads_all stream br' bs in if c == b then rest else none
]

reads_all-Reads :
    (stream : Stream) (br end : BitReader) (bs : List ℕ)
    → reads_all stream br bs ≡ some end
    → Reads stream br bs end
reads_all-Reads stream br end [] h =
    let e : br ≡ end = ground arith in subst (λ x. Reads stream br [] x) e done
reads_all-Reads stream br end (b ∷ bs) h = elim (Option-cases (read_bit stream br)) [
  | inl none_e ↦ absurd (ground arith)
  | inr ((c, br'), some_e) ↦ elim (Bool-cases (c == b)) [
    | inl same ↦
        let e : read_bit stream br ≡ some (b, br') = ground arith in
        bit b e (reads_all-Reads stream br' end bs (ground arith))
    | inr other ↦ absurd (ground arith)
  ]
]

small_end : BitReader
small_end = record { pos = 4; bit = 0; win_start = 0; win = [] }

small_holds :
    HoldsChunk
      (stream_bytes small_map small_header)
      small_rice
      (chunk_at small_map small_header 0)
      small_codes
      4
unfolding read_bit byte_at steps_bits code_bits coded_bits pair_bits extra_bits rice_bits low_bits
    parse_chunk small_end
small_holds = (12, small_end, omega arith, refl, reads_all-Reads _ _ _ _ refl)

decode_map_chunk-points_example : decode_map_chunk small_map 0 8 ≡ some (points 0 8 0 small_codes)
unfolding parse_map parse_header check_header parse_chunk
decode_map_chunk-points_example =
    decode_map_chunk-points small_map small_header 0 8 small_codes refl (omega arith) refl
      (omega arith) (omega arith) (omega arith) small_holds

small_points :
    points 0 8 0 small_codes
    ≡ record { x86_offset = 0; arm_offset = 8; flags = 0; exact = true }
      ∷ record { x86_offset = 3; arm_offset = 12; flags = 0; exact = true }
      ∷ record { x86_offset = 4; arm_offset = 20; flags = 1281; exact = true }
      ∷ []
unfolding points
small_points = refl

first_point : MapPoint
first_point = record { x86_offset = 0; arm_offset = 8; flags = 0; exact = true }

later_points : List MapPoint
later_points =
    record { x86_offset = 3; arm_offset = 12; flags = 0; exact = true }
    ∷ record { x86_offset = 4; arm_offset = 20; flags = 1281; exact = true }
    ∷ []

small_decodes : decode_map_chunk small_map 0 8 ≡ some (first_point ∷ later_points)
unfolding first_point later_points
small_decodes = decode_map_chunk-points_example ∙ ap some small_points

decode_map-last_at_example :
    decode_map small_map 15 ≡ resolved (asked 15 (last_at 15 first_point later_points))
unfolding parse_map parse_header check_header parse_chunk
decode_map-last_at_example =
    decode_map-last_at small_map small_header refl 15 0 8 first_point later_points
      (λ i j le lt.
        let e : i ≡ 0 = omega arith in let e' : j ≡ 0 = omega arith in rw (e, e') (omega arith))
      (omega arith, omega arith, inl refl) small_decodes

-- Five chunks, eight bytes of ARM code apart.
abbrev chunk_every_eight : ℕ → Chunk
chunk_every_eight i = record { x86_offset = 0; arm_offset = 8 * i; stream_byte = 0; insn_count = 1 }

find_chunk_last_example :
    (i : ℕ) × (find_chunk 5 (λ k. some (chunk_every_eight k)) 17 ≡ some i)
    × (i < 5)
    × ((i ≡ 0) ⊎ (8 * i ≤ 17))
    × ((j : ℕ) → j < 5 → 8 * j ≤ 17 → j ≤ i)
find_chunk_last_example =
    find_chunk_last (λ k. some (chunk_every_eight k)) chunk_every_eight 5 17 (λ i lt. refl)
      (omega arith) (λ i j le lt. omega arith)
