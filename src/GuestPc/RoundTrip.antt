-- ===== src/GuestPc/RoundTrip.antt =====
-- guest_pc_map.cpp, decodeMapChunk on the encoding of a chunk: it gives the encoded boundaries.
use x87sidecar.Common.{
  ℕ, zero, suc, ◌+◌, ◌-◌, ◌*◌, ◌%◌, ◌^◌, ◌≤◌, ◌<◌, ◌≡◌, true, List, [], ◌∷◌, ◌++◌, length,
  replicate, get_elem?, some, Option-cases, inl, inr, arith, length-replicate, take, drop, le→leb,
  lt→ltb,
}
use x87sidecar.GuestPc.Reader.{u32_mod}
use x87sidecar.GuestPc.Bits.{Stream, memory, BitReader, bit_reader, read_bit, byte_at}
use x87sidecar.GuestPc.Step.{RiceK, Deltas, Cursor, step, next, read_deltas}
use x87sidecar.GuestPc.Map.{
  Header, MapPoint, Chunk, parse_map, chunk_at, stream_of, stream_size, start_of,
}
use x87sidecar.GuestPc.Chunk.{boundaries, zero_bits, ends_at, limit_of, decode_map_chunk}
use x87sidecar.GuestPc.Coding.{Reads, done, bit, Reads-split, Reads-nil}
use x87sidecar.GuestPc.Codes.{
  Code, code_bits, code_deltas, code_flag, FitsCode, read_deltas-code_bits,
}

-- The bits of a chunk's steps.
unfoldable pub steps_bits : RiceK → List Code → List ℕ
steps_bits k [] = []
steps_bits k (c ∷ cs) = code_bits k c ++ steps_bits k cs

-- The boundaries that the steps of a chunk stand for: the x86 offset wraps, the ARM offset does not.
unfoldable pub points : ℕ → ℕ → ℕ → List Code → List MapPoint
points x86 arm flags [] =
    record { x86_offset = x86; arm_offset = arm; flags = flags; exact = true } ∷ []
points x86 arm flags (c ∷ cs) =
    let d = code_deltas c in
    record { x86_offset = x86; arm_offset = arm; flags = flags; exact = true }
    ∷ points ((x86 + d.d_x86) % u32_mod) (arm + d.d_arm * 4) (code_flag c) cs

-- What a chunk can hold: the ARM offset grows in each step, by 2^24 instructions at most, and stays
-- below 2^32.
abbrev pub FitsSteps : ℕ → List Code → Type 0
FitsSteps arm [] = arm < 2 ^ 32
FitsSteps arm (c ∷ cs) =
    let d = code_deltas c in
    FitsCode c
    × (0 < d.d_arm)
    × (d.d_arm ≤ 2 ^ 24)
    × (arm + d.d_arm * 4 < 2 ^ 32)
    × FitsSteps (arm + d.d_arm * 4) cs

next-code :
    (stream : Stream) (k : RiceK) (c : Cursor) (d : Deltas) (flag : ℕ) (br : BitReader)
    → read_deltas stream k c.reader ≡ some ((d, flag), br)
    → 0 < d.d_arm
    → d.d_arm ≤ 2 ^ 24
    → c.arm + d.d_arm * 4 < 2 ^ 32
    → next stream k c
      ≡ some (record {
        x86 = (c.x86 + d.d_x86) % u32_mod;
        arm = c.arm + d.d_arm * 4;
        flags = flag;
        reader = br;
      })
unfolding next step
next-code stream k c d flag br e pos most below =
    let small : (c.arm + d.d_arm * 4) % u32_mod ≡ c.arm + d.d_arm * 4 = omega arith in ground arith

-- The steps of a chunk decode to its boundaries.
pub boundaries-points :
    (stream : Stream) (k : RiceK) (c : Cursor) (cs : List Code) (end : BitReader)
    → FitsSteps c.arm cs
    → Reads stream c.reader (steps_bits k cs) end
    → boundaries (length cs) stream k c ≡ some (points c.x86 c.arm c.flags cs, end)
unfolding boundaries points steps_bits
boundaries-points stream k c [] end f r = ground (arith, Reads-nil r)
boundaries-points stream k c (code ∷ cs) end (f, pos, most, below, rest) r =
    let d = code_deltas code in
    let (mid, first, later) = Reads-split (code_bits k code) (steps_bits k cs) r in
    let e = read_deltas-code_bits stream k code f first in
    let n = next-code stream k c d (code_flag code) mid e pos most below in
    let c' : Cursor = record {
      x86 = (c.x86 + d.d_x86) % u32_mod;
      arm = c.arm + d.d_arm * 4;
      flags = code_flag code;
      reader = mid;
    } in
    ground (arith, n, boundaries-points stream k c' cs end rest later)

module _ (bytes : List ℕ) where
  -- A bit's offset in a stream.
  abbrev offset : BitReader → ℕ
  offset br = 8 * br.pos + br.bit

  read_bit-offset :
      (br br' : BitReader) (b : ℕ)
      → br.bit < 8
      → read_bit (memory bytes) br ≡ some (b, br')
      → (br'.bit < 8) × (offset br' ≡ offset br + 1)
  unfolding read_bit byte_at
  read_bit-offset br br' b h e = elim (Option-cases (get_elem? bytes br.pos)) [
    | inl none_e ↦ absurd (ground arith)
    | inr (x, some_e) ↦ ground arith
  ]

  Reads-offset :
      {br end : BitReader} (bs : List ℕ)
      → br.bit < 8
      → Reads (memory bytes) br bs end
      → (end.bit < 8) × (offset end ≡ offset br + length bs)
  Reads-offset [] h done = omega arith
  Reads-offset (b ∷ bs) h (bit {br} {br'} _ e r) =
      let (h', e') = read_bit-offset br br' b h e in omega (arith, Reads-offset bs h' r)

zero_bits-replicate :
    (n fuel : ℕ) (stream : Stream) (limit : ℕ) {br end : BitReader}
    → n ≤ fuel
    → end.pos ≡ limit
    → Reads stream br (replicate n 0) end
    → zero_bits fuel stream limit br ≡ true
unfolding zero_bits
zero_bits-replicate zero zero stream limit h e done = ground arith
zero_bits-replicate zero (suc fuel) stream limit h e done = ground arith
zero_bits-replicate (suc n) zero stream limit h e r = absurd (omega arith)
zero_bits-replicate (suc n) (suc fuel) stream limit h e (bit {br} _ q r) =
    let ih = zero_bits-replicate n fuel stream limit (omega arith) e r in ground arith

ends_at-replicate :
    (bytes : List ℕ) (n limit : ℕ) {br end : BitReader}
    → br.bit < 8
    → n < 32
    → end.pos ≡ limit
    → Reads (memory bytes) br (replicate n 0) end
    → ends_at (memory bytes) limit br ≡ true
unfolding ends_at
ends_at-replicate bytes n limit {br} h small e r =
    let (bit_end, offsets) = Reads-offset bytes (replicate n 0) h r in
    let len : length (replicate {A = ℕ} n 0) ≡ n = length-replicate n 0 in
    let zeros = zero_bits-replicate n 32 (memory bytes) limit (omega arith) e r in
    rw (le→leb br.pos limit (omega arith), le→leb (limit - br.pos) 4 (omega arith), zeros)

-- The stream holds a chunk's steps, and less than a word of padding up to the byte `limit`.
abbrev pub HoldsChunk : List ℕ → RiceK → Chunk → List Code → ℕ → Type 0
HoldsChunk stream k chunk cs limit =
    (n : ℕ) × (end : BitReader) × (n < 32)
    × (end.pos ≡ limit)
    × Reads (memory stream) (bit_reader chunk.stream_byte) (steps_bits k cs ++ replicate n 0) end

abbrev pub stream_bytes : List ℕ → Header → List ℕ
stream_bytes bytes h = take (stream_size h) (drop h.stream_offset bytes)

-- decodeMapChunk inverts the encoding of a chunk. Where chunk `i` of a map has as many steps as
-- `cs`, each within what a chunk can hold, where the stream holds their bits at the chunk's byte with
-- less than 32 bits of padding up to where the next chunk starts reading, and where the caller's
-- array is large enough, the result is the boundaries that the steps stand for.
pub decode_map_chunk-points :
    (bytes : List ℕ) (h : Header) (i out_max : ℕ) (cs : List Code)
    → parse_map bytes ≡ some h
    → i < h.chunk_count
    → (chunk_at bytes h i).insn_count ≡ length cs
    → length cs < out_max
    → (chunk_at bytes h i).stream_byte ≤ stream_size h
    → FitsSteps (chunk_at bytes h i).arm_offset cs
    → HoldsChunk (stream_bytes bytes h) h.rice_k (chunk_at bytes h i) cs (limit_of bytes h i)
    → decode_map_chunk bytes i out_max
      ≡ some (points (chunk_at bytes h i).x86_offset (chunk_at bytes h i).arm_offset 0 cs)
unfolding decode_map_chunk
decode_map_chunk-points bytes h i out_max cs parsed in_count count room starts fits holds =
    let chunk = chunk_at bytes h i in
    let (n, end, small, at, r) = holds in
    let (mid, steps, pad) = Reads-split (steps_bits h.rice_k cs) (replicate n 0) r in
    let stream = stream_of bytes h in
    let decoded = boundaries-points stream h.rice_k (start_of chunk) cs mid fits steps in
    let (bit_mid, _) =
      Reads-offset (stream_bytes bytes h) (steps_bits h.rice_k cs) (omega arith) steps in
    let ends =
      ends_at-replicate (stream_bytes bytes h) n (limit_of bytes h i) bit_mid small at pad in
    rw (
      parsed,
      lt→ltb i h.chunk_count in_count,
      le→leb (suc chunk.insn_count) out_max (omega arith),
      le→leb chunk.stream_byte (stream_size h) starts,
      count,
      decoded,
      ends,
    )
