-- ===== src/GuestPc/MapSearch.antt =====
-- guest_pc_map.cpp: decodeMap answers as a search in the list that decodeMapChunk gives.
use x87sidecar.Common.{
  ℕ, suc, ◌≤◌, ◌<◌, ◌≡◌, ◌∙◌, ap, ◌⊎◌, inl, inr, refl, true, false, ltb, leb, leb→le, List, ◌∷◌,
  Option, none, some, Bool-cases, Bool, if◌then◌else◌, ◌&&◌, arith,
}
use x87sidecar.GuestPc.Reader.{resolved}
use x87sidecar.GuestPc.Bits.{BitReader, Stream}
use x87sidecar.GuestPc.Map.{
  Header, MapPoint, parse_map, chunk_at, stream_of, stream_size, start_of, decode_map,
  walk_to_target, find_chunk,
}
use x87sidecar.GuestPc.Chunk.{boundaries, Boundaries, ending_at, limit_of, decode_map_chunk}
use x87sidecar.GuestPc.FindChunk.{find_chunk-Found}
use x87sidecar.GuestPc.Walk.{last_at, asked, walk-boundaries}

if_some :
    {A : Type 0} (b : Bool) {o : Option A} {a : A}
    → (if b then o else none) ≡ some a
    → (b ≡ true) × (o ≡ some a)
if_some true e = (refl, e)
if_some false e = cc

and_true : (a b : Bool) → (a && b) ≡ true → (a ≡ true) × (b ≡ true)
and_true true b e = (refl, e)
and_true false b e = cc

ending_at-some :
    (stream : Stream) (limit : ℕ) (o : Option Boundaries) {ps : List MapPoint}
    → ending_at stream limit o ≡ some ps
    → (br : BitReader) × (o ≡ some (ps, br))
ending_at-some stream limit none e = cc
ending_at-some stream limit (some (ps, br)) e = (br, ground arith)

lt_false : (a b : ℕ) → b ≤ a → ltb a b ≡ false
lt_false a b h = ground arith

last_at_self :
    (target : ℕ) (p : MapPoint) (ps : List MapPoint)
    → last_at target p (p ∷ ps) ≡ last_at target p ps
unfolding last_at
last_at_self target p ps = elim (Bool-cases (leb p.arm_offset target)) [
  | inl e ↦ rw e
  | inr e ↦ rw e
]

module _ (bytes : List ℕ) (h : Header) (parsed : parse_map bytes ≡ some h) where
  -- A chunk that decodeMapChunk accepts starts in the stream, and every step of it decodes.
  abbrev pub Decodes : ℕ → List MapPoint → Type 0
  Decodes i ps =
      let chunk = chunk_at bytes h i in
      (chunk.stream_byte ≤ stream_size h)
      × (br : BitReader) × (boundaries chunk.insn_count (stream_of bytes h) h.rice_k
            (start_of chunk)
          ≡ some (ps, br))

  decode_map_chunk-Decodes :
      (i out_max : ℕ) {ps : List MapPoint}
      → decode_map_chunk bytes i out_max ≡ some ps
      → Decodes i ps
  unfolding decode_map_chunk
  decode_map_chunk-Decodes i out_max e =
      let chunk = chunk_at bytes h i in
      let (_, taken) = if_some (ltb i h.chunk_count) (rw parsed at e) in
      let (guards, ended) = if_some _ taken in
      let (_, starts) = and_true _ _ guards in
      let (br, decoded) = ending_at-some (stream_of bytes h) (limit_of bytes h i) _ ended in
      (leb→le chunk.stream_byte (stream_size h) starts, br, decoded)

  -- Chunks in the order of their ARM offsets.
  abbrev pub Sorted : Type 0
  Sorted =
      (i j : ℕ)
      → i ≤ j
      → j < h.chunk_count
      → (chunk_at bytes h i).arm_offset ≤ (chunk_at bytes h j).arm_offset

  -- The chunk at `i` is the last that starts at or before the target.
  abbrev pub LastChunk : ℕ → ℕ → Type 0
  LastChunk target i =
      (i < h.chunk_count)
      × ((chunk_at bytes h i).arm_offset ≤ target)
      × ((suc i ≡ h.chunk_count) ⊎ (target < (chunk_at bytes h (suc i)).arm_offset))

  find_chunk-LastChunk :
      (target i : ℕ)
      → Sorted
      → LastChunk target i
      → find_chunk h.chunk_count (λ j. some (chunk_at bytes h j)) target ≡ some i
  find_chunk-LastChunk target i sorted last =
      let chunks = λ (j : ℕ). chunk_at bytes h j in
      let (i', e, found) =
        find_chunk-Found (λ j. some (chunks j)) chunks h.chunk_count target (λ j lt. refl)
          (omega (arith, last.0)) in
      let same : i' ≡ i = unique i' found in e ∙ ap some same
    where
      unique :
          (i' : ℕ)
          → (i' < h.chunk_count)
            × ((i' ≡ 0) ⊎ ((chunk_at bytes h i').arm_offset ≤ target))
            × ((suc i' ≡ h.chunk_count) ⊎ (target < (chunk_at bytes h (suc i')).arm_offset))
          → i' ≡ i
      unique i' found = ground (arith, sorted (suc i) i', sorted (suc i') i)

  -- Where the chunks are in the order of their ARM offsets and every boundary of chunk `i` decodes to
  -- the list `p ∷ ps`, a target for which it is the last chunk that starts at or before it resolves to
  -- the last boundary of the list at or before the target, marked exact when it is the target.
  pub decode_map-last_at :
      (target i out_max : ℕ) (p : MapPoint) (ps : List MapPoint)
      → Sorted
      → LastChunk target i
      → decode_map_chunk bytes i out_max ≡ some (p ∷ ps)
      → decode_map bytes target ≡ resolved (asked target (last_at target p ps))
  unfolding decode_map walk_to_target
  decode_map-last_at target i out_max p ps sorted last e =
      let chunk = chunk_at bytes h i in
      let (starts, br, decoded) = decode_map_chunk-Decodes i out_max e in
      let search = find_chunk-LastChunk target i sorted last in
      let walked =
        walk-boundaries (stream_of bytes h) h.rice_k chunk.insn_count target p (start_of chunk)
          (p ∷ ps) br last.1 decoded in
      let twice : last_at target p (p ∷ ps) ≡ last_at target p ps = last_at_self target p ps in
      rw (
        parsed,
        search,
        lt_false (stream_size h) chunk.stream_byte starts,
        lt_false target chunk.arm_offset last.1,
        walked,
        twice,
      )
