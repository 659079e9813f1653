-- ===== src/GuestPc/RemoteMap.antt =====
-- guest_pc_map.cpp: decoding a map in the inspected process and decodeMap on its bytes.
use x87sidecar.Common.{
  take-drop-take, drop-drop, length-take-drop, ℕ, zero, suc, ◌+◌, ◌-◌, ◌*◌, ◌/◌, ◌%◌, ◌≤◌, ◌<◌, ◌≡◌,
  refl, sym, ap, subst, ◌∙◌, true, false, ltb, ◌==◌, if◌then◌else◌, List, [], ◌∷◌, length, take,
  drop, Option, some, Bool-cases, inl, inr, arith,
}
use x87sidecar.GuestPc.Reader.{Reader, u64_mod, little_endian, field_at, unavailable}
use x87sidecar.GuestPc.Bits.{remote}
use x87sidecar.GuestPc.Map.{
  Header, header_size, chunk_size, parse_header, check_header, parse_map, Chunk, parse_chunk,
  bisect, find_chunk, Decoded, walk_to_target, stream_size, stream_of, chunk_at, decode_map,
}
use x87sidecar.GuestPc.Tree.{Fragment}
use x87sidecar.GuestPc.Resolve.{
  fetch_chunk, fetch_header, fragment_stream, decode_remote, arm_offset_in, Resolution, translated,
  resolve_in_fragment, finish,
}
use x87sidecar.GuestPc.FindChunk.{find_chunk-Found}
use x87sidecar.GuestPc.Windows.{Serves}
use x87sidecar.GuestPc.WindowSteps.{walk_to_target-windows}

little_endian-take :
    (n m : ℕ) (xs : List ℕ) → n ≤ m → little_endian n (take m xs) ≡ little_endian n xs
little_endian-take zero m xs h = refl
little_endian-take (suc n) zero xs h = absurd (omega arith)
little_endian-take (suc n) (suc m) [] h = refl
little_endian-take (suc n) (suc m) (x ∷ xs) h =
    ap (λ (t : ℕ). x + 256 * t) (little_endian-take n m xs (omega arith))

field_at-take :
    (off n m : ℕ) (xs : List ℕ) → off + n ≤ m → field_at off n (take m xs) ≡ field_at off n xs
field_at-take zero n m xs h = little_endian-take n m xs (omega arith)
field_at-take (suc off) n zero xs h = absurd (omega arith)
field_at-take (suc off) n (suc m) [] h = refl
field_at-take (suc off) n (suc m) (x ∷ xs) h = field_at-take off n m xs (omega arith)

parse_header-take : (xs : List ℕ) → parse_header (take header_size xs) ≡ parse_header xs
unfolding parse_header
parse_header-take xs =
    let f = λ (off n : ℕ) (h : off + n ≤ 32). field_at-take off n 32 xs h in
    rw (
      f 1 1 (omega arith),
      f 2 1 (omega arith),
      f 3 1 (omega arith),
      f 8 4 (omega arith),
      f 0xc 4 (omega arith),
      f 0x10 4 (omega arith),
      f 0x14 4 (omega arith),
      f 0x18 4 (omega arith),
      f 0x1c 4 (omega arith),
    )

parse_chunk-take : (xs : List ℕ) → parse_chunk (take chunk_size xs) ≡ parse_chunk xs
unfolding parse_chunk
parse_chunk-take xs =
    let f = λ (off n : ℕ) (h : off + n ≤ 16). field_at-take off n 16 xs h in
    rw (f 0 4 (omega arith), f 4 4 (omega arith), f 8 4 (omega arith), f 0xc 4 (omega arith))

-- The search reads chunks below the count only.
bisect-reads :
    (fuel n target lo hi : ℕ) (fetch fetch' : ℕ → Option Chunk)
    → ((i : ℕ) → i < n → fetch i ≡ fetch' i)
    → lo < hi
    → hi ≤ n
    → bisect fuel fetch target lo hi ≡ bisect fuel fetch' target lo hi
unfolding bisect
bisect-reads zero n target lo hi fetch fetch' same lt le = refl
bisect-reads (suc fuel) n target lo hi fetch fetch' same lt le =
    elim (Bool-cases (ltb 1 (hi - lo))) [
      | inr narrow ↦ ground arith
      | inl wide ↦
          let mid : ℕ = lo + (hi - lo) / 2 in
          let inside : (lo < mid) × (mid < hi) = ground arith in
          let e = same mid (omega (arith, inside.1)) in
          let low =
            bisect-reads fuel n target lo mid fetch fetch' same inside.0
              (omega (arith, inside.1)) in
          let high = bisect-reads fuel n target mid hi fetch fetch' same inside.1 le in ground arith
    ]

-- What parseMap has checked of a header.
parse_map-checked :
    (bytes : List ℕ) (h : Header)
    → parse_map bytes ≡ some h
    → (parse_header bytes ≡ h) × (check_header h ≡ true) × (h.total_size ≤ length bytes)
unfolding parse_map
parse_map-checked bytes h e = ground arith

check_header-fits :
    (h : Header)
    → check_header h ≡ true
    → (0 < h.chunk_count)
      × (h.chunks_offset + h.chunk_count * 16 ≤ h.stream_offset)
      × (h.stream_offset ≤ h.total_size)
      × (32 ≤ h.total_size)
unfolding check_header
check_header-fits h e = ground arith

module _ (reader : Reader) (frag : Fragment) (bytes : List ℕ) (h : Header)
    (serves : Serves reader frag.map bytes) (in_space : frag.map < u64_mod)
    (parsed : parse_map bytes ≡ some h) where
  abbrev Bounds : Type 0
  Bounds =
      (0 < h.chunk_count)
      × (h.chunks_offset + h.chunk_count * 16 ≤ h.stream_offset)
      × (h.stream_offset ≤ h.total_size)
      × (32 ≤ h.total_size)
      × (h.total_size ≤ length bytes)

  bounds : Bounds
  bounds =
      let (_, checked, total) = parse_map-checked bytes h parsed in
      let (a, b, c, d) = check_header-fits h checked in (a, b, c, d, total)

  fetch_header-parsed : fetch_header reader frag ≡ some h
  unfolding fetch_header
  fetch_header-parsed =
      let (same, checked, total) = parse_map-checked bytes h parsed in
      let z : (frag.map + 0) % u64_mod ≡ frag.map = omega arith in
      let read : reader frag.map header_size ≡ some (take header_size bytes) =
        rw z at (serves 0 header_size (omega (arith, bounds))) in
      let whole = parse_header-take bytes ∙ same in rw (read, whole, checked)

  fetch_chunk-parsed :
      (i : ℕ) → i < h.chunk_count → fetch_chunk reader frag h i ≡ some (chunk_at bytes h i)
  unfolding fetch_chunk
  fetch_chunk-parsed i lt =
      let off : ℕ = h.chunks_offset + i * chunk_size in
      let fits : off + chunk_size ≤ length bytes = omega (arith, bounds) in
      let read = serves off chunk_size fits in
      let at : frag.map + h.chunks_offset + i * chunk_size ≡ frag.map + off = omega arith in
      rw (at, read, parse_chunk-take (drop off bytes))

  abbrev stream_bytes_of : List ℕ
  stream_bytes_of = take (stream_size h) (drop h.stream_offset bytes)

  length-stream : length stream_bytes_of ≡ stream_size h
  length-stream = length-take-drop (stream_size h) h.stream_offset bytes (omega (arith, bounds))

  stream-Serves : Serves reader ((frag.map + h.stream_offset) % u64_mod) stream_bytes_of
  stream-Serves idx n fits =
      let size_e = length-stream in
      let at : ((frag.map + h.stream_offset) % u64_mod + idx) % u64_mod
          ≡ (frag.map + (h.stream_offset + idx)) % u64_mod =
        omega arith in
      let read = serves (h.stream_offset + idx) n (omega (arith, bounds)) in
      rw at read
      ∙ ap some (
          ap (take n) (sym (drop-drop idx h.stream_offset bytes))
          ∙ sym (take-drop-take n idx (stream_size h) (drop h.stream_offset bytes) (omega arith)))

  find_chunk-parsed :
      (target : ℕ)
      → find_chunk h.chunk_count (fetch_chunk reader frag h) target
        ≡ find_chunk h.chunk_count (λ i. some (chunk_at bytes h i)) target
  unfolding find_chunk
  find_chunk-parsed target =
      bisect-reads (suc h.chunk_count) h.chunk_count target 0 h.chunk_count
        (fetch_chunk reader frag h) (λ i. some (chunk_at bytes h i)) fetch_chunk-parsed bounds.0
        (omega arith)

  walk-parsed :
      (chunk : Chunk) (target : ℕ)
      → walk_to_target (fragment_stream reader frag h) h.rice_k chunk target
        ≡ walk_to_target (stream_of bytes h) h.rice_k chunk target
  walk-parsed chunk target =
      let windows =
        walk_to_target-windows stream_bytes_of reader ((frag.map + h.stream_offset) % u64_mod)
          stream-Serves h.rice_k chunk target in
      subst
        (λ n.
          walk_to_target (remote reader ((frag.map + h.stream_offset) % u64_mod) n) h.rice_k chunk
            target
          ≡ walk_to_target (stream_of bytes h) h.rice_k chunk target)
        length-stream windows

  -- Decoding the map where it stands in the process is decodeMap on its bytes.
  pub decode_remote-decode_map :
      (arm_pc : ℕ) → decode_remote reader frag arm_pc ≡ decode_map bytes (arm_offset_in frag arm_pc)
  unfolding decode_remote decode_map
  decode_remote-decode_map arm_pc =
      let target = arm_offset_in frag arm_pc in
      let (i, found, (lt, _, _)) =
        find_chunk-Found (λ j. some (chunk_at bytes h j)) (λ j. chunk_at bytes h j) h.chunk_count
          target (λ j b. refl) bounds.0 in
      rw (fetch_header-parsed, parsed, find_chunk-parsed target, found, fetch_chunk-parsed i lt)
        (started (chunk_at bytes h i) target)
    where
      started :
          (chunk : Chunk) (target : ℕ)
          → (if ltb (stream_size h) chunk.stream_byte
              then unavailable
              else walk_to_target (fragment_stream reader frag h) h.rice_k chunk target)
            ≡ (if ltb (stream_size h) chunk.stream_byte
                then unavailable
                else walk_to_target (stream_of bytes h) h.rice_k chunk target)
      started chunk target =
          ap (λ (d : Decoded). if ltb (stream_size h) chunk.stream_byte then unavailable else d)
            (walk-parsed chunk target)

-- Where the process holds the bytes of a map that parseMap accepts at the address in a translated
-- fragment with a nonempty x86 interval, resolveInFragment answers from what decodeMap gives on those
-- bytes for the pc's offset in the fragment, however the map is read.
pub resolve_in_fragment-decode_map :
    (reader : Reader) (frag : Fragment) (bytes : List ℕ) (h : Header) (arm_pc : ℕ)
    (out : Resolution)
    → Serves reader frag.map bytes
    → frag.map < u64_mod
    → parse_map bytes ≡ some h
    → frag.kind ≡ translated
    → 0 < frag.map
    → 0 < frag.x86_size
    → resolve_in_fragment reader frag arm_pc out
      ≡ finish reader frag arm_pc out (decode_map bytes (arm_offset_in frag arm_pc))
unfolding resolve_in_fragment
resolve_in_fragment-decode_map reader frag bytes h arm_pc out serves in_space parsed code placed
      sized =
    let is_code : (frag.kind == translated) ≡ true = ground arith in
    let has_map : (frag.map == 0) ≡ false = ground arith in
    let has_x86 : (frag.x86_size == 0) ≡ false = ground arith in
    let decoded = decode_remote-decode_map reader frag bytes h serves in_space parsed arm_pc in
    rw (is_code, has_map, has_x86, decoded)
