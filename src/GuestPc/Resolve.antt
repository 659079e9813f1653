-- ===== src/GuestPc/Resolve.antt =====
-- guest_pc_map.cpp: resolveInFragment and resolve without a cache.
use x87sidecar.Common.{
  ℕ, ◌+◌, ◌-◌, ◌*◌, ◌%◌, ◌||◌, not, if◌then◌else◌, ◌==◌, ltb, Option, none, some, List,
}
use x87sidecar.GuestPc.Reader.{
  Reader, u64_mod, u32_mod, Status, resolved, not_translated, unavailable,
}
use x87sidecar.GuestPc.Bits.{Stream, remote}
use x87sidecar.GuestPc.Map.{
  Header, header_size, chunk_size, parse_header, check_header, Chunk, parse_chunk, find_chunk,
  MapPoint, Decoded, walk_to_target, stream_size,
}
use x87sidecar.GuestPc.Tree.{Fragment, lookup_fragment}

-- NoGuestReason.
pub data NoGuestReason : Type 0 where
  unknown no_fragment runtime_routines before_first_boundary : NoGuestReason

pub record Resolution : Type 0 where
  pub x86_pc : ℕ
  pub fragment : Fragment
  pub arm_offset : ℕ
  pub point : MapPoint
  pub reason : NoGuestReason

-- A call's status and the caller's out parameter after it.
abbrev pub Outcome : Type 0
Outcome = Status (Unit {0}) × Resolution

abbrev pub refuse : NoGuestReason → Resolution → Outcome
refuse reason out = (not_translated, record out { reason = reason })

abbrev pub drop_sample : Resolution → Outcome
drop_sample out = (unavailable, out)

-- FragmentKind::Translated.
abbrev pub translated : ℕ
translated = 4

-- static_cast<uint32_t>(armPc - frag.arm_begin).
abbrev pub arm_offset_in : Fragment → ℕ → ℕ
arm_offset_in frag arm_pc = (arm_pc + u64_mod - frag.arm_begin) % u64_mod % u32_mod

abbrev pub parsed_chunk : Option (List ℕ) → Option Chunk
parsed_chunk none = none
parsed_chunk (some bytes) = some (parse_chunk bytes)

module _ (reader : Reader) where
  unfoldable pub fetch_chunk : Fragment → Header → ℕ → Option Chunk
  fetch_chunk frag h i =
      parsed_chunk (reader ((frag.map + h.chunks_offset + i * chunk_size) % u64_mod) chunk_size)

  abbrev pub checked_header : Option (List ℕ) → Option Header
  checked_header none = none
  checked_header (some bytes) =
      let h = parse_header bytes in if check_header h then some h else none

  unfoldable pub fetch_header : Fragment → Option Header
  fetch_header frag = checked_header (reader frag.map header_size)

  abbrev pub fragment_stream : Fragment → Header → Stream
  fragment_stream frag h = remote reader ((frag.map + h.stream_offset) % u64_mod) (stream_size h)

  -- The end of resolveInFragment.
  unfoldable pub finish : Fragment → ℕ → Resolution → Decoded → Outcome
  finish frag arm_pc out not_translated = refuse before_first_boundary out
  finish frag arm_pc out unavailable = drop_sample out
  finish frag arm_pc out (resolved point) =
      if ltb frag.x86_size point.x86_offset then drop_sample out else (
        resolved tt,
        record out {
          fragment = frag;
          arm_offset = arm_offset_in frag arm_pc;
          point = point;
          x86_pc = (frag.x86_begin + point.x86_offset) % u64_mod;
        },
      )

  abbrev pub walk_chunk : Fragment → Header → ℕ → Option Chunk → Decoded
  walk_chunk frag h target none = unavailable
  walk_chunk frag h target (some chunk) =
      if ltb (stream_size h) chunk.stream_byte
      then unavailable
      else walk_to_target (fragment_stream frag h) h.rice_k chunk target

  abbrev pub walk_found : Fragment → Header → ℕ → Option ℕ → Decoded
  walk_found frag h target none = unavailable
  walk_found frag h target (some i) = walk_chunk frag h target (fetch_chunk frag h i)

  abbrev pub walk_with : Fragment → ℕ → Option Header → Decoded
  walk_with frag target none = unavailable
  walk_with frag target (some h) =
      walk_found frag h target (find_chunk h.chunk_count (fetch_chunk frag h) target)

  -- The decode of a translated fragment's map.
  unfoldable pub decode_remote : Fragment → ℕ → Decoded
  decode_remote frag arm_pc = walk_with frag (arm_offset_in frag arm_pc) (fetch_header frag)

  -- resolveInFragment.
  unfoldable pub resolve_in_fragment : Fragment → ℕ → Resolution → Outcome
  resolve_in_fragment frag arm_pc out =
      if not (frag.kind == translated)
      then refuse runtime_routines out
      else if frag.map == 0 || frag.x86_size == 0
      then drop_sample out
      else finish frag arm_pc out (decode_remote frag arm_pc)

  unfoldable pub resolve_found : ℕ → Resolution → Status Fragment → Outcome
  resolve_found arm_pc out (resolved frag) = resolve_in_fragment frag arm_pc out
  resolve_found arm_pc out not_translated = refuse no_fragment out
  resolve_found arm_pc out unavailable = drop_sample out

  -- resolve, without a cache.
  unfoldable pub resolve : ℕ → ℕ → ℕ → Resolution → Outcome
  resolve root_offset runtime_base arm_pc out =
      resolve_found arm_pc out (lookup_fragment root_offset reader runtime_base arm_pc)
