-- ===== src/GuestPc/CacheTests.antt =====
-- What the lookups and the cache give on the small process.
use x87sidecar.Common.{
  ◌-◌, ◌%◌, ◌^◌, ◌+◌, ◌==◌, leb, true, some, ℕ, ◌≡◌, ◌≢◌, ◌↔◌, refl, sym, ap, false, ◌∙◌, subst, [],
  ◌∷◌, arith,
}
use x87sidecar.GuestPc.Reader.{Status, resolved, not_translated}
use x87sidecar.GuestPc.Bits.{
  Stream, bit_reader, memory, read_bit, byte_at, rice, read_value, prefix,
}
use x87sidecar.GuestPc.Step.{
  Cursor, next, step, read_deltas, coded_pair, escaped_pair, flagged_pair, extra_of, pair_after,
}
use x87sidecar.GuestPc.Map.{
  parse_map, decode_map, MapPoint, parse_header, check_header, parse_chunk, find_chunk, bisect,
  walk, walk_to_target, point_at,
}
use x87sidecar.GuestPc.Walk.{walk_iff, LastBoundary}
use x87sidecar.GuestPc.Tree.{
  Fragment, lookup_fragment, descend, turn, parse_node, arm_left, arm_right,
}
use x87sidecar.GuestPc.TreeLaws.{Answers, lookup_fragment-Answers, height}
use x87sidecar.GuestPc.Resolve.{
  Resolution, resolve, resolve_in_fragment, finish, decode_remote, fetch_header, fetch_chunk,
  unknown, before_first_boundary,
}
use x87sidecar.GuestPc.Cache.{Cache, no_point, no_fragment_yet, clear}
use x87sidecar.GuestPc.Cached.{resolve_cached}
use x87sidecar.GuestPc.Invariant.{NoGap}
use x87sidecar.GuestPc.Sequence.{serve_all, resolve_all}
use x87sidecar.GuestPc.TreeCache.{HoldsTree, serve_all_held}
use x87sidecar.GuestPc.Gap.{second_call_zero}
use x87sidecar.GuestPc.Windows.{Serves}
use x87sidecar.GuestPc.RemoteMap.{resolve_in_fragment-decode_map}
use x87sidecar.GuestPc.Samples.{
  small_map, small_header, small_rice, bytes_of, small_reader, small_fragment, small_tree,
  small_window,
}

small_held : HoldsTree 0x100 small_reader 0x1000 small_tree
unfolding parse_node arm_left arm_right height
small_held = (
  bytes_of 8 0x2000,
  omega arith,
  refl,
  (
    small_window,
    refl,
    refl,
    (omega arith, refl),
    (omega arith, omega arith, omega arith),
    refl,
    refl,
  ),
  (λ g m. elim m [ ], λ g m. elim m [ ], tt, tt),
  omega arith,
)

lookup_fragment-Answers_example :
    Answers small_tree 0x10009 (lookup_fragment 0x100 small_reader 0x1000 0x10009)
lookup_fragment-Answers_example =
    lookup_fragment-Answers small_reader 0x10009 small_tree 0x100 0x1000 small_held.0 small_held.1
      small_held.2 small_held.3 small_held.4 small_held.5

abbrev fresh : Resolution
fresh = record {
  x86_pc = 0;
  fragment = no_fragment_yet;
  arm_offset = 0;
  point = no_point;
  reason = unknown;
}

abbrev any_cache : Cache
any_cache = record {
  sets = λ s. [];
  stats = record { pc_hits = 0; fragment_hits = 0; negative_hits = 0; misses = 0; stale = 0 };
  clock = 0;
}

small_found : lookup_fragment 0x100 small_reader 0x1000 0x10004 ≡ resolved small_fragment
unfolding lookup_fragment descend turn parse_node
small_found = refl

small_gap :
    resolve_in_fragment small_reader small_fragment 0x10004 fresh
    ≡ (not_translated, record fresh { reason = before_first_boundary })
unfolding resolve_in_fragment finish decode_remote fetch_header fetch_chunk parse_header
    check_header parse_chunk find_chunk bisect walk_to_target
small_gap = refl

second_call_zero_example :
    let first = resolve_cached 0x100 small_reader 0x1000 0x10004 fresh (clear any_cache) in
    let second = resolve_cached 0x100 small_reader 0x1000 0x10004 fresh first.cache in
    (resolve small_reader 0x100 0x1000 0x10004 fresh
      ≡ (not_translated, record fresh { reason = before_first_boundary }))
    × (first.outcome ≡ (not_translated, record fresh { reason = before_first_boundary }))
    × (second.outcome.0 ≡ resolved tt)
    × (second.outcome.1.x86_pc ≡ 0)
second_call_zero_example =
    second_call_zero 0x100 small_reader 0x1000 0x10004 fresh
      (record fresh { reason = before_first_boundary }) any_cache small_fragment small_found refl
      small_gap

found_at_twelve : lookup_fragment 0x100 small_reader 0x1000 0x1000c ≡ resolved small_fragment
unfolding lookup_fragment descend turn parse_node
found_at_twelve = refl

resolved_at_twelve :
    (out : Resolution)
    → (resolve_in_fragment small_reader small_fragment 0x1000c out).0 ≡ resolved tt
unfolding resolve_in_fragment finish decode_remote fetch_header fetch_chunk parse_header
    check_header parse_chunk find_chunk bisect walk_to_target walk next step read_deltas coded_pair
    escaped_pair flagged_pair extra_of pair_after rice prefix read_value read_bit byte_at
resolved_at_twelve out = refl

resolved-ne-not_translated : (u : Unit {0}) → resolved u ≢ not_translated
resolved-ne-not_translated u h = cc

fragment_of : Status Fragment → Fragment
fragment_of (resolved f) = f
fragment_of _ = no_fragment_yet

NoGap-twelve : NoGap 0x100 small_reader 0x1000 0x1000c
unfolding fragment_of
NoGap-twelve f out found code e =
    let same : f ≡ small_fragment = ap fragment_of (sym found ∙ found_at_twelve) in
    let e' =
      subst (λ x. (resolve_in_fragment small_reader x 0x1000c out).0 ≡ not_translated) same e in
    resolved-ne-not_translated tt (sym (resolved_at_twelve out) ∙ e')

serve_all_held_example :
    serve_all 0x100 small_reader 0x1000 fresh (0x1000c ∷ 0x1000c ∷ []) (clear any_cache)
    ≡ resolve_all 0x100 small_reader 0x1000 fresh (0x1000c ∷ 0x1000c ∷ [])
serve_all_held_example =
    serve_all_held 0x100 small_reader 0x1000 small_tree small_held fresh (0x1000c ∷ 0x1000c ∷ [])
      any_cache (NoGap-twelve, (NoGap-twelve, tt))

-- A walk on the stream of the small map, from its chunk's start to the offset 15.
abbrev small_start : Cursor
small_start = record { x86 = 0; arm = 8; flags = 0; reader = bit_reader 0 }

abbrev small_stream : Stream
small_stream = memory (154 ∷ 108 ∷ 4 ∷ 0 ∷ [])

walk_iff_example :
    let p : MapPoint = record { x86_offset = 3; arm_offset = 12; flags = 0; exact = false } in
    (walk 2 small_stream small_rice 15 small_start ≡ resolved p) ↔ (
      (m : ℕ) × (c' : Cursor) × (p ≡ point_at 15 c')
      × LastBoundary small_stream small_rice 15 2 small_start m c')
walk_iff_example = walk_iff small_stream small_rice 2 15 small_start _ (omega arith)

walk_at_fifteen :
    walk 2 small_stream small_rice 15 small_start
    ≡ resolved (record { x86_offset = 3; arm_offset = 12; flags = 0; exact = false })
unfolding walk next step read_deltas coded_pair escaped_pair flagged_pair extra_of pair_after rice
    prefix read_value read_bit byte_at
walk_at_fifteen = refl

small_parsed : parse_map small_map ≡ some small_header
unfolding parse_map parse_header check_header
small_parsed = refl

small-Serves : Serves small_reader 0x3000 small_map
small-Serves idx n fits =
    let at : (0x3000 + idx) % 2 ^ 64 ≡ 0x3000 + idx = omega arith in
    let no_root : ((0x3000 + idx) == 0x1100) ≡ false = ground arith in
    let no_node : ((0x3000 + idx) == 0x2030) ≡ false = ground arith in
    let in_map : leb 0x3000 (0x3000 + idx) ≡ true = ground arith in
    let offset : 0x3000 + idx - 0x3000 ≡ idx = omega arith in
    rw (at, no_root, no_node, in_map, offset)

resolve_in_fragment-decode_map_example :
    resolve_in_fragment small_reader small_fragment 0x1000e fresh
    ≡ finish small_reader small_fragment 0x1000e fresh (decode_map small_map 14)
resolve_in_fragment-decode_map_example =
    resolve_in_fragment-decode_map small_reader small_fragment small_map small_header 0x1000e fresh
      small-Serves (omega arith) small_parsed refl (omega arith) (omega arith)
