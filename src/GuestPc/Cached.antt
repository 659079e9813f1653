-- ===== src/GuestPc/Cached.antt =====
-- guest_pc_map.cpp: nodeUnchanged, and resolve with a cache.
use x87sidecar.Common.{
  ℕ, ◌+◌, ◌%◌, Bool, true, false, ◌&&◌, not, if◌then◌else◌, ◌==◌, ltb, Option, none, some, List,
}
use x87sidecar.GuestPc.Reader.{
  Reader, u64_mod, u32_mod, Status, resolved, not_translated, unavailable,
}
use x87sidecar.GuestPc.Tree.{Fragment, parse_node, window_begin, node_window, lookup_fragment}
use x87sidecar.GuestPc.Resolve.{
  Resolution, Outcome, refuse, drop_sample, translated, runtime_routines, no_fragment,
  arm_offset_in, resolve_in_fragment,
}
use x87sidecar.GuestPc.Cache.{
  Cache, Entry, empty_entry, Stats, select, set_of, put, negative_recheck,
}

-- What the call returns, the caller's out parameter, and the cache after the call.
pub record Served : Type 0 where
  pub outcome : Outcome
  pub cache : Cache

abbrev pub same_fragment : Fragment → Fragment → Bool
same_fragment now cached =
    now.arm_begin == cached.arm_begin
    && now.arm_size == cached.arm_size
    && now.x86_begin == cached.x86_begin
    && now.x86_size == cached.x86_size
    && now.map == cached.map
    && now.kind == cached.kind

abbrev pub unchanged_in : Fragment → Option (List ℕ) → Bool
unchanged_in cached none = false
unchanged_in cached (some win) = same_fragment (parse_node win cached.node) cached

-- nodeUnchanged.
unfoldable pub node_unchanged : Reader → Fragment → Bool
node_unchanged reader cached =
    unchanged_in cached (reader ((cached.node + window_begin) % u64_mod) node_window)

abbrev pub count : ℕ → ℕ
count n = (n + 1) % u64_mod

abbrev pub with_stats : Cache → Stats → Cache
with_stats cache st = record cache { stats = st }

abbrev pub serve : Outcome → Cache → Served
serve o cache = record { outcome = o; cache = cache }

-- The place of an entry in the cache.
pub record Slot : Type 0 where
  pub set_index : ℕ
  pub way : ℕ
  pub entry : Entry

abbrev pub store : Slot → Entry → Cache → Cache
store slot e cache = put slot.set_index slot.way e cache

-- The entry for an ARM pc in no fragment.
abbrev pub negative_entry : ℕ → ℕ → Entry
negative_entry arm_pc stamp = record empty_entry { used = true; arm_pc = arm_pc; stamp = stamp }

abbrev pub pc_of : Status (Unit {0}) → Resolution → ℕ
pc_of (resolved _) out = out.x86_pc
pc_of _ out = 0

-- The entry that a cold lookup stores.
abbrev pub positive_entry : Fragment → ℕ → ℕ → Outcome → Entry
positive_entry frag arm_pc stamp (status, out) = record empty_entry {
  used = true;
  fragment = frag;
  arm_pc = arm_pc;
  x86_pc = pc_of status out;
  point = out.point;
  stamp = stamp;
}

abbrev pub is_unavailable : Status (Unit {0}) → Bool
is_unavailable unavailable = true
is_unavailable _ = false

module _ (root_offset : ℕ) (reader : Reader) (runtime_base arm_pc : ℕ) where
  unfoldable pub cold_found : Slot → Resolution → Cache → Status Fragment → Served
  cold_found slot out cache not_translated =
      serve (refuse no_fragment out) (store slot (negative_entry arm_pc slot.entry.stamp) cache)
  cold_found slot out cache unavailable = serve (drop_sample out) cache
  cold_found slot out cache (resolved frag) =
      let o = resolve_in_fragment reader frag arm_pc out in
      if is_unavailable o.0
      then serve o cache
      else serve o (store slot (positive_entry frag arm_pc slot.entry.stamp o) cache)

  -- From cache.stats_.misses++ on.
  unfoldable pub cold : Slot → Resolution → Cache → Served
  cold slot out cache =
      let st = cache.stats in
      cold_found slot out (with_stats cache (record st { misses = count st.misses }))
        (lookup_fragment root_offset reader runtime_base arm_pc)

  -- A decode in the cached fragment; one that is unavailable goes on to the cold lookup.
  unfoldable pub in_cached : Slot → Cache → Outcome → Served
  in_cached slot cache (status, out) =
      let st = cache.stats in
      if is_unavailable status
      then cold slot out cache
      else serve (status, out)
          (store slot
            (record slot.entry { arm_pc = arm_pc; x86_pc = out.x86_pc; point = out.point })
            (with_stats cache (record st { fragment_hits = count st.fragment_hits })))

  -- The answer stored in the entry.
  abbrev pub from_entry : Entry → Resolution → Resolution
  from_entry e out = record out {
    fragment = e.fragment;
    arm_offset = arm_offset_in e.fragment arm_pc;
    point = e.point;
    x86_pc = e.x86_pc;
  }

  -- A hit whose node is unchanged.
  unfoldable pub current : Slot → Resolution → Cache → Served
  current slot out cache =
      let e = slot.entry in
      let st = cache.stats in
      if not (e.fragment.kind == translated)
      then serve (refuse runtime_routines out)
          (with_stats cache (record st { negative_hits = count st.negative_hits }))
      else if e.arm_pc == arm_pc
      then serve (resolved tt, from_entry e out)
          (with_stats cache (record st { pc_hits = count st.pc_hits }))
      else in_cached slot cache (resolve_in_fragment reader e.fragment arm_pc out)

  -- A hit whose node has changed: the entry is dropped.
  unfoldable pub stale : Slot → Resolution → Cache → Served
  stale slot out cache =
      let st = cache.stats in
      cold (record slot { entry = empty_entry }) out
        (store slot empty_entry (with_stats cache (record st { stale = count st.stale })))

  unfoldable pub negative : Slot → Resolution → Cache → Served
  negative slot out cache =
      let st = cache.stats in
      let e = slot.entry in
      serve (refuse no_fragment out) (
        store slot (record e { recheck = (e.recheck + 1) % u32_mod })
          (with_stats cache (record st { negative_hits = count st.negative_hits })))

  unfoldable pub serve_slot : Bool → Slot → Resolution → Cache → Served
  serve_slot hit slot out cache =
      if hit && not (slot.entry.fragment.node == 0)
      then (if node_unchanged reader slot.entry.fragment
          then current slot out cache
          else stale slot out cache)
      else if hit && ltb slot.entry.recheck negative_recheck
      then negative slot out cache
      else cold slot out cache

  -- resolve with a cache.
  unfoldable pub resolve_cached : Resolution → Cache → Served
  resolve_cached out cache =
      let s = select arm_pc cache in
      serve_slot s.hit (record { set_index = set_of arm_pc; way = s.way; entry = s.entry }) out
        s.cache
