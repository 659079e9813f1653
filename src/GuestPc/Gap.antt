-- ===== src/GuestPc/Gap.antt =====
-- guest_pc_map.cpp, resolve with a cache: a pc before the first boundary of a translated fragment.
use x87sidecar.Common.{ℕ, ◌+◌, ◌%◌, ◌≡◌, refl, ap, true, false, ◌==◌, List, arith, replicate, set}
use x87sidecar.GuestPc.Reader.{Reader, u64_mod, resolved, not_translated}
use x87sidecar.GuestPc.Tree.{Fragment, contains, lookup_fragment}
use x87sidecar.GuestPc.Resolve.{
  Resolution, Outcome, resolve, resolve_found, translated, resolve_in_fragment,
}
use x87sidecar.GuestPc.Cache.{Cache, Entry, empty_entry, matches, scan, select, set_of, clear, ways}
use x87sidecar.GuestPc.Cached.{
  cold, cold_found, current, serve_slot, resolve_cached, node_unchanged, positive_entry, from_entry,
}
use x87sidecar.GuestPc.LookupFacts.{lookup_fragment-Found, ==_refl}

-- A set with an entry in its last way alone.
abbrev last_only : Entry → List Entry
last_only e = set (replicate ways empty_entry) 7 e

scan-empty : (pc : ℕ) → scan pc (replicate ways empty_entry) 0 0 0 ≡ (false, 7)
unfolding scan matches
scan-empty pc = refl

scan-last_only :
    (pc : ℕ) (e : Entry) → matches pc e ≡ true → scan pc (last_only e) 0 0 0 ≡ (true, 7)
unfolding scan matches
scan-last_only pc e m = ground arith

-- The first call on a cleared cache.
first_call :
    (root_offset : ℕ) (reader : Reader) (runtime_base pc : ℕ) (out out' : Resolution)
    (cache : Cache) (f : Fragment)
    → lookup_fragment root_offset reader runtime_base pc ≡ resolved f
    → resolve_in_fragment reader f pc out ≡ (not_translated, out')
    → (resolve_cached root_offset reader runtime_base pc out (clear cache)).outcome
        ≡ (not_translated, out')
      × ((resolve_cached root_offset reader runtime_base pc out (clear cache)).cache.sets
            (set_of pc)
          ≡ last_only (positive_entry f pc 1 (not_translated, out')))
unfolding resolve_cached select serve_slot cold cold_found clear scan matches
first_call root_offset reader runtime_base pc out out' cache f found gap =
    (rw (found, gap), rw (found, gap, ==_refl (set_of pc)))

select-last_only :
    (pc : ℕ) (e : Entry) (cache : Cache)
    → cache.sets (set_of pc) ≡ last_only e
    → matches pc e ≡ true
    → ((select pc cache).hit ≡ true)
      × ((select pc cache).entry ≡ record e { stamp = (cache.clock + 1) % u64_mod })
unfolding select
select-last_only pc e cache only m =
    let at = scan-last_only pc e m in (rw (only, at), rw (only, at))

matches-positive_entry :
    (pc : ℕ) (f : Fragment) (stamp : ℕ) (o : Outcome)
    → (f.node == 0) ≡ false
    → contains f pc ≡ true
    → matches pc (positive_entry f pc stamp o) ≡ true
unfolding matches
matches-positive_entry pc f stamp o nz c = rw (nz, c)

-- The entry of a pc in an unchanged translated fragment answers a call at that pc.
current-same_pc :
    (root_offset : ℕ) (reader : Reader) (runtime_base pc way : ℕ) (e : Entry) (out : Resolution)
    (cache : Cache)
    → (e.fragment.node == 0) ≡ false
    → node_unchanged reader e.fragment ≡ true
    → e.fragment.kind ≡ translated
    → e.arm_pc ≡ pc
    → (serve_slot root_offset reader runtime_base pc true
        (record { set_index = set_of pc; way = way; entry = e })
        out
        cache).outcome
      ≡ (resolved tt, from_entry root_offset reader runtime_base pc e out)
unfolding serve_slot current
current-same_pc root_offset reader runtime_base pc way e out cache nz same code at =
    let code' : (e.fragment.kind == translated) ≡ true = ground arith in
    let at' : (e.arm_pc == pc) ≡ true = ground arith in rw (nz, same, code', at')

repeated_call :
    (root_offset : ℕ) (reader : Reader) (runtime_base pc : ℕ) (e : Entry) (out : Resolution)
    (cache : Cache)
    → (select pc cache).hit ≡ true
    → (select pc cache).entry ≡ e
    → (e.fragment.node == 0) ≡ false
    → node_unchanged reader e.fragment ≡ true
    → e.fragment.kind ≡ translated
    → e.arm_pc ≡ pc
    → (resolve_cached root_offset reader runtime_base pc out cache).outcome
      ≡ (resolved tt, from_entry root_offset reader runtime_base pc e out)
unfolding resolve_cached
repeated_call root_offset reader runtime_base pc e out cache hit entry_e nz same code at =
    rw (hit, entry_e)
      (current-same_pc root_offset reader runtime_base pc (select pc cache).way e out
        (select pc cache).cache nz same code at)

-- A second call at a pc before the first boundary of a translated fragment. On a cleared cache the
-- first call is not translated, as a call without a cache is, and the second one, on the same
-- process, is resolved to the guest program counter 0.
pub second_call_zero :
    (root_offset : ℕ) (reader : Reader) (runtime_base pc : ℕ) (out out' : Resolution)
    (cache : Cache) (f : Fragment)
    → lookup_fragment root_offset reader runtime_base pc ≡ resolved f
    → f.kind ≡ translated
    → resolve_in_fragment reader f pc out ≡ (not_translated, out')
    → let first = resolve_cached root_offset reader runtime_base pc out (clear cache) in
      let second = resolve_cached root_offset reader runtime_base pc out first.cache in
      (resolve reader root_offset runtime_base pc out ≡ (not_translated, out'))
      × (first.outcome ≡ (not_translated, out'))
      × (second.outcome.0 ≡ resolved tt)
      × (second.outcome.1.x86_pc ≡ 0)
second_call_zero root_offset reader runtime_base pc out out' cache f found code gap =
    let first = resolve_cached root_offset reader runtime_base pc out (clear cache) in
    let e = positive_entry f pc 1 (not_translated, out') in
    let (first_e, sets_e) =
      first_call root_offset reader runtime_base pc out out' cache f found gap in
    let (nz, same, c) = lookup_fragment-Found reader pc root_offset runtime_base f found in
    let m = matches-positive_entry pc f 1 (not_translated, out') nz c in
    let (hit, entry_e) = select-last_only pc e first.cache sets_e m in
    let uncached : resolve reader root_offset runtime_base pc out ≡ (not_translated, out') =
      unfold resolve in unfold resolve_found in rw (found, gap) in
    let stamped = record e { stamp = (first.cache.clock + 1) % u64_mod } in
    let answer =
      repeated_call root_offset reader runtime_base pc stamped out first.cache hit entry_e nz same
        code refl in
    (uncached, first_e, ap (λ (o : Outcome). o.0) answer, ap (λ (o : Outcome). o.1.x86_pc) answer)
