-- ===== src/GuestPc/Coherent.antt =====
-- guest_pc_map.cpp, resolve with a cache: while the entries are right it answers as resolve does.
use x87sidecar.Common.{
  ℕ, ◌≡◌, refl, sym, subst, ◌∙◌, true, false, not, ltb, ◌==◌, get_elem?, some, Bool-cases, ◌||◌,
  ==_iff, inl, inr, arith,
}
use x87sidecar.GuestPc.Reader.{Reader, Status, resolved, not_translated, unavailable}
use x87sidecar.GuestPc.Map.{Decoded}
use x87sidecar.GuestPc.Tree.{Fragment, lookup_fragment}
use x87sidecar.GuestPc.Resolve.{
  Resolution, Outcome, refuse, runtime_routines, no_fragment, translated, resolve_in_fragment,
  resolve, resolve_found, finish, decode_remote,
}
use x87sidecar.GuestPc.Cache.{Cache, Entry, matches, select, set_of, negative_recheck}
use x87sidecar.GuestPc.Cached.{
  Slot, node_unchanged, from_entry, cold, cold_found, in_cached, current, serve_slot,
  resolve_cached, is_unavailable, negative,
}
use x87sidecar.GuestPc.Select.{select-hit}

module _ (root_offset : ℕ) (reader : Reader) (runtime_base : ℕ) where
  abbrev pub found_at : ℕ → Status Fragment
  found_at pc = lookup_fragment root_offset reader runtime_base pc

  -- The answer that an entry keeps is that of its fragment, whatever the out parameter was.
  abbrev pub Answered : Entry → ℕ → Type 0
  Answered e pc =
      (out : Resolution)
      → resolve_in_fragment reader e.fragment pc out
        ≡ (resolved tt, from_entry root_offset reader runtime_base pc e out)

  -- An entry with a fragment: the tree still has the fragment for the pc, and its node is unchanged.
  abbrev pub Positive : Entry → ℕ → Type 0
  Positive e pc =
      (found_at pc ≡ resolved e.fragment)
      × (node_unchanged reader e.fragment ≡ true)
      × (e.fragment.kind ≡ translated → e.arm_pc ≡ pc → Answered e pc)

  -- What an entry that matches a pc promises.
  abbrev pub Right : Entry → ℕ → Type 0
  Right e pc =
      ((e.fragment.node == 0) ≡ false → Positive e pc)
      × ((e.fragment.node == 0) ≡ true → found_at pc ≡ not_translated)

  abbrev pub Correct : Entry → Type 0
  Correct e = (pc : ℕ) → matches pc e ≡ true → Right e pc

  -- Every entry of a cache is right for the process as it is.
  abbrev pub Coherent : Cache → Type 0
  Coherent cache = (s way : ℕ) (e : Entry) → get_elem? (cache.sets s) way ≡ some e → Correct e

  cold_found-outcome :
      (pc : ℕ) (slot : Slot) (out : Resolution) (cache : Cache) (r : Status Fragment)
      → (cold_found root_offset reader runtime_base pc slot out cache r).outcome
        ≡ resolve_found reader pc out r
  unfolding cold_found resolve_found
  cold_found-outcome pc slot out cache not_translated = refl
  cold_found-outcome pc slot out cache unavailable = refl
  cold_found-outcome pc slot out cache (resolved frag) =
      elim (Bool-cases (is_unavailable (resolve_in_fragment reader frag pc out).0)) [
        | inl e ↦ rw e
        | inr e ↦ rw e
      ]

  pub cold-outcome :
      (pc : ℕ) (slot : Slot) (out : Resolution) (cache : Cache)
      → (cold root_offset reader runtime_base pc slot out cache).outcome
        ≡ resolve reader root_offset runtime_base pc out
  unfolding cold resolve
  cold-outcome pc slot out cache = cold_found-outcome pc slot out _ (found_at pc)

  resolve-found :
      (pc : ℕ) (out : Resolution) (r : Status Fragment)
      → found_at pc ≡ r
      → resolve reader root_offset runtime_base pc out ≡ resolve_found reader pc out r
  unfolding resolve
  resolve-found pc out r e = rw e

  in_cached-outcome :
      (pc : ℕ) (slot : Slot) (out : Resolution) (cache : Cache) (o : Outcome)
      → resolve reader root_offset runtime_base pc out ≡ o
      → (is_unavailable o.0 ≡ true → o.1 ≡ out)
      → (in_cached root_offset reader runtime_base pc slot cache o).outcome
        ≡ resolve reader root_offset runtime_base pc out
  unfolding in_cached
  in_cached-outcome pc slot out cache (status, out') e kept =
      elim (Bool-cases (is_unavailable status)) [
        | inl u ↦ rw (u, kept u) (cold-outcome pc slot out cache)
        | inr u ↦ rw u (sym e)
      ]

  finish-kept :
      (frag : Fragment) (pc : ℕ) (out : Resolution) (d : Decoded)
      → is_unavailable (finish reader frag pc out d).0 ≡ true
      → (finish reader frag pc out d).1 ≡ out
  unfolding finish
  finish-kept frag pc out not_translated u = cc
  finish-kept frag pc out unavailable u = refl
  finish-kept frag pc out (resolved p) u = elim (Bool-cases (ltb frag.x86_size p.x86_offset)) [
    | inl far ↦ rw far
    | inr near ↦ cc (rw near at u)
  ]

  -- A sample that is dropped leaves the out parameter alone.
  resolve_in_fragment-kept :
      (frag : Fragment) (pc : ℕ) (out : Resolution)
      → is_unavailable (resolve_in_fragment reader frag pc out).0 ≡ true
      → (resolve_in_fragment reader frag pc out).1 ≡ out
  unfolding resolve_in_fragment
  resolve_in_fragment-kept frag pc out u = elim (Bool-cases (not (frag.kind == translated))) [
    | inl other ↦ cc (rw other at u)
    | inr is_code ↦ elim (Bool-cases (frag.map == 0 || frag.x86_size == 0)) [
      | inl nothing ↦ rw (is_code, nothing)
      | inr something ↦
          rw (is_code, something)
            (finish-kept frag pc out (decode_remote reader frag pc) (rw (is_code, something) at u))
    ]
  ]

  resolve_in_fragment-other :
      (frag : Fragment) (pc : ℕ) (out : Resolution)
      → not (frag.kind == translated) ≡ true
      → resolve_in_fragment reader frag pc out ≡ refuse runtime_routines out
  unfolding resolve_in_fragment
  resolve_in_fragment-other frag pc out e = rw e

  current-outcome :
      (pc : ℕ) (slot : Slot) (out : Resolution) (cache : Cache)
      → Positive slot.entry pc
      → (current root_offset reader runtime_base pc slot out cache).outcome
        ≡ resolve reader root_offset runtime_base pc out
  unfolding current
  current-outcome pc slot out cache (found, same, answered) =
      let frag = slot.entry.fragment in
      let uncached : resolve reader root_offset runtime_base pc out
          ≡ resolve_in_fragment reader frag pc out =
        unfold resolve_found in resolve-found pc out (resolved frag) found in
      elim (Bool-cases (not (frag.kind == translated))) [
        | inl other ↦ rw other (sym (resolve_in_fragment-other frag pc out other) ∙ sym uncached)
        | inr is_code ↦ elim (Bool-cases (slot.entry.arm_pc == pc)) [
          | inl same_pc ↦
              rw (is_code, same_pc)
                (sym (answered (ground arith) ((==_iff _ pc).0 same_pc) out) ∙ sym uncached)
          | inr other_pc ↦
              rw (is_code, other_pc)
                (in_cached-outcome pc slot out cache (resolve_in_fragment reader frag pc out)
                  uncached (resolve_in_fragment-kept frag pc out))
        ]
      ]

  serve_slot-outcome :
      (pc : ℕ) (slot : Slot) (out : Resolution) (cache : Cache)
      → Right slot.entry pc
      → (serve_slot root_offset reader runtime_base pc true slot out cache).outcome
        ≡ resolve reader root_offset runtime_base pc out
  unfolding serve_slot negative
  serve_slot-outcome pc slot out cache (positive, none_found) =
      elim (Bool-cases (slot.entry.fragment.node == 0)) [
        | inl z ↦
            let uncached : resolve reader root_offset runtime_base pc out ≡ refuse no_fragment out =
              unfold resolve_found in resolve-found pc out not_translated (none_found z) in
            elim (Bool-cases (ltb slot.entry.recheck negative_recheck)) [
              | inl soon ↦ rw (z, soon) (sym uncached)
              | inr due ↦ rw (z, due) (cold-outcome pc slot out cache)
            ]
        | inr nz ↦ rw (nz, (positive nz).1) (current-outcome pc slot out cache (positive nz))
      ]

  -- With a cache whose entries are right for the process as it is, resolve gives the status and the
  -- out parameter that it gives without a cache.
  pub resolve_cached-resolve :
      (pc : ℕ) (out : Resolution) (cache : Cache)
      → Coherent cache
      → (resolve_cached root_offset reader runtime_base pc out cache).outcome
        ≡ resolve reader root_offset runtime_base pc out
  unfolding resolve_cached
  resolve_cached-resolve pc out cache coherent = elim (Bool-cases (select pc cache).hit) [
    | inl hit ↦
        let (e, at, m, entry_e) = select-hit pc cache hit in
        let right_e = coherent (set_of pc) (select pc cache).way e at pc m in
        let right_s : Right (select pc cache).entry pc =
          subst (λ x. Right x pc) (sym entry_e) right_e in
        rw hit (serve_slot-outcome pc (slot cache) out (select pc cache).cache right_s)
    | inr miss ↦ rw miss (missed (slot cache) (select pc cache).cache)
  ]
    where
      slot : Cache → Slot
      slot c = record {
        set_index = set_of pc;
        way = (select pc c).way;
        entry = (select pc c).entry;
      }

      missed :
          (s : Slot) (c : Cache)
          → (serve_slot root_offset reader runtime_base pc false s out c).outcome
            ≡ resolve reader root_offset runtime_base pc out
      missed s c = unfold serve_slot in cold-outcome pc s out c
