-- ===== src/GuestPc/Invariant.antt =====
-- guest_pc_map.cpp, resolve with a cache: the entries stay right while the process does not change.
use x87sidecar.Common.{
  ℕ, ◌≡◌, ◌≢◌, refl, ap, sym, subst, ◌∙◌, true, false, not, ◌||◌, ltb, ◌==◌, ==_iff, Bool-cases,
  inl, inr,
}
use x87sidecar.GuestPc.Reader.{Reader, Status, resolved, not_translated, unavailable}
use x87sidecar.GuestPc.Map.{Decoded}
use x87sidecar.GuestPc.Tree.{Fragment, contains}
use x87sidecar.GuestPc.Resolve.{
  Resolution, Outcome, translated, resolve_in_fragment, finish, decode_remote, arm_offset_in,
}
use x87sidecar.GuestPc.Cache.{Cache, Entry, matches}
use x87sidecar.GuestPc.Cached.{
  Slot, cold, cold_found, in_cached, is_unavailable, pc_of, positive_entry, negative_entry,
}
use x87sidecar.GuestPc.Coherent.{Answered, found_at}
use x87sidecar.GuestPc.LookupFacts.{lookup_fragment-Found}
use x87sidecar.GuestPc.Preserve.{IsCorrect, IsCoherent, put-Coherent}

module _ (root_offset : ℕ) (reader : Reader) (runtime_base : ℕ) where
  -- The fragment found for a pc is found for every pc in its interval.
  abbrev pub Intervals : Type 0
  Intervals =
      (pc pc' : ℕ) (f : Fragment)
      → found_at root_offset reader runtime_base pc ≡ resolved f
      → contains f pc' ≡ true
      → found_at root_offset reader runtime_base pc' ≡ resolved f

  -- No translated fragment leaves the pc before its first boundary.
  abbrev pub NoGap : ℕ → Type 0
  NoGap pc =
      (f : Fragment) (out : Resolution)
      → found_at root_offset reader runtime_base pc ≡ resolved f
      → f.kind ≡ translated
      → (resolve_in_fragment reader f pc out).0 ≢ not_translated

  -- What a resolved call writes to the out parameter.
  abbrev written : Fragment → ℕ → Resolution → Resolution → Resolution
  written f pc from out = record out {
    fragment = f;
    arm_offset = arm_offset_in f pc;
    point = from.point;
    x86_pc = from.x86_pc;
  }

  finish-written :
      (f : Fragment) (pc : ℕ) (out out' other : Resolution) (d : Decoded)
      → finish reader f pc out d ≡ (resolved tt, out')
      → finish reader f pc other d ≡ (resolved tt, written f pc out' other)
  unfolding finish
  finish-written f pc out out' other not_translated e = cc (ap (λ (o : Outcome). o.0) e)
  finish-written f pc out out' other unavailable e = cc (ap (λ (o : Outcome). o.0) e)
  finish-written f pc out out' other (resolved p) e =
      elim (Bool-cases (ltb f.x86_size p.x86_offset)) [
        | inl far ↦ cc (ap (λ (o : Outcome). o.0) (rw far at e))
        | inr near ↦
            let same = ap (λ (o : Outcome). o.1) (rw near at e) in
            rw near (ap (λ (r : Resolution). (resolved tt, written f pc r other)) same)
      ]

  -- The answer of a fragment does not depend on the out parameter.
  resolve_in_fragment-written :
      (f : Fragment) (pc : ℕ) (out out' other : Resolution)
      → resolve_in_fragment reader f pc out ≡ (resolved tt, out')
      → resolve_in_fragment reader f pc other ≡ (resolved tt, written f pc out' other)
  unfolding resolve_in_fragment
  resolve_in_fragment-written f pc out out' other e =
      elim (Bool-cases (not (f.kind == translated))) [
        | inl no_code ↦ cc (ap (λ (o : Outcome). o.0) (rw no_code at e))
        | inr is_code ↦ elim (Bool-cases (f.map == 0 || f.x86_size == 0)) [
          | inl nothing ↦ cc (ap (λ (o : Outcome). o.0) (rw (is_code, nothing) at e))
          | inr something ↦
              rw (is_code, something)
                (finish-written f pc out out' other (decode_remote reader f pc)
                  (rw (is_code, something) at e))
        ]
      ]

  matches-contains :
      (pc : ℕ) (e : Entry)
      → (e.fragment.node == 0) ≡ false
      → matches pc e ≡ true
      → contains e.fragment pc ≡ true
  unfolding matches
  matches-contains pc e nz m = elim (Bool-cases e.used) [
    | inl u ↦ rw (u, nz) at m
    | inr u ↦ cc (rw u at m)
  ]

  matches-arm_pc :
      (pc : ℕ) (e : Entry) → (e.fragment.node == 0) ≡ true → matches pc e ≡ true → e.arm_pc ≡ pc
  unfolding matches
  matches-arm_pc pc e z m = elim (Bool-cases e.used) [
    | inl u ↦ (==_iff _ pc).0 (rw (u, z) at m)
    | inr u ↦ cc (rw u at m)
  ]

  module _ (intervals : Intervals) where
    -- An entry with the fragment found for its pc, and with its answer.
    found-Correct :
        (pc : ℕ) (e : Entry)
        → found_at root_offset reader runtime_base pc ≡ resolved e.fragment
        → e.arm_pc ≡ pc
        → (e.fragment.kind ≡ translated → Answered root_offset reader runtime_base e pc)
        → IsCorrect root_offset reader runtime_base e
    found-Correct pc e found at answered pc' m =
        let (nz, same, _) =
          lookup_fragment-Found reader pc root_offset runtime_base e.fragment found in
        (
          λ nz'. (
            intervals pc pc' e.fragment found (matches-contains pc' e nz m),
            same,
            λ code at'.
                subst (λ x. Answered root_offset reader runtime_base e x) (sym at ∙ at')
                  (answered code),
          ),
          λ z. absurd (cc (z, nz)),
        )

    -- What the section is about, for a call at one pc that leaves no gap.
    module _ (pc : ℕ) (no_gap : NoGap pc) where
      -- The entry that keeps an outcome of the fragment found.
      answer_kept :
          (f : Fragment) (out other : Resolution) (o : Outcome) (pc_kept : ℕ)
          → found_at root_offset reader runtime_base pc ≡ resolved f
          → resolve_in_fragment reader f pc out ≡ o
          → is_unavailable o.0 ≡ false
          → f.kind ≡ translated
          → (o.0 ≡ resolved tt → pc_kept ≡ o.1.x86_pc)
          → resolve_in_fragment reader f pc other ≡ (
            resolved tt,
            record other {
              fragment = f;
              arm_offset = arm_offset_in f pc;
              point = o.1.point;
              x86_pc = pc_kept;
            },
          )
      answer_kept f out other (resolved tt, out') pc_kept found e u code kept =
          resolve_in_fragment-written f pc out out' other e
          ∙ ap (λ (x : ℕ). (resolved tt, record (written f pc out' other) { x86_pc = x }))
              (sym (kept refl))
      answer_kept f out other (not_translated, out') pc_kept found e u code kept =
          absurd (no_gap f out found code (ap (λ (o : Outcome). o.0) e))
      answer_kept f out other (unavailable, out') pc_kept found e u code kept = cc

      cold_found-Coherent :
          (slot : Slot) (out : Resolution) (cache : Cache) (r : Status Fragment)
          → found_at root_offset reader runtime_base pc ≡ r
          → IsCoherent root_offset reader runtime_base cache
          → IsCoherent root_offset reader runtime_base
              (cold_found root_offset reader runtime_base pc slot out cache r).cache
      unfolding cold_found
      cold_found-Coherent slot out cache not_translated found coherent =
          put-Coherent root_offset reader runtime_base slot.set_index slot.way _ cache coherent
            (λ pc' m. (
              λ nz. cc,
              λ z.
                  subst (λ x. found_at root_offset reader runtime_base x ≡ not_translated)
                    (matches-arm_pc pc' (negative_entry pc slot.entry.stamp) refl m) found,
            ))
      cold_found-Coherent slot out cache unavailable found coherent = coherent
      cold_found-Coherent slot out cache (resolved f) found coherent =
          let o = resolve_in_fragment reader f pc out in
          elim (Bool-cases (is_unavailable o.0)) [
            | inl u ↦ rw u coherent
            | inr u ↦ rw u (
                put-Coherent root_offset reader runtime_base slot.set_index slot.way _ cache
                  coherent
                  (found-Correct pc (positive_entry f pc slot.entry.stamp o) found refl
                    (λ code other.
                      answer_kept f out other o (pc_of o.0 o.1) found refl u code (λ s. rw s))))
          ]

      pub cold-Coherent :
          (slot : Slot) (out : Resolution) (cache : Cache)
          → IsCoherent root_offset reader runtime_base cache
          → IsCoherent root_offset reader runtime_base
              (cold root_offset reader runtime_base pc slot out cache).cache
      unfolding cold
      cold-Coherent slot out cache coherent =
          cold_found-Coherent slot out _ (found_at root_offset reader runtime_base pc) refl coherent

      pub in_cached-Coherent :
          (slot : Slot) (out : Resolution) (cache : Cache) (o : Outcome)
          → found_at root_offset reader runtime_base pc ≡ resolved slot.entry.fragment
          → resolve_in_fragment reader slot.entry.fragment pc out ≡ o
          → slot.entry.fragment.kind ≡ translated
          → IsCoherent root_offset reader runtime_base cache
          → IsCoherent root_offset reader runtime_base
              (in_cached root_offset reader runtime_base pc slot cache o).cache
      unfolding in_cached
      in_cached-Coherent slot out cache (status, out') found e code coherent =
          elim (Bool-cases (is_unavailable status)) [
            | inl u ↦ rw u (cold-Coherent slot out' _ coherent)
            | inr u ↦ rw u (
                put-Coherent root_offset reader runtime_base slot.set_index slot.way _ cache
                  coherent
                  (found-Correct pc
                    (record slot.entry { arm_pc = pc; x86_pc = out'.x86_pc; point = out'.point })
                    found refl
                    (λ code' other.
                      answer_kept slot.entry.fragment out other (status, out') out'.x86_pc found e u
                        code' (λ s. refl))))
          ]
