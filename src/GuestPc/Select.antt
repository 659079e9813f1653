-- ===== src/GuestPc/Select.antt =====
-- guest_pc_map.cpp, Cache::select: what it finds, and what it changes.
use x87sidecar.Common.{
  ℕ, zero, suc, ◌+◌, ◌%◌, ◌≡◌, ◌≢◌, inl, inr, refl, sym, subst, ◌∙◌, Bool, true, false, not, ◌||◌,
  ltb, List, [], ◌∷◌, get_elem?, some, Bool-cases, arith,
}
use x87sidecar.GuestPc.Reader.{u64_mod}
use x87sidecar.GuestPc.Cache.{Cache, Entry, matches, scan, selected, select, set_of, first_stamp}

module _ (pc : ℕ) where
  -- A hit is at an entry that matches, `i` being the way of the first entry of the list.
  abbrev pub HitAt : List Entry → ℕ → Bool × ℕ → Type 0
  HitAt es i (true, way) =
      (j : ℕ) × (e : Entry) × (way ≡ i + j) × (get_elem? es j ≡ some e) × (matches pc e ≡ true)
  HitAt es i (false, way) = Unit {0}

  later_HitAt :
      (d : Entry) (es : List Entry) (i : ℕ) (r : Bool × ℕ) → HitAt es (suc i) r → HitAt (d ∷ es) i r
  later_HitAt d es i (true, way) (j, e, w, at, m) = (suc j, e, omega arith, at, m)
  later_HitAt d es i (false, way) h = tt

  scan-miss :
      (d : Entry) (es : List Entry) (i victim stamp : ℕ)
      → matches pc d ≡ false
      → (v : ℕ) × (t : ℕ) × (scan pc (d ∷ es) i victim stamp ≡ scan pc es (suc i) v t)
  unfolding scan
  scan-miss d es i victim stamp m = elim (Bool-cases (not d.used || ltb d.stamp stamp)) [
    | inl older ↦ (i, d.stamp, ground arith)
    | inr newer ↦ (victim, stamp, ground arith)
  ]

  scan-match :
      (d : Entry) (es : List Entry) (i victim stamp : ℕ)
      → matches pc d ≡ true
      → scan pc (d ∷ es) i victim stamp ≡ (true, i)
  unfolding scan
  scan-match d es i victim stamp m = ground arith

  pub scan-HitAt : (es : List Entry) (i victim stamp : ℕ) → HitAt es i (scan pc es i victim stamp)
  scan-HitAt [] i victim stamp = unfold scan in tt
  scan-HitAt (d ∷ es) i victim stamp = elim (Bool-cases (matches pc d)) [
    | inl m ↦
        subst (λ r. HitAt (d ∷ es) i r) (sym (scan-match d es i victim stamp m))
          (0, d, omega arith, refl, m)
    | inr m ↦
        let (v, t, e) = scan-miss d es i victim stamp m in
        subst (λ r. HitAt (d ∷ es) i r) (sym e)
          (later_HitAt d es i (scan pc es (suc i) v t) (scan-HitAt es (suc i) v t))
  ]

  -- An entry that alone matches is found.
  pub scan_only :
      (es : List Entry) (i victim stamp j : ℕ) (e : Entry)
      → get_elem? es j ≡ some e
      → matches pc e ≡ true
      → ((k : ℕ) (d : Entry) → get_elem? es k ≡ some d → k ≢ j → matches pc d ≡ false)
      → scan pc es i victim stamp ≡ (true, i + j)
  scan_only [] i victim stamp j e at m others = cc
  scan_only (d ∷ es) i victim stamp zero e at m others =
      scan-match d es i victim stamp (ground arith) ∙ ground arith
  scan_only (d ∷ es) i victim stamp (suc j) e at m others =
      let (v, t, first) = scan-miss d es i victim stamp (others 0 d refl (λ q. omega arith)) in
      let rest =
        scan_only es (suc i) v t j e at m
          (λ k c at' ne. others (suc k) c at' (λ q. ne (omega arith))) in
      first ∙ rest ∙ ground arith

  -- The place that select takes in its set, and whether what stands there matches.
  abbrev pub place : Cache → Bool × ℕ
  place cache = let es = cache.sets (set_of pc) in scan pc es 0 0 (first_stamp es)

  pub select-selected : (cache : Cache) → select pc cache ≡ selected (set_of pc) cache (place cache)
  unfolding select
  select-selected cache = refl

  -- What a hit selects: an entry of the set that matches, with the clock's new stamp.
  pub select-hit :
      (cache : Cache)
      → (select pc cache).hit ≡ true
      → (e : Entry) × (get_elem? (cache.sets (set_of pc)) (select pc cache).way ≡ some e)
        × (matches pc e ≡ true)
        × ((select pc cache).entry ≡ record e { stamp = (cache.clock + 1) % u64_mod })
  unfolding select
  select-hit cache h = hit_place (place cache) (scan-HitAt (cache.sets (set_of pc)) 0 0 _) h
    where
      hit_place :
          (r : Bool × ℕ)
          → HitAt (cache.sets (set_of pc)) 0 r
          → (selected (set_of pc) cache r).hit ≡ true
          → (e : Entry) × (get_elem? (cache.sets (set_of pc)) (selected (set_of pc) cache r).way
              ≡ some e)
            × (matches pc e ≡ true)
            × ((selected (set_of pc) cache r).entry
                ≡ record e { stamp = (cache.clock + 1) % u64_mod })
      hit_place (true, way) (j, e, w, at, m) q =
          let same : way ≡ j = omega arith in
          let at' : get_elem? (cache.sets (set_of pc)) way ≡ some e = rw same at in
          (e, at', m, ground arith)
      hit_place (false, way) u q = cc
