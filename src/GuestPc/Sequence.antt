-- ===== src/GuestPc/Sequence.antt =====
-- guest_pc_map.cpp: a sequence of calls of resolve with one cache, while the process does not change.
use x87sidecar.Common.{
  ℕ, ◌≡◌, refl, sym, subst, true, false, not, ltb, ◌==◌, List, [], ◌∷◌, Bool-cases, inl, inr, arith,
}
use x87sidecar.GuestPc.Reader.{Reader}
use x87sidecar.GuestPc.Resolve.{Resolution, Outcome, resolve, translated}
use x87sidecar.GuestPc.Cache.{Cache, matches, select, set_of, negative_recheck, clear}
use x87sidecar.GuestPc.Cached.{Slot, current, serve_slot, resolve_cached, negative}
use x87sidecar.GuestPc.Select.{select-hit}
use x87sidecar.GuestPc.Coherent.{Right, Positive, resolve_cached-resolve}
use x87sidecar.GuestPc.Preserve.{
  IsCorrect, IsCoherent, put-Coherent, select-Coherent, clear-Coherent,
}
use x87sidecar.GuestPc.Invariant.{Intervals, NoGap, cold-Coherent, in_cached-Coherent}

module _ (root_offset : ℕ) (reader : Reader) (runtime_base : ℕ)
    (intervals : Intervals root_offset reader runtime_base) where
  current-Coherent :
      (pc : ℕ) (slot : Slot) (out : Resolution) (cache : Cache)
      → NoGap root_offset reader runtime_base pc
      → Positive root_offset reader runtime_base slot.entry pc
      → IsCoherent root_offset reader runtime_base cache
      → IsCoherent root_offset reader runtime_base
          (current root_offset reader runtime_base pc slot out cache).cache
  unfolding current
  current-Coherent pc slot out cache no_gap (found, _, _) coherent =
      elim (Bool-cases (not (slot.entry.fragment.kind == translated))) [
        | inl other ↦ rw other coherent
        | inr is_code ↦ elim (Bool-cases (slot.entry.arm_pc == pc)) [
          | inl same_pc ↦ rw (is_code, same_pc) coherent
          | inr other_pc ↦
              rw (is_code, other_pc)
                (in_cached-Coherent root_offset reader runtime_base intervals pc no_gap slot out
                  cache _ found refl (ground arith) coherent)
        ]
      ]

  -- A hit.
  hit-Coherent :
      (pc : ℕ) (slot : Slot) (out : Resolution) (cache : Cache)
      → NoGap root_offset reader runtime_base pc
      → Right root_offset reader runtime_base slot.entry pc
      → IsCorrect root_offset reader runtime_base slot.entry
      → IsCoherent root_offset reader runtime_base cache
      → IsCoherent root_offset reader runtime_base
          (serve_slot root_offset reader runtime_base pc true slot out cache).cache
  unfolding serve_slot negative matches
  hit-Coherent pc slot out cache no_gap right correct coherent =
      elim (Bool-cases (slot.entry.fragment.node == 0)) [
        | inl z ↦ elim (Bool-cases (ltb slot.entry.recheck negative_recheck)) [
          | inl soon ↦
              rw (z, soon)
                (put-Coherent root_offset reader runtime_base slot.set_index slot.way _ cache
                  coherent (λ pc' m. correct pc' m))
          | inr due ↦
              rw (z, due)
                (cold-Coherent root_offset reader runtime_base intervals pc no_gap slot out cache
                  coherent)
        ]
        | inr nz ↦
            rw (nz, (right.0 nz).1)
              (current-Coherent pc slot out cache no_gap (right.0 nz) coherent)
      ]

  -- A call leaves the entries right, while the process does not change and the pc is not before the
  -- first boundary of a translated fragment.
  pub resolve_cached-Coherent :
      (pc : ℕ) (out : Resolution) (cache : Cache)
      → NoGap root_offset reader runtime_base pc
      → IsCoherent root_offset reader runtime_base cache
      → IsCoherent root_offset reader runtime_base
          (resolve_cached root_offset reader runtime_base pc out cache).cache
  unfolding resolve_cached
  resolve_cached-Coherent pc out cache no_gap coherent =
      let (right, coherent') = select-Coherent root_offset reader runtime_base pc cache coherent in
      elim (Bool-cases (select pc cache).hit) [
        | inl hit ↦
            let (e, at, m, entry_e) = select-hit pc cache hit in
            let right_s : Right root_offset reader runtime_base (select pc cache).entry pc =
              subst (λ x. Right root_offset reader runtime_base x pc) (sym entry_e)
                (coherent (set_of pc) (select pc cache).way e at pc m) in
            rw hit (
              hit-Coherent pc (slot cache) out (select pc cache).cache no_gap right_s right
                coherent')
        | inr miss ↦ rw miss (missed (slot cache) (select pc cache).cache coherent')
      ]
    where
      slot : Cache → Slot
      slot c = record {
        set_index = set_of pc;
        way = (select pc c).way;
        entry = (select pc c).entry;
      }

      missed :
          (s : Slot) (c : Cache)
          → IsCoherent root_offset reader runtime_base c
          → IsCoherent root_offset reader runtime_base
              (serve_slot root_offset reader runtime_base pc false s out c).cache
      missed s c h =
          unfold serve_slot in
          cold-Coherent root_offset reader runtime_base intervals pc no_gap s out c h

-- The outcomes of calls with one cache, each from the same out parameter.
unfoldable pub serve_all : ℕ → Reader → ℕ → Resolution → List ℕ → Cache → List Outcome
serve_all root_offset reader runtime_base out [] cache = []
serve_all root_offset reader runtime_base out (pc ∷ pcs) cache =
    let s = resolve_cached root_offset reader runtime_base pc out cache in
    s.outcome ∷ serve_all root_offset reader runtime_base out pcs s.cache

-- Those of calls without a cache.
unfoldable pub resolve_all : ℕ → Reader → ℕ → Resolution → List ℕ → List Outcome
resolve_all root_offset reader runtime_base out [] = []
resolve_all root_offset reader runtime_base out (pc ∷ pcs) =
    resolve reader root_offset runtime_base pc out
    ∷ resolve_all root_offset reader runtime_base out pcs

-- No pc of the list is before the first boundary of a translated fragment.
abbrev pub NoGaps : ℕ → Reader → ℕ → List ℕ → Type 0
NoGaps root_offset reader runtime_base [] = Unit {0}
NoGaps root_offset reader runtime_base (pc ∷ pcs) =
    NoGap root_offset reader runtime_base pc × NoGaps root_offset reader runtime_base pcs

serve_all-Coherent :
    (root_offset : ℕ) (reader : Reader) (runtime_base : ℕ) (out : Resolution) (pcs : List ℕ)
    (cache : Cache)
    → Intervals root_offset reader runtime_base
    → NoGaps root_offset reader runtime_base pcs
    → IsCoherent root_offset reader runtime_base cache
    → serve_all root_offset reader runtime_base out pcs cache
      ≡ resolve_all root_offset reader runtime_base out pcs
unfolding serve_all resolve_all
serve_all-Coherent root_offset reader runtime_base out [] cache intervals gaps coherent = refl
serve_all-Coherent root_offset reader runtime_base out (pc ∷ pcs) cache intervals (gap, gaps)
      coherent =
    let first = resolve_cached-resolve root_offset reader runtime_base pc out cache coherent in
    let coherent' =
      resolve_cached-Coherent root_offset reader runtime_base intervals pc out cache gap coherent in
    let rest =
      serve_all-Coherent root_offset reader runtime_base out pcs
        (resolve_cached root_offset reader runtime_base pc out cache).cache intervals gaps
        coherent' in
    cc

-- From a cleared cache, any sequence of calls on a process that does not change has the outcomes of
-- the calls without a cache, where the fragment found for a pc is found for its whole interval and no
-- pc of the sequence is before the first boundary of a translated fragment.
pub serve_all-resolve_all :
    (root_offset : ℕ) (reader : Reader) (runtime_base : ℕ) (out : Resolution) (pcs : List ℕ)
    (cache : Cache)
    → Intervals root_offset reader runtime_base
    → NoGaps root_offset reader runtime_base pcs
    → serve_all root_offset reader runtime_base out pcs (clear cache)
      ≡ resolve_all root_offset reader runtime_base out pcs
serve_all-resolve_all root_offset reader runtime_base out pcs cache intervals gaps =
    serve_all-Coherent root_offset reader runtime_base out pcs (clear cache) intervals gaps
      (clear-Coherent root_offset reader runtime_base cache)
