-- ===== src/GuestPc/FindChunk.antt =====
-- guest_pc_map.cpp, findChunk: the binary search ends, at the last chunk at or before the target.
use x87sidecar.Common.{
  ℕ, zero, suc, ◌+◌, ◌-◌, ◌/◌, ◌≤◌, ◌<◌, ◌≡◌, ◌⊎◌, inl, inr, refl, ltb, leb, some, subst, Option,
  Bool-cases, arith,
}
use x87sidecar.GuestPc.Map.{Chunk, bisect, find_chunk}

module _ (fetch : ℕ → Option Chunk) (chunks : ℕ → Chunk) (n target : ℕ)
    (reads : (i : ℕ) → i < n → fetch i ≡ some (chunks i)) where
  -- The chunk at `i` starts at or before the target, or is the first.
  abbrev pub AtOrBefore : ℕ → Type 0
  AtOrBefore i = (i ≡ 0) ⊎ ((chunks i).arm_offset ≤ target)

  -- The chunk at `i` starts behind the target, or there is none.
  abbrev pub Behind : ℕ → Type 0
  Behind i = (i ≡ n) ⊎ (target < (chunks i).arm_offset)

  abbrev pub Found : Option ℕ → Type 0
  Found r = (i : ℕ) × (r ≡ some i) × ((i < n) × AtOrBefore i × Behind (suc i))

  bisect-Found :
      (fuel lo hi : ℕ)
      → lo < hi
      → hi ≤ n
      → hi - lo ≤ fuel
      → AtOrBefore lo
      → Behind hi
      → Found (bisect fuel fetch target lo hi)
  unfolding bisect
  bisect-Found zero lo hi lt le f b a = absurd (omega arith)
  bisect-Found (suc fuel) lo hi lt le f b a = elim (Bool-cases (ltb 1 (hi - lo))) [
    | inl wide ↦
        let mid : ℕ = lo + (hi - lo) / 2 in
        let inside : (lo < mid) × (mid < hi) = ground arith in
        let read = reads mid (omega (arith, inside.1)) in
        elim (Bool-cases (leb (chunks mid).arm_offset target)) [
          | inl le_target ↦
              let (i, e, found) =
                bisect-Found fuel mid hi inside.1 le (omega (arith, inside.0)) (inr (ground arith))
                  a in
              (i, ground arith, found)
          | inr gt_target ↦
              let (i, e, found) =
                bisect-Found fuel lo mid inside.0 (omega (arith, inside.1))
                  (omega (arith, inside.1)) b (inr (ground arith)) in
              (i, ground arith, found)
        ]
    | inr narrow ↦
        let e : hi ≡ suc lo = ground arith in
        (lo, ground arith, (omega arith, b, subst (λ k. Behind k) e a))
  ]

  pub find_chunk-Found : 0 < n → Found (find_chunk n fetch target)
  unfolding find_chunk
  find_chunk-Found h = bisect-Found (suc n) 0 n h (omega arith) (omega arith) (inl refl) (inl refl)

  -- On chunks in the order of their ARM offsets the search ends and finds the last one that starts
  -- at or before the target: every chunk that does so, other than the first, has no greater index,
  -- and the chunk found does so unless it is the first.
  pub find_chunk_last :
      0 < n
      → ((i j : ℕ) → i ≤ j → j < n → (chunks i).arm_offset ≤ (chunks j).arm_offset)
      → (i : ℕ) × (find_chunk n fetch target ≡ some i)
        × (i < n)
        × AtOrBefore i
        × ((j : ℕ) → j < n → (chunks j).arm_offset ≤ target → j ≤ i)
  find_chunk_last h sorted = let f = find_chunk-Found h in (f.0, f.1, f.2.0, f.2.1, last f.0 f.2.2)
    where
      last : (i : ℕ) → Behind (suc i) → (j : ℕ) → j < n → (chunks j).arm_offset ≤ target → j ≤ i
      last i (inl e) j lt le = omega arith
      last i (inr gt) j lt le = elim (Bool-cases (leb j i)) [
        | inl le' ↦ ground arith
        | inr gt' ↦ absurd (ground (arith, sorted (suc i) j))
      ]
