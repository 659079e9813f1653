-- ===== src/GuestPc/Walk.antt =====
-- guest_pc_map.cpp, walkToTarget: which boundary of a chunk answers for an ARM offset.
use x87sidecar.Common.{
  ℕ, zero, suc, ◌≤◌, ◌<◌, ◌≡◌, ◌⊎◌, inl, inr, refl, ap, sym, ◌∙◌, ◌↔◌, ltb, leb, Option, none, some,
  List, [], ◌∷◌, ◌==◌, if◌then◌else◌, Bool-cases, Option-cases, arith,
}
use x87sidecar.GuestPc.Reader.{resolved}
use x87sidecar.GuestPc.Bits.{Stream, BitReader}
use x87sidecar.GuestPc.Step.{RiceK, Cursor, step, next, increasing}
use x87sidecar.GuestPc.Map.{MapPoint, point_at, walk}
use x87sidecar.GuestPc.Chunk.{boundary, boundaries}

-- Of a list of points, the last at or before `target`; `best` where there is none.
unfoldable pub last_at : ℕ → MapPoint → List MapPoint → MapPoint
last_at target best [] = best
last_at target best (p ∷ ps) = last_at target (if leb p.arm_offset target then p else best) ps

-- A point as the answer for `target`.
abbrev pub asked : ℕ → MapPoint → MapPoint
asked target p = record p { exact = p.arm_offset == target }

module _ (stream : Stream) (k : RiceK) where
  -- The cursor after `n` steps.
  unfoldable pub after : ℕ → Cursor → Option Cursor
  after zero c = some c
  after (suc n) c = elim (next stream k c) [ none ↦ none | some c' ↦ after n c' ]

  -- A walk of `n` steps cannot go on from the cursor that `m` steps reach.
  abbrev pub Stops : ℕ → ℕ → ℕ → Cursor → Type 0
  Stops target n m c = (m ≡ n) ⊎ ((c' : Cursor) × (next stream k c ≡ some c') × (target < c'.arm))

  abbrev pub LastBoundary : ℕ → ℕ → Cursor → ℕ → Cursor → Type 0
  LastBoundary target n c m c' =
      (m ≤ n) × (after m c ≡ some c') × (c'.arm ≤ target) × Stops target n m c'

  pub next-increases : (c c' : Cursor) → next stream k c ≡ some c' → c.arm < c'.arm
  unfolding next
  next-increases c c' e = increases (step stream k c) e
    where
      increases : (o : Option Cursor) → increasing c.arm o ≡ some c' → c.arm < c'.arm
      increases none h = cc
      increases (some d) h = ground arith

  pub after-le : (n : ℕ) (c c' : Cursor) → after n c ≡ some c' → c.arm ≤ c'.arm
  unfolding after
  after-le zero c c' e = ground arith
  after-le (suc n) c c' e = elim (Option-cases (next stream k c)) [
    | inl none_e ↦ ground arith
    | inr (d, some_e) ↦ ground (arith, next-increases c d some_e, after-le n d c')
  ]

  Stops-later :
      (n target m : ℕ) (c' : Cursor) → Stops target n m c' → Stops target (suc n) (suc m) c'
  Stops-later n target m c' (inl q) = inl (ap suc q)
  Stops-later n target m c' (inr b) = inr b

  -- What a walk resolves to is the last boundary at or before the target.
  pub walk-LastBoundary :
      (n target : ℕ) (c : Cursor) (p : MapPoint)
      → c.arm ≤ target
      → walk n stream k target c ≡ resolved p
      → (m : ℕ) × (c' : Cursor) × (p ≡ point_at target c') × LastBoundary target n c m c'
  unfolding walk after
  walk-LastBoundary zero target c p le e = (0, c, ground arith, (omega arith, refl, le, inl refl))
  walk-LastBoundary (suc n) target c p le e = elim (Option-cases (next stream k c)) [
    | inl none_e ↦ absurd (ground arith)
    | inr (d, some_e) ↦ elim (Bool-cases (ltb target d.arm)) [
      | inl behind ↦ (0, c, ground arith, (omega arith, refl, le, inr (d, some_e, ground arith)))
      | inr before ↦
          let found = walk-LastBoundary n target d p (ground arith) (ground arith) in
          let (m, c', at, last) = found in
          (
            suc m,
            c',
            at,
            (
              omega (arith, last.0),
              ground (arith, last.1),
              last.2,
              Stops-later n target m c' last.3,
            ),
          )
    ]
  ]

  Stops-earlier :
      (n target m : ℕ) (c' : Cursor) → Stops target (suc n) (suc m) c' → Stops target n m c'
  Stops-earlier n target m c' (inl q) = inl (omega arith)
  Stops-earlier n target m c' (inr b) = inr b

  -- Conversely the walk resolves to every such boundary.
  pub LastBoundary-walk :
      (n target : ℕ) (c : Cursor) (m : ℕ) (c' : Cursor)
      → LastBoundary target n c m c'
      → walk n stream k target c ≡ resolved (point_at target c')
  unfolding walk after
  LastBoundary-walk zero target c zero c' b = ground arith
  LastBoundary-walk zero target c (suc m) c' b = absurd (omega (arith, b.0))
  LastBoundary-walk (suc n) target c zero c' (le_m, reach, le_arm, inl q) = absurd (omega arith)
  LastBoundary-walk (suc n) target c zero c' (le_m, reach, le_arm, inr (d, e, lt)) = ground arith
  LastBoundary-walk (suc n) target c (suc m) c' (le_m, reach, le_arm, stops) =
      elim (Option-cases (next stream k c)) [
        | inl none_e ↦ absurd (ground arith)
        | inr (d, some_e) ↦
            let rest : after m d ≡ some c' = ground arith in
            let le_d = after-le m d c' rest in
            let stops' : Stops target n m c' = elim stops [
              | inl q ↦ inl (omega arith)
              | inr b ↦ inr b
            ] in
            let ih = LastBoundary-walk n target d m c' (omega arith, rest, le_arm, stops') in
            ground arith
      ]

  -- A walk from at or before the target resolves to a point exactly when it is that of the last
  -- boundary at or before the target: a boundary reached in at most as many steps as the chunk has,
  -- and either in all of them or with its next boundary behind the target.
  pub walk_iff :
      (n target : ℕ) (c : Cursor) (p : MapPoint)
      → c.arm ≤ target
      → (walk n stream k target c ≡ resolved p)
        ↔ ((m : ℕ) × (c' : Cursor) × (p ≡ point_at target c') × LastBoundary target n c m c')
  walk_iff n target c p le = (
    walk-LastBoundary n target c p le,
    λ (m, c', at, last). LastBoundary-walk n target c m c' last ∙ ap resolved (sym at),
  )

  -- The first point of a chunk is its start, and the others are those of the next cursor.
  abbrev pub FirstPoint : ℕ → Cursor → List MapPoint → BitReader → Type 0
  FirstPoint n c ps br =
      (c' : Cursor) × (qs : List MapPoint) × (next stream k c ≡ some c')
      × (boundaries n stream k c' ≡ some (qs, br))
      × (ps ≡ boundary c ∷ qs)

  pub boundaries-FirstPoint :
      (n : ℕ) (c : Cursor) (ps : List MapPoint) (br : BitReader)
      → boundaries (suc n) stream k c ≡ some (ps, br)
      → FirstPoint n c ps br
  unfolding boundaries
  boundaries-FirstPoint n c ps br e = elim (Option-cases (next stream k c)) [
    | inl none_e ↦ absurd (ground arith)
    | inr (d, some_e) ↦ elim (Option-cases (boundaries n stream k d)) [
      | inl none_f ↦ absurd (ground arith)
      | inr ((qs, br'), some_f) ↦ (d, qs, some_e, ground arith, ground arith)
    ]
  ]

  -- Points behind the target change nothing.
  last_at_behind :
      (n target : ℕ) (best : MapPoint) (c : Cursor) (ps : List MapPoint) (br : BitReader)
      → target < c.arm
      → boundaries n stream k c ≡ some (ps, br)
      → last_at target best ps ≡ best
  unfolding last_at
  last_at_behind zero target best c ps br lt e =
      let q : ps ≡ boundary c ∷ [] = unfold boundaries in ground arith in rw q (ground arith)
  last_at_behind (suc n) target best c ps br lt e =
      let (d, qs, step_e, rest, q) = boundaries-FirstPoint n c ps br e in
      let lt' = next-increases c d step_e in
      rw q (ground (arith, last_at_behind n target best d qs br (omega arith) rest))

  -- When every step of a chunk decodes, the walk resolves to the last of the points decoded that
  -- lies at or before the target.
  pub walk-boundaries :
      (n target : ℕ) (best : MapPoint) (c : Cursor) (ps : List MapPoint) (br : BitReader)
      → c.arm ≤ target
      → boundaries n stream k c ≡ some (ps, br)
      → walk n stream k target c ≡ resolved (asked target (last_at target best ps))
  unfolding walk last_at
  walk-boundaries zero target best c ps br le e =
      let q : ps ≡ boundary c ∷ [] = unfold boundaries in ground arith in rw q (ground arith)
  walk-boundaries (suc n) target best c ps br le e =
      let (d, qs, step_e, rest, q) = boundaries-FirstPoint n c ps br e in
      rw q (elim (Bool-cases (ltb target d.arm)) [
        | inl behind ↦
            ground (arith, last_at_behind n target (boundary c) d qs br (ground arith) rest)
        | inr before ↦
            ground (arith, walk-boundaries n target (boundary c) d qs br (ground arith) rest)
      ])
