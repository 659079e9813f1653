-- ===== src/GuestPc/WindowSteps.antt =====
-- guest_pc_map.cpp, step and walkToTarget: over a stream in windows they give what they give in memory.
use x87sidecar.Common.{
  ℕ, zero, suc, ◌+◌, ◌*◌, ◌%◌, ◌≡◌, refl, sym, ap, subst, Bool, true, false, ltb, leb, ◌==◌,
  if◌then◌else◌, List, length, Option, none, some, Bool-cases, inl, inr,
}
use x87sidecar.GuestPc.Reader.{Reader, u32_mod, resolved, unavailable}
use x87sidecar.GuestPc.Bits.{Stream, memory, remote, BitReader, rice, raw32}
use x87sidecar.GuestPc.Step.{
  RiceK, Decoder, Deltas, deltas, flag_of, ◌>>=◌, give, raw_pair, pair_after, extra_of,
  flagged_pair, escaped_pair, coded_pair, read_deltas, Cursor, moved, step_with, step, increasing,
  next, plausible,
}
use x87sidecar.GuestPc.Map.{Chunk, Decoded, walk, walk_to_target, start_of, point_at}
use x87sidecar.GuestPc.Windows.{Serves, Alike, Same, bind-Same, rice-Same, raw32-Same}

-- The branches of a walk behind a step.
abbrev choice : Bool → Decoded → Decoded → Decoded
choice b x y = elim b [ true ↦ x | false ↦ y ]

choice-eq :
    {b b' : Bool} {x x' y y' : Decoded} → b ≡ b' → x ≡ x' → y ≡ y' → choice b x y ≡ choice b' x' y'
choice-eq e f g = cc

module _ (bytes : List ℕ) (reader : Reader) (addr : ℕ) (serves : Serves reader addr bytes) where
  abbrev in_memory : Stream
  in_memory = memory bytes

  abbrev in_windows : Stream
  in_windows = remote reader addr (length bytes)

  -- Two decoders give the same from readers that are alike.
  abbrev pub Agree : {A : Type 0} → Decoder A → Decoder A → Type 0
  Agree m m' = (br br' : BitReader) → Alike bytes br br' → Same bytes (m br) (m' br')

  give-Agree : {A : Type 0} (a : A) → Agree (give a) (give a)
  give-Agree a br br' h = (refl, h)

  >>=-Agree :
      {A B : Type 0} (m m' : Decoder A) (f g : A → Decoder B)
      → Agree m m'
      → ((a : A) → Agree (f a) (g a))
      → Agree (m >>= f) (m' >>= g)
  >>=-Agree m m' f g h k br br' alike =
      bind-Same bytes (m br) (m' br') f g (h br br' alike) (λ a x x' r. k a x x' r)

  if-Agree :
      {A : Type 0} (b : Bool) (m m' n n' : Decoder A)
      → Agree m m'
      → Agree n n'
      → Agree (if b then m else n) (if b then m' else n')
  if-Agree true m m' n n' h k = h
  if-Agree false m m' n n' h k = k

  rice-Agree : (k : ℕ) → Agree (rice k in_memory) (rice k in_windows)
  rice-Agree k br br' h = rice-Same bytes reader addr serves k br br' h

  raw32-Agree : Agree (raw32 in_memory) (raw32 in_windows)
  raw32-Agree br br' h = raw32-Same bytes reader addr serves br br' h

  raw_pair-Agree : Agree (raw_pair in_memory) (raw_pair in_windows)
  unfolding raw_pair
  raw_pair-Agree =
      >>=-Agree _ _ _ _ raw32-Agree
        (λ a. >>=-Agree _ _ _ _ raw32-Agree (λ x. give-Agree (deltas a x)))

  coded-Agree :
      (k a : ℕ)
      → Agree
          (rice k in_memory >>= λ x. give (deltas a x))
          (rice k in_windows >>= λ x. give (deltas a x))
  coded-Agree k a = >>=-Agree _ _ _ _ (rice-Agree k) (λ x. give-Agree (deltas a x))

  pair_after-Agree : (k a : ℕ) → Agree (pair_after in_memory k a) (pair_after in_windows k a)
  unfolding pair_after
  pair_after-Agree k a = if-Agree (a == 0) _ _ _ _ raw_pair-Agree (coded-Agree k a)

  extra_of-Agree : (k s : ℕ) → Agree (extra_of in_memory k s) (extra_of in_windows k s)
  unfolding extra_of
  extra_of-Agree k s = if-Agree (s == 2) _ _ _ _ (rice-Agree k) (give-Agree 0)

  flagged_pair-Agree :
      (k : RiceK) (s : ℕ) → Agree (flagged_pair in_memory k s) (flagged_pair in_windows k s)
  unfolding flagged_pair
  flagged_pair-Agree k s = >>=-Agree _ _ _ _ (extra_of-Agree k.k2 s) (λ e.
      >>=-Agree _ _ _ _ (rice-Agree k.k2)
        (λ a. >>=-Agree _ _ _ _ (pair_after-Agree k.k1 a) (λ d. give-Agree (d, flag_of s e))))

  read_deltas-Agree : (k : RiceK) → Agree (read_deltas in_memory k) (read_deltas in_windows k)
  unfolding read_deltas coded_pair escaped_pair
  read_deltas-Agree k = >>=-Agree _ _ _ _ (rice-Agree k.k2) (λ a.
      if-Agree (a == 0) _ _ _ _
        (>>=-Agree _ _ _ _ (rice-Agree k.k2) (λ s.
          if-Agree (s % 256 == 0) _ _ _ _
            (>>=-Agree _ _ _ _ raw_pair-Agree (λ d. give-Agree (d, 0)))
            (flagged_pair-Agree k (s % 256))))
        (>>=-Agree _ _ _ _ (rice-Agree k.k1) (λ x. give-Agree (deltas a x, 0))))

  -- Two cursors at one boundary, with readers that are alike.
  pub record Level (c c' : Cursor) : Type 0 where
    pub x86s : c.x86 ≡ c'.x86
    pub arms : c.arm ≡ c'.arm
    pub flag : c.flags ≡ c'.flags
    pub readers : Alike bytes c.reader c'.reader

  abbrev pub SameStep : Option Cursor → Option Cursor → Type 0
  SameStep none none = Unit {0}
  SameStep none (some c) = ⊥
  SameStep (some c) none = ⊥
  SameStep (some c) (some c') = Level c c'

  moved-Level :
      (c c' : Cursor) (d : Deltas) (f : ℕ) (x x' : BitReader)
      → Level c c'
      → Alike bytes x x'
      → Level (moved c d f x) (moved c' d f x')
  moved-Level c c' d f x x' l h = record {
    x86s = ap (λ (t : ℕ). (t + d.d_x86) % u32_mod) l.x86s;
    arms = ap (λ (t : ℕ). (t + d.d_arm * 4) % u32_mod) l.arms;
    flag = refl;
    readers = h;
  }

  step_with-SameStep :
      (c c' : Cursor) (o o' : Option ((Deltas × ℕ) × BitReader))
      → Level c c'
      → Same bytes o o'
      → SameStep (step_with c o) (step_with c' o')
  step_with-SameStep c c' none none l h = tt
  step_with-SameStep c c' none (some p) l h = absurd h
  step_with-SameStep c c' (some p) none l h = absurd h
  step_with-SameStep c c' (some ((d, f), x)) (some (r, x')) l (e, h) =
      subst (λ q. SameStep (step_with c (some ((d, f), x))) (step_with c' (some (q, x')))) e
        (elim (Bool-cases (plausible d.d_arm)) [
          | inl fits ↦ rw fits (moved-Level c c' d f x x' l h)
          | inr huge ↦ rw huge tt
        ])

  increasing-SameStep :
      (p p' : ℕ) (o o' : Option Cursor)
      → p ≡ p'
      → SameStep o o'
      → SameStep (increasing p o) (increasing p' o')
  increasing-SameStep p p' none none e h = tt
  increasing-SameStep p p' none (some c) e h = absurd h
  increasing-SameStep p p' (some c) none e h = absurd h
  increasing-SameStep p p' (some c) (some c') e h = elim (Bool-cases (leb c.arm p)) [
    | inl stuck ↦ let stuck' : leb c'.arm p' ≡ true = cc (h.arms) in rw (stuck, stuck') tt
    | inr on ↦ let on' : leb c'.arm p' ≡ false = cc (h.arms) in rw (on, on') h
  ]

  -- The rest of a walk, from what a step gives.
  abbrev walk_on : ℕ → Stream → RiceK → ℕ → Cursor → Option Cursor → Decoded
  walk_on n stream k target c o = elim o [
    | none ↦ unavailable
    | some c' ↦ elim (ltb target c'.arm) [
      | true ↦ resolved (point_at target c)
      | false ↦ walk n stream k target c'
    ]
  ]

  next-SameStep :
      (k : RiceK) (c c' : Cursor)
      → Level c c'
      → SameStep (next in_memory k c) (next in_windows k c')
  unfolding next step
  next-SameStep k c c' l =
      increasing-SameStep c.arm c'.arm _ _ l.arms
        (step_with-SameStep c c' _ _ l (read_deltas-Agree k c.reader c'.reader l.readers))

  point_at-Level :
      (target : ℕ) (c c' : Cursor) → Level c c' → point_at target c ≡ point_at target c'
  point_at-Level target c c' l = let a = l.arms in let b = l.x86s in let d = l.flag in cc

  walk-Level :
      (n target : ℕ) (k : RiceK) (c c' : Cursor)
      → Level c c'
      → walk n in_memory k target c ≡ walk n in_windows k target c'
  unfolding walk
  walk-Level zero target k c c' l = ap resolved (point_at-Level target c c' l)
  walk-Level (suc n) target k c c' l =
      stepped (next in_memory k c) (next in_windows k c') (next-SameStep k c c' l)
        (λ d d' m. walk-Level n target k d d' m)
    where
      stepped :
          (o o' : Option Cursor)
          → SameStep o o'
          → ((d d' : Cursor)
              → Level d d'
              → walk n in_memory k target d ≡ walk n in_windows k target d')
          → walk_on n in_memory k target c o ≡ walk_on n in_windows k target c' o'
      stepped none none h ih = refl
      stepped none (some d) h ih = absurd h
      stepped (some d) none h ih = absurd h
      stepped (some d) (some d') h ih =
          choice-eq (ap (ltb target) h.arms) (ap resolved (point_at-Level target c c' l))
            (ih d d' h)

  -- A walk over the stream in windows is the walk over the stream in memory.
  pub walk_to_target-windows :
      (k : RiceK) (chunk : Chunk) (target : ℕ)
      → walk_to_target in_windows k chunk target ≡ walk_to_target in_memory k chunk target
  unfolding walk_to_target
  walk_to_target-windows k chunk target = elim (Bool-cases (ltb target chunk.arm_offset)) [
    | inl early ↦ rw early
    | inr reached ↦ rw reached (
        sym (
          walk-Level chunk.insn_count target k (start_of chunk) (start_of chunk) (record {
            x86s = refl;
            arms = refl;
            flag = refl;
            readers = record { positions = refl; bits = refl; window = λ i b e. cc };
          })))
  ]
