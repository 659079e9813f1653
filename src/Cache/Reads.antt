-- ===== src/Cache/Reads.antt =====
-- The registers that slot_effect says an instruction reads, against the instruction itself.
use x87sidecar.Common.{
  ℕ, zero, suc, ◌-◌, ◌+◌, ◌≡◌, ap, inl, inr, pos, negsuc, ◌+ℤ◌, true, ◌==◌, ltb, if◌then◌else◌,
  Bool-cases, arith,
}
use x87sidecar.Semantics.Fpu.{Fpu}
use x87sidecar.Semantics.Machine.{Machine, set_st, push_st, pop_st, set_world}
use x87sidecar.Cache.Effects.{Depths, no_depths, only, both, EffectKind, effect_fxch, SlotEffect}

-- The depths known after an exchange, a push and a pop, when those of `s` were known before.
abbrev pub moved : EffectKind → ℕ → Depths → Depths
moved effect_fxch d s i = if i == d then s 0 else if i == 0 then s d else s i
moved _ d s i = s i

abbrev pub pushed : ℕ → Depths → Depths
pushed zero s = s
pushed (suc n) s = pushed n (λ i. if i == 0 then true else if ltb i 8 then s (i - 1) else s i)

abbrev pub popped : ℕ → Depths → Depths
popped zero s = s
popped (suc n) s = popped n (λ i. if ltb i 7 then s (i + 1) else if i == 7 then s 0 else s i)

abbrev pub known_after : SlotEffect → Depths → Depths
known_after e s = popped e.pops (pushed e.pushes (moved e.kind e.arg (both s e.writes)))

-- Two machines that agree on the state, on TOP, and on the registers at the depths of `s`.
pub record Agree {V W : Type 0} (s : Depths) (m m' : Machine V W) : Type 0 where
  pub worlds : m.world ≡ m'.world
  pub tops : m.top ≡ m'.top
  pub slots : (d : ℕ) → s d ≡ true → m.st d ≡ m'.st d

module _ (fpu : Fpu) where
  open fpu use {V, W}

  pub weaken_Agree :
      (s t : Depths) (m m' : Machine V W)
      → ((d : ℕ) → t d ≡ true → s d ≡ true)
      → Agree s m m'
      → Agree t m m'
  weaken_Agree s t m m' h a = record {
    worlds = a.worlds;
    tops = a.tops;
    slots = λ d e. a.slots d (h d e);
  }

  pub same_Agree : (s : Depths) (m m' : Machine V W) → Agree s m m' → Agree (both s no_depths) m m'
  same_Agree s m m' a = weaken_Agree s (both s no_depths) m m' (λ d e. ground (arith, e)) a

  pub set_Agree :
      (s : Depths) (d : ℕ) (v v' : V) (m m' : Machine V W)
      → v ≡ v'
      → Agree s m m'
      → Agree (both s (only d)) (set_st fpu d v m) (set_st fpu d v' m')
  set_Agree s d v v' m m' p a = record {
    worlds = a.worlds;
    tops = a.tops;
    slots = λ i e. elim (Bool-cases (i == d)) [
      | inl q ↦ rw q p
      | inr q ↦ rw q (a.slots i (ground (arith, e, q)))
    ];
  }

  pub push_Agree :
      (s : Depths) (v v' : V) (m m' : Machine V W)
      → v ≡ v'
      → Agree s m m'
      → Agree (pushed 1 s) (push_st fpu v m) (push_st fpu v' m')
  push_Agree s v v' m m' p a = record {
    worlds = a.worlds;
    tops = ap (λ t. t +ℤ negsuc 0) a.tops;
    slots = λ i e. elim (Bool-cases (i == 0)) [
      | inl q ↦ rw q p
      | inr q ↦ elim (Bool-cases (ltb i 8)) [
        | inl r ↦ rw (q, r) (a.slots (i - 1) (rw (q, r) at e))
        | inr r ↦ rw (q, r) (a.slots i (rw (q, r) at e))
      ]
    ];
  }

  pub pop_Agree :
      (s : Depths) (m m' : Machine V W)
      → Agree s m m'
      → Agree (popped 1 s) (pop_st fpu m) (pop_st fpu m')
  pop_Agree s m m' a = record {
    worlds = a.worlds;
    tops = ap (λ t. t +ℤ pos 1) a.tops;
    slots = λ i e. elim (Bool-cases (ltb i 7)) [
      | inl q ↦ rw q (a.slots (i + 1) (rw q at e))
      | inr q ↦ elim (Bool-cases (i == 7)) [
        | inl r ↦ rw (q, r) (a.slots 0 (rw (q, r) at e))
        | inr r ↦ rw (q, r) (a.slots i (rw (q, r) at e))
      ]
    ];
  }

  pub world_Agree :
      (s : Depths) (w w' : W) (m m' : Machine V W)
      → w ≡ w'
      → Agree s m m'
      → Agree s (set_world fpu w m) (set_world fpu w' m')
  world_Agree s w w' m m' p a = record { worlds = p; tops = a.tops; slots = a.slots }
