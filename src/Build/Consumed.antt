-- ===== src/Build/Consumed.antt =====
-- Which instructions build consumes, against what the lookahead counts.
use x87sidecar.Common.{
  ℕ, zero, suc, ◌+◌, ◌-◌, ◌≤◌, ◌≡◌, refl, ◌⊎◌, inl, inr, Bool, true, false, ◌&&◌, Bool-cases, List,
  [], ◌∷◌, length, take, drop, Option, none, some, arith,
}
use x87sidecar.Instr.{
  Opcode, mov, lea, movzx, movsx, movsxd, wait, add, sub, and, or, xor, inc, dec, other, Instr,
}
use x87sidecar.Ir.Context.{Context, num_nodes, init}
use x87sidecar.Build.Monad.{Builder}
use x87sidecar.Build.Parts.{has_segment_override}
use x87sidecar.Build.Dispatch.{build_case, build_default, build_op, bail}
use x87sidecar.Build.Loop.{finish_step, build_step, continue, build_loop, window, build}
use x87sidecar.Semantics.Machine.{Machine, exec}
use x87sidecar.Build.Simulation.Runs.{Between, Round, build_step-Round, init-Between, before_run}
use x87sidecar.Build.Refinement.{point_fpu, build_well_formed}
use x87sidecar.Cache.Runs.{is_handled_x87, may_bridge, count_handled, lookahead}

-- A case of the switch is for a handled x87 instruction.
build_case-handled :
    (op : Opcode) (ins : Instr) → (build_case op ins ≡ none) ⊎ (is_handled_x87 op ≡ true)
unfolding build_case is_handled_x87
build_case-handled mov ins = inl refl
build_case-handled lea ins = inl refl
build_case-handled movzx ins = inl refl
build_case-handled movsx ins = inl refl
build_case-handled movsxd ins = inl refl
build_case-handled wait ins = inl refl
build_case-handled add ins = inl refl
build_case-handled sub ins = inl refl
build_case-handled and ins = inl refl
build_case-handled or ins = inl refl
build_case-handled xor ins = inl refl
build_case-handled inc ins = inl refl
build_case-handled dec ins = inl refl
build_case-handled (other n) ins = inl refl
build_case-handled _ ins = inr refl

-- What a run may consist of.
abbrev pub Accepted : Bool → Bool → Instr → Type 0
Accepted allow_bridges bridges_v2 ins =
    (has_segment_override ins ≡ false)
    × ((is_handled_x87 ins.opcode ≡ true) ⊎ ((allow_bridges && may_bridge bridges_v2 ins) ≡ true))

abbrev pub AllAccepted : Bool → Bool → List Instr → Type 0
AllAccepted allow v2 [] = Unit
AllAccepted allow v2 (ins ∷ rest) = Accepted allow v2 ins × AllAccepted allow v2 rest

-- Whether a round took its instruction.
abbrev Taken : {A : Type 0} → Context × Option A → Type 0
Taken (c, none) = ⊥
Taken (c, some _) = Unit

build_default-Taken :
    (allow v2 : Bool) (ins : Instr) (c : Context)
    → Taken (build_default allow v2 ins.opcode ins c)
    → (allow && may_bridge v2 ins) ≡ true
unfolding build_default bail
build_default-Taken allow v2 ins c t = elim (Bool-cases (allow && may_bridge v2 ins)) [
  | inl e ↦ e
  | inr e ↦ elim (rw e at t) [ ]
]

build_op-Taken :
    (allow v2 : Bool) (ins : Instr) (c : Context)
    → Taken (build_op allow v2 ins c)
    → (is_handled_x87 ins.opcode ≡ true) ⊎ ((allow && may_bridge v2 ins) ≡ true)
unfolding build_op
build_op-Taken allow v2 ins c t =
    from_case (build_case ins.opcode ins) (build_case-handled ins.opcode ins) t
  where
    from_case :
        (o : Option (Builder (Unit {0})))
        → (o ≡ none) ⊎ (is_handled_x87 ins.opcode ≡ true)
        → Taken {A = Unit {0}} (
            let chosen : Builder (Unit {0}) = elim o [
              | some b ↦ b
              | none ↦ build_default allow v2 ins.opcode ins
            ] in
            chosen c)
        → (is_handled_x87 ins.opcode ≡ true) ⊎ ((allow && may_bridge v2 ins) ≡ true)
    from_case o (inr h) t = inl h
    from_case none (inl e) t = inr (build_default-Taken allow v2 ins c t)
    from_case (some b) (inl e) t = cc

finish_step-Taken :
    (before i : ℕ) (r : Context × Option (Unit {0})) → Taken (finish_step before i r) → Taken r
finish_step-Taken before i (c, none) t = elim t [ ]
finish_step-Taken before i (c, some _) t = t

build_step-Taken :
    (allow v2 : Bool) (i : ℕ) (ins : Instr) (c : Context)
    → Taken (build_step allow v2 i ins c)
    → Accepted allow v2 ins
unfolding build_step bail
build_step-Taken allow v2 i ins c t = elim (Bool-cases (has_segment_override ins)) [
  | inl e ↦ absurd (rw e at t)
  | inr e ↦ (
    e,
    build_op-Taken allow v2 ins c
        (finish_step-Taken (num_nodes c) i (build_op allow v2 ins c) (rw e at t)),
  )
]

take-nil : {A : Type 0} (n : ℕ) → take {A = A} n [] ≡ []
take-nil zero = refl
take-nil (suc n) = refl

-- What the loop consumes of `rest`, from instruction `i` on.
abbrev Consumes : Bool → Bool → ℕ → List Instr → Context → Type 0
Consumes allow v2 i rest c = (i ≤ c.consumed) × AllAccepted allow v2 (take (c.consumed - i) rest)

-- The unit of one value serves to follow the count.
abbrev Reaches : ℕ → Context → Type 0
Reaches i c = (m : Machine (Unit {0}) (Unit {0})) × Between point_fpu (λ d. tt) tt i c m

build_loop-Consumes :
    (allow v2 : Bool) (i : ℕ) (rest : List Instr) (c : Context)
    → Reaches i c
    → Consumes allow v2 i rest (build_loop allow v2 i rest c)
unfolding build_loop
build_loop-Consumes allow v2 i [] c (m, b) =
    (omega (arith, b.counted), rw (take-nil {A = Instr} (c.consumed - i)) tt)
build_loop-Consumes allow v2 i (ins ∷ rest) c (m, b) =
    next (build_step allow v2 i ins c)
      (build_step-Round point_fpu (λ d. tt) tt allow v2 i ins c m b)
      (build_step-Taken allow v2 i ins c) (λ c'. build_loop-Consumes allow v2 (i + 1) rest c')
  where
    next :
        (r : Context × Option (Unit {0}))
        → Round point_fpu (λ d. tt) tt i m (exec point_fpu ins m) r
        → (Taken r → Accepted allow v2 ins)
        → ((c' : Context)
            → Reaches (i + 1) c'
            → Consumes allow v2 (i + 1) rest (build_loop allow v2 (i + 1) rest c'))
        → Consumes allow v2 i (ins ∷ rest) (continue r (build_loop allow v2 (i + 1) rest))
    next (c', none) b' taken rec =
        let z : c'.consumed - i ≡ 0 = omega (arith, b'.counted) in
        (omega (arith, b'.counted), rw z tt)
    next (c', some _) b' taken rec =
        let (lo, all) = rec c' (exec point_fpu ins m, b') in
        let last = build_loop allow v2 (i + 1) rest c' in
        let n : last.consumed - i ≡ suc (last.consumed - (i + 1)) = omega arith in
        (omega arith, rw n (taken tt, all))

-- Every instruction that build consumes has no segment override, and is a handled x87 instruction
-- or, where bridges are allowed, one that the bridge predicate of the mode accepts.
pub build-AllAccepted :
    (instrs : List Instr) (start_idx run_length : ℕ) (allow_bridges bridges_v2 : Bool)
    → AllAccepted allow_bridges bridges_v2 (
        take
          (build instrs start_idx run_length allow_bridges bridges_v2).0.consumed
          (window instrs start_idx run_length))
unfolding build
build-AllAccepted instrs start_idx run_length allow_bridges bridges_v2 =
    let run = window instrs start_idx run_length in
    let c = build_loop allow_bridges bridges_v2 0 run init in
    let (_, all) =
      build_loop-Consumes allow_bridges bridges_v2 0 run init
        (before_run point_fpu (λ d. tt) tt, init-Between point_fpu (λ d. tt) tt) in
    let e : c.consumed - 0 ≡ c.consumed = omega arith in rw e at all

take-AllAccepted :
    (xs : List Instr) (n k : ℕ)
    → AllAccepted false false (take k (take n xs))
    → k ≤ length (take n xs)
    → k ≤ count_handled xs
unfolding count_handled
take-AllAccepted xs n zero h l = omega arith
take-AllAccepted [] zero (suc k) h l = omega arith
take-AllAccepted [] (suc n) (suc k) h l = omega arith
take-AllAccepted (x ∷ xs) zero (suc k) h l = absurd (omega arith)
take-AllAccepted (x ∷ xs) (suc n) (suc k) ((_, inl e), all) l =
    rw e (omega (arith, take-AllAccepted xs n k all (omega arith)))
take-AllAccepted (x ∷ xs) (suc n) (suc k) ((_, inr e), all) l = cc

-- A plain run never outgrows the lookahead: whatever the run length asked for, build without
-- bridges consumes at most the instructions that lookahead counts from the same start.
pub build_le_lookahead :
    (instrs : List Instr) (start_idx run_length : ℕ)
    → (build instrs start_idx run_length false false).0.consumed ≤ lookahead instrs start_idx
unfolding lookahead
build_le_lookahead instrs start_idx run_length =
    take-AllAccepted (drop start_idx instrs) run_length
      (build instrs start_idx run_length false false).0.consumed
      (build-AllAccepted instrs start_idx run_length false false)
      (build_well_formed instrs start_idx run_length false false).3
