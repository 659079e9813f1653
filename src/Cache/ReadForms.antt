-- ===== src/Cache/ReadForms.antt =====
-- X87Cache.cpp: slot_effect on the forms of instruction that share one shape, on two machines that
-- agree on what is read.
use x87sidecar.Common.{
  lt→ltb, ◌<◌, ◌%◌, ℕ, zero, suc, ◌≡◌, refl, inl, inr, Bool, true, false, ◌==◌, Bool-cases, none,
  some, arith,
}
use x87sidecar.Instr.{Instr, is_register, index_of}
use x87sidecar.Semantics.Fpu.{Fpu, Arith}
use x87sidecar.Semantics.Machine.{
  Machine, set_st, push_st, set_world, exec_arith, exec_arithp, exec_fld, exec_fst, comparand,
  exec_fxch,
}
use x87sidecar.Cache.Effects.{
  Depths, no_depths, only, both, SlotEffect, operand, st_operand, is_s80, st_operand_mask,
  operands_and_top, fst_effect, fld_effect, fxch_effect,
}
use x87sidecar.Cache.Reads.{
  Agree, known_after, popped, pushed, weaken_Agree, same_Agree, set_Agree, push_Agree, pop_Agree,
  world_Agree,
}

-- Operand `k` is a stack register, at a depth below 8, which num_operands counts.
abbrev pub Named : Instr → ℕ → Type 0
Named ins k =
    (k < ins.num_operands)
    × (is_register (operand ins k).kind ≡ true)
    × (index_of (operand ins k) < 8)

listed : (ins : Instr) (k : ℕ) → Named ins k → st_operand ins k ≡ some (index_of (operand ins k))
unfolding st_operand
listed ins k (counted, register, below) =
    let small : index_of (operand ins k) % 8 ≡ index_of (operand ins k) = omega (arith, below) in
    rw (lt→ltb k ins.num_operands counted, register, small) refl

abbrev pub Covers : SlotEffect → Depths → Type 0
Covers e s = (d : ℕ) → e.reads d ≡ true → s d ≡ true

first_in_mask : (ins : Instr) → Named ins 0 → operands_and_top ins (index_of ins.operand0) ≡ true
unfolding operands_and_top st_operand_mask
first_in_mask ins n = rw (listed ins 0 n) (ground arith)

second_in_mask : (ins : Instr) → Named ins 1 → operands_and_top ins (index_of ins.operand1) ≡ true
unfolding operands_and_top st_operand_mask
second_in_mask ins n = rw (listed ins 1 n) (ground arith)

top_in_mask : (ins : Instr) → operands_and_top ins 0 ≡ true
unfolding operands_and_top
top_in_mask ins = ground arith

no_register : (ins : Instr) → is_register ins.operand0.kind ≡ false → st_operand ins 0 ≡ none
unfolding st_operand
no_register ins e = ground (arith, e)

module _ (fpu : Fpu) (s : Depths) (m m' : Machine fpu.V fpu.W) (a : Agree s m m') where
  open fpu use {V, W}

  -- A write to a register that is known already.
  pub put_Agree :
      (d : ℕ) (v v' : V) → v ≡ v' → Agree (both s no_depths) (set_st fpu d v m) (set_st fpu d v' m')
  put_Agree d v v' p =
      weaken_Agree fpu (both s (only d)) (both s no_depths) (set_st fpu d v m) (set_st fpu d v' m')
        (λ i e. ground (arith, e)) (set_Agree fpu s d v v' m m' p a)

  pub fresh_Agree :
      (v v' : V)
      → v ≡ v'
      → Agree (pushed 1 (both s no_depths)) (push_st fpu v m) (push_st fpu v' m')
  fresh_Agree v v' p = push_Agree fpu (both s no_depths) v v' m m' p (same_Agree fpu s m m' a)

  pub effect_Agree :
      (w w' : W) → w ≡ w' → Agree (both s no_depths) (set_world fpu w m) (set_world fpu w' m')
  effect_Agree w w' p = world_Agree fpu (both s no_depths) w w' m m' p (same_Agree fpu s m m' a)

  pub arith_Agree :
      (f : Arith) (reversed : Bool) (ins : Instr)
      → (is_register ins.operand0.kind ≡ true → Named ins 0)
      → (is_register ins.operand0.kind ≡ true → Named ins 1)
      → ((d : ℕ) → operands_and_top ins d ≡ true → s d ≡ true)
      → Agree
          (both s no_depths)
          (exec_arith fpu f reversed ins m)
          (exec_arith fpu f reversed ins m')
  arith_Agree f reversed ins n0 n1 c = elim (Bool-cases (is_register ins.operand0.kind)) [
    | inl e ↦
        let x = a.slots (index_of ins.operand0) (c _ (first_in_mask ins (n0 e))) in
        let y = a.slots (index_of ins.operand1) (c _ (second_in_mask ins (n1 e))) in
        rw e (put_Agree (index_of ins.operand0) _ _ (rw (a.worlds, x, y) refl))
    | inr e ↦
        let x = a.slots 0 (c 0 (top_in_mask ins)) in rw e (put_Agree 0 _ _ (rw (a.worlds, x) refl))
  ]

  pub arithp_Agree :
      (f : Arith) (reversed : Bool) (ins : Instr)
      → Named ins 0
      → ((d : ℕ) → operands_and_top ins d ≡ true → s d ≡ true)
      → Agree
          (popped 1 (both s no_depths))
          (exec_arithp fpu f reversed ins m)
          (exec_arithp fpu f reversed ins m')
  arithp_Agree f reversed ins n c =
      let x = a.slots (index_of ins.operand0) (c _ (first_in_mask ins n)) in
      let y = a.slots 0 (c 0 (top_in_mask ins)) in
      pop_Agree fpu (both s no_depths) _ _
        (put_Agree (index_of ins.operand0) _ _ (rw (a.worlds, x, y) refl))

  pub top_known :
      (ins : Instr) → ((d : ℕ) → operands_and_top ins d ≡ true → s d ≡ true) → m.st 0 ≡ m'.st 0
  top_known ins c = a.slots 0 (c 0 (top_in_mask ins))

  pub second_known :
      (ins : Instr)
      → Named ins 1
      → ((d : ℕ) → operands_and_top ins d ≡ true → s d ≡ true)
      → m.st (index_of ins.operand1) ≡ m'.st (index_of ins.operand1)
  second_known ins n c = a.slots (index_of ins.operand1) (c _ (second_in_mask ins n))

  pub comparand_same :
      (ins : Instr)
      → (is_register ins.operand1.kind ≡ true → Named ins 1)
      → ((d : ℕ) → operands_and_top ins d ≡ true → s d ≡ true)
      → comparand fpu ins m ≡ comparand fpu ins m'
  comparand_same ins n c = elim (Bool-cases (is_register ins.operand1.kind)) [
    | inl e ↦ rw e (a.slots (index_of ins.operand1) (c _ (second_in_mask ins (n e))))
    | inr e ↦ rw (e, a.worlds) refl
  ]

  pub compare_Agree :
      (ins : Instr)
      → (is_register ins.operand1.kind ≡ true → Named ins 1)
      → ((d : ℕ) → operands_and_top ins d ≡ true → s d ≡ true)
      → (f : V → V → W → W)
      → Agree
          (both s no_depths)
          (set_world fpu (f (m.st 0) (comparand fpu ins m) m.world) m)
          (set_world fpu (f (m'.st 0) (comparand fpu ins m') m'.world) m')
  compare_Agree ins n c f =
      let x = a.slots 0 (c 0 (top_in_mask ins)) in
      let y = comparand_same ins n c in effect_Agree _ _ (rw (x, y, a.worlds) refl)

  pub fld_Agree :
      (ins : Instr)
      → (is_register ins.operand0.kind ≡ true → Named ins 0)
      → (is_register ins.operand0.kind ≡ true → Named ins 1)
      → Covers (fld_effect (st_operand ins 0) (st_operand ins 1)) s
      → Agree
          (known_after (fld_effect (st_operand ins 0) (st_operand ins 1)) s)
          (exec_fld fpu ins m)
          (exec_fld fpu ins m')
  fld_Agree ins n0 n1 c = elim (Bool-cases (is_register ins.operand0.kind)) [
    | inl e ↦
        let x : m.st (index_of ins.operand1) ≡ m'.st (index_of ins.operand1) =
          a.slots (index_of ins.operand1)
            (c _ (rw (listed ins 0 (n0 e), listed ins 1 (n1 e)) (ground arith))) in
        rw (listed ins 0 (n0 e), listed ins 1 (n1 e), e) (fresh_Agree _ _ x)
    | inr e ↦ rw (no_register ins e, e) (fresh_Agree _ _ (rw a.worlds refl))
  ]

  -- A store, before its pop.
  pub fst_Agree :
      (ins : Instr)
      → (is_register ins.operand0.kind ≡ true → Named ins 0)
      → (is_register ins.operand0.kind ≡ false → is_s80 ins.operand0.size ≡ false)
      → Covers (fst_effect ins) s
      → Agree
          (both s (fst_effect ins).writes)
          (exec_fst fpu ins false m)
          (exec_fst fpu ins false m')
  unfolding fst_effect
  fst_Agree ins n small c = elim (Bool-cases (is_register ins.operand0.kind)) [
    | inl e ↦
        let x = a.slots 0 (c 0 (rw (listed ins 0 (n e)) (ground arith))) in
        rw (listed ins 0 (n e), e)
          (weaken_Agree fpu (both s (only (index_of ins.operand0))) _ _ _ (λ d h. ground (arith, h))
            (set_Agree fpu s (index_of ins.operand0) _ _ m m' x a))
    | inr e ↦
        let x = a.slots 0 (c 0 (rw (no_register ins e, small e) (ground arith))) in
        rw (no_register ins e, e) (effect_Agree _ _ (rw (a.worlds, x) refl))
  ]

  pub fxch_Agree :
      (ins : Instr)
      → Named ins 1
      → Covers (fxch_effect (st_operand ins 1)) s
      → Agree
          (known_after (fxch_effect (st_operand ins 1)) s)
          (exec_fxch fpu (index_of ins.operand1) m)
          (exec_fxch fpu (index_of ins.operand1) m')
  fxch_Agree ins n c =
      rw (listed ins 1 n) (exchange (index_of ins.operand1) (rw (listed ins 1 n) at c))
    where
      exchange :
          (d : ℕ)
          → Covers (fxch_effect (some d)) s
          → Agree (known_after (fxch_effect (some d)) s) (exec_fxch fpu d m) (exec_fxch fpu d m')
      exchange zero h = record {
        worlds = a.worlds;
        tops = a.tops;
        slots = λ i e. elim (Bool-cases (i == 0)) [
          | inl q ↦ rw q (a.slots 0 (let z : i ≡ 0 = ground arith in ground (arith, e, z)))
          | inr q ↦ rw q (a.slots i (ground (arith, e)))
        ];
      }
      exchange (suc d) h = record {
        worlds = a.worlds;
        tops = a.tops;
        slots = λ i e. elim (Bool-cases (i == suc d)) [
          | inl q ↦ rw q (a.slots 0 (h 0 (ground arith)))
          | inr q ↦ elim (Bool-cases (i == 0)) [
            | inl r ↦ rw (q, r) (a.slots (suc d) (h (suc d) (ground arith)))
            | inr r ↦ rw (q, r) (a.slots i (ground (arith, e, q, r)))
          ]
        ];
      }
