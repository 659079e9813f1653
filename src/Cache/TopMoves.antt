-- ===== src/Cache/TopMoves.antt =====
-- The pushes and pops of slot_effect, against the instructions themselves.
use x87sidecar.Common.{
  ℕ, zero, suc, ◌≡◌, ◌≢◌, refl, inl, inr, ℤ, pos, negsuc, ◌+ℤ◌, Bool, true, false, if◌then◌else◌,
  Bool-cases, Option, none, some,
}
use x87sidecar.Instr.{
  Opcode, Instr, is_register, fadd, fsub, fsubr, fmul, fdiv, fdivr, fld, fst, fst_stack, fstp,
  fstp_stack, fxch, fdisi, feni, fxam, fbld, fdecstp, fincstp, ffree, fxtract, fbstp, fyl2xp1,
}
use x87sidecar.Semantics.Fpu.{Fpu, Arith}
use x87sidecar.Semantics.Machine.{Machine, exec_arith, exec_fst, exec_op, exec}
use x87sidecar.Build.Dispatch.{build_case}
use x87sidecar.Cache.Effects.{
  SlotEffect, st_operand, fst_effect, fld_effect, fxch_effect, effect_of, slot_effect,
}

abbrev raise : ℕ → ℤ → ℤ
raise zero t = t
raise (suc n) t = raise n (t +ℤ pos 1)

abbrev lower : ℕ → ℤ → ℤ
lower zero t = t
lower (suc n) t = lower n (t +ℤ negsuc 0)

-- TOP after the pushes and then the pops of an effect.
abbrev pub top_after : SlotEffect → ℤ → ℤ
top_after e t = raise e.pops (lower e.pushes t)

module _ (fpu : Fpu) (m : Machine fpu.V fpu.W) where
  arith_top :
      (f : Arith) (reversed : Bool) (ins : Instr) → (exec_arith fpu f reversed ins m).top ≡ m.top
  arith_top f reversed ins = elim (Bool-cases (is_register ins.operand0.kind)) [
    | inl e ↦ rw e refl
    | inr e ↦ rw e refl
  ]

  fst_top :
      (ins : Instr) (is_pop : Bool)
      → (exec_fst fpu ins is_pop m).top ≡ (if is_pop then m.top +ℤ pos 1 else m.top)
  fst_top ins true = elim (Bool-cases (is_register ins.operand0.kind)) [
    | inl e ↦ rw e refl
    | inr e ↦ rw e refl
  ]
  fst_top ins false = elim (Bool-cases (is_register ins.operand0.kind)) [
    | inl e ↦ rw e refl
    | inr e ↦ rw e refl
  ]

fld_top : (a b : Option ℕ) (t : ℤ) → t +ℤ negsuc 0 ≡ top_after (fld_effect a b) t
fld_top none b t = refl
fld_top (some d) none t = refl
fld_top (some d) (some s) t = refl

fxch_top : (a : Option ℕ) (t : ℤ) → t ≡ top_after (fxch_effect a) t
fxch_top none t = refl
fxch_top (some zero) t = refl
fxch_top (some (suc d)) t = refl

effect_of-top :
    (fpu : Fpu) (op : Opcode) (ins : Instr) (m : Machine fpu.V fpu.W)
    → build_case op ins ≢ none
    → (exec_op fpu op ins m).top ≡ top_after (effect_of op ins) m.top
unfolding exec_op effect_of build_case fst_effect
effect_of-top fpu fadd ins m h = arith_top fpu m Arith.add false ins
effect_of-top fpu fsub ins m h = arith_top fpu m Arith.sub false ins
effect_of-top fpu fsubr ins m h = arith_top fpu m Arith.sub true ins
effect_of-top fpu fmul ins m h = arith_top fpu m Arith.mul false ins
effect_of-top fpu fdiv ins m h = arith_top fpu m Arith.div false ins
effect_of-top fpu fdivr ins m h = arith_top fpu m Arith.div true ins
effect_of-top fpu fld ins m h = fld_top (st_operand ins 0) (st_operand ins 1) m.top
effect_of-top fpu fst ins m h = fst_top fpu m ins false
effect_of-top fpu fst_stack ins m h = fst_top fpu m ins false
effect_of-top fpu fstp ins m h = fst_top fpu m ins true
effect_of-top fpu fstp_stack ins m h = fst_top fpu m ins true
effect_of-top fpu fxch ins m h = fxch_top (st_operand ins 1) m.top
effect_of-top fpu fdisi ins m h = refl
effect_of-top fpu feni ins m h = refl
effect_of-top fpu fxam ins m h = refl
effect_of-top fpu fbld ins m h = absurd (h refl)
effect_of-top fpu fdecstp ins m h = refl
effect_of-top fpu fincstp ins m h = refl
effect_of-top fpu ffree ins m h = refl
effect_of-top fpu fxtract ins m h = absurd (h refl)
effect_of-top fpu fbstp ins m h = absurd (h refl)
effect_of-top fpu fyl2xp1 ins m h = absurd (h refl)
effect_of-top fpu _ ins m h = refl

-- slot_effect moves TOP as the instruction does, for every instruction that the builder has a case
-- for, in any state: down by one for each push, and up by one for each pop.
pub slot_effect-top :
    (fpu : Fpu) (ins : Instr) (m : Machine fpu.V fpu.W)
    → build_case ins.opcode ins ≢ none
    → (exec fpu ins m).top ≡ top_after (slot_effect ins) m.top
unfolding exec slot_effect
slot_effect-top fpu ins m h = effect_of-top fpu ins.opcode ins m h
