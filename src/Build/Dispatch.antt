-- ===== src/Build/Dispatch.antt =====
-- X87IRBuild.cpp: the `switch (op)` of build, a clause for each case. Cases that share one body in
-- the source, or repeat it but for the node's opcode, share a helper here.
use x87sidecar.Common.{
  ℕ, zero, suc, pos, Bool, true, false, ◌&&◌, if◌then◌else◌, ltb, Option, none, some,
}
use x87sidecar.Instr.{
  Opcode, Instr, is_register, index_of, fldz, fld1, fldl2e, fldl2t, fldlg2, fldln2, fldpi, fld,
  fild, fst, fst_stack, fstp, fstp_stack, fistp, fist, fisttp, fadd, fsub, fsubr, fmul, fdiv, fdivr,
  fiadd, fisub, fisubr, fimul, fidiv, fidivr, faddp, fsubp, fsubrp, fmulp, fdivp, fdivrp, fchs,
  fabs, fsqrt, frndint, fsin, fcos, fsincos, fptan, fpatan, fyl2x, fscale, fxch, fcom, fucom, fcomp,
  fucomp, fcompp, fucompp, ficom, ficomp, fcomi, fucomi, fcomip, fucomip, fcmovb, fcmovbe, fcmove,
  fcmovnb, fcmovnbe, fcmovne, fcmovu, fcmovnu, ftst, fstsw, fldcw, fnstcw, fnop,
}
use x87sidecar.Instr.Bridge.{is_bridge_v1, is_bridge_v2_proven}
use x87sidecar.Ir.{
  Op, const_zero, const_one, f_add, f_sub, f_mul, f_div, f_neg, f_abs, f_sqrt, f_rnd_int, f_sin,
  f_cos, f_patan, f_ptan, f_yl2x, f_scale, f_tst, f_stsw, store_cw, load_cw, Payload, imm, mem,
}
use x87sidecar.Ir.Context.{
  Context, none_id, append_node, new_node, resolve, set_slot, update, push, pop,
}
use x87sidecar.Build.Monad.{
  Builder, ◌>>=◌, ◌>>◌, pure, fail, modify, checked, resolve_id, resolve_ids, add_node,
}
use x87sidecar.Build.Parts.{
  add_leaf, build_fp_load, build_int_load, build_const, build_fp_store, build_int_store,
  build_arith, build_arithp, build_int_arith, set_last_fcmp, pop_if, build_fcom, build_ficom,
  build_fcomi, build_fcmov,
}
use x87sidecar.Build.BridgeOps.{build_bridge}

-- kFcmovCondPF and kFcmovCondNPF.
abbrev fcmov_cond_pf : ℕ
fcmov_cond_pf = 16

abbrev fcmov_cond_npf : ℕ
fcmov_cond_npf = 17

unfoldable pub push_leaf : Op → Payload → Builder (Unit {0})
push_leaf op p = do id ← add_leaf op p; modify (push (pos id))

unfoldable pub push_const : ℕ → Builder (Unit {0})
push_const bits = do id ← build_const bits; modify (push (pos id))

unfoldable pub build_fld : Instr → Builder (Unit {0})
build_fld ins = do
  val ←
      if is_register ins.operand0.kind
      then resolve_id (index_of ins.operand1)
      else build_fp_load ins.operand0
  modify (push (pos val))

unfoldable pub build_fild : Instr → Builder (Unit {0})
build_fild ins = do val ← build_int_load ins.operand0; modify (push (pos val))

-- Copies ST(0) to ST(d); the source skips d = 0.
abbrev pub copy_slot : ℕ → ℕ → Context → Context
copy_slot zero st0 c = c
copy_slot (suc d) st0 c = set_slot (suc d) (pos st0) c

-- The register form copies ST(0), the memory form stores it.
unfoldable pub store_or_copy : Instr → ℕ → Builder (Unit {0})
store_or_copy ins st0 =
    if is_register ins.operand0.kind
    then modify (copy_slot (index_of ins.operand0) st0)
    else build_fp_store ins.operand0 st0

unfoldable pub build_fst : Instr → Bool → Builder (Unit {0})
build_fst ins is_pop = do st0 ← resolve_id 0; store_or_copy ins st0; modify (pop_if is_pop)

unfoldable pub build_fist : Instr → Bool → Bool → Builder (Unit {0})
build_fist ins trunc is_pop = do
  st0 ← resolve_id 0
  build_int_store ins.operand0 st0 trunc
  modify (pop_if is_pop)

-- ST(0) replaced by one operation on it.
unfoldable pub build_unary : Op → Builder (Unit {0})
build_unary op = do
  st0 ← resolve_id 0
  id ← add_node op (pos st0) none_id none_id (imm 0)
  modify (set_slot 0 (pos id))

unfoldable pub build_fsincos : Builder (Unit {0})
build_fsincos = do
  orig ← resolve_id 0
  sin_id ← add_node f_sin (pos orig) none_id none_id (imm 0)
  cos_id ← add_node f_cos (pos orig) none_id none_id (imm 0)
  modify (set_slot 0 (pos sin_id))
  modify (push (pos cos_id))

unfoldable pub build_fptan : Builder (Unit {0})
build_fptan = do
  st0 ← resolve_id 0
  tan_id ← add_node f_ptan (pos st0) none_id none_id (imm 0)
  one_id ← add_leaf const_one (imm 0)
  modify (set_slot 0 (pos tan_id))
  modify (push (pos one_id))

-- fpatan and fyl2x: ST(1) becomes `op` of ST(1) and ST(0), and ST(0) is popped.
unfoldable pub build_two_pop : Op → Builder (Unit {0})
build_two_pop op = do
  (st0, st1) ← resolve_ids 0 1
  id ← add_node op (pos st1) (pos st0) none_id (imm 0)
  modify (set_slot 1 (pos id))
  modify pop

unfoldable pub build_fscale : Builder (Unit {0})
build_fscale = do
  (st0, st1) ← resolve_ids 0 1
  id ← add_node f_scale (pos st0) (pos st1) none_id (imm 0)
  modify (set_slot 0 (pos id))

abbrev pub swap_slots : ℕ → Context → Context
swap_slots d c = record c {
  slot_val = update (update c.slot_val 0 (c.slot_val d)) d (c.slot_val 0);
}

-- resolve with its result dropped.
abbrev pub force : ℕ → Context → Context
force d c = (resolve d c).0

-- fxch ignores what resolve returns.
unfoldable pub build_fxch : ℕ → Builder (Unit {0})
build_fxch d =
    if ltb 0 d && ltb d 8
    then (do modify (force 0); modify (force d); modify (swap_slots d))
    else fail

unfoldable pub build_ftst : Builder (Unit {0})
build_ftst = do
  st0 ← resolve_id 0
  id ← add_node f_tst (pos st0) none_id none_id (imm 0)
  modify (set_last_fcmp id)

-- Inputs 1 and 2 are payloads: the destination register and a snapshot of top_delta.
unfoldable pub add_fstsw : ℕ → Builder ℕ
add_fstsw reg c =
    checked (append_node (new_node f_stsw c.last_fcmp (pos reg) c.top_delta (imm 0)) c)

unfoldable pub build_fstsw : Instr → Builder (Unit {0})
build_fstsw ins =
    if is_register ins.operand0.kind
    then (do id ← add_fstsw (index_of ins.operand0); pure tt)
    else fail

unfoldable pub build_control : Op → Instr → Builder (Unit {0})
build_control op ins = do id ← add_leaf op (mem ins.operand0); pure tt

-- ctx.fail_opcode = op; ok = false.
unfoldable pub bail : Opcode → Builder (Unit {0})
bail op c = (record c { fail_opcode = some op }, none)

-- The default case: a bridge instruction where the run may carry it, and otherwise a bail.
unfoldable pub build_default : Bool → Bool → Opcode → Instr → Builder (Unit {0})
build_default allow_bridges bridges_v2 op ins =
    if allow_bridges && (if bridges_v2 then is_bridge_v2_proven ins else is_bridge_v1 ins)
    then build_bridge ins
    else bail op

-- `none` for an opcode that only the default case takes.
unfoldable pub build_case : Opcode → Instr → Option (Builder (Unit {0}))
build_case fldz ins = some (push_leaf const_zero (imm 0))
build_case fld1 ins = some (push_leaf const_one (imm 0))
build_case fldl2e ins = some (push_const 0x3FF71547652B82FE)
build_case fldl2t ins = some (push_const 0x400A934F0979A371)
build_case fldlg2 ins = some (push_const 0x3FD34413509F79FF)
build_case fldln2 ins = some (push_const 0x3FE62E42FEFA39EF)
build_case fldpi ins = some (push_const 0x400921FB54442D18)
build_case fld ins = some (build_fld ins)
build_case fild ins = some (build_fild ins)
build_case fst ins = some (build_fst ins false)
build_case fst_stack ins = some (build_fst ins false)
build_case fstp ins = some (build_fst ins true)
build_case fstp_stack ins = some (build_fst ins true)
build_case fistp ins = some (build_fist ins false true)
build_case fist ins = some (build_fist ins false false)
build_case fisttp ins = some (build_fist ins true true)
build_case fadd ins = some (build_arith ins f_add false)
build_case fsub ins = some (build_arith ins f_sub false)
build_case fsubr ins = some (build_arith ins f_sub true)
build_case fmul ins = some (build_arith ins f_mul false)
build_case fdiv ins = some (build_arith ins f_div false)
build_case fdivr ins = some (build_arith ins f_div true)
build_case fiadd ins = some (build_int_arith ins f_add false)
build_case fisub ins = some (build_int_arith ins f_sub false)
build_case fisubr ins = some (build_int_arith ins f_sub true)
build_case fimul ins = some (build_int_arith ins f_mul false)
build_case fidiv ins = some (build_int_arith ins f_div false)
build_case fidivr ins = some (build_int_arith ins f_div true)
build_case faddp ins = some (build_arithp ins f_add false)
build_case fsubp ins = some (build_arithp ins f_sub false)
build_case fsubrp ins = some (build_arithp ins f_sub true)
build_case fmulp ins = some (build_arithp ins f_mul false)
build_case fdivp ins = some (build_arithp ins f_div false)
build_case fdivrp ins = some (build_arithp ins f_div true)
build_case fchs ins = some (build_unary f_neg)
build_case fabs ins = some (build_unary f_abs)
build_case fsqrt ins = some (build_unary f_sqrt)
build_case frndint ins = some (build_unary f_rnd_int)
build_case fsin ins = some (build_unary f_sin)
build_case fcos ins = some (build_unary f_cos)
build_case fsincos ins = some (build_fsincos)
build_case fptan ins = some (build_fptan)
build_case fpatan ins = some (build_two_pop f_patan)
build_case fyl2x ins = some (build_two_pop f_yl2x)
build_case fscale ins = some (build_fscale)
build_case fxch ins = some (build_fxch (index_of ins.operand1))
build_case fcom ins = some (build_fcom ins 0 false)
build_case fucom ins = some (build_fcom ins 0 false)
build_case fcomp ins = some (build_fcom ins 1 false)
build_case fucomp ins = some (build_fcom ins 1 false)
build_case fcompp ins = some (build_fcom ins 2 true)
build_case fucompp ins = some (build_fcom ins 2 true)
build_case ficom ins = some (build_ficom ins false)
build_case ficomp ins = some (build_ficom ins true)
build_case fcomi ins = some (build_fcomi ins false)
build_case fucomi ins = some (build_fcomi ins false)
build_case fcomip ins = some (build_fcomi ins true)
build_case fucomip ins = some (build_fcomi ins true)
build_case fcmovb ins = some (build_fcmov ins 3)
build_case fcmovbe ins = some (build_fcmov ins 9)
build_case fcmove ins = some (build_fcmov ins 0)
build_case fcmovnb ins = some (build_fcmov ins 2)
build_case fcmovnbe ins = some (build_fcmov ins 8)
build_case fcmovne ins = some (build_fcmov ins 1)
build_case fcmovu ins = some (build_fcmov ins fcmov_cond_pf)
build_case fcmovnu ins = some (build_fcmov ins fcmov_cond_npf)
build_case ftst ins = some (build_ftst)
build_case fstsw ins = some (build_fstsw ins)
build_case fldcw ins = some (build_control store_cw ins)
build_case fnstcw ins = some (build_control load_cw ins)
build_case fnop ins = some (pure tt)
build_case _ ins = none

unfoldable pub build_op : Bool → Bool → Instr → Builder (Unit {0})
unfolding build_case
build_op allow_bridges bridges_v2 ins = elim (build_case ins.opcode ins) [
  | some b ↦ b
  | none ↦ build_default allow_bridges bridges_v2 ins.opcode ins
]
