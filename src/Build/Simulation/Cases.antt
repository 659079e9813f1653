-- ===== src/Build/Simulation/Cases.antt =====
-- The dispatch: every case of the builder's switch, its default, and the two together.
use x87sidecar.Common.{
  ℕ, ◌≡◌, refl, inl, inr, Bool, true, false, if◌then◌else◌, ◌&&◌, Bool-cases, Option, none, some,
}
use x87sidecar.Instr.{
  Opcode, Instr, index_of, fldz, fld1, fldl2e, fldl2t, fldlg2, fldln2, fldpi, fld, fild, fst,
  fst_stack, fstp, fstp_stack, fistp, fist, fisttp, fadd, fsub, fsubr, fmul, fdiv, fdivr, fiadd,
  fisub, fisubr, fimul, fidiv, fidivr, faddp, fsubp, fsubrp, fmulp, fdivp, fdivrp, fchs, fabs,
  fsqrt, frndint, fsin, fcos, fsincos, fptan, fpatan, fyl2x, fscale, fxch, fcom, fucom, fcomp,
  fucomp, fcompp, fucompp, ficom, ficomp, fcomi, fucomi, fcomip, fucomip, fcmovb, fcmovbe, fcmove,
  fcmovnb, fcmovnbe, fcmovne, fcmovu, fcmovnu, ftst, fstsw, fldcw, fnstcw, fnop,
}
use x87sidecar.Instr.Bridge.{is_bridge_v1, is_bridge_v2_proven}
use x87sidecar.Ir.{
  const_zero, const_one, f_add, f_sub, f_mul, f_div, f_neg, f_abs, f_sqrt, f_rnd_int, f_sin, f_cos,
  f_patan, f_yl2x, imm,
}
use x87sidecar.Ir.Ordered.{Frame}
use x87sidecar.Ir.Context.{Context}
use x87sidecar.Build.Monad.{Builder}
use x87sidecar.Build.BridgeOps.{build_bridge}
use x87sidecar.Build.Dispatch.{bail, build_default, build_case, build_op}
use x87sidecar.Semantics.Fpu.{Fpu}
use x87sidecar.Semantics.Machine.{Machine, set_world, exec_bridge, exec_op, exec}
use x87sidecar.Semantics.Eval.{is_effect, value}
use x87sidecar.Build.Simulation.Relation.{Sim}
use x87sidecar.Build.Simulation.Instructions.{
  Takes, build_unary-Takes, build_arith-Takes, build_arithp-Takes, build_int_arith-Takes,
  push_leaf-Takes, push_const-Takes, build_fld-Takes, build_fild-Takes, build_fsincos-Takes,
  build_fptan-Takes, build_two_pop-Takes, build_fscale-Takes, build_fcmov-Takes,
}
use x87sidecar.Build.Simulation.Stores.{build_fst-Takes, build_fist-Takes}
use x87sidecar.Build.Simulation.Compares.{
  build_fcom-Takes, build_ficom-Takes, build_fcomi-Takes, build_ftst-Takes, build_fstsw-Takes,
}
use x87sidecar.Build.Simulation.Controls.{fldcw-Takes, fnstcw-Takes, build_fxch-Takes}
use x87sidecar.Build.Simulation.Bridges.{build_bridge_op-Takes}

module _ (fpu : Fpu) (stack : ℕ → fpu.V) (w0 : fpu.W) (fr : Frame) where
  open fpu use {V, W}

  module _ (c : Context) (m : Machine V W) (s : Sim fpu stack w0 fr c m) where
    -- A case takes its instruction; the default case is left to build_default.
    abbrev CaseTakes : Opcode → Instr → Option (Builder (Unit {0})) → Type 0
    CaseTakes op ins (some b) = Takes fpu stack w0 fr m (b c) (exec_op fpu op ins m)
    CaseTakes op ins none = set_world fpu (exec_bridge fpu op ins m.world) m ≡ exec_op fpu op ins m

    build_case-Takes : (op : Opcode) (ins : Instr) → CaseTakes op ins (build_case op ins)
    unfolding build_case exec_op exec_bridge value is_effect
    build_case-Takes fldz ins = push_leaf-Takes fpu stack w0 fr const_zero (imm 0) c m refl s
    build_case-Takes fld1 ins = push_leaf-Takes fpu stack w0 fr const_one (imm 0) c m refl s
    build_case-Takes fldl2e ins = push_const-Takes fpu stack w0 fr _ c m s
    build_case-Takes fldl2t ins = push_const-Takes fpu stack w0 fr _ c m s
    build_case-Takes fldlg2 ins = push_const-Takes fpu stack w0 fr _ c m s
    build_case-Takes fldln2 ins = push_const-Takes fpu stack w0 fr _ c m s
    build_case-Takes fldpi ins = push_const-Takes fpu stack w0 fr _ c m s
    build_case-Takes fld ins = build_fld-Takes fpu stack w0 fr ins c m s
    build_case-Takes fild ins = build_fild-Takes fpu stack w0 fr ins c m s
    build_case-Takes fst ins = build_fst-Takes fpu stack w0 fr ins false c m s
    build_case-Takes fst_stack ins = build_fst-Takes fpu stack w0 fr ins false c m s
    build_case-Takes fstp ins = build_fst-Takes fpu stack w0 fr ins true c m s
    build_case-Takes fstp_stack ins = build_fst-Takes fpu stack w0 fr ins true c m s
    build_case-Takes fistp ins = build_fist-Takes fpu stack w0 fr ins false true c m s
    build_case-Takes fist ins = build_fist-Takes fpu stack w0 fr ins false false c m s
    build_case-Takes fisttp ins = build_fist-Takes fpu stack w0 fr ins true true c m s
    build_case-Takes fadd ins = build_arith-Takes fpu stack w0 fr f_add false ins c m refl s
    build_case-Takes fsub ins = build_arith-Takes fpu stack w0 fr f_sub false ins c m refl s
    build_case-Takes fsubr ins = build_arith-Takes fpu stack w0 fr f_sub true ins c m refl s
    build_case-Takes fmul ins = build_arith-Takes fpu stack w0 fr f_mul false ins c m refl s
    build_case-Takes fdiv ins = build_arith-Takes fpu stack w0 fr f_div false ins c m refl s
    build_case-Takes fdivr ins = build_arith-Takes fpu stack w0 fr f_div true ins c m refl s
    build_case-Takes fiadd ins = build_int_arith-Takes fpu stack w0 fr f_add false ins c m refl s
    build_case-Takes fisub ins = build_int_arith-Takes fpu stack w0 fr f_sub false ins c m refl s
    build_case-Takes fisubr ins = build_int_arith-Takes fpu stack w0 fr f_sub true ins c m refl s
    build_case-Takes fimul ins = build_int_arith-Takes fpu stack w0 fr f_mul false ins c m refl s
    build_case-Takes fidiv ins = build_int_arith-Takes fpu stack w0 fr f_div false ins c m refl s
    build_case-Takes fidivr ins = build_int_arith-Takes fpu stack w0 fr f_div true ins c m refl s
    build_case-Takes faddp ins = build_arithp-Takes fpu stack w0 fr f_add false ins c m refl s
    build_case-Takes fsubp ins = build_arithp-Takes fpu stack w0 fr f_sub false ins c m refl s
    build_case-Takes fsubrp ins = build_arithp-Takes fpu stack w0 fr f_sub true ins c m refl s
    build_case-Takes fmulp ins = build_arithp-Takes fpu stack w0 fr f_mul false ins c m refl s
    build_case-Takes fdivp ins = build_arithp-Takes fpu stack w0 fr f_div false ins c m refl s
    build_case-Takes fdivrp ins = build_arithp-Takes fpu stack w0 fr f_div true ins c m refl s
    build_case-Takes fchs ins = build_unary-Takes fpu stack w0 fr f_neg c m refl s
    build_case-Takes fabs ins = build_unary-Takes fpu stack w0 fr f_abs c m refl s
    build_case-Takes fsqrt ins = build_unary-Takes fpu stack w0 fr f_sqrt c m refl s
    build_case-Takes frndint ins = build_unary-Takes fpu stack w0 fr f_rnd_int c m refl s
    build_case-Takes fsin ins = build_unary-Takes fpu stack w0 fr f_sin c m refl s
    build_case-Takes fcos ins = build_unary-Takes fpu stack w0 fr f_cos c m refl s
    build_case-Takes fsincos ins = build_fsincos-Takes fpu stack w0 fr c m s
    build_case-Takes fptan ins = build_fptan-Takes fpu stack w0 fr c m s
    build_case-Takes fpatan ins = build_two_pop-Takes fpu stack w0 fr f_patan c m refl s
    build_case-Takes fyl2x ins = build_two_pop-Takes fpu stack w0 fr f_yl2x c m refl s
    build_case-Takes fscale ins = build_fscale-Takes fpu stack w0 fr c m s
    build_case-Takes fxch ins = build_fxch-Takes fpu stack w0 fr (index_of ins.operand1) c m s
    build_case-Takes fcom ins = build_fcom-Takes fpu stack w0 fr ins 0 false c m s
    build_case-Takes fucom ins = build_fcom-Takes fpu stack w0 fr ins 0 false c m s
    build_case-Takes fcomp ins = build_fcom-Takes fpu stack w0 fr ins 1 false c m s
    build_case-Takes fucomp ins = build_fcom-Takes fpu stack w0 fr ins 1 false c m s
    build_case-Takes fcompp ins = build_fcom-Takes fpu stack w0 fr ins 2 true c m s
    build_case-Takes fucompp ins = build_fcom-Takes fpu stack w0 fr ins 2 true c m s
    build_case-Takes ficom ins = build_ficom-Takes fpu stack w0 fr ins false c m s
    build_case-Takes ficomp ins = build_ficom-Takes fpu stack w0 fr ins true c m s
    build_case-Takes fcomi ins = build_fcomi-Takes fpu stack w0 fr ins false c m s
    build_case-Takes fucomi ins = build_fcomi-Takes fpu stack w0 fr ins false c m s
    build_case-Takes fcomip ins = build_fcomi-Takes fpu stack w0 fr ins true c m s
    build_case-Takes fucomip ins = build_fcomi-Takes fpu stack w0 fr ins true c m s
    build_case-Takes fcmovb ins = build_fcmov-Takes fpu stack w0 fr ins 3 c m s
    build_case-Takes fcmovbe ins = build_fcmov-Takes fpu stack w0 fr ins 9 c m s
    build_case-Takes fcmove ins = build_fcmov-Takes fpu stack w0 fr ins 0 c m s
    build_case-Takes fcmovnb ins = build_fcmov-Takes fpu stack w0 fr ins 2 c m s
    build_case-Takes fcmovnbe ins = build_fcmov-Takes fpu stack w0 fr ins 8 c m s
    build_case-Takes fcmovne ins = build_fcmov-Takes fpu stack w0 fr ins 1 c m s
    build_case-Takes fcmovu ins = build_fcmov-Takes fpu stack w0 fr ins 16 c m s
    build_case-Takes fcmovnu ins = build_fcmov-Takes fpu stack w0 fr ins 17 c m s
    build_case-Takes ftst ins = build_ftst-Takes fpu stack w0 fr c m s
    build_case-Takes fstsw ins = build_fstsw-Takes fpu stack w0 fr ins c m s
    build_case-Takes fldcw ins = fldcw-Takes fpu stack w0 fr ins c m s
    build_case-Takes fnstcw ins = fnstcw-Takes fpu stack w0 fr ins c m s
    build_case-Takes fnop ins = s
    build_case-Takes _ ins = refl

    build_default-Takes :
        (allow v2 : Bool) (ins : Instr)
        → Takes fpu stack w0 fr m
            (build_default allow v2 ins.opcode ins c)
            (set_world fpu (exec_bridge fpu ins.opcode ins m.world) m)
    unfolding build_default build_bridge bail
    build_default-Takes allow v2 ins =
        elim (Bool-cases (allow && (if v2 then is_bridge_v2_proven ins else is_bridge_v1 ins))) [
          | inl t ↦ rw t (build_bridge_op-Takes fpu stack w0 fr c m s ins.opcode ins)
          | inr t ↦ rw t (record {
            world = s.world;
            top = s.top;
            slots = s.slots;
            initial = s.initial;
            shape = s.shape;
          })
        ]

    pub build_op-Takes :
        (allow v2 : Bool) (ins : Instr)
        → Takes fpu stack w0 fr m (build_op allow v2 ins c) (exec fpu ins m)
    unfolding build_op exec
    build_op-Takes allow v2 ins =
        taken (build_case ins.opcode ins) (build_case-Takes ins.opcode ins)
      where
        taken :
            (o : Option (Builder (Unit {0})))
            → CaseTakes ins.opcode ins o
            → Takes fpu stack w0 fr m
                ((elim o as (λ x. Builder (Unit {0})) [
                  | some b ↦ b
                  | none ↦ build_default allow v2 ins.opcode ins
                ])
                  c)
                (exec_op fpu ins.opcode ins m)
        taken (some b) h = h
        taken none h = rw (← h) (build_default-Takes allow v2 ins)
