-- ===== src/Instr/Names.antt =====
-- kOpcodeName_*: the opcodes that the x87 IR builder, the run lookahead and the bridge predicates
-- name. `other` stands for every opcode that none of them names.
use x87sidecar.Common.{ℕ}

pub data Opcode : Type 0 where
  -- taken by X87IR::build
  fldz fld1 fldl2e fldl2t fldlg2 fldln2 fldpi fld fild fst fst_stack fstp fstp_stack fistp : Opcode
  fist fisttp fadd fsub fsubr fmul fdiv fdivr fiadd fisub fisubr fimul fidiv fidivr faddp : Opcode
  fsubp fsubrp fmulp fdivp fdivrp fchs fabs fsqrt frndint fsin fcos fsincos fptan fpatan fyl2x :
      Opcode
  fscale fxch fcom fucom fcomp fucomp fcompp fucompp ficom ficomp fcomi fucomi fcomip fucomip :
      Opcode
  fcmovb fcmovbe fcmove fcmovnb fcmovnbe fcmovne fcmovu fcmovnu ftst fstsw fldcw fnstcw fnop :
      Opcode
  -- handled by the per-instruction translators only
  fdisi feni fxam fbld fdecstp fincstp ffree fxtract fbstp frstor fsave f2xm1 fyl2xp1 fprem : Opcode
  fprem1 : Opcode
  -- integer instructions a bridged run may carry
  mov lea movzx movsx movsxd wait add sub and or xor inc dec : Opcode
  other : ℕ → Opcode
