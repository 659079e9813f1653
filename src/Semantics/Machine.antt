-- ===== src/Semantics/Machine.antt =====
-- The reference: what each x87 instruction does to a register stack, one instruction at a time.
-- The stack has eight registers named by their depth below TOP, and TOP moves with each push and pop.
use x87sidecar.Common.{
  ℕ, ◌+◌, ◌-◌, ◌/◌, ℤ, pos, negsuc, ◌+ℤ◌, Bool, true, false, if◌then◌else◌, ltb, ◌==◌, List, [],
  ◌∷◌, to_u64,
}
use x87sidecar.Instr.{
  Opcode, Operand, Instr, Kind, Size, s8, s16, s32, s64, register, mem_ref, branch_offset,
  is_register, is_s64, index_of, fldz, fld1, fldl2e, fldl2t, fldlg2, fldln2, fldpi, fld, fild, fst,
  fst_stack, fstp, fstp_stack, fistp, fist, fisttp, fadd, fsub, fsubr, fmul, fdiv, fdivr, fiadd,
  fisub, fisubr, fimul, fidiv, fidivr, faddp, fsubp, fsubrp, fmulp, fdivp, fdivrp, fchs, fabs,
  fsqrt, frndint, fsin, fcos, fsincos, fptan, fpatan, fyl2x, fscale, fxch, fcom, fucom, fcomp,
  fucomp, fcompp, fucompp, ficom, ficomp, fcomi, fucomi, fcomip, fucomip, fcmovb, fcmovbe, fcmove,
  fcmovnb, fcmovnbe, fcmovne, fcmovu, fcmovnu, ftst, fstsw, fldcw, fnstcw, mov, lea, movzx, movsx,
  movsxd,
}
use x87sidecar.Instr
use x87sidecar.Semantics.Fpu.{Fpu, Arith, add, sub, mul, div, Format, f32, f64, f80, i16, i32, i64}

pub record Machine (V W : Type 0) : Type 0 where
  pub st : ℕ → V
  pub top : ℤ
  pub world : W

-- The memory format of a floating-point operand, and of an integer one.
abbrev pub fp_format : Size → Format
fp_format s32 = f32
fp_format s64 = f64
fp_format _ = f80

abbrev pub int_format : Size → Format
int_format s16 = i16
int_format s32 = i32
int_format _ = i64

abbrev pub order {ℓ} : {A : Type ℓ} {B : Type 0} → Bool → (A → A → B) → A → A → B
order true f a b = f b a
order false f a b = f a b

module _ (fpu : Fpu) where
  open fpu use {V, W}

  abbrev M : Type 0
  M = Machine V W

  abbrev pub set_st : ℕ → V → M → M
  set_st d v m = record m { st = λ i. if i == d then v else m.st i }

  abbrev pub push_st : V → M → M
  push_st v m = record m {
    st = λ i. if i == 0 then v else if ltb i 8 then m.st (i - 1) else m.st i;
    top = m.top +ℤ negsuc 0;
  }

  -- The register that was ST(0) becomes ST(7).
  abbrev pub pop_st : M → M
  pop_st m = record m {
    st = λ i. if ltb i 7 then m.st (i + 1) else if i == 7 then m.st 0 else m.st i;
    top = m.top +ℤ pos 1;
  }

  abbrev pub pop_st_if : Bool → M → M
  pop_st_if true m = pop_st m
  pop_st_if false m = m

  abbrev pub set_world : W → M → M
  set_world w m = record m { world = w }

  abbrev pub load_fp : Operand → M → V
  load_fp o m = fpu.load (fp_format o.size) o m.world

  abbrev pub load_int : Operand → M → V
  load_int o m = fpu.load (int_format o.size) o m.world

  abbrev pub arithmetic : Arith → Bool → M → V → V → V
  arithmetic f reversed m = order reversed (fpu.arith f m.world)

  -- ST(dst) = ST(dst) op ST(src), or ST(0) = ST(0) op memory.
  abbrev pub exec_arith : Arith → Bool → Instr → M → M
  exec_arith f reversed ins m =
      if is_register ins.operand0.kind
      then set_st (index_of ins.operand0)
          (arithmetic f reversed m (m.st (index_of ins.operand0)) (m.st (index_of ins.operand1))) m
      else set_st 0 (arithmetic f reversed m (m.st 0) (load_fp ins.operand0 m)) m

  abbrev pub exec_int_arith : Arith → Bool → Instr → M → M
  exec_int_arith f reversed ins m =
      set_st 0 (arithmetic f reversed m (m.st 0) (load_int ins.operand0 m)) m

  abbrev pub exec_arithp : Arith → Bool → Instr → M → M
  exec_arithp f reversed ins m = pop_st (
      set_st (index_of ins.operand0)
        (arithmetic f reversed m (m.st (index_of ins.operand0)) (m.st 0)) m)

  abbrev pub exec_fld : Instr → M → M
  exec_fld ins m =
      push_st
        (if is_register ins.operand0.kind
          then m.st (index_of ins.operand1)
          else load_fp ins.operand0 m)
        m

  abbrev pub exec_fst : Instr → Bool → M → M
  exec_fst ins is_pop m = pop_st_if is_pop (
      if is_register ins.operand0.kind
      then set_st (index_of ins.operand0) (m.st 0) m
      else set_world (fpu.store (fp_format ins.operand0.size) false ins.operand0 (m.st 0) m.world)
          m)

  abbrev pub exec_fist : Instr → Bool → Bool → M → M
  exec_fist ins trunc is_pop m =
      pop_st_if is_pop
        (set_world (fpu.store (int_format ins.operand0.size) trunc ins.operand0 (m.st 0) m.world) m)

  abbrev pub comparand : Instr → M → V
  comparand ins m =
      if is_register ins.operand1.kind then m.st (index_of ins.operand1) else load_fp ins.operand1 m

  abbrev pub exec_compare : V → M → M
  exec_compare v m = set_world (fpu.compare_status (m.st 0) v m.world) m

  abbrev pub exec_fcomi : Instr → Bool → M → M
  exec_fcomi ins is_pop m =
      pop_st_if is_pop
        (set_world (fpu.compare_flags (m.st 0) (m.st (index_of ins.operand1)) m.world) m)

  abbrev pub exec_fcmov : Instr → ℕ → M → M
  exec_fcmov ins cond m =
      set_st 0 (fpu.select cond m.world (m.st 0) (m.st (index_of ins.operand1))) m

  abbrev pub exec_fxch : ℕ → M → M
  exec_fxch d m = record m {
    st = λ i. if i == d then m.st 0 else if i == 0 then m.st d else m.st i;
  }

  abbrev pub exec_fsincos : M → M
  exec_fsincos m = push_st (fpu.cosine (m.st 0)) (set_st 0 (fpu.sine (m.st 0)) m)

  abbrev pub exec_fptan : M → M
  exec_fptan m = push_st fpu.one (set_st 0 (fpu.tangent (m.st 0)) m)

  -- The integer instructions act on the world alone, at the operand width of `o`.
  abbrev pub wide : Operand → Bool
  wide o = is_s64 o.size

  abbrev pub reg_of : Operand → ℤ
  reg_of o = pos (index_of o)

  abbrev pub exec_mov : Kind → Kind → Operand → Operand → W → W
  exec_mov register register d s w = fpu.move (wide d) (reg_of d) (reg_of s) w
  exec_mov register branch_offset d s w = fpu.move_imm (wide d) (reg_of d) (to_u64 s.value) w
  exec_mov register mem_ref d s w = fpu.load_reg (wide d) (reg_of d) s w
  exec_mov mem_ref register d s w = fpu.store_reg (wide s) (reg_of s) d w
  exec_mov _ _ d s w = w

  -- Sources of a byte, the second byte, a word or a double word; 4 more where the sign extends.
  abbrev pub ext_class : Operand → ℕ
  ext_class s = elim s.size [ s8 ↦ if s.reg / 16 == 1 then 1 else 0 | s16 ↦ 2 | _ ↦ 3 ]

  abbrev pub exec_ext : ℕ → Operand → Operand → W → W
  exec_ext sign d s w = fpu.extend (wide d) (ext_class s + sign) (reg_of d) (reg_of s) w

  abbrev pub exec_alu : ℕ → Kind → Kind → Operand → Operand → W → W
  exec_alu k register register d s w = fpu.alu_reg (wide d) (pos k) (reg_of d) (reg_of s) w
  exec_alu k register branch_offset d s w =
      fpu.alu_imm (wide d) (pos k) (reg_of d) (to_u64 s.value) w
  exec_alu k register mem_ref d s w = fpu.alu_load (wide d) (pos k) (reg_of d) s w
  exec_alu k mem_ref register d s w = fpu.alu_store (wide s) (pos k) (reg_of s) d w
  exec_alu k _ _ d s w = w

  unfoldable pub exec_bridge : Opcode → Instr → W → W
  exec_bridge mov ins w = exec_mov ins.operand0.kind ins.operand1.kind ins.operand0 ins.operand1 w
  exec_bridge lea ins w = fpu.address (wide ins.operand0) (reg_of ins.operand0) ins.operand1 w
  exec_bridge movzx ins w = exec_ext 0 ins.operand0 ins.operand1 w
  exec_bridge movsx ins w = exec_ext 4 ins.operand0 ins.operand1 w
  exec_bridge movsxd ins w = exec_ext 4 ins.operand0 ins.operand1 w
  exec_bridge Instr.add ins w =
      exec_alu 0 ins.operand0.kind ins.operand1.kind ins.operand0 ins.operand1 w
  exec_bridge Instr.sub ins w =
      exec_alu 1 ins.operand0.kind ins.operand1.kind ins.operand0 ins.operand1 w
  exec_bridge Instr.and ins w =
      exec_alu 2 ins.operand0.kind ins.operand1.kind ins.operand0 ins.operand1 w
  exec_bridge Instr.or ins w =
      exec_alu 3 ins.operand0.kind ins.operand1.kind ins.operand0 ins.operand1 w
  exec_bridge Instr.xor ins w =
      exec_alu 4 ins.operand0.kind ins.operand1.kind ins.operand0 ins.operand1 w
  exec_bridge Instr.inc ins w = fpu.alu_imm (wide ins.operand0) (pos 0) (reg_of ins.operand0) 1 w
  exec_bridge Instr.dec ins w = fpu.alu_imm (wide ins.operand0) (pos 1) (reg_of ins.operand0) 1 w
  exec_bridge _ ins w = w

  -- One instruction. An opcode that no run takes leaves the machine alone.
  unfoldable pub exec_op : Opcode → Instr → M → M
  unfolding exec_bridge
  exec_op fldz ins m = push_st fpu.zero m
  exec_op fld1 ins m = push_st fpu.one m
  exec_op fldl2e ins m = push_st (fpu.of_bits 0x3FF71547652B82FE) m
  exec_op fldl2t ins m = push_st (fpu.of_bits 0x400A934F0979A371) m
  exec_op fldlg2 ins m = push_st (fpu.of_bits 0x3FD34413509F79FF) m
  exec_op fldln2 ins m = push_st (fpu.of_bits 0x3FE62E42FEFA39EF) m
  exec_op fldpi ins m = push_st (fpu.of_bits 0x400921FB54442D18) m
  exec_op fld ins m = exec_fld ins m
  exec_op fild ins m = push_st (load_int ins.operand0 m) m
  exec_op fst ins m = exec_fst ins false m
  exec_op fst_stack ins m = exec_fst ins false m
  exec_op fstp ins m = exec_fst ins true m
  exec_op fstp_stack ins m = exec_fst ins true m
  exec_op fistp ins m = exec_fist ins false true m
  exec_op fist ins m = exec_fist ins false false m
  exec_op fisttp ins m = exec_fist ins true true m
  exec_op fadd ins m = exec_arith add false ins m
  exec_op fsub ins m = exec_arith sub false ins m
  exec_op fsubr ins m = exec_arith sub true ins m
  exec_op fmul ins m = exec_arith mul false ins m
  exec_op fdiv ins m = exec_arith div false ins m
  exec_op fdivr ins m = exec_arith div true ins m
  exec_op fiadd ins m = exec_int_arith add false ins m
  exec_op fisub ins m = exec_int_arith sub false ins m
  exec_op fisubr ins m = exec_int_arith sub true ins m
  exec_op fimul ins m = exec_int_arith mul false ins m
  exec_op fidiv ins m = exec_int_arith div false ins m
  exec_op fidivr ins m = exec_int_arith div true ins m
  exec_op faddp ins m = exec_arithp add false ins m
  exec_op fsubp ins m = exec_arithp sub false ins m
  exec_op fsubrp ins m = exec_arithp sub true ins m
  exec_op fmulp ins m = exec_arithp mul false ins m
  exec_op fdivp ins m = exec_arithp div false ins m
  exec_op fdivrp ins m = exec_arithp div true ins m
  exec_op fchs ins m = set_st 0 (fpu.negate (m.st 0)) m
  exec_op fabs ins m = set_st 0 (fpu.absolute (m.st 0)) m
  exec_op fsqrt ins m = set_st 0 (fpu.square_root m.world (m.st 0)) m
  exec_op frndint ins m = set_st 0 (fpu.round_int m.world (m.st 0)) m
  exec_op fsin ins m = set_st 0 (fpu.sine (m.st 0)) m
  exec_op fcos ins m = set_st 0 (fpu.cosine (m.st 0)) m
  exec_op fsincos ins m = exec_fsincos m
  exec_op fptan ins m = exec_fptan m
  exec_op fpatan ins m = pop_st (set_st 1 (fpu.arctangent (m.st 1) (m.st 0)) m)
  exec_op fyl2x ins m = pop_st (set_st 1 (fpu.y_log2_x (m.st 1) (m.st 0)) m)
  exec_op fscale ins m = set_st 0 (fpu.scale (m.st 0) (m.st 1)) m
  exec_op fxch ins m = exec_fxch (index_of ins.operand1) m
  exec_op fcom ins m = exec_compare (comparand ins m) m
  exec_op fucom ins m = exec_compare (comparand ins m) m
  exec_op fcomp ins m = pop_st (exec_compare (comparand ins m) m)
  exec_op fucomp ins m = pop_st (exec_compare (comparand ins m) m)
  exec_op fcompp ins m = pop_st (pop_st (exec_compare (m.st 1) m))
  exec_op fucompp ins m = pop_st (pop_st (exec_compare (m.st 1) m))
  exec_op ficom ins m = exec_compare (load_int ins.operand0 m) m
  exec_op ficomp ins m = pop_st (exec_compare (load_int ins.operand0 m) m)
  exec_op fcomi ins m = exec_fcomi ins false m
  exec_op fucomi ins m = exec_fcomi ins false m
  exec_op fcomip ins m = exec_fcomi ins true m
  exec_op fucomip ins m = exec_fcomi ins true m
  exec_op fcmovb ins m = exec_fcmov ins 3 m
  exec_op fcmovbe ins m = exec_fcmov ins 9 m
  exec_op fcmove ins m = exec_fcmov ins 0 m
  exec_op fcmovnb ins m = exec_fcmov ins 2 m
  exec_op fcmovnbe ins m = exec_fcmov ins 8 m
  exec_op fcmovne ins m = exec_fcmov ins 1 m
  exec_op fcmovu ins m = exec_fcmov ins 16 m
  exec_op fcmovnu ins m = exec_fcmov ins 17 m
  exec_op ftst ins m = set_world (fpu.test_status (m.st 0) m.world) m
  exec_op fstsw ins m = set_world (fpu.store_status (reg_of ins.operand0) m.top m.world) m
  exec_op fldcw ins m = set_world (fpu.load_control ins.operand0 m.world) m
  exec_op fnstcw ins m = set_world (fpu.store_control ins.operand0 m.world) m
  exec_op op ins m = set_world (exec_bridge op ins m.world) m

  unfoldable pub exec : Instr → M → M
  unfolding exec_op
  exec ins m = exec_op ins.opcode ins m

  unfoldable pub exec_all : List Instr → M → M
  unfolding exec
  exec_all [] m = m
  exec_all (ins ∷ rest) m = exec_all rest (exec ins m)
