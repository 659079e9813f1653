-- ===== src/Instr/Bridge.antt =====
-- rosetta_core/include/rosetta_core/X87Bridge.h: which integer instructions a run may carry.
use x87sidecar.Common.{
  ℕ, ◌/◌, Bool, true, false, ◌&&◌, ◌||◌, if◌then◌else◌, ◌==◌, leb, List, [], ◌∷◌,
}
use x87sidecar.Instr.{
  Opcode, mov, lea, movzx, movsx, movsxd, wait, add, sub, and, or, xor, inc, dec, Instr, Operand,
  Size, s8, s16, s32, s64, is_register, is_mem_ref, is_branch_offset, is_gpr,
}

abbrev is_32_or_64 : Size → Bool
is_32_or_64 s32 = true
is_32_or_64 s64 = true
is_32_or_64 _ = false

unfoldable pub gpr_32_or_64 : Operand → Bool
unfolding is_gpr
gpr_32_or_64 op = is_register op.kind && is_32_or_64 op.size && is_gpr op.reg

unfoldable pub mem_32_or_64 : Operand → Bool
mem_32_or_64 op = is_mem_ref op.kind && op.seg_override == 0 && is_32_or_64 op.size

abbrev pub plain_immediate : Operand → Bool
plain_immediate op = is_branch_offset op.kind

-- The two-operand shapes shared by `mov` and the ALU operations.
unfoldable pub two_operand_shape : Instr → Bool
unfolding gpr_32_or_64 mem_32_or_64
two_operand_shape ins =
    if ins.num_operands == 2
    then (if gpr_32_or_64 ins.operand0
        then gpr_32_or_64 ins.operand1 || plain_immediate ins.operand1 || mem_32_or_64 ins.operand1
        else if mem_32_or_64 ins.operand0
        then gpr_32_or_64 ins.operand1
        else false)
    else false

lea_shape : Instr → Bool
unfolding gpr_32_or_64
lea_shape ins =
    if ins.num_operands == 2
    then gpr_32_or_64 ins.operand0 && is_mem_ref ins.operand1.kind && ins.operand1.seg_override == 0
    else false

-- The source of an extension by its size; `wide` is `op == movsxd`.
ext_source : Bool → ℕ → Size → Bool
ext_source wide reg s8 = leb (reg / 16) 1
ext_source wide reg s16 = true
ext_source wide reg s32 = wide
ext_source wide reg _ = false

ext_shape : Bool → Instr → Bool
unfolding gpr_32_or_64 is_gpr ext_source
ext_shape wide ins =
    if ins.num_operands == 2
    then gpr_32_or_64 ins.operand0
      && is_register ins.operand1.kind
      && is_gpr ins.operand1.reg
      && ext_source wide ins.operand1.reg ins.operand1.size
    else false

-- The dispatch of is_bridge_v1 on the opcode, after its rep_prefix test.
unfoldable pub v1_shape : Opcode → Instr → Bool
unfolding two_operand_shape lea_shape ext_shape
v1_shape mov ins = two_operand_shape ins
v1_shape lea ins = lea_shape ins
v1_shape movzx ins = ext_shape false ins
v1_shape movsx ins = ext_shape false ins
v1_shape movsxd ins = ext_shape true ins
v1_shape wait ins = true
v1_shape _ ins = false

unfoldable pub is_bridge_v1 : Instr → Bool
unfolding v1_shape
is_bridge_v1 ins = if ins.rep_prefix == 0 then v1_shape ins.opcode ins else false

unfoldable pub v2_shape : Opcode → Instr → Bool
unfolding two_operand_shape gpr_32_or_64
v2_shape add ins = two_operand_shape ins
v2_shape sub ins = two_operand_shape ins
v2_shape and ins = two_operand_shape ins
v2_shape or ins = two_operand_shape ins
v2_shape xor ins = two_operand_shape ins
v2_shape inc ins = if ins.num_operands == 1 then gpr_32_or_64 ins.operand0 else false
v2_shape dec ins = if ins.num_operands == 1 then gpr_32_or_64 ins.operand0 else false
v2_shape _ ins = false

unfoldable pub is_bridge_v2 : Instr → Bool
unfolding is_bridge_v1 v2_shape
is_bridge_v2 ins =
    is_bridge_v1 ins || (if ins.rep_prefix == 0 then v2_shape ins.opcode ins else false)

abbrev pub flags_dead : Instr → Bool
flags_dead ins = ins.flag_liveness == 0

unfoldable pub block_has_flag_liveness : List Instr → Bool
block_has_flag_liveness [] = false
block_has_flag_liveness (ins ∷ rest) =
    if ins.flag_liveness == 0 then block_has_flag_liveness rest else true

unfoldable pub is_bridge_v2_proven : Instr → Bool
unfolding is_bridge_v1 is_bridge_v2
is_bridge_v2_proven ins = is_bridge_v1 ins || (is_bridge_v2 ins && flags_dead ins)
