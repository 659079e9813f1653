-- ===== src/Build/BridgeOps.antt =====
-- X87IRBuild.cpp: build_bridge, the nodes of the integer instructions that a bridged run carries.
use x87sidecar.Common.{
  ℕ, ◌+◌, ◌/◌, ℤ, Bool, true, false, if◌then◌else◌, ◌==◌, Option, none, some, to_u64,
}
use x87sidecar.Instr.{
  Opcode, mov, lea, movzx, movsx, movsxd, wait, add, sub, and, or, xor, inc, dec, s8, s16, is_s64,
  Operand, Instr, Kind, register, mem_ref, branch_offset, index_of,
}
use x87sidecar.Ir.{
  Op, bridge_mov_rr, bridge_mov_ri, bridge_lea, bridge_load_g, bridge_store_g, bridge_ext,
  bridge_alu_rr, bridge_alu_ri, bridge_alu_rm, bridge_alu_mr, Flags, no_flags, Payload, imm, mem,
  bridge_encode_reg,
}
use x87sidecar.Ir.Context.{none_id}
use x87sidecar.Build.Monad.{Builder, ◌>>=◌, pure, fail}
use x87sidecar.Build.Parts.{add_flagged}

abbrev pub width_flag : Operand → Flags
width_flag o = record no_flags { bridge_64 = is_s64 o.size }

-- bridge_encode_reg(op.reg.reg.index()).
abbrev pub encoded : Operand → ℤ
encoded o = bridge_encode_reg (index_of o)

-- The widths and inputs of one bridge node.
unfoldable pub add_bridge : Op → Operand → ℤ → ℤ → ℤ → Payload → Builder (Unit {0})
add_bridge op sized in0 in1 in2 p = do id ← add_flagged op (width_flag sized) in0 in1 in2 p; pure tt

unfoldable pub mov_from : Kind → Operand → Operand → Builder (Unit {0})
mov_from register dst src = add_bridge bridge_mov_rr dst (encoded dst) (encoded src) none_id (imm 0)
mov_from branch_offset dst src =
    add_bridge bridge_mov_ri dst (encoded dst) none_id none_id (imm (to_u64 src.value))
mov_from mem_ref dst src = add_bridge bridge_load_g dst (encoded dst) none_id none_id (mem src)
mov_from _ dst src = fail

unfoldable pub mov_to_mem : Kind → Operand → Operand → Builder (Unit {0})
mov_to_mem register dst src = add_bridge bridge_store_g src (encoded src) none_id none_id (mem dst)
mov_to_mem _ dst src = fail

unfoldable pub build_mov : Kind → Operand → Operand → Builder (Unit {0})
unfolding mov_from mov_to_mem
build_mov register dst src = mov_from src.kind dst src
build_mov mem_ref dst src = mov_to_mem src.kind dst src
build_mov _ dst src = fail

-- The source class of an extension: 0 low byte, 1 high byte, 2 word, 3 double word.
unfoldable pub source_class : Operand → ℕ
source_class src = elim src.size [ s8 ↦ if src.reg / 16 == 1 then 1 else 0 | s16 ↦ 2 | _ ↦ 3 ]

-- `cls | 4` sets bit 2, which no class has.
unfoldable pub build_ext : Bool → Operand → Operand → Builder (Unit {0})
build_ext zero_extend dst src =
    add_bridge bridge_ext dst (encoded dst) (encoded src) none_id
      (imm (source_class src + (if zero_extend then 0 else 4)))

-- BridgeAluKind.
unfoldable pub alu_kind : Opcode → Option ℕ
alu_kind add = some 0
alu_kind sub = some 1
alu_kind and = some 2
alu_kind or = some 3
alu_kind xor = some 4
alu_kind _ = none

unfoldable pub alu_from : Kind → ℤ → Operand → Operand → Builder (Unit {0})
alu_from register kind dst src =
    add_bridge bridge_alu_rr dst (encoded dst) (encoded src) kind (imm 0)
alu_from branch_offset kind dst src =
    add_bridge bridge_alu_ri dst (encoded dst) none_id kind (imm (to_u64 src.value))
alu_from mem_ref kind dst src = add_bridge bridge_alu_rm dst (encoded dst) none_id kind (mem src)
alu_from _ kind dst src = fail

unfoldable pub alu_to_mem : Kind → ℤ → Operand → Operand → Builder (Unit {0})
alu_to_mem register kind dst src = add_bridge bridge_alu_mr src (encoded src) none_id kind (mem dst)
alu_to_mem _ kind dst src = fail

unfoldable pub build_alu : Kind → ℤ → Operand → Operand → Builder (Unit {0})
unfolding alu_from alu_to_mem
build_alu register kind dst src = alu_from src.kind kind dst src
build_alu mem_ref kind dst src = alu_to_mem src.kind kind dst src
build_alu _ kind dst src = fail

-- inc and dec are add and sub of 1.
unfoldable pub build_inc_dec : ℕ → Operand → Builder (Unit {0})
build_inc_dec kind dst =
    add_bridge bridge_alu_ri dst (encoded dst) none_id (bridge_encode_reg kind) (imm 1)

unfoldable pub build_alu_op : Option ℕ → Instr → Builder (Unit {0})
unfolding build_alu
build_alu_op (some k) ins =
    build_alu ins.operand0.kind (bridge_encode_reg k) ins.operand0 ins.operand1
build_alu_op none ins = fail

unfoldable pub build_bridge_op : Opcode → Instr → Builder (Unit {0})
unfolding build_alu_op
build_bridge_op wait ins = pure tt
build_bridge_op mov ins = build_mov ins.operand0.kind ins.operand0 ins.operand1
build_bridge_op lea ins =
    add_bridge bridge_lea ins.operand0 (encoded ins.operand0) none_id none_id (mem ins.operand1)
build_bridge_op movzx ins = build_ext true ins.operand0 ins.operand1
build_bridge_op movsx ins = build_ext false ins.operand0 ins.operand1
build_bridge_op movsxd ins = build_ext false ins.operand0 ins.operand1
build_bridge_op inc ins = build_inc_dec 0 ins.operand0
build_bridge_op dec ins = build_inc_dec 1 ins.operand0
build_bridge_op op ins = build_alu_op (alu_kind op) ins

unfoldable pub build_bridge : Instr → Builder (Unit {0})
unfolding build_bridge_op
build_bridge ins = build_bridge_op ins.opcode ins
