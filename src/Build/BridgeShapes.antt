-- ===== src/Build/BridgeShapes.antt =====
-- The shapes that X87Bridge.h accepts, against those that build_bridge builds.
use x87sidecar.Common.{
  ℕ, suc, ◌≤◌, ◌<◌, ◌≡◌, refl, inl, inr, ℤ, true, ◌==◌, ltb, Bool-cases, Option, some,
  length-append, [], ◌∷◌, arith,
}
use x87sidecar.Instr.{
  Kind, register, mem_ref, branch_offset, Operand, Instr, Opcode, mov, lea, movzx, movsx, movsxd,
  wait, add, sub, and, or, xor, inc, dec, is_register, is_mem_ref, is_branch_offset,
}
use x87sidecar.Instr.Bridge.{
  gpr_32_or_64, mem_32_or_64, plain_immediate, two_operand_shape, v1_shape, v2_shape, is_bridge_v1,
  is_bridge_v2,
}
use x87sidecar.Ir.{Op, Payload}
use x87sidecar.Ir.Context.{Context, num_nodes, max_nodes, append_node}
use x87sidecar.Build.Parts.{add_flagged}
use x87sidecar.Build.BridgeOps.{
  add_bridge, mov_from, mov_to_mem, build_mov, build_ext, alu_kind, alu_from, alu_to_mem, build_alu,
  build_inc_dec, build_alu_op, build_bridge_op, build_bridge,
}

-- The builder took its instruction, with one node at most.
abbrev pub Built : Context → Context × Option (Unit {0}) → Type 0
Built c r = (r.1 ≡ some tt) × (num_nodes r.0 ≤ suc (num_nodes c))

-- The kinds of destination and source that moves and ALU operations have nodes for.
data TwoShape : Kind → Kind → Type 0 where
  reg_reg : TwoShape register register
  reg_imm : TwoShape register branch_offset
  reg_mem : TwoShape register mem_ref
  mem_reg : TwoShape mem_ref register

is_register-register : (k : Kind) → is_register k ≡ true → k ≡ register
is_register-register register e = refl
is_register-register _ e = cc

is_mem_ref-mem_ref : (k : Kind) → is_mem_ref k ≡ true → k ≡ mem_ref
is_mem_ref-mem_ref mem_ref e = refl
is_mem_ref-mem_ref _ e = cc

is_branch_offset-branch_offset : (k : Kind) → is_branch_offset k ≡ true → k ≡ branch_offset
is_branch_offset-branch_offset branch_offset e = refl
is_branch_offset-branch_offset _ e = cc

gpr-register : (o : Operand) → gpr_32_or_64 o ≡ true → o.kind ≡ register
unfolding gpr_32_or_64
gpr-register o h = is_register-register o.kind (ground (arith, h))

mem-mem_ref : (o : Operand) → mem_32_or_64 o ≡ true → o.kind ≡ mem_ref
unfolding mem_32_or_64
mem-mem_ref o h = is_mem_ref-mem_ref o.kind (ground (arith, h))

two_operand_shape-TwoShape :
    (ins : Instr) → two_operand_shape ins ≡ true → TwoShape ins.operand0.kind ins.operand1.kind
unfolding two_operand_shape
two_operand_shape-TwoShape ins h = elim (Bool-cases (gpr_32_or_64 ins.operand0)) [
  | inl e ↦ elim (Bool-cases (gpr_32_or_64 ins.operand1)) [
    | inl f ↦ rw (gpr-register ins.operand0 e, gpr-register ins.operand1 f) reg_reg
    | inr f ↦ elim (Bool-cases (plain_immediate ins.operand1)) [
      | inl g ↦
          rw (gpr-register ins.operand0 e, is_branch_offset-branch_offset ins.operand1.kind g)
            reg_imm
      | inr g ↦
          rw (gpr-register ins.operand0 e, mem-mem_ref ins.operand1 (ground (arith, h, e, f, g)))
            reg_mem
    ]
  ]
  | inr e ↦
      rw
        (
          mem-mem_ref ins.operand0 (ground (arith, h, e)),
          gpr-register ins.operand1 (ground (arith, h, e)),
        )
        mem_reg
]

module _ (c : Context) (room : num_nodes c < max_nodes) where
  add_bridge-Built :
      (op : Op) (sized : Operand) (in0 in1 in2 : ℤ) (p : Payload)
      → Built c (add_bridge op sized in0 in1 in2 p c)
  unfolding add_bridge add_flagged append_node
  add_bridge-Built op sized in0 in1 in2 p =
      let e : ltb (num_nodes c) max_nodes ≡ true = ground arith in
      rw e (refl, omega (arith, length-append c.nodes (_ ∷ [])))

  build_mov-Built :
      (k l : Kind) (dst src : Operand)
      → TwoShape k l
      → src.kind ≡ l
      → Built c (build_mov k dst src c)
  unfolding build_mov mov_from mov_to_mem
  build_mov-Built _ _ dst src reg_reg e = rw e (add_bridge-Built _ _ _ _ _ _)
  build_mov-Built _ _ dst src reg_imm e = rw e (add_bridge-Built _ _ _ _ _ _)
  build_mov-Built _ _ dst src reg_mem e = rw e (add_bridge-Built _ _ _ _ _ _)
  build_mov-Built _ _ dst src mem_reg e = rw e (add_bridge-Built _ _ _ _ _ _)

  build_alu-Built :
      (k l : Kind) (kind : ℤ) (dst src : Operand)
      → TwoShape k l
      → src.kind ≡ l
      → Built c (build_alu k kind dst src c)
  unfolding build_alu alu_from alu_to_mem
  build_alu-Built _ _ kind dst src reg_reg e = rw e (add_bridge-Built _ _ _ _ _ _)
  build_alu-Built _ _ kind dst src reg_imm e = rw e (add_bridge-Built _ _ _ _ _ _)
  build_alu-Built _ _ kind dst src reg_mem e = rw e (add_bridge-Built _ _ _ _ _ _)
  build_alu-Built _ _ kind dst src mem_reg e = rw e (add_bridge-Built _ _ _ _ _ _)

  v1-Built :
      (op : Opcode) (ins : Instr) → v1_shape op ins ≡ true → Built c (build_bridge_op op ins c)
  unfolding v1_shape build_bridge_op build_ext
  v1-Built mov ins h =
      build_mov-Built ins.operand0.kind ins.operand1.kind ins.operand0 ins.operand1
        (two_operand_shape-TwoShape ins h) refl
  v1-Built lea ins h = add_bridge-Built _ _ _ _ _ _
  v1-Built movzx ins h = add_bridge-Built _ _ _ _ _ _
  v1-Built movsx ins h = add_bridge-Built _ _ _ _ _ _
  v1-Built movsxd ins h = add_bridge-Built _ _ _ _ _ _
  v1-Built wait ins h = (refl, omega arith)
  v1-Built _ ins h = cc

  alu-Built :
      (k : ℕ) (ins : Instr) → two_operand_shape ins ≡ true → Built c (build_alu_op (some k) ins c)
  unfolding build_alu_op
  alu-Built k ins h =
      build_alu-Built ins.operand0.kind ins.operand1.kind _ ins.operand0 ins.operand1
        (two_operand_shape-TwoShape ins h) refl

  v2-Built :
      (op : Opcode) (ins : Instr) → v2_shape op ins ≡ true → Built c (build_bridge_op op ins c)
  unfolding v2_shape build_bridge_op build_inc_dec alu_kind
  v2-Built add ins h = alu-Built 0 ins h
  v2-Built sub ins h = alu-Built 1 ins h
  v2-Built and ins h = alu-Built 2 ins h
  v2-Built or ins h = alu-Built 3 ins h
  v2-Built xor ins h = alu-Built 4 ins h
  v2-Built inc ins h = add_bridge-Built _ _ _ _ _ _
  v2-Built dec ins h = add_bridge-Built _ _ _ _ _ _
  v2-Built _ ins h = cc

-- The bridge predicates cover only what build_bridge can build: with room for one node, every
-- instruction that is_bridge_v2 accepts is built, with one node at most.
pub is_bridge_v2-Built :
    (c : Context) (ins : Instr)
    → num_nodes c < max_nodes
    → is_bridge_v2 ins ≡ true
    → Built c (build_bridge ins c)
unfolding is_bridge_v2 is_bridge_v1 build_bridge
is_bridge_v2-Built c ins room h = elim (Bool-cases (ins.rep_prefix == 0)) [
  | inl e ↦ elim (Bool-cases (v1_shape ins.opcode ins)) [
    | inl f ↦ v1-Built c room ins.opcode ins f
    | inr f ↦ v2-Built c room ins.opcode ins (ground (arith, h, e, f))
  ]
  | inr e ↦ absurd (ground (arith, h, e))
]
