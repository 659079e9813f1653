-- ===== src/Build/Simulation/Bridges.antt =====
-- The nodes of integer instructions: a guest register survives its negative encoding, and each node
-- has the effect of its instruction.
use x87sidecar.Common.{ℕ, ℤ, pos, if◌then◌else◌, ◌≡◌, refl, Bool, true, false}
use x87sidecar.Instr.{
  Instr, Operand, Kind, register, mem_ref, branch_offset, mov, lea, movzx, movsx, movsxd, wait, inc,
  dec, Opcode,
}
use x87sidecar.Instr
use x87sidecar.Ir.{
  Op, bridge_mov_rr, bridge_mov_ri, bridge_lea, bridge_load_g, bridge_store_g, bridge_ext,
  bridge_alu_rr, bridge_alu_ri, bridge_alu_rm, bridge_alu_mr, Node, Payload, mem, bridge_encode_reg,
  bridge_decode_reg,
}
use x87sidecar.Ir.Ordered.{Frame, InputsBelow}
use x87sidecar.Ir.Context.{Context, num_nodes, none_id, new_node}
use x87sidecar.Build.BridgeOps.{
  width_flag, encoded, alu_kind, add_bridge, mov_from, mov_to_mem, build_mov, source_class,
  build_ext, alu_from, alu_to_mem, build_alu, build_inc_dec, build_bridge_op,
}
use x87sidecar.Build.Parts.{add_flagged}
use x87sidecar.Semantics.Fpu.{Fpu}
use x87sidecar.Semantics.Machine.{
  Machine, set_world, wide, reg_of, exec_mov, exec_ext, exec_alu, exec_bridge,
}
use x87sidecar.Semantics.Eval.{is_effect, effect, ref}
use x87sidecar.Build.Simulation.Relation.{Sim, final}
use x87sidecar.Build.Simulation.Steps.{effect_rule}
use x87sidecar.Build.Simulation.Instructions.{Takes}

module _ (fpu : Fpu) (stack : ℕ → fpu.V) (w0 : fpu.W) (fr : Frame) where
  open fpu use {V, W}

  module _ (c : Context) (m : Machine V W) (s : Sim fpu stack w0 fr c m) where
    abbrev bridge_node : Op → Operand → ℤ → ℤ → ℤ → Payload → Node
    bridge_node op o in0 in1 in2 p = record (new_node op in0 in1 in2 p) { flags = width_flag o }

    add_bridge-Takes :
        (op : Op) (o : Operand) (in0 in1 in2 : ℤ) (p : Payload)
        → InputsBelow (num_nodes c) (bridge_node op o in0 in1 in2 p)
        → is_effect op ≡ true
        → Takes fpu stack w0 fr m (add_bridge op o in0 in1 in2 p c) (
            set_world fpu
              (effect fpu stack op
                (bridge_node op o in0 in1 in2 p)
                (ref fpu stack (final fpu stack w0 c).vals in0)
                (ref fpu stack (final fpu stack w0 c).vals in1)
                m.world)
              m)
    unfolding add_bridge add_flagged
    add_bridge-Takes op o in0 in1 in2 p below e =
        effect_rule fpu stack w0 fr c m _ _ (bridge_node op o in0 in1 in2 p) below refl e s
          (rw s.world (λ i l t. t))

    mov_from-Takes :
        (k : Kind) (d o : Operand)
        → Takes fpu stack w0 fr m
            (mov_from k d o c)
            (set_world fpu (exec_mov fpu register k d o m.world) m)
    unfolding mov_from effect is_effect bridge_encode_reg bridge_decode_reg
    mov_from-Takes register d o = add_bridge-Takes bridge_mov_rr d _ _ _ _ (tt, λ q. (tt, tt)) refl
    mov_from-Takes branch_offset d o =
        add_bridge-Takes bridge_mov_ri d _ _ _ _ (tt, λ q. (tt, tt)) refl
    mov_from-Takes mem_ref d o = add_bridge-Takes bridge_load_g d _ _ _ _ (tt, λ q. (tt, tt)) refl
    mov_from-Takes _ d o = s

    mov_to_mem-Takes :
        (k : Kind) (d o : Operand)
        → Takes fpu stack w0 fr m
            (mov_to_mem k d o c)
            (set_world fpu (exec_mov fpu mem_ref k d o m.world) m)
    unfolding mov_to_mem effect is_effect bridge_encode_reg bridge_decode_reg
    mov_to_mem-Takes register d o =
        add_bridge-Takes bridge_store_g o _ _ _ _ (tt, λ q. (tt, tt)) refl
    mov_to_mem-Takes _ d o = s

    build_mov-Takes :
        (k : Kind) (d o : Operand)
        → Takes fpu stack w0 fr m
            (build_mov k d o c)
            (set_world fpu (exec_mov fpu k o.kind d o m.world) m)
    unfolding build_mov
    build_mov-Takes register d o = mov_from-Takes o.kind d o
    build_mov-Takes mem_ref d o = mov_to_mem-Takes o.kind d o
    build_mov-Takes _ d o = s

    alu_from-Takes :
        (k : Kind) (n : ℕ) (d o : Operand)
        → Takes fpu stack w0 fr m
            (alu_from k (bridge_encode_reg n) d o c)
            (set_world fpu (exec_alu fpu n register k d o m.world) m)
    unfolding alu_from effect is_effect bridge_encode_reg bridge_decode_reg
    alu_from-Takes register n d o =
        add_bridge-Takes bridge_alu_rr d _ _ _ _ (tt, λ q. (tt, tt)) refl
    alu_from-Takes branch_offset n d o =
        add_bridge-Takes bridge_alu_ri d _ _ _ _ (tt, λ q. (tt, tt)) refl
    alu_from-Takes mem_ref n d o = add_bridge-Takes bridge_alu_rm d _ _ _ _ (tt, λ q. (tt, tt)) refl
    alu_from-Takes _ n d o = s

    alu_to_mem-Takes :
        (k : Kind) (n : ℕ) (d o : Operand)
        → Takes fpu stack w0 fr m
            (alu_to_mem k (bridge_encode_reg n) d o c)
            (set_world fpu (exec_alu fpu n mem_ref k d o m.world) m)
    unfolding alu_to_mem effect is_effect bridge_encode_reg bridge_decode_reg
    alu_to_mem-Takes register n d o =
        add_bridge-Takes bridge_alu_mr o _ _ _ _ (tt, λ q. (tt, tt)) refl
    alu_to_mem-Takes _ n d o = s

    build_alu-Takes :
        (k : Kind) (n : ℕ) (d o : Operand)
        → Takes fpu stack w0 fr m
            (build_alu k (bridge_encode_reg n) d o c)
            (set_world fpu (exec_alu fpu n k o.kind d o m.world) m)
    unfolding build_alu
    build_alu-Takes register n d o = alu_from-Takes o.kind n d o
    build_alu-Takes mem_ref n d o = alu_to_mem-Takes o.kind n d o
    build_alu-Takes _ n d o = s

    build_ext-Takes :
        (sign : ℕ) (zx : Bool) (d o : Operand)
        → (if zx then 0 else 4) ≡ sign
        → Takes fpu stack w0 fr m
            (build_ext zx d o c)
            (set_world fpu (exec_ext fpu sign d o m.world) m)
    unfolding build_ext effect is_effect bridge_encode_reg bridge_decode_reg source_class
    build_ext-Takes sign zx d o e =
        rw (← e) (add_bridge-Takes bridge_ext d _ _ _ _ (tt, λ q. (tt, tt)) refl)

    build_inc_dec-Takes :
        (n : ℕ) (d : Operand)
        → Takes fpu stack w0 fr m
            (build_inc_dec n d c)
            (set_world fpu (fpu.alu_imm (wide fpu d) (pos n) (reg_of fpu d) 1 m.world) m)
    unfolding build_inc_dec effect is_effect bridge_encode_reg bridge_decode_reg
    build_inc_dec-Takes n d = add_bridge-Takes bridge_alu_ri d _ _ _ _ (tt, λ q. (tt, tt)) refl

    lea-Takes :
        (d o : Operand)
        → Takes fpu stack w0 fr m
            (add_bridge bridge_lea d (encoded d) none_id none_id (mem o) c)
            (set_world fpu (fpu.address (wide fpu d) (reg_of fpu d) o m.world) m)
    unfolding effect is_effect bridge_encode_reg bridge_decode_reg
    lea-Takes d o = add_bridge-Takes bridge_lea d _ _ _ _ (tt, λ q. (tt, tt)) refl

    -- Every integer instruction that build_bridge takes has its effect on the state, and no other.
    pub build_bridge_op-Takes :
        (op : Opcode) (ins : Instr)
        → Takes fpu stack w0 fr m
            (build_bridge_op op ins c)
            (set_world fpu (exec_bridge fpu op ins m.world) m)
    unfolding build_bridge_op exec_bridge alu_kind
    build_bridge_op-Takes wait ins = s
    build_bridge_op-Takes mov ins = build_mov-Takes ins.operand0.kind ins.operand0 ins.operand1
    build_bridge_op-Takes lea ins = lea-Takes ins.operand0 ins.operand1
    build_bridge_op-Takes movzx ins = build_ext-Takes 0 true ins.operand0 ins.operand1 refl
    build_bridge_op-Takes movsx ins = build_ext-Takes 4 false ins.operand0 ins.operand1 refl
    build_bridge_op-Takes movsxd ins = build_ext-Takes 4 false ins.operand0 ins.operand1 refl
    build_bridge_op-Takes Instr.inc ins = build_inc_dec-Takes 0 ins.operand0
    build_bridge_op-Takes Instr.dec ins = build_inc_dec-Takes 1 ins.operand0
    build_bridge_op-Takes Instr.add ins =
        build_alu-Takes ins.operand0.kind 0 ins.operand0 ins.operand1
    build_bridge_op-Takes Instr.sub ins =
        build_alu-Takes ins.operand0.kind 1 ins.operand0 ins.operand1
    build_bridge_op-Takes Instr.and ins =
        build_alu-Takes ins.operand0.kind 2 ins.operand0 ins.operand1
    build_bridge_op-Takes Instr.or ins =
        build_alu-Takes ins.operand0.kind 3 ins.operand0 ins.operand1
    build_bridge_op-Takes Instr.xor ins =
        build_alu-Takes ins.operand0.kind 4 ins.operand0 ins.operand1
    build_bridge_op-Takes _ ins = s
