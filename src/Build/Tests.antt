-- ===== src/Build/Tests.antt =====
-- Runs of the builder on small programs, and its theorems at them.
use x87sidecar.Common.{
  ◌+ℤ◌, ℕ, ◌+◌, ◌*◌, ◌-◌, ◌/◌, ◌≤◌, ◌≡◌, refl, pos, false, List, [], ◌∷◌, length, take,
}
use x87sidecar.Instr.{
  reg_index, Opcode, fld, fmul, faddp, fstp, other, Operand, Instr, register, mem_ref, s64, s80,
}
use x87sidecar.Ir.Ordered.{Ordered}
use x87sidecar.Ir.Context.{
  Context, num_nodes, max_nodes, init, append_node, resolve, resolve_slot, resolve_cached,
  read_initial, push, pop,
}
use x87sidecar.Common.{negsuc, none, some, replicate, arith}
use x87sidecar.Ir.{Node, const_zero, imm}
use x87sidecar.Ir.Context.{new_node, none_id}
use x87sidecar.Build.Dispatch.{build_fxch}
use x87sidecar.Build.Exchange.{build_fxch-full}
use x87sidecar.Instr.{mov, is_gpr}
use x87sidecar.Instr.Bridge.{is_bridge_v2, is_bridge_v1, v1_shape, two_operand_shape, gpr_32_or_64}
use x87sidecar.Build.BridgeOps.{build_bridge}
use x87sidecar.Build.BridgeShapes.{Built, is_bridge_v2-Built}
use x87sidecar.Build.Consumed.{AllAccepted, build-AllAccepted, build_le_lookahead}
use x87sidecar.Cache.Runs.{lookahead}
use x87sidecar.Build.Monad.{add_node, resolve_id, resolve_ids}
use x87sidecar.Build.Parts.{
  has_segment_override, build_fp_load, build_arith, build_arithp, build_fp_store,
}
use x87sidecar.Build.Dispatch.{
  build_case, build_default, build_op, build_fld, build_fst, store_or_copy, bail,
}
use x87sidecar.Build.Loop.{window, build, build_loop, build_step}
use x87sidecar.Semantics.Fpu.{Fpu, Arith}
use x87sidecar.Semantics.Machine.{exec_all}
use x87sidecar.Build.Simulation.{final}
use x87sidecar.Build.Simulation.Runs.{before_run}
use x87sidecar.Build.Refinement.{build_refines, build_well_formed}

abbrev pub st : ℕ → Operand
st d = record {
  kind = register;
  size = s80;
  reg = 0x70 + d;
  seg_override = 0;
  mem_flags = 0;
  base_reg = 0;
  index_reg = 0;
  shift_amount = 0;
  value = pos 0;
}

-- A qword at [r0 + disp].
abbrev pub qword : ℕ → Operand
qword disp = record {
  kind = mem_ref;
  size = s64;
  reg = 3;
  seg_override = 0;
  mem_flags = 1;
  base_reg = 0;
  index_reg = 0;
  shift_amount = 0;
  value = pos disp;
}

abbrev pub two_operands : Opcode → Operand → Operand → Instr
two_operands op a b = record {
  opcode = op;
  rep_prefix = 0;
  flag_liveness = 0;
  num_operands = 2;
  operand0 = a;
  operand1 = b;
  operand2 = a;
  operand3 = a;
}

-- fld [8]; fmul st(0), st(1); faddp st(2); fstp [16]; and an opcode that no run takes.
abbrev pub program : List Instr
program =
    two_operands fld (qword 8) (qword 8)
    ∷ two_operands fmul (st 0) (st 1)
    ∷ two_operands faddp (st 2) (st 0)
    ∷ two_operands fstp (qword 16) (qword 16)
    ∷ two_operands (other 1) (st 0) (st 0)
    ∷ []

built : Context
unfolding build build_loop build_step has_segment_override build_op build_case build_fld
    build_fp_load add_node append_node init build_arith build_arithp resolve_ids resolve_id resolve
    resolve_slot resolve_cached read_initial reg_index push pop build_fst store_or_copy
    build_fp_store build_default bail ◌+ℤ◌
built = (build program 0 5 false false).0

-- The four instructions of a five-instruction window are consumed.
consumed_four : built.consumed ≡ 4
unfolding built
consumed_four = refl

-- Each initial register is read once.
six_nodes : num_nodes built ≡ 6
unfolding built
six_nodes = refl

-- Numbers for values, and a list of what was stored for a state.
abbrev pub log_fpu : Fpu
log_fpu = record {
  V = ℕ;
  W = List ℕ;
  zero = 0;
  one = 1;
  of_bits = λ n. n;
  load = λ f o w. 10 + length w;
  store = λ f t o v w. v ∷ w;
  arith = λ f w a b. elim f [
    | Arith.add ↦ a + b
    | Arith.sub ↦ a - b
    | Arith.mul ↦ a * b
    | Arith.div ↦ a / b
  ];
  fused_add = λ w a b c. a * b + c;
  fused_sub = λ w a b c. c - a * b;
  fused_neg_sub = λ w a b c. a * b - c;
  negate = λ a. a;
  absolute = λ a. a;
  square_root = λ w a. a;
  round_int = λ w a. a;
  sine = λ a. a;
  cosine = λ a. a;
  tangent = λ a. a;
  arctangent = λ a b. a + b;
  y_log2_x = λ a b. a * b;
  scale = λ a b. a;
  select = λ c w a b. b;
  compare_status = λ a b w. a ∷ b ∷ w;
  test_status = λ a w. a ∷ w;
  compare_flags = λ a b w. a ∷ b ∷ w;
  store_status = λ r t w. w;
  load_control = λ o w. w;
  store_control = λ o w. w;
  move = λ z d s w. w;
  move_imm = λ z d n w. n ∷ w;
  address = λ z d o w. w;
  load_reg = λ z d o w. w;
  store_reg = λ z d o w. w;
  extend = λ z k d s w. w;
  alu_reg = λ z k d s w. w;
  alu_imm = λ z k d n w. n ∷ w;
  alu_load = λ z k d o w. w;
  alu_store = λ z k d o w. w;
}

abbrev pub initial_stack : ℕ → ℕ
initial_stack d = 100 + d

-- fld gives 10, fmul multiplies it by 100, faddp adds 1000 to ST(2), fstp stores what is then ST(0).
build_refines_example :
    (final log_fpu initial_stack [] (build program 0 5 false false).0).world
    ≡ (exec_all log_fpu
        (take (build program 0 5 false false).0.consumed (window program 0 5))
        (before_run log_fpu initial_stack [])).world
build_refines_example = (build_refines log_fpu initial_stack [] program 0 5 false false).0

build_well_formed_example :
    let c = (build program 0 5 false false).0 in
    (num_nodes c ≤ max_nodes)
    × Ordered c.nodes
    × (length c.node_src ≡ num_nodes c)
    × (c.consumed ≤ length (window program 0 5))
build_well_formed_example = build_well_formed program 0 5 false false

-- The node that stands in for the 128 nodes of a full table.
abbrev pub filler : Node
filler = new_node const_zero none_id none_id none_id (imm 0)

abbrev pub full_context : Context
full_context = record {
  nodes = replicate 128 filler;
  node_src = replicate 128 0;
  slot_val = λ i. negsuc i;
  top_delta = pos 0;
  initial_read = λ i. negsuc 0;
  last_fcmp = negsuc 0;
  last_fcomi = negsuc 0;
  consumed = 64;
  fail_opcode = none;
}

-- Room for one more node.
abbrev full_but_one : Context
full_but_one = record full_context { nodes = replicate 127 filler }

build_fxch-full_example :
    let r = build_fxch 1 full_context in
    (r.1 ≡ some tt)
    × (r.0.nodes ≡ full_context.nodes)
    × (r.0.slot_val 0 ≡ negsuc 1)
    × (r.0.slot_val 1 ≡ negsuc 0)
build_fxch-full_example =
    build_fxch-full full_context 1 0 1 refl (omega arith) (omega arith) refl refl refl refl

-- mov r0, [r0 + 8].
abbrev pub load_word : Instr
load_word = two_operands mov (record (st 0) { size = s64; reg = 0x30 }) (qword 8)

is_bridge_v2-Built_example : Built full_but_one (build_bridge load_word full_but_one)
unfolding is_bridge_v2 is_bridge_v1 v1_shape two_operand_shape gpr_32_or_64 is_gpr
is_bridge_v2-Built_example = is_bridge_v2-Built full_but_one load_word (omega arith) refl

build-AllAccepted_example :
    AllAccepted false false (take (build program 0 5 false false).0.consumed (window program 0 5))
build-AllAccepted_example = build-AllAccepted program 0 5 false false

build_le_lookahead_example : (build program 0 5 false false).0.consumed ≤ lookahead program 0
build_le_lookahead_example = build_le_lookahead program 0 5
