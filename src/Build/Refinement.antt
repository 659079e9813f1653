-- ===== src/Build/Refinement.antt =====
-- What X87IR::build promises, for any run and any floating-point unit.
use x87sidecar.Common.{ℕ, ◌≤◌, ◌<◌, ◌≡◌, Bool, List, length, take}
use x87sidecar.Instr.{Instr}
use x87sidecar.Ir.Ordered.{Ordered}
use x87sidecar.Ir.Context.{num_nodes, max_nodes}
use x87sidecar.Build.Loop.{window, build}
use x87sidecar.Semantics.Fpu.{Fpu}
use x87sidecar.Semantics.Machine.{exec_all}
use x87sidecar.Build.Simulation.{Denotes, final}
use x87sidecar.Build.Simulation.Runs.{before_run, build-Between}

-- Build refines the x87 machine. Let `m` be the machine after the instructions that build consumed,
-- carried out one at a time. Carrying out the nodes in order leaves the state of `m`; top_delta is
-- how far TOP moved; and each of the eight symbolic slots stands for the register of `m` at its
-- depth: a slot with a node has that node's value, a slot with an initial depth has what the run
-- found there (the sentinel of a popped slot says nothing).
pub build_refines :
    (fpu : Fpu) (stack : ℕ → fpu.V) (w0 : fpu.W) (instrs : List Instr) (start_idx run_length : ℕ)
    (allow_bridges bridges_v2 : Bool)
    → let c = (build instrs start_idx run_length allow_bridges bridges_v2).0 in
      let m =
        exec_all fpu
          (take c.consumed (window instrs start_idx run_length))
          (before_run fpu stack w0) in
      ((final fpu stack w0 c).world ≡ m.world)
      × (c.top_delta ≡ m.top)
      × ((d : ℕ) → d < 8 → Denotes fpu stack w0 c (c.slot_val d) (m.st d))
build_refines fpu stack w0 instrs start_idx run_length allow_bridges bridges_v2 =
    let (b, h) = build-Between fpu stack w0 instrs start_idx run_length allow_bridges bridges_v2 in
    let s = b.agrees in (s.world, s.top, s.slots)

-- A floating-point unit with one value and one state.
abbrev pub point_fpu : Fpu
point_fpu = record {
  V = Unit;
  W = Unit;
  zero = tt;
  one = tt;
  of_bits = λ n. tt;
  load = λ f o w. tt;
  store = λ f t o v w. tt;
  arith = λ f w a b. tt;
  fused_add = λ w a b c. tt;
  fused_sub = λ w a b c. tt;
  fused_neg_sub = λ w a b c. tt;
  negate = λ a. tt;
  absolute = λ a. tt;
  square_root = λ w a. tt;
  round_int = λ w a. tt;
  sine = λ a. tt;
  cosine = λ a. tt;
  tangent = λ a. tt;
  arctangent = λ a b. tt;
  y_log2_x = λ a b. tt;
  scale = λ a b. tt;
  select = λ c w a b. tt;
  compare_status = λ a b w. tt;
  test_status = λ a w. tt;
  compare_flags = λ a b w. tt;
  store_status = λ r t w. tt;
  load_control = λ o w. tt;
  store_control = λ o w. tt;
  move = λ z d s w. tt;
  move_imm = λ z d n w. tt;
  address = λ z d o w. tt;
  load_reg = λ z d o w. tt;
  store_reg = λ z d o w. tt;
  extend = λ z k d s w. tt;
  alu_reg = λ z k d s w. tt;
  alu_imm = λ z k d n w. tt;
  alu_load = λ z k d o w. tt;
  alu_store = λ z k d o w. tt;
}

-- Whatever the instructions, build leaves at most kMaxNodes nodes, each of which refers to earlier
-- nodes only; records one source instruction for each node; and consumes no more instructions than
-- the run has.
pub build_well_formed :
    (instrs : List Instr) (start_idx run_length : ℕ) (allow_bridges bridges_v2 : Bool)
    → let c = (build instrs start_idx run_length allow_bridges bridges_v2).0 in
      (num_nodes c ≤ max_nodes)
      × Ordered c.nodes
      × (length c.node_src ≡ num_nodes c)
      × (c.consumed ≤ length (window instrs start_idx run_length))
build_well_formed instrs start_idx run_length allow_bridges bridges_v2 =
    let (b, h) =
      build-Between point_fpu (λ d. tt) tt instrs start_idx run_length allow_bridges bridges_v2 in
    (b.agrees.shape.bounded, b.agrees.shape.ordered, b.sources, h)
