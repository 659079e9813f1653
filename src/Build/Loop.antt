-- ===== src/Build/Loop.antt =====
-- X87IRBuild.cpp: the loop of build over the instructions of a run.
use x87sidecar.Common.{
  ℕ, ◌+◌, ◌-◌, Bool, if◌then◌else◌, leb, List, [], ◌∷◌, ◌++◌, take, drop, replicate, Option, none,
  some,
}
use x87sidecar.Instr.{Instr}
use x87sidecar.Ir.Context.{Context, num_nodes, init}
use x87sidecar.Build.Parts.{has_segment_override}
use x87sidecar.Build.Dispatch.{bail, build_op}

-- node_src of every node appended since `before`.
abbrev pub attribute : ℕ → ℕ → Context → Context
attribute before i c = record c { node_src = c.node_src ++ replicate (num_nodes c - before) i }

-- ctx.consumed = static_cast<int16_t>(i + 1): the cast changes nothing for the run lengths that the
-- callers pass, which are int16_t themselves.
abbrev pub consume : ℕ → Context → Context
consume n c = record c { consumed = n }

-- What follows the switch: the new nodes are attributed, and the instruction counts if it was taken.
abbrev pub finish_step : ℕ → ℕ → Context × Option (Unit {0}) → Context × Option (Unit {0})
finish_step before i (c, none) = (attribute before i c, none)
finish_step before i (c, some _) = (consume (i + 1) (attribute before i c), some tt)

-- One round of the loop, for instruction `i` of the run.
unfoldable pub build_step : Bool → Bool → ℕ → Instr → Context → Context × Option (Unit {0})
build_step allow_bridges bridges_v2 i ins c =
    if has_segment_override ins
    then bail ins.opcode c
    else finish_step (num_nodes c) i (build_op allow_bridges bridges_v2 ins c)

-- The loop goes on after a round that took its instruction, and breaks after one that did not.
abbrev pub continue : Context × Option (Unit {0}) → (Context → Context) → Context
continue (c, none) rest = c
continue (c, some _) rest = rest c

unfoldable pub build_loop : Bool → Bool → ℕ → List Instr → Context → Context
build_loop allow_bridges bridges_v2 i [] c = c
build_loop allow_bridges bridges_v2 i (ins ∷ rest) c =
    continue (build_step allow_bridges bridges_v2 i ins c)
      (build_loop allow_bridges bridges_v2 (i + 1) rest)

-- The instructions that build may look at: `run_length` of them from `start_idx`.
abbrev pub window : List Instr → ℕ → ℕ → List Instr
window instrs start_idx run_length = take run_length (drop start_idx instrs)

-- build: the context, and whether it consumed the two instructions that make a run worthwhile.
unfoldable pub build : List Instr → ℕ → ℕ → Bool → Bool → Context × Bool
build instrs start_idx run_length allow_bridges bridges_v2 =
    let c = build_loop allow_bridges bridges_v2 0 (window instrs start_idx run_length) init in
    (c, leb 2 c.consumed)
