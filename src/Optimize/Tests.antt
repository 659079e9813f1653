-- ===== src/Optimize/Tests.antt =====
-- pass_dse on a run whose first load nothing uses, and the theorems about it at that run.
use x87sidecar.Common.{◌≡◌, ◌+ℤ◌, refl, Bool, true, false, List, [], ◌∷◌, take}
use x87sidecar.Instr.{Instr, fld, fstp, fstp_stack, reg_index}
use x87sidecar.Ir.{Node, is_dead}
use x87sidecar.Ir.Context.{
  init, append_node, resolve, resolve_slot, resolve_cached, read_initial, push, pop,
}
use x87sidecar.Build.Monad.{add_node, resolve_id}
use x87sidecar.Build.Parts.{has_segment_override, build_fp_load, build_fp_store}
use x87sidecar.Build.Dispatch.{build_case, build_op, build_fld, build_fst, store_or_copy}
use x87sidecar.Build.Loop.{build, build_loop, build_step, window}
use x87sidecar.Build.Tests.{two_operands, qword, st, log_fpu, initial_stack}
use x87sidecar.Build.Simulation.{final}
use x87sidecar.Build.Simulation.Runs.{before_run}
use x87sidecar.Semantics.Machine.{exec_all}
use x87sidecar.Semantics.Eval.{run, start}
use x87sidecar.Optimize.Uses.{use_counts, count_slots, count_inputs}
use x87sidecar.Optimize.Dse.{pass_dse, walk_back, visit, never_dead}
use x87sidecar.Optimize.DseRefines.{pass_dse_preserves, build_dse_refines}

-- fld [8]; fld [16]; fstp [24]; fstp st(0): the first value is popped unused.
abbrev unused_load : List Instr
unused_load =
    two_operands fld (qword 8) (qword 8)
    ∷ two_operands fld (qword 16) (qword 16)
    ∷ two_operands fstp (qword 24) (qword 24)
    ∷ two_operands fstp_stack (st 0) (st 0)
    ∷ []

abbrev pub dead_flags : List Node → List Bool
dead_flags [] = []
dead_flags (n ∷ ns) = is_dead n ∷ dead_flags ns

first_dies :
    dead_flags (pass_dse (build unused_load 0 4 false false).0).nodes ≡ true ∷ false ∷ false ∷ []
unfolding build build_loop build_step has_segment_override build_op build_case build_fld
    build_fp_load add_node append_node init resolve_id resolve resolve_slot resolve_cached
    read_initial reg_index push pop build_fst store_or_copy build_fp_store ◌+ℤ◌ use_counts
    count_slots count_inputs pass_dse walk_back visit never_dead
first_dies = refl

pass_dse_preserves_example :
    let c = (build unused_load 0 4 false false).0 in
    (run log_fpu initial_stack (start log_fpu initial_stack []) c.nodes).world
    ≡ (run log_fpu initial_stack (start log_fpu initial_stack []) (pass_dse c).nodes).world
pass_dse_preserves_example =
    (pass_dse_preserves log_fpu initial_stack [] (build unused_load 0 4 false false).0).0

build_dse_refines_example :
    (final log_fpu initial_stack [] (pass_dse (build unused_load 0 4 false false).0)).world
    ≡ (exec_all log_fpu
        (take (pass_dse (build unused_load 0 4 false false).0).consumed (window unused_load 0 4))
        (before_run log_fpu initial_stack [])).world
build_dse_refines_example =
    (build_dse_refines log_fpu initial_stack [] unused_load 0 4 false false).0
