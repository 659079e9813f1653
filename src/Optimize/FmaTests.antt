-- ===== src/Optimize/FmaTests.antt =====
-- pass_fma on one sum of a product, and the theorem about it there.
use x87sidecar.Common.{
  ℕ, ◌<◌, ◌≡◌, refl, ◌==◌, if◌then◌else◌, true, false, List, [], ◌∷◌, pos, negsuc,
}
use x87sidecar.Ir.{Node, const_one, f_mul, f_add, imm}
use x87sidecar.Ir.Context.{Context, num_nodes, new_node, none_id}
use x87sidecar.Build.Tests.{full_context, log_fpu, initial_stack}
use x87sidecar.Semantics.Eval.{Env, run, start}
use x87sidecar.Optimize.Uses.{use_counts, count_slots, count_inputs}
use x87sidecar.Optimize.Tests.{dead_flags}
use x87sidecar.Optimize.Fma.{pass_fma, contract_first, contract_node, try_fuse}
use x87sidecar.Optimize.Contraction.{Contraction}
use x87sidecar.Optimize.FmaRefines.{pass_fma-Contraction}

-- 1, 1, their product, and the sum of that product and the first 1, which ST(0) holds.
abbrev sum_nodes : List Node
sum_nodes =
    new_node const_one none_id none_id none_id (imm 0)
    ∷ new_node const_one none_id none_id none_id (imm 0)
    ∷ new_node f_mul (pos 0) (pos 1) none_id (imm 0)
    ∷ new_node f_add (pos 2) (pos 0) none_id (imm 0)
    ∷ []

abbrev sum_context : Context
sum_context = record full_context {
  nodes = sum_nodes;
  slot_val = λ d. if d == 0 then pos 3 else negsuc d;
}

-- The product dies, and the sum becomes the contraction.
contracted : dead_flags (pass_fma sum_context).nodes ≡ false ∷ false ∷ true ∷ false ∷ []
unfolding pass_fma contract_first contract_node try_fuse use_counts count_slots count_inputs
contracted = refl

pass_fma-Contraction_example :
    let after =
      run log_fpu initial_stack (start log_fpu initial_stack []) (pass_fma sum_context).nodes in
    (last : Env ℕ (List ℕ)) × Contraction log_fpu initial_stack sum_nodes
      (start log_fpu initial_stack [])
      sum_nodes
      last
    × (last.world ≡ after.world)
    × ((d i : ℕ)
        → d < 8
        → sum_context.slot_val d ≡ pos i
        → i < num_nodes sum_context
        → last.vals i ≡ after.vals i)
pass_fma-Contraction_example = pass_fma-Contraction log_fpu initial_stack [] sum_context
