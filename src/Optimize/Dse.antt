-- ===== src/Optimize/Dse.antt =====
-- X87IROptimize.cpp: pass_dse, dead store elimination in two backward walks.
use x87sidecar.Common.{
  ℕ, zero, suc, Bool, true, false, if◌then◌else◌, ◌==◌, List, set, get_elem?, Option, none, some,
}
use x87sidecar.Ir.{
  Op, store_f64, store_f32, store_i16, store_i32, store_i64, f_cmp, f_tst, f_com_i, f_stsw,
  store_cw, load_cw, bridge_mov_rr, bridge_mov_ri, bridge_lea, bridge_load_g, bridge_store_g,
  bridge_ext, bridge_alu_rr, bridge_alu_ri, bridge_alu_rm, bridge_alu_mr, Node, is_dead,
}
use x87sidecar.Ir.Context.{Context, num_nodes}
use x87sidecar.Optimize.Uses.{Counts, drop_inputs, use_counts}

-- The opcodes whose case is `continue` in both walks.
unfoldable pub never_dead : Op → Bool
never_dead store_f64 = true
never_dead store_f32 = true
never_dead store_i16 = true
never_dead store_i32 = true
never_dead store_i64 = true
never_dead f_cmp = true
never_dead f_tst = true
never_dead f_stsw = true
never_dead f_com_i = true
never_dead store_cw = true
never_dead load_cw = true
never_dead bridge_mov_rr = true
never_dead bridge_mov_ri = true
never_dead bridge_lea = true
never_dead bridge_load_g = true
never_dead bridge_store_g = true
never_dead bridge_ext = true
never_dead bridge_alu_rr = true
never_dead bridge_alu_ri = true
never_dead bridge_alu_rm = true
never_dead bridge_alu_mr = true
never_dead _ = false

-- n.flags |= kDead.
abbrev pub kill : Node → Node
kill n = let f = n.flags in record n { flags = record f { dead = true } }

abbrev pub Walk : Type 0
Walk = List Node × Counts

-- The body of the walk at node `i`, which is `n`.
abbrev pub visit_node : ℕ → Node → Walk → Walk
visit_node i n (ns, u) =
    if is_dead n
    then (ns, u)
    else if never_dead n.op
    then (ns, u)
    else if u i == 0
    then (set ns i (kill n), drop_inputs n u)
    else (ns, u)

abbrev pub visit_found : ℕ → Option Node → Walk → Walk
visit_found i none s = s
visit_found i (some n) s = visit_node i n s

unfoldable pub visit : ℕ → Walk → Walk
visit i s = visit_found i (get_elem? s.0 i) s

-- for (i = k - 1; i >= 0; i--)
unfoldable pub walk_back : ℕ → Walk → Walk
walk_back zero s = s
walk_back (suc i) s = walk_back i (visit i s)

unfoldable pub pass_dse : Context → Context
pass_dse c =
    let first = walk_back (num_nodes c) (c.nodes, use_counts c) in
    let second = walk_back (num_nodes c) first in record c { nodes = second.0 }
