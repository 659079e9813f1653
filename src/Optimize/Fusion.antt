-- ===== src/Optimize/Fusion.antt =====
-- X87IROptimize.cpp: pass_fcom_fstsw_fusion, which marks a compare and the FStsw that reads it.
use x87sidecar.Common.{
  ℕ, zero, suc, ◌-◌, ℤ, pos, negsuc, Bool, true, false, ◌&&◌, not, if◌then◌else◌, List, get_elem?,
  set, Option, none, some,
}
use x87sidecar.Ir.{Op, f_cmp, f_tst, f_stsw, Node, is_dead}
use x87sidecar.Ir.Context.{Context, num_nodes}

abbrev pub is_compare : Op → Bool
is_compare f_cmp = true
is_compare f_tst = true
is_compare _ = false

abbrev pub is_fstsw : Op → Bool
is_fstsw f_stsw = true
is_fstsw _ = false

-- n.flags |= kFcomFused.
abbrev pub fuse : Node → Node
fuse n = let f = n.flags in record n { flags = record f { fcom_fused = true } }

abbrev pub live_compare : Option Node → Bool
live_compare none = false
live_compare (some n) = not (is_dead n) && is_compare n.op

-- No live compare among the `k` nodes from `j` on.
unfoldable pub clean : List Node → ℕ → ℕ → Bool
clean ns j zero = true
clean ns j (suc k) =
    let rest = clean ns (suc j) k in if live_compare (get_elem? ns j) then false else rest

-- The compare `f` that node `i` names: it is marked, and so is node `i`, which is `n`.
abbrev pub fuse_pair : List Node → ℕ → Node → ℕ → Option Node → List Node
fuse_pair ns i n f none = ns
fuse_pair ns i n f (some m) =
    if is_compare m.op && clean ns (suc f) (i - suc f)
    then set (set ns f (fuse m)) i (fuse n)
    else ns

abbrev pub fuse_with : List Node → ℕ → Node → ℤ → List Node
fuse_with ns i n (pos f) = fuse_pair ns i n f (get_elem? ns f)
fuse_with ns i n (negsuc _) = ns

-- The body of the loop at node `i`.
abbrev pub fuse_node : List Node → ℕ → Option Node → List Node
fuse_node ns i none = ns
fuse_node ns i (some n) = if not (is_dead n) && is_fstsw n.op then fuse_with ns i n n.in0 else ns

-- for (i = 0; i < num_nodes; i++): the first `k` nodes.
unfoldable pub fuse_first : ℕ → List Node → List Node
unfolding clean
fuse_first zero ns = ns
fuse_first (suc k) ns = let done = fuse_first k ns in fuse_node done k (get_elem? done k)

unfoldable pub pass_fcom_fstsw_fusion : Context → Context
unfolding fuse_first
pass_fcom_fstsw_fusion c = record c { nodes = fuse_first (num_nodes c) c.nodes }
