-- ===== src/Optimize/Fma.antt =====
-- X87IROptimize.cpp: pass_fma, which contracts a product that one sum or difference uses.
use x87sidecar.Common.{
  ℕ, zero, suc, ℤ, pos, negsuc, Bool, true, false, ◌&&◌, not, if◌then◌else◌, ◌==◌, get_elem?, set,
  Option, none, some,
}
use x87sidecar.Ir.{Op, f_add, f_sub, f_mul, fm_add, fm_sub, fnm_sub, Node, is_dead}
use x87sidecar.Ir.Context.{Context, num_nodes}
use x87sidecar.Optimize.Uses.{Counts, bump, use_counts}
use x87sidecar.Optimize.Dse.{Walk, kill}

-- Which of the two inputs is the product: mul_input_idx.
pub data Side : Type 0 where
  first second : Side

abbrev pub is_f_mul : Op → Bool
is_f_mul f_mul = true
is_f_mul _ = false

abbrev pub is_sum : Op → Bool
is_sum f_add = true
is_sum f_sub = true
is_sum _ = false

abbrev pub product_of : Side → Node → ℤ
product_of first n = n.in0
product_of second n = n.in1

abbrev pub addend_of : Side → Node → ℤ
addend_of first n = n.in1
addend_of second n = n.in0

-- fma_op.
abbrev pub fma_op : Op → Side → Op
fma_op f_add side = fm_add
fma_op _ first = fnm_sub
fma_op _ second = fm_sub

-- `n` rewritten, with the factors of `mul`.
abbrev pub contract : Side → Node → Node → Node
contract side n mul = record n {
  op = fma_op n.op side;
  in0 = mul.in0;
  in1 = mul.in1;
  in2 = addend_of side n;
}

-- use_count[id] = 0.
abbrev pub clear : ℕ → Counts → Counts
clear k u j = if j == k then 0 else u j

abbrev pub may_contract : Node → ℕ → Counts → Bool
may_contract mul k u = is_f_mul mul.op && not (is_dead mul) && u k == 1

-- The rest of try_fuse, once the product is found to be `mul`, at index `k`.
abbrev pub fuse_product : ℕ → Node → Side → ℕ → Option Node → Walk → Option Walk
fuse_product i n side k none s = none
fuse_product i n side k (some mul) (ns, u) =
    if may_contract mul k u
    then some
        (set (set ns i (contract side n mul)) k (kill mul), bump mul.in1 (bump mul.in0 (clear k u)))
    else none

abbrev pub fuse_ref : ℕ → Node → Side → ℤ → Walk → Option Walk
fuse_ref i n side (pos k) s = fuse_product i n side k (get_elem? s.0 k) s
fuse_ref i n side (negsuc _) s = none

-- try_fuse(0, 1) and try_fuse(1, 0); `none` for false.
unfoldable pub try_fuse : ℕ → Node → Side → Walk → Option Walk
try_fuse i n side s = fuse_ref i n side (product_of side n) s

-- `fallback` unless `o` gives a walk.
abbrev pub or_else : Option Walk → Walk → Walk
or_else (some s) t = s
or_else none t = t

-- if (!try_fuse(0, 1)) try_fuse(1, 0);
unfoldable pub contract_node : ℕ → Node → Walk → Walk
contract_node i n s =
    if not (is_dead n) && is_sum n.op
    then or_else (try_fuse i n first s) (or_else (try_fuse i n second s) s)
    else s

abbrev pub contract_found : ℕ → Option Node → Walk → Walk
contract_found i none s = s
contract_found i (some n) s = contract_node i n s

-- for (i = 0; i < num_nodes; i++): the first `k` nodes.
unfoldable pub contract_first : ℕ → Walk → Walk
contract_first zero s = s
contract_first (suc k) s =
    let done = contract_first k s in contract_found k (get_elem? done.0 k) done

unfoldable pub pass_fma : Context → Context
pass_fma c = record c { nodes = (contract_first (num_nodes c) (c.nodes, use_counts c)).0 }
