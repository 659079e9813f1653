-- ===== src/Ir/Context.antt =====
-- X87IR.h: struct Context with init, add_node, resolve, push and pop.
use x87sidecar.Common.{
  ℕ, ◌+◌, ◌-◌, ℤ, pos, negsuc, ◌+ℤ◌, if◌then◌else◌, ltb, ◌==◌, List, [], ◌∷◌, ◌++◌, length, Option,
  none,
}
use x87sidecar.Instr.{Opcode}
use x87sidecar.Ir.Defs.{Op, read_st, Node, Payload, depth, no_flags}

-- `fail_opcode` is `none` for 0xFFFF. native_depths is set by compile_run, after build.
pub record Context : Type 0 where
  pub nodes : List Node
  pub node_src : List ℕ
  pub slot_val : ℕ → ℤ
  pub top_delta : ℤ
  pub initial_read : ℕ → ℤ
  pub last_fcmp : ℤ
  pub last_fcomi : ℤ
  pub consumed : ℕ
  pub fail_opcode : Option Opcode

-- kMaxNodes.
abbrev pub max_nodes : ℕ
max_nodes = 128

-- num_nodes.
abbrev pub num_nodes : Context → ℕ
num_nodes c = length c.nodes

-- Context::init.
unfoldable pub init : Context
init = record {
  nodes = [];
  node_src = [];
  slot_val = λ i. negsuc i;
  top_delta = pos 0;
  initial_read = λ i. negsuc 0;
  last_fcmp = negsuc 0;
  last_fcomi = negsuc 0;
  consumed = 0;
  fail_opcode = none;
}

-- a[k] = v.
abbrev pub update : (ℕ → ℤ) → ℕ → ℤ → ℕ → ℤ
update a k v i = if i == k then v else a i

abbrev pub set_slot : ℕ → ℤ → Context → Context
set_slot d v c = record c { slot_val = update c.slot_val d v }

-- nodes[num_nodes++] = n, or -1 when the table is full.
unfoldable pub append_node : Node → Context → Context × ℤ
append_node n c =
    if ltb (num_nodes c) max_nodes
    then (record c { nodes = c.nodes ++ n ∷ [] }, pos (num_nodes c))
    else (c, negsuc 0)

-- The node that add_node appends, before its caller fills the union in.
abbrev pub new_node : Op → ℤ → ℤ → ℤ → Payload → Node
new_node op in0 in1 in2 p = record {
  op = op;
  flags = no_flags;
  in0 = in0;
  in1 = in1;
  in2 = in2;
  payload = p;
}

abbrev pub none_id : ℤ
none_id = negsuc 0

-- The new ReadSt serves later reads of the same initial depth, and fills the slot.
abbrev pub remember : ℕ → ℕ → Context × ℤ → Context × ℤ
remember d d0 (c, pos i) = (
  record c {
    initial_read = update c.initial_read d0 (pos i);
    slot_val = update c.slot_val d (pos i);
  },
  pos i,
)
remember d d0 (c, negsuc _) = (c, negsuc 0)

-- The ReadSt of initial depth `d0` that resolve appends when no earlier one serves.
unfoldable pub read_initial : ℕ → ℕ → Context → Context × ℤ
read_initial d d0 c =
    remember d d0 (append_node (new_node read_st none_id none_id none_id (depth d0)) c)

unfoldable pub resolve_cached : ℕ → ℕ → ℤ → Context → Context × ℤ
unfolding read_initial
resolve_cached d d0 (pos i) c = (set_slot d (pos i) c, pos i)
resolve_cached d d0 (negsuc _) c = read_initial d d0 c

unfoldable pub resolve_slot : ℕ → ℤ → Context → Context × ℤ
unfolding resolve_cached
resolve_slot d (pos i) c = (c, pos i)
resolve_slot d (negsuc d0) c =
    if ltb d0 8 then resolve_cached d d0 (c.initial_read d0) c else (c, negsuc 0)

-- Context::resolve: the node that holds logical depth `d`, or -1.
unfoldable pub resolve : ℕ → Context → Context × ℤ
unfolding resolve_slot
resolve d c = if ltb d 8 then resolve_slot d (c.slot_val d) c else (c, negsuc 0)

-- Context::push: slots shift down by one, and the deepest is lost.
unfoldable pub push : ℤ → Context → Context
push v c = record c {
  slot_val = λ i. if i == 0 then v else if ltb i 8 then c.slot_val (i - 1) else c.slot_val i;
  top_delta = c.top_delta +ℤ negsuc 0;
}

-- Context::pop: slots shift up by one, and slot 7 becomes the sentinel -100.
unfoldable pub pop : Context → Context
pop c = record c {
  slot_val =
      λ i. if ltb i 7 then c.slot_val (i + 1) else if i == 7 then negsuc 99 else c.slot_val i;
  top_delta = c.top_delta +ℤ pos 1;
}
