-- ===== src/GuestPc/Tree.antt =====
-- guest_pc_map.cpp: parseNode, contains and lookupFragment, the walk of the ARM-keyed tree.
use x87sidecar.Common.{
  ℕ, zero, suc, ◌+◌, ◌-◌, ◌%◌, Bool, ◌&&◌, ◌||◌, not, if◌then◌else◌, ◌==◌, ltb, leb, List, Option,
  none, some,
}
use x87sidecar.GuestPc.Reader.{
  Reader, u64_mod, field_at, little_endian, Status, resolved, not_translated, unavailable,
}
use x87sidecar.GuestPc.Step.{max_fragment_size}

-- Fragment.
pub record Fragment : Type 0 where
  pub node : ℕ
  pub x86_begin : ℕ
  pub arm_begin : ℕ
  pub map : ℕ
  pub x86_size : ℕ
  pub arm_size : ℕ
  pub kind : ℕ

-- node::kWindowBegin, and kWindowEnd - kWindowBegin.
abbrev pub window_begin : ℕ
window_begin = 0x30

abbrev pub node_window : ℕ
node_window = 0x70

-- A field of `n` bytes of a node, in the window read at window_begin.
abbrev pub node_field : ℕ → ℕ → List ℕ → ℕ
node_field off n win = field_at (off - window_begin) n win

-- parseNode.
unfoldable pub parse_node : List ℕ → ℕ → Fragment
parse_node win node_addr = record {
  node = node_addr;
  x86_begin = node_field 0x48 8 win;
  arm_begin = node_field 0x58 8 win;
  map = node_field 0x80 8 win;
  x86_size = node_field 0x98 4 win;
  arm_size = node_field 0x9c 4 win;
  kind = node_field 0x78 1 win;
}

-- The subtrees: kArmLeft and kArmRight.
unfoldable pub arm_left : List ℕ → ℕ
arm_left win = node_field 0x30 8 win

unfoldable pub arm_right : List ℕ → ℕ
arm_right win = node_field 0x38 8 win

abbrev pub arm_end : Fragment → ℕ
arm_end frag = (frag.arm_begin + frag.arm_size) % u64_mod

-- contains.
unfoldable pub contains : Fragment → ℕ → Bool
contains frag arm_pc =
    not (frag.node == 0) && leb frag.arm_begin arm_pc && ltb arm_pc (arm_end frag)

-- nodeAddr < 0x1000 || (nodeAddr & 7) != 0.
abbrev pub bad_address : ℕ → Bool
bad_address addr = ltb addr 0x1000 || not (addr % 8 == 0)

abbrev pub bad_size : Fragment → Bool
bad_size frag = frag.arm_size == 0 || ltb max_fragment_size frag.arm_size

-- Where the walk goes from a node: to a subtree, or nowhere.
pub data Turn : Type 0 where
  to_node : ℕ → Turn
  stop : Status Fragment → Turn

abbrev pub turn_at : ℕ → Fragment → List ℕ → Turn
turn_at arm_pc frag win =
    if bad_size frag
    then stop unavailable
    else if ltb arm_pc frag.arm_begin
    then to_node (arm_left win)
    else if leb (arm_end frag) arm_pc
    then to_node (arm_right win)
    else stop (resolved frag)

abbrev pub turn_with : ℕ → ℕ → Option (List ℕ) → Turn
turn_with arm_pc addr none = stop unavailable
turn_with arm_pc addr (some win) = turn_at arm_pc (parse_node win addr) win

-- A round of the loop.
unfoldable pub turn : Reader → ℕ → ℕ → Turn
turn reader arm_pc addr =
    if addr == 0
    then stop not_translated
    else if bad_address addr
    then stop unavailable
    else turn_with arm_pc addr (reader ((addr + window_begin) % u64_mod) node_window)

-- kMaxTreeDepth.
abbrev pub max_tree_depth : ℕ
max_tree_depth = 4096

-- The loop of lookupFragment, with the rounds that are left.
unfoldable pub descend : ℕ → Reader → ℕ → ℕ → Status Fragment
descend zero reader arm_pc addr = unavailable
descend (suc depth) reader arm_pc addr = elim (turn reader arm_pc addr) [
  | to_node next ↦ descend depth reader arm_pc next
  | stop status ↦ status
]

abbrev pub descend_from : Reader → ℕ → Option (List ℕ) → Status Fragment
descend_from reader arm_pc none = unavailable
descend_from reader arm_pc (some root) = descend max_tree_depth reader arm_pc (little_endian 8 root)

-- lookupFragment; `root_offset` is g_armTreeRootOffset.
unfoldable pub lookup_fragment : ℕ → Reader → ℕ → ℕ → Status Fragment
lookup_fragment root_offset reader runtime_base arm_pc =
    if root_offset == 0
    then unavailable
    else descend_from reader arm_pc (reader ((runtime_base + root_offset) % u64_mod) 8)
