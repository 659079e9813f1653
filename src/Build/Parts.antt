-- ===== src/Build/Parts.antt =====
-- X87IRBuild.cpp: the helpers of the build loop, from build_fp_load to build_fcmov.
use x87sidecar.Common.{
  ℕ, zero, suc, ℤ, pos, negsuc, Bool, true, false, ◌&&◌, if◌then◌else◌, ltb, Option, none, some,
}
use x87sidecar.Instr.{Size, s16, s32, s64, Operand, Instr, is_register, is_address_kind, index_of}
use x87sidecar.Ir.{
  Op, load_f64, load_f32, load_i16, load_i32, load_i64, const_f64, f_c_sel, store_f64, store_f32,
  store_i16, store_i32, store_i64, f_cmp, f_com_i, Flags, no_flags, Payload, imm, mem,
}
use x87sidecar.Ir.Context.{Context, none_id, append_node, new_node, set_slot, pop}
use x87sidecar.Build.Monad.{
  Builder, ◌>>=◌, ◌>>◌, pure, modify, or_fail, checked, resolve_id, resolve_ids, add_node,
}

abbrev pub fp_load_op : Size → Option Op
fp_load_op s32 = some load_f32
fp_load_op s64 = some load_f64
fp_load_op _ = none

abbrev pub int_load_op : Size → Option Op
int_load_op s16 = some load_i16
int_load_op s32 = some load_i32
int_load_op s64 = some load_i64
int_load_op _ = none

abbrev pub fp_store_op : Size → Option Op
fp_store_op s32 = some store_f32
fp_store_op s64 = some store_f64
fp_store_op _ = none

abbrev pub int_store_op : Size → Option Op
int_store_op s16 = some store_i16
int_store_op s32 = some store_i32
int_store_op s64 = some store_i64
int_store_op _ = none

-- A node of no inputs.
abbrev pub add_leaf : Op → Payload → Builder ℕ
add_leaf op p = add_node op none_id none_id none_id p

unfoldable pub build_fp_load : Operand → Builder ℕ
build_fp_load o = do op ← or_fail (fp_load_op o.size); add_leaf op (mem o)

unfoldable pub build_int_load : Operand → Builder ℕ
build_int_load o = do op ← or_fail (int_load_op o.size); add_leaf op (mem o)

unfoldable pub build_const : ℕ → Builder ℕ
build_const bits = add_leaf const_f64 (imm bits)

unfoldable pub build_fp_store : Operand → ℕ → Builder (Unit {0})
build_fp_store o val = do
  op ← or_fail (fp_store_op o.size)
  id ← add_node op (pos val) none_id none_id (mem o)
  pure tt

-- add_node, then flags on the new node.
unfoldable pub add_flagged : Op → Flags → ℤ → ℤ → ℤ → Payload → Builder ℕ
add_flagged op f in0 in1 in2 p c =
    checked (append_node (record (new_node op in0 in1 in2 p) { flags = f }) c)

unfoldable pub build_int_store : Operand → ℕ → Bool → Builder (Unit {0})
build_int_store o val trunc = do
  op ← or_fail (int_store_op o.size)
  id ← add_flagged op (record no_flags { truncate = trunc }) (pos val) none_id none_id (mem o)
  pure tt

overridden : Operand → Bool
overridden o = is_address_kind o.kind && ltb 0 o.seg_override

unfoldable pub has_segment_override : Instr → Bool
unfolding overridden
has_segment_override ins =
    if ltb 0 ins.num_operands && overridden ins.operand0
    then true
    else if ltb 1 ins.num_operands && overridden ins.operand1
    then true
    else if ltb 2 ins.num_operands && overridden ins.operand2
    then true
    else ltb 3 ins.num_operands && overridden ins.operand3

-- `op` on two nodes, in the order given or reversed.
abbrev pub add_binary : Op → Bool → ℕ → ℕ → Builder ℕ
add_binary op true a b = add_node op (pos b) (pos a) none_id (imm 0)
add_binary op false a b = add_node op (pos a) (pos b) none_id (imm 0)

unfoldable pub build_arith : Instr → Op → Bool → Builder (Unit {0})
build_arith ins op reversed =
    if is_register ins.operand0.kind
    then (do
      (dst, src) ← resolve_ids (index_of ins.operand0) (index_of ins.operand1)
      id ← add_binary op reversed dst src
      modify (set_slot (index_of ins.operand0) (pos id)))
    else (do
      st0 ← resolve_id 0
      val ← build_fp_load ins.operand0
      id ← add_binary op reversed st0 val
      modify (set_slot 0 (pos id)))

unfoldable pub build_arithp : Instr → Op → Bool → Builder (Unit {0})
build_arithp ins op reversed = do
  (dst, src) ← resolve_ids (index_of ins.operand0) 0
  id ← add_binary op reversed dst src
  modify (set_slot (index_of ins.operand0) (pos id))
  modify pop

-- The case body shared by fiadd, fisub, fisubr, fimul, fidiv and fidivr.
unfoldable pub build_int_arith : Instr → Op → Bool → Builder (Unit {0})
build_int_arith ins op reversed = do
  st0 ← resolve_id 0
  val ← build_int_load ins.operand0
  id ← add_binary op reversed st0 val
  modify (set_slot 0 (pos id))

abbrev pub set_last_fcmp : ℕ → Context → Context
set_last_fcmp id c = record c { last_fcmp = pos id }

abbrev pub pops : ℕ → Context → Context
pops zero c = c
pops (suc n) c = pops n (pop c)

-- The comparand of build_fcom.
unfoldable pub fcom_rhs : Instr → Bool → Builder ℕ
fcom_rhs ins true = resolve_id 1
fcom_rhs ins false =
    if is_register ins.operand1.kind
    then resolve_id (index_of ins.operand1)
    else build_fp_load ins.operand1

unfoldable pub build_fcom : Instr → ℕ → Bool → Builder (Unit {0})
build_fcom ins num_pops is_fcompp = do
  lhs ← resolve_id 0
  rhs ← fcom_rhs ins is_fcompp
  id ← add_node f_cmp (pos lhs) (pos rhs) none_id (imm 0)
  modify (set_last_fcmp id)
  modify (pops num_pops)

abbrev pub pop_if : Bool → Context → Context
pop_if true c = pop c
pop_if false c = c

unfoldable pub build_ficom : Instr → Bool → Builder (Unit {0})
build_ficom ins is_popping = do
  lhs ← resolve_id 0
  rhs ← build_int_load ins.operand0
  id ← add_node f_cmp (pos lhs) (pos rhs) none_id (imm 0)
  modify (set_last_fcmp id)
  modify (pop_if is_popping)

unfoldable pub build_fcomi : Instr → Bool → Builder (Unit {0})
build_fcomi ins is_popping = do
  st0 ← resolve_id 0
  src ← resolve_id (index_of ins.operand1)
  id ←
      add_flagged f_com_i (record no_flags { fcomi_popping = is_popping }) (pos st0) (pos src)
        none_id (imm 0)
  modify (λ c. record c { last_fcomi = pos id })
  modify (pop_if is_popping)

-- `if (last_fcomi < 0) return false;`
abbrev pub fcomi_seen : Builder (Unit {0})
fcomi_seen c = elim c.last_fcomi [ pos _ ↦ (c, some tt) | negsuc _ ↦ (c, none) ]

unfoldable pub build_fcmov : Instr → ℕ → Builder (Unit {0})
build_fcmov ins cond = do
  fcomi_seen
  st0 ← resolve_id 0
  src ← resolve_id (index_of ins.operand1)
  id ← add_node f_c_sel (pos st0) (pos src) none_id (imm cond)
  modify (set_slot 0 (pos id))
