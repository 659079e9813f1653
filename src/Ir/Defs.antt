-- ===== src/Ir/Defs.antt =====
-- X87IR.h: Op, NodeFlags, Node, and the encodings that nodes carry.
use x87sidecar.Common.{ℕ, zero, suc, ◌+◌, ℤ, pos, negsuc, Bool, false}
use x87sidecar.Instr.{Operand}

-- enum class Op, in its order.
pub data Op : Type 0 where
  read_st load_f64 load_f32 load_i16 load_i32 load_i64 const_zero const_one const_f64 : Op
  f_add f_sub f_mul f_div fm_add fm_sub fnm_sub f_neg f_abs f_sqrt f_rnd_int : Op
  f_sin f_cos f_patan f_ptan f_yl2x f_scale f_c_sel : Op
  store_f64 store_f32 store_i16 store_i32 store_i64 f_cmp f_tst f_com_i f_stsw : Op
  store_cw load_cw : Op
  bridge_mov_rr bridge_mov_ri bridge_lea bridge_load_g bridge_store_g bridge_ext : Op
  bridge_alu_rr bridge_alu_ri bridge_alu_rm bridge_alu_mr : Op

-- NodeFlags, one field for each bit.
pub record Flags : Type 0 where
  pub dead : Bool
  pub fcom_fused : Bool
  pub truncate : Bool
  pub fcomi_popping : Bool
  pub fma_reduce_head : Bool
  pub fma_reduce_member : Bool
  pub bridge_64 : Bool

-- kNone.
abbrev pub no_flags : Flags
no_flags = record {
  dead = false;
  fcom_fused = false;
  truncate = false;
  fcomi_popping = false;
  fma_reduce_head = false;
  fma_reduce_member = false;
  bridge_64 = false;
}

-- The union at the end of Node: imm_bits, mem_operand or initial_depth.
pub data Payload : Type 0 where
  imm : ℕ → Payload
  mem : Operand → Payload
  depth : ℕ → Payload

pub record Node : Type 0 where
  pub op : Op
  pub flags : Flags
  pub in0 : ℤ
  pub in1 : ℤ
  pub in2 : ℤ
  pub payload : Payload

-- flags & kDead.
abbrev pub is_dead : Node → Bool
is_dead n = n.flags.dead

-- Guest register numbers ride in inputs as -(reg + 2), which is `negsuc (reg + 1)`.
unfoldable pub bridge_encode_reg : ℕ → ℤ
bridge_encode_reg r = negsuc (suc r)

-- -(enc + 2).
unfoldable pub bridge_decode_reg : ℤ → ℤ
bridge_decode_reg (pos n) = negsuc (n + 1)
bridge_decode_reg (negsuc zero) = negsuc 0
bridge_decode_reg (negsuc (suc r)) = pos r

-- How many of a node's inputs are node references: FStsw packs payloads into the others.
unfoldable pub node_ref_input_count : Node → ℕ
node_ref_input_count n = refs n.op
  where
    refs : Op → ℕ
    refs f_stsw = 1
    refs _ = 3
