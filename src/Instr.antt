-- ===== src/Instr.antt =====
-- Decoded x86 instructions as the translator receives them: rosetta_core/include/rosetta_core/
-- IROperand.h, IRInstr.h, Register.h and the opcode names of Opcode.h that the modelled code tests.
-- The operand is a 16-byte union whose members share the byte at each offset, so it is one record
-- with a field for each byte that the code reads through any member.
mod Names
pub mod Bridge
pub use Names.*
use x87sidecar.Common.{ℕ, ◌/◌, ◌%◌, ℤ, Bool, true, false, ◌&&◌, if◌then◌else◌, ◌==◌, ltb}

-- IROperandKind.
pub data Kind : Type 0 where
  register mem_ref abs_mem immediate branch_offset condition_code segment_register : Kind

-- IROperandSize.
pub data Size : Type 0 where
  s8 s16 s32 s64 s128 s256 s80 : Size

-- IROperand: `reg` is byte 2 (the register byte, or addr_size), `value` the int64_t at +8 (disp of a
-- memory operand, value of a branch offset).
pub record Operand : Type 0 where
  pub kind : Kind
  pub size : Size
  pub reg : ℕ
  pub seg_override : ℕ
  pub mem_flags : ℕ
  pub base_reg : ℕ
  pub index_reg : ℕ
  pub shift_amount : ℕ
  pub value : ℤ

-- IRInstr, its opcode already decoded by opcode(), with the fields that the modelled code reads.
pub record Instr : Type 0 where
  pub opcode : Opcode
  pub rep_prefix : ℕ
  pub flag_liveness : ℕ
  pub num_operands : ℕ
  pub operand0 : Operand
  pub operand1 : Operand
  pub operand2 : Operand
  pub operand3 : Operand

abbrev pub is_register : Kind → Bool
is_register register = true
is_register _ = false

abbrev pub is_mem_ref : Kind → Bool
is_mem_ref mem_ref = true
is_mem_ref _ = false

abbrev pub is_branch_offset : Kind → Bool
is_branch_offset branch_offset = true
is_branch_offset _ = false

abbrev pub is_s64 : Size → Bool
is_s64 s64 = true
is_s64 _ = false

-- The kinds whose operand compute_operand_address accepts.
abbrev pub is_address_kind : Kind → Bool
is_address_kind mem_ref = true
is_address_kind abs_mem = true
is_address_kind immediate = true
is_address_kind _ = false

-- Register::is_mm.
abbrev is_mm : ℕ → Bool
is_mm v = v / 16 == 6 && v / 8 % 2 == 0

-- Register::index.
unfoldable pub reg_index : ℕ → ℕ
reg_index v = if is_mm v then v % 8 else v % 16

-- Register::is_gpr: the register byte is below 0x50.
unfoldable pub is_gpr : ℕ → Bool
is_gpr v = ltb v 0x50

-- reg.reg.index() of an operand.
abbrev pub index_of : Operand → ℕ
index_of o = reg_index o.reg
