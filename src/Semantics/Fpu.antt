-- ===== src/Semantics/Fpu.antt =====
-- The arithmetic and the machine state that emitted code works on. The repository leaves both to the
-- processor, so they are a parameter, with no laws assumed.
use x87sidecar.Common.{ℕ, ℤ, Bool}
use x87sidecar.Instr.{Operand}

-- The four operations with a memory and a register form.
pub data Arith : Type 0 where
  add sub mul div : Arith

-- Memory formats.
pub data Format : Type 0 where
  f32 f64 f80 i16 i32 i64 : Format

-- `V` is the type of register values. `W` is all other state: guest memory, integer registers, the
-- status and control words, NZCV.
pub record Fpu : Type 1 where
  pub V : Type 0
  pub W : Type 0
  pub zero : V
  pub one : V
  pub of_bits : ℕ → V
  pub load : Format → Operand → W → V
  -- The flag says that the store truncates instead of rounding by the control word.
  pub store : Format → Bool → Operand → V → W → W
  pub arith : Arith → W → V → V → V
  -- a * b + c, c - a * b and a * b - c with one rounding.
  pub fused_add : W → V → V → V → V
  pub fused_sub : W → V → V → V → V
  pub fused_neg_sub : W → V → V → V → V
  pub negate : V → V
  pub absolute : V → V
  pub square_root : W → V → V
  pub round_int : W → V → V
  pub sine : V → V
  pub cosine : V → V
  pub tangent : V → V
  pub arctangent : V → V → V
  pub y_log2_x : V → V → V
  pub scale : V → V → V
  -- The first value unless the condition holds of the flags, and then the second.
  pub select : ℕ → W → V → V → V
  pub compare_status : V → V → W → W
  pub test_status : V → W → W
  pub compare_flags : V → V → W → W
  -- Writes the status word, its TOP moved by the given amount, to a register.
  pub store_status : ℤ → ℤ → W → W
  pub load_control : Operand → W → W
  pub store_control : Operand → W → W
  -- The integer instructions of a bridged run; the flag is the 64-bit operand width.
  pub move : Bool → ℤ → ℤ → W → W
  pub move_imm : Bool → ℤ → ℕ → W → W
  pub address : Bool → ℤ → Operand → W → W
  pub load_reg : Bool → ℤ → Operand → W → W
  pub store_reg : Bool → ℤ → Operand → W → W
  pub extend : Bool → ℕ → ℤ → ℤ → W → W
  pub alu_reg : Bool → ℤ → ℤ → ℤ → W → W
  pub alu_imm : Bool → ℤ → ℤ → ℕ → W → W
  pub alu_load : Bool → ℤ → ℤ → Operand → W → W
  pub alu_store : Bool → ℤ → ℤ → Operand → W → W
