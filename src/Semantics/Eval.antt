-- ===== src/Semantics/Eval.antt =====
-- The meaning of a list of nodes: they are carried out in order, each value kept under its index.
use x87sidecar.Common.{
  ℕ, suc, ◌+◌, ℤ, pos, negsuc, ◌≡◌, refl, Bool, true, false, if◌then◌else◌, ◌==◌, List, [], ◌∷◌,
  ◌++◌, arith, length,
}
use x87sidecar.Instr.{Operand}
use x87sidecar.Ir.{
  Op, read_st, load_f64, load_f32, load_i16, load_i32, load_i64, const_zero, const_one, const_f64,
  f_add, f_sub, f_mul, f_div, fm_add, fm_sub, fnm_sub, f_neg, f_abs, f_sqrt, f_rnd_int, f_sin,
  f_cos, f_patan, f_ptan, f_yl2x, f_scale, f_c_sel, store_f64, store_f32, store_i16, store_i32,
  store_i64, f_cmp, f_tst, f_com_i, f_stsw, store_cw, load_cw, bridge_mov_rr, bridge_mov_ri,
  bridge_lea, bridge_load_g, bridge_store_g, bridge_ext, bridge_alu_rr, bridge_alu_ri,
  bridge_alu_rm, bridge_alu_mr, Node, Payload, imm, mem, depth, is_dead, bridge_decode_reg,
}
use x87sidecar.Semantics.Fpu.{Fpu, Arith, f32, f64, i16, i32, i64}

pub record Env (V W : Type 0) : Type 0 where
  pub vals : ℕ → V
  pub count : ℕ
  pub world : W

-- The nodes that the source calls side effects: stores, compares, status, control and bridges.
unfoldable pub is_effect : Op → Bool
is_effect store_f64 = true
is_effect store_f32 = true
is_effect store_i16 = true
is_effect store_i32 = true
is_effect store_i64 = true
is_effect f_cmp = true
is_effect f_tst = true
is_effect f_stsw = true
is_effect f_com_i = true
is_effect store_cw = true
is_effect load_cw = true
is_effect bridge_mov_rr = true
is_effect bridge_mov_ri = true
is_effect bridge_lea = true
is_effect bridge_load_g = true
is_effect bridge_store_g = true
is_effect bridge_ext = true
is_effect bridge_alu_rr = true
is_effect bridge_alu_ri = true
is_effect bridge_alu_rm = true
is_effect bridge_alu_mr = true
is_effect _ = false

abbrev bits_of : Payload → ℕ
bits_of (imm n) = n
bits_of _ = 0

abbrev on_mem : {A : Type 0} → (Operand → A) → A → Payload → A
on_mem f a (mem o) = f o
on_mem f a _ = a

module _ (fpu : Fpu) (stack : ℕ → fpu.V) where
  open fpu use {V, W}

  abbrev initial : Payload → V
  initial (depth d) = stack d
  initial _ = fpu.zero

  -- The value of a node that is no side effect, from its payload, the state and its three inputs.
  unfoldable pub value : Op → Payload → W → V → V → V → V
  value read_st p w a b c = initial p
  value load_f64 p w a b c = on_mem (λ o. fpu.load f64 o w) fpu.zero p
  value load_f32 p w a b c = on_mem (λ o. fpu.load f32 o w) fpu.zero p
  value load_i16 p w a b c = on_mem (λ o. fpu.load i16 o w) fpu.zero p
  value load_i32 p w a b c = on_mem (λ o. fpu.load i32 o w) fpu.zero p
  value load_i64 p w a b c = on_mem (λ o. fpu.load i64 o w) fpu.zero p
  value const_zero p w a b c = fpu.zero
  value const_one p w a b c = fpu.one
  value const_f64 p w a b c = fpu.of_bits (bits_of p)
  value f_add p w a b c = fpu.arith Arith.add w a b
  value f_sub p w a b c = fpu.arith Arith.sub w a b
  value f_mul p w a b c = fpu.arith Arith.mul w a b
  value f_div p w a b c = fpu.arith Arith.div w a b
  value fm_add p w a b c = fpu.fused_add w a b c
  value fm_sub p w a b c = fpu.fused_sub w a b c
  value fnm_sub p w a b c = fpu.fused_neg_sub w a b c
  value f_neg p w a b c = fpu.negate a
  value f_abs p w a b c = fpu.absolute a
  value f_sqrt p w a b c = fpu.square_root w a
  value f_rnd_int p w a b c = fpu.round_int w a
  value f_sin p w a b c = fpu.sine a
  value f_cos p w a b c = fpu.cosine a
  value f_patan p w a b c = fpu.arctangent a b
  value f_ptan p w a b c = fpu.tangent a
  value f_yl2x p w a b c = fpu.y_log2_x a b
  value f_scale p w a b c = fpu.scale a b
  value f_c_sel p w a b c = fpu.select (bits_of p) w a b
  value _ p w a b c = fpu.zero

  -- The state after a side effect: `a` and `b` are the values of the first two inputs.
  unfoldable pub effect : Op → Node → V → V → W → W
  effect store_f64 n a b w = on_mem (λ o. fpu.store f64 false o a w) w n.payload
  effect store_f32 n a b w = on_mem (λ o. fpu.store f32 false o a w) w n.payload
  effect store_i16 n a b w = on_mem (λ o. fpu.store i16 n.flags.truncate o a w) w n.payload
  effect store_i32 n a b w = on_mem (λ o. fpu.store i32 n.flags.truncate o a w) w n.payload
  effect store_i64 n a b w = on_mem (λ o. fpu.store i64 n.flags.truncate o a w) w n.payload
  effect f_cmp n a b w = fpu.compare_status a b w
  effect f_tst n a b w = fpu.test_status a w
  effect f_com_i n a b w = fpu.compare_flags a b w
  effect f_stsw n a b w = fpu.store_status n.in1 n.in2 w
  effect store_cw n a b w = on_mem (λ o. fpu.load_control o w) w n.payload
  effect load_cw n a b w = on_mem (λ o. fpu.store_control o w) w n.payload
  effect bridge_mov_rr n a b w =
      fpu.move n.flags.bridge_64 (bridge_decode_reg n.in0) (bridge_decode_reg n.in1) w
  effect bridge_mov_ri n a b w =
      fpu.move_imm n.flags.bridge_64 (bridge_decode_reg n.in0) (bits_of n.payload) w
  effect bridge_lea n a b w =
      on_mem (λ o. fpu.address n.flags.bridge_64 (bridge_decode_reg n.in0) o w) w n.payload
  effect bridge_load_g n a b w =
      on_mem (λ o. fpu.load_reg n.flags.bridge_64 (bridge_decode_reg n.in0) o w) w n.payload
  effect bridge_store_g n a b w =
      on_mem (λ o. fpu.store_reg n.flags.bridge_64 (bridge_decode_reg n.in0) o w) w n.payload
  effect bridge_ext n a b w =
      fpu.extend n.flags.bridge_64 (bits_of n.payload) (bridge_decode_reg n.in0)
        (bridge_decode_reg n.in1) w
  effect bridge_alu_rr n a b w =
      fpu.alu_reg n.flags.bridge_64 (bridge_decode_reg n.in2) (bridge_decode_reg n.in0)
        (bridge_decode_reg n.in1) w
  effect bridge_alu_ri n a b w =
      fpu.alu_imm n.flags.bridge_64 (bridge_decode_reg n.in2) (bridge_decode_reg n.in0)
        (bits_of n.payload) w
  effect bridge_alu_rm n a b w =
      on_mem
        (λ o.
          fpu.alu_load n.flags.bridge_64 (bridge_decode_reg n.in2) (bridge_decode_reg n.in0) o w)
        w n.payload
  effect bridge_alu_mr n a b w =
      on_mem
        (λ o.
          fpu.alu_store n.flags.bridge_64 (bridge_decode_reg n.in2) (bridge_decode_reg n.in0) o w)
        w n.payload
  effect _ n a b w = w

  -- A negative input is no node: it reads as zero.
  abbrev pub ref : (ℕ → V) → ℤ → V
  ref vals (pos i) = vals i
  ref vals (negsuc _) = fpu.zero

  abbrev pub node_value : Node → Env V W → V
  node_value n e =
      value n.op n.payload e.world (ref e.vals n.in0) (ref e.vals n.in1) (ref e.vals n.in2)

  abbrev pub node_effect : Node → Env V W → W
  node_effect n e = effect n.op n (ref e.vals n.in0) (ref e.vals n.in1) e.world

  abbrev pub bind_value : V → Env V W → Env V W
  bind_value v e = record e {
    vals = λ i. if i == e.count then v else e.vals i;
    count = suc e.count;
  }

  -- A dead node is skipped, but keeps its index.
  unfoldable pub eval_node : Env V W → Node → Env V W
  eval_node e n =
      if is_dead n
      then record e { count = suc e.count }
      else if is_effect n.op
      then record e { world = node_effect n e; count = suc e.count }
      else bind_value (node_value n e) e

  unfoldable pub run : Env V W → List Node → Env V W
  run e [] = e
  run e (n ∷ ns) = run (eval_node e n) ns

  unfoldable pub start : W → Env V W
  start w = record { vals = λ i. fpu.zero; count = 0; world = w }

  pub run-append : (e : Env V W) (xs ys : List Node) → run e (xs ++ ys) ≡ run (run e xs) ys
  unfolding run
  run-append e [] ys = refl
  run-append e (x ∷ xs) ys = run-append (eval_node e x) xs ys

  pub run_snoc :
      (e : Env V W) (xs : List Node) (n : Node) → run e (xs ++ n ∷ []) ≡ eval_node (run e xs) n
  unfolding run
  run_snoc e xs n = run-append e xs (n ∷ [])

  pub count-eval_node : (e : Env V W) (n : Node) → (eval_node e n).count ≡ suc e.count
  unfolding eval_node
  count-eval_node e n = ground arith

  pub count-run : (e : Env V W) (ns : List Node) → (run e ns).count ≡ e.count + length ns
  unfolding run
  count-run e [] = omega arith
  count-run e (n ∷ ns) = omega (arith, count-run (eval_node e n) ns, count-eval_node e n)
