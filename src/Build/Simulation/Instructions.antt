-- ===== src/Build/Simulation/Instructions.antt =====
-- One lemma for each helper of the build loop: where it succeeds, the context agrees with the machine
-- after the instruction, and where it fails, with the machine before it.
use x87sidecar.Common.{
  ℕ, ◌≡◌, refl, ℤ, pos, negsuc, inl, inr, Bool, true, false, if◌then◌else◌, Bool-cases, Option,
  none, some,
}
use x87sidecar.Instr.{Instr, Operand, Size, s32, s64, s16, is_register, index_of}
use x87sidecar.Ir.{
  Op, load_f32, load_f64, load_i16, load_i32, load_i64, const_f64, f_scale, f_c_sel, f_sin, f_cos,
  f_ptan, const_one, Payload, imm, mem,
}
use x87sidecar.Ir.Ordered.{Frame}
use x87sidecar.Ir.Context.{Context, none_id, set_slot}
use x87sidecar.Build.Monad.{Builder, ◌>>=◌, modify, resolve_id, bind_result, or_fail, add_node}
use x87sidecar.Build.Parts.{
  add_leaf, fp_load_op, int_load_op, build_fp_load, build_int_load, build_const, add_binary,
  build_arith, build_arithp, build_int_arith, build_fcmov,
}
use x87sidecar.Build.Dispatch.{
  push_leaf, push_const, build_fld, build_fild, build_unary, build_fsincos, build_fptan,
  build_two_pop, build_fscale,
}
use x87sidecar.Semantics.Fpu.{Fpu}
use x87sidecar.Semantics.Machine.{
  Machine, fp_format, int_format, set_st, push_st, pop_st, order, exec_fld, exec_fcmov,
}
use x87sidecar.Semantics.Eval.{is_effect, value}
use x87sidecar.Build.Simulation.Relation.{Holds, Sim, Grows, set_slot-Sim, push-Sim, pop-Sim}
use x87sidecar.Build.Simulation.Steps.{
  Runs, resolve_rule, resolve_both_rule, leaf_rule, unary_rule, binary_rule,
}

module _ (fpu : Fpu) (stack : ℕ → fpu.V) (w0 : fpu.W) (fr : Frame) where
  open fpu use {V, W}

  -- The builder ends in agreement with `m'`.
  abbrev pub Takes : Machine V W → Context × Option (Unit {0}) → Machine V W → Type 0
  Takes m r m' = Runs fpu stack w0 fr m r (λ _ c'. Sim fpu stack w0 fr c' m')

  pub build_unary-Takes :
      (op : Op) (c : Context) (m : Machine V W)
      → is_effect op ≡ false
      → Sim fpu stack w0 fr c m
      → Takes m
          (build_unary op c)
          (set_st fpu 0 (value fpu stack op (imm 0) m.world (m.st 0) fpu.zero fpu.zero) m)
  unfolding build_unary
  build_unary-Takes op c m e s = resolve_rule fpu stack w0 fr c m _ _ 0 s λ c1 a g1 s1 h1.
      unary_rule fpu stack w0 fr c1 m _ _ op (imm 0) a (m.st 0) e s1 h1
        λ c2 i g2 s2 h2. set_slot-Sim fpu stack w0 fr c2 m 0 (pos i) _ h2 s2

  module _ {A : Type 0} (c : Context) (m : Machine V W) (k : ℕ → Builder A)
      (Q : A → Context → Type 0) (s : Sim fpu stack w0 fr c m) where
    -- What follows a node of value `v`.
    abbrev Rest : V → Type 0
    Rest v =
        (c' : Context) (i : ℕ)
        → Grows fpu stack w0 c c'
        → Sim fpu stack w0 fr c' m
        → Holds fpu stack w0 c' i v
        → Runs fpu stack w0 fr m (k i c') Q

    fp_size_rule :
        (z : Size) (o : Operand)
        → Rest (fpu.load (fp_format z) o m.world)
        → Runs fpu stack w0 fr m
            (bind_result (bind_result (or_fail (fp_load_op z) c) (λ op. add_leaf op (mem o))) k)
            Q
    unfolding value is_effect
    fp_size_rule s32 o rest = leaf_rule fpu stack w0 fr c m k Q load_f32 (mem o) refl s rest
    fp_size_rule s64 o rest = leaf_rule fpu stack w0 fr c m k Q load_f64 (mem o) refl s rest
    fp_size_rule _ o rest = s

    int_size_rule :
        (z : Size) (o : Operand)
        → Rest (fpu.load (int_format z) o m.world)
        → Runs fpu stack w0 fr m
            (bind_result (bind_result (or_fail (int_load_op z) c) (λ op. add_leaf op (mem o))) k)
            Q
    unfolding value is_effect
    int_size_rule s16 o rest = leaf_rule fpu stack w0 fr c m k Q load_i16 (mem o) refl s rest
    int_size_rule s32 o rest = leaf_rule fpu stack w0 fr c m k Q load_i32 (mem o) refl s rest
    int_size_rule s64 o rest = leaf_rule fpu stack w0 fr c m k Q load_i64 (mem o) refl s rest
    int_size_rule _ o rest = s

    pub fp_load_rule :
        (o : Operand)
        → Rest (fpu.load (fp_format o.size) o m.world)
        → Runs fpu stack w0 fr m (bind_result (build_fp_load o c) k) Q
    unfolding build_fp_load
    fp_load_rule o rest = fp_size_rule o.size o rest

    pub int_load_rule :
        (o : Operand)
        → Rest (fpu.load (int_format o.size) o m.world)
        → Runs fpu stack w0 fr m (bind_result (build_int_load o c) k) Q
    unfolding build_int_load
    int_load_rule o rest = int_size_rule o.size o rest

    -- Two nodes combined, in the order given or reversed.
    binary_order_rule :
        (op : Op) (reversed : Bool) (a b : ℕ) (x y : V)
        → is_effect op ≡ false
        → Holds fpu stack w0 c a x
        → Holds fpu stack w0 c b y
        → Rest (order reversed (λ u v. value fpu stack op (imm 0) m.world u v fpu.zero) x y)
        → Runs fpu stack w0 fr m (bind_result (add_binary op reversed a b c) k) Q
    binary_order_rule op true a b x y e h h' rest =
        binary_rule fpu stack w0 fr c m k Q op (imm 0) b a y x e s h' h rest
    binary_order_rule op false a b x y e h h' rest =
        binary_rule fpu stack w0 fr c m k Q op (imm 0) a b x y e s h h' rest

  abbrev combined : Op → Bool → Machine V W → V → V → V
  combined op reversed m = order reversed (λ u v. value fpu stack op (imm 0) m.world u v fpu.zero)

  pub build_arith-Takes :
      (op : Op) (reversed : Bool) (ins : Instr) (c : Context) (m : Machine V W)
      → is_effect op ≡ false
      → Sim fpu stack w0 fr c m
      → Takes m (build_arith ins op reversed c) (
          if is_register ins.operand0.kind
          then set_st fpu
              (index_of ins.operand0)
              (combined op reversed m (m.st (index_of ins.operand0)) (m.st (index_of ins.operand1)))
              m
          else set_st fpu 0
              (combined op reversed m
                (m.st 0)
                (fpu.load (fp_format ins.operand0.size) ins.operand0 m.world))
              m)
  unfolding build_arith
  build_arith-Takes op reversed ins c m e s = elim (Bool-cases (is_register ins.operand0.kind)) [
    | inl r ↦ rw r (
        resolve_both_rule fpu stack w0 fr m _ c _ (index_of ins.operand0) (index_of ins.operand1) s
          λ c1 a b s1 h h'. binary_order_rule c1 m _ _ s1 op reversed a b _ _ e h h' λ c2 i g s2 h2.
            set_slot-Sim fpu stack w0 fr c2 m (index_of ins.operand0) (pos i) _ h2 s2)
    | inr r ↦ rw r (
        resolve_rule fpu stack w0 fr c m _ _ 0 s λ c1 a g1 s1 h1.
          fp_load_rule c1 m _ _ s1 ins.operand0 λ c2 b g2 s2 h2.
            binary_order_rule c2 m _ _ s2 op reversed a b _ _ e (g2 a _ h1) h2
              λ c3 i g3 s3 h3. set_slot-Sim fpu stack w0 fr c3 m 0 (pos i) _ h3 s3)
  ]

  pub build_arithp-Takes :
      (op : Op) (reversed : Bool) (ins : Instr) (c : Context) (m : Machine V W)
      → is_effect op ≡ false
      → Sim fpu stack w0 fr c m
      → Takes m (build_arithp ins op reversed c) (
          pop_st fpu (
            set_st fpu
              (index_of ins.operand0)
              (combined op reversed m (m.st (index_of ins.operand0)) (m.st 0))
              m))
  unfolding build_arithp
  build_arithp-Takes op reversed ins c m e s =
      resolve_both_rule fpu stack w0 fr m _ c _ (index_of ins.operand0) 0 s λ c1 a b s1 h h'.
        binary_order_rule c1 m _ _ s1 op reversed a b _ _ e h h' λ c2 i g s2 h2.
          pop-Sim fpu stack w0 fr _ _
            (set_slot-Sim fpu stack w0 fr c2 m (index_of ins.operand0) (pos i) _ h2 s2)

  pub build_int_arith-Takes :
      (op : Op) (reversed : Bool) (ins : Instr) (c : Context) (m : Machine V W)
      → is_effect op ≡ false
      → Sim fpu stack w0 fr c m
      → Takes m (build_int_arith ins op reversed c) (
          set_st fpu 0
            (combined op reversed m
              (m.st 0)
              (fpu.load (int_format ins.operand0.size) ins.operand0 m.world))
            m)
  unfolding build_int_arith
  build_int_arith-Takes op reversed ins c m e s =
      resolve_rule fpu stack w0 fr c m _ _ 0 s λ c1 a g1 s1 h1.
        int_load_rule c1 m _ _ s1 ins.operand0 λ c2 b g2 s2 h2.
          binary_order_rule c2 m _ _ s2 op reversed a b _ _ e (g2 a _ h1) h2
            λ c3 i g3 s3 h3. set_slot-Sim fpu stack w0 fr c3 m 0 (pos i) _ h3 s3

  pub push_leaf-Takes :
      (op : Op) (p : Payload) (c : Context) (m : Machine V W)
      → is_effect op ≡ false
      → Sim fpu stack w0 fr c m
      → Takes m
          (push_leaf op p c)
          (push_st fpu (value fpu stack op p m.world fpu.zero fpu.zero fpu.zero) m)
  unfolding push_leaf
  push_leaf-Takes op p c m e s =
      leaf_rule fpu stack w0 fr c m _ _ op p e s
        λ c1 i g1 s1 h1. push-Sim fpu stack w0 fr c1 m i _ h1 s1

  pub push_const-Takes :
      (bits : ℕ) (c : Context) (m : Machine V W)
      → Sim fpu stack w0 fr c m
      → Takes m (push_const bits c) (push_st fpu (fpu.of_bits bits) m)
  unfolding push_const build_const value is_effect
  push_const-Takes bits c m s =
      leaf_rule fpu stack w0 fr c m _ _ const_f64 (imm bits) refl s
        λ c1 i g1 s1 h1. push-Sim fpu stack w0 fr c1 m i _ h1 s1

  pub build_fld-Takes :
      (ins : Instr) (c : Context) (m : Machine V W)
      → Sim fpu stack w0 fr c m
      → Takes m (build_fld ins c) (exec_fld fpu ins m)
  unfolding build_fld
  build_fld-Takes ins c m s = elim (Bool-cases (is_register ins.operand0.kind)) [
    | inl r ↦ rw r (
        resolve_rule fpu stack w0 fr c m _ _ (index_of ins.operand1) s
          λ c1 i g1 s1 h1. push-Sim fpu stack w0 fr c1 m i _ h1 s1)
    | inr r ↦ rw r (
        fp_load_rule c m _ _ s ins.operand0
          λ c1 i g1 s1 h1. push-Sim fpu stack w0 fr c1 m i _ h1 s1)
  ]

  pub build_fild-Takes :
      (ins : Instr) (c : Context) (m : Machine V W)
      → Sim fpu stack w0 fr c m
      → Takes m
          (build_fild ins c)
          (push_st fpu (fpu.load (int_format ins.operand0.size) ins.operand0 m.world) m)
  unfolding build_fild
  build_fild-Takes ins c m s =
      int_load_rule c m _ _ s ins.operand0 λ c1 i g1 s1 h1. push-Sim fpu stack w0 fr c1 m i _ h1 s1

  pub build_fsincos-Takes :
      (c : Context) (m : Machine V W)
      → Sim fpu stack w0 fr c m
      → Takes m
          (build_fsincos c)
          (push_st fpu (fpu.cosine (m.st 0)) (set_st fpu 0 (fpu.sine (m.st 0)) m))
  unfolding build_fsincos value is_effect
  build_fsincos-Takes c m s = resolve_rule fpu stack w0 fr c m _ _ 0 s λ c1 a g1 s1 h1.
      unary_rule fpu stack w0 fr c1 m _ _ f_sin (imm 0) a (m.st 0) refl s1 h1 λ c2 i g2 s2 h2.
        unary_rule fpu stack w0 fr c2 m _ _ f_cos (imm 0) a (m.st 0) refl s2 (g2 a _ h1)
          λ c3 j g3 s3 h3.
            push-Sim fpu stack w0 fr (set_slot 0 (pos i) c3) _ j _ h3
              (set_slot-Sim fpu stack w0 fr c3 m 0 (pos i) _ (g3 i _ h2) s3)

  pub build_fptan-Takes :
      (c : Context) (m : Machine V W)
      → Sim fpu stack w0 fr c m
      → Takes m (build_fptan c) (push_st fpu fpu.one (set_st fpu 0 (fpu.tangent (m.st 0)) m))
  unfolding build_fptan value is_effect
  build_fptan-Takes c m s = resolve_rule fpu stack w0 fr c m _ _ 0 s λ c1 a g1 s1 h1.
      unary_rule fpu stack w0 fr c1 m _ _ f_ptan (imm 0) a (m.st 0) refl s1 h1 λ c2 i g2 s2 h2.
        leaf_rule fpu stack w0 fr c2 m _ _ const_one (imm 0) refl s2 λ c3 j g3 s3 h3.
          push-Sim fpu stack w0 fr (set_slot 0 (pos i) c3) _ j _ h3
            (set_slot-Sim fpu stack w0 fr c3 m 0 (pos i) _ (g3 i _ h2) s3)

  pub build_two_pop-Takes :
      (op : Op) (c : Context) (m : Machine V W)
      → is_effect op ≡ false
      → Sim fpu stack w0 fr c m
      → Takes m (build_two_pop op c) (
          pop_st fpu
            (set_st fpu 1 (value fpu stack op (imm 0) m.world (m.st 1) (m.st 0) fpu.zero) m))
  unfolding build_two_pop
  build_two_pop-Takes op c m e s = resolve_both_rule fpu stack w0 fr m _ c _ 0 1 s λ c1 a b s1 h h'.
      binary_rule fpu stack w0 fr c1 m _ _ op (imm 0) b a _ _ e s1 h' h λ c2 i g s2 h2.
        pop-Sim fpu stack w0 fr _ _ (set_slot-Sim fpu stack w0 fr c2 m 1 (pos i) _ h2 s2)

  pub build_fscale-Takes :
      (c : Context) (m : Machine V W)
      → Sim fpu stack w0 fr c m
      → Takes m (build_fscale c) (set_st fpu 0 (fpu.scale (m.st 0) (m.st 1)) m)
  unfolding build_fscale value is_effect
  build_fscale-Takes c m s = resolve_both_rule fpu stack w0 fr m _ c _ 0 1 s λ c1 a b s1 h h'.
      binary_rule fpu stack w0 fr c1 m _ _ f_scale (imm 0) a b _ _ refl s1 h h'
        λ c2 i g s2 h2. set_slot-Sim fpu stack w0 fr c2 m 0 (pos i) _ h2 s2

  pub build_fcmov-Takes :
      (ins : Instr) (cond : ℕ) (c : Context) (m : Machine V W)
      → Sim fpu stack w0 fr c m
      → Takes m (build_fcmov ins cond c) (exec_fcmov fpu ins cond m)
  unfolding build_fcmov value is_effect
  build_fcmov-Takes ins cond c m s = seen c.last_fcomi
    where
      move : Builder (Unit {0})
      move = do
        st0 ← resolve_id 0
        src ← resolve_id (index_of ins.operand1)
        id ← add_node f_c_sel (pos st0) (pos src) none_id (imm cond)
        modify (set_slot 0 (pos id))

      seen :
          (x : ℤ)
          → Takes m
              (bind_result {A = Unit {0}}
                (elim x [ pos _ ↦ (c, some tt) | negsuc _ ↦ (c, none) ])
                (λ _. move))
              (exec_fcmov fpu ins cond m)
      seen (negsuc _) = s
      seen (pos _) = resolve_rule fpu stack w0 fr c m _ _ 0 s λ c1 a g1 s1 h1.
          resolve_rule fpu stack w0 fr c1 m _ _ (index_of ins.operand1) s1 λ c2 b g2 s2 h2.
            binary_rule fpu stack w0 fr c2 m _ _ f_c_sel (imm cond) a b _ _ refl s2 (g2 a _ h1) h2
              λ c3 i g3 s3 h3. set_slot-Sim fpu stack w0 fr c3 m 0 (pos i) _ h3 s3
