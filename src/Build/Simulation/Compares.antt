-- ===== src/Build/Simulation/Compares.antt =====
-- The builders of compares, tests and of FStsw.
use x87sidecar.Common.{ℕ, zero, suc, ◌<◌, refl, pos, inl, inr, Bool, true, false, Bool-cases}
use x87sidecar.Instr.{Instr, is_register, index_of}
use x87sidecar.Ir.{f_cmp, f_tst, f_com_i, f_stsw, imm, no_flags}
use x87sidecar.Ir.Ordered.{Frame}
use x87sidecar.Ir.Context.{Context, num_nodes, none_id, new_node, pop}
use x87sidecar.Build.Monad.{Builder, bind_result, add_node}
use x87sidecar.Build.Parts.{
  add_flagged, pops, fcom_rhs, build_fcom, build_ficom, build_fcomi, set_last_fcmp,
}
use x87sidecar.Build.Dispatch.{build_ftst, add_fstsw, build_fstsw}
use x87sidecar.Semantics.Fpu.{Fpu}
use x87sidecar.Semantics.Machine.{
  Machine, int_format, pop_st, pop_st_if, set_world, comparand, exec_compare, exec_fcomi,
}
use x87sidecar.Semantics.Eval.{is_effect, effect}
use x87sidecar.Build.Simulation.Relation.{Holds, Sim, Grows, pop-Sim}
use x87sidecar.Build.Simulation.Steps.{Runs, resolve_rule, effect_rule}
use x87sidecar.Build.Simulation.Instructions.{Takes, fp_load_rule, int_load_rule}
use x87sidecar.Build.Simulation.Stores.{pop_if-Sim}

module _ (fpu : Fpu) (stack : ℕ → fpu.V) (w0 : fpu.W) (fr : Frame) where
  open fpu use {V, W}

  pub last_fcmp-Sim :
      (i : ℕ) (c : Context) (m : Machine V W)
      → i < num_nodes c
      → Sim fpu stack w0 fr c m
      → Sim fpu stack w0 fr (set_last_fcmp i c) m
  last_fcmp-Sim i c m l s = record {
    world = s.world;
    top = s.top;
    slots = s.slots;
    initial = s.initial;
    shape = record {
      grown = s.shape.grown;
      bounded = s.shape.bounded;
      ordered = s.shape.ordered;
      compared = l;
      kept_consumed = s.shape.kept_consumed;
      kept_src = s.shape.kept_src;
    };
  }

  -- FCmp of two known values, and what follows it.
  compare_rule :
      (c : Context) (m m' : Machine V W) (k : ℕ → Builder (Unit {0})) (a b : ℕ) (y : V)
      → Sim fpu stack w0 fr c m
      → Holds fpu stack w0 c a (m.st 0)
      → Holds fpu stack w0 c b y
      → ((i : ℕ) (c' : Context)
          → i < num_nodes c'
          → Sim fpu stack w0 fr c' (exec_compare fpu y m)
          → Takes fpu stack w0 fr m (k i c') m')
      → Takes fpu stack w0 fr m
          (bind_result (add_node f_cmp (pos a) (pos b) none_id (imm 0) c) k)
          m'
  unfolding effect is_effect add_node
  compare_rule c m m' k a b y s h h' rest =
      effect_rule fpu stack w0 fr c m k _ (new_node f_cmp (pos a) (pos b) none_id (imm 0))
        (h.0, λ q. (h'.0, tt)) refl refl s (rw (s.world, h.1, h'.1) (λ i l t. rest i _ l t))

  abbrev pop_st_times : ℕ → Machine V W → Machine V W
  pop_st_times zero m = m
  pop_st_times (suc n) m = pop_st_times n (pop_st fpu m)

  pops-Sim :
      (n : ℕ) (c : Context) (m : Machine V W)
      → Sim fpu stack w0 fr c m
      → Sim fpu stack w0 fr (pops n c) (pop_st_times n m)
  pops-Sim zero c m s = s
  pops-Sim (suc n) c m s = pops-Sim n (pop c) (pop_st fpu m) (pop-Sim fpu stack w0 fr c m s)

  abbrev fcom_value : Instr → Bool → Machine V W → V
  fcom_value ins true m = m.st 1
  fcom_value ins false m = comparand fpu ins m

  fcom_rhs_rule :
      (ins : Instr) (pp : Bool) (c : Context) (m : Machine V W) (k : ℕ → Builder (Unit {0}))
      (Q : Unit {0} → Context → Type 0)
      → Sim fpu stack w0 fr c m
      → ((c' : Context) (i : ℕ)
          → Grows fpu stack w0 c c'
          → Sim fpu stack w0 fr c' m
          → Holds fpu stack w0 c' i (fcom_value ins pp m)
          → Runs fpu stack w0 fr m (k i c') Q)
      → Runs fpu stack w0 fr m (bind_result (fcom_rhs ins pp c) k) Q
  unfolding fcom_rhs
  fcom_rhs_rule ins true c m k Q s rest = resolve_rule fpu stack w0 fr c m k Q 1 s rest
  fcom_rhs_rule ins false c m k Q s rest = elim (Bool-cases (is_register ins.operand1.kind)) [
    | inl r ↦
        rw (r, fcom_rhs)
          (resolve_rule fpu stack w0 fr c m k Q (index_of ins.operand1) s (rw r at rest))
    | inr r ↦ rw (r, fcom_rhs) (fp_load_rule fpu stack w0 fr c m k Q s ins.operand1 (rw r at rest))
  ]

  pub build_fcom-Takes :
      (ins : Instr) (n : ℕ) (pp : Bool) (c : Context) (m : Machine V W)
      → Sim fpu stack w0 fr c m
      → Takes fpu stack w0 fr m
          (build_fcom ins n pp c)
          (pop_st_times n (exec_compare fpu (fcom_value ins pp m) m))
  unfolding build_fcom
  build_fcom-Takes ins n pp c m s = resolve_rule fpu stack w0 fr c m _ _ 0 s λ c1 a g1 s1 h1.
      fcom_rhs_rule ins pp c1 m _ _ s1 λ c2 b g2 s2 h2.
        compare_rule c2 m _ _ a b _ s2 (g2 a _ h1) h2
          λ i c3 l s3. pops-Sim n _ _ (last_fcmp-Sim i c3 _ l s3)

  pub build_ficom-Takes :
      (ins : Instr) (is_pop : Bool) (c : Context) (m : Machine V W)
      → Sim fpu stack w0 fr c m
      → Takes fpu stack w0 fr m (build_ficom ins is_pop c) (
          pop_st_if fpu is_pop
            (exec_compare fpu (fpu.load (int_format ins.operand0.size) ins.operand0 m.world) m))
  unfolding build_ficom
  build_ficom-Takes ins is_pop c m s = resolve_rule fpu stack w0 fr c m _ _ 0 s λ c1 a g1 s1 h1.
      int_load_rule fpu stack w0 fr c1 m _ _ s1 ins.operand0 λ c2 b g2 s2 h2.
        compare_rule c2 m _ _ a b _ s2 (g2 a _ h1) h2
          λ i c3 l s3. pop_if-Sim fpu stack w0 fr is_pop _ _ (last_fcmp-Sim i c3 _ l s3)

  last_fcomi-Sim :
      (i : ℕ) (c : Context) (m : Machine V W)
      → Sim fpu stack w0 fr c m
      → Sim fpu stack w0 fr (record c { last_fcomi = pos i }) m
  last_fcomi-Sim i c m s = record {
    world = s.world;
    top = s.top;
    slots = s.slots;
    initial = s.initial;
    shape = s.shape;
  }

  pub build_fcomi-Takes :
      (ins : Instr) (is_pop : Bool) (c : Context) (m : Machine V W)
      → Sim fpu stack w0 fr c m
      → Takes fpu stack w0 fr m (build_fcomi ins is_pop c) (exec_fcomi fpu ins is_pop m)
  unfolding build_fcomi add_flagged effect is_effect
  build_fcomi-Takes ins is_pop c m s = resolve_rule fpu stack w0 fr c m _ _ 0 s λ c1 a g1 s1 h1.
      resolve_rule fpu stack w0 fr c1 m _ _ (index_of ins.operand1) s1 λ c2 b g2 s2 h2.
        effect_rule fpu stack w0 fr c2 m _ _
          (record (new_node f_com_i (pos a) (pos b) none_id (imm 0)) {
            flags = record no_flags { fcomi_popping = is_pop };
          })
          ((g2 a _ h1).0, λ q. (h2.0, tt)) refl refl s2
          (rw (s2.world, (g2 a _ h1).1, h2.1)
            (λ i l s3. pop_if-Sim fpu stack w0 fr is_pop _ _ (last_fcomi-Sim i _ _ s3)))

  pub build_ftst-Takes :
      (c : Context) (m : Machine V W)
      → Sim fpu stack w0 fr c m
      → Takes fpu stack w0 fr m (build_ftst c) (set_world fpu (fpu.test_status (m.st 0) m.world) m)
  unfolding build_ftst add_node effect is_effect
  build_ftst-Takes c m s = resolve_rule fpu stack w0 fr c m _ _ 0 s λ c1 a g1 s1 h1.
      effect_rule fpu stack w0 fr c1 m _ _ (new_node f_tst (pos a) none_id none_id (imm 0))
        (h1.0, λ q. (tt, tt)) refl refl s1
        (rw (s1.world, h1.1) (λ i l s2. last_fcmp-Sim i _ _ l s2))

  pub build_fstsw-Takes :
      (ins : Instr) (c : Context) (m : Machine V W)
      → Sim fpu stack w0 fr c m
      → Takes fpu stack w0 fr m
          (build_fstsw ins c)
          (set_world fpu (fpu.store_status (pos (index_of ins.operand0)) m.top m.world) m)
  unfolding build_fstsw add_fstsw effect is_effect
  build_fstsw-Takes ins c m s = elim (Bool-cases (is_register ins.operand0.kind)) [
    | inl r ↦ rw r (
        effect_rule fpu stack w0 fr c m _ _
          (new_node f_stsw c.last_fcmp (pos (index_of ins.operand0)) c.top_delta (imm 0))
          (s.shape.compared, λ q. cc) refl refl s (rw (s.world, s.top) (λ i l s2. s2)))
    | inr r ↦ rw r s
  ]
