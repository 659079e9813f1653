-- ===== src/Build/Simulation/Stores.antt =====
-- The builders of stores to memory and to the stack.
use x87sidecar.Common.{
  ℕ, zero, suc, ◌≡◌, refl, sym, pos, inl, inr, Bool, true, false, if◌then◌else◌, ◌==◌, Bool-cases,
  Option, none, some, arith, subst,
}
use x87sidecar.Instr.{Instr, Operand, Size, s32, s64, s16, is_register, index_of}
use x87sidecar.Ir.{Op, store_f32, store_f64, store_i16, store_i32, store_i64, Node, mem, no_flags}
use x87sidecar.Ir.Ordered.{Frame}
use x87sidecar.Ir.Context.{Context, none_id, new_node}
use x87sidecar.Build.Monad.{Builder, bind_result, or_fail, add_node}
use x87sidecar.Build.Parts.{
  fp_store_op, int_store_op, build_fp_store, build_int_store, add_flagged, pop_if,
}
use x87sidecar.Build.Dispatch.{build_fst, store_or_copy, copy_slot, build_fist}
use x87sidecar.Semantics.Fpu.{Fpu}
use x87sidecar.Semantics.Machine.{
  Machine, fp_format, int_format, set_st, pop_st_if, set_world, exec_fst, exec_fist,
}
use x87sidecar.Semantics.Eval.{is_effect, effect}
use x87sidecar.Build.Simulation.Relation.{Holds, Denotes, Sim, set_slot-Sim, pop-Sim}
use x87sidecar.Build.Simulation.Steps.{Runs, resolve_rule, effect_rule}
use x87sidecar.Build.Simulation.Instructions.{Takes}

module _ (fpu : Fpu) (stack : ℕ → fpu.V) (w0 : fpu.W) (fr : Frame) where
  open fpu use {V, W}

  pub pop_if-Sim :
      (b : Bool) (c : Context) (m : Machine V W)
      → Sim fpu stack w0 fr c m
      → Sim fpu stack w0 fr (pop_if b c) (pop_st_if fpu b m)
  pop_if-Sim true c m s = pop-Sim fpu stack w0 fr c m s
  pop_if-Sim false c m s = s

  -- A store of the value of node `a` through memory operand `o`.
  module _ (c : Context) (m : Machine V W) (a : ℕ) (x : V) (s : Sim fpu stack w0 fr c m)
      (h : Holds fpu stack w0 c a x) (k : ℕ → Builder (Unit {0}))
      (Q : Unit {0} → Context → Type 0) where
    abbrev After : W → Type 0
    After w =
        (i : ℕ) (c' : Context)
        → Sim fpu stack w0 fr c' (set_world fpu w m)
        → Runs fpu stack w0 fr m (k i c') Q

    fp_store_rule :
        (z : Size) (o : Operand)
        → After (fpu.store (fp_format z) false o x m.world)
        → Runs fpu stack w0 fr m
            (bind_result
              (or_fail (fp_store_op z) c)
              (λ op c'. bind_result (add_node op (pos a) none_id none_id (mem o) c') k))
            Q
    unfolding effect is_effect add_node
    fp_store_rule s32 o rest =
        effect_rule fpu stack w0 fr c m k Q (new_node store_f32 (pos a) none_id none_id (mem o))
          (h.0, λ q. (tt, tt)) refl refl s (rw (s.world, h.1) (λ i l t. rest i _ t))
    fp_store_rule s64 o rest =
        effect_rule fpu stack w0 fr c m k Q (new_node store_f64 (pos a) none_id none_id (mem o))
          (h.0, λ q. (tt, tt)) refl refl s (rw (s.world, h.1) (λ i l t. rest i _ t))
    fp_store_rule _ o rest = s

    int_store_node : Bool → Op → Operand → Node
    int_store_node t op o = record (new_node op (pos a) none_id none_id (mem o)) {
      flags = record no_flags { truncate = t };
    }

    int_store_rule :
        (z : Size) (t : Bool) (o : Operand)
        → After (fpu.store (int_format z) t o x m.world)
        → Runs fpu stack w0 fr m
            (bind_result (or_fail (int_store_op z) c) (λ op c'.
              bind_result
                (add_flagged op
                  (record no_flags { truncate = t })
                  (pos a)
                  none_id
                  none_id
                  (mem o)
                  c')
                k))
            Q
    unfolding effect is_effect add_flagged int_store_node
    int_store_rule s16 t o rest =
        effect_rule fpu stack w0 fr c m k Q (int_store_node t store_i16 o) (h.0, λ q. (tt, tt)) refl
          refl s (rw (s.world, h.1) (λ i l u. rest i _ u))
    int_store_rule s32 t o rest =
        effect_rule fpu stack w0 fr c m k Q (int_store_node t store_i32 o) (h.0, λ q. (tt, tt)) refl
          refl s (rw (s.world, h.1) (λ i l u. rest i _ u))
    int_store_rule s64 t o rest =
        effect_rule fpu stack w0 fr c m k Q (int_store_node t store_i64 o) (h.0, λ q. (tt, tt)) refl
          refl s (rw (s.world, h.1) (λ i l u. rest i _ u))
    int_store_rule _ t o rest = s

  -- The rule for a builder of known outcome and what follows it.
  then_rule :
      (m m' : Machine V W) (r : Context × Option (Unit {0})) (f : Unit {0} → Builder (Unit {0}))
      (m'' : Machine V W)
      → Takes fpu stack w0 fr m r m'
      → ((c' : Context) → Sim fpu stack w0 fr c' m' → Takes fpu stack w0 fr m (f tt c') m'')
      → Takes fpu stack w0 fr m (bind_result r f) m''
  then_rule m m' (c, none) f m'' h rest = h
  then_rule m m' (c, some _) f m'' h rest = rest c h

  build_fp_store-Takes :
      (o : Operand) (c : Context) (m : Machine V W) (a : ℕ) (x : V)
      → Sim fpu stack w0 fr c m
      → Holds fpu stack w0 c a x
      → Takes fpu stack w0 fr m
          (build_fp_store o a c)
          (set_world fpu (fpu.store (fp_format o.size) false o x m.world) m)
  unfolding build_fp_store
  build_fp_store-Takes o c m a x s h = fp_store_rule c m a x s h _ _ o.size o (λ i c' t. t)

  build_int_store-Takes :
      (o : Operand) (t : Bool) (c : Context) (m : Machine V W) (a : ℕ) (x : V)
      → Sim fpu stack w0 fr c m
      → Holds fpu stack w0 c a x
      → Takes fpu stack w0 fr m
          (build_int_store o a t c)
          (set_world fpu (fpu.store (int_format o.size) t o x m.world) m)
  unfolding build_int_store
  build_int_store-Takes o t c m a x s h = int_store_rule c m a x s h _ _ o.size t o (λ i c' u. u)

  copy_slot-Sim :
      (d a : ℕ) (c : Context) (m : Machine V W)
      → Sim fpu stack w0 fr c m
      → Holds fpu stack w0 c a (m.st 0)
      → Sim fpu stack w0 fr (copy_slot d a c) (set_st fpu d (m.st 0) m)
  copy_slot-Sim zero a c m s h = record {
    world = s.world;
    top = s.top;
    slots = λ k b. elim (Bool-cases (k == 0)) [
      | inl e ↦
          let p : k ≡ 0 = ground arith in
          subst
            (λ (n : ℕ). Denotes fpu stack w0 c (c.slot_val n) (if n == 0 then m.st 0 else m.st n))
            (sym p) (s.slots 0 (omega arith))
      | inr e ↦ rw e (s.slots k b)
    ];
    initial = s.initial;
    shape = s.shape;
  }
  copy_slot-Sim (suc d) a c m s h = set_slot-Sim fpu stack w0 fr c m (suc d) (pos a) (m.st 0) h s

  store_or_copy-Takes :
      (ins : Instr) (c : Context) (m : Machine V W) (a : ℕ)
      → Sim fpu stack w0 fr c m
      → Holds fpu stack w0 c a (m.st 0)
      → Takes fpu stack w0 fr m (store_or_copy ins a c) (exec_fst fpu ins false m)
  unfolding store_or_copy
  store_or_copy-Takes ins c m a s h = elim (Bool-cases (is_register ins.operand0.kind)) [
    | inl r ↦ rw r (copy_slot-Sim (index_of ins.operand0) a c m s h)
    | inr r ↦ rw r (build_fp_store-Takes ins.operand0 c m a (m.st 0) s h)
  ]

  pub build_fst-Takes :
      (ins : Instr) (is_pop : Bool) (c : Context) (m : Machine V W)
      → Sim fpu stack w0 fr c m
      → Takes fpu stack w0 fr m (build_fst ins is_pop c) (exec_fst fpu ins is_pop m)
  unfolding build_fst
  build_fst-Takes ins is_pop c m s = resolve_rule fpu stack w0 fr c m _ _ 0 s λ c1 a g1 s1 h1.
      then_rule m (exec_fst fpu ins false m) (store_or_copy ins a c1) _ _
        (store_or_copy-Takes ins c1 m a s1 h1) (λ c2 s2. pop_if-Sim is_pop c2 _ s2)

  pub build_fist-Takes :
      (ins : Instr) (t is_pop : Bool) (c : Context) (m : Machine V W)
      → Sim fpu stack w0 fr c m
      → Takes fpu stack w0 fr m (build_fist ins t is_pop c) (exec_fist fpu ins t is_pop m)
  unfolding build_fist
  build_fist-Takes ins t is_pop c m s = resolve_rule fpu stack w0 fr c m _ _ 0 s λ c1 a g1 s1 h1.
      then_rule m (exec_fist fpu ins t false m) (build_int_store ins.operand0 a t c1) _ _
        (build_int_store-Takes ins.operand0 t c1 m a (m.st 0) s1 h1)
        (λ c2 s2. pop_if-Sim is_pop c2 _ s2)
