-- ===== src/Build/Simulation/Controls.antt =====
-- The builders of control-word moves and of fxch, which moves slots alone.
use x87sidecar.Common.{ℕ, ◌<◌, refl, inl, inr, ◌&&◌, ◌==◌, ltb, Bool-cases, arith}
use x87sidecar.Instr.{Instr}
use x87sidecar.Ir.{store_cw, load_cw, mem}
use x87sidecar.Ir.Ordered.{Frame}
use x87sidecar.Ir.Context.{Context, none_id, new_node}
use x87sidecar.Build.Monad.{add_node}
use x87sidecar.Build.Dispatch.{build_control, build_fxch, force, swap_slots}
use x87sidecar.Semantics.Fpu.{Fpu}
use x87sidecar.Semantics.Machine.{Machine, set_world, exec_fxch}
use x87sidecar.Semantics.Eval.{is_effect, effect}
use x87sidecar.Build.Simulation.Relation.{Sim}
use x87sidecar.Build.Simulation.Steps.{resolve-Resolves, effect_rule}
use x87sidecar.Build.Simulation.Instructions.{Takes}

module _ (fpu : Fpu) (stack : ℕ → fpu.V) (w0 : fpu.W) (fr : Frame) where
  open fpu use {V, W}

  pub fldcw-Takes :
      (ins : Instr) (c : Context) (m : Machine V W)
      → Sim fpu stack w0 fr c m
      → Takes fpu stack w0 fr m
          (build_control store_cw ins c)
          (set_world fpu (fpu.load_control ins.operand0 m.world) m)
  unfolding build_control add_node effect is_effect
  fldcw-Takes ins c m s =
      effect_rule fpu stack w0 fr c m _ _
        (new_node store_cw none_id none_id none_id (mem ins.operand0)) (tt, λ q. (tt, tt)) refl refl
        s (rw s.world (λ i l s2. s2))

  pub fnstcw-Takes :
      (ins : Instr) (c : Context) (m : Machine V W)
      → Sim fpu stack w0 fr c m
      → Takes fpu stack w0 fr m
          (build_control load_cw ins c)
          (set_world fpu (fpu.store_control ins.operand0 m.world) m)
  unfolding build_control add_node effect is_effect
  fnstcw-Takes ins c m s =
      effect_rule fpu stack w0 fr c m _ _
        (new_node load_cw none_id none_id none_id (mem ins.operand0)) (tt, λ q. (tt, tt)) refl refl
        s (rw s.world (λ i l s2. s2))

  force-Sim :
      (d : ℕ) (c : Context) (m : Machine V W)
      → Sim fpu stack w0 fr c m
      → Sim fpu stack w0 fr (force d c) m
  force-Sim d c m s = (resolve-Resolves fpu stack w0 fr c m d s).0

  swap_slots-Sim :
      (d : ℕ) (c : Context) (m : Machine V W)
      → d < 8
      → Sim fpu stack w0 fr c m
      → Sim fpu stack w0 fr (swap_slots d c) (exec_fxch fpu d m)
  swap_slots-Sim d c m b s = record {
    world = s.world;
    top = s.top;
    slots = λ k l. elim (Bool-cases (k == d)) [
      | inl e ↦ rw e (s.slots 0 (omega arith))
      | inr e ↦ elim (Bool-cases (k == 0)) [
        | inl z ↦ rw (e, z) (s.slots d b)
        | inr z ↦ rw (e, z) (s.slots k l)
      ]
    ];
    initial = s.initial;
    shape = s.shape;
  }

  -- Neither result of resolve matters here: a slot that could not be read still stands for its value.
  pub build_fxch-Takes :
      (d : ℕ) (c : Context) (m : Machine V W)
      → Sim fpu stack w0 fr c m
      → Takes fpu stack w0 fr m (build_fxch d c) (exec_fxch fpu d m)
  unfolding build_fxch
  build_fxch-Takes d c m s = elim (Bool-cases (ltb 0 d && ltb d 8)) [
    | inl r ↦ rw r (
        swap_slots-Sim d (force d (force 0 c)) m (ground arith)
          (force-Sim d (force 0 c) m (force-Sim 0 c m s)))
    | inr r ↦ rw r s
  ]
