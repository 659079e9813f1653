-- ===== src/Optimize/FmaValues.antt =====
-- X87IROptimize.cpp: pass_fma, the value of a contracted node.
use x87sidecar.Common.{ℕ, suc, ◌≡◌, refl, sym, ap, inl, inr, true, false, ◌==◌, Bool-cases, arith}
use x87sidecar.Ir.{Op, f_add, f_sub, Node, Payload, is_dead}
use x87sidecar.Semantics.Fpu.{Fpu}
use x87sidecar.Semantics.Eval.{Env, is_effect, value, node_value, bind_value, eval_node}
use x87sidecar.Optimize.Uses.{Counts}
use x87sidecar.Optimize.Same.{Same}
use x87sidecar.Optimize.Fma.{Side, first, second, is_sum, fma_op}
use x87sidecar.Optimize.Contraction.{round_once}

module _ (fpu : Fpu) (stack : ℕ → fpu.V) where
  open fpu use {V, W}

  -- The opcode that pass_fma writes rounds once what the sum rounds twice.
  pub fma_op-round_once :
      (op : Op) (side : Side) (p : Payload) (w : W) (a b c : V)
      → is_sum op ≡ true
      → value fpu stack (fma_op op side) p w a b c ≡ round_once fpu stack op side w a b c
  unfolding value
  fma_op-round_once f_add side p w a b c h = refl
  fma_op-round_once f_sub first p w a b c h = refl
  fma_op-round_once f_sub second p w a b c h = refl
  fma_op-round_once _ side p w a b c h = cc

  -- A live node whose value is the one that the other run binds.
  pub bind_value-Same :
      (total : Counts) (e e' : Env V W) (v : V) (y : Node)
      → Same fpu stack total e e'
      → is_dead y ≡ false
      → is_effect y.op ≡ false
      → node_value fpu stack y e' ≡ v
      → Same fpu stack total (bind_value fpu stack v e) (eval_node fpu stack e' y)
  unfolding eval_node
  bind_value-Same total e e' v y s live no_effect same =
      rw (live, no_effect)
        (record {
          counts = ap suc s.counts;
          worlds = s.worlds;
          values = λ j t. elim (Bool-cases (j == e.count)) [
            | inl q ↦
                let q' : (j == e'.count) ≡ true = ground (arith, s.counts) in rw (q, q') (sym same)
            | inr q ↦
                let q' : (j == e'.count) ≡ false = ground (arith, s.counts) in
                rw (q, q') (s.values j t)
          ];
        })

  pub fma_no_effect : (op : Op) (side : Side) → is_effect (fma_op op side) ≡ false
  unfolding is_effect
  fma_no_effect f_add side = refl
  fma_no_effect f_sub first = refl
  fma_no_effect f_sub second = refl
  fma_no_effect _ first = refl
  fma_no_effect _ second = refl
