-- ===== src/Optimize/Contraction.antt =====
-- Contraction, as a language lets a compiler do it: a sum or a difference of a product may be rounded
-- once instead of twice. X87IROptimize.cpp: pass_fma does it to the numbers of a run.
use x87sidecar.Common.{ℕ, ◌≡◌, true, false, List, [], ◌∷◌, get_elem?, pos, some}
use x87sidecar.Ir.{Op, f_add, f_sub, f_mul, Node, is_dead}
use x87sidecar.Semantics.Fpu.{Fpu}
use x87sidecar.Semantics.Eval.{Env, ref, eval_node, bind_value}
use x87sidecar.Optimize.Fma.{Side, first, second, is_sum, product_of, addend_of}

module _ (fpu : Fpu) (stack : ℕ → fpu.V) where
  open fpu use {V, W}

  -- The sum or difference of `a * b` and `c`, rounded once; the product stands on the given side.
  abbrev pub round_once : Op → Side → W → V → V → V → V
  round_once f_add side w a b c = fpu.fused_add w a b c
  round_once f_sub first w a b c = fpu.fused_neg_sub w a b c
  round_once f_sub second w a b c = fpu.fused_sub w a b c
  round_once _ side w a b c = fpu.zero

  -- `Contraction all e ns e'`: the nodes `ns`, a part of `all`, are carried out from `e` to `e'`. Each
  -- is carried out as it stands, or, where it is a live sum or difference of a live product `mul`,
  -- may be rounded once, in the state at the sum.
  pub data Contraction (all : List Node) : Env V W → List Node → Env V W → Type 0 where
    done : (e : Env V W) → Contraction all e [] e
    plain :
        (e e' : Env V W) (x : Node) (xs : List Node)
        → Contraction all (eval_node fpu stack e x) xs e'
        → Contraction all e (x ∷ xs) e'
    contracted :
        (e e' : Env V W) (x : Node) (xs : List Node) (side : Side) (k : ℕ) (mul : Node)
        → is_dead x ≡ false
        → is_sum x.op ≡ true
        → product_of side x ≡ pos k
        → get_elem? all k ≡ some mul
        → is_dead mul ≡ false
        → mul.op ≡ f_mul
        → Contraction all
            (bind_value fpu stack
              (round_once x.op side e.world
                (ref fpu stack e.vals mul.in0)
                (ref fpu stack e.vals mul.in1)
                (ref fpu stack e.vals (addend_of side x)))
              e)
            xs
            e'
        → Contraction all e (x ∷ xs) e'
