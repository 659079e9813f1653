-- ===== src/Optimize/FmaRefines.antt =====
-- X87IROptimize.cpp: pass_fma, the nodes after it against a contraction of the nodes before it.
use x87sidecar.Common.{
  subst, ℕ, suc, ◌+◌, ◌≤◌, ◌<◌, ◌≡◌, refl, sym, ap, ◌∙◌, pos, true, false, List, [], ◌∷◌, length,
  get_elem?, some, arith,
}
use x87sidecar.Ir.{Op, f_mul, Node, is_dead}
use x87sidecar.Ir.Context.{Context, num_nodes}
use x87sidecar.Semantics.Fpu.{Fpu}
use x87sidecar.Semantics.Eval.{Env, is_effect, eval_node, run, start, count-eval_node}
use x87sidecar.Optimize.Uses.{Counts, in_uses, live_uses, live_uses-le, count_slots-hit}
use x87sidecar.Optimize.Same.{Same, ref-Same, kept-Same, killed-Same}
use x87sidecar.Optimize.Fma.{Side, is_sum, product_of, addend_of, contract, pass_fma}
use x87sidecar.Optimize.FmaSound.{Turned, kept, killed, fused}
use x87sidecar.Optimize.FmaLoop.{fma_uses, pass_fma-Turned}
use x87sidecar.Optimize.Contraction.{Contraction, done, plain, contracted}
use x87sidecar.Optimize.FmaValues.{fma_op-round_once, bind_value-Same, fma_no_effect}

fmul_no_effect : (op : Op) → op ≡ f_mul → is_effect op ≡ false
unfolding is_effect
fmul_no_effect op e = ap is_effect e

module _ (fpu : Fpu) (stack : ℕ → fpu.V) where
  open fpu use {V, W}

  -- One node of a contraction, against node `y` after the pass.
  record OneStep (all : List Node) (total : Counts) (e e' : Env V W) (x y : Node) : Type 0 where
    next : Env V W
    counted : next.count ≡ suc e.count
    allowed :
        (xs : List Node) (last : Env V W)
        → Contraction fpu stack all next xs last
        → Contraction fpu stack all e (x ∷ xs) last
    same : Same fpu stack total next (eval_node fpu stack e' y)

  plain-OneStep :
      (all : List Node) (total : Counts) (e e' : Env V W) (x y : Node)
      → Same fpu stack total (eval_node fpu stack e x) (eval_node fpu stack e' y)
      → OneStep all total e e' x y
  plain-OneStep all total e e' x y s = record {
    next = eval_node fpu stack e x;
    counted = count-eval_node fpu stack e x;
    allowed = λ xs last r. plain e last x xs r;
    same = s;
  }

  fused-OneStep :
      (all : List Node) (total : Counts) (e e' : Env V W) (x mul : Node) (side : Side) (k : ℕ)
      → Same fpu stack total e e'
      → get_elem? all k ≡ some mul
      → is_dead mul ≡ false
      → mul.op ≡ f_mul
      → is_dead x ≡ false
      → is_sum x.op ≡ true
      → product_of side x ≡ pos k
      → ((j : ℕ) → live_uses (contract side x mul) j ≤ total j)
      → OneStep all total e e' x (contract side x mul)
  fused-OneStep all total e e' x mul side k s at live_m op live_x sum at_k u =
      let y = contract side x mul in
      let used : (j : ℕ) → in_uses y j ≤ total j = λ j. ground (arith, u j, live_x) in
      let a = ref-Same fpu stack total e e' s mul.in0 (λ j. omega (arith, used j)) in
      let b = ref-Same fpu stack total e e' s mul.in1 (λ j. omega (arith, used j)) in
      let c = ref-Same fpu stack total e e' s (addend_of side x) (λ j. omega (arith, used j)) in
      record {
        next = _;
        counted = refl;
        allowed = λ xs last r. contracted e last x xs side k mul live_x sum at_k at live_m op r;
        same =
            bind_value-Same fpu stack total e e' _ y s live_x (fma_no_effect fpu stack x.op side) (
              fma_op-round_once fpu stack x.op side x.payload e'.world _ _ _ sum
              ∙ rw (s.worlds, a, b, c) refl);
      }

  step-Turned :
      (all : List Node) (total : Counts) (e e' : Env V W) (x y : Node)
      → Same fpu stack total e e'
      → Turned all total e.count x y
      → ((j : ℕ) → live_uses y j ≤ total j)
      → OneStep all total e e' x y
  step-Turned all total e e' x y s (kept q) u =
      rw (sym q) (plain-OneStep all total e e' y y (kept-Same fpu stack total e e' s y u))
  step-Turned all total e e' x y s (killed q d m z) u =
      plain-OneStep all total e e' x y
        (rw q (killed-Same fpu stack total e e' s x d (fmul_no_effect x.op m) z))
  step-Turned all total e e' x y s (fused side k mul am lm om lx sum pk q) u = rw q (
      fused-OneStep all total e e' x mul side k s am lm om lx sum pk
        (subst (λ (n : Node). (j : ℕ) → live_uses n j ≤ total j) q u))

  run-Turned :
      (all : List Node) (total : Counts) (xs ys : List Node) (e e' : Env V W)
      → Same fpu stack total e e'
      → length xs ≡ length ys
      → ((i : ℕ) (x y : Node)
          → get_elem? xs i ≡ some x
          → get_elem? ys i ≡ some y
          → Turned all total (e.count + i) x y)
      → ((i : ℕ) (y : Node) → get_elem? ys i ≡ some y → (j : ℕ) → live_uses y j ≤ total j)
      → (last : Env V W) × Contraction fpu stack all e xs last
        × Same fpu stack total last (run fpu stack e' ys)
  unfolding run
  run-Turned all total [] [] e e' s l t u = (e, done e, s)
  run-Turned all total [] (y ∷ ys) e e' s l t u = absurd (omega arith)
  run-Turned all total (x ∷ xs) [] e e' s l t u = absurd (omega arith)
  run-Turned all total (x ∷ xs) (y ∷ ys) e e' s l t u =
      let z : e.count + 0 ≡ e.count = omega arith in
      let turned : Turned all total e.count x y = rw z at (t 0 x y refl refl) in
      let p = step-Turned all total e e' x y s turned (u 0 y refl) in
      let next : (i : ℕ) → p.next.count + i ≡ e.count + suc i = λ i. omega (arith, p.counted) in
      let (last, c, r) =
        run-Turned all total xs ys p.next (eval_node fpu stack e' y) p.same (omega arith)
          (λ i x' y' fx fy. rw (next i) (t (suc i) x' y' fx fy)) (λ i. u (suc i)) in
      (last, p.allowed xs last c, r)

-- Contraction, on any nodes and any unit: what the nodes that pass_fma leaves give is what some
-- contraction of the nodes before it gives. Both end in the same state, and every stack slot that
-- holds a node is left with the same value.
pub pass_fma-Contraction :
    (fpu : Fpu) (stack : ℕ → fpu.V) (w0 : fpu.W) (c : Context)
    → let after = run fpu stack (start fpu stack w0) (pass_fma c).nodes in
      (last : Env fpu.V fpu.W) × Contraction fpu stack c.nodes (start fpu stack w0) c.nodes last
      × (last.world ≡ after.world)
      × ((d i : ℕ) → d < 8 → c.slot_val d ≡ pos i → i < num_nodes c → last.vals i ≡ after.vals i)
unfolding start
pass_fma-Contraction fpu stack w0 c =
    let (l, t) = pass_fma-Turned c in
    let z : (i : ℕ) → 0 + i ≡ i = λ i. omega arith in
    let (last, p, s) =
      run-Turned fpu stack c.nodes (fma_uses c) c.nodes (pass_fma c).nodes (start fpu stack w0)
        (start fpu stack w0) (record { counts = refl; worlds = refl; values = λ j u. refl }) l
        (λ i x y fx fy. rw (z i) (t i x y fx fy))
        (λ i y f j. omega (arith, live_uses-le (pass_fma c).nodes i y j f)) in
    (
      last,
      p,
      s.worlds,
      λ d i h e b.
          let z0 : 0 + d ≡ d = omega arith in
          s.values i (
            omega (arith, count_slots-hit 8 0 d c.slot_val (num_nodes c) i (λ j. 0) (rw z0 e) h b)),
    )
