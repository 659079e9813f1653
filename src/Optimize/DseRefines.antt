-- ===== src/Optimize/DseRefines.antt =====
-- What pass_dse leaves, carried out: two runs of the nodes, before and after, side by side.
use x87sidecar.Common.{
  ℕ, suc, ◌+◌, ◌≤◌, ◌<◌, ◌≡◌, refl, sym, ◌∙◌, ℤ, pos, negsuc, inl, inr, Bool, List, [], ◌∷◌, length,
  get_elem?, some, arith,
}
use x87sidecar.Ir.{Node}
use x87sidecar.Ir.Context.{Context, num_nodes}
use x87sidecar.Semantics.Fpu.{Fpu}
use x87sidecar.Semantics.Eval.{Env, eval_node, run, start, count-eval_node}
use x87sidecar.Optimize.Uses.{Counts, live_uses, live_uses-le, count_slots-hit}
use x87sidecar.Optimize.Dse.{pass_dse}
use x87sidecar.Optimize.DseSound.{Became, uses_left, pass_dse-nodes}
use x87sidecar.Instr.{Instr}
use x87sidecar.Common.{take}
use x87sidecar.Build.Loop.{build, window}
use x87sidecar.Semantics.Machine.{exec_all}
use x87sidecar.Build.Simulation.{Denotes, final}
use x87sidecar.Build.Simulation.Runs.{before_run}
use x87sidecar.Build.Refinement.{build_refines}
use x87sidecar.Optimize.Same.{Same, kept-Same, killed-Same}

module _ (fpu : Fpu) (stack : ℕ → fpu.V) where
  open fpu use {V, W}

  step-Same :
      (total : Counts) (e e' : Env V W) (x y : Node)
      → Same fpu stack total e e'
      → Became total e.count x y
      → ((j : ℕ) → live_uses y j ≤ total j)
      → Same fpu stack total (eval_node fpu stack e x) (eval_node fpu stack e' y)
  step-Same total e e' x y s (inl p) h = rw p (kept-Same fpu stack total e e' s y h)
  step-Same total e e' x y s (inr (p, d, f, z)) h =
      rw p (killed-Same fpu stack total e e' s x d f z)

  run-Same :
      (total : Counts) (xs ys : List Node) (e e' : Env V W)
      → Same fpu stack total e e'
      → length xs ≡ length ys
      → ((i : ℕ) (x y : Node)
          → get_elem? xs i ≡ some x
          → get_elem? ys i ≡ some y
          → Became total (e.count + i) x y)
      → ((i : ℕ) (y : Node) → get_elem? ys i ≡ some y → (j : ℕ) → live_uses y j ≤ total j)
      → Same fpu stack total (run fpu stack e xs) (run fpu stack e' ys)
  unfolding run
  run-Same total [] [] e e' s l b u = s
  run-Same total [] (y ∷ ys) e e' s l b u = absurd (omega arith)
  run-Same total (x ∷ xs) [] e e' s l b u = absurd (omega arith)
  run-Same total (x ∷ xs) (y ∷ ys) e e' s l b u =
      let z : e.count + 0 ≡ e.count = omega arith in
      let h : Became total e.count x y = rw z at (b 0 x y refl refl) in
      run-Same total xs ys (eval_node fpu stack e x) (eval_node fpu stack e' y)
        (step-Same total e e' x y s h (u 0 y refl)) (omega arith)
        (λ i x' y' fx fy.
          let k : (eval_node fpu stack e x).count + i ≡ e.count + suc i =
            omega (arith, count-eval_node fpu stack e x) in
          rw k (b (suc i) x' y' fx fy))
        (λ i. u (suc i))

  pass_dse-Same :
      (w0 : W) (c : Context)
      → Same fpu stack
          (uses_left c)
          (run fpu stack (start fpu stack w0) c.nodes)
          (run fpu stack (start fpu stack w0) (pass_dse c).nodes)
  unfolding start
  pass_dse-Same w0 c =
      let (l, b) = pass_dse-nodes c in
      run-Same (uses_left c) c.nodes (pass_dse c).nodes (start fpu stack w0) (start fpu stack w0)
        (record { counts = refl; worlds = refl; values = λ j t. refl }) l
        (λ i x y. let z : 0 + i ≡ i = omega arith in rw z (b i x y))
        (λ i y f j. omega (arith, live_uses-le (pass_dse c).nodes i y j f))

-- Dead store elimination, on any nodes whatever: carrying out the nodes that pass_dse leaves gives
-- the state that carrying out all of them gives, and every stack slot that holds a node is left
-- with the value it had.
pub pass_dse_preserves :
    (fpu : Fpu) (stack : ℕ → fpu.V) (w0 : fpu.W) (c : Context)
    → let before = run fpu stack (start fpu stack w0) c.nodes in
      let after = run fpu stack (start fpu stack w0) (pass_dse c).nodes in
      (before.world ≡ after.world)
      × ((d i : ℕ) → d < 8 → c.slot_val d ≡ pos i → i < num_nodes c → before.vals i ≡ after.vals i)
pass_dse_preserves fpu stack w0 c =
    let s = pass_dse-Same fpu stack w0 c in
    (
      s.worlds,
      λ d i h e l.
          let z : 0 + d ≡ d = omega arith in
          s.values i
            (omega (arith, count_slots-hit 8 0 d c.slot_val (num_nodes c) i (λ j. 0) (rw z e) h l)),
    )

-- What build and pass_dse do together, on any run: the nodes that are left give the state of the
-- x87 machine after the consumed instructions, and each slot still stands for the register of that
-- machine at its depth.
pub build_dse_refines :
    (fpu : Fpu) (stack : ℕ → fpu.V) (w0 : fpu.W) (instrs : List Instr) (start_idx run_length : ℕ)
    (allow_bridges bridges_v2 : Bool)
    → let c = pass_dse (build instrs start_idx run_length allow_bridges bridges_v2).0 in
      let m =
        exec_all fpu
          (take c.consumed (window instrs start_idx run_length))
          (before_run fpu stack w0) in
      ((final fpu stack w0 c).world ≡ m.world)
      × (c.top_delta ≡ m.top)
      × ((d : ℕ) → d < 8 → Denotes fpu stack w0 c (c.slot_val d) (m.st d))
unfolding pass_dse
build_dse_refines fpu stack w0 instrs start_idx run_length allow_bridges bridges_v2 =
    let c = (build instrs start_idx run_length allow_bridges bridges_v2).0 in
    let m =
      exec_all fpu (take c.consumed (window instrs start_idx run_length))
        (before_run fpu stack w0) in
    let (world, top, slots) =
      build_refines fpu stack w0 instrs start_idx run_length allow_bridges bridges_v2 in
    let (same_world, same_values) = pass_dse_preserves fpu stack w0 c in
    let (len, _) = pass_dse-nodes c in
    (
      sym same_world ∙ world,
      top,
      λ d h. still fpu stack w0 c (c.slot_val d) (m.st d) len (λ i. same_values d i h) (slots d h),
    )
  where
    still :
        (fpu : Fpu) (stack : ℕ → fpu.V) (w0 : fpu.W) (c : Context) (x : ℤ) (v : fpu.V)
        → length c.nodes ≡ length (pass_dse c).nodes
        → ((i : ℕ)
            → x ≡ pos i
            → i < num_nodes c
            → (final fpu stack w0 c).vals i ≡ (final fpu stack w0 (pass_dse c)).vals i)
        → Denotes fpu stack w0 c x v
        → Denotes fpu stack w0 (pass_dse c) x v
    still fpu stack w0 c (pos i) v len same (l, e) = (omega arith, sym (same i refl l) ∙ e)
    still fpu stack w0 c (negsuc _) v len same h = h
