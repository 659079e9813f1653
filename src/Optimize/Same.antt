-- ===== src/Optimize/Same.antt =====
-- Two runs of nodes side by side, which agree on the state and on the values that are used.
use x87sidecar.Common.{
  ℕ, suc, ◌≤◌, ◌<◌, ◌≡◌, refl, ap, ℤ, pos, negsuc, inl, inr, false, ◌==◌, Bool-cases, arith,
}
use x87sidecar.Ir.{Node, is_dead}
use x87sidecar.Semantics.Fpu.{Fpu}
use x87sidecar.Semantics.Eval.{Env, is_effect, ref, eval_node}
use x87sidecar.Optimize.Uses.{Counts, hit, in_uses, live_uses}
use x87sidecar.Optimize.Dse.{kill}

module _ (fpu : Fpu) (stack : ℕ → fpu.V) where
  open fpu use {V, W}

  -- Two runs agree on the state and on the values that are used.
  pub record Same (total : Counts) (e e' : Env V W) : Type 0 where
    pub counts : e.count ≡ e'.count
    pub worlds : e.world ≡ e'.world
    pub values : (j : ℕ) → 0 < total j → e.vals j ≡ e'.vals j

  module _ (total : Counts) (e e' : Env V W) (s : Same total e e') where
    pub ref-Same :
        (z : ℤ) → ((j : ℕ) → hit z j ≤ total j) → ref fpu stack e.vals z ≡ ref fpu stack e'.vals z
    ref-Same (pos i) h = s.values i (ground (arith, h i))
    ref-Same (negsuc _) h = refl

    -- The same node, whose inputs are all used, is carried out alike.
    pub kept-Same :
        (n : Node)
        → ((j : ℕ) → live_uses n j ≤ total j)
        → Same total (eval_node fpu stack e n) (eval_node fpu stack e' n)
    unfolding eval_node
    kept-Same n h = elim (Bool-cases (is_dead n)) [
      | inl d ↦ rw d (record { counts = ap suc s.counts; worlds = s.worlds; values = s.values })
      | inr d ↦
          let u : (j : ℕ) → in_uses n j ≤ total j = λ j. ground (arith, h j) in
          let a = ref-Same n.in0 (λ j. omega (arith, u j)) in
          let b = ref-Same n.in1 (λ j. omega (arith, u j)) in
          let c = ref-Same n.in2 (λ j. omega (arith, u j)) in
          elim (Bool-cases (is_effect n.op)) [
            | inl f ↦
                rw (d, f)
                  (record {
                    counts = ap suc s.counts;
                    worlds = rw (s.worlds, a, b) refl;
                    values = s.values;
                  })
            | inr f ↦
                rw (d, f)
                  (record {
                    counts = ap suc s.counts;
                    worlds = s.worlds;
                    values = λ j t. rw (s.worlds, a, b, c, s.counts, s.values j t) refl;
                  })
          ]
    ]

    -- A value that nothing uses may be left out.
    pub killed-Same :
        (n : Node)
        → is_dead n ≡ false
        → is_effect n.op ≡ false
        → total e.count ≡ 0
        → Same total (eval_node fpu stack e n) (eval_node fpu stack e' (kill n))
    unfolding eval_node
    killed-Same n d f z =
        rw (d, f)
          (record {
            counts = ap suc s.counts;
            worlds = s.worlds;
            values = λ j t. elim (Bool-cases (j == e.count)) [
              | inl q ↦ absurd (
                  let p : j ≡ e.count = ground arith in let r : total j ≡ 0 = rw p z in omega arith)
              | inr q ↦ rw q (s.values j t)
            ];
          })
