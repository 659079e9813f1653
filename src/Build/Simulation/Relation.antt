-- ===== src/Build/Simulation/Relation.antt =====
-- The relation between a context and a machine, and what appending, pushing and popping do to it.
use x87sidecar.Common.{
  ℕ, suc, ◌+◌, ◌-◌, ◌<◌, ◌≡◌, sym, ap, ◌∙◌, ℤ, pos, negsuc, inl, inr, true, false, ◌==◌, ltb,
  Bool-cases, [], ◌∷◌, ◌++◌, length-append, arith,
}
use x87sidecar.Ir.{Node, is_dead}
use x87sidecar.Ir.Ordered.{InputsBelow, Frame, Shape, Shape-snoc}
use x87sidecar.Ir.Context.{Context, max_nodes, num_nodes, set_slot, push, pop}
use x87sidecar.Semantics.Fpu.{Fpu}
use x87sidecar.Semantics.Machine.{Machine, set_st, push_st, pop_st}
use x87sidecar.Semantics.Eval.{
  Env, is_effect, node_value, node_effect, eval_node, run, start, run_snoc, count-run,
}

abbrev pub append : Node → Context → Context
append n c = record c { nodes = c.nodes ++ n ∷ [] }

pub num_nodes-append : (c : Context) (n : Node) → num_nodes (append n c) ≡ suc (num_nodes c)
num_nodes-append c n = omega (arith, length-append c.nodes (n ∷ []))

module _ (fpu : Fpu) (stack : ℕ → fpu.V) (w0 : fpu.W) where
  open fpu use {V, W}

  -- The nodes of `c`, carried out.
  abbrev pub final : Context → Env V W
  final c = run fpu stack (start fpu stack w0) c.nodes

  -- Node `i` exists and has the value `v`.
  abbrev pub Holds : Context → ℕ → V → Type 0
  Holds c i v = (i < num_nodes c) × ((final c).vals i ≡ v)

  -- What a symbolic slot stands for. The sentinel of a popped slot stands for anything.
  abbrev pub Denotes : Context → ℤ → V → Type 0
  Denotes c (pos i) v = Holds c i v
  Denotes c (negsuc d) v = d < 8 → stack d ≡ v

  abbrev pub ReadsInitial : Context → ℕ → ℤ → Type 0
  ReadsInitial c d (pos i) = Holds c i (stack d)
  ReadsInitial c d (negsuc _) = Unit

  -- Every value of `c` is still there in `c'`.
  abbrev pub Grows : Context → Context → Type 0
  Grows c c' = (i : ℕ) (v : V) → Holds c i v → Holds c' i v

  pub final-append : (c : Context) (n : Node) → final (append n c) ≡ eval_node fpu stack (final c) n
  final-append c n = run_snoc fpu stack (start fpu stack w0) c.nodes n

  pub count-final : (c : Context) → (final c).count ≡ num_nodes c
  unfolding start
  count-final c = omega (arith, count-run fpu stack (start fpu stack w0) c.nodes)

  vals-eval_node :
      (e : Env V W) (n : Node) (i : ℕ) → i < e.count → (eval_node fpu stack e n).vals i ≡ e.vals i
  unfolding eval_node
  vals-eval_node e n i h = ground arith

  pub append-Grows : (c : Context) (n : Node) → Grows c (append n c)
  append-Grows c n i v (h, e) = (
    omega (arith, num_nodes-append c n),
    ap (λ (x : Env V W). x.vals i) (final-append c n)
        ∙ vals-eval_node (final c) n i (omega (arith, count-final c))
        ∙ e,
  )

  Denotes-Grows : (c c' : Context) → Grows c c' → (x : ℤ) (v : V) → Denotes c x v → Denotes c' x v
  Denotes-Grows c c' g (pos i) v h = g i v h
  Denotes-Grows c c' g (negsuc d) v h = h

  ReadsInitial-Grows :
      (c c' : Context) → Grows c c' → (d : ℕ) (x : ℤ) → ReadsInitial c d x → ReadsInitial c' d x
  ReadsInitial-Grows c c' g d (pos i) h = g i (stack d) h
  ReadsInitial-Grows c c' g d (negsuc _) h = tt

  world-eval_value :
      (e : Env V W) (n : Node)
      → is_dead n ≡ false
      → is_effect n.op ≡ false
      → ((eval_node fpu stack e n).world ≡ e.world)
        × ((eval_node fpu stack e n).vals e.count ≡ node_value fpu stack n e)
  unfolding eval_node
  world-eval_value e n d p = ground arith

  world-eval_effect :
      (e : Env V W) (n : Node)
      → is_dead n ≡ false
      → is_effect n.op ≡ true
      → (eval_node fpu stack e n).world ≡ node_effect fpu stack n e
  unfolding eval_node
  world-eval_effect e n d p = ground arith

module _ (fpu : Fpu) (stack : ℕ → fpu.V) (w0 : fpu.W) (fr : Frame) where
  open fpu use {V, W}

  pub record Sim (c : Context) (m : Machine V W) : Type 0 where
    pub world : (final fpu stack w0 c).world ≡ m.world
    pub top : c.top_delta ≡ m.top
    pub slots : (d : ℕ) → d < 8 → Denotes fpu stack w0 c (c.slot_val d) (m.st d)
    pub initial : (d : ℕ) → ReadsInitial fpu stack w0 c d (c.initial_read d)
    pub shape : Shape fr c.nodes c.last_fcmp c.consumed c.node_src

  -- Appending any node keeps the relation, to the machine whose state is that after the node.
  pub append-Sim :
      (c : Context) (m : Machine V W) (n : Node) (w : W)
      → num_nodes c < max_nodes
      → InputsBelow (num_nodes c) n
      → Sim c m
      → (eval_node fpu stack (final fpu stack w0 c) n).world ≡ w
      → Sim (append n c) (record m { world = w })
  append-Sim c m n w room b s e = record {
    world = ap (λ (x : Env V W). x.world) (final-append fpu stack w0 c n) ∙ e;
    top = s.top;
    slots = λ d h.
        Denotes-Grows fpu stack w0 c (append n c) (append-Grows fpu stack w0 c n) _ _ (s.slots d h);
    initial = λ d.
        ReadsInitial-Grows fpu stack w0 c (append n c) (append-Grows fpu stack w0 c n) d _
          (s.initial d);
    shape = Shape-snoc fr c.nodes c.last_fcmp c.consumed c.node_src n room b s.shape;
  }

  pub append_value :
      (c : Context) (m : Machine V W) (n : Node)
      → num_nodes c < max_nodes
      → InputsBelow (num_nodes c) n
      → is_dead n ≡ false
      → is_effect n.op ≡ false
      → Sim c m
      → Sim (append n c) m
        × Holds fpu stack w0
            (append n c)
            (num_nodes c)
            (node_value fpu stack n (final fpu stack w0 c))
  append_value c m n room b d p s =
      let (w, v) = world-eval_value fpu stack w0 (final fpu stack w0 c) n d p in
      (
        append-Sim c m n m.world room b s (w ∙ s.world),
        (
          omega (arith, num_nodes-append c n),
          ap (λ (x : Env V W). x.vals (num_nodes c)) (final-append fpu stack w0 c n)
              ∙ ap (eval_node fpu stack (final fpu stack w0 c) n).vals
                  (sym (count-final fpu stack w0 c))
              ∙ v,
        ),
      )

  pub append_effect :
      (c : Context) (m : Machine V W) (n : Node)
      → num_nodes c < max_nodes
      → InputsBelow (num_nodes c) n
      → is_dead n ≡ false
      → is_effect n.op ≡ true
      → Sim c m
      → Sim (append n c) (record m { world = node_effect fpu stack n (final fpu stack w0 c) })
  append_effect c m n room b d p s =
      append-Sim c m n (node_effect fpu stack n (final fpu stack w0 c)) room b s
        (world-eval_effect fpu stack w0 (final fpu stack w0 c) n d p)

  pub set_slot-Sim :
      (c : Context) (m : Machine V W) (d : ℕ) (x : ℤ) (v : V)
      → Denotes fpu stack w0 c x v
      → Sim c m
      → Sim (set_slot d x c) (set_st fpu d v m)
  set_slot-Sim c m d x v h s = record {
    world = s.world;
    top = s.top;
    slots = λ k b. elim (Bool-cases (k == d)) [ inl e ↦ rw e h | inr e ↦ rw e (s.slots k b) ];
    initial = s.initial;
    shape = s.shape;
  }

  pub push-Sim :
      (c : Context) (m : Machine V W) (i : ℕ) (v : V)
      → Holds fpu stack w0 c i v
      → Sim c m
      → Sim (push (pos i) c) (push_st fpu v m)
  unfolding push
  push-Sim c m i v h s = record {
    world = s.world;
    top = rw s.top;
    slots = λ k b. elim (Bool-cases (k == 0)) [
      | inl e ↦ rw e h
      | inr e ↦ elim (Bool-cases (ltb k 8)) [
        | inl l ↦ rw (e, l) (s.slots (k - 1) (ground arith))
        | inr l ↦ absurd (ground arith)
      ]
    ];
    initial = s.initial;
    shape = s.shape;
  }

  pub pop-Sim : (c : Context) (m : Machine V W) → Sim c m → Sim (pop c) (pop_st fpu m)
  unfolding pop
  pop-Sim c m s = record {
    world = s.world;
    top = rw s.top;
    slots = λ k b. elim (Bool-cases (ltb k 7)) [
      | inl l ↦ rw l (s.slots (k + 1) (ground arith))
      | inr l ↦ elim (Bool-cases (k == 7)) [
        | inl e ↦ rw (l, e) (λ far. absurd (omega arith))
        | inr e ↦ absurd (ground arith)
      ]
    ];
    initial = s.initial;
    shape = s.shape;
  }
