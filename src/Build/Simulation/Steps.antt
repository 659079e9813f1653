-- ===== src/Build/Simulation/Steps.antt =====
-- Rules for the parts of a builder, each with the rest of the builder as its continuation.
use x87sidecar.Common.{
  ℕ, ◌<◌, ◌≡◌, refl, ◌∙◌, ℤ, pos, negsuc, ◌⊎◌, inl, inr, true, false, ◌==◌, ltb, Bool-cases, ltb→lt,
  Option, none, some, arith, subst,
}
use x87sidecar.Ir.{Op, read_st, Node, Payload, depth, is_dead}
use x87sidecar.Ir.Ordered.{InputsBelow, Frame}
use x87sidecar.Ir.Context.{
  Context, num_nodes, max_nodes, none_id, append_node, new_node, resolve, resolve_slot,
  resolve_cached, read_initial, set_slot, update,
}
use x87sidecar.Build.Monad.{
  Builder, bind_result, checked, both_ids, checked_both, resolve_id, resolve_ids, add_node,
}
use x87sidecar.Semantics.Fpu.{Fpu}
use x87sidecar.Semantics.Machine.{Machine}
use x87sidecar.Semantics.Eval.{is_effect, value, node_value, node_effect}
use x87sidecar.Build.Simulation.Relation.{
  num_nodes-append, Holds, Denotes, ReadsInitial, Sim, Grows, final, append, append-Grows,
  append_value, append_effect,
}

pub append_node-cases :
    (n : Node) (c : Context)
    → ((num_nodes c < max_nodes) × (append_node n c ≡ (append n c, pos (num_nodes c))))
      ⊎ (append_node n c ≡ (c, negsuc 0))
unfolding append_node
append_node-cases n c = elim (Bool-cases (ltb (num_nodes c) max_nodes)) [
  | inl e ↦ inl (ltb→lt _ _ e, rw e)
  | inr e ↦ inr (rw e)
]

module _ (fpu : Fpu) (stack : ℕ → fpu.V) (w0 : fpu.W) (fr : Frame) where
  open fpu use {V, W}

  -- Where a builder fails, the context still agrees with the machine before the instruction.
  abbrev pub Runs :
      {A : Type 0} → Machine V W → Context × Option A → (A → Context → Type 0) → Type 0
  Runs m (c, none) Q = Sim fpu stack w0 fr c m
  Runs m (c, some a) Q = Q a c

  -- What resolve promises of its result.
  abbrev Resolved : Context → ℤ → V → Type 0
  Resolved c (pos i) v = Holds fpu stack w0 c i v
  Resolved c (negsuc _) v = Unit

  abbrev Resolves : Context → Machine V W → ℕ → Context × ℤ → Type 0
  Resolves c m d (c', x) =
      Sim fpu stack w0 fr c' m × Grows fpu stack w0 c c' × Resolved c' x (m.st d)

  same_slot :
      (c : Context) (m : Machine V W) (d : ℕ) (x : ℤ)
      → Denotes fpu stack w0 c x (m.st d)
      → Sim fpu stack w0 fr c m
      → Sim fpu stack w0 fr (set_slot d x c) m
  same_slot c m d x h s = record {
    world = s.world;
    top = s.top;
    slots = λ k b. elim (Bool-cases (k == d)) [
      | inl e ↦ rw e (
          subst (λ (n : ℕ). Denotes fpu stack w0 c x (m.st n)) (let p : d ≡ k = ground arith in p)
            h)
      | inr e ↦ rw e (s.slots k b)
    ];
    initial = s.initial;
    shape = s.shape;
  }

  same_initial :
      (c : Context) (m : Machine V W) (d i : ℕ)
      → Holds fpu stack w0 c i (stack d)
      → Sim fpu stack w0 fr c m
      → Sim fpu stack w0 fr (record c { initial_read = update c.initial_read d (pos i) }) m
  same_initial c m d i h s = record {
    world = s.world;
    top = s.top;
    slots = s.slots;
    initial = λ k. elim (Bool-cases (k == d)) [
      | inl e ↦ rw e (
          subst (λ (n : ℕ). Holds fpu stack w0 c i (stack n)) (let p : d ≡ k = ground arith in p) h)
      | inr e ↦ rw e (s.initial k)
    ];
    shape = s.shape;
  }

  read_initial-Resolves :
      (c : Context) (m : Machine V W) (d d0 : ℕ)
      → stack d0 ≡ m.st d
      → Sim fpu stack w0 fr c m
      → Resolves c m d (read_initial d d0 c)
  unfolding read_initial
  read_initial-Resolves c m d d0 e s = elim (append_node-cases node c) [
    | inl (b, room) ↦ rw room (
        grown (
          append_value fpu stack w0 fr c m node b (tt, λ q. (tt, tt)) refl
            (unfold is_effect in refl) s))
    | inr full ↦ rw full (s, λ i v h. h, tt)
  ]
    where
      node : Node
      node = new_node read_st none_id none_id none_id (depth d0)

      c' : Context
      c' = append node c

      grown :
          Sim fpu stack w0 fr c' m
            × Holds fpu stack w0 c' (num_nodes c) (node_value fpu stack node (final fpu stack w0 c))
          → Resolves c m d (
            record c' {
              initial_read = update c'.initial_read d0 (pos (num_nodes c));
              slot_val = update c'.slot_val d (pos (num_nodes c));
            },
            pos (num_nodes c),
          )
      grown (t, h) =
          let h' : Holds fpu stack w0 c' (num_nodes c) (stack d0) = unfold value in h in
          let h'' : Holds fpu stack w0 c' (num_nodes c) (m.st d) = (h'.0, h'.1 ∙ e) in
          (
            same_slot (record c' { initial_read = update c'.initial_read d0 (pos (num_nodes c)) }) m
                d (pos (num_nodes c)) h'' (same_initial c' m d0 (num_nodes c) h' t),
            append-Grows fpu stack w0 c node,
            h'',
          )

  resolve_cached-Resolves :
      (c : Context) (m : Machine V W) (d d0 : ℕ) (y : ℤ)
      → ReadsInitial fpu stack w0 c d0 y
      → stack d0 ≡ m.st d
      → Sim fpu stack w0 fr c m
      → Resolves c m d (resolve_cached d d0 y c)
  unfolding resolve_cached
  resolve_cached-Resolves c m d d0 (pos i) (b, h) e s =
      (same_slot c m d (pos i) (b, h ∙ e) s, λ j v k. k, (b, h ∙ e))
  resolve_cached-Resolves c m d d0 (negsuc _) h e s = read_initial-Resolves c m d d0 e s

  resolve_slot-Resolves :
      (c : Context) (m : Machine V W) (d : ℕ) (x : ℤ)
      → Denotes fpu stack w0 c x (m.st d)
      → Sim fpu stack w0 fr c m
      → Resolves c m d (resolve_slot d x c)
  unfolding resolve_slot
  resolve_slot-Resolves c m d (pos i) h s = (s, λ j v k. k, h)
  resolve_slot-Resolves c m d (negsuc d0) h s = elim (Bool-cases (ltb d0 8)) [
    | inl b ↦
        rw b (
          resolve_cached-Resolves c m d d0 (c.initial_read d0) (s.initial d0) (h (ltb→lt d0 8 b)) s)
    | inr b ↦ rw b (s, λ i v k. k, tt)
  ]

  -- resolve keeps the relation and every known value, and what it returns holds ST(d).
  pub resolve-Resolves :
      (c : Context) (m : Machine V W) (d : ℕ)
      → Sim fpu stack w0 fr c m
      → Resolves c m d (resolve d c)
  unfolding resolve
  resolve-Resolves c m d s = elim (Bool-cases (ltb d 8)) [
    | inl b ↦ rw b (resolve_slot-Resolves c m d (c.slot_val d) (s.slots d (ltb→lt d 8 b)) s)
    | inr b ↦ rw b (s, λ i v k. k, tt)
  ]

  module _ {A : Type 0} (c : Context) (m : Machine V W) (k : ℕ → Builder A)
      (Q : A → Context → Type 0) where
    resolved_rule :
        (d : ℕ) (r : Context × ℤ)
        → Resolves c m d r
        → ((c' : Context) (i : ℕ)
            → Grows fpu stack w0 c c'
            → Sim fpu stack w0 fr c' m
            → Holds fpu stack w0 c' i (m.st d)
            → Runs m (k i c') Q)
        → Runs m (bind_result (checked r) k) Q
    resolved_rule d (c', pos i) (s, g, h) rest = rest c' i g s h
    resolved_rule d (c', negsuc _) (s, g, h) rest = s

    pub resolve_rule :
        (d : ℕ)
        → Sim fpu stack w0 fr c m
        → ((c' : Context) (i : ℕ)
            → Grows fpu stack w0 c c'
            → Sim fpu stack w0 fr c' m
            → Holds fpu stack w0 c' i (m.st d)
            → Runs m (k i c') Q)
        → Runs m (bind_result (resolve_id d c) k) Q
    unfolding resolve_id
    resolve_rule d s rest = resolved_rule d (resolve d c) (resolve-Resolves c m d s) rest

    -- A node that is no side effect, not dead.
    value_rule :
        (n : Node)
        → InputsBelow (num_nodes c) n
        → is_dead n ≡ false
        → is_effect n.op ≡ false
        → Sim fpu stack w0 fr c m
        → ((c' : Context) (i : ℕ)
            → Grows fpu stack w0 c c'
            → Sim fpu stack w0 fr c' m
            → Holds fpu stack w0 c' i (node_value fpu stack n (final fpu stack w0 c))
            → Runs m (k i c') Q)
        → Runs m (bind_result (checked (append_node n c)) k) Q
    value_rule n b d p s rest = elim (append_node-cases n c) [
      | inl (l, room) ↦
          let (t, h) = append_value fpu stack w0 fr c m n l b d p s in
          rw room (rest (append n c) (num_nodes c) (append-Grows fpu stack w0 c n) t h)
      | inr full ↦ rw full s
    ]

    pub effect_rule :
        (n : Node)
        → InputsBelow (num_nodes c) n
        → is_dead n ≡ false
        → is_effect n.op ≡ true
        → Sim fpu stack w0 fr c m
        → ((i : ℕ)
            → i < num_nodes (append n c)
            → Sim fpu stack w0 fr
                (append n c)
                (record m { world = node_effect fpu stack n (final fpu stack w0 c) })
            → Runs m (k i (append n c)) Q)
        → Runs m (bind_result (checked (append_node n c)) k) Q
    effect_rule n b d p s rest = elim (append_node-cases n c) [
      | inl (l, room) ↦ rw room (
          rest (num_nodes c) (omega (arith, num_nodes-append c n))
            (append_effect fpu stack w0 fr c m n l b d p s))
      | inr full ↦ rw full s
    ]

    -- The value of a leaf: a node of no inputs.
    pub leaf_rule :
        (op : Op) (p : Payload)
        → is_effect op ≡ false
        → Sim fpu stack w0 fr c m
        → ((c' : Context) (i : ℕ)
            → Grows fpu stack w0 c c'
            → Sim fpu stack w0 fr c' m
            → Holds fpu stack w0 c' i (value fpu stack op p m.world fpu.zero fpu.zero fpu.zero)
            → Runs m (k i c') Q)
        → Runs m (bind_result (add_node op none_id none_id none_id p c) k) Q
    unfolding add_node
    leaf_rule op p e s rest =
        value_rule (new_node op none_id none_id none_id p) (tt, λ q. (tt, tt)) refl e s
          (rw s.world rest)

    pub unary_rule :
        (op : Op) (p : Payload) (a : ℕ) (x : V)
        → is_effect op ≡ false
        → Sim fpu stack w0 fr c m
        → Holds fpu stack w0 c a x
        → ((c' : Context) (i : ℕ)
            → Grows fpu stack w0 c c'
            → Sim fpu stack w0 fr c' m
            → Holds fpu stack w0 c' i (value fpu stack op p m.world x fpu.zero fpu.zero)
            → Runs m (k i c') Q)
        → Runs m (bind_result (add_node op (pos a) none_id none_id p c) k) Q
    unfolding add_node
    unary_rule op p a x e s h rest =
        value_rule (new_node op (pos a) none_id none_id p) (h.0, λ q. (tt, tt)) refl e s
          (rw (s.world, h.1) rest)

    pub binary_rule :
        (op : Op) (p : Payload) (a b : ℕ) (x y : V)
        → is_effect op ≡ false
        → Sim fpu stack w0 fr c m
        → Holds fpu stack w0 c a x
        → Holds fpu stack w0 c b y
        → ((c' : Context) (i : ℕ)
            → Grows fpu stack w0 c c'
            → Sim fpu stack w0 fr c' m
            → Holds fpu stack w0 c' i (value fpu stack op p m.world x y fpu.zero)
            → Runs m (k i c') Q)
        → Runs m (bind_result (add_node op (pos a) (pos b) none_id p c) k) Q
    unfolding add_node
    binary_rule op p a b x y e s h h' rest =
        value_rule (new_node op (pos a) (pos b) none_id p) (h.0, λ q. (h'.0, tt)) refl e s
          (rw (s.world, h.1, h'.1) rest)

  module _ {A : Type 0} (m : Machine V W) (Q : A → Context → Type 0) where
    both_rule :
        (c : Context) (i e : ℕ) (x : V) (k : ℕ × ℕ → Builder A) (r : Context × ℤ)
        → Holds fpu stack w0 c i x
        → Resolves c m e r
        → ((c' : Context) (i' j : ℕ)
            → Grows fpu stack w0 c c'
            → Sim fpu stack w0 fr c' m
            → Holds fpu stack w0 c' i' x
            → Holds fpu stack w0 c' j (m.st e)
            → Runs m (k (i', j) c') Q)
        → Runs m (bind_result (both_ids (pos i) r) k) Q
    both_rule c i e x k (c', pos j) h (s, g, h') rest = rest c' i j g s (g i x h) h'
    both_rule c i e x k (c', negsuc _) h (s, g, h') rest = s

    first_rule :
        (c : Context) (d e : ℕ) (k : ℕ × ℕ → Builder A) (r : Context × ℤ)
        → Resolves c m d r
        → ((c' : Context) (i j : ℕ)
            → Sim fpu stack w0 fr c' m
            → Holds fpu stack w0 c' i (m.st d)
            → Holds fpu stack w0 c' j (m.st e)
            → Runs m (k (i, j) c') Q)
        → Runs m (bind_result (checked_both r (resolve e)) k) Q
    first_rule c d e k (c', pos i) (s, g, h) rest =
        both_rule c' i e (m.st d) k (resolve e c') h (resolve-Resolves c' m e s)
          (λ c2 i' j g' s' h' h''. rest c2 i' j s' h' h'')
    first_rule c d e k (c', negsuc x) (s, g, h) rest =
        dropped (resolve e c') (resolve-Resolves c' m e s)
      where
        dropped :
            (r : Context × ℤ) → Resolves c' m e r → Runs m (bind_result (both_ids (negsuc x) r) k) Q
        dropped (c2, _) (s2, g2, h2) = s2

    -- Both depths resolved, and then both results checked.
    pub resolve_both_rule :
        (c : Context) (k : ℕ × ℕ → Builder A) (d e : ℕ)
        → Sim fpu stack w0 fr c m
        → ((c' : Context) (i j : ℕ)
            → Sim fpu stack w0 fr c' m
            → Holds fpu stack w0 c' i (m.st d)
            → Holds fpu stack w0 c' j (m.st e)
            → Runs m (k (i, j) c') Q)
        → Runs m (bind_result (resolve_ids d e c) k) Q
    unfolding resolve_ids
    resolve_both_rule c k d e s rest =
        first_rule c d e k (resolve d c) (resolve-Resolves c m d s) rest
