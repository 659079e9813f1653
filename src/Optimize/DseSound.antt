-- ===== src/Optimize/DseSound.antt =====
-- The invariant of pass_dse's walks: the counts are exact, and only unused values were killed.
use x87sidecar.Common.{
  ℕ, zero, suc, ◌+◌, ◌≡◌, refl, sym, ap, ◌∙◌, ◌≢◌, ◌⊎◌, inl, inr, true, false, ◌==◌, Bool-cases,
  List, length, get_elem?, set, length-set, get_elem?-set_self, get_elem?-set_ne, lt_of_get_elem?,
  some, Option-cases, arith,
}
use x87sidecar.Ir.{Op, Node, is_dead}
use x87sidecar.Ir.Context.{Context, num_nodes}
use x87sidecar.Semantics.Eval.{is_effect}
use x87sidecar.Optimize.Uses.{
  Counts, drop_inputs, in_uses, live_uses, node_uses, node_uses-set, drop_inputs-in_uses,
  count_inputs-node_uses, count_slots, use_counts,
}
use x87sidecar.Optimize.Dse.{never_dead, kill, Walk, visit_node, visit, walk_back, pass_dse}

-- The pass spares exactly the nodes that have an effect.
never_dead-is_effect : (op : Op) → never_dead op ≡ is_effect op
unfolding never_dead is_effect
never_dead-is_effect Op.read_st = refl
never_dead-is_effect _ = refl

-- Node `x`, at index `i`, became `y`: it was kept, or it was a live value that nothing uses.
abbrev pub Became : Counts → ℕ → Node → Node → Type 0
Became total i x y =
    (x ≡ y) ⊎ ((y ≡ kill x) × (is_dead x ≡ false) × (is_effect x.op ≡ false) × (total i ≡ 0))

-- `slots` are the uses by the stack. The counts are exact, and dead nodes have no uses left.
record Sound (slots : Counts) (xs : List Node) (s : Walk) : Type 0 where
  same_length : length xs ≡ length s.0
  exact : (j : ℕ) → s.1 j ≡ slots j + node_uses s.0 j
  became :
      (i : ℕ) (x y : Node)
      → get_elem? xs i ≡ some x
      → get_elem? s.0 i ≡ some y
      → Became (λ j. slots j + node_uses s.0 j) i x y

module _ (slots : Counts) (xs : List Node) where
  -- Node `i`, found to be `n`, alive, without effect and unused, is marked dead.
  killed-Sound :
      (i : ℕ) (n : Node) (s : Walk)
      → get_elem? s.0 i ≡ some n
      → is_dead n ≡ false
      → is_effect n.op ≡ false
      → s.1 i ≡ 0
      → Sound slots xs s
      → Sound slots xs (set s.0 i (kill n), drop_inputs n s.1)
  killed-Sound i n s found alive pure unused h = record {
    same_length = h.same_length ∙ sym (length-set s.0 i (kill n));
    exact = λ j. omega (
      arith,
      h.exact j,
      fewer j,
      drop_inputs-in_uses n s.1 j (omega (arith, h.exact j, fewer j)),
    );
    became = λ k x y fx fy. elim (Bool-cases (k == i)) [
      | inl e ↦ here k x y (ground arith) fx fy
      | inr e ↦ there k x y (ground arith) fx fy
    ];
  }
    where
      fewer : (j : ℕ) → node_uses (set s.0 i (kill n)) j + in_uses n j ≡ node_uses s.0 j
      fewer j =
          let l : live_uses n j ≡ in_uses n j = rw alive in
          omega (arith, node_uses-set s.0 i n (kill n) j found)

      same_node :
          (x : Node)
          → Became (λ j. slots j + node_uses s.0 j) i x n
          → (kill n ≡ kill x) × (is_dead x ≡ false) × (is_effect x.op ≡ false)
      same_node x (inl e) = rw e (refl, alive, pure)
      same_node x (inr (e, d, p, z)) =
          absurd (let q : false ≡ true = sym alive ∙ ap is_dead e in cc)

      here :
          (k : ℕ) (x y : Node)
          → k ≡ i
          → get_elem? xs k ≡ some x
          → get_elem? (set s.0 i (kill n)) k ≡ some y
          → Became (λ j. slots j + node_uses (set s.0 i (kill n)) j) k x y
      here k x y e fx fy =
          let fx' : get_elem? xs i ≡ some x = rw e at fx in
          let fy' : get_elem? (set s.0 i (kill n)) i ≡ some y = rw e at fy in
          let (p, d, q) = same_node x (h.became i x n fx' found) in
          let self = get_elem?-set_self s.0 i (kill n) (lt_of_get_elem? s.0 i n found) in
          let y_kill : y ≡ kill n = cc in
          inr (y_kill ∙ p, d, q, rw e (omega (arith, h.exact i, fewer i)))

      there :
          (k : ℕ) (x y : Node)
          → i ≢ k
          → get_elem? xs k ≡ some x
          → get_elem? (set s.0 i (kill n)) k ≡ some y
          → Became (λ j. slots j + node_uses (set s.0 i (kill n)) j) k x y
      there k x y ne fx fy = still (h.became k x y fx (sym (get_elem?-set_ne s.0 (kill n) ne) ∙ fy))
        where
          still :
              Became (λ j. slots j + node_uses s.0 j) k x y
              → Became (λ j. slots j + node_uses (set s.0 i (kill n)) j) k x y
          still (inl e) = inl e
          still (inr (e, d, p, z)) = inr (e, d, p, omega (arith, fewer k))

  visit_node-Sound :
      (i : ℕ) (n : Node) (s : Walk)
      → get_elem? s.0 i ≡ some n
      → Sound slots xs s
      → Sound slots xs (visit_node i n s)
  visit_node-Sound i n s found h = elim (Bool-cases (is_dead n)) [
    | inl d ↦ rw d h
    | inr d ↦ elim (Bool-cases (never_dead n.op)) [
      | inl e ↦ rw (d, e) h
      | inr e ↦ elim (Bool-cases (s.1 i == 0)) [
        | inl z ↦
            rw (d, e, z)
              (killed-Sound i n s found d (sym (never_dead-is_effect n.op) ∙ e) (ground arith) h)
        | inr z ↦ rw (d, e, z) h
      ]
    ]
  ]

  visit-Sound : (i : ℕ) (s : Walk) → Sound slots xs s → Sound slots xs (visit i s)
  unfolding visit
  visit-Sound i s h = elim (Option-cases (get_elem? s.0 i)) [
    | inl e ↦ rw e h
    | inr (n, e) ↦ rw e (visit_node-Sound i n s e h)
  ]

  walk_back-Sound : (k : ℕ) (s : Walk) → Sound slots xs s → Sound slots xs (walk_back k s)
  unfolding walk_back
  walk_back-Sound zero s h = h
  walk_back-Sound (suc k) s h = walk_back-Sound k (visit k s) (visit-Sound k s h)

-- The uses of the stack slots, which no walk changes.
abbrev pub slot_uses : Context → Counts
slot_uses c = count_slots 8 0 c.slot_val (num_nodes c) (λ j. 0)

-- The uses that pass_dse leaves.
abbrev pub uses_left : Context → Counts
uses_left c j = slot_uses c j + node_uses (pass_dse c).nodes j

use_counts-Sound : (c : Context) → Sound (slot_uses c) c.nodes (c.nodes, use_counts c)
unfolding use_counts
use_counts-Sound c = record {
  same_length = refl;
  exact = λ j. count_inputs-node_uses c.nodes (slot_uses c) j;
  became = λ i x y fx fy. let e : x ≡ y = cc in inl e;
}

pub pass_dse-nodes :
    (c : Context)
    → (length c.nodes ≡ length (pass_dse c).nodes)
      × ((i : ℕ) (x y : Node)
          → get_elem? c.nodes i ≡ some x
          → get_elem? (pass_dse c).nodes i ≡ some y
          → Became (uses_left c) i x y)
unfolding pass_dse
pass_dse-nodes c =
    let first = walk_back (num_nodes c) (c.nodes, use_counts c) in
    let sound = walk_back-Sound (slot_uses c) c.nodes (num_nodes c) first (
      walk_back-Sound (slot_uses c) c.nodes (num_nodes c) (c.nodes, use_counts c)
        (use_counts-Sound c)) in
    (sound.same_length, sound.became)
