-- ===== src/Optimize/FmaLoop.antt =====
-- The invariant of pass_fma carried through its loop.
use x87sidecar.Common.{
  ℕ, zero, suc, ◌+◌, ◌≡◌, refl, ℤ, pos, negsuc, inl, inr, true, false, ◌&&◌, not, Bool-cases, List,
  length, get_elem?, Option, none, some, Option-cases, arith,
}
use x87sidecar.Ir.{Node, is_dead}
use x87sidecar.Ir.Context.{Context, num_nodes}
use x87sidecar.Optimize.Uses.{Counts, node_uses, count_inputs-node_uses, use_counts}
use x87sidecar.Optimize.Dse.{Walk}
use x87sidecar.Optimize.DseSound.{slot_uses}
use x87sidecar.Optimize.FusionSound.{and_right}
use x87sidecar.Optimize.Fma.{
  Side, first, second, is_sum, product_of, may_contract, fuse_product, fuse_ref, try_fuse, or_else,
  contract_node, contract_found, contract_first, pass_fma,
}
use x87sidecar.Optimize.FmaSound.{Turned, kept, Contracted, rewrite-Contracted}

module _ (slots : Counts) (xs : List Node) where
  -- What try_fuse gives back, where it does.
  Fuses : Option Walk → Type 0
  Fuses none = Unit
  Fuses (some s) = Contracted slots xs s

  module _ (i : ℕ) (n : Node) (s : Walk) (c : Contracted slots xs s)
      (at_n : get_elem? s.0 i ≡ some n) (live : is_dead n ≡ false) (sum : is_sum n.op ≡ true) where
    fuse_product-Fuses :
        (side : Side) (k : ℕ)
        → product_of side n ≡ pos k
        → Fuses (fuse_product i n side k (get_elem? s.0 k) s)
    unfolding Fuses
    fuse_product-Fuses side k e = elim (Option-cases (get_elem? s.0 k)) [
      | inl z ↦ rw z tt
      | inr (mul, z) ↦ elim (Bool-cases (may_contract mul k s.1)) [
        | inl m ↦
            rw (z, m)
              (rewrite-Contracted slots xs i k n mul side s c at_n live sum e z (ground (arith, m))
                (ground (arith, m)) (ground (arith, m)))
        | inr m ↦ rw (z, m) tt
      ]
    ]

    fuse_ref-Fuses : (side : Side) (z : ℤ) → product_of side n ≡ z → Fuses (fuse_ref i n side z s)
    unfolding Fuses
    fuse_ref-Fuses side (pos k) e = fuse_product-Fuses side k e
    fuse_ref-Fuses side (negsuc _) e = tt

    or_else-Contracted :
        (o : Option Walk) (t : Walk)
        → Fuses o
        → Contracted slots xs t
        → Contracted slots xs (or_else o t)
    unfolding Fuses
    or_else-Contracted (some s') t f h = f
    or_else-Contracted none t f h = h

    tries-Contracted :
        Contracted slots xs (or_else (try_fuse i n first s) (or_else (try_fuse i n second s) s))
    unfolding try_fuse
    tries-Contracted =
        or_else-Contracted (try_fuse i n first s) (or_else (try_fuse i n second s) s)
          (fuse_ref-Fuses first (product_of first n) refl)
          (or_else-Contracted (try_fuse i n second s) s
            (fuse_ref-Fuses second (product_of second n) refl) c)

  contract_found-Contracted :
      (i : ℕ) (s : Walk)
      → Contracted slots xs s
      → Contracted slots xs (contract_found i (get_elem? s.0 i) s)
  unfolding contract_node
  contract_found-Contracted i s c = elim (Option-cases (get_elem? s.0 i)) [
    | inl e ↦ rw e c
    | inr (n, e) ↦ elim (Bool-cases (not (is_dead n) && is_sum n.op)) [
      | inl g ↦
          rw (e, g)
            (tries-Contracted i n s c e (ground (arith, g))
              (and_right (not (is_dead n)) (is_sum n.op) g))
      | inr g ↦ rw (e, g) c
    ]
  ]

  contract_first-Contracted :
      (k : ℕ) (s : Walk) → Contracted slots xs s → Contracted slots xs (contract_first k s)
  unfolding contract_first
  contract_first-Contracted zero s c = c
  contract_first-Contracted (suc k) s c =
      contract_found-Contracted k (contract_first k s) (contract_first-Contracted k s c)

-- The uses that pass_fma leaves.
abbrev pub fma_uses : Context → Counts
fma_uses c j = slot_uses c j + node_uses (pass_fma c).nodes j

pub pass_fma-Turned :
    (c : Context)
    → (length c.nodes ≡ length (pass_fma c).nodes)
      × ((i : ℕ) (x y : Node)
          → get_elem? c.nodes i ≡ some x
          → get_elem? (pass_fma c).nodes i ≡ some y
          → Turned c.nodes (fma_uses c) i x y)
unfolding pass_fma use_counts
pass_fma-Turned c =
    let at_start : Contracted (slot_uses c) c.nodes (c.nodes, use_counts c) = record {
      same_length = refl;
      counted = λ j. omega (arith, count_inputs-node_uses c.nodes (slot_uses c) j);
      turned = λ i x y fx fy. let e : y ≡ x = cc in kept e;
    } in
    let end =
      contract_first-Contracted (slot_uses c) c.nodes (num_nodes c) (c.nodes, use_counts c)
        at_start in
    (end.same_length, end.turned)
