-- ===== src/GuestPc/TreeLaws.antt =====
-- guest_pc_map.cpp, lookupFragment: on a search tree in the inspected process it finds the fragment.
use x87sidecar.Common.{
  ℕ, zero, suc, ◌+◌, ◌%◌, ◌≤◌, ◌<◌, ◌≡◌, ◌⊎◌, inl, inr, refl, false, ltb, leb, ◌==◌, Bool-cases,
  subst, sym, ap, ◌∙◌, ltb→lt, if◌then◌else◌, List, some, arith,
}
use x87sidecar.GuestPc.Reader.{
  Reader, u64_mod, little_endian, Status, resolved, not_translated, unavailable,
}
use x87sidecar.GuestPc.Step.{max_fragment_size}
use x87sidecar.GuestPc.Tree.{
  Fragment, parse_node, arm_left, arm_right, window_begin, node_window, turn, turn_at, arm_end,
  bad_size, bad_address, to_node, stop, Turn, descend, lookup_fragment, max_tree_depth,
}

-- The tree that the runtime keeps.
pub data Tree : Type 0 where
  leaf : Tree
  branch : Tree → Fragment → Tree → Tree

unfoldable pub height : Tree → ℕ
height leaf = 0
height (branch l f r) = suc (if ltb (height l) (height r) then height r else height l)

-- A fragment whose interval is not empty, not too large, and inside the address space.
abbrev pub Plausible : Fragment → Type 0
Plausible f =
    (0 < f.arm_size) × (f.arm_size ≤ max_fragment_size) × (f.arm_begin + f.arm_size < u64_mod)

-- A node's address.
abbrev pub NodeAddress : ℕ → Type 0
NodeAddress addr = (0x1000 ≤ addr) × (addr % 8 ≡ 0)

-- The process holds the tree, rooted at an address.
abbrev pub Holds : Reader → Tree → ℕ → Type 0
Holds reader leaf addr = addr ≡ 0
Holds reader (branch l f r) addr =
    (win : List ℕ) × (reader ((addr + window_begin) % u64_mod) node_window ≡ some win)
    × (parse_node win addr ≡ f)
    × NodeAddress addr
    × Plausible f
    × Holds reader l (arm_left win)
    × Holds reader r (arm_right win)

abbrev pub InInterval : ℕ → Fragment → Type 0
InInterval pc f = (f.arm_begin ≤ pc) × (pc < f.arm_begin + f.arm_size)

-- A fragment of the tree.
abbrev pub In : Fragment → Tree → Type 0
In g leaf = ⊥
In g (branch l f r) = (g ≡ f) ⊎ (In g l ⊎ In g r)

-- A search tree: what is left of a fragment ends before it, what is right of it begins behind it.
abbrev pub Ordered : Tree → Type 0
Ordered leaf = Unit {0}
Ordered (branch l f r) =
    ((g : Fragment) → In g l → g.arm_begin + g.arm_size ≤ f.arm_begin)
    × ((g : Fragment) → In g r → f.arm_begin + f.arm_size ≤ g.arm_begin)
    × Ordered l
    × Ordered r

-- The answer for a tree: a fragment of the tree with the pc in its interval, or that there is none.
abbrev pub Answers : Tree → ℕ → Status Fragment → Type 0
Answers t pc (resolved f) = In f t × InInterval pc f
Answers t pc not_translated = (f : Fragment) → In f t → ¬ InInterval pc f
Answers t pc unavailable = ⊥

module _ (reader : Reader) (pc : ℕ) where
  turn-leaf : (addr : ℕ) → addr ≡ 0 → turn reader pc addr ≡ stop not_translated
  unfolding turn
  turn-leaf addr e = rw e

  -- The three ways on from a node.
  abbrev TurnsAt : Fragment → List ℕ → Turn → Type 0
  TurnsAt f win t =
      ((pc < f.arm_begin) × (t ≡ to_node (arm_left win)))
      ⊎ (((f.arm_begin + f.arm_size ≤ pc) × (t ≡ to_node (arm_right win)))
          ⊎ (InInterval pc f × (t ≡ stop (resolved f))))

  turn_at-TurnsAt : (f : Fragment) (win : List ℕ) → Plausible f → TurnsAt f win (turn_at pc f win)
  turn_at-TurnsAt f win (pos, most, inside) =
      let end_e : arm_end f ≡ f.arm_begin + f.arm_size = omega arith in
      let size_e : bad_size f ≡ false = ground arith in
      elim (Bool-cases (ltb pc f.arm_begin)) [
        | inl below ↦ inl (ltb→lt pc f.arm_begin below, rw (size_e, below))
        | inr above ↦ elim (Bool-cases (leb (arm_end f) pc)) [
          | inl behind ↦ inr (inl (ground arith, rw (size_e, above, behind)))
          | inr inside_e ↦ inr (inr ((ground arith, ground arith), rw (size_e, above, inside_e)))
        ]
      ]

  turn-turn_at :
      (f : Fragment) (addr : ℕ) (win : List ℕ)
      → reader ((addr + window_begin) % u64_mod) node_window ≡ some win
      → parse_node win addr ≡ f
      → NodeAddress addr
      → turn reader pc addr ≡ turn_at pc f win
  unfolding turn
  turn-turn_at f addr win read parsed (low, aligned) =
      let nonzero : (addr == 0) ≡ false = ground arith in
      let good : bad_address addr ≡ false = ground arith in rw (nonzero, good, read, parsed)

  descend_stop :
      (depth addr : ℕ) (s : Status Fragment)
      → turn reader pc addr ≡ stop s
      → descend (suc depth) reader pc addr ≡ s
  unfolding descend
  descend_stop depth addr s e = ground arith

  descend_on :
      (depth addr next : ℕ)
      → turn reader pc addr ≡ to_node next
      → descend (suc depth) reader pc addr ≡ descend depth reader pc next
  unfolding descend
  descend_on depth addr next e = ground arith

  -- Left of a fragment that the pc is below, or right of one that it is behind, the answer for the
  -- subtree is that for the tree.
  from_left :
      (l r : Tree) (f : Fragment)
      → pc < f.arm_begin
      → ((g : Fragment) → In g r → f.arm_begin + f.arm_size ≤ g.arm_begin)
      → (s : Status Fragment) → Answers l pc s
      → Answers (branch l f r) pc s
  from_left l r f below behind (resolved g) (m, i) = (inr (inl m), i)
  from_left l r f below behind not_translated none_l = λ g m i. elim m [
    | inl e ↦
        omega
          (arith, i.0, ap (λ (x : Fragment). x.arm_begin) e, ap (λ (x : Fragment). x.arm_size) e)
    | inr (inl m') ↦ none_l g m' i
    | inr (inr m') ↦ omega (arith, i.0, behind g m')
  ]
  from_left l r f below behind unavailable h = h

  from_right :
      (l r : Tree) (f : Fragment)
      → f.arm_begin + f.arm_size ≤ pc
      → ((g : Fragment) → In g l → g.arm_begin + g.arm_size ≤ f.arm_begin)
      → (s : Status Fragment) → Answers r pc s
      → Answers (branch l f r) pc s
  from_right l r f above before (resolved g) (m, i) = (inr (inr m), i)
  from_right l r f above before not_translated none_r = λ g m i. elim m [
    | inl e ↦
        omega
          (arith, i.1, ap (λ (x : Fragment). x.arm_begin) e, ap (λ (x : Fragment). x.arm_size) e)
    | inr (inl m') ↦ omega (arith, i.1, before g m')
    | inr (inr m') ↦ none_r g m' i
  ]
  from_right l r f above before unavailable h = h

  -- On a search tree that the process holds, of a height below the limit of rounds, the descent
  -- answers for the tree.
  descend-Answers :
      (t : Tree) (depth addr : ℕ)
      → height t < depth
      → Holds reader t addr
      → Ordered t
      → Answers t pc (descend depth reader pc addr)
  unfolding height
  descend-Answers t zero addr lt held ord = absurd (omega arith)
  descend-Answers leaf (suc depth) addr lt held ord =
      subst (λ s. Answers leaf pc s)
        (sym (descend_stop depth addr not_translated (turn-leaf addr held))) (λ f m i. m)
  descend-Answers (branch l f r) (suc depth) addr lt (win, read, parsed, at, fits, left, right)
        (before, behind, ord_l, ord_r) =
      let e = turn-turn_at f addr win read parsed at in
      elim (turn_at-TurnsAt f win fits) [
        | inl (below, t_e) ↦
            subst (λ s. Answers (branch l f r) pc s)
              (sym (descend_on depth addr (arm_left win) (e ∙ t_e)))
              (from_left l r f below behind _
                (descend-Answers l depth (arm_left win) (ground arith) left ord_l))
        | inr (inl (above, t_e)) ↦
            subst (λ s. Answers (branch l f r) pc s)
              (sym (descend_on depth addr (arm_right win) (e ∙ t_e)))
              (from_right l r f above before _
                (descend-Answers r depth (arm_right win) (ground arith) right ord_r))
        | inr (inr (inside, t_e)) ↦
            subst (λ s. Answers (branch l f r) pc s)
              (sym (descend_stop depth addr (resolved f) (e ∙ t_e))) (inl refl, inside)
      ]

  -- The lookup is total and right: where the process holds a search tree of fewer than 4096 levels
  -- at the root slot, lookupFragment answers with a fragment of the tree whose interval has the pc,
  -- or that no fragment of the tree has it; it is never unavailable.
  pub lookup_fragment-Answers :
      (t : Tree) (root_offset runtime_base : ℕ) (root : List ℕ)
      → 0 < root_offset
      → reader ((runtime_base + root_offset) % u64_mod) 8 ≡ some root
      → Holds reader t (little_endian 8 root)
      → Ordered t
      → height t < max_tree_depth
      → Answers t pc (lookup_fragment root_offset reader runtime_base pc)
  unfolding lookup_fragment
  lookup_fragment-Answers t root_offset runtime_base root pos read held ord low =
      let nonzero : (root_offset == 0) ≡ false = ground arith in
      let found = descend-Answers t max_tree_depth (little_endian 8 root) low held ord in
      subst (λ s. Answers t pc s) (rw (nonzero, read)) found
