-- ===== src/GuestPc/LookupFacts.antt =====
-- guest_pc_map.cpp, lookupFragment: what a fragment that it finds is.
use x87sidecar.Common.{
  ℕ, zero, suc, ◌+◌, ◌%◌, ◌≡◌, refl, sym, subst, true, false, ltb, leb, ◌==◌, List, some,
  Bool-cases, Option-cases, inl, inr, arith,
}
use x87sidecar.GuestPc.Reader.{Reader, u64_mod, little_endian, resolved}
use x87sidecar.GuestPc.Tree.{
  Fragment, Turn, lookup_fragment, descend, turn, turn_at, to_node, stop, parse_node, contains,
  window_begin, node_window, bad_address, bad_size, arm_end, max_tree_depth,
}
use x87sidecar.GuestPc.Cached.{node_unchanged, same_fragment}

pub ==_refl : (n : ℕ) → (n == n) ≡ true
==_refl n = ground arith

same_fragment_refl : (f : Fragment) → same_fragment f f ≡ true
same_fragment_refl f = rw (
  ==_refl f.arm_begin,
  ==_refl f.arm_size,
  ==_refl f.x86_begin,
  ==_refl f.x86_size,
  ==_refl f.map,
  ==_refl f.kind,
)

contains_within :
    (pc : ℕ) (g : Fragment)
    → (g.node == 0) ≡ false
    → ltb pc g.arm_begin ≡ false
    → leb (arm_end g) pc ≡ false
    → contains g pc ≡ true
unfolding contains
contains_within pc g nz above inside =
    let begins : leb g.arm_begin pc ≡ true = ground arith in
    let ends : ltb pc (arm_end g) ≡ true = ground arith in rw (nz, begins, ends)

module _ (reader : Reader) (pc : ℕ) where
  -- A fragment read from its node, with the pc in its interval.
  abbrev pub Found : Fragment → Type 0
  Found f = ((f.node == 0) ≡ false) × (node_unchanged reader f ≡ true) × (contains f pc ≡ true)

  node_nz :
      (addr : ℕ) (win : List ℕ) → (addr == 0) ≡ false → ((parse_node win addr).node == 0) ≡ false
  unfolding parse_node
  node_nz addr win nz = nz

  reread :
      (addr : ℕ) (win : List ℕ)
      → reader ((addr + window_begin) % u64_mod) node_window ≡ some win
      → node_unchanged reader (parse_node win addr) ≡ true
  unfolding node_unchanged parse_node
  reread addr win read = rw read (same_fragment_refl (parse_node win addr))

  inside_contains :
      (addr : ℕ) (win : List ℕ)
      → (addr == 0) ≡ false
      → ltb pc (parse_node win addr).arm_begin ≡ false
      → leb (arm_end (parse_node win addr)) pc ≡ false
      → contains (parse_node win addr) pc ≡ true
  inside_contains addr win nz above inside =
      contains_within pc (parse_node win addr) (node_nz addr win nz) above inside

  turn_at-resolved :
      (f g : Fragment) (win : List ℕ)
      → turn_at pc g win ≡ stop (resolved f)
      → (f ≡ g) × (ltb pc g.arm_begin ≡ false) × (leb (arm_end g) pc ≡ false)
  turn_at-resolved f g win e = elim (Bool-cases (bad_size g)) [
    | inl bad ↦ cc (rw bad at e)
    | inr good ↦ elim (Bool-cases (ltb pc g.arm_begin)) [
      | inl below ↦ cc (rw (good, below) at e)
      | inr above ↦ elim (Bool-cases (leb (arm_end g) pc)) [
        | inl behind ↦ cc (rw (good, above, behind) at e)
        | inr inside ↦ (cc (rw (good, above, inside) at e), above, inside)
      ]
    ]
  ]

  parsed-Found :
      (addr : ℕ) (win : List ℕ) (f : Fragment)
      → (addr == 0) ≡ false
      → reader ((addr + window_begin) % u64_mod) node_window ≡ some win
      → turn_at pc (parse_node win addr) win ≡ stop (resolved f)
      → Found f
  parsed-Found addr win f nz read e =
      let g = parse_node win addr in
      let (same, above, inside) = turn_at-resolved f g win e in
      subst (λ x. Found x) (sym same)
        (node_nz addr win nz, reread addr win read, inside_contains addr win nz above inside)

  turn-Found : (addr : ℕ) (f : Fragment) → turn reader pc addr ≡ stop (resolved f) → Found f
  unfolding turn
  turn-Found addr f e = elim (Bool-cases (addr == 0)) [
    | inl z ↦ cc (rw z at e)
    | inr nz ↦ elim (Bool-cases (bad_address addr)) [
      | inl bad ↦ cc (rw (nz, bad) at e)
      | inr good ↦ elim (Option-cases (reader ((addr + window_begin) % u64_mod) node_window)) [
        | inl failed ↦ cc (rw (nz, good, failed) at e)
        | inr (win, read) ↦ parsed-Found addr win f nz read (rw (nz, good, read) at e)
      ]
    ]
  ]

  descend-Found :
      (depth addr : ℕ) (f : Fragment) → descend depth reader pc addr ≡ resolved f → Found f
  unfolding descend
  descend-Found zero addr f e = cc
  descend-Found (suc depth) addr f e =
      turned (turn reader pc addr) refl (λ next h. descend-Found depth next f h)
    where
      turned :
          (t : Turn)
          → turn reader pc addr ≡ t
          → ((next : ℕ) → descend depth reader pc next ≡ resolved f → Found f)
          → Found f
      turned (to_node next) q ih = ih next (ground arith)
      turned (stop s) q ih = turn-Found addr f (ground arith)

  -- A fragment that the lookup resolves to has an address, shows the same node when it is read
  -- again, and contains the pc.
  pub lookup_fragment-Found :
      (root_offset runtime_base : ℕ) (f : Fragment)
      → lookup_fragment root_offset reader runtime_base pc ≡ resolved f
      → Found f
  unfolding lookup_fragment
  lookup_fragment-Found root_offset runtime_base f e = elim (Bool-cases (root_offset == 0)) [
    | inl z ↦ cc (rw z at e)
    | inr nz ↦ elim (Option-cases (reader ((runtime_base + root_offset) % u64_mod) 8)) [
      | inl failed ↦ cc (rw (nz, failed) at e)
      | inr (root, read) ↦
          descend-Found max_tree_depth (little_endian 8 root) f (rw (nz, read) at e)
    ]
  ]
