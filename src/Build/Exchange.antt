-- ===== src/Build/Exchange.antt =====
-- The fxch case of build when the node table is full.
use x87sidecar.Common.{
  ℕ, ◌≡◌, ◌<◌, refl, negsuc, inl, inr, true, false, ◌==◌, ltb, Bool-cases, some, arith,
}
use x87sidecar.Ir.Context.{
  Context, max_nodes, num_nodes, append_node, read_initial, resolve_cached, resolve_slot, resolve,
}
use x87sidecar.Build.Dispatch.{build_fxch}

-- In a full table resolve changes nothing where no ReadSt serves the depth yet.
resolve-full :
    (c : Context) (d a : ℕ)
    → num_nodes c ≡ max_nodes
    → c.slot_val d ≡ negsuc a
    → c.initial_read a ≡ negsuc 0
    → (resolve d c).0 ≡ c
unfolding resolve resolve_slot resolve_cached read_initial append_node
resolve-full c d a full slot unread = elim (Bool-cases (ltb d 8)) [
  | inl e ↦
      rw (e, slot)
        (elim (Bool-cases (ltb a 8)) [ inl f ↦ rw (f, unread, full) refl | inr f ↦ rw f refl ])
  | inr e ↦ rw e refl
]

-- fxch in a full node table, with two slots that no ReadSt serves: the instruction is taken
-- although neither slot was resolved. No node is added, and the two slots are left holding each
-- other's negative initial depth.
pub build_fxch-full :
    (c : Context) (d a b : ℕ)
    → num_nodes c ≡ max_nodes
    → 0 < d
    → d < 8
    → c.slot_val 0 ≡ negsuc a
    → c.initial_read a ≡ negsuc 0
    → c.slot_val d ≡ negsuc b
    → c.initial_read b ≡ negsuc 0
    → let r = build_fxch d c in
      (r.1 ≡ some tt)
      × (r.0.nodes ≡ c.nodes)
      × (r.0.slot_val 0 ≡ negsuc b)
      × (r.0.slot_val d ≡ negsuc a)
unfolding build_fxch
build_fxch-full c d a b full pos_d d_lt at0 unread_a at_d unread_b =
    let guard : ltb 0 d ≡ true = ground arith in
    let guard' : ltb d 8 ≡ true = ground arith in
    let ne : (0 == d) ≡ false = ground arith in
    let first = resolve-full c 0 a full at0 unread_a in
    let second = resolve-full c d b full at_d unread_b in
    rw (guard, guard', first, second) (refl, refl, rw (ne, at_d) refl, rw at0 (ground arith))
