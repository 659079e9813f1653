-- ===== src/Optimize/FusionComplete.antt =====
-- X87IROptimize.cpp: pass_fcom_fstsw_fusion, which nodes it marks.
use x87sidecar.Common.{
  ℕ, zero, suc, ◌-◌, ◌<◌, ◌≡◌, ◌≢◌, ◌⊎◌, refl, sym, ap, ◌∙◌, inl, inr, ℤ, pos, negsuc, true, false,
  ◌&&◌, not, ◌==◌, Bool-cases, List, [], ◌∷◌, get_elem?, set, lt_of_get_elem?, get_elem?-set_ne,
  some, Option-cases, arith,
}
use x87sidecar.Ir.{f_stsw, Node, is_dead}
use x87sidecar.Ir.Context.{Context, num_nodes}
use x87sidecar.Optimize.Fusion.{
  is_compare, is_fstsw, fuse, clean, fuse_with, fuse_node, fuse_first, pass_fcom_fstsw_fusion,
}
use x87sidecar.Optimize.FusionPairs.{Pair, Fusable, true-is_compare, Pair-clean}
use x87sidecar.Optimize.FusionSound.{
  Marked, found, kept_by, Marked-clean, fuse_first-Marked, pass_fcom_fstsw_fusion-Marked,
}

abbrev pub Fused : List Node → ℕ → Type 0
Fused rs i = (y : Node) → get_elem? rs i ≡ some y → y.flags.fcom_fused ≡ true

written : (rs : List Node) (i : ℕ) (z y : Node) → get_elem? (set rs i z) i ≡ some y → y ≡ z
written [] i z y e = cc
written (x ∷ xs) zero z y e = cc
written (x ∷ xs) (suc i) z y e = written xs i z y e

-- A write of a marked node unmarks nothing.
write_Fused :
    (rs : List Node) (i j : ℕ) (z : Node)
    → z.flags.fcom_fused ≡ true
    → Fused rs i
    → Fused (set rs j z) i
write_Fused rs i j z t h y e = elim (Bool-cases (j == i)) [
  | inl q ↦
      let ij : i ≡ j = ground arith in
      let p : y ≡ z = written rs j z y (rw ij at e) in ap (λ (v : Node). v.flags.fcom_fused) p ∙ t
  | inr q ↦ let ne : j ≢ i = ground arith in h y (sym (get_elem?-set_ne rs z ne) ∙ e)
]

fuse_with-Fused :
    (rs : List Node) (i j : ℕ) (n : Node) (z : ℤ) → Fused rs i → Fused (fuse_with rs j n z) i
fuse_with-Fused rs i j n (negsuc _) h = h
fuse_with-Fused rs i j n (pos f) h = elim (Option-cases (get_elem? rs f)) [
  | inl e ↦ rw e h
  | inr (c, e) ↦ elim (Bool-cases (is_compare c.op && clean rs (suc f) (j - suc f))) [
    | inl g ↦
        rw (e, g)
          (write_Fused (set rs f (fuse c)) i j (fuse n) refl (write_Fused rs i f (fuse c) refl h))
    | inr g ↦ rw (e, g) h
  ]
]

fuse_node-Fused :
    (rs : List Node) (i j : ℕ) → Fused rs i → Fused (fuse_node rs j (get_elem? rs j)) i
fuse_node-Fused rs i j h = elim (Option-cases (get_elem? rs j)) [
  | inl e ↦ rw e h
  | inr (n, e) ↦ elim (Bool-cases (not (is_dead n) && is_fstsw n.op)) [
    | inl g ↦ rw (e, g) (fuse_with-Fused rs i j n n.in0 h)
    | inr g ↦ rw (e, g) h
  ]
]

module _ (ns : List Node) (f i : ℕ) (p : Pair ns f i) where
  -- The loop's body at the FStsw of a pair marks both nodes of the pair.
  marks_now :
      (rs : List Node)
      → Marked ns rs
      → Fused (fuse_node rs i (get_elem? rs i)) i × Fused (fuse_node rs i (get_elem? rs i)) f
  marks_now rs m =
      let (n, here) = found ns rs i p.status m.same_length p.at_status in
      let (d, there) = found ns rs f p.compare m.same_length p.at_compare in
      let op_d : is_compare d.op ≡ true =
        sym (
          kept_by ns rs m (λ (v : Node). is_compare v.op) f p.compare d (λ v. refl) p.at_compare
            there)
        ∙ true-is_compare p.compare.op p.compares in
      let live : is_dead n ≡ false =
        sym (kept_by ns rs m is_dead i p.status n (λ v. refl) p.at_status here) ∙ p.live in
      let op_n : n.op ≡ f_stsw =
        sym (kept_by ns rs m (λ (v : Node). v.op) i p.status n (λ v. refl) p.at_status here)
        ∙ p.stores in
      let in_n : n.in0 ≡ pos f =
        sym (kept_by ns rs m (λ (v : Node). v.in0) i p.status n (λ v. refl) p.at_status here)
        ∙ p.names in
      let guard : (not (is_dead n) && is_fstsw n.op) ≡ true = rw (live, op_n) refl in
      let test : (is_compare d.op && clean rs (suc f) (i - suc f)) ≡ true =
        rw (op_d, Marked-clean ns rs (suc f) (i - suc f) m) (Pair-clean ns f i p) in
      let pair : fuse_with rs i n (pos f) ≡ set (set rs f (fuse d)) i (fuse n) =
        rw (there, test) refl in
      let whole : fuse_node rs i (get_elem? rs i) ≡ set (set rs f (fuse d)) i (fuse n) =
        rw (here, guard) (ap (λ z. fuse_with rs i n z) in_n ∙ pair) in
      let flag = λ (v : Node). v.flags.fcom_fused in
      rw whole (
        (λ y e. ap flag (written (set rs f (fuse d)) i (fuse n) y e)),
        write_Fused (set rs f (fuse d)) f i (fuse n) refl
            (λ y e. ap flag (written rs f (fuse d) y e)),
      )

  fuse_first-Fused :
      (k : ℕ) (rs : List Node)
      → Marked ns rs
      → i < k
      → Fused (fuse_first k rs) i × Fused (fuse_first k rs) f
  unfolding fuse_first
  fuse_first-Fused zero rs m h = elim h [ ]
  fuse_first-Fused (suc k) rs m h = elim (Bool-cases (i == k)) [
    | inl q ↦
        let ki : k ≡ i = ground arith in
        rw ki (marks_now (fuse_first i rs) (fuse_first-Marked ns i rs m))
    | inr q ↦
        let (a, b) = fuse_first-Fused k rs m (ground arith) in
        (fuse_node-Fused (fuse_first k rs) i k a, fuse_node-Fused (fuse_first k rs) f k b)
  ]

pass_fcom_fstsw_fusion-Fused :
    (c : Context) (f i : ℕ)
    → Pair c.nodes f i
    → Fused (pass_fcom_fstsw_fusion c).nodes i × Fused (pass_fcom_fstsw_fusion c).nodes f
unfolding pass_fcom_fstsw_fusion
pass_fcom_fstsw_fusion-Fused c f i p =
    fuse_first-Fused c.nodes f i p (num_nodes c) c.nodes
      (record { same_length = refl; at = λ k y z fy fz. let q : z ≡ y = cc in inl q })
      (lt_of_get_elem? c.nodes i p.status p.at_status)

Fusable-Fused : (c : Context) (k : ℕ) → Fusable c.nodes k → Fused (pass_fcom_fstsw_fusion c).nodes k
Fusable-Fused c k (inl (f, p)) = (pass_fcom_fstsw_fusion-Fused c f k p).0
Fusable-Fused c k (inr (i, p)) = (pass_fcom_fstsw_fusion-Fused c k i p).1

-- pass_fcom_fstsw_fusion, at any node that is not marked before it. A pair is a compare and a live
-- FStsw whose first input names that compare, with no live compare between the two. A node of a pair
-- is marked as fused and otherwise unchanged; any other node is unchanged.
pub pass_fcom_fstsw_fusion-Fusable :
    (c : Context) (k : ℕ) (x y : Node)
    → get_elem? c.nodes k ≡ some x
    → get_elem? (pass_fcom_fstsw_fusion c).nodes k ≡ some y
    → x.flags.fcom_fused ≡ false
    → ((y ≡ fuse x) × Fusable c.nodes k) ⊎ ((y ≡ x) × ¬ Fusable c.nodes k)
pass_fcom_fstsw_fusion-Fusable c k x y fx fy unmarked =
    let flag = λ (v : Node). v.flags.fcom_fused in
    elim ((pass_fcom_fstsw_fusion-Marked c).at k x y fx fy) [
      | inl e ↦ inr (
        e,
        λ p.
            let t : true ≡ false = sym (Fusable-Fused c k p y fy) ∙ ap flag e ∙ unmarked in
            let q : ⊥ = cc in q,
      )
      | inr (e, p) ↦ inl (e, p)
    ]

-- No two fused FStsw name the same compare.
pub OneReader : List Node → Type 0
OneReader ns =
    (f i k : ℕ) (x y : Node)
    → get_elem? ns i ≡ some x
    → get_elem? ns k ≡ some y
    → (x.op ≡ f_stsw) × (x.in0 ≡ pos f) × (x.flags.fcom_fused ≡ true)
    → (y.op ≡ f_stsw) × (y.in0 ≡ pos f) × (y.flags.fcom_fused ≡ true)
    → i ≡ k

-- The FStsw of a pair, after the pass.
record Reader (rs : List Node) (f i : ℕ) : Type 0 where
  node : Node
  at : get_elem? rs i ≡ some node
  reads : (node.op ≡ f_stsw) × (node.in0 ≡ pos f) × (node.flags.fcom_fused ≡ true)

Pair-Reader :
    (c : Context) (f i : ℕ) → Pair c.nodes f i → Reader (pass_fcom_fstsw_fusion c).nodes f i
Pair-Reader c f i p =
    let m = pass_fcom_fstsw_fusion-Marked c in
    let rs = (pass_fcom_fstsw_fusion c).nodes in
    let (n, here) = found c.nodes rs i p.status m.same_length p.at_status in
    record {
      node = n;
      at = here;
      reads = (
        sym (kept_by c.nodes rs m (λ (v : Node). v.op) i p.status n (λ v. refl) p.at_status here)
            ∙ p.stores,
        sym (kept_by c.nodes rs m (λ (v : Node). v.in0) i p.status n (λ v. refl) p.at_status here)
            ∙ p.names,
        (pass_fcom_fstsw_fusion-Fused c f i p).0 n here,
      );
    }

-- Where two different FStsw form a pair with one compare, pass_fcom_fstsw_fusion marks both: it does
-- not keep a fused compare to one fused FStsw.
pub pass_fcom_fstsw_fusion-OneReader :
    (c : Context) (f i k : ℕ)
    → Pair c.nodes f i
    → Pair c.nodes f k
    → i ≢ k
    → ¬ OneReader (pass_fcom_fstsw_fusion c).nodes
unfolding OneReader
pass_fcom_fstsw_fusion-OneReader c f i k p q apart one =
    let a = Pair-Reader c f i p in
    let b = Pair-Reader c f k q in apart (one f i k a.node b.node a.at b.at a.reads b.reads)
