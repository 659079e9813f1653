-- ===== src/Optimize/FusionSound.antt =====
-- X87IROptimize.cpp: pass_fcom_fstsw_fusion, the nodes before it against those after it.
use x87sidecar.Common.{
  ℕ, zero, suc, ◌-◌, ◌≡◌, ◌≢◌, refl, sym, ap, ◌∙◌, ◌⊎◌, inl, inr, ℤ, pos, negsuc, Bool, true, false,
  ◌&&◌, not, ◌==◌, Bool-cases, List, [], ◌∷◌, length, get_elem?, set, length-set,
  get_elem?-set_self, get_elem?-set_ne, lt_of_get_elem?, some, Option-cases, arith,
}
use x87sidecar.Ir.{Op, f_stsw, Node, is_dead}
use x87sidecar.Ir.Context.{Context, num_nodes}
use x87sidecar.Optimize.Fusion.{
  is_compare, is_fstsw, fuse, live_compare, clean, fuse_pair, fuse_with, fuse_node, fuse_first,
  pass_fcom_fstsw_fusion,
}
use x87sidecar.Optimize.FusionPairs.{Pair, Fusable, is_compare-true, clean-none}

-- `rs` is `ns` with marks on nodes that may have them.
pub record Marked (ns rs : List Node) : Type 0 where
  pub same_length : length ns ≡ length rs
  pub at :
      (i : ℕ) (x y : Node)
      → get_elem? ns i ≡ some x
      → get_elem? rs i ≡ some y
      → (y ≡ x) ⊎ ((y ≡ fuse x) × Fusable ns i)

-- Lists of one length have the same indices.
pub found :
    (us vs : List Node) (j : ℕ) (x : Node)
    → length us ≡ length vs
    → get_elem? us j ≡ some x
    → (y : Node) × (get_elem? vs j ≡ some y)
found [] vs j x l e = cc
found (a ∷ us) [] j x l e = absurd (omega arith)
found (a ∷ us) (b ∷ vs) zero x l e = (b, refl)
found (a ∷ us) (b ∷ vs) (suc j) x l e = found us vs j x (omega arith) e

pub and_right : (a b : Bool) → (a && b) ≡ true → b ≡ true
and_right true b h = h
and_right false b h = cc

is_fstsw-f_stsw : (o : Op) → is_fstsw o ≡ true → o ≡ f_stsw
is_fstsw-f_stsw f_stsw h = refl
is_fstsw-f_stsw _ h = cc

not_both : (o : Op) → is_compare o ≡ true → is_fstsw o ≡ true → ⊥
not_both f_stsw p q = cc
not_both _ p q = cc

module _ (ns : List Node) where
  mark_Marked :
      (rs : List Node) (i : ℕ) (y : Node)
      → Marked ns rs
      → get_elem? rs i ≡ some y
      → Fusable ns i
      → Marked ns (set rs i (fuse y))
  mark_Marked rs i y m e may = record {
    same_length = m.same_length ∙ sym (length-set rs i (fuse y));
    at = λ k x z fx fz. elim (Bool-cases (i == k)) [
      | inl q ↦
          let ik : k ≡ i = ground arith in
          let fx' : get_elem? ns i ≡ some x = rw ik at fx in
          let fz' : get_elem? (set rs i (fuse y)) i ≡ some z = rw ik at fz in
          let self = get_elem?-set_self rs i (fuse y) (lt_of_get_elem? rs i y e) in
          let p : z ≡ fuse y = cc in inr (p ∙ fused x (m.at i x y fx' e), rw ik may)
      | inr q ↦
          let ne : i ≢ k = ground arith in
          m.at k x z fx (sym (get_elem?-set_ne rs (fuse y) ne) ∙ fz)
    ];
  }
    where
      fused : (x : Node) → (y ≡ x) ⊎ ((y ≡ fuse x) × Fusable ns i) → fuse y ≡ fuse x
      fused x (inl p) = ap fuse p
      fused x (inr (p, _)) = ap fuse p

  -- Marks change no opcode and kill nothing.
  Marked-live_compare :
      (rs : List Node) (j : ℕ)
      → Marked ns rs
      → live_compare (get_elem? rs j) ≡ live_compare (get_elem? ns j)
  Marked-live_compare rs j m = elim (Option-cases (get_elem? ns j)) [
    | inl e ↦ elim (Option-cases (get_elem? rs j)) [
      | inl f ↦ rw (e, f) refl
      | inr (y, f) ↦ absurd (let (x, p) = found rs ns j y (sym m.same_length) f in cc)
    ]
    | inr (x, e) ↦ elim (Option-cases (get_elem? rs j)) [
      | inl f ↦ absurd (let (y, p) = found ns rs j x m.same_length e in cc)
      | inr (y, f) ↦ elim (m.at j x y e f) [
        | inl p ↦ rw (e, f, p) refl
        | inr (p, _) ↦ rw (e, f, p) refl
      ]
    ]
  ]

  pub Marked-clean : (rs : List Node) (j k : ℕ) → Marked ns rs → clean rs j k ≡ clean ns j k
  unfolding clean
  Marked-clean rs j zero m = refl
  Marked-clean rs j (suc k) m = rw (Marked-live_compare rs j m, Marked-clean rs (suc j) k m) refl

  -- A mark changes nothing that `g` reads.
  pub kept_by :
      {A : Type 0} (rs : List Node) (m : Marked ns rs) (g : Node → A) (j : ℕ) (u v : Node)
      → ((z : Node) → g (fuse z) ≡ g z)
      → get_elem? ns j ≡ some u
      → get_elem? rs j ≡ some v
      → g u ≡ g v
  kept_by rs m g j u v same h z = elim (m.at j u v h z) [
    | inl q ↦ sym (ap g q)
    | inr (q, _) ↦ sym (ap g q ∙ same u)
  ]

  module _ (rs : List Node) (i : ℕ) (n : Node) (m : Marked ns rs)
      (here : get_elem? rs i ≡ some n) where
    apart :
        (f : ℕ) (c : Node)
        → get_elem? rs f ≡ some c
        → is_compare c.op ≡ true
        → is_fstsw n.op ≡ true
        → f ≢ i
    apart f c z p stsw t =
        let z' : get_elem? rs i ≡ some c = rw t at z in
        let q : c ≡ n = cc in not_both n.op (sym (ap (λ (v : Node). is_compare v.op) q) ∙ p) stsw

    paired :
        (f : ℕ) (c : Node)
        → get_elem? rs f ≡ some c
        → is_compare c.op ≡ true
        → is_dead n ≡ false
        → is_fstsw n.op ≡ true
        → n.in0 ≡ pos f
        → clean ns (suc f) (i - suc f) ≡ true
        → Pair ns f i
    paired f c z p live stsw e q =
        let (c', h) = found rs ns f c (sym m.same_length) z in
        let (x, g) = found rs ns i n (sym m.same_length) here in
        record {
          compare = c';
          status = x;
          at_compare = h;
          compares =
              is_compare-true c'.op
                (kept_by rs m (λ (v : Node). is_compare v.op) f c' c (λ v. refl) h z ∙ p);
          at_status = g;
          live = kept_by rs m is_dead i x n (λ v. refl) g here ∙ live;
          stores =
              is_fstsw-f_stsw x.op
                (kept_by rs m (λ (v : Node). is_fstsw v.op) i x n (λ v. refl) g here ∙ stsw);
          names = kept_by rs m (λ (v : Node). v.in0) i x n (λ v. refl) g here ∙ e;
          between = λ j b l r. clean-none ns (suc f) (i - suc f) j b q (omega arith) (omega arith);
        }

    fuse_pair-Marked :
        (f : ℕ)
        → is_dead n ≡ false
        → is_fstsw n.op ≡ true
        → n.in0 ≡ pos f
        → Marked ns (fuse_pair rs i n f (get_elem? rs f))
    fuse_pair-Marked f live stsw e = elim (Option-cases (get_elem? rs f)) [
      | inl z ↦ rw z m
      | inr (c, z) ↦ elim (Bool-cases (is_compare c.op)) [
        | inl p ↦ elim (Bool-cases (clean rs (suc f) (i - suc f))) [
          | inl q ↦
              let pair =
                paired f c z p live stsw e (sym (Marked-clean rs (suc f) (i - suc f) m) ∙ q) in
              let first = mark_Marked rs f c m z (inr (i, pair)) in
              let ne : f ≢ i = apart f c z p stsw in
              let still : get_elem? (set rs f (fuse c)) i ≡ some n =
                get_elem?-set_ne rs (fuse c) ne ∙ here in
              rw (z, p, q) (mark_Marked (set rs f (fuse c)) i n first still (inl (f, pair)))
          | inr q ↦ rw (z, p, q) m
        ]
        | inr p ↦ rw (z, p) m
      ]
    ]

    fuse_with-Marked :
        (z : ℤ)
        → is_dead n ≡ false
        → is_fstsw n.op ≡ true
        → n.in0 ≡ z
        → Marked ns (fuse_with rs i n z)
    fuse_with-Marked (pos f) live stsw e = fuse_pair-Marked f live stsw e
    fuse_with-Marked (negsuc _) live stsw e = m

  fuse_node-Marked :
      (rs : List Node) (i : ℕ) → Marked ns rs → Marked ns (fuse_node rs i (get_elem? rs i))
  fuse_node-Marked rs i m = elim (Option-cases (get_elem? rs i)) [
    | inl e ↦ rw e m
    | inr (n, e) ↦ elim (Bool-cases (not (is_dead n) && is_fstsw n.op)) [
      | inl g ↦
          rw (e, g)
            (fuse_with-Marked rs i n m e n.in0 (ground (arith, g))
              (and_right (not (is_dead n)) (is_fstsw n.op) g) refl)
      | inr g ↦ rw (e, g) m
    ]
  ]

  pub fuse_first-Marked : (k : ℕ) (rs : List Node) → Marked ns rs → Marked ns (fuse_first k rs)
  unfolding fuse_first
  fuse_first-Marked zero rs m = m
  fuse_first-Marked (suc k) rs m = fuse_node-Marked (fuse_first k rs) k (fuse_first-Marked k rs m)

pub pass_fcom_fstsw_fusion-Marked : (c : Context) → Marked c.nodes (pass_fcom_fstsw_fusion c).nodes
unfolding pass_fcom_fstsw_fusion
pass_fcom_fstsw_fusion-Marked c =
    fuse_first-Marked c.nodes (num_nodes c) c.nodes
      (record { same_length = refl; at = λ i x y fx fy. let p : y ≡ x = cc in inl p })
