-- ===== src/Optimize/FusionPairs.antt =====
-- X87IROptimize.cpp: the pairs that pass_fcom_fstsw_fusion is meant for, told apart from its loops.
use x87sidecar.Common.{
  ℕ, zero, suc, ◌+◌, ◌-◌, ◌≤◌, ◌<◌, ◌≡◌, ◌≢◌, refl, ap, sym, ◌∙◌, ◌⊎◌, inl, inr, pos, true, false,
  ◌==◌, Bool-cases, List, get_elem?, some, Option-cases, arith,
}
use x87sidecar.Ir.{Op, f_cmp, f_tst, f_stsw, Node, is_dead}
use x87sidecar.Optimize.Fusion.{is_compare, live_compare, clean}

-- Node `f` is a compare, node `i` is a live FStsw whose first input names it, and no live compare
-- stands between the two.
pub record Pair (ns : List Node) (f i : ℕ) : Type 0 where
  pub compare : Node
  pub status : Node
  pub at_compare : get_elem? ns f ≡ some compare
  pub compares : (compare.op ≡ f_cmp) ⊎ (compare.op ≡ f_tst)
  pub at_status : get_elem? ns i ≡ some status
  pub live : is_dead status ≡ false
  pub stores : status.op ≡ f_stsw
  pub names : status.in0 ≡ pos f
  pub between :
      (j : ℕ) (b : Node)
      → f < j
      → j < i
      → get_elem? ns j ≡ some b
      → is_dead b ≡ false
      → (b.op ≢ f_cmp) × (b.op ≢ f_tst)

-- Node `k` is one of the two nodes of a pair.
abbrev pub Fusable : List Node → ℕ → Type 0
Fusable ns k = ((f : ℕ) × Pair ns f k) ⊎ ((i : ℕ) × Pair ns k i)

pub is_compare-true : (op : Op) → is_compare op ≡ true → (op ≡ f_cmp) ⊎ (op ≡ f_tst)
is_compare-true f_cmp h = inl refl
is_compare-true f_tst h = inr refl
is_compare-true _ h = cc

pub true-is_compare : (op : Op) → (op ≡ f_cmp) ⊎ (op ≡ f_tst) → is_compare op ≡ true
true-is_compare op (inl e) = ap is_compare e
true-is_compare op (inr e) = ap is_compare e

is_compare-false : (op : Op) → is_compare op ≡ false → (op ≢ f_cmp) × (op ≢ f_tst)
is_compare-false op h = (
  λ e. let p : false ≡ true = sym h ∙ ap is_compare e in cc,
  λ e. let p : false ≡ true = sym h ∙ ap is_compare e in cc,
)

false-is_compare : (op : Op) → (op ≢ f_cmp) × (op ≢ f_tst) → is_compare op ≡ false
false-is_compare f_cmp (p, q) = absurd (p refl)
false-is_compare f_tst (p, q) = absurd (q refl)
false-is_compare _ h = refl

module _ (ns : List Node) where
  -- `clean` finds no live compare exactly when there is none.
  pub clean-none :
      (j k q : ℕ) (b : Node)
      → clean ns j k ≡ true
      → j ≤ q
      → q < j + k
      → get_elem? ns q ≡ some b
      → is_dead b ≡ false
      → (b.op ≢ f_cmp) × (b.op ≢ f_tst)
  unfolding clean
  clean-none j zero q b h l r at live = absurd (omega arith)
  clean-none j (suc k) q b h l r at live = elim (Bool-cases (live_compare (get_elem? ns j))) [
    | inl e ↦ absurd (let p : false ≡ true = rw e at h in cc)
    | inr e ↦ elim (Bool-cases (j == q)) [
      | inl s ↦
          let jq : j ≡ q = ground arith in
          let e' : live_compare (some b) ≡ false = rw (jq, at) at e in
          is_compare-false b.op (rw live at e')
      | inr s ↦
          let h' : clean ns (suc j) k ≡ true = rw e at h in
          clean-none (suc j) k q b h' (ground arith) (omega arith) at live
    ]
  ]

  pub none-clean :
      (j k : ℕ)
      → ((q : ℕ) (b : Node)
          → j ≤ q
          → q < j + k
          → get_elem? ns q ≡ some b
          → is_dead b ≡ false
          → (b.op ≢ f_cmp) × (b.op ≢ f_tst))
      → clean ns j k ≡ true
  unfolding clean
  none-clean j zero h = refl
  none-clean j (suc k) h =
      let rest = none-clean (suc j) k (λ q b l r. h q b (omega arith) (omega arith)) in
      elim (Option-cases (get_elem? ns j)) [
        | inl e ↦ rw (e, rest) refl
        | inr (b, e) ↦ elim (Bool-cases (is_dead b)) [
          | inl d ↦ rw (e, d, rest) refl
          | inr d ↦
              let none = false-is_compare b.op (h j b (omega arith) (omega arith) e d) in
              rw (e, d, none, rest) refl
        ]
      ]

  pub Pair-clean : (f i : ℕ) → Pair ns f i → clean ns (suc f) (i - suc f) ≡ true
  Pair-clean f i p =
      none-clean (suc f) (i - suc f) (λ q b l r. p.between q b (omega arith) (omega arith))
