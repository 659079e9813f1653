-- ===== src/Optimize/FmaSound.antt =====
-- The invariant of pass_fma's loop: what the nodes turned into, and counts that are no less than
-- the uses.
use x87sidecar.Common.{
  ℕ, ◌+◌, ◌≤◌, ◌≡◌, ◌≢◌, refl, sym, ap, ◌∙◌, pos, inl, inr, true, false, ◌==◌, Bool-cases, List,
  length, get_elem?, set, length-set, get_elem?-set_self, get_elem?-set_ne, lt_of_get_elem?, some,
  arith,
}
use x87sidecar.Ir.{Op, f_mul, Node, is_dead}
use x87sidecar.Optimize.Uses.{
  Counts, hit, in_uses, live_uses, node_uses, node_uses-set, bump, bump-hit,
}
use x87sidecar.Optimize.Dse.{Walk, kill}
use x87sidecar.Optimize.FusionSound.{found}
use x87sidecar.Optimize.Fma.{
  Side, first, second, is_f_mul, is_sum, product_of, addend_of, fma_op, contract, clear,
}

-- What node `x`, at index `i` of `xs`, may have turned into, where `uses` counts the uses left.
pub data Turned (xs : List Node) (uses : Counts) (i : ℕ) (x y : Node) : Type 0 where
  kept : y ≡ x → Turned xs uses i x y
  killed : y ≡ kill x → is_dead x ≡ false → x.op ≡ f_mul → uses i ≡ 0 → Turned xs uses i x y
  fused :
      (side : Side) (k : ℕ) (mul : Node)
      → get_elem? xs k ≡ some mul
      → is_dead mul ≡ false
      → mul.op ≡ f_mul
      → is_dead x ≡ false
      → is_sum x.op ≡ true
      → product_of side x ≡ pos k
      → y ≡ contract side x mul
      → Turned xs uses i x y

weaken_Turned :
    (xs : List Node) (uses uses' : Counts) (i : ℕ) (x y : Node)
    → uses' i ≤ uses i
    → Turned xs uses i x y
    → Turned xs uses' i x y
weaken_Turned xs uses uses' i x y l (kept e) = kept e
weaken_Turned xs uses uses' i x y l (killed e d m z) = killed e d m (omega arith)
weaken_Turned xs uses uses' i x y l (fused side k mul a b c d e f g) =
    fused side k mul a b c d e f g

is_f_mul-f_mul : (op : Op) → is_f_mul op ≡ true → op ≡ f_mul
is_f_mul-f_mul f_mul h = refl
is_f_mul-f_mul _ h = cc

fma_op-is_sum : (op : Op) (side : Side) → is_sum (fma_op op side) ≡ false
fma_op-is_sum Op.f_add side = refl
fma_op-is_sum Op.f_sub first = refl
fma_op-is_sum Op.f_sub second = refl
fma_op-is_sum _ first = refl
fma_op-is_sum _ second = refl

fma_op-is_f_mul : (op : Op) (side : Side) → is_f_mul (fma_op op side) ≡ false
fma_op-is_f_mul Op.f_add side = refl
fma_op-is_f_mul Op.f_sub first = refl
fma_op-is_f_mul Op.f_sub second = refl
fma_op-is_f_mul _ first = refl
fma_op-is_f_mul _ second = refl

-- A node that is alive and no contraction is as it was.
sum_kept :
    (xs : List Node) (uses : Counts) (i : ℕ) (x y : Node)
    → Turned xs uses i x y
    → is_dead y ≡ false
    → is_sum y.op ≡ true
    → y ≡ x
sum_kept xs uses i x y (kept e) d s = e
sum_kept xs uses i x y (killed e _ _ _) d s =
    absurd (let p : true ≡ false = sym (ap is_dead e) ∙ d in cc)
sum_kept xs uses i x y (fused side k mul _ _ _ _ _ _ e) d s = absurd (
    let p : false ≡ true = sym (ap (λ (n : Node). is_sum n.op) e ∙ fma_op-is_sum x.op side) ∙ s in
    cc)

mul_kept :
    (xs : List Node) (uses : Counts) (i : ℕ) (x y : Node)
    → Turned xs uses i x y
    → is_dead y ≡ false
    → is_f_mul y.op ≡ true
    → y ≡ x
mul_kept xs uses i x y (kept e) d s = e
mul_kept xs uses i x y (killed e _ _ _) d s =
    absurd (let p : true ≡ false = sym (ap is_dead e) ∙ d in cc)
mul_kept xs uses i x y (fused side k mul _ _ _ _ _ _ e) d s = absurd (
    let p : false ≡ true =
      sym (ap (λ (n : Node). is_f_mul n.op) e ∙ fma_op-is_f_mul x.op side) ∙ s in
    cc)

-- `slots` are the uses by the stack.
pub record Contracted (slots : Counts) (xs : List Node) (s : Walk) : Type 0 where
  pub same_length : length xs ≡ length s.0
  pub counted : (j : ℕ) → slots j + node_uses s.0 j ≤ s.1 j
  pub turned :
      (i : ℕ) (x y : Node)
      → get_elem? xs i ≡ some x
      → get_elem? s.0 i ≡ some y
      → Turned xs (λ j. slots j + node_uses s.0 j) i x y

not_both : (op : Op) → is_sum op ≡ true → is_f_mul op ≡ true → ⊥
not_both f_mul p q = cc
not_both _ p q = cc

in_uses-sides :
    (side : Side) (n : Node) (j : ℕ)
    → in_uses n j ≡ hit (product_of side n) j + hit (addend_of side n) j + hit n.in2 j
in_uses-sides first n j = omega arith
in_uses-sides second n j = omega arith

module _ (slots : Counts) (xs : List Node) (i k : ℕ) (n mul : Node) (side : Side) (s : Walk)
    (c : Contracted slots xs s) (at_n : get_elem? s.0 i ≡ some n) (live_n : is_dead n ≡ false)
    (sum : is_sum n.op ≡ true) (uses_k : product_of side n ≡ pos k)
    (at_mul : get_elem? s.0 k ≡ some mul) (live_mul : is_dead mul ≡ false)
    (product : is_f_mul mul.op ≡ true) (once : s.1 k ≡ 1) where
  abbrev halfway : List Node
  halfway = set s.0 i (contract side n mul)

  abbrev rewritten : List Node
  rewritten = set halfway k (kill mul)

  apart : i ≢ k
  apart e =
      let at_mul' : get_elem? s.0 i ≡ some mul = rw e at_mul in
      let p : n ≡ mul = cc in not_both mul.op (sym (ap (λ (m : Node). is_sum m.op) p) ∙ sum) product

  mul_there : get_elem? halfway k ≡ some mul
  mul_there = get_elem?-set_ne s.0 (contract side n mul) apart ∙ at_mul

  -- What the rewriting takes from the uses.
  fewer :
      (j : ℕ)
      → node_uses rewritten j + (hit mul.in2 j + hit (pos k) j + hit n.in2 j) ≡ node_uses s.0 j
  fewer j =
      let a = node_uses-set s.0 i n (contract side n mul) j at_n in
      let b = node_uses-set halfway k mul (kill mul) j mul_there in
      let ln : live_uses n j ≡ in_uses n j = rw live_n in
      let lc : live_uses (contract side n mul) j ≡ in_uses (contract side n mul) j = rw live_n in
      let lm : live_uses mul j ≡ in_uses mul j = rw live_mul in
      let sides = in_uses-sides side n j in
      let p : hit (product_of side n) j ≡ hit (pos k) j = ap (λ z. hit z j) uses_k in
      omega (arith, a, b, ln, lc, lm, sides, p)

  unused : slots k + node_uses rewritten k ≡ 0
  unused =
      let one : hit (pos k) k ≡ 1 = ground arith in omega (arith, fewer k, c.counted k, once, one)

  still_counted :
      (j : ℕ) → slots j + node_uses rewritten j ≤ bump mul.in1 (bump mul.in0 (clear k s.1)) j
  still_counted j =
      let a = bump-hit mul.in1 (bump mul.in0 (clear k s.1)) j in
      let b = bump-hit mul.in0 (clear k s.1) j in
      elim (Bool-cases (j == k)) [
        | inl e ↦
            let jk : j ≡ k = ground arith in
            let z : slots j + node_uses rewritten j ≡ 0 = rw jk unused in omega arith
        | inr e ↦
            let q : clear k s.1 j ≡ s.1 j = rw e refl in
            omega (arith, fewer j, c.counted j, a, b, q)
      ]

  original : (x : Node) → get_elem? xs i ≡ some x → n ≡ x
  original x fx =
      sum_kept xs (λ j. slots j + node_uses s.0 j) i x n (c.turned i x n fx at_n) live_n sum

  factor : get_elem? xs k ≡ some mul
  factor =
      let (x, fx) = found s.0 xs k mul (sym c.same_length) at_mul in
      let p =
        mul_kept xs (λ j. slots j + node_uses s.0 j) k x mul (c.turned k x mul fx at_mul) live_mul
          product in
      rw p fx

  Turned-still :
      (q : ℕ) (x y : Node)
      → get_elem? xs q ≡ some x
      → get_elem? rewritten q ≡ some y
      → Turned xs (λ j. slots j + node_uses rewritten j) q x y
  Turned-still q x y fx fy = elim (Bool-cases (q == k)) [
    | inl e ↦
        let qk : q ≡ k = ground arith in
        let fx' : get_elem? xs k ≡ some x = rw qk at fx in
        let fy' : get_elem? rewritten k ≡ some y = rw qk at fy in
        let self =
          get_elem?-set_self halfway k (kill mul) (lt_of_get_elem? halfway k mul mul_there) in
        let f = factor in
        let x_mul : mul ≡ x = cc in
        let y_kill : y ≡ kill mul = cc in
        killed (y_kill ∙ ap kill x_mul) (sym (ap is_dead x_mul) ∙ live_mul)
          (is_f_mul-f_mul x.op (sym (ap (λ (m : Node). is_f_mul m.op) x_mul) ∙ product))
          (rw qk unused)
    | inr e ↦
        let kq : k ≢ q = ground arith in
        let fz : get_elem? halfway q ≡ some y = sym (get_elem?-set_ne halfway (kill mul) kq) ∙ fy in
        elim (Bool-cases (q == i)) [
          | inl g ↦
              let qi : q ≡ i = ground arith in
              let fx' : get_elem? xs i ≡ some x = rw qi at fx in
              let fz' : get_elem? halfway i ≡ some y = rw qi at fz in
              let self =
                get_elem?-set_self s.0 i (contract side n mul) (lt_of_get_elem? s.0 i n at_n) in
              let x_n = original x fx' in
              let y_new : y ≡ contract side n mul = cc in
              fused side k mul factor live_mul (is_f_mul-f_mul mul.op product)
                (sym (ap is_dead x_n) ∙ live_n) (sym (ap (λ (m : Node). is_sum m.op) x_n) ∙ sum)
                (sym (ap (product_of side) x_n) ∙ uses_k)
                (y_new ∙ ap (λ m. contract side m mul) x_n)
          | inr g ↦
              let iq : i ≢ q = ground arith in
              weaken_Turned xs (λ j. slots j + node_uses s.0 j)
                (λ j. slots j + node_uses rewritten j) q x y (omega (arith, fewer q))
                (c.turned q x y fx (sym (get_elem?-set_ne s.0 (contract side n mul) iq) ∙ fz))
        ]
  ]

  pub rewrite-Contracted :
      Contracted slots xs (rewritten, bump mul.in1 (bump mul.in0 (clear k s.1)))
  rewrite-Contracted = record {
    same_length =
        c.same_length
        ∙ sym (length-set s.0 i (contract side n mul))
        ∙ sym (length-set halfway k (kill mul));
    counted = still_counted;
    turned = Turned-still;
  }
