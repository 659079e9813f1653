-- ===== src/Ir/Ordered.antt =====
-- The shape of a well-formed context: at most kMaxNodes nodes, each of which refers to earlier nodes
-- only, and last_fcmp naming one of them. FStsw's payload inputs are no references.
use x87sidecar.Common.{
  ℕ, suc, ◌≤◌, ◌<◌, ◌≡◌, ℤ, pos, negsuc, inl, inr, Bool, true, false, List, [], ◌∷◌, ◌++◌, length,
  length-append, get_elem?, get_elem?-snoc_cases, some, arith,
}
use x87sidecar.Ir.Defs.{Op, f_stsw, Node}
use x87sidecar.Ir.Context.{max_nodes}

abbrev pub Below : ℕ → ℤ → Type 0
Below k (pos i) = i < k
Below k (negsuc _) = Unit

abbrev pub is_stsw : Op → Bool
is_stsw f_stsw = true
is_stsw _ = false

abbrev pub InputsBelow : ℕ → Node → Type 0
InputsBelow k n = Below k n.in0 × (is_stsw n.op ≡ false → Below k n.in1 × Below k n.in2)

abbrev pub Ordered : List Node → Type 0
Ordered nodes = (i : ℕ) (n : Node) → get_elem? nodes i ≡ some n → InputsBelow i n

pub Ordered-snoc :
    (nodes : List Node) (n : Node)
    → Ordered nodes
    → InputsBelow (length nodes) n
    → Ordered (nodes ++ n ∷ [])
Ordered-snoc nodes n o b i n' e = elim (get_elem?-snoc_cases nodes n n' i e) [
  | inl old ↦ o i n' old
  | inr (p, q) ↦ rw (p, ← q) b
]

pub Below-suc : (k : ℕ) (x : ℤ) → Below k x → Below (suc k) x
Below-suc k (pos i) h = omega arith
Below-suc k (negsuc _) h = tt

-- What an instruction's builder leaves alone.
-- `before` counts the nodes at its start.
pub record Frame : Type 0 where
  pub before : ℕ
  pub consumed : ℕ
  pub node_src : List ℕ

pub record Shape (fr : Frame) (nodes : List Node) (last_fcmp : ℤ) (consumed : ℕ) (node_src : List ℕ)
    : Type 0 where
  pub grown : fr.before ≤ length nodes
  pub bounded : length nodes ≤ max_nodes
  pub ordered : Ordered nodes
  pub compared : Below (length nodes) last_fcmp
  pub kept_consumed : consumed ≡ fr.consumed
  pub kept_src : node_src ≡ fr.node_src

pub Shape-snoc :
    (fr : Frame) (nodes : List Node) (x : ℤ) (k : ℕ) (src : List ℕ) (n : Node)
    → length nodes < max_nodes
    → InputsBelow (length nodes) n
    → Shape fr nodes x k src
    → Shape fr (nodes ++ n ∷ []) x k src
Shape-snoc fr nodes x k src n room b s =
    let e : length (nodes ++ n ∷ []) ≡ suc (length nodes) =
      omega (arith, length-append nodes (n ∷ [])) in
    record {
      grown = omega (arith, e, s.grown);
      bounded = omega (arith, e);
      ordered = Ordered-snoc nodes n s.ordered b;
      compared = rw e (Below-suc (length nodes) x s.compared);
      kept_consumed = s.kept_consumed;
      kept_src = s.kept_src;
    }
