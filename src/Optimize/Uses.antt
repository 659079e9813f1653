-- ===== src/Optimize/Uses.antt =====
-- The use counts that pass_dse and pass_fma keep, and what they count. An input at or above zero
-- counts, FStsw's payload inputs included.
use x87sidecar.Common.{
  ℕ, zero, suc, ◌+◌, ◌-◌, ◌≤◌, ◌<◌, ◌≡◌, ℤ, pos, negsuc, inl, inr, if◌then◌else◌, ◌==◌, ltb,
  Bool-cases, List, [], ◌∷◌, get_elem?, set, some, arith,
}
use x87sidecar.Ir.{Node, is_dead}
use x87sidecar.Ir.Context.{Context, num_nodes}

abbrev pub Counts : Type 0
Counts = ℕ → ℕ

-- use_count[input]++ under `if (input >= 0)`.
abbrev pub bump : ℤ → Counts → Counts
bump (pos i) u j = if j == i then suc (u j) else u j
bump (negsuc _) u j = u j

-- use_count[input]-- under `if (input >= 0)`. The walks drop only uses that were counted, so the
-- count does not pass zero, where the source's would go negative.
abbrev pub drop_use : ℤ → Counts → Counts
drop_use (pos i) u j = if j == i then u j - 1 else u j
drop_use (negsuc _) u j = u j

abbrev pub bump_inputs : Node → Counts → Counts
bump_inputs n u = bump n.in2 (bump n.in1 (bump n.in0 u))

abbrev pub drop_inputs : Node → Counts → Counts
drop_inputs n u = drop_use n.in2 (drop_use n.in1 (drop_use n.in0 u))

abbrev pub bump_slot : ℕ → ℤ → Counts → Counts
bump_slot num (pos i) u = if ltb i num then bump (pos i) u else u
bump_slot num (negsuc _) u = u

-- The first loop: every final stack value is a use. `n` slots from `d` on.
unfoldable pub count_slots : ℕ → ℕ → (ℕ → ℤ) → ℕ → Counts → Counts
count_slots zero d slots num u = u
count_slots (suc n) d slots num u = count_slots n (suc d) slots num (bump_slot num (slots d) u)

-- The second loop: the inputs of nodes that are not dead.
unfoldable pub count_inputs : List Node → Counts → Counts
count_inputs [] u = u
count_inputs (n ∷ ns) u = count_inputs ns (if is_dead n then u else bump_inputs n u)

unfoldable pub use_counts : Context → Counts
use_counts c = count_inputs c.nodes (count_slots 8 0 c.slot_val (num_nodes c) (λ j. 0))

-- What is counted.
abbrev pub hit : ℤ → ℕ → ℕ
hit (pos i) j = if j == i then 1 else 0
hit (negsuc _) j = 0

abbrev pub in_uses : Node → ℕ → ℕ
in_uses n j = hit n.in0 j + hit n.in1 j + hit n.in2 j

abbrev pub live_uses : Node → ℕ → ℕ
live_uses n j = if is_dead n then 0 else in_uses n j

abbrev pub node_uses : List Node → ℕ → ℕ
node_uses [] j = 0
node_uses (n ∷ ns) j = live_uses n j + node_uses ns j

pub bump-hit : (x : ℤ) (u : Counts) (j : ℕ) → bump x u j ≡ u j + hit x j
bump-hit (pos i) u j = ground arith
bump-hit (negsuc _) u j = omega arith

pub bump_inputs-in_uses : (n : Node) (u : Counts) (j : ℕ) → bump_inputs n u j ≡ u j + in_uses n j
bump_inputs-in_uses n u j = omega (
  arith,
  bump-hit n.in0 u j,
  bump-hit n.in1 (bump n.in0 u) j,
  bump-hit n.in2 (bump n.in1 (bump n.in0 u)) j,
)

drop_use-hit : (x : ℤ) (u : Counts) (j : ℕ) → hit x j ≤ u j → drop_use x u j + hit x j ≡ u j
drop_use-hit (pos i) u j h = ground arith
drop_use-hit (negsuc _) u j h = omega arith

-- Dropping a node's inputs undoes the count of them, where they were counted.
pub drop_inputs-in_uses :
    (n : Node) (u : Counts) (j : ℕ) → in_uses n j ≤ u j → drop_inputs n u j + in_uses n j ≡ u j
drop_inputs-in_uses n u j h =
    let a = drop_use-hit n.in0 u j (omega arith) in
    let b = drop_use-hit n.in1 (drop_use n.in0 u) j (omega arith) in
    let c = drop_use-hit n.in2 (drop_use n.in1 (drop_use n.in0 u)) j (omega arith) in omega arith

pub count_inputs-node_uses :
    (ns : List Node) (u : Counts) (j : ℕ) → count_inputs ns u j ≡ u j + node_uses ns j
unfolding count_inputs
count_inputs-node_uses [] u j = omega arith
count_inputs-node_uses (n ∷ ns) u j = elim (Bool-cases (is_dead n)) [
  | inl e ↦ rw e (omega (arith, count_inputs-node_uses ns u j))
  | inr e ↦
      rw e (omega (arith, count_inputs-node_uses ns (bump_inputs n u) j, bump_inputs-in_uses n u j))
]

-- A node's live uses are among all uses.
pub live_uses-le :
    (ns : List Node) (i : ℕ) (n : Node) (j : ℕ)
    → get_elem? ns i ≡ some n
    → live_uses n j ≤ node_uses ns j
live_uses-le [] i n j e = cc
live_uses-le (m ∷ ns) zero n j e = rw (let p : m ≡ n = cc in p) (omega arith)
live_uses-le (m ∷ ns) (suc i) n j e = omega (arith, live_uses-le ns i n j e)

-- Writing another node in place of one changes the uses by what the two differ in.
pub node_uses-set :
    (ns : List Node) (i : ℕ) (n n' : Node) (j : ℕ)
    → get_elem? ns i ≡ some n
    → node_uses (set ns i n') j + live_uses n j ≡ node_uses ns j + live_uses n' j
node_uses-set [] i n n' j e = cc
node_uses-set (m ∷ ns) zero n n' j e = rw (let p : m ≡ n = cc in p) (omega arith)
node_uses-set (m ∷ ns) (suc i) n n' j e = omega (arith, node_uses-set ns i n n' j e)

bump-le : (x : ℤ) (u : Counts) (j : ℕ) → u j ≤ bump x u j
bump-le x u j = omega (arith, bump-hit x u j)

bump_slot-le : (num : ℕ) (x : ℤ) (u : Counts) (j : ℕ) → u j ≤ bump_slot num x u j
bump_slot-le num (pos i) u j = ground (arith, bump-le (pos i) u j)
bump_slot-le num (negsuc _) u j = omega arith

count_slots-le :
    (n d : ℕ) (slots : ℕ → ℤ) (num : ℕ) (u : Counts) (j : ℕ) → u j ≤ count_slots n d slots num u j
unfolding count_slots
count_slots-le zero d slots num u j = omega arith
count_slots-le (suc n) d slots num u j = omega (
  arith,
  bump_slot-le num (slots d) u j,
  count_slots-le n (suc d) slots num (bump_slot num (slots d) u) j,
)

bump_slot-hit : (num i : ℕ) (u : Counts) → i < num → 0 < bump_slot num (pos i) u i
bump_slot-hit num i u h = ground arith

-- A node left in one of the slots is used.
pub count_slots-hit :
    (n d k : ℕ) (slots : ℕ → ℤ) (num i : ℕ) (u : Counts)
    → slots (d + k) ≡ pos i
    → k < n
    → i < num
    → 0 < count_slots n d slots num u i
unfolding count_slots
count_slots-hit zero d k slots num i u e h l = elim h [ ]
count_slots-hit (suc n) d zero slots num i u e h l =
    let z : d + 0 ≡ d = omega arith in
    let e' : slots d ≡ pos i = rw z at e in
    omega (
      arith,
      count_slots-le n (suc d) slots num (bump_slot num (slots d) u) i,
      let p : 0 < bump_slot num (slots d) u i = rw e' (bump_slot-hit num i u l) in p,
    )
count_slots-hit (suc n) d (suc k) slots num i u e h l =
    let z : d + suc k ≡ suc d + k = omega arith in
    count_slots-hit n (suc d) k slots num i (bump_slot num (slots d) u) (rw z at e) (omega arith) l
