-- ===== src/Opcodes/Laws.antt =====
-- OpcodeCompatibility.cpp: the two maps of a host table undo each other.
use x87sidecar.Common.{
  get_elem?-set_cases, get_elem?-replicate, ℕ, suc, ◌+◌, ◌%◌, ◌^◌, ◌≤◌, ◌<◌, ◌≡◌, ◌≢◌, inl, inr,
  refl, subst, ◌∙◌, Bool, true, false, ◌==◌, ==_iff, List, [], ◌∷◌, length, replicate, get_elem?,
  set, Option, none, some, Bool-cases, Option-cases, arith, length-set, length-replicate,
  get_elem?-set_self, get_elem?-set_ne,
}
use x87sidecar.Opcodes.Table.{
  unmapped, arpl, HostTable, entry_at, host_to_internal, internal_to_host, find_name, Maps, enter,
  enter_all, set_host_table,
}

module _ (Name : Type 0) (same_name : Name → Name → Bool) (names : List (Option Name)) (n : ℕ)
    (small : n < unmapped) where
  -- After the numbers below `h`: each host number that an opcode has leads back to the opcode.
  record LeadsBack (h : ℕ) (m : Maps Name same_name) : Type 0 where
    pub host_size : length m.host_side ≡ n
    pub internal_size : length m.internal_side ≡ length names
    pub back :
        (op x : ℕ)
        → get_elem? m.internal_side op ≡ some x
        → x ≢ unmapped
        → (x < h) × (get_elem? m.host_side x ≡ some op)

  enter-LeadsBack :
      (h : ℕ) (found : Option ℕ) (m : Maps Name same_name)
      → h < n
      → LeadsBack h m
      → LeadsBack (suc h) (enter Name same_name h found m)
  enter-LeadsBack h none m lt inv = record {
    host_size = inv.host_size;
    internal_size = inv.internal_size;
    back = λ op x at ne. let (b, e) = inv.back op x at ne in (omega arith, e);
  }
  enter-LeadsBack h (some op) m lt inv =
      let keep : (x y : ℕ)
          → x < h
          → get_elem? m.host_side x ≡ some y
          → get_elem? (set m.host_side h op) x ≡ some y =
        λ x y b e. get_elem?-set_ne m.host_side op (λ q. omega arith) ∙ e in
      elim (Bool-cases (entry_at m.internal_side op == unmapped)) [
        | inr taken ↦ rw taken (record {
          host_size = length-set m.host_side h op ∙ inv.host_size;
          internal_size = inv.internal_size;
          back = λ op' x at ne. let (b, e) = inv.back op' x at ne in (omega arith, keep x op' b e);
        })
        | inl free ↦ rw free (record {
          host_size = length-set m.host_side h op ∙ inv.host_size;
          internal_size = length-set m.internal_side op (h % 2 ^ 16) ∙ inv.internal_size;
          back = λ op' x at ne.
              elim (get_elem?-set_cases m.internal_side op op' (h % 2 ^ 16) x at) [
                | inl (q, v) ↦ written op op' x q v
                | inr old ↦ let (b, e) = inv.back op' x old ne in (omega arith, keep x op' b e)
              ];
        })
      ]
    where
      written :
          (op op' x : ℕ)
          → op' ≡ op
          → x ≡ h % 2 ^ 16
          → (x < suc h) × (get_elem? (set m.host_side h op) x ≡ some op')
      written op op' x q v =
          let x_e : x ≡ h = omega (arith, lt, small) in
          let size = inv.host_size in
          (omega arith, rw (x_e, q) (get_elem?-set_self m.host_side h op (omega arith)))

  enter_all-LeadsBack :
      (hosts : List Name) (h : ℕ) (m : Maps Name same_name)
      → h + length hosts ≤ n
      → LeadsBack h m
      → LeadsBack (h + length hosts) (enter_all Name same_name names h hosts m)
  unfolding enter_all
  enter_all-LeadsBack [] h m le inv = subst (λ k. LeadsBack k m) (omega arith) inv
  enter_all-LeadsBack (x ∷ xs) h m le inv =
      let found = find_name Name same_name 0 names x in
      subst
        (λ k.
          LeadsBack k (enter_all Name same_name names (suc h) xs (enter Name same_name h found m)))
        (omega arith)
        (enter_all-LeadsBack xs (suc h) (enter Name same_name h found m) (omega arith)
          (enter-LeadsBack h found m (omega arith) inv))

  -- The table made of the two vectors.
  abbrev table_of : Maps Name same_name → HostTable
  table_of m = record {
    table_active = true;
    to_internal = m.host_side;
    to_host = set m.internal_side arpl (n % 2 ^ 16);
    host_arpl = n % 2 ^ 16;
  }

  arpl_back :
      (m : Maps Name same_name)
      → arpl < length m.internal_side
      → host_to_internal (table_of m) (internal_to_host (table_of m) arpl) ≡ arpl
  unfolding host_to_internal internal_to_host
  arpl_back m known =
      let at = get_elem?-set_self m.internal_side arpl (n % 2 ^ 16) known in
      let self : (n % 2 ^ 16 == n % 2 ^ 16) ≡ true = ground arith in rw (at, self)

  other_back :
      (m : Maps Name same_name) (op : ℕ)
      → LeadsBack n m
      → arpl ≢ op
      → internal_to_host (table_of m) op ≢ unmapped
      → host_to_internal (table_of m) (internal_to_host (table_of m) op) ≡ op
  unfolding host_to_internal internal_to_host
  other_back m op inv ne mapped = elim (Option-cases (get_elem? m.internal_side op)) [
    | inl none_e ↦
        absurd (mapped (rw (get_elem?-set_ne m.internal_side (n % 2 ^ 16) ne, none_e) refl))
    | inr (x, some_e) ↦
        let at : get_elem? (set m.internal_side arpl (n % 2 ^ 16)) op ≡ some x =
          get_elem?-set_ne m.internal_side (n % 2 ^ 16) ne ∙ some_e in
        let (b, e) = inv.back op x some_e (λ q. mapped (rw at q)) in
        let below : (x == n % 2 ^ 16) ≡ false = ground arith in rw (at, below, e)
  ]

-- With a table for fewer than 0xffff host names, an opcode that has a host number is the one that the
-- host number leads back to, ARPL with its synthetic number included.
pub host_to_internal-internal_to_host :
    (Name : Type 0) (same_name : Name → Name → Bool) (names : List (Option Name))
    (hosts : List Name) (op : ℕ)
    → arpl < length names
    → length hosts < unmapped
    → let t = set_host_table Name same_name names hosts in
      internal_to_host t op ≢ unmapped → host_to_internal t (internal_to_host t op) ≡ op
unfolding set_host_table
host_to_internal-internal_to_host Name same_name names hosts op known small mapped =
    let n = length hosts in
    let start : Maps Name same_name = record {
      host_side = replicate n unmapped;
      internal_side = replicate (length names) unmapped;
    } in
    let empty : LeadsBack Name same_name names n small 0 start = record {
      host_size = length-replicate n unmapped;
      internal_size = length-replicate (length names) unmapped;
      back = λ op' x at ne. absurd (ne (get_elem?-replicate (length names) op' unmapped x at));
    } in
    let inv = enter_all-LeadsBack Name same_name names n small hosts 0 start (omega arith) empty in
    let m = enter_all Name same_name names 0 hosts start in
    let inv' : LeadsBack Name same_name names n small n m =
      subst (λ k. LeadsBack Name same_name names n small k m) (omega arith) inv in
    let size = inv'.internal_size in
    elim (Bool-cases (arpl == op)) [
      | inl same ↦
          let e = (==_iff arpl op).0 same in
          subst
            (λ o.
              host_to_internal (table_of Name same_name names n small m)
                (internal_to_host (table_of Name same_name names n small m) o)
              ≡ o)
            e (arpl_back Name same_name names n small m (omega arith))
      | inr other ↦
          other_back Name same_name names n small m op inv' (λ e. absurd (ground arith)) mapped
    ]
