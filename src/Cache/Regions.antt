-- ===== src/Cache/Regions.antt =====
-- The regions that the lookaheads of X87Cache.cpp find.
use x87sidecar.Common.{
  ℕ, suc, ◌+◌, ◌≤◌, ◌≡◌, refl, ap, ◌∙◌, ◌⊎◌, inl, inr, Bool, true, false, ◌&&◌, ◌||◌, if◌then◌else◌,
  ◌==◌, ltb, Bool-cases, List, [], ◌∷◌, ◌++◌, length, length-append, get_elem?, take, drop, some,
  append_assoc, append-nil, arith, to_int16,
}
use x87sidecar.Instr.{Instr}
use x87sidecar.Instr.Bridge.{block_has_flag_liveness}
use x87sidecar.Cache.Runs.{
  is_handled_x87, count_handled, lookahead, BridgedRun, Scan, scan_start, take_x87, may_bridge,
  has_room, widen_gap, scan, no_run, commit, lookahead_bridged,
}

abbrev pub Handled : Instr → Type 0
Handled ins = is_handled_x87 ins.opcode ≡ true

-- The instructions of a gap: each may be bridged, and none is x87.
abbrev pub Gap : Bool → List Instr → Type 0
Gap v2 [] = Unit
Gap v2 (ins ∷ rest) = (is_handled_x87 ins.opcode ≡ false) × (may_bridge v2 ins ≡ true) × Gap v2 rest

-- A region: x87 instructions, with gaps of at most `max_gap` instructions before them.
pub data Region (v2 : Bool) (max_gap : ℕ) : List Instr → Type 0 where
  empty : Region v2 max_gap []
  extend :
      (region gap : List Instr) (ins : Instr)
      → Region v2 max_gap region
      → Gap v2 gap
      → length gap ≤ max_gap
      → Handled ins
      → Region v2 max_gap (region ++ gap ++ ins ∷ [])

unfoldable pub count_x87 : List Instr → ℕ
count_x87 [] = 0
count_x87 (ins ∷ rest) =
    let count = count_x87 rest in if is_handled_x87 ins.opcode then suc count else count

count_x87-append : (xs ys : List Instr) → count_x87 (xs ++ ys) ≡ count_x87 xs + count_x87 ys
unfolding count_x87
count_x87-append [] ys = omega arith
count_x87-append (x ∷ xs) ys = ground (arith, count_x87-append xs ys)

count_x87-Gap : (v2 : Bool) (gap : List Instr) → Gap v2 gap → count_x87 gap ≡ 0
unfolding count_x87
count_x87-Gap v2 [] h = refl
count_x87-Gap v2 (ins ∷ rest) (e, _, h) = rw e (count_x87-Gap v2 rest h)

Gap-snoc :
    (v2 : Bool) (gap : List Instr) (ins : Instr)
    → Gap v2 gap
    → is_handled_x87 ins.opcode ≡ false
    → may_bridge v2 ins ≡ true
    → Gap v2 (gap ++ ins ∷ [])
Gap-snoc v2 [] ins h e f = (e, f, tt)
Gap-snoc v2 (x ∷ xs) ins (a, b, h) e f = (a, b, Gap-snoc v2 xs ins h e f)

pub take-append : (xs ys : List Instr) → take (length xs) (xs ++ ys) ≡ xs
take-append [] ys = refl
take-append (x ∷ xs) ys = ap (λ l. x ∷ l) (take-append xs ys)

past_x87 :
    (region gap rest : List Instr) (ins : Instr)
    → region ++ gap ++ ins ∷ rest ≡ region ++ gap ++ ins ∷ [] ++ [] ++ rest
past_x87 region gap rest ins = simp (append_assoc, append-nil)

past_bridge :
    (region gap rest : List Instr) (ins : Instr)
    → region ++ gap ++ ins ∷ rest ≡ region ++ (gap ++ ins ∷ []) ++ rest
past_bridge region gap rest ins = simp (append_assoc)

-- The scan has passed `region`, which is committed, and then `gap`.
record Passed (v2 : Bool) (max_gap max_total_bridges : ℕ) (region gap : List Instr) (s : Scan)
    : Type 0 where
  shape : Region v2 max_gap region
  between : Gap v2 gap
  total : s.total ≡ length region
  x87 : s.x87_count ≡ count_x87 region
  bridged : s.x87_count + s.bridges ≡ length region
  pending : s.pending_gap ≡ length gap
  narrow : s.pending_gap ≤ max_gap
  budget : s.bridges + s.pending_gap ≤ max_total_bridges
  bridges_joined : s.joins ≤ s.bridges

module _ (v2 : Bool) (max_gap max_total_bridges : ℕ) where
  take_x87-Passed :
      (region gap : List Instr) (ins : Instr) (i : ℕ) (s : Scan)
      → Handled ins
      → i ≡ length region + length gap
      → Passed v2 max_gap max_total_bridges region gap s
      → Passed v2 max_gap max_total_bridges (region ++ gap ++ ins ∷ []) [] (take_x87 i s)
  unfolding count_x87
  take_x87-Passed region gap ins i s e at p =
      let l : length (region ++ gap ++ ins ∷ []) ≡ suc (length region + length gap) =
        omega (arith, length-append (region ++ gap) (ins ∷ []), length-append region gap) in
      let one : count_x87 (ins ∷ []) ≡ 1 = rw e refl in
      let k : count_x87 (region ++ gap ++ ins ∷ []) ≡ suc (count_x87 region) = omega (
        arith,
        count_x87-append (region ++ gap) (ins ∷ []),
        count_x87-append region gap,
        count_x87-Gap v2 gap p.between,
        one,
      ) in
      record {
        shape = extend region gap ins p.shape p.between (omega (arith, p.pending, p.narrow)) e;
        between = tt;
        total = omega arith;
        x87 = ground (arith, p.x87);
        bridged = ground (arith, p.bridged, p.pending);
        pending = ground (arith, p.pending);
        narrow = ground (arith, p.narrow);
        budget = ground (arith, p.budget);
        bridges_joined = ground (arith, p.bridges_joined);
      }

  widen_gap-Passed :
      (region gap : List Instr) (ins : Instr) (s : Scan)
      → is_handled_x87 ins.opcode ≡ false
      → may_bridge v2 ins ≡ true
      → has_room max_gap max_total_bridges s ≡ true
      → Passed v2 max_gap max_total_bridges region gap s
      → Passed v2 max_gap max_total_bridges region (gap ++ ins ∷ []) (widen_gap s)
  widen_gap-Passed region gap ins s e f room p = record {
    shape = p.shape;
    between = Gap-snoc v2 gap ins p.between e f;
    total = p.total;
    x87 = p.x87;
    bridged = p.bridged;
    pending = omega (arith, p.pending, length-append gap (ins ∷ []));
    narrow = ground (arith, room);
    budget = ground (arith, room);
    bridges_joined = p.bridges_joined;
  }

  -- What the scan leaves of `rest`, after it has passed `region` and `gap`.
  record Scanned (region gap rest : List Instr) (s : Scan) : Type 0 where
    found : List Instr
    trailing : List Instr
    behind : List Instr
    splits : region ++ gap ++ rest ≡ found ++ trailing ++ behind
    passed : Passed v2 max_gap max_total_bridges found trailing s

  scan-Scanned :
      (rest region gap : List Instr) (i : ℕ) (s : Scan)
      → i ≡ length region + length gap
      → Passed v2 max_gap max_total_bridges region gap s
      → Scanned region gap rest (scan v2 max_gap max_total_bridges i rest s)
  unfolding scan
  scan-Scanned [] region gap i s at p = record {
    found = region;
    trailing = gap;
    behind = [];
    splits = refl;
    passed = p;
  }
  scan-Scanned (ins ∷ rest) region gap i s at p =
      let stop : Scanned region gap (ins ∷ rest) s = record {
        found = region;
        trailing = gap;
        behind = ins ∷ rest;
        splits = refl;
        passed = p;
      } in
      elim (Bool-cases (is_handled_x87 ins.opcode)) [
        | inl e ↦
            let r =
              scan-Scanned rest (region ++ gap ++ ins ∷ []) [] (suc i) (take_x87 i s)
                (omega (arith, length-append (region ++ gap) (ins ∷ []), length-append region gap))
                (take_x87-Passed region gap ins i s e at p) in
            rw e (record {
              found = r.found;
              trailing = r.trailing;
              behind = r.behind;
              splits = past_x87 region gap rest ins ∙ r.splits;
              passed = r.passed;
            })
        | inr e ↦ elim (Bool-cases (may_bridge v2 ins)) [
          | inl f ↦ elim (Bool-cases (has_room max_gap max_total_bridges s)) [
            | inl g ↦
                let r =
                  scan-Scanned rest region (gap ++ ins ∷ []) (suc i) (widen_gap s)
                    (omega (arith, length-append gap (ins ∷ [])))
                    (widen_gap-Passed region gap ins s e f g p) in
                rw (e, f, g)
                  (record {
                    found = r.found;
                    trailing = r.trailing;
                    behind = r.behind;
                    splits = past_bridge region gap rest ins ∙ r.splits;
                    passed = r.passed;
                  })
            | inr g ↦ rw (e, f, g) stop
          ]
          | inr f ↦ rw (e, f) stop
        ]
      ]

  start-Passed : Passed v2 max_gap max_total_bridges [] [] scan_start
  unfolding count_x87
  start-Passed = record {
    shape = empty;
    between = tt;
    total = refl;
    x87 = refl;
    bridged = refl;
    pending = refl;
    narrow = omega arith;
    budget = omega arith;
    bridges_joined = omega arith;
  }

-- What lookahead_bridged promises of a region that it reports. The counts are cast to int16_t.
pub record Profitable (v2 : Bool) (max_gap max_total_bridges : ℕ) (region : List Instr)
    (r : BridgedRun) : Type 0 where
  pub shape : Region v2 max_gap region
  pub bridge_count : ℕ
  pub bridged : length region ≡ count_x87 region + bridge_count
  pub total : r.total ≡ to_int16 (length region)
  pub x87 : r.x87_count ≡ to_int16 (count_x87 region)
  pub bridges : r.bridges ≡ to_int16 bridge_count
  pub budget : bridge_count ≤ max_total_bridges
  pub enough : 3 ≤ count_x87 region
  pub joined : 1 ≤ bridge_count

-- `r` reports nothing, or a region at the start of `rest`.
abbrev pub Reports : Bool → ℕ → ℕ → List Instr → BridgedRun → Type 0
Reports v2 max_gap max_total_bridges rest r =
    (r ≡ no_run)
    ⊎ ((region behind : List Instr) × (rest ≡ region ++ behind)
        × Profitable v2 max_gap max_total_bridges region r)

commit-Reports :
    (v2 : Bool) (max_gap max_total_bridges : ℕ) (rest : List Instr) (s : Scan)
    → Scanned v2 max_gap max_total_bridges [] [] rest s
    → Reports v2 max_gap max_total_bridges rest (commit s)
commit-Reports v2 max_gap max_total_bridges rest s r =
    elim (Bool-cases (s.joins == 0 || ltb s.x87_count 3)) [
      | inl e ↦ inl (rw e refl)
      | inr e ↦
          let p = r.passed in
          inr (
            r.found,
            r.trailing ++ r.behind,
            r.splits ∙ append_assoc r.found r.trailing r.behind,
            rw e (record {
              shape = p.shape;
              bridge_count = s.bridges;
              bridged = omega (arith, p.x87, p.bridged);
              total = ap to_int16 p.total;
              x87 = ap to_int16 p.x87;
              bridges = refl;
              budget = omega (arith, p.budget);
              enough = ground (arith, e, p.x87);
              joined = ground (arith, e, p.bridges_joined);
            }),
          )
    ]

-- lookahead_bridged, on any instructions and limits: either it reports no run, or what it counts from
-- insn_idx on is a region of x87 instructions and short gaps of bridges that ends on an x87
-- instruction. The region has at least three x87 instructions and one bridge, and its bridges keep
-- within the budget. The reported counts are its length, its x87 instructions and its bridges, each
-- cast to int16_t.
pub lookahead_bridged-Profitable :
    (instrs : List Instr) (insn_idx max_gap max_total_bridges : ℕ) (allow_v2 : Bool)
    → Reports
        (allow_v2 && block_has_flag_liveness instrs)
        max_gap
        max_total_bridges
        (drop insn_idx instrs)
        (lookahead_bridged instrs insn_idx max_gap max_total_bridges allow_v2)
unfolding lookahead_bridged
lookahead_bridged-Profitable instrs insn_idx max_gap max_total_bridges allow_v2 =
    let v2 = allow_v2 && block_has_flag_liveness instrs in
    let rest = drop insn_idx instrs in
    commit-Reports v2 max_gap max_total_bridges rest
      (scan v2 max_gap max_total_bridges 0 rest scan_start)
      (scan-Scanned v2 max_gap max_total_bridges rest [] [] 0 scan_start refl
        (start-Passed v2 max_gap max_total_bridges))

unfoldable pub AllHandled : List Instr → Type 0
AllHandled [] = Unit
AllHandled (ins ∷ rest) = Handled ins × AllHandled rest

count_handled-AllHandled :
    (xs : List Instr)
    → AllHandled (take (count_handled xs) xs)
      × (count_handled xs ≤ length xs)
      × ((ins : Instr)
          → get_elem? xs (count_handled xs) ≡ some ins
          → is_handled_x87 ins.opcode ≡ false)
unfolding count_handled AllHandled
count_handled-AllHandled [] = (tt, omega arith, λ ins e. cc)
count_handled-AllHandled (x ∷ xs) = elim (Bool-cases (is_handled_x87 x.opcode)) [
  | inl e ↦
      let (all, le, stop) = count_handled-AllHandled xs in rw e ((e, all), omega (arith, le), stop)
  | inr e ↦ rw e (tt, omega arith, λ ins p. let q : x ≡ ins = cc in rw q at e)
]

-- lookahead counts the longest run of handled x87 instructions from insn_idx on: all that it counts
-- are handled, it stays within the block, and what follows, if anything, is not handled.
pub lookahead-AllHandled :
    (instrs : List Instr) (insn_idx : ℕ)
    → AllHandled (take (lookahead instrs insn_idx) (drop insn_idx instrs))
      × (lookahead instrs insn_idx ≤ length (drop insn_idx instrs))
      × ((ins : Instr)
          → get_elem? (drop insn_idx instrs) (lookahead instrs insn_idx) ≡ some ins
          → is_handled_x87 ins.opcode ≡ false)
unfolding lookahead
lookahead-AllHandled instrs insn_idx = count_handled-AllHandled (drop insn_idx instrs)
