-- ===== src/Cache/Counts.antt =====
-- rosetta_core/src/X87Cache.cpp: the counts of lookahead_bridged, which the source casts to int16_t.
use x87sidecar.Common.{
  ℕ, suc, ◌+◌, ◌^◌, ◌≤◌, ◌<◌, ◌≡◌, ap, sym, ◌∙◌, inl, inr, Bool, ◌&&◌, List, length, length-append,
  take, drop, arith, pos, to_int16-small, to_int16-positive, to_int16-bound,
}
use x87sidecar.Instr.{Instr}
use x87sidecar.Instr.Bridge.{block_has_flag_liveness}
use x87sidecar.Cache.Runs.{BridgedRun, lookahead_bridged}
use x87sidecar.Cache.Regions.{Region, count_x87, take-append, lookahead_bridged-Profitable}

-- Where at most 0x10000 instructions are left from insn_idx on and lookahead_bridged reports a
-- positive total, no count has wrapped: that many instructions from insn_idx on are a region, and the
-- reported counts are its x87 instructions, at least three, and its bridges, between one and the
-- budget.
pub lookahead_bridged-exact :
    (instrs : List Instr) (insn_idx max_gap max_total_bridges n : ℕ) (allow_v2 : Bool)
    → length (drop insn_idx instrs) ≤ 2 ^ 16
    → (lookahead_bridged instrs insn_idx max_gap max_total_bridges allow_v2).total ≡ pos (suc n)
    → let r = lookahead_bridged instrs insn_idx max_gap max_total_bridges allow_v2 in
      let region = take (suc n) (drop insn_idx instrs) in
      Region (allow_v2 && block_has_flag_liveness instrs) max_gap region
      × (length region ≡ suc n)
      × ((b : ℕ) × (r.x87_count ≡ pos (count_x87 region))
          × (r.bridges ≡ pos b)
          × (suc n ≡ count_x87 region + b)
          × (3 ≤ count_x87 region)
          × (1 ≤ b)
          × (b ≤ max_total_bridges))
lookahead_bridged-exact instrs insn_idx max_gap max_total_bridges n allow_v2 fits total =
    elim (lookahead_bridged-Profitable instrs insn_idx max_gap max_total_bridges allow_v2) [
      | inl e ↦
          absurd
            (let p : pos 0 ≡ pos (suc n) = sym (ap (λ (r : BridgedRun). r.total) e) ∙ total in cc)
      | inr (region, behind, splits, p) ↦
          let short : length region ≤ 2 ^ 16 =
            omega (
              arith,
              fits,
              ap (λ (l : List Instr). length l) splits,
              length-append region behind,
            ) in
          let l : length region ≡ suc n =
            to_int16-positive (length region) n short (sym p.total ∙ total) in
          let small : length region < 2 ^ 15 =
            to_int16-bound (length region) n (sym p.total ∙ total) l in
          let same : take (suc n) (drop insn_idx instrs) ≡ region =
            rw (sym l, splits) (take-append region behind) in
          rw same (
            p.shape,
            l,
            (
              p.bridge_count,
              p.x87 ∙ to_int16-small (count_x87 region) (omega (arith, p.bridged)),
              p.bridges ∙ to_int16-small p.bridge_count (omega (arith, p.bridged)),
              omega (arith, l, p.bridged),
              p.enough,
              p.joined,
              p.budget,
            ),
          )
    ]
