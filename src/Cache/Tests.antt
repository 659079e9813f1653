-- ===== src/Cache/Tests.antt =====
-- Runs that the lookaheads find in small programs.
use x87sidecar.Common.{◌≡◌, refl, ap, false, List, [], ◌∷◌, ◌&&◌, take, drop}
use x87sidecar.Instr.{Instr, fld, fmul, faddp, fstp, is_gpr}
use x87sidecar.Instr.Bridge.{
  block_has_flag_liveness, is_bridge_v1, v1_shape, two_operand_shape, gpr_32_or_64, mem_32_or_64,
}
use x87sidecar.Build.Tests.{two_operands, qword, st, program, load_word}
use x87sidecar.Common.{pos}
use x87sidecar.Build.Tests.{log_fpu, initial_stack}
use x87sidecar.Build.Dispatch.{build_case}
use x87sidecar.Build.Simulation.Runs.{before_run}
use x87sidecar.Semantics.Machine.{exec}
use x87sidecar.Common.{ℕ, ltb, if◌then◌else◌, arith}
use x87sidecar.Instr.{reg_index}
use x87sidecar.Cache.Effects.{low_two, effect_of, operands_and_top, st_operand_mask, st_operand}
use x87sidecar.Cache.Reads.{Agree, known_after}
use x87sidecar.Cache.ReadTable.{Decoded, slot_effect-Agree}
use x87sidecar.Cache.Effects.{slot_effect}
use x87sidecar.Cache.TopMoves.{top_after, slot_effect-top}
use x87sidecar.Cache.Runs.{is_handled_x87, lookahead, lookahead_bridged, BridgedRun, scan}
use x87sidecar.Cache.Regions.{
  AllHandled, Region, Reports, lookahead-AllHandled, lookahead_bridged-Profitable,
}
use x87sidecar.Cache.Counts.{lookahead_bridged-exact}

-- The program with an integer load between its two pairs, and another after its end.
abbrev bridged_program : List Instr
bridged_program =
    two_operands fld (qword 8) (qword 8)
    ∷ two_operands fmul (st 0) (st 1)
    ∷ load_word
    ∷ two_operands faddp (st 2) (st 0)
    ∷ two_operands fstp (qword 16) (qword 16)
    ∷ load_word
    ∷ []

-- The load after the last x87 instruction is left out.
joins_one :
    lookahead_bridged bridged_program 0 2 8 false
    ≡ record { total = pos 5; x87_count = pos 4; bridges = pos 1 }
unfolding lookahead_bridged scan is_handled_x87 is_bridge_v1 v1_shape two_operand_shape gpr_32_or_64
    mem_32_or_64 is_gpr
joins_one = refl

lookahead_bridged-Profitable_example :
    Reports
      (false && block_has_flag_liveness bridged_program)
      2
      8
      bridged_program
      (lookahead_bridged bridged_program 0 2 8 false)
lookahead_bridged-Profitable_example = lookahead_bridged-Profitable bridged_program 0 2 8 false

lookahead_bridged-exact_example :
    Region (false && block_has_flag_liveness bridged_program) 2 (take 5 bridged_program)
lookahead_bridged-exact_example =
    (lookahead_bridged-exact bridged_program 0 2 8 4 false (omega arith)
      (ap (λ (r : BridgedRun). r.total) joins_one)).0

lookahead-AllHandled_example : AllHandled (take (lookahead program 0) (drop 0 program))
lookahead-AllHandled_example = (lookahead-AllHandled program 0).0

-- fstp moves TOP up by one.
slot_effect-top_example :
    (exec log_fpu
      (two_operands fstp (qword 16) (qword 16))
      (before_run log_fpu initial_stack [])).top
    ≡ top_after (slot_effect (two_operands fstp (qword 16) (qword 16))) (pos 0)
unfolding build_case
slot_effect-top_example =
    slot_effect-top log_fpu (two_operands fstp (qword 16) (qword 16))
      (before_run log_fpu initial_stack []) (λ e. cc)

-- Another stack, which differs below ST(1).
abbrev other_stack : ℕ → ℕ
other_stack d = if ltb d 2 then initial_stack d else 0

multiply : Instr
multiply = two_operands fmul (st 0) (st 1)

slot_effect-Agree_example :
    Agree
      (known_after (slot_effect multiply) low_two)
      (exec log_fpu multiply (before_run log_fpu initial_stack []))
      (exec log_fpu multiply (before_run log_fpu other_stack []))
unfolding multiply build_case Decoded slot_effect effect_of operands_and_top st_operand_mask
    st_operand reg_index
slot_effect-Agree_example =
    slot_effect-Agree log_fpu multiply low_two (before_run log_fpu initial_stack [])
      (before_run log_fpu other_stack []) (λ e. cc)
      ((λ e. (omega arith, refl, omega arith)), (λ e. (omega arith, refl, omega arith)))
      (λ d e. ground (arith, e)) (record { worlds = refl; tops = refl; slots = λ d e. rw e refl })
