-- ===== src/Cache/Runs.antt =====
-- rosetta_core/src/X87Cache.cpp: is_handled_x87, is_native_transport_x87, and the lookaheads that
-- measure a run of x87 instructions.
use x87sidecar.Common.{
  ℕ, suc, ◌+◌, Bool, true, false, ◌&&◌, ◌||◌, if◌then◌else◌, ◌==◌, ltb, List, [], ◌∷◌, drop, ℤ, pos,
  to_int16,
}
use x87sidecar.Instr.{
  Instr, Opcode, fldz, fld1, fldl2e, fldl2t, fldlg2, fldln2, fldpi, fld, fild, fadd, faddp, fiadd,
  fsub, fsubr, fsubp, fsubrp, fdiv, fdivr, fdivp, fdivrp, fmul, fmulp, fst, fst_stack, fstp,
  fstp_stack, fstsw, fcom, fcomp, fcompp, fucom, fucomp, fucompp, fxch, fchs, fabs, fsqrt, fistp,
  fisttp, fidiv, fimul, fisub, fidivr, frndint, fcomi, fcomip, fucomi, fucomip, ftst, fist, fisubr,
  fcmovb, fcmovbe, fcmove, fcmovnb, fcmovnbe, fcmovne, fcmovu, fcmovnu, ficom, ficomp, fldcw,
  fnstcw, fnop, fdisi, feni, fxam, fbld, fdecstp, fincstp, ffree, fxtract, fscale, fbstp, frstor,
  fsave, fsin, fcos, f2xm1, fpatan, fsincos, fptan, fyl2x, fyl2xp1, fprem, fprem1,
}
use x87sidecar.Instr.Bridge.{is_bridge_v1, is_bridge_v2_proven, block_has_flag_liveness}

unfoldable pub is_handled_x87 : Opcode → Bool
is_handled_x87 fldz = true
is_handled_x87 fld1 = true
is_handled_x87 fldl2e = true
is_handled_x87 fldl2t = true
is_handled_x87 fldlg2 = true
is_handled_x87 fldln2 = true
is_handled_x87 fldpi = true
is_handled_x87 fld = true
is_handled_x87 fild = true
is_handled_x87 fadd = true
is_handled_x87 faddp = true
is_handled_x87 fiadd = true
is_handled_x87 fsub = true
is_handled_x87 fsubr = true
is_handled_x87 fsubp = true
is_handled_x87 fsubrp = true
is_handled_x87 fdiv = true
is_handled_x87 fdivr = true
is_handled_x87 fdivp = true
is_handled_x87 fdivrp = true
is_handled_x87 fmul = true
is_handled_x87 fmulp = true
is_handled_x87 fst = true
is_handled_x87 fst_stack = true
is_handled_x87 fstp = true
is_handled_x87 fstp_stack = true
is_handled_x87 fstsw = true
is_handled_x87 fcom = true
is_handled_x87 fcomp = true
is_handled_x87 fcompp = true
is_handled_x87 fucom = true
is_handled_x87 fucomp = true
is_handled_x87 fucompp = true
is_handled_x87 fxch = true
is_handled_x87 fchs = true
is_handled_x87 fabs = true
is_handled_x87 fsqrt = true
is_handled_x87 fistp = true
is_handled_x87 fisttp = true
is_handled_x87 fidiv = true
is_handled_x87 fimul = true
is_handled_x87 fisub = true
is_handled_x87 fidivr = true
is_handled_x87 frndint = true
is_handled_x87 fcomi = true
is_handled_x87 fcomip = true
is_handled_x87 fucomi = true
is_handled_x87 fucomip = true
is_handled_x87 ftst = true
is_handled_x87 fist = true
is_handled_x87 fisubr = true
is_handled_x87 fcmovb = true
is_handled_x87 fcmovbe = true
is_handled_x87 fcmove = true
is_handled_x87 fcmovnb = true
is_handled_x87 fcmovnbe = true
is_handled_x87 fcmovne = true
is_handled_x87 fcmovu = true
is_handled_x87 fcmovnu = true
is_handled_x87 ficom = true
is_handled_x87 ficomp = true
is_handled_x87 fldcw = true
is_handled_x87 fnstcw = true
is_handled_x87 fnop = true
is_handled_x87 fdisi = true
is_handled_x87 feni = true
is_handled_x87 fxam = true
is_handled_x87 fbld = true
is_handled_x87 fdecstp = true
is_handled_x87 fincstp = true
is_handled_x87 ffree = true
is_handled_x87 fxtract = true
is_handled_x87 fscale = true
is_handled_x87 fbstp = true
is_handled_x87 frstor = true
is_handled_x87 fsave = true
is_handled_x87 fsin = true
is_handled_x87 fcos = true
is_handled_x87 f2xm1 = true
is_handled_x87 fpatan = true
is_handled_x87 fsincos = true
is_handled_x87 fptan = true
is_handled_x87 fyl2x = true
is_handled_x87 fyl2xp1 = true
is_handled_x87 fprem = true
is_handled_x87 fprem1 = true
is_handled_x87 _ = false

unfoldable pub is_native_transport_x87 : Opcode → Bool
is_native_transport_x87 fild = true
is_native_transport_x87 fist = true
is_native_transport_x87 fistp = true
is_native_transport_x87 fisttp = true
is_native_transport_x87 fldcw = true
is_native_transport_x87 fnstcw = true
is_native_transport_x87 fnop = true
is_native_transport_x87 fdisi = true
is_native_transport_x87 feni = true
is_native_transport_x87 _ = false

-- The loop of lookahead, from insn_idx on.
unfoldable pub count_handled : List Instr → ℕ
count_handled [] = 0
count_handled (ins ∷ rest) =
    let count = count_handled rest in if is_handled_x87 ins.opcode then suc count else 0

unfoldable pub lookahead : List Instr → ℕ → ℕ
unfolding count_handled
lookahead instrs insn_idx = count_handled (drop insn_idx instrs)

-- The loop of is_native_transport_run; `moved` is `i > insn_idx`.
unfoldable pub all_native : List Instr → Bool → Bool
all_native [] moved = moved
all_native (ins ∷ rest) moved =
    let further = all_native rest true in
    if is_handled_x87 ins.opcode
    then (if is_native_transport_x87 ins.opcode then further else false)
    else moved

unfoldable pub is_native_transport_run : List Instr → ℕ → Bool
unfolding all_native
is_native_transport_run instrs insn_idx = all_native (drop insn_idx instrs) false

pub record BridgedRun : Type 0 where
  pub total : ℤ
  pub x87_count : ℤ
  pub bridges : ℤ

-- The counters of lookahead_bridged: ints in the source, which count instructions of one block.
pub record Scan : Type 0 where
  pub total : ℕ
  pub x87_count : ℕ
  pub bridges : ℕ
  pub pending_gap : ℕ
  pub joins : ℕ

abbrev pub scan_start : Scan
scan_start = record { total = 0; x87_count = 0; bridges = 0; pending_gap = 0; joins = 0 }

-- `if (pending_gap > 0) { joins++; bridges += pending_gap; pending_gap = 0; }`
abbrev pub close_gap : Scan → Scan
close_gap s =
    if ltb 0 s.pending_gap
    then record s { joins = suc s.joins; bridges = s.bridges + s.pending_gap; pending_gap = 0 }
    else s

-- An x87 instruction `i` places after the start.
abbrev pub take_x87 : ℕ → Scan → Scan
take_x87 i s = let t = close_gap s in record t { x87_count = suc t.x87_count; total = suc i }

abbrev pub may_bridge : Bool → Instr → Bool
may_bridge v2 ins = if v2 then is_bridge_v2_proven ins else is_bridge_v1 ins

abbrev pub has_room : ℕ → ℕ → Scan → Bool
has_room max_gap max_total_bridges s =
    ltb s.pending_gap max_gap && ltb (s.bridges + s.pending_gap) max_total_bridges

abbrev pub widen_gap : Scan → Scan
widen_gap s = record s { pending_gap = suc s.pending_gap }

unfoldable pub scan : Bool → ℕ → ℕ → ℕ → List Instr → Scan → Scan
scan v2 max_gap max_total_bridges i [] s = s
scan v2 max_gap max_total_bridges i (ins ∷ rest) s =
    let after_x87 = scan v2 max_gap max_total_bridges (suc i) rest (take_x87 i s) in
    let after_bridge = scan v2 max_gap max_total_bridges (suc i) rest (widen_gap s) in
    if is_handled_x87 ins.opcode
    then after_x87
    else if may_bridge v2 ins && has_room max_gap max_total_bridges s
    then after_bridge
    else s

abbrev pub no_run : BridgedRun
no_run = record { total = pos 0; x87_count = pos 0; bridges = pos 0 }

-- `if (joins == 0 || x87_count < 3) return BridgedRun{};`, else the counters cast to int16_t.
abbrev pub commit : Scan → BridgedRun
commit s = if s.joins == 0 || ltb s.x87_count 3 then no_run else record {
  total = to_int16 s.total;
  x87_count = to_int16 s.x87_count;
  bridges = to_int16 s.bridges;
}

unfoldable pub lookahead_bridged : List Instr → ℕ → ℕ → ℕ → Bool → BridgedRun
lookahead_bridged instrs insn_idx max_gap max_total_bridges allow_v2 =
    let v2 = allow_v2 && block_has_flag_liveness instrs in
    commit (scan v2 max_gap max_total_bridges 0 (drop insn_idx instrs) scan_start)
