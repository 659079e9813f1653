-- ===== src/Cache/Effects.antt =====
-- rosetta_core/src/X87Cache.cpp: slot_effect, which registers an instruction reads and how it moves
-- TOP. A mask of depths, a byte in the source, is the test of its bits.
use x87sidecar.Common.{
  ℕ, zero, suc, ◌%◌, ◌||◌, ◌&&◌, Bool, true, false, if◌then◌else◌, ◌==◌, ltb, Option, none, some,
}
use x87sidecar.Instr.{
  Instr, Operand, Opcode, Size, s80, is_register, index_of, fldz, fld1, fldl2e, fldl2t, fldlg2,
  fldln2, fldpi, fild, fbld, fld, fst, fst_stack, fstp, fstp_stack, fadd, fsub, fsubr, fdiv, fdivr,
  fmul, fcom, fucom, fcomi, fucomi, fcmovb, fcmovbe, fcmove, fcmovnb, fcmovnbe, fcmovne, fcmovu,
  fcmovnu, faddp, fsubp, fsubrp, fdivp, fdivrp, fmulp, fcomp, fucomp, fcomip, fucomip, fcompp,
  fucompp, fist, fistp, fisttp, fiadd, fisub, fisubr, fimul, fidiv, fidivr, ficom, ftst, fxam, fchs,
  fabs, fsqrt, frndint, fsin, fcos, f2xm1, ficomp, fbstp, fsincos, fptan, fxtract, fscale, fprem,
  fprem1, fpatan, fyl2x, fyl2xp1, fxch, ffree, fincstp, fdecstp, fsave, frstor,
}

abbrev pub Depths : Type 0
Depths = ℕ → Bool

-- The mask 0.
abbrev pub no_depths : Depths
no_depths d = false

-- 1U << k.
abbrev pub only : ℕ → Depths
only k d = d == k

abbrev pub both : Depths → Depths → Depths
both a b d = a d || b d

-- The mask 0x3.
abbrev pub low_two : Depths
low_two d = ltb d 2

-- The mask 0xFF.
abbrev pub all_depths : Depths
all_depths d = ltb d 8

pub data EffectKind : Type 0 where
  effect_plain effect_fxch effect_free effect_top_inc effect_top_dec : EffectKind
  effect_save effect_restore : EffectKind

pub record SlotEffect : Type 0 where
  pub reads : Depths
  pub soft : Depths
  pub writes : Depths
  pub pushes : ℕ
  pub pops : ℕ
  pub kind : EffectKind
  pub arg : ℕ

-- SlotEffect e;
abbrev pub plain : SlotEffect
plain = record {
  reads = no_depths;
  soft = no_depths;
  writes = no_depths;
  pushes = 0;
  pops = 0;
  kind = effect_plain;
  arg = 0;
}

-- operands[k], for k below 4.
abbrev pub operand : Instr → ℕ → Operand
operand ins zero = ins.operand0
operand ins (suc zero) = ins.operand1
operand ins (suc (suc zero)) = ins.operand2
operand ins _ = ins.operand3

-- `none` for -1.
unfoldable pub st_operand : Instr → ℕ → Option ℕ
st_operand ins k =
    if ltb k ins.num_operands && is_register (operand ins k).kind
    then some (index_of (operand ins k) % 8)
    else none

abbrev pub mask_of : Option ℕ → Depths
mask_of none d = false
mask_of (some k) d = d == k

unfoldable pub st_operand_mask : Instr → Depths
unfolding st_operand
st_operand_mask ins =
    both (both (mask_of (st_operand ins 0)) (mask_of (st_operand ins 1)))
      (both (mask_of (st_operand ins 2)) (mask_of (st_operand ins 3)))

-- st_operand_mask(insn) | 1U.
unfoldable pub operands_and_top : Instr → Depths
unfolding st_operand_mask
operands_and_top ins = both (st_operand_mask ins) (only 0)

abbrev pub fld_effect : Option ℕ → Option ℕ → SlotEffect
fld_effect (some dst) (some src) = record plain { reads = only src; soft = only src; pushes = 1 }
fld_effect _ _ = record plain { pushes = 1 }

abbrev pub is_s80 : Size → Bool
is_s80 s80 = true
is_s80 _ = false

-- `dst < 0 && insn.num_operands > 0 && insn.operands[0].mem.size == S80`
abbrev pub is_m80 : Option ℕ → Instr → Bool
is_m80 none ins = ltb 0 ins.num_operands && is_s80 ins.operand0.size
is_m80 (some dst) ins = false

-- `if (dst > 0) e.writes = 1U << dst;`
abbrev pub written : Option ℕ → Depths
written none d = false
written (some dst) d = ltb 0 dst && d == dst

-- The case of the stores, without the pop.
unfoldable pub fst_effect : Instr → SlotEffect
unfolding st_operand
fst_effect ins =
    let dst = st_operand ins 0 in
    record plain {
      reads = if is_m80 dst ins then no_depths else only 0;
      soft = if is_m80 dst ins then no_depths else only 0;
      writes = written dst;
    }

-- `if (d > 0)`: an exchange with ST(0) itself, or with no register, has no effect.
abbrev pub fxch_effect : Option ℕ → SlotEffect
fxch_effect none = plain
fxch_effect (some zero) = plain
fxch_effect (some (suc d)) = record plain {
  reads = both (only 0) (only (suc d));
  soft = both (only 0) (only (suc d));
  kind = effect_fxch;
  arg = suc d;
}

abbrev pub or_zero : Option ℕ → ℕ
or_zero none = 0
or_zero (some d) = d

unfoldable pub effect_of : Opcode → Instr → SlotEffect
unfolding st_operand operands_and_top fst_effect
effect_of fldz ins = record plain { pushes = 1 }
effect_of fld1 ins = record plain { pushes = 1 }
effect_of fldl2e ins = record plain { pushes = 1 }
effect_of fldl2t ins = record plain { pushes = 1 }
effect_of fldlg2 ins = record plain { pushes = 1 }
effect_of fldln2 ins = record plain { pushes = 1 }
effect_of fldpi ins = record plain { pushes = 1 }
effect_of fild ins = record plain { pushes = 1 }
effect_of fbld ins = record plain { pushes = 1 }
effect_of fld ins = fld_effect (st_operand ins 0) (st_operand ins 1)
effect_of fst ins = fst_effect ins
effect_of fst_stack ins = fst_effect ins
effect_of fstp ins = let e = fst_effect ins in record e { pops = 1 }
effect_of fstp_stack ins = let e = fst_effect ins in record e { pops = 1 }
effect_of fadd ins = record plain { reads = operands_and_top ins }
effect_of fsub ins = record plain { reads = operands_and_top ins }
effect_of fsubr ins = record plain { reads = operands_and_top ins }
effect_of fdiv ins = record plain { reads = operands_and_top ins }
effect_of fdivr ins = record plain { reads = operands_and_top ins }
effect_of fmul ins = record plain { reads = operands_and_top ins }
effect_of fcom ins = record plain { reads = operands_and_top ins }
effect_of fucom ins = record plain { reads = operands_and_top ins }
effect_of fcomi ins = record plain { reads = operands_and_top ins }
effect_of fucomi ins = record plain { reads = operands_and_top ins }
effect_of fcmovb ins = record plain { reads = operands_and_top ins }
effect_of fcmovbe ins = record plain { reads = operands_and_top ins }
effect_of fcmove ins = record plain { reads = operands_and_top ins }
effect_of fcmovnb ins = record plain { reads = operands_and_top ins }
effect_of fcmovnbe ins = record plain { reads = operands_and_top ins }
effect_of fcmovne ins = record plain { reads = operands_and_top ins }
effect_of fcmovu ins = record plain { reads = operands_and_top ins }
effect_of fcmovnu ins = record plain { reads = operands_and_top ins }
effect_of faddp ins = record plain { reads = operands_and_top ins; pops = 1 }
effect_of fsubp ins = record plain { reads = operands_and_top ins; pops = 1 }
effect_of fsubrp ins = record plain { reads = operands_and_top ins; pops = 1 }
effect_of fdivp ins = record plain { reads = operands_and_top ins; pops = 1 }
effect_of fdivrp ins = record plain { reads = operands_and_top ins; pops = 1 }
effect_of fmulp ins = record plain { reads = operands_and_top ins; pops = 1 }
effect_of fcomp ins = record plain { reads = operands_and_top ins; pops = 1 }
effect_of fucomp ins = record plain { reads = operands_and_top ins; pops = 1 }
effect_of fcomip ins = record plain { reads = operands_and_top ins; pops = 1 }
effect_of fucomip ins = record plain { reads = operands_and_top ins; pops = 1 }
effect_of fcompp ins = record plain { reads = low_two; pops = 2 }
effect_of fucompp ins = record plain { reads = low_two; pops = 2 }
effect_of fist ins = record plain { reads = only 0; soft = only 0 }
effect_of fistp ins = record plain { reads = only 0; soft = only 0; pops = 1 }
effect_of fisttp ins = record plain { reads = only 0; soft = only 0; pops = 1 }
effect_of fiadd ins = record plain { reads = only 0 }
effect_of fisub ins = record plain { reads = only 0 }
effect_of fisubr ins = record plain { reads = only 0 }
effect_of fimul ins = record plain { reads = only 0 }
effect_of fidiv ins = record plain { reads = only 0 }
effect_of fidivr ins = record plain { reads = only 0 }
effect_of ficom ins = record plain { reads = only 0 }
effect_of ftst ins = record plain { reads = only 0 }
effect_of fxam ins = record plain { reads = only 0 }
effect_of fchs ins = record plain { reads = only 0 }
effect_of fabs ins = record plain { reads = only 0 }
effect_of fsqrt ins = record plain { reads = only 0 }
effect_of frndint ins = record plain { reads = only 0 }
effect_of fsin ins = record plain { reads = only 0 }
effect_of fcos ins = record plain { reads = only 0 }
effect_of f2xm1 ins = record plain { reads = only 0 }
effect_of ficomp ins = record plain { reads = only 0; pops = 1 }
effect_of fbstp ins = record plain { reads = only 0; pops = 1 }
effect_of fsincos ins = record plain { reads = only 0; pushes = 1 }
effect_of fptan ins = record plain { reads = only 0; pushes = 1 }
effect_of fxtract ins = record plain { reads = only 0; pushes = 1 }
effect_of fscale ins = record plain { reads = low_two }
effect_of fprem ins = record plain { reads = low_two }
effect_of fprem1 ins = record plain { reads = low_two }
effect_of fpatan ins = record plain { reads = low_two; pops = 1 }
effect_of fyl2x ins = record plain { reads = low_two; pops = 1 }
effect_of fyl2xp1 ins = record plain { reads = low_two; pops = 1 }
effect_of fxch ins = fxch_effect (st_operand ins 1)
effect_of ffree ins = record plain { kind = effect_free; arg = or_zero (st_operand ins 0) }
effect_of fincstp ins = record plain { kind = effect_top_inc }
effect_of fdecstp ins = record plain { kind = effect_top_dec }
effect_of fsave ins = record plain { reads = all_depths; soft = all_depths; kind = effect_save }
effect_of frstor ins = record plain { kind = effect_restore }
effect_of _ ins = plain

unfoldable pub slot_effect : Instr → SlotEffect
unfolding effect_of
slot_effect ins = effect_of ins.opcode ins
