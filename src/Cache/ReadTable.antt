-- ===== src/Cache/ReadTable.antt =====
-- X87Cache.cpp: the table of slot_effect, on two machines that agree on what is read.
use x87sidecar.Common.{◌≡◌, ◌≢◌, refl, true, false, none}
use x87sidecar.Instr.{
  Opcode, Instr, is_register, fadd, fsub, fsubr, fmul, fdiv, fdivr, faddp, fsubp, fsubrp, fmulp,
  fdivp, fdivrp, fiadd, fisub, fisubr, fimul, fidiv, fidivr, fldz, fld1, fldl2e, fldl2t, fldlg2,
  fldln2, fldpi, fchs, fabs, fsin, fcos, fsqrt, frndint, fcmovb, fcmovbe, fcmove, fcmovnb, fcmovnbe,
  fcmovne, fcmovu, fcmovnu, fcomi, fucomi, fcomip, fucomip, fld, fild, fst, fst_stack, fstp,
  fstp_stack, fist, fistp, fisttp, fsincos, fptan, fpatan, fyl2x, fscale, fxch, fcom, fucom, fcomp,
  fucomp, fcompp, fucompp, ficom, ficomp, ftst, fstsw, fbld, fxtract, fbstp, fyl2xp1,
}
use x87sidecar.Semantics.Fpu.{Fpu, Arith}
use x87sidecar.Semantics.Machine.{Machine, exec_op, exec}
use x87sidecar.Build.Dispatch.{build_case}
use x87sidecar.Cache.Effects.{Depths, no_depths, both, is_s80, effect_of, slot_effect, fst_effect}
use x87sidecar.Cache.Reads.{Agree, known_after, popped, push_Agree, pop_Agree}
use x87sidecar.Cache.ReadForms.{
  Named, Covers, put_Agree, fresh_Agree, effect_Agree, arith_Agree, arithp_Agree, compare_Agree,
  second_known, top_known, fld_Agree, fst_Agree, fxch_Agree,
}

-- What the decoder gives: which operands are stack registers, and no store of 80 bits.
unfoldable pub Decoded : Opcode → Instr → Type 0
Decoded fadd ins =
    (is_register ins.operand0.kind ≡ true → Named ins 0)
    × (is_register ins.operand0.kind ≡ true → Named ins 1)
Decoded fsub ins =
    (is_register ins.operand0.kind ≡ true → Named ins 0)
    × (is_register ins.operand0.kind ≡ true → Named ins 1)
Decoded fsubr ins =
    (is_register ins.operand0.kind ≡ true → Named ins 0)
    × (is_register ins.operand0.kind ≡ true → Named ins 1)
Decoded fmul ins =
    (is_register ins.operand0.kind ≡ true → Named ins 0)
    × (is_register ins.operand0.kind ≡ true → Named ins 1)
Decoded fdiv ins =
    (is_register ins.operand0.kind ≡ true → Named ins 0)
    × (is_register ins.operand0.kind ≡ true → Named ins 1)
Decoded fdivr ins =
    (is_register ins.operand0.kind ≡ true → Named ins 0)
    × (is_register ins.operand0.kind ≡ true → Named ins 1)
Decoded fld ins =
    (is_register ins.operand0.kind ≡ true → Named ins 0)
    × (is_register ins.operand0.kind ≡ true → Named ins 1)
Decoded fst ins =
    (is_register ins.operand0.kind ≡ true → Named ins 0)
    × (is_register ins.operand0.kind ≡ false → is_s80 ins.operand0.size ≡ false)
Decoded fst_stack ins =
    (is_register ins.operand0.kind ≡ true → Named ins 0)
    × (is_register ins.operand0.kind ≡ false → is_s80 ins.operand0.size ≡ false)
Decoded fstp ins =
    (is_register ins.operand0.kind ≡ true → Named ins 0)
    × (is_register ins.operand0.kind ≡ false → is_s80 ins.operand0.size ≡ false)
Decoded fstp_stack ins =
    (is_register ins.operand0.kind ≡ true → Named ins 0)
    × (is_register ins.operand0.kind ≡ false → is_s80 ins.operand0.size ≡ false)
Decoded faddp ins = Named ins 0
Decoded fsubp ins = Named ins 0
Decoded fsubrp ins = Named ins 0
Decoded fmulp ins = Named ins 0
Decoded fdivp ins = Named ins 0
Decoded fdivrp ins = Named ins 0
Decoded fcom ins = is_register ins.operand1.kind ≡ true → Named ins 1
Decoded fucom ins = is_register ins.operand1.kind ≡ true → Named ins 1
Decoded fcomp ins = is_register ins.operand1.kind ≡ true → Named ins 1
Decoded fucomp ins = is_register ins.operand1.kind ≡ true → Named ins 1
Decoded fcomi ins = Named ins 1
Decoded fucomi ins = Named ins 1
Decoded fcomip ins = Named ins 1
Decoded fucomip ins = Named ins 1
Decoded fcmovb ins = Named ins 1
Decoded fcmovbe ins = Named ins 1
Decoded fcmove ins = Named ins 1
Decoded fcmovnb ins = Named ins 1
Decoded fcmovnbe ins = Named ins 1
Decoded fcmovne ins = Named ins 1
Decoded fcmovu ins = Named ins 1
Decoded fcmovnu ins = Named ins 1
Decoded fxch ins = Named ins 1
Decoded _ ins = Unit

module _ (fpu : Fpu) (s : Depths) (m m' : Machine fpu.V fpu.W) (a : Agree s m m') where
  effect_of-Agree :
      (op : Opcode) (ins : Instr)
      → build_case op ins ≢ none
      → Decoded op ins
      → Covers (effect_of op ins) s
      → Agree (known_after (effect_of op ins) s) (exec_op fpu op ins m) (exec_op fpu op ins m')
  unfolding exec_op effect_of build_case Decoded
  effect_of-Agree fldz ins b d c = fresh_Agree fpu s m m' a _ _ refl
  effect_of-Agree fld1 ins b d c = fresh_Agree fpu s m m' a _ _ refl
  effect_of-Agree fldl2e ins b d c = fresh_Agree fpu s m m' a _ _ refl
  effect_of-Agree fldl2t ins b d c = fresh_Agree fpu s m m' a _ _ refl
  effect_of-Agree fldlg2 ins b d c = fresh_Agree fpu s m m' a _ _ refl
  effect_of-Agree fldln2 ins b d c = fresh_Agree fpu s m m' a _ _ refl
  effect_of-Agree fldpi ins b d c = fresh_Agree fpu s m m' a _ _ refl
  effect_of-Agree fild ins b d c = fresh_Agree fpu s m m' a _ _ (rw a.worlds refl)
  effect_of-Agree fld ins b (n0, n1) c = fld_Agree fpu s m m' a ins n0 n1 c
  effect_of-Agree fst ins b (n0, small) c = fst_Agree fpu s m m' a ins n0 small c
  effect_of-Agree fst_stack ins b (n0, small) c = fst_Agree fpu s m m' a ins n0 small c
  effect_of-Agree fstp ins b (n0, small) c =
      pop_Agree fpu (both s (fst_effect ins).writes) _ _ (fst_Agree fpu s m m' a ins n0 small c)
  effect_of-Agree fstp_stack ins b (n0, small) c =
      pop_Agree fpu (both s (fst_effect ins).writes) _ _ (fst_Agree fpu s m m' a ins n0 small c)
  effect_of-Agree fist ins b d c =
      let x = a.slots 0 (c 0 refl) in effect_Agree fpu s m m' a _ _ (rw (a.worlds, x) refl)
  effect_of-Agree fistp ins b d c =
      let x = a.slots 0 (c 0 refl) in
      pop_Agree fpu (both s no_depths) _ _ (effect_Agree fpu s m m' a _ _ (rw (a.worlds, x) refl))
  effect_of-Agree fisttp ins b d c =
      let x = a.slots 0 (c 0 refl) in
      pop_Agree fpu (both s no_depths) _ _ (effect_Agree fpu s m m' a _ _ (rw (a.worlds, x) refl))
  effect_of-Agree fadd ins b (n0, n1) c = arith_Agree fpu s m m' a Arith.add false ins n0 n1 c
  effect_of-Agree fsub ins b (n0, n1) c = arith_Agree fpu s m m' a Arith.sub false ins n0 n1 c
  effect_of-Agree fsubr ins b (n0, n1) c = arith_Agree fpu s m m' a Arith.sub true ins n0 n1 c
  effect_of-Agree fmul ins b (n0, n1) c = arith_Agree fpu s m m' a Arith.mul false ins n0 n1 c
  effect_of-Agree fdiv ins b (n0, n1) c = arith_Agree fpu s m m' a Arith.div false ins n0 n1 c
  effect_of-Agree fdivr ins b (n0, n1) c = arith_Agree fpu s m m' a Arith.div true ins n0 n1 c
  effect_of-Agree fiadd ins b d c =
      let x = a.slots 0 (c 0 refl) in put_Agree fpu s m m' a 0 _ _ (rw (a.worlds, x) refl)
  effect_of-Agree fisub ins b d c =
      let x = a.slots 0 (c 0 refl) in put_Agree fpu s m m' a 0 _ _ (rw (a.worlds, x) refl)
  effect_of-Agree fisubr ins b d c =
      let x = a.slots 0 (c 0 refl) in put_Agree fpu s m m' a 0 _ _ (rw (a.worlds, x) refl)
  effect_of-Agree fimul ins b d c =
      let x = a.slots 0 (c 0 refl) in put_Agree fpu s m m' a 0 _ _ (rw (a.worlds, x) refl)
  effect_of-Agree fidiv ins b d c =
      let x = a.slots 0 (c 0 refl) in put_Agree fpu s m m' a 0 _ _ (rw (a.worlds, x) refl)
  effect_of-Agree fidivr ins b d c =
      let x = a.slots 0 (c 0 refl) in put_Agree fpu s m m' a 0 _ _ (rw (a.worlds, x) refl)
  effect_of-Agree faddp ins b d c = arithp_Agree fpu s m m' a Arith.add false ins d c
  effect_of-Agree fsubp ins b d c = arithp_Agree fpu s m m' a Arith.sub false ins d c
  effect_of-Agree fsubrp ins b d c = arithp_Agree fpu s m m' a Arith.sub true ins d c
  effect_of-Agree fmulp ins b d c = arithp_Agree fpu s m m' a Arith.mul false ins d c
  effect_of-Agree fdivp ins b d c = arithp_Agree fpu s m m' a Arith.div false ins d c
  effect_of-Agree fdivrp ins b d c = arithp_Agree fpu s m m' a Arith.div true ins d c
  effect_of-Agree fchs ins b d c =
      let x = a.slots 0 (c 0 refl) in put_Agree fpu s m m' a 0 _ _ (rw x refl)
  effect_of-Agree fabs ins b d c =
      let x = a.slots 0 (c 0 refl) in put_Agree fpu s m m' a 0 _ _ (rw x refl)
  effect_of-Agree fsin ins b d c =
      let x = a.slots 0 (c 0 refl) in put_Agree fpu s m m' a 0 _ _ (rw x refl)
  effect_of-Agree fcos ins b d c =
      let x = a.slots 0 (c 0 refl) in put_Agree fpu s m m' a 0 _ _ (rw x refl)
  effect_of-Agree fsqrt ins b d c =
      let x = a.slots 0 (c 0 refl) in put_Agree fpu s m m' a 0 _ _ (rw (a.worlds, x) refl)
  effect_of-Agree frndint ins b d c =
      let x = a.slots 0 (c 0 refl) in put_Agree fpu s m m' a 0 _ _ (rw (a.worlds, x) refl)
  effect_of-Agree fsincos ins b d c =
      let x = a.slots 0 (c 0 refl) in
      push_Agree fpu (both s no_depths) _ _ _ _ (rw x refl)
        (put_Agree fpu s m m' a 0 _ _ (rw x refl))
  effect_of-Agree fptan ins b d c =
      let x = a.slots 0 (c 0 refl) in
      push_Agree fpu (both s no_depths) _ _ _ _ refl (put_Agree fpu s m m' a 0 _ _ (rw x refl))
  effect_of-Agree fpatan ins b d c =
      let x = a.slots 0 (c 0 refl) in
      let y = a.slots 1 (c 1 refl) in
      pop_Agree fpu (both s no_depths) _ _ (put_Agree fpu s m m' a 1 _ _ (rw (x, y) refl))
  effect_of-Agree fyl2x ins b d c =
      let x = a.slots 0 (c 0 refl) in
      let y = a.slots 1 (c 1 refl) in
      pop_Agree fpu (both s no_depths) _ _ (put_Agree fpu s m m' a 1 _ _ (rw (x, y) refl))
  effect_of-Agree fscale ins b d c =
      let x = a.slots 0 (c 0 refl) in
      let y = a.slots 1 (c 1 refl) in put_Agree fpu s m m' a 0 _ _ (rw (x, y) refl)
  effect_of-Agree fxch ins b d c = fxch_Agree fpu s m m' a ins d c
  effect_of-Agree fcom ins b d c = compare_Agree fpu s m m' a ins d c fpu.compare_status
  effect_of-Agree fucom ins b d c = compare_Agree fpu s m m' a ins d c fpu.compare_status
  effect_of-Agree fcomp ins b d c =
      pop_Agree fpu (both s no_depths) _ _ (compare_Agree fpu s m m' a ins d c fpu.compare_status)
  effect_of-Agree fucomp ins b d c =
      pop_Agree fpu (both s no_depths) _ _ (compare_Agree fpu s m m' a ins d c fpu.compare_status)
  effect_of-Agree fcompp ins b d c =
      let x = a.slots 0 (c 0 refl) in
      let y = a.slots 1 (c 1 refl) in
      pop_Agree fpu (popped 1 (both s no_depths)) _ _ (
        pop_Agree fpu (both s no_depths) _ _
          (effect_Agree fpu s m m' a _ _ (rw (a.worlds, x, y) refl)))
  effect_of-Agree fucompp ins b d c =
      let x = a.slots 0 (c 0 refl) in
      let y = a.slots 1 (c 1 refl) in
      pop_Agree fpu (popped 1 (both s no_depths)) _ _ (
        pop_Agree fpu (both s no_depths) _ _
          (effect_Agree fpu s m m' a _ _ (rw (a.worlds, x, y) refl)))
  effect_of-Agree ficom ins b d c =
      let x = a.slots 0 (c 0 refl) in effect_Agree fpu s m m' a _ _ (rw (a.worlds, x) refl)
  effect_of-Agree ficomp ins b d c =
      let x = a.slots 0 (c 0 refl) in
      pop_Agree fpu (both s no_depths) _ _ (effect_Agree fpu s m m' a _ _ (rw (a.worlds, x) refl))
  effect_of-Agree fcomi ins b d c =
      let x = top_known fpu s m m' a ins c in
      let y = second_known fpu s m m' a ins d c in
      effect_Agree fpu s m m' a _ _ (rw (a.worlds, x, y) refl)
  effect_of-Agree fucomi ins b d c =
      let x = top_known fpu s m m' a ins c in
      let y = second_known fpu s m m' a ins d c in
      effect_Agree fpu s m m' a _ _ (rw (a.worlds, x, y) refl)
  effect_of-Agree fcomip ins b d c =
      let x = top_known fpu s m m' a ins c in
      let y = second_known fpu s m m' a ins d c in
      pop_Agree fpu (both s no_depths) _ _
        (effect_Agree fpu s m m' a _ _ (rw (a.worlds, x, y) refl))
  effect_of-Agree fucomip ins b d c =
      let x = top_known fpu s m m' a ins c in
      let y = second_known fpu s m m' a ins d c in
      pop_Agree fpu (both s no_depths) _ _
        (effect_Agree fpu s m m' a _ _ (rw (a.worlds, x, y) refl))
  effect_of-Agree fcmovb ins b d c =
      let x = top_known fpu s m m' a ins c in
      let y = second_known fpu s m m' a ins d c in
      put_Agree fpu s m m' a 0 _ _ (rw (a.worlds, x, y) refl)
  effect_of-Agree fcmovbe ins b d c =
      let x = top_known fpu s m m' a ins c in
      let y = second_known fpu s m m' a ins d c in
      put_Agree fpu s m m' a 0 _ _ (rw (a.worlds, x, y) refl)
  effect_of-Agree fcmove ins b d c =
      let x = top_known fpu s m m' a ins c in
      let y = second_known fpu s m m' a ins d c in
      put_Agree fpu s m m' a 0 _ _ (rw (a.worlds, x, y) refl)
  effect_of-Agree fcmovnb ins b d c =
      let x = top_known fpu s m m' a ins c in
      let y = second_known fpu s m m' a ins d c in
      put_Agree fpu s m m' a 0 _ _ (rw (a.worlds, x, y) refl)
  effect_of-Agree fcmovnbe ins b d c =
      let x = top_known fpu s m m' a ins c in
      let y = second_known fpu s m m' a ins d c in
      put_Agree fpu s m m' a 0 _ _ (rw (a.worlds, x, y) refl)
  effect_of-Agree fcmovne ins b d c =
      let x = top_known fpu s m m' a ins c in
      let y = second_known fpu s m m' a ins d c in
      put_Agree fpu s m m' a 0 _ _ (rw (a.worlds, x, y) refl)
  effect_of-Agree fcmovu ins b d c =
      let x = top_known fpu s m m' a ins c in
      let y = second_known fpu s m m' a ins d c in
      put_Agree fpu s m m' a 0 _ _ (rw (a.worlds, x, y) refl)
  effect_of-Agree fcmovnu ins b d c =
      let x = top_known fpu s m m' a ins c in
      let y = second_known fpu s m m' a ins d c in
      put_Agree fpu s m m' a 0 _ _ (rw (a.worlds, x, y) refl)
  effect_of-Agree ftst ins b d c =
      let x = a.slots 0 (c 0 refl) in effect_Agree fpu s m m' a _ _ (rw (a.worlds, x) refl)
  effect_of-Agree fstsw ins b d c = effect_Agree fpu s m m' a _ _ (rw (a.worlds, a.tops) refl)
  effect_of-Agree fbld ins b d c = absurd (b refl)
  effect_of-Agree fxtract ins b d c = absurd (b refl)
  effect_of-Agree fbstp ins b d c = absurd (b refl)
  effect_of-Agree fyl2xp1 ins b d c = absurd (b refl)
  effect_of-Agree _ ins b d c = effect_Agree fpu s m m' a _ _ (rw a.worlds refl)

-- slot_effect lists every register that an instruction reads, for every instruction that the
-- builder has a case for, but an 80-bit store, and whose stack operands are as decoded: two machines
-- that agree on the state, on TOP, and on registers that include the listed ones still agree
-- afterwards, on the state, on TOP, and on those registers where pushes, pops and exchanges have
-- moved them, with every value that was pushed or written.
pub slot_effect-Agree :
    (fpu : Fpu) (ins : Instr) (s : Depths) (m m' : Machine fpu.V fpu.W)
    → build_case ins.opcode ins ≢ none
    → Decoded ins.opcode ins
    → Covers (slot_effect ins) s
    → Agree s m m'
    → Agree (known_after (slot_effect ins) s) (exec fpu ins m) (exec fpu ins m')
unfolding exec slot_effect
slot_effect-Agree fpu ins s m m' b d c a = effect_of-Agree fpu s m m' a ins.opcode ins b d c
