-- ===== src/Optimize/FusionTests.antt =====
-- pass_fcom_fstsw_fusion on a compare with two readers, and the theorems about it there.
use x87sidecar.Common.{
  ℕ, zero, suc, ◌<◌, ◌≡◌, ◌≢◌, ◌⊎◌, refl, sym, inr, List, [], ◌∷◌, get_elem?, pos, some, arith,
}
use x87sidecar.Ir.{Node, f_cmp, f_tst, f_stsw, imm}
use x87sidecar.Ir.Context.{Context, new_node, none_id}
use x87sidecar.Build.Tests.{filler, full_context}
use x87sidecar.Optimize.Fusion.{fuse, pass_fcom_fstsw_fusion, fuse_first, clean}
use x87sidecar.Optimize.FusionPairs.{Pair, Fusable}
use x87sidecar.Optimize.FusionComplete.{
  OneReader, pass_fcom_fstsw_fusion-Fusable, pass_fcom_fstsw_fusion-OneReader,
}

abbrev stsw : Node
stsw = new_node f_stsw (pos 0) (pos 0) (pos 0) (imm 0)

abbrev tst : Node
tst = new_node f_tst (pos 0) none_id none_id (imm 0)

-- A compare, an unrelated node, and two FStsw that name the compare.
abbrev status_nodes : List Node
status_nodes = tst ∷ filler ∷ stsw ∷ stsw ∷ []

abbrev status_context : Context
status_context = record full_context { nodes = status_nodes }

no_compare :
    (j : ℕ) (b : Node)
    → 0 < j
    → j < 3
    → get_elem? status_nodes j ≡ some b
    → (b.op ≢ f_cmp) × (b.op ≢ f_tst)
no_compare zero b l r e = absurd (omega arith)
no_compare (suc zero) b l r e = let p : filler ≡ b = cc in rw (sym p) ((λ q. cc), (λ q. cc))
no_compare (suc (suc zero)) b l r e = let p : stsw ≡ b = cc in rw (sym p) ((λ q. cc), (λ q. cc))
no_compare (suc (suc (suc j))) b l r e = absurd (omega arith)

near : Pair status_nodes 0 2
near = record {
  compare = tst;
  status = stsw;
  at_compare = refl;
  compares = inr refl;
  at_status = refl;
  live = refl;
  stores = refl;
  names = refl;
  between = λ j b l r e d. no_compare j b l (omega arith) e;
}

far : Pair status_nodes 0 3
far = record {
  compare = tst;
  status = stsw;
  at_compare = refl;
  compares = inr refl;
  at_status = refl;
  live = refl;
  stores = refl;
  names = refl;
  between = λ j b l r e d. no_compare j b l r e;
}

pass_fcom_fstsw_fusion-Fusable_example :
    ((fuse stsw ≡ fuse stsw) × Fusable status_nodes 2)
    ⊎ ((fuse stsw ≡ stsw) × ¬ Fusable status_nodes 2)
unfolding pass_fcom_fstsw_fusion fuse_first clean
pass_fcom_fstsw_fusion-Fusable_example =
    pass_fcom_fstsw_fusion-Fusable status_context 2 stsw (fuse stsw) refl refl refl

pass_fcom_fstsw_fusion-OneReader_example : ¬ OneReader (pass_fcom_fstsw_fusion status_context).nodes
pass_fcom_fstsw_fusion-OneReader_example =
    pass_fcom_fstsw_fusion-OneReader status_context 0 2 3 near far (omega arith)
