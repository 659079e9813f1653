-- ===== src/Build/Simulation/Runs.antt =====
-- One round of the loop, and the whole of build.
use x87sidecar.Common.{
  ℕ, suc, ◌+◌, ◌-◌, ◌≤◌, ◌≡◌, refl, ap, ◌∙◌, inl, inr, pos, Bool, Bool-cases, List, [], ◌∷◌, length,
  length-append, length-replicate, take, replicate, Option, none, some, arith, subst,
}
use x87sidecar.Instr.{Instr}
use x87sidecar.Ir.Ordered.{Frame}
use x87sidecar.Ir.Context.{Context, num_nodes, init}
use x87sidecar.Build.Parts.{has_segment_override}
use x87sidecar.Build.Dispatch.{bail, build_op}
use x87sidecar.Build.Loop.{
  attribute, consume, finish_step, build_step, continue, build_loop, window, build,
}
use x87sidecar.Semantics.Fpu.{Fpu}
use x87sidecar.Semantics.Machine.{Machine, exec, exec_all}
use x87sidecar.Semantics.Eval.{run, start}
use x87sidecar.Build.Simulation.Relation.{Sim}
use x87sidecar.Build.Simulation.Instructions.{Takes}
use x87sidecar.Build.Simulation.Cases.{build_op-Takes}

module _ (fpu : Fpu) (stack : ℕ → fpu.V) (w0 : fpu.W) where
  open fpu use {V, W}

  abbrev pub frame_of : Context → Frame
  frame_of c = record { before = num_nodes c; consumed = c.consumed; node_src = c.node_src }

  -- The relation between the rounds of the loop: every node has its instruction on record.
  pub record Between (i : ℕ) (c : Context) (m : Machine V W) : Type 0 where
    pub agrees : Sim fpu stack w0 (frame_of c) c m
    pub counted : c.consumed ≡ i
    pub sources : length c.node_src ≡ num_nodes c

  -- The relation after the new nodes of instruction `k` are attributed.
  attributed :
      (fr : Frame) (c : Context) (m : Machine V W) (k : ℕ)
      → Sim fpu stack w0 fr c m
      → length fr.node_src ≡ fr.before
      → Between c.consumed (attribute fr.before k c) m
  attributed fr c m k s l = record {
    agrees = record {
      world = s.world;
      top = s.top;
      slots = s.slots;
      initial = s.initial;
      shape = record {
        grown = omega arith;
        bounded = s.shape.bounded;
        ordered = s.shape.ordered;
        compared = s.shape.compared;
        kept_consumed = refl;
        kept_src = refl;
      };
    };
    counted = refl;
    sources = omega (
      arith,
      s.shape.grown,
      length-append c.node_src (replicate (num_nodes c - fr.before) k),
      length-replicate (num_nodes c - fr.before) k,
      ap (length {0}) s.shape.kept_src,
    );
  }

  consumed_next :
      (k : ℕ) (c : Context) (m : Machine V W) → Between c.consumed c m → Between k (consume k c) m
  consumed_next k c m b = record {
    agrees = record {
      world = b.agrees.world;
      top = b.agrees.top;
      slots = b.agrees.slots;
      initial = b.agrees.initial;
      shape = record {
        grown = omega arith;
        bounded = b.agrees.shape.bounded;
        ordered = b.agrees.shape.ordered;
        compared = b.agrees.shape.compared;
        kept_consumed = refl;
        kept_src = refl;
      };
    };
    counted = refl;
    sources = b.sources;
  }

  -- After a round: one more instruction carried out, or the machine as it was.
  abbrev pub Round : ℕ → Machine V W → Machine V W → Context × Option (Unit {0}) → Type 0
  Round i m m' (c, none) = Between i c m
  Round i m m' (c, some _) = Between (i + 1) c m'

  finish-Round :
      (fr : Frame) (i : ℕ) (m m' : Machine V W) (r : Context × Option (Unit {0}))
      → length fr.node_src ≡ fr.before
      → fr.consumed ≡ i
      → Takes fpu stack w0 fr m r m'
      → Round i m m' (finish_step fr.before i r)
  finish-Round fr i m m' (c, none) l e s =
      let b = attributed fr c m i s l in
      record { agrees = b.agrees; counted = s.shape.kept_consumed ∙ e; sources = b.sources }
  finish-Round fr i m m' (c, some _) l e s =
      consumed_next (i + 1) (attribute fr.before i c) m' (attributed fr c m' i s l)

  pub build_step-Round :
      (allow v2 : Bool) (i : ℕ) (ins : Instr) (c : Context) (m : Machine V W)
      → Between i c m
      → Round i m (exec fpu ins m) (build_step allow v2 i ins c)
  unfolding build_step bail
  build_step-Round allow v2 i ins c m b = elim (Bool-cases (has_segment_override ins)) [
    | inl o ↦ rw o (record {
      agrees = record {
        world = b.agrees.world;
        top = b.agrees.top;
        slots = b.agrees.slots;
        initial = b.agrees.initial;
        shape = b.agrees.shape;
      };
      counted = b.counted;
      sources = b.sources;
    })
    | inr o ↦ rw o (
        finish-Round (frame_of c) i m (exec fpu ins m) (build_op allow v2 ins c) b.sources b.counted
          (build_op-Takes fpu stack w0 (frame_of c) c m b.agrees allow v2 ins))
  ]

  -- The context at the end of the loop, against the machine after what it consumed.
  abbrev Loops : ℕ → List Instr → Machine V W → Context → Type 0
  Loops i rest m c =
      Between c.consumed c (exec_all fpu (take (c.consumed - i) rest) m)
      × (i ≤ c.consumed)
      × (c.consumed ≤ i + length rest)

  loop_stops :
      (i : ℕ) (rest : List Instr) (m : Machine V W) (c : Context) → Between i c m → Loops i rest m c
  unfolding exec_all
  loop_stops i rest m c b =
      let z : c.consumed - i ≡ 0 = omega (arith, b.counted) in
      (
        rw z (record { agrees = b.agrees; counted = refl; sources = b.sources }),
        omega (arith, b.counted),
        omega (arith, b.counted),
      )

  loop_steps :
      (i : ℕ) (ins : Instr) (rest : List Instr) (m : Machine V W) (c : Context)
      → Loops (i + 1) rest (exec fpu ins m) c
      → Loops i (ins ∷ rest) m c
  unfolding exec_all
  loop_steps i ins rest m c (b, lo, hi) =
      let n : c.consumed - i ≡ suc (c.consumed - (i + 1)) = omega arith in
      (rw n b, omega arith, omega arith)

  build_loop-Loops :
      (allow v2 : Bool) (i : ℕ) (rest : List Instr) (c : Context) (m : Machine V W)
      → Between i c m
      → Loops i rest m (build_loop allow v2 i rest c)
  unfolding build_loop
  build_loop-Loops allow v2 i [] c m b = loop_stops i [] m c b
  build_loop-Loops allow v2 i (ins ∷ rest) c m b =
      next (build_step allow v2 i ins c) (build_step-Round allow v2 i ins c m b)
        (λ c' b'. build_loop-Loops allow v2 (i + 1) rest c' (exec fpu ins m) b')
    where
      next :
          (r : Context × Option (Unit {0}))
          → Round i m (exec fpu ins m) r
          → ((c' : Context)
              → Between (i + 1) c' (exec fpu ins m)
              → Loops (i + 1) rest (exec fpu ins m) (build_loop allow v2 (i + 1) rest c'))
          → Loops i (ins ∷ rest) m (continue r (build_loop allow v2 (i + 1) rest))
      next (c', none) b' rec = loop_stops i (ins ∷ rest) m c' b'
      next (c', some _) b' rec = loop_steps i ins rest m _ (rec c' b')

  -- The machine before a run: depth `d` holds `stack d`, and TOP has not moved.
  abbrev pub before_run : Machine V W
  before_run = record { st = stack; top = pos 0; world = w0 }

  pub init-Between : Between 0 init before_run
  unfolding init run start
  init-Between = record {
    agrees = record {
      world = refl;
      top = refl;
      slots = λ d h l. refl;
      initial = λ d. tt;
      shape = record {
        grown = omega arith;
        bounded = omega arith;
        ordered = λ i n e. cc;
        compared = tt;
        kept_consumed = refl;
        kept_src = refl;
      };
    };
    counted = refl;
    sources = refl;
  }

  build-Loops :
      (instrs : List Instr) (start_idx run_length : ℕ) (allow v2 : Bool)
      → Loops 0
          (window instrs start_idx run_length)
          before_run
          (build instrs start_idx run_length allow v2).0
  unfolding build
  build-Loops instrs start_idx run_length allow v2 =
      build_loop-Loops allow v2 0 (window instrs start_idx run_length) init before_run init-Between

  pub build-Between :
      (instrs : List Instr) (start_idx run_length : ℕ) (allow v2 : Bool)
      → let c = (build instrs start_idx run_length allow v2).0 in
        let run = window instrs start_idx run_length in
        Between c.consumed c (exec_all fpu (take c.consumed run) before_run)
        × (c.consumed ≤ length run)
  build-Between instrs start_idx run_length allow v2 =
      let c = (build instrs start_idx run_length allow v2).0 in
      let l = build-Loops instrs start_idx run_length allow v2 in
      let e : c.consumed - 0 ≡ c.consumed = omega arith in
      (
        subst
            (λ (k : ℕ).
              Between c.consumed c
                (exec_all fpu (take k (window instrs start_idx run_length)) before_run))
            e l.0,
        omega (arith, l.2),
      )
