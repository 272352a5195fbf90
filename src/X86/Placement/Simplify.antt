-- ===== src/X86/Placement/Simplify.antt =====
-- crates/pliron-ll/src/passes/x86_64_darwin/x86_64_block_placement.rs,
-- `simplify_branches_for_layout`: a block goes where it went, with the same block after it.
use crabbit.Prelude.{ℕ, ◌==◌, ◌≡◌, refl, sym, ◌∙◌, ap, ==_iff}
use crabbit.Prelude.{true, false, not, Bool-cases, inl, inr, if◌then◌else◌}
use crabbit.Prelude.{Option, none, some, List, [], ◌∷◌}
use crabbit.X86.Condition.{invert}
use crabbit.X86.Condition.Flags.{invert-holds}
use crabbit.X86.Inst.{Block, target}
use crabbit.X86.Placement.Flow.{
  swapped, inverted_cond, MachineOp, ControlFlowOp, classify_control_flow, block_control_flow,
  inverts, erase_branch, invert_branch, inverted, simplified,
}
use crabbit.X86.Placement.Processor.{Processor, Outcome, proceed, run, branch_taken}
use crabbit.X86.Placement.Branches.{IsEnd, ShapedAs, Shaped, proceed-same}
use crabbit.X86.Placement.Inverted.{
  simplified-none, inverts-Inverts, inverted-conditional, conditional_target, taken-holds,
  exchanged,
}

module _ {S : Type 0} (p : Processor S) (next : Block) (op : MachineOp) where
  abbrev Keeps : List MachineOp → Type 0
  Keeps ops = (s : S) → run p (some next) (simplified next ops) s ≡ run p (some next) ops s

  run-none : (ops : List MachineOp) → classify_control_flow op ≡ none → Keeps ops → Keeps (op ∷ ops)
  unfolding run
  run-none ops e keeps s =
      ap (λ (l : List MachineOp). run p (some next) l s) (simplified-none next op ops e)
      ∙ proceed-same p op (classify_control_flow op) s (run p (some next) (simplified next ops))
          (run p (some next) ops) keeps

  run-exit :
      (ops : List MachineOp) → classify_control_flow op ≡ some ControlFlowOp.exit → Keeps (op ∷ ops)
  unfolding simplified block_control_flow
  run-exit ops e s = rw e refl

  run-as :
      (ops : List MachineOp) (c : Option ControlFlowOp) (s : S)
      → classify_control_flow op ≡ c
      → run p (some next) (op ∷ ops) s ≡ proceed p op c s (run p (some next) ops)
  unfolding run
  run-as ops c s e = ap (λ (o : Option ControlFlowOp). proceed p op o s (run p (some next) ops)) e

  run-unconditional :
      (to : Block)
      → classify_control_flow op ≡ some (ControlFlowOp.unconditional to)
      → Keeps (op ∷ [])
  unfolding simplified block_control_flow erase_branch run
  run-unconditional to e s = elim (Bool-cases (to == next)) [
    | inl h ↦
        let gone : simplified next (op ∷ []) ≡ [] = rw (e, h, e) refl in
        ap (λ (l : List MachineOp). run p (some next) l s) gone
        ∙ ap (λ (b : Block). Outcome.goes b s) (sym ((==_iff to next).0 h))
        ∙ sym (run-as [] (some (ControlFlowOp.unconditional to)) s e)
    | inr h ↦
        let kept : simplified next (op ∷ []) ≡ op ∷ [] = rw (e, h) refl in
        ap (λ (l : List MachineOp). run p (some next) l s) kept
  ]

  module _ (to : Block) (weights : Option (ℕ × ℕ))
      (e : classify_control_flow op ≡ some (ControlFlowOp.conditional to weights)) where
    run-conditional : Keeps (op ∷ [])
    unfolding simplified block_control_flow
    run-conditional s = rw e refl

    run-conditional_exit :
        (end : MachineOp)
        → classify_control_flow end ≡ some ControlFlowOp.exit
        → Keeps (op ∷ end ∷ [])
    unfolding simplified block_control_flow
    run-conditional_exit end e_end s = rw (e, e_end) refl

    -- The conditional branch with a jump after it.
    run-both :
        (end : MachineOp) (other : Block) (s : S)
        → classify_control_flow end ≡ some (ControlFlowOp.unconditional other)
        → run p (some next) (op ∷ end ∷ []) s
          ≡ (if branch_taken p op.opcode op.inst s then Outcome.goes to s else Outcome.goes other s)
    unfolding run
    run-both end other s e_end =
        run-as (end ∷ []) (some (ControlFlowOp.conditional to weights)) s e
        ∙ ap
            (λ (c : Option ControlFlowOp).
              if branch_taken p op.opcode op.inst s
              then Outcome.goes to s
              else proceed p end c s (run p (some next) []))
            e_end

    -- The jump is to the next block: it is erased.
    run-erased :
        (end : MachineOp) (other : Block)
        → classify_control_flow end ≡ some (ControlFlowOp.unconditional other)
        → (other == next) ≡ true
        → Keeps (op ∷ end ∷ [])
    unfolding simplified block_control_flow erase_branch run
    run-erased end other e_end h s =
        let gone : simplified next (op ∷ end ∷ []) ≡ op ∷ [] = rw (e, e_end, h, e, e_end) refl in
        ap (λ (l : List MachineOp). run p (some next) l s) gone
        ∙ run-as [] (some (ControlFlowOp.conditional to weights)) s e
        ∙ ap
            (λ (b : Block).
              if branch_taken p op.opcode op.inst s then Outcome.goes to s else Outcome.goes b s)
            (sym ((==_iff other next).0 h))
        ∙ sym (run-both end other s e_end)

    run_inverted :
        (other : Block) (s : S)
        → classify_control_flow (inverted other op)
          ≡ some (ControlFlowOp.conditional other (swapped op.weights))
        → run p (some next) (inverted other op ∷ []) s ≡ (
            if branch_taken p op.opcode (inverted other op).inst s
            then Outcome.goes other s
            else Outcome.goes next s)
    unfolding run
    run_inverted other s new =
        ap (λ (c : Option ControlFlowOp). proceed p (inverted other op) c s (run p (some next) []))
          new

    -- Neither goes to the next block, or the branch has no condition to invert.
    run-kept :
        (end : MachineOp) (other : Block)
        → classify_control_flow end ≡ some (ControlFlowOp.unconditional other)
        → (other == next) ≡ false
        → inverts next op.opcode op.inst.cond (target op.inst) ≡ false
        → Keeps (op ∷ end ∷ [])
    unfolding simplified block_control_flow
    run-kept end other e_end h kept s = rw (e, e_end, h, kept) refl

    -- The branch is to the next block: it is inverted, and the jump is erased.
    run-inverted :
        (end : MachineOp) (other : Block)
        → classify_control_flow end ≡ some (ControlFlowOp.unconditional other)
        → (other == next) ≡ false
        → inverts next op.opcode op.inst.cond (target op.inst) ≡ true
        → Keeps (op ∷ end ∷ [])
    unfolding simplified block_control_flow erase_branch invert_branch
    run-inverted end other e_end h inverting s =
        let i = inverts-Inverts next op.opcode op.inst.cond (target op.inst) inverting in
        let new = inverted-conditional other op i.e_opcode in
        let same = conditional_target op next to weights i.e_opcode i.e_to e in
        let before = taken-holds p op.opcode op.inst i.code s i.e_opcode i.e_cond in
        let after =
          taken-holds p op.opcode (inverted other op).inst (invert i.code) s i.e_opcode
            (ap inverted_cond i.e_cond) in
        let edit : simplified next (op ∷ end ∷ []) ≡ inverted other op ∷ [] =
          rw (e, e_end, h, inverting, e, new, e_end) refl in
        ap (λ (l : List MachineOp). run p (some next) l s) edit
        ∙ run_inverted other s new
        ∙ exchanged (branch_taken p op.opcode op.inst s) _
            (after ∙ invert-holds i.code (p.flags s) ∙ ap not (sym before)) (Outcome.goes other s)
            (Outcome.goes next s)
        ∙ ap
            (λ (b : Block).
              if branch_taken p op.opcode op.inst s then Outcome.goes b s else Outcome.goes other s)
            same
        ∙ sym (run-both end other s e_end)

  -- A block whose branches stand at its end.
  run-ended_by :
      (to : Block) (weights : Option (ℕ × ℕ)) (end : MachineOp)
      → classify_control_flow op ≡ some (ControlFlowOp.conditional to weights)
      → IsEnd (classify_control_flow end)
      → Keeps (op ∷ end ∷ [])
  run-ended_by to weights end e is_end = go (classify_control_flow end) refl is_end
    where
      unconditional :
          (other : Block)
          → classify_control_flow end ≡ some (ControlFlowOp.unconditional other)
          → Keeps (op ∷ end ∷ [])
      unconditional other e_end = elim (Bool-cases (other == next)) [
        | inl h ↦ run-erased to weights e end other e_end h
        | inr h ↦ elim (Bool-cases (inverts next op.opcode op.inst.cond (target op.inst))) [
          | inl k ↦ run-inverted to weights e end other e_end h k
          | inr k ↦ run-kept to weights e end other e_end h k
        ]
      ]

      go :
          (c : Option ControlFlowOp)
          → classify_control_flow end ≡ c
          → IsEnd c
          → Keeps (op ∷ end ∷ [])
      go none e_end ends = elim ends [ ]
      go (some (ControlFlowOp.conditional t w)) e_end ends = elim ends [ ]
      go (some (ControlFlowOp.unconditional other)) e_end ends = unconditional other e_end
      go (some ControlFlowOp.exit) e_end ends = run-conditional_exit to weights e end e_end

-- A block whose branches stand at its end goes where it went, with the same block after it.
pub run-simplified :
    {S : Type 0} (p : Processor S) (next : Block) (ops : List MachineOp) (s : S)
    → Shaped ops
    → run p (some next) (simplified next ops) s ≡ run p (some next) ops s
unfolding simplified block_control_flow
run-simplified p next [] s shaped = refl
run-simplified p next (op ∷ ops) s shaped =
    go (classify_control_flow op) refl ops shaped (λ h t. run-simplified p next ops t h) s
  where
    go :
        (c : Option ControlFlowOp)
        → classify_control_flow op ≡ c
        → (rest : List MachineOp) → ShapedAs c rest (Shaped rest)
        → (Shaped rest → Keeps p next op rest)
        → Keeps p next op (op ∷ rest)
    go none e rest shape keeps = run-none p next op rest e (keeps shape)
    go (some (ControlFlowOp.conditional to weights)) e [] shape keeps =
        run-conditional p next op to weights e
    go (some (ControlFlowOp.conditional to weights)) e (end ∷ []) shape keeps =
        run-ended_by p next op to weights end e shape
    go (some (ControlFlowOp.conditional to weights)) e (end ∷ more ∷ rest) shape keeps =
        elim shape [ ]
    go (some (ControlFlowOp.unconditional to)) e [] shape keeps = run-unconditional p next op to e
    go (some (ControlFlowOp.unconditional to)) e (more ∷ rest) shape keeps = elim shape [ ]
    go (some ControlFlowOp.exit) e rest shape keeps = run-exit p next op rest e
