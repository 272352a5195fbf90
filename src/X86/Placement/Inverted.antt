-- ===== src/X86/Placement/Inverted.antt =====
-- crates/pliron-ll/src/passes/x86_64_darwin/x86_64_block_placement.rs,
-- `simplify_branches_for_layout`: the operations of a block that is edited, and a branch that is
-- inverted.
use crabbit.Prelude.{ℕ, ◌≡◌, refl, ◌∙◌, ap, ==_iff}
use crabbit.Prelude.{Bool, true, false, not, if◌then◌else◌}
use crabbit.Prelude.{Option, none, some, List, [], ◌∷◌}
use crabbit.X86.Condition.{ConditionCode}
use crabbit.X86.Condition.Flags.{holds}
use crabbit.X86.Inst.{Inst, Block, target}
use crabbit.X86.Opcode.{X86Opcode}
use crabbit.X86.Placement.Flow.{
  retargeted, swapped, classify, MachineOp, ControlFlowOp, Edit, classify_control_flow,
  block_control_flow, inverts, edit_for, edited, erase_branch, invert_branch, inverted, simplified,
}
use crabbit.X86.Placement.Processor.{Processor, Outcome, branch_taken}

-- An operation that is no branch stays.
pub edited-none :
    (edit : Edit) (op : MachineOp) (ops : List MachineOp)
    → classify_control_flow op ≡ none
    → edited edit (op ∷ ops) ≡ op ∷ edited edit ops
unfolding erase_branch invert_branch
edited-none Edit.keep op ops e = refl
edited-none Edit.erase op ops e = rw e refl
edited-none (Edit.invert_to to) op ops e = rw (e, e) refl

pub simplified-none :
    (next : Block) (op : MachineOp) (ops : List MachineOp)
    → classify_control_flow op ≡ none
    → simplified next (op ∷ ops) ≡ op ∷ simplified next ops
unfolding simplified block_control_flow
simplified-none next op ops e = rw e (edited-none (edit_for next (block_control_flow ops)) op ops e)

-- What is inverted.
pub record Inverts (next : Block) (opcode : X86Opcode) (cond : Option ConditionCode)
    (to : Option Block) : Type 0 where
  pub code : ConditionCode
  pub e_opcode : opcode ≡ X86Opcode.jcc
  pub e_cond : cond ≡ some code
  pub e_to : to ≡ some next

pub inverts-Inverts :
    (next : Block) (opcode : X86Opcode) (cond : Option ConditionCode) (to : Option Block)
    → inverts next opcode cond to ≡ true
    → Inverts next opcode cond to
inverts-Inverts next X86Opcode.jcc (some cond) (some to) e = record {
  code = cond;
  e_opcode = refl;
  e_cond = refl;
  e_to = ap some ((==_iff to next).0 e);
}
inverts-Inverts next X86Opcode.jcc (some cond) none e = cc
inverts-Inverts next X86Opcode.jcc none to e = cc
inverts-Inverts next opcode cond to e = cc

pub target-retargeted :
    (other : Block) (inst : Inst) (successors : List Block)
    → target (record inst { successors = retargeted other successors }) ≡ some other
target-retargeted other inst [] = refl
target-retargeted other inst (b ∷ successors) = refl

pub inverted-conditional :
    (other : Block) (op : MachineOp)
    → op.opcode ≡ X86Opcode.jcc
    → classify_control_flow (inverted other op)
      ≡ some (ControlFlowOp.conditional other (swapped op.weights))
unfolding classify_control_flow
inverted-conditional other op e =
    ap (λ (o : X86Opcode). classify o (target (inverted other op).inst) (swapped op.weights)) e
    ∙ ap (λ (t : Option Block). classify X86Opcode.jcc t (swapped op.weights))
        (target-retargeted other (inverted other op).inst op.inst.successors)

pub conditional_target :
    (op : MachineOp) (next to : Block) (weights : Option (ℕ × ℕ))
    → op.opcode ≡ X86Opcode.jcc
    → target op.inst ≡ some next
    → classify_control_flow op ≡ some (ControlFlowOp.conditional to weights)
    → next ≡ to
unfolding classify_control_flow
conditional_target op next to weights e_opcode e_to e =
    let known : classify op.opcode (target op.inst) op.weights
        ≡ some (ControlFlowOp.conditional next op.weights) =
      ap (λ (o : X86Opcode). classify o (target op.inst) op.weights) e_opcode
      ∙ ap (λ (t : Option Block). classify X86Opcode.jcc t op.weights) e_to in
    cc (known, e)

pub taken-holds :
    {S : Type 0} (p : Processor S) (opcode : X86Opcode) (inst : Inst) (cond : ConditionCode) (s : S)
    → opcode ≡ X86Opcode.jcc
    → inst.cond ≡ some cond
    → branch_taken p opcode inst s ≡ holds cond (p.flags s)
taken-holds p opcode inst cond s e_opcode e_cond =
    ap (λ (o : X86Opcode). branch_taken p o inst s) e_opcode
    ∙ ap (λ (c : Option ConditionCode). branch_taken p X86Opcode.jcc (record inst { cond = c }) s)
        e_cond

pub exchanged :
    {S : Type 0} (t u : Bool)
    → u ≡ not t
    → (x y : Outcome S) → (if u then x else y) ≡ (if t then y else x)
exchanged true u e x y = rw e refl
exchanged false u e x y = rw e refl
