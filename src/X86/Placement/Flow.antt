-- ===== src/X86/Placement/Flow.antt =====
-- crates/pliron-ll/src/passes/x86_64_darwin/x86_64_block_placement.rs: the branches of a
-- block, `materialize_fallthrough_branches` and `simplify_branches_for_layout`.
use crabbit.Prelude.{ℕ, ◌==◌, if◌then◌else◌}
use crabbit.Prelude.{Bool, false, Option, none, some, List, [], ◌∷◌, ◌++◌}
use crabbit.X86.Condition.{ConditionCode, invert}
use crabbit.X86.Inst.{Inst, Block, target}
use crabbit.X86.Opcode.{X86Opcode}

-- An operation with its branch weights.
pub record MachineOp : Type 0 where
  pub opcode : X86Opcode
  pub inst : Inst
  pub weights : Option (ℕ × ℕ)

pub record BasicBlock : Type 0 where
  pub block : Block
  pub ops : List MachineOp

pub data ControlFlowOp : Type 0 where
  conditional : Block → Option (ℕ × ℕ) → ControlFlowOp
  unconditional : Block → ControlFlowOp
  exit : ControlFlowOp

abbrev pub classify : X86Opcode → Option Block → Option (ℕ × ℕ) → Option ControlFlowOp
classify X86Opcode.ret to weights = some ControlFlowOp.exit
classify X86Opcode.ud2 to weights = some ControlFlowOp.exit
classify X86Opcode.jmp (some to) weights = some (ControlFlowOp.unconditional to)
classify X86Opcode.jcc (some to) weights = some (ControlFlowOp.conditional to weights)
classify X86Opcode.test_jnz (some to) weights = some (ControlFlowOp.conditional to weights)
classify _ _ _ = none

unfoldable pub classify_control_flow : MachineOp → Option ControlFlowOp
classify_control_flow op = classify op.opcode (target op.inst) op.weights

-- The conditional branches in order, then how the block ends.
abbrev pub Ends : Type 0
Ends = List MachineOp × Option ControlFlowOp

abbrev pub seen : MachineOp → Option ControlFlowOp → Ends → Ends
seen op none rest = rest
seen op (some (ControlFlowOp.conditional to weights)) rest = (op ∷ rest.0, rest.1)
seen op (some (ControlFlowOp.unconditional to)) rest = ([], some (ControlFlowOp.unconditional to))
seen op (some ControlFlowOp.exit) rest = ([], some ControlFlowOp.exit)

unfoldable pub block_control_flow : List MachineOp → Ends
block_control_flow [] = ([], none)
block_control_flow (op ∷ ops) = seen op (classify_control_flow op) (block_control_flow ops)

abbrev pub no_operands : Inst
no_operands = record {
  rd = none;
  rn = none;
  rm = none;
  imm = none;
  cond = none;
  callee = none;
  literal_label = none;
  successors = [];
}

abbrev pub jmp : Block → MachineOp
jmp to = record {
  opcode = X86Opcode.jmp;
  inst = record no_operands { successors = to ∷ [] };
  weights = none;
}

-- A block that does not end gets a jump to the next one.
abbrev pub materialized_as : Block → Option ControlFlowOp → List MachineOp → List MachineOp
materialized_as next none ops = ops ++ (jmp next ∷ [])
materialized_as next (some end) ops = ops

unfoldable pub materialized : Block → List MachineOp → List MachineOp
materialized next ops = materialized_as next (block_control_flow ops).1 ops

unfoldable pub materialize_fallthrough_branches : List BasicBlock → List BasicBlock
materialize_fallthrough_branches [] = []
materialize_fallthrough_branches (b ∷ []) = b ∷ []
materialize_fallthrough_branches (b ∷ next ∷ blocks) =
    record b { ops = materialized next.block b.ops }
    ∷ materialize_fallthrough_branches (next ∷ blocks)

-- What a block's branches become before a next block.
pub data Edit : Type 0 where
  keep erase : Edit
  invert_to : Block → Edit

-- A `jcc` with a condition, whose target is a block.
abbrev pub inverts : Block → X86Opcode → Option ConditionCode → Option Block → Bool
inverts next X86Opcode.jcc (some cond) (some to) = to == next
inverts _ _ _ _ = false

abbrev pub edit_conditional : Block → Block → List MachineOp → Edit
edit_conditional next to (op ∷ []) =
    if inverts next op.opcode op.inst.cond (target op.inst) then Edit.invert_to to else Edit.keep
edit_conditional _ _ _ = Edit.keep

abbrev pub edit_for : Block → Ends → Edit
edit_for next (conditionals, some (ControlFlowOp.unconditional to)) =
    if to == next then Edit.erase else edit_conditional next to conditionals
edit_for next _ = Edit.keep

-- Without the unconditional branch.
abbrev pub erased_as :
    MachineOp → Option ControlFlowOp → List MachineOp → List MachineOp → List MachineOp
erased_as op (some (ControlFlowOp.unconditional to)) ops rest = ops
erased_as op _ ops rest = op ∷ rest

unfoldable pub erase_branch : List MachineOp → List MachineOp
erase_branch [] = []
erase_branch (op ∷ ops) = erased_as op (classify_control_flow op) ops (erase_branch ops)

abbrev pub inverted_cond : Option ConditionCode → Option ConditionCode
inverted_cond none = none
inverted_cond (some cond) = some (invert cond)

abbrev pub swapped : Option (ℕ × ℕ) → Option (ℕ × ℕ)
swapped none = none
swapped (some (taken, not_taken)) = some (not_taken, taken)

abbrev pub retargeted : Block → List Block → List Block
retargeted to [] = to ∷ []
retargeted to (b ∷ successors) = to ∷ successors

-- `set_cond`, `set_target` and `set_branch_weights`
abbrev pub inverted : Block → MachineOp → MachineOp
inverted to op = record op {
  inst = record op.inst {
    cond = inverted_cond op.inst.cond;
    successors = retargeted to op.inst.successors;
  };
  weights = swapped op.weights;
}

abbrev pub inverted_as :
    Block → MachineOp → Option ControlFlowOp → List MachineOp → List MachineOp → List MachineOp
inverted_as to op (some (ControlFlowOp.conditional block weights)) ops rest = inverted to op ∷ ops
inverted_as to op _ ops rest = op ∷ rest

-- The first conditional branch, which is the only one.
unfoldable pub invert_branch : Block → List MachineOp → List MachineOp
invert_branch to [] = []
invert_branch to (op ∷ ops) =
    inverted_as to op (classify_control_flow op) ops (invert_branch to ops)

abbrev pub edited : Edit → List MachineOp → List MachineOp
edited Edit.keep ops = ops
edited Edit.erase ops = erase_branch ops
edited (Edit.invert_to to) ops = erase_branch (invert_branch to ops)

unfoldable pub simplified : Block → List MachineOp → List MachineOp
simplified next ops = edited (edit_for next (block_control_flow ops)) ops

unfoldable pub simplify_branches_for_layout : List BasicBlock → List BasicBlock
simplify_branches_for_layout [] = []
simplify_branches_for_layout (b ∷ []) = b ∷ []
simplify_branches_for_layout (b ∷ next ∷ blocks) =
    record b { ops = simplified next.block b.ops } ∷ simplify_branches_for_layout (next ∷ blocks)
