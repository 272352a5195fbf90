-- ===== src/X86/Placement/Tests.antt =====
-- Tests of crates/pliron-ll/src/passes/x86_64_darwin/x86_64_block_placement.rs: those of the source,
-- and instances of the theorems about the order and the layout.
use crabbit.Prelude.{ℕ, ◌+◌, ◌==◌, ◌≡◌, refl, arith, length, false, if◌then◌else◌, get_or}
use crabbit.Prelude.{Option, some, none, List, [], ◌∷◌}
use crabbit.Prelude.Result.{ok}
use crabbit.X86.Condition.{ConditionCode}
use crabbit.X86.Condition.Flags.{Flags}
use crabbit.X86.Inst.{Block}
use crabbit.X86.Opcode.{X86Opcode}
use crabbit.X86.Placement.{reordered, place_blocks}
use crabbit.X86.Placement.Flow.{
  MachineOp, BasicBlock, ControlFlowOp, no_operands, jmp, classify_control_flow, block_control_flow,
  materialized, materialize_fallthrough_branches, simplified, simplify_branches_for_layout,
  erase_branch, invert_branch,
}
use crabbit.X86.Placement.Chain.{
  CfgEdge, HotPathInfo, none_placed, index_of, conditional_edges, block_edges, machine_cfg_edges,
  best, unplaced, targets, range, next_block, chain, chain_order,
}
use crabbit.X86.Placement.Order.{PlacedOnce, Covers, chain_order-PlacedOnce}
use crabbit.X86.Placement.Processor.{Processor}
use crabbit.X86.Placement.Keeps.{KeptAll, place_blocks-KeptAll}

abbrev weight_of : Option ℕ → ℕ
weight_of none = 1
weight_of (some weight) = weight

abbrev weight_to : List CfgEdge → ℕ → ℕ
weight_to [] to = 0
weight_to (edge ∷ edges) to =
    weight_to edges to + (if edge.to == to then weight_of edge.weight else 0)

-- An edge is as frequent as its weight says.
abbrev by_weights : List (List CfgEdge) → HotPathInfo
by_weights successors = record {
  edge_frequency = λ current. weight_to (get_or successors current []);
  block_frequency = λ block. 1;
}

abbrev jcc : ConditionCode → Block → ℕ → ℕ → MachineOp
jcc cond to taken not_taken = record {
  opcode = X86Opcode.jcc;
  inst = record no_operands { cond = some cond; successors = to ∷ [] };
  weights = some (taken, not_taken);
}

abbrev ret : MachineOp
ret = record { opcode = X86Opcode.ret; inst = no_operands; weights = none }

abbrev returning : Block → BasicBlock
returning block = record { block = block; ops = ret ∷ [] }

abbrev entry : List MachineOp → BasicBlock
entry ops = record { block = 0; ops = ops }

-- The hot block is the second one.
hot_successor_is_laid_out_as_fallthrough :
    place_blocks by_weights
      (entry (jcc ConditionCode.e 1 1 99 ∷ jmp 2 ∷ []) ∷ returning 1 ∷ returning 2 ∷ [])
    ≡ ok (entry (jcc ConditionCode.e 1 1 99 ∷ []) ∷ returning 2 ∷ returning 1 ∷ [])
unfolding place_blocks reordered classify_control_flow block_control_flow materialized
    materialize_fallthrough_branches simplified simplify_branches_for_layout erase_branch
    invert_branch index_of conditional_edges block_edges machine_cfg_edges best unplaced targets
    range next_block chain chain_order
hot_successor_is_laid_out_as_fallthrough = refl

abbrev blocks : List BasicBlock
blocks = entry (jcc ConditionCode.e 1 99 1 ∷ jmp 2 ∷ []) ∷ returning 1 ∷ returning 2 ∷ []

-- The hot block is the taken one.
branch_to_hot_fallthrough_is_inverted :
    place_blocks by_weights blocks
    ≡ ok (entry (jcc ConditionCode.ne 2 1 99 ∷ []) ∷ returning 1 ∷ returning 2 ∷ [])
unfolding place_blocks reordered classify_control_flow block_control_flow materialized
    materialize_fallthrough_branches simplified simplify_branches_for_layout erase_branch
    invert_branch index_of conditional_edges block_edges machine_cfg_edges best unplaced targets
    range next_block chain chain_order
branch_to_hot_fallthrough_is_inverted = refl

-- A processor whose state is its flags.
abbrev processor : Processor Flags
processor = record { step = λ op s. s; flags = λ s. s; nonzero = λ r s. false }

place_blocks-KeptAll_example :
    (out : List BasicBlock) × (place_blocks by_weights blocks ≡ ok out)
    × KeptAll processor blocks out
unfolding classify_control_flow block_control_flow
place_blocks-KeptAll_example =
    place_blocks-KeptAll processor by_weights blocks (tt, (tt, (tt, tt))) (ControlFlowOp.exit, refl)

abbrev edge : ℕ → CfgEdge
edge to = record { to = to; weight = none }

-- A loop of 1 and 2, with a way out to 3.
abbrev loop_edges : List (List CfgEdge)
loop_edges = (edge 1 ∷ []) ∷ (edge 3 ∷ edge 2 ∷ []) ∷ (edge 1 ∷ []) ∷ [] ∷ []

chain_order-PlacedOnce_example :
    (order : List ℕ) × (chain_order loop_edges (by_weights loop_edges) 4 ≡ ok (0 ∷ order))
    × PlacedOnce 4 none_placed (0 ∷ order)
    × Covers 4 none_placed (0 ∷ order)
    × (length (0 ∷ order) ≡ 4)
chain_order-PlacedOnce_example =
    chain_order-PlacedOnce loop_edges (by_weights loop_edges) 4 (omega arith) refl (omega arith)
