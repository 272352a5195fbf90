-- ===== src/X86/Placement/Edges.antt =====
-- crates/pliron-ll/src/passes/x86_64_darwin/x86_64_block_placement.rs, `machine_cfg_edges`: every
-- edge leads to a block.
use mathlib.Core.Option.{some-injective}
use crabbit.Prelude.{ℕ, suc, ◌+◌, ◌<◌, ◌==◌, ◌≡◌, refl, ap, arith, length}
use crabbit.Prelude.{Bool-cases, inl, inr, Option, none, some}
use crabbit.Prelude.{List, [], ◌∷◌, ◌++◌}
use crabbit.X86.Inst.{Block, target}
use crabbit.X86.Placement.Flow.{MachineOp, BasicBlock, ControlFlowOp, block_control_flow}
use crabbit.X86.Placement.Chain.{
  CfgEdge, index_of, edge_to, taken_weight, not_taken_weight, simple_weights, find_block,
  conditional_edges, end_edges, block_edges, machine_cfg_edges,
}
use crabbit.X86.Placement.Once.{EdgesWithin, Within}

EdgesWithin-append :
    (count : ℕ) (xs ys : List CfgEdge)
    → EdgesWithin count xs
    → EdgesWithin count ys
    → EdgesWithin count (xs ++ ys)
EdgesWithin-append count [] ys hx hy = hy
EdgesWithin-append count (x ∷ xs) ys (low, hx) hy = (low, EdgesWithin-append count xs ys hx hy)

index_of-lt :
    (block : Block) (i k : ℕ) (blocks : List BasicBlock)
    → index_of block i blocks ≡ some k
    → k < i + length blocks
unfolding index_of
index_of-lt block i k [] e = cc
index_of-lt block i k (b ∷ blocks) e = elim (Bool-cases (b.block == block)) [
  | inl h ↦ omega (arith, some-injective i k (rw h at e))
  | inr h ↦ omega (arith, index_of-lt block (suc i) k blocks (rw h at e))
]

module _ (blocks : List BasicBlock) where
  edge_to-within :
      (found : Option ℕ) (weight : Option ℕ)
      → ((k : ℕ) → found ≡ some k → k < length blocks)
      → EdgesWithin (length blocks) (edge_to found weight)
  edge_to-within none weight low = tt
  edge_to-within (some k) weight low = (low k refl, tt)

  find_block-lt :
      (block : Option Block) (k : ℕ) → find_block blocks block ≡ some k → k < length blocks
  find_block-lt none k e = cc
  find_block-lt (some block) k e = omega (arith, index_of-lt block 0 k blocks e)

  conditional_edges-within :
      (weight : Option ℕ) (conditionals : List MachineOp)
      → EdgesWithin (length blocks) (conditional_edges blocks weight conditionals)
  unfolding conditional_edges
  conditional_edges-within weight [] = tt
  conditional_edges-within weight (op ∷ conditionals) =
      EdgesWithin-append (length blocks) (edge_to (find_block blocks (target op.inst)) weight)
        (conditional_edges blocks weight conditionals)
        (edge_to-within (find_block blocks (target op.inst)) weight
          (find_block-lt (target op.inst)))
        (conditional_edges-within weight conditionals)

  end_edges-within :
      (weight : Option ℕ) (end : Option ControlFlowOp)
      → EdgesWithin (length blocks) (end_edges blocks weight end)
  end_edges-within weight none = tt
  end_edges-within weight (some (ControlFlowOp.unconditional to)) =
      edge_to-within (index_of to 0 blocks) weight (find_block-lt (some to))
  end_edges-within weight (some (ControlFlowOp.conditional to weights)) = tt
  end_edges-within weight (some ControlFlowOp.exit) = tt

  pub machine_cfg_edges-Within :
      (some_blocks : List BasicBlock)
      → Within (length blocks) (machine_cfg_edges blocks some_blocks)
  unfolding machine_cfg_edges block_edges
  machine_cfg_edges-Within [] = tt
  machine_cfg_edges-Within (b ∷ some_blocks) =
      let ends = block_control_flow b.ops in
      let weights = simple_weights ends.0 in
      (
        EdgesWithin-append (length blocks) (conditional_edges blocks (taken_weight weights) ends.0)
            (end_edges blocks (not_taken_weight weights) ends.1)
            (conditional_edges-within (taken_weight weights) ends.0)
            (end_edges-within (not_taken_weight weights) ends.1),
        machine_cfg_edges-Within some_blocks,
      )

  pub length-machine_cfg_edges :
      (some_blocks : List BasicBlock)
      → length (machine_cfg_edges blocks some_blocks) ≡ length some_blocks
  unfolding machine_cfg_edges
  length-machine_cfg_edges [] = refl
  length-machine_cfg_edges (b ∷ some_blocks) = ap suc (length-machine_cfg_edges some_blocks)
