-- ===== src/X86/Placement.antt =====
-- crates/pliron-ll/src/passes/x86_64_darwin/x86_64_block_placement.rs: the order of the blocks of a
-- function, and the branches that the order makes superfluous.
pub mod Flow
pub mod Chain
pub mod Once
pub mod Order
pub mod Processor
pub mod Branches
pub mod Inverted
pub mod Simplify
pub mod Edges
pub mod Blocks
pub mod Keeps
mod Tests
use crabbit.Prelude.{ℕ, ltb, if◌then◌else◌, length, get_elem?, List, [], ◌∷◌}
use crabbit.Prelude.Result.{Result, ok, unwrap, ◌>>=◌}
use crabbit.X86.Placement.Flow.{
  BasicBlock, materialize_fallthrough_branches, simplify_branches_for_layout,
}
use crabbit.X86.Placement.Chain.{CfgEdge, HotPathInfo, machine_cfg_edges, chain_order}

-- The blocks in an order.
unfoldable pub reordered : List BasicBlock → List ℕ → Result (List BasicBlock)
reordered blocks [] = ok []
reordered blocks (i ∷ order) =
    unwrap (get_elem? blocks i) >>= λ b. reordered blocks order >>= λ rest. ok (b ∷ rest)

-- For any analysis of the edges.
unfoldable pub place_blocks :
    (List (List CfgEdge) → HotPathInfo) → List BasicBlock → Result (List BasicBlock)
place_blocks from_edges blocks =
    if ltb (length blocks) 2
    then ok blocks
    else (let explicit = materialize_fallthrough_branches blocks in
        let successors = machine_cfg_edges explicit explicit in
        chain_order successors (from_edges successors) (length explicit) >>= λ order.
        reordered explicit order >>= λ layout. ok (simplify_branches_for_layout layout))
