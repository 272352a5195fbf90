-- ===== src/X86/Placement/Chain.antt =====
-- crates/pliron-ll/src/passes/x86_64_darwin/x86_64_block_placement.rs,
-- `machine_cfg_edges` and `chain_order`: the edges of a function and the order of its blocks.
use crabbit.Prelude.{ℕ, zero, suc, ◌-◌, ◌^◌, ◌==◌, ltb, if◌then◌else◌, get_elem?}
use crabbit.Prelude.{Bool, true, false, not, ◌&&◌, ◌||◌, Option, none, some, List, [], ◌∷◌, ◌++◌}
use crabbit.Prelude.Result.{Result, ok, unwrap, ◌>>=◌}
use crabbit.X86.Inst.{Block, target}
use crabbit.X86.Placement.Flow.{MachineOp, BasicBlock, ControlFlowOp, block_control_flow}

pub record CfgEdge : Type 0 where
  pub to : ℕ
  pub weight : Option ℕ

-- `block_index`
unfoldable pub index_of : Block → ℕ → List BasicBlock → Option ℕ
index_of block i [] = none
index_of block i (b ∷ blocks) = if b.block == block then some i else index_of block (suc i) blocks

abbrev pub edge_to : Option ℕ → Option ℕ → List CfgEdge
edge_to none weight = []
edge_to (some to) weight = record { to = to; weight = weight } ∷ []

abbrev pub taken_weight : Option (ℕ × ℕ) → Option ℕ
taken_weight none = none
taken_weight (some (taken, not_taken)) = some taken

abbrev pub not_taken_weight : Option (ℕ × ℕ) → Option ℕ
not_taken_weight none = none
not_taken_weight (some (taken, not_taken)) = some not_taken

-- The weights of a block with one conditional branch.
abbrev pub simple_weights : List MachineOp → Option (ℕ × ℕ)
simple_weights (op ∷ []) = op.weights
simple_weights _ = none

abbrev pub find_block : List BasicBlock → Option Block → Option ℕ
find_block blocks none = none
find_block blocks (some block) = index_of block 0 blocks

unfoldable pub conditional_edges : List BasicBlock → Option ℕ → List MachineOp → List CfgEdge
conditional_edges blocks weight [] = []
conditional_edges blocks weight (op ∷ conditionals) =
    edge_to (find_block blocks (target op.inst)) weight
    ++ conditional_edges blocks weight conditionals

abbrev pub end_edges : List BasicBlock → Option ℕ → Option ControlFlowOp → List CfgEdge
end_edges blocks weight (some (ControlFlowOp.unconditional to)) =
    edge_to (index_of to 0 blocks) weight
end_edges blocks weight _ = []

unfoldable pub block_edges : List BasicBlock → List MachineOp → List CfgEdge
block_edges blocks ops =
    let (conditionals, end) = block_control_flow ops in
    let weights = simple_weights conditionals in
    conditional_edges blocks (taken_weight weights) conditionals
    ++ end_edges blocks (not_taken_weight weights) end

unfoldable pub machine_cfg_edges : List BasicBlock → List BasicBlock → List (List CfgEdge)
machine_cfg_edges all [] = []
machine_cfg_edges all (b ∷ blocks) = block_edges all b.ops ∷ machine_cfg_edges all blocks

-- What the order asks of the analysis of hot paths, by the indexes of the blocks.
pub record HotPathInfo : Type 0 where
  pub edge_frequency : ℕ → ℕ → ℕ
  pub block_frequency : ℕ → ℕ

-- The greater frequency, then the lower index: `(frequency, usize::MAX - block)`.
abbrev pub key_le : (ℕ → ℕ) → ℕ → ℕ → Bool
key_le frequency a b =
    ltb (frequency a) (frequency b)
    || (frequency a == frequency b && not (ltb (2 ^ 64 - 1 - b) (2 ^ 64 - 1 - a)))

unfoldable pub best : (ℕ → ℕ) → ℕ → List ℕ → ℕ
best frequency b [] = b
best frequency b (x ∷ xs) = best frequency (if key_le frequency b x then x else b) xs

abbrev pub max_by_key : (ℕ → ℕ) → List ℕ → Option ℕ
max_by_key frequency [] = none
max_by_key frequency (x ∷ xs) = some (best frequency x xs)

-- The blocks of a list that are not placed.
unfoldable pub unplaced : (ℕ → Bool) → List ℕ → List ℕ
unplaced placed [] = []
unplaced placed (b ∷ blocks) =
    if placed b then unplaced placed blocks else b ∷ unplaced placed blocks

unfoldable pub targets : List CfgEdge → List ℕ
targets [] = []
targets (edge ∷ edges) = edge.to ∷ targets edges

-- `start..start + count`
unfoldable pub range : ℕ → ℕ → List ℕ
range start zero = []
range start (suc count) = start ∷ range (suc start) count

abbrev pub place : ℕ → (ℕ → Bool) → ℕ → Bool
place block placed b = if b == block then true else placed b

abbrev pub none_placed : ℕ → Bool
none_placed b = false

abbrev pub or_else : Option ℕ → Option ℕ → Option ℕ
or_else none other = other
or_else (some b) other = some b

module _ (successors : List (List CfgEdge)) (info : HotPathInfo) (count : ℕ) where
  -- The best successor of a block, or else the hottest block.
  unfoldable pub next_block : ℕ → (ℕ → Bool) → Result ℕ
  next_block current placed = do
    edges ← unwrap (get_elem? successors current)
    unwrap (
        or_else (max_by_key (info.edge_frequency current) (unplaced placed (targets edges)))
          (max_by_key info.block_frequency (unplaced placed (range 0 count))))

  -- The loop, which ends when as many blocks are placed as there are.
  unfoldable pub chain : ℕ → ℕ → (ℕ → Bool) → Result (List ℕ)
  chain zero current placed = ok []
  chain (suc left) current placed = next_block current placed >>= λ next.
      chain left next (place next placed) >>= λ order. ok (next ∷ order)

  unfoldable pub chain_order : Result (List ℕ)
  chain_order = chain (count - 1) 0 (place 0 none_placed) >>= λ order. ok (0 ∷ order)
