-- ===== src/X86/Placement/Branches.antt =====
-- crates/pliron-ll/src/passes/x86_64_darwin/x86_64_block_placement.rs: a block goes where it went,
-- whichever block follows it in the new layout.
use crabbit.Prelude.{◌≡◌, refl, ap}
use crabbit.Prelude.{if◌then◌else◌}
use crabbit.Prelude.{Option, none, some, List, [], ◌∷◌, ◌++◌}
use crabbit.X86.Inst.{Block}
use crabbit.X86.Placement.Flow.{
  MachineOp, ControlFlowOp, classify_control_flow, seen, block_control_flow, jmp, materialized,
  materialized_as,
}
use crabbit.X86.Placement.Processor.{Processor, Outcome, proceed, run, branch_taken}

abbrev pub IsEnd : Option ControlFlowOp → Type 0
IsEnd (some (ControlFlowOp.unconditional to)) = Unit
IsEnd (some ControlFlowOp.exit) = Unit
IsEnd _ = ⊥

abbrev pub AtMostEnd : List MachineOp → Type 0
AtMostEnd [] = Unit
AtMostEnd (op ∷ []) = IsEnd (classify_control_flow op)
AtMostEnd (op ∷ next ∷ ops) = ⊥

abbrev pub IsLast : List MachineOp → Type 0
IsLast [] = Unit
IsLast (op ∷ ops) = ⊥

abbrev pub ShapedAs : Option ControlFlowOp → List MachineOp → Type 0 → Type 0
ShapedAs none ops rest = rest
ShapedAs (some (ControlFlowOp.conditional to weights)) ops rest = AtMostEnd ops
ShapedAs (some (ControlFlowOp.unconditional to)) ops rest = IsLast ops
ShapedAs (some ControlFlowOp.exit) ops rest = IsLast ops

-- The branches of a block stand at its end: one conditional branch at most, and then at most one
-- that ends the block.
abbrev pub Shaped : List MachineOp → Type 0
Shaped [] = Unit
Shaped (op ∷ ops) = ShapedAs (classify_control_flow op) ops (Shaped ops)

module _ {S : Type 0} (p : Processor S) where
  pub proceed-same :
      (op : MachineOp) (c : Option ControlFlowOp) (s : S) (f g : S → Outcome S)
      → ((t : S) → f t ≡ g t)
      → proceed p op c s f ≡ proceed p op c s g
  proceed-same op none s f g same = same (p.step op s)
  proceed-same op (some (ControlFlowOp.conditional to weights)) s f g same =
      ap (λ (o : Outcome S). if branch_taken p op.opcode op.inst s then Outcome.goes to s else o)
        (same s)
  proceed-same op (some (ControlFlowOp.unconditional to)) s f g same = refl
  proceed-same op (some ControlFlowOp.exit) s f g same = refl

  -- A block that ends does not depend on what follows.
  pub run-ended :
      (next other : Option Block) (ops : List MachineOp) (end : ControlFlowOp) (s : S)
      → (block_control_flow ops).1 ≡ some end
      → run p next ops s ≡ run p other ops s
  unfolding run block_control_flow
  run-ended next other [] end s e = cc
  run-ended next other (op ∷ ops) end s e =
      go (classify_control_flow op) e (λ t h. run-ended next other ops end t h)
    where
      go :
          (c : Option ControlFlowOp)
          → (seen op c (block_control_flow ops)).1 ≡ some end
          → ((t : S) → (block_control_flow ops).1 ≡ some end → run p next ops t ≡ run p other ops t)
          → proceed p op c s (run p next ops) ≡ proceed p op c s (run p other ops)
      go none h rest = rest (p.step op s) h
      go (some (ControlFlowOp.conditional to weights)) h rest =
          proceed-same op (some (ControlFlowOp.conditional to weights)) s (run p next ops)
            (run p other ops) (λ t. rest t h)
      go (some (ControlFlowOp.unconditional to)) h rest = refl
      go (some ControlFlowOp.exit) h rest = refl

  run-append_jmp :
      (next : Block) (other : Option Block) (ops : List MachineOp) (s : S)
      → run p other (ops ++ (jmp next ∷ [])) s ≡ run p (some next) ops s
  unfolding run classify_control_flow
  run-append_jmp next other [] s = refl
  run-append_jmp next other (op ∷ ops) s =
      proceed-same op (classify_control_flow op) s (run p other (ops ++ (jmp next ∷ [])))
        (run p (some next) ops) (λ t. run-append_jmp next other ops t)

  -- With its fall-through made explicit a block goes where it went, whatever follows it.
  pub run-materialized :
      (next : Block) (other : Option Block) (ops : List MachineOp) (s : S)
      → run p other (materialized next ops) s ≡ run p (some next) ops s
  unfolding materialized
  run-materialized next other ops s = go (block_control_flow ops).1 refl
    where
      go :
          (end : Option ControlFlowOp)
          → (block_control_flow ops).1 ≡ end
          → run p other (materialized_as next end ops) s ≡ run p (some next) ops s
      go none e = run-append_jmp next other ops s
      go (some end) e = run-ended other (some next) ops end s e
