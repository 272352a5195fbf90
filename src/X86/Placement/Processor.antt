-- ===== src/X86/Placement/Processor.antt =====
-- crates/pliron-ll/src/passes/x86_64_darwin/x86_64_block_placement.rs: where a processor goes from a
-- block, by its branches and the block that follows in the layout.
use crabbit.Prelude.{Bool, false, if◌then◌else◌, Option, none, some, List, [], ◌∷◌}
use crabbit.X86.Registers.{Register}
use crabbit.X86.Condition.{ConditionCode}
use crabbit.X86.Condition.Flags.{Flags, holds}
use crabbit.X86.Inst.{Inst, Block}
use crabbit.X86.Opcode.{X86Opcode}
use crabbit.X86.Placement.Flow.{MachineOp, ControlFlowOp, classify_control_flow}

-- What the other operations do to a state, its flags, and whether a register is zero.
pub record Processor (S : Type 0) : Type 0 where
  pub step : MachineOp → S → S
  pub flags : S → Flags
  pub nonzero : Option Register → S → Bool

-- It goes to a block, leaves the function, or goes on where there is no block.
pub data Outcome (S : Type 0) : Type 0 where
  goes : Block → S → Outcome S
  leaves : MachineOp → S → Outcome S
  falls : S → Outcome S

module _ {S : Type 0} (p : Processor S) where
  abbrev pub branch_taken : X86Opcode → Inst → S → Bool
  branch_taken X86Opcode.jcc inst s = on_flags inst.cond
    where
      on_flags : Option ConditionCode → Bool
      on_flags none = false
      on_flags (some cond) = holds cond (p.flags s)
  branch_taken _ inst s = p.nonzero inst.rn s

  abbrev pub follow : Option Block → S → Outcome S
  follow none s = Outcome.falls s
  follow (some next) s = Outcome.goes next s

  -- The rest of the block is run as far as the operation lets it.
  abbrev pub proceed : MachineOp → Option ControlFlowOp → S → (S → Outcome S) → Outcome S
  proceed op none s rest = rest (p.step op s)
  proceed op (some (ControlFlowOp.conditional to weights)) s rest =
      if branch_taken op.opcode op.inst s then Outcome.goes to s else rest s
  proceed op (some (ControlFlowOp.unconditional to)) s rest = Outcome.goes to s
  proceed op (some ControlFlowOp.exit) s rest = Outcome.leaves op s

  unfoldable pub run : Option Block → List MachineOp → S → Outcome S
  run next [] s = follow next s
  run next (op ∷ ops) s = proceed op (classify_control_flow op) s (run next ops)
