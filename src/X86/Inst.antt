-- ===== src/X86/Inst.antt =====
-- crates/pliron-ll/src/x86_64/op_interfaces.rs: what the encoder gives back and the offsets it is
-- given; crates/pliron-ll/src/x86_64/ops.rs: the attributes that it reads from an operation.
use Prim.Native.String.{String}
use crabbit.Prelude.{ℕ, Option, none, some, List, [], ◌∷◌}
use crabbit.X86.Registers.{Register}
use crabbit.X86.Condition.{ConditionCode}

-- A basic block, by its place in the IR's arena.
abbrev pub Block : Type 0
Block = ℕ

-- An operation's attributes and its successors; `imm` is a u64.
pub record Inst : Type 0 where
  pub rd : Option Register
  pub rn : Option Register
  pub rm : Option Register
  pub imm : Option ℕ
  pub cond : Option ConditionCode
  pub callee : Option String
  pub literal_label : Option String
  pub successors : List Block

-- A branch's first successor.
abbrev pub target : Inst → Option Block
target inst = first inst.successors
  where
    first : List Block → Option Block
    first [] = none
    first (s ∷ rest) = some s

pub data FixupKind : Type 0 where
  branch32 : FixupKind

pub record BinaryFixup : Type 0 where
  pub offset : ℕ
  pub symbol : String
  pub kind : FixupKind

pub record BinaryEncoding : Type 0 where
  pub bytes : List ℕ
  pub fixups : List BinaryFixup

-- A map of offsets is the function that looks a key up.
pub record BinarySerializationContext : Type 0 where
  pub function_offsets : String → Option ℕ
  pub block_offsets : Block → Option ℕ
  pub literal_offsets : String → Option ℕ
