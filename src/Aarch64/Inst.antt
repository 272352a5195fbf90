-- ===== src/Aarch64/Inst.antt =====
-- crates/pliron-ll/src/aarch64/op_interfaces.rs: what an encoder gives back and the offsets it is
-- given; crates/pliron-ll/src/aarch64/ops.rs: the attributes that it reads from an operation.
use Prim.Native.String.{String}
use crabbit.Prelude.{ℕ, Option, none, some, List, [], ◌∷◌}
use crabbit.Prelude.Words.{to_le_bytes}
use crabbit.Aarch64.Registers.{Register}
use crabbit.Aarch64.Condition.{ConditionCode}

-- A basic block, by its place in the IR's arena.
abbrev pub Block : Type 0
Block = ℕ

-- An operation's attributes, its successors, and the block that follows its own in the layout.
pub record Inst : Type 0 where
  pub rd : Option Register
  pub rn : Option Register
  pub rm : Option Register
  pub imm : Option ℕ
  pub cond : Option ConditionCode
  pub shift : Option ℕ
  pub callee : Option String
  pub literal_label : Option String
  pub successors : List Block
  pub next_block : Option Block

-- The taken edge is the first successor, the other one the second.
abbrev pub target : Inst → Option Block
target inst = first inst.successors
  where
    first : List Block → Option Block
    first [] = none
    first (s ∷ rest) = some s

abbrev pub not_taken : Inst → Option Block
not_taken inst = second inst.successors
  where
    second : List Block → Option Block
    second (s ∷ t ∷ rest) = some t
    second _ = none

pub data FixupKind : Type 0 where
  call26 adrp_page21 add_lo12 tprel_hi12 tprel_lo12_nc : FixupKind

pub record BinaryFixup : Type 0 where
  pub offset : ℕ
  pub symbol : String
  pub kind : FixupKind

pub record BinaryEncoding : Type 0 where
  pub bytes : List ℕ
  pub fixups : List BinaryFixup

-- A map of offsets is the function that looks a key up.
pub record BinarySerializationContext : Type 0 where
  pub function_offsets : String → Option ℕ
  pub block_offsets : Block → Option ℕ
  pub literal_offsets : String → Option ℕ

abbrev pub fixup_list : Option BinaryFixup → List BinaryFixup
fixup_list none = []
fixup_list (some fixup) = fixup ∷ []

abbrev pub word_encoding : ℕ → Option BinaryFixup → BinaryEncoding
word_encoding word fixup = record { bytes = to_le_bytes word; fixups = fixup_list fixup }
