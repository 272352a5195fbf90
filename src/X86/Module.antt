-- ===== src/X86/Module.antt =====
-- crates/pliron-ll/src/passes/x86_64_darwin/x86_64_encode.rs over the operations of
-- crates/pliron-ll/src/x86_64/ops.rs.
mod Tests
use Prim.Native.String.{String}
use crabbit.Prelude.{ℕ, ◌≡◌, ◌∙◌, ap, length}
use crabbit.Prelude.{Option, none, some, List}
use crabbit.Prelude.Result.{Result, ok, ◌>>=◌, >>=-eq-ok, ok-injective}
use crabbit.Layout.{Block, Refs, Encoded, Target, FuncOp, Image, encode_module}
use crabbit.X86.Inst.{Inst, BinaryFixup, BinaryEncoding, BinarySerializationContext}
use crabbit.X86.Opcode.{X86Opcode}
use crabbit.X86.Encode.{encode_inst, inst_len}
use crabbit.X86.Encode.Length.{inst_len-encode_inst}

-- An operation: its opcode, its attributes, and the bytes of its literal.
pub record MachineOp : Type 0 where
  pub opcode : X86Opcode
  pub inst : Inst
  pub literal_bytes : Option (List ℕ)

abbrev pub paired : Option String → Option (List ℕ) → Option (String × List ℕ)
paired (some label) (some bytes) = some (label, bytes)
paired _ _ = none

abbrev pub literal_of : X86Opcode → Option (String × List ℕ) → Option (String × List ℕ)
literal_of X86Opcode.adr_literal literal = literal
literal_of _ literal = none

unfoldable pub literal_for_inst : MachineOp → Option (String × List ℕ)
literal_for_inst op = literal_of op.opcode (paired op.inst.literal_label op.literal_bytes)

abbrev pub context : Refs → BinarySerializationContext
context refs = record {
  function_offsets = refs.function_offsets;
  block_offsets = refs.block_offsets;
  literal_offsets = refs.literal_offsets;
}

abbrev pub encoding_of : BinaryEncoding → Encoded BinaryFixup
encoding_of e = record { bytes = e.bytes; fixups = e.fixups }

-- The block that follows does not matter.
unfoldable pub op_encode : Option Block → MachineOp → ℕ → Refs → Result (Encoded BinaryFixup)
op_encode next op pc refs =
    encode_inst op.inst op.opcode pc (some (context refs)) >>= λ e. ok (encoding_of e)

unfoldable pub op_byte_len : Option Block → MachineOp → Result ℕ
op_byte_len next op = inst_len op.inst op.opcode

pub op_byte_len-op_encode :
    (next : Option Block) (op : MachineOp) (pc : ℕ) (refs : Refs) (e : Encoded BinaryFixup)
    → op_encode next op pc refs ≡ ok e
    → op_byte_len next op ≡ ok (length e.bytes)
unfolding op_encode op_byte_len
op_byte_len-op_encode next op pc refs e run =
    let (b, run_b, same) =
      >>=-eq-ok (encode_inst op.inst op.opcode pc (some (context refs))) _ run in
    inst_len-encode_inst op.inst op.opcode pc (context refs) b run_b
    ∙ ap (λ (c : Encoded BinaryFixup). ok (length c.bytes)) (ok-injective (encoding_of b) e same)

abbrev pub x86_64 : Target MachineOp BinaryFixup
x86_64 = record {
  byte_len = op_byte_len;
  literal = literal_for_inst;
  encode_binary = op_encode;
  counted = op_byte_len-op_encode;
}

-- The pass.
unfoldable pub x86_64_encode : List (FuncOp MachineOp) → Result (Image BinaryFixup)
x86_64_encode = encode_module x86_64
