-- ===== src/Aarch64/Module.antt =====
-- crates/pliron-ll/src/passes/aarch64/aarch64_encode.rs over the operations of
-- crates/pliron-ll/src/aarch64/ops.rs.
pub mod Aligned
pub mod Edges
mod Tests
use Prim.Native.String.{String}
use crabbit.Prelude.{ℕ, ◌≡◌, sym, ◌∙◌, ap, length, Bool, if◌then◌else◌}
use crabbit.Prelude.{Option, none, some, List}
use crabbit.Prelude.Result.{Result, ok, ◌>>=◌, >>=-eq-ok, ok-injective}
use crabbit.Layout.{Block, Refs, Encoded, Target, FuncOp, Image, encode_module}
use crabbit.Aarch64.Inst.{Inst, BinaryFixup, BinaryEncoding, BinarySerializationContext}
use crabbit.Aarch64.Opcode.{Aarch64Opcode, opcode_eq}
use crabbit.Aarch64.Emit.{encode_inst, byte_len}
use crabbit.Aarch64.Emit.Length.{length-encode_inst}

-- An operation: its opcode, its attributes but for the block that follows, which the layout gives,
-- and the bytes of its literal.
pub record MachineOp : Type 0 where
  pub opcode : Aarch64Opcode
  pub inst : Inst
  pub literal_bytes : Option (List ℕ)

abbrev pub at_next : Option Block → Inst → Inst
at_next next inst = record inst { next_block = next }

abbrev pub paired : Option String → Option (List ℕ) → Option (String × List ℕ)
paired (some label) (some bytes) = some (label, bytes)
paired _ _ = none

unfoldable pub literal_for_inst : MachineOp → Option (String × List ℕ)
literal_for_inst op =
    if opcode_eq op.opcode Aarch64Opcode.adr_literal
    then paired op.inst.literal_label op.literal_bytes
    else none

abbrev pub context : Refs → BinarySerializationContext
context refs = record {
  function_offsets = refs.function_offsets;
  block_offsets = refs.block_offsets;
  literal_offsets = refs.literal_offsets;
}

abbrev pub encoding_of : BinaryEncoding → Encoded BinaryFixup
encoding_of e = record { bytes = e.bytes; fixups = e.fixups }

unfoldable pub op_encode : Option Block → MachineOp → ℕ → Refs → Result (Encoded BinaryFixup)
op_encode next op pc refs =
    encode_inst (at_next next op.inst) op.opcode pc (context refs) >>= λ e. ok (encoding_of e)

unfoldable pub op_byte_len : Option Block → MachineOp → Result ℕ
op_byte_len next op = ok (byte_len (at_next next op.inst) op.opcode)

pub op_byte_len-op_encode :
    (next : Option Block) (op : MachineOp) (pc : ℕ) (refs : Refs) (e : Encoded BinaryFixup)
    → op_encode next op pc refs ≡ ok e
    → op_byte_len next op ≡ ok (length e.bytes)
unfolding op_encode op_byte_len
op_byte_len-op_encode next op pc refs e run =
    let inst = at_next next op.inst in
    let (b, run_b, same) = >>=-eq-ok (encode_inst inst op.opcode pc (context refs)) _ run in
    ap ok (
      sym (length-encode_inst inst op.opcode pc (context refs) b run_b)
      ∙ ap (λ (c : Encoded BinaryFixup). length c.bytes) (ok-injective (encoding_of b) e same))

abbrev pub aarch64 : Target MachineOp BinaryFixup
aarch64 = record {
  byte_len = op_byte_len;
  literal = literal_for_inst;
  encode_binary = op_encode;
  counted = op_byte_len-op_encode;
}

-- The pass.
unfoldable pub aarch64_encode : List (FuncOp MachineOp) → Result (Image BinaryFixup)
aarch64_encode = encode_module aarch64
