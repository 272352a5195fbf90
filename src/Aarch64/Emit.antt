-- ===== src/Aarch64/Emit.antt =====
-- crates/pliron-ll/src/aarch64/encoding.rs, `encode_inst` and `byte_len`: the bytes of any
-- instruction, and the length that the layout passes count on before there are bytes.
pub mod Length
pub mod Edges
use crabbit.Prelude.{ℕ, Option, none, some, ◌||◌, ◌*◌, ◌%◌, ◌^◌, if◌then◌else◌, List, length}
use crabbit.Prelude.Result.{Result, ok, unwrap, ◌>>=◌}
use crabbit.Prelude.Words.{◌∣◌, ◌<<◌}
use crabbit.Aarch64.Registers.{xreg, number}
use crabbit.Aarch64.Opcode.{Aarch64Opcode, opcode_eq}
use crabbit.Aarch64.Inst.{
  Inst, BinaryEncoding, BinarySerializationContext, FixupKind, word_encoding,
}
use crabbit.Aarch64.Fixed.{encode_fixed_inst}
use crabbit.Aarch64.Branch.{BranchWord, branch_words, encode_branch, is_branch}
use crabbit.Aarch64.Address.{EncodedCall, encode_call, encode_adr_literal, encode_adr_function}

-- A call of a function of another module is a fixup.
unfoldable pub call_encoding : ℕ → EncodedCall → BinaryEncoding
call_encoding pc (EncodedCall.local word) = word_encoding word none
call_encoding pc (EncodedCall.external symbol) =
    word_encoding 0x9400_0000
      (some (record { offset = pc % 2 ^ 32; symbol = symbol; kind = FixupKind.call26 }))

-- The address of a page.
unfoldable pub encode_adrp : Inst → ℕ → Result BinaryEncoding
encode_adrp inst pc = do
  rd ← number xreg inst.rd
  symbol ← unwrap inst.callee
  ok (
      word_encoding (0x9000_0000 ∣ rd)
        (some (record { offset = pc % 2 ^ 32; symbol = symbol; kind = FixupKind.adrp_page21 })))

-- An addition whose immediate the linker fills in.
unfoldable pub encode_add_fixup : ℕ → FixupKind → Inst → ℕ → Result BinaryEncoding
encode_add_fixup base kind inst pc = do
  rd ← number xreg inst.rd
  rn ← number xreg inst.rn
  symbol ← unwrap inst.callee
  ok (
      word_encoding (base ∣ rn << 5 ∣ rd)
        (some (record { offset = pc % 2 ^ 32; symbol = symbol; kind = kind })))

unfoldable pub encode_inst :
    Inst → Aarch64Opcode → ℕ → BinarySerializationContext → Result BinaryEncoding
encode_inst inst opcode pc refs =
    if opcode_eq opcode Aarch64Opcode.call
    then (encode_call refs.function_offsets inst pc >>= λ call. ok (call_encoding pc call))
    else if opcode_eq opcode Aarch64Opcode.adr_literal
    then encode_adr_literal refs.literal_offsets inst pc
    else if opcode_eq opcode Aarch64Opcode.adr_function
    then encode_adr_function refs.function_offsets inst pc
    else if opcode_eq opcode Aarch64Opcode.adrp
    then encode_adrp inst pc
    else if opcode_eq opcode Aarch64Opcode.add_lo12
    then encode_add_fixup 0x9100_0000 FixupKind.add_lo12 inst pc
    else if opcode_eq opcode Aarch64Opcode.add_tprel_hi12
    then encode_add_fixup 0x9140_0000 FixupKind.tprel_hi12 inst pc
    else if opcode_eq opcode Aarch64Opcode.add_tprel_lo12_nc
    then encode_add_fixup 0x9100_0000 FixupKind.tprel_lo12_nc inst pc
    else if is_branch opcode
    then encode_branch refs.block_offsets inst opcode pc
    else (encode_fixed_inst opcode inst >>= λ word. ok (word_encoding word none))

abbrev pub byte_len_for : Aarch64Opcode → ℕ
byte_len_for opcode =
    if opcode_eq opcode Aarch64Opcode.adr_literal || opcode_eq opcode Aarch64Opcode.adr_function
    then 12
    else 4

abbrev pub words_len : Aarch64Opcode → Option (List BranchWord) → ℕ
words_len opcode (some words) = 4 * length words
words_len opcode none = byte_len_for opcode

unfoldable pub byte_len : Inst → Aarch64Opcode → ℕ
byte_len inst opcode = words_len opcode (branch_words inst opcode)
