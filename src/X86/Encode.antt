-- ===== src/X86/Encode.antt =====
-- crates/pliron-ll/src/x86_64/encoding.rs, `encode_into`, `encode_inst` and `inst_len`: the bytes
-- of each opcode, and their number before the offsets of the targets are known.
pub mod Length
use Prim.Native.String.{String}
use crabbit.Prelude.{ℕ, ◌+◌, ◌%◌, ◌^◌, bit_and, leb, ◌==◌, if◌then◌else◌, length}
use crabbit.Prelude.{Bool, true, false, Option, none, some, List, [], ◌∷◌, ◌++◌}
use crabbit.Prelude.Int.{ℤ}
use crabbit.Prelude.Words.{to_le_bytes, to_le_bytes_64}
use crabbit.Prelude.Result.{Result, Error, ok, panic, require, unwrap, ◌>>=◌, ◌>>◌}
use crabbit.X86.Registers.{Register}
use crabbit.X86.Condition.{encoding}
use crabbit.X86.Opcode.{X86Opcode}
use crabbit.X86.Inst.{
  Inst, target, BinaryEncoding, BinaryFixup, BinarySerializationContext, FixupKind,
}
use crabbit.X86.Bytes.{
  rax, rcx, rdx, rsp, parse_gpr, rex, modrm, emit_rr, emit_ext, emit_mov_rr, emit_alu_three,
  check_expansion_operands, emit_mem_operand, Size, emit_store, emit_load, disp32, rel32, rel_bytes,
  emit_lea_rip,
}

-- Sizing has no offsets: what is not resolved is at 0.
unfoldable pub resolve : Option (String → Option ℕ) → String → Result ℕ
resolve none key = ok 0
resolve (some offsets) key = require Error.unknown_label (offsets key)

unfoldable pub branch_target : Inst → Option BinarySerializationContext → Result ℕ
branch_target inst none = ok 0
branch_target inst (some refs) = do
  block ← require Error.missing_operand (target inst)
  require Error.outside_function (refs.block_offsets block)

abbrev pub immediate : Inst → Result ℕ
immediate inst = require Error.missing_operand inst.imm

abbrev pub condition : Inst → Result ℕ
condition inst = require Error.missing_operand inst.cond >>= λ cond. ok (encoding cond)

-- The three register operands, in the order in which they are asked for.
abbrev pub three : Inst → (ℕ → ℕ → ℕ → Result (List ℕ)) → Result (List ℕ)
three inst next = parse_gpr inst.rd >>= λ rd.
    parse_gpr inst.rn >>= λ rn. parse_gpr inst.rm >>= λ rm. next rd rn rm

unfoldable pub emit_imul : ℕ → ℕ → List ℕ
emit_imul rd src =
    rex true (leb 8 rd) false (leb 8 src)
    ∷ 0x0f
    ∷ 0xaf
    ∷ modrm 3 (bit_and rd 7) (bit_and src 7)
    ∷ []

-- The low half of the product, by the two-operand imul.
unfoldable pub emit_mul : ℕ → ℕ → ℕ → List ℕ
emit_mul rd rn rm =
    if rd == rn
    then emit_imul rd rm
    else if rd == rm
    then emit_imul rd rn
    else emit_mov_rr rd rn ++ emit_imul rd rm

unfoldable pub emit_umulh : ℕ → ℕ → ℕ → Result (List ℕ)
emit_umulh rd rn rm = do
  check_expansion_operands (rd ∷ rn ∷ rm ∷ []) (rax ∷ rdx ∷ [])
  ok (emit_mov_rr rax rn ++ emit_ext 0xf7 4 rm ++ emit_mov_rr rd rdx)

unfoldable pub emit_sdiv : ℕ → ℕ → ℕ → Result (List ℕ)
emit_sdiv rd rn rm = do
  check_expansion_operands (rd ∷ rn ∷ rm ∷ []) (rax ∷ rdx ∷ [])
  ok (emit_mov_rr rax rn ++ (0x48 ∷ 0x99 ∷ []) ++ emit_ext 0xf7 7 rm ++ emit_mov_rr rd rax)

unfoldable pub emit_udiv : ℕ → ℕ → ℕ → Result (List ℕ)
emit_udiv rd rn rm = do
  check_expansion_operands (rd ∷ rn ∷ rm ∷ []) (rax ∷ rdx ∷ [])
  ok (emit_mov_rr rax rn ++ (0x31 ∷ 0xd2 ∷ []) ++ emit_ext 0xf7 6 rm ++ emit_mov_rr rd rax)

-- A shift by rcx; the extension of the opcode chooses the direction.
unfoldable pub emit_shift : ℕ → ℕ → ℕ → ℕ → Result (List ℕ)
emit_shift ext rd rn rm = do
  check_expansion_operands (rd ∷ rn ∷ rm ∷ []) (rcx ∷ [])
  ok (emit_mov_rr rcx rm ++ (if rd == rn then [] else emit_mov_rr rd rn) ++ emit_ext 0xd3 ext rd)

unfoldable pub emit_cset : ℕ → ℕ → List ℕ
emit_cset rd nibble =
    rex false false false (leb 8 rd)
    ∷ 0x0f
    ∷ (0x90 + nibble)
    ∷ modrm 3 0 (bit_and rd 7)
    ∷ rex true (leb 8 rd) false (leb 8 rd)
    ∷ 0x0f
    ∷ 0xb6
    ∷ modrm 3 (bit_and rd 7) (bit_and rd 7)
    ∷ []

-- An addition to rsp or a subtraction from it, with a displacement.
unfoldable pub emit_sp_imm : ℕ → Inst → Result (List ℕ)
emit_sp_imm field inst = do
  imm ← immediate inst
  disp ← disp32 imm
  ok (0x48 ∷ 0x81 ∷ field ∷ rel_bytes disp)

unfoldable pub emit_sp_access : (Size → ℕ → ℕ → ℤ → List ℕ) → Size → Inst → Result (List ℕ)
emit_sp_access emit size inst = do
  rd ← parse_gpr inst.rd
  imm ← immediate inst
  disp ← disp32 imm
  ok (emit size rd rsp disp)

unfoldable pub emit_reg_access : (Size → ℕ → ℕ → ℤ → List ℕ) → Size → Inst → Result (List ℕ)
emit_reg_access emit size inst = do
  rd ← parse_gpr inst.rd
  rn ← parse_gpr inst.rn
  imm ← immediate inst
  disp ← disp32 imm
  ok (emit size rd rn disp)

abbrev pub with_bytes : Result (List ℕ) → Result BinaryEncoding
with_bytes r = r >>= λ bytes. ok (record { bytes = bytes; fixups = [] })

-- Where a call goes: nowhere when the function is not of this module.
abbrev pub local_target : Option BinarySerializationContext → String → Option ℕ
local_target none callee = some 0
local_target (some refs) callee = refs.function_offsets callee

unfoldable pub emit_call : ℕ → String → Option ℕ → Result BinaryEncoding
emit_call pc callee (some to) = do
  rel ← rel32 to pc 5
  ok (record { bytes = 0xe8 ∷ rel_bytes rel; fixups = [] })
emit_call pc callee none = ok (record {
  bytes = 0xe8 ∷ to_le_bytes 0;
  fixups =
      record { offset = (pc % 2 ^ 32 + 1) % 2 ^ 32; symbol = callee; kind = FixupKind.branch32 }
      ∷ [];
})

abbrev pub literal_map : Option BinarySerializationContext → Option (String → Option ℕ)
literal_map none = none
literal_map (some refs) = some refs.literal_offsets

abbrev pub function_map : Option BinarySerializationContext → Option (String → Option ℕ)
function_map none = none
function_map (some refs) = some refs.function_offsets

unfoldable pub emit_adr : Inst → Option String → Option (String → Option ℕ) → ℕ → Result (List ℕ)
emit_adr inst key offsets pc = do
  rd ← parse_gpr inst.rd
  label ← unwrap key
  to ← resolve offsets label
  emit_lea_rip rd to pc

unfoldable pub emit_jmp : Inst → ℕ → Option BinarySerializationContext → Result (List ℕ)
emit_jmp inst pc refs = do
  to ← branch_target inst refs
  rel ← rel32 to pc 5
  ok (0xe9 ∷ rel_bytes rel)

unfoldable pub emit_jcc : Inst → ℕ → Option BinarySerializationContext → Result (List ℕ)
emit_jcc inst pc refs = do
  to ← branch_target inst refs
  nibble ← condition inst
  rel ← rel32 to pc 6
  ok (0x0f ∷ (0x80 + nibble) ∷ rel_bytes rel)

unfoldable pub emit_test_jnz : Inst → ℕ → Option BinarySerializationContext → Result (List ℕ)
emit_test_jnz inst pc refs = do
  rn ← parse_gpr inst.rn
  to ← branch_target inst refs
  rel ← rel32 to pc 9
  ok (emit_rr 0x85 rn rn ++ (0x0f ∷ 0x85 ∷ rel_bytes rel))

unfoldable pub encode_inst :
    Inst → X86Opcode → ℕ → Option BinarySerializationContext → Result BinaryEncoding
encode_inst inst X86Opcode.mov_imm pc refs = with_bytes (
    parse_gpr inst.rd >>= λ rd. immediate inst >>= λ imm.
    ok (rex true false false (leb 8 rd) ∷ (0xb8 + bit_and rd 7) ∷ to_le_bytes_64 imm))
encode_inst inst X86Opcode.mov pc refs =
    with_bytes (parse_gpr inst.rd >>= λ rd. parse_gpr inst.rm >>= λ rm. ok (emit_mov_rr rd rm))
encode_inst inst X86Opcode.add pc refs =
    with_bytes (three inst (λ rd rn rm. ok (emit_alu_three 0x01 rd rn rm true)))
encode_inst inst X86Opcode.sub pc refs =
    with_bytes (three inst (λ rd rn rm. ok (emit_alu_three 0x29 rd rn rm false)))
encode_inst inst X86Opcode.mul pc refs =
    with_bytes (three inst (λ rd rn rm. ok (emit_mul rd rn rm)))
encode_inst inst X86Opcode.umulh pc refs = with_bytes (three inst emit_umulh)
encode_inst inst X86Opcode.sdiv pc refs = with_bytes (three inst emit_sdiv)
encode_inst inst X86Opcode.udiv pc refs = with_bytes (three inst emit_udiv)
encode_inst inst X86Opcode.and pc refs =
    with_bytes (three inst (λ rd rn rm. ok (emit_alu_three 0x21 rd rn rm true)))
encode_inst inst X86Opcode.or pc refs =
    with_bytes (three inst (λ rd rn rm. ok (emit_alu_three 0x09 rd rn rm true)))
encode_inst inst X86Opcode.xor pc refs =
    with_bytes (three inst (λ rd rn rm. ok (emit_alu_three 0x31 rd rn rm true)))
encode_inst inst X86Opcode.shl pc refs = with_bytes (three inst (emit_shift 4))
encode_inst inst X86Opcode.lsr pc refs = with_bytes (three inst (emit_shift 5))
encode_inst inst X86Opcode.cmp pc refs =
    with_bytes (parse_gpr inst.rn >>= λ rn. parse_gpr inst.rm >>= λ rm. ok (emit_rr 0x39 rm rn))
encode_inst inst X86Opcode.cset pc refs =
    with_bytes (parse_gpr inst.rd >>= λ rd. condition inst >>= λ nibble. ok (emit_cset rd nibble))
encode_inst inst X86Opcode.push pc refs =
    with_bytes (
      parse_gpr inst.rd >>= λ rd.
      ok (rex false false false (leb 8 rd) ∷ (0x50 + bit_and rd 7) ∷ []))
encode_inst inst X86Opcode.pop pc refs =
    with_bytes (
      parse_gpr inst.rd >>= λ rd.
      ok (rex false false false (leb 8 rd) ∷ (0x58 + bit_and rd 7) ∷ []))
encode_inst inst X86Opcode.sub_sp_imm pc refs = with_bytes (emit_sp_imm 0xec inst)
encode_inst inst X86Opcode.add_sp_imm pc refs = with_bytes (emit_sp_imm 0xc4 inst)
encode_inst inst X86Opcode.add_sp_offset pc refs = with_bytes (
    parse_gpr inst.rd >>= λ rd. immediate inst >>= λ imm. disp32 imm >>= λ disp.
    ok (rex true (leb 8 rd) false false ∷ 0x8d ∷ emit_mem_operand rd rsp disp))
encode_inst inst X86Opcode.str_sp_offset pc refs =
    with_bytes (emit_sp_access emit_store Size.quad inst)
encode_inst inst X86Opcode.ldr_sp_offset pc refs =
    with_bytes (emit_sp_access emit_load Size.quad inst)
encode_inst inst X86Opcode.strw_sp_offset pc refs =
    with_bytes (emit_sp_access emit_store Size.long inst)
encode_inst inst X86Opcode.ldrw_sp_offset pc refs =
    with_bytes (emit_sp_access emit_load Size.long inst)
encode_inst inst X86Opcode.strh_sp_offset pc refs =
    with_bytes (emit_sp_access emit_store Size.word inst)
encode_inst inst X86Opcode.ldrh_sp_offset pc refs =
    with_bytes (emit_sp_access emit_load Size.word inst)
encode_inst inst X86Opcode.strb_sp_offset pc refs =
    with_bytes (emit_sp_access emit_store Size.byte inst)
encode_inst inst X86Opcode.ldrb_sp_offset pc refs =
    with_bytes (emit_sp_access emit_load Size.byte inst)
encode_inst inst X86Opcode.ldr_stack_arg pc refs = with_bytes (
    parse_gpr inst.rd >>= λ rd. immediate inst >>= λ imm.
    disp32 ((imm + 8) % 2 ^ 64) >>= λ disp. ok (emit_load Size.quad rd rsp disp))
encode_inst inst X86Opcode.str_reg_offset pc refs =
    with_bytes (emit_reg_access emit_store Size.quad inst)
encode_inst inst X86Opcode.ldr_reg_offset pc refs =
    with_bytes (emit_reg_access emit_load Size.quad inst)
encode_inst inst X86Opcode.strw_reg_offset pc refs =
    with_bytes (emit_reg_access emit_store Size.long inst)
encode_inst inst X86Opcode.ldrw_reg_offset pc refs =
    with_bytes (emit_reg_access emit_load Size.long inst)
encode_inst inst X86Opcode.strh_reg_offset pc refs =
    with_bytes (emit_reg_access emit_store Size.word inst)
encode_inst inst X86Opcode.ldrh_reg_offset pc refs =
    with_bytes (emit_reg_access emit_load Size.word inst)
encode_inst inst X86Opcode.strb_reg_offset pc refs =
    with_bytes (emit_reg_access emit_store Size.byte inst)
encode_inst inst X86Opcode.ldrb_reg_offset pc refs =
    with_bytes (emit_reg_access emit_load Size.byte inst)
encode_inst inst X86Opcode.adr_literal pc refs =
    with_bytes (emit_adr inst inst.literal_label (literal_map refs) pc)
encode_inst inst X86Opcode.adr_function pc refs =
    with_bytes (emit_adr inst inst.callee (function_map refs) pc)
encode_inst inst X86Opcode.ret pc refs = with_bytes (ok (0xc3 ∷ []))
encode_inst inst X86Opcode.ud2 pc refs = with_bytes (ok (0x0f ∷ 0x0b ∷ []))
encode_inst inst X86Opcode.call pc refs =
    unwrap inst.callee >>= λ callee. emit_call pc callee (local_target refs callee)
encode_inst inst X86Opcode.call_reg pc refs = with_bytes (
    parse_gpr inst.rn >>= λ rn.
    ok (rex false false false (leb 8 rn) ∷ 0xff ∷ modrm 3 2 (bit_and rn 7) ∷ []))
encode_inst inst X86Opcode.jmp pc refs = with_bytes (emit_jmp inst pc refs)
encode_inst inst X86Opcode.jcc pc refs = with_bytes (emit_jcc inst pc refs)
encode_inst inst X86Opcode.test_jnz pc refs = with_bytes (emit_test_jnz inst pc refs)

-- Sizing runs the encoder at offset 0; what it does not encode is a Rust panic.
unfoldable pub inst_len : Inst → X86Opcode → Result ℕ
inst_len inst opcode = sized (encode_inst inst opcode 0 none)
  where
    sized : Result BinaryEncoding → Result ℕ
    sized (ok e) = ok (length e.bytes)
    sized _ = panic
