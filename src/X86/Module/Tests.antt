-- ===== src/X86/Module/Tests.antt =====
-- Tests of crates/pliron-ll/src/passes/x86_64_darwin/x86_64_encode.rs: the module of its own test.
use Prim.Native.String.{String}
use crabbit.Prelude.{ℕ, ◌≡◌, refl, some, none, List, [], ◌∷◌}
use crabbit.Prelude.Result.{ok}
use crabbit.Layout.{
  Block, FuncOp, encode_module, lay_out, code_size, block_size, block_offsets, collect_literals,
  collect_ops, or_insert, place_literals, encode_funcs, encode_blocks, encode_ops,
}
use crabbit.X86.Registers.{gpr}
use crabbit.X86.Inst.{Inst, FixupKind}
use crabbit.X86.Opcode.{X86Opcode}
use crabbit.X86.Bytes.{parse_gpr, rex, modrm, rel32, emit_lea_rip, disp32}
use crabbit.X86.Encode.{
  encode_inst, inst_len, emit_jmp, emit_call, emit_adr, resolve, branch_target,
}
use crabbit.X86.Module.{MachineOp, x86_64_encode, op_encode, op_byte_len, literal_for_inst}

abbrev bare : Inst
bare = record {
  rd = none;
  rn = none;
  rm = none;
  imm = none;
  cond = none;
  callee = none;
  literal_label = none;
  successors = [];
}

abbrev plain : X86Opcode → Inst → MachineOp
plain opcode inst = record { opcode = opcode; inst = inst; literal_bytes = none }

abbrev mov_imm : ℕ → ℕ → MachineOp
mov_imm rd imm = plain X86Opcode.mov_imm (record bare { rd = some (gpr rd); imm = some imm })

abbrev call : String → MachineOp
call callee = plain X86Opcode.call (record bare { callee = some callee })

abbrev adr_literal : ℕ → String → List ℕ → MachineOp
adr_literal rd label bytes = record {
  opcode = X86Opcode.adr_literal;
  inst = record bare { rd = some (gpr rd); literal_label = some label };
  literal_bytes = some bytes;
}

abbrev jmp : Block → MachineOp
jmp target = plain X86Opcode.jmp (record bare { successors = target ∷ [] })

abbrev ret : MachineOp
ret = plain X86Opcode.ret bare

abbrev caller : FuncOp MachineOp
caller = record {
  name = "caller";
  blocks =
      record {
        block = 0;
        ops =
            mov_imm 3 1
            ∷ call "puts"
            ∷ call "callee"
            ∷ adr_literal 12 "lit0" (0xaa ∷ 0xbb ∷ 0xcc ∷ 0xdd ∷ [])
            ∷ adr_literal 13 "lit1" (1 ∷ 2 ∷ 3 ∷ 4 ∷ [])
            ∷ jmp 1
            ∷ [];
      }
      ∷ record { block = 1; ops = ret ∷ [] }
      ∷ [];
}

abbrev one_block : String → Block → MachineOp → FuncOp MachineOp
one_block name block op = record {
  name = name;
  blocks = record { block = block; ops = op ∷ [] } ∷ [];
}

-- The bytes, the literals and the fixup that the source's test expects.
records_function_offsets_literals_blocks_and_fixups :
    x86_64_encode (caller ∷ one_block "callee" 2 ret ∷ one_block "third" 3 (call "caller") ∷ [])
    ≡ ok (record {
      codes =
          (0x48 ∷ 0xbb ∷ 1 ∷ 0 ∷ 0 ∷ 0 ∷ 0 ∷ 0 ∷ 0 ∷ 0 ∷ 0xe8 ∷ 0 ∷ 0 ∷ 0 ∷ 0 ∷ 0xe8 ∷ 0x14 ∷ 0 ∷ 0
            ∷ 0 ∷ 0x4c ∷ 0x8d ∷ 0x25 ∷ 0x13 ∷ 0 ∷ 0 ∷ 0 ∷ 0x4c ∷ 0x8d ∷ 0x2d ∷ 0x10 ∷ 0 ∷ 0 ∷ 0
            ∷ 0xe9 ∷ 0 ∷ 0 ∷ 0 ∷ 0 ∷ 0xc3 ∷ [])
          ∷ (0xc3 ∷ [])
          ∷ (0xe8 ∷ 0xd2 ∷ 0xff ∷ 0xff ∷ 0xff ∷ [])
          ∷ [];
      literal_bytes = 0xaa ∷ 0xbb ∷ 0xcc ∷ 0xdd ∷ 1 ∷ 2 ∷ 3 ∷ 4 ∷ [];
      fixups = record { offset = 11; symbol = "puts"; kind = FixupKind.branch32 } ∷ [];
    })
unfolding x86_64_encode encode_module lay_out code_size block_size block_offsets collect_literals
    collect_ops or_insert place_literals encode_funcs encode_blocks encode_ops op_encode op_byte_len
    literal_for_inst encode_inst inst_len emit_jmp emit_call emit_adr resolve branch_target
    parse_gpr rex modrm rel32 emit_lea_rip disp32
records_function_offsets_literals_blocks_and_fixups = refl
