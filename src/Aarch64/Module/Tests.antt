-- ===== src/Aarch64/Module/Tests.antt =====
-- Tests of crates/pliron-ll/src/passes/aarch64/aarch64_encode.rs: the module of its own test, and
-- instances of the theorems about the layout.
use Prim.Native.String.{String}
use text.Mathlib.Text.{◌==◌ as str_eq}
use crabbit.Prelude.{ℕ, if◌then◌else◌, ◌≡◌, refl, arith, false, true, ◌++◌}
use crabbit.Prelude.{some, none, inl, inr, List, [], ◌∷◌}
use crabbit.Prelude.Result.{ok}
use crabbit.Layout.{
  Block, BlockMap, BasicBlock, FuncOp, Image, Layout, Encoded, encode_module, encode_func, lay_out,
  code_size, block_size, block_offsets, collect_literals, collect_ops, or_insert, place_literals,
  encode_funcs, encode_blocks, encode_ops, no_blocks, no_names, refs_with,
}
use crabbit.Layout.Pieces.{StandsIn}
use crabbit.Layout.Funcs.{concat}
use crabbit.Layout.Module.{
  nothing, literal_map, BlockPlaced, encode_module-BlockPlaced, encode_module-Stored,
}
use crabbit.Aarch64.Registers.{gpr, xreg}
use crabbit.Aarch64.Condition.{ConditionCode}
use crabbit.Aarch64.Condition.Flags.{Flags}
use crabbit.Aarch64.Opcode.{Aarch64Opcode, discriminant}
use crabbit.Aarch64.Inst.{Inst, FixupKind, BinaryFixup}
use crabbit.Aarch64.Fixed.{encode_fixed_inst}
use crabbit.Aarch64.Branch.{
  branch_words, encode_branch, encode_branch_words, encode_branch_word, b_words, b_cond_words,
  encode_b, encode_b_cond,
}
use crabbit.Aarch64.Address.{
  call_to, address_words, encode_call, encode_adr_literal, encode_pc_relative_address,
}
use crabbit.Aarch64.Emit.{encode_inst, byte_len, call_encoding}
use crabbit.Aarch64.Module.{MachineOp, aarch64, op_encode, op_byte_len, literal_for_inst}
use crabbit.Aarch64.Module.Edges.{Branches, encode_func-Branches}

abbrev bare : Inst
bare = record {
  rd = none;
  rn = none;
  rm = none;
  imm = none;
  cond = none;
  shift = none;
  callee = none;
  literal_label = none;
  successors = [];
  next_block = none;
}

abbrev plain : Aarch64Opcode → Inst → MachineOp
plain opcode inst = record { opcode = opcode; inst = inst; literal_bytes = none }

abbrev mov_imm : ℕ → ℕ → MachineOp
mov_imm rd imm = plain Aarch64Opcode.mov_imm (record bare { rd = some (gpr rd); imm = some imm })

abbrev call : String → MachineOp
call callee = plain Aarch64Opcode.call (record bare { callee = some callee })

abbrev adr_literal : ℕ → String → List ℕ → MachineOp
adr_literal rd label bytes = record {
  opcode = Aarch64Opcode.adr_literal;
  inst = record bare { rd = some (gpr rd); literal_label = some label };
  literal_bytes = some bytes;
}

abbrev b : Block → MachineOp
b target = plain Aarch64Opcode.b (record bare { successors = target ∷ [] })

abbrev ret : MachineOp
ret = plain Aarch64Opcode.ret bare

abbrev exit : BasicBlock MachineOp
exit = record { block = 1; ops = ret ∷ [] }

abbrev entry : BasicBlock MachineOp
entry = record {
  block = 0;
  ops =
      mov_imm 0 1
      ∷ call "puts"
      ∷ call "callee"
      ∷ adr_literal 1 "lit0" (0xaa ∷ 0xbb ∷ 0xcc ∷ 0xdd ∷ [])
      ∷ adr_literal 2 "lit1" (1 ∷ 2 ∷ 3 ∷ 4 ∷ [])
      ∷ b 1
      ∷ [];
}

abbrev caller : FuncOp MachineOp
caller = record { name = "caller"; blocks = entry ∷ exit ∷ [] }

abbrev one_block : String → Block → MachineOp → FuncOp MachineOp
one_block name block op = record {
  name = name;
  blocks = record { block = block; ops = op ∷ [] } ∷ [];
}

abbrev later_funcs : List (FuncOp MachineOp)
later_funcs = one_block "callee" 2 ret ∷ one_block "third" 3 (call "caller") ∷ []

abbrev funcs : List (FuncOp MachineOp)
funcs = caller ∷ later_funcs

abbrev image : Image BinaryFixup
image = record {
  codes =
      (0x20 ∷ 0 ∷ 0x80 ∷ 0xd2 ∷ 0 ∷ 0 ∷ 0 ∷ 0x94 ∷ 8 ∷ 0 ∷ 0 ∷ 0x94 ∷ 1 ∷ 0 ∷ 0 ∷ 0x10 ∷ 0x21 ∷ 0x90
        ∷ 0 ∷ 0x91 ∷ 0x21 ∷ 0 ∷ 0x40 ∷ 0x91 ∷ 2 ∷ 0 ∷ 0 ∷ 0x10 ∷ 0x42 ∷ 0x70 ∷ 0 ∷ 0x91 ∷ 0x42 ∷ 0
        ∷ 0x40 ∷ 0x91 ∷ 0xc0 ∷ 3 ∷ 0x5f ∷ 0xd6 ∷ [])
      ∷ (0xc0 ∷ 3 ∷ 0x5f ∷ 0xd6 ∷ [])
      ∷ (0xf5 ∷ 0xff ∷ 0xff ∷ 0x97 ∷ [])
      ∷ [];
  literal_bytes = 0xaa ∷ 0xbb ∷ 0xcc ∷ 0xdd ∷ 1 ∷ 2 ∷ 3 ∷ 4 ∷ [];
  fixups = record { offset = 4; symbol = "puts"; kind = FixupKind.call26 } ∷ [];
}

-- The bytes, the literals and the fixup that the source's test expects.
funcs_encoded : encode_module aarch64 funcs ≡ ok image
unfolding encode_module lay_out code_size block_size block_offsets collect_literals collect_ops
    or_insert place_literals encode_funcs encode_blocks encode_ops op_encode op_byte_len
    literal_for_inst encode_inst byte_len discriminant branch_words b_words encode_branch
    encode_branch_words encode_branch_word encode_b encode_call call_encoding encode_adr_literal
    encode_pc_relative_address address_words call_to encode_fixed_inst xreg
funcs_encoded = refl

-- The block that `caller` leaves by.
encode_module-BlockPlaced_example :
    (map : Layout) × (lay_out aarch64 nothing funcs ≡ ok map)
    × BlockPlaced aarch64 map image.codes caller exit []
encode_module-BlockPlaced_example =
    encode_module-BlockPlaced aarch64 funcs [] caller later_funcs (entry ∷ []) exit [] image
      funcs_encoded refl (refl, (refl, tt)) refl ((refl, tt), (tt, tt))

abbrev bytes_of : String → List ℕ
bytes_of label = if str_eq label "lit0" then 0xaa ∷ 0xbb ∷ 0xcc ∷ 0xdd ∷ [] else 1 ∷ 2 ∷ 3 ∷ 4 ∷ []

encode_module-Stored_example :
    (map : Layout) × (lay_out aarch64 nothing funcs ≡ ok map)
    × (encode_funcs aarch64 map.offsets (literal_map map) 0 funcs ≡ ok (image.codes, image.fixups))
    × (place : ℕ) × (literal_map map "lit1" ≡ some place)
    × StandsIn 0 (concat image.codes ++ image.literal_bytes) place (bytes_of "lit1")
unfolding literal_for_inst discriminant
encode_module-Stored_example =
    encode_module-Stored aarch64 bytes_of funcs "lit1" image funcs_encoded
      (
        ((tt, (tt, (tt, (refl, (refl, (tt, tt)))))), ((tt, tt), tt)),
        (((tt, tt), tt), (((tt, tt), tt), tt)),
      )
      (inl (inl (inr (inr (inr (inr (inl (1 ∷ 2 ∷ 3 ∷ 4 ∷ [], refl))))))))

abbrev flags : Flags
flags = record { n = true; z = false; c = false; v = false }

-- A block with two ways out.
abbrev choice : MachineOp
choice =
    plain Aarch64Opcode.b_cond
      (record bare { cond = some ConditionCode.lt; successors = 1 ∷ 2 ∷ [] })

abbrev fork : BasicBlock MachineOp
fork = record { block = 0; ops = ret ∷ choice ∷ [] }

abbrev last : BasicBlock MachineOp
last = record { block = 2; ops = ret ∷ [] }

abbrev forked : FuncOp MachineOp
forked = record { name = "forked"; blocks = fork ∷ exit ∷ last ∷ [] }

-- The first way out is the next block, so that the inverted condition leads to the second.
abbrev forked_code : Encoded BinaryFixup
forked_code = record {
  bytes =
      0xc0 ∷ 3 ∷ 0x5f ∷ 0xd6 ∷ 0x4a ∷ 0 ∷ 0 ∷ 0x54 ∷ 0xc0 ∷ 3 ∷ 0x5f ∷ 0xd6 ∷ 0xc0 ∷ 3 ∷ 0x5f ∷ 0xd6
      ∷ [];
  fixups = [];
}

forked_encoded : encode_func aarch64 no_names no_names 8 forked ≡ ok forked_code
unfolding block_size block_offsets encode_blocks encode_ops op_encode op_byte_len encode_inst
    byte_len discriminant branch_words b_cond_words encode_branch encode_branch_words
    encode_branch_word encode_b_cond encode_fixed_inst
forked_encoded = refl

encode_func-Branches_example :
    (out : BlockMap) × (block_offsets aarch64 no_blocks 8 forked.blocks ≡ ok out)
    × Branches flags
        (λ r. false)
        (refs_with aarch64 no_names no_names out)
        8
        forked_code
        fork
        (exit ∷ last ∷ [])
        (ret ∷ [])
        choice
        ConditionCode.lt
        1
        2
encode_func-Branches_example =
    encode_func-Branches flags (λ r. false) no_names no_names 8 forked forked_code [] fork
      (exit ∷ last ∷ []) (ret ∷ []) choice ConditionCode.lt 1 2 forked_encoded refl (omega arith)
      refl ((refl, (refl, tt)), ((refl, tt), (tt, tt))) refl refl refl refl (inr (inl refl))
      (inr (inr (inl refl)))
