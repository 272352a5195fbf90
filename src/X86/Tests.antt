-- ===== src/X86/Tests.antt =====
-- Tests of crates/pliron-ll/src/x86_64/encoding.rs, and instances of the theorems about it.
use Prim.Native.String.{String}
use crabbit.Prelude.{ℕ, ◌+◌, ◌/◌, ◌%◌, ◌<◌, ◌≡◌, refl, arith, true, false, ◌↔◌}
use crabbit.Prelude.{Option, some, none, [], ◌∷◌}
use crabbit.Prelude.Int.{pos}
use crabbit.Prelude.Result.{Error, ok, err}
use crabbit.X86.Registers.{gpr}
use crabbit.X86.Condition.{ConditionCode}
use crabbit.X86.Condition.Flags.{Flags}
use crabbit.X86.Opcode.{X86Opcode}
use crabbit.X86.Inst.{Inst, Block, BinarySerializationContext}
use crabbit.X86.Bytes.{
  emit_alu_three, emit_mov_rr, alu, parse_gpr, rex, modrm, rel32, rax, rcx, rdx, Size, emit_store,
}
use crabbit.X86.Encode.{encode_inst, inst_len, emit_jcc, branch_target}
use crabbit.X86.Encode.Length.{inst_len-encode_inst}
use crabbit.X86.Machine.{Registers, set, word_size}
use crabbit.X86.Machine.Execute.{AluOp, alu_value}
use crabbit.X86.Arith.{Operands, Words, Runs, alu-Runs}
use crabbit.X86.Arith.Expand.{
  ExpandedOp, IsClobbered, high_half, low_half, umulh-Runs, encode_inst-clobbered,
}
use crabbit.X86.Arith.Shift.{ShiftOp, shift_value, shift-Runs}
use crabbit.X86.Arith.Divide.{divided, udiv-Runs}
use crabbit.X86.Arith.SignedDivide.{signed_value, signed_divided, sdiv-Runs}
use crabbit.X86.Branch.Displacement.{OutOfReach}
use crabbit.X86.Branch.Jump.{Lands, jcc-Lands, jmp-out_of_range, test_jnz-Lands}
use crabbit.X86.Memory.{decode_access, decode_access-emitted}

abbrev no_offsets : String → Option ℕ
no_offsets name = none

abbrev blocks_at : ℕ → Block → Option ℕ
blocks_at place block = some place

abbrev refs_at : ℕ → BinarySerializationContext
refs_at place = record {
  function_offsets = no_offsets;
  block_offsets = blocks_at place;
  literal_offsets = no_offsets;
}

-- An operation on three registers, with a successor and a condition.
abbrev inst_of : ℕ → ℕ → ℕ → Inst
inst_of rd rn rm = record {
  rd = some (gpr rd);
  rn = some (gpr rn);
  rm = some (gpr rm);
  imm = some 5;
  cond = some ConditionCode.l;
  callee = some "main";
  literal_label = none;
  successors = 7 ∷ [];
}

Operands-inst_of :
    (rd rn rm : ℕ) → rd < 16 → rn < 16 → rm < 16 → Operands (inst_of rd rn rm) rd rn rm
unfolding parse_gpr
Operands-inst_of rd rn rm low_rd low_rn low_rm = record {
  e_rd = refl;
  e_rn = refl;
  e_rm = refl;
  low_rd = low_rd;
  low_rn = low_rn;
  low_rm = low_rm;
}

-- Every register holds twice its number, and one.
abbrev state : Registers
state q = (q + q + 1) % word_size

state-Words : Words state
state-Words q = omega arith

abbrev flags : Flags
flags = record { of = false; cf = false; zf = true; sf = true; pf = false }

-- The bytes of a mixed expansion, and the length of a branch.
add_bytes :
    encode_inst (inst_of 0 1 2) X86Opcode.add 0 none
    ≡ ok (record { bytes = 0x48 ∷ 0x89 ∷ 0xc8 ∷ 0x48 ∷ 0x01 ∷ 0xd0 ∷ []; fixups = [] })
unfolding encode_inst emit_alu_three emit_mov_rr alu parse_gpr rex modrm
add_bytes = refl

len_of_jcc : inst_len (inst_of 0 1 2) X86Opcode.jcc ≡ ok 6
unfolding inst_len encode_inst emit_jcc branch_target rel32
len_of_jcc = refl

jcc_bytes :
    encode_inst (inst_of 0 1 2) X86Opcode.jcc 100 (some (refs_at 40))
    ≡ ok (record { bytes = 0x0f ∷ 0x8c ∷ 0xbe ∷ 0xff ∷ 0xff ∷ 0xff ∷ []; fixups = [] })
unfolding encode_inst emit_jcc branch_target rel32
jcc_bytes = refl

inst_len-encode_inst_example : inst_len (inst_of 0 1 2) X86Opcode.jcc ≡ ok 6
inst_len-encode_inst_example =
    inst_len-encode_inst (inst_of 0 1 2) X86Opcode.jcc 100 (refs_at 40)
      (record { bytes = 0x0f ∷ 0x8c ∷ 0xbe ∷ 0xff ∷ 0xff ∷ 0xff ∷ []; fixups = [] }) jcc_bytes

spread : Operands (inst_of 9 3 12) 9 3 12
spread = Operands-inst_of 9 3 12 (omega arith) (omega arith) (omega arith)

-- r9 = rbx - r9
alu-Runs_example :
    Runs
      (encode_inst (inst_of 9 3 9) X86Opcode.sub 0 none)
      state
      (set 9 (alu_value AluOp.sub (state 3) (state 9)) state)
alu-Runs_example =
    alu-Runs (inst_of 9 3 9) AluOp.sub 0 none 9 3 9 state
      (Operands-inst_of 9 3 9 (omega arith) (omega arith) (omega arith)) state-Words

umulh-Runs_example : Runs (encode_inst (inst_of 9 3 12) X86Opcode.umulh 0 none) state (
    set 9
      (high_half (state 3) (state 12))
      (set rdx (high_half (state 3) (state 12)) (set rax (low_half (state 3) (state 12)) state)))
umulh-Runs_example =
    umulh-Runs (inst_of 9 3 12) 0 none 9 3 12 state spread
      (record { free_rd = refl; free_rn = refl; free_rm = refl })

shift-Runs_example :
    Runs
      (encode_inst (inst_of 9 3 9) X86Opcode.shl 0 none)
      state
      (set 9 (shift_value ShiftOp.left (state 3) (state 9)) (set rcx (state 9) state))
shift-Runs_example =
    shift-Runs (inst_of 9 3 9) ShiftOp.left 0 none 9 3 9 state
      (Operands-inst_of 9 3 9 (omega arith) (omega arith) (omega arith))
      (record { free_rd = refl; free_rn = refl; free_rm = refl })

udiv-Runs_example :
    Runs
      (encode_inst (inst_of 9 3 12) X86Opcode.udiv 0 none)
      state
      (set 9 (state 3 / state 12) (divided (state 3) (state 12) state))
udiv-Runs_example =
    udiv-Runs (inst_of 9 3 12) 0 none 9 3 12 state spread
      (record { free_rd = refl; free_rn = refl; free_rm = refl }) state-Words (omega arith)

sdiv-Runs_example :
    Runs
      (encode_inst (inst_of 9 3 12) X86Opcode.sdiv 0 none)
      state
      (set 9 (signed_value (state 3) (state 12)) (signed_divided (state 3) (state 12) state))
sdiv-Runs_example =
    sdiv-Runs (inst_of 9 3 12) 0 none 9 3 12 state spread
      (record { free_rd = refl; free_rn = refl; free_rm = refl }) state-Words (omega arith) refl

encode_inst-clobbered_example :
    (encode_inst (inst_of 9 2 12) X86Opcode.udiv 0 none ≡ err Error.clobbered)
    ↔ IsClobbered (rax ∷ rdx ∷ []) 9 2 12
encode_inst-clobbered_example =
    encode_inst-clobbered (inst_of 9 2 12) 0 none 9 2 12 ExpandedOp.udiv
      (Operands-inst_of 9 2 12 (omega arith) (omega arith) (omega arith))

jcc-Lands_example :
    Lands flags state (encode_inst (inst_of 0 1 2) X86Opcode.jcc 100 (some (refs_at 40))) 100 40
jcc-Lands_example =
    jcc-Lands flags state (inst_of 0 1 2) (refs_at 40) 100 7 [] 40 refl refl ConditionCode.l refl
      (record { forward = omega arith; backward = omega arith; place = omega arith })

jmp-out_of_range_example :
    (encode_inst (inst_of 0 1 2) X86Opcode.jmp 100 (some (refs_at 0x8000_0069))
      ≡ err Error.out_of_range)
    ↔ OutOfReach 0x8000_0069 (100 + 5)
jmp-out_of_range_example =
    jmp-out_of_range flags state (inst_of 0 1 2) (refs_at 0x8000_0069) 100 7 [] 0x8000_0069 refl
      refl

test_jnz-Lands_example :
    Lands flags state
      (encode_inst (inst_of 0 9 2) X86Opcode.test_jnz 100 (some (refs_at 40)))
      100
      40
test_jnz-Lands_example =
    test_jnz-Lands flags state (inst_of 0 9 2) (refs_at 40) 100 7 [] 40 9 refl refl
      ((Operands-inst_of 0 9 2 (omega arith) (omega arith) (omega arith)).e_rn) (omega arith)
      (record { forward = omega arith; backward = omega arith; place = omega arith })

-- A store of four bytes of r8 at 24 bytes above r12.
decode_access-emitted_example :
    decode_access (emit_store Size.long 8 12 (pos 24))
    ≡ some (record { is_load = false; size = Size.long; reg = 8; base = 12; disp = 24 })
decode_access-emitted_example =
    decode_access-emitted 8 12 (pos 24) (omega arith) (omega arith) false Size.long
