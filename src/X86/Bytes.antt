-- ===== src/X86/Bytes.antt =====
-- crates/pliron-ll/src/x86_64/encoding.rs: the helpers that write prefixes, operands and the
-- expansions of three-address operations. What they push on the output is the list they return.
use crabbit.Prelude.{ℕ, ◌+◌, ◌%◌, ◌^◌, bit_and, leb, ltb, ◌==◌, ◌||◌, if◌then◌else◌}
use crabbit.Prelude.{Bool, true, false, not, Option, none, some, List, [], ◌∷◌, ◌++◌}
use crabbit.Prelude.Int.{ℤ, pos, sub_ℕ, to_bits, in_range}
use crabbit.Prelude.Words.{◌∣◌, ◌<<◌, to_le_bytes}
use crabbit.Prelude.Result.{Result, Error, ok, err, guard, ◌>>=◌, ◌>>◌}
use crabbit.X86.Registers.{Register, PhysicalRegister}

-- Hardware numbers.
abbrev pub rax : ℕ
rax = 0

abbrev pub rcx : ℕ
rcx = 1

abbrev pub rdx : ℕ
rdx = 2

abbrev pub rsp : ℕ
rsp = 4

-- A register operand, which has to be a physical 64-bit one.
unfoldable pub parse_gpr : Option Register → Result ℕ
parse_gpr none = err Error.missing_operand
parse_gpr (some (Register.physical (PhysicalRegister.gpr64 number))) = ok number
parse_gpr (some _) = err Error.not_gpr

-- Rust's `as u8` of a bool.
abbrev pub bit : Bool → ℕ
bit true = 1
bit false = 0

unfoldable pub rex : Bool → Bool → Bool → Bool → ℕ
rex w r x b = 0x40 ∣ bit w << 3 ∣ bit r << 2 ∣ bit x << 1 ∣ bit b

unfoldable pub modrm : ℕ → ℕ → ℕ → ℕ
modrm mode reg rm = (mode << 6) % 2 ^ 8 ∣ (reg << 3) % 2 ^ 8 ∣ rm

-- An instruction on two registers: the `reg` field, then the `rm` field.
abbrev pub emit_rr : ℕ → ℕ → ℕ → List ℕ
emit_rr opcode reg rm =
    rex true (leb 8 reg) false (leb 8 rm) ∷ opcode ∷ modrm 3 (bit_and reg 7) (bit_and rm 7) ∷ []

-- An instruction on one register, whose `reg` field is part of the opcode.
abbrev pub emit_ext : ℕ → ℕ → ℕ → List ℕ
emit_ext opcode ext rm = rex true false false (leb 8 rm) ∷ opcode ∷ modrm 3 ext (bit_and rm 7) ∷ []

-- mov rd, rm
unfoldable pub emit_mov_rr : ℕ → ℕ → List ℕ
emit_mov_rr rd rm = emit_rr 0x89 rm rd

-- A two-address ALU instruction on a destination and a source.
unfoldable pub alu : ℕ → ℕ → ℕ → List ℕ
alu alu_opcode dst src = emit_rr alu_opcode src dst

unfoldable pub emit_alu_three : ℕ → ℕ → ℕ → ℕ → Bool → List ℕ
emit_alu_three alu_opcode rd rn rm commutative =
    if rd == rn
    then alu alu_opcode rd rm
    else if rd == rm
    then alu alu_opcode rd rn ++ (if commutative then [] else emit_ext 0xf7 3 rd)
    else emit_mov_rr rd rn ++ alu alu_opcode rd rm

abbrev pub contains : List ℕ → ℕ → Bool
contains [] n = false
contains (m ∷ rest) n = n == m || contains rest n

unfoldable pub check_expansion_operands : List ℕ → List ℕ → Result (Unit {0})
check_expansion_operands [] reserved = ok tt
check_expansion_operands (operand ∷ operands) reserved =
    guard (not (contains reserved operand)) Error.clobbered
    >> check_expansion_operands operands reserved

-- `[base + disp]`; rsp and r12 as a base need a SIB byte.
unfoldable pub emit_mem_operand : ℕ → ℕ → ℤ → List ℕ
emit_mem_operand reg base disp =
    (if bit_and base 7 == 4
      then modrm 2 (bit_and reg 7) 4 ∷ 0x24 ∷ []
      else modrm 2 (bit_and reg 7) (bit_and base 7) ∷ [])
    ++ to_le_bytes (to_bits 32 disp)

-- The access sizes of 8, 4, 2 and 1 bytes.
pub data Size : Type 0 where
  quad long word byte : Size

unfoldable pub emit_store : Size → ℕ → ℕ → ℤ → List ℕ
emit_store Size.quad rt base disp =
    rex true (leb 8 rt) false (leb 8 base) ∷ 0x89 ∷ emit_mem_operand rt base disp
emit_store Size.long rt base disp =
    rex false (leb 8 rt) false (leb 8 base) ∷ 0x89 ∷ emit_mem_operand rt base disp
emit_store Size.word rt base disp =
    0x66 ∷ rex false (leb 8 rt) false (leb 8 base) ∷ 0x89 ∷ emit_mem_operand rt base disp
emit_store Size.byte rt base disp =
    rex false (leb 8 rt) false (leb 8 base) ∷ 0x88 ∷ emit_mem_operand rt base disp

-- Loads extend with zeros to 64 bits.
unfoldable pub emit_load : Size → ℕ → ℕ → ℤ → List ℕ
emit_load Size.quad rt base disp =
    rex true (leb 8 rt) false (leb 8 base) ∷ 0x8b ∷ emit_mem_operand rt base disp
emit_load Size.long rt base disp =
    rex false (leb 8 rt) false (leb 8 base) ∷ 0x8b ∷ emit_mem_operand rt base disp
emit_load Size.word rt base disp =
    rex true (leb 8 rt) false (leb 8 base) ∷ 0x0f ∷ 0xb7 ∷ emit_mem_operand rt base disp
emit_load Size.byte rt base disp =
    rex true (leb 8 rt) false (leb 8 base) ∷ 0x0f ∷ 0xb6 ∷ emit_mem_operand rt base disp

-- `i32::try_from` of a u64.
unfoldable pub disp32 : ℕ → Result ℤ
disp32 value = guard (ltb value (2 ^ 31)) Error.out_of_range >> ok (pos value)

-- From the end of the instruction; offsets are less than 2 ^ 63.
unfoldable pub rel32 : ℕ → ℕ → ℕ → Result ℤ
rel32 target pc inst_len = do
  guard (in_range 31 (sub_ℕ target (pc + inst_len))) Error.out_of_range
  ok (sub_ℕ target (pc + inst_len))

abbrev pub rel_bytes : ℤ → List ℕ
rel_bytes rel = to_le_bytes (to_bits 32 rel)

unfoldable pub emit_lea_rip : ℕ → ℕ → ℕ → Result (List ℕ)
emit_lea_rip rd target pc = do
  rel ← rel32 target pc 7
  ok (rex true (leb 8 rd) false false ∷ 0x8d ∷ modrm 0 (bit_and rd 7) 5 ∷ rel_bytes rel)
