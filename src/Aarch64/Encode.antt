-- ===== src/Aarch64/Encode.antt =====
-- crates/pliron-ll/src/aarch64/encoding.rs: the encoders that a family of instructions shares.
-- They take the operation's attributes and the base word; `err unencodable` is the source's
-- `None`, and a missing operand or one of another register file is a panic.
pub mod Fields
pub mod Memory
pub mod Lanes
pub mod Select
use crabbit.Prelude.{ℕ, Option, none, some, Bool, true, false, not, ◌&&◌, ◌||◌}
use crabbit.Prelude.{◌+◌, ◌-◌, ◌*◌, ◌/◌, ◌%◌, ◌^◌, bit_and, bit_or, ltb, leb, ◌==◌, if◌then◌else◌}
use crabbit.Prelude.Result.{Result, Error, ok, err, guard, require, ◌>>=◌, ◌>>◌}
use crabbit.Prelude.Words.{◌∣◌, ◌<<◌}
use crabbit.Aarch64.Registers.{Register, xreg, freg, qreg, number}
use crabbit.Aarch64.Condition.{encoding, invert}
use crabbit.Aarch64.Inst.{Inst}

-- The value of a missing attribute is an early `None`.
abbrev operand : Option ℕ → Result ℕ
operand = require Error.unencodable

abbrev reject_if : Bool → Result (Unit {0})
reject_if test = guard (not test) Error.unencodable

unfoldable pub encode_wide_move : Inst → ℕ → Result ℕ
encode_wide_move inst base = do
  shift ← operand inst.shift
  reject_if (ltb 48 shift || not (shift % 16 == 0))
  imm ← operand inst.imm
  rd ← number xreg inst.rd
  ok (base ∣ (shift / 16) % 2 ^ 32 << 21 ∣ bit_and (imm % 2 ^ 32) 0xffff << 5 ∣ rd)

-- Three registers of one file.
unfoldable pub encode_three : (Register → Result ℕ) → Inst → ℕ → Result ℕ
encode_three file inst base = do
  rm ← number file inst.rm
  rn ← number file inst.rn
  rd ← number file inst.rd
  ok (base ∣ rm << 16 ∣ rn << 5 ∣ rd)

abbrev pub encode_three_reg : Inst → ℕ → Result ℕ
encode_three_reg inst base = encode_three xreg inst base

abbrev pub encode_three_freg : Inst → ℕ → Result ℕ
encode_three_freg inst base = encode_three freg inst base

abbrev pub encode_three_vreg : Inst → ℕ → Result ℕ
encode_three_vreg inst base = encode_three qreg inst base

-- The `immh:immb` field of a shift of each lane.
unfoldable pub vshift_field : ℕ → ℕ → Bool → Result ℕ
vshift_field sh lanebits true = do reject_if (sh == 0 || ltb lanebits sh); ok (2 * lanebits - sh)
vshift_field sh lanebits false = do reject_if (leb lanebits sh); ok (lanebits + sh)

unfoldable pub encode_vshift_imm : Inst → ℕ → ℕ → Bool → Result ℕ
encode_vshift_imm inst base lanebits right = do
  sh ← operand inst.imm
  field ← vshift_field sh lanebits right
  rn ← number qreg inst.rn
  rd ← number qreg inst.rd
  ok (base ∣ field % 2 ^ 32 << 16 ∣ rn << 5 ∣ rd)

unfoldable pub encode_two_reg : Inst → ℕ → (Register → Result ℕ) → (Register → Result ℕ) → Result ℕ
encode_two_reg inst base rd_number rn_number = do
  rn ← number rn_number inst.rn
  rd ← number rd_number inst.rd
  ok (base ∣ rn << 5 ∣ rd)

unfoldable pub encode_fcmp : Inst → ℕ → Result ℕ
encode_fcmp inst base = do
  rm ← number freg inst.rm
  rn ← number freg inst.rn
  ok (base ∣ rm << 16 ∣ rn << 5)

unfoldable pub encode_fmov_rr : Inst → ℕ → Result ℕ
encode_fmov_rr inst base = do
  rm ← number freg inst.rm
  rd ← number freg inst.rd
  ok (base ∣ rm << 5 ∣ rd)

unfoldable pub encode_fmov_imm : Inst → ℕ → Result ℕ
encode_fmov_imm inst base = do
  imm8 ← operand inst.imm
  reject_if (ltb 0xff imm8)
  rd ← number freg inst.rd
  ok (base ∣ imm8 % 2 ^ 32 << 13 ∣ rd)

unfoldable pub encode_svc : Inst → Result ℕ
encode_svc inst = do
  imm ← operand inst.imm
  reject_if (ltb 0xffff imm)
  ok (0xd400_0001 ∣ imm % 2 ^ 32 << 5)

unfoldable pub encode_str_pre_sp : Inst → Result ℕ
encode_str_pre_sp inst = do
  bytes ← operand inst.imm
  reject_if (ltb 256 bytes || not (bytes % 8 == 0))
  rd ← number xreg inst.rd
  ok (0xf800_0c00 ∣ bit_and (512 - bytes % 2 ^ 32) 0x1ff << 12 ∣ 31 << 5 ∣ rd)

unfoldable pub encode_ldr_post_sp : Inst → Result ℕ
encode_ldr_post_sp inst = do
  bytes ← operand inst.imm
  reject_if (ltb 255 bytes || not (bytes % 8 == 0))
  rd ← number xreg inst.rd
  ok (0xf840_0400 ∣ bytes % 2 ^ 32 << 12 ∣ 31 << 5 ∣ rd)

unfoldable pub encode_sp_imm : Inst → ℕ → Result ℕ
encode_sp_imm inst base = do
  bytes ← operand inst.imm
  reject_if (ltb 4095 bytes)
  ok (base ∣ bytes % 2 ^ 32 << 10)

unfoldable pub encode_add_sp_offset : Inst → Result ℕ
encode_add_sp_offset inst = do
  bytes ← operand inst.imm
  reject_if (ltb 4095 bytes)
  rd ← number xreg inst.rd
  ok (0x9100_03e0 ∣ bytes % 2 ^ 32 << 10 ∣ rd)

unfoldable pub encode_sp_offset : Inst → ℕ → Result ℕ
encode_sp_offset inst base = do
  bytes ← operand inst.imm
  reject_if (ltb 32760 bytes || not (bytes % 8 == 0))
  rd ← number xreg inst.rd
  ok (base ∣ bytes % 2 ^ 32 / 8 << 10 ∣ rd)

abbrev base_register : Option ℕ → Inst → Result ℕ
base_register none inst = number xreg inst.rn
base_register (some rn) inst = ok rn

-- The immediate part of a load or store, scaled where it can be and unscaled otherwise.
unfoldable pub mem_offset_base : ℕ → ℕ → ℕ → Result ℕ
mem_offset_base base scale bytes =
    if leb bytes (4095 * scale) && bytes % scale == 0
    then ok (base ∣ (bytes / scale) % 2 ^ 32 << 10)
    else if ltb 255 bytes || ltb base 0x0100_0000
    then err Error.unencodable
    else ok (base - 0x0100_0000 ∣ bytes % 2 ^ 32 << 12)

unfoldable pub encode_mem_offset_with : Inst → ℕ → ℕ → Option ℕ → (Register → Result ℕ) → Result ℕ
encode_mem_offset_with inst base scale fixed_rn data_number = do
  bytes ← operand inst.imm
  rn ← base_register fixed_rn inst
  word ← mem_offset_base base scale bytes
  rd ← number data_number inst.rd
  ok (word ∣ rn << 5 ∣ rd)

abbrev pub encode_mem_offset : Inst → ℕ → ℕ → Option ℕ → Result ℕ
encode_mem_offset inst base scale fixed_rn = encode_mem_offset_with inst base scale fixed_rn xreg

abbrev pub encode_fp_mem_offset : Inst → ℕ → ℕ → Option ℕ → Result ℕ
encode_fp_mem_offset inst base scale fixed_rn = encode_mem_offset_with inst base scale fixed_rn freg

abbrev pub encode_q_mem_offset : Inst → ℕ → Option ℕ → Result ℕ
encode_q_mem_offset inst base fixed_rn = encode_mem_offset_with inst base 16 fixed_rn qreg

unfoldable pub encode_cmp : Inst → Result ℕ
encode_cmp inst = do
  rm ← number xreg inst.rm
  rn ← number xreg inst.rn
  ok (0xeb00_001f ∣ rm << 16 ∣ rn << 5)

unfoldable pub encode_cset : Inst → Result ℕ
encode_cset inst = do
  cond ← require Error.unencodable inst.cond
  rd ← number xreg inst.rd
  ok (0x9a9f_07e0 ∣ encoding (invert cond) << 12 ∣ rd)
