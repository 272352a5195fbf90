-- ===== src/Aarch64/Tests.antt =====
-- Words that the source's own tests expect, and the theorems at concrete instructions.
use Prim.Native.String.{String}
use mathlib.Core.Path.{subst}
use mathlib.Core.Option.{some-injective}
use crabbit.Prelude.{ℕ, ◌*◌, ◌<◌, ◌+◌, ◌-◌, ◌/◌, ◌%◌, ◌^◌, ◌≡◌, refl, ap, sym, arith}
use crabbit.Prelude.{inl, Bool, true, false, ◌==◌, if◌then◌else◌}
use crabbit.Prelude.{Option, some, none, [], ◌∷◌, length}
use crabbit.Prelude.Int.{negsuc, sub_ℕ}
use crabbit.Prelude.Result.{ok}
use crabbit.Aarch64.Registers.{Register, PhysicalRegister, qreg, xreg, gpr}
use crabbit.Aarch64.Condition.{ConditionCode}
use crabbit.Aarch64.Condition.Flags.{Flags, holds}
use crabbit.Aarch64.Opcode.{Aarch64Opcode, discriminant}
use crabbit.Aarch64.Inst.{Inst, Block, BinarySerializationContext, word_encoding}
use crabbit.Aarch64.Encode.{encode_three, encode_mem_offset_with}
use crabbit.Aarch64.Encode.Fields.{encode_three-fields}
use crabbit.Aarch64.Encode.Memory.{offset_of, encode_mem_offset_with-offset_of}
use crabbit.Aarch64.Encode.{encode_vshift_imm}
use crabbit.Aarch64.Encode.Lanes.{lane_of, amount_of, encode_vshift_imm-amount_of}
use crabbit.Aarch64.Address.{EncodedCall, encode_call}
use crabbit.Aarch64.Address.Calls.{encode_call-jump}
use crabbit.Aarch64.Branch.Words.{jump}
use crabbit.Aarch64.Encode.{encode_cset}
use crabbit.Aarch64.Encode.Select.{csinc_zero, bit, encode_cset-csinc_zero}
use crabbit.Aarch64.Fixed.{encode_fixed_inst}
use crabbit.Aarch64.Immediate.{vfp_expand_imm_f64, fmov_imm8_for_f64_bits}
use crabbit.Aarch64.Immediate.RoundTrip.{fmov_imm8_for_f64_bits-vfp_expand_imm_f64}
use crabbit.Aarch64.Branch.{branch_words, b_cond_words, b_words, cbnz_words}
use crabbit.Aarch64.Branch.Reach.{StandsAt}
use crabbit.Aarch64.Address.Reach.{
  Computes, encode_pc_relative_address-Computes, encode_pc_relative_address-edge,
}
use crabbit.Aarch64.Emit.{encode_inst, byte_len}
use crabbit.Aarch64.Emit.Length.{length-encode_inst}
use crabbit.Aarch64.Emit.Edges.{FollowsAt, Lands, b_cond-Lands, cbnz-Lands, b-Lands}

-- x9 = x10 op x12, with an offset of 24 bytes, between the blocks 1 and 2, of which 2 follows.
abbrev sample : Inst
sample = record {
  rd = some (gpr 9);
  rn = some (gpr 10);
  rm = some (gpr 12);
  imm = some 24;
  cond = some ConditionCode.lt;
  shift = none;
  callee = none;
  literal_label = none;
  successors = 1 ∷ 2 ∷ [];
  next_block = some 2;
}

abbrev places : Block → Option ℕ
places block = if block == 1 then some 64 else if block == 2 then some 12 else none

abbrev context : BinarySerializationContext
context = record {
  function_offsets = λ name. none;
  block_offsets = places;
  literal_offsets = λ label. none;
}

abbrev flags : Flags
flags = record { n = true; z = false; c = false; v = false }

abbrev nonzero : ℕ → Bool
nonzero rn = rn == 10

variable_shift : encode_fixed_inst Aarch64Opcode.lsr sample ≡ ok 0x9acc_2549
unfolding encode_fixed_inst encode_three xreg
variable_shift = refl

encode_three-fields_example :
    (word : ℕ) × (encode_three xreg sample 0x9ac0_2400 ≡ ok word)
    × (word % 2 ^ 5 ≡ 9)
    × (word / 2 ^ 5 % 2 ^ 5 ≡ 10)
    × (word / 2 ^ 16 % 2 ^ 5 ≡ 12)
    × (word / 2 ^ 10 % 2 ^ 6 ≡ 0x9ac0_2400 / 2 ^ 10 % 2 ^ 6)
    × (word / 2 ^ 21 ≡ 0x9ac0_2400 / 2 ^ 21)
unfolding xreg
encode_three-fields_example =
    encode_three-fields xreg sample 0x9ac0_2400 12 10 9 refl refl refl refl refl (omega arith)
      (omega arith) (omega arith)

encode_mem_offset_with-offset_of_example :
    (w : ℕ) × (encode_mem_offset_with sample 0xf940_0000 8 none xreg ≡ ok w)
    × (offset_of 8 w ≡ 24)
    × (w / 2 ^ 5 % 2 ^ 5 ≡ 10)
    × (w % 2 ^ 5 ≡ 9)
unfolding xreg
encode_mem_offset_with-offset_of_example =
    encode_mem_offset_with-offset_of sample 0xf940_0000 8 24 10 9 none xreg refl refl refl refl refl
      (omega arith) (omega arith) (omega arith) refl

fmov_imm8_for_f64_bits-vfp_expand_imm_f64_example :
    fmov_imm8_for_f64_bits (vfp_expand_imm_f64 0x70) ≡ some 0x70
fmov_imm8_for_f64_bits-vfp_expand_imm_f64_example =
    fmov_imm8_for_f64_bits-vfp_expand_imm_f64 0x70 (omega arith)

encode_pc_relative_address-Computes_example :
    Computes 3 (sub_ℕ 0x1000 0x5008) (0x40_0000 + 0x5008) 77 (0x40_0000 + 0x1000)
encode_pc_relative_address-Computes_example =
    encode_pc_relative_address-Computes 3 0x40_0000 0x1000 0x5008 77 (omega arith) (omega arith)
      (omega arith) (omega arith) (omega arith)

encode_pc_relative_address-edge_example : Computes 3 (negsuc (2 ^ 24 - 1)) 0x200_0000 77 0x200_0000
encode_pc_relative_address-edge_example =
    encode_pc_relative_address-edge 3 0x200_0000 77 (omega arith) (omega arith)

length-encode_inst_example :
    length (word_encoding 0x9acc_2549 none).bytes ≡ byte_len sample Aarch64Opcode.lsr
unfolding encode_inst discriminant encode_fixed_inst encode_three xreg
length-encode_inst_example =
    length-encode_inst sample Aarch64Opcode.lsr 8 context (word_encoding 0x9acc_2549 none) refl

taken_at : (pc : ℕ) → pc ≡ 8 → StandsAt places 1 pc 64
taken_at pc e = record {
  found = refl;
  aligned = refl;
  above = omega (arith, e);
  below = omega (arith, e);
}

other_at : (pc : ℕ) → pc ≡ 8 → StandsAt places 2 pc 12
other_at pc e = record {
  found = refl;
  aligned = refl;
  above = omega (arith, e);
  below = omega (arith, e);
}

b_cond_len : byte_len sample Aarch64Opcode.b_cond ≡ 4
unfolding byte_len branch_words b_cond_words discriminant
b_cond_len = refl

cbnz_len : byte_len sample Aarch64Opcode.cbnz ≡ 4
unfolding byte_len branch_words cbnz_words discriminant
cbnz_len = refl

b_len : byte_len sample Aarch64Opcode.b ≡ 4
unfolding byte_len branch_words b_words discriminant
b_len = refl

follows_at :
    (opcode : Aarch64Opcode)
    → byte_len sample opcode ≡ 4
    → FollowsAt places sample (8 + byte_len sample opcode)
follows_at opcode e next p =
    subst (λ (n : Block). places n ≡ some (8 + byte_len sample opcode)) (some-injective 2 next p)
      (ap (λ (t : ℕ). some (8 + t)) (sym e))

b_cond-Lands_example : Lands flags nonzero places sample Aarch64Opcode.b_cond 8 64
b_cond-Lands_example =
    b_cond-Lands flags nonzero places sample 8 ConditionCode.lt 1 2 64 12 refl refl refl
      (taken_at 8 refl) (other_at 8 refl) (follows_at Aarch64Opcode.b_cond b_cond_len)

cbnz-Lands_example : Lands flags nonzero places sample Aarch64Opcode.cbnz 8 64
unfolding xreg
cbnz-Lands_example =
    cbnz-Lands flags nonzero places sample 8 10 1 2 64 12 refl refl (omega arith) refl
      (taken_at 8 refl) (other_at 8 refl) (follows_at Aarch64Opcode.cbnz cbnz_len)

b-Lands_example : Lands flags nonzero places sample Aarch64Opcode.b 8 64
b-Lands_example =
    b-Lands flags nonzero places sample 8 1 (2 ∷ []) 64 refl refl refl refl (omega arith)
      (omega arith) (follows_at Aarch64Opcode.b b_len)

-- A shift by 5 of lanes of 32 bits, between the registers 3 and 4.
abbrev lanes : Inst
lanes = record sample {
  rd = some (Register.physical (PhysicalRegister.simd128 3));
  rn = some (Register.physical (PhysicalRegister.simd128 4));
  imm = some 5;
}

encode_vshift_imm-amount_of_example :
    (w : ℕ) × (encode_vshift_imm lanes 0x6f00_0400 32 true ≡ ok w)
    × (lane_of w ≡ 32)
    × (amount_of true w ≡ 5)
    × (w / 2 ^ 5 % 2 ^ 5 ≡ 4)
    × (w % 2 ^ 5 ≡ 3)
unfolding qreg
encode_vshift_imm-amount_of_example =
    encode_vshift_imm-amount_of lanes 0x6f00_0400 32 5 4 3 true refl refl (inl refl) refl refl refl
      (omega arith) (omega arith) refl

abbrev functions : String → Option ℕ
functions name = some 4096

abbrev call : Inst
call = record sample { callee = some "main" }

encode_call-jump_example :
    (field : ℕ) × (field < 2 ^ 26)
    × (encode_call functions call 64 ≡ ok (EncodedCall.local (37 * 2 ^ 26 + field)))
    × (jump 26 field 64 ≡ 4096)
encode_call-jump_example =
    encode_call-jump functions call "main" 4096 64 refl refl refl (omega arith) (omega arith)

encode_cset-csinc_zero_example :
    (w : ℕ) × (encode_cset sample ≡ ok w)
    × (w % 2 ^ 5 ≡ 9)
    × (w / 2 ^ 16 ≡ 0x9a9f)
    × (w / 2 ^ 5 % 2 ^ 7 ≡ 0x3f)
    × (csinc_zero flags w ≡ bit (holds ConditionCode.lt flags))
unfolding xreg
encode_cset-csinc_zero_example =
    encode_cset-csinc_zero sample ConditionCode.lt 9 flags refl refl (omega arith)
