-- ===== src/Aarch64/Fixed.antt =====
-- crates/pliron-ll/src/aarch64/encoding.rs, `encode_fixed_inst`: the instructions whose word does
-- not depend on where they stand.
use crabbit.Prelude.{ℕ, none, some, true, false, ◌%◌, ◌^◌, bit_and}
use crabbit.Prelude.Result.{Result, Error, ok, err, unwrap, ◌>>=◌}
use crabbit.Prelude.Words.{◌∣◌, ◌<<◌}
use crabbit.Aarch64.Registers.{xreg, freg, qreg, number}
use crabbit.Aarch64.Opcode.{Aarch64Opcode}
use crabbit.Aarch64.Inst.{Inst}
use crabbit.Aarch64.Encode.{
  encode_wide_move, encode_three_reg, encode_three_freg, encode_three_vreg, encode_vshift_imm,
  encode_two_reg, encode_fcmp, encode_fmov_rr, encode_fmov_imm, encode_svc, encode_str_pre_sp,
  encode_ldr_post_sp, encode_sp_imm, encode_add_sp_offset, encode_sp_offset, encode_mem_offset,
  encode_fp_mem_offset, encode_q_mem_offset, encode_cmp, encode_cset,
}

unfoldable pub encode_fixed_inst : Aarch64Opcode → Inst → Result ℕ
encode_fixed_inst Aarch64Opcode.mov_imm inst = do
  imm ← unwrap inst.imm
  rd ← number xreg inst.rd
  ok (0xd280_0000 ∣ bit_and (imm % 2 ^ 32) 0xffff << 5 ∣ rd)
encode_fixed_inst Aarch64Opcode.mov inst = do
  rm ← number xreg inst.rm
  rd ← number xreg inst.rd
  ok (0xaa00_03e0 ∣ rm << 16 ∣ rd)
encode_fixed_inst Aarch64Opcode.mov_v16b inst = do
  rm ← number qreg inst.rm
  rd ← number qreg inst.rd
  ok (0x4ea0_1c00 ∣ rm << 16 ∣ rm << 5 ∣ rd)
encode_fixed_inst Aarch64Opcode.mrs_tpidr inst = do rd ← number xreg inst.rd; ok (0xd53b_d040 ∣ rd)
encode_fixed_inst Aarch64Opcode.blr inst = do rn ← number xreg inst.rn; ok (0xd63f_0000 ∣ rn << 5)
encode_fixed_inst Aarch64Opcode.ret inst = ok 0xd65f_03c0
encode_fixed_inst Aarch64Opcode.brk inst = ok 0xd420_0000
encode_fixed_inst Aarch64Opcode.movz inst = encode_wide_move inst 0xd280_0000
encode_fixed_inst Aarch64Opcode.movk inst = encode_wide_move inst 0xf280_0000
encode_fixed_inst Aarch64Opcode.add inst = encode_three_reg inst 0x8b00_0000
encode_fixed_inst Aarch64Opcode.sub inst = encode_three_reg inst 0xcb00_0000
encode_fixed_inst Aarch64Opcode.mul inst = encode_three_reg inst 0x9b00_7c00
encode_fixed_inst Aarch64Opcode.umulh inst = encode_three_reg inst 0x9bc0_7c00
encode_fixed_inst Aarch64Opcode.sdiv inst = encode_three_reg inst 0x9ac0_0c00
encode_fixed_inst Aarch64Opcode.udiv inst = encode_three_reg inst 0x9ac0_0800
encode_fixed_inst Aarch64Opcode.and inst = encode_three_reg inst 0x8a00_0000
encode_fixed_inst Aarch64Opcode.or inst = encode_three_reg inst 0xaa00_0000
encode_fixed_inst Aarch64Opcode.xor inst = encode_three_reg inst 0xca00_0000
encode_fixed_inst Aarch64Opcode.shl inst = encode_three_reg inst 0x9ac0_2000
encode_fixed_inst Aarch64Opcode.lsr inst = encode_three_reg inst 0x9ac0_2400
encode_fixed_inst Aarch64Opcode.asr inst = encode_three_reg inst 0x9ac0_2800
encode_fixed_inst Aarch64Opcode.fadd_d inst = encode_three_freg inst 0x1e60_2800
encode_fixed_inst Aarch64Opcode.fadd_s inst = encode_three_freg inst 0x1e20_2800
encode_fixed_inst Aarch64Opcode.fsub_d inst = encode_three_freg inst 0x1e60_3800
encode_fixed_inst Aarch64Opcode.fsub_s inst = encode_three_freg inst 0x1e20_3800
encode_fixed_inst Aarch64Opcode.fmul_d inst = encode_three_freg inst 0x1e60_0800
encode_fixed_inst Aarch64Opcode.fmul_s inst = encode_three_freg inst 0x1e20_0800
encode_fixed_inst Aarch64Opcode.fdiv_d inst = encode_three_freg inst 0x1e60_1800
encode_fixed_inst Aarch64Opcode.fdiv_s inst = encode_three_freg inst 0x1e20_1800
encode_fixed_inst Aarch64Opcode.fneg_d inst = encode_two_reg inst 0x1e61_4000 freg freg
encode_fixed_inst Aarch64Opcode.fneg_s inst = encode_two_reg inst 0x1e21_4000 freg freg
encode_fixed_inst Aarch64Opcode.fabs_d inst = encode_two_reg inst 0x1e60_c000 freg freg
encode_fixed_inst Aarch64Opcode.fabs_s inst = encode_two_reg inst 0x1e20_c000 freg freg
encode_fixed_inst Aarch64Opcode.fsqrt_d inst = encode_two_reg inst 0x1e61_c000 freg freg
encode_fixed_inst Aarch64Opcode.fsqrt_s inst = encode_two_reg inst 0x1e21_c000 freg freg
encode_fixed_inst Aarch64Opcode.frintm_d inst = encode_two_reg inst 0x1e65_4000 freg freg
encode_fixed_inst Aarch64Opcode.frintm_s inst = encode_two_reg inst 0x1e25_4000 freg freg
encode_fixed_inst Aarch64Opcode.frintp_d inst = encode_two_reg inst 0x1e64_c000 freg freg
encode_fixed_inst Aarch64Opcode.frintp_s inst = encode_two_reg inst 0x1e24_c000 freg freg
encode_fixed_inst Aarch64Opcode.frintz_d inst = encode_two_reg inst 0x1e65_c000 freg freg
encode_fixed_inst Aarch64Opcode.frintz_s inst = encode_two_reg inst 0x1e25_c000 freg freg
encode_fixed_inst Aarch64Opcode.frinta_d inst = encode_two_reg inst 0x1e66_4000 freg freg
encode_fixed_inst Aarch64Opcode.frinta_s inst = encode_two_reg inst 0x1e26_4000 freg freg
encode_fixed_inst Aarch64Opcode.frintn_d inst = encode_two_reg inst 0x1e64_4000 freg freg
encode_fixed_inst Aarch64Opcode.frintn_s inst = encode_two_reg inst 0x1e24_4000 freg freg
encode_fixed_inst Aarch64Opcode.fminnm_d inst = encode_three_freg inst 0x1e60_7800
encode_fixed_inst Aarch64Opcode.fminnm_s inst = encode_three_freg inst 0x1e20_7800
encode_fixed_inst Aarch64Opcode.fmaxnm_d inst = encode_three_freg inst 0x1e60_6800
encode_fixed_inst Aarch64Opcode.fmaxnm_s inst = encode_three_freg inst 0x1e20_6800
encode_fixed_inst Aarch64Opcode.fmin_d inst = encode_three_freg inst 0x1e60_5800
encode_fixed_inst Aarch64Opcode.fmin_s inst = encode_three_freg inst 0x1e20_5800
encode_fixed_inst Aarch64Opcode.fmax_d inst = encode_three_freg inst 0x1e60_4800
encode_fixed_inst Aarch64Opcode.fmax_s inst = encode_three_freg inst 0x1e20_4800
encode_fixed_inst Aarch64Opcode.fcmp_d inst = encode_fcmp inst 0x1e60_2000
encode_fixed_inst Aarch64Opcode.fcmp_s inst = encode_fcmp inst 0x1e20_2000
encode_fixed_inst Aarch64Opcode.fcvt_ds inst = encode_two_reg inst 0x1e22_c000 freg freg
encode_fixed_inst Aarch64Opcode.fcvt_sd inst = encode_two_reg inst 0x1e62_4000 freg freg
encode_fixed_inst Aarch64Opcode.scvtf_dx inst = encode_two_reg inst 0x9e62_0000 freg xreg
encode_fixed_inst Aarch64Opcode.scvtf_sx inst = encode_two_reg inst 0x9e22_0000 freg xreg
encode_fixed_inst Aarch64Opcode.ucvtf_dx inst = encode_two_reg inst 0x9e63_0000 freg xreg
encode_fixed_inst Aarch64Opcode.ucvtf_sx inst = encode_two_reg inst 0x9e23_0000 freg xreg
encode_fixed_inst Aarch64Opcode.fcvtzs_xd inst = encode_two_reg inst 0x9e78_0000 xreg freg
encode_fixed_inst Aarch64Opcode.fcvtzs_wd inst = encode_two_reg inst 0x1e78_0000 xreg freg
encode_fixed_inst Aarch64Opcode.fcvtzs_xs inst = encode_two_reg inst 0x9e38_0000 xreg freg
encode_fixed_inst Aarch64Opcode.fcvtzs_ws inst = encode_two_reg inst 0x1e38_0000 xreg freg
encode_fixed_inst Aarch64Opcode.fcvtzu_xd inst = encode_two_reg inst 0x9e79_0000 xreg freg
encode_fixed_inst Aarch64Opcode.fcvtzu_wd inst = encode_two_reg inst 0x1e79_0000 xreg freg
encode_fixed_inst Aarch64Opcode.fcvtzu_xs inst = encode_two_reg inst 0x9e39_0000 xreg freg
encode_fixed_inst Aarch64Opcode.fcvtzu_ws inst = encode_two_reg inst 0x1e39_0000 xreg freg
encode_fixed_inst Aarch64Opcode.fmov_xd inst = encode_two_reg inst 0x9e66_0000 xreg freg
encode_fixed_inst Aarch64Opcode.fmov_dx inst = encode_two_reg inst 0x9e67_0000 freg xreg
encode_fixed_inst Aarch64Opcode.fmov_ws inst = encode_two_reg inst 0x1e26_0000 xreg freg
encode_fixed_inst Aarch64Opcode.fmov_sw inst = encode_two_reg inst 0x1e27_0000 freg xreg
encode_fixed_inst Aarch64Opcode.fmov_d inst = encode_fmov_rr inst 0x1e60_4000
encode_fixed_inst Aarch64Opcode.fmov_s inst = encode_fmov_rr inst 0x1e20_4000
encode_fixed_inst Aarch64Opcode.fmov_imm_d inst = encode_fmov_imm inst 0x1e60_1000
encode_fixed_inst Aarch64Opcode.fmov_imm_s inst = encode_fmov_imm inst 0x1e20_1000
encode_fixed_inst Aarch64Opcode.add_v4s inst = encode_three_vreg inst 0x4ea0_8400
encode_fixed_inst Aarch64Opcode.sub_v4s inst = encode_three_vreg inst 0x6ea0_8400
encode_fixed_inst Aarch64Opcode.mul_v4s inst = encode_three_vreg inst 0x4ea0_9c00
encode_fixed_inst Aarch64Opcode.add_v2d inst = encode_three_vreg inst 0x4ee0_8400
encode_fixed_inst Aarch64Opcode.sub_v2d inst = encode_three_vreg inst 0x6ee0_8400
encode_fixed_inst Aarch64Opcode.fadd_v4s inst = encode_three_vreg inst 0x4e20_d400
encode_fixed_inst Aarch64Opcode.fsub_v4s inst = encode_three_vreg inst 0x4ea0_d400
encode_fixed_inst Aarch64Opcode.fmul_v4s inst = encode_three_vreg inst 0x6e20_dc00
encode_fixed_inst Aarch64Opcode.fdiv_v4s inst = encode_three_vreg inst 0x6e20_fc00
encode_fixed_inst Aarch64Opcode.fadd_v2d inst = encode_three_vreg inst 0x4e60_d400
encode_fixed_inst Aarch64Opcode.fsub_v2d inst = encode_three_vreg inst 0x4ee0_d400
encode_fixed_inst Aarch64Opcode.fmul_v2d inst = encode_three_vreg inst 0x6e60_dc00
encode_fixed_inst Aarch64Opcode.fdiv_v2d inst = encode_three_vreg inst 0x6e60_fc00
encode_fixed_inst Aarch64Opcode.and_v16b inst = encode_three_vreg inst 0x4e20_1c00
encode_fixed_inst Aarch64Opcode.orr_v16b inst = encode_three_vreg inst 0x4ea0_1c00
encode_fixed_inst Aarch64Opcode.eor_v16b inst = encode_three_vreg inst 0x6e20_1c00
encode_fixed_inst Aarch64Opcode.shl_v4s_imm inst = encode_vshift_imm inst 0x4f00_5400 32 false
encode_fixed_inst Aarch64Opcode.ushr_v4s_imm inst = encode_vshift_imm inst 0x6f00_0400 32 true
encode_fixed_inst Aarch64Opcode.sshr_v4s_imm inst = encode_vshift_imm inst 0x4f00_0400 32 true
encode_fixed_inst Aarch64Opcode.shl_v2d_imm inst = encode_vshift_imm inst 0x4f00_5400 64 false
encode_fixed_inst Aarch64Opcode.ushr_v2d_imm inst = encode_vshift_imm inst 0x6f00_0400 64 true
encode_fixed_inst Aarch64Opcode.sshr_v2d_imm inst = encode_vshift_imm inst 0x4f00_0400 64 true
encode_fixed_inst Aarch64Opcode.dup_v4s_gpr inst = encode_two_reg inst 0x4e04_0c00 qreg xreg
encode_fixed_inst Aarch64Opcode.dup_v2d_gpr inst = encode_two_reg inst 0x4e08_0c00 qreg xreg
encode_fixed_inst Aarch64Opcode.dup_v4s_fpr inst = encode_two_reg inst 0x4e04_0400 qreg freg
encode_fixed_inst Aarch64Opcode.dup_v2d_fpr inst = encode_two_reg inst 0x4e08_0400 qreg freg
encode_fixed_inst Aarch64Opcode.addv_s4s inst = encode_two_reg inst 0x4eb1_b800 freg qreg
encode_fixed_inst Aarch64Opcode.addp_d2d inst = encode_two_reg inst 0x5ef1_b800 freg qreg
encode_fixed_inst Aarch64Opcode.faddp_v4s inst = encode_three_vreg inst 0x6e20_d400
encode_fixed_inst Aarch64Opcode.faddp_s2s inst = encode_two_reg inst 0x7e30_d800 freg qreg
encode_fixed_inst Aarch64Opcode.faddp_d2d inst = encode_two_reg inst 0x7e70_d800 freg qreg
encode_fixed_inst Aarch64Opcode.strq_sp_offset inst = encode_q_mem_offset inst 0x3d80_0000 (some 31)
encode_fixed_inst Aarch64Opcode.ldrq_sp_offset inst = encode_q_mem_offset inst 0x3dc0_0000 (some 31)
encode_fixed_inst Aarch64Opcode.strq_reg_offset inst = encode_q_mem_offset inst 0x3d80_0000 none
encode_fixed_inst Aarch64Opcode.ldrq_reg_offset inst = encode_q_mem_offset inst 0x3dc0_0000 none
encode_fixed_inst Aarch64Opcode.strd_sp_offset inst =
    encode_fp_mem_offset inst 0xfd00_0000 8 (some 31)
encode_fixed_inst Aarch64Opcode.ldrd_sp_offset inst =
    encode_fp_mem_offset inst 0xfd40_0000 8 (some 31)
encode_fixed_inst Aarch64Opcode.strs_sp_offset inst =
    encode_fp_mem_offset inst 0xbd00_0000 4 (some 31)
encode_fixed_inst Aarch64Opcode.ldrs_sp_offset inst =
    encode_fp_mem_offset inst 0xbd40_0000 4 (some 31)
encode_fixed_inst Aarch64Opcode.strd_reg_offset inst = encode_fp_mem_offset inst 0xfd00_0000 8 none
encode_fixed_inst Aarch64Opcode.ldrd_reg_offset inst = encode_fp_mem_offset inst 0xfd40_0000 8 none
encode_fixed_inst Aarch64Opcode.strs_reg_offset inst = encode_fp_mem_offset inst 0xbd00_0000 4 none
encode_fixed_inst Aarch64Opcode.ldrs_reg_offset inst = encode_fp_mem_offset inst 0xbd40_0000 4 none
encode_fixed_inst Aarch64Opcode.cmp inst = encode_cmp inst
encode_fixed_inst Aarch64Opcode.str_pre_sp inst = encode_str_pre_sp inst
encode_fixed_inst Aarch64Opcode.ldr_post_sp inst = encode_ldr_post_sp inst
encode_fixed_inst Aarch64Opcode.sub_sp_imm inst = encode_sp_imm inst 0xd100_03ff
encode_fixed_inst Aarch64Opcode.add_sp_imm inst = encode_sp_imm inst 0x9100_03ff
encode_fixed_inst Aarch64Opcode.add_sp_offset inst = encode_add_sp_offset inst
encode_fixed_inst Aarch64Opcode.str_sp_offset inst = encode_mem_offset inst 0xf900_0000 8 (some 31)
encode_fixed_inst Aarch64Opcode.ldr_sp_offset inst = encode_mem_offset inst 0xf940_0000 8 (some 31)
encode_fixed_inst Aarch64Opcode.strw_sp_offset inst = encode_mem_offset inst 0xb900_0000 4 (some 31)
encode_fixed_inst Aarch64Opcode.ldrw_sp_offset inst = encode_mem_offset inst 0xb940_0000 4 (some 31)
encode_fixed_inst Aarch64Opcode.strh_sp_offset inst = encode_mem_offset inst 0x7900_0000 2 (some 31)
encode_fixed_inst Aarch64Opcode.ldrh_sp_offset inst = encode_mem_offset inst 0x7940_0000 2 (some 31)
encode_fixed_inst Aarch64Opcode.strb_sp_offset inst = encode_mem_offset inst 0x3900_0000 1 (some 31)
encode_fixed_inst Aarch64Opcode.ldrb_sp_offset inst = encode_mem_offset inst 0x3940_0000 1 (some 31)
encode_fixed_inst Aarch64Opcode.ldr_stack_arg inst = encode_sp_offset inst 0xf940_03e0
encode_fixed_inst Aarch64Opcode.str_reg_offset inst = encode_mem_offset inst 0xf900_0000 8 none
encode_fixed_inst Aarch64Opcode.ldr_reg_offset inst = encode_mem_offset inst 0xf940_0000 8 none
encode_fixed_inst Aarch64Opcode.strw_reg_offset inst = encode_mem_offset inst 0xb900_0000 4 none
encode_fixed_inst Aarch64Opcode.ldrw_reg_offset inst = encode_mem_offset inst 0xb940_0000 4 none
encode_fixed_inst Aarch64Opcode.strh_reg_offset inst = encode_mem_offset inst 0x7900_0000 2 none
encode_fixed_inst Aarch64Opcode.ldrh_reg_offset inst = encode_mem_offset inst 0x7940_0000 2 none
encode_fixed_inst Aarch64Opcode.strb_reg_offset inst = encode_mem_offset inst 0x3900_0000 1 none
encode_fixed_inst Aarch64Opcode.ldrb_reg_offset inst = encode_mem_offset inst 0x3940_0000 1 none
encode_fixed_inst Aarch64Opcode.svc inst = encode_svc inst
encode_fixed_inst Aarch64Opcode.cset inst = encode_cset inst
encode_fixed_inst _ inst = err Error.unencodable
