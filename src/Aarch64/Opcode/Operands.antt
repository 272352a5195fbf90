-- ===== src/Aarch64/Opcode/Operands.antt =====
-- crates/pliron-ll/src/aarch64/ops.rs: the register operands of each row of
-- `define_aarch64_instructions!`.
use crabbit.Prelude.{List, [], ◌∷◌}
use crabbit.Aarch64.Opcode.{Aarch64Opcode}

-- The attribute that holds a register, and whether the instruction reads or writes it.
pub data RegKey : Type 0 where
  rd rn rm : RegKey

pub data RegisterOperandKind : Type 0 where
  def use_ : RegisterOperandKind

pub record RegisterOperand : Type 0 where
  pub key : RegKey
  pub kind : RegisterOperandKind

abbrev writes : RegKey → RegisterOperand
writes k = record { key = k; kind = RegisterOperandKind.def }

abbrev reads : RegKey → RegisterOperand
reads k = record { key = k; kind = RegisterOperandKind.use_ }

abbrev pub register_operands : Aarch64Opcode → List RegisterOperand
register_operands Aarch64Opcode.mov_imm = writes RegKey.rd ∷ []
register_operands Aarch64Opcode.movz = writes RegKey.rd ∷ []
register_operands Aarch64Opcode.movk = reads RegKey.rd ∷ writes RegKey.rd ∷ []
register_operands Aarch64Opcode.mov = writes RegKey.rd ∷ reads RegKey.rm ∷ []
register_operands Aarch64Opcode.add = writes RegKey.rd ∷ reads RegKey.rn ∷ reads RegKey.rm ∷ []
register_operands Aarch64Opcode.sub = writes RegKey.rd ∷ reads RegKey.rn ∷ reads RegKey.rm ∷ []
register_operands Aarch64Opcode.mul = writes RegKey.rd ∷ reads RegKey.rn ∷ reads RegKey.rm ∷ []
register_operands Aarch64Opcode.umulh = writes RegKey.rd ∷ reads RegKey.rn ∷ reads RegKey.rm ∷ []
register_operands Aarch64Opcode.sdiv = writes RegKey.rd ∷ reads RegKey.rn ∷ reads RegKey.rm ∷ []
register_operands Aarch64Opcode.udiv = writes RegKey.rd ∷ reads RegKey.rn ∷ reads RegKey.rm ∷ []
register_operands Aarch64Opcode.and = writes RegKey.rd ∷ reads RegKey.rn ∷ reads RegKey.rm ∷ []
register_operands Aarch64Opcode.or = writes RegKey.rd ∷ reads RegKey.rn ∷ reads RegKey.rm ∷ []
register_operands Aarch64Opcode.xor = writes RegKey.rd ∷ reads RegKey.rn ∷ reads RegKey.rm ∷ []
register_operands Aarch64Opcode.shl = writes RegKey.rd ∷ reads RegKey.rn ∷ reads RegKey.rm ∷ []
register_operands Aarch64Opcode.lsr = writes RegKey.rd ∷ reads RegKey.rn ∷ reads RegKey.rm ∷ []
register_operands Aarch64Opcode.asr = writes RegKey.rd ∷ reads RegKey.rn ∷ reads RegKey.rm ∷ []
register_operands Aarch64Opcode.fadd_d = writes RegKey.rd ∷ reads RegKey.rn ∷ reads RegKey.rm ∷ []
register_operands Aarch64Opcode.fadd_s = writes RegKey.rd ∷ reads RegKey.rn ∷ reads RegKey.rm ∷ []
register_operands Aarch64Opcode.fsub_d = writes RegKey.rd ∷ reads RegKey.rn ∷ reads RegKey.rm ∷ []
register_operands Aarch64Opcode.fsub_s = writes RegKey.rd ∷ reads RegKey.rn ∷ reads RegKey.rm ∷ []
register_operands Aarch64Opcode.fmul_d = writes RegKey.rd ∷ reads RegKey.rn ∷ reads RegKey.rm ∷ []
register_operands Aarch64Opcode.fmul_s = writes RegKey.rd ∷ reads RegKey.rn ∷ reads RegKey.rm ∷ []
register_operands Aarch64Opcode.fdiv_d = writes RegKey.rd ∷ reads RegKey.rn ∷ reads RegKey.rm ∷ []
register_operands Aarch64Opcode.fdiv_s = writes RegKey.rd ∷ reads RegKey.rn ∷ reads RegKey.rm ∷ []
register_operands Aarch64Opcode.fneg_d = writes RegKey.rd ∷ reads RegKey.rn ∷ []
register_operands Aarch64Opcode.fneg_s = writes RegKey.rd ∷ reads RegKey.rn ∷ []
register_operands Aarch64Opcode.fabs_d = writes RegKey.rd ∷ reads RegKey.rn ∷ []
register_operands Aarch64Opcode.fabs_s = writes RegKey.rd ∷ reads RegKey.rn ∷ []
register_operands Aarch64Opcode.fsqrt_d = writes RegKey.rd ∷ reads RegKey.rn ∷ []
register_operands Aarch64Opcode.fsqrt_s = writes RegKey.rd ∷ reads RegKey.rn ∷ []
register_operands Aarch64Opcode.frintm_d = writes RegKey.rd ∷ reads RegKey.rn ∷ []
register_operands Aarch64Opcode.frintm_s = writes RegKey.rd ∷ reads RegKey.rn ∷ []
register_operands Aarch64Opcode.frintp_d = writes RegKey.rd ∷ reads RegKey.rn ∷ []
register_operands Aarch64Opcode.frintp_s = writes RegKey.rd ∷ reads RegKey.rn ∷ []
register_operands Aarch64Opcode.frintz_d = writes RegKey.rd ∷ reads RegKey.rn ∷ []
register_operands Aarch64Opcode.frintz_s = writes RegKey.rd ∷ reads RegKey.rn ∷ []
register_operands Aarch64Opcode.frinta_d = writes RegKey.rd ∷ reads RegKey.rn ∷ []
register_operands Aarch64Opcode.frinta_s = writes RegKey.rd ∷ reads RegKey.rn ∷ []
register_operands Aarch64Opcode.frintn_d = writes RegKey.rd ∷ reads RegKey.rn ∷ []
register_operands Aarch64Opcode.frintn_s = writes RegKey.rd ∷ reads RegKey.rn ∷ []
register_operands Aarch64Opcode.fminnm_d = writes RegKey.rd ∷ reads RegKey.rn ∷ reads RegKey.rm ∷ []
register_operands Aarch64Opcode.fminnm_s = writes RegKey.rd ∷ reads RegKey.rn ∷ reads RegKey.rm ∷ []
register_operands Aarch64Opcode.fmaxnm_d = writes RegKey.rd ∷ reads RegKey.rn ∷ reads RegKey.rm ∷ []
register_operands Aarch64Opcode.fmaxnm_s = writes RegKey.rd ∷ reads RegKey.rn ∷ reads RegKey.rm ∷ []
register_operands Aarch64Opcode.fmin_d = writes RegKey.rd ∷ reads RegKey.rn ∷ reads RegKey.rm ∷ []
register_operands Aarch64Opcode.fmin_s = writes RegKey.rd ∷ reads RegKey.rn ∷ reads RegKey.rm ∷ []
register_operands Aarch64Opcode.fmax_d = writes RegKey.rd ∷ reads RegKey.rn ∷ reads RegKey.rm ∷ []
register_operands Aarch64Opcode.fmax_s = writes RegKey.rd ∷ reads RegKey.rn ∷ reads RegKey.rm ∷ []
register_operands Aarch64Opcode.fcmp_d = reads RegKey.rn ∷ reads RegKey.rm ∷ []
register_operands Aarch64Opcode.fcmp_s = reads RegKey.rn ∷ reads RegKey.rm ∷ []
register_operands Aarch64Opcode.fcvt_ds = writes RegKey.rd ∷ reads RegKey.rn ∷ []
register_operands Aarch64Opcode.fcvt_sd = writes RegKey.rd ∷ reads RegKey.rn ∷ []
register_operands Aarch64Opcode.scvtf_dx = writes RegKey.rd ∷ reads RegKey.rn ∷ []
register_operands Aarch64Opcode.scvtf_sx = writes RegKey.rd ∷ reads RegKey.rn ∷ []
register_operands Aarch64Opcode.ucvtf_dx = writes RegKey.rd ∷ reads RegKey.rn ∷ []
register_operands Aarch64Opcode.ucvtf_sx = writes RegKey.rd ∷ reads RegKey.rn ∷ []
register_operands Aarch64Opcode.fcvtzs_xd = writes RegKey.rd ∷ reads RegKey.rn ∷ []
register_operands Aarch64Opcode.fcvtzs_wd = writes RegKey.rd ∷ reads RegKey.rn ∷ []
register_operands Aarch64Opcode.fcvtzs_xs = writes RegKey.rd ∷ reads RegKey.rn ∷ []
register_operands Aarch64Opcode.fcvtzs_ws = writes RegKey.rd ∷ reads RegKey.rn ∷ []
register_operands Aarch64Opcode.fcvtzu_xd = writes RegKey.rd ∷ reads RegKey.rn ∷ []
register_operands Aarch64Opcode.fcvtzu_wd = writes RegKey.rd ∷ reads RegKey.rn ∷ []
register_operands Aarch64Opcode.fcvtzu_xs = writes RegKey.rd ∷ reads RegKey.rn ∷ []
register_operands Aarch64Opcode.fcvtzu_ws = writes RegKey.rd ∷ reads RegKey.rn ∷ []
register_operands Aarch64Opcode.fmov_xd = writes RegKey.rd ∷ reads RegKey.rn ∷ []
register_operands Aarch64Opcode.fmov_dx = writes RegKey.rd ∷ reads RegKey.rn ∷ []
register_operands Aarch64Opcode.fmov_ws = writes RegKey.rd ∷ reads RegKey.rn ∷ []
register_operands Aarch64Opcode.fmov_sw = writes RegKey.rd ∷ reads RegKey.rn ∷ []
register_operands Aarch64Opcode.fmov_d = writes RegKey.rd ∷ reads RegKey.rm ∷ []
register_operands Aarch64Opcode.fmov_s = writes RegKey.rd ∷ reads RegKey.rm ∷ []
register_operands Aarch64Opcode.fmov_imm_d = writes RegKey.rd ∷ []
register_operands Aarch64Opcode.fmov_imm_s = writes RegKey.rd ∷ []
register_operands Aarch64Opcode.add_v4s = writes RegKey.rd ∷ reads RegKey.rn ∷ reads RegKey.rm ∷ []
register_operands Aarch64Opcode.sub_v4s = writes RegKey.rd ∷ reads RegKey.rn ∷ reads RegKey.rm ∷ []
register_operands Aarch64Opcode.mul_v4s = writes RegKey.rd ∷ reads RegKey.rn ∷ reads RegKey.rm ∷ []
register_operands Aarch64Opcode.add_v2d = writes RegKey.rd ∷ reads RegKey.rn ∷ reads RegKey.rm ∷ []
register_operands Aarch64Opcode.sub_v2d = writes RegKey.rd ∷ reads RegKey.rn ∷ reads RegKey.rm ∷ []
register_operands Aarch64Opcode.fadd_v4s = writes RegKey.rd ∷ reads RegKey.rn ∷ reads RegKey.rm ∷ []
register_operands Aarch64Opcode.fsub_v4s = writes RegKey.rd ∷ reads RegKey.rn ∷ reads RegKey.rm ∷ []
register_operands Aarch64Opcode.fmul_v4s = writes RegKey.rd ∷ reads RegKey.rn ∷ reads RegKey.rm ∷ []
register_operands Aarch64Opcode.fdiv_v4s = writes RegKey.rd ∷ reads RegKey.rn ∷ reads RegKey.rm ∷ []
register_operands Aarch64Opcode.fadd_v2d = writes RegKey.rd ∷ reads RegKey.rn ∷ reads RegKey.rm ∷ []
register_operands Aarch64Opcode.fsub_v2d = writes RegKey.rd ∷ reads RegKey.rn ∷ reads RegKey.rm ∷ []
register_operands Aarch64Opcode.fmul_v2d = writes RegKey.rd ∷ reads RegKey.rn ∷ reads RegKey.rm ∷ []
register_operands Aarch64Opcode.fdiv_v2d = writes RegKey.rd ∷ reads RegKey.rn ∷ reads RegKey.rm ∷ []
register_operands Aarch64Opcode.and_v16b = writes RegKey.rd ∷ reads RegKey.rn ∷ reads RegKey.rm ∷ []
register_operands Aarch64Opcode.orr_v16b = writes RegKey.rd ∷ reads RegKey.rn ∷ reads RegKey.rm ∷ []
register_operands Aarch64Opcode.eor_v16b = writes RegKey.rd ∷ reads RegKey.rn ∷ reads RegKey.rm ∷ []
register_operands Aarch64Opcode.shl_v4s_imm = writes RegKey.rd ∷ reads RegKey.rn ∷ []
register_operands Aarch64Opcode.ushr_v4s_imm = writes RegKey.rd ∷ reads RegKey.rn ∷ []
register_operands Aarch64Opcode.sshr_v4s_imm = writes RegKey.rd ∷ reads RegKey.rn ∷ []
register_operands Aarch64Opcode.shl_v2d_imm = writes RegKey.rd ∷ reads RegKey.rn ∷ []
register_operands Aarch64Opcode.ushr_v2d_imm = writes RegKey.rd ∷ reads RegKey.rn ∷ []
register_operands Aarch64Opcode.sshr_v2d_imm = writes RegKey.rd ∷ reads RegKey.rn ∷ []
register_operands Aarch64Opcode.mov_v16b = writes RegKey.rd ∷ reads RegKey.rm ∷ []
register_operands Aarch64Opcode.dup_v4s_gpr = writes RegKey.rd ∷ reads RegKey.rn ∷ []
register_operands Aarch64Opcode.dup_v2d_gpr = writes RegKey.rd ∷ reads RegKey.rn ∷ []
register_operands Aarch64Opcode.dup_v4s_fpr = writes RegKey.rd ∷ reads RegKey.rn ∷ []
register_operands Aarch64Opcode.dup_v2d_fpr = writes RegKey.rd ∷ reads RegKey.rn ∷ []
register_operands Aarch64Opcode.addv_s4s = writes RegKey.rd ∷ reads RegKey.rn ∷ []
register_operands Aarch64Opcode.addp_d2d = writes RegKey.rd ∷ reads RegKey.rn ∷ []
register_operands Aarch64Opcode.faddp_v4s =
    writes RegKey.rd ∷ reads RegKey.rn ∷ reads RegKey.rm ∷ []
register_operands Aarch64Opcode.faddp_s2s = writes RegKey.rd ∷ reads RegKey.rn ∷ []
register_operands Aarch64Opcode.faddp_d2d = writes RegKey.rd ∷ reads RegKey.rn ∷ []
register_operands Aarch64Opcode.strq_sp_offset = reads RegKey.rd ∷ []
register_operands Aarch64Opcode.ldrq_sp_offset = writes RegKey.rd ∷ []
register_operands Aarch64Opcode.strq_reg_offset = reads RegKey.rd ∷ reads RegKey.rn ∷ []
register_operands Aarch64Opcode.ldrq_reg_offset = writes RegKey.rd ∷ reads RegKey.rn ∷ []
register_operands Aarch64Opcode.strd_sp_offset = reads RegKey.rd ∷ []
register_operands Aarch64Opcode.ldrd_sp_offset = writes RegKey.rd ∷ []
register_operands Aarch64Opcode.strs_sp_offset = reads RegKey.rd ∷ []
register_operands Aarch64Opcode.ldrs_sp_offset = writes RegKey.rd ∷ []
register_operands Aarch64Opcode.strd_reg_offset = reads RegKey.rd ∷ reads RegKey.rn ∷ []
register_operands Aarch64Opcode.ldrd_reg_offset = writes RegKey.rd ∷ reads RegKey.rn ∷ []
register_operands Aarch64Opcode.strs_reg_offset = reads RegKey.rd ∷ reads RegKey.rn ∷ []
register_operands Aarch64Opcode.ldrs_reg_offset = writes RegKey.rd ∷ reads RegKey.rn ∷ []
register_operands Aarch64Opcode.cmp = reads RegKey.rn ∷ reads RegKey.rm ∷ []
register_operands Aarch64Opcode.str_pre_sp = reads RegKey.rd ∷ []
register_operands Aarch64Opcode.ldr_post_sp = writes RegKey.rd ∷ []
register_operands Aarch64Opcode.sub_sp_imm = []
register_operands Aarch64Opcode.add_sp_imm = []
register_operands Aarch64Opcode.add_sp_offset = writes RegKey.rd ∷ []
register_operands Aarch64Opcode.str_sp_offset = reads RegKey.rd ∷ []
register_operands Aarch64Opcode.ldr_sp_offset = writes RegKey.rd ∷ []
register_operands Aarch64Opcode.strw_sp_offset = reads RegKey.rd ∷ []
register_operands Aarch64Opcode.ldrw_sp_offset = writes RegKey.rd ∷ []
register_operands Aarch64Opcode.strh_sp_offset = reads RegKey.rd ∷ []
register_operands Aarch64Opcode.ldrh_sp_offset = writes RegKey.rd ∷ []
register_operands Aarch64Opcode.strb_sp_offset = reads RegKey.rd ∷ []
register_operands Aarch64Opcode.ldrb_sp_offset = writes RegKey.rd ∷ []
register_operands Aarch64Opcode.ldr_stack_arg = writes RegKey.rd ∷ []
register_operands Aarch64Opcode.str_reg_offset = reads RegKey.rd ∷ reads RegKey.rn ∷ []
register_operands Aarch64Opcode.ldr_reg_offset = writes RegKey.rd ∷ reads RegKey.rn ∷ []
register_operands Aarch64Opcode.strw_reg_offset = reads RegKey.rd ∷ reads RegKey.rn ∷ []
register_operands Aarch64Opcode.ldrw_reg_offset = writes RegKey.rd ∷ reads RegKey.rn ∷ []
register_operands Aarch64Opcode.strh_reg_offset = reads RegKey.rd ∷ reads RegKey.rn ∷ []
register_operands Aarch64Opcode.ldrh_reg_offset = writes RegKey.rd ∷ reads RegKey.rn ∷ []
register_operands Aarch64Opcode.strb_reg_offset = reads RegKey.rd ∷ reads RegKey.rn ∷ []
register_operands Aarch64Opcode.ldrb_reg_offset = writes RegKey.rd ∷ reads RegKey.rn ∷ []
register_operands Aarch64Opcode.adr_literal = writes RegKey.rd ∷ []
register_operands Aarch64Opcode.svc = []
register_operands Aarch64Opcode.cset = writes RegKey.rd ∷ []
register_operands Aarch64Opcode.ret = []
register_operands Aarch64Opcode.brk = []
register_operands Aarch64Opcode.call = []
register_operands Aarch64Opcode.b = []
register_operands Aarch64Opcode.b_cond = []
register_operands Aarch64Opcode.cbnz = reads RegKey.rn ∷ []
register_operands Aarch64Opcode.adr_function = writes RegKey.rd ∷ []
register_operands Aarch64Opcode.blr = reads RegKey.rn ∷ []
register_operands Aarch64Opcode.adrp = writes RegKey.rd ∷ []
register_operands Aarch64Opcode.add_lo12 = writes RegKey.rd ∷ reads RegKey.rn ∷ []
register_operands Aarch64Opcode.mrs_tpidr = writes RegKey.rd ∷ []
register_operands Aarch64Opcode.add_tprel_hi12 = writes RegKey.rd ∷ reads RegKey.rn ∷ []
register_operands Aarch64Opcode.add_tprel_lo12_nc = writes RegKey.rd ∷ reads RegKey.rn ∷ []
