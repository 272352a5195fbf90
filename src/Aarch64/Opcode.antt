-- ===== src/Aarch64/Opcode.antt =====
-- crates/pliron-ll/src/aarch64/ops.rs: the rows of `define_aarch64_instructions!`, one opcode
-- each, which has its mnemonic for a name.
pub mod Operands
use crabbit.Prelude.{ℕ, Bool, ◌==◌}

pub data Aarch64Opcode : Type 0 where
  mov_imm movz movk mov add sub mul umulh sdiv udiv and or xor shl lsr asr fadd_d fadd_s fsub_d
        fsub_s fmul_d fmul_s fdiv_d fdiv_s fneg_d fneg_s fabs_d fabs_s fsqrt_d fsqrt_s frintm_d
        frintm_s frintp_d frintp_s frintz_d frintz_s frinta_d frinta_s frintn_d frintn_s fminnm_d
        fminnm_s fmaxnm_d fmaxnm_s fmin_d fmin_s fmax_d fmax_s fcmp_d fcmp_s fcvt_ds fcvt_sd
        scvtf_dx scvtf_sx ucvtf_dx ucvtf_sx fcvtzs_xd fcvtzs_wd fcvtzs_xs fcvtzs_ws fcvtzu_xd
        fcvtzu_wd fcvtzu_xs fcvtzu_ws fmov_xd fmov_dx fmov_ws fmov_sw fmov_d fmov_s fmov_imm_d
        fmov_imm_s add_v4s sub_v4s mul_v4s add_v2d sub_v2d fadd_v4s fsub_v4s fmul_v4s fdiv_v4s
        fadd_v2d fsub_v2d fmul_v2d fdiv_v2d and_v16b orr_v16b eor_v16b shl_v4s_imm ushr_v4s_imm
        sshr_v4s_imm shl_v2d_imm ushr_v2d_imm sshr_v2d_imm mov_v16b dup_v4s_gpr dup_v2d_gpr
        dup_v4s_fpr dup_v2d_fpr addv_s4s addp_d2d faddp_v4s faddp_s2s faddp_d2d strq_sp_offset
        ldrq_sp_offset strq_reg_offset ldrq_reg_offset strd_sp_offset ldrd_sp_offset strs_sp_offset
        ldrs_sp_offset strd_reg_offset ldrd_reg_offset strs_reg_offset ldrs_reg_offset cmp
        str_pre_sp ldr_post_sp sub_sp_imm add_sp_imm add_sp_offset str_sp_offset ldr_sp_offset
        strw_sp_offset ldrw_sp_offset strh_sp_offset ldrh_sp_offset strb_sp_offset ldrb_sp_offset
        ldr_stack_arg str_reg_offset ldr_reg_offset strw_reg_offset ldrw_reg_offset strh_reg_offset
        ldrh_reg_offset strb_reg_offset ldrb_reg_offset adr_literal svc cset ret brk call b b_cond
        cbnz adr_function blr adrp add_lo12 mrs_tpidr add_tprel_hi12 add_tprel_lo12_nc :
      Aarch64Opcode

-- The order of the rows, by which two opcodes are compared.
unfoldable pub discriminant : Aarch64Opcode → ℕ
discriminant Aarch64Opcode.mov_imm = 0
discriminant Aarch64Opcode.movz = 1
discriminant Aarch64Opcode.movk = 2
discriminant Aarch64Opcode.mov = 3
discriminant Aarch64Opcode.add = 4
discriminant Aarch64Opcode.sub = 5
discriminant Aarch64Opcode.mul = 6
discriminant Aarch64Opcode.umulh = 7
discriminant Aarch64Opcode.sdiv = 8
discriminant Aarch64Opcode.udiv = 9
discriminant Aarch64Opcode.and = 10
discriminant Aarch64Opcode.or = 11
discriminant Aarch64Opcode.xor = 12
discriminant Aarch64Opcode.shl = 13
discriminant Aarch64Opcode.lsr = 14
discriminant Aarch64Opcode.asr = 15
discriminant Aarch64Opcode.fadd_d = 16
discriminant Aarch64Opcode.fadd_s = 17
discriminant Aarch64Opcode.fsub_d = 18
discriminant Aarch64Opcode.fsub_s = 19
discriminant Aarch64Opcode.fmul_d = 20
discriminant Aarch64Opcode.fmul_s = 21
discriminant Aarch64Opcode.fdiv_d = 22
discriminant Aarch64Opcode.fdiv_s = 23
discriminant Aarch64Opcode.fneg_d = 24
discriminant Aarch64Opcode.fneg_s = 25
discriminant Aarch64Opcode.fabs_d = 26
discriminant Aarch64Opcode.fabs_s = 27
discriminant Aarch64Opcode.fsqrt_d = 28
discriminant Aarch64Opcode.fsqrt_s = 29
discriminant Aarch64Opcode.frintm_d = 30
discriminant Aarch64Opcode.frintm_s = 31
discriminant Aarch64Opcode.frintp_d = 32
discriminant Aarch64Opcode.frintp_s = 33
discriminant Aarch64Opcode.frintz_d = 34
discriminant Aarch64Opcode.frintz_s = 35
discriminant Aarch64Opcode.frinta_d = 36
discriminant Aarch64Opcode.frinta_s = 37
discriminant Aarch64Opcode.frintn_d = 38
discriminant Aarch64Opcode.frintn_s = 39
discriminant Aarch64Opcode.fminnm_d = 40
discriminant Aarch64Opcode.fminnm_s = 41
discriminant Aarch64Opcode.fmaxnm_d = 42
discriminant Aarch64Opcode.fmaxnm_s = 43
discriminant Aarch64Opcode.fmin_d = 44
discriminant Aarch64Opcode.fmin_s = 45
discriminant Aarch64Opcode.fmax_d = 46
discriminant Aarch64Opcode.fmax_s = 47
discriminant Aarch64Opcode.fcmp_d = 48
discriminant Aarch64Opcode.fcmp_s = 49
discriminant Aarch64Opcode.fcvt_ds = 50
discriminant Aarch64Opcode.fcvt_sd = 51
discriminant Aarch64Opcode.scvtf_dx = 52
discriminant Aarch64Opcode.scvtf_sx = 53
discriminant Aarch64Opcode.ucvtf_dx = 54
discriminant Aarch64Opcode.ucvtf_sx = 55
discriminant Aarch64Opcode.fcvtzs_xd = 56
discriminant Aarch64Opcode.fcvtzs_wd = 57
discriminant Aarch64Opcode.fcvtzs_xs = 58
discriminant Aarch64Opcode.fcvtzs_ws = 59
discriminant Aarch64Opcode.fcvtzu_xd = 60
discriminant Aarch64Opcode.fcvtzu_wd = 61
discriminant Aarch64Opcode.fcvtzu_xs = 62
discriminant Aarch64Opcode.fcvtzu_ws = 63
discriminant Aarch64Opcode.fmov_xd = 64
discriminant Aarch64Opcode.fmov_dx = 65
discriminant Aarch64Opcode.fmov_ws = 66
discriminant Aarch64Opcode.fmov_sw = 67
discriminant Aarch64Opcode.fmov_d = 68
discriminant Aarch64Opcode.fmov_s = 69
discriminant Aarch64Opcode.fmov_imm_d = 70
discriminant Aarch64Opcode.fmov_imm_s = 71
discriminant Aarch64Opcode.add_v4s = 72
discriminant Aarch64Opcode.sub_v4s = 73
discriminant Aarch64Opcode.mul_v4s = 74
discriminant Aarch64Opcode.add_v2d = 75
discriminant Aarch64Opcode.sub_v2d = 76
discriminant Aarch64Opcode.fadd_v4s = 77
discriminant Aarch64Opcode.fsub_v4s = 78
discriminant Aarch64Opcode.fmul_v4s = 79
discriminant Aarch64Opcode.fdiv_v4s = 80
discriminant Aarch64Opcode.fadd_v2d = 81
discriminant Aarch64Opcode.fsub_v2d = 82
discriminant Aarch64Opcode.fmul_v2d = 83
discriminant Aarch64Opcode.fdiv_v2d = 84
discriminant Aarch64Opcode.and_v16b = 85
discriminant Aarch64Opcode.orr_v16b = 86
discriminant Aarch64Opcode.eor_v16b = 87
discriminant Aarch64Opcode.shl_v4s_imm = 88
discriminant Aarch64Opcode.ushr_v4s_imm = 89
discriminant Aarch64Opcode.sshr_v4s_imm = 90
discriminant Aarch64Opcode.shl_v2d_imm = 91
discriminant Aarch64Opcode.ushr_v2d_imm = 92
discriminant Aarch64Opcode.sshr_v2d_imm = 93
discriminant Aarch64Opcode.mov_v16b = 94
discriminant Aarch64Opcode.dup_v4s_gpr = 95
discriminant Aarch64Opcode.dup_v2d_gpr = 96
discriminant Aarch64Opcode.dup_v4s_fpr = 97
discriminant Aarch64Opcode.dup_v2d_fpr = 98
discriminant Aarch64Opcode.addv_s4s = 99
discriminant Aarch64Opcode.addp_d2d = 100
discriminant Aarch64Opcode.faddp_v4s = 101
discriminant Aarch64Opcode.faddp_s2s = 102
discriminant Aarch64Opcode.faddp_d2d = 103
discriminant Aarch64Opcode.strq_sp_offset = 104
discriminant Aarch64Opcode.ldrq_sp_offset = 105
discriminant Aarch64Opcode.strq_reg_offset = 106
discriminant Aarch64Opcode.ldrq_reg_offset = 107
discriminant Aarch64Opcode.strd_sp_offset = 108
discriminant Aarch64Opcode.ldrd_sp_offset = 109
discriminant Aarch64Opcode.strs_sp_offset = 110
discriminant Aarch64Opcode.ldrs_sp_offset = 111
discriminant Aarch64Opcode.strd_reg_offset = 112
discriminant Aarch64Opcode.ldrd_reg_offset = 113
discriminant Aarch64Opcode.strs_reg_offset = 114
discriminant Aarch64Opcode.ldrs_reg_offset = 115
discriminant Aarch64Opcode.cmp = 116
discriminant Aarch64Opcode.str_pre_sp = 117
discriminant Aarch64Opcode.ldr_post_sp = 118
discriminant Aarch64Opcode.sub_sp_imm = 119
discriminant Aarch64Opcode.add_sp_imm = 120
discriminant Aarch64Opcode.add_sp_offset = 121
discriminant Aarch64Opcode.str_sp_offset = 122
discriminant Aarch64Opcode.ldr_sp_offset = 123
discriminant Aarch64Opcode.strw_sp_offset = 124
discriminant Aarch64Opcode.ldrw_sp_offset = 125
discriminant Aarch64Opcode.strh_sp_offset = 126
discriminant Aarch64Opcode.ldrh_sp_offset = 127
discriminant Aarch64Opcode.strb_sp_offset = 128
discriminant Aarch64Opcode.ldrb_sp_offset = 129
discriminant Aarch64Opcode.ldr_stack_arg = 130
discriminant Aarch64Opcode.str_reg_offset = 131
discriminant Aarch64Opcode.ldr_reg_offset = 132
discriminant Aarch64Opcode.strw_reg_offset = 133
discriminant Aarch64Opcode.ldrw_reg_offset = 134
discriminant Aarch64Opcode.strh_reg_offset = 135
discriminant Aarch64Opcode.ldrh_reg_offset = 136
discriminant Aarch64Opcode.strb_reg_offset = 137
discriminant Aarch64Opcode.ldrb_reg_offset = 138
discriminant Aarch64Opcode.adr_literal = 139
discriminant Aarch64Opcode.svc = 140
discriminant Aarch64Opcode.cset = 141
discriminant Aarch64Opcode.ret = 142
discriminant Aarch64Opcode.brk = 143
discriminant Aarch64Opcode.call = 144
discriminant Aarch64Opcode.b = 145
discriminant Aarch64Opcode.b_cond = 146
discriminant Aarch64Opcode.cbnz = 147
discriminant Aarch64Opcode.adr_function = 148
discriminant Aarch64Opcode.blr = 149
discriminant Aarch64Opcode.adrp = 150
discriminant Aarch64Opcode.add_lo12 = 151
discriminant Aarch64Opcode.mrs_tpidr = 152
discriminant Aarch64Opcode.add_tprel_hi12 = 153
discriminant Aarch64Opcode.add_tprel_lo12_nc = 154

abbrev pub opcode_eq : Aarch64Opcode → Aarch64Opcode → Bool
opcode_eq x y = discriminant x == discriminant y
