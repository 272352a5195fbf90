-- ===== src/X86/Opcode.antt =====
-- crates/pliron-ll/src/x86_64/ops.rs: the rows of `define_x86_64_instructions!`, one opcode with
-- its register operands each, which has its mnemonic for a name.
use crabbit.Prelude.{List, [], ◌∷◌}

pub data X86Opcode : Type 0 where
  mov_imm mov add sub mul umulh sdiv udiv and or xor shl lsr cmp cset push pop sub_sp_imm add_sp_imm
        add_sp_offset str_sp_offset ldr_sp_offset strw_sp_offset ldrw_sp_offset strh_sp_offset
        ldrh_sp_offset strb_sp_offset ldrb_sp_offset ldr_stack_arg str_reg_offset ldr_reg_offset
        strw_reg_offset ldrw_reg_offset strh_reg_offset ldrh_reg_offset strb_reg_offset
        ldrb_reg_offset adr_literal adr_function ret ud2 call call_reg jmp jcc test_jnz :
      X86Opcode

-- The attribute that holds a register, and whether the instruction reads or writes it.
pub data RegKey : Type 0 where
  rd rn rm : RegKey

pub data RegisterOperandKind : Type 0 where
  def use_ : RegisterOperandKind

pub record RegisterOperand : Type 0 where
  pub key : RegKey
  pub kind : RegisterOperandKind

abbrev writes : RegKey → RegisterOperand
writes k = record { key = k; kind = RegisterOperandKind.def }

abbrev reads : RegKey → RegisterOperand
reads k = record { key = k; kind = RegisterOperandKind.use_ }

abbrev pub register_operands : X86Opcode → List RegisterOperand
register_operands X86Opcode.mov_imm = writes RegKey.rd ∷ []
register_operands X86Opcode.mov = writes RegKey.rd ∷ reads RegKey.rm ∷ []
register_operands X86Opcode.add = writes RegKey.rd ∷ reads RegKey.rn ∷ reads RegKey.rm ∷ []
register_operands X86Opcode.sub = writes RegKey.rd ∷ reads RegKey.rn ∷ reads RegKey.rm ∷ []
register_operands X86Opcode.mul = writes RegKey.rd ∷ reads RegKey.rn ∷ reads RegKey.rm ∷ []
register_operands X86Opcode.umulh = writes RegKey.rd ∷ reads RegKey.rn ∷ reads RegKey.rm ∷ []
register_operands X86Opcode.sdiv = writes RegKey.rd ∷ reads RegKey.rn ∷ reads RegKey.rm ∷ []
register_operands X86Opcode.udiv = writes RegKey.rd ∷ reads RegKey.rn ∷ reads RegKey.rm ∷ []
register_operands X86Opcode.and = writes RegKey.rd ∷ reads RegKey.rn ∷ reads RegKey.rm ∷ []
register_operands X86Opcode.or = writes RegKey.rd ∷ reads RegKey.rn ∷ reads RegKey.rm ∷ []
register_operands X86Opcode.xor = writes RegKey.rd ∷ reads RegKey.rn ∷ reads RegKey.rm ∷ []
register_operands X86Opcode.shl = writes RegKey.rd ∷ reads RegKey.rn ∷ reads RegKey.rm ∷ []
register_operands X86Opcode.lsr = writes RegKey.rd ∷ reads RegKey.rn ∷ reads RegKey.rm ∷ []
register_operands X86Opcode.cmp = reads RegKey.rn ∷ reads RegKey.rm ∷ []
register_operands X86Opcode.cset = writes RegKey.rd ∷ []
register_operands X86Opcode.push = reads RegKey.rd ∷ []
register_operands X86Opcode.pop = writes RegKey.rd ∷ []
register_operands X86Opcode.sub_sp_imm = []
register_operands X86Opcode.add_sp_imm = []
register_operands X86Opcode.add_sp_offset = writes RegKey.rd ∷ []
register_operands X86Opcode.str_sp_offset = reads RegKey.rd ∷ []
register_operands X86Opcode.ldr_sp_offset = writes RegKey.rd ∷ []
register_operands X86Opcode.strw_sp_offset = reads RegKey.rd ∷ []
register_operands X86Opcode.ldrw_sp_offset = writes RegKey.rd ∷ []
register_operands X86Opcode.strh_sp_offset = reads RegKey.rd ∷ []
register_operands X86Opcode.ldrh_sp_offset = writes RegKey.rd ∷ []
register_operands X86Opcode.strb_sp_offset = reads RegKey.rd ∷ []
register_operands X86Opcode.ldrb_sp_offset = writes RegKey.rd ∷ []
register_operands X86Opcode.ldr_stack_arg = writes RegKey.rd ∷ []
register_operands X86Opcode.str_reg_offset = reads RegKey.rd ∷ reads RegKey.rn ∷ []
register_operands X86Opcode.ldr_reg_offset = writes RegKey.rd ∷ reads RegKey.rn ∷ []
register_operands X86Opcode.strw_reg_offset = reads RegKey.rd ∷ reads RegKey.rn ∷ []
register_operands X86Opcode.ldrw_reg_offset = writes RegKey.rd ∷ reads RegKey.rn ∷ []
register_operands X86Opcode.strh_reg_offset = reads RegKey.rd ∷ reads RegKey.rn ∷ []
register_operands X86Opcode.ldrh_reg_offset = writes RegKey.rd ∷ reads RegKey.rn ∷ []
register_operands X86Opcode.strb_reg_offset = reads RegKey.rd ∷ reads RegKey.rn ∷ []
register_operands X86Opcode.ldrb_reg_offset = writes RegKey.rd ∷ reads RegKey.rn ∷ []
register_operands X86Opcode.adr_literal = writes RegKey.rd ∷ []
register_operands X86Opcode.adr_function = writes RegKey.rd ∷ []
register_operands X86Opcode.ret = []
register_operands X86Opcode.ud2 = []
register_operands X86Opcode.call = []
register_operands X86Opcode.call_reg = reads RegKey.rn ∷ []
register_operands X86Opcode.jmp = []
register_operands X86Opcode.jcc = []
register_operands X86Opcode.test_jnz = reads RegKey.rn ∷ []
