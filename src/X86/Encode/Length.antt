-- ===== src/X86/Encode/Length.antt =====
-- crates/pliron-ll/src/x86_64/encoding.rs: `inst_len`, which the layout counts with before there
-- are offsets, against the bytes of `encode_inst` at any place and with any offsets.
use Prim.Native.String.{String}
use crabbit.Prelude.{ℕ, ◌≡◌, refl, Option, none, some, length}
use crabbit.Prelude.{List, [], ap}
use crabbit.Prelude.Result.{Result, ok, err, panic, ◌>>=◌, unwrap, Returns, Returns-ok}
use crabbit.X86.Opcode.{X86Opcode}
use crabbit.X86.Inst.{Inst, BinaryEncoding, BinarySerializationContext}
use crabbit.X86.Bytes.{parse_gpr, rel32, emit_lea_rip}
use crabbit.X86.Encode.{
  encode_inst, inst_len, with_bytes, resolve, branch_target, condition, emit_adr, emit_call,
  emit_jmp, emit_jcc, emit_test_jnz,
}

-- Whatever the first gives, the second gives something of the same length.
module _ {A : Type 0} (len : A → ℕ) where
  abbrev Sizes : Result A → Result A → Type 0
  Sizes r s = Returns (λ a. (b : A) × (s ≡ ok b) × (len b ≡ len a)) r

  Sizes-self : (r : Result A) → Sizes r r
  Sizes-self (ok a) = (a, refl, refl)
  Sizes-self (err e) = tt
  Sizes-self panic = tt

  -- What is computed on both sides, and what only the first computes.
  Sizes-both :
      {X : Type 0} (r : Result X) (k j : X → Result A)
      → ((x : X) → Sizes (k x) (j x))
      → Sizes (r >>= k) (r >>= j)
  Sizes-both (ok x) k j h = h x
  Sizes-both (err e) k j h = tt
  Sizes-both panic k j h = tt

  Sizes-first :
      {X : Type 0} (r : Result X) (k : X → Result A) (s : Result A)
      → ((x : X) → Sizes (k x) s)
      → Sizes (r >>= k) s
  Sizes-first (ok x) k s h = h x
  Sizes-first (err e) k s h = tt
  Sizes-first panic k s h = tt

abbrev encoded_len : BinaryEncoding → ℕ
encoded_len e = length e.bytes

abbrev SizesBytes : Result (List ℕ) → Result (List ℕ) → Type 0
SizesBytes r s = Sizes length r s

abbrev SizesEncoding : Result BinaryEncoding → Result BinaryEncoding → Type 0
SizesEncoding r s = Sizes encoded_len r s

Sizes-with_bytes :
    (r s : Result (List ℕ)) → SizesBytes r s → SizesEncoding (with_bytes r) (with_bytes s)
Sizes-with_bytes (ok a) s (b, e, l) = (record { bytes = b; fixups = [] }, ap with_bytes e, l)
Sizes-with_bytes (err e) s h = tt
Sizes-with_bytes panic s h = tt

module _ (inst : Inst) (pc : ℕ) (refs : BinarySerializationContext) where
  sizes_adr :
      (key : Option String) (offsets : String → Option ℕ)
      → SizesBytes (emit_adr inst key (some offsets) pc) (emit_adr inst key none 0)
  unfolding emit_adr resolve emit_lea_rip rel32
  sizes_adr key offsets = Sizes-both length (parse_gpr inst.rd) _ _ (λ rd.
      Sizes-both length (unwrap key) _ _ (λ label.
        Sizes-first length (resolve (some offsets) label) _ _
          (λ to. Sizes-first length (rel32 to pc 7) _ _ (λ rel. (_, refl, refl)))))

  sizes_call :
      (callee : String) (to : Option ℕ)
      → SizesEncoding (emit_call pc callee to) (emit_call 0 callee (some 0))
  unfolding emit_call rel32
  sizes_call callee none = (_, refl, refl)
  sizes_call callee (some to) = Sizes-first encoded_len (rel32 to pc 5) _ _ (λ rel. (_, refl, refl))

  sizes_jmp : SizesBytes (emit_jmp inst pc (some refs)) (emit_jmp inst 0 none)
  unfolding emit_jmp branch_target rel32
  sizes_jmp =
      Sizes-first length (branch_target inst (some refs)) _ _
        (λ to. Sizes-first length (rel32 to pc 5) _ _ (λ rel. (_, refl, refl)))

  sizes_jcc : SizesBytes (emit_jcc inst pc (some refs)) (emit_jcc inst 0 none)
  unfolding emit_jcc branch_target rel32
  sizes_jcc = Sizes-first length (branch_target inst (some refs)) _ _ (λ to.
      Sizes-both length (condition inst) _ _
        (λ nibble. Sizes-first length (rel32 to pc 6) _ _ (λ rel. (_, refl, refl))))

  sizes_test_jnz : SizesBytes (emit_test_jnz inst pc (some refs)) (emit_test_jnz inst 0 none)
  unfolding emit_test_jnz branch_target rel32
  sizes_test_jnz = Sizes-both length (parse_gpr inst.rn) _ _ (λ rn.
      Sizes-first length (branch_target inst (some refs)) _ _
        (λ to. Sizes-first length (rel32 to pc 9) _ _ (λ rel. (_, refl, refl))))

  sizes_inst :
      (opcode : X86Opcode)
      → SizesEncoding (encode_inst inst opcode pc (some refs)) (encode_inst inst opcode 0 none)
  unfolding encode_inst
  sizes_inst X86Opcode.mov_imm = Sizes-self encoded_len _
  sizes_inst X86Opcode.mov = Sizes-self encoded_len _
  sizes_inst X86Opcode.add = Sizes-self encoded_len _
  sizes_inst X86Opcode.sub = Sizes-self encoded_len _
  sizes_inst X86Opcode.mul = Sizes-self encoded_len _
  sizes_inst X86Opcode.umulh = Sizes-self encoded_len _
  sizes_inst X86Opcode.sdiv = Sizes-self encoded_len _
  sizes_inst X86Opcode.udiv = Sizes-self encoded_len _
  sizes_inst X86Opcode.and = Sizes-self encoded_len _
  sizes_inst X86Opcode.or = Sizes-self encoded_len _
  sizes_inst X86Opcode.xor = Sizes-self encoded_len _
  sizes_inst X86Opcode.shl = Sizes-self encoded_len _
  sizes_inst X86Opcode.lsr = Sizes-self encoded_len _
  sizes_inst X86Opcode.cmp = Sizes-self encoded_len _
  sizes_inst X86Opcode.cset = Sizes-self encoded_len _
  sizes_inst X86Opcode.push = Sizes-self encoded_len _
  sizes_inst X86Opcode.pop = Sizes-self encoded_len _
  sizes_inst X86Opcode.sub_sp_imm = Sizes-self encoded_len _
  sizes_inst X86Opcode.add_sp_imm = Sizes-self encoded_len _
  sizes_inst X86Opcode.add_sp_offset = Sizes-self encoded_len _
  sizes_inst X86Opcode.str_sp_offset = Sizes-self encoded_len _
  sizes_inst X86Opcode.ldr_sp_offset = Sizes-self encoded_len _
  sizes_inst X86Opcode.strw_sp_offset = Sizes-self encoded_len _
  sizes_inst X86Opcode.ldrw_sp_offset = Sizes-self encoded_len _
  sizes_inst X86Opcode.strh_sp_offset = Sizes-self encoded_len _
  sizes_inst X86Opcode.ldrh_sp_offset = Sizes-self encoded_len _
  sizes_inst X86Opcode.strb_sp_offset = Sizes-self encoded_len _
  sizes_inst X86Opcode.ldrb_sp_offset = Sizes-self encoded_len _
  sizes_inst X86Opcode.ldr_stack_arg = Sizes-self encoded_len _
  sizes_inst X86Opcode.str_reg_offset = Sizes-self encoded_len _
  sizes_inst X86Opcode.ldr_reg_offset = Sizes-self encoded_len _
  sizes_inst X86Opcode.strw_reg_offset = Sizes-self encoded_len _
  sizes_inst X86Opcode.ldrw_reg_offset = Sizes-self encoded_len _
  sizes_inst X86Opcode.strh_reg_offset = Sizes-self encoded_len _
  sizes_inst X86Opcode.ldrh_reg_offset = Sizes-self encoded_len _
  sizes_inst X86Opcode.strb_reg_offset = Sizes-self encoded_len _
  sizes_inst X86Opcode.ldrb_reg_offset = Sizes-self encoded_len _
  sizes_inst X86Opcode.adr_literal =
      Sizes-with_bytes _ _ (sizes_adr inst.literal_label refs.literal_offsets)
  sizes_inst X86Opcode.adr_function =
      Sizes-with_bytes _ _ (sizes_adr inst.callee refs.function_offsets)
  sizes_inst X86Opcode.ret = (_, refl, refl)
  sizes_inst X86Opcode.ud2 = (_, refl, refl)
  sizes_inst X86Opcode.call =
      Sizes-both encoded_len (unwrap inst.callee) _ _
        (λ callee. sizes_call callee (refs.function_offsets callee))
  sizes_inst X86Opcode.call_reg = Sizes-self encoded_len _
  sizes_inst X86Opcode.jmp = Sizes-with_bytes _ _ sizes_jmp
  sizes_inst X86Opcode.jcc = Sizes-with_bytes _ _ sizes_jcc
  sizes_inst X86Opcode.test_jnz = Sizes-with_bytes _ _ sizes_test_jnz

-- What is encoded at some place and with some offsets has as many bytes as sizing counts without
-- them, and sizing does not panic on it.
pub inst_len-encode_inst :
    (inst : Inst) (opcode : X86Opcode) (pc : ℕ) (refs : BinarySerializationContext)
    (e : BinaryEncoding)
    → encode_inst inst opcode pc (some refs) ≡ ok e
    → inst_len inst opcode ≡ ok (length e.bytes)
unfolding inst_len
inst_len-encode_inst inst opcode pc refs e h =
    let (b, sizing, same) =
      Returns-ok _ (encode_inst inst opcode pc (some refs)) e (sizes_inst inst pc refs opcode) h in
    rw sizing (ap ok same)
