-- ===== src/X86/Arith.antt =====
-- crates/pliron-ll/src/x86_64/encoding.rs, `emit_alu_three` and the multiplication: the processor
-- runs the two-address bytes as the three-address operation.
pub mod Expand
pub mod Shift
pub mod Divide
pub mod SignedDivide
use crabbit.Prelude.{ℕ, ◌+◌, ◌-◌, ◌*◌, ◌%◌, ◌^◌, ◌<◌, ◌≡◌, refl, ◌∙◌, sym, ap, arith}
use crabbit.Prelude.{Bool, true, false, inl, inr, ◌==◌, ==_iff, if◌then◌else◌, Bool-cases}
use crabbit.Prelude.{Option, some, List, [], ◌∷◌, ◌++◌}
use crabbit.Prelude.Commute.{bit_and_comm, bit_or_comm, bit_xor_comm}
use crabbit.Prelude.Result.{Result, ok}
use crabbit.X86.Opcode.{X86Opcode}
use crabbit.X86.Inst.{Inst, BinaryEncoding, BinarySerializationContext}
use crabbit.X86.Bytes.{parse_gpr, emit_mov_rr, emit_alu_three, alu, emit_ext}
use crabbit.X86.Encode.{emit_imul, emit_mul, encode_inst}
use crabbit.X86.Machine.{Registers, set, run, execute, unary_step, negate, word_size}
use crabbit.X86.Machine.Execute.{
  AluOp, alu_code, alu_value, set-set, set_same, set_other, run-mov, run-alu, run-imul, run-unary,
}

-- Each register holds a word.
abbrev pub Words : Registers → Type 0
Words s = (q : ℕ) → s q < word_size

-- The three operands are general-purpose registers with these numbers.
pub record Operands (inst : Inst) (rd rn rm : ℕ) : Type 0 where
  pub e_rd : parse_gpr inst.rd ≡ ok rd
  pub e_rn : parse_gpr inst.rn ≡ ok rn
  pub e_rm : parse_gpr inst.rm ≡ ok rm
  pub low_rd : rd < 16
  pub low_rn : rn < 16
  pub low_rm : rm < 16

-- An instruction is encoded, and the processor runs its bytes to a state.
abbrev pub Runs : Result BinaryEncoding → Registers → Registers → Type 0
Runs encoded s t = (e : BinaryEncoding) × (encoded ≡ ok e) × (execute e.bytes s ≡ some t)

abbrev pub alu_opcode : AluOp → X86Opcode
alu_opcode AluOp.add = X86Opcode.add
alu_opcode AluOp.sub = X86Opcode.sub
alu_opcode AluOp.and = X86Opcode.and
alu_opcode AluOp.or = X86Opcode.or
alu_opcode AluOp.xor = X86Opcode.xor

abbrev commutes : AluOp → Bool
commutes AluOp.sub = false
commutes _ = true

encode-alu :
    (inst : Inst) (op : AluOp) (pc : ℕ) (refs : Option BinarySerializationContext) (rd rn rm : ℕ)
    → Operands inst rd rn rm
    → encode_inst inst (alu_opcode op) pc refs
      ≡ ok (record { bytes = emit_alu_three (alu_code op) rd rn rm (commutes op); fixups = [] })
unfolding encode_inst
encode-alu inst AluOp.add pc refs rd rn rm o = rw (o.e_rd, o.e_rn, o.e_rm) refl
encode-alu inst AluOp.sub pc refs rd rn rm o = rw (o.e_rd, o.e_rn, o.e_rm) refl
encode-alu inst AluOp.and pc refs rd rn rm o = rw (o.e_rd, o.e_rn, o.e_rm) refl
encode-alu inst AluOp.or pc refs rd rn rm o = rw (o.e_rd, o.e_rn, o.e_rm) refl
encode-alu inst AluOp.xor pc refs rd rn rm o = rw (o.e_rd, o.e_rn, o.e_rm) refl

module _ (s : Registers) (words : Words s) where
  negated : (r v : ℕ) → unary_step 3 r (set r v s) ≡ some (set r (negate v) (set r v s))
  unfolding unary_step
  negated r v = rw (set_same r v s) refl

  -- The operation on the third operand first.
  swapped :
      (op : AluOp) (rd rn : ℕ)
      → rd < 16
      → rn < 16
      → execute (alu (alu_code op) rd rn ++ (if commutes op then [] else emit_ext 0xf7 3 rd)) s
        ≡ some (set rd (alu_value op (s rn) (s rd)) s)
  unfolding run alu
  swapped AluOp.add rd rn h_rd h_rn =
      run-alu 2 [] s AluOp.add rd rn h_rd h_rn ∙ ap (λ (t : ℕ). some (set rd t s)) (omega arith)
  swapped AluOp.sub rd rn h_rd h_rn =
      let first = alu_value AluOp.sub (s rd) (s rn) in
      run-alu 5 (emit_ext 0xf7 3 rd) s AluOp.sub rd rn h_rd h_rn
      ∙ run-unary 4 [] (set rd first s) 3 rd (set rd (negate first) (set rd first s)) (omega arith)
          h_rd (negated rd first)
      ∙ ap some (set-set rd (negate first) first s)
      ∙ ap (λ (t : ℕ). some (set rd t s)) (omega (arith, words rd, words rn))
  swapped AluOp.and rd rn h_rd h_rn =
      run-alu 2 [] s AluOp.and rd rn h_rd h_rn
      ∙ ap (λ (t : ℕ). some (set rd t s)) (bit_and_comm (s rd) (s rn))
  swapped AluOp.or rd rn h_rd h_rn =
      run-alu 2 [] s AluOp.or rd rn h_rd h_rn
      ∙ ap (λ (t : ℕ). some (set rd t s)) (bit_or_comm (s rd) (s rn))
  swapped AluOp.xor rd rn h_rd h_rn =
      run-alu 2 [] s AluOp.xor rd rn h_rd h_rn
      ∙ ap (λ (t : ℕ). some (set rd t s)) (bit_xor_comm (s rd) (s rn))

  -- A value on the moved operand and on another one.
  after_mov :
      (f : ℕ → ℕ → ℕ) (rd rn rm : ℕ)
      → (rd == rm) ≡ false
      → set rd (f (set rd (s rn) s rd) (set rd (s rn) s rm)) (set rd (s rn) s)
        ≡ set rd (f (s rn) (s rm)) s
  after_mov f rd rn rm other =
      rw (set_same rd (s rn) s, set_other rd rm (s rn) s (flip other))
        (set-set rd (f (s rn) (s rm)) (s rn) s)
    where
      flip : (rd == rm) ≡ false → (rm == rd) ≡ false
      flip h = ground arith

  alu_three :
      (op : AluOp) (rd rn rm : ℕ)
      → rd < 16
      → rn < 16
      → rm < 16
      → execute (emit_alu_three (alu_code op) rd rn rm (commutes op)) s
        ≡ some (set rd (alu_value op (s rn) (s rm)) s)
  unfolding run alu emit_mov_rr emit_alu_three
  alu_three op rd rn rm h_rd h_rn h_rm = elim (Bool-cases (rd == rn)) [
    | inl same ↦ rw same (
        run-alu 2 [] s op rd rm h_rd h_rm
        ∙ ap (λ (t : ℕ). some (set rd (alu_value op (s t) (s rm)) s)) ((==_iff rd rn).0 same))
    | inr n ↦ elim (Bool-cases (rd == rm)) [
      | inl same ↦
          rw (n, same)
            (swapped op rd rn h_rd h_rn
              ∙ ap (λ (t : ℕ). some (set rd (alu_value op (s rn) (s t)) s)) ((==_iff rd rm).0 same))
      | inr m ↦
          rw (n, m)
            (run-mov 5 (alu (alu_code op) rd rm) s rd rn h_rd h_rn
              ∙ run-alu 4 [] (set rd (s rn) s) op rd rm h_rd h_rm
              ∙ ap some (after_mov (alu_value op) rd rn rm m))
    ]
  ]

  mul_three :
      (rd rn rm : ℕ)
      → rd < 16
      → rn < 16
      → rm < 16
      → execute (emit_mul rd rn rm) s ≡ some (set rd (s rn * s rm % word_size) s)
  unfolding run emit_imul emit_mov_rr emit_mul
  mul_three rd rn rm h_rd h_rn h_rm = elim (Bool-cases (rd == rn)) [
    | inl same ↦ rw same (
        run-imul 3 [] s rd rm h_rd h_rm
        ∙ ap (λ (t : ℕ). some (set rd (s t * s rm % word_size) s)) ((==_iff rd rn).0 same))
    | inr n ↦ elim (Bool-cases (rd == rm)) [
      | inl same ↦
          rw (n, same)
            (run-imul 3 [] s rd rn h_rd h_rn
              ∙ ap (λ (t : ℕ). some (set rd (t % word_size) s)) (omega arith)
              ∙ ap (λ (t : ℕ). some (set rd (s rn * s t % word_size) s)) ((==_iff rd rm).0 same))
      | inr m ↦
          rw (n, m)
            (run-mov 6 (emit_imul rd rm) s rd rn h_rd h_rn
              ∙ run-imul 5 [] (set rd (s rn) s) rd rm h_rd h_rm
              ∙ ap some (after_mov (λ a b. a * b % word_size) rd rn rm m))
    ]
  ]

-- `add`, `sub`, `and`, `or` and `xor` of general-purpose registers are encoded, and the processor
-- runs the bytes to the state in which the destination has the operation's result on the two
-- operands as they were and every other register is as it was, also when the destination is one
-- of the operands or both.
pub alu-Runs :
    (inst : Inst) (op : AluOp) (pc : ℕ) (refs : Option BinarySerializationContext) (rd rn rm : ℕ)
    (s : Registers)
    → Operands inst rd rn rm
    → Words s
    → Runs (encode_inst inst (alu_opcode op) pc refs) s (set rd (alu_value op (s rn) (s rm)) s)
alu-Runs inst op pc refs rd rn rm s o words = (
  _,
  encode-alu inst op pc refs rd rn rm o,
  alu_three s words op rd rn rm o.low_rd o.low_rn o.low_rm,
)

-- The same of `mul`: the destination has the low half of the product.
pub mul-Runs :
    (inst : Inst) (pc : ℕ) (refs : Option BinarySerializationContext) (rd rn rm : ℕ) (s : Registers)
    → Operands inst rd rn rm
    → Words s
    → Runs (encode_inst inst X86Opcode.mul pc refs) s (set rd (s rn * s rm % word_size) s)
unfolding encode_inst
mul-Runs inst pc refs rd rn rm s o words = (
  record { bytes = emit_mul rd rn rm; fixups = [] },
  rw (o.e_rd, o.e_rn, o.e_rm) refl,
  mul_three s words rd rn rm o.low_rd o.low_rn o.low_rm,
)
