-- ===== src/X86/Arith/Shift.antt =====
-- crates/pliron-ll/src/x86_64/encoding.rs: the shifts, by a count in rcx.
use crabbit.Prelude.{ℕ, ◌*◌, ◌/◌, ◌%◌, ◌^◌, ◌<◌, ◌≡◌, refl, ◌∙◌, ap, arith}
use crabbit.Prelude.{false, inl, inr, ◌==◌, if◌then◌else◌, Bool-cases, ==_iff}
use crabbit.Prelude.{Option, some, [], ◌∷◌, ◌++◌}
use crabbit.Prelude.Result.{ok}
use crabbit.X86.Opcode.{X86Opcode}
use crabbit.X86.Inst.{Inst, BinarySerializationContext}
use crabbit.X86.Bytes.{rcx, emit_mov_rr, emit_ext}
use crabbit.X86.Encode.{encode_inst, emit_shift}
use crabbit.X86.Machine.{Registers, set, run, execute, shift_step, word_size}
use crabbit.X86.Machine.Execute.{set-set, set_same, set_other, run-mov, run-shift}
use crabbit.X86.Arith.{Operands, Runs}
use crabbit.X86.Arith.Expand.{Free, check-Free, not_only, flipped}

-- The shifts of the architecture, with the extension of their opcode.
pub data ShiftOp : Type 0 where
  left right : ShiftOp

abbrev pub shift_ext : ShiftOp → ℕ
shift_ext ShiftOp.left = 4
shift_ext ShiftOp.right = 5

abbrev pub shift_opcode : ShiftOp → X86Opcode
shift_opcode ShiftOp.left = X86Opcode.shl
shift_opcode ShiftOp.right = X86Opcode.lsr

abbrev pub shift_value : ShiftOp → ℕ → ℕ → ℕ
shift_value ShiftOp.left a count = a * 2 ^ (count % 64) % word_size
shift_value ShiftOp.right a count = a / 2 ^ (count % 64)

shift_step-op :
    (op : ShiftOp) (r : ℕ) (s : Registers)
    → shift_step (shift_ext op) r s ≡ some (set r (shift_value op (s r) (s rcx)) s)
unfolding shift_step
shift_step-op ShiftOp.left r s = refl
shift_step-op ShiftOp.right r s = refl

shift_ext-lt : (op : ShiftOp) → shift_ext op < 8
shift_ext-lt ShiftOp.left = omega arith
shift_ext-lt ShiftOp.right = omega arith

module _ (s : Registers) (rd rn rm : ℕ) (low_rd : rd < 16) (low_rn : rn < 16)
    (low_rm : rm < 16) where
  run_shifted :
      (op : ShiftOp)
      → (rd == rcx) ≡ false
      → (rn == rcx) ≡ false
      → execute
          (emit_mov_rr rcx rm
            ++ ((if rd == rn then [] else emit_mov_rr rd rn) ++ emit_ext 0xd3 (shift_ext op) rd))
          s
        ≡ some (set rd (shift_value op (s rn) (s rm)) (set rcx (s rm) s))
  unfolding run emit_mov_rr
  run_shifted op other_rd other_rn =
      let s1 = set rcx (s rm) s in
      elim (Bool-cases (rd == rn)) [
        | inl same ↦ rw same (
            run-mov 5 (emit_ext 0xd3 (shift_ext op) rd) s rcx rm (omega arith) low_rm
            ∙ run-shift 4 [] s1 (shift_ext op) rd _ (shift_ext-lt op) low_rd
                (shift_step-op op rd s1)
            ∙ rw (set_other rcx rd (s rm) s other_rd) (
                ap (λ (t : ℕ). some (set rd (shift_value op (s t) (s rm)) s1))
                  ((==_iff rd rn).0 same)))
        | inr n ↦
            let s2 = set rd (s1 rn) s1 in
            rw n (
              run-mov 8 (emit_mov_rr rd rn ++ emit_ext 0xd3 (shift_ext op) rd) s rcx rm
                (omega arith) low_rm
              ∙ run-mov 7 (emit_ext 0xd3 (shift_ext op) rd) s1 rd rn low_rd low_rn
              ∙ run-shift 6 [] s2 (shift_ext op) rd _ (shift_ext-lt op) low_rd
                  (shift_step-op op rd s2)
              ∙ rw
                  (
                    set_same rd (s1 rn) s1,
                    set_other rd rcx (s1 rn) s1 (flipped rd rcx other_rd),
                    set_other rcx rn (s rm) s other_rn,
                  )
                  (ap some (set-set rd (shift_value op (s rn) (s rm)) (s rn) s1)))
      ]

encoded :
    (inst : Inst) (op : ShiftOp) (pc : ℕ) (refs : Option BinarySerializationContext) (rd rn rm : ℕ)
    → Operands inst rd rn rm
    → Free (rcx ∷ []) rd rn rm
    → encode_inst inst (shift_opcode op) pc refs
      ≡ ok (record {
        bytes =
            emit_mov_rr rcx rm
            ++ ((if rd == rn then [] else emit_mov_rr rd rn) ++ emit_ext 0xd3 (shift_ext op) rd);
        fixups = [];
      })
unfolding encode_inst emit_shift emit_mov_rr
encoded inst ShiftOp.left pc refs rd rn rm o free =
    rw (o.e_rd, o.e_rn, o.e_rm, check-Free (rcx ∷ []) rd rn rm free) refl
encoded inst ShiftOp.right pc refs rd rn rm o free =
    rw (o.e_rd, o.e_rn, o.e_rm, check-Free (rcx ∷ []) rd rn rm free) refl

-- `shl` and `lsr` of general-purpose registers, none of which is rcx, are encoded, and the
-- processor runs the bytes to the state in which the destination has the first operand shifted
-- by the low six bits of the second one, rcx has the second one, and every other register is as
-- it was, also when the destination is one of the operands.
pub shift-Runs :
    (inst : Inst) (op : ShiftOp) (pc : ℕ) (refs : Option BinarySerializationContext) (rd rn rm : ℕ)
    (s : Registers)
    → Operands inst rd rn rm
    → Free (rcx ∷ []) rd rn rm
    → Runs
        (encode_inst inst (shift_opcode op) pc refs)
        s
        (set rd (shift_value op (s rn) (s rm)) (set rcx (s rm) s))
shift-Runs inst op pc refs rd rn rm s o free = (
  _,
  encoded inst op pc refs rd rn rm o free,
  run_shifted s rd rn rm o.low_rd o.low_rn o.low_rm op (not_only rcx rd free.free_rd)
      (not_only rcx rn free.free_rn),
)
