-- ===== src/X86/Arith/Divide.antt =====
-- crates/pliron-ll/src/x86_64/encoding.rs: the expansion of the unsigned division.
use native.Mathlib.Nat.{div-le_self}
use crabbit.Prelude.{ℕ, ◌+◌, ◌*◌, ◌/◌, ◌%◌, ◌<◌, ◌≡◌, refl, ◌∙◌, ap, arith}
use crabbit.Prelude.{true, false, ◌==◌, ltb, lt→ltb}
use crabbit.Prelude.{Option, some, [], ◌∷◌, ◌++◌}
use crabbit.X86.Opcode.{X86Opcode}
use crabbit.X86.Inst.{Inst, BinarySerializationContext}
use crabbit.X86.Bytes.{rax, rdx, emit_mov_rr, emit_ext}
use crabbit.X86.Encode.{encode_inst, emit_udiv}
use crabbit.X86.Machine.{Registers, set, run, execute, unary_step, divide, word_size}
use crabbit.X86.Machine.Execute.{set_other, run-mov, run-unary, run-clear_edx}
use crabbit.X86.Arith.{Operands, Runs, Words}
use crabbit.X86.Arith.Expand.{Free, check-Free, not_first, not_second, overwrite}

-- What `div` leaves: the quotient in rax and the remainder in rdx.
abbrev pub divided : ℕ → ℕ → Registers → Registers
divided a b s = set rdx (a % b) (set rax (a / b) s)

divide-small :
    (a b : ℕ) (s : Registers)
    → s rdx ≡ 0
    → s rax ≡ a
    → a < word_size
    → 0 < b
    → divide b s ≡ some (divided a b s)
unfolding divide
divide-small a b s e_high e_low word nonzero =
    let no_zero : (b == 0) ≡ false = ground arith in
    let whole : 0 * word_size + a ≡ a = omega arith in
    let fits : ltb (a / b) word_size ≡ true = lt→ltb _ _ (omega (arith, div-le_self a b)) in
    rw (e_high, e_low, no_zero, whole, fits) refl

module _ (s : Registers) (rd rn rm : ℕ) (low_rd : rd < 16) (low_rn : rn < 16)
    (low_rm : rm < 16) where
  run-udiv :
      (rm == rax) ≡ false
      → (rm == rdx) ≡ false
      → s rn < word_size
      → 0 < s rm
      → execute
          (emit_mov_rr rax rn ++ (0x31 ∷ 0xd2 ∷ []) ++ emit_ext 0xf7 6 rm ++ emit_mov_rr rd rax)
          s
        ≡ some (set rd (s rn / s rm) (divided (s rn) (s rm) s))
  unfolding run emit_mov_rr unary_step
  run-udiv not_rax not_rdx word nonzero =
      let s1 = set rax (s rn) s in
      let s2 = set rdx 0 s1 in
      let same_rm : s2 rm ≡ s rm =
        set_other rdx rm 0 s1 not_rdx ∙ set_other rax rm (s rn) s not_rax in
      let t = divided (s rn) (s rm) s2 in
      run-mov 10 (0x31 ∷ 0xd2 ∷ emit_ext 0xf7 6 rm ++ emit_mov_rr rd rax) s rax rn (omega arith)
        low_rn
      ∙ run-clear_edx 9 (emit_ext 0xf7 6 rm ++ emit_mov_rr rd rax) s1
      ∙ run-unary 8 (emit_mov_rr rd rax) s2 6 rm t (omega arith) low_rm
          (rw same_rm (divide-small (s rn) (s rm) s2 refl refl word nonzero))
      ∙ run-mov 7 [] t rd rax low_rd (omega arith)
      ∙ ap (λ (u : Registers). some (set rd (s rn / s rm) u))
          (overwrite (s rn / s rm) (s rn % s rm) (s rn) 0 s)

-- `udiv` of general-purpose registers, none of which is rax or rdx, by a divisor that is not zero
-- is encoded, and the processor runs the bytes to the state in which the destination has the
-- quotient of the two operands, rax too, rdx the remainder, and every other register is as it
-- was.
pub udiv-Runs :
    (inst : Inst) (pc : ℕ) (refs : Option BinarySerializationContext) (rd rn rm : ℕ) (s : Registers)
    → Operands inst rd rn rm
    → Free (rax ∷ rdx ∷ []) rd rn rm
    → Words s
    → 0 < s rm
    → Runs
        (encode_inst inst X86Opcode.udiv pc refs)
        s
        (set rd (s rn / s rm) (divided (s rn) (s rm) s))
unfolding encode_inst emit_udiv
udiv-Runs inst pc refs rd rn rm s o free words nonzero = (
  record {
    bytes = emit_mov_rr rax rn ++ (0x31 ∷ 0xd2 ∷ []) ++ emit_ext 0xf7 6 rm ++ emit_mov_rr rd rax;
    fixups = [];
  },
  rw (o.e_rd, o.e_rn, o.e_rm, check-Free (rax ∷ rdx ∷ []) rd rn rm free) refl,
  run-udiv s rd rn rm o.low_rd o.low_rn o.low_rm (not_first rax rdx rm free.free_rm)
      (not_second rax rdx rm free.free_rm) (words rn) nonzero,
)
