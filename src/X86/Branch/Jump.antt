-- ===== src/X86/Branch/Jump.antt =====
-- crates/pliron-ll/src/x86_64/encoding.rs, `jmp`, `jcc`, `test_jnz` and `call` of `encode_inst`:
-- jumps, conditional jumps and calls go to what the offsets say.
use crabbit.Prelude.{ℕ, ◌+◌, ◌*◌, ◌/◌, ◌%◌, ◌<◌, ◌≡◌, refl, ◌∙◌, ap, arith, leb}
use Prim.Native.String.{String}
use crabbit.Prelude.{zero, suc, inl, inr, Bool-cases, ◌++◌, ◌||◌}
use crabbit.Prelude.{Bool, true, false, not, ◌==◌, if◌then◌else◌, bit_and}
use crabbit.Prelude.{some, List, [], ◌∷◌, ◌↔◌}
use crabbit.Prelude.Int.{sub_ℕ, in_range}
use crabbit.Prelude.Bits.{bit_and_step}
use crabbit.Prelude.Result.{Result, Error, ok, err}
use crabbit.X86.Condition.{ConditionCode, encoding}
use crabbit.X86.Condition.Flags.{Flags, holds, encoding-lt}
use crabbit.X86.Opcode.{X86Opcode}
use crabbit.X86.Inst.{Inst, Block, BinaryEncoding, BinarySerializationContext}
use crabbit.X86.Bytes.{rex, parse_gpr, rel32, emit_rr, rel_bytes}
use crabbit.X86.Encode.{encode_inst, branch_target, emit_jmp, emit_jcc, emit_test_jnz, emit_call}
use crabbit.X86.Machine.{Registers}
use crabbit.X86.Machine.Decode.{decode_rex-rex, modrm-sum, low-lt, extended-low}
use crabbit.X86.Branch.{run_branch, run_jcc, run_test, test_flags}
use crabbit.X86.Branch.Displacement.{
  InReach, OutOfReach, in_range-OutOfReach, in_range-InReach, displaced_bytes,
}

-- The instruction is encoded, and the processor goes on from its bytes to a place.
abbrev pub Lands : Flags → Registers → Result BinaryEncoding → ℕ → ℕ → Type 0
Lands f s encoded pc to =
    (e : BinaryEncoding) × (encoded ≡ ok e) × (run_branch f s e.bytes pc ≡ some to)

module _ (f : Flags) (pc to : ℕ) (reach : InReach to (pc + 6)) where
  run_jcc-rel :
      (cond : ConditionCode)
      → run_jcc f ((0x80 + encoding cond) ∷ rel_bytes (sub_ℕ to (pc + 6))) pc
        ≡ some (if holds cond f then to else pc + 6)
  unfolding run_jcc
  run_jcc-rel cond =
      let upper : (0x80 + encoding cond) / 16 ≡ 8 = omega (arith, encoding-lt cond) in
      let lower : (0x80 + encoding cond) % 16 ≡ encoding cond = omega (arith, encoding-lt cond) in
      rw (upper, lower)
        (ap (λ (t : ℕ). some (if holds cond f then t else pc + 6))
          (displaced_bytes to (pc + 6) reach))

module _ (f : Flags) (s : Registers) (inst : Inst) (refs : BinarySerializationContext) (pc : ℕ)
    (block : Block) (others : List Block) (to : ℕ) (e_succ : inst.successors ≡ block ∷ others)
    (e_block : refs.block_offsets block ≡ some to) where
  -- A `jmp` to a block less than 2 GiB after its end or at most 2 GiB before it is encoded, and goes
  -- there.
  pub jmp-Lands :
      InReach to (pc + 5) → Lands f s (encode_inst inst X86Opcode.jmp pc (some refs)) pc to
  unfolding encode_inst emit_jmp branch_target rel32 run_branch
  jmp-Lands reach = (
    record { bytes = 0xe9 ∷ rel_bytes (sub_ℕ to (pc + 5)); fixups = [] },
    rw (e_succ, e_block, in_range-InReach to (pc + 5) reach) refl,
    ap some (displaced_bytes to (pc + 5) reach),
  )

  -- A `jcc` to a block less than 2 GiB after its end or at most 2 GiB before it is encoded, and goes
  -- there on the flags on which its condition code holds and on to the next instruction on the
  -- rest.
  pub jcc-Lands :
      (cond : ConditionCode)
      → inst.cond ≡ some cond
      → InReach to (pc + 6)
      → Lands f s
          (encode_inst inst X86Opcode.jcc pc (some refs))
          pc
          (if holds cond f then to else pc + 6)
  unfolding encode_inst emit_jcc branch_target rel32 run_branch
  jcc-Lands cond e_cond reach = (
    record { bytes = 0x0f ∷ (0x80 + encoding cond) ∷ rel_bytes (sub_ℕ to (pc + 6)); fixups = [] },
    rw (e_succ, e_block, e_cond, in_range-InReach to (pc + 6) reach) refl,
    run_jcc-rel f pc to reach cond,
  )

  -- A `jmp` to a block is refused exactly when the block is more than 2 GiB before the end of the
  -- instruction or at least 2 GiB after it.
  pub jmp-out_of_range :
      (encode_inst inst X86Opcode.jmp pc (some refs) ≡ err Error.out_of_range)
      ↔ OutOfReach to (pc + 5)
  unfolding encode_inst emit_jmp branch_target rel32
  jmp-out_of_range =
      let fit = in_range-OutOfReach to (pc + 5) in
      elim (Bool-cases (in_range 31 (sub_ℕ to (pc + 5)))) [
        | inl fits ↦
            ((λ refused. cc (rw (e_succ, e_block, fits) at refused)), (λ out. cc (fits, fit.1 out)))
        | inr beyond ↦ ((λ refused. fit.0 beyond), (λ out. rw (e_succ, e_block, beyond) refl))
      ]

-- The bits of a register with itself.
bit_and_self : (bound v : ℕ) → v < bound → bit_and v v ≡ v
bit_and_self zero v h = absurd (omega arith)
bit_and_self (suc bound) zero h = refl
bit_and_self (suc bound) (suc v) h =
    omega (arith, bit_and_step (suc v) (suc v), bit_and_self bound (suc v / 2) (omega arith))

-- A prefix is no branch.
prefix_apart :
    (r b : Bool)
    → ((rex true r false b == 0x0f) ≡ false)
      × ((rex true r false b == 0xe9 || rex true r false b == 0xe8) ≡ false)
unfolding rex
prefix_apart true true = (refl, refl)
prefix_apart true false = (refl, refl)
prefix_apart false true = (refl, refl)
prefix_apart false false = (refl, refl)

module _ (f : Flags) (s : Registers) (rn pc : ℕ) (low : rn < 16) where
  run-test :
      (rest : List ℕ)
      → run_branch f s (emit_rr 0x85 rn rn ++ (0x0f ∷ rest)) pc
        ≡ run_jcc (test_flags (s rn)) rest (pc + 3)
  unfolding run_branch run_test
  run-test rest =
      let reg = bit_and rn 7 in
      let small : reg < 8 = low-lt rn in
      let apart = prefix_apart (leb 8 rn) (leb 8 rn) in
      let mode : (3 * 64 + reg * 8 + reg) / 64 ≡ 3 = omega (arith, small) in
      let field_reg : (3 * 64 + reg * 8 + reg) / 8 % 8 ≡ reg = omega (arith, small) in
      let field_rm : (3 * 64 + reg * 8 + reg) % 8 ≡ reg = omega (arith, small) in
      rw
        (
          apart.0,
          apart.1,
          decode_rex-rex true (leb 8 rn) false (leb 8 rn),
          modrm-sum 3 reg reg (omega arith) small small,
          mode,
          field_reg,
          field_rm,
          extended-low rn low,
          bit_and_self (suc (s rn)) (s rn) (omega arith),
        )
        refl

  test_jnz-goes :
      (to : ℕ)
      → InReach to (pc + 9)
      → run_branch f s (emit_rr 0x85 rn rn ++ (0x0f ∷ 0x85 ∷ rel_bytes (sub_ℕ to (pc + 9)))) pc
        ≡ some (if s rn == 0 then pc + 9 else to)
  test_jnz-goes to reach =
      let end : pc + 9 ≡ pc + 3 + 6 = omega arith in
      run-test (0x85 ∷ rel_bytes (sub_ℕ to (pc + 9)))
      ∙ rw end (
          run_jcc-rel (test_flags (s rn)) (pc + 3) to (rw end at reach) ConditionCode.ne
          ∙ choose (s rn == 0))
    where
      choose :
          (t : Bool) → some (if not t then to else pc + 3 + 6) ≡ some (if t then pc + 3 + 6 else to)
      choose true = refl
      choose false = refl

-- A `test_jnz` of a general-purpose register with a block less than 2 GiB after its end or at most
-- 2 GiB before it is encoded, and goes there if the register is not zero and on to the next
-- instruction if it is.
pub test_jnz-Lands :
    (f : Flags) (s : Registers) (inst : Inst) (refs : BinarySerializationContext) (pc : ℕ)
    (block : Block) (others : List Block) (to rn : ℕ)
    → inst.successors ≡ block ∷ others
    → refs.block_offsets block ≡ some to
    → parse_gpr inst.rn ≡ ok rn
    → rn < 16
    → InReach to (pc + 9)
    → Lands f s
        (encode_inst inst X86Opcode.test_jnz pc (some refs))
        pc
        (if s rn == 0 then pc + 9 else to)
unfolding encode_inst emit_test_jnz branch_target rel32
test_jnz-Lands f s inst refs pc block others to rn e_succ e_block e_rn low reach = (
  record {
    bytes = emit_rr 0x85 rn rn ++ (0x0f ∷ 0x85 ∷ rel_bytes (sub_ℕ to (pc + 9)));
    fixups = [];
  },
  rw (e_rn, e_succ, e_block, in_range-InReach to (pc + 9) reach) refl,
  test_jnz-goes f s rn pc low to reach,
)

-- A call of a function of the module less than 2 GiB after its end or at most 2 GiB before it is
-- encoded with no fixup, and goes there.
pub call-Lands :
    (f : Flags) (s : Registers) (inst : Inst) (refs : BinarySerializationContext) (pc : ℕ)
    (callee : String) (to : ℕ)
    → inst.callee ≡ some callee
    → refs.function_offsets callee ≡ some to
    → InReach to (pc + 5)
    → Lands f s (encode_inst inst X86Opcode.call pc (some refs)) pc to
unfolding encode_inst emit_call rel32 run_branch
call-Lands f s inst refs pc callee to e_callee e_to reach = (
  record { bytes = 0xe8 ∷ rel_bytes (sub_ℕ to (pc + 5)); fixups = [] },
  rw (e_callee, e_to, in_range-InReach to (pc + 5) reach) refl,
  ap some (displaced_bytes to (pc + 5) reach),
)
