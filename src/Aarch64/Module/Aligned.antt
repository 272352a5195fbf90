-- ===== src/Aarch64/Module/Aligned.antt =====
-- crates/pliron-ll/src/passes/aarch64/aarch64_encode.rs, `block_offsets`: every block is
-- word-aligned.
use mathlib.Core.Path.{subst}
use mathlib.Core.Option.{some-injective}
use crabbit.Prelude.{ℕ, ◌+◌, ◌%◌, ◌==◌, ◌≡◌, refl, arith, ◌||◌}
use crabbit.Prelude.{
  Bool, true, false, Bool-cases, inl, inr, Option, some, none, List, [], ◌∷◌, if◌then◌else◌,
}
use crabbit.Prelude.Result.{ok, >>=-eq-ok, ok-injective}
use crabbit.Layout.{
  Block, BlockMap, BasicBlock, insert_block, next_block, block_size, block_offsets,
}
use crabbit.Aarch64.Inst.{Inst}
use crabbit.Aarch64.Opcode.{Aarch64Opcode, opcode_eq}
use crabbit.Aarch64.Branch.{BranchWord, branch_words}
use crabbit.Aarch64.Emit.{byte_len, words_len}
use crabbit.Aarch64.Module.{MachineOp, aarch64, op_byte_len, at_next}

byte_len-aligned : (inst : Inst) (opcode : Aarch64Opcode) → byte_len inst opcode % 4 ≡ 0
unfolding byte_len
byte_len-aligned inst opcode = go (branch_words inst opcode)
  where
    choose : (b : Bool) → (if b then 12 else 4) % 4 ≡ 0
    choose true = refl
    choose false = refl

    go : (words : Option (List BranchWord)) → words_len opcode words % 4 ≡ 0
    go (some words) = omega arith
    go none =
        choose (
          opcode_eq opcode Aarch64Opcode.adr_literal || opcode_eq opcode Aarch64Opcode.adr_function)

pub block_size-aligned :
    (next : Option Block) (ops : List MachineOp) (n : ℕ)
    → block_size aarch64 next ops ≡ ok n
    → n % 4 ≡ 0
unfolding block_size op_byte_len
block_size-aligned next [] n run = omega (arith, ok-injective 0 n run)
block_size-aligned next (op ∷ ops) n run =
    let k = byte_len (at_next next op.inst) op.opcode in
    let (m, rest, n_ok) = >>=-eq-ok (block_size aarch64 next ops) _ run in
    omega (
      arith,
      ok-injective (k + m) n n_ok,
      byte_len-aligned (at_next next op.inst) op.opcode,
      block_size-aligned next ops m rest,
    )

abbrev pub AllAligned : BlockMap → Type 0
AllAligned offsets = (block place : ℕ) → offsets block ≡ some place → place % 4 ≡ 0

pub block_offsets-AllAligned :
    (blocks : List (BasicBlock MachineOp)) (offsets out : BlockMap) (pc : ℕ)
    → pc % 4 ≡ 0
    → AllAligned offsets
    → block_offsets aarch64 offsets pc blocks ≡ ok out
    → AllAligned out
unfolding block_offsets
block_offsets-AllAligned [] offsets out pc e_pc all run =
    subst AllAligned (ok-injective offsets out run) all
block_offsets-AllAligned (b ∷ blocks) offsets out pc e_pc all run =
    let (n, size, rest) = >>=-eq-ok (block_size aarch64 (next_block blocks) b.ops) _ run in
    block_offsets-AllAligned blocks (insert_block b.block pc offsets) out (pc + n)
      (omega (arith, e_pc, block_size-aligned (next_block blocks) b.ops n size)) inserted rest
  where
    inserted : AllAligned (insert_block b.block pc offsets)
    inserted block place e = elim (Bool-cases (b.block == block)) [
      | inl h ↦ omega (arith, e_pc, some-injective pc place (rw h at e))
      | inr h ↦ all block place (rw h at e)
    ]
