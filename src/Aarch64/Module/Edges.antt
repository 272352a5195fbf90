-- ===== src/Aarch64/Module/Edges.antt =====
-- crates/pliron-ll/src/passes/aarch64/aarch64_encode.rs with `encode_branch`: in the code of a
-- function, the bytes of the conditional branch that ends a block, at the place that the layout gives it.
use mathlib.Core.Path.{subst}
use crabbit.Prelude.{ℕ, ◌+◌, ◌%◌, ◌^◌, ◌≤◌, ◌≡◌, sym, ◌∙◌, ap, arith, length}
use crabbit.Prelude.{Bool, length-append, if◌then◌else◌, some, List, [], ◌∷◌, ◌++◌}
use crabbit.Prelude.Result.{ok, >>=-eq-ok, ok-injective}
use crabbit.Layout.{
  Block, BlockMap, NameMap, Refs, Encoded, BasicBlock, FuncOp, no_blocks, block_offsets,
  encode_blocks, encode_func, refs_with, next_block,
}
use crabbit.Layout.Pieces.{StandsIn}
use crabbit.Layout.Blocks.{Distinct, NextAt, InFunc, InFunc-SplitAt, encode_blocks-Placed}
use crabbit.Layout.Ops.{LastPlaced, Placed-LastPlaced}
use crabbit.Aarch64.Condition.{ConditionCode}
use crabbit.Aarch64.Condition.Flags.{Flags, holds}
use crabbit.Aarch64.Inst.{Inst, BinaryEncoding, BinaryFixup}
use crabbit.Aarch64.Opcode.{Aarch64Opcode, discriminant}
use crabbit.Aarch64.Branch.Machine.{run}
use crabbit.Aarch64.Branch.Reach.{StandsAt}
use crabbit.Aarch64.Emit.{encode_inst, byte_len}
use crabbit.Aarch64.Emit.Length.{length-encode_inst}
use crabbit.Aarch64.Emit.Edges.{Lands, b_cond-Lands}
use crabbit.Aarch64.Module.{MachineOp, aarch64, op_encode, at_next, context, encoding_of}
use crabbit.Aarch64.Module.Aligned.{block_size-aligned, block_offsets-AllAligned}

-- A block of the function: its place, and where that is.
record BlockAt (out : BlockMap) (pc end : ℕ) (block : Block) : Type 0 where
  place : ℕ
  mapped : out block ≡ some place
  first : pc ≤ place
  last : place ≤ end

StandsIn-le :
    (pc place : ℕ) (code piece : List ℕ)
    → StandsIn pc code place piece
    → (pc ≤ place) × (place + length piece ≤ pc + length code)
StandsIn-le pc place code piece s =
    let total : length code ≡ length (s.before ++ (piece ++ s.after)) = ap length s.split in
    omega (
      arith,
      s.reached,
      total,
      length-append s.before (piece ++ s.after),
      length-append piece s.after,
    )

block_at :
    (refs : Refs) (out : BlockMap) (pc : ℕ) (e : Encoded BinaryFixup)
    (blocks : List (BasicBlock MachineOp)) (block : Block)
    → Distinct blocks
    → block_offsets aarch64 no_blocks pc blocks ≡ ok out
    → encode_blocks aarch64 refs pc blocks ≡ ok e
    → InFunc block blocks
    → BlockAt out pc (pc + length e.bytes) block
block_at refs out pc e blocks block distinct map run found =
    let s = InFunc-SplitAt block blocks found in
    let p =
      encode_blocks-Placed aarch64 refs s.before s.it s.later no_blocks out pc e
        (subst Distinct s.split distinct)
        (subst (λ bs. block_offsets aarch64 no_blocks pc bs ≡ ok out) s.split map)
        (subst (λ bs. encode_blocks aarch64 refs pc bs ≡ ok e) s.split run) in
    let range = StandsIn-le pc p.place e.bytes p.code.bytes p.stands in
    record {
      place = p.place;
      mapped = subst (λ (b : Block). out b ≡ some p.place) s.same p.mapped;
      first = range.0;
      last = omega (arith, range.1);
    }

-- The last operation of a block is encoded for its place, after the operations before it, and
-- stands there. The architecture runs just those bytes, from there, to the place of one block on
-- the flags on which the condition holds, and to that of the other one on the rest.
pub record Branches (f : Flags) (nonzero : ℕ → Bool) (refs : Refs) (pc : ℕ)
    (e : Encoded BinaryFixup) (b : BasicBlock MachineOp) (later : List (BasicBlock MachineOp))
    (first : List MachineOp) (op : MachineOp) (cond : ConditionCode) (taken other : Block)
    : Type 0 where
  pub last : LastPlaced aarch64 refs pc e refs.block_offsets b later first op
  pub to_taken : ℕ
  pub to_other : ℕ
  pub e_taken : refs.block_offsets taken ≡ some to_taken
  pub e_other : refs.block_offsets other ≡ some to_other
  pub runs :
      run f nonzero last.code.bytes (last.start + last.size)
      ≡ some (if holds cond f then to_taken else to_other)

module _ (f : Flags) (nonzero : ℕ → Bool) (refs : Refs) (op : MachineOp) (cond : ConditionCode)
    (e_op : op.opcode ≡ Aarch64Opcode.b_cond) where
  b_cond_run :
      (inst : Inst) (pc to : ℕ) (e : BinaryEncoding)
      → Lands f nonzero refs.block_offsets inst Aarch64Opcode.b_cond pc to
      → encode_inst inst Aarch64Opcode.b_cond pc (context refs) ≡ ok e
      → run f nonzero e.bytes pc ≡ some to
  unfolding encode_inst discriminant
  b_cond_run inst pc to e (o, run_o, runs) encoded =
      subst (λ (c : BinaryEncoding). run f nonzero c.bytes pc ≡ some to)
        (ok-injective o e (sym run_o ∙ encoded)) runs

  -- The operation at its place, between its blocks.
  op_runs :
      (next : List (BasicBlock MachineOp)) (taken other : Block) (pc to_taken to_other : ℕ)
      (e : Encoded BinaryFixup)
      → op.inst.successors ≡ taken ∷ other ∷ []
      → op.inst.cond ≡ some cond
      → pc % 4 ≡ 0
      → StandsAt refs.block_offsets taken pc to_taken
      → StandsAt refs.block_offsets other pc to_other
      → NextAt aarch64 refs.block_offsets next (pc + length e.bytes)
      → op_encode (next_block next) op pc refs ≡ ok e
      → run f nonzero e.bytes pc ≡ some (if holds cond f then to_taken else to_other)
  unfolding op_encode
  op_runs next taken other pc to_taken to_other e e_succ e_cond e_pc at_taken at_other follows
        encoded =
      let inst = at_next (next_block next) op.inst in
      let (o, run_o, same) = >>=-eq-ok (encode_inst inst op.opcode pc (context refs)) _ encoded in
      let run_b = subst (λ c. encode_inst inst c pc (context refs) ≡ ok o) e_op run_o in
      let e_ok = ok-injective (encoding_of o) e same in
      let len : length e.bytes ≡ byte_len inst Aarch64Opcode.b_cond =
        ap (λ (c : Encoded BinaryFixup). length c.bytes) (sym e_ok)
        ∙ length-encode_inst inst Aarch64Opcode.b_cond pc (context refs) o run_b in
      subst
        (λ (c : Encoded BinaryFixup).
          run f nonzero c.bytes pc ≡ some (if holds cond f then to_taken else to_other))
        e_ok
        (b_cond_run inst pc _ o
          (b_cond-Lands f nonzero refs.block_offsets inst pc cond taken other to_taken to_other
            e_succ e_cond e_pc at_taken at_other
            (subst (λ (n : ℕ). NextAt aarch64 refs.block_offsets next (pc + n)) len follows))
          run_b)

-- In a function that is encoded to code at least four bytes shorter than 1 MiB, from a word-aligned
-- place, the conditional branch that ends a block, between two blocks of the function, is encoded
-- for the place that the offset of the block and the sizes of the operations before it give. Its
-- bytes stand there, and run from there to the place of the taken block on the flags on which its
-- condition holds and to the place of the other one on the rest.
pub encode_func-Branches :
    (f : Flags) (nonzero : ℕ → Bool) (functions literals : NameMap) (pc : ℕ)
    (func : FuncOp MachineOp) (e : Encoded BinaryFixup) (before : List (BasicBlock MachineOp))
    (b : BasicBlock MachineOp) (later : List (BasicBlock MachineOp)) (first : List MachineOp)
    (op : MachineOp) (cond : ConditionCode) (taken other : Block)
    → encode_func aarch64 functions literals pc func ≡ ok e
    → pc % 4 ≡ 0
    → length e.bytes + 4 ≤ 2 ^ 20
    → func.blocks ≡ before ++ (b ∷ later)
    → Distinct func.blocks
    → b.ops ≡ first ++ (op ∷ [])
    → op.opcode ≡ Aarch64Opcode.b_cond
    → op.inst.cond ≡ some cond
    → op.inst.successors ≡ taken ∷ other ∷ []
    → InFunc taken func.blocks
    → InFunc other func.blocks
    → (out : BlockMap) × (block_offsets aarch64 no_blocks pc func.blocks ≡ ok out)
      × Branches f nonzero
          (refs_with aarch64 functions literals out)
          pc
          e
          b
          later
          first
          op
          cond
          taken
          other
encode_func-Branches f nonzero functions literals pc func e before b later first op cond taken other
      run_f e_pc short split distinct e_ops e_op e_cond e_succ in_taken in_other =
    let (out, map, code) = >>=-eq-ok (block_offsets aarch64 no_blocks pc func.blocks) _ run_f in
    let refs = refs_with aarch64 functions literals out in
    let at_taken = block_at refs out pc e func.blocks taken distinct map code in_taken in
    let at_other = block_at refs out pc e func.blocks other distinct map code in_other in
    let aligned = block_offsets-AllAligned func.blocks no_blocks out pc e_pc (λ x y h. cc) map in
    let p =
      encode_blocks-Placed aarch64 refs before b later no_blocks out pc e
        (subst Distinct split distinct)
        (subst (λ bs. block_offsets aarch64 no_blocks pc bs ≡ ok out) split map)
        (subst (λ bs. encode_blocks aarch64 refs pc bs ≡ ok e) split code) in
    let l = Placed-LastPlaced aarch64 refs pc e out b later first op e_ops p in
    let place = l.start + l.size in
    let range = StandsIn-le pc place e.bytes l.code.bytes l.stands in
    let size = block_size-aligned (next_block later) first l.size l.counted in
    let e_place : place % 4 ≡ 0 = omega (arith, aligned b.block l.start l.mapped, size) in
    let stands_at = λ (block : Block) (a : BlockAt out pc (pc + length e.bytes) block).
      near out pc (pc + length e.bytes) place block a (aligned block a.place a.mapped) range.0
        (omega (arith, range.1)) (omega (arith, short)) in
    (
      out,
      map,
      record {
        last = l;
        to_taken = at_taken.place;
        to_other = at_other.place;
        e_taken = at_taken.mapped;
        e_other = at_other.mapped;
        runs =
            op_runs f nonzero refs op cond e_op later taken other place at_taken.place
              at_other.place l.code e_succ e_cond e_place (stands_at taken at_taken)
              (stands_at other at_other) l.follows l.encoded;
      },
    )
  where
    near :
        (out : BlockMap) (pc end place : ℕ) (block : Block) (a : BlockAt out pc end block)
        → a.place % 4 ≡ 0
        → pc ≤ place
        → place ≤ end
        → end + 4 ≤ pc + 2 ^ 20
        → StandsAt out block place a.place
    near out pc end place block a e_a low high narrow = record {
      found = a.mapped;
      aligned = e_a;
      above = omega (arith, a.last, a.first, low, high, narrow);
      below = omega (arith, a.last, a.first, low, high, narrow);
    }
