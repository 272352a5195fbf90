-- ===== src/Layout/Blocks.antt =====
-- crates/pliron-ll/src/passes/aarch64/aarch64_encode.rs, `block_offsets` against the bytes that are
-- emitted.
use mathlib.Core.Path.{subst}
use crabbit.Prelude.{ℕ, ◌+◌, ◌==◌, ◌≡◌, refl, sym, ◌∙◌, ap, arith, length, true, false, some}
use crabbit.Prelude.{inl, inr, ◌⊎◌, List, [], ◌∷◌, ◌++◌}
use crabbit.Prelude.Result.{ok, >>=-eq-ok, ok-injective}
use crabbit.Layout.{
  Block, BlockMap, NameMap, Refs, Encoded, Target, BasicBlock, FuncOp, insert_block, no_blocks,
  block_size, block_offsets, encode_ops, encode_blocks, encode_func, refs_with, next_block,
  extended,
}
use crabbit.Layout.Size.{encode_ops-block_size}
use crabbit.Layout.Pieces.{StandsIn, StandsIn-first, StandsIn-later}

-- A block is none of some blocks.
abbrev pub Fresh : {Op : Type 0} → Block → List (BasicBlock Op) → Type 0
Fresh block [] = Unit
Fresh block (b ∷ blocks) = ((b.block == block) ≡ false) × Fresh block blocks

-- No block stands twice.
abbrev pub Distinct : {Op : Type 0} → List (BasicBlock Op) → Type 0
Distinct [] = Unit
Distinct (b ∷ blocks) = Fresh b.block blocks × Distinct blocks

insert_block_self : (block place : ℕ) (m : BlockMap) → insert_block block place m block ≡ some place
insert_block_self block place m = let self : (block == block) ≡ true = ground arith in rw self refl

module _ {Op Fixup : Type 0} (t : Target Op Fixup) where
  block_offsets-Fresh :
      (offsets : BlockMap) (pc : ℕ) (blocks : List (BasicBlock Op)) (out : BlockMap) (block : Block)
      → block_offsets t offsets pc blocks ≡ ok out
      → Fresh block blocks
      → out block ≡ offsets block
  unfolding block_offsets
  block_offsets-Fresh offsets pc [] out block run fresh =
      ap (λ (m : BlockMap). m block) (sym (ok-injective offsets out run))
  block_offsets-Fresh offsets pc (b ∷ blocks) out block run (other, fresh) =
      let (n, size, rest) = >>=-eq-ok (block_size t (next_block blocks) b.ops) _ run in
      block_offsets-Fresh (insert_block b.block pc offsets) (pc + n) blocks out block rest fresh
      ∙ rw other refl

  -- What follows a block is where the block ends.
  abbrev pub NextAt : BlockMap → List (BasicBlock Op) → ℕ → Type 0
  NextAt out blocks end = (n : Block) → next_block blocks ≡ some n → out n ≡ some end

  -- A block's code is encoded at the place that the map has for it, where it stands in the code
  -- around it, and the next block follows.
  pub record Placed (refs : Refs) (pc : ℕ) (e : Encoded Fixup) (out : BlockMap) (b : BasicBlock Op)
      (later : List (BasicBlock Op)) : Type 0 where
    pub place : ℕ
    pub code : Encoded Fixup
    pub mapped : out b.block ≡ some place
    pub encoded : encode_ops t (next_block later) refs place b.ops ≡ ok code
    pub stands : StandsIn pc e.bytes place code.bytes
    pub follows : NextAt out later (place + length code.bytes)

  first_mapped :
      (offsets : BlockMap) (pc : ℕ) (b : BasicBlock Op) (later : List (BasicBlock Op))
      (out : BlockMap)
      → block_offsets t offsets pc (b ∷ later) ≡ ok out
      → Fresh b.block later
      → out b.block ≡ some pc
  unfolding block_offsets
  first_mapped offsets pc b later out run fresh =
      let (n, size, rest) = >>=-eq-ok (block_size t (next_block later) b.ops) _ run in
      block_offsets-Fresh (insert_block b.block pc offsets) (pc + n) later out b.block rest fresh
      ∙ insert_block_self b.block pc offsets

  next_mapped :
      (offsets : BlockMap) (pc : ℕ) (later : List (BasicBlock Op)) (out : BlockMap)
      → block_offsets t offsets pc later ≡ ok out
      → Distinct later
      → NextAt out later pc
  next_mapped offsets pc [] out run distinct n e = cc
  next_mapped offsets pc (b ∷ later) out run (fresh, distinct) n e =
      subst (λ (k : Block). out k ≡ some pc) (inner e)
        (first_mapped offsets pc b later out run fresh)
    where
      inner : {k : Block} → some b.block ≡ some k → b.block ≡ k
      inner h = cc

  module _ (refs : Refs) where
    -- After the first block the map goes on where its code ends.
    step_offsets :
        (offsets : BlockMap) (pc : ℕ) (b : BasicBlock Op) (later : List (BasicBlock Op))
        (out : BlockMap) (o : Encoded Fixup)
        → encode_ops t (next_block later) refs pc b.ops ≡ ok o
        → block_offsets t offsets pc (b ∷ later) ≡ ok out
        → block_offsets t (insert_block b.block pc offsets) (pc + length o.bytes) later ≡ ok out
    unfolding block_offsets
    step_offsets offsets pc b later out o run_o run =
        rw (encode_ops-block_size t refs (next_block later) b.ops pc o run_o) at run

    pub encode_blocks-Placed :
        (before : List (BasicBlock Op)) (b : BasicBlock Op) (later : List (BasicBlock Op))
        (offsets out : BlockMap) (pc : ℕ) (e : Encoded Fixup)
        → Distinct (before ++ (b ∷ later))
        → block_offsets t offsets pc (before ++ (b ∷ later)) ≡ ok out
        → encode_blocks t refs pc (before ++ (b ∷ later)) ≡ ok e
        → Placed refs pc e out b later
    unfolding encode_blocks
    encode_blocks-Placed [] b later offsets out pc e (fresh, distinct) map run =
        let (o, run_o, rest_run) =
          >>=-eq-ok (encode_ops t (next_block later) refs pc b.ops) _ run in
        let (rest, run_rest, e_ok) =
          >>=-eq-ok (encode_blocks t refs (pc + length o.bytes) later) _ rest_run in
        subst (λ (c : Encoded Fixup). Placed refs pc c out b later)
          (ok-injective (extended o rest) e e_ok)
          (record {
            place = pc;
            code = o;
            mapped = first_mapped offsets pc b later out map fresh;
            encoded = run_o;
            stands = StandsIn-first pc o.bytes rest.bytes;
            follows =
                next_mapped (insert_block b.block pc offsets) (pc + length o.bytes) later out
                  (step_offsets offsets pc b later out o run_o map) distinct;
          })
    encode_blocks-Placed (a ∷ before) b later offsets out pc e (fresh, distinct) map run =
        let next = next_block (before ++ (b ∷ later)) in
        let (o, run_o, rest_run) = >>=-eq-ok (encode_ops t next refs pc a.ops) _ run in
        let (rest, run_rest, e_ok) =
          >>=-eq-ok (encode_blocks t refs (pc + length o.bytes) (before ++ (b ∷ later))) _
            rest_run in
        let p =
          encode_blocks-Placed before b later (insert_block a.block pc offsets) out
            (pc + length o.bytes) rest distinct
            (step_offsets offsets pc a (before ++ (b ∷ later)) out o run_o map) run_rest in
        subst (λ (c : Encoded Fixup). Placed refs pc c out b later)
          (ok-injective (extended o rest) e e_ok)
          (record {
            place = p.place;
            code = p.code;
            mapped = p.mapped;
            encoded = p.encoded;
            stands = StandsIn-later pc p.place o.bytes rest.bytes p.code.bytes p.stands;
            follows = p.follows;
          })

  -- In a function that is encoded every block stands where `block_offsets`, by which branches are
  -- encoded, says, and the block that follows it stands where it ends.
  pub encode_func-Placed :
      (functions literals : NameMap) (pc : ℕ) (f : FuncOp Op) (e : Encoded Fixup)
      (before : List (BasicBlock Op)) (b : BasicBlock Op) (later : List (BasicBlock Op))
      → f.blocks ≡ before ++ (b ∷ later)
      → Distinct f.blocks
      → encode_func t functions literals pc f ≡ ok e
      → (out : BlockMap) × (block_offsets t no_blocks pc f.blocks ≡ ok out)
        × Placed (refs_with t functions literals out) pc e out b later
  encode_func-Placed functions literals pc f e before b later split distinct run =
      let (out, map, code) = >>=-eq-ok (block_offsets t no_blocks pc f.blocks) _ run in
      (
        out,
        map,
        encode_blocks-Placed (refs_with t functions literals out) before b later no_blocks out pc e
            (subst Distinct split distinct)
            (subst (λ bs. block_offsets t no_blocks pc bs ≡ ok out) split map)
            (subst (λ bs. encode_blocks t (refs_with t functions literals out) pc bs ≡ ok e) split
              code),
      )

-- A block is one of some blocks.
abbrev pub InFunc : {Op : Type 0} → Block → List (BasicBlock Op) → Type 0
InFunc block [] = ⊥
InFunc block (b ∷ blocks) = (b.block ≡ block) ⊎ InFunc block blocks

-- The blocks before and after it.
pub record SplitAt {Op : Type 0} (block : Block) (blocks : List (BasicBlock Op)) : Type 0 where
  pub before : List (BasicBlock Op)
  pub it : BasicBlock Op
  pub later : List (BasicBlock Op)
  pub split : blocks ≡ before ++ (it ∷ later)
  pub same : it.block ≡ block

pub InFunc-SplitAt :
    {Op : Type 0} (block : Block) (blocks : List (BasicBlock Op))
    → InFunc block blocks
    → SplitAt block blocks
InFunc-SplitAt block [] found = elim found [ ]
InFunc-SplitAt block (b ∷ blocks) (inl e) = record {
  before = [];
  it = b;
  later = blocks;
  split = refl;
  same = e;
}
InFunc-SplitAt block (b ∷ blocks) (inr found) =
    let s = InFunc-SplitAt block blocks found in
    record {
      before = b ∷ s.before;
      it = s.it;
      later = s.later;
      split = ap (λ bs. b ∷ bs) s.split;
      same = s.same;
    }
