-- ===== src/X86/Placement/Blocks.antt =====
-- crates/pliron-ll/src/passes/x86_64_darwin/x86_64_block_placement.rs, `place_blocks`: the blocks of a
-- function go where they went.
use mathlib.Core.Option.{some-injective}
use crabbit.Prelude.{ℕ, zero, suc, ◌≡◌, refl, ◌∙◌, ap}
use crabbit.Prelude.{get_elem?}
use crabbit.Prelude.{Option, none, some, List, [], ◌∷◌, ◌++◌}
use crabbit.X86.Inst.{Block}
use crabbit.X86.Placement.Flow.{
  MachineOp, BasicBlock, ControlFlowOp, classify_control_flow, seen, block_control_flow, jmp,
  materialized, materialized_as, materialize_fallthrough_branches, simplified,
  simplify_branches_for_layout,
}
use crabbit.X86.Placement.Processor.{Processor, run}
use crabbit.X86.Placement.Branches.{IsEnd, Shaped, ShapedAs, run-ended, run-materialized}
use crabbit.X86.Placement.Simplify.{run-simplified}

-- The block that follows an index in the layout.
abbrev pub block_of : Option BasicBlock → Option Block
block_of none = none
block_of (some b) = some b.block

abbrev pub next_of : List BasicBlock → ℕ → Option Block
next_of blocks i = block_of (get_elem? blocks (suc i))

-- The branches of every block stand at its end.
abbrev pub AllShaped : List BasicBlock → Type 0
AllShaped [] = Unit
AllShaped (b ∷ blocks) = Shaped b.ops × AllShaped blocks

-- The last block does not fall through.
abbrev pub LastEnds : List BasicBlock → Type 0
LastEnds [] = Unit
LastEnds (b ∷ []) = (end : ControlFlowOp) × ((block_control_flow b.ops).1 ≡ some end)
LastEnds (b ∷ next ∷ blocks) = LastEnds (next ∷ blocks)

append_jmp-Shaped :
    (next : Block) (ops : List MachineOp)
    → Shaped ops
    → (block_control_flow ops).1 ≡ none
    → Shaped (ops ++ (jmp next ∷ []))
unfolding block_control_flow classify_control_flow
append_jmp-Shaped next [] shaped e = tt
append_jmp-Shaped next (op ∷ ops) shaped e =
    go (classify_control_flow op) ops shaped e (λ s h. append_jmp-Shaped next ops s h)
  where
    go :
        (c : Option ControlFlowOp) (rest : List MachineOp)
        → ShapedAs c rest (Shaped rest)
        → (seen op c (block_control_flow rest)).1 ≡ none
        → (Shaped rest → (block_control_flow rest).1 ≡ none → Shaped (rest ++ (jmp next ∷ [])))
        → ShapedAs c (rest ++ (jmp next ∷ [])) (Shaped (rest ++ (jmp next ∷ [])))
    go none rest shape h more = more shape h
    go (some (ControlFlowOp.conditional to weights)) [] shape h more = tt
    go (some (ControlFlowOp.conditional to weights)) (end ∷ []) shape h more =
        absurd (ends (classify_control_flow end) shape h)
      where
        ends : (c : Option ControlFlowOp) → IsEnd c → (seen end c ([], none)).1 ≡ none → ⊥
        ends none is_end k = is_end
        ends (some (ControlFlowOp.conditional t w)) is_end k = is_end
        ends (some (ControlFlowOp.unconditional t)) is_end k = cc
        ends (some ControlFlowOp.exit) is_end k = cc
    go (some (ControlFlowOp.conditional to weights)) (end ∷ x ∷ rest) shape h more = absurd shape
    go (some (ControlFlowOp.unconditional to)) rest shape h more = cc
    go (some ControlFlowOp.exit) rest shape h more = cc

materialized-Shaped :
    (next : Block) (ops : List MachineOp) → Shaped ops → Shaped (materialized next ops)
unfolding materialized
materialized-Shaped next ops shaped = go (block_control_flow ops).1 refl
  where
    go :
        (end : Option ControlFlowOp)
        → (block_control_flow ops).1 ≡ end
        → Shaped (materialized_as next end ops)
    go none e = append_jmp-Shaped next ops shaped e
    go (some end) e = shaped

module _ {S : Type 0} (p : Processor S) where
  -- A block of the one list goes where that of the other goes.
  pub record Explicit (blocks : List BasicBlock) (i : ℕ) (b e : BasicBlock) : Type 0 where
    pub same : e.block ≡ b.block
    pub shaped : Shaped e.ops
    pub goes : (next : Option Block) (s : S) → run p next e.ops s ≡ run p (next_of blocks i) b.ops s

  pub materialize-Explicit :
      (blocks : List BasicBlock) (i : ℕ) (b : BasicBlock)
      → AllShaped blocks
      → LastEnds blocks
      → get_elem? blocks i ≡ some b
      → (e : BasicBlock) × (get_elem? (materialize_fallthrough_branches blocks) i ≡ some e)
        × Explicit blocks i b e
  unfolding materialize_fallthrough_branches
  materialize-Explicit [] i b shaped last found = cc
  materialize-Explicit (a ∷ []) zero b (shaped, all) (end, ends) found =
      let same = some-injective a b found in
      (
        a,
        refl,
        record {
          same = ap (λ (c : BasicBlock). c.block) same;
          shaped = shaped;
          goes = λ next s.
              run-ended p next none a.ops end s ends
              ∙ ap (λ (c : BasicBlock). run p none c.ops s) same;
        },
      )
  materialize-Explicit (a ∷ []) (suc i) b shaped last found = cc
  materialize-Explicit (a ∷ next ∷ blocks) zero b (shaped, all) last found =
      let same = some-injective a b found in
      (
        record a { ops = materialized next.block a.ops },
        refl,
        record {
          same = ap (λ (c : BasicBlock). c.block) same;
          shaped = materialized-Shaped next.block a.ops shaped;
          goes = λ other s.
              run-materialized p next.block other a.ops s
              ∙ ap (λ (c : BasicBlock). run p (some next.block) c.ops s) same;
        },
      )
  materialize-Explicit (a ∷ next ∷ blocks) (suc i) b (shaped, all) last found =
      let (e, at_i, x) = materialize-Explicit (next ∷ blocks) i b all last found in
      (e, at_i, record { same = x.same; shaped = x.shaped; goes = x.goes })

  -- A block of the layout goes where it went when its branches have been simplified.
  pub record Simplified (layout out : List BasicBlock) (k : ℕ) (e b : BasicBlock) : Type 0 where
    pub same : b.block ≡ e.block
    pub goes : (s : S) → run p (next_of out k) b.ops s ≡ run p (next_of layout k) e.ops s

  first_block :
      (b : BasicBlock) (rest : List BasicBlock)
      → block_of (get_elem? (simplify_branches_for_layout (b ∷ rest)) 0) ≡ some b.block
  unfolding simplify_branches_for_layout
  first_block b [] = refl
  first_block b (next ∷ rest) = refl

  pub simplify-Simplified :
      (layout : List BasicBlock) (k : ℕ) (e : BasicBlock)
      → get_elem? layout k ≡ some e
      → Shaped e.ops
      → (b : BasicBlock) × (get_elem? (simplify_branches_for_layout layout) k ≡ some b)
        × Simplified layout (simplify_branches_for_layout layout) k e b
  unfolding simplify_branches_for_layout
  simplify-Simplified [] k e found shaped = cc
  simplify-Simplified (a ∷ []) zero e found shaped =
      (e, found, record { same = refl; goes = λ s. refl })
  simplify-Simplified (a ∷ []) (suc k) e found shaped = cc
  simplify-Simplified (a ∷ next ∷ rest) zero e found shaped =
      let same = some-injective a e found in
      (
        record e { ops = simplified next.block e.ops },
        ap (λ (c : BasicBlock). some (record c { ops = simplified next.block c.ops })) same,
        record {
          same = refl;
          goes = λ s.
              ap (λ (n : Option Block). run p n (simplified next.block e.ops) s)
                (first_block next rest)
              ∙ run-simplified p next.block e.ops s shaped;
        },
      )
  simplify-Simplified (a ∷ next ∷ rest) (suc k) e found shaped =
      let (b, at_k, x) = simplify-Simplified (next ∷ rest) k e found shaped in
      (b, at_k, record { same = x.same; goes = x.goes })
