-- ===== src/X86/Placement/Keeps.antt =====
-- crates/pliron-ll/src/passes/x86_64_darwin/x86_64_block_placement.rs, `place_blocks`: the new layout
-- has the blocks of the function, and they go where they went.
use mathlib.Core.List.{Memᴰ}
use crabbit.Prelude.{ℕ, suc, ◌≡◌, refl, sym, ◌∙◌, ap, arith, length, ltb, not_ltb→le}
use crabbit.Prelude.{Bool, Bool-cases, inl, inr, get_elem?, get_lt, lt_get}
use crabbit.Prelude.{some, List, [], ◌∷◌}
use crabbit.Prelude.Result.{ok}
use crabbit.X86.Placement.{reordered, place_blocks}
use crabbit.X86.Placement.Flow.{
  BasicBlock, materialize_fallthrough_branches, simplify_branches_for_layout,
}
use crabbit.X86.Placement.Chain.{CfgEdge, HotPathInfo, machine_cfg_edges, none_placed, place}
use crabbit.X86.Placement.Edges.{machine_cfg_edges-Within, length-machine_cfg_edges}
use crabbit.X86.Placement.Order.{PlacedOnce, chain_order-PlacedOnce}
use crabbit.X86.Placement.Processor.{Processor, run}
use crabbit.X86.Placement.Blocks.{
  block_of, next_of, AllShaped, LastEnds, materialize-Explicit, simplify-Simplified,
}

length-materialize :
    (blocks : List BasicBlock) → length (materialize_fallthrough_branches blocks) ≡ length blocks
unfolding materialize_fallthrough_branches
length-materialize [] = refl
length-materialize (b ∷ []) = refl
length-materialize (b ∷ next ∷ blocks) = ap suc (length-materialize (next ∷ blocks))

length-simplify :
    (blocks : List BasicBlock) → length (simplify_branches_for_layout blocks) ≡ length blocks
unfolding simplify_branches_for_layout
length-simplify [] = refl
length-simplify (b ∷ []) = refl
length-simplify (b ∷ next ∷ blocks) = ap suc (length-simplify (next ∷ blocks))

materialize-first :
    (blocks : List BasicBlock)
    → block_of (get_elem? (materialize_fallthrough_branches blocks) 0)
      ≡ block_of (get_elem? blocks 0)
unfolding materialize_fallthrough_branches
materialize-first [] = refl
materialize-first (b ∷ []) = refl
materialize-first (b ∷ next ∷ blocks) = refl

simplify-first :
    (blocks : List BasicBlock)
    → block_of (get_elem? (simplify_branches_for_layout blocks) 0) ≡ block_of (get_elem? blocks 0)
unfolding simplify_branches_for_layout
simplify-first [] = refl
simplify-first (b ∷ []) = refl
simplify-first (b ∷ next ∷ blocks) = refl

-- The blocks of an order, at their places in it.
record Reordered (blocks : List BasicBlock) (order : List ℕ) : Type 0 where
  layout : List BasicBlock
  run_order : reordered blocks order ≡ ok layout
  counted : length layout ≡ length order
  found : (i : ℕ) → Memᴰ i order → (k : ℕ) × (get_elem? layout k ≡ get_elem? blocks i)
  first : (j : ℕ) (rest : List ℕ) → order ≡ j ∷ rest → get_elem? layout 0 ≡ get_elem? blocks j

takes_blocks :
    (blocks : List BasicBlock) (order : List ℕ) (placed : ℕ → Bool)
    → PlacedOnce (length blocks) placed order
    → Reordered blocks order
unfolding reordered
takes_blocks blocks [] placed once = record {
  layout = [];
  run_order = refl;
  counted = refl;
  found = λ i member. elim member [ ];
  first = λ j rest e. cc;
}
takes_blocks blocks (j ∷ order) placed ((free, low), once) =
    let (b, at_j) = get_lt blocks j low in
    let rest = takes_blocks blocks order (place j placed) once in
    record {
      layout = b ∷ rest.layout;
      run_order = rw (at_j, rest.run_order) refl;
      counted = ap suc rest.counted;
      found = find b at_j rest;
      first = λ n later e. sym at_j ∙ ap (λ (m : ℕ). get_elem? blocks m) (heads n later e);
    }
  where
    heads : (n : ℕ) (later : List ℕ) → j ∷ order ≡ n ∷ later → j ≡ n
    heads n later e = cc

    find :
        (b : BasicBlock)
        → get_elem? blocks j ≡ some b
        → (rest : Reordered blocks order) → (i : ℕ) → Memᴰ i (j ∷ order)
        → (k : ℕ) × (get_elem? (b ∷ rest.layout) k ≡ get_elem? blocks i)
    find b at_j rest i (Memᴰ.head e) = (0, sym at_j ∙ ap (λ (n : ℕ). get_elem? blocks n) (sym e))
    find b at_j rest i (Memᴰ.tail member) = let (k, e) = rest.found i member in (suc k, e)

module _ {S : Type 0} (p : Processor S) where
  -- A block of the function is in the layout, and goes where it went.
  pub record Kept (blocks out : List BasicBlock) (i : ℕ) (b : BasicBlock) : Type 0 where
    pub index : ℕ
    pub it : BasicBlock
    pub found : get_elem? out index ≡ some it
    pub same : it.block ≡ b.block
    pub goes : (s : S) → run p (next_of out index) it.ops s ≡ run p (next_of blocks i) b.ops s

  -- The layout of a function.
  pub record KeptAll (blocks out : List BasicBlock) : Type 0 where
    pub counted : length out ≡ length blocks
    pub entry : block_of (get_elem? out 0) ≡ block_of (get_elem? blocks 0)
    pub kept : (i : ℕ) (b : BasicBlock) → get_elem? blocks i ≡ some b → Kept blocks out i b

  small : (blocks : List BasicBlock) → KeptAll blocks blocks
  small blocks = record {
    counted = refl;
    entry = refl;
    kept = λ i b found. record { index = i; it = b; found = found; same = refl; goes = λ s. refl };
  }

  module _ (blocks : List BasicBlock) (shaped : AllShaped blocks) (last : LastEnds blocks) where
    abbrev explicit : List BasicBlock
    explicit = materialize_fallthrough_branches blocks

    -- A block that an order has.
    at_index :
        (order : List ℕ) (r : Reordered explicit order) (i : ℕ) (b : BasicBlock)
        → Memᴰ i order
        → get_elem? blocks i ≡ some b
        → Kept blocks (simplify_branches_for_layout r.layout) i b
    at_index order r i b member found =
        let (e, at_i, x) = materialize-Explicit p blocks i b shaped last found in
        let (k, at_k) = r.found i member in
        let (c, at_out, y) = simplify-Simplified p r.layout k e (at_k ∙ at_i) x.shaped in
        record {
          index = k;
          it = c;
          found = at_out;
          same = y.same ∙ x.same;
          goes = λ s. y.goes s ∙ x.goes (next_of r.layout k) s;
        }

  -- For any frequencies: a function whose blocks have their branches at their ends, at most one of
  -- them conditional, and whose last block does not fall through gets a layout of as many blocks,
  -- the entry first, in which every block goes where it went, on every state.
  pub place_blocks-KeptAll :
      (from_edges : List (List CfgEdge) → HotPathInfo) (blocks : List BasicBlock)
      → AllShaped blocks
      → LastEnds blocks
      → (out : List BasicBlock) × (place_blocks from_edges blocks ≡ ok out) × KeptAll blocks out
  unfolding place_blocks reordered
  place_blocks-KeptAll from_edges blocks shaped last = elim (Bool-cases (ltb (length blocks) 2)) [
    | inl h ↦ (blocks, rw h refl, small blocks)
    | inr h ↦
        let all = materialize_fallthrough_branches blocks in
        let successors = machine_cfg_edges all all in
        let count = length-materialize blocks in
        let (order, chained, once, covers, total) =
          chain_order-PlacedOnce successors (from_edges successors) (length all)
            (machine_cfg_edges-Within all all) (length-machine_cfg_edges all all)
            (omega (arith, count, not_ltb→le (length blocks) 2 h)) in
        let r = takes_blocks all (0 ∷ order) none_placed once in
        let first = r.first 0 order refl in
        (
          simplify_branches_for_layout r.layout,
          rw (h, chained, r.run_order) refl,
          record {
            counted = length-simplify r.layout ∙ r.counted ∙ total ∙ count;
            entry = simplify-first r.layout ∙ ap block_of first ∙ materialize-first blocks;
            kept = λ i b found.
                at_index blocks shaped last (0 ∷ order) r i b
                  (covers i (omega (arith, count, lt_get blocks i b found)) refl) found;
          },
        )
  ]
