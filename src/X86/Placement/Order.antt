-- ===== src/X86/Placement/Order.antt =====
-- crates/pliron-ll/src/passes/x86_64_darwin/x86_64_block_placement.rs, `chain_order`: the loop ends,
-- with every block placed once.
use mathlib.Core.List.{Memᴰ}
use crabbit.Prelude.{ℕ, zero, suc, ◌-◌, ◌<◌, ◌==◌, ◌≡◌, refl, sym, ◌∙◌, ap, arith, length}
use crabbit.Prelude.{Bool, false, Bool-cases, inl, inr, some}
use crabbit.Prelude.{List, [], ◌∷◌, ==_iff, Option-cases}
use crabbit.Prelude.Result.{ok, >>=-eq-ok, ok-injective}
use crabbit.X86.Placement.Chain.{
  CfgEdge, HotPathInfo, max_by_key, unplaced, targets, range, place, none_placed, next_block, chain,
  chain_order,
}
use crabbit.X86.Placement.Once.{
  unplaced-mem, range-mem, free, free-all, free-place, free-none, Within, targets-mem, edges_of,
  max_by_key-mem, max_by_key-some,
}

-- Each block is one that was not placed.
abbrev pub PlacedOnce : ℕ → (ℕ → Bool) → List ℕ → Type 0
PlacedOnce count placed [] = Unit
PlacedOnce count placed (b ∷ order) =
    ((placed b ≡ false) × (b < count)) × PlacedOnce count (place b placed) order

-- Every block that was not placed is there.
abbrev pub Covers : ℕ → (ℕ → Bool) → List ℕ → Type 0
Covers count placed order = (b : ℕ) → b < count → placed b ≡ false → Memᴰ b order

module _ (successors : List (List CfgEdge)) (info : HotPathInfo) (count : ℕ)
    (within : Within count successors) (all : length successors ≡ count) where
  abbrev Open : (ℕ → Bool) → ℕ → Type 0
  Open placed b = (placed b ≡ false) × (b < count)

  hottest-Open :
      (placed : ℕ → Bool)
      → 0 < free placed 0 count
      → (b : ℕ) × (max_by_key info.block_frequency (unplaced placed (range 0 count)) ≡ some b)
        × Open placed b
  hottest-Open placed more =
      let (b, e) = max_by_key-some info.block_frequency (unplaced placed (range 0 count)) more in
      let (f, member) =
        unplaced-mem placed (range 0 count) b
          (max_by_key-mem info.block_frequency (unplaced placed (range 0 count)) b e) in
      (b, e, (f, omega (arith, range-mem 0 count b member)))

  next_block-Open :
      (current : ℕ) (placed : ℕ → Bool)
      → current < count
      → 0 < free placed 0 count
      → (b : ℕ) × (next_block successors info count current placed ≡ ok b) × Open placed b
  unfolding next_block
  next_block-Open current placed low more =
      let (edges, found, inside) = edges_of count successors current within (omega (arith, all)) in
      let candidates = unplaced placed (targets edges) in
      elim (Option-cases (max_by_key (info.edge_frequency current) candidates)) [
        | inl none_left ↦
            let (b, e, is_open) = hottest-Open placed more in
            (b, rw (found, none_left, e) refl, is_open)
        | inr (b, e) ↦
            let (f, member) =
              unplaced-mem placed (targets edges) b
                (max_by_key-mem (info.edge_frequency current) candidates b e) in
            (b, rw (found, e) refl, (f, targets-mem count edges b inside member))
      ]

  -- Once a block is placed, the others are still to be found.
  Covers-cons :
      (placed : ℕ → Bool) (b : ℕ) (order : List ℕ)
      → Covers count (place b placed) order
      → Covers count placed (b ∷ order)
  Covers-cons placed b order covers c low e = elim (Bool-cases (c == b)) [
    | inl h ↦ Memᴰ.head ((==_iff c b).0 h)
    | inr h ↦ Memᴰ.tail (covers c low (rw h e))
  ]

  chain-PlacedOnce :
      (left current : ℕ) (placed : ℕ → Bool)
      → current < count
      → free placed 0 count ≡ left
      → (order : List ℕ) × (chain successors info count left current placed ≡ ok order)
        × PlacedOnce count placed order
        × Covers count placed order
  unfolding chain
  chain-PlacedOnce zero current placed low e = (
    [],
    refl,
    tt,
    (λ b b_low h. absurd (cc (h, free-none placed b 0 count e (omega arith) (omega arith)))),
  )
  chain-PlacedOnce (suc left) current placed low e =
      let (b, run, is_open) = next_block-Open current placed low (omega (arith, e)) in
      let less = free-place placed b 0 count (omega arith) (omega (arith, is_open.1)) is_open.0 in
      let (order, rest, once, covers) =
        chain-PlacedOnce left b (place b placed) is_open.1 (omega (arith, less, e)) in
      (b ∷ order, rw (run, rest) refl, (is_open, once), Covers-cons placed b order covers)

pub length-chain :
    (successors : List (List CfgEdge)) (info : HotPathInfo) (count left current : ℕ)
    (placed : ℕ → Bool) (order : List ℕ)
    → chain successors info count left current placed ≡ ok order
    → length order ≡ left
unfolding chain
length-chain successors info count zero current placed order e =
    ap length (sym (ok-injective [] order e))
length-chain successors info count (suc left) current placed order e =
    let (b, run, rest_run) = >>=-eq-ok (next_block successors info count current placed) _ e in
    let (rest, run_rest, order_ok) =
      >>=-eq-ok (chain successors info count left b (place b placed)) _ rest_run in
    ap length (sym (ok-injective (b ∷ rest) order order_ok))
    ∙ ap suc (length-chain successors info count left b (place b placed) rest run_rest)

-- Where every edge leads to a block, the loop ends: the order starts with the entry, has every
-- block, none twice, and as many as there are.
pub chain_order-PlacedOnce :
    (successors : List (List CfgEdge)) (info : HotPathInfo) (count : ℕ)
    → Within count successors
    → length successors ≡ count
    → 0 < count
    → (order : List ℕ) × (chain_order successors info count ≡ ok (0 ∷ order))
      × PlacedOnce count none_placed (0 ∷ order)
      × Covers count none_placed (0 ∷ order)
      × (length (0 ∷ order) ≡ count)
unfolding chain_order
chain_order-PlacedOnce successors info count within all some_block =
    let less = free-place none_placed 0 0 count (omega arith) (omega arith) refl in
    let (order, run, once, covers) =
      chain-PlacedOnce successors info count within all (count - 1) 0 (place 0 none_placed)
        some_block (omega (arith, less, free-all 0 count)) in
    (
      order,
      rw run refl,
      ((refl, some_block), once),
      Covers-cons successors info count within all none_placed 0 order covers,
      omega (
        arith,
        some_block,
        length-chain successors info count (count - 1) 0 (place 0 none_placed) order run,
      ),
    )
