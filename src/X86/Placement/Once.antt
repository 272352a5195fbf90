-- ===== src/X86/Placement/Once.antt =====
-- crates/pliron-ll/src/passes/x86_64_darwin/x86_64_block_placement.rs, `chain_order`: every block is
-- placed once.
use mathlib.Core.Path.{subst}
use mathlib.Core.List.{Memᴰ}
use mathlib.Core.Option.{some-injective}
use crabbit.Prelude.{ℕ, zero, suc, ◌+◌, ◌≤◌, ◌<◌, ◌==◌, ◌≡◌, refl, sym, ap, arith}
use crabbit.Prelude.{Bool, true, false, Bool-cases, inl, inr, some, if◌then◌else◌}
use crabbit.Prelude.{List, [], ◌∷◌, ==_iff, length, get_elem?}
use crabbit.X86.Placement.Chain.{
  CfgEdge, key_le, best, max_by_key, unplaced, targets, range, place, none_placed,
}

best-mem : (frequency : ℕ → ℕ) (b : ℕ) (xs : List ℕ) → Memᴰ (best frequency b xs) (b ∷ xs)
unfolding best
best-mem frequency b [] = Memᴰ.head refl
best-mem frequency b (x ∷ xs) =
    go (key_le frequency b x) (best-mem frequency (if key_le frequency b x then x else b) xs)
  where
    go :
        (t : Bool)
        → Memᴰ (best frequency (if t then x else b) xs) ((if t then x else b) ∷ xs)
        → Memᴰ (best frequency (if t then x else b) xs) (b ∷ x ∷ xs)
    go true member = Memᴰ.tail member
    go false (Memᴰ.head e) = Memᴰ.head e
    go false (Memᴰ.tail member) = Memᴰ.tail (Memᴰ.tail member)

pub unplaced-mem :
    (placed : ℕ → Bool) (blocks : List ℕ) (b : ℕ)
    → Memᴰ b (unplaced placed blocks)
    → (placed b ≡ false) × Memᴰ b blocks
unfolding unplaced
unplaced-mem placed [] b member = elim member [ ]
unplaced-mem placed (c ∷ blocks) b member =
    go (placed c) refl (λ m. unplaced-mem placed blocks b m) member
  where
    go :
        (t : Bool)
        → placed c ≡ t
        → (Memᴰ b (unplaced placed blocks) → (placed b ≡ false) × Memᴰ b blocks)
        → Memᴰ b (if t then unplaced placed blocks else c ∷ unplaced placed blocks)
        → (placed b ≡ false) × Memᴰ b (c ∷ blocks)
    go true e rest m = let (f, later) = rest m in (f, Memᴰ.tail later)
    go false e rest (Memᴰ.head same) =
        (subst (λ (k : ℕ). placed k ≡ false) (sym same) e, Memᴰ.head same)
    go false e rest (Memᴰ.tail m) = let (f, later) = rest m in (f, Memᴰ.tail later)

pub range-mem : (start count b : ℕ) → Memᴰ b (range start count) → b < start + count
unfolding range
range-mem start zero b member = elim member [ ]
range-mem start (suc count) b (Memᴰ.head e) = omega (arith, e)
range-mem start (suc count) b (Memᴰ.tail member) =
    omega (arith, range-mem (suc start) count b member)

-- How many of some blocks are not placed.
abbrev pub free : (ℕ → Bool) → ℕ → ℕ → ℕ
free placed start count = length (unplaced placed (range start count))

pub free-all : (start count : ℕ) → free none_placed start count ≡ count
unfolding unplaced range
free-all start zero = refl
free-all start (suc count) = ap suc (free-all (suc start) count)

-- Blocks before the range do not matter.
free-before :
    (placed : ℕ → Bool) (b start count : ℕ)
    → b < start
    → free (place b placed) start count ≡ free placed start count
unfolding unplaced range
free-before placed b start zero low = refl
free-before placed b start (suc count) low =
    let other : (start == b) ≡ false = ground arith in
    let rest = free-before placed b (suc start) count (omega arith) in
    elim (Bool-cases (placed start)) [
      | inl h ↦ rw (other, h) rest
      | inr h ↦ rw (other, h) (ap suc rest)
    ]

-- Placing a block leaves one less.
pub free-place :
    (placed : ℕ → Bool) (b start count : ℕ)
    → start ≤ b
    → b < start + count
    → placed b ≡ false
    → suc (free (place b placed) start count) ≡ free placed start count
unfolding unplaced range
free-place placed b start zero first last e = absurd (omega arith)
free-place placed b start (suc count) first last e = elim (Bool-cases (start == b)) [
  | inl h ↦
      let same : start ≡ b = (==_iff start b).0 h in
      let open_here : placed start ≡ false = rw same e in
      rw (h, open_here) (ap suc (free-before placed b (suc start) count (omega arith)))
  | inr h ↦
      let apart : start < b = ground arith in
      let rest = free-place placed b (suc start) count (omega arith) (omega arith) e in
      elim (Bool-cases (placed start)) [ inl k ↦ rw (h, k) rest | inr k ↦ rw (h, k) (ap suc rest) ]
]

pub free-none :
    (placed : ℕ → Bool) (b start count : ℕ)
    → free placed start count ≡ 0
    → start ≤ b
    → b < start + count
    → placed b ≡ true
unfolding unplaced range
free-none placed b start zero full first last = absurd (omega arith)
free-none placed b start (suc count) full first last = elim (Bool-cases (placed start)) [
  | inr h ↦ absurd (omega (arith, rw h at full))
  | inl h ↦ elim (Bool-cases (start == b)) [
    | inl same ↦ subst (λ (k : ℕ). placed k ≡ true) ((==_iff start b).0 same) h
    | inr apart ↦ free-none placed b (suc start) count (rw h at full) (ground arith) (omega arith)
  ]
]

-- The edges lead to blocks that there are.
abbrev pub EdgesWithin : ℕ → List CfgEdge → Type 0
EdgesWithin count [] = Unit
EdgesWithin count (edge ∷ edges) = (edge.to < count) × EdgesWithin count edges

abbrev pub Within : ℕ → List (List CfgEdge) → Type 0
Within count [] = Unit
Within count (edges ∷ successors) = EdgesWithin count edges × Within count successors

pub targets-mem :
    (count : ℕ) (edges : List CfgEdge) (b : ℕ)
    → EdgesWithin count edges
    → Memᴰ b (targets edges)
    → b < count
unfolding targets
targets-mem count [] b within member = elim member [ ]
targets-mem count (edge ∷ edges) b (low, within) (Memᴰ.head e) = omega (arith, low, e)
targets-mem count (edge ∷ edges) b (low, within) (Memᴰ.tail member) =
    targets-mem count edges b within member

pub edges_of :
    (count : ℕ) (successors : List (List CfgEdge)) (i : ℕ)
    → Within count successors
    → i < length successors
    → (edges : List CfgEdge) × (get_elem? successors i ≡ some edges) × EdgesWithin count edges
edges_of count [] i within low = absurd (omega arith)
edges_of count (edges ∷ successors) zero (here, within) low = (edges, refl, here)
edges_of count (edges ∷ successors) (suc i) (here, within) low =
    edges_of count successors i within (omega arith)

pub max_by_key-mem :
    (frequency : ℕ → ℕ) (blocks : List ℕ) (b : ℕ)
    → max_by_key frequency blocks ≡ some b
    → Memᴰ b blocks
max_by_key-mem frequency [] b e = cc
max_by_key-mem frequency (x ∷ xs) b e =
    subst (λ (k : ℕ). Memᴰ k (x ∷ xs)) (some-injective (best frequency x xs) b e)
      (best-mem frequency x xs)

pub max_by_key-some :
    (frequency : ℕ → ℕ) (blocks : List ℕ)
    → 0 < length blocks
    → (b : ℕ) × (max_by_key frequency blocks ≡ some b)
max_by_key-some frequency [] some_block = absurd (omega arith)
max_by_key-some frequency (x ∷ xs) some_block = (best frequency x xs, refl)
