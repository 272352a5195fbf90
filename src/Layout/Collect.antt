-- ===== src/Layout/Collect.antt =====
-- crates/pliron-ll/src/passes/aarch64/aarch64_encode.rs, `collect_literals`: the literals of all
-- operations.
use Prim.Native.String.{String}
use crabbit.Prelude.{ℕ, ◌≡◌, inl, inr}
use crabbit.Prelude.{Option, some, none, List, [], ◌∷◌, ◌⊎◌}
use crabbit.Layout.{Literals, Target, BasicBlock, or_insert_literal, collect_ops, collect_literals}
use crabbit.Layout.Literals.{
  Present, Consistent, LiteralFrom, or_insert-Present_self, or_insert-Present, or_insert-Consistent,
}

module _ {Op Fixup : Type 0} (t : Target Op Fixup) where
  -- Operations whose literals have the bytes of their labels.
  abbrev pub OpsFrom : (String → List ℕ) → List Op → Type 0
  OpsFrom bytes_of [] = Unit
  OpsFrom bytes_of (op ∷ ops) = LiteralFrom bytes_of (t.literal op) × OpsFrom bytes_of ops

  abbrev pub BlocksFrom : (String → List ℕ) → List (BasicBlock Op) → Type 0
  BlocksFrom bytes_of [] = Unit
  BlocksFrom bytes_of (b ∷ blocks) = OpsFrom bytes_of b.ops × BlocksFrom bytes_of blocks

  -- Some operation has a literal with a label.
  abbrev pub InOps : String → List Op → Type 0
  InOps label [] = ⊥
  InOps label (op ∷ ops) =
      ((bytes : List ℕ) × (t.literal op ≡ some (label, bytes))) ⊎ InOps label ops

  abbrev pub InBlocks : String → List (BasicBlock Op) → Type 0
  InBlocks label [] = ⊥
  InBlocks label (b ∷ blocks) = InOps label b.ops ⊎ InBlocks label blocks

  or_insert_literal-Present :
      (o : Option (String × List ℕ)) (literals : Literals) (label : String)
      → Present label literals
      → Present label (or_insert_literal t o literals)
  or_insert_literal-Present none literals label p = p
  or_insert_literal-Present (some (l, b)) literals label p = or_insert-Present label l b literals p

  or_insert_literal-Consistent :
      (bytes_of : String → List ℕ) (o : Option (String × List ℕ)) (literals : Literals)
      → LiteralFrom bytes_of o
      → Consistent bytes_of literals
      → Consistent bytes_of (or_insert_literal t o literals)
  or_insert_literal-Consistent bytes_of none literals e all = all
  or_insert_literal-Consistent bytes_of (some (l, b)) literals e all =
      or_insert-Consistent bytes_of l b literals e all

  collect_ops-Present :
      (ops : List Op) (literals : Literals) (label : String)
      → Present label literals
      → Present label (collect_ops t ops literals)
  unfolding collect_ops
  collect_ops-Present [] literals label p = p
  collect_ops-Present (op ∷ ops) literals label p =
      collect_ops-Present ops _ label (or_insert_literal-Present (t.literal op) literals label p)

  collect_ops-found :
      (ops : List Op) (literals : Literals) (label : String)
      → InOps label ops
      → Present label (collect_ops t ops literals)
  unfolding collect_ops
  collect_ops-found [] literals label found = elim found [ ]
  collect_ops-found (op ∷ ops) literals label (inl (bytes, e)) =
      collect_ops-Present ops _ label (rw e (or_insert-Present_self label bytes literals))
  collect_ops-found (op ∷ ops) literals label (inr found) = collect_ops-found ops _ label found

  pub collect_literals-Present :
      (blocks : List (BasicBlock Op)) (literals : Literals) (label : String)
      → Present label literals
      → Present label (collect_literals t blocks literals)
  unfolding collect_literals
  collect_literals-Present [] literals label p = p
  collect_literals-Present (b ∷ blocks) literals label p =
      collect_literals-Present blocks _ label (collect_ops-Present b.ops literals label p)

  pub collect_literals-found :
      (blocks : List (BasicBlock Op)) (literals : Literals) (label : String)
      → InBlocks label blocks
      → Present label (collect_literals t blocks literals)
  unfolding collect_literals
  collect_literals-found [] literals label found = elim found [ ]
  collect_literals-found (b ∷ blocks) literals label (inl found) =
      collect_literals-Present blocks _ label (collect_ops-found b.ops literals label found)
  collect_literals-found (b ∷ blocks) literals label (inr found) =
      collect_literals-found blocks _ label found

  collect_ops-Consistent :
      (bytes_of : String → List ℕ) (ops : List Op) (literals : Literals)
      → OpsFrom bytes_of ops
      → Consistent bytes_of literals
      → Consistent bytes_of (collect_ops t ops literals)
  unfolding collect_ops
  collect_ops-Consistent bytes_of [] literals from all = all
  collect_ops-Consistent bytes_of (op ∷ ops) literals (e, from) all =
      collect_ops-Consistent bytes_of ops _ from
        (or_insert_literal-Consistent bytes_of (t.literal op) literals e all)

  pub collect_literals-Consistent :
      (bytes_of : String → List ℕ) (blocks : List (BasicBlock Op)) (literals : Literals)
      → BlocksFrom bytes_of blocks
      → Consistent bytes_of literals
      → Consistent bytes_of (collect_literals t blocks literals)
  unfolding collect_literals
  collect_literals-Consistent bytes_of [] literals from all = all
  collect_literals-Consistent bytes_of (b ∷ blocks) literals (e, from) all =
      collect_literals-Consistent bytes_of blocks _ from
        (collect_ops-Consistent bytes_of b.ops literals e all)
