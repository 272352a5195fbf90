-- ===== src/Dom/Loop.antt =====
-- crates/pliron-ll/src/passes/dominance_frontier.rs, `immediate_dominators`: the vector that the
-- loop starts with is a tree.
use mathlib.Core.Path.{subst}
use mathlib.Core.Option.{some-injective}
use crabbit.Prelude.{ℕ, ◌<◌, ◌≡◌, refl, arith, ◌==◌}
use crabbit.Prelude.{false, inl, inr, Bool-cases, some, none}
use crabbit.Dom.{entry_only}
use crabbit.Dom.Tree.{Known, Tree}

entry_only-none : (b : ℕ) → (b == 0) ≡ false → entry_only b ≡ none
entry_only-none b h = rw h refl

pub entry_only-Tree : Tree entry_only
entry_only-Tree = record { root = refl; down = at_down; linked = at_linked }
  where
    at_down : (b d : ℕ) → 0 < b → entry_only b ≡ some d → d < b
    at_down b d lt e = absurd (cc (entry_only-none b (ground arith), e))

    at_linked : (b d : ℕ) → entry_only b ≡ some d → Known entry_only d
    at_linked b d e = elim (Bool-cases (b == 0)) [
      | inl h ↦ subst (Known entry_only) (some-injective 0 d (rw h at e)) (0, refl)
      | inr h ↦ absurd (cc (entry_only-none b h, e))
    ]
