-- ===== src/Dom/Tree.antt =====
-- crates/pliron-ll/src/passes/dominance_frontier.rs, `intersect_idoms`: the tree that a vector of
-- immediate dominators stands for, and the nearest block above two blocks in it.
use crabbit.Prelude.{ℕ, zero, suc, ◌+◌, ◌≤◌, ◌<◌, ◌≡◌, refl, sym, ◌∙◌, arith, ltb, ◌==◌, ==_iff}
use crabbit.Prelude.{true, inl, inr, Bool-cases, some}
use crabbit.Prelude.{ltb→lt, not_ltb→le}
use crabbit.Prelude.Result.{ok}
use mathlib.Core.Path.{subst}
use mathlib.Core.Option.{some-injective}
use crabbit.Dom.{Idoms, climb, intersect, intersect_idoms}

abbrev pub Known : Idoms → ℕ → Type 0
Known idoms b = (d : ℕ) × (idoms b ≡ some d)

-- The entry is its own dominator, and any other block has one before it, which has one too.
pub record Tree (idoms : Idoms) : Type 0 where
  pub root : idoms 0 ≡ some 0
  pub down : (b d : ℕ) → 0 < b → idoms b ≡ some d → d < b
  pub linked : (b d : ℕ) → idoms b ≡ some d → Known idoms d

-- A block is above itself, and above what its immediate dominator is below.
pub data Above (idoms : Idoms) (a : ℕ) : ℕ → Type 0 where
  here : Above idoms a a
  up : {b d : ℕ} → idoms b ≡ some d → Above idoms a d → Above idoms a b

pub Above-trans : (idoms : Idoms) (a b c : ℕ) → Above idoms a b → Above idoms b c → Above idoms a c
Above-trans idoms a b c ab here = ab
Above-trans idoms a b c ab (up e bd) = up e (Above-trans idoms a b _ ab bd)

module _ (idoms : Idoms) (tree : Tree idoms) where
  -- The nearest block at or before a limit.
  pub record Climbed (from limit r : ℕ) : Type 0 where
    pub above : Above idoms r from
    pub low : r ≤ limit
    pub below : r ≤ from
    pub known : Known idoms r
    pub nearest : (a : ℕ) → Above idoms a from → a ≤ limit → Above idoms a r

  pub Above-up : (a b d : ℕ) → idoms b ≡ some d → a < b → Above idoms a b → Above idoms a d
  Above-up a b d e lt here = absurd (omega arith)
  Above-up a b d e lt (up {d = c} e2 ad) =
      subst (Above idoms a) (some-injective c d (sym e2 ∙ e)) ad

  stays : (from limit : ℕ) → from ≤ limit → Known idoms from → Climbed from limit from
  stays from limit low known = record {
    above = here;
    low = low;
    below = omega arith;
    known = known;
    nearest = λ a above low. above;
  }

  pub climb-Climbed :
      (fuel from limit : ℕ)
      → from ≤ fuel
      → Known idoms from
      → (r : ℕ) × (climb fuel idoms from limit ≡ ok r) × Climbed from limit r
  unfolding climb
  climb-Climbed zero from limit enough known = elim (Bool-cases (ltb limit from)) [
    | inl h ↦ absurd (omega (arith, ltb→lt limit from h))
    | inr h ↦ (from, rw h refl, stays from limit (not_ltb→le limit from h) known)
  ]
  climb-Climbed (suc fuel) from limit enough known = elim (Bool-cases (ltb limit from)) [
    | inl h ↦
        let (d, e) = known in
        let higher = ltb→lt limit from h in
        let lower = tree.down from d (omega (arith, higher)) e in
        let (r, run, c) =
          climb-Climbed fuel d limit (omega (arith, lower)) (tree.linked from d e) in
        (
          r,
          rw (h, e) run,
          record {
            above = up e c.above;
            low = c.low;
            below = omega (arith, lower, c.below);
            known = c.known;
            nearest = λ a above low.
                c.nearest a (Above-up a from d e (omega (arith, higher, low)) above) low;
          },
        )
    | inr h ↦ (from, rw h refl, stays from limit (not_ltb→le limit from h) known)
  ]

  pub Above-le : (a b : ℕ) → Above idoms a b → a ≤ b
  Above-le a b here = omega arith
  Above-le a zero (up {d = d} e above) =
      subst (λ t. a ≤ t) (some-injective d 0 (sym e ∙ tree.root)) (Above-le a d above)
  Above-le a (suc b) (up {d = d} e above) =
      omega (arith, Above-le a d above, tree.down (suc b) d (omega arith) e)

  -- The nearest block above two blocks.
  pub record Nearest (lhs rhs r : ℕ) : Type 0 where
    pub above_lhs : Above idoms r lhs
    pub above_rhs : Above idoms r rhs
    pub known : Known idoms r
    pub nearest : (a : ℕ) → Above idoms a lhs → Above idoms a rhs → Above idoms a r

  Nearest-self : (b : ℕ) → Known idoms b → Nearest b b b
  Nearest-self b known = record {
    above_lhs = here;
    above_rhs = here;
    known = known;
    nearest = λ a l r. l;
  }

  -- What is nearest for two blocks above the given ones, and no nearer, is nearest for those.
  Nearest-Climbed :
      (lhs rhs l r t : ℕ) → Climbed lhs rhs l → Climbed rhs l r → Nearest l r t → Nearest lhs rhs t
  Nearest-Climbed lhs rhs l r t cl cr n = record {
    above_lhs = Above-trans idoms t l lhs n.above_lhs cl.above;
    above_rhs = Above-trans idoms t r rhs n.above_rhs cr.above;
    known = n.known;
    nearest = λ a above_l above_r.
        let at_l = cl.nearest a above_l (Above-le a rhs above_r) in
        n.nearest a at_l (cr.nearest a above_r (Above-le a l at_l));
  }

  intersect-Nearest :
      (fuel lhs rhs : ℕ)
      → lhs + rhs ≤ fuel
      → Known idoms lhs
      → Known idoms rhs
      → (t : ℕ) × (intersect fuel idoms lhs rhs ≡ ok t) × Nearest lhs rhs t
  unfolding intersect
  intersect-Nearest zero lhs rhs enough known_l known_r = (lhs, rw equal refl, self)
    where
      equal : (lhs == rhs) ≡ true
      equal = ground arith

      self : Nearest lhs rhs lhs
      self = subst (λ t. Nearest lhs t lhs) ((==_iff lhs rhs).0 equal) (Nearest-self lhs known_l)
  intersect-Nearest (suc fuel) lhs rhs enough known_l known_r = elim (Bool-cases (lhs == rhs)) [
    | inl h ↦ (
      lhs,
      rw h refl,
      subst (λ t. Nearest lhs t lhs) ((==_iff lhs rhs).0 h) (Nearest-self lhs known_l),
    )
    | inr h ↦
        let (l, run_l, cl) = climb-Climbed lhs lhs rhs (omega arith) known_l in
        let (r, run_r, cr) = climb-Climbed rhs rhs l (omega arith) known_r in
        let less : l + r ≤ fuel = ground (arith, h, enough, cl.low, cl.below, cr.low, cr.below) in
        let (t, run, n) = intersect-Nearest fuel l r less cl.known cr.known in
        (t, rw (h, run_l, run_r) run, Nearest-Climbed lhs rhs l r t cl cr n)
  ]

-- In a tree the loops of `intersect_idoms` on two blocks of it end, with no link missing, at a
-- block that is above both, and below every other block that is.
pub intersect_idoms-Nearest :
    (idoms : Idoms) (tree : Tree idoms) (lhs rhs : ℕ)
    → Known idoms lhs
    → Known idoms rhs
    → (t : ℕ) × (intersect_idoms idoms lhs rhs ≡ ok t) × Nearest idoms tree lhs rhs t
unfolding intersect_idoms
intersect_idoms-Nearest idoms tree lhs rhs known_l known_r =
    intersect-Nearest idoms tree (lhs + rhs) lhs rhs (omega arith) known_l known_r
