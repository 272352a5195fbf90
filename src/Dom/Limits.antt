-- ===== src/Dom/Limits.antt =====
-- crates/pliron-ll/src/passes/dominance_frontier.rs, `immediate_dominators`: what holds of the
-- vector between two blocks of a turn, and that writing a block keeps it.
use mathlib.Core.Path.{subst}
use mathlib.Core.Option.{some-injective}
use crabbit.Prelude.{ℕ, suc, ◌≤◌, ◌<◌, ◌≡◌, ◌≢◌, refl, sym, ◌∙◌, ap, arith, length}
use crabbit.Prelude.{inl, inr, Bool-cases, ◌==◌, ==_iff, some, List, ◌⊎◌}
use crabbit.Dom.{Idoms}
use crabbit.Dom.Tree.{Known, Tree, Above, Above-le, Above-trans}
use crabbit.Dom.Turn.{Upto}
use crabbit.Dom.Sound.{Enters, Avoids, Dominates}
use crabbit.Dom.Paths.{AvoidsIn, lift, not_self, no_budget, split, apart, AvoidsIn-low}

-- A path on which every block is later than the one before.
pub data Ascends (rest : List (List ℕ)) (a : ℕ) : ℕ → Type 0 where
  stop : Ascends rest a a
  step : {p b : ℕ} → Ascends rest a p → Enters p 1 rest b → p < b → Ascends rest a b

-- Before a block of a turn: a link is on all paths with edges back below a limit, which is one more
-- for the blocks of this turn, and leads down to its block on an ascending path; and what dominates
-- a block is above it.
pub record Limited (idoms : Idoms) (rest : List (List ℕ)) (k i : ℕ) : Type 0 where
  pub tree : Tree idoms
  pub upto : Upto idoms k
  pub filled : (i ≡ 0) ⊎ Upto idoms (suc (length rest))
  pub bounded : (b d : ℕ) → idoms b ≡ some d → b < suc (length rest)
  pub limit : (b d : ℕ) → 0 < b → idoms b ≡ some d → ¬ (AvoidsIn rest d i b)
  pub limit_before : (b d : ℕ) → 0 < b → b < k → idoms b ≡ some d → ¬ (AvoidsIn rest d (suc i) b)
  pub ascends : (b d : ℕ) → idoms b ≡ some d → Ascends rest d b
  pub complete : (x b : ℕ) → Known idoms b → Dominates rest x b → Above idoms x b

module _ (rest : List (List ℕ)) where
  Ascends-le : (a b : ℕ) → Ascends rest a b → a ≤ b
  Ascends-le a b Ascends.stop = omega arith
  Ascends-le a b (Ascends.step {p = p} path edge lt) = omega (arith, Ascends-le a p path)

  Ascends-trans : (a b c : ℕ) → Ascends rest a b → Ascends rest b c → Ascends rest a c
  Ascends-trans a b c ab Ascends.stop = ab
  Ascends-trans a b c ab (Ascends.step {p = p} path edge lt) =
      Ascends.step (Ascends-trans a b p ab path) edge lt

  Avoids-Ascends : (x a b : ℕ) → x < a → Avoids rest x a → Ascends rest a b → Avoids rest x b
  Avoids-Ascends x a b low path Ascends.stop = path
  Avoids-Ascends x a b low path (Ascends.step {p = p} asc edge lt) =
      Avoids.along (Avoids-Ascends x a p low path asc) edge (ground (arith, Ascends-le a p asc))

  Above-Ascends :
      (idoms : Idoms) (a b : ℕ)
      → ((b d : ℕ) → idoms b ≡ some d → Ascends rest d b)
      → Above idoms a b
      → Ascends rest a b
  Above-Ascends idoms a b links Above.here = Ascends.stop
  Above-Ascends idoms a b links (Above.up {d = d} e above) =
      Ascends-trans a d b (Above-Ascends idoms a d links above) (links b d e)

  -- What is above a block is on the paths to it that all links come by.
  pub chain :
      (idoms : Idoms) (j a p : ℕ)
      → Tree idoms
      → ((b d : ℕ) → 0 < b → b ≤ p → idoms b ≡ some d → ¬ (AvoidsIn rest d j b))
      → Above idoms a p
      → ¬ (AvoidsIn rest a j p)
  chain idoms j a p tree links Above.here path = not_self rest a j p path refl
  chain idoms j a p tree links (Above.up {d = d} e above) path = elim (Bool-cases (p == 0)) [
    | inl h ↦
        let zero_p : p ≡ 0 = (==_iff p 0).0 h in
        let low : a ≤ p = Above-le idoms tree a p (Above.up e above) in
        not_self rest a j p path (omega (arith, zero_p, low))
    | inr h ↦
        let positive : 0 < p = ground (arith, h) in
        let lower = tree.down p d positive e in
        elim (split rest a d j p path) [
          | inl by ↦ links p d positive (omega arith) e by
          | inr to ↦
              chain idoms j a d tree
                (λ b c pos le e_b. links b c pos (omega (arith, le, lower)) e_b) above to
        ]
  ]

module _ (rest : List (List ℕ)) (idoms : Idoms) (k i t : ℕ) (inv : Limited idoms rest k i)
    (positive : 0 < k)
    (above_all : (p : ℕ) → Enters p 1 rest k → Known idoms p → Above idoms t p) where
  -- What is computed for a block is on its paths.
  pub limit_at : ¬ (AvoidsIn rest t (suc i) k)
  limit_at path = go (suc i) k path refl refl
    where
      go : (j c : ℕ) → AvoidsIn rest t j c → j ≡ suc i → c ≡ k → ⊥
      go j c (AvoidsIn.entry other) e_j e_c = omega (arith, e_c, positive)
      go j c (AvoidsIn.forward {p = p} path edge lt other) e_j e_c =
          let before : p < k = omega (arith, lt, e_c) in
          let edge_k = subst (Enters p 1 rest) e_c edge in
          chain rest idoms (suc i) t p inv.tree
            (λ b d pos le e. inv.limit_before b d pos (omega (arith, le, before)) e)
            (above_all p edge_k (inv.upto p before))
            (subst (λ (n : ℕ). AvoidsIn rest t n p) e_j path)
      go j c (AvoidsIn.back {i = m} {p = p} path edge other) e_j e_c =
          let edge_k = subst (Enters p 1 rest) e_c edge in
          let path_i : AvoidsIn rest t i p =
            subst (λ (n : ℕ). AvoidsIn rest t n p) (omega (arith, e_j)) path in
          elim inv.filled [
            | inl none ↦ no_budget rest t p (subst (λ (n : ℕ). AvoidsIn rest t n p) none path_i)
            | inr all ↦
                chain rest idoms i t p inv.tree (λ b d pos le e. inv.limit b d pos e)
                  (above_all p edge_k (all p (AvoidsIn-low rest t i p path_i))) path_i
          ]

  module _ (next : Idoms) (inside : k < suc (length rest)) (at : next k ≡ some t)
      (others : (b : ℕ) → b ≢ k → next b ≡ idoms b) (tree : Tree next) (upto : Upto next (suc k))
      (lower : t < k)
      (nearest : (a : ℕ)
        → ((p : ℕ) → Enters p 1 rest k → Known idoms p → Above idoms a p)
        → Above idoms a t)
      (q : ℕ) (edge_q : Enters q 1 rest k) (before_q : q < k) where
    -- The link of a block, which is the new one or that of another block.
    link_cases : (b d : ℕ) → next b ≡ some d → ((b ≡ k) × (d ≡ t)) ⊎ ((b ≢ k) × (idoms b ≡ some d))
    link_cases b d e = elim (Bool-cases (b == k)) [
      | inl h ↦
          let same = (==_iff b k).0 h in inl (same, some-injective d t (sym e ∙ ap next same ∙ at))
      | inr h ↦ let other = apart b k h in inr (other, sym (others b other) ∙ e)
    ]

    next-Known : (b : ℕ) → Known idoms b → Known next b
    next-Known b (d, e) = elim (Bool-cases (b == k)) [
      | inl h ↦ (t, ap next ((==_iff b k).0 h) ∙ at)
      | inr h ↦ (d, others b (apart b k h) ∙ e)
    ]

    next-limit_before :
        (b d : ℕ) → 0 < b → b < suc k → next b ≡ some d → ¬ (AvoidsIn rest d (suc i) b)
    next-limit_before b d pos lt e path = elim (link_cases b d e) [
      | inl (same, new) ↦ limit_at (
          subst (λ (c : ℕ). AvoidsIn rest c (suc i) k) new
            (subst (AvoidsIn rest d (suc i)) same path))
      | inr (other, old) ↦ inv.limit_before b d pos (ground (arith, other, lt)) old path
    ]

    next-limit : (b d : ℕ) → 0 < b → next b ≡ some d → ¬ (AvoidsIn rest d i b)
    next-limit b d pos e path = elim (link_cases b d e) [
      | inl (same, new) ↦ next-limit_before b d pos (omega (arith, same)) e (lift rest d i b path)
      | inr (other, old) ↦ inv.limit b d pos old path
    ]

    next-ascends : (b d : ℕ) → next b ≡ some d → Ascends rest d b
    next-ascends b d e = elim (link_cases b d e) [
      | inl (same, new) ↦
          let path =
            Above-Ascends rest idoms t q inv.ascends (above_all q edge_q (inv.upto q before_q)) in
          subst (λ (c : ℕ). Ascends rest c b) (sym new)
            (subst (Ascends rest t) (sym same) (Ascends.step path edge_q before_q))
      | inr (other, old) ↦ inv.ascends b d old
    ]

    -- What was above a block is so still, unless it was above the block that is written.
    transfer : (x b : ℕ) → Above idoms x b → Above next x b ⊎ ((x < k) × Above next k b)
    transfer x b Above.here = inl Above.here
    transfer x b (Above.up {d = d} e above) = elim (Bool-cases (b == k)) [
      | inl h ↦
          let same = (==_iff b k).0 h in
          let down = inv.tree.down b d (omega (arith, positive, same)) e in
          inr (
            omega (arith, Above-le idoms inv.tree x d above, down, same),
            subst (Above next k) (sym same) Above.here,
          )
      | inr h ↦ elim (transfer x d above) [
        | inl a ↦ inl (Above.up (others b (apart b k h) ∙ e) a)
        | inr (low, a) ↦ inr (low, Above.up (others b (apart b k h) ∙ e) a)
      ]
    ]

    complete_at : (x : ℕ) → Dominates rest x k → Above next x k
    complete_at x dominates = elim (Bool-cases (x == k)) [
      | inl h ↦ subst (λ (c : ℕ). Above next c k) (sym ((==_iff x k).0 h)) Above.here
      | inr h ↦
          let on_preds = λ (p : ℕ) (edge : Enters p 1 rest k) (known : Known idoms p).
            inv.complete x p known (λ path. dominates (Avoids.along path edge (apart x k h))) in
          elim (transfer x t (nearest x on_preds)) [
            | inl a ↦ Above.up at a
            | inr (low, a) ↦ absurd (omega (arith, Above-le next tree k t a, lower))
          ]
    ]

    next_complete : (x b : ℕ) → Known next b → Dominates rest x b → Above next x b
    next_complete x b (d, e) dominates = elim (link_cases b d e) [
      | inl (same, new) ↦
          subst (Above next x) (sym same) (complete_at x (subst (Dominates rest x) same dominates))
      | inr (other, old) ↦ elim (transfer x b (inv.complete x b (d, old) dominates)) [
        | inl a ↦ a
        | inr (low, a) ↦
            let down = Above-Ascends rest next k b next-ascends a in
            Above-trans next x k b
              (complete_at x (λ path. dominates (Avoids-Ascends rest x k b low path down))) a
      ]
    ]

    pub next-Limited : Limited next rest (suc k) i
    next-Limited = record {
      tree = tree;
      upto = upto;
      filled = elim inv.filled [
        | inl none ↦ inl none
        | inr all ↦ inr (λ b lt. next-Known b (all b lt))
      ];
      bounded = λ b d e. elim (link_cases b d e) [
        | inl (same, new) ↦ omega (arith, same, inside)
        | inr (other, old) ↦ inv.bounded b d old
      ];
      limit = next-limit;
      limit_before = next-limit_before;
      ascends = next-ascends;
      complete = next_complete;
    }
