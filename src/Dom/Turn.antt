-- ===== src/Dom/Turn.antt =====
-- crates/pliron-ll/src/passes/dominance_frontier.rs, `immediate_dominators`: one turn of the loop
-- ends, keeps the vector a tree, and gives every block a dominator.
use mathlib.Core.Path.{subst}
use mathlib.Core.Option.{some-injective}
use mathlib.Core.List.{Memᴰ}
use crabbit.Prelude.{ℕ, suc, ◌+◌, ◌<◌, ◌≡◌, refl, sym, arith, ◌==◌, ==_iff, length}
use crabbit.Prelude.{Bool, true, false, inl, inr, Bool-cases, Option, some, none}
use crabbit.Prelude.{List, [], ◌∷◌}
use crabbit.Prelude.Result.{ok}
use crabbit.Dom.{Idoms, assign, processed, new_idom, same, updated, pass}
use crabbit.Dom.Tree.{Known, Tree, Above-le}
use crabbit.Dom.Pass.{AboveAll, new_idom-AboveAll}

-- Every block before one has a dominator.
abbrev pub Upto : Idoms → ℕ → Type 0
Upto idoms k = (b : ℕ) → b < k → Known idoms b

-- In reverse postorder each block but the entry has a predecessor before it.
abbrev pub Earlier : ℕ → List (List ℕ) → Type 0
Earlier k [] = Unit
Earlier k (preds ∷ rest) = ((q : ℕ) × Memᴰ q preds × (q < k)) × Earlier (suc k) rest

module _ (idoms : Idoms) (k t : ℕ) where
  pub assign-Known : (b : ℕ) → Known idoms b → Known (assign k t idoms) b
  assign-Known b (d, e) = elim (Bool-cases (b == k)) [
    | inl h ↦ (t, rw h refl)
    | inr h ↦ (d, rw h e)
  ]

  pub assign-Tree : Tree idoms → 0 < k → t < k → Known idoms t → Tree (assign k t idoms)
  assign-Tree tree positive lower known = record {
    root = at_root;
    down = at_down;
    linked = at_linked;
  }
    where
      at_root : assign k t idoms 0 ≡ some 0
      at_root = let other : (0 == k) ≡ false = ground arith in rw other tree.root

      at_down : (b d : ℕ) → 0 < b → assign k t idoms b ≡ some d → d < b
      at_down b d pos_b e = elim (Bool-cases (b == k)) [
        | inl h ↦ omega (arith, lower, (==_iff b k).0 h, some-injective t d (rw h at e))
        | inr h ↦ tree.down b d pos_b (rw h at e)
      ]

      at_linked : (b d : ℕ) → assign k t idoms b ≡ some d → Known (assign k t idoms) d
      at_linked b d e = elim (Bool-cases (b == k)) [
        | inl h ↦
            subst (Known (assign k t idoms)) (some-injective t d (rw h at e)) (assign-Known t known)
        | inr h ↦ assign-Known d (tree.linked b d (rw h at e))
      ]

  assign-Upto : Upto idoms k → Upto (assign k t idoms) (suc k)
  assign-Upto upto b lt = elim (Bool-cases (b == k)) [
    | inl h ↦ (t, rw h refl)
    | inr h ↦ assign-Known b (upto b (ground arith))
  ]

  pub same-Upto : Upto idoms k → same (idoms k) t ≡ true → Upto idoms (suc k)
  same-Upto upto h b lt = elim (Bool-cases (b == k)) [
    | inl e ↦ subst (Known idoms) (sym ((==_iff b k).0 e)) (found (idoms k) refl h)
    | inr e ↦ upto b (ground arith)
  ]
    where
      found : (o : Option ℕ) → idoms k ≡ o → same o t ≡ true → Known idoms k
      found none e h = cc
      found (some d) e h = (d, e)

-- What a turn keeps, from a block on.
pub record Kept (k : ℕ) (s : Idoms × Bool) : Type 0 where
  pub tree : Tree s.0
  pub upto : Upto s.0 k

pub updated-Kept :
    (idoms : Idoms) (k t : ℕ) (changed : Bool)
    → Tree idoms
    → Upto idoms k
    → 0 < k
    → t < k
    → Known idoms t
    → Kept (suc k) (updated idoms k changed (some t))
updated-Kept idoms k t changed tree upto positive lower known =
    elim (Bool-cases (same (idoms k) t)) [
      | inl h ↦ rw h (record { tree = tree; upto = same-Upto idoms k t upto h })
      | inr h ↦ rw h (record {
        tree = assign-Tree idoms k t tree positive lower known;
        upto = assign-Upto idoms k t upto;
      })
    ]

-- The new dominator of a block that has a predecessor before it is before it too.
pub new_idom-before :
    (idoms : Idoms) (k : ℕ) (preds : List ℕ)
    → Tree idoms
    → Upto idoms k
    → (q : ℕ) × Memᴰ q preds × (q < k)
    → (t : ℕ) × (new_idom idoms (processed idoms preds) ≡ ok (some t))
      × (t < k)
      × Known idoms t
      × AboveAll idoms t preds
new_idom-before idoms k preds tree upto (q, member, lt) =
    let (t, run, known, above) = new_idom-AboveAll idoms tree preds q member (upto q lt) in
    (t, run, omega (arith, lt, Above-le idoms tree t q (above q member (upto q lt))), known, above)

-- Over blocks in reverse postorder a turn ends with no link missing, and the vector is a tree
-- still and has a dominator for every block.
pub pass-Kept :
    (idoms : Idoms) (k : ℕ) (rest : List (List ℕ)) (changed : Bool)
    → Tree idoms
    → Upto idoms k
    → 0 < k
    → Earlier k rest
    → (s : Idoms × Bool) × (pass idoms k rest changed ≡ ok s) × Kept (k + length rest) s
unfolding pass
pass-Kept idoms k [] changed tree upto positive earlier =
    ((idoms, changed), refl, record { tree = tree; upto = λ b lt. upto b (omega arith) })
pass-Kept idoms k (preds ∷ rest) changed tree upto positive (before, earlier) =
    let (t, run, lower, known, above) = new_idom-before idoms k preds tree upto before in
    let next = updated idoms k changed (some t) in
    let kept = updated-Kept idoms k t changed tree upto positive lower known in
    let (s, ends, kept_s) =
      pass-Kept next.0 (suc k) rest next.1 kept.tree kept.upto (omega arith) earlier in
    (s, rw run ends, record { tree = kept_s.tree; upto = λ b lt. kept_s.upto b (omega arith) })
