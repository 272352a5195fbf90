-- ===== src/Dom/Sound.antt =====
-- crates/pliron-ll/src/passes/dominance_frontier.rs, `immediate_dominators`: when a turn changes
-- nothing, which is when the loop ends, the tree is one of dominators.
use mathlib.Core.Path.{subst}
use mathlib.Core.Option.{some-injective}
use mathlib.Core.List.{Memᴰ}
use crabbit.Prelude.{
  ℕ, suc, ◌+◌, ◌≤◌, ◌<◌, ◌≡◌, ◌≢◌, refl, sym, ◌∙◌, ap, arith, ◌==◌, ==_iff, length,
}
use crabbit.Prelude.{Bool, true, false, inl, inr, Bool-cases, Option, some, none}
use crabbit.Prelude.{List, [], ◌∷◌}
use crabbit.Prelude.Result.{Result, ok, err, panic, ◌>>=◌}
use crabbit.Dom.{Idoms, processed, new_idom, same, updated, pass, assign}
use crabbit.Dom.Tree.{Known, Tree, Above, Above-le, Above-trans}
use crabbit.Dom.Pass.{AboveAll}
use crabbit.Dom.Turn.{Upto, Earlier, new_idom-before, same-Upto}

-- An edge of the graph, in the lists of predecessors from a block on.
pub data Enters (p : ℕ) : ℕ → List (List ℕ) → ℕ → Type 0 where
  first :
      {k : ℕ} {preds : List ℕ} {rest : List (List ℕ)} → Memᴰ p preds → Enters p k (preds ∷ rest) k
  later :
      {k b : ℕ} {preds : List ℕ} {rest : List (List ℕ)}
      → Enters p (suc k) rest b
      → Enters p k (preds ∷ rest) b

-- A path from the entry to a block that does not come by another one.
pub data Avoids (rest : List (List ℕ)) (x : ℕ) : ℕ → Type 0 where
  entry : x ≢ 0 → Avoids rest x 0
  along : {p b : ℕ} → Avoids rest x p → Enters p 1 rest b → x ≢ b → Avoids rest x b

-- Every path from the entry to the second block comes by the first one.
abbrev pub Dominates : List (List ℕ) → ℕ → ℕ → Type 0
Dominates rest x b = ¬ (Avoids rest x b)

-- Every block has the block that is computed from its predecessors.
abbrev Settled : Idoms → ℕ → List (List ℕ) → Type 0
Settled idoms k [] = Unit
Settled idoms k (preds ∷ rest) =
    ((t : ℕ) × (idoms k ≡ some t) × AboveAll idoms t preds) × Settled idoms (suc k) rest

-- `changed` is never reset in a turn.
pass-changed :
    (idoms : Idoms) (k : ℕ) (rest : List (List ℕ)) (s : Idoms × Bool)
    → pass idoms k rest true ≡ ok s
    → s.1 ≡ true
unfolding pass
pass-changed idoms k [] s e = sym (ap flag e)
  where
    flag : Result (Idoms × Bool) → Bool
    flag (ok s) = s.1
    flag _ = true
pass-changed idoms k (preds ∷ rest) s e =
    go (new_idom idoms (processed idoms preds)) (λ next. pass-changed next (suc k) rest s) e
  where
    still : (o : Option ℕ) → (updated idoms k true o).1 ≡ true
    still none = refl
    still (some t) = elim (Bool-cases (same (idoms k) t)) [ inl h ↦ rw h refl | inr h ↦ rw h refl ]

    go :
        (found : Result (Option ℕ))
        → ((next : Idoms) → pass next (suc k) rest true ≡ ok s → s.1 ≡ true)
        → (found >>= λ o. pass (updated idoms k true o).0 (suc k) rest (updated idoms k true o).1)
          ≡ ok s
        → s.1 ≡ true
    go (ok o) after e =
        after (updated idoms k true o).0
          (subst (λ c. pass (updated idoms k true o).0 (suc k) rest c ≡ ok s) (still o) e)
    go (err x) after e = cc
    go panic after e = cc

pass-Settled :
    (idoms : Idoms) (k : ℕ) (rest : List (List ℕ)) (s : Idoms × Bool)
    → Tree idoms
    → Upto idoms k
    → Earlier k rest
    → pass idoms k rest false ≡ ok s
    → s.1 ≡ false
    → (s.0 ≡ idoms) × Settled idoms k rest
unfolding pass
pass-Settled idoms k [] s tree upto earlier e quiet = (sym (ap vector e), tt)
  where
    vector : Result (Idoms × Bool) → Idoms
    vector (ok s) = s.0
    vector _ = idoms
pass-Settled idoms k (preds ∷ rest) s tree upto (before, earlier) e quiet =
    let (t, run, lower, known, above) = new_idom-before idoms k preds tree upto before in
    let e1 = rw run at e in
    elim (Bool-cases (same (idoms k) t)) [
      | inl h ↦
          let (unchanged, settled) =
            pass-Settled idoms (suc k) rest s tree (same-Upto idoms k t upto h) earlier (rw h at e1)
              quiet in
          (unchanged, ((t, same_found (idoms k) t h, above), settled))
      | inr h ↦
          let noisy = pass-changed (assign k t idoms) (suc k) rest s (rw h at e1) in
          absurd (cc (noisy, quiet))
    ]
  where
    same_found : (o : Option ℕ) (t : ℕ) → same o t ≡ true → o ≡ some t
    same_found none t h = cc
    same_found (some d) t h = ap some ((==_iff d t).0 h)

Settled-edge :
    (idoms : Idoms) (k : ℕ) (rest : List (List ℕ)) (p b : ℕ)
    → Settled idoms k rest
    → Enters p k rest b
    → Known idoms p
    → (t : ℕ) × (idoms b ≡ some t) × Above idoms t p
Settled-edge idoms k [] p b settled edge known = elim edge [ ]
Settled-edge idoms k (preds ∷ rest) p b ((t, e, above), settled) (Enters.first member) known =
    (t, e, above p member known)
Settled-edge idoms k (preds ∷ rest) p b (found, settled) (Enters.later edge) known =
    Settled-edge idoms (suc k) rest p b settled edge known

module _ (idoms : Idoms) (rest : List (List ℕ)) (tree : Tree idoms) (settled : Settled idoms 1 rest)
    (known : (p b : ℕ) → Enters p 1 rest b → Known idoms p) where
  -- What is above a block is on every path to it.
  settled-Dominates : (x b : ℕ) → Above idoms x b → Dominates rest x b
  settled-Dominates x b above (Avoids.entry other) =
      other (omega (arith, Above-le idoms tree x 0 above))
  settled-Dominates x b Above.here (Avoids.along path edge other) = other refl
  settled-Dominates x b (Above.up {d = d} e above) (Avoids.along {p = p} path edge other) =
      let (t, e_t, above_t) = Settled-edge idoms 1 rest p b settled edge (known p b edge) in
      let at_d : Above idoms x t = subst (Above idoms x) (some-injective d t (sym e ∙ e_t)) above in
      settled-Dominates x p (Above-trans idoms x t p at_d above_t) path

-- The predecessors are blocks of the graph.
abbrev pub Within : List (List ℕ) → Type 0
Within rest = (p b : ℕ) → Enters p 1 rest b → p < suc (length rest)

Settled-Known :
    (idoms : Idoms) (k : ℕ) (rest : List (List ℕ)) (b : ℕ)
    → Settled idoms k rest
    → k ≤ b
    → b < k + length rest
    → Known idoms b
Settled-Known idoms k [] b settled low high = absurd (omega arith)
Settled-Known idoms k (preds ∷ rest) b ((t, e, above), settled) low high =
    elim (Bool-cases (b == k)) [
      | inl h ↦ (t, ap idoms ((==_iff b k).0 h) ∙ e)
      | inr h ↦
          Settled-Known idoms (suc k) rest b settled (ground (arith, h, low)) (omega (arith, high))
    ]

pub Tree-Upto : (idoms : Idoms) → Tree idoms → Upto idoms 1
Tree-Upto idoms tree c lt = (0, ap idoms (omega arith) ∙ tree.root)

pub pass_quiet :
    (idoms out : Idoms) (rest : List (List ℕ))
    → Tree idoms
    → Earlier 1 rest
    → pass idoms 1 rest false ≡ ok (out, false)
    → out ≡ idoms
pass_quiet idoms out rest tree earlier e =
    (pass-Settled idoms 1 rest (out, false) tree (Tree-Upto idoms tree) earlier e refl).0

-- When a turn over blocks in reverse postorder changes nothing, which is when the loop ends, every
-- block that is above another one in the tree dominates it.
pub pass-Dominates :
    (idoms out : Idoms) (rest : List (List ℕ)) (x b : ℕ)
    → Tree idoms
    → Earlier 1 rest
    → Within rest
    → pass idoms 1 rest false ≡ ok (out, false)
    → Above idoms x b
    → Dominates rest x b
pass-Dominates idoms out rest x b tree earlier within e above =
    settled-Dominates idoms rest tree settled known x b above
  where
    at_entry : Upto idoms 1
    at_entry = Tree-Upto idoms tree

    settled : Settled idoms 1 rest
    settled = (pass-Settled idoms 1 rest (out, false) tree at_entry earlier e refl).1

    known : (p c : ℕ) → Enters p 1 rest c → Known idoms p
    known p c edge = elim (Bool-cases (p == 0)) [
      | inl h ↦ at_entry p (ground (arith, h))
      | inr h ↦
          Settled-Known idoms 1 rest p settled (ground (arith, h)) (omega (arith, within p c edge))
    ]
