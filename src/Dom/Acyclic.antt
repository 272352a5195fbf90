-- ===== src/Dom/Acyclic.antt =====
-- crates/pliron-ll/src/passes/dominance_frontier.rs, `immediate_dominators`: without loops in the
-- graph a second turn changes nothing, so that the outer loop ends.
use mathlib.Core.List.{Memᴰ}
use crabbit.Prelude.{ℕ, suc, ◌+◌, ◌<◌, ◌≡◌, refl, sym, ◌∙◌, ap, arith, ◌==◌, ==_iff, length}
use crabbit.Prelude.{Bool, true, false, inl, inr, Bool-cases, Option, some, none}
use crabbit.Prelude.{List, [], ◌∷◌}
use crabbit.Prelude.Result.{Result, ok}
use crabbit.Dom.{
  Idoms, processed, new_idom, same, updated, pass, turns, entry_only, immediate_dominators,
}
use crabbit.Dom.Turn.{Upto, Earlier, Kept, updated-Kept, new_idom-before, pass-Kept}
use crabbit.Dom.Sound.{Tree-Upto}
use crabbit.Dom.Loop.{entry_only-Tree}
use crabbit.Dom.Tree.{Tree}
use crabbit.Dom.Agree.{Agree, new_idom-Agree}

-- Every predecessor of a block comes before it: the graph has no loop.
abbrev pub Backward : ℕ → List (List ℕ) → Type 0
Backward k [] = Unit
Backward k (preds ∷ rest) = ((p : ℕ) → Memᴰ p preds → p < k) × Backward (suc k) rest

-- Each block has what a turn computes for it.
abbrev Fixed : Idoms → ℕ → List (List ℕ) → Type 0
Fixed idoms k [] = Unit
Fixed idoms k (preds ∷ rest) =
    ((t : ℕ) × (new_idom idoms (processed idoms preds) ≡ ok (some t)) × (idoms k ≡ some t))
    × Fixed idoms (suc k) rest

pass-Fixed :
    (idoms : Idoms) (k : ℕ) (rest : List (List ℕ))
    → Fixed idoms k rest
    → pass idoms k rest false ≡ ok (idoms, false)
unfolding pass
pass-Fixed idoms k [] fixed = refl
pass-Fixed idoms k (preds ∷ rest) ((t, run, e), fixed) =
    let self : (t == t) ≡ true = ground arith in
    rw (run, e, self) (pass-Fixed idoms (suc k) rest fixed)

module _ (idoms : Idoms) (k t : ℕ) (changed : Bool) where
  updated-Agree : Agree k idoms (updated idoms k changed (some t)).0
  updated-Agree b low = elim (Bool-cases (same (idoms k) t)) [
    | inl h ↦ rw h refl
    | inr h ↦ let apart : (b == k) ≡ false = ground (arith, low) in rw (h, apart) refl
  ]

  pub updated_at : (updated idoms k changed (some t)).0 k ≡ some t
  updated_at = elim (Bool-cases (same (idoms k) t)) [
    | inl h ↦ rw h (found (idoms k) h)
    | inr h ↦ let self : (k == k) ≡ true = ground arith in rw (h, self) refl
  ]
    where
      found : (o : Option ℕ) → same o t ≡ true → o ≡ some t
      found none h = cc
      found (some d) h = ap some ((==_iff d t).0 h)

pass_settles :
    (idoms : Idoms) (k : ℕ) (rest : List (List ℕ)) (changed : Bool) (s : Idoms × Bool)
    → Tree idoms
    → Upto idoms k
    → 0 < k
    → Earlier k rest
    → Backward k rest
    → pass idoms k rest changed ≡ ok s
    → Agree k idoms s.0 × Fixed s.0 k rest
unfolding pass
pass_settles idoms k [] changed s tree upto positive earlier backward e =
    ((λ b low. ap (λ (v : Idoms). v b) (ap vector e)), tt)
  where
    vector : Result (Idoms × Bool) → Idoms
    vector (ok s) = s.0
    vector _ = idoms
pass_settles idoms k (preds ∷ rest) changed s tree upto positive (before, earlier)
      (behind, backward) e =
    let (t, run, lower, known, above) = new_idom-before idoms k preds tree upto before in
    let next = updated idoms k changed (some t) in
    let kept = updated-Kept idoms k t changed tree upto positive lower known in
    let (later, fixed) =
      pass_settles next.0 (suc k) rest next.1 s kept.tree kept.upto (omega arith) earlier backward
        (rw run at e) in
    let agree : Agree k idoms s.0 =
      λ b low. updated-Agree idoms k t changed b low ∙ later b (omega (arith, low)) in
    (
      agree,
      (
        (
          t,
          sym (new_idom-Agree k idoms s.0 tree agree preds behind) ∙ run,
          sym (later k (omega arith)) ∙ updated_at idoms k t changed,
        ),
        fixed,
      ),
    )

-- Over blocks in reverse postorder of a graph with no loop two turns are enough: the tree is
-- returned, and every block has a dominator in it.
pub immediate_dominators-Kept :
    (of_entry : List ℕ) (rest : List (List ℕ))
    → Earlier 1 rest
    → Backward 1 rest
    → (idoms : Idoms) × (immediate_dominators 2 (of_entry ∷ rest) ≡ ok idoms)
      × Kept (1 + length rest) (idoms, false)
unfolding immediate_dominators turns
immediate_dominators-Kept of_entry rest earlier backward =
    let upto = Tree-Upto entry_only entry_only-Tree in
    let (s, run, kept) =
      pass-Kept entry_only 1 rest false entry_only-Tree upto (omega arith) earlier in
    let (agree, fixed) =
      pass_settles entry_only 1 rest false s entry_only-Tree upto (omega arith) earlier backward
        run in
    (
      s.0,
      rw run (second s.1 s.0 (pass-Fixed s.0 1 rest fixed)),
      record { tree = kept.tree; upto = kept.upto },
    )
  where
    second :
        (changed : Bool) (out : Idoms)
        → pass out 1 rest false ≡ ok (out, false)
        → (elim changed [ true ↦ turns 1 out rest | false ↦ ok out ]) ≡ ok out
    second true out quiet = rw quiet refl
    second false out quiet = refl
