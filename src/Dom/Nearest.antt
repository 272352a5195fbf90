-- ===== src/Dom/Nearest.antt =====
-- crates/pliron-ll/src/passes/dominance_frontier.rs, `immediate_dominators`: what is computed for a
-- block is the nearest of what is above all its predecessors.
use mathlib.Core.Path.{subst}
use mathlib.Core.Option.{some-injective}
use mathlib.Core.List.{Memᴰ}
use crabbit.Prelude.{ℕ, ◌≡◌, refl, inl, inr, Option-cases, some, List, [], ◌∷◌}
use crabbit.Prelude.Result.{ok, >>=-eq-ok, ok-injective}
use crabbit.Dom.{Idoms, processed, meet, new_idom}
use crabbit.Dom.Tree.{Known, Tree, Above, intersect_idoms-Nearest}
use crabbit.Dom.Pass.{processed-Known}

module _ (idoms : Idoms) (tree : Tree idoms) (a : ℕ) where
  meet-Above :
      (cur t : ℕ) (preds : List ℕ)
      → Known idoms cur
      → ((p : ℕ) → Memᴰ p preds → Known idoms p × Above idoms a p)
      → meet idoms cur preds ≡ ok t
      → Above idoms a cur
      → Above idoms a t
  unfolding meet
  meet-Above cur t [] known all run above = subst (Above idoms a) (ok-injective cur t run) above
  meet-Above cur t (q ∷ preds) known all run above =
      let (known_q, above_q) = all q (Memᴰ.head refl) in
      let (d, run_d, n) = intersect_idoms-Nearest idoms tree q cur known_q known in
      meet-Above d t preds n.known (λ p member. all p (Memᴰ.tail member)) (rw run_d at run)
        (n.nearest a above_q above)

  processed-sub : (preds : List ℕ) (p : ℕ) → Memᴰ p (processed idoms preds) → Memᴰ p preds
  unfolding processed
  processed-sub [] p member = member
  processed-sub (q ∷ preds) p member = elim (Option-cases (idoms q)) [
    | inl e ↦ Memᴰ.tail (processed-sub preds p (rw e at member))
    | inr (d, e) ↦ go (rw e at member) (processed-sub preds p)
  ]
    where
      go :
          Memᴰ p (q ∷ processed idoms preds)
          → (Memᴰ p (processed idoms preds) → Memᴰ p preds)
          → Memᴰ p (q ∷ preds)
      go (Memᴰ.head e) rest = Memᴰ.head e
      go (Memᴰ.tail m) rest = Memᴰ.tail (rest m)

  -- What is above all predecessors with a dominator is above what is computed from them.
  pub new_idom-Above :
      (preds : List ℕ) (t : ℕ)
      → new_idom idoms (processed idoms preds) ≡ ok (some t)
      → ((p : ℕ) → Memᴰ p preds → Known idoms p → Above idoms a p)
      → Above idoms a t
  unfolding new_idom
  new_idom-Above preds t run all =
      go (processed idoms preds)
        (λ p m.
          let known = processed-Known idoms tree preds p m in
          (known, all p (processed-sub preds p m) known))
        run
    where
      go :
          (found : List ℕ)
          → ((p : ℕ) → Memᴰ p found → Known idoms p × Above idoms a p)
          → new_idom idoms found ≡ ok (some t)
          → Above idoms a t
      go [] each e = cc
      go (first ∷ others) each e =
          let (d, run_d, same) = >>=-eq-ok (meet idoms first others) _ e in
          let (known, above) = each first (Memᴰ.head refl) in
          subst (Above idoms a) (some-injective d t (ok-injective (some d) (some t) same))
            (meet-Above first d others known (λ p m. each p (Memᴰ.tail m)) run_d above)
