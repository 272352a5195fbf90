-- ===== src/Dom/Pass.antt =====
-- crates/pliron-ll/src/passes/dominance_frontier.rs, `immediate_dominators`: one turn of the loop
-- ends, and keeps the vector a tree.
use mathlib.Core.Path.{subst}
use mathlib.Core.List.{Memᴰ}
use crabbit.Prelude.{ℕ, ◌≡◌, refl, sym, ◌∙◌, ap}
use crabbit.Prelude.{inl, inr, Option-cases, some}
use crabbit.Prelude.{List, [], ◌∷◌}
use crabbit.Prelude.Result.{ok}
use crabbit.Dom.{Idoms, processed, meet, new_idom}
use crabbit.Dom.Tree.{Known, Tree, Above, Above-trans, intersect_idoms-Nearest}

-- A block above all of some blocks that have a dominator.
abbrev pub AboveAll : Idoms → ℕ → List ℕ → Type 0
AboveAll idoms t preds = (p : ℕ) → Memᴰ p preds → Known idoms p → Above idoms t p

module _ (idoms : Idoms) (tree : Tree idoms) where
  spread :
      (t first : ℕ) (others : List ℕ)
      → Above idoms t first
      → AboveAll idoms t others
      → AboveAll idoms t (first ∷ others)
  spread t first others above rest p (Memᴰ.head e) k = subst (Above idoms t) (sym e) above
  spread t first others above rest p (Memᴰ.tail mem) k = rest p mem k

  meet-AboveAll :
      (cur : ℕ) (preds : List ℕ)
      → Known idoms cur
      → ((p : ℕ) → Memᴰ p preds → Known idoms p)
      → (t : ℕ) × (meet idoms cur preds ≡ ok t)
        × Known idoms t
        × Above idoms t cur
        × AboveAll idoms t preds
  unfolding meet
  meet-AboveAll cur [] known all = (cur, refl, known, Above.here, λ p member. elim member [ ])
  meet-AboveAll cur (q ∷ preds) known all =
      let (d, run, n) = intersect_idoms-Nearest idoms tree q cur (all q (Memᴰ.head refl)) known in
      let (t, rest, k, above, others) =
        meet-AboveAll d preds n.known (λ p member. all p (Memᴰ.tail member)) in
      (
        t,
        rw run rest,
        k,
        Above-trans idoms t d cur above n.above_rhs,
        spread t q preds (Above-trans idoms t d q above n.above_lhs) others,
      )

  member-Known :
      (q d : ℕ) (rest : List ℕ)
      → idoms q ≡ some d
      → ((p : ℕ) → Memᴰ p rest → Known idoms p)
      → (p : ℕ) → Memᴰ p (q ∷ rest)
      → Known idoms p
  member-Known q d rest e all p (Memᴰ.head same_block) = (d, ap idoms same_block ∙ e)
  member-Known q d rest e all p (Memᴰ.tail member) = all p member

  pub processed-Known : (preds : List ℕ) (p : ℕ) → Memᴰ p (processed idoms preds) → Known idoms p
  unfolding processed
  processed-Known [] p member = elim member [ ]
  processed-Known (q ∷ preds) p member = elim (Option-cases (idoms q)) [
    | inl e ↦ processed-Known preds p (rw e at member)
    | inr (d, e) ↦
        member-Known q d (processed idoms preds) e (processed-Known preds) p (rw e at member)
  ]

  processed-mem :
      (preds : List ℕ) (p : ℕ) → Memᴰ p preds → Known idoms p → Memᴰ p (processed idoms preds)
  unfolding processed
  processed-mem [] p member known = elim member [ ]
  processed-mem (q ∷ preds) p (Memᴰ.head e) (d, known) = rw (sym (ap idoms e) ∙ known) (Memᴰ.head e)
  processed-mem (q ∷ preds) p (Memᴰ.tail member) known = elim (Option-cases (idoms q)) [
    | inl e ↦ rw e (processed-mem preds p member known)
    | inr (d, e) ↦ rw e (Memᴰ.tail (processed-mem preds p member known))
  ]

  -- The nearest block above all predecessors that have been processed, if one has been.
  pub new_idom-AboveAll :
      (preds : List ℕ) (q : ℕ)
      → Memᴰ q preds
      → Known idoms q
      → (t : ℕ) × (new_idom idoms (processed idoms preds) ≡ ok (some t))
        × Known idoms t
        × AboveAll idoms t preds
  unfolding new_idom
  new_idom-AboveAll preds q member known =
      go (processed idoms preds) refl (processed-mem preds q member known)
    where
      go :
          (found : List ℕ)
          → processed idoms preds ≡ found
          → Memᴰ q found
          → (t : ℕ) × (new_idom idoms found ≡ ok (some t)) × Known idoms t × AboveAll idoms t preds
      go [] e m = elim m [ ]
      go (first ∷ others) e m =
          let all : (p : ℕ) → Memᴰ p (first ∷ others) → Known idoms p =
            λ p mem. processed-Known preds p (subst (Memᴰ p) (sym e) mem) in
          let (t, run, k, above, rest) =
            meet-AboveAll first others (all first (Memᴰ.head refl))
              (λ p mem. all p (Memᴰ.tail mem)) in
          (
            t,
            rw run refl,
            k,
            λ p mem known_p.
                spread t first others above rest p
                  (subst (Memᴰ p) e (processed-mem preds p mem known_p)) known_p,
          )
