-- ===== src/Dom/Agree.antt =====
-- crates/pliron-ll/src/passes/dominance_frontier.rs, `immediate_dominators`: what is computed for a
-- block from predecessors before it depends on the vector before the block only.
use mathlib.Core.List.{Memᴰ}
use crabbit.Prelude.{ℕ, zero, suc, ◌+◌, ◌≤◌, ◌<◌, ◌≡◌, refl, sym, ◌∙◌, ap, arith, ◌==◌}
use crabbit.Prelude.{Bool, true, false, inl, inr, Bool-cases, some, if◌then◌else◌}
use crabbit.Prelude.{List, [], ◌∷◌, ltb, ltb→lt}
use crabbit.Prelude.Result.{ok, ◌>>=◌}
use crabbit.Dom.{Idoms, climb, intersect, intersect_idoms, processed, meet, new_idom, is_some}
use crabbit.Dom.Pass.{processed-Known}
use crabbit.Dom.Tree.{Known, Tree, climb-Climbed, intersect_idoms-Nearest, Above-le}

-- Two vectors are the same before a block.
abbrev pub Agree : ℕ → Idoms → Idoms → Type 0
Agree k idoms out = (b : ℕ) → b < k → idoms b ≡ out b

module _ (k : ℕ) (idoms out : Idoms) (tree : Tree idoms) (agree : Agree k idoms out) where
  climb-Agree :
      (fuel from limit : ℕ)
      → from ≤ fuel
      → from < k
      → Known idoms from
      → climb fuel idoms from limit ≡ climb fuel out from limit
  unfolding climb
  climb-Agree zero from limit enough low known = refl
  climb-Agree (suc fuel) from limit enough low (d, e) = elim (Bool-cases (ltb limit from)) [
    | inl h ↦
        let lower = tree.down from d (omega (arith, ltb→lt limit from h)) e in
        rw (h, e, sym (agree from low) ∙ e)
          (climb-Agree fuel d limit (omega (arith, lower)) (omega (arith, lower))
            (tree.linked from d e))
    | inr h ↦ rw h refl
  ]

  intersect-Agree :
      (fuel lhs rhs : ℕ)
      → lhs < k
      → rhs < k
      → Known idoms lhs
      → Known idoms rhs
      → intersect fuel idoms lhs rhs ≡ intersect fuel out lhs rhs
  unfolding intersect
  intersect-Agree zero lhs rhs low_l low_r known_l known_r = refl
  intersect-Agree (suc fuel) lhs rhs low_l low_r known_l known_r = elim (Bool-cases (lhs == rhs)) [
    | inl h ↦ rw h refl
    | inr h ↦
        let (l, run_l, cl) = climb-Climbed idoms tree lhs lhs rhs (omega arith) known_l in
        let (r, run_r, cr) = climb-Climbed idoms tree rhs rhs l (omega arith) known_r in
        let out_l = sym (climb-Agree lhs lhs rhs (omega arith) low_l known_l) ∙ run_l in
        let out_r = sym (climb-Agree rhs rhs l (omega arith) low_r known_r) ∙ run_r in
        rw (h, run_l, run_r, out_l, out_r)
          (intersect-Agree fuel l r (omega (arith, cl.below)) (omega (arith, cr.below)) cl.known
            cr.known)
  ]

  meet-Agree :
      (cur : ℕ) (preds : List ℕ)
      → cur < k
      → Known idoms cur
      → ((p : ℕ) → Memᴰ p preds → Known idoms p)
      → ((p : ℕ) → Memᴰ p preds → p < k)
      → meet idoms cur preds ≡ meet out cur preds
  unfolding meet intersect_idoms
  meet-Agree cur [] low known all before = refl
  meet-Agree cur (q ∷ preds) low known all before =
      let head = Memᴰ.head refl in
      let (d, run, n) = intersect_idoms-Nearest idoms tree q cur (all q head) known in
      let same_run = intersect-Agree (q + cur) q cur (before q head) low (all q head) known in
      rw (run, sym same_run ∙ run)
        (meet-Agree d preds (omega (arith, low, Above-le idoms tree d cur n.above_rhs)) n.known
          (λ p member. all p (Memᴰ.tail member)) (λ p member. before p (Memᴰ.tail member)))

  processed-Agree :
      (preds : List ℕ)
      → ((p : ℕ) → Memᴰ p preds → p < k)
      → processed idoms preds ≡ processed out preds
  unfolding processed
  processed-Agree [] before = refl
  processed-Agree (q ∷ preds) before =
      let rest = processed-Agree preds (λ p member. before p (Memᴰ.tail member)) in
      rw (agree q (before q (Memᴰ.head refl)))
        (ap (λ (t : List ℕ). if is_some (out q) then q ∷ t else t) rest)

  processed-mem_sub : (preds : List ℕ) (p : ℕ) → Memᴰ p (processed idoms preds) → Memᴰ p preds
  unfolding processed
  processed-mem_sub [] p member = member
  processed-mem_sub (q ∷ preds) p member =
      go (is_some (idoms q)) (λ m. processed-mem_sub preds p m) member
    where
      go :
          (t : Bool)
          → (Memᴰ p (processed idoms preds) → Memᴰ p preds)
          → Memᴰ p (if t then q ∷ processed idoms preds else processed idoms preds)
          → Memᴰ p (q ∷ preds)
      go false sub m = Memᴰ.tail (sub m)
      go true sub (Memᴰ.head e) = Memᴰ.head e
      go true sub (Memᴰ.tail m) = Memᴰ.tail (sub m)

  pub new_idom-Agree :
      (preds : List ℕ)
      → ((p : ℕ) → Memᴰ p preds → p < k)
      → new_idom idoms (processed idoms preds) ≡ new_idom out (processed out preds)
  unfolding new_idom
  new_idom-Agree preds before =
      go (processed idoms preds) (processed-Known idoms tree preds)
        (λ p member. before p (processed-mem_sub preds p member))
      ∙ ap (new_idom out) (processed-Agree preds before)
    where
      go :
          (found : List ℕ)
          → ((p : ℕ) → Memᴰ p found → Known idoms p)
          → ((p : ℕ) → Memᴰ p found → p < k)
          → new_idom idoms found ≡ new_idom out found
      go [] all low = refl
      go (first ∷ others) all low =
          ap (λ r. r >>= λ d. ok (some d))
            (meet-Agree first others (low first (Memᴰ.head refl)) (all first (Memᴰ.head refl))
              (λ p m. all p (Memᴰ.tail m)) (λ p m. low p (Memᴰ.tail m)))
