-- ===== src/Dom/Advance.antt =====
-- crates/pliron-ll/src/passes/dominance_frontier.rs, `immediate_dominators`: a turn of the
-- outer loop makes the limit of all links one more.
use mathlib.Core.Path.{subst}
use mathlib.Core.List.{Memᴰ}
use crabbit.Prelude.{ℕ, suc, ◌+◌, ◌≤◌, ◌<◌, ◌≡◌, ◌≢◌, refl, ap, arith, length}
use crabbit.Prelude.{Bool, false, inl, inr, Bool-cases, ◌==◌, some}
use crabbit.Prelude.{List, [], ◌∷◌}
use crabbit.Prelude.Result.{Result, ok}
use crabbit.Dom.{Idoms, same, updated, pass}
use crabbit.Dom.Turn.{Earlier, updated-Kept, new_idom-before}
use crabbit.Dom.Sound.{Enters}
use crabbit.Dom.Acyclic.{updated_at}
use crabbit.Dom.Paths.{Enters-low}
use crabbit.Dom.Nearest.{new_idom-Above}
use crabbit.Dom.Limits.{Limited, next-Limited}

-- The lists of predecessors from a block on are those of the graph.
pub record Tail (rest : List (List ℕ)) (k : ℕ) (preds : List (List ℕ)) : Type 0 where
  pub sub : (p b : ℕ) → Enters p k preds b → Enters p 1 rest b
  pub sup : (p b : ℕ) → k ≤ b → Enters p 1 rest b → Enters p k preds b
  pub total : k + length preds ≡ suc (length rest)

pub whole : (rest : List (List ℕ)) → Tail rest 1 rest
whole rest = record { sub = λ p b e. e; sup = λ p b low e. e; total = omega arith }

Enters-first :
    (k p b : ℕ) (preds : List ℕ) (rest : List (List ℕ))
    → Enters p k (preds ∷ rest) b
    → b ≡ k
    → Memᴰ p preds
Enters-first k p b preds rest (Enters.first member) e = member
Enters-first k p b preds rest (Enters.later edge) e =
    absurd (omega (arith, Enters-low (suc k) p b rest edge, e))

Enters-later :
    (k p b : ℕ) (preds : List ℕ) (rest : List (List ℕ))
    → Enters p k (preds ∷ rest) b
    → suc k ≤ b
    → Enters p (suc k) rest b
Enters-later k p b preds rest (Enters.first member) low = absurd (omega arith)
Enters-later k p b preds rest (Enters.later edge) low = edge

module _ (rest : List (List ℕ)) (k : ℕ) (preds : List ℕ) (others : List (List ℕ))
    (tail : Tail rest k (preds ∷ others)) where
  pub next-Tail : Tail rest (suc k) others
  next-Tail = record {
    sub = λ p b e. tail.sub p b (Enters.later e);
    sup = λ p b low e. Enters-later k p b preds others (tail.sup p b (omega (arith, low)) e) low;
    total = omega (arith, tail.total);
  }

  pub member_edge : (p : ℕ) → Memᴰ p preds → Enters p 1 rest k
  member_edge p member = tail.sub p k (Enters.first member)

  pub edge_member : (p : ℕ) → Enters p 1 rest k → Memᴰ p preds
  edge_member p edge = Enters-first k p k preds others (tail.sup p k (omega arith) edge) refl

updated_other :
    (idoms : Idoms) (k t : ℕ) (changed : Bool) (b : ℕ)
    → b ≢ k
    → (updated idoms k changed (some t)).0 b ≡ idoms b
updated_other idoms k t changed b other =
    let no : (b == k) ≡ false = ground (arith, other) in
    elim (Bool-cases (same (idoms k) t)) [ inl h ↦ rw h refl | inr h ↦ rw (h, no) refl ]

pub pass-Limited :
    (rest : List (List ℕ)) (i : ℕ) (idoms : Idoms) (k : ℕ) (preds : List (List ℕ)) (changed : Bool)
    (s : Idoms × Bool)
    → Limited idoms rest k i
    → 0 < k
    → Tail rest k preds
    → Earlier k preds
    → pass idoms k preds changed ≡ ok s
    → Limited s.0 rest (suc (length rest)) i
unfolding pass
pass-Limited rest i idoms k [] changed s inv positive tail earlier e =
    let end : k ≡ suc (length rest) = omega (arith, tail.total) in
    subst (λ (v : Idoms). Limited v rest (suc (length rest)) i) (ap vector e)
      (subst (λ (n : ℕ). Limited idoms rest n i) end inv)
  where
    vector : Result (Idoms × Bool) → Idoms
    vector (ok s) = s.0
    vector _ = idoms
pass-Limited rest i idoms k (preds ∷ others) changed s inv positive tail
      ((q, member, before), earlier) e =
    let (t, run, lower, known, above) =
      new_idom-before idoms k preds inv.tree inv.upto (q, member, before) in
    let next = updated idoms k changed (some t) in
    let kept = updated-Kept idoms k t changed inv.tree inv.upto positive lower known in
    let to_member = edge_member rest k preds others tail in
    let of_member = member_edge rest k preds others tail in
    pass-Limited rest i next.0 (suc k) others next.1 s
      (next-Limited rest idoms k i t inv positive (λ p edge. above p (to_member p edge)) next.0
        (omega (arith, tail.total)) (updated_at idoms k t changed) (updated_other idoms k t changed)
        kept.tree kept.upto lower
        (λ a on_preds.
          new_idom-Above idoms inv.tree a preds t run (λ p m. on_preds p (of_member p m)))
        q (of_member q member) before)
      (omega arith) (next-Tail rest k preds others tail) earlier (rw run at e)

-- After a turn the limit is one more.
pub advance :
    (rest : List (List ℕ)) (i : ℕ) (idoms : Idoms)
    → Limited idoms rest (suc (length rest)) i
    → Limited idoms rest 1 (suc i)
advance rest i idoms inv = record {
  tree = inv.tree;
  upto = λ b lt. inv.upto b (omega (arith, lt));
  filled = inr inv.upto;
  bounded = inv.bounded;
  limit = λ b d pos e. inv.limit_before b d pos (inv.bounded b d e) e;
  limit_before = λ b d pos lt e path. absurd (omega (arith, pos, lt));
  ascends = inv.ascends;
  complete = inv.complete;
}
