-- ===== src/Dom/Exact.antt =====
-- crates/pliron-ll/src/passes/dominance_frontier.rs, `immediate_dominators`: the outer loop ends,
-- also when the graph has loops, and the tree is the one of dominators.
use mathlib.Core.Path.{subst}
use mathlib.Core.Option.{some-injective}
use crabbit.Prelude.{ℕ, zero, suc, ◌+◌, ◌<◌, ◌≡◌, ◌≢◌, refl, sym, ◌∙◌, ap, arith, length}
use crabbit.Prelude.{Bool, true, false, inl, inr, Bool-cases, ◌==◌, ==_iff, some}
use crabbit.Prelude.{List, [], ◌∷◌, ◌↔◌}
use crabbit.Prelude.Result.{Result, ok}
use crabbit.Dom.{Idoms, pass, turns, entry_only, immediate_dominators}
use crabbit.Dom.Tree.{Above, Above-le, Above-up}
use crabbit.Dom.Turn.{Upto, Earlier, new_idom-before, pass-Kept}
use crabbit.Dom.Sound.{Enters, Avoids, Dominates, Within, Tree-Upto, pass-Dominates, pass_quiet}
use crabbit.Dom.Loop.{entry_only-Tree}
use crabbit.Dom.Paths.{no_budget, apart, Avoids-AvoidsIn}
use crabbit.Dom.Nearest.{new_idom-Above}
use crabbit.Dom.Limits.{Limited, Ascends, chain}
use crabbit.Dom.Advance.{Tail, whole, next-Tail, member_edge, edge_member, pass-Limited, advance}

-- When the limit is the number of blocks, links dominate, and a turn changes nothing.
module _ (rest : List (List ℕ)) (idoms : Idoms) (inv : Limited idoms rest 1 (suc (length rest)))
    (all : Upto idoms (suc (length rest))) (within : Within rest) where
  link_same :
      (k t d : ℕ)
      → 0 < k
      → t < k
      → idoms k ≡ some d
      → ((p : ℕ) → Enters p 1 rest k → Above idoms t p)
      → ((a : ℕ) → ((p : ℕ) → Enters p 1 rest k → Above idoms a p) → Above idoms a t)
      → d ≡ t
  link_same k t d positive lower e above nearest =
      let to_d = Above-up idoms inv.tree t k d e lower (inv.complete t k (d, e) t_dominates) in
      let to_t = nearest d (λ p edge.
        inv.complete d p (all p (within p k edge))
          (λ path. d_dominates (Avoids.along path edge d_other))) in
      omega (arith, Above-le idoms inv.tree t d to_d, Above-le idoms inv.tree d t to_t)
    where
      d_other : d ≢ k
      d_other = ground (arith, inv.tree.down k d positive e)

      d_dominates : Dominates rest d k
      d_dominates path = inv.limit k d positive e (Avoids-AvoidsIn rest d k path)

      t_dominates_at : (c : ℕ) → Avoids rest t c → c ≡ k → ⊥
      t_dominates_at c (Avoids.entry other) e_c = omega (arith, e_c, positive)
      t_dominates_at c (Avoids.along {p = p} path edge other) e_c =
          chain rest idoms (suc (length rest)) t p inv.tree (λ b d pos le e. inv.limit b d pos e)
            (above p (subst (Enters p 1 rest) e_c edge)) (Avoids-AvoidsIn rest t p path)

      t_dominates : Dominates rest t k
      t_dominates path = t_dominates_at k path refl

  quiet :
      (k : ℕ) (preds : List (List ℕ))
      → 0 < k
      → Tail rest k preds
      → Earlier k preds
      → pass idoms k preds false ≡ ok (idoms, false)
  unfolding pass
  quiet k [] positive tail earlier = refl
  quiet k (preds ∷ others) positive tail (before, earlier) =
      let upto : Upto idoms k = λ b lt. all b (omega (arith, lt, tail.total)) in
      let (t, run, lower, known, above) = new_idom-before idoms k preds inv.tree upto before in
      let (d, e) = all k (omega (arith, tail.total)) in
      let is_same : d ≡ t =
        link_same k t d positive lower e
          (λ p edge.
            above p (edge_member rest k preds others tail p edge) (all p (within p k edge)))
          (λ a on_preds.
            new_idom-Above idoms inv.tree a preds t run
              (λ p m known. on_preds p (member_edge rest k preds others tail p m))) in
      let yes : (d == t) ≡ true = ground (arith, is_same) in
      rw (run, e, yes)
        (quiet (suc k) others (omega arith) (next-Tail rest k preds others tail) earlier)

after :
    (changed : Bool) (again : Result Idoms) (idoms out : Idoms)
    → (changed ≡ true → again ≡ ok out)
    → (changed ≡ false → idoms ≡ out)
    → (elim changed [ true ↦ again | false ↦ ok idoms ]) ≡ ok out
after true again idoms out more done = more refl
after false again idoms out more done = ap ok (done refl)

-- The tree is the one of dominators.
abbrev Exact : List (List ℕ) → Idoms → Type 0
Exact rest idoms = (x b : ℕ) → b < suc (length rest) → Above idoms x b ↔ Dominates rest x b

module _ (rest : List (List ℕ)) (earlier : Earlier 1 rest) (within : Within rest) where
  quiet-Exact :
      (i : ℕ) (idoms out : Idoms)
      → Limited idoms rest 1 i
      → Upto idoms (suc (length rest))
      → pass idoms 1 rest false ≡ ok (out, false)
      → Exact rest out
  quiet-Exact i idoms out inv all run =
      let unchanged = pass_quiet idoms out rest inv.tree earlier run in
      subst (Exact rest) (sym unchanged) (λ x b lt. (
        pass-Dominates idoms out rest x b inv.tree earlier within run,
        inv.complete x b (all b lt),
      ))

  turns-Exact :
      (m i : ℕ) (idoms : Idoms)
      → m + i ≡ suc (length rest)
      → Limited idoms rest 1 i
      → (out : Idoms) × (turns (suc m) idoms rest ≡ ok out) × Exact rest out
  unfolding turns
  turns-Exact zero i idoms count inv =
      let last : i ≡ suc (length rest) = omega (arith, count) in
      let at_last = subst (Limited idoms rest 1) last inv in
      elim inv.filled [
        | inl empty ↦ absurd (omega (arith, empty, last))
        | inr all ↦
            let run =
              quiet rest idoms at_last all within 1 rest (omega arith) (whole rest) earlier in
            (idoms, rw run refl, quiet-Exact i idoms idoms inv all run)
      ]
  turns-Exact (suc m) i idoms count inv =
      let (s, run, kept) = pass-Kept idoms 1 rest false inv.tree inv.upto (omega arith) earlier in
      let settled =
        pass-Limited rest i idoms 1 rest false s inv (omega arith) (whole rest) earlier run in
      let next = advance rest i s.0 settled in
      let (out, again, exact) = turns-Exact m (suc i) s.0 (omega (arith, count)) next in
      elim (Bool-cases s.1) [
        | inl changed ↦ (
          out,
          rw run (after s.1 (turns (suc m) s.0 rest) s.0 out (λ e. again) (λ e. cc (e, changed))),
          exact,
        )
        | inr still ↦
            let run_same : pass idoms 1 rest false ≡ ok (s.0, false) =
              run ∙ ap (λ (c : Bool). ok (s.0, c)) still in
            let unchanged = pass_quiet idoms s.0 rest inv.tree earlier run_same in
            (
              s.0,
              rw run (after s.1 (turns (suc m) s.0 rest) s.0 s.0 (λ e. cc (e, still)) (λ e. refl)),
              quiet-Exact i idoms s.0 inv
                  (subst (λ v. Upto v (suc (length rest))) unchanged settled.upto) run_same,
            )
      ]

entry_only-Limited : (rest : List (List ℕ)) → Limited entry_only rest 1 0
entry_only-Limited rest = record {
  tree = entry_only-Tree;
  upto = Tree-Upto entry_only entry_only-Tree;
  filled = inl refl;
  bounded = λ b d e. omega (arith, only b d e);
  limit = λ b d pos e path. no_budget rest d b path;
  limit_before = λ b d pos lt e path. absurd (omega (arith, pos, lt));
  ascends = λ b d e. subst (Ascends rest d) (sym (same_block b d e)) Ascends.stop;
  complete = λ x b known dominates. at_entry x b (only b known.0 known.1) dominates;
}
  where
    only : (b d : ℕ) → entry_only b ≡ some d → b ≡ 0
    only b d e = elim (Bool-cases (b == 0)) [ inl h ↦ (==_iff b 0).0 h | inr h ↦ cc (rw h at e) ]

    same_block : (b d : ℕ) → entry_only b ≡ some d → b ≡ d
    same_block b d e =
        let zero_b = only b d e in zero_b ∙ some-injective 0 d (sym (ap entry_only zero_b) ∙ e)

    at_entry : (x b : ℕ) → b ≡ 0 → Dominates rest x b → Above entry_only x b
    at_entry x b zero_b dominates = elim (Bool-cases (x == 0)) [
      | inl h ↦ subst (λ (c : ℕ). Above entry_only c b) (zero_b ∙ sym ((==_iff x 0).0 h)) Above.here
      | inr h ↦ absurd (dominates (subst (Avoids rest x) (sym zero_b) (Avoids.entry (apart x 0 h))))
    ]

-- Over blocks in reverse postorder, with predecessors that are blocks, one turn more than there are
-- blocks is enough: the tree is returned, and a block is above another one in it exactly if it is
-- on every path from the entry to that block.
pub immediate_dominators-Exact :
    (of_entry : List ℕ) (rest : List (List ℕ)) (x b : ℕ)
    → Earlier 1 rest
    → Within rest
    → b < length (of_entry ∷ rest)
    → (idoms : Idoms) × (immediate_dominators (suc (length (of_entry ∷ rest))) (of_entry ∷ rest)
        ≡ ok idoms)
      × (Above idoms x b ↔ Dominates rest x b)
unfolding immediate_dominators
immediate_dominators-Exact of_entry rest x b earlier within inside =
    let (idoms, run, exact) =
      turns-Exact rest earlier within (suc (length rest)) 0 entry_only (omega arith)
        (entry_only-Limited rest) in
    (idoms, run, exact x b inside)
