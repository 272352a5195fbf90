-- ===== src/Dom/Paths.antt =====
-- crates/pliron-ll/src/passes/dominance_frontier.rs, `immediate_dominators`: paths by the number of
-- their edges that do not lead to a later block, of which every turn settles one more.
use mathlib.Core.Path.{subst}
use crabbit.Prelude.{ℕ, zero, suc, ◌+◌, ◌≤◌, ◌<◌, ◌≡◌, ◌≢◌, refl, sym, arith, length}
use crabbit.Prelude.{Bool, true, false, inl, inr, Bool-cases, ◌==◌, ==_iff}
use crabbit.Prelude.{List, [], ◌∷◌, ◌⊎◌}
use crabbit.X86.Placement.Chain.{place, none_placed}
use crabbit.X86.Placement.Once.{free, free-all, free-place}
use crabbit.Dom.Sound.{Enters, Avoids}

pub Enters-low : (k p b : ℕ) (rest : List (List ℕ)) → Enters p k rest b → k ≤ b
Enters-low k p b [] edge = elim edge [ ]
Enters-low k p b (preds ∷ rest) (Enters.first m) = omega arith
Enters-low k p b (preds ∷ rest) (Enters.later edge) =
    omega (arith, Enters-low (suc k) p b rest edge)

pub Enters-high : (k p b : ℕ) (rest : List (List ℕ)) → Enters p k rest b → b < k + length rest
Enters-high k p b [] edge = elim edge [ ]
Enters-high k p b (preds ∷ rest) (Enters.first m) = omega arith
Enters-high k p b (preds ∷ rest) (Enters.later edge) =
    omega (arith, Enters-high (suc k) p b rest edge)

-- A path from the entry that does not come by a block, with fewer edges back than a budget.
pub data AvoidsIn (rest : List (List ℕ)) (x : ℕ) : ℕ → ℕ → Type 0 where
  entry : {i : ℕ} → x ≢ 0 → AvoidsIn rest x (suc i) 0
  forward :
      {i p b : ℕ} → AvoidsIn rest x i p → Enters p 1 rest b → p < b → x ≢ b → AvoidsIn rest x i b
  back : {i p b : ℕ} → AvoidsIn rest x i p → Enters p 1 rest b → x ≢ b → AvoidsIn rest x (suc i) b

pub apart : (d b : ℕ) → (d == b) ≡ false → d ≢ b
apart d b h e = cc ((==_iff d b).1 e, h)

module _ (rest : List (List ℕ)) where
  pub lift : (x i b : ℕ) → AvoidsIn rest x i b → AvoidsIn rest x (suc i) b
  lift x i b (AvoidsIn.entry other) = AvoidsIn.entry other
  lift x i b (AvoidsIn.forward {p = p} path edge lt other) =
      AvoidsIn.forward (lift x i p path) edge lt other
  lift x i b (AvoidsIn.back {i = j} {p = p} path edge other) =
      AvoidsIn.back (lift x j p path) edge other

  pub lift_more : (x i n b : ℕ) → AvoidsIn rest x i b → AvoidsIn rest x (n + i) b
  lift_more x i zero b path = subst (λ j. AvoidsIn rest x j b) (omega arith) path
  lift_more x i (suc n) b path =
      subst (λ j. AvoidsIn rest x j b) (omega arith) (lift x (n + i) b (lift_more x i n b path))

  pub not_self : (x i : ℕ) (b : ℕ) → AvoidsIn rest x i b → x ≢ b
  not_self x i b (AvoidsIn.entry other) = other
  not_self x i b (AvoidsIn.forward path edge lt other) = other
  not_self x i b (AvoidsIn.back path edge other) = other

  pub no_budget : (x b : ℕ) → AvoidsIn rest x 0 b → ⊥
  no_budget x b path = go 0 b path refl
    where
      go : (i c : ℕ) → AvoidsIn rest x i c → i ≡ 0 → ⊥
      go i c (AvoidsIn.entry other) e = omega (arith, e)
      go i c (AvoidsIn.forward {p = p} path edge lt other) e = go i p path e
      go i c (AvoidsIn.back path edge other) e = omega (arith, e)

  -- A path comes by another block too, or it has one to that block.
  pub split : (x d i b : ℕ) → AvoidsIn rest x i b → AvoidsIn rest d i b ⊎ AvoidsIn rest x i d
  split x d i b (AvoidsIn.entry other) = elim (Bool-cases (d == 0)) [
    | inl h ↦ inr (subst (AvoidsIn rest x i) (sym ((==_iff d 0).0 h)) (AvoidsIn.entry other))
    | inr h ↦ inl (AvoidsIn.entry (apart d 0 h))
  ]
  split x d i b (AvoidsIn.forward {p = p} path edge lt other) = elim (Bool-cases (d == b)) [
    | inl h ↦
        inr
          (subst (AvoidsIn rest x i) (sym ((==_iff d b).0 h)) (AvoidsIn.forward path edge lt other))
    | inr h ↦ elim (split x d i p path) [
      | inl by ↦ inl (AvoidsIn.forward by edge lt (apart d b h))
      | inr to ↦ inr to
    ]
  ]
  split x d i b (AvoidsIn.back {i = j} {p = p} path edge other) = elim (Bool-cases (d == b)) [
    | inl h ↦
        inr (subst (AvoidsIn rest x i) (sym ((==_iff d b).0 h)) (AvoidsIn.back path edge other))
    | inr h ↦ elim (split x d j p path) [
      | inl by ↦ inl (AvoidsIn.back by edge (apart d b h))
      | inr to ↦ inr (lift x j d to)
    ]
  ]

  -- A path that comes by no block twice, with the blocks it comes by and the number of its edges.
  data Trail (x : ℕ) : (ℕ → Bool) → ℕ → ℕ → Type 0 where
    start : x ≢ 0 → Trail x (place 0 none_placed) 0 0
    onward :
        {v : ℕ → Bool} {m p b : ℕ}
        → Trail x v m p
        → Enters p 1 rest b
        → x ≢ b
        → v b ≡ false
        → Trail x (place b v) (suc m) b

  abbrev Cut : ℕ → ℕ → Type 0
  Cut x b = (v : ℕ → Bool) × (m : ℕ) × Trail x v m b

  cut : (x : ℕ) (v : ℕ → Bool) (m p b : ℕ) → Trail x v m p → v b ≡ true → Cut x b
  cut x v m p b (Trail.start other) e = elim (Bool-cases (b == 0)) [
    | inl h ↦ subst (Cut x) (sym ((==_iff b 0).0 h)) (_, _, Trail.start other)
    | inr h ↦ absurd (cc (rw h at e))
  ]
  cut x v m p b (Trail.onward {v = w} {m = n} {p = q} t edge other fresh) e =
      elim (Bool-cases (b == p)) [
        | inl h ↦ subst (Cut x) (sym ((==_iff b p).0 h)) (_, _, Trail.onward t edge other fresh)
        | inr h ↦ cut x w n q b t (rw h at e)
      ]

  trail : (x b : ℕ) → Avoids rest x b → Cut x b
  trail x b (Avoids.entry other) = (_, _, Trail.start other)
  trail x b (Avoids.along {p = p} path edge other) =
      let (v, m, t) = trail x p path in
      elim (Bool-cases (v b)) [
        | inl seen ↦ cut x v m p b t seen
        | inr fresh ↦ (_, _, Trail.onward t edge other fresh)
      ]

  Trail-free :
      (x : ℕ) (v : ℕ → Bool) (m b : ℕ)
      → Trail x v m b
      → free v 0 (suc (length rest)) + suc m ≡ suc (length rest)
  Trail-free x v m b (Trail.start other) =
      let all : free none_placed 0 (suc (length rest)) ≡ suc (length rest) =
        free-all 0 (suc (length rest)) in
      let less : suc (free (place 0 none_placed) 0 (suc (length rest)))
          ≡ free none_placed 0 (suc (length rest)) =
        free-place none_placed 0 0 (suc (length rest)) (omega arith) (omega arith) refl in
      omega (arith, all, less)
  Trail-free x v m b (Trail.onward {v = w} {m = n} {p = q} t edge other fresh) =
      let below : b < 1 + length rest = Enters-high 1 q b rest edge in
      let less : suc (free (place b w) 0 (suc (length rest))) ≡ free w 0 (suc (length rest)) =
        free-place w b 0 (suc (length rest)) (omega arith) (omega (arith, below)) fresh in
      omega (arith, Trail-free x w n q t, less)

  Trail-AvoidsIn : (x : ℕ) (v : ℕ → Bool) (m b : ℕ) → Trail x v m b → AvoidsIn rest x (suc m) b
  Trail-AvoidsIn x v m b (Trail.start other) = AvoidsIn.entry other
  Trail-AvoidsIn x v m b (Trail.onward {v = w} {m = n} {p = q} t edge other fresh) =
      AvoidsIn.back (Trail-AvoidsIn x w n q t) edge other

  -- As many edges back as there are blocks are enough.
  pub Avoids-AvoidsIn : (x b : ℕ) → Avoids rest x b → AvoidsIn rest x (suc (length rest)) b
  Avoids-AvoidsIn x b path =
      let (v, m, t) = trail x b path in
      let count = Trail-free x v m b t in
      subst (λ (i : ℕ). AvoidsIn rest x i b) (omega (arith, count))
        (lift_more x (suc m) (free v 0 (suc (length rest))) b (Trail-AvoidsIn x v m b t))

  pub AvoidsIn-low : (x i b : ℕ) → AvoidsIn rest x i b → b < suc (length rest)
  AvoidsIn-low x i b (AvoidsIn.entry other) = omega arith
  AvoidsIn-low x i b (AvoidsIn.forward {p = p} path edge lt other) =
      omega (arith, Enters-high 1 p b rest edge)
  AvoidsIn-low x i b (AvoidsIn.back {p = p} path edge other) =
      omega (arith, Enters-high 1 p b rest edge)
