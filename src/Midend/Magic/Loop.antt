-- ===== src/Midend/Magic/Loop.antt =====
-- crates/pliron-ll/src/passes/llvm/div_strength_reduce.rs, `magic_unsigned`: the loop ends by
-- its test within `width + 1` rounds, and what holds then.
use native.Mathlib.Nat.{pow-suc, add-zero, add-suc}
use native.Mathlib.Numerals.{towards_suc}
use crabbit.Prelude.{ℕ, zero, suc, ◌+◌, ◌-◌, ◌*◌, ◌^◌, ◌≤◌, ◌<◌, ◌≡◌, refl, ap, ◌∙◌, sym, arith}
use crabbit.Prelude.{false, inl, inr, Bool-cases}
use crabbit.Midend.Magic.{Search, unsigned_step, unsigned_continues, unsigned_loop}
use crabbit.Midend.Magic.Unsigned.{
  Divides, step-Divides, continues_cases, stop_exceeds, go_bound, quotient_bound,
}

-- What the loop ends with.
pub record Found (d n nc width : ℕ) (s : Search) : Type 0 where
  pub divides : Divides d n nc (2 ^ s.p) s
  pub exact : nc * (d - 1 - s.r2) < 2 ^ s.p
  pub above : width ≤ s.p
  pub below : s.p ≤ 2 * width
  pub small : s.q2 + 1 < 2 * n

two_pow-suc : (p : ℕ) → 2 ^ (p + 1) ≡ 2 * 2 ^ p
two_pow-suc p = simp towards_suc (omega (arith, pow-suc 2 p))

pub two_pow-add : (a b : ℕ) → 2 ^ (a + b) ≡ 2 ^ a * 2 ^ b
two_pow-add a zero = rw (add-zero a) (omega arith)
two_pow-add a (suc b) = rw (add-suc a b) (
    omega (
      arith,
      pow-suc 2 (a + b),
      ap (λ (t : ℕ). t * 2) (two_pow-add a b),
      ap (λ (t : ℕ). 2 ^ a * t) (pow-suc 2 b),
    ))

module _ (d h nc width : ℕ) (pos : 0 < h) (d_ge : 2 ≤ d) (d_lt : d < 2 * h) (nc_lt : nc < 2 * h)
    (word : 2 ^ width ≡ 2 * h) where
  p-next : (s : Search) → (unsigned_step d h nc s).p ≡ s.p + 1
  unfolding unsigned_step
  p-next s = refl

  power-next : (s : Search) → 2 ^ (unsigned_step d h nc s).p ≡ 2 * 2 ^ s.p
  power-next s = rw (p-next s) (two_pow-suc s.p)

  next :
      (s : Search)
      → Divides d (2 * h) nc (2 ^ s.p) s
      → Divides d (2 * h) nc (2 ^ (unsigned_step d h nc s).p) (unsigned_step d h nc s)
  next s v = rw (power-next s) (step-Divides d h nc (2 ^ s.p) s pos v)

  square : (s : Search) → s.p ≤ 2 * width → 2 * width ≤ s.p → 2 ^ s.p ≡ 2 * h * (2 * h)
  square s a b =
      let e : s.p ≡ width + width = omega arith in rw (e, two_pow-add width width, word) refl

  exit :
      (s : Search)
      → Divides d (2 * h) nc (2 ^ (unsigned_step d h nc s).p) (unsigned_step d h nc s)
      → (t : ℕ) → t * (2 * h) ≡ 2 * 2 ^ s.p
      → t ≤ 2 * (d - 1)
      → width ≤ s.p + 1
      → s.p < 2 * width
      → unsigned_continues d width (unsigned_step d h nc s) ≡ false
      → Found d (2 * h) nc width (unsigned_step d h nc s)
  exit s v t ht hd above below stop = record {
    divides = v;
    exact =
        stop_exceeds d (2 * h) nc width _ _ v nc_lt (omega arith)
          (square (unsigned_step d h nc s) (omega (arith, p-next s))) stop;
    above = omega (arith, p-next s);
    below = omega (arith, p-next s);
    small = quotient_bound _ d _ (2 * h) t _ v.second (ht ∙ sym (power-next s)) hd d_lt d_ge;
  }

  -- `t` is `2 ^ (p + 1 - width)`.
  pub loop-Found :
      (fuel t : ℕ) (s : Search)
      → Divides d (2 * h) nc (2 ^ s.p) s
      → t * (2 * h) ≡ 2 * 2 ^ s.p
      → t ≤ 2 * (d - 1)
      → width ≤ s.p + 1
      → s.p < 2 * width
      → 2 * width ≤ fuel + s.p
      → Found d (2 * h) nc width (unsigned_loop fuel d width h nc s)
  unfolding unsigned_loop
  loop-Found zero t s v ht hd above below fuel_fits = absurd (omega arith)
  loop-Found (suc fuel) t s v ht hd above below fuel_fits =
      let s' = unsigned_step d h nc s in
      let v' : Divides d (2 * h) nc (2 ^ s'.p) s' = next s v in
      let e : t * (2 * h) ≡ 2 ^ s'.p = ht ∙ sym (power-next s) in
      elim (Bool-cases (unsigned_continues d width s')) [
        | inl go ↦
            rw (go, unsigned_loop)
              (loop-Found fuel (2 * t) s' v' (omega (arith, e))
                (omega (arith, go_bound d (2 * h) nc width _ t s' v' nc_lt e go))
                (omega (arith, p-next s)) (continues_cases d width s' go).0
                (omega (arith, p-next s)))
        | inr stop ↦ rw (stop, unsigned_loop) (exit s v' t ht hd above below stop)
      ]
