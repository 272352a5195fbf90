-- ===== src/Midend/Magic/Correct.antt =====
-- crates/pliron-ll/src/passes/llvm/div_strength_reduce.rs, `magic_unsigned`: what the loop ends
-- with divides every number of the word.
use native.Mathlib.Nat.{div-eq_of_lt-le, div-add-mod', mod-lt}
use crabbit.Prelude.{ℕ, ◌+◌, ◌-◌, ◌*◌, ◌/◌, ◌%◌, ◌^◌, ◌≤◌, ◌<◌, ◌≡◌, ap, sym, ◌∙◌, arith}
use crabbit.Prelude.{◌⊎◌, inl, inr}
use crabbit.Prelude.Bits.{mod_unique}
use crabbit.Midend.Magic.{Search}
use crabbit.Midend.Magic.Loop.{Found}

lt_of_scaled : (a b d : ℕ) → a * d < b * d → a < b
lt_of_scaled a b d h = grind arith

le_of_scaled : (a b d : ℕ) → 0 < d → a * d ≤ b * d → a ≤ b
le_of_scaled a b d h k = grind arith

-- A multiplier `m` with `m * d = power + delta` divides `x`, if the error `x * delta` is small.
quotient_of_product :
    (x q r d m power delta : ℕ)
    → x ≡ q * d + r
    → 0 < d
    → m * d ≡ power + delta
    → x * delta + r * power < d * power
    → x * m / power ≡ q
quotient_of_product x q r d m power delta hx hd hm small =
    let product = ap (λ (t : ℕ). x * t) hm in
    let dividend = ap (λ (t : ℕ). t * power) hx in
    div-eq_of_lt-le power (le_of_scaled (q * power) (x * m) d hd (omega (arith, product, dividend)))
      (lt_of_scaled (x * m) ((q + 1) * power) d (omega (arith, product, dividend, small)))

scale : (a b c : ℕ) → a ≤ b → a * c ≤ b * c
scale a b c h = grind arith

-- `nc` is one less than a multiple of `d`, and the largest such number below `n`.
past_nc :
    (x q r d n nc k : ℕ)
    → x ≡ q * d + r
    → r < d
    → nc + 1 ≡ k * d
    → n < nc + 1 + d
    → nc < x
    → x < n
    → (x ≡ nc + 1 + r) × (r + 2 ≤ d)
past_nc x q r d n nc k hx hr hk hn past lt =
    let rest : x - (nc + 1) ≡ r =
      sym (mod_unique k d (x - (nc + 1)) (omega (arith, hk)) (omega arith))
      ∙ mod_unique q d r hx hr in
    omega (arith, rest)

-- So the error is small for every `x` below `n`.
error_small :
    (x r d nc power delta : ℕ)
    → r < d
    → d ≤ nc + 1
    → nc * delta < power
    → (x ≤ nc) ⊎ ((x ≡ nc + 1 + r) × (r + 2 ≤ d))
    → x * delta + r * power < d * power
error_small x r d nc power delta hr hd exact (inl small) =
    omega (arith, scale x nc delta small, scale (r + 1) d power (omega arith))
error_small x r d nc power delta hr hd exact (inr p) = omega (
  arith,
  ap (λ (t : ℕ). t * delta) p.0,
  scale (r + 1) nc delta (omega (arith, p.1)),
  scale (r + 2) d power p.1,
)

le_or_past : (x nc : ℕ) → (x ≤ nc) ⊎ (nc < x)
le_or_past x nc = omega arith

module _ (d n nc k : ℕ) (d_pos : 0 < d) (hk : nc + 1 ≡ k * d) (nc_top : n < nc + 1 + d)
    (d_le : d ≤ nc + 1) where
  -- A multiplier whose error is small enough divides every number below `n`.
  pub multiplier_divides :
      (m power delta : ℕ)
      → m * d ≡ power + delta
      → nc * delta < power
      → (x : ℕ) → x < n
      → x * m / power ≡ x / d
  multiplier_divides m power delta product exact x h =
      let hx : x ≡ x / d * d + x % d = sym (div-add-mod' x d) in
      let hr : x % d < d = mod-lt x d_pos in
      quotient_of_product x (x / d) (x % d) d m power delta hx d_pos product (
        error_small x (x % d) d nc power delta hr d_le exact (elim (le_or_past x nc) [
          | inl le ↦ inl le
          | inr past ↦ inr (past_nc x (x / d) (x % d) d n nc k hx hr hk nc_top past h)
        ]))

-- Every number of the word is divided by the multiplier that the loop ends with.
module _ (d n nc k width : ℕ) (s : Search) (d_pos : 0 < d) (found : Found d n nc width s)
    (hk : nc + 1 ≡ k * d) (nc_top : n < nc + 1 + d) (d_le : d ≤ nc + 1) where
  pub found_divides : (x : ℕ) → x < n → x * (s.q2 + 1) / 2 ^ s.p ≡ x / d
  found_divides =
      multiplier_divides d n nc k d_pos hk nc_top d_le (s.q2 + 1) (2 ^ s.p) (d - 1 - s.r2)
        (omega (arith, found.divides.second, found.divides.second_lt)) found.exact
