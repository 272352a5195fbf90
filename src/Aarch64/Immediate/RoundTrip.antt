-- ===== src/Aarch64/Immediate/RoundTrip.antt =====
-- crates/pliron-ll/src/aarch64/encoding.rs: `fmov_imm8_for_*` finds the immediate of every constant
-- that has one.
use crabbit.Prelude.{
  ℕ, ◌-◌, zero, suc, ◌+◌, ◌*◌, ◌/◌, ◌%◌, ◌^◌, ◌≤◌, ◌<◌, ◌≡◌, ◌≢◌, refl, ◌∙◌, sym, ap, arith,
}
use crabbit.Prelude.{inl, inr, Bool, true, false, ◌&&◌, ◌==◌, ==_iff, Bool-cases, some, ◌⊎◌}
use crabbit.Aarch64.Immediate.{
  vfp_expand_imm_f64, vfp_expand_imm_f32, find_imm8, fmov_imm8_for_f64_bits, fmov_imm8_for_f32_bits,
}

-- A test that passes on the numbers below a bound.
all_below : (ℕ → Bool) → ℕ → Bool
all_below test zero = true
all_below test (suc n) = test n && all_below test n

module _ (test : ℕ → Bool) where
  both : (x y : Bool) → (x && y) ≡ true → (x ≡ true) × (y ≡ true)
  both x y e = ground arith

  all_below-lt : (n i : ℕ) → all_below test n ≡ true → i < n → test i ≡ true
  unfolding all_below
  all_below-lt zero i e h = absurd (omega arith)
  all_below-lt (suc n) i e h =
      let (here, below) = both (test n) (all_below test n) e in
      elim (last i n h) [ inl at ↦ rw at here | inr lt ↦ all_below-lt n i below lt ]
    where
      last : (i n : ℕ) → i < suc n → (i ≡ n) ⊎ (i < n)
      last i n h = omega arith

  -- The search finds a number that passes, if there is one in its range.
  find-finds :
      (left start i : ℕ)
      → start ≤ i
      → i < start + left
      → test i ≡ true
      → (j : ℕ) × (find_imm8 test left start ≡ some j) × (test j ≡ true) × (j ≤ i)
  unfolding find_imm8
  find-finds zero start i le lt e = absurd (omega arith)
  find-finds (suc left) start i le lt e = elim (Bool-cases (test start)) [
    | inl t ↦ rw t (start, refl, t, le)
    | inr t ↦
        rw t (find-finds left (suc start) i (omega (arith, differs start i e t)) (omega arith) e)
  ]
    where
      differs : (start i : ℕ) → test i ≡ true → test start ≡ false → start ≢ i
      differs start i e t p = cc

  same : {i j : ℕ} → some i ≡ some j → test i ≡ true → test j ≡ true
  same e t = cc

  -- What the search finds passes.
  find-passes : (left start j : ℕ) → find_imm8 test left start ≡ some j → test j ≡ true
  unfolding find_imm8
  find-passes zero start j e = cc
  find-passes (suc left) start j e = elim (Bool-cases (test start)) [
    | inl t ↦ same (rw t at e) t
    | inr t ↦ find-passes left (suc start) j (rw t at e)
  ]

module _ (expand : ℕ → ℕ) (back : ℕ → ℕ)
    (inverse : all_below (λ (i : ℕ). back (expand i) == i) 256 ≡ true) where
  back-expand : (i : ℕ) → i < 256 → back (expand i) ≡ i
  back-expand i h = (==_iff _ i).0 (all_below-lt (λ (n : ℕ). back (expand n) == n) 256 i inverse h)

  found : (i : ℕ) → i < 256 → find_imm8 (λ imm8. expand imm8 == expand i) 256 0 ≡ some i
  found i h =
      let (j, e, passes, le) =
        find-finds (λ imm8. expand imm8 == expand i) 256 0 i (omega arith) h
          ((==_iff (expand i) (expand i)).1 refl) in
      e
      ∙ ap some (
          sym (back-expand j (omega (arith, le)))
          ∙ ap back ((==_iff (expand j) (expand i)).0 passes)
          ∙ back-expand i h)

-- The immediate that a double's bits stand for.
imm8_of_f64 : ℕ → ℕ
imm8_of_f64 bits =
    bits / 2 ^ 63 * 128 + (1 - bits / 2 ^ 62 % 2) * 64 + bits / 2 ^ 52 % 4 * 16 + bits / 2 ^ 48 % 16

imm8_of_f32 : ℕ → ℕ
imm8_of_f32 bits =
    bits / 2 ^ 31 * 128 + (1 - bits / 2 ^ 30 % 2) * 64 + bits / 2 ^ 23 % 4 * 16 + bits / 2 ^ 19 % 16

inverse_f64 : all_below (λ (i : ℕ). imm8_of_f64 (vfp_expand_imm_f64 i) == i) 256 ≡ true
unfolding all_below imm8_of_f64 vfp_expand_imm_f64
inverse_f64 = refl

inverse_f32 : all_below (λ (i : ℕ). imm8_of_f32 (vfp_expand_imm_f32 i) == i) 256 ≡ true
unfolding all_below imm8_of_f32 vfp_expand_imm_f32
inverse_f32 = refl

-- The double that an 8-bit immediate expands to is given that immediate back.
pub fmov_imm8_for_f64_bits-vfp_expand_imm_f64 :
    (imm8 : ℕ) → imm8 < 256 → fmov_imm8_for_f64_bits (vfp_expand_imm_f64 imm8) ≡ some imm8
unfolding fmov_imm8_for_f64_bits
fmov_imm8_for_f64_bits-vfp_expand_imm_f64 imm8 h =
    found vfp_expand_imm_f64 imm8_of_f64 inverse_f64 imm8 h

-- The single that an 8-bit immediate expands to is given that immediate back.
pub fmov_imm8_for_f32_bits-vfp_expand_imm_f32 :
    (imm8 : ℕ) → imm8 < 256 → fmov_imm8_for_f32_bits (vfp_expand_imm_f32 imm8) ≡ some imm8
unfolding fmov_imm8_for_f32_bits
fmov_imm8_for_f32_bits-vfp_expand_imm_f32 imm8 h =
    found vfp_expand_imm_f32 imm8_of_f32 inverse_f32 imm8 h

-- An immediate that a single is given expands to it.
pub vfp_expand_imm_f32-fmov_imm8_for_f32_bits :
    (imm8 bits : ℕ) → fmov_imm8_for_f32_bits bits ≡ some imm8 → vfp_expand_imm_f32 imm8 ≡ bits
unfolding fmov_imm8_for_f32_bits
vfp_expand_imm_f32-fmov_imm8_for_f32_bits imm8 bits e =
    (==_iff (vfp_expand_imm_f32 imm8) bits).0 (find-passes _ 256 0 imm8 e)
