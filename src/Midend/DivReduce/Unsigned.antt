-- ===== src/Midend/DivReduce/Unsigned.antt =====
-- crates/pliron-ll/src/passes/llvm/div_strength_reduce.rs: the sequences for unsigned division
-- and remainder compute the quotient and the remainder.
use mathlib.Core.Path.{subst}
use native.Mathlib.Nat.{
  div-one, add-zero, add-mul-div_right, div-le_of_le-mul, pow-suc, div-div-eq-div-mul, div-add-mod',
  div-le_self, pow-le-pow_right, one-le-pow,
}
use crabbit.Prelude.{ℕ, zero, suc, ◌+◌, ◌-◌, ◌*◌, ◌/◌, ◌%◌, ◌^◌, ◌≤◌, ◌<◌, ◌≡◌, ◌∙◌, sym, ap, arith}
use crabbit.Prelude.{◌⊎◌, inl, inr, true, false, Bool-cases, ◌==◌, ==_iff}
use crabbit.Midend.Const.{ConstOperand}
use crabbit.Midend.Fold.{Value}
use crabbit.Midend.Magic.{magic_unsigned, UnsignedMagic}
use crabbit.Midend.Magic.Loop.{two_pow-add}
use crabbit.Midend.Magic.Exact.{IsMagic, magic_unsigned-IsMagic}
use crabbit.Midend.DivReduce.{
  DivKind, kind_signed, trailing_zeros, is_power_of_two, emit_const, emit_add, emit_sub, emit_and,
  emit_lshr, emit_mulh, expand_udiv, expand, emit_rem_from_quotient,
}
use crabbit.Midend.DivReduce.Emit.{
  Has, value-const, value-add, value-sub, value-mul, value-and, value-lshr,
}
use crabbit.Midend.DivReduce.Mulh.{value-mulh}

-- The word without the top bit of the multiplier: `x * m / 2 ^ (w + s)` in two shifts.
narrow_quotient : (v m w s q : ℕ) → v * (m + 0) / 2 ^ (w + s) ≡ q → v * m / 2 ^ w / 2 ^ s ≡ q
narrow_quotient v m w s q e =
    div-div-eq-div-mul (v * m) (2 ^ w) (2 ^ s)
    ∙ ap (λ (t : ℕ). v * m / t) (sym (two_pow-add w s))
    ∙ rw (add-zero m) at e

half_sum : (v t : ℕ) → t ≤ v → (v - t) / 2 + t ≡ (t + v) / 2
half_sum v t h = omega arith

double_pred : (s : ℕ) → 1 ≤ s → 2 * 2 ^ (s - 1) ≡ 2 ^ s
double_pred zero h = absurd (omega arith)
double_pred (suc s) h = let e : suc s - 1 ≡ s = omega arith in rw e (omega (arith, pow-suc 2 s))

product_le : (v m p : ℕ) → m < p → v * m ≤ p * v
product_le v m p h = grind arith

high_le : (v m p : ℕ) → m < p → v * m / p ≤ v
high_le v m p h = div-le_of_le-mul p (product_le v m p h)

-- With it: the sum of the high word and the dividend, which the fixup halves before it adds.
wide_quotient :
    (v m w s q : ℕ)
    → v * (m + 2 ^ w) / 2 ^ (w + s) ≡ q
    → 1 ≤ s
    → m < 2 ^ w
    → ((v - v * m / 2 ^ w) / 2 + v * m / 2 ^ w) / 2 ^ (s - 1) ≡ q
wide_quotient v m w s q e pos lt =
    let t = v * m / 2 ^ w in
    let whole : v * (m + 2 ^ w) / 2 ^ w ≡ t + v =
      ap (λ (n : ℕ). n / 2 ^ w) (omega arith)
      ∙ add-mul-div_right (v * m) v (one-le-pow w 2 (omega arith)) in
    ap (λ (n : ℕ). n / 2 ^ (s - 1)) (half_sum v t (high_le v m (2 ^ w) lt))
    ∙ div-div-eq-div-mul (t + v) 2 (2 ^ (s - 1))
    ∙ ap (λ (n : ℕ). (t + v) / n) (double_pred s pos)
    ∙ ap (λ (n : ℕ). n / 2 ^ s) (sym whole)
    ∙ div-div-eq-div-mul (v * (m + 2 ^ w)) (2 ^ w) (2 ^ s)
    ∙ ap (λ (n : ℕ). v * (m + 2 ^ w) / n) (sym (two_pow-add w s))
    ∙ e

le_or_lt : (n m : ℕ) → (n ≤ m) ⊎ (m < n)
le_or_lt n m = omega arith

pub exponent_lt : (k w : ℕ) → 2 ^ k < 2 ^ w → k < w
exponent_lt k w h = elim (le_or_lt w k) [
  | inl le ↦ absurd (omega (arith, pow-le-pow_right {n = 2} (omega arith) {i = w} {j = k} le))
  | inr lt ↦ lt
]

pub self_lt_two_pow : (w : ℕ) → w < 2 ^ w
self_lt_two_pow zero = omega arith
self_lt_two_pow (suc w) = omega (arith, pow-suc 2 w, self_lt_two_pow w)

module _ (x : ConstOperand) (width : ℕ) (word : (width ≡ 32) ⊎ (width ≡ 64)) (a : Value) (v d : ℕ)
    (ha : Has x a width v) (v_lt : v < 2 ^ width) (d_ge : 2 ≤ d) (d_lt : d < 2 ^ width) where
  narrow : width < 128
  narrow = omega arith

  constant : (n : ℕ) → n ≤ width → Has x (emit_const width n) width n
  constant n h = value-const x width n narrow (omega (arith, self_lt_two_pow width))

  becomes : (b : Value) {n k : ℕ} → n ≡ k → Has x b width n → Has x b width k
  becomes b e h = subst (λ t. Has x b width t) e h

  power_of_two : is_power_of_two d ≡ true → d ≡ 2 ^ trailing_zeros d
  unfolding is_power_of_two
  power_of_two h = (==_iff d _).0 h

  zeros_lt : is_power_of_two d ≡ true → trailing_zeros d < width
  zeros_lt h = exponent_lt _ width (omega (arith, power_of_two h))

  by_shift :
      is_power_of_two d ≡ true
      → Has x (emit_lshr a (emit_const width (trailing_zeros d))) width (v / d)
  by_shift h =
      let k_lt = zeros_lt h in
      becomes _ (ap (λ (t : ℕ). v / t) (sym (power_of_two h))) (
        value-lshr x width narrow a _ v (trailing_zeros d) ha
          (constant (trailing_zeros d) (omega arith)) v_lt (omega (arith, self_lt_two_pow width))
          k_lt)

  magic : IsMagic d width (magic_unsigned d width)
  magic = magic_unsigned-IsMagic d width (omega arith) narrow d_ge d_lt

  abbrev m : UnsignedMagic
  m = magic_unsigned d width

  high : Has x (emit_mulh width a m.multiplier false) width (v * m.multiplier / 2 ^ width)
  high = value-mulh x width a v m.multiplier word ha v_lt magic.fits

  high_lt : v * m.multiplier / 2 ^ width < 2 ^ width
  high_lt = omega (arith, high_le v m.multiplier (2 ^ width) magic.fits)

  exact : m.add ≡ false → v * m.multiplier / 2 ^ width / 2 ^ m.shift ≡ v / d
  exact h = narrow_quotient v m.multiplier width m.shift (v / d) (rw h at (magic.exact v v_lt))

  by_high : m.add ≡ false → m.shift ≡ 0 → Has x (emit_mulh width a m.multiplier false) width (v / d)
  by_high h z = becomes _ (sym (div-one _) ∙ (rw z at (exact h))) high

  by_high_shifted :
      m.add ≡ false
      → Has x
          (emit_lshr (emit_mulh width a m.multiplier false) (emit_const width m.shift))
          width
          (v / d)
  by_high_shifted h =
      let s_lt = magic.shift_narrow h in
      becomes _ (exact h) (
        value-lshr x width narrow _ _ _ m.shift high (constant m.shift (omega arith)) high_lt
          (omega (arith, self_lt_two_pow width)) s_lt)

  by_fixup :
      m.add ≡ true
      → Has x
          (emit_lshr
            (emit_add
              (emit_lshr (emit_sub a (emit_mulh width a m.multiplier false)) (emit_const width 1))
              (emit_mulh width a m.multiplier false))
            (emit_const width (m.shift - 1)))
          width
          (v / d)
  by_fixup h =
      let s_ok = magic.shift_wide h in
      let t = v * m.multiplier / 2 ^ width in
      let t_le : t ≤ v = high_le v m.multiplier (2 ^ width) magic.fits in
      let fits = self_lt_two_pow width in
      let diff = value-sub x width narrow a _ v t ha high v_lt high_lt t_le in
      let half =
        value-lshr x width narrow _ _ (v - t) 1 diff (constant 1 (omega arith)) (omega arith)
          (omega arith) (omega arith) in
      let sum =
        value-add x width narrow _ _ ((v - t) / 2) t half high (omega arith) high_lt
          (omega arith) in
      becomes _
        (wide_quotient v m.multiplier width m.shift (v / d) (rw h at (magic.exact v v_lt)) s_ok.0
          magic.fits)
        (value-lshr x width narrow _ _ ((v - t) / 2 + t) (m.shift - 1) sum
          (constant (m.shift - 1) (omega (arith, s_ok))) (omega arith) (omega (arith, s_ok))
          (omega (arith, s_ok)))

  value-expand_udiv : Has x (expand_udiv width a d) width (v / d)
  unfolding expand_udiv
  value-expand_udiv = elim (Bool-cases (is_power_of_two d)) [
    | inl p ↦ rw p (by_shift p)
    | inr p ↦ elim (Bool-cases m.add) [
      | inl add ↦ rw (p, add) (by_fixup add)
      | inr add ↦ elim (Bool-cases (m.shift == 0)) [
        | inl z ↦ rw (p, add, z) (by_high add ((==_iff _ 0).0 z))
        | inr z ↦ rw (p, add, z) (by_high_shifted add)
      ]
    ]
  ]

  remainder_by_mask :
      is_power_of_two d ≡ true → Has x (emit_and a (emit_const width (d - 1))) width (v % d)
  remainder_by_mask h = becomes _ (ap (λ (t : ℕ). v % t) (sym (power_of_two h))) (
      value-and x width narrow a _ v (d - 1) ha (value-const x width (d - 1) narrow (omega arith))
        v_lt (omega arith) (trailing_zeros d) (ap (λ (t : ℕ). t - 1) (power_of_two h)))

  remainder_from_quotient :
      Has x (emit_rem_from_quotient width a (expand_udiv width a d) d) width (v % d)
  unfolding emit_rem_from_quotient
  remainder_from_quotient =
      let q_lt : v / d < 2 ^ width = omega (arith, div-le_self v d) in
      let back : v / d * d + v % d ≡ v = div-add-mod' v d in
      let prod =
        value-mul x width narrow _ _ (v / d) d value-expand_udiv (value-const x width d narrow d_lt)
          q_lt d_lt (omega (arith, back)) in
      becomes _ (omega (arith, back)) (
        value-sub x width narrow a _ v (v / d * d) ha prod v_lt (omega (arith, back))
          (omega (arith, back)))

  value-expand_urem : Has x (expand DivKind.u_rem width a d) width (v % d)
  unfolding expand
  value-expand_urem = elim (Bool-cases (is_power_of_two d)) [
    | inl p ↦ rw p (remainder_by_mask p)
    | inr p ↦ rw p remainder_from_quotient
  ]

-- What an unsigned division of a given kind computes.
abbrev pub unsigned_result : DivKind → ℕ → ℕ → ℕ
unsigned_result DivKind.u_div v d = v / d
unsigned_result DivKind.u_rem v d = v % d
unsigned_result _ v d = 0

pub value-expand_unsigned :
    (kind : DivKind)
    → kind_signed kind ≡ false
    → (x : ConstOperand) (width : ℕ) → (width ≡ 32) ⊎ (width ≡ 64)
    → (a : Value) (v d : ℕ) → Has x a width v
    → v < 2 ^ width
    → 2 ≤ d
    → d < 2 ^ width
    → Has x (expand kind width a d) width (unsigned_result kind v d)
unfolding expand
value-expand_unsigned DivKind.u_div u x width word a v d ha v_lt d_ge d_lt =
    value-expand_udiv x width word a v d ha v_lt d_ge d_lt
value-expand_unsigned DivKind.u_rem u x width word a v d ha v_lt d_ge d_lt =
    value-expand_urem x width word a v d ha v_lt d_ge d_lt
value-expand_unsigned DivKind.s_div u x width word a v d ha v_lt d_ge d_lt = cc
value-expand_unsigned DivKind.s_rem u x width word a v d ha v_lt d_ge d_lt = cc
