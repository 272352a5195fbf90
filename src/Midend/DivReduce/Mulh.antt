-- ===== src/Midend/DivReduce/Mulh.antt =====
-- crates/pliron-ll/src/passes/llvm/div_strength_reduce.rs, `emit_mulh`: the unsigned sequences
-- compute the high word of the product, with no overflow on the way.
use crabbit.Prelude.{
  ℕ, zero, suc, ◌+◌, ◌*◌, ◌/◌, ◌%◌, ◌^◌, ◌≤◌, ◌<◌, ◌≡◌, refl, ◌∙◌, sym, ap, arith,
}
use mathlib.Core.Path.{subst}
use crabbit.Prelude.{◌⊎◌, inl, inr, false}
use crabbit.Prelude.Bits.{bit_and_mask}
use crabbit.Midend.Const.{ConstOperand}
use crabbit.Midend.Const.Laws.{mask_to_width-lt}
use crabbit.Midend.Fold.{Value}
use crabbit.Midend.DivReduce.{
  emit_const, emit_and, emit_lshr, emit_mul, emit_add, emit_mulh, emit_mulh_32, emit_mulh_64,
}
use crabbit.Midend.DivReduce.Emit.{
  Has, value-const, value-add, value-mul, value-and, value-lshr, value-zext, value-trunc,
}

product_lt : (a b n : ℕ) → a < n → b < n → a * b < n * n
product_lt a b n h k = grind arith

product_mono : (a b n : ℕ) → a ≤ n → b ≤ n → a * b ≤ n * n
product_mono a b n h k = grind arith

-- `product_lt` with room for a carry.
product_le : (a b n : ℕ) → a < n → b < n → a * b + 2 * n ≤ n * n + 1
product_le a b zero h k = absurd (omega arith)
product_le a b (suc n) h k = omega (arith, product_mono a b n (omega arith) (omega arith))

value-mulh_32 :
    (x : ConstOperand) (a : Value) (v m : ℕ)
    → Has x a 32 v
    → v < 2 ^ 32
    → m < 2 ^ 32
    → Has x (emit_mulh_32 a m false) 32 (v * m / 2 ^ 32)
unfolding emit_mulh_32
value-mulh_32 x a v m ha v_lt m_lt =
    let wide = value-zext x 32 (omega arith) a v ha v_lt 64 (omega arith) (omega arith) in
    let m_c = value-const x 64 m (omega arith) (omega arith) in
    let bound = product_lt v m (2 ^ 32) v_lt m_lt in
    let prod =
      value-mul x 64 (omega arith) _ _ v m wide m_c (omega arith) (omega arith)
        (omega (arith, bound)) in
    let c32 = value-const x 64 32 (omega arith) (omega arith) in
    let hi =
      value-lshr x 64 (omega arith) _ _ (v * m) 32 prod c32 (omega (arith, bound)) (omega arith)
        (omega arith) in
    value-trunc x 64 (omega arith) _ (v * m / 2 ^ 32) hi (omega (arith, bound)) 32 (omega arith)
      (omega (arith, bound))

abbrev lo : ℕ → ℕ
lo n = n % 2 ^ 32

abbrev hi : ℕ → ℕ
hi n = n / 2 ^ 32

halves : (n : ℕ) → n ≡ hi n * 2 ^ 32 + lo n
halves n = omega arith

product_halves :
    (v m : ℕ) → v * m ≡ hi v * hi m * 2 ^ 64 + (hi v * lo m + lo v * hi m) * 2 ^ 32 + lo v * lo m
product_halves v m = omega (
  arith,
  ap (λ (t : ℕ). t * m) (halves v),
  ap (λ (t : ℕ). hi v * t) (halves m),
  ap (λ (t : ℕ). lo v * t) (halves m),
)

-- The sum of the four partial products, with their carries.
carries :
    (p00 p01 p10 p11 : ℕ)
    → p11 + (p10 + p00 / 2 ^ 32) / 2 ^ 32 + (p01 + (p10 + p00 / 2 ^ 32) % 2 ^ 32) / 2 ^ 32
      ≡ (p11 * 2 ^ 64 + (p10 + p01) * 2 ^ 32 + p00) / 2 ^ 64
carries p00 p01 p10 p11 = omega arith

mulh_halves :
    (v m : ℕ)
    → hi v * hi m
        + hi (hi v * lo m + hi (lo v * lo m))
        + hi (lo v * hi m + lo (hi v * lo m + hi (lo v * lo m)))
      ≡ v * m / 2 ^ 64
mulh_halves v m =
    carries (lo v * lo m) (lo v * hi m) (hi v * lo m) (hi v * hi m)
    ∙ ap (λ (t : ℕ). t / 2 ^ 64) (sym (product_halves v m))

-- The halves of the operands, whose products and carries all fit 64 bits.
module _ (x : ConstOperand) (a : Value) (v m : ℕ) (ha : Has x a 64 v) (v_lt : v < 2 ^ 64)
    (m_lt : m < 2 ^ 64) where
  w : 64 < 128
  w = omega arith

  mask32 : Has x (emit_const 64 0xFFFF_FFFF) 64 0xFFFF_FFFF
  mask32 = value-const x 64 _ w (omega arith)

  c32 : Has x (emit_const 64 32) 64 32
  c32 = value-const x 64 _ w (omega arith)

  low :
      (b : Value) (n : ℕ)
      → Has x b 64 n
      → n < 2 ^ 64
      → Has x (emit_and b (emit_const 64 0xFFFF_FFFF)) 64 (lo n)
  low b n h fits = value-and x 64 w b _ n _ h mask32 fits (omega arith) 32 refl

  high :
      (b : Value) (n : ℕ)
      → Has x b 64 n
      → n < 2 ^ 64
      → Has x (emit_lshr b (emit_const 64 32)) 64 (hi n)
  high b n h fits = value-lshr x 64 w b _ n 32 h c32 fits (omega arith) (omega arith)

  times :
      (b c : Value) (n k : ℕ)
      → Has x b 64 n
      → Has x c 64 k
      → n < 2 ^ 32
      → k < 2 ^ 32
      → Has x (emit_mul b c) 64 (n * k)
  times b c n k hb hc n_lt k_lt =
      value-mul x 64 w b c n k hb hc (omega arith) (omega arith)
        (omega (arith, product_lt n k (2 ^ 32) n_lt k_lt))

  plus :
      (b c : Value) (n k : ℕ)
      → Has x b 64 n
      → Has x c 64 k
      → n + k < 2 ^ 64
      → Has x (emit_add b c) 64 (n + k)
  plus b c n k hb hc fits = value-add x 64 w b c n k hb hc (omega arith) (omega arith) fits

  room : (n k : ℕ) → n < 2 ^ 32 → k < 2 ^ 32 → n * k + 2 * 2 ^ 32 ≤ 2 ^ 64 + 1
  room n k h h' = product_le n k (2 ^ 32) h h'

  value-mulh_64 : Has x (emit_mulh_64 a m false) 64 (v * m / 2 ^ 64)
  unfolding emit_mulh_64
  value-mulh_64 =
      rw (bit_and_mask 32 m, mask_to_width-lt m 64 w m_lt)
        (let u0 = low _ _ ha v_lt in
          let u1 = high _ _ ha v_lt in
          let v0 = value-const x 64 (lo m) w (omega arith) in
          let v1 = value-const x 64 (hi m) w (omega arith) in
          let r00 = room (lo v) (lo m) (omega arith) (omega arith) in
          let r10 = room (hi v) (lo m) (omega arith) (omega arith) in
          let r01 = room (lo v) (hi m) (omega arith) (omega arith) in
          let r11 = room (hi v) (hi m) (omega arith) (omega arith) in
          let w0_hi =
            high _ _ (times _ _ _ _ u0 v0 (omega arith) (omega arith)) (omega (arith, r00)) in
          let t =
            plus _ _ _ _ (times _ _ _ _ u1 v0 (omega arith) (omega arith)) w0_hi
              (omega (arith, r00, r10)) in
          let w1 =
            plus _ _ _ _ (times _ _ _ _ u0 v1 (omega arith) (omega arith))
              (low _ _ t (omega (arith, r00, r10))) (omega (arith, r01)) in
          let partial =
            plus _ _ _ _ (times _ _ _ _ u1 v1 (omega arith) (omega arith))
              (high _ _ t (omega (arith, r00, r10))) (omega (arith, r00, r10, r11)) in
          rw (← mulh_halves v m) (
            plus _ _ _ _ partial (high _ _ w1 (omega (arith, r01)))
              (omega (arith, mulh_halves v m, product_lt v m (2 ^ 64) v_lt m_lt))))

abbrev Computes : ConstOperand → Value → ℕ → ℕ → ℕ → Type 0
Computes x a v m width =
    Has x a width v
    → v < 2 ^ width
    → m < 2 ^ width
    → Has x (emit_mulh width a m false) width (v * m / 2 ^ width)

-- At 32 and 64 bits the tree of `emit_mulh`, unsigned, for a value and a multiplier that fit the
-- word, has the high word of their product for its value.
pub value-mulh :
    (x : ConstOperand) (width : ℕ) (a : Value) (v m : ℕ)
    → (width ≡ 32) ⊎ (width ≡ 64)
    → Has x a width v
    → v < 2 ^ width
    → m < 2 ^ width
    → Has x (emit_mulh width a m false) width (v * m / 2 ^ width)
unfolding emit_mulh
value-mulh x width a v m (inl e) =
    subst (Computes x a v m) (sym e) (λ ha v_lt m_lt. value-mulh_32 x a v m ha v_lt m_lt)
value-mulh x width a v m (inr e) =
    subst (Computes x a v m) (sym e) (λ ha v_lt m_lt. value-mulh_64 x a v m ha v_lt m_lt)
