-- ===== src/Midend/Partial/Zero.antt =====
-- crates/pliron-ll/src/passes/llvm/simplify.rs: operations with zero on the right.
use native.Mathlib.Nat.{mod-eq_of_lt, add-mul, add-zero, one-le-pow, mul-add-mod_self_right}
use crabbit.Prelude.{ℕ, ◌+◌, ◌-◌, ◌*◌, ◌/◌, ◌%◌, ◌^◌, ◌<◌, ◌≡◌, refl, sym, ◌∙◌, ap, arith}
use crabbit.Prelude.{
  ◌⊎◌, true, false, not, inl, inr, some, leb, ◌==◌, ◌||◌, bit_or, bit_xor, bit_and,
}
use crabbit.Prelude.{Bool-cases}
use crabbit.Prelude.Bits.{bit_or-zero, bit_or_split, zero-bit_or, zero-bit_xor}
use crabbit.Prelude.Commute.{bit_xor_comm}
use crabbit.Midend.Const.{mask_to_width, masked, sign_extend, shift_right_arith, is_negative}
use crabbit.Midend.Const.Laws.{mask_to_width-lt, mask_to_width-mod}
use crabbit.Midend.Fold.{BinOp, fold_int_binary, binary_bits, constant_of}
use crabbit.Midend.Magic.Loop.{two_pow-add}
use crabbit.Midend.DivReduce.Emit.{word, folded, two_pow-le}
use crabbit.Midend.Partial.{keeps_zero}

shift_right_arith-zero : (y : ℕ) → y < 2 ^ 128 → shift_right_arith y 0 ≡ y
unfolding shift_right_arith is_negative
shift_right_arith-zero y h = ground arith

module _ (width l : ℕ) (narrow : width < 128) (wide : 0 < width) (l_lt : l < 2 ^ width) where
  abbrev same_l : mask_to_width l width ≡ l
  same_l = mask_to_width-lt l width narrow l_lt

  same_zero : mask_to_width 0 width ≡ 0
  same_zero = mask_to_width-lt 0 width narrow (one-le-pow width 2 (omega arith))

  below : l < 2 ^ 128
  below = omega (arith, l_lt, two_pow-le width narrow)

  keeps : (bits : ℕ) → bits ≡ l → some (constant_of width bits) ≡ some (word width l)
  keeps bits e = folded width bits l narrow l_lt e

  some_width : leb width 0 ≡ false
  some_width = ground arith

  -- A word and its sign extension have the same low digits.
  high : ℕ
  high = 2 ^ (128 - width) - 1

  high_ones : 2 ^ 128 - 1 - (2 ^ width - 1) ≡ high * 2 ^ width
  unfolding high
  high_ones =
      let whole : high + 1 ≡ 2 ^ (128 - width) =
        omega (arith, one-le-pow (128 - width) 2 (omega arith)) in
      let rejoin : 128 - width + width ≡ 128 = omega (arith, narrow) in
      let product : (high + 1) * 2 ^ width ≡ 2 ^ 128 =
        ap (λ (t : ℕ). t * 2 ^ width) whole
        ∙ sym (two_pow-add (128 - width) width)
        ∙ ap (λ (t : ℕ). 2 ^ t) rejoin in
      omega (arith, product, add-mul high 1 (2 ^ width))

  high_sum : high * 2 ^ width + 2 ^ width ≡ 2 ^ 128
  high_sum = omega (arith, high_ones, two_pow-le width narrow, one-le-pow width 2 (omega arith))

  extended : bit_or l (2 ^ 128 - 1 - (2 ^ width - 1)) ≡ high * 2 ^ width + l
  extended = rw high_ones (
      ap (λ (t : ℕ). bit_or l t) (sym (add-zero (high * 2 ^ width)))
      ∙ ap (λ (t : ℕ). bit_or t (high * 2 ^ width + 0)) (no_high (2 ^ width))
      ∙ bit_or_split width 0 l high 0 l_lt (one-le-pow width 2 (omega arith))
      ∙ rw (zero-bit_or high, bit_or-zero l) refl)
    where
      no_high : (p : ℕ) → l ≡ 0 * p + l
      no_high p = omega arith

  -- Either the word itself, or it under ones.
  sign_extend-cases : (sign_extend l width ≡ l) ⊎ (sign_extend l width ≡ high * 2 ^ width + l)
  unfolding sign_extend
  sign_extend-cases = elim (Bool-cases (width == 0 || leb 128 width)) [
    | inl h ↦ inl (rw (h, same_l) refl)
    | inr h ↦ elim (Bool-cases (not (bit_and l (2 ^ (width - 1)) == 0))) [
      | inl negative ↦ inr (rw (h, same_l, negative) extended)
      | inr positive ↦ inl (rw (h, same_l, positive) refl)
    ]
  ]

  low_digits :
      (y : ℕ) → (y ≡ l) ⊎ (y ≡ high * 2 ^ width + l) → (y < 2 ^ 128) × (mask_to_width y width ≡ l)
  low_digits y (inl e) = (omega (arith, e, below), ap (λ (t : ℕ). mask_to_width t width) e ∙ same_l)
  low_digits y (inr e) = (
    omega (arith, e, l_lt, high_sum),
    mask_to_width-mod y width narrow
        ∙ ap (λ (t : ℕ). t % 2 ^ width) e
        ∙ mul-add-mod_self_right high (2 ^ width) l
        ∙ mod-eq_of_lt l_lt,
  )

  ashr_zero :
      some (constant_of width (shift_right_arith (sign_extend l width) 0)) ≡ some (word width l)
  unfolding constant_of
  ashr_zero =
      let (small, low) = low_digits (sign_extend l width) sign_extend-cases in
      rw (shift_right_arith-zero (sign_extend l width) small, low) refl

  pub fold-zero :
      (op : BinOp)
      → keeps_zero op ≡ true
      → fold_int_binary op (word width l) (word width 0) ≡ some (word width l)
  unfolding fold_int_binary binary_bits masked
  fold-zero BinOp.add h = rw (same_l, same_zero) (keeps ((l + 0) % 2 ^ 128) (omega (arith, below)))
  fold-zero BinOp.sub h =
      rw (same_l, same_zero) (keeps ((l + 2 ^ 128 - 0) % 2 ^ 128) (omega (arith, below)))
  fold-zero BinOp.or h = rw (same_l, same_zero) (keeps (bit_or l 0) (bit_or-zero l))
  fold-zero BinOp.xor h =
      rw (same_l, same_zero) (keeps (bit_xor l 0) (bit_xor_comm l 0 ∙ zero-bit_xor l))
  fold-zero BinOp.shl h =
      rw (same_l, same_zero, some_width) (keeps (l * 2 ^ 0 % 2 ^ 128) (omega (arith, below)))
  fold-zero BinOp.lshr h = rw (same_l, same_zero, some_width) (keeps (l / 2 ^ 0) (omega arith))
  fold-zero BinOp.ashr h = rw (same_l, same_zero, some_width) ashr_zero
  fold-zero BinOp.mul h = cc
  fold-zero BinOp.and h = cc
  fold-zero BinOp.udiv h = cc
  fold-zero BinOp.urem h = cc
  fold-zero BinOp.sdiv h = cc
  fold-zero BinOp.srem h = cc
