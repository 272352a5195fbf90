-- ===== src/Midend/DivReduce/Emit.antt =====
-- crates/pliron-ll/src/passes/llvm/div_strength_reduce.rs: the emitted operations as arithmetic,
-- where the operands fit the word and nothing wraps.
-- crates/pliron-ll/src/passes/llvm/simplify.rs: the folded operations as arithmetic, where the
-- operands fit the word and nothing wraps.
use native.Mathlib.Nat.{mod-eq_of_lt, mod-le, div-le_self, pow-le-pow_right}
use crabbit.Prelude.{ℕ, ◌+◌, ◌-◌, ◌*◌, ◌/◌, ◌%◌, ◌^◌, ◌≤◌, ◌<◌, ◌≡◌, refl, ◌∙◌, ap, arith}
use crabbit.Prelude.{false, some, bit_and, leb}
use crabbit.Prelude.Bits.{bit_and_mask, mod_unique}
use crabbit.Midend.Const.{ConstOperand, mask_to_width, masked}
use crabbit.Midend.Const.Laws.{mask_to_width-lt}
use crabbit.Midend.Fold.{CastOp, Value, value, fold_int_binary, fold_int_cast, binary_bits}
use crabbit.Midend.Fold.{constant_of}
use crabbit.Midend.DivReduce.{emit_const, emit_add, emit_sub, emit_mul, emit_and, emit_lshr}

abbrev pub word : ℕ → ℕ → ConstOperand
word width bits = record { bits = bits; width = width }

-- The tree has a value of the given width.
abbrev pub Has : ConstOperand → Value → ℕ → ℕ → Type 0
Has x v width bits = value x v ≡ some (word width bits)

constant_of-lt :
    (width bits : ℕ) → width < 128 → bits < 2 ^ width → constant_of width bits ≡ word width bits
unfolding constant_of
constant_of-lt width bits h b = rw (mask_to_width-lt bits width h b)

pub folded :
    (width bits result : ℕ)
    → width < 128
    → result < 2 ^ width
    → bits ≡ result
    → some (constant_of width bits) ≡ some (word width result)
folded width bits result h fits e =
    ap some (ap (constant_of width) e ∙ constant_of-lt width result h fits)

pub two_pow-le : (width : ℕ) → width < 128 → 2 ^ width ≤ 2 ^ 127
two_pow-le width h = pow-le-pow_right (omega arith) {j = 127} (omega arith)

pub value-const :
    (x : ConstOperand) (width bits : ℕ)
    → width < 128
    → bits < 2 ^ width
    → Has x (emit_const width bits) width bits
unfolding emit_const value
value-const x width bits h fits = rw (mask_to_width-lt bits width h fits)

-- The laws of the binary operations, for operands that fit the word.
module _ (x : ConstOperand) (width : ℕ) (narrow : width < 128) (lhs rhs : Value) (l r : ℕ)
    (hl : Has x lhs width l) (hr : Has x rhs width r) (l_lt : l < 2 ^ width)
    (r_lt : r < 2 ^ width) where
  abbrev operands : (mask_to_width l width ≡ l) × (mask_to_width r width ≡ r)
  operands = (mask_to_width-lt l width narrow l_lt, mask_to_width-lt r width narrow r_lt)

  pub value-add : l + r < 2 ^ width → Has x (emit_add lhs rhs) width (l + r)
  unfolding value fold_int_binary binary_bits masked
  value-add fits =
      rw (hl, hr, operands.0, operands.1)
        (folded width _ (l + r) narrow fits (mod-eq_of_lt (omega (arith, two_pow-le width narrow))))

  pub value-sub : r ≤ l → Has x (emit_sub lhs rhs) width (l - r)
  unfolding value fold_int_binary binary_bits masked
  value-sub le =
      rw (hl, hr, operands.0, operands.1)
        (folded width _ (l - r) narrow (omega arith)
          (mod_unique 1 (2 ^ 128) (l - r) (omega arith) (omega (arith, two_pow-le width narrow))))

  pub value-mul : l * r < 2 ^ width → Has x (emit_mul lhs rhs) width (l * r)
  unfolding value fold_int_binary binary_bits masked
  value-mul fits =
      rw (hl, hr, operands.0, operands.1)
        (folded width _ (l * r) narrow fits (mod-eq_of_lt (omega (arith, two_pow-le width narrow))))

  pub value-and : (k : ℕ) → r ≡ 2 ^ k - 1 → Has x (emit_and lhs rhs) width (l % 2 ^ k)
  unfolding value fold_int_binary binary_bits masked
  value-and k e =
      rw (hl, hr, operands.0, operands.1)
        (folded width _ (l % 2 ^ k) narrow (omega (arith, mod-le l (2 ^ k)))
          (ap (bit_and l) e ∙ bit_and_mask k l))

  pub value-lshr : r < width → Has x (emit_lshr lhs rhs) width (l / 2 ^ r)
  unfolding value fold_int_binary binary_bits masked
  value-lshr lt =
      rw (hl, hr, operands.0, operands.1, below)
        (folded width _ (l / 2 ^ r) narrow (omega (arith, div-le_self l (2 ^ r))) refl)
    where
      below : leb width r ≡ false
      below = ground arith

module _ (x : ConstOperand) (width : ℕ) (narrow : width < 128) (input : Value) (bits : ℕ)
    (h : Has x input width bits) (fits : bits < 2 ^ width) where
  pub value-zext :
      (wide : ℕ) → wide < 128 → width ≤ wide → Has x (Value.cast CastOp.zext wide input) wide bits
  unfolding value fold_int_cast masked
  value-zext wide wide_narrow le =
      rw (h, mask_to_width-lt bits width narrow fits)
        (folded wide bits bits wide_narrow
          (omega (arith, pow-le-pow_right {n = 2} (omega arith) {i = width} {j = wide} le)) refl)

  pub value-trunc :
      (less : ℕ)
      → less < 128
      → bits < 2 ^ less
      → Has x (Value.cast CastOp.trunc less input) less bits
  unfolding value fold_int_cast masked
  value-trunc less less_narrow small =
      rw (h, mask_to_width-lt bits width narrow fits) (folded less bits bits less_narrow small refl)
