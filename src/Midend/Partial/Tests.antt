-- ===== src/Midend/Partial/Tests.antt =====
-- Tests of crates/pliron-ll/src/passes/llvm/simplify.rs, `simplify_partial_const`.
use crabbit.Prelude.{ℕ, ◌≡◌, refl, arith, some, none}
use crabbit.Midend.Const.{masked, mask_to_width}
use crabbit.Midend.Fold.{BinOp, Value, value, fold_int_binary, binary_bits, constant_of}
use crabbit.Midend.DivReduce.{is_power_of_two, trailing_zeros, count_zeros}
use crabbit.Midend.DivReduce.Emit.{word}
use crabbit.Midend.Partial.{
  simplify_partial_const, with_constant, is_identity, inner_operands, reassociate,
}
use crabbit.Midend.Partial.Preserves.{simplify_partial_const-value}

abbrev const_of : ℕ → Value
const_of n = Value.constant (word 32 n)

abbrev thrice : Value
thrice = Value.binary BinOp.mul Value.dividend (const_of 3)

-- (x * 3) * 4 is x * 12, and x * 8 is x << 3.
regrouped :
    simplify_partial_const BinOp.mul thrice (const_of 4)
    ≡ some (Value.binary BinOp.mul Value.dividend (const_of 12))
unfolding simplify_partial_const with_constant is_identity inner_operands reassociate masked
    mask_to_width is_power_of_two trailing_zeros count_zeros
regrouped = refl

shifted_three :
    simplify_partial_const BinOp.mul Value.dividend (const_of 8)
    ≡ some (Value.binary BinOp.shl Value.dividend (const_of 3))
unfolding simplify_partial_const with_constant is_identity inner_operands reassociate masked
    mask_to_width is_power_of_two trailing_zeros count_zeros
shifted_three = refl

left_alone : simplify_partial_const BinOp.sub (const_of 3) Value.dividend ≡ none
unfolding simplify_partial_const
left_alone = refl

thrice-value : value (word 32 7) thrice ≡ some (word 32 21)
unfolding value fold_int_binary binary_bits constant_of masked mask_to_width
thrice-value = refl

const_of-value : value (word 32 7) (const_of 4) ≡ some (word 32 4)
unfolding value
const_of-value = refl

simplify_partial_const-value_example :
    value (word 32 7) (Value.binary BinOp.mul Value.dividend (const_of 12))
    ≡ value (word 32 7) (Value.binary BinOp.mul thrice (const_of 4))
simplify_partial_const-value_example =
    simplify_partial_const-value (word 32 7) 32 BinOp.mul thrice (const_of 4)
      (Value.binary BinOp.mul Value.dividend (const_of 12)) 21 4 (omega arith) (omega arith)
      thrice-value const_of-value (omega arith) (omega arith) regrouped
