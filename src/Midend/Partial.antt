-- ===== src/Midend/Partial.antt =====
-- crates/pliron-ll/src/passes/llvm/simplify.rs, `simplify_partial_const`: an integer operation
-- with at most one constant operand. The replacement is the tree that takes the operation's place,
-- and `none` where the operation is left as it is.
pub mod Ops
pub mod Zero
pub mod Rewrites
pub mod Inner
pub mod Preserves
mod Tests
use crabbit.Prelude.{ℕ, ◌+◌, ◌*◌, ◌%◌, ◌^◌, ◌==◌, if◌then◌else◌}
use crabbit.Prelude.{Bool, true, false, not, ◌&&◌, ◌||◌, Option, none, some}
use crabbit.Midend.Const.{ConstOperand, mask_to_width, masked}
use crabbit.Midend.Fold.{BinOp, Value}
use crabbit.Midend.DivReduce.{as_const_operand, is_power_of_two, trailing_zeros}

abbrev pub is_some : Option ConstOperand → Bool
is_some none = false
is_some (some c) = true

abbrev pub is_const : Value → Bool
is_const v = is_some (as_const_operand v)

abbrev pub is_add : BinOp → Bool
is_add BinOp.add = true
is_add _ = false

abbrev pub is_mul : BinOp → Bool
is_mul BinOp.mul = true
is_mul _ = false

-- Zero on the right changes nothing, or makes the result zero.
abbrev pub keeps_zero : BinOp → Bool
keeps_zero BinOp.add = true
keeps_zero BinOp.sub = true
keeps_zero BinOp.or = true
keeps_zero BinOp.xor = true
keeps_zero BinOp.shl = true
keeps_zero BinOp.lshr = true
keeps_zero BinOp.ashr = true
keeps_zero _ = false

abbrev pub is_annihilated : BinOp → Bool
is_annihilated BinOp.mul = true
is_annihilated BinOp.and = true
is_annihilated _ = false

unfoldable pub is_identity : BinOp → ℕ → Bool
is_identity op c = (c == 0 && keeps_zero op) || (c == 1 && is_mul op)

-- The operand and the constant of an inner operation of the same kind.
abbrev pub inner_constant : Value → Option ConstOperand → Option (Value × ConstOperand)
inner_constant a none = none
inner_constant a (some c) = if is_const a then none else some (a, c)

unfoldable pub inner_operands : BinOp → Value → Option (Value × ConstOperand)
inner_operands op (Value.binary other a b) =
    if (is_add op && is_add other) || (is_mul op && is_mul other)
    then inner_constant a (as_const_operand b)
    else none
inner_operands op _ = none

abbrev pub combined : BinOp → ℕ → ℕ → ℕ
combined op inner c = if is_add op then (inner + c) % 2 ^ 128 else (inner * c) % 2 ^ 128

abbrev pub reassociated : BinOp → Value → ConstOperand → ConstOperand → Value
reassociated op a inner rhs = Value.binary op a (
    Value.constant (record {
      bits = mask_to_width (combined op (masked inner) (masked rhs)) rhs.width;
      width = rhs.width;
    }))

abbrev pub shifted : Value → ConstOperand → Value
shifted lhs rhs =
    Value.binary BinOp.shl lhs
      (Value.constant (record { bits = trailing_zeros (masked rhs); width = rhs.width }))

unfoldable pub reassociate :
    BinOp → Value → ConstOperand → Option (Value × ConstOperand) → Option Value
reassociate op lhs rhs (some (a, inner)) = some (reassociated op a inner rhs)
reassociate op lhs rhs none =
    if is_mul op && is_power_of_two (masked rhs) then some (shifted lhs rhs) else none

unfoldable pub with_constant : BinOp → Value → ConstOperand → Option Value
with_constant op lhs rhs =
    if is_identity op (masked rhs)
    then some lhs
    else if masked rhs == 0 && is_annihilated op
    then some (Value.constant (record { bits = mask_to_width 0 rhs.width; width = rhs.width }))
    else if is_add op || is_mul op
    then reassociate op lhs rhs (inner_operands op lhs)
    else none

abbrev pub on_constant : BinOp → Value → Option ConstOperand → Option Value
on_constant op lhs none = none
on_constant op lhs (some rhs) = if is_const lhs then none else with_constant op lhs rhs

unfoldable pub simplify_partial_const : BinOp → Value → Value → Option Value
simplify_partial_const op lhs rhs =
    if (is_add op || is_mul op) && is_const lhs && not (is_const rhs)
    then some (Value.binary op rhs lhs)
    else on_constant op lhs (as_const_operand rhs)
