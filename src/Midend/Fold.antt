-- ===== src/Midend/Fold.antt =====
-- crates/pliron-ll/src/passes/llvm/simplify.rs: what the integer operations of the LLVM dialect
-- compute on constants (`fold_int_binary`, `fold_icmp`, `fold_int_cast`), and with it the value
-- of a tree of such operations.
-- A `Value` is the tree of the operations that define it, over one unknown, the dividend.
use crabbit.Prelude.{ℕ, ◌+◌, ◌-◌, ◌*◌, ◌/◌, ◌%◌, ◌^◌, bit_and, bit_or, bit_xor}
use crabbit.Prelude.{Bool, not, Option, none, some, ltb, leb, ◌==◌, if◌then◌else◌}
use crabbit.Midend.Const.{ConstOperand, mask_to_width, sign_extend, masked, signed}
use crabbit.Midend.Const.{shift_right_arith, wrapping_div, wrapping_rem}

pub data BinOp : Type 0 where
  add sub mul and or xor shl lshr ashr udiv urem sdiv srem : BinOp

pub data CastOp : Type 0 where
  sext zext trunc : CastOp

pub data Predicate : Type 0 where
  eq ne ult ule ugt uge slt sle sgt sge : Predicate

pub data Value : Type 0 where
  dividend : Value
  constant : ConstOperand → Value
  binary : BinOp → Value → Value → Value
  cast : CastOp → ℕ → Value → Value
  icmp : Predicate → Value → Value → Value

-- `<Some(x)?>`
infixl 5 ◌>>=◌
abbrev pub ◌>>=◌ {ℓ κ} : {A : Type ℓ} {B : Type κ} → Option A → (A → Option B) → Option B
none >>= f = none
some a >>= f = f a

-- The bits before `replace_with_constant` masks them; a shift by the width or more and a
-- division by zero are not folded.
unfoldable pub binary_bits : BinOp → ConstOperand → ConstOperand → Option ℕ
binary_bits BinOp.add lhs rhs = some ((masked lhs + masked rhs) % 2 ^ 128)
binary_bits BinOp.sub lhs rhs = some ((masked lhs + 2 ^ 128 - masked rhs) % 2 ^ 128)
binary_bits BinOp.mul lhs rhs = some ((masked lhs * masked rhs) % 2 ^ 128)
binary_bits BinOp.and lhs rhs = some (bit_and (masked lhs) (masked rhs))
binary_bits BinOp.or lhs rhs = some (bit_or (masked lhs) (masked rhs))
binary_bits BinOp.xor lhs rhs = some (bit_xor (masked lhs) (masked rhs))
binary_bits BinOp.shl lhs rhs =
    if leb lhs.width (masked rhs) then none else some ((masked lhs * 2 ^ masked rhs) % 2 ^ 128)
binary_bits BinOp.lshr lhs rhs =
    if leb lhs.width (masked rhs) then none else some (masked lhs / 2 ^ masked rhs)
binary_bits BinOp.ashr lhs rhs =
    if leb lhs.width (masked rhs)
    then none
    else some (shift_right_arith (sign_extend (masked lhs) lhs.width) (masked rhs))
binary_bits BinOp.udiv lhs rhs = if masked rhs == 0 then none else some (masked lhs / masked rhs)
binary_bits BinOp.urem lhs rhs = if masked rhs == 0 then none else some (masked lhs % masked rhs)
binary_bits BinOp.sdiv lhs rhs =
    if masked rhs == 0 then none else some (wrapping_div (signed lhs) (signed rhs))
binary_bits BinOp.srem lhs rhs =
    if masked rhs == 0 then none else some (wrapping_rem (signed lhs) (signed rhs))

-- The constant that `replace_with_constant` makes.
unfoldable pub constant_of : ℕ → ℕ → ConstOperand
constant_of width bits = record { bits = mask_to_width bits width; width = width }

unfoldable pub fold_int_binary : BinOp → ConstOperand → ConstOperand → Option ConstOperand
fold_int_binary op lhs rhs = do bits ← binary_bits op lhs rhs; some (constant_of lhs.width bits)

-- An i128 pattern moved up by 2 ^ 127 keeps the signed order.
abbrev flip : ℕ → ℕ
flip x = (x + 2 ^ 127) % 2 ^ 128

unfoldable pub compare_bits : Predicate → ConstOperand → ConstOperand → Bool
compare_bits Predicate.eq lhs rhs = masked lhs == masked rhs
compare_bits Predicate.ne lhs rhs = not (masked lhs == masked rhs)
compare_bits Predicate.ult lhs rhs = ltb (masked lhs) (masked rhs)
compare_bits Predicate.ule lhs rhs = leb (masked lhs) (masked rhs)
compare_bits Predicate.ugt lhs rhs = ltb (masked rhs) (masked lhs)
compare_bits Predicate.uge lhs rhs = leb (masked rhs) (masked lhs)
compare_bits Predicate.slt lhs rhs = ltb (flip (signed lhs)) (flip (signed rhs))
compare_bits Predicate.sle lhs rhs = leb (flip (signed lhs)) (flip (signed rhs))
compare_bits Predicate.sgt lhs rhs = ltb (flip (signed rhs)) (flip (signed lhs))
compare_bits Predicate.sge lhs rhs = leb (flip (signed rhs)) (flip (signed lhs))

unfoldable pub fold_icmp : Predicate → ConstOperand → ConstOperand → ConstOperand
fold_icmp p lhs rhs = constant_of 1 (if compare_bits p lhs rhs then 1 else 0)

unfoldable pub fold_int_cast : CastOp → ℕ → ConstOperand → ConstOperand
fold_int_cast CastOp.sext width input = constant_of width (signed input)
fold_int_cast CastOp.zext width input = constant_of width (masked input)
fold_int_cast CastOp.trunc width input = constant_of width (masked input)

-- The constant that a tree folds to, once the dividend is a constant.
unfoldable pub value : ConstOperand → Value → Option ConstOperand
value x Value.dividend = some x
value x (Value.constant c) = some c
value x (Value.binary op lhs rhs) = do l ← value x lhs; r ← value x rhs; fold_int_binary op l r
value x (Value.cast op width input) = do c ← value x input; some (fold_int_cast op width c)
value x (Value.icmp p lhs rhs) = do l ← value x lhs; r ← value x rhs; some (fold_icmp p l r)
