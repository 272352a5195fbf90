-- ===== src/Midend/Const.antt =====
-- crates/pliron-ll/src/passes/llvm/simplify.rs: integer constants. An `i128` of the source is
-- its bit pattern below 2 ^ 128, so that `as u128` is the identity and a negative number is a
-- pattern from 2 ^ 127 on.
pub mod Laws
use crabbit.Prelude.{ℕ, ◌+◌, ◌-◌, ◌*◌, ◌/◌, ◌%◌, ◌^◌, bit_and, bit_or}
use crabbit.Prelude.{Bool, true, false, not, ◌||◌, ltb, leb, ◌==◌, if◌then◌else◌}

-- The type of a constant is given by its width, since the pass makes signless types only.
pub record ConstOperand : Type 0 where
  pub bits : ℕ
  pub width : ℕ

-- `(1 << width) - 1` in 128 bits, where the width is below 128.
unfoldable pub mask_to_width : ℕ → ℕ → ℕ
mask_to_width bits width = if leb 128 width then bits else bit_and bits (2 ^ width - 1)

unfoldable pub sign_extend : ℕ → ℕ → ℕ
sign_extend bits width =
    let masked = mask_to_width bits width in
    if width == 0 || leb 128 width
    then masked
    else if not (bit_and masked (2 ^ (width - 1)) == 0)
    then bit_or masked (2 ^ 128 - 1 - (2 ^ width - 1))
    else masked

unfoldable pub masked : ConstOperand → ℕ
masked c = mask_to_width c.bits c.width

unfoldable pub signed : ConstOperand → ℕ
signed c = sign_extend c.bits c.width

-- The sign of an i128, its `unsigned_abs`, its negation and its arithmetic right shift.
unfoldable pub is_negative : ℕ → Bool
is_negative x = leb (2 ^ 127) x

unfoldable pub unsigned_abs : ℕ → ℕ
unsigned_abs x = if is_negative x then 2 ^ 128 - x else x

unfoldable pub wrapping_neg : ℕ → ℕ
wrapping_neg x = (2 ^ 128 - x) % 2 ^ 128

unfoldable pub shift_right_arith : ℕ → ℕ → ℕ
shift_right_arith x k = if is_negative x then 2 ^ 128 - 1 - (2 ^ 128 - 1 - x) / 2 ^ k else x / 2 ^ k

-- `wrapping_div` and `wrapping_rem` of i128 truncate toward zero.
unfoldable pub wrapping_div : ℕ → ℕ → ℕ
wrapping_div x y =
    let q = unsigned_abs x / unsigned_abs y in
    if is_negative x
    then if is_negative y then q % 2 ^ 128 else wrapping_neg q
    else if is_negative y
    then wrapping_neg q
    else q

unfoldable pub wrapping_rem : ℕ → ℕ → ℕ
wrapping_rem x y =
    let r = unsigned_abs x % unsigned_abs y in if is_negative x then wrapping_neg r else r
