-- ===== src/Prelude/Commute.antt =====
-- `|`, `&` and `^` of words do not depend on the order of their operands.
use Prim.Native.Nat.{
  ℕ, zero, suc, ◌*◌, ◌+◌, ◌/◌, ◌%◌, ◌<◌, min, max, differ, bit_and, bit_or, bit_xor,
}
use mathlib.Core.Path.{◌≡◌, refl}
use native.Mathlib.Omega.{arith}
use crabbit.Prelude.Bits.{bit_and_step, bit_or_step, bit_xor_step}

-- An operation on words that acts on each digit by itself, as one on digits does.
module _ (word digit : ℕ → ℕ → ℕ)
    (step : (x y : ℕ) → word x y ≡ digit (x % 2) (y % 2) + 2 * word (x / 2) (y / 2))
    (swap : (x y : ℕ) → digit x y ≡ digit y x) where
  step_comm : (x y : ℕ) → word (x / 2) (y / 2) ≡ word (y / 2) (x / 2) → word x y ≡ word y x
  step_comm x y halves = omega (arith, step x y, step y x, swap (x % 2) (y % 2), halves)

  below_comm : (bound x y : ℕ) → x < bound → y < bound → word x y ≡ word y x
  below_comm zero x y h_x h_y = absurd (omega arith)
  below_comm (suc bound) zero zero h_x h_y = refl
  below_comm (suc bound) zero (suc y) h_x h_y =
      step_comm zero (suc y) (below_comm bound (zero / 2) (suc y / 2) (omega arith) (omega arith))
  below_comm (suc bound) (suc x) y h_x h_y =
      step_comm (suc x) y (below_comm bound (suc x / 2) (y / 2) (omega arith) (omega arith))

  word_comm : (x y : ℕ) → word x y ≡ word y x
  word_comm x y = below_comm (suc (x + y)) x y (omega arith) (omega arith)

differ_comm : (x y : ℕ) → differ x y ≡ differ y x
differ_comm zero zero = refl
differ_comm zero (suc y) = refl
differ_comm (suc x) zero = refl
differ_comm (suc x) (suc y) = differ_comm x y

pub bit_and_comm : (x y : ℕ) → bit_and x y ≡ bit_and y x
bit_and_comm = word_comm bit_and min bit_and_step (λ x y. omega arith)

pub bit_or_comm : (x y : ℕ) → bit_or x y ≡ bit_or y x
bit_or_comm = word_comm bit_or max bit_or_step (λ x y. omega arith)

pub bit_xor_comm : (x y : ℕ) → bit_xor x y ≡ bit_xor y x
bit_xor_comm = word_comm bit_xor differ bit_xor_step differ_comm
