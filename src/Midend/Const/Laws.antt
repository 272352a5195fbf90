-- ===== src/Midend/Const/Laws.antt =====
-- Masking to a width is the remainder by its power of two.
use native.Mathlib.Nat.{mod-eq_of_lt}
use crabbit.Prelude.{ℕ, ◌%◌, ◌^◌, ◌<◌, ◌≡◌, arith, ◌∙◌}
use crabbit.Prelude.Bits.{bit_and_mask}
use crabbit.Midend.Const.{mask_to_width}

pub mask_to_width-mod : (bits width : ℕ) → width < 128 → mask_to_width bits width ≡ bits % 2 ^ width
unfolding mask_to_width
mask_to_width-mod bits width h = ground (arith, bit_and_mask width bits)

pub mask_to_width-lt :
    (bits width : ℕ) → width < 128 → bits < 2 ^ width → mask_to_width bits width ≡ bits
mask_to_width-lt bits width h b = mask_to_width-mod bits width h ∙ mod-eq_of_lt b
