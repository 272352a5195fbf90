-- ===== src/Midend/Tests.antt =====
-- The magic numbers that the source's own tests expect, folded sequences, and the theorems at
-- concrete operands.
use crabbit.Prelude.{
  ℕ, ◌+◌, ◌-◌, ◌^◌, ◌*◌, ◌/◌, ◌<◌, inr, [], ◌∷◌, ◌≡◌, refl, true, false, Option, some, none, arith,
}
use crabbit.Midend.Const.{
  ConstOperand, mask_to_width, sign_extend, masked, signed, is_negative, unsigned_abs, wrapping_neg,
  shift_right_arith, wrapping_div, wrapping_rem,
}
use crabbit.Midend.Fold.{
  BinOp, Value, value, ◌>>=◌, binary_bits, constant_of, fold_int_binary, compare_bits, fold_icmp,
  fold_int_cast,
}
use crabbit.Midend.Magic.{
  magic_unsigned, magic_signed, unsigned_step, unsigned_continues, unsigned_loop, unsigned_nc,
  unsigned_start, signed_step, signed_continues, signed_loop, signed_anc, signed_start,
}
use crabbit.Midend.DivReduce.{
  rewrite_div, rewrite_constant, expand, expand_udiv, expand_sdiv, expand_sdiv_pow2,
  expand_sdiv_magic, emit_rem_from_quotient, emit_mulh, emit_mulh_32, emit_mulh_64, emit_const,
  is_power_of_two, trailing_zeros, count_zeros, DivKind,
}
use crabbit.Midend.Magic.Exact.{full_multiplier, magic_unsigned-quotient}
use crabbit.Midend.Magic.Signed.{magic_signed-quotient}
use crabbit.Midend.DivReduce.Emit.{Has, word}
use crabbit.Midend.DivReduce.Mulh.{value-mulh}
use crabbit.Midend.DivReduce.Rewrite.{rewrite_div-value}

magic_u32_by_7 : magic_unsigned 7 32 ≡ record { multiplier = 0x2492_4925; shift = 3; add = true }
unfolding magic_unsigned unsigned_step unsigned_continues unsigned_loop unsigned_nc unsigned_start
    mask_to_width
magic_u32_by_7 = refl

magic_u64_by_3 :
    magic_unsigned 3 64 ≡ record { multiplier = 0xAAAA_AAAA_AAAA_AAAB; shift = 1; add = false }
unfolding magic_unsigned unsigned_step unsigned_continues unsigned_loop unsigned_nc unsigned_start
    mask_to_width
magic_u64_by_3 = refl

magic_i32_by_3 : magic_signed 3 32 ≡ record { multiplier = 0x5555_5556; shift = 0 }
unfolding magic_signed signed_step signed_continues signed_loop signed_anc signed_start
    mask_to_width sign_extend is_negative unsigned_abs wrapping_neg
magic_i32_by_3 = refl

magic_i32_by_7 :
    magic_signed 7 32 ≡ record { multiplier = 2 ^ 128 - 2 ^ 32 + 0x9249_2493; shift = 2 }
unfolding magic_signed signed_step signed_continues signed_loop signed_anc signed_start
    mask_to_width sign_extend is_negative unsigned_abs wrapping_neg
magic_i32_by_7 = refl

abbrev run : BinOp → ℕ → ℕ → ℕ → Option ConstOperand
run op width x d = do
  v ← rewrite_div op Value.dividend (Value.constant (record { bits = d; width = width }))
  value (record { bits = x; width = width }) v

-- Divisions by -7, by 7, by -8, by 641 and by 0.
runs :
    run BinOp.sdiv 64 (2 ^ 64 - 100) (2 ^ 64 - 7)
      ∷ run BinOp.srem 32 (2 ^ 32 - 100) 7
      ∷ run BinOp.sdiv 8 (2 ^ 8 - 100) (2 ^ 8 - 8)
      ∷ run BinOp.udiv 64 (2 ^ 64 - 1) 641
      ∷ run BinOp.udiv 64 5 0
      ∷ []
    ≡ some (record { bits = 14; width = 64 })
      ∷ some (record { bits = 2 ^ 32 - 2; width = 32 })
      ∷ some (record { bits = 12; width = 8 })
      ∷ some (record { bits = 28778071877862015; width = 64 })
      ∷ none
      ∷ []
unfolding magic_unsigned unsigned_step unsigned_continues unsigned_loop unsigned_nc unsigned_start
    mask_to_width magic_signed signed_step signed_continues signed_loop signed_anc signed_start
    sign_extend is_negative unsigned_abs wrapping_neg masked signed shift_right_arith wrapping_div
    wrapping_rem value binary_bits constant_of fold_int_binary compare_bits fold_icmp fold_int_cast
    rewrite_div rewrite_constant expand expand_udiv expand_sdiv expand_sdiv_pow2 expand_sdiv_magic
    emit_rem_from_quotient emit_mulh emit_mulh_32 emit_mulh_64 emit_const is_power_of_two
    trailing_zeros count_zeros
runs = refl

rewrite_div-value_example :
    (r : Value) × (rewrite_div BinOp.udiv Value.dividend (Value.constant (word 32 7)) ≡ some r)
    × (value (word 32 100) r
        ≡ value (word 32 100) (Value.binary BinOp.udiv Value.dividend (Value.constant (word 32 7))))
rewrite_div-value_example =
    rewrite_div-value BinOp.udiv DivKind.u_div refl refl 32 100 7 refl (omega arith) (omega arith)
      (omega arith)

magic_unsigned-quotient_example :
    ((magic_unsigned 7 32).multiplier < 2 ^ 32)
    × (100 * full_multiplier 32 (magic_unsigned 7 32) / 2 ^ (32 + (magic_unsigned 7 32).shift)
        ≡ 100 / 7)
magic_unsigned-quotient_example =
    magic_unsigned-quotient 7 32 100 (omega arith) (omega arith) (omega arith) (omega arith)
      (omega arith)

magic_signed-quotient_example :
    (m : ℕ) × (m < 2 ^ 32)
    × ((magic_signed 7 32).multiplier ≡ sign_extend m 32)
    × (100 * m / 2 ^ (32 + (magic_signed 7 32).shift) ≡ 100 / 7)
magic_signed-quotient_example =
    magic_signed-quotient 7 32 100 (omega arith) (omega arith) (omega arith) (omega arith)
      (omega arith)

value-mulh_example :
    Has
      (word 64 9)
      (emit_mulh 64 Value.dividend 0xAAAA_AAAA_AAAA_AAAB false)
      64
      (9 * 0xAAAA_AAAA_AAAA_AAAB / 2 ^ 64)
unfolding value
value-mulh_example =
    value-mulh (word 64 9) 64 Value.dividend 9 0xAAAA_AAAA_AAAA_AAAB (inr refl) refl (omega arith)
      (omega arith)
