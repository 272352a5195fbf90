-- ===== src/Midend/DivReduce.antt =====
-- crates/pliron-ll/src/passes/llvm/div_strength_reduce.rs: the sequences that stand for a
-- division by a constant. An `emit_*` helper, which inserts an operation before the division
-- and returns its result, is here the constructor of the tree.
pub mod Emit
pub mod Mulh
pub mod Unsigned
pub mod Rewrite
use crabbit.Prelude.{ℕ, zero, suc, ◌-◌, ◌/◌, ◌%◌, ◌^◌, bit_and}
use crabbit.Prelude.{Bool, true, false, not, ◌&&◌, ◌||◌, Option, none, some}
use crabbit.Prelude.{ltb, ◌==◌, if◌then◌else◌}
use crabbit.Midend.Const.{ConstOperand, mask_to_width, sign_extend, masked, signed}
use crabbit.Midend.Const.{is_negative, unsigned_abs, shift_right_arith}
use crabbit.Midend.Fold.{BinOp, CastOp, Predicate, Value, ◌>>=◌}
use crabbit.Midend.Magic.{magic_unsigned, magic_signed}

pub data DivKind : Type 0 where
  s_div u_div s_rem u_rem : DivKind

abbrev pub kind_signed : DivKind → Bool
kind_signed DivKind.s_div = true
kind_signed DivKind.u_div = false
kind_signed DivKind.s_rem = true
kind_signed DivKind.u_rem = false

abbrev pub kind_rem : DivKind → Bool
kind_rem DivKind.s_div = false
kind_rem DivKind.u_div = false
kind_rem DivKind.s_rem = true
kind_rem DivKind.u_rem = true

abbrev pub div_kind : BinOp → Option DivKind
div_kind BinOp.sdiv = some DivKind.s_div
div_kind BinOp.udiv = some DivKind.u_div
div_kind BinOp.srem = some DivKind.s_rem
div_kind BinOp.urem = some DivKind.u_rem
div_kind _ = none

-- Rust's `u128::trailing_zeros` and `u128::is_power_of_two`.
unfoldable pub count_zeros : ℕ → ℕ → ℕ
count_zeros zero n = 0
count_zeros (suc left) n = elim (n % 2) [ zero ↦ suc (count_zeros left (n / 2)) | suc _ ↦ 0 ]

unfoldable pub trailing_zeros : ℕ → ℕ
trailing_zeros n = count_zeros 128 n

unfoldable pub is_power_of_two : ℕ → Bool
is_power_of_two n = n == 2 ^ trailing_zeros n

unfoldable pub emit_const : ℕ → ℕ → Value
emit_const width bits = Value.constant (record { bits = mask_to_width bits width; width = width })

abbrev pub emit_add : Value → Value → Value
emit_add lhs rhs = Value.binary BinOp.add lhs rhs

abbrev pub emit_sub : Value → Value → Value
emit_sub lhs rhs = Value.binary BinOp.sub lhs rhs

abbrev pub emit_mul : Value → Value → Value
emit_mul lhs rhs = Value.binary BinOp.mul lhs rhs

abbrev pub emit_and : Value → Value → Value
emit_and lhs rhs = Value.binary BinOp.and lhs rhs

abbrev pub emit_lshr : Value → Value → Value
emit_lshr lhs rhs = Value.binary BinOp.lshr lhs rhs

abbrev pub emit_ashr : Value → Value → Value
emit_ashr lhs rhs = Value.binary BinOp.ashr lhs rhs

-- The 32-bit product, widened to 64 bits.
unfoldable pub emit_mulh_32 : Value → ℕ → Bool → Value
emit_mulh_32 a m_bits is_signed =
    let wide_a = Value.cast (if is_signed then CastOp.sext else CastOp.zext) 64 a in
    let m_wide =
      if is_signed
      then bit_and (sign_extend m_bits 32) (mask_to_width (2 ^ 128 - 1) 64)
      else m_bits in
    let m_c = emit_const 64 m_wide in
    let hi = emit_lshr (emit_mul wide_a m_c) (emit_const 64 32) in Value.cast CastOp.trunc 32 hi

-- The 64-bit product, by halves.
unfoldable pub emit_mulh_64 : Value → ℕ → Bool → Value
emit_mulh_64 a m_bits is_signed =
    let shr = λ (v k : Value). if is_signed then emit_ashr v k else emit_lshr v k in
    let mask32 = emit_const 64 0xFFFF_FFFF in
    let c32 = emit_const 64 32 in
    let u0 = emit_and a mask32 in
    let u1 = shr a c32 in
    let v0_bits = bit_and m_bits 0xFFFF_FFFF in
    let v1_bits =
      if is_signed
      then bit_and (shift_right_arith (sign_extend m_bits 64) 32) (mask_to_width (2 ^ 128 - 1) 64)
      else mask_to_width m_bits 64 / 2 ^ 32 in
    let v0 = emit_const 64 v0_bits in
    let v1 = emit_const 64 v1_bits in
    let w0 = emit_mul u0 v0 in
    let u1v0 = emit_mul u1 v0 in
    let w0_hi = emit_lshr w0 c32 in
    let t = emit_add u1v0 w0_hi in
    let w1_lo = emit_and t mask32 in
    let w2 = shr t c32 in
    let u0v1 = emit_mul u0 v1 in
    let w1 = emit_add u0v1 w1_lo in
    let w1_hi = shr w1 c32 in
    let u1v1 = emit_mul u1 v1 in let partial = emit_add u1v1 w2 in emit_add partial w1_hi

unfoldable pub emit_mulh : ℕ → Value → ℕ → Bool → Value
emit_mulh width a m_bits is_signed =
    if width == 32 then emit_mulh_32 a m_bits is_signed else emit_mulh_64 a m_bits is_signed

unfoldable pub expand_udiv : ℕ → Value → ℕ → Value
expand_udiv width a d =
    let magic = magic_unsigned d width in
    let t = emit_mulh width a magic.multiplier false in
    if is_power_of_two d
    then emit_lshr a (emit_const width (trailing_zeros d))
    else if not magic.add
    then if magic.shift == 0 then t else emit_lshr t (emit_const width magic.shift)
    else (let half = emit_lshr (emit_sub a t) (emit_const width 1) in
        emit_lshr (emit_add half t) (emit_const width (magic.shift - 1)))

-- The sequence for a signed divisor whose absolute value is a power of two.
unfoldable pub expand_sdiv_pow2 : ℕ → Value → ℕ → Value
expand_sdiv_pow2 width a d =
    let k = trailing_zeros (unsigned_abs d) in
    let sgn = emit_ashr a (emit_const width (width - 1)) in
    let srl = emit_lshr sgn (emit_const width (width - k)) in
    let q = emit_ashr (emit_add a srl) (emit_const width k) in
    if is_negative d then emit_sub (emit_const width 0) q else q

abbrev is_positive : ℕ → Bool
is_positive x = not (is_negative x) && ltb 0 x

-- The sequence for any other signed divisor.
unfoldable pub expand_sdiv_magic : ℕ → Value → ℕ → Value
expand_sdiv_magic width a d =
    let magic = magic_signed d width in
    let m_bits = bit_and magic.multiplier (mask_to_width (2 ^ 128 - 1) width) in
    let q = emit_mulh width a m_bits true in
    let fixed =
      if is_positive d && is_negative magic.multiplier
      then emit_add q a
      else if is_negative d && is_positive magic.multiplier
      then emit_sub q a
      else q in
    let shifted =
      if ltb 0 magic.shift then emit_ashr fixed (emit_const width magic.shift) else fixed in
    emit_add shifted (emit_lshr shifted (emit_const width (width - 1)))

unfoldable pub expand_sdiv : ℕ → Value → ℕ → Value
expand_sdiv width a d_bits =
    let d = sign_extend d_bits width in
    if d == 2 ^ 128 - 2 ^ (width - 1)
    then Value.cast CastOp.zext width (Value.icmp Predicate.eq a (emit_const width d_bits))
    else if is_power_of_two (unsigned_abs d)
    then expand_sdiv_pow2 width a d
    else expand_sdiv_magic width a d

unfoldable pub emit_rem_from_quotient : ℕ → Value → Value → ℕ → Value
emit_rem_from_quotient width a q d_bits = emit_sub a (emit_mul q (emit_const width d_bits))

unfoldable pub expand : DivKind → ℕ → Value → ℕ → Value
expand DivKind.u_div width a d_bits = expand_udiv width a d_bits
expand DivKind.s_div width a d_bits = expand_sdiv width a d_bits
expand DivKind.u_rem width a d_bits =
    if is_power_of_two d_bits
    then emit_and a (emit_const width (d_bits - 1))
    else emit_rem_from_quotient width a (expand_udiv width a d_bits) d_bits
expand DivKind.s_rem width a d_bits =
    emit_rem_from_quotient width a (expand_sdiv width a d_bits) d_bits

abbrev pub as_const_operand : Value → Option ConstOperand
as_const_operand (Value.constant c) = some c
as_const_operand _ = none

abbrev pub is_reduced_width : ℕ → Bool
is_reduced_width width = width == 8 || width == 16 || width == 32 || width == 64

-- The value for a division of a given kind by a constant, `none` where it is left alone.
unfoldable pub rewrite_constant : DivKind → Value → ConstOperand → Option Value
rewrite_constant kind a divisor =
    let width = divisor.width in
    let d_bits = masked divisor in
    let is_signed = kind_signed kind in
    let wide = Value.cast (if is_signed then CastOp.sext else CastOp.zext) 32 a in
    let wide_d =
      if is_signed then bit_and (signed divisor) (mask_to_width (2 ^ 128 - 1) 32) else d_bits in
    if not (is_reduced_width width)
    then none
    else if d_bits == 0
    then none
    else if d_bits == 1
    then some (if kind_rem kind then emit_const width 0 else a)
    else if is_signed && signed divisor == 2 ^ 128 - 1
    then some (if kind_rem kind then emit_const width 0 else emit_sub (emit_const width 0) a)
    else if ltb width 32
    then some (Value.cast CastOp.trunc width (expand kind 32 wide wide_d))
    else some (expand kind width a d_bits)

-- The value that replaces the operation, `none` where the pass leaves it as it is.
unfoldable pub rewrite_div : BinOp → Value → Value → Option Value
rewrite_div op a divisor_v = do
  kind ← div_kind op
  divisor ← as_const_operand divisor_v
  rewrite_constant kind a divisor
