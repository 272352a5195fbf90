-- ===== src/Midend/Magic.antt =====
-- crates/pliron-ll/src/passes/llvm/div_strength_reduce.rs: the magic numbers of
-- `magic_unsigned` and `magic_signed`. The loops take fuel and return the last state when it
-- runs out. Magic/Loop and Magic/Rounds show that they end by their test before.
pub mod Unsigned
pub mod Loop
pub mod Correct
pub mod Exact
pub mod Rounds
pub mod Signed
use crabbit.Prelude.{ℕ, zero, suc, ◌+◌, ◌-◌, ◌*◌, ◌/◌, ◌%◌, ◌^◌, bit_and}
use crabbit.Prelude.{Bool, true, false, ◌&&◌, ◌||◌, ltb, leb, ◌==◌, if◌then◌else◌}
use crabbit.Midend.Const.{mask_to_width, sign_extend, is_negative, unsigned_abs}

pub record UnsignedMagic : Type 0 where
  pub multiplier : ℕ
  pub shift : ℕ
  pub add : Bool

-- The variables of the loop.
pub record Search : Type 0 where
  pub p : ℕ
  pub q1 : ℕ
  pub r1 : ℕ
  pub q2 : ℕ
  pub r2 : ℕ
  pub add : Bool

-- One round of the loop, up to its test.
unfoldable pub unsigned_step : ℕ → ℕ → ℕ → Search → Search
unsigned_step d two_w_m1 nc s =
    let carry1 = leb (nc - s.r1) s.r1 in
    let carry2 = leb (d - s.r2) (s.r2 + 1) in
    record {
      p = s.p + 1;
      q1 = if carry1 then 2 * s.q1 + 1 else s.q1 * 2;
      r1 = if carry1 then 2 * s.r1 - nc else s.r1 * 2;
      q2 = if carry2 then 2 * s.q2 + 1 else s.q2 * 2;
      r2 = if carry2 then 2 * s.r2 + 1 - d else 2 * s.r2 + 1;
      add = s.add || (if carry2 then leb (two_w_m1 - 1) s.q2 else leb two_w_m1 s.q2);
    }

unfoldable pub unsigned_continues : ℕ → ℕ → Search → Bool
unsigned_continues d width s =
    let delta = d - 1 - s.r2 in
    ltb s.p (2 * width) && (ltb s.q1 delta || (s.q1 == delta && s.r1 == 0))

unfoldable pub unsigned_loop : ℕ → ℕ → ℕ → ℕ → ℕ → Search → Search
unsigned_loop zero d width two_w_m1 nc s = s
unsigned_loop (suc fuel) d width two_w_m1 nc s =
    let s' = unsigned_step d two_w_m1 nc s in
    elim (unsigned_continues d width s') [
      | true ↦ unsigned_loop fuel d width two_w_m1 nc s'
      | false ↦ s'
    ]

unfoldable pub unsigned_nc : ℕ → ℕ → ℕ
unsigned_nc d msk = msk - (msk - d + 1) % d

unfoldable pub unsigned_start : ℕ → ℕ → ℕ → ℕ → Search
unsigned_start d width two_w_m1 nc = record {
  p = width - 1;
  q1 = two_w_m1 / nc;
  r1 = two_w_m1 - two_w_m1 / nc * nc;
  q2 = (two_w_m1 - 1) / d;
  r2 = two_w_m1 - 1 - (two_w_m1 - 1) / d * d;
  add = false;
}

-- `mask_to_width(u128::MAX, width)` and `1 << (width - 1)`.
unfoldable pub magic_unsigned : ℕ → ℕ → UnsignedMagic
magic_unsigned d width =
    let two_w_m1 = 2 ^ (width - 1) in
    let msk = mask_to_width (2 ^ 128 - 1) width in
    let nc = unsigned_nc d msk in
    let s = unsigned_loop (width + 1) d width two_w_m1 nc (unsigned_start d width two_w_m1 nc) in
    record { multiplier = bit_and (s.q2 + 1) msk; shift = s.p - width; add = s.add }

pub record SignedMagic : Type 0 where
  pub multiplier : ℕ
  pub shift : ℕ

unfoldable pub signed_step : ℕ → ℕ → Search → Search
signed_step ad anc s =
    let carry1 = leb anc (s.r1 * 2) in
    let carry2 = leb ad (s.r2 * 2) in
    record {
      p = s.p + 1;
      q1 = if carry1 then s.q1 * 2 + 1 else s.q1 * 2;
      r1 = if carry1 then s.r1 * 2 - anc else s.r1 * 2;
      q2 = if carry2 then s.q2 * 2 + 1 else s.q2 * 2;
      r2 = if carry2 then s.r2 * 2 - ad else s.r2 * 2;
      add = s.add;
    }

unfoldable pub signed_continues : ℕ → Search → Bool
signed_continues ad s = let delta = ad - s.r2 in ltb s.q1 delta || (s.q1 == delta && s.r1 == 0)

unfoldable pub signed_loop : ℕ → ℕ → ℕ → Search → Search
signed_loop zero ad anc s = s
signed_loop (suc fuel) ad anc s =
    let s' = signed_step ad anc s in
    elim (signed_continues ad s') [ true ↦ signed_loop fuel ad anc s' | false ↦ s' ]

unfoldable pub signed_anc : ℕ → ℕ → ℕ → ℕ
signed_anc d_bits width ad = let t = 2 ^ (width - 1) + d_bits / 2 ^ (width - 1) in t - 1 - t % ad

unfoldable pub signed_start : ℕ → ℕ → ℕ → Search
signed_start width ad anc =
    let two_w_m1 = 2 ^ (width - 1) in
    record {
      p = width - 1;
      q1 = two_w_m1 / anc;
      r1 = two_w_m1 - two_w_m1 / anc * anc;
      q2 = two_w_m1 / ad;
      r2 = two_w_m1 - two_w_m1 / ad * ad;
      add = false;
    }

-- `d` is an i128 and the multiplier an i128. The variable `add` is not used here.
unfoldable pub magic_signed : ℕ → ℕ → SignedMagic
magic_signed d width =
    let msk = mask_to_width (2 ^ 128 - 1) width in
    let ad = bit_and (unsigned_abs d) msk in
    let anc = signed_anc (bit_and d msk) width ad in
    let s = signed_loop (2 * width) ad anc (signed_start width ad anc) in
    let m = bit_and (s.q2 + 1) msk in
    let m' =
      if is_negative d then bit_and (((msk + 2 ^ 128 - m) % 2 ^ 128 + 1) % 2 ^ 128) msk else m in
    record { multiplier = sign_extend m' width; shift = s.p - width }
