-- ===== src/Aarch64/Immediate.antt =====
-- crates/pliron-ll/src/aarch64/encoding.rs: the floating-point constants that FMOV holds in eight
-- bits (`vfp_expand_imm_f64`, `vfp_expand_imm_f32`, `fmov_imm8_for_*`).
pub mod RoundTrip
use crabbit.Prelude.{ℕ, zero, suc, Option, none, some, Bool, ◌/◌, ◌^◌}
use crabbit.Prelude.{bit_and, bit_xor, ◌==◌, if◌then◌else◌}
use crabbit.Prelude.Words.{◌∣◌, ◌<<◌}

-- `x >> k`
infixl 6 ◌>>>◌
abbrev pub ◌>>>◌ : ℕ → ℕ → ℕ
a >>> k = a / 2 ^ k

unfoldable pub vfp_expand_imm_f64 : ℕ → ℕ
vfp_expand_imm_f64 imm8 =
    let sign = bit_and (imm8 >>> 7) 1 in
    let b6 = bit_and (imm8 >>> 6) 1 in
    let exp = bit_xor b6 1 << 10 ∣ (if b6 == 1 then 0xff << 2 else 0) ∣ bit_and (imm8 >>> 4) 0x3 in
    let frac = bit_and imm8 0xf in sign << 63 ∣ exp << 52 ∣ frac << 48

unfoldable pub vfp_expand_imm_f32 : ℕ → ℕ
vfp_expand_imm_f32 imm8 =
    let sign = bit_and (imm8 >>> 7) 1 in
    let b6 = bit_and (imm8 >>> 6) 1 in
    let exp = bit_xor b6 1 << 7 ∣ (if b6 == 1 then 0x1f << 2 else 0) ∣ bit_and (imm8 >>> 4) 0x3 in
    let frac = bit_and imm8 0xf in sign << 31 ∣ exp << 23 ∣ frac << 19

-- The first of `left` numbers from `imm8` that passes the test.
unfoldable pub find_imm8 : (ℕ → Bool) → ℕ → ℕ → Option ℕ
find_imm8 test zero imm8 = none
find_imm8 test (suc left) imm8 =
    let rest = find_imm8 test left (suc imm8) in if test imm8 then some imm8 else rest

-- The numbers of a `u8` are 256.
unfoldable pub fmov_imm8_for_f64_bits : ℕ → Option ℕ
fmov_imm8_for_f64_bits bits = find_imm8 (λ imm8. vfp_expand_imm_f64 imm8 == bits) 256 0

unfoldable pub fmov_imm8_for_f32_bits : ℕ → Option ℕ
fmov_imm8_for_f32_bits bits = find_imm8 (λ imm8. vfp_expand_imm_f32 imm8 == bits) 256 0
