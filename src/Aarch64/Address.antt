-- ===== src/Aarch64/Address.antt =====
-- crates/pliron-ll/src/aarch64/encoding.rs: calls and pc-relative addresses (`encode_call`,
-- `encode_pc_relative_address`, `encode_adr_literal`, `encode_adr_function`).
-- An offset is below 2 ^ 63, so that it is itself as an i64.
pub mod Reach
pub mod Calls
use Prim.Native.String.{String}
use crabbit.Prelude.{ℕ, Option, none, some, List, [], ◌∷◌, ◌++◌, bit_and, if◌then◌else◌}
use crabbit.Prelude.Int.{ℤ, sub_ℕ, in_range, to_bits, unsigned_abs, is_negative}
use crabbit.Prelude.Result.{Result, Error, ok, guard, require, unwrap, ◌>>=◌, ◌>>◌}
use crabbit.Prelude.Words.{◌∣◌, ◌<<◌, to_le_bytes}
use crabbit.Aarch64.Registers.{xreg, number}
use crabbit.Aarch64.Inst.{Inst, BinaryEncoding}
use crabbit.Aarch64.Immediate.{◌>>>◌}
use crabbit.Aarch64.Branch.{delta_words}

pub data EncodedCall : Type 0 where
  local : ℕ → EncodedCall
  external : String → EncodedCall

abbrev pub local_call : ℕ → ℕ → Result EncodedCall
local_call to pc = do
  guard (in_range 25 (delta_words to pc)) Error.out_of_range
  ok (EncodedCall.local (0x9400_0000 ∣ bit_and (to_bits 32 (delta_words to pc)) 0x03ff_ffff))

unfoldable pub call_to : String → Option ℕ → ℕ → Result EncodedCall
call_to callee none pc = ok (EncodedCall.external callee)
call_to callee (some to) pc = local_call to pc

unfoldable pub encode_call : (String → Option ℕ) → Inst → ℕ → Result EncodedCall
encode_call offsets inst pc = do callee ← unwrap inst.callee; call_to callee (offsets callee) pc

-- `adr rd, #0`, then the delta in two halves, added or subtracted.
unfoldable pub address_words : ℕ → ℤ → List ℕ
address_words rd delta =
    let magnitude = unsigned_abs delta in
    let lo12 = bit_and magnitude 0xfff in
    let hi12 = bit_and (magnitude >>> 12) 0xfff in
    let base = if is_negative delta then 0xd100_0000 else 0x9100_0000 in
    (0x1000_0000 ∣ rd)
    ∷ (base ∣ lo12 << 10 ∣ rd << 5 ∣ rd)
    ∷ (base ∣ 1 << 22 ∣ hi12 << 10 ∣ rd << 5 ∣ rd)
    ∷ []

abbrev pub flat_bytes : List ℕ → List ℕ
flat_bytes [] = []
flat_bytes (word ∷ words) = to_le_bytes word ++ flat_bytes words

unfoldable pub encode_pc_relative_address : ℕ → ℤ → Result BinaryEncoding
encode_pc_relative_address rd delta = do
  guard (in_range 24 delta) Error.out_of_range
  ok (record { bytes = flat_bytes (address_words rd delta); fixups = [] })

unfoldable pub encode_adr_literal : (String → Option ℕ) → Inst → ℕ → Result BinaryEncoding
encode_adr_literal literal_offsets inst pc = do
  label ← unwrap inst.literal_label
  to ← require Error.unknown_label (literal_offsets label)
  rd ← number xreg inst.rd
  encode_pc_relative_address rd (sub_ℕ to pc)

unfoldable pub encode_adr_function : (String → Option ℕ) → Inst → ℕ → Result BinaryEncoding
encode_adr_function function_offsets inst pc = do
  symbol ← unwrap inst.callee
  to ← require Error.unknown_label (function_offsets symbol)
  rd ← number xreg inst.rd
  encode_pc_relative_address rd (sub_ℕ to pc)
