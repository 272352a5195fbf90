-- ===== src/Aarch64/Address/Calls.antt =====
-- crates/pliron-ll/src/aarch64/encoding.rs, `encode_call`: where the word of a local call goes.
use Prim.Native.String.{String}
use crabbit.Prelude.{ℕ, ◌+◌, ◌*◌, ◌%◌, ◌^◌, ◌≤◌, ◌<◌, ◌≡◌, refl, ap, arith, Option, some, ◌⊎◌}
use crabbit.Prelude.Bits.{bit_or-high}
use crabbit.Prelude.Int.{to_bits}
use crabbit.Prelude.Result.{Error, ok, err}
use crabbit.Aarch64.Inst.{Inst}
use crabbit.Aarch64.Branch.{delta_words}
use crabbit.Aarch64.Branch.Words.{jump, field_26, mask_lt, far_25}
use crabbit.Aarch64.Address.{EncodedCall, encode_call, call_to}

module _ (offsets : String → Option ℕ) (inst : Inst) (callee : String) (to pc : ℕ)
    (named : inst.callee ≡ some callee) (found : offsets callee ≡ some to)
    (aligned : to % 4 ≡ pc % 4) where
  -- A call of a function of the module within 128 MiB, a number of words away, is encoded to a
  -- `bl`, whose opcode is 37 in the upper six bits, that goes to the function.
  pub encode_call-jump :
      to < pc + 2 ^ 27
      → pc ≤ to + 2 ^ 27
      → (field : ℕ) × (field < 2 ^ 26)
        × (encode_call offsets inst pc ≡ ok (EncodedCall.local (37 * 2 ^ 26 + field)))
        × (jump 26 field pc ≡ to)
  unfolding encode_call call_to
  encode_call-jump above below =
      let f = field_26 to pc aligned above below in
      let fits = mask_lt 26 (to_bits 32 (delta_words to pc)) (omega arith) in
      (
        _,
        fits,
        rw (named, found, f.0)
            (ap (λ (w : ℕ). ok (EncodedCall.local w)) (bit_or-high 26 37 _ fits)),
        f.1,
      )

  -- A call of a function of the module that is farther away is refused.
  pub encode_call-far :
      (pc + 2 ^ 27 ≤ to) ⊎ (to + 2 ^ 27 < pc) → encode_call offsets inst pc ≡ err Error.out_of_range
  unfolding encode_call call_to
  encode_call-far far = rw (named, found, far_25 to pc aligned far) refl
