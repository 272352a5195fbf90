-- ===== src/Aarch64/Encode/Select.antt =====
-- crates/pliron-ll/src/aarch64/encoding.rs, `encode_cset`: what the word leaves in its register.
use crabbit.Prelude.{ℕ, ◌+◌, ◌*◌, ◌/◌, ◌%◌, ◌^◌, ◌<◌, ◌≡◌, ◌∙◌, ap, sym, arith}
use crabbit.Prelude.{Bool, not, if◌then◌else◌, bit_or, some}
use crabbit.Prelude.Bits.{bit_or-high, bit_or-field}
use crabbit.Prelude.Result.{ok}
use crabbit.Prelude.Words.{◌∣◌, ◌<<◌}
use crabbit.Aarch64.Registers.{xreg, number}
use crabbit.Aarch64.Condition.{ConditionCode, encoding, invert}
use crabbit.Aarch64.Condition.Flags.{Flags, field_holds, holds, invert-holds, not-not, encoding-lt}
use crabbit.Aarch64.Inst.{Inst}
use crabbit.Aarch64.Encode.{encode_cset}

abbrev pub bit : Bool → ℕ
bit t = if t then 1 else 0

-- The architecture's CSINC of two zero registers: 0 where its condition holds and 1 elsewhere.
abbrev pub csinc_zero : Flags → ℕ → ℕ
csinc_zero f w = bit (not (field_holds (w / 2 ^ 12 % 2 ^ 4) f))

cset_word :
    (field rd : ℕ)
    → field < 2 ^ 4
    → rd < 2 ^ 5
    → (0x9a9f_07e0 ∣ field << 12 ∣ rd) ≡ 0x9a9f_07e0 + field * 2 ^ 12 + rd
cset_word field rd h_field h_rd =
    ap (λ (t : ℕ). bit_or t rd)
      (bit_or-field 12 4 0x9a9f field 0x7e0 h_field (omega arith) ∙ omega arith)
    ∙ bit_or-high 5 (0x9a9f_07e0 / 2 ^ 5 + field * 2 ^ 7) rd h_rd
    ∙ omega arith

-- A `cset` is encoded to a word that selects between two zero registers and leaves one in its
-- register on the flags on which the condition holds and zero on the others.
pub encode_cset-csinc_zero :
    (inst : Inst) (cond : ConditionCode) (rd : ℕ) (f : Flags)
    → inst.cond ≡ some cond
    → number xreg inst.rd ≡ ok rd
    → rd < 2 ^ 5
    → (w : ℕ) × (encode_cset inst ≡ ok w)
      × (w % 2 ^ 5 ≡ rd)
      × (w / 2 ^ 16 ≡ 0x9a9f)
      × (w / 2 ^ 5 % 2 ^ 7 ≡ 0x3f)
      × (csinc_zero f w ≡ bit (holds cond f))
unfolding encode_cset
encode_cset-csinc_zero inst cond rd f e_cond e_rd h_rd =
    let fits = encoding-lt (invert cond) in
    let w = 0x9a9f_07e0 + encoding (invert cond) * 2 ^ 12 + rd in
    let field : w / 2 ^ 12 % 2 ^ 4 ≡ encoding (invert cond) = omega (arith, fits) in
    (
      w,
      rw (e_rd, e_cond) (ap ok (cset_word (encoding (invert cond)) rd fits h_rd)),
      omega (arith, fits),
      omega (arith, fits),
      omega (arith, fits),
      ap (λ (t : ℕ). bit (not (field_holds t f))) field
          ∙ ap (λ (t : Bool). bit (not t)) (invert-holds cond f)
          ∙ ap bit (sym (not-not (holds cond f))),
    )
