-- ===== src/Aarch64/Encode/Fields.antt =====
-- crates/pliron-ll/src/aarch64/encoding.rs: where the operands of an instruction stand in its word.
use crabbit.Prelude.{ℕ, ◌+◌, ◌*◌, ◌/◌, ◌%◌, ◌^◌, ◌<◌, ◌≡◌, ◌∙◌, ap, arith, bit_or}
use crabbit.Prelude.Bits.{bit_or-high, bit_or-field}
use crabbit.Prelude.Result.{Result, ok}
use crabbit.Prelude.Words.{◌∣◌, ◌<<◌}
use crabbit.Aarch64.Registers.{Register, number}
use crabbit.Aarch64.Inst.{Inst}
use crabbit.Aarch64.Encode.{encode_three}

-- A base word that leaves the three register fields free: 11 bits above them and 6 between.
abbrev pub three_base : ℕ → ℕ → ℕ
three_base hi mid = hi * 2 ^ 21 + mid * 2 ^ 10

three_word :
    (hi mid rm rn rd : ℕ)
    → mid < 2 ^ 6
    → rm < 2 ^ 5
    → rn < 2 ^ 5
    → rd < 2 ^ 5
    → (three_base hi mid ∣ rm << 16 ∣ rn << 5 ∣ rd)
      ≡ three_base hi mid + rm * 2 ^ 16 + rn * 2 ^ 5 + rd
three_word hi mid rm rn rd h_mid h_rm h_rn h_rd =
    let first = bit_or-field 16 5 hi rm (mid * 2 ^ 10) h_rm (omega arith) in
    let second = bit_or-field 5 5 ((hi * 2 ^ 5 + rm) * 2 ^ 6 + mid) rn 0 h_rn (omega arith) in
    let third = bit_or-high 5 ((((hi * 2 ^ 5 + rm) * 2 ^ 6 + mid) * 2 ^ 5) + rn) rd h_rd in
    ap (λ (t : ℕ). bit_or (bit_or t (rn * 2 ^ 5)) rd)
      (ap (λ (t : ℕ). bit_or t (rm * 2 ^ 16)) (omega arith) ∙ first)
    ∙ ap (λ (t : ℕ). bit_or t rd) (ap (λ (t : ℕ). bit_or t (rn * 2 ^ 5)) (omega arith) ∙ second)
    ∙ ap (λ (t : ℕ). bit_or t rd) (omega arith)
    ∙ third
    ∙ omega arith

low_fields :
    (base rm rn rd : ℕ)
    → base % 2 ^ 10 ≡ 0
    → base / 2 ^ 16 % 2 ^ 5 ≡ 0
    → rm < 2 ^ 5
    → rn < 2 ^ 5
    → rd < 2 ^ 5
    → (base ∣ rm << 16 ∣ rn << 5 ∣ rd) ≡ base + rm * 2 ^ 16 + rn * 2 ^ 5 + rd
low_fields base rm rn rd clear gap h_rm h_rn h_rd =
    let e : base ≡ three_base (base / 2 ^ 21) (base / 2 ^ 10 % 2 ^ 6) = omega arith in
    ap (λ (t : ℕ). bit_or (bit_or (bit_or t (rm * 2 ^ 16)) (rn * 2 ^ 5)) rd) e
    ∙ three_word (base / 2 ^ 21) (base / 2 ^ 10 % 2 ^ 6) rm rn rd (omega arith) h_rm h_rn h_rd
    ∙ omega (arith, e)

-- With a base word that is clear where the registers go, an instruction of three registers is
-- encoded to a word that holds their numbers in its three fields and the base elsewhere.
pub encode_three-fields :
    (file : Register → Result ℕ) (inst : Inst) (base rm rn rd : ℕ)
    → number file inst.rm ≡ ok rm
    → number file inst.rn ≡ ok rn
    → number file inst.rd ≡ ok rd
    → base % 2 ^ 10 ≡ 0
    → base / 2 ^ 16 % 2 ^ 5 ≡ 0
    → rm < 2 ^ 5
    → rn < 2 ^ 5
    → rd < 2 ^ 5
    → (word : ℕ) × (encode_three file inst base ≡ ok word)
      × (word % 2 ^ 5 ≡ rd)
      × (word / 2 ^ 5 % 2 ^ 5 ≡ rn)
      × (word / 2 ^ 16 % 2 ^ 5 ≡ rm)
      × (word / 2 ^ 10 % 2 ^ 6 ≡ base / 2 ^ 10 % 2 ^ 6)
      × (word / 2 ^ 21 ≡ base / 2 ^ 21)
unfolding encode_three
encode_three-fields file inst base rm rn rd e_rm e_rn e_rd clear gap h_rm h_rn h_rd = (
  base + rm * 2 ^ 16 + rn * 2 ^ 5 + rd,
  rw (e_rm, e_rn, e_rd) (ap ok (low_fields base rm rn rd clear gap h_rm h_rn h_rd)),
  omega arith,
  omega arith,
  omega arith,
  omega arith,
  omega arith,
)
