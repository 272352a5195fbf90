-- ===== src/Aarch64/Encode/Lanes.antt =====
-- crates/pliron-ll/src/aarch64/encoding.rs, `encode_vshift_imm`: the shift that the architecture
-- reads from the word of a shift of each lane.
use crabbit.Prelude.{ℕ, ◌+◌, ◌-◌, ◌*◌, ◌/◌, ◌%◌, ◌^◌, ◌≤◌, ◌<◌, ◌≡◌, refl, ◌∙◌, ap, arith}
use crabbit.Prelude.{◌⊎◌, Bool, true, false, ◌&&◌, leb, ltb, if◌then◌else◌, bit_or, some}
use crabbit.Prelude.Bits.{bit_or-field}
use crabbit.Prelude.Result.{Error, ok, err}
use crabbit.Prelude.Words.{◌∣◌, ◌<<◌}
use crabbit.Aarch64.Registers.{qreg, number}
use crabbit.Aarch64.Inst.{Inst}
use crabbit.Aarch64.Encode.{vshift_field, encode_vshift_imm}
use crabbit.Aarch64.Encode.Memory.{low_registers}

-- The field `immh:immb`, the width of a lane by its highest bit, and the amount.
abbrev pub shift_field : ℕ → ℕ
shift_field w = w / 2 ^ 16 % 2 ^ 7

abbrev pub lane_of : ℕ → ℕ
lane_of w = if leb 64 (shift_field w) then 64 else 32

abbrev pub amount_of : Bool → ℕ → ℕ
amount_of true w = 2 * lane_of w - shift_field w
amount_of false w = shift_field w - lane_of w

-- A right shift is from 1 to the width of a lane, a left shift from 0 to one less than it.
abbrev pub is_lane_shift : Bool → ℕ → ℕ → Bool
is_lane_shift true lanebits sh = leb 1 sh && leb sh lanebits
is_lane_shift false lanebits sh = ltb sh lanebits

-- The field that is chosen reads back.
Chosen : ℕ → ℕ → Bool → Type 0
Chosen sh lanebits right =
    (field : ℕ) × (vshift_field sh lanebits right ≡ ok field)
    × (field < 2 ^ 7)
    × ((w : ℕ) → shift_field w ≡ field → (lane_of w ≡ lanebits) × (amount_of right w ≡ sh))

chosen :
    (sh lanebits : ℕ) (right : Bool)
    → (lanebits ≡ 32) ⊎ (lanebits ≡ 64)
    → is_lane_shift right lanebits sh ≡ true
    → Chosen sh lanebits right
unfolding Chosen vshift_field
chosen sh lanebits true lanes inside =
    let range : (1 ≤ sh) × (sh ≤ lanebits) = ground arith in
    (
      2 * lanebits - sh,
      ground arith,
      omega (arith, range),
      λ w e. (ground (arith, e, range), ground (arith, e, range)),
    )
chosen sh lanebits false lanes inside =
    let range : sh < lanebits = ground arith in
    (
      lanebits + sh,
      ground arith,
      omega (arith, range),
      λ w e. (ground (arith, e, range), ground (arith, e, range)),
    )

refused :
    (sh lanebits : ℕ) (right : Bool)
    → is_lane_shift right lanebits sh ≡ false
    → vshift_field sh lanebits right ≡ err Error.unencodable
unfolding vshift_field
refused sh lanebits true outside = ground arith
refused sh lanebits false outside = ground arith

-- A base word that is clear in the shift's and the registers' fields takes the shift by addition.
shift_word :
    (base field : ℕ)
    → base % 2 ^ 10 ≡ 0
    → base / 2 ^ 16 % 2 ^ 7 ≡ 0
    → field < 2 ^ 7
    → (base ∣ field % 2 ^ 32 << 16) ≡ base + field * 2 ^ 16
shift_word base field clear gap h =
    let whole : base ≡ base / 2 ^ 23 * 2 ^ 7 * 2 ^ 16 + base % 2 ^ 16 = omega arith in
    let small : field % 2 ^ 32 ≡ field = omega arith in
    ap (λ (t : ℕ). bit_or base (t * 2 ^ 16)) small
    ∙ ap (λ (t : ℕ). bit_or t (field * 2 ^ 16)) whole
    ∙ bit_or-field 16 7 (base / 2 ^ 23) field (base % 2 ^ 16) h (omega arith)
    ∙ omega (arith, whole)

module _ (inst : Inst) (base lanebits sh rn rd : ℕ) (right : Bool) (clear : base % 2 ^ 10 ≡ 0)
    (gap : base / 2 ^ 16 % 2 ^ 7 ≡ 0) (lanes : (lanebits ≡ 32) ⊎ (lanebits ≡ 64))
    (e_imm : inst.imm ≡ some sh) (e_rn : number qreg inst.rn ≡ ok rn)
    (e_rd : number qreg inst.rd ≡ ok rd) (h_rn : rn < 2 ^ 5) (h_rd : rd < 2 ^ 5) where
  -- A shift of each lane whose amount the lanes have is encoded to a word from which the
  -- architecture reads lanes of the same width, the same amount and the two registers.
  pub encode_vshift_imm-amount_of :
      is_lane_shift right lanebits sh ≡ true
      → (w : ℕ) × (encode_vshift_imm inst base lanebits right ≡ ok w)
        × (lane_of w ≡ lanebits)
        × (amount_of right w ≡ sh)
        × (w / 2 ^ 5 % 2 ^ 5 ≡ rn)
        × (w % 2 ^ 5 ≡ rd)
  unfolding encode_vshift_imm Chosen
  encode_vshift_imm-amount_of inside =
      let (field, e_field, fits, reads) = chosen sh lanebits right lanes inside in
      let w = base + field * 2 ^ 16 + (rn * 2 ^ 5 + rd) in
      let at_field : shift_field w ≡ field = omega arith in
      let (same_lane, same_amount) = reads w at_field in
      (
        w,
        rw (e_rn, e_rd, e_imm, e_field)
            (ap ok (
              ap (λ (t : ℕ). bit_or (bit_or t (rn * 2 ^ 5)) rd)
                (shift_word base field clear gap fits)
              ∙ low_registers (base + field * 2 ^ 16) rn rd (omega arith) h_rn h_rd)),
        same_lane,
        same_amount,
        omega arith,
        omega arith,
      )

  -- A shift of each lane whose amount the lanes do not have is refused.
  pub encode_vshift_imm-err :
      is_lane_shift right lanebits sh ≡ false
      → encode_vshift_imm inst base lanebits right ≡ err Error.unencodable
  unfolding encode_vshift_imm
  encode_vshift_imm-err outside = rw (e_imm, refused sh lanebits right outside) refl
