-- ===== src/Aarch64/Encode/Memory.antt =====
-- crates/pliron-ll/src/aarch64/encoding.rs, `encode_mem_offset_with`: which offsets of a load or
-- store are encoded, and that the processor reads the same offset back.
use native.Mathlib.Nat.{div-add-mod', div-lt_iff_lt-mul}
use crabbit.Prelude.{
  ℕ, ◌+◌, ◌-◌, ◌*◌, ◌/◌, ◌%◌, ◌^◌, ◌≤◌, ◌<◌, ◌≡◌, refl, ◌∙◌, sym, ap, arith, bit_or, some, Option,
}
use crabbit.Prelude.{
  inl, inr, Bool, true, false, ◌&&◌, ◌||◌, ◌==◌, leb, ltb, leb→le, if◌then◌else◌, Bool-cases,
}
use crabbit.Prelude.Bits.{bit_or-high}
use crabbit.Prelude.Result.{Result, Error, ok, err}
use crabbit.Prelude.Words.{◌∣◌, ◌<<◌}
use crabbit.Aarch64.Registers.{Register, number}
use crabbit.Aarch64.Inst.{Inst}
use crabbit.Aarch64.Encode.{base_register, mem_offset_base, encode_mem_offset_with}

-- The offset that the architecture reads: the scaled form has bit 24 set and an unsigned field
-- of 12 bits, the unscaled one a field of 9 bits, of which the encoder uses the positive half.
abbrev pub offset_of : ℕ → ℕ → ℕ
offset_of scale w = if w / 2 ^ 24 % 2 == 1 then w / 2 ^ 10 % 2 ^ 12 * scale else w / 2 ^ 12 % 2 ^ 8

abbrev pub is_scaled : ℕ → ℕ → Bool
is_scaled scale bytes = leb bytes (4095 * scale) && bytes % scale == 0

-- The two forms of the base word and the offset, before the registers are added.
module _ (base scale bytes : ℕ) (clear : base % 2 ^ 22 ≡ 0) (has_bit : base / 2 ^ 24 % 2 ≡ 1) where
  abbrev Encodes : Type 0
  Encodes =
      (w : ℕ) × (mem_offset_base base scale bytes ≡ ok w)
      × (w % 2 ^ 10 ≡ 0)
      × ((low : ℕ) → low < 2 ^ 10 → offset_of scale (w + low) ≡ bytes)

  scaled_facts : is_scaled scale bytes ≡ true → (bytes ≤ 4095 * scale) × (bytes % scale ≡ 0)
  scaled_facts s = ground arith

  quotient_lt :
      0 < scale
      → is_scaled scale bytes ≡ true
      → (bytes / scale < 2 ^ 12) × (bytes / scale * scale ≡ bytes)
  quotient_lt h s =
      let (le, exact) = scaled_facts s in
      ((div-lt_iff_lt-mul h).1 (omega (arith, le)), omega (arith, div-add-mod' bytes scale, exact))

  high_word :
      (b k field : ℕ)
      → b % 2 ^ 22 ≡ 0
      → field * 2 ^ k < 2 ^ 22
      → (b ∣ field << k) ≡ b + field * 2 ^ k
  high_word b k field e h =
      let whole : b ≡ b / 2 ^ 22 * 2 ^ 22 = omega arith in
      ap (λ (t : ℕ). bit_or t (field * 2 ^ k)) whole
      ∙ bit_or-high 22 (b / 2 ^ 22) (field * 2 ^ k) h
      ∙ ap (λ (t : ℕ). t + field * 2 ^ k) (sym whole)

  scaled : 0 < scale → is_scaled scale bytes ≡ true → Encodes
  unfolding mem_offset_base
  scaled h s =
      let (lt, back) = quotient_lt h s in
      let small : bytes / scale % 2 ^ 32 ≡ bytes / scale = omega (arith, lt) in
      (
        base + bytes / scale * 2 ^ 10,
        rw (s, small) (ap ok (high_word base 10 (bytes / scale) clear (omega (arith, lt)))),
        omega arith,
        λ low h_low. offset_scaled (bytes / scale) low lt h_low back,
      )
    where
      offset_scaled :
          (q low : ℕ)
          → q < 2 ^ 12
          → low < 2 ^ 10
          → q * scale ≡ bytes
          → offset_of scale (base + q * 2 ^ 10 + low) ≡ bytes
      offset_scaled q low lt h_low back =
          let w = base + q * 2 ^ 10 + low in
          let form : w / 2 ^ 24 % 2 ≡ 1 = omega arith in
          let field : w / 2 ^ 10 % 2 ^ 12 ≡ q = omega arith in rw (form, field) back

  unscaled : is_scaled scale bytes ≡ false → bytes ≤ 255 → Encodes
  unfolding mem_offset_base
  unscaled s le = (
    base - 2 ^ 24 + bytes * 2 ^ 12,
    rw (s, in_reach)
        (ap ok (rw small (high_word (base - 2 ^ 24) 12 bytes (omega arith) (omega arith)))),
    omega arith,
    λ low h_low. offset_unscaled low h_low,
  )
    where
      small : bytes % 2 ^ 32 ≡ bytes
      small = omega arith

      in_reach : (ltb 255 bytes || ltb base (2 ^ 24)) ≡ false
      in_reach = ground arith

      offset_unscaled :
          (low : ℕ) → low < 2 ^ 10 → offset_of scale (base - 2 ^ 24 + bytes * 2 ^ 12 + low) ≡ bytes
      offset_unscaled low h_low =
          let w = base - 2 ^ 24 + bytes * 2 ^ 12 + low in
          let form : w / 2 ^ 24 % 2 ≡ 0 = omega arith in
          let field : w / 2 ^ 12 % 2 ^ 8 ≡ bytes = omega arith in rw (form, field) refl

  encodes : 0 < scale → (is_scaled scale bytes || leb bytes 255) ≡ true → Encodes
  encodes h e = elim (Bool-cases (is_scaled scale bytes)) [
    | inl s ↦ scaled h s
    | inr s ↦ unscaled s (leb→le bytes 255 (rw s at e))
  ]

  rejects :
      (is_scaled scale bytes || leb bytes 255) ≡ false
      → mem_offset_base base scale bytes ≡ err Error.unencodable
  unfolding mem_offset_base
  rejects e = ground arith

pub low_registers :
    (w rn rd : ℕ)
    → w % 2 ^ 10 ≡ 0
    → rn < 2 ^ 5
    → rd < 2 ^ 5
    → (w ∣ rn << 5 ∣ rd) ≡ w + (rn * 2 ^ 5 + rd)
low_registers w rn rd e h_rn h_rd =
    let whole : w ≡ w / 2 ^ 10 * 2 ^ 10 = omega arith in
    ap (λ (t : ℕ). bit_or t rd)
      (ap (λ (t : ℕ). bit_or t (rn * 2 ^ 5)) whole
        ∙ bit_or-high 10 (w / 2 ^ 10) (rn * 2 ^ 5) (omega arith)
        ∙ omega arith)
    ∙ bit_or-high 5 (w / 2 ^ 5 + rn) rd h_rd
    ∙ omega arith

module _ (inst : Inst) (base scale bytes rn rd : ℕ) (fixed : Option ℕ) (file : Register → Result ℕ)
    (clear : base % 2 ^ 22 ≡ 0) (has_bit : base / 2 ^ 24 % 2 ≡ 1) (e_imm : inst.imm ≡ some bytes)
    (e_rn : base_register fixed inst ≡ ok rn) (e_rd : number file inst.rd ≡ ok rd) where
  -- A load or store whose offset is a multiple of the scale up to 4095 times it, or at most 255,
  -- is encoded to a word from which the architecture reads that offset, in either form, and the
  -- two registers.
  pub encode_mem_offset_with-offset_of :
      rn < 2 ^ 5
      → rd < 2 ^ 5
      → 0 < scale
      → (is_scaled scale bytes || leb bytes 255) ≡ true
      → (w : ℕ) × (encode_mem_offset_with inst base scale fixed file ≡ ok w)
        × (offset_of scale w ≡ bytes)
        × (w / 2 ^ 5 % 2 ^ 5 ≡ rn)
        × (w % 2 ^ 5 ≡ rd)
  unfolding encode_mem_offset_with
  encode_mem_offset_with-offset_of h_rn h_rd h_scale e =
      let (w, e_w, free, reads) = encodes base scale bytes clear has_bit h_scale e in
      (
        w + (rn * 2 ^ 5 + rd),
        rw (e_rn, e_rd, e_imm, e_w) (ap ok (low_registers w rn rd free h_rn h_rd)),
        reads (rn * 2 ^ 5 + rd) (omega arith),
        omega arith,
        omega arith,
      )

  -- A load or store whose offset is neither a multiple of the scale up to 4095 times it nor at
  -- most 255 is refused.
  pub encode_mem_offset_with-err :
      (is_scaled scale bytes || leb bytes 255) ≡ false
      → encode_mem_offset_with inst base scale fixed file ≡ err Error.unencodable
  unfolding encode_mem_offset_with
  encode_mem_offset_with-err e = rw (e_rn, e_imm, rejects base scale bytes clear has_bit e) refl
