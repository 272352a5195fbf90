-- ===== src/X86/Machine/Decode.antt =====
-- crates/pliron-ll/src/x86_64/encoding.rs: the bytes of `rex` and `modrm` hold the fields that
-- they are given, and the processor reads them back.
use crabbit.Prelude.{ℕ, ◌+◌, ◌*◌, ◌/◌, ◌%◌, ◌^◌, ◌<◌, ◌≡◌, refl, ◌∙◌, ap, arith, bit_and}
use crabbit.Prelude.{Bool, true, false, ◌==◌, leb, some, List, ◌∷◌, ◌++◌}
use crabbit.Prelude.Bits.{bit_and_mask, bit_or-high}
use crabbit.X86.Bytes.{rex, modrm, emit_rr, emit_ext}
use crabbit.X86.Encode.{emit_imul}
use crabbit.X86.Machine.{
  Asm, decode, decode_rex, decode_rr, decode_modrm, decode_prefixed, extended, with_rest,
  decode_imul,
}

pub decode_rex-rex :
    (w r x b : Bool) → decode_rex (rex w r x b) ≡ some (record { w = w; r = r; x = x; b = b })
unfolding decode_rex rex
decode_rex-rex true true true true = refl
decode_rex-rex true true true false = refl
decode_rex-rex true true false true = refl
decode_rex-rex true true false false = refl
decode_rex-rex true false true true = refl
decode_rex-rex true false true false = refl
decode_rex-rex true false false true = refl
decode_rex-rex true false false false = refl
decode_rex-rex false true true true = refl
decode_rex-rex false true true false = refl
decode_rex-rex false true false true = refl
decode_rex-rex false true false false = refl
decode_rex-rex false false true true = refl
decode_rex-rex false false true false = refl
decode_rex-rex false false false true = refl
decode_rex-rex false false false false = refl

-- A prefix of these is no instruction of its own.
not_clear : (w r b : Bool) → (rex w r false b == 0x31) ≡ false
unfolding rex
not_clear true true true = refl
not_clear true true false = refl
not_clear true false true = refl
not_clear true false false = refl
not_clear false true true = refl
not_clear false true false = refl
not_clear false false true = refl
not_clear false false false = refl

pub modrm-sum :
    (mode reg rm : ℕ) → mode < 4 → reg < 8 → rm < 8 → modrm mode reg rm ≡ mode * 64 + reg * 8 + rm
unfolding modrm
modrm-sum mode reg rm h_mode h_reg h_rm =
    let whole_mode : mode * 2 ^ 6 % 2 ^ 8 ≡ mode * 2 ^ 6 = omega arith in
    let whole_reg : reg * 2 ^ 3 % 2 ^ 8 ≡ reg * 2 ^ 3 = omega arith in
    let regroup : mode * 2 ^ 6 + reg * 2 ^ 3 ≡ (mode * 8 + reg) * 2 ^ 3 = omega arith in
    rw
      (
        whole_mode,
        whole_reg,
        bit_or-high 6 mode (reg * 2 ^ 3) (omega arith),
        regroup,
        bit_or-high 3 (mode * 8 + reg) rm h_rm,
      )
      (omega arith)

-- The upper bit of a register number and its three lower ones.
pub low-lt : (r : ℕ) → bit_and r 7 < 8
low-lt r = omega (arith, bit_and_mask 3 r)

pub extended-low : (r : ℕ) → r < 16 → extended (leb 8 r) (bit_and r 7) ≡ r
extended-low r h = ground (arith, bit_and_mask 3 r)

module _ (r b : Bool) (o reg rm : ℕ) (rest : List ℕ) where
  decode_modrm-modrm :
      reg < 8
      → rm < 8
      → decode_modrm (record { w = true; r = r; x = false; b = b }) o (modrm 3 reg rm ∷ rest)
        ≡ with_rest (decode_rr o reg (extended r reg) (extended b rm)) rest
  unfolding decode_modrm
  decode_modrm-modrm h_reg h_rm =
      let mode : (3 * 64 + reg * 8 + rm) / 64 ≡ 3 = omega arith in
      let field_reg : (3 * 64 + reg * 8 + rm) / 8 % 8 ≡ reg = omega arith in
      let field_rm : (3 * 64 + reg * 8 + rm) % 8 ≡ rm = omega arith in
      rw (modrm-sum 3 reg rm (omega arith) h_reg h_rm, mode, field_reg, field_rm) refl

module _ (w r b : Bool) (o : ℕ) (rest : List ℕ) where
  decode-rex :
      decode (rex w r false b ∷ o ∷ rest)
      ≡ decode_prefixed (record { w = w; r = r; x = false; b = b }) o rest
  unfolding decode
  decode-rex = rw (not_clear w r b, decode_rex-rex w r false b) refl

-- An opcode on an operand byte: neither of the opcodes that the processor treats apart.
abbrev pub IsPlain : ℕ → Type 0
IsPlain o = ((o == 0x99) ≡ false) × ((o == 0x0f) ≡ false)

module _ (o : ℕ) (rest : List ℕ) (plain : IsPlain o) where
  pub decode-emit_rr :
      (reg rm : ℕ)
      → reg < 16
      → rm < 16
      → decode (emit_rr o reg rm ++ rest) ≡ with_rest (decode_rr o (bit_and reg 7) reg rm) rest
  unfolding decode_prefixed
  decode-emit_rr reg rm h_reg h_rm =
      decode-rex true (leb 8 reg) (leb 8 rm) o _
      ∙ rw
          (
            plain.0,
            plain.1,
            decode_modrm-modrm (leb 8 reg) (leb 8 rm) o _ _ rest (low-lt reg) (low-lt rm),
            extended-low reg h_reg,
            extended-low rm h_rm,
          )
          refl

  pub decode-emit_ext :
      (ext rm : ℕ)
      → ext < 8
      → rm < 16
      → decode (emit_ext o ext rm ++ rest) ≡ with_rest (decode_rr o ext ext rm) rest
  unfolding decode_prefixed
  decode-emit_ext ext rm h_ext h_rm =
      let lower : extended false ext ≡ ext = omega arith in
      decode-rex true false (leb 8 rm) o _
      ∙ rw
          (
            plain.0,
            plain.1,
            decode_modrm-modrm false (leb 8 rm) o ext _ rest h_ext (low-lt rm),
            extended-low rm h_rm,
          )
          (ap (λ (t : ℕ). with_rest (decode_rr o ext t rm) rest) lower)

pub decode-emit_imul :
    (rd src : ℕ) (rest : List ℕ)
    → rd < 16
    → src < 16
    → decode (emit_imul rd src ++ rest) ≡ some (Asm.imul rd src, rest)
unfolding emit_imul decode_prefixed decode_imul
decode-emit_imul rd src rest h_rd h_src =
    let sum = modrm-sum 3 (bit_and rd 7) (bit_and src 7) (omega arith) (low-lt rd) (low-lt src) in
    let mode : (3 * 64 + bit_and rd 7 * 8 + bit_and src 7) / 64 ≡ 3 =
      omega (arith, low-lt rd, low-lt src) in
    let field_reg : (3 * 64 + bit_and rd 7 * 8 + bit_and src 7) / 8 % 8 ≡ bit_and rd 7 =
      omega (arith, low-lt rd, low-lt src) in
    let field_rm : (3 * 64 + bit_and rd 7 * 8 + bit_and src 7) % 8 ≡ bit_and src 7 =
      omega (arith, low-lt rd, low-lt src) in
    decode-rex true (leb 8 rd) (leb 8 src) 0x0f _
    ∙ rw (sum, mode, field_reg, field_rm, extended-low rd h_rd, extended-low src h_src) refl
