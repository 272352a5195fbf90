-- ===== src/X86/Memory.antt =====
-- crates/pliron-ll/src/x86_64/encoding.rs, `emit_mem_operand`, `emit_store` and `emit_load`: the
-- access that the processor reads from the bytes, by the architecture's definition.
use crabbit.Prelude.{ℕ, ◌+◌, ◌*◌, ◌/◌, ◌%◌, ◌^◌, ◌<◌, ◌≡◌, refl, ◌∙◌, sym, ap, arith, bit_and, leb}
use crabbit.Prelude.{
  Bool, true, false, not, inl, inr, ◌&&◌, ◌==◌, ==_iff, if◌then◌else◌, Bool-cases,
}
use crabbit.Prelude.{Option, some, none, List, [], ◌∷◌}
use crabbit.Prelude.Int.{ℤ, to_bits}
use crabbit.X86.Bytes.{rex, emit_mem_operand, emit_store, emit_load, Size}
use crabbit.X86.Machine.{Rex, decode_rex, extended}
use crabbit.X86.Machine.Decode.{decode_rex-rex, modrm-sum, low-lt, extended-low}
use crabbit.X86.Branch.{word_of}

-- A load into a register or a store from it, at a displacement from a base register.
pub record Access : Type 0 where
  pub is_load : Bool
  pub size : Size
  pub reg : ℕ
  pub base : ℕ
  pub disp : ℕ

-- The operand of mode 2: a base with a displacement of 32 bits. The fourth base is followed by
-- its own byte, of which only the one for no index is read: index 4, which is r12 and an index if
-- the prefix has its bit.
unfoldable pub decode_mem : Bool → Size → Rex → List ℕ → Option Access
decode_mem load size x (m ∷ b0 ∷ b1 ∷ b2 ∷ b3 ∷ []) =
    if m / 64 == 2 && not (m % 8 == 4)
    then some (record {
      is_load = load;
      size = size;
      reg = extended x.r (m / 8 % 8);
      base = extended x.b (m % 8);
      disp = word_of b0 b1 b2 b3;
    })
    else none
decode_mem load size x (m ∷ sib ∷ b0 ∷ b1 ∷ b2 ∷ b3 ∷ []) =
    if m / 64 == 2 && m % 8 == 4 && not x.x && sib == 0x24
    then some (record {
      is_load = load;
      size = size;
      reg = extended x.r (m / 8 % 8);
      base = extended x.b 4;
      disp = word_of b0 b1 b2 b3;
    })
    else none
decode_mem load size x _ = none

abbrev wide : Rex → Size → Size
wide x narrow = if x.w then Size.quad else narrow

unfoldable pub decode_extended : Rex → List ℕ → Option Access
decode_extended x (o ∷ rest) =
    if o == 0xb7
    then decode_mem true Size.word x rest
    else if o == 0xb6
    then decode_mem true Size.byte x rest
    else none
decode_extended x [] = none

unfoldable pub decode_opcode : Size → Rex → List ℕ → Option Access
decode_opcode narrow x (o ∷ rest) =
    if o == 0x89
    then decode_mem false (wide x narrow) x rest
    else if o == 0x88
    then decode_mem false Size.byte x rest
    else if o == 0x8b
    then decode_mem true (wide x narrow) x rest
    else if o == 0x0f
    then decode_extended x rest
    else none
decode_opcode narrow x [] = none

abbrev prefixed : Size → Option Rex → List ℕ → Option Access
prefixed narrow none rest = none
prefixed narrow (some x) rest = decode_opcode narrow x rest

unfoldable pub decode_access : List ℕ → Option Access
decode_access (p ∷ q ∷ rest) =
    if p == 0x66
    then prefixed Size.word (decode_rex q) rest
    else prefixed Size.long (decode_rex p) (q ∷ rest)
decode_access _ = none

bytes_word :
    (w : ℕ)
    → w < 2 ^ 32
    → word_of (w % 2 ^ 8) (w / 2 ^ 8 % 2 ^ 8) (w / 2 ^ 16 % 2 ^ 8) (w / 2 ^ 24 % 2 ^ 8) ≡ w
bytes_word w h = omega arith

to_bits-lt : (disp : ℤ) → to_bits 32 disp < 2 ^ 32
to_bits-lt (ℤ.pos n) = omega arith
to_bits-lt (ℤ.negsuc n) = omega arith

module _ (load : Bool) (size : Size) (w : Bool) (reg base : ℕ) (disp : ℤ) (low_reg : reg < 16)
    (low_base : base < 16) where
  abbrev access : Access
  access = record { is_load = load; size = size; reg = reg; base = base; disp = to_bits 32 disp }

  operand_rex : Rex
  operand_rex = record { w = w; r = leb 8 reg; x = false; b = leb 8 base }

  decode_mem-emit : decode_mem load size operand_rex (emit_mem_operand reg base disp) ≡ some access
  unfolding decode_mem emit_mem_operand operand_rex
  decode_mem-emit =
      let r = bit_and reg 7 in
      let low_r : r < 8 = low-lt reg in
      let word = bytes_word (to_bits 32 disp) (to_bits-lt disp) in
      elim (Bool-cases (bit_and base 7 == 4)) [
        | inl four ↦
            let mode : (2 * 64 + r * 8 + 4) / 64 ≡ 2 = omega (arith, low_r) in
            let field_reg : (2 * 64 + r * 8 + 4) / 8 % 8 ≡ r = omega (arith, low_r) in
            let field_rm : (2 * 64 + r * 8 + 4) % 8 ≡ 4 = omega (arith, low_r) in
            let whole : extended (leb 8 base) 4 ≡ base =
              ap (extended (leb 8 base)) (sym ((==_iff (bit_and base 7) 4).0 four))
              ∙ extended-low base low_base in
            rw
              (
                four,
                modrm-sum 2 r 4 (omega arith) low_r (omega arith),
                mode,
                field_reg,
                field_rm,
                extended-low reg low_reg,
                whole,
                word,
              )
              refl
        | inr other ↦
            let m = bit_and base 7 in
            let low_m : m < 8 = low-lt base in
            let mode : (2 * 64 + r * 8 + m) / 64 ≡ 2 = omega (arith, low_r, low_m) in
            let field_reg : (2 * 64 + r * 8 + m) / 8 % 8 ≡ r = omega (arith, low_r, low_m) in
            let field_rm : (2 * 64 + r * 8 + m) % 8 ≡ m = omega (arith, low_r, low_m) in
            rw
              (
                other,
                modrm-sum 2 r m (omega arith) low_r low_m,
                mode,
                field_reg,
                field_rm,
                other,
                extended-low reg low_reg,
                extended-low base low_base,
                word,
              )
              refl
      ]

abbrev emitted : Bool → Size → ℕ → ℕ → ℤ → List ℕ
emitted true size rt base disp = emit_load size rt base disp
emitted false size rt base disp = emit_store size rt base disp

not_prefix : (w r b : Bool) → (rex w r false b == 0x66) ≡ false
unfolding rex
not_prefix true true true = refl
not_prefix true true false = refl
not_prefix true false true = refl
not_prefix true false false = refl
not_prefix false true true = refl
not_prefix false true false = refl
not_prefix false false true = refl
not_prefix false false false = refl

module _ (rt base : ℕ) (disp : ℤ) (low_rt : rt < 16) (low_base : base < 16) where
  accessed :
      (size : Size) (load w : Bool)
      → decode_mem load size
          (record { w = w; r = leb 8 rt; x = false; b = leb 8 base })
          (emit_mem_operand rt base disp)
        ≡ some (access load size w rt base disp low_rt low_base)
  unfolding operand_rex
  accessed size load w = decode_mem-emit load size w rt base disp low_rt low_base

  -- The bytes of a store or load of any size, between general-purpose registers with these numbers
  -- and memory at a displacement from any of them, rsp and r12 too, are read back by the processor
  -- as that access.
  pub decode_access-emitted :
      (load : Bool) (size : Size)
      → decode_access (emitted load size rt base disp)
        ≡ some
            (record { is_load = load; size = size; reg = rt; base = base; disp = to_bits 32 disp })
  unfolding decode_access decode_opcode decode_extended emit_load emit_store
  decode_access-emitted true Size.quad =
      rw
        (not_prefix true (leb 8 rt) (leb 8 base), decode_rex-rex true (leb 8 rt) false (leb 8 base))
        (accessed Size.quad true true)
  decode_access-emitted true Size.long =
      rw
        (
          not_prefix false (leb 8 rt) (leb 8 base),
          decode_rex-rex false (leb 8 rt) false (leb 8 base),
        )
        (accessed Size.long true false)
  decode_access-emitted true Size.word =
      rw
        (not_prefix true (leb 8 rt) (leb 8 base), decode_rex-rex true (leb 8 rt) false (leb 8 base))
        (accessed Size.word true true)
  decode_access-emitted true Size.byte =
      rw
        (not_prefix true (leb 8 rt) (leb 8 base), decode_rex-rex true (leb 8 rt) false (leb 8 base))
        (accessed Size.byte true true)
  decode_access-emitted false Size.quad =
      rw
        (not_prefix true (leb 8 rt) (leb 8 base), decode_rex-rex true (leb 8 rt) false (leb 8 base))
        (accessed Size.quad false true)
  decode_access-emitted false Size.long =
      rw
        (
          not_prefix false (leb 8 rt) (leb 8 base),
          decode_rex-rex false (leb 8 rt) false (leb 8 base),
        )
        (accessed Size.long false false)
  decode_access-emitted false Size.word =
      rw (decode_rex-rex false (leb 8 rt) false (leb 8 base)) (accessed Size.word false false)
  decode_access-emitted false Size.byte =
      rw
        (
          not_prefix false (leb 8 rt) (leb 8 base),
          decode_rex-rex false (leb 8 rt) false (leb 8 base),
        )
        (accessed Size.byte false false)
