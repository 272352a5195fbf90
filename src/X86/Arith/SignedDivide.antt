-- ===== src/X86/Arith/SignedDivide.antt =====
-- crates/pliron-ll/src/x86_64/encoding.rs: the expansion of the signed division.
use native.Mathlib.Nat.{div-le_self, div-le_of_le-mul}
use crabbit.Prelude.{ℕ, ◌+◌, ◌-◌, ◌*◌, ◌/◌, ◌%◌, ◌^◌, ◌≤◌, ◌<◌, ◌≡◌, refl, ◌∙◌, sym, ap, arith}
use crabbit.Prelude.{Bool, true, false, ◌==◌, ◌&&◌, ◌||◌, inl, inr, ltb, lt→ltb, ltb→lt, not_ltb→le}
use crabbit.Prelude.{Option, some, [], ◌∷◌, ◌++◌, if◌then◌else◌, Bool-cases}
use crabbit.X86.Opcode.{X86Opcode}
use crabbit.X86.Inst.{Inst, BinarySerializationContext}
use crabbit.X86.Bytes.{rax, rdx, emit_mov_rr, emit_ext}
use crabbit.X86.Encode.{encode_inst, emit_sdiv}
use crabbit.X86.Machine.{
  Registers, set, run, execute, unary_step, signed_divide, word_size, negative, magnitude,
  signed_word, differ,
}
use crabbit.X86.Machine.Execute.{set_other, run-mov, run-unary, run-cqo}
use crabbit.X86.Arith.{Operands, Runs, Words}
use crabbit.X86.Arith.Expand.{Free, check-Free, not_first, not_second, overwrite}

-- What `idiv` leaves: the quotient that is rounded towards zero in rax, and in rdx the remainder,
-- which has the dividend's sign.
abbrev pub signed_value : ℕ → ℕ → ℕ
signed_value a b =
    signed_word (differ (negative a) (negative b)) (magnitude word_size a / magnitude word_size b)

abbrev pub signed_remainder : ℕ → ℕ → ℕ
signed_remainder a b = signed_word (negative a) (magnitude word_size a % magnitude word_size b)

abbrev pub signed_divided : ℕ → ℕ → Registers → Registers
signed_divided a b s = set rdx (signed_remainder a b) (set rax (signed_value a b) s)

-- The one quotient that is not a word.
abbrev pub overflows : ℕ → ℕ → Bool
overflows a b = a == 2 ^ 63 && b == 2 ^ 64 - 1

abbrev fitting : Bool → ℕ → Bool
fitting sign q = ltb q (2 ^ 63) || (sign && q == 2 ^ 63)

fits_low : (sign : Bool) (q : ℕ) → q < 2 ^ 63 → fitting sign q ≡ true
fits_low sign q h = rw (lt→ltb q (2 ^ 63) h) refl

fits_least : (q : ℕ) → q ≡ 2 ^ 63 → fitting true q ≡ true
fits_least q h = rw h refl

module _ (a b : ℕ) (word_a : a < word_size) (word_b : b < word_size) (nonzero : 0 < b) where
  magnitude-least : 2 ^ 63 ≤ magnitude word_size a → a ≡ 2 ^ 63
  magnitude-least h = ground arith

  magnitude-one : overflows (2 ^ 63) b ≡ false → magnitude word_size b < 2 → b ≡ 1
  magnitude-one h small = ground arith

  magnitude-le : magnitude word_size a ≤ 2 ^ 63
  magnitude-le = ground arith

  quotient_fits :
      overflows a b ≡ false
      → fitting (differ (negative a) (negative b)) (magnitude word_size a / magnitude word_size b)
        ≡ true
  quotient_fits h = elim (Bool-cases (ltb (magnitude word_size a) (2 ^ 63))) [
    | inl low ↦
        let bound = div-le_self (magnitude word_size a) (magnitude word_size b) in
        fits_low (differ (negative a) (negative b)) (magnitude word_size a / magnitude word_size b)
          (omega (arith, bound, ltb→lt _ _ low))
    | inr high ↦
        let least = magnitude-least (not_ltb→le _ _ high) in
        elim (Bool-cases (ltb (magnitude word_size b) 2)) [
          | inl small ↦ rw (least, magnitude-one (rw least at h) (ltb→lt _ _ small)) refl
          | inr large ↦
              let room : magnitude word_size a ≤ magnitude word_size b * 2 ^ 62 =
                omega (arith, magnitude-le, not_ltb→le _ _ large) in
              fits_low (differ (negative a) (negative b))
                (magnitude word_size a / magnitude word_size b)
                (omega (arith, div-le_of_le-mul (magnitude word_size b) room))
        ]
  ]

  -- The dividend of 128 bits has the sign and the value of the word.
  extended-plus :
      negative a ≡ false
      → (negative 0 ≡ negative a)
        × (magnitude (2 ^ 128) (0 * word_size + a) ≡ magnitude word_size a)
  extended-plus h = (sym h, ground arith)

  extended-minus :
      negative a ≡ true
      → (negative (word_size - 1) ≡ negative a)
        × (magnitude (2 ^ 128) ((word_size - 1) * word_size + a) ≡ magnitude word_size a)
  extended-minus h = (sym h, ground arith)

  signed_divide-extended :
      (s : Registers) (high : ℕ)
      → overflows a b ≡ false
      → s rdx ≡ high
      → s rax ≡ a
      → (negative high ≡ negative a)
        × (magnitude (2 ^ 128) (high * word_size + a) ≡ magnitude word_size a)
      → signed_divide b s ≡ some (signed_divided a b s)
  unfolding signed_divide
  signed_divide-extended s high h e_high e_low (sign, size) =
      let no_zero : (b == 0) ≡ false = ground arith in
      rw (e_high, e_low, no_zero, size, sign, quotient_fits h) refl

  -- After `cqo`.
  signed_divide-cqo :
      (s : Registers)
      → overflows a b ≡ false
      → s rdx ≡ (if negative a then word_size - 1 else 0)
      → s rax ≡ a
      → signed_divide b s ≡ some (signed_divided a b s)
  signed_divide-cqo s h e_high e_low = elim (Bool-cases (negative a)) [
    | inl minus ↦
        signed_divide-extended s (word_size - 1) h (rw minus at e_high) e_low (extended-minus minus)
    | inr plus ↦ signed_divide-extended s 0 h (rw plus at e_high) e_low (extended-plus plus)
  ]

module _ (s : Registers) (rd rn rm : ℕ) (low_rd : rd < 16) (low_rn : rn < 16)
    (low_rm : rm < 16) where
  run-sdiv :
      (rm == rax) ≡ false
      → (rm == rdx) ≡ false
      → Words s
      → 0 < s rm
      → overflows (s rn) (s rm) ≡ false
      → execute
          (emit_mov_rr rax rn ++ (0x48 ∷ 0x99 ∷ []) ++ emit_ext 0xf7 7 rm ++ emit_mov_rr rd rax)
          s
        ≡ some (set rd (signed_value (s rn) (s rm)) (signed_divided (s rn) (s rm) s))
  unfolding run emit_mov_rr unary_step
  run-sdiv not_rax not_rdx words nonzero fits =
      let s1 = set rax (s rn) s in
      let high = if negative (s rn) then word_size - 1 else 0 in
      let s2 = set rdx high s1 in
      let same_rm : s2 rm ≡ s rm =
        set_other rdx rm high s1 not_rdx ∙ set_other rax rm (s rn) s not_rax in
      let t = signed_divided (s rn) (s rm) s2 in
      run-mov 10 (0x48 ∷ 0x99 ∷ emit_ext 0xf7 7 rm ++ emit_mov_rr rd rax) s rax rn (omega arith)
        low_rn
      ∙ run-cqo 9 (emit_ext 0xf7 7 rm ++ emit_mov_rr rd rax) s1
      ∙ run-unary 8 (emit_mov_rr rd rax) s2 7 rm t (omega arith) low_rm (
          rw same_rm
            (signed_divide-cqo (s rn) (s rm) (words rn) (words rm) nonzero s2 fits refl refl))
      ∙ run-mov 7 [] t rd rax low_rd (omega arith)
      ∙ ap (λ (u : Registers). some (set rd (signed_value (s rn) (s rm)) u))
          (overwrite (signed_value (s rn) (s rm)) (signed_remainder (s rn) (s rm)) (s rn) high s)

-- `sdiv` of general-purpose registers, none of which is rax or rdx, by a divisor that is not zero
-- and other than of the least word by -1, is encoded, and the processor runs the bytes to the
-- state in which the destination has the quotient of the two signed operands, rounded towards
-- zero, rax too, rdx the remainder, and every other register is as it was.
pub sdiv-Runs :
    (inst : Inst) (pc : ℕ) (refs : Option BinarySerializationContext) (rd rn rm : ℕ) (s : Registers)
    → Operands inst rd rn rm
    → Free (rax ∷ rdx ∷ []) rd rn rm
    → Words s
    → 0 < s rm
    → overflows (s rn) (s rm) ≡ false
    → Runs
        (encode_inst inst X86Opcode.sdiv pc refs)
        s
        (set rd (signed_value (s rn) (s rm)) (signed_divided (s rn) (s rm) s))
unfolding encode_inst emit_sdiv
sdiv-Runs inst pc refs rd rn rm s o free words nonzero fits = (
  record {
    bytes = emit_mov_rr rax rn ++ (0x48 ∷ 0x99 ∷ []) ++ emit_ext 0xf7 7 rm ++ emit_mov_rr rd rax;
    fixups = [];
  },
  rw (o.e_rd, o.e_rn, o.e_rm, check-Free (rax ∷ rdx ∷ []) rd rn rm free) refl,
  run-sdiv s rd rn rm o.low_rd o.low_rn o.low_rm (not_first rax rdx rm free.free_rm)
      (not_second rax rdx rm free.free_rm) words nonzero fits,
)
