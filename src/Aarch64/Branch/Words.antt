-- ===== src/Aarch64/Branch/Words.antt =====
-- crates/pliron-ll/src/aarch64/encoding.rs: what the processor does with the words of `encode_b`,
-- `encode_b_cond` and `encode_cbnz`.
use native.Mathlib.Nat.{mod-lt}
use crabbit.Prelude.{ℕ, suc, ◌+◌, ◌-◌, ◌*◌, ◌/◌, ◌%◌, ◌^◌, ◌≤◌, ◌<◌, ◌≡◌, refl, ◌∙◌, ap, arith}
use crabbit.Prelude.{◌⊎◌, inl, inr, true, false, bit_and, bit_or, ltb, if◌then◌else◌}
use crabbit.Prelude.Bits.{bit_and_mask, bit_or-high}
use crabbit.Prelude.Int.{ℤ, pos, negsuc, neg_ℕ, sub_ℕ, div_trunc, in_range, to_bits}
use crabbit.Prelude.Result.{Error, ok, err}
use crabbit.Aarch64.Condition.{ConditionCode, encoding}
use crabbit.Aarch64.Condition.Flags.{encoding-lt}
use crabbit.Aarch64.Branch.{delta_words, encode_b, encode_b_cond, encode_cbnz}

-- Where a branch goes whose field of `k` bits counts words, as a signed number.
abbrev pub jump : ℕ → ℕ → ℕ → ℕ
jump k field pc = if ltb field (2 ^ (k - 1)) then pc + 4 * field else pc - 4 * (2 ^ k - field)

-- The distance in words, of two places that are both word-aligned.
delta_view :
    (to pc : ℕ)
    → to % 4 ≡ pc % 4
    → ((n : ℕ) × (delta_words to pc ≡ pos n) × (to ≡ pc + 4 * n))
      ⊎ ((n : ℕ) × (delta_words to pc ≡ negsuc n) × (pc ≡ to + 4 * suc n))
delta_view to pc aligned = elim (le_or_lt pc to) [
  | inl le ↦ inl (forward le)
  | inr lt ↦ inr (backward lt)
]
  where
    le_or_lt : (n m : ℕ) → (n ≤ m) ⊎ (m < n)
    le_or_lt n m = omega arith

    forward : pc ≤ to → (n : ℕ) × (delta_words to pc ≡ pos n) × (to ≡ pc + 4 * n)
    forward le = ((to - pc) / 4, ground arith, omega arith)

    quarter : (m n : ℕ) → m ≡ suc n → neg_ℕ m ≡ negsuc n
    quarter m n e = rw e refl

    away : (m : ℕ) → m ≡ pc - to - 1 → to < pc → div_trunc (negsuc m) 4 ≡ negsuc ((pc - to) / 4 - 1)
    away m e lt = quarter (suc m / 4) ((pc - to) / 4 - 1) (omega arith)

    sub_back : to < pc → sub_ℕ to pc ≡ negsuc (pc - to - 1)
    sub_back lt = ground arith

    backward : to < pc → (n : ℕ) × (delta_words to pc ≡ negsuc n) × (pc ≡ to + 4 * suc n)
    backward lt = (
      (pc - to) / 4 - 1,
      ap (λ (z : ℤ). div_trunc z 4) (sub_back lt) ∙ away (pc - to - 1) refl lt,
      omega arith,
    )

-- The field of 26 bits, within 128 MiB.
pub field_26 :
    (to pc : ℕ)
    → to % 4 ≡ pc % 4
    → to < pc + 2 ^ 27
    → pc ≤ to + 2 ^ 27
    → (in_range 25 (delta_words to pc) ≡ true)
      × (jump 26 (bit_and (to_bits 32 (delta_words to pc)) 0x03ff_ffff) pc ≡ to)
field_26 to pc aligned above below = elim (delta_view to pc aligned) [
  | inl (n, e, at) ↦ rw e (ground arith, ground (arith, bit_and_mask 26 (n % 2 ^ 32)))
  | inr (n, e, at) ↦ rw e (ground arith, ground (arith, bit_and_mask 26 (2 ^ 32 - 1 - n % 2 ^ 32)))
]

-- The field of 19 bits, within 1 MiB.
field_19 :
    (to pc : ℕ)
    → to % 4 ≡ pc % 4
    → to < pc + 2 ^ 20
    → pc ≤ to + 2 ^ 20
    → (in_range 18 (delta_words to pc) ≡ true)
      × (jump 19 (bit_and (to_bits 32 (delta_words to pc)) 0x7ffff) pc ≡ to)
field_19 to pc aligned above below = elim (delta_view to pc aligned) [
  | inl (n, e, at) ↦ rw e (ground arith, ground (arith, bit_and_mask 19 (n % 2 ^ 32)))
  | inr (n, e, at) ↦ rw e (ground arith, ground (arith, bit_and_mask 19 (2 ^ 32 - 1 - n % 2 ^ 32)))
]

-- Farther away there is no encoding.
pub far_25 :
    (to pc : ℕ)
    → to % 4 ≡ pc % 4
    → (pc + 2 ^ 27 ≤ to) ⊎ (to + 2 ^ 27 < pc)
    → in_range 25 (delta_words to pc) ≡ false
far_25 to pc aligned far = elim (delta_view to pc aligned) [
  | inl (n, e, at) ↦ rw e (ground arith)
  | inr (n, e, at) ↦ rw e (ground arith)
]

pub mask_lt : (k a : ℕ) → 0 < 2 ^ k → bit_and a (2 ^ k - 1) < 2 ^ k
mask_lt k a positive = rw (bit_and_mask k a) (mod-lt a positive)

-- The word of `b` is its opcode and the field.
pub encode_b_ok :
    (to pc : ℕ)
    → to % 4 ≡ pc % 4
    → to < pc + 2 ^ 27
    → pc ≤ to + 2 ^ 27
    → (field : ℕ) × (field < 2 ^ 26)
      × (encode_b to pc ≡ ok (5 * 2 ^ 26 + field))
      × (jump 26 field pc ≡ to)
unfolding encode_b
encode_b_ok to pc aligned above below =
    let f = field_26 to pc aligned above below in
    let fits = mask_lt 26 (to_bits 32 (delta_words to pc)) (omega arith) in
    (_, fits, rw f.0 (ap ok (bit_or-high 26 5 _ fits)), f.1)

word_19 :
    (op field low : ℕ)
    → field < 2 ^ 19
    → low < 2 ^ 5
    → bit_or (bit_or (op * 2 ^ 24) (field * 2 ^ 5)) low ≡ op * 2 ^ 24 + field * 2 ^ 5 + low
word_19 op field low hf hl =
    ap (λ (t : ℕ). bit_or t low) (bit_or-high 24 op (field * 2 ^ 5) (omega arith) ∙ omega arith)
    ∙ bit_or-high 5 (op * 2 ^ 19 + field) low hl
    ∙ omega arith

pub encode_b_cond_ok :
    (cond : ConditionCode) (to pc : ℕ)
    → to % 4 ≡ pc % 4
    → to < pc + 2 ^ 20
    → pc ≤ to + 2 ^ 20
    → (field : ℕ) × (field < 2 ^ 19)
      × (encode_b_cond cond to pc ≡ ok (0x54 * 2 ^ 24 + field * 2 ^ 5 + encoding cond))
      × (jump 19 field pc ≡ to)
unfolding encode_b_cond
encode_b_cond_ok cond to pc aligned above below =
    let f = field_19 to pc aligned above below in
    let fits = mask_lt 19 (to_bits 32 (delta_words to pc)) (omega arith) in
    (
      _,
      fits,
      rw f.0 (ap ok (word_19 0x54 _ (encoding cond) fits (omega (arith, encoding-lt cond)))),
      f.1,
    )

pub encode_cbnz_ok :
    (rn to pc : ℕ)
    → rn < 2 ^ 5
    → to % 4 ≡ pc % 4
    → to < pc + 2 ^ 20
    → pc ≤ to + 2 ^ 20
    → (field : ℕ) × (field < 2 ^ 19)
      × (encode_cbnz rn to pc ≡ ok (0xb5 * 2 ^ 24 + field * 2 ^ 5 + rn))
      × (jump 19 field pc ≡ to)
unfolding encode_cbnz
encode_cbnz_ok rn to pc low aligned above below =
    let f = field_19 to pc aligned above below in
    let fits = mask_lt 19 (to_bits 32 (delta_words to pc)) (omega arith) in
    (_, fits, rw f.0 (ap ok (word_19 0xb5 _ rn fits low)), f.1)

-- A branch to a place a whole number of words away, 128 MiB or more after its own place or more
-- than 128 MiB before it, is refused.
pub encode_b-far :
    (to pc : ℕ)
    → to % 4 ≡ pc % 4
    → (pc + 2 ^ 27 ≤ to) ⊎ (to + 2 ^ 27 < pc)
    → encode_b to pc ≡ err Error.out_of_range
unfolding encode_b
encode_b-far to pc aligned far = rw (far_25 to pc aligned far) refl
