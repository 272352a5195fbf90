-- ===== src/X86/Branch/Displacement.antt =====
-- crates/pliron-ll/src/x86_64/encoding.rs, `rel32`: the displacement leads to the target, and is
-- refused exactly when it does not fit.
use crabbit.Prelude.{ℕ, ◌+◌, ◌/◌, ◌%◌, ◌^◌, ◌≤◌, ◌<◌, ◌≡◌, ◌∙◌, ap, arith, leb}
use crabbit.Prelude.{true, false, inl, inr, ◌⊎◌, ◌↔◌, Bool-cases, not_leb→lt, leb→le}
use crabbit.Prelude.Int.{sub_ℕ, to_bits, in_range}
use crabbit.X86.Branch.{word_of, displaced}

-- The target is at most 2 ^ 31 before the end of the instruction, and less than that after it.
pub record InReach (to end : ℕ) : Type 0 where
  pub forward : to < end + 2 ^ 31
  pub backward : end ≤ to + 2 ^ 31
  pub place : end < 2 ^ 63

abbrev pub bytes_word : ℕ → ℕ
bytes_word w = word_of (w % 2 ^ 8) (w / 2 ^ 8 % 2 ^ 8) (w / 2 ^ 16 % 2 ^ 8) (w / 2 ^ 24 % 2 ^ 8)

bytes_word-id : (w : ℕ) → w < 2 ^ 32 → bytes_word w ≡ w
bytes_word-id w h = omega arith

pub in_range-InReach : (to end : ℕ) → InReach to end → in_range 31 (sub_ℕ to end) ≡ true
in_range-InReach to end h = elim (Bool-cases (leb end to)) [
  | inl after ↦ rw after (ground (arith, h.forward, leb→le end to after))
  | inr before ↦ rw before (ground (arith, h.backward, not_leb→lt end to before))
]

pub displacement-lt : (to end : ℕ) → to_bits 32 (sub_ℕ to end) < 2 ^ 32
displacement-lt to end = elim (Bool-cases (leb end to)) [
  | inl after ↦ rw after (omega arith)
  | inr before ↦ rw before (omega arith)
]

pub displaced-displacement :
    (to end : ℕ) → InReach to end → displaced end (to_bits 32 (sub_ℕ to end)) ≡ to
displaced-displacement to end h = elim (Bool-cases (leb end to)) [
  | inl after ↦ rw after (ground (arith, h.forward, h.place, leb→le end to after))
  | inr before ↦ rw before (ground (arith, h.backward, h.place, not_leb→lt end to before))
]

-- The displacement is read back from its bytes.
pub displaced_bytes :
    (to end : ℕ) → InReach to end → displaced end (bytes_word (to_bits 32 (sub_ℕ to end))) ≡ to
displaced_bytes to end h =
    ap (displaced end) (bytes_word-id (to_bits 32 (sub_ℕ to end)) (displacement-lt to end))
    ∙ displaced-displacement to end h

abbrev pub OutOfReach : ℕ → ℕ → Type 0
OutOfReach to end = (to + 2 ^ 31 < end) ⊎ (end + 2 ^ 31 ≤ to)

pub in_range-OutOfReach : (to end : ℕ) → (in_range 31 (sub_ℕ to end) ≡ false) ↔ OutOfReach to end
in_range-OutOfReach to end = elim (Bool-cases (leb end to)) [
  | inl after ↦ rw after (ground (arith, leb→le end to after))
  | inr before ↦ rw before (ground (arith, not_leb→lt end to before))
]
