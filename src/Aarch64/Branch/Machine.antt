-- ===== src/Aarch64/Branch/Machine.antt =====
-- crates/pliron-ll/src/aarch64/encoding.rs, `encode_branch`: a processor that runs
-- the bytes of a branch, by the architecture's definition.
use crabbit.Prelude.{ℕ, ◌+◌, ◌*◌, ◌/◌, ◌%◌, ◌^◌, ◌<◌, ◌≡◌, refl, ap, arith}
use crabbit.Prelude.{Bool, ◌&&◌, ◌==◌, if◌then◌else◌}
use crabbit.Prelude.{Option, some, none, List, [], ◌∷◌, ◌++◌}
use crabbit.Prelude.Words.{to_le_bytes}
use crabbit.Aarch64.Condition.Flags.{Flags, field_holds}
use crabbit.Aarch64.Branch.Words.{jump}

abbrev pub word_of : ℕ → ℕ → ℕ → ℕ → ℕ
word_of b0 b1 b2 b3 = b0 + b1 * 2 ^ 8 + b2 * 2 ^ 16 + b3 * 2 ^ 24

-- One word of the machine: the place that it goes to, or on to the rest.
unfoldable pub step : Flags → (ℕ → Bool) → ℕ → ℕ → Option ℕ → Option ℕ
step f nonzero w pc rest =
    if w / 2 ^ 26 == 5
    then some (jump 26 (w % 2 ^ 26) pc)
    else if w / 2 ^ 24 == 0x54 && w / 2 ^ 4 % 2 == 0
    then if field_holds (w % 2 ^ 4) f then some (jump 19 (w / 2 ^ 5 % 2 ^ 19) pc) else rest
    else if w / 2 ^ 24 == 0xb5
    then if nonzero (w % 2 ^ 5) then some (jump 19 (w / 2 ^ 5 % 2 ^ 19) pc) else rest
    else none

-- The architecture's `B`, `B.cond` and `CBNZ` on bytes at a place; past the last one the place
-- itself is reached, and no other instruction is run.
unfoldable pub run : Flags → (ℕ → Bool) → List ℕ → ℕ → Option ℕ
run f nonzero [] pc = some pc
run f nonzero (b0 ∷ b1 ∷ b2 ∷ b3 ∷ rest) pc =
    step f nonzero (word_of b0 b1 b2 b3) pc (run f nonzero rest (pc + 4))
run f nonzero _ pc = none

bytes_word :
    (w : ℕ)
    → w < 2 ^ 32
    → word_of (w % 2 ^ 8) (w / 2 ^ 8 % 2 ^ 8) (w / 2 ^ 16 % 2 ^ 8) (w / 2 ^ 24 % 2 ^ 8) ≡ w
bytes_word w h = omega arith

module _ (f : Flags) (nonzero : ℕ → Bool) where
  pub run-word :
      (w pc : ℕ) (rest : List ℕ)
      → w < 2 ^ 32
      → run f nonzero (to_le_bytes w ++ rest) pc ≡ step f nonzero w pc (run f nonzero rest (pc + 4))
  unfolding run
  run-word w pc rest h =
      ap (λ (t : ℕ). step f nonzero t pc (run f nonzero rest (pc + 4))) (bytes_word w h)

  pub step-b :
      (field pc : ℕ) (rest : Option ℕ)
      → field < 2 ^ 26
      → step f nonzero (5 * 2 ^ 26 + field) pc rest ≡ some (jump 26 field pc)
  unfolding step
  step-b field pc rest h =
      let op : (5 * 2 ^ 26 + field) / 2 ^ 26 ≡ 5 = omega arith in
      let low : (5 * 2 ^ 26 + field) % 2 ^ 26 ≡ field = omega arith in rw (op, low) refl

  pub step-b_cond :
      (field cond pc : ℕ) (rest : Option ℕ)
      → field < 2 ^ 19
      → cond < 2 ^ 4
      → step f nonzero (0x54 * 2 ^ 24 + field * 2 ^ 5 + cond) pc rest
        ≡ (if field_holds cond f then some (jump 19 field pc) else rest)
  unfolding step
  step-b_cond field cond pc rest h hc =
      let w = 0x54 * 2 ^ 24 + field * 2 ^ 5 + cond in
      let not_b : w / 2 ^ 26 ≡ 21 = omega arith in
      let op : w / 2 ^ 24 ≡ 0x54 = omega arith in
      let gap : w / 2 ^ 4 % 2 ≡ 0 = omega arith in
      let low : w % 2 ^ 4 ≡ cond = omega arith in
      let mid : w / 2 ^ 5 % 2 ^ 19 ≡ field = omega arith in rw (not_b, op, gap, low, mid) refl

  pub step-cbnz :
      (field rn pc : ℕ) (rest : Option ℕ)
      → field < 2 ^ 19
      → rn < 2 ^ 5
      → step f nonzero (0xb5 * 2 ^ 24 + field * 2 ^ 5 + rn) pc rest
        ≡ (if nonzero rn then some (jump 19 field pc) else rest)
  unfolding step
  step-cbnz field rn pc rest h hn =
      let w = 0xb5 * 2 ^ 24 + field * 2 ^ 5 + rn in
      let not_b : w / 2 ^ 26 ≡ 45 = omega arith in
      let op : w / 2 ^ 24 ≡ 0xb5 = omega arith in
      let low : w % 2 ^ 5 ≡ rn = omega arith in
      let mid : w / 2 ^ 5 % 2 ^ 19 ≡ field = omega arith in rw (not_b, op, low, mid) refl
