-- ===== src/Aarch64/Branch/Reach.antt =====
-- crates/pliron-ll/src/aarch64/encoding.rs, `encode_branch`: the bytes of a branch go where the
-- operation's edges say, whichever block follows in the layout.
use crabbit.Prelude.{ℕ, ◌+◌, ◌*◌, ◌%◌, ◌^◌, ◌≤◌, ◌<◌, ◌≡◌, refl, ◌∙◌, sym, ap, arith}
use crabbit.Prelude.{Bool, if◌then◌else◌}
use crabbit.Prelude.{Option, some, List, [], ◌∷◌, ◌++◌}
use crabbit.Prelude.Result.{Result, ok}
use crabbit.Prelude.Words.{to_le_bytes}
use crabbit.Aarch64.Registers.{number, xreg}
use crabbit.Aarch64.Condition.{ConditionCode, encoding}
use crabbit.Aarch64.Condition.Flags.{encoding-lt, Flags, holds}
use crabbit.Aarch64.Inst.{Inst, Block}
use crabbit.Aarch64.Branch.{
  BranchWord, encode_b, encode_b_cond, encode_cbnz, encode_branch_word, encode_branch_words,
}
use crabbit.Aarch64.Branch.Words.{encode_b_ok, encode_b_cond_ok, encode_cbnz_ok}
use crabbit.Aarch64.Branch.Machine.{run, step, run-word, step-b, step-b_cond, step-cbnz}

-- A block stands at a word-aligned place, within 1 MiB of the branch at `pc`.
pub record StandsAt (offsets : Block → Option ℕ) (block : Block) (pc to : ℕ) : Type 0 where
  pub found : offsets block ≡ some to
  pub aligned : to % 4 ≡ 0
  pub above : to < pc + 2 ^ 20
  pub below : pc + 4 ≤ to + 2 ^ 20

module _ (f : Flags) (nonzero : ℕ → Bool) (offsets : Block → Option ℕ) (inst : Inst) where
  -- The bytes of the words are there, and end at a given place.
  abbrev pub Goes : List BranchWord → ℕ → Option ℕ → Type 0
  Goes words pc to =
      (bytes : List ℕ) × (encode_branch_words offsets inst words pc ≡ ok bytes)
      × (run f nonzero bytes pc ≡ to)

  pub Goes-nowhere : (pc : ℕ) → Goes [] pc (some pc)
  unfolding encode_branch_words run
  Goes-nowhere pc = ([], refl, refl)

  -- A word in front of others: `next` is where those end.
  Goes-on :
      (w : BranchWord) (words : List BranchWord) (pc word : ℕ) (next to : Option ℕ)
      → encode_branch_word offsets inst w pc ≡ ok word
      → word < 2 ^ 32
      → Goes words (pc + 4) next
      → step f nonzero word pc next ≡ to
      → Goes (w ∷ words) pc to
  unfolding encode_branch_words
  Goes-on w words pc word next to e lt (bytes, e_rest, e_run) s = (
    to_le_bytes word ++ bytes,
    rw (e, e_rest) refl,
    run-word f nonzero word pc bytes lt ∙ rw e_run s,
  )

  pub Goes-b :
      (block pc to : ℕ) (words : List BranchWord) (next : Option ℕ)
      → pc % 4 ≡ 0
      → offsets block ≡ some to
      → to % 4 ≡ 0
      → to < pc + 2 ^ 27
      → pc ≤ to + 2 ^ 27
      → Goes words (pc + 4) next
      → Goes (BranchWord.b block ∷ words) pc (some to)
  unfolding encode_branch_word
  Goes-b block pc to words next e_pc e_to a above below rest =
      let (field, fits, e, j) = encode_b_ok to pc (a ∙ sym e_pc) above below in
      Goes-on _ words pc (5 * 2 ^ 26 + field) next (some to) (found e) (omega arith) rest
        (step-b f nonzero field pc next fits ∙ ap some j)
    where
      found :
          {r : Result ℕ}
          → encode_b to pc ≡ r
          → encode_branch_word offsets inst (BranchWord.b block) pc ≡ r
      found e = rw e_to e

  pub Goes-b_cond :
      (cond : ConditionCode) (block pc to : ℕ) (words : List BranchWord) (next : Option ℕ)
      → pc % 4 ≡ 0
      → StandsAt offsets block pc to
      → Goes words (pc + 4) next
      → Goes (BranchWord.b_cond cond block ∷ words) pc (if holds cond f then some to else next)
  unfolding encode_branch_word
  Goes-b_cond cond block pc to words next e_pc at rest =
      let (field, fits, e, j) =
        encode_b_cond_ok cond to pc (at.aligned ∙ sym e_pc) at.above (omega (arith, at.below)) in
      Goes-on _ words pc (0x54 * 2 ^ 24 + field * 2 ^ 5 + encoding cond) next _ (found e)
        (omega (arith, encoding-lt cond)) rest
        (step-b_cond f nonzero field (encoding cond) pc next fits (encoding-lt cond)
          ∙ ap (λ (t : ℕ). if holds cond f then some t else next) j)
    where
      found :
          {r : Result ℕ}
          → encode_b_cond cond to pc ≡ r
          → encode_branch_word offsets inst (BranchWord.b_cond cond block) pc ≡ r
      found e = rw at.found e

  pub Goes-cbnz :
      (rn block pc to : ℕ) (words : List BranchWord) (next : Option ℕ)
      → number xreg inst.rn ≡ ok rn
      → rn < 2 ^ 5
      → pc % 4 ≡ 0
      → StandsAt offsets block pc to
      → Goes words (pc + 4) next
      → Goes (BranchWord.cbnz block ∷ words) pc (if nonzero rn then some to else next)
  unfolding encode_branch_word
  Goes-cbnz rn block pc to words next e_rn low e_pc at rest =
      let (field, fits, e, j) =
        encode_cbnz_ok rn to pc low (at.aligned ∙ sym e_pc) at.above (omega (arith, at.below)) in
      Goes-on _ words pc (0xb5 * 2 ^ 24 + field * 2 ^ 5 + rn) next _ (found e) (omega arith) rest (
        step-cbnz f nonzero field rn pc next fits low
        ∙ ap (λ (t : ℕ). if nonzero rn then some t else next) j)
    where
      found :
          {r : Result ℕ}
          → encode_cbnz rn to pc ≡ r
          → encode_branch_word offsets inst (BranchWord.cbnz block) pc ≡ r
      found e = rw (e_rn, at.found) e
