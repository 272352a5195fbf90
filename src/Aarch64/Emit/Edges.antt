-- ===== src/Aarch64/Emit/Edges.antt =====
-- crates/pliron-ll/src/aarch64/encoding.rs, `encode_branch` with `byte_len`: a branch that the
-- layout has counted goes to its taken or its other block.
use native.Mathlib.Nat.{add-zero}
use crabbit.Prelude.{ℕ, ◌+◌, ◌*◌, ◌%◌, ◌^◌, ◌≤◌, ◌<◌, ◌≡◌, refl, ◌∙◌, sym, ap, arith}
use crabbit.Prelude.{inl, inr, Bool, true, false, not, ==_iff, if◌then◌else◌, Bool-cases}
use crabbit.Prelude.{Option, some, none, List, [], ◌∷◌, length}
use crabbit.Prelude.Result.{ok}
use crabbit.Aarch64.Registers.{number, xreg}
use crabbit.Aarch64.Condition.{ConditionCode, invert}
use crabbit.Aarch64.Condition.Flags.{Flags, holds, invert-holds}
use crabbit.Aarch64.Inst.{Inst, Block, BinaryEncoding}
use crabbit.Aarch64.Opcode.{Aarch64Opcode, discriminant}
use crabbit.Aarch64.Branch.{
  BranchWord, is_next, b_words, b_cond_words, cbnz_words, branch_words, encode_branch,
}
use crabbit.Aarch64.Branch.Machine.{run}
use crabbit.Aarch64.Branch.Reach.{StandsAt, Goes, Goes-nowhere, Goes-b, Goes-b_cond, Goes-cbnz}
use crabbit.Aarch64.Emit.{byte_len}

is_next-some : (block : Block) (next : Option Block) → is_next block next ≡ true → next ≡ some block
is_next-some block none e = cc
is_next-some block (some n) e = ap some (sym ((==_iff block n).0 e))

-- The block that follows in the layout stands where the branch ends.
abbrev pub FollowsAt : (Block → Option ℕ) → Inst → ℕ → Type 0
FollowsAt offsets inst end = (next : Block) → inst.next_block ≡ some next → offsets next ≡ some end

-- The branch is encoded, and its bytes end at a place.
abbrev pub Lands : Flags → (ℕ → Bool) → (Block → Option ℕ) → Inst → Aarch64Opcode → ℕ → ℕ → Type 0
Lands f nonzero offsets inst opcode pc to =
    (e : BinaryEncoding) × (encode_branch offsets inst opcode pc ≡ ok e)
    × (run f nonzero e.bytes pc ≡ some to)

choose_other :
    (t : Bool) (x y : ℕ) (n : Option ℕ)
    → n ≡ some y
    → (if t then some x else n) ≡ some (if t then x else y)
choose_other true x y n e = refl
choose_other false x y n e = e

choose_inverted :
    (t u : Bool) (x y : ℕ) (n : Option ℕ)
    → u ≡ not t
    → n ≡ some x
    → (if u then some y else n) ≡ some (if t then x else y)
choose_inverted true u x y n inverse e = rw inverse e
choose_inverted false u x y n inverse e = rw inverse refl

module _ (f : Flags) (nonzero : ℕ → Bool) (offsets : Block → Option ℕ) (inst : Inst) (pc : ℕ) where
  lands :
      (opcode : Aarch64Opcode) (words : List BranchWord) (to : ℕ) (reached : Option ℕ)
      → branch_words inst opcode ≡ some words
      → Goes f nonzero offsets inst words pc reached
      → reached ≡ some to
      → Lands f nonzero offsets inst opcode pc to
  unfolding encode_branch
  lands opcode words to reached e (bytes, e_bytes, e_run) e_to =
      (record { bytes = bytes; fixups = [] }, rw (e, e_bytes) refl, e_run ∙ e_to)

  counted :
      (opcode : Aarch64Opcode) (words : List BranchWord) (block : Block)
      → branch_words inst opcode ≡ some words
      → FollowsAt offsets inst (pc + byte_len inst opcode)
      → is_next block inst.next_block ≡ true
      → offsets block ≡ some (pc + 4 * length words)
  unfolding byte_len
  counted opcode words block e follows next =
      rw e at (follows block (is_next-some block inst.next_block next))

  same_place :
      (x y : ℕ) (block : Block) → offsets block ≡ some x → offsets block ≡ some y → some y ≡ some x
  same_place x y block ex ey = sym ey ∙ ex

  -- The word after a conditional one goes to the other block.
  Goes-second :
      (other : Block) (to : ℕ)
      → pc % 4 ≡ 0
      → StandsAt offsets other pc to
      → Goes f nonzero offsets inst (BranchWord.b other ∷ []) (pc + 4) (some to)
  Goes-second other to e_pc at =
      Goes-b f nonzero offsets inst other (pc + 4) to [] (some (pc + 4 + 4)) (omega (arith, e_pc))
        at.found at.aligned (omega (arith, at.above)) (omega (arith, at.below))
        (Goes-nowhere f nonzero offsets inst (pc + 4 + 4))

  words_of_b_cond :
      (cond : ConditionCode) (taken other : Block)
      → inst.successors ≡ taken ∷ other ∷ []
      → inst.cond ≡ some cond
      → branch_words inst Aarch64Opcode.b_cond
        ≡ some (b_cond_words cond taken other inst.next_block)
  unfolding branch_words discriminant
  words_of_b_cond cond taken other e_succ e_cond = rw (e_succ, e_cond) refl

  -- A conditional branch between two word-aligned blocks within 1 MiB is encoded, and its bytes go to the
  -- taken block on the flags on which the condition holds and to the other one on the rest,
  -- whichever block follows it, if that block stands where `byte_len` says the branch ends.
  pub b_cond-Lands :
      (cond : ConditionCode) (taken other : Block) (to_taken to_other : ℕ)
      → inst.successors ≡ taken ∷ other ∷ []
      → inst.cond ≡ some cond
      → pc % 4 ≡ 0
      → StandsAt offsets taken pc to_taken
      → StandsAt offsets other pc to_other
      → FollowsAt offsets inst (pc + byte_len inst Aarch64Opcode.b_cond)
      → Lands f nonzero offsets inst Aarch64Opcode.b_cond pc
          (if holds cond f then to_taken else to_other)
  unfolding b_cond_words
  b_cond-Lands cond taken other to_taken to_other e_succ e_cond e_pc at_taken at_other follows =
      let e = words_of_b_cond cond taken other e_succ e_cond in
      elim (Bool-cases (is_next other inst.next_block)) [
        | inl o ↦
            let e1 = rw o at e in
            let place = same_place _ _ other (counted _ _ other e1 follows o) at_other.found in
            lands _ _ _ _ e1
              (Goes-b_cond f nonzero offsets inst cond taken pc to_taken [] (some (pc + 4)) e_pc
                at_taken (Goes-nowhere f nonzero offsets inst (pc + 4)))
              (choose_other (holds cond f) to_taken to_other _ (sym place))
        | inr o ↦ elim (Bool-cases (is_next taken inst.next_block)) [
          | inl t ↦
              let e1 = rw (o, t) at e in
              let place = same_place _ _ taken (counted _ _ taken e1 follows t) at_taken.found in
              lands _ _ _ _ e1
                (Goes-b_cond f nonzero offsets inst (invert cond) other pc to_other []
                  (some (pc + 4)) e_pc at_other (Goes-nowhere f nonzero offsets inst (pc + 4)))
                (choose_inverted (holds cond f) (holds (invert cond) f) to_taken to_other _
                  (invert-holds cond f) (sym place))
          | inr t ↦
              let e1 = rw (o, t) at e in
              lands _ _ _ _ e1
                (Goes-b_cond f nonzero offsets inst cond taken pc to_taken _ (some to_other) e_pc
                  at_taken (Goes-second other to_other e_pc at_other))
                (choose_other (holds cond f) to_taken to_other _ refl)
        ]
      ]

  words_of_cbnz :
      (taken other : Block)
      → inst.successors ≡ taken ∷ other ∷ []
      → branch_words inst Aarch64Opcode.cbnz ≡ some (cbnz_words taken other inst.next_block)
  unfolding branch_words discriminant
  words_of_cbnz taken other e_succ = rw e_succ refl

  -- A `cbnz` between two word-aligned blocks within 1 MiB is encoded, and its bytes go to the taken block if
  -- its register is not zero and to the other one if it is, whichever block follows it, if that
  -- block stands where `byte_len` says the branch ends.
  pub cbnz-Lands :
      (rn : ℕ) (taken other : Block) (to_taken to_other : ℕ)
      → inst.successors ≡ taken ∷ other ∷ []
      → number xreg inst.rn ≡ ok rn
      → rn < 2 ^ 5
      → pc % 4 ≡ 0
      → StandsAt offsets taken pc to_taken
      → StandsAt offsets other pc to_other
      → FollowsAt offsets inst (pc + byte_len inst Aarch64Opcode.cbnz)
      → Lands f nonzero offsets inst Aarch64Opcode.cbnz pc
          (if nonzero rn then to_taken else to_other)
  unfolding cbnz_words
  cbnz-Lands rn taken other to_taken to_other e_succ e_rn low e_pc at_taken at_other follows =
      let e = words_of_cbnz taken other e_succ in
      elim (Bool-cases (is_next other inst.next_block)) [
        | inl o ↦
            let e1 = rw o at e in
            let place = same_place _ _ other (counted _ _ other e1 follows o) at_other.found in
            lands _ _ _ _ e1
              (Goes-cbnz f nonzero offsets inst rn taken pc to_taken [] (some (pc + 4)) e_rn low
                e_pc at_taken (Goes-nowhere f nonzero offsets inst (pc + 4)))
              (choose_other (nonzero rn) to_taken to_other _ (sym place))
        | inr o ↦
            let e1 = rw o at e in
            lands _ _ _ _ e1
              (Goes-cbnz f nonzero offsets inst rn taken pc to_taken _ (some to_other) e_rn low e_pc
                at_taken (Goes-second other to_other e_pc at_other))
              (choose_other (nonzero rn) to_taken to_other _ refl)
      ]

  words_of_b :
      (taken : Block) (rest : List Block)
      → inst.successors ≡ taken ∷ rest
      → branch_words inst Aarch64Opcode.b ≡ some (b_words taken inst.next_block)
  unfolding branch_words discriminant
  words_of_b taken rest e_succ = rw e_succ refl

  -- A `b` to a word-aligned block within 128 MiB is encoded, to no bytes if that block is the next one, and
  -- goes there, if a block that follows it stands where `byte_len` says the branch ends.
  pub b-Lands :
      (taken : Block) (rest : List Block) (to : ℕ)
      → inst.successors ≡ taken ∷ rest
      → pc % 4 ≡ 0
      → offsets taken ≡ some to
      → to % 4 ≡ 0
      → to < pc + 2 ^ 27
      → pc ≤ to + 2 ^ 27
      → FollowsAt offsets inst (pc + byte_len inst Aarch64Opcode.b)
      → Lands f nonzero offsets inst Aarch64Opcode.b pc to
  unfolding b_words
  b-Lands taken rest to e_succ e_pc e_to aligned above below follows =
      let e = words_of_b taken rest e_succ in
      elim (Bool-cases (is_next taken inst.next_block)) [
        | inl t ↦
            let e1 = rw t at e in
            let place = same_place _ _ taken (counted _ _ taken e1 follows t) e_to in
            lands _ _ _ _ e1 (Goes-nowhere f nonzero offsets inst pc)
              (ap some (sym (add-zero pc)) ∙ sym place)
        | inr t ↦
            let e1 = rw t at e in
            lands _ _ _ _ e1
              (Goes-b f nonzero offsets inst taken pc to [] (some (pc + 4)) e_pc e_to aligned above
                below (Goes-nowhere f nonzero offsets inst (pc + 4)))
              refl
      ]
