-- ===== src/X86/Branch.antt =====
-- crates/pliron-ll/src/x86_64/encoding.rs: the processor on the bytes of a branch or a call, by
-- the architecture's definition.
pub mod Displacement
pub mod Jump
use crabbit.Prelude.{ℕ, ◌+◌, ◌-◌, ◌*◌, ◌/◌, ◌%◌, ◌^◌, bit_and, leb, if◌then◌else◌}
use crabbit.Prelude.{Bool, true, false, ◌&&◌, ◌||◌, ◌==◌, Option, some, none, List, [], ◌∷◌}
use crabbit.X86.Condition.Flags.{Flags, nibble_holds}
use crabbit.X86.Machine.{Registers, Rex, decode_rex, extended, negative}

-- The little-endian word, and the place it leads to from the end of the instruction when it is
-- read as a signed displacement.
abbrev pub word_of : ℕ → ℕ → ℕ → ℕ → ℕ
word_of b0 b1 b2 b3 = b0 + b1 * 2 ^ 8 + b2 * 2 ^ 16 + b3 * 2 ^ 24

abbrev pub sign_extended : ℕ → ℕ
sign_extended w = if leb (2 ^ 31) w then w + (2 ^ 64 - 2 ^ 32) else w

abbrev pub displaced : ℕ → ℕ → ℕ
displaced end w = (end + sign_extended w) % 2 ^ 64

-- The flags that `test` leaves.
abbrev parity : ℕ → Bool
parity v =
    (v % 2 + v / 2 % 2 + v / 4 % 2 + v / 8 % 2 + v / 16 % 2 + v / 32 % 2 + v / 64 % 2 + v / 128 % 2)
      % 2
    == 0

abbrev pub test_flags : ℕ → Flags
test_flags v = record { of = false; cf = false; zf = v == 0; sf = negative v; pf = parity v }

-- `0f 8x`: the place after it, or the other one on the flags on which the code holds.
unfoldable pub run_jcc : Flags → List ℕ → ℕ → Option ℕ
run_jcc f (o ∷ b0 ∷ b1 ∷ b2 ∷ b3 ∷ []) pc =
    if o / 16 == 8
    then some (if nibble_holds (o % 16) f then displaced (pc + 6) (word_of b0 b1 b2 b3) else pc + 6)
    else none
run_jcc f _ pc = none

unfoldable pub run_test : Registers → Rex → List ℕ → ℕ → Option ℕ
run_test s x (o ∷ m ∷ o2 ∷ rest) pc =
    if x.w && o == 0x85 && m / 64 == 3 && o2 == 0x0f
    then run_jcc (test_flags (bit_and (s (extended x.b (m % 8))) (s (extended x.r (m / 8 % 8)))))
        rest (pc + 3)
    else none
run_test s x _ pc = none

-- Where the processor goes on from the bytes at a place.
unfoldable pub run_branch : Flags → Registers → List ℕ → ℕ → Option ℕ
run_branch f s (o ∷ rest) pc =
    if o == 0x0f
    then run_jcc f rest pc
    else if o == 0xe9 || o == 0xe8
    then run_jmp rest
    else elim (decode_rex o) [ none ↦ none | some x ↦ run_test s x rest pc ]
  where
    run_jmp : List ℕ → Option ℕ
    run_jmp (b0 ∷ b1 ∷ b2 ∷ b3 ∷ []) = some (displaced (pc + 5) (word_of b0 b1 b2 b3))
    run_jmp _ = none
run_branch f s [] pc = none
