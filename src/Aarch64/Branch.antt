-- ===== src/Aarch64/Branch.antt =====
-- crates/pliron-ll/src/aarch64/encoding.rs: the words of a branch, which depend on the block that
-- follows it (`branch_words`), and their pc-relative encodings (`encode_branch`).
-- An offset is below 2 ^ 63, so that it is itself as an i64.
pub mod Words
pub mod Machine
pub mod Reach
use crabbit.Prelude.{ℕ, Option, none, some, Bool, false, ◌||◌, ◌+◌, bit_and, ◌==◌, if◌then◌else◌}
use crabbit.Prelude.{List, [], ◌∷◌, ◌++◌}
use crabbit.Prelude.Int.{ℤ, sub_ℕ, div_trunc, in_range, to_bits}
use crabbit.Prelude.Result.{Result, Error, ok, guard, require, ◌>>=◌, ◌>>◌}
use crabbit.Prelude.Words.{◌∣◌, ◌<<◌, to_le_bytes}
use crabbit.Aarch64.Registers.{xreg, number}
use crabbit.Aarch64.Condition.{ConditionCode, encoding, invert}
use crabbit.Aarch64.Opcode.{Aarch64Opcode, opcode_eq}
use crabbit.Aarch64.Inst.{Inst, Block, target, not_taken, BinaryEncoding}

pub data BranchWord : Type 0 where
  b : Block → BranchWord
  b_cond : ConditionCode → Block → BranchWord
  cbnz : Block → BranchWord

-- Whether a block is the one that follows in the layout.
abbrev pub is_next : Block → Option Block → Bool
is_next block none = false
is_next block (some next) = block == next

unfoldable pub b_words : Block → Option Block → List BranchWord
b_words taken next = if is_next taken next then [] else BranchWord.b taken ∷ []

unfoldable pub cbnz_words : Block → Block → Option Block → List BranchWord
cbnz_words taken other next =
    if is_next other next
    then BranchWord.cbnz taken ∷ []
    else BranchWord.cbnz taken ∷ BranchWord.b other ∷ []

unfoldable pub b_cond_words : ConditionCode → Block → Block → Option Block → List BranchWord
b_cond_words cond taken other next =
    if is_next other next
    then BranchWord.b_cond cond taken ∷ []
    else if is_next taken next
    then BranchWord.b_cond (invert cond) other ∷ []
    else BranchWord.b_cond cond taken ∷ BranchWord.b other ∷ []

-- `Some(x)?`, and the last step of such a chain.
infixl 5 ◌>>?◌
abbrev ◌>>?◌ {ℓ κ} : {A : Type ℓ} {B : Type κ} → Option A → (A → Option B) → Option B
none >>? f = none
some x >>? f = f x

abbrev pub is_branch : Aarch64Opcode → Bool
is_branch opcode =
    opcode_eq opcode Aarch64Opcode.b
    || opcode_eq opcode Aarch64Opcode.b_cond
    || opcode_eq opcode Aarch64Opcode.cbnz

unfoldable pub branch_words : Inst → Aarch64Opcode → Option (List BranchWord)
branch_words inst opcode =
    if is_branch opcode
    then (target inst >>? λ taken.
        if opcode_eq opcode Aarch64Opcode.b
        then some (b_words taken inst.next_block)
        else not_taken inst >>? λ other.
            if opcode_eq opcode Aarch64Opcode.cbnz
            then some (cbnz_words taken other inst.next_block)
            else inst.cond >>? λ cond. some (b_cond_words cond taken other inst.next_block))
    else none

abbrev pub delta_words : ℕ → ℕ → ℤ
delta_words to pc = div_trunc (sub_ℕ to pc) 4

unfoldable pub encode_b : ℕ → ℕ → Result ℕ
encode_b to pc = do
  guard (in_range 25 (delta_words to pc)) Error.out_of_range
  ok (0x1400_0000 ∣ bit_and (to_bits 32 (delta_words to pc)) 0x03ff_ffff)

unfoldable pub encode_cbnz : ℕ → ℕ → ℕ → Result ℕ
encode_cbnz rn to pc = do
  guard (in_range 18 (delta_words to pc)) Error.out_of_range
  ok (0xb500_0000 ∣ bit_and (to_bits 32 (delta_words to pc)) 0x7ffff << 5 ∣ rn)

unfoldable pub encode_b_cond : ConditionCode → ℕ → ℕ → Result ℕ
encode_b_cond cond to pc = do
  guard (in_range 18 (delta_words to pc)) Error.out_of_range
  ok (0x5400_0000 ∣ bit_and (to_bits 32 (delta_words to pc)) 0x7ffff << 5 ∣ encoding cond)

abbrev pub block_offset : (Block → Option ℕ) → Block → Result ℕ
block_offset block_offsets block = require Error.outside_function (block_offsets block)

unfoldable pub encode_branch_word : (Block → Option ℕ) → Inst → BranchWord → ℕ → Result ℕ
encode_branch_word block_offsets inst (BranchWord.b block) pc = do
  to ← block_offset block_offsets block
  encode_b to pc
encode_branch_word block_offsets inst (BranchWord.b_cond cond block) pc = do
  to ← block_offset block_offsets block
  encode_b_cond cond to pc
encode_branch_word block_offsets inst (BranchWord.cbnz block) pc = do
  rn ← number xreg inst.rn
  to ← block_offset block_offsets block
  encode_cbnz rn to pc

-- The loop over the words, each at four bytes after the one before it.
unfoldable pub encode_branch_words :
    (Block → Option ℕ) → Inst → List BranchWord → ℕ → Result (List ℕ)
encode_branch_words block_offsets inst [] pc = ok []
encode_branch_words block_offsets inst (w ∷ words) pc = do
  word ← encode_branch_word block_offsets inst w pc
  bytes ← encode_branch_words block_offsets inst words (pc + 4)
  ok (to_le_bytes word ++ bytes)

unfoldable pub encode_branch : (Block → Option ℕ) → Inst → Aarch64Opcode → ℕ → Result BinaryEncoding
encode_branch block_offsets inst opcode pc = do
  words ← require Error.missing_operand (branch_words inst opcode)
  bytes ← encode_branch_words block_offsets inst words pc
  ok (record { bytes = bytes; fixups = [] })
