-- ===== src/Aarch64/Emit/Length.antt =====
-- crates/pliron-ll/src/aarch64/encoding.rs: `byte_len`, which the layout counts with, against the
-- bytes of `encode_inst`.
use Prim.Native.String.{String}
use crabbit.Prelude.{ℕ, ◌+◌, ◌*◌, ◌≡◌, refl, ◌∙◌, ap, arith}
use crabbit.Prelude.{inl, inr, Bool, true, false, ◌||◌, ◌==◌, ==_iff, if◌then◌else◌, Bool-cases}
use crabbit.Prelude.{Option, some, none, List, [], ◌∷◌, length}
use crabbit.Prelude.Int.{ℤ, sub_ℕ, in_range}
use crabbit.Prelude.Result.{
  Result, Error, ok, ◌>>=◌, require, unwrap, guard, Returns, Returns->>=, Returns-any, Returns-ok,
}
use crabbit.Aarch64.Registers.{number, xreg}
use crabbit.Aarch64.Inst.{
  Inst, Block, BinaryEncoding, BinarySerializationContext, FixupKind, BinaryFixup, word_encoding,
}
use crabbit.Aarch64.Opcode.{Aarch64Opcode, opcode_eq, discriminant}
use crabbit.Aarch64.Fixed.{encode_fixed_inst}
use crabbit.Aarch64.Branch.{
  BranchWord, branch_words, encode_branch, encode_branch_words, encode_branch_word, is_branch,
}
use crabbit.Aarch64.Address.{
  EncodedCall, encode_call, encode_adr_literal, encode_adr_function, encode_pc_relative_address,
  address_words,
}
use crabbit.Aarch64.Emit.{
  byte_len, encode_inst, call_encoding, encode_adrp, encode_add_fixup, byte_len_for, words_len,
}

abbrev Long : ℕ → Result BinaryEncoding → Type 0
Long n = Returns (λ e. length e.bytes ≡ n)

module _ {A : Type 0} (r : Result A) (k : A → Result BinaryEncoding) (n : ℕ) where
  Long-bind : ((a : A) → Long n (k a)) → Long n (r >>= k)
  Long-bind h = Returns->>= (λ a. Unit) (λ e. length e.bytes ≡ n) r k (Returns-any r) (λ a u. h a)

length-word : (w : ℕ) (fixup : Option BinaryFixup) → length (word_encoding w fixup).bytes ≡ 4
length-word w fixup = refl

length-branch_words :
    (offsets : Block → Option ℕ) (inst : Inst) (words : List BranchWord) (pc : ℕ)
    → Returns (λ bytes. length bytes ≡ 4 * length words) (encode_branch_words offsets inst words pc)
unfolding encode_branch_words
length-branch_words offsets inst [] pc = refl
length-branch_words offsets inst (w ∷ words) pc =
    Returns->>= (λ a. Unit) _ (encode_branch_word offsets inst w pc) _ (Returns-any _)
      (λ word u.
        Returns->>= (λ bytes. length bytes ≡ 4 * length words) _
          (encode_branch_words offsets inst words (pc + 4)) _
          (length-branch_words offsets inst words (pc + 4)) (λ bytes h. omega (arith, h)))

length-branch :
    (offsets : Block → Option ℕ) (inst : Inst) (opcode : Aarch64Opcode) (pc : ℕ)
    → Long (byte_len inst opcode) (encode_branch offsets inst opcode pc)
unfolding encode_branch byte_len
length-branch offsets inst opcode pc = go (branch_words inst opcode)
  where
    go :
        (words : Option (List BranchWord))
        → Long (words_len opcode words) (
            require Error.missing_operand words >>= λ ws.
            encode_branch_words offsets inst ws pc >>= λ bytes.
            ok (record { bytes = bytes; fixups = [] }))
    go none = tt
    go (some ws) =
        Returns->>= (λ bytes. length bytes ≡ 4 * length ws) _
          (encode_branch_words offsets inst ws pc) _ (length-branch_words offsets inst ws pc)
          (λ bytes h. h)

length-address : (rd : ℕ) (delta : ℤ) → Long 12 (encode_pc_relative_address rd delta)
unfolding encode_pc_relative_address address_words
length-address rd delta = Long-bind (guard (in_range 24 delta) Error.out_of_range) _ 12 (λ u. refl)

length-adr_literal :
    (offsets : String → Option ℕ) (inst : Inst) (pc : ℕ)
    → Long 12 (encode_adr_literal offsets inst pc)
unfolding encode_adr_literal
length-adr_literal offsets inst pc = Long-bind (unwrap inst.literal_label) _ 12 (λ label.
    Long-bind (require Error.unknown_label (offsets label)) _ 12
      (λ to. Long-bind (number xreg inst.rd) _ 12 (λ rd. length-address rd (sub_ℕ to pc))))

length-adr_function :
    (offsets : String → Option ℕ) (inst : Inst) (pc : ℕ)
    → Long 12 (encode_adr_function offsets inst pc)
unfolding encode_adr_function
length-adr_function offsets inst pc = Long-bind (unwrap inst.callee) _ 12 (λ label.
    Long-bind (require Error.unknown_label (offsets label)) _ 12
      (λ to. Long-bind (number xreg inst.rd) _ 12 (λ rd. length-address rd (sub_ℕ to pc))))

length-adrp : (inst : Inst) (pc : ℕ) → Long 4 (encode_adrp inst pc)
unfolding encode_adrp
length-adrp inst pc =
    Long-bind (number xreg inst.rd) _ 4 (λ rd. Long-bind (unwrap inst.callee) _ 4 (λ symbol. refl))

length-add_fixup :
    (base : ℕ) (kind : FixupKind) (inst : Inst) (pc : ℕ)
    → Long 4 (encode_add_fixup base kind inst pc)
unfolding encode_add_fixup
length-add_fixup base kind inst pc = Long-bind (number xreg inst.rd) _ 4 (λ rd.
    Long-bind (number xreg inst.rn) _ 4 (λ rn. Long-bind (unwrap inst.callee) _ 4 (λ symbol. refl)))

length-call : (pc : ℕ) (call : EncodedCall) → length (call_encoding pc call).bytes ≡ 4
unfolding call_encoding
length-call pc (EncodedCall.local word) = refl
length-call pc (EncodedCall.external symbol) = refl

module _ (inst : Inst) (opcode : Aarch64Opcode) where
  abbrev branch_number : ℕ → Bool
  branch_number n =
      n == discriminant Aarch64Opcode.b
      || n == discriminant Aarch64Opcode.b_cond
      || n == discriminant Aarch64Opcode.cbnz

  abbrev number_len : ℕ → ℕ
  number_len n =
      if n == discriminant Aarch64Opcode.adr_literal || n == discriminant Aarch64Opcode.adr_function
      then 12
      else 4

  len_of_other : is_branch opcode ≡ false → byte_len inst opcode ≡ byte_len_for opcode
  unfolding byte_len branch_words
  len_of_other other = rw other refl

  len_of_number :
      (n : ℕ)
      → discriminant opcode ≡ n
      → branch_number n ≡ false
      → byte_len inst opcode ≡ number_len n
  len_of_number n e other = len_of_other (ap branch_number e ∙ other) ∙ ap number_len e

  -- The length of an opcode that is known.
  len_of :
      (known : Aarch64Opcode)
      → opcode_eq opcode known ≡ true
      → branch_number (discriminant known) ≡ false
      → byte_len inst opcode ≡ number_len (discriminant known)
  len_of known e other =
      len_of_number (discriminant known) ((==_iff (discriminant opcode) (discriminant known)).0 e)
        other

  fixed_len :
      is_branch opcode ≡ false
      → opcode_eq opcode Aarch64Opcode.adr_literal ≡ false
      → opcode_eq opcode Aarch64Opcode.adr_function ≡ false
      → byte_len inst opcode ≡ 4
  fixed_len other literal function = len_of_other other ∙ (rw (literal, function) refl)

  encoded_length :
      (pc : ℕ) (refs : BinarySerializationContext)
      → Long (byte_len inst opcode) (encode_inst inst opcode pc refs)
  unfolding encode_inst discriminant
  encoded_length pc refs = elim (Bool-cases (opcode_eq opcode Aarch64Opcode.call)) [
    | inl h ↦
        rw (h, len_of Aarch64Opcode.call h refl)
          (Long-bind (encode_call refs.function_offsets inst pc) _ 4 (λ call. length-call pc call))
    | inr n0 ↦ elim (Bool-cases (opcode_eq opcode Aarch64Opcode.adr_literal)) [
      | inl h ↦
          rw (n0, h, len_of Aarch64Opcode.adr_literal h refl)
            (length-adr_literal refs.literal_offsets inst pc)
      | inr n1 ↦ elim (Bool-cases (opcode_eq opcode Aarch64Opcode.adr_function)) [
        | inl h ↦
            rw (n0, n1, h, len_of Aarch64Opcode.adr_function h refl)
              (length-adr_function refs.function_offsets inst pc)
        | inr n2 ↦ elim (Bool-cases (opcode_eq opcode Aarch64Opcode.adrp)) [
          | inl h ↦ rw (n0, n1, n2, h, len_of Aarch64Opcode.adrp h refl) (length-adrp inst pc)
          | inr n3 ↦ elim (Bool-cases (opcode_eq opcode Aarch64Opcode.add_lo12)) [
            | inl h ↦
                rw (n0, n1, n2, n3, h, len_of Aarch64Opcode.add_lo12 h refl)
                  (length-add_fixup 0x9100_0000 FixupKind.add_lo12 inst pc)
            | inr n4 ↦ elim (Bool-cases (opcode_eq opcode Aarch64Opcode.add_tprel_hi12)) [
              | inl h ↦
                  rw (n0, n1, n2, n3, n4, h, len_of Aarch64Opcode.add_tprel_hi12 h refl)
                    (length-add_fixup 0x9140_0000 FixupKind.tprel_hi12 inst pc)
              | inr n5 ↦ elim (Bool-cases (opcode_eq opcode Aarch64Opcode.add_tprel_lo12_nc)) [
                | inl h ↦
                    rw (n0, n1, n2, n3, n4, n5, h, len_of Aarch64Opcode.add_tprel_lo12_nc h refl)
                      (length-add_fixup 0x9100_0000 FixupKind.tprel_lo12_nc inst pc)
                | inr n6 ↦ elim (Bool-cases (is_branch opcode)) [
                  | inl h ↦
                      rw (n0, n1, n2, n3, n4, n5, n6, h)
                        (length-branch refs.block_offsets inst opcode pc)
                  | inr h ↦
                      rw (n0, n1, n2, n3, n4, n5, n6, h, fixed_len h n1 n2)
                        (Long-bind (encode_fixed_inst opcode inst) _ 4 (λ word. refl))
                ]
              ]
            ]
          ]
        ]
      ]
    ]
  ]

-- The bytes of an instruction that is encoded are as many as the layout has counted for it.
pub length-encode_inst :
    (inst : Inst) (opcode : Aarch64Opcode) (pc : ℕ) (refs : BinarySerializationContext)
    (e : BinaryEncoding)
    → encode_inst inst opcode pc refs ≡ ok e
    → length e.bytes ≡ byte_len inst opcode
length-encode_inst inst opcode pc refs e h =
    Returns-ok (λ e. length e.bytes ≡ byte_len inst opcode) (encode_inst inst opcode pc refs) e
      (encoded_length inst opcode pc refs) h
