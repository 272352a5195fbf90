-- ===== src/X86/Arith/Expand.antt =====
-- crates/pliron-ll/src/x86_64/encoding.rs, the expansions of the division, the widening multiplication
-- and the shifts, which write to fixed registers: `umulh`, and `check_expansion_operands`, which keeps operands out of them.
use crabbit.Prelude.{ℕ, ◌*◌, ◌/◌, ◌%◌, ◌<◌, ◌≡◌, refl, ◌∙◌, ap, arith}
use crabbit.Prelude.{Bool, true, false, inl, inr, ◌==◌, ◌||◌, Bool-cases}
use crabbit.Prelude.{◌↔◌, Option, some, List, [], ◌∷◌, ◌++◌}
use mathlib.Core.Path.{fun_ext}
use crabbit.Prelude.Result.{Error, ok, err}
use crabbit.X86.Opcode.{X86Opcode}
use crabbit.X86.Inst.{Inst, BinarySerializationContext}
use crabbit.X86.Bytes.{rax, rcx, rdx, emit_mov_rr, emit_ext, check_expansion_operands, contains}
use crabbit.X86.Encode.{encode_inst, emit_umulh, emit_sdiv, emit_udiv, emit_shift}
use crabbit.X86.Machine.{Registers, set, run, execute, unary_step, word_size}
use crabbit.X86.Machine.Execute.{set-set, set_other, run-mov, run-unary}
use crabbit.X86.Arith.{Operands, Runs}

-- No operand is in a reserved register.
pub record Free (reserved : List ℕ) (rd rn rm : ℕ) : Type 0 where
  pub free_rd : contains reserved rd ≡ false
  pub free_rn : contains reserved rn ≡ false
  pub free_rm : contains reserved rm ≡ false

pub check-Free :
    (reserved : List ℕ) (rd rn rm : ℕ)
    → Free reserved rd rn rm
    → check_expansion_operands (rd ∷ rn ∷ rm ∷ []) reserved ≡ ok tt
unfolding check_expansion_operands
check-Free reserved rd rn rm free = rw (free.free_rd, free.free_rn, free.free_rm) refl

check_clobbered :
    (reserved : List ℕ) (rd rn rm : ℕ)
    → (contains reserved rd || contains reserved rn || contains reserved rm) ≡ true
    → check_expansion_operands (rd ∷ rn ∷ rm ∷ []) reserved ≡ err Error.clobbered
unfolding check_expansion_operands
check_clobbered reserved rd rn rm h = ground arith

or_false : (a b : Bool) → (a || b) ≡ false → ((a ≡ false) × (b ≡ false))
or_false true b h = cc
or_false false true h = cc
or_false false false h = (refl, refl)

pub not_first : (a b r : ℕ) → contains (a ∷ b ∷ []) r ≡ false → (r == a) ≡ false
not_first a b r h = (or_false (r == a) _ h).0

pub not_second : (a b r : ℕ) → contains (a ∷ b ∷ []) r ≡ false → (r == b) ≡ false
not_second a b r h = (or_false (r == b) _ (or_false (r == a) _ h).1).0

pub not_only : (a r : ℕ) → contains (a ∷ []) r ≡ false → (r == a) ≡ false
not_only a r h = (or_false (r == a) _ h).0

pub flipped : (a b : ℕ) → (a == b) ≡ false → (b == a) ≡ false
flipped a b h = ground arith

pub set_swap :
    (r q v w : ℕ) (s : Registers) → (r == q) ≡ false → set r v (set q w s) ≡ set q w (set r v s)
set_swap r q v w s h = fun_ext (λ x. ground arith)

-- A division writes over what its expansion has put in rax and rdx.
pub overwrite :
    (q r v high : ℕ) (s : Registers)
    → set rdx r (set rax q (set rdx high (set rax v s))) ≡ set rdx r (set rax q s)
overwrite q r v high s =
    ap (set rdx r)
      (set_swap rax rdx q high (set rax v s) refl ∙ ap (set rdx high) (set-set rax q v s))
    ∙ set-set rdx r high (set rax q s)

abbrev pub high_half : ℕ → ℕ → ℕ
high_half a b = a * b / word_size

abbrev pub low_half : ℕ → ℕ → ℕ
low_half a b = a * b % word_size

module _ (s : Registers) (rd rn rm : ℕ) (low_rd : rd < 16) (low_rn : rn < 16)
    (low_rm : rm < 16) where
  run-umulh :
      (rm == rax) ≡ false
      → execute (emit_mov_rr rax rn ++ (emit_ext 0xf7 4 rm ++ emit_mov_rr rd rdx)) s
        ≡ some (
            set rd
              (high_half (s rn) (s rm))
              (set rdx (high_half (s rn) (s rm)) (set rax (low_half (s rn) (s rm)) s)))
  unfolding run emit_mov_rr unary_step
  run-umulh other =
      let s1 = set rax (s rn) s in
      let s2 = set rdx (high_half (s1 rax) (s1 rm)) (set rax (low_half (s1 rax) (s1 rm)) s1) in
      run-mov 8 (emit_ext 0xf7 4 rm ++ emit_mov_rr rd rdx) s rax rn (omega arith) low_rn
      ∙ run-unary 7 (emit_mov_rr rd rdx) s1 4 rm s2 (omega arith) low_rm refl
      ∙ run-mov 6 [] s2 rd rdx low_rd (omega arith)
      ∙ rw (set_other rax rm (s rn) s other, set-set rax (low_half (s rn) (s rm)) (s rn) s) refl

-- `umulh` of general-purpose registers, the second factor of which is none of rax and rdx, nor
-- is the first or the destination, is encoded, and the processor runs the bytes to the state in
-- which the destination has the high half of the product of the two operands, rdx too, rax the
-- low half, and every other register is as it was.
pub umulh-Runs :
    (inst : Inst) (pc : ℕ) (refs : Option BinarySerializationContext) (rd rn rm : ℕ) (s : Registers)
    → Operands inst rd rn rm
    → Free (rax ∷ rdx ∷ []) rd rn rm
    → Runs (encode_inst inst X86Opcode.umulh pc refs) s (
        set rd
          (high_half (s rn) (s rm))
          (set rdx (high_half (s rn) (s rm)) (set rax (low_half (s rn) (s rm)) s)))
unfolding encode_inst emit_umulh emit_mov_rr
umulh-Runs inst pc refs rd rn rm s o free = (
  record { bytes = emit_mov_rr rax rn ++ (emit_ext 0xf7 4 rm ++ emit_mov_rr rd rdx); fixups = [] },
  rw (o.e_rd, o.e_rn, o.e_rm, check-Free (rax ∷ rdx ∷ []) rd rn rm free) refl,
  run-umulh s rd rn rm o.low_rd o.low_rn o.low_rm (not_first rax rdx rm free.free_rm),
)

-- The opcodes whose expansion writes to fixed registers, and those registers.
pub data ExpandedOp : Type 0 where
  umulh sdiv udiv shl lsr : ExpandedOp

abbrev pub expanded_opcode : ExpandedOp → X86Opcode
expanded_opcode ExpandedOp.umulh = X86Opcode.umulh
expanded_opcode ExpandedOp.sdiv = X86Opcode.sdiv
expanded_opcode ExpandedOp.udiv = X86Opcode.udiv
expanded_opcode ExpandedOp.shl = X86Opcode.shl
expanded_opcode ExpandedOp.lsr = X86Opcode.lsr

abbrev pub written : ExpandedOp → List ℕ
written ExpandedOp.shl = rcx ∷ []
written ExpandedOp.lsr = rcx ∷ []
written _ = rax ∷ rdx ∷ []

abbrev pub IsClobbered : List ℕ → ℕ → ℕ → ℕ → Type 0
IsClobbered reserved rd rn rm =
    (contains reserved rd || contains reserved rn || contains reserved rm) ≡ true

module _ (inst : Inst) (pc : ℕ) (refs : Option BinarySerializationContext) (rd rn rm : ℕ) where
  abbrev Refused : ExpandedOp → Type 0
  Refused op = encode_inst inst (expanded_opcode op) pc refs ≡ err Error.clobbered

  checked :
      (op : ExpandedOp)
      → Operands inst rd rn rm
      → check_expansion_operands (rd ∷ rn ∷ rm ∷ []) (written op) ≡ err Error.clobbered
      → Refused op
  unfolding encode_inst emit_umulh emit_sdiv emit_udiv emit_shift
  checked ExpandedOp.umulh o e = rw (o.e_rd, o.e_rn, o.e_rm, e) refl
  checked ExpandedOp.sdiv o e = rw (o.e_rd, o.e_rn, o.e_rm, e) refl
  checked ExpandedOp.udiv o e = rw (o.e_rd, o.e_rn, o.e_rm, e) refl
  checked ExpandedOp.shl o e = rw (o.e_rd, o.e_rn, o.e_rm, e) refl
  checked ExpandedOp.lsr o e = rw (o.e_rd, o.e_rn, o.e_rm, e) refl

  passed :
      (op : ExpandedOp)
      → Operands inst rd rn rm
      → check_expansion_operands (rd ∷ rn ∷ rm ∷ []) (written op) ≡ ok tt
      → ¬ Refused op
  unfolding encode_inst emit_umulh emit_sdiv emit_udiv emit_shift
  passed ExpandedOp.umulh o e refused = cc (rw (o.e_rd, o.e_rn, o.e_rm, e) at refused)
  passed ExpandedOp.sdiv o e refused = cc (rw (o.e_rd, o.e_rn, o.e_rm, e) at refused)
  passed ExpandedOp.udiv o e refused = cc (rw (o.e_rd, o.e_rn, o.e_rm, e) at refused)
  passed ExpandedOp.shl o e refused = cc (rw (o.e_rd, o.e_rn, o.e_rm, e) at refused)
  passed ExpandedOp.lsr o e refused = cc (rw (o.e_rd, o.e_rn, o.e_rm, e) at refused)

  Free-of :
      (reserved : List ℕ)
      → (contains reserved rd || contains reserved rn || contains reserved rm) ≡ false
      → Free reserved rd rn rm
  Free-of reserved h =
      let (first, third) = or_false (contains reserved rd || contains reserved rn) _ h in
      let (left, right) = or_false (contains reserved rd) _ first in
      record { free_rd = left; free_rn = right; free_rm = third }

  -- `umulh`, `sdiv`, `udiv`, `shl` and `lsr` of general-purpose registers are refused exactly
  -- when an operand is in a register that the expansion writes to.
  pub encode_inst-clobbered :
      (op : ExpandedOp)
      → Operands inst rd rn rm
      → (encode_inst inst (expanded_opcode op) pc refs ≡ err Error.clobbered)
        ↔ IsClobbered (written op) rd rn rm
  encode_inst-clobbered op o = (
    (λ refused.
        elim (Bool-cases
          (contains (written op) rd || contains (written op) rn || contains (written op) rm)) [
            | inl h ↦ h
            | inr h ↦
                absurd
                  (passed op o (check-Free (written op) rd rn rm (Free-of (written op) h)) refused)
          ]),
    (λ h. checked op o (check_clobbered (written op) rd rn rm h)),
  )
