-- ===== src/X86/Machine/Execute.antt =====
-- crates/pliron-ll/src/x86_64/encoding.rs: what the processor does on the bytes of one register
-- instruction, and then on those after it.
use crabbit.Prelude.{ℕ, suc, ◌+◌, ◌-◌, ◌*◌, ◌%◌, ◌<◌, ◌≡◌, refl, arith}
use crabbit.Prelude.{Bool, true, false, ◌==◌, if◌then◌else◌, bit_and}
use crabbit.Prelude.{some, List, ◌∷◌, ◌++◌, bit_or, bit_xor}
use mathlib.Core.Path.{fun_ext}
use crabbit.X86.Bytes.{rax, rdx, emit_ext, emit_mov_rr, alu}
use crabbit.X86.Encode.{emit_imul}
use crabbit.X86.Machine.{
  Asm, Registers, set, run, exec, decode, decode_rr, decode_prefixed, alu_result, unary_step,
  decode_rex, shift_step, word_size, negative,
}
use crabbit.X86.Machine.Decode.{decode-emit_rr, decode-emit_ext, decode-emit_imul}

-- The last value that is written stays.
pub set-set : (r v w : ℕ) (s : Registers) → set r v (set r w s) ≡ set r v s
set-set r v w s = fun_ext (λ q. again (q == r) q)
  where
    again : (t : Bool) (q : ℕ) → (if t then v else if t then w else s q) ≡ (if t then v else s q)
    again true q = refl
    again false q = refl

pub set_same : (r v : ℕ) (s : Registers) → set r v s r ≡ v
set_same r v s = ground arith

pub set_other : (r q v : ℕ) (s : Registers) → (q == r) ≡ false → set r v s q ≡ s q
set_other r q v s h = rw h refl

-- The `/r` instructions with an immediate form of their own opcode.
pub data AluOp : Type 0 where
  add sub and or xor : AluOp

abbrev pub alu_code : AluOp → ℕ
alu_code AluOp.add = 0x01
alu_code AluOp.sub = 0x29
alu_code AluOp.and = 0x21
alu_code AluOp.or = 0x09
alu_code AluOp.xor = 0x31

abbrev pub alu_value : AluOp → ℕ → ℕ → ℕ
alu_value AluOp.add a b = (a + b) % word_size
alu_value AluOp.sub a b = (a + word_size - b) % word_size
alu_value AluOp.and a b = bit_and a b
alu_value AluOp.or a b = bit_or a b
alu_value AluOp.xor a b = bit_xor a b

-- The processor goes on with the rest in a state.
module _ (fuel : ℕ) (rest : List ℕ) (s : Registers) where
  goes :
      (p : ℕ) (bytes : List ℕ) (asm : Asm) (t : Registers)
      → decode (p ∷ bytes) ≡ some (asm, rest)
      → exec asm s ≡ some t
      → run (suc fuel) (p ∷ bytes) s ≡ run fuel rest t
  unfolding run
  goes p bytes asm t e_decode e_exec = rw (run, e_decode, e_exec) refl

  pub run-mov :
      (rd rm : ℕ)
      → rd < 16
      → rm < 16
      → run (suc fuel) (emit_mov_rr rd rm ++ rest) s ≡ run fuel rest (set rd (s rm) s)
  unfolding emit_mov_rr decode_rr
  run-mov rd rm h_rd h_rm =
      goes _ _ (Asm.mov rd rm) _ (decode-emit_rr 0x89 rest (refl, refl) rm rd h_rm h_rd) refl

  pub run-alu :
      (op : AluOp) (dst src : ℕ)
      → dst < 16
      → src < 16
      → run (suc fuel) (alu (alu_code op) dst src ++ rest) s
        ≡ run fuel rest (set dst (alu_value op (s dst) (s src)) s)
  unfolding alu decode_rr alu_result
  run-alu AluOp.add dst src h_d h_s =
      goes _ _ (Asm.alu 0x01 dst src) _ (decode-emit_rr 0x01 rest (refl, refl) src dst h_s h_d) refl
  run-alu AluOp.sub dst src h_d h_s =
      goes _ _ (Asm.alu 0x29 dst src) _ (decode-emit_rr 0x29 rest (refl, refl) src dst h_s h_d) refl
  run-alu AluOp.and dst src h_d h_s =
      goes _ _ (Asm.alu 0x21 dst src) _ (decode-emit_rr 0x21 rest (refl, refl) src dst h_s h_d) refl
  run-alu AluOp.or dst src h_d h_s =
      goes _ _ (Asm.alu 0x09 dst src) _ (decode-emit_rr 0x09 rest (refl, refl) src dst h_s h_d) refl
  run-alu AluOp.xor dst src h_d h_s =
      goes _ _ (Asm.alu 0x31 dst src) _ (decode-emit_rr 0x31 rest (refl, refl) src dst h_s h_d) refl

  pub run-imul :
      (rd src : ℕ)
      → rd < 16
      → src < 16
      → run (suc fuel) (emit_imul rd src ++ rest) s
        ≡ run fuel rest (set rd (s rd * s src % word_size) s)
  unfolding emit_imul
  run-imul rd src h_rd h_src =
      goes _ _ (Asm.imul rd src) _ (decode-emit_imul rd src rest h_rd h_src) refl

  -- `f7 /ext` and `d3 /ext`, by what the processor does on them.
  pub run-unary :
      (ext rm : ℕ) (t : Registers)
      → ext < 8
      → rm < 16
      → unary_step ext rm s ≡ some t
      → run (suc fuel) (emit_ext 0xf7 ext rm ++ rest) s ≡ run fuel rest t
  unfolding decode_rr
  run-unary ext rm t h_ext h_rm e =
      goes _ _ (Asm.unary ext rm) t (decode-emit_ext 0xf7 rest (refl, refl) ext rm h_ext h_rm) e

  pub run-shift :
      (ext rm : ℕ) (t : Registers)
      → ext < 8
      → rm < 16
      → shift_step ext rm s ≡ some t
      → run (suc fuel) (emit_ext 0xd3 ext rm ++ rest) s ≡ run fuel rest t
  unfolding decode_rr
  run-shift ext rm t h_ext h_rm e =
      goes _ _ (Asm.shift ext rm) t (decode-emit_ext 0xd3 rest (refl, refl) ext rm h_ext h_rm) e

  pub run-clear_edx : run (suc fuel) (0x31 ∷ 0xd2 ∷ rest) s ≡ run fuel rest (set rdx 0 s)
  unfolding decode
  run-clear_edx = goes _ _ Asm.clear_edx _ refl refl

  pub run-cqo :
      run (suc fuel) (0x48 ∷ 0x99 ∷ rest) s
      ≡ run fuel rest (set rdx (if negative (s rax) then word_size - 1 else 0) s)
  unfolding decode decode_rex decode_prefixed
  run-cqo = goes _ _ Asm.cqo _ refl refl
