-- ===== src/X86/Machine.antt =====
-- crates/pliron-ll/src/x86_64/encoding.rs: a processor that runs the bytes of the register
-- instructions, by the architecture's definition.
pub mod Decode
pub mod Execute
use crabbit.Prelude.{ℕ, zero, suc, ◌+◌, ◌-◌, ◌*◌, ◌/◌, ◌%◌, ◌^◌, bit_and, bit_or, bit_xor}
use crabbit.Prelude.{Bool, true, false, not, ◌||◌, ◌&&◌, ◌==◌, ltb, leb, if◌then◌else◌, length}
use crabbit.Prelude.{Option, some, none, List, [], ◌∷◌}
use crabbit.X86.Bytes.{bit, rax, rcx, rdx}

-- The 64-bit registers, by their number.
abbrev pub Registers : Type 0
Registers = ℕ → ℕ

abbrev pub set : ℕ → ℕ → Registers → Registers
set r value s q = if q == r then value else s q

-- An instruction with its operands.
pub data Asm : Type 0 where
  mov : (rm reg : ℕ) → Asm
  alu : (opcode rm reg : ℕ) → Asm
  imul : (reg rm : ℕ) → Asm
  unary : (ext rm : ℕ) → Asm
  shift : (ext rm : ℕ) → Asm
  clear_edx : Asm
  cqo : Asm

-- The bits of a REX prefix.
pub record Rex : Type 0 where
  pub w : Bool
  pub r : Bool
  pub x : Bool
  pub b : Bool

unfoldable pub decode_rex : ℕ → Option Rex
decode_rex p =
    if p / 16 == 4
    then some
        (record { w = p / 8 % 2 == 1; r = p / 4 % 2 == 1; x = p / 2 % 2 == 1; b = p % 2 == 1 })
    else none

-- A prefix bit is the upper one of a register number.
abbrev pub extended : Bool → ℕ → ℕ
extended upper low = bit upper * 8 + low

-- The instruction of one opcode on the registers of its operand byte.
unfoldable pub decode_rr : ℕ → ℕ → ℕ → ℕ → Option Asm
decode_rr o ext reg rm =
    if o == 0x89
    then some (Asm.mov rm reg)
    else if o == 0xf7
    then some (Asm.unary ext rm)
    else if o == 0xd3
    then some (Asm.shift ext rm)
    else some (Asm.alu o rm reg)

abbrev pub with_rest : Option Asm → List ℕ → Option (Asm × List ℕ)
with_rest none rest = none
with_rest (some asm) rest = some (asm, rest)

unfoldable pub decode_modrm : Rex → ℕ → List ℕ → Option (Asm × List ℕ)
decode_modrm x o (m ∷ rest) =
    if x.w && m / 64 == 3
    then with_rest (decode_rr o (m / 8 % 8) (extended x.r (m / 8 % 8)) (extended x.b (m % 8))) rest
    else none
decode_modrm x o [] = none

unfoldable pub decode_imul : Rex → List ℕ → Option (Asm × List ℕ)
decode_imul x (o ∷ m ∷ rest) =
    if x.w && m / 64 == 3 && o == 0xaf
    then some (Asm.imul (extended x.r (m / 8 % 8)) (extended x.b (m % 8)), rest)
    else none
decode_imul x _ = none

unfoldable pub decode_prefixed : Rex → ℕ → List ℕ → Option (Asm × List ℕ)
decode_prefixed x o rest =
    if o == 0x99
    then if x.w then some (Asm.cqo, rest) else none
    else if o == 0x0f
    then decode_imul x rest
    else decode_modrm x o rest

-- The first instruction of some bytes, and the bytes after it.
unfoldable pub decode : List ℕ → Option (Asm × List ℕ)
decode (p ∷ o ∷ rest) =
    if p == 0x31 && o == 0xd2
    then some (Asm.clear_edx, rest)
    else elim (decode_rex p) [ none ↦ none | some x ↦ decode_prefixed x o rest ]
decode _ = none

abbrev pub word_size : ℕ
word_size = 2 ^ 64

-- Two's complement.
abbrev pub negative : ℕ → Bool
negative v = leb (2 ^ 63) v

abbrev pub negate : ℕ → ℕ
negate v = (word_size - v) % word_size

-- The `/r` instructions on a destination and a source.
unfoldable pub alu_result : ℕ → ℕ → ℕ → Option ℕ
alu_result o dst src =
    if o == 0x01
    then some ((dst + src) % word_size)
    else if o == 0x29
    then some ((dst + word_size - src) % word_size)
    else if o == 0x21
    then some (bit_and dst src)
    else if o == 0x09
    then some (bit_or dst src)
    else if o == 0x31
    then some (bit_xor dst src)
    else none

-- `div`: the quotient of rdx:rax has to fit.
unfoldable pub divide : ℕ → Registers → Option Registers
divide d s =
    if d == 0
    then none
    else if ltb ((s rdx * word_size + s rax) / d) word_size
    then some
        (set rdx ((s rdx * word_size + s rax) % d) (set rax ((s rdx * word_size + s rax) / d) s))
    else none

-- The absolute value of a word of two's complement, and a word with a sign and a value.
abbrev pub magnitude : ℕ → ℕ → ℕ
magnitude modulus v = if leb (modulus / 2) v then modulus - v else v

abbrev pub signed_word : Bool → ℕ → ℕ
signed_word sign v = if sign then negate v else v

abbrev pub differ : Bool → Bool → Bool
differ true y = not y
differ false y = y

-- `idiv` of rdx:rax, which rounds towards zero: the quotient has to fit.
abbrev pub signed_quotient : ℕ → Bool → ℕ → Bool → Registers → Option Registers
signed_quotient n n_sign d d_sign s =
    if ltb (n / d) (2 ^ 63) || (differ n_sign d_sign && n / d == 2 ^ 63)
    then some (
        set rdx (signed_word n_sign (n % d))
          (set rax (signed_word (differ n_sign d_sign) (n / d)) s))
    else none

unfoldable pub signed_divide : ℕ → Registers → Option Registers
signed_divide d s =
    if d == 0
    then none
    else signed_quotient (magnitude (2 ^ 128) (s rdx * word_size + s rax)) (negative (s rdx))
        (magnitude word_size d) (negative d) s

-- `/3`, `/4`, `/6` and `/7`: neg, mul, div and idiv.
unfoldable pub unary_step : ℕ → ℕ → Registers → Option Registers
unary_step ext rm s =
    if ext == 3
    then some (set rm (negate (s rm)) s)
    else if ext == 4
    then some (set rdx (s rax * s rm / word_size) (set rax (s rax * s rm % word_size) s))
    else if ext == 6
    then divide (s rm) s
    else if ext == 7
    then signed_divide (s rm) s
    else none

-- `/4` and `/5`: shl and shr by the low six bits of rcx.
unfoldable pub shift_step : ℕ → ℕ → Registers → Option Registers
shift_step ext rm s =
    if ext == 4
    then some (set rm (s rm * 2 ^ (s rcx % 64) % word_size) s)
    else if ext == 5
    then some (set rm (s rm / 2 ^ (s rcx % 64)) s)
    else none

abbrev pub stored : ℕ → Option ℕ → Registers → Option Registers
stored r none s = none
stored r (some value) s = some (set r value s)

abbrev pub exec : Asm → Registers → Option Registers
exec (Asm.mov rm reg) s = some (set rm (s reg) s)
exec (Asm.alu o rm reg) s = stored rm (alu_result o (s rm) (s reg)) s
exec (Asm.imul reg rm) s = some (set reg (s reg * s rm % word_size) s)
exec (Asm.unary ext rm) s = unary_step ext rm s
exec (Asm.shift ext rm) s = shift_step ext rm s
exec Asm.clear_edx s = some (set rdx 0 s)
exec Asm.cqo s = some (set rdx (if negative (s rax) then word_size - 1 else 0) s)

-- All instructions of some bytes, one per unit of fuel.
unfoldable pub run : ℕ → List ℕ → Registers → Option Registers
run fuel [] s = some s
run zero (p ∷ bytes) s = none
run (suc fuel) (p ∷ bytes) s = elim (decode (p ∷ bytes)) [
  | none ↦ none
  | some (asm, rest) ↦ elim (exec asm s) [ none ↦ none | some t ↦ run fuel rest t ]
]

-- Every instruction takes bytes, so there is fuel enough.
abbrev pub execute : List ℕ → Registers → Option Registers
execute bytes s = run (length bytes) bytes s
