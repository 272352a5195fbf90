-- ===== src/X86/Condition/Flags.antt =====
-- crates/pliron-ll/src/x86_64/attributes.rs: what the condition codes mean on the processor's
-- flags, by the architecture's table of `cc` nibbles.
use crabbit.Prelude.{ℕ, ◌<◌, ◌^◌, arith, ◌≡◌, refl, ◌/◌, ◌%◌}
use crabbit.Prelude.{Bool, true, false, not, ◌||◌, ◌==◌, if◌then◌else◌}
use crabbit.X86.Condition.{ConditionCode, encoding, invert}

-- Overflow, carry, zero, sign and parity.
pub record Flags : Type 0 where
  pub of : Bool
  pub cf : Bool
  pub zf : Bool
  pub sf : Bool
  pub pf : Bool

abbrev pub differ : Bool → Bool → Bool
differ true y = not y
differ false y = y

-- The upper three bits of the nibble choose the test.
abbrev pub base_holds : ℕ → Flags → Bool
base_holds test f =
    if test == 0
    then f.of
    else if test == 1
    then f.cf
    else if test == 2
    then f.zf
    else if test == 3
    then f.cf || f.zf
    else if test == 4
    then f.sf
    else if test == 5
    then f.pf
    else if test == 6
    then differ f.sf f.of
    else f.zf || differ f.sf f.of

-- The lowest bit inverts it.
abbrev pub nibble_holds : ℕ → Flags → Bool
nibble_holds n f = if n % 2 == 1 then not (base_holds (n / 2) f) else base_holds (n / 2) f

abbrev pub holds : ConditionCode → Flags → Bool
holds cond f = nibble_holds (encoding cond) f

not-not : (t : Bool) → t ≡ not (not t)
not-not true = refl
not-not false = refl

-- The inverted condition code holds on exactly the flags on which the code does not.
pub invert-holds : (cond : ConditionCode) (f : Flags) → holds (invert cond) f ≡ not (holds cond f)
invert-holds ConditionCode.o f = refl
invert-holds ConditionCode.no f = not-not _
invert-holds ConditionCode.b f = refl
invert-holds ConditionCode.ae f = not-not _
invert-holds ConditionCode.e f = refl
invert-holds ConditionCode.ne f = not-not _
invert-holds ConditionCode.be f = refl
invert-holds ConditionCode.a f = not-not _
invert-holds ConditionCode.s f = refl
invert-holds ConditionCode.ns f = not-not _
invert-holds ConditionCode.p f = refl
invert-holds ConditionCode.np f = not-not _
invert-holds ConditionCode.l f = refl
invert-holds ConditionCode.ge f = not-not _
invert-holds ConditionCode.le f = refl
invert-holds ConditionCode.g f = not-not _

pub encoding-lt : (cond : ConditionCode) → encoding cond < 2 ^ 4
encoding-lt ConditionCode.o = omega arith
encoding-lt ConditionCode.no = omega arith
encoding-lt ConditionCode.b = omega arith
encoding-lt ConditionCode.ae = omega arith
encoding-lt ConditionCode.e = omega arith
encoding-lt ConditionCode.ne = omega arith
encoding-lt ConditionCode.be = omega arith
encoding-lt ConditionCode.a = omega arith
encoding-lt ConditionCode.s = omega arith
encoding-lt ConditionCode.ns = omega arith
encoding-lt ConditionCode.p = omega arith
encoding-lt ConditionCode.np = omega arith
encoding-lt ConditionCode.l = omega arith
encoding-lt ConditionCode.ge = omega arith
encoding-lt ConditionCode.le = omega arith
encoding-lt ConditionCode.g = omega arith
