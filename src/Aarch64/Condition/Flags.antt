-- ===== src/Aarch64/Condition/Flags.antt =====
-- crates/pliron-ll/src/aarch64/attributes.rs: what the condition codes mean on the processor's
-- flags, by the architecture's `ConditionHolds` on the encoded field.
use crabbit.Prelude.{
  ◌<◌, ◌^◌, arith, ℕ, ◌≡◌, refl, ◌/◌, ◌%◌, Bool, true, false, not, ◌&&◌, ◌==◌, if◌then◌else◌,
}
use crabbit.Aarch64.Condition.{ConditionCode, encoding, invert}

pub record Flags : Type 0 where
  pub n : Bool
  pub z : Bool
  pub c : Bool
  pub v : Bool

abbrev pub same : Bool → Bool → Bool
same true y = y
same false y = not y

-- The upper three bits choose the test.
abbrev pub base_holds : ℕ → Flags → Bool
base_holds test f =
    if test == 0
    then f.z
    else if test == 1
    then f.c
    else if test == 2
    then f.n
    else if test == 3
    then f.v
    else if test == 4
    then f.c && not f.z
    else if test == 5
    then same f.n f.v
    else if test == 6
    then same f.n f.v && not f.z
    else true

-- The lowest bit inverts it.
abbrev pub field_holds : ℕ → Flags → Bool
field_holds field f =
    if field % 2 == 1 then not (base_holds (field / 2) f) else base_holds (field / 2) f

abbrev pub holds : ConditionCode → Flags → Bool
holds cond f = field_holds (encoding cond) f

pub not-not : (t : Bool) → t ≡ not (not t)
not-not true = refl
not-not false = refl

-- The inverted condition holds on exactly the flags on which the condition does not.
pub invert-holds : (cond : ConditionCode) (f : Flags) → holds (invert cond) f ≡ not (holds cond f)
invert-holds ConditionCode.eq f = refl
invert-holds ConditionCode.ne f = not-not _
invert-holds ConditionCode.hs f = refl
invert-holds ConditionCode.lo f = not-not _
invert-holds ConditionCode.mi f = refl
invert-holds ConditionCode.pl f = not-not _
invert-holds ConditionCode.vs f = refl
invert-holds ConditionCode.vc f = not-not _
invert-holds ConditionCode.hi f = refl
invert-holds ConditionCode.ls f = not-not _
invert-holds ConditionCode.ge f = refl
invert-holds ConditionCode.lt f = not-not _
invert-holds ConditionCode.gt f = refl
invert-holds ConditionCode.le f = not-not _

pub encoding-lt : (cond : ConditionCode) → encoding cond < 2 ^ 4
encoding-lt ConditionCode.eq = omega arith
encoding-lt ConditionCode.ne = omega arith
encoding-lt ConditionCode.hs = omega arith
encoding-lt ConditionCode.lo = omega arith
encoding-lt ConditionCode.mi = omega arith
encoding-lt ConditionCode.pl = omega arith
encoding-lt ConditionCode.vs = omega arith
encoding-lt ConditionCode.vc = omega arith
encoding-lt ConditionCode.hi = omega arith
encoding-lt ConditionCode.ls = omega arith
encoding-lt ConditionCode.ge = omega arith
encoding-lt ConditionCode.lt = omega arith
encoding-lt ConditionCode.gt = omega arith
encoding-lt ConditionCode.le = omega arith
