-- ===== src/X86/Condition.antt =====
-- crates/pliron-ll/src/x86_64/attributes.rs, `ConditionCode`.
pub mod Flags
use Prim.Native.String.{String}
use crabbit.Prelude.{ℕ, List, [], ◌∷◌}

pub data ConditionCode : Type 0 where
  o no b ae e ne be a s ns p np l ge le g : ConditionCode

abbrev pub all_conditions : List ConditionCode
all_conditions =
    ConditionCode.o ∷ ConditionCode.no ∷ ConditionCode.b ∷ ConditionCode.ae ∷ ConditionCode.e
    ∷ ConditionCode.ne ∷ ConditionCode.be ∷ ConditionCode.a ∷ ConditionCode.s ∷ ConditionCode.ns
    ∷ ConditionCode.p ∷ ConditionCode.np ∷ ConditionCode.l ∷ ConditionCode.ge ∷ ConditionCode.le
    ∷ ConditionCode.g ∷ []

-- The nibble that is added to the opcode of `jcc` and of `setcc`.
abbrev pub encoding : ConditionCode → ℕ
encoding ConditionCode.o = 0
encoding ConditionCode.no = 1
encoding ConditionCode.b = 2
encoding ConditionCode.ae = 3
encoding ConditionCode.e = 4
encoding ConditionCode.ne = 5
encoding ConditionCode.be = 6
encoding ConditionCode.a = 7
encoding ConditionCode.s = 8
encoding ConditionCode.ns = 9
encoding ConditionCode.p = 10
encoding ConditionCode.np = 11
encoding ConditionCode.l = 12
encoding ConditionCode.ge = 13
encoding ConditionCode.le = 14
encoding ConditionCode.g = 15

-- The condition that holds exactly when the given one does not.
abbrev pub invert : ConditionCode → ConditionCode
invert ConditionCode.o = ConditionCode.no
invert ConditionCode.no = ConditionCode.o
invert ConditionCode.b = ConditionCode.ae
invert ConditionCode.ae = ConditionCode.b
invert ConditionCode.e = ConditionCode.ne
invert ConditionCode.ne = ConditionCode.e
invert ConditionCode.be = ConditionCode.a
invert ConditionCode.a = ConditionCode.be
invert ConditionCode.s = ConditionCode.ns
invert ConditionCode.ns = ConditionCode.s
invert ConditionCode.p = ConditionCode.np
invert ConditionCode.np = ConditionCode.p
invert ConditionCode.l = ConditionCode.ge
invert ConditionCode.ge = ConditionCode.l
invert ConditionCode.le = ConditionCode.g
invert ConditionCode.g = ConditionCode.le

abbrev pub condition_name : ConditionCode → String
condition_name ConditionCode.o = "o"
condition_name ConditionCode.no = "no"
condition_name ConditionCode.b = "b"
condition_name ConditionCode.ae = "ae"
condition_name ConditionCode.e = "e"
condition_name ConditionCode.ne = "ne"
condition_name ConditionCode.be = "be"
condition_name ConditionCode.a = "a"
condition_name ConditionCode.s = "s"
condition_name ConditionCode.ns = "ns"
condition_name ConditionCode.p = "p"
condition_name ConditionCode.np = "np"
condition_name ConditionCode.l = "l"
condition_name ConditionCode.ge = "ge"
condition_name ConditionCode.le = "le"
condition_name ConditionCode.g = "g"
