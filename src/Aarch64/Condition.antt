-- ===== src/Aarch64/Condition.antt =====
-- crates/pliron-ll/src/aarch64/attributes.rs, `ConditionCode`.
pub mod Flags
use Prim.Native.String.{String}
use crabbit.Prelude.{ℕ, List, [], ◌∷◌}

pub data ConditionCode : Type 0 where
  eq ne hs lo mi pl vs vc hi ls ge lt gt le : ConditionCode

abbrev pub all_conditions : List ConditionCode
all_conditions =
    ConditionCode.eq ∷ ConditionCode.ne ∷ ConditionCode.hs ∷ ConditionCode.lo ∷ ConditionCode.mi
    ∷ ConditionCode.pl ∷ ConditionCode.vs ∷ ConditionCode.vc ∷ ConditionCode.hi ∷ ConditionCode.ls
    ∷ ConditionCode.ge ∷ ConditionCode.lt ∷ ConditionCode.gt ∷ ConditionCode.le ∷ []

-- The `cond` field of `B.cond` and of the condition-select instructions.
abbrev pub encoding : ConditionCode → ℕ
encoding ConditionCode.eq = 0
encoding ConditionCode.ne = 1
encoding ConditionCode.hs = 2
encoding ConditionCode.lo = 3
encoding ConditionCode.mi = 4
encoding ConditionCode.pl = 5
encoding ConditionCode.vs = 6
encoding ConditionCode.vc = 7
encoding ConditionCode.hi = 8
encoding ConditionCode.ls = 9
encoding ConditionCode.ge = 10
encoding ConditionCode.lt = 11
encoding ConditionCode.gt = 12
encoding ConditionCode.le = 13

-- The condition that holds exactly when the given one does not.
abbrev pub invert : ConditionCode → ConditionCode
invert ConditionCode.eq = ConditionCode.ne
invert ConditionCode.ne = ConditionCode.eq
invert ConditionCode.hs = ConditionCode.lo
invert ConditionCode.lo = ConditionCode.hs
invert ConditionCode.mi = ConditionCode.pl
invert ConditionCode.pl = ConditionCode.mi
invert ConditionCode.vs = ConditionCode.vc
invert ConditionCode.vc = ConditionCode.vs
invert ConditionCode.hi = ConditionCode.ls
invert ConditionCode.ls = ConditionCode.hi
invert ConditionCode.ge = ConditionCode.lt
invert ConditionCode.lt = ConditionCode.ge
invert ConditionCode.gt = ConditionCode.le
invert ConditionCode.le = ConditionCode.gt

abbrev pub condition_name : ConditionCode → String
condition_name ConditionCode.eq = "eq"
condition_name ConditionCode.ne = "ne"
condition_name ConditionCode.hs = "hs"
condition_name ConditionCode.lo = "lo"
condition_name ConditionCode.mi = "mi"
condition_name ConditionCode.pl = "pl"
condition_name ConditionCode.vs = "vs"
condition_name ConditionCode.vc = "vc"
condition_name ConditionCode.hi = "hi"
condition_name ConditionCode.ls = "ls"
condition_name ConditionCode.ge = "ge"
condition_name ConditionCode.lt = "lt"
condition_name ConditionCode.gt = "gt"
condition_name ConditionCode.le = "le"
