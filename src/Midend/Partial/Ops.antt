-- ===== src/Midend/Partial/Ops.antt =====
-- crates/pliron-ll/src/passes/llvm/simplify.rs: what `simplify_partial_const` finds out of its
-- operands.
use mathlib.Core.Option.{some-injective}
use crabbit.Prelude.{◌≡◌, refl, ap, true, some}
use crabbit.Midend.Const.{ConstOperand}
use crabbit.Midend.Fold.{BinOp, Value}
use crabbit.Midend.DivReduce.{as_const_operand}
use crabbit.Midend.Partial.{is_add, is_mul}

pub is_add-op : (op : BinOp) → is_add op ≡ true → op ≡ BinOp.add
is_add-op BinOp.add h = refl
is_add-op BinOp.sub h = cc
is_add-op BinOp.mul h = cc
is_add-op BinOp.and h = cc
is_add-op BinOp.or h = cc
is_add-op BinOp.xor h = cc
is_add-op BinOp.shl h = cc
is_add-op BinOp.lshr h = cc
is_add-op BinOp.ashr h = cc
is_add-op BinOp.udiv h = cc
is_add-op BinOp.urem h = cc
is_add-op BinOp.sdiv h = cc
is_add-op BinOp.srem h = cc

pub is_mul-op : (op : BinOp) → is_mul op ≡ true → op ≡ BinOp.mul
is_mul-op BinOp.add h = cc
is_mul-op BinOp.sub h = cc
is_mul-op BinOp.mul h = refl
is_mul-op BinOp.and h = cc
is_mul-op BinOp.or h = cc
is_mul-op BinOp.xor h = cc
is_mul-op BinOp.shl h = cc
is_mul-op BinOp.lshr h = cc
is_mul-op BinOp.ashr h = cc
is_mul-op BinOp.udiv h = cc
is_mul-op BinOp.urem h = cc
is_mul-op BinOp.sdiv h = cc
is_mul-op BinOp.srem h = cc

pub as_const_operand-constant :
    (v : Value) (c : ConstOperand) → as_const_operand v ≡ some c → v ≡ Value.constant c
as_const_operand-constant Value.dividend c h = cc
as_const_operand-constant (Value.constant d) c h = ap Value.constant (some-injective d c h)
as_const_operand-constant (Value.binary op a b) c h = cc
as_const_operand-constant (Value.cast op width a) c h = cc
as_const_operand-constant (Value.icmp p a b) c h = cc
