-- ===== src/Midend/Partial/Rewrites.antt =====
-- crates/pliron-ll/src/passes/llvm/simplify.rs: each rewrite of `simplify_partial_const` keeps the
-- value that the operation folds to.
use native.Mathlib.Nat.{
  one-le-pow, mul-add-mod_self_right, mod-add-mod, add-mod-mod, mul_comm, mul_assoc, add-mul,
  div-add-mod', mod-mod_of_dvd, dvd-mul_left,
}
use mathlib.Core.Path.{subst}
use Prim.Native.Nat.{◌∣◌}
use crabbit.Prelude.{ℕ, ◌+◌, ◌-◌, ◌*◌, ◌/◌, ◌%◌, ◌^◌, ◌<◌, ◌≡◌, sym, ◌∙◌, ap, arith}
use crabbit.Prelude.{true, false, some, leb, bit_and}
use crabbit.Prelude.{Bool-cases, inl, inr, ◌||◌}
use crabbit.Prelude.Bits.{bit_and-zero}
use crabbit.Midend.Const.{ConstOperand, mask_to_width, masked}
use crabbit.Midend.Const.Laws.{mask_to_width-lt}
use crabbit.Midend.Fold.{BinOp, Value, value, fold_int_binary, binary_bits, constant_of}
use crabbit.Midend.Magic.Loop.{two_pow-add}
use crabbit.Midend.DivReduce.Emit.{Has, word, folded, two_pow-le}
use crabbit.Midend.DivReduce.Unsigned.{exponent_lt, self_lt_two_pow}
use crabbit.Midend.Partial.{is_annihilated, is_add, is_mul, combined}

module _ (x : ConstOperand) (width : ℕ) (narrow : width < 128) (lhs rhs : Value) (l r : ℕ)
    (hl : Has x lhs width l) (hr : Has x rhs width r) (l_lt : l < 2 ^ width)
    (r_lt : r < 2 ^ width) where
  abbrev operands : (mask_to_width l width ≡ l) × (mask_to_width r width ≡ r)
  operands = (mask_to_width-lt l width narrow l_lt, mask_to_width-lt r width narrow r_lt)

  pub commute-add :
      value x (Value.binary BinOp.add lhs rhs) ≡ value x (Value.binary BinOp.add rhs lhs)
  unfolding value fold_int_binary binary_bits
  commute-add = rw (hl, hr) (ap (λ (t : ℕ). some (constant_of width (t % 2 ^ 128))) (omega arith))

  pub commute-mul :
      value x (Value.binary BinOp.mul lhs rhs) ≡ value x (Value.binary BinOp.mul rhs lhs)
  unfolding value fold_int_binary binary_bits
  commute-mul = rw (hl, hr) (ap (λ (t : ℕ). some (constant_of width (t % 2 ^ 128))) (omega arith))

  pub by-one : r ≡ 1 → value x (Value.binary BinOp.mul lhs rhs) ≡ some (word width l)
  unfolding value fold_int_binary binary_bits masked
  by-one e =
      rw (hl, hr, operands.0, operands.1)
        (folded width (l * r % 2 ^ 128) l narrow l_lt
          (ap (λ (t : ℕ). l * t % 2 ^ 128) e ∙ omega (arith, l_lt, two_pow-le width narrow)))

  pub annihilated :
      (op : BinOp)
      → is_annihilated op ≡ true
      → r ≡ 0
      → value x (Value.binary op lhs rhs) ≡ some (word width 0)
  unfolding value fold_int_binary binary_bits masked
  annihilated BinOp.mul h e =
      rw (hl, hr, operands.0, operands.1)
        (folded width (l * r % 2 ^ 128) 0 narrow (one-le-pow width 2 (omega arith))
          (ap (λ (t : ℕ). l * t % 2 ^ 128) e ∙ omega arith))
  annihilated BinOp.and h e =
      rw (hl, hr, operands.0, operands.1)
        (folded width (bit_and l r) 0 narrow (one-le-pow width 2 (omega arith))
          (ap (λ (t : ℕ). bit_and l t) e ∙ bit_and-zero l))
  annihilated BinOp.add h e = cc
  annihilated BinOp.sub h e = cc
  annihilated BinOp.or h e = cc
  annihilated BinOp.xor h e = cc
  annihilated BinOp.shl h e = cc
  annihilated BinOp.lshr h e = cc
  annihilated BinOp.ashr h e = cc
  annihilated BinOp.udiv h e = cc
  annihilated BinOp.urem h e = cc
  annihilated BinOp.sdiv h e = cc
  annihilated BinOp.srem h e = cc

  -- A product with a power of two is a shift.
  pub by-shift :
      (k : ℕ)
      → r ≡ 2 ^ k
      → value x (Value.binary BinOp.shl lhs (Value.constant (word width k)))
        ≡ value x (Value.binary BinOp.mul lhs rhs)
  unfolding value fold_int_binary binary_bits masked
  by-shift k e =
      let k_lt : k < width = exponent_lt k width (omega (arith, e, r_lt)) in
      let same_k : mask_to_width k width ≡ k =
        mask_to_width-lt k width narrow (omega (arith, k_lt, self_lt_two_pow width)) in
      let inside : leb width k ≡ false = ground (arith, k_lt) in
      rw (hl, hr, operands.0, operands.1, same_k, inside)
        (ap (λ (t : ℕ). some (constant_of width (l * t % 2 ^ 128))) (sym e))

-- An operation that is associative, and whose low digits depend on the operands' low digits.
module _ (f : ℕ → ℕ → ℕ) (m : ℕ) (reduce : (n : ℕ) → n % 2 ^ 128 % m ≡ n % m)
    (left : (a b : ℕ) → f (a % m) b % m ≡ f a b % m)
    (right : (a b : ℕ) → f a (b % m) % m ≡ f a b % m)
    (assoc : (a b c : ℕ) → f (f a b) c ≡ f a (f b c)) where
  regroup :
      (a b c : ℕ)
      → f (f a b % 2 ^ 128 % m) c % 2 ^ 128 % m ≡ f a (f b c % 2 ^ 128 % m) % 2 ^ 128 % m
  regroup a b c =
      reduce (f (f a b % 2 ^ 128 % m) c)
      ∙ ap (λ (t : ℕ). f t c % m) (reduce (f a b))
      ∙ left (f a b) c
      ∙ ap (λ (t : ℕ). t % m) (assoc a b c)
      ∙ sym (right a (f b c))
      ∙ ap (λ (t : ℕ). f a t % m) (sym (reduce (f b c)))
      ∙ sym (reduce (f a (f b c % 2 ^ 128 % m)))

reduce_128 : (width n : ℕ) → width < 128 → n % 2 ^ 128 % 2 ^ width ≡ n % 2 ^ width
reduce_128 width n narrow =
    mod-mod_of_dvd (2 ^ width) n
      (subst (λ (t : ℕ). 2 ^ width ∣ t) (sym split) (dvd-mul_left (2 ^ width) (2 ^ (128 - width))))
  where
    rejoin : 128 - width + width ≡ 128
    rejoin = omega (arith, narrow)

    split : 2 ^ 128 ≡ 2 ^ (128 - width) * 2 ^ width
    split = sym (ap (λ (t : ℕ). 2 ^ t) rejoin) ∙ two_pow-add (128 - width) width

mul-mod_left_factor : (m a b : ℕ) → a % m * b % m ≡ a * b % m
mul-mod_left_factor m a b = sym (
    ap (λ (t : ℕ). t * b % m) (sym (div-add-mod' a m))
    ∙ ap (λ (t : ℕ). t % m) (add-mul (a / m * m) (a % m) b)
    ∙ ap (λ (t : ℕ). (t + a % m * b) % m)
        (mul_assoc (a / m) m b
          ∙ ap (λ (t : ℕ). a / m * t) (mul_comm m b)
          ∙ sym (mul_assoc (a / m) b m))
    ∙ mul-add-mod_self_right (a / m * b) m (a % m * b))

mul-mod_right_factor : (m a b : ℕ) → a * (b % m) % m ≡ a * b % m
mul-mod_right_factor m a b =
    ap (λ (t : ℕ). t % m) (mul_comm a (b % m))
    ∙ mul-mod_left_factor m b a
    ∙ ap (λ (t : ℕ). t % m) (mul_comm b a)

pub regroup-combined :
    (op : BinOp) (width a b c : ℕ)
    → width < 128
    → (is_add op || is_mul op) ≡ true
    → combined op (combined op a b % 2 ^ width) c % 2 ^ width
      ≡ combined op a (combined op b c % 2 ^ width) % 2 ^ width
regroup-combined op width a b c narrow h = elim (Bool-cases (is_add op)) [
  | inl add ↦ rw add (
      regroup (λ u v. u + v) (2 ^ width) (λ n. reduce_128 width n narrow)
        (λ u v. mod-add-mod u (2 ^ width) v) (λ u v. add-mod-mod u v (2 ^ width))
        (λ u v w. omega arith) a b c)
  | inr other ↦ rw other (
      regroup (λ u v. u * v) (2 ^ width) (λ n. reduce_128 width n narrow)
        (λ u v. mul-mod_left_factor (2 ^ width) u v) (λ u v. mul-mod_right_factor (2 ^ width) u v)
        mul_assoc a b c)
]
