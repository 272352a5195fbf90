-- ===== src/Midend/Partial/Preserves.antt =====
-- crates/pliron-ll/src/passes/llvm/simplify.rs: `simplify_partial_const` keeps the value.
use native.Mathlib.Nat.{one-le-pow}
use mathlib.Core.Path.{subst}
use mathlib.Core.Option.{some-injective}
use crabbit.Prelude.{ℕ, ◌^◌, ◌<◌, ◌≡◌, refl, sym, ◌∙◌, ap, arith, ◌==◌, ==_iff}
use crabbit.Prelude.{Bool, true, false, not, inl, inr, Bool-cases, Option-cases, some, ◌||◌, ◌&&◌}
use crabbit.Midend.Const.{ConstOperand, mask_to_width, masked}
use crabbit.Midend.Const.Laws.{mask_to_width-lt}
use crabbit.Midend.Fold.{BinOp, Value, value, fold_int_binary}
use crabbit.Midend.DivReduce.{as_const_operand, is_power_of_two, trailing_zeros}
use crabbit.Midend.DivReduce.Emit.{Has, word}
use crabbit.Midend.Partial.{
  is_add, is_mul, is_const, keeps_zero, is_identity, is_annihilated, inner_operands, reassociate,
  with_constant, on_constant, simplify_partial_const,
}
use crabbit.Midend.Partial.Ops.{is_mul-op, as_const_operand-constant}
use crabbit.Midend.Partial.Zero.{fold-zero}
use crabbit.Midend.Partial.Rewrites.{commute-add, commute-mul, by-one, annihilated, by-shift}
use crabbit.Midend.Partial.Inner.{
  IsCombined, combined-cases, reassociated-value, inner_operands-binary,
}

and_split : (a b : Bool) → (a && b) ≡ true → (a ≡ true) × (b ≡ true)
and_split true b h = (refl, h)
and_split false b h = cc

module _ (x : ConstOperand) (width : ℕ) (narrow : width < 128) (wide : 0 < width) (op : BinOp)
    (lhs : Value) (l r : ℕ) (hl : Has x lhs width l) (l_lt : l < 2 ^ width)
    (r_lt : r < 2 ^ width) where
  abbrev right : Value
  right = Value.constant (word width r)

  at_right : Has x right width r
  unfolding value
  at_right = refl

  -- The tree that takes the place has the operation's value.
  abbrev Keeps : Value → Type 0
  Keeps v = value x v ≡ value x (Value.binary op lhs right)

  Keeps-identity : is_identity op r ≡ true → Keeps lhs
  unfolding is_identity value
  Keeps-identity h = elim (Bool-cases (r == 0 && keeps_zero op)) [
    | inl both ↦
        let (zero_r, op_keeps) = and_split (r == 0) (keeps_zero op) both in
        hl
        ∙ sym (fold-zero width l narrow wide l_lt op op_keeps)
        ∙ ap (λ (t : ℕ). fold_int_binary op (word width l) (word width t))
            (sym ((==_iff r 0).0 zero_r))
        ∙ rw hl refl
    | inr other ↦
        let (one_r, op_mul) = and_split (r == 1) (is_mul op) (rw other at h) in
        hl
        ∙ sym (by-one x width narrow lhs right l r hl at_right l_lt r_lt ((==_iff r 1).0 one_r))
        ∙ ap (λ (o : BinOp). value x (Value.binary o lhs right)) (sym (is_mul-op op op_mul))
  ]

  Keeps-annihilated :
      (r == 0 && is_annihilated op) ≡ true
      → Keeps (Value.constant (record { bits = mask_to_width 0 width; width = width }))
  unfolding value
  Keeps-annihilated h =
      let (zero_r, dies) = and_split (r == 0) (is_annihilated op) h in
      ap (λ (t : ℕ). some (word width t))
        (mask_to_width-lt 0 width narrow (one-le-pow width 2 (omega arith)))
      ∙ sym (
          annihilated x width narrow lhs right l r hl at_right l_lt r_lt op dies
            ((==_iff r 0).0 zero_r))

  Keeps-shifted :
      (is_mul op && is_power_of_two r) ≡ true
      → Keeps (Value.binary BinOp.shl lhs (Value.constant (word width (trailing_zeros r))))
  unfolding is_power_of_two
  Keeps-shifted h =
      let (op_mul, power) = and_split (is_mul op) (is_power_of_two r) h in
      by-shift x width narrow lhs right l r hl at_right l_lt r_lt (trailing_zeros r)
        ((==_iff r (2 ^ trailing_zeros r)).0 power)
      ∙ ap (λ (o : BinOp). value x (Value.binary o lhs right)) (sym (is_mul-op op op_mul))

  same_r : masked (word width r) ≡ r
  unfolding masked
  same_r = mask_to_width-lt r width narrow r_lt

  Keeps-reassociate :
      (v : Value)
      → IsCombined op
      → reassociate op lhs (word width r) (inner_operands op lhs) ≡ some v
      → Keeps v
  unfolding reassociate
  Keeps-reassociate v is e = elim (Option-cases (inner_operands op lhs)) [
    | inl no_inner ↦ elim (Bool-cases (is_mul op && is_power_of_two r)) [
      | inl h ↦ subst Keeps (some-injective _ v (rw (no_inner, same_r, h) at e)) (Keeps-shifted h)
      | inr h ↦ absurd (cc (rw (no_inner, same_r, h) at e))
    ]
    | inr ((a, inner), found) ↦
        let tree = inner_operands-binary op lhs a inner is found in
        let made =
          reassociated-value x width narrow op is inner l r l_lt r_lt a
            (subst (λ t. Has x t width l) tree hl) in
        subst Keeps (some-injective _ v (rw found at e))
          (made ∙ ap (λ (t : Value). value x (Value.binary op t right)) (sym tree))
  ]

  Keeps-with_constant : (v : Value) → with_constant op lhs (word width r) ≡ some v → Keeps v
  unfolding with_constant
  Keeps-with_constant v e = elim (Bool-cases (is_identity op r)) [
    | inl h ↦ subst Keeps (some-injective lhs v (rw (same_r, h) at e)) (Keeps-identity h)
    | inr n0 ↦ elim (Bool-cases (r == 0 && is_annihilated op)) [
      | inl h ↦ subst Keeps (some-injective _ v (rw (same_r, n0, h) at e)) (Keeps-annihilated h)
      | inr n1 ↦ elim (Bool-cases (is_add op || is_mul op)) [
        | inl is ↦ Keeps-reassociate v is (rw (same_r, n0, n1, is) at e)
        | inr n2 ↦ absurd (cc (rw (same_r, n0, n1, n2) at e))
      ]
    ]
  ]

module _ (x : ConstOperand) (width : ℕ) (op : BinOp) (lhs rhs v : Value) (l r : ℕ)
    (narrow : width < 128) (wide : 0 < width) (hl : Has x lhs width l) (hr : Has x rhs width r)
    (l_lt : l < 2 ^ width) (r_lt : r < 2 ^ width) where
  swapped : IsCombined op → value x (Value.binary op rhs lhs) ≡ value x (Value.binary op lhs rhs)
  swapped is =
      combined-cases (λ o. value x (Value.binary o rhs lhs) ≡ value x (Value.binary o lhs rhs)) op
        is (commute-add x width narrow rhs lhs r l hr hl r_lt l_lt)
        (commute-mul x width narrow rhs lhs r l hr hl r_lt l_lt)

  keeps_on_constant :
      on_constant op lhs (as_const_operand rhs) ≡ some v
      → value x v ≡ value x (Value.binary op lhs rhs)
  unfolding value
  keeps_on_constant e = elim (Option-cases (as_const_operand rhs)) [
    | inl h ↦ absurd (cc (rw h at e))
    | inr (d, h) ↦ elim (Bool-cases (is_const lhs)) [
      | inl both ↦ absurd (cc (rw (h, both) at e))
      | inr one ↦
          let constant = as_const_operand-constant rhs d h in
          let is_word =
            some-injective d (word width r) (subst (λ t. Has x t width r) constant hr) in
          let applied : with_constant op lhs (word width r) ≡ some v =
            subst (λ c. with_constant op lhs c ≡ some v) is_word (rw (h, one) at e) in
          Keeps-with_constant x width narrow wide op lhs l r hl l_lt r_lt v applied
          ∙ ap (λ (c : ConstOperand). value x (Value.binary op lhs (Value.constant c)))
              (sym is_word)
          ∙ ap (λ (t : Value). value x (Value.binary op lhs t)) (sym constant)
    ]
  ]

  -- A replacement by `simplify_partial_const` of an operation on two values of a width between 1 and
  -- 127 folds to what the operation itself folds to.
  pub simplify_partial_const-value :
      simplify_partial_const op lhs rhs ≡ some v → value x v ≡ value x (Value.binary op lhs rhs)
  unfolding simplify_partial_const
  simplify_partial_const-value e =
      elim (Bool-cases ((is_add op || is_mul op) && is_const lhs && not (is_const rhs))) [
        | inl h ↦
            let (left, other) =
              and_split ((is_add op || is_mul op) && is_const lhs) (not (is_const rhs)) h in
            let (is, lhs_const) = and_split (is_add op || is_mul op) (is_const lhs) left in
            subst (λ t. value x t ≡ value x (Value.binary op lhs rhs))
              (some-injective (Value.binary op rhs lhs) v (rw h at e)) (swapped is)
        | inr h ↦ keeps_on_constant (rw h at e)
      ]
