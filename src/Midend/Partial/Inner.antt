-- ===== src/Midend/Partial/Inner.antt =====
-- crates/pliron-ll/src/passes/llvm/simplify.rs: reassociation of an operation with a constant and
-- an inner one of the same kind keeps the value.
use native.Mathlib.Nat.{mod-mod}
use mathlib.Core.Path.{subst}
use mathlib.Core.Option.{some-injective}
use crabbit.Prelude.{ℕ, ◌%◌, ◌^◌, ◌<◌, ◌≡◌, refl, sym, ◌∙◌, ap}
use crabbit.Prelude.{Bool, true, inl, inr, Bool-cases, Option, Option-cases, some, none, ◌||◌, ◌&&◌}
use crabbit.Midend.Const.{ConstOperand, mask_to_width, masked}
use crabbit.Midend.Const.Laws.{mask_to_width-lt, mask_to_width-mod}
use crabbit.Midend.Fold.{BinOp, Value, value, fold_int_binary, binary_bits, constant_of}
use crabbit.Midend.DivReduce.{as_const_operand}
use crabbit.Midend.DivReduce.Emit.{Has, word}
use crabbit.Midend.Partial.{
  is_add, is_mul, is_const, combined, reassociated, inner_operands, inner_constant,
}
use crabbit.Midend.Partial.Ops.{is_add-op, is_mul-op, as_const_operand-constant}
use crabbit.Midend.Partial.Rewrites.{regroup-combined}

abbrev pub IsCombined : BinOp → Type 0
IsCombined op = (is_add op || is_mul op) ≡ true

-- Addition or multiplication.
pub combined-cases {ℓ} :
    (P : BinOp → Type ℓ) (op : BinOp) → IsCombined op → P BinOp.add → P BinOp.mul → P op
combined-cases P op h at_add at_mul = elim (Bool-cases (is_add op)) [
  | inl add ↦ subst P (sym (is_add-op op add)) at_add
  | inr other ↦ subst P (sym (is_mul-op op (rw other at h))) at_mul
]

fold_combined :
    (c d : ConstOperand) (op : BinOp)
    → IsCombined op
    → fold_int_binary op c d ≡ some (constant_of c.width (combined op (masked c) (masked d)))
unfolding fold_int_binary binary_bits
fold_combined c d op h =
    combined-cases
      (λ o. fold_int_binary o c d ≡ some (constant_of c.width (combined o (masked c) (masked d))))
      op h refl refl

module _ (x : ConstOperand) (width : ℕ) (narrow : width < 128) (op : BinOp) (is : IsCombined op)
    (inner : ConstOperand) (l r : ℕ) (l_lt : l < 2 ^ width) (r_lt : r < 2 ^ width) where
  masked_twice : (z : ℕ) → mask_to_width (mask_to_width z width) width ≡ z % 2 ^ width
  masked_twice z =
      mask_to_width-mod (mask_to_width z width) width narrow
      ∙ ap (λ (t : ℕ). t % 2 ^ width) (mask_to_width-mod z width narrow)
      ∙ mod-mod z (2 ^ width)

  regrouped :
      (w a i : ℕ)
      → w ≡ width
      → mask_to_width (combined op a i) w ≡ l
      → constant_of w (combined op a (mask_to_width (mask_to_width (combined op i r) width) width))
        ≡ constant_of width (combined op l r)
  unfolding constant_of
  regrouped w a i e_width e_l =
      let bits = combined op a (mask_to_width (mask_to_width (combined op i r) width) width) in
      let e_low : combined op a i % 2 ^ width ≡ l =
        sym (mask_to_width-mod (combined op a i) width narrow)
        ∙ ap (mask_to_width (combined op a i)) (sym e_width)
        ∙ e_l in
      ap (λ (t : ℕ). constant_of t bits) e_width
      ∙ ap (word width) (
          mask_to_width-mod bits width narrow
          ∙ ap (λ (t : ℕ). combined op a t % 2 ^ width) (masked_twice (combined op i r))
          ∙ sym (regroup-combined op width a i r narrow is)
          ∙ ap (λ (t : ℕ). combined op t r % 2 ^ width) e_low
          ∙ sym (mask_to_width-mod (combined op l r) width narrow))

  same_l : masked (word width l) ≡ l
  unfolding masked
  same_l = mask_to_width-lt l width narrow l_lt

  same_r : masked (word width r) ≡ r
  unfolding masked
  same_r = mask_to_width-lt r width narrow r_lt

  masked-word : (b : ℕ) → masked (word width b) ≡ mask_to_width b width
  unfolding masked
  masked-word b = refl

  outer :
      fold_int_binary op (word width l) (word width r) ≡ some (constant_of width (combined op l r))
  outer =
      fold_combined (word width l) (word width r) op is
      ∙ ap (λ (t : ℕ). some (constant_of width (combined op t (masked (word width r))))) same_l
      ∙ ap (λ (t : ℕ). some (constant_of width (combined op l t))) same_r

  pub reassociated-value :
      (a : Value)
      → Has x (Value.binary op a (Value.constant inner)) width l
      → value x (reassociated op a inner (word width r))
        ≡ value x (
            Value.binary op
              (Value.binary op a (Value.constant inner))
              (Value.constant (word width r)))
  unfolding value constant_of
  reassociated-value a h = elim (Option-cases (value x a)) [
    | inl e ↦ absurd (cc (rw e at h))
    | inr (c, e) ↦
        let folds : fold_int_binary op c inner ≡ some (word width l) = rw e at h in
        let made = some-injective _ _ (sym (fold_combined c inner op is) ∙ folds) in
        let bits = combined op (masked inner) (masked (word width r)) in
        rw (e, folds)
          (fold_combined c (word width (mask_to_width bits width)) op is
            ∙ ap (λ (t : ℕ). some (constant_of c.width (combined op (masked c) t)))
                (masked-word (mask_to_width bits width))
            ∙ ap
                (λ (t : ℕ). some (
                  constant_of c.width (
                    combined op (masked c)
                      (mask_to_width (mask_to_width (combined op (masked inner) t) width) width))))
                same_r
            ∙ ap some (
                regrouped c.width (masked c) (masked inner)
                  (ap (λ (k : ConstOperand). k.width) made)
                  (ap (λ (k : ConstOperand). k.bits) made))
            ∙ sym outer)
  ]

inner_constant-binary :
    (a : Value) (o : Option ConstOperand) (b : Value) (c : ConstOperand)
    → inner_constant a o ≡ some (b, c)
    → (a ≡ b) × (o ≡ some c)
inner_constant-binary a none b c e = cc
inner_constant-binary a (some d) b c e = elim (Bool-cases (is_const a)) [
  | inl h ↦ absurd (cc (rw h at e))
  | inr h ↦
      let pair = some-injective (a, d) (b, c) (rw h at e) in
      (
        ap (λ (t : Value × ConstOperand). t.0) pair,
        ap (λ (t : Value × ConstOperand). some t.1) pair,
      )
]

abbrev same_kind : BinOp → BinOp → Bool
same_kind op other = (is_add op && is_add other) || (is_mul op && is_mul other)

same_kind-op : (op other : BinOp) → IsCombined op → same_kind op other ≡ true → other ≡ op
same_kind-op op other is =
    combined-cases (λ o. same_kind o other ≡ true → other ≡ o) op is
      (λ h. elim (Bool-cases (is_add other)) [
        | inl add ↦ is_add-op other add
        | inr apart ↦ absurd (cc (rw apart at h))
      ])
      (λ h. is_mul-op other h)

-- The inner operation is of the same kind, on the operand and the constant.
pub inner_operands-binary :
    (op : BinOp) (lhs a : Value) (c : ConstOperand)
    → IsCombined op
    → inner_operands op lhs ≡ some (a, c)
    → lhs ≡ Value.binary op a (Value.constant c)
unfolding inner_operands
inner_operands-binary op Value.dividend a c is e = cc
inner_operands-binary op (Value.constant d) a c is e = cc
inner_operands-binary op (Value.cast o w v) a c is e = cc
inner_operands-binary op (Value.icmp p u v) a c is e = cc
inner_operands-binary op (Value.binary other u v) a c is e =
    elim (Bool-cases (same_kind op other)) [
      | inl h ↦
          let (e_u, e_v) = inner_constant-binary u (as_const_operand v) a c (rw h at e) in
          ap (λ (o : BinOp). Value.binary o u v) (same_kind-op op other is h)
          ∙ ap (λ (t : Value). Value.binary op t v) e_u
          ∙ ap (Value.binary op a) (as_const_operand-constant v c e_v)
      | inr h ↦ absurd (cc (rw h at e))
    ]
