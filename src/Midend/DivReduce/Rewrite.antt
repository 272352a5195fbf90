-- ===== src/Midend/DivReduce/Rewrite.antt =====
-- crates/pliron-ll/src/passes/llvm/div_strength_reduce.rs, `rewrite_div`: the value that replaces
-- an unsigned division, and which operations are left as they are.
use mathlib.Core.Path.{subst}
use native.Mathlib.Nat.{div-one, mod-one, mod-le, div-le_self, pow-le-pow_right, one-le-pow}
use native.Mathlib.Decide.{ℕ_discrete}
use crabbit.Prelude.{ℕ, ◌/◌, ◌%◌, ◌^◌, ◌≤◌, ◌<◌, ◌≡◌, refl, ◌∙◌, sym, ap, arith}
use crabbit.Prelude.{◌≢◌, ◌⊎◌, inl, inr, true, false, some, if◌then◌else◌}
use crabbit.Prelude.{◌==◌}
use crabbit.Midend.Const.{masked}
use crabbit.Midend.Const.Laws.{mask_to_width-lt}
use crabbit.Midend.Fold.{Value, BinOp, CastOp, value, fold_int_binary, binary_bits, constant_of}
use crabbit.Midend.DivReduce.{
  DivKind, kind_signed, kind_rem, div_kind, is_reduced_width, rewrite_constant, rewrite_div,
  emit_const, expand,
}
use crabbit.Midend.DivReduce.Emit.{Has, word, value-const, value-zext, value-trunc}
use crabbit.Midend.DivReduce.Unsigned.{unsigned_result, value-expand_unsigned}

unsigned_result-le : (kind : DivKind) (v d : ℕ) → unsigned_result kind v d ≤ v
unsigned_result-le DivKind.u_div v d = div-le_self v d
unsigned_result-le DivKind.u_rem v d = mod-le v d
unsigned_result-le DivKind.s_div v d = omega arith
unsigned_result-le DivKind.s_rem v d = omega arith

-- The widths that the pass reduces.
reduced_cases :
    (width : ℕ)
    → is_reduced_width width ≡ true
    → ((width ≡ 8) ⊎ (width ≡ 16)) ⊎ ((width ≡ 32) ⊎ (width ≡ 64))
reduced_cases width h = ground arith

==-zero : (d : ℕ) → 0 < d → (d == 0) ≡ false
==-zero d pos = ground arith

-- Division by one keeps the dividend, and leaves no remainder.
value-one :
    (kind : DivKind)
    → kind_signed kind ≡ false
    → (width v d : ℕ) → 0 < width
    → width < 128
    → d ≡ 1
    → Has (word width v) Value.dividend width v
    → Has
        (word width v)
        (if kind_rem kind then emit_const width 0 else Value.dividend)
        width
        (unsigned_result kind v d)
value-one DivKind.u_div u width v d pos narrow e here =
    subst (λ (n : ℕ). Has (word width v) Value.dividend width n)
      (sym (div-one v) ∙ ap (λ (t : ℕ). v / t) (sym e)) here
value-one DivKind.u_rem u width v d pos narrow e here =
    subst (λ (n : ℕ). Has (word width v) (emit_const width 0) width n)
      (sym (mod-one v) ∙ ap (λ (t : ℕ). v % t) (sym e))
      (value-const (word width v) width 0 narrow (one-le-pow width 2 (omega arith)))
value-one DivKind.s_div u width v d pos narrow e here = cc
value-one DivKind.s_rem u width v d pos narrow e here = cc

module _ (kind : DivKind) (unsigned : kind_signed kind ≡ false) (width v d : ℕ)
    (reduced : is_reduced_width width ≡ true) (d_pos : 0 < d) (d_lt : d < 2 ^ width)
    (v_lt : v < 2 ^ width) where
  narrow : width < 128
  narrow = omega (arith, reduced_cases width reduced)

  divisor_masked : masked (word width d) ≡ d
  unfolding masked
  divisor_masked = mask_to_width-lt d width narrow d_lt

  here : Has (word width v) Value.dividend width v
  unfolding value
  here = refl

  -- The replacement exists and has the result for its value.
  abbrev Replaced : Type 0
  Replaced =
      (r : Value) × (rewrite_constant kind Value.dividend (word width d) ≡ some r)
      × Has (word width v) r width (unsigned_result kind v d)

  branch_one :
      d ≡ 1
      → rewrite_constant kind Value.dividend (word width d)
        ≡ some (if kind_rem kind then emit_const width 0 else Value.dividend)
  unfolding rewrite_constant
  branch_one e = ground (arith, divisor_masked)

  branch_wide :
      d ≢ 1
      → (width ≡ 32) ⊎ (width ≡ 64)
      → rewrite_constant kind Value.dividend (word width d)
        ≡ some (expand kind width Value.dividend d)
  unfolding rewrite_constant
  branch_wide ne w = ground (arith, divisor_masked)

  branch_narrow :
      d ≢ 1
      → (width ≡ 8) ⊎ (width ≡ 16)
      → rewrite_constant kind Value.dividend (word width d)
        ≡ some (
            Value.cast CastOp.trunc width
              (expand kind 32 (Value.cast CastOp.zext 32 Value.dividend) d))
  unfolding rewrite_constant
  branch_narrow ne w = ground (arith, divisor_masked)

  by_one : d ≡ 1 → Replaced
  by_one e = (
    _,
    branch_one e,
    value-one kind unsigned width v d (omega (arith, reduced_cases width reduced)) narrow e here,
  )

  by_wide : d ≢ 1 → (width ≡ 32) ⊎ (width ≡ 64) → Replaced
  by_wide ne w = (
    _,
    branch_wide ne w,
    value-expand_unsigned kind unsigned (word width v) width w Value.dividend v d here v_lt
        (omega arith) d_lt,
  )

  by_narrow : d ≢ 1 → (width ≡ 8) ⊎ (width ≡ 16) → Replaced
  by_narrow ne w =
      let x = word width v in
      let small : 2 ^ width ≤ 2 ^ 32 =
        pow-le-pow_right {n = 2} (omega arith) {i = width} {j = 32} (omega arith) in
      let wide =
        value-zext x width narrow Value.dividend v here v_lt 32 (omega arith) (omega arith) in
      let result =
        value-expand_unsigned kind unsigned x 32 (inl refl) _ v d wide (omega (arith, small))
          (omega arith) (omega (arith, small)) in
      let le = unsigned_result-le kind v d in
      (
        _,
        branch_narrow ne w,
        value-trunc x 32 (omega arith) _ (unsigned_result kind v d) result
            (omega (arith, small, le)) width narrow (omega (arith, le)),
      )

  replaced : Replaced
  replaced = elim (ℕ_discrete d 1) [
    | yes e ↦ by_one e
    | no ne ↦ elim (reduced_cases width reduced) [ inl w ↦ by_narrow ne w | inr w ↦ by_wide ne w ]
  ]

-- What the division itself folds to.
module _ (width v d : ℕ) (narrow : width < 128) (pos : 0 < d) (d_lt : d < 2 ^ width)
    (v_lt : v < 2 ^ width) where
  folded_udiv : fold_int_binary BinOp.udiv (word width v) (word width d) ≡ some (word width (v / d))
  unfolding fold_int_binary binary_bits constant_of masked
  folded_udiv =
      let out : v / d < 2 ^ width = omega (arith, div-le_self v d) in
      rw
        (
          mask_to_width-lt v width narrow v_lt,
          mask_to_width-lt d width narrow d_lt,
          ==-zero d pos,
          mask_to_width-lt (v / d) width narrow out,
        )
        refl

  folded_urem : fold_int_binary BinOp.urem (word width v) (word width d) ≡ some (word width (v % d))
  unfolding fold_int_binary binary_bits constant_of masked
  folded_urem =
      let out : v % d < 2 ^ width = omega (arith, mod-le v d) in
      rw
        (
          mask_to_width-lt v width narrow v_lt,
          mask_to_width-lt d width narrow d_lt,
          ==-zero d pos,
          mask_to_width-lt (v % d) width narrow out,
        )
        refl

  folded :
      (op : BinOp) (kind : DivKind)
      → div_kind op ≡ some kind
      → kind_signed kind ≡ false
      → fold_int_binary op (word width v) (word width d)
        ≡ some (word width (unsigned_result kind v d))
  folded BinOp.udiv DivKind.u_div e u = folded_udiv
  folded BinOp.urem DivKind.u_rem e u = folded_urem
  folded BinOp.add kind e u = cc
  folded BinOp.sub kind e u = cc
  folded BinOp.mul kind e u = cc
  folded BinOp.and kind e u = cc
  folded BinOp.or kind e u = cc
  folded BinOp.xor kind e u = cc
  folded BinOp.shl kind e u = cc
  folded BinOp.lshr kind e u = cc
  folded BinOp.ashr kind e u = cc
  folded BinOp.udiv DivKind.u_rem e u = cc
  folded BinOp.udiv DivKind.s_div e u = cc
  folded BinOp.udiv DivKind.s_rem e u = cc
  folded BinOp.urem DivKind.u_div e u = cc
  folded BinOp.urem DivKind.s_div e u = cc
  folded BinOp.urem DivKind.s_rem e u = cc
  folded BinOp.sdiv DivKind.u_div e u = cc
  folded BinOp.sdiv DivKind.u_rem e u = cc
  folded BinOp.sdiv DivKind.s_div e u = cc
  folded BinOp.sdiv DivKind.s_rem e u = cc
  folded BinOp.srem DivKind.u_div e u = cc
  folded BinOp.srem DivKind.u_rem e u = cc
  folded BinOp.srem DivKind.s_div e u = cc
  folded BinOp.srem DivKind.s_rem e u = cc

-- An unsigned division or remainder of any value by any constant other than zero, at 8, 16, 32
-- and 64 bits, is replaced, and the replacement folds to what the operation itself folds to.
pub rewrite_div-value :
    (op : BinOp) (kind : DivKind)
    → div_kind op ≡ some kind
    → kind_signed kind ≡ false
    → (width v d : ℕ) → is_reduced_width width ≡ true
    → 0 < d
    → d < 2 ^ width
    → v < 2 ^ width
    → (r : Value) × (rewrite_div op Value.dividend (Value.constant (word width d)) ≡ some r)
      × (value (word width v) r
          ≡ value (word width v) (Value.binary op Value.dividend (Value.constant (word width d))))
unfolding rewrite_div value
rewrite_div-value op kind e u width v d reduced pos d_lt v_lt =
    let narrow : width < 128 = omega (arith, reduced_cases width reduced) in
    let (r, found, has) = replaced kind u width v d reduced pos d_lt v_lt in
    (r, rw e found, has ∙ sym (folded width v d narrow pos d_lt v_lt op kind e u))
