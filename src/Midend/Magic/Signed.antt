-- ===== src/Midend/Magic/Signed.antt =====
-- crates/pliron-ll/src/passes/llvm/div_strength_reduce.rs, `magic_signed` of a positive divisor:
-- the loop ends by its test, and what it ends with divides.
use native.Mathlib.Nat.{
  div-add-mod', mod-lt, div-mul-le_self, le-div_iff_mul-le, mod-eq_of_lt, one-le-pow, div-eq_of_lt,
}
use crabbit.Prelude.{ℕ, ◌+◌, ◌-◌, ◌*◌, ◌/◌, ◌%◌, ◌^◌, ◌≤◌, ◌<◌, ◌≡◌, refl, ap, sym, ◌∙◌, arith, leb}
use mathlib.Core.Path.{subst}
use crabbit.Prelude.{false}
use crabbit.Prelude.Bits.{bit_and_mask}
use crabbit.Midend.Const.{sign_extend, is_negative, unsigned_abs}
use crabbit.Midend.Magic.{Search, signed_loop, signed_anc, signed_start, magic_signed}
use crabbit.Midend.Magic.Loop.{two_pow-add}
use crabbit.Midend.Magic.Correct.{multiplier_divides}
use crabbit.Midend.Magic.Exact.{two_pow-pred, mask}
use crabbit.Midend.Magic.Rounds.{Divides, Ended, scale, loop-Ended}

module _ (d width : ℕ) (w_pos : 0 < width) (w_lt : width < 128) (d_ge : 2 ≤ d)
    (d_lt : d < 2 ^ (width - 1)) where
  abbrev h : ℕ
  h = 2 ^ (width - 1)

  abbrev nc : ℕ
  nc = h - 1 - h % d

  nc-lem : nc + 1 ≡ h / d * d
  nc-lem = omega (arith, div-add-mod' h d, mod-lt h {m = d} (omega arith), d_lt)

  nc_top : h < nc + 1 + d
  nc_top = omega (arith, nc-lem, div-add-mod' h d, mod-lt h {m = d} (omega arith))

  d_le : d ≤ nc + 1
  d_le =
      let one : 1 ≤ h / d =
        (le-div_iff_mul-le {k = d} {x = 1} {y = h} (omega arith)).1 (omega (arith, d_lt)) in
      omega (arith, nc-lem, scale 1 (h / d) d one)

  -- The state that the loop ends with.
  abbrev final : Search
  final = signed_loop (2 * width) d nc (signed_start width d nc)

  start-Divides : Divides d nc h (signed_start width d nc)
  unfolding signed_start
  start-Divides = record {
    first = omega (arith, div-mul-le_self h nc);
    first_lt = omega (arith, div-add-mod' h nc, mod-lt h {m = nc} (omega (arith, d_le, d_ge)));
    second = omega (arith, div-mul-le_self h d);
    second_lt = omega (arith, div-add-mod' h d, mod-lt h {m = d} (omega arith));
  }

  start-p : (signed_start width d nc).p ≡ width - 1
  unfolding signed_start
  start-p = refl

  final-Ended : Ended d nc h width final
  final-Ended =
      let p = start-p in
      let start_low : h ≤ d * (h - 1) = omega (arith, scale 2 d (h - 1) d_ge, d_ge, d_lt) in
      let square : 2 ^ (2 * width + (width - 1)) ≡ 2 ^ (2 * width) * h =
        two_pow-add (2 * width) (width - 1) in
      let word : 2 ^ width ≡ 2 * h = two_pow-pred width w_pos in
      let both : 2 ^ (2 * width) ≡ 2 ^ width * 2 ^ width =
        ap (λ (n : ℕ). 2 ^ n) (omega arith) ∙ two_pow-add width width in
      let enough : d * (h - 1) < 2 ^ (2 * width + (width - 1)) =
        rw (square, both, word) (below h d (omega (arith, d_ge, d_lt)) d_lt) in
      loop-Ended d nc h width (omega arith) (omega (arith, d_ge, d_lt)) (omega (arith, nc-lem))
        (2 * width) (signed_start width d nc)
        (subst (λ (n : ℕ). Divides d nc (2 ^ n) (signed_start width d nc)) (sym p) start-Divides)
        (subst (λ (n : ℕ). 2 ^ n ≤ d * (h - 1)) (sym p) start_low) (omega (arith, p))
        (subst (λ (n : ℕ). d * (h - 1) < 2 ^ (2 * width + n)) (sym p) enough)
    where
      below : (h d : ℕ) → 0 < h → d < h → d * (h - 1) < 2 * h * (2 * h) * h
      below h d pos lt =
          let one : d * (h - 1) ≤ h * h = grind arith in
          let two : 1 * (h * h) ≤ 4 * h * (h * h) = scale 1 (4 * h) (h * h) (omega arith) in
          grind arith

  below_sign : d < 2 ^ 127
  below_sign =
      let e : 127 ≡ 128 - width + (width - 1) = omega arith in
      let power : 2 ^ 127 ≡ 2 ^ (128 - width) * h =
        ap (λ (n : ℕ). 2 ^ n) e ∙ two_pow-add (128 - width) (width - 1) in
      let more = scale 1 (2 ^ (128 - width)) h (one-le-pow (128 - width) 2 (omega arith)) in
      omega (arith, power, more, d_lt)

  magic_signed-final :
      magic_signed d width
      ≡ record { multiplier = sign_extend (final.q2 + 1) width; shift = final.p - width }
  unfolding magic_signed unsigned_abs is_negative signed_anc
  magic_signed-final =
      let positive : leb (2 ^ 127) d ≡ false = not_leb (2 ^ 127) d below_sign in
      let word : 2 ^ width ≡ 2 * h = two_pow-pred width w_pos in
      let whole : d % 2 ^ width ≡ d = mod-eq_of_lt (omega (arith, word, d_lt)) in
      let no_sign : d / h ≡ 0 = div-eq_of_lt d_lt in
      let no_more : h + 0 ≡ h = omega arith in
      let fits : (final.q2 + 1) % 2 ^ width ≡ final.q2 + 1 =
        mod-eq_of_lt (omega (arith, word, final-Ended.small)) in
      rw
        (
          positive,
          mask d width w_pos w_lt,
          bit_and_mask width d,
          whole,
          no_sign,
          no_more,
          bit_and_mask width (final.q2 + 1),
          fits,
        )
        refl
    where
      not_leb : (a b : ℕ) → b < a → leb a b ≡ false
      not_leb a b lt = ground arith

-- For a positive divisor that is at least two and fits the word, the multiplier that
-- `magic_signed` returns is the sign extension of a word, by which a number below the sign, shifted
-- down by the width and `shift`, is divided by the divisor.
pub magic_signed-quotient :
    (d width x : ℕ)
    → 0 < width
    → width < 128
    → 2 ≤ d
    → d < 2 ^ (width - 1)
    → x < 2 ^ (width - 1)
    → (m : ℕ) × (m < 2 ^ width)
      × ((magic_signed d width).multiplier ≡ sign_extend m width)
      × (x * m / 2 ^ (width + (magic_signed d width).shift) ≡ x / d)
magic_signed-quotient d width x w_pos w_lt d_ge d_lt lt =
    let s = final d width w_pos w_lt d_ge d_lt in
    let ended = final-Ended d width w_pos w_lt d_ge d_lt in
    let e = magic_signed-final d width w_pos w_lt d_ge d_lt in
    let word = two_pow-pred width w_pos in
    let power : width + (s.p - width) ≡ s.p = omega (arith, ended.above) in
    (
      s.q2 + 1,
      omega (arith, word, ended.small),
      rw e refl,
      rw (e, power)
          (multiplier_divides d (h d width w_pos w_lt d_ge d_lt) (nc d width w_pos w_lt d_ge d_lt)
            (h d width w_pos w_lt d_ge d_lt / d) (omega arith) (nc-lem d width w_pos w_lt d_ge d_lt)
            (nc_top d width w_pos w_lt d_ge d_lt) (d_le d width w_pos w_lt d_ge d_lt) (s.q2 + 1)
            (2 ^ s.p) (d - s.r2) (omega (arith, ended.divides.second, ended.divides.second_lt))
            ended.exact x lt),
    )
