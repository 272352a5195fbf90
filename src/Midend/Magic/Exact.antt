-- ===== src/Midend/Magic/Exact.antt =====
-- crates/pliron-ll/src/passes/llvm/div_strength_reduce.rs, `magic_unsigned`: the numbers that it
-- returns, as a claim about every dividend.
use native.Mathlib.Nat.{
  div-add-mod', mod-lt, div-mul-le_self, div-le_self, one-le-pow, mod-eq-sub-mod, mod-eq_of_lt,
  le-div_iff_mul-le, pow-suc,
}
use crabbit.Prelude.{
  ℕ, zero, suc, ◌+◌, ◌-◌, ◌*◌, ◌/◌, ◌%◌, ◌^◌, ◌≤◌, ◌<◌, ◌≡◌, refl, ap, sym, ◌∙◌, arith,
}
use mathlib.Core.Path.{subst}
use crabbit.Prelude.{true, false, if◌then◌else◌, ◌≢◌, Bool-cases, inl, inr}
use crabbit.Prelude.Bits.{bit_and_mask, mod_unique}
use crabbit.Midend.Const.{mask_to_width}
use crabbit.Midend.Const.Laws.{mask_to_width-mod}
use crabbit.Midend.Magic.{
  Search, UnsignedMagic, unsigned_loop, unsigned_nc, unsigned_start, magic_unsigned,
}
use crabbit.Midend.Magic.Unsigned.{Divides}
use crabbit.Midend.Magic.Loop.{Found, loop-Found, two_pow-add}
use crabbit.Midend.Magic.Correct.{found_divides}

-- The multiplier with its top bit, which the word has no room for.
abbrev pub full_multiplier : ℕ → UnsignedMagic → ℕ
full_multiplier width m = m.multiplier + (if m.add then 2 ^ width else 0)

pub record IsMagic (d width : ℕ) (m : UnsignedMagic) : Type 0 where
  pub exact : (x : ℕ) → x < 2 ^ width → x * full_multiplier width m / 2 ^ (width + m.shift) ≡ x / d
  pub fits : m.multiplier < 2 ^ width
  pub shift_narrow : m.add ≡ false → m.shift < width
  pub shift_wide : m.add ≡ true → (1 ≤ m.shift) × (m.shift ≤ width)

unsigned_nc-lem : (d n : ℕ) → 0 < d → d < n → unsigned_nc d (n - 1) + 1 ≡ n / d * d
unfolding unsigned_nc
unsigned_nc-lem d n pos lt =
    let e : n - 1 - d + 1 ≡ n - d = omega arith in
    rw (e, sym (mod-eq-sub-mod {n = n} {m = d} (omega arith)))
      (omega (arith, div-add-mod' n d, mod-lt n pos))

unsigned_start-Divides :
    (d width h nc : ℕ)
    → 0 < h
    → 0 < d
    → 0 < nc
    → Divides d (2 * h) nc h (unsigned_start d width h nc)
unfolding unsigned_start
unsigned_start-Divides d width h nc h_pos d_pos nc_pos = record {
  first = omega (arith, div-mul-le_self h nc);
  first_lt = omega (arith, div-add-mod' h nc, mod-lt h nc_pos);
  second = omega (arith, div-mul-le_self (h - 1) d);
  second_lt = omega (arith, div-add-mod' (h - 1) d, mod-lt (h - 1) d_pos);
  wide = ground arith;
  narrow = λ _. omega (arith, div-le_self (h - 1) d);
}

pub two_pow-pred : (width : ℕ) → 0 < width → 2 ^ width ≡ 2 * 2 ^ (width - 1)
two_pow-pred zero h = absurd (omega arith)
two_pow-pred (suc w) h = let e : suc w - 1 ≡ w = omega arith in rw e (omega (arith, pow-suc 2 w))

-- The state that the loop of `magic_unsigned` ends with.
abbrev final : ℕ → ℕ → Search
final d width =
    let h = 2 ^ (width - 1) in
    let nc = unsigned_nc d (2 ^ width - 1) in
    unsigned_loop (width + 1) d width h nc (unsigned_start d width h nc)

scale : (a b c : ℕ) → a ≤ b → a * c ≤ b * c
scale a b c h = grind arith

module _ (d width : ℕ) (w_pos : 0 < width) (d_ge : 2 ≤ d) (d_lt : d < 2 ^ width) where
  nc-lem : unsigned_nc d (2 ^ width - 1) + 1 ≡ 2 ^ width / d * d
  nc-lem = unsigned_nc-lem d (2 ^ width) (omega arith) d_lt

  nc_top : 2 ^ width < unsigned_nc d (2 ^ width - 1) + 1 + d
  nc_top =
      omega (arith, nc-lem, div-add-mod' (2 ^ width) d, mod-lt (2 ^ width) {m = d} (omega arith))

  nc_lt : unsigned_nc d (2 ^ width - 1) < 2 ^ width
  nc_lt = omega (arith, nc-lem, div-mul-le_self (2 ^ width) d)

  start-p : (unsigned_start d width (2 ^ (width - 1)) (unsigned_nc d (2 ^ width - 1))).p ≡ width - 1
  unfolding unsigned_start
  start-p = refl

  d_le : d ≤ unsigned_nc d (2 ^ width - 1) + 1
  d_le =
      let one : 1 ≤ 2 ^ width / d =
        (le-div_iff_mul-le {k = d} {x = 1} {y = 2 ^ width} (omega arith)).1 (omega arith) in
      omega (arith, nc-lem, scale 1 (2 ^ width / d) d one)

  final-Found : Found d (2 ^ width) (unsigned_nc d (2 ^ width - 1)) width (final d width)
  unfolding unsigned_start
  final-Found =
      let h = 2 ^ (width - 1) in
      let word : 2 ^ width ≡ 2 * h = two_pow-pred width w_pos in
      let nc = unsigned_nc d (2 ^ width - 1) in
      let h_pos : 0 < h = one-le-pow (width - 1) 2 (omega arith) in
      subst (λ n. Found d n nc width (final d width)) (sym word)
        (loop-Found d h nc width h_pos d_ge (omega (arith, word)) (omega (arith, word, nc_lt)) word
          (width + 1) 1 (unsigned_start d width h nc)
          (rw start-p
            (unsigned_start-Divides d width h nc h_pos (omega arith) (omega (arith, d_le))))
          (rw start-p (omega arith)) (omega arith) (rw start-p (omega arith))
          (rw start-p (omega arith)) (rw start-p (omega arith)))

-- The multiplier keeps the low bits, and the flag the top bit.
keep_wide : (n m : ℕ) → n ≤ m → m < 2 * n → m % n + n ≡ m
keep_wide n m wide small = omega (arith, mod_unique 1 n (m - n) {a = m} (omega arith) (omega arith))

-- Without the top bit the shift is below the width; with it the shift is at least one.
shift_lt :
    (q2 d r2 n power : ℕ) → q2 * d + r2 + 1 ≡ power → r2 < d → d < n → q2 + 1 < n → power ≢ n * n
shift_lt q2 d r2 n power e hr hd narrow square =
    absurd
      (omega (arith, scale (q2 + 2) n d (omega arith), scale (d + 1) n n (omega arith), square))

shift_pos : (q2 d r2 n power : ℕ) → q2 * d + r2 + 1 ≡ power → 2 ≤ d → 2 ≤ n → n ≤ q2 + 1 → power ≢ n
shift_pos q2 d r2 n power e hd hn wide same =
    absurd (omega (arith, scale n (q2 + 1) d wide, scale 2 d n hd, scale 2 n d hn, same))

top_mask : (a b : ℕ) → 0 < a → 0 < b → (a * b - 1) % b ≡ b - 1
top_mask zero b ha hb = absurd (omega arith)
top_mask (suc a) b ha hb = mod_unique a b (b - 1) (omega arith) (omega arith)

module _ (d width : ℕ) (w_pos : 0 < width) (w_lt : width < 128) where
  top_power : 128 ≡ 128 - width + width → 2 ^ 128 ≡ 2 ^ (128 - width) * 2 ^ width
  top_power e = ap (λ (t : ℕ). 2 ^ t) e ∙ two_pow-add (128 - width) width

  pub mask : mask_to_width (2 ^ 128 - 1) width ≡ 2 ^ width - 1
  mask =
      let e : 128 ≡ 128 - width + width = omega arith in
      mask_to_width-mod (2 ^ 128 - 1) width w_lt
      ∙ ap (λ (t : ℕ). (t - 1) % 2 ^ width) (top_power e)
      ∙ (top_mask (2 ^ (128 - width)) (2 ^ width) (one-le-pow (128 - width) 2 (omega arith))
          (one-le-pow width 2 (omega arith)))

  magic_unsigned-final : magic_unsigned d width ≡ record {
    multiplier = ((final d width).q2 + 1) % 2 ^ width;
    shift = (final d width).p - width;
    add = (final d width).add;
  }
  unfolding magic_unsigned
  magic_unsigned-final = rw (mask, bit_and_mask) refl

module _ (d nc width : ℕ) (w_pos : 0 < width) (d_ge : 2 ≤ d) (d_lt : d < 2 ^ width) (s : Search)
    (found : Found d (2 ^ width) nc width s)
    (divides : (x : ℕ) → x < 2 ^ width → x * (s.q2 + 1) / 2 ^ s.p ≡ x / d) where
  whole : (s.q2 + 1) % 2 ^ width + (if s.add then 2 ^ width else 0) ≡ s.q2 + 1
  whole = elim (Bool-cases s.add) [
    | inl wide ↦ rw wide (keep_wide (2 ^ width) (s.q2 + 1) (found.divides.wide wide) found.small)
    | inr narrow ↦
        rw narrow
          (omega (arith, mod-eq_of_lt {n = s.q2 + 1} {m = 2 ^ width} (found.divides.narrow narrow)))
  ]

  not_full : s.add ≡ false → s.p ≢ 2 * width
  not_full narrow full =
      let e : s.p ≡ width + width = omega (arith, full) in
      shift_lt s.q2 d s.r2 (2 ^ width) (2 ^ s.p) found.divides.second found.divides.second_lt d_lt
        (found.divides.narrow narrow) (ap (λ (t : ℕ). 2 ^ t) e ∙ two_pow-add width width)

  not_zero : s.add ≡ true → s.p ≢ width
  not_zero wide e =
      shift_pos s.q2 d s.r2 (2 ^ width) (2 ^ s.p) found.divides.second d_ge (omega arith)
        (found.divides.wide wide) (ap (λ (t : ℕ). 2 ^ t) e)

  power : width + (s.p - width) ≡ s.p
  power = omega (arith, found.above)

  Found-IsMagic :
      IsMagic d width
        (record { multiplier = (s.q2 + 1) % 2 ^ width; shift = s.p - width; add = s.add })
  Found-IsMagic = record {
    exact = λ x h. rw (whole, power) (divides x h);
    fits = mod-lt _ (one-le-pow width 2 (omega arith));
    shift_narrow = λ narrow. omega (arith, not_full narrow, found.below, found.above);
    shift_wide = λ wide. omega (arith, not_zero wide, found.below, found.above);
  }

-- For a divisor that fits the word, the numbers that `magic_unsigned` returns divide every number
-- of the word, the multiplier fits the word, and the shift is one that the sequences can make.
pub magic_unsigned-IsMagic :
    (d width : ℕ)
    → 0 < width
    → width < 128
    → 2 ≤ d
    → d < 2 ^ width
    → IsMagic d width (magic_unsigned d width)
magic_unsigned-IsMagic d width w_pos w_lt d_ge d_lt =
    let found = final-Found d width w_pos d_ge d_lt in
    rw (magic_unsigned-final d width w_pos w_lt) (
      Found-IsMagic d (unsigned_nc d (2 ^ width - 1)) width w_pos d_ge d_lt (final d width) found (
        found_divides d (2 ^ width) (unsigned_nc d (2 ^ width - 1)) (2 ^ width / d) width
          (final d width) (omega arith) found (nc-lem d width w_pos d_ge d_lt)
          (nc_top d width w_pos d_ge d_lt) (d_le d width w_pos d_ge d_lt)))

-- For a divisor that fits the word and is at least two, the multiplier that `magic_unsigned`
-- returns fits the word, and a number of the word times the multiplier, with the extra bit where
-- `add` says so, shifted down by the width and `shift`, is the number divided by the divisor.
pub magic_unsigned-quotient :
    (d width x : ℕ)
    → 0 < width
    → width < 128
    → 2 ≤ d
    → d < 2 ^ width
    → x < 2 ^ width
    → ((magic_unsigned d width).multiplier < 2 ^ width)
      × (x
            * full_multiplier width (magic_unsigned d width)
            / 2 ^ (width + (magic_unsigned d width).shift)
          ≡ x / d)
magic_unsigned-quotient d width x w_pos w_lt d_ge d_lt x_lt =
    let magic = magic_unsigned-IsMagic d width w_pos w_lt d_ge d_lt in
    (magic.fits, magic.exact x x_lt)
