-- ===== src/Prelude/Bits.antt =====
-- `|`, `&` and `^` of words as arithmetic, at every width.
use Prim.Native.Nat.{
  ℕ, zero, suc, ◌+◌, ◌-◌, ◌*◌, ◌/◌, ◌%◌, ◌^◌, ◌≤◌, ◌<◌, min, max, digits, bit_and, bit_or,
  bit_and-bitwise, bit_or-bitwise, bit_xor, bit_xor-bitwise, differ,
}
use mathlib.Core.Path.{◌≡◌, refl, ap, sym, ◌∙◌}
use native.Mathlib.Nat.{pow-suc, one-le-pow, mul-one, add-zero}
use native.Mathlib.Nat.{mul-add-mod_self_right, mod-eq_of_lt, mod-lt, div-add-mod', div-eq_of_lt-le}
use native.Mathlib.Omega.{arith}

-- Fuel that is left over.
surplus : ℕ → ℕ → ℕ
surplus zero fuel = fuel
surplus (suc k) fuel = suc (surplus k fuel)

surplus-add : (k fuel : ℕ) → surplus k fuel ≡ k + fuel
unfolding surplus
surplus-add zero fuel = omega arith
surplus-add (suc k) fuel = omega (arith, surplus-add k fuel)

-- The recursion on digits ends before its fuel, once that covers the left operand.
module _ (single : ℕ → ℕ) (pair : ℕ → ℕ → ℕ) where
  one_spare :
      (fuel x y : ℕ) → x ≤ fuel → digits single pair (suc fuel) x y ≡ digits single pair fuel x y
  one_spare zero (suc x) y le = absurd (omega arith)
  one_spare (suc fuel) (suc x) y le = rw (one_spare fuel (suc x / 2) (y / 2) (omega arith)) refl
  one_spare zero zero y le = refl
  one_spare (suc fuel) zero y le = refl

  spare :
      (k fuel x y : ℕ)
      → x ≤ fuel
      → digits single pair (surplus k fuel) x y ≡ digits single pair fuel x y
  unfolding surplus
  spare zero fuel x y le = refl
  spare (suc k) fuel x y le =
      one_spare (surplus k fuel) x y (omega (arith, surplus-add k fuel)) ∙ spare k fuel x y le

  half_fuel :
      (x y : ℕ) → digits single pair x (suc x / 2) y ≡ digits single pair (suc x / 2) (suc x / 2) y
  half_fuel x y =
      let k = x - suc x / 2 in
      let whole : x ≡ surplus k (suc x / 2) = omega (arith, surplus-add k (suc x / 2)) in
      ap (λ (fuel : ℕ). digits single pair fuel (suc x / 2) y) whole
      ∙ spare k (suc x / 2) (suc x / 2) y (omega arith)

-- The lowest digit of `|` and of `&`, apart from the others.
pub bit_or_step : (x y : ℕ) → bit_or x y ≡ max (x % 2) (y % 2) + 2 * bit_or (x / 2) (y / 2)
bit_or_step (suc x) y = simp bit_or-bitwise (omega (arith, half_fuel (λ t. t) max x (y / 2)))
bit_or_step zero y = simp bit_or-bitwise (omega arith)

pub bit_and_step : (x y : ℕ) → bit_and x y ≡ min (x % 2) (y % 2) + 2 * bit_and (x / 2) (y / 2)
bit_and_step (suc x) y = simp bit_and-bitwise (omega (arith, half_fuel (λ t. zero) min x (y / 2)))
bit_and_step zero y = simp bit_and-bitwise (omega arith)

pub bit_xor_step : (x y : ℕ) → bit_xor x y ≡ differ (x % 2) (y % 2) + 2 * bit_xor (x / 2) (y / 2)
bit_xor_step (suc x) y = simp bit_xor-bitwise (omega (arith, half_fuel (λ t. t) differ x (y / 2)))
bit_xor_step zero y = simp bit_xor-bitwise (omega arith)

le_zero : (a : ℕ) → a < 2 ^ 0 → a ≡ 0
le_zero a h = omega arith

mul-two_pow : (q k : ℕ) → q * 2 ^ suc k ≡ 2 * (q * 2 ^ k)
mul-two_pow q k = omega (arith, ap (λ (t : ℕ). q * t) (pow-suc 2 k))

-- The operations act on the words above and below any digit separately.
pub bit_or_split :
    (k a b c d : ℕ)
    → b < 2 ^ k
    → d < 2 ^ k
    → bit_or (a * 2 ^ k + b) (c * 2 ^ k + d) ≡ bit_or a c * 2 ^ k + bit_or b d
bit_or_split zero a b c d hb hd =
    rw (le_zero b hb, le_zero d hd, mul-one a, mul-one c, add-zero a, add-zero c) (omega arith)
bit_or_split (suc k) a b c d hb hd = ground (
  arith,
  bit_or_step (a * 2 ^ suc k + b) (c * 2 ^ suc k + d),
  bit_or_step b d,
  mul-two_pow a k,
  mul-two_pow c k,
  mul-two_pow (bit_or a c) k,
  bit_or_split k a (b / 2) c (d / 2) (omega (arith, pow-suc 2 k)) (omega (arith, pow-suc 2 k)),
)

below-bit_or-zero : (bound x : ℕ) → x < bound → bit_or x 0 ≡ x
below-bit_or-zero (suc bound) (suc x) lt =
    omega (arith, below-bit_or-zero bound (suc x / 2) (omega arith), bit_or_step (suc x) 0)
below-bit_or-zero (suc bound) zero lt = refl
below-bit_or-zero zero x lt = absurd (omega arith)

pub bit_or-zero : (x : ℕ) → bit_or x 0 ≡ x
bit_or-zero x = below-bit_or-zero (suc x) x (omega arith)

pub zero-bit_or : (a : ℕ) → bit_or 0 a ≡ a
zero-bit_or a = bit_or-bitwise 0 a

below-bit_and-zero : (x bound : ℕ) → x < bound → bit_and x 0 ≡ 0
below-bit_and-zero zero bound lt = refl
below-bit_and-zero (suc x) (suc bound) lt =
    omega (arith, below-bit_and-zero (suc x / 2) bound (omega arith), bit_and_step (suc x) 0)
below-bit_and-zero (suc x) zero lt = absurd (omega arith)

pub bit_and-zero : (x : ℕ) → bit_and x 0 ≡ 0
bit_and-zero x = below-bit_and-zero x (suc x) (omega arith)

-- Quotient and remainder are determined by the division equation.
pub mod_unique : (q m r : ℕ) {a : ℕ} → a ≡ q * m + r → r < m → a % m ≡ r
mod_unique q m r e h = rw (e, mul-add-mod_self_right q m r) (mod-eq_of_lt h)

pub div_unique : (q m r : ℕ) {a : ℕ} → a ≡ q * m + r → r < m → a / m ≡ q
div_unique q m r e h = rw e (div-eq_of_lt-le m (omega arith) (omega (arith, mul-comm-add q m)))
  where
    mul-comm-add : (x y : ℕ) → (x + 1) * y ≡ x * y + y
    mul-comm-add x y = omega arith

mod_double : (p a : ℕ) → 0 < p → a % (p * 2) ≡ a / 2 % p * 2 + a % 2
mod_double p a h =
    mod_unique (a / 2 / p) (p * 2) (a / 2 % p * 2 + a % 2) (omega (arith, div-add-mod' (a / 2) p))
      (omega (arith, mod-lt (a / 2) h))

-- A mask of the `k` low bits is the remainder by `2 ^ k`.
pub bit_and_mask : (k a : ℕ) → bit_and a (2 ^ k - 1) ≡ a % 2 ^ k
bit_and_mask zero a = omega (arith, bit_and-zero a)
bit_and_mask (suc k) a = ground (
  arith,
  bit_and_step a (2 ^ suc k - 1),
  pow-suc 2 k,
  one-le-pow k 2,
  bit_and_mask k (a / 2),
  mod_double (2 ^ k) a,
)

-- The `|` of two words of `k` bits has `k` bits.
pub bit_or-lt : (k a b : ℕ) → a < 2 ^ k → b < 2 ^ k → bit_or a b < 2 ^ k
bit_or-lt zero a b ha hb = rw (le_zero a ha, le_zero b hb) (omega (arith, bit_or-zero 0))
bit_or-lt (suc k) a b ha hb = ground (
  arith,
  bit_or_step a b,
  pow-suc 2 k,
  bit_or-lt k (a / 2) (b / 2) (omega (arith, pow-suc 2 k)) (omega (arith, pow-suc 2 k)),
)

no_high : (p b : ℕ) → b ≡ 0 * p + b
no_high p b = omega arith

-- Words that share no digit are added.
pub bit_or-high : (k a b : ℕ) → b < 2 ^ k → bit_or (a * 2 ^ k) b ≡ a * 2 ^ k + b
bit_or-high k a b h =
    ap (λ (t : ℕ). bit_or t b) (sym (add-zero (a * 2 ^ k)))
    ∙ ap (λ (t : ℕ). bit_or (a * 2 ^ k + 0) t) (no_high (2 ^ k) b)
    ∙ bit_or_split k a 0 0 b (one-le-pow k 2 (omega arith)) h
    ∙ rw (bit_or-zero a, zero-bit_or b) refl

-- A field at digit `k` is added to a word that has zeros there and any digits elsewhere.
pub bit_or-field :
    (k m hi f lo : ℕ)
    → f < 2 ^ m
    → lo < 2 ^ k
    → bit_or (hi * 2 ^ m * 2 ^ k + lo) (f * 2 ^ k) ≡ (hi * 2 ^ m + f) * 2 ^ k + lo
bit_or-field k m hi f lo hf hl =
    ap (λ (t : ℕ). bit_or (hi * 2 ^ m * 2 ^ k + lo) t) (sym (add-zero (f * 2 ^ k)))
    ∙ bit_or_split k (hi * 2 ^ m) lo f 0 hl (one-le-pow k 2 (omega arith))
    ∙ rw (bit_or-high m hi f hf, bit_or-zero lo) refl

pub zero-bit_xor : (a : ℕ) → bit_xor 0 a ≡ a
zero-bit_xor a = bit_xor-bitwise 0 a
