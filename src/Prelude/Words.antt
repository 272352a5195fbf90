-- ===== src/Prelude/Words.antt =====
-- Rust's operators on unsigned words, and their bytes.
use Prim.Native.Nat.{ℕ, ◌*◌, ◌/◌, ◌%◌, ◌^◌, bit_or}
use mathlib.Core.List.{List, [], ◌∷◌, ◌++◌}

-- `base | a | b ..`, and `x << k` of a word whose result fits.
infixl 5 ◌∣◌
abbrev pub ◌∣◌ : ℕ → ℕ → ℕ
a ∣ b = bit_or a b

infixl 6 ◌<<◌
abbrev pub ◌<<◌ : ℕ → ℕ → ℕ
a << k = a * 2 ^ k

-- `u32::to_le_bytes` and `u64::to_le_bytes`.
abbrev pub to_le_bytes : ℕ → List ℕ
to_le_bytes word =
    word % 2 ^ 8 ∷ word / 2 ^ 8 % 2 ^ 8 ∷ word / 2 ^ 16 % 2 ^ 8 ∷ word / 2 ^ 24 % 2 ^ 8 ∷ []

abbrev pub to_le_bytes_64 : ℕ → List ℕ
to_le_bytes_64 word = to_le_bytes word ++ to_le_bytes (word / 2 ^ 32)
