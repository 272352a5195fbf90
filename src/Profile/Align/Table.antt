-- ===== src/Profile/Align/Table.antt =====
-- crates/pliron-bpgo/src/align.rs, `matching`: the table holds the lengths of longest common
-- subsequences.
use Prim.Native.String.{String}
use text.Mathlib.Text.{◌==◌ as str_eq}
use crabbit.Prelude.{ℕ, zero, suc, ◌≡◌, refl, arith}
use crabbit.Prelude.{Bool-cases, inl, inr, List, [], ◌∷◌, drop, get_or}
use crabbit.Profile.Align.{dp_row, dp_rows, zeros, at, tail}
use crabbit.Profile.Align.Common.{lcs}

-- A row has the lengths for a list and what is left of the other one.
abbrev RowOf : List String → List String → List ℕ → Type 0
RowOf a b row = (j : ℕ) → get_or row j 0 ≡ lcs a (drop j b)

tail-RowOf :
    (a : List String) (y : String) (b : List String) (row : List ℕ)
    → RowOf a (y ∷ b) row
    → RowOf a b (tail row)
tail-RowOf a y b [] row_of j = row_of (suc j)
tail-RowOf a y b (d ∷ row) row_of j = row_of (suc j)

zeros-RowOf : (b : List String) → RowOf [] b (zeros b)
unfolding lcs
zeros-RowOf [] zero = refl
zeros-RowOf [] (suc j) = refl
zeros-RowOf (y ∷ b) zero = refl
zeros-RowOf (y ∷ b) (suc j) = zeros-RowOf b j

dp_row-RowOf :
    (x : String) (a b : List String) (below : List ℕ)
    → RowOf a b below
    → RowOf (x ∷ a) b (dp_row x b below)
unfolding dp_row lcs
dp_row-RowOf x a [] below row_of zero = refl
dp_row-RowOf x a [] below row_of (suc j) = refl
dp_row-RowOf x a (y ∷ b) below row_of zero =
    let here = row_of 0 in
    let next = row_of 1 in
    let left = dp_row-RowOf x a b (tail below) (tail-RowOf a y b below row_of) 0 in
    elim (Bool-cases (str_eq x y)) [
      | inl h ↦ rw h (omega (arith, next))
      | inr h ↦ rw (h, here, left) refl
    ]
dp_row-RowOf x a (y ∷ b) below row_of (suc j) =
    dp_row-RowOf x a b (tail below) (tail-RowOf a y b below row_of) j

-- The entry of the table for two places.
pub at-dp_rows : (a b : List String) (i j : ℕ) → at (dp_rows a b) i j ≡ lcs (drop i a) (drop j b)
unfolding dp_rows lcs
at-dp_rows [] b zero j = zeros-RowOf b j
at-dp_rows [] b (suc i) j = refl
at-dp_rows (x ∷ a) b zero j =
    dp_row-RowOf x a b (get_or (dp_rows a b) 0 []) (λ k. at-dp_rows a b 0 k) j
at-dp_rows (x ∷ a) b (suc i) j = at-dp_rows a b i j
