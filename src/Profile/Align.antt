-- ===== src/Profile/Align.antt =====
-- crates/pliron-bpgo/src/align.rs, `matching`: the pairs of equal keys of two blocks, in order.
pub mod Common
pub mod Table
pub mod Longest
mod Tests
use Prim.Native.String.{String}
use text.Mathlib.Text.{◌==◌ as str_eq}
use crabbit.Prelude.{ℕ, suc, ◌+◌, ◌*◌, ltb, leb, if◌then◌else◌, length, get_or}
use crabbit.Prelude.{true, false, Option, none, some, List, [], ◌∷◌}
use Prim.Native.Nat.{max}

-- Pairs of an index of the one list and an index of the other.
abbrev pub Pairs : Type 0
Pairs = List (ℕ × ℕ)

abbrev pub lcs_limit : ℕ
lcs_limit = 4000000

-- `position`, with what stands behind the key that is found.
abbrev pub further : Option (ℕ × List String) → Option (ℕ × List String)
further none = none
further (some (off, rest)) = some (suc off, rest)

unfoldable pub position : String → List String → Option (ℕ × List String)
position key [] = none
position key (k ∷ keys) = if str_eq k key then some (0, keys) else further (position key keys)

-- Each key in turn, with the first equal one from `j` on; what is matched is left behind.
unfoldable pub greedy : ℕ → List String → ℕ → List String → Pairs
greedy i [] j b = []
greedy i (key ∷ a) j b = elim (position key b) [
  | none ↦ greedy (suc i) a j b
  | some (off, rest) ↦ (i, j + off) ∷ greedy (suc i) a (suc (j + off)) rest
]

abbrev pub tail : List ℕ → List ℕ
tail [] = []
tail (d ∷ rest) = rest

-- A row of the table from the row below it. The table is its rows.
unfoldable pub dp_row : String → List String → List ℕ → List ℕ
dp_row x [] below = 0 ∷ []
dp_row x (y ∷ b) below =
    let row = dp_row x b (tail below) in
    (if str_eq x y then get_or below 1 0 + 1 else max (get_or below 0 0) (get_or row 0 0)) ∷ row

abbrev pub zeros : List String → List ℕ
zeros [] = 0 ∷ []
zeros (y ∷ b) = 0 ∷ zeros b

unfoldable pub dp_rows : List String → List String → List (List ℕ)
dp_rows [] b = zeros b ∷ []
dp_rows (x ∷ a) b = let rows = dp_rows a b in dp_row x b (get_or rows 0 []) ∷ rows

-- `dp[at(i, j)]`
abbrev pub at : List (List ℕ) → ℕ → ℕ → ℕ
at dp i j = get_or (get_or dp i []) j 0

-- The second loop, on what is left of the two lists at `i` and `j`.
unfoldable pub walk : List (List ℕ) → ℕ → List String → ℕ → List String → Pairs
walk dp i [] j b = []
walk dp i (x ∷ a) j [] = []
walk dp i (x ∷ a) j (y ∷ b) = elim (str_eq x y) [
  | true ↦ (i, j) ∷ walk dp (suc i) a (suc j) b
  | false ↦ elim (leb (at dp i (suc j)) (at dp (suc i) j)) [
    | true ↦ walk dp (suc i) a j (y ∷ b)
    | false ↦ walk dp i (x ∷ a) (suc j) b
  ]
]

unfoldable pub matching : List String → List String → Pairs
matching a b =
    if ltb lcs_limit (length a * length b) then greedy 0 a 0 b else walk (dp_rows a b) 0 a 0 b
