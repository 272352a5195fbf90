-- ===== src/Profile/Align/Common.antt =====
-- crates/pliron-bpgo/src/align.rs: what `matching` is to find, and the length of the longest one.
use Prim.Native.Nat.{max}
use Prim.Native.String.{String}
use text.Mathlib.Text.{◌==◌ as str_eq}
use text.Mathlib.TextEquality.{eq_iff}
use mathlib.Core.Path.{subst}
use crabbit.Prelude.{ℕ, zero, suc, ◌+◌, ◌-◌, ◌≤◌, ◌≡◌, refl, sym, ◌∙◌, arith, length}
use crabbit.Prelude.{true, Bool-cases, inl, inr, if◌then◌else◌, some}
use crabbit.Prelude.{List, [], ◌∷◌, get_elem?, drop, drop-get}
use crabbit.Profile.Align.{Pairs}

-- Pairs of equal keys, both indexes growing, from two places on.
abbrev pub MatchingFrom : List String → List String → ℕ → ℕ → Pairs → Type 0
MatchingFrom a b i j [] = Unit
MatchingFrom a b i j ((p, q) ∷ pairs) =
    ((i ≤ p) × (j ≤ q) × ((key : String) × (get_elem? a p ≡ some key) × (get_elem? b q ≡ some key)))
    × MatchingFrom a b (suc p) (suc q) pairs

pub MatchingFrom-earlier :
    (a b : List String) (i j i' j' : ℕ) (pairs : Pairs)
    → i ≤ i'
    → j ≤ j'
    → MatchingFrom a b i' j' pairs
    → MatchingFrom a b i j pairs
MatchingFrom-earlier a b i j i' j' [] le_i le_j m = tt
MatchingFrom-earlier a b i j i' j' ((p, q) ∷ pairs) le_i le_j ((le_p, le_q, keys), m) =
    ((omega (arith, le_i, le_p), omega (arith, le_j, le_q), keys), m)

-- The length of a longest common subsequence.
unfoldable pub lcs : List String → List String → ℕ
lcs [] b = 0
lcs (x ∷ a) [] = 0
lcs (x ∷ a) (y ∷ b) = if str_eq x y then lcs a b + 1 else max (lcs a (y ∷ b)) (lcs (x ∷ a) b)

lcs-nil : (a : List String) → lcs a [] ≡ 0
unfolding lcs
lcs-nil [] = refl
lcs-nil (x ∷ a) = refl

-- A key more in one of the lists is one more at most.
grows :
    (a b : List String)
    → ((x : String) → lcs a b ≤ lcs (x ∷ a) b) × ((y : String) → lcs a (y ∷ b) ≤ lcs a b + 1)
unfolding lcs
grows [] [] = ((λ x. omega arith), (λ y. omega arith))
grows [] (z ∷ b) = ((λ x. omega arith), (λ y. omega arith))
grows (w ∷ a) [] = (
  (λ x. omega arith),
  (λ y. elim (Bool-cases (str_eq w y)) [
    | inl h ↦ rw h (omega (arith, lcs-nil a))
    | inr h ↦ rw h (omega (arith, (grows a []).1 y, lcs-nil a))
  ]),
)
grows (w ∷ a) (z ∷ b) = (
  (λ x. elim (Bool-cases (str_eq x z)) [
    | inl h ↦ rw h ((grows (w ∷ a) b).1 z)
    | inr h ↦ rw h (omega arith)
  ]),
  (λ y. elim (Bool-cases (str_eq w y)) [
    | inl h ↦ rw h (omega (arith, (grows a (z ∷ b)).0 w))
    | inr h ↦ rw h (omega (arith, (grows a (z ∷ b)).0 w, (grows a (z ∷ b)).1 y))
  ]),
)

str_eq_comm : (s t : String) → str_eq s t ≡ str_eq t s
str_eq_comm s t = elim (Bool-cases (str_eq s t)) [
  | inl h ↦ h ∙ sym ((eq_iff t s).1 (sym ((eq_iff s t).0 h)))
  | inr h ↦ elim (Bool-cases (str_eq t s)) [
    | inl k ↦ absurd (cc (h, (eq_iff s t).1 (sym ((eq_iff t s).0 k))))
    | inr k ↦ h ∙ sym k
  ]
]

lcs_comm : (a b : List String) → lcs a b ≡ lcs b a
unfolding lcs
lcs_comm [] [] = refl
lcs_comm [] (y ∷ b) = refl
lcs_comm (x ∷ a) [] = refl
lcs_comm (x ∷ a) (y ∷ b) =
    let swap = str_eq_comm x y in
    elim (Bool-cases (str_eq x y)) [
      | inl h ↦ rw (h, sym swap ∙ h) (omega (arith, lcs_comm a b))
      | inr h ↦ rw (h, sym swap ∙ h) (omega (arith, lcs_comm a (y ∷ b), lcs_comm (x ∷ a) b))
    ]

drop_step : (i : ℕ) (a b : List String) → lcs (drop (suc i) a) b ≤ lcs (drop i a) b
unfolding lcs
drop_step zero [] b = omega arith
drop_step zero (x ∷ a) b = (grows a b).0 x
drop_step (suc i) [] b = omega arith
drop_step (suc i) (x ∷ a) b = drop_step i a b

drop_more : (k i : ℕ) (a b : List String) → lcs (drop (k + i) a) b ≤ lcs (drop i a) b
drop_more zero i a b = let same : 0 + i ≡ i = omega arith in rw same (omega arith)
drop_more (suc k) i a b =
    let same : suc k + i ≡ suc (k + i) = omega arith in
    rw same (omega (arith, drop_step (k + i) a b, drop_more k i a b))

-- From later places on there is no more in common.
pub lcs-drop_le :
    (a b : List String) (i j p q : ℕ)
    → i ≤ p
    → j ≤ q
    → lcs (drop p a) (drop q b) ≤ lcs (drop i a) (drop j b)
lcs-drop_le a b i j p q le_i le_j =
    let e_p : p ≡ p - i + i = omega (arith, le_i) in
    let e_q : q ≡ q - j + j = omega (arith, le_j) in
    let first = drop_more (p - i) i a (drop q b) in
    let second = drop_more (q - j) j b (drop i a) in
    omega (
      arith,
      subst (λ (k : ℕ). lcs (drop k a) (drop q b) ≤ lcs (drop i a) (drop q b)) (sym e_p) first,
      subst (λ (k : ℕ). lcs (drop k b) (drop i a) ≤ lcs (drop j b) (drop i a)) (sym e_q) second,
      lcs_comm (drop i a) (drop q b),
      lcs_comm (drop i a) (drop j b),
    )

-- Nothing that is matched is longer.
pub MatchingFrom-lcs :
    (a b : List String) (i j : ℕ) (pairs : Pairs)
    → MatchingFrom a b i j pairs
    → length pairs ≤ lcs (drop i a) (drop j b)
unfolding lcs
MatchingFrom-lcs a b i j [] m = omega arith
MatchingFrom-lcs a b i j ((p, q) ∷ pairs) ((le_i, le_j, (key, at_p, at_q)), m) =
    let same : str_eq key key ≡ true = (eq_iff key key).1 refl in
    let head = MatchingFrom-lcs a b (suc p) (suc q) pairs m in
    let here : lcs (drop p a) (drop q b) ≡ lcs (drop (suc p) a) (drop (suc q) b) + 1 =
      rw (drop-get p a key at_p, drop-get q b key at_q, same) refl in
    omega (arith, head, here, lcs-drop_le a b i j p q le_i le_j)
