-- ===== src/Prelude/Lists.antt =====
-- Lists measured by native numbers, and predicates on all of a list.
use Prim.Native.Nat.{ℕ, zero, suc, ◌+◌, ◌<◌}
use mathlib.Core.Path.{◌≡◌, refl, sym, ◌∙◌, ap}
use mathlib.Core.Option.{Option, none, some}
use mathlib.Core.List.{List, [], ◌∷◌, ◌++◌}
use native.Mathlib.Omega.{arith}

module _ {ℓ} {A : Type ℓ} where
  abbrev pub length : List A → ℕ
  length [] = 0
  length (x ∷ xs) = suc (length xs)

  pub length-append : (xs ys : List A) → length (xs ++ ys) ≡ length xs + length ys
  length-append [] ys = omega arith
  length-append (x ∷ xs) ys = omega (arith, length-append xs ys)

  abbrev pub get_elem? : List A → ℕ → Option A
  get_elem? [] i = none
  get_elem? (x ∷ xs) zero = some x
  get_elem? (x ∷ xs) (suc i) = get_elem? xs i

  abbrev pub drop : ℕ → List A → List A
  drop zero xs = xs
  drop (suc i) [] = []
  drop (suc i) (x ∷ xs) = drop i xs

  abbrev pub get_or : List A → ℕ → A → A
  get_or [] i default = default
  get_or (x ∷ xs) zero default = x
  get_or (x ∷ xs) (suc i) default = get_or xs i default

  -- What is left from an index on.
  pub drop-cons :
      (i : ℕ) (xs : List A) (x : A) (rest : List A)
      → drop i xs ≡ x ∷ rest
      → (get_elem? xs i ≡ some x) × (drop (suc i) xs ≡ rest)
  drop-cons zero [] x rest e = cc
  drop-cons zero (y ∷ xs) x rest e = (cc, cc)
  drop-cons (suc i) [] x rest e = cc
  drop-cons (suc i) (y ∷ xs) x rest e = drop-cons i xs x rest e

  pub drop-get :
      (i : ℕ) (xs : List A) (x : A) → get_elem? xs i ≡ some x → drop i xs ≡ x ∷ drop (suc i) xs
  drop-get zero [] x e = cc
  drop-get zero (y ∷ xs) x e = cc
  drop-get (suc i) [] x e = cc
  drop-get (suc i) (y ∷ xs) x e = drop-get i xs x e

  drop-nil : (k : ℕ) → drop k [] ≡ []
  drop-nil zero = refl
  drop-nil (suc k) = refl

  pub drop-drop : (i k : ℕ) (xs : List A) → drop k (drop i xs) ≡ drop (i + k) xs
  drop-drop zero k xs = ap (λ (n : ℕ). drop n xs) (omega arith)
  drop-drop (suc i) k [] = drop-nil k ∙ sym (drop-nil (suc i + k))
  drop-drop (suc i) k (x ∷ xs) =
      let same : suc i + k ≡ suc (i + k) = omega arith in rw same (drop-drop i k xs)

  pub get-drop :
      (i k : ℕ) (xs : List A) (x : A)
      → get_elem? (drop i xs) k ≡ some x
      → get_elem? xs (i + k) ≡ some x
  get-drop zero k xs x e = let same : 0 + k ≡ k = omega arith in rw same e
  get-drop (suc i) k [] x e = cc
  get-drop (suc i) k (y ∷ xs) x e =
      let same : suc i + k ≡ suc (i + k) = omega arith in rw same (get-drop i k xs x e)

  pub get_lt : (xs : List A) (i : ℕ) → i < length xs → (x : A) × (get_elem? xs i ≡ some x)
  get_lt [] i low = absurd (omega arith)
  get_lt (x ∷ xs) zero low = (x, refl)
  get_lt (x ∷ xs) (suc i) low = get_lt xs i (omega arith)

  pub lt_get : (xs : List A) (i : ℕ) (x : A) → get_elem? xs i ≡ some x → i < length xs
  lt_get [] i x e = cc
  lt_get (y ∷ xs) zero x e = omega arith
  lt_get (y ∷ xs) (suc i) x e = omega (arith, lt_get xs i x e)
