-- ===== src/Layout/Literals.antt =====
-- crates/pliron-ll/src/passes/aarch64/aarch64_encode.rs, `collect_literals` and the loop that
-- places the literals.
use Prim.Native.Nat.{Ordering}
use Prim.Native.String.{String, compare}
use mathlib.Core.Path.{subst}
use mathlib.Core.List.{append-nil}
use text.Mathlib.Text.{◌==◌ as str_eq}
use text.Mathlib.TextEquality.{eq_iff}
use crabbit.Prelude.{ℕ, ◌+◌, ◌≡◌, refl, sym, ◌∙◌, ap, length, Bool-cases, inl, inr, true}
use crabbit.Prelude.{Option, some, none, List, [], ◌∷◌, ◌++◌, ◌⊎◌}
use crabbit.Layout.{NameMap, Literals, or_insert, insert_name, place_literals}
use crabbit.Layout.Pieces.{StandsIn, StandsIn-more}

-- A label has an entry.
abbrev pub Present : String → Literals → Type 0
Present label [] = ⊥
Present label ((l, b) ∷ literals) = (l ≡ label) ⊎ Present label literals

-- The bytes of each label are those that a function gives.
abbrev pub Consistent : (String → List ℕ) → Literals → Type 0
Consistent bytes_of [] = Unit
Consistent bytes_of ((l, b) ∷ literals) = (b ≡ bytes_of l) × Consistent bytes_of literals

abbrev pub LiteralFrom : (String → List ℕ) → Option (String × List ℕ) → Type 0
LiteralFrom bytes_of none = Unit
LiteralFrom bytes_of (some (label, bytes)) = bytes ≡ bytes_of label

pub or_insert-Present_self :
    (label : String) (bytes : List ℕ) (literals : Literals)
    → Present label (or_insert label bytes literals)
unfolding or_insert
or_insert-Present_self label bytes [] = inl refl
or_insert-Present_self label bytes ((l, b) ∷ literals) =
    go (compare label l) refl (or_insert-Present_self label bytes literals)
  where
    go :
        (o : Ordering)
        → compare label l ≡ o
        → Present label (or_insert label bytes literals)
        → Present label (elim o [
          | Ordering.lt ↦ (label, bytes) ∷ (l, b) ∷ literals
          | Ordering.eq ↦ (l, b) ∷ literals
          | Ordering.gt ↦ (l, b) ∷ or_insert label bytes literals
        ])
    go Ordering.lt e rest = inl refl
    go Ordering.eq e rest =
        let equal : str_eq label l ≡ true = rw e refl in inl (sym ((eq_iff label l).0 equal))
    go Ordering.gt e rest = inr rest

pub or_insert-Present :
    (j label : String) (bytes : List ℕ) (literals : Literals)
    → Present j literals
    → Present j (or_insert label bytes literals)
unfolding or_insert
or_insert-Present j label bytes [] present = elim present [ ]
or_insert-Present j label bytes ((l, b) ∷ literals) present =
    go (compare label l) (λ p. or_insert-Present j label bytes literals p) present
  where
    go :
        (o : Ordering)
        → (Present j literals → Present j (or_insert label bytes literals))
        → Present j ((l, b) ∷ literals)
        → Present j (elim o [
          | Ordering.lt ↦ (label, bytes) ∷ (l, b) ∷ literals
          | Ordering.eq ↦ (l, b) ∷ literals
          | Ordering.gt ↦ (l, b) ∷ or_insert label bytes literals
        ])
    go Ordering.lt rest p = inr p
    go Ordering.eq rest p = p
    go Ordering.gt rest (inl e) = inl e
    go Ordering.gt rest (inr p) = inr (rest p)

pub or_insert-Consistent :
    (bytes_of : String → List ℕ) (label : String) (bytes : List ℕ) (literals : Literals)
    → bytes ≡ bytes_of label
    → Consistent bytes_of literals
    → Consistent bytes_of (or_insert label bytes literals)
unfolding or_insert
or_insert-Consistent bytes_of label bytes [] e all = (e, tt)
or_insert-Consistent bytes_of label bytes ((l, b) ∷ literals) e (e_b, all) =
    go (compare label l) (or_insert-Consistent bytes_of label bytes literals e all)
  where
    go :
        (o : Ordering)
        → Consistent bytes_of (or_insert label bytes literals)
        → Consistent bytes_of (elim o [
          | Ordering.lt ↦ (label, bytes) ∷ (l, b) ∷ literals
          | Ordering.eq ↦ (l, b) ∷ literals
          | Ordering.gt ↦ (l, b) ∷ or_insert label bytes literals
        ])
    go Ordering.lt rest = (e, (e_b, all))
    go Ordering.eq rest = (e_b, all)
    go Ordering.gt rest = (e_b, rest)

-- The label has an offset, and its bytes stand there.
abbrev pub Stored : (String → List ℕ) → ℕ → NameMap → List ℕ → String → Type 0
Stored bytes_of base offsets bytes label =
    (place : ℕ) × (offsets label ≡ some place) × StandsIn base bytes place (bytes_of label)

module _ (bytes_of : String → List ℕ) (base : ℕ) where
  Stored-insert_self :
      (offsets : NameMap) (bytes b : List ℕ) (label : String)
      → b ≡ bytes_of label
      → Stored bytes_of base (insert_name label (base + length bytes) offsets) (bytes ++ b) label
  Stored-insert_self offsets bytes b label e =
      let self : str_eq label label ≡ true = (eq_iff label label).1 refl in
      (
        base + length bytes,
        rw self refl,
        record {
          before = bytes;
          after = [];
          split = ap (λ (c : List ℕ). bytes ++ c) (e ∙ sym (append-nil (bytes_of label)));
          reached = refl;
        },
      )

  Stored-insert :
      (offsets : NameMap) (bytes b : List ℕ) (label j : String)
      → b ≡ bytes_of label
      → Stored bytes_of base offsets bytes j
      → Stored bytes_of base (insert_name label (base + length bytes) offsets) (bytes ++ b) j
  Stored-insert offsets bytes b label j e (place, mapped, stands) =
      elim (Bool-cases (str_eq label j)) [
        | inl same ↦
            subst
              (λ (k : String).
                Stored bytes_of base (insert_name label (base + length bytes) offsets) (bytes ++ b)
                  k)
              ((eq_iff label j).0 same) (Stored-insert_self offsets bytes b label e)
        | inr other ↦ (place, rw other mapped, StandsIn-more base place bytes (bytes_of j) b stands)
      ]

  place_literals-kept :
      (literals : Literals) (offsets : NameMap) (bytes : List ℕ) (label : String)
      → Consistent bytes_of literals
      → Stored bytes_of base offsets bytes label
      → Stored bytes_of base
          (place_literals base offsets bytes literals).0
          (place_literals base offsets bytes literals).1
          label
  unfolding place_literals
  place_literals-kept [] offsets bytes label all stored = stored
  place_literals-kept ((l, b) ∷ literals) offsets bytes label (e, all) stored =
      place_literals-kept literals _ (bytes ++ b) label all
        (Stored-insert offsets bytes b l label e stored)

  -- Every label that is present gets an offset where its bytes stand.
  pub place_literals-Stored :
      (literals : Literals) (offsets : NameMap) (bytes : List ℕ) (label : String)
      → Consistent bytes_of literals
      → Present label literals
      → Stored bytes_of base
          (place_literals base offsets bytes literals).0
          (place_literals base offsets bytes literals).1
          label
  unfolding place_literals
  place_literals-Stored [] offsets bytes label all present = elim present [ ]
  place_literals-Stored ((l, b) ∷ literals) offsets bytes label (e, all) (inl same) =
      place_literals-kept literals _ (bytes ++ b) label all (
        subst
          (λ (k : String).
            Stored bytes_of base (insert_name l (base + length bytes) offsets) (bytes ++ b) k)
          same (Stored-insert_self offsets bytes b l e))
  place_literals-Stored ((l, b) ∷ literals) offsets bytes label (e, all) (inr present) =
      place_literals-Stored literals _ (bytes ++ b) label all present
