-- ===== src/Profile/Align/Longest.antt =====
-- crates/pliron-bpgo/src/align.rs, `matching`: its pairs are of equal keys, in order, and no others
-- are more.
use Prim.Native.String.{String}
use text.Mathlib.Text.{◌==◌ as str_eq}
use text.Mathlib.TextEquality.{eq_iff}
use mathlib.Core.Path.{subst}
use crabbit.Prelude.{ℕ, suc, ◌+◌, ◌*◌, ◌≤◌, ◌≡◌, refl, sym, ◌∙◌, ap, arith, length, tests}
use crabbit.Prelude.{false, Bool-cases, inl, inr}
use crabbit.Prelude.{
  Option, some, none, List, [], ◌∷◌, get_elem?, drop, drop-cons, leb, ltb, drop-drop, get-drop,
  leb→le, not_leb→lt,
}
use crabbit.Profile.Align.{Pairs, position, further, greedy, dp_rows, at, walk, matching, lcs_limit}
use crabbit.Profile.Align.Common.{MatchingFrom, MatchingFrom-earlier, lcs, MatchingFrom-lcs}
use crabbit.Profile.Align.Table.{at-dp_rows}

-- A key that is found, and what stands behind it.
abbrev Found : String → List String → ℕ → List String → Type 0
Found key b off rest = (get_elem? b off ≡ some key) × (drop (suc off) b ≡ rest)

position-Found :
    (key : String) (b : List String) (off : ℕ) (rest : List String)
    → position key b ≡ some (off, rest)
    → Found key b off rest
unfolding position
position-Found key [] off rest e = cc
position-Found key (k ∷ b) off rest e = elim (Bool-cases (str_eq k key)) [
  | inl h ↦
      let here : ◌≡◌ {A = Option (ℕ × List String)} (some (0, b)) (some (off, rest)) = rw h at e in
      let e_off : 0 ≡ off = cc in
      let e_rest : b ≡ rest = cc in
      subst (λ (n : ℕ). Found key (k ∷ b) n rest) e_off (ap some ((eq_iff k key).0 h), e_rest)
  | inr h ↦ go (position key b) (rw h at e) (λ o r p. position-Found key b o r p) refl
]
  where
    go :
        (later : Option (ℕ × List String))
        → further later ≡ some (off, rest)
        → ((o : ℕ) (r : List String) → position key b ≡ some (o, r) → Found key b o r)
        → position key b ≡ later
        → Found key (k ∷ b) off rest
    go none e' found p = cc
    go (some (o, r)) e' found p =
        let e_off : suc o ≡ off = cc in
        let e_rest : r ≡ rest = cc in
        subst (λ (n : ℕ). Found key (k ∷ b) n rest) e_off
          (subst (λ (l : List String). Found key b o l) e_rest (found o r p))

module _ (a b : List String) where
  greedy-MatchingFrom :
      (i j : ℕ) (a' b' : List String)
      → drop i a ≡ a'
      → drop j b ≡ b'
      → MatchingFrom a b i j (greedy i a' j b')
  unfolding greedy
  greedy-MatchingFrom i j [] b' e_a e_b = tt
  greedy-MatchingFrom i j (key ∷ a') b' e_a e_b =
      let (here, later) = drop-cons i a key a' e_a in
      go (position key b') refl here
        (MatchingFrom-earlier a b i j (suc i) j (greedy (suc i) a' j b') (omega arith) (omega arith)
          (greedy-MatchingFrom (suc i) j a' b' later e_b))
        (λ off rest e. greedy-MatchingFrom (suc i) (suc (j + off)) a' rest later e)
    where
      go :
          (found : Option (ℕ × List String))
          → position key b' ≡ found
          → get_elem? a i ≡ some key
          → MatchingFrom a b i j (greedy (suc i) a' j b')
          → ((off : ℕ) (rest : List String)
              → drop (suc (j + off)) b ≡ rest
              → MatchingFrom a b (suc i) (suc (j + off)) (greedy (suc i) a' (suc (j + off)) rest))
          → MatchingFrom a b i j (elim found [
            | none ↦ greedy (suc i) a' j b'
            | some (off, rest) ↦ (i, j + off) ∷ greedy (suc i) a' (suc (j + off)) rest
          ])
      go none e here skip more = skip
      go (some (off, rest)) e here skip more =
          let (at_off, behind) = position-Found key b' off rest e in
          let whole : (k : ℕ) → drop k b' ≡ drop (j + k) b = λ k. rw (sym e_b) (drop-drop j k b) in
          (
            (omega arith, omega arith, (key, here, get-drop j off b key (rw (sym e_b) at at_off))),
            more off rest (
                ap (λ (n : ℕ). drop n b) {x = suc (j + off)} (omega arith)
                ∙ sym (whole (suc off))
                ∙ behind),
          )

  module _ (dp : List (List ℕ)) (table : (i j : ℕ) → at dp i j ≡ lcs (drop i a) (drop j b)) where
    -- What the second loop finds on what is left of the lists.
    abbrev Finds : ℕ → ℕ → List String → List String → Type 0
    Finds i j a' b' =
        MatchingFrom a b i j (walk dp i a' j b') × (length (walk dp i a' j b') ≡ lcs a' b')

    walk-Finds :
        (i : ℕ) (a' : List String) (j : ℕ) (b' : List String)
        → drop i a ≡ a'
        → drop j b ≡ b'
        → Finds i j a' b'
    unfolding walk lcs
    walk-Finds i [] j b' e_a e_b = (tt, refl)
    walk-Finds i (x ∷ a') j [] e_a e_b = (tt, refl)
    walk-Finds i (x ∷ a') j (y ∷ b') e_a e_b =
        let (here_a, later_a) = drop-cons i a x a' e_a in
        let (here_b, later_b) = drop-cons j b y b' e_b in
        elim (Bool-cases (str_eq x y)) [
          | inl h ↦
              let (m, len) = walk-Finds (suc i) a' (suc j) b' later_a later_b in
              rw (h, walk)
                (
                  (
                    (
                      omega arith,
                      omega arith,
                      (x, here_a, here_b ∙ ap some (sym ((eq_iff x y).0 h))),
                    ),
                    m,
                  ),
                  omega (arith, len),
                )
          | inr h ↦
              let down : at dp (suc i) j ≡ lcs a' (y ∷ b') =
                table (suc i) j ∙ rw (later_a, e_b) refl in
              let right : at dp i (suc j) ≡ lcs (x ∷ a') b' =
                table i (suc j) ∙ rw (later_b, e_a) refl in
              elim (Bool-cases (leb (at dp i (suc j)) (at dp (suc i) j))) [
                | inl k ↦
                    let (m, len) = walk-Finds (suc i) a' j (y ∷ b') later_a e_b in
                    rw (h, k, walk)
                      (
                        MatchingFrom-earlier a b i j (suc i) j _ (omega arith) (omega arith) m,
                        omega (tests, len, down, right, leb→le _ _ k),
                      )
                | inr k ↦
                    let (m, len) = walk-Finds i (x ∷ a') (suc j) b' e_a later_b in
                    rw (h, k, walk)
                      (
                        MatchingFrom-earlier a b i j i (suc j) _ (omega arith) (omega arith) m,
                        omega (tests, len, down, right, not_leb→lt _ _ k),
                      )
              ]
        ]

-- The pairs are of equal keys, with both indexes growing, whichever loop finds them.
pub matching-MatchingFrom : (a b : List String) → MatchingFrom a b 0 0 (matching a b)
unfolding matching
matching-MatchingFrom a b = elim (Bool-cases (ltb lcs_limit (length a * length b))) [
  | inl h ↦ rw h (greedy-MatchingFrom a b 0 0 a b refl refl)
  | inr h ↦ rw h ((walk-Finds a b (dp_rows a b) (at-dp_rows a b) 0 a 0 b refl refl).0)
]

-- For two lists of keys of which there are at most four million pairs, the pairs are of equal keys,
-- with both indexes growing, and no other such pairs are more.
pub matching-longest :
    (a b : List String)
    → length a * length b ≤ lcs_limit
    → MatchingFrom a b 0 0 (matching a b)
      × ((pairs : Pairs) → MatchingFrom a b 0 0 pairs → length pairs ≤ length (matching a b))
unfolding matching
matching-longest a b small =
    let fits : ltb lcs_limit (length a * length b) ≡ false = ground (arith, small) in
    let found = walk-Finds a b (dp_rows a b) (at-dp_rows a b) 0 a 0 b refl refl in
    (
      matching-MatchingFrom a b,
      (λ pairs m. rw fits (omega (arith, MatchingFrom-lcs a b 0 0 pairs m, found.1))),
    )
