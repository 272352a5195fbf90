-- ===== src/Dom/Tests.antt =====
-- Tests of crates/pliron-ll/src/passes/dominance_frontier.rs, and instances of its theorems.
use mathlib.Core.List.{Memᴰ}
use crabbit.Prelude.{
  ℕ, suc, ◌+◌, ◌<◌, ◌≡◌, refl, arith, Bool, false, Option, some, ◌↔◌, List, [], ◌∷◌,
}
use crabbit.Prelude.Result.{ok, ◌>>=◌}
use crabbit.Dom.{
  Idoms, assign, entry_only, pass, immediate_dominators, turns, new_idom, processed, meet,
  intersect_idoms, intersect, climb,
}
use crabbit.Dom.Tree.{Tree, Above, Nearest, intersect_idoms-Nearest}
use crabbit.Dom.Turn.{Earlier, Kept, pass-Kept, assign-Tree}
use crabbit.Dom.Sound.{Enters, Dominates, Within, Tree-Upto}
use crabbit.Dom.Acyclic.{Backward, immediate_dominators-Kept}
use crabbit.Dom.Loop.{entry_only-Tree}
use crabbit.Dom.Exact.{immediate_dominators-Exact}

-- A loop from 3 to 1, whose body is a choice of 2 or the edge from 1 to 3.
abbrev loop_preds : List (List ℕ)
loop_preds = (0 ∷ 3 ∷ []) ∷ (1 ∷ []) ∷ (2 ∷ 1 ∷ []) ∷ []

abbrev read_all : Idoms → List (Option ℕ)
read_all idoms = idoms 0 ∷ idoms 1 ∷ idoms 2 ∷ idoms 3 ∷ []

loop_idoms :
    (immediate_dominators 2 ([] ∷ loop_preds) >>= λ idoms. ok (read_all idoms))
    ≡ ok (some 0 ∷ some 0 ∷ some 1 ∷ some 1 ∷ [])
unfolding immediate_dominators turns pass new_idom processed meet intersect_idoms intersect climb
loop_idoms = refl

abbrev one : Idoms
one = assign 1 0 entry_only

abbrev two : Idoms
two = assign 2 1 one

abbrev three : Idoms
three = assign 3 1 two

three-returned : immediate_dominators 2 ([] ∷ loop_preds) ≡ ok three
unfolding immediate_dominators turns pass new_idom processed meet intersect_idoms intersect climb
three-returned = refl

three-Tree : Tree three
three-Tree =
    assign-Tree two 3 1
      (assign-Tree one 2 1
        (assign-Tree entry_only 1 0 entry_only-Tree (omega arith) (omega arith) (0, refl))
        (omega arith) (omega arith) (0, refl))
      (omega arith) (omega arith) (0, refl)

loop-Earlier : Earlier 1 loop_preds
loop-Earlier = (
  (0, Memᴰ.head refl, omega arith),
  ((1, Memᴰ.head refl, omega arith), ((2, Memᴰ.head refl, omega arith), tt)),
)

loop-Within : Within loop_preds
loop-Within p b (Enters.first (Memᴰ.head e)) = omega (arith, e)
loop-Within p b (Enters.first (Memᴰ.tail (Memᴰ.head e))) = omega (arith, e)
loop-Within p b (Enters.first (Memᴰ.tail (Memᴰ.tail m))) = elim m [ ]
loop-Within p b (Enters.later (Enters.first (Memᴰ.head e))) = omega (arith, e)
loop-Within p b (Enters.later (Enters.first (Memᴰ.tail m))) = elim m [ ]
loop-Within p b (Enters.later (Enters.later (Enters.first (Memᴰ.head e)))) = omega (arith, e)
loop-Within p b (Enters.later (Enters.later (Enters.first (Memᴰ.tail (Memᴰ.head e))))) =
    omega (arith, e)
loop-Within p b (Enters.later (Enters.later (Enters.first (Memᴰ.tail (Memᴰ.tail m))))) = elim m [ ]
loop-Within p b (Enters.later (Enters.later (Enters.later edge))) = elim edge [ ]

-- Every path to 3 comes by 1, in a graph with a loop.
immediate_dominators-Exact_example :
    (idoms : Idoms) × (immediate_dominators 5 ([] ∷ loop_preds) ≡ ok idoms)
    × (Above idoms 1 3 ↔ Dominates loop_preds 1 3)
immediate_dominators-Exact_example =
    immediate_dominators-Exact [] loop_preds 1 3 loop-Earlier loop-Within (omega arith)

pass-Kept_example :
    (s : Idoms × Bool) × (pass entry_only 1 loop_preds false ≡ ok s) × Kept (1 + 3) s
pass-Kept_example =
    pass-Kept entry_only 1 loop_preds false entry_only-Tree (Tree-Upto entry_only entry_only-Tree)
      (omega arith) loop-Earlier

intersect_idoms-Nearest_example :
    (t : ℕ) × (intersect_idoms three 2 3 ≡ ok t) × Nearest three three-Tree 2 3 t
intersect_idoms-Nearest_example = intersect_idoms-Nearest three three-Tree 2 3 (1, refl) (1, refl)

-- A choice of 1 or 2 that ends in 3.
abbrev diamond : List (List ℕ)
diamond = (0 ∷ []) ∷ (0 ∷ []) ∷ (1 ∷ 2 ∷ []) ∷ []

diamond-Earlier : Earlier 1 diamond
diamond-Earlier = (
  (0, Memᴰ.head refl, omega arith),
  ((0, Memᴰ.head refl, omega arith), ((1, Memᴰ.head refl, omega arith), tt)),
)

only_entry : (k p : ℕ) → Memᴰ p (0 ∷ []) → p < suc k
only_entry k p (Memᴰ.head e) = omega (arith, e)
only_entry k p (Memᴰ.tail m) = elim m [ ]

both_sides : (p : ℕ) → Memᴰ p (1 ∷ 2 ∷ []) → p < 3
both_sides p (Memᴰ.head e) = omega (arith, e)
both_sides p (Memᴰ.tail (Memᴰ.head e)) = omega (arith, e)
both_sides p (Memᴰ.tail (Memᴰ.tail m)) = elim m [ ]

diamond-Backward : Backward 1 diamond
diamond-Backward = (only_entry 0, (only_entry 1, (both_sides, tt)))

immediate_dominators-Kept_example :
    (idoms : Idoms) × (immediate_dominators 2 ([] ∷ diamond) ≡ ok idoms)
    × Kept (1 + 3) (idoms, false)
immediate_dominators-Kept_example =
    immediate_dominators-Kept [] diamond diamond-Earlier diamond-Backward
