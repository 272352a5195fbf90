-- ===== src/Dom.antt =====
-- crates/pliron-ll/src/passes/dominance_frontier.rs: immediate dominators and dominance frontiers
-- over lists of predecessors. Blocks are their indexes in reverse postorder, the entry is 0.
pub mod Tree
pub mod Pass
pub mod Turn
pub mod Sound
pub mod Loop
pub mod Agree
pub mod Acyclic
pub mod Paths
pub mod Nearest
pub mod Limits
pub mod Advance
pub mod Exact
mod Tests
use crabbit.Prelude.{ℕ, zero, suc, ◌+◌, ltb, ◌==◌, ◌||◌, if◌then◌else◌, length}
use crabbit.Prelude.{Bool, true, false, Option, some, none, List, [], ◌∷◌, ◌++◌}
use crabbit.Prelude.Result.{Result, ok, panic, unwrap, ◌>>=◌}

-- The vector `idoms`, as the function that reads it.
abbrev pub Idoms : Type 0
Idoms = ℕ → Option ℕ

abbrev pub assign : ℕ → ℕ → Idoms → Idoms
assign block idom idoms b = if b == block then some idom else idoms b

-- `while from > limit { from = idoms[from].expect(..) }`
unfoldable pub climb : ℕ → Idoms → ℕ → ℕ → Result ℕ
climb zero idoms from limit = if ltb limit from then panic else ok from
climb (suc fuel) idoms from limit =
    if ltb limit from then (unwrap (idoms from) >>= λ up. climb fuel idoms up limit) else ok from

unfoldable pub intersect : ℕ → Idoms → ℕ → ℕ → Result ℕ
intersect zero idoms lhs rhs = if lhs == rhs then ok lhs else panic
intersect (suc fuel) idoms lhs rhs =
    if lhs == rhs
    then ok lhs
    else (climb lhs idoms lhs rhs >>= λ l. climb rhs idoms rhs l >>= λ r. intersect fuel idoms l r)

-- Both sides only go down, so their sum is fuel enough.
unfoldable pub intersect_idoms : Idoms → ℕ → ℕ → Result ℕ
intersect_idoms idoms lhs rhs = intersect (lhs + rhs) idoms lhs rhs

abbrev pub is_some : Option ℕ → Bool
is_some none = false
is_some (some d) = true

-- The predecessors that have been processed. Reading a predecessor that is no block is a panic of
-- the source; here it has no dominator and is passed over, so that what is said of paths takes
-- the predecessors to be blocks (`Within`).
unfoldable pub processed : Idoms → List ℕ → List ℕ
processed idoms [] = []
processed idoms (p ∷ preds) =
    if is_some (idoms p) then p ∷ processed idoms preds else processed idoms preds

unfoldable pub meet : Idoms → ℕ → List ℕ → Result ℕ
meet idoms new_idom [] = ok new_idom
meet idoms new_idom (pred ∷ preds) = intersect_idoms idoms pred new_idom >>= λ d. meet idoms d preds

unfoldable pub new_idom : Idoms → List ℕ → Result (Option ℕ)
new_idom idoms [] = ok none
new_idom idoms (pred ∷ preds) = meet idoms pred preds >>= λ d. ok (some d)

abbrev pub same : Option ℕ → ℕ → Bool
same none d = false
same (some e) d = e == d

-- A block whose immediate dominator is new is written, and sets `changed`.
abbrev pub updated : Idoms → ℕ → Bool → Option ℕ → Idoms × Bool
updated idoms block changed none = (idoms, changed)
updated idoms block changed (some d) =
    if same (idoms block) d then (idoms, changed) else (assign block d idoms, true)

-- One turn of the outer loop, from a block on: the vector and `changed`.
unfoldable pub pass : Idoms → ℕ → List (List ℕ) → Bool → Result (Idoms × Bool)
pass idoms block [] changed = ok (idoms, changed)
pass idoms block (preds ∷ rest) changed = new_idom idoms (processed idoms preds) >>= λ found.
    pass (updated idoms block changed found).0 (suc block) rest
      (updated idoms block changed found).1

unfoldable pub turns : ℕ → Idoms → List (List ℕ) → Result Idoms
turns zero idoms rest = panic
turns (suc fuel) idoms rest =
    pass idoms 1 rest false >>= λ s. elim s.1 [ true ↦ turns fuel s.0 rest | false ↦ ok s.0 ]

abbrev pub entry_only : Idoms
entry_only b = if b == 0 then some 0 else none

unfoldable pub immediate_dominators : ℕ → List (List ℕ) → Result Idoms
immediate_dominators fuel [] = ok (λ b. none)
immediate_dominators fuel (of_entry ∷ rest) = turns fuel entry_only rest
