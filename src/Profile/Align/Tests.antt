-- ===== src/Profile/Align/Tests.antt =====
-- Tests of crates/pliron-bpgo/src/align.rs, and instances of the theorems about it.
use Prim.Native.String.{String}
use crabbit.Prelude.{◌≡◌, ◌≤◌, refl, arith, length, List, [], ◌∷◌}
use crabbit.Profile.Align.{Pairs, matching, greedy, position, walk, dp_rows, dp_row}
use crabbit.Profile.Align.Common.{MatchingFrom}
use crabbit.Profile.Align.Longest.{matching-MatchingFrom, matching-longest}

abbrev before : List String
before = "a" ∷ "b" ∷ "c" ∷ "d" ∷ []

abbrev after : List String
after = "a" ∷ "x" ∷ "b" ∷ "c" ∷ "y" ∷ "d" ∷ []

-- The pairs that the source's test expects.
lcs_keeps_order_and_skips_insertions :
    matching before after ≡ (0, 0) ∷ (1, 2) ∷ (2, 3) ∷ (3, 5) ∷ []
unfolding matching walk dp_rows dp_row
lcs_keeps_order_and_skips_insertions = refl

greedy_skips : greedy 0 after 0 before ≡ (0, 0) ∷ (2, 1) ∷ (3, 2) ∷ (5, 3) ∷ []
unfolding greedy position
greedy_skips = refl

matching-MatchingFrom_example : MatchingFrom before after 0 0 (matching before after)
matching-MatchingFrom_example = matching-MatchingFrom before after

matching-longest_example :
    MatchingFrom after before 0 0 (matching after before)
    × ((pairs : Pairs)
        → MatchingFrom after before 0 0 pairs
        → length pairs ≤ length (matching after before))
matching-longest_example = matching-longest after before (omega arith)
