-- ===== src/Layout/Pieces.antt =====
-- Where a piece of code stands in the code around it.
use mathlib.Core.List.{append_assoc}
use crabbit.Prelude.{ℕ, ◌+◌, ◌≡◌, refl, sym, ◌∙◌, ap, arith, length, length-append, List, [], ◌++◌}

-- In code that begins at a place, a piece stands at another place.
pub record StandsIn (pc : ℕ) (code : List ℕ) (place : ℕ) (piece : List ℕ) : Type 0 where
  pub before : List ℕ
  pub after : List ℕ
  pub split : code ≡ before ++ (piece ++ after)
  pub reached : place ≡ pc + length before

pub StandsIn-first : (pc : ℕ) (piece rest : List ℕ) → StandsIn pc (piece ++ rest) pc piece
StandsIn-first pc piece rest = record {
  before = [];
  after = rest;
  split = refl;
  reached = omega arith;
}

pub StandsIn-later :
    (pc place : ℕ) (first rest piece : List ℕ)
    → StandsIn (pc + length first) rest place piece
    → StandsIn pc (first ++ rest) place piece
StandsIn-later pc place first rest piece s = record {
  before = first ++ s.before;
  after = s.after;
  split = ap (λ (c : List ℕ). first ++ c) s.split ∙ sym (append_assoc first s.before _);
  reached = omega (arith, s.reached, length-append first s.before);
}

-- A piece of a piece.
pub StandsIn-inner :
    (pc place inner : ℕ) (code piece part : List ℕ)
    → StandsIn pc code place piece
    → StandsIn place piece inner part
    → StandsIn pc code inner part
StandsIn-inner pc place inner code piece part s p = record {
  before = s.before ++ p.before;
  after = p.after ++ s.after;
  split =
      s.split
      ∙ ap (λ (c : List ℕ). s.before ++ (c ++ s.after)) p.split
      ∙ ap (λ (c : List ℕ). s.before ++ c)
          (append_assoc p.before (part ++ p.after) s.after
            ∙ ap (λ (c : List ℕ). p.before ++ c) (append_assoc part p.after s.after))
      ∙ sym (append_assoc s.before p.before _);
  reached = omega (arith, s.reached, p.reached, length-append s.before p.before);
}

-- The code may go on.
pub StandsIn-more :
    (pc place : ℕ) (code piece more : List ℕ)
    → StandsIn pc code place piece
    → StandsIn pc (code ++ more) place piece
StandsIn-more pc place code piece more s =
    StandsIn-inner pc pc place (code ++ more) code piece (StandsIn-first pc code more) s
