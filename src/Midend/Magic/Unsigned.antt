-- ===== src/Midend/Magic/Unsigned.antt =====
-- crates/pliron-ll/src/passes/llvm/div_strength_reduce.rs, `magic_unsigned`: one round of the
-- loop keeps division equations for `2 ^ p` and `2 ^ p - 1`, and what its test says of them.
use crabbit.Prelude.{ℕ, ◌+◌, ◌-◌, ◌*◌, ◌≤◌, ◌<◌, ◌≡◌, arith}
use crabbit.Prelude.{true, false, ◌⊎◌, inl, inr, Bool-cases, if◌then◌else◌}
use crabbit.Prelude.{ltb, leb, leb→le, ltb→lt, not_ltb→le, tests}
use crabbit.Midend.Magic.{Search, unsigned_step, unsigned_continues}

-- `power` is `2 ^ p`. The flag says that `q2 + 1` does not fit the word any more.
pub record Divides (d n nc power : ℕ) (s : Search) : Type 0 where
  pub first : s.q1 * nc + s.r1 ≡ power
  pub first_lt : s.r1 < nc
  pub second : s.q2 * d + s.r2 + 1 ≡ power
  pub second_lt : s.r2 < d
  pub wide : s.add ≡ true → n ≤ s.q2 + 1
  pub narrow : s.add ≡ false → s.q2 + 1 < n

-- Doubling a dividend, and adding one, in the division equation.
double_first :
    (q r m power : ℕ)
    → q * m + r ≡ power
    → r < m
    → (if leb (m - r) r then 2 * q + 1 else q * 2) * m
        + (if leb (m - r) r then 2 * r - m else r * 2)
      ≡ 2 * power
double_first q r m power e h = elim (Bool-cases (leb (m - r) r)) [
  | inl c ↦ rw c (omega (tests, leb→le (m - r) r c))
  | inr c ↦ rw c (omega arith)
]

double_second :
    (q r d power : ℕ)
    → q * d + r + 1 ≡ power
    → r < d
    → (if leb (d - r) (r + 1) then 2 * q + 1 else q * 2) * d
        + (if leb (d - r) (r + 1) then 2 * r + 1 - d else 2 * r + 1)
        + 1
      ≡ 2 * power
double_second q r d power e h = elim (Bool-cases (leb (d - r) (r + 1))) [
  | inl c ↦ rw c (omega (tests, leb→le (d - r) (r + 1) c))
  | inr c ↦ rw c (omega arith)
]

pub step-Divides :
    (d h nc power : ℕ) (s : Search)
    → 0 < h
    → Divides d (2 * h) nc power s
    → Divides d (2 * h) nc (2 * power) (unsigned_step d h nc s)
unfolding unsigned_step
step-Divides d h nc power s pos v = record {
  first = double_first s.q1 s.r1 nc power v.first v.first_lt;
  first_lt = ground arith;
  second = double_second s.q2 s.r2 d power v.second v.second_lt;
  second_lt = ground arith;
  wide = ground arith;
  narrow = ground arith;
}

pub continues_cases :
    (d width : ℕ) (s : Search)
    → unsigned_continues d width s ≡ true
    → (s.p < 2 * width) × ((s.q1 < d - 1 - s.r2) ⊎ ((s.q1 ≡ d - 1 - s.r2) × (s.r1 ≡ 0)))
unfolding unsigned_continues
continues_cases d width s h = ground arith

stops_cases :
    (d width : ℕ) (s : Search)
    → unsigned_continues d width s ≡ false
    → (2 * width ≤ s.p) ⊎ ((d - 1 - s.r2 < s.q1) ⊎ ((s.q1 ≡ d - 1 - s.r2) × (0 < s.r1)))
unfolding unsigned_continues
stops_cases d width s h = ground arith

pub lt_of_carry :
    (q r nc delta power : ℕ)
    → q * nc + r ≡ power
    → r < nc
    → (delta < q) ⊎ ((q ≡ delta) × (0 < r))
    → nc * delta < power
lt_of_carry q r nc delta power e h (inl lt) = grind arith
lt_of_carry q r nc delta power e h (inr p) = rw (← p.0) (omega (arith, p.1))

lt_square : (nc delta n : ℕ) → nc < n → delta < n → nc * delta < n * n
lt_square nc delta n h k = grind arith

-- Past the test of the loop, `2 ^ p` exceeds `nc * delta`.
pub stop_exceeds :
    (d n nc width power : ℕ) (s : Search)
    → Divides d n nc power s
    → nc < n
    → d ≤ n
    → (2 * width ≤ s.p → power ≡ n * n)
    → unsigned_continues d width s ≡ false
    → nc * (d - 1 - s.r2) < power
stop_exceeds d n nc width power s v hn hd top stop = elim (stops_cases d width s stop) [
  | inl end ↦ rw (top end) (lt_square nc (d - 1 - s.r2) n hn (omega (arith, v.second_lt)))
  | inr carry ↦ lt_of_carry s.q1 s.r1 nc (d - 1 - s.r2) power v.first v.first_lt carry
]

pub le_of_no_carry :
    (q r nc delta power : ℕ)
    → q * nc + r ≡ power
    → r < nc
    → (q < delta) ⊎ ((q ≡ delta) × (r ≡ 0))
    → power ≤ delta * nc
le_of_no_carry q r nc delta power e h (inl lt) = grind arith
le_of_no_carry q r nc delta power e h (inr p) = rw (← p.0) (omega (arith, p.1))

le_of_scaled : (t n nc delta : ℕ) → t * n ≤ delta * nc → nc < n → t ≤ delta
le_of_scaled t n nc delta h k = grind arith

-- Where the loop goes on, `2 ^ p` is at most `(d - 1) * 2 ^ width`.
pub go_bound :
    (d n nc width power t : ℕ) (s : Search)
    → Divides d n nc power s
    → nc < n
    → t * n ≡ power
    → unsigned_continues d width s ≡ true
    → t ≤ d - 1
go_bound d n nc width power t s v hn ht go =
    let below =
      le_of_no_carry s.q1 s.r1 nc (d - 1 - s.r2) power v.first v.first_lt
        (continues_cases d width s go).1 in
    omega (arith, le_of_scaled t n nc (d - 1 - s.r2) (rw ht below) hn)

scale : (a b c : ℕ) → a ≤ b → a * c ≤ b * c
scale a b c h = grind arith

-- The quotient of `2 ^ p` has at most one bit more than the word.
pub quotient_bound :
    (q2 d r2 n t power : ℕ)
    → q2 * d + r2 + 1 ≡ power
    → t * n ≡ power
    → t ≤ 2 * (d - 1)
    → d < n
    → 2 ≤ d
    → q2 + 1 < 2 * n
quotient_bound q2 d r2 n t power e ht hd hn h2 = elim (Bool-cases (ltb (q2 + 1) (2 * n))) [
  | inl c ↦ ltb→lt _ _ c
  | inr c ↦ absurd (
      omega
        (arith, scale (t + 2) (2 * d) n (omega arith), scale (2 * n) (q2 + 1) d (not_ltb→le _ _ c)))
]
