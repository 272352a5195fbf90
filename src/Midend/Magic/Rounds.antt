-- ===== src/Midend/Magic/Rounds.antt =====
-- crates/pliron-ll/src/passes/llvm/div_strength_reduce.rs, `magic_signed`: the loop ends by its
-- test, also for negative divisors, and what it ends with.
use native.Mathlib.Nat.{le-div_iff_mul-le, pow-suc, one-le-pow}
use native.Mathlib.Numerals.{towards_suc}
use crabbit.Prelude.{
  ℕ, zero, suc, ◌+◌, ◌-◌, ◌*◌, ◌/◌, ◌^◌, ◌≤◌, ◌<◌, ◌≡◌, refl, ap, ◌∙◌, arith, leb, leb→le, ◌⊎◌,
}
use crabbit.Prelude.{true, false, if◌then◌else◌, Bool-cases, inl, inr}
use crabbit.Midend.Magic.{Search, signed_step, signed_continues, signed_loop, signed_start}
use crabbit.Midend.Magic.Unsigned.{lt_of_carry, le_of_no_carry}
use crabbit.Midend.Magic.Loop.{two_pow-add}
use crabbit.Midend.Magic.Exact.{two_pow-pred}

-- Both divisions of a power of two.
pub record Divides (d nc power : ℕ) (s : Search) : Type 0 where
  pub first : s.q1 * nc + s.r1 ≡ power
  pub first_lt : s.r1 < nc
  pub second : s.q2 * d + s.r2 ≡ power
  pub second_lt : s.r2 < d

doubled :
    (q r m power : ℕ)
    → q * m + r ≡ power
    → r < m
    → ((if leb m (r * 2) then q * 2 + 1 else q * 2) * m
          + (if leb m (r * 2) then r * 2 - m else r * 2)
        ≡ 2 * power)
      × ((if leb m (r * 2) then r * 2 - m else r * 2) < m)
doubled q r m power e h = elim (Bool-cases (leb m (r * 2))) [
  | inl c ↦ rw c (omega (arith, leb→le m (r * 2) c), omega (arith, leb→le m (r * 2) c))
  | inr c ↦ rw c (omega arith, ground (arith, c))
]

step-Divides :
    (d nc power : ℕ) (s : Search)
    → Divides d nc power s
    → Divides d nc (2 * power) (signed_step d nc s)
unfolding signed_step
step-Divides d nc power s v =
    let (first, first_lt) = doubled s.q1 s.r1 nc power v.first v.first_lt in
    let (second, second_lt) = doubled s.q2 s.r2 d power v.second v.second_lt in
    record { first = first; first_lt = first_lt; second = second; second_lt = second_lt }

step-p : (d nc : ℕ) (s : Search) → (signed_step d nc s).p ≡ s.p + 1
unfolding signed_step
step-p d nc s = refl

continues_cases :
    (d : ℕ) (s : Search)
    → signed_continues d s ≡ true
    → (s.q1 < d - s.r2) ⊎ ((s.q1 ≡ d - s.r2) × (s.r1 ≡ 0))
unfolding signed_continues
continues_cases d s h = ground arith

stops_cases :
    (d : ℕ) (s : Search)
    → signed_continues d s ≡ false
    → (d - s.r2 < s.q1) ⊎ ((s.q1 ≡ d - s.r2) × (0 < s.r1))
unfolding signed_continues
stops_cases d s h = ground arith

-- What the loop ends with.
pub record Ended (d nc h width : ℕ) (s : Search) : Type 0 where
  pub divides : Divides d nc (2 ^ s.p) s
  pub exact : nc * (d - s.r2) < 2 ^ s.p
  pub above : width ≤ s.p
  pub small : s.q2 + 1 < 2 * h

pub scale : (a b c : ℕ) → a ≤ b → a * c ≤ b * c
scale a b c h = grind arith

small_quotient :
    (q r d h power : ℕ)
    → q * d + r ≡ 2 * power
    → power ≤ d * (h - 1)
    → 0 < d
    → 2 ≤ h
    → q + 1 < 2 * h
small_quotient q r d h power e low pos big = elim (cases q (2 * h - 2)) [
  | inl le ↦ omega (arith, le)
  | inr gt ↦
      let wide : (2 * h - 1) * d ≤ q * d = scale (2 * h - 1) q d (omega (arith, gt)) in
      let twice : (2 * h - 1) * d ≡ 2 * (d * (h - 1)) + d = split_product h d big in
      absurd (omega (arith, wide, twice, e, low))
]
  where
    cases : (a b : ℕ) → (a ≤ b) ⊎ (b < a)
    cases a b = omega arith

    split_product : (h d : ℕ) → 2 ≤ h → (2 * h - 1) * d ≡ 2 * (d * (h - 1)) + d
    split_product (suc h) d big =
        let e1 : 2 * suc h - 1 ≡ 2 * h + 1 = omega arith in
        let e2 : suc h - 1 ≡ h = omega arith in rw (e1, e2) (omega arith)
    split_product zero d big = absurd (omega arith)

module _ (d nc h width : ℕ) (d_pos : 0 < d) (h_big : 2 ≤ h) (nc_lt : nc ≤ h - 1) where
  -- As long as the loop goes on, the power is small.
  goes_low :
      (s : Search) (power : ℕ)
      → Divides d nc power s
      → signed_continues d s ≡ true
      → power ≤ d * (h - 1)
  goes_low s power v more =
      let le =
        le_of_no_carry s.q1 s.r1 nc (d - s.r2) power v.first v.first_lt
          (continues_cases d s more) in
      let wider : (d - s.r2) * nc ≤ d * nc = scale (d - s.r2) d nc (omega arith) in
      let longer : nc * d ≤ (h - 1) * d = scale nc (h - 1) d nc_lt in
      omega (arith, le, wider, longer)

  pub loop-Ended :
      (fuel : ℕ) (s : Search)
      → Divides d nc (2 ^ s.p) s
      → 2 ^ s.p ≤ d * (h - 1)
      → width ≤ s.p + 1
      → d * (h - 1) < 2 ^ (fuel + s.p)
      → Ended d nc h width (signed_loop fuel d nc s)
  unfolding signed_loop
  loop-Ended zero s v low above enough =
      let e : zero + s.p ≡ s.p = omega arith in absurd (omega (arith, low, rw e at enough))
  loop-Ended (suc fuel) s v low above enough =
      let next = signed_step d nc s in
      let power : 2 ^ next.p ≡ 2 * 2 ^ s.p =
        ap (λ (p : ℕ). 2 ^ p) (step-p d nc s) ∙ simp towards_suc (omega (arith, pow-suc 2 s.p)) in
      let v2 : Divides d nc (2 ^ next.p) next = rw power (step-Divides d nc (2 ^ s.p) s v) in
      let above2 : width ≤ next.p = omega (arith, step-p d nc s, above) in
      elim (Bool-cases (signed_continues d next)) [
        | inl more ↦
            let e : suc fuel + s.p ≡ fuel + next.p = omega (arith, step-p d nc s) in
            rw (signed_loop, more)
              (loop-Ended fuel next v2 (goes_low next (2 ^ next.p) v2 more) (omega (arith, above2))
                (rw e at enough))
        | inr stop ↦
            rw (signed_loop, stop)
              (record {
                divides = v2;
                exact =
                    lt_of_carry next.q1 next.r1 nc (d - next.r2) (2 ^ next.p) v2.first v2.first_lt
                      (stops_cases d next stop);
                above = above2;
                small =
                    small_quotient next.q2 next.r2 d h (2 ^ s.p) (v2.second ∙ power) low d_pos
                      h_big;
              })
      ]

step-q1 : (ad anc : ℕ) (s : Search) → 2 * s.q1 ≤ (signed_step ad anc s).q1
unfolding signed_step
step-q1 ad anc s = ground arith

stops_above : (ad : ℕ) (s : Search) → ad < s.q1 → signed_continues ad s ≡ false
unfolding signed_continues
stops_above ad s above = ground (arith, above)

-- The quotient doubles in each round, and the loop ends by its test before it is out of fuel.
signed_loop_stops :
    (fuel ad anc : ℕ) (s : Search)
    → ad < s.q1 * 2 ^ fuel
    → 0 < fuel
    → signed_continues ad (signed_loop fuel ad anc s) ≡ false
unfolding signed_loop
signed_loop_stops zero ad anc s enough positive = absurd (omega arith)
signed_loop_stops (suc fuel) ad anc s enough positive =
    let next = signed_step ad anc s in
    let power : 2 ^ suc fuel ≡ 2 ^ fuel * 2 = pow-suc 2 fuel in
    let grown : 2 * s.q1 * 2 ^ fuel ≤ next.q1 * 2 ^ fuel =
      scale (2 * s.q1) next.q1 (2 ^ fuel) (step-q1 ad anc s) in
    let later : ad < next.q1 * 2 ^ fuel =
      omega (arith, enough, ap (λ (t : ℕ). s.q1 * t) power, grown) in
    elim (Bool-cases (signed_continues ad next)) [
      | inl more ↦
          rw (signed_loop, more)
            (again fuel ad anc next later more
              (λ pos. signed_loop_stops fuel ad anc next later pos))
      | inr stop ↦ rw (signed_loop, stop) stop
    ]
  where
    again :
        (fuel ad anc : ℕ) (s : Search)
        → ad < s.q1 * 2 ^ fuel
        → signed_continues ad s ≡ true
        → (0 < fuel → signed_continues ad (signed_loop fuel ad anc s) ≡ false)
        → signed_continues ad (signed_loop fuel ad anc s) ≡ false
    again zero ad anc s enough more rest =
        absurd (cc (stops_above ad s (omega (arith, enough)), more))
    again (suc fuel) ad anc s enough more rest = rest (omega arith)

start-q1 : (width ad anc : ℕ) → 1 ≤ 2 ^ (width - 1) / anc → 1 ≤ (signed_start width ad anc).q1
unfolding signed_start
start-q1 width ad anc h = h

-- With the fuel of `magic_signed` it ends for every divisor of the word, negative ones too.
signed_start_stops :
    (width ad anc : ℕ)
    → 0 < width
    → ad ≤ 2 ^ width
    → 0 < anc
    → anc ≤ 2 ^ (width - 1)
    → signed_continues ad (signed_loop (2 * width) ad anc (signed_start width ad anc)) ≡ false
signed_start_stops width ad anc w_pos low pos fits =
    signed_loop_stops (2 * width) ad anc (signed_start width ad anc)
      (enough (start-q1 width ad anc one)) (omega arith)
  where
    one : 1 ≤ 2 ^ (width - 1) / anc
    one = (le-div_iff_mul-le {k = anc} {x = 1} {y = 2 ^ (width - 1)} pos).1 (omega (arith, fits))

    enough :
        1 ≤ (signed_start width ad anc).q1 → ad < (signed_start width ad anc).q1 * 2 ^ (2 * width)
    enough h =
        let q = (signed_start width ad anc).q1 in
        let both : 2 ^ (2 * width) ≡ 2 ^ width * 2 ^ width =
          ap (λ (n : ℕ). 2 ^ n) (omega arith) ∙ two_pow-add width width in
        let word : 2 ^ width ≡ 2 * 2 ^ (width - 1) = two_pow-pred width w_pos in
        let some_h : 1 ≤ 2 ^ (width - 1) = one-le-pow (width - 1) 2 (omega arith) in
        let square : 2 * 2 ^ width ≤ 2 ^ width * 2 ^ width =
          scale 2 (2 ^ width) (2 ^ width) (omega (arith, word, some_h)) in
        let more : 1 * 2 ^ (2 * width) ≤ q * 2 ^ (2 * width) = scale 1 q (2 ^ (2 * width)) h in
        omega (arith, both, square, more, low, word, some_h)
