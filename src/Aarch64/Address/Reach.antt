-- ===== src/Aarch64/Address/Reach.antt =====
-- crates/pliron-ll/src/aarch64/encoding.rs, `encode_pc_relative_address`: what the three words
-- leave in the register.
use crabbit.Prelude.{ℕ, suc, ◌+◌, ◌-◌, ◌*◌, ◌/◌, ◌%◌, ◌^◌, ◌≤◌, ◌<◌, ◌≡◌, refl, ◌∙◌, ap, arith}
use crabbit.Prelude.{
  ltb, inl, inr, ◌⊎◌, true, false, ◌&&◌, ◌==◌, ==_iff, if◌then◌else◌, bit_and, bit_or,
}
use crabbit.Prelude.{Option, some, none, List, [], ◌∷◌}
use crabbit.Prelude.Bits.{bit_and_mask, bit_or-high}
use crabbit.Prelude.Int.{ℤ, pos, negsuc, sub_ℕ}
use crabbit.Prelude.Result.{ok}
use crabbit.Prelude.Words.{◌∣◌, ◌<<◌}
use crabbit.Aarch64.Address.{address_words, encode_pc_relative_address, flat_bytes}

-- The architecture's `ADR` with an offset of zero, and `ADD` and `SUB` of an immediate to a
-- register of 64 bits, on the one register that the words use.
unfoldable pub execute : ℕ → ℕ → ℕ → ℕ → Option ℕ
execute w rd pc x =
    let imm = w / 2 ^ 10 % 2 ^ 12 * (if w / 2 ^ 22 % 2 == 1 then 2 ^ 12 else 1) in
    if w == 0x1000_0000 + rd
    then some pc
    else if w % 2 ^ 10 == rd * 2 ^ 5 + rd && w / 2 ^ 23 == 0x122
    then some ((x + imm) % 2 ^ 64)
    else if w % 2 ^ 10 == rd * 2 ^ 5 + rd && w / 2 ^ 23 == 0x1a2
    then some ((x + 2 ^ 64 - imm) % 2 ^ 64)
    else none

abbrev pub continue : Option ℕ → (ℕ → Option ℕ) → Option ℕ
continue none rest = none
continue (some y) rest = rest y

-- Words at places four bytes apart.
unfoldable pub execute_all : List ℕ → ℕ → ℕ → ℕ → Option ℕ
execute_all [] rd pc x = some x
execute_all (w ∷ words) rd pc x = continue (execute w rd pc x) (execute_all words rd (pc + 4))

immediate_word :
    (op shift imm rd : ℕ)
    → shift < 2
    → imm < 2 ^ 12
    → rd < 2 ^ 5
    → (op * 2 ^ 23 ∣ shift << 22 ∣ imm << 10 ∣ rd << 5 ∣ rd)
      ≡ op * 2 ^ 23 + shift * 2 ^ 22 + imm * 2 ^ 10 + rd * 2 ^ 5 + rd
immediate_word op shift imm rd h_shift h_imm h_rd =
    ap (λ (t : ℕ). bit_or (bit_or (bit_or t (imm * 2 ^ 10)) (rd * 2 ^ 5)) rd)
      (bit_or-high 23 op (shift * 2 ^ 22) (omega arith) ∙ omega arith)
    ∙ ap (λ (t : ℕ). bit_or (bit_or t (rd * 2 ^ 5)) rd)
        (bit_or-high 22 (op * 2 + shift) (imm * 2 ^ 10) (omega arith) ∙ omega arith)
    ∙ ap (λ (t : ℕ). bit_or t rd)
        (bit_or-high 10 ((op * 2 + shift) * 2 ^ 12 + imm) (rd * 2 ^ 5) (omega arith) ∙ omega arith)
    ∙ bit_or-high 5 (((op * 2 + shift) * 2 ^ 12 + imm) * 2 ^ 5 + rd) rd h_rd
    ∙ omega arith

==-refl : (x : ℕ) → (x == x) ≡ true
==-refl x = (==_iff x x).1 refl

execute-adr : (rd pc x : ℕ) → rd < 2 ^ 5 → execute (0x1000_0000 ∣ rd) rd pc x ≡ some pc
unfolding execute
execute-adr rd pc x h =
    let e : bit_or 0x1000_0000 rd ≡ 0x1000_0000 + rd = bit_or-high 5 (0x1000_0000 / 2 ^ 5) rd h in
    rw (e, ==-refl (0x1000_0000 + rd)) refl

module _ (shift imm rd pc x : ℕ) (h_shift : shift < 2) (h_imm : imm < 2 ^ 12)
    (h_rd : rd < 2 ^ 5) where
  abbrev scaled : ℕ
  scaled = imm * (if shift == 1 then 2 ^ 12 else 1)

  not_adr :
      (op : ℕ)
      → 0x122 ≤ op
      → (op * 2 ^ 23 + shift * 2 ^ 22 + imm * 2 ^ 10 + rd * 2 ^ 5 + rd == 0x1000_0000 + rd) ≡ false
  not_adr op h = ground arith

  parts :
      (op w : ℕ)
      → w ≡ op * 2 ^ 23 + shift * 2 ^ 22 + imm * 2 ^ 10 + rd * 2 ^ 5 + rd
      → (w % 2 ^ 10 ≡ rd * 2 ^ 5 + rd)
        × (w / 2 ^ 23 ≡ op)
        × (w / 2 ^ 22 % 2 ≡ shift)
        × (w / 2 ^ 10 % 2 ^ 12 ≡ imm)
  parts op w e = (omega arith, omega arith, omega arith, omega arith)

  execute-add :
      execute (0x122 * 2 ^ 23 ∣ shift << 22 ∣ imm << 10 ∣ rd << 5 ∣ rd) rd pc x
      ≡ some ((x + scaled) % 2 ^ 64)
  unfolding execute
  execute-add =
      let (low, op, sh, im) = parts 0x122 _ refl in
      rw
        (
          immediate_word 0x122 shift imm rd h_shift h_imm h_rd,
          not_adr 0x122 (omega arith),
          low,
          op,
          sh,
          im,
          ==-refl (rd * 2 ^ 5 + rd),
        )
        refl

  execute-sub :
      execute (0x1a2 * 2 ^ 23 ∣ shift << 22 ∣ imm << 10 ∣ rd << 5 ∣ rd) rd pc x
      ≡ some ((x + 2 ^ 64 - scaled) % 2 ^ 64)
  unfolding execute
  execute-sub =
      let (low, op, sh, im) = parts 0x1a2 _ refl in
      rw
        (
          immediate_word 0x1a2 shift imm rd h_shift h_imm h_rd,
          not_adr 0x1a2 (omega arith),
          low,
          op,
          sh,
          im,
          ==-refl (rd * 2 ^ 5 + rd),
        )
        refl

masked_low : (n : ℕ) → bit_and n 0xfff ≡ n % 2 ^ 12
masked_low n = bit_and_mask 12 n

masked_high : (n : ℕ) → bit_and (n / 2 ^ 12) 0xfff ≡ n / 2 ^ 12 % 2 ^ 12
masked_high n = bit_and_mask 12 (n / 2 ^ 12)

-- The words for a distance forwards and for one backwards.
module _ (rd pc x : ℕ) (h_rd : rd < 2 ^ 5) where
  three_words :
      (w0 w1 w2 y0 y1 y2 : ℕ)
      → execute w0 rd pc x ≡ some y0
      → execute w1 rd (pc + 4) y0 ≡ some y1
      → execute w2 rd (pc + 4 + 4) y1 ≡ some y2
      → execute_all (w0 ∷ w1 ∷ w2 ∷ []) rd pc x ≡ some y2
  unfolding execute_all
  three_words w0 w1 w2 y0 y1 y2 e0 e1 e2 = rw (e0, e1, e2) refl

  forward :
      (n : ℕ)
      → pc + n < 2 ^ 64
      → n < 2 ^ 24
      → execute_all (address_words rd (pos n)) rd pc x ≡ some (pc + n)
  unfolding address_words
  forward n fits h =
      rw (masked_low n, masked_high n)
        (three_words _ _ _ pc (pc + n % 2 ^ 12) (pc + n) (execute-adr rd pc x h_rd)
          (execute-add 0 (n % 2 ^ 12) rd (pc + 4) pc (omega arith) (omega arith) h_rd
            ∙ ap some (omega arith))
          (execute-add 1 (n / 2 ^ 12 % 2 ^ 12) rd (pc + 4 + 4) (pc + n % 2 ^ 12) (omega arith)
              (omega arith) h_rd
            ∙ ap some (omega arith)))

  backward :
      (n : ℕ)
      → suc n ≤ pc
      → pc < 2 ^ 64
      → suc n ≤ 2 ^ 24 - 1
      → execute_all (address_words rd (negsuc n)) rd pc x ≡ some (pc - suc n)
  unfolding address_words
  backward n le fits h =
      rw (masked_low (suc n), masked_high (suc n))
        (three_words _ _ _ pc (pc - suc n % 2 ^ 12) (pc - suc n) (execute-adr rd pc x h_rd)
          (execute-sub 0 (suc n % 2 ^ 12) rd (pc + 4) pc (omega arith) (omega arith) h_rd
            ∙ ap some (omega arith))
          (execute-sub 1 (suc n / 2 ^ 12 % 2 ^ 12) rd (pc + 4 + 4) (pc - suc n % 2 ^ 12)
              (omega arith) (omega arith) h_rd
            ∙ ap some (omega arith)))

  edge : execute_all (address_words rd (negsuc (2 ^ 24 - 1))) rd pc x ≡ some (pc % 2 ^ 64)
  unfolding address_words
  edge =
      three_words _ _ _ pc (pc % 2 ^ 64) (pc % 2 ^ 64) (execute-adr rd pc x h_rd)
        (execute-sub 0 0 rd (pc + 4) pc (omega arith) (omega arith) h_rd ∙ ap some (omega arith))
        (execute-sub 1 0 rd (pc + 4 + 4) (pc % 2 ^ 64) (omega arith) (omega arith) h_rd
          ∙ ap some (omega arith))

distance :
    (to pc : ℕ)
    → ((n : ℕ) × (sub_ℕ to pc ≡ pos n) × (to ≡ pc + n))
      ⊎ ((n : ℕ) × (sub_ℕ to pc ≡ negsuc n) × (pc ≡ to + suc n))
distance to pc = elim (le_or_lt pc to) [
  | inl le ↦ inl (to - pc, ground arith, omega arith)
  | inr lt ↦ inr (pc - to - 1, ground arith, omega arith)
]
  where
    le_or_lt : (n m : ℕ) → (n ≤ m) ⊎ (m < n)
    le_or_lt n m = omega arith

-- The words are encoded, and leave a place in the register.
abbrev pub Computes : ℕ → ℤ → ℕ → ℕ → ℕ → Type 0
Computes rd delta place x result =
    (words : List ℕ) × (encode_pc_relative_address rd delta
      ≡ ok (record { bytes = flat_bytes words; fixups = [] }))
    × (execute_all words rd place x ≡ some result)

-- For a target less than 16 MiB away and a register below 31, the three words are encoded, and
-- leave the target's place in the register, wherever the code is loaded within 64 bits.
pub encode_pc_relative_address-Computes :
    (rd base to pc x : ℕ)
    → rd < 31
    → to < pc + 2 ^ 24
    → pc < to + 2 ^ 24
    → base + pc < 2 ^ 64
    → base + to < 2 ^ 64
    → Computes rd (sub_ℕ to pc) (base + pc) x (base + to)
unfolding encode_pc_relative_address
encode_pc_relative_address-Computes rd base to pc x h_rd above below fits_pc fits_to =
    elim (distance to pc) [
      | inl (n, e, at) ↦ rw e (
        address_words rd (pos n),
        rw (inside n (omega arith)) refl,
        forward rd (base + pc) x (omega arith) n (omega arith) (omega arith)
            ∙ ap some (omega arith),
      )
      | inr (n, e, at) ↦ rw e (
        address_words rd (negsuc n),
        rw (inside n (omega arith)) refl,
        backward rd (base + pc) x (omega arith) n (omega arith) (omega arith) (omega arith)
            ∙ ap some (omega arith),
      )
    ]
  where
    inside : (n : ℕ) → n < 2 ^ 24 → ltb n (2 ^ 24) ≡ true
    inside n h = ground arith

-- For a target exactly 16 MiB before the code and a register below 31 the words are encoded too, and leave the place
-- of the code itself in the register.
pub encode_pc_relative_address-edge :
    (rd place x : ℕ) → rd < 31 → place < 2 ^ 64 → Computes rd (negsuc (2 ^ 24 - 1)) place x place
unfolding encode_pc_relative_address
encode_pc_relative_address-edge rd place x h_rd fits = (
  address_words rd (negsuc (2 ^ 24 - 1)),
  refl,
  edge rd place x (omega arith) ∙ ap some (omega arith),
)
