-- ===== src/Prelude/Result.antt =====
-- The outcome of a step of the code generator: a value, a returned error, or a Rust panic.
-- An encoder that returns `Option<u32>` returns `err unencodable` for its `None`, which is the
-- error that `encode_inst` makes of it.
use mathlib.Core.Path.{◌≡◌, refl, subst}
use mathlib.Core.Bool.{Bool}
use crabbit.Prelude.Tests.{if◌then◌else◌}
use mathlib.Core.Option.{Option, none, some}

pub data Error : Type 0 where
  unencodable out_of_range unknown_label outside_function missing_operand not_gpr clobbered : Error

pub data Result {ℓ} (A : Type ℓ) : Type ℓ where
  ok : A → Result A
  err : Error → Result A
  panic : Result A

infixl 5 ◌>>=◌
abbrev pub ◌>>=◌ {ℓ κ} : {A : Type ℓ} {B : Type κ} → Result A → (A → Result B) → Result B
panic >>= next = panic
ok value >>= next = next value
err error >>= next = err error

-- An early `return None` or `return Err(..)`.
abbrev pub guard : Bool → Error → Result (Unit {0})
guard passes error = if passes then ok tt else err error

infixl 5 ◌>>◌
abbrev pub ◌>>◌ {ℓ} : {B : Type ℓ} → Result (Unit {0}) → Result B → Result B
first >> second = first >>= λ done. second

-- Rust's `?` on an Option, and `.unwrap()`.
abbrev pub require {ℓ} : {A : Type ℓ} → Error → Option A → Result A
require e none = err e
require e (some a) = ok a

abbrev pub unwrap {ℓ} : {A : Type ℓ} → Option A → Result A
unwrap none = panic
unwrap (some a) = ok a

-- Whatever value is returned has a property.
abbrev pub Returns {ℓ κ} : {A : Type ℓ} → (A → Type κ) → Result A → Type κ
Returns P (ok a) = P a
Returns P (err e) = Unit
Returns P panic = Unit

pub Returns->>= {ℓ κ ι} :
    {A : Type ℓ} {B : Type κ} (P : A → Type ι) (Q : B → Type ι) (r : Result A) (k : A → Result B)
    → Returns P r
    → ((a : A) → P a → Returns Q (k a))
    → Returns Q (r >>= k)
Returns->>= P Q (ok a) k p h = h a p
Returns->>= P Q (err e) k p h = tt
Returns->>= P Q panic k p h = tt

pub Returns-any {ℓ κ} : {A : Type ℓ} (r : Result A) → Returns (λ a. Unit {κ}) r
Returns-any (ok a) = tt
Returns-any (err e) = tt
Returns-any panic = tt

pub Returns-ok {ℓ κ} :
    {A : Type ℓ} (P : A → Type κ) (r : Result A) (a : A) → Returns P r → r ≡ ok a → P a
Returns-ok P r a h e = subst (Returns P) e h

-- A chain that returns has returned at each step.
pub >>=-eq-ok {ℓ κ} :
    {A : Type ℓ} {B : Type κ} (r : Result A) (k : A → Result B) {b : B}
    → (r >>= k) ≡ ok b
    → (a : A) × (r ≡ ok a) × (k a ≡ ok b)
>>=-eq-ok (ok a) k e = (a, refl, e)
>>=-eq-ok (err error) k e = cc
>>=-eq-ok panic k e = cc

pub ok-injective {ℓ} : {A : Type ℓ} (a b : A) → ok a ≡ ok b → a ≡ b
ok-injective a b e = cc
