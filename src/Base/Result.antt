-- ===== src/Base/Result.antt =====
-- Rust's `Result`, with `?` as the bind of a `do` block.
use mathlib.Core.Path.{◌≡◌, refl}
use mathlib.Core.Logic.{◌⊎◌, inl, inr}
use mathlib.Core.Bool.{Bool, true, false}
use mathlib.Core.Option.{Option, none, some}

pub data Result {ℓ} (E : Type 0) (T : Type ℓ) : Type ℓ where
  err : E → Result E T
  ok : T → Result E T

infixl 4 ◌>>=◌
abbrev pub ◌>>=◌ {κ ℓ} :
    {E : Type 0} {T : Type κ} {U : Type ℓ} → Result E T → (T → Result E U) → Result E U
err why >>= next = err why
ok value >>= next = next value

-- `option.ok_or(why)?`
abbrev pub or_err {ℓ} : {E : Type 0} {T : Type ℓ} → E → Option T → Result E T
or_err why none = err why
or_err why (some value) = ok value

-- An early return of an error where a test fails.
abbrev pub unless : {E : Type 0} → E → Bool → Result E (Unit {0})
unless why true = err why
unless why false = ok tt

-- A chain that went well went well in its first step, and in the rest from its value.
pub chain_went_well {κ ℓ} :
    {E : Type 0} {T : Type κ} {U : Type ℓ} (next : T → Result E U) (first : Result E T) {last : U}
    → (first >>= next) ≡ ok last
    → (value : T) × (first ≡ ok value) × (next value ≡ ok last)
chain_went_well next (err why) e = cc
chain_went_well next (ok value) e = (value, refl, e)

pub Result-cases {ℓ} :
    {E : Type 0} {T : Type ℓ} (r : Result E T)
    → ((why : E) × (r ≡ err why)) ⊎ ((value : T) × (r ≡ ok value))
Result-cases (err why) = inl (why, refl)
Result-cases (ok value) = inr (value, refl)

pub ok_eq {ℓ} : {E : Type 0} {T : Type ℓ} (a b : T) → ◌≡◌ {A = Result E T} (ok a) (ok b) → a ≡ b
ok_eq a b e = cc
