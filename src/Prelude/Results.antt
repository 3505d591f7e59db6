-- ===== src/Prelude/Results.antt =====
-- `core::result::Result`, with the error first.
use mathlib.Core.Path.{◌≡◌, refl}
use mathlib.Core.Logic.{◌⊎◌, inl, inr}
use mathlib.Core.Bool.{Bool, true, false}

pub data Fallible {ℓ κ} (E : Type ℓ) (A : Type κ) : Type (ℓ ⊔ κ) where
  ok : A → Fallible E A
  err : E → Fallible E A

module _ {E : Type 0} where
  -- An early return of an error where a test fails.
  abbrev pub guard : Bool → E → Fallible E (Unit {0})
  guard false failure = err failure
  guard true failure = ok tt

  -- The operator `?`, where its value is used, and where it is not.
  infixl 5 ◌>>=◌
  abbrev pub ◌>>=◌ : {A B : Type 0} → Fallible E A → (A → Fallible E B) → Fallible E B
  err failure >>= next = err failure
  ok value >>= next = next value

  infixl 5 ◌>>◌
  abbrev pub ◌>>◌ : {B : Type 0} → Fallible E (Unit {0}) → Fallible E B → Fallible E B
  test >> next = test >>= λ passed. next

  -- `map_err`
  abbrev pub map_err : {F A : Type 0} → (E → F) → Fallible E A → Fallible F A
  map_err f (ok value) = ok value
  map_err f (err failure) = err (f failure)

  pub result-cases :
      {A : Type 0} (r : Fallible E A) → ((e : E) × (r ≡ err e)) ⊎ ((a : A) × (r ≡ ok a))
  result-cases (err failure) = inl (failure, refl)
  result-cases (ok value) = inr (value, refl)

  -- Both parts of a chain that went well.
  pub bind_inverted :
      {A B : Type 0} (r : Fallible E A) (next : A → Fallible E B) {b : B}
      → (r >>= next) ≡ ok b
      → (a : A) × (r ≡ ok a) × (next a ≡ ok b)
  bind_inverted (err failure) next h = cc
  bind_inverted (ok value) next h = (value, refl, h)
