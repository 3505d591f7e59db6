-- ===== src/Variables/Names.antt =====
-- src/efi/runtime_services.rs: comparing stored names with a caller's.
use crab_efi.Prelude.{
  ℕ, zero, suc, Bool, true, false, ◌&&◌, List, [], ◌∷◌, ◌++◌, ◌≡◌, ◌≢◌, refl, ◌==◌, replicate,
  arith,
}
use crab_efi.Variables.{name_eq, name_units}

-- A caller's string has no null inside it.
abbrev pub NonZero : List ℕ → Type 0
NonZero [] = Unit {0}
NonZero (c ∷ cs) = (c ≢ 0) × NonZero cs

-- Equality of names.
unfoldable pub same_name : List ℕ → List ℕ → Bool
same_name [] [] = true
same_name (a ∷ m) (b ∷ n) = a == b && same_name m n
same_name _ _ = false

pub same_name_refl : (n : List ℕ) → same_name n n ≡ true
unfolding same_name
same_name_refl [] = refl
same_name_refl (c ∷ n) = ground (arith, same_name_refl n)

name_eq-zeros : (k : ℕ) (n : List ℕ) → NonZero n → name_eq (replicate k 0) n ≡ same_name [] n
unfolding name_eq same_name
name_eq-zeros zero [] z = refl
name_eq-zeros zero (c ∷ n) z = ground arith
name_eq-zeros (suc k) [] z = refl
name_eq-zeros (suc k) (c ∷ n) z = ground arith

-- The array that holds `m` matches the strings that are `m`.
pub name_eq-padded :
    (m n : List ℕ) (k : ℕ) → NonZero m → NonZero n → name_eq (m ++ replicate k 0) n ≡ same_name m n
unfolding name_eq same_name
name_eq-padded [] n k y z = name_eq-zeros k n z
name_eq-padded (a ∷ m) [] k y z = ground (arith, y.0)
name_eq-padded (a ∷ m) (b ∷ n) k y z = ground (arith, y.0, name_eq-padded m n k y.1 z.1)

-- A stored name matches at most one string.
pub name_eq_unique :
    (s m n : List ℕ)
    → NonZero m
    → NonZero n
    → name_eq s m ≡ true
    → name_eq s n ≡ true
    → same_name m n ≡ true
unfolding name_eq same_name
name_eq_unique [] [] [] y z e f = refl
name_eq_unique [] [] (c ∷ n) y z e f = ground arith
name_eq_unique [] (c ∷ m) n y z e f = ground arith
name_eq_unique (a ∷ s) [] [] y z e f = refl
name_eq_unique (a ∷ s) [] (c ∷ n) y z e f = ground arith
name_eq_unique (a ∷ s) (b ∷ m) [] y z e f = ground arith
name_eq_unique (a ∷ s) (b ∷ m) (c ∷ n) y z e f = ground (arith, name_eq_unique s m n y.1 z.1)

pub same_name-eq : (m n : List ℕ) → same_name m n ≡ true → m ≡ n
unfolding same_name
same_name-eq [] [] e = refl
same_name-eq [] (c ∷ n) e = cc
same_name-eq (a ∷ m) [] e = cc
same_name-eq (a ∷ m) (b ∷ n) e = ground (arith, same_name-eq m n)

name_units-zeros : (k : ℕ) → name_units (replicate k 0) ≡ []
unfolding name_units
name_units-zeros zero = refl
name_units-zeros (suc k) = refl

pub name_units-padded : (n : List ℕ) (k : ℕ) → NonZero n → name_units (n ++ replicate k 0) ≡ n
unfolding name_units
name_units-padded [] k z = name_units-zeros k
name_units-padded (c ∷ n) k z = ground (arith, name_units-padded n k z.1)
