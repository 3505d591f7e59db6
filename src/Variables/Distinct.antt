-- ===== src/Variables/Distinct.antt =====
-- src/efi/runtime_services.rs: no two slots in use answer to one key.
use crab_efi.Prelude.{
  ℕ, zero, suc, Bool, true, false, none, some, List, [], ◌∷◌, ◌≡◌, refl, inl, inr, set, arith,
  Bool-cases,
}
use crab_efi.Variables.{VariableEntry, is_variable, position, written, clear}
use crab_efi.Variables.Names.{NonZero}
use crab_efi.Variables.Store.{
  is_variable-written, is_variable-same, position_hit, position_miss, position-none_cons,
}

-- No slot answers to a key that the first one answers to, and so on.
unfoldable pub Distinct : List VariableEntry → Type 0
Distinct [] = Unit {0}
Distinct (v ∷ vs) =
    ((g : ℕ) (n : List ℕ)
      → NonZero n
      → is_variable g n v ≡ true
      → position (is_variable g n) vs ≡ none)
    × Distinct vs

position-none-set :
    (p : VariableEntry → Bool) (vs : List VariableEntry) (i : ℕ) (w : VariableEntry)
    → p w ≡ false
    → position p vs ≡ none
    → position p (set vs i w) ≡ none
unfolding position
position-none-set p [] i w miss e = refl
position-none-set p (v ∷ vs) zero w miss e = ground (arith, position-none_cons p v vs e)
position-none-set p (v ∷ vs) (suc i) w miss e =
    let (head, tail) = position-none_cons p v vs e in
    ground (arith, head, position-none-set p vs i w miss tail)

position-none-clear :
    (g : ℕ) (n : List ℕ) (vs : List VariableEntry) (i : ℕ)
    → position (is_variable g n) vs ≡ none
    → position (is_variable g n) (clear vs i) ≡ none
unfolding position clear
position-none-clear g n [] i e = refl
position-none-clear g n (v ∷ vs) zero e =
    ground (arith, position-none_cons (is_variable g n) v vs e)
position-none-clear g n (v ∷ vs) (suc i) e =
    let (head, tail) = position-none_cons (is_variable g n) v vs e in
    ground (arith, head, position-none-clear g n vs i tail)

pub clear-Distinct : (vs : List VariableEntry) (i : ℕ) → Distinct vs → Distinct (clear vs i)
unfolding Distinct clear
clear-Distinct [] i d = tt
clear-Distinct (v ∷ vs) zero d = (λ g n y e. absurd (ground (arith, e)), d.1)
clear-Distinct (v ∷ vs) (suc i) d =
    (λ g n y e. position-none-clear g n vs i (d.0 g n y e), clear-Distinct vs i d.1)

-- A slot that does not answer to the key of the new slot: they share no key.
written-Apart :
    (v : VariableEntry) (g h a : ℕ) (n m c : List ℕ)
    → NonZero n
    → NonZero m
    → is_variable g n v ≡ false
    → is_variable h m v ≡ true
    → is_variable h m (written n g a c) ≡ false
written-Apart v g h a n m c y z miss hit =
    ground (arith, is_variable-written g h a n m c y z, is_variable-same v g h n m)

-- No other slot answers to the key of the new slot.
written-Only :
    (vs : List VariableEntry) (g h a : ℕ) (n m c : List ℕ)
    → NonZero n
    → NonZero m
    → position (is_variable g n) vs ≡ none
    → is_variable h m (written n g a c) ≡ true
    → position (is_variable h m) vs ≡ none
unfolding position
written-Only [] g h a n m c y z e hit = refl
written-Only (v ∷ vs) g h a n m c y z e hit =
    let (head, tail) = position-none_cons (is_variable g n) v vs e in
    ground (
      arith,
      is_variable-written g h a n m c y z,
      is_variable-same v g h n m,
      written-Only vs g h a n m c y z tail hit,
    )

module _ (g a : ℕ) (n c : List ℕ) (y : NonZero n) where
  pub set-Distinct :
      (vs : List VariableEntry) (i : ℕ)
      → Distinct vs
      → position (is_variable g n) vs ≡ some i
      → Distinct (set vs i (written n g a c))
  unfolding Distinct
  set-Distinct [] i d e = tt
  set-Distinct (v ∷ vs) i d e = elim (Bool-cases (is_variable g n v)) [
    | inl hit ↦
        rw (position_hit (is_variable g n) v vs hit e)
          ((λ h m z also. written-Only vs g h a n m c y z (d.0 g n y hit) also), d.1)
    | inr miss ↦
        let (j, index, rest) = position_miss (is_variable g n) v vs miss e in
        rw index (
          λ h m z also.
              position-none-set (is_variable h m) vs j (written n g a c)
                (written-Apart v g h a n m c y z miss also) (d.0 h m z also),
          set-Distinct vs j d.1 rest,
        )
  ]

  pub set_free-Distinct :
      (vs : List VariableEntry) (i : ℕ)
      → Distinct vs
      → position (is_variable g n) vs ≡ none
      → Distinct (set vs i (written n g a c))
  unfolding Distinct
  set_free-Distinct [] i d f = tt
  set_free-Distinct (v ∷ vs) zero d f =
      let (head, tail) = position-none_cons (is_variable g n) v vs f in
      ((λ h m z also. written-Only vs g h a n m c y z tail also), d.1)
  set_free-Distinct (v ∷ vs) (suc i) d f =
      let (head, tail) = position-none_cons (is_variable g n) v vs f in
      (
        λ h m z also.
            position-none-set (is_variable h m) vs i (written n g a c)
              (written-Apart v g h a n m c y z head also) (d.0 h m z also),
        set_free-Distinct vs i d.1 tail,
      )
