-- ===== src/Variables/Store.antt =====
-- src/efi/runtime_services.rs: the variable store as a map from GUID and name to attributes and data.
use crab_efi.Prelude.{
  ℕ, suc, ◌-◌, Bool, true, false, ◌&&◌, Option, none, some, List, [], ◌∷◌, ◌≡◌, refl, inl, inr,
  ◌==◌, if◌then◌else◌, length, set, arith, Bool-cases,
}
use crab_efi.Variables.{
  VariableEntry, is_variable, find_variable, position, next_index, written, is_free,
  max_variable_name_len,
}
use crab_efi.Variables.Names.{NonZero, same_name, name_eq-padded, name_eq_unique, same_name-eq}

abbrev pub value_of : Option VariableEntry → Option (ℕ × List ℕ)
value_of none = none
value_of (some v) = some (v.attributes, v.content)

-- The attributes and data under a GUID and a name.
abbrev pub value_at : List VariableEntry → ℕ → List ℕ → Option (ℕ × List ℕ)
value_at vars guid name = value_of (find_variable (is_variable guid name) vars)

abbrev pub same_key : ℕ → List ℕ → ℕ → List ℕ → Bool
same_key g n h m = g == h && same_name n m

-- A slot answers to one key.
pub is_variable_unique :
    (v : VariableEntry) (g h : ℕ) (n m : List ℕ)
    → NonZero n
    → NonZero m
    → is_variable g n v ≡ true
    → is_variable h m v ≡ true
    → same_key g n h m ≡ true
is_variable_unique v g h n m y z e f = ground (arith, name_eq_unique v.name n m y z)

pub is_variable-written :
    (g h a : ℕ) (n m c : List ℕ)
    → NonZero n
    → NonZero m
    → is_variable h m (written n g a c) ≡ same_key g n h m
is_variable-written g h a n m c y z =
    ground (arith, name_eq-padded n m (max_variable_name_len - length n) y z)

abbrev pub is_none {ℓ} : {A : Type ℓ} → Option A → Bool
is_none none = true
is_none (some _) = false

-- A slot answers to equal keys alike.
pub is_variable-same :
    (v : VariableEntry) (g h : ℕ) (n m : List ℕ)
    → same_key g n h m ≡ true
    → is_variable g n v ≡ is_variable h m v
is_variable-same v g h n m e =
    let same : n ≡ m = same_name-eq n m (ground arith) in
    let guid : g ≡ h = ground arith in rw (same, guid)

pub next_index-eq-some :
    (o : Option ℕ) {i : ℕ} → next_index o ≡ some i → (j : ℕ) × (i ≡ suc j) × (o ≡ some j)
next_index-eq-some none e = cc
next_index-eq-some (some j) e = (j, ground arith, refl)

pub position_hit :
    (p : VariableEntry → Bool) (v : VariableEntry) (vs : List VariableEntry) {i : ℕ}
    → p v ≡ true
    → position p (v ∷ vs) ≡ some i
    → i ≡ 0
unfolding position
position_hit p v vs hit e = ground arith

pub position_miss :
    (p : VariableEntry → Bool) (v : VariableEntry) (vs : List VariableEntry) {i : ℕ}
    → p v ≡ false
    → position p (v ∷ vs) ≡ some i
    → (j : ℕ) × (i ≡ suc j) × (position p vs ≡ some j)
unfolding position
position_miss p v vs {i} miss e = next_index-eq-some (position p vs) {i = i} (ground arith)

pub position-none_cons :
    (p : VariableEntry → Bool) (v : VariableEntry) (vs : List VariableEntry)
    → position p (v ∷ vs) ≡ none
    → (p v ≡ false) × (position p vs ≡ none)
unfolding position
position-none_cons p v vs e = ground arith

module _ (g h a : ℕ) (n m c : List ℕ) (y : NonZero n) (z : NonZero m) where
  abbrev pub wanted : List VariableEntry → Option (ℕ × List ℕ)
  wanted vars = if same_key g n h m then some (a, c) else value_at vars h m

  -- Writing the slot that already answers to the key.
  pub value_at-set :
      (vars : List VariableEntry) (i : ℕ)
      → position (is_variable g n) vars ≡ some i
      → value_at (set vars i (written n g a c)) h m ≡ wanted vars
  unfolding find_variable
  value_at-set [] i e = unfold position in cc
  value_at-set (v ∷ vars) i e = elim (Bool-cases (is_variable g n v)) [
    | inl hit ↦
        rw (position_hit (is_variable g n) v vars hit e) (elim (Bool-cases (is_variable h m v)) [
          | inl also ↦ ground (
            arith,
            is_variable-written g h a n m c y z,
            is_variable_unique v g h n m y z hit also,
          )
          | inr other ↦ ground (arith, is_variable-written g h a n m c y z)
        ])
    | inr miss ↦
        let (j, index, rest) = position_miss (is_variable g n) v vars miss e in
        rw index (elim (Bool-cases (is_variable h m v)) [
          | inl also ↦ ground (arith, value_at-set vars j rest, is_variable-same v g h n m)
          | inr other ↦ ground (arith, value_at-set vars j rest)
        ])
  ]

  -- Writing a free slot, where no slot answers to the key.
  pub value_at-set_free :
      (vars : List VariableEntry) (i : ℕ)
      → position is_free vars ≡ some i
      → position (is_variable g n) vars ≡ none
      → value_at (set vars i (written n g a c)) h m ≡ wanted vars
  unfolding find_variable
  value_at-set_free [] i e f = unfold position in cc
  value_at-set_free (v ∷ vars) i e f =
      let (no_match, no_rest) = position-none_cons (is_variable g n) v vars f in
      elim (Bool-cases (is_free v)) [
        | inl free ↦
            rw (position_hit is_free v vars free e)
              (ground (arith, is_variable-written g h a n m c y z))
        | inr used ↦
            let (j, index, rest) = position_miss is_free v vars used e in
            rw index (elim (Bool-cases (is_variable h m v)) [
              | inl also ↦
                  ground (arith, value_at-set_free vars j rest no_rest, is_variable-same v g h n m)
              | inr other ↦ ground (arith, value_at-set_free vars j rest no_rest)
            ])
      ]
