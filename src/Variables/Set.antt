-- ===== src/Variables/Set.antt =====
-- src/efi/runtime_services.rs: SetVariable as an update of the map from GUID and name to contents.
use crab_efi.Prelude.{
  ℕ, ◌≤◌, ◌<◌, Bool, true, none, some, List, [], ◌∷◌, ◌≡◌, ◌≢◌, refl, ◌⊎◌, inl, inr, ltb,
  if◌then◌else◌, length, arith, Bool-cases, Option-cases,
}
use crab_efi.Status.{success, out_of_resources, not_found, buffer_too_small}
use crab_efi.Variables.{
  VariableEntry, is_variable, find_variable, position, get_variable, Got, is_free, clear,
  store_variable, set_variable, max_variable_name_len, max_variable_data_size,
}
use crab_efi.Variables.Names.{NonZero, same_name_refl}
use crab_efi.Variables.Store.{
  value_at, same_key, is_variable_unique, is_variable-same, position_hit, position_miss,
  position-none_cons, value_at-set, value_at-set_free,
}
use crab_efi.Variables.Distinct.{Distinct, clear-Distinct, set-Distinct, set_free-Distinct}

-- No slot answers to the key: nothing is found under it.
pub find-none :
    (p : VariableEntry → Bool) (vs : List VariableEntry)
    → position p vs ≡ none
    → find_variable p vs ≡ none
unfolding find_variable
find-none p [] e = refl
find-none p (v ∷ vs) e =
    let (head, tail) = position-none_cons p v vs e in ground (arith, head, find-none p vs tail)

find-some :
    (p : VariableEntry → Bool) (vs : List VariableEntry) (i : ℕ)
    → position p vs ≡ some i
    → (v : VariableEntry) × (find_variable p vs ≡ some v)
unfolding find_variable
find-some p [] i e = unfold position in cc
find-some p (v ∷ vs) i e = elim (Bool-cases (p v)) [
  | inl hit ↦ (v, ground (arith, hit))
  | inr miss ↦
      let (j, index, rest) = position_miss p v vs miss e in
      let (w, found) = find-some p vs j rest in (w, ground (arith, miss, found))
]

module _ (g h : ℕ) (n m : List ℕ) (y : NonZero n) (z : NonZero m) where
  value_at-clear :
      (vars : List VariableEntry) (i : ℕ)
      → Distinct vars
      → position (is_variable g n) vars ≡ some i
      → value_at (clear vars i) h m ≡ (if same_key g n h m then none else value_at vars h m)
  unfolding find_variable clear Distinct
  value_at-clear [] i d e = unfold position in cc
  value_at-clear (v ∷ vars) i d e = elim (Bool-cases (is_variable g n v)) [
    | inl hit ↦
        rw (position_hit (is_variable g n) v vars hit e) (elim (Bool-cases (is_variable h m v)) [
          | inl also ↦ ground (
            arith,
            also,
            is_variable_unique v g h n m y z hit also,
            find-none (is_variable h m) vars (d.0 h m z also),
          )
          | inr other ↦ ground (arith, hit, other, is_variable-same v g h n m)
        ])
    | inr miss ↦
        let (j, index, rest) = position_miss (is_variable g n) v vars miss e in
        rw index (elim (Bool-cases (is_variable h m v)) [
          | inl also ↦ ground (arith, miss, also, is_variable-same v g h n m)
          | inr other ↦ ground (arith, other, value_at-clear vars j d.1 rest)
        ])
  ]

-- What a name must be for SetVariable: code units that are not null, at least one, less than 64.
pub record ValidName (n : List ℕ) : Type 0 where
  pub units : NonZero n
  pub some_unit : 0 < length n
  pub short : length n < max_variable_name_len

-- SetVariable passes its checks.
set_variable-checked :
    (vars : List VariableEntry) (n : List ℕ) (g a : ℕ) (c : List ℕ)
    → ValidName n
    → length c ≤ max_variable_data_size
    → set_variable vars n g a c true ≡ store_variable vars n g a c
unfolding set_variable
set_variable-checked vars n g a c v short = ground (arith, v.some_unit, v.short)

-- What GetVariable gives for attributes and data into a buffer of a size.
abbrev pub got_value : ℕ → ℕ → List ℕ → Got
got_value size a c =
    if ltb size (length c)
    then record { status = buffer_too_small; size = length c; value = none }
    else record { status = success; size = length c; value = some (a, c) }

-- For a valid name and data of at most 1024 bytes that is not empty: SetVariable succeeds, and every valid key then has what it had, but the key
-- written the new attributes and data; or the store is unchanged, the key had no value, every slot is
-- in use, and the status is EFI_OUT_OF_RESOURCES.
pub set_variable_lem :
    (vars : List VariableEntry) (g h a b : ℕ) (n m c : List ℕ)
    → ValidName n
    → ValidName m
    → length (b ∷ c) ≤ max_variable_data_size
    → let (after, status) = set_variable vars n g a (b ∷ c) true in
      ((status ≡ success)
        × (value_at after h m ≡ (if same_key g n h m then some (a, b ∷ c) else value_at vars h m)))
      ⊎ ((status ≡ out_of_resources)
          × (after ≡ vars)
          × (value_at vars g n ≡ none)
          × (position is_free vars ≡ none))
unfolding store_variable
set_variable_lem vars g h a b n m c v w short =
    rw (set_variable-checked vars n g a (b ∷ c) v short)
      (elim (Option-cases (position (is_variable g n) vars)) [
        | inl absent ↦ elim (Option-cases (position is_free vars)) [
          | inl full ↦
              rw (absent, full)
                (inr (refl, refl, rw (find-none (is_variable g n) vars absent), refl))
          | inr (i, free) ↦
              rw (absent, free)
                (inl (refl, value_at-set_free g h a n m (b ∷ c) v.units w.units vars i free absent))
        ]
        | inr (i, at) ↦ rw at (inl (refl, value_at-set g h a n m (b ∷ c) v.units w.units vars i at))
      ])

-- SetVariable with no data, for a valid name, in a store in which no two slots answer to one key: it
-- succeeds, the key had a value and has none afterwards, and every other valid key keeps its own; or
-- the key had no value, the store is unchanged and the status is EFI_NOT_FOUND.
pub set_variable-delete :
    (vars : List VariableEntry) (g h a : ℕ) (n m : List ℕ) (has_data : Bool)
    → Distinct vars
    → ValidName n
    → ValidName m
    → let (after, status) = set_variable vars n g a [] has_data in
      ((status ≡ success)
        × (value_at vars g n ≢ none)
        × (value_at after h m ≡ (if same_key g n h m then none else value_at vars h m)))
      ⊎ ((status ≡ not_found) × (after ≡ vars) × (value_at vars g n ≡ none))
unfolding set_variable store_variable
set_variable-delete vars g h a n m has_data d v w =
    let checked : set_variable vars n g a [] has_data ≡ store_variable vars n g a [] =
      ground (arith, v.some_unit, v.short) in
    rw checked (elim (Option-cases (position (is_variable g n) vars)) [
      | inl absent ↦ rw absent (inr (refl, refl, rw (find-none (is_variable g n) vars absent)))
      | inr (i, at) ↦
          let (slot, found) = find-some (is_variable g n) vars i at in
          rw at (inl (refl, rw found (λ e. cc), value_at-clear g h n m v.units w.units vars i d at))
    ])

store_variable-Distinct :
    (vars : List VariableEntry) (g a : ℕ) (n c : List ℕ)
    → NonZero n
    → Distinct vars
    → Distinct (store_variable vars n g a c).0
unfolding store_variable
store_variable-Distinct vars g a n [] y d = elim (Option-cases (position (is_variable g n) vars)) [
  | inl absent ↦ rw absent d
  | inr (i, at) ↦ rw at (clear-Distinct vars i d)
]
store_variable-Distinct vars g a n (b ∷ c) y d =
    elim (Option-cases (position (is_variable g n) vars)) [
      | inl absent ↦ elim (Option-cases (position is_free vars)) [
        | inl full ↦ rw (absent, full) d
        | inr (i, free) ↦ rw (absent, free) (set_free-Distinct g a n (b ∷ c) y vars i d absent)
      ]
      | inr (i, at) ↦ rw at (set-Distinct g a n (b ∷ c) y vars i d at)
    ]

-- For a name without a null inside: whatever the attributes and data, SetVariable keeps it that no two
-- slots answer to one key, on every path.
pub set_variable-Distinct :
    (vars : List VariableEntry) (g a : ℕ) (n c : List ℕ) (has_data : Bool)
    → NonZero n
    → Distinct vars
    → Distinct (set_variable vars n g a c has_data).0
unfolding set_variable
set_variable-Distinct vars g a n c has_data y d =
    ground (arith, store_variable-Distinct vars g a n c y d)

get_variable-value :
    (vars : List VariableEntry) (g a size : ℕ) (n c : List ℕ)
    → value_at vars g n ≡ some (a, c)
    → get_variable vars n g size true ≡ got_value size a c
unfolding get_variable
get_variable-value vars g a size n c e =
    elim (Option-cases (find_variable (is_variable g n) vars)) [
      | inl absent ↦ ground (arith, absent, e)
      | inr (v, found) ↦ ground (arith, found, e)
    ]

-- What SetVariable has stored with success under a valid name, GetVariable returns to a buffer that
-- is large enough; for a smaller one it gives EFI_BUFFER_TOO_SMALL and the size that is needed. The
-- data is not empty and at most 1024 bytes.
pub get_variable-set_variable :
    (vars : List VariableEntry) (g a b size : ℕ) (n c : List ℕ)
    → ValidName n
    → length (b ∷ c) ≤ max_variable_data_size
    → (set_variable vars n g a (b ∷ c) true).1 ≡ success
    → get_variable (set_variable vars n g a (b ∷ c) true).0 n g size true ≡ got_value size a (b ∷ c)
get_variable-set_variable vars g a b size n c v short stored =
    elim (set_variable_lem vars g g a b n n c v v short) [
      | inl (_, value) ↦
          get_variable-value (set_variable vars n g a (b ∷ c) true).0 g a size n (b ∷ c)
            (ground (arith, value, same_name_refl n))
      | inr (full, _, _, _) ↦ cc
    ]
