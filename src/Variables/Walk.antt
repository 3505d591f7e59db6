-- ===== src/Variables/Walk.antt =====
-- src/efi/runtime_services.rs: what a caller sees who calls GetNextVariableName over and over.
use crab_efi.Prelude.{
  ℕ, zero, suc, ◌*◌, ◌-◌, ◌<◌, Bool, true, none, some, List, [], ◌∷◌, ◌++◌, ◌≡◌, ◌≢◌, refl, ap, ◌∙◌,
  inl, inr, if◌then◌else◌, length, replicate, arith, Bool-cases, subst,
}
use crab_efi.Variables.{
  VariableEntry, is_variable, position, name_units, first_used, used_after, next_found,
  get_next_variable_name, max_variable_name_len,
}
use crab_efi.Variables.Names.{NonZero, name_eq-padded, same_name_refl, name_units-padded}
use crab_efi.Variables.Store.{position-none_cons}
use crab_efi.Variables.Distinct.{Distinct}
use crab_efi.Variables.Set.{ValidName}

-- A slot in use holds a valid name, filled up with nulls.
abbrev pub Padded : VariableEntry → Type 0
Padded v =
    v.in_use ≡ true
    → (n : List ℕ) × ValidName n × (v.name ≡ n ++ replicate (max_variable_name_len - length n) 0)

abbrev pub AllPadded : List VariableEntry → Type 0
AllPadded [] = Unit {0}
AllPadded (v ∷ vs) = Padded v × AllPadded vs

-- The keys of the slots in use, in the order of the slots.
unfoldable pub used_keys : List VariableEntry → List (ℕ × List ℕ)
used_keys [] = []
used_keys (v ∷ vs) =
    if v.in_use then (v.vendor_guid, name_units v.name) ∷ used_keys vs else used_keys vs

-- The largest buffer that a stored name wants, in bytes.
abbrev pub name_buffer : ℕ
name_buffer = max_variable_name_len * 2

-- At most so many calls, each with the key that the last one returned.
unfoldable pub walk : ℕ → List VariableEntry → List ℕ → ℕ → List (ℕ × List ℕ)
walk zero vars name guid = []
walk (suc k) vars name guid = elim (get_next_variable_name vars name_buffer name guid).key [
  | none ↦ []
  | some (g, n) ↦ (g, n) ∷ walk k vars n g
]

position-found :
    (p : VariableEntry → Bool) (before after : List VariableEntry) (v : VariableEntry)
    → p v ≡ true
    → position p (before ++ v ∷ after) ≢ none
unfolding position
position-found p [] after v hit e = ground (arith, hit, e)
position-found p (b ∷ before) after v hit e =
    position-found p before after v hit (position-none_cons p b (before ++ v ∷ after) e).1

-- The search stops at the slot that answers to the key, and goes on behind it.
used_after-at :
    (g : ℕ) (n : List ℕ) (before after : List VariableEntry) (v : VariableEntry)
    → NonZero n
    → Distinct (before ++ v ∷ after)
    → is_variable g n v ≡ true
    → used_after (is_variable g n) (before ++ v ∷ after) ≡ first_used after
unfolding used_after Distinct
used_after-at g n [] after v y d hit = ground (arith, hit)
used_after-at g n (b ∷ before) after v y d hit = elim (Bool-cases (is_variable g n b)) [
  | inl also ↦ absurd (position-found (is_variable g n) before after v hit (d.0 g n y also))
  | inr miss ↦ ground (arith, miss, used_after-at g n before after v y d.1 hit)
]

-- A slot that holds a valid name is returned with it, and answers to it.
module _ (v : VariableEntry) (n : List ℕ) (w : ValidName n) where
  abbrev Holds : Type 0
  Holds = v.name ≡ n ++ replicate (max_variable_name_len - length n) 0

  returned : Holds → (next_found name_buffer (some v)).key ≡ some (v.vendor_guid, n)
  returned e =
      let units : name_units v.name ≡ n =
        rw e (name_units-padded n (max_variable_name_len - length n) w.units) in
      rw units (ground (arith, w.short))

  answers : Holds → v.in_use ≡ true → is_variable v.vendor_guid n v ≡ true
  answers e used =
      let same = name_eq-padded n n (max_variable_name_len - length n) w.units w.units in
      rw (used, e, same, same_name_refl n) (ground arith)

-- A call with a name that is not empty looks behind the slot that has it.
get_next_variable_name-after :
    (vars : List VariableEntry) (n : List ℕ) (g : ℕ)
    → ValidName n
    → get_next_variable_name vars name_buffer n g
      ≡ next_found name_buffer (used_after (is_variable g n) vars)
unfolding get_next_variable_name
get_next_variable_name-after vars [] g w = ground (arith, w.some_unit)
get_next_variable_name-after vars (c ∷ n) g w = refl

snoc-append {ℓ} :
    {A : Type ℓ} (before after : List A) (v : A)
    → before ++ v ∷ after ≡ (before ++ (v ∷ [])) ++ after
snoc-append [] after v = refl
snoc-append (b ∷ before) after v = ap (λ l. b ∷ l) (snoc-append before after v)

walk_end :
    (vars : List VariableEntry) (k : ℕ) (name : List ℕ) (guid : ℕ)
    → (get_next_variable_name vars name_buffer name guid).key ≡ none
    → walk (suc k) vars name guid ≡ []
unfolding walk
walk_end vars k name guid e = rw (walk, e) refl

walk_on :
    (vars : List VariableEntry) (k : ℕ) (name n : List ℕ) (guid g : ℕ)
    → (get_next_variable_name vars name_buffer name guid).key ≡ some (g, n)
    → walk (suc k) vars name guid ≡ (g, n) ∷ walk k vars n g
unfolding walk
walk_on vars k name n guid g e = rw (walk, e) refl

walk-rest :
    (after before vars : List VariableEntry) (k : ℕ) (name : List ℕ) (guid : ℕ)
    → vars ≡ before ++ after
    → Distinct vars
    → AllPadded after
    → get_next_variable_name vars name_buffer name guid ≡ next_found name_buffer (first_used after)
    → length (used_keys after) < k
    → walk k vars name guid ≡ used_keys after
unfolding walk used_keys first_used
walk-rest after before vars zero name guid split d ps next enough = ground arith
walk-rest [] before vars (suc k) name guid split d ps next enough =
    walk_end vars k name guid (ap (λ r. r.key) next)
walk-rest (v ∷ after) before vars (suc k) name guid split d ps next enough =
    elim (Bool-cases v.in_use) [
      | inl used ↦
          let (n, w, e) = ps.0 used in
          let first : first_used (v ∷ after) ≡ some v = ground (arith, used) in
          let key = ap (λ r. r.key) (next ∙ ap (next_found name_buffer) first) ∙ returned v n w e in
          let behind =
            used_after-at v.vendor_guid n before after v w.units (subst Distinct split d)
              (answers v n w e used) in
          let again =
            get_next_variable_name-after vars n v.vendor_guid w
            ∙ ap (next_found name_buffer)
                (ap (used_after (is_variable v.vendor_guid n)) split ∙ behind) in
          let rest =
            walk-rest after (before ++ (v ∷ [])) vars k n v.vendor_guid
              (split ∙ snoc-append before after v) d ps.1 again (ground (arith, used, enough)) in
          let units : name_units v.name ≡ n =
            rw e (name_units-padded n (max_variable_name_len - length n) w.units) in
          walk_on vars k name n guid v.vendor_guid key ∙ rw rest (ground (arith, used, units))
      | inr free ↦
          let first : first_used (v ∷ after) ≡ first_used after = ground (arith, free) in
          let rest =
            walk-rest after (before ++ (v ∷ [])) vars (suc k) name guid
              (split ∙ snoc-append before after v) d ps.1 (next ∙ ap (next_found name_buffer) first)
              (ground (arith, free, enough)) in
          rest ∙ ground (arith, free)
    ]

-- In a store in which no two slots answer to one key and every slot in use holds a valid name: a
-- caller who starts with the empty name and passes each result on, with a buffer of 128 bytes, gets
-- the keys of all slots in use, each once and in the order of the slots, and then no other. One call
-- more than there are slots in use is enough.
pub walk-used_keys :
    (vars : List VariableEntry) (k guid : ℕ)
    → Distinct vars
    → AllPadded vars
    → length (used_keys vars) < k
    → walk k vars [] guid ≡ used_keys vars
unfolding get_next_variable_name
walk-used_keys vars k guid d ps enough = walk-rest vars [] vars k [] guid refl d ps refl enough
