-- ===== src/Variables/Size.antt =====
-- src/efi/runtime_services.rs: how much the store holds, and QueryVariableInfo.
use crab_efi.Prelude.{
  ℕ, zero, suc, ◌+◌, ◌*◌, ◌≤◌, Bool, List, [], ◌∷◌, ◌++◌, ◌≡◌, refl, ltb, length, length-append,
  if◌then◌else◌, length-set, set, arith, Bool-cases, Option-cases, inl, inr,
}
use crab_efi.Variables.{
  VariableEntry, is_variable, position, is_free, clear, set_variable, store_variable, used_size,
  query_variable_info, max_variables, max_variable_data_size, written, or_free,
}

-- At most 1024 bytes in every slot.
abbrev AllShort : List VariableEntry → Type 0
AllShort [] = Unit {0}
AllShort (v ∷ vs) = (length v.content ≤ max_variable_data_size) × AllShort vs

pub record Sized (vars : List VariableEntry) : Type 0 where
  pub slots : length vars ≤ max_variables
  pub contents : AllShort vars

set-AllShort :
    (vs : List VariableEntry) (i : ℕ) (w : VariableEntry)
    → length w.content ≤ max_variable_data_size
    → AllShort vs
    → AllShort (set vs i w)
set-AllShort [] i w h s = tt
set-AllShort (v ∷ vs) zero w h s = (h, s.1)
set-AllShort (v ∷ vs) (suc i) w h s = (s.0, set-AllShort vs i w h s.1)

clear-AllShort : (vs : List VariableEntry) (i : ℕ) → AllShort vs → AllShort (clear vs i)
unfolding clear
clear-AllShort [] i s = tt
clear-AllShort (v ∷ vs) zero s = (s.0, s.1)
clear-AllShort (v ∷ vs) (suc i) s = (s.0, clear-AllShort vs i s.1)

length-clear : (vs : List VariableEntry) (i : ℕ) → length (clear vs i) ≡ length vs
unfolding clear
length-clear [] i = refl
length-clear (v ∷ vs) zero = refl
length-clear (v ∷ vs) (suc i) = omega (arith, length-clear vs i)

used_size-le :
    (vs : List VariableEntry) → AllShort vs → used_size vs ≤ length vs * max_variable_data_size
unfolding used_size
used_size-le [] s = omega arith
used_size-le (v ∷ vs) s = ground (arith, s.0, used_size-le vs s.1)

store_variable-Sized :
    (vars : List VariableEntry) (n : List ℕ) (g a : ℕ) (c : List ℕ)
    → length c ≤ max_variable_data_size
    → Sized vars
    → Sized (store_variable vars n g a c).0
unfolding store_variable
store_variable-Sized vars n g a [] h s = elim (Option-cases (position (is_variable g n) vars)) [
  | inl absent ↦ rw absent s
  | inr (i, at) ↦ rw at (record {
    slots = omega (arith, length-clear vars i, s.slots);
    contents = clear-AllShort vars i s.contents;
  })
]
store_variable-Sized vars n g a (b ∷ c) h s =
    elim (Option-cases (or_free (position (is_variable g n) vars) (position is_free vars))) [
      | inl full ↦ rw full s
      | inr (i, at) ↦
          let w = written n g a (b ∷ c) in
          rw at (record {
            slots = omega (arith, length-set vars i w, s.slots);
            contents = set-AllShort vars i w h s.contents;
          })
    ]

set_variable-Sized :
    (vars : List VariableEntry) (n : List ℕ) (g a : ℕ) (c : List ℕ) (has_data : Bool)
    → Sized vars
    → Sized (set_variable vars n g a c has_data).0
unfolding set_variable
set_variable-Sized vars n g a c has_data s =
    elim (Bool-cases (ltb max_variable_data_size (length c))) [
      | inl long ↦ ground (arith, long, s)
      | inr short ↦
          ground (arith, short, s, store_variable-Sized vars n g a c (ground (arith, short)) s)
    ]

-- The bytes of all variables in use, one behind the other.
unfoldable pub contents_in_use : List VariableEntry → List ℕ
contents_in_use [] = []
contents_in_use (v ∷ vs) =
    let rest = contents_in_use vs in if v.in_use then v.content ++ rest else rest

used_size-contents_in_use : (vs : List VariableEntry) → used_size vs ≡ length (contents_in_use vs)
unfolding used_size contents_in_use
used_size-contents_in_use [] = refl
used_size-contents_in_use (v ∷ vs) =
    ground (arith, used_size-contents_in_use vs, length-append v.content (contents_in_use vs))

-- Whatever its arguments, SetVariable keeps it that there are at most 64 slots with at most 1024 bytes
-- each; and in such a store the remaining size that QueryVariableInfo reports and the bytes of the
-- variables in use, put one behind the other, add up to 65536.
pub query_variable_info-set_variable :
    (vars : List VariableEntry) (n : List ℕ) (g a : ℕ) (c : List ℕ) (has_data : Bool)
    → Sized vars
    → let after = (set_variable vars n g a c has_data).0 in
      Sized after × ((query_variable_info after).1 + length (contents_in_use after) ≡ 65536)
unfolding query_variable_info
query_variable_info-set_variable vars n g a c has_data s =
    let kept = set_variable-Sized vars n g a c has_data s in
    let after = (set_variable vars n g a c has_data).0 in
    (
      kept,
      omega (arith, used_size-le after kept.contents, used_size-contents_in_use after, kept.slots),
    )
