-- ===== src/Variables.antt =====
-- src/efi/runtime_services.rs and src/state.rs: the variable store behind GetVariable, SetVariable,
-- GetNextVariableName and QueryVariableInfo. A caller's name is the list of its code units before the
-- null; a stored name is the whole array. The stored data is the part of the array that `data_size`
-- covers, all that is ever read.
pub mod Names
pub mod Store
pub mod Distinct
pub mod Set
pub mod Walk
pub mod Size
mod Tests
use crab_efi.Prelude.{
  ℕ, zero, suc, ◌+◌, ◌-◌, ◌*◌, Bool, true, false, not, ◌&&◌, ◌||◌, Option, none, some, List, [],
  ◌∷◌, ◌++◌, ◌==◌, leb, ltb, if◌then◌else◌, length, replicate, set,
}
use crab_efi.Status.{
  Status, success, invalid_parameter, out_of_resources, not_found, buffer_too_small,
}

abbrev pub max_variables : ℕ
max_variables = 64

abbrev pub max_variable_name_len : ℕ
max_variable_name_len = 64

abbrev pub max_variable_data_size : ℕ
max_variable_data_size = 1024

pub record VariableEntry : Type 0 where
  pub name : List ℕ
  pub vendor_guid : ℕ
  pub attributes : ℕ
  pub content : List ℕ
  pub in_use : Bool

-- `VariableEntry::empty` and `EfiState::new`
abbrev pub empty_variable : VariableEntry
empty_variable = record {
  name = replicate max_variable_name_len 0;
  vendor_guid = 0;
  attributes = 0;
  content = [];
  in_use = false;
}

abbrev pub new_variables : List VariableEntry
new_variables = replicate max_variables empty_variable

-- `name_eq`: the array against the caller's string, whose end is a null.
unfoldable pub name_eq : List ℕ → List ℕ → Bool
name_eq [] [] = true
name_eq [] (b ∷ name) = b == 0
name_eq (a ∷ stored) [] = a == 0
name_eq (a ∷ stored) (b ∷ name) = if a == b then a == 0 || name_eq stored name else false

abbrev pub is_variable : ℕ → List ℕ → VariableEntry → Bool
is_variable guid name v = v.in_use && v.vendor_guid == guid && name_eq v.name name

-- `variables.iter().find(p)`
unfoldable pub find_variable : (VariableEntry → Bool) → List VariableEntry → Option VariableEntry
find_variable p [] = none
find_variable p (v ∷ vs) = if p v then some v else find_variable p vs

abbrev pub next_index : Option ℕ → Option ℕ
next_index none = none
next_index (some i) = some (suc i)

-- `variables.iter().position(p)`
unfoldable pub position : (VariableEntry → Bool) → List VariableEntry → Option ℕ
position p [] = none
position p (v ∷ vs) = if p v then some 0 else next_index (position p vs)

-- The status, what `*data_size` holds afterwards, and the attributes and bytes that are copied out.
pub record Got : Type 0 where
  pub status : Status
  pub size : ℕ
  pub value : Option (ℕ × List ℕ)

abbrev got_found : ℕ → Bool → Option VariableEntry → Got
got_found size has_data none = record { status = not_found; size = size; value = none }
got_found size has_data (some v) =
    let required = length v.content in
    if not has_data || ltb size required
    then record { status = buffer_too_small; size = required; value = none }
    else record { status = success; size = required; value = some (v.attributes, v.content) }

-- The pointers for name, GUID and size are not null; the flag says whether the data pointer is.
unfoldable pub get_variable : List VariableEntry → List ℕ → ℕ → ℕ → Bool → Got
get_variable vars name guid size has_data =
    got_found size has_data (find_variable (is_variable guid name) vars)

-- The slot that is written: the name, filled up with nulls, and the data.
abbrev pub written : List ℕ → ℕ → ℕ → List ℕ → VariableEntry
written name guid attributes content = record {
  name = name ++ replicate (max_variable_name_len - length name) 0;
  vendor_guid = guid;
  attributes = attributes;
  content = content;
  in_use = true;
}

abbrev pub is_free : VariableEntry → Bool
is_free v = not v.in_use

abbrev release : VariableEntry → VariableEntry
release v = record v { in_use = false }

-- `variables[idx].in_use = false`
unfoldable pub clear : List VariableEntry → ℕ → List VariableEntry
clear [] i = []
clear (v ∷ vs) zero = release v ∷ vs
clear (v ∷ vs) (suc i) = v ∷ clear vs i

abbrev delete_at : List VariableEntry → Option ℕ → List VariableEntry × Status
delete_at vars none = (vars, not_found)
delete_at vars (some i) = (clear vars i, success)

abbrev or_free : Option ℕ → Option ℕ → Option ℕ
or_free none free = free
or_free (some i) free = some i

abbrev write_at : List VariableEntry → VariableEntry → Option ℕ → List VariableEntry × Status
write_at vars w none = (vars, out_of_resources)
write_at vars w (some i) = (set vars i w, success)

-- After the checks on name and size.
unfoldable pub store_variable :
    List VariableEntry → List ℕ → ℕ → ℕ → List ℕ → List VariableEntry × Status
store_variable vars name guid attributes [] = delete_at vars (position (is_variable guid name) vars)
store_variable vars name guid attributes (b ∷ content) =
    write_at vars (written name guid attributes (b ∷ content))
      (or_free (position (is_variable guid name) vars) (position is_free vars))

-- The pointers for name and GUID are not null; the flag says whether the data pointer is. The bytes
-- are those that it points to.
unfoldable pub set_variable :
    List VariableEntry → List ℕ → ℕ → ℕ → List ℕ → Bool → List VariableEntry × Status
set_variable vars name guid attributes content has_data =
    if length name == 0 || leb max_variable_name_len (length name)
    then (vars, invalid_parameter)
    else if ltb max_variable_data_size (length content)
    then (vars, out_of_resources)
    else if ltb 0 (length content) && not has_data
    then (vars, invalid_parameter)
    else store_variable vars name guid attributes content

-- `ucs2_strlen` and the copy of that many units: the name up to the first null.
unfoldable pub name_units : List ℕ → List ℕ
name_units [] = []
name_units (c ∷ cs) = if c == 0 then [] else c ∷ name_units cs

-- `iter().filter(in_use)` and its first element.
unfoldable pub first_used : List VariableEntry → Option VariableEntry
first_used [] = none
first_used (v ∷ vs) = if v.in_use then some v else first_used vs

-- `filter(in_use).skip_while(is not the current one).nth(1)`
unfoldable pub used_after : (VariableEntry → Bool) → List VariableEntry → Option VariableEntry
used_after p [] = none
used_after p (v ∷ vs) = if p v then first_used vs else used_after p vs

-- The status, what `*variable_name_size` holds afterwards, and the name and GUID copied out.
pub record Next : Type 0 where
  pub status : Status
  pub size : ℕ
  pub key : Option (ℕ × List ℕ)

abbrev next_found : ℕ → Option VariableEntry → Next
next_found size none = record { status = not_found; size = size; key = none }
next_found size (some v) =
    let required = (length (name_units v.name) + 1) * 2 in
    if ltb size required
    then record { status = buffer_too_small; size = required; key = none }
    else record { status = success; size = required; key = some (v.vendor_guid, name_units v.name) }

unfoldable pub get_next_variable_name : List VariableEntry → ℕ → List ℕ → ℕ → Next
get_next_variable_name vars size [] guid = next_found size (first_used vars)
get_next_variable_name vars size (c ∷ name) guid =
    next_found size (used_after (is_variable guid (c ∷ name)) vars)

unfoldable pub used_size : List VariableEntry → ℕ
used_size [] = 0
used_size (v ∷ vs) = (if v.in_use then length v.content else 0) + used_size vs

-- Maximum storage, remaining storage, maximum size of a variable.
unfoldable pub query_variable_info : List VariableEntry → ℕ × ℕ × ℕ
query_variable_info vars =
    let total = max_variables * max_variable_data_size in
    (total, total - used_size vars, max_variable_data_size)
