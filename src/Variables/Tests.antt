-- ===== src/Variables/Tests.antt =====
-- The theorems on the variable store at concrete inputs.
use crab_efi.Prelude.{
  length, ◌+◌, ℕ, true, none, some, List, [], ◌∷◌, ◌≡◌, refl, ◌⊎◌, if◌then◌else◌, replicate, arith,
}
use crab_efi.Status.{success, out_of_resources}
use crab_efi.Variables.{
  query_variable_info, store_variable, name_eq, name_units, VariableEntry, is_free, position,
  set_variable, get_variable, empty_variable, new_variables,
}
use crab_efi.Variables.Store.{value_at, same_key}
use crab_efi.Variables.Distinct.{Distinct}
use crab_efi.Variables.Set.{
  ValidName, got_value, set_variable_lem, set_variable-Distinct, get_variable-set_variable,
}
use crab_efi.Variables.Size.{Sized, contents_in_use, query_variable_info-set_variable}
use crab_efi.Variables.Walk.{AllPadded, used_keys, walk, walk-used_keys}

abbrev boot_order : List ℕ
boot_order = 66 ∷ 79 ∷ []

abbrev timeout : List ℕ
timeout = 84 ∷ []

-- A store of three slots, and two variables written into it.
abbrev three_free : List VariableEntry
three_free = replicate 3 empty_variable

abbrev one_variable : List VariableEntry
one_variable = (set_variable three_free boot_order 8 7 (1 ∷ 0 ∷ []) true).0

abbrev two_variables : List VariableEntry
two_variables = (set_variable one_variable timeout 8 3 (5 ∷ []) true).0

boot_order-ValidName : ValidName boot_order
boot_order-ValidName = record { units = ground arith; some_unit = omega arith; short = omega arith }

timeout-ValidName : ValidName timeout
timeout-ValidName = record { units = ground arith; some_unit = omega arith; short = omega arith }

new_variables-free : position is_free new_variables ≡ some 0
unfolding position
new_variables-free = refl

three_free-Distinct : Distinct three_free
unfolding Distinct
three_free-Distinct = (
  λ g n y e. absurd (ground (arith, e)),
  (λ g n y e. absurd (ground (arith, e)), (λ g n y e. absurd (ground (arith, e)), tt)),
)

one_variable-Distinct : Distinct one_variable
one_variable-Distinct =
    set_variable-Distinct three_free 8 7 boot_order (1 ∷ 0 ∷ []) true boot_order-ValidName.units
      three_free-Distinct

two_variables-Distinct : Distinct two_variables
two_variables-Distinct =
    set_variable-Distinct one_variable 8 3 timeout (5 ∷ []) true timeout-ValidName.units
      one_variable-Distinct

set_variable_lem_example :
    let (after, status) = set_variable two_variables boot_order 8 7 (9 ∷ []) true in
    ((status ≡ success)
      × (value_at after 8 timeout ≡ (
          if same_key 8 boot_order 8 timeout
          then some (7, 9 ∷ [])
          else value_at two_variables 8 timeout)))
    ⊎ ((status ≡ out_of_resources)
        × (after ≡ two_variables)
        × (value_at two_variables 8 boot_order ≡ none)
        × (position is_free two_variables ≡ none))
set_variable_lem_example =
    set_variable_lem two_variables 8 8 7 9 boot_order timeout [] boot_order-ValidName
      timeout-ValidName (omega arith)

get_variable-set_variable_example :
    get_variable (set_variable three_free boot_order 8 7 (1 ∷ 0 ∷ []) true).0 boot_order 8 16 true
    ≡ got_value 16 7 (1 ∷ 0 ∷ [])
get_variable-set_variable_example =
    get_variable-set_variable three_free 8 7 1 16 boot_order (0 ∷ []) boot_order-ValidName
      (omega arith) (unfold set_variable store_variable position in refl)

two_variables-AllPadded : AllPadded two_variables
unfolding set_variable store_variable position name_eq
two_variables-AllPadded = (
  λ e. (boot_order, boot_order-ValidName, refl),
  (λ e. (timeout, timeout-ValidName, refl), (λ e. absurd (ground (arith, e)), tt)),
)

walk-used_keys_example : walk 3 two_variables [] 0 ≡ used_keys two_variables
walk-used_keys_example =
    walk-used_keys two_variables 3 0 two_variables-Distinct two_variables-AllPadded
      (unfold used_keys set_variable store_variable position name_eq name_units in omega arith)

query_variable_info-set_variable_example :
    let after = (set_variable three_free boot_order 8 7 (1 ∷ 0 ∷ []) true).0 in
    Sized after × ((query_variable_info after).1 + length (contents_in_use after) ≡ 65536)
query_variable_info-set_variable_example =
    query_variable_info-set_variable three_free boot_order 8 7 (1 ∷ 0 ∷ []) true
      (record { slots = omega arith; contents = (omega arith, (omega arith, (omega arith, tt))) })
