-- ===== src/Collation/Tests.antt =====
-- The theorems on the collation protocol at concrete inputs.
use crab_efi.Prelude.{ℕ, true, false, List, [], ◌∷◌, ◌≡◌, refl, ◌↔◌}
use crab_efi.Collation.{metai_match, char_to_lower, match_at_some}
use crab_efi.Collation.Matching.{Matches, metai_match_lem}

-- "Ab" and "aB"
abbrev mixed : List ℕ
mixed = 65 ∷ 98 ∷ []

abbrev dexim : List ℕ
dexim = 97 ∷ 66 ∷ []

-- "*b"
abbrev ends_in_b : List ℕ
ends_in_b = 42 ∷ 98 ∷ []

matched : metai_match dexim ends_in_b ≡ true
unfolding metai_match match_at_some char_to_lower
matched = refl

not_matched : metai_match (97 ∷ []) ends_in_b ≡ false
unfolding metai_match match_at_some char_to_lower
not_matched = refl

metai_match_lem_example : (metai_match dexim ends_in_b ≡ true) ↔ Matches dexim ends_in_b
metai_match_lem_example = metai_match_lem dexim ends_in_b
