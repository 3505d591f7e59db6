-- ===== src/Collation.antt =====
-- src/efi/protocols/unicode_collation.rs: the Unicode Collation protocol. A caller's string is the
-- list of its code units before the null; the pointers are not null.
pub mod Matching
pub mod Order
mod Tests
use crab_efi.Prelude.{
  ℕ, zero, suc, ◌+◌, ◌-◌, ◌%◌, ◌^◌, ◌≤◌, ◌<◌, Bool, true, false, not, ◌&&◌, ◌||◌, Option, none,
  some, List, [], ◌∷◌, ◌++◌, map, ◌==◌, leb, ltb, if◌then◌else◌, length, take, set,
}

unfoldable pub char_to_upper : ℕ → ℕ
char_to_upper c = if leb 97 c && leb c 122 then c - 32 else c

unfoldable pub char_to_lower : ℕ → ℕ
char_to_lower c = if leb 65 c && leb c 90 then c + 32 else c

-- An `isize`.
pub data ℤ : Type 0 where
  pos : ℕ → ℤ
  negsuc : ℕ → ℤ

-- `(a as isize) - (b as isize)`
abbrev pub difference : ℕ → ℕ → ℤ
difference a b = if ltb a b then negsuc (b - a - 1) else pos (a - b)

unfoldable pub stri_coll : List ℕ → List ℕ → ℤ
stri_coll [] [] = pos 0
stri_coll [] (b ∷ t) = difference 0 (char_to_upper b)
stri_coll (a ∷ s) [] = difference (char_to_upper a) 0
stri_coll (a ∷ s) (b ∷ t) =
    let rest = stri_coll s t in
    if char_to_upper a == char_to_upper b
    then rest
    else difference (char_to_upper a) (char_to_upper b)

abbrev pub star : ℕ
star = 42

abbrev pub question : ℕ
question = 63

-- `while *ps != 0`, with the call for each place, and the call at the null behind it.
unfoldable pub match_at_some : (List ℕ → Bool) → List ℕ → Bool
match_at_some f [] = f []
match_at_some f (c ∷ s) = f (c ∷ s) || match_at_some f s

-- A `*` at the end matches all; before other units it is tried at each place.
abbrev pub after_star : (List ℕ → Bool) → List ℕ → List ℕ → Bool
after_star f s [] = true
after_star f s (c ∷ p) = match_at_some f s

-- One unit of the string against one of the pattern that is not `*`.
abbrev pub unit_matches : ℕ → List ℕ → Bool
unit_matches d [] = false
unit_matches d (c ∷ s) = char_to_lower d == question || char_to_lower c == char_to_lower d

abbrev pub tail_units : List ℕ → List ℕ
tail_units [] = []
tail_units (c ∷ s) = s

abbrev pub is_empty : List ℕ → Bool
is_empty [] = true
is_empty (_ ∷ _) = false

-- The loop over the pattern, and the calls of itself behind a `*`.
unfoldable pub metai_match : List ℕ → List ℕ → Bool
metai_match s [] = is_empty s
metai_match s (d ∷ p) =
    let rest = metai_match (tail_units s) p in
    if char_to_lower d == star
    then after_star (λ t. metai_match t p) s p
    else unit_matches d s && rest

abbrev pub str_lwr : List ℕ → List ℕ
str_lwr s = map char_to_lower s

abbrev pub str_upr : List ℕ → List ℕ
str_upr s = map char_to_upper s

-- The bytes of `illegal`.
unfoldable pub is_illegal : ℕ → Bool
is_illegal c =
    c == 43
    || c == 44
    || c == 60
    || c == 61
    || c == 62
    || c == 58
    || c == 59
    || c == 34
    || c == 47
    || c == 92
    || c == 124
    || c == 63
    || c == 42
    || c == 91
    || c == 93
    || c == 127

-- Not in `0x20..128`, or an illegal byte.
abbrev pub is_replaced : ℕ → Bool
is_replaced c = ltb c 32 || leb 128 c || is_illegal (c % 2 ^ 8)

abbrev pub underscore : ℕ
underscore = 95

-- The bytes that are written before the null, and the answer, from a place in the buffer on.
unfoldable pub str_to_fat : List ℕ → ℕ → List ℕ × Bool
str_to_fat [] size = ([], false)
str_to_fat (c ∷ s) zero = ([], false)
str_to_fat (c ∷ s) (suc size) =
    let skipped = str_to_fat s (suc size) in
    let (fat, illegal) = str_to_fat s size in
    if c == 32 || c == 46
    then skipped
    else if is_replaced (char_to_upper c)
    then (underscore ∷ fat, true)
    else (char_to_upper c ∷ fat, illegal)

-- The units before the null that `fat_to_str` writes.
unfoldable pub fat_to_str : ℕ → List ℕ → List ℕ
fat_to_str zero fat = []
fat_to_str (suc size) [] = []
fat_to_str (suc size) (c ∷ fat) = let rest = fat_to_str size fat in if c == 0 then [] else c ∷ rest
