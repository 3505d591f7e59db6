-- ===== src/Collation/Order.antt =====
-- src/efi/protocols/unicode_collation.rs: StriColl, StrLwr, StrUpr and StrToFat.
use crab_efi.Prelude.{
  ℕ, zero, suc, ◌-◌, ◌≤◌, ◌<◌, false, ◌||◌, List, [], ◌∷◌, ◌≡◌, ◌≢◌, refl, ◌==◌, ◌↔◌, arith,
  Bool-cases, ap, inl, inr, sym, ltb, length,
}
use crab_efi.Collation.{
  fat_to_str, char_to_upper, ℤ, pos, negsuc, difference, stri_coll, str_upr, str_to_fat,
  is_replaced, is_illegal, underscore,
}
use crab_efi.Variables.Names.{NonZero}

abbrev pub negate : ℤ → ℤ
negate (pos zero) = pos zero
negate (pos (suc n)) = negsuc n
negate (negsuc n) = pos (suc n)

pos-suc : (a : ℕ) → 0 < a → pos a ≡ negate (negsuc (a - 1))
pos-suc zero h = absurd (omega arith)
pos-suc (suc a) h = ap pos (omega arith)

negate-pos : (a : ℕ) → 0 < a → negsuc (a - 1) ≡ negate (pos a)
negate-pos zero h = absurd (omega arith)
negate-pos (suc a) h = ap negsuc (omega arith)

difference_swap : (a b : ℕ) → difference b a ≡ negate (difference a b)
difference_swap a b = elim (Bool-cases (ltb a b)) [
  | inl less ↦ ground (arith, less, pos-suc (b - a))
  | inr more ↦ elim (Bool-cases (ltb b a)) [
    | inl greater ↦ ground (arith, greater, negate-pos (a - b))
    | inr same ↦ ground (arith, more, same)
  ]
]

pos-zero_inv : (a : ℕ) → pos a ≡ pos 0 → a ≡ 0
pos-zero_inv a e = cc

difference-zero : (a b : ℕ) → difference a b ≡ pos 0 → a ≡ b
difference-zero a b e = ground (arith, e, pos-zero_inv (a - b))

upper-NonZero : (c : ℕ) → c ≢ 0 → char_to_upper c ≢ 0
unfolding char_to_upper
upper-NonZero c h = ground arith

-- StriColl of two strings in the other order is the negative of the answer.
pub stri_coll-negate : (s t : List ℕ) → stri_coll t s ≡ negate (stri_coll s t)
unfolding stri_coll
stri_coll-negate [] [] = refl
stri_coll-negate [] (b ∷ t) = difference_swap 0 (char_to_upper b)
stri_coll-negate (a ∷ s) [] = difference_swap (char_to_upper a) 0
stri_coll-negate (a ∷ s) (b ∷ t) =
    ground (arith, stri_coll-negate s t, difference_swap (char_to_upper a) (char_to_upper b))

stri_coll-equal :
    (s t : List ℕ) → NonZero s → NonZero t → stri_coll s t ≡ pos 0 → str_upr s ≡ str_upr t
unfolding stri_coll
stri_coll-equal [] [] y z e = refl
stri_coll-equal [] (b ∷ t) y z e =
    absurd (upper-NonZero b z.0 (sym (difference-zero 0 (char_to_upper b) e)))
stri_coll-equal (a ∷ s) [] y z e =
    absurd (upper-NonZero a y.0 (difference-zero (char_to_upper a) 0 e))
stri_coll-equal (a ∷ s) (b ∷ t) y z e = elim (Bool-cases (char_to_upper a == char_to_upper b)) [
  | inl same ↦
      let head : char_to_upper a ≡ char_to_upper b = ground (arith, same) in
      let rest = stri_coll-equal s t y.1 z.1 (ground (arith, same, e)) in rw (head, rest) refl
  | inr other ↦
      absurd (ground (arith, other, e, difference-zero (char_to_upper a) (char_to_upper b)))
]

equal-stri_coll : (s t : List ℕ) → str_upr s ≡ str_upr t → stri_coll s t ≡ pos 0
unfolding stri_coll
equal-stri_coll [] [] e = refl
equal-stri_coll [] (b ∷ t) e = cc
equal-stri_coll (a ∷ s) [] e = cc
equal-stri_coll (a ∷ s) (b ∷ t) e =
    let head : char_to_upper a ≡ char_to_upper b = cc in
    let tail : str_upr s ≡ str_upr t = cc in ground (arith, head, equal-stri_coll s t tail)

-- For strings without a null inside: StriColl answers 0 exactly when the strings are equal once
-- StrUpr has put both into upper case.
pub stri_coll-zero :
    (s t : List ℕ) → NonZero s → NonZero t → (stri_coll s t ≡ pos 0) ↔ (str_upr s ≡ str_upr t)
stri_coll-zero s t y z = (stri_coll-equal s t y z, equal-stri_coll s t)

-- A byte of a FAT name: printable ASCII, in upper case, and not one of the illegal ones.
abbrev pub FatByte : ℕ → Type 0
FatByte c = (32 < c) × (c < 127) × (char_to_upper c ≡ c) × (c ≢ 46) × (is_illegal c ≡ false)

abbrev pub FatBytes : List ℕ → Type 0
FatBytes [] = Unit {0}
FatBytes (c ∷ cs) = FatByte c × FatBytes cs

kept-FatByte :
    (c : ℕ)
    → (c == 32 || c == 46) ≡ false
    → is_replaced (char_to_upper c) ≡ false
    → FatByte (char_to_upper c)
unfolding char_to_upper is_illegal
kept-FatByte c e f = ground arith

underscore-FatByte : FatByte underscore
unfolding char_to_upper is_illegal
underscore-FatByte = (omega arith, omega arith, refl, ground arith, refl)

-- StrToFat writes at most as many bytes as the buffer has, all of them legal in a FAT name.
pub str_to_fat-FatBytes :
    (s : List ℕ) (size : ℕ) → (length (str_to_fat s size).0 ≤ size) × FatBytes (str_to_fat s size).0
unfolding str_to_fat
str_to_fat-FatBytes [] size = (omega arith, tt)
str_to_fat-FatBytes (c ∷ s) zero = (omega arith, tt)
str_to_fat-FatBytes (c ∷ s) (suc size) =
    let skipped = str_to_fat-FatBytes s (suc size) in
    let rest = str_to_fat-FatBytes s size in
    elim (Bool-cases (c == 32 || c == 46)) [
      | inl skip ↦ rw skip skipped
      | inr kept ↦ elim (Bool-cases (is_replaced (char_to_upper c))) [
        | inl bad ↦ rw (kept, bad) (omega (arith, rest.0), (underscore-FatByte, rest.1))
        | inr good ↦ rw (kept, good) (omega (arith, rest.0), (kept-FatByte c kept good, rest.1))
      ]
    ]

FatByte-kept :
    (c : ℕ) → FatByte c → ((c == 32 || c == 46) ≡ false) × (is_replaced (char_to_upper c) ≡ false)
FatByte-kept c f = (ground (arith, f), rw f.2 (ground (arith, f)))

legal-str_to_fat :
    (s : List ℕ) (size : ℕ) → FatBytes s → length s ≤ size → str_to_fat s size ≡ (s, false)
unfolding str_to_fat
legal-str_to_fat [] size f h = refl
legal-str_to_fat (c ∷ s) zero f h = absurd (omega (arith, h))
legal-str_to_fat (c ∷ s) (suc size) f h =
    let rest = legal-str_to_fat s size f.1 (omega (arith, h)) in
    let (unskipped, unreplaced) = FatByte-kept c f.0 in rw (unskipped, unreplaced, rest, f.0.2) refl

legal-fat_to_str : (s : List ℕ) (size : ℕ) → FatBytes s → length s ≤ size → fat_to_str size s ≡ s
unfolding fat_to_str
legal-fat_to_str [] zero f h = refl
legal-fat_to_str [] (suc size) f h = refl
legal-fat_to_str (c ∷ s) zero f h = absurd (omega (arith, h))
legal-fat_to_str (c ∷ s) (suc size) f h =
    ground (arith, f.0, legal-fat_to_str s size f.1 (omega (arith, h)))

-- A legal FAT name that fits the buffer is written as it is, with no byte reported, and FatToStr
-- gives it back.
pub fat_to_str-str_to_fat :
    (s : List ℕ) (size : ℕ)
    → FatBytes s
    → length s ≤ size
    → (str_to_fat s size ≡ (s, false)) × (fat_to_str size (str_to_fat s size).0 ≡ s)
fat_to_str-str_to_fat s size f h =
    let same = legal-str_to_fat s size f h in (same, rw same (legal-fat_to_str s size f h))
