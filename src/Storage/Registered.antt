-- ===== src/Storage/Registered.antt =====
-- src/drivers/storage.rs: the registry as a map from numbers to devices.
use crab_efi.Prelude.{
  ℕ, zero, suc, ◌+◌, ◌≤◌, false, Option, none, some, List, [], ◌∷◌, ◌==◌, ◌≡◌, refl, sym, ap, ◌∙◌,
  replicate, set, arith, length, ◌-◌, ◌++◌, take, get_elem?, dec_lt, length-append, add32, take_all,
  take-prefix, append-nil, length-take, append_assoc,
}
use mathlib.Core.Path.{ap₂}
use crab_efi.Storage.{
  StorageType, StorageDevice, StorageRegistry, free_slot, find_device, register_device, get_device,
  new_registry,
}

-- What a caller registers.
pub record Registration : Type 0 where
  pub device_type : StorageType
  pub num_blocks : ℕ
  pub block_size : ℕ

abbrev pub register_all : StorageRegistry → List Registration → StorageRegistry
register_all r [] = r
register_all r (x ∷ xs) =
    register_all (register_device r x.device_type x.num_blocks x.block_size).0 xs

abbrev pub device_of : ℕ → Registration → StorageDevice
device_of id x = record {
  device_type = x.device_type;
  num_blocks = x.num_blocks;
  block_size = x.block_size;
  device_id = id;
}

-- The devices in the order of their registration, numbered from n.
abbrev pub numbered : ℕ → List Registration → List StorageDevice
numbered n [] = []
numbered n (x ∷ xs) = device_of n x ∷ numbered (n + 1) xs

-- The slots of a registry that holds those devices, with k free ones.
abbrev pub slots : ℕ → List Registration → ℕ → List (Option StorageDevice)
slots n [] k = replicate k none
slots n (x ∷ xs) k = some (device_of n x) ∷ slots (n + 1) xs k

abbrev pub registry_of : List Registration → StorageRegistry
registry_of xs = record { devices = slots 0 xs (8 - length xs); next_id = length xs }

free_slot-slots :
    (n : ℕ) (xs : List Registration) (k : ℕ) → free_slot (slots n xs (suc k)) ≡ some (length xs)
unfolding free_slot
free_slot-slots n [] k = refl
free_slot-slots n (x ∷ xs) k = rw (free_slot-slots (n + 1) xs k) refl

free_slot_full : (n : ℕ) (xs : List Registration) → free_slot (slots n xs 0) ≡ none
unfolding free_slot
free_slot_full n [] = refl
free_slot_full n (x ∷ xs) = rw (free_slot_full (n + 1) xs) refl

set-slots :
    (n : ℕ) (xs : List Registration) (x : Registration) (k : ℕ)
    → set (slots n xs (suc k)) (length xs) (some (device_of (n + length xs) x))
      ≡ slots n (xs ++ x ∷ []) k
set-slots n [] x k = let same : n + 0 ≡ n = omega arith in rw same refl
set-slots n (y ∷ xs) x k =
    let same : n + suc (length xs) ≡ n + 1 + length xs = omega arith in
    rw (same, set-slots (n + 1) xs x k) refl

-- A slot is taken as long as there is one.
register_one :
    (xs : List Registration) (x : Registration)
    → length xs ≤ 8
    → (register_device (registry_of xs) x.device_type x.num_blocks x.block_size).0
      ≡ registry_of (take 8 (xs ++ x ∷ []))
unfolding register_device
register_one xs x small = elim (dec_lt (length xs) 8) [
  | yes room ↦
      let k = 8 - length (xs ++ x ∷ []) in
      let left : 8 - length xs ≡ suc k = omega (arith, length-append xs (x ∷ [])) in
      let next : add32 (length xs) 1 ≡ length (xs ++ x ∷ []) =
        omega (arith, length-append xs (x ∷ [])) in
      let whole = take_all 8 (xs ++ x ∷ []) (omega (arith, length-append xs (x ∷ []))) in
      let same : 0 + length xs ≡ length xs = omega arith in
      let written =
        ap (λ id. set (slots 0 xs (suc k)) (length xs) (some (device_of id x))) (sym same)
        ∙ set-slots 0 xs x k in
      rw (whole, left, free_slot-slots 0 xs k)
        (ap₂ (λ ds n. record { devices = ds; next_id = n }) written next)
  | no full ↦
      let left : 8 - length xs ≡ 0 = omega arith in
      let same = take-prefix 8 xs (x ∷ []) (omega arith) ∙ take_all 8 xs (omega arith) in
      rw (same, left, free_slot_full 0 xs) refl
]

take-take : {A : Type 0} (n : ℕ) (xs ys : List A) → take n (take n xs ++ ys) ≡ take n (xs ++ ys)
take-take zero xs ys = refl
take-take (suc n) [] ys = refl
take-take (suc n) (x ∷ xs) ys = ap (λ zs. x ∷ zs) (take-take n xs ys)

register_all-registry_of :
    (xs ys : List Registration)
    → length xs ≤ 8
    → register_all (registry_of xs) ys ≡ registry_of (take 8 (xs ++ ys))
register_all-registry_of xs [] small =
    let same : take 8 (xs ++ []) ≡ xs = rw (append-nil xs) (take_all 8 xs small) in
    ap registry_of (sym same)
register_all-registry_of xs (y ∷ ys) small =
    let next = take 8 (xs ++ y ∷ []) in
    let short : length next ≤ 8 = omega (arith, length-take 8 (xs ++ y ∷ [])) in
    let rest = register_all-registry_of next ys short in
    let same : take 8 (next ++ ys) ≡ take 8 (xs ++ y ∷ ys) =
      take-take 8 (xs ++ y ∷ []) ys ∙ ap (take 8) (append_assoc xs (y ∷ []) ys) in
    ap (λ r. register_all r ys) (register_one xs y small) ∙ rest ∙ ap registry_of same

find_device-none : (k id : ℕ) → find_device (replicate k none) id ≡ none
find_device-none zero id = refl
find_device-none (suc k) id = find_device-none k id

find_device-slots :
    (n i : ℕ) (xs : List Registration) (k : ℕ)
    → find_device (slots n xs k) (n + i) ≡ get_elem? (numbered n xs) i
find_device-slots n i [] k = find_device-none k (n + i)
find_device-slots n zero (x ∷ xs) k = ground arith
find_device-slots n (suc i) (x ∷ xs) k =
    let next : n + 1 + i ≡ n + suc i = omega arith in
    let other : (n == n + suc i) ≡ false = ground arith in
    rw other (ap (find_device (slots (n + 1) xs k)) (sym next) ∙ find_device-slots (n + 1) i xs k)

-- The registry is the list of the devices registered: each has its place as its number, whatever was
-- registered after it, and from the ninth on they are not kept.
pub get_device-register_all :
    (xs : List Registration) (id : ℕ)
    → get_device (register_all new_registry xs) id ≡ get_elem? (numbered 0 (take 8 xs)) id
unfolding get_device
get_device-register_all xs id =
    let all = register_all-registry_of [] xs (omega arith) in
    let kept = take 8 xs in
    rw all (
      ap (find_device (slots 0 kept (8 - length kept))) (zero_add id)
      ∙ find_device-slots 0 id kept (8 - length kept))
  where
    zero_add : (i : ℕ) → i ≡ 0 + i
    zero_add i = omega arith
