-- ===== src/Keyboard/Pairs.antt =====
-- src/drivers/usb/hid_keyboard.rs: the keys that are read, as a scan code and a character.
use crab_efi.Prelude.{
  ℕ, ◌/◌, ◌%◌, ◌<◌, ◌≤◌, true, List, [], ◌∷◌, Option, none, some, ◌≡◌, ◌⊎◌, arith, ap, sym, subst,
}
use crab_efi.Keyboard.Hid.{UsbHidKeyboard, get_key, read_key, split_key}
use crab_efi.Keyboard.Queueing.{queued, pop_front, get_key-pop_front}
use crab_efi.Keyboard.Typing.{is_efi_key}
use crab_efi.Keyboard.Reached.{Reached, all_efi, Reached-IsSound}

is_efi_key-split :
    (key : ℕ)
    → is_efi_key key ≡ true
    → ((key / 256 % 256 ≡ 0) × (0 < key % 256) × (key % 256 < 128))
      ⊎ ((key % 256 ≡ 0) × (0 < key / 256 % 256) × (key / 256 % 256 ≤ 0x17))
unfolding is_efi_key
is_efi_key-split key h = ground arith

abbrev pub EfiPair : ℕ × ℕ → Type 0
EfiPair pair =
    ((pair.0 ≡ 0) × (0 < pair.1) × (pair.1 < 128)) ⊎ ((pair.1 ≡ 0) × (0 < pair.0) × (pair.0 ≤ 0x17))

split_key-EfiPair :
    (q : List ℕ) (key : Option ℕ) {pair : ℕ × ℕ}
    → all_efi q ≡ true
    → key ≡ (pop_front q).1
    → split_key key ≡ some pair
    → EfiPair pair
unfolding all_efi
split_key-EfiPair q none h front e = cc
split_key-EfiPair [] (some key) h front e = cc
split_key-EfiPair (k ∷ q) (some key) {pair = pair} h front e =
    let same : some k ≡ some key = ap (λ o. o) (sym front) in
    let good : is_efi_key key ≡ true = ground arith in
    let split : some (key / 256 % 256, key % 256) ≡ some pair = e in
    let both : (key / 256 % 256, key % 256) ≡ pair = cc in
    subst EfiPair both (is_efi_key-split key good)

-- A key that is read is a character with no scan code or a scan code with no character.
pub read_key-Reached :
    {kb : UsbHidKeyboard} {pair : ℕ × ℕ}
    → Reached kb
    → (read_key kb).1 ≡ some pair
    → ((pair.0 ≡ 0) × (0 < pair.1) × (pair.1 < 128))
      ⊎ ((pair.1 ≡ 0) × (0 < pair.0) × (pair.0 ≤ 0x17))
unfolding read_key
read_key-Reached {kb} r e =
    let s = Reached-IsSound r in
    split_key-EfiPair (queued kb) (get_key kb).1 s.keys
      (ap (λ p. p.1) (get_key-pop_front kb s.ring)) e
