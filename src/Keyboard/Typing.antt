-- ===== src/Keyboard/Typing.antt =====
-- src/drivers/usb/hid_keyboard.rs: what the keys of a USB keyboard are, and what it can come to.
use crab_efi.Prelude.{
  ℕ, ◌*◌, ◌/◌, ◌%◌, ◌≤◌, Bool, true, false, ◌&&◌, ◌||◌, List, [], ◌∷◌, Option, none, some, ◌≡◌,
  refl, inl, inr, ◌==◌, ltb, leb, Bool-cases, arith,
}
use crab_efi.Keyboard.Layout.{
  lookup, special_keys, character_keys, keypad_keys, letter, keypad, or_keypad, or_character,
  translate, shifted_scan, or_pad,
}

-- A scan code with no character, or a character with no scan code.
unfoldable pub is_efi_key : ℕ → Bool
is_efi_key key =
    (key % 256 == 0 && ltb 0 (key / 256) && leb (key / 256) 0x17) || (ltb 0 key && ltb key 128)

abbrev pub all_entries : {A : Type 0} → (A → Bool) → List (ℕ × A) → Bool
all_entries p [] = true
all_entries p (e ∷ es) = p e.1 && all_entries p es

pub lookup-all_entries :
    {A : Type 0} (p : A → Bool) (es : List (ℕ × A)) (k : ℕ) {a : A}
    → all_entries p es ≡ true
    → lookup es k ≡ some a
    → p a ≡ true
lookup-all_entries p [] k h e = cc
lookup-all_entries p (x ∷ es) k {a = a} h e =
    let rest = lookup-all_entries p es k {a = a} in
    elim (Bool-cases (x.0 == k)) [
      | inl same ↦ let found : some x.1 ≡ some a = rw (same) at e in ground arith
      | inr other ↦ let found : lookup es k ≡ some a = rw (other) at e in ground arith
    ]

letter-is_efi_key :
    (shift ctrl : Bool) (keycode : ℕ)
    → 4 ≤ keycode
    → keycode ≤ 0x1D
    → is_efi_key (letter shift ctrl keycode) ≡ true
unfolding is_efi_key
letter-is_efi_key shift ctrl keycode lo hi = ground arith

abbrev pub both_keys : ℕ × ℕ → Bool
both_keys c = is_efi_key c.0 && is_efi_key c.1

abbrev pub scan_key : Option ℕ → Bool
scan_key none = true
scan_key (some scan_code) = is_efi_key (scan_code * 256)

abbrev pub keypad_key : ℕ × Option ℕ → Bool
keypad_key e = is_efi_key e.0 && scan_key e.1

tables :
    (all_entries (λ s. is_efi_key (s * 256)) special_keys ≡ true)
    × (all_entries both_keys character_keys ≡ true)
    × (all_entries keypad_key keypad_keys ≡ true)
unfolding is_efi_key
tables = (refl, refl, refl)

scan_key-is_efi_key :
    (o : Option ℕ) {key : ℕ} → scan_key o ≡ true → shifted_scan o ≡ some key → is_efi_key key ≡ true
scan_key-is_efi_key none good typed = cc
scan_key-is_efi_key (some scan_code) good typed = ground arith

keypad-is_efi_key :
    (num_lock : Bool) (e : ℕ × Option ℕ) {key : ℕ}
    → keypad_key e ≡ true
    → keypad num_lock e ≡ some key
    → is_efi_key key ≡ true
keypad-is_efi_key true e good typed = ground arith
keypad-is_efi_key false e {key = key} good typed =
    let rest = scan_key-is_efi_key e.1 {key = key} in ground arith

or_pad-is_efi_key :
    (num_lock : Bool) (keycode : ℕ) (e : Option (ℕ × Option ℕ)) {key : ℕ}
    → lookup keypad_keys keycode ≡ e
    → or_pad num_lock e ≡ some key
    → is_efi_key key ≡ true
or_pad-is_efi_key num_lock keycode none found typed = cc
or_pad-is_efi_key num_lock keycode (some e) found typed =
    keypad-is_efi_key num_lock e (lookup-all_entries keypad_key keypad_keys keycode tables.2 found)
      typed

or_keypad-is_efi_key :
    (shift num_lock : Bool) (keycode : ℕ) (c : Option (ℕ × ℕ)) {key : ℕ}
    → lookup character_keys keycode ≡ c
    → or_keypad shift num_lock keycode c ≡ some key
    → is_efi_key key ≡ true
or_keypad-is_efi_key shift num_lock keycode none absent typed =
    or_pad-is_efi_key num_lock keycode (lookup keypad_keys keycode) refl typed
or_keypad-is_efi_key shift num_lock keycode (some c) found typed =
    let good = lookup-all_entries both_keys character_keys keycode tables.1 found in ground arith

or_character-is_efi_key :
    (shift ctrl num_lock : Bool) (keycode : ℕ) (o : Option ℕ) {key : ℕ}
    → lookup special_keys keycode ≡ o
    → or_character shift ctrl num_lock keycode o ≡ some key
    → is_efi_key key ≡ true
or_character-is_efi_key shift ctrl num_lock keycode none {key = key} absent typed =
    let is_letter = letter-is_efi_key shift ctrl keycode in
    let other =
      or_keypad-is_efi_key shift num_lock keycode (lookup character_keys keycode) {key = key}
        refl in
    ground arith
or_character-is_efi_key shift ctrl num_lock keycode (some s) found typed =
    let good = lookup-all_entries (λ c. is_efi_key (c * 256)) special_keys keycode tables.0 found in
    ground arith

-- Every key that a key code types is an EFI key, whatever is held down.
pub translate-is_efi_key :
    (shift ctrl num_lock : Bool) (keycode : ℕ) {key : ℕ}
    → translate shift ctrl num_lock keycode ≡ some key
    → is_efi_key key ≡ true
unfolding translate
translate-is_efi_key shift ctrl num_lock keycode typed =
    or_character-is_efi_key shift ctrl num_lock keycode (lookup special_keys keycode) refl typed
