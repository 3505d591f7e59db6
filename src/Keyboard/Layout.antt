-- ===== src/Keyboard/Layout.antt =====
-- src/drivers/usb/hid_keyboard.rs: reports of the boot protocol, and the keys of key codes.
use crab_efi.Prelude.{
  ℕ, ◌+◌, ◌-◌, ◌*◌, Bool, false, not, ◌&&◌, ◌||◌, Option, none, some, List, [], ◌∷◌, ◌==◌, leb,
  if◌then◌else◌, bit_and,
}

pub record KeyboardReport : Type 0 where
  pub modifiers : ℕ
  pub reserved : ℕ
  pub keys : List ℕ

-- `KeyboardReport::default`
abbrev pub default_report : KeyboardReport
default_report = record { modifiers = 0; reserved = 0; keys = 0 ∷ 0 ∷ 0 ∷ 0 ∷ 0 ∷ 0 ∷ [] }

unfoldable pub shift_pressed : KeyboardReport → Bool
shift_pressed r = not (bit_and r.modifiers 0x22 == 0)

unfoldable pub ctrl_pressed : KeyboardReport → Bool
ctrl_pressed r = not (bit_and r.modifiers 0x11 == 0)

-- `keys.contains(&keycode)`
abbrev pub contains : List ℕ → ℕ → Bool
contains [] keycode = false
contains (k ∷ ks) keycode = k == keycode || contains ks keycode

-- The keys of the list that are down and were not in the previous report.
abbrev pub fresh : KeyboardReport → List ℕ → List ℕ
fresh prev [] = []
fresh prev (k ∷ ks) =
    let rest = fresh prev ks in
    if not (k == 0) && not (contains prev.keys k) then k ∷ rest else rest

unfoldable pub new_keys : KeyboardReport → KeyboardReport → List ℕ
new_keys r prev = fresh prev r.keys

abbrev pub lookup : {A : Type 0} → List (ℕ × A) → ℕ → Option A
lookup [] k = none
lookup (e ∷ es) k = let rest = lookup es k in if e.0 == k then some e.1 else rest

-- Key codes with an EFI scan code.
abbrev pub special_keys : List (ℕ × ℕ)
special_keys =
    (0x29, 0x17)
    ∷ (0x3A, 0x0B)
    ∷ (0x3B, 0x0C)
    ∷ (0x3C, 0x0D)
    ∷ (0x3D, 0x0E)
    ∷ (0x3E, 0x0F)
    ∷ (0x3F, 0x10)
    ∷ (0x40, 0x11)
    ∷ (0x41, 0x12)
    ∷ (0x42, 0x13)
    ∷ (0x43, 0x14)
    ∷ (0x44, 0x15)
    ∷ (0x45, 0x16)
    ∷ (0x49, 0x07)
    ∷ (0x4A, 0x05)
    ∷ (0x4B, 0x09)
    ∷ (0x4C, 0x08)
    ∷ (0x4D, 0x06)
    ∷ (0x4E, 0x0A)
    ∷ (0x4F, 0x03)
    ∷ (0x50, 0x04)
    ∷ (0x51, 0x02)
    ∷ (0x52, 0x01)
    ∷ []

-- Digits and signs, without and with shift, and the keys that shift leaves alone.
abbrev pub character_keys : List (ℕ × (ℕ × ℕ))
character_keys =
    (0x1E, (b'1', b'!'))
    ∷ (0x1F, (b'2', b'@'))
    ∷ (0x20, (b'3', b'#'))
    ∷ (0x21, (b'4', b'$'))
    ∷ (0x22, (b'5', b'%'))
    ∷ (0x23, (b'6', b'^'))
    ∷ (0x24, (b'7', b'&'))
    ∷ (0x25, (b'8', b'*'))
    ∷ (0x26, (b'9', b'('))
    ∷ (0x27, (b'0', b')'))
    ∷ (0x28, (0x0D, 0x0D))
    ∷ (0x2A, (0x08, 0x08))
    ∷ (0x2B, (0x09, 0x09))
    ∷ (0x2C, (0x20, 0x20))
    ∷ (0x2D, (b'-', b'_'))
    ∷ (0x2E, (b'=', b'+'))
    ∷ (0x2F, (b'[', b'{'))
    ∷ (0x30, (b']', b'}'))
    ∷ (0x31, (0x5C, b'|'))
    ∷ (0x33, (b';', b':'))
    ∷ (0x34, (0x27, 0x22))
    ∷ (0x35, (0x60, b'~'))
    ∷ (0x36, (b',', b'<'))
    ∷ (0x37, (b'.', b'>'))
    ∷ (0x38, (b'/', b'?'))
    ∷ (0x54, (b'/', b'/'))
    ∷ (0x55, (b'*', b'*'))
    ∷ (0x56, (b'-', b'-'))
    ∷ (0x57, (b'+', b'+'))
    ∷ (0x58, (0x0D, 0x0D))
    ∷ []

-- The keypad: the character with Num Lock, and the scan code without it, if there is one.
abbrev pub keypad_keys : List (ℕ × (ℕ × Option ℕ))
keypad_keys =
    (0x59, (b'1', some 0x06))
    ∷ (0x5A, (b'2', some 0x02))
    ∷ (0x5B, (b'3', some 0x0A))
    ∷ (0x5C, (b'4', some 0x04))
    ∷ (0x5D, (b'5', none))
    ∷ (0x5E, (b'6', some 0x03))
    ∷ (0x5F, (b'7', some 0x05))
    ∷ (0x60, (b'8', some 0x01))
    ∷ (0x61, (b'9', some 0x09))
    ∷ (0x62, (b'0', some 0x07))
    ∷ (0x63, (b'.', some 0x08))
    ∷ []

-- `scan_code << 8`
abbrev pub shifted_scan : Option ℕ → Option ℕ
shifted_scan none = none
shifted_scan (some scan_code) = some (scan_code * 256)

abbrev pub letter : Bool → Bool → ℕ → ℕ
letter shift ctrl keycode =
    let base = b'a' + (keycode - 0x04) in
    if ctrl then base - b'a' + 1 else if shift then base - 0x20 else base

abbrev pub character : Bool → ℕ × ℕ → ℕ
character shift c = if shift then c.1 else c.0

abbrev pub keypad : Bool → ℕ × Option ℕ → Option ℕ
keypad num_lock e = if num_lock then some e.0 else shifted_scan e.1

abbrev pub or_pad : Bool → Option (ℕ × Option ℕ) → Option ℕ
or_pad num_lock none = none
or_pad num_lock (some e) = keypad num_lock e

abbrev pub or_keypad : Bool → Bool → ℕ → Option (ℕ × ℕ) → Option ℕ
or_keypad shift num_lock keycode (some c) = some (character shift c)
or_keypad shift num_lock keycode none = or_pad num_lock (lookup keypad_keys keycode)

abbrev pub or_character : Bool → Bool → Bool → ℕ → Option ℕ → Option ℕ
or_character shift ctrl num_lock keycode (some scan_code) = some (scan_code * 256)
or_character shift ctrl num_lock keycode none =
    if leb 0x04 keycode && leb keycode 0x1D
    then some (letter shift ctrl keycode)
    else or_keypad shift num_lock keycode (lookup character_keys keycode)

-- `translate_keycode`, with what it reads of the keyboard and the report.
unfoldable pub translate : Bool → Bool → Bool → ℕ → Option ℕ
translate shift ctrl num_lock keycode =
    or_character shift ctrl num_lock keycode (lookup special_keys keycode)
