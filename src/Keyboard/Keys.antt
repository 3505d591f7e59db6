-- ===== src/Keyboard/Keys.antt =====
-- src/drivers/keyboard.rs: the keys that either keyboard gives.
use crab_efi.Prelude.{
  ℕ, zero, suc, ◌<◌, ◌≤◌, Bool, true, false, not, ◌&&◌, List, [], ◌∷◌, Option, none, some, ◌≡◌,
  refl, ◌⊎◌, inl, inr, ◌==◌, ltb, leb, get_or, Bool-cases, arith, bit_and, subst,
}
use crab_efi.Keyboard.Layout.{lookup}
use crab_efi.Keyboard.Hid.{UsbHidKeyboard, read_key}
use crab_efi.Keyboard.Reached.{Reached}
use crab_efi.Keyboard.Pairs.{EfiPair, read_key-Reached}
use crab_efi.Keyboard.Typing.{all_entries, lookup-all_entries}
use crab_efi.Keyboard.Ps2.{
  Modifiers, KeyboardState, Key, Ps2Ports, extended_keys, function_keys, unshifted, shifted,
  table_char, scan_key, with_caps, with_ctrl, or_char, scancode_to_efi_extended,
  scancode_to_efi_normal, modifier_key, after_modifiers, process_scancode, read_port, try_read_key,
  output_full, aux_data,
}

abbrev is_scan : ℕ → Bool
is_scan scan_code = ltb 0 scan_code && leb scan_code 0x17

abbrev all_ascii : List ℕ → Bool
all_ascii [] = true
all_ascii (ch ∷ chs) = ltb ch 128 && all_ascii chs

get_or-all_ascii : (chs : List ℕ) (i : ℕ) → all_ascii chs ≡ true → get_or chs i 0 < 128
get_or-all_ascii [] i h = omega arith
get_or-all_ascii (ch ∷ chs) zero h = ground arith
get_or-all_ascii (ch ∷ chs) (suc i) h = ground (arith, get_or-all_ascii chs i)

table_char_ascii : (m : Modifiers) (code : ℕ) → table_char m code < 128
table_char_ascii m code =
    ground (arith, get_or-all_ascii unshifted code refl, get_or-all_ascii shifted code refl)

-- Caps Lock and Ctrl make a character of a character.
with_caps_ascii :
    (m : Modifiers) (ch : ℕ) → 0 < ch → ch < 128 → (0 < with_caps m ch) × (with_caps m ch < 128)
with_caps_ascii m ch lo hi = ground arith

with_ctrl_ascii :
    (m : Modifiers) (ch : ℕ) → 0 < ch → ch < 128 → (0 < with_ctrl m ch) × (with_ctrl m ch < 128)
with_ctrl_ascii m ch lo hi = ground arith

-- The answer, where there is one, is a character or a scan code.
abbrev AnswersEfi : Option Key → Type 0
AnswersEfi none = Unit
AnswersEfi (some pair) = EfiPair pair

scan_pair : (scan_code : ℕ) → is_scan scan_code ≡ true → EfiPair (scan_code, 0)
scan_pair scan_code h = ground arith

scan_key-AnswersEfi :
    (table : List (ℕ × ℕ)) (code : ℕ) (o : Option ℕ)
    → all_entries is_scan table ≡ true
    → lookup table code ≡ o
    → AnswersEfi (scan_key o)
scan_key-AnswersEfi table code none good e = tt
scan_key-AnswersEfi table code (some s) good e =
    scan_pair s (lookup-all_entries is_scan table code good e)

extended-AnswersEfi : (code : ℕ) → AnswersEfi (scancode_to_efi_extended code)
unfolding scancode_to_efi_extended
extended-AnswersEfi code =
    scan_key-AnswersEfi extended_keys code (lookup extended_keys code) refl refl

or_char-AnswersEfi :
    (m : Modifiers) (code : ℕ) (o : Option ℕ)
    → lookup function_keys code ≡ o
    → AnswersEfi (or_char m code o)
or_char-AnswersEfi m code (some s) e =
    scan_pair s (lookup-all_entries is_scan function_keys code refl e)
or_char-AnswersEfi m code none e = elim (Bool-cases (leb 89 code)) [
  | inl out ↦ rw out tt
  | inr inside ↦ elim (Bool-cases (table_char m code == 0)) [
    | inl no_char ↦ rw (inside, no_char) tt
    | inr char ↦
        rw (inside, char)
          (inl (with_both m (table_char m code) (ground arith) (table_char_ascii m code)))
  ]
]
  where
    with_both :
        (m : Modifiers) (ch : ℕ)
        → 0 < ch
        → ch < 128
        → (◌≡◌ {A = ℕ} 0 0)
          × (0 < with_ctrl m (with_caps m ch))
          × (with_ctrl m (with_caps m ch) < 128)
    with_both m ch lo hi =
        let caps = with_caps_ascii m ch lo hi in
        let ctrl = with_ctrl_ascii m (with_caps m ch) caps.0 caps.1 in (refl, ctrl.0, ctrl.1)

normal-AnswersEfi : (m : Modifiers) (code : ℕ) → AnswersEfi (scancode_to_efi_normal m code)
unfolding scancode_to_efi_normal
normal-AnswersEfi m code = or_char-AnswersEfi m code (lookup function_keys code) refl

after_modifiers-AnswersEfi :
    (kb : KeyboardState) (extended : Bool) (code : ℕ) (is_release : Bool) (o : Option Modifiers)
    → AnswersEfi (after_modifiers kb extended code is_release o).1
after_modifiers-AnswersEfi kb extended code is_release (some m) = tt
after_modifiers-AnswersEfi kb extended code true none = tt
after_modifiers-AnswersEfi kb true code false none = extended-AnswersEfi code
after_modifiers-AnswersEfi kb false code false none = normal-AnswersEfi kb.modifiers code

process_scancode-AnswersEfi :
    (kb : KeyboardState) (scancode : ℕ) → AnswersEfi (process_scancode kb scancode).1
unfolding process_scancode
process_scancode-AnswersEfi kb scancode = elim (Bool-cases (scancode == 0xE0)) [
  | inl prefix ↦ rw prefix tt
  | inr code ↦ rw code (
      after_modifiers-AnswersEfi (record kb { extended = false }) kb.extended
        (bit_and scancode 0x7F) (not (bit_and scancode 0x80 == 0))
        (modifier_key kb.extended kb.modifiers (bit_and scancode 0x7F)
          (not (bit_and scancode 0x80 == 0))))
]

read_port-AnswersEfi : (kb : KeyboardState) (ports : Ps2Ports) → AnswersEfi (read_port kb ports).1
read_port-AnswersEfi kb ports = elim (Bool-cases kb.initialized) [
  | inr off ↦ rw off tt
  | inl on ↦ elim (Bool-cases (output_full ports.status)) [
    | inr empty ↦ rw (on, empty) tt
    | inl full ↦ elim (Bool-cases (aux_data ports.status)) [
      | inl mouse ↦ rw (on, full, mouse) tt
      | inr key ↦
          rw (on, full, key)
            (process_scancode-AnswersEfi (record kb { initialized = true }) ports.value)
    ]
  ]
]

pub read_key-AnswersEfi :
    {usb : UsbHidKeyboard} (key : Option Key)
    → Reached usb
    → (read_key usb).1 ≡ key
    → AnswersEfi key
read_key-AnswersEfi none r e = tt
read_key-AnswersEfi (some pair) r e = read_key-Reached r e

-- Whatever the ports hold, and in every state that a USB keyboard comes to: a key that is read is
-- a character below 128 with no scan code, or a scan code of at most 0x17 with no character.
pub try_read_key-EfiPair :
    (kb : KeyboardState) (usb : UsbHidKeyboard) (ports : Ps2Ports) {pair : Key}
    → Reached usb
    → (try_read_key kb (read_key usb).1 ports).1 ≡ some pair
    → ((pair.0 ≡ 0) × (0 < pair.1) × (pair.1 < 128))
      ⊎ ((pair.1 ≡ 0) × (0 < pair.0) × (pair.0 ≤ 0x17))
unfolding try_read_key
try_read_key-EfiPair kb usb ports r e =
    subst AnswersEfi e (either (read_key usb).1 (read_key-AnswersEfi (read_key usb).1 r refl))
  where
    either : (key : Option Key) → AnswersEfi key → AnswersEfi (try_read_key kb key ports).1
    either (some key) h = h
    either none h = read_port-AnswersEfi kb ports
