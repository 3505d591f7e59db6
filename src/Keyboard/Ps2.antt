-- ===== src/Keyboard/Ps2.antt =====
-- src/drivers/keyboard.rs: the scan codes of a PS/2 keyboard. The status and data ports and the
-- answer of the USB keyboard are parameters.
use crab_efi.Prelude.{
  ℕ, ◌+◌, ◌-◌, Bool, true, false, not, ◌&&◌, ◌||◌, Option, none, some, List, [], ◌∷◌, ◌++◌, ◌==◌,
  leb, if◌then◌else◌, get_or, bit_and,
}
use crab_efi.Keyboard.Layout.{lookup}

pub record Modifiers : Type 0 where
  pub shift : Bool
  pub ctrl : Bool
  pub alt : Bool
  pub caps_lock : Bool

pub record KeyboardState : Type 0 where
  pub initialized : Bool
  pub modifiers : Modifiers
  pub extended : Bool

-- `KeyboardState::new`
abbrev pub new_state : KeyboardState
new_state = record {
  initialized = false;
  modifiers = record { shift = false; ctrl = false; alt = false; caps_lock = false };
  extended = false;
}

-- The keys of `scancode_to_efi_extended`, and the function keys of `scancode_to_efi_normal`.
abbrev pub extended_keys : List (ℕ × ℕ)
extended_keys =
    (0x48, 0x01)
    ∷ (0x50, 0x02)
    ∷ (0x4D, 0x03)
    ∷ (0x4B, 0x04)
    ∷ (0x47, 0x05)
    ∷ (0x4F, 0x06)
    ∷ (0x52, 0x07)
    ∷ (0x53, 0x08)
    ∷ (0x49, 0x09)
    ∷ (0x51, 0x0A)
    ∷ []

abbrev pub function_keys : List (ℕ × ℕ)
function_keys =
    (0x01, 0x17)
    ∷ (0x3B, 0x0B)
    ∷ (0x3C, 0x0C)
    ∷ (0x3D, 0x0D)
    ∷ (0x3E, 0x0E)
    ∷ (0x3F, 0x0F)
    ∷ (0x40, 0x10)
    ∷ (0x41, 0x11)
    ∷ (0x42, 0x12)
    ∷ (0x43, 0x13)
    ∷ (0x44, 0x14)
    ∷ (0x57, 0x15)
    ∷ (0x58, 0x16)
    ∷ []

abbrev pub unshifted : List ℕ
unshifted =
    (0 ∷ 0x1B ∷ b'1' ∷ b'2' ∷ b'3' ∷ b'4' ∷ b'5' ∷ b'6' ∷ [])
    ++ (b'7' ∷ b'8' ∷ b'9' ∷ b'0' ∷ b'-' ∷ b'=' ∷ 0x08 ∷ 0x09 ∷ [])
    ++ (b'q' ∷ b'w' ∷ b'e' ∷ b'r' ∷ b't' ∷ b'y' ∷ b'u' ∷ b'i' ∷ [])
    ++ (b'o' ∷ b'p' ∷ b'[' ∷ b']' ∷ 0x0D ∷ 0 ∷ b'a' ∷ b's' ∷ [])
    ++ (b'd' ∷ b'f' ∷ b'g' ∷ b'h' ∷ b'j' ∷ b'k' ∷ b'l' ∷ b';' ∷ [])
    ++ (0x27 ∷ 0x60 ∷ 0 ∷ 0x5C ∷ b'z' ∷ b'x' ∷ b'c' ∷ b'v' ∷ [])
    ++ (b'b' ∷ b'n' ∷ b'm' ∷ b',' ∷ b'.' ∷ b'/' ∷ 0 ∷ b'*' ∷ [])
    ++ (0 ∷ 0x20 ∷ 0 ∷ 0 ∷ 0 ∷ 0 ∷ 0 ∷ 0 ∷ [])
    ++ (0 ∷ 0 ∷ 0 ∷ 0 ∷ 0 ∷ 0 ∷ 0 ∷ b'7' ∷ [])
    ++ (b'8' ∷ b'9' ∷ b'-' ∷ b'4' ∷ b'5' ∷ b'6' ∷ b'+' ∷ b'1' ∷ [])
    ++ (b'2' ∷ b'3' ∷ b'0' ∷ b'.' ∷ 0 ∷ 0 ∷ 0 ∷ 0 ∷ [])
    ++ (0 ∷ [])

abbrev pub shifted : List ℕ
shifted =
    (0 ∷ 0x1B ∷ b'!' ∷ b'@' ∷ b'#' ∷ b'$' ∷ b'%' ∷ b'^' ∷ [])
    ++ (b'&' ∷ b'*' ∷ b'(' ∷ b')' ∷ b'_' ∷ b'+' ∷ 0x08 ∷ 0x09 ∷ [])
    ++ (b'Q' ∷ b'W' ∷ b'E' ∷ b'R' ∷ b'T' ∷ b'Y' ∷ b'U' ∷ b'I' ∷ [])
    ++ (b'O' ∷ b'P' ∷ b'{' ∷ b'}' ∷ 0x0D ∷ 0 ∷ b'A' ∷ b'S' ∷ [])
    ++ (b'D' ∷ b'F' ∷ b'G' ∷ b'H' ∷ b'J' ∷ b'K' ∷ b'L' ∷ b':' ∷ [])
    ++ (0x22 ∷ b'~' ∷ 0 ∷ b'|' ∷ b'Z' ∷ b'X' ∷ b'C' ∷ b'V' ∷ [])
    ++ (b'B' ∷ b'N' ∷ b'M' ∷ b'<' ∷ b'>' ∷ b'?' ∷ 0 ∷ b'*' ∷ [])
    ++ (0 ∷ 0x20 ∷ 0 ∷ 0 ∷ 0 ∷ 0 ∷ 0 ∷ 0 ∷ [])
    ++ (0 ∷ 0 ∷ 0 ∷ 0 ∷ 0 ∷ 0 ∷ 0 ∷ b'7' ∷ [])
    ++ (b'8' ∷ b'9' ∷ b'-' ∷ b'4' ∷ b'5' ∷ b'6' ∷ b'+' ∷ b'1' ∷ [])
    ++ (b'2' ∷ b'3' ∷ b'0' ∷ b'.' ∷ 0 ∷ 0 ∷ 0 ∷ 0 ∷ [])
    ++ (0 ∷ [])

abbrev pub is_upper : ℕ → Bool
is_upper ch = leb b'A' ch && leb ch b'Z'

abbrev pub is_lower : ℕ → Bool
is_lower ch = leb b'a' ch && leb ch b'z'

-- `u8::is_ascii_alphabetic`, `u8::to_ascii_lowercase`, `u8::to_ascii_uppercase`
abbrev pub is_alphabetic : ℕ → Bool
is_alphabetic ch = is_upper ch || is_lower ch

abbrev pub to_lower : ℕ → ℕ
to_lower ch = if is_upper ch then ch + 0x20 else ch

abbrev pub to_upper : ℕ → ℕ
to_upper ch = if is_lower ch then ch - 0x20 else ch

-- A scan code and a character.
abbrev pub Key : Type 0
Key = ℕ × ℕ

abbrev pub scan_key : Option ℕ → Option Key
scan_key none = none
scan_key (some scan_code) = some (scan_code, 0)

unfoldable pub scancode_to_efi_extended : ℕ → Option Key
scancode_to_efi_extended code = scan_key (lookup extended_keys code)

abbrev pub with_caps : Modifiers → ℕ → ℕ
with_caps m ch =
    if m.caps_lock && is_alphabetic ch then if m.shift then to_lower ch else to_upper ch else ch

abbrev pub with_ctrl : Modifiers → ℕ → ℕ
with_ctrl m ch = if m.ctrl && is_alphabetic ch then to_lower ch - b'a' + 1 else ch

-- `SHIFTED[code]` or `UNSHIFTED[code]`
abbrev pub table_char : Modifiers → ℕ → ℕ
table_char m code = get_or (if m.shift then shifted else unshifted) code 0

abbrev pub or_char : Modifiers → ℕ → Option ℕ → Option Key
or_char m code (some scan_code) = some (scan_code, 0)
or_char m code none =
    if leb 89 code
    then none
    else if table_char m code == 0
    then none
    else some (0, with_ctrl m (with_caps m (table_char m code)))

unfoldable pub scancode_to_efi_normal : Modifiers → ℕ → Option Key
scancode_to_efi_normal m code = or_char m code (lookup function_keys code)

-- The codes that change the modifiers; a code that does not gives none.
abbrev pub normal_modifier : Modifiers → ℕ → Bool → Option Modifiers
normal_modifier m code is_release =
    if code == 0x2A || code == 0x36
    then some (record m { shift = not is_release })
    else if code == 0x1D
    then some (record m { ctrl = not is_release })
    else if code == 0x38
    then some (record m { alt = not is_release })
    else if code == 0x3A && not is_release
    then some (record m { caps_lock = not m.caps_lock })
    else none

abbrev pub extended_modifier : Modifiers → ℕ → Bool → Option Modifiers
extended_modifier m code is_release =
    if code == 0x1D
    then some (record m { ctrl = not is_release })
    else if code == 0x38
    then some (record m { alt = not is_release })
    else none

abbrev pub modifier_key : Bool → Modifiers → ℕ → Bool → Option Modifiers
modifier_key extended m code is_release =
    if extended then extended_modifier m code is_release else normal_modifier m code is_release

-- The end of `process_scancode`, from the test of the modifier keys on.
abbrev pub after_modifiers :
    KeyboardState → Bool → ℕ → Bool → Option Modifiers → KeyboardState × Option Key
after_modifiers kb extended code is_release (some m) = (record kb { modifiers = m }, none)
after_modifiers kb extended code is_release none =
    if is_release
    then (kb, none)
    else if extended
    then (kb, scancode_to_efi_extended code)
    else (kb, scancode_to_efi_normal kb.modifiers code)

unfoldable pub process_scancode : KeyboardState → ℕ → KeyboardState × Option Key
process_scancode kb scancode =
    if scancode == 0xE0
    then (record kb { extended = true }, none)
    else let is_release = not (bit_and scancode 0x80 == 0) in
      let code = bit_and scancode 0x7F in
      after_modifiers (record kb { extended = false }) kb.extended code is_release
        (modifier_key kb.extended kb.modifiers code is_release)

-- What the ports hold: `PS2Ports`, with the data port first.
pub record Ps2Ports : Type 0 where
  pub value : ℕ
  pub status : ℕ

abbrev pub output_full : ℕ → Bool
output_full status = not (bit_and status 0x01 == 0)

abbrev pub aux_data : ℕ → Bool
aux_data status = not (bit_and status 0x20 == 0)

-- `KeyboardState::has_data`
abbrev pub has_data : Ps2Ports → Bool
has_data ports = output_full ports.status && not (aux_data ports.status)

-- `has_key`, with the answer of `keyboard_has_key` after the poll.
unfoldable pub has_key : KeyboardState → Bool → Ps2Ports → Bool
has_key kb usb_has_key ports =
    if usb_has_key then true else if kb.initialized then has_data ports else false

abbrev pub read_port : KeyboardState → Ps2Ports → KeyboardState × Option Key
read_port kb ports =
    if kb.initialized
    then if output_full ports.status
      then if aux_data ports.status then (kb, none) else process_scancode kb ports.value
      else (kb, none)
    else (kb, none)

-- `try_read_key`, with the answer of `keyboard_get_key` after the poll.
unfoldable pub try_read_key : KeyboardState → Option Key → Ps2Ports → KeyboardState × Option Key
try_read_key kb (some key) ports = (kb, some key)
try_read_key kb none ports = read_port kb ports
