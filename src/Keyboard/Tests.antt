-- ===== src/Keyboard/Tests.antt =====
-- Tests of the keyboards, and witnesses of the theorems.
use crab_efi.Prelude.{
  ℕ, ◌<◌, true, false, List, [], ◌∷◌, some, ◌≡◌, refl, ◌⊎◌, arith, if◌then◌else◌, length, replicate,
  ◌≤◌, ap,
}
use crab_efi.Keyboard.Timer.{from_us, is_expired}
use crab_efi.Keyboard.Layout.{KeyboardReport, new_keys, shift_pressed, ctrl_pressed, translate}
use crab_efi.Keyboard.Hid.{
  UsbHidKeyboard, new_keyboard, any_down, process_report, get_key, read_key, enqueue_key,
  translate_keycode, accept_keys,
}
use crab_efi.Keyboard.Queueing.{IsRing, queued}
use crab_efi.Keyboard.Reporting.{put_all, last_or, keys_of, process_report_lem}
use crab_efi.Keyboard.Repeating.{Due, repeats, repeats-put_all}
use crab_efi.Keyboard.Reached.{Reached, started, reported, IsSound, Reached-IsSound}
use crab_efi.Keyboard.Ps2.{
  new_state, Ps2Ports, try_read_key, process_scancode, scancode_to_efi_normal,
  scancode_to_efi_extended,
}
use crab_efi.Keyboard.Scanning.{KeyEvent, AllKeys, all_codes, run, type_events, run-type_events}
use crab_efi.Keyboard.Keys.{try_read_key-EfiPair}

-- `a` and F1 with the left shift key, and Caps Lock.
abbrev shift_a : KeyboardReport
shift_a = record { modifiers = 0x02; reserved = 0; keys = 0x04 ∷ 0x3A ∷ 0x39 ∷ 0 ∷ 0 ∷ 0 ∷ [] }

abbrev still : ℕ → ℕ
still n = 5

abbrev with_shift_a : UsbHidKeyboard
with_shift_a = process_report 1 still new_keyboard shift_a

types_shift_a : queued with_shift_a ≡ b'A' ∷ 0x0B00 ∷ []
unfolding process_report new_keys shift_pressed ctrl_pressed translate_keycode translate accept_keys
    enqueue_key queued
types_shift_a = refl

reads_shift_a : (read_key with_shift_a).1 ≡ some (0, b'A')
unfolding process_report new_keys shift_pressed ctrl_pressed translate_keycode translate accept_keys
    enqueue_key get_key read_key
reads_shift_a = refl

caps_stays_off : with_shift_a.caps_lock ≡ false
unfolding process_report new_keys shift_pressed ctrl_pressed translate_keycode translate accept_keys
    enqueue_key
caps_stays_off = refl

new_IsRing : IsRing new_keyboard
new_IsRing = record { sixteen = refl; read_in = omega arith; write_in = omega arith }

process_report_lem_example :
    let keys = keys_of new_keyboard shift_a (new_keys shift_a new_keyboard.prev_report) in
    IsRing with_shift_a
    × (queued with_shift_a ≡ put_all (queued new_keyboard) keys)
    × (with_shift_a.caps_lock ≡ false)
    × (with_shift_a.num_lock ≡ false)
    × (with_shift_a.last_key ≡ (if any_down shift_a.keys then last_or 0 keys else 0))
    × (with_shift_a.prev_report ≡ shift_a)
process_report_lem_example = process_report_lem 1 still new_keyboard shift_a new_IsRing

-- A key that is held, with a time out that is over at 600000.
abbrev holding : UsbHidKeyboard
holding = record new_keyboard {
  last_key = b'x';
  repeat_delay_timeout = some (record { deadline = 500000 });
}

abbrev ticks : List (ℕ → ℕ)
ticks = (λ n. 600000) ∷ (λ n. 640000) ∷ []

ticks-Due : Due 1 (record { deadline = 500000 }) ticks
unfolding is_expired from_us
ticks-Due = (refl, (refl, tt))

repeats-put_all_example :
    queued (repeats 1 holding ticks) ≡ put_all (queued holding) (replicate (length ticks) b'x')
repeats-put_all_example =
    repeats-put_all 1 ticks holding (record { deadline = 500000 })
      (record { sixteen = refl; read_in = omega arith; write_in = omega arith })
      (λ e. absurd (omega (arith, e))) refl ticks-Due

after_shift_a : Reached with_shift_a
after_shift_a = reported 1 still shift_a started

Reached-IsSound_example : IsSound with_shift_a
Reached-IsSound_example = Reached-IsSound after_shift_a

-- Shift down, `q` down and up, the right arrow down.
abbrev some_events : List KeyEvent
some_events =
    record { is_extended = false; code = 0x2A; is_press = true }
    ∷ record { is_extended = false; code = 0x10; is_press = true }
    ∷ record { is_extended = false; code = 0x10; is_press = false }
    ∷ record { is_extended = true; code = 0x4D; is_press = true }
    ∷ []

types_some_events : (run new_state (all_codes some_events)).1 ≡ (0, b'Q') ∷ (3, 0) ∷ []
unfolding process_scancode scancode_to_efi_normal scancode_to_efi_extended
types_some_events = refl

some_AllKeys : AllKeys some_events
some_AllKeys = (
  record { small = omega arith; not_prefix = λ e. omega (arith, e) },
  (
    record { small = omega arith; not_prefix = λ e. omega (arith, e) },
    (
      record { small = omega arith; not_prefix = λ e. omega (arith, e) },
      (record { small = omega arith; not_prefix = λ e. omega (arith, e) }, tt),
    ),
  ),
)

run-type_events_example :
    let typed = type_events new_state.modifiers some_events in
    run new_state (all_codes some_events) ≡ (record new_state { modifiers = typed.0 }, typed.1)
run-type_events_example = run-type_events new_state some_events refl some_AllKeys

abbrev no_data : Ps2Ports
no_data = record { value = 0; status = 0 }

abbrev upper_a : ℕ × ℕ
upper_a = (0, b'A')

reads_upper_a : (try_read_key new_state (read_key with_shift_a).1 no_data).1 ≡ some upper_a
unfolding try_read_key
reads_upper_a = ap (λ key. (try_read_key new_state key no_data).1) reads_shift_a

try_read_key-EfiPair_example :
    ((upper_a.0 ≡ 0) × (0 < upper_a.1) × (upper_a.1 < 128))
    ⊎ ((upper_a.1 ≡ 0) × (0 < upper_a.0) × (upper_a.0 ≤ 0x17))
try_read_key-EfiPair_example =
    try_read_key-EfiPair new_state with_shift_a no_data after_shift_a reads_upper_a
