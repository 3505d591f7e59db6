-- ===== src/Keyboard/Hid.antt =====
-- src/drivers/usb/hid_keyboard.rs: the state of a USB keyboard and its operations. The fields that
-- only address the device are left out. `clock n` is the n-th reading of the time stamp counter in
-- a call.
use crab_efi.Prelude.{
  ℕ, ◌+◌, ◌/◌, ◌%◌, Bool, true, false, not, Option, none, some, List, [], ◌∷◌, ◌==◌, if◌then◌else◌,
  length, replicate, set, get_or, drop,
}
use crab_efi.Keyboard.Timer.{Timeout, from_ms, is_expired}
use crab_efi.Keyboard.Layout.{
  KeyboardReport, default_report, shift_pressed, ctrl_pressed, new_keys, translate,
}

abbrev pub repeat_initial_delay_ms : ℕ
repeat_initial_delay_ms = 500

abbrev pub repeat_interval_ms : ℕ
repeat_interval_ms = 30

pub record UsbHidKeyboard : Type 0 where
  pub prev_report : KeyboardReport
  pub caps_lock : Bool
  pub num_lock : Bool
  pub key_buffer : List ℕ
  pub read_idx : ℕ
  pub write_idx : ℕ
  pub last_key : ℕ
  pub repeat_delay_timeout : Option Timeout
  pub repeat_interval_timeout : Option Timeout

-- `UsbHidKeyboard::new`
abbrev pub new_keyboard : UsbHidKeyboard
new_keyboard = record {
  prev_report = default_report;
  caps_lock = false;
  num_lock = false;
  key_buffer = replicate 16 0;
  read_idx = 0;
  write_idx = 0;
  last_key = 0;
  repeat_delay_timeout = none;
  repeat_interval_timeout = none;
}

abbrev pub xor : Bool → Bool → Bool
xor true b = not b
xor false b = b

unfoldable pub translate_keycode : UsbHidKeyboard → ℕ → KeyboardReport → Option ℕ
translate_keycode kb keycode report =
    translate (xor (shift_pressed report) kb.caps_lock) (ctrl_pressed report) kb.num_lock keycode

unfoldable pub enqueue_key : UsbHidKeyboard → ℕ → UsbHidKeyboard
enqueue_key kb key =
    let next_write = (kb.write_idx + 1) % length kb.key_buffer in
    if next_write == kb.read_idx
    then kb
    else record kb { key_buffer = set kb.key_buffer kb.write_idx key; write_idx = next_write }

unfoldable pub has_key : UsbHidKeyboard → Bool
has_key kb = not (kb.read_idx == kb.write_idx)

unfoldable pub get_key : UsbHidKeyboard → UsbHidKeyboard × Option ℕ
get_key kb = if kb.read_idx == kb.write_idx then (kb, none) else (
  record kb { read_idx = (kb.read_idx + 1) % length kb.key_buffer },
  some (get_or kb.key_buffer kb.read_idx 0),
)

-- The lock keys of `process_report`.
abbrev pub toggle_lock : UsbHidKeyboard → ℕ → UsbHidKeyboard
toggle_lock kb keycode =
    if keycode == 0x39
    then record kb { caps_lock = not kb.caps_lock }
    else if keycode == 0x53
    then record kb { num_lock = not kb.num_lock }
    else kb

-- What `process_report` does with a key.
abbrev pub accept_key : UsbHidKeyboard → ℕ → Timeout → Option ℕ → UsbHidKeyboard
accept_key kb keycode timeout none = kb
accept_key kb keycode timeout (some efi_key) =
    record (toggle_lock (enqueue_key kb efi_key) keycode) {
      last_key = efi_key;
      repeat_delay_timeout = some timeout;
      repeat_interval_timeout = none;
    }

-- `keys.iter().any(|&k| k != 0)`
abbrev pub any_down : List ℕ → Bool
any_down [] = false
any_down (k ∷ ks) = if k == 0 then any_down ks else true

abbrev pub release : UsbHidKeyboard → UsbHidKeyboard
release kb = record kb { last_key = 0; repeat_delay_timeout = none; repeat_interval_timeout = none }

module _ (cycles_per_us : ℕ) (clock : ℕ → ℕ) where
  -- The loop of `process_report`. A reading that is not needed is not used.
  unfoldable pub accept_keys : ℕ → UsbHidKeyboard → KeyboardReport → List ℕ → UsbHidKeyboard
  accept_keys n kb report [] = kb
  accept_keys n kb report (keycode ∷ keycodes) =
      let kb' =
        accept_key kb keycode (from_ms cycles_per_us (clock n) repeat_initial_delay_ms)
          (translate_keycode kb keycode report) in
      accept_keys (n + 1) kb' report keycodes

  unfoldable pub process_report : UsbHidKeyboard → KeyboardReport → UsbHidKeyboard
  process_report kb report =
      let accepted = accept_keys 0 kb report (new_keys report kb.prev_report) in
      let released = if any_down report.keys then accepted else release accepted in
      record released { prev_report = report }

  -- `is_expired` is the first reading, and the new time out the second.
  abbrev pub repeat_after : UsbHidKeyboard → Option Timeout → UsbHidKeyboard
  repeat_after kb none = kb
  repeat_after kb (some interval_timeout) =
      if is_expired interval_timeout (clock 0)
      then record (enqueue_key kb kb.last_key) {
        repeat_interval_timeout = some (from_ms cycles_per_us (clock 1) repeat_interval_ms);
      }
      else kb

  abbrev pub repeat_first : UsbHidKeyboard → Option Timeout → UsbHidKeyboard
  repeat_first kb none = repeat_after kb kb.repeat_interval_timeout
  repeat_first kb (some delay_timeout) =
      if is_expired delay_timeout (clock 0)
      then enqueue_key
          (record kb {
            repeat_delay_timeout = none;
            repeat_interval_timeout = some (from_ms cycles_per_us (clock 1) repeat_interval_ms);
          })
          kb.last_key
      else kb

  unfoldable pub handle_repeat : UsbHidKeyboard → UsbHidKeyboard
  handle_repeat kb = if kb.last_key == 0 then kb else repeat_first kb kb.repeat_delay_timeout

abbrev pub split_key : Option ℕ → Option (ℕ × ℕ)
split_key none = none
split_key (some key) = some (key / 256 % 256, key % 256)

-- `get_key` of the module: the scan code and the character of a key.
unfoldable pub read_key : UsbHidKeyboard → UsbHidKeyboard × Option (ℕ × ℕ)
read_key kb = let (kb', key) = get_key kb in (kb', split_key key)

abbrev pub min_poll_interval_ms : ℕ
min_poll_interval_ms = 8

-- `USB_KEYBOARD` and `NEXT_POLL_TIMEOUT`.
pub record UsbInput : Type 0 where
  pub keyboard : Option UsbHidKeyboard
  pub next_poll_timeout : Option Timeout

abbrev pub report_of : List ℕ → KeyboardReport
report_of report_buf = record {
  modifiers = get_or report_buf 0 0;
  reserved = get_or report_buf 1 0;
  keys = drop 2 report_buf;
}

abbrev pub is_early : Option Timeout → ℕ → Bool
is_early none now = false
is_early (some timeout) now = not (is_expired timeout now)

module _ (cycles_per_us : ℕ) (clock : ℕ → ℕ) where
  abbrev pub take_report : UsbHidKeyboard → Option (List ℕ) → UsbHidKeyboard
  take_report kb none = kb
  take_report kb (some report_buf) =
      process_report cycles_per_us (λ n. clock (n + 2)) kb (report_of report_buf)

  abbrev pub repeat_early : Option UsbHidKeyboard → Option UsbHidKeyboard
  repeat_early none = none
  repeat_early (some kb) = some (handle_repeat cycles_per_us (λ n. clock (n + 1)) kb)

  -- The readings of a report are at most six, so those of the repeat come after them.
  abbrev pub poll_keyboard : Option UsbHidKeyboard → Option (List ℕ) → Option UsbHidKeyboard
  poll_keyboard none answer = none
  poll_keyboard (some kb) answer =
      some (handle_repeat cycles_per_us (λ n. clock (n + 8)) (take_report kb answer))

  -- `poll`; the controller's answer is the eight bytes of a report, or none for an error.
  unfoldable pub poll : UsbInput → Option (List ℕ) → UsbInput
  poll input answer =
      if is_early input.next_poll_timeout (clock 0)
      then record input { keyboard = repeat_early input.keyboard }
      else record {
        keyboard = poll_keyboard input.keyboard answer;
        next_poll_timeout = some (from_ms cycles_per_us (clock 1) min_poll_interval_ms);
      }
