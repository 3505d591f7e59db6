-- ===== src/Keyboard/Reached.antt =====
-- src/drivers/usb/hid_keyboard.rs: what holds of a USB keyboard in every state that it comes to.
use crab_efi.Prelude.{
  ℕ, Bool, true, false, ◌&&◌, List, [], ◌∷◌, ◌++◌, Option, none, some, ◌≡◌, refl, ◌∙◌, ◌⊎◌, inl,
  inr, ◌==◌, Bool-cases, arith, ap,
}
use crab_efi.Keyboard.Timer.{Timeout, from_ms, is_expired}
use crab_efi.Keyboard.Layout.{KeyboardReport, shift_pressed, ctrl_pressed, new_keys, translate}
use crab_efi.Keyboard.Hid.{
  UsbHidKeyboard, new_keyboard, xor, enqueue_key, get_key, any_down, process_report, repeat_after,
  repeat_first, handle_repeat, repeat_interval_ms,
}
use crab_efi.Keyboard.Queueing.{
  IsRing, queued, put, pop_front, enqueue_key-IsRing, enqueue_key-put, get_key-IsRing,
  get_key-pop_front,
}
use crab_efi.Keyboard.Reporting.{
  typed, key_cons, put_all, last_or, keys_of, enqueue_key-locks, process_report_lem,
}
use crab_efi.Keyboard.Typing.{is_efi_key, translate-is_efi_key}
use crab_efi.Keyboard.Repeating.{enqueue_key-kept}

-- The states that calls of the driver lead to.
pub data Reached : UsbHidKeyboard → Type 0 where
  started : Reached new_keyboard
  reported :
      {kb : UsbHidKeyboard} (cycles_per_us : ℕ) (clock : ℕ → ℕ) (report : KeyboardReport)
      → Reached kb
      → Reached (process_report cycles_per_us clock kb report)
  repeated :
      {kb : UsbHidKeyboard} (cycles_per_us : ℕ) (clock : ℕ → ℕ)
      → Reached kb
      → Reached (handle_repeat cycles_per_us clock kb)
  taken : {kb : UsbHidKeyboard} → Reached kb → Reached (get_key kb).0

unfoldable pub all_efi : List ℕ → Bool
all_efi [] = true
all_efi (key ∷ keys) = is_efi_key key && all_efi keys

pub record IsSound (kb : UsbHidKeyboard) : Type 0 where
  pub ring : IsRing kb
  pub keys : all_efi (queued kb) ≡ true
  pub last : (kb.last_key ≡ 0) ⊎ (is_efi_key kb.last_key ≡ true)
  pub caps : kb.caps_lock ≡ false
  pub num : kb.num_lock ≡ false

all_efi-append :
    (q : List ℕ) (key : ℕ)
    → all_efi q ≡ true
    → is_efi_key key ≡ true
    → all_efi (q ++ key ∷ []) ≡ true
unfolding all_efi
all_efi-append [] key h k = ground arith
all_efi-append (x ∷ q) key h k = let rest = all_efi-append q key in ground arith

all_efi-put :
    (q : List ℕ) (key : ℕ) → all_efi q ≡ true → is_efi_key key ≡ true → all_efi (put q key) ≡ true
all_efi-put q key h k = let appended = all_efi-append q key h k in ground arith

all_efi-put_all :
    (q keys : List ℕ) → all_efi q ≡ true → all_efi keys ≡ true → all_efi (put_all q keys) ≡ true
unfolding all_efi
all_efi-put_all q [] h hs = h
all_efi-put_all q (key ∷ keys) h hs =
    let (one, rest) = both (is_efi_key key) (all_efi keys) hs in
    all_efi-put_all (put q key) keys (all_efi-put q key h one) rest
  where
    both : (a b : Bool) → (a && b) ≡ true → (a ≡ true) × (b ≡ true)
    both a b h = ground arith

last_or-is_efi_key :
    (d : ℕ) (keys : List ℕ)
    → (d ≡ 0) ⊎ (is_efi_key d ≡ true)
    → all_efi keys ≡ true
    → (last_or d keys ≡ 0) ⊎ (is_efi_key (last_or d keys) ≡ true)
unfolding all_efi
last_or-is_efi_key d [] h hs = h
last_or-is_efi_key d (key ∷ keys) h hs = ground (arith, last_or-is_efi_key key keys)

all_efi-key_cons :
    (shift ctrl num_lock : Bool) (k : ℕ) (key : Option ℕ) (keys : List ℕ)
    → translate shift ctrl num_lock k ≡ key
    → all_efi keys ≡ true
    → all_efi (key_cons key keys) ≡ true
unfolding all_efi
all_efi-key_cons shift ctrl num_lock k none keys e rest = rest
all_efi-key_cons shift ctrl num_lock k (some key) keys e rest =
    rw (translate-is_efi_key shift ctrl num_lock k e) rest

all_efi-typed :
    (shift ctrl num_lock : Bool) (keycodes : List ℕ)
    → all_efi (typed shift ctrl num_lock keycodes) ≡ true
unfolding all_efi
all_efi-typed shift ctrl num_lock [] = refl
all_efi-typed shift ctrl num_lock (k ∷ ks) =
    all_efi-key_cons shift ctrl num_lock k (translate shift ctrl num_lock k)
      (typed shift ctrl num_lock ks) refl (all_efi-typed shift ctrl num_lock ks)

new_keyboard-IsSound : IsSound new_keyboard
unfolding queued all_efi
new_keyboard-IsSound = record {
  ring = record { sixteen = refl; read_in = omega arith; write_in = omega arith };
  keys = refl;
  last = inl refl;
  caps = refl;
  num = refl;
}

process_report-IsSound :
    (cycles_per_us : ℕ) (clock : ℕ → ℕ) (kb : UsbHidKeyboard) (report : KeyboardReport)
    → IsSound kb
    → IsSound (process_report cycles_per_us clock kb report)
process_report-IsSound cycles_per_us clock kb report s =
    let r = process_report_lem cycles_per_us clock kb report s.ring in
    let keycodes = new_keys report kb.prev_report in
    let shift = xor (shift_pressed report) kb.caps_lock in
    let good = all_efi-typed shift (ctrl_pressed report) kb.num_lock keycodes in
    let keys = keys_of kb report keycodes in
    let last = last_or-is_efi_key kb.last_key keys s.last good in
    record {
      ring = r.0;
      keys = rw (r.1) (all_efi-put_all (queued kb) keys s.keys good);
      last = rw (r.4) (elim (Bool-cases (any_down report.keys)) [
        | inl e ↦ rw e last
        | inr e ↦ rw e (inl refl)
      ]);
      caps = r.2 ∙ s.caps;
      num = r.3 ∙ s.num;
    }

enqueue_key-IsSound :
    (kb : UsbHidKeyboard) (key : ℕ)
    → IsSound kb
    → is_efi_key key ≡ true
    → IsSound (enqueue_key kb key)
enqueue_key-IsSound kb key s good =
    let (caps, num) = enqueue_key-locks kb key in
    let kept = enqueue_key-kept kb key in
    record {
      ring = enqueue_key-IsRing kb key s.ring;
      keys = rw (enqueue_key-put kb key s.ring) (all_efi-put (queued kb) key s.keys good);
      last = rw (kept.0) s.last;
      caps = caps ∙ s.caps;
      num = num ∙ s.num;
    }

with_timeouts-IsSound :
    (kb : UsbHidKeyboard) (delay interval : Option Timeout)
    → IsSound kb
    → IsSound (record kb { repeat_delay_timeout = delay; repeat_interval_timeout = interval })
unfolding queued
with_timeouts-IsSound kb delay interval s =
    let ring = s.ring in
    record {
      ring = record { sixteen = ring.sixteen; read_in = ring.read_in; write_in = ring.write_in };
      keys = s.keys;
      last = s.last;
      caps = s.caps;
      num = s.num;
    }

module _ (cycles_per_us : ℕ) (clock : ℕ → ℕ) (kb : UsbHidKeyboard) (s : IsSound kb)
    (good : is_efi_key kb.last_key ≡ true) where
  abbrev next_time : Timeout
  next_time = from_ms cycles_per_us (clock 1) repeat_interval_ms

  repeat_after-IsSound : (t : Option Timeout) → IsSound (repeat_after cycles_per_us clock kb t)
  repeat_after-IsSound none = s
  repeat_after-IsSound (some t) =
      let kb' = enqueue_key kb kb.last_key in
      elim (Bool-cases (is_expired t (clock 0))) [
        | inl e ↦ rw e (
            with_timeouts-IsSound kb' kb'.repeat_delay_timeout (some next_time)
              (enqueue_key-IsSound kb kb.last_key s good))
        | inr e ↦ rw e s
      ]

  repeat_first-IsSound : (t : Option Timeout) → IsSound (repeat_first cycles_per_us clock kb t)
  repeat_first-IsSound none = repeat_after-IsSound kb.repeat_interval_timeout
  repeat_first-IsSound (some t) = elim (Bool-cases (is_expired t (clock 0))) [
    | inl e ↦ rw e (
        enqueue_key-IsSound
          (record kb { repeat_delay_timeout = none; repeat_interval_timeout = some next_time })
          kb.last_key (with_timeouts-IsSound kb none (some next_time) s) good)
    | inr e ↦ rw e s
  ]

handle_repeat-IsSound :
    (cycles_per_us : ℕ) (clock : ℕ → ℕ) (kb : UsbHidKeyboard)
    → IsSound kb
    → IsSound (handle_repeat cycles_per_us clock kb)
unfolding handle_repeat
handle_repeat-IsSound cycles_per_us clock kb s = elim s.last [
  | inl up ↦ let e : (kb.last_key == 0) ≡ true = ground arith in rw e s
  | inr good ↦ elim (Bool-cases (kb.last_key == 0)) [
    | inl e ↦ rw e s
    | inr e ↦ rw e (repeat_first-IsSound cycles_per_us clock kb s good kb.repeat_delay_timeout)
  ]
]

pub all_efi-pop_front : (q : List ℕ) → all_efi q ≡ true → all_efi (pop_front q).0 ≡ true
unfolding all_efi
all_efi-pop_front [] h = h
all_efi-pop_front (key ∷ q) h = ground arith

get_key-kept :
    (kb : UsbHidKeyboard)
    → ((get_key kb).0.last_key ≡ kb.last_key)
      × ((get_key kb).0.caps_lock ≡ kb.caps_lock)
      × ((get_key kb).0.num_lock ≡ kb.num_lock)
unfolding get_key
get_key-kept kb = ground arith

get_key-IsSound : (kb : UsbHidKeyboard) → IsSound kb → IsSound (get_key kb).0
get_key-IsSound kb s =
    let kept = get_key-kept kb in
    let front = get_key-pop_front kb s.ring in
    record {
      ring = get_key-IsRing kb s.ring;
      keys = rw (ap (λ p. p.0) front) (all_efi-pop_front (queued kb) s.keys);
      last = rw (kept.0) s.last;
      caps = kept.1 ∙ s.caps;
      num = kept.2 ∙ s.num;
    }

-- Whatever reports come and however they are mixed with repeats and reads, the ring stays in order,
-- all keys in it are EFI keys, and neither Caps Lock nor Num Lock is ever on.
pub Reached-IsSound : {kb : UsbHidKeyboard} → Reached kb → IsSound kb
Reached-IsSound started = new_keyboard-IsSound
Reached-IsSound (reported {kb} cycles_per_us clock report r) =
    process_report-IsSound cycles_per_us clock kb report (Reached-IsSound r)
Reached-IsSound (repeated {kb} cycles_per_us clock r) =
    handle_repeat-IsSound cycles_per_us clock kb (Reached-IsSound r)
Reached-IsSound (taken {kb} r) = get_key-IsSound kb (Reached-IsSound r)
