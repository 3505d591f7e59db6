-- ===== src/Keyboard/Repeating.antt =====
-- src/drivers/usb/hid_keyboard.rs and src/time.rs: the repeats of a key that stays down.
use crab_efi.Prelude.{
  ℕ, ◌+◌, ◌*◌, ◌%◌, ◌^◌, ◌<◌, ◌≤◌, true, false, List, [], ◌∷◌, Option, none, some, ◌≡◌, refl, ◌≢◌,
  leb, length, replicate, arith, ◌-◌, dec_lt, ◌==◌, sym, ◌∙◌, subst,
}
use crab_efi.Keyboard.Timer.{Timeout, from_us, from_ms, is_expired}
use crab_efi.Keyboard.Hid.{
  UsbHidKeyboard, enqueue_key, handle_repeat, repeat_interval_ms, repeat_first, repeat_after,
}
use crab_efi.Keyboard.Queueing.{IsRing, queued, put, enqueue_key-IsRing, enqueue_key-put}
use crab_efi.Keyboard.Reporting.{put_all}

-- The difference of the two readings.
before_deadline :
    (d t x : ℕ)
    → d < 2 ^ 63
    → x ≤ d
    → ((t % 2 ^ 64 + d % 2 ^ 64) % 2 ^ 64 + 2 ^ 64 - (t + x) % 2 ^ 64) % 2 ^ 64 ≡ d - x
before_deadline d t x short before = omega arith

after_deadline :
    (d t x : ℕ)
    → x < 2 ^ 63
    → d < x
    → ((t % 2 ^ 64 + d % 2 ^ 64) % 2 ^ 64 + 2 ^ 64 - (t + x) % 2 ^ 64) % 2 ^ 64 ≡ 2 ^ 64 - (x - d)
after_deadline d t x near after = omega arith

-- A time out is over just when its time has gone by, also where the 64-bit counter wraps in between,
-- for times below 2 ^ 63 cycles: t is the time of the start and x the time since.
pub is_expired-from_us :
    (cycles_per_us us t x : ℕ)
    → us * cycles_per_us < 2 ^ 63
    → x < 2 ^ 63
    → is_expired (from_us cycles_per_us (t % 2 ^ 64) us) ((t + x) % 2 ^ 64)
      ≡ leb (us * cycles_per_us) x
unfolding is_expired from_us
is_expired-from_us cycles_per_us us t x short near = elim (dec_lt (us * cycles_per_us) x) [
  | yes over ↦ let e = after_deadline (us * cycles_per_us) t x near over in rw e (ground arith)
  | no waiting ↦
      let e = before_deadline (us * cycles_per_us) t x short (omega arith) in rw e (ground arith)
]

-- Calls of `handle_repeat`, each with its readings of the counter.
abbrev pub repeats : ℕ → UsbHidKeyboard → List (ℕ → ℕ) → UsbHidKeyboard
repeats cycles_per_us kb [] = kb
repeats cycles_per_us kb (clock ∷ clocks) =
    repeats cycles_per_us (handle_repeat cycles_per_us clock kb) clocks

-- Each call comes when the time out before it is over.
abbrev pub Due : ℕ → Timeout → List (ℕ → ℕ) → Type 0
Due cycles_per_us t [] = Unit
Due cycles_per_us t (clock ∷ clocks) =
    (is_expired t (clock 0) ≡ true)
    × Due cycles_per_us (from_ms cycles_per_us (clock 1) repeat_interval_ms) clocks

-- The time out that `handle_repeat` looks at.
abbrev pub running_of : Option Timeout → Option Timeout → Option Timeout
running_of none interval = interval
running_of (some t) interval = some t

abbrev pub running : UsbHidKeyboard → Option Timeout
running kb = running_of kb.repeat_delay_timeout kb.repeat_interval_timeout

pub enqueue_key-kept :
    (kb : UsbHidKeyboard) (key : ℕ)
    → ((enqueue_key kb key).last_key ≡ kb.last_key)
      × ((enqueue_key kb key).repeat_delay_timeout ≡ kb.repeat_delay_timeout)
      × ((enqueue_key kb key).repeat_interval_timeout ≡ kb.repeat_interval_timeout)
unfolding enqueue_key
enqueue_key-kept kb key = ground arith

-- What one call does at the end of its time out.
pub record Repeated (cycles_per_us : ℕ) (clock : ℕ → ℕ) (kb kb' : UsbHidKeyboard) : Type 0 where
  pub ring : IsRing kb'
  pub queue : queued kb' ≡ put (queued kb) kb.last_key
  pub last : kb'.last_key ≡ kb.last_key
  pub next : running kb' ≡ some (from_ms cycles_per_us (clock 1) repeat_interval_ms)

repeat_first-due :
    (cycles_per_us : ℕ) (clock : ℕ → ℕ) (kb : UsbHidKeyboard) (t : Timeout)
    → IsRing kb
    → is_expired t (clock 0) ≡ true
    → Repeated cycles_per_us clock kb (repeat_first cycles_per_us clock kb (some t))
unfolding queued
repeat_first-due cycles_per_us clock kb t v over =
    let next = from_ms cycles_per_us (clock 1) repeat_interval_ms in
    let started : UsbHidKeyboard = record kb {
      repeat_delay_timeout = none;
      repeat_interval_timeout = some next;
    } in
    let v' : IsRing started = record {
      sixteen = v.sixteen;
      read_in = v.read_in;
      write_in = v.write_in;
    } in
    let (last, delay, interval) = enqueue_key-kept started kb.last_key in
    rw over (record {
      ring = enqueue_key-IsRing started kb.last_key v';
      queue = enqueue_key-put started kb.last_key v';
      last = last;
      next = rw (running, delay, interval) refl;
    })

repeat_after-due :
    (cycles_per_us : ℕ) (clock : ℕ → ℕ) (kb : UsbHidKeyboard) (t : Timeout)
    → IsRing kb
    → kb.repeat_delay_timeout ≡ none
    → is_expired t (clock 0) ≡ true
    → Repeated cycles_per_us clock kb (repeat_after cycles_per_us clock kb (some t))
unfolding queued
repeat_after-due cycles_per_us clock kb t v no_delay over =
    let ring = enqueue_key-IsRing kb kb.last_key v in
    let (last, delay, interval) = enqueue_key-kept kb kb.last_key in
    rw over (record {
      ring = record { sixteen = ring.sixteen; read_in = ring.read_in; write_in = ring.write_in };
      queue = enqueue_key-put kb kb.last_key v;
      last = last;
      next = rw (running, delay, no_delay) refl;
    })

repeat_running :
    (cycles_per_us : ℕ) (clock : ℕ → ℕ) (kb : UsbHidKeyboard) (t : Timeout) (delay : Option Timeout)
    → IsRing kb
    → kb.repeat_delay_timeout ≡ delay
    → running_of delay kb.repeat_interval_timeout ≡ some t
    → is_expired t (clock 0) ≡ true
    → Repeated cycles_per_us clock kb (repeat_first cycles_per_us clock kb delay)
repeat_running cycles_per_us clock kb t none v e interval over =
    subst (λ o. Repeated cycles_per_us clock kb (repeat_after cycles_per_us clock kb o))
      (sym interval) (repeat_after-due cycles_per_us clock kb t v e over)
repeat_running cycles_per_us clock kb t (some delay) v e same over =
    subst (λ o. Repeated cycles_per_us clock kb (repeat_first cycles_per_us clock kb o)) (sym same)
      (repeat_first-due cycles_per_us clock kb t v over)

handle_repeat-due :
    (cycles_per_us : ℕ) (clock : ℕ → ℕ) (kb : UsbHidKeyboard) (t : Timeout)
    → IsRing kb
    → kb.last_key ≢ 0
    → running kb ≡ some t
    → is_expired t (clock 0) ≡ true
    → Repeated cycles_per_us clock kb (handle_repeat cycles_per_us clock kb)
unfolding handle_repeat
handle_repeat-due cycles_per_us clock kb t v held set_to over =
    let down : (kb.last_key == 0) ≡ false = ground arith in
    let r = repeat_running cycles_per_us clock kb t kb.repeat_delay_timeout v refl set_to over in
    rw down r

-- On a keyboard whose ring is in order, with a key held down and a time out set: the key is queued
-- once more at every call of handle_repeat that comes when the time out before it is over, as far
-- as there is room in the queue of fifteen.
pub repeats-put_all :
    (cycles_per_us : ℕ) (clocks : List (ℕ → ℕ)) (kb : UsbHidKeyboard) (t : Timeout)
    → IsRing kb
    → kb.last_key ≢ 0
    → running kb ≡ some t
    → Due cycles_per_us t clocks
    → queued (repeats cycles_per_us kb clocks)
      ≡ put_all (queued kb) (replicate (length clocks) kb.last_key)
repeats-put_all cycles_per_us [] kb t v held set_to due = refl
repeats-put_all cycles_per_us (clock ∷ clocks) kb t v held set_to due =
    let r = handle_repeat-due cycles_per_us clock kb t v held set_to due.0 in
    let rest =
      repeats-put_all cycles_per_us clocks (handle_repeat cycles_per_us clock kb)
        (from_ms cycles_per_us (clock 1) repeat_interval_ms) r.ring (λ e. held (sym r.last ∙ e))
        r.next due.1 in
    rest ∙ rw (r.queue, r.last) refl
