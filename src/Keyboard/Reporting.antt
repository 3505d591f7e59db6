-- ===== src/Keyboard/Reporting.antt =====
-- src/drivers/usb/hid_keyboard.rs: what a report adds to the keys that wait.
use crab_efi.Prelude.{
  ℕ, ◌+◌, Bool, true, List, [], ◌∷◌, ◌++◌, Option, none, some, ◌≡◌, refl, sym, ap, ◌∙◌, inl, inr,
  if◌then◌else◌, arith, Bool-cases, ℕ_discrete, append_assoc,
}
use crab_efi.Keyboard.Timer.{Timeout, from_ms}
use crab_efi.Keyboard.Layout.{
  KeyboardReport, shift_pressed, ctrl_pressed, new_keys, fresh, contains, translate,
}
use crab_efi.Keyboard.Hid.{
  UsbHidKeyboard, xor, enqueue_key, toggle_lock, translate_keycode, accept_key, accept_keys,
  any_down, process_report, repeat_initial_delay_ms,
}
use crab_efi.Keyboard.Queueing.{IsRing, queued, put, enqueue_key-IsRing, enqueue_key-put}

abbrev pub key_cons : Option ℕ → List ℕ → List ℕ
key_cons none keys = keys
key_cons (some key) keys = key ∷ keys

-- The keys that key codes type.
abbrev pub typed : Bool → Bool → Bool → List ℕ → List ℕ
typed shift ctrl num_lock [] = []
typed shift ctrl num_lock (keycode ∷ keycodes) =
    let rest = typed shift ctrl num_lock keycodes in
    key_cons (translate shift ctrl num_lock keycode) rest

abbrev pub put_all : List ℕ → List ℕ → List ℕ
put_all q [] = q
put_all q (key ∷ keys) = put_all (put q key) keys

abbrev pub last_or : ℕ → List ℕ → ℕ
last_or d [] = d
last_or d (key ∷ keys) = last_or key keys

caps_lock_untyped : (shift ctrl num_lock : Bool) → translate shift ctrl num_lock 0x39 ≡ none
unfolding translate
caps_lock_untyped shift ctrl num_lock = refl

num_lock_untyped : (shift ctrl num_lock : Bool) → translate shift ctrl num_lock 0x53 ≡ none
unfolding translate
num_lock_untyped shift ctrl num_lock = refl

-- A key code that types a key is not a lock key.
toggle_lock-typed :
    (kb : UsbHidKeyboard) (shift ctrl num_lock : Bool) (keycode : ℕ) {key : ℕ}
    → translate shift ctrl num_lock keycode ≡ some key
    → toggle_lock kb keycode ≡ kb
toggle_lock-typed kb shift ctrl num_lock keycode e = elim (ℕ_discrete keycode 0x39) [
  | yes caps ↦ let untyped = caps_lock_untyped shift ctrl num_lock in cc
  | no other ↦ elim (ℕ_discrete keycode 0x53) [
    | yes num ↦ let untyped = num_lock_untyped shift ctrl num_lock in cc
    | no neither ↦ ground arith
  ]
]

-- A keyboard after the keys were typed.
pub record Took (kb : UsbHidKeyboard) (keys : List ℕ) (kb' : UsbHidKeyboard) : Type 0 where
  pub ring : IsRing kb'
  pub queue : queued kb' ≡ put_all (queued kb) keys
  pub caps : kb'.caps_lock ≡ kb.caps_lock
  pub num : kb'.num_lock ≡ kb.num_lock
  pub last : kb'.last_key ≡ last_or kb.last_key keys

abbrev pub keys_of : UsbHidKeyboard → KeyboardReport → List ℕ → List ℕ
keys_of kb report =
    typed (xor (shift_pressed report) kb.caps_lock) (ctrl_pressed report) kb.num_lock

pub enqueue_key-locks :
    (kb : UsbHidKeyboard) (key : ℕ)
    → ((enqueue_key kb key).caps_lock ≡ kb.caps_lock)
      × ((enqueue_key kb key).num_lock ≡ kb.num_lock)
unfolding enqueue_key
enqueue_key-locks kb key = ground arith

accept_key-some :
    (kb : UsbHidKeyboard) (keycode key : ℕ) (timeout : Timeout)
    → IsRing kb
    → toggle_lock (enqueue_key kb key) keycode ≡ enqueue_key kb key
    → Took kb (key ∷ []) (accept_key kb keycode timeout (some key))
unfolding queued
accept_key-some kb keycode key timeout v same =
    let ring = enqueue_key-IsRing kb key v in
    let queue = enqueue_key-put kb key v in
    let (caps, num) = enqueue_key-locks kb key in
    rw same (record {
      ring = record { sixteen = ring.sixteen; read_in = ring.read_in; write_in = ring.write_in };
      queue = queue;
      caps = caps;
      num = num;
      last = refl;
    })

accept_key-option :
    (kb : UsbHidKeyboard) (shift ctrl : Bool) (keycode : ℕ) (timeout : Timeout) (key : Option ℕ)
    → IsRing kb
    → translate shift ctrl kb.num_lock keycode ≡ key
    → Took kb (key_cons key []) (accept_key kb keycode timeout key)
accept_key-option kb shift ctrl keycode timeout none v e = record {
  ring = v;
  queue = refl;
  caps = refl;
  num = refl;
  last = refl;
}
accept_key-option kb shift ctrl keycode timeout (some key) v e =
    accept_key-some kb keycode key timeout v
      (toggle_lock-typed (enqueue_key kb key) shift ctrl kb.num_lock keycode e)

accept_key-typed :
    (kb : UsbHidKeyboard) (report : KeyboardReport) (keycode : ℕ) (timeout : Timeout)
    → IsRing kb
    → Took kb
        (keys_of kb report (keycode ∷ []))
        (accept_key kb keycode timeout (translate_keycode kb keycode report))
unfolding translate_keycode
accept_key-typed kb report keycode timeout v =
    accept_key-option kb (xor (shift_pressed report) kb.caps_lock) (ctrl_pressed report) keycode
      timeout (translate_keycode kb keycode report) v refl

pub put_all-append : (q xs ys : List ℕ) → put_all q (xs ++ ys) ≡ put_all (put_all q xs) ys
put_all-append q [] ys = refl
put_all-append q (x ∷ xs) ys = put_all-append (put q x) xs ys

last_or-append : (d : ℕ) (xs ys : List ℕ) → last_or d (xs ++ ys) ≡ last_or (last_or d xs) ys
last_or-append d [] ys = refl
last_or-append d (x ∷ xs) ys = last_or-append x xs ys

typed_cons :
    (shift ctrl num_lock : Bool) (k : ℕ) (ks : List ℕ)
    → typed shift ctrl num_lock (k ∷ ks)
      ≡ typed shift ctrl num_lock (k ∷ []) ++ typed shift ctrl num_lock ks
typed_cons shift ctrl num_lock k ks =
    elim (translate shift ctrl num_lock k)
      as (λ o.
        key_cons o (typed shift ctrl num_lock ks) ≡ key_cons o [] ++ typed shift ctrl num_lock ks) [
          | none ↦ refl
          | some key ↦ refl
        ]

Took-trans :
    {kb kb' kb'' : UsbHidKeyboard} {xs ys : List ℕ}
    → Took kb xs kb'
    → Took kb' ys kb''
    → Took kb (xs ++ ys) kb''
Took-trans {kb} {xs = xs} {ys = ys} a b = record {
  ring = b.ring;
  queue = rw (b.queue, a.queue, put_all-append (queued kb) xs ys) refl;
  caps = b.caps ∙ a.caps;
  num = b.num ∙ a.num;
  last = rw (b.last, a.last, last_or-append kb.last_key xs ys) refl;
}

module _ (cycles_per_us : ℕ) (clock : ℕ → ℕ) where
  accept_keys-typed :
      (n : ℕ) (kb : UsbHidKeyboard) (report : KeyboardReport) (keycodes : List ℕ)
      → IsRing kb
      → Took kb (keys_of kb report keycodes) (accept_keys cycles_per_us clock n kb report keycodes)
  unfolding accept_keys
  accept_keys-typed n kb report [] v = record {
    ring = v;
    queue = refl;
    caps = refl;
    num = refl;
    last = refl;
  }
  accept_keys-typed n kb report (keycode ∷ keycodes) v =
      let timeout = from_ms cycles_per_us (clock n) repeat_initial_delay_ms in
      let first = accept_key-typed kb report keycode timeout v in
      let kb' = accept_key kb keycode timeout (translate_keycode kb keycode report) in
      let rest = accept_keys-typed (n + 1) kb' report keycodes first.ring in
      let shift = xor (shift_pressed report) kb.caps_lock in
      let same : keys_of kb' report keycodes ≡ keys_of kb report keycodes =
        rw (first.caps, first.num) refl in
      rw (typed_cons shift (ctrl_pressed report) kb.num_lock keycode keycodes, ← same)
        (Took-trans first rest)

  -- On a keyboard whose ring is in order: a report queues the keys of the key codes that it has
  -- and the report before has not, in their order and as far as there is room in the queue of
  -- fifteen; it changes no lock; the key to repeat is the last one queued or dropped, or the one
  -- before, or none where no key is down; and the next report is compared with this one.
  pub process_report_lem :
      (kb : UsbHidKeyboard) (report : KeyboardReport)
      → IsRing kb
      → let kb' = process_report cycles_per_us clock kb report in
        let keys = keys_of kb report (new_keys report kb.prev_report) in
        IsRing kb'
        × (queued kb' ≡ put_all (queued kb) keys)
        × (kb'.caps_lock ≡ kb.caps_lock)
        × (kb'.num_lock ≡ kb.num_lock)
        × (kb'.last_key ≡ (if any_down report.keys then last_or kb.last_key keys else 0))
        × (kb'.prev_report ≡ report)
  unfolding process_report queued
  process_report_lem kb report v =
      let took = accept_keys-typed 0 kb report (new_keys report kb.prev_report) v in
      let ring = took.ring in
      elim (Bool-cases (any_down report.keys)) [
        | inl e ↦ rw e (
          record { sixteen = ring.sixteen; read_in = ring.read_in; write_in = ring.write_in },
          took.queue,
          took.caps,
          took.num,
          took.last,
          refl,
        )
        | inr e ↦ rw e (
          record { sixteen = ring.sixteen; read_in = ring.read_in; write_in = ring.write_in },
          took.queue,
          took.caps,
          took.num,
          refl,
          refl,
        )
      ]

contains-append : (seen : List ℕ) (k : ℕ) (ks : List ℕ) → contains (seen ++ k ∷ ks) k ≡ true
contains-append [] k ks = ground arith
contains-append (s ∷ seen) k ks = ground (arith, contains-append seen k ks)

-- Keys that the previous report has are not new.
fresh_seen :
    (prev : KeyboardReport) (seen ks : List ℕ) → prev.keys ≡ seen ++ ks → fresh prev ks ≡ []
fresh_seen prev seen [] e = refl
fresh_seen prev seen (k ∷ ks) e =
    let held : contains prev.keys k ≡ true = rw e (contains-append seen k ks) in
    let rest = fresh_seen prev (seen ++ k ∷ []) ks (e ∙ sym (append_assoc seen (k ∷ []) ks)) in
    ground arith

-- Keys that stay down: the same report, sent again, queues nothing.
pub process_report_again :
    (cycles_per_us : ℕ) (clock clock' : ℕ → ℕ) (kb : UsbHidKeyboard) (report : KeyboardReport)
    → IsRing kb
    → let kb' = process_report cycles_per_us clock kb report in
      queued (process_report cycles_per_us clock' kb' report) ≡ queued kb'
unfolding new_keys
process_report_again cycles_per_us clock clock' kb report v =
    let first = process_report_lem cycles_per_us clock kb report v in
    let kb' = process_report cycles_per_us clock kb report in
    let again = process_report_lem cycles_per_us clock' kb' report first.0 in
    let none_new : new_keys report kb'.prev_report ≡ [] =
      fresh_seen kb'.prev_report [] report.keys (ap (λ r. r.keys) first.5) in
    again.1 ∙ rw none_new refl
