-- ===== src/Keyboard/Scanning.antt =====
-- src/drivers/keyboard.rs: what a sequence of scan codes types.
use crab_efi.Prelude.{
  ℕ, zero, suc, ◌+◌, ◌<◌, Bool, true, false, not, ◌&&◌, ◌||◌, List, [], ◌∷◌, ◌++◌, Option, none,
  some, ◌≡◌, refl, ◌≢◌, ◌==◌, if◌then◌else◌, bit_and, arith, ℕ_discrete, ap, ◌∙◌, sym,
}
use crab_efi.Keyboard.Ps2.{
  Modifiers, KeyboardState, Key, modifier_key, after_modifiers, process_scancode,
  scancode_to_efi_extended, scancode_to_efi_normal,
}

-- A key goes down or up. Those of the second block of keys are extended.
pub record KeyEvent : Type 0 where
  pub is_extended : Bool
  pub code : ℕ
  pub is_press : Bool

-- Codes have seven bits; 0x60 would go up as 0xE0, the prefix.
pub record IsKey (e : KeyEvent) : Type 0 where
  pub small : e.code < 128
  pub not_prefix : e.code ≢ 0x60

abbrev pub AllKeys : List KeyEvent → Type 0
AllKeys [] = Unit
AllKeys (e ∷ es) = IsKey e × AllKeys es

abbrev pub last_byte : KeyEvent → ℕ
last_byte e = if e.is_press then e.code else e.code + 128

-- The bytes that the keyboard sends.
abbrev pub codes : KeyEvent → List ℕ
codes e = if e.is_extended then 0xE0 ∷ last_byte e ∷ [] else last_byte e ∷ []

abbrev pub all_codes : List KeyEvent → List ℕ
all_codes [] = []
all_codes (e ∷ es) = codes e ++ all_codes es

-- The modifiers: either key of a kind sets it and clears it, and Caps Lock goes over on each press.
abbrev pub is_shift : KeyEvent → Bool
is_shift e = not e.is_extended && (e.code == 0x2A || e.code == 0x36)

abbrev pub is_ctrl : KeyEvent → Bool
is_ctrl e = e.code == 0x1D

abbrev pub is_alt : KeyEvent → Bool
is_alt e = e.code == 0x38

abbrev pub is_caps : KeyEvent → Bool
is_caps e = not e.is_extended && e.code == 0x3A

abbrev pub modified : Modifiers → KeyEvent → Modifiers
modified m e = record {
  shift = if is_shift e then e.is_press else m.shift;
  ctrl = if is_ctrl e then e.is_press else m.ctrl;
  alt = if is_alt e then e.is_press else m.alt;
  caps_lock = if is_caps e && e.is_press then not m.caps_lock else m.caps_lock;
}

abbrev pub is_modifier : KeyEvent → Bool
is_modifier e = is_shift e || is_ctrl e || is_alt e || is_caps e

abbrev pub key_of : Modifiers → KeyEvent → Option Key
key_of m e =
    if e.is_press && not (is_modifier e)
    then if e.is_extended then scancode_to_efi_extended e.code else scancode_to_efi_normal m e.code
    else none

abbrev pub key_cons : Option Key → List Key → List Key
key_cons none keys = keys
key_cons (some key) keys = key ∷ keys

-- The specification, by events, and the driver, by bytes: the modifiers at the end, and the keys.
abbrev pub type_events : Modifiers → List KeyEvent → Modifiers × List Key
type_events m [] = (m, [])
type_events m (e ∷ es) =
    let (m', keys) = type_events (modified m e) es in (m', key_cons (key_of m e) keys)

abbrev pub run : KeyboardState → List ℕ → KeyboardState × List Key
run kb [] = (kb, [])
run kb (b ∷ bs) =
    let (kb', key) = process_scancode kb b in
    let (kb'', keys) = run kb' bs in (kb'', key_cons key keys)

below : ℕ → (ℕ → Bool) → Bool
below zero p = true
below (suc n) p = p n && below n p

below_sound : (n : ℕ) (p : ℕ → Bool) (x : ℕ) → below n p ≡ true → x < n → p x ≡ true
unfolding below
below_sound zero p x h lt = absurd (omega (arith, lt))
below_sound (suc n) p x h lt = elim (ℕ_discrete x n) [
  | yes e ↦ ground (arith, below_sound n p x)
  | no ne ↦ ground (arith, below_sound n p x)
]

abbrev splits : ℕ → Bool
splits code =
    bit_and code 0x80 == 0
    && bit_and code 0x7F == code
    && bit_and (code + 128) 0x80 == 128
    && bit_and (code + 128) 0x7F == code

all_split : below 128 splits ≡ true
unfolding below
all_split = refl

code_splits :
    (code : ℕ)
    → code < 128
    → (bit_and code 0x80 ≡ 0)
      × (bit_and code 0x7F ≡ code)
      × (bit_and (code + 128) 0x80 ≡ 128)
      × (bit_and (code + 128) 0x7F ≡ code)
code_splits code h = let s = below_sound 128 splits code all_split h in ground arith

-- What `process_scancode` does with a byte that is not the prefix.
abbrev pub decode : KeyboardState → ℕ → Bool → KeyboardState × Option Key
decode kb code is_release =
    after_modifiers (record kb { extended = false }) kb.extended code is_release
      (modifier_key kb.extended kb.modifiers code is_release)

process_last :
    (kb : KeyboardState) (code : ℕ) (press : Bool)
    → code < 128
    → code ≢ 0x60
    → process_scancode kb (if press then code else code + 128) ≡ decode kb code (not press)
unfolding process_scancode
process_last kb code true small other =
    let (low, all, high, rest) = code_splits code small in
    let plain : (code == 0xE0) ≡ false = ground arith in rw (plain, low, all) refl
process_last kb code false small other =
    let (low, all, high, rest) = code_splits code small in
    let plain : (code + 128 == 0xE0) ≡ false = ground arith in rw (plain, high, rest) refl

decode-modified :
    (kb : KeyboardState) (extended press : Bool) (code : ℕ)
    → let e : KeyEvent = record { is_extended = extended; code = code; is_press = press } in
      decode (record kb { extended = extended }) code (not press)
      ≡ (record kb { modifiers = modified kb.modifiers e; extended = false }, key_of kb.modifiers e)
decode-modified kb true true code = ground arith
decode-modified kb true false code = ground arith
decode-modified kb false true code = ground arith
decode-modified kb false false code = ground arith

-- The prefix marks the next byte.
process_prefix :
    (kb : KeyboardState) → process_scancode kb 0xE0 ≡ (record kb { extended = true }, none)
unfolding process_scancode
process_prefix kb = refl

-- The state between two events.
abbrev pub between : KeyboardState → Modifiers → KeyboardState
between kb m = record kb { modifiers = m; extended = false }

run_fields :
    (kb : KeyboardState) (m : Modifiers) (extended press : Bool) (code : ℕ) (bs : List ℕ)
    → code < 128
    → code ≢ 0x60
    → let e : KeyEvent = record { is_extended = extended; code = code; is_press = press } in
      let rest = run (between kb (modified m e)) bs in
      run (between kb m) (codes e ++ bs) ≡ (rest.0, key_cons (key_of m e) rest.1)
run_fields kb m true press code bs small other =
    let step = process_last (record kb { modifiers = m; extended = true }) code press small other in
    rw (process_prefix (between kb m), step, decode-modified (between kb m) true press code) refl
run_fields kb m false press code bs small other =
    let step = process_last (between kb m) code press small other in
    rw (step, decode-modified (between kb m) false press code) refl

run_one :
    (kb : KeyboardState) (m : Modifiers) (e : KeyEvent) (bs : List ℕ)
    → IsKey e
    → let rest = run (between kb (modified m e)) bs in
      run (between kb m) (codes e ++ bs) ≡ (rest.0, key_cons (key_of m e) rest.1)
run_one kb m e bs k = run_fields kb m e.is_extended e.is_press e.code bs k.small k.not_prefix

run-between :
    (kb : KeyboardState) (m : Modifiers) (es : List KeyEvent)
    → AllKeys es
    → run (between kb m) (all_codes es) ≡ (between kb (type_events m es).0, (type_events m es).1)
run-between kb m [] keys = refl
run-between kb m (e ∷ es) keys =
    rw (run_one kb m e (all_codes es) keys.0, run-between kb (modified m e) es keys.1) refl

-- From a state without a prefix, the bytes of any sequence of key events, with codes of seven bits
-- other than 0x60, type what the events type: the prefix marks one event and does not outlast it,
-- a release types nothing, and the modifiers are those of the events, where either key of a kind
-- sets and clears it.
pub run-type_events :
    (kb : KeyboardState) (es : List KeyEvent)
    → kb.extended ≡ false
    → AllKeys es
    → run kb (all_codes es)
      ≡ (record kb { modifiers = (type_events kb.modifiers es).0 }, (type_events kb.modifiers es).1)
run-type_events kb es idle keys =
    let same : kb ≡ between kb kb.modifiers = ap (λ x. record kb { extended = x }) idle in
    ap (λ k. run k (all_codes es)) same
    ∙ run-between kb kb.modifiers es keys
    ∙ ap
        (λ x. (
          record kb { modifiers = (type_events kb.modifiers es).0; extended = x },
          (type_events kb.modifiers es).1,
        ))
        (sym idle)
