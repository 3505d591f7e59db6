-- ===== src/Keyboard/Queueing.antt =====
-- src/drivers/usb/hid_keyboard.rs: the ring of keys as the list of the keys that wait in it.
use crab_efi.Prelude.{
  ℕ, zero, suc, ◌+◌, ◌-◌, ◌%◌, ◌<◌, List, [], ◌∷◌, ◌++◌, Option, none, some, ◌≡◌, refl, ap, ◌≢◌,
  length, length-set, set, get_or, ltb, if◌then◌else◌, arith, get_or-set_self, get_or-set_ne,
}
use crab_efi.Keyboard.Hid.{UsbHidKeyboard, enqueue_key, get_key}

-- The specification: a queue of at most fifteen keys that drops the keys it has no room for.
abbrev pub put : List ℕ → ℕ → List ℕ
put q key = if ltb (length q) 15 then q ++ key ∷ [] else q

abbrev pub pop_front : List ℕ → List ℕ × Option ℕ
pop_front [] = ([], none)
pop_front (key ∷ q) = (q, some key)

-- The keys from an index on, round the ring.
abbrev pub ring_keys : List ℕ → ℕ → ℕ → List ℕ
ring_keys buffer i zero = []
ring_keys buffer i (suc n) = get_or buffer i 0 ∷ ring_keys buffer ((i + 1) % 16) n

abbrev pub waiting : UsbHidKeyboard → ℕ
waiting kb = (kb.write_idx + 16 - kb.read_idx) % 16

unfoldable pub queued : UsbHidKeyboard → List ℕ
queued kb = ring_keys kb.key_buffer kb.read_idx (waiting kb)

pub record IsRing (kb : UsbHidKeyboard) : Type 0 where
  pub sixteen : length kb.key_buffer ≡ 16
  pub read_in : kb.read_idx < 16
  pub write_in : kb.write_idx < 16

length-ring_keys : (buffer : List ℕ) (i n : ℕ) → length (ring_keys buffer i n) ≡ n
length-ring_keys buffer i zero = refl
length-ring_keys buffer i (suc n) = ap suc (length-ring_keys buffer ((i + 1) % 16) n)

pub length-queued : (kb : UsbHidKeyboard) → length (queued kb) ≡ waiting kb
unfolding queued
length-queued kb = length-ring_keys kb.key_buffer kb.read_idx (waiting kb)

-- A write at the end of the keys that wait adds the key to them.
ring_keys-set :
    (buffer : List ℕ) (key n h i : ℕ)
    → length buffer ≡ 16
    → h < 16
    → n < 15
    → i ≡ (h + n) % 16
    → ring_keys (set buffer i key) h (suc n) ≡ ring_keys buffer h n ++ (key ∷ [])
ring_keys-set buffer key zero h i sized inside free e =
    let same : i ≡ h = omega arith in rw (same, get_or-set_self buffer h key 0 (omega arith))
ring_keys-set buffer key (suc n) h i sized inside free e =
    let other : i ≢ h = λ same. omega arith in
    rw (
      get_or-set_ne buffer key 0 other,
      ring_keys-set buffer key n ((h + 1) % 16) i sized (omega arith) (omega arith) (omega arith),
    )

pub enqueue_key-IsRing : (kb : UsbHidKeyboard) (key : ℕ) → IsRing kb → IsRing (enqueue_key kb key)
unfolding enqueue_key
enqueue_key-IsRing kb key v = ground (arith, length-set kb.key_buffer kb.write_idx key)

pub enqueue_key-put :
    (kb : UsbHidKeyboard) (key : ℕ) → IsRing kb → queued (enqueue_key kb key) ≡ put (queued kb) key
unfolding enqueue_key queued
enqueue_key-put kb key v = ground (
  arith,
  length-ring_keys kb.key_buffer kb.read_idx (waiting kb),
  ring_keys-set kb.key_buffer key (waiting kb) kb.read_idx kb.write_idx,
)

pop_front-ring_keys :
    (buffer : List ℕ) (i n m : ℕ)
    → n ≡ suc m
    → pop_front (ring_keys buffer i n)
      ≡ (ring_keys buffer ((i + 1) % 16) m, some (get_or buffer i 0))
pop_front-ring_keys buffer i zero m e = absurd (omega (arith, e))
pop_front-ring_keys buffer i (suc n) m e =
    let same : n ≡ m = omega (arith, e) in
    ap (λ k. (ring_keys buffer ((i + 1) % 16) k, some (get_or buffer i 0))) same

-- On a keyboard whose ring is in order, `get_key` takes the first of the keys that wait, or gives none
-- where no key waits and leaves it so.
pub get_key-pop_front :
    (kb : UsbHidKeyboard)
    → IsRing kb
    → (queued (get_key kb).0, (get_key kb).1) ≡ pop_front (queued kb)
unfolding get_key queued
get_key-pop_front kb v = ground (
  arith,
  pop_front-ring_keys kb.key_buffer kb.read_idx (waiting kb)
      ((kb.write_idx + 16 - (kb.read_idx + 1) % 16) % 16),
)

pub get_key-IsRing : (kb : UsbHidKeyboard) → IsRing kb → IsRing (get_key kb).0
unfolding get_key
get_key-IsRing kb v = ground arith
