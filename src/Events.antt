-- ===== src/Events.antt =====
-- src/efi/boot_services.rs and src/state.rs: the event table. An event is its number; the key flag
-- says whether `serial::has_input()` or `keyboard::has_key()` answers true.
pub mod Table
pub mod Waiting
mod Tests
use crab_efi.Prelude.{
  ℕ, zero, suc, ◌+◌, ◌<◌, Bool, true, false, not, ◌&&◌, ◌||◌, Option, none, some, List, [], ◌∷◌,
  ◌==◌, leb, ltb, if◌then◌else◌, length, replicate, set, get_or,
}
use crab_efi.Status.{Status, success, invalid_parameter, out_of_resources, not_ready}

abbrev pub max_events : ℕ
max_events = 32

abbrev pub keyboard_event_id : ℕ
keyboard_event_id = 1

pub record EventEntry : Type 0 where
  pub event_type : ℕ
  pub notify_tpl : ℕ
  pub signaled : Bool
  pub is_keyboard_event : Bool

-- `EventEntry::empty`
abbrev pub empty_event : EventEntry
empty_event = record { event_type = 0; notify_tpl = 0; signaled = false; is_keyboard_event = false }

-- The part of `EfiState` that holds the events.
pub record EventTable : Type 0 where
  pub events : List EventEntry
  pub next_event_id : ℕ

-- `EfiState::new`
abbrev pub new_events : EventTable
new_events = record { events = replicate max_events empty_event; next_event_id = 2 }

-- The pointer for the event is not null. The event is `none` where nothing is written to it.
unfoldable pub create_event : EventTable → ℕ → ℕ → EventTable × Status × Option ℕ
create_event t event_type notify_tpl =
    if leb max_events t.next_event_id then (t, out_of_resources, none) else (
      record t {
        events = set t.events t.next_event_id (record {
          event_type = event_type;
          notify_tpl = notify_tpl;
          signaled = false;
          is_keyboard_event = false;
        });
        next_event_id = t.next_event_id + 1;
      },
      success,
      some t.next_event_id,
    )

-- The event group is ignored.
abbrev pub create_event_ex : EventTable → ℕ → ℕ → EventTable × Status × Option ℕ
create_event_ex t event_type notify_tpl = create_event t event_type notify_tpl

-- A stub, which arms nothing.
abbrev pub set_timer : EventTable → ℕ → ℕ → ℕ → EventTable × Status
set_timer t event timer_type trigger_time = (t, success)

abbrev pub regular : ℕ → Bool
regular event = ltb 0 event && ltb event max_events

-- `events[event]`
abbrev pub entry : EventTable → ℕ → EventEntry
entry t event = get_or t.events event empty_event

unfoldable pub signal_event : EventTable → ℕ → EventTable × Status
signal_event t event =
    if regular event
    then (
      record t { events = set t.events event (record (entry t event) { signaled = true }) },
      success,
    )
    else (t, success)

unfoldable pub close_event : EventTable → ℕ → EventTable × Status
close_event t event =
    if regular event
    then (record t { events = set t.events event empty_event }, success)
    else (t, success)

unfoldable pub check_event : EventTable → ℕ → Bool → Status
check_event t event key =
    if event == keyboard_event_id
    then if key then success else not_ready
    else if regular event && (entry t event).signaled
    then success
    else not_ready

-- `iter().any(|e| event_id == KEYBOARD_EVENT_ID)`
unfoldable pub has_keyboard : List ℕ → Bool
has_keyboard [] = false
has_keyboard (e ∷ es) = e == keyboard_event_id || has_keyboard es

-- The two tests on one event of the list.
abbrev pub is_ready : EventTable → Bool → Bool → ℕ → Bool
is_ready t any_keyboard key event =
    (event == keyboard_event_id || any_keyboard) && key || regular event && (entry t event).signaled

abbrev pub next_place : Option ℕ → Option ℕ
next_place none = none
next_place (some i) = some (suc i)

-- One pass over the list: the index of the event that ends the wait. The devices are asked anew for
-- each place.
unfoldable pub check_events : EventTable → Bool → (ℕ → Bool) → List ℕ → Option ℕ
check_events t any_keyboard key [] = none
check_events t any_keyboard key (e ∷ es) =
    let rest = check_events t any_keyboard (λ i. key (suc i)) es in
    if is_ready t any_keyboard (key 0) e then some 0 else next_place rest

-- The passes, each with the table and what the devices answer during it. `none` stands for a wait that
-- is not over.
unfoldable pub wait_passes : List (EventTable × (ℕ → Bool)) → List ℕ → Option ℕ
wait_passes [] es = none
wait_passes ((t, key) ∷ passes) es = elim (check_events t (has_keyboard es) key es) [
  | none ↦ wait_passes passes es
  | some i ↦ some i
]

-- The pointers are not null.
unfoldable pub wait_for_event : List (EventTable × (ℕ → Bool)) → List ℕ → Option (Status × Option ℕ)
wait_for_event passes [] = some (invalid_parameter, none)
wait_for_event passes (e ∷ es) = elim (wait_passes passes (e ∷ es)) [
  | none ↦ none
  | some i ↦ some (success, some i)
]
