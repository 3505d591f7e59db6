-- ===== src/Events/Table.antt =====
-- src/efi/boot_services.rs: what CheckEvent sees of the calls on other events.
use crab_efi.Prelude.{
  ℕ, zero, suc, ◌≤◌, ◌<◌, Bool, true, false, not, ◌&&◌, none, some, List, [], ◌∷◌, ◌≡◌, refl, ◌∙◌,
  ◌⊎◌, inl, inr, ◌==◌, leb, if◌then◌else◌, length, length-set, set, get_or, arith, Bool-cases,
}
use crab_efi.Status.{success, out_of_resources, not_ready}
use crab_efi.Events.{
  EventEntry, EventTable, empty_event, max_events, keyboard_event_id, create_event, signal_event,
  close_event, check_event, regular, entry,
}

-- The array has its 32 entries, and the next number is from 2 on and within it or at its end.
pub record Valid (t : EventTable) : Type 0 where
  pub size : length t.events ≡ max_events
  pub after_keyboard : 2 ≤ t.next_event_id
  pub within : t.next_event_id ≤ max_events

get_or-set :
    {A : Type 0} (xs : List A) (i j : ℕ) (v d : A)
    → i < length xs
    → get_or (set xs i v) j d ≡ (if j == i then v else get_or xs j d)
get_or-set [] i j v d h = absurd (omega (arith, h))
get_or-set (x ∷ xs) zero zero v d h = refl
get_or-set (x ∷ xs) zero (suc j) v d h = ground arith
get_or-set (x ∷ xs) (suc i) zero v d h = ground arith
get_or-set (x ∷ xs) (suc i) (suc j) v d h = ground (arith, get_or-set xs i j v d (omega (arith, h)))

-- A write of one entry.
module _ (t : EventTable) (e : ℕ) (w : EventEntry) (v : Valid t) (within : e < max_events) where
  abbrev write : EventTable
  write = record t { events = set t.events e w }

  write-Valid : Valid write
  write-Valid = record {
    size = length-set t.events e w ∙ v.size;
    after_keyboard = v.after_keyboard;
    within = v.within;
  }

  check_event-write :
      (x : ℕ) (key : Bool)
      → check_event write x key ≡ (
          if x == e && regular e && not (x == keyboard_event_id)
          then if w.signaled then success else not_ready
          else check_event t x key)
  unfolding check_event
  check_event-write x key =
      ground (arith, get_or-set t.events e x w empty_event (omega (arith, v.size, within)))

-- In a valid table: SignalEvent leaves it valid, and CheckEvent afterwards answers success for the
-- event, if it is a regular one other than the keyboard's, and what it answered before for any other.
pub check_event-signal :
    (t : EventTable) (e x : ℕ) (key : Bool)
    → Valid t
    → Valid (signal_event t e).0
      × (check_event (signal_event t e).0 x key ≡ (
          if x == e && regular e && not (x == keyboard_event_id)
          then success
          else check_event t x key))
unfolding signal_event check_event
check_event-signal t e x key v = elim (Bool-cases (regular e)) [
  | inl counted ↦
      let within : e < max_events = ground (arith, counted) in
      let w = record (entry t e) { signaled = true } in
      rw counted (
        write-Valid t e w v within,
        ground (arith, counted, check_event-write t e w v within x key),
      )
  | inr other ↦ rw other (v, ground (arith, other))
]

-- In a valid table: CloseEvent leaves it valid, and CheckEvent afterwards answers EFI_NOT_READY for
-- the event, if it is not the keyboard's, and what it answered before for any other.
pub check_event-close :
    (t : EventTable) (e x : ℕ) (key : Bool)
    → Valid t
    → Valid (close_event t e).0
      × (check_event (close_event t e).0 x key
          ≡ (if x == e && not (x == keyboard_event_id) then not_ready else check_event t x key))
unfolding close_event check_event
check_event-close t e x key v = elim (Bool-cases (regular e)) [
  | inl counted ↦
      let within : e < max_events = ground (arith, counted) in
      rw counted (
        write-Valid t e empty_event v within,
        ground (arith, counted, check_event-write t e empty_event v within x key),
      )
  | inr other ↦ rw other (v, ground (arith, other))
]

-- In a valid table: CreateEvent gives a number that is not the keyboard's, is below 32 and is
-- below the next number to be given; the new event is not signaled and no other changes; the
-- table stays valid. Or the numbers are used up, nothing changes and the status is
-- EFI_OUT_OF_RESOURCES.
pub create_event_lem :
    (t : EventTable) (event_type tpl x : ℕ) (key : Bool)
    → Valid t
    → let (after, status, event) = create_event t event_type tpl in
      ((status ≡ success)
        × Valid after
        × (e : ℕ) × (event ≡ some e)
        × (keyboard_event_id < e)
        × (e < max_events)
        × (e < after.next_event_id)
        × (check_event after x key ≡ (if x == e then not_ready else check_event t x key)))
      ⊎ ((status ≡ out_of_resources)
          × (after ≡ t)
          × (event ≡ none)
          × (t.next_event_id ≡ max_events))
unfolding create_event check_event
create_event_lem t event_type tpl x key v = elim (Bool-cases (leb max_events t.next_event_id)) [
  | inl full ↦ rw full (inr (refl, refl, refl, ground (arith, full, v.within)))
  | inr more ↦
      let e = t.next_event_id in
      let within : e < max_events = ground (arith, more) in
      let w : EventEntry = record {
        event_type = event_type;
        notify_tpl = tpl;
        signaled = false;
        is_keyboard_event = false;
      } in
      let counted : regular e ≡ true = ground (arith, within, v.after_keyboard) in
      rw more (
        inl (
          refl,
          record {
            size = length-set t.events e w ∙ v.size;
            after_keyboard = omega (arith, v.after_keyboard);
            within = omega (arith, within);
          },
          e,
          refl,
          omega (arith, v.after_keyboard),
          within,
          omega arith,
          ground (arith, counted, v.after_keyboard, check_event-write t e w v within x key),
        ))
]
