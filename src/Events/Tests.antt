-- ===== src/Events/Tests.antt =====
-- The theorems on events at concrete inputs.
use crab_efi.Prelude.{ℕ, Bool, true, false, List, [], ◌∷◌, ◌≡◌, ◌⊎◌, some, none, refl, arith}
use crab_efi.Status.{success}
use crab_efi.Events.{
  EventTable, new_events, signal_event, wait_for_event, has_keyboard, wait_passes, check_events,
}
use crab_efi.Events.Table.{Valid}
use crab_efi.Events.Waiting.{Waited, AllIdle, wait_for_event-Waited}

new_events-Valid : Valid new_events
new_events-Valid = record { size = refl; after_keyboard = omega arith; within = omega arith }

-- Event 5 is signaled between the first pass and the second.
abbrev two_passes : List (EventTable × (ℕ → Bool))
two_passes = (new_events, λ _. true) ∷ ((signal_event new_events 5).0, λ _. false) ∷ []

wait_for_event-Waited_example :
    ((i : ℕ) × (wait_for_event two_passes (4 ∷ 5 ∷ []) ≡ some (success, some i))
      × Waited two_passes (4 ∷ 5 ∷ []) i)
    ⊎ ((wait_for_event two_passes (4 ∷ 5 ∷ []) ≡ none) × AllIdle two_passes (4 ∷ 5 ∷ []))
wait_for_event-Waited_example =
    wait_for_event-Waited two_passes 4 (5 ∷ []) (unfold has_keyboard in refl)

returns_1 : wait_for_event two_passes (4 ∷ 5 ∷ []) ≡ some (success, some 1)
unfolding wait_for_event wait_passes check_events has_keyboard signal_event
returns_1 = refl
