-- ===== src/Events/Waiting.antt =====
-- src/efi/boot_services.rs: WaitForEvent.
use crab_efi.Prelude.{
  ℕ, zero, suc, Bool, true, false, Option, none, some, List, [], ◌∷◌, ◌≡◌, refl, ◌⊎◌, inl, inr,
  subst, sym, ◌==◌, if◌then◌else◌, arith, Bool-cases, Option-cases,
}
use crab_efi.Status.{success, not_ready}
use crab_efi.Events.{
  EventTable, keyboard_event_id, check_event, has_keyboard, check_events, wait_passes,
  wait_for_event, next_place, is_ready,
}

abbrev pub NoneReady : EventTable → List ℕ → Type 0
NoneReady t [] = Unit {0}
NoneReady t (e ∷ es) = (check_event t e false ≡ not_ready) × NoneReady t es

-- The place is that of the first event of the list for which CheckEvent answers success.
abbrev pub FirstReady : EventTable → List ℕ → ℕ → Type 0
FirstReady t [] i = ⊥
FirstReady t (e ∷ es) zero = check_event t e false ≡ success
FirstReady t (e ∷ es) (suc i) = (check_event t e false ≡ not_ready) × FirstReady t es i

-- Passes in which no event is ready, and one with its first ready event at the place.
abbrev pub Waited : List (EventTable × (ℕ → Bool)) → List ℕ → ℕ → Type 0
Waited [] es i = ⊥
Waited ((t, key) ∷ passes) es i = FirstReady t es i ⊎ (NoneReady t es × Waited passes es i)

-- Passes in which no event is ready.
abbrev pub AllIdle : List (EventTable × (ℕ → Bool)) → List ℕ → Type 0
AllIdle [] es = Unit
AllIdle ((t, key) ∷ passes) es = NoneReady t es × AllIdle passes es

next_place-none : (o : Option ℕ) → next_place o ≡ none → o ≡ none
next_place-none none e = refl
next_place-none (some j) e = cc

next_place-some :
    (o : Option ℕ) (i : ℕ) → next_place o ≡ some i → (j : ℕ) × (i ≡ suc j) × (o ≡ some j)
next_place-some none i e = cc
next_place-some (some j) i e = (j, ground (arith, e), refl)

-- Where the keyboard's event is not waited for, the test is that of CheckEvent.
is_ready-check :
    (t : EventTable) (key : Bool) (x : ℕ)
    → (x == keyboard_event_id) ≡ false
    → check_event t x false ≡ (if is_ready t false key x then success else not_ready)
unfolding check_event
is_ready-check t key x other = ground (arith, other)

check_events-FirstReady :
    (t : EventTable) (key : ℕ → Bool) (es : List ℕ) (i : ℕ)
    → has_keyboard es ≡ false
    → check_events t false key es ≡ some i
    → FirstReady t es i
unfolding check_events has_keyboard
check_events-FirstReady t key [] i k e = cc
check_events-FirstReady t key (x ∷ es) i k e =
    let other : (x == keyboard_event_id) ≡ false = ground (arith, k) in
    let same = is_ready-check t (key 0) x other in
    elim (Bool-cases (is_ready t false (key 0) x)) [
      | inl ready ↦
          let first : 0 ≡ i = ground (arith, ready, e) in
          subst (FirstReady t (x ∷ es)) first (rw (same, ready) refl)
      | inr idle ↦
          let (j, place, rest) =
            next_place-some (check_events t false (λ n. key (suc n)) es) i
              (ground (arith, idle, e)) in
          subst (FirstReady t (x ∷ es)) (sym place) (
            rw (same, idle) refl,
            check_events-FirstReady t (λ n. key (suc n)) es j (ground (arith, k)) rest,
          )
    ]

check_events-none :
    (t : EventTable) (key : ℕ → Bool) (es : List ℕ)
    → has_keyboard es ≡ false
    → check_events t false key es ≡ none
    → NoneReady t es
unfolding check_events has_keyboard
check_events-none t key [] k e = tt
check_events-none t key (x ∷ es) k e =
    let other : (x == keyboard_event_id) ≡ false = ground (arith, k) in
    let same = is_ready-check t (key 0) x other in
    elim (Bool-cases (is_ready t false (key 0) x)) [
      | inl ready ↦ ground (arith, ready, e)
      | inr idle ↦ (
        rw (same, idle) refl,
        check_events-none t (λ n. key (suc n)) es (ground (arith, k))
            (next_place-none (check_events t false (λ n. key (suc n)) es)
              (ground (arith, idle, e))),
      )
    ]

wait_passes-Waited :
    (passes : List (EventTable × (ℕ → Bool))) (es : List ℕ) (i : ℕ)
    → has_keyboard es ≡ false
    → wait_passes passes es ≡ some i
    → Waited passes es i
unfolding wait_passes
wait_passes-Waited [] es i k e = cc
wait_passes-Waited ((t, key) ∷ passes) es i k e =
    elim (Option-cases (check_events t false key es)) [
      | inl nothing ↦ inr (
        check_events-none t key es k nothing,
        wait_passes-Waited passes es i k (ground (arith, k, nothing, e)),
      )
      | inr (j, found) ↦
          let same : j ≡ i = ground (arith, k, found, e) in
          inl (subst (FirstReady t es) same (check_events-FirstReady t key es j k found))
    ]

wait_passes-AllIdle :
    (passes : List (EventTable × (ℕ → Bool))) (es : List ℕ)
    → has_keyboard es ≡ false
    → wait_passes passes es ≡ none
    → AllIdle passes es
unfolding wait_passes
wait_passes-AllIdle [] es k e = tt
wait_passes-AllIdle ((t, key) ∷ passes) es k e = elim (Option-cases (check_events t false key es)) [
  | inl nothing ↦ (
    check_events-none t key es k nothing,
    wait_passes-AllIdle passes es k (ground (arith, k, nothing, e)),
  )
  | inr (j, found) ↦ ground (arith, k, found, e)
]

-- Where the keyboard's event is not in the list: either WaitForEvent returns in one of the given passes,
-- with the index of the first event of the list for which CheckEvent answers success, in the first pass
-- that has one; or in none of the given passes there is an event for which CheckEvent answers success,
-- and the wait has not ended after them.
pub wait_for_event-Waited :
    (passes : List (EventTable × (ℕ → Bool))) (e : ℕ) (es : List ℕ)
    → has_keyboard (e ∷ es) ≡ false
    → ((i : ℕ) × (wait_for_event passes (e ∷ es) ≡ some (success, some i))
        × Waited passes (e ∷ es) i)
      ⊎ ((wait_for_event passes (e ∷ es) ≡ none) × AllIdle passes (e ∷ es))
unfolding wait_for_event
wait_for_event-Waited passes e es k = elim (Option-cases (wait_passes passes (e ∷ es))) [
  | inl forever ↦
      inr (rw (wait_for_event, forever) refl, wait_passes-AllIdle passes (e ∷ es) k forever)
  | inr (j, found) ↦
      inl (j, rw (wait_for_event, found) refl, wait_passes-Waited passes (e ∷ es) j k found)
]

check_events-key :
    (t : EventTable) (any_keyboard : Bool) (key : ℕ → Bool) (e : ℕ) (es : List ℕ)
    → any_keyboard ≡ true
    → key 0 ≡ true
    → check_events t any_keyboard key (e ∷ es) ≡ some 0
unfolding check_events
check_events-key t any_keyboard key e es k h = ground (arith, k, h)

wait_passes-first :
    (t : EventTable) (key : ℕ → Bool) (passes : List (EventTable × (ℕ → Bool))) (es : List ℕ)
    (i : ℕ)
    → check_events t (has_keyboard es) key es ≡ some i
    → wait_passes ((t, key) ∷ passes) es ≡ some i
unfolding wait_passes
wait_passes-first t key passes es i e = rw (wait_passes, e) refl

-- Where the keyboard's event is anywhere in the list and there is a key at the first look: the wait
-- ends with index 0, whichever event is the first.
pub wait_for_event-keyboard :
    (t : EventTable) (key : ℕ → Bool) (passes : List (EventTable × (ℕ → Bool))) (e : ℕ)
    (es : List ℕ)
    → has_keyboard (e ∷ es) ≡ true
    → key 0 ≡ true
    → wait_for_event ((t, key) ∷ passes) (e ∷ es) ≡ some (success, some 0)
unfolding wait_for_event
wait_for_event-keyboard t key passes e es k h =
    rw
      (
        wait_for_event,
        wait_passes-first t key passes (e ∷ es) 0
            (check_events-key t (has_keyboard (e ∷ es)) key e es k h),
      )
      refl
