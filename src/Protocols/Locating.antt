-- ===== src/Protocols/Locating.antt =====
-- src/efi/boot_services.rs: which handles and interfaces the searches of the handle database find.
use crab_efi.Prelude.{
  ℕ, suc, ◌*◌, ◌≤◌, ◌<◌, true, false, Option, none, some, List, [], ◌∷◌, ◌≡◌, ◌≢◌, refl, ap, ◌∙◌,
  inl, inr, ltb, length, arith, Bool-cases, Option-cases,
}
use crab_efi.Status.{success, out_of_resources, not_found}
use crab_efi.Allocator.Pool.{Pool, allocate_pool}
use crab_efi.Protocols.{HandleEntry, HandleDb, find_protocol, find_handle, is_some}
use crab_efi.Protocols.Locate.{
  matching, handle_size, locate_matching, locate_handle, locate_handle_buffer, find_interface,
  locate_protocol,
}
use crab_efi.Protocols.Lookup.{Valid, Rising, interface_at, interface_in}
use crab_efi.Protocols.Handles.{contains}

-- Handles in ascending order, all from `lo` on.
abbrev pub Ascending : ℕ → List ℕ → Type 0
Ascending lo [] = Unit {0}
Ascending lo (h ∷ hs) = (lo ≤ h) × Ascending (suc h) hs

Ascending-lower : (lo lo' : ℕ) (hs : List ℕ) → lo' ≤ lo → Ascending lo hs → Ascending lo' hs
Ascending-lower lo lo' [] l a = tt
Ascending-lower lo lo' (h ∷ hs) l a = (omega arith, a.1)

matching-Ascending :
    (lo next g : ℕ) (es : List HandleEntry) → Rising lo next es → Ascending lo (matching g es)
unfolding matching
matching-Ascending lo next g [] r = tt
matching-Ascending lo next g (e ∷ es) r =
    elim (Bool-cases (is_some (find_protocol g e.protocols))) [
      | inl hit ↦ rw hit (r.0, matching-Ascending (suc e.handle) next g es r.3)
      | inr miss ↦ rw miss (
          Ascending-lower (suc e.handle) lo (matching g es) (omega (arith, r.0))
            (matching-Ascending (suc e.handle) next g es r.3))
    ]

contains_below : (lo k : ℕ) (hs : List ℕ) → Ascending lo hs → k < lo → contains k hs ≡ false
unfolding contains
contains_below lo k [] a l = refl
contains_below lo k (h ∷ hs) a l = ground (arith, a.0, contains_below (suc h) k hs a.1)

contains-matching :
    (lo next g k : ℕ) (es : List HandleEntry)
    → Rising lo next es
    → contains k (matching g es) ≡ is_some (interface_in g (find_handle k es))
unfolding contains matching find_handle
contains-matching lo next g k [] r = refl
contains-matching lo next g k (e ∷ es) r = ground (
  arith,
  contains-matching (suc e.handle) next g k es r.3,
  contains_below (suc e.handle) k (matching g es) (matching-Ascending (suc e.handle) next g es r.3),
)

fits : (required size : ℕ) → required ≤ size → ltb size required ≡ false
fits required size h = ground arith

-- In a well-formed database: a search by protocol with a buffer that is large enough returns each
-- handle that carries the protocol, once, in the order in which the handles were made, and no
-- other.
pub locate_handle_lem :
    (db : HandleDb) (g size : ℕ)
    → Valid db
    → length (matching g db.handles) * handle_size ≤ size
    → let r = locate_handle db true (some g) (some size) true in
      ((k : ℕ) → contains k r.handles ≡ is_some (interface_at db k g)) × Ascending 1 r.handles
unfolding locate_handle locate_matching interface_at
locate_handle_lem db g size v room =
    rw (fits (length (matching g db.handles) * handle_size) size room) (
      (λ k. contains-matching 1 db.next_handle g k db.handles v.rising),
      matching-Ascending 1 db.next_handle g db.handles v.rising,
    )

-- The interface of the first of some handles.
abbrev pub first_in : List HandleEntry → ℕ → List ℕ → Option ℕ
first_in es g [] = none
first_in es g (h ∷ hs) = interface_in g (find_handle h es)

first_in-cons :
    (e : HandleEntry) (es : List HandleEntry) (g : ℕ) (hs : List ℕ)
    → Ascending (suc e.handle) hs
    → first_in (e ∷ es) g hs ≡ first_in es g hs
unfolding find_handle
first_in-cons e es g [] a = refl
first_in-cons e es g (h ∷ hs) a = ground (arith, a.0)

find_interface-first_in :
    (lo next g : ℕ) (es : List HandleEntry)
    → Rising lo next es
    → find_interface g es ≡ first_in es g (matching g es)
unfolding find_interface matching
find_interface-first_in lo next g [] r = refl
find_interface-first_in lo next g (e ∷ es) r = elim (Option-cases (find_protocol g e.protocols)) [
  | inr (p, hit) ↦ unfold find_handle in ground arith
  | inl miss ↦ ground (
    arith,
    find_interface-first_in (suc e.handle) next g es r.3,
    first_in-cons e es g (matching g es) (matching-Ascending (suc e.handle) next g es r.3),
  )
]

-- In a well-formed database: a search for the interface of a protocol agrees with the search for
-- handles: it gives the interface of the first of them, and NOT_FOUND if there are none.
pub locate_protocol_lem :
    (db : HandleDb) (g : ℕ)
    → Valid db
    → locate_protocol db (some g) true ≡ elim (first_in db.handles g (matching g db.handles)) [
      | none ↦ (not_found, none)
      | some i ↦ (success, some i)
    ]
unfolding locate_protocol
locate_protocol_lem db g v =
    ground (arith, find_interface-first_in 1 db.next_handle g db.handles v.rising)

contains_head : (x : ℕ) (hs : List ℕ) → contains x (x ∷ hs) ≢ false
unfolding contains
contains_head x hs = ground arith

empty_of_contains : (hs : List ℕ) → ((k : ℕ) → contains k hs ≡ false) → hs ≡ []
empty_of_contains [] h = refl
empty_of_contains (x ∷ hs) h = absurd (contains_head x hs (h x))

-- In a well-formed database: if no handle carries the protocol, LocateHandleBuffer returns
-- OUT_OF_RESOURCES and no buffer.
pub locate_handle_buffer-none :
    (db : HandleDb) (pool : Pool) (g : ℕ)
    → Valid db
    → ((k : ℕ) → interface_at db k g ≡ none)
    → locate_handle_buffer db pool true (some g) ≡ (pool, out_of_resources, none)
unfolding locate_handle_buffer locate_handle locate_matching interface_at allocate_pool
locate_handle_buffer-none db pool g v none_carries =
    let none_matches = empty_of_contains (matching g db.handles) (λ k.
      contains-matching 1 db.next_handle g k db.handles v.rising ∙ ap is_some (none_carries k)) in
    rw none_matches
