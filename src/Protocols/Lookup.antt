-- ===== src/Protocols/Lookup.antt =====
-- src/efi/boot_services.rs: the handle database as a map from handle and GUID to interface, and what
-- installing and removing protocols does to it.
use crab_efi.Prelude.{
  ℕ, suc, ◌≤◌, ◌<◌, Option, none, some, List, [], ◌∷◌, ◌++◌, ◌≡◌, ◌≢◌, refl, inl, inr, ◌==◌,
  if◌then◌else◌, length, arith, Bool-cases,
}
use crab_efi.Protocols.{
  ProtocolEntry, HandleEntry, HandleDb, find_protocol, find_handle, update_handle, remove_protocol,
  max_handles, max_protocols_per_handle,
}

abbrev pub interface_of : Option ProtocolEntry → Option ℕ
interface_of none = none
interface_of (some p) = some p.interface

abbrev pub interface_in : ℕ → Option HandleEntry → Option ℕ
interface_in guid none = none
interface_in guid (some e) = interface_of (find_protocol guid e.protocols)

-- What a handle carries under a GUID.
unfoldable pub interface_at : HandleDb → ℕ → ℕ → Option ℕ
interface_at db handle guid = interface_in guid (find_handle handle db.handles)

-- No GUID twice on a handle.
abbrev pub Distinct : List ProtocolEntry → Type 0
Distinct [] = Unit {0}
Distinct (p ∷ ps) = (find_protocol p.guid ps ≡ none) × Distinct ps

-- Handles in the order in which they were made, from `lo` on and below `next`.
abbrev pub Rising : ℕ → ℕ → List HandleEntry → Type 0
Rising lo next [] = lo ≤ next
Rising lo next (e ∷ es) =
    (lo ≤ e.handle)
    × Distinct e.protocols
    × (length e.protocols ≤ max_protocols_per_handle)
    × Rising (suc e.handle) next es

pub record Valid (db : HandleDb) : Type 0 where
  pub rising : Rising 1 db.next_handle db.handles
  pub within : length db.handles ≤ max_handles

pub find_handle_below :
    (lo next h : ℕ) (es : List HandleEntry) → Rising lo next es → h < lo → find_handle h es ≡ none
unfolding find_handle
find_handle_below lo next h [] r l = refl
find_handle_below lo next h (e ∷ es) r l =
    ground (arith, find_handle_below (suc e.handle) next h es r.3)

pub Rising-le : (lo next : ℕ) (es : List HandleEntry) → Rising lo next es → lo ≤ next
Rising-le lo next [] r = r
Rising-le lo next (e ∷ es) r = omega (arith, Rising-le (suc e.handle) next es r.3)

pub find_handle_fresh :
    (lo next h : ℕ) (es : List HandleEntry) → Rising lo next es → next ≤ h → find_handle h es ≡ none
unfolding find_handle
find_handle_fresh lo next h [] r l = refl
find_handle_fresh lo next h (e ∷ es) r l =
    ground
      (arith, find_handle_fresh (suc e.handle) next h es r.3, Rising-le (suc e.handle) next es r.3)

abbrev pub or_entry : Option ProtocolEntry → Option ProtocolEntry → Option ProtocolEntry
or_entry none r = r
or_entry (some p) r = some p

pub find_protocol-append :
    (g : ℕ) (ps : List ProtocolEntry) (q : ProtocolEntry)
    → find_protocol g (ps ++ (q ∷ []))
      ≡ or_entry (find_protocol g ps) (if q.guid == g then some q else none)
unfolding find_protocol
find_protocol-append g [] q = refl
find_protocol-append g (p ∷ ps) q = ground (arith, find_protocol-append g ps q)

find_protocol-cons :
    (g : ℕ) (p : ProtocolEntry) (ps : List ProtocolEntry)
    → find_protocol g (p ∷ ps) ≡ none
    → (p.guid ≢ g) × (find_protocol g ps ≡ none)
unfolding find_protocol
find_protocol-cons g p ps e = ground arith

pub Distinct-append :
    (ps : List ProtocolEntry) (q : ProtocolEntry)
    → Distinct ps
    → find_protocol q.guid ps ≡ none
    → Distinct (ps ++ (q ∷ []))
Distinct-append [] q d n = (unfold find_protocol in refl, tt)
Distinct-append (p ∷ ps) q d n =
    let (ne, rest) = find_protocol-cons q.guid p ps n in
    (ground (arith, find_protocol-append p.guid ps q, d.0), Distinct-append ps q d.1 rest)

pub find_protocol-remove :
    (g h : ℕ) (ps : List ProtocolEntry)
    → Distinct ps
    → find_protocol h (remove_protocol g ps) ≡ (if g == h then none else find_protocol h ps)
unfolding find_protocol remove_protocol
find_protocol-remove g h [] d = ground arith
find_protocol-remove g h (p ∷ ps) d = ground (arith, find_protocol-remove g h ps d.1, d.0)

pub Distinct-remove :
    (g : ℕ) (ps : List ProtocolEntry) → Distinct ps → Distinct (remove_protocol g ps)
unfolding remove_protocol
Distinct-remove g [] d = tt
Distinct-remove g (p ∷ ps) d =
    ground (arith, Distinct-remove g ps d.1, find_protocol-remove g p.guid ps d.1, d.0, d.1)

pub length-remove_protocol :
    (g : ℕ) (ps : List ProtocolEntry) → length (remove_protocol g ps) ≤ length ps
unfolding remove_protocol
length-remove_protocol g [] = omega arith
length-remove_protocol g (p ∷ ps) = ground (arith, length-remove_protocol g ps)

abbrev pub update_in :
    (List ProtocolEntry → List ProtocolEntry) → Option HandleEntry → Option HandleEntry
update_in f none = none
update_in f (some e) = some (record e { protocols = f e.protocols })

pub find_handle-update :
    (h k : ℕ) (f : List ProtocolEntry → List ProtocolEntry) (es : List HandleEntry)
    → find_handle k (update_handle h f es)
      ≡ (if h == k then update_in f (find_handle k es) else find_handle k es)
unfolding find_handle update_handle
find_handle-update h k f [] = ground arith
find_handle-update h k f (e ∷ es) = ground (arith, find_handle-update h k f es)

-- A change of the entry's protocols that keeps them well-formed.
pub Rising-update :
    (lo next h : ℕ) (f : List ProtocolEntry → List ProtocolEntry) (es : List HandleEntry)
    → ((e : HandleEntry)
        → find_handle h es ≡ some e
        → Distinct (f e.protocols) × (length (f e.protocols) ≤ max_protocols_per_handle))
    → Rising lo next es
    → Rising lo next (update_handle h f es)
unfolding find_handle update_handle
Rising-update lo next h f [] keep r = r
Rising-update lo next h f (e ∷ es) keep r = elim (Bool-cases (e.handle == h)) [
  | inl hit ↦ rw hit (let (d, l) = keep e (rw hit) in (r.0, d, l, r.3))
  | inr miss ↦ rw miss (
    r.0,
    r.1,
    r.2,
    Rising-update (suc e.handle) next h f es (λ x found. keep x (rw miss found)) r.3,
  )
]

pub length-update :
    (h : ℕ) (f : List ProtocolEntry → List ProtocolEntry) (es : List HandleEntry)
    → length (update_handle h f es) ≡ length es
unfolding update_handle
length-update h f [] = refl
length-update h f (e ∷ es) = ground (arith, length-update h f es)

pub find_handle-handle :
    (h : ℕ) (es : List HandleEntry) (e : HandleEntry) → find_handle h es ≡ some e → e.handle ≡ h
unfolding find_handle
find_handle-handle h [] e x = cc
find_handle-handle h (y ∷ es) e x = ground (arith, find_handle-handle h es e)

-- What `Rising` says of an entry that is found.
pub find_handle-Rising :
    (lo next h : ℕ) (es : List HandleEntry) (e : HandleEntry)
    → Rising lo next es
    → find_handle h es ≡ some e
    → (lo ≤ h) × (h < next) × Distinct e.protocols × (length e.protocols ≤ max_protocols_per_handle)
unfolding find_handle
find_handle-Rising lo next h [] e r x = cc
find_handle-Rising lo next h (y ∷ es) e r x = elim (Bool-cases (y.handle == h)) [
  | inl hit ↦
      let same : y ≡ e = ground arith in
      rw (← same)
        (ground (arith, r.0), ground (arith, Rising-le (suc y.handle) next es r.3), r.1, r.2)
  | inr miss ↦
      let (low, high, d, l) = find_handle-Rising (suc y.handle) next h es e r.3 (ground arith) in
      (omega (arith, r.0), high, d, l)
]
