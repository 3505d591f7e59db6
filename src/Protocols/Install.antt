-- ===== src/Protocols/Install.antt =====
-- src/efi/boot_services.rs: what installing, removing and opening protocols does, against the map from
-- handle and GUID to interface.
use crab_efi.Prelude.{
  ℕ, ◌≤◌, ◌<◌, ◌&&◌, none, some, [], ◌∷◌, ◌≡◌, ◌⊎◌, inl, inr, ◌==◌, if◌then◌else◌, length,
  length-append, arith, Option-cases, dec_lt,
}
use crab_efi.Status.{Status, success, invalid_parameter, out_of_resources}
use crab_efi.Protocols.{
  ProtocolEntry, HandleEntry, HandleDb, find_protocol, find_handle, update_handle, install_protocol,
  install_in, add_protocol, max_protocols_per_handle,
}
use crab_efi.Protocols.Lookup.{
  Valid, Rising-update, Distinct-append, interface_at, find_handle-Rising, find_handle-handle,
  find_handle-update, find_protocol-append, length-update,
}

-- The state after the new protocol is added to an entry.
abbrev pub installed : HandleDb → ℕ → ℕ → ℕ → HandleDb
installed db h g i = record db { handles = update_handle h (add_protocol g i) db.handles }

installed-Valid :
    (db : HandleDb) (h g i : ℕ) (e : HandleEntry)
    → Valid db
    → find_handle h db.handles ≡ some e
    → find_protocol g e.protocols ≡ none
    → length e.protocols < max_protocols_per_handle
    → Valid (installed db h g i)
installed-Valid db h g i e v found free room =
    let q : ProtocolEntry = record { guid = g; interface = i } in
    let fact = find_handle-Rising 1 db.next_handle h db.handles e v.rising found in
    record {
      rising =
          Rising-update 1 db.next_handle h (add_protocol g i) db.handles
            (λ x again.
              let same : e ≡ x = ground arith in
              rw (← same) (
                Distinct-append e.protocols q fact.2 free,
                omega (arith, length-append e.protocols (q ∷ [])),
              ))
            v.rising;
      within = omega (arith, length-update h (add_protocol g i) db.handles, v.within);
    }

interface_at-installed :
    (db : HandleDb) (h g i k j : ℕ) (e : HandleEntry)
    → find_handle h db.handles ≡ some e
    → find_protocol g e.protocols ≡ none
    → interface_at (installed db h g i) k j
      ≡ (if h == k && g == j then some i else interface_at db k j)
unfolding interface_at
interface_at-installed db h g i k j e found free = ground (
  arith,
  find_handle-update h k (add_protocol g i) db.handles,
  find_protocol-append j e.protocols (record { guid = g; interface = i }),
)

install_protocol-installed :
    (db : HandleDb) (h g i : ℕ) (e : HandleEntry)
    → find_handle h db.handles ≡ some e
    → find_protocol g e.protocols ≡ none
    → length e.protocols < max_protocols_per_handle
    → install_protocol db h g i ≡ (installed db h g i, success)
unfolding install_protocol
install_protocol-installed db h g i e found free room =
    ground (arith, find_handle-handle h db.handles e found)

-- The handle is unknown, or carries the GUID already, or is full, and nothing changes; or the
-- protocol is added.
abbrev pub Installs : HandleDb → ℕ → ℕ → ℕ → HandleDb × Status → Type 0
Installs db h g i r =
    ((find_handle h db.handles ≡ none) × (r ≡ (db, invalid_parameter)))
    ⊎ ((j : ℕ) × (interface_at db h g ≡ some j) × (r ≡ (db, invalid_parameter)))
    ⊎ ((e : HandleEntry) × (find_handle h db.handles ≡ some e)
        × (max_protocols_per_handle ≤ length e.protocols)
        × (r ≡ (db, out_of_resources)))
    ⊎ ((db' : HandleDb) × (r ≡ (db', success))
        × Valid db'
        × (interface_at db h g ≡ none)
        × ((k j : ℕ)
            → interface_at db' k j ≡ (if h == k && g == j then some i else interface_at db k j)))

-- The handle is known: what its entry decides.
install_known :
    (db : HandleDb) (h g i : ℕ) (e : HandleEntry)
    → Valid db
    → find_handle h db.handles ≡ some e
    → Installs db h g i (install_protocol db h g i)
unfolding install_protocol interface_at
install_known db h g i e v found = elim (Option-cases (find_protocol g e.protocols)) [
  | inr (p, taken) ↦ inr (inl (p.interface, ground arith, ground arith))
  | inl free ↦ elim (dec_lt (length e.protocols) max_protocols_per_handle) [
    | no full ↦ inr (inr (inl (e, found, ground arith, ground arith)))
    | yes room ↦ inr (
        inr (
          inr (
            installed db h g i,
            install_protocol-installed db h g i e found free room,
            installed-Valid db h g i e v found free room,
            ground arith,
            λ k j. interface_at-installed db h g i k j e found free,
          )))
  ]
]

-- In a well-formed database: installing a protocol on a handle. Nothing changes if the handle is
-- unknown or carries the GUID (INVALID_PARAMETER), or has eight protocols (OUT_OF_RESOURCES).
-- Otherwise the handle carries the interface under the GUID, which it did not before, every other
-- pair of handle and GUID keeps what it had, and the database stays well-formed.
pub install_protocol_lem :
    (db : HandleDb) (h g i : ℕ) → Valid db → Installs db h g i (install_protocol db h g i)
install_protocol_lem db h g i v = elim (Option-cases (find_handle h db.handles)) [
  | inl missing ↦ inl (missing, unfold install_protocol in rw (missing, install_in))
  | inr (e, found) ↦ install_known db h g i e v found
]
