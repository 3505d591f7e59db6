-- ===== src/Protocols/Handles.antt =====
-- src/efi/boot_services.rs: new handles, opening and removing protocols, against the map from handle and
-- GUID to interface.
use crab_efi.Prelude.{
  ℕ, suc, le_refl, ◌+◌, ◌≤◌, ◌<◌, Bool, true, false, ◌&&◌, none, some, List, [], ◌∷◌, ◌++◌, ◌≡◌,
  ◌≢◌, refl, inl, inr, ◌==◌, if◌then◌else◌, length, length-append, take, arith, Option-cases,
}
use native.Mathlib.Numerals.{add-one}
use crab_efi.Status.{success, invalid_parameter, unsupported}
use crab_efi.Protocols.{
  HandleEntry, HandleDb, find_protocol, find_handle, update_handle, is_some, add_protocol,
  remove_protocol, max_pairs, max_handles, max_protocols_per_handle,
}
use crab_efi.Protocols.{
  install_new, open_protocol, uninstall_each, uninstall_multiple_protocol_interfaces,
}
use crab_efi.Protocols.Lookup.{
  Valid, Rising, Rising-update, Distinct, Distinct-remove, interface_at, find_handle-Rising,
  find_handle-update, find_handle_fresh, find_protocol-remove, length-remove_protocol,
  length-update,
}

-- In a well-formed database: opening a protocol reads the map: it gives the interface of the
-- handle under the GUID, and otherwise UNSUPPORTED for a known handle and INVALID_PARAMETER for
-- an unknown one.
pub open_protocol-interface_at :
    (db : HandleDb) (h g : ℕ)
    → Valid db
    → open_protocol db h (some g) ≡ elim (interface_at db h g) [
      | some i ↦ (success, some i)
      | none ↦
          ((if is_some (find_handle h db.handles) then unsupported else invalid_parameter), none)
    ]
unfolding open_protocol interface_at
open_protocol-interface_at db h g v = elim (Option-cases (find_handle h db.handles)) [
  | inl missing ↦ ground arith
  | inr (e, found) ↦
      let fact = find_handle-Rising 1 db.next_handle h db.handles e v.rising found in
      ground (arith, fact.0)
]

eq_zero : (h : ℕ) → h ≢ 0 → (h == 0) ≡ false
eq_zero h ne = ground arith

find_handle-append :
    (k : ℕ) (es : List HandleEntry) (e : HandleEntry)
    → find_handle k (es ++ (e ∷ [])) ≡ elim (find_handle k es) [
      | some x ↦ some x
      | none ↦ (if e.handle == k then some e else none)
    ]
unfolding find_handle
find_handle-append k [] e = ground arith
find_handle-append k (x ∷ es) e = ground (arith, find_handle-append k es e)

Rising-append :
    (lo next : ℕ) (es : List HandleEntry) (e : HandleEntry)
    → Rising lo next es
    → e.handle ≡ next
    → Distinct e.protocols
    → length e.protocols ≤ max_protocols_per_handle
    → Rising lo (suc next) (es ++ (e ∷ []))
Rising-append lo next [] e r x d l = (omega arith, d, l, omega arith)
Rising-append lo next (y ∷ es) e r x d l =
    (r.0, r.1, r.2, Rising-append (suc y.handle) next es e r.3 x d l)

-- The database with one more handle.
abbrev with_new : HandleDb → ℕ → ℕ → HandleDb
with_new db g i = record {
  handles =
      db.handles ++ (record { handle = db.next_handle; protocols = add_protocol g i [] } ∷ []);
  next_handle = db.next_handle + 1;
}

install_new-with_new :
    (db : HandleDb) (g i : ℕ)
    → length db.handles < max_handles
    → install_new db g i ≡ (with_new db g i, success, db.next_handle)
unfolding install_new
install_new-with_new db g i room = ground arith

with_new-Valid :
    (db : HandleDb) (g i : ℕ) → Valid db → length db.handles < max_handles → Valid (with_new db g i)
unfolding find_protocol
with_new-Valid db g i v room =
    let e : HandleEntry = record { handle = db.next_handle; protocols = add_protocol g i [] } in
    record {
      rising =
          rw add-one
            (Rising-append 1 db.next_handle db.handles e v.rising refl (refl, tt) (omega arith));
      within = omega (arith, length-append db.handles (e ∷ []));
    }

interface_at-with_new :
    (db : HandleDb) (g i k j : ℕ)
    → Valid db
    → interface_at (with_new db g i) k j
      ≡ (if db.next_handle == k && g == j then some i else interface_at db k j)
unfolding interface_at find_protocol
interface_at-with_new db g i k j v = ground (
  arith,
  find_handle-append k db.handles
      (record { handle = db.next_handle; protocols = add_protocol g i [] }),
  find_handle_fresh 1 db.next_handle k db.handles v.rising,
)

-- In a well-formed database: with fewer than 64 handles, a new handle that carries a protocol is
-- no handle of before; it carries that protocol and no other, every other handle keeps what it
-- had, and the database stays well-formed.
pub install_new_lem :
    (db : HandleDb) (g i : ℕ)
    → Valid db
    → length db.handles < max_handles
    → let (db', s, h) = install_new db g i in
      (s ≡ success)
      × (find_handle h db.handles ≡ none)
      × ((k j : ℕ)
          → interface_at db' k j ≡ (if h == k && g == j then some i else interface_at db k j))
      × Valid db'
install_new_lem db g i v room = rw (install_new-with_new db g i room) (
  refl,
  find_handle_fresh 1 db.next_handle db.next_handle db.handles v.rising (le_refl _),
  (λ k j. interface_at-with_new db g i k j v),
  with_new-Valid db g i v room,
)

-- Whether a list of GUIDs names one.
unfoldable pub contains : ℕ → List ℕ → Bool
contains a [] = false
contains a (x ∷ xs) = if x == a then true else contains a xs

abbrev without : HandleDb → ℕ → ℕ → HandleDb
without db h g = record db { handles = update_handle h (remove_protocol g) db.handles }

without-Valid : (db : HandleDb) (h g : ℕ) → Valid db → Valid (without db h g)
without-Valid db h g v = record {
  rising =
      Rising-update 1 db.next_handle h (remove_protocol g) db.handles
        (λ e found.
          let fact = find_handle-Rising 1 db.next_handle h db.handles e v.rising found in
          (
            Distinct-remove g e.protocols fact.2,
            omega (arith, length-remove_protocol g e.protocols, fact.3),
          ))
        v.rising;
  within = omega (arith, length-update h (remove_protocol g) db.handles, v.within);
}

interface_at-without :
    (db : HandleDb) (h g k j : ℕ)
    → Valid db
    → interface_at (without db h g) k j ≡ (if h == k && g == j then none else interface_at db k j)
unfolding interface_at
interface_at-without db h g k j v =
    let moved = find_handle-update h k (remove_protocol g) db.handles in
    elim (Option-cases (find_handle k db.handles)) [
      | inl missing ↦ ground (arith, moved)
      | inr (e, found) ↦
          let fact = find_handle-Rising 1 db.next_handle k db.handles e v.rising found in
          ground (arith, moved, find_protocol-remove g j e.protocols fact.2)
    ]

uninstall_each_lem :
    (guids : List ℕ) (db : HandleDb) (h : ℕ)
    → Valid db
    → Valid (uninstall_each db h guids)
      × ((k j : ℕ)
          → interface_at (uninstall_each db h guids) k j
            ≡ (if h == k && contains j guids then none else interface_at db k j))
unfolding uninstall_each contains
uninstall_each_lem [] db h v = (v, λ k j. ground arith)
uninstall_each_lem (g ∷ guids) db h v =
    let (valid, maps) = uninstall_each_lem guids (without db h g) h (without-Valid db h g v) in
    (valid, λ k j. ground (arith, maps k j, interface_at-without db h g k j v))

-- In a well-formed database: removing protocols from a handle that is not null succeeds: the
-- handle carries none of the first four listed GUIDs afterwards, no other interface of any handle
-- changes, so that GUIDs further back in the list have no effect, and the database stays well-formed.
pub uninstall_lem :
    (db : HandleDb) (h : ℕ) (guids : List ℕ)
    → Valid db
    → h ≢ 0
    → let (db', s) = uninstall_multiple_protocol_interfaces db h guids in
      (s ≡ success)
      × Valid db'
      × ((k j : ℕ)
          → interface_at db' k j
            ≡ (if h == k && contains j (take max_pairs guids) then none else interface_at db k j))
unfolding uninstall_multiple_protocol_interfaces
uninstall_lem db h guids v ne =
    let (valid, maps) = uninstall_each_lem (take max_pairs guids) db h v in
    rw (eq_zero h ne) (refl, valid, maps)
