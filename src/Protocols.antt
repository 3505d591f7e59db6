-- ===== src/Protocols.antt =====
-- src/efi/boot_services.rs and src/state.rs: the handle database. A handle, a GUID and an interface
-- are numbers (0 is a null handle); the first `protocol_count` places of an entry's array, and the
-- first `handle_count` of the handle array, are lists.
pub mod Locate
pub mod Lookup
pub mod Install
pub mod Handles
pub mod Locating
pub mod DevicePath
pub mod FirstDevice
mod Tests
use crab_efi.Prelude.{
  ℕ, suc, ◌+◌, Bool, true, false, Option, none, some, List, [], ◌∷◌, ◌++◌, ◌==◌, leb, if◌then◌else◌,
  length, take,
}
use crab_efi.Status.{
  Status, success, invalid_parameter, out_of_resources, unsupported, Result, ok, err,
}

abbrev pub max_handles : ℕ
max_handles = 64

abbrev pub max_protocols_per_handle : ℕ
max_protocols_per_handle = 8

pub record ProtocolEntry : Type 0 where
  pub guid : ℕ
  pub interface : ℕ

pub record HandleEntry : Type 0 where
  pub handle : ℕ
  pub protocols : List ProtocolEntry

-- The part of `EfiState` that holds the handles.
pub record HandleDb : Type 0 where
  pub handles : List HandleEntry
  pub next_handle : ℕ

-- `EfiState::new`
abbrev pub new_db : HandleDb
new_db = record { handles = []; next_handle = 1 }

-- `protocols[..protocol_count].iter().find(|p| p.guid == guid)`
unfoldable pub find_protocol : ℕ → List ProtocolEntry → Option ProtocolEntry
find_protocol guid [] = none
find_protocol guid (p ∷ ps) = if p.guid == guid then some p else find_protocol guid ps

abbrev pub is_some {ℓ} : {A : Type ℓ} → Option A → Bool
is_some none = false
is_some (some _) = true

-- `handles[..handle_count].iter().find(|e| e.handle == handle)`
unfoldable pub find_handle : ℕ → List HandleEntry → Option HandleEntry
find_handle handle [] = none
find_handle handle (e ∷ es) = if e.handle == handle then some e else find_handle handle es

-- What is done to the entry that `iter_mut().find` returns.
unfoldable pub update_handle :
    ℕ → (List ProtocolEntry → List ProtocolEntry) → List HandleEntry → List HandleEntry
update_handle handle f [] = []
update_handle handle f (e ∷ es) =
    if e.handle == handle
    then record e { protocols = f e.protocols } ∷ es
    else e ∷ update_handle handle f es

unfoldable pub create_handle : HandleDb → HandleDb × Option ℕ
create_handle db = if leb max_handles (length db.handles) then (db, none) else (
  record db {
    handles = db.handles ++ (record { handle = db.next_handle; protocols = [] } ∷ []);
    next_handle = db.next_handle + 1;
  },
  some db.next_handle,
)

abbrev pub add_protocol : ℕ → ℕ → List ProtocolEntry → List ProtocolEntry
add_protocol guid interface ps = ps ++ (record { guid = guid; interface = interface } ∷ [])

abbrev pub install_in : HandleDb → ℕ → ℕ → Option HandleEntry → HandleDb × Status
install_in db guid interface none = (db, invalid_parameter)
install_in db guid interface (some e) =
    if is_some (find_protocol guid e.protocols)
    then (db, invalid_parameter)
    else if leb max_protocols_per_handle (length e.protocols)
    then (db, out_of_resources)
    else (
      record db { handles = update_handle e.handle (add_protocol guid interface) db.handles },
      success,
    )

-- `install_protocol`; the same code is the second half of `install_protocol_interface`.
unfoldable pub install_protocol : HandleDb → ℕ → ℕ → ℕ → HandleDb × Status
install_protocol db handle guid interface =
    install_in db guid interface (find_handle handle db.handles)

-- A new handle that carries the protocol.
unfoldable pub install_new : HandleDb → ℕ → ℕ → HandleDb × Status × ℕ
install_new db guid interface =
    if leb max_handles (length db.handles) then (db, out_of_resources, 0) else (
      record db {
        handles =
            db.handles
            ++ (record { handle = db.next_handle; protocols = add_protocol guid interface [] }
                ∷ []);
        next_handle = db.next_handle + 1;
      },
      success,
      db.next_handle,
    )

abbrev keep_handle : ℕ → HandleDb × Status → HandleDb × Status × ℕ
keep_handle handle (db, s) = (db, s, handle)

-- `none` is a null pointer. The flag says that the interface type is the native one. The last part of
-- the result is what `*handle` holds afterwards.
unfoldable pub install_protocol_interface :
    HandleDb → Option ℕ → Option ℕ → Bool → ℕ → HandleDb × Status × ℕ
install_protocol_interface db none protocol native interface = (db, invalid_parameter, 0)
install_protocol_interface db (some handle) none native interface = (db, invalid_parameter, handle)
install_protocol_interface db (some handle) (some guid) native interface =
    if native
    then (if handle == 0
        then install_new db guid interface
        else keep_handle handle (install_protocol db handle guid interface))
    else (db, invalid_parameter, handle)

-- The loop of `install_multiple_protocol_interfaces` over the pairs before the null GUID: it stops
-- at the first failure and undoes nothing.
unfoldable pub install_each : HandleDb → ℕ → List (ℕ × ℕ) → HandleDb × Status
install_each db handle [] = (db, success)
install_each db handle ((guid, interface) ∷ pairs) =
    let (db', s) = install_protocol db handle guid interface in
    let rest = install_each db' handle pairs in elim s [ success ↦ rest | failed ↦ (db', failed) ]

abbrev install_created : HandleDb × Option ℕ → List (ℕ × ℕ) → HandleDb × Status × ℕ
install_created (db, none) pairs = (db, out_of_resources, 0)
install_created (db, some handle) pairs = keep_handle handle (install_each db handle pairs)

abbrev install_pairs : HandleDb → ℕ → List (ℕ × ℕ) → HandleDb × Status × ℕ
install_pairs db handle [] = (db, success, handle)
install_pairs db handle (pair ∷ pairs) =
    if handle == 0
    then install_created (create_handle db) (pair ∷ pairs)
    else keep_handle handle (install_each db handle (pair ∷ pairs))

-- The calls have places for so many pairs, and do not look at what is behind them.
abbrev pub max_pairs : ℕ
max_pairs = 4

-- The pairs before the null GUID.
unfoldable pub install_multiple_protocol_interfaces :
    HandleDb → Option ℕ → List (ℕ × ℕ) → HandleDb × Status × ℕ
install_multiple_protocol_interfaces db none pairs = (db, invalid_parameter, 0)
install_multiple_protocol_interfaces db (some handle) pairs =
    install_pairs db handle (take max_pairs pairs)

-- `copy_within(j + 1..protocol_count, j)` at the first protocol of that GUID.
unfoldable pub remove_protocol : ℕ → List ProtocolEntry → List ProtocolEntry
remove_protocol guid [] = []
remove_protocol guid (p ∷ ps) = if p.guid == guid then ps else p ∷ remove_protocol guid ps

unfoldable pub uninstall_each : HandleDb → ℕ → List ℕ → HandleDb
uninstall_each db handle [] = db
uninstall_each db handle (guid ∷ guids) =
    uninstall_each (record db { handles = update_handle handle (remove_protocol guid) db.handles })
      handle guids

-- The GUIDs before the null one.
unfoldable pub uninstall_multiple_protocol_interfaces : HandleDb → ℕ → List ℕ → HandleDb × Status
uninstall_multiple_protocol_interfaces db handle guids =
    if handle == 0
    then (db, invalid_parameter)
    else (uninstall_each db handle (take max_pairs guids), success)

abbrev open_found : Option ProtocolEntry → Status × Option ℕ
open_found none = (unsupported, none)
open_found (some p) = (success, some p.interface)

abbrev open_in : ℕ → Option HandleEntry → Status × Option ℕ
open_in guid none = (invalid_parameter, none)
open_in guid (some e) = open_found (find_protocol guid e.protocols)

-- The status, and the interface that is written where the caller asks for it.
unfoldable pub open_protocol : HandleDb → ℕ → Option ℕ → Status × Option ℕ
open_protocol db handle none = (invalid_parameter, none)
open_protocol db handle (some guid) =
    if handle == 0 then (invalid_parameter, none) else open_in guid (find_handle handle db.handles)

-- Forwards, with no agent and no controller, which `open_protocol` does not look at.
pub handle_protocol : HandleDb → ℕ → Option ℕ → Status × Option ℕ
handle_protocol db handle protocol = open_protocol db handle protocol
