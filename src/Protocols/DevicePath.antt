-- ===== src/Protocols/DevicePath.antt =====
-- src/efi/boot_services.rs: `locate_device_path`. The GUID of device paths is the one of the package that
-- the source takes it from, so it is a parameter.
use crab_efi.Prelude.{
  ℕ, zero, suc, ◌+◌, Bool, ◌&&◌, Option, none, some, List, [], ◌∷◌, ◌==◌, ltb, if◌then◌else◌,
}
use crab_efi.Status.{Status, success, invalid_parameter, not_found}
use crab_efi.Bytes.{Memory, le16}
use crab_efi.Protocols.{HandleEntry, HandleDb, find_protocol, is_some}
use crab_efi.Protocols.Lookup.{interface_of}

-- The tests on one entry: it carries the protocol, and a device path that is not null.
abbrev pub usable_path : Bool → Option ℕ → Option ℕ
usable_path has_protocol none = none
usable_path has_protocol (some dp) =
    if has_protocol then (if dp == 0 then none else some dp) else none

-- The first handle, with its device path.
abbrev pub or_later : ℕ → Option ℕ → Option (ℕ × ℕ) → Option (ℕ × ℕ)
or_later handle none later = later
or_later handle (some dp) later = some (handle, dp)

unfoldable pub find_device_path : ℕ → ℕ → List HandleEntry → Option (ℕ × ℕ)
find_device_path device_path_guid guid [] = none
find_device_path device_path_guid guid (e ∷ es) =
    or_later e.handle
      (usable_path (is_some (find_protocol guid e.protocols))
        (interface_of (find_protocol device_path_guid e.protocols)))
      (find_device_path device_path_guid guid es)

abbrev pub is_end_node : Memory → ℕ → Bool
is_end_node mem dp = mem dp == 0x7F && mem (dp + 1) == 0xFF

-- The loop over the nodes of a path. Memory has no end here, and a path may have none: `none` is a run
-- out of fuel.
unfoldable pub walk_to_end : ℕ → Memory → ℕ → Option ℕ
walk_to_end zero mem dp = none
walk_to_end (suc fuel) mem dp =
    let len = le16 mem (dp + 2) in
    let rest = walk_to_end fuel mem (dp + len) in
    if is_end_node mem dp then some dp else if ltb len 4 then some dp else rest

-- The status, and what is written to `*device` and to `*device_path`.
abbrev pub PathReply : Type 0
PathReply = Status × Option (ℕ × ℕ)

abbrev end_found : ℕ → Option ℕ → Option PathReply
end_found handle none = none
end_found handle (some end) = some (success, some (handle, end))

abbrev pub answer : ℕ → Memory → Option (ℕ × ℕ) → Option PathReply
answer fuel mem none = some (not_found, none)
answer fuel mem (some (handle, dp)) = end_found handle (walk_to_end fuel mem dp)

-- `none` is a null pointer to the GUID or to the path; the flag says that the pointer for the device is
-- not null. A path that is null itself is 0. The path is looked at no further.
unfoldable pub locate_device_path :
    ℕ → ℕ → Memory → HandleDb → Option ℕ → Option ℕ → Bool → Option PathReply
locate_device_path device_path_guid fuel mem db none device_path has_device =
    some (invalid_parameter, none)
locate_device_path device_path_guid fuel mem db (some guid) none has_device =
    some (invalid_parameter, none)
locate_device_path device_path_guid fuel mem db (some guid) (some input_dp) has_device =
    if has_device
    then (if input_dp == 0
        then some (invalid_parameter, none)
        else answer fuel mem (find_device_path device_path_guid guid db.handles))
    else some (invalid_parameter, none)
