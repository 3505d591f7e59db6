-- ===== src/Protocols/Locate.antt =====
-- src/efi/boot_services.rs: `locate_handle`, `locate_handle_buffer` and `locate_protocol`.
use crab_efi.Prelude.{
  ℕ, ◌*◌, Bool, true, false, Option, none, some, List, [], ◌∷◌, ltb, if◌then◌else◌, length,
}
use crab_efi.Status.{
  Status, success, invalid_parameter, unsupported, out_of_resources, not_found, buffer_too_small,
  Result, ok, err,
}
use crab_efi.Allocator.Types.{boot_services_data}
use crab_efi.Allocator.Pool.{Pool, allocate_pool, free_pool}
use crab_efi.Protocols.{ProtocolEntry, HandleEntry, HandleDb, find_protocol, is_some}

-- The handles that carry the protocol, in the order of the table.
unfoldable pub matching : ℕ → List HandleEntry → List ℕ
matching guid [] = []
matching guid (e ∷ es) =
    if is_some (find_protocol guid e.protocols)
    then e.handle ∷ matching guid es
    else matching guid es

-- `size_of::<Handle>()`
abbrev pub handle_size : ℕ
handle_size = 8

-- The status, what `*buffer_size` holds afterwards, and the handles that are copied to the buffer.
pub record Located : Type 0 where
  pub status : Status
  pub size : ℕ
  pub handles : List ℕ

abbrev is_empty : List ℕ → Bool
is_empty [] = true
is_empty (_ ∷ _) = false

unfoldable pub locate_matching : List ℕ → ℕ → Bool → Located
locate_matching found size has_buffer =
    let required = length found * handle_size in
    if has_buffer
    then (if ltb size required
        then record { status = buffer_too_small; size = required; handles = [] }
        else record {
          status = if is_empty found then not_found else success;
          size = required;
          handles = found;
        })
    else record { status = buffer_too_small; size = required; handles = [] }

-- The flags say that the search is by protocol, and that the buffer pointer is not null.
unfoldable pub locate_handle : HandleDb → Bool → Option ℕ → Option ℕ → Bool → Located
locate_handle db by_protocol protocol none has_buffer = record {
  status = invalid_parameter;
  size = 0;
  handles = [];
}
locate_handle db by_protocol none (some size) has_buffer = record {
  status = if by_protocol then invalid_parameter else unsupported;
  size = size;
  handles = [];
}
locate_handle db by_protocol (some guid) (some size) has_buffer =
    if by_protocol
    then locate_matching (matching guid db.handles) size has_buffer
    else record { status = unsupported; size = size; handles = [] }

-- The pool after the call, the status, and the array that the caller gets with its address.
abbrev pub Buffered : Type 0
Buffered = Pool × Status × Option (ℕ × List ℕ)

abbrev give_back : Pool × Status → Status → Buffered
give_back (pool, _) s = (pool, s, none)

abbrev hand_over : Pool → ℕ → Located → Buffered
hand_over pool buffer r = elim r.status [
  | success ↦ (pool, success, some (buffer, r.handles))
  | failed ↦ give_back (free_pool pool buffer) failed
]

abbrev fill_buffer : HandleDb → Bool → Option ℕ → ℕ → Pool × Result ℕ → Buffered
fill_buffer db by_protocol protocol size (pool, err _) = (pool, out_of_resources, none)
fill_buffer db by_protocol protocol size (pool, ok buffer) =
    hand_over pool buffer (locate_handle db by_protocol protocol (some size) true)

-- The pointers for the results are not null.
unfoldable pub locate_handle_buffer : HandleDb → Pool → Bool → Option ℕ → Buffered
locate_handle_buffer db pool by_protocol protocol =
    let first = locate_handle db by_protocol protocol (some 0) false in
    let filled =
      fill_buffer db by_protocol protocol first.size
        (allocate_pool pool boot_services_data first.size) in
    elim first.status [ buffer_too_small ↦ filled | other ↦ (pool, other, none) ]

abbrev first_interface : Option ProtocolEntry → Option ℕ → Option ℕ
first_interface none rest = rest
first_interface (some p) rest = some p.interface

unfoldable pub find_interface : ℕ → List HandleEntry → Option ℕ
find_interface guid [] = none
find_interface guid (e ∷ es) =
    first_interface (find_protocol guid e.protocols) (find_interface guid es)

abbrev located : Option ℕ → Status × Option ℕ
located none = (not_found, none)
located (some i) = (success, some i)

-- The flag says that the pointer for the interface is not null.
unfoldable pub locate_protocol : HandleDb → Option ℕ → Bool → Status × Option ℕ
locate_protocol db none has_out = (invalid_parameter, none)
locate_protocol db (some guid) has_out =
    if has_out then located (find_interface guid db.handles) else (invalid_parameter, none)
