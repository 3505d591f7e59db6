-- ===== src/Protocols/FirstDevice.antt =====
-- src/efi/boot_services.rs: which device `locate_device_path` finds.
use crab_efi.Prelude.{
  ℕ, zero, suc, ◌+◌, ◌≤◌, ◌<◌, true, false, Option, none, some, List, [], ◌∷◌, ◌≡◌, ◌≢◌, ◌⊎◌, refl,
  ◌==◌, if◌then◌else◌, length, arith,
}
use crab_efi.Status.{success, not_found}
use crab_efi.Bytes.{Memory, le16}
use crab_efi.Protocols.{HandleEntry, ProtocolEntry, HandleDb, find_protocol, find_handle, is_some}
use crab_efi.Protocols.Lookup.{
  Valid, Rising, find_handle_below, interface_at, interface_in, interface_of,
}
use crab_efi.Protocols.DevicePath.{
  usable_path, or_later, find_device_path, walk_to_end, answer, PathReply, locate_device_path,
}

-- A device path in memory: nodes of these lengths that are not the end node, and the end node, of type
-- 0x7F and subtype 0xFF, behind them.
abbrev pub IsDevicePath : Memory → ℕ → List ℕ → Type 0
IsDevicePath mem dp [] = (mem dp ≡ 0x7F) × (mem (dp + 1) ≡ 0xFF)
IsDevicePath mem dp (len ∷ lens) =
    (mem dp ≢ 0x7F ⊎ mem (dp + 1) ≢ 0xFF)
    × (le16 mem (dp + 2) ≡ len)
    × (4 ≤ len)
    × IsDevicePath mem (dp + len) lens

abbrev pub path_end : ℕ → List ℕ → ℕ
path_end dp [] = dp
path_end dp (len ∷ lens) = path_end (dp + len) lens

walk_to_end-path_end :
    (fuel : ℕ) (mem : Memory) (dp : ℕ) (lens : List ℕ)
    → IsDevicePath mem dp lens
    → length lens < fuel
    → walk_to_end fuel mem dp ≡ some (path_end dp lens)
unfolding walk_to_end
walk_to_end-path_end zero mem dp lens p enough = absurd (omega arith)
walk_to_end-path_end (suc fuel) mem dp [] p enough = ground (arith, p)
walk_to_end-path_end (suc fuel) mem dp (len ∷ lens) p enough =
    ground (arith, p.0, p.1, p.2, walk_to_end-path_end fuel mem (dp + len) lens p.3 (omega arith))

-- Of the interface of a protocol and that of the device path: the second where there are both and it is
-- not null.
abbrev pub path_of : Option ℕ → Option ℕ → Option ℕ
path_of none path = none
path_of (some i) none = none
path_of (some i) (some zero) = none
path_of (some i) (some (suc dp)) = some (suc dp)

path_of-interface_of :
    (o : Option ProtocolEntry) (path : Option ℕ)
    → path_of (interface_of o) path ≡ usable_path (is_some o) path
path_of-interface_of none none = refl
path_of-interface_of none (some dp) = refl
path_of-interface_of (some p) none = refl
path_of-interface_of (some p) (some zero) = ground arith
path_of-interface_of (some p) (some (suc dp)) = ground arith

-- The device path of a handle that also carries a protocol.
abbrev pub device_at : HandleDb → ℕ → ℕ → ℕ → Option ℕ
device_at db device_path_guid guid handle =
    path_of (interface_at db handle guid) (interface_at db handle device_path_guid)

abbrev device_in : ℕ → ℕ → ℕ → List HandleEntry → Option ℕ
device_in d g k es = path_of (interface_in g (find_handle k es)) (interface_in d (find_handle k es))

device_in_cons :
    (d g k : ℕ) (e : HandleEntry) (es : List HandleEntry)
    → device_in d g k (e ∷ es) ≡ (
        if e.handle == k
        then usable_path
            (is_some (find_protocol g e.protocols))
            (interface_of (find_protocol d e.protocols))
        else device_in d g k es)
unfolding find_handle
device_in_cons d g k e es = ground (
  arith,
  path_of-interface_of (find_protocol g e.protocols) (interface_of (find_protocol d e.protocols)),
)

device_in_below :
    (lo next d g k : ℕ) (es : List HandleEntry)
    → Rising lo next es
    → k < lo
    → device_in d g k es ≡ none
device_in_below lo next d g k es r l = rw (find_handle_below lo next k es r l) refl

-- The handle with the least number that has a device, with its path, or none where no handle has one.
abbrev pub IsFirst : (ℕ → Option ℕ) → Option (ℕ × ℕ) → Type 0
IsFirst device none = (k : ℕ) → device k ≡ none
IsFirst device (some (k, dp)) = (device k ≡ some dp) × ((j : ℕ) → j < k → device j ≡ none)

or_later-IsFirst :
    (h : ℕ) (here : Option ℕ) (device rest : ℕ → Option ℕ) (found : Option (ℕ × ℕ))
    → ((k : ℕ) → device k ≡ (if h == k then here else rest k))
    → ((k : ℕ) → k < suc h → rest k ≡ none)
    → IsFirst rest found
    → IsFirst device (or_later h here found)
or_later-IsFirst h (some dp) device rest found step low first =
    (ground (arith, step h), λ j l. ground (arith, l, step j, low j))
or_later-IsFirst h none device rest none step low first = λ k. ground (arith, step k, first k)
or_later-IsFirst h none device rest (some (k, dp)) step low first =
    (ground (arith, step k, first.0, low k), λ j l. ground (arith, step j, first.1 j l))

find_device_path-IsFirst :
    (lo next d g : ℕ) (es : List HandleEntry)
    → Rising lo next es
    → IsFirst (λ k. device_in d g k es) (find_device_path d g es)
unfolding find_device_path
find_device_path-IsFirst lo next d g [] r = λ k. unfold find_handle in refl
find_device_path-IsFirst lo next d g (e ∷ es) r =
    or_later-IsFirst e.handle
      (usable_path (is_some (find_protocol g e.protocols))
        (interface_of (find_protocol d e.protocols)))
      (λ k. device_in d g k (e ∷ es)) (λ k. device_in d g k es) (find_device_path d g es)
      (λ k. device_in_cons d g k e es) (λ k l. device_in_below (suc e.handle) next d g k es r.3 l)
      (find_device_path-IsFirst (suc e.handle) next d g es r.3)

-- What `locate_device_path` answers by the device that it finds.
abbrev pub IsLocated : (ℕ → List ℕ) → Option (ℕ × ℕ) → Option PathReply → Type 0
IsLocated lens none reply = reply ≡ some (not_found, none)
IsLocated lens (some (k, dp)) reply = reply ≡ some (success, some (k, path_end dp (lens dp)))

answer-IsLocated :
    (fuel : ℕ) (mem : Memory) (lens : ℕ → List ℕ) (device : ℕ → Option ℕ) (found : Option (ℕ × ℕ))
    → ((k dp : ℕ) → device k ≡ some dp → IsDevicePath mem dp (lens dp) × (length (lens dp) < fuel))
    → IsFirst device found
    → IsLocated lens found (answer fuel mem found)
answer-IsLocated fuel mem lens device none paths first = refl
answer-IsLocated fuel mem lens device (some (k, dp)) paths first =
    let (path, enough) = paths k dp first.0 in
    rw (walk_to_end-path_end fuel mem dp (lens dp) path enough)

-- In a well-formed database, where the device paths that handles carry are paths in memory, of fewer
-- nodes than there is fuel for: `locate_device_path` gives the handle with the least number that carries
-- the protocol and a device path that is not null, and the end of that path; or NOT_FOUND, where no handle
-- carries both. This is so for every path that the caller gives and is not null: it is not compared with
-- any.
pub locate_device_path_lem :
    (d g fuel input_dp : ℕ) (mem : Memory) (db : HandleDb) (lens : ℕ → List ℕ)
    → Valid db
    → input_dp ≢ 0
    → ((k dp : ℕ)
        → device_at db d g k ≡ some dp
        → IsDevicePath mem dp (lens dp) × (length (lens dp) < fuel))
    → (found : Option (ℕ × ℕ)) × IsFirst (device_at db d g) found
      × IsLocated lens found (locate_device_path d fuel mem db (some g) (some input_dp) true)
unfolding locate_device_path
locate_device_path_lem d g fuel input_dp mem db lens v not_null paths =
    let found = find_device_path d g db.handles in
    let first : IsFirst (device_at db d g) found =
      unfold interface_at in find_device_path-IsFirst 1 db.next_handle d g db.handles v.rising in
    let given : (input_dp == 0) ≡ false = ground (arith, not_null) in
    (found, first, rw given (answer-IsLocated fuel mem lens (device_at db d g) found paths first))
