-- ===== src/Protocols/Tests.antt =====
-- The theorems on the handle database at concrete inputs.
use crab_efi.Prelude.{
  inl, List, take, ℕ, ◌-◌, ◌<◌, Option, subst, true, none, some, [], ◌∷◌, ◌≡◌, refl, ◌&&◌, ◌==◌,
  if◌then◌else◌, arith,
}
use crab_efi.Status.{success}
use crab_efi.Protocols.{
  max_pairs, HandleDb, find_handle, find_protocol, is_some, install_protocol,
  uninstall_multiple_protocol_interfaces,
}
use crab_efi.Protocols.Locate.{matching, locate_handle}
use crab_efi.Protocols.Lookup.{Valid, interface_at}
use crab_efi.Protocols.Install.{Installs, install_protocol_lem}
use crab_efi.Protocols.Handles.{contains, uninstall_lem}
use crab_efi.Bytes.{Memory, byte}
use crab_efi.Protocols.DevicePath.{locate_device_path, find_device_path, walk_to_end}
use crab_efi.Protocols.FirstDevice.{
  IsDevicePath, device_at, IsFirst, IsLocated, locate_device_path_lem,
}
use crab_efi.Protocols.Locating.{Ascending, locate_handle_lem}

-- Handle 1 carries GUIDs 10 and 20, handle 2 carries 20.
abbrev demo : HandleDb
demo = record {
  handles =
      record {
        handle = 1;
        protocols =
            record { guid = 10; interface = 100 } ∷ record { guid = 20; interface = 101 } ∷ [];
      }
      ∷ record { handle = 2; protocols = record { guid = 20; interface = 200 } ∷ [] }
      ∷ [];
  next_handle = 3;
}

demo-Valid : Valid demo
unfolding find_protocol
demo-Valid = record {
  rising = (
    omega arith,
    (refl, (refl, tt)),
    omega arith,
    (omega arith, (refl, tt), omega arith, omega arith),
  );
  within = omega arith;
}

install_protocol_lem_example : Installs demo 2 10 201 (install_protocol demo 2 10 201)
install_protocol_lem_example = install_protocol_lem demo 2 10 201 demo-Valid

-- GUID 10 stands in the fifth place, which is not looked at.
abbrev five_guids : List ℕ
five_guids = 20 ∷ 30 ∷ 40 ∷ 50 ∷ 10 ∷ []

uninstall_lem_example :
    let (db', s) = uninstall_multiple_protocol_interfaces demo 1 five_guids in
    (s ≡ success)
    × Valid db'
    × ((k j : ℕ)
        → interface_at db' k j ≡ (
            if 1 == k && contains j (take max_pairs five_guids)
            then none
            else interface_at demo k j))
uninstall_lem_example = uninstall_lem demo 1 five_guids demo-Valid (omega arith)

matching-demo : matching 20 demo.handles ≡ 1 ∷ 2 ∷ []
unfolding matching find_protocol
matching-demo = refl

locate_handle_lem_example :
    let r = locate_handle demo true (some 20) (some 16) true in
    ((k : ℕ) → contains k r.handles ≡ is_some (interface_at demo k 20)) × Ascending 1 r.handles
locate_handle_lem_example = locate_handle_lem demo 20 16 demo-Valid (rw matching-demo (omega arith))

-- One node at 100, and the end behind it.
abbrev path_memory : Memory
path_memory a = byte (4 ∷ 6 ∷ 4 ∷ 0 ∷ 0x7F ∷ 0xFF ∷ 4 ∷ 0 ∷ []) (a - 100)

only_device : (k dp : ℕ) → device_at demo 10 20 k ≡ some dp → 100 ≡ dp
unfolding interface_at find_handle find_protocol
only_device k dp e = ground (arith, e)

locate_device_path_lem_example :
    (found : Option (ℕ × ℕ)) × IsFirst (device_at demo 10 20) found
    × IsLocated
        (λ _. 4 ∷ [])
        found
        (locate_device_path 10 2 path_memory demo (some 20) (some 7) true)
locate_device_path_lem_example =
    locate_device_path_lem 10 20 2 7 path_memory demo (λ _. 4 ∷ []) demo-Valid (omega arith)
      (λ k dp e.
        subst (λ a. IsDevicePath path_memory a (4 ∷ []) × (1 < 2)) (only_device k dp e)
          ((inl (omega arith), refl, omega arith, (refl, refl)), omega arith))

finds_handle_1 :
    locate_device_path 10 2 path_memory demo (some 20) (some 7) true ≡ some (success, some (1, 104))
unfolding locate_device_path find_device_path walk_to_end find_protocol
finds_handle_1 = refl
