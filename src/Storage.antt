-- ===== src/Storage.antt =====
-- src/drivers/storage.rs: the registry of storage devices. The drivers that it reads through are a
-- parameter.
pub mod Registered
pub mod BlockIo
pub mod Partition
pub mod Reading
mod Tests
use crab_efi.Prelude.{
  ℕ, zero, suc, ◌+◌, Option, none, some, List, [], ◌∷◌, ◌==◌, if◌then◌else◌, Fallible, ok, err,
  replicate, set, add32,
}

abbrev pub max_storage_devices : ℕ
max_storage_devices = 8

pub data StorageType : Type 0 where
  usb : ℕ → StorageType
  nvme : ℕ → ℕ → StorageType
  ahci : ℕ → ℕ → StorageType
  sdhci : ℕ → StorageType

pub record StorageDevice : Type 0 where
  pub device_type : StorageType
  pub num_blocks : ℕ
  pub block_size : ℕ
  pub device_id : ℕ

pub record StorageRegistry : Type 0 where
  pub devices : List (Option StorageDevice)
  pub next_id : ℕ

-- `StorageRegistry::new`
abbrev pub new_registry : StorageRegistry
new_registry = record { devices = replicate max_storage_devices none; next_id = 0 }

-- `position(|slot| slot.is_none())`
pub free_slot : {A : Type 0} → List (Option A) → Option ℕ
free_slot [] = none
free_slot (none ∷ slots) = some 0
free_slot (some a ∷ slots) = elim (free_slot slots) [ none ↦ none | some i ↦ some (suc i) ]

abbrev pub register_at :
    StorageRegistry → StorageType → ℕ → ℕ → Option ℕ → StorageRegistry × Option ℕ
register_at r device_type num_blocks block_size none = (r, none)
register_at r device_type num_blocks block_size (some i) = (
  record {
    devices = set r.devices i (
        some (record {
          device_type = device_type;
          num_blocks = num_blocks;
          block_size = block_size;
          device_id = r.next_id;
        }));
    next_id = add32 r.next_id 1;
  },
  some r.next_id,
)

pub register_device : StorageRegistry → StorageType → ℕ → ℕ → StorageRegistry × Option ℕ
register_device r device_type num_blocks block_size =
    register_at r device_type num_blocks block_size (free_slot r.devices)

abbrev pub find_device : List (Option StorageDevice) → ℕ → Option StorageDevice
find_device [] id = none
find_device (none ∷ slots) id = find_device slots id
find_device (some d ∷ slots) id =
    let rest = find_device slots id in if d.device_id == id then some d else rest

pub get_device : StorageRegistry → ℕ → Option StorageDevice
get_device r id = find_device r.devices id

-- What a read gives: the bytes of the block, or the error `()`.
abbrev pub ReadResult : Type 0
ReadResult = Fallible (Unit {0}) (List ℕ)

-- The drivers: each gets the block's number and the size of the buffer. `nvme` is none where there is
-- no such controller.
pub record Drivers : Type 0 where
  pub usb_read : ℕ → ℕ → ReadResult
  pub nvme_read : ℕ → Option (ℕ → ℕ → ℕ → ReadResult)
  pub ahci_read : ℕ → ℕ → ReadResult
  pub sdhci_read : ℕ → ℕ → ReadResult

abbrev pub nvme_namespace : Option (ℕ → ℕ → ℕ → ReadResult) → ℕ → ℕ → ℕ → ReadResult
nvme_namespace none nsid lba size = err tt
nvme_namespace (some read_sector) nsid lba size = read_sector nsid lba size

-- The numbers of the slot, of the controller and of the port are used for NVMe only.
abbrev pub read_typed : Drivers → StorageType → ℕ → ℕ → ReadResult
read_typed drivers (usb slot_id) lba size = drivers.usb_read lba size
read_typed drivers (nvme controller_id nsid) lba size =
    nvme_namespace (drivers.nvme_read controller_id) nsid lba size
read_typed drivers (ahci controller_id port) lba size = drivers.ahci_read lba size
read_typed drivers (sdhci controller_id) lba size = drivers.sdhci_read lba size

abbrev pub read_registered : Drivers → Option StorageDevice → ℕ → ℕ → ReadResult
read_registered drivers none lba size = err tt
read_registered drivers (some device) lba size = read_typed drivers device.device_type lba size

-- A read into a buffer of that size.
pub read_sectors : StorageRegistry → Drivers → ℕ → ℕ → ℕ → ReadResult
read_sectors r drivers id lba size = read_registered drivers (get_device r id) lba size
