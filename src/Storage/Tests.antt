-- ===== src/Storage/Tests.antt =====
-- Tests of the storage registry and of Block I/O, and witnesses of the theorems.
use crab_efi.Prelude.{
  ℕ, ◌-◌, ◌*◌, ◌^◌, ◌<◌, ◌≤◌, true, false, none, some, [], ◌∷◌, ◌≡◌, refl, if◌then◌else◌, ok, err,
  arith, get_elem?, ltb, take,
}
use crab_efi.Status.{success}
use crab_efi.Storage.{
  usb, StorageRegistry, new_registry, register_device, get_device, Drivers, read_sectors, free_slot,
}
use crab_efi.Storage.Registered.{Registration, register_all, numbered, get_device-register_all}
use crab_efi.Storage.BlockIo.{
  BlockIo, BlockIoContext, new_block_io, create_block_io_internal, find_context_index,
  block_io_read_blocks, read_each,
}
use crab_efi.Storage.Partition.{context_of}
use crab_efi.Storage.Reading.{read_blocks-isolated, read_blocks-wrapped}

-- A USB disk with blocks of two bytes, each of the block's number.
abbrev drivers : Drivers
drivers = record {
  usb_read = λ lba size. ok (lba ∷ lba ∷ []);
  nvme_read = λ controller_id. none;
  ahci_read = λ lba size. err tt;
  sdhci_read = λ lba size. err tt;
}

abbrev disk : Registration
disk = record { device_type = usb 1; num_blocks = 100; block_size = 2 }

abbrev registry : StorageRegistry
registry = register_all new_registry (disk ∷ [])

-- The partition of blocks 10 to 29.
abbrev partition : BlockIoContext
partition = record {
  media_id = 1;
  storage_device_id = 0;
  start_lba = 10;
  num_blocks = 20;
  block_size = 2;
}

abbrev with_partition : BlockIo
with_partition = (create_block_io_internal new_block_io partition true 4096 8192).0

reads_two_blocks :
    block_io_read_blocks registry drivers with_partition 8192 1 3 4 false
    ≡ some (success, 13 ∷ 13 ∷ 14 ∷ 14 ∷ [])
unfolding block_io_read_blocks create_block_io_internal find_context_index free_slot register_device
    read_sectors get_device
reads_two_blocks = refl

has_partition : context_of with_partition 8192 ≡ some partition
unfolding create_block_io_internal find_context_index free_slot
has_partition = refl

first_slot : free_slot new_block_io.contexts ≡ some 0
unfolding free_slot
first_slot = refl

get_device-register_all_example :
    get_device registry 0 ≡ get_elem? (numbered 0 (take 8 (disk ∷ []))) 0
get_device-register_all_example = get_device-register_all (disk ∷ []) 0

-- The same disk, with other blocks before the partition.
abbrev other_drivers : Drivers
other_drivers = record drivers {
  usb_read = λ lba size. if ltb lba 10 then err tt else ok (lba ∷ lba ∷ []);
}

drivers_agree :
    (block : ℕ)
    → 10 ≤ block
    → block < 30
    → read_sectors registry drivers 0 block 2 ≡ read_sectors registry other_drivers 0 block 2
unfolding read_sectors get_device register_device free_slot
drivers_agree block lo hi = let late : ltb block 10 ≡ false = ground arith in rw late refl

read_blocks-isolated_example :
    block_io_read_blocks registry drivers with_partition 8192 1 3 4 false
    ≡ block_io_read_blocks registry other_drivers with_partition 8192 1 3 4 false
read_blocks-isolated_example =
    read_blocks-isolated registry drivers other_drivers with_partition partition 8192 1 3 4 false
      has_partition (omega arith) (omega arith) drivers_agree

-- Blocks 8 to 11, the first two before the partition.
read_blocks-wrapped_example :
    block_io_read_blocks registry drivers with_partition 8192 1 (2 ^ 64 - 2) (4 * 2) false
    ≡ some (read_each (λ block. read_sectors registry drivers 0 block 2) (10 - 2) 0 4)
read_blocks-wrapped_example =
    read_blocks-wrapped registry drivers with_partition partition 8192 2 4 has_partition
      (λ e. absurd (omega (arith, e))) (omega arith) (omega arith) (omega arith) (omega arith)
      (omega arith) (omega arith) (omega arith)
