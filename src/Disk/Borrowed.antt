-- ===== src/Disk/Borrowed.antt =====
-- src/drivers/block.rs: the devices over a borrowed controller, and the devices that are made from what
-- a controller tells of itself.
use crab_efi.Prelude.{
  ℕ, Bool, true, false, Option, none, some, List, get_elem?, length, if◌then◌else◌,
}
use crab_efi.Prelude.{map_err}
use crab_efi.Disk.Nvme.{NvmeController, NvmeNamespace, failed, get_namespace, nvme_read_sectors}
use crab_efi.Disk.Sdhci.{SdhciController, card_is_ready, sdhci_read_sectors}
use crab_efi.Disk.Usb.{UsbMassStorage, read_sectors_generic}
use crab_efi.Disk.Devices.{
  AhciPort, AhciController, Controllers, BlockDeviceInfo, BufferRead, put_result, from_nvme,
  from_ahci, from_mass_storage, from_sdhci, NvmeBlockDevice, new_nvme, AhciBlockDevice, new_ahci,
  SdhciBlockDevice, new_sdhci,
}

-- What is told of a device that does not exist, and of one that does.
abbrev pub no_info : BlockDeviceInfo
no_info = record {
  num_blocks = 0;
  block_size = 512;
  media_id = 0;
  removable = false;
  read_only = true;
}

abbrev pub disk_info : Bool → ℕ → ℕ → BlockDeviceInfo
disk_info removable num_blocks block_size = record {
  num_blocks = num_blocks;
  block_size = block_size;
  media_id = 0;
  removable = removable;
  read_only = false;
}

abbrev pub namespace_info : Option NvmeNamespace → BlockDeviceInfo
namespace_info none = no_info
namespace_info (some ns) = disk_info false ns.num_blocks ns.block_size

pub record NvmeDisk : Type 0 where
  pub controller : NvmeController
  pub nsid : ℕ

abbrev pub nvme_disk_info : NvmeDisk → BlockDeviceInfo
nvme_disk_info disk = namespace_info (get_namespace disk.controller disk.nsid)

abbrev pub nvme_disk_read : NvmeDisk → ℕ → ℕ → List ℕ → BufferRead
nvme_disk_read disk lba count buffer =
    put_result from_nvme buffer (nvme_read_sectors disk.controller disk.nsid lba count)

abbrev pub port_info : Option AhciPort → BlockDeviceInfo
port_info none = no_info
port_info (some port) = disk_info false port.sector_count port.sector_size

pub record AhciDisk : Type 0 where
  pub controller : AhciController
  pub port : ℕ

abbrev pub ahci_disk_info : AhciDisk → BlockDeviceInfo
ahci_disk_info disk = port_info (get_elem? disk.controller.ports disk.port)

abbrev pub ahci_disk_read : AhciDisk → ℕ → ℕ → List ℕ → BufferRead
ahci_disk_read disk lba count buffer =
    put_result from_ahci buffer (map_err failed (disk.controller.ahci_command disk.port lba count))

abbrev pub usb_disk_info : UsbMassStorage → BlockDeviceInfo
usb_disk_info device = disk_info true device.num_blocks device.block_size

abbrev pub usb_disk_read : UsbMassStorage → ℕ → ℕ → List ℕ → BufferRead
usb_disk_read device lba count buffer =
    put_result from_mass_storage buffer
      (map_err failed (read_sectors_generic device lba count (length buffer)))

abbrev pub sdhci_disk_info : SdhciController → BlockDeviceInfo
sdhci_disk_info controller = disk_info true controller.num_blocks controller.block_size

abbrev pub sdhci_disk_read : SdhciController → ℕ → ℕ → List ℕ → BufferRead
sdhci_disk_read controller lba count buffer =
    put_result from_sdhci buffer (sdhci_read_sectors controller lba count)

-- `create_nvme_device`, from the namespace, from the controller, and from its number.
abbrev pub with_namespace : ℕ → ℕ → ℕ → Option NvmeNamespace → Option NvmeBlockDevice
with_namespace controller_id nsid media_id none = none
with_namespace controller_id nsid media_id (some ns) =
    some (new_nvme controller_id nsid ns.num_blocks ns.block_size media_id)

abbrev pub with_nvme : ℕ → ℕ → ℕ → Option NvmeController → Option NvmeBlockDevice
with_nvme controller_id nsid media_id none = none
with_nvme controller_id nsid media_id (some controller) =
    with_namespace controller_id nsid media_id (get_namespace controller nsid)

unfoldable pub create_nvme_device : Controllers → ℕ → ℕ → ℕ → Option NvmeBlockDevice
create_nvme_device c controller_id nsid media_id =
    with_nvme controller_id nsid media_id (get_elem? c.nvme controller_id)

abbrev pub with_port : ℕ → ℕ → ℕ → Option AhciPort → Option AhciBlockDevice
with_port controller_id port media_id none = none
with_port controller_id port media_id (some p) =
    some (new_ahci controller_id port p.sector_count p.sector_size media_id)

abbrev pub with_ahci : ℕ → ℕ → ℕ → Option AhciController → Option AhciBlockDevice
with_ahci controller_id port media_id none = none
with_ahci controller_id port media_id (some controller) =
    with_port controller_id port media_id (get_elem? controller.ports port)

unfoldable pub create_ahci_device : Controllers → ℕ → ℕ → ℕ → Option AhciBlockDevice
create_ahci_device c controller_id port media_id =
    with_ahci controller_id port media_id (get_elem? c.ahci controller_id)

abbrev pub with_card : ℕ → ℕ → Option SdhciController → Option SdhciBlockDevice
with_card controller_id media_id none = none
with_card controller_id media_id (some controller) =
    if card_is_ready controller
    then some (new_sdhci controller_id controller.num_blocks controller.block_size media_id)
    else none

unfoldable pub create_sdhci_device : Controllers → ℕ → ℕ → Option SdhciBlockDevice
create_sdhci_device c controller_id media_id =
    with_card controller_id media_id (get_elem? c.sdhci controller_id)
