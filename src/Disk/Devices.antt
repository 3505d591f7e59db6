-- ===== src/Disk/Devices.antt =====
-- src/drivers/block.rs: the devices that the drivers make. The reads of an AHCI controller, and those of
-- the one USB device that `global_read_sector` asks, are parameters.
use crab_efi.Prelude.{
  ℕ, zero, suc, ◌+◌, ◌-◌, ◌*◌, Bool, true, false, List, [], ◌++◌, ltb, if◌then◌else◌, length, take,
  drop, get_elem?, add64,
}
use crab_efi.Prelude.{Fallible, ok, err, ◌>>=◌, map_err}
use crab_efi.Disk.{BlockError}
use crab_efi.Disk.Nvme.{
  NvmeError, NvmeController, TransferFault, failed, endless, ok_or_error, nvme_read_sectors,
}
use crab_efi.Disk.Sdhci.{SdhciError, SdhciController, sdhci_read_sectors}
use crab_efi.Disk.Usb.{MassStorageError}

pub data AhciError : Type 0 where
  no_device port_not_ready command_failed timeout allocation_failed invalid_parameter : AhciError

pub record AhciPort : Type 0 where
  pub sector_count : ℕ
  pub sector_size : ℕ

-- `read_sectors` with a port, a block and a count: what is written from the caller's pointer on.
pub record AhciController : Type 0 where
  pub ports : List AhciPort
  pub ahci_command : ℕ → ℕ → ℕ → Fallible AhciError (List ℕ)

-- The global arrays of controllers. `usb_read lba size` is `global_read_sector` into a slice of that
-- size.
pub record Controllers : Type 0 where
  pub nvme : List NvmeController
  pub ahci : List AhciController
  pub sdhci : List SdhciController
  pub usb_read : ℕ → ℕ → Fallible (Unit {0}) (List ℕ)

pub record BlockDeviceInfo : Type 0 where
  pub num_blocks : ℕ
  pub block_size : ℕ
  pub media_id : ℕ
  pub removable : Bool
  pub read_only : Bool

-- `BlockError::from`
abbrev pub from_nvme : NvmeError → BlockError
from_nvme NvmeError.invalid_namespace = BlockError.no_media
from_nvme NvmeError.invalid_parameter = BlockError.invalid_parameter
from_nvme _ = BlockError.device_error

abbrev pub from_ahci : AhciError → BlockError
from_ahci AhciError.no_device = BlockError.no_media
from_ahci AhciError.invalid_parameter = BlockError.invalid_parameter
from_ahci _ = BlockError.device_error

abbrev pub from_mass_storage : MassStorageError → BlockError
from_mass_storage MassStorageError.not_ready = BlockError.no_media
from_mass_storage MassStorageError.invalid_parameter = BlockError.invalid_parameter
from_mass_storage _ = BlockError.device_error

abbrev pub from_sdhci : SdhciError → BlockError
from_sdhci SdhciError.no_card = BlockError.no_media
from_sdhci SdhciError.invalid_parameter = BlockError.invalid_parameter
from_sdhci SdhciError.not_initialized = BlockError.no_media
from_sdhci _ = BlockError.device_error

-- An error, a panic, and a loop of a driver that does not end.
pub data BlockFault : Type 0 where
  error : BlockError → BlockFault
  panic stuck : BlockFault

abbrev pub from_fault : {E : Type 0} → (E → BlockError) → TransferFault E → BlockFault
from_fault from (failed e) = error (from e)
from_fault from endless = stuck

-- The buffer after a write through its pointer, and the bytes that are written behind it.
pub record Written : Type 0 where
  pub buffer : List ℕ
  pub behind : List ℕ

abbrev pub put_bytes : List ℕ → List ℕ → Written
put_bytes buffer bytes = record {
  buffer = take (length buffer) bytes ++ drop (length bytes) buffer;
  behind = drop (length buffer) bytes;
}

abbrev pub BufferRead : Type 0
BufferRead = Fallible BlockFault Written

abbrev pub put_result :
    {E : Type 0} → (E → BlockError) → List ℕ → Fallible (TransferFault E) (List ℕ) → BufferRead
put_result from buffer result =
    map_err (from_fault from) result >>= λ bytes. ok (put_bytes buffer bytes)

pub record NvmeBlockDevice : Type 0 where
  pub controller_id : ℕ
  pub nsid : ℕ
  pub info : BlockDeviceInfo

abbrev pub new_nvme : ℕ → ℕ → ℕ → ℕ → ℕ → NvmeBlockDevice
new_nvme controller_id nsid num_blocks block_size media_id = record {
  controller_id = controller_id;
  nsid = nsid;
  info = record {
    num_blocks = num_blocks;
    block_size = block_size;
    media_id = media_id;
    removable = false;
    read_only = false;
  };
}

abbrev pub nvme_read_blocks : Controllers → NvmeBlockDevice → ℕ → ℕ → List ℕ → BufferRead
nvme_read_blocks c device lba count buffer =
    ok_or_error (get_elem? c.nvme device.controller_id) (error BlockError.device_error)
    >>= λ controller.
        put_result from_nvme buffer (nvme_read_sectors controller device.nsid lba count)

pub record AhciBlockDevice : Type 0 where
  pub controller_id : ℕ
  pub port : ℕ
  pub info : BlockDeviceInfo

abbrev pub new_ahci : ℕ → ℕ → ℕ → ℕ → ℕ → AhciBlockDevice
new_ahci controller_id port num_blocks block_size media_id = record {
  controller_id = controller_id;
  port = port;
  info = record {
    num_blocks = num_blocks;
    block_size = block_size;
    media_id = media_id;
    removable = false;
    read_only = false;
  };
}

abbrev pub ahci_read_blocks : Controllers → AhciBlockDevice → ℕ → ℕ → List ℕ → BufferRead
ahci_read_blocks c device lba count buffer =
    ok_or_error (get_elem? c.ahci device.controller_id) (error BlockError.device_error)
    >>= λ controller.
        put_result from_ahci buffer (map_err failed (controller.ahci_command device.port lba count))

pub record UsbBlockDevice : Type 0 where
  pub controller_id : ℕ
  pub device_addr : ℕ
  pub info : BlockDeviceInfo

abbrev pub new_usb : ℕ → ℕ → ℕ → ℕ → ℕ → UsbBlockDevice
new_usb controller_id device_addr num_blocks block_size media_id = record {
  controller_id = controller_id;
  device_addr = device_addr;
  info = record {
    num_blocks = num_blocks;
    block_size = block_size;
    media_id = media_id;
    removable = true;
    read_only = false;
  };
}

-- `global_read_sector` into `&mut buffer[offset..]`, which is a panic behind the end of the buffer.
abbrev pub read_slice : Controllers → ℕ → ℕ → List ℕ → Fallible BlockFault (List ℕ)
read_slice c lba offset buffer =
    if ltb (length buffer) offset
    then err panic
    else (map_err (λ e. error BlockError.device_error) (c.usb_read lba (length buffer - offset))
        >>= λ bytes. ok (take offset buffer ++ (put_bytes (drop offset buffer) bytes).buffer))

-- The loop over the other blocks, from the i-th on.
unfoldable pub read_others : Controllers → ℕ → ℕ → ℕ → ℕ → List ℕ → Fallible BlockFault (List ℕ)
read_others c block_size lba zero i buffer = ok buffer
read_others c block_size lba (suc n) i buffer =
    read_slice c (add64 lba i) (i * block_size) buffer >>= λ written.
    read_others c block_size lba n (i + 1) written

-- A read of no blocks reads one, as in the source.
abbrev pub usb_read_blocks : Controllers → UsbBlockDevice → ℕ → ℕ → List ℕ → BufferRead
usb_read_blocks c device lba count buffer = read_slice c lba 0 buffer >>= λ first.
    (read_others c device.info.block_size lba (count - 1) 1 first >>= λ written.
    ok (record { buffer = written; behind = [] }))

pub record SdhciBlockDevice : Type 0 where
  pub controller_id : ℕ
  pub info : BlockDeviceInfo

abbrev pub new_sdhci : ℕ → ℕ → ℕ → ℕ → SdhciBlockDevice
new_sdhci controller_id num_blocks block_size media_id = record {
  controller_id = controller_id;
  info = record {
    num_blocks = num_blocks;
    block_size = block_size;
    media_id = media_id;
    removable = true;
    read_only = false;
  };
}

abbrev pub sdhci_read_blocks : Controllers → SdhciBlockDevice → ℕ → ℕ → List ℕ → BufferRead
sdhci_read_blocks c device lba count buffer =
    ok_or_error (get_elem? c.sdhci device.controller_id) (error BlockError.device_error)
    >>= λ controller. put_result from_sdhci buffer (sdhci_read_sectors controller lba count)

pub data AnyBlockDevice : Type 0 where
  nvme : NvmeBlockDevice → AnyBlockDevice
  ahci : AhciBlockDevice → AnyBlockDevice
  usb : UsbBlockDevice → AnyBlockDevice
  sdhci : SdhciBlockDevice → AnyBlockDevice

abbrev pub info_of : AnyBlockDevice → BlockDeviceInfo
info_of (AnyBlockDevice.nvme device) = device.info
info_of (AnyBlockDevice.ahci device) = device.info
info_of (AnyBlockDevice.usb device) = device.info
info_of (AnyBlockDevice.sdhci device) = device.info

unfoldable pub device_read_blocks : Controllers → AnyBlockDevice → ℕ → ℕ → List ℕ → BufferRead
device_read_blocks c (AnyBlockDevice.nvme device) lba count buffer =
    nvme_read_blocks c device lba count buffer
device_read_blocks c (AnyBlockDevice.ahci device) lba count buffer =
    ahci_read_blocks c device lba count buffer
device_read_blocks c (AnyBlockDevice.usb device) lba count buffer =
    usb_read_blocks c device lba count buffer
device_read_blocks c (AnyBlockDevice.sdhci device) lba count buffer =
    sdhci_read_blocks c device lba count buffer

abbrev pub device_read_block : Controllers → AnyBlockDevice → ℕ → List ℕ → BufferRead
device_read_block c device lba buffer = device_read_blocks c device lba 1 buffer
