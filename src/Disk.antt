-- ===== src/Disk.antt =====
-- src/drivers/block.rs: what the file systems and the partition table use of a block device: its block
-- size and an answer for each read. The devices behind it are in the child modules.
pub mod Nvme
pub mod Sdhci
pub mod Usb
pub mod Devices
pub mod Borrowed
pub mod Transfer
pub mod Serving
pub mod CardReading
pub mod UsbReading
pub mod Commands
mod Tests
pub use crab_efi.Prelude.{Fallible, ok, err, guard, ◌>>=◌, ◌>>◌, map_err}
use crab_efi.Prelude.{ℕ, ◌+◌, ◌*◌, ◌<◌, List, length, ◌≡◌, get_or}

pub data BlockError : Type 0 where
  device_error invalid_parameter out_of_range no_media media_changed : BlockError

-- `read_block lba size` is a read into a buffer of that many bytes: the bytes that it holds then.
pub record BlockDevice : Type 0 where
  pub block_size : ℕ
  pub read_block : ℕ → ℕ → Fallible BlockError (List ℕ)

-- A device with blocks of the size, that holds this content and answers every read of a block.
pub record Holds (device : BlockDevice) (size : ℕ) (content : ℕ → ℕ) : Type 0 where
  pub sized : device.block_size ≡ size
  pub block : ℕ → List ℕ
  pub reads : (lba : ℕ) → device.read_block lba size ≡ ok (block lba)
  pub length_block : (lba : ℕ) → length (block lba) ≡ size
  pub held : (lba i : ℕ) → i < size → get_or (block lba) i 0 ≡ content (lba * size + i)
