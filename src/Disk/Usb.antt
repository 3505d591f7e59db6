-- ===== src/Disk/Usb.antt =====
-- src/drivers/usb/mass_storage.rs: the reads of a USB mass storage device. A SCSI command is a
-- parameter: what it leaves in a slice of so many bytes, from its front on.
use crab_efi.Prelude.{ℕ, ◌*◌, ◌/◌, ◌%◌, ◌^◌, List, [], ◌∷◌, ◌++◌, ltb, leb, if◌then◌else◌, add64}
use crab_efi.Prelude.{Fallible, err}

pub data UsbError : Type 0 where
  not_ready timeout no_free_slots : UsbError
  command_failed : ℕ → UsbError
  allocation_failed device_not_found : UsbError
  transfer_failed : ℕ → UsbError
  invalid_parameter transaction_error stall toggle_error crc_error babble nak : UsbError
  disconnected : UsbError

pub data MassStorageError : Type 0 where
  usb : UsbError → MassStorageError
  invalid_csw command_failed phase_error not_ready invalid_parameter : MassStorageError

pub record UsbMassStorage : Type 0 where
  pub num_blocks : ℕ
  pub block_size : ℕ
  pub scsi_command : List ℕ → ℕ → Fallible MassStorageError (List ℕ)

-- `to_be_bytes`
abbrev pub be16 : ℕ → List ℕ
be16 n = n / 2 ^ 8 % 2 ^ 8 ∷ n % 2 ^ 8 ∷ []

abbrev pub be32 : ℕ → List ℕ
be32 n = n / 2 ^ 24 % 2 ^ 8 ∷ n / 2 ^ 16 % 2 ^ 8 ∷ be16 n

abbrev pub be64 : ℕ → List ℕ
be64 n = n / 2 ^ 56 % 2 ^ 8 ∷ n / 2 ^ 48 % 2 ^ 8 ∷ n / 2 ^ 40 % 2 ^ 8 ∷ n / 2 ^ 32 % 2 ^ 8 ∷ be32 n

abbrev pub read_10_command : ℕ → ℕ → List ℕ
read_10_command lba count = 0x28 ∷ 0 ∷ (be32 lba ++ (0 ∷ (be16 count ++ (0 ∷ []))))

abbrev pub read_16_command : ℕ → ℕ → List ℕ
read_16_command lba count = 0x88 ∷ 0 ∷ (be64 lba ++ (be32 count ++ (0 ∷ 0 ∷ [])))

-- The length of the slice is not more than the buffer has, since the caller has tested it.
abbrev pub read_10 : UsbMassStorage → ℕ → ℕ → Fallible MassStorageError (List ℕ)
read_10 device lba count =
    device.scsi_command (read_10_command lba count) (count * device.block_size)

abbrev pub read_16 : UsbMassStorage → ℕ → ℕ → Fallible MassStorageError (List ℕ)
read_16 device lba count =
    device.scsi_command (read_16_command lba count) (count * device.block_size)

-- A read into a buffer of that size: what is written from its front on. The casts `as u32` and `as u16`
-- are remainders.
unfoldable pub read_sectors_generic :
    UsbMassStorage → ℕ → ℕ → ℕ → Fallible MassStorageError (List ℕ)
read_sectors_generic device start_lba num_sectors size =
    if ltb size (num_sectors * device.block_size)
    then err MassStorageError.invalid_parameter
    else if leb (add64 start_lba num_sectors) 0xFFFFFFFF
    then read_10 device (start_lba % 2 ^ 32) (num_sectors % 2 ^ 16)
    else read_16 device start_lba num_sectors
