-- ===== src/Disk/CardReading.antt =====
-- src/drivers/block.rs: reads of an SD card.
use crab_efi.Prelude.{ℕ, ◌+◌, ◌≤◌, ◌<◌, ◌≡◌, arith, some, List, get_elem?, u64_mod}
use crab_efi.Disk.Sdhci.{SdhciController, sd_block_size}
use crab_efi.Disk.Devices.{
  Controllers, AnyBlockDevice, device_read_blocks, SdhciBlockDevice, new_sdhci,
}
use crab_efi.Disk.Borrowed.{create_sdhci_device}
use crab_efi.Disk.Transfer.{CardAnswers, sdhci_read_sectors-blocks_of}
use crab_efi.Disk.Serving.{IsRead, put_bytes-IsRead}

create_sdhci_device-new_sdhci :
    (c : Controllers) (controller : SdhciController) (device : SdhciBlockDevice)
    (controller_id media_id : ℕ)
    → get_elem? c.sdhci controller_id ≡ some controller
    → create_sdhci_device c controller_id media_id ≡ some device
    → new_sdhci controller_id controller.num_blocks controller.block_size media_id ≡ device
unfolding create_sdhci_device
create_sdhci_device-new_sdhci c controller device controller_id media_id found made =
    ground (arith, found, made)

-- Reads of an SD card through the device that was made of it, where the card answers the reads of blocks
-- below a limit with what it holds: any number of blocks, in one command or page by page, is read as the
-- card holds it. A buffer that is too short is written over.
pub sdhci_read_blocks_lem :
    (c : Controllers) (controller : SdhciController) (device : SdhciBlockDevice)
    (controller_id media_id limit lba n : ℕ) (content : ℕ → ℕ) (buffer : List ℕ)
    → get_elem? c.sdhci controller_id ≡ some controller
    → CardAnswers controller limit content
    → limit < u64_mod
    → create_sdhci_device c controller_id media_id ≡ some device
    → 1 ≤ n
    → lba + n ≤ limit
    → IsRead content sd_block_size lba n buffer
        (device_read_blocks c (AnyBlockDevice.sdhci device) lba n buffer)
unfolding device_read_blocks
sdhci_read_blocks_lem c controller device controller_id media_id limit lba n content buffer found
      card limited made some_read below =
    let same =
      create_sdhci_device-new_sdhci c controller device controller_id media_id found made in
    rw
      (
        ← same,
        found,
        sdhci_read_sectors-blocks_of controller limit content lba n card limited some_read below,
      )
      (put_bytes-IsRead content sd_block_size lba n buffer)
