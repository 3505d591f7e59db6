-- ===== src/Disk/Sdhci.antt =====
-- src/drivers/sdhci/mod.rs: the reads of an SD card. The command itself is a parameter: what the DMA
-- buffer holds after it.
use crab_efi.Prelude.{ℕ, ◌*◌, ◌/◌, ◌%◌, ◌^◌, Bool, ◌&&◌, not, List, ◌==◌, ltb, if◌then◌else◌, take}
use crab_efi.Prelude.{Fallible, ok, err, ◌>>=◌, map_err}
use crab_efi.Disk.Nvme.{TransferFault, failed, dma_size, read_pages}

pub data SdhciError : Type 0 where
  not_initialized reset_failed no_card card_init_failed command_timeout : SdhciError
  command_crc_error command_index_error command_end_bit_error data_timeout : SdhciError
  data_crc_error data_end_bit_error dma_error invalid_parameter allocation_failed : SdhciError
  clock_failed generic_error : SdhciError

abbrev pub sd_block_size : ℕ
sd_block_size = 512

-- The command takes its argument and the number of blocks, as the registers have them.
pub record SdhciController : Type 0 where
  pub card_present : Bool
  pub card_initialized : Bool
  pub high_capacity : Bool
  pub num_blocks : ℕ
  pub block_size : ℕ
  pub read_command : ℕ → ℕ → Fallible SdhciError (List ℕ)

abbrev pub card_is_ready : SdhciController → Bool
card_is_ready controller = controller.card_present && controller.card_initialized

-- A block number, or a byte address for a card of standard capacity.
abbrev pub argument : SdhciController → ℕ → ℕ
argument controller start_lba =
    if controller.high_capacity then start_lba % 2 ^ 32 else (start_lba * sd_block_size) % 2 ^ 32

abbrev pub sd_read_internal : SdhciController → ℕ → ℕ → Fallible SdhciError (List ℕ)
sd_read_internal controller start_lba count =
    controller.read_command (argument controller start_lba) (count % 2 ^ 16) >>= λ dma.
    ok (take (count * sd_block_size) dma)

unfoldable pub sdhci_read_sectors :
    SdhciController → ℕ → ℕ → Fallible (TransferFault SdhciError) (List ℕ)
sdhci_read_sectors controller start_lba count =
    if not controller.card_initialized
    then err (failed SdhciError.not_initialized)
    else if count == 0
    then err (failed SdhciError.invalid_parameter)
    else if ltb dma_size (count * sd_block_size)
    then read_pages (sd_read_internal controller) (dma_size / sd_block_size) count start_lba count
    else map_err failed (sd_read_internal controller start_lba count)
