-- ===== src/Gpt.antt =====
-- src/fs/gpt.rs: the GUID partition table.
pub mod Scan
pub mod Ending
pub mod Table
pub mod Reading
mod Tests
use crab_efi.Prelude.{
  ℕ, ◌+◌, ◌-◌, ◌*◌, Bool, ◌&&◌, List, [], ◌∷◌, ◌==◌, leb, ltb, if◌then◌else◌, min, replicate,
}
use crab_efi.Bytes.{byte, le32, le64, bytes_at, bytes_eq}
use crab_efi.Disk.{BlockError, BlockDevice, Fallible, ok, err, map_err, ◌>>=◌, ◌>>◌, guard}

abbrev pub max_block_size : ℕ
max_block_size = 4096

abbrev pub min_block_size : ℕ
min_block_size = 512

abbrev pub gpt_signature : ℕ
gpt_signature = 0x5452415020494645

abbrev pub esp_type_guid : List ℕ
esp_type_guid =
    0x28 ∷ 0x73 ∷ 0x2a ∷ 0xc1 ∷ 0x1f ∷ 0xf8 ∷ 0xd2 ∷ 0x11 ∷ 0xba ∷ 0x4b ∷ 0x00 ∷ 0xa0 ∷ 0xc9 ∷ 0x3e
    ∷ 0xc9 ∷ 0x3b ∷ []

pub data GptError : Type 0 where
  read_error invalid_header no_partitions no_esp buffer_too_small : GptError

-- `From<BlockError>`
abbrev pub from_block_error : BlockError → GptError
from_block_error BlockError.invalid_parameter = buffer_too_small
from_block_error _ = read_error

-- The fields of the header that are used.
pub record GptHeader : Type 0 where
  pub signature : ℕ
  pub partition_entry_lba : ℕ
  pub num_partition_entries : ℕ
  pub partition_entry_size : ℕ

abbrev pub is_valid : GptHeader → Bool
is_valid h = h.signature == gpt_signature

-- A header at an offset in the buffer.
abbrev pub header_at : (ℕ → ℕ) → ℕ → GptHeader
header_at at offset = record {
  signature = le64 at offset;
  partition_entry_lba = le64 at (offset + 72);
  num_partition_entries = le32 at (offset + 80);
  partition_entry_size = le32 at (offset + 84);
}

-- The buffer of 4096 bytes is zero behind the block that is read.
unfoldable pub read_gpt_header : BlockDevice → Fallible GptError GptHeader
read_gpt_header device = do
  let block_size = min device.block_size max_block_size
  let hybrid = ltb min_block_size block_size
  let lba = if hybrid then 0 else 1
  let gpt_offset = if hybrid then min_block_size else 0
  buffer ← map_err from_block_error (device.read_block lba block_size)
  let header = header_at (byte buffer) gpt_offset
  guard (is_valid header) invalid_header
  ok header

pub record GptPartitionEntry : Type 0 where
  pub type_guid : List ℕ
  pub partition_guid : List ℕ
  pub first_lba : ℕ
  pub last_lba : ℕ
  pub attributes : ℕ

-- `size_of::<GptPartitionEntry>()`
abbrev pub entry_bytes : ℕ
entry_bytes = 128

-- `read_from_prefix(&buffer[pos..])`
unfoldable pub entry_at : (ℕ → ℕ) → ℕ → GptPartitionEntry
entry_at at pos = record {
  type_guid = bytes_at at pos 16;
  partition_guid = bytes_at at (pos + 16) 16;
  first_lba = le64 at (pos + 32);
  last_lba = le64 at (pos + 40);
  attributes = le64 at (pos + 48);
}

abbrev pub is_empty : GptPartitionEntry → Bool
is_empty e = bytes_eq e.type_guid (replicate 16 0)

abbrev pub is_esp : GptPartitionEntry → Bool
is_esp e = bytes_eq e.type_guid esp_type_guid

pub record Partition : Type 0 where
  pub type_guid : List ℕ
  pub partition_guid : List ℕ
  pub first_lba : ℕ
  pub last_lba : ℕ
  pub attributes : ℕ
  pub is_esp : Bool
  pub block_size : ℕ

-- `Partition::size_sectors`
unfoldable pub size_sectors : Partition → ℕ
size_sectors p = if leb p.first_lba p.last_lba then p.last_lba - p.first_lba + 1 else 0
