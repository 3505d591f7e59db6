-- ===== src/Fat.antt =====
-- src/fs/fat.rs: the FAT file system: its geometry, as it is read from the boot sector, and where a
-- sector and a cluster lie on the device.
pub mod Chain
pub mod Cluster
pub mod Directory
pub mod File
pub mod Geometry
pub mod Sample
mod Tests
use crab_efi.Prelude.{
  ℕ, ◌+◌, ◌-◌, ◌*◌, ◌/◌, ◌%◌, Bool, ◌||◌, List, [], ◌∷◌, Option, none, some, ◌==◌, leb, ltb,
  if◌then◌else◌, min, not, false, add32, checked_add, checked_add32, checked_mul32, mul32, sub32,
}
use crab_efi.Bytes.{byte, le16, le32}
use crab_efi.Disk.{BlockError, BlockDevice, Fallible, ok, err, map_err, ◌>>=◌, ◌>>◌, guard}

abbrev pub sector_size : ℕ
sector_size = 512

abbrev pub max_block_size : ℕ
max_block_size = 4096

pub data FatType : Type 0 where
  fat12 fat16 fat32 : FatType

pub data FatError : Type 0 where
  invalid_bpb read_error not_fat not_found not_a_file not_a_directory end_of_file : FatError
  invalid_cluster buffer_too_small : FatError

pub record FatFilesystem : Type 0 where
  pub device : BlockDevice
  pub partition_start : ℕ
  pub fat_type : FatType
  pub bytes_per_sector : ℕ
  pub device_block_size : ℕ
  pub sectors_per_cluster : ℕ
  pub fat_start : ℕ
  pub sectors_per_fat : ℕ
  pub data_start : ℕ
  pub root_cluster : ℕ
  pub root_dir_start : ℕ
  pub root_dir_sectors : ℕ
  pub data_clusters : ℕ

-- The fields of the boot sector that are used.
pub record BiosParameterBlock : Type 0 where
  pub bytes_per_sector : ℕ
  pub sectors_per_cluster : ℕ
  pub reserved_sectors : ℕ
  pub num_fats : ℕ
  pub root_entry_count : ℕ
  pub total_sectors_16 : ℕ
  pub sectors_per_fat_16 : ℕ
  pub total_sectors_32 : ℕ

abbrev pub bpb_at : (ℕ → ℕ) → BiosParameterBlock
bpb_at at = record {
  bytes_per_sector = le16 at 11;
  sectors_per_cluster = at 13;
  reserved_sectors = le16 at 14;
  num_fats = at 16;
  root_entry_count = le16 at 17;
  total_sectors_16 = le16 at 19;
  sectors_per_fat_16 = le16 at 22;
  total_sectors_32 = le32 at 32;
}

pub record Fat32Ebr : Type 0 where
  pub sectors_per_fat_32 : ℕ
  pub ebr_root_cluster : ℕ

abbrev pub ebr_at : (ℕ → ℕ) → Fat32Ebr
ebr_at at = record { sectors_per_fat_32 = le32 at 36; ebr_root_cluster = le32 at 44 }

unfoldable pub contains : List ℕ → ℕ → Bool
contains [] n = false
contains (m ∷ ms) n = m == n || contains ms n

abbrev pub valid_sector_sizes : List ℕ
valid_sector_sizes = 512 ∷ 1024 ∷ 2048 ∷ 4096 ∷ []

-- `is_power_of_two` of a `u8`.
abbrev pub powers_of_two : List ℕ
powers_of_two = 1 ∷ 2 ∷ 4 ∷ 8 ∷ 16 ∷ 32 ∷ 64 ∷ 128 ∷ []

abbrev pub div_ceil : ℕ → ℕ → ℕ
div_ceil a b = (a + (b - 1)) / b

abbrev pub type_of_clusters : ℕ → FatType
type_of_clusters n =
    if ltb n 4085 then FatType.fat12 else if ltb n 65525 then FatType.fat16 else FatType.fat32

abbrev pub root_cluster_of : FatType → Fat32Ebr → ℕ
root_cluster_of FatType.fat32 ebr = ebr.ebr_root_cluster
root_cluster_of _ ebr = 0

-- The file system of a boot sector that has passed the tests; the sums wrap.
abbrev pub of_bpb : BlockDevice → ℕ → ℕ → BiosParameterBlock → Fat32Ebr → FatFilesystem
of_bpb device partition_start block_size bpb ebr =
    let root_dir_sectors = div_ceil (bpb.root_entry_count * 32) bpb.bytes_per_sector in
    let sectors_per_fat =
      if not (bpb.sectors_per_fat_16 == 0)
      then bpb.sectors_per_fat_16
      else ebr.sectors_per_fat_32 in
    let total_sectors =
      if not (bpb.total_sectors_16 == 0) then bpb.total_sectors_16 else bpb.total_sectors_32 in
    let root_dir_start = add32 bpb.reserved_sectors (mul32 bpb.num_fats sectors_per_fat) in
    let data_start = add32 root_dir_start root_dir_sectors in
    let data_clusters = sub32 total_sectors data_start / bpb.sectors_per_cluster in
    let fat_type = type_of_clusters data_clusters in
    record {
      device = device;
      partition_start = partition_start;
      fat_type = fat_type;
      bytes_per_sector = bpb.bytes_per_sector;
      device_block_size = block_size;
      sectors_per_cluster = bpb.sectors_per_cluster;
      fat_start = bpb.reserved_sectors;
      sectors_per_fat = sectors_per_fat;
      data_start = data_start;
      root_cluster = root_cluster_of fat_type ebr;
      root_dir_start = root_dir_start;
      root_dir_sectors = root_dir_sectors;
      data_clusters = data_clusters;
    }

-- The tests of the boot sector.
unfoldable pub check_bpb :
    BlockDevice → ℕ → ℕ → BiosParameterBlock → Fat32Ebr → Fallible FatError FatFilesystem
check_bpb device partition_start block_size bpb ebr = do
  guard (contains valid_sector_sizes bpb.bytes_per_sector) FatError.invalid_bpb
  guard
      (not (
        bpb.sectors_per_cluster == 0
        || ltb 128 bpb.sectors_per_cluster
        || not (contains powers_of_two bpb.sectors_per_cluster)))
      FatError.invalid_bpb
  guard (not (bpb.num_fats == 0 || ltb 2 bpb.num_fats)) FatError.invalid_bpb
  guard (not (bpb.reserved_sectors == 0)) FatError.invalid_bpb
  ok (of_bpb device partition_start block_size bpb ebr)

abbrev pub read_boot : BlockDevice → ℕ → ℕ → Fallible FatError (List ℕ)
read_boot device partition_start block_size =
    map_err (λ _. FatError.read_error) (device.read_block partition_start block_size)

-- `FatFilesystem::new`. The buffer of 4096 bytes is zero behind the block that is read.
unfoldable pub new_fat : BlockDevice → ℕ → Fallible FatError FatFilesystem
new_fat device partition_start =
    let block_size = min device.block_size max_block_size in
    read_boot device partition_start block_size >>= λ buffer.
    check_bpb device partition_start block_size (bpb_at (byte buffer)) (ebr_at (byte buffer))

-- The block, from the start of the partition on, and the offset in it.
abbrev pub fat_sector_to_device_block : FatFilesystem → ℕ → ℕ × ℕ
fat_sector_to_device_block fs fat_sector =
    let byte_offset = fat_sector * fs.bytes_per_sector in
    if fs.bytes_per_sector == fs.device_block_size
    then (fat_sector, 0)
    else (byte_offset / fs.device_block_size, byte_offset % fs.device_block_size)

abbrev pub in_block : ℕ → Option ℕ → Option (ℕ × ℕ)
in_block offset none = none
in_block offset (some block) = some (block, offset)

abbrev pub on_device : FatFilesystem → Option ℕ → Option (ℕ × ℕ)
on_device fs none = none
on_device fs (some fat_sector) =
    let (block, offset) = fat_sector_to_device_block fs fat_sector in
    in_block offset (checked_add fs.partition_start block)

abbrev pub sector_of : FatFilesystem → Option ℕ → Option ℕ
sector_of fs none = none
sector_of fs (some cluster_offset) = checked_add32 fs.data_start cluster_offset

unfoldable pub cluster_to_device_block : FatFilesystem → ℕ → Option (ℕ × ℕ)
cluster_to_device_block fs cluster =
    if ltb cluster 2
    then none
    else if leb fs.data_clusters (cluster - 2)
    then none
    else on_device fs (sector_of fs (checked_mul32 (cluster - 2) fs.sectors_per_cluster))

-- A cluster in bytes.
abbrev pub cluster_bytes : FatFilesystem → ℕ
cluster_bytes fs = fs.sectors_per_cluster * fs.bytes_per_sector
