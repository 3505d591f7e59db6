-- ===== src/Fat/Chain.antt =====
-- src/fs/fat.rs: `next_cluster`, an entry of the file allocation table.
pub mod Entry
use crab_efi.Prelude.{
  ℕ, ◌+◌, ◌-◌, ◌*◌, ◌/◌, ◌%◌, Option, none, some, ◌==◌, leb, ltb, if◌then◌else◌, add64, List, ◌^◌,
}
use crab_efi.Bytes.{byte, combine, le32}
use crab_efi.Disk.{Fallible, ok, err, map_err, ◌>>=◌}
use crab_efi.Fat.{FatFilesystem, FatType, FatError}

-- The block at a distance from the start of the partition.
abbrev pub read_device : FatFilesystem → ℕ → Fallible FatError (List ℕ)
read_device fs block =
    map_err (λ _. FatError.read_error) (fs.device.read_block block fs.device_block_size)

-- The entry's offset in the table.
abbrev pub fat_byte_offset : FatType → ℕ → ℕ
fat_byte_offset FatType.fat12 cluster = cluster * 3 / 2
fat_byte_offset FatType.fat16 cluster = cluster * 2
fat_byte_offset FatType.fat32 cluster = cluster * 4

abbrev pub entry_byte_offset : FatFilesystem → ℕ → ℕ
entry_byte_offset fs cluster =
    fs.fat_start * fs.bytes_per_sector + fat_byte_offset fs.fat_type cluster

-- Two or four bytes from an offset in a block on; the entry may go on in the next block.
unfoldable pub two_bytes : FatFilesystem → ℕ → ℕ → List ℕ → Fallible FatError ℕ
two_bytes fs block offset buffer =
    if ltb (offset + 1) fs.device_block_size
    then ok (combine (byte buffer offset) (byte buffer (offset + 1)))
    else (read_device fs (add64 block 1) >>= λ next.
        ok (combine (byte buffer offset) (byte next 0)))

abbrev pub spliced : List ℕ → ℕ → ℕ → List ℕ → ℕ → ℕ
spliced buffer offset bytes_in_current next i =
    if ltb i bytes_in_current then byte buffer (offset + i) else byte next (i - bytes_in_current)

unfoldable pub four_bytes : FatFilesystem → ℕ → ℕ → List ℕ → Fallible FatError ℕ
four_bytes fs block offset buffer =
    if ltb (offset + 3) fs.device_block_size
    then ok (le32 (byte buffer) offset)
    else (read_device fs (add64 block 1) >>= λ next.
        ok (le32 (spliced buffer offset (fs.device_block_size - offset) next) 0))

-- The end of the chain, a reserved or bad cluster, or the next one.
unfoldable pub link : ℕ → ℕ → ℕ → Fallible FatError (Option ℕ)
link end bad val =
    if leb end val
    then ok none
    else if leb bad val
    then err FatError.invalid_cluster
    else ok (some val)

-- The twelve bits of the entry of an odd or an even cluster.
abbrev pub twelve_bits : ℕ → ℕ → ℕ
twelve_bits cluster entry = if cluster % 2 == 0 then entry % 2 ^ 12 else entry / 2 ^ 4

unfoldable pub link_of : FatType → ℕ → ℕ → Fallible FatError (Option ℕ)
link_of FatType.fat12 cluster entry = link 0x0FF8 0x0FF0 (twelve_bits cluster entry)
link_of FatType.fat16 cluster entry = link 0xFFF8 0xFFF0 entry
link_of FatType.fat32 cluster entry = link 0x0FFFFFF8 0x0FFFFFF0 (entry % 2 ^ 28)

abbrev pub entry_bytes : FatFilesystem → ℕ → ℕ → List ℕ → FatType → Fallible FatError ℕ
entry_bytes fs block offset buffer FatType.fat32 = four_bytes fs block offset buffer
entry_bytes fs block offset buffer _ = two_bytes fs block offset buffer

unfoldable pub next_cluster : FatFilesystem → ℕ → Fallible FatError (Option ℕ)
next_cluster fs cluster =
    let at = entry_byte_offset fs cluster in
    let block = add64 fs.partition_start (at / fs.device_block_size) in
    let offset = at % fs.device_block_size in
    if ltb cluster 2
    then err FatError.invalid_cluster
    else (read_device fs block >>= λ buffer.
        entry_bytes fs block offset buffer fs.fat_type >>= λ entry.
        link_of fs.fat_type cluster entry)
