-- ===== src/Iso.antt =====
-- src/fs/iso9660.rs: the EFI boot image of an ISO 9660 image with an El Torito boot catalog.
pub mod Entries
pub mod Catalog
mod Tests
use crab_efi.Prelude.{
  ℕ, zero, suc, ◌+◌, ◌*◌, ◌/◌, Bool, true, false, not, ◌&&◌, ◌||◌, Option, none, some, List, [],
  ◌∷◌, ◌++◌, ◌==◌, leb, ltb, if◌then◌else◌, drop, replicate,
}
use crab_efi.Bytes.{byte, bytes_at, bytes_eq, le16, le32}
use crab_efi.Disk.{BlockDevice, BlockError, Fallible, ok, err, guard, ◌>>=◌, ◌>>◌, map_err}

abbrev pub iso_sector_size : ℕ
iso_sector_size = 2048

abbrev pub boot_record_sector : ℕ
boot_record_sector = 17

abbrev pub platform_efi : ℕ
platform_efi = 0xEF

pub data IsoError : Type 0 where
  read_error not_iso9660 no_el_torito invalid_catalog no_efi_entry : IsoError

-- An error, a panic, and a loop that has not ended.
pub data Fault : Type 0 where
  error : IsoError → Fault
  panic out_of_fuel : Fault

pub record EfiBootImage : Type 0 where
  pub start_sector : ℕ
  pub sector_count : ℕ
  pub size_bytes : ℕ

-- `CD001`
abbrev pub cd001_signature : List ℕ
cd001_signature = b'C' ∷ b'D' ∷ b'0' ∷ b'0' ∷ b'1' ∷ []

-- `EL TORITO SPECIFICATION`
abbrev pub el_torito_signature : List ℕ
el_torito_signature =
    (b'E' ∷ b'L' ∷ 0x20 ∷ b'T' ∷ b'O' ∷ b'R' ∷ b'I' ∷ b'T' ∷ b'O' ∷ 0x20 ∷ [])
    ++ (b'S' ∷ b'P' ∷ b'E' ∷ b'C' ∷ b'I' ∷ b'F' ∷ b'I' ∷ b'C' ∷ b'A' ∷ b'T' ∷ b'I' ∷ b'O' ∷ b'N'
        ∷ [])

-- The blocks of the device from the i-th of a sector on, so many of them.
abbrev pub read_parts : BlockDevice → ℕ → ℕ → ℕ → Fallible BlockError (List ℕ)
read_parts device first i zero = ok []
read_parts device first i (suc n) = device.read_block (first + i) device.block_size >>= λ bytes.
    (read_parts device first (i + 1) n >>= λ rest. ok (bytes ++ rest))

-- A sector is read over the buffer. A block that is longer than the buffer is a panic.
abbrev pub read_sector : BlockDevice → ℕ → List ℕ → Fallible Fault (List ℕ)
read_sector device first buffer =
    let parts = iso_sector_size / device.block_size in
    if ltb device.block_size iso_sector_size
    then map_err (λ e. error IsoError.read_error)
        (read_parts device first 0 parts >>= λ bytes.
          ok (bytes ++ drop (parts * device.block_size) buffer))
    else if ltb iso_sector_size device.block_size
    then err panic
    else map_err (λ e. error IsoError.read_error) (device.read_block first device.block_size)

-- The blocks of the device in a sector.
abbrev pub parts_of : BlockDevice → ℕ
parts_of device = iso_sector_size / device.block_size

-- The tests of the boot record.
abbrev pub check_boot_record : List ℕ → Fallible Fault (Unit {0})
check_boot_record buffer = do
  guard (bytes_eq (bytes_at (byte buffer) 1 5) cd001_signature) (error IsoError.not_iso9660)
  guard (byte buffer 0 == 0) (error IsoError.no_el_torito)
  guard (bytes_eq (bytes_at (byte buffer) 7 23) el_torito_signature) (error IsoError.no_el_torito)

-- The boot catalog: the first half of `find_efi_boot_image`. A block size of 0 is a division by 0.
pub read_catalog : BlockDevice → Fallible Fault (List ℕ)
read_catalog device =
    if device.block_size == 0
    then err panic
    else (read_sector device (boot_record_sector * parts_of device) (replicate iso_sector_size 0)
        >>= λ buffer.
            (check_boot_record buffer
              >> read_sector device (le32 (byte buffer) 0x47 * parts_of device) buffer))

-- The image of the entry at an offset. No image has fewer sectors than none, so the source's test of
-- the count makes no difference.
abbrev pub image_at : List ℕ → ℕ → ℕ → EfiBootImage
image_at buffer parts offset = record {
  start_sector = le32 (byte buffer) (offset + 8) * parts;
  sector_count = le16 (byte buffer) (offset + 6) * parts;
  size_bytes = le16 (byte buffer) (offset + 6) * iso_sector_size;
}

-- The loop over the entries of a section: the offset of the entry that is booted, or the offset behind.
pub data Search : Type 0 where
  found_at : ℕ → Search
  behind : ℕ → Search

pub search_entries : List ℕ → ℕ → ℕ → ℕ → Search
search_entries buffer platform zero offset = behind offset
search_entries buffer platform (suc n) offset =
    let rest = search_entries buffer platform n (offset + 32) in
    if ltb iso_sector_size (offset + 32)
    then behind offset
    else if platform == platform_efi && byte buffer offset == 0x88
    then found_at offset
    else rest

-- After a section: found, the last section, or on to the next.
abbrev pub after_section :
    List ℕ → ℕ → ℕ → (ℕ → Fallible Fault EfiBootImage) → Search → Fallible Fault EfiBootImage
after_section buffer parts indicator next (found_at offset) = ok (image_at buffer parts offset)
after_section buffer parts indicator next (behind offset) =
    if indicator == 0x91 then err (error IsoError.no_efi_entry) else next offset

-- The loop over the sections.
pub search_sections : ℕ → List ℕ → ℕ → ℕ → Fallible Fault EfiBootImage
search_sections zero buffer parts offset = err out_of_fuel
search_sections (suc fuel) buffer parts offset =
    let next : ℕ → Fallible Fault EfiBootImage = λ o. search_sections fuel buffer parts o in
    if leb (offset + 32) iso_sector_size
    then if byte buffer offset == 0x90 || byte buffer offset == 0x91
      then after_section buffer parts (byte buffer offset) next (
          search_entries buffer (byte buffer (offset + 1)) (le16 (byte buffer) (offset + 2))
            (offset + 32))
      else err (error IsoError.no_efi_entry)
    else err (error IsoError.no_efi_entry)

-- The second half of `find_efi_boot_image`. Each section is at least 32 bytes of the 1984 that are
-- left, so 64 are more than there can be.
pub scan_catalog : List ℕ → ℕ → Fallible Fault EfiBootImage
scan_catalog buffer parts =
    if byte buffer 0 == 1 && byte buffer 30 == 0x55 && byte buffer 31 == 0xAA
    then if byte buffer 1 == platform_efi && byte buffer 32 == 0x88
      then ok (image_at buffer parts 32)
      else search_sections 64 buffer parts 64
    else err (error IsoError.invalid_catalog)

pub find_efi_boot_image : BlockDevice → Fallible Fault EfiBootImage
find_efi_boot_image device = read_catalog device >>= λ buffer. scan_catalog buffer (parts_of device)

abbrev pub has_signature : Fallible BlockError (List ℕ) → Bool
has_signature (err failure) = false
has_signature (ok buffer) = bytes_eq (bytes_at (byte buffer) 1 5) cd001_signature

-- A read of eight bytes; none is a division by 0.
pub is_iso9660 : BlockDevice → Option Bool
is_iso9660 device =
    if device.block_size == 0
    then none
    else some (has_signature (device.read_block (16 * parts_of device) 8))
