-- ===== src/Pe.antt =====
-- src/pe/mod.rs: the headers of a PE32+ file. The file is the list of its bytes; a header's fields are
-- read at their offsets.
pub mod Relocate
pub mod Load
pub mod Writing
pub mod Loading
mod Tests
use crab_efi.Prelude.{
  ℕ, ◌+◌, ◌*◌, Bool, true, false, not, ◌&&◌, ◌||◌, List, ◌==◌, leb, ltb, if◌then◌else◌, length,
  checked_add, checked_mul,
}
use crab_efi.Status.{
  Status, invalid_parameter, unsupported, Result, ok, err, ok_or, guard, ◌>>=◌, ◌>>◌,
}
use crab_efi.Bytes.{byte, le16, le32, le64}

abbrev pub dos_magic : ℕ
dos_magic = 0x5A4D

abbrev pub pe_signature : ℕ
pe_signature = 0x00004550

abbrev pub pe32_plus_magic : ℕ
pe32_plus_magic = 0x020B

abbrev pub image_file_machine_amd64 : ℕ
image_file_machine_amd64 = 0x8664

abbrev pub max_image_size : ℕ
max_image_size = 256 * 1024 * 1024

abbrev pub max_sections : ℕ
max_sections = 96

abbrev pub max_data_directories : ℕ
max_data_directories = 16

-- `size_of` of `DosHeader`, `CoffHeader`, `OptionalHeader64`, `SectionHeader` and `DataDirectory`.
abbrev pub dos_header_size : ℕ
dos_header_size = 64

abbrev pub coff_header_size : ℕ
coff_header_size = 20

abbrev pub optional_header_size : ℕ
optional_header_size = 112

abbrev pub section_header_size : ℕ
section_header_size = 40

abbrev pub data_directory_size : ℕ
data_directory_size = 8

-- `ref_from_prefix(&data[offset..])` finds a structure of the size.
abbrev pub has_room : List ℕ → ℕ → ℕ → Bool
has_room bytes offset size = leb (offset + size) (length bytes)

-- The DOS header and the PE signature: the offset of the latter.
unfoldable pub parse_dos : List ℕ → Result ℕ
parse_dos bytes = do
  guard (has_room bytes 0 dos_header_size) invalid_parameter
  guard (le16 (byte bytes) 0 == dos_magic) invalid_parameter
  let pe_offset = le32 (byte bytes) 60
  pe_sig_end ← ok_or (checked_add pe_offset 4) invalid_parameter
  guard (leb pe_sig_end (length bytes)) invalid_parameter
  guard (le32 (byte bytes) pe_offset == pe_signature) invalid_parameter
  ok pe_offset

pub record CoffHeader : Type 0 where
  pub num_sections : ℕ
  pub opt_header_size : ℕ
  pub opt_offset : ℕ

-- The COFF header behind the signature.
unfoldable pub parse_coff : List ℕ → ℕ → Result CoffHeader
parse_coff bytes pe_offset = do
  coff_offset ← ok_or (checked_add pe_offset 4) invalid_parameter
  guard (has_room bytes coff_offset coff_header_size) invalid_parameter
  coff_end ← ok_or (checked_add coff_offset coff_header_size) invalid_parameter
  let num_sections = le16 (byte bytes) (coff_offset + 2)
  let opt_header_size = le16 (byte bytes) (coff_offset + 16)
  guard (le16 (byte bytes) coff_offset == image_file_machine_amd64) unsupported
  guard (leb num_sections max_sections) invalid_parameter
  guard (leb optional_header_size opt_header_size) invalid_parameter
  ok (record {
    num_sections = num_sections;
    opt_header_size = opt_header_size;
    opt_offset = coff_end;
  })

pub record OptionalHeader : Type 0 where
  pub image_base : ℕ
  pub image_size : ℕ
  pub entry_point_rva : ℕ
  pub size_of_headers : ℕ
  pub num_data_dirs : ℕ

-- The optional header, with the checks on its fields.
unfoldable pub parse_optional : List ℕ → CoffHeader → Result OptionalHeader
parse_optional bytes coff = do
  let at = λ (i : ℕ). coff.opt_offset + i
  guard (has_room bytes coff.opt_offset optional_header_size) invalid_parameter
  opt_end ← ok_or (checked_add coff.opt_offset coff.opt_header_size) invalid_parameter
  let image_size = le32 (byte bytes) (at 56)
  let entry_point_rva = le32 (byte bytes) (at 16)
  let size_of_headers = le32 (byte bytes) (at 60)
  let num_data_dirs = le32 (byte bytes) (at 108)
  guard (le16 (byte bytes) (at 0) == pe32_plus_magic) unsupported
  guard (not (image_size == 0 || ltb max_image_size image_size)) invalid_parameter
  guard (ltb entry_point_rva image_size) invalid_parameter
  guard (not (ltb image_size size_of_headers || ltb (length bytes) size_of_headers))
      invalid_parameter
  guard (leb num_data_dirs max_data_directories) invalid_parameter
  ok (record {
    image_base = le64 (byte bytes) (at 24);
    image_size = image_size;
    entry_point_rva = entry_point_rva;
    size_of_headers = size_of_headers;
    num_data_dirs = num_data_dirs;
  })

pub record Headers : Type 0 where
  pub coff : CoffHeader
  pub optional : OptionalHeader
  pub sections_offset : ℕ
  pub sections_end : ℕ

-- What `load_image` checks before it allocates anything.
unfoldable pub parse_headers : List ℕ → Result Headers
parse_headers bytes = do
  pe_offset ← parse_dos bytes
  coff ← parse_coff bytes pe_offset
  optional ← parse_optional bytes coff
  sections_offset ← ok_or (checked_add coff.opt_offset coff.opt_header_size) invalid_parameter
  section_headers_size ← ok_or (checked_mul coff.num_sections section_header_size) invalid_parameter
  sections_end ← ok_or (checked_add sections_offset section_headers_size) invalid_parameter
  guard (leb sections_end (length bytes)) invalid_parameter
  ok (record {
    coff = coff;
    optional = optional;
    sections_offset = sections_offset;
    sections_end = sections_end;
  })
